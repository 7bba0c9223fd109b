-- ===== src/Store.antt =====
-- The shared registry of internal/domain/state.go: SQLStore and its statements on the table of
-- allocations. The table is the list of its rows; each statement is a function on it. A statement may
-- fail, as the schedule `faults` says of each in turn, and then changes nothing. Addresses are
-- stored as text: Addr.String and netip.ParseAddr are parameters. Times are nanoseconds, with 0 for
-- the zero Time; in the table they are int64. Each statement is a step of its own, and other instances
-- change the table between any two. What the object changed before an error stays changed, so a call returns its state
-- beside an error, `none`.
pub mod Constraints
pub mod Gives
pub mod Others
pub mod Leased
pub mod Shared
mod Hosts
pub mod Snapshot
pub mod Open
mod Examples
use ts_domain_gateway.Common.{
  ℕ, zero, suc, ◌+◌, ◌-◌, ◌*◌, ◌%◌, ◌^◌, Bool, true, false, not, ◌&&◌, ◌||◌, List, [], ◌∷◌, ◌++◌,
  Option, none, some, any, ltb, ◌==◌, nat_eq, list_eq, if◌then◌else◌,
}
use ts_domain_gateway.GoText.{Bytes}
use ts_domain_gateway.Net.{Addr, invalid, v4, v6, Prefix, next_addr, prefix_contains}
use ts_domain_gateway.Alloc.Assoc.{Dict, lookup, insert}
use ts_domain_gateway.Alloc.{
  Allocator, Mapping, key_of, first_of, lookup_key_live, lookup_live, remember_until,
}

pub record Row : Type 0 where
  pub gateway : Bytes
  pub domain : Bytes
  pub ip : Bytes
  pub expires : Option ℕ

-- An int64 is the number of its bits. UnixNano, which wraps:
abbrev pub unix_nano : ℕ → ℕ
unix_nano t = t % 2 ^ 64

-- The place of an int64 in their order.
abbrev pub order : ℕ → ℕ
order bits = (bits + 2 ^ 63) % 2 ^ 64

-- A SQLStore with its database, and the allocator that its methods are given. `others` is what the
-- statements of other instances make of the table before each statement to come.
pub record Registry : Type 0 where
  pub table : List Row
  pub faults : List Bool
  pub others : List (List Row → List Row)
  pub last_renewed : Dict Bytes ℕ
  pub cache : Allocator

abbrev pub Exec : Type 0 → Type 0
Exec A = Registry → Option A × Registry

abbrev pub continue : {A B : Type 0} → Option A → (A → Exec B) → Exec B
continue none f s = (none, s)
continue (some a) f s = f a s

infixl 5 ◌>>=◌
abbrev pub ◌>>=◌ : {A B : Type 0} → Exec A → (A → Exec B) → Exec B
◌>>=◌ m f s = continue (m s).0 f (m s).1

abbrev pub pure : {A : Type 0} → A → Exec A
pure a s = (some a, s)

abbrev pub fail : {A : Type 0} → Exec A
fail s = (none, s)

abbrev pub lift : {A : Type 0} → Option A → Exec A
lift o s = (o, s)

pub run_statement : {A : Type 0} → List Bool → (List Row → A × List Row) → Exec A
run_statement (true ∷ faults) f s = (none, record s { faults = faults })
run_statement (false ∷ faults) f s =
    (some (f s.table).0, record s { table = (f s.table).1; faults = faults })
run_statement [] f s = (some (f s.table).0, record s { table = (f s.table).1 })

-- The other instances have their turn.
pub interfere : List (List Row → List Row) → Registry → Registry
interfere [] s = s
interfere (other ∷ others) s = record s { table = other s.table; others = others }

-- One statement of the database.
unfoldable pub statement : {A : Type 0} → (List Row → A × List Row) → Exec A
unfolding run_statement interfere
statement f s = run_statement s.faults f (interfere s.others s)

-- `expires_at > now`, which is not true of NULL
abbrev pub is_live : ℕ → Row → Bool
is_live now row = elim row.expires [ none ↦ false | some t ↦ ltb (order (unix_nano now)) (order t) ]

abbrev pub has_key : Bytes → Bytes → Row → Bool
has_key gateway domain row = row.gateway == gateway && row.domain == domain

unfoldable pub find_row : (Row → Bool) → List Row → Option Row
find_row p [] = none
find_row p (row ∷ rows) = if p row then some row else find_row p rows

-- SELECT … WHERE gateway = ? AND domain = ? AND expires_at > ?
unfoldable pub select_key : Bytes → Bytes → ℕ → List Row → Option Row
unfolding find_row
select_key gateway domain now = find_row (λ row. has_key gateway domain row && is_live now row)

-- SELECT … WHERE ip = ? AND expires_at > ?
unfoldable pub select_ip : Bytes → ℕ → List Row → Option Row
unfolding find_row
select_ip ip now = find_row (λ row. row.ip == ip && is_live now row)

-- DELETE … WHERE expires_at IS NULL OR expires_at <= ?
unfoldable pub delete_expired : ℕ → List Row → List Row
delete_expired now [] = []
delete_expired now (row ∷ rows) =
    if is_live now row then row ∷ delete_expired now rows else delete_expired now rows

-- UPDATE … SET expires_at = ? WHERE gateway = ? AND domain = ?
unfoldable pub update_expiry : Bytes → Bytes → ℕ → List Row → List Row
update_expiry gateway domain expiry [] = []
update_expiry gateway domain expiry (row ∷ rows) =
    (if has_key gateway domain row then record row { expires = some expiry } else row)
    ∷ update_expiry gateway domain expiry rows

-- The primary key and the unique address.
abbrev pub conflicts : Row → List Row → Bool
conflicts new rows = any (λ row. has_key new.gateway new.domain row || row.ip == new.ip) rows

-- INSERT … ON CONFLICT DO NOTHING, with the count of rows inserted
unfoldable pub insert_row : Row → List Row → ℕ × List Row
insert_row new rows = if conflicts new rows then (0, rows) else (1, rows ++ new ∷ [])

abbrev pub renewal_debounce : ℕ
renewal_debounce = 5 * 60 * 10 ^ 9

abbrev pub renewed_at : Registry → Bytes → ℕ
renewed_at s key = elim (lookup key s.last_renewed) [ none ↦ 0 | some t ↦ t ]

set_renewed : Bytes → Bytes → ℕ → Registry → Registry
set_renewed gateway domain now s = record s {
  last_renewed = insert (key_of gateway domain) now s.last_renewed;
}

unfoldable pub renew : Bytes → Bytes → ℕ → ℕ → Bool → Exec (Unit {0})
unfolding set_renewed statement update_expiry
renew gateway domain now lease force s =
    let last = renewed_at s (key_of gateway domain) in
    if not force && not (last == 0) && ltb (now - last) renewal_debounce
    then (some tt, s)
    else statement (λ rows. (tt, update_expiry gateway domain (unix_nano (now + lease)) rows))
        (set_renewed gateway domain now s)

remembered : Bytes → Bytes → Addr → ℕ → Registry → Registry
remembered gateway domain ip expiry s = record s {
  cache = remember_until s.cache gateway domain ip expiry;
}

-- The candidates of Allocate's inner loop: from the first address on while the range holds them.
unfoldable pub hosts_from : ℕ → Prefix → Addr → List Addr
hosts_from zero p ip = []
hosts_from (suc fuel) p ip =
    let rest = hosts_from fuel p (next_addr ip) in if prefix_contains p ip then ip ∷ rest else []

abbrev pub width : Addr → ℕ
width invalid = 0
width (v4 n) = 32
width (v6 n) = 128

-- A range holds at most as many addresses as the fuel.
unfoldable pub hosts : Prefix → List Addr
unfolding hosts_from
hosts p = hosts_from (2 ^ (width p.addr - p.bits)) p (first_of p)

unfoldable pub all_hosts : List Prefix → List Addr
unfolding hosts
all_hosts [] = []
all_hosts (p ∷ prefixes) = hosts p ++ all_hosts prefixes

-- LookupKeyLive on the cache, which forgets what has expired.
pub cached_key : Bytes → Bytes → ℕ → Exec (Option Addr)
cached_key gateway domain now s =
    let (cache, hit) = lookup_key_live s.cache gateway domain now in
    (some hit, record s { cache = cache })

pub cached_ip : Addr → ℕ → Exec (Option Mapping)
cached_ip ip now s =
    let (cache, hit) = lookup_live s.cache ip now in (some hit, record s { cache = cache })

pub remember_hit : Bytes → Bytes → Addr → ℕ → Exec (Unit {0})
unfolding remembered
remember_hit gateway domain ip expiry s = (some tt, remembered gateway domain ip expiry s)

pub mark_renewed : Bytes → Bytes → ℕ → Exec (Unit {0})
unfolding set_renewed
mark_renewed gateway domain now s = (some tt, set_renewed gateway domain now s)

-- Where a round of a loop gives nothing, the rest is done.
abbrev go_on : Option Addr → Exec Addr → Exec Addr
go_on none rest = rest
go_on (some found) rest = pure found

module _ (to_text : Addr → Bytes) (parse_addr : Bytes → Option Addr) where
  -- What Allocate does behind the query that follows an insertion; `some none` goes on.
  answer : Bytes → Bytes → ℕ → ℕ → ℕ → Option Row → Exec (Option Addr)
  unfolding remember_hit mark_renewed
  answer gateway domain now lease inserted none = if inserted == 0 then pure none else fail
  answer gateway domain now lease inserted (some row) = do
    ip ← lift (parse_addr row.ip)
    _ ← remember_hit gateway domain ip (now + lease)
    _ ← mark_renewed gateway domain now
    pure (some ip)

  -- One round of the loops of Allocate.
  unfoldable pub try_address : Bytes → Bytes → ℕ → ℕ → Addr → Exec (Option Addr)
  unfolding answer statement insert_row select_key
  try_address gateway domain now lease ip = do
    inserted ← statement (
        insert_row (record {
          gateway = gateway;
          domain = domain;
          ip = to_text ip;
          expires = some (unix_nano (now + lease));
        }))
    found ← statement (λ rows. (select_key gateway domain now rows, rows))
    answer gateway domain now lease inserted found

  -- The loops; an error where no address is left.
  unfoldable pub try_addresses : Bytes → Bytes → ℕ → ℕ → List Addr → Exec Addr
  unfolding try_address
  try_addresses gateway domain now lease [] = fail
  try_addresses gateway domain now lease (ip ∷ ips) =
      try_address gateway domain now lease ip >>= λ result.
      go_on result (try_addresses gateway domain now lease ips)

  -- A row that is found: its address is remembered and its lease renewed.
  unfoldable pub take_row : Bytes → Bytes → ℕ → ℕ → Bytes → Exec Addr
  unfolding remember_hit renew
  take_row gateway domain now lease text = do
    ip ← lift (parse_addr text)
    _ ← remember_hit gateway domain ip (now + lease)
    _ ← renew gateway domain now lease true
    pure ip

  unfoldable pub find_or_insert : Bytes → List Prefix → Bytes → ℕ → ℕ → Option Row → Exec Addr
  unfolding take_row try_addresses all_hosts delete_expired statement
  find_or_insert gateway prefixes domain now lease (some row) =
      take_row gateway domain now lease row.ip
  find_or_insert gateway prefixes domain now lease none = do
    _ ← statement (λ rows. (tt, delete_expired now rows))
    try_addresses gateway domain now lease (all_hosts prefixes)

  allocate_miss : Bytes → List Prefix → Bytes → ℕ → ℕ → Option Addr → Exec Addr
  unfolding find_or_insert remember_hit renew statement select_key
  allocate_miss gateway prefixes domain now lease (some ip) = do
    _ ← remember_hit gateway domain ip (now + lease)
    _ ← renew gateway domain now lease false
    pure ip
  allocate_miss gateway prefixes domain now lease none = do
    found ← statement (λ rows. (select_key gateway domain now rows, rows))
    find_or_insert gateway prefixes domain now lease found

  -- SQLStore.Allocate
  unfoldable pub sql_allocate : Bytes → List Prefix → Bytes → ℕ → ℕ → Exec Addr
  unfolding cached_key allocate_miss
  sql_allocate gateway prefixes domain now lease = do
    hit ← cached_key gateway domain now
    allocate_miss gateway prefixes domain now lease hit

  name_row : Addr → ℕ → ℕ → Option Row → Exec (Option Mapping)
  unfolding remember_hit renew
  name_row ip now lease none = pure none
  name_row ip now lease (some row) = do
    _ ← remember_hit row.gateway row.domain ip (now + lease)
    _ ← renew row.gateway row.domain now lease true
    pure (some (record { gateway = row.gateway; domain = row.domain }))

  lookup_miss : Addr → ℕ → ℕ → Option Mapping → Exec (Option Mapping)
  unfolding name_row remember_hit renew statement select_ip
  lookup_miss ip now lease (some m) = do
    _ ← remember_hit m.gateway m.domain ip (now + lease)
    _ ← renew m.gateway m.domain now lease false
    pure (some m)
  lookup_miss ip now lease none = do
    found ← statement (λ rows. (select_ip (to_text ip) now rows, rows))
    name_row ip now lease found

  -- SQLStore.Lookup
  unfoldable pub sql_lookup : Addr → ℕ → ℕ → Exec (Option Mapping)
  unfolding cached_ip lookup_miss
  sql_lookup ip now lease = do hit ← cached_ip ip now; lookup_miss ip now lease hit

  key_row : Bytes → Bytes → ℕ → ℕ → Option Row → Exec (Option Addr)
  unfolding take_row
  key_row gateway domain now lease none = pure none
  key_row gateway domain now lease (some row) =
      take_row gateway domain now lease row.ip >>= λ ip. pure (some ip)

  lookup_key_miss : Bytes → Bytes → ℕ → ℕ → Option Addr → Exec (Option Addr)
  unfolding key_row renew statement select_key
  lookup_key_miss gateway domain now lease (some ip) =
      renew gateway domain now lease false >>= λ _. pure (some ip)
  lookup_key_miss gateway domain now lease none = do
    found ← statement (λ rows. (select_key gateway domain now rows, rows))
    key_row gateway domain now lease found

  -- SQLStore.LookupKey
  unfoldable pub sql_lookup_key : Bytes → Bytes → ℕ → ℕ → Exec (Option Addr)
  unfolding cached_key lookup_key_miss
  sql_lookup_key gateway domain now lease = do
    hit ← cached_key gateway domain now
    lookup_key_miss gateway domain now lease hit
