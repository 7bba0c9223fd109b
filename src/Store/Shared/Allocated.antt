-- ===== src/Store/Shared/Allocated.antt =====
-- Allocate of SQLStore for a name that the cache does not hold, statement by statement.
use mathlib.Core.Path.{subst}
use ts_domain_gateway.Common.{
  ℕ, ◌+◌, ◌≤◌, ◌≡◌, ◌∙◌, inl, inr, sym, ap, refl, true, false, ◌&&◌, List, [], ◌∷◌, Option, none,
  some, ◌==◌, nat_eq, list_eq, All, arith, Bool-cases,
}
use ts_domain_gateway.GoText.{Bytes}
use ts_domain_gateway.Net.{Addr, Prefix}
use ts_domain_gateway.Alloc.{lookup_key_live}
use ts_domain_gateway.Store.{
  Row, Registry, Exec, pure, fail, has_key, is_live, find_row, select_key, delete_expired,
  insert_row, answer, try_address, try_addresses, take_row, find_or_insert, allocate_miss,
  sql_allocate, cached_key, go_on, all_hosts, unix_nano,
}
use ts_domain_gateway.Store.Constraints.{
  insert_row-IsUnique, delete_expired-IsUnique, update_expiry-IsUnique, update_expiry-All,
  delete_expired-All,
}
use ts_domain_gateway.Store.Gives.{
  Gives, pure-Gives, fail-Gives, statement-Gives, lift-Gives, bind-Gives, choose-Gives,
  remember_hit-Gives, mark_renewed-Gives, renew-Gives, Allows,
}
use ts_domain_gateway.Store.Leased.{find_row-All, select_key-row_of}
use ts_domain_gateway.Store.Others.{Lasts, HeldAt, renewed-HeldAt, insert_row-All}
use ts_domain_gateway.Store.Shared.{
  IsText, IsSound, ReadsBack, back-IsText, Leased, until, R, IsCalm, IsOpen, IsFree, IsFound,
  IsCalm-IsStable, IsOpen-IsStable, IsFree-IsStable, IsFound-IsStable,
}

-- Both parts of a property of every row.
pub All-map :
    (P Q : Row → Type 0)
    → ((row : Row) → P row → Q row)
    → (rows : List Row) → All P rows
    → All Q rows
All-map P Q k [] h = tt
All-map P Q k (row ∷ rows) h = (k row h.0, All-map P Q k rows h.1)

-- A row that a query finds by the key has the key and is live.
select_key-All :
    (P : Row → Type 0) (gateway domain : Bytes) (now : ℕ) (rows : List Row) {row : Row}
    → All P rows
    → select_key gateway domain now rows ≡ some row
    → P row × (has_key gateway domain row ≡ true) × (is_live now row ≡ true)
unfolding select_key
select_key-All P gateway domain now rows {row} h e =
    let (p, test) = find_row-All P (λ r. has_key gateway domain r && is_live now r) rows h e in
    (p, ground (arith, test), ground (arith, test))

-- No row that a query by the key passes over is live.
select_key-none :
    (gateway domain : Bytes) (now : ℕ) (rows : List Row)
    → select_key gateway domain now rows ≡ none
    → All (λ row. has_key gateway domain row ≡ true → is_live now row ≡ false) rows
unfolding select_key find_row
select_key-none gateway domain now [] e = tt
select_key-none gateway domain now (row ∷ rows) e =
    elim (Bool-cases (has_key gateway domain row && is_live now row)) [
      | inl hit ↦ absurd (ground (arith, e, hit))
      | inr miss ↦ (
        λ k. ground (arith, k, miss),
        select_key-none gateway domain now rows (ground (arith, e, miss)),
      )
    ]

delete_expired-live :
    (now : ℕ) (P Q : Row → Type 0) (rows : List Row)
    → ((row : Row) → is_live now row ≡ true → P row → Q row)
    → All P rows
    → All Q (delete_expired now rows)
unfolding delete_expired
delete_expired-live now P Q [] k h = tt
delete_expired-live now P Q (row ∷ rows) k h = elim (Bool-cases (is_live now row)) [
  | inl live ↦ rw live (k row live h.0, delete_expired-live now P Q rows k h.1)
  | inr old ↦ rw old (delete_expired-live now P Q rows k h.1)
]

module _ (to_text : Addr → Bytes) (parse_addr : Bytes → Option Addr)
    (back : ReadsBack to_text parse_addr) (gateway domain : Bytes) (now lease during : ℕ)
    (short : during ≤ until now lease) where
  abbrev E : ℕ
  E = until now lease

  abbrev T : List Row → List Row → Type 0
  T = R to_text parse_addr now lease during

  abbrev Free : List Row → Type 0
  Free = IsFree to_text parse_addr gateway domain now lease during

  abbrev Result : Addr → List Row → Type 0
  Result = Leased to_text parse_addr gateway domain E

  -- What the query behind an insertion finds.
  abbrev Seen : Option Row → List Row → Type 0
  Seen none rows = Free rows
  Seen (some row) rows =
      IsSound to_text parse_addr rows
      × HeldAt gateway domain E row.ip rows
      × IsText to_text parse_addr row.ip

  seen :
      (rows : List Row)
      → Free rows
      → (found : Option Row) → select_key gateway domain now rows ≡ found
      → Seen found rows
  seen rows h none e = h
  seen rows h (some row) e =
      let (written, key, _) =
        select_key-All (λ r. IsText to_text parse_addr r.ip) gateway domain now rows h.0.1 e in
      let (lasts, _, _) =
        select_key-All (λ r. has_key gateway domain r ≡ true → Lasts E r) gateway domain now rows
          h.1 e in
      (
        h.0,
        record {
          row = row;
          held = select_key-row_of gateway domain now rows h.0.0 e;
          same = refl;
          lasts = lasts key;
        },
        written,
      )

  abbrev After : Option Addr → List Row → Type 0
  After none rows = Free rows
  After (some ip) rows = Result ip rows

  answer-After :
      (count : ℕ) (found : Option Row)
      → Gives T (Seen found) (answer to_text parse_addr gateway domain now lease count found) After
  unfolding answer
  answer-After count none =
      choose-Gives T Free After (count == 0) (pure none) fail
        (pure-Gives T Free After none (λ rows h. h)) (fail-Gives T Free After)
  answer-After count (some row) =
      bind-Gives T _ _ After _ _ (lift-Gives T _ (parse_addr row.ip)) (λ read.
        bind-Gives T _ _ After _ _ (remember_hit-Gives T _ gateway domain read (now + lease)) (λ _.
          bind-Gives T _ _ After _ _ (mark_renewed-Gives T _ gateway domain now) (λ _.
            pure-Gives T _ After (some read)
              (λ rows ((sound, held, written), e). (sound, (row.ip, held, e, written read e))))))

  abbrev new_row : Addr → Row
  new_row ip = record {
    gateway = gateway;
    domain = domain;
    ip = to_text ip;
    expires = some (unix_nano (now + lease));
  }

  insert-Free : (ip : Addr) (rows : List Row) → Free rows → Free (insert_row (new_row ip) rows).1
  insert-Free ip rows ((unique, written), lasting) = (
    (
      insert_row-IsUnique (new_row ip) rows unique,
      insert_row-All (λ row. IsText to_text parse_addr row.ip) (new_row ip) rows
          (back-IsText to_text parse_addr back ip) written,
    ),
    insert_row-All (λ row. has_key gateway domain row ≡ true → Lasts E row) (new_row ip) rows
        (λ _. (unix_nano (now + lease), refl, omega arith)) lasting,
  )

  try_address-After :
      (ip : Addr) → Gives T Free (try_address to_text parse_addr gateway domain now lease ip) After
  unfolding try_address
  try_address-After ip =
      bind-Gives T Free (λ _. Free) After _ _
        (statement-Gives T Free (λ _. Free) (insert_row (new_row ip))
          (IsFree-IsStable to_text parse_addr gateway domain now lease during short)
          (insert-Free ip))
        (λ count.
          bind-Gives T Free Seen After _ _
            (statement-Gives T Free Seen (λ rows. (select_key gateway domain now rows, rows))
              (IsFree-IsStable to_text parse_addr gateway domain now lease during short)
              (λ rows h. seen rows h (select_key gateway domain now rows) refl))
            (λ found. answer-After count found))

  go_on-Gives :
      (result : Option Addr) (rest : Exec Addr)
      → Gives T Free rest Result
      → Gives T (After result) (go_on result rest) Result
  go_on-Gives none rest k = k
  go_on-Gives (some found) rest k = pure-Gives T _ Result found (λ rows h. h)

  try_addresses-Leased :
      (ips : List Addr)
      → Gives T Free (try_addresses to_text parse_addr gateway domain now lease ips) Result
  unfolding try_addresses
  try_addresses-Leased [] = fail-Gives T Free Result
  try_addresses-Leased (ip ∷ ips) =
      bind-Gives T Free After Result _ _ (try_address-After ip)
        (λ result. go_on-Gives result _ (try_addresses-Leased ips))

  -- A row that was there keeps its address and gets a new lease.
  pub take_row-Leased :
      (text : Bytes)
      → Gives T
          (IsFound to_text parse_addr gateway domain now lease during text)
          (take_row to_text parse_addr gateway domain now lease text)
          Result
  unfolding take_row
  take_row-Leased text =
      let Found = IsFound to_text parse_addr gateway domain now lease during text in
      bind-Gives T _ _ Result _ _ (lift-Gives T Found (parse_addr text)) (λ ip.
        bind-Gives T _ _ Result _ _ (remember_hit-Gives T _ gateway domain ip (now + lease)) (λ _.
          bind-Gives T (λ rows. Found rows × (parse_addr text ≡ some ip)) (λ _. Result ip) Result _
            _
            (renew-Gives T _ gateway domain (Result ip) now lease
              (λ rows rows' s h. (
                IsFound-IsStable to_text parse_addr gateway domain now lease during short text rows
                    rows' s h.0,
                h.1,
              ))
              (λ rows (((sound, held), written), read). (
                (
                  update_expiry-IsUnique gateway domain (unix_nano (now + lease)) rows sound.0,
                  update_expiry-All (λ row. IsText to_text parse_addr row.ip) gateway domain
                      (unix_nano (now + lease)) (λ row h. h) rows sound.1,
                ),
                (
                  text,
                  renewed-HeldAt gateway domain during E (unix_nano (now + lease)) text rows held
                      (omega arith),
                  read,
                  written ip read,
                ),
              )))
            (λ _. pure-Gives T _ Result ip (λ rows h. h))))

  -- What the first query finds.
  abbrev pub Start : Option Row → List Row → Type 0
  Start none rows = IsOpen to_text parse_addr gateway domain now lease during rows
  Start (some row) rows = IsFound to_text parse_addr gateway domain now lease during row.ip rows

  pub start :
      (rows : List Row)
      → IsCalm to_text parse_addr now lease during rows
      → (found : Option Row) → select_key gateway domain now rows ≡ found
      → Start found rows
  start rows (sound, calm) none e = (
    sound,
    All-map _ _ (λ row dead key. inl (dead key)) rows (select_key-none gateway domain now rows e),
  )
  start rows (sound, calm) (some row) e =
      let (written, _, live) =
        select_key-All (λ r. IsText to_text parse_addr r.ip) gateway domain now rows sound.1 e in
      let (lasts, _, _) =
        select_key-All (λ r. is_live now r ≡ true → Lasts during r) gateway domain now rows calm
          e in
      (
        (
          sound,
          record {
            row = row;
            held = select_key-row_of gateway domain now rows sound.0 e;
            same = refl;
            lasts = lasts live;
          },
        ),
        written,
      )

  find_or_insert-Leased :
      (prefixes : List Prefix) (found : Option Row)
      → Gives T
          (Start found)
          (find_or_insert to_text parse_addr gateway prefixes domain now lease found)
          Result
  unfolding find_or_insert
  find_or_insert-Leased prefixes (some row) = take_row-Leased row.ip
  find_or_insert-Leased prefixes none =
      bind-Gives T _ (λ _. Free) Result _ _
        (statement-Gives T _ (λ _. Free) (λ rows. (tt, delete_expired now rows))
          (IsOpen-IsStable to_text parse_addr gateway domain now lease during short)
          (λ rows ((unique, written), lapsed). (
            (
              delete_expired-IsUnique now rows unique,
              delete_expired-All (λ row. IsText to_text parse_addr row.ip) now rows written,
            ),
            delete_expired-live now _ _ rows
                (λ row live l key. elim (l key) [
                  | inl dead ↦ absurd (ground (arith, live, dead))
                  | inr lasts ↦ lasts
                ])
                lapsed,
          )))
        (λ _. try_addresses-Leased (all_hosts prefixes))

  miss-Leased :
      (prefixes : List Prefix)
      → Gives T
          (IsCalm to_text parse_addr now lease during)
          (allocate_miss to_text parse_addr gateway prefixes domain now lease none)
          Result
  unfolding allocate_miss
  miss-Leased prefixes =
      bind-Gives T _ Start Result _ _
        (statement-Gives T _ Start (λ rows. (select_key gateway domain now rows, rows))
          (IsCalm-IsStable to_text parse_addr now lease during short)
          (λ rows h. start rows h (select_key gateway domain now rows) refl))
        (λ found. find_or_insert-Leased prefixes found)

  -- Whatever other instances do between its statements, an allocation that succeeds leaves the address
  -- in the row of the name, which lasts as long as the lease.
  pub allocate-Leased :
      (prefixes : List Prefix) (s : Registry) (ip : Addr)
      → Allows T s.others
      → IsCalm to_text parse_addr now lease during s.table
      → (lookup_key_live s.cache gateway domain now).1 ≡ none
      → (sql_allocate to_text parse_addr gateway prefixes domain now lease s).0 ≡ some ip
      → Allows T (sql_allocate to_text parse_addr gateway prefixes domain now lease s).1.others
        × Result ip (sql_allocate to_text parse_addr gateway prefixes domain now lease s).1.table
  unfolding sql_allocate cached_key
  allocate-Leased prefixes s ip allowed calm miss e =
      let after = record s { cache = (lookup_key_live s.cache gateway domain now).0 } in
      let same =
        ap (λ hit. allocate_miss to_text parse_addr gateway prefixes domain now lease hit after)
          miss in
      subst (λ r. Allows T r.1.others × Result ip r.1.table) (sym same)
        ((miss-Leased prefixes).at after ip allowed calm (sym (ap (λ r. r.0) same) ∙ e))
