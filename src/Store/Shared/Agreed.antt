-- ===== src/Store/Shared/Agreed.antt =====
-- The calls of an instance that reads what another one has allocated.
use mathlib.Core.Path.{subst}
use ts_domain_gateway.Common.{
  ℕ, ◌+◌, ◌^◌, ◌<◌, ◌≤◌, ◌≡◌, ◌∙◌, sym, ap, refl, Bool, true, List, [], ◌∷◌, Option, none, some,
  nat_eq, list_eq, eq_iff, All, arith,
}
use ts_domain_gateway.GoText.{Bytes}
use ts_domain_gateway.Net.{Addr, Prefix}
use ts_domain_gateway.Alloc.{Mapping, lookup_key_live, lookup_live}
use ts_domain_gateway.Store.{
  Row, Registry, Exec, ◌>>=◌, pure, continue, has_key, select_key, select_ip, update_expiry,
  take_row, find_or_insert, allocate_miss, sql_allocate, statement, run_statement, interfere, renew,
  set_renewed, remembered, remember_hit, cached_key, cached_ip, name_row, lookup_miss, sql_lookup,
  key_row, lookup_key_miss, sql_lookup_key, unix_nano, order,
}
use ts_domain_gateway.Store.Gives.{Allows, interfere_lem}
use ts_domain_gateway.Store.Leased.{find_row-All, row_of, row_of-select_key, row_of-select_ip}
use ts_domain_gateway.Store.Others.{Lasts-is_live, Steps, Steps-IsStable}
use ts_domain_gateway.Store.Shared.{IsText, ReadsBack, Leased, until, R, IsCalm, Step-Leased}
use ts_domain_gateway.Store.Shared.Allocated.{allocate-Leased}

pub every : (rows : List Row) → All (λ _. Unit {0}) rows
every [] = tt
every (row ∷ rows) = (tt, every rows)

interfere_faults :
    (others : List (List Row → List Row)) (s : Registry) → (interfere others s).faults ≡ s.faults
unfolding interfere
interfere_faults [] s = refl
interfere_faults (other ∷ others) s = refl

run_free :
    {A : Type 0} (faults : List Bool) (f : List Row → A × List Row) (s : Registry)
    → faults ≡ []
    → ((run_statement faults f s).0 ≡ some (f s.table).0)
      × ((run_statement faults f s).1.faults ≡ s.faults)
unfolding run_statement
run_free [] f s e = (refl, refl)
run_free (fault ∷ faults) f s e = absurd (ground (arith, e))

-- Times before the year 2262 are in order.
pub order_lt : (a b : ℕ) → a < b → b < 2 ^ 63 → order (unix_nano a) < order (unix_nano b)
order_lt a b h small = omega (arith, h, small)

pub order_le : (a b : ℕ) → a ≤ b → b < 2 ^ 63 → order (unix_nano a) ≤ order (unix_nano b)
order_le a b h small = omega (arith, h, small)

-- A statement of a registry whose statements succeed.
statement_free :
    {A : Type 0} (f : List Row → A × List Row) (s : Registry)
    → s.faults ≡ []
    → ((statement f s).0 ≡ some (f (interfere s.others s).table).0)
      × ((statement f s).1.faults ≡ [])
unfolding statement
statement_free f s free =
    let (result, faults) = run_free s.faults f (interfere s.others s) free in
    (result, faults ∙ interfere_faults s.others s ∙ free)

renew_free :
    (gateway domain : Bytes) (now lease : ℕ) (s : Registry)
    → s.faults ≡ []
    → (renew gateway domain now lease true s).0 ≡ some tt
unfolding renew set_renewed
renew_free gateway domain now lease s free =
    (statement_free (λ rows. (tt, update_expiry gateway domain (unix_nano (now + lease)) rows))
      (set_renewed gateway domain now s) free).0

module _ (to_text : Addr → Bytes) (parse_addr : Bytes → Option Addr) where
  take_row_free :
      (gateway domain : Bytes) (now lease : ℕ) (text : Bytes) (ip : Addr) (s : Registry)
      → s.faults ≡ []
      → parse_addr text ≡ some ip
      → (take_row to_text parse_addr gateway domain now lease text s).0 ≡ some ip
  unfolding take_row remember_hit
  take_row_free gateway domain now lease text ip s free read =
      let after = remembered gateway domain ip (now + lease) s in
      let rest : Addr → Exec Addr = λ x. remember_hit gateway domain x (now + lease) >>= λ _.
      renew gateway domain now lease true >>= λ _. pure x in
      ap (λ o. (continue o rest s).0) read
      ∙ ap (λ o. (continue o (λ _. pure ip) (renew gateway domain now lease true after).1).0)
          (renew_free gateway domain now lease after (unfold remembered in free))

  module _ (gateway domain : Bytes) (now lease : ℕ) (u : Registry) (free : u.faults ≡ []) where
    -- The state behind a look into the cache.
    abbrev seen : Registry
    seen = record u { cache = (lookup_key_live u.cache gateway domain now).0 }

    abbrev reading : Option (Option Row) × Registry
    reading = statement (λ rows. (select_key gateway domain now rows, rows)) seen

    reading_free :
        (row : Row)
        → select_key gateway domain now (interfere u.others seen).table ≡ some row
        → (reading.0 ≡ some (some row)) × (reading.1.faults ≡ [])
    reading_free row found =
        let (result, faults) =
          statement_free (λ rows. (select_key gateway domain now rows, rows)) seen free in
        (result ∙ ap some found, faults)

    lookup_key_free :
        (row : Row) (ip : Addr)
        → (lookup_key_live u.cache gateway domain now).1 ≡ none
        → select_key gateway domain now (interfere u.others seen).table ≡ some row
        → parse_addr row.ip ≡ some ip
        → (sql_lookup_key to_text parse_addr gateway domain now lease u).0 ≡ some (some ip)
    unfolding sql_lookup_key cached_key lookup_key_miss key_row
    lookup_key_free row ip miss found read =
        let (result, faults) = reading_free row found in
        ap (λ hit. (lookup_key_miss to_text parse_addr gateway domain now lease hit seen).0) miss
        ∙ ap (λ o. (continue o (key_row to_text parse_addr gateway domain now lease) reading.1).0)
            result
        ∙ ap
            (λ o.
              (continue o (λ x. pure (some x))
                (take_row to_text parse_addr gateway domain now lease row.ip reading.1).1).0)
            (take_row_free gateway domain now lease row.ip ip reading.1 faults read)

    allocate_free :
        (prefixes : List Prefix) (row : Row) (ip : Addr)
        → (lookup_key_live u.cache gateway domain now).1 ≡ none
        → select_key gateway domain now (interfere u.others seen).table ≡ some row
        → parse_addr row.ip ≡ some ip
        → (sql_allocate to_text parse_addr gateway prefixes domain now lease u).0 ≡ some ip
    unfolding sql_allocate cached_key allocate_miss find_or_insert
    allocate_free prefixes row ip miss found read =
        let (result, faults) = reading_free row found in
        ap (λ hit. (allocate_miss to_text parse_addr gateway prefixes domain now lease hit seen).0)
          miss
        ∙ ap
            (λ o.
              (continue o (find_or_insert to_text parse_addr gateway prefixes domain now lease)
                reading.1).0)
            result
        ∙ take_row_free gateway domain now lease row.ip ip reading.1 faults read

  lookup_free :
      (ip : Addr) (now lease : ℕ) (u : Registry) (row : Row)
      → u.faults ≡ []
      → (lookup_live u.cache ip now).1 ≡ none
      → select_ip
          (to_text ip)
          now
          (interfere u.others (record u { cache = (lookup_live u.cache ip now).0 })).table
        ≡ some row
      → (sql_lookup to_text parse_addr ip now lease u).0
        ≡ some (some (record { gateway = row.gateway; domain = row.domain }))
  unfolding sql_lookup cached_ip lookup_miss name_row remember_hit
  lookup_free ip now lease u row free miss found =
      let after = record u { cache = (lookup_live u.cache ip now).0 } in
      let read = statement (λ rows. (select_ip (to_text ip) now rows, rows)) after in
      let (result, faults) =
        statement_free (λ rows. (select_ip (to_text ip) now rows, rows)) after free in
      let held = remembered row.gateway row.domain ip (now + lease) read.1 in
      let m : Mapping = record { gateway = row.gateway; domain = row.domain } in
      ap (λ hit. (lookup_miss to_text parse_addr ip now lease hit after).0) miss
      ∙ ap (λ o. (continue o (name_row to_text parse_addr ip now lease) read.1).0)
          (result ∙ ap some found)
      ∙ ap
          (λ o.
            (continue o (λ _. pure (some m))
              (renew row.gateway row.domain now lease true held).1).0)
          (renew_free row.gateway row.domain now lease held (unfold remembered in faults))

  -- A row of the key stands for its gateway and its name.
  mapping_of :
      {gateway domain : Bytes} (row : Row) (rows : List Row)
      → row_of gateway domain rows ≡ some row
      → ◌≡◌ {A = Mapping}
          (record { gateway = row.gateway; domain = row.domain })
          (record { gateway = gateway; domain = domain })
  mapping_of {gateway} {domain} row rows e =
      let keyed = (find_row-All (λ _. Unit {0}) (has_key gateway domain) rows (every rows) e).1 in
      ground (arith, keyed, eq_iff row.gateway gateway, eq_iff row.domain domain)

  -- What other instances do up to a place in the order of times.
  abbrev pub Meanwhile : ℕ → List Row → List Row → Type 0
  Meanwhile limit = Steps (IsText to_text parse_addr) limit limit

  module _ (gateway domain : Bytes) (limit : ℕ) (ip : Addr) where
    pub Meanwhile-Leased :
        (rows rows' : List Row)
        → Meanwhile limit rows rows'
        → Leased to_text parse_addr gateway domain limit ip rows
        → Leased to_text parse_addr gateway domain limit ip rows'
    Meanwhile-Leased =
        Steps-IsStable (IsText to_text parse_addr) limit limit
          (Leased to_text parse_addr gateway domain limit ip)
          (Step-Leased to_text parse_addr gateway domain limit ip)

    module _ (u : Registry) (free : u.faults ≡ []) (allowed : Allows (Meanwhile limit) u.others)
        (leased : Leased to_text parse_addr gateway domain limit ip u.table) (later renewal : ℕ)
        (early : order (unix_nano later) < limit) where
      -- The table that the first statement of a call sees.
      first-Leased :
          (s : Registry)
          → s.others ≡ u.others
          → s.table ≡ u.table
          → Leased to_text parse_addr gateway domain limit ip (interfere u.others s).table
      first-Leased s others table =
          (interfere_lem (Meanwhile limit) (Leased to_text parse_addr gateway domain limit ip)
            u.others s Meanwhile-Leased allowed others
            (subst (Leased to_text parse_addr gateway domain limit ip) (sym table) leased)).1

      -- While the lease of a row lasts, its address leads to the key.
      pub Leased-lookup :
          (lookup_live u.cache ip later).1 ≡ none
          → (sql_lookup to_text parse_addr ip later renewal u).0
            ≡ some (some (record { gateway = gateway; domain = domain }))
      Leased-lookup no_ip =
          let after = record u { cache = (lookup_live u.cache ip later).0 } in
          let (sound, (text, held, read, written)) = first-Leased after refl refl in
          let rows = (interfere u.others after).table in
          let live = Lasts-is_live limit later held.row held.lasts early in
          let found : select_ip (to_text ip) later rows ≡ some held.row =
            ap (λ t. select_ip t later rows) (written ∙ sym held.same)
            ∙ row_of-select_ip gateway domain later rows sound.0 held.held live in
          lookup_free ip later renewal u held.row free no_ip found
          ∙ ap some (ap some (mapping_of held.row rows held.held))

      -- And the key to its address.
      pub Leased-lookup_key :
          (others : List Prefix)
          → (lookup_key_live u.cache gateway domain later).1 ≡ none
          → ((sql_allocate to_text parse_addr gateway others domain later renewal u).0 ≡ some ip)
            × ((sql_lookup_key to_text parse_addr gateway domain later renewal u).0
                ≡ some (some ip))
      Leased-lookup_key others no_key =
          let after = record u { cache = (lookup_key_live u.cache gateway domain later).0 } in
          let (sound, (text, held, read, written)) = first-Leased after refl refl in
          let rows = (interfere u.others after).table in
          let live = Lasts-is_live limit later held.row held.lasts early in
          let found = row_of-select_key gateway domain later rows held.held live in
          let parsed : parse_addr held.row.ip ≡ some ip = ap parse_addr held.same ∙ read in
          (
            allocate_free gateway domain later renewal u free others held.row ip no_key found
                parsed,
            lookup_key_free gateway domain later renewal u free held.row ip no_key found parsed,
          )

  module _ (back : ReadsBack to_text parse_addr) (gateway domain : Bytes)
      (now lease during : ℕ) where
    -- An address that one instance gets from the shared registry for a name it has not cached is the one
    -- that every other instance gets and finds for this name until the lease ends, whatever ranges it asks
    -- for, and the one that it maps back to the name, where it has not cached the name or the address and
    -- its statements succeed. Between any two statements of both calls, and between the calls, other
    -- instances may insert, delete and renew rows: what they insert or renew lasts as long as the lease;
    -- they delete, before `during`, in the first call, and before the end of the lease behind it. What is
    -- live at the start of the first call lasts until `during`. The lease ends before the nanoseconds
    -- leave int64. Keys and addresses of the table were unique, and its addresses are read as what they
    -- are.
    pub allocate-agreed :
        (prefixes others : List Prefix) (s u : Registry) (ip : Addr) (later renewal : ℕ)
        → now + lease < 2 ^ 63
        → during ≤ now + lease
        → Allows (R to_text parse_addr now lease (order (unix_nano during))) s.others
        → IsCalm to_text parse_addr now lease (order (unix_nano during)) s.table
        → (lookup_key_live s.cache gateway domain now).1 ≡ none
        → (sql_allocate to_text parse_addr gateway prefixes domain now lease s).0 ≡ some ip
        → Meanwhile
            (until now lease)
            (sql_allocate to_text parse_addr gateway prefixes domain now lease s).1.table
            u.table
        → u.faults ≡ []
        → Allows (Meanwhile (until now lease)) u.others
        → (lookup_key_live u.cache gateway domain later).1 ≡ none
        → (lookup_live u.cache ip later).1 ≡ none
        → later < now + lease
        → ((sql_allocate to_text parse_addr gateway others domain later renewal u).0 ≡ some ip)
          × ((sql_lookup_key to_text parse_addr gateway domain later renewal u).0 ≡ some (some ip))
          × ((sql_lookup to_text parse_addr ip later renewal u).0
              ≡ some (some (record { gateway = gateway; domain = domain })))
    allocate-agreed prefixes others s u ip later renewal small short allowed calm miss e past free
          allowed' no_key no_ip early =
        let limit = until now lease in
        let place = order (unix_nano during) in
        let (_, left) =
          allocate-Leased to_text parse_addr back gateway domain now lease place
            (order_le during (now + lease) short small) prefixes s ip allowed calm miss e in
        let leased = Meanwhile-Leased gateway domain limit ip _ u.table past left in
        let before = order_lt later (now + lease) early small in
        let (given, found) =
          Leased-lookup_key gateway domain limit ip u free allowed' leased later renewal before
            others no_key in
        (
          given,
          found,
          Leased-lookup gateway domain limit ip u free allowed' leased later renewal before no_ip,
        )
