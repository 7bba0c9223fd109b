-- ===== src/Store/Shared/Found.antt =====
-- LookupKey for a name that the cache does not hold.
use mathlib.Core.Path.{subst}
use ts_domain_gateway.Common.{
  ℕ, ◌≤◌, ◌≡◌, ◌⊎◌, inl, inr, sym, ap, refl, Option, none, some, Option-cases, nat_eq, list_eq,
}
use ts_domain_gateway.GoText.{Bytes}
use ts_domain_gateway.Net.{Addr}
use ts_domain_gateway.Alloc.{lookup_key_live}
use ts_domain_gateway.Store.{
  Row, Registry, continue, pure, select_key, take_row, statement, cached_key, key_row,
  lookup_key_miss, sql_lookup_key,
}
use ts_domain_gateway.Store.Gives.{Allows, read_cases}
use ts_domain_gateway.Store.Shared.{ReadsBack, Leased, until, R, IsCalm, IsCalm-IsStable}
use ts_domain_gateway.Store.Shared.Allocated.{take_row-Leased, start}

module _ (to_text : Addr → Bytes) (parse_addr : Bytes → Option Addr)
    (back : ReadsBack to_text parse_addr) (gateway domain : Bytes) (now lease during : ℕ)
    (short : during ≤ until now lease) where
  abbrev pub Calm : Registry → Type 0
  Calm t =
      Allows (R to_text parse_addr now lease during) t.others
      × IsCalm to_text parse_addr now lease during t.table

  -- It fails, finds nothing, or finds an address whose lease it renews.
  abbrev pub Answered : Registry → Option (Option Addr) × Registry → Type 0
  Answered s result =
      (result.0 ≡ none)
      ⊎ ((t : Registry) × (result ≡ (some none, t))
          × Calm t
          × (t.cache ≡ (lookup_key_live s.cache gateway domain now).0))
      ⊎ ((ip : Addr) × (t : Registry) × (result ≡ (some (some ip), t))
          × Allows (R to_text parse_addr now lease during) t.others
          × Leased to_text parse_addr gateway domain (until now lease) ip t.table)

  key_row-Answered :
      (s u : Registry) (found : Option Row)
      → Calm u
      → u.cache ≡ (lookup_key_live s.cache gateway domain now).0
      → select_key gateway domain now u.table ≡ found
      → Answered s (key_row to_text parse_addr gateway domain now lease found u)
  unfolding key_row
  key_row-Answered s u none calm cache e = inr (inl (u, refl, calm, cache))
  key_row-Answered s u (some row) calm cache e =
      let taken = take_row to_text parse_addr gateway domain now lease row.ip u in
      let found =
        start to_text parse_addr back gateway domain now lease during short u.table calm.1
          (some row) e in
      elim (Option-cases taken.0) [
        | inl fails ↦ inl (ap (λ o. (continue o (λ ip. pure (some ip)) taken.1).0) fails)
        | inr (ip, gives) ↦
            let (allowed, held) =
              (take_row-Leased to_text parse_addr back gateway domain now lease during short
                  row.ip).at
                u ip calm.0 found gives in
            inr (
              inr (
                ip,
                taken.1,
                ap (λ o. continue o (λ x. pure (some x)) taken.1) gives,
                allowed,
                held,
              ))
      ]

  pub lookup_key-Answered :
      (s : Registry)
      → Calm s
      → (lookup_key_live s.cache gateway domain now).1 ≡ none
      → Answered s (sql_lookup_key to_text parse_addr gateway domain now lease s)
  unfolding sql_lookup_key cached_key lookup_key_miss
  lookup_key-Answered s calm miss =
      let after = record s { cache = (lookup_key_live s.cache gateway domain now).0 } in
      let same =
        ap (λ hit. lookup_key_miss to_text parse_addr gateway domain now lease hit after) miss in
      let reading = statement (λ rows. (select_key gateway domain now rows, rows)) after in
      let go_on = key_row to_text parse_addr gateway domain now lease in
      subst (Answered s) (sym same)
        (elim (read_cases (R to_text parse_addr now lease during)
          (IsCalm to_text parse_addr now lease during) (select_key gateway domain now) after
          (IsCalm-IsStable to_text parse_addr now lease during short) calm.0 calm.1) [
            | inl fails ↦ inl (ap (λ o. (continue o go_on reading.1).0) fails)
            | inr (u, read, calm', cache) ↦
                subst (Answered s) (sym (ap (λ r. continue r.0 go_on r.1) read))
                  (key_row-Answered s u (select_key gateway domain now u.table) calm' cache refl)
          ])
