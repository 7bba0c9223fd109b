-- ===== src/Store/Shared/Cached.antt =====
-- An allocation that the cache answers.
use mathlib.Core.Option.{some_inj}
use ts_domain_gateway.Common.{
  ℕ, ◌+◌, ◌-◌, ◌<◌, ◌≡◌, ◌∙◌, inl, inr, sym, ap, refl, true, false, ◌&&◌, List, Option, none, some,
  ltb, ◌==◌, nat_eq, list_eq, arith, Option-cases,
}
use ts_domain_gateway.GoText.{Bytes}
use ts_domain_gateway.Net.{Addr, Prefix}
use ts_domain_gateway.Alloc.Assoc.{lookup}
use ts_domain_gateway.Alloc.{Allocator, key_of, lookup_key, lookup_key_live, remember_until}
use ts_domain_gateway.Alloc.Maps.{remember_until_cases, lookup_live_cases}
use ts_domain_gateway.Store.{
  Row, Registry, ◌>>=◌, continue, pure, has_key, is_live, select_key, delete_expired, allocate_miss,
  sql_allocate, renew, renewed_at, renewal_debounce, remembered, remember_hit, cached_key,
}
use ts_domain_gateway.Store.Constraints.{IsUnique}
use ts_domain_gateway.Store.Leased.{find_row-All, row_of, select_key-row_of, delete_expired-row_of}
use ts_domain_gateway.Store.Shared.Agreed.{every}

-- A live entry of the cache is left as it is, and so it is when it is remembered again.
hit_cases :
    (a : Allocator) (gateway domain : Bytes) (now : ℕ) {ip : Addr}
    → (lookup_key_live a gateway domain now).1 ≡ some ip
    → ((lookup_key_live a gateway domain now).0 ≡ a)
      × (lookup (key_of gateway domain) a.by_key ≡ some ip)
unfolding lookup_key_live lookup_key
hit_cases a gateway domain now {ip} h =
    elim (Option-cases (lookup (key_of gateway domain) a.by_key)) [
      | inl e ↦ absurd (ground (arith, e, h))
      | inr (x, e) ↦ elim (lookup_live_cases a x now) [
        | inl (same, _, _) ↦ (ground (arith, e, same), ground (arith, e, h))
        | inr (m, _, _, gone) ↦ absurd (ground (arith, e, gone, h))
      ]
    ]

remembered_again :
    (a : Allocator) (gateway domain : Bytes) (ip : Addr) (expiry : ℕ)
    → lookup (key_of gateway domain) a.by_key ≡ some ip
    → remember_until a gateway domain ip expiry ≡ a
remembered_again a gateway domain ip expiry e =
    elim (remember_until_cases a gateway domain ip expiry) [
      | inl same ↦ same
      | inr (no_key, _, _) ↦ absurd (ground (arith, e, no_key))
    ]

-- A row whose lease is over is deleted.
expired-row_of :
    (gateway domain : Bytes) (later : ℕ) (rows : List Row) (row : Row)
    → IsUnique rows
    → row_of gateway domain rows ≡ some row
    → is_live later row ≡ false
    → row_of gateway domain (delete_expired later rows) ≡ none
expired-row_of gateway domain later rows row unique held dead =
    elim (Option-cases (select_key gateway domain later rows)) [
      | inl silent ↦ delete_expired-row_of gateway domain later rows silent
      | inr (r, found) ↦
          let same : r ≡ row =
            some_inj.0 (sym (select_key-row_of gateway domain later rows unique found) ∙ held) in
          let lives : (has_key gateway domain r && is_live later r) ≡ true =
            unfold select_key in
            (find_row-All (λ _. Unit {0}) (λ x. has_key gateway domain x && is_live later x) rows
              (every rows) found).1 in
          absurd (ground (arith, lives, dead, ap (is_live later) same))
    ]

renew_skips :
    (gateway domain : Bytes) (now lease : ℕ) (s : Registry)
    → 0 < renewed_at s (key_of gateway domain)
    → now - renewed_at s (key_of gateway domain) < renewal_debounce
    → renew gateway domain now lease false s ≡ (some tt, s)
unfolding renew
renew_skips gateway domain now lease s renewed recent =
    let set : (renewed_at s (key_of gateway domain) == 0) ≡ false = ground (arith, renewed) in
    let early : ltb (now - renewed_at s (key_of gateway domain)) renewal_debounce ≡ true =
      ground (arith, recent) in
    rw (set, early) refl

module _ (to_text : Addr → Bytes) (parse_addr : Bytes → Option Addr) (gateway domain : Bytes)
    (prefixes : List Prefix) where
  allocate_hit :
      (now lease : ℕ) (s : Registry) {ip : Addr}
      → (lookup_key_live s.cache gateway domain now).1 ≡ some ip
      → 0 < renewed_at s (key_of gateway domain)
      → now - renewed_at s (key_of gateway domain) < renewal_debounce
      → sql_allocate to_text parse_addr gateway prefixes domain now lease s ≡ (some ip, s)
  unfolding sql_allocate cached_key allocate_miss remember_hit remembered
  allocate_hit now lease s {ip} hit renewed recent =
      let (kept, known) = hit_cases s.cache gateway domain now hit in
      let again = remembered_again s.cache gateway domain ip (now + lease) known in
      ap
        (λ h.
          allocate_miss to_text parse_addr gateway prefixes domain now lease h
            (record s { cache = (lookup_key_live s.cache gateway domain now).0 }))
        hit
      ∙ ap
          (λ c.
            allocate_miss to_text parse_addr gateway prefixes domain now lease (some ip)
              (record s { cache = c }))
          kept
      ∙ ap (λ c. (renew gateway domain now lease false >>= λ _. pure ip) (record s { cache = c }))
          again
      ∙ ap (λ r. continue r.0 (λ _. pure ip) r.1)
          (renew_skips gateway domain now lease s renewed recent)

-- A name that the cache holds is answered from it, and within five minutes of its last renewal nothing
-- changes, neither the lease in the cache nor the one in the table: however often it is asked for in
-- these minutes, an allocation behind the end of its row's lease deletes the row.
pub allocate-debounced :
    (to_text : Addr → Bytes) (parse_addr : Bytes → Option Addr) (gateway domain : Bytes)
    (prefixes : List Prefix) (now lease later : ℕ) (s : Registry) (row : Row) {ip : Addr}
    → (lookup_key_live s.cache gateway domain now).1 ≡ some ip
    → 0 < renewed_at s (key_of gateway domain)
    → now - renewed_at s (key_of gateway domain) < renewal_debounce
    → IsUnique s.table
    → row_of gateway domain s.table ≡ some row
    → is_live later row ≡ false
    → (sql_allocate to_text parse_addr gateway prefixes domain now lease s ≡ (some ip, s))
      × (row_of gateway domain (
            delete_expired later
              (sql_allocate to_text parse_addr gateway prefixes domain now lease s).1.table)
          ≡ none)
allocate-debounced to_text parse_addr gateway domain prefixes now lease later s row {ip} hit renewed
      recent unique held dead =
    let same =
      allocate_hit to_text parse_addr gateway domain prefixes now lease s hit renewed recent in
    (
      same,
      ap (λ r. row_of gateway domain (delete_expired later r.1.table)) same
          ∙ expired-row_of gateway domain later s.table row unique held dead,
    )
