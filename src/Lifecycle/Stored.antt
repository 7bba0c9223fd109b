-- ===== src/Lifecycle/Stored.antt =====
-- AllocationLifecycle.Allocate with a store: what it leaves in the table.
use mathlib.Core.Path.{subst}
use ts_domain_gateway.Common.{
  ℕ, ◌≤◌, ◌≡◌, ◌∙◌, inl, inr, sym, ap, List, Option, none, some, nat_eq, list_eq, ◌==◌, arith,
  Bool-cases, Option-cases,
}
use ts_domain_gateway.GoText.{Bytes}
use ts_domain_gateway.Net.{Addr, addr_eq, Prefix}
use ts_domain_gateway.Alloc.{
  Allocator, Mapping, key_of, forget, lookup_key, lookup_key_live, lookup_live,
}
use ts_domain_gateway.Alloc.Assoc.{lookup, lookup-delete, lookup-delete_same}
use ts_domain_gateway.Alloc.Maps.{lookup_live_cases}
use ts_domain_gateway.Store.{Registry, continue, sql_allocate, sql_lookup_key}
use ts_domain_gateway.Store.Gives.{Allows}
use ts_domain_gateway.Store.Shared.{ReadsBack, Leased, until, R, IsCalm}
use ts_domain_gateway.Store.Shared.Allocated.{allocate-Leased}
use ts_domain_gateway.Store.Shared.Found.{lookup_key-Answered}
use ts_domain_gateway.Lifecycle.{or_allocate, stored_allocate}

-- A forgotten address is live under no key that led to it.
forgotten :
    (a : Allocator) (gateway domain : Bytes) (now : ℕ) (ip : Addr) (m : Mapping)
    → lookup (key_of gateway domain) a.by_key ≡ some ip
    → (lookup_key_live (forget a ip m) gateway domain now).1 ≡ none
unfolding lookup_key_live lookup_key lookup_live
forgotten a gateway domain now ip m e =
    let gone = lookup-delete_same ip a.by_ip in
    let key = lookup-delete (key_of m.gateway m.domain) (key_of gateway domain) a.by_key in
    elim (Bool-cases (key_of m.gateway m.domain == key_of gateway domain)) [
      | inl hit ↦
          let left : lookup (key_of gateway domain) (forget a ip m).by_key ≡ none =
            ground (arith, key, hit) in
          ground (arith, left)
      | inr other ↦
          let left : lookup (key_of gateway domain) (forget a ip m).by_key ≡ some ip =
            ground (arith, key, other, e) in
          ground (arith, left, gone)
    ]

-- A cache that has no live entry has none behind the look either.
missed_again :
    (a : Allocator) (gateway domain : Bytes) (now : ℕ)
    → (lookup_key_live a gateway domain now).1 ≡ none
    → (lookup_key_live (lookup_key_live a gateway domain now).0 gateway domain now).1 ≡ none
unfolding lookup_key_live lookup_key
missed_again a gateway domain now miss =
    let again : (b : Allocator)
        → (lookup_key_live a gateway domain now).0 ≡ b
        → (lookup_key_live b gateway domain now).1 ≡ none
        → (lookup_key_live (lookup_key_live a gateway domain now).0 gateway domain now).1 ≡ none =
      λ b same h. ap (λ c. (lookup_key_live c gateway domain now).1) same ∙ h in
    elim (Option-cases (lookup (key_of gateway domain) a.by_key)) [
      | inl e ↦ again a (ground (arith, e)) miss
      | inr (ip, e) ↦ elim (lookup_live_cases a ip now) [
        | inl (same, _, _) ↦ again a (ground (arith, e, same)) miss
        | inr (m, _, _, gone) ↦
            again (forget a ip m) (ground (arith, e, gone)) (forgotten a gateway domain now ip m e)
      ]
    ]

module _ (to_text : Addr → Bytes) (parse_addr : Bytes → Option Addr) where
  -- For a name that the cache does not hold, the address that is returned stands in the table's row of
  -- the name, with a whole lease, whatever other instances do between the statements.
  pub stored_allocate-Leased :
      (back : ReadsBack to_text parse_addr) (gateway domain : Bytes) (ranges : List Prefix)
      (now lease during : ℕ) (s : Registry) (ip : Addr)
      → during ≤ until now lease
      → Allows (R to_text parse_addr now lease during) s.others
      → IsCalm to_text parse_addr now lease during s.table
      → (lookup_key_live s.cache gateway domain now).1 ≡ none
      → (stored_allocate to_text parse_addr gateway ranges domain now lease s).0 ≡ some ip
      → Leased to_text parse_addr gateway domain
          (until now lease)
          ip
          (stored_allocate to_text parse_addr gateway ranges domain now lease s).1.table
  unfolding stored_allocate or_allocate
  stored_allocate-Leased back gateway domain ranges now lease during s ip short allowed calm miss
        e =
      let second = sql_allocate to_text parse_addr gateway ranges domain now lease in
      let Held = Leased to_text parse_addr gateway domain (until now lease) in
      let P : Option Addr × Registry → Type 0 = λ r. r.0 ≡ some ip → Held ip r.1.table in
      let first = sql_lookup_key to_text parse_addr gateway domain now lease s in
      let after : (r : Option (Option Addr) × Registry)
          → first ≡ r
          → P (continue r.0 (λ found. or_allocate found second) r.1)
          → P (continue first.0 (λ found. or_allocate found second) first.1) =
        λ r same.
          subst (λ x. P (continue x.0 (λ found. or_allocate found second) x.1)) (sym same) in
      elim (lookup_key-Answered to_text parse_addr back gateway domain now lease during short s
        (allowed, calm) miss) [
          | inl fails ↦ absurd (
              ground (
                arith,
                sym (ap (λ o. (continue o (λ found. or_allocate found second) first.1).0) fails)
                    ∙ e,
              ))
          | inr (inl (t, same, (allowed', calm'), cache)) ↦
              let again : (lookup_key_live t.cache gateway domain now).1 ≡ none =
                ap (λ c. (lookup_key_live c gateway domain now).1) cache
                ∙ missed_again s.cache gateway domain now miss in
              after (some none, t) same
                (λ given.
                  (allocate-Leased to_text parse_addr back gateway domain now lease during short
                    ranges t ip allowed' calm' again given).1)
                e
          | inr (inr (x, t, same, _, held)) ↦
              after (some (some x), t) same
                (λ given. subst (λ y. Held y t.table) (ground (arith, given)) held) e
        ]
