-- ===== src/Alloc/Calls.antt =====
-- The single calls of the allocator: Allocate, LookupLive and RememberUntil.
use mathlib.Core.Path.{subst}
use ts_domain_gateway.Common.{
  ℕ, true, ◌≡◌, ◌∙◌, ◌⊎◌, inl, inr, sym, ap, List, [], ◌∷◌, none, some, ◌==◌, nat_eq, list_eq,
  if◌then◌else◌, arith, eq_iff, Option-cases,
}
use ts_domain_gateway.GoText.{Bytes}
use ts_domain_gateway.Net.{Addr, invalid, Prefix, addr_eq, is_valid, masked_addr, prefix_contains}
use ts_domain_gateway.Alloc.Assoc.{
  lookup, insert, lookup-insert_same, lookup-insert_keep, lookup-delete,
}
use ts_domain_gateway.Alloc.{
  Allocator, Mapping, key_of, addr_at, allocate, lookup_ip, is_expired, lookup_live, lookup_key,
  remember_until, usable, first_of, choose, starting, from_start, pick, pick_later,
}
use ts_domain_gateway.Alloc.Choose.{Usable, usable-valid, choose-Usable, choose-descending_reuse}
use ts_domain_gateway.Alloc.Maps.{allocate_cases, remember_until_cases}

-- An allocated address was the name's before, or it lies in one of the ranges and is not a
-- network address; it is then mapped back to the name.
pub allocate-Usable :
    (a : Allocator) (gateway : Bytes) (prefixes : List Prefix) (name : Bytes) {ip : Addr}
    → (allocate a gateway prefixes name).1 ≡ some ip
    → (lookup_key a gateway name ≡ some ip)
      ⊎ (Usable ip prefixes
          × (lookup_ip (allocate a gateway prefixes name).0 ip
              ≡ some (record { gateway = gateway; domain = name })))
allocate-Usable a gateway prefixes name {ip} h = elim (allocate_cases a gateway prefixes name) [
  | inl (same, found) ↦ inl (sym found ∙ h)
  | inr (x, no_key, chosen, adds, got) ↦
      let e : x ≡ ip = ground (arith, got, h) in
      inr (
        subst (λ t. Usable t prefixes) e (choose-Usable (addr_at a.next gateway) prefixes chosen),
        unfold lookup_ip in
            ap (lookup ip) adds.1
            ∙ ap (λ t. lookup ip (insert t (record { gateway = gateway; domain = name }) a.by_ip)) e
            ∙ lookup-insert_same ip (record { gateway = gateway; domain = name }) a.by_ip,
      )
]

-- Remembering never changes a mapping that is there, by name or by address.
pub remember_until_keeps :
    (a : Allocator) (gateway domain : Bytes) (ip : Addr) (expiry : ℕ) (k : Bytes) (x y : Addr)
    (m : Mapping)
    → lookup k a.by_key ≡ some x
    → lookup y a.by_ip ≡ some m
    → (lookup k (remember_until a gateway domain ip expiry).by_key ≡ some x)
      × (lookup y (remember_until a gateway domain ip expiry).by_ip ≡ some m)
remember_until_keeps a gateway domain ip expiry k x y m e f =
    elim (remember_until_cases a gateway domain ip expiry) [
      | inl same ↦ (ap (λ t. lookup k t.by_key) same ∙ e, ap (λ t. lookup y t.by_ip) same ∙ f)
      | inr (no_key, no_ip, adds) ↦ (
        ap (lookup k) adds.0 ∙ lookup-insert_keep (key_of gateway domain) k ip a.by_key no_key e,
        ap (lookup y) adds.1
            ∙ lookup-insert_keep ip y (record { gateway = gateway; domain = domain }) a.by_ip no_ip
                f,
      )
    ]

-- A lookup with a time returns the mapping of an address unless it has expired, and removes
-- nothing but that mapping: afterwards any other address is mapped as before, and this one to
-- what was returned.
pub lookup_live_lem :
    (a : Allocator) (ip : Addr) (now : ℕ) (x : Addr)
    → ((lookup_live a ip now).1 ≡ (if is_expired a ip now then none else lookup_ip a ip))
      × (lookup_ip (lookup_live a ip now).0 x
          ≡ (if ip == x then (lookup_live a ip now).1 else lookup_ip a x))
unfolding lookup_live lookup_ip
lookup_live_lem a ip now x = elim (Option-cases (lookup ip a.by_ip)) [
  | inl e ↦ (ground (arith, e), ground (arith, e, eq_iff ip x))
  | inr (m, e) ↦ (ground (arith, e), ground (arith, e, eq_iff ip x, lookup-delete ip x a.by_ip))
]

choose_first :
    (p : Prefix) (prefixes : List Prefix)
    → usable p (first_of p) ≡ true
    → choose invalid (p ∷ prefixes) ≡ some (first_of p)
unfolding choose starting from_start pick pick_later usable
choose_first p prefixes fresh =
    let given : is_valid (first_of p) ≡ true = usable-valid p (first_of p) fresh in
    ground (arith, fresh, given)

-- Where a gateway has no next address yet, the first address of its first range is usable, and that
-- address is in use for another name, a new name gets it: the address then leads to the new name, and
-- the old name still has it.
pub allocate-shared_range :
    (a : Allocator) (gateway name : Bytes) (p : Prefix) (prefixes : List Prefix) (m : Mapping)
    → lookup gateway a.next ≡ none
    → lookup_key a gateway name ≡ none
    → usable p (first_of p) ≡ true
    → lookup_key a m.gateway m.domain ≡ some (first_of p)
    → lookup_ip a (first_of p) ≡ some m
    → ((allocate a gateway (p ∷ prefixes) name).1 ≡ some (first_of p))
      × (lookup_ip (allocate a gateway (p ∷ prefixes) name).0 (first_of p)
          ≡ some (record { gateway = gateway; domain = name }))
      × (lookup_key (allocate a gateway (p ∷ prefixes) name).0 m.gateway m.domain
          ≡ some (first_of p))
allocate-shared_range a gateway name p prefixes m unset new fresh named used =
    let chosen = choose_first p prefixes fresh in
    elim (allocate_cases a gateway (p ∷ prefixes) name) [
      | inl (_, got) ↦
          let given : (allocate a gateway (p ∷ prefixes) name).1 ≡ some (first_of p) =
            unfold allocate lookup_key in ground (arith, unset, new, chosen) in
          absurd (ground (arith, got, given, new))
      | inr (x, no_key, choice, adds, got) ↦
          let e : x ≡ first_of p = ground (arith, choice, chosen, unset) in
          (
            got ∙ ap some e,
            unfold lookup_ip in
                ap (lookup (first_of p)) (
                  adds.1
                  ∙ ap (λ t. insert t (record { gateway = gateway; domain = name }) a.by_ip) e)
                ∙ lookup-insert_same (first_of p) (record { gateway = gateway; domain = name })
                    a.by_ip,
            unfold lookup_key in
                ap (lookup (key_of m.gateway m.domain)) adds.0
                ∙ lookup-insert_keep (key_of gateway name) (key_of m.gateway m.domain) x a.by_key
                    no_key named,
          )
    ]

-- Where the next address is the network address of the first range and a later range begins with
-- an address that is in use, an allocation for a new name takes that address and its old mapping
-- is lost.
pub allocate-overwrites :
    (a : Allocator) (gateway name : Bytes) (p q : Prefix) (m : Mapping)
    → lookup_key a gateway name ≡ none
    → prefix_contains p (addr_at a.next gateway) ≡ true
    → is_valid (addr_at a.next gateway) ≡ true
    → masked_addr p ≡ addr_at a.next gateway
    → usable q (first_of q) ≡ true
    → lookup_ip a (first_of q) ≡ some m
    → ((allocate a gateway (p ∷ q ∷ []) name).1 ≡ some (first_of q))
      × (lookup_ip (allocate a gateway (p ∷ q ∷ []) name).0 (first_of q)
          ≡ some (record { gateway = gateway; domain = name }))
allocate-overwrites a gateway name p q m new inside valid base fresh used =
    let chosen = choose-descending_reuse (addr_at a.next gateway) p q inside valid base fresh in
    let given : (allocate a gateway (p ∷ q ∷ []) name).1 ≡ some (first_of q) =
      unfold allocate lookup_key in ground (arith, new, chosen) in
    (
      given,
      elim (allocate-Usable a gateway (p ∷ q ∷ []) name given) [
        | inl before ↦ absurd (ground (arith, before, new))
        | inr there ↦ there.1
      ],
    )
