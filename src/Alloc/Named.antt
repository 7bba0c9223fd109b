-- ===== src/Alloc/Named.antt =====
-- An address that the allocator holds for a name is mapped back to it.
use mathlib.Core.Path.{subst}
use ts_domain_gateway.Common.{
  ℕ, ◌≡◌, ◌∙◌, ◌⊎◌, inl, inr, refl, sym, ap, List, none, some, arith, Option-cases, nat_eq, list_eq,
}
use ts_domain_gateway.GoText.{Bytes}
use ts_domain_gateway.Net.{Addr, Prefix, addr_eq}
use ts_domain_gateway.Alloc.Assoc.{lookup, insert, lookup-insert_same}
use ts_domain_gateway.Alloc.{
  Allocator, Mapping, key_of, allocate, lookup_ip, lookup_key, lookup_live, lookup_key_live,
}
use ts_domain_gateway.Alloc.Maps.{
  IsConsistent, mapping_key, Step-IsConsistent, looked_up, allocate_cases, lookup_live_cases,
}

-- The address is mapped to the name's key.
abbrev pub Named : Allocator → Bytes → Bytes → Addr → Type 0
Named a gateway domain ip =
    (m : Mapping) × (lookup_ip a ip ≡ some m) × (mapping_key m ≡ key_of gateway domain)

pub lookup_key-Named :
    (a : Allocator) (gateway domain : Bytes) (ip : Addr)
    → IsConsistent a
    → lookup_key a gateway domain ≡ some ip
    → Named a gateway domain ip
unfolding lookup_ip lookup_key
lookup_key-Named a gateway domain ip c e = c.forward (key_of gateway domain) ip e

pub allocate-Named :
    (a : Allocator) (gateway : Bytes) (prefixes : List Prefix) (domain : Bytes) {ip : Addr}
    → IsConsistent a
    → (allocate a gateway prefixes domain).1 ≡ some ip
    → Named (allocate a gateway prefixes domain).0 gateway domain ip
unfolding lookup_ip
allocate-Named a gateway prefixes domain {ip} c h =
    elim (allocate_cases a gateway prefixes domain) [
      | inl (same, found) ↦
          subst (λ b. Named b gateway domain ip) (sym same)
            (lookup_key-Named a gateway domain ip c (sym found ∙ h))
      | inr (x, no_key, chosen, adds, got) ↦
          let e : x ≡ ip = ground (arith, got, h) in
          let m : Mapping = record { gateway = gateway; domain = domain } in
          (
            m,
            ap (lookup ip) adds.1
                ∙ ap (λ t. lookup ip (insert t m a.by_ip)) e
                ∙ lookup-insert_same ip m a.by_ip,
            refl,
          )
    ]

missed :
    (a : Allocator) (gateway domain : Bytes) (now : ℕ) {b : Allocator}
    → lookup_key_live a gateway domain now ≡ (b, none)
    → IsConsistent b
    → IsConsistent (lookup_key_live a gateway domain now).0
      × (((lookup_key_live a gateway domain now).1 ≡ none)
          ⊎ ((ip : Addr) × (lookup_key_live a gateway domain now ≡ (a, some ip))
              × (lookup_key a gateway domain ≡ some ip)))
missed a gateway domain now e c = (subst (λ t. IsConsistent t.0) (sym e) c, inl (ap (λ t. t.1) e))

-- The cache's answer for a name: the address that it holds, or a miss that keeps the maps inverse.
pub lookup_key_live_cases :
    (a : Allocator) (gateway domain : Bytes) (now : ℕ)
    → IsConsistent a
    → IsConsistent (lookup_key_live a gateway domain now).0
      × (((lookup_key_live a gateway domain now).1 ≡ none)
          ⊎ ((ip : Addr) × (lookup_key_live a gateway domain now ≡ (a, some ip))
              × (lookup_key a gateway domain ≡ some ip)))
unfolding lookup_key_live
lookup_key_live_cases a gateway domain now c = elim (Option-cases (lookup_key a gateway domain)) [
  | inl e ↦ missed a gateway domain now (asked_none e) c
  | inr (x, e) ↦
      let kept = Step-IsConsistent a (lookup_live a x now).0 (looked_up x now refl) tt c in
      elim (Option-cases (lookup_live a x now).1) [
        | inl gone ↦ missed a gateway domain now (asked_gone x e gone) kept
        | inr (m, there) ↦ elim (lookup_live_cases a x now) [
          | inl (same, _, _) ↦
              let hit = asked_there x m e same there in
              (subst (λ t. IsConsistent t.0) (sym hit) c, inr (x, hit, e))
          | inr (_, _, _, gone) ↦ absurd (ground (arith, gone, there))
        ]
      ]
]
  where
    asked_none :
        lookup_key a gateway domain ≡ none → lookup_key_live a gateway domain now ≡ (a, none)
    asked_none e = ground (arith, e)

    asked_gone :
        (x : Addr)
        → lookup_key a gateway domain ≡ some x
        → (lookup_live a x now).1 ≡ none
        → lookup_key_live a gateway domain now ≡ ((lookup_live a x now).0, none)
    asked_gone x e gone = ground (arith, e, gone)

    asked_there :
        (x : Addr) (m : Mapping)
        → lookup_key a gateway domain ≡ some x
        → (lookup_live a x now).0 ≡ a
        → (lookup_live a x now).1 ≡ some m
        → lookup_key_live a gateway domain now ≡ (a, some x)
    asked_there x m e same there = ground (arith, e, same, there)
