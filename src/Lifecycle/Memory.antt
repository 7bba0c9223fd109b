-- ===== src/Lifecycle/Memory.antt =====
-- AllocationLifecycle without a store.
use mathlib.Core.Path.{subst}
use ts_domain_gateway.Common.{ℕ, ◌≡◌, ◌∙◌, inl, inr, ap, Bool, List, some, arith, nat_eq, list_eq}
use ts_domain_gateway.GoText.{Bytes}
use ts_domain_gateway.Net.{Addr, Prefix, addr_eq}
use ts_domain_gateway.Alloc.{Allocator, allocate, lookup_key_live}
use ts_domain_gateway.Alloc.Maps.{IsConsistent}
use ts_domain_gateway.Alloc.Named.{Named, lookup_key-Named, allocate-Named, lookup_key_live_cases}
use ts_domain_gateway.Lifecycle.{memory_allocate}

pub memory_allocate-Named :
    (has_path writes : Bool) (gateway : Bytes) (ranges : List Prefix) (domain : Bytes) (now : ℕ)
    (a : Allocator) {ip : Addr} {b : Allocator}
    → IsConsistent a
    → memory_allocate has_path writes gateway ranges domain now a ≡ (some ip, b)
    → Named b gateway domain ip
unfolding memory_allocate
memory_allocate-Named has_path writes gateway ranges domain now a {ip} {b} c h =
    let (kept, found) = lookup_key_live_cases a gateway domain now c in
    elim found [
      | inr (x, hit, held) ↦
          let same : a ≡ b = ground (arith, hit, h) in
          let one : x ≡ ip = ground (arith, hit, h) in
          subst (λ (s : Allocator). Named s gateway domain ip) same
            (lookup_key-Named a gateway domain ip c (held ∙ ap some one))
      | inl miss ↦
          let d = (lookup_key_live a gateway domain now).0 in
          let given : (allocate d gateway ranges domain).1 ≡ some ip = ground (arith, miss, h) in
          let same : (allocate d gateway ranges domain).0 ≡ b = ground (arith, miss, h) in
          subst (λ (s : Allocator). Named s gateway domain ip) same
            (allocate-Named d gateway ranges domain kept given)
    ]
