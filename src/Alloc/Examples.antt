-- ===== src/Alloc/Examples.antt =====
-- The allocator on two adjacent pools of four addresses.
use ts_domain_gateway.Common.{
  ℕ, ◌*◌, ◌+◌, ◌^◌, ◌≡◌, ◌≢◌, ◌∙◌, ◌⊎◌, inl, inr, sym, refl, false, [], ◌∷◌, Option, none, some,
  nat_eq, list_eq, ◌==◌, eq_iff, if◌then◌else◌, Bool-cases, arith,
}
use mathlib.Core.Path.{subst}
use ts_domain_gateway.GoText.{Bytes, codes}
use ts_domain_gateway.Net.{
  invalid, v4, Prefix, overlaps, clear_host, addr_eq, next_addr, prev_addr, masked_addr,
  prefix_contains,
}
use ts_domain_gateway.Alloc.Assoc.{lookup, insert}
use ts_domain_gateway.Alloc.{
  Allocator, new_allocator, choose, allocate, lookup_ip, lookup_key, lookup_live, remember_until,
  usable, first_of, starting, from_start, pick, pick_later, key_of,
}
use ts_domain_gateway.Alloc.Choose.{Usable, choose-adjacent_exhausted}
use ts_domain_gateway.Alloc.Maps.{
  IsConsistent, here, next, allocated, looked_up, remembered, Reach, AllFresh,
}
use ts_domain_gateway.Net.Contains.{size}
use ts_domain_gateway.Alloc.Fresh.{IsRange}
use ts_domain_gateway.Alloc.Fresh.Pools.{Reach-AllFresh}
use ts_domain_gateway.Alloc.Calls.{allocate-Usable, allocate-overwrites, allocate-shared_range}

abbrev base : ℕ
base = 10 * 2 ^ 24

abbrev low : Prefix
low = record { addr = v4 base; bits = 30 }

abbrev high : Prefix
high = record { addr = v4 (base + 4); bits = 30 }

abbrev gw : Bytes
gw = codes "gw"

-- What an allocation of one name leaves.
abbrev first : Allocator
first = (allocate new_allocator gw (low ∷ []) (codes "a.corp")).0

first_run : (allocate new_allocator gw (low ∷ []) (codes "a.corp")).1 ≡ some (v4 (base + 1))
unfolding allocate lookup choose starting from_start pick pick_later usable prefix_contains
    masked_addr next_addr
first_run = refl

allocate-Usable_example :
    (lookup_key new_allocator gw (codes "a.corp") ≡ some (v4 (base + 1)))
    ⊎ (Usable (v4 (base + 1)) (low ∷ [])
        × (lookup_ip first (v4 (base + 1))
            ≡ some (record { gateway = gw; domain = codes "a.corp" })))
allocate-Usable_example = allocate-Usable new_allocator gw (low ∷ []) (codes "a.corp") first_run

-- An allocation, a second mapping that is remembered, and a lookup.
abbrev second : Allocator
second = remember_until first gw (codes "b.corp") (v4 (base + 2)) 50

abbrev third : Allocator
third = (lookup_live second (v4 (base + 2)) 60).0

second_run : lookup_live second (v4 (base + 2)) 60 ≡ (third, none)
unfolding allocate lookup insert choose starting from_start pick pick_later usable prefix_contains
    masked_addr next_addr remember_until lookup_live
second_run = refl

low_range : IsRange low
unfolding clear_host size
low_range = record { number = base; shape = refl; short = omega arith; ends = omega arith }

high_range : IsRange high
unfolding clear_host size
high_range = record { number = base + 4; shape = refl; short = omega arith; ends = omega arith }

abbrev run : Reach new_allocator third
run =
    next
      (next (next here (allocated gw (low ∷ []) (codes "a.corp") refl))
        (remembered gw (codes "b.corp") (v4 (base + 2)) 50 refl))
      (looked_up (v4 (base + 2)) 60 refl)

-- The gateway `gw` has the lower pool and `h` the upper one.
range_of : Bytes → Option Prefix
range_of g = if g == gw then some low else (if g == codes "h" then some high else none)

range_cases :
    (g : Bytes) (p : Prefix)
    → range_of g ≡ some p
    → (g ≡ gw) × (low ≡ p) ⊎ (g ≡ codes "h") × (high ≡ p)
unfolding range_of
range_cases g p e = elim (Bool-cases (g == gw)) [
  | inl hit ↦ inl ((eq_iff g gw).0 hit, ground (arith, e, hit))
  | inr miss ↦ elim (Bool-cases (g == codes "h")) [
    | inl upper ↦ inr ((eq_iff g (codes "h")).0 upper, ground (arith, e, miss, upper))
    | inr other ↦ absurd (ground (arith, e, miss, other))
  ]
]

ranges : (g : Bytes) (p : Prefix) → range_of g ≡ some p → IsRange p
ranges g p e = elim (range_cases g p e) [
  | inl (_, same) ↦ subst IsRange same low_range
  | inr (_, same) ↦ subst IsRange same high_range
]

apart : (overlaps low high ≡ false) × (overlaps high low ≡ false)
unfolding overlaps
apart = (refl, refl)

separate :
    (g h : Bytes) (p q : Prefix)
    → range_of g ≡ some p
    → range_of h ≡ some q
    → g ≢ h
    → overlaps p q ≡ false
separate g h p q e f ne = elim (range_cases g p e) [
  | inl (a, b) ↦ elim (range_cases h q f) [
    | inl (c, d) ↦ absurd (ne (a ∙ sym c))
    | inr (c, d) ↦
        subst (λ x. overlaps x q ≡ false) b (subst (λ y. overlaps low y ≡ false) d apart.0)
  ]
  | inr (a, b) ↦ elim (range_cases h q f) [
    | inl (c, d) ↦
        subst (λ x. overlaps x q ≡ false) b (subst (λ y. overlaps high y ≡ false) d apart.1)
    | inr (c, d) ↦ absurd (ne (a ∙ sym c))
  ]
]

Reach-AllFresh_example : AllFresh run × IsConsistent third
unfolding range_of prefix_contains
Reach-AllFresh_example =
    Reach-AllFresh range_of (record { ranges = ranges; separate = separate }) run
      (((tt, (low, refl, refl)), (low, refl, refl)), tt)

mapped_run : lookup (key_of gw (codes "a.corp")) first.by_key ≡ some (v4 (base + 1))
unfolding allocate lookup insert choose starting from_start pick pick_later usable prefix_contains
    masked_addr next_addr
mapped_run = refl

named_run :
    lookup (v4 (base + 1)) first.by_ip ≡ some (record { gateway = gw; domain = codes "a.corp" })
unfolding allocate lookup insert choose starting from_start pick pick_later usable prefix_contains
    masked_addr next_addr
named_run = refl

choose-adjacent_exhausted_example :
    (choose (v4 (base + 4)) (low ∷ high ∷ []) ≡ none)
    × (choose invalid (high ∷ []) ≡ some (first_of high))
unfolding prefix_contains masked_addr next_addr prev_addr usable
choose-adjacent_exhausted_example =
    choose-adjacent_exhausted (v4 (base + 4)) low high refl refl refl refl refl refl refl

-- The state after the lower pool, the second of two, was used up.
abbrev full : Allocator
full = record {
  by_key = (key_of gw (codes "a.corp"), v4 (base + 1)) ∷ [];
  by_ip = (v4 (base + 1), record { gateway = gw; domain = codes "a.corp" }) ∷ [];
  next = (gw, v4 (base + 4)) ∷ [];
  expires = [];
}

allocate-overwrites_example :
    ((allocate full gw (high ∷ low ∷ []) (codes "new.corp")).1 ≡ some (first_of low))
    × (lookup_ip (allocate full gw (high ∷ low ∷ []) (codes "new.corp")).0 (first_of low)
        ≡ some (record { gateway = gw; domain = codes "new.corp" }))
unfolding prefix_contains masked_addr next_addr usable lookup lookup_key lookup_ip
allocate-overwrites_example =
    allocate-overwrites full gw (codes "new.corp") high low
      (record { gateway = gw; domain = codes "a.corp" }) refl refl refl refl refl refl

allocate-shared_range_example :
    ((allocate first (codes "h") (low ∷ high ∷ []) (codes "b.corp")).1 ≡ some (first_of low))
    × (lookup_ip (allocate first (codes "h") (low ∷ high ∷ []) (codes "b.corp")).0 (first_of low)
        ≡ some (record { gateway = codes "h"; domain = codes "b.corp" }))
    × (lookup_key
          (allocate first (codes "h") (low ∷ high ∷ []) (codes "b.corp")).0
          gw
          (codes "a.corp")
        ≡ some (first_of low))
unfolding allocate lookup insert choose starting from_start pick pick_later usable prefix_contains
    masked_addr next_addr lookup_key lookup_ip
allocate-shared_range_example =
    allocate-shared_range first (codes "h") (codes "b.corp") low (high ∷ [])
      (record { gateway = gw; domain = codes "a.corp" }) refl refl refl refl refl
