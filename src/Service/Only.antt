-- ===== src/Service/Only.antt =====
-- gatewayForDestination, whatever the order in which the map is gone through.
use ts_domain_gateway.Common.{
  ◌≤◌, ◌≡◌, ◌∙◌, ◌↔◌, refl, sym, ap, true, false, List, [], ◌∷◌, Option, none, some, length, ◌==◌,
  nat_eq, if◌then◌else◌, arith, Bool-cases, inl, inr,
}
use ts_domain_gateway.Net.{Addr, Prefix, contains_prefix}
use ts_domain_gateway.Policy.{Gateway}
use ts_domain_gateway.Service.{select_gateway, gateway_for_destination}

-- The gateways whose prefixes hold the address.
abbrev pub serving : Addr → List Gateway → List Gateway
serving d [] = []
serving d (g ∷ gs) = if contains_prefix g.prefixes d then g ∷ serving d gs else serving d gs

contains-nonempty :
    (prefixes : List Prefix) (d : Addr) → contains_prefix prefixes d ≡ true → 1 ≤ length prefixes
unfolding contains_prefix
contains-nonempty [] d h = ground (arith, h)
contains-nonempty (p ∷ ps) d h = omega arith

-- With a gateway selected, any other that holds the address is a conflict.
select_taken :
    (gs : List Gateway) (d : Addr) (selected : Gateway)
    → 1 ≤ length selected.prefixes
    → select_gateway gs d selected ≡ (if length (serving d gs) == 0 then some selected else none)
unfolding select_gateway
select_taken [] d selected h = ground arith
select_taken (g ∷ gs) d selected h = ground (arith, select_taken gs d selected h)

-- The only one, or none.
abbrev pub only : List Gateway → Option Gateway
only (g ∷ []) = some g
only _ = none

select_free :
    (gs : List Gateway) (d : Addr) (selected : Gateway)
    → length selected.prefixes ≡ 0
    → select_gateway gs d selected ≡ only (serving d gs)
unfolding select_gateway
select_free [] d selected h = ground arith
select_free (g ∷ gs) d selected h = elim (Bool-cases (contains_prefix g.prefixes d)) [
  | inr miss ↦ ground (arith, miss, select_free gs d selected h)
  | inl hit ↦ ground (arith, hit, select_taken gs d g (contains-nonempty g.prefixes d hit))
]

only_iff : (gs : List Gateway) (g : Gateway) → (only gs ≡ some g) ↔ (gs ≡ g ∷ [])
only_iff [] g = ground arith
only_iff (a ∷ []) g = ground arith
only_iff (a ∷ b ∷ gs) g = ground arith

-- A gateway is found for a destination exactly when it is the only one whose prefixes hold it, in
-- whatever order the gateways are gone through.
pub gateway_for_destination_iff :
    (gs : List Gateway) (d : Addr) (g : Gateway)
    → (gateway_for_destination gs d ≡ some g) ↔ (serving d gs ≡ g ∷ [])
unfolding gateway_for_destination
gateway_for_destination_iff gs d g =
    let e =
      select_free gs d (record { prefixes = []; resolver = []; system_resolver = false }) refl in
    rw e (only_iff (serving d gs) g)

pub serving-contains :
    (gs : List Gateway) (d : Addr) {g : Gateway}
    → serving d gs ≡ g ∷ []
    → contains_prefix g.prefixes d ≡ true
serving-contains [] d h = ground (arith, h)
serving-contains (a ∷ gs) d {g} h = elim (Bool-cases (contains_prefix a.prefixes d)) [
  | inr miss ↦ serving-contains gs d {g = g} (ground (arith, miss, h))
  | inl hit ↦
      let same : a ≡ g = ground (arith, hit, h) in
      ap (λ (k : Gateway). contains_prefix k.prefixes d) (sym same) ∙ hit
]
