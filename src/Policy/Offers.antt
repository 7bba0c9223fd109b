-- ===== src/Policy/Offers.antt =====
-- The resolvers that a policy offers for a flow, and the loops of GatewayFor as one scan of them.
use ts_domain_gateway.Common.{
  ℕ, ◌≡◌, ◌≢◌, not, ◌==◌, ◌↔◌, refl, true, List, [], ◌∷◌, ◌++◌, Option, none, some, length, nat_eq,
  list_eq, if◌then◌else◌, arith, eq_iff, Option-cases, inl, inr,
}
use ts_domain_gateway.GoText.{Bytes}
use ts_domain_gateway.Net.{Prefix, prefix_eq}
use ts_domain_gateway.Policy.{
  Resource, Grant, Gateway, Choice, same_elements, same_prefix_slice, reaches, candidate, consider,
  over_resources, over_grants, any_reaches, authorize,
}

same_elements_iff : (a b : List Prefix) → length a ≡ length b → (same_elements a b ≡ true) ↔ (a ≡ b)
unfolding same_elements
same_elements_iff [] [] h = ground arith
same_elements_iff [] (q ∷ b) h = ground arith
same_elements_iff (p ∷ a) [] h = ground arith
same_elements_iff (p ∷ a) (q ∷ b) h = ground (arith, eq_iff p q, same_elements_iff a b)

pub same_prefix_slice_iff : (a b : List Prefix) → (same_prefix_slice a b ≡ true) ↔ (a ≡ b)
unfolding same_prefix_slice
same_prefix_slice_iff a b = ground (arith, same_elements_iff a b)

-- Whose resolver a resource gets: its own before the grant's, and the grant's before the gateway's.
abbrev pub preference : Bytes → Bytes → Bytes → Bytes × ℕ
preference (b ∷ bs) grant gateway = (b ∷ bs, 2)
preference [] (b ∷ bs) gateway = (b ∷ bs, 1)
preference [] [] gateway = (gateway, 0)

preference_lem :
    (own grant gateway : Bytes)
    → (let asked : Bytes × ℕ = if not (length own == 0) then (own, 2) else (grant, 1) in
        if length asked.0 == 0 then (gateway, 0) else asked)
      ≡ preference own grant gateway
preference_lem (b ∷ bs) grant gateway = ground arith
preference_lem [] (b ∷ bs) gateway = ground arith
preference_lem [] [] gateway = ground arith

candidate-preference :
    (grant : Grant) (gateway : Gateway) (r : Resource)
    → candidate grant gateway r ≡ preference r.upstream_dns grant.upstream_dns gateway.resolver
unfolding candidate
candidate-preference grant gateway r =
    preference_lem r.upstream_dns grant.upstream_dns gateway.resolver

module _ (gateway : Gateway) (name proto : Bytes) (port : ℕ) where
  abbrev pub resource_offers : Grant → List Resource → List (Bytes × ℕ)
  resource_offers grant [] = []
  resource_offers grant (r ∷ rs) =
      if reaches r name proto port
      then preference r.upstream_dns grant.upstream_dns gateway.resolver ∷ resource_offers grant rs
      else resource_offers grant rs

  -- What the matching resources of the grants for exactly this gateway's ranges ask for, in order.
  abbrev pub offers : List Grant → List (Bytes × ℕ)
  offers [] = []
  offers (g ∷ gs) =
      if same_prefix_slice g.ranges gateway.prefixes
      then resource_offers g g.resources ++ offers gs
      else offers gs

unfoldable pub scan : List (Bytes × ℕ) → Choice → Option Choice
scan [] s = some s
scan (o ∷ os) s = elim (consider o s) [ none ↦ none | some s' ↦ scan os s' ]

pub scan-append :
    (os ps : List (Bytes × ℕ)) (s : Choice)
    → scan (os ++ ps) s ≡ elim (scan os s) [ none ↦ none | some s' ↦ scan ps s' ]
unfolding scan
scan-append [] ps s = refl
scan-append (o ∷ os) ps s = elim (Option-cases (consider o s)) [
  | inl e ↦ ground (arith, e)
  | inr (s', e) ↦ ground (arith, e, scan-append os ps s')
]

module _ (gateway : Gateway) (name proto : Bytes) (port : ℕ) where
  over_resources-scan :
      (grant : Grant) (rs : List Resource) (s : Choice)
      → over_resources gateway name proto port grant rs s
        ≡ scan (resource_offers gateway name proto port grant rs) s
  unfolding over_resources scan
  over_resources-scan grant [] s = refl
  over_resources-scan grant (r ∷ rs) s =
      let same = candidate-preference grant gateway r in
      elim (Option-cases (consider (candidate grant gateway r) s)) [
        | inl e ↦ ground (arith, e, same, over_resources-scan grant rs s)
        | inr (s', e) ↦
            ground (arith, e, same, over_resources-scan grant rs s, over_resources-scan grant rs s')
      ]

  pub over_grants-scan :
      (gs : List Grant) (s : Choice)
      → over_grants gateway name proto port gs s ≡ scan (offers gateway name proto port gs) s
  unfolding over_grants
  over_grants-scan [] s = unfold scan in refl
  over_grants-scan (g ∷ gs) s =
      let inner = over_resources-scan g g.resources s in
      let joined =
        scan-append (resource_offers gateway name proto port g g.resources)
          (offers gateway name proto port gs) s in
      elim (Option-cases (over_resources gateway name proto port g g.resources s)) [
        | inl e ↦ ground (arith, e, inner, joined, over_grants-scan gs s)
        | inr (s', e) ↦
            ground (arith, e, inner, joined, over_grants-scan gs s, over_grants-scan gs s')
      ]

  any_reaches-offers :
      (grant : Grant) (rs : List Resource)
      → (any_reaches rs name proto port ≡ true)
        ↔ (resource_offers gateway name proto port grant rs ≢ [])
  unfolding any_reaches
  any_reaches-offers grant [] = ground arith
  any_reaches-offers grant (r ∷ rs) = ground (arith, any_reaches-offers grant rs)

  -- A flow is authorized exactly when some matching resource offers a resolver.
  pub authorize-offers :
      (gs : List Grant)
      → (authorize gs gateway.prefixes name proto port ≡ true)
        ↔ (offers gateway name proto port gs ≢ [])
  unfolding authorize
  authorize-offers [] = ground arith
  authorize-offers (g ∷ gs) = ground (arith, authorize-offers gs, any_reaches-offers g g.resources)
