-- ===== src/Policy/Precedence.antt =====
-- The choice of a resolver by GatewayFor.
use ts_domain_gateway.Common.{
  ℕ, ◌≤◌, ◌≡◌, ◌∙◌, ◌⊎◌, refl, sym, Bool, true, false, List, [], ◌∷◌, Option, none, some, ltb,
  nat_eq, list_eq, if◌then◌else◌, arith, eq_iff, Option-cases, inl, inr, All, Any,
}
use ts_domain_gateway.GoText.{Bytes}
use ts_domain_gateway.Net.{prefix_eq}
use ts_domain_gateway.Resolver.{is_system_resolver}
use ts_domain_gateway.Policy.{Grant, Gateway, Choice, consider, undecided, conclude, gateway_for}
use ts_domain_gateway.Policy.Offers.{offers, scan, over_grants-scan}

-- An offer is no more specific than the chosen one, and equal to it where it is as specific.
abbrev pub Yields : Bytes → ℕ → Bytes × ℕ → Type 0
Yields resolver priority offer = (offer.1 ≤ priority) × (offer.1 ≡ priority → offer.0 ≡ resolver)

-- The resolver is the host's own exactly when the chosen text says so, or the fallback does.
abbrev pub IsSystem : Gateway → Bytes → ℕ → Bool → Type 0
IsSystem gateway resolver priority system =
    system ≡ (if ltb 0 priority then is_system_resolver resolver else gateway.system_resolver)

consider_sound :
    (gateway : Gateway) (o : Bytes × ℕ) (s s' : Choice)
    → consider o s ≡ some s'
    → IsSystem gateway s.resolver s.priority s.system_resolver
    → (s.matched ≡ false → s.priority ≡ 0)
    → (s'.matched ≡ true)
      × IsSystem gateway s'.resolver s'.priority s'.system_resolver
      × Yields s'.resolver s'.priority o
      × (s.matched ≡ true → Yields s'.resolver s'.priority (s.resolver, s.priority))
      × (((s'.resolver ≡ o.0) × (s'.priority ≡ o.1))
          ⊎ ((s.matched ≡ true) × (s'.resolver ≡ s.resolver) × (s'.priority ≡ s.priority)))
unfolding consider
consider_sound gateway (r, k) s s' h system fresh =
    ground (arith, eq_iff r s.resolver, h, system, fresh)

-- A scan ends with an offer that is as specific as any, that all offers as specific agree with.
scan_sound :
    (gateway : Gateway) (os : List (Bytes × ℕ)) (s s' : Choice)
    → scan os s ≡ some s'
    → IsSystem gateway s.resolver s.priority s.system_resolver
    → (s.matched ≡ false → s.priority ≡ 0)
    → IsSystem gateway s'.resolver s'.priority s'.system_resolver
      × All (Yields s'.resolver s'.priority) os
      × (s.matched ≡ true → Yields s'.resolver s'.priority (s.resolver, s.priority))
      × (s'.matched ≡ true
          → Any (λ o. o ≡ (s'.resolver, s'.priority)) os
            ⊎ ((s.matched ≡ true) × (s'.resolver ≡ s.resolver) × (s'.priority ≡ s.priority)))
unfolding scan
scan_sound gateway [] s s' h system fresh =
    (ground (arith, h, system), tt, ground (arith, h), ground (arith, h))
scan_sound gateway (o ∷ os) s s' h system fresh = elim (Option-cases (consider o s)) [
  | inl e ↦ absurd (ground (arith, e, h))
  | inr (t, e) ↦
      let (now, sys, yields, kept, from) = consider_sound gateway o s t e system fresh in
      let later = scan_sound gateway os t s' (ground (arith, e, h)) sys (ground (arith, now)) in
      let merged = later.2 now in
      (
        later.0,
        (ground (arith, yields, merged), later.1),
        λ m. ground (arith, merged, kept m),
        λ m. elim (later.3 m) [
          | inl there ↦ inl (inr there)
          | inr same ↦ elim from [
            | inl new ↦ inl (inl (ground (arith, new, same)))
            | inr old ↦ inr (ground (arith, old, same))
          ]
        ],
      )
]

-- The fallback's prefixes with the most specific resolver of the offers, which are what the
-- matching resources ask for with their priorities.
pub record IsBest (grants : List Grant) (gateway : Gateway) (name proto : Bytes) (port : ℕ)
    (g : Gateway) : Type 0 where
  pub priority : ℕ
  pub kept : g.prefixes ≡ gateway.prefixes
  pub offered : Any (λ o. o ≡ (g.resolver, priority)) (offers gateway name proto port grants)
  pub best : All (Yields g.resolver priority) (offers gateway name proto port grants)
  pub system : IsSystem gateway g.resolver priority g.system_resolver

conclude_sound :
    (gateway g : Gateway) (r : Option Choice)
    → conclude gateway r ≡ some g
    → (s : Choice) × (r ≡ some s)
      × (s.matched ≡ true)
      × (g ≡ record gateway { resolver = s.resolver; system_resolver = s.system_resolver })
unfolding conclude
conclude_sound gateway g none h = ground arith
conclude_sound gateway g (some s) h = (s, refl, ground (arith, h), ground (arith, h))

-- A gateway that GatewayFor finds has the prefixes asked for, and its resolver is one that a
-- matching resource asks for, where a resource's own resolver goes before its grant's, and the grant's
-- before the fallback's; no matching resource asks at a higher one of these three levels, and all that
-- ask at the same level ask for the same. It is marked as the system's exactly if its resolver is the
-- system's sentinel, where a resource or a grant names the resolver, and as the fallback was otherwise.
pub gateway_for-IsBest :
    (grants : List Grant) (gateway : Gateway) (name proto : Bytes) (port : ℕ) {g : Gateway}
    → gateway_for grants gateway name proto port ≡ some g
    → IsBest grants gateway name proto port g
unfolding gateway_for
gateway_for-IsBest grants gateway name proto port {g} h =
    let (s, scanned, matched, e) = conclude_sound gateway g _ h in
    let facts =
      scan_sound gateway (offers gateway name proto port grants) (undecided gateway) s
        (sym (over_grants-scan gateway name proto port grants (undecided gateway)) ∙ scanned) refl
        (λ _. refl) in
    record {
      priority = s.priority;
      kept = ground (arith, e);
      offered = elim (facts.3 matched) [ inl there ↦ rw e there | inr old ↦ absurd (cc (old.0)) ];
      best = rw e facts.1;
      system = rw e facts.0;
    }
