-- ===== src/Policy/Conflict.antt =====
-- When GatewayFor finds a gateway at all.
use mathlib.Core.List.{cons-ne-nil}
use ts_domain_gateway.Common.{
  ℕ, ◌≡◌, ◌≢◌, ◌⊎◌, refl, true, false, List, [], ◌∷◌, Option, some, nat_eq, list_eq, arith, eq_iff,
  Option-cases, inl, inr, All, Any,
}
use ts_domain_gateway.GoText.{Bytes}
use ts_domain_gateway.Policy.{
  Grant, Gateway, Choice, consider, undecided, conclude, gateway_for, authorize,
}
use ts_domain_gateway.Policy.Offers.{offers, scan, over_grants-scan, authorize-offers}
use ts_domain_gateway.Policy.Precedence.{gateway_for-IsBest}

abbrev pub AgreesWith : Bytes × ℕ → List (Bytes × ℕ) → Type 0
AgreesWith o = All (λ p. p.1 ≡ o.1 → p.0 ≡ o.0)

-- Offers of one priority are the same.
abbrev pub Agree : List (Bytes × ℕ) → Type 0
Agree [] = Unit {0}
Agree (o ∷ os) = AgreesWith o os × Agree os

Runs : Option Choice → Type 0
Runs r = (s : Choice) × (r ≡ some s) × (s.matched ≡ true)

consider_runs :
    (o : Bytes × ℕ) (s : Choice)
    → (s.matched ≡ true → o.1 ≡ s.priority → o.0 ≡ s.resolver)
    → (t : Choice) × (consider o s ≡ some t)
      × (t.matched ≡ true)
      × (((t.resolver ≡ o.0) × (t.priority ≡ o.1))
          ⊎ ((t.resolver ≡ s.resolver) × (t.priority ≡ s.priority) × (s.matched ≡ true)))
unfolding consider
consider_runs (r, k) s h = elim (Option-cases (consider (r, k) s)) [
  | inl e ↦ absurd (ground (arith, eq_iff r s.resolver, e, h))
  | inr (t, e) ↦
      (t, e, ground (arith, eq_iff r s.resolver, e), ground (arith, eq_iff r s.resolver, e))
]

scan-Runs :
    (os : List (Bytes × ℕ)) (s : Choice)
    → s.matched ≡ true
    → AgreesWith (s.resolver, s.priority) os
    → Agree os
    → Runs (scan os s)
unfolding scan Runs
scan-Runs [] s m a h = (s, refl, m)
scan-Runs (o ∷ os) s m a h =
    let (t, e, now, from) = consider_runs o s (λ _. a.0) in
    rw (e, scan)
      (scan-Runs os t now
        (elim from [ inl new ↦ rw (new.0, new.1) h.0 | inr old ↦ rw (old.0, old.1) a.1 ]) h.1)

scan-Runs_first :
    (os : List (Bytes × ℕ)) (s : Choice) → s.matched ≡ false → os ≢ [] → Agree os → Runs (scan os s)
unfolding scan Runs
scan-Runs_first [] s m ne h = absurd (ne refl)
scan-Runs_first (o ∷ os) s m ne h =
    let (t, e, now, from) = consider_runs o s (λ yes_matched. cc) in
    rw (e, scan)
      (scan-Runs os t now (elim from [ inl new ↦ rw (new.0, new.1) h.0 | inr old ↦ cc (old.2) ])
        h.1)

offers_best : (os : List (Bytes × ℕ)) (x : Bytes × ℕ) → Any (λ o. o ≡ x) os → os ≢ []
offers_best [] x h = absurd h
offers_best (o ∷ os) x h = cons-ne-nil o os

module _ (grants : List Grant) (gateway : Gateway) (name proto : Bytes) (port : ℕ) where
  -- GatewayFor finds a gateway only for a flow that Authorize allows.
  pub gateway_for-authorize :
      {g : Gateway}
      → gateway_for grants gateway name proto port ≡ some g
      → authorize grants gateway.prefixes name proto port ≡ true
  gateway_for-authorize e = (authorize-offers gateway name proto port grants).1 (
      offers_best (offers gateway name proto port grants) _
        (gateway_for-IsBest grants gateway name proto port e).offered)

  -- GatewayFor finds a gateway for a flow that Authorize allows, where the resolvers that the
  -- matching resources ask for at one priority are all the same.
  pub gateway_for_total :
      authorize grants gateway.prefixes name proto port ≡ true
      → Agree (offers gateway name proto port grants)
      → (g : Gateway) × (gateway_for grants gateway name proto port ≡ some g)
  unfolding gateway_for conclude Runs
  gateway_for_total allowed agree =
      let (s, e, m) =
        scan-Runs_first (offers gateway name proto port grants) (undecided gateway) refl
          ((authorize-offers gateway name proto port grants).0 allowed) agree in
      (
        record gateway { resolver = s.resolver; system_resolver = s.system_resolver },
        rw (over_grants-scan gateway name proto port grants (undecided gateway), e, m),
      )
