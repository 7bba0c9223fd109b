-- ===== src/Policy/Ranges.antt =====
-- RangesForName, and its agreement with Authorize.
use ts_domain_gateway.Common.{
  ℕ, ◌≤◌, ◌≡◌, ◌∙◌, ◌↔◌, ◌⊎◌, refl, sym, ap, Bool, true, false, not, ◌&&◌, ◌||◌, List, [], ◌∷◌,
  none, some, length, ◌==◌, nat_eq, list_eq, if◌then◌else◌, arith, Option-cases, Bool-cases, inl,
  inr, All, Any,
}
use ts_domain_gateway.GoText.{Bytes}
use ts_domain_gateway.Name.{match}
use ts_domain_gateway.Net.{Prefix, prefix_eq}
use ts_domain_gateway.Policy.{
  Resource, Grant, reaches, same_prefix_slice, any_reaches, authorize, ranges_in_grant,
  ranges_in_grants, ranges_for_name,
}
use ts_domain_gateway.Policy.Offers.{same_prefix_slice_iff}

-- Some resource of the grant covers the name.
abbrev any_match : List Resource → Bytes → Bool
any_match [] name = false
any_match (r ∷ rs) name = match r.domain name || any_match rs name

pub covers : Grant → Bytes → Bool
covers g name = any_match g.resources name

abbrev pub HasRanges : Grant → Type 0
HasRanges g = 1 ≤ length g.ranges

-- The loop over one grant asks once whether the grant agrees with what was found before.
in_grant :
    (g : Grant) (name : Bytes) (rs : List Resource) (ranges : List Prefix)
    → ranges_in_grant g name rs ranges ≡ (
        if any_match rs name
        then (if not (length ranges == 0) && not (same_prefix_slice ranges g.ranges)
            then none
            else some g.ranges)
        else some ranges)
unfolding ranges_in_grant
in_grant g name [] ranges = refl
in_grant g name (r ∷ rs) ranges = ground (
  arith,
  in_grant g name rs ranges,
  in_grant g name rs g.ranges,
  same_prefix_slice_iff g.ranges g.ranges,
)

in_grant_some :
    (g : Grant) (name : Bytes) (ranges next : List Prefix)
    → ranges_in_grant g name g.resources ranges ≡ some next
    → ((covers g name ≡ true) × (next ≡ g.ranges) × ((ranges ≡ []) ⊎ (ranges ≡ g.ranges)))
      ⊎ ((covers g name ≡ false) × (next ≡ ranges))
unfolding covers
in_grant_some g name [] next e = ground (arith, e, in_grant g name g.resources [])
in_grant_some g name (p ∷ ps) next e =
    ground (arith, e, in_grant g name g.resources (p ∷ ps), same_prefix_slice_iff (p ∷ ps) g.ranges)

-- Every grant that covers the name has these ranges.
abbrev pub Pools : Bytes → List Prefix → List Grant → Type 0
Pools name R = All (λ g. covers g name ≡ true → g.ranges ≡ R)

-- Some grant covers the name, with these ranges.
abbrev pub Pooled : Bytes → List Prefix → List Grant → Type 0
Pooled name R = Any (λ g. (covers g name ≡ true) × (g.ranges ≡ R))

in_grants_sound :
    (gs : List Grant) (name : Bytes) (ranges R : List Prefix)
    → All HasRanges gs
    → ranges_in_grants gs name ranges ≡ some R
    → (1 ≤ length ranges → R ≡ ranges) × Pools name R gs × ((R ≡ ranges) ⊎ Pooled name R gs)
unfolding ranges_in_grants
in_grants_sound [] name ranges R h e = (λ _. ground (arith, e), tt, inl (ground (arith, e)))
in_grants_sound (g ∷ gs) name ranges R h e =
    elim (Option-cases (ranges_in_grant g name g.resources ranges)) [
      | inl stop ↦ absurd (ground (arith, stop, e))
      | inr (next, found) ↦
          let later = in_grants_sound gs name next R h.1 (ground (arith, found, e)) in
          elim (in_grant_some g name ranges next found) [
            | inl (hit, set, prior) ↦
                let same : R ≡ next = later.0 (rw set h.0) in
                (
                  λ long. elim prior [
                    | inl empty ↦ absurd (omega (arith, ap length empty))
                    | inr again ↦ same ∙ set ∙ sym again
                  ],
                  (λ _. sym (same ∙ set), later.1),
                  inr (inl (hit, sym (same ∙ set))),
                )
            | inr (miss, kept) ↦ (
              λ long. later.0 (rw kept long) ∙ kept,
              (λ hit. cc, later.1),
              elim later.2 [ inl same ↦ inl (same ∙ kept) | inr there ↦ inr (inr there) ],
            )
          ]
    ]

abbrev any_covers : List Grant → Bytes → Bool
any_covers [] name = false
any_covers (g ∷ gs) name = covers g name || any_covers gs name

in_grant_hit :
    (g : Grant) (name : Bytes) (ranges : List Prefix)
    → covers g name ≡ true
    → (ranges ≡ []) ⊎ (ranges ≡ g.ranges)
    → ranges_in_grant g name g.resources ranges ≡ some g.ranges
unfolding covers
in_grant_hit g name ranges hit (inl e) = rw e (ground (arith, hit, in_grant g name g.resources []))
in_grant_hit g name ranges hit (inr e) =
    ground
      (arith, hit, e, in_grant g name g.resources ranges, same_prefix_slice_iff ranges g.ranges)

in_grants_complete :
    (gs : List Grant) (name : Bytes) (ranges R : List Prefix)
    → Pools name R gs
    → (ranges ≡ []) ⊎ (ranges ≡ R)
    → ranges_in_grants gs name ranges ≡ some (if any_covers gs name then R else ranges)
unfolding ranges_in_grants
in_grants_complete [] name ranges R h start = refl
in_grants_complete (g ∷ gs) name ranges R h start = elim (Bool-cases (covers g name)) [
  | inl hit ↦
      let step : ranges_in_grant g name g.resources ranges ≡ some R =
        in_grant_hit g name ranges hit
          (elim start [ inl e ↦ inl e | inr e ↦ inr (e ∙ sym (h.0 hit)) ])
        ∙ ap some (h.0 hit) in
      ground (arith, hit, step, in_grants_complete gs name R R h.1 (inr refl))
  | inr miss ↦
      let step : ranges_in_grant g name g.resources ranges ≡ some ranges =
        unfold covers in ground (arith, miss, in_grant g name g.resources ranges) in
      ground (arith, miss, step, in_grants_complete gs name ranges R h.1 start)
]

Pooled-any :
    (gs : List Grant) (name : Bytes) (R : List Prefix)
    → Pooled name R gs
    → any_covers gs name ≡ true
Pooled-any [] name R h = absurd h
Pooled-any (g ∷ gs) name R (inl here) = ground (arith, here)
Pooled-any (g ∷ gs) name R (inr there) = ground (arith, Pooled-any gs name R there)

-- A name is given the ranges of a pool exactly when some grant that covers it has these ranges and
-- all that cover it have them, where no grant's range list is empty.
pub ranges_for_name_iff :
    (gs : List Grant) (name : Bytes) (R : List Prefix)
    → All HasRanges gs
    → (ranges_for_name gs name ≡ some R) ↔ ((1 ≤ length R) × Pooled name R gs × Pools name R gs)
unfolding ranges_for_name
ranges_for_name_iff gs name R h = (found, given)
  where
    found : ranges_for_name gs name ≡ some R → (1 ≤ length R) × Pooled name R gs × Pools name R gs
    found e = elim (Option-cases (ranges_in_grants gs name [])) [
      | inl stop ↦ absurd (ground (arith, stop, e))
      | inr (S, scanned) ↦
          let same : S ≡ R = ground (arith, scanned, e) in
          let long : 1 ≤ length R = ground (arith, scanned, e) in
          let facts = in_grants_sound gs name [] R h (scanned ∙ ap some same) in
          (
            long,
            elim facts.2 [
              | inl none_found ↦ absurd (omega (arith, ap length none_found, long))
              | inr there ↦ there
            ],
            facts.1,
          )
    ]

    given : (1 ≤ length R) × Pooled name R gs × Pools name R gs → ranges_for_name gs name ≡ some R
    given (long, pooled, pools) =
        ground (
          arith,
          in_grants_complete gs name [] R pools (inl refl),
          Pooled-any gs name R pooled,
          long,
        )

any_reaches-match :
    (rs : List Resource) (name proto : Bytes) (port : ℕ)
    → any_reaches rs name proto port ≡ true
    → any_match rs name ≡ true
unfolding any_reaches reaches
any_reaches-match [] name proto port h = ground arith
any_reaches-match (r ∷ rs) name proto port h =
    ground (arith, h, any_reaches-match rs name proto port)

any_reaches-covers :
    (g : Grant) (name proto : Bytes) (port : ℕ)
    → any_reaches g.resources name proto port ≡ true
    → covers g name ≡ true
unfolding covers
any_reaches-covers g name proto port = any_reaches-match g.resources name proto port

authorize-covers :
    (gs : List Grant) (prefixes : List Prefix) (name proto : Bytes) (port : ℕ)
    → authorize gs prefixes name proto port ≡ true
    → Pooled name prefixes gs
unfolding authorize
authorize-covers [] prefixes name proto port h = ground arith
authorize-covers (g ∷ gs) prefixes name proto port h =
    elim (Bool-cases (authorize gs prefixes name proto port)) [
      | inl later ↦ inr (authorize-covers gs prefixes name proto port later)
      | inr now ↦ inl (
          ground (
            arith,
            h,
            now,
            any_reaches-covers g name proto port,
            same_prefix_slice_iff g.ranges prefixes,
          ))
    ]

-- Egress and DNS agree: a flow for a name is authorized on no other ranges than those of the pool
-- that the same grants give the name.
pub authorize-ranges_for_name :
    (gs : List Grant) (prefixes R : List Prefix) (name proto : Bytes) (port : ℕ)
    → All HasRanges gs
    → authorize gs prefixes name proto port ≡ true
    → ranges_for_name gs name ≡ some R
    → prefixes ≡ R
authorize-ranges_for_name gs prefixes R name proto port h allowed given =
    one_pool gs (authorize-covers gs prefixes name proto port allowed)
      ((ranges_for_name_iff gs name R h).0 given).2
  where
    one_pool : (gs : List Grant) → Pooled name prefixes gs → Pools name R gs → prefixes ≡ R
    one_pool [] pooled pools = absurd pooled
    one_pool (g ∷ gs) (inl here) pools = sym here.1 ∙ pools.0 here.0
    one_pool (g ∷ gs) (inr there) pools = one_pool gs there pools.1
