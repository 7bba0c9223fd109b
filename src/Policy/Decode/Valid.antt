-- ===== src/Policy/Decode/Valid.antt =====
-- The grants that Parse returns, against descriptions of their parts.
use mathlib.Core.Path.{subst}
use ts_domain_gateway.Common.{
  ◌≤◌, ◌≡◌, ◌⊎◌, inl, inr, refl, Bool, true, ◌&&◌, ◌||◌, List, [], ◌∷◌, ◌++◌, Option, none, some,
  length, drop, ◌==◌, nat_eq, ◌>>=◌, >>=-eq-some, All, arith, Bool-cases,
}
use ts_domain_gateway.GoText.{Bytes, has_prefix, dot, to_lower, trim_suffix}
use ts_domain_gateway.GoText.Affix.{has_prefix-split}
use ts_domain_gateway.Name.{star_dot, stars_dot}
use ts_domain_gateway.Name.Valid.{IsHostName, valid_name_iff}
use ts_domain_gateway.Port.{valid_ports}
use ts_domain_gateway.Port.Laws.{IsEntry, valid_ports_iff}
use ts_domain_gateway.Net.{Prefix, addr_eq}
use ts_domain_gateway.Resolver.{normalize_resolver}
use ts_domain_gateway.Policy.{Resource, Grant}
use ts_domain_gateway.Policy.Ranges.{HasRanges}
use ts_domain_gateway.Policy.Decode.{
  Decoder, parse_ranges, checked_resolver, valid_pattern, checked_resource, checked_resources,
  checked_grant, unmarshal_resources, unmarshal_grant, append_valid, parse_found, parse_entry,
  parse_entries, parse,
}
use ts_domain_gateway.Policy.Decode.Pool.{IsPool, parse_ranges-IsPool}

-- A name, or one behind a wildcard label.
abbrev pub IsPattern : Bytes → Type 0
IsPattern d =
    IsHostName d
    ⊎ ((s : Bytes) × (d ≡ star_dot ++ s) × IsHostName s)
    ⊎ ((s : Bytes) × (d ≡ stars_dot ++ s) × IsHostName s)

module _ (wide : Bytes → Bytes) (parse_ip : Bytes → Bool) where
  -- No resolver, or what normalizeResolver makes of one.
  abbrev pub IsChecked : Bytes → Type 0
  IsChecked u = (u ≡ []) ⊎ ((r : Bytes) × (normalize_resolver parse_ip r ≡ some u))

  pub record IsResource (r : Resource) : Type 0 where
    pub pattern : IsPattern r.domain
    pub ports : All IsEntry r.ip
    pub resolver : IsChecked r.upstream_dns

  pub record IsGrant (g : Grant) : Type 0 where
    pub resolver : IsChecked g.upstream_dns
    pub some_resource : 1 ≤ length g.resources
    pub resources : All IsResource g.resources
    pub some_range : 1 ≤ length g.ranges
    pub pool : IsPool g.ranges

  valid_pattern-IsPattern : (d : Bytes) → valid_pattern wide parse_ip d ≡ true → IsPattern d
  unfolding valid_pattern
  valid_pattern-IsPattern d h = elim (Bool-cases (has_prefix d stars_dot)) [
    | inl two ↦ inr (
        inr (
          drop 3 d,
          has_prefix-split d stars_dot two,
          (valid_name_iff (drop 3 d)).0 (ground (arith, two, h)),
        ))
    | inr not_two ↦ elim (Bool-cases (has_prefix d star_dot)) [
      | inl one ↦ inr (
          inl (
            drop 2 d,
            has_prefix-split d star_dot one,
            (valid_name_iff (drop 2 d)).0 (ground (arith, not_two, one, h)),
          ))
      | inr not_one ↦ inl ((valid_name_iff d).0 (ground (arith, not_two, not_one, h)))
    ]
  ]

  checked_resolver-IsChecked :
      (u : Bytes) {out : Bytes} → checked_resolver wide parse_ip u ≡ some out → IsChecked out
  unfolding checked_resolver
  checked_resolver-IsChecked [] h = inl (ground (arith, h))
  checked_resolver-IsChecked (c ∷ u) h = inr (c ∷ u, ground (arith, h))

  checked_resource-IsResource :
      (r : Resource) {out : Resource} → checked_resource wide parse_ip r ≡ some out → IsResource out
  unfolding checked_resource
  checked_resource-IsResource r {out} h =
      let d = to_lower wide (trim_suffix r.domain (dot ∷ [])) in
      elim (Bool-cases (valid_pattern wide parse_ip d && valid_ports r.ip)) [
        | inr bad ↦ absurd (ground (arith, bad, h))
        | inl good ↦
            let give : Bytes → Option Resource =
              λ upstream. some (record { domain = d; ip = r.ip; upstream_dns = upstream }) in
            let reached : (checked_resolver wide parse_ip r.upstream_dns >>= give) ≡ some out =
              ground (arith, good, h) in
            let (u, checked, e) =
              >>=-eq-some (checked_resolver wide parse_ip r.upstream_dns) give reached in
            let same : record { domain = d; ip = r.ip; upstream_dns = u } ≡ out =
              ground (arith, e) in
            subst IsResource same (record {
              pattern = valid_pattern-IsPattern d (ground (arith, good));
              ports = (valid_ports_iff r.ip).0 (ground (arith, good));
              resolver = checked_resolver-IsChecked r.upstream_dns checked;
            })
      ]

  checked_resources_sound :
      (rs : List Resource) {out : List Resource}
      → checked_resources wide parse_ip rs ≡ some out
      → All IsResource out × (length out ≡ length rs)
  unfolding checked_resources
  checked_resources_sound [] {out} h =
      let e : [] ≡ out = ground (arith, h) in
      subst (λ o. All IsResource o × (length o ≡ 0)) e (tt, refl)
  checked_resources_sound (r ∷ rs) {out} h =
      let (r', one, more) =
        >>=-eq-some {B = List Resource} (checked_resource wide parse_ip r) _ h in
      let (rs', others, e) =
        >>=-eq-some {B = List Resource} (checked_resources wide parse_ip rs)
          (λ rs'. some (r' ∷ rs')) more in
      let (valid, same) = checked_resources_sound rs others in
      let eq : r' ∷ rs' ≡ out = ground (arith, e) in
      subst (λ o. All IsResource o × (length o ≡ length (r ∷ rs))) eq
        ((checked_resource-IsResource r one, valid), omega (arith, same))

  checked_grant-IsGrant :
      (g : Grant) {out : Grant}
      → checked_grant wide parse_ip g ≡ some out
      → 1 ≤ length g.resources
      → 1 ≤ length g.ranges
      → IsPool g.ranges
      → IsGrant out
  unfolding checked_grant
  checked_grant-IsGrant g {out} h rs ps pool =
      let (u, checked, more) =
        >>=-eq-some {B = Grant} (checked_resolver wide parse_ip g.upstream_dns) _ h in
      let (rs', others, e) =
        >>=-eq-some {B = Grant} (checked_resources wide parse_ip g.resources)
          (λ resources. some (record g { upstream_dns = u; resources = resources })) more in
      let (valid, same) = checked_resources_sound g.resources others in
      let eq : record g { upstream_dns = u; resources = rs' } ≡ out = ground (arith, e) in
      subst IsGrant eq (record {
        resolver = checked_resolver-IsChecked g.upstream_dns checked;
        some_resource = omega (arith, same);
        resources = valid;
        some_range = ps;
        pool = pool;
      })

module _ (json : Decoder) (parse_prefix : Bytes → Option Prefix) where
  unmarshal_grant-IsPool :
      (raw : Bytes) {g : Grant} → unmarshal_grant json parse_prefix raw ≡ some g → IsPool g.ranges
  unfolding unmarshal_grant
  unmarshal_grant-IsPool raw {g} h =
      let (f, _, with_fields) = >>=-eq-some {B = Grant} (json.grant_fields raw) _ h in
      let (rs, _, with_resources) =
        >>=-eq-some {B = Grant} (unmarshal_resources json f.resources) _ with_fields in
      let (values, _, with_values) =
        >>=-eq-some {B = Grant} (json.strings f.ranges) _ with_resources in
      elim (Bool-cases (length values == 0)) [
        | inl bad ↦ absurd (ground (arith, bad, with_values))
        | inr good ↦
            let give : List Prefix → Option Grant = λ ranges.
              some (record { upstream_dns = f.upstream_dns; resources = rs; ranges = ranges }) in
            let reached : (parse_ranges parse_prefix values [] >>= give) ≡ some g =
              ground (arith, good, with_values) in
            let (ranges, parsed, e) =
              >>=-eq-some (parse_ranges parse_prefix values []) give reached in
            let same : ranges ≡ g.ranges = ground (arith, e) in
            subst IsPool same (
              parse_ranges-IsPool parse_prefix values [] (record { networks = tt; separate = tt })
                parsed)
      ]

append_valid-All :
    (P : Grant → Type 0) (o : Option Grant) (rest : List Grant)
    → ((g : Grant) → o ≡ some g → P g)
    → All P rest
    → All P (append_valid o rest)
unfolding append_valid
append_valid-All P none rest h hs = hs
append_valid-All P (some g) rest h hs = (h g refl, hs)

module _ (json : Decoder) (parse_prefix : Bytes → Option Prefix) (wide : Bytes → Bytes)
    (parse_ip : Bytes → Bool) where
  parse_entry-IsGrant :
      (raw : Bytes) {g : Grant}
      → parse_entry json parse_prefix wide parse_ip raw ≡ some g
      → IsGrant wide parse_ip g
  unfolding parse_entry
  parse_entry-IsGrant raw {g} h =
      let (d, read, more) = >>=-eq-some {B = Grant} (unmarshal_grant json parse_prefix raw) _ h in
      elim (Bool-cases (length d.ranges == 0 || length d.resources == 0)) [
        | inl bad ↦ absurd (ground (arith, bad, more))
        | inr good ↦
            checked_grant-IsGrant wide parse_ip d (ground (arith, good, more))
              (ground (arith, good)) (ground (arith, good))
              (unmarshal_grant-IsPool json parse_prefix raw read)
      ]

  parse_entries-IsGrant :
      (entries : List Bytes)
      → All (IsGrant wide parse_ip) (parse_entries json parse_prefix wide parse_ip entries)
  unfolding parse_entries
  parse_entries-IsGrant [] = tt
  parse_entries-IsGrant (entry ∷ entries) =
      append_valid-All (IsGrant wide parse_ip) (parse_entry json parse_prefix wide parse_ip entry) _
        (λ g e. parse_entry-IsGrant entry e) (parse_entries-IsGrant entries)

  parse_found-IsGrant :
      (found : Option (List Bytes))
      → All (IsGrant wide parse_ip) (parse_found json parse_prefix wide parse_ip found)
  unfolding parse_found
  parse_found-IsGrant none = tt
  parse_found-IsGrant (some entries) = parse_entries-IsGrant entries

  -- Every grant that Parse returns, whatever the JSON decoder reads, has at least one resource and
  -- one range; its ranges are IPv4 networks with no address in common; each resource has a valid
  -- pattern and valid ports, and each resolver is none or one that normalizeResolver returned.
  pub parse-IsGrant :
      (raw : Option Bytes) → All (IsGrant wide parse_ip) (parse json parse_prefix wide parse_ip raw)
  unfolding parse
  parse-IsGrant none = tt
  parse-IsGrant (some raw) = parse_found-IsGrant (json.entries raw)

All-map {ℓ} :
    {A : Type ℓ} (P Q : A → Type 0) (f : (x : A) → P x → Q x) (xs : List A) → All P xs → All Q xs
All-map P Q f [] h = tt
All-map P Q f (x ∷ xs) h = (f x h.0, All-map P Q f xs h.1)

-- The ranges that the policy's other functions suppose.
pub parse-HasRanges :
    (json : Decoder) (parse_prefix : Bytes → Option Prefix) (wide : Bytes → Bytes)
    (parse_ip : Bytes → Bool) (raw : Option Bytes)
    → All HasRanges (parse json parse_prefix wide parse_ip raw)
parse-HasRanges json parse_prefix wide parse_ip raw =
    All-map (IsGrant wide parse_ip) HasRanges (λ g h. h.some_range) _
      (parse-IsGrant json parse_prefix wide parse_ip raw)
