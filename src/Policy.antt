-- ===== src/Policy.antt =====
-- The authorization path of internal/domain/domain.go: GatewayFor, Authorize, RangesForName
-- and samePrefixSlice. A nil slice of prefixes is the empty list: no grant that Parse
-- returns has an empty range list.
pub mod Offers
pub mod Precedence
pub mod Conflict
pub mod Ranges
pub mod Decode
mod Examples
use ts_domain_gateway.Common.{
  ℕ, Bool, true, false, not, ◌&&◌, ◌||◌, List, [], ◌∷◌, ◌++◌, Option, none, some, length, ltb, ◌==◌,
  nat_eq, list_eq, if◌then◌else◌,
}
use ts_domain_gateway.GoText.{Bytes}
use ts_domain_gateway.Name.{match}
use ts_domain_gateway.Port.{allowed_port}
use ts_domain_gateway.Net.{Prefix, prefix_eq}
use ts_domain_gateway.Resolver.{is_system_resolver}

pub record Resource : Type 0 where
  pub domain : Bytes
  pub ip : List Bytes
  pub upstream_dns : Bytes

pub record Grant : Type 0 where
  pub upstream_dns : Bytes
  pub resources : List Resource
  pub ranges : List Prefix

pub record Gateway : Type 0 where
  pub prefixes : List Prefix
  pub resolver : Bytes
  pub system_resolver : Bool

-- The loop of samePrefixSlice, over slices of one length.
same_elements : List Prefix → List Prefix → Bool
same_elements [] b = true
same_elements (p ∷ a) [] = false
same_elements (p ∷ a) (q ∷ b) = if p == q then same_elements a b else false

unfoldable pub same_prefix_slice : List Prefix → List Prefix → Bool
unfolding same_elements
same_prefix_slice a b = if length a == length b then same_elements a b else false

unfoldable pub reaches : Resource → Bytes → Bytes → ℕ → Bool
reaches resource name proto port = match resource.domain name && allowed_port resource.ip proto port

-- The local variables of GatewayFor.
pub record Choice : Type 0 where
  pub resolver : Bytes
  pub priority : ℕ
  pub system_resolver : Bool
  pub matched : Bool

-- The resolver that a matching resource asks for, with its priority.
unfoldable pub candidate : Grant → Gateway → Resource → Bytes × ℕ
candidate grant gateway resource =
    let asked : Bytes × ℕ =
      if not (length resource.upstream_dns == 0)
      then (resource.upstream_dns, 2)
      else (grant.upstream_dns, 1) in
    if length asked.0 == 0 then (gateway.resolver, 0) else asked

-- The rest of the loop's body; `none` is the return on a conflict.
unfoldable pub consider : Bytes × ℕ → Choice → Option Choice
consider (resolver, priority) s =
    if not s.matched || ltb s.priority priority
    then some (record {
      resolver = resolver;
      priority = priority;
      system_resolver = if ltb 0 priority then is_system_resolver resolver else s.system_resolver;
      matched = true;
    })
    else if priority == s.priority && not (resolver == s.resolver)
    then none
    else some (record s { matched = true })

module _ (gateway : Gateway) (name proto : Bytes) (port : ℕ) where
  unfoldable pub over_resources : Grant → List Resource → Choice → Option Choice
  over_resources grant [] s = some s
  over_resources grant (r ∷ rs) s =
      let skip = over_resources grant rs s in
      if not (reaches r name proto port)
      then skip
      else elim (consider (candidate grant gateway r) s) [
        | none ↦ none
        | some s' ↦ over_resources grant rs s'
      ]

  unfoldable pub over_grants : List Grant → Choice → Option Choice
  over_grants [] s = some s
  over_grants (g ∷ gs) s =
      let skip = over_grants gs s in
      if not (same_prefix_slice g.ranges gateway.prefixes)
      then skip
      else elim (over_resources g g.resources s) [ none ↦ none | some s' ↦ over_grants gs s' ]

abbrev pub undecided : Gateway → Choice
undecided gateway = record {
  resolver = gateway.resolver;
  priority = 0;
  system_resolver = gateway.system_resolver;
  matched = false;
}

-- What follows the loops of GatewayFor.
unfoldable pub conclude : Gateway → Option Choice → Option Gateway
conclude gateway none = none
conclude gateway (some s) =
    if s.matched
    then some (record gateway { resolver = s.resolver; system_resolver = s.system_resolver })
    else none

unfoldable pub gateway_for : List Grant → Gateway → Bytes → Bytes → ℕ → Option Gateway
gateway_for grants gateway name proto port =
    conclude gateway (over_grants gateway name proto port grants (undecided gateway))

unfoldable pub any_reaches : List Resource → Bytes → Bytes → ℕ → Bool
any_reaches [] name proto port = false
any_reaches (r ∷ rs) name proto port =
    if reaches r name proto port then true else any_reaches rs name proto port

unfoldable pub authorize : List Grant → List Prefix → Bytes → Bytes → ℕ → Bool
authorize [] prefixes name proto port = false
authorize (g ∷ gs) prefixes name proto port =
    let rest = authorize gs prefixes name proto port in
    if not (same_prefix_slice g.ranges prefixes)
    then rest
    else if any_reaches g.resources name proto port
    then true
    else rest

-- The loops of RangesForName; the last argument is `ranges`, and `none` the return on a conflict.
unfoldable pub ranges_in_grant : Grant → Bytes → List Resource → List Prefix → Option (List Prefix)
ranges_in_grant grant name [] ranges = some ranges
ranges_in_grant grant name (r ∷ rs) ranges =
    let skip = ranges_in_grant grant name rs ranges in
    let rest = ranges_in_grant grant name rs grant.ranges in
    if not (match r.domain name)
    then skip
    else if not (length ranges == 0) && not (same_prefix_slice ranges grant.ranges)
    then none
    else rest

unfoldable pub ranges_in_grants : List Grant → Bytes → List Prefix → Option (List Prefix)
ranges_in_grants [] name ranges = some ranges
ranges_in_grants (g ∷ gs) name ranges = elim (ranges_in_grant g name g.resources ranges) [
  | none ↦ none
  | some ranges' ↦ ranges_in_grants gs name ranges'
]

unfoldable pub ranges_for_name : List Grant → Bytes → Option (List Prefix)
ranges_for_name grants name = elim (ranges_in_grants grants name []) [
  | none ↦ none
  | some ranges ↦ if length ranges == 0 then none else some ranges
]
