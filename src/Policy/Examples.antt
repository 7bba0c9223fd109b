-- ===== src/Policy/Examples.antt =====
-- Two grants for one pool, the second with a resolver of its own for one name.
use ts_domain_gateway.Common.{
  ◌≤◌, ◌*◌, ◌+◌, ◌^◌, ◌≡◌, ◌↔◌, refl, true, false, List, [], ◌∷◌, some, arith,
}
use ts_domain_gateway.GoText.{codes}
use ts_domain_gateway.Name.{match}
use ts_domain_gateway.Port.{allowed_port}
use ts_domain_gateway.Net.{Prefix, v4}
use ts_domain_gateway.Resolver.{is_system_resolver}
use ts_domain_gateway.Policy.{
  Grant, Gateway, gateway_for, over_grants, over_resources, same_prefix_slice, reaches, candidate,
  consider, conclude, authorize, any_reaches, ranges_for_name, ranges_in_grants, ranges_in_grant,
}
use ts_domain_gateway.Policy.Precedence.{IsBest, gateway_for-IsBest}
use ts_domain_gateway.Policy.Conflict.{gateway_for_total}
use ts_domain_gateway.Policy.Ranges.{Pools, Pooled, ranges_for_name_iff, authorize-ranges_for_name}

abbrev pool : Prefix
pool = record { addr = v4 (100 * 2 ^ 24 + 64 * 2 ^ 16); bits = 24 }

abbrev corp : Grant
corp = record {
  upstream_dns = codes "10.0.0.53:53";
  resources = record { domain = codes "*.corp"; ip = []; upstream_dns = [] } ∷ [];
  ranges = pool ∷ [];
}

abbrev special : Grant
special = record {
  upstream_dns = [];
  resources =
      record { domain = codes "git.corp"; ip = codes "tcp:22" ∷ []; upstream_dns = codes "system" }
      ∷ [];
  ranges = pool ∷ [];
}

abbrev grants : List Grant
grants = corp ∷ special ∷ []

abbrev fallback : Gateway
fallback = record { prefixes = pool ∷ []; resolver = codes "1.1.1.1:53"; system_resolver = false }

abbrev routed : Gateway
routed = record { prefixes = pool ∷ []; resolver = codes "system"; system_resolver = true }

gateway_for_run : gateway_for grants fallback (codes "git.corp") (codes "tcp") 22 ≡ some routed
unfolding gateway_for over_grants over_resources same_prefix_slice reaches match allowed_port
    candidate consider conclude is_system_resolver
gateway_for_run = refl

gateway_for-IsBest_example : IsBest grants fallback (codes "git.corp") (codes "tcp") 22 routed
gateway_for-IsBest_example =
    gateway_for-IsBest grants fallback (codes "git.corp") (codes "tcp") 22 gateway_for_run

authorize_run : authorize grants (pool ∷ []) (codes "git.corp") (codes "tcp") 22 ≡ true
unfolding authorize any_reaches same_prefix_slice reaches match allowed_port
authorize_run = refl

ranges_for_name_run : ranges_for_name grants (codes "git.corp") ≡ some (pool ∷ [])
unfolding ranges_for_name ranges_in_grants ranges_in_grant same_prefix_slice match
ranges_for_name_run = refl

gateway_for_total_example :
    (g : Gateway) × (gateway_for grants fallback (codes "git.corp") (codes "tcp") 22 ≡ some g)
unfolding reaches match allowed_port candidate same_prefix_slice
gateway_for_total_example =
    gateway_for_total grants fallback (codes "git.corp") (codes "tcp") 22 authorize_run
      (((λ e. absurd (omega (arith, e))), tt), (tt, tt))

ranges_for_name_iff_example : (ranges_for_name grants (codes "git.corp") ≡ some (pool ∷ [])) ↔ (
    (1 ≤ 1)
    × Pooled (codes "git.corp") (pool ∷ []) grants
    × Pools (codes "git.corp") (pool ∷ []) grants)
ranges_for_name_iff_example =
    ranges_for_name_iff grants (codes "git.corp") (pool ∷ []) (omega arith, (omega arith, tt))

authorize-ranges_for_name_example : pool ∷ [] ≡ pool ∷ []
authorize-ranges_for_name_example =
    authorize-ranges_for_name grants (pool ∷ []) (pool ∷ []) (codes "git.corp") (codes "tcp") 22
      (omega arith, (omega arith, tt)) authorize_run ranges_for_name_run
