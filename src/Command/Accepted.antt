-- ===== src/Command/Accepted.antt =====
-- What parseCommand accepts.
use mathlib.Core.Path.{subst}
use ts_domain_gateway.Common.{
  ℕ, ◌≤◌, ◌≡◌, ◌⊎◌, inl, inr, Bool, false, [], ◌∷◌, Option, some, length, nat_eq, list_eq, eq_iff,
  >>=-eq-some, arith, Option-cases,
}
use ts_domain_gateway.GoText.{Bytes, codes}
use ts_domain_gateway.Net.{Prefix}
use ts_domain_gateway.Resolver.{split_host_port, parse_u16, normalize_resolver, checked_endpoint}
use ts_domain_gateway.Policy.{Gateway}
use ts_domain_gateway.Policy.Decode.{parse_ranges}
use ts_domain_gateway.Policy.Decode.Pool.{IsPool, parse_ranges-IsPool}
use ts_domain_gateway.Command.{
  Config, Command, TsnetConfig, command_of, configured_resolver, egress_gateway,
  egress_upstream_resolver_interface, egress_ptr_resolver_interface, egress_ptr_resolver,
  check_egress, check_command,
}

-- The two validators of a resolver agree: what the configuration accepts for an egress fallback is
-- what a policy accepts, and it is spelled alike, for every text that is not empty.
pub configured_resolver-normalize_resolver :
    (parse_ip : Bytes → Bool) (resolver : Bytes)
    → 1 ≤ length resolver
    → configured_resolver parse_ip resolver ≡ normalize_resolver parse_ip resolver
unfolding configured_resolver normalize_resolver checked_endpoint
configured_resolver-normalize_resolver parse_ip resolver h =
    elim (Option-cases (split_host_port resolver)) [
      | inl e ↦ ground (arith, e)
      | inr ((host, []), e) ↦ unfold parse_u16 in ground (arith, e)
      | inr ((host, c ∷ port), e) ↦ elim (Option-cases (parse_u16 (c ∷ port))) [
        | inl f ↦ ground (arith, e, f)
        | inr (n, f) ↦ ground (arith, e, f)
      ]
    ]

-- The gateway of an egress instance has ranges that form a pool, and the resolver it was given.
pub egress_gateway-IsPool :
    (parse_prefix : Bytes → Option Prefix) (c : Config) (resolver : Bytes) (system : Bool)
    {g : Gateway}
    → egress_gateway parse_prefix c resolver system ≡ some g
    → IsPool g.prefixes × (g.resolver ≡ resolver) × (g.system_resolver ≡ system)
unfolding egress_gateway
egress_gateway-IsPool parse_prefix c resolver system {g} h =
    let (egress, _, more) = >>=-eq-some {B = Gateway} c.egress _ h in
    elim (Option-cases (parse_ranges parse_prefix egress.ranges [])) [
      | inl e ↦ absurd (ground (arith, e, more))
      | inr (prefixes, e) ↦
          let same : prefixes ≡ g.prefixes = ground (arith, e, more) in
          (
            subst IsPool same (
                parse_ranges-IsPool parse_prefix egress.ranges []
                  (record { networks = tt; separate = tt }) e),
            ground (arith, e, more),
            ground (arith, e, more),
          )
    ]

egress_gateway_any :
    (parse_prefix : Bytes → Option Prefix) (c : Config) (resolver : Bytes) (system : Bool)
    {g : Gateway}
    → egress_gateway parse_prefix c [] false ≡ some g
    → egress_gateway parse_prefix c resolver system
      ≡ some (record { prefixes = g.prefixes; resolver = resolver; system_resolver = system })
unfolding egress_gateway
egress_gateway_any parse_prefix c resolver system {g} h = elim (Option-cases c.egress) [
  | inl e ↦ absurd (ground (arith, e, h))
  | inr (egress, e) ↦ elim (Option-cases (parse_ranges parse_prefix egress.ranges [])) [
    | inl f ↦ absurd (ground (arith, e, f, h))
    | inr (prefixes, f) ↦ ground (arith, e, f, h)
  ]
]

-- What runEgress computes of a configuration, each with a result.
pub record IsRunnable (parse_ip : Bytes → Bool) (parse_prefix : Bytes → Option Prefix) (c : Config)
    : Type 0 where
  pub gateway :
      (resolver : Bytes) (system : Bool)
      → (g : Gateway) × (egress_gateway parse_prefix c resolver system ≡ some g)
  pub upstream_interface : (i : Bytes) × (egress_upstream_resolver_interface c ≡ some i)
  pub ptr_interface : (i : Bytes) × (egress_ptr_resolver_interface c ≡ some i)
  pub ptr_resolver : (r : Option Bytes) × (egress_ptr_resolver parse_ip c ≡ some r)
  pub fallback : (r : Bytes) × (configured_resolver parse_ip c.upstream_resolver ≡ some r)

tsnet-IsRunnable :
    (parse_ip : Bytes → Bool) (parse_prefix : Bytes → Option Prefix) (c : Config) (t : TsnetConfig)
    → IsRunnable parse_ip parse_prefix c
    → IsRunnable parse_ip parse_prefix (record c { tsnet = t })
unfolding egress_gateway egress_upstream_resolver_interface egress_ptr_resolver_interface
    egress_ptr_resolver
tsnet-IsRunnable parse_ip parse_prefix c t r = record {
  gateway = r.gateway;
  upstream_interface = r.upstream_interface;
  ptr_interface = r.ptr_interface;
  ptr_resolver = r.ptr_resolver;
  fallback = r.fallback;
}

module _ (parse_ip : Bytes → Bool) (parse_prefix : Bytes → Option Prefix)
    (parse_duration : Bytes → Option ℕ) where
  check_egress-IsRunnable :
      (c : Config)
      → check_egress parse_ip parse_prefix parse_duration c ≡ some tt
      → IsRunnable parse_ip parse_prefix c
  unfolding check_egress
  check_egress-IsRunnable c h =
      let (g, e1, h1) = >>=-eq-some {B = Unit {0}} (egress_gateway parse_prefix c [] false) _ h in
      let (i, e2, h2) = >>=-eq-some {B = Unit {0}} (egress_upstream_resolver_interface c) _ h1 in
      let (j, e3, h3) = >>=-eq-some {B = Unit {0}} (egress_ptr_resolver_interface c) _ h2 in
      let (p, e4, h4) = >>=-eq-some {B = Unit {0}} (egress_ptr_resolver parse_ip c) _ h3 in
      let (r, e5, h5) =
        >>=-eq-some {B = Unit {0}} (configured_resolver parse_ip c.upstream_resolver) _ h4 in
      record {
        gateway = λ resolver system. (_, egress_gateway_any parse_prefix c resolver system e1);
        upstream_interface = (i, e2);
        ptr_interface = (j, e3);
        ptr_resolver = (p, e4);
        fallback = (r, e5);
      }

  -- An egress command that parseCommand accepts has a configuration of which runEgress can compute
  -- the gateway, for any resolver, both interfaces, the PTR resolver and the fallback; its mode is
  -- one of the two.
  pub check_command-IsRunnable :
      (mode : Bytes) (c : Config) (tags : Bytes) {command : Command}
      → check_command parse_ip parse_prefix parse_duration (codes "egress") mode c tags
        ≡ some command
      → IsRunnable parse_ip parse_prefix command.config
        × (command.transport ≡ mode)
        × ((mode ≡ codes "tsnet") ⊎ (mode ≡ codes "tailscaled"))
  unfolding check_command
  check_command-IsRunnable mode c tags {command} h =
      elim (Option-cases (check_egress parse_ip parse_prefix parse_duration c)) [
        | inl e ↦ absurd (ground (arith, e, h))
        | inr (tt, e) ↦
            let same : command_of (codes "egress") mode c tags ≡ command = ground (arith, e, h) in
            (
              subst (λ (m : Command). IsRunnable parse_ip parse_prefix m.config) same
                  (tsnet-IsRunnable parse_ip parse_prefix c _ (check_egress-IsRunnable c e)),
              ground (arith, e, h),
              ground (arith, h, eq_iff mode (codes "tsnet"), eq_iff mode (codes "tailscaled")),
            )
      ]
