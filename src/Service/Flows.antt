-- ===== src/Service/Flows.antt =====
-- What a flow that is allowed had to pass.
use mathlib.Core.Path.{subst}
use ts_domain_gateway.Common.{
  ℕ, ◌≡◌, ◌⊎◌, sym, ap, Bool, true, List, [], ◌∷◌, Option, none, some, nat_eq, arith, Bool-cases,
  Option-cases, inl, inr,
}
use ts_domain_gateway.GoText.{Bytes, codes}
use ts_domain_gateway.Name.{normal_name}
use ts_domain_gateway.Net.{Addr, Prefix, contains_prefix}
use ts_domain_gateway.Policy.{Gateway, gateway_for, authorize, ranges_for_name}
use ts_domain_gateway.Policy.Precedence.{gateway_for-IsBest}
use ts_domain_gateway.Policy.Conflict.{gateway_for-authorize}
use ts_domain_gateway.Policy.Ranges.{authorize-ranges_for_name}
use ts_domain_gateway.Policy.Decode.Valid.{parse-HasRanges}
use ts_domain_gateway.Service.{
  Library, Identity, Counters, grants_of, gateway_for_destination, flow_gateway, flow_domain,
  proxy_tcp, proxy_resolver, count_allowed, count_denied,
}
use ts_domain_gateway.Service.Only.{gateway_for_destination_iff, serving-contains}

-- A flow for a name to an address is authorized by what the policy says of its source, and the
-- address lies in the prefixes that it is authorized on.
pub record IsAuthorized (lib : Library) (identity : Identity) (source destination : Addr)
    (name proto : Bytes) (port : ℕ) (prefixes : List Prefix) : Type 0 where
  pub raw : Option Bytes
  pub told : identity.capability source destination ≡ some raw
  pub permitted : authorize (grants_of lib raw) prefixes name proto port ≡ true
  pub inside : contains_prefix prefixes destination ≡ true

module _ (lib : Library) (identity : Identity) (gateways : List Gateway)
    (source destination : Addr) where
  flow_gateway-IsAuthorized :
      (name proto : Bytes) (port : ℕ) {g : Gateway}
      → flow_gateway lib identity gateways source destination name proto port ≡ some g
      → IsAuthorized lib identity source destination name proto port g.prefixes
  unfolding flow_gateway
  flow_gateway-IsAuthorized name proto port {g} h =
      elim (Option-cases (gateway_for_destination gateways destination)) [
        | inl e ↦ absurd (ground (arith, e, h))
        | inr (own, e) ↦ elim (Option-cases (identity.capability source destination)) [
          | inl f ↦ absurd (ground (arith, e, f, h))
          | inr (raw, f) ↦
              let chosen : gateway_for (grants_of lib raw) own name proto port ≡ some g =
                ground (arith, e, f, h) in
              let kept = (gateway_for-IsBest (grants_of lib raw) own name proto port chosen).kept in
              let inside =
                serving-contains gateways destination
                  ((gateway_for_destination_iff gateways destination own).0 e) in
              record {
                raw = raw;
                told = f;
                permitted =
                    subst (λ ps. authorize (grants_of lib raw) ps name proto port ≡ true) (sym kept)
                      (gateway_for-authorize (grants_of lib raw) own name proto port chosen);
                inside = subst (λ ps. contains_prefix ps destination ≡ true) (sym kept) inside;
              }
        ]
      ]

  -- GatewayFor, over what the policy says of the source, finds this gateway, from the first of the
  -- gateways that serves the destination.
  pub record IsRouted (name proto : Bytes) (port : ℕ) (g : Gateway) : Type 0 where
    pub own : Gateway
    pub serves : gateway_for_destination gateways destination ≡ some own
    pub raw : Option Bytes
    pub told : identity.capability source destination ≡ some raw
    pub found : gateway_for (grants_of lib raw) own name proto port ≡ some g

  flow_gateway-IsRouted :
      (name proto : Bytes) (port : ℕ) {g : Gateway}
      → flow_gateway lib identity gateways source destination name proto port ≡ some g
      → IsRouted name proto port g
  unfolding flow_gateway
  flow_gateway-IsRouted name proto port {g} h =
      elim (Option-cases (gateway_for_destination gateways destination)) [
        | inl e ↦ absurd (ground (arith, e, h))
        | inr (own, e) ↦ elim (Option-cases (identity.capability source destination)) [
          | inl f ↦ absurd (ground (arith, e, f, h))
          | inr (raw, f) ↦ record {
            own = own;
            serves = e;
            raw = raw;
            told = f;
            found = ground (arith, e, f, h);
          }
        ]
      ]

  flow_domain_cases :
      (name proto : Bytes) (port : ℕ) (c : Counters)
      → (flow_domain lib identity gateways source destination name proto port c
          ≡ (none, count_denied c))
        ⊎ ((g : Gateway) × ((normal_name lib.wide name).1 ≡ true)
            × (flow_gateway lib identity gateways source destination
                  (normal_name lib.wide name).0
                  proto
                  port
                ≡ some g)
            × (flow_domain lib identity gateways source destination name proto port c
                ≡ (some g, count_allowed c)))
  unfolding flow_domain
  flow_domain_cases name proto port c = elim (Bool-cases (normal_name lib.wide name).1) [
    | inr bad ↦ inl (ground (arith, bad))
    | inl ok ↦
        elim (Option-cases (
          flow_gateway lib identity gateways source destination (normal_name lib.wide name).0 proto
            port)) [
              | inl e ↦ inl (ground (arith, ok, e))
              | inr (g, e) ↦ inr (g, ok, e, ground (arith, ok, e))
            ]
  ]

  -- FlowDomain allows a flow only for a valid name, once normalised, that the policy of its source
  -- authorizes on the prefixes of the gateway, which hold the destination; it then counts it.
  pub flow_domain-IsAuthorized :
      (name proto : Bytes) (port : ℕ) (c : Counters) {g : Gateway} {c' : Counters}
      → flow_domain lib identity gateways source destination name proto port c ≡ (some g, c')
      → ((normal_name lib.wide name).1 ≡ true)
        × IsAuthorized lib identity source destination
            (normal_name lib.wide name).0
            proto
            port
            g.prefixes
        × (c' ≡ count_allowed c)
  flow_domain-IsAuthorized name proto port c {g} {c'} h =
      elim (flow_domain_cases name proto port c) [
        | inl e ↦ absurd (ground (arith, e, h))
        | inr (own, ok, chosen, e) ↦
            let same : own ≡ g = ground (arith, e, h) in
            (
              ok,
              subst
                  (λ (k : Gateway).
                    IsAuthorized lib identity source destination (normal_name lib.wide name).0 proto
                      port k.prefixes)
                  same (flow_gateway-IsAuthorized (normal_name lib.wide name).0 proto port chosen),
              ground (arith, e, h),
            )
      ]

  -- Egress keeps to the pool of DNS: where the policy of a source gives a name the ranges of a pool,
  -- a flow for the name that FlowDomain allows goes to an address of that pool.
  pub flow_domain_in_pool :
      (name proto : Bytes) (port : ℕ) (c : Counters) {g : Gateway} {c' : Counters}
      (raw : Option Bytes) (R : List Prefix)
      → flow_domain lib identity gateways source destination name proto port c ≡ (some g, c')
      → identity.capability source destination ≡ some raw
      → ranges_for_name (grants_of lib raw) (normal_name lib.wide name).0 ≡ some R
      → (contains_prefix R destination ≡ true) × (g.prefixes ≡ R)
  flow_domain_in_pool name proto port c {g} raw R h told pooled =
      let a = (flow_domain-IsAuthorized name proto port c h).1 in
      let one : a.raw ≡ raw = ground (arith, a.told, told) in
      let permitted =
        subst
          (λ r.
            authorize (grants_of lib r) g.prefixes (normal_name lib.wide name).0 proto port ≡ true)
          one a.permitted in
      let same =
        authorize-ranges_for_name (grants_of lib raw) g.prefixes R (normal_name lib.wide name).0
          proto port (parse-HasRanges lib.json lib.parse_prefix lib.wide lib.parse_ip raw) permitted
          pooled in
      (subst (λ ps. contains_prefix ps destination ≡ true) same a.inside, same)

  -- ProxyTCP makes a connection only where the PTR lookup gave one name, and the flow to the
  -- destination's port over TCP is authorized for it.
  pub proxy_tcp-IsAuthorized :
      (system : Option Bytes) (has_dial : Bool) (names : Option (List Bytes)) (port : ℕ)
      (c : Counters) {name resolver : Bytes} {host : Bool} {c' : Counters}
      → proxy_tcp lib identity gateways system has_dial names source destination port c
        ≡ (some (name, resolver, host), c')
      → (names ≡ some (name ∷ []))
        × ((g : Gateway) × IsAuthorized lib identity source destination
              (normal_name lib.wide name).0
              (codes "tcp")
              port
              g.prefixes
            × IsRouted (normal_name lib.wide name).0 (codes "tcp") port g
            × (proxy_resolver system has_dial g ≡ some (resolver, host)))
  unfolding proxy_tcp
  proxy_tcp-IsAuthorized system has_dial none port c h = absurd (ground (arith, h))
  proxy_tcp-IsAuthorized system has_dial (some []) port c h = absurd (ground (arith, h))
  proxy_tcp-IsAuthorized system has_dial (some (a ∷ b ∷ more)) port c h = absurd (ground (arith, h))
  proxy_tcp-IsAuthorized system has_dial (some (a ∷ [])) port c {name} {resolver} {host} h =
      elim (flow_domain_cases a (codes "tcp") port c) [
        | inl e ↦ absurd (ground (arith, e, h))
        | inr (g, ok, chosen, e) ↦ elim (Option-cases (proxy_resolver system has_dial g)) [
          | inl f ↦ absurd (ground (arith, e, f, h))
          | inr ((r, o), f) ↦
              let same : a ≡ name = ground (arith, e, f, h) in
              (
                ap (λ (n : Bytes). some (n ∷ [])) same,
                (
                  g,
                  subst
                      (λ n.
                        IsAuthorized lib identity source destination (normal_name lib.wide n).0
                          (codes "tcp") port g.prefixes)
                      same
                      (flow_gateway-IsAuthorized (normal_name lib.wide a).0 (codes "tcp") port
                        chosen),
                  subst (λ n. IsRouted (normal_name lib.wide n).0 (codes "tcp") port g) same
                      (flow_gateway-IsRouted (normal_name lib.wide a).0 (codes "tcp") port chosen),
                  ground (arith, e, f, h),
                ),
              )
        ]
      ]
