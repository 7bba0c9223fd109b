-- ===== src/Roles/Egress/Connects.antt =====
-- The flows of an egress instance that runs: the Service that runEgress of cmd/domain-gateway/main.go
-- fills, behind either dataplane. `ask` is the answer of a resolver for an address, over the dialer that
-- is chosen for it, and `default` that of Go's default resolver.
use ts_domain_gateway.Common.{
  Option-cases, ℕ, ◌≡◌, refl, inl, inr, Bool, true, false, not, List, [], ◌∷◌, Option, none, some,
  arith, ◌==◌, list_eq, nat_eq, if◌then◌else◌, ◌>>=◌, >>=-eq-some, Bool-cases,
}
use mathlib.Core.Path.{subst}
use ts_domain_gateway.GoText.{Bytes, codes}
use ts_domain_gateway.Net.{Addr, Prefix, contains_prefix}
use ts_domain_gateway.Policy.{Gateway}
use ts_domain_gateway.Policy.Decode.{parse_ranges}
use ts_domain_gateway.Policy.Decode.Pool.{IsPool}
use ts_domain_gateway.Service.{Library, Identity, Counters, proxy_tcp}
use ts_domain_gateway.Service.Connect.{
  Network, connect, backend_address, IsBackend, connect-IsBackend,
}
use ts_domain_gateway.Transport.{Transport}
use ts_domain_gateway.Transport.Userspace.{is_known, unknown-flow_domain}
use ts_domain_gateway.Command.{
  EgressConfig, Config, egress_backend_resolver, egress_gateway, egress_ptr_resolver,
  egress_upstream_resolver_interface, egress_ptr_resolver_interface, dns_resolvers,
}
use ts_domain_gateway.Command.Accepted.{egress_gateway-IsPool}
use ts_domain_gateway.Roles.Egress.{
  Host, Dataplane, kernel, userspace, Egress, config_or_zero, open_tailnet, run_kernel,
  run_userspace, run_egress,
}
use ts_domain_gateway.Roles.Egress.Names.{lookup_ptr}

-- The field ResolverDial is set.
unfoldable pub dials : Dataplane → Bool
dials (kernel ptr_resolver listen) = false
dials (userspace upstream ptr resolvers) = true

-- The field PTRLookup, or what ProxyTCP puts in its place.
unfoldable pub names_of :
    (Bytes → Addr → Option (List Bytes))
    → (Addr → Option (List Bytes))
    → Dataplane
    → Addr
    → Option (List Bytes)
unfolding lookup_ptr
names_of ask default (kernel none listen) ip = default ip
names_of ask default (kernel (some ptr_resolver) listen) ip = ask ptr_resolver ip
names_of ask default (userspace upstream ptr resolvers) ip =
    lookup_ptr (λ r. ask r ip) resolvers (some [])

-- The flows that reach ProxyTCP.
unfoldable pub admits : Egress → Addr → Bool
unfolding is_known
admits e destination = elim e.plane [
  | kernel ptr_resolver listen ↦ true
  | userspace upstream ptr resolvers ↦ is_known (e.gateway ∷ []) destination
]

module _ (lib : Library) (ask : Bytes → Addr → Option (List Bytes))
    (default : Addr → Option (List Bytes)) (net : Network) (system : Option Bytes) where
  unfoldable pub egress_connect : Egress → Addr → Addr → ℕ → Counters → Option Bytes × Counters
  unfolding dials names_of admits connect
  egress_connect e source destination port c =
      if not (admits e destination)
      then (none, c)
      else connect lib e.identity (e.gateway ∷ []) system (dials e.plane)
          (names_of ask default e.plane) net source destination port c

unknown-proxy_tcp :
    (lib : Library) (identity : Identity) (gateways : List Gateway) (system : Option Bytes)
    (has_dial : Bool) (names : Option (List Bytes)) (source destination : Addr) (port : ℕ)
    (c : Counters)
    → is_known gateways destination ≡ false
    → (proxy_tcp lib identity gateways system has_dial names source destination port c).0 ≡ none
unfolding proxy_tcp
unknown-proxy_tcp lib identity gateways system has_dial none source destination port c h = refl
unknown-proxy_tcp lib identity gateways system has_dial (some []) source destination port c h = refl
unknown-proxy_tcp lib identity gateways system has_dial (some (a ∷ b ∷ names)) source destination
      port c h =
    refl
unknown-proxy_tcp lib identity gateways system has_dial (some (name ∷ [])) source destination port c
      h =
    ground (
      arith,
      unknown-flow_domain lib identity gateways source destination h name (codes "tcp") port c,
    )

connect-inside :
    (lib : Library) (identity : Identity) (g : Gateway) (system : Option Bytes) (has_dial : Bool)
    (names : Addr → Option (List Bytes)) (net : Network) (source destination : Addr) (port : ℕ)
    (c : Counters) {address : Bytes} {c' : Counters}
    → connect lib identity (g ∷ []) system has_dial names net source destination port c
      ≡ (some address, c')
    → contains_prefix g.prefixes destination ≡ true
unfolding connect
connect-inside lib identity g system has_dial names net source destination port c {address} h =
    elim (Bool-cases (contains_prefix g.prefixes destination)) [
      | inl hit ↦ hit
      | inr miss ↦
          let unknown : is_known (g ∷ []) destination ≡ false =
            unfold is_known in ground (arith, miss) in
          let empty =
            unknown-proxy_tcp lib identity (g ∷ []) system has_dial (names destination) source
              destination port c unknown in
          absurd (unfold backend_address in ground (arith, empty, h))
    ]

-- The prefixes are the ranges of the configuration, which form a pool.
abbrev pub IsConfigured : (Bytes → Option Prefix) → Config → List Prefix → Type 0
IsConfigured parse_prefix c prefixes =
    (egress : EgressConfig) × (c.egress ≡ some egress)
    × (parse_ranges parse_prefix egress.ranges [] ≡ some prefixes)
    × IsPool prefixes

egress_gateway-IsConfigured :
    (parse_prefix : Bytes → Option Prefix) (c : Config) (resolver : Bytes) (system : Bool)
    {g : Gateway}
    → egress_gateway parse_prefix c resolver system ≡ some g
    → IsConfigured parse_prefix c g.prefixes
unfolding egress_gateway
egress_gateway-IsConfigured parse_prefix c resolver system {g} h =
    let (egress, given, more) = >>=-eq-some {B = Gateway} c.egress _ h in
    let read : parse_ranges parse_prefix egress.ranges [] ≡ some g.prefixes =
      elim (Option-cases (parse_ranges parse_prefix egress.ranges [])) [
        | inl e ↦ absurd (ground (arith, e, more))
        | inr (prefixes, e) ↦ ground (arith, e, more)
      ] in
    (egress, given, read, (egress_gateway-IsPool parse_prefix c resolver system h).0)

module _ (out : Host) (c : Config) (tailnet : Transport) where
  run_kernel-IsConfigured :
      {e : Egress}
      → run_kernel out c tailnet ≡ some e
      → IsConfigured out.readers.parse_prefix c e.gateway.prefixes
  unfolding run_kernel
  run_kernel-IsConfigured {e} h =
      let ((resolver, host), _, h1) =
        >>=-eq-some {B = Egress}
          (egress_backend_resolver out.readers.parse_ip out.system c
            (config_or_zero tailnet.node_config))
          _ h in
      let (g, made, h2) =
        >>=-eq-some {B = Egress} (egress_gateway out.readers.parse_prefix c resolver host) _ h1 in
      let (ptr, _, h3) =
        >>=-eq-some {B = Egress} (egress_ptr_resolver out.readers.parse_ip c) _ h2 in
      let same : g.prefixes ≡ e.gateway.prefixes = ground (arith, h3) in
      subst (IsConfigured out.readers.parse_prefix c) same
        (egress_gateway-IsConfigured out.readers.parse_prefix c resolver host made)

  accepts_routes_lem :
      {A : Type 0} (m : Option A) {a : A}
      → (if not out.accepts_routes then none else m) ≡ some a
      → m ≡ some a
  accepts_routes_lem m h = ground (arith, h)

  run_userspace-IsConfigured :
      {e : Egress}
      → run_userspace out c tailnet ≡ some e
      → IsConfigured out.readers.parse_prefix c e.gateway.prefixes
  unfolding run_userspace
  run_userspace-IsConfigured {e} h =
      let (upstream, _, h1) =
        >>=-eq-some {B = Egress} (egress_upstream_resolver_interface c) _
          (accepts_routes_lem _ h) in
      let (interface, _, h2) = >>=-eq-some {B = Egress} (egress_ptr_resolver_interface c) _ h1 in
      let ((resolver, host), _, h3) =
        >>=-eq-some {B = Egress}
          (egress_backend_resolver out.readers.parse_ip out.system c
            (config_or_zero tailnet.node_config))
          _ h2 in
      let (ptr, _, h4) =
        >>=-eq-some {B = Egress} (egress_ptr_resolver out.readers.parse_ip c) _ h3 in
      let (resolvers, _, h5) = >>=-eq-some {B = Egress} (dns_resolvers ptr out.advertised) _ h4 in
      let (g, made, h6) =
        >>=-eq-some {B = Egress} (egress_gateway out.readers.parse_prefix c resolver host) _ h5 in
      let same : g.prefixes ≡ e.gateway.prefixes = ground (arith, h6) in
      subst (IsConfigured out.readers.parse_prefix c) same
        (egress_gateway-IsConfigured out.readers.parse_prefix c resolver host made)

run_egress-IsConfigured :
    (out : Host) (c : Config) (mode : Bytes) {e : Egress}
    → run_egress out c mode ≡ some e
    → IsConfigured out.readers.parse_prefix c e.gateway.prefixes
unfolding run_egress
run_egress-IsConfigured out c mode {e} h = elim (Bool-cases (mode == codes "tailscaled")) [
  | inl hit ↦
      let chosen : (open_tailnet out c mode >>= λ t. run_kernel out c t) ≡ some e =
        ground (arith, hit, h) in
      let (tailnet, _, more) = >>=-eq-some {B = Egress} (open_tailnet out c mode) _ chosen in
      run_kernel-IsConfigured out c tailnet more
  | inr miss ↦
      let chosen : (open_tailnet out c mode >>= λ t. run_userspace out c t) ≡ some e =
        ground (arith, miss, h) in
      let (tailnet, _, more) = >>=-eq-some {B = Egress} (open_tailnet out c mode) _ chosen in
      run_userspace-IsConfigured out c tailnet more
]

-- Every connection that an egress instance makes, behind either dataplane: its client asked for an address
-- in the ranges that the instance is configured with, which form a pool; the policy authorizes the flow
-- for the only name of this address; and the connection is to the first address that the resolver of the
-- authorizing gateway gives for the name, on the port that the client asked for.
pub run_egress-IsBackend :
    (out : Host) (config : Config) (mode : Bytes) {e : Egress} (lib : Library)
    (ask : Bytes → Addr → Option (List Bytes)) (default : Addr → Option (List Bytes))
    (net : Network) (source destination : Addr) (port : ℕ) (c : Counters) {address : Bytes}
    {c' : Counters}
    → run_egress out config mode ≡ some e
    → egress_connect lib ask default net out.system e source destination port c ≡ (some address, c')
    → IsConfigured out.readers.parse_prefix config e.gateway.prefixes
      × (contains_prefix e.gateway.prefixes destination ≡ true)
      × IsBackend lib e.identity
          (e.gateway ∷ [])
          out.system
          (dials e.plane)
          (names_of ask default e.plane)
          net
          source
          destination
          port
          address
unfolding egress_connect
run_egress-IsBackend out config mode {e} lib ask default net source destination port c {address}
      {c'} started h =
    let made : connect lib e.identity (e.gateway ∷ []) out.system (dials e.plane)
          (names_of ask default e.plane) net source destination port c
        ≡ (some address, c') =
      ground (arith, h) in
    (
      run_egress-IsConfigured out config mode started,
      connect-inside lib e.identity e.gateway out.system (dials e.plane)
          (names_of ask default e.plane) net source destination port c made,
      connect-IsBackend lib e.identity (e.gateway ∷ []) out.system (dials e.plane)
          (names_of ask default e.plane) net source destination port c made,
    )
