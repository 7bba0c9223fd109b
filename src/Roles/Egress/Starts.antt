-- ===== src/Roles/Egress/Starts.antt =====
-- Which configurations an egress instance starts with.
use ts_domain_gateway.Common.{
  ◌≤◌, ◌≡◌, inl, inr, refl, Bool, true, false, not, List, [], ◌∷◌, Option, none, some, length,
  arith, ◌==◌, list_eq, nat_eq, if◌then◌else◌, ◌>>=◌, Bool-cases,
}
use ts_domain_gateway.GoText.{Bytes, codes}
use ts_domain_gateway.Resolver.{is_system_resolver}
use ts_domain_gateway.Upstream.{NodeConfig}
use ts_domain_gateway.Command.{
  Config, configured_resolver, egress_backend_resolver, with_port, dns_resolvers, keep_addresses,
}
use ts_domain_gateway.Command.Accepted.{IsRunnable}
use ts_domain_gateway.Transport.{Transport}
use ts_domain_gateway.Roles.Egress.{
  Host, Egress, config_or_zero, open_tailnet, run_kernel, run_userspace, run_egress,
}

-- The resolver of the node's attribute, where it has one, is one that the configuration would accept.
abbrev pub IsUsable : (Bytes → Bool) → Option NodeConfig → Type 0
IsUsable parse_ip none = Unit {0}
IsUsable parse_ip (some node) =
    node.has_upstream_dns ≡ true
    → (r : Bytes) × (configured_resolver parse_ip node.upstream_dns ≡ some r)

module _ (parse_ip : Bytes → Bool) (system : Option Bytes) {upstream : Bytes}
    (host : system ≡ some upstream) (c : Config) where
  asked_backend :
      (node : NodeConfig) (asked : Bytes) {r : Bytes}
      → (let visible = if node.has_upstream_dns then node.upstream_dns else c.upstream_resolver in
          if length visible == 0 then codes "system" else visible)
        ≡ asked
      → configured_resolver parse_ip asked ≡ some r
      → (found : Bytes × Bool) × (egress_backend_resolver parse_ip system c node ≡ some found)
  unfolding egress_backend_resolver
  asked_backend node asked {r} a h = elim (Bool-cases (is_system_resolver r)) [
    | inl e ↦ ((upstream, true), ground (arith, host, a, h, e))
    | inr e ↦ ((r, false), ground (arith, a, h, e))
  ]

  system_asked : configured_resolver parse_ip (codes "system") ≡ some (codes "system")
  unfolding configured_resolver is_system_resolver
  system_asked = refl

  visible_backend :
      (node : NodeConfig) (r : Bytes)
      → configured_resolver parse_ip
          (if node.has_upstream_dns then node.upstream_dns else c.upstream_resolver)
        ≡ some r
      → (found : Bytes × Bool) × (egress_backend_resolver parse_ip system c node ≡ some found)
  visible_backend node r h =
      let visible = if node.has_upstream_dns then node.upstream_dns else c.upstream_resolver in
      elim (Bool-cases (length visible == 0)) [
        | inl e ↦ asked_backend node (codes "system") (ground (arith, e)) system_asked
        | inr e ↦ asked_backend node visible (ground (arith, e)) h
      ]

  backend_total :
      (given : Option NodeConfig) (r : Bytes)
      → configured_resolver parse_ip c.upstream_resolver ≡ some r
      → IsUsable parse_ip given
      → (found : Bytes × Bool) × (egress_backend_resolver parse_ip system c (config_or_zero given)
          ≡ some found)
  backend_total none r h usable = visible_backend (config_or_zero none) r h
  backend_total (some node) r h usable = elim (Bool-cases node.has_upstream_dns) [
    | inl e ↦ let (r', f) = usable e in visible_backend node r' (ground (arith, e, f))
    | inr e ↦ visible_backend node r (ground (arith, e, h))
  ]

bind_total :
    {A B : Type 0} (m : Option A) (f : A → Option B) {a : A}
    → m ≡ some a
    → (b : B) × (f a ≡ some b)
    → (b : B) × ((m >>= f) ≡ some b)
bind_total m f e (b, h) = (b, ground (arith, e, h))

guard_total :
    {B : Type 0} (b : Bool) (m : Option B)
    → b ≡ true
    → (x : B) × (m ≡ some x)
    → (x : B) × ((if not b then none else m) ≡ some x)
guard_total b m e (x, h) = (x, ground (arith, e, h))

resolvers_total :
    (ptr : Option Bytes) {advertised : Option (List Bytes)} (addr : Bytes) (addrs : List Bytes)
    → advertised ≡ some (addr ∷ addrs)
    → 1 ≤ length addr
    → (found : List Bytes) × (dns_resolvers ptr advertised ≡ some found)
unfolding dns_resolvers keep_addresses
resolvers_total none addr addrs e h = (with_port addr ∷ keep_addresses addrs, ground (arith, e, h))
resolvers_total (some ptr) addr addrs e h = (ptr ∷ [], refl)

module _ (out : Host) {upstream : Bytes} (host : out.system ≡ some upstream) (c : Config)
    (tailnet : Transport) (r : IsRunnable out.readers.parse_ip out.readers.parse_prefix c)
    (usable : IsUsable out.readers.parse_ip tailnet.node_config) where
  run_kernel_total : (running : Egress) × (run_kernel out c tailnet ≡ some running)
  unfolding run_kernel
  run_kernel_total =
      let ((resolver, system), e1) =
        backend_total out.readers.parse_ip out.system host c tailnet.node_config r.fallback.0
          r.fallback.1 usable in
      bind_total _ _ e1
        (bind_total _ _ (r.gateway resolver system).1 (bind_total _ _ r.ptr_resolver.1 (_, refl)))

  run_userspace_total :
      (addr : Bytes) (addrs : List Bytes)
      → out.accepts_routes ≡ true
      → out.advertised ≡ some (addr ∷ addrs)
      → 1 ≤ length addr
      → (running : Egress) × (run_userspace out c tailnet ≡ some running)
  unfolding run_userspace
  run_userspace_total addr addrs accepts known h =
      let ((resolver, system), e) =
        backend_total out.readers.parse_ip out.system host c tailnet.node_config r.fallback.0
          r.fallback.1 usable in
      let (ptr, e') = r.ptr_resolver in
      guard_total _ _ accepts (
        bind_total _ _ r.upstream_interface.1 (
          bind_total _ _ r.ptr_interface.1 (
            bind_total _ _ e (
              bind_total _ _ e' (
                bind_total _ _ (resolvers_total ptr addr addrs known h).1
                  (bind_total _ _ (r.gateway resolver system).1 (_, refl)))))))

  -- Both dataplanes.
  pub run_egress_total :
      (mode : Bytes) (addr : Bytes) (addrs : List Bytes)
      → open_tailnet out c mode ≡ some tailnet
      → out.accepts_routes ≡ true
      → out.advertised ≡ some (addr ∷ addrs)
      → 1 ≤ length addr
      → (running : Egress) × (run_egress out c mode ≡ some running)
  unfolding run_egress
  run_egress_total mode addr addrs opened accepts known h =
      let (kernel, e) =
        bind_total (open_tailnet out c mode) (λ t. run_kernel out c t) opened run_kernel_total in
      let (userspace, f) =
        bind_total (open_tailnet out c mode) (λ t. run_userspace out c t) opened
          (run_userspace_total addr addrs accepts known h) in
      elim (Bool-cases (mode == codes "tailscaled")) [
        | inl hit ↦ (kernel, ground (arith, hit, e))
        | inr miss ↦ (userspace, ground (arith, miss, f))
      ]
