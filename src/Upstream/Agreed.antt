-- ===== src/Upstream/Agreed.antt =====
-- The entries of a node attribute that is accepted.
use mathlib.Core.Path.{subst}
use ts_domain_gateway.Common.{
  ◌≤◌, ◌≡◌, ◌∙◌, ◌⊎◌, inl, inr, refl, ap, Bool, true, false, not, ◌&&◌, List, [], ◌∷◌, none, some,
  length, nat_eq, list_eq, eq_iff, if◌then◌else◌, All, arith, Bool-cases, Option-cases,
  length-append,
}
use ts_domain_gateway.GoText.{Bytes, codes, contains, colon}
use ts_domain_gateway.Resolver.{
  normalize_resolver, join_host_port, checked_endpoint, is_system_resolver, split_host_port,
}
use ts_domain_gateway.Upstream.{
  NodeConfig, NodeFields, NodeDecoder, read_node, read_nodes, config_from_node_attrs,
}

join_host_port-nonempty : (host port : Bytes) → 1 ≤ length (join_host_port host port)
unfolding join_host_port
join_host_port-nonempty host port = ground (arith, length-append host (colon ∷ port))

checked_endpoint-nonempty :
    (host port : Bytes) {out : Bytes} → checked_endpoint host port ≡ some out → 1 ≤ length out
unfolding checked_endpoint
checked_endpoint-nonempty host port {out} h = ground (arith, h, join_host_port-nonempty host port)

system-nonempty : (r : Bytes) → is_system_resolver r ≡ true → 1 ≤ length r
unfolding is_system_resolver
system-nonempty [] h = ground (arith, h)
system-nonempty (c ∷ r) h = omega arith

pub normalize_resolver-nonempty :
    (parse_ip : Bytes → Bool) (r : Bytes) {out : Bytes}
    → normalize_resolver parse_ip r ≡ some out
    → 1 ≤ length out
unfolding normalize_resolver
normalize_resolver-nonempty parse_ip r {out} h = elim (Bool-cases (is_system_resolver r)) [
  | inl system ↦
      let same : r ≡ out = ground (arith, system, h) in
      subst (λ s. 1 ≤ length s) same (system-nonempty r system)
  | inr other ↦ elim (Option-cases (split_host_port r)) [
    | inl e ↦
        let reached : (if contains r colon && not (parse_ip r)
              then none
              else some (join_host_port r (codes "53")))
            ≡ some out =
          ground (arith, other, e, h) in
        let same : join_host_port r (codes "53") ≡ out = ground (arith, reached) in
        subst (λ s. 1 ≤ length s) same (join_host_port-nonempty r (codes "53"))
    | inr ((host, port), e) ↦ checked_endpoint-nonempty host port (ground (arith, other, e, h))
  ]
]

module _ (json : NodeDecoder) (parse_ip : Bytes → Bool) where
  -- An entry that asks for this resolver and names no gateways.
  abbrev pub Asks : Bytes → Bytes → Type 0
  Asks upstream raw =
      (f : NodeFields) × (json.node_fields raw ≡ some f)
      × (f.gateways ≡ none)
      × (normalize_resolver parse_ip f.upstream_dns ≡ some upstream)

  read_node_sound :
      (raw : Bytes) (result : NodeConfig) {next : NodeConfig}
      → read_node json parse_ip raw result ≡ some next
      → Asks next.upstream_dns raw
        × (next.has_upstream_dns ≡ true)
        × ((result.upstream_dns ≡ []) ⊎ (result.upstream_dns ≡ next.upstream_dns))
        × (1 ≤ length next.upstream_dns)
  unfolding read_node
  read_node_sound raw result {next} h = elim (Option-cases (json.node_fields raw)) [
    | inl e ↦ absurd (ground (arith, e, h))
    | inr (f, e) ↦ elim (Option-cases (normalize_resolver parse_ip f.upstream_dns)) [
      | inl g ↦ absurd (ground (arith, e, g, h))
      | inr (r, g) ↦
          let same : r ≡ next.upstream_dns = ground (arith, e, g, h) in
          (
            (f, e, ground (arith, e, g, h), g ∙ ap some same),
            ground (arith, e, g, h),
            ground (arith, e, g, h, eq_iff result.upstream_dns r),
            subst (λ u. 1 ≤ length u) same (normalize_resolver-nonempty parse_ip f.upstream_dns g),
          )
    ]
  ]

  set_of :
      (values : List Bytes) (next : NodeConfig) {out : NodeConfig}
      → read_nodes json parse_ip values next ≡ some out
      → next.has_upstream_dns ≡ true
      → (values ≡ []) ⊎ (out.has_upstream_dns ≡ true)
      → out.has_upstream_dns ≡ true
  unfolding read_nodes
  set_of [] next h set m = ground (arith, h, set)
  set_of (v ∷ values) next h set m = ground (arith, m)

  read_nodes_sound :
      (values : List Bytes) (result : NodeConfig) {out : NodeConfig}
      → read_nodes json parse_ip values result ≡ some out
      → ((result.upstream_dns ≡ []) ⊎ (result.upstream_dns ≡ out.upstream_dns))
        × All (Asks out.upstream_dns) values
        × ((values ≡ []) ⊎ (out.has_upstream_dns ≡ true))
  unfolding read_nodes
  read_nodes_sound [] result {out} h =
      let same : result ≡ out = ground (arith, h) in
      (inr (ap (λ (c : NodeConfig). c.upstream_dns) same), tt, inl refl)
  read_nodes_sound (raw ∷ values) result {out} h =
      elim (Option-cases (read_node json parse_ip raw result)) [
        | inl e ↦ absurd (ground (arith, e, h))
        | inr (next, e) ↦
            let rest : read_nodes json parse_ip values next ≡ some out = ground (arith, e, h) in
            let (before, others, marked) = read_nodes_sound values next rest in
            let (asks, set, agreed, nonempty) = read_node_sound raw result e in
            let kept : next.upstream_dns ≡ out.upstream_dns = ground (arith, before, nonempty) in
            (
              ground (arith, agreed, kept),
              (subst (λ u. Asks u raw) kept asks, others),
              inr (set_of values next rest set marked),
            )
      ]

  -- Where a node has the attribute and its configuration is accepted, there is at least one entry,
  -- every entry asks for the one resolver of the configuration, as normalizeResolver spells it, and
  -- names no gateways; the configuration is marked as having a resolver.
  pub config_from_node_attrs-Asks :
      (raw : Bytes) (values : List Bytes) {config : NodeConfig}
      → json.entries raw ≡ some values
      → config_from_node_attrs json parse_ip (some raw) ≡ some config
      → All (Asks config.upstream_dns) values
        × (1 ≤ length values)
        × (config.has_upstream_dns ≡ true)
  unfolding config_from_node_attrs
  config_from_node_attrs-Asks raw [] e h = absurd (ground (arith, e, h))
  config_from_node_attrs-Asks raw (v ∷ values) {config} e h =
      let start : NodeConfig = record { upstream_dns = []; has_upstream_dns = false } in
      let read : read_nodes json parse_ip (v ∷ values) start ≡ some config = ground (arith, e, h) in
      let (_, asks, marked) = read_nodes_sound (v ∷ values) start read in
      (asks, omega arith, ground (arith, marked))
