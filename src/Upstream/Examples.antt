-- ===== src/Upstream/Examples.antt =====
-- An attribute with two entries that agree.
use ts_domain_gateway.Common.{
  ◌≤◌, ◌≡◌, refl, Bool, true, false, [], ◌∷◌, none, some, ◌==◌, list_eq, nat_eq, if◌then◌else◌, All,
}
use ts_domain_gateway.GoText.{Bytes, codes}
use ts_domain_gateway.Resolver.{normalize_resolver, is_system_resolver}
use ts_domain_gateway.Upstream.{
  NodeConfig, NodeDecoder, config_from_node_attrs, read_nodes, read_node,
}
use ts_domain_gateway.Upstream.Agreed.{Asks, config_from_node_attrs-Asks}

-- Raw messages that are one another's contents.
abbrev json : NodeDecoder
json = record {
  entries = λ raw. if raw == codes "[]" then some [] else some (raw ∷ raw ∷ []);
  node_fields = λ raw.
      if raw == codes "[]" then none else some (record { upstream_dns = raw; gateways = none });
}

abbrev no_ip : Bytes → Bool
no_ip s = false

abbrev agreed : NodeConfig
agreed = record { upstream_dns = codes "system"; has_upstream_dns = true }

config_run : config_from_node_attrs json no_ip (some (codes "system")) ≡ some agreed
unfolding config_from_node_attrs read_nodes read_node normalize_resolver is_system_resolver
config_run = refl

config_from_node_attrs-Asks_example :
    All (Asks json no_ip (codes "system")) (codes "system" ∷ codes "system" ∷ [])
    × (1 ≤ 2)
    × (true ≡ true)
config_from_node_attrs-Asks_example =
    config_from_node_attrs-Asks json no_ip (codes "system") (codes "system" ∷ codes "system" ∷ [])
      refl config_run
