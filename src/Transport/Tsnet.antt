-- ===== src/Transport/Tsnet.antt =====
-- TSNetIdentity of internal/domain/tsnet.go, the adapter to an embedded tsnet server. What its client
-- answers is a parameter.
use ts_domain_gateway.Common.{Bool, List, [], ◌∷◌, ◌++◌, Option, none, some, nat_eq, list_eq, ◌>>=◌}
use ts_domain_gateway.GoText.{Bytes}
use ts_domain_gateway.Net.{Addr}
use ts_domain_gateway.Alloc.Assoc.{Dict, lookup}
use ts_domain_gateway.Upstream.{NodeConfig, NodeDecoder, config_from_node_attrs}
use ts_domain_gateway.Tags.{TaggedNode}
use ts_domain_gateway.Tags.Inventory.{StatusNode, tagged_nodes, node_is_gateway}
use ts_domain_gateway.Service.{Identity}
use ts_domain_gateway.Transport.Daemon.{RawMap, capability_key}

-- What the client of a tsnet server answers: WhoIs and Status, as far as they are read. A capability
-- has several raw messages; tags that are nil are `none`.
pub record Whois : Type 0 where
  pub cap_map : Dict Bytes (List Bytes)
  pub tags : List Bytes

pub record Node : Type 0 where
  pub addresses : List Addr
  pub tags : Option (List Bytes)

pub record ServerStatus : Type 0 where
  pub self : Option Node
  pub self_caps : Dict Bytes (List Bytes)
  pub peers : List (Option Node)

-- `marshal` is json.Marshal of a list of raw messages.
pub record TsnetClient : Type 0 where
  pub who_is : Bytes → Option Whois
  pub status : Option ServerStatus
  pub marshal : List Bytes → Option Bytes

-- encodeCapMap
unfoldable pub encode_cap_map :
    (List Bytes → Option Bytes) → Dict Bytes (List Bytes) → Option RawMap
encode_cap_map marshal [] = some []
encode_cap_map marshal ((capability, value) ∷ values) = marshal value >>= λ raw.
    encode_cap_map marshal values >>= λ rest. some ((capability, raw) ∷ rest)

-- Capabilities of TSNetIdentity: the destination is not asked for.
unfoldable pub tsnet_capabilities : TsnetClient → (Addr → Bytes) → Addr → Addr → Option RawMap
unfolding encode_cap_map
tsnet_capabilities client to_text source destination =
    client.who_is (to_text source) >>= λ response. encode_cap_map client.marshal response.cap_map

unfoldable pub tsnet_identity : TsnetClient → (Addr → Bytes) → List Bytes → Identity
unfolding tsnet_capabilities node_is_gateway
tsnet_identity client to_text gateways = record {
  capability = λ source destination.
      tsnet_capabilities client to_text source destination >>= λ caps.
      some (lookup capability_key caps);
  is_gateway = some (λ source.
      client.who_is (to_text source) >>= λ response. some (node_is_gateway response.tags gateways));
}

-- NodeConfig of TSNetIdentity, whose status has a node of its own.
unfoldable pub tsnet_node_config : TsnetClient → NodeDecoder → (Bytes → Bool) → Option NodeConfig
unfolding encode_cap_map
tsnet_node_config client json parse_ip = client.status >>= λ status.
    encode_cap_map client.marshal status.self_caps >>= λ raw.
    config_from_node_attrs json parse_ip (lookup capability_key raw)

abbrev pub status_node : Node → StatusNode
status_node n = record {
  addresses = n.addresses;
  tags = elim n.tags [ none ↦ [] | some tags ↦ tags ];
}

abbrev pub self_nodes : Option Node → List StatusNode
self_nodes none = []
self_nodes (some n) = status_node n ∷ []

unfoldable pub peer_nodes : List (Option Node) → List StatusNode
peer_nodes [] = []
peer_nodes (none ∷ peers) = peer_nodes peers
peer_nodes (some n ∷ peers) = status_node n ∷ peer_nodes peers

-- TaggedNodes of TSNetIdentity
unfoldable pub tsnet_nodes :
    TsnetClient → (Addr → Bytes) → (List TaggedNode → List TaggedNode) → Option (List TaggedNode)
unfolding tagged_nodes peer_nodes
tsnet_nodes client to_text sort = client.status >>= λ status.
    some (tagged_nodes to_text sort (self_nodes status.self ++ peer_nodes status.peers))
