-- ===== src/Tags/Inventory.antt =====
-- What the local daemon's answers are read as, in internal/domain/service.go: taggedNodes,
-- TaggedNodes, TailscaleIP and IsGateway of LocalAPI. Addr.String and the sort are parameters.
use ts_domain_gateway.Common.{
  Bool, true, false, List, [], ◌∷◌, ◌++◌, Option, none, some, length, any, ◌==◌, nat_eq, list_eq,
  if◌then◌else◌,
}
use ts_domain_gateway.GoText.{Bytes}
use ts_domain_gateway.Net.{Addr, is4}
use ts_domain_gateway.Tags.{TaggedNode}

pub record StatusNode : Type 0 where
  pub addresses : List Addr
  pub tags : List Bytes

module _ (to_text : Addr → Bytes) where
  node_entries : List Bytes → List Addr → List TaggedNode
  node_entries tags [] = []
  node_entries tags (address ∷ addresses) =
      let rest = node_entries tags addresses in
      if is4 address then record { address = to_text address; tags = tags } ∷ rest else rest

  collect_nodes : List StatusNode → List TaggedNode
  unfolding node_entries
  collect_nodes [] = []
  collect_nodes (node ∷ nodes) =
      let rest = collect_nodes nodes in
      if length node.tags == 0 then rest else node_entries node.tags node.addresses ++ rest

  unfoldable pub tagged_nodes :
      (List TaggedNode → List TaggedNode) → List StatusNode → List TaggedNode
  unfolding collect_nodes
  tagged_nodes sort nodes = sort (collect_nodes nodes)

present : List (Option StatusNode) → List StatusNode
present [] = []
present (none ∷ peers) = present peers
present (some node ∷ peers) = node ∷ present peers

-- TaggedNodes, from the status, if it can be read: the node itself and its peers.
unfoldable pub local_tagged_nodes :
    (Addr → Bytes)
    → (List TaggedNode → List TaggedNode)
    → Option (StatusNode × List (Option StatusNode))
    → Option (List TaggedNode)
unfolding tagged_nodes present
local_tagged_nodes to_text sort none = none
local_tagged_nodes to_text sort (some (self, peers)) =
    some (tagged_nodes to_text sort (self ∷ present peers))

-- TailscaleIP
unfoldable pub tailscale_ip : List Addr → Option Addr
tailscale_ip [] = none
tailscale_ip (ip ∷ ips) = if is4 ip then some ip else tailscale_ip ips

-- The loop of IsGateway over the tags of a node, with the keys of the gateways.
unfoldable pub node_is_gateway : List Bytes → List Bytes → Bool
node_is_gateway [] gateways = false
node_is_gateway (tag ∷ tags) gateways =
    if any (λ key. key == tag) gateways then true else node_is_gateway tags gateways
