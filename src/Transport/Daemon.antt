-- ===== src/Transport/Daemon.antt =====
-- LocalAPI of internal/domain/service.go, the adapter to the daemon of the host. What a request is answered
-- by, and what a body is read as, are parameters.
use ts_domain_gateway.Common.{
  ℕ, Bool, List, [], ◌∷◌, Option, none, some, ◌==◌, nat_eq, list_eq, if◌then◌else◌, ◌>>=◌,
}
use ts_domain_gateway.GoText.{Bytes, codes}
use ts_domain_gateway.Net.{Addr, invalid, is_valid}
use ts_domain_gateway.Alloc.Assoc.{Dict, lookup}
use ts_domain_gateway.Upstream.{NodeConfig, NodeDecoder, config_from_node_attrs}
use ts_domain_gateway.Tags.{TaggedNode}
use ts_domain_gateway.Tags.Inventory.{StatusNode, local_tagged_nodes, tailscale_ip, node_is_gateway}
use ts_domain_gateway.Service.{Identity}

-- Capability and NodeConfigCapability, which are one text.
abbrev pub capability_key : Bytes
capability_key = codes "matchlighter.net/domain-gateway"

-- A response to a request of LocalAPI: its status and its body.
pub record Response : Type 0 where
  pub status : ℕ
  pub body : Bytes

abbrev pub RawMap : Type 0
RawMap = Dict Bytes Bytes

-- localWhoIs; a map that is nil is `none`.
pub record LocalWhois : Type 0 where
  pub cap_map : Option RawMap
  pub tags : List Bytes

-- localStatus, with the capabilities of the node itself.
pub record LocalStatus : Type 0 where
  pub self : StatusNode
  pub self_caps : RawMap
  pub peers : List (Option StatusNode)
  pub addresses : List Addr

-- `get` answers a request for a path with a query.
pub record LocalApi : Type 0 where
  pub get : Bytes → List (Bytes × Bytes) → Option Response
  pub whois_body : Bytes → Option LocalWhois
  pub status_body : Bytes → Option LocalStatus

-- The query of whoIs.
unfoldable pub whois_query : (Addr → Bytes) → Addr → Addr → List (Bytes × Bytes)
whois_query to_text source destination =
    (codes "addr", to_text source)
    ∷ (if is_valid destination then (codes "dst_ip", to_text destination) ∷ [] else [])

abbrev read_body : {A : Type 0} → (Bytes → Option A) → Option Response → Option A
read_body decode none = none
read_body decode (some response) = if response.status == 200 then decode response.body else none

unfoldable pub local_whois : LocalApi → (Addr → Bytes) → Addr → Addr → Option LocalWhois
unfolding whois_query
local_whois api to_text source destination =
    read_body api.whois_body
      (api.get (codes "/localapi/v0/whois") (whois_query to_text source destination))

unfoldable pub local_status : LocalApi → Option LocalStatus
local_status api = read_body api.status_body (api.get (codes "/localapi/v0/status") [])

-- Capabilities of LocalAPI
unfoldable pub local_capabilities : LocalApi → (Addr → Bytes) → Addr → Addr → Option RawMap
unfolding local_whois
local_capabilities api to_text source destination =
    local_whois api to_text source destination >>= λ response. response.cap_map

-- LocalAPI as the identity of a service with these gateways.
unfoldable pub local_identity : LocalApi → (Addr → Bytes) → List Bytes → Identity
unfolding local_capabilities local_whois node_is_gateway
local_identity api to_text gateways = record {
  capability = λ source destination. local_capabilities api to_text source destination >>= λ caps.
      some (lookup capability_key caps);
  is_gateway = some (λ source. local_whois api to_text source invalid >>= λ response.
      some (node_is_gateway response.tags gateways));
}

-- NodeConfig of LocalAPI
unfoldable pub local_node_config : LocalApi → NodeDecoder → (Bytes → Bool) → Option NodeConfig
unfolding local_status
local_node_config api json parse_ip = local_status api >>= λ status.
    config_from_node_attrs json parse_ip (lookup capability_key status.self_caps)

-- TaggedNodes and TailscaleIP of LocalAPI
unfoldable pub local_nodes :
    LocalApi → (Addr → Bytes) → (List TaggedNode → List TaggedNode) → Option (List TaggedNode)
unfolding local_status local_tagged_nodes
local_nodes api to_text sort =
    local_tagged_nodes to_text sort
      (local_status api >>= λ status. some (status.self, status.peers))

unfoldable pub local_ip : LocalApi → Option Addr
unfolding local_status tailscale_ip
local_ip api = local_status api >>= λ status. tailscale_ip status.addresses
