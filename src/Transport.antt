-- ===== src/Transport.antt =====
-- The adapters to the tailnet: LocalAPI of internal/domain/service.go, TSNetIdentity of
-- internal/domain/tsnet.go, and openTailnetTransport of cmd/domain-gateway/transport.go, which selects
-- one. HTTP, encoding/json and the tailscale libraries are parameters: what a request is answered by, and
-- what a body is read as. A Go map is the list of its entries. An error is `none`.
pub mod Daemon
pub mod Tsnet
pub mod Userspace
mod Examples
use ts_domain_gateway.Common.{
  ℕ, Bool, true, false, not, List, [], ◌∷◌, ◌++◌, Option, none, some, length, any, ◌==◌, nat_eq,
  list_eq, if◌then◌else◌, ◌>>=◌,
}
use ts_domain_gateway.GoText.{Bytes, codes}
use ts_domain_gateway.Net.{Addr, invalid, is_valid}
use ts_domain_gateway.Alloc.Assoc.{Dict, lookup}
use ts_domain_gateway.Upstream.{NodeConfig, NodeDecoder, config_from_node_attrs}
use ts_domain_gateway.Tags.{TaggedNode}
use ts_domain_gateway.Tags.Inventory.{
  StatusNode, tagged_nodes, local_tagged_nodes, tailscale_ip, node_is_gateway,
}
use ts_domain_gateway.Service.{Identity}
use ts_domain_gateway.Command.{TsnetConfig, Config, new_tsnet}
use ts_domain_gateway.Transport.Daemon.{
  LocalApi, local_identity, local_node_config, local_nodes, local_ip,
}
use ts_domain_gateway.Transport.Tsnet.{TsnetClient, tsnet_identity, tsnet_node_config, tsnet_nodes}

-- tailnetTransport; an error of NodeConfig is `none`.
pub record Transport : Type 0 where
  pub is_tsnet : Bool
  pub identity : List Bytes → Identity
  pub nodes : Option (List TaggedNode)
  pub node_config : Option NodeConfig
  pub ip : Addr

-- What openTailnetTransport asks of the outside: the daemon, or a tsnet server that is started, with
-- its client and its first address.
pub record Adapters : Type 0 where
  pub api : LocalApi
  pub env_key : Bytes
  pub up : TsnetConfig → Bool
  pub client : TsnetConfig → Option TsnetClient
  pub own_ip : TsnetConfig → Addr

module _ (out : Adapters) (to_text : Addr → Bytes) (sort : List TaggedNode → List TaggedNode)
    (json : NodeDecoder) (parse_ip : Bytes → Bool) where
  local_transport : Addr → Transport
  unfolding local_identity local_nodes local_node_config
  local_transport ip = record {
    is_tsnet = false;
    identity = local_identity out.api to_text;
    nodes = local_nodes out.api to_text sort;
    node_config = local_node_config out.api json parse_ip;
    ip = ip;
  }

  open_tsnet : TsnetConfig → Bool → Option Transport
  unfolding tsnet_identity tsnet_nodes tsnet_node_config
  open_tsnet server need_ip =
      if not (out.up server)
      then none
      else (out.client server >>= λ client. some (record {
        is_tsnet = true;
        identity = tsnet_identity client to_text;
        nodes = tsnet_nodes client to_text sort;
        node_config = tsnet_node_config client json parse_ip;
        ip = if need_ip then out.own_ip server else invalid;
      }))

  -- openTailnetTransport
  unfoldable pub open_transport : Config → Bytes → Bool → Option Transport
  unfolding local_transport local_ip open_tsnet new_tsnet
  open_transport c mode need_ip =
      if mode == codes "tailscaled"
      then (if need_ip
          then (local_ip out.api >>= λ ip. some (local_transport ip))
          else some (local_transport invalid))
      else (new_tsnet out.env_key c.tsnet >>= λ server. open_tsnet server need_ip)
