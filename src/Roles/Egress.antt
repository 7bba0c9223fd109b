-- ===== src/Roles/Egress.antt =====
-- runEgress of cmd/domain-gateway/main.go, up to where it serves: what it serves with, or `none` where
-- it ends with a fatal error.
pub mod Starts
pub mod Names
pub mod Connects
mod Examples
use ts_domain_gateway.Common.{
  Bool, true, false, not, List, [], ◌∷◌, Option, none, some, ◌==◌, list_eq, nat_eq, if◌then◌else◌,
  ◌>>=◌,
}
use ts_domain_gateway.GoText.{Bytes, codes}
use ts_domain_gateway.Net.{Addr, Prefix}
use ts_domain_gateway.Policy.{Gateway}
use ts_domain_gateway.Service.{Identity}
use ts_domain_gateway.Tags.{TaggedNode}
use ts_domain_gateway.Upstream.{NodeConfig, NodeDecoder}
use ts_domain_gateway.Command.{
  Config, egress_backend_resolver, egress_gateway, egress_ptr_resolver,
  egress_upstream_resolver_interface, egress_ptr_resolver_interface, dns_resolvers,
}
use ts_domain_gateway.Roles.{Readers}
use ts_domain_gateway.Transport.{Adapters, Transport, open_transport}

-- What the process runs in: the readers, the tailnet, what systemUpstream returns, whether the client of a tsnet
-- server accepts the tailnet's routes, and the DNS resolvers that it knows.
pub record Host : Type 0 where
  pub readers : Readers
  pub adapters : Adapters
  pub to_text : Addr → Bytes
  pub sort : List TaggedNode → List TaggedNode
  pub json : NodeDecoder
  pub system : Option Bytes
  pub accepts_routes : Bool
  pub advertised : Option (List Bytes)

-- `kernel`: the PTR resolver, where one is configured, and the address to listen at. `userspace`: the
-- paths to the upstream resolver and to the PTR resolvers, and the latter.
pub data Dataplane : Type 0 where
  kernel : Option Bytes → Bytes → Dataplane
  userspace : Bytes → Bytes → List Bytes → Dataplane

pub record Egress : Type 0 where
  pub identity : Identity
  pub gateway : Gateway
  pub plane : Dataplane

-- localEgressGatewayKey
abbrev pub local_egress_key : Bytes
local_egress_key = codes "local-egress"

-- The node configuration; in place of one that cannot be had, Go's zero value.
abbrev pub config_or_zero : Option NodeConfig → NodeConfig
config_or_zero none = record { upstream_dns = []; has_upstream_dns = false }
config_or_zero (some node) = node

module _ (out : Host) where
  unfoldable pub open_tailnet : Config → Bytes → Option Transport
  unfolding open_transport
  open_tailnet c mode =
      open_transport out.adapters out.to_text out.sort out.json out.readers.parse_ip c mode false

  unfoldable pub run_kernel : Config → Transport → Option Egress
  unfolding egress_backend_resolver egress_gateway egress_ptr_resolver
  run_kernel c tailnet =
      egress_backend_resolver out.readers.parse_ip out.system c (config_or_zero tailnet.node_config)
      >>= λ (resolver, system_resolver).
          egress_gateway out.readers.parse_prefix c resolver system_resolver >>= λ gateway.
          egress_ptr_resolver out.readers.parse_ip c >>= λ ptr_resolver. some (record {
            identity = tailnet.identity (local_egress_key ∷ []);
            gateway = gateway;
            plane = kernel ptr_resolver c.gateway_listen;
          })

  unfoldable pub run_userspace : Config → Transport → Option Egress
  unfolding egress_upstream_resolver_interface egress_ptr_resolver_interface egress_backend_resolver
      egress_ptr_resolver dns_resolvers egress_gateway
  run_userspace c tailnet =
      if not out.accepts_routes
      then none
      else (egress_upstream_resolver_interface c >>= λ upstream_interface.
          egress_ptr_resolver_interface c >>= λ ptr_interface.
          egress_backend_resolver out.readers.parse_ip out.system c
            (config_or_zero tailnet.node_config)
          >>= λ (resolver, system_resolver).
              egress_ptr_resolver out.readers.parse_ip c >>= λ ptr_resolver.
              dns_resolvers ptr_resolver out.advertised >>= λ resolvers.
              egress_gateway out.readers.parse_prefix c resolver system_resolver >>= λ gateway.
              some (record {
                identity = tailnet.identity (local_egress_key ∷ []);
                gateway = gateway;
                plane = userspace upstream_interface ptr_interface resolvers;
              }))

  -- runEgress
  unfoldable pub run_egress : Config → Bytes → Option Egress
  unfolding open_tailnet run_kernel run_userspace
  run_egress c mode =
      if mode == codes "tailscaled"
      then (open_tailnet c mode >>= λ tailnet. run_kernel c tailnet)
      else (open_tailnet c mode >>= λ tailnet. run_userspace c tailnet)
