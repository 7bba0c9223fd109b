-- ===== src/Roles/Naming.antt =====
-- runDNS of cmd/domain-gateway/main.go, up to where it serves, with allocationStore and mustAddr, and
-- main. An error is `none`, and so is a fatal error.
pub mod Leases
use ts_domain_gateway.Common.{
  ℕ, Bool, true, false, not, List, [], ◌∷◌, Option, none, some, length, ◌==◌, list_eq, nat_eq,
  if◌then◌else◌, ◌>>=◌,
}
use ts_domain_gateway.GoText.{Bytes, codes}
use ts_domain_gateway.Net.{Addr}
use ts_domain_gateway.Alloc.{new_allocator}
use ts_domain_gateway.Store.{Row}
use ts_domain_gateway.Store.Open.{Url, Database, open_store}
use ts_domain_gateway.Lifecycle.{Lifecycle, hour}
use ts_domain_gateway.Service.{Identity}
use ts_domain_gateway.Tags.{TaggedNode}
use ts_domain_gateway.Command.{Config, dns_gateways, dns_listen_address}
use ts_domain_gateway.Transport.{Transport, open_transport}
use ts_domain_gateway.Roles.{parse_command}
use ts_domain_gateway.Roles.Egress.{Host, Egress, run_egress}

-- The databases: url.Parse, the clock and the schedules of failures while one is opened and later, and
-- the database at a URL.
pub record Databases : Type 0 where
  pub parse_url : Bytes → Option Url
  pub now : ℕ
  pub faults : List Bool
  pub later_faults : List Bool
  pub database : Bytes → Database

-- OpenAllocationStore
unfoldable pub open_database : Databases → Bytes → Option (List Row)
unfolding open_store
open_database out url = out.parse_url url >>= λ u.
    let (opened, d) = open_store url u out.now out.faults (out.database url) in
    if opened then d.rows else none

-- allocationStore: the inner `none` is no store.
unfoldable pub allocation_store : Databases → Config → Option (Option (List Row))
unfolding open_database
allocation_store out c =
    if not (length c.database == 0)
    then (open_database out c.database >>= λ rows. some (some rows))
    else some none

-- The lifecycle over a fresh allocator. `faults` are those of the statements to come.
abbrev pub lifecycle_over : List Bool → Option (List Row) → ℕ → Lifecycle
lifecycle_over faults none lease = record {
  has_store = false;
  has_state_path = false;
  lease = lease;
  registry = record {
    table = [];
    faults = faults;
    others = [];
    last_renewed = [];
    cache = new_allocator;
  };
}
lifecycle_over faults (some rows) lease = record {
  has_store = true;
  has_state_path = false;
  lease = lease;
  registry = record {
    table = rows;
    faults = faults;
    others = [];
    last_renewed = [];
    cache = new_allocator;
  };
}

-- What the DNS role serves with.
pub record DnsRole : Type 0 where
  pub identity : Identity
  pub nodes : Option (List TaggedNode)
  pub held : Lifecycle
  pub address : Bytes
  pub upstream : Bytes

-- The lease: an error of the parser gives its zero.
unfoldable pub lease_for : (Bytes → Option ℕ) → Bytes → ℕ
lease_for parse_duration text =
    if length text == 0 then hour else elim (parse_duration text) [ none ↦ 0 | some lease ↦ lease ]

-- The network: net.ResolveUDPAddr, and whether an address can be listened at, on the host and on the
-- tsnet server.
pub record Sockets : Type 0 where
  pub resolve_udp : Bytes → Option Bytes
  pub listens : Bytes → Bool
  pub tsnet_listens : Bytes → Bool

-- listenUDP
unfoldable pub listen_udp : Sockets → Transport → Bytes → Bool
listen_udp sockets tailnet address =
    if tailnet.is_tsnet then sockets.tsnet_listens address else sockets.listens address

-- mustAddr
abbrev pub must_addr : Sockets → Bytes → Option Bytes
must_addr sockets text = sockets.resolve_udp text

pub data Started : Type 0 where
  naming : DnsRole → Started
  egress : Egress → Started

module _ (out : Host) (databases : Databases) (sockets : Sockets) where
  unfoldable pub serve_names : Config → Transport → Option DnsRole
  unfolding dns_gateways allocation_store lease_for dns_listen_address listen_udp
  serve_names c tailnet = tailnet.node_config >>= λ node.
      dns_gateways out.system node >>= λ upstream. allocation_store databases c >>= λ store.
      let listen = dns_listen_address c.listen (out.to_text tailnet.ip) in
      if not (listen_udp sockets tailnet listen)
      then none
      else (must_addr sockets upstream >>= λ resolved. some (record {
        identity = tailnet.identity [];
        nodes = tailnet.nodes;
        held =
            lifecycle_over databases.later_faults store
              (lease_for out.readers.parse_duration c.allocation_lease);
        address = listen;
        upstream = resolved;
      }))

  -- runDNS
  unfoldable pub run_dns : Config → Bytes → Option DnsRole
  unfolding open_transport serve_names
  run_dns c mode =
      open_transport out.adapters out.to_text out.sort out.json out.readers.parse_ip c mode true
      >>= λ tailnet. serve_names c tailnet

  -- main: the role that starts.
  unfoldable pub run_main : List Bytes → Option Started
  unfolding parse_command run_dns run_egress
  run_main args = parse_command out.readers args >>= λ m.
      if m.role == codes "dns"
      then (run_dns m.config m.transport >>= λ role. some (naming role))
      else (run_egress out m.config m.transport >>= λ running. some (egress running))
