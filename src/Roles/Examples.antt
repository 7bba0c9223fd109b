-- ===== src/Roles/Examples.antt =====
-- An egress instance with one network, and a DNS role with an old database, on a tsnet server.
use ts_domain_gateway.Common.{
  sym, ◌+◌, ◌*◌, ◌^◌, ◌≡◌, refl, true, false, List, [], ◌∷◌, Option, none, some, arith, ◌==◌,
  list_eq, nat_eq, if◌then◌else◌,
}
use ts_domain_gateway.GoText.{Bytes, codes, join, has_prefix}
use ts_domain_gateway.Net.{Prefix, v4, is_masked, masked_addr, overlaps}
use mathlib.Core.Path.{subst}
use ts_domain_gateway.Alloc.Assoc.{lookup}
use ts_domain_gateway.Resolver.{is_system_resolver}
use ts_domain_gateway.Policy.Decode.{parse_ranges}
use ts_domain_gateway.Store.{Row}
use ts_domain_gateway.Store.Open.{open_store, data_source, sqlite_path, migrate, fill_expiry}
use ts_domain_gateway.Upstream.{NodeConfig, config_from_node_attrs}
use ts_domain_gateway.Command.{
  Config, Command, command_of, check_command, check_egress, valid_lease, configured_resolver,
  egress_gateway, egress_resolver_interface, egress_upstream_resolver_interface,
  egress_ptr_resolver_interface, egress_ptr_resolver, config_path, read_path, new_tsnet,
  dns_gateways, dns_listen_address,
}
use ts_domain_gateway.Transport.Tsnet.{TsnetClient}
use ts_domain_gateway.Transport.{Transport, open_transport}
use ts_domain_gateway.Roles.{Readers, parse_command, parse_flagged, read_config, apply_flags}
use ts_domain_gateway.Roles.Accepted.{parse_command-run_egress}
use ts_domain_gateway.Roles.Egress.{Host, Egress, open_tailnet, run_egress}
use ts_domain_gateway.Roles.Egress.Starts.{IsUsable}
use ts_domain_gateway.Roles.Egress.Names.{lookup_ptr}
use ts_domain_gateway.Roles.Naming.{
  Databases, DnsRole, Sockets, lease_for, open_database, allocation_store, serve_names, run_dns,
}
use ts_domain_gateway.Roles.Naming.Leases.{HasLeases, run_dns-HasLeases}

abbrev network : Prefix
network = record { addr = v4 (10 * 2 ^ 24); bits = 24 }

abbrev parse_network : Bytes → Option Prefix
parse_network s = if s == codes "10.0.0.0/24" then some network else none

abbrev base_config : Config
base_config = record {
  listen = [];
  gateway_listen = [];
  tailscaled_socket = [];
  database = codes "sqlite:///a.db";
  allocation_lease = codes "2h";
  upstream_resolver = [];
  upstream_resolver_interface = [];
  egress = none;
  tsnet = record {
    dir = codes "/state";
    hostname = [];
    auth_key = [];
    control_url = [];
    tags = [];
  };
}

abbrev egress_config : Config
egress_config = record base_config {
  egress = some (record {
    ranges = codes "10.0.0.0/24" ∷ [];
    ptr_resolver = [];
    ptr_resolver_interface = [];
  });
}

abbrev readers : Readers
readers = record {
  clean = λ s. s;
  read_file = λ path. some path;
  standardize = λ text. some text;
  fields = λ text. some (codes "egress" ∷ []);
  egress_fields = λ text. some (codes "ranges" ∷ []);
  config = λ text. some (if text == codes "e.json" then egress_config else base_config);
  parse_flags = λ names args. some [];
  parse_ip = λ s. true;
  parse_prefix = parse_network;
  parse_duration = λ s. some 7200000000000;
}

abbrev client : TsnetClient
client = record {
  who_is = λ source. none;
  status = some (record { self = none; self_caps = []; peers = [] });
  marshal = λ values. none;
}

abbrev host : Host
host = record {
  readers = readers;
  adapters = record {
    api = record { get = λ path query. none; whois_body = λ b. none; status_body = λ b. none };
    env_key = [];
    up = λ server. true;
    client = λ server. some client;
    own_ip = λ server. v4 (100 * 2 ^ 24 + 1);
  };
  to_text = λ ip. codes "100.0.0.1";
  sort = λ nodes. nodes;
  json = record { entries = λ raw. none; node_fields = λ raw. none };
  system = some (codes "192.0.2.1:53");
  accepts_routes = true;
  advertised = some (codes "192.0.2.2" ∷ []);
}

abbrev egress_args : List Bytes
egress_args = codes "egress" ∷ codes "-config" ∷ codes "e.json" ∷ []

abbrev egress_command : Command
egress_command = command_of (codes "egress") (codes "tsnet") egress_config []

egress_run : parse_command readers egress_args ≡ some egress_command
unfolding parse_command parse_flagged read_config apply_flags config_path read_path has_prefix join
    check_command check_egress valid_lease configured_resolver egress_gateway
    egress_resolver_interface egress_upstream_resolver_interface egress_ptr_resolver_interface
    egress_ptr_resolver parse_ranges is_masked masked_addr overlaps lookup
egress_run = refl

abbrev system_node : NodeConfig
system_node = record { upstream_dns = codes "system"; has_upstream_dns = false }

egress_tailnet :
    (t : Transport) × (open_tailnet host egress_config (codes "tsnet") ≡ some t)
    × (t.node_config ≡ some system_node)
unfolding open_tailnet open_transport new_tsnet config_from_node_attrs lookup
egress_tailnet = (_, refl, refl)

egress-IsUsable : IsUsable readers.parse_ip egress_tailnet.0.node_config
egress-IsUsable =
    let known : IsUsable readers.parse_ip (some system_node) = λ h. absurd (ground (arith, h)) in
    subst (IsUsable readers.parse_ip) (sym egress_tailnet.2) known

parse_command-run_egress_example :
    (running : Egress) × (run_egress host egress_config (codes "tsnet") ≡ some running)
parse_command-run_egress_example =
    parse_command-run_egress host egress_args egress_tailnet.0 (codes "192.0.2.1:53")
      (codes "192.0.2.2") [] egress_run refl egress_tailnet.1 egress-IsUsable refl refl refl
      (omega arith)

abbrev dns_args : List Bytes
dns_args = codes "dns" ∷ []

abbrev dns_command : Command
dns_command = command_of (codes "dns") (codes "tsnet") base_config []

dns_run : parse_command readers dns_args ≡ some dns_command
unfolding parse_command parse_flagged read_config apply_flags config_path read_path has_prefix join
    check_command valid_lease lookup
dns_run = refl

abbrev old_row : Row
old_row = record {
  gateway = codes "10.0.0.0/24";
  domain = codes "a.corp";
  ip = codes "10.0.0.1";
  expires = none;
}

abbrev databases : Databases
databases = record {
  parse_url = λ url. some (record {
    scheme = codes "sqlite";
    has_user = false;
    host = [];
    path = codes "/a.db";
    raw_query = [];
    fragment = [];
  });
  now = 5;
  faults = [];
  later_faults = [];
  database = λ url. record { rows = some (old_row ∷ []); has_expiry = false };
}

abbrev sockets : Sockets
sockets = record {
  resolve_udp = λ address. some address;
  listens = λ address. true;
  tsnet_listens = λ address. true;
}

started :
    (role : DnsRole) × (run_dns host databases sockets base_config (codes "tsnet") ≡ some role)
unfolding run_dns open_transport new_tsnet config_from_node_attrs lookup serve_names dns_gateways
    is_system_resolver dns_listen_address allocation_store open_database open_store data_source
    sqlite_path migrate fill_expiry lease_for
started = (_, refl)

run_dns-HasLeases_example : HasLeases started.0.held
run_dns-HasLeases_example = run_dns-HasLeases host databases sockets dns_args dns_run started.1

abbrev answers : Bytes → Option (List Bytes)
answers resolver = if resolver == codes "b" then some (codes "git.corp." ∷ []) else none

lookup_run :
    lookup_ptr answers (codes "a" ∷ codes "b" ∷ []) (some []) ≡ some (codes "git.corp." ∷ [])
unfolding lookup_ptr
lookup_run = refl
