-- ===== src/Roles/Egress/Examples.antt =====
-- A tsnet egress with one network, whose tailnet tells one grant of everyone, and a flow for a name of it.
use ts_domain_gateway.Common.{
  ◌+◌, ◌*◌, ◌^◌, ◌≡◌, refl, true, List, [], ◌∷◌, Option, none, some, ◌==◌, list_eq, nat_eq,
  if◌then◌else◌,
}
use ts_domain_gateway.GoText.{
  Bytes, codes, cut, contains, split, to_lower, trim_suffix, has_suffix, has_prefix, is_ascii,
  count,
}
use ts_domain_gateway.Name.{normal_name, valid_name, valid_label, valid_byte, match}
use ts_domain_gateway.Port.{valid_ports, valid_parts, valid_number, allowed_port}
use ts_domain_gateway.Net.{
  addr_eq, prefix_eq, Addr, v4, Prefix, is_masked, masked_addr, overlaps, contains_prefix,
  prefix_contains,
}
use ts_domain_gateway.Resolver.{is_system_resolver, join_host_port, split_host_port}
use ts_domain_gateway.Policy.{
  gateway_for, over_grants, over_resources, same_prefix_slice, reaches, candidate, consider,
  conclude,
}
use ts_domain_gateway.Policy.Decode.{
  Decoder, parse, parse_found, parse_entries, parse_entry, unmarshal_grant, unmarshal_resource,
  shorthand, checked_grant, checked_resources, checked_resource, checked_resolver, valid_pattern,
  parse_ranges,
}
use ts_domain_gateway.Alloc.Assoc.{lookup}
use ts_domain_gateway.Upstream.{config_from_node_attrs}
use ts_domain_gateway.Service.{
  Library, Counters, gateway_for_destination, select_gateway, flow_gateway, flow_domain,
  proxy_resolver, proxy_tcp, count_allowed,
}
use ts_domain_gateway.Service.Connect.{Network, IsBackend, backend_address, connect}
use ts_domain_gateway.Command.{
  Config, configured_resolver, egress_backend_resolver, egress_gateway, egress_resolver_interface,
  egress_upstream_resolver_interface, egress_ptr_resolver_interface, egress_ptr_resolver,
  dns_resolvers, keep_addresses, with_port, new_tsnet,
}
use ts_domain_gateway.Transport.{open_transport}
use ts_domain_gateway.Transport.Tsnet.{
  TsnetClient, encode_cap_map, tsnet_capabilities, tsnet_identity,
}
use ts_domain_gateway.Transport.Userspace.{is_known}
use ts_domain_gateway.Roles.Egress.{
  Host, userspace, Egress, local_egress_key, open_tailnet, run_userspace, run_egress,
}
use ts_domain_gateway.Roles.Egress.Names.{lookup_ptr}
use ts_domain_gateway.Roles.Egress.Connects.{
  IsConfigured, dials, names_of, admits, egress_connect, run_egress-IsBackend,
}

abbrev network : Prefix
network = record { addr = v4 (10 * 2 ^ 24); bits = 24 }

abbrev parse_network : Bytes → Option Prefix
parse_network s = if s == codes "10.0.0.0/24" then some network else none

abbrev json : Decoder
json = record {
  string = λ raw. if raw == codes "\"r\"" then some (codes "*.a.corp:443") else none;
  strings = λ raw. if raw == codes "ranges" then some (codes "10.0.0.0/24" ∷ []) else none;
  entries = λ raw. some (raw ∷ []);
  resource_fields = λ raw. none;
  grant_fields = λ raw.
      if raw == codes "grant"
      then some
          (record { upstream_dns = []; resources = codes "\"r\"" ∷ []; ranges = codes "ranges" })
      else none;
}

abbrev lib : Library
lib = record {
  json = json;
  parse_prefix = parse_network;
  parse_ip = λ s. true;
  parse_addr = λ s. none;
  prefix_text = λ p. codes "10.0.0.0/24";
  wide = λ s. s;
}

abbrev config : Config
config = record {
  listen = [];
  gateway_listen = [];
  tailscaled_socket = [];
  database = [];
  allocation_lease = [];
  upstream_resolver = [];
  upstream_resolver_interface = [];
  egress = some (record {
    ranges = codes "10.0.0.0/24" ∷ [];
    ptr_resolver = [];
    ptr_resolver_interface = [];
  });
  tsnet = record {
    dir = codes "/state";
    hostname = [];
    auth_key = [];
    control_url = [];
    tags = [];
  };
}

abbrev client : TsnetClient
client = record {
  who_is = λ source. some (record {
    cap_map = (codes "matchlighter.net/domain-gateway", codes "grant" ∷ []) ∷ [];
    tags = [];
  });
  status = some (record { self = none; self_caps = []; peers = [] });
  marshal = λ values. some (codes "grant");
}

abbrev host : Host
host = record {
  readers = record {
    clean = λ s. s;
    read_file = λ path. none;
    standardize = λ text. none;
    fields = λ text. none;
    egress_fields = λ text. none;
    config = λ text. none;
    parse_flags = λ names args. none;
    parse_ip = λ s. true;
    parse_prefix = parse_network;
    parse_duration = λ s. none;
  };
  adapters = record {
    api = record { get = λ path query. none; whois_body = λ b. none; status_body = λ b. none };
    env_key = [];
    up = λ server. true;
    client = λ server. some client;
    own_ip = λ server. v4 1;
  };
  to_text = λ ip. codes "100.0.0.1";
  sort = λ nodes. nodes;
  json = record { entries = λ raw. none; node_fields = λ raw. none };
  system = some (codes "192.0.2.1:53");
  accepts_routes = true;
  advertised = some (codes "192.0.2.2" ∷ []);
}

abbrev running : Egress
running = record {
  identity = tsnet_identity client host.to_text (local_egress_key ∷ []);
  gateway = record {
    prefixes = network ∷ [];
    resolver = codes "192.0.2.1:53";
    system_resolver = true;
  };
  plane = userspace (codes "auto") (codes "auto") (codes "192.0.2.2:53" ∷ []);
}

started : run_egress host config (codes "tsnet") ≡ some running
unfolding run_egress open_tailnet open_transport new_tsnet config_from_node_attrs lookup
    run_userspace egress_upstream_resolver_interface egress_ptr_resolver_interface
    egress_resolver_interface egress_backend_resolver configured_resolver is_system_resolver
    egress_ptr_resolver dns_resolvers keep_addresses with_port join_host_port split_host_port
    egress_gateway parse_ranges is_masked masked_addr overlaps contains cut
started = refl

abbrev inside : Addr
inside = v4 (10 * 2 ^ 24 + 1)

abbrev ask : Bytes → Addr → Option (List Bytes)
ask resolver ip = some (codes "git.a.corp" ∷ [])

abbrev silent : Addr → Option (List Bytes)
silent ip = none

abbrev net : Network
net = record {
  lookup_ip = λ resolver on_host asked. some (v4 5 ∷ []);
  addr_text = λ ip. codes "0.0.0.5";
  port_text = λ port. codes "443";
}

abbrev zero_counters : Counters
zero_counters = record { synthesized = 0; passed = 0; allowed = 0; denied = 0 }

connect_run :
    egress_connect lib ask silent net host.system running (v4 7) inside 443 zero_counters
    ≡ (some (codes "0.0.0.5:443"), count_allowed zero_counters)
unfolding egress_connect valid_name contains split tsnet_identity gateway_for conclude over_grants
    parse lookup valid_pattern valid_ports same_prefix_slice over_resources reaches match
    allowed_port consider count cut has_prefix has_suffix is_ascii to_lower trim_suffix normal_name
    valid_byte valid_label contains_prefix is_masked masked_addr overlaps prefix_contains
    checked_grant checked_resolver checked_resource checked_resources parse_entries parse_entry
    parse_found parse_ranges shorthand unmarshal_grant unmarshal_resource candidate valid_number
    valid_parts is_system_resolver join_host_port admits dials names_of lookup_ptr backend_address
    connect flow_domain flow_gateway gateway_for_destination proxy_resolver proxy_tcp select_gateway
    encode_cap_map tsnet_capabilities is_known
connect_run = refl

run_egress-IsBackend_example :
    IsConfigured parse_network config (network ∷ [])
    × (contains_prefix (network ∷ []) inside ≡ true)
    × IsBackend lib running.identity
        (running.gateway ∷ [])
        host.system
        true
        (names_of ask silent running.plane)
        net
        (v4 7)
        inside
        443
        (codes "0.0.0.5:443")
unfolding dials
run_egress-IsBackend_example =
    run_egress-IsBackend host config (codes "tsnet") lib ask silent net (v4 7) inside 443
      zero_counters started connect_run
