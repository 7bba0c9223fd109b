-- ===== src/Command/Examples.antt =====
-- An egress configuration with one network.
use ts_domain_gateway.Common.{
  ℕ, ◌*◌, ◌^◌, ◌≡◌, refl, Bool, false, [], ◌∷◌, Option, none, some, ◌==◌, list_eq, nat_eq,
  if◌then◌else◌,
}
use ts_domain_gateway.GoText.{Bytes, codes}
use ts_domain_gateway.Net.{Prefix, v4, is_masked, masked_addr, overlaps}
use ts_domain_gateway.Policy.Decode.{parse_ranges}
use ts_domain_gateway.Command.{
  Config, Command, configured_resolver, check_command, check_egress, command_of, egress_gateway,
  egress_upstream_resolver_interface, egress_ptr_resolver_interface, egress_resolver_interface,
  egress_ptr_resolver,
}

abbrev no_ip : Bytes → Bool
no_ip s = false

abbrev network : Prefix
network = record { addr = v4 (10 * 2 ^ 24); bits = 24 }

abbrev parse_network : Bytes → Option Prefix
parse_network s = if s == codes "10.0.0.0/24" then some network else none

abbrev no_duration : Bytes → Option ℕ
no_duration s = none

abbrev config : Config
config = record {
  listen = [];
  gateway_listen = [];
  tailscaled_socket = [];
  database = [];
  allocation_lease = [];
  upstream_resolver = [];
  upstream_resolver_interface = codes "tailnet";
  egress = some (record {
    ranges = codes "10.0.0.0/24" ∷ [];
    ptr_resolver = [];
    ptr_resolver_interface = [];
  });
  tsnet = record { dir = []; hostname = []; auth_key = []; control_url = []; tags = [] };
}

abbrev accepted : Command
accepted = command_of (codes "egress") (codes "tsnet") config (codes "tag:a,tag:b")

check_command_run :
    check_command no_ip parse_network no_duration
      (codes "egress")
      (codes "tsnet")
      config
      (codes "tag:a,tag:b")
    ≡ some accepted
unfolding check_command check_egress egress_gateway parse_ranges egress_upstream_resolver_interface
    egress_ptr_resolver_interface egress_resolver_interface egress_ptr_resolver configured_resolver
    is_masked masked_addr overlaps
check_command_run = refl
