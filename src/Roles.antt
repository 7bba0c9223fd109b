-- ===== src/Roles.antt =====
-- The command line of cmd/domain-gateway/main.go: parseCommand, whose checks behind the flags are in
-- Command, and the roles that main starts, runEgress and runDNS. The readers of files and of JSON are
-- parameters, and so is the package flag: a set of flags gives the values that arguments set.
pub mod Accepted
pub mod Egress
pub mod Naming
mod Examples
use ts_domain_gateway.Common.{
  ℕ, Bool, true, false, not, ◌&&◌, ◌||◌, List, [], ◌∷◌, ◌++◌, Option, none, some, any, ◌==◌,
  list_eq, nat_eq, if◌then◌else◌, ◌>>=◌,
}
use ts_domain_gateway.GoText.{Bytes, codes, join}
use ts_domain_gateway.Net.{Prefix}
use ts_domain_gateway.Alloc.Assoc.{Dict, lookup}
use ts_domain_gateway.Policy.Decode.{comma}
use ts_domain_gateway.Command.{Config, Command, config_path, check_command}

-- `fields` and `egress_fields` are the names of the fields of an object, and of its field `egress`.
-- `parse_flags` parses arguments for flags of these names.
pub record Readers : Type 0 where
  pub clean : Bytes → Bytes
  pub read_file : Bytes → Option Bytes
  pub standardize : Bytes → Option Bytes
  pub fields : Bytes → Option (List Bytes)
  pub egress_fields : Bytes → Option (List Bytes)
  pub config : Bytes → Option Config
  pub parse_flags : List Bytes → List Bytes → Option (Dict Bytes Bytes)
  pub parse_ip : Bytes → Bool
  pub parse_prefix : Bytes → Option Prefix
  pub parse_duration : Bytes → Option ℕ

abbrev pub outdated_fields : List Bytes
outdated_fields =
    codes "tsnet_dir" ∷ codes "tsnet_hostname" ∷ codes "tsnet_auth_key" ∷ codes "tsnet_tags" ∷ []

abbrev pub outdated_egress_fields : List Bytes
outdated_egress_fields = codes "tag" ∷ codes "dns_resolver" ∷ codes "upstream_dns_interface" ∷ []

abbrev pub has_field : List Bytes → Bytes → Bool
has_field names name = any (λ key. key == name) names

abbrev pub flag_names : List Bytes
flag_names =
    codes "mode"
    ∷ codes "config"
    ∷ codes "dns-listen"
    ∷ codes "gateway-listen"
    ∷ codes "tailscaled-socket"
    ∷ codes "database"
    ∷ codes "allocation-lease"
    ∷ codes "upstream-resolver"
    ∷ codes "tsnet-dir"
    ∷ codes "tsnet-hostname"
    ∷ codes "tsnet-auth-key"
    ∷ codes "tsnet-control-url"
    ∷ codes "tsnet-tags"
    ∷ []

-- The value of a flag.
abbrev pub flag_value : Dict Bytes Bytes → Bytes → Bytes → Bytes
flag_value set name default = elim (lookup name set) [ none ↦ default | some value ↦ value ]

unfoldable pub apply_flags : Dict Bytes Bytes → Config → Config
apply_flags set c = record c {
  listen = flag_value set (codes "dns-listen") c.listen;
  gateway_listen = flag_value set (codes "gateway-listen") c.gateway_listen;
  tailscaled_socket = flag_value set (codes "tailscaled-socket") c.tailscaled_socket;
  database = flag_value set (codes "database") c.database;
  allocation_lease = flag_value set (codes "allocation-lease") c.allocation_lease;
  upstream_resolver = flag_value set (codes "upstream-resolver") c.upstream_resolver;
  tsnet = record c.tsnet {
    dir = flag_value set (codes "tsnet-dir") c.tsnet.dir;
    hostname = flag_value set (codes "tsnet-hostname") c.tsnet.hostname;
    auth_key = flag_value set (codes "tsnet-auth-key") c.tsnet.auth_key;
    control_url = flag_value set (codes "tsnet-control-url") c.tsnet.control_url;
  };
}

module _ (out : Readers) where
  -- parseCommand from the parsing of the flags on.
  unfoldable pub parse_flagged : Bytes → List Bytes → Config → Option Command
  unfolding apply_flags check_command join
  parse_flagged role args c = out.parse_flags flag_names args >>= λ set.
      check_command out.parse_ip out.parse_prefix out.parse_duration role
        (flag_value set (codes "mode") (codes "tsnet")) (apply_flags set c)
        (flag_value set (codes "tsnet-tags") (join c.tsnet.tags (comma ∷ [])))

  -- The tests for fields that are no longer supported, and the configuration.
  unfoldable pub read_config : Bytes → Option Config
  read_config contents = out.fields contents >>= λ names.
      if any (has_field names) outdated_fields
      then none
      else (out.egress_fields contents >>= λ egress.
          if any (has_field egress) outdated_egress_fields then none else out.config contents)

  unfoldable pub parse_command : List Bytes → Option Command
  unfolding parse_flagged read_config config_path
  parse_command [] = none
  parse_command (role ∷ args) =
      if not (role == codes "dns") && not (role == codes "egress")
      then none
      else (config_path out.clean args >>= λ path. out.read_file path >>= λ text.
          out.standardize text >>= λ contents.
          read_config contents >>= λ c. parse_flagged role args c)
