-- ===== src/Command.antt =====
-- The set-up decisions of cmd/domain-gateway/main.go: what parseCommand accepts behind its flags,
-- the egress configuration, the resolvers and the paths by which they are reached.
-- An error is `none`. Parameters: net.ParseIP (as its success), netip.ParsePrefix, netip.ParseAddr,
-- time.ParseDuration, filepath.Clean and strings.Fields.
pub mod Status
pub mod Accepted
mod Examples
use ts_domain_gateway.Common.{
  ℕ, Bool, true, false, not, ◌&&◌, ◌||◌, List, [], ◌∷◌, ◌++◌, Option, none, some, length, drop, any,
  ◌==◌, nat_eq, list_eq, ltb, if◌then◌else◌, ◌>>=◌,
}
use ts_domain_gateway.GoText.{Bytes, codes, colon, contains, has_prefix, split}
use ts_domain_gateway.Net.{Prefix}
use ts_domain_gateway.Resolver.{is_system_resolver, split_host_port, join_host_port, parse_u16}
use ts_domain_gateway.Policy.{Gateway}
use ts_domain_gateway.Policy.Decode.{parse_ranges, comma}
use ts_domain_gateway.Upstream.{NodeConfig}

pub record EgressConfig : Type 0 where
  pub ranges : List Bytes
  pub ptr_resolver : Bytes
  pub ptr_resolver_interface : Bytes

pub record TsnetConfig : Type 0 where
  pub dir : Bytes
  pub hostname : Bytes
  pub auth_key : Bytes
  pub control_url : Bytes
  pub tags : List Bytes

pub record Config : Type 0 where
  pub listen : Bytes
  pub gateway_listen : Bytes
  pub tailscaled_socket : Bytes
  pub database : Bytes
  pub allocation_lease : Bytes
  pub upstream_resolver : Bytes
  pub upstream_resolver_interface : Bytes
  pub egress : Option EgressConfig
  pub tsnet : TsnetConfig

pub record Command : Type 0 where
  pub role : Bytes
  pub transport : Bytes
  pub config : Config

-- configuredResolver
unfoldable pub configured_resolver : (Bytes → Bool) → Bytes → Option Bytes
configured_resolver parse_ip resolver =
    if length resolver == 0 || is_system_resolver resolver
    then some resolver
    else elim (split_host_port resolver) [
      | none ↦
          if not (contains resolver colon) || parse_ip resolver
          then some (join_host_port resolver (codes "53"))
          else none
      | some (host, port) ↦
          if length host == 0 || length port == 0 then none else elim (parse_u16 port) [
            | none ↦ none
            | some n ↦ if n == 0 then none else some (join_host_port host port)
          ]
    ]

-- egressBackendResolver, with what systemUpstream returns.
unfoldable pub egress_backend_resolver :
    (Bytes → Bool) → Option Bytes → Config → NodeConfig → Option (Bytes × Bool)
egress_backend_resolver parse_ip system_upstream c node =
    let visible = if node.has_upstream_dns then node.upstream_dns else c.upstream_resolver in
    let asked = if length visible == 0 then codes "system" else visible in
    configured_resolver parse_ip asked >>= λ resolver.
    if is_system_resolver resolver
    then (system_upstream >>= λ upstream. some (upstream, true))
    else some (resolver, false)

-- The gateway that egressGateways returns under its only key.
unfoldable pub egress_gateway : (Bytes → Option Prefix) → Config → Bytes → Bool → Option Gateway
egress_gateway parse_prefix c resolver system_resolver = c.egress >>= λ egress.
    if length egress.ranges == 0
    then none
    else (parse_ranges parse_prefix egress.ranges [] >>= λ prefixes.
        some
          (record { prefixes = prefixes; resolver = resolver; system_resolver = system_resolver }))

unfoldable pub egress_resolver_interface : Bytes → Option Bytes
egress_resolver_interface value =
    let chosen = if length value == 0 then codes "auto" else value in
    if chosen == codes "auto" || chosen == codes "tailnet" || chosen == codes "host"
    then some chosen
    else none

unfoldable pub egress_upstream_resolver_interface : Config → Option Bytes
unfolding egress_resolver_interface
egress_upstream_resolver_interface c = egress_resolver_interface c.upstream_resolver_interface

unfoldable pub egress_ptr_resolver_interface : Config → Option Bytes
unfolding egress_resolver_interface
egress_ptr_resolver_interface c = elim c.egress [
  | none ↦ egress_resolver_interface []
  | some egress ↦ egress_resolver_interface egress.ptr_resolver_interface
]

-- `if _, _, err := net.SplitHostPort(addr); err != nil { addr = net.JoinHostPort(addr, "53") }`
unfoldable pub with_port : Bytes → Bytes
with_port addr = elim (split_host_port addr) [
  | none ↦ join_host_port addr (codes "53")
  | some _ ↦ addr
]

-- egressPTRResolver behind its first test.
unfoldable pub checked_ptr_resolver : (Bytes → Bool) → Bytes → Option Bytes
checked_ptr_resolver parse_ip resolver = elim (split_host_port resolver) [
  | none ↦ none
  | some (host, port) ↦
      if not (parse_ip host)
      then none
      else elim (parse_u16 port) [ none ↦ none | some n ↦ if n == 0 then none else some resolver ]
]

-- The inner `none` is a resolver that is not configured.
unfoldable pub egress_ptr_resolver : (Bytes → Bool) → Config → Option (Option Bytes)
unfolding with_port checked_ptr_resolver
egress_ptr_resolver parse_ip c = elim c.egress [
  | none ↦ some none
  | some egress ↦
      if length egress.ptr_resolver == 0
      then some none
      else (checked_ptr_resolver parse_ip (with_port egress.ptr_resolver) >>= λ r. some (some r))
]

-- The resolvers that a tsnet egress looks names up at, from those of the tailnet.
unfoldable pub keep_addresses : List Bytes → List Bytes
unfolding with_port
keep_addresses [] = []
keep_addresses (addr ∷ addrs) =
    if length addr == 0 then keep_addresses addrs else with_port addr ∷ keep_addresses addrs

unfoldable pub dns_resolvers : Option Bytes → Option (List Bytes) → Option (List Bytes)
unfolding keep_addresses
dns_resolvers (some ptr_resolver) advertised = some (ptr_resolver ∷ [])
dns_resolvers none none = none
dns_resolvers none (some addrs) =
    if length addrs == 0
    then none
    else if length (keep_addresses addrs) == 0
    then none
    else some (keep_addresses addrs)

-- configPath's loop.
unfoldable pub read_path : List Bytes → Bytes → Option Bytes
unfolding has_prefix
read_path [] path = some path
read_path (arg ∷ []) path =
    let once = if has_prefix arg (codes "-config=") then drop 8 arg else path in
    let twice = if has_prefix arg (codes "--config=") then drop 9 arg else once in
    if arg == codes "-config" || arg == codes "--config" then none else some twice
read_path (arg ∷ value ∷ args) path =
    let once = if has_prefix arg (codes "-config=") then drop 8 arg else path in
    let twice = if has_prefix arg (codes "--config=") then drop 9 arg else once in
    let taken = read_path args value in
    let passed = read_path (value ∷ args) twice in
    if arg == codes "-config" || arg == codes "--config" then taken else passed

unfoldable pub config_path : (Bytes → Bytes) → List Bytes → Option Bytes
unfolding read_path
config_path clean args = read_path args (codes "config.json") >>= λ path. some (clean path)

-- dnsGateways: its map of gateways is always empty.
unfoldable pub dns_gateways : Option Bytes → NodeConfig → Option Bytes
dns_gateways system_upstream node =
    if is_system_resolver node.upstream_dns then system_upstream else some node.upstream_dns

-- newTSNet, with the key of the environment.
unfoldable pub new_tsnet : Bytes → TsnetConfig → Option TsnetConfig
new_tsnet env_key t =
    let auth_key = if length t.auth_key == 0 then env_key else t.auth_key in
    if length t.dir == 0
    then none
    else some (record t { auth_key = auth_key; tags = if length auth_key == 0 then t.tags else [] })

-- dnsListenAddress, with the address as text.
unfoldable pub dns_listen_address : Bytes → Bytes → Bytes
dns_listen_address configured ip =
    if length configured == 0 then join_host_port ip (codes "53") else configured

-- systemUpstream on the fields of the lines of /etc/resolv.conf.
nameserver : (Bytes → Bool) → List (List Bytes) → Option Bytes
nameserver parse_ip [] = none
nameserver parse_ip ((key ∷ address ∷ []) ∷ lines) =
    let rest = nameserver parse_ip lines in
    if not (key == codes "nameserver") || address == codes "100.100.100.100"
    then rest
    else if parse_ip address
    then some (join_host_port address (codes "53"))
    else rest
nameserver parse_ip (_ ∷ lines) = nameserver parse_ip lines

map_fields : (Bytes → List Bytes) → List Bytes → List (List Bytes)
map_fields fields [] = []
map_fields fields (line ∷ lines) = fields line ∷ map_fields fields lines

unfoldable pub system_upstream : (Bytes → Bool) → (Bytes → List Bytes) → Option Bytes → Option Bytes
unfolding nameserver map_fields
system_upstream parse_ip fields file =
    file >>= λ text. nameserver parse_ip (map_fields fields (split text b'\n'))

-- The command that is returned: the tags of the flag replace those of the file.
abbrev pub command_of : Bytes → Bytes → Config → Bytes → Command
command_of role mode c tags = record {
  role = role;
  transport = mode;
  config = record c {
    tsnet = record c.tsnet { tags = if length tags == 0 then [] else split tags comma };
  };
}

module _ (parse_ip : Bytes → Bool) (parse_prefix : Bytes → Option Prefix)
    (parse_duration : Bytes → Option ℕ) where
  unfoldable pub valid_lease : Bytes → Bool
  valid_lease lease =
      length lease == 0 || elim (parse_duration lease) [ none ↦ false | some d ↦ ltb 0 d ]

  -- The checks of the egress role.
  unfoldable pub check_egress : Config → Option (Unit {0})
  check_egress c = do
    _ ← egress_gateway parse_prefix c [] false
    _ ← egress_upstream_resolver_interface c
    _ ← egress_ptr_resolver_interface c
    _ ← egress_ptr_resolver parse_ip c
    _ ← configured_resolver parse_ip c.upstream_resolver
    some tt

  -- parseCommand from where the flags are parsed: the role, the mode, the configuration with the
  -- flags applied and the text of -tsnet-tags. A negative duration is no `ℕ`: the parameter gives 0.
  unfoldable pub check_command : Bytes → Bytes → Config → Bytes → Option Command
  unfolding valid_lease check_egress
  check_command role mode c tags =
      if not (mode == codes "tsnet") && not (mode == codes "tailscaled")
      then none
      else if not (valid_lease c.allocation_lease)
      then none
      else if role == codes "dns" && elim c.egress [ none ↦ false | some _ ↦ true ]
      then none
      else if role == codes "egress"
      then (check_egress c >>= λ _. some (command_of role mode c tags))
      else some (command_of role mode c tags)
