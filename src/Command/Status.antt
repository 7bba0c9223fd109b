-- ===== src/Command/Status.antt =====
-- How a resolver is reached: prefixesContainResolver, peerRoutesContainResolver, tailnetResolver,
-- autoUsesTailnet and the dialers of runEgress in cmd/domain-gateway/main.go. The status of the
-- tailnet has the parts that they read; a nil pointer is `none`.
use ts_domain_gateway.Common.{
  Bool, false, ◌||◌, List, Option, none, some, any, ◌==◌, list_eq, nat_eq, if◌then◌else◌,
}
use ts_domain_gateway.GoText.{Bytes, codes}
use ts_domain_gateway.Net.{Addr, Prefix, addr_eq, prefix_contains}
use ts_domain_gateway.Resolver.{split_host_port}

pub record Peer : Type 0 where
  pub addresses : List Addr
  pub primary_routes : Option (List Prefix)

pub record Status : Type 0 where
  pub self : Option (List Addr)
  pub addresses : List Addr
  pub peers : List (Option Peer)

-- The address of a resolver's host.
abbrev host_address : (Bytes → Option Addr) → Bytes → Option Addr
host_address parse_addr resolver = elim (split_host_port resolver) [
  | none ↦ none
  | some (host, _) ↦ parse_addr host
]

unfoldable pub prefixes_contain_resolver : (Bytes → Option Addr) → List Prefix → Bytes → Bool
prefixes_contain_resolver parse_addr prefixes resolver = elim (host_address parse_addr resolver) [
  | none ↦ false
  | some address ↦ any (λ prefix. prefix_contains prefix address) prefixes
]

peer_routes : (Bytes → Option Addr) → Bytes → Option Peer → Bool
unfolding prefixes_contain_resolver
peer_routes parse_addr resolver none = false
peer_routes parse_addr resolver (some peer) = elim peer.primary_routes [
  | none ↦ false
  | some routes ↦ prefixes_contain_resolver parse_addr routes resolver
]

unfoldable pub peer_routes_contain_resolver : (Bytes → Option Addr) → Option Status → Bytes → Bool
unfolding peer_routes
peer_routes_contain_resolver parse_addr none resolver = false
peer_routes_contain_resolver parse_addr (some status) resolver =
    any (peer_routes parse_addr resolver) status.peers

abbrev pub holds_address : Addr → List Addr → Bool
holds_address address candidates = any (λ candidate. candidate == address) candidates

is_peer : Addr → Option Peer → Bool
is_peer address none = false
is_peer address (some peer) = holds_address address peer.addresses

unfoldable pub tailnet_resolver : (Bytes → Option Addr) → Option Status → Bytes → Bool
unfolding is_peer
tailnet_resolver parse_addr none resolver = false
tailnet_resolver parse_addr (some status) resolver = elim (host_address parse_addr resolver) [
  | none ↦ false
  | some address ↦
      elim status.self [ none ↦ false | some addresses ↦ holds_address address addresses ]
      || holds_address address status.addresses
      || any (is_peer address) status.peers
]

unfoldable pub auto_uses_tailnet : (Bytes → Option Addr) → Option Status → Bytes → Bool
unfolding tailnet_resolver peer_routes_contain_resolver
auto_uses_tailnet parse_addr status resolver =
    tailnet_resolver parse_addr status resolver
    || peer_routes_contain_resolver parse_addr status resolver

pub data Dialer : Type 0 where
  tailnet host : Dialer

-- resolverDialFor: which dialer it calls. A status that cannot be read is `none`.
unfoldable pub resolver_dial_for : (Bytes → Option Addr) → Bytes → Option Status → Bytes → Dialer
unfolding auto_uses_tailnet
resolver_dial_for parse_addr interface status address =
    if interface == codes "tailnet"
    then tailnet
    else if interface == codes "host"
    then host
    else if auto_uses_tailnet parse_addr status address
    then tailnet
    else host
