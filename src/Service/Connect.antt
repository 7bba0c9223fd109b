-- ===== src/Service/Connect.antt =====
-- The dataplane of internal/domain/gateway.go: the original destination of a redirected connection, and
-- ProxyTCP from the choice of its resolver to the address that it connects to. Parameters are what a
-- resolver answers, over the dialer that is chosen, and fmt.Sprint of a port.
use ts_domain_gateway.Common.{
  ℕ, ◌+◌, ◌*◌, ◌/◌, ◌%◌, ◌^◌, ◌<◌, ◌≡◌, ap, refl, Bool, List, [], ◌∷◌, Option, none, some, nat_eq,
  list_eq, arith, Option-cases, inl, inr,
}
use ts_domain_gateway.GoText.{Bytes, codes, dot, trim_suffix}
use ts_domain_gateway.Name.{normal_name}
use ts_domain_gateway.Net.{Addr, v4}
use ts_domain_gateway.Resolver.{join_host_port}
use ts_domain_gateway.Policy.{Gateway}
use ts_domain_gateway.Service.{Library, Identity, Counters, proxy_resolver, proxy_tcp}
use ts_domain_gateway.Service.Flows.{IsAuthorized, IsRouted, proxy_tcp-IsAuthorized}

-- originalDestination, of the buffer that getsockopt fills; `none` is an error of the call.
unfoldable pub original_destination : Option Bytes → Option (Addr × ℕ)
original_destination (some (f ∷ g ∷ p ∷ q ∷ a ∷ b ∷ c ∷ d ∷ rest)) =
    some (v4 (a * 2 ^ 24 + b * 2 ^ 16 + c * 2 ^ 8 + d), p * 256 + q)
original_destination _ = none

-- What ProxyTCP asks: the answer of a resolver for a name, where the last argument says whether it is
-- dialled from the host's network.
pub record Network : Type 0 where
  pub lookup_ip : Bytes → Bool → Bytes → Option (List Addr)
  pub addr_text : Addr → Bytes
  pub port_text : ℕ → Bytes

-- ProxyTCP behind the choice of the resolver, to the address of its connection.
unfoldable pub backend_address : Network → ℕ → Option (Bytes × Bytes × Bool) → Option Bytes
unfolding trim_suffix
backend_address net port none = none
backend_address net port (some (name, resolver, host)) =
    elim (net.lookup_ip resolver host (trim_suffix name (dot ∷ []))) [
      | none ↦ none
      | some [] ↦ none
      | some (ip ∷ _) ↦ some (join_host_port (net.addr_text ip) (net.port_text port))
    ]

-- ProxyTCP: the address of the connection that it makes.
unfoldable pub connect :
    Library
    → Identity
    → List Gateway
    → Option Bytes
    → Bool
    → (Addr → Option (List Bytes))
    → Network
    → Addr
    → Addr
    → ℕ
    → Counters
    → Option Bytes × Counters
unfolding proxy_tcp backend_address
connect lib identity gateways system has_dial lookup_ptr net source destination port c =
    let (chosen, c') =
      proxy_tcp lib identity gateways system has_dial (lookup_ptr destination) source destination
        port c in
    (backend_address net port chosen, c')

-- proxy, for a connection whose remote address has the text `remote`.
unfoldable pub proxy :
    Library
    → Identity
    → List Gateway
    → Option Bytes
    → Bool
    → (Addr → Option (List Bytes))
    → Network
    → (Bytes → Addr)
    → Bytes
    → Option Bytes
    → Counters
    → Option Bytes × Counters
unfolding connect original_destination
proxy lib identity gateways system has_dial lookup_ptr net parse_addr_port remote socket c =
    elim (original_destination socket) [
      | none ↦ (none, c)
      | some (destination, port) ↦
          connect lib identity gateways system has_dial lookup_ptr net (parse_addr_port remote)
            destination port c
    ]

backend_address-reached :
    (net : Network) (port : ℕ) (name resolver : Bytes) (host : Bool) {address : Bytes}
    → backend_address net port (some (name, resolver, host)) ≡ some address
    → (ip : Addr) × (others : List Addr) × (net.lookup_ip resolver host
          (trim_suffix name (dot ∷ []))
        ≡ some (ip ∷ others))
      × (address ≡ join_host_port (net.addr_text ip) (net.port_text port))
unfolding backend_address
backend_address-reached net port name resolver host {address} h =
    elim (Option-cases (net.lookup_ip resolver host (trim_suffix name (dot ∷ [])))) [
      | inl e ↦ absurd (ground (arith, e, h))
      | inr ([], e) ↦ absurd (ground (arith, e, h))
      | inr (ip ∷ others, e) ↦ (ip, others, e, ground (arith, e, h))
    ]

-- A connection is to the first address that a resolver gives for the only name of the destination, on
-- the port that the client asked for; and the policy authorizes that name, on that port, on the
-- prefixes of the gateway that GatewayFor finds for the flow, whose resolver this is.
pub record IsBackend (lib : Library) (identity : Identity) (gateways : List Gateway)
    (system : Option Bytes) (has_dial : Bool) (lookup_ptr : Addr → Option (List Bytes))
    (net : Network) (source destination : Addr) (port : ℕ) (address : Bytes) : Type 0 where
  pub name : Bytes
  pub named : lookup_ptr destination ≡ some (name ∷ [])
  pub gateway : Gateway
  pub authorized :
      IsAuthorized lib identity source destination
        (normal_name lib.wide name).0
        (codes "tcp")
        port
        gateway.prefixes
  pub routed :
      IsRouted lib identity gateways source destination
        (normal_name lib.wide name).0
        (codes "tcp")
        port
        gateway
  pub resolver : Bytes
  pub host : Bool
  pub chosen : proxy_resolver system has_dial gateway ≡ some (resolver, host)
  pub ip : Addr
  pub others : List Addr
  pub answered : net.lookup_ip resolver host (trim_suffix name (dot ∷ [])) ≡ some (ip ∷ others)
  pub reached : address ≡ join_host_port (net.addr_text ip) (net.port_text port)

module _ (lib : Library) (identity : Identity) (gateways : List Gateway) (system : Option Bytes)
    (has_dial : Bool) (lookup_ptr : Addr → Option (List Bytes)) (net : Network) where
  -- If ProxyTCP connects to an address, then the policy authorizes the flow on the prefixes of the
  -- gateway that GatewayFor finds for it, and the address is the first that the resolver of this
  -- gateway gives for the only name of the destination, with the port that the client asked for.
  pub connect-IsBackend :
      (source destination : Addr) (port : ℕ) (c : Counters) {address : Bytes} {c' : Counters}
      → connect lib identity gateways system has_dial lookup_ptr net source destination port c
        ≡ (some address, c')
      → IsBackend lib identity gateways system has_dial lookup_ptr net source destination port
          address
  unfolding connect
  connect-IsBackend source destination port c {address} h =
      let result =
        proxy_tcp lib identity gateways system has_dial (lookup_ptr destination) source destination
          port c in
      elim (Option-cases result.0) [
        | inl e ↦ absurd (ground (arith, e, h))
        | inr ((name, resolver, host), e) ↦
            let (named, (g, authorized, routed, chosen)) =
              proxy_tcp-IsAuthorized lib identity gateways source destination system has_dial
                (lookup_ptr destination) port c {name = name} {resolver = resolver} {host = host}
                {c' = result.1} (ap (λ chosen. (chosen, result.1)) e) in
            let reached : backend_address net port (some (name, resolver, host)) ≡ some address =
              ground (arith, e, h) in
            let (ip, others, answered, same) =
              backend_address-reached net port name resolver host reached in
            record {
              name = name;
              named = named;
              gateway = g;
              authorized = authorized;
              routed = routed;
              resolver = resolver;
              host = host;
              chosen = chosen;
              ip = ip;
              others = others;
              answered = answered;
              reached = same;
            }
      ]

-- The buffer of a redirected connection holds its destination: an address and a port that are written to
-- it in network order are read back, whatever stands before and behind them.
pub original_destination_roundtrip :
    (n port f g : ℕ) (rest : Bytes)
    → n < 2 ^ 32
    → port < 2 ^ 16
    → original_destination (
        some (
          f
          ∷ g
          ∷ port / 2 ^ 8
          ∷ port % 2 ^ 8
          ∷ n / 2 ^ 24
          ∷ n / 2 ^ 16 % 2 ^ 8
          ∷ n / 2 ^ 8 % 2 ^ 8
          ∷ n % 2 ^ 8
          ∷ rest))
      ≡ some (v4 n, port)
unfolding original_destination
original_destination_roundtrip n port f g rest small narrow =
    let address : n / 2 ^ 24 * 2 ^ 24
          + n / 2 ^ 16 % 2 ^ 8 * 2 ^ 16
          + n / 2 ^ 8 % 2 ^ 8 * 2 ^ 8
          + n % 2 ^ 8
        ≡ n =
      omega arith in
    let number : port / 2 ^ 8 * 256 + port % 2 ^ 8 ≡ port = omega arith in
    rw address (rw number refl)
