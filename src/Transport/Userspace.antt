-- ===== src/Transport/Userspace.antt =====
-- ServeTSNetGateway of internal/domain/tsnet_gateway.go: what it advertises, the handler that it
-- registers for flows, and the order of both. A tsnet server is a parameter: whether each request
-- to it succeeds.
use ts_domain_gateway.Common.{
  ℕ, ◌≡◌, ◌∙◌, ◌⊎◌, inl, inr, refl, Bool, true, false, not, ◌||◌, List, [], ◌∷◌, ◌++◌, Option, none,
  some, All, if◌then◌else◌, arith, Bool-cases,
}
use ts_domain_gateway.GoText.{Bytes}
use ts_domain_gateway.Net.{Addr, Prefix, contains_prefix}
use ts_domain_gateway.Policy.{Gateway}
use ts_domain_gateway.Service.{
  Library, Identity, Counters, gateway_for_destination, select_gateway, flow_gateway, flow_domain,
  proxy_tcp, count_denied,
}

-- The routes that are advertised: the prefixes of all gateways, in some order.
unfoldable pub gateway_routes : List Gateway → List Prefix
gateway_routes [] = []
gateway_routes (gateway ∷ gateways) = gateway.prefixes ++ gateway_routes gateways

-- The loop for `known`.
unfoldable pub is_known : List Gateway → Addr → Bool
is_known [] destination = false
is_known (gateway ∷ gateways) destination =
    if contains_prefix gateway.prefixes destination then true else is_known gateways destination

-- The registered handler, up to the first connection of ProxyTCP: `none` is a flow that it leaves
-- to others.
unfoldable pub fallback_handler :
    Library
    → Identity
    → List Gateway
    → Option Bytes
    → Bool
    → Option (List Bytes)
    → Addr
    → Addr
    → ℕ
    → Counters
    → Option (Option (Bytes × Bytes × Bool) × Counters)
unfolding is_known
fallback_handler lib identity gateways system has_dial names source destination port c =
    if not (is_known gateways destination)
    then none
    else some (proxy_tcp lib identity gateways system has_dial names source destination port c)

-- A tsnet server: whether it starts, has a client, and takes the routes.
pub record Server : Type 0 where
  pub starts : Bool
  pub has_client : Bool
  pub takes_routes : List Prefix → Bool

-- What the tailnet sees of the node: the gateways of its handler, and its routes.
pub record Published : Type 0 where
  pub handler : Option (List Gateway)
  pub routes : List Prefix

-- ServeTSNetGateway, as the states that the node goes through.
unfoldable pub serve_tsnet_gateway : Server → List Gateway → Published → List Published
unfolding gateway_routes
serve_tsnet_gateway server gateways before =
    let routes = gateway_routes gateways in
    let ready = record before { handler = some gateways } in
    if not server.starts
    then before ∷ []
    else if not server.has_client
    then before ∷ []
    else if not (server.takes_routes routes)
    then before ∷ ready ∷ []
    else before ∷ ready ∷ record ready { routes = routes } ∷ []

contains_prefix-++ :
    (left right : List Prefix) (d : Addr)
    → contains_prefix (left ++ right) d ≡ (contains_prefix left d || contains_prefix right d)
unfolding contains_prefix
contains_prefix-++ [] right d = refl
contains_prefix-++ (p ∷ left) right d = ground (arith, contains_prefix-++ left right d)

is_known-gateway_routes :
    (gateways : List Gateway) (d : Addr)
    → is_known gateways d ≡ contains_prefix (gateway_routes gateways) d
unfolding is_known gateway_routes contains_prefix
is_known-gateway_routes [] d = refl
is_known-gateway_routes (g ∷ gateways) d = ground (
  arith,
  is_known-gateway_routes gateways d,
  contains_prefix-++ g.prefixes (gateway_routes gateways) d,
)

if_both {ℓ ℓ'} :
    {A : Type ℓ} (P : A → Type ℓ') (b : Bool) {x y : A} → P x → P y → P (if b then x else y)
if_both P true px py = px
if_both P false px py = py

-- A flow to the address reaches the handler, which takes it.
abbrev pub takes : Published → Addr → Bool
takes p d = elim p.handler [ none ↦ false | some gateways ↦ is_known gateways d ]

-- An address that is routed to the node, but was not before, has a handler that takes its flows.
abbrev pub IsOwned : Published → Published → Type 0
IsOwned before p =
    (d : Addr)
    → contains_prefix p.routes d ≡ true
    → (contains_prefix before.routes d ≡ true) ⊎ (takes p d ≡ true)

-- At every moment of ServeTSNetGateway, whatever requests fail: a flow to an address that the node is
-- routed, and was not routed before, finds a handler that takes it.
pub serve_tsnet_gateway-IsOwned :
    (server : Server) (gateways : List Gateway) (before : Published)
    → All (IsOwned before) (serve_tsnet_gateway server gateways before)
unfolding serve_tsnet_gateway
serve_tsnet_gateway-IsOwned server gateways before =
    let routed : (d : Addr)
        → contains_prefix (gateway_routes gateways) d ≡ true
        → is_known gateways d ≡ true =
      λ d h. is_known-gateway_routes gateways d ∙ h in
    let kept : IsOwned before before = λ d h. inl h in
    if_both (All (IsOwned before)) (not server.starts) (kept, tt)
      (if_both (All (IsOwned before)) (not server.has_client) (kept, tt)
        (if_both (All (IsOwned before)) (not (server.takes_routes (gateway_routes gateways)))
          (kept, ((λ d h. inl h), tt)) (kept, ((λ d h. inl h), ((λ d h. inr (routed d h)), tt)))))

unserved :
    (gateways : List Gateway) (d : Addr)
    → is_known gateways d ≡ false
    → (selected : Gateway) → select_gateway gateways d selected ≡ select_gateway [] d selected
unfolding is_known select_gateway
unserved [] d h selected = refl
unserved (g ∷ gateways) d h selected = elim (Bool-cases (contains_prefix g.prefixes d)) [
  | inl hit ↦ absurd (ground (arith, hit, h))
  | inr miss ↦ ground (arith, miss, unserved gateways d (ground (arith, miss, h)) selected)
]

pub unknown-flow_domain :
    (lib : Library) (identity : Identity) (gateways : List Gateway) (source destination : Addr)
    → is_known gateways destination ≡ false
    → (name proto : Bytes) (port : ℕ) (c : Counters)
    → flow_domain lib identity gateways source destination name proto port c
      ≡ (none, count_denied c)
unfolding flow_domain flow_gateway gateway_for_destination
unknown-flow_domain lib identity gateways source destination unknown name proto port c =
    let e =
      unserved gateways destination unknown
        (record { prefixes = []; resolver = []; system_resolver = false }) in
    unfold select_gateway in ground (arith, e)

-- A flow that the handler leaves to others is one that FlowDomain denies: for every name the caller
-- might have found, every protocol and port, it finds no gateway and counts the flow as denied.
pub fallback_handler-flow_domain :
    (lib : Library) (identity : Identity) (gateways : List Gateway) (system : Option Bytes)
    (has_dial : Bool) (names : Option (List Bytes)) (source destination : Addr) (port : ℕ)
    (c : Counters)
    → fallback_handler lib identity gateways system has_dial names source destination port c ≡ none
    → (name proto : Bytes) (port' : ℕ) (c' : Counters)
    → flow_domain lib identity gateways source destination name proto port' c'
      ≡ (none, count_denied c')
unfolding fallback_handler
fallback_handler-flow_domain lib identity gateways system has_dial names source destination port c h
      name proto port' c' =
    unknown-flow_domain lib identity gateways source destination (ground (arith, h)) name proto
      port' c'
