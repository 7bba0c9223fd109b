-- ===== src/Service.antt =====
-- The service of internal/domain/service.go: DNSAnswer, PTRMapping, Flow, FlowDomain and
-- gatewayForDestination, and the part of ProxyTCP in internal/domain/gateway.go that chooses a
-- resolver. The mappings are behind an interface, which the lifecycle fills.
pub mod Outcomes
pub mod Served
pub mod Callback
pub mod Connect
mod Accept
pub mod Flows
pub mod Only
mod Examples
use ts_domain_gateway.Common.{
  ℕ, ◌+◌, ◌%◌, ◌^◌, Bool, true, false, not, ◌&&◌, ◌||◌, List, [], ◌∷◌, Option, none, some, length,
  ltb, map, ◌==◌, nat_eq, list_eq, if◌then◌else◌,
}
use ts_domain_gateway.GoText.{Bytes, codes, join}
use ts_domain_gateway.Name.{normal_name}
use ts_domain_gateway.Net.{Addr, invalid, Prefix, is_valid, contains_prefix}
use ts_domain_gateway.Resolver.{is_system_resolver}
use ts_domain_gateway.Policy.{Grant, Gateway, gateway_for, ranges_for_name}
use ts_domain_gateway.Policy.Decode.{Decoder, parse, comma}
use ts_domain_gateway.Alloc.{Mapping}
use ts_domain_gateway.Dns.{
  Question, Decision, no_response, address, ptr, passthrough, unavailable, type_a, type_ptr,
  reverse_ipv4,
}
use ts_domain_gateway.Tags.{TaggedNode, resolve_tags}

-- What the service calls of Go's libraries.
pub record Library : Type 0 where
  pub json : Decoder
  pub parse_prefix : Bytes → Option Prefix
  pub parse_ip : Bytes → Bool
  pub parse_addr : Bytes → Option Addr
  pub prefix_text : Prefix → Bytes
  pub wide : Bytes → Bytes

-- An identity: the raw message of the policy capability for a source and a destination, with `none`
-- for an error and an inner `none` for no such capability; and whether a source is a gateway, where
-- the identity can say so.
pub record Identity : Type 0 where
  pub capability : Addr → Addr → Option (Option Bytes)
  pub is_gateway : Option (Addr → Option Bool)

-- The synthetic mappings: a call returns its result, or `none`, with the new state.
pub record Mappings : Type 1 where
  pub State : Type 0
  pub allocate : Bytes → List Prefix → Bytes → State → Option Addr × State
  pub find : Addr → State → Option Mapping × State

-- The counters.
pub record Counters : Type 0 where
  pub synthesized : ℕ
  pub passed : ℕ
  pub allowed : ℕ
  pub denied : ℕ

abbrev pub add_one : ℕ → ℕ
add_one n = (n + 1) % 2 ^ 64

abbrev pub count_synthesized : Counters → Counters
count_synthesized c = record c { synthesized = add_one c.synthesized }

abbrev pub count_passed : Counters → Counters
count_passed c = record c { passed = add_one c.passed }

abbrev pub count_allowed : Counters → Counters
count_allowed c = record c { allowed = add_one c.allowed }

abbrev pub count_denied : Counters → Counters
count_denied c = record c { denied = add_one c.denied }

pub data DnsOutcome : Type 0 where
  dns_passthrough dns_synthesized dns_unavailable : DnsOutcome

abbrev pub is_synthesized : DnsOutcome → Bool
is_synthesized dns_synthesized = true
is_synthesized _ = false

abbrev pub grants_of : Library → Option Bytes → List Grant
grants_of lib raw = parse lib.json lib.parse_prefix lib.wide lib.parse_ip raw

unfoldable pub range_key : (Prefix → Bytes) → List Prefix → Bytes
unfolding join
range_key prefix_text prefixes = join (map prefix_text prefixes) (comma ∷ [])

-- The loop of gatewayForDestination over the gateways, in any order, with `selected`; a gateway with
-- no prefixes stands for none.
unfoldable pub select_gateway : List Gateway → Addr → Gateway → Option Gateway
unfolding contains_prefix
select_gateway [] destination selected =
    if length selected.prefixes == 0 then none else some selected
select_gateway (gateway ∷ gateways) destination selected =
    let skip = select_gateway gateways destination selected in
    let take = select_gateway gateways destination gateway in
    if not (contains_prefix gateway.prefixes destination)
    then skip
    else if not (length selected.prefixes == 0)
    then none
    else take

unfoldable pub gateway_for_destination : List Gateway → Addr → Option Gateway
unfolding select_gateway
gateway_for_destination gateways destination =
    select_gateway gateways destination
      (record { prefixes = []; resolver = []; system_resolver = false })

-- The first guard of DNSAnswer.
abbrev pub from_gateway : Identity → Addr → Bool
from_gateway identity source = elim identity.is_gateway [
  | none ↦ false
  | some check ↦ elim (check source) [ none ↦ true | some gateway ↦ gateway ]
]

-- DNSAnswer up to the allocation: the ranges and the name to allocate in, or `none` to pass the
-- question through.
unfoldable pub dns_request : Library → Identity → Addr → Bytes → Option (List Prefix × Bytes)
unfolding normal_name
dns_request lib identity source name =
    let (n, ok) = normal_name lib.wide name in
    if from_gateway identity source
    then none
    else if not ok
    then none
    else elim (identity.capability source invalid) [
      | none ↦ none
      | some raw ↦ elim (ranges_for_name (grants_of lib raw) n) [
        | none ↦ none
        | some ranges ↦ some (ranges, n)
      ]
    ]

-- The gateway that a flow for a valid name is sent to.
unfoldable pub flow_gateway :
    Library → Identity → List Gateway → Addr → Addr → Bytes → Bytes → ℕ → Option Gateway
unfolding gateway_for_destination
flow_gateway lib identity gateways source destination name proto port =
    elim (gateway_for_destination gateways destination) [
      | none ↦ none
      | some gateway ↦ elim (identity.capability source destination) [
        | none ↦ none
        | some raw ↦ gateway_for (grants_of lib raw) gateway name proto port
      ]
    ]

-- FlowDomain, with the counters.
unfoldable pub flow_domain :
    Library
    → Identity
    → List Gateway
    → Addr
    → Addr
    → Bytes
    → Bytes
    → ℕ
    → Counters
    → Option Gateway × Counters
unfolding normal_name flow_gateway
flow_domain lib identity gateways source destination name proto port c =
    let (n, ok) = normal_name lib.wide name in
    let found = flow_gateway lib identity gateways source destination n proto port in
    if not ok then (none, count_denied c) else elim found [
      | none ↦ (none, count_denied c)
      | some gateway ↦ (some gateway, count_allowed c)
    ]

-- The resolver of ProxyTCP: its address, and whether it is dialled from the host's network. The
-- result of SystemResolver is `system`, `none` also where the function is not set.
unfoldable pub proxy_resolver : Option Bytes → Bool → Gateway → Option (Bytes × Bool)
proxy_resolver system has_dial g =
    let host = g.system_resolver || not has_dial in
    if g.system_resolver && is_system_resolver g.resolver
    then elim system [ none ↦ none | some upstream ↦ some (upstream, host) ]
    else some (g.resolver, host)

-- ProxyTCP up to its first connection: the names that the PTR lookup gives, or `none`.
unfoldable pub proxy_tcp :
    Library
    → Identity
    → List Gateway
    → Option Bytes
    → Bool
    → Option (List Bytes)
    → Addr
    → Addr
    → ℕ
    → Counters
    → Option (Bytes × Bytes × Bool) × Counters
unfolding flow_domain proxy_resolver
proxy_tcp lib identity gateways system has_dial (some (name ∷ [])) source destination port c =
    let (gateway, c') =
      flow_domain lib identity gateways source destination name (codes "tcp") port c in
    elim gateway [
      | none ↦ (none, c')
      | some g ↦ elim (proxy_resolver system has_dial g) [
        | none ↦ (none, c')
        | some (resolver, host) ↦ (some (name, resolver, host), c')
      ]
    ]
proxy_tcp lib identity gateways system has_dial _ source destination port c = (none, c)

module _ (mappings : Mappings) where
  pub record State : Type 0 where
    pub held : mappings.State
    pub counters : Counters

module _ (mappings : Mappings) (lib : Library) (identity : Identity) where
  -- DNSAnswer
  unfoldable pub dns_answer : Addr → Bytes → State mappings → (Addr × DnsOutcome) × State mappings
  unfolding dns_request range_key
  dns_answer source name s = elim (dns_request lib identity source name) [
    | none ↦ ((invalid, dns_passthrough), record s { counters = count_passed s.counters })
    | some (ranges, n) ↦
        let (given, held) = mappings.allocate (range_key lib.prefix_text ranges) ranges n s.held in
        elim given [
          | none ↦ (
            (invalid, dns_unavailable),
            record { held = held; counters = count_passed s.counters },
          )
          | some ip ↦ (
            (ip, dns_synthesized),
            record { held = held; counters = count_synthesized s.counters },
          )
        ]
  ]

  -- DNS
  pub dns : Addr → Bytes → State mappings → (Addr × Bool) × State mappings
  unfolding dns_answer
  dns source name s =
      let ((ip, outcome), t) = dns_answer source name s in ((ip, is_synthesized outcome), t)

  -- PTRMapping
  unfoldable pub ptr_mapping : Addr → State mappings → Option Mapping × State mappings
  ptr_mapping ip s =
      let (found, held) = mappings.find ip s.held in (found, record s { held = held })

  -- Flow: the domain is that of the mapping, and is not normalised again.
  unfoldable pub flow :
      List Gateway
      → Addr
      → Addr
      → Bytes
      → ℕ
      → State mappings
      → Option (Mapping × Gateway) × State mappings
  unfolding ptr_mapping flow_gateway
  flow gateways source destination proto port s =
      let (found, t) = ptr_mapping destination s in
      elim found [
        | none ↦ (none, record t { counters = count_denied t.counters })
        | some m ↦
            elim (flow_gateway lib identity gateways source destination m.domain proto port) [
              | none ↦ (none, record t { counters = count_denied t.counters })
              | some gateway ↦ (some (m, gateway), record t { counters = count_allowed t.counters })
            ]
      ]
