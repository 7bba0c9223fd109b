-- ===== src/Service/Examples.antt =====
-- A service with one grant and one gateway, over the allocator alone.
use ts_domain_gateway.Common.{
  ◌+◌, ◌*◌, ◌^◌, ◌≡◌, refl, true, false, List, [], ◌∷◌, Option, none, some, ◌==◌, list_eq, nat_eq,
  if◌then◌else◌, All,
}
use ts_domain_gateway.GoText.{
  Bytes, codes, cut, contains, split, join, to_lower, trim_suffix, has_suffix, has_prefix, is_ascii,
  count,
}
use ts_domain_gateway.Name.{normal_name, valid_name, valid_label, valid_byte, match}
use ts_domain_gateway.Port.{valid_ports, valid_parts, valid_number, allowed_port}
use ts_domain_gateway.Net.{
  addr_eq, prefix_eq, Addr, v4, Prefix, is_masked, masked_addr, overlaps, contains_prefix,
  prefix_contains, next_addr,
}
use ts_domain_gateway.Resolver.{join_host_port}
use ts_domain_gateway.Policy.{
  Gateway, gateway_for, over_grants, over_resources, same_prefix_slice, reaches, candidate,
  consider, conclude, ranges_for_name, ranges_in_grants, ranges_in_grant,
}
use ts_domain_gateway.Policy.Decode.{
  Decoder, parse, parse_found, parse_entries, parse_entry, unmarshal_grant, unmarshal_resource,
  shorthand, checked_grant, checked_resources, checked_resource, checked_resolver, valid_pattern,
  parse_ranges,
}
use ts_domain_gateway.Alloc.{Allocator, new_allocator, allocate, lookup_ip}
use ts_domain_gateway.Service.{
  Library, Identity, Mappings, Counters, State, gateway_for_destination, select_gateway,
  flow_gateway, flow_domain, proxy_resolver, proxy_tcp, dns_request, dns_answer, dns_synthesized,
  grants_of, range_key, count_synthesized, count_allowed,
}
use ts_domain_gateway.Service.Flows.{flow_domain_in_pool}
use ts_domain_gateway.Service.Outcomes.{IsCovered, dns_answer-IsCovered}
use ts_domain_gateway.Service.Served.{Tailnet, AsksCovered, callback, serve-AsksCovered}
use ts_domain_gateway.Service.Connect.{Network, backend_address, connect}
use ts_domain_gateway.Dns.Serve.{Event, read, start, run, reply, serve, idle}
use ts_domain_gateway.Dns.Source.{Client, udp, source_ip}
use ts_domain_gateway.Dns.{Question, parse_question, read_labels}
use ts_domain_gateway.Alloc.Assoc.{lookup, insert}
use ts_domain_gateway.Alloc.{choose, starting, from_start, pick, pick_later, usable}

abbrev keep : Bytes → Bytes
keep s = s

abbrev network : Prefix
network = record { addr = v4 (10 * 2 ^ 24); bits = 24 }

abbrev inside : Addr
inside = v4 (10 * 2 ^ 24 + 1)

abbrev client : Addr
client = v4 (100 * 2 ^ 24 + 64 * 2 ^ 16 + 1)

abbrev parse_network : Bytes → Option Prefix
parse_network s = if s == codes "10.0.0.0/24" then some network else none

abbrev json : Decoder
json = record {
  string = λ raw. if raw == codes "\"r\"" then some (codes "*.a.corp:443") else none;
  strings = λ raw. if raw == codes "ranges" then some (codes "10.0.0.0/24" ∷ []) else none;
  entries = λ raw. some (raw ∷ []);
  resource_fields = λ raw. none;
  grant_fields = λ raw.
      if raw == codes "grant"
      then some
          (record { upstream_dns = []; resources = codes "\"r\"" ∷ []; ranges = codes "ranges" })
      else none;
}

abbrev lib : Library
lib = record {
  json = json;
  parse_prefix = parse_network;
  parse_ip = λ s. false;
  parse_addr = λ s. none;
  prefix_text = λ p. codes "10.0.0.0/24";
  wide = keep;
}

abbrev identity : Identity
identity = record {
  capability = λ source destination. if source == client then some (some (codes "grant")) else none;
  is_gateway = none;
}

-- The allocator without a store.
abbrev memory : Mappings
memory = record {
  State = Allocator;
  allocate = λ key ranges name a. let (b, given) = allocate a key ranges name in (given, b);
  find = λ ip a. (lookup_ip a ip, a);
}

abbrev own : Gateway
own = record { prefixes = network ∷ []; resolver = codes "1.1.1.1:53"; system_resolver = false }

abbrev zero_counters : Counters
zero_counters = record { synthesized = 0; passed = 0; allowed = 0; denied = 0 }

abbrev one_allowed : Counters
one_allowed = count_allowed zero_counters

abbrev name : Bytes
name = codes "git.a.corp"

gateway_for_destination_run : gateway_for_destination (own ∷ []) inside ≡ some own
unfolding gateway_for_destination select_gateway contains_prefix prefix_contains
gateway_for_destination_run = refl

flow_domain_run :
    flow_domain lib identity (own ∷ []) client inside name (codes "tcp") 443 zero_counters
    ≡ (some own, one_allowed)
unfolding flow_domain flow_gateway gateway_for_destination select_gateway contains_prefix
    prefix_contains normal_name gateway_for over_grants over_resources same_prefix_slice reaches
    candidate consider conclude match allowed_port parse parse_found parse_entries parse_entry
    unmarshal_grant unmarshal_resource shorthand checked_grant checked_resources checked_resource
    checked_resolver valid_pattern parse_ranges cut contains split to_lower trim_suffix has_suffix
    has_prefix is_ascii count is_masked masked_addr overlaps valid_name valid_label valid_byte
    valid_ports valid_parts valid_number
flow_domain_run = refl

normal_name_run : normal_name keep name ≡ (name, true)
unfolding normal_name to_lower trim_suffix has_suffix is_ascii valid_name valid_label valid_byte
    split count contains
normal_name_run = refl

ranges_run :
    ranges_for_name (grants_of lib (some (codes "grant"))) (normal_name keep name).0
    ≡ some (network ∷ [])
unfolding ranges_for_name ranges_in_grants ranges_in_grant same_prefix_slice normal_name match parse
    parse_found parse_entries parse_entry unmarshal_grant unmarshal_resource shorthand checked_grant
    checked_resources checked_resource checked_resolver valid_pattern parse_ranges cut contains
    split to_lower trim_suffix has_suffix has_prefix is_ascii count is_masked masked_addr overlaps
    valid_name valid_label valid_byte valid_ports valid_parts valid_number
ranges_run = refl

flow_domain_in_pool_example :
    (contains_prefix (network ∷ []) inside ≡ true) × (network ∷ [] ≡ network ∷ [])
flow_domain_in_pool_example =
    flow_domain_in_pool lib identity (own ∷ []) client inside name (codes "tcp") 443 zero_counters
      (some (codes "grant")) (network ∷ []) flow_domain_run refl ranges_run

proxy_tcp_run :
    proxy_tcp lib identity (own ∷ []) none true (some (name ∷ [])) client inside 443 zero_counters
    ≡ (some (name, codes "1.1.1.1:53", false), one_allowed)
unfolding proxy_tcp proxy_resolver flow_domain flow_gateway gateway_for_destination select_gateway
    contains_prefix prefix_contains normal_name gateway_for over_grants over_resources
    same_prefix_slice reaches candidate consider conclude match allowed_port parse parse_found
    parse_entries parse_entry unmarshal_grant unmarshal_resource shorthand checked_grant
    checked_resources checked_resource checked_resolver valid_pattern parse_ranges cut contains
    split to_lower trim_suffix has_suffix has_prefix is_ascii count is_masked masked_addr overlaps
    valid_name valid_label valid_byte valid_ports valid_parts valid_number
proxy_tcp_run = refl

abbrev fresh : State memory
fresh = record { held = new_allocator; counters = zero_counters }

abbrev answered : State memory
answered = (dns_answer memory lib identity client name fresh).1

dns_answer_run :
    dns_answer memory lib identity client name fresh ≡ ((inside, dns_synthesized), answered)
unfolding dns_answer dns_request range_key join ranges_for_name ranges_in_grants ranges_in_grant
    same_prefix_slice normal_name match allocate lookup insert choose starting from_start pick
    pick_later usable prefix_contains next_addr parse parse_found parse_entries parse_entry
    unmarshal_grant unmarshal_resource shorthand checked_grant checked_resources checked_resource
    checked_resolver valid_pattern parse_ranges cut contains split to_lower trim_suffix has_suffix
    has_prefix is_ascii count is_masked masked_addr overlaps valid_name valid_label valid_byte
    valid_ports valid_parts valid_number
dns_answer_run = refl

dns_answer-IsCovered_example :
    (ranges : List Prefix) × (n : Bytes) × IsCovered lib identity client name ranges n
    × (memory.allocate (range_key lib.prefix_text ranges) ranges n fresh.held
        ≡ (some inside, answered.held))
    × (answered.counters ≡ count_synthesized zero_counters)
dns_answer-IsCovered_example =
    dns_answer-IsCovered memory lib identity client name fresh answered dns_answer_run

abbrev query : Bytes
query =
    18 ∷ 52 ∷ 1 ∷ 0 ∷ 0 ∷ 1 ∷ 0 ∷ 0 ∷ 0 ∷ 0 ∷ 0 ∷ 0 ∷ 3 ∷ b'g' ∷ b'i' ∷ b't' ∷ 1 ∷ b'a' ∷ 4 ∷ b'c'
    ∷ b'o' ∷ b'r' ∷ b'p' ∷ 0 ∷ 0 ∷ 1 ∷ 0 ∷ 1 ∷ []

abbrev asked : Question
asked = record { name = name; type_code = 1 }

parse_run : parse_question query ≡ some (asked, 28)
unfolding parse_question read_labels join
parse_run = refl

covered_run : ranges_for_name (grants_of lib (some (codes "grant"))) name ≡ some (network ∷ [])
unfolding ranges_for_name ranges_in_grants ranges_in_grant same_prefix_slice match parse parse_found
    parse_entries parse_entry unmarshal_grant unmarshal_resource shorthand checked_grant
    checked_resources checked_resource checked_resolver valid_pattern parse_ranges cut contains
    split to_lower trim_suffix has_suffix has_prefix is_ascii count is_masked masked_addr overlaps
    valid_name valid_label valid_byte valid_ports valid_parts valid_number
covered_run = refl

abbrev covered : IsCovered lib identity client name (network ∷ []) name
covered = record {
  no_gateway = refl;
  normal = normal_name_run;
  raw = some (codes "grant");
  told = refl;
  pooled = covered_run;
}

-- The same question for a name that no policy covers.
abbrev stray : Bytes
stray =
    18 ∷ 53 ∷ 1 ∷ 0 ∷ 0 ∷ 1 ∷ 0 ∷ 0 ∷ 0 ∷ 0 ∷ 0 ∷ 0 ∷ 1 ∷ b'a' ∷ 3 ∷ b'o' ∷ b'r' ∷ b'g' ∷ 0 ∷ 0 ∷ 1
    ∷ 0 ∷ 1 ∷ []

abbrev laptop : Client
laptop = udp (100 ∷ 64 ∷ 0 ∷ 1 ∷ [])

abbrev no_addr : Bytes → Option Addr
no_addr text = none

abbrev tailnet : Tailnet
tailnet = record { identity = identity; nodes = none }

-- A covered request is answered, another is relayed.
abbrev served : List (Event Tailnet Client)
served =
    read query laptop
    ∷ start
    ∷ read stray laptop
    ∷ run 0 tailnet true
    ∷ start
    ∷ run 0 tailnet true
    ∷ reply 0 (some stray)
    ∷ []

serve-AsksCovered_example :
    All
      (λ relayed. ¬ AsksCovered memory lib no_addr relayed)
      (serve (callback memory lib no_addr) (source_ip no_addr) true served (idle fresh)).relayed
serve-AsksCovered_example = serve-AsksCovered memory lib no_addr true served fresh

abbrev named : Addr → Option (List Bytes)
named ip = some (name ∷ [])

abbrev net : Network
net = record {
  lookup_ip =
      λ resolver host asked. if resolver == codes "1.1.1.1:53" then some (v4 5 ∷ []) else none;
  addr_text = λ ip. codes "0.0.0.5";
  port_text = λ port. codes "443";
}

connect_run :
    connect lib identity (own ∷ []) none true named net client inside 443 zero_counters
    ≡ (some (codes "0.0.0.5:443"), one_allowed)
unfolding connect backend_address join_host_port proxy_tcp proxy_resolver flow_domain flow_gateway
    gateway_for_destination select_gateway contains_prefix prefix_contains normal_name gateway_for
    over_grants over_resources same_prefix_slice reaches candidate consider conclude match
    allowed_port parse parse_found parse_entries parse_entry unmarshal_grant unmarshal_resource
    shorthand checked_grant checked_resources checked_resource checked_resolver valid_pattern
    parse_ranges cut contains split to_lower trim_suffix has_suffix has_prefix is_ascii count
    is_masked masked_addr overlaps valid_name valid_label valid_byte valid_ports valid_parts
    valid_number
connect_run = refl
