-- ===== src/Lifecycle/Examples.antt =====
-- A service with one grant over the allocator alone.
use ts_domain_gateway.Common.{
  arith, ◌+◌, ◌*◌, ◌^◌, ◌≡◌, refl, true, false, List, [], ◌∷◌, Option, none, some, ◌==◌, list_eq,
  nat_eq, if◌then◌else◌,
}
use ts_domain_gateway.GoText.{
  Bytes, codes, cut, contains, split, join, to_lower, trim_suffix, has_suffix, has_prefix, is_ascii,
  count,
}
use ts_domain_gateway.Name.{normal_name, valid_name, valid_label, valid_byte, match}
use ts_domain_gateway.Port.{valid_ports, valid_parts, valid_number}
use ts_domain_gateway.Net.{
  invalid, addr_eq, prefix_eq, Addr, v4, v6, Prefix, is_masked, masked_addr, overlaps,
  prefix_contains, next_addr,
}
use ts_domain_gateway.Policy.{same_prefix_slice, ranges_for_name, ranges_in_grants, ranges_in_grant}
use ts_domain_gateway.Policy.Decode.{
  Decoder, parse, parse_found, parse_entries, parse_entry, unmarshal_grant, unmarshal_resource,
  shorthand, checked_grant, checked_resources, checked_resource, checked_resolver, valid_pattern,
  parse_ranges,
}
use ts_domain_gateway.Alloc.Assoc.{lookup, insert}
use ts_domain_gateway.Alloc.{
  Mapping, new_allocator, allocate, lookup_key_live, lookup_live, key_of, choose, starting,
  from_start, pick, pick_later, usable,
}
use ts_domain_gateway.Alloc.Maps.{mapping_key, new_allocator-IsConsistent}
use ts_domain_gateway.Service.{
  Library, Identity, State, dns_request, dns_answer, dns_synthesized, range_key,
}
use ts_domain_gateway.Service.Callback.{decide}
use ts_domain_gateway.Dns.{ptr, type_ptr}
use ts_domain_gateway.Store.{sql_allocate, sql_lookup_key, delete_expired}
use ts_domain_gateway.Store.Others.{nothing, after, deletes}
use ts_domain_gateway.Store.Shared.{ReadsBack}
use ts_domain_gateway.Lifecycle.Instances.{decide-other_instance}
use ts_domain_gateway.Lifecycle.{
  Lifecycle, lifecycle_allocate, stored_allocate, memory_allocate, lifecycle_mappings,
}
use ts_domain_gateway.Lifecycle.Answers.{decide-reverse_name}

abbrev keep : Bytes → Bytes
keep s = s

abbrev network : Prefix
network = record { addr = v4 (10 * 2 ^ 24); bits = 24 }

abbrev inside : Addr
inside = v4 (10 * 2 ^ 24 + 1)

abbrev client : Addr
client = v4 (100 * 2 ^ 24 + 64 * 2 ^ 16 + 1)

abbrev parse_network : Bytes → Option Prefix
parse_network s = if s == codes "10.0.0.0/24" then some network else none

abbrev json : Decoder
json = record {
  string = λ raw. if raw == codes "\"r\"" then some (codes "*.a.corp:443") else none;
  strings = λ raw. if raw == codes "ranges" then some (codes "10.0.0.0/24" ∷ []) else none;
  entries = λ raw. some (raw ∷ []);
  resource_fields = λ raw. none;
  grant_fields = λ raw.
      if raw == codes "grant"
      then some
          (record { upstream_dns = []; resources = codes "\"r\"" ∷ []; ranges = codes "ranges" })
      else none;
}

abbrev lib : Library
lib = record {
  json = json;
  parse_prefix = parse_network;
  parse_ip = λ s. false;
  parse_addr = λ s. none;
  prefix_text = λ p. codes "10.0.0.0/24";
  wide = keep;
}

abbrev identity : Identity
identity = record {
  capability = λ source destination. if source == client then some (some (codes "grant")) else none;
  is_gateway = none;
}

abbrev text : Addr → Bytes
text ip = []

abbrev no_addr : Bytes → Option Addr
no_addr s = none

abbrev alone : Lifecycle
alone = record {
  has_store = false;
  has_state_path = true;
  lease = 0;
  registry = record {
    table = [];
    faults = [];
    others = [];
    last_renewed = [];
    cache = new_allocator;
  };
}

abbrev name : Bytes
name = codes "git.a.corp"

abbrev start : State (lifecycle_mappings text no_addr true 100)
start = record {
  held = alone;
  counters = record { synthesized = 0; passed = 0; allowed = 0; denied = 0 };
}

abbrev answered : State (lifecycle_mappings text no_addr true 100)
answered = (dns_answer (lifecycle_mappings text no_addr true 100) lib identity client name start).1

answer_run :
    dns_answer (lifecycle_mappings text no_addr true 100) lib identity client name start
    ≡ ((inside, dns_synthesized), answered)
unfolding dns_answer dns_request range_key join ranges_for_name ranges_in_grants ranges_in_grant
    same_prefix_slice normal_name match lifecycle_allocate memory_allocate lookup_key_live allocate
    lookup insert choose starting from_start pick pick_later usable prefix_contains next_addr parse
    parse_found parse_entries parse_entry unmarshal_grant unmarshal_resource shorthand checked_grant
    checked_resources checked_resource checked_resolver valid_pattern parse_ranges cut contains
    split to_lower trim_suffix has_suffix has_prefix is_ascii count is_masked masked_addr overlaps
    valid_name valid_label valid_byte valid_ports valid_parts valid_number
answer_run = refl

decide-reverse_name_example :
    (m : Mapping) × (ranges : List Prefix) × (n : Bytes) × (normal_name keep name ≡ (n, true))
    × ((decide
          (lifecycle_mappings text no_addr true 100)
          lib
          identity
          none
          client
          (record { name = codes "1.0.0.10.in-addr.arpa"; type_code = type_ptr })
          answered).0
        ≡ record { outcome = ptr; address = invalid; ptr_name = m.domain })
    × (mapping_key m ≡ key_of (range_key lib.prefix_text ranges) n)
unfolding join
decide-reverse_name_example =
    decide-reverse_name text no_addr lib identity true 100 client name start answered
      (10 * 2 ^ 24 + 1) refl new_allocator-IsConsistent (omega arith) answer_run none client

-- Texts of addresses, and their reading.
abbrev tagged : Addr → Bytes
tagged invalid = []
tagged (v4 n) = 4 ∷ n ∷ []
tagged (v6 n) = 6 ∷ n ∷ []

abbrev untagged : Bytes → Option Addr
untagged (tag ∷ n ∷ []) = if tag == 4 then some (v4 n) else none
untagged _ = none

tagged-ReadsBack : ReadsBack tagged untagged
tagged-ReadsBack invalid y e = absurd (ground (arith, e))
tagged-ReadsBack (v4 n) y e = ground (arith, e)
tagged-ReadsBack (v6 n) y e = absurd (ground (arith, e))

abbrev stored : Lifecycle
stored = record {
  has_store = true;
  has_state_path = false;
  lease = 50;
  registry = record {
    table = [];
    faults = [];
    others = [];
    last_renewed = [];
    cache = new_allocator;
  };
}

abbrev asked : State (lifecycle_mappings tagged untagged true 100)
asked = record {
  held = stored;
  counters = record { synthesized = 0; passed = 0; allowed = 0; denied = 0 };
}

abbrev given : State (lifecycle_mappings tagged untagged true 100)
given = (dns_answer (lifecycle_mappings tagged untagged true 100) lib identity client name asked).1

-- Another instance on the table that the first one left; before its first statement, a third one
-- deletes what has expired.
abbrev other : State (lifecycle_mappings tagged untagged true 120)
other = record {
  held = record stored {
    registry = record {
      table = given.held.registry.table;
      faults = [];
      others = delete_expired 110 ∷ [];
      last_renewed = [];
      cache = new_allocator;
    };
  };
  counters = record { synthesized = 0; passed = 0; allowed = 0; denied = 0 };
}

stored_run :
    dns_answer (lifecycle_mappings tagged untagged true 100) lib identity client name asked
    ≡ ((inside, dns_synthesized), given)
unfolding dns_answer dns_request range_key join ranges_for_name ranges_in_grants ranges_in_grant
    same_prefix_slice normal_name match lifecycle_allocate stored_allocate sql_lookup_key
    sql_allocate lookup_key_live lookup insert prefix_contains next_addr parse parse_found
    parse_entries parse_entry unmarshal_grant unmarshal_resource shorthand checked_grant
    checked_resources checked_resource checked_resolver valid_pattern parse_ranges cut contains
    split to_lower trim_suffix has_suffix has_prefix is_ascii count is_masked masked_addr overlaps
    valid_name valid_label valid_byte valid_ports valid_parts valid_number
stored_run = refl

nothing_held :
    (gateway domain : Bytes) → (lookup_key_live new_allocator gateway domain 100).1 ≡ none
unfolding lookup_key_live lookup
nothing_held gateway domain = refl

decide-other_instance_example :
    (n : Bytes) × (normal_name keep name ≡ (n, true))
    × ((decide
          (lifecycle_mappings tagged untagged true 120)
          lib
          identity
          none
          client
          (record { name = codes "1.0.0.10.in-addr.arpa"; type_code = type_ptr })
          other).0
        ≡ record { outcome = ptr; address = invalid; ptr_name = n })
unfolding join lookup_live lookup
decide-other_instance_example =
    decide-other_instance tagged untagged tagged-ReadsBack lib identity identity true true 100 120
      110 client name asked given other (10 * 2 ^ 24 + 1) refl (omega arith) (omega arith) tt
      ((tt, tt), tt) nothing_held (omega arith) stored_run refl nothing refl
      ((λ rows. after nothing (deletes 110 (omega arith))), tt) refl (omega arith) none client
