-- ===== src/Policy/Decode/Examples.antt =====
-- A capability with one grant in the short form and one entry that is no grant.
use ts_domain_gateway.Common.{
  ◌*◌, ◌^◌, ◌≡◌, refl, Bool, false, [], ◌∷◌, Option, none, some, ◌==◌, list_eq, nat_eq,
  if◌then◌else◌, All,
}
use ts_domain_gateway.GoText.{
  Bytes, codes, cut, contains, split, to_lower, trim_suffix, has_suffix, has_prefix, is_ascii,
  count,
}
use ts_domain_gateway.Net.{Prefix, v4, is_masked, masked_addr, overlaps}
use ts_domain_gateway.Name.{valid_name, valid_label, valid_byte}
use ts_domain_gateway.Port.{valid_ports, valid_parts, valid_number}
use ts_domain_gateway.Policy.{Grant}
use ts_domain_gateway.Policy.Decode.{
  Decoder, parse, parse_found, parse_entries, parse_entry, unmarshal_grant, unmarshal_resource,
  shorthand, checked_grant, checked_resources, checked_resource, checked_resolver, valid_pattern,
  parse_ranges,
}
use ts_domain_gateway.Policy.Decode.Valid.{IsGrant, parse-IsGrant}

abbrev keep : Bytes → Bytes
keep s = s

abbrev no_ip : Bytes → Bool
no_ip s = false

abbrev network : Prefix
network = record { addr = v4 (10 * 2 ^ 24); bits = 24 }

abbrev parse_network : Bytes → Option Prefix
parse_network s = if s == codes "10.0.0.0/24" then some network else none

abbrev json : Decoder
json = record {
  string = λ raw. if raw == codes "\"r\"" then some (codes "*.a.corp:443,22") else none;
  strings = λ raw. if raw == codes "ranges" then some (codes "10.0.0.0/24" ∷ []) else none;
  entries = λ raw. some (codes "{}" ∷ raw ∷ []);
  resource_fields = λ raw. none;
  grant_fields = λ raw.
      if raw == codes "grant"
      then some
          (record { upstream_dns = []; resources = codes "\"r\"" ∷ []; ranges = codes "ranges" })
      else none;
}

abbrev corp : Grant
corp = record {
  upstream_dns = [];
  resources =
      record {
        domain = codes "*.a.corp";
        ip = codes "tcp:443" ∷ codes "tcp:22" ∷ [];
        upstream_dns = [];
      }
      ∷ [];
  ranges = network ∷ [];
}

parse_run : parse json parse_network keep no_ip (some (codes "grant")) ≡ corp ∷ []
unfolding parse parse_found parse_entries parse_entry unmarshal_grant unmarshal_resource shorthand
    checked_grant checked_resources checked_resource checked_resolver valid_pattern parse_ranges cut
    contains split to_lower trim_suffix has_suffix has_prefix is_ascii count is_masked masked_addr
    overlaps valid_name valid_label valid_byte valid_ports valid_parts valid_number
parse_run = refl

parse-IsGrant_example :
    All (IsGrant keep no_ip) (parse json parse_network keep no_ip (some (codes "grant")))
parse-IsGrant_example = parse-IsGrant json parse_network keep no_ip (some (codes "grant"))
