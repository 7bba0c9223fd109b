-- ===== src/Policy/Decode.antt =====
-- Policy decoding in internal/domain/domain.go: UnmarshalJSON of Resource and Grant, and Parse.
-- encoding/json is a parameter: `Decoder` holds what it reads a raw message as, or `none` where it
-- reports an error. netip.ParsePrefix is a parameter too.
pub mod Pool
pub mod Valid
mod Examples
use ts_domain_gateway.Common.{
  ℕ, Bool, true, false, not, ◌&&◌, ◌||◌, List, [], ◌∷◌, ◌++◌, Option, none, some, length, drop,
  get_or, any, ◌==◌, nat_eq, if◌then◌else◌, ◌>>=◌,
}
use ts_domain_gateway.GoText.{
  Bytes, codes, colon, dot, contains, cut, has_prefix, split, trim_suffix, to_lower,
}
use ts_domain_gateway.Name.{valid_name, star_dot, stars_dot}
use ts_domain_gateway.Port.{valid_ports}
use ts_domain_gateway.Net.{Prefix, is4, is_masked, overlaps}
use ts_domain_gateway.Resolver.{normalize_resolver}
use ts_domain_gateway.Policy.{Resource, Grant}

-- The structs that the two methods decode into; a raw message that is missing is `none`, or empty
-- where the code does not ask.
pub record ResourceFields : Type 0 where
  pub domain : Bytes
  pub ip : List Bytes
  pub upstream_dns : Bytes
  pub ports : Option Bytes

pub record GrantFields : Type 0 where
  pub upstream_dns : Bytes
  pub resources : List Bytes
  pub ranges : Bytes

pub record Decoder : Type 0 where
  pub string : Bytes → Option Bytes
  pub strings : Bytes → Option (List Bytes)
  pub entries : Bytes → Option (List Bytes)
  pub resource_fields : Bytes → Option ResourceFields
  pub grant_fields : Bytes → Option GrantFields

abbrev pub quote : ℕ
quote = b'"'

abbrev pub comma : ℕ
comma = b','

tcp_ports : List Bytes → Option (List Bytes)
tcp_ports [] = some []
tcp_ports (port ∷ parts) =
    if length port == 0
    then none
    else (tcp_ports parts >>= λ rest. some ((codes "tcp:" ++ port) ∷ rest))

-- `domain:port[,port...]`
unfoldable pub shorthand : Bytes → Option Resource
unfolding cut contains split tcp_ports
shorthand s = do
  (domain, ports) ← cut s colon
  if length domain == 0 || length ports == 0 || contains ports colon
      then none
      else (tcp_ports (split ports comma) >>= λ ip.
          some (record { domain = domain; ip = ip; upstream_dns = [] }))

plain_resource : ResourceFields → Option Resource
plain_resource f = elim f.ports [
  | some _ ↦ none
  | none ↦ some (record { domain = f.domain; ip = f.ip; upstream_dns = f.upstream_dns })
]

abbrev any_overlaps : Prefix → List Prefix → Bool
any_overlaps p prior = any (λ q. overlaps p q) prior

-- The loop of Grant.UnmarshalJSON over the values, with the ranges read so far.
unfoldable pub parse_ranges :
    (Bytes → Option Prefix) → List Bytes → List Prefix → Option (List Prefix)
unfolding is_masked overlaps
parse_ranges parse_prefix [] ranges = some ranges
parse_ranges parse_prefix (value ∷ values) ranges = parse_prefix value >>= λ p.
    if not (is4 p.addr) || not (is_masked p) || any_overlaps p ranges
    then none
    else parse_ranges parse_prefix values (ranges ++ p ∷ [])

module _ (json : Decoder) where
  unfoldable pub unmarshal_resource : Bytes → Option Resource
  unfolding shorthand plain_resource
  unmarshal_resource raw =
      if get_or raw 0 0 == quote
      then (json.string raw >>= shorthand)
      else (json.resource_fields raw >>= plain_resource)

  unmarshal_resources : List Bytes → Option (List Resource)
  unfolding unmarshal_resource
  unmarshal_resources [] = some []
  unmarshal_resources (raw ∷ raws) =
      unmarshal_resource raw >>= λ r. unmarshal_resources raws >>= λ rs. some (r ∷ rs)

  unfoldable pub unmarshal_grant : (Bytes → Option Prefix) → Bytes → Option Grant
  unfolding unmarshal_resources parse_ranges
  unmarshal_grant parse_prefix raw = do
    f ← json.grant_fields raw
    resources ← unmarshal_resources f.resources
    values ← json.strings f.ranges
    if length values == 0
        then none
        else (parse_ranges parse_prefix values [] >>= λ ranges.
            some (record { upstream_dns = f.upstream_dns; resources = resources; ranges = ranges }))

module _ (wide : Bytes → Bytes) (parse_ip : Bytes → Bool) where
  -- `none` clears `valid`.
  unfoldable pub checked_resolver : Bytes → Option Bytes
  checked_resolver upstream =
      if length upstream == 0 then some upstream else normalize_resolver parse_ip upstream

  unfoldable pub valid_pattern : Bytes → Bool
  unfolding has_prefix
  valid_pattern d =
      if has_prefix d stars_dot
      then valid_name (drop 3 d)
      else if has_prefix d star_dot
      then valid_name (drop 2 d)
      else valid_name d

  -- One round of Parse's loop over the resources.
  unfoldable pub checked_resource : Resource → Option Resource
  unfolding to_lower trim_suffix checked_resolver
  checked_resource r =
      let d = to_lower wide (trim_suffix r.domain (dot ∷ [])) in
      if valid_pattern d && valid_ports r.ip
      then (checked_resolver r.upstream_dns >>= λ upstream.
          some (record { domain = d; ip = r.ip; upstream_dns = upstream }))
      else none

  unfoldable pub checked_resources : List Resource → Option (List Resource)
  unfolding checked_resource
  checked_resources [] = some []
  checked_resources (r ∷ rs) =
      checked_resource r >>= λ r'. checked_resources rs >>= λ rs'. some (r' ∷ rs')

  unfoldable pub checked_grant : Grant → Option Grant
  unfolding checked_resources
  checked_grant g = do
    upstream ← checked_resolver g.upstream_dns
    resources ← checked_resources g.resources
    some (record g { upstream_dns = upstream; resources = resources })

-- `if valid { grants = append(grants, g) }`, with what the later entries append
append_valid : Option Grant → List Grant → List Grant
append_valid none rest = rest
append_valid (some g) rest = g ∷ rest

module _ (json : Decoder) (parse_prefix : Bytes → Option Prefix) (wide : Bytes → Bytes)
    (parse_ip : Bytes → Bool) where
  -- The body of Parse's loop over the entries.
  unfoldable pub parse_entry : Bytes → Option Grant
  unfolding unmarshal_grant checked_grant
  parse_entry raw = unmarshal_grant json parse_prefix raw >>= λ g.
      if length g.ranges == 0 || length g.resources == 0
      then none
      else checked_grant wide parse_ip g

  unfoldable pub parse_entries : List Bytes → List Grant
  unfolding parse_entry append_valid
  parse_entries [] = []
  parse_entries (entry ∷ entries) = append_valid (parse_entry entry) (parse_entries entries)

  unfoldable pub parse_found : Option (List Bytes) → List Grant
  unfolding parse_entries
  parse_found none = []
  parse_found (some entries) = parse_entries entries

  -- Parse, from the capability's raw message, if there is one.
  unfoldable pub parse : Option Bytes → List Grant
  unfolding parse_found
  parse none = []
  parse (some raw) = parse_found (json.entries raw)
