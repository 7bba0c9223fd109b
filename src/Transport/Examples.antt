-- ===== src/Transport/Examples.antt =====
-- A gateway with one network on a tsnet server that takes routes.
use ts_domain_gateway.Common.{◌*◌, ◌^◌, ◌≡◌, refl, true, false, [], ◌∷◌, none, some, All}
use ts_domain_gateway.GoText.{codes}
use ts_domain_gateway.Net.{Addr, v4, Prefix, contains_prefix, prefix_contains}
use ts_domain_gateway.Policy.{Gateway}
use ts_domain_gateway.Policy.Decode.{Decoder}
use ts_domain_gateway.Service.{Library, Identity, Counters, flow_domain, count_denied}
use ts_domain_gateway.Transport.Userspace.{
  Server, Published, IsOwned, is_known, fallback_handler, serve_tsnet_gateway,
  serve_tsnet_gateway-IsOwned, fallback_handler-flow_domain,
}

abbrev network : Prefix
network = record { addr = v4 (10 * 2 ^ 24); bits = 24 }

abbrev own : Gateway
own = record { prefixes = network ∷ []; resolver = codes "1.1.1.1:53"; system_resolver = false }

abbrev server : Server
server = record { starts = true; has_client = true; takes_routes = λ routes. true }

abbrev before : Published
before = record { handler = none; routes = [] }

serve_tsnet_gateway-IsOwned_example :
    All (IsOwned before) (serve_tsnet_gateway server (own ∷ []) before)
serve_tsnet_gateway-IsOwned_example = serve_tsnet_gateway-IsOwned server (own ∷ []) before

abbrev json : Decoder
json = record {
  string = λ raw. none;
  strings = λ raw. none;
  entries = λ raw. none;
  resource_fields = λ raw. none;
  grant_fields = λ raw. none;
}

abbrev lib : Library
lib = record {
  json = json;
  parse_prefix = λ s. none;
  parse_ip = λ s. true;
  parse_addr = λ s. none;
  prefix_text = λ p. [];
  wide = λ s. s;
}

abbrev identity : Identity
identity = record { capability = λ source destination. some none; is_gateway = none }

abbrev zero_counters : Counters
zero_counters = record { synthesized = 0; passed = 0; allowed = 0; denied = 0 }

abbrev elsewhere : Addr
elsewhere = v4 (11 * 2 ^ 24)

declined :
    fallback_handler lib identity
      (own ∷ [])
      none
      true
      (some (codes "a.corp" ∷ []))
      (v4 5)
      elsewhere
      443
      zero_counters
    ≡ none
unfolding fallback_handler is_known contains_prefix prefix_contains
declined = refl

fallback_handler-flow_domain_example :
    flow_domain lib identity
      (own ∷ [])
      (v4 5)
      elsewhere
      (codes "a.corp")
      (codes "tcp")
      443
      zero_counters
    ≡ (none, count_denied zero_counters)
fallback_handler-flow_domain_example =
    fallback_handler-flow_domain lib identity (own ∷ []) none true (some (codes "a.corp" ∷ []))
      (v4 5) elsewhere 443 zero_counters declined (codes "a.corp") (codes "tcp") 443 zero_counters
