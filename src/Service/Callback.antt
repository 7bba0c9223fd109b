-- ===== src/Service/Callback.antt =====
-- The callback of runDNS in cmd/domain-gateway/main.go, which puts the questions of the DNS server to the
-- service.
use ts_domain_gateway.Common.{
  not, List, [], ◌∷◌, Option, none, some, ◌==◌, nat_eq, list_eq, if◌then◌else◌,
}
use ts_domain_gateway.GoText.{Bytes}
use ts_domain_gateway.Net.{Addr, invalid, is_valid}
use ts_domain_gateway.Dns.{
  Question, Decision, no_response, address, ptr, passthrough, unavailable, type_a, type_ptr,
  reverse_ipv4,
}
use ts_domain_gateway.Tags.{TaggedNode, resolve_tags}
use ts_domain_gateway.Service.{
  Library, Identity, Mappings, State, DnsOutcome, dns_synthesized, dns_unavailable, dns_passthrough,
  dns_answer, ptr_mapping,
}

module _ (mappings : Mappings) (lib : Library) (identity : Identity) where
  -- A PTR question: what the mapping says.
  unfoldable pub decide_ptr : Addr → State mappings → Decision × State mappings
  unfolding ptr_mapping
  decide_ptr synthetic s =
      let (found, t) = ptr_mapping mappings lib identity synthetic s in
      elim found [
        | some m ↦ (record { outcome = ptr; address = invalid; ptr_name = m.domain }, t)
        | none ↦ (record { outcome = ptr; address = invalid; ptr_name = [] }, t)
      ]

  -- A tag name: the first address, for a question that asks for one.
  unfoldable pub decide_tags : Question → List Bytes → Decision
  decide_tags question [] = record { outcome = no_response; address = invalid; ptr_name = [] }
  decide_tags question (text ∷ _) = elim (lib.parse_addr text) [
    | none ↦ record { outcome = no_response; address = invalid; ptr_name = [] }
    | some ip ↦
        if question.type_code == type_a
        then record { outcome = address; address = ip; ptr_name = [] }
        else record { outcome = no_response; address = invalid; ptr_name = [] }
  ]

  unfoldable pub decision_of : Addr × DnsOutcome → Decision
  decision_of (ip, dns_synthesized) = record { outcome = address; address = ip; ptr_name = [] }
  decision_of (ip, dns_unavailable) = record {
    outcome = unavailable;
    address = invalid;
    ptr_name = [];
  }
  decision_of (ip, dns_passthrough) = record {
    outcome = passthrough;
    address = invalid;
    ptr_name = [];
  }

  -- Any other question.
  unfoldable pub decide_name :
      Option (List TaggedNode) → Addr → Question → State mappings → Decision × State mappings
  unfolding decide_tags decision_of resolve_tags dns_answer
  decide_name nodes source question s = elim (resolve_tags lib.wide question.name nodes) [
    | some ips ↦ (decide_tags question ips, s)
    | none ↦
        if not (is_valid source)
        then (record { outcome = no_response; address = invalid; ptr_name = [] }, s)
        else (let (answer, t) = dns_answer mappings lib identity source question.name s in
            (decision_of answer, t))
  ]

  unfoldable pub decide :
      Option (List TaggedNode) → Addr → Question → State mappings → Decision × State mappings
  unfolding decide_ptr decide_name
  decide nodes source question s =
      let other = decide_name nodes source question s in
      if question.type_code == type_ptr
      then elim (reverse_ipv4 lib.wide question.name) [ none ↦ other | some ip ↦ decide_ptr ip s ]
      else other
