-- ===== src/Service/Outcomes.antt =====
-- What becomes of a DNS question.
use mathlib.Core.Path.{subst}
use ts_domain_gateway.Common.{
  ℕ, ◌≡◌, ◌≢◌, ◌∙◌, refl, sym, Bool, true, false, List, [], ◌∷◌, Option, some, nat_eq, arith,
  Option-cases, inl, inr,
}
use ts_domain_gateway.GoText.{Bytes}
use ts_domain_gateway.Name.{normal_name}
use ts_domain_gateway.Net.{Addr, invalid, Prefix}
use ts_domain_gateway.Policy.{ranges_for_name}
use ts_domain_gateway.Dns.{
  Question, Decision, Outcome, no_response, address, ptr, passthrough, unavailable, parse_question,
  answer, respond, respond_to, reverse_ipv4,
}
use ts_domain_gateway.Tags.{TaggedNode, resolve_tags}
use ts_domain_gateway.Service.{
  Library, Identity, Mappings, State, DnsOutcome, dns_passthrough, dns_synthesized, dns_unavailable,
  grants_of, range_key, from_gateway, dns_request, dns_answer, count_synthesized,
}
use ts_domain_gateway.Service.Callback.{decide_ptr, decide_tags, decision_of, decide_name, decide}

-- The policy of a source gives a name these ranges, and the source is no gateway.
pub record IsCovered (lib : Library) (identity : Identity) (source : Addr) (name : Bytes)
    (ranges : List Prefix) (n : Bytes) : Type 0 where
  pub no_gateway : from_gateway identity source ≡ false
  pub normal : normal_name lib.wide name ≡ (n, true)
  pub raw : Option Bytes
  pub told : identity.capability source invalid ≡ some raw
  pub pooled : ranges_for_name (grants_of lib raw) n ≡ some ranges

dns_request-IsCovered :
    (lib : Library) (identity : Identity) (source : Addr) (name : Bytes) {ranges : List Prefix}
    {n : Bytes}
    → dns_request lib identity source name ≡ some (ranges, n)
    → IsCovered lib identity source name ranges n
unfolding dns_request
dns_request-IsCovered lib identity source name {ranges} {n} h =
    elim (Option-cases (identity.capability source invalid)) [
      | inl e ↦ absurd (ground (arith, e, h))
      | inr (raw, e) ↦
          elim (Option-cases (ranges_for_name (grants_of lib raw) (normal_name lib.wide name).0)) [
            | inl f ↦ absurd (ground (arith, e, f, h))
            | inr (R, f) ↦
                let same : (normal_name lib.wide name).0 ≡ n = ground (arith, e, f, h) in
                record {
                  no_gateway = ground (arith, h);
                  normal = ground (arith, e, f, h);
                  raw = raw;
                  told = e;
                  pooled =
                      subst (λ m. ranges_for_name (grants_of lib raw) m ≡ some ranges) same
                        (ground (arith, e, f, h));
                }
          ]
    ]

IsCovered-dns_request :
    (lib : Library) (identity : Identity) (source : Addr) (name : Bytes) (ranges : List Prefix)
    (n : Bytes)
    → IsCovered lib identity source name ranges n
    → dns_request lib identity source name ≡ some (ranges, n)
unfolding dns_request
IsCovered-dns_request lib identity source name ranges n c =
    let same : (normal_name lib.wide name).0 ≡ n = ground (arith, c.normal) in
    let pooled =
      subst (λ m. ranges_for_name (grants_of lib c.raw) m ≡ some ranges) (sym same) c.pooled in
    ground (arith, c.no_gateway, c.normal, c.told, pooled)

abbrev forwards : Outcome → Bool
forwards passthrough = true
forwards _ = false

answer-forwards :
    (request : Bytes) (end : ℕ) (question : Question) (outcome : Outcome) (ip : Addr) (name : Bytes)
    → (answer request end question (record { outcome = outcome; address = ip; ptr_name = name })).1
      ≡ forwards outcome
unfolding answer
answer-forwards request end question no_response ip name = refl
answer-forwards request end question address ip name = ground arith
answer-forwards request end question ptr ip name = ground arith
answer-forwards request end question passthrough ip name = refl
answer-forwards request end question unavailable ip name = refl

module _ (mappings : Mappings) (lib : Library) (identity : Identity) where
  -- DNSAnswer synthesizes an address only for a name that the policy of its source covers, and then
  -- the address is the one that was allocated for the normalised name in the covering ranges, under
  -- their key; the allocation is the only change, and the synthesized counter goes up.
  pub dns_answer-IsCovered :
      (source : Addr) (name : Bytes) (s t : State mappings) {ip : Addr}
      → dns_answer mappings lib identity source name s ≡ ((ip, dns_synthesized), t)
      → (ranges : List Prefix) × (n : Bytes) × IsCovered lib identity source name ranges n
        × (mappings.allocate (range_key lib.prefix_text ranges) ranges n s.held ≡ (some ip, t.held))
        × (t.counters ≡ count_synthesized s.counters)
  unfolding dns_answer
  dns_answer-IsCovered source name s t {ip} h =
      elim (Option-cases (dns_request lib identity source name)) [
        | inl e ↦ absurd (ground (arith, e, h))
        | inr ((ranges, n), e) ↦
            elim (Option-cases
              (mappings.allocate (range_key lib.prefix_text ranges) ranges n s.held).0) [
                | inl f ↦ absurd (ground (arith, e, f, h))
                | inr (given, f) ↦ (
                  ranges,
                  n,
                  dns_request-IsCovered lib identity source name e,
                  ground (arith, e, f, h),
                  ground (arith, e, f, h),
                )
              ]
      ]

  dns_answer_covered :
      (source : Addr) (name : Bytes) (s : State mappings) (ranges : List Prefix) (n : Bytes)
      → dns_request lib identity source name ≡ some (ranges, n)
      → (dns_answer mappings lib identity source name s).0.1 ≢ dns_passthrough
  unfolding dns_answer
  dns_answer_covered source name s ranges n e p =
      elim (Option-cases (mappings.allocate (range_key lib.prefix_text ranges) ranges n s.held).0) [
        | inl f ↦ absurd (ground (arith, e, f, p))
        | inr (given, f) ↦ absurd (ground (arith, e, f, p))
      ]

  decision_of-forwards :
      (ip : Addr) (o : DnsOutcome)
      → o ≢ dns_passthrough
      → forwards (decision_of mappings lib identity (ip, o)).outcome ≡ false
  unfolding decision_of
  decision_of-forwards ip dns_passthrough h = absurd (h refl)
  decision_of-forwards ip dns_synthesized h = refl
  decision_of-forwards ip dns_unavailable h = refl

  decide_tags-forwards :
      (question : Question) (ips : List Bytes)
      → forwards (decide_tags mappings lib identity question ips).outcome ≡ false
  unfolding decide_tags
  decide_tags-forwards question [] = refl
  decide_tags-forwards question (text ∷ ips) = ground arith

  decide_ptr-forwards :
      (ip : Addr) (s : State mappings)
      → forwards (decide_ptr mappings lib identity ip s).0.outcome ≡ false
  unfolding decide_ptr
  decide_ptr-forwards ip s = ground arith

  decide_name-forwards :
      (nodes : Option (List TaggedNode)) (source : Addr) (question : Question) (s : State mappings)
      (ranges : List Prefix) (n : Bytes)
      → dns_request lib identity source question.name ≡ some (ranges, n)
      → forwards (decide_name mappings lib identity nodes source question s).0.outcome ≡ false
  unfolding decide_name
  decide_name-forwards nodes source question s ranges n e =
      let (ip, o) = (dns_answer mappings lib identity source question.name s).0 in
      elim (Option-cases (resolve_tags lib.wide question.name nodes)) [
        | inr (ips, f) ↦ ground (arith, f, decide_tags-forwards question ips)
        | inl f ↦ ground (
          arith,
          f,
          decision_of-forwards ip o (dns_answer_covered source question.name s ranges n e),
        )
      ]

  decide-forwards :
      (nodes : Option (List TaggedNode)) (source : Addr) (question : Question) (s : State mappings)
      (ranges : List Prefix) (n : Bytes)
      → dns_request lib identity source question.name ≡ some (ranges, n)
      → forwards (decide mappings lib identity nodes source question s).0.outcome ≡ false
  unfolding decide
  decide-forwards nodes source question s ranges n e =
      let other = decide_name-forwards nodes source question s ranges n e in
      elim (Option-cases (reverse_ipv4 lib.wide question.name)) [
        | inl f ↦ ground (arith, f, other)
        | inr (ip, f) ↦ ground (arith, f, other, decide_ptr-forwards ip s)
      ]

  -- No query for a name that the policy of its source covers is forwarded to the upstream resolver,
  -- whatever the state, the tags and the type of the question.
  pub respond_covered :
      (nodes : Option (List TaggedNode)) (s : State mappings) (request : Bytes) (source : Addr)
      (question : Question) (end : ℕ) (ranges : List Prefix) (n : Bytes)
      → parse_question request ≡ some (question, end)
      → IsCovered lib identity source question.name ranges n
      → (respond
          (some (λ from q. (decide mappings lib identity nodes from q s).0))
          request
          source).1
        ≡ false
  unfolding respond
  respond_covered nodes s request source question end ranges n e c =
      let d = (decide mappings lib identity nodes source question s).0 in
      let asked = IsCovered-dns_request lib identity source question.name ranges n c in
      let decision : Addr → Question → Decision =
        λ from q. (decide mappings lib identity nodes from q s).0 in
      subst (λ p. (respond_to (some decision) request source p).1 ≡ false) (sym e)
        (unfold respond_to in
          answer-forwards request end question d.outcome d.address d.ptr_name
          ∙ decide-forwards nodes source question s ranges n asked)
