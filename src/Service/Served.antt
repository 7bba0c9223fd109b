-- ===== src/Service/Served.antt =====
-- The DNS role as a whole: Serve with the callback of runDNS.
use ts_domain_gateway.Common.{ℕ, ◌≡◌, Bool, true, List, Option, some, All, arith}
use ts_domain_gateway.GoText.{Bytes}
use ts_domain_gateway.Net.{Addr, Prefix}
use ts_domain_gateway.Dns.{Question, Decision, parse_question}
use ts_domain_gateway.Dns.Serve.{Event, serve, idle, handle}
use ts_domain_gateway.Dns.Serve.Relayed.{serve-All}
use ts_domain_gateway.Dns.Source.{Client, source_ip}
use ts_domain_gateway.Tags.{TaggedNode}
use ts_domain_gateway.Service.{Library, Identity, Mappings, State}
use ts_domain_gateway.Service.Callback.{decide}
use ts_domain_gateway.Service.Outcomes.{IsCovered, respond_covered}

-- What a question meets besides the mappings: what the tailnet says of its source and of the tags.
pub record Tailnet : Type 0 where
  pub identity : Identity
  pub nodes : Option (List TaggedNode)

module _ (mappings : Mappings) (lib : Library) (parse_addr_port : Bytes → Option Addr) where
  abbrev pub callback : Tailnet → Addr → Question → State mappings → Decision × State mappings
  callback t from question s = decide mappings lib t.identity t.nodes from question s

  -- The request asks for a name that the policy of its client covers, as the tailnet says.
  abbrev pub AsksCovered : Tailnet × Bytes × Client → Type 0
  AsksCovered (t, request, client) =
      (question : Question) × (end : ℕ) × (ranges : List Prefix) × (n : Bytes) × (parse_question
          request
        ≡ some (question, end))
      × IsCovered lib t.identity (source_ip parse_addr_port client) question.name ranges n

  handle-AsksCovered :
      (has_upstream : Bool) (t : Tailnet) (request : Bytes) (client : Client) (s : State mappings)
      → (handle callback (source_ip parse_addr_port) has_upstream t request client s).0.1 ≡ true
      → ¬ AsksCovered (t, request, client)
  unfolding handle
  handle-AsksCovered has_upstream t request client s forward
        (question, end, ranges, n, parsed, covered) =
      let kept =
        respond_covered mappings lib t.identity t.nodes s request (source_ip parse_addr_port client)
          question end ranges n parsed covered in
      absurd (ground (arith, kept, forward))

  -- Whatever the sockets do and in whatever order the handlers run, no request for a name that the
  -- policy of its client covers, at the moment when its handler asks, is ever written to the upstream,
  -- unless the client is a gateway or the check whether it is one fails.
  pub serve-AsksCovered :
      (has_upstream : Bool) (events : List (Event Tailnet Client)) (held : State mappings)
      → All
          (λ relayed. ¬ AsksCovered relayed)
          (serve callback (source_ip parse_addr_port) has_upstream events (idle held)).relayed
  serve-AsksCovered has_upstream events held =
      serve-All callback (source_ip parse_addr_port) has_upstream (λ relayed. ¬ AsksCovered relayed)
        (handle-AsksCovered has_upstream) events (idle held) tt
