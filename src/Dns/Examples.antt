-- ===== src/Dns/Examples.antt =====
-- A query for the address of a.corp with an additional record.
use ts_domain_gateway.Common.{
  ℕ, ◌+◌, ◌*◌, ◌≤◌, ◌≡◌, List, ◌∷◌, ◌++◌, [], refl, Bool, true, false, some, arith, length, All,
  ◌==◌, nat_eq,
}
use ts_domain_gateway.GoText.{Bytes, codes, dot, split, join, trim_suffix, has_suffix}
use ts_domain_gateway.Net.{Addr, invalid, v4}
use ts_domain_gateway.Dns.{
  Question, Decision, address, read_labels, parse_question, address_answer, encode_name, answer,
  respond, respond_to,
}
use ts_domain_gateway.Dns.Parse.{parse_question_bounds, read_labels_fuel}
use ts_domain_gateway.Dns.Encode.{IsWireLabel, parse_question-encode_name}
use ts_domain_gateway.Dns.Serve.{Event, read, read_error, start, run, serve, idle}
use ts_domain_gateway.Dns.Serve.Bounds.{IsBounded, serve-IsBounded}
use ts_domain_gateway.Dns.Answer.{IsReply, IsResponse, address_answer-invalid, respond-IsResponse}

abbrev head : Bytes
head = 18 ∷ 52 ∷ 1 ∷ 0 ∷ 0 ∷ 1 ∷ 0 ∷ 0 ∷ 0 ∷ 0 ∷ 0 ∷ 1 ∷ []

abbrev query : Bytes
query = head ++ 1 ∷ b'a' ∷ 4 ∷ b'c' ∷ b'o' ∷ b'r' ∷ b'p' ∷ 0 ∷ 0 ∷ 1 ∷ 0 ∷ 1 ∷ 0 ∷ []

abbrev asked : Question
asked = record { name = codes "a.corp"; type_code = 1 }

parse_run : parse_question query ≡ some (asked, 24)
unfolding parse_question read_labels join
parse_run = refl

parse_question_bounds_example : (17 ≤ 24) × (24 ≤ length query)
parse_question_bounds_example = parse_question_bounds query parse_run

read_labels_fuel_example : read_labels 20 query 12 [] ≡ read_labels 99 query 12 []
read_labels_fuel_example = read_labels_fuel 20 99 query 12 [] (omega arith) (omega arith)

wire_labels : All IsWireLabel (split (trim_suffix (codes "a.corp.") (dot ∷ [])) dot)
unfolding split trim_suffix has_suffix
wire_labels = ((omega arith, omega arith), ((omega arith, omega arith), tt))

parse_question-encode_name_example :
    parse_question (head ++ (encode_name (codes "a.corp.") ++ 0 ∷ 1 ∷ 0 ∷ 1 ∷ 7 ∷ []))
    ≡ some (
      record { name = trim_suffix (codes "a.corp.") (dot ∷ []); type_code = 0 * 256 + 1 },
      12 + length (encode_name (codes "a.corp.")) + 4,
    )
parse_question-encode_name_example =
    parse_question-encode_name head (codes "a.corp.") (7 ∷ []) 0 1 0 1 refl refl wire_labels

inside : 24 ≤ length query
inside = omega arith

behind : 12 ≤ 24
behind = omega arith

address_answer-invalid_example :
    IsReply query 24 0 (address_answer query 24 invalid)
    × (length (address_answer query 24 invalid) ≡ 24)
address_answer-invalid_example = address_answer-invalid query 24 behind inside

-- A callback that gives every name one address.
abbrev fixed : Addr → Question → Decision
fixed source question = record { outcome = address; address = v4 167772161; ptr_name = [] }

respond_run :
    respond (some fixed) query invalid ≡ (some (address_answer query 24 (v4 167772161)), false)
unfolding respond respond_to parse_question read_labels join answer
respond_run = refl

respond-IsResponse_example :
    IsResponse query (address_answer query 24 (v4 167772161)) × (false ≡ false)
respond-IsResponse_example = respond-IsResponse (some fixed) query invalid respond_run

-- One state, one address for every name, and clients that are numbers.
abbrev always : ℕ → Addr → Question → ℕ → Decision × ℕ
always e source question s = (fixed source question, s + 1)

abbrev home : ℕ → Addr
home c = v4 c

abbrev arrivals : List (Event ℕ ℕ)
arrivals =
    read query 1 ∷ start ∷ read (7 ∷ []) 2 ∷ start ∷ run 1 0 true ∷ run 0 0 true ∷ read_error ∷ []

abbrev is_first : ℕ → Bool
is_first c = c == 1

serve-IsBounded_example : IsBounded is_first (serve always home true arrivals (idle 0))
serve-IsBounded_example = serve-IsBounded always home true is_first arrivals 0

serve_run : length (serve always home true arrivals (idle 0)).sent ≡ 1
unfolding serve respond respond_to parse_question read_labels join answer
serve_run = refl
