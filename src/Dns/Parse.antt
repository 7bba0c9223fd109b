-- ===== src/Dns/Parse.antt =====
-- The positions in the packet that parseQuestion finds, and its fuel.
use ts_domain_gateway.Common.{
  ℕ, zero, suc, ◌+◌, ◌≤◌, ◌<◌, ◌≡◌, refl, List, [], ◌∷◌, ◌++◌, some, length, take, drop, get_or,
  arith, Option-cases, inl, inr, nat_eq,
}
use ts_domain_gateway.GoText.{Bytes}
use ts_domain_gateway.Dns.{Question, read_labels, parse_question}

read_labels_bounds :
    (fuel : ℕ) (request : Bytes) (p : ℕ) (labels found : List Bytes) (behind : ℕ)
    → read_labels fuel request p labels ≡ some (found, behind)
    → (p + 1 ≤ behind) × (behind ≤ length request)
unfolding read_labels
read_labels_bounds zero request p labels found behind h = ground arith
read_labels_bounds (suc fuel) request p labels found behind h =
    let n = get_or request p 0 in
    ground (
      arith,
      h,
      read_labels_bounds fuel request (p + 1 + n) (labels ++ take n (drop (p + 1) request) ∷ [])
          found behind,
    )

-- The end of a question lies inside the packet, behind the header, a name, its type and its class:
-- no slice that Respond takes of the packet is out of range.
pub parse_question_bounds :
    (request : Bytes) {question : Question} {end : ℕ}
    → parse_question request ≡ some (question, end)
    → (17 ≤ end) × (end ≤ length request)
unfolding parse_question
parse_question_bounds request {question} {end} h =
    elim (Option-cases (read_labels (length request) request 12 [])) [
      | inl e ↦ absurd (ground (arith, e, h))
      | inr ((labels, p), e) ↦
          ground (arith, e, h, read_labels_bounds (length request) request 12 [] labels p e)
    ]

-- The loop is done within the packet's length: any two amounts of fuel above what is left of the
-- packet give the same result.
pub read_labels_fuel :
    (f g : ℕ) (request : Bytes) (p : ℕ) (labels : List Bytes)
    → length request < f + p
    → length request < g + p
    → read_labels f request p labels ≡ read_labels g request p labels
unfolding read_labels
read_labels_fuel zero zero request p labels h k = refl
read_labels_fuel zero (suc g) request p labels h k = ground arith
read_labels_fuel (suc f) zero request p labels h k = ground arith
read_labels_fuel (suc f) (suc g) request p labels h k =
    let n = get_or request p 0 in
    ground (
      arith,
      read_labels_fuel f g request (p + 1 + n) (labels ++ take n (drop (p + 1) request) ∷ [])
          (omega arith) (omega arith),
    )
