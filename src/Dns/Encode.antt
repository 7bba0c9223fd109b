-- ===== src/Dns/Encode.antt =====
-- Reading back what encodeName writes.
use ts_domain_gateway.Common.{
  ℕ, zero, suc, ◌+◌, ◌*◌, ◌%◌, ◌≤◌, ◌<◌, ◌≡◌, ◌∙◌, refl, sym, ap, List, [], ◌∷◌, ◌++◌, Option, some,
  length, take, drop, get_or, arith, All, length-append, drop-append, take-append, append_assoc,
  append-nil, nat_eq,
}
use ts_domain_gateway.GoText.{Bytes, dot, split, join, trim_suffix}
use ts_domain_gateway.GoText.Split.{join-split, length-split}
use ts_domain_gateway.Dns.{
  Question, u16_at, read_labels, parse_question, encode_label, encode_labels, encode_name,
}

abbrev pub IsWireLabel : Bytes → Type 0
IsWireLabel label = (1 ≤ length label) × (length label ≤ 63)

get_or-append : (s t : Bytes) (x d : ℕ) → get_or (s ++ x ∷ t) (length s) d ≡ x
get_or-append [] t x d = refl
get_or-append (c ∷ s) t x d = get_or-append s t x d

-- One round of the loop, at a label that fits.
read_step :
    (fuel : ℕ) (request : Bytes) (p n : ℕ) (label : Bytes) (labels : List Bytes)
    → get_or request p 0 ≡ n
    → take n (drop (p + 1) request) ≡ label
    → 1 ≤ n
    → n ≤ 63
    → p + 1 + n ≤ length request
    → read_labels (suc fuel) request p labels
      ≡ read_labels fuel request (p + 1 + n) (labels ++ label ∷ [])
unfolding read_labels
read_step fuel request p n label labels g t lo hi room =
    let at : p < length request = omega arith in rw (g, t) (ground arith)

read_stop :
    (fuel : ℕ) (request : Bytes) (p : ℕ) (labels : List Bytes)
    → get_or request p 0 ≡ 0
    → p + 1 ≤ length request
    → read_labels (suc fuel) request p labels ≡ some (labels, p + 1)
unfolding read_labels
read_stop fuel request p labels g room = rw g (ground arith)

taken :
    (pre label rest : Bytes) (n : ℕ)
    → take (length label) (drop (length pre + 1) (pre ++ n ∷ (label ++ rest))) ≡ label
taken pre label rest n =
    let here : length pre + 1 ≡ length (pre ++ n ∷ []) =
      omega (arith, length-append pre (n ∷ [])) in
    rw
      (
        here,
        ← append_assoc pre (n ∷ []) (label ++ rest),
        drop-append (pre ++ n ∷ []) (label ++ rest),
      )
      (take-append label rest)

found_eq :
    {a b : List Bytes} {m n : ℕ}
    → a ≡ b
    → m ≡ n
    → ◌≡◌ {A = Option (List Bytes × ℕ)} (some (a, m)) (some (b, n))
found_eq e f = cc

read_encoded :
    (ls : List Bytes) (fuel : ℕ) (request pre tail : Bytes) (labels : List Bytes)
    → request ≡ pre ++ (encode_labels ls ++ 0 ∷ tail)
    → All IsWireLabel ls
    → length ls < fuel
    → read_labels fuel request (length pre) labels
      ≡ some (labels ++ ls, length pre + length (encode_labels ls) + 1)
unfolding encode_labels
read_encoded ls zero request pre tail labels e h f = absurd (omega arith)
read_encoded [] (suc fuel) request pre tail labels e h f =
    let size = ap length e ∙ length-append pre (0 ∷ tail) in
    read_stop fuel request (length pre) labels
      (ap (λ t. get_or t (length pre) 0) e ∙ get_or-append pre tail 0 0) (omega (arith, size))
    ∙ found_eq (sym (append-nil labels)) (omega arith)
read_encoded (l ∷ ls) (suc fuel) request pre tail labels e h f =
    let rest = encode_labels ls ++ 0 ∷ tail in
    let small : length l % 256 ≡ length l = omega (arith, h.0) in
    let flat : request ≡ pre ++ length l % 256 ∷ (l ++ rest) =
      e ∙ ap (◌++◌ pre) (append_assoc (encode_label l) (encode_labels ls) (0 ∷ tail)) in
    let next : request ≡ (pre ++ encode_label l) ++ rest =
      flat ∙ sym (append_assoc pre (encode_label l) rest) in
    let size = ap length next ∙ length-append (pre ++ encode_label l) rest in
    let front = length-append pre (encode_label l) in
    let step =
      read_step fuel request (length pre) (length l) l labels
        (ap (λ t. get_or t (length pre) 0) flat
          ∙ get_or-append pre (l ++ rest) (length l % 256) 0
          ∙ small)
        (ap (λ t. take (length l) (drop (length pre + 1) t)) flat
          ∙ taken pre l rest (length l % 256))
        h.0.0 h.0.1 (omega (arith, size, front)) in
    let pos : length pre + 1 + length l ≡ length (pre ++ encode_label l) = omega (arith, front) in
    step
    ∙ ap (λ q. read_labels fuel request q (labels ++ l ∷ [])) pos
    ∙ read_encoded ls fuel request (pre ++ encode_label l) tail (labels ++ l ∷ []) next h.1
        (omega arith)
    ∙ found_eq (append_assoc labels (l ∷ []) ls)
        (omega (arith, front, length-append l (encode_labels ls)))

get_or-front : (s t : Bytes) (i d : ℕ) → i < length s → get_or (s ++ t) i d ≡ get_or s i d
get_or-front [] t i d h = absurd (omega arith)
get_or-front (c ∷ s) t zero d h = refl
get_or-front (c ∷ s) t (suc i) d h = get_or-front s t i d (omega arith)

u16_at-append :
    (s rest : Bytes) (hi lo : ℕ) → u16_at (s ++ hi ∷ lo ∷ rest) (length s) ≡ hi * 256 + lo
u16_at-append s rest hi lo =
    let high = get_or-append s (lo ∷ rest) hi 0 in
    let size : length s + 1 ≡ length (s ++ hi ∷ []) = omega (arith, length-append s (hi ∷ [])) in
    let low =
      ap (λ i. get_or (s ++ hi ∷ lo ∷ rest) i 0) size
      ∙ ap (λ t. get_or t (length (s ++ hi ∷ [])) 0) (sym (append_assoc s (hi ∷ []) (lo ∷ rest)))
      ∙ get_or-append (s ++ hi ∷ []) rest lo 0 in
    omega (arith, high, low)

parse_with :
    (request : Bytes) (labels : List Bytes) (p : ℕ)
    → 17 ≤ length request
    → u16_at request 4 ≡ 1
    → read_labels (length request) request 12 [] ≡ some (labels, p)
    → p + 4 ≤ length request
    → parse_question request
      ≡ some (record { name = join labels (dot ∷ []); type_code = u16_at request p }, p + 4)
unfolding parse_question
parse_with request labels p long one found room = rw found (ground arith)

question_eq :
    {a b : Bytes} {s t m n : ℕ}
    → a ≡ b
    → s ≡ t
    → m ≡ n
    → ◌≡◌ {A = Option (Question × ℕ)}
        (some (record { name = a; type_code = s }, m))
        (some (record { name = b; type_code = t }, n))
question_eq e f g = cc

length-encode_labels :
    (ls : List Bytes) → All IsWireLabel ls → length ls + length ls ≤ length (encode_labels ls)
unfolding encode_labels
length-encode_labels [] h = omega arith
length-encode_labels (l ∷ ls) h =
    omega (arith, length-encode_labels ls h.1, length-append l (encode_labels ls), h.0)

-- A packet with one question, whose name has labels of 1 to 63 bytes and is written by encodeName, is
-- parsed to that name without its trailing dot, to the question's type, and to the position behind its
-- class, whatever follows.
pub parse_question-encode_name :
    (header name rest : Bytes) (t1 t2 c1 c2 : ℕ)
    → length header ≡ 12
    → u16_at header 4 ≡ 1
    → All IsWireLabel (split (trim_suffix name (dot ∷ [])) dot)
    → parse_question (header ++ (encode_name name ++ t1 ∷ t2 ∷ c1 ∷ c2 ∷ rest))
      ≡ some (
        record { name = trim_suffix name (dot ∷ []); type_code = t1 * 256 + t2 },
        12 + length (encode_name name) + 4,
      )
unfolding encode_name
parse_question-encode_name header name rest t1 t2 c1 c2 twelve one labels =
    let trimmed = trim_suffix name (dot ∷ []) in
    let ls = split trimmed dot in
    let tail = t1 ∷ t2 ∷ c1 ∷ c2 ∷ rest in
    let request = header ++ (encode_name name ++ tail) in
    let enc = encode_labels ls in
    let flat : request ≡ header ++ (enc ++ 0 ∷ tail) =
      ap (◌++◌ header) (append_assoc enc (0 ∷ []) tail) in
    let joined : request ≡ (header ++ encode_name name) ++ tail =
      sym (append_assoc header (encode_name name) tail) in
    let size = ap length joined ∙ length-append (header ++ encode_name name) tail in
    let front = length-append header (encode_name name) in
    let name_size = length-append enc (0 ∷ []) in
    let several = length-split trimmed dot in
    let room = length-encode_labels ls labels in
    let at : length header + length enc + 1 ≡ length (header ++ encode_name name) =
      omega (arith, front, name_size) in
    let found : read_labels (length request) request 12 []
        ≡ some (ls, length (header ++ encode_name name)) =
      ap (λ p. read_labels (length request) request p []) (sym twelve)
      ∙ read_encoded ls (length request) request header tail [] flat labels
          (omega (arith, size, front, name_size, room))
      ∙ found_eq refl at in
    let counted : u16_at request 4 ≡ 1 = omega (
      arith,
      get_or-front header (encode_name name ++ tail) 4 0 (omega arith),
      get_or-front header (encode_name name ++ tail) 5 0 (omega arith),
      one,
    ) in
    parse_with request ls (length (header ++ encode_name name))
      (omega (arith, size, front, name_size, room, several)) counted found (omega (arith, size))
    ∙ question_eq (join-split trimmed dot)
        (ap (λ t. u16_at t (length (header ++ encode_name name))) joined
          ∙ u16_at-append (header ++ encode_name name) (c1 ∷ c2 ∷ rest) t1 t2)
        (omega (arith, front))
