-- ===== src/Name/Match.antt =====
-- What `match` accepts, stated by concatenation.
use ts_domain_gateway.Common.{
  ◌+◌, ◌≡◌, ◌↔◌, refl, sym, ap, true, false, ◌∷◌, ◌++◌, arith, drop, eq_iff, nat_eq, list_eq,
  Bool-cases, inl, inr,
}
use ts_domain_gateway.GoText.{Bytes, dot, has_prefix, has_suffix, count}
use ts_domain_gateway.GoText.Split.{Lacks, count-append, count_zero-Lacks, Lacks-count_zero}
use ts_domain_gateway.GoText.Affix.{has_suffix-append, has_suffix-split, has_prefix-split}
use ts_domain_gateway.Name.{match, star_dot, stars_dot}

-- A pattern matches itself; `*.suffix` any one label in front of the suffix; `**.suffix` any text.
pub data Matches : Bytes → Bytes → Type 0 where
  exact : (p : Bytes) → has_prefix p star_dot ≡ false → has_prefix p stars_dot ≡ false → Matches p p
  one :
      (label suffix : Bytes)
      → Lacks dot label
      → Matches (star_dot ++ suffix) (label ++ dot ∷ suffix)
  many : (labels suffix : Bytes) → Matches (stars_dot ++ suffix) (labels ++ dot ∷ suffix)

-- The same over variable indices.
Matches-of : {p n p' n' : Bytes} → Matches p' n' → p' ≡ p → n' ≡ n → Matches p n
Matches-of m e f = rw (← e, ← f) m

suffix_sound :
    (name suffix : Bytes)
    → has_suffix name (dot ∷ suffix) ≡ true
    → (front : Bytes) × (name ≡ front ++ dot ∷ suffix)
suffix_sound name suffix h = (_, has_suffix-split name (dot ∷ suffix) h)

count-dot : (s : Bytes) → count (dot ∷ s) dot ≡ count s dot + 1
unfolding count
count-dot s = omega arith

count_front :
    (front suffix : Bytes)
    → count (front ++ dot ∷ suffix) dot ≡ count front dot + (count suffix dot + 1)
count_front front suffix = omega (arith, count-append front (dot ∷ suffix) dot, count-dot suffix)

match_sound : (p n : Bytes) → match p n ≡ true → Matches p n
unfolding match
match_sound p n h = elim (Bool-cases (has_prefix p stars_dot)) [
  | inl two ↦
      let (labels, e) = suffix_sound n (drop 3 p) (ground arith) in
      Matches-of (many labels (drop 3 p)) (sym (has_prefix-split p stars_dot two)) (sym e)
  | inr not_two ↦ elim (Bool-cases (has_prefix p star_dot)) [
    | inl single ↦
        let (label, e) = suffix_sound n (drop 2 p) (ground arith) in
        let counted : count n dot ≡ count (drop 2 p) dot + 1 = ground arith in
        let lacks =
          count_zero-Lacks label dot
            (omega (arith, ap (λ t. count t dot) e, counted, count_front label (drop 2 p))) in
        Matches-of (one label (drop 2 p) lacks) (sym (has_prefix-split p star_dot single)) (sym e)
    | inr not_one ↦ Matches-of (exact p not_one not_two) refl (ground (arith, eq_iff p n))
  ]
]

match_complete : {p n : Bytes} → Matches p n → match p n ≡ true
unfolding match
match_complete (exact p a b) = ground (arith, eq_iff p p)
match_complete (one label suffix l) = ground (
  arith,
  has_suffix-append label (dot ∷ suffix),
  count_front label suffix,
  Lacks-count_zero label dot l,
)
match_complete (many labels suffix) = has_suffix-append labels (dot ∷ suffix)

-- A pattern accepts a name exactly when the name is the pattern, or the pattern is a wildcard and
-- the name is its suffix behind one label, or behind any text for the double wildcard.
pub match_iff : (pattern name : Bytes) → (match pattern name ≡ true) ↔ Matches pattern name
match_iff pattern name = (match_sound pattern name, match_complete)
