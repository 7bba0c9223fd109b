-- ===== src/GoText/Affix.antt =====
-- Laws of prefixes, suffixes and cuts.
use ts_domain_gateway.Common.{
  ℕ, ◌-◌, ◌≡◌, refl, true, [], ◌∷◌, ◌++◌, arith, length, length-append, drop, take, drop-append,
  take-append, take-append-drop, eq_iff, nat_eq, list_eq, some, none, Option-cases, inl, inr,
}
use ts_domain_gateway.GoText.{Bytes, has_prefix, has_suffix, trim_suffix, cut}
use ts_domain_gateway.GoText.Split.{Lacks}

pub has_prefix-append : (p s : Bytes) → has_prefix (p ++ s) p ≡ true
unfolding has_prefix
has_prefix-append [] s = ground arith
has_prefix-append (x ∷ p) s = ground (arith, has_prefix-append p s)

pub has_prefix-split : (s p : Bytes) → has_prefix s p ≡ true → s ≡ p ++ drop (length p) s
unfolding has_prefix
has_prefix-split s [] h = refl
has_prefix-split [] (x ∷ p) h = ground arith
has_prefix-split (c ∷ s) (x ∷ p) h = ground (arith, has_prefix-split s p)

pub has_suffix-append : (s t : Bytes) → has_suffix (s ++ t) t ≡ true
unfolding has_suffix
has_suffix-append s t =
    let n : length (s ++ t) - length t ≡ length s = omega (arith, length-append s t) in
    rw (n, drop-append s t) (ground (arith, length-append s t, eq_iff t t))

pub has_suffix-split : (s t : Bytes) → has_suffix s t ≡ true → s ≡ take (length s - length t) s ++ t
unfolding has_suffix
has_suffix-split s t h =
    ground
      (arith, eq_iff (drop (length s - length t) s) t, take-append-drop (length s - length t) s)

pub trim_suffix-append : (s t : Bytes) → trim_suffix (s ++ t) t ≡ s
unfolding trim_suffix
trim_suffix-append s t =
    let n : length (s ++ t) - length t ≡ length s = omega (arith, length-append s t) in
    ground (arith, has_suffix-append s t, take-append s t, n)

-- A cut splits at the first separator.
pub cut_sound :
    (s : Bytes) (sep : ℕ) {before after : Bytes}
    → cut s sep ≡ some (before, after)
    → (s ≡ before ++ sep ∷ after) × Lacks sep before
unfolding cut
cut_sound [] sep h = ground arith
cut_sound (c ∷ s) sep {before} {after} h = elim (Option-cases (cut s sep)) [
  | inl e ↦ ground arith
  | inr ((b, a), e) ↦ let ih = cut_sound s sep e in ground arith
]

pub cut_complete :
    (before after : Bytes) (sep : ℕ)
    → Lacks sep before
    → cut (before ++ sep ∷ after) sep ≡ some (before, after)
unfolding cut
cut_complete [] after sep h = ground arith
cut_complete (c ∷ before) after sep h = ground (arith, cut_complete before after sep)

pub cut-none : (s : Bytes) (sep : ℕ) → Lacks sep s → cut s sep ≡ none
unfolding cut
cut-none [] sep h = refl
cut-none (c ∷ s) sep h = ground (arith, cut-none s sep h.1)
