-- ===== src/Name/Normal.antt =====
-- NormalName, applied once and twice, with and without a trailing dot.
use ts_domain_gateway.Common.{
  ℕ, ◌≡◌, ◌≢◌, refl, true, false, List, [], ◌∷◌, ◌++◌, map, arith, length, All, nat_eq, list_eq,
  Bool-cases, inl, inr, take, ◌-◌, All-append, ◌<◌,
}
use ts_domain_gateway.GoText.{
  Bytes, dot, has_suffix, split, is_ascii, to_lower, lower_byte, cons_head, join,
}
use ts_domain_gateway.GoText.Split.{split-ne-nil}
use ts_domain_gateway.GoText.Affix.{has_suffix-split, trim_suffix-append}
use ts_domain_gateway.Name.{valid_name, normal_name}
use ts_domain_gateway.Name.Valid.{IsLdh, IsLabel, valid_name_iff, split_labels}

cons_head-append :
    (c : ℕ) (ws vs : List Bytes) → ws ≢ [] → cons_head c (ws ++ vs) ≡ cons_head c ws ++ vs
cons_head-append c [] vs h = absurd (h refl)
cons_head-append c (w ∷ ws) vs h = refl

pub split_trailing : (t : Bytes) (sep : ℕ) → split (t ++ sep ∷ []) sep ≡ split t sep ++ [] ∷ []
unfolding split
split_trailing [] sep = ground arith
split_trailing (c ∷ t) sep =
    ground
      (arith, split_trailing t sep, cons_head-append c (split t sep) ([] ∷ []), split-ne-nil t sep)

no_empty-IsLabel : (ws : List Bytes) → ¬ All IsLabel (ws ++ [] ∷ [])
no_empty-IsLabel [] h = absurd (omega (arith, h.0.nonempty))
no_empty-IsLabel (w ∷ ws) h = no_empty-IsLabel ws h.1

-- A valid name does not end in a dot.
valid_name-no_dot : (s : Bytes) → valid_name s ≡ true → has_suffix s (dot ∷ []) ≡ false
valid_name-no_dot s h = elim (Bool-cases (has_suffix s (dot ∷ []))) [
  | inr e ↦ e
  | inl e ↦
      let host = (valid_name_iff s).0 h in
      let labels = split_labels s host in
      absurd (
        no_empty-IsLabel (split (take (length s - length (dot ∷ [])) s) dot) (
          rw
            (
              ← split_trailing (take (length s - length (dot ∷ [])) s) dot,
              ← has_suffix-split s (dot ∷ []) e,
              labels,
            )
            host.valid))
]

-- Bytes that `to_lower` leaves alone.
abbrev pub IsLow : ℕ → Type 0
IsLow c = (c < 128) × (lower_byte c ≡ c)

IsLow-of_ldh : (w : Bytes) → All IsLdh w → All IsLow w
IsLow-of_ldh [] h = tt
IsLow-of_ldh (c ∷ w) h = (ground arith, IsLow-of_ldh w h.1)

IsLow-join : (ws : List Bytes) → All IsLabel ws → All IsLow (join ws (dot ∷ []))
unfolding join
IsLow-join [] h = tt
IsLow-join (w ∷ []) h = IsLow-of_ldh w h.0.bytes
IsLow-join (w ∷ v ∷ ws) h =
    All-append IsLow w _ (IsLow-of_ldh w h.0.bytes) ((omega arith, refl), IsLow-join (v ∷ ws) h.1)

is_ascii-low : (s : Bytes) → All IsLow s → (is_ascii s ≡ true) × (map lower_byte s ≡ s)
unfolding is_ascii
is_ascii-low [] h = (refl, refl)
is_ascii-low (c ∷ s) h = let ih = is_ascii-low s h.1 in ground arith

pub to_lower-low : (wide : Bytes → Bytes) (s : Bytes) → All IsLow s → to_lower wide s ≡ s
unfolding to_lower
to_lower-low wide s h = ground (arith, is_ascii-low s h)

-- Normalising a valid name, with or without its trailing dot, gives the name back.
pub normal_name-valid :
    (wide : Bytes → Bytes) (s : Bytes)
    → valid_name s ≡ true
    → (normal_name wide s ≡ (s, true)) × (normal_name wide (s ++ dot ∷ []) ≡ (s, true))
unfolding normal_name
normal_name-valid wide s h =
    let host = (valid_name_iff s).0 h in
    let low = rw (← host.spelled) at (IsLow-join host.labels host.valid) in
    let same = to_lower-low wide s low in
    let bare = valid_name-no_dot s h in
    let trimmed = trim_suffix-append s (dot ∷ []) in (ground arith, ground arith)

-- Normalising is idempotent: a name that was accepted once is accepted again, unchanged, whatever
-- Unicode's lower case does to text that is not ASCII.
pub normal_name_idempotent :
    (wide : Bytes → Bytes) (s : Bytes) {n : Bytes}
    → normal_name wide s ≡ (n, true)
    → (valid_name n ≡ true) × (normal_name wide n ≡ (n, true))
unfolding normal_name
normal_name_idempotent wide s {n} h =
    let valid : valid_name n ≡ true = ground arith in
    (valid, unfold normal_name in (normal_name-valid wide n valid).0)
