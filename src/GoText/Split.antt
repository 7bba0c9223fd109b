-- ===== src/GoText/Split.antt =====
-- Laws of `split` and `join`.
use mathlib.Core.List.{cons-ne-nil}
use ts_domain_gateway.Common.{
  ℕ, ◌+◌, ◌≡◌, ◌≢◌, refl, List, [], ◌∷◌, ◌++◌, arith, length, All, false, nat_eq, list_eq,
}
use ts_domain_gateway.GoText.{Bytes, cons_head, split, join, count, contains}

abbrev pub Lacks : ℕ → Bytes → Type 0
Lacks b = All (λ c. c ≢ b)

pub split-ne-nil : (s : Bytes) (sep : ℕ) → split s sep ≢ []
unfolding split
split-ne-nil [] sep = ground arith
split-ne-nil (c ∷ s) sep = ground (arith, split-ne-nil s sep)

join-cons_head :
    (c : ℕ) (ws : List Bytes) (sep : Bytes) → ws ≢ [] → join (cons_head c ws) sep ≡ c ∷ join ws sep
unfolding join
join-cons_head c [] sep h = absurd (h refl)
join-cons_head c (w ∷ []) sep h = refl
join-cons_head c (w ∷ v ∷ ws) sep h = refl

join-nil_cons : (ws : List Bytes) (sep : Bytes) → ws ≢ [] → join ([] ∷ ws) sep ≡ sep ++ join ws sep
unfolding join
join-nil_cons [] sep h = absurd (h refl)
join-nil_cons (w ∷ ws) sep h = refl

-- Joining the parts of a split gives the text back.
pub join-split : (s : Bytes) (sep : ℕ) → join (split s sep) (sep ∷ []) ≡ s
unfolding split
join-split [] sep = unfold join in refl
join-split (c ∷ s) sep = ground (
  arith,
  join-cons_head c (split s sep) (sep ∷ []),
  join-nil_cons (split s sep) (sep ∷ []),
  split-ne-nil s sep,
  join-split s sep,
)

-- No part of a split holds the separator.
pub split-Lacks : (s : Bytes) (sep : ℕ) → All (Lacks sep) (split s sep)
unfolding split
split-Lacks [] sep = (tt, tt)
split-Lacks (c ∷ s) sep = ground (arith, split-Lacks s sep)

pub split-Lacks_self : (s : Bytes) (sep : ℕ) → Lacks sep s → split s sep ≡ s ∷ []
unfolding split
split-Lacks_self [] sep h = refl
split-Lacks_self (c ∷ s) sep h = ground (arith, split-Lacks_self s sep)

pub split-append_sep :
    (w s : Bytes) (sep : ℕ) → Lacks sep w → split (w ++ sep ∷ s) sep ≡ w ∷ split s sep
unfolding split
split-append_sep [] s sep h = ground arith
split-append_sep (c ∷ w) s sep h = ground (arith, split-append_sep w s sep)

-- Splitting a join gives the parts back, if there is a part and none holds the separator.
pub split-join :
    (ws : List Bytes) (sep : ℕ) → ws ≢ [] → All (Lacks sep) ws → split (join ws (sep ∷ [])) sep ≡ ws
unfolding join
split-join [] sep h _ = absurd (h refl)
split-join (w ∷ []) sep _ h = split-Lacks_self w sep h.0
split-join (w ∷ v ∷ ws) sep _ h = rw (
  split-append_sep w (join (v ∷ ws) (sep ∷ [])) sep h.0,
  split-join (v ∷ ws) sep (cons-ne-nil v ws) h.1,
)

length-cons_head : (c : ℕ) (ws : List Bytes) → ws ≢ [] → length (cons_head c ws) ≡ length ws
length-cons_head c [] h = absurd (h refl)
length-cons_head c (w ∷ ws) h = refl

pub length-split : (s : Bytes) (sep : ℕ) → length (split s sep) ≡ count s sep + 1
unfolding split count
length-split [] sep = omega arith
length-split (c ∷ s) sep =
    ground (arith, length-split s sep, length-cons_head c (split s sep), split-ne-nil s sep)

pub count-append : (s t : Bytes) (b : ℕ) → count (s ++ t) b ≡ count s b + count t b
unfolding count
count-append [] t b = omega arith
count-append (c ∷ s) t b = ground (arith, count-append s t b)

pub count_zero-Lacks : (s : Bytes) (b : ℕ) → count s b ≡ 0 → Lacks b s
unfolding count
count_zero-Lacks [] b h = tt
count_zero-Lacks (c ∷ s) b h = ground (arith, count_zero-Lacks s b)

pub Lacks-count_zero : (s : Bytes) (b : ℕ) → Lacks b s → count s b ≡ 0
unfolding count
Lacks-count_zero [] b h = refl
Lacks-count_zero (c ∷ s) b h = ground (arith, Lacks-count_zero s b)

pub contains-false-Lacks : (s : Bytes) (b : ℕ) → contains s b ≡ false → Lacks b s
unfolding contains
contains-false-Lacks [] b h = tt
contains-false-Lacks (c ∷ s) b h = ground (arith, contains-false-Lacks s b)

pub Lacks-contains-false : (s : Bytes) (b : ℕ) → Lacks b s → contains s b ≡ false
unfolding contains
Lacks-contains-false [] b h = refl
Lacks-contains-false (c ∷ s) b h = ground (arith, Lacks-contains-false s b)
