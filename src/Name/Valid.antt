-- ===== src/Name/Valid.antt =====
-- What `valid_name` accepts.
use ts_domain_gateway.Common.{
  ℕ, ◌-◌, ◌≤◌, ◌≡◌, ◌≢◌, ◌↔◌, ◌⊎◌, refl, sym, ap, true, List, [], ◌∷◌, arith, length, get_or, all,
  All, nat_eq, list_eq,
}
use ts_domain_gateway.GoText.{Bytes, dot, contains, split, join, count}
use ts_domain_gateway.GoText.Split.{Lacks, join-split, split-join, length-split}
use ts_domain_gateway.Name.{hyphen, valid_byte, valid_label, valid_name}

-- A lower-case letter, a digit or a hyphen.
abbrev pub IsLdh : ℕ → Type 0
IsLdh c = ((b'a' ≤ c) × (c ≤ b'z')) ⊎ ((b'0' ≤ c) × (c ≤ b'9')) ⊎ (c ≡ hyphen)

-- A label of a host name: up to 63 of these bytes, with no hyphen at either end.
pub record IsLabel (w : Bytes) : Type 0 where
  pub nonempty : 1 ≤ length w
  pub short : length w ≤ 63
  pub first : get_or w 0 0 ≢ hyphen
  pub last : get_or w (length w - 1) 0 ≢ hyphen
  pub bytes : All IsLdh w

-- At least two labels joined by dots, 253 bytes at most.
pub record IsHostName (s : Bytes) : Type 0 where
  pub labels : List Bytes
  pub several : 2 ≤ length labels
  pub valid : All IsLabel labels
  pub short : length s ≤ 253
  pub spelled : s ≡ join labels (dot ∷ [])

all_byte_iff : (w : Bytes) → (all valid_byte w ≡ true) ↔ All IsLdh w
unfolding valid_byte
all_byte_iff [] = (λ _. tt, λ _. refl)
all_byte_iff (c ∷ w) = ground (arith, all_byte_iff w)

valid_label_iff : (w : Bytes) → (valid_label w ≡ true) ↔ IsLabel w
unfolding valid_label
valid_label_iff w = ground (arith, all_byte_iff w)

all-IsLabel_iff : (ws : List Bytes) → (all valid_label ws ≡ true) ↔ All IsLabel ws
all-IsLabel_iff [] = (λ _. tt, λ _. refl)
all-IsLabel_iff (w ∷ ws) = ground (arith, valid_label_iff w, all-IsLabel_iff ws)

contains-count : (s : Bytes) (b : ℕ) → (contains s b ≡ true) ↔ (1 ≤ count s b)
unfolding contains count
contains-count [] b = ground arith
contains-count (c ∷ s) b = ground (arith, contains-count s b)

IsLdh-ne-dot : (w : Bytes) → All IsLdh w → Lacks dot w
IsLdh-ne-dot [] h = tt
IsLdh-ne-dot (c ∷ w) h = (ground arith, IsLdh-ne-dot w h.1)

IsLabel-Lacks : (ws : List Bytes) → All IsLabel ws → All (Lacks dot) ws
IsLabel-Lacks [] h = tt
IsLabel-Lacks (w ∷ ws) h = (IsLdh-ne-dot w h.0.bytes, IsLabel-Lacks ws h.1)

count-le-length : (s : Bytes) (b : ℕ) → count s b ≤ length s
unfolding count
count-le-length [] b = omega arith
count-le-length (c ∷ s) b = ground (arith, count-le-length s b)

valid_name_sound : (s : Bytes) → valid_name s ≡ true → IsHostName s
unfolding valid_name
valid_name_sound s h = record {
  labels = split s dot;
  several = ground (arith, contains-count s dot, length-split s dot);
  valid = ground (arith, all-IsLabel_iff (split s dot));
  short = ground arith;
  spelled = sym (join-split s dot);
}

pub split_labels : (s : Bytes) (h : IsHostName s) → split s dot ≡ h.labels
split_labels s h = rw h.spelled (
    split-join h.labels dot (λ e. absurd (omega (arith, ap length e, h.several)))
      (IsLabel-Lacks h.labels h.valid))

valid_name_complete : (s : Bytes) → IsHostName s → valid_name s ≡ true
unfolding valid_name
valid_name_complete s h = ground (
  arith,
  split_labels s h,
  all-IsLabel_iff h.labels,
  h.valid,
  h.several,
  h.short,
  contains-count s dot,
  length-split s dot,
  count-le-length s dot,
)

-- A name is valid exactly when it is at least two labels of 1 to 63 letters, digits and hyphens,
-- none with a hyphen at an end, joined by dots to at most 253 bytes.
pub valid_name_iff : (s : Bytes) → (valid_name s ≡ true) ↔ IsHostName s
valid_name_iff s = (valid_name_sound s, valid_name_complete s)
