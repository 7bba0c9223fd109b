-- ===== src/Dns/Reverse.antt =====
-- ReverseIPv4 at the name of an address.
use mathlib.Core.Path.{subst}
use ts_domain_gateway.Common.{
  ℕ, ◌+◌, ◌*◌, ◌/◌, ◌%◌, ◌^◌, ◌<◌, ◌≤◌, ◌≡◌, ◌≢◌, ◌∙◌, refl, sym, ap, false, List, [], ◌∷◌, ◌++◌,
  some, length, All, All-append, ltb, if◌then◌else◌, ◌-◌, take, nat_eq, list_eq, arith, Bool-cases,
  inl, inr,
}
use ts_domain_gateway.GoText.{Bytes, codes, dot, split, join, trim_suffix, has_suffix}
use ts_domain_gateway.GoText.Split.{Lacks, split-join}
use ts_domain_gateway.GoText.Affix.{has_suffix-split, trim_suffix-append}
use ts_domain_gateway.Name.Normal.{IsLow, to_lower-low, split_trailing}
use ts_domain_gateway.Net.{v4}
use ts_domain_gateway.Dns.{octet, reverse_parts, reverse_ipv4}

-- An octet in decimal.
abbrev pub octet_text : ℕ → Bytes
octet_text n =
    if ltb n 10
    then (b'0' + n) ∷ []
    else if ltb n 100
    then (b'0' + n / 10) ∷ (b'0' + n % 10) ∷ []
    else (b'0' + n / 100) ∷ (b'0' + n / 10 % 10) ∷ (b'0' + n % 10) ∷ []

abbrev pub reverse_labels : ℕ → List Bytes
reverse_labels n =
    octet_text (n % 2 ^ 8)
    ∷ octet_text (n / 2 ^ 8 % 2 ^ 8)
    ∷ octet_text (n / 2 ^ 16 % 2 ^ 8)
    ∷ octet_text (n / 2 ^ 24)
    ∷ codes "in-addr"
    ∷ codes "arpa"
    ∷ []

-- The name of an IPv4 address.
abbrev pub reverse_name : ℕ → Bytes
reverse_name n = join (reverse_labels n) (dot ∷ [])

-- A label without dots, which lower case leaves alone.
pub record IsPlain (w : Bytes) : Type 0 where
  pub nonempty : 1 ≤ length w
  pub no_dot : Lacks dot w
  pub low : All IsLow w

octet_text-IsPlain : (n : ℕ) → n < 256 → IsPlain (octet_text n)
octet_text-IsPlain n h = elim (Bool-cases (ltb n 10)) [
  | inl e ↦ rw e (record { nonempty = omega arith; no_dot = ground arith; low = ground arith })
  | inr e ↦ elim (Bool-cases (ltb n 100)) [
    | inl f ↦
        rw (e, f) (record { nonempty = omega arith; no_dot = ground arith; low = ground arith })
    | inr f ↦
        rw (e, f) (record { nonempty = omega arith; no_dot = ground arith; low = ground arith })
  ]
]

octet-octet_text : (n : ℕ) → n < 256 → octet 0 (octet_text n) ≡ some n
unfolding octet
octet-octet_text n h = elim (Bool-cases (ltb n 10)) [
  | inl e ↦ ground (arith, e, h)
  | inr e ↦ elim (Bool-cases (ltb n 100)) [
    | inl f ↦ ground (arith, e, f, h)
    | inr f ↦ ground (arith, e, f, h)
  ]
]

join-IsLow : (ws : List Bytes) → All IsPlain ws → All IsLow (join ws (dot ∷ []))
unfolding join
join-IsLow [] h = tt
join-IsLow (w ∷ []) h = h.0.low
join-IsLow (w ∷ v ∷ ws) h =
    All-append IsLow w _ h.0.low ((omega arith, refl), join-IsLow (v ∷ ws) h.1)

no_dots : (ws : List Bytes) → All IsPlain ws → All (Lacks dot) ws
no_dots [] h = tt
no_dots (w ∷ ws) h = (h.0.no_dot, no_dots ws h.1)

no_empty-IsPlain : (ws : List Bytes) → ¬ All IsPlain (ws ++ [] ∷ [])
no_empty-IsPlain [] h = absurd (omega (arith, h.0.nonempty))
no_empty-IsPlain (w ∷ ws) h = no_empty-IsPlain ws h.1

-- A name of plain labels does not end in a dot.
join-no_dot :
    (ws : List Bytes)
    → ws ≢ []
    → All IsPlain ws
    → has_suffix (join ws (dot ∷ [])) (dot ∷ []) ≡ false
join-no_dot ws some_label h = elim (Bool-cases (has_suffix (join ws (dot ∷ [])) (dot ∷ []))) [
  | inr e ↦ e
  | inl e ↦
      let s = join ws (dot ∷ []) in
      let t = take (length s - length (dot ∷ [])) s in
      let parts : ws ≡ split t dot ++ [] ∷ [] =
        sym (split-join ws dot some_label (no_dots ws h))
        ∙ ap (λ u. split u dot) (has_suffix-split s (dot ∷ []) e)
        ∙ split_trailing t dot in
      absurd (no_empty-IsPlain (split t dot) (subst (λ vs. All IsPlain vs) parts h))
]

trim_join :
    (ws : List Bytes)
    → ws ≢ []
    → All IsPlain ws
    → trim_suffix (join ws (dot ∷ [])) (dot ∷ []) ≡ join ws (dot ∷ [])
unfolding trim_suffix
trim_join ws some_label h = rw (join-no_dot ws some_label h) refl

reverse_labels-IsPlain : (n : ℕ) → n < 2 ^ 32 → All IsPlain (reverse_labels n)
reverse_labels-IsPlain n h =
    let arpa4 : IsPlain (codes "in-addr") = record {
      nonempty = omega arith;
      no_dot = ground arith;
      low = ground arith;
    } in
    let arpa5 : IsPlain (codes "arpa") = record {
      nonempty = omega arith;
      no_dot = ground arith;
      low = ground arith;
    } in
    let d = octet_text-IsPlain (n % 2 ^ 8) (omega arith) in
    let c = octet_text-IsPlain (n / 2 ^ 8 % 2 ^ 8) (omega arith) in
    let b = octet_text-IsPlain (n / 2 ^ 16 % 2 ^ 8) (omega arith) in
    let a = octet_text-IsPlain (n / 2 ^ 24) (omega arith) in
    (d, (c, (b, (a, (arpa4, (arpa5, tt))))))

reverse_parts-labels : (n : ℕ) → n < 2 ^ 32 → reverse_parts (reverse_labels n) ≡ some (v4 n)
unfolding reverse_parts
reverse_parts-labels n h =
    let whole : n / 2 ^ 24 * 2 ^ 24
          + n / 2 ^ 16 % 2 ^ 8 * 2 ^ 16
          + n / 2 ^ 8 % 2 ^ 8 * 2 ^ 8
          + n % 2 ^ 8
        ≡ n =
      omega arith in
    rw
      (
        octet-octet_text (n % 2 ^ 8) (omega arith),
        octet-octet_text (n / 2 ^ 8 % 2 ^ 8) (omega arith),
        octet-octet_text (n / 2 ^ 16 % 2 ^ 8) (omega arith),
        octet-octet_text (n / 2 ^ 24) (omega arith),
      )
      (ap (λ m. some (v4 m)) whole)

-- ReverseIPv4 reads the name of every IPv4 address as the address: its octets in decimal, the last one
-- first, in front of in-addr.arpa, with a dot at the end or without.
pub reverse_ipv4_roundtrip :
    (wide : Bytes → Bytes) (n : ℕ)
    → n < 2 ^ 32
    → (reverse_ipv4 wide (reverse_name n) ≡ some (v4 n))
      × (reverse_ipv4 wide (reverse_name n ++ dot ∷ []) ≡ some (v4 n))
unfolding reverse_ipv4
reverse_ipv4_roundtrip wide n h =
    let plain = reverse_labels-IsPlain n h in
    let low = join-IsLow (reverse_labels n) plain in
    let some_label : reverse_labels n ≢ [] = ground arith in
    let same = split-join (reverse_labels n) dot some_label (no_dots (reverse_labels n) plain) in
    let closed : All IsLow (reverse_name n ++ dot ∷ []) =
      All-append IsLow (reverse_name n) _ low ((omega arith, refl), tt) in
    (
      rw
          (
            to_lower-low wide (reverse_name n) low,
            trim_join (reverse_labels n) some_label plain,
            same,
          )
          (reverse_parts-labels n h),
      rw
          (
            to_lower-low wide (reverse_name n ++ dot ∷ []) closed,
            trim_suffix-append (reverse_name n) (dot ∷ []),
            same,
          )
          (reverse_parts-labels n h),
    )
