-- ===== src/Policy/Decode/Pool.antt =====
-- The ranges of a grant as a pool.
use mathlib.Core.Path.{subst}
use ts_domain_gateway.Common.{
  ◌≡◌, inl, inr, true, false, not, ◌&&◌, ◌||◌, List, [], ◌∷◌, ◌++◌, Option, some, nat_eq, eq_iff,
  >>=-eq-some, All, All-append, arith, Bool-cases,
}
use ts_domain_gateway.GoText.{Bytes}
use ts_domain_gateway.Net.{
  Addr, Prefix, is4, is_masked, masked_addr, overlaps, prefix_contains, addr_eq,
}
use ts_domain_gateway.Net.Contains.{overlaps-false-disjoint}
use ts_domain_gateway.Policy.Decode.{parse_ranges, any_overlaps}

-- No address is in both.
abbrev pub Apart : Prefix → Prefix → Type 0
Apart p q = (ip : Addr) → (prefix_contains p ip && prefix_contains q ip) ≡ false

abbrev pub Separate : List Prefix → Type 0
Separate [] = Unit {0}
Separate (p ∷ ps) = All (Apart p) ps × Separate ps

-- An IPv4 network written as its first address.
abbrev pub IsNetwork : Prefix → Type 0
IsNetwork p = (is4 p.addr ≡ true) × (masked_addr p ≡ p.addr)

-- IPv4 networks with no address in common.
pub record IsPool (ranges : List Prefix) : Type 0 where
  pub networks : All IsNetwork ranges
  pub separate : Separate ranges

Separate-append :
    (ranges : List Prefix) (p : Prefix)
    → Separate ranges
    → All (λ q. Apart q p) ranges
    → Separate (ranges ++ p ∷ [])
Separate-append [] p s h = (tt, tt)
Separate-append (q ∷ ranges) p s h =
    (All-append (Apart q) ranges (p ∷ []) s.0 (h.0, tt), Separate-append ranges p s.1 h.1)

overlaps-Apart : (p q : Prefix) → overlaps p q ≡ false → Apart q p
overlaps-Apart p q o ip = elim (Bool-cases (prefix_contains p ip)) [
  | inl e ↦ ground (arith, e, overlaps-false-disjoint p q ip o e)
  | inr e ↦ ground (arith, e)
]

any_overlaps-Apart :
    (p : Prefix) (ranges : List Prefix)
    → any_overlaps p ranges ≡ false
    → All (λ q. Apart q p) ranges
any_overlaps-Apart p [] h = tt
any_overlaps-Apart p (q ∷ ranges) h =
    (overlaps-Apart p q (ground arith), any_overlaps-Apart p ranges (ground arith))

-- The ranges that are read from some texts form a pool, if those before did.
pub parse_ranges-IsPool :
    (parse_prefix : Bytes → Option Prefix) (values : List Bytes) (ranges : List Prefix)
    {out : List Prefix}
    → IsPool ranges
    → parse_ranges parse_prefix values ranges ≡ some out
    → IsPool out
unfolding parse_ranges
parse_ranges-IsPool parse_prefix [] ranges {out} pool h = subst IsPool (ground (arith, h)) pool
parse_ranges-IsPool parse_prefix (value ∷ values) ranges {out} pool h =
    let (p, read, rest) = >>=-eq-some (parse_prefix value) _ h in
    elim (Bool-cases (not (is4 p.addr) || not (is_masked p) || any_overlaps p ranges)) [
      | inl bad ↦ absurd (ground (arith, bad, rest))
      | inr good ↦
          let masked : is_masked p ≡ true = ground (arith, good) in
          let network : IsNetwork p = (
            ground (arith, good),
            (eq_iff (masked_addr p) p.addr).0 (unfold is_masked in masked),
          ) in
          parse_ranges-IsPool parse_prefix values (ranges ++ p ∷ [])
            (record {
              networks = All-append IsNetwork ranges (p ∷ []) pool.networks (network, tt);
              separate =
                  Separate-append ranges p pool.separate
                    (any_overlaps-Apart p ranges (ground (arith, good)));
            })
            (ground (arith, good, rest))
    ]
