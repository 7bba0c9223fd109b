-- ===== src/Alloc/Fresh.antt =====
-- Which addresses Allocate takes where each gateway has one range: the pool of a gateway, how far it is
-- used up, and what a choice is then.
pub mod Ahead
pub mod Pools
use mathlib.Core.Path.{subst}
use ts_domain_gateway.Common.{
  ℕ, suc, ◌+◌, ◌-◌, ◌^◌, ◌≤◌, ◌<◌, ◌≡◌, ◌∙◌, ◌⊎◌, inl, inr, sym, ap, refl, true, false, not, List,
  [], ◌∷◌, Option, none, some, length, ltb, arith, ◌==◌, nat_eq, list_eq, if◌then◌else◌, eq_iff,
  Bool-cases, Option-cases,
}
use ts_domain_gateway.GoText.{Bytes}
use ts_domain_gateway.Net.{
  Addr, invalid, v4, v6, Prefix, addr_eq, is_valid, next_addr, prev_addr, less, clear_host,
  prefix_contains,
}
use ts_domain_gateway.Net.Contains.{size, size_pos, contains_interval}
use ts_domain_gateway.Alloc.Assoc.{lookup, insert, lookup-insert, lookup-delete}
use ts_domain_gateway.Alloc.Choose.{Usable, choose-Usable}
use ts_domain_gateway.Alloc.{
  Allocator, Mapping, key_of, addr_at, from_start, starting, first_of, usable, pick, pick_later,
  choose, allocate, remember_until,
}

-- An IPv4 range that ends below the last address of all.
pub record IsRange (p : Prefix) : Type 0 where
  pub number : ℕ
  pub shape : p.addr ≡ v4 number
  pub short : p.bits ≤ 32
  pub ends : clear_host 32 p.bits number + size p.bits < 2 ^ 32

abbrev pub low : {p : Prefix} → IsRange p → ℕ
low {p} r = clear_host 32 p.bits r.number

abbrev pub high : {p : Prefix} → IsRange p → ℕ
high {p} r = clear_host 32 p.bits r.number + size p.bits

pub range_interval :
    (p : Prefix) (r : IsRange p) (n : ℕ)
    → ((prefix_contains p (v4 n) ≡ true) → (low r ≤ n) × (n < high r))
      × ((low r ≤ n) × (n < high r) → prefix_contains p (v4 n) ≡ true)
range_interval p r n =
    let i = contains_interval r.number n p.bits r.short in
    let same : record { addr = v4 r.number; bits = p.bits } ≡ p =
      ap (λ a. record { addr = a; bits = p.bits }) (sym r.shape) in
    (
      λ h. i.0 (subst (λ q. prefix_contains q (v4 n) ≡ true) (sym same) h),
      λ h. subst (λ q. prefix_contains q (v4 n) ≡ true) same (i.1 h),
    )

-- Only IPv4 addresses are in a range.
pub range_v4 :
    (p : Prefix) (r : IsRange p) (x : Addr) → prefix_contains p x ≡ true → (n : ℕ) × (x ≡ v4 n)
unfolding prefix_contains
range_v4 p r (v4 n) h = (n, refl)
range_v4 p r invalid h = let no : false ≡ true = rw r.shape at h in absurd (ground (arith, no))
range_v4 p r (v6 n) h = let no : false ≡ true = rw r.shape at h in absurd (ground (arith, no))

-- The choice behind an address of the range, or of its end: that address, and none at the end.
pub choose-next :
    (p : Prefix) (r : IsRange p) (n : ℕ) {ip : Addr}
    → low r < n
    → n ≤ high r
    → choose (v4 n) (p ∷ []) ≡ some ip
    → (ip ≡ v4 n) × (prefix_contains p (v4 n) ≡ true)
unfolding choose starting from_start pick pick_later
choose-next p r n {ip} above below h = elim (Bool-cases (prefix_contains p (v4 n))) [
  | inl hit ↦ elim (Bool-cases (usable p (v4 n))) [
    | inl free ↦ (ground (arith, hit, free, h), hit)
    | inr taken ↦ absurd (ground (arith, hit, taken, h))
  ]
  | inr miss ↦
      let at_end : n ≡ high r = elim (Bool-cases (ltb n (high r))) [
        | inl lt ↦
            let within : n < high r = ground (arith, lt) in
            let hit = (range_interval p r n).1 (omega arith) in absurd (ground (arith, hit, miss))
        | inr ge ↦ ground (arith, ge, below)
      ] in
      let behind : prefix_contains p (v4 (n - 1)) ≡ true =
        (range_interval p r (n - 1)).1 (omega (arith, size_pos p.bits)) in
      absurd (unfold prev_addr in ground (arith, miss, behind, h))
]

-- The addresses of the range that are in use lie below `n`.
abbrev pub UsedBelow : {p : Prefix} → IsRange p → Allocator → ℕ → Type 0
UsedBelow r a n =
    (x : ℕ) (m : Mapping) → low r ≤ x → x < high r → lookup (v4 x) a.by_ip ≡ some m → x < n

-- How far a gateway has used its range up: not at all, or up to its next address.
abbrev pub IsAhead : {p : Prefix} → IsRange p → Allocator → Bytes → Type 0
IsAhead r a gateway =
    (lookup gateway a.next ≡ none) × UsedBelow r a (low r)
    ⊎ ((n : ℕ) × (lookup gateway a.next ≡ some (v4 n))
        × (low r < n)
        × (n ≤ high r)
        × UsedBelow r a n)

-- The choice of such a gateway, with the range as its only one.
pub choose-IsAhead :
    (p : Prefix) (r : IsRange p) (a : Allocator) (gateway : Bytes) {ip : Addr}
    → IsAhead r a gateway
    → choose (addr_at a.next gateway) (p ∷ []) ≡ some ip
    → (n : ℕ) × (ip ≡ v4 n) × (low r ≤ n) × (n < high r) × UsedBelow r a n
choose-IsAhead p r a gateway {ip} ahead h =
    let inside : prefix_contains p ip ≡ true =
      elim (choose-Usable (addr_at a.next gateway) (p ∷ []) h) [
        | inl u ↦ unfold usable in ground (arith, u)
        | inr none_left ↦ absurd none_left
      ] in
    let (m, same) = range_v4 p r ip inside in
    let within = (range_interval p r m).0 (subst (λ x. prefix_contains p x ≡ true) same inside) in
    elim ahead [
      | inl (unset, below) ↦
          (m, same, within.0, within.1, λ x k lo hi e. absurd (omega (arith, below x k lo hi e)))
      | inr (n, set, above, top, below) ↦
          let here : addr_at a.next gateway ≡ v4 n = ground (arith, set) in
          let (e, hit) =
            choose-next p r n above top (subst (λ x. choose x (p ∷ []) ≡ some ip) here h) in
          let bounds = (range_interval p r n).0 hit in (n, e, bounds.0, bounds.1, below)
    ]
