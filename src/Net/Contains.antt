-- ===== src/Net/Contains.antt =====
-- Addresses in prefixes: the interval that a prefix covers, and disjointness.
use Prim.Native.Nat.{min}
use native.Mathlib.Nat.{
  div-div-eq-div-mul, one-le-pow, div-mul-le_self, lt-div-mul-add, div-eq_of_lt-le, pow-succ',
  mul-le-mul_left, mul_comm,
}
use ts_domain_gateway.Common.{
  ℕ, zero, suc, ◌+◌, ◌-◌, ◌*◌, ◌/◌, ◌^◌, ◌≤◌, ◌<◌, ◌≡◌, ◌∙◌, ◌↔◌, sym, ap, true, false, nat_eq, inl,
  inr, Bool-cases, ltb, refl, arith,
}
use ts_domain_gateway.Net.{
  Addr, invalid, v4, v6, Prefix, network_part, clear_host, prefix_contains, overlaps, overlaps_at,
  contains_at,
}

pow_split : (i k : ℕ) → 2 ^ (k + i) ≡ 2 ^ i * 2 ^ k
pow_split i zero = let e : zero + i ≡ i = omega arith in ap (λ (t : ℕ). 2 ^ t) e ∙ omega arith
pow_split i (suc k) =
    let e : suc k + i ≡ suc (k + i) = omega arith in
    ap (λ (t : ℕ). 2 ^ t) e
    ∙ pow-succ' 2 (k + i)
    ∙ omega (arith, pow_split i k, pow-succ' 2 k, ap (λ (t : ℕ). 2 ^ i * t) (pow-succ' 2 k))

-- A shorter prefix fixes less.
network_part_coarser :
    (width bits fewer n : ℕ)
    → fewer ≤ bits
    → bits ≤ width
    → network_part width fewer n ≡ network_part width bits n / 2 ^ (bits - fewer)
unfolding network_part
network_part_coarser width bits fewer n h k =
    let e : width - fewer ≡ (bits - fewer) + (width - bits) = omega arith in
    rw (e, pow_split) (sym (div-div-eq-div-mul n (2 ^ (width - bits)) (2 ^ (bits - fewer))))

unfoldable pub size : ℕ → ℕ
size bits = 2 ^ (32 - bits)

pub size_pos : (bits : ℕ) → 1 ≤ size bits
unfolding size
size_pos bits = one-le-pow (32 - bits) 2 (omega arith)

room : (q s t a : ℕ) → q * s ≤ a → a < t * s → q * s + s ≤ t * s
room q s t a h k = elim (Bool-cases (ltb q t)) [
  | inl b ↦
      let c : q + 1 ≤ t = ground (arith, b) in
      omega (arith, mul-le-mul_left s c, mul_comm s t, mul_comm s q)
  | inr b ↦
      let c : t ≤ q = ground (arith, b) in
      omega (arith, mul-le-mul_left s c, mul_comm s t, mul_comm s q)
]

-- A prefix ends inside the addresses.
pub prefix_end : (a bits : ℕ) → bits ≤ 32 → a < 2 ^ 32 → clear_host 32 bits a + size bits ≤ 2 ^ 32
unfolding clear_host network_part size
prefix_end a bits h k =
    let s = 2 ^ (32 - bits) in
    let e : 32 ≡ (32 - bits) + bits = omega arith in
    let whole : 2 ^ 32 ≡ 2 ^ bits * s = ap (λ (t : ℕ). 2 ^ t) e ∙ pow_split bits (32 - bits) in
    let below : a < 2 ^ bits * s = rw (← whole) k in
    let end = room (a / s) s (2 ^ bits) a (div-mul-le_self a s) below in omega (arith, end, whole)

pub contains-invalid :
    (a bits : ℕ) → prefix_contains (record { addr = v4 a; bits = bits }) invalid ≡ false
unfolding prefix_contains
contains-invalid a bits = refl

quotient_interval : (n s k : ℕ) → 1 ≤ s → (n / s ≡ k) ↔ ((k * s ≤ n) × (n < k * s + s))
quotient_interval n s k h = (
  λ e. (rw (← e) (div-mul-le_self n s), rw (← e) (lt-div-mul-add h)),
  λ b. div-eq_of_lt-le s b.0 (omega arith),
)

-- The addresses of a prefix are an interval that begins at the masked address.
pub contains_interval :
    (a n bits : ℕ)
    → bits ≤ 32
    → (prefix_contains (record { addr = v4 a; bits = bits }) (v4 n) ≡ true)
      ↔ ((clear_host 32 bits a ≤ n) × (n < clear_host 32 bits a + size bits))
unfolding prefix_contains clear_host size
contains_interval a n bits h =
    let i =
      quotient_interval n (2 ^ (32 - bits)) (a / 2 ^ (32 - bits))
        (one-le-pow (32 - bits) 2 (omega arith)) in
    ground (arith, i)

fixes_common :
    (width p q a b n : ℕ)
    → p ≤ width
    → q ≤ width
    → network_part width p n ≡ network_part width p a
    → network_part width q n ≡ network_part width q b
    → network_part width (min p q) a ≡ network_part width (min p q) b
fixes_common width p q a b n hp hq ep eq =
    let m = min p q in
    let less_p : m ≤ p = omega arith in
    let less_q : m ≤ q = omega arith in
    rw (
      network_part_coarser width p m a less_p hp,
      ← ep,
      ← network_part_coarser width p m n less_p hp,
      network_part_coarser width q m b less_q hq,
      ← eq,
      ← network_part_coarser width q m n less_q hq,
    )

disjoint_at :
    (p q : ℕ) (a b ip : Addr)
    → overlaps_at p q a b ≡ false
    → contains_at p a ip ≡ true
    → contains_at q b ip ≡ false
unfolding overlaps_at contains_at
disjoint_at p q (v4 a) (v4 b) (v4 n) o c = ground (arith, fixes_common 32 p q a b n)
disjoint_at p q (v6 a) (v6 b) (v6 n) o c = ground (arith, fixes_common 128 p q a b n)
disjoint_at p q a b ip o c = ground arith

-- Two prefixes that `overlaps` tells apart have no address in common.
pub overlaps-false-disjoint :
    (p q : Prefix) (ip : Addr)
    → overlaps p q ≡ false
    → prefix_contains p ip ≡ true
    → prefix_contains q ip ≡ false
unfolding overlaps prefix_contains
overlaps-false-disjoint p q ip o c = disjoint_at p.bits q.bits p.addr q.addr ip o c
