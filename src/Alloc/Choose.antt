-- ===== src/Alloc/Choose.antt =====
-- The addresses that `choose` picks: in range, and where it goes wrong.
use mathlib.Core.Path.{subst}
use ts_domain_gateway.Common.{
  sym, ℕ, true, false, ◌&&◌, ◌≡◌, ◌≢◌, inl, inr, refl, List, [], ◌∷◌, none, some, nat_eq, list_eq,
  if◌then◌else◌, arith, Any, Bool-cases, eq_iff, Option-cases,
}
use ts_domain_gateway.Net.{
  Addr, invalid, v4, v6, Prefix, addr_eq, is_valid, prev_addr, masked_addr, prefix_contains,
}
use ts_domain_gateway.Alloc.{from_start, starting, first_of, usable, pick, pick_later, choose}

abbrev pub Usable : Addr → List Prefix → Type 0
Usable ip = Any (λ p. usable p ip ≡ true)

pick_later-Usable :
    (ps : List Prefix) (x : Addr) → pick_later ps ≡ x → is_valid x ≡ true → Usable x ps
unfolding pick_later
pick_later-Usable [] x e v = ground arith
pick_later-Usable (p ∷ ps) x e v = elim (Bool-cases (usable p (first_of p))) [
  | inl hit ↦ inl (ground (arith, hit, e))
  | inr miss ↦ inr (pick_later-Usable ps x (ground (arith, miss, e)) v)
]

pick-Usable :
    (ip : Addr) (ps : List Prefix) (x : Addr)
    → ps ≢ []
    → pick ip ps ≡ x
    → is_valid x ≡ true
    → Usable x ps
unfolding pick
pick-Usable ip [] x ne e v = absurd (ne refl)
pick-Usable ip (p ∷ ps) x ne e v =
    let candidate = if prefix_contains p ip then ip else first_of p in
    elim (Bool-cases (usable p candidate)) [
      | inl hit ↦ inl (ground (arith, hit, e))
      | inr miss ↦ inr (pick_later-Usable ps x (ground (arith, miss, e)) v)
    ]

from_start-Usable :
    (ip : Addr) (ps rest : List Prefix) (x : Addr)
    → from_start ip ps ≡ some rest
    → Usable x rest
    → Usable x ps
unfolding from_start
from_start-Usable ip [] rest x e h = ground arith
from_start-Usable ip (p ∷ ps) rest x e h = elim (Bool-cases (prefix_contains p ip)) [
  | inl here ↦ let same : p ∷ ps ≡ rest = ground (arith, here, e) in subst (Usable x) (sym same) h
  | inr away ↦ elim (Bool-cases (is_valid (prev_addr ip) && prefix_contains p (prev_addr ip))) [
    | inl behind ↦
        let same : ps ≡ rest = ground (arith, away, behind, e) in
        inr (subst (Usable x) (sym same) h)
    | inr ahead ↦ inr (from_start-Usable ip ps rest x (ground (arith, away, ahead, e)) h)
  ]
]

starting-Usable :
    (ip : Addr) (ps : List Prefix) (x : Addr) → Usable x (starting ip ps) → Usable x ps
unfolding starting
starting-Usable ip ps x h = elim (Option-cases (from_start ip ps)) [
  | inl e ↦ elim (Bool-cases (is_valid ip)) [ inl v ↦ rw (v, e) at h | inr v ↦ rw v at h ]
  | inr (rest, e) ↦ elim (Bool-cases (is_valid ip)) [
    | inl v ↦ from_start-Usable ip ps rest x e (rw (v, e) at h)
    | inr v ↦ rw v at h
  ]
]

-- A chosen address lies in one of the ranges and is not its network address.
pub choose-Usable :
    (next : Addr) (prefixes : List Prefix) {ip : Addr}
    → choose next prefixes ≡ some ip
    → Usable ip prefixes
unfolding choose
choose-Usable next [] h = ground arith
choose-Usable next (p ∷ ps) {ip} h =
    let start = starting next (p ∷ ps) in
    let picked = pick (if is_valid next then next else first_of p) start in
    let nonempty : start ≢ [] = λ e. ground (arith, e, h) in
    let valid : is_valid picked ≡ true = ground (arith, h) in
    let same : picked ≡ ip = ground (arith, h) in
    starting-Usable next (p ∷ ps) ip (
      pick-Usable (if is_valid next then next else first_of p) start ip nonempty same
        (subst (λ x. is_valid x ≡ true) same valid))

-- The zero Addr is in no range.
pub contains-valid : (p : Prefix) (ip : Addr) → prefix_contains p ip ≡ true → is_valid ip ≡ true
unfolding prefix_contains
contains-valid p invalid h = absurd (outside p h)
  where
    at :
        (bits : ℕ) (a : Addr)
        → ¬ (prefix_contains (record { addr = a; bits = bits }) invalid ≡ true)
    at bits invalid h = cc
    at bits (v4 n) h = cc
    at bits (v6 n) h = cc

    outside : (p : Prefix) → ¬ (prefix_contains p invalid ≡ true)
    outside p h = at p.bits p.addr h
contains-valid p (v4 n) h = refl
contains-valid p (v6 n) h = refl

pub usable-valid : (p : Prefix) (ip : Addr) → usable p ip ≡ true → is_valid ip ≡ true
unfolding usable
usable-valid p ip h = contains-valid p ip (ground (arith, h))

-- Where the next address is the network address of the second range, adjacent to the first, the
-- pool is reported exhausted, although the second range alone has an address to give.
pub choose-adjacent_exhausted :
    (next : Addr) (p q : Prefix)
    → prefix_contains p next ≡ false
    → is_valid (prev_addr next) ≡ true
    → prefix_contains p (prev_addr next) ≡ true
    → prefix_contains q next ≡ true
    → is_valid next ≡ true
    → masked_addr q ≡ next
    → usable q (first_of q) ≡ true
    → (choose next (p ∷ q ∷ []) ≡ none) × (choose invalid (q ∷ []) ≡ some (first_of q))
unfolding choose starting from_start pick pick_later
choose-adjacent_exhausted next p q out v behind inside valid base fresh =
    let stuck : usable q next ≡ false =
      unfold usable in ground (arith, inside, eq_iff next (masked_addr q), base) in
    let given : is_valid (first_of q) ≡ true = usable-valid q (first_of q) fresh in
    (ground (arith, out, v, behind, inside, valid, stuck), ground (arith, fresh, given))

-- Where the next address is the network address of the first range again, as it is when a range
-- behind it in the list ends just below it, the first address of that later range is given out,
-- whatever was given out before.
pub choose-descending_reuse :
    (next : Addr) (p q : Prefix)
    → prefix_contains p next ≡ true
    → is_valid next ≡ true
    → masked_addr p ≡ next
    → usable q (first_of q) ≡ true
    → choose next (p ∷ q ∷ []) ≡ some (first_of q)
unfolding choose starting from_start pick pick_later
choose-descending_reuse next p q inside valid base fresh =
    let stuck : usable p next ≡ false =
      unfold usable in ground (arith, inside, eq_iff next (masked_addr p), base) in
    let given : is_valid (first_of q) ≡ true = usable-valid q (first_of q) fresh in
    ground (arith, inside, valid, stuck, fresh, given)
