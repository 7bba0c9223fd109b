-- ===== src/Net.antt =====
-- The types Addr and Prefix of Go's package net/netip, as far as the program uses them.
-- IPv6 zones are not modelled: no address that the program handles has one.
pub mod Contains
use Prim.Native.Nat.{min}
use ts_domain_gateway.Common.{
  ℕ, ◌+◌, ◌-◌, ◌*◌, ◌/◌, ◌%◌, ◌^◌, ◌≤◌, ◌<◌, ◌≡◌, ◌↔◌, refl, Bool, true, false, not, ◌&&◌, ltb, leb,
  ◌==◌, Eq, nat_eq, if◌then◌else◌, arith, List, [], ◌∷◌,
}

-- `invalid` is the zero Addr.
pub data Addr : Type 0 where
  invalid : Addr
  v4 : ℕ → Addr
  v6 : ℕ → Addr

abbrev pub addr_beq : Addr → Addr → Bool
addr_beq invalid invalid = true
addr_beq (v4 a) (v4 b) = a == b
addr_beq (v6 a) (v6 b) = a == b
addr_beq _ _ = false

pub addr_beq_iff : (a b : Addr) → (addr_beq a b ≡ true) ↔ (a ≡ b)
addr_beq_iff invalid b = ground arith
addr_beq_iff (v4 n) b = ground arith
addr_beq_iff (v6 n) b = ground arith

instance abbrev pub addr_eq : Eq Addr
addr_eq = record { test = addr_beq; decides = addr_beq_iff }

abbrev pub is_valid : Addr → Bool
is_valid a = not (a == invalid)

abbrev pub is4 : Addr → Bool
is4 (v4 n) = true
is4 _ = false

-- Addr.Next and Addr.Prev: the zero Addr past either end.
unfoldable pub next_addr : Addr → Addr
next_addr invalid = invalid
next_addr (v4 n) = if n + 1 == 2 ^ 32 then invalid else v4 (n + 1)
next_addr (v6 n) = if n + 1 == 2 ^ 128 then invalid else v6 (n + 1)

unfoldable pub prev_addr : Addr → Addr
prev_addr invalid = invalid
prev_addr (v4 n) = if n == 0 then invalid else v4 (n - 1)
prev_addr (v6 n) = if n == 0 then invalid else v6 (n - 1)

-- Addr.Less: by length first.
unfoldable pub less : Addr → Addr → Bool
less invalid invalid = false
less invalid (v4 n) = true
less invalid (v6 n) = true
less (v4 n) (v4 m) = ltb n m
less (v4 n) (v6 m) = true
less (v6 n) (v6 m) = ltb n m
less _ _ = false

pub record Prefix : Type 0 where
  pub addr : Addr
  pub bits : ℕ

abbrev pub prefix_beq : Prefix → Prefix → Bool
prefix_beq p q = p.addr == q.addr && p.bits == q.bits

pub prefix_beq_iff : (p q : Prefix) → (prefix_beq p q ≡ true) ↔ (p ≡ q)
prefix_beq_iff p q = ground (arith, addr_beq_iff p.addr q.addr)

instance abbrev pub prefix_eq : Eq Prefix
prefix_eq = record { test = prefix_beq; decides = prefix_beq_iff }

-- The part of an address that a prefix of `bits` of `width` bits fixes.
pub network_part : ℕ → ℕ → ℕ → ℕ
network_part width bits n = n / 2 ^ (width - bits)

unfoldable pub clear_host : ℕ → ℕ → ℕ → ℕ
unfolding network_part
clear_host width bits n = network_part width bits n * 2 ^ (width - bits)

-- Prefix.Masked().Addr()
unfoldable pub masked_addr : Prefix → Addr
unfolding clear_host
masked_addr p = elim p.addr [
  | invalid ↦ invalid
  | v4 n ↦ if leb p.bits 32 then v4 (clear_host 32 p.bits n) else invalid
  | v6 n ↦ if leb p.bits 128 then v6 (clear_host 128 p.bits n) else invalid
]

-- `prefix == prefix.Masked()`
unfoldable pub is_masked : Prefix → Bool
unfolding masked_addr
is_masked p = masked_addr p == p.addr

contains_at : ℕ → Addr → Addr → Bool
unfolding network_part
contains_at bits (v4 a) (v4 n) = leb bits 32 && network_part 32 bits n == network_part 32 bits a
contains_at bits (v6 a) (v6 n) = leb bits 128 && network_part 128 bits n == network_part 128 bits a
contains_at bits _ _ = false

-- Prefix.Contains
unfoldable pub prefix_contains : Prefix → Addr → Bool
unfolding contains_at
prefix_contains p ip = contains_at p.bits p.addr ip

overlaps_at : ℕ → ℕ → Addr → Addr → Bool
unfolding network_part
overlaps_at p q (v4 a) (v4 b) =
    leb p 32 && leb q 32 && network_part 32 (min p q) a == network_part 32 (min p q) b
overlaps_at p q (v6 a) (v6 b) =
    leb p 128 && leb q 128 && network_part 128 (min p q) a == network_part 128 (min p q) b
overlaps_at p q _ _ = false

-- Prefix.Overlaps
unfoldable pub overlaps : Prefix → Prefix → Bool
unfolding overlaps_at
overlaps p q = overlaps_at p.bits q.bits p.addr q.addr

-- containsPrefix of internal/domain/service.go
unfoldable pub contains_prefix : List Prefix → Addr → Bool
unfolding prefix_contains
contains_prefix [] address = false
contains_prefix (p ∷ prefixes) address =
    if prefix_contains p address then true else contains_prefix prefixes address
