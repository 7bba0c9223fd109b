-- ===== src/Store/Hosts.antt =====
-- The candidates of an allocation.
use ts_domain_gateway.Common.{
  ℕ, zero, suc, ◌+◌, ◌^◌, ◌≤◌, ◌<◌, ◌≡◌, ◌≢◌, ◌↔◌, inl, inr, refl, true, false, List, [], arith,
  Any, Bool-cases, ◌==◌, nat_eq,
}
use ts_domain_gateway.Net.{
  Addr, invalid, v4, Prefix, next_addr, prefix_contains, masked_addr, clear_host,
}
use ts_domain_gateway.Net.Contains.{prefix_end, contains-invalid, size, contains_interval}
use ts_domain_gateway.Store.{hosts_from, hosts}

abbrev pub Lists : Addr → List Addr → Type 0
Lists ip = Any (λ x. x ≡ ip)

hosts_from-invalid :
    (f : ℕ) (p : Prefix) → prefix_contains p invalid ≡ false → hosts_from f p invalid ≡ []
unfolding hosts_from
hosts_from-invalid zero p i = refl
hosts_from-invalid (suc f) p i = ground (arith, i)

-- An interval of addresses as the loop goes through it, with fuel to its end.
hosts_from_interval :
    (f : ℕ) (p : Prefix) (base end m n : ℕ)
    → ((k : ℕ) → (prefix_contains p (v4 k) ≡ true) ↔ ((base ≤ k) × (k < end)))
    → prefix_contains p invalid ≡ false
    → end ≤ 2 ^ 32
    → base ≤ m
    → end ≤ m + f
    → Lists (v4 n) (hosts_from f p (v4 m)) ↔ ((m ≤ n) × (n < end))
unfolding hosts_from next_addr
hosts_from_interval zero p base end m n c i fits lo fuel = ground arith
hosts_from_interval (suc f) p base end m n c i fits lo fuel =
    elim (Bool-cases (prefix_contains p (v4 m))) [
      | inr out ↦ ground (arith, out, c m)
      | inl here ↦ elim (Bool-cases (m + 1 == 2 ^ 32)) [
        | inl last ↦ ground (arith, here, last, c m, hosts_from-invalid f p i)
        | inr more ↦ ground (
          arith,
          here,
          more,
          c m,
          hosts_from_interval f p base end (m + 1) n c i fits (omega arith) (omega arith),
        )
      ]
    ]

masked-v4 :
    (a bits : ℕ)
    → bits ≤ 32
    → masked_addr (record { addr = v4 a; bits = bits }) ≡ v4 (clear_host 32 bits a)
unfolding masked_addr
masked-v4 a bits h = ground (arith, h)

-- The loop from the address behind the network address.
hosts_from-next_addr :
    (f : ℕ) (p : Prefix) (base end n : ℕ)
    → ((k : ℕ) → (prefix_contains p (v4 k) ≡ true) ↔ ((base ≤ k) × (k < end)))
    → prefix_contains p invalid ≡ false
    → end ≤ 2 ^ 32
    → end ≤ base + 1 + f
    → Lists (v4 n) (hosts_from f p (next_addr (v4 base))) ↔ ((base + 1 ≤ n) × (n < end))
unfolding next_addr
hosts_from-next_addr f p base end n c i fits fuel = elim (Bool-cases (base + 1 == 2 ^ 32)) [
  | inl last ↦ ground (arith, last, hosts_from-invalid f p i)
  | inr more ↦
      ground
        (arith, more, hosts_from_interval f p base end (base + 1) n c i fits (omega arith) fuel)
]

-- The loops of an allocation try exactly the addresses of an IPv4 range but its network address:
-- the fuel is enough for the whole range.
pub hosts_iff :
    (a bits n : ℕ)
    → bits ≤ 32
    → a < 2 ^ 32
    → Lists (v4 n) (hosts (record { addr = v4 a; bits = bits })) ↔ (
        (prefix_contains (record { addr = v4 a; bits = bits }) (v4 n) ≡ true)
        × (v4 n ≢ masked_addr (record { addr = v4 a; bits = bits })))
unfolding hosts size
hosts_iff a bits n h k =
    let base = clear_host 32 bits a in
    let p : Prefix = record { addr = v4 a; bits = bits } in
    let inside = λ (m : ℕ). contains_interval a m bits h in
    let tried =
      hosts_from-next_addr (size bits) p base (base + size bits) n inside (contains-invalid a bits)
        (prefix_end a bits h k) (omega arith) in
    rw (masked-v4 a bits h) (ground (arith, tried, inside n))
