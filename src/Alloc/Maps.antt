-- ===== src/Alloc/Maps.antt =====
-- The two maps of the allocator as inverses of one another, over sequences of its methods.
use mathlib.Core.Path.{subst}
use ts_domain_gateway.Common.{
  ℕ, true, false, ◌≡◌, ◌∙◌, ◌≢◌, ◌⊎◌, inl, inr, sym, ap, List, none, some, nat_eq, list_eq, arith,
  Bool-cases, Option-cases,
}
use ts_domain_gateway.GoText.{Bytes}
use ts_domain_gateway.Net.{Addr, Prefix, addr_eq}
use ts_domain_gateway.Alloc.Assoc.{lookup, insert}
use ts_domain_gateway.Alloc.Inverse.{IsInverse, insert-IsInverse, delete-IsInverse}
use ts_domain_gateway.Alloc.{
  Allocator, Mapping, key_of, addr_at, choose, allocate, lookup_ip, is_expired, forget, lookup_live,
  lookup_key, remember_until, new_allocator,
}

abbrev pub mapping_key : Mapping → Bytes
mapping_key m = key_of m.gateway m.domain

-- Each key leads to an address whose mapping has that key, and each mapping's key leads back.
abbrev pub IsConsistent : Allocator → Type 0
IsConsistent a = IsInverse mapping_key a.by_key a.by_ip

pub new_allocator-IsConsistent : IsConsistent new_allocator
unfolding lookup
new_allocator-IsConsistent = record { forward = λ k x e. cc; backward = λ x m e. cc }

-- The maps with one more mapping.
abbrev pub Adds : Allocator → Bytes → Bytes → Addr → Allocator → Type 0
Adds a gateway domain ip b =
    (b.by_key ≡ insert (key_of gateway domain) ip a.by_key)
    × (b.by_ip ≡ insert ip (record { gateway = gateway; domain = domain }) a.by_ip)

pub remember_until_cases :
    (a : Allocator) (gateway domain : Bytes) (ip : Addr) (expiry : ℕ)
    → (remember_until a gateway domain ip expiry ≡ a)
      ⊎ ((lookup (key_of gateway domain) a.by_key ≡ none)
          × (lookup ip a.by_ip ≡ none)
          × Adds a gateway domain ip (remember_until a gateway domain ip expiry))
unfolding remember_until
remember_until_cases a gateway domain ip expiry =
    elim (Option-cases (lookup (key_of gateway domain) a.by_key)) [
      | inr (x, e) ↦ inl (ground (arith, e))
      | inl e ↦ elim (Option-cases (lookup ip a.by_ip)) [
        | inr (m, f) ↦ inl (ground (arith, e, f))
        | inl f ↦ inr (e, f, (ground (arith, e, f), ground (arith, e, f)))
      ]
    ]

pub lookup_live_cases :
    (a : Allocator) (ip : Addr) (now : ℕ)
    → ((lookup_live a ip now).0 ≡ a)
        × ((lookup_live a ip now).1 ≡ lookup_ip a ip)
        × ((lookup_ip a ip ≢ none) → is_expired a ip now ≡ false)
      ⊎ ((m : Mapping) × (lookup ip a.by_ip ≡ some m)
          × (is_expired a ip now ≡ true)
          × (lookup_live a ip now ≡ (forget a ip m, none)))
unfolding lookup_live lookup_ip
lookup_live_cases a ip now = elim (Option-cases (lookup ip a.by_ip)) [
  | inl e ↦ inl (ground (arith, e), ground (arith, e), λ n. absurd (n e))
  | inr (m, e) ↦ elim (Bool-cases (is_expired a ip now)) [
    | inl old ↦ inr (m, e, old, ground (arith, e, old))
    | inr live ↦ inl (ground (arith, e, live), ground (arith, e, live), λ n. live)
  ]
]

pub allocate_cases :
    (a : Allocator) (gateway : Bytes) (prefixes : List Prefix) (name : Bytes)
    → ((allocate a gateway prefixes name).0 ≡ a)
        × ((allocate a gateway prefixes name).1 ≡ lookup_key a gateway name)
      ⊎ ((ip : Addr) × (lookup (key_of gateway name) a.by_key ≡ none)
          × (choose (addr_at a.next gateway) prefixes ≡ some ip)
          × Adds a gateway name ip (allocate a gateway prefixes name).0
          × ((allocate a gateway prefixes name).1 ≡ some ip))
unfolding allocate lookup_key
allocate_cases a gateway prefixes name =
    elim (Option-cases (lookup (key_of gateway name) a.by_key)) [
      | inr (x, e) ↦ inl (ground (arith, e), ground (arith, e))
      | inl e ↦ elim (Option-cases (choose (addr_at a.next gateway) prefixes)) [
        | inl f ↦ inl (ground (arith, e, f), ground (arith, e, f))
        | inr (ip, f) ↦
            inr (ip, e, f, (ground (arith, e, f), ground (arith, e, f)), ground (arith, e, f))
      ]
    ]

Adds-IsConsistent :
    (a b : Allocator) (gateway domain : Bytes) (ip : Addr)
    → lookup (key_of gateway domain) a.by_key ≡ none
    → lookup ip a.by_ip ≡ none
    → Adds a gateway domain ip b
    → IsConsistent a
    → IsConsistent b
Adds-IsConsistent a b gateway domain ip e f (k, i) h =
    rw (k, i)
      (insert-IsInverse mapping_key a.by_key a.by_ip ip
        (record { gateway = gateway; domain = domain }) e f h)

-- The address that an allocation would take now is not in use.
abbrev pub IsFresh : Allocator → Bytes → List Prefix → Type 0
IsFresh a gateway prefixes =
    (ip : Addr) → choose (addr_at a.next gateway) prefixes ≡ some ip → lookup ip a.by_ip ≡ none

-- The calls that change the allocator.
pub data Step (a b : Allocator) : Type 0 where
  allocated :
      (gateway : Bytes) (prefixes : List Prefix) (name : Bytes)
      → b ≡ (allocate a gateway prefixes name).0
      → Step a b
  looked_up : (ip : Addr) (now : ℕ) → b ≡ (lookup_live a ip now).0 → Step a b
  remembered :
      (gateway domain : Bytes) (ip : Addr) (expiry : ℕ)
      → b ≡ remember_until a gateway domain ip expiry
      → Step a b

-- An allocation takes a fresh address.
abbrev pub TakesFresh : (a b : Allocator) → Step a b → Type 0
TakesFresh a b (allocated gateway prefixes name e) = IsFresh a gateway prefixes
TakesFresh a b (looked_up ip now e) = Unit
TakesFresh a b (remembered gateway domain ip expiry e) = Unit

pub Step-IsConsistent :
    (a b : Allocator) (s : Step a b) → TakesFresh a b s → IsConsistent a → IsConsistent b
Step-IsConsistent a b (allocated gateway prefixes name e) fresh h =
    elim (allocate_cases a gateway prefixes name) [
      | inl (same, _) ↦ subst IsConsistent (sym (e ∙ same)) h
      | inr (ip, no_key, chosen, adds, _) ↦
          Adds-IsConsistent a b gateway name ip no_key (fresh ip chosen)
            (ap (λ t. t.by_key) e ∙ adds.0, ap (λ t. t.by_ip) e ∙ adds.1) h
    ]
Step-IsConsistent a b (looked_up ip now e) _ h = elim (lookup_live_cases a ip now) [
  | inl (same, _, _) ↦ subst IsConsistent (sym (e ∙ same)) h
  | inr (m, found, old, gone) ↦
      subst IsConsistent (sym (e ∙ ap (λ t. t.0) gone))
        (delete-IsInverse mapping_key a.by_key a.by_ip ip m found h)
]
Step-IsConsistent a b (remembered gateway domain ip expiry e) _ h =
    elim (remember_until_cases a gateway domain ip expiry) [
      | inl same ↦ subst IsConsistent (sym (e ∙ same)) h
      | inr (no_key, no_ip, adds) ↦
          Adds-IsConsistent a b gateway domain ip no_key no_ip
            (ap (λ t. t.by_key) e ∙ adds.0, ap (λ t. t.by_ip) e ∙ adds.1) h
    ]

pub data Reach (a : Allocator) : Allocator → Type 0 where
  here : Reach a a
  next : {b c : Allocator} → Reach a b → Step b c → Reach a c

-- Every allocation on the way takes a fresh address.
abbrev pub AllFresh : {a b : Allocator} → Reach a b → Type 0
AllFresh here = Unit
AllFresh (next {b} {c} r s) = AllFresh r × TakesFresh b c s

-- After any calls on a new allocator of which no allocation took an address in use, each key leads
-- to an address whose mapping has that key, and each mapping's key leads back to its address.
pub Reach-IsConsistent : {a : Allocator} (r : Reach new_allocator a) → AllFresh r → IsConsistent a
Reach-IsConsistent here f = new_allocator-IsConsistent
Reach-IsConsistent (next {b} {c} r s) f = Step-IsConsistent b c s f.1 (Reach-IsConsistent r f.0)
