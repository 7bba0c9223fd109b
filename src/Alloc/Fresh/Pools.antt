-- ===== src/Alloc/Fresh/Pools.antt =====
-- The allocator where each gateway has one range, and the ranges of two gateways are disjoint.
use mathlib.Core.Path.{subst}
use ts_domain_gateway.Common.{
  ◌≡◌, ◌≢◌, ◌∙◌, inl, inr, sym, ap, refl, true, false, [], ◌∷◌, Option, some, arith, ◌==◌, nat_eq,
  list_eq, eq_iff, Bool-cases, Option-cases,
}
use ts_domain_gateway.GoText.{Bytes}
use ts_domain_gateway.Net.{Addr, Prefix, addr_eq, next_addr, prefix_contains, overlaps}
use ts_domain_gateway.Net.Contains.{overlaps-false-disjoint}
use ts_domain_gateway.Alloc.Assoc.{lookup, insert, lookup-insert}
use ts_domain_gateway.Alloc.{Allocator, Mapping, addr_at, usable, choose, new_allocator}
use ts_domain_gateway.Alloc.Choose.{choose-Usable}
use ts_domain_gateway.Alloc.Maps.{
  IsConsistent, IsFresh, Step, allocated, looked_up, remembered, TakesFresh, Reach, here, next,
  AllFresh, Reach-IsConsistent, allocate_cases, lookup_live_cases, remember_until_cases,
}
use ts_domain_gateway.Alloc.Fresh.{IsRange, IsAhead, choose-IsAhead}
use ts_domain_gateway.Alloc.Fresh.Ahead.{
  allocate_next, remember_next, other-IsAhead, kept-IsAhead, deleted-UsedBelow, allocated-IsAhead,
  remembered-IsAhead,
}

-- Each gateway that has a range has a range of its own.
pub record IsPools (range_of : Bytes → Option Prefix) : Type 0 where
  pub ranges : (g : Bytes) (p : Prefix) → range_of g ≡ some p → IsRange p
  pub separate :
      (g h : Bytes) (p q : Prefix)
      → range_of g ≡ some p
      → range_of h ≡ some q
      → g ≢ h
      → overlaps p q ≡ false

chosen_inside :
    (p : Prefix) (old : Addr) {ip : Addr}
    → choose old (p ∷ []) ≡ some ip
    → prefix_contains p ip ≡ true
chosen_inside p old h = elim (choose-Usable old (p ∷ []) h) [
  | inl u ↦ unfold usable in ground (arith, u)
  | inr none_left ↦ absurd none_left
]

some_injective : {p q : Prefix} → ◌≡◌ {A = Option Prefix} (some p) (some q) → p ≡ q
some_injective h = ground (arith, h)

module _ (range_of : Bytes → Option Prefix) (pools : IsPools range_of) where
  -- Every gateway with a range is ahead of the addresses of it that are in use.
  abbrev pub IsPooled : Allocator → Type 0
  IsPooled a = (g : Bytes) (p : Prefix) → range_of g ≡ some p → (r : IsRange p) → IsAhead r a g

  -- A call is for a gateway with a range: it allocates in this range, or remembers an address of it.
  abbrev pub UsesRange : (a b : Allocator) → Step a b → Type 0
  UsesRange a b (allocated gateway prefixes name e) =
      (p : Prefix) × (range_of gateway ≡ some p) × (prefixes ≡ p ∷ [])
  UsesRange a b (looked_up ip now e) = Unit
  UsesRange a b (remembered gateway domain ip expiry e) =
      (p : Prefix) × (range_of gateway ≡ some p) × (prefix_contains p ip ≡ true)

  abbrev pub AllUseRanges : {a b : Allocator} → Reach a b → Type 0
  AllUseRanges here = Unit
  AllUseRanges (next {b} {c} r s) = AllUseRanges r × UsesRange b c s

  allocated-TakesFresh :
      (a : Allocator) (gateway : Bytes) (p : Prefix)
      → range_of gateway ≡ some p
      → IsPooled a
      → IsFresh a gateway (p ∷ [])
  allocated-TakesFresh a gateway p e pooled ip chosen =
      let r = pools.ranges gateway p e in
      let (m, same, lo, hi, below) = choose-IsAhead p r a gateway (pooled gateway p e r) chosen in
      elim (Option-cases (lookup ip a.by_ip)) [
        | inl free ↦ free
        | inr (k, used) ↦
            let under = below m k lo hi (subst (λ x. lookup x a.by_ip ≡ some k) same used) in
            absurd (omega (arith, under))
      ]

  -- An address of one gateway's range is in no other's.
  outside :
      (g h : Bytes) (p q : Prefix) (ip : Addr)
      → range_of g ≡ some p
      → range_of h ≡ some q
      → (g == h) ≡ false
      → prefix_contains p ip ≡ true
      → prefix_contains q ip ≡ false
  outside g h p q ip e f ne inside =
      overlaps-false-disjoint p q ip
        (pools.separate g h p q e f (λ same. absurd (ground (arith, eq_iff g h, same, ne)))) inside

  -- A gateway adds an address of its range; `own` is what becomes of its own range.
  added-IsPooled :
      (a b : Allocator) (g : Bytes) (p : Prefix) (ip : Addr) (k : Mapping)
      → range_of g ≡ some p
      → prefix_contains p ip ≡ true
      → b.by_ip ≡ insert ip k a.by_ip
      → ((h : Bytes) → (g == h) ≡ false → lookup h b.next ≡ lookup h a.next)
      → ((r : IsRange p) → IsAhead r a g → IsAhead r b g)
      → IsPooled a
      → IsPooled b
  added-IsPooled a b g p ip k e inside added others own pooled h q f r =
      elim (Bool-cases (g == h)) [
        | inr miss ↦
            other-IsAhead r a b g h ip k (others h miss) added (outside g h p q ip e f miss inside)
              (pooled h q f r)
        | inl hit ↦
            let same : g ≡ h = (eq_iff g h).0 hit in
            let mine : p ≡ q = some_injective (sym e ∙ ap range_of same ∙ f) in
            subst (λ t. IsAhead r b t) same
              (subst (λ t. (r' : IsRange t) → IsAhead r' b g) mine (λ r'. own r' (pooled g p e r'))
                r)
      ]

  pub Step-IsPooled : (a b : Allocator) (s : Step a b) → UsesRange a b s → IsPooled a → IsPooled b
  Step-IsPooled a b (allocated gateway prefixes name e) (p, known, only) pooled =
      elim (allocate_cases a gateway prefixes name) [
        | inl (same, _) ↦ subst IsPooled (sym (e ∙ same)) pooled
        | inr (ip, no_key, chosen, adds, _) ↦
            let after =
              ap (λ t. t.next) e ∙ allocate_next a gateway prefixes name ip no_key chosen in
            let added = ap (λ t. t.by_ip) e ∙ adds.1 in
            let choice : choose (addr_at a.next gateway) (p ∷ []) ≡ some ip =
              subst (λ ps. choose (addr_at a.next gateway) ps ≡ some ip) only chosen in
            added-IsPooled a b gateway p ip _ known
              (chosen_inside p (addr_at a.next gateway) choice) added
              (λ h miss.
                ap (lookup h) after
                ∙ ground (arith, miss, lookup-insert gateway h (next_addr ip) a.next))
              (λ r ahead. allocated-IsAhead r a b gateway _ choice after added ahead) pooled
      ]
  Step-IsPooled a b (looked_up ip now e) _ pooled = elim (lookup_live_cases a ip now) [
    | inl (same, _, _) ↦ subst IsPooled (sym (e ∙ same)) pooled
    | inr (m, found, old, gone) ↦
        let left = e ∙ ap (λ t. t.0) gone in
        λ g p f r.
          kept-IsAhead r a b g (ap (λ t. lookup g t.next) left)
            (λ n. deleted-UsedBelow r a b ip n (ap (λ t. t.by_ip) left)) (pooled g p f r)
  ]
  Step-IsPooled a b (remembered gateway domain ip expiry e) (p, known, inside) pooled =
      elim (remember_until_cases a gateway domain ip expiry) [
        | inl same ↦ subst IsPooled (sym (e ∙ same)) pooled
        | inr (no_key, no_ip, adds) ↦
            let after =
              ap (λ t. t.next) e ∙ remember_next a gateway domain ip expiry no_key no_ip in
            let added = ap (λ t. t.by_ip) e ∙ adds.1 in
            added-IsPooled a b gateway p ip _ known inside added
              (λ h miss. ground (arith, after, miss, lookup-insert gateway h (next_addr ip) a.next))
              (λ r ahead. remembered-IsAhead r a b gateway ip _ inside after added ahead) pooled
      ]

  new_allocator-IsPooled : IsPooled new_allocator
  unfolding lookup
  new_allocator-IsPooled g p e r = inl (refl, λ x m lo hi f. absurd (ground (arith, f)))

  Step-TakesFresh :
      (a b : Allocator) (s : Step a b) → UsesRange a b s → IsPooled a → TakesFresh a b s
  Step-TakesFresh a b (allocated gateway prefixes name e) (p, known, only) pooled =
      subst (λ ps. IsFresh a gateway ps) (sym only) (allocated-TakesFresh a gateway p known pooled)
  Step-TakesFresh a b (looked_up ip now e) _ pooled = tt
  Step-TakesFresh a b (remembered gateway domain ip expiry e) _ pooled = tt

  Reach-IsPooled :
      {a : Allocator} (run : Reach new_allocator a) → AllUseRanges run → IsPooled a × AllFresh run
  Reach-IsPooled here u = (new_allocator-IsPooled, tt)
  Reach-IsPooled (next {b} {c} run s) u =
      let (pooled, fresh) = Reach-IsPooled run u.0 in
      (Step-IsPooled b c s u.1 pooled, (fresh, Step-TakesFresh b c s u.1 pooled))

  -- Where each gateway has one IPv4 range that ends below the last address of all, and these ranges are
  -- disjoint: after any calls on a new allocator that stay in the range of their gateway, every allocation
  -- took an address that was not in use, also behind expiry and restored mappings, and the two maps are
  -- inverse to one another.
  pub Reach-AllFresh :
      {a : Allocator} (run : Reach new_allocator a)
      → AllUseRanges run
      → AllFresh run × IsConsistent a
  Reach-AllFresh run u =
      let (_, fresh) = Reach-IsPooled run u in (fresh, Reach-IsConsistent run fresh)
