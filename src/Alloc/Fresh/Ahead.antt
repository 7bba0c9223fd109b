-- ===== src/Alloc/Fresh/Ahead.antt =====
-- What the calls of the allocator leave of how far a gateway has used its range up.
use mathlib.Core.Path.{subst}
use ts_domain_gateway.Common.{
  ℕ, ◌+◌, ◌≤◌, ◌<◌, ◌≡◌, ◌∙◌, inl, inr, sym, ap, true, false, not, ◌||◌, List, [], ◌∷◌, none, some,
  ltb, arith, ◌==◌, nat_eq, list_eq, if◌then◌else◌, eq_iff, Bool-cases,
}
use ts_domain_gateway.GoText.{Bytes}
use ts_domain_gateway.Net.{Addr, v4, Prefix, addr_eq, is_valid, next_addr, less, prefix_contains}
use ts_domain_gateway.Alloc.Assoc.{
  lookup, insert, delete, lookup-insert, lookup-insert_same, lookup-delete,
}
use ts_domain_gateway.Alloc.{Allocator, Mapping, key_of, addr_at, choose, allocate, remember_until}
use ts_domain_gateway.Alloc.Fresh.{
  IsRange, low, high, range_interval, range_v4, UsedBelow, IsAhead, choose-IsAhead,
}

pub allocate_next :
    (a : Allocator) (gateway : Bytes) (prefixes : List Prefix) (name : Bytes) (ip : Addr)
    → lookup (key_of gateway name) a.by_key ≡ none
    → choose (addr_at a.next gateway) prefixes ≡ some ip
    → (allocate a gateway prefixes name).0.next ≡ insert gateway (next_addr ip) a.next
unfolding allocate
allocate_next a gateway prefixes name ip e f = ground (arith, e, f)

pub remember_next :
    (a : Allocator) (gateway domain : Bytes) (ip : Addr) (expiry : ℕ)
    → lookup (key_of gateway domain) a.by_key ≡ none
    → lookup ip a.by_ip ≡ none
    → (remember_until a gateway domain ip expiry).next ≡ (
        if not (is_valid (addr_at a.next gateway)) || less (addr_at a.next gateway) (next_addr ip)
        then insert gateway (next_addr ip) a.next
        else a.next)
unfolding remember_until
remember_next a gateway domain ip expiry e f = ground (arith, e, f)

next_inside : {p : Prefix} (r : IsRange p) (m : ℕ) → m < high r → next_addr (v4 m) ≡ v4 (m + 1)
unfolding next_addr
next_inside r m h = let small = r.ends in ground (arith, small, h)

module _ {p : Prefix} (r : IsRange p) (a b : Allocator) where
  -- One more address in use.
  added-UsedBelow :
      (ip : Addr) (m : Mapping) (n n' : ℕ)
      → b.by_ip ≡ insert ip m a.by_ip
      → n ≤ n'
      → ((x : ℕ) → ip ≡ v4 x → low r ≤ x → x < high r → x < n')
      → UsedBelow r a n
      → UsedBelow r b n'
  added-UsedBelow ip m n n' e more new below x k lo hi found =
      let there : lookup (v4 x) (insert ip m a.by_ip) ≡ some k =
        subst (λ d. lookup (v4 x) d ≡ some k) e found in
      elim (Bool-cases (ip == v4 x)) [
        | inl hit ↦ new x ((eq_iff ip (v4 x)).0 hit) lo hi
        | inr miss ↦
            let before : lookup (v4 x) a.by_ip ≡ some k =
              ground (arith, lookup-insert ip (v4 x) m a.by_ip, miss, there) in
            let used = below x k lo hi before in omega arith
      ]

  pub deleted-UsedBelow :
      (ip : Addr) (n : ℕ) → b.by_ip ≡ delete ip a.by_ip → UsedBelow r a n → UsedBelow r b n
  deleted-UsedBelow ip n e below x k lo hi found =
      let there : lookup (v4 x) (delete ip a.by_ip) ≡ some k =
        subst (λ d. lookup (v4 x) d ≡ some k) e found in
      below x k lo hi (ground (arith, lookup-delete ip (v4 x) a.by_ip, there))

  -- The gateway's next address stays, and its range has no more addresses in use.
  pub kept-IsAhead :
      (g : Bytes)
      → lookup g b.next ≡ lookup g a.next
      → ((n : ℕ) → UsedBelow r a n → UsedBelow r b n)
      → IsAhead r a g
      → IsAhead r b g
  kept-IsAhead g same keep (inl (unset, below)) = inl (same ∙ unset, keep (low r) below)
  kept-IsAhead g same keep (inr (n, set, above, top, below)) =
      inr (n, same ∙ set, above, top, keep n below)

  -- Another gateway adds an address that is not in the range.
  pub other-IsAhead :
      (g h : Bytes) (ip : Addr) (m : Mapping)
      → lookup h b.next ≡ lookup h a.next
      → b.by_ip ≡ insert ip m a.by_ip
      → prefix_contains p ip ≡ false
      → IsAhead r a h
      → IsAhead r b h
  other-IsAhead g h ip m same e outside = kept-IsAhead h same (λ n.
      added-UsedBelow ip m n n e (omega arith) (λ x here lo hi.
        let hit = (range_interval p r x).1 (lo, hi) in
        let no : prefix_contains p (v4 x) ≡ false =
          subst (λ y. prefix_contains p y ≡ false) here outside in
        absurd (ground (arith, hit, no))))

v4_injective : {x y : ℕ} → v4 x ≡ v4 y → x ≡ y
v4_injective h = ground (arith, h)

module _ {p : Prefix} (r : IsRange p) (a b : Allocator) (g : Bytes) where
  -- The gateway itself takes the address `m`, and goes on behind it or behind what it had.
  own-IsAhead :
      (ip : Addr) (m n n' : ℕ) (k : Mapping)
      → ip ≡ v4 m
      → low r ≤ m
      → m < n'
      → n' ≤ high r
      → n ≤ n'
      → lookup g b.next ≡ some (v4 n')
      → b.by_ip ≡ insert ip k a.by_ip
      → UsedBelow r a n
      → IsAhead r b g
  own-IsAhead ip m n n' k same lo behind top more set e below = inr (
    n',
    set,
    omega arith,
    top,
    added-UsedBelow r a b ip k n n' e more
        (λ x here _ _. let is_m = v4_injective (sym same ∙ here) in omega arith) below,
  )

  pub allocated-IsAhead :
      {ip : Addr} (k : Mapping)
      → choose (addr_at a.next g) (p ∷ []) ≡ some ip
      → b.next ≡ insert g (next_addr ip) a.next
      → b.by_ip ≡ insert ip k a.by_ip
      → IsAhead r a g
      → IsAhead r b g
  allocated-IsAhead {ip} k chosen after e ahead =
      let (m, same, lo, hi, below) = choose-IsAhead p r a g ahead chosen in
      let step : next_addr ip ≡ v4 (m + 1) = ap next_addr same ∙ next_inside r m hi in
      let set : lookup g b.next ≡ some (v4 (m + 1)) =
        ap (lookup g) after ∙ lookup-insert_same g (next_addr ip) a.next ∙ ap some step in
      own-IsAhead ip m m (m + 1) k same lo (omega arith) (omega arith) (omega arith) set e below

  pub remembered-IsAhead :
      (ip : Addr) (k : Mapping)
      → prefix_contains p ip ≡ true
      → b.next ≡ (
          if not (is_valid (addr_at a.next g)) || less (addr_at a.next g) (next_addr ip)
          then insert g (next_addr ip) a.next
          else a.next)
      → b.by_ip ≡ insert ip k a.by_ip
      → IsAhead r a g
      → IsAhead r b g
  remembered-IsAhead ip k inside after e ahead =
      let (m, same) = range_v4 p r ip inside in
      let (lo, hi) =
        (range_interval p r m).0 (subst (λ x. prefix_contains p x ≡ true) same inside) in
      let step : next_addr ip ≡ v4 (m + 1) = ap next_addr same ∙ next_inside r m hi in
      let set = lookup-insert_same g (next_addr ip) a.next in
      elim ahead [
        | inl (unset, below) ↦
            let fresh : lookup g b.next ≡ some (v4 (m + 1)) =
              ground (arith, after, unset, set, step) in
            own-IsAhead ip m (low r) (m + 1) k same lo (omega arith) (omega arith) (omega arith)
              fresh e below
        | inr (n, old, above, top, below) ↦ elim (Bool-cases (ltb n (m + 1))) [
          | inl grows ↦
              let fresh : lookup g b.next ≡ some (v4 (m + 1)) =
                unfold less in ground (arith, after, old, set, step, grows) in
              let more : n ≤ m + 1 = ground (arith, grows) in
              own-IsAhead ip m n (m + 1) k same lo (omega arith) (omega arith) more fresh e below
          | inr stays ↦
              let held : lookup g b.next ≡ some (v4 n) =
                unfold less in ground (arith, after, old, step, stays) in
              let behind : m < n = ground (arith, stays) in
              own-IsAhead ip m n n k same lo behind top (omega arith) held e below
        ]
      ]
