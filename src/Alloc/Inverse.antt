-- ===== src/Alloc/Inverse.antt =====
-- Two maps that are inverse to one another: a key leads to a place, and the value at the place
-- holds the key.
use ts_domain_gateway.Common.{◌≡◌, inl, inr, ap, none, some, arith, Eq, ◌==◌, eq_iff, Bool-cases}
use ts_domain_gateway.Alloc.Assoc.{Dict, lookup, insert, delete, lookup-insert, lookup-delete}

module _ {ℓ} {K A V : Type ℓ} ⦃ek : Eq K⦄ ⦃ea : Eq A⦄ (key : V → K) where
  pub record IsInverse (m : Dict K A) (n : Dict A V) : Type ℓ where
    pub forward :
        (k : K) (a : A) → lookup k m ≡ some a → (v : V) × (lookup a n ≡ some v) × (key v ≡ k)
    pub backward : (a : A) (v : V) → lookup a n ≡ some v → lookup (key v) m ≡ some a

  pub insert-IsInverse :
      (m : Dict K A) (n : Dict A V) (a : A) (v : V)
      → lookup (key v) m ≡ none
      → lookup a n ≡ none
      → IsInverse m n
      → IsInverse (insert (key v) a m) (insert a v n)
  insert-IsInverse m n a v no_key no_place h = record {
    forward = λ k x e. elim (Bool-cases (key v == k)) [
      | inl same ↦ (
        v,
        ground (arith, e, same, lookup-insert (key v) k a m, lookup-insert a x v n, eq_iff a x),
        (eq_iff (key v) k).0 same,
      )
      | inr other ↦
          let old = h.forward k x (ground (arith, e, other, lookup-insert (key v) k a m)) in
          (old.0, ground (arith, old.1, no_place, lookup-insert a x v n, eq_iff a x), old.2)
    ];
    backward = λ x w e. elim (Bool-cases (a == x)) [
      | inl same ↦
          let value : w ≡ v = ground (arith, e, same, lookup-insert a x v n) in
          ground (
            arith,
            value,
            same,
            eq_iff a x,
            lookup-insert (key v) (key w) a m,
            eq_iff (key v) (key w),
            ap key value,
          )
      | inr other ↦
          let old = h.backward x w (ground (arith, e, other, lookup-insert a x v n)) in
          ground (arith, old, no_key, lookup-insert (key v) (key w) a m, eq_iff (key v) (key w))
    ];
  }

  pub delete-IsInverse :
      (m : Dict K A) (n : Dict A V) (a : A) (v : V)
      → lookup a n ≡ some v
      → IsInverse m n
      → IsInverse (delete (key v) m) (delete a n)
  delete-IsInverse m n a v found h = record {
    forward = λ k x e.
        let old = h.forward k x (ground (arith, e, lookup-delete (key v) k m)) in
        (
          old.0,
          ground (
            arith,
            e,
            found,
            old.1,
            old.2,
            ap key,
            lookup-delete a x n,
            lookup-delete (key v) k m,
            eq_iff a x,
            eq_iff (key v) k,
          ),
          old.2,
        );
    backward = λ x w e.
        let old = h.backward x w (ground (arith, e, lookup-delete a x n)) in
        ground (
          arith,
          e,
          old,
          found,
          h.backward a v found,
          lookup-delete a x n,
          lookup-delete (key v) (key w) m,
          eq_iff a x,
          eq_iff (key v) (key w),
        );
  }
