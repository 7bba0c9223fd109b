-- ===== src/Store/Leased.antt =====
-- The row of a key in the table, and what the statements of an allocation do with it.
use mathlib.Core.Path.{subst}
use ts_domain_gateway.Common.{
  ℕ, ◌≡◌, inl, inr, sym, ap, refl, Bool, true, false, List, [], ◌∷◌, ◌++◌, Option, none, some, ◌==◌,
  nat_eq, list_eq, eq_iff, All, arith, Bool-cases,
}
use ts_domain_gateway.GoText.{Bytes}
use ts_domain_gateway.Store.{
  Row, has_key, is_live, find_row, select_key, select_ip, delete_expired, update_expiry,
}
use ts_domain_gateway.Store.Constraints.{Distinct, IsUnique}

-- A row that is found is one of the rows, and passes the test.
pub find_row-All :
    (P : Row → Type 0) (test : Row → Bool) (rows : List Row) {row : Row}
    → All P rows
    → find_row test rows ≡ some row
    → P row × (test row ≡ true)
unfolding find_row
find_row-All P test [] h e = absurd (ground (arith, e))
find_row-All P test (r ∷ rows) {row} h e = elim (Bool-cases (test r)) [
  | inl hit ↦
      let same : r ≡ row = ground (arith, hit, e) in
      (subst P same h.0, subst (λ x. test x ≡ true) same hit)
  | inr miss ↦ find_row-All P test rows h.1 (ground (arith, miss, e))
]

module _ (gateway domain : Bytes) where
  -- The row of the key, live or not.
  abbrev pub row_of : List Row → Option Row
  row_of = find_row (has_key gateway domain)

  unkeyed :
      (now : ℕ) (row : Row) (rows : List Row)
      → has_key gateway domain row ≡ true
      → All (λ other. Distinct other row) rows
      → select_key gateway domain now rows ≡ none
  unfolding select_key find_row
  unkeyed now row [] k d = refl
  unkeyed now row (r ∷ rows) k d =
      let other : has_key gateway domain r ≡ false = ground (
        arith,
        d.0,
        k,
        eq_iff row.gateway r.gateway,
        eq_iff row.domain r.domain,
        eq_iff row.gateway gateway,
        eq_iff row.domain domain,
        eq_iff r.gateway gateway,
        eq_iff r.domain domain,
      ) in
      ground (arith, other, unkeyed now row rows k d.1)

  -- Where keys are unique, the live row of a key is its only row.
  pub select_key-row_of :
      (now : ℕ) (rows : List Row) {row : Row}
      → IsUnique rows
      → select_key gateway domain now rows ≡ some row
      → row_of rows ≡ some row
  unfolding select_key find_row
  select_key-row_of now [] u e = absurd (ground (arith, e))
  select_key-row_of now (r ∷ rows) {row} u e = elim (Bool-cases (has_key gateway domain r)) [
    | inr other ↦
        let rest : select_key gateway domain now rows ≡ some row = ground (arith, other, e) in
        ground (arith, other, select_key-row_of now rows u.1 rest)
    | inl hit ↦ elim (Bool-cases (is_live now r)) [
      | inl live ↦ ground (arith, hit, live, e)
      | inr dead ↦ absurd (ground (arith, hit, dead, e, unkeyed now r rows hit u.0))
    ]
  ]

  pub row_of-select_key :
      (now : ℕ) (rows : List Row) {row : Row}
      → row_of rows ≡ some row
      → is_live now row ≡ true
      → select_key gateway domain now rows ≡ some row
  unfolding select_key find_row
  row_of-select_key now [] e live = absurd (ground (arith, e))
  row_of-select_key now (r ∷ rows) {row} e live = elim (Bool-cases (has_key gateway domain r)) [
    | inr other ↦
        let rest : row_of rows ≡ some row = ground (arith, other, e) in
        ground (arith, other, row_of-select_key now rows rest live)
    | inl hit ↦
        let same : r ≡ row = ground (arith, hit, e) in
        let lives = subst (λ x. is_live now x ≡ true) (sym same) live in
        ground (arith, hit, lives, e)
  ]

  pub row_of-none :
      (now : ℕ) (rows : List Row) → row_of rows ≡ none → select_key gateway domain now rows ≡ none
  unfolding select_key find_row
  row_of-none now [] e = refl
  row_of-none now (r ∷ rows) e =
      let other : has_key gateway domain r ≡ false = ground (arith, e) in
      ground (arith, other, row_of-none now rows (ground (arith, other, e)))

  -- Behind the deletion of what has expired, a key without a live row has none.
  pub delete_expired-row_of :
      (now : ℕ) (rows : List Row)
      → select_key gateway domain now rows ≡ none
      → row_of (delete_expired now rows) ≡ none
  unfolding select_key find_row delete_expired
  delete_expired-row_of now [] e = refl
  delete_expired-row_of now (r ∷ rows) e = elim (Bool-cases (is_live now r)) [
    | inr dead ↦
        let rest : select_key gateway domain now rows ≡ none = ground (arith, dead, e) in
        ground (arith, dead, delete_expired-row_of now rows rest)
    | inl live ↦
        let other : has_key gateway domain r ≡ false = ground (arith, live, e) in
        let rest : select_key gateway domain now rows ≡ none = ground (arith, live, e) in
        ground (arith, live, other, delete_expired-row_of now rows rest)
  ]

  pub update_expiry-row_of :
      (expiry : ℕ) (rows : List Row) {row : Row}
      → row_of rows ≡ some row
      → row_of (update_expiry gateway domain expiry rows)
        ≡ some (record row { expires = some expiry })
  unfolding find_row update_expiry
  update_expiry-row_of expiry [] e = absurd (ground (arith, e))
  update_expiry-row_of expiry (r ∷ rows) {row} e = elim (Bool-cases (has_key gateway domain r)) [
    | inr other ↦
        let rest : row_of rows ≡ some row = ground (arith, other, e) in
        ground (arith, other, update_expiry-row_of expiry rows rest)
    | inl hit ↦ let same : r ≡ row = ground (arith, hit, e) in ground (arith, hit, same)
  ]

  -- A row that is added for a key without one.
  pub append-row_of :
      (rows : List Row) (new : Row)
      → row_of rows ≡ none
      → has_key gateway domain new ≡ true
      → row_of (rows ++ new ∷ []) ≡ some new
  unfolding find_row
  append-row_of [] new e k = ground (arith, k)
  append-row_of (r ∷ rows) new e k =
      let other : has_key gateway domain r ≡ false = ground (arith, e) in
      ground (arith, other, append-row_of rows new (ground (arith, other, e)) k)

  -- Where addresses are unique, the live row of a key is the one that its address leads to.
  pub row_of-select_ip :
      (now : ℕ) (rows : List Row) {row : Row}
      → IsUnique rows
      → row_of rows ≡ some row
      → is_live now row ≡ true
      → select_ip row.ip now rows ≡ some row
  unfolding select_ip find_row
  row_of-select_ip now [] u e live = absurd (ground (arith, e))
  row_of-select_ip now (r ∷ rows) {row} u e live = elim (Bool-cases (has_key gateway domain r)) [
    | inl hit ↦
        let same : r ≡ row = ground (arith, hit, e) in
        let here : (r.ip == row.ip) ≡ true = (eq_iff r.ip row.ip).1 (ap (λ x. x.ip) same) in
        let lives = subst (λ x. is_live now x ≡ true) (sym same) live in
        ground (arith, here, lives, same)
    | inr other ↦
        let rest : row_of rows ≡ some row = ground (arith, other, e) in
        let apart = (find_row-All (λ x. Distinct x r) (has_key gateway domain) rows u.0 rest).0 in
        let elsewhere : (r.ip == row.ip) ≡ false = ground (arith, apart) in
        ground (arith, elsewhere, row_of-select_ip now rows u.1 rest live)
  ]
