-- ===== src/Store/Others.antt =====
-- What the statements of other instances do to the table, and what of it they keep.
use mathlib.Core.Path.{subst}
use ts_domain_gateway.Common.{
  ℕ, ◌<◌, ◌≤◌, ◌≡◌, ◌∙◌, inl, inr, sym, refl, true, List, [], ◌∷◌, ◌++◌, some, nat_eq, list_eq,
  if◌then◌else◌, All, All-append, arith, Bool-cases,
}
use ts_domain_gateway.GoText.{Bytes}
use ts_domain_gateway.Store.{
  Row, has_key, is_live, find_row, conflicts, insert_row, delete_expired, update_expiry, unix_nano,
  order,
}
use ts_domain_gateway.Store.Constraints.{
  IsUnique, insert_row-IsUnique, delete_expired-IsUnique, update_expiry-IsUnique,
  delete_expired-All, update_expiry-All,
}
use ts_domain_gateway.Store.Gives.{IsStable}
use ts_domain_gateway.Store.Leased.{row_of, update_expiry-row_of}

-- The row does not expire before a place in the order of times.
abbrev pub Lasts : ℕ → Row → Type 0
Lasts limit row = (e : ℕ) × (row.expires ≡ some e) × (limit ≤ order e)

pub Lasts-is_live :
    (limit now : ℕ) (row : Row)
    → Lasts limit row
    → order (unix_nano now) < limit
    → is_live now row ≡ true
Lasts-is_live limit now row (e, set, long) early = ground (arith, set, long, early)

-- The row of the key has this text for its address, and lasts.
pub record HeldAt (gateway domain : Bytes) (limit : ℕ) (text : Bytes) (rows : List Row)
    : Type 0 where
  pub row : Row
  pub held : row_of gateway domain rows ≡ some row
  pub same : row.ip ≡ text
  pub lasts : Lasts limit row

pub insert_row-All :
    (P : Row → Type 0) (new : Row) (rows : List Row)
    → P new
    → All P rows
    → All P (insert_row new rows).1
unfolding insert_row
insert_row-All P new rows p h = elim (Bool-cases (conflicts new rows)) [
  | inl clash ↦ rw clash h
  | inr free ↦ rw free (All-append P rows (new ∷ []) h (p, tt))
]

module _ (gateway domain : Bytes) where
  append-held :
      (new : Row) (rows : List Row) {row : Row}
      → row_of gateway domain rows ≡ some row
      → row_of gateway domain (rows ++ new ∷ []) ≡ some row
  unfolding find_row
  append-held new [] e = absurd (ground (arith, e))
  append-held new (r ∷ rows) {row} e = elim (Bool-cases (has_key gateway domain r)) [
    | inl hit ↦ ground (arith, hit, e)
    | inr other ↦
        let rest : row_of gateway domain rows ≡ some row = ground (arith, other, e) in
        ground (arith, other, append-held new rows rest)
  ]

  insert_row-row_of :
      (new : Row) (rows : List Row) {row : Row}
      → row_of gateway domain rows ≡ some row
      → row_of gateway domain (insert_row new rows).1 ≡ some row
  unfolding insert_row
  insert_row-row_of new rows e = elim (Bool-cases (conflicts new rows)) [
    | inl clash ↦ rw clash e
    | inr free ↦ rw free (append-held new rows e)
  ]

  delete_expired-held :
      (now : ℕ) (rows : List Row) {row : Row}
      → row_of gateway domain rows ≡ some row
      → is_live now row ≡ true
      → row_of gateway domain (delete_expired now rows) ≡ some row
  unfolding find_row delete_expired
  delete_expired-held now [] e live = absurd (ground (arith, e))
  delete_expired-held now (r ∷ rows) {row} e live = elim (Bool-cases (has_key gateway domain r)) [
    | inl hit ↦
        let same : r ≡ row = ground (arith, hit, e) in
        let lives = subst (λ x. is_live now x ≡ true) (sym same) live in
        ground (arith, hit, lives, e)
    | inr other ↦
        let rest : row_of gateway domain rows ≡ some row = ground (arith, other, e) in
        ground (arith, other, delete_expired-held now rows rest live)
  ]

  -- Another key's renewal leaves the row, and its own changes the expiry alone.
  pub update_expiry-held :
      (gateway' domain' : Bytes) (expiry : ℕ) (rows : List Row) {row : Row}
      → row_of gateway domain rows ≡ some row
      → row_of gateway domain (update_expiry gateway' domain' expiry rows)
        ≡ some (if has_key gateway' domain' row then record row { expires = some expiry } else row)
  unfolding find_row update_expiry
  update_expiry-held gateway' domain' expiry [] e = absurd (ground (arith, e))
  update_expiry-held gateway' domain' expiry (r ∷ rows) {row} e =
      elim (Bool-cases (has_key gateway domain r)) [
        | inl hit ↦ let same : r ≡ row = ground (arith, hit, e) in ground (arith, hit, same)
        | inr other ↦
            let rest : row_of gateway domain rows ≡ some row = ground (arith, other, e) in
            ground (arith, other, update_expiry-held gateway' domain' expiry rows rest)
      ]

  -- A renewal of the row itself.
  pub renewed-HeldAt :
      (limit limit' expiry : ℕ) (text : Bytes) (rows : List Row)
      → HeldAt gateway domain limit text rows
      → limit' ≤ order expiry
      → HeldAt gateway domain limit' text (update_expiry gateway domain expiry rows)
  renewed-HeldAt limit limit' expiry text rows h long = record {
    row = record h.row { expires = some expiry };
    held = update_expiry-row_of gateway domain expiry rows h.held;
    same = h.same;
    lasts = (expiry, refl, long);
  }

-- Addresses in the table are written as String writes them.
module _ (IsText : Bytes → Type 0) where
  -- A statement of another instance: an insertion, a deletion before one place in the order of times, or
  -- a renewal; what is inserted or renewed lasts to another place.
  pub data Step (before until : ℕ) (rows : List Row) : List Row → Type 0 where
    inserts :
        (new : Row)
        → IsText new.ip
        → Lasts until new
        → Step before until rows (insert_row new rows).1
    deletes :
        (now : ℕ)
        → order (unix_nano now) < before
        → Step before until rows (delete_expired now rows)
    renews :
        (gateway domain : Bytes) (expiry : ℕ)
        → until ≤ order expiry
        → Step before until rows (update_expiry gateway domain expiry rows)

  -- Any number of them.
  pub data Steps (before until : ℕ) (rows : List Row) : List Row → Type 0 where
    nothing : Steps before until rows rows
    after :
        {between rows' : List Row}
        → Steps before until rows between
        → Step before until between rows'
        → Steps before until rows rows'

  module _ (before until : ℕ) (P : List Row → Type 0) where
    pub Steps-IsStable :
        ((rows rows' : List Row) → Step before until rows rows' → P rows → P rows')
        → IsStable (Steps before until) P
    Steps-IsStable k rows rows' nothing h = h
    Steps-IsStable k rows rows' (after {between} past s) h =
        k between rows' s (Steps-IsStable k rows between past h)

  pub Step-IsUnique :
      (before until : ℕ) (rows rows' : List Row)
      → Step before until rows rows'
      → IsUnique rows
      → IsUnique rows'
  Step-IsUnique before until rows _ (inserts new t l) u = insert_row-IsUnique new rows u
  Step-IsUnique before until rows _ (deletes now b) u = delete_expired-IsUnique now rows u
  Step-IsUnique before until rows _ (renews g d e l) u = update_expiry-IsUnique g d e rows u

  -- A property of the single rows that the new rows have, and that no longer lease takes away.
  pub Step-All :
      (before until : ℕ) (P : Row → Type 0)
      → ((new : Row) → IsText new.ip → Lasts until new → P new)
      → ((row : Row) (e : ℕ) → until ≤ order e → P row → P (record row { expires = some e }))
      → (rows rows' : List Row) → Step before until rows rows'
      → All P rows
      → All P rows'
  Step-All before until P k j rows _ (inserts new t l) h = insert_row-All P new rows (k new t l) h
  Step-All before until P k j rows _ (deletes now b) h = delete_expired-All P now rows h
  Step-All before until P k j rows _ (renews g d e l) h =
      update_expiry-All P g d e (λ row. j row e l) rows h

  pub Step-HeldAt :
      (gateway domain : Bytes) (before until limit : ℕ) (text : Bytes)
      → before ≤ limit
      → limit ≤ until
      → (rows rows' : List Row) → Step before until rows rows'
      → HeldAt gateway domain limit text rows
      → HeldAt gateway domain limit text rows'
  Step-HeldAt gateway domain before until limit text b u rows _ (inserts new t l) h = record {
    row = h.row;
    held = insert_row-row_of gateway domain new rows h.held;
    same = h.same;
    lasts = h.lasts;
  }
  Step-HeldAt gateway domain before until limit text b u rows _ (deletes now early) h = record {
    row = h.row;
    held =
        delete_expired-held gateway domain now rows h.held
          (Lasts-is_live limit now h.row h.lasts (omega (arith, early, b)));
    same = h.same;
    lasts = h.lasts;
  }
  Step-HeldAt gateway domain before until limit text b u rows _ (renews g d e long) h =
      elim (Bool-cases (has_key g d h.row)) [
        | inl hit ↦ record {
          row = record h.row { expires = some e };
          held = update_expiry-held gateway domain g d e rows h.held ∙ ground (arith, hit);
          same = h.same;
          lasts = (e, refl, omega (arith, long, u));
        }
        | inr other ↦ record {
          row = h.row;
          held = update_expiry-held gateway domain g d e rows h.held ∙ ground (arith, other);
          same = h.same;
          lasts = h.lasts;
        }
      ]
