-- ===== src/Store/Constraints.antt =====
-- The constraints of the table, over its statements and the steps around them.
use ts_domain_gateway.Common.{
  ℕ, ◌≡◌, inl, inr, false, ◌||◌, List, [], ◌∷◌, ◌++◌, some, ◌==◌, nat_eq, list_eq, All, All-append,
  arith, Bool-cases,
}
use ts_domain_gateway.GoText.{Bytes}
use ts_domain_gateway.Store.{
  Row, has_key, is_live, conflicts, insert_row, delete_expired, update_expiry,
}

-- Two rows with different keys and different addresses.
abbrev pub Distinct : Row → Row → Type 0
Distinct new row = (has_key new.gateway new.domain row || row.ip == new.ip) ≡ false

-- The primary key and the unique column hold.
abbrev pub IsUnique : List Row → Type 0
IsUnique [] = Unit {0}
IsUnique (row ∷ rows) = All (λ other. Distinct other row) rows × IsUnique rows

pub conflicts-Distinct :
    (new : Row) (rows : List Row) → conflicts new rows ≡ false → All (λ row. Distinct new row) rows
conflicts-Distinct new [] h = tt
conflicts-Distinct new (row ∷ rows) h = (ground arith, conflicts-Distinct new rows (ground arith))

pub append-IsUnique :
    (rows : List Row) (new : Row)
    → IsUnique rows
    → All (λ row. Distinct new row) rows
    → IsUnique (rows ++ new ∷ [])
append-IsUnique [] new u d = (tt, tt)
append-IsUnique (row ∷ rows) new u d = (
  All-append (λ other. Distinct other row) rows (new ∷ []) u.0 (d.0, tt),
  append-IsUnique rows new u.1 d.1,
)

pub insert_row-IsUnique :
    (new : Row) (rows : List Row) → IsUnique rows → IsUnique (insert_row new rows).1
unfolding insert_row
insert_row-IsUnique new rows u = elim (Bool-cases (conflicts new rows)) [
  | inl clash ↦ rw clash u
  | inr free ↦ rw free (append-IsUnique rows new u (conflicts-Distinct new rows free))
]

pub delete_expired-All :
    (P : Row → Type 0) (now : ℕ) (rows : List Row) → All P rows → All P (delete_expired now rows)
unfolding delete_expired
delete_expired-All P now [] h = tt
delete_expired-All P now (row ∷ rows) h = elim (Bool-cases (is_live now row)) [
  | inl live ↦ rw live (h.0, delete_expired-All P now rows h.1)
  | inr old ↦ rw old (delete_expired-All P now rows h.1)
]

pub delete_expired-IsUnique :
    (now : ℕ) (rows : List Row) → IsUnique rows → IsUnique (delete_expired now rows)
unfolding delete_expired
delete_expired-IsUnique now [] u = tt
delete_expired-IsUnique now (row ∷ rows) u = elim (Bool-cases (is_live now row)) [
  | inl live ↦ rw live (
    delete_expired-All (λ other. Distinct other row) now rows u.0,
    delete_expired-IsUnique now rows u.1,
  )
  | inr old ↦ rw old (delete_expired-IsUnique now rows u.1)
]

pub update_expiry-All :
    (P : Row → Type 0) (gateway domain : Bytes) (expiry : ℕ)
    → ((row : Row) → P row → P (record row { expires = some expiry }))
    → (rows : List Row) → All P rows
    → All P (update_expiry gateway domain expiry rows)
unfolding update_expiry
update_expiry-All P gateway domain expiry k [] h = tt
update_expiry-All P gateway domain expiry k (row ∷ rows) h =
    elim (Bool-cases (has_key gateway domain row)) [
      | inl hit ↦ rw hit (k row h.0, update_expiry-All P gateway domain expiry k rows h.1)
      | inr miss ↦ rw miss (h.0, update_expiry-All P gateway domain expiry k rows h.1)
    ]

pub update_expiry-IsUnique :
    (gateway domain : Bytes) (expiry : ℕ) (rows : List Row)
    → IsUnique rows
    → IsUnique (update_expiry gateway domain expiry rows)
unfolding update_expiry
update_expiry-IsUnique gateway domain expiry [] u = tt
update_expiry-IsUnique gateway domain expiry (row ∷ rows) u =
    let others =
      update_expiry-All (λ other. Distinct other row) gateway domain expiry (λ r d. d) rows u.0 in
    elim (Bool-cases (has_key gateway domain row)) [
      | inl hit ↦ rw hit (others, update_expiry-IsUnique gateway domain expiry rows u.1)
      | inr miss ↦ rw miss (others, update_expiry-IsUnique gateway domain expiry rows u.1)
    ]
