-- ===== src/Store/Open/Migrated.antt =====
-- What opening leaves of a table.
use ts_domain_gateway.Common.{
  ℕ, ◌+◌, ◌≡◌, ◌⊎◌, inl, inr, refl, Bool, true, false, List, [], ◌∷◌, none, some, nat_eq, list_eq,
  eq_iff, arith, Option-cases,
}
use ts_domain_gateway.GoText.{Bytes, codes}
use ts_domain_gateway.Store.{unix_nano, Row}
use ts_domain_gateway.Store.Snapshot.{next_fault}
use ts_domain_gateway.Store.Open.{
  Url, Database, data_source, fill_expiry, filled, migrate, open_store, first_lease,
}

-- The row with an expiry: its own, or the given one.
abbrev pub expiring : ℕ → Row → Row
expiring expiry row = elim row.expires [
  | none ↦ record row { expires = some expiry }
  | some _ ↦ row
]

-- The rows, in order, each with an expiry.
abbrev pub Expiring : ℕ → List Row → List Row → Type 0
Expiring expiry [] [] = Unit {0}
Expiring expiry (row ∷ rows) (row' ∷ rows') =
    (row' ≡ expiring expiry row) × Expiring expiry rows rows'
Expiring expiry _ _ = ⊥

abbrev rows_before : Database → List Row
rows_before d = elim d.rows [ none ↦ [] | some rows ↦ rows ]

fill_expiry-Expiring :
    (expiry : ℕ) (rows : List Row) → Expiring expiry rows (fill_expiry expiry rows)
unfolding fill_expiry
fill_expiry-Expiring expiry [] = tt
fill_expiry-Expiring expiry (row ∷ rows) = (refl, fill_expiry-Expiring expiry rows)

abbrev IsMigrated : ℕ → Database → Database → Type 0
IsMigrated now d out =
    (out.has_expiry ≡ true)
    × ((rows : List Row) × (out.rows ≡ some rows)
        × Expiring (unix_nano (now + first_lease)) (rows_before d) rows)

migrate-IsMigrated :
    (now : ℕ) (faults : List Bool) (d : Database) {out : Database}
    → migrate now faults d ≡ (true, out)
    → IsMigrated now d out
unfolding migrate filled
migrate-IsMigrated now faults d {out} h = elim (Option-cases d.rows) [
  | inl e ↦
      let got : out.rows ≡ some [] = unfold fill_expiry in ground (arith, e, h) in
      (ground (arith, e, h), ([], got, rw e tt))
  | inr (rows, e) ↦
      let got : out.rows ≡ some (fill_expiry (unix_nano (now + first_lease)) rows) =
        ground (arith, e, h) in
      (
        ground (arith, e, h),
        (
          fill_expiry (unix_nano (now + first_lease)) rows,
          got,
          rw e (fill_expiry-Expiring (unix_nano (now + first_lease)) rows),
        ),
      )
]

-- Opening succeeds only with a URL of one of the two schemes, and leaves a table with the column for
-- the expiry, in which every row that was there is kept, with its own expiry or one of an hour.
pub open_store-Expiring :
    (url : Bytes) (u : Url) (now : ℕ) (faults : List Bool) (d : Database) {out : Database}
    → open_store url u now faults d ≡ (true, out)
    → ((u.scheme ≡ codes "sqlite") ⊎ (u.scheme ≡ codes "postgres"))
      × (out.has_expiry ≡ true)
      × ((rows : List Row) × (out.rows ≡ some rows)
          × Expiring (unix_nano (now + first_lease)) (rows_before d) rows)
unfolding open_store
open_store-Expiring url u now faults d {out} h =
    let scheme : (u.scheme ≡ codes "sqlite") ⊎ (u.scheme ≡ codes "postgres") =
      unfold data_source in
      ground (arith, h, eq_iff u.scheme (codes "sqlite"), eq_iff u.scheme (codes "postgres")) in
    let behind : (later : List Bool) × (migrate now later d ≡ (true, out)) =
      elim (Option-cases (data_source url u)) [
        | inl e ↦ absurd (ground (arith, e, h))
        | inr ((true, source), e) ↦ ((next_fault (next_fault faults).1).1, ground (arith, e, h))
        | inr ((false, source), e) ↦
            ((next_fault (next_fault (next_fault faults).1).1).1, ground (arith, e, h))
      ] in
    let done = migrate-IsMigrated now behind.0 d behind.1 in (scheme, done.0, done.1)
