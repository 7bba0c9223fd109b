-- ===== src/Store/Snapshot/Kept.antt =====
-- The constraints of the table, over a snapshot.
use ts_domain_gateway.Common.{
  ◌≡◌, ◌⊎◌, inl, inr, refl, sym, Bool, true, false, not, ◌&&◌, List, [], ◌∷◌, Option, none, some,
  ◌==◌, nat_eq, list_eq, eq_iff, if◌then◌else◌, All, arith, Bool-cases,
}
use ts_domain_gateway.GoText.{Bytes}
use ts_domain_gateway.Net.{Addr}
use ts_domain_gateway.Alloc.Assoc.{Dict}
use ts_domain_gateway.Alloc.{Mapping}
use ts_domain_gateway.Alloc.Disk.{DiskMapping, rows_of}
use ts_domain_gateway.Store.{Row, Registry, has_key, conflicts}
use ts_domain_gateway.Store.Constraints.{Distinct, IsUnique, conflicts-Distinct, append-IsUnique}
use mathlib.Core.Path.{subst}
use ts_domain_gateway.Store.Snapshot.Saved.{
  is_recorded, KeysOnce, added, upsert_row_cases, save_rows_step, save_rows-recorded,
}
use ts_domain_gateway.Store.Snapshot.{
  next_fault, holds_key, taken_by_other, set_ip, upsert_row, save_rows, commit, sql_save,
}

abbrev changed : DiskMapping → Row → Row
changed new row = if has_key new.gateway new.domain row then record row { ip = new.ip } else row

abbrev is_other : DiskMapping → Row → Bool
is_other new row = row.ip == new.ip && not (has_key new.gateway new.domain row)

changed-Distinct :
    (new : DiskMapping) (a b : Row)
    → is_other new a ≡ false
    → is_other new b ≡ false
    → Distinct a b
    → Distinct (changed new a) (changed new b)
changed-Distinct new a b ha hb d = ground (
  arith,
  ha,
  hb,
  d,
  eq_iff a.gateway new.gateway,
  eq_iff b.gateway new.gateway,
  eq_iff b.gateway a.gateway,
  eq_iff a.domain new.domain,
  eq_iff b.domain new.domain,
  eq_iff b.domain a.domain,
  eq_iff a.ip new.ip,
  eq_iff b.ip new.ip,
  eq_iff b.ip a.ip,
  eq_iff new.ip a.ip,
  eq_iff new.ip b.ip,
)

set_ip-All :
    (P Q : Row → Type 0) (new : DiskMapping)
    → ((row : Row) → is_other new row ≡ false → P row → Q (changed new row))
    → (rows : List Row) → taken_by_other new rows ≡ false
    → All P rows
    → All Q (set_ip new rows)
unfolding set_ip
set_ip-All P Q new k [] free h = tt
set_ip-All P Q new k (row ∷ rows) free h =
    (k row (ground arith) h.0, set_ip-All P Q new k rows (ground arith) h.1)

set_ip-IsUnique :
    (new : DiskMapping) (rows : List Row)
    → taken_by_other new rows ≡ false
    → IsUnique rows
    → IsUnique (set_ip new rows)
unfolding set_ip
set_ip-IsUnique new [] free u = tt
set_ip-IsUnique new (row ∷ rows) free u =
    let own : is_other new row ≡ false = ground arith in
    (
      set_ip-All (λ other. Distinct other row) (λ other. Distinct other (changed new row)) new
          (λ other o d. changed-Distinct new other row o own d) rows (ground arith) u.0,
      set_ip-IsUnique new rows (ground arith) u.1,
    )

no_conflicts :
    (new : DiskMapping) (rows : List Row)
    → taken_by_other new rows ≡ false
    → holds_key new.gateway new.domain rows ≡ false
    → conflicts (added new) rows ≡ false
no_conflicts new [] free none_held = refl
no_conflicts new (row ∷ rows) free none_held = ground (arith, no_conflicts new rows)

upsert_row-IsUnique :
    (new : DiskMapping) (rows : List Row) {out : List Row}
    → upsert_row new rows ≡ some out
    → IsUnique rows
    → IsUnique out
upsert_row-IsUnique new rows {out} h u =
    let (free, how) = upsert_row_cases new rows h in
    elim how [
      | inl (held, e) ↦ rw e (set_ip-IsUnique new rows free u)
      | inr (none_held, e) ↦ rw e (
          append-IsUnique rows (added new) u
            (conflicts-Distinct (added new) rows (no_conflicts new rows free none_held)))
    ]

save_rows-IsUnique :
    (news : List DiskMapping) (rows : List Row) (faults : List Bool) {out : List Row}
    → (save_rows news rows faults).0 ≡ some out
    → IsUnique rows
    → IsUnique out
save_rows-IsUnique [] rows faults {out} h u =
    let same : rows ≡ out = unfold save_rows in ground (arith, h) in subst IsUnique same u
save_rows-IsUnique (new ∷ news) rows faults h u =
    let (rows', one, more) = save_rows_step new news rows faults h in
    save_rows-IsUnique news rows' (next_fault faults).1 more (upsert_row-IsUnique new rows one u)

commit_cases :
    (s : Registry) (r : Option (List Row) × List Bool)
    → ((commit s r).0 ≡ none) × ((commit s r).1.table ≡ s.table)
      ⊎ ((rows : List Row) × (r.0 ≡ some rows)
          × ((commit s r).0 ≡ some tt)
          × ((commit s r).1.table ≡ rows))
unfolding commit
commit_cases s (none, faults) = inl (refl, refl)
commit_cases s (some rows, []) = inr (rows, refl, refl, refl)
commit_cases s (some rows, true ∷ faults) = inl (refl, refl)
commit_cases s (some rows, false ∷ faults) = inr (rows, refl, refl, refl)

sql_save_cases :
    (to_text : Addr → Bytes) (entries : Dict Addr Mapping) (s : Registry)
    → ((sql_save to_text entries s).0 ≡ none) × ((sql_save to_text entries s).1.table ≡ s.table)
      ⊎ ((rows : List Row) × ((save_rows
              (rows_of to_text entries)
              s.table
              (next_fault s.faults).1).0
            ≡ some rows)
          × ((sql_save to_text entries s).0 ≡ some tt)
          × ((sql_save to_text entries s).1.table ≡ rows))
unfolding sql_save
sql_save_cases to_text entries s = elim (Bool-cases (next_fault s.faults).0) [
  | inl fault ↦ inl (ground (arith, fault), ground (arith, fault))
  | inr fine ↦
      rw fine (commit_cases s (save_rows (rows_of to_text entries) s.table (next_fault s.faults).1))
]

-- Save is all or nothing: it fails and leaves the table as it was, or it succeeds, and then the table
-- says of each entry what it said, if no key stands in two of them. The constraints hold either way.
pub sql_save-IsSaved :
    (to_text : Addr → Bytes) (entries : Dict Addr Mapping) (s : Registry)
    → KeysOnce (rows_of to_text entries)
    → IsUnique s.table
    → (((sql_save to_text entries s).0 ≡ none) × ((sql_save to_text entries s).1.table ≡ s.table)
        ⊎ ((sql_save to_text entries s).0 ≡ some tt)
          × All
              (λ new. is_recorded new (sql_save to_text entries s).1.table ≡ true)
              (rows_of to_text entries)
          × IsUnique (sql_save to_text entries s).1.table)
sql_save-IsSaved to_text entries s once u = elim (sql_save_cases to_text entries s) [
  | inl dropped ↦ inl dropped
  | inr (rows, done, ok, e) ↦
      let news = rows_of to_text entries in
      let later = (next_fault s.faults).1 in
      inr (
        ok,
        subst (λ t. All (λ new. is_recorded new t ≡ true) news) (sym e)
            (save_rows-recorded news s.table later once done),
        subst IsUnique (sym e) (save_rows-IsUnique news s.table later done u),
      )
]
