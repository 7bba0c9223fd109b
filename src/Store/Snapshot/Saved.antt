-- ===== src/Store/Snapshot/Saved.antt =====
-- The table behind a snapshot.
use ts_domain_gateway.Common.{
  ◌≡◌, ◌⊎◌, inl, inr, ap, sym, ◌∙◌, Bool, true, false, ◌&&◌, List, [], ◌∷◌, ◌++◌, none, some, any,
  any-append, ◌==◌, nat_eq, list_eq, eq_iff, All, arith, Bool-cases, Option-cases,
}
use ts_domain_gateway.Alloc.Disk.{DiskMapping}
use ts_domain_gateway.Store.{Row, has_key}
use ts_domain_gateway.Store.Snapshot.{
  next_fault, holds_key, taken_by_other, set_ip, upsert_row, save_rows,
}

-- A row of the table says what the row to be saved says.
abbrev pub is_recorded : DiskMapping → List Row → Bool
is_recorded new rows = any (λ row. has_key new.gateway new.domain row && row.ip == new.ip) rows

abbrev pub same_key : DiskMapping → DiskMapping → Bool
same_key a b = a.gateway == b.gateway && a.domain == b.domain

-- No key twice.
abbrev pub KeysOnce : List DiskMapping → Type 0
KeysOnce [] = Unit {0}
KeysOnce (new ∷ more) = All (λ later. same_key new later ≡ false) more × KeysOnce more

set_ip-recorded :
    (new : DiskMapping) (rows : List Row)
    → holds_key new.gateway new.domain rows ≡ true
    → is_recorded new (set_ip new rows) ≡ true
unfolding set_ip
set_ip-recorded new [] h = h
set_ip-recorded new (row ∷ rows) h = elim (Bool-cases (has_key new.gateway new.domain row)) [
  | inl hit ↦ ground (arith, hit, eq_iff new.ip new.ip)
  | inr miss ↦ ground (arith, miss, h, set_ip-recorded new rows)
]

-- The row that an insertion adds.
abbrev pub added : DiskMapping → Row
added new = record { gateway = new.gateway; domain = new.domain; ip = new.ip; expires = none }

pub upsert_row_cases :
    (new : DiskMapping) (rows : List Row) {out : List Row}
    → upsert_row new rows ≡ some out
    → (taken_by_other new rows ≡ false)
      × (((holds_key new.gateway new.domain rows ≡ true) × (out ≡ set_ip new rows))
          ⊎ ((holds_key new.gateway new.domain rows ≡ false) × (out ≡ rows ++ added new ∷ [])))
unfolding upsert_row
upsert_row_cases new rows {out} h = elim (Bool-cases (holds_key new.gateway new.domain rows)) [
  | inl held ↦ (ground (arith, h), inl (held, ground (arith, h, held)))
  | inr free ↦ (ground (arith, h), inr (free, ground (arith, h, free)))
]

upsert_row-recorded :
    (new : DiskMapping) (rows : List Row) {out : List Row}
    → upsert_row new rows ≡ some out
    → is_recorded new out ≡ true
upsert_row-recorded new rows {out} h = elim (upsert_row_cases new rows h).1 [
  | inl (held, e) ↦ rw e (set_ip-recorded new rows held)
  | inr (free, e) ↦ ground (
    arith,
    ap (is_recorded new) e,
    any-append (λ row. has_key new.gateway new.domain row && row.ip == new.ip) rows
        (added new ∷ []),
    eq_iff new.gateway new.gateway,
    eq_iff new.domain new.domain,
    eq_iff new.ip new.ip,
  )
]

set_ip-keeps :
    (new old : DiskMapping) (rows : List Row)
    → same_key old new ≡ false
    → is_recorded old rows ≡ true
    → is_recorded old (set_ip new rows) ≡ true
unfolding set_ip
set_ip-keeps new old [] d h = h
set_ip-keeps new old (row ∷ rows) d h = ground (
  arith,
  d,
  h,
  set_ip-keeps new old rows d,
  eq_iff row.gateway new.gateway,
  eq_iff row.gateway old.gateway,
  eq_iff row.domain new.domain,
  eq_iff row.domain old.domain,
  eq_iff old.gateway new.gateway,
  eq_iff old.domain new.domain,
)

upsert_row-keeps :
    (new old : DiskMapping) (rows : List Row) {out : List Row}
    → upsert_row new rows ≡ some out
    → same_key old new ≡ false
    → is_recorded old rows ≡ true
    → is_recorded old out ≡ true
upsert_row-keeps new old rows {out} h d r = elim (upsert_row_cases new rows h).1 [
  | inl (held, e) ↦ rw e (set_ip-keeps new old rows d r)
  | inr (free, e) ↦ ground (
    arith,
    r,
    ap (is_recorded old) e,
    any-append (λ row. has_key old.gateway old.domain row && row.ip == old.ip) rows
        (added new ∷ []),
  )
]

-- One round of the loop that does not fail.
pub save_rows_step :
    (new : DiskMapping) (news : List DiskMapping) (rows : List Row) (faults : List Bool)
    {out : List Row}
    → (save_rows (new ∷ news) rows faults).0 ≡ some out
    → (rows' : List Row) × (upsert_row new rows ≡ some rows')
      × ((save_rows news rows' (next_fault faults).1).0 ≡ some out)
unfolding save_rows
save_rows_step new news rows faults h = elim (Option-cases (upsert_row new rows)) [
  | inl e ↦ absurd (ground (arith, e, h))
  | inr (rows', e) ↦ (rows', e, ground (arith, e, h))
]

save_rows-keeps :
    (news : List DiskMapping) (old : DiskMapping) (rows : List Row) (faults : List Bool)
    {out : List Row}
    → (save_rows news rows faults).0 ≡ some out
    → All (λ later. same_key old later ≡ false) news
    → is_recorded old rows ≡ true
    → is_recorded old out ≡ true
save_rows-keeps [] old rows faults {out} h d r =
    let same : rows ≡ out = unfold save_rows in ground (arith, h) in
    ap (is_recorded old) (sym same) ∙ r
save_rows-keeps (new ∷ news) old rows faults h d r =
    let (rows', one, more) = save_rows_step new news rows faults h in
    save_rows-keeps news old rows' (next_fault faults).1 more d.1
      (upsert_row-keeps new old rows one d.0 r)

pub save_rows-recorded :
    (news : List DiskMapping) (rows : List Row) (faults : List Bool) {out : List Row}
    → KeysOnce news
    → (save_rows news rows faults).0 ≡ some out
    → All (λ new. is_recorded new out ≡ true) news
save_rows-recorded [] rows faults once h = tt
save_rows-recorded (new ∷ news) rows faults once h =
    let (rows', one, more) = save_rows_step new news rows faults h in
    (
      save_rows-keeps news new rows' (next_fault faults).1 more once.0
          (upsert_row-recorded new rows one),
      save_rows-recorded news rows' (next_fault faults).1 once.1 more,
    )
