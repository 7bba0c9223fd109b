-- ===== src/Store/Snapshot.antt =====
-- Save and Load of SQLStore in internal/domain/state.go: whole snapshots of an allocator. A
-- transaction works on a copy of the table; where it fails, or its commit does, the copy is dropped.
pub mod Saved
pub mod Kept
use ts_domain_gateway.Common.{
  ℕ, Bool, true, false, not, ◌&&◌, List, [], ◌∷◌, ◌++◌, Option, none, some, any, take, ◌==◌, nat_eq,
  list_eq, if◌then◌else◌,
}
use ts_domain_gateway.GoText.{Bytes}
use ts_domain_gateway.Net.{Addr}
use ts_domain_gateway.Alloc.Assoc.{Dict}
use ts_domain_gateway.Alloc.{Mapping}
use ts_domain_gateway.Alloc.Disk.{DiskMapping, rows_of, load_rows}
use ts_domain_gateway.Store.{Row, Registry, Exec, ◌>>=◌, continue, statement, has_key}

-- Whether the next statement fails, and the schedule behind it.
abbrev pub next_fault : List Bool → Bool × List Bool
next_fault [] = (false, [])
next_fault (fault ∷ faults) = (fault, faults)

abbrev pub holds_key : Bytes → Bytes → List Row → Bool
holds_key gateway domain rows = any (has_key gateway domain) rows

-- A row with another key has the address.
abbrev pub taken_by_other : DiskMapping → List Row → Bool
taken_by_other new rows =
    any (λ row. row.ip == new.ip && not (has_key new.gateway new.domain row)) rows

unfoldable pub set_ip : DiskMapping → List Row → List Row
set_ip new [] = []
set_ip new (row ∷ rows) =
    (if has_key new.gateway new.domain row then record row { ip = new.ip } else row)
    ∷ set_ip new rows

-- INSERT … ON CONFLICT (gateway, domain) DO UPDATE SET ip; `none` where the address is not unique
unfoldable pub upsert_row : DiskMapping → List Row → Option (List Row)
unfolding set_ip
upsert_row new rows =
    if taken_by_other new rows
    then none
    else if holds_key new.gateway new.domain rows
    then some (set_ip new rows)
    else some (
        rows
        ++ record { gateway = new.gateway; domain = new.domain; ip = new.ip; expires = none } ∷ [])

-- The loop over the rows inside the transaction.
unfoldable pub save_rows : List DiskMapping → List Row → List Bool → Option (List Row) × List Bool
unfolding upsert_row
save_rows [] rows faults = (some rows, faults)
save_rows (new ∷ more) rows faults =
    let (fault, later) = next_fault faults in
    if fault then (none, later) else elim (upsert_row new rows) [
      | none ↦ (none, later)
      | some rows' ↦ save_rows more rows' later
    ]

unfoldable pub commit : Registry → Option (List Row) × List Bool → Option (Unit {0}) × Registry
commit s (none, faults) = (none, record s { faults = faults })
commit s (some rows, faults) =
    let (fault, later) = next_fault faults in
    if fault
    then (none, record s { faults = later })
    else (some tt, record s { faults = later; table = rows })

-- Save, with the entries of the allocator's map in some order.
unfoldable pub sql_save : (Addr → Bytes) → Dict Addr Mapping → Exec (Unit {0})
unfolding save_rows commit rows_of
sql_save to_text entries s =
    let (fault, later) = next_fault s.faults in
    if fault
    then (none, record s { faults = later })
    else commit s (save_rows (rows_of to_text entries) s.table later)

unfoldable pub disk_rows : List Row → List DiskMapping
disk_rows [] = []
disk_rows (row ∷ rows) =
    record { gateway = row.gateway; domain = row.domain; ip = row.ip } ∷ disk_rows rows

-- The loop over the rows of a query; `cut` is the number of rows behind which reading fails, if it
-- does.
pub load_cache : (Bytes → Option Addr) → Option ℕ → List Row → Exec (Unit {0})
unfolding disk_rows load_rows
load_cache parse_addr none rows s =
    let (ok, cache) = load_rows parse_addr (disk_rows rows) s.cache in
    (if ok then some tt else none, record s { cache = cache })
load_cache parse_addr (some cut) rows s =
    let (_, cache) = load_rows parse_addr (disk_rows (take cut rows)) s.cache in
    (none, record s { cache = cache })

-- Load
unfoldable pub sql_load : (Bytes → Option Addr) → Option ℕ → Exec (Unit {0})
unfolding load_cache statement
sql_load parse_addr cut =
    statement (λ rows. (rows, rows)) >>= λ rows. load_cache parse_addr cut rows
