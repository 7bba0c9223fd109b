-- ===== src/Store/Open.antt =====
-- OpenAllocationStore and sqlitePath of internal/domain/state.go. The URL
-- comes parsed.
pub mod Migrated
use ts_domain_gateway.Common.{
  ℕ, ◌+◌, ◌*◌, ◌^◌, Bool, true, false, not, ◌&&◌, ◌||◌, List, [], ◌∷◌, ◌++◌, Option, none, some,
  length, drop, ◌==◌, nat_eq, list_eq, if◌then◌else◌,
}
use ts_domain_gateway.GoText.{Bytes, codes, has_prefix}
use ts_domain_gateway.Store.{unix_nano, Row}
use ts_domain_gateway.Store.Snapshot.{next_fault}

-- What url.Parse finds, as far as it is read.
pub record Url : Type 0 where
  pub scheme : Bytes
  pub has_user : Bool
  pub host : Bytes
  pub path : Bytes
  pub raw_query : Bytes
  pub fragment : Bytes

abbrev pub slash : Bytes
slash = codes "/"

-- sqlitePath
unfoldable pub sqlite_path : Url → Option Bytes
unfolding has_prefix
sqlite_path u =
    if u.has_user || not (length u.raw_query == 0) || not (length u.fragment == 0)
    then none
    else if length u.host == 0
    then (if length u.path == 0 then none else some u.path)
    else (let tail = if has_prefix u.path slash then drop 1 u.path else u.path in
        if length tail == 0 then some u.host else some (u.host ++ (slash ++ tail)))

-- The data source of a URL, and whether it is a PostgreSQL database.
unfoldable pub data_source : Bytes → Url → Option (Bool × Bytes)
unfolding sqlite_path
data_source url u =
    if u.scheme == codes "sqlite"
    then elim (sqlite_path u) [ none ↦ none | some path ↦ some (false, path) ]
    else if u.scheme == codes "postgres"
    then some (true, url)
    else none

-- The database that is opened: its table, if there is one, and whether that has the column for the
-- expiry. Without the column no row has an expiry.
pub record Database : Type 0 where
  pub rows : Option (List Row)
  pub has_expiry : Bool

abbrev created : Database → Database
created d = elim d.rows [ none ↦ record { rows = some []; has_expiry = false } | some _ ↦ d ]

-- ADD COLUMN, whose failure is ignored
abbrev widened : Bool → Database → Database
widened fault d = if fault then d else record d { has_expiry = true }

-- UPDATE … SET expires_at = ? WHERE expires_at IS NULL
unfoldable pub fill_expiry : ℕ → List Row → List Row
fill_expiry expiry [] = []
fill_expiry expiry (row ∷ rows) =
    elim row.expires [ none ↦ record row { expires = some expiry } | some _ ↦ row ]
    ∷ fill_expiry expiry rows

-- That statement fails where the column is missing.
filled : Bool → ℕ → Database → Bool × Database
unfolding fill_expiry
filled fault expiry d = elim d.rows [
  | none ↦ (false, d)
  | some rows ↦
      if fault || not d.has_expiry
      then (false, d)
      else (true, record d { rows = some (fill_expiry expiry rows) })
]

abbrev pub first_lease : ℕ
first_lease = 3600 * 10 ^ 9

-- The statements from the creation of the table on.
unfoldable pub migrate : ℕ → List Bool → Database → Bool × Database
unfolding filled
migrate now faults d =
    let (create_fault, f1) = next_fault faults in
    let (alter_fault, f2) = next_fault f1 in
    let (update_fault, _) = next_fault f2 in
    if create_fault
    then (false, d)
    else filled update_fault (unix_nano (now + first_lease)) (widened alter_fault (created d))

-- OpenAllocationStore behind the parsing: whether it succeeds, and the database. The schedule says
-- which of the calls fails: opening, the ping, the pragma of SQLite and the statements.
unfoldable pub open_store : Bytes → Url → ℕ → List Bool → Database → Bool × Database
unfolding migrate data_source
open_store url u now faults d = elim (data_source url u) [
  | none ↦ (false, d)
  | some (postgres, _) ↦
      let (open_fault, f1) = next_fault faults in
      let (ping_fault, f2) = next_fault f1 in
      let (pragma_fault, f3) = next_fault f2 in
      if open_fault || ping_fault
      then (false, d)
      else if postgres
      then migrate now f2 d
      else if pragma_fault
      then (false, d)
      else migrate now f3 d
]
