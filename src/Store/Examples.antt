-- ===== src/Store/Examples.antt =====
-- Two allocations from one range, the second with a fault.
use ts_domain_gateway.Common.{
  ℕ, ◌+◌, ◌*◌, ◌^◌, ◌≡◌, ◌≢◌, ◌↔◌, ◌⊎◌, refl, All, List, true, false, [], ◌∷◌, Option, none, some,
  arith, ◌==◌, nat_eq, if◌then◌else◌,
}
use ts_domain_gateway.GoText.{Bytes, codes}
use ts_domain_gateway.Net.{Addr, invalid, v4, v6, Prefix, prefix_contains, masked_addr, next_addr}
use ts_domain_gateway.Alloc.{new_allocator, key_of, lookup_key_live, lookup_live, remember_until}
use ts_domain_gateway.Store.{
  Registry, sql_allocate, sql_lookup, sql_lookup_key, hosts, select_key, insert_row, delete_expired,
  find_row, renewed_at,
}
use ts_domain_gateway.Store.Leased.{row_of}
use ts_domain_gateway.Store.Shared.Cached.{allocate-debounced}
use ts_domain_gateway.Store.Shared.Raced.{allocate-raced}
use ts_domain_gateway.Store.Shared.{ReadsBack, IsText}
use ts_domain_gateway.Store.Others.{nothing, after, inserts, deletes}
use ts_domain_gateway.Store.Shared.Agreed.{allocate-agreed}
use ts_domain_gateway.Alloc.Assoc.{Dict, lookup, insert}
use ts_domain_gateway.Alloc.{Mapping}
use ts_domain_gateway.Alloc.Disk.{rows_of}
use ts_domain_gateway.Store.{Row}
use ts_domain_gateway.Store.Snapshot.{sql_save}
use ts_domain_gateway.Store.Snapshot.Saved.{is_recorded}
use ts_domain_gateway.Store.Snapshot.Kept.{sql_save-IsSaved}
use ts_domain_gateway.Store.Open.{
  Url, Database, open_store, data_source, sqlite_path, migrate, fill_expiry, first_lease,
}
use ts_domain_gateway.Store.Open.Migrated.{Expiring, open_store-Expiring}
use ts_domain_gateway.Store.Hosts.{Lists, hosts_iff}
use ts_domain_gateway.Store.Constraints.{IsUnique}

-- A text of an address, and its reading.
abbrev text : Addr → Bytes
text invalid = []
text (v4 n) = 4 ∷ n ∷ []
text (v6 n) = 6 ∷ n ∷ []

abbrev read : Bytes → Option Addr
read (tag ∷ n ∷ []) = if tag == 4 then some (v4 n) else none
read _ = none

abbrev base : ℕ
base = 10 * 2 ^ 24

abbrev low : Prefix
low = record { addr = v4 base; bits = 30 }

abbrev start : Registry
start = record {
  table = [];
  faults = false ∷ false ∷ false ∷ false ∷ false ∷ true ∷ [];
  others = [];
  last_renewed = [];
  cache = new_allocator;
}

abbrev gw : Bytes
gw = codes "gw"

abbrev first : Registry
first = (sql_allocate text read gw (low ∷ []) (codes "a.corp") 100 50 start).1

first_IsUnique : IsUnique first.table
unfolding sql_allocate lookup_key_live lookup insert prefix_contains next_addr masked_addr
first_IsUnique = (tt, tt)

hosts_iff_example :
    Lists (v4 (base + 2)) (hosts low)
    ↔ ((prefix_contains low (v4 (base + 2)) ≡ true) × (v4 (base + 2) ≢ masked_addr low))
hosts_iff_example = hosts_iff base 30 (base + 2) (omega arith) (omega arith)

abbrev entries : Dict Addr Mapping
entries =
    (v4 (base + 1), record { gateway = gw; domain = codes "a.corp" })
    ∷ (v4 (base + 2), record { gateway = gw; domain = codes "b.corp" })
    ∷ []

sql_save-IsSaved_example :
    ((sql_save text entries first).0 ≡ none) × ((sql_save text entries first).1.table ≡ first.table)
    ⊎ ((sql_save text entries first).0 ≡ some tt)
      × All
          (λ new. is_recorded new (sql_save text entries first).1.table ≡ true)
          (rows_of text entries)
      × IsUnique (sql_save text entries first).1.table
unfolding rows_of
sql_save-IsSaved_example = sql_save-IsSaved text entries first ((refl, tt), (tt, tt)) first_IsUnique

abbrev url : Url
url = record {
  scheme = codes "sqlite";
  has_user = false;
  host = codes "state";
  path = codes "/a.db";
  raw_query = [];
  fragment = [];
}

abbrev old : Database
old = record {
  rows =
      some (
        record { gateway = gw; domain = codes "a.corp"; ip = text (v4 base); expires = none } ∷ []);
  has_expiry = false;
}

abbrev opened : Database
opened = record {
  rows = some (
      record {
        gateway = gw;
        domain = codes "a.corp";
        ip = text (v4 base);
        expires = some (5 + first_lease);
      }
      ∷ []);
  has_expiry = true;
}

open_run : open_store (codes "sqlite://state/a.db") url 5 [] old ≡ (true, opened)
unfolding open_store data_source sqlite_path migrate fill_expiry
open_run = refl

open_store-Expiring_example :
    ((codes "sqlite" ≡ codes "sqlite") ⊎ (codes "sqlite" ≡ codes "postgres"))
    × (true ≡ true)
    × ((rows : List Row) × (opened.rows ≡ some rows)
        × Expiring
            (5 + first_lease)
            (record { gateway = gw; domain = codes "a.corp"; ip = text (v4 base); expires = none }
              ∷ [])
            rows)
open_store-Expiring_example =
    open_store-Expiring (codes "sqlite://state/a.db") url 5 [] old open_run

text-ReadsBack : ReadsBack text read
text-ReadsBack invalid y e = absurd (ground (arith, e))
text-ReadsBack (v4 n) y e = ground (arith, e)
text-ReadsBack (v6 n) y e = absurd (ground (arith, e))

-- What another instance inserts before the first statement.
abbrev taken : Row
taken = record {
  gateway = gw;
  domain = codes "b.corp";
  ip = text (v4 (base + 1));
  expires = some 170;
}

taken_IsText : IsText text read taken.ip
taken_IsText x e = ground (arith, e)

abbrev busy : Registry
busy = record {
  table = [];
  faults = [];
  others = (λ rows. (insert_row taken rows).1) ∷ [];
  last_renewed = [];
  cache = new_allocator;
}

-- Another instance on the table that this leaves; before its first statement, a third one deletes what
-- has expired.
abbrev other : Registry
other = record {
  table = (sql_allocate text read gw (low ∷ []) (codes "a.corp") 100 50 busy).1.table;
  faults = [];
  others = delete_expired 110 ∷ [];
  last_renewed = [];
  cache = new_allocator;
}

busy_given :
    (sql_allocate text read gw (low ∷ []) (codes "a.corp") 100 50 busy).0 ≡ some (v4 (base + 2))
unfolding sql_allocate lookup_key_live lookup prefix_contains next_addr masked_addr
busy_given = refl

allocate-agreed_example :
    ((sql_allocate text read gw [] (codes "a.corp") 120 50 other).0 ≡ some (v4 (base + 2)))
    × ((sql_lookup_key text read gw (codes "a.corp") 120 50 other).0 ≡ some (some (v4 (base + 2))))
    × ((sql_lookup text read (v4 (base + 2)) 120 50 other).0
        ≡ some (some (record { gateway = gw; domain = codes "a.corp" })))
unfolding lookup_key_live lookup_live lookup
allocate-agreed_example =
    allocate-agreed text read text-ReadsBack gw (codes "a.corp") 100 50 110 (low ∷ []) [] busy other
      (v4 (base + 2)) 120 50 (omega arith) (omega arith)
      ((λ rows. after nothing (inserts taken taken_IsText (170, refl, omega arith))), tt)
      ((tt, tt), tt) refl busy_given nothing refl
      ((λ rows. after nothing (deletes 110 (omega arith))), tt) refl refl (omega arith)

abbrev row : Row
row = record {
  gateway = gw;
  domain = codes "a.corp";
  ip = text (v4 (base + 1));
  expires = some 150;
}

first_hit :
    ((lookup_key_live first.cache gw (codes "a.corp") 120).1 ≡ some (v4 (base + 1)))
    × (row_of gw (codes "a.corp") first.table ≡ some row)
unfolding sql_allocate lookup_key_live lookup_live lookup insert prefix_contains next_addr
    masked_addr find_row remember_until
first_hit = (refl, refl)

first_renewed : renewed_at first (key_of gw (codes "a.corp")) ≡ 100
unfolding sql_allocate lookup_key_live lookup insert prefix_contains next_addr masked_addr
first_renewed = refl

allocate-debounced_example :
    (sql_allocate text read gw [] (codes "a.corp") 120 50 first ≡ (some (v4 (base + 1)), first))
    × (row_of gw
          (codes "a.corp")
          (delete_expired 150 (sql_allocate text read gw [] (codes "a.corp") 120 50 first).1.table)
        ≡ none)
allocate-debounced_example =
    allocate-debounced text read gw (codes "a.corp") [] 120 50 150 first row first_hit.0
      (omega (arith, first_renewed)) (omega (arith, first_renewed)) first_IsUnique first_hit.1 refl

-- The row of a name that expires at 105, and is gone at 106 with its address given to another name.
abbrev old_row : Row
old_row = record {
  gateway = gw;
  domain = codes "a.corp";
  ip = text (v4 (base + 1));
  expires = some 105;
}

abbrev steal : List Row → List Row
steal rows = (insert_row taken (delete_expired 106 rows)).1

abbrev raced : Registry
raced = record {
  table = old_row ∷ [];
  faults = [];
  others = (λ rows. rows) ∷ steal ∷ [];
  last_renewed = [];
  cache = new_allocator;
}

allocate-raced_example :
    ((sql_allocate text read gw (low ∷ []) (codes "a.corp") 100 50 raced).0 ≡ some (v4 (base + 1)))
    × (row_of gw
          (codes "b.corp")
          (sql_allocate text read gw (low ∷ []) (codes "a.corp") 100 50 raced).1.table
        ≡ some taken)
    × (read taken.ip ≡ some (v4 (base + 1)))
unfolding lookup_key_live lookup select_key find_row insert_row delete_expired
allocate-raced_example =
    allocate-raced text read gw (codes "a.corp") 100 50 (λ rows. rows) steal (low ∷ []) raced
      old_row taken gw (codes "b.corp") (refl, ([], refl)) refl refl refl refl refl refl
