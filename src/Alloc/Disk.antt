-- ===== src/Alloc/Disk.antt =====
-- The state file of the allocator: Save and Load of Allocator in internal/domain/state.go. The file
-- system is the contents of the file and of its temporary neighbour; encoding/json, Addr.String
-- and netip.ParseAddr are parameters. Save goes through a Go map: its entries come in any order.
pub mod Restored
mod Examples
use ts_domain_gateway.Common.{
  ℕ, Bool, true, false, not, ◌||◌, List, [], ◌∷◌, Option, none, some, ◌==◌, nat_eq, list_eq,
  if◌then◌else◌,
}
use ts_domain_gateway.GoText.{Bytes}
use ts_domain_gateway.Net.{Addr, is_valid, next_addr, less, addr_eq}
use ts_domain_gateway.Alloc.Assoc.{Dict, insert}
use ts_domain_gateway.Alloc.{Allocator, Mapping, key_of, addr_at}

pub record DiskMapping : Type 0 where
  pub gateway : Bytes
  pub domain : Bytes
  pub ip : Bytes

pub record Files : Type 0 where
  pub state : Option Bytes
  pub temporary : Option Bytes

-- What a run of Save meets: whether each call succeeds, and what a failed write leaves.
pub record Writes : Type 0 where
  pub directory : Bool
  pub written : Bool
  pub renamed : Bool
  pub left : Option Bytes

unfoldable pub rows_of : (Addr → Bytes) → Dict Addr Mapping → List DiskMapping
rows_of to_text [] = []
rows_of to_text ((ip, m) ∷ entries) =
    record { gateway = m.gateway; domain = m.domain; ip = to_text ip } ∷ rows_of to_text entries

-- Save, with its result and the files behind it.
unfoldable pub save :
    (Addr → Bytes)
    → (List DiskMapping → Option Bytes)
    → Writes
    → Dict Addr Mapping
    → Files
    → Bool × Files
unfolding rows_of
save to_text encode w entries files = elim (encode (rows_of to_text entries)) [
  | none ↦ (false, files)
  | some b ↦
      if not w.directory
      then (false, files)
      else if not w.written
      then (false, record files { temporary = w.left })
      else if not w.renamed
      then (false, record files { temporary = some b })
      else (true, record { state = some b; temporary = none })
]

-- The body of Load's loop behind the address.
unfoldable pub load_row : DiskMapping → Addr → Allocator → Allocator
load_row row ip a =
    let old = addr_at a.next row.gateway in
    record a {
      by_key = insert (key_of row.gateway row.domain) ip a.by_key;
      by_ip = insert ip (record { gateway = row.gateway; domain = row.domain }) a.by_ip;
      next =
          if not (is_valid old) || less old (next_addr ip)
          then insert row.gateway (next_addr ip) a.next
          else a.next;
    }

-- Load's loop: the rows in front of one that is no address stay loaded.
unfoldable pub load_rows : (Bytes → Option Addr) → List DiskMapping → Allocator → Bool × Allocator
unfolding load_row
load_rows parse_addr [] a = (true, a)
load_rows parse_addr (row ∷ rows) a = elim (parse_addr row.ip) [
  | none ↦ (false, a)
  | some ip ↦ load_rows parse_addr rows (load_row row ip a)
]

-- Load; `readable` is false where the file is there but cannot be read.
unfoldable pub load :
    (Bytes → Option Addr)
    → (Bytes → Option (List DiskMapping))
    → Bool
    → Files
    → Allocator
    → Bool × Allocator
unfolding load_rows
load parse_addr decode readable files a = elim files.state [
  | none ↦ (true, a)
  | some b ↦
      if not readable
      then (false, a)
      else elim (decode b) [ none ↦ (false, a) | some rows ↦ load_rows parse_addr rows a ]
]
