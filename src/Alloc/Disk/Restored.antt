-- ===== src/Alloc/Disk/Restored.antt =====
-- What Load makes of what Save wrote.
use ts_domain_gateway.Common.{
  ◌≡◌, ◌∙◌, inl, inr, refl, true, false, List, [], ◌∷◌, Option, none, some, ◌==◌, nat_eq,
  if◌then◌else◌, arith, eq_iff, All, Option-cases,
}
use ts_domain_gateway.GoText.{Bytes}
use ts_domain_gateway.Net.{Addr, invalid, addr_eq}
use ts_domain_gateway.Alloc.Assoc.{Dict, lookup, lookup-insert}
use ts_domain_gateway.Alloc.{Allocator, Mapping, new_allocator, lookup_ip}
use ts_domain_gateway.Alloc.Disk.{
  DiskMapping, Files, Writes, rows_of, save, load_row, load_rows, load,
}

-- No address twice.
abbrev pub Once : Dict Addr Mapping → Type 0
Once [] = Unit {0}
Once ((ip, m) ∷ entries) = (lookup ip entries ≡ none) × Once entries

-- The entries of the map from addresses, in some order.
pub record IsListing (entries : Dict Addr Mapping) (a : Allocator) : Type 0 where
  pub once : Once entries
  pub same : (ip : Addr) → lookup ip entries ≡ lookup_ip a ip

-- The text of each address in the entries reads as the address.
abbrev pub Reads : (Addr → Bytes) → (Bytes → Option Addr) → Dict Addr Mapping → Type 0
Reads to_text parse_addr entries = All (λ e. parse_addr (to_text e.0) ≡ some e.0) entries

module _ (to_text : Addr → Bytes) (parse_addr : Bytes → Option Addr) where
  abbrev over : Option Mapping → Option Mapping → Option Mapping
  over none rest = rest
  over (some m) rest = some m

  lookup_ip-load_row :
      (row : DiskMapping) (ip j : Addr) (a : Allocator)
      → lookup_ip (load_row row ip a) j ≡ (
          if ip == j
          then some (record { gateway = row.gateway; domain = row.domain })
          else lookup_ip a j)
  unfolding lookup_ip load_row
  lookup_ip-load_row row ip j a =
      lookup-insert ip j (record { gateway = row.gateway; domain = row.domain }) a.by_ip

  load_rows_lem :
      (entries : Dict Addr Mapping) (a : Allocator) (j : Addr)
      → Once entries
      → Reads to_text parse_addr entries
      → ((load_rows parse_addr (rows_of to_text entries) a).0 ≡ true)
        × (lookup_ip (load_rows parse_addr (rows_of to_text entries) a).1 j
            ≡ over (lookup j entries) (lookup_ip a j))
  unfolding load_rows rows_of lookup
  load_rows_lem [] a j once reads = (refl, refl)
  load_rows_lem ((ip, m) ∷ entries) a j once reads =
      let row : DiskMapping = record { gateway = m.gateway; domain = m.domain; ip = to_text ip } in
      let more = load_rows_lem entries (load_row row ip a) j once.1 reads.1 in
      let one = lookup_ip-load_row row ip j a in ground (arith, reads, one, once, more, eq_iff ip j)

  over_none : (o : Option Mapping) (ip : Addr) → over o (lookup_ip new_allocator ip) ≡ o
  unfolding lookup_ip lookup
  over_none none ip = refl
  over_none (some m) ip = refl

  save-load_rows :
      (encode : List DiskMapping → Option Bytes) (decode : Bytes → Option (List DiskMapping))
      (w : Writes) (entries : Dict Addr Mapping) (files : Files) (a : Allocator) {out : Files}
      → ((b : Bytes)
          → encode (rows_of to_text entries) ≡ some b
          → decode b ≡ some (rows_of to_text entries))
      → save to_text encode w entries files ≡ (true, out)
      → load parse_addr decode true out a ≡ load_rows parse_addr (rows_of to_text entries) a
  unfolding save load
  save-load_rows encode decode w entries files a {out} back h =
      elim (Option-cases (encode (rows_of to_text entries))) [
        | inl e ↦ absurd (ground (arith, e, h))
        | inr (b, e) ↦
            let kept : out.state ≡ some b = ground (arith, e, h) in ground (arith, kept, back b e)
      ]

  -- A saved state is read back: where Save succeeds, Load into a new allocator does, and every address
  -- stands for the name that it stood for, in whatever order the entries were written. It is supposed
  -- that the texts of the addresses, and the rows that are written, are read as what they are.
  pub load-save :
      (encode : List DiskMapping → Option Bytes) (decode : Bytes → Option (List DiskMapping))
      (w : Writes) (entries : Dict Addr Mapping) (a : Allocator) (files : Files) {out : Files}
      → IsListing entries a
      → Reads to_text parse_addr entries
      → ((b : Bytes)
          → encode (rows_of to_text entries) ≡ some b
          → decode b ≡ some (rows_of to_text entries))
      → save to_text encode w entries files ≡ (true, out)
      → ((load parse_addr decode true out new_allocator).0 ≡ true)
        × ((ip : Addr)
            → lookup_ip (load parse_addr decode true out new_allocator).1 ip ≡ lookup_ip a ip)
  load-save encode decode w entries a files {out} l reads back h =
      let loaded = save-load_rows encode decode w entries files new_allocator back h in
      let rows = λ (ip : Addr). load_rows_lem entries new_allocator ip l.once reads in
      rw loaded ((rows invalid).0, λ ip. (rows ip).1 ∙ over_none (lookup ip entries) ip ∙ l.same ip)

  -- Where Save fails, the state file is what it was.
  pub save-keeps :
      (encode : List DiskMapping → Option Bytes) (w : Writes) (entries : Dict Addr Mapping)
      (files : Files) {out : Files}
      → save to_text encode w entries files ≡ (false, out)
      → out.state ≡ files.state
  unfolding save
  save-keeps encode w entries files {out} h =
      elim (Option-cases (encode (rows_of to_text entries))) [
        | inl e ↦ ground (arith, e, h)
        | inr (b, e) ↦ ground (arith, e, h)
      ]
