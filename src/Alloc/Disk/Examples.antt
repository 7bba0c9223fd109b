-- ===== src/Alloc/Disk/Examples.antt =====
-- Two mappings that are written in the other order.
use ts_domain_gateway.Common.{
  ◌≡◌, refl, true, List, [], ◌∷◌, Option, none, some, ◌==◌, nat_eq, if◌then◌else◌, arith, eq_iff,
}
use ts_domain_gateway.GoText.{Bytes, codes}
use ts_domain_gateway.Net.{Addr, invalid, v4, v6, addr_eq}
use ts_domain_gateway.Alloc.Assoc.{Dict, lookup}
use ts_domain_gateway.Alloc.{Allocator, Mapping, new_allocator, lookup_ip}
use ts_domain_gateway.Alloc.Disk.{DiskMapping, Files, Writes, save, load, rows_of}
use ts_domain_gateway.Alloc.Disk.Restored.{IsListing, load-save}

-- A text of an address, and its reading.
abbrev text : Addr → Bytes
text invalid = []
text (v4 n) = 4 ∷ n ∷ []
text (v6 n) = 6 ∷ n ∷ []

abbrev read : Bytes → Option Addr
read (tag ∷ n ∷ []) = if tag == 4 then some (v4 n) else some (v6 n)
read _ = none

abbrev one : Mapping
one = record { gateway = codes "gw"; domain = codes "a.corp" }

abbrev two : Mapping
two = record { gateway = codes "gw"; domain = codes "b.corp" }

abbrev held : Allocator
held = record new_allocator { by_ip = (v4 1, one) ∷ (v4 2, two) ∷ [] }

abbrev entries : Dict Addr Mapping
entries = (v4 2, two) ∷ (v4 1, one) ∷ []

-- A format of exactly these rows.
abbrev encode : List DiskMapping → Option Bytes
encode rows = some (codes "[]")

abbrev decode : Bytes → Option (List DiskMapping)
decode b = some (rows_of text entries)

abbrev works : Writes
works = record { directory = true; written = true; renamed = true; left = none }

abbrev empty : Files
empty = record { state = none; temporary = none }

abbrev written : Files
written = record { state = some (codes "[]"); temporary = none }

listing : IsListing entries held
unfolding lookup lookup_ip
listing = record {
  once = (refl, (refl, tt));
  same = λ ip. ground (arith, eq_iff (v4 1) ip, eq_iff (v4 2) ip);
}

saved : save text encode works entries empty ≡ (true, written)
unfolding save
saved = refl

load-save_example :
    ((load read decode true written new_allocator).0 ≡ true)
    × ((ip : Addr)
        → lookup_ip (load read decode true written new_allocator).1 ip ≡ lookup_ip held ip)
load-save_example =
    load-save text read encode decode works entries held empty listing (refl, (refl, tt))
      (λ b e. refl) saved
