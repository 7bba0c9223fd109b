-- ===== src/Alloc.antt =====
-- The in-memory allocator of internal/domain/domain.go: type Allocator and its methods. A map is
-- an association list; a time is a number of nanoseconds, with 0 for the zero Time. The methods
-- hold the mutex throughout, but for the read of Allocate, which is repeated under the lock: a
-- call is one step.
pub mod Assoc
pub mod Choose
pub mod Inverse
pub mod Maps
pub mod Calls
pub mod Named
pub mod Fresh
pub mod Disk
mod Examples
use ts_domain_gateway.Common.{
  ℕ, suc, Bool, true, false, not, ◌&&◌, ◌||◌, List, [], ◌∷◌, ◌++◌, Option, none, some, length, leb,
  ltb, ◌==◌, nat_eq, list_eq, if◌then◌else◌,
}
use ts_domain_gateway.GoText.{Bytes}
use ts_domain_gateway.Net.{
  Addr, invalid, Prefix, addr_eq, is_valid, next_addr, prev_addr, less, masked_addr,
  prefix_contains,
}
use Assoc.{Dict, lookup, insert, delete}

pub record Mapping : Type 0 where
  pub gateway : Bytes
  pub domain : Bytes

pub record Allocator : Type 0 where
  pub by_key : Dict Bytes Addr
  pub by_ip : Dict Addr Mapping
  pub next : Dict Bytes Addr
  pub expires : Dict Addr ℕ

abbrev pub new_allocator : Allocator
new_allocator = record { by_key = []; by_ip = []; next = []; expires = [] }

-- `gateway + "\x00" + name`
abbrev pub key_of : Bytes → Bytes → Bytes
key_of gateway name = gateway ++ 0 ∷ name

-- A missing key reads as the zero value.
abbrev pub addr_at : Dict Bytes Addr → Bytes → Addr
addr_at m k = elim (lookup k m) [ none ↦ invalid | some ip ↦ ip ]

abbrev pub time_at : Dict Addr ℕ → Addr → ℕ
time_at m k = elim (lookup k m) [ none ↦ 0 | some t ↦ t ]

-- The first loop of Allocate, as the ranges from `start` on; `none` where no range decides it.
unfoldable pub from_start : Addr → List Prefix → Option (List Prefix)
from_start ip [] = none
from_start ip (p ∷ ps) =
    if prefix_contains p ip
    then some (p ∷ ps)
    else if is_valid (prev_addr ip) && prefix_contains p (prev_addr ip)
    then some ps
    else from_start ip ps

-- The ranges from `start` on, which is 0 where nothing sets it.
unfoldable pub starting : Addr → List Prefix → List Prefix
starting ip prefixes =
    if is_valid ip
    then elim (from_start ip prefixes) [ none ↦ prefixes | some rest ↦ rest ]
    else prefixes

abbrev pub first_of : Prefix → Addr
first_of p = next_addr (masked_addr p)

-- The test at the end of the second loop's body.
unfoldable pub usable : Prefix → Addr → Bool
usable p ip = prefix_contains p ip && not (ip == masked_addr p)

-- The second loop from its second round on.
unfoldable pub pick_later : List Prefix → Addr
pick_later [] = invalid
pick_later (p ∷ ps) = if usable p (first_of p) then first_of p else pick_later ps

-- The second loop: only its first round may keep the address.
unfoldable pub pick : Addr → List Prefix → Addr
pick ip [] = ip
pick ip (p ∷ ps) =
    let candidate = if prefix_contains p ip then ip else first_of p in
    if usable p candidate then candidate else pick_later ps

-- The address for a new name, from `next[gateway]`; `none` where the ranges are exhausted.
unfoldable pub choose : Addr → List Prefix → Option Addr
choose ip [] = none
choose ip (p ∷ ps) =
    let start = starting ip (p ∷ ps) in
    let picked = pick (if is_valid ip then ip else first_of p) start in
    if length start == 0 then none else if is_valid picked then some picked else none

unfoldable pub allocate : Allocator → Bytes → List Prefix → Bytes → Allocator × Option Addr
allocate a gateway prefixes name = elim (lookup (key_of gateway name) a.by_key) [
  | some ip ↦ (a, some ip)
  | none ↦ elim (choose (addr_at a.next gateway) prefixes) [
    | none ↦ (a, none)
    | some ip ↦ (
      record a {
        by_key = insert (key_of gateway name) ip a.by_key;
        by_ip = insert ip (record { gateway = gateway; domain = name }) a.by_ip;
        next = insert gateway (next_addr ip) a.next;
      },
      some ip,
    )
  ]
]

-- Lookup
pub lookup_ip : Allocator → Addr → Option Mapping
lookup_ip a ip = lookup ip a.by_ip

-- `!a.expires[ip].IsZero() && !now.Before(a.expires[ip])`
abbrev pub is_expired : Allocator → Addr → ℕ → Bool
is_expired a ip now = not (time_at a.expires ip == 0) && not (ltb now (time_at a.expires ip))

abbrev pub forget : Allocator → Addr → Mapping → Allocator
forget a ip m = record a {
  by_ip = delete ip a.by_ip;
  by_key = delete (key_of m.gateway m.domain) a.by_key;
  expires = delete ip a.expires;
}

unfoldable pub lookup_live : Allocator → Addr → ℕ → Allocator × Option Mapping
lookup_live a ip now = elim (lookup ip a.by_ip) [
  | none ↦ (a, none)
  | some m ↦ if is_expired a ip now then (forget a ip m, none) else (a, some m)
]

unfoldable pub lookup_key : Allocator → Bytes → Bytes → Option Addr
lookup_key a gateway domain = lookup (key_of gateway domain) a.by_key

-- The callers read the address only with `ok`.
unfoldable pub lookup_key_live : Allocator → Bytes → Bytes → ℕ → Allocator × Option Addr
unfolding lookup_key
lookup_key_live a gateway domain now = elim (lookup_key a gateway domain) [
  | none ↦ (a, none)
  | some ip ↦ let (b, m) = lookup_live a ip now in (b, elim m [ none ↦ none | some _ ↦ some ip ])
]

unfoldable pub remember_until : Allocator → Bytes → Bytes → Addr → ℕ → Allocator
remember_until a gateway domain ip expiry = elim (lookup (key_of gateway domain) a.by_key) [
  | some _ ↦ a
  | none ↦ elim (lookup ip a.by_ip) [
    | some _ ↦ a
    | none ↦
        let old = addr_at a.next gateway in
        record a {
          by_key = insert (key_of gateway domain) ip a.by_key;
          by_ip = insert ip (record { gateway = gateway; domain = domain }) a.by_ip;
          expires = insert ip expiry a.expires;
          next =
              if not (is_valid old) || less old (next_addr ip)
              then insert gateway (next_addr ip) a.next
              else a.next;
        }
  ]
]

pub remember : Allocator → Bytes → Bytes → Addr → Allocator
unfolding remember_until
remember a gateway domain ip = remember_until a gateway domain ip 0
