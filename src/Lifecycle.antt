-- ===== src/Lifecycle.antt =====
-- AllocationLifecycle of internal/domain/state.go: the allocator behind the shared registry, or alone
-- with a state file. The clock's reading and whether the file can be written are arguments.
pub mod Memory
pub mod Answers
pub mod Stored
pub mod Instances
mod Examples
use ts_domain_gateway.Common.{
  ℕ, ◌*◌, ◌^◌, Bool, not, ◌&&◌, List, Option, none, some, ltb, if◌then◌else◌,
}
use ts_domain_gateway.GoText.{Bytes}
use ts_domain_gateway.Net.{Addr, Prefix}
use ts_domain_gateway.Alloc.{Allocator, Mapping, allocate, lookup_ip, lookup_key_live}
use ts_domain_gateway.Service.{Mappings}
use ts_domain_gateway.Store.{Registry, Exec, ◌>>=◌, pure, sql_allocate, sql_lookup, sql_lookup_key}

-- The fields; `registry` holds the allocator also where there is no store.
pub record Lifecycle : Type 0 where
  pub has_store : Bool
  pub has_state_path : Bool
  pub lease : ℕ
  pub registry : Registry

abbrev pub hour : ℕ
hour = 3600 * 10 ^ 9

abbrev pub lease_of : Lifecycle → ℕ
lease_of l = if ltb 0 l.lease then l.lease else hour

or_allocate : Option Addr → Exec Addr → Exec Addr
or_allocate (some ip) rest = pure ip
or_allocate none rest = rest

module _ (to_text : Addr → Bytes) (parse_addr : Bytes → Option Addr) where
  -- Allocate with a store.
  unfoldable pub stored_allocate : Bytes → List Prefix → Bytes → ℕ → ℕ → Exec Addr
  unfolding or_allocate sql_allocate sql_lookup_key
  stored_allocate gateway ranges domain now lease = do
    found ← sql_lookup_key to_text parse_addr gateway domain now lease
    or_allocate found (sql_allocate to_text parse_addr gateway ranges domain now lease)

-- Allocate with no store. The state file is written behind an allocation only; where that fails the
-- call does, but the allocator keeps the mapping.
unfoldable pub memory_allocate :
    Bool → Bool → Bytes → List Prefix → Bytes → ℕ → Allocator → Option Addr × Allocator
memory_allocate has_path writes gateway ranges domain now a =
    let (b, hit) = lookup_key_live a gateway domain now in
    elim hit [
      | some ip ↦ (some ip, b)
      | none ↦
          let (c, given) = allocate b gateway ranges domain in
          if has_path && not writes then (none, c) else (given, c)
    ]

module _ (to_text : Addr → Bytes) (parse_addr : Bytes → Option Addr) where
  unfoldable pub lifecycle_allocate :
      Bool → Bytes → List Prefix → Bytes → ℕ → Lifecycle → Option Addr × Lifecycle
  unfolding stored_allocate memory_allocate
  lifecycle_allocate writes gateway ranges domain now l =
      if l.has_store
      then (let (ip, registry) =
            stored_allocate to_text parse_addr gateway ranges domain now (lease_of l) l.registry in
          (ip, record l { registry = registry }))
      else (let (ip, cache) =
            memory_allocate l.has_state_path writes gateway ranges domain now l.registry.cache in
          (ip, record l { registry = record l.registry { cache = cache } }))

  -- Lookup: an error is no mapping.
  unfoldable pub lifecycle_lookup : Addr → ℕ → Lifecycle → Option Mapping × Lifecycle
  unfolding sql_lookup
  lifecycle_lookup ip now l =
      if l.has_store
      then (let (found, registry) = sql_lookup to_text parse_addr ip now (lease_of l) l.registry in
          (elim found [ none ↦ none | some m ↦ m ], record l { registry = registry }))
      else (lookup_ip l.registry.cache ip, l)

  -- The mappings of a service, at one reading of the clock.
  abbrev pub lifecycle_mappings : Bool → ℕ → Mappings
  lifecycle_mappings writes now = record {
    State = Lifecycle;
    allocate = λ gateway ranges domain l. lifecycle_allocate writes gateway ranges domain now l;
    find = λ ip l. lifecycle_lookup ip now l;
  }
