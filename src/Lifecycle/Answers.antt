-- ===== src/Lifecycle/Answers.antt =====
-- A service whose mappings are held in memory alone: a synthesized address and the PTR question for
-- it.
use ts_domain_gateway.Common.{
  ℕ, ◌<◌, ◌^◌, ◌≡◌, ◌∙◌, ap, Bool, true, false, List, Option, some, arith, nat_eq, list_eq,
}
use ts_domain_gateway.GoText.{Bytes}
use ts_domain_gateway.Dns.{ptr, type_ptr}
use ts_domain_gateway.Dns.Reverse.{reverse_name, reverse_ipv4_roundtrip}
use ts_domain_gateway.Tags.{TaggedNode}
use ts_domain_gateway.Name.{normal_name}
use ts_domain_gateway.Net.{Addr, invalid, v4, Prefix}
use ts_domain_gateway.Alloc.{Mapping, key_of, lookup_ip}
use ts_domain_gateway.Alloc.Maps.{IsConsistent, mapping_key}
use ts_domain_gateway.Alloc.Named.{Named}
use ts_domain_gateway.Service.{
  Library, Identity, State, dns_answer, dns_synthesized, ptr_mapping, range_key,
}
use ts_domain_gateway.Service.Callback.{decide, decide_ptr}
use ts_domain_gateway.Service.Outcomes.{dns_answer-IsCovered}
use ts_domain_gateway.Lifecycle.{
  Lifecycle, memory_allocate, lifecycle_allocate, lifecycle_lookup, lifecycle_mappings,
}
use ts_domain_gateway.Lifecycle.Memory.{memory_allocate-Named}

module _ (to_text : Addr → Bytes) (parse_addr : Bytes → Option Addr) where
  lifecycle_allocate-Named :
      (writes : Bool) (gateway : Bytes) (ranges : List Prefix) (domain : Bytes) (now : ℕ)
      (l : Lifecycle) {ip : Addr} {out : Lifecycle}
      → l.has_store ≡ false
      → IsConsistent l.registry.cache
      → lifecycle_allocate to_text parse_addr writes gateway ranges domain now l ≡ (some ip, out)
      → Named out.registry.cache gateway domain ip × (out.has_store ≡ false)
  unfolding lifecycle_allocate
  lifecycle_allocate-Named writes gateway ranges domain now l {ip} {out} off c h =
      let given : memory_allocate l.has_state_path writes gateway ranges domain now l.registry.cache
          ≡ (some ip, out.registry.cache) =
        ground (arith, off, h) in
      (
        memory_allocate-Named l.has_state_path writes gateway ranges domain now l.registry.cache c
            given,
        ground (arith, off, h),
      )

  lifecycle_lookup-memory :
      (ip : Addr) (now : ℕ) (l : Lifecycle)
      → l.has_store ≡ false
      → lifecycle_lookup to_text parse_addr ip now l ≡ (lookup_ip l.registry.cache ip, l)
  unfolding lifecycle_lookup
  lifecycle_lookup-memory ip now l off = ground (arith, off)

  -- With no store, and while the allocator's maps are inverse to one another, an address that DNSAnswer
  -- synthesizes for a name is answered, at a PTR question, by the mapping of the normalised name under
  -- the key of its ranges.
  pub dns_answer-ptr_mapping :
      (lib : Library) (identity : Identity) (writes : Bool) (now : ℕ) (source : Addr) (name : Bytes)
      (s t : State (lifecycle_mappings to_text parse_addr writes now)) {ip : Addr}
      → s.held.has_store ≡ false
      → IsConsistent s.held.registry.cache
      → dns_answer (lifecycle_mappings to_text parse_addr writes now) lib identity source name s
        ≡ ((ip, dns_synthesized), t)
      → (m : Mapping) × (ranges : List Prefix) × (n : Bytes) × (normal_name lib.wide name
          ≡ (n, true))
        × ((ptr_mapping (lifecycle_mappings to_text parse_addr writes now) lib identity ip t).0
            ≡ some m)
        × (mapping_key m ≡ key_of (range_key lib.prefix_text ranges) n)
  unfolding ptr_mapping
  dns_answer-ptr_mapping lib identity writes now source name s t {ip} off c h =
      let (ranges, n, covered, given, _) =
        dns_answer-IsCovered (lifecycle_mappings to_text parse_addr writes now) lib identity source
          name s t h in
      let (named, still) =
        lifecycle_allocate-Named writes (range_key lib.prefix_text ranges) ranges n now s.held off c
          given in
      (
        named.0,
        ranges,
        n,
        covered.normal,
        ap (λ r. r.0) (lifecycle_lookup-memory ip now t.held still) ∙ named.1,
        named.2,
      )

  -- The two directions of the DNS role, with no store and while the allocator's maps are inverse to one
  -- another: behind an address that DNSAnswer synthesized for a name, whoever asks for the PTR of the
  -- reverse name of this address is answered with the domain of a mapping, and the mapping's key is that
  -- of the normalised name and its ranges.
  pub decide-reverse_name :
      (lib : Library) (identity : Identity) (writes : Bool) (now : ℕ) (source : Addr) (name : Bytes)
      (s t : State (lifecycle_mappings to_text parse_addr writes now)) (ip : ℕ)
      → s.held.has_store ≡ false
      → IsConsistent s.held.registry.cache
      → ip < 2 ^ 32
      → dns_answer (lifecycle_mappings to_text parse_addr writes now) lib identity source name s
        ≡ ((v4 ip, dns_synthesized), t)
      → (nodes : Option (List TaggedNode)) (asker : Addr)
      → (m : Mapping) × (ranges : List Prefix) × (n : Bytes) × (normal_name lib.wide name
          ≡ (n, true))
        × ((decide
              (lifecycle_mappings to_text parse_addr writes now)
              lib
              identity
              nodes
              asker
              (record { name = reverse_name ip; type_code = type_ptr })
              t).0
            ≡ record { outcome = ptr; address = invalid; ptr_name = m.domain })
        × (mapping_key m ≡ key_of (range_key lib.prefix_text ranges) n)
  unfolding decide decide_ptr
  decide-reverse_name lib identity writes now source name s t ip off c small h nodes asker =
      let (m, ranges, n, normal, found, key) =
        dns_answer-ptr_mapping lib identity writes now source name s t off c h in
      let (plain, _) = reverse_ipv4_roundtrip lib.wide ip small in
      (m, ranges, n, normal, ground (arith, plain, found), key)
