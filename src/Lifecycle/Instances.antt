-- ===== src/Lifecycle/Instances.antt =====
-- Instances of the DNS role over one shared registry: a synthesized address and the PTR question
-- for it.
use mathlib.Core.Path.{subst}
use ts_domain_gateway.Common.{
  ℕ, ◌+◌, ◌<◌, ◌≤◌, ◌^◌, ◌≡◌, Bool, true, List, [], Option, none, some, arith, nat_eq, list_eq,
}
use ts_domain_gateway.GoText.{Bytes}
use ts_domain_gateway.Dns.{ptr, type_ptr}
use ts_domain_gateway.Dns.Reverse.{reverse_name, reverse_ipv4_roundtrip}
use ts_domain_gateway.Tags.{TaggedNode}
use ts_domain_gateway.Name.{normal_name}
use ts_domain_gateway.Net.{Addr, invalid, v4, Prefix}
use ts_domain_gateway.Alloc.{Mapping, lookup_key_live, lookup_live}
use ts_domain_gateway.Store.{Registry, sql_lookup, order, unix_nano}
use ts_domain_gateway.Store.Gives.{Allows}
use ts_domain_gateway.Store.Shared.{ReadsBack, Leased, until, R, IsCalm}
use ts_domain_gateway.Store.Shared.Agreed.{
  Leased-lookup, Meanwhile, Meanwhile-Leased, order_lt, order_le,
}
use ts_domain_gateway.Service.{
  Library, Identity, State, dns_answer, dns_synthesized, ptr_mapping, range_key,
}
use ts_domain_gateway.Service.Callback.{decide, decide_ptr}
use ts_domain_gateway.Service.Outcomes.{dns_answer-IsCovered}
use ts_domain_gateway.Lifecycle.{
  Lifecycle, lease_of, stored_allocate, lifecycle_allocate, lifecycle_lookup, lifecycle_mappings,
}
use ts_domain_gateway.Lifecycle.Stored.{stored_allocate-Leased}

module _ (to_text : Addr → Bytes) (parse_addr : Bytes → Option Addr)
    (back : ReadsBack to_text parse_addr) where
  lifecycle_allocate-Leased :
      (writes : Bool) (gateway : Bytes) (ranges : List Prefix) (domain : Bytes) (now during : ℕ)
      (l : Lifecycle) {ip : Addr} {out : Lifecycle}
      → l.has_store ≡ true
      → during ≤ until now (lease_of l)
      → Allows (R to_text parse_addr now (lease_of l) during) l.registry.others
      → IsCalm to_text parse_addr now (lease_of l) during l.registry.table
      → (lookup_key_live l.registry.cache gateway domain now).1 ≡ none
      → lifecycle_allocate to_text parse_addr writes gateway ranges domain now l ≡ (some ip, out)
      → Leased to_text parse_addr gateway domain (until now (lease_of l)) ip out.registry.table
  unfolding lifecycle_allocate
  lifecycle_allocate-Leased writes gateway ranges domain now during l {ip} {out} on short allowed
        calm miss h =
      let stored =
        stored_allocate to_text parse_addr gateway ranges domain now (lease_of l) l.registry in
      let given : stored.0 ≡ some ip = ground (arith, on, h) in
      let left : stored.1 ≡ out.registry = ground (arith, on, h) in
      subst
        (λ (r : Registry).
          Leased to_text parse_addr gateway domain (until now (lease_of l)) ip r.table)
        left
        (stored_allocate-Leased to_text parse_addr back gateway domain ranges now (lease_of l)
          during l.registry ip short allowed calm miss given)

  lifecycle_lookup-stored :
      (ip : Addr) (now : ℕ) (l : Lifecycle) (m : Mapping)
      → l.has_store ≡ true
      → (sql_lookup to_text parse_addr ip now (lease_of l) l.registry).0 ≡ some (some m)
      → (lifecycle_lookup to_text parse_addr ip now l).0 ≡ some m
  unfolding lifecycle_lookup
  lifecycle_lookup-stored ip now l m on found = ground (arith, on, found)

  -- With a shared registry: an address that DNSAnswer of one instance, whose cache holds nothing live,
  -- synthesized for a name is answered by every other instance, at a PTR question for its reverse name
  -- by whoever asks until the lease ends, with the normalised name. The other instance's statements
  -- succeed and its cache does not hold the address. Between any two statements of both calls, and
  -- between the calls, other instances may insert, delete and renew rows: what they insert or renew
  -- lasts as long as the lease; they delete, before `during`, in the first call, and before the end of
  -- the lease behind it. What is live at the start of the first call lasts until `during`. The lease ends
  -- before the nanoseconds leave int64. Keys and addresses of the table were unique, and its addresses
  -- written as String does.
  pub decide-other_instance :
      (lib : Library) (identity others : Identity) (writes writes' : Bool) (now later during : ℕ)
      (source : Addr) (name : Bytes)
      (s t : State (lifecycle_mappings to_text parse_addr writes now))
      (u : State (lifecycle_mappings to_text parse_addr writes' later)) (ip : ℕ)
      → s.held.has_store ≡ true
      → now + lease_of s.held < 2 ^ 63
      → during ≤ now + lease_of s.held
      → Allows
          (R to_text parse_addr now (lease_of s.held) (order (unix_nano during)))
          s.held.registry.others
      → IsCalm to_text parse_addr now
          (lease_of s.held)
          (order (unix_nano during))
          s.held.registry.table
      → ((gateway domain : Bytes)
          → (lookup_key_live s.held.registry.cache gateway domain now).1 ≡ none)
      → ip < 2 ^ 32
      → dns_answer (lifecycle_mappings to_text parse_addr writes now) lib identity source name s
        ≡ ((v4 ip, dns_synthesized), t)
      → u.held.has_store ≡ true
      → Meanwhile to_text parse_addr
          (until now (lease_of s.held))
          t.held.registry.table
          u.held.registry.table
      → u.held.registry.faults ≡ []
      → Allows (Meanwhile to_text parse_addr (until now (lease_of s.held))) u.held.registry.others
      → (lookup_live u.held.registry.cache (v4 ip) later).1 ≡ none
      → later < now + lease_of s.held
      → (nodes : Option (List TaggedNode)) (asker : Addr)
      → (n : Bytes) × (normal_name lib.wide name ≡ (n, true))
        × ((decide
              (lifecycle_mappings to_text parse_addr writes' later)
              lib
              others
              nodes
              asker
              (record { name = reverse_name ip; type_code = type_ptr })
              u).0
            ≡ record { outcome = ptr; address = invalid; ptr_name = n })
  unfolding decide decide_ptr ptr_mapping
  decide-other_instance lib identity others writes writes' now later during source name s t u ip on
        soon short allowed calm fresh small h on' past free allowed' no_ip early nodes asker =
      let (ranges, n, covered, given, _) =
        dns_answer-IsCovered (lifecycle_mappings to_text parse_addr writes now) lib identity source
          name s t h in
      let gateway = range_key lib.prefix_text ranges in
      let lease = lease_of s.held in
      let leased =
        lifecycle_allocate-Leased writes gateway ranges n now (order (unix_nano during)) s.held on
          (order_le during (now + lease) short soon) allowed calm (fresh gateway n) given in
      let held =
        Meanwhile-Leased to_text parse_addr gateway n (until now lease) (v4 ip) _
          u.held.registry.table past leased in
      let found =
        Leased-lookup to_text parse_addr gateway n (until now lease) (v4 ip) u.held.registry free
          allowed' held later (lease_of u.held) (order_lt later (now + lease) early soon) no_ip in
      let named =
        lifecycle_lookup-stored (v4 ip) later u.held (record { gateway = gateway; domain = n }) on'
          found in
      let (plain, _) = reverse_ipv4_roundtrip lib.wide ip small in
      (n, covered.normal, ground (arith, plain, named))
