-- ===== src/Roles/Naming/Leases.antt =====
-- The leases of a DNS role that an accepted command starts.
use mathlib.Core.Path.{subst}
use ts_domain_gateway.Common.{
  ℕ, ◌+◌, ◌≤◌, ◌≡◌, inl, inr, ap, Bool, true, List, [], ◌∷◌, Option, none, some, All, arith,
  list_eq, nat_eq, >>=-eq-some, Bool-cases, Option-cases,
}
use ts_domain_gateway.GoText.{Bytes}
use ts_domain_gateway.Store.{unix_nano, Row}
use ts_domain_gateway.Store.Open.{open_store, first_lease}
use ts_domain_gateway.Store.Open.Migrated.{Expiring, open_store-Expiring}
use ts_domain_gateway.Lifecycle.{Lifecycle, lease_of}
use ts_domain_gateway.Command.{
  Config, Command, check_egress, valid_lease, check_command, dns_gateways,
}
use ts_domain_gateway.Transport.{Transport, open_transport}
use ts_domain_gateway.Roles.{Readers, parse_command}
use ts_domain_gateway.Roles.Accepted.{parse_command-IsChecked}
use ts_domain_gateway.Roles.Egress.{Host}
use ts_domain_gateway.Roles.Naming.{
  Databases, open_database, allocation_store, lifecycle_over, DnsRole, lease_for, Sockets,
  serve_names, run_dns,
}

-- The row has an expiry.
abbrev pub Expires : Row → Type 0
Expires row = (t : ℕ) × (row.expires ≡ some t)

Expiring-Expires :
    (expiry : ℕ) (before rows : List Row) → Expiring expiry before rows → All Expires rows
Expiring-Expires expiry [] [] h = tt
Expiring-Expires expiry (b ∷ before) (row ∷ rows) (e, h) = (
  elim (Option-cases b.expires) [
    | inl f ↦ (expiry, ground (arith, e, f))
    | inr (t, f) ↦ (t, ground (arith, e, f))
  ],
  Expiring-Expires expiry before rows h,
)
Expiring-Expires expiry [] (row ∷ rows) h = absurd h
Expiring-Expires expiry (b ∷ before) [] h = absurd h

open_database-Expires :
    (out : Databases) (url : Bytes) {rows : List Row}
    → open_database out url ≡ some rows
    → All Expires rows
unfolding open_database
open_database-Expires out url {rows} h =
    let (u, _, more) = >>=-eq-some {B = List Row} (out.parse_url url) _ h in
    let d = (open_store url u out.now out.faults (out.database url)).1 in
    elim (Bool-cases (open_store url u out.now out.faults (out.database url)).0) [
      | inr miss ↦ absurd (ground (arith, miss, more))
      | inl hit ↦
          let (_, _, (found, e, expiring)) =
            open_store-Expiring url u out.now out.faults (out.database url) {out = d}
              (ap (λ b. (b, d)) hit) in
          let same : found ≡ rows = ground (arith, e, hit, more) in
          subst (λ r. All Expires r) same
            (Expiring-Expires (unix_nano (out.now + first_lease)) _ found expiring)
    ]

-- Its lease is used as it is, and its rows expire.
abbrev pub HasLeases : Lifecycle → Type 0
HasLeases l = (1 ≤ l.lease) × (lease_of l ≡ l.lease) × All Expires l.registry.table

lease_for-positive :
    (out : Readers) (text : Bytes)
    → valid_lease out.parse_ip out.parse_prefix out.parse_duration text ≡ true
    → 1 ≤ lease_for out.parse_duration text
unfolding valid_lease lease_for
lease_for-positive out text h = elim (Option-cases (out.parse_duration text)) [
  | inl e ↦ ground (arith, e, h)
  | inr (lease, e) ↦ ground (arith, e, h)
]

lifecycle_over-HasLeases :
    (databases : Databases) (c : Config) (faults : List Bool) {store : Option (List Row)}
    (lease : ℕ)
    → allocation_store databases c ≡ some store
    → 1 ≤ lease
    → HasLeases (lifecycle_over faults store lease)
unfolding allocation_store
lifecycle_over-HasLeases databases c faults {store = none} lease h positive =
    (positive, ground (arith, positive), tt)
lifecycle_over-HasLeases databases c faults {store = some rows} lease h positive =
    elim (Option-cases (open_database databases c.database)) [
      | inl e ↦ absurd (ground (arith, e, h))
      | inr (found, e) ↦
          let same : found ≡ rows = ground (arith, e, h) in
          (
            positive,
            ground (arith, positive),
            subst (λ r. All Expires r) same (open_database-Expires databases c.database e),
          )
    ]

checked_lease :
    (out : Readers) (role mode : Bytes) (c : Config) (tags : Bytes) {m : Command}
    → check_command out.parse_ip out.parse_prefix out.parse_duration role mode c tags ≡ some m
    → valid_lease out.parse_ip out.parse_prefix out.parse_duration m.config.allocation_lease ≡ true
unfolding check_command
checked_lease out role mode c tags {m} h =
    elim (Option-cases (check_egress out.parse_ip out.parse_prefix out.parse_duration c)) [
      | inl e ↦ ground (arith, e, h)
      | inr (tt, e) ↦ ground (arith, e, h)
    ]

module _ (out : Host) (databases : Databases) (sockets : Sockets) where
  serve_names-HasLeases :
      (c : Config) (tailnet : Transport) {role : DnsRole}
      → valid_lease out.readers.parse_ip out.readers.parse_prefix out.readers.parse_duration
          c.allocation_lease
        ≡ true
      → serve_names out databases sockets c tailnet ≡ some role
      → HasLeases role.held
  unfolding serve_names
  serve_names-HasLeases c tailnet {role} valid h =
      let positive = lease_for-positive out.readers c.allocation_lease valid in
      let (node, _, h1) = >>=-eq-some {B = DnsRole} tailnet.node_config _ h in
      let (upstream, _, h2) = >>=-eq-some {B = DnsRole} (dns_gateways out.system node) _ h1 in
      let (store, e, h3) = >>=-eq-some {B = DnsRole} (allocation_store databases c) _ h2 in
      let leases = lifecycle_over-HasLeases databases c databases.later_faults _ e positive in
      elim (Option-cases (sockets.resolve_udp upstream)) [
        | inl f ↦ absurd (ground (arith, f, h3))
        | inr (resolved, f) ↦
            let same : lifecycle_over databases.later_faults store
                  (lease_for out.readers.parse_duration c.allocation_lease)
                ≡ role.held =
              ground (arith, f, h3) in
            subst HasLeases same leases
      ]

  -- A DNS role that starts with a command that parseCommand accepts has a lease of at least a nanosecond,
  -- which the lifecycle uses as it is and never replaces by its own default; and every row of the
  -- database that it opened expires at some time.
  pub run_dns-HasLeases :
      (args : List Bytes) {m : Command} {role : DnsRole}
      → parse_command out.readers args ≡ some m
      → run_dns out databases sockets m.config m.transport ≡ some role
      → HasLeases role.held
  unfolding run_dns
  run_dns-HasLeases args {m} h started =
      let k = parse_command-IsChecked out.readers args h in
      let valid = checked_lease out.readers k.role k.mode k.given k.tags k.checked in
      let (tailnet, _, more) =
        >>=-eq-some {B = DnsRole}
          (open_transport out.adapters out.to_text out.sort out.json out.readers.parse_ip m.config
            m.transport true)
          _ started in
      serve_names-HasLeases m.config tailnet valid more
