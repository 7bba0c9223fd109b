-- ===== src/Roles/Accepted.antt =====
-- What parseCommand accepts, and that it starts.
use mathlib.Core.Path.{subst}
use ts_domain_gateway.Common.{
  ◌≤◌, ◌≡◌, ◌∙◌, ◌⊎◌, inl, inr, true, false, not, ◌&&◌, List, [], ◌∷◌, some, length, arith, ◌==◌,
  list_eq, nat_eq, eq_iff, ◌>>=◌, >>=-eq-some, Bool-cases, Option-cases,
}
use ts_domain_gateway.GoText.{Bytes, codes, join}
use ts_domain_gateway.Policy.Decode.{comma}
use ts_domain_gateway.Command.{Config, Command, check_command, check_egress, config_path}
use ts_domain_gateway.Command.Accepted.{check_command-IsRunnable}
use ts_domain_gateway.Transport.{Transport}
use ts_domain_gateway.Roles.{
  Readers, flag_names, flag_value, apply_flags, parse_flagged, read_config, parse_command,
}
use ts_domain_gateway.Roles.Egress.{Host, Egress, open_tailnet, run_egress}
use ts_domain_gateway.Roles.Egress.Starts.{IsUsable, run_egress_total}

-- The last check of an accepted command.
pub record IsChecked (out : Readers) (m : Command) : Type 0 where
  pub role : Bytes
  pub mode : Bytes
  pub given : Config
  pub tags : Bytes
  pub known : (role ≡ codes "dns") ⊎ (role ≡ codes "egress")
  pub checked :
      check_command out.parse_ip out.parse_prefix out.parse_duration role mode given tags ≡ some m

module _ (out : Readers) where
  parse_flagged-IsChecked :
      (role : Bytes) (args : List Bytes) (c : Config) {m : Command}
      → (role ≡ codes "dns") ⊎ (role ≡ codes "egress")
      → parse_flagged out role args c ≡ some m
      → IsChecked out m
  unfolding parse_flagged
  parse_flagged-IsChecked role args c known h =
      let (set, _, checked) = >>=-eq-some {B = Command} (out.parse_flags flag_names args) _ h in
      record {
        role = role;
        mode = flag_value set (codes "mode") (codes "tsnet");
        given = apply_flags set c;
        tags = flag_value set (codes "tsnet-tags") (join c.tsnet.tags (comma ∷ []));
        known = known;
        checked = checked;
      }

  known_role :
      (role : Bytes)
      → (not (role == codes "dns") && not (role == codes "egress")) ≡ false
      → (role ≡ codes "dns") ⊎ (role ≡ codes "egress")
  known_role role h = ground (arith, h, eq_iff role (codes "dns"), eq_iff role (codes "egress"))

  pub parse_command-IsChecked :
      (args : List Bytes) {m : Command} → parse_command out args ≡ some m → IsChecked out m
  unfolding parse_command
  parse_command-IsChecked [] h = absurd (ground (arith, h))
  parse_command-IsChecked (role ∷ args) {m} h =
      elim (Bool-cases (not (role == codes "dns") && not (role == codes "egress"))) [
        | inl bad ↦ absurd (ground (arith, bad, h))
        | inr good ↦
            let found : (config_path out.clean args >>= λ path. out.read_file path >>= λ text.
            out.standardize text >>= λ contents.
            read_config out contents >>= λ c. parse_flagged out role args c)
                ≡ some m =
              ground (arith, good, h) in
            let (path, _, h1) = >>=-eq-some {B = Command} (config_path out.clean args) _ found in
            let (text, _, h2) = >>=-eq-some {B = Command} (out.read_file path) _ h1 in
            let (contents, _, h3) = >>=-eq-some {B = Command} (out.standardize text) _ h2 in
            let (c, _, h4) = >>=-eq-some {B = Command} (read_config out contents) _ h3 in
            parse_flagged-IsChecked role args c (known_role role good) h4
      ]

  checked_role :
      (role mode : Bytes) (c : Config) (tags : Bytes) {m : Command}
      → check_command out.parse_ip out.parse_prefix out.parse_duration role mode c tags ≡ some m
      → role ≡ m.role
  unfolding check_command
  checked_role role mode c tags {m} h =
      elim (Option-cases (check_egress out.parse_ip out.parse_prefix out.parse_duration c)) [
        | inl e ↦ ground (arith, e, h)
        | inr (tt, e) ↦ ground (arith, e, h)
      ]

-- An egress command that parseCommand accepts is one that runEgress starts to serve, whether it runs on
-- the daemon or on a tsnet server and whether the node has an attribute or not: if the tailnet can be
-- opened, the resolver that an attribute names would be accepted by the configuration too, the host has
-- a nameserver, and a tsnet server accepts the routes and knows a DNS resolver.
pub parse_command-run_egress :
    (out : Host) (args : List Bytes) {m : Command} (tailnet : Transport) (upstream addr : Bytes)
    (addrs : List Bytes)
    → parse_command out.readers args ≡ some m
    → m.role ≡ codes "egress"
    → open_tailnet out m.config m.transport ≡ some tailnet
    → IsUsable out.readers.parse_ip tailnet.node_config
    → out.system ≡ some upstream
    → out.accepts_routes ≡ true
    → out.advertised ≡ some (addr ∷ addrs)
    → 1 ≤ length addr
    → (running : Egress) × (run_egress out m.config m.transport ≡ some running)
parse_command-run_egress out args {m} tailnet upstream addr addrs h egress opened usable host
      accepts known some_addr =
    let k = parse_command-IsChecked out.readers args h in
    let same = checked_role out.readers k.role k.mode k.given k.tags k.checked ∙ egress in
    let checked =
      subst
        (λ role.
          check_command out.readers.parse_ip out.readers.parse_prefix out.readers.parse_duration
            role k.mode k.given k.tags
          ≡ some m)
        same k.checked in
    let (runs, _, _) =
      check_command-IsRunnable out.readers.parse_ip out.readers.parse_prefix
        out.readers.parse_duration k.mode k.given k.tags checked in
    run_egress_total out host m.config tailnet runs usable m.transport addr addrs opened accepts
      known some_addr
