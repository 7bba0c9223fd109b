-- ===== src/Resolver/Examples.antt =====
-- An address with a port, and a text with an open bracket.
use ts_domain_gateway.Common.{◌≡◌, ◌⊎◌, ◌++◌, ◌∷◌, refl, Bool, true, false, some, none, arith}
use ts_domain_gateway.GoText.{Bytes, codes, cut, contains}
use ts_domain_gateway.Resolver.{
  open_bracket, split_host_port, join_host_port, parse_u16, checked_endpoint, is_system_resolver,
  normalize_resolver,
}
use ts_domain_gateway.Resolver.Laws.{
  IsEndpoint, normalize_resolver-stable, normalize_resolver-unclosed,
}

-- net.ParseIP taken to accept no text.
abbrev no_ip : Bytes → Bool
no_ip s = false

normalize_resolver_run :
    normalize_resolver no_ip (codes "dns.corp:5353") ≡ some (codes "dns.corp:5353")
unfolding normalize_resolver split_host_port join_host_port parse_u16 checked_endpoint
    is_system_resolver contains cut
normalize_resolver_run = refl

split_run : split_host_port (codes "dns.corp:5353") ≡ some (codes "dns.corp", codes "5353")
unfolding split_host_port contains cut
split_run = refl

normalize_resolver-stable_example :
    ((is_system_resolver (codes "dns.corp:5353") ≡ true)
      × (codes "dns.corp:5353" ≡ codes "dns.corp:5353"))
    ⊎ (IsEndpoint (codes "dns.corp:5353")
        × (normalize_resolver no_ip (codes "dns.corp:5353") ≡ some (codes "dns.corp:5353")))
normalize_resolver-stable_example =
    normalize_resolver-stable no_ip (codes "dns.corp:5353")
      (λ e. absurd (ground (arith, e, split_run))) normalize_resolver_run

normalize_resolver-unclosed_example :
    (normalize_resolver no_ip (open_bracket ∷ codes "x")
      ≡ some (open_bracket ∷ (codes "x" ++ codes ":53")))
    × (split_host_port (open_bracket ∷ (codes "x" ++ codes ":53")) ≡ none)
normalize_resolver-unclosed_example =
    normalize_resolver-unclosed no_ip (codes "x") (omega arith, tt) (omega arith, tt)
