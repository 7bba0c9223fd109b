-- ===== src/Service/Accept.antt =====
-- ServeTCP of internal/domain/gateway.go: the connections that are given to a goroutine of `proxy`.
use ts_domain_gateway.Common.{
  Bool, true, false, List, [], ◌∷◌, ◌++◌, Option, none, some, ◌≡◌, refl, ap, map,
}

-- The accept loop: each item is what a call of Accept gives, a connection or an error. The result is
-- the connections that were accepted, and whether the loop has returned.
abbrev accept_loop : {C : Type 0} → List (Option C) → List C × Bool
accept_loop [] = ([], false)
accept_loop (none ∷ rest) = ([], true)
accept_loop (some c ∷ rest) = let (accepted, ended) = accept_loop rest in (c ∷ accepted, ended)

-- ServeTCP; `listens` is whether the address can be listened at.
abbrev serve_tcp : {C : Type 0} → Bool → List (Option C) → List C × Bool
serve_tcp false results = ([], true)
serve_tcp true results = accept_loop results

-- The first error of Accept ends the server, and every connection before it has its goroutine, in the
-- order in which they came.
serve_tcp-accepted :
    {C : Type 0} (connections : List C) (rest : List (Option C))
    → serve_tcp true (map some connections ++ none ∷ rest) ≡ (connections, true)
serve_tcp-accepted [] rest = refl
serve_tcp-accepted (c ∷ connections) rest =
    ap (λ r. (c ∷ r.0, r.1)) (serve_tcp-accepted connections rest)
