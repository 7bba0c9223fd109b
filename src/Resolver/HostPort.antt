-- ===== src/Resolver/HostPort.antt =====
-- net.SplitHostPort against net.JoinHostPort.
use ts_domain_gateway.Common.{
  ℕ, ◌≡◌, ◌≢◌, inl, inr, sym, ap, false, [], ◌∷◌, ◌++◌, some, ◌==◌, nat_eq, >>=-eq-some, arith,
  All-append, Bool-cases,
}
use ts_domain_gateway.GoText.{Bytes, colon, contains, cut}
use ts_domain_gateway.GoText.Split.{Lacks, contains-false-Lacks, Lacks-contains-false}
use ts_domain_gateway.GoText.Affix.{cut_sound, cut_complete}
use ts_domain_gateway.Resolver.{
  open_bracket, close_bracket, plain_host_port, behind_bracket, split_host_port, join_host_port,
}

-- A host and a port that an address can spell.
pub record IsHostPort (host port : Bytes) : Type 0 where
  pub host_open : Lacks open_bracket host
  pub host_close : Lacks close_bracket host
  pub port_open : Lacks open_bracket port
  pub port_close : Lacks close_bracket port
  pub port_colon : Lacks colon port

Lacks-append : (b : ℕ) (s t : Bytes) → Lacks b (s ++ t) → Lacks b s × Lacks b t
Lacks-append b [] t h = (tt, h)
Lacks-append b (c ∷ s) t h = let ih = Lacks-append b s t h.1 in ((h.0, ih.0), ih.1)

free : (b : ℕ) (s t : Bytes) → Lacks b s → Lacks b t → contains (s ++ t) b ≡ false
free b s t hs ht = Lacks-contains-false (s ++ t) b (All-append (λ c. c ≢ b) s t hs ht)

plain_sound :
    (s : Bytes) {host port : Bytes}
    → plain_host_port s ≡ some (host, port)
    → IsHostPort host port × (s ≡ host ++ colon ∷ port)
unfolding plain_host_port
plain_sound s {host} {port} h =
    let ((a, p), e, rest) = >>=-eq-some (cut s colon) _ h in
    let (spelled, host_colon) = cut_sound s colon e in
    let open_free : contains s open_bracket ≡ false = ground arith in
    let close_free : contains s close_bracket ≡ false = ground arith in
    let opens =
      Lacks-append open_bracket a (colon ∷ p)
        (rw spelled at (contains-false-Lacks s open_bracket open_free)) in
    let closes =
      Lacks-append close_bracket a (colon ∷ p)
        (rw spelled at (contains-false-Lacks s close_bracket close_free)) in
    let colons = contains-false-Lacks p colon (ground arith) in
    let same : ◌≡◌ {A = Bytes × Bytes} (a, p) (host, port) = ground arith in
    (
      record {
        host_open = rw (ap (λ t. t.0) (sym same)) opens.0;
        host_close = rw (ap (λ t. t.0) (sym same)) closes.0;
        port_open = rw (ap (λ t. t.1) (sym same)) opens.1.1;
        port_close = rw (ap (λ t. t.1) (sym same)) closes.1.1;
        port_colon = rw (ap (λ t. t.1) (sym same)) colons;
      },
      ground arith,
    )

plain_complete :
    (host port : Bytes)
    → IsHostPort host port
    → Lacks colon host
    → plain_host_port (host ++ colon ∷ port) ≡ some (host, port)
unfolding plain_host_port
plain_complete host port h host_colon = rw (
  cut_complete host port colon host_colon,
  Lacks-contains-false port colon h.port_colon,
  free open_bracket host (colon ∷ port) h.host_open ((omega arith), h.port_open),
  free close_bracket host (colon ∷ port) h.host_close ((omega arith), h.port_close),
)

split_plain :
    (host port : Bytes)
    → IsHostPort host port
    → Lacks colon host
    → split_host_port (host ++ colon ∷ port) ≡ some (host, port)
unfolding split_host_port
split_plain [] port h colons = plain_complete [] port h colons
split_plain (c ∷ host) port h colons = ground (arith, plain_complete (c ∷ host) port h colons)

split_bracketed :
    (host port : Bytes)
    → IsHostPort host port
    → split_host_port (open_bracket ∷ (host ++ close_bracket ∷ colon ∷ port)) ≡ some (host, port)
unfolding split_host_port
split_bracketed host port h = rw (
  cut_complete host (colon ∷ port) close_bracket h.host_close,
  Lacks-contains-false port colon h.port_colon,
  free open_bracket host (close_bracket ∷ colon ∷ port) h.host_open
      (omega arith, (omega arith, h.port_open)),
  Lacks-contains-false (colon ∷ port) close_bracket (omega arith, h.port_close),
)

-- Joining and splitting give the host and the port back.
pub split-join_host_port :
    (host port : Bytes)
    → IsHostPort host port
    → split_host_port (join_host_port host port) ≡ some (host, port)
unfolding join_host_port
split-join_host_port host port h = elim (Bool-cases (contains host colon)) [
  | inl six ↦ rw six (split_bracketed host port h)
  | inr four ↦ rw four (split_plain host port h (contains-false-Lacks host colon four))
]

bracketed_sound :
    (s h after : Bytes) {host port : Bytes}
    → s ≡ h ++ close_bracket ∷ after
    → Lacks close_bracket h
    → behind_bracket s h after ≡ some (host, port)
    → IsHostPort host port
unfolding behind_bracket
bracketed_sound s h [] spelled close e = ground arith
bracketed_sound s h (c ∷ p) {host} {port} spelled close e =
    let same : ◌≡◌ {A = Bytes × Bytes} (h, p) (host, port) = ground arith in
    let opens =
      Lacks-append open_bracket h (close_bracket ∷ c ∷ p)
        (rw spelled at (contains-false-Lacks s open_bracket (ground arith))) in
    let closes = contains-false-Lacks (c ∷ p) close_bracket (ground arith) in
    let colons = contains-false-Lacks p colon (ground arith) in
    record {
      host_open = rw (ap (λ t. t.0) (sym same)) opens.0;
      host_close = rw (ap (λ t. t.0) (sym same)) close;
      port_open = rw (ap (λ t. t.1) (sym same)) opens.1.1.1;
      port_close = rw (ap (λ t. t.1) (sym same)) closes.1;
      port_colon = rw (ap (λ t. t.1) (sym same)) colons;
    }

-- What a split finds can be spelled again.
pub split_sound :
    (s : Bytes) {host port : Bytes} → split_host_port s ≡ some (host, port) → IsHostPort host port
unfolding split_host_port
split_sound [] h = ground arith
split_sound (c ∷ s) {host} {port} h = elim (Bool-cases (c == open_bracket)) [
  | inl bracket ↦
      let ((a, after), e, rest) =
        >>=-eq-some (cut s close_bracket) (λ parts. behind_bracket s parts.0 parts.1)
          (ground (arith, bracket, h)) in
      let (spelled, close) = cut_sound s close_bracket e in
      bracketed_sound s a after spelled close rest
  | inr bare ↦ (plain_sound (c ∷ s) (ground (arith, bare, h))).0
]
