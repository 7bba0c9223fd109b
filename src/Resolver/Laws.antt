-- ===== src/Resolver/Laws.antt =====
-- What `normalize_resolver` accepts and returns.
use ts_domain_gateway.Common.{
  ℕ, ◌+◌, ◌-◌, ◌*◌, ◌≤◌, ◌≡◌, ◌∙◌, ◌≢◌, ◌⊎◌, inl, inr, refl, sym, ap, Bool, true, false, [], ◌∷◌,
  ◌++◌, none, some, length, nat_eq, arith, All, All-append, Bool-cases, Option-cases,
}
use ts_domain_gateway.GoText.{Bytes, codes, colon, contains, value}
use ts_domain_gateway.GoText.Split.{Lacks, Lacks-contains-false}
use ts_domain_gateway.GoText.Affix.{cut-none}
use ts_domain_gateway.Port.Laws.{IsDigit, le-value}
use ts_domain_gateway.Resolver.{
  open_bracket, close_bracket, split_host_port, join_host_port, digits_u16, parse_u16,
  checked_endpoint, equal_fold, fold_head, is_system_resolver, normalize_resolver,
}
use ts_domain_gateway.Resolver.HostPort.{IsHostPort, split-join_host_port, split_sound}

-- An endpoint as `host:port`, with brackets where the host holds a colon.
pub record IsEndpoint (out : Bytes) : Type 0 where
  pub host : Bytes
  pub port : Bytes
  pub spelled : out ≡ join_host_port host port
  pub spellable : IsHostPort host port
  pub named : 1 ≤ length host
  pub numeral : All IsDigit port
  pub positive : 1 ≤ value 0 port
  pub fits : value 0 port ≤ 65535

digits_u16_sound :
    (s : Bytes) (n r : ℕ)
    → n ≤ 65535
    → digits_u16 n s ≡ some r
    → All IsDigit s × (r ≡ value n s) × (r ≤ 65535)
unfolding digits_u16
digits_u16_sound [] n r h e = ground arith
digits_u16_sound (c ∷ s) n r h e = ground (arith, digits_u16_sound s (n * 10 + (c - b'0')) r)

digits_u16_complete :
    (s : Bytes) (n : ℕ) → All IsDigit s → value n s ≤ 65535 → digits_u16 n s ≡ some (value n s)
unfolding digits_u16
digits_u16_complete [] n h fits = refl
digits_u16_complete (c ∷ s) n h fits =
    let m = n * 10 + (c - b'0') in ground (arith, digits_u16_complete s m h.1 fits, le-value s m)

pub parse_u16_sound :
    (s : Bytes) {r : ℕ} → parse_u16 s ≡ some r → All IsDigit s × (r ≡ value 0 s) × (r ≤ 65535)
unfolding parse_u16
parse_u16_sound [] h = ground arith
parse_u16_sound (c ∷ s) {r} h = digits_u16_sound (c ∷ s) 0 r (omega arith) h

parse_u16_complete :
    (s : Bytes) → All IsDigit s → 1 ≤ value 0 s → value 0 s ≤ 65535 → parse_u16 s ≡ some (value 0 s)
unfolding parse_u16
parse_u16_complete [] h pos fits = absurd (omega arith)
parse_u16_complete (c ∷ s) h pos fits = digits_u16_complete (c ∷ s) 0 h fits

checked_sound :
    (host port : Bytes) {out : Bytes}
    → IsHostPort host port
    → checked_endpoint host port ≡ some out
    → IsEndpoint out
unfolding checked_endpoint
checked_sound host port {out} spellable h = elim (Option-cases (parse_u16 port)) [
  | inl e ↦ ground (arith, e, h)
  | inr (n, e) ↦
      let facts = parse_u16_sound port e in
      record {
        host = host;
        port = port;
        spelled = ground (arith, e, h);
        spellable = spellable;
        named = ground (arith, h);
        numeral = facts.0;
        positive = ground (arith, e, h, facts);
        fits = omega (arith, facts.1, facts.2);
      }
]

checked_complete :
    (host port : Bytes)
    → 1 ≤ length host
    → All IsDigit port
    → 1 ≤ value 0 port
    → value 0 port ≤ 65535
    → checked_endpoint host port ≡ some (join_host_port host port)
unfolding checked_endpoint
checked_complete host port named numeral positive fits =
    rw (parse_u16_complete port numeral positive fits) (ground arith)

fold_head-colon :
    (x : ℕ) (s : Bytes) {rest : Bytes}
    → fold_head x s ≡ some rest
    → x ≢ colon
    → Lacks colon rest
    → Lacks colon s
unfolding fold_head
fold_head-colon x [] e h l = tt
fold_head-colon x (c ∷ []) e h l = ground arith
fold_head-colon x (c ∷ d ∷ s) e h l = ground arith

equal_fold-Lacks : (s word : Bytes) → Lacks colon word → equal_fold s word ≡ true → Lacks colon s
unfolding equal_fold
equal_fold-Lacks [] [] l h = tt
equal_fold-Lacks (c ∷ s) [] l h = ground arith
equal_fold-Lacks s (x ∷ word) l h = elim (Option-cases (fold_head x s)) [
  | inl e ↦ ground (arith, e, h)
  | inr (rest, e) ↦
      fold_head-colon x s e l.0 (equal_fold-Lacks rest word l.1 (ground (arith, e, h)))
]

-- The sentinel `system` is no endpoint: it holds no colon.
system-Lacks : (s : Bytes) → is_system_resolver s ≡ true → Lacks colon s
unfolding is_system_resolver
system-Lacks s h = equal_fold-Lacks s (codes "system") (omega arith) h

not-Lacks : (b : ℕ) (s t : Bytes) → ¬ Lacks b (s ++ b ∷ t)
not-Lacks b [] t h = h.0 refl
not-Lacks b (c ∷ s) t h = not-Lacks b s t h.1

join-not_Lacks : (host port : Bytes) → ¬ Lacks colon (join_host_port host port)
unfolding join_host_port
join-not_Lacks host port = elim (Bool-cases (contains host colon)) [
  | inl six ↦ rw six λ h. not-Lacks colon host port (Lacks-skip host port h.1)
  | inr four ↦ rw four (not-Lacks colon host port)
]
  where
    Lacks-skip :
        (host port : Bytes)
        → Lacks colon (host ++ close_bracket ∷ colon ∷ port)
        → Lacks colon (host ++ colon ∷ port)
    Lacks-skip [] port h = h.1
    Lacks-skip (c ∷ host) port h = (h.0, Lacks-skip host port h.1)

endpoint-not_system : (out : Bytes) → IsEndpoint out → is_system_resolver out ≡ false
endpoint-not_system out h = elim (Bool-cases (is_system_resolver out)) [
  | inl e ↦ absurd (join-not_Lacks h.host h.port (rw h.spelled at (system-Lacks out e)))
  | inr e ↦ e
]

endpoint_stable :
    (parse_ip : Bytes → Bool) (out : Bytes)
    → IsEndpoint out
    → normalize_resolver parse_ip out ≡ some out
endpoint_stable parse_ip out h =
    let system = endpoint-not_system out h in
    let split : split_host_port out ≡ some (h.host, h.port) =
      ap split_host_port h.spelled ∙ split-join_host_port h.host h.port h.spellable in
    let checked = checked_complete h.host h.port h.named h.numeral h.positive h.fits in
    unfold normalize_resolver in ground (arith, system, split, checked, h.spelled)

default_port :
    (parse_ip : Bytes → Bool) (resolver : Bytes) {out : Bytes}
    → (1 ≤ length resolver) × Lacks open_bracket resolver × Lacks close_bracket resolver
    → is_system_resolver resolver ≡ false
    → split_host_port resolver ≡ none
    → normalize_resolver parse_ip resolver ≡ some out
    → IsEndpoint out
unfolding normalize_resolver
default_port parse_ip resolver {out} bare other e h = record {
  host = resolver;
  port = codes "53";
  spelled = ground (arith, other, e, h);
  spellable = record {
    host_open = bare.1;
    host_close = bare.2;
    port_open = omega arith;
    port_close = omega arith;
    port_colon = omega arith;
  };
  named = bare.0;
  numeral = omega arith;
  positive = omega arith;
  fits = omega arith;
}

-- A text that is normalised is the sentinel `system`, left as it was, or an endpoint: a host that
-- is not empty with a port from 1 to 65535, which normalising again leaves alone. Where the text
-- splits into no host and port, it is supposed not to be empty and to hold no bracket.
pub normalize_resolver-stable :
    (parse_ip : Bytes → Bool) (resolver : Bytes) {out : Bytes}
    → (split_host_port resolver ≡ none
        → (1 ≤ length resolver) × Lacks open_bracket resolver × Lacks close_bracket resolver)
    → normalize_resolver parse_ip resolver ≡ some out
    → ((is_system_resolver out ≡ true) × (out ≡ resolver))
      ⊎ (IsEndpoint out × (normalize_resolver parse_ip out ≡ some out))
normalize_resolver-stable parse_ip resolver {out} bare h =
    elim (Bool-cases (is_system_resolver resolver)) [
      | inl system ↦
          let same : resolver ≡ out = unfold normalize_resolver in ground (arith, system, h) in
          inl (rw (← same) system, sym same)
      | inr other ↦ elim (Option-cases (split_host_port resolver)) [
        | inl e ↦
            let found = default_port parse_ip resolver (bare e) other e h in
            inr (found, endpoint_stable parse_ip out found)
        | inr ((host, port), e) ↦
            let checked : checked_endpoint host port ≡ some out =
              unfold normalize_resolver in ground (arith, other, e, h) in
            let found = checked_sound host port (split_sound resolver e) checked in
            inr (found, endpoint_stable parse_ip out found)
      ]
    ]

bracket-not_system : (s : Bytes) → is_system_resolver (open_bracket ∷ s) ≡ false
unfolding is_system_resolver
bracket-not_system [] = refl
bracket-not_system (c ∷ s) = refl

split_unclosed : (s : Bytes) → Lacks close_bracket s → split_host_port (open_bracket ∷ s) ≡ none
unfolding split_host_port
split_unclosed s h = rw (cut-none s close_bracket h)

-- A text that opens a bracket and holds no colon and no closing bracket is accepted, with the
-- default port behind it; what it becomes is no host and port.
pub normalize_resolver-unclosed :
    (parse_ip : Bytes → Bool) (s : Bytes)
    → Lacks colon s
    → Lacks close_bracket s
    → (normalize_resolver parse_ip (open_bracket ∷ s) ≡ some (open_bracket ∷ (s ++ codes ":53")))
      × (split_host_port (open_bracket ∷ (s ++ codes ":53")) ≡ none)
unfolding normalize_resolver
normalize_resolver-unclosed parse_ip s colons closes =
    let other = bracket-not_system s in
    let free_colon = Lacks-contains-false (open_bracket ∷ s) colon (omega arith, colons) in
    let joined : join_host_port (open_bracket ∷ s) (codes "53")
        ≡ open_bracket ∷ (s ++ codes ":53") =
      unfold join_host_port in rw free_colon in
    (
      ground (arith, other, free_colon, split_unclosed s closes, joined),
      split_unclosed (s ++ codes ":53")
          (All-append (λ c. c ≢ close_bracket) s (codes ":53") closes (omega arith)),
    )
