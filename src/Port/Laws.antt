-- ===== src/Port/Laws.antt =====
-- What the port lists mean.
use ts_domain_gateway.Common.{
  ℕ, ◌+◌, ◌-◌, ◌*◌, ◌≤◌, ◌≡◌, ◌∙◌, ◌↔◌, ◌⊎◌, inl, inr, refl, sym, ap, true, List, [], ◌∷◌, ◌++◌,
  length, drop, nat_eq, list_eq, arith, All, Any, eq_iff, Bool-cases, append_assoc, drop-append,
}
use ts_domain_gateway.GoText.{Bytes, codes, colon, has_prefix, split, join, value}
use ts_domain_gateway.GoText.Split.{Lacks, split-append_sep, split-Lacks_self, join-split}
use ts_domain_gateway.GoText.Affix.{has_prefix-append, has_prefix-split}
use ts_domain_gateway.Port.{
  port_number, entry_allows, any_allows, allowed_port, valid_number, valid_parts, valid_ports,
}

abbrev pub IsDigit : ℕ → Type 0
IsDigit c = (b'0' ≤ c) × (c ≤ b'9')

abbrev pub IsProtocol : Bytes → Type 0
IsProtocol proto = (proto ≡ codes "tcp") ⊎ (proto ≡ codes "udp")

-- `proto:digits` for a port number from 1 to 65535.
pub record IsEntry (p : Bytes) : Type 0 where
  pub proto : Bytes
  pub digits : Bytes
  pub spelled : p ≡ proto ++ colon ∷ digits
  pub known : IsProtocol proto
  pub numeral : All IsDigit digits
  pub positive : 1 ≤ value 0 digits
  pub fits : value 0 digits ≤ 65535

-- Reading on never makes a number smaller.
pub le-value : (digits : Bytes) (read : ℕ) → read ≤ value read digits
le-value [] read = omega arith
le-value (d ∷ digits) read = omega (arith, le-value digits (read * 10 + (d - b'0')))

valid_number_iff :
    (s : Bytes) (n : ℕ)
    → n ≤ 65535
    → (valid_number n s ≡ true) ↔ (All IsDigit s × (1 ≤ value n s) × (value n s ≤ 65535))
unfolding valid_number
valid_number_iff [] n h = ground arith
valid_number_iff (c ∷ s) n h =
    let m = n * 10 + (c - b'0') in ground (arith, valid_number_iff s m, le-value s m)

digits-Lacks : (s : Bytes) → All IsDigit s → Lacks colon s
digits-Lacks [] h = tt
digits-Lacks (c ∷ s) h = (omega arith, digits-Lacks s h.1)

-- Under the limit of validPorts the loop of allowedPort does not wrap around.
port_number-value :
    (s : Bytes) (n : ℕ) → All IsDigit s → value n s ≤ 65535 → port_number n s ≡ value n s
unfolding port_number
port_number-value [] n h fits = refl
port_number-value (c ∷ s) n h fits =
    let m = n * 10 + (c - b'0') in ground (arith, port_number-value s m h.1 fits, le-value s m)

protocol-Lacks : {proto : Bytes} → IsProtocol proto → Lacks colon proto
protocol-Lacks (inl e) = rw e (omega arith)
protocol-Lacks (inr e) = rw e (omega arith)

value-nonempty : (s : Bytes) → 1 ≤ value 0 s → 1 ≤ length s
value-nonempty [] h = h
value-nonempty (c ∷ s) h = omega arith

parts_sound :
    (p : Bytes) (parts : List Bytes) → split p colon ≡ parts → valid_parts parts ≡ true → IsEntry p
unfolding valid_parts join
parts_sound p [] e h = ground arith
parts_sound p (a ∷ []) e h = ground arith
parts_sound p (a ∷ b ∷ c ∷ r) e h = ground arith
parts_sound p (proto ∷ number ∷ []) e h = record {
  proto = proto;
  digits = number;
  spelled = sym (join-split p colon) ∙ rw (e, join);
  known = ground (arith, eq_iff proto (codes "tcp"), eq_iff proto (codes "udp"));
  numeral = ground (arith, valid_number_iff number 0);
  positive = ground (arith, valid_number_iff number 0);
  fits = ground (arith, valid_number_iff number 0);
}

entry_parts : (p : Bytes) (h : IsEntry p) → split p colon ≡ h.proto ∷ h.digits ∷ []
entry_parts p h = rw (
  h.spelled,
  split-append_sep h.proto h.digits colon (protocol-Lacks h.known),
  split-Lacks_self h.digits colon (digits-Lacks h.digits h.numeral),
)

parts_complete : (p : Bytes) → IsEntry p → valid_parts (split p colon) ≡ true
unfolding valid_parts
parts_complete p h = rw (entry_parts p h) (
    ground (
      arith,
      eq_iff h.proto (codes "tcp"),
      eq_iff h.proto (codes "udp"),
      valid_number_iff h.digits 0,
      value-nonempty h.digits,
      h.known,
      h.numeral,
      h.positive,
      h.fits,
    ))

-- `valid_ports` accepts exactly the lists of entries `tcp:N` and `udp:N` with N from 1 to 65535.
pub valid_ports_iff : (ports : List Bytes) → (valid_ports ports ≡ true) ↔ All IsEntry ports
unfolding valid_ports
valid_ports_iff [] = (λ _. tt, λ _. refl)
valid_ports_iff (p ∷ ports) =
    ground (arith, valid_ports_iff ports, parts_sound p (split p colon) refl, parts_complete p)

-- The entry names the protocol and the port.
abbrev pub Names : Bytes → ℕ → Bytes → Type 0
Names proto port p = (digits : Bytes) × (p ≡ proto ++ colon ∷ digits) × (value 0 digits ≡ port)

entry_allows_sound :
    (p proto : Bytes) (port : ℕ)
    → IsEntry p
    → Lacks colon proto
    → entry_allows p (proto ++ colon ∷ []) port ≡ true
    → Names proto port p
unfolding entry_allows
entry_allows_sound p proto port h lacks allowed =
    let digits = drop (length (proto ++ colon ∷ [])) p in
    let prefixed : has_prefix p (proto ++ colon ∷ []) ≡ true = ground arith in
    let spelled : p ≡ (proto ++ colon ∷ []) ++ digits =
      has_prefix-split p (proto ++ colon ∷ []) prefixed in
    let flat : p ≡ proto ++ colon ∷ digits = spelled ∙ append_assoc proto (colon ∷ []) digits in
    let parts : h.proto ∷ h.digits ∷ [] ≡ proto ∷ split digits colon =
      sym (entry_parts p h)
      ∙ ap (λ t. split t colon) flat
      ∙ split-append_sep proto digits colon lacks in
    let same_proto : h.proto ≡ proto = cc parts in
    let named : p ≡ proto ++ colon ∷ h.digits = rw (← same_proto) h.spelled in
    let same : digits ≡ h.digits =
      ap (drop (length (proto ++ colon ∷ [])))
        (named ∙ sym (append_assoc proto (colon ∷ []) h.digits))
      ∙ drop-append (proto ++ colon ∷ []) h.digits in
    let counted = port_number-value h.digits 0 h.numeral h.fits in (h.digits, named, ground arith)

entry_allows_complete :
    (p proto : Bytes) (port : ℕ)
    → IsEntry p
    → Lacks colon proto
    → Names proto port p
    → entry_allows p (proto ++ colon ∷ []) port ≡ true
unfolding entry_allows
entry_allows_complete p proto port h lacks (digits, spelled, number) =
    let long : p ≡ (proto ++ colon ∷ []) ++ digits =
      spelled ∙ sym (append_assoc proto (colon ∷ []) digits) in
    let parts : h.proto ∷ h.digits ∷ [] ≡ proto ∷ split digits colon =
      sym (entry_parts p h)
      ∙ ap (λ t. split t colon) spelled
      ∙ split-append_sep proto digits colon lacks in
    let whole : digits ≡ h.digits = sym (join-split digits colon) ∙ unfold join in cc parts in
    let counted = port_number-value h.digits 0 h.numeral h.fits in
    let prefixed = has_prefix-append (proto ++ colon ∷ []) digits in
    let rest = drop-append (proto ++ colon ∷ []) digits in
    rw (long, rest) (ground (arith, prefixed, whole, counted, number))

any_allows_iff :
    (ports : List Bytes) (proto : Bytes) (port : ℕ)
    → All IsEntry ports
    → Lacks colon proto
    → (any_allows ports (proto ++ colon ∷ []) port ≡ true) ↔ Any (Names proto port) ports
unfolding any_allows
any_allows_iff [] proto port h lacks = (λ e. cc, λ b. absurd b)
any_allows_iff (p ∷ ports) proto port h lacks =
    let rest = any_allows_iff ports proto port h.1 lacks in
    (
      λ e. elim (Bool-cases (entry_allows p (proto ++ colon ∷ []) port)) [
        | inl here ↦ inl (entry_allows_sound p proto port h.0 lacks here)
        | inr not_here ↦ inr (rest.0 (ground arith))
      ],
      elim [
        | inl here ↦ rw (entry_allows_complete p proto port h.0 lacks here)
        | inr there ↦ ground (arith, rest.1 there)
      ],
    )

-- Valid entries allow a flow exactly when there is no entry at all, or one names its protocol and
-- its port: the unchecked uint64 arithmetic of the loop never lets another port in.
pub allowed_port_iff :
    (ports : List Bytes) (proto : Bytes) (port : ℕ)
    → All IsEntry ports
    → Lacks colon proto
    → (allowed_port ports proto port ≡ true) ↔ ((ports ≡ []) ⊎ Any (Names proto port) ports)
unfolding allowed_port
allowed_port_iff [] proto port h lacks = (λ _. inl refl, λ _. refl)
allowed_port_iff (p ∷ ports) proto port h lacks =
    let each = any_allows_iff (p ∷ ports) proto port h lacks in
    (
      λ e. inr (each.0 (ground arith)),
      elim [ inl empty ↦ cc | inr entry ↦ ground (arith, each.1 entry) ],
    )
