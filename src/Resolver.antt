-- ===== src/Resolver.antt =====
-- Resolver endpoints: normalizeResolver of internal/domain/domain.go, IsSystemResolver of
-- internal/domain/upstream.go, and the functions of Go's package net that they call.
-- net.ParseIP is a parameter, as the test whether it succeeds.
pub mod HostPort
pub mod Laws
mod Examples
use ts_domain_gateway.Common.{
  ℕ, ◌+◌, ◌-◌, ◌*◌, Bool, true, false, not, ◌&&◌, ◌||◌, List, [], ◌∷◌, ◌++◌, Option, none, some,
  length, ltb, leb, ◌==◌, nat_eq, if◌then◌else◌, ◌>>=◌,
}
use ts_domain_gateway.GoText.{Bytes, codes, colon, contains, cut, lower_byte, is_digit}

abbrev pub open_bracket : ℕ
open_bracket = b'['

abbrev pub close_bracket : ℕ
close_bracket = b']'

-- net.SplitHostPort; no caller looks at which error it returns, so an error is `none`.
plain_host_port : Bytes → Option (Bytes × Bytes)
plain_host_port s = do
  (host, port) ← cut s colon
  if contains port colon || contains s open_bracket || contains s close_bracket
      then none
      else some (host, port)

behind_bracket : Bytes → Bytes → Bytes → Option (Bytes × Bytes)
behind_bracket s host [] = none
behind_bracket s host (c ∷ port) =
    if c == colon
      && not (contains port colon || contains s open_bracket || contains (c ∷ port) close_bracket)
    then some (host, port)
    else none

unfoldable pub split_host_port : Bytes → Option (Bytes × Bytes)
unfolding plain_host_port behind_bracket
split_host_port [] = none
split_host_port (c ∷ s) =
    if c == open_bracket
    then (cut s close_bracket >>= λ parts. behind_bracket s parts.0 parts.1)
    else plain_host_port (c ∷ s)

-- net.JoinHostPort
unfoldable pub join_host_port : Bytes → Bytes → Bytes
join_host_port host port =
    if contains host colon
    then open_bracket ∷ (host ++ close_bracket ∷ colon ∷ port)
    else host ++ colon ∷ port

-- strconv.ParseUint(s, 10, 16)
digits_u16 : ℕ → Bytes → Option ℕ
digits_u16 n [] = some n
digits_u16 n (c ∷ s) =
    let m = n * 10 + (c - b'0') in
    if is_digit c then (if ltb 65535 m then none else digits_u16 m s) else none

unfoldable pub parse_u16 : Bytes → Option ℕ
unfolding digits_u16
parse_u16 [] = none
parse_u16 (c ∷ s) = digits_u16 0 (c ∷ s)

-- strings.EqualFold against a lower-case ASCII word without `k`: besides the letter in either
-- case, `s` is matched by U+017F, the bytes 0xC5 0xBF.
fold_head : ℕ → Bytes → Option Bytes
fold_head x [] = none
fold_head x (c ∷ []) = if lower_byte c == x then some [] else none
fold_head x (c ∷ d ∷ s) =
    if lower_byte c == x
    then some (d ∷ s)
    else if x == b's' && c == 0xC5 && d == 0xBF
    then some s
    else none

equal_fold : Bytes → Bytes → Bool
unfolding fold_head
equal_fold [] [] = true
equal_fold (c ∷ s) [] = false
equal_fold s (x ∷ word) = elim (fold_head x s) [ none ↦ false | some rest ↦ equal_fold rest word ]

unfoldable pub is_system_resolver : Bytes → Bool
unfolding equal_fold
is_system_resolver resolver = equal_fold resolver (codes "system")

-- The part behind `SplitHostPort`, on its success.
unfoldable pub checked_endpoint : Bytes → Bytes → Option Bytes
checked_endpoint host port =
    if length host == 0
    then none
    else (parse_u16 port >>= λ n. if n == 0 then none else some (join_host_port host port))

unfoldable pub normalize_resolver : (Bytes → Bool) → Bytes → Option Bytes
normalize_resolver parse_ip resolver =
    if is_system_resolver resolver then some resolver else elim (split_host_port resolver) [
      | none ↦
          if contains resolver colon && not (parse_ip resolver)
          then none
          else some (join_host_port resolver (codes "53"))
      | some (host, port) ↦ checked_endpoint host port
    ]
