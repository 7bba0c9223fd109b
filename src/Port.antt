-- ===== src/Port.antt =====
-- Port lists of a resource: allowedPort and validPorts of internal/domain/domain.go.
-- The code points that the loops go over are bytes here: a digit is one byte, and both refuse
-- any other.
pub mod Laws
mod Examples
use ts_domain_gateway.Common.{
  ℕ, zero, suc, ◌+◌, ◌-◌, ◌*◌, ◌%◌, ◌^◌, Bool, true, false, not, ◌&&◌, ◌||◌, List, [], ◌∷◌, ◌++◌,
  length, drop, ltb, leb, ◌==◌, nat_eq, list_eq, if◌then◌else◌,
}
use ts_domain_gateway.GoText.{Bytes, codes, colon, has_prefix, split, is_digit}

-- The inner loop of allowedPort, in uint64: a byte that is no digit leaves 0.
port_number : ℕ → Bytes → ℕ
port_number n [] = n
port_number n (c ∷ s) = if is_digit c then port_number ((n * 10 + (c - b'0')) % 2 ^ 64) s else 0

entry_allows : Bytes → Bytes → ℕ → Bool
unfolding port_number has_prefix
entry_allows p expected port =
    has_prefix p expected && port_number 0 (drop (length expected) p) == port

any_allows : List Bytes → Bytes → ℕ → Bool
any_allows [] expected port = false
any_allows (p ∷ ports) expected port =
    if entry_allows p expected port then true else any_allows ports expected port

unfoldable pub allowed_port : List Bytes → Bytes → ℕ → Bool
unfolding any_allows entry_allows
allowed_port ports proto port =
    if length ports == 0 then true else any_allows ports (proto ++ colon ∷ []) port

-- The inner loop of validPorts and the test behind it.
unfoldable pub valid_number : ℕ → Bytes → Bool
valid_number n [] = not (n == 0)
valid_number n (c ∷ s) =
    let m = n * 10 + (c - b'0') in
    if is_digit c then (if ltb 65535 m then false else valid_number m s) else false

unfoldable pub valid_parts : List Bytes → Bool
unfolding valid_number
valid_parts (proto ∷ number ∷ []) =
    (proto == codes "tcp" || proto == codes "udp")
    && not (length number == 0)
    && valid_number 0 number
valid_parts _ = false

unfoldable pub valid_ports : List Bytes → Bool
unfolding split valid_parts
valid_ports [] = true
valid_ports (p ∷ ports) = if valid_parts (split p colon) then valid_ports ports else false
