-- ===== src/Name.antt =====
-- Domain names and patterns: validName, NormalName and match of internal/domain/domain.go.
-- The source ranges over the code points of a label. It accepts ASCII only, so going over the
-- bytes answers the same.
pub mod Valid
pub mod Match
pub mod Normal
mod Examples
use ts_domain_gateway.Common.{
  ℕ, ◌+◌, ◌-◌, Bool, true, false, not, ◌&&◌, ◌||◌, length, drop, get_or, all, ltb, leb, ◌==◌,
  nat_eq, list_eq, if◌then◌else◌, List, [], ◌∷◌, ◌++◌,
}
use ts_domain_gateway.GoText.{
  Bytes, codes, dot, has_prefix, has_suffix, trim_suffix, contains, count, split, to_lower,
}

abbrev pub hyphen : ℕ
hyphen = b'-'

unfoldable pub valid_byte : ℕ → Bool
valid_byte c = (leb b'a' c && leb c b'z') || (leb b'0' c && leb c b'9') || c == hyphen

-- One round of the loop over the labels.
unfoldable pub valid_label : Bytes → Bool
unfolding valid_byte
valid_label label =
    not (
      length label == 0
      || ltb 63 (length label)
      || get_or label 0 0 == hyphen
      || get_or label (length label - 1) 0 == hyphen)
    && all valid_byte label

unfoldable pub valid_name : Bytes → Bool
unfolding valid_label
valid_name name =
    not (length name == 0 || ltb 253 (length name) || not (contains name dot))
    && all valid_label (split name dot)

-- `wide` stands for Unicode's lower case of text that is not ASCII.
unfoldable pub normal_name : (Bytes → Bytes) → Bytes → Bytes × Bool
unfolding to_lower trim_suffix
normal_name wide name =
    let lowered = to_lower wide (trim_suffix name (dot ∷ [])) in (lowered, valid_name lowered)

abbrev pub star_dot : Bytes
star_dot = codes "*."

abbrev pub stars_dot : Bytes
stars_dot = codes "**."

unfoldable pub match : Bytes → Bytes → Bool
unfolding has_prefix has_suffix count
match pattern name =
    if has_prefix pattern stars_dot
    then has_suffix name (dot ∷ drop 3 pattern)
    else if has_prefix pattern star_dot
    then has_suffix name (dot ∷ drop 2 pattern) && count name dot == count (drop 2 pattern) dot + 1
    else pattern == name
