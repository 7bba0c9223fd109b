-- ===== src/Name/Examples.antt =====
-- Patterns and names.
use ts_domain_gateway.Common.{◌≡◌, ◌↔◌, refl, true}
use ts_domain_gateway.GoText.{
  Bytes, codes, split, count, contains, is_ascii, to_lower, trim_suffix, has_suffix,
}
use ts_domain_gateway.Name.{match, valid_name, normal_name, valid_label, valid_byte}
use ts_domain_gateway.Name.Match.{Matches, match_iff}
use ts_domain_gateway.Name.Valid.{IsHostName, valid_name_iff}

-- A lower case of other texts that changes nothing.
abbrev keep : Bytes → Bytes
keep s = s

match_iff_example :
    (match (codes "*.corp") (codes "a.corp") ≡ true) ↔ Matches (codes "*.corp") (codes "a.corp")
match_iff_example = match_iff (codes "*.corp") (codes "a.corp")

valid_name_iff_example : (valid_name (codes "a.corp") ≡ true) ↔ IsHostName (codes "a.corp")
valid_name_iff_example = valid_name_iff (codes "a.corp")

valid_name_run : valid_name (codes "a.corp") ≡ true
unfolding valid_name valid_label valid_byte split count contains
valid_name_run = refl

normal_name_run : normal_name keep (codes "A.Corp.") ≡ (codes "a.corp", true)
unfolding normal_name valid_name valid_label valid_byte split count contains is_ascii to_lower
    trim_suffix has_suffix
normal_name_run = refl
