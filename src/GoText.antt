-- ===== src/GoText.antt =====
-- The functions of Go's packages strings and strconv that the program calls, over bytes.
-- A Go string is its bytes. The proofs are in the children.
pub mod Split
pub mod Affix
use Prim.Native.Char.{code}
use Prim.Native.String.{String}
use ts_domain_gateway.Common.{
  ℕ, zero, suc, ◌+◌, ◌-◌, ◌*◌, ◌≡◌, Bool, true, false, ◌&&◌, ◌||◌, List, [], ◌∷◌, ◌++◌, map, Option,
  none, some, length, drop, take, all, ltb, leb, ◌==◌, nat_eq, list_eq, if◌then◌else◌,
}

abbrev pub Bytes : Type 0
Bytes = List ℕ

-- The bytes of an ASCII literal.
abbrev pub codes : String → Bytes
codes String.[] = []
codes (String.◌∷◌ c s) = code c ∷ codes s

abbrev pub dot : ℕ
dot = b'.'

abbrev pub colon : ℕ
colon = b':'

-- strings.HasPrefix
unfoldable pub has_prefix : Bytes → Bytes → Bool
has_prefix s [] = true
has_prefix [] (x ∷ p) = false
has_prefix (c ∷ s) (x ∷ p) = c == x && has_prefix s p

-- strings.HasSuffix: `len(s) >= len(suffix) && s[len(s)-len(suffix):] == suffix`
unfoldable pub has_suffix : Bytes → Bytes → Bool
has_suffix s t = leb (length t) (length s) && drop (length s - length t) s == t

-- strings.TrimSuffix
unfoldable pub trim_suffix : Bytes → Bytes → Bytes
unfolding has_suffix
trim_suffix s t = if has_suffix s t then take (length s - length t) s else s

-- strings.Contains and strings.Count at a separator of one byte
unfoldable pub contains : Bytes → ℕ → Bool
contains [] b = false
contains (c ∷ s) b = c == b || contains s b

unfoldable pub count : Bytes → ℕ → ℕ
count [] b = 0
count (c ∷ s) b = if c == b then suc (count s b) else count s b

abbrev pub cons_head : ℕ → List Bytes → List Bytes
cons_head c [] = (c ∷ []) ∷ []
cons_head c (w ∷ ws) = (c ∷ w) ∷ ws

-- strings.Split at a separator of one byte: always at least one part.
unfoldable pub split : Bytes → ℕ → List Bytes
split [] sep = [] ∷ []
split (c ∷ s) sep = if c == sep then [] ∷ split s sep else cons_head c (split s sep)

split_behind : ℕ → Bytes → Bytes → List Bytes
unfolding has_prefix
split_behind skip [] sep = [] ∷ []
split_behind (suc skip) (c ∷ s) sep = split_behind skip s sep
split_behind zero (c ∷ s) sep = elim (has_prefix (c ∷ s) sep) [
  | true ↦ [] ∷ split_behind (length sep - 1) s sep
  | false ↦ cons_head c (split_behind 0 s sep)
]

-- strings.Split at a separator of one byte or more: the count is what is left of a separator.
unfoldable pub split_text : Bytes → Bytes → List Bytes
unfolding split_behind
split_text s sep = split_behind 0 s sep

-- strings.Join
unfoldable pub join : List Bytes → Bytes → Bytes
join [] sep = []
join (w ∷ []) sep = w
join (w ∷ v ∷ ws) sep = w ++ (sep ++ join (v ∷ ws) sep)

-- strings.Cut at a separator of one byte: the text before the first one and behind it
unfoldable pub cut : Bytes → ℕ → Option (Bytes × Bytes)
cut [] sep = none
cut (c ∷ s) sep =
    if c == sep
    then some ([], s)
    else elim (cut s sep) [ none ↦ none | some (before, after) ↦ some (c ∷ before, after) ]

abbrev pub lower_byte : ℕ → ℕ
lower_byte c = if leb b'A' c && leb c b'Z' then c + 32 else c

unfoldable pub is_ascii : Bytes → Bool
is_ascii [] = true
is_ascii (c ∷ s) = ltb c 128 && is_ascii s

-- strings.ToLower works byte by byte on ASCII text. On other text it maps the code points by
-- Unicode's tables, which are the parameter `wide`.
unfoldable pub to_lower : (Bytes → Bytes) → Bytes → Bytes
unfolding is_ascii
to_lower wide s = if is_ascii s then map lower_byte s else wide s

abbrev pub is_digit : ℕ → Bool
is_digit c = leb b'0' c && leb c b'9'

-- The number that decimal digits spell behind `n`, with no bound.
abbrev pub value : ℕ → Bytes → ℕ
value n [] = n
value n (c ∷ s) = value (n * 10 + (c - b'0')) s
