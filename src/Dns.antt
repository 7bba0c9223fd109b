-- ===== src/Dns.antt =====
-- The wire format of internal/dnsudp/server.go: parseQuestion, Respond and the answers. A packet is
-- its bytes, each below 256. A flag word is read by arithmetic in place of `|` and `&` on disjoint
-- bits.
pub mod Encode
pub mod Parse
pub mod Answer
pub mod Source
pub mod Serve
pub mod Reverse
mod Examples
use ts_domain_gateway.Common.{
  ℕ, zero, suc, ◌+◌, ◌-◌, ◌*◌, ◌/◌, ◌%◌, ◌^◌, Bool, true, false, not, ◌&&◌, ◌||◌, List, [], ◌∷◌,
  ◌++◌, Option, none, some, length, take, drop, get_or, ltb, leb, ◌==◌, nat_eq, list_beq,
  if◌then◌else◌, ◌>>=◌,
}
use ts_domain_gateway.GoText.{Bytes, codes, dot, split, join, trim_suffix, to_lower, is_digit}
use ts_domain_gateway.Net.{Addr, invalid, v4, v6}

pub record Question : Type 0 where
  pub name : Bytes
  pub type_code : ℕ

pub data Outcome : Type 0 where
  no_response address ptr passthrough unavailable : Outcome

pub record Decision : Type 0 where
  pub outcome : Outcome
  pub address : Addr
  pub ptr_name : Bytes

abbrev pub type_a : ℕ
type_a = 1

abbrev pub type_ptr : ℕ
type_ptr = 12

abbrev pub type_aaaa : ℕ
type_aaaa = 28

-- binary.BigEndian.Uint16(b[i : i+2])
abbrev pub u16_at : Bytes → ℕ → ℕ
u16_at b i = get_or b i 0 * 256 + get_or b (i + 1) 0

abbrev pub set : Bytes → ℕ → ℕ → Bytes
set [] i v = []
set (x ∷ xs) zero v = v ∷ xs
set (x ∷ xs) (suc i) v = x ∷ set xs i v

-- binary.BigEndian.PutUint16(b[i : i+2], v)
abbrev pub put_u16 : Bytes → ℕ → ℕ → Bytes
put_u16 b i v = set (set b i (v / 256 % 256)) (i + 1) (v % 256)

-- The loop of parseQuestion: the labels from `p` on and the position behind the root label. It
-- moves forward in each round, so the packet's length is fuel enough.
unfoldable pub read_labels : ℕ → Bytes → ℕ → List Bytes → Option (List Bytes × ℕ)
read_labels zero request p labels = none
read_labels (suc fuel) request p labels =
    let n = get_or request p 0 in
    let start = p + 1 in
    let rest = read_labels fuel request (start + n) (labels ++ take n (drop start request) ∷ []) in
    if leb (length request) p
    then none
    else if n == 0
    then some (labels, start)
    else if ltb 63 n || ltb (length request) (start + n)
    then none
    else rest

unfoldable pub parse_question : Bytes → Option (Question × ℕ)
parse_question request =
    if ltb (length request) 17 || not (u16_at request 4 == 1)
    then none
    else elim (read_labels (length request) request 12 []) [
      | none ↦ none
      | some (labels, p) ↦
          if ltb (length request) (p + 4)
          then none
          else some (record { name = join labels (dot ∷ []); type_code = u16_at request p }, p + 4)
    ]

-- `0x8000 | (flags & 0x0100)`: a response that copies only "recursion desired"
abbrev pub response_flags : Bytes → ℕ
response_flags request = 0x8000 + u16_at request 2 / 256 % 2 * 256

-- The four bytes that `copy` takes of ip.AsSlice().
abbrev pub addr_bytes : Addr → Bytes
addr_bytes invalid = 0 ∷ 0 ∷ 0 ∷ 0 ∷ []
addr_bytes (v4 n) = n / 2 ^ 24 % 256 ∷ n / 2 ^ 16 % 256 ∷ n / 2 ^ 8 % 256 ∷ n % 256 ∷ []
addr_bytes (v6 n) =
    n / 2 ^ 120 % 256 ∷ n / 2 ^ 112 % 256 ∷ n / 2 ^ 104 % 256 ∷ n / 2 ^ 96 % 256 ∷ []

-- What the writes from `end` on leave before the record's data: a pointer to the question's
-- name, type, class IN, TTL 600 and the data's length.
abbrev pub record_head : ℕ → ℕ → Bytes
record_head type_code size =
    0xc0
    ∷ 0x0c
    ∷ type_code / 256 % 256
    ∷ type_code % 256
    ∷ 0
    ∷ 1
    ∷ 0
    ∷ 0
    ∷ 2
    ∷ 88
    ∷ size / 256 % 256
    ∷ size % 256
    ∷ []

-- The 16 bytes behind the question are all written, so they are appended here.
unfoldable pub address_answer : Bytes → ℕ → Addr → Bytes
address_answer request end ip =
    let response = put_u16 (take end request) 2 (response_flags request) in
    elim ip [
      | invalid ↦ response
      | v4 n ↦ put_u16 response 6 1 ++ (record_head type_a 4 ++ addr_bytes (v4 n))
      | v6 n ↦ put_u16 response 6 1 ++ (record_head type_a 4 ++ addr_bytes (v6 n))
    ]

-- `flags | 2`, where the two low bits are clear
unfoldable pub server_failure : Bytes → ℕ → Bytes
unfolding address_answer
server_failure request end =
    let response = address_answer request end invalid in put_u16 response 2 (u16_at response 2 + 2)

abbrev pub encode_label : Bytes → Bytes
encode_label label = length label % 256 ∷ label

unfoldable pub encode_labels : List Bytes → Bytes
encode_labels [] = []
encode_labels (label ∷ labels) = encode_label label ++ encode_labels labels

unfoldable pub encode_name : Bytes → Bytes
encode_name name = encode_labels (split (trim_suffix name (dot ∷ [])) dot) ++ 0 ∷ []

unfoldable pub ptr_answer : Bytes → ℕ → Bytes → Bytes
ptr_answer request end name =
    let rdata = encode_name name in
    put_u16 (put_u16 (take end request) 2 (response_flags request)) 6 1
    ++ (record_head type_ptr (length rdata) ++ rdata)

-- The switch of Respond: a response, or none with the mark whether to forward.
unfoldable pub answer : Bytes → ℕ → Question → Decision → Option Bytes × Bool
answer request end question decision = elim decision.outcome [
  | address ↦
      if question.type_code == type_a
      then (some (address_answer request end decision.address), false)
      else if question.type_code == type_aaaa
      then (some (address_answer request end invalid), false)
      else (none, false)
  | ptr ↦
      if not (length decision.ptr_name == 0)
      then (some (ptr_answer request end decision.ptr_name), false)
      else (some (address_answer request end invalid), false)
  | passthrough ↦ (none, true)
  | unavailable ↦ (some (server_failure request end), false)
  | no_response ↦ (none, false)
]

-- The body of Respond behind parseQuestion; `decide` is the callback, if there is one.
unfoldable pub respond_to :
    Option (Addr → Question → Decision) → Bytes → Addr → Option (Question × ℕ) → Option Bytes × Bool
respond_to decide request source none = (none, false)
respond_to none request source (some (question, end)) = (none, false)
respond_to (some f) request source (some (question, end)) =
    answer request end question (f source question)

-- Respond, with the address that sourceIP finds.
unfoldable pub respond : Option (Addr → Question → Decision) → Bytes → Addr → Option Bytes × Bool
respond decide request source = respond_to decide request source (parse_question request)

-- The loop over one part of ReverseIPv4, in uint16.
unfoldable pub octet : ℕ → Bytes → Option ℕ
octet n [] = some n
octet n (c ∷ s) =
    let m = (n * 10 + (c - b'0')) % 2 ^ 16 in
    if is_digit c then (if ltb 255 m then none else octet m s) else none

unfoldable pub reverse_parts : List Bytes → Option Addr
reverse_parts (a ∷ b ∷ c ∷ d ∷ arpa4 ∷ arpa5 ∷ []) =
    if not (list_beq arpa4 (codes "in-addr")) || not (list_beq arpa5 (codes "arpa"))
    then none
    else do
      n3 ← octet 0 d
      n2 ← octet 0 c
      n1 ← octet 0 b
      n0 ← octet 0 a
      some (v4 (n3 * 2 ^ 24 + n2 * 2 ^ 16 + n1 * 2 ^ 8 + n0))
reverse_parts _ = none

-- ReverseIPv4
unfoldable pub reverse_ipv4 : (Bytes → Bytes) → Bytes → Option Addr
unfolding octet reverse_parts
reverse_ipv4 wide name = reverse_parts (split (trim_suffix (to_lower wide name) (dot ∷ [])) dot)
