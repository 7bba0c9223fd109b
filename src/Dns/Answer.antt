-- ===== src/Dns/Answer.antt =====
-- The header and the data of the answers.
use ts_domain_gateway.Common.{
  ℕ, zero, suc, ◌+◌, ◌/◌, ◌%◌, ◌^◌, ◌≤◌, ◌<◌, ◌≡◌, ◌∙◌, ◌≢◌, ◌⊎◌, inl, inr, refl, sym, ap, Bool,
  true, false, [], ◌∷◌, ◌++◌, Option, none, some, length, take, drop, get_or, arith, length-take,
  drop-append, if◌then◌else◌, ◌==◌, nat_eq, not,
}
use mathlib.Core.Path.{subst}
use ts_domain_gateway.GoText.{Bytes}
use ts_domain_gateway.Net.{Addr, invalid, v4, v6, addr_eq}
use ts_domain_gateway.Dns.{
  Question, Decision, Outcome, no_response, address, ptr, passthrough, unavailable, respond_to,
  u16_at, set, put_u16, response_flags, addr_bytes, record_head, type_a, type_ptr, type_aaaa,
  encode_name, ptr_answer, address_answer, server_failure, answer, parse_question, respond,
}
use ts_domain_gateway.Dns.Parse.{parse_question_bounds}

length-set : (s : Bytes) (i v : ℕ) → length (set s i v) ≡ length s
length-set [] i v = refl
length-set (x ∷ s) zero v = refl
length-set (x ∷ s) (suc i) v = ap suc (length-set s i v)

get_or-set_self : (s : Bytes) (i v : ℕ) → i < length s → get_or (set s i v) i 0 ≡ v
get_or-set_self [] i v h = absurd (omega arith)
get_or-set_self (x ∷ s) zero v h = refl
get_or-set_self (x ∷ s) (suc i) v h = get_or-set_self s i v (omega arith)

get_or-set_ne : (s : Bytes) (i j v : ℕ) → i ≢ j → get_or (set s i v) j 0 ≡ get_or s j 0
get_or-set_ne [] i j v h = refl
get_or-set_ne (x ∷ s) zero zero v h = absurd (h refl)
get_or-set_ne (x ∷ s) zero (suc j) v h = refl
get_or-set_ne (x ∷ s) (suc i) zero v h = refl
get_or-set_ne (x ∷ s) (suc i) (suc j) v h = get_or-set_ne s i j v (omega arith)

get_or-take : (s : Bytes) (n i : ℕ) → i < n → get_or (take n s) i 0 ≡ get_or s i 0
get_or-take s zero i h = absurd (omega arith)
get_or-take [] (suc n) i h = refl
get_or-take (x ∷ s) (suc n) zero h = refl
get_or-take (x ∷ s) (suc n) (suc i) h = get_or-take s n i (omega arith)

get_or-append_front : (s t : Bytes) (i : ℕ) → i < length s → get_or (s ++ t) i 0 ≡ get_or s i 0
get_or-append_front [] t i h = absurd (omega arith)
get_or-append_front (x ∷ s) t zero h = refl
get_or-append_front (x ∷ s) t (suc i) h = get_or-append_front s t i (omega arith)

length-put_u16 : (s : Bytes) (i v : ℕ) → length (put_u16 s i v) ≡ length s
length-put_u16 s i v =
    length-set (set s i (v / 256 % 256)) (i + 1) (v % 256) ∙ length-set s i (v / 256 % 256)

u16_at-put_self :
    (s : Bytes) (i v : ℕ) → i + 1 < length s → v < 2 ^ 16 → u16_at (put_u16 s i v) i ≡ v
u16_at-put_self s i v h small =
    let hi = get_or-set_ne (set s i (v / 256 % 256)) (i + 1) i (v % 256) (omega arith) in
    let hi' = get_or-set_self s i (v / 256 % 256) (omega arith) in
    let lo =
      get_or-set_self (set s i (v / 256 % 256)) (i + 1) (v % 256)
        (omega (arith, length-set s i (v / 256 % 256))) in
    omega (arith, hi, hi', lo)

u16_at-put_ne :
    (s : Bytes) (i j v : ℕ) → (i + 1 < j) ⊎ (j + 1 < i) → u16_at (put_u16 s i v) j ≡ u16_at s j
u16_at-put_ne s i j v h =
    let t = set s i (v / 256 % 256) in
    let a = get_or-set_ne t (i + 1) j (v % 256) (omega arith) in
    let b = get_or-set_ne s i j (v / 256 % 256) (omega arith) in
    let c = get_or-set_ne t (i + 1) (j + 1) (v % 256) (omega arith) in
    let d = get_or-set_ne s i (j + 1) (v / 256 % 256) (omega arith) in omega (arith, a, b, c, d)

-- A response to the packet that ends, for the parser, at `end`.
pub record IsReply (request : Bytes) (end answers : ℕ) (out : Bytes) : Type 0 where
  pub id : u16_at out 0 ≡ u16_at request 0
  pub flags : u16_at out 2 ≡ response_flags request
  pub questions : u16_at out 4 ≡ u16_at request 4
  pub answer_count : u16_at out 6 ≡ answers
  pub authorities : u16_at out 8 ≡ u16_at request 8
  pub additional : u16_at out 10 ≡ u16_at request 10

module _ (request : Bytes) (end : ℕ) (lo : 12 ≤ end) (hi : end ≤ length request) where
  u16_at-take : (j : ℕ) → j + 1 < end → u16_at (take end request) j ≡ u16_at request j
  u16_at-take j h =
      omega (arith, get_or-take request end j (omega arith), get_or-take request end (j + 1) h)

  abbrev header : Bytes
  header = put_u16 (take end request) 2 (response_flags request)

  length-header : length header ≡ end
  length-header =
      length-put_u16 (take end request) 2 (response_flags request) ∙ length-take end request hi

  header_flags : u16_at header 2 ≡ response_flags request
  header_flags =
      u16_at-put_self (take end request) 2 (response_flags request)
        (omega (arith, length-take end request hi)) (omega arith)

  header_at : (j : ℕ) → (2 + 1 < j) ⊎ (j + 1 < 2) → j + 1 < end → u16_at header j ≡ u16_at request j
  header_at j a c =
      u16_at-put_ne (take end request) 2 j (response_flags request) a ∙ u16_at-take j c

  header-IsReply : IsReply request end (u16_at request 6) header
  header-IsReply = record {
    id = header_at 0 (inr (omega arith)) (omega arith);
    flags = header_flags;
    questions = header_at 4 (inl (omega arith)) (omega arith);
    answer_count = header_at 6 (inl (omega arith)) (omega arith);
    authorities = header_at 8 (inl (omega arith)) (omega arith);
    additional = header_at 10 (inl (omega arith)) (omega arith);
  }

  -- Every field but the answer count survives a write of it.
  counted-IsReply : IsReply request end 1 (put_u16 header 6 1)
  counted-IsReply = record {
    id =
        u16_at-put_ne header 6 0 1 (inr (omega arith))
        ∙ header_at 0 (inr (omega arith)) (omega arith);
    flags = u16_at-put_ne header 6 2 1 (inr (omega arith)) ∙ header_flags;
    questions =
        u16_at-put_ne header 6 4 1 (inr (omega arith))
        ∙ header_at 4 (inl (omega arith)) (omega arith);
    answer_count = u16_at-put_self header 6 1 (omega (arith, length-header)) (omega arith);
    authorities =
        u16_at-put_ne header 6 8 1 (inl (omega arith))
        ∙ header_at 8 (inl (omega arith)) (omega arith);
    additional =
        u16_at-put_ne header 6 10 1 (inl (omega arith))
        ∙ header_at 10 (inl (omega arith)) (omega arith);
  }

  length-counted : length (put_u16 header 6 1) ≡ end
  length-counted = length-put_u16 header 6 1 ∙ length-header

  u16_at-counted :
      (tail : Bytes) (j : ℕ)
      → j + 1 < end
      → u16_at (put_u16 header 6 1 ++ tail) j ≡ u16_at (put_u16 header 6 1) j
  u16_at-counted tail j h = omega (
    arith,
    get_or-append_front (put_u16 header 6 1) tail j (omega (arith, length-counted)),
    get_or-append_front (put_u16 header 6 1) tail (j + 1) (omega (arith, length-counted)),
  )

  with_data-IsReply : (tail : Bytes) → IsReply request end 1 (put_u16 header 6 1 ++ tail)
  with_data-IsReply tail =
      let r = counted-IsReply in
      record {
        id = u16_at-counted tail 0 (omega arith) ∙ r.id;
        flags = u16_at-counted tail 2 (omega arith) ∙ r.flags;
        questions = u16_at-counted tail 4 (omega arith) ∙ r.questions;
        answer_count = u16_at-counted tail 6 (omega arith) ∙ r.answer_count;
        authorities = u16_at-counted tail 8 (omega arith) ∙ r.authorities;
        additional = u16_at-counted tail 10 (omega arith) ∙ r.additional;
      }

  -- A packet whose end is followed by one resource record with these data.
  pub record IsAnswer (type_code : ℕ) (rdata out : Bytes) : Type 0 where
    pub reply : IsReply request end 1 out
    pub tail : drop end out ≡ record_head type_code (length rdata) ++ rdata

  -- For a question that ends inside the packet, the answer for an IPv4 address keeps the id, the
  -- question count and the question, is marked as a response, counts one answer and carries one
  -- A record with the address' four bytes behind the question.
  pub address_answer-IsAnswer :
      (n : ℕ) → IsAnswer type_a (addr_bytes (v4 n)) (address_answer request end (v4 n))
  unfolding address_answer
  address_answer-IsAnswer n =
      let tail = record_head type_a 4 ++ addr_bytes (v4 n) in
      record {
        reply = with_data-IsReply tail;
        tail =
            ap (λ k. drop k (put_u16 header 6 1 ++ tail)) (sym length-counted)
            ∙ drop-append (put_u16 header 6 1) tail;
      }

  -- For a question that ends inside the packet, the answer for a name keeps the id, the question
  -- count and the question, is marked as a response, counts one answer and carries one PTR record
  -- with the encoded name and its length behind the question.
  pub ptr_answer-IsAnswer :
      (name : Bytes) → IsAnswer type_ptr (encode_name name) (ptr_answer request end name)
  unfolding ptr_answer
  ptr_answer-IsAnswer name =
      let tail = record_head type_ptr (length (encode_name name)) ++ encode_name name in
      record {
        reply = with_data-IsReply tail;
        tail =
            ap (λ k. drop k (put_u16 header 6 1 ++ tail)) (sym length-counted)
            ∙ drop-append (put_u16 header 6 1) tail;
      }

  -- For a question that ends inside the packet, the answer without an address ends with the
  -- question, and its header still has the request's counts of answers, authorities and
  -- additional records, none of which it carries.
  pub address_answer-invalid :
      IsReply request end (u16_at request 6) (address_answer request end invalid)
      × (length (address_answer request end invalid) ≡ end)
  unfolding address_answer
  address_answer-invalid = (header-IsReply, length-header)

-- What a client checks first of a response: the id and the question count of the request, and
-- the response bit.
pub record IsResponse (request out : Bytes) : Type 0 where
  pub id : u16_at out 0 ≡ u16_at request 0
  pub questions : u16_at out 4 ≡ u16_at request 4
  pub marked : 2 ^ 15 ≤ u16_at out 2

-- A response is one to the request, and is never forwarded as well.
abbrev Replies : Bytes → Option Bytes × Bool → Type 0
Replies request (none, forward) = Unit
Replies request (some out, forward) = IsResponse request out × (forward ≡ false)

Replies-if :
    (request : Bytes) (b : Bool) (x y : Option Bytes × Bool)
    → Replies request x
    → Replies request y
    → Replies request (if b then x else y)
Replies-if request true x y hx hy = hx
Replies-if request false x y hx hy = hy

module _ (request : Bytes) (end : ℕ) (lo : 12 ≤ end) (hi : end ≤ length request) where
  reply-IsResponse :
      (count : ℕ) (out : Bytes) → IsReply request end count out → IsResponse request out
  reply-IsResponse count out r = record {
    id = r.id;
    questions = r.questions;
    marked = omega (arith, r.flags);
  }

  address_answer-IsResponse : (ip : Addr) → IsResponse request (address_answer request end ip)
  unfolding address_answer
  address_answer-IsResponse invalid = reply-IsResponse _ _ (header-IsReply request end lo hi)
  address_answer-IsResponse (v4 n) = reply-IsResponse _ _ (with_data-IsReply request end lo hi _)
  address_answer-IsResponse (v6 n) = reply-IsResponse _ _ (with_data-IsReply request end lo hi _)

  server_failure-IsResponse : IsResponse request (server_failure request end)
  unfolding server_failure address_answer
  server_failure-IsResponse =
      let r = header-IsReply request end lo hi in
      let out = header request end lo hi in
      let v = u16_at out 2 + 2 in
      record {
        id = u16_at-put_ne out 2 0 v (inr (omega arith)) ∙ r.id;
        questions = u16_at-put_ne out 2 4 v (inl (omega arith)) ∙ r.questions;
        marked = omega (
          arith,
          r.flags,
          u16_at-put_self out 2 v (omega (arith, length-header request end lo hi))
              (omega (arith, r.flags)),
        );
      }

  ptr_answer-IsResponse : (name : Bytes) → IsResponse request (ptr_answer request end name)
  ptr_answer-IsResponse name =
      reply-IsResponse _ _ (ptr_answer-IsAnswer request end lo hi name).reply

  answer-Replies :
      (question : Question) (outcome : Outcome) (ip : Addr) (name : Bytes)
      → Replies request (
          answer request end question (record { outcome = outcome; address = ip; ptr_name = name }))
  unfolding answer
  answer-Replies question address ip name =
      Replies-if request (question.type_code == type_a) _ _ (address_answer-IsResponse ip, refl)
        (Replies-if request (question.type_code == type_aaaa) _ _
          (address_answer-IsResponse invalid, refl) tt)
  answer-Replies question ptr ip name =
      Replies-if request (not (length name == 0)) _ _ (ptr_answer-IsResponse name, refl)
        (address_answer-IsResponse invalid, refl)
  answer-Replies question passthrough ip name = tt
  answer-Replies question unavailable ip name = (server_failure-IsResponse, refl)
  answer-Replies question no_response ip name = tt

respond_to-Replies :
    (decide : Option (Addr → Question → Decision)) (request : Bytes) (source : Addr)
    (parsed : Option (Question × ℕ))
    → parse_question request ≡ parsed
    → Replies request (respond_to decide request source parsed)
unfolding respond_to
respond_to-Replies decide request source none e = tt
respond_to-Replies none request source (some (question, end)) e = tt
respond_to-Replies (some f) request source (some (question, end)) e =
    let (lo, hi) = parse_question_bounds request e in
    let d = f source question in
    answer-Replies request end (omega arith) hi question d.outcome d.address d.ptr_name

-- Whatever the callback decides, a packet that Respond returns is a response to the request: it
-- has the request's id and question count and the response bit, and the request is not also
-- forwarded.
pub respond-IsResponse :
    (decide : Option (Addr → Question → Decision)) (request : Bytes) (source : Addr) {out : Bytes}
    {forward : Bool}
    → respond decide request source ≡ (some out, forward)
    → IsResponse request out × (forward ≡ false)
unfolding respond
respond-IsResponse decide request source {out} {forward} h =
    subst (Replies request) h
      (respond_to-Replies decide request source (parse_question request) refl)
