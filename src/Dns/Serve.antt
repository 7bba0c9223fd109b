-- ===== src/Dns/Serve.antt =====
-- Serve and forward of internal/dnsudp/server.go as a machine that events drive: what the sockets do,
-- and which goroutine moves. An event that is not enabled changes nothing. The callback is a
-- function on a state; `E` is what else it reads at that moment. Its work is one step.
pub mod Bounds
pub mod Relayed
use ts_domain_gateway.Common.{
  ℕ, zero, suc, Bool, true, false, not, ◌&&◌, List, [], ◌∷◌, Option, none, some, length, take, ltb,
  ◌==◌, nat_eq, if◌then◌else◌,
}
use ts_domain_gateway.GoText.{Bytes}
use ts_domain_gateway.Net.{Addr}
use ts_domain_gateway.Dns.{Question, Decision, parse_question, respond}

-- Whether `forward` hands a request to the upstream; `reached` is whether it can be dialled and
-- written to.
abbrev pub relays : Bool → Bool → Bool
relays has_upstream reached = if not has_upstream then false else reached

-- A handler that has a request, or that has sent it upstream and waits.
pub data Job (C : Type 0) : Type 0 where
  asked : Bytes → C → Job C
  relaying : Bytes → C → Job C

-- `pending` is a packet that is read and waits for a free handler. `received`, `sent` and
-- `relayed` are the calls of ReadFrom, of WriteTo and of Write to the upstream so far.
pub record Serving (S E C : Type 0) : Type 0 where
  pub held : S
  pub reading : Bool
  pub pending : Option (Bytes × C)
  pub jobs : List (Job C)
  pub received : List (Bytes × C)
  pub sent : List (Bytes × C)
  pub relayed : List (E × Bytes × C)

-- `run i e reached`: the handler `i` calls Respond and acts on its result; `reached` is whether the
-- upstream can be dialled and written to. `reply i b`: its read from the upstream gives `b`, or an error.
pub data Event (E C : Type 0) : Type 0 where
  read : Bytes → C → Event E C
  read_error : Event E C
  start : Event E C
  run : ℕ → E → Bool → Event E C
  reply : ℕ → Option Bytes → Event E C

module _ {A : Type 0} where
  abbrev pub get_elem? : List A → ℕ → Option A
  get_elem? [] i = none
  get_elem? (x ∷ xs) zero = some x
  get_elem? (x ∷ xs) (suc i) = get_elem? xs i

  abbrev pub remove : ℕ → List A → List A
  remove i [] = []
  remove zero (x ∷ xs) = xs
  remove (suc i) (x ∷ xs) = x ∷ remove i xs

  abbrev pub replace : ℕ → A → List A → List A
  replace i y [] = []
  replace zero y (x ∷ xs) = y ∷ xs
  replace (suc i) y (x ∷ xs) = x ∷ replace i y xs

abbrev pub buffer_size : ℕ
buffer_size = 65535

abbrev pub max_jobs : ℕ
max_jobs = 256

abbrev pub is_empty : {A : Type 0} → Option A → Bool
is_empty none = true
is_empty (some _) = false

module _ {S E C : Type 0} (decide : E → Addr → Question → S → Decision × S) (source : C → Addr)
    (has_upstream : Bool) where
  -- Respond, and the state that the callback leaves.
  unfoldable pub handle : E → Bytes → C → S → (Option Bytes × Bool) × S
  unfolding respond
  handle e request client s = (
    respond (some (λ from q. (decide e from q s).0)) request (source client),
    elim (parse_question request) [ none ↦ s | some (q, _) ↦ (decide e (source client) q s).1 ],
  )

  -- What a handler does behind Respond; `forward` up to its write.
  unfoldable pub act :
      ℕ → E → Bool → Bytes → C → (Option Bytes × Bool) × S → Serving S E C → Serving S E C
  act i e reached request client ((some response, forward), held) s = record s {
    held = held;
    jobs = remove i s.jobs;
    sent = (response, client) ∷ s.sent;
  }
  act i e reached request client ((none, forward), held) s =
      if forward && relays has_upstream reached
      then record s {
        held = held;
        jobs = replace i (relaying request client) s.jobs;
        relayed = (e, request, client) ∷ s.relayed;
      }
      else record s { held = held; jobs = remove i s.jobs }

  unfoldable pub run_job : ℕ → E → Bool → Option (Job C) → Serving S E C → Serving S E C
  unfolding act handle
  run_job i e reached none s = s
  run_job i e reached (some (relaying request client)) s = s
  run_job i e reached (some (asked request client)) s =
      act i e reached request client (handle e request client s.held) s

  -- `forward` from its read on.
  unfoldable pub end_job : ℕ → Option Bytes → Option (Job C) → Serving S E C → Serving S E C
  end_job i answer none s = s
  end_job i answer (some (asked request client)) s = s
  end_job i none (some (relaying request client)) s = record s { jobs = remove i s.jobs }
  end_job i (some b) (some (relaying request client)) s = record s {
    jobs = remove i s.jobs;
    sent = (take buffer_size b, client) ∷ s.sent;
  }

  unfoldable pub start_job : Option (Bytes × C) → Serving S E C → Serving S E C
  start_job none s = s
  start_job (some (request, client)) s =
      if ltb (length s.jobs) max_jobs
      then record s { pending = none; jobs = asked request client ∷ s.jobs }
      else s

  unfoldable pub serve_step : Event E C → Serving S E C → Serving S E C
  unfolding run_job end_job start_job
  serve_step (read packet client) s =
      if s.reading && is_empty s.pending
      then record s {
        pending = some (take buffer_size packet, client);
        received = (packet, client) ∷ s.received;
      }
      else s
  serve_step read_error s =
      if s.reading && is_empty s.pending then record s { reading = false } else s
  serve_step start s = start_job s.pending s
  serve_step (run i e reached) s = run_job i e reached (get_elem? s.jobs i) s
  serve_step (reply i answer) s = end_job i answer (get_elem? s.jobs i) s

  unfoldable pub serve : List (Event E C) → Serving S E C → Serving S E C
  unfolding serve_step
  serve [] s = s
  serve (event ∷ events) s = serve events (serve_step event s)

abbrev pub idle : {S E C : Type 0} → S → Serving S E C
idle held = record {
  held = held;
  reading = true;
  pending = none;
  jobs = [];
  received = [];
  sent = [];
  relayed = [];
}
