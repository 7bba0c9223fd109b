-- ===== src/Dns/Serve/Relayed.antt =====
-- What reaches the upstream resolver.
use ts_domain_gateway.Common.{
  ℕ, ◌≡◌, Bool, true, ◌&&◌, List, [], ◌∷◌, Option, none, some, length, ltb, nat_eq, arith, All,
  Bool-cases, inl, inr,
}
use ts_domain_gateway.GoText.{Bytes}
use ts_domain_gateway.Net.{Addr}
use ts_domain_gateway.Dns.{Question, Decision}
use ts_domain_gateway.Dns.Serve.{
  Job, asked, relaying, relays, Serving, Event, read, read_error, start, run, reply, get_elem?,
  max_jobs, is_empty, handle, act, run_job, end_job, start_job, serve_step, serve,
}

-- A property of what Respond says to forward, at any state.
module _ {S E C : Type 0} (decide : E → Addr → Question → S → Decision × S) (source : C → Addr)
    (has_upstream : Bool) (P : E × Bytes × C → Type 0)
    (forwarded : (e : E) (request : Bytes) (client : C) (held : S)
      → (handle decide source has_upstream e request client held).0.1 ≡ true
      → P (e, request, client)) where
  act-All :
      (i : ℕ) (e : E) (reached : Bool) (request : Bytes) (client : C)
      (r : (Option Bytes × Bool) × S) (s : Serving S E C)
      → (r.0.1 ≡ true → P (e, request, client))
      → All P s.relayed
      → All P (act decide source has_upstream i e reached request client r s).relayed
  unfolding act
  act-All i e reached request client ((some response, forward), held) s k h = h
  act-All i e reached request client ((none, forward), held) s k h =
      elim (Bool-cases (forward && relays has_upstream reached)) [
        | inl go ↦ rw go (k (ground (arith, go)), h)
        | inr stay ↦ rw stay h
      ]

  run_job-All :
      (i : ℕ) (e : E) (reached : Bool) (o : Option (Job C)) (s : Serving S E C)
      → All P s.relayed
      → All P (run_job decide source has_upstream i e reached o s).relayed
  unfolding run_job
  run_job-All i e reached none s h = h
  run_job-All i e reached (some (relaying request client)) s h = h
  run_job-All i e reached (some (asked request client)) s h =
      act-All i e reached request client (handle decide source has_upstream e request client s.held)
        s (forwarded e request client s.held) h

  end_job-All :
      (i : ℕ) (answer : Option Bytes) (o : Option (Job C)) (s : Serving S E C)
      → All P s.relayed
      → All P (end_job decide source has_upstream i answer o s).relayed
  unfolding end_job
  end_job-All i answer none s h = h
  end_job-All i answer (some (asked request client)) s h = h
  end_job-All i none (some (relaying request client)) s h = h
  end_job-All i (some answer) (some (relaying request client)) s h = h

  start_job-All :
      (o : Option (Bytes × C)) (s : Serving S E C)
      → All P s.relayed
      → All P (start_job decide source has_upstream o s).relayed
  unfolding start_job
  start_job-All none s h = h
  start_job-All (some (request, client)) s h = elim (Bool-cases (ltb (length s.jobs) max_jobs)) [
    | inl room ↦ rw room h
    | inr full ↦ rw full h
  ]

  serve_step-All :
      (event : Event E C) (s : Serving S E C)
      → All P s.relayed
      → All P (serve_step decide source has_upstream event s).relayed
  unfolding serve_step
  serve_step-All (read packet client) s h = elim (Bool-cases (s.reading && is_empty s.pending)) [
    | inl ready ↦ rw ready h
    | inr busy ↦ rw busy h
  ]
  serve_step-All read_error s h = elim (Bool-cases (s.reading && is_empty s.pending)) [
    | inl ready ↦ rw ready h
    | inr busy ↦ rw busy h
  ]
  serve_step-All start s h = start_job-All s.pending s h
  serve_step-All (run i e reached) s h = run_job-All i e reached (get_elem? s.jobs i) s h
  serve_step-All (reply i answer) s h = end_job-All i answer (get_elem? s.jobs i) s h

  -- It holds of all that is ever relayed.
  pub serve-All :
      (events : List (Event E C)) (s : Serving S E C)
      → All P s.relayed
      → All P (serve decide source has_upstream events s).relayed
  unfolding serve
  serve-All [] s h = h
  serve-All (event ∷ events) s h =
      serve-All events (serve_step decide source has_upstream event s) (serve_step-All event s h)
