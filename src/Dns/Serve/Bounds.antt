-- ===== src/Dns/Serve/Bounds.antt =====
-- How many handlers run, and how many packets a client is sent.
use ts_domain_gateway.Common.{
  ℕ, zero, suc, ◌+◌, ◌≤◌, ◌≡◌, inl, inr, refl, Bool, List, [], ◌∷◌, Option, none, some, length,
  nat_eq, if◌then◌else◌, arith, Option-cases,
}
use ts_domain_gateway.GoText.{Bytes}
use ts_domain_gateway.Net.{Addr}
use ts_domain_gateway.Dns.{Question, Decision}
use ts_domain_gateway.Dns.Serve.{
  Job, asked, relaying, Serving, Event, read, read_error, start, run, reply, get_elem?, remove,
  replace, max_jobs, handle, act, run_job, end_job, start_job, serve_step, serve, idle,
}

module _ {C : Type 0} (p : C → Bool) where
  abbrev one : C → ℕ
  one c = if p c then 1 else 0

  -- The packets in a list whose client satisfies `p`.
  abbrev pub tally : List (Bytes × C) → ℕ
  tally [] = 0
  tally ((b, c) ∷ packets) = one c + tally packets

  abbrev job_client : Job C → C
  job_client (asked request c) = c
  job_client (relaying request c) = c

  abbrev tally_jobs : List (Job C) → ℕ
  tally_jobs [] = 0
  tally_jobs (job ∷ jobs) = one (job_client job) + tally_jobs jobs

  abbrev tally_pending : Option (Bytes × C) → ℕ
  tally_pending none = 0
  tally_pending (some (b, c)) = one c

  remove_lem :
      (i : ℕ) (jobs : List (Job C)) {job : Job C}
      → get_elem? jobs i ≡ some job
      → (tally_jobs (remove i jobs) + one (job_client job) ≡ tally_jobs jobs)
        × (length (remove i jobs) + 1 ≡ length jobs)
  remove_lem i [] h = absurd (ground (arith, h))
  remove_lem zero (x ∷ jobs) h = ground (arith, h)
  remove_lem (suc i) (x ∷ jobs) h = ground (arith, remove_lem i jobs h)

  replace_lem :
      (i : ℕ) (jobs : List (Job C)) (job' : Job C) {job : Job C}
      → get_elem? jobs i ≡ some job
      → (tally_jobs (replace i job' jobs) + one (job_client job)
          ≡ tally_jobs jobs + one (job_client job'))
        × (length (replace i job' jobs) ≡ length jobs)
  replace_lem i [] job' h = absurd (ground (arith, h))
  replace_lem zero (x ∷ jobs) job' h = ground (arith, h)
  replace_lem (suc i) (x ∷ jobs) job' h = ground (arith, replace_lem i jobs job' h)

  pub record IsBounded {S E : Type 0} (s : Serving S E C) : Type 0 where
    pub few : length s.jobs ≤ max_jobs
    pub answered : tally s.sent + tally_jobs s.jobs + tally_pending s.pending ≤ tally s.received

module _ {S E C : Type 0} (decide : E → Addr → Question → S → Decision × S) (source : C → Addr)
    (has_upstream : Bool) (p : C → Bool) where
  act-IsBounded :
      (i : ℕ) (e : E) (reached : Bool) (request : Bytes) (client : C)
      (r : (Option Bytes × Bool) × S) (s : Serving S E C)
      → get_elem? s.jobs i ≡ some (asked request client)
      → IsBounded p s
      → IsBounded p (act decide source has_upstream i e reached request client r s)
  unfolding act
  act-IsBounded i e reached request client ((some response, forward), held) s g b =
      ground (arith, b.few, b.answered, remove_lem p i s.jobs g)
  act-IsBounded i e reached request client ((none, forward), held) s g b = ground (
    arith,
    b.few,
    b.answered,
    remove_lem p i s.jobs g,
    replace_lem p i s.jobs (relaying request client) g,
  )

  run_job-IsBounded :
      (i : ℕ) (e : E) (reached : Bool) (o : Option (Job C)) (s : Serving S E C)
      → get_elem? s.jobs i ≡ o
      → IsBounded p s
      → IsBounded p (run_job decide source has_upstream i e reached o s)
  unfolding run_job
  run_job-IsBounded i e reached none s g b = b
  run_job-IsBounded i e reached (some (relaying request client)) s g b = b
  run_job-IsBounded i e reached (some (asked request client)) s g b =
      act-IsBounded i e reached request client
        (handle decide source has_upstream e request client s.held) s g b

  end_job-IsBounded :
      (i : ℕ) (answer : Option Bytes) (o : Option (Job C)) (s : Serving S E C)
      → get_elem? s.jobs i ≡ o
      → IsBounded p s
      → IsBounded p (end_job decide source has_upstream i answer o s)
  unfolding end_job
  end_job-IsBounded i answer none s g b = b
  end_job-IsBounded i answer (some (asked request client)) s g b = b
  end_job-IsBounded i none (some (relaying request client)) s g b =
      ground (arith, b.few, b.answered, remove_lem p i s.jobs g)
  end_job-IsBounded i (some answer) (some (relaying request client)) s g b =
      ground (arith, b.few, b.answered, remove_lem p i s.jobs g)

  start_job-IsBounded :
      (o : Option (Bytes × C)) (s : Serving S E C)
      → s.pending ≡ o
      → IsBounded p s
      → IsBounded p (start_job decide source has_upstream o s)
  unfolding start_job
  start_job-IsBounded none s g b = b
  start_job-IsBounded (some (request, client)) s g b = ground (arith, g, b.few, b.answered)

  serve_step-IsBounded :
      (event : Event E C) (s : Serving S E C)
      → IsBounded p s
      → IsBounded p (serve_step decide source has_upstream event s)
  unfolding serve_step
  serve_step-IsBounded (read packet client) s b = elim (Option-cases s.pending) [
    | inl free ↦ ground (arith, free, b.few, b.answered)
    | inr (waiting, e) ↦ ground (arith, e, b.few, b.answered)
  ]
  serve_step-IsBounded read_error s b = ground (arith, b.few, b.answered)
  serve_step-IsBounded start s b = start_job-IsBounded s.pending s refl b
  serve_step-IsBounded (run i e reached) s b =
      run_job-IsBounded i e reached (get_elem? s.jobs i) s refl b
  serve_step-IsBounded (reply i answer) s b =
      end_job-IsBounded i answer (get_elem? s.jobs i) s refl b

  serve-keeps :
      (events : List (Event E C)) (s : Serving S E C)
      → IsBounded p s
      → IsBounded p (serve decide source has_upstream events s)
  unfolding serve
  serve-keeps [] s b = b
  serve-keeps (event ∷ events) s b =
      serve-keeps events (serve_step decide source has_upstream event s)
        (serve_step-IsBounded event s b)

  -- Whatever the sockets do and in whatever order the handlers run, at most 256 of them are active, and
  -- the clients of any set are sent at most as many packets as were read from them.
  pub serve-IsBounded :
      (events : List (Event E C)) (held : S)
      → IsBounded p (serve decide source has_upstream events (idle held))
  serve-IsBounded events held =
      serve-keeps events (idle held) (record { few = omega arith; answered = omega arith })
