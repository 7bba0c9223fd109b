-- ===== src/Store/Gives.antt =====
-- What a successful action on the registry leaves in its table, whatever other instances do between its
-- statements that a relation allows.
use mathlib.Core.Path.{subst}
use mathlib.Core.Option.{some_inj}
use ts_domain_gateway.Common.{
  ℕ, ◌⊎◌, inl, inr, refl, ◌+◌, ◌≡◌, ◌∙◌, sym, All, Bool, true, false, List, [], ◌∷◌, Option, none,
  some, nat_eq, list_eq, arith, refl, if◌then◌else◌,
}
use ts_domain_gateway.GoText.{Bytes}
use ts_domain_gateway.Net.{Addr}
use ts_domain_gateway.Store.{
  Row, Registry, Exec, interfere, unix_nano, ◌>>=◌, continue, pure, fail, run_statement, statement,
  update_expiry, renew, set_renewed, remembered, remember_hit, lift, mark_renewed,
}

-- What the other instances do is allowed.
abbrev pub Allows : (List Row → List Row → Type 0) → List (List Row → List Row) → Type 0
Allows R = All (λ other. (rows : List Row) → R rows (other rows))

-- From a table with `P`, a success with `a` leaves a table with `Q a`.
pub record Gives (R : List Row → List Row → Type 0) {A : Type 0} (P : List Row → Type 0)
    (m : Exec A) (Q : A → List Row → Type 0) : Type 0 where
  pub at :
      (s : Registry) (a : A)
      → Allows R s.others
      → P s.table
      → (m s).0 ≡ some a
      → Allows R (m s).1.others × Q a (m s).1.table

-- The other instances keep it.
abbrev pub IsStable : (List Row → List Row → Type 0) → (List Row → Type 0) → Type 0
IsStable R P = (rows rows' : List Row) → R rows rows' → P rows → P rows'

interfere_cache :
    (others : List (List Row → List Row)) (s : Registry) → (interfere others s).cache ≡ s.cache
unfolding interfere
interfere_cache [] s = refl
interfere_cache (other ∷ others) s = refl

module _ (R : List Row → List Row → Type 0) where
  pub interfere_lem :
      (P : List Row → Type 0) (others : List (List Row → List Row)) (s : Registry)
      → IsStable R P
      → Allows R others
      → s.others ≡ others
      → P s.table
      → Allows R (interfere others s).others × P (interfere others s).table
  unfolding interfere
  interfere_lem P [] s stable allowed same h = (subst (Allows R) (sym same) tt, h)
  interfere_lem P (other ∷ others) s stable allowed same h =
      (allowed.1, stable s.table (other s.table) (allowed.0 s.table) h)

  module _ {A : Type 0} (P : List Row → Type 0) (Q : A → List Row → Type 0) where
    pub pure-Gives : (a : A) → ((rows : List Row) → P rows → Q a rows) → Gives R P (pure a) Q
    pure-Gives a k = record {
      at = λ s b allowed h e. (allowed, subst (λ x. Q x s.table) (some_inj.0 e) (k s.table h));
    }

    pub fail-Gives : Gives R P fail Q
    fail-Gives = record { at = λ s b allowed h e. absurd (ground (arith, e)) }

    run_gives :
        (faults : List Bool) (f : List Row → A × List Row) (s : Registry) (a : A)
        → ((rows : List Row) → P rows → Q (f rows).0 (f rows).1)
        → Allows R s.others
        → P s.table
        → (run_statement faults f s).0 ≡ some a
        → Allows R (run_statement faults f s).1.others × Q a (run_statement faults f s).1.table
    unfolding run_statement
    run_gives [] f s a k allowed h e =
        (allowed, subst (λ x. Q x (f s.table).1) (some_inj.0 e) (k s.table h))
    run_gives (true ∷ faults) f s a k allowed h e = absurd (ground (arith, e))
    run_gives (false ∷ faults) f s a k allowed h e =
        (allowed, subst (λ x. Q x (f s.table).1) (some_inj.0 e) (k s.table h))

    pub statement-Gives :
        (f : List Row → A × List Row)
        → IsStable R P
        → ((rows : List Row) → P rows → Q (f rows).0 (f rows).1)
        → Gives R P (statement f) Q
    unfolding statement
    statement-Gives f stable k = record {
      at = λ s a allowed h e.
          let (still, kept) = interfere_lem P s.others s stable allowed refl h in
          run_gives s.faults f (interfere s.others s) a k still kept e;
    }

  pub lift-Gives :
      {A : Type 0} (P : List Row → Type 0) (o : Option A)
      → Gives R P (lift o) (λ a rows. P rows × (o ≡ some a))
  lift-Gives P o = record { at = λ s a allowed h e. (allowed, (h, e)) }

  continue-Gives :
      {A B : Type 0} (Q : A → List Row → Type 0) (T : B → List Row → Type 0) (o : Option A)
      (f : A → Exec B) (s : Registry) (b : B)
      → ((a : A) → Gives R (Q a) (f a) T)
      → ((a : A) → o ≡ some a → Allows R s.others × Q a s.table)
      → (continue o f s).0 ≡ some b
      → Allows R (continue o f s).1.others × T b (continue o f s).1.table
  continue-Gives Q T none f s b k h e = absurd (ground (arith, e))
  continue-Gives Q T (some a) f s b k h e = let (allowed, q) = h a refl in (k a).at s b allowed q e

  pub bind-Gives :
      {A B : Type 0} (P : List Row → Type 0) (Q : A → List Row → Type 0) (T : B → List Row → Type 0)
      (m : Exec A) (f : A → Exec B)
      → Gives R P m Q
      → ((a : A) → Gives R (Q a) (f a) T)
      → Gives R P (m >>= f) T
  bind-Gives P Q T m f k l = record {
    at = λ s b allowed h e. continue-Gives Q T (m s).0 f (m s).1 b l (λ a. k.at s a allowed h) e;
  }

  pub choose-Gives :
      {A : Type 0} (P : List Row → Type 0) (Q : A → List Row → Type 0) (b : Bool) (m n : Exec A)
      → Gives R P m Q
      → Gives R P n Q
      → Gives R P (if b then m else n) Q
  choose-Gives P Q true m n h k = h
  choose-Gives P Q false m n h k = k

  pub implies-Gives :
      {A : Type 0} (P P' : List Row → Type 0) (Q : A → List Row → Type 0) (m : Exec A)
      → ((rows : List Row) → P rows → P' rows)
      → Gives R P' m Q
      → Gives R P m Q
  implies-Gives P P' Q m k g = record { at = λ s a allowed h e. g.at s a allowed (k s.table h) e }

  module _ (P : List Row → Type 0) (gateway domain : Bytes) where
    pub remember_hit-Gives :
        (ip : Addr) (expiry : ℕ) → Gives R P (remember_hit gateway domain ip expiry) (λ _. P)
    unfolding remember_hit remembered
    remember_hit-Gives ip expiry = record { at = λ s a allowed h e. (allowed, h) }

    pub mark_renewed-Gives : (now : ℕ) → Gives R P (mark_renewed gateway domain now) (λ _. P)
    unfolding mark_renewed set_renewed
    mark_renewed-Gives now = record { at = λ s a allowed h e. (allowed, h) }

    -- A forced renewal is made whenever the last one was.
    pub renew-Gives :
        (Q : List Row → Type 0) (now lease : ℕ)
        → IsStable R P
        → ((rows : List Row)
            → P rows
            → Q (update_expiry gateway domain (unix_nano (now + lease)) rows))
        → Gives R P (renew gateway domain now lease true) (λ _. Q)
    unfolding renew set_renewed
    renew-Gives Q now lease stable k = record {
      at = λ s a allowed h e.
          (statement-Gives P (λ _. Q)
              (λ rows. (tt, update_expiry gateway domain (unix_nano (now + lease)) rows)) stable
              k).at
            (set_renewed gateway domain now s) a allowed h e;
    }

  run_reads :
      {A : Type 0} (P : List Row → Type 0) (faults : List Bool) (f : List Row → A) (s : Registry)
      → Allows R s.others × P s.table
      → ((run_statement faults (λ rows. (f rows, rows)) s).0 ≡ none)
        ⊎ ((t : Registry) × (run_statement faults (λ rows. (f rows, rows)) s
              ≡ (some (f t.table), t))
            × (Allows R t.others × P t.table)
            × (t.cache ≡ s.cache))
  unfolding run_statement
  run_reads P [] f s h = inr (_, refl, h, refl)
  run_reads P (true ∷ faults) f s h = inl refl
  run_reads P (false ∷ faults) f s h = inr (_, refl, h, refl)

  -- A read fails, or gives what it reads and leaves the cache.
  pub read_cases :
      {A : Type 0} (P : List Row → Type 0) (f : List Row → A) (s : Registry)
      → IsStable R P
      → Allows R s.others
      → P s.table
      → ((statement (λ rows. (f rows, rows)) s).0 ≡ none)
        ⊎ ((t : Registry) × (statement (λ rows. (f rows, rows)) s ≡ (some (f t.table), t))
            × (Allows R t.others × P t.table)
            × (t.cache ≡ s.cache))
  unfolding statement
  read_cases P f s stable allowed h =
      let kept = interfere_lem P s.others s stable allowed refl h in
      let cache = interfere_cache s.others s in
      elim (run_reads P s.faults f (interfere s.others s) kept) [
        | inl fails ↦ inl fails
        | inr (t, read, left, same) ↦ inr (t, read, left, same ∙ cache)
      ]
