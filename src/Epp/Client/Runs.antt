-- ===== src/Epp/Client/Runs.antt =====
-- Induction on the rounds of StartFSM (epp/client/client.go).
use go_registrar.Prelude.{◌≡◌, ◌≢◌, ◌⊎◌, inl, inr, refl, List, [], ◌∷◌, arith, All, Any}
use go_registrar.Epp.Client.{
  EppClient, Input, Poll, Callback, Step, goes_on, returns, waits, panics, then_run, fsm_step,
  run_fsm,
}

Step-cases : (t : Step) → ((c : EppClient) × (t ≡ goes_on c)) ⊎ ((c : EppClient) → t ≢ goes_on c)
Step-cases (goes_on c) = inl (c, refl)
Step-cases (returns e c) = inr (λ d h. cc)
Step-cases waits = inr (λ d h. cc)
Step-cases panics = inr (λ d h. cc)

-- Where StartFSM does not go on, the next rounds do not matter.
then_run-ended :
    (next : EppClient → Step) (t : Step) → ((c : EppClient) → t ≢ goes_on c) → then_run next t ≡ t
then_run-ended next (goes_on c) n = absurd (n c refl)
then_run-ended next (returns e c) n = refl
then_run-ended next waits n = refl
then_run-ended next panics n = refl

module _ (login_callback logout_callback : Callback) where
  abbrev step : Poll → Input → EppClient → Step
  step = fsm_step login_callback logout_callback

  abbrev run : List (Poll × Input) → EppClient → Step
  run = run_fsm login_callback logout_callback

  run_fsm-cons :
      (p : Poll) (i : Input) (rest : List (Poll × Input)) (c : EppClient)
      → run ((p, i) ∷ rest) c ≡ then_run (λ d. run rest d) (step p i c)
  unfolding run_fsm
  run_fsm-cons p i rest c = refl

  run_fsm-nil : (c d : EppClient) → run [] c ≡ goes_on d → c ≡ d
  unfolding run_fsm
  run_fsm-nil c d h = ground arith

  -- What each round of a kind keeps, a run of such rounds keeps.
  pub run_fsm-keeps_while :
      (Q : Poll × Input → Type 0) (P : EppClient → Type 0)
      → ((p : Poll) (i : Input) (c d : EppClient) → Q (p, i) → P c → step p i c ≡ goes_on d → P d)
      → (rounds : List (Poll × Input)) (c d : EppClient) → All Q rounds
      → P c
      → run rounds c ≡ goes_on d
      → P d
  run_fsm-keeps_while Q P keep [] c d q h e = rw (← run_fsm-nil c d e) h
  run_fsm-keeps_while Q P keep ((p, i) ∷ rest) c d (now, later) h e =
      elim (Step-cases (step p i c)) [
        | inl (c', f) ↦
            run_fsm-keeps_while Q P keep rest c' d later (keep p i c c' now h f)
              (rw (run_fsm-cons p i rest c, f) at e)
        | inr n ↦
            let ended = then_run-ended (λ a. run rest a) (step p i c) n in
            absurd (n d (rw (run_fsm-cons p i rest c, ended) at e))
      ]

  -- What all rounds are.
  abbrev Always : Poll × Input → Type 0
  Always q = Unit

  -- What each round keeps, the whole run keeps.
  pub run_fsm-keeps :
      (P : EppClient → Type 0)
      → ((p : Poll) (i : Input) (c d : EppClient) → P c → step p i c ≡ goes_on d → P d)
      → (rounds : List (Poll × Input)) (c d : EppClient) → P c
      → run rounds c ≡ goes_on d
      → P d
  run_fsm-keeps P keep rounds c d =
      run_fsm-keeps_while Always P (λ p i a b u. keep p i a b) rounds c d (any_rounds rounds)
    where
      any_rounds : (l : List (Poll × Input)) → All Always l
      any_rounds [] = tt
      any_rounds (x ∷ l) = (tt, any_rounds l)

  -- A run does not panic where no round does in a client that the rounds keep good.
  pub run_fsm-handled :
      (P : EppClient → Type 0)
      → ((p : Poll) (i : Input) (c d : EppClient) → P c → step p i c ≡ goes_on d → P d)
      → ((p : Poll) (i : Input) (c : EppClient) → P c → step p i c ≢ panics)
      → (rounds : List (Poll × Input)) (c : EppClient) → P c
      → run rounds c ≢ panics
  run_fsm-handled P keep fine [] c h = unfold run_fsm in λ e. cc
  run_fsm-handled P keep fine ((p, i) ∷ rest) c h = λ e. elim (Step-cases (step p i c)) [
    | inl (c', f) ↦
        run_fsm-handled P keep fine rest c' (keep p i c c' h f)
          (rw (run_fsm-cons p i rest c, f) at e)
    | inr n ↦
        let ended = then_run-ended (λ a. run rest a) (step p i c) n in
        fine p i c h (rw (run_fsm-cons p i rest c, ended) at e)
  ]

  -- What holds after a run held before it, or else a round brought it about.
  pub run_fsm-brings :
      (P : EppClient → Type 0) (Q : Poll × Input → Type 0)
      → ((p : Poll) (i : Input) (c d : EppClient) → P d → step p i c ≡ goes_on d → P c ⊎ Q (p, i))
      → (rounds : List (Poll × Input)) (c d : EppClient) → P d
      → run rounds c ≡ goes_on d
      → P c ⊎ Any Q rounds
  run_fsm-brings P Q bring [] c d h e = inl (rw (run_fsm-nil c d e) h)
  run_fsm-brings P Q bring ((p, i) ∷ rest) c d h e = elim (Step-cases (step p i c)) [
    | inl (c', f) ↦
        elim (run_fsm-brings P Q bring rest c' d h (rw (run_fsm-cons p i rest c, f) at e)) [
          | inl now ↦ elim (bring p i c c' now f) [ inl before ↦ inl before | inr q ↦ inr (inl q) ]
          | inr later ↦ inr (inr later)
        ]
    | inr n ↦
        let ended = then_run-ended (λ a. run rest a) (step p i c) n in
        absurd (n d (rw (run_fsm-cons p i rest c, ended) at e))
  ]
