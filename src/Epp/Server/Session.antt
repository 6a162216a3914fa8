-- ===== src/Epp/Server/Session.antt =====
-- Sessions of the EPP server (epp/server/server.go): no command without a login, and no more failed
-- logins than are allowed.
use go_registrar.Prelude.{
  ℕ, ◌≤◌, ◌≡◌, ◌⊎◌, inl, inr, refl, String, Option, none, some, List, [], ◌∷◌, arith, Any,
  str_eq_iff,
}
use go_registrar.Epp.Server.{
  EppServer, ServerState, prepare_greeting, waiting_for_client, waiting_for_command,
  close_connection, Connection, Request, login, Handled, handled, nil_pointer, login_of,
  write_response, try_login, handle_waiting_for_client, generate_check_response, sponsored,
  handle_domain_update, handle_waiting_for_command, handle_round, next_round, handle_connection,
}

module _ (srv : EppServer) (info_code : String → ℕ) where
  -- The message is a login with the password of its client.
  abbrev pub IsGoodLogin : Option Request → Type 0
  IsGoodLogin (some (login id given)) = (login_of srv.logins id).password ≡ given
  IsGoodLogin _ = ⊥

  abbrev pub Becomes : Option Handled → ServerState → Connection → Type 0
  Becomes r t d = r ≡ some (handled t none d)

  client-IsGoodLogin :
      (m : Option Request) (c d : Connection)
      → Becomes (some (handle_waiting_for_client srv m c)) waiting_for_command d
      → IsGoodLogin m
  unfolding handle_waiting_for_client try_login write_response
  client-IsGoodLogin none c d h = cc
  client-IsGoodLogin (some (login id given)) c d h =
      ground (arith, str_eq_iff (login_of srv.logins id).password given)
  client-IsGoodLogin (some m) c d h = absurd (ground arith)

  -- What the rounds of Handle keep, and what they bring about.

  Round-cases :
      (r : Option Handled)
      → ((t : ServerState) × (d : Connection) × Becomes r t d)
        ⊎ ((next : ServerState → Connection → Option (ServerState × Connection))
            → next_round srv info_code next r ≡ none)
  Round-cases none = inr (λ next. refl)
  Round-cases (some nil_pointer) = inr (λ next. refl)
  Round-cases (some (handled t none d)) = inl (t, d, refl)
  Round-cases (some (handled t (some e) d)) = inr (λ next. refl)

  abbrev run : List (Option Request) → ServerState → Connection → Option (ServerState × Connection)
  run = handle_connection srv info_code

  run-cons :
      (m : Option Request) (rest : List (Option Request)) (s : ServerState) (c : Connection)
      → run (m ∷ rest) s c
        ≡ next_round srv info_code (λ t d. run rest t d) (handle_round srv info_code s m c)
  unfolding handle_connection
  run-cons m rest s c = refl

  run-nil : (s t : ServerState) (c d : Connection) → run [] s c ≡ some (t, d) → (s ≡ t) × (c ≡ d)
  unfolding handle_connection
  run-nil s t c d h = ground arith

  -- What each round keeps, a session keeps.
  pub run-keeps :
      (P : ServerState → Connection → Type 0)
      → ((s t : ServerState) (m : Option Request) (c d : Connection)
          → P s c
          → Becomes (handle_round srv info_code s m c) t d
          → P t d)
      → (ms : List (Option Request)) (s t : ServerState) (c d : Connection) → P s c
      → run ms s c ≡ some (t, d)
      → P t d
  run-keeps P keep [] s t c d h e = let (a, b) = run-nil s t c d e in rw (← a, ← b) h
  run-keeps P keep (m ∷ rest) s t c d h e = elim (Round-cases (handle_round srv info_code s m c)) [
    | inl (t', c', f) ↦
        run-keeps P keep rest t' t c' d (keep s t' m c c' h f) (rw (run-cons m rest s c, f) at e)
    | inr n ↦ absurd (ended (n (λ a b. run rest a b)) (rw (run-cons m rest s c) at e))
  ]
    where
      ended : {r : Option (ServerState × Connection)} → r ≡ none → r ≡ some (t, d) → ⊥
      ended a b = cc

  -- What holds after a session held before it, or else a message brought it about.
  run-brings :
      (P : ServerState → Type 0) (Q : Option Request → Type 0)
      → ((s t : ServerState) (m : Option Request) (c d : Connection)
          → P t
          → Becomes (handle_round srv info_code s m c) t d
          → P s ⊎ Q m)
      → (ms : List (Option Request)) (s t : ServerState) (c d : Connection) → P t
      → run ms s c ≡ some (t, d)
      → P s ⊎ Any Q ms
  run-brings P Q bring [] s t c d h e = inl (rw (run-nil s t c d e).0 h)
  run-brings P Q bring (m ∷ rest) s t c d h e =
      elim (Round-cases (handle_round srv info_code s m c)) [
        | inl (t', c', f) ↦
            elim (run-brings P Q bring rest t' t c' d h (rw (run-cons m rest s c, f) at e)) [
              | inl now ↦ elim (bring s t' m c c' now f) [ inl p ↦ inl p | inr q ↦ inr (inl q) ]
              | inr later ↦ inr (inr later)
            ]
        | inr n ↦ absurd (ended (n (λ a b. run rest a b)) (rw (run-cons m rest s c) at e))
      ]
    where
      ended : {r : Option (ServerState × Connection)} → r ≡ none → r ≡ some (t, d) → ⊥
      ended a b = cc

  round-IsGoodLogin :
      (s t : ServerState) (m : Option Request) (c d : Connection)
      → t ≡ waiting_for_command
      → Becomes (handle_round srv info_code s m c) t d
      → (s ≡ waiting_for_command) ⊎ IsGoodLogin m
  unfolding handle_round
  round-IsGoodLogin prepare_greeting t m c d e h = absurd (ground arith)
  round-IsGoodLogin waiting_for_client t m c d e h = inr (client-IsGoodLogin m c d (rw e at h))
  round-IsGoodLogin waiting_for_command t m c d e h = inl refl
  round-IsGoodLogin close_connection t m c d e h = cc

  -- A session that waits for commands has received a login with the password that the server has for
  -- the client: none of its commands is handled before. For a client that it does not know this is
  -- the empty password.
  pub handle_connection-IsGoodLogin :
      (ms : List (Option Request)) (c d : Connection)
      → handle_connection srv info_code ms prepare_greeting c ≡ some (waiting_for_command, d)
      → Any IsGoodLogin ms
  handle_connection-IsGoodLogin ms c d e =
      elim (run-brings (λ s. s ≡ waiting_for_command) IsGoodLogin round-IsGoodLogin ms
        prepare_greeting waiting_for_command c d refl e) [
          | inl h ↦ absurd (ground arith)
          | inr q ↦ q
        ]

  round-attempts :
      (s t : ServerState) (m : Option Request) (c d : Connection)
      → c.failed_login_attempts ≤ srv.max_failed_login_attempts
      → Becomes (handle_round srv info_code s m c) t d
      → d.failed_login_attempts ≤ srv.max_failed_login_attempts
  unfolding handle_round handle_waiting_for_client try_login handle_waiting_for_command
      generate_check_response handle_domain_update sponsored write_response
  round-attempts prepare_greeting t m c d b h = ground arith
  round-attempts waiting_for_client t none c d b h = ground arith
  round-attempts waiting_for_client t (some m) c d b h = ground arith
  round-attempts waiting_for_command t none c d b h = ground arith
  round-attempts waiting_for_command t (some m) c d b h = ground arith
  round-attempts close_connection t m c d b h = cc

  -- A session never counts more failed logins than are allowed: the next one ends it.
  pub handle_connection-attempts :
      (ms : List (Option Request)) (t : ServerState) (c d : Connection)
      → c.failed_login_attempts ≡ 0
      → handle_connection srv info_code ms prepare_greeting c ≡ some (t, d)
      → d.failed_login_attempts ≤ srv.max_failed_login_attempts
  handle_connection-attempts ms t c d zero e =
      run-keeps (λ s a. a.failed_login_attempts ≤ srv.max_failed_login_attempts) round-attempts ms
        prepare_greeting t c d (omega (arith, zero)) e
