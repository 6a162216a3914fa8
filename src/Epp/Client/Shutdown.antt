-- ===== src/Epp/Client/Shutdown.antt =====
-- Stopping the client (epp/client/client.go), and the login that it works behind.
use go_registrar.Prelude.{
  ◌≡◌, ◌≢◌, ◌⊎◌, inl, inr, refl, Bool, true, false, Option, none, List, arith, All, Any, Bool-cases,
  if◌then◌else◌,
}
use go_registrar.Epp.Response.{is_error}
use go_registrar.Epp.Client.{
  ClientState, closed_connection, new_connection, opened_connection, prepare_pre_login_hello,
  prepare_login, wait_login, wait_for_work, wait_for_work_hello, wait_for_work_hello_resp,
  wait_for_command_response, prepare_logout, wait_logout, shutdown_requested, unnamed, response,
  EppClient, Event, received, Input, Reply, Callback, goes_on, returns, waits, sender_left, Poll,
  stop_polled, nothing, send_error, poll_state, handler, replied, fsm_step, start_fsm,
  wait_for_work_state, wait_login_state, wait_logout_state, shutdown_state, closed_connection_state,
  wait_for_command_response_state, wait_for_work_hello_resp_state, wait_for_work_hello_state,
  prepare_login_state, prepare_logout_state, opened_connection_state, new_connection_state,
}
use go_registrar.Epp.Client.Runs.{run_fsm-keeps_while, run_fsm-brings}

-- A state in which a connection has been opened.
abbrev pub is_connected : ClientState → Bool
is_connected closed_connection = false
is_connected new_connection = false
is_connected _ = true

-- A round before which EPPSender has met no error.
abbrev pub Sends : Poll × Input → Type 0
Sends (p, i) = i.sender_fails ≡ false

-- EPPSender runs where a connection has been opened, and a closed one will be opened.
abbrev pub HasSender : EppClient → Type 0
HasSender c =
    (is_connected c.current_state ≡ true → c.sender_running ≡ true)
    × (c.current_state ≡ closed_connection → c.should_login ≡ true)

-- A response without an error.
abbrev pub IsAccepted : Poll × Input → Type 0
IsAccepted (p, i) = accepted i.event
  where
    accepted : Event → Type 0
    accepted (received (response code)) = is_error code ≡ false
    accepted _ = ⊥

-- The states in which the machine has logged in.
abbrev pub has_logged_in : ClientState → Bool
has_logged_in wait_for_work = true
has_logged_in wait_for_work_hello = true
has_logged_in wait_for_work_hello_resp = true
has_logged_in wait_for_command_response = true
has_logged_in prepare_logout = true
has_logged_in wait_logout = true
has_logged_in _ = false

module _ (login_callback logout_callback : Callback) where
  -- What a handler is called with: the state of the machine, or that of a stop.
  abbrev Called : ClientState → EppClient → Type 0
  Called s c = (s ≡ shutdown_requested) ⊎ (HasSender c × (c.current_state ≡ s))

  -- The client of a reply that StartFSM goes on with.
  abbrev GoesOnFrom : Option Reply → EppClient → Type 0
  GoesOnFrom r d = replied login_callback logout_callback r ≡ goes_on d

  handler-HasSender :
      (s : ClientState) (i : Input) (c d : EppClient)
      → (is_connected s ≡ true → (s ≢ shutdown_requested) → c.sender_running ≡ true)
      → (s ≡ closed_connection → c.should_login ≡ true)
      → GoesOnFrom (handler login_callback logout_callback s i c) d
      → HasSender d
  unfolding handler closed_connection_state new_connection_state opened_connection_state
      prepare_login_state wait_login_state wait_for_work_state wait_for_work_hello_state
      wait_for_work_hello_resp_state wait_for_command_response_state prepare_logout_state
      wait_logout_state shutdown_state
  handler-HasSender closed_connection i c d h k e = ground arith
  handler-HasSender new_connection i c d h k e = ground arith
  handler-HasSender opened_connection i c d h k e = ground arith
  handler-HasSender prepare_login i c d h k e = ground arith
  handler-HasSender wait_login i c d h k e = ground arith
  handler-HasSender wait_for_work i c d h k e = ground arith
  handler-HasSender wait_for_work_hello i c d h k e = ground arith
  handler-HasSender wait_for_work_hello_resp i c d h k e = ground arith
  handler-HasSender wait_for_command_response i c d h k e = ground arith
  handler-HasSender prepare_logout i c d h k e = ground arith
  handler-HasSender wait_logout i c d h k e = ground arith
  handler-HasSender shutdown_requested i c d h k e = ground arith
  handler-HasSender prepare_pre_login_hello i c d h k e = cc
  handler-HasSender unnamed i c d h k e = cc

  fsm_step-HasSender :
      (p : Poll) (i : Input) (c d : EppClient)
      → Sends (p, i)
      → HasSender c
      → fsm_step login_callback logout_callback p i c ≡ goes_on d
      → HasSender d
  unfolding fsm_step
  fsm_step-HasSender stop_polled i c d q h e =
      handler-HasSender shutdown_requested i
        (record c { current_state = shutdown_requested; sender_running = sender_left i c }) d
        (λ t n. absurd (n refl)) (λ t. cc) e
  fsm_step-HasSender nothing i c d q h e =
      handler-HasSender c.current_state i (record c { sender_running = sender_left i c }) d
        (λ t n. rw q (h.0 t)) h.1 e
  fsm_step-HasSender send_error i c d q h e =
      handler-HasSender c.current_state i (record c { sender_running = sender_left i c }) d
        (λ t n. rw q (h.0 t)) h.1 e

  -- A client that is to log in and whose StartFSM has opened a connection and goes on, while
  -- EPPSender has met no error in the rounds so far, can be stopped exactly where EPPSender has met
  -- none since: a stop that the loop polls then makes StartFSM return without an error in that
  -- round, and EPPSender has ended. Where EPPSender has met an error of EncodeEPP, Write or Flush
  -- it has returned, and shutdownState waits for ever to tell it to stop.
  pub start_fsm-stops :
      (rounds : List (Poll × Input)) (c d : EppClient) (i : Input)
      → c.should_login ≡ true
      → All Sends rounds
      → start_fsm login_callback logout_callback rounds c ≡ goes_on d
      → is_connected d.current_state ≡ true
      → fsm_step login_callback logout_callback stop_polled i d ≡ (
          if i.sender_fails
          then waits
          else returns none
              (record d { current_state = shutdown_requested; sender_running = false }))
  unfolding start_fsm fsm_step handler shutdown_state
  start_fsm-stops rounds c d i login sends e open_now =
      let start = record c { current_state = closed_connection } in
      let inv =
        run_fsm-keeps_while login_callback logout_callback Sends HasSender fsm_step-HasSender rounds
          start d sends ((λ t. cc), λ t. login) e in
      elim (Bool-cases i.sender_fails) [
        | inl f ↦ simp f refl
        | inr f ↦ simp (f, inv.0 open_now) refl
      ]

  handler-IsAccepted :
      (s : ClientState) (p : Poll) (i : Input) (c d : EppClient)
      → has_logged_in d.current_state ≡ true
      → GoesOnFrom (handler login_callback logout_callback s i c) d
      → (has_logged_in s ≡ true) ⊎ IsAccepted (p, i)
  unfolding handler closed_connection_state new_connection_state opened_connection_state
      prepare_login_state wait_login_state wait_for_work_state wait_for_work_hello_state
      wait_for_work_hello_resp_state wait_for_command_response_state prepare_logout_state
      wait_logout_state shutdown_state
  handler-IsAccepted wait_login p i c d h e = ground arith
  handler-IsAccepted s p i c d h e = ground arith

  fsm_step-IsAccepted :
      (p : Poll) (i : Input) (c d : EppClient)
      → has_logged_in d.current_state ≡ true
      → fsm_step login_callback logout_callback p i c ≡ goes_on d
      → (has_logged_in c.current_state ≡ true) ⊎ IsAccepted (p, i)
  unfolding fsm_step
  fsm_step-IsAccepted p i c d h e =
      let s = poll_state p c.current_state in
      let r =
        handler-IsAccepted s p i (record c { current_state = s; sender_running = sender_left i c })
          d h e in
      before p c r
    where
      before :
          (q : Poll) (a : EppClient)
          → (has_logged_in (poll_state q a.current_state) ≡ true) ⊎ IsAccepted (p, i)
          → (has_logged_in a.current_state ≡ true) ⊎ IsAccepted (p, i)
      before nothing a r = r
      before send_error a r = r
      before stop_polled a (inl n) = cc
      before stop_polled a (inr r) = inr r

  -- Where StartFSM has reached a state in which the client works or logs out, one of its rounds
  -- received a response that is no error: the client does not work before the server has accepted
  -- its login.
  pub start_fsm-IsAccepted :
      (rounds : List (Poll × Input)) (c d : EppClient)
      → start_fsm login_callback logout_callback rounds c ≡ goes_on d
      → has_logged_in d.current_state ≡ true
      → Any IsAccepted rounds
  unfolding start_fsm
  start_fsm-IsAccepted rounds c d e h =
      elim (run_fsm-brings login_callback logout_callback
        (λ a. has_logged_in a.current_state ≡ true) IsAccepted fsm_step-IsAccepted rounds
        (record c { current_state = closed_connection }) d h e) [ inl n ↦ absurd cc | inr r ↦ r ]
