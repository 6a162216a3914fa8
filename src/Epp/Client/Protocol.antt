-- ===== src/Epp/Client/Protocol.antt =====
-- What the client (epp/client/client.go) sends: the order of RFC 5730, checked by an automaton of its
-- own, and that it works only behind a login that was accepted.
use go_registrar.Prelude.{
  ◌≡◌, ◌≢◌, inl, inr, refl, Option, none, some, List, [], ◌∷◌, ◌++◌, arith, Bool-cases, ltb, ◌-◌,
}
use go_registrar.Epp.Client.Runs.{run_fsm-keeps, run_fsm-handled}
use go_registrar.Epp.Client.{
  ClientState, sender_left, closed_connection, new_connection, opened_connection,
  prepare_pre_login_hello, prepare_login, wait_login, wait_for_work, wait_for_work_hello,
  wait_for_work_hello_resp, wait_for_command_response, prepare_logout, wait_logout,
  shutdown_requested, unnamed, Message, command, login, hello, logout, EppClient, Event, new_work,
  Input, Reply, reply, Callback, goes_on, panics, Poll, nothing, send_error, stop_polled,
  poll_state, handler, replied, fsm_step, run_fsm, start_fsm, keepalive_period, wait_for_work_state,
  wait_for_work_select, wait_login_state, wait_logout_state, shutdown_state,
  closed_connection_state, wait_for_command_response_state, wait_for_work_hello_resp_state,
  wait_for_work_hello_state, prepare_login_state, prepare_logout_state, opened_connection_state,
  new_connection_state,
}

-- How far a session is, by what the client has sent.
pub data Phase : Type 0 where
  before_login session ended : Phase

-- A session starts with one login, goes on with commands and hellos, and ends with a logout.
abbrev pub next_phase : Phase → Message → Option Phase
next_phase before_login (login n) = some session
next_phase session (command n) = some session
next_phase session hello = some session
next_phase session logout = some ended
next_phase _ m = none

abbrev phase_then : Message → Option Phase → Option Phase
phase_then m none = none
phase_then m (some p) = next_phase p m

-- The phase behind messages in the order of sending.
abbrev phase_from : Option Phase → List Message → Option Phase
phase_from p [] = p
phase_from p (m ∷ later) = phase_from (phase_then m p) later

abbrev pub phase_of : List Message → Option Phase
phase_of sent = phase_from (some before_login) sent

phase_from-append :
    (sent : List Message) (p : Option Phase) (m : Message)
    → phase_from p (sent ++ m ∷ []) ≡ phase_then m (phase_from p sent)
phase_from-append [] p m = refl
phase_from-append (a ∷ sent) p m = phase_from-append sent (phase_then a p) m

-- The phases that a state goes with.
abbrev pub PhaseAt : ClientState → Phase → Type 0
PhaseAt closed_connection p = p ≡ before_login
PhaseAt new_connection p = p ≡ before_login
PhaseAt opened_connection p = p ≡ before_login
PhaseAt prepare_login p = p ≡ before_login
PhaseAt wait_login p = p ≡ session
PhaseAt wait_for_work p = p ≡ session
PhaseAt wait_for_work_hello p = p ≡ session
PhaseAt wait_for_work_hello_resp p = p ≡ session
PhaseAt wait_for_command_response p = p ≡ session
PhaseAt prepare_logout p = p ≡ session
PhaseAt wait_logout p = p ≡ ended
PhaseAt shutdown_requested p = Unit
PhaseAt prepare_pre_login_hello p = ⊥
PhaseAt unnamed p = ⊥

-- What has been sent is in the order of the protocol, and its phase goes with the state.
abbrev pub InOrder : EppClient → ClientState → Type 0
InOrder c s = (p : Phase) × (phase_of c.sent ≡ some p) × PhaseAt s p

module _ (login_callback logout_callback : Callback) where
  -- A handler keeps the order where it returns no error and does not close the connection.
  abbrev KeepsOrder : Option Reply → Type 0
  KeepsOrder none = Unit
  KeepsOrder (some Reply.blocks) = Unit
  KeepsOrder (some (reply closed_connection e c)) = Unit
  KeepsOrder (some (reply s none c)) = InOrder c s
  KeepsOrder (some (reply s (some e) c)) = Unit

  select-InOrder :
      (e : Event) (c : EppClient)
      → InOrder c wait_for_work
      → KeepsOrder (some (wait_for_work_select e c))
  select-InOrder (new_work n) c h =
      ground (arith, phase_from-append c.sent (some before_login) (command n))
  select-InOrder e c h = ground arith

  work-InOrder :
      (i : Input) (c : EppClient)
      → InOrder c wait_for_work
      → KeepsOrder (some (wait_for_work_state i.event i.now c))
  unfolding wait_for_work_state
  work-InOrder i c h = elim (Bool-cases (ltb keepalive_period (i.now - c.last_greeting_time))) [
    | inl e ↦ rw e h
    | inr e ↦ rw e (select-InOrder i.event c h)
  ]

  handler-InOrder :
      (s : ClientState) (i : Input) (c : EppClient)
      → InOrder c s
      → KeepsOrder (handler login_callback logout_callback s i c)
  unfolding handler closed_connection_state new_connection_state opened_connection_state
      prepare_login_state wait_login_state wait_for_work_state wait_for_work_hello_state
      wait_for_work_hello_resp_state wait_for_command_response_state prepare_logout_state
      wait_logout_state shutdown_state
  handler-InOrder closed_connection i c h = ground arith
  handler-InOrder new_connection i c h = ground arith
  handler-InOrder opened_connection i c h = ground arith
  handler-InOrder prepare_login i c h =
      ground (arith, phase_from-append c.sent (some before_login) (login c.recent_greeting))
  handler-InOrder wait_login i c h = ground arith
  handler-InOrder wait_for_work i c h = work-InOrder i c h
  handler-InOrder wait_for_work_hello i c h =
      ground (arith, phase_from-append c.sent (some before_login) hello)
  handler-InOrder wait_for_work_hello_resp i c h = ground arith
  handler-InOrder wait_for_command_response i c h = ground arith
  handler-InOrder prepare_logout i c h =
      ground (arith, phase_from-append c.sent (some before_login) logout)
  handler-InOrder wait_logout i c h = ground arith
  handler-InOrder shutdown_requested i c h = ground arith
  handler-InOrder prepare_pre_login_hello i c h = tt
  handler-InOrder unnamed i c h = tt

  -- The state that a round runs in: the machine's own, or that of a stop which was polled.
  polled-InOrder :
      (p : Poll) (c : EppClient)
      → InOrder c c.current_state
      → InOrder c (poll_state p c.current_state)
  polled-InOrder nothing c h = h
  polled-InOrder send_error c h = h
  polled-InOrder stop_polled c (p, e, at) = (p, e, tt)

  replied-InOrder :
      (r : Option Reply) (c : EppClient)
      → KeepsOrder r
      → replied login_callback logout_callback r ≡ goes_on c
      → InOrder c c.current_state
  replied-InOrder none c k h = cc
  replied-InOrder (some Reply.blocks) c k h = cc
  replied-InOrder (some (reply s e d)) c k h = ground arith

  fsm_step-InOrder :
      (p : Poll) (i : Input) (c d : EppClient)
      → InOrder c c.current_state
      → fsm_step login_callback logout_callback p i c ≡ goes_on d
      → InOrder d d.current_state
  unfolding fsm_step
  fsm_step-InOrder p i c d h e =
      let s = poll_state p c.current_state in
      let c' = record c { current_state = s; sender_running = sender_left i c } in
      replied-InOrder (handler login_callback logout_callback s i c') d
        (handler-InOrder s i c' (polled-InOrder p c h)) e

  run_fsm-InOrder :
      (rounds : List (Poll × Input)) (c d : EppClient)
      → InOrder c c.current_state
      → run_fsm login_callback logout_callback rounds c ≡ goes_on d
      → InOrder d d.current_state
  run_fsm-InOrder =
      run_fsm-keeps login_callback logout_callback (λ c. InOrder c c.current_state) fsm_step-InOrder

  -- While StartFSM runs on a client that has sent nothing, what it has sent is in the order of
  -- RFC 5730: one login, then commands and hellos, then one logout. It has logged in where it waits
  -- for the login or works, it has logged out where it waits for the logout, and before that it has
  -- sent nothing.
  pub start_fsm-InOrder :
      (rounds : List (Poll × Input)) (c d : EppClient)
      → c.sent ≡ []
      → start_fsm login_callback logout_callback rounds c ≡ goes_on d
      → InOrder d d.current_state
  unfolding start_fsm
  start_fsm-InOrder rounds c d fresh e =
      run_fsm-InOrder rounds (record c { current_state = closed_connection }) d
        (before_login, rw fresh refl, refl) e

  handled :
      (s : ClientState) (i : Input) (c : EppClient) (p : Phase)
      → PhaseAt s p
      → replied login_callback logout_callback (handler login_callback logout_callback s i c)
        ≢ panics
  unfolding handler
  handled s i c p h e = ground arith

  fsm_step-handled :
      (p : Poll) (i : Input) (c : EppClient)
      → InOrder c c.current_state
      → fsm_step login_callback logout_callback p i c ≢ panics
  unfolding fsm_step
  fsm_step-handled p i c h =
      let s = poll_state p c.current_state in
      let (phase, e, at) = polled-InOrder p c h in
      handled s i (record c { current_state = s; sender_running = sender_left i c }) phase at

  -- StartFSM on a client that has sent nothing never calls a handler that fsmStateMap lacks, though
  -- some handlers name states that have none.
  pub start_fsm-handled :
      (rounds : List (Poll × Input)) (c : EppClient)
      → c.sent ≡ []
      → start_fsm login_callback logout_callback rounds c ≢ panics
  unfolding start_fsm
  start_fsm-handled rounds c fresh =
      run_fsm-handled login_callback logout_callback (λ a. InOrder a a.current_state)
        fsm_step-InOrder fsm_step-handled rounds (record c { current_state = closed_connection })
        (before_login, rw fresh refl, refl)
