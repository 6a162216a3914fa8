-- ===== src/Epp/Client.antt =====
-- epp/client/client.go: the state machine of the EPP client, its handlers and StartFSM. A handler
-- is called with the event that its `select` takes. The goroutines that read and write the
-- connection are seen through the channels: what is sent is kept in order. Times are nanoseconds.
pub mod Runs
pub mod Protocol
pub mod Shutdown
use go_registrar.Prelude.{
  ℕ, ◌-◌, Bool, true, false, Option, none, some, List, [], ◌∷◌, ◌++◌, ltb, if◌then◌else◌,
}
use go_registrar.Epp.Response.{is_error}

-- EPPClientState; `unnamed` is the empty text, the zero value that some error paths return.
pub data ClientState : Type 0 where
  closed_connection new_connection opened_connection prepare_pre_login_hello : ClientState
  prepare_login wait_login wait_for_work wait_for_work_hello wait_for_work_hello_resp : ClientState
  wait_for_command_response prepare_logout wait_logout shutdown_requested unnamed : ClientState

-- The messages that the machine tells apart; a greeting and a login carry the service menu.
pub data Message : Type 0 where
  greeting response command : ℕ → Message
  login : ℕ → Message
  hello logout : Message

pub data FsmErr : Type 0 where
  timed_out unexpected_message_type connection_failed : FsmErr
  callback_failed response_error : ℕ → FsmErr

pub record EppClient : Type 0 where
  pub current_state : ClientState
  pub should_login : Bool
  pub recent_greeting : ℕ
  pub last_greeting_time : ℕ
  -- SendChannel, WorkResponse and StatusChannel, in the order of sending
  pub sent : List Message
  pub work_responses : List Message
  pub statuses : List ClientState
  -- whether EPPSender runs, and so receives from senderStop; it also ends itself after an error
  pub sender_running : Bool

-- What the select of a handler takes.
pub data Event : Type 0 where
  stop_requested timeout logout_requested : Event
  received : Message → Event
  new_work : ℕ → Event

-- One call of a handler: the event, the time, whether net.Dial succeeds, and whether EPPSender has
-- met an error of EncodeEPP, Write or Flush since the call before, after which it returns.
pub record Input : Type 0 where
  pub event : Event
  pub now : ℕ
  pub dials : Bool
  pub sender_fails : Bool

-- What a handler does: it waits, since its select has no case for the event or a send blocks, or it
-- returns.
pub data Reply : Type 0 where
  blocks : Reply
  reply : ClientState → Option FsmErr → EppClient → Reply

-- loginCallback and logoutCallback, which may be nil.
abbrev pub Callback : Type 0
Callback = Option (Message → Option ℕ)

-- IsRunningEPPState.
unfoldable pub is_running_epp_state : ClientState → Bool
is_running_epp_state wait_for_work = true
is_running_epp_state wait_for_work_hello = true
is_running_epp_state wait_for_work_hello_resp = true
is_running_epp_state _ = false

abbrev send : EppClient → Message → EppClient
send c m = record c { sent = c.sent ++ m ∷ [] }

abbrev respond : EppClient → Message → EppClient
respond c m = record c { work_responses = c.work_responses ++ m ∷ [] }

unfoldable pub wait_for_command_response_state : Event → EppClient → Reply
wait_for_command_response_state stop_requested c = reply shutdown_requested none c
wait_for_command_response_state (received m) c = reply wait_for_work none (respond c m)
wait_for_command_response_state timeout c = reply prepare_logout (some timed_out) c
wait_for_command_response_state _ c = blocks

abbrev greet : EppClient → ℕ → ℕ → EppClient
greet c menu now = record c { recent_greeting = menu; last_greeting_time = now }

unfoldable pub wait_for_work_hello_resp_state : Event → ℕ → EppClient → Reply
wait_for_work_hello_resp_state stop_requested now c = reply shutdown_requested none c
wait_for_work_hello_resp_state (received (greeting menu)) now c =
    reply wait_for_work none (greet c menu now)
wait_for_work_hello_resp_state (received _) now c = reply wait_for_work_hello_resp none c
wait_for_work_hello_resp_state timeout now c = reply closed_connection (some timed_out) c
wait_for_work_hello_resp_state _ now c = blocks

unfoldable pub wait_for_work_hello_state : EppClient → Reply
wait_for_work_hello_state c = reply wait_for_work_hello_resp none (send c hello)

-- EPPConnTimeout * 80 / 100.
abbrev pub keepalive_period : ℕ
keepalive_period = 72000000000

abbrev wait_for_work_select : Event → EppClient → Reply
wait_for_work_select stop_requested c = reply shutdown_requested none c
wait_for_work_select (received m) c = reply wait_for_work none (respond c m)
wait_for_work_select timeout c = reply wait_for_work_hello (some timed_out) c
wait_for_work_select (new_work n) c = reply wait_for_command_response none (send c (command n))
wait_for_work_select logout_requested c =
    reply prepare_logout none (record c { should_login = false })

unfoldable pub wait_for_work_state : Event → ℕ → EppClient → Reply
wait_for_work_state e now c =
    if ltb keepalive_period (now - c.last_greeting_time)
    then reply wait_for_work_hello none c
    else wait_for_work_select e c

-- The error of a callback, or else the rest of the handler.
abbrev behind_callback : Callback → Message → EppClient → Reply → Reply
behind_callback none m c rest = rest
behind_callback (some f) m c rest = elim (f m) [
  | none ↦ rest
  | some e ↦ reply unnamed (some (callback_failed e)) c
]

abbrev login_reply : Message → EppClient → Reply
login_reply (response code) c =
    if is_error code
    then reply prepare_login (some (response_error code)) c
    else reply wait_for_work none c
login_reply _ c = reply wait_login none c

unfoldable pub wait_login_state : Callback → Event → EppClient → Reply
wait_login_state f stop_requested c = reply shutdown_requested none c
wait_login_state f (received m) c = behind_callback f m c (login_reply m c)
wait_login_state f timeout c = reply closed_connection (some timed_out) c
wait_login_state f _ c = blocks

abbrev logout_reply : Message → EppClient → Reply
logout_reply (response code) c =
    if is_error code
    then reply closed_connection (some (response_error code)) c
    else reply closed_connection none c
logout_reply _ c = reply closed_connection none c

unfoldable pub wait_logout_state : Callback → Event → EppClient → Reply
wait_logout_state f stop_requested c = reply shutdown_requested none c
wait_logout_state f (received m) c = behind_callback f m c (logout_reply m c)
wait_logout_state f timeout c = reply closed_connection (some timed_out) c
wait_logout_state f _ c = blocks

-- `c.senderStop <- true` on a channel without a buffer: EPPSender receives and ends, or nobody does.
unfoldable pub shutdown_state : EppClient → Reply
shutdown_state c =
    if c.sender_running
    then reply closed_connection none (record c { sender_running = false })
    else blocks

unfoldable pub prepare_login_state : EppClient → Reply
prepare_login_state c = reply wait_login none (send c (login c.recent_greeting))

unfoldable pub prepare_logout_state : EppClient → Reply
prepare_logout_state c = reply wait_logout none (send c logout)

unfoldable pub opened_connection_state : Event → ℕ → EppClient → Reply
opened_connection_state stop_requested now c = reply shutdown_requested none c
opened_connection_state (received (greeting menu)) now c =
    reply prepare_login none (greet c menu now)
opened_connection_state (received _) now c = reply unnamed (some unexpected_message_type) c
opened_connection_state timeout now c = reply prepare_pre_login_hello (some timed_out) c
opened_connection_state _ now c = blocks

unfoldable pub new_connection_state : Bool → EppClient → Reply
new_connection_state true c = reply opened_connection none (record c { sender_running = true })
new_connection_state false c = reply closed_connection (some connection_failed) c

unfoldable pub closed_connection_state : EppClient → Reply
closed_connection_state c =
    if c.should_login then reply new_connection none c else reply shutdown_requested none c

-- What one round of the loop of StartFSM comes to: StartFSM returns, or goes on, or waits for ever
-- on the event, or calls a nil function.
pub data Step : Type 0 where
  returns : Option FsmErr → EppClient → Step
  goes_on : EppClient → Step
  waits panics : Step

-- Whether EPPSender still runs when a handler is called.
abbrev pub sender_left : Input → EppClient → Bool
sender_left i c = if i.sender_fails then false else c.sender_running

-- The select at the head of the loop of StartFSM.
pub data Poll : Type 0 where
  nothing send_error stop_polled : Poll

abbrev poll_state : Poll → ClientState → ClientState
poll_state stop_polled s = shutdown_requested
poll_state _ s = s

-- The next rounds, where StartFSM goes on.
abbrev pub then_run : (EppClient → Step) → Step → Step
then_run next (goes_on c) = next c
then_run next other = other

module _ (login_callback logout_callback : Callback) where
  -- fsmStateMap; `none` is a state without a handler.
  unfoldable pub handler : ClientState → Input → EppClient → Option Reply
  unfolding closed_connection_state new_connection_state opened_connection_state prepare_login_state
      wait_login_state wait_for_work_state wait_for_work_hello_state wait_for_work_hello_resp_state
      wait_for_command_response_state prepare_logout_state wait_logout_state shutdown_state
  handler closed_connection i c = some (closed_connection_state c)
  handler new_connection i c = some (new_connection_state i.dials c)
  handler opened_connection i c = some (opened_connection_state i.event i.now c)
  handler prepare_login i c = some (prepare_login_state c)
  handler wait_login i c = some (wait_login_state login_callback i.event c)
  handler wait_for_work i c = some (wait_for_work_state i.event i.now c)
  handler wait_for_work_hello i c = some (wait_for_work_hello_state c)
  handler wait_for_work_hello_resp i c = some (wait_for_work_hello_resp_state i.event i.now c)
  handler wait_for_command_response i c = some (wait_for_command_response_state i.event c)
  handler prepare_logout i c = some (prepare_logout_state c)
  handler wait_logout i c = some (wait_logout_state logout_callback i.event c)
  handler shutdown_requested i c = some (shutdown_state c)
  handler prepare_pre_login_hello i c = none
  handler unnamed i c = none

  abbrev moved : ClientState → EppClient → EppClient
  moved s c = record c { current_state = s; statuses = c.statuses ++ s ∷ [] }

  abbrev after_reply : ClientState → Option FsmErr → EppClient → Step
  after_reply closed_connection e c = returns none c
  after_reply s none c = goes_on (moved s c)
  after_reply s (some e) c = returns (some e) (moved s c)

  abbrev replied : Option Reply → Step
  replied none = panics
  replied (some blocks) = waits
  replied (some (reply s e c)) = after_reply s e c

  -- One round of the loop of StartFSM.
  unfoldable pub fsm_step : Poll → Input → EppClient → Step
  unfolding handler
  fsm_step p i c =
      let s = poll_state p c.current_state in
      replied (handler s i (record c { current_state = s; sender_running = sender_left i c }))

  -- StartFSM over the rounds that are given.
  unfoldable pub run_fsm : List (Poll × Input) → EppClient → Step
  unfolding fsm_step
  run_fsm [] c = goes_on c
  run_fsm ((p, i) ∷ rest) c = then_run (λ d. run_fsm rest d) (fsm_step p i c)

  -- The start of StartFSM.
  unfoldable pub start_fsm : List (Poll × Input) → EppClient → Step
  unfolding run_fsm
  start_fsm rounds c = run_fsm rounds (record c { current_state = closed_connection })
