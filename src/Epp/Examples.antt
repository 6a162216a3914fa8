-- ===== src/Epp/Examples.antt =====
-- The theorems on epp/ at concrete inputs.
mod Sessions
use go_registrar.Prelude.{
  ℕ, ◌^◌, ◌<◌, ◌≡◌, ◌≢◌, ◌↔◌, refl, true, false, none, some, List, [], ◌∷◌, ◌++◌, arith, take,
  length, Any, leb, if◌then◌else◌,
}
use go_registrar.Epp.Response.{is_error}
use go_registrar.Epp.Wire.{
  big_endian, read_big_endian, more, panics, token, wire_split, encode_epp, rest_of, too_long,
  max_token_size, scan,
}
use go_registrar.Epp.Wire.Frame.{
  frame, wire_split-panics_iff, wire_split-encode_epp, stream, scan-stream,
}
use go_registrar.Epp.Client.{
  closed_connection, shutdown_requested, greeting, response, EppClient, stop_requested, timeout,
  received, new_work, Event, Input, Step, goes_on, returns, waits, panics, Poll, nothing,
  stop_polled, fsm_step, start_fsm,
}
use go_registrar.Epp.Client.Protocol.{InOrder, start_fsm-InOrder, start_fsm-handled}
use go_registrar.Epp.Client.Shutdown.{IsAccepted, start_fsm-stops, start_fsm-IsAccepted}

abbrev hello_text : List ℕ
hello_text = 60 ∷ 47 ∷ 62 ∷ []

wire_split-panics_iff_example :
    (wire_split (0 ∷ 0 ∷ 0 ∷ 2 ∷ []) ≡ panics)
    ↔ ((n : ℕ) × (read_big_endian (take 4 (0 ∷ 0 ∷ 0 ∷ 2 ∷ [])) ≡ some n) × (n < 4))
wire_split-panics_iff_example = wire_split-panics_iff (0 ∷ 0 ∷ 0 ∷ 2 ∷ []) (omega arith)

wire_split-encode_epp_example :
    (out : List ℕ) × (encode_epp (63 ∷ []) (some hello_text) ≡ some out)
    × (wire_split (out ++ 0 ∷ []) ≡ token (length out) (63 ∷ hello_text))
wire_split-encode_epp_example = wire_split-encode_epp (63 ∷ []) hello_text (0 ∷ []) (omega arith)

abbrev two_messages : List (List ℕ)
two_messages = hello_text ∷ (1 ∷ 2 ∷ []) ∷ []

scan-stream_example :
    scan 3 (stream two_messages (0 ∷ 0 ∷ []))
    ≡ (two_messages, if leb max_token_size 2 then too_long else rest_of (0 ∷ 0 ∷ []))
scan-stream_example = scan-stream two_messages (0 ∷ 0 ∷ []) (omega arith, (omega arith, tt)) half
  where
    half : wire_split (0 ∷ 0 ∷ []) ≡ more
    half = unfold wire_split in refl

-- A client that connects, logs in and takes a command.
abbrev fresh_client : EppClient
fresh_client = record {
  current_state = closed_connection;
  should_login = true;
  recent_greeting = 0;
  last_greeting_time = 0;
  sent = [];
  work_responses = [];
  statuses = [];
  sender_running = false;
}

abbrev on : Event → Poll × Input
on e = (nothing, record { event = e; now = 5; dials = true; sender_fails = false })

abbrev login_rounds : List (Poll × Input)
login_rounds =
    on timeout
    ∷ on timeout
    ∷ on (received (greeting 3))
    ∷ on timeout
    ∷ on (received (response 1000))
    ∷ on (new_work 8)
    ∷ []

abbrev last_client : Step → EppClient
last_client (goes_on c) = c
last_client _ = fresh_client

abbrev working_client : EppClient
unfolding start_fsm is_error
working_client = last_client (start_fsm none none login_rounds fresh_client)

reaches_work : start_fsm none none login_rounds fresh_client ≡ goes_on working_client
unfolding start_fsm working_client is_error
reaches_work = refl

start_fsm-InOrder_example : InOrder working_client working_client.current_state
start_fsm-InOrder_example =
    start_fsm-InOrder none none login_rounds fresh_client working_client refl reaches_work

start_fsm-handled_example : start_fsm none none login_rounds fresh_client ≢ panics
start_fsm-handled_example = start_fsm-handled none none login_rounds fresh_client refl

abbrev stop_input : Input
stop_input = record { event = stop_requested; now = 6; dials = true; sender_fails = false }

start_fsm-stops_example : fsm_step none none stop_polled stop_input working_client ≡ (
    if stop_input.sender_fails
    then waits
    else returns none
        (record working_client { current_state = shutdown_requested; sender_running = false }))
unfolding working_client is_error
start_fsm-stops_example =
    start_fsm-stops none none login_rounds fresh_client working_client stop_input refl
      (refl, (refl, (refl, (refl, (refl, (refl, tt)))))) reaches_work refl

start_fsm-IsAccepted_example : Any IsAccepted login_rounds
unfolding working_client is_error
start_fsm-IsAccepted_example =
    start_fsm-IsAccepted none none login_rounds fresh_client working_client reaches_work refl
