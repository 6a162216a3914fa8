-- ===== src/Epp/Examples/Sessions.antt =====
-- The theorems on the EPP server (epp/server/server.go) at concrete inputs.
use go_registrar.Prelude.{ℕ, ◌≤◌, ◌≡◌, refl, String, true, Option, none, some, List, [], ◌∷◌, Any}
use go_registrar.Epp.Server.{
  EppServer, ServerState, prepare_greeting, waiting_for_command, Connection, check_host, Request,
  login, check, availabilities, handle_connection,
}
use go_registrar.Epp.Server.Check.{Answers, availabilities-Answers}
use go_registrar.Epp.Server.Session.{
  IsGoodLogin, handle_connection-IsGoodLogin, handle_connection-attempts,
}
use go_registrar.Epp.Server.Numbers.{Ascends, handle_connection-Ascends}

abbrev registry : EppServer
registry = record {
  logins = record { login_id = "reg"; password = "secret"; registrar_id = "r" } ∷ [];
  max_failed_login_attempts = 2;
  contacts = [];
  hosts = "ns1.example" ∷ [];
  domains = [];
}

abbrev fresh_connection : Connection
fresh_connection = record {
  failed_login_attempts = 0;
  txid = 1;
  connection_id = 1;
  logged_in = none;
  written = [];
  write_faults = [];
}

abbrev codes : String → ℕ
codes name = 1000

-- A failed login, a good one and a check.
abbrev messages : List (Option Request)
messages =
    none
    ∷ some (login "reg" "wrong")
    ∷ some (login "reg" "secret")
    ∷ some (check check_host true ("ns1.example" ∷ "ns2.example" ∷ []))
    ∷ []

abbrev connection_of : Option (ServerState × Connection) → Connection
connection_of none = fresh_connection
connection_of (some (s, c)) = c

abbrev at_the_end : Connection
unfolding handle_connection
at_the_end =
    connection_of (handle_connection registry codes messages prepare_greeting fresh_connection)

gets_there :
    handle_connection registry codes messages prepare_greeting fresh_connection
    ≡ some (waiting_for_command, at_the_end)
unfolding handle_connection at_the_end
gets_there = refl

availabilities-Answers_example :
    Answers
      ("ns1.example" ∷ [])
      ("ns1.example" ∷ "ns2.example" ∷ [])
      (availabilities registry check_host ("ns1.example" ∷ "ns2.example" ∷ []))
availabilities-Answers_example =
    availabilities-Answers registry check_host ("ns1.example" ∷ "ns2.example" ∷ [])

handle_connection-IsGoodLogin_example : Any (IsGoodLogin registry codes) messages
handle_connection-IsGoodLogin_example =
    handle_connection-IsGoodLogin registry codes messages fresh_connection at_the_end gets_there

handle_connection-attempts_example : at_the_end.failed_login_attempts ≤ 2
handle_connection-attempts_example =
    handle_connection-attempts registry codes messages waiting_for_command fresh_connection
      at_the_end refl gets_there

handle_connection-Ascends_example : Ascends 1 at_the_end.written at_the_end.txid
handle_connection-Ascends_example =
    handle_connection-Ascends registry codes messages waiting_for_command fresh_connection
      at_the_end refl refl gets_there
