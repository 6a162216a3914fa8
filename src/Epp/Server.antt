-- ===== src/Epp/Server.antt =====
-- epp/server/server.go: the session of the EPP server, HandleWaitingForClient,
-- HandleWaitingForCommand and Handle, with checks and domain updates. Of a response its result code,
-- the numbers of its transaction id and the availabilities of a check are kept; which writes fail is
-- a list. The contents of info responses are not modelled: their result code is an argument.
pub mod Check
pub mod Session
pub mod Numbers
use go_registrar.Prelude.{
  ℕ, ◌+◌, String, Bool, true, false, not, ◌&&◌, ◌||◌, Option, none, some, List, [], ◌∷◌, ◌++◌, any,
  leb, str_eq, if◌then◌else◌,
}
use go_registrar.Registrar.Store.{next_fault}

pub record LoginObject : Type 0 where
  pub login_id : String
  pub password : String
  pub registrar_id : String

pub record ServerDomain : Type 0 where
  pub domain_name : String
  pub sponsoring_client_id : String

-- EPPServer.
pub record EppServer : Type 0 where
  pub logins : List LoginObject
  pub max_failed_login_attempts : ℕ
  pub contacts : List String
  pub hosts : List String
  pub domains : List ServerDomain

pub data ServerState : Type 0 where
  prepare_greeting waiting_for_client waiting_for_command close_connection : ServerState

-- What is written: the greeting, or a response with its code, connection and number, and for a check
-- each name with whether it is available.
pub data Written : Type 0 where
  greeting_written : Written
  response_written : ℕ → ℕ → ℕ → List (String × Bool) → Written

-- EPPServerConnection.
pub record Connection : Type 0 where
  pub failed_login_attempts : ℕ
  pub txid : ℕ
  pub connection_id : ℕ
  pub logged_in : Option LoginObject
  pub written : List Written
  pub write_faults : List Bool

pub data CheckKind : Type 0 where
  check_contact check_host check_domain : CheckKind

-- The messages that the server tells apart.
pub data Request : Type 0 where
  login : String → String → Request
  logout : Request
  -- whether the message has a transaction id, and the names
  check : CheckKind → Bool → List String → Request
  info : String → Request
  update_contact update_host : Request
  -- the name of the domain, if there is an update object
  update_domain : Option String → Request
  -- whether it queries a contact or a domain
  transfer : Bool → Request
  other_request : Request

pub data ServerErr : Type 0 where
  write_failed no_transaction_id not_implemented unhandled_transfer client_timeout : ServerErr

-- What a handler comes to: it returns, or dereferences a nil pointer.
pub data Handled : Type 0 where
  handled : ServerState → Option ServerErr → Connection → Handled
  nil_pointer : Handled

-- Conf.Logins[id] on a map: an id that is not in it gives the zero value.
unfoldable pub login_of : List LoginObject → String → LoginObject
login_of [] k = record { login_id = ""; password = ""; registrar_id = "" }
login_of (l ∷ rest) k = if str_eq l.login_id k then l else login_of rest k

unfoldable pub domain_by_name : List ServerDomain → String → Option ServerDomain
domain_by_name [] k = none
domain_by_name (d ∷ rest) k = if str_eq d.domain_name k then some d else domain_by_name rest k

-- Whether ContactByID, HostByName and DomainByName find the name.
unfoldable pub is_found : EppServer → CheckKind → String → Bool
is_found srv check_contact k = any (λ n. str_eq n k) srv.contacts
is_found srv check_host k = any (λ n. str_eq n k) srv.hosts
is_found srv check_domain k = any (λ d. str_eq d.domain_name k) srv.domains

unfoldable pub availabilities : EppServer → CheckKind → List String → List (String × Bool)
unfolding is_found
availabilities srv kind [] = []
availabilities srv kind (k ∷ rest) = (k, not (is_found srv kind k)) ∷ availabilities srv kind rest

-- GetNextTransactionID and WriteEPP on a response: whether it was written.
unfoldable pub write_response : ℕ → List (String × Bool) → Connection → Bool × Connection
unfolding next_fault
write_response code checks c =
    let (fails, rest) = next_fault c.write_faults in
    let line = response_written code c.connection_id c.txid checks in
    if fails then (false, record c { txid = c.txid + 1; write_faults = rest }) else (
      true,
      record c { txid = c.txid + 1; write_faults = rest; written = c.written ++ line ∷ [] },
    )

abbrev write_or : ServerState → ServerState → Bool × Connection → Handled
write_or before after (true, c) = handled after none c
write_or before after (false, c) = handled before (some write_failed) c

abbrev login_accepted : LoginObject → Bool × Connection → Handled
login_accepted l (true, c) = handled waiting_for_command none (record c { logged_in = some l })
login_accepted l (false, c) = handled waiting_for_client (some write_failed) c

abbrev login_refused : Bool × Connection → Handled
login_refused (true, c) =
    handled waiting_for_client none
      (record c { failed_login_attempts = c.failed_login_attempts + 1 })
login_refused (false, c) = handled waiting_for_client (some write_failed) c

module _ (srv : EppServer) where
  try_login : String → String → Connection → Handled
  unfolding login_of write_response
  try_login id given c =
      let l = login_of srv.logins id in
      if str_eq l.password given
      then login_accepted l (write_response 1000 [] c)
      else if leb srv.max_failed_login_attempts c.failed_login_attempts
      then write_or waiting_for_client close_connection (write_response 2501 [] c)
      else login_refused (write_response 2200 [] c)

  -- HandleWaitingForClient; `none` is the timeout.
  unfoldable pub handle_waiting_for_client : Option Request → Connection → Handled
  unfolding try_login
  handle_waiting_for_client none c = handled waiting_for_client (some client_timeout) c
  handle_waiting_for_client (some (login id given)) c = try_login id given c
  handle_waiting_for_client (some _) c =
      write_or waiting_for_client close_connection (write_response 2002 [] c)

  -- generateCheckResponseObject.
  generate_check_response : CheckKind → Bool → List String → Connection → Handled
  unfolding write_response availabilities
  generate_check_response kind false names c =
      handled waiting_for_command (some no_transaction_id) c
  generate_check_response kind true names c =
      write_or waiting_for_command waiting_for_command
        (write_response 1000 (availabilities srv kind names) c)

  sponsored : ServerDomain → Option LoginObject → Connection → Handled
  unfolding write_response
  sponsored d none c = nil_pointer
  sponsored d (some l) c =
      if str_eq d.sponsoring_client_id l.registrar_id
      then write_or waiting_for_command waiting_for_command (write_response 1000 [] c)
      else handled waiting_for_command none (record c { txid = c.txid + 1 })

  -- A domain that is not found is answered, and then dereferenced.
  abbrev not_sponsored : Bool × Connection → Handled
  not_sponsored (true, c) = nil_pointer
  not_sponsored (false, c) = handled waiting_for_command (some write_failed) c

  -- handleDomainUpdate.
  handle_domain_update : Option String → Connection → Handled
  unfolding domain_by_name sponsored write_response
  handle_domain_update none c = handled waiting_for_command none (record c { txid = c.txid + 1 })
  handle_domain_update (some name) c = elim (domain_by_name srv.domains name) [
    | none ↦ not_sponsored (write_response 2303 [] c)
    | some d ↦ sponsored d c.logged_in c
  ]

  module _ (info_code : String → ℕ) where
    -- HandleWaitingForCommand.
    unfoldable pub handle_waiting_for_command : Option Request → Connection → Handled
    unfolding write_response generate_check_response handle_domain_update
    handle_waiting_for_command none c = handled waiting_for_command (some client_timeout) c
    handle_waiting_for_command (some logout) c =
        write_or waiting_for_command close_connection (write_response 1500 [] c)
    handle_waiting_for_command (some (check kind has_id names)) c =
        generate_check_response kind has_id names c
    handle_waiting_for_command (some (info name)) c =
        write_or waiting_for_command waiting_for_command (write_response (info_code name) [] c)
    handle_waiting_for_command (some update_contact) c =
        handled waiting_for_command (some not_implemented) c
    handle_waiting_for_command (some update_host) c =
        handled waiting_for_command (some not_implemented) c
    handle_waiting_for_command (some (update_domain name)) c = handle_domain_update name c
    handle_waiting_for_command (some (transfer true)) c =
        handled waiting_for_command (some unhandled_transfer) c
    handle_waiting_for_command (some _) c = handled waiting_for_command none c

    abbrev greeted : Bool → Connection → Handled
    greeted true c = handled prepare_greeting (some write_failed) c
    greeted false c =
        handled waiting_for_client none (record c { written = c.written ++ greeting_written ∷ [] })

    -- One round of the loop of Handle; `none` is its return.
    unfoldable pub handle_round : ServerState → Option Request → Connection → Option Handled
    unfolding next_fault handle_waiting_for_client handle_waiting_for_command
    handle_round prepare_greeting m c =
        let (fails, rest) = next_fault c.write_faults in
        some (greeted fails (record c { write_faults = rest }))
    handle_round waiting_for_client m c = some (handle_waiting_for_client m c)
    handle_round waiting_for_command m c = some (handle_waiting_for_command m c)
    handle_round close_connection m c = none

    abbrev pub next_round :
        (ServerState → Connection → Option (ServerState × Connection))
        → Option Handled
        → Option (ServerState × Connection)
    next_round next (some (handled s none c)) = next s c
    next_round next _ = none

    -- Handle over the messages that arrive (`none` for a timeout), while it goes on.
    unfoldable pub handle_connection :
        List (Option Request) → ServerState → Connection → Option (ServerState × Connection)
    unfolding handle_round
    handle_connection [] s c = some (s, c)
    handle_connection (m ∷ rest) s c =
        next_round (λ t d. handle_connection rest t d) (handle_round s m c)
