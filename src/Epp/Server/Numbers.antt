-- ===== src/Epp/Server/Numbers.antt =====
-- The transaction ids of the responses of the EPP server (epp/server/server.go).
use go_registrar.Prelude.{
  ℕ, ◌+◌, ◌≤◌, ◌≡◌, ◌⊎◌, inl, inr, refl, String, Bool, Option, none, some, List, [], ◌∷◌, ◌++◌,
  arith, Bool-cases,
}
use go_registrar.Registrar.Store.{next_fault}
use go_registrar.Epp.Server.{
  LoginObject, ServerDomain, EppServer, ServerState, prepare_greeting, waiting_for_client,
  waiting_for_command, close_connection, Written, greeting_written, response_written, Connection,
  Request, login, check, info, update_domain, domain_by_name, write_response, try_login,
  availabilities, handle_waiting_for_client, generate_check_response, sponsored, not_sponsored,
  handle_domain_update, handle_waiting_for_command, handle_round, handle_connection,
}
use go_registrar.Epp.Server.Session.{Becomes, run-keeps}

-- The responses are numbered in order, from `low` on and below `high`.
abbrev pub Ascends : ℕ → List Written → ℕ → Type 0
Ascends low [] high = low ≤ high
Ascends low (greeting_written ∷ rest) high = Ascends low rest high
Ascends low (response_written code connection number checks ∷ rest) high =
    (low ≤ number) × Ascends (number + 1) rest high

Ascends-weaken :
    (l : List Written) (low high later : ℕ)
    → high ≤ later
    → Ascends low l high
    → Ascends low l later
Ascends-weaken [] low high later h a = omega arith
Ascends-weaken (greeting_written ∷ l) low high later h a = Ascends-weaken l low high later h a
Ascends-weaken (response_written code connection number checks ∷ l) low high later h (n, a) =
    (n, Ascends-weaken l (number + 1) high later h a)

Ascends-greeting :
    (l : List Written) (low high : ℕ)
    → Ascends low l high
    → Ascends low (l ++ greeting_written ∷ []) high
Ascends-greeting [] low high a = a
Ascends-greeting (greeting_written ∷ l) low high a = Ascends-greeting l low high a
Ascends-greeting (response_written code connection number checks ∷ l) low high (n, a) =
    (n, Ascends-greeting l (number + 1) high a)

Ascends-response :
    (l : List Written) (low high code connection : ℕ) (checks : List (String × Bool))
    → Ascends low l high
    → Ascends low (l ++ response_written code connection high checks ∷ []) (high + 1)
Ascends-response [] low high code connection checks a = (a, omega arith)
Ascends-response (greeting_written ∷ l) low high code connection checks a =
    Ascends-response l low high code connection checks a
Ascends-response (response_written c k number q ∷ l) low high code connection checks (n, a) =
    (n, Ascends-response l (number + 1) high code connection checks a)

-- What a round may write: nothing, the greeting, or one response with the next number.
abbrev Extends : Connection → Connection → Type 0
Extends c d =
    ((d.written ≡ c.written) × (c.txid ≤ d.txid))
    ⊎ ((d.written ≡ c.written ++ greeting_written ∷ []) × (d.txid ≡ c.txid))
    ⊎ ((code : ℕ) × (checks : List (String × Bool)) × (d.written
          ≡ c.written ++ response_written code c.connection_id c.txid checks ∷ [])
        × (d.txid ≡ c.txid + 1))

write_response-Extends :
    (code : ℕ) (checks : List (String × Bool)) (c : Connection)
    → Extends c (write_response code checks c).1
unfolding write_response
write_response-Extends code checks c = elim (Bool-cases (next_fault c.write_faults).0) [
  | inl e ↦ inl (rw e refl, rw e (omega arith))
  | inr e ↦ inr (inr (code, checks, rw e refl, rw e refl))
]

Extends-Ascends :
    (c d : Connection) → Extends c d → Ascends 1 c.written c.txid → Ascends 1 d.written d.txid
Extends-Ascends c d (inl (w, n)) a = rw w (Ascends-weaken c.written 1 c.txid d.txid n a)
Extends-Ascends c d (inr (inl (w, n))) a = rw (w, n) (Ascends-greeting c.written 1 c.txid a)
Extends-Ascends c d (inr (inr (code, checks, w, n))) a =
    rw (w, n) (Ascends-response c.written 1 c.txid code c.connection_id checks a)

module _ (srv : EppServer) (info_code : String → ℕ) where
  login-Extends :
      (id given : String) (t : ServerState) (c d : Connection)
      → Becomes srv info_code (some (try_login srv id given c)) t d
      → Extends c d
  unfolding try_login
  login-Extends id given t c d h = ground (
    arith,
    write_response-Extends 1000 [] c,
    write_response-Extends 2501 [] c,
    write_response-Extends 2200 [] c,
  )

  client-Extends :
      (m : Option Request) (t : ServerState) (c d : Connection)
      → Becomes srv info_code (some (handle_waiting_for_client srv m c)) t d
      → Extends c d
  unfolding handle_waiting_for_client
  client-Extends none t c d h = cc
  client-Extends (some (login id given)) t c d h = login-Extends id given t c d h
  client-Extends (some m) t c d h = ground (arith, write_response-Extends 2002 [] c)

  sponsored-Extends :
      (domain : ServerDomain) (l : Option LoginObject) (t : ServerState) (c d : Connection)
      → Becomes srv info_code (some (sponsored srv domain l c)) t d
      → Extends c d
  unfolding sponsored
  sponsored-Extends domain l t c d h = ground (arith, write_response-Extends 1000 [] c)

  update-Extends :
      (name : Option String) (t : ServerState) (c d : Connection)
      → Becomes srv info_code (some (handle_domain_update srv name c)) t d
      → Extends c d
  unfolding handle_domain_update
  update-Extends none t c d h = ground arith
  update-Extends (some name) t c d h = split (domain_by_name srv.domains name) h
    where
      split :
          (o : Option ServerDomain)
          → Becomes srv info_code
              (some (elim o [
                | none ↦ not_sponsored srv (write_response 2303 [] c)
                | some x ↦ sponsored srv x c.logged_in c
              ]))
              t
              d
          → Extends c d
      split none e = ground (arith, write_response-Extends 2303 [] c)
      split (some x) e = sponsored-Extends x c.logged_in t c d e

  command-Extends :
      (m : Option Request) (t : ServerState) (c d : Connection)
      → Becomes srv info_code (some (handle_waiting_for_command srv info_code m c)) t d
      → Extends c d
  unfolding handle_waiting_for_command generate_check_response
  command-Extends none t c d h = cc
  command-Extends (some (check kind has_id names)) t c d h =
      ground (arith, write_response-Extends 1000 (availabilities srv kind names) c)
  command-Extends (some (info name)) t c d h =
      ground (arith, write_response-Extends (info_code name) [] c)
  command-Extends (some (update_domain name)) t c d h = update-Extends name t c d h
  command-Extends (some m) t c d h = ground (arith, write_response-Extends 1500 [] c)

  round-Ascends :
      (s t : ServerState) (m : Option Request) (c d : Connection)
      → Ascends 1 c.written c.txid
      → Becomes srv info_code (handle_round srv info_code s m c) t d
      → Ascends 1 d.written d.txid
  unfolding handle_round
  round-Ascends prepare_greeting t m c d a h =
      let e : Extends c d = ground arith in Extends-Ascends c d e a
  round-Ascends waiting_for_client t m c d a h = Extends-Ascends c d (client-Extends m t c d h) a
  round-Ascends waiting_for_command t m c d a h = Extends-Ascends c d (command-Extends m t c d h) a
  round-Ascends close_connection t m c d a h = cc

  -- The responses of a connection that starts with number 1 and nothing written are numbered in
  -- order: each number is larger than those before it, and below the next one that will be given,
  -- also where writes failed and their numbers were lost.
  pub handle_connection-Ascends :
      (ms : List (Option Request)) (t : ServerState) (c d : Connection)
      → c.written ≡ []
      → c.txid ≡ 1
      → handle_connection srv info_code ms prepare_greeting c ≡ some (t, d)
      → Ascends 1 d.written d.txid
  handle_connection-Ascends ms t c d blank first e =
      run-keeps srv info_code (λ s a. Ascends 1 a.written a.txid) round-Ascends ms prepare_greeting
        t c d (rw (blank, first) (omega arith)) e
