-- ===== src/Client/Examples.antt =====
-- The theorems on the client (client/client.go) at a small server: a trust anchor (key 1) approved an
-- approver with key 7 and a set of that approver, who approved a domain. A second set of the approver
-- is approved by key 9, which nobody knows.
use go_registrar.Prelude.{
  ℕ, ◌≡◌, ◌<◌, refl, sym, Bool, true, false, Option, none, some, List, [], ◌∷◌, any, ◌==◌, leb,
  str_eq, arith, inl, inr, Bool-cases, All, if◌then◌else◌,
}
use mathlib.Core.Path.{subst}
use go_registrar.Prelude.Fuel.{Ends}
use go_registrar.Registrar.State.{active}
use go_registrar.Registrar.Model.{action_approved, approver_set_type, Attestation}
use go_registrar.Registrar.Signature.{Crypto}
use go_registrar.Registrar.Compare.Approvers.{
  compare_approver, ApproverRevisionExport, ApproverSetRevisionExport,
}
use go_registrar.Registrar.Compare.Domains.{ContactExportShort, DomainRevisionExport}
use go_registrar.Registrar.Compare.Domains.Exports.{compare_domain_export}
use go_registrar.Client.Trust.{
  ApprovalExport, ChangeRequestExport, ApproverExportFull, ApproverSetExportFull, verified, Server,
  Json,
}
use go_registrar.Client.Trust.Sets.{Keyed, verify_change_request}
use go_registrar.Client.Trust.Rooted.{Vouched, IsVouched}
use go_registrar.Client.Trust.Sets.Chain.{verify_change_request-Vouched}
use go_registrar.Client.Trust.Sets.Ends.{IsChronological, verify_change_request-Ends}
use go_registrar.Client.Trust.Objects.{
  DomainExport, ObjectServer, ObjectJson, pending_domain, get_verified_domain,
  get_verified_domain-IsVouched,
}

-- A signature is the number of a key and that of the object which its text approves.
abbrev as_block : List ℕ → Option (List ℕ)
as_block [] = none
as_block (k ∷ l) = some (k ∷ l)

abbrev signed_by : List ℕ → List ℕ → Bool
signed_by keys [] = false
signed_by keys (k ∷ l) = any (λ x. x == k) keys

abbrev attests : ℕ → Attestation ℕ
attests n = record {
  approval_id = 0;
  export_rev = n;
  action = action_approved;
  object_type = approver_set_type;
}

abbrev attested : List ℕ → Option (Attestation ℕ)
attested (k ∷ n ∷ l) = some (attests n)
attested _ = none

abbrev pgp : Crypto
pgp = record {
  Block = List ℕ;
  Entity = ℕ;
  Raw = ℕ;
  decode = as_block;
  read_entity = λ s. if str_eq s "key 7" then some 7 else none;
  check_detached = signed_by;
  unmarshal = attested;
  blank = attests 0;
}

abbrev approver_7 : ApproverRevisionExport
approver_7 = record {
  id = 70;
  approver_id = 7;
  desired_state = active;
  name = "seven";
  email_address = "";
  role = "";
  username = "";
  employee_id = 7;
  department = "";
  is_admin = false;
  saved_notes = "";
  required_approver_sets = [];
  informed_approver_sets = [];
  fingerprint = "";
  public_key = "key 7";
  change_request_id = 11;
  issue_cr = "";
  notes = "";
}

abbrev set_of : ℕ → ℕ → ℕ → ApproverSetRevisionExport
set_of k n crid = record {
  id = k;
  approver_set_id = n;
  desired_state = active;
  title = "team";
  description = "";
  approvers = record { approver_id = 7; approver_state = active } ∷ [];
  saved_notes = "";
  change_request_id = crid;
  issue_cr = "";
  notes = "";
  required_approver_sets = [];
  informed_approver_sets = [];
}

abbrev contact_4 : ContactExportShort
contact_4 = record { contact_id = 4; contact_state = active }

abbrev domain_3 : DomainRevisionExport
domain_3 = record {
  id = 90;
  domain_id = 3;
  revision_state = active;
  desired_state = active;
  owners = "us";
  class = "low";
  domain_registrant = contact_4;
  domain_admin_contact = contact_4;
  domain_tech_contact = contact_4;
  domain_billing_contact = contact_4;
  client_delete_prohibited_status = true;
  server_delete_prohibited_status = false;
  client_transfer_prohibited_status = true;
  server_transfer_prohibited_status = false;
  client_update_prohibited_status = true;
  server_update_prohibited_status = false;
  client_renew_prohibited_status = false;
  server_renew_prohibited_status = false;
  client_hold_status = false;
  server_hold_status = false;
  saved_notes = "";
  issue_cr = "";
  notes = "";
  hostnames = [];
  ds_data_entries = [];
  required_approver_sets = [];
  informed_approver_sets = [];
  change_request_id = 13;
}

abbrev approver_export : ApproverExportFull
approver_export = record { current_revision = approver_7; pending_revision = approver_7 }

abbrev first_set : ApproverSetExportFull
first_set = record { current_revision = set_of 20 1 12; pending_revision = set_of 20 1 12 }

abbrev second_set : ApproverSetExportFull
second_set = record { current_revision = set_of 30 2 14; pending_revision = set_of 30 2 14 }

abbrev domain_export : DomainExport
domain_export = record { current_revision = domain_3; pending_revision = domain_3 }

abbrev approved_by : List ℕ → ℕ → ApprovalExport
approved_by sig t = record {
  is_final_approval = true;
  approver_set_id = 1;
  signature = sig;
  created_at = t;
}

abbrev request_of : List ℕ → ℕ → ChangeRequestExport
request_of sig t = record { approvals = approved_by sig t ∷ []; created_at = t }

abbrev requests : ℕ → Option ChangeRequestExport
requests id =
    if id == 11
    then some (request_of (1 ∷ 1 ∷ []) 5)
    else if id == 12
    then some (request_of (1 ∷ 2 ∷ []) 7)
    else if id == 13
    then some (request_of (7 ∷ 3 ∷ []) 20)
    else if id == 14
    then some (request_of (9 ∷ 4 ∷ []) 30)
    else none

abbrev server : Server
server = record {
  get_change_request = requests;
  get_approver_set_at = λ id t. if leb 8 t then some first_set else none;
  get_approver_at = λ id t. if leb 6 t then some approver_export else none;
}

abbrev json : Json ℕ
json = record {
  unmarshal_approver = λ n. if n == 1 then some approver_export else none;
  unmarshal_approver_set =
      λ n. if n == 2 then some first_set else if n == 4 then some second_set else none;
}

abbrev object_server : ObjectServer
object_server = record {
  get_domain_at = λ id t. some domain_export;
  get_contact_at = λ id t. none;
  get_host_at = λ id t. none;
}

abbrev object_json : ObjectJson ℕ
object_json = record {
  unmarshal_domain = λ n. if n == 3 then some domain_export else none;
  unmarshal_contact = λ n. none;
  unmarshal_host = λ n. none;
}

abbrev anchors : List ℕ
anchors = 1 ∷ []

domain_request_verified : verify_change_request pgp anchors json server 9 13 ≡ some (verified [] 3)
unfolding verify_change_request compare_approver
domain_request_verified = refl

domain_verified :
    get_verified_domain pgp anchors json server object_json object_server 9 3 40
    ≡ some (verified [] domain_export)
unfolding get_verified_domain compare_domain_export compare_approver
domain_verified = refl

abbrev keyed_set : Keyed pgp
keyed_set = record {
  revision = set_of 20 1 12;
  verified_approvers = approver_export ∷ [];
  keys = 7 ∷ [];
}

-- The change requests of what the server gives.
first_set-earlier :
    (t : ℕ) (cr : ChangeRequestExport)
    → leb 8 t ≡ true
    → requests 12 ≡ some cr
    → (cr.created_at < t) × All (λ a. a.created_at < t) cr.approvals
first_set-earlier t cr h e =
    let q : request_of (1 ∷ 2 ∷ []) 7 ≡ cr = cc e in
    let l : 7 < t = ground arith in
    subst
      (λ (u : ChangeRequestExport). (u.created_at < t) × All (λ a. a.created_at < t) u.approvals) q
      (l, (l, tt))

approver_earlier :
    (t : ℕ) (cr : ChangeRequestExport)
    → leb 6 t ≡ true
    → requests 11 ≡ some cr
    → All (λ a. a.created_at < t) cr.approvals
approver_earlier t cr h e =
    let q : request_of (1 ∷ 1 ∷ []) 5 ≡ cr = cc e in
    let l : 5 < t = ground arith in
    subst (λ (u : ChangeRequestExport). All (λ a. a.created_at < t) u.approvals) q (l, tt)

server-IsChronological : IsChronological server
server-IsChronological = record {
  of_sets = λ id t s cr e q. elim (Bool-cases (leb 8 t)) [
    | inl h ↦
        let same : first_set ≡ s = ground arith in
        first_set-earlier t cr h (
          subst
            (λ (u : ApproverSetExportFull). requests u.current_revision.change_request_id ≡ some cr)
            (sym same) q)
    | inr h ↦ absurd (ground arith)
  ];
  of_approvers = λ id t x cr e q. elim (Bool-cases (leb 6 t)) [
    | inl h ↦
        let same : approver_export ≡ x = ground arith in
        approver_earlier t cr h (
          subst
            (λ (u : ApproverExportFull). requests u.current_revision.change_request_id ≡ some cr)
            (sym same) q)
    | inr h ↦ absurd (ground arith)
  ];
}

domain_request_earlier :
    (cr : ChangeRequestExport) → requests 13 ≡ some cr → All (λ a. a.created_at < 21) cr.approvals
domain_request_earlier cr e =
    let q : request_of (7 ∷ 3 ∷ []) 20 ≡ cr = cc e in
    subst (λ (u : ChangeRequestExport). All (λ a. a.created_at < 21) u.approvals) q
      (omega arith, tt)

verify_change_request-Vouched_example : Vouched pgp anchors json server 13 3
verify_change_request-Vouched_example =
    verify_change_request-Vouched pgp anchors json server 9 13 [] 3 domain_request_verified

get_verified_domain-IsVouched_example :
    (object_server.get_domain_at 3 40 ≡ some domain_export)
    × IsVouched pgp anchors json server 13
        (pending_domain object_json)
        compare_domain_export
        domain_3
get_verified_domain-IsVouched_example =
    get_verified_domain-IsVouched pgp anchors json server object_json object_server 9 3 40 []
      domain_export domain_verified

verify_change_request-Ends_example : Ends (verify_change_request pgp anchors json server 21 13)
verify_change_request-Ends_example =
    verify_change_request-Ends pgp anchors json server server-IsChronological 21 13
      domain_request_earlier
