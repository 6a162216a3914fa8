-- ===== src/Registrar/Compare.antt =====
-- The comparison of a host revision with an export of it (lib/hostrevision.go): GetExportVersion and
-- Compare, and CompareHostAddressLists for the objects that a revision refers to. CompareDSDataEntries (lib/domainrevision.go),
-- CompareToHostListExportShortList and CompareToHostExportShortLists (lib/host.go) and the like
-- functions of lib/approver.go and lib/approverset.go have the same text for other types, of which
-- they read nothing but the ID.
pub mod Permutes
pub mod Export
pub mod Own
pub mod Approvers
pub mod Stored
pub mod Hosts
pub mod Domains
pub mod Contacts
pub mod ApiUsers
use go_registrar.Prelude.{
  ℕ, String, Bool, true, false, List, [], ◌∷◌, ◌++◌, any, length, ◌==◌, str_eq, bool_eq,
  if◌then◌else◌,
}
use go_registrar.Registrar.State.{State, is}
use go_registrar.Registrar.Model.{NullInt64, ApproverSet}

module _ {ℓ κ} {A : Type ℓ} {B : Type κ} (id_of : A → ℕ) (id_in : B → ℕ) where
  -- One of the two loops: every element of the first list has an equal ID in the second.
  unfoldable pub all_found : List A → List B → Bool
  all_found [] l = true
  all_found (a ∷ rest) l = if any (λ b. id_in b == id_of a) l then all_found rest l else false

unfoldable pub compare_lists {ℓ κ} :
    {A : Type ℓ} {B : Type κ} (full_id : A → ℕ) (export_id : B → ℕ) → List A → List B → Bool
unfolding all_found
compare_lists full_id export_id full export =
    if length full == length export
    then (if all_found full_id export_id full export
        then all_found export_id full_id export full
        else false)
    else false

-- ApproverSetExportShort (lib/approverset.go).
pub record ApproverSetExportShort : Type 0 where
  pub export_id : ℕ
  pub export_state : State

pub record HostAddress : Type 0 where
  pub address_id : ℕ
  pub ip_address : String
  pub protocol : ℕ

-- HostRevision and HostRevisionExport without the times and names of who changed them. A
-- ChangeRequestID that is -1 is 0.
pub record HostRevision : Type 0 where
  pub id : ℕ
  pub host_id : ℕ
  pub revision_state : State
  pub desired_state : State
  pub client_delete_prohibited_status : Bool
  pub server_delete_prohibited_status : Bool
  pub client_transfer_prohibited_status : Bool
  pub server_transfer_prohibited_status : Bool
  pub client_update_prohibited_status : Bool
  pub server_update_prohibited_status : Bool
  pub host_addresses : List HostAddress
  pub saved_notes : String
  pub cr_id : NullInt64
  pub issue_cr : String
  pub notes : String
  pub required_approver_sets : List ApproverSet
  pub informed_approver_sets : List ApproverSet

pub record HostRevisionExport : Type 0 where
  pub id : ℕ
  pub host_id : ℕ
  pub revision_state : State
  pub desired_state : State
  pub client_delete_prohibited_status : Bool
  pub server_delete_prohibited_status : Bool
  pub client_transfer_prohibited_status : Bool
  pub server_transfer_prohibited_status : Bool
  pub client_update_prohibited_status : Bool
  pub server_update_prohibited_status : Bool
  pub host_addresses : List HostAddress
  pub saved_notes : String
  pub change_request_id : ℕ
  pub issue_cr : String
  pub notes : String
  pub required_approver_sets : List ApproverSetExportShort
  pub informed_approver_sets : List ApproverSetExportShort

unfoldable pub get_approver_set_export_arr : List ApproverSet → List ApproverSetExportShort
get_approver_set_export_arr [] = []
get_approver_set_export_arr (a ∷ rest) =
    record { export_id = a.id; export_state = a.state } ∷ get_approver_set_export_arr rest

unfoldable pub get_export_version : HostRevision → HostRevisionExport
unfolding get_approver_set_export_arr
get_export_version h = record {
  id = h.id;
  host_id = h.host_id;
  revision_state = h.revision_state;
  desired_state = h.desired_state;
  client_delete_prohibited_status = h.client_delete_prohibited_status;
  server_delete_prohibited_status = h.server_delete_prohibited_status;
  client_transfer_prohibited_status = h.client_transfer_prohibited_status;
  server_transfer_prohibited_status = h.server_transfer_prohibited_status;
  client_update_prohibited_status = h.client_update_prohibited_status;
  server_update_prohibited_status = h.server_update_prohibited_status;
  host_addresses = h.host_addresses;
  saved_notes = h.saved_notes;
  change_request_id = if h.cr_id.valid then h.cr_id.int64 else 0;
  issue_cr = h.issue_cr;
  notes = h.notes;
  required_approver_sets = get_approver_set_export_arr h.required_approver_sets;
  informed_approver_sets = get_approver_set_export_arr h.informed_approver_sets;
}

-- The pass flag and the errors, and the conditions that follow one another, each with its message.
abbrev pub check : Bool × String → Bool × List String → Bool × List String
check (true, message) s = s
check (false, message) (pass, errs) = (false, errs ++ (message ∷ []))

unfoldable pub run_checks : List (Bool × String) → Bool × List String → Bool × List String
run_checks [] s = s
run_checks (c ∷ rest) s = run_checks rest (check c s)

unfoldable pub same_approver_sets : List ApproverSet → List ApproverSetExportShort → Bool
unfolding compare_lists
same_approver_sets =
    compare_lists (λ (a : ApproverSet). a.id) (λ (a : ApproverSetExportShort). a.export_id)

unfoldable pub same_addresses : List HostAddress → List HostAddress → Bool
unfolding compare_lists
same_addresses =
    compare_lists (λ (a : HostAddress). a.address_id) (λ (a : HostAddress). a.address_id)

-- The conditions of Compare in their order.
unfoldable pub conditions : HostRevisionExport → HostRevision → List (Bool × String)
unfolding same_addresses same_approver_sets
conditions e r =
    (e.id == r.id, "the ID fields did not match")
    ∷ (e.host_id == r.host_id, "the HostID fields did not match")
    ∷ (is e.desired_state r.desired_state, "the DesiredState fields did not match")
    ∷ (
      bool_eq e.client_delete_prohibited_status r.client_delete_prohibited_status,
      "the ClientDeleteProhibitedStatus fields did not match",
    )
    ∷ (
      bool_eq e.server_delete_prohibited_status r.server_delete_prohibited_status,
      "the ServerDeleteProhibitedStatus fields did not match",
    )
    ∷ (
      bool_eq e.client_transfer_prohibited_status r.client_transfer_prohibited_status,
      "the ClientTransferProhibitedStatus fields did not match",
    )
    ∷ (
      bool_eq e.server_transfer_prohibited_status r.server_transfer_prohibited_status,
      "the ServerTransferProhibitedStatus fields did not match",
    )
    ∷ (
      bool_eq e.client_update_prohibited_status r.client_update_prohibited_status,
      "the ClientUpdateProhibitedStatus fields did not match",
    )
    ∷ (
      bool_eq e.server_update_prohibited_status r.server_update_prohibited_status,
      "the ServerUpdateProhibitedStatus fields did not match",
    )
    ∷ (str_eq e.saved_notes r.saved_notes, "the Saved Notes field did not match")
    ∷ (str_eq e.issue_cr r.issue_cr, "the Issue/CR fields did not macth")
    ∷ (str_eq e.notes r.notes, "the Notes fields did not macth")
    ∷ (same_addresses r.host_addresses e.host_addresses, "the host address sets did not match")
    ∷ (
      same_approver_sets r.required_approver_sets e.required_approver_sets,
      "the required approver sets did not match",
    )
    ∷ (
      same_approver_sets r.informed_approver_sets e.informed_approver_sets,
      "the informed approver sets did not match",
    )
    ∷ []

unfoldable pub compare : HostRevisionExport → HostRevision → Bool × List String
unfolding run_checks conditions
compare e r = run_checks (conditions e r) (true, [])
