-- ===== src/Registrar/Compare/Approvers.antt =====
-- The exports of approvers and approver sets and their comparison with one another: CompareExport
-- of lib/approverrevision.go and lib/approversetrevision.go.
use go_registrar.Prelude.{ℕ, String, Bool, true, List, [], ◌∷◌, ◌==◌, str_eq, bool_eq}
use go_registrar.Registrar.State.{State, is}
use go_registrar.Registrar.Compare.{ApproverSetExportShort, run_checks, compare_lists}

-- ApproverExportShort (lib/approver.go).
pub record ApproverExportShort : Type 0 where
  pub approver_id : ℕ
  pub approver_state : State

-- The times and the names of who created a revision are left out: nothing below reads them.
pub record ApproverRevisionExport : Type 0 where
  pub id : ℕ
  pub approver_id : ℕ
  pub desired_state : State
  pub name : String
  pub email_address : String
  pub role : String
  pub username : String
  pub employee_id : ℕ
  pub department : String
  pub is_admin : Bool
  pub saved_notes : String
  pub required_approver_sets : List ApproverSetExportShort
  pub informed_approver_sets : List ApproverSetExportShort
  pub fingerprint : String
  pub public_key : String
  pub change_request_id : ℕ
  pub issue_cr : String
  pub notes : String

pub record ApproverSetRevisionExport : Type 0 where
  pub id : ℕ
  pub approver_set_id : ℕ
  pub desired_state : State
  pub title : String
  pub description : String
  pub approvers : List ApproverExportShort
  pub saved_notes : String
  pub change_request_id : ℕ
  pub issue_cr : String
  pub notes : String
  pub required_approver_sets : List ApproverSetExportShort
  pub informed_approver_sets : List ApproverSetExportShort

-- CompareToApproverSetExportShortLists (lib/approverset.go).
unfoldable pub same_set_exports : List ApproverSetExportShort → List ApproverSetExportShort → Bool
unfolding compare_lists
same_set_exports =
    compare_lists (λ (a : ApproverSetExportShort). a.export_id)
      (λ (a : ApproverSetExportShort). a.export_id)

-- CompareToApproverExportShortLists (lib/approver.go).
unfoldable pub same_approvers : List ApproverExportShort → List ApproverExportShort → Bool
unfolding compare_lists
same_approvers =
    compare_lists (λ (a : ApproverExportShort). a.approver_id)
      (λ (a : ApproverExportShort). a.approver_id)

unfoldable pub approver_conditions :
    ApproverRevisionExport → ApproverRevisionExport → List (Bool × String)
unfolding same_set_exports
approver_conditions e r =
    (e.id == r.id, "the ID fields did not match")
    ∷ (e.approver_id == r.approver_id, "the ApproverID fields did not match")
    ∷ (is e.desired_state r.desired_state, "the DesiredState fields did not match")
    ∷ (str_eq e.name r.name, "the Name fields did not match")
    ∷ (str_eq e.email_address r.email_address, "the EmailAddress fields did not match")
    ∷ (str_eq e.role r.role, "the Role fields did not match")
    ∷ (str_eq e.username r.username, "the Username fields did not match")
    ∷ (e.employee_id == r.employee_id, "the EmployeeID fields did not match")
    ∷ (str_eq e.department r.department, "the Department fields did not match")
    ∷ (bool_eq e.is_admin r.is_admin, "the Is Admin fields did not match")
    ∷ (str_eq e.saved_notes r.saved_notes, "the Saved Notes field did not match")
    ∷ (str_eq e.fingerprint r.fingerprint, "the Fingerprint fields did not match")
    ∷ (str_eq e.public_key r.public_key, "the PublicKey fields did not match")
    ∷ (str_eq e.issue_cr r.issue_cr, "the Issue/CR fields did not macth")
    ∷ (str_eq e.notes r.notes, "the Notes fields did not macth")
    ∷ (
      same_set_exports r.required_approver_sets e.required_approver_sets,
      "the required approver sets did not match",
    )
    ∷ (
      same_set_exports r.informed_approver_sets e.informed_approver_sets,
      "the informed approver sets did not match",
    )
    ∷ []

unfoldable pub approver_set_conditions :
    ApproverSetRevisionExport → ApproverSetRevisionExport → List (Bool × String)
unfolding same_set_exports same_approvers
approver_set_conditions e r =
    (e.id == r.id, "the ID fields did not match")
    ∷ (e.approver_set_id == r.approver_set_id, "the ApproverSetID fields did not match")
    ∷ (is e.desired_state r.desired_state, "the DesiredState fields did not match")
    ∷ (str_eq e.title r.title, "the Title fields did not match")
    ∷ (str_eq e.description r.description, "the Title fields did not match")
    ∷ (str_eq e.saved_notes r.saved_notes, "the Saved Notes field did not match")
    ∷ (str_eq e.issue_cr r.issue_cr, "the Issue/CR fields did not macth")
    ∷ (str_eq e.notes r.notes, "the Notes fields did not macth")
    ∷ (same_approvers r.approvers e.approvers, "the approvers list did not match")
    ∷ (
      same_set_exports r.required_approver_sets e.required_approver_sets,
      "the required approver sets did not match",
    )
    ∷ (
      same_set_exports r.informed_approver_sets e.informed_approver_sets,
      "the informed approver sets did not match",
    )
    ∷ []

-- ApproverRevisionExport.CompareExport.
unfoldable pub compare_approver :
    ApproverRevisionExport → ApproverRevisionExport → Bool × List String
unfolding run_checks approver_conditions
compare_approver e r = run_checks (approver_conditions e r) (true, [])

-- ApproverSetRevisionExport.CompareExport.
unfoldable pub compare_approver_set :
    ApproverSetRevisionExport → ApproverSetRevisionExport → Bool × List String
unfolding run_checks approver_set_conditions
compare_approver_set e r = run_checks (approver_set_conditions e r) (true, [])
