-- ===== src/Registrar/Compare/Stored.antt =====
-- Compare of the exports of approvers and approver sets with the stored revisions:
-- lib/approverrevision.go and lib/approversetrevision.go.
use go_registrar.Prelude.{ℕ, String, Bool, true, List, [], ◌∷◌, ◌==◌, str_eq, bool_eq}
use go_registrar.Registrar.State.{State, is}
use go_registrar.Registrar.Model.{Approver, ApproverSet}
use go_registrar.Registrar.Compare.{run_checks, compare_lists, same_approver_sets}
use go_registrar.Registrar.Compare.Approvers.{
  ApproverExportShort, ApproverRevisionExport, ApproverSetRevisionExport,
}

-- ApproverRevision and ApproverSetRevision, without what the comparisons do not read.
pub record ApproverRevision : Type 0 where
  pub id : ℕ
  pub approver_id : ℕ
  pub desired_state : State
  pub name : String
  pub email_address : String
  pub role : String
  pub username : String
  pub employee_id : ℕ
  pub department : String
  pub is_admin : Bool
  pub saved_notes : String
  pub fingerprint : String
  pub public_key : String
  pub issue_cr : String
  pub notes : String
  pub required_approver_sets : List ApproverSet
  pub informed_approver_sets : List ApproverSet

pub record ApproverSetRevision : Type 0 where
  pub id : ℕ
  pub approver_set_id : ℕ
  pub desired_state : State
  pub title : String
  pub description : String
  pub saved_notes : String
  pub issue_cr : String
  pub notes : String
  pub approvers : List Approver
  pub required_approver_sets : List ApproverSet
  pub informed_approver_sets : List ApproverSet

-- CompareToApproverListExportShortList (lib/approver.go).
unfoldable pub same_approver_lists : List Approver → List ApproverExportShort → Bool
unfolding compare_lists
same_approver_lists =
    compare_lists (λ (a : Approver). a.id) (λ (a : ApproverExportShort). a.approver_id)

unfoldable pub approver_revision_conditions :
    ApproverRevisionExport → ApproverRevision → List (Bool × String)
unfolding same_approver_sets
approver_revision_conditions e r =
    (e.id == r.id, "the ID fields did not match")
    ∷ (e.approver_id == r.approver_id, "the ApproverID fields did not match")
    ∷ (is e.desired_state r.desired_state, "the DesiredState fields did not match")
    ∷ (str_eq e.name r.name, "the Name fields did not match")
    ∷ (str_eq e.email_address r.email_address, "the EmailAddress fields did not match")
    ∷ (str_eq e.role r.role, "the Role fields did not match")
    ∷ (str_eq e.username r.username, "the Username fields did not match")
    ∷ (e.employee_id == r.employee_id, "the EmployeeID fields did not match")
    ∷ (str_eq e.department r.department, "the Department fields did not match")
    ∷ (bool_eq e.is_admin r.is_admin, "the Is Admin fields did not match")
    ∷ (str_eq e.saved_notes r.saved_notes, "the Saved Notes field did not match")
    ∷ (str_eq e.fingerprint r.fingerprint, "the Fingerprint fields did not match")
    ∷ (str_eq e.public_key r.public_key, "the PublicKey fields did not match")
    ∷ (str_eq e.issue_cr r.issue_cr, "the Issue/CR fields did not macth")
    ∷ (str_eq e.notes r.notes, "the Notes fields did not macth")
    ∷ (
      same_approver_sets r.required_approver_sets e.required_approver_sets,
      "the required approver sets did not match",
    )
    ∷ (
      same_approver_sets r.informed_approver_sets e.informed_approver_sets,
      "the informed approver sets did not match",
    )
    ∷ []

unfoldable pub set_revision_conditions :
    ApproverSetRevisionExport → ApproverSetRevision → List (Bool × String)
unfolding same_approver_sets same_approver_lists
set_revision_conditions e r =
    (e.id == r.id, "the ID fields did not match")
    ∷ (e.approver_set_id == r.approver_set_id, "the ApproverSetID fields did not match")
    ∷ (is e.desired_state r.desired_state, "the DesiredState fields did not match")
    ∷ (str_eq e.title r.title, "the Title fields did not match")
    ∷ (str_eq e.description r.description, "the Title fields did not match")
    ∷ (str_eq e.saved_notes r.saved_notes, "the Saved Notes field did not match")
    ∷ (str_eq e.issue_cr r.issue_cr, "the Issue/CR fields did not macth")
    ∷ (str_eq e.notes r.notes, "the Notes fields did not macth")
    ∷ (same_approver_lists r.approvers e.approvers, "the approvers list did not match")
    ∷ (
      same_approver_sets r.required_approver_sets e.required_approver_sets,
      "the required approver sets did not match",
    )
    ∷ (
      same_approver_sets r.informed_approver_sets e.informed_approver_sets,
      "the informed approver sets did not match",
    )
    ∷ []

unfoldable pub compare_approver_revision :
    ApproverRevisionExport → ApproverRevision → Bool × List String
unfolding run_checks approver_revision_conditions
compare_approver_revision e r = run_checks (approver_revision_conditions e r) (true, [])

unfoldable pub compare_set_revision :
    ApproverSetRevisionExport → ApproverSetRevision → Bool × List String
unfolding run_checks set_revision_conditions
compare_set_revision e r = run_checks (set_revision_conditions e r) (true, [])
