-- ===== src/Registrar/Compare/ApiUsers.antt =====
-- The comparison of revisions of API users with their exports: Compare and CompareExport of lib/apiuserrevision.go.
use go_registrar.Prelude.{ℕ, String, Bool, true, List, [], ◌∷◌, ◌==◌, str_eq, bool_eq}
use go_registrar.Registrar.State.{State, is}
use go_registrar.Registrar.Model.{ApproverSet}
use go_registrar.Registrar.Compare.{ApproverSetExportShort, run_checks, same_approver_sets}
use go_registrar.Registrar.Compare.Approvers.{same_set_exports}

-- ApiUserRevision and ApiUserRevisionExport, without what the comparisons do not read.
pub record ApiUserRevision : Type 0 where
  pub id : ℕ
  pub api_user_id : ℕ
  pub desired_state : State
  pub name : String
  pub description : String
  pub serial : String
  pub certificate : String
  pub saved_notes : String
  pub is_admin : Bool
  pub is_epp_client : Bool
  pub issue_cr : String
  pub notes : String
  pub required_approver_sets : List ApproverSet
  pub informed_approver_sets : List ApproverSet

pub record ApiUserRevisionExport : Type 0 where
  pub id : ℕ
  pub api_user_id : ℕ
  pub desired_state : State
  pub name : String
  pub description : String
  pub serial : String
  pub certificate : String
  pub saved_notes : String
  pub is_admin : Bool
  pub is_epp_client : Bool
  pub issue_cr : String
  pub notes : String
  pub required_approver_sets : List ApproverSetExportShort
  pub informed_approver_sets : List ApproverSetExportShort
  pub change_request_id : ℕ

unfoldable pub api_user_conditions : ApiUserRevisionExport → ApiUserRevision → List (Bool × String)
unfolding same_approver_sets
api_user_conditions e r =
    (e.id == r.id, "the ID fields did not match")
    ∷ (e.api_user_id == r.api_user_id, "the ApproverID fields did not match")
    ∷ (is e.desired_state r.desired_state, "the DesiredState fields did not match")
    ∷ (str_eq e.name r.name, "the Name fields did not match")
    ∷ (str_eq e.description r.description, "the EmailAddress fields did not match")
    ∷ (str_eq e.serial r.serial, "the Serial fields did not match")
    ∷ (str_eq e.certificate r.certificate, "the Role fields did not match")
    ∷ (str_eq e.saved_notes r.saved_notes, "the Saved Notes field did not match")
    ∷ (bool_eq e.is_admin r.is_admin, "the IsAdmin fields did not match")
    ∷ (bool_eq e.is_epp_client r.is_epp_client, "the IsEPPClient fields did not match")
    ∷ (str_eq e.issue_cr r.issue_cr, "the Issue/CR fields did not macth")
    ∷ (str_eq e.notes r.notes, "the Notes fields did not macth")
    ∷ (
      same_approver_sets r.required_approver_sets e.required_approver_sets,
      "the required approver sets did not match",
    )
    ∷ (
      same_approver_sets r.informed_approver_sets e.informed_approver_sets,
      "the informed approver sets did not match",
    )
    ∷ []

unfoldable pub api_user_export_conditions :
    ApiUserRevisionExport → ApiUserRevisionExport → List (Bool × String)
unfolding same_set_exports
api_user_export_conditions e r =
    (e.id == r.id, "the ID fields did not match")
    ∷ (e.api_user_id == r.api_user_id, "the ApproverID fields did not match")
    ∷ (is e.desired_state r.desired_state, "the DesiredState fields did not match")
    ∷ (str_eq e.name r.name, "the Name fields did not match")
    ∷ (str_eq e.description r.description, "the EmailAddress fields did not match")
    ∷ (str_eq e.serial r.serial, "the Serial fields did not match")
    ∷ (str_eq e.certificate r.certificate, "the Role fields did not match")
    ∷ (str_eq e.saved_notes r.saved_notes, "the Saved Notes field did not match")
    ∷ (bool_eq e.is_admin r.is_admin, "the IsAdmin fields did not match")
    ∷ (bool_eq e.is_epp_client r.is_epp_client, "the IsEPPClient fields did not match")
    ∷ (str_eq e.issue_cr r.issue_cr, "the Issue/CR fields did not macth")
    ∷ (str_eq e.notes r.notes, "the Notes fields did not macth")
    ∷ (
      same_set_exports r.required_approver_sets e.required_approver_sets,
      "the required approver sets did not match",
    )
    ∷ (
      same_set_exports r.informed_approver_sets e.informed_approver_sets,
      "the informed approver sets did not match",
    )
    ∷ []

unfoldable pub compare_api_user : ApiUserRevisionExport → ApiUserRevision → Bool × List String
unfolding run_checks api_user_conditions
compare_api_user e r = run_checks (api_user_conditions e r) (true, [])

unfoldable pub compare_api_user_export :
    ApiUserRevisionExport → ApiUserRevisionExport → Bool × List String
unfolding run_checks api_user_export_conditions
compare_api_user_export e r = run_checks (api_user_export_conditions e r) (true, [])
