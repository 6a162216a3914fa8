-- ===== src/Registrar/Compare/Hosts.antt =====
-- CompareExport of host revisions (lib/hostrevision.go).
use go_registrar.Prelude.{String, Bool, true, List, [], ◌∷◌, ◌==◌, str_eq, bool_eq}
use go_registrar.Registrar.State.{is}
use go_registrar.Registrar.Compare.{HostRevisionExport, run_checks, same_addresses}
use go_registrar.Registrar.Compare.Approvers.{same_set_exports}

unfoldable pub host_export_conditions :
    HostRevisionExport → HostRevisionExport → List (Bool × String)
unfolding same_addresses same_set_exports
host_export_conditions e r =
    (e.id == r.id, "the ID fields did not match")
    ∷ (e.host_id == r.host_id, "the HostID fields did not match")
    ∷ (is e.desired_state r.desired_state, "the DesiredState fields did not match")
    ∷ (
      bool_eq e.client_delete_prohibited_status r.client_delete_prohibited_status,
      "the ClientDeleteProhibitedStatus fields did not match",
    )
    ∷ (
      bool_eq e.server_delete_prohibited_status r.server_delete_prohibited_status,
      "the ServerDeleteProhibitedStatus fields did not match",
    )
    ∷ (
      bool_eq e.client_transfer_prohibited_status r.client_transfer_prohibited_status,
      "the ClientTransferProhibitedStatus fields did not match",
    )
    ∷ (
      bool_eq e.server_transfer_prohibited_status r.server_transfer_prohibited_status,
      "the ServerTransferProhibitedStatus fields did not match",
    )
    ∷ (
      bool_eq e.client_update_prohibited_status r.client_update_prohibited_status,
      "the ClientUpdateProhibitedStatus fields did not match",
    )
    ∷ (
      bool_eq e.server_update_prohibited_status r.server_update_prohibited_status,
      "the ServerUpdateProhibitedStatus fields did not match",
    )
    ∷ (str_eq e.saved_notes r.saved_notes, "the Saved Notes field did not match")
    ∷ (str_eq e.issue_cr r.issue_cr, "the Issue/CR fields did not macth")
    ∷ (str_eq e.notes r.notes, "the Notes fields did not macth")
    ∷ (same_addresses r.host_addresses e.host_addresses, "the host address sets did not match")
    ∷ (
      same_set_exports r.required_approver_sets e.required_approver_sets,
      "the required approver sets did not match",
    )
    ∷ (
      same_set_exports r.informed_approver_sets e.informed_approver_sets,
      "the informed approver sets did not match",
    )
    ∷ []

unfoldable pub compare_host_export : HostRevisionExport → HostRevisionExport → Bool × List String
unfolding run_checks host_export_conditions
compare_host_export e r = run_checks (host_export_conditions e r) (true, [])
