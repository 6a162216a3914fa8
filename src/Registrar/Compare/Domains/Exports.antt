-- ===== src/Registrar/Compare/Domains/Exports.antt =====
-- The comparison of the exports of two revisions of domains: CompareExport of lib/domainrevision.go.
use go_registrar.Prelude.{String, Bool, true, List, [], ◌∷◌, ◌==◌, str_eq, bool_eq}
use go_registrar.Registrar.State.{is}
use go_registrar.Registrar.Compare.{run_checks, compare_lists}
use go_registrar.Registrar.Compare.Approvers.{same_set_exports}
use go_registrar.Registrar.Compare.Domains.{
  HostExportShort, DomainRevisionExport, same_ds_data_entries, note,
}

-- CompareToHostExportShortLists (lib/host.go).
unfoldable pub same_host_exports : List HostExportShort → List HostExportShort → Bool
unfolding compare_lists
same_host_exports =
    compare_lists (λ (a : HostExportShort). a.host_export_id)
      (λ (a : HostExportShort). a.host_export_id)

unfoldable pub owner_export_conditions :
    DomainRevisionExport → DomainRevisionExport → List (Bool × String)
owner_export_conditions e r =
    (e.id == r.id, "the ID fields did not match")
    ∷ (e.domain_id == r.domain_id, "the ContactID fields did not match")
    ∷ (is e.desired_state r.desired_state, "the DesiredState fields did not match")
    ∷ (str_eq e.owners r.owners, "the Owners fields did not match")
    ∷ []

unfoldable pub domain_export_conditions :
    DomainRevisionExport → DomainRevisionExport → List (Bool × String)
unfolding same_host_exports same_ds_data_entries same_set_exports
domain_export_conditions e r =
    (
      e.domain_registrant.contact_id == r.domain_registrant.contact_id,
      "the DomainRegistrantID fields did not match",
    )
    ∷ (
      e.domain_admin_contact.contact_id == r.domain_admin_contact.contact_id,
      "the DomainAdminContactID fields did not match",
    )
    ∷ (
      e.domain_tech_contact.contact_id == r.domain_tech_contact.contact_id,
      "the DomainTechContactID fields did not match",
    )
    ∷ (
      e.domain_billing_contact.contact_id == r.domain_billing_contact.contact_id,
      "the DomainBillingContactID fields did not match",
    )
    ∷ (
      bool_eq e.client_delete_prohibited_status r.client_delete_prohibited_status,
      "the ClientDeleteProhibitedStatus fields did not match",
    )
    ∷ (
      bool_eq e.server_delete_prohibited_status r.server_delete_prohibited_status,
      "the ServerDeleteProhibitedStatus fields did not match",
    )
    ∷ (
      bool_eq e.client_transfer_prohibited_status r.client_transfer_prohibited_status,
      "the ClientTransferProhibitedStatus fields did not match",
    )
    ∷ (
      bool_eq e.server_transfer_prohibited_status r.server_transfer_prohibited_status,
      "the ServerTransferProhibitedStatus fields did not match",
    )
    ∷ (
      bool_eq e.client_update_prohibited_status r.client_update_prohibited_status,
      "the ClientUpdateProhibitedStatus fields did not match",
    )
    ∷ (
      bool_eq e.server_update_prohibited_status r.server_update_prohibited_status,
      "the ServerUpdateProhibitedStatus fields did not match",
    )
    ∷ (
      bool_eq e.client_renew_prohibited_status r.client_renew_prohibited_status,
      "the ClientRenewProhibitedStatus fields did not match",
    )
    ∷ (
      bool_eq e.server_renew_prohibited_status r.server_renew_prohibited_status,
      "the ServerRenewProhibitedStatus fields did not match",
    )
    ∷ (
      bool_eq e.client_hold_status r.client_hold_status,
      "the ClientHoldStatus fields did not match",
    )
    ∷ (
      bool_eq e.server_hold_status r.server_hold_status,
      "the ServerHoldStatus fields did not match",
    )
    ∷ (str_eq e.saved_notes r.saved_notes, "the Saved Notes field did not match")
    ∷ (str_eq e.issue_cr r.issue_cr, "the Issue/CR fields did not macth")
    ∷ (str_eq e.notes r.notes, "the Notes fields did not macth")
    ∷ (same_host_exports r.hostnames e.hostnames, "the hostnames did not match")
    ∷ (
      same_ds_data_entries r.ds_data_entries e.ds_data_entries,
      "the DS Data Entries did not match",
    )
    ∷ (
      same_set_exports r.required_approver_sets e.required_approver_sets,
      "the required approver sets did not match",
    )
    ∷ (
      same_set_exports r.informed_approver_sets e.informed_approver_sets,
      "the informed approver sets did not match",
    )
    ∷ []

unfoldable pub compare_domain_export :
    DomainRevisionExport → DomainRevisionExport → Bool × List String
unfolding run_checks owner_export_conditions domain_export_conditions
compare_domain_export e r = run_checks (domain_export_conditions e r) (
    note (str_eq e.class r.class, "the Class fields did not match")
      (run_checks (owner_export_conditions e r) (true, [])))
