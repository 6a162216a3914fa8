-- ===== src/Registrar/Compare/Domains.antt =====
-- The comparison of revisions of domains with their exports: Compare of lib/domainrevision.go.
pub mod Exports
pub mod Same
pub mod Passes
use go_registrar.Prelude.{ℕ, String, Bool, true, false, List, [], ◌∷◌, ◌++◌, ◌==◌, str_eq, bool_eq}
use go_registrar.Registrar.State.{State, is}
use go_registrar.Registrar.Model.{ApproverSet, NullInt64}
use go_registrar.Registrar.Compare.{
  ApproverSetExportShort, run_checks, compare_lists, same_approver_sets,
}
use go_registrar.Registrar.Compare.Approvers.{same_set_exports}

-- ContactExportShort (lib/contact.go), HostExportShort and Host (lib/host.go).
pub record ContactExportShort : Type 0 where
  pub contact_id : ℕ
  pub contact_state : State

pub record HostExportShort : Type 0 where
  pub host_export_id : ℕ
  pub host_export_name : String

pub record Host : Type 0 where
  pub host_id : ℕ
  pub host_name : String

pub record DsDataEntry : Type 0 where
  pub entry_id : ℕ
  pub key_tag : ℕ
  pub algorithm : ℕ
  pub digest_type : ℕ
  pub digest : String

-- DomainRevision and DomainRevisionExport without the times and names of who changed them, the
-- DomainStatus that no comparison has and the contacts beside their IDs. A ChangeRequestID that is
-- -1 is 0.
pub record DomainRevision : Type 0 where
  pub id : ℕ
  pub domain_id : ℕ
  pub revision_state : State
  pub desired_state : State
  pub owners : String
  pub class : String
  pub domain_registrant_id : ℕ
  pub domain_admin_contact_id : ℕ
  pub domain_tech_contact_id : ℕ
  pub domain_billing_contact_id : ℕ
  pub client_delete_prohibited_status : Bool
  pub server_delete_prohibited_status : Bool
  pub client_transfer_prohibited_status : Bool
  pub server_transfer_prohibited_status : Bool
  pub client_update_prohibited_status : Bool
  pub server_update_prohibited_status : Bool
  pub client_renew_prohibited_status : Bool
  pub server_renew_prohibited_status : Bool
  pub client_hold_status : Bool
  pub server_hold_status : Bool
  pub saved_notes : String
  pub cr_id : NullInt64
  pub issue_cr : String
  pub notes : String
  pub hostnames : List Host
  pub ds_data_entries : List DsDataEntry
  pub required_approver_sets : List ApproverSet
  pub informed_approver_sets : List ApproverSet

pub record DomainRevisionExport : Type 0 where
  pub id : ℕ
  pub domain_id : ℕ
  pub revision_state : State
  pub desired_state : State
  pub owners : String
  pub class : String
  pub domain_registrant : ContactExportShort
  pub domain_admin_contact : ContactExportShort
  pub domain_tech_contact : ContactExportShort
  pub domain_billing_contact : ContactExportShort
  pub client_delete_prohibited_status : Bool
  pub server_delete_prohibited_status : Bool
  pub client_transfer_prohibited_status : Bool
  pub server_transfer_prohibited_status : Bool
  pub client_update_prohibited_status : Bool
  pub server_update_prohibited_status : Bool
  pub client_renew_prohibited_status : Bool
  pub server_renew_prohibited_status : Bool
  pub client_hold_status : Bool
  pub server_hold_status : Bool
  pub saved_notes : String
  pub issue_cr : String
  pub notes : String
  pub hostnames : List HostExportShort
  pub ds_data_entries : List DsDataEntry
  pub required_approver_sets : List ApproverSetExportShort
  pub informed_approver_sets : List ApproverSetExportShort
  pub change_request_id : ℕ

-- CompareToHostListExportShortList (lib/host.go).
unfoldable pub same_hosts : List Host → List HostExportShort → Bool
unfolding compare_lists
same_hosts = compare_lists (λ (a : Host). a.host_id) (λ (a : HostExportShort). a.host_export_id)

-- CompareDSDataEntries.
unfoldable pub same_ds_data_entries : List DsDataEntry → List DsDataEntry → Bool
unfolding compare_lists
same_ds_data_entries =
    compare_lists (λ (a : DsDataEntry). a.entry_id) (λ (a : DsDataEntry). a.entry_id)

-- A condition that adds its error and leaves the flag as it is.
abbrev pub note : Bool × String → Bool × List String → Bool × List String
note (true, message) s = s
note (false, message) (pass, errs) = (pass, errs ++ (message ∷ []))

-- The conditions before that on Class, and those behind it.
unfoldable pub owner_conditions : DomainRevisionExport → DomainRevision → List (Bool × String)
owner_conditions e r =
    (e.id == r.id, "the ID fields did not match")
    ∷ (e.domain_id == r.domain_id, "the ContactID fields did not match")
    ∷ (is e.desired_state r.desired_state, "the DesiredState fields did not match")
    ∷ (str_eq e.owners r.owners, "the Owners fields did not match")
    ∷ []

unfoldable pub domain_conditions : DomainRevisionExport → DomainRevision → List (Bool × String)
unfolding same_hosts same_ds_data_entries same_approver_sets
domain_conditions e r =
    (
      e.domain_registrant.contact_id == r.domain_registrant_id,
      "the DomainRegistrantID fields did not match",
    )
    ∷ (
      e.domain_admin_contact.contact_id == r.domain_admin_contact_id,
      "the DomainAdminContactID fields did not match",
    )
    ∷ (
      e.domain_tech_contact.contact_id == r.domain_tech_contact_id,
      "the DomainTechContactID fields did not match",
    )
    ∷ (
      e.domain_billing_contact.contact_id == r.domain_billing_contact_id,
      "the DomainBillingContactID fields did not match",
    )
    ∷ (
      bool_eq e.client_delete_prohibited_status r.client_delete_prohibited_status,
      "the ClientDeleteProhibitedStatus fields did not match",
    )
    ∷ (
      bool_eq e.server_delete_prohibited_status r.server_delete_prohibited_status,
      "the ServerDeleteProhibitedStatus fields did not match",
    )
    ∷ (
      bool_eq e.client_transfer_prohibited_status r.client_transfer_prohibited_status,
      "the ClientTransferProhibitedStatus fields did not match",
    )
    ∷ (
      bool_eq e.server_transfer_prohibited_status r.server_transfer_prohibited_status,
      "the ServerTransferProhibitedStatus fields did not match",
    )
    ∷ (
      bool_eq e.client_update_prohibited_status r.client_update_prohibited_status,
      "the ClientUpdateProhibitedStatus fields did not match",
    )
    ∷ (
      bool_eq e.server_update_prohibited_status r.server_update_prohibited_status,
      "the ServerUpdateProhibitedStatus fields did not match",
    )
    ∷ (
      bool_eq e.client_renew_prohibited_status r.client_renew_prohibited_status,
      "the ClientRenewProhibitedStatus fields did not match",
    )
    ∷ (
      bool_eq e.server_renew_prohibited_status r.server_renew_prohibited_status,
      "the ServerRenewProhibitedStatus fields did not match",
    )
    ∷ (
      bool_eq e.client_hold_status r.client_hold_status,
      "the ClientHoldStatus fields did not match",
    )
    ∷ (
      bool_eq e.server_hold_status r.server_hold_status,
      "the ServerHoldStatus fields did not match",
    )
    ∷ (str_eq e.saved_notes r.saved_notes, "the Saved Notes field did not match")
    ∷ (str_eq e.issue_cr r.issue_cr, "the Issue/CR fields did not macth")
    ∷ (str_eq e.notes r.notes, "the Notes fields did not macth")
    ∷ (same_hosts r.hostnames e.hostnames, "the hostnames did not match")
    ∷ (
      same_ds_data_entries r.ds_data_entries e.ds_data_entries,
      "the DS Data Entries did not match",
    )
    ∷ (
      same_approver_sets r.required_approver_sets e.required_approver_sets,
      "the required approver sets did not match",
    )
    ∷ (
      same_approver_sets r.informed_approver_sets e.informed_approver_sets,
      "the informed approver sets did not match",
    )
    ∷ []

unfoldable pub compare_domain : DomainRevisionExport → DomainRevision → Bool × List String
unfolding run_checks owner_conditions domain_conditions
compare_domain e r = run_checks (domain_conditions e r) (
    note (str_eq e.class r.class, "the Class fields did not match")
      (run_checks (owner_conditions e r) (true, [])))
