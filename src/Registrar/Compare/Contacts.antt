-- ===== src/Registrar/Compare/Contacts.antt =====
-- The comparison of revisions of contacts with their exports: Compare and CompareExport of lib/contactrevision.go.
use go_registrar.Prelude.{ℕ, String, Bool, true, List, [], ◌∷◌, ◌==◌, str_eq, bool_eq}
use go_registrar.Registrar.State.{State, is}
use go_registrar.Registrar.Model.{ApproverSet}
use go_registrar.Registrar.Compare.{ApproverSetExportShort, run_checks, same_approver_sets}
use go_registrar.Registrar.Compare.Approvers.{same_set_exports}

-- ContactRevision and ContactRevisionExport, without what the comparisons do not read.
pub record ContactRevision : Type 0 where
  pub id : ℕ
  pub contact_id : ℕ
  pub desired_state : State
  pub name : String
  pub org : String
  pub email_address : String
  pub address_street1 : String
  pub address_street2 : String
  pub address_street3 : String
  pub address_city : String
  pub address_state : String
  pub address_postal_code : String
  pub address_country : String
  pub voice_phone_number : String
  pub voice_phone_extension : String
  pub fax_phone_number : String
  pub fax_phone_extension : String
  pub saved_notes : String
  pub client_delete_prohibited_status : Bool
  pub server_delete_prohibited_status : Bool
  pub client_transfer_prohibited_status : Bool
  pub server_transfer_prohibited_status : Bool
  pub client_update_prohibited_status : Bool
  pub server_update_prohibited_status : Bool
  pub issue_cr : String
  pub notes : String
  pub required_approver_sets : List ApproverSet
  pub informed_approver_sets : List ApproverSet

pub record ContactRevisionExport : Type 0 where
  pub id : ℕ
  pub contact_id : ℕ
  pub desired_state : State
  pub name : String
  pub org : String
  pub email_address : String
  pub address_street1 : String
  pub address_street2 : String
  pub address_street3 : String
  pub address_city : String
  pub address_state : String
  pub address_postal_code : String
  pub address_country : String
  pub voice_phone_number : String
  pub voice_phone_extension : String
  pub fax_phone_number : String
  pub fax_phone_extension : String
  pub saved_notes : String
  pub client_delete_prohibited_status : Bool
  pub server_delete_prohibited_status : Bool
  pub client_transfer_prohibited_status : Bool
  pub server_transfer_prohibited_status : Bool
  pub client_update_prohibited_status : Bool
  pub server_update_prohibited_status : Bool
  pub issue_cr : String
  pub notes : String
  pub required_approver_sets : List ApproverSetExportShort
  pub informed_approver_sets : List ApproverSetExportShort
  pub change_request_id : ℕ

unfoldable pub contact_conditions : ContactRevisionExport → ContactRevision → List (Bool × String)
unfolding same_approver_sets
contact_conditions e r =
    (e.id == r.id, "the ID fields did not match")
    ∷ (e.contact_id == r.contact_id, "the ContactID fields did not match")
    ∷ (is e.desired_state r.desired_state, "the DesiredState fields did not match")
    ∷ (str_eq e.name r.name, "the Name fields did not match")
    ∷ (str_eq e.org r.org, "the Org fields did not match")
    ∷ (str_eq e.email_address r.email_address, "the EmailAddress fields did not match")
    ∷ (str_eq e.address_street1 r.address_street1, "the AddressStreet1 fields did not match")
    ∷ (str_eq e.address_street2 r.address_street2, "the AddressStreet2 fields did not match")
    ∷ (str_eq e.address_street3 r.address_street3, "the AddressStreet3 fields did not match")
    ∷ (str_eq e.address_city r.address_city, "the AddressCity fields did not match")
    ∷ (str_eq e.address_state r.address_state, "the AddressState fields did not match")
    ∷ (
      str_eq e.address_postal_code r.address_postal_code,
      "the AddressPostalCode fields did not match",
    )
    ∷ (str_eq e.address_country r.address_country, "the AddressCountry fields did not match")
    ∷ (
      str_eq e.voice_phone_number r.voice_phone_number,
      "the VoicePhoneNumber fields did not match",
    )
    ∷ (
      str_eq e.voice_phone_extension r.voice_phone_extension,
      "the VoicePhoneExtension fields did not match",
    )
    ∷ (str_eq e.fax_phone_number r.fax_phone_number, "the FaxPhoneNumber fields did not match")
    ∷ (
      str_eq e.fax_phone_extension r.fax_phone_extension,
      "the FaxPhoneExtension fields did not match",
    )
    ∷ (str_eq e.saved_notes r.saved_notes, "the Saved Notes field did not match")
    ∷ (
      bool_eq e.client_delete_prohibited_status r.client_delete_prohibited_status,
      "the ClientDeleteProhibitedStatus fields did not match",
    )
    ∷ (
      bool_eq e.server_delete_prohibited_status r.server_delete_prohibited_status,
      "the ServerDeleteProhibitedStatus fields did not match",
    )
    ∷ (
      bool_eq e.client_transfer_prohibited_status r.client_transfer_prohibited_status,
      "the ClientTransferProhibitedStatus fields did not match",
    )
    ∷ (
      bool_eq e.server_transfer_prohibited_status r.server_transfer_prohibited_status,
      "the ServerTransferProhibitedStatus fields did not match",
    )
    ∷ (
      bool_eq e.client_update_prohibited_status r.client_update_prohibited_status,
      "the ClientUpdateProhibitedStatus fields did not match",
    )
    ∷ (
      bool_eq e.server_update_prohibited_status r.server_update_prohibited_status,
      "the ServerUpdateProhibitedStatus fields did not match",
    )
    ∷ (str_eq e.issue_cr r.issue_cr, "the Issue/CR fields did not macth")
    ∷ (str_eq e.notes r.notes, "the Notes fields did not macth")
    ∷ (
      same_approver_sets r.required_approver_sets e.required_approver_sets,
      "the required approver sets did not match",
    )
    ∷ (
      same_approver_sets r.informed_approver_sets e.informed_approver_sets,
      "the informed approver sets did not match",
    )
    ∷ []

unfoldable pub contact_export_conditions :
    ContactRevisionExport → ContactRevisionExport → List (Bool × String)
unfolding same_set_exports
contact_export_conditions e r =
    (e.id == r.id, "the ID fields did not match")
    ∷ (e.contact_id == r.contact_id, "the ContactID fields did not match")
    ∷ (is e.desired_state r.desired_state, "the DesiredState fields did not match")
    ∷ (str_eq e.name r.name, "the Name fields did not match")
    ∷ (str_eq e.org r.org, "the Org fields did not match")
    ∷ (str_eq e.email_address r.email_address, "the EmailAddress fields did not match")
    ∷ (str_eq e.address_street1 r.address_street1, "the AddressStreet1 fields did not match")
    ∷ (str_eq e.address_street2 r.address_street2, "the AddressStreet2 fields did not match")
    ∷ (str_eq e.address_street3 r.address_street3, "the AddressStreet3 fields did not match")
    ∷ (str_eq e.address_city r.address_city, "the AddressCity fields did not match")
    ∷ (str_eq e.address_state r.address_state, "the AddressState fields did not match")
    ∷ (
      str_eq e.address_postal_code r.address_postal_code,
      "the AddressPostalCode fields did not match",
    )
    ∷ (str_eq e.address_country r.address_country, "the AddressCountry fields did not match")
    ∷ (
      str_eq e.voice_phone_number r.voice_phone_number,
      "the VoicePhoneNumber fields did not match",
    )
    ∷ (
      str_eq e.voice_phone_extension r.voice_phone_extension,
      "the VoicePhoneExtension fields did not match",
    )
    ∷ (str_eq e.fax_phone_number r.fax_phone_number, "the FaxPhoneNumber fields did not match")
    ∷ (
      str_eq e.fax_phone_extension r.fax_phone_extension,
      "the FaxPhoneExtension fields did not match",
    )
    ∷ (str_eq e.saved_notes r.saved_notes, "the Saved Notes field did not match")
    ∷ (
      bool_eq e.client_delete_prohibited_status r.client_delete_prohibited_status,
      "the ClientDeleteProhibitedStatus fields did not match",
    )
    ∷ (
      bool_eq e.server_delete_prohibited_status r.server_delete_prohibited_status,
      "the ServerDeleteProhibitedStatus fields did not match",
    )
    ∷ (
      bool_eq e.client_transfer_prohibited_status r.client_transfer_prohibited_status,
      "the ClientTransferProhibitedStatus fields did not match",
    )
    ∷ (
      bool_eq e.server_transfer_prohibited_status r.server_transfer_prohibited_status,
      "the ServerTransferProhibitedStatus fields did not match",
    )
    ∷ (
      bool_eq e.client_update_prohibited_status r.client_update_prohibited_status,
      "the ClientUpdateProhibitedStatus fields did not match",
    )
    ∷ (
      bool_eq e.server_update_prohibited_status r.server_update_prohibited_status,
      "the ServerUpdateProhibitedStatus fields did not match",
    )
    ∷ (str_eq e.issue_cr r.issue_cr, "the Issue/CR fields did not macth")
    ∷ (str_eq e.notes r.notes, "the Notes fields did not macth")
    ∷ (
      same_set_exports r.required_approver_sets e.required_approver_sets,
      "the required approver sets did not match",
    )
    ∷ (
      same_set_exports r.informed_approver_sets e.informed_approver_sets,
      "the informed approver sets did not match",
    )
    ∷ []

unfoldable pub compare_contact : ContactRevisionExport → ContactRevision → Bool × List String
unfolding run_checks contact_conditions
compare_contact e r = run_checks (contact_conditions e r) (true, [])

unfoldable pub compare_contact_export :
    ContactRevisionExport → ContactRevisionExport → Bool × List String
unfolding run_checks contact_export_conditions
compare_contact_export e r = run_checks (contact_export_conditions e r) (true, [])
