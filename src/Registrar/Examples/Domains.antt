-- ===== src/Registrar/Examples/Domains.antt =====
-- The theorem on the comparison of domains (lib/domainrevision.go) at a revision whose Class, state
-- and change request were changed after it was exported.
use go_registrar.Prelude.{◌≡◌, ◌↔◌, true, false, [], ◌∷◌}
use go_registrar.Registrar.State.{active, pending_approval}
use go_registrar.Registrar.Compare.Domains.{
  ContactExportShort, DomainRevision, DomainRevisionExport, compare_domain,
}
use go_registrar.Registrar.Compare.Domains.Same.{IsJoined, SameOwner, SameConfiguration}
use go_registrar.Registrar.Compare.Domains.Passes.{compare_domain-passes_iff}
use mathlib.Core.List.{Nodup-cons, Nodup-nil, not-mem-nil}

abbrev contact : ContactExportShort
contact = record { contact_id = 4; contact_state = active }

abbrev exported : DomainRevisionExport
exported = record {
  id = 90;
  domain_id = 3;
  revision_state = pending_approval;
  desired_state = active;
  owners = "us";
  class = "high-value";
  domain_registrant = contact;
  domain_admin_contact = contact;
  domain_tech_contact = contact;
  domain_billing_contact = contact;
  client_delete_prohibited_status = false;
  server_delete_prohibited_status = false;
  client_transfer_prohibited_status = false;
  server_transfer_prohibited_status = false;
  client_update_prohibited_status = false;
  server_update_prohibited_status = false;
  client_renew_prohibited_status = false;
  server_renew_prohibited_status = false;
  client_hold_status = false;
  server_hold_status = false;
  saved_notes = "";
  issue_cr = "";
  notes = "";
  hostnames = record { host_export_id = 8; host_export_name = "ns1" } ∷ [];
  ds_data_entries = [];
  required_approver_sets = [];
  informed_approver_sets = [];
  change_request_id = 13;
}

abbrev stored : DomainRevision
stored = record {
  id = 90;
  domain_id = 3;
  revision_state = active;
  desired_state = active;
  owners = "us";
  class = "other";
  domain_registrant_id = 4;
  domain_admin_contact_id = 4;
  domain_tech_contact_id = 4;
  domain_billing_contact_id = 4;
  client_delete_prohibited_status = false;
  server_delete_prohibited_status = false;
  client_transfer_prohibited_status = false;
  server_transfer_prohibited_status = false;
  client_update_prohibited_status = false;
  server_update_prohibited_status = false;
  client_renew_prohibited_status = false;
  server_renew_prohibited_status = false;
  client_hold_status = false;
  server_hold_status = false;
  saved_notes = "";
  cr_id = record { int64 = 14; valid = true };
  issue_cr = "";
  notes = "";
  hostnames = record { host_id = 8; host_name = "ns1" } ∷ [];
  ds_data_entries = [];
  required_approver_sets = [];
  informed_approver_sets = [];
}

stored-IsJoined : IsJoined stored
stored-IsJoined = record {
  differ_hostnames = Nodup-cons.1 (λ m. not-mem-nil m, Nodup-nil);
  differ_ds_data_entries = Nodup-nil;
  differ_required_approver_sets = Nodup-nil;
  differ_informed_approver_sets = Nodup-nil;
}

compare_domain-passes_iff_example :
    ((compare_domain exported stored).0 ≡ true)
    ↔ (SameOwner exported stored × SameConfiguration exported stored)
compare_domain-passes_iff_example = compare_domain-passes_iff exported stored stored-IsJoined
