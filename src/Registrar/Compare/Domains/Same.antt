-- ===== src/Registrar/Compare/Domains/Same.antt =====
-- The conditions of Compare of a domain's export (lib/domainrevision.go) as one of two records: what
-- stands before the test on Class, and what stands behind it.
use go_registrar.Prelude.{ℕ, ◌≡◌, ◌↔◌, true, List, All, map, str_eq_iff}
use go_registrar.Registrar.Compare.Permutes.{compare_lists-Perm}
use go_registrar.Registrar.Compare.Export.{
  set_ids, export_ids, Holds, num_iff, bool_eq-reads, bool_eq-holds, state_iff, sets_iff,
}
use go_registrar.Registrar.Compare.Domains.{
  Host, HostExportShort, DsDataEntry, DomainRevision, DomainRevisionExport, same_hosts,
  same_ds_data_entries, owner_conditions, domain_conditions,
}
use mathlib.Core.List.{Nodup, Perm}

abbrev pub host_ids : List Host → List ℕ
host_ids = map (λ (a : Host). a.host_id)

abbrev pub host_export_ids : List HostExportShort → List ℕ
host_export_ids = map (λ (a : HostExportShort). a.host_export_id)

abbrev pub entry_ids : List DsDataEntry → List ℕ
entry_ids = map (λ (a : DsDataEntry). a.entry_id)

-- The lists of the revision, which the database joins by ID, hold no object twice.
pub record IsJoined (r : DomainRevision) : Type 0 where
  pub differ_hostnames : Nodup (host_ids r.hostnames)
  pub differ_ds_data_entries : Nodup (entry_ids r.ds_data_entries)
  pub differ_required_approver_sets : Nodup (set_ids r.required_approver_sets)
  pub differ_informed_approver_sets : Nodup (set_ids r.informed_approver_sets)

hosts_iff :
    (l : List Host) (m : List HostExportShort)
    → Nodup (host_ids l)
    → (same_hosts l m ≡ true) ↔ Perm (host_ids l) (host_export_ids m)
unfolding same_hosts
hosts_iff = compare_lists-Perm (λ (a : Host). a.host_id) (λ (a : HostExportShort). a.host_export_id)

entries_iff :
    (l m : List DsDataEntry)
    → Nodup (entry_ids l)
    → (same_ds_data_entries l m ≡ true) ↔ Perm (entry_ids l) (entry_ids m)
unfolding same_ds_data_entries
entries_iff = compare_lists-Perm (λ (a : DsDataEntry). a.entry_id) (λ (a : DsDataEntry). a.entry_id)

-- The fields of the export before the Class are those of the revision.
pub record SameOwner (e : DomainRevisionExport) (r : DomainRevision) : Type 0 where
  pub same_id : e.id ≡ r.id
  pub same_domain_id : e.domain_id ≡ r.domain_id
  pub same_desired_state : e.desired_state ≡ r.desired_state
  pub same_owners : e.owners ≡ r.owners

pub owner_conditions-SameOwner :
    (e : DomainRevisionExport) (r : DomainRevision)
    → All Holds (owner_conditions e r) ↔ SameOwner e r
unfolding owner_conditions
owner_conditions-SameOwner e r = (
  λ (c1, (c2, (c3, (c4, u)))). record {
    same_id = (num_iff e.id r.id).0 c1;
    same_domain_id = (num_iff e.domain_id r.domain_id).0 c2;
    same_desired_state = (state_iff e.desired_state r.desired_state).0 c3;
    same_owners = (str_eq_iff e.owners r.owners).0 c4;
  },
  λ m. (
    (num_iff e.id r.id).1 m.same_id,
    (
      (num_iff e.domain_id r.domain_id).1 m.same_domain_id,
      (
        (state_iff e.desired_state r.desired_state).1 m.same_desired_state,
        ((str_eq_iff e.owners r.owners).1 m.same_owners, tt),
      ),
    ),
  ),
)

-- The fields behind the Class are those of the revision, and the objects that it refers to have the
-- same IDs in some order.
pub record SameConfiguration (e : DomainRevisionExport) (r : DomainRevision) : Type 0 where
  pub same_domain_registrant : e.domain_registrant.contact_id ≡ r.domain_registrant_id
  pub same_domain_admin_contact : e.domain_admin_contact.contact_id ≡ r.domain_admin_contact_id
  pub same_domain_tech_contact : e.domain_tech_contact.contact_id ≡ r.domain_tech_contact_id
  pub same_domain_billing_contact :
      e.domain_billing_contact.contact_id ≡ r.domain_billing_contact_id
  pub same_client_delete_prohibited_status :
      e.client_delete_prohibited_status ≡ r.client_delete_prohibited_status
  pub same_server_delete_prohibited_status :
      e.server_delete_prohibited_status ≡ r.server_delete_prohibited_status
  pub same_client_transfer_prohibited_status :
      e.client_transfer_prohibited_status ≡ r.client_transfer_prohibited_status
  pub same_server_transfer_prohibited_status :
      e.server_transfer_prohibited_status ≡ r.server_transfer_prohibited_status
  pub same_client_update_prohibited_status :
      e.client_update_prohibited_status ≡ r.client_update_prohibited_status
  pub same_server_update_prohibited_status :
      e.server_update_prohibited_status ≡ r.server_update_prohibited_status
  pub same_client_renew_prohibited_status :
      e.client_renew_prohibited_status ≡ r.client_renew_prohibited_status
  pub same_server_renew_prohibited_status :
      e.server_renew_prohibited_status ≡ r.server_renew_prohibited_status
  pub same_client_hold_status : e.client_hold_status ≡ r.client_hold_status
  pub same_server_hold_status : e.server_hold_status ≡ r.server_hold_status
  pub same_saved_notes : e.saved_notes ≡ r.saved_notes
  pub same_issue_cr : e.issue_cr ≡ r.issue_cr
  pub same_notes : e.notes ≡ r.notes
  pub same_hostnames : Perm (host_ids r.hostnames) (host_export_ids e.hostnames)
  pub same_ds_data_entries : Perm (entry_ids r.ds_data_entries) (entry_ids e.ds_data_entries)
  pub same_required_approver_sets :
      Perm (set_ids r.required_approver_sets) (export_ids e.required_approver_sets)
  pub same_informed_approver_sets :
      Perm (set_ids r.informed_approver_sets) (export_ids e.informed_approver_sets)

pub domain_conditions-SameConfiguration :
    (e : DomainRevisionExport) (r : DomainRevision)
    → IsJoined r
    → All Holds (domain_conditions e r) ↔ SameConfiguration e r
unfolding domain_conditions
domain_conditions-SameConfiguration e r d = (
  λ (
    c1,
    (
      c2,
      (
        c3,
        (
          c4,
          (
            c5,
            (
              c6,
              (
                c7,
                (
                  c8,
                  (
                    c9,
                    (
                      c10,
                      (
                        c11,
                        (c12, (c13, (c14, (c15, (c16, (c17, (c18, (c19, (c20, (c21, u)))))))))),
                      ),
                    ),
                  ),
                ),
              ),
            ),
          ),
        ),
      ),
    ),
  ).
      record {
        same_domain_registrant =
            (num_iff e.domain_registrant.contact_id r.domain_registrant_id).0 c1;
        same_domain_admin_contact =
            (num_iff e.domain_admin_contact.contact_id r.domain_admin_contact_id).0 c2;
        same_domain_tech_contact =
            (num_iff e.domain_tech_contact.contact_id r.domain_tech_contact_id).0 c3;
        same_domain_billing_contact =
            (num_iff e.domain_billing_contact.contact_id r.domain_billing_contact_id).0 c4;
        same_client_delete_prohibited_status = bool_eq-reads c5;
        same_server_delete_prohibited_status = bool_eq-reads c6;
        same_client_transfer_prohibited_status = bool_eq-reads c7;
        same_server_transfer_prohibited_status = bool_eq-reads c8;
        same_client_update_prohibited_status = bool_eq-reads c9;
        same_server_update_prohibited_status = bool_eq-reads c10;
        same_client_renew_prohibited_status = bool_eq-reads c11;
        same_server_renew_prohibited_status = bool_eq-reads c12;
        same_client_hold_status = bool_eq-reads c13;
        same_server_hold_status = bool_eq-reads c14;
        same_saved_notes = (str_eq_iff e.saved_notes r.saved_notes).0 c15;
        same_issue_cr = (str_eq_iff e.issue_cr r.issue_cr).0 c16;
        same_notes = (str_eq_iff e.notes r.notes).0 c17;
        same_hostnames = (hosts_iff r.hostnames e.hostnames d.differ_hostnames).0 c18;
        same_ds_data_entries =
            (entries_iff r.ds_data_entries e.ds_data_entries d.differ_ds_data_entries).0 c19;
        same_required_approver_sets =
            (sets_iff r.required_approver_sets e.required_approver_sets
                d.differ_required_approver_sets).0
              c20;
        same_informed_approver_sets =
            (sets_iff r.informed_approver_sets e.informed_approver_sets
                d.differ_informed_approver_sets).0
              c21;
      },
  λ m. (
    (num_iff e.domain_registrant.contact_id r.domain_registrant_id).1 m.same_domain_registrant,
    (
      (num_iff e.domain_admin_contact.contact_id r.domain_admin_contact_id).1
          m.same_domain_admin_contact,
      (
        (num_iff e.domain_tech_contact.contact_id r.domain_tech_contact_id).1
            m.same_domain_tech_contact,
        (
          (num_iff e.domain_billing_contact.contact_id r.domain_billing_contact_id).1
              m.same_domain_billing_contact,
          (
            bool_eq-holds m.same_client_delete_prohibited_status,
            (
              bool_eq-holds m.same_server_delete_prohibited_status,
              (
                bool_eq-holds m.same_client_transfer_prohibited_status,
                (
                  bool_eq-holds m.same_server_transfer_prohibited_status,
                  (
                    bool_eq-holds m.same_client_update_prohibited_status,
                    (
                      bool_eq-holds m.same_server_update_prohibited_status,
                      (
                        bool_eq-holds m.same_client_renew_prohibited_status,
                        (
                          bool_eq-holds m.same_server_renew_prohibited_status,
                          (
                            bool_eq-holds m.same_client_hold_status,
                            (
                              bool_eq-holds m.same_server_hold_status,
                              (
                                (str_eq_iff e.saved_notes r.saved_notes).1 m.same_saved_notes,
                                (
                                  (str_eq_iff e.issue_cr r.issue_cr).1 m.same_issue_cr,
                                  (
                                    (str_eq_iff e.notes r.notes).1 m.same_notes,
                                    (
                                      (hosts_iff r.hostnames e.hostnames d.differ_hostnames).1
                                          m.same_hostnames,
                                      (
                                        (entries_iff r.ds_data_entries e.ds_data_entries
                                              d.differ_ds_data_entries).1
                                            m.same_ds_data_entries,
                                        (
                                          (sets_iff r.required_approver_sets
                                                e.required_approver_sets
                                                d.differ_required_approver_sets).1
                                              m.same_required_approver_sets,
                                          (
                                            (sets_iff r.informed_approver_sets
                                                  e.informed_approver_sets
                                                  d.differ_informed_approver_sets).1
                                                m.same_informed_approver_sets,
                                            tt,
                                          ),
                                        ),
                                      ),
                                    ),
                                  ),
                                ),
                              ),
                            ),
                          ),
                        ),
                      ),
                    ),
                  ),
                ),
              ),
            ),
          ),
        ),
      ),
    ),
  ),
)
