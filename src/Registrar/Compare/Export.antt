-- ===== src/Registrar/Compare/Export.antt =====
-- Compare of a host revision's export (lib/hostrevision.go) and the revision: what passes.
use go_registrar.Prelude.{
  ℕ, ◌≡◌, ◌↔◌, refl, String, Bool, true, false, List, [], ◌∷◌, ◌++◌, All, map, arith, str_eq_iff,
  bool_eq, ◌==◌,
}
use go_registrar.Registrar.State.{State, is, is_refl, code-injective}
use go_registrar.Registrar.Model.{ApproverSet}
use go_registrar.Registrar.Compare.{
  HostAddress, ApproverSetExportShort, HostRevision, HostRevisionExport, run_checks, conditions,
  compare, same_addresses, same_approver_sets,
}
use go_registrar.Registrar.Compare.Permutes.{compare_lists-Perm}
use mathlib.Core.List.{Nodup, Perm}

abbrev pub address_ids : List HostAddress → List ℕ
address_ids = map (λ (a : HostAddress). a.address_id)

abbrev pub set_ids : List ApproverSet → List ℕ
set_ids = map (λ (a : ApproverSet). a.id)

abbrev pub export_ids : List ApproverSetExportShort → List ℕ
export_ids = map (λ (a : ApproverSetExportShort). a.export_id)

-- The fields of the export that Compare reads are those of the revision, and the objects that it
-- refers to are the same in some order, by their IDs.
pub record Matches (e : HostRevisionExport) (r : HostRevision) : Type 0 where
  pub same_id : e.id ≡ r.id
  pub same_host : e.host_id ≡ r.host_id
  pub same_state : e.desired_state ≡ r.desired_state
  pub same_client_delete : e.client_delete_prohibited_status ≡ r.client_delete_prohibited_status
  pub same_server_delete : e.server_delete_prohibited_status ≡ r.server_delete_prohibited_status
  pub same_client_transfer :
      e.client_transfer_prohibited_status ≡ r.client_transfer_prohibited_status
  pub same_server_transfer :
      e.server_transfer_prohibited_status ≡ r.server_transfer_prohibited_status
  pub same_client_update : e.client_update_prohibited_status ≡ r.client_update_prohibited_status
  pub same_server_update : e.server_update_prohibited_status ≡ r.server_update_prohibited_status
  pub same_saved_notes : e.saved_notes ≡ r.saved_notes
  pub same_issue : e.issue_cr ≡ r.issue_cr
  pub same_notes : e.notes ≡ r.notes
  pub addresses : Perm (address_ids r.host_addresses) (address_ids e.host_addresses)
  pub required : Perm (set_ids r.required_approver_sets) (export_ids e.required_approver_sets)
  pub informed : Perm (set_ids r.informed_approver_sets) (export_ids e.informed_approver_sets)

-- The lists of the revision, which the database joins by ID, hold no object twice.
pub record IsJoined (r : HostRevision) : Type 0 where
  pub addresses_differ : Nodup (address_ids r.host_addresses)
  pub required_differ : Nodup (set_ids r.required_approver_sets)
  pub informed_differ : Nodup (set_ids r.informed_approver_sets)

abbrev pub Holds : Bool × String → Type 0
Holds c = c.0 ≡ true

-- The flag stays up exactly while every condition holds, and then there are no errors.
pub run_checks_passes :
    (l : List (Bool × String)) (s : Bool × List String)
    → ((run_checks l s).0 ≡ true) ↔ ((s.0 ≡ true) × All Holds l)
unfolding run_checks
run_checks_passes [] s = (λ e. (e, tt), λ (e, u). e)
run_checks_passes ((true, m) ∷ l) s = (
  (λ e. let (p, q) = (run_checks_passes l s).0 e in (p, (refl, q))),
  λ (p, (u, q)). (run_checks_passes l s).1 (p, q),
)
run_checks_passes ((false, m) ∷ l) (pass, errs) = (
  (λ e. let (p, q) = (run_checks_passes l (false, errs ++ (m ∷ []))).0 e in absurd (ground arith)),
  λ (p, (u, q)). absurd (ground arith),
)

pub num_iff : (a b : ℕ) → ((a == b) ≡ true) ↔ (a ≡ b)
num_iff a b = (λ h. ground arith, λ h. ground arith)

pub bool_eq-reads : {a b : Bool} → bool_eq a b ≡ true → a ≡ b
bool_eq-reads {a} {b} h = ground arith

pub bool_eq-holds : {a b : Bool} → a ≡ b → bool_eq a b ≡ true
bool_eq-holds {a} {b} h = ground arith

pub state_iff : (s t : State) → (is s t ≡ true) ↔ (s ≡ t)
state_iff s t = (λ h. code-injective s t (ground arith), λ h. rw h (is_refl t))

addresses_iff :
    (l m : List HostAddress)
    → Nodup (address_ids l)
    → (same_addresses l m ≡ true) ↔ Perm (address_ids l) (address_ids m)
unfolding same_addresses
addresses_iff =
    compare_lists-Perm (λ (a : HostAddress). a.address_id) (λ (a : HostAddress). a.address_id)

pub sets_iff :
    (l : List ApproverSet) (m : List ApproverSetExportShort)
    → Nodup (set_ids l)
    → (same_approver_sets l m ≡ true) ↔ Perm (set_ids l) (export_ids m)
unfolding same_approver_sets
sets_iff =
    compare_lists-Perm (λ (a : ApproverSet). a.id) (λ (a : ApproverSetExportShort). a.export_id)

conditions-Matches :
    (e : HostRevisionExport) (r : HostRevision)
    → IsJoined r
    → All Holds (conditions e r) ↔ Matches e r
unfolding conditions
conditions-Matches e r d = (
  λ (
    c1,
    (c2, (c3, (c4, (c5, (c6, (c7, (c8, (c9, (c10, (c11, (c12, (c13, (c14, (c15, u)))))))))))))),
  ).
      record {
        same_id = (num_iff e.id r.id).0 c1;
        same_host = (num_iff e.host_id r.host_id).0 c2;
        same_state = (state_iff e.desired_state r.desired_state).0 c3;
        same_client_delete = bool_eq-reads c4;
        same_server_delete = bool_eq-reads c5;
        same_client_transfer = bool_eq-reads c6;
        same_server_transfer = bool_eq-reads c7;
        same_client_update = bool_eq-reads c8;
        same_server_update = bool_eq-reads c9;
        same_saved_notes = (str_eq_iff e.saved_notes r.saved_notes).0 c10;
        same_issue = (str_eq_iff e.issue_cr r.issue_cr).0 c11;
        same_notes = (str_eq_iff e.notes r.notes).0 c12;
        addresses = (addresses_iff r.host_addresses e.host_addresses d.addresses_differ).0 c13;
        required =
            (sets_iff r.required_approver_sets e.required_approver_sets d.required_differ).0 c14;
        informed =
            (sets_iff r.informed_approver_sets e.informed_approver_sets d.informed_differ).0 c15;
      },
  λ m. (
    (num_iff e.id r.id).1 m.same_id,
    (
      (num_iff e.host_id r.host_id).1 m.same_host,
      (
        (state_iff e.desired_state r.desired_state).1 m.same_state,
        (
          bool_eq-holds m.same_client_delete,
          (
            bool_eq-holds m.same_server_delete,
            (
              bool_eq-holds m.same_client_transfer,
              (
                bool_eq-holds m.same_server_transfer,
                (
                  bool_eq-holds m.same_client_update,
                  (
                    bool_eq-holds m.same_server_update,
                    (
                      (str_eq_iff e.saved_notes r.saved_notes).1 m.same_saved_notes,
                      (
                        (str_eq_iff e.issue_cr r.issue_cr).1 m.same_issue,
                        (
                          (str_eq_iff e.notes r.notes).1 m.same_notes,
                          (
                            (addresses_iff r.host_addresses e.host_addresses d.addresses_differ).1
                                m.addresses,
                            (
                              (sets_iff r.required_approver_sets e.required_approver_sets
                                    d.required_differ).1
                                  m.required,
                              (
                                (sets_iff r.informed_approver_sets e.informed_approver_sets
                                      d.informed_differ).1
                                    m.informed,
                                tt,
                              ),
                            ),
                          ),
                        ),
                      ),
                    ),
                  ),
                ),
              ),
            ),
          ),
        ),
      ),
    ),
  ),
)

-- Compare passes an export exactly when its IDs, its desired state, its six flags, its notes and its
-- issue are those of the revision and the addresses and approver sets have the same IDs in some
-- order, if no list of the revision holds an object twice. The state of the revision, the ID of its
-- change request and what an address is may differ.
pub compare-passes_iff :
    (e : HostRevisionExport) (r : HostRevision)
    → IsJoined r
    → ((compare e r).0 ≡ true) ↔ Matches e r
unfolding compare
compare-passes_iff e r d = (
  (λ p. (conditions-Matches e r d).0 ((run_checks_passes (conditions e r) (true, [])).0 p).1),
  λ m. (run_checks_passes (conditions e r) (true, [])).1 (refl, (conditions-Matches e r d).1 m),
)
