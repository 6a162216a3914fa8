-- ===== src/Registrar/Compare/Own.antt =====
-- GetExportVersion and Compare of host revisions (lib/hostrevision.go): a revision and its own export.
use go_registrar.Prelude.{
  ℕ, ◌≡◌, refl, ap, String, Bool, true, false, List, [], ◌∷◌, All, arith, str_eq_iff, bool_eq, ◌==◌,
}
use go_registrar.Registrar.State.{is_refl}
use go_registrar.Registrar.Model.{ApproverSet}
use go_registrar.Registrar.Compare.{
  HostAddress, ApproverSetExportShort, HostRevision, get_export_version,
  get_approver_set_export_arr, run_checks, conditions, compare, same_addresses, same_approver_sets,
}
use go_registrar.Registrar.Compare.Permutes.{compare_lists_same}
use go_registrar.Registrar.Compare.Export.{set_ids, export_ids, Holds}

num_refl : (n : ℕ) → (n == n) ≡ true
num_refl n = ground arith

bool_eq_refl : (b : Bool) → bool_eq b b ≡ true
bool_eq_refl b = ground arith

export_ids-get_approver_set_export_arr :
    (l : List ApproverSet) → set_ids l ≡ export_ids (get_approver_set_export_arr l)
unfolding get_approver_set_export_arr
export_ids-get_approver_set_export_arr [] = refl
export_ids-get_approver_set_export_arr (a ∷ l) =
    ap (λ t. a.id ∷ t) (export_ids-get_approver_set_export_arr l)

run_checks_clean :
    (l : List (Bool × String)) (s : Bool × List String) → All Holds l → run_checks l s ≡ s
unfolding run_checks
run_checks_clean [] s u = refl
run_checks_clean ((true, m) ∷ l) s (h, q) = run_checks_clean l s q
run_checks_clean ((false, m) ∷ l) s (h, q) = absurd (ground arith)

own_addresses : (l : List HostAddress) → same_addresses l l ≡ true
unfolding same_addresses
own_addresses l =
    compare_lists_same (λ (a : HostAddress). a.address_id) (λ (a : HostAddress). a.address_id) l l
      refl

own_sets : (l : List ApproverSet) → same_approver_sets l (get_approver_set_export_arr l) ≡ true
unfolding same_approver_sets
own_sets l =
    compare_lists_same (λ (a : ApproverSet). a.id) (λ (a : ApproverSetExportShort). a.export_id) l
      (get_approver_set_export_arr l) (export_ids-get_approver_set_export_arr l)

conditions-get_export_version : (r : HostRevision) → All Holds (conditions (get_export_version r) r)
unfolding conditions get_export_version
conditions-get_export_version r = (
  num_refl r.id,
  (
    num_refl r.host_id,
    (
      is_refl r.desired_state,
      (
        bool_eq_refl r.client_delete_prohibited_status,
        (
          bool_eq_refl r.server_delete_prohibited_status,
          (
            bool_eq_refl r.client_transfer_prohibited_status,
            (
              bool_eq_refl r.server_transfer_prohibited_status,
              (
                bool_eq_refl r.client_update_prohibited_status,
                (
                  bool_eq_refl r.server_update_prohibited_status,
                  (
                    (str_eq_iff r.saved_notes r.saved_notes).1 refl,
                    (
                      (str_eq_iff r.issue_cr r.issue_cr).1 refl,
                      (
                        (str_eq_iff r.notes r.notes).1 refl,
                        (
                          own_addresses r.host_addresses,
                          (
                            own_sets r.required_approver_sets,
                            (own_sets r.informed_approver_sets, tt),
                          ),
                        ),
                      ),
                    ),
                  ),
                ),
              ),
            ),
          ),
        ),
      ),
    ),
  ),
)

-- A revision passes against its own export, with no errors.
pub compare-get_export_version : (r : HostRevision) → compare (get_export_version r) r ≡ (true, [])
unfolding compare
compare-get_export_version r =
    run_checks_clean (conditions (get_export_version r) r) (true, [])
      (conditions-get_export_version r)
