-- ===== src/Registrar/Approval/Validity.antt =====
-- The states that CheckValidityOfApproverSet (lib/approval.go) can give an approval.
use go_registrar.Prelude.{◌≡◌, ◌⊎◌, Option, none, some, arith}
use go_registrar.Registrar.State.{
  State, pending_approval, inactive_approver_set, no_valid_approvers, new,
}
use go_registrar.Registrar.Model.{ApproverSet, Approval, ChangeRequest}
use go_registrar.Registrar.Store.{Db, find_set}
use go_registrar.Registrar.Approval.{
  Objects, validity_state, Loaded, find_loaded, validity_found, validity_set,
  check_validity_of_approver_set,
}

abbrev pub IsValidity : State → Type 0
IsValidity s =
    (s ≡ pending_approval) ⊎ (s ≡ inactive_approver_set) ⊎ (s ≡ no_valid_approvers) ⊎ (s ≡ new)

validity_state-IsValidity :
    (a : Approval) (s : ApproverSet) (r : ChangeRequest) → IsValidity (validity_state a s r)
unfolding validity_state
validity_state-IsValidity a s r = ground arith

module _ (o : Objects) where
  validity_set-IsValidity :
      (a : Approval) (s : Option ApproverSet) (db : Db) (t : State)
      → (validity_set o a s db).0 ≡ some t
      → IsValidity t
  unfolding validity_set
  validity_set-IsValidity a none db t h = cc
  validity_set-IsValidity a (some s) db t h = go (find_loaded o a.change_request_id db).0 h
    where
      go : (l : Option (Loaded o)) → validity_found o a s l ≡ some t → IsValidity t
      go none e = cc
      go (some (r, x)) e = ground (arith, validity_state-IsValidity a s r)

  pub check_approver_set-IsValidity :
      (a : Approval) (db : Db) (t : State)
      → (check_validity_of_approver_set o a db).0 ≡ some t
      → IsValidity t
  unfolding check_validity_of_approver_set
  check_approver_set-IsValidity a db t h =
      let (s, db') = find_set a.approver_set_id db in validity_set-IsValidity a s db' t h
