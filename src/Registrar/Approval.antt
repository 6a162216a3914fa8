-- ===== src/Registrar/Approval.antt =====
-- lib/approval.go and lib/changerequest.go: the predicates on approvals and the validity of an
-- approver set. The interface RegistrarApprovalable, through which a change request reaches its
-- object, is the record `Objects`.
pub mod Validity
use go_registrar.Prelude.{
  ℕ, Bool, true, false, not, ◌&&◌, ◌||◌, Option, none, some, List, [], ◌∷◌, ◌++◌, ◌==◌, ◌+◌, length,
  ltb, any, if◌then◌else◌,
}
use go_registrar.Registrar.State.{
  State, is, active, approved, cancelled, declined, inactive, new, pending_approval,
  active_pending_approval, inactive_pending_approval, no_valid_approvers,
  skipped_no_valid_approvers, inactive_approver_set, skipped_inactive_approver_set, other,
}
use go_registrar.Registrar.Model.{
  ObjectType, type_code, approver_type, approver_set_type, Action, action_approved, action_declined,
  Approver, ApproverSet, Approval, ChangeRequest,
}
use go_registrar.Registrar.Signature.{Crypto, SigErr, is_none, check_signature}
use go_registrar.Registrar.Verify.{VerifyErr, Checked}
use go_registrar.Registrar.Store.{Db, M, ◌>>=◌, pure, find_set, find_request, save_approval}

pub data Err : Type 0 where
  not_found save_failed no_approval_for_set unknown_state no_such_action mail_failed : Err
  out_of_fuel : Err
  verify : VerifyErr → Err

pub record Objects : Type 1 where
  pub Obj : Type 0
  -- NewRegistrarObject, SetID and Prepare on the object of a request
  pub prepare_object : ObjectType → ℕ → M (Option Obj)
  pub has_pending_revision : Obj → Bool
  -- the keys of GetRequiredApproverSets
  pub required_sets : Obj → M (List ℕ)
  pub verify_object : Obj → M Checked
  pub update_object : Obj → M (Unit {0})

-- Approval.IsEditable.
unfoldable pub is_editable : Approval → Bool
is_editable a =
    not (is a.state approved)
    && not (is a.state declined)
    && not (is a.state cancelled)
    && not (is a.state skipped_no_valid_approvers)
    && not (is a.state skipped_inactive_approver_set)

-- Approval.IsCancelled and ChangeRequest.IsCancelled.
unfoldable pub is_cancelled : State → Bool
is_cancelled s = is s cancelled

-- The counters of ReadyForFinalApproval and of ChangeRequest.UpdateState: how many approvals are in
-- a state, and whether one is the final approval.
unfoldable pub count_state : State → List Approval → ℕ
count_state s [] = 0
count_state s (a ∷ rest) = let n = count_state s rest in if is a.state s then n + 1 else n

unfoldable pub final_found : List Approval → Bool
final_found [] = false
final_found (a ∷ rest) = a.is_final_approval || final_found rest

-- ChangeRequest.ReadyForFinalApproval.
unfoldable pub ready_for_final_approval : List Approval → Bool
unfolding count_state final_found
ready_for_final_approval l =
    length l
      == count_state approved l
        + count_state no_valid_approvers l
        + count_state inactive_approver_set l
        + 1
    && final_found l

abbrev is_valid_approver : Approver → Bool
is_valid_approver p = is p.state active || is p.state active_pending_approval

-- The tests of CheckValidityOfApproverSet on the approver set and the request that it loaded.
unfoldable pub validity_state : Approval → ApproverSet → ChangeRequest → State
unfolding ready_for_final_approval
validity_state a s r =
    if r.initial_revision_id.int64 == 1
      && (type_code r.registrar_object_type == type_code approver_type
          || type_code r.registrar_object_type == type_code approver_set_type)
      && r.registrar_object_id == 1
    then pending_approval
    else if is s.state inactive || is s.state inactive_pending_approval
    then inactive_approver_set
    else if not (any is_valid_approver s.approvers)
    then no_valid_approvers
    else if not a.is_final_approval || ready_for_final_approval r.approvals
    then pending_approval
    else new

module _ (o : Objects) where
  open o use {
    Obj, prepare_object, has_pending_revision, required_sets, verify_object, update_object,
  }

  abbrev pub Loaded : Type 0
  Loaded = ChangeRequest × Obj

  abbrev with_object : ChangeRequest → Option Obj → Option Loaded
  with_object r none = none
  with_object r (some x) = some (r, x)

  load_object : Option ChangeRequest → M (Option Loaded)
  load_object none = pure none
  load_object (some r) = do
    x ← prepare_object r.registrar_object_type r.registrar_object_id
    pure (with_object r x)

  -- FindByID on a change request, with ChangeRequest.Prepare.
  unfoldable pub find_loaded : ℕ → M (Option Loaded)
  unfolding load_object
  find_loaded k = do r ← find_request k; load_object r

  abbrev validity_found : Approval → ApproverSet → Option Loaded → Option State
  unfolding validity_state
  validity_found a s none = none
  validity_found a s (some (r, x)) = some (validity_state a s r)

  validity_set : Approval → Option ApproverSet → M (Option State)
  unfolding validity_state
  validity_set a none = pure none
  validity_set a (some s) = do r ← find_loaded a.change_request_id; pure (validity_found a s r)

  -- Approval.CheckValidityOfApproverSet; `none` is an error.
  unfoldable pub check_validity_of_approver_set : Approval → M (Option State)
  unfolding validity_set
  check_validity_of_approver_set a = do s ← find_set a.approver_set_id; validity_set a s
