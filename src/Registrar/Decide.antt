-- ===== src/Registrar/Decide.antt =====
-- lib/approval.go: the state machine of an approval, Approval.UpdateState. E-mail is not modelled
-- but for the error that ApprovalUpdateEmail may return.
pub mod Approve
pub mod Sibling
use go_registrar.Prelude.{
  ℕ, Bool, true, false, ◌&&◌, ◌||◌, Option, none, some, List, [], ◌∷◌, ◌++◌, ◌==◌, length,
  if◌then◌else◌,
}
use go_registrar.Registrar.State.{
  State, is, approved, cancelled, declined, new, pending_approval, no_valid_approvers,
  skipped_no_valid_approvers, inactive_approver_set, skipped_inactive_approver_set,
}
use go_registrar.Registrar.Model.{Action, action_approved, action_declined, Approval, ChangeRequest}
use go_registrar.Registrar.Signature.{Crypto, is_none, check_signature}
use go_registrar.Registrar.Verify.{VerifyErr, Checked}
use go_registrar.Registrar.Store.{M, ◌>>=◌, pure, save_approval}
use go_registrar.Registrar.Approval.{
  Err, not_found, save_failed, unknown_state, verify, Objects, is_cancelled, Loaded, find_loaded,
  check_validity_of_approver_set,
}

-- What the switch of UpdateState leaves: an early return with its errors, or the approval as it is
-- now, whether it changed, whether the change cascades, and the errors.
pub data Outcome : Type 0 where
  stop : List Err → Outcome
  go : Approval → Bool → Bool → List Err → Outcome

abbrev set_state : Approval → State → Approval
set_state a s = record a { state = s }

-- A new state from CheckValidityOfApproverSet; `cascades` tells the two callers apart.
pub move_to : Approval → Bool → Option State → Outcome
move_to a cascades none = stop (not_found ∷ [])
move_to a cascades (some s) =
    if is s a.state then go a false false [] else go (set_state a s) true cascades []

-- The branches of a pending approval behind a signature that checks out: `mail` gives the error of
-- ApprovalUpdateEmail.
pub act_on : (Approval → List Err) → Approval → Action → Outcome
act_on mail a action_approved = go (set_state a approved) true true (mail a)
act_on mail a action_declined = go (set_state a declined) true true (mail a)
act_on mail a _ = go a true false []

abbrev pub verify_errs : List VerifyErr → List Err
verify_errs [] = []
verify_errs (e ∷ rest) = verify e ∷ verify_errs rest

abbrev erase_signature : Approval → List VerifyErr → Outcome
erase_signature a [] = go a true false []
erase_signature a errs = go (record a { signature = [] }) true false (verify_errs errs)

pub verified : (Approval → List Err) → Approval → Action → Checked → Outcome
unfolding act_on
verified mail a action (ok, errs) = if ok then act_on mail a action else erase_signature a errs

module _ (o : Objects) (c : Crypto) (mail : Approval → List Err) where
  open o use {
    Obj, prepare_object, has_pending_revision, required_sets, verify_object, update_object,
  }

  decide_new_again : Approval → Option (Loaded o) → M Outcome
  unfolding move_to
  decide_new_again a none = pure (stop (not_found ∷ []))
  decide_new_again a (some (r, x)) =
      if is r.state pending_approval
      then (do s ← check_validity_of_approver_set o a; pure (move_to a true s))
      else pure (go a false false [])

  decide_new_found : Approval → Option (Loaded o) → M Outcome
  unfolding decide_new_again
  decide_new_found a none = pure (stop (not_found ∷ []))
  decide_new_found a (some (r, x)) =
      if is_cancelled r.state
      then pure (go (set_state a cancelled) true true [])
      else (do r' ← find_loaded o a.change_request_id; decide_new_again a r')

  -- A pending approval that holds a signature.
  unfoldable pub decide_signed : Approval → Obj → M Outcome
  unfolding verified
  decide_signed a x =
      let (valid, action, e) = check_signature c a in
      if is_none e && valid
      then (do r ← verify_object x; pure (verified mail a action r))
      else pure (go a false false [])

  -- A pending approval that holds none.
  pub decide_unsigned : Approval → M Outcome
  unfolding move_to
  decide_unsigned a = do s ← check_validity_of_approver_set o a; pure (move_to a true s)

  pub decide_pending_found : Approval → Option (Loaded o) → M Outcome
  unfolding decide_signed decide_unsigned is_cancelled
  decide_pending_found a none = pure (stop (not_found ∷ []))
  decide_pending_found a (some (r, x)) =
      if is_cancelled r.state
      then pure (go (set_state a cancelled) true true (mail a))
      else if length a.signature == 0
      then decide_unsigned a
      else decide_signed a x

  -- The switch of Approval.UpdateState.
  pub decide : State → Approval → M Outcome
  unfolding decide_new_found decide_pending_found
  decide new a = do r ← find_loaded o a.change_request_id; decide_new_found a r
  decide pending_approval a = do r ← find_loaded o a.change_request_id; decide_pending_found a r
  decide no_valid_approvers a = do s ← check_validity_of_approver_set o a; pure (move_to a false s)
  decide inactive_approver_set a = do
    s ← check_validity_of_approver_set o a
    pure (move_to a false s)
  decide cancelled a = pure (go a false false [])
  decide approved a = pure (go a false false [])
  decide declined a = pure (go a false false [])
  decide skipped_no_valid_approvers a = pure (go a false false [])
  decide skipped_inactive_approver_set a = pure (go a false false [])
  decide _ a = pure (go a false false (unknown_state ∷ []))

-- The operations that UpdateState calls on other objects, and those that call it back.
pub record Hooks (o : Objects) : Type 0 where
  -- Approval.AfterSave
  pub after_save : ℕ → M Bool
  -- Approval.UpdateState: the approval after it, whether changes were made, the errors
  pub update_approval : Approval → M (Approval × Bool × List Err)
  -- ChangeRequest.UpdateState
  pub update_request : Loaded o → M (Bool × List Err)

module _ (o : Objects) (h : Hooks o) where
  abbrev cascade_to :
      Approval → Bool → List Err → Option (Loaded o) → M (Approval × Bool × List Err)
  cascade_to a changes errs none = pure (a, changes, errs ++ not_found ∷ [])
  cascade_to a changes errs (some l) = do
    r ← h.update_request l
    pure (a, changes || r.0, errs ++ r.1)

  -- The cascade at the end of Approval.UpdateState.
  cascade : Approval → Bool → Bool → List Err → M (Approval × Bool × List Err)
  cascade a changes cascades errs =
      if cascades
      then (do l ← find_loaded o a.change_request_id; cascade_to a changes errs l)
      else pure (a, changes, errs)

  after_saving : Approval → Bool → List Err → Bool → M (Approval × Bool × List Err)
  unfolding cascade
  after_saving a cascades errs true = cascade a true cascades errs
  after_saving a cascades errs false = pure (a, true, errs ++ save_failed ∷ [])

  -- The save and the cascade at the end of Approval.UpdateState.
  pub finish : Approval → Outcome → M (Approval × Bool × List Err)
  unfolding cascade after_saving
  finish a (stop errs) = pure (a, false, errs)
  finish a (go a' changes cascades errs) =
      if changes
      then (do saved ← save_approval h.after_save a'; after_saving a' cascades errs saved)
      else cascade a' changes cascades errs

-- Approval.UpdateState.
unfoldable pub update_state :
    (o : Objects) (c : Crypto) (mail : Approval → List Err)
    → Hooks o
    → Approval
    → M (Approval × Bool × List Err)
unfolding decide finish
update_state o c mail h a = do out ← decide o c mail a.state a; finish o h a out
