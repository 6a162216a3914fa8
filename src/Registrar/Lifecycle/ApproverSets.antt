-- ===== src/Registrar/Lifecycle/ApproverSets.antt =====
-- UpdateState of an approver set (lib/approverset.go). It saves a row that it has read again, and
-- then lets the pending approvals of the set update their state. The query for these approvals and
-- Approval.UpdateState are arguments.
pub mod Explained
pub mod Cascade
use go_registrar.Prelude.{
  ℕ, Bool, true, false, ◌||◌, Option, none, some, List, [], ◌∷◌, ◌++◌, if◌then◌else◌,
}
use go_registrar.Prelude.Try.{Result, failed, done, ◌>>=◌, pure}
use go_registrar.Registrar.State.{is, approved, declined}
use go_registrar.Registrar.Model.{ChangeRequest}
use go_registrar.Registrar.Verify.{Checked}
use go_registrar.Registrar.Revision.{
  approver_set, ObjectRow, RevisionRow, World, RevErr, Op, find_object, find_change_request,
  save_object,
}
use go_registrar.Registrar.Lifecycle.{
  Prepared, UpdateErr, revision_error, is_settled, is_pending, promote_pending, decline_pending,
  state_back, unverified_all, Updated,
}

-- What the switch leaves: the variables changesMade, cascadeState and errs, and whether the function
-- goes on behind the switch.
pub record SetOutcome : Type 0 where
  pub changes : Bool
  pub cascade : Bool
  pub errors : List UpdateErr
  pub goes_on : Bool

abbrev pub quiet : SetOutcome
quiet = record { changes = false; cascade = false; errors = []; goes_on = true }

-- An early return with one more error.
abbrev returns : Bool → List UpdateErr → RevErr → SetOutcome
returns changes errs e = record {
  changes = changes;
  cascade = false;
  errors = errs ++ revision_error e ∷ [];
  goes_on = false;
}

-- The two branches of a request that checks out; a request in another state is no error here. The
-- result is cascadeState.
unfoldable pub act_on_set_request : Prepared → RevisionRow → ℕ → ChangeRequest → Op Bool
unfolding promote_pending decline_pending
act_on_set_request d p now cr =
    if is cr.state approved
    then (do u ← promote_pending approver_set d p now; pure true)
    else if is cr.state declined
    then (do u ← decline_pending approver_set d p now; pure true)
    else pure false

unfoldable pub act_on_set : Prepared → RevisionRow → ℕ → Op Bool
unfolding find_change_request act_on_set_request
act_on_set d p now = do cr ← find_change_request p.cr_id.int64; act_on_set_request d p now cr

abbrev pub set_acted : List UpdateErr → Result RevErr Bool × World → SetOutcome × World
set_acted errs (failed e, w) = (returns false errs e, w)
set_acted errs (done b, w) =
    (record { changes = false; cascade = b; errors = errs; goes_on = true }, w)

abbrev pub set_saved : Result RevErr (Unit {0}) × World → SetOutcome × World
set_saved (failed e, w) = (returns true [] e, w)
set_saved (done u, w) = (record { changes = true; cascade = true; errors = []; goes_on = true }, w)

module _ (verify_cr : Prepared → World → Checked × World) (now : ℕ) where
  unfoldable pub checked_set : Prepared → RevisionRow → Checked × World → SetOutcome × World
  unfolding act_on_set
  checked_set d p ((ok, errs), w) =
      if ok
      then set_acted (unverified_all errs) (act_on_set d p now w)
      else (record quiet { errors = unverified_all errs }, w)

  -- The row that was read again gets the state, and is saved behind the switch.
  unfoldable pub set_back : ObjectRow → Prepared → World → SetOutcome × World
  unfolding state_back save_object
  set_back o d w = set_saved (save_object (record o { object_state = state_back approver_set d }) w)

  unfoldable pub pending_approver_set :
      ObjectRow → Prepared → Option RevisionRow → World → SetOutcome × World
  unfolding checked_set set_back
  pending_approver_set o d none w = set_back o d w
  pending_approver_set o d (some p) w =
      if p.cr_id.valid then checked_set d p (verify_cr d w) else set_back o d w

  -- The switch, and the Save behind it.
  unfoldable pub switch_set : Prepared → ObjectRow → World → SetOutcome × World
  unfolding is_settled is_pending
  switch_set d o w =
      if is_settled approver_set d.row.object_state
      then (quiet, w)
      else if is_pending approver_set d.row.object_state
      then pending_approver_set o d d.pending_revision w
      else (quiet, w)

  unfoldable pub set_read : Prepared → Result RevErr ObjectRow × World → SetOutcome × World
  unfolding switch_set
  set_read d (failed e, w) = (returns false [] e, w)
  set_read d (done o, w) = switch_set d o w

  -- UpdateState up to the cascade, on an approver set that is prepared.
  unfoldable pub update_set_row : Prepared → World → SetOutcome × World
  unfolding find_object
  update_set_row d w = set_read d (find_object d.row.object_id w)

  module _ (pending_approvals : ObjectRow → World → List ℕ)
      (update_approval : ℕ → World → Updated) where
    -- The loop over the pending approvals.
    unfoldable pub update_pending_approvals : List ℕ → Updated → Updated
    update_pending_approvals [] r = r
    update_pending_approvals (a ∷ rest) ((changes, errs), w) =
        let ((sub, sub_errs), w') = update_approval a w in
        update_pending_approvals rest ((changes || sub, errs ++ sub_errs), w')

    unfoldable pub cascade_found : SetOutcome → Result RevErr ObjectRow × World → Updated
    unfolding update_pending_approvals
    cascade_found s (failed e, w) = ((s.changes, s.errors ++ revision_error e ∷ []), w)
    cascade_found s (done o, w) =
        update_pending_approvals (pending_approvals o w) ((s.changes, s.errors), w)

    unfoldable pub cascade_set : Prepared → SetOutcome × World → Updated
    unfolding find_object
    cascade_set d (s, w) =
        if s.goes_on
        then (if s.cascade
            then cascade_found s (find_object d.row.object_id w)
            else ((s.changes, s.errors), w))
        else ((s.changes, s.errors), w)

    -- UpdateState, on an approver set that is prepared.
    unfoldable pub approver_set_update_state : Prepared → World → Updated
    unfolding update_set_row cascade_set
    approver_set_update_state d w = cascade_set d (update_set_row d w)
