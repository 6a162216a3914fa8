-- ===== src/Registrar/Lifecycle/ApiUsers.antt =====
-- UpdateState of an API user (lib/apiuser.go). It differs from that of the other objects in that the
-- change request is found before VerifyCR, which finds it again, and that an error of the first
-- search is collected but does not stop.
pub mod Explained
use go_registrar.Prelude.{ℕ, true, false, Option, none, some, List, [], ◌∷◌, ◌++◌, if◌then◌else◌}
use go_registrar.Prelude.Try.{Result, failed, done, throw}
use go_registrar.Registrar.State.{is, approved, declined}
use go_registrar.Registrar.Model.{ChangeRequest}
use go_registrar.Registrar.Verify.{Checked}
use go_registrar.Registrar.Revision.{
  api_user, RevisionRow, World, RevErr, unable_to_handle_state, state_not_implemented, Op,
  find_change_request, save_object,
}
use go_registrar.Registrar.Lifecycle.{
  Prepared, UpdateErr, revision_error, is_settled, is_pending, promote_pending, decline_pending,
  state_back, unverified_all, Updated, reported,
}

abbrev found_errors : Result RevErr ChangeRequest → List UpdateErr
found_errors (failed e) = revision_error e ∷ []
found_errors (done cr) = []

-- The two branches of a request that checks out; a request that was not found has no state.
unfoldable pub act_on_found :
    Prepared → RevisionRow → ℕ → Result RevErr ChangeRequest → Op (Unit {0})
unfolding promote_pending decline_pending
act_on_found d p now (failed e) = throw unable_to_handle_state
act_on_found d p now (done cr) =
    if is cr.state approved
    then promote_pending api_user d p now
    else if is cr.state declined
    then decline_pending api_user d p now
    else throw unable_to_handle_state

module _ (verify_cr : Prepared → World → Checked × World) (now : ℕ) where
  -- What follows the search and VerifyCR.
  unfoldable pub checked_user :
      Prepared → RevisionRow → Result RevErr ChangeRequest → Checked × World → Updated
  unfolding act_on_found
  checked_user d p r ((ok, errs), w) =
      let all_errs = found_errors r ++ unverified_all errs in
      if ok then reported false all_errs (act_on_found d p now r w) else ((false, all_errs), w)

  unfoldable pub verified_user : Prepared → RevisionRow → World → Updated
  unfolding find_change_request checked_user
  verified_user d p w =
      let (r, w1) = find_change_request p.cr_id.int64 w in checked_user d p r (verify_cr d w1)

  unfoldable pub user_back : Prepared → World → Updated
  unfolding state_back save_object
  user_back d w =
      reported true [] (save_object (record d.row { object_state = state_back api_user d }) w)

  unfoldable pub pending_user : Prepared → Option RevisionRow → World → Updated
  unfolding verified_user user_back
  pending_user d none w = user_back d w
  pending_user d (some p) w = if p.cr_id.valid then verified_user d p w else user_back d w

  -- UpdateState, on an API user that is prepared.
  unfoldable pub api_user_update_state : Prepared → World → Updated
  unfolding is_settled is_pending
  api_user_update_state d w =
      if is_settled api_user d.row.object_state
      then ((false, []), w)
      else if is_pending api_user d.row.object_state
      then pending_user d d.pending_revision w
      else ((false, revision_error state_not_implemented ∷ []), w)
