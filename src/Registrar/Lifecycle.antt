-- ===== src/Registrar/Lifecycle.antt =====
-- UpdateState of domains, hosts and contacts (lib/domain.go, lib/host.go, lib/contact.go): what
-- becomes of an object and of its revisions when its change request is approved or declined.
-- VerifyCR on the object is an argument. Only the object's own row is written by a Save.
pub mod Rows
pub mod Promotion
pub mod Safety
pub mod Acts
pub mod Explained
pub mod Back
pub mod Declined
pub mod Reasons
pub mod ApiUsers
pub mod ApproverSets
use go_registrar.Prelude.{
  ℕ, String, Bool, true, false, not, ◌&&◌, ◌||◌, Option, none, some, List, [], ◌∷◌, ◌++◌, ◌==◌,
  if◌then◌else◌,
}
use go_registrar.Prelude.Try.{Result, failed, done, Try, ◌>>=◌, pure, throw}
use go_registrar.Registrar.State.{
  State, is, active, approved, bootstrap, pending_bootstrap, declined, inactive, external,
  new_external, new, pending_approval, active_pending_approval, inactive_pending_approval,
  external_pending_approval, pending_new, pending_new_external,
}
use go_registrar.Registrar.Model.{NullInt64, ChangeRequest}
use go_registrar.Registrar.Verify.{VerifyErr, Checked}
use go_registrar.Registrar.Revision.Reread.{promote_of, supersed_of, decline_of}
use go_registrar.Registrar.Revision.{
  Kind, domain, host, contact, ObjectRow, RevisionRow, World, RevErr, invalid_pending_state,
  unable_to_handle_state, state_not_implemented, Op, find_object, find_revision,
  find_change_request, save_object, promote, supersed, decline,
}

-- An object as Prepare leaves it: the current and the pending revision are loaded, if any.
pub record Prepared : Type 0 where
  pub row : ObjectRow
  pub current_revision : Option RevisionRow
  pub pending_revision : Option RevisionRow

-- The errors that UpdateState collects.
pub data UpdateErr : Type 0 where
  unverified : VerifyErr → UpdateErr
  revision_error : RevErr → UpdateErr

-- The cases of the switch of UpdateState.
unfoldable pub is_settled : Kind → State → Bool
is_settled domain s = is s new || is s inactive || is s active || is s external || is s new_external
is_settled _ s = is s new || is s inactive || is s active

unfoldable pub is_pending : Kind → State → Bool
is_pending domain s =
    is s pending_bootstrap
    || is s pending_new
    || is s active_pending_approval
    || is s inactive_pending_approval
    || is s external_pending_approval
    || is s pending_new_external
is_pending _ s =
    is s pending_bootstrap
    || is s pending_new
    || is s active_pending_approval
    || is s inactive_pending_approval

-- The states that an approved revision may ask for.
unfoldable pub is_target : Kind → State → Bool
is_target domain s = is s active || is s inactive || is s external
is_target _ s = is s active || is s inactive

-- Of a domain or a host, which the provisioning then brings to the registry.
abbrev provisioned_object : ObjectRow → RevisionRow → ℕ → ObjectRow
provisioned_object o p now = record o {
  object_state = p.desired_state;
  current_revision_id = record { int64 = p.revision_id; valid = true };
  check_required = true;
  epp_pending_change = true;
  epp_last_update = now;
  preview = p.preview_of;
}

-- Of a contact; it is not provisioned at once, but is to be checked.
abbrev contact_object : ObjectRow → RevisionRow → ObjectRow
contact_object o p = record o {
  object_state = p.desired_state;
  current_revision_id = record { int64 = p.revision_id; valid = true };
  check_required = true;
  preview = p.preview_of;
}

-- Of an API user or an approver set.
abbrev user_object : ObjectRow → RevisionRow → ObjectRow
user_object o p = record o {
  object_state = p.desired_state;
  current_revision_id = record { int64 = p.revision_id; valid = true };
}

-- The row of an object whose pending revision was approved.
unfoldable pub promoted_object : Kind → ObjectRow → RevisionRow → ℕ → ObjectRow
promoted_object domain o p now = provisioned_object o p now
promoted_object host o p now = provisioned_object o p now
promoted_object contact o p now = contact_object o p
promoted_object _ o p now = user_object o p

abbrev supersed_current : Kind → Prepared → Option RevisionRow → ℕ → Op (Unit {0})
unfolding supersed_of
supersed_current kind d none now = pure tt
supersed_current kind d (some c) now =
    if d.row.current_revision_id.valid then supersed_of kind c now else pure tt

save_promoted : Kind → RevisionRow → ℕ → ObjectRow → Op (Unit {0})
unfolding save_object promoted_object is_target
save_promoted kind p now o =
    if is_target kind p.desired_state
    then save_object (promoted_object kind o p now)
    else throw invalid_pending_state

-- The branch of an approved change request, up to the Save.
unfoldable pub promote_pending : Kind → Prepared → RevisionRow → ℕ → Op (Unit {0})
unfolding promote_of supersed_of find_object save_promoted
promote_pending kind d p now = do
  u ← promote_of kind p now
  v ← supersed_current kind d d.current_revision now
  o ← find_object d.row.object_id
  save_promoted kind p now o

-- The whole branch, of a domain, a host or a contact.
unfoldable pub approve_pending : Kind → Prepared → RevisionRow → ℕ → Op (Unit {0})
unfolding promote_pending find_revision
approve_pending kind d p now = do
  u ← promote_pending kind d p now
  r ← find_revision p.revision_id
  pure tt

-- The state of an object without a current revision whose change request was declined.
unfoldable pub state_without_revision : Kind → State → State
state_without_revision domain s = if is s external_pending_approval then new_external else new
state_without_revision _ s = new

unfoldable pub state_of_revision : State → State
state_of_revision s = if is s bootstrap then active else s

declined_state : Kind → Prepared → Op State
unfolding find_revision state_of_revision state_without_revision
declined_state kind d =
    if d.row.current_revision_id.valid
    then (do
      c ← find_revision d.row.current_revision_id.int64
      pure (state_of_revision c.revision_state))
    else pure (state_without_revision kind d.row.object_state)

-- The branch of a declined change request.
unfoldable pub decline_pending : Kind → Prepared → RevisionRow → ℕ → Op (Unit {0})
unfolding decline_of find_object declined_state save_object
decline_pending kind d p now = do
  u ← decline_of kind p now
  o ← find_object d.row.object_id
  s ← declined_state kind d
  save_object (record o { object_state = s })

-- What follows a VerifyCR that checks out.
unfoldable pub act_on_request : Kind → Prepared → RevisionRow → ℕ → Op (Unit {0})
unfolding find_change_request approve_pending decline_pending
act_on_request kind d p now = do
  cr ← find_change_request p.cr_id.int64
  if is cr.state approved
      then approve_pending kind d p now
      else if is cr.state declined
      then decline_pending kind d p now
      else throw unable_to_handle_state

abbrev current_desired : Option RevisionRow → State → State
current_desired none s = s
current_desired (some c) s = c.desired_state

-- The state of a pending object that has no pending revision with a change request.
unfoldable pub state_back : Kind → Prepared → State
state_back domain d =
    if is d.row.object_state pending_bootstrap
    then bootstrap
    else if d.row.current_revision_id.valid
    then current_desired d.current_revision d.row.object_state
    else if is d.row.object_state pending_new_external
    then new_external
    else new
state_back _ d =
    if is d.row.object_state pending_bootstrap
    then bootstrap
    else if d.row.current_revision_id.valid
    then current_desired d.current_revision d.row.object_state
    else new

abbrev pub unverified_all : List VerifyErr → List UpdateErr
unverified_all [] = []
unverified_all (e ∷ rest) = unverified e ∷ unverified_all rest

-- What UpdateState returns: whether changes were made, and the errors.
abbrev pub Updated : Type 0
Updated = (Bool × List UpdateErr) × World

abbrev pub reported : Bool → List UpdateErr → Result RevErr (Unit {0}) × World → Updated
reported changes errs (done u, w) = ((changes, errs), w)
reported changes errs (failed e, w) = ((changes, errs ++ revision_error e ∷ []), w)

module _ (kind : Kind) (verify_cr : Prepared → World → Checked × World) (now : ℕ) where
  verified_pending : Prepared → RevisionRow → Checked × World → Updated
  unfolding act_on_request
  verified_pending d p ((ok, errs), w) =
      if ok
      then reported false (unverified_all errs) (act_on_request kind d p now w)
      else ((false, unverified_all errs), w)

  go_back : Prepared → World → Updated
  unfolding state_back save_object
  go_back d w = reported true [] (save_object (record d.row { object_state = state_back kind d }) w)

  abbrev pending_case : Prepared → Option RevisionRow → World → Updated
  unfolding verified_pending go_back
  pending_case d none w = go_back d w
  pending_case d (some p) w =
      if p.cr_id.valid then verified_pending d p (verify_cr d w) else go_back d w

  -- UpdateState, on an object that is prepared.
  unfoldable pub update_object_state : Prepared → World → Updated
  unfolding is_settled is_pending verified_pending go_back
  update_object_state d w =
      if is_settled kind d.row.object_state
      then ((false, []), w)
      else if is_pending kind d.row.object_state
      then pending_case d d.pending_revision w
      else ((false, revision_error state_not_implemented ∷ []), w)

-- The UpdateState of each type.
unfoldable pub domain_update_state :
    (Prepared → World → Checked × World) → ℕ → Prepared → World → Updated
unfolding update_object_state
domain_update_state verify_cr now d w = update_object_state domain verify_cr now d w

unfoldable pub host_update_state :
    (Prepared → World → Checked × World) → ℕ → Prepared → World → Updated
unfolding update_object_state
host_update_state verify_cr now d w = update_object_state host verify_cr now d w

unfoldable pub contact_update_state :
    (Prepared → World → Checked × World) → ℕ → Prepared → World → Updated
unfolding update_object_state
contact_update_state verify_cr now d w = update_object_state contact verify_cr now d w
