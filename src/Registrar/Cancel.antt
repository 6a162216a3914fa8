-- ===== src/Registrar/Cancel.antt =====
-- Cancel of a revision of a domain, a host or a contact (lib/domainrevision.go, lib/hostrevision.go,
-- lib/contactrevision.go). UpdateState of the change request is an argument. The cache does not hold
-- the parent when Cancel looks for it: only the revision was loaded before.
pub mod Withdraws
use go_registrar.Prelude.{
  ℕ, Bool, true, false, ◌&&◌, ◌||◌, Option, none, some, List, [], ◌∷◌, ◌++◌, ◌==◌, if◌then◌else◌,
}
use go_registrar.Prelude.Try.{Result, failed, done, ◌>>=◌, pure}
use go_registrar.Registrar.State.{is, cancelled, new, pending_approval}
use go_registrar.Registrar.Model.{ChangeRequest}
use go_registrar.Registrar.Store.{next_fault}
use go_registrar.Registrar.Verify.{Checked}
use go_registrar.Registrar.Revision.{
  Kind, ObjectRow, RevisionRow, World, RevErr, not_found, save_failed, cannot_cancel, Op,
  find_object, find_revision, find_change_request,
}
use go_registrar.Registrar.Lifecycle.{
  Prepared, UpdateErr, revision_error, Updated, update_object_state,
}

unfoldable pub is_open : ℕ → RevisionRow → Bool
is_open k r = r.parent_id == k && (is r.revision_state new || is r.revision_state pending_approval)

-- The first revision of the object, by key, that is new or waits for approval.
unfoldable pub first_open : ℕ → List RevisionRow → Option RevisionRow
unfolding is_open
first_open k [] = none
first_open k (r ∷ rest) = if is_open k r then some r else first_open k rest

-- GetNewAndPendingRevisions; that there is none is no error of Prepare.
unfoldable pub find_pending : ℕ → Op (Option RevisionRow)
unfolding next_fault first_open
find_pending k w =
    let (fails, rest) = next_fault w.faults in
    if fails
    then (failed not_found, record w { faults = rest })
    else (done (first_open k w.revisions), record w { faults = rest })

unfoldable pub find_current : ObjectRow → Op (Option RevisionRow)
unfolding find_revision
find_current o =
    if o.current_revision_id.valid
    then (do c ← find_revision o.current_revision_id.int64; pure (some c))
    else pure none

-- FindByID of an object, which prepares it.
unfoldable pub find_prepared : ℕ → Op Prepared
unfolding find_object find_current find_pending
find_prepared k = do
  o ← find_object k
  c ← find_current o
  p ← find_pending o.object_id
  pure (record { row = o; current_revision = c; pending_revision = p })

-- UpdateColumns of the state alone.
unfoldable pub cancel_row : ℕ → List RevisionRow → List RevisionRow
cancel_row k [] = []
cancel_row k (r ∷ rest) =
    (if r.revision_id == k then record r { revision_state = cancelled } else r) ∷ cancel_row k rest

unfoldable pub update_columns : RevisionRow → Op (Unit {0})
unfolding next_fault cancel_row
update_columns r w =
    let (fails, rest) = next_fault w.faults in
    if fails
    then (failed save_failed, record w { faults = rest })
    else (done tt, record w { faults = rest; revisions = cancel_row r.revision_id w.revisions })

abbrev pub Cancelled : Type 0
Cancelled = List UpdateErr × World

abbrev pub find_errors : Result RevErr ChangeRequest → List UpdateErr
find_errors (failed e) = revision_error e ∷ []
find_errors (done cr) = []

module _ (kind : Kind) (verify_cr : Prepared → World → Checked × World)
    (update_request : Result RevErr ChangeRequest → World → List UpdateErr × World) (now : ℕ) where
  -- The change request of the revision, if it has one, updates its state.
  unfoldable pub cancel_request : RevisionRow → Updated → Cancelled
  unfolding find_change_request
  cancel_request r ((changes, errs), w) =
      let (cr, w1) = find_change_request r.cr_id.int64 w in
      let (request_errs, w2) = update_request cr w1 in
      if r.cr_id.valid then (errs ++ find_errors cr ++ request_errs, w2) else (errs, w)

  cancel_parent : RevisionRow → Result RevErr Prepared × World → Cancelled
  unfolding update_object_state cancel_request
  cancel_parent r (failed e, w) = (revision_error e ∷ [], w)
  cancel_parent r (done d, w) = cancel_request r (update_object_state kind verify_cr now d w)

  cancel_updated : RevisionRow → Result RevErr (Unit {0}) × World → Cancelled
  unfolding find_prepared cancel_parent
  cancel_updated r (failed e, w) = (revision_error e ∷ [], w)
  cancel_updated r (done u, w) = cancel_parent r (find_prepared r.parent_id w)

  -- Cancel.
  unfoldable pub cancel : RevisionRow → World → Cancelled
  unfolding update_columns cancel_updated
  cancel r w =
      if is r.revision_state new || is r.revision_state pending_approval
      then cancel_updated r (update_columns r w)
      else (revision_error cannot_cancel ∷ [], w)
