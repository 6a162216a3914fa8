-- ===== src/Registrar/Revision/Reread.antt =====
-- Promote, Supersed and Decline of each type of revision. Those of approver sets
-- (lib/approversetrevision.go) read the row again, decide by its state and save it; the others work
-- on the revision that they are called on.
use go_registrar.Prelude.{ℕ, ◌≡◌, refl, ap, ◌∙◌, true, some, [], arith, ◌||◌, if◌then◌else◌}
use go_registrar.Prelude.Try.{done, ◌>>=◌, throw, bind-ends}
use go_registrar.Registrar.State.{is, approved, cancelled, approval_failed, pending_approval}
use go_registrar.Registrar.Model.{ChangeRequest}
use go_registrar.Registrar.Store.{lookup_request}
use go_registrar.Registrar.Revision.{
  Kind, domain, host, contact, api_user, approver_set, RevisionRow, World, Op, cannot_promote,
  not_approved, no_change_request, lookup_revision, find_revision, find_change_request,
  save_revision, promoted, promote, can_be_superseded, superseded_row, supersed, declined_row,
  decline,
}
use go_registrar.Registrar.Revision.Rows.{
  SameObjects, find_revision-SameObjects, find_change_request-SameObjects,
  save_revision-SameObjects, promote-SameObjects, supersed-SameObjects, decline-SameObjects,
  find_revision-calm, promote-calm, supersed-calm, decline-calm, with_revision,
}

abbrev promoted_copy : RevisionRow → RevisionRow → ℕ → RevisionRow
promoted_copy a t now = record t { revision_state = a.desired_state; promoted_time = some now }

promote_copy_request : RevisionRow → RevisionRow → ℕ → ChangeRequest → Op (Unit {0})
unfolding save_revision
promote_copy_request a t now cr =
    if is cr.state approved then save_revision (promoted_copy a t now) else throw not_approved

-- Promote of an approver set revision `a`, on the row `t` that it has read.
unfoldable pub promote_copy : RevisionRow → RevisionRow → ℕ → Op (Unit {0})
unfolding find_change_request promote_copy_request
promote_copy a t now =
    if is t.revision_state cancelled || is t.revision_state approval_failed
    then throw cannot_promote
    else if a.cr_id.valid
    then (do cr ← find_change_request a.cr_id.int64; promote_copy_request a t now cr)
    else throw no_change_request

unfoldable pub promote_of : Kind → RevisionRow → ℕ → Op (Unit {0})
unfolding promote promote_copy find_revision
promote_of approver_set a now = do t ← find_revision a.revision_id; promote_copy a t now
promote_of _ a now = promote a now

unfoldable pub supersed_of : Kind → RevisionRow → ℕ → Op (Unit {0})
unfolding supersed find_revision
supersed_of approver_set a now = do t ← find_revision a.revision_id; supersed approver_set t now
supersed_of kind a now = supersed kind a now

unfoldable pub decline_of : Kind → RevisionRow → ℕ → Op (Unit {0})
unfolding decline find_revision
decline_of approver_set a now = do t ← find_revision a.revision_id; decline t now
decline_of _ a now = decline a now

-- A row that is read and then worked on.
reread-SameObjects :
    (k : ℕ) (f : RevisionRow → Op (Unit {0})) (w : World)
    → ((t : RevisionRow) (v : World) → SameObjects v (f t v).1)
    → SameObjects w ((find_revision k >>= f) w).1
reread-SameObjects k f w same =
    bind-ends (SameObjects w) (find_revision k) f w
      (λ e v q. rw (← ap (λ r. r.1) q) (find_revision-SameObjects k w))
      (λ t v q.
        let kept : SameObjects w v = rw (← ap (λ r. r.1) q) (find_revision-SameObjects k w) in
        ((same t v).0 ∙ kept.0, (same t v).1 ∙ kept.1))

promote_copy-SameObjects :
    (a t : RevisionRow) (now : ℕ) (w : World) → SameObjects w (promote_copy a t now w).1
unfolding promote_copy promote_copy_request
promote_copy-SameObjects a t now w = ground (
  arith,
  find_change_request-SameObjects a.cr_id.int64 w,
  save_revision-SameObjects (promoted_copy a t now) (find_change_request a.cr_id.int64 w).1,
)

pub promote_of-SameObjects :
    (kind : Kind) (a : RevisionRow) (now : ℕ) (w : World)
    → SameObjects w (promote_of kind a now w).1
unfolding promote_of
promote_of-SameObjects domain a now w = promote-SameObjects a now w
promote_of-SameObjects host a now w = promote-SameObjects a now w
promote_of-SameObjects contact a now w = promote-SameObjects a now w
promote_of-SameObjects api_user a now w = promote-SameObjects a now w
promote_of-SameObjects approver_set a now w =
    reread-SameObjects a.revision_id (λ t. promote_copy a t now) w
      (λ t v. promote_copy-SameObjects a t now v)

pub supersed_of-SameObjects :
    (kind : Kind) (a : RevisionRow) (now : ℕ) (w : World)
    → SameObjects w (supersed_of kind a now w).1
unfolding supersed_of
supersed_of-SameObjects domain a now w = supersed-SameObjects domain a now w
supersed_of-SameObjects host a now w = supersed-SameObjects host a now w
supersed_of-SameObjects contact a now w = supersed-SameObjects contact a now w
supersed_of-SameObjects api_user a now w = supersed-SameObjects api_user a now w
supersed_of-SameObjects approver_set a now w =
    reread-SameObjects a.revision_id (λ t. supersed approver_set t now) w
      (λ t v. supersed-SameObjects approver_set t now v)

pub decline_of-SameObjects :
    (kind : Kind) (a : RevisionRow) (now : ℕ) (w : World)
    → SameObjects w (decline_of kind a now w).1
unfolding decline_of
decline_of-SameObjects domain a now w = decline-SameObjects a now w
decline_of-SameObjects host a now w = decline-SameObjects a now w
decline_of-SameObjects contact a now w = decline-SameObjects a now w
decline_of-SameObjects api_user a now w = decline-SameObjects a now w
decline_of-SameObjects approver_set a now w =
    reread-SameObjects a.revision_id (λ t. decline t now) w (λ t v. decline-SameObjects t now v)

-- Where no fault is to come, the row that is read again is the revision.
promote_copy-own :
    (a : RevisionRow) (now : ℕ) (w : World) → promote_copy a a now w ≡ promote a now w
unfolding promote_copy promote_copy_request promote
promote_copy-own a now w = refl

pub promote_of-calm :
    (kind : Kind) (a : RevisionRow) (now : ℕ) (w : World) (cr : ChangeRequest)
    → w.faults ≡ []
    → lookup_revision a.revision_id w.revisions ≡ some a
    → a.revision_state ≡ pending_approval
    → a.cr_id.valid ≡ true
    → lookup_request a.cr_id.int64 w.requests ≡ some cr
    → cr.state ≡ approved
    → promote_of kind a now w ≡ (done tt, with_revision w (promoted a now))
unfolding promote_of
promote_of-calm domain a now w cr calm own pending valid h ok =
    promote-calm a now w cr calm pending valid h ok
promote_of-calm host a now w cr calm own pending valid h ok =
    promote-calm a now w cr calm pending valid h ok
promote_of-calm contact a now w cr calm own pending valid h ok =
    promote-calm a now w cr calm pending valid h ok
promote_of-calm api_user a now w cr calm own pending valid h ok =
    promote-calm a now w cr calm pending valid h ok
promote_of-calm approver_set a now w cr calm own pending valid h ok =
    simp (find_revision-calm a.revision_id w a calm own)
      (promote_copy-own a now w ∙ promote-calm a now w cr calm pending valid h ok)

pub supersed_of-calm :
    (kind : Kind) (a : RevisionRow) (now : ℕ) (w : World)
    → w.faults ≡ []
    → lookup_revision a.revision_id w.revisions ≡ some a
    → can_be_superseded kind a.revision_state ≡ true
    → supersed_of kind a now w ≡ (done tt, with_revision w (superseded_row a now))
unfolding supersed_of
supersed_of-calm domain a now w calm own ok = supersed-calm domain a now w calm ok
supersed_of-calm host a now w calm own ok = supersed-calm host a now w calm ok
supersed_of-calm contact a now w calm own ok = supersed-calm contact a now w calm ok
supersed_of-calm api_user a now w calm own ok = supersed-calm api_user a now w calm ok
supersed_of-calm approver_set a now w calm own ok =
    simp (find_revision-calm a.revision_id w a calm own)
      (supersed-calm approver_set a now w calm ok)

pub decline_of-calm :
    (kind : Kind) (a : RevisionRow) (now : ℕ) (w : World)
    → w.faults ≡ []
    → lookup_revision a.revision_id w.revisions ≡ some a
    → a.revision_state ≡ pending_approval
    → decline_of kind a now w ≡ (done tt, with_revision w (declined_row a now))
unfolding decline_of
decline_of-calm domain a now w calm own pending = decline-calm a now w calm pending
decline_of-calm host a now w calm own pending = decline-calm a now w calm pending
decline_of-calm contact a now w calm own pending = decline-calm a now w calm pending
decline_of-calm api_user a now w calm own pending = decline-calm a now w calm pending
decline_of-calm approver_set a now w calm own pending =
    simp (find_revision-calm a.revision_id w a calm own) (decline-calm a now w calm pending)
