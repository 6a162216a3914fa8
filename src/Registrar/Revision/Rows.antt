-- ===== src/Registrar/Revision/Rows.antt =====
-- Rows that a Save has written, and what the operations on revisions (Promote, Supersed and Decline
-- of lib/domainrevision.go and its siblings) leave alone.
use go_registrar.Prelude.{ℕ, ◌≡◌, ◌≢◌, refl, true, some, List, [], ◌∷◌, arith}
use go_registrar.Prelude.Try.{done}
use go_registrar.Registrar.State.{approved, pending_approval}
use go_registrar.Registrar.Model.{ChangeRequest}
use go_registrar.Registrar.Store.{next_fault, lookup_request}
use go_registrar.Registrar.Revision.{
  Kind, ObjectRow, RevisionRow, World, lookup_object, lookup_revision, replace_object,
  replace_revision, find_object, find_revision, find_change_request, save_object, save_revision,
  promoted, promote_request, promote, can_be_superseded, superseded_row, supersed, declined_row,
  decline,
}

pub lookup_object-saved :
    (r q : ObjectRow) (k : ℕ) (l : List ObjectRow)
    → r.object_id ≡ k
    → lookup_object k l ≡ some q
    → lookup_object k (replace_object r l) ≡ some r
unfolding lookup_object replace_object
lookup_object-saved r q k [] e h = cc
lookup_object-saved r q k (p ∷ l) e h = ground (arith, lookup_object-saved r q k l e)

pub lookup_object-other :
    (r : ObjectRow) (k : ℕ) (l : List ObjectRow)
    → r.object_id ≢ k
    → lookup_object k (replace_object r l) ≡ lookup_object k l
unfolding lookup_object replace_object
lookup_object-other r k [] h = refl
lookup_object-other r k (p ∷ l) h = ground (arith, lookup_object-other r k l h)

pub lookup_revision-replace_revision :
    (r q : RevisionRow) (l : List RevisionRow)
    → lookup_revision r.revision_id l ≡ some q
    → lookup_revision r.revision_id (replace_revision r l) ≡ some r
unfolding lookup_revision replace_revision
lookup_revision-replace_revision r q [] h = cc
lookup_revision-replace_revision r q (p ∷ l) h =
    ground (arith, lookup_revision-replace_revision r q l)

pub lookup_revision-other :
    (r : RevisionRow) (k : ℕ) (l : List RevisionRow)
    → r.revision_id ≢ k
    → lookup_revision k (replace_revision r l) ≡ lookup_revision k l
unfolding lookup_revision replace_revision
lookup_revision-other r k [] h = refl
lookup_revision-other r k (p ∷ l) h = ground (arith, lookup_revision-other r k l h)

-- The tables of objects and of change requests are as before.
abbrev pub SameObjects : World → World → Type 0
SameObjects w w' = (w'.objects ≡ w.objects) × (w'.requests ≡ w.requests)

pub find_object-SameObjects : (k : ℕ) (w : World) → SameObjects w (find_object k w).1
unfolding find_object
find_object-SameObjects k w = ground arith

pub find_revision-SameObjects : (k : ℕ) (w : World) → SameObjects w (find_revision k w).1
unfolding find_revision
find_revision-SameObjects k w = ground arith

pub find_change_request-SameObjects :
    (k : ℕ) (w : World) → SameObjects w (find_change_request k w).1
unfolding find_change_request
find_change_request-SameObjects k w = ground arith

pub find_object-found :
    (k : ℕ) (w : World) (o : ObjectRow)
    → (find_object k w).0 ≡ done o
    → lookup_object k w.objects ≡ some o
unfolding find_object
find_object-found k w o h = ground arith

pub find_revision-found :
    (k : ℕ) (w : World) (r : RevisionRow)
    → (find_revision k w).0 ≡ done r
    → lookup_revision k w.revisions ≡ some r
unfolding find_revision
find_revision-found k w r h = ground arith

pub find_revision-revisions : (k : ℕ) (w : World) → (find_revision k w).1.revisions ≡ w.revisions
unfolding find_revision
find_revision-revisions k w = ground arith

pub save_object-revisions :
    (o : ObjectRow) (w : World) → (save_object o w).1.revisions ≡ w.revisions
unfolding save_object
save_object-revisions o w = ground arith

pub find_change_request-found :
    (k : ℕ) (w : World) (cr : ChangeRequest)
    → (find_change_request k w).0 ≡ done cr
    → lookup_request k w.requests ≡ some cr
unfolding find_change_request
find_change_request-found k w cr h = ground arith

pub save_revision-SameObjects : (r : RevisionRow) (w : World) → SameObjects w (save_revision r w).1
unfolding save_revision
save_revision-SameObjects r w = ground arith

pub promote-SameObjects :
    (r : RevisionRow) (now : ℕ) (w : World) → SameObjects w (promote r now w).1
unfolding promote promote_request
promote-SameObjects r now w = ground (
  arith,
  find_change_request-SameObjects r.cr_id.int64 w,
  save_revision-SameObjects (promoted r now) (find_change_request r.cr_id.int64 w).1,
)

pub supersed-SameObjects :
    (kind : Kind) (r : RevisionRow) (now : ℕ) (w : World) → SameObjects w (supersed kind r now w).1
unfolding supersed
supersed-SameObjects kind r now w =
    ground (arith, save_revision-SameObjects (superseded_row r now) w)

pub decline-SameObjects :
    (r : RevisionRow) (now : ℕ) (w : World) → SameObjects w (decline r now w).1
unfolding decline
decline-SameObjects r now w = ground (arith, save_revision-SameObjects (declined_row r now) w)

-- The operations where no fault is to come.
pub find_object-calm :
    (k : ℕ) (w : World) (o : ObjectRow)
    → w.faults ≡ []
    → lookup_object k w.objects ≡ some o
    → find_object k w ≡ (done o, w)
unfolding find_object next_fault
find_object-calm k w o calm h = ground arith

pub find_revision-calm :
    (k : ℕ) (w : World) (r : RevisionRow)
    → w.faults ≡ []
    → lookup_revision k w.revisions ≡ some r
    → find_revision k w ≡ (done r, w)
unfolding find_revision next_fault
find_revision-calm k w r calm h = ground arith

pub find_change_request-calm :
    (k : ℕ) (w : World) (cr : ChangeRequest)
    → w.faults ≡ []
    → lookup_request k w.requests ≡ some cr
    → find_change_request k w ≡ (done cr, w)
unfolding find_change_request next_fault
find_change_request-calm k w cr calm h = ground arith

pub save_object-calm :
    (o : ObjectRow) (w : World)
    → w.faults ≡ []
    → save_object o w ≡ (done tt, record w { objects = replace_object o w.objects })
unfolding save_object next_fault
save_object-calm o w calm = ground arith

save_revision-calm :
    (r : RevisionRow) (w : World)
    → w.faults ≡ []
    → save_revision r w ≡ (done tt, record w { revisions = replace_revision r w.revisions })
unfolding save_revision next_fault
save_revision-calm r w calm = ground arith

abbrev pub with_revision : World → RevisionRow → World
with_revision w r = record w { revisions = replace_revision r w.revisions }

-- Promote where the change request of the revision is approved.
pub promote-calm :
    (r : RevisionRow) (now : ℕ) (w : World) (cr : ChangeRequest)
    → w.faults ≡ []
    → r.revision_state ≡ pending_approval
    → r.cr_id.valid ≡ true
    → lookup_request r.cr_id.int64 w.requests ≡ some cr
    → cr.state ≡ approved
    → promote r now w ≡ (done tt, with_revision w (promoted r now))
unfolding promote promote_request
promote-calm r now w cr calm pending valid h ok = ground (
  arith,
  find_change_request-calm r.cr_id.int64 w cr calm h,
  save_revision-calm (promoted r now) w calm,
)

pub supersed-calm :
    (kind : Kind) (r : RevisionRow) (now : ℕ) (w : World)
    → w.faults ≡ []
    → can_be_superseded kind r.revision_state ≡ true
    → supersed kind r now w ≡ (done tt, with_revision w (superseded_row r now))
unfolding supersed
supersed-calm kind r now w calm ok = rw (ok, save_revision-calm (superseded_row r now) w calm) refl

pub decline-calm :
    (r : RevisionRow) (now : ℕ) (w : World)
    → w.faults ≡ []
    → r.revision_state ≡ pending_approval
    → decline r now w ≡ (done tt, with_revision w (declined_row r now))
unfolding decline
decline-calm r now w calm pending =
    rw (pending, save_revision-calm (declined_row r now) w calm) refl
