-- ===== src/Registrar/Cancel/Withdraws.antt =====
-- What Cancel of a revision (lib/domainrevision.go, lib/hostrevision.go, lib/contactrevision.go)
-- leaves behind: the object no longer waits for the revision.
use go_registrar.Prelude.{
  ℕ, ◌≡◌, ◌≢◌, ◌⊎◌, inl, inr, refl, ap, sym, ◌∙◌, true, false, Option, none, some, List, [], ◌∷◌,
  arith, All, ◌||◌,
}
use go_registrar.Prelude.Try.{Result, done}
use go_registrar.Registrar.State.{State, is, cancelled, new, pending_approval}
use go_registrar.Registrar.Model.{ChangeRequest}
use go_registrar.Registrar.Verify.{Checked}
use go_registrar.Registrar.Store.{next_fault}
use go_registrar.Registrar.Revision.{
  Kind, ObjectRow, RevisionRow, World, RevErr, lookup_object, lookup_revision, replace_object,
}
use go_registrar.Registrar.Revision.Rows.{
  lookup_object-saved, lookup_object-other, find_object-calm, find_revision-calm, save_object-calm,
}
use go_registrar.Registrar.Lifecycle.{
  Prepared, UpdateErr, is_settled, is_pending, state_back, update_object_state,
}
use go_registrar.Registrar.Lifecycle.Rows.{GoesBackTo, state_back-GoesBackTo}
use go_registrar.Registrar.Lifecycle.Back.{update_object_state-back}
use go_registrar.Registrar.Lifecycle.Promotion.{lookup_object-object_id}
use go_registrar.Registrar.Cancel.{
  is_open, first_open, find_pending, find_current, find_prepared, cancel_row, update_columns,
  cancel_request, cancel_parent, cancel_updated, cancel,
}

cancel_row-own :
    (r : RevisionRow) (l : List RevisionRow)
    → lookup_revision r.revision_id l ≡ some r
    → lookup_revision r.revision_id (cancel_row r.revision_id l)
      ≡ some (record r { revision_state = cancelled })
unfolding lookup_revision cancel_row
cancel_row-own r [] h = cc
cancel_row-own r (q ∷ l) h = ground (arith, cancel_row-own r l)

cancel_row-other :
    (k j : ℕ) (l : List RevisionRow)
    → k ≢ j
    → lookup_revision j (cancel_row k l) ≡ lookup_revision j l
unfolding lookup_revision cancel_row
cancel_row-other k j [] h = refl
cancel_row-other k j (q ∷ l) h = ground (arith, cancel_row-other k j l h)

-- The revision is the only one of the object that is new or waits for approval.
abbrev pub OnlyOpen : RevisionRow → List RevisionRow → Type 0
OnlyOpen r l = All (λ q. is_open r.parent_id q ≡ true → q.revision_id ≡ r.revision_id) l

first_open-cancel_row :
    (r : RevisionRow) (l : List RevisionRow)
    → OnlyOpen r l
    → first_open r.parent_id (cancel_row r.revision_id l) ≡ none
unfolding first_open cancel_row is_open
first_open-cancel_row r [] h = refl
first_open-cancel_row r (q ∷ l) h = ground (arith, first_open-cancel_row r l h.1, h.0)

update_columns-calm :
    (r : RevisionRow) (w : World)
    → w.faults ≡ []
    → update_columns r w ≡ (done tt, record w { revisions = cancel_row r.revision_id w.revisions })
unfolding update_columns next_fault
update_columns-calm r w calm = ground arith

find_pending-none :
    (k : ℕ) (w : World)
    → w.faults ≡ []
    → first_open k w.revisions ≡ none
    → find_pending k w ≡ (done none, w)
unfolding find_pending next_fault
find_pending-none k w calm h = ground arith

-- The current revision of the object, as it is loaded: there is none, or it is not the one that is
-- cancelled.
abbrev pub IsLoaded : ObjectRow → RevisionRow → Option RevisionRow → List RevisionRow → Type 0
IsLoaded o r current l =
    ((o.current_revision_id.valid ≡ false) × (current ≡ none))
    ⊎ ((c : RevisionRow) × (o.current_revision_id.valid ≡ true)
        × (r.revision_id ≢ o.current_revision_id.int64)
        × (lookup_revision o.current_revision_id.int64 l ≡ some c)
        × (current ≡ some c))

find_current-calm :
    (o : ObjectRow) (r : RevisionRow) (current : Option RevisionRow) (w : World)
    → w.faults ≡ []
    → IsLoaded o r current w.revisions
    → find_current o (record w { revisions = cancel_row r.revision_id w.revisions })
      ≡ (done current, record w { revisions = cancel_row r.revision_id w.revisions })
unfolding find_current
find_current-calm o r current w calm (inl (no_current, e)) =
    simp (no_current)
      (ap (λ t. (done t, record w { revisions = cancel_row r.revision_id w.revisions })) (sym e))
find_current-calm o r current w calm (inr (c, has, apart, found, e)) =
    let w1 = record w { revisions = cancel_row r.revision_id w.revisions } in
    simp
      (
        has,
        find_revision-calm o.current_revision_id.int64 w1 c calm
            (cancel_row-other r.revision_id o.current_revision_id.int64 w.revisions apart ∙ found),
      )
      (ap (λ t. (done t, w1)) (sym e))

-- The tables before, in which the object waits for the revision and for no other.
pub record Waits (kind : Kind) (r : RevisionRow) (o : ObjectRow) (current : Option RevisionRow)
    (w : World) : Type 0 where
  pub calm : w.faults ≡ []
  pub revision_found : lookup_revision r.revision_id w.revisions ≡ some r
  pub object_found : lookup_object r.parent_id w.objects ≡ some o
  pub only_open : OnlyOpen r w.revisions
  pub loaded : IsLoaded o r current w.revisions
  pub open_state : (is r.revision_state new || is r.revision_state pending_approval) ≡ true
  pub unsettled : is_settled kind o.object_state ≡ false
  pub pending : is_pending kind o.object_state ≡ true

abbrev pub parent_of : ObjectRow → Option RevisionRow → Prepared
parent_of o current = record { row = o; current_revision = current; pending_revision = none }

-- The tables that Cancel hands to the change request.
pub record IsWithdrawn (kind : Kind) (r : RevisionRow) (o : ObjectRow)
    (current : Option RevisionRow) (w w' : World) : Type 0 where
  pub object_back :
      (s : State) × GoesBackTo kind (parent_of o current) s
      × (lookup_object r.parent_id w'.objects ≡ some (record o { object_state = s }))
  pub revision_cancelled :
      lookup_revision r.revision_id w'.revisions ≡ some (record r { revision_state = cancelled })
  pub other_objects :
      (k : ℕ) → r.parent_id ≢ k → lookup_object k w'.objects ≡ lookup_object k w.objects
  pub other_revisions :
      (k : ℕ) → r.revision_id ≢ k → lookup_revision k w'.revisions ≡ lookup_revision k w.revisions
  pub same_requests : w'.requests ≡ w.requests

module _ (kind : Kind) (verify_cr : Prepared → World → Checked × World)
    (update_request : Result RevErr ChangeRequest → World → List UpdateErr × World) (now : ℕ)
    (r : RevisionRow) (o : ObjectRow) (current : Option RevisionRow) (w : World)
    (waits : Waits kind r o current w) where
  abbrev world_1 : World
  world_1 = record w { revisions = cancel_row r.revision_id w.revisions }

  abbrev row_back : ObjectRow
  row_back = record o { object_state = state_back kind (parent_of o current) }

  abbrev world_2 : World
  world_2 = record world_1 { objects = replace_object row_back w.objects }

  same_id : o.object_id ≡ r.parent_id
  same_id = lookup_object-object_id r.parent_id w.objects o waits.object_found

  none_open : first_open o.object_id world_1.revisions ≡ none
  none_open = rw same_id (first_open-cancel_row r w.revisions waits.only_open)

  find_prepared-calm : find_prepared r.parent_id world_1 ≡ (done (parent_of o current), world_1)
  unfolding find_prepared
  find_prepared-calm =
      simp
        (
          find_object-calm r.parent_id world_1 o waits.calm waits.object_found,
          find_current-calm o r current w waits.calm waits.loaded,
          find_pending-none o.object_id world_1 waits.calm none_open,
        )
        refl

  update_parent :
      update_object_state kind verify_cr now (parent_of o current) world_1 ≡ ((true, []), world_2)
  update_parent =
      update_object_state-back kind verify_cr now (parent_of o current) world_1 world_2
        waits.unsettled waits.pending refl (save_object-calm row_back world_1 waits.calm)

  cancel-calm :
      cancel kind verify_cr update_request now r w
      ≡ cancel_request kind verify_cr update_request now r ((true, []), world_2)
  unfolding cancel cancel_updated cancel_parent
  cancel-calm =
      simp (waits.open_state, update_columns-calm r w waits.calm, find_prepared-calm, update_parent)
        refl

  -- Where an object waits for the revision and for no other, and no operation fails, Cancel marks the
  -- revision as cancelled and gives the object back the state that its current revision asks for, or
  -- that of an object without one, and nothing else changes before the change request of the
  -- revision, if it has one, updates its state.
  pub cancel-IsWithdrawn :
      (w' : World) × (cancel kind verify_cr update_request now r w
        ≡ cancel_request kind verify_cr update_request now r ((true, []), w'))
      × IsWithdrawn kind r o current w w'
  cancel-IsWithdrawn = (
    world_2,
    cancel-calm,
    record {
      object_back = (
        state_back kind (parent_of o current),
        state_back-GoesBackTo kind (parent_of o current),
        lookup_object-saved row_back o r.parent_id w.objects same_id waits.object_found,
      );
      revision_cancelled = cancel_row-own r w.revisions waits.revision_found;
      other_objects = λ k n. lookup_object-other row_back k w.objects (λ e. n (sym same_id ∙ e));
      other_revisions = λ k n. cancel_row-other r.revision_id k w.revisions n;
      same_requests = refl;
    },
  )
