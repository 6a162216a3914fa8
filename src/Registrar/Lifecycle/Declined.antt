-- ===== src/Registrar/Lifecycle/Declined.antt =====
-- What UpdateState of a domain, a host or a contact (lib/domain.go, lib/host.go, lib/contact.go)
-- writes for a declined change request.
use go_registrar.Prelude.{ℕ, ◌≡◌, ◌≢◌, ◌⊎◌, inl, inr, refl, ap, sym, ◌∙◌, true, false, some, []}
use go_registrar.Prelude.Try.{done}
use go_registrar.Registrar.State.{State, declined, pending_approval}
use go_registrar.Registrar.Model.{ChangeRequest}
use go_registrar.Registrar.Verify.{Checked}
use go_registrar.Registrar.Store.{lookup_request}
use go_registrar.Registrar.Revision.{
  Kind, ObjectRow, RevisionRow, World, lookup_object, lookup_revision, replace_object, declined_row,
}
use go_registrar.Registrar.Revision.Rows.{
  lookup_object-saved, lookup_object-other, lookup_revision-replace_revision, lookup_revision-other,
  find_object-calm, find_revision-calm, find_change_request-calm, save_object-calm, with_revision,
}
use go_registrar.Registrar.Revision.Reread.{decline_of-calm}
use go_registrar.Registrar.Lifecycle.Rows.{
  WithoutRevision, FromRevision, WithoutRevision-eq, FromRevision-eq,
}
use go_registrar.Registrar.Lifecycle.{
  Prepared, is_settled, is_pending, declined_state, decline_pending, act_on_request, reported,
  update_object_state,
}
use go_registrar.Registrar.Lifecycle.Promotion.{
  lookup_object-object_id, update_object_state-verified,
}

-- The tables before, in which the rows of the object and of its pending revision are found.
pub record IsRefusable (d : Prepared) (p : RevisionRow) (o : ObjectRow) (cr : ChangeRequest)
    (w : World) : Type 0 where
  pub calm : w.faults ≡ []
  pub object_found : lookup_object d.row.object_id w.objects ≡ some o
  pub pending_found : lookup_revision p.revision_id w.revisions ≡ some p
  pub request_found : lookup_request p.cr_id.int64 w.requests ≡ some cr
  pub has_request : p.cr_id.valid ≡ true
  pub pending : p.revision_state ≡ pending_approval

-- The state that a declined object has: that of its current revision, active for a bootstrap one; or
-- one of an object that has never had a revision.
abbrev pub StateAfter : Kind → Prepared → RevisionRow → World → State → Type 0
StateAfter kind d p w s =
    ((d.row.current_revision_id.valid ≡ false) × WithoutRevision kind d.row.object_state s)
    ⊎ ((c : RevisionRow) × (d.row.current_revision_id.valid ≡ true)
        × (lookup_revision d.row.current_revision_id.int64 w.revisions ≡ some c)
        × (p.revision_id ≢ d.row.current_revision_id.int64)
        × FromRevision c s)

pub record IsDeclined (d : Prepared) (p : RevisionRow) (o : ObjectRow) (s : State) (now : ℕ)
    (w w' : World) : Type 0 where
  pub object_declined :
      lookup_object d.row.object_id w'.objects ≡ some (record o { object_state = s })
  pub revision_declined : lookup_revision p.revision_id w'.revisions ≡ some (declined_row p now)
  pub other_objects :
      (k : ℕ) → d.row.object_id ≢ k → lookup_object k w'.objects ≡ lookup_object k w.objects
  pub other_revisions :
      (k : ℕ) → p.revision_id ≢ k → lookup_revision k w'.revisions ≡ lookup_revision k w.revisions
  pub same_requests : w'.requests ≡ w.requests

module _ (kind : Kind) (d : Prepared) (p : RevisionRow) (o : ObjectRow) (cr : ChangeRequest)
    (s : State) (now : ℕ) (w : World) (ready : IsRefusable d p o cr w) where
  abbrev world_1 : World
  world_1 = with_revision w (declined_row p now)

  abbrev world_2 : World
  world_2 = record world_1 { objects = replace_object (record o { object_state = s }) w.objects }

  declined_state-calm : StateAfter kind d p w s → declined_state kind d world_1 ≡ (done s, world_1)
  unfolding declined_state
  declined_state-calm (inl (none, e)) =
      rw none (ap (λ t. (done t, world_1)) (sym (WithoutRevision-eq kind d.row.object_state s e)))
  declined_state-calm (inr (c, has, found, apart, e)) =
      let kept =
        lookup_revision-other (declined_row p now) d.row.current_revision_id.int64 w.revisions apart
        ∙ found in
      simp (has, find_revision-calm d.row.current_revision_id.int64 world_1 c ready.calm kept)
        (ap (λ t. (done t, world_1)) (sym (FromRevision-eq c s e)))

  decline_pending-calm :
      StateAfter kind d p w s → decline_pending kind d p now w ≡ (done tt, world_2)
  unfolding decline_pending
  decline_pending-calm after =
      simp
        (
          decline_of-calm kind p now w ready.calm ready.pending_found ready.pending,
          find_object-calm d.row.object_id world_1 o ready.calm ready.object_found,
          declined_state-calm after,
          save_object-calm (record o { object_state = s }) world_1 ready.calm,
        )
        refl

  act_on_request-calm :
      cr.state ≡ declined
      → StateAfter kind d p w s
      → act_on_request kind d p now w ≡ (done tt, world_2)
  unfolding act_on_request
  act_on_request-calm ok after =
      simp (find_change_request-calm p.cr_id.int64 w cr ready.calm ready.request_found, ok)
        (decline_pending-calm after)

  world_2-IsDeclined : IsDeclined d p o s now w world_2
  world_2-IsDeclined =
      let same_id = lookup_object-object_id d.row.object_id w.objects o ready.object_found in
      record {
        object_declined =
            lookup_object-saved (record o { object_state = s }) o d.row.object_id w.objects same_id
              ready.object_found;
        revision_declined =
            lookup_revision-replace_revision (declined_row p now) p w.revisions ready.pending_found;
        other_objects = λ k n.
            lookup_object-other (record o { object_state = s }) k w.objects
              (λ e. n (sym same_id ∙ e));
        other_revisions = λ k n. lookup_revision-other (declined_row p now) k w.revisions n;
        same_requests = refl;
      }

-- Where VerifyCR accepts a pending object, its change request is declined and no operation fails,
-- UpdateState succeeds: the pending revision failed its approval, the object has the state of its
-- current revision again (active for a bootstrap one), or one of an object that never had a
-- revision, and all else is as before.
pub update_object_state-IsDeclined :
    (kind : Kind) (verify_cr : Prepared → World → Checked × World) (d : Prepared) (p : RevisionRow)
    (o : ObjectRow) (cr : ChangeRequest) (s : State) (now : ℕ) (w : World)
    → is_settled kind d.row.object_state ≡ false
    → is_pending kind d.row.object_state ≡ true
    → d.pending_revision ≡ some p
    → verify_cr d w ≡ ((true, []), w)
    → IsRefusable d p o cr w
    → cr.state ≡ declined
    → StateAfter kind d p w s
    → (w' : World) × (update_object_state kind verify_cr now d w ≡ ((false, []), w'))
      × IsDeclined d p o s now w w'
update_object_state-IsDeclined kind verify_cr d p o cr s now w open_now pending is_p verified ready
      ok after =
    (
      world_2 kind d p o cr s now w ready,
      update_object_state-verified kind verify_cr d p now w w [] open_now pending is_p
            ready.has_request verified
          ∙ ap (reported false []) (act_on_request-calm kind d p o cr s now w ready ok after),
      world_2-IsDeclined kind d p o cr s now w ready,
    )
