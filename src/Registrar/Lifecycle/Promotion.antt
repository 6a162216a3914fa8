-- ===== src/Registrar/Lifecycle/Promotion.antt =====
-- When UpdateState of a domain, a host or a contact (lib/domain.go, lib/host.go, lib/contact.go)
-- writes the object, and what it writes for an approved change request.
use go_registrar.Prelude.{ℕ, ◌≡◌, ◌≢◌, refl, ap, sym, ◌∙◌, true, false, some, List, [], ◌∷◌, arith}
use go_registrar.Prelude.Try.{done}
use go_registrar.Registrar.State.{approved, pending_approval}
use go_registrar.Registrar.Model.{ChangeRequest}
use go_registrar.Registrar.Verify.{VerifyErr, Checked}
use go_registrar.Registrar.Store.{lookup_request}
use go_registrar.Registrar.Revision.{
  Kind, domain, host, contact, api_user, approver_set, ObjectRow, RevisionRow, World, lookup_object,
  lookup_revision, replace_object, promoted, can_be_superseded, superseded_row,
}
use go_registrar.Registrar.Revision.Rows.{
  lookup_object-saved, lookup_object-other, lookup_revision-replace_revision, lookup_revision-other,
  find_object-calm, find_revision-calm, find_change_request-calm, save_object-calm, with_revision,
}
use go_registrar.Registrar.Revision.Reread.{promote_of-calm, supersed_of-calm}
use go_registrar.Registrar.Lifecycle.Rows.{IsPromotedRow, promoted_object-IsPromotedRow}
use go_registrar.Registrar.Lifecycle.{
  Prepared, is_settled, is_pending, is_target, promoted_object, supersed_current, save_promoted,
  promote_pending, approve_pending, act_on_request, reported, unverified_all, verified_pending,
  pending_case, update_object_state,
}

promoted_object-object_id :
    (kind : Kind) (o : ObjectRow) (p : RevisionRow) (now : ℕ)
    → (promoted_object kind o p now).object_id ≡ o.object_id
unfolding promoted_object
promoted_object-object_id domain o p now = refl
promoted_object-object_id host o p now = refl
promoted_object-object_id contact o p now = refl
promoted_object-object_id api_user o p now = refl
promoted_object-object_id approver_set o p now = refl

pub lookup_object-object_id :
    (k : ℕ) (l : List ObjectRow) (o : ObjectRow) → lookup_object k l ≡ some o → o.object_id ≡ k
unfolding lookup_object
lookup_object-object_id k [] o h = cc
lookup_object-object_id k (q ∷ l) o h = ground (arith, lookup_object-object_id k l o)

-- What an approved change request is to bring about in the tables.
pub record IsPromoted (kind : Kind) (d : Prepared) (p c : RevisionRow) (o : ObjectRow) (now : ℕ)
    (w w' : World) : Type 0 where
  pub object_promoted :
      (r : ObjectRow) × IsPromotedRow kind o p now r
      × (lookup_object d.row.object_id w'.objects ≡ some r)
  pub revision_promoted : lookup_revision p.revision_id w'.revisions ≡ some (promoted p now)
  pub current_superseded : lookup_revision c.revision_id w'.revisions ≡ some (superseded_row c now)
  pub other_objects :
      (k : ℕ) → d.row.object_id ≢ k → lookup_object k w'.objects ≡ lookup_object k w.objects
  pub other_revisions :
      (k : ℕ)
      → p.revision_id ≢ k
      → c.revision_id ≢ k
      → lookup_revision k w'.revisions ≡ lookup_revision k w.revisions
  pub same_requests : w'.requests ≡ w.requests

-- The tables before, in which the rows of the object and of its two revisions are found.
pub record IsReady (kind : Kind) (d : Prepared) (p c : RevisionRow) (o : ObjectRow)
    (cr : ChangeRequest) (w : World) : Type 0 where
  pub calm : w.faults ≡ []
  pub object_found : lookup_object d.row.object_id w.objects ≡ some o
  pub pending_found : lookup_revision p.revision_id w.revisions ≡ some p
  pub current_found : lookup_revision c.revision_id w.revisions ≡ some c
  pub request_found : lookup_request p.cr_id.int64 w.requests ≡ some cr
  pub has_request : p.cr_id.valid ≡ true
  pub is_current : d.current_revision ≡ some c
  pub has_current : d.row.current_revision_id.valid ≡ true
  pub pending : p.revision_state ≡ pending_approval
  pub supersedes : can_be_superseded kind c.revision_state ≡ true
  pub targets : is_target kind p.desired_state ≡ true
  pub distinct_revisions : p.revision_id ≢ c.revision_id

module _ (kind : Kind) (d : Prepared) (p c : RevisionRow) (o : ObjectRow) (cr : ChangeRequest)
    (now : ℕ) (w : World) (ready : IsReady kind d p c o cr w) where
  abbrev world_1 : World
  world_1 = with_revision w (promoted p now)

  abbrev world_2 : World
  world_2 = with_revision world_1 (superseded_row c now)

  abbrev pub world_3 : World
  world_3 = record world_2 { objects = replace_object (promoted_object kind o p now) w.objects }

  revision_at_end : lookup_revision p.revision_id world_3.revisions ≡ some (promoted p now)
  revision_at_end =
      lookup_revision-other (superseded_row c now) p.revision_id world_1.revisions
        (λ e. ready.distinct_revisions (sym e))
      ∙ lookup_revision-replace_revision (promoted p now) p w.revisions ready.pending_found

  current_in_1 : lookup_revision c.revision_id world_1.revisions ≡ some c
  current_in_1 =
      lookup_revision-other (promoted p now) c.revision_id w.revisions ready.distinct_revisions
      ∙ ready.current_found

  supersed_current-calm :
      supersed_current kind d d.current_revision now world_1 ≡ (done tt, world_2)
  unfolding supersed_current
  supersed_current-calm =
      simp (ready.is_current, ready.has_current)
        (supersed_of-calm kind c now world_1 ready.calm current_in_1 ready.supersedes)

  save_promoted-calm : save_promoted kind p now o world_2 ≡ (done tt, world_3)
  unfolding save_promoted
  save_promoted-calm =
      simp ready.targets (save_object-calm (promoted_object kind o p now) world_2 ready.calm)

  pub promote_pending-calm :
      cr.state ≡ approved → promote_pending kind d p now w ≡ (done tt, world_3)
  unfolding promote_pending
  promote_pending-calm ok =
      simp
        (
          promote_of-calm kind p now w cr ready.calm ready.pending_found ready.pending
              ready.has_request ready.request_found ok,
          supersed_current-calm,
          find_object-calm d.row.object_id world_2 o ready.calm ready.object_found,
        )
        save_promoted-calm

  approve_pending-calm : cr.state ≡ approved → approve_pending kind d p now w ≡ (done tt, world_3)
  unfolding approve_pending
  approve_pending-calm ok =
      simp
        (
          promote_pending-calm ok,
          find_revision-calm p.revision_id world_3 (promoted p now) ready.calm revision_at_end,
        )
        refl

  abbrev Approves : Type 0
  Approves = cr.state ≡ approved

  pub world_3-IsPromoted : IsPromoted kind d p c o now w world_3
  world_3-IsPromoted = record {
    object_promoted = (
      promoted_object kind o p now,
      promoted_object-IsPromotedRow kind o p now,
      lookup_object-saved (promoted_object kind o p now) o d.row.object_id w.objects same_id
          ready.object_found,
    );
    revision_promoted = revision_at_end;
    current_superseded =
        lookup_revision-replace_revision (superseded_row c now) c world_1.revisions current_in_1;
    other_objects = λ k n.
        lookup_object-other (promoted_object kind o p now) k w.objects (λ e. n (sym same_id ∙ e));
    other_revisions = λ k n m.
        lookup_revision-other (superseded_row c now) k world_1.revisions m
        ∙ lookup_revision-other (promoted p now) k w.revisions n;
    same_requests = refl;
  }
    where
      same_id : (promoted_object kind o p now).object_id ≡ d.row.object_id
      same_id =
          promoted_object-object_id kind o p now
          ∙ lookup_object-object_id d.row.object_id w.objects o ready.object_found

  act_on_request-calm : Approves → act_on_request kind d p now w ≡ (done tt, world_3)
  unfolding act_on_request
  act_on_request-calm ok =
      simp (find_change_request-calm p.cr_id.int64 w cr ready.calm ready.request_found, ok)
        (approve_pending-calm ok)

pub update_object_state-verified :
    (kind : Kind) (verify_cr : Prepared → World → Checked × World) (d : Prepared) (p : RevisionRow)
    (now : ℕ) (w w1 : World) (errs : List VerifyErr)
    → is_settled kind d.row.object_state ≡ false
    → is_pending kind d.row.object_state ≡ true
    → d.pending_revision ≡ some p
    → p.cr_id.valid ≡ true
    → verify_cr d w ≡ ((true, errs), w1)
    → update_object_state kind verify_cr now d w
      ≡ reported false (unverified_all errs) (act_on_request kind d p now w1)
unfolding update_object_state pending_case verified_pending
update_object_state-verified kind verify_cr d p now w w1 errs open_now pending is_p valid verified =
    simp (open_now, pending, is_p, valid, verified) refl

-- Where VerifyCR accepts a pending object with a current revision, its change request is approved,
-- the pending revision asks for a state that objects of the type may have and no operation fails,
-- UpdateState succeeds: the object has the state and the key of the revision that was pending, a
-- domain, host or contact also its preview and the mark that it is to be checked, a domain or host
-- a change that the registry is to carry out; that revision is promoted, the one that was current is
-- superseded, and all other rows are as before.
pub update_object_state-IsPromoted :
    (kind : Kind) (verify_cr : Prepared → World → Checked × World) (d : Prepared)
    (p c : RevisionRow) (o : ObjectRow) (cr : ChangeRequest) (now : ℕ) (w : World)
    → is_settled kind d.row.object_state ≡ false
    → is_pending kind d.row.object_state ≡ true
    → d.pending_revision ≡ some p
    → verify_cr d w ≡ ((true, []), w)
    → IsReady kind d p c o cr w
    → cr.state ≡ approved
    → (w' : World) × (update_object_state kind verify_cr now d w ≡ ((false, []), w'))
      × IsPromoted kind d p c o now w w'
update_object_state-IsPromoted kind verify_cr d p c o cr now w open_now pending is_p verified ready
      ok =
    (
      world_3 kind d p c o cr now w ready,
      update_object_state-verified kind verify_cr d p now w w [] open_now pending is_p
            ready.has_request verified
          ∙ ap (reported false []) (act_on_request-calm kind d p c o cr now w ready ok),
      world_3-IsPromoted kind d p c o cr now w ready,
    )

-- An object that has been promoted is settled: a second UpdateState does nothing.
update_object_state-promoted :
    (kind : Kind) (verify_cr : Prepared → World → Checked × World) (d : Prepared) (o : ObjectRow)
    (p : RevisionRow) (now later : ℕ) (w : World)
    → is_target kind p.desired_state ≡ true
    → d.row ≡ promoted_object kind o p now
    → update_object_state kind verify_cr later d w ≡ ((false, []), w)
unfolding update_object_state is_target is_settled promoted_object
update_object_state-promoted kind verify_cr d o p now later w target e =
    let settled : is_settled kind d.row.object_state ≡ true = ground arith in rw settled refl
