-- ===== src/Registrar/Lifecycle/Rows.antt =====
-- The rows and states that UpdateState may leave (lib/domain.go, lib/host.go, lib/contact.go,
-- lib/apiuser.go, lib/approverset.go), described apart from the functions that compute them.
use go_registrar.Prelude.{
  ℕ, ◌≡◌, ◌⊎◌, inl, inr, refl, Bool, true, false, ◌&&◌, none, some, List, Bool-cases, Option-cases,
}
use go_registrar.Registrar.State.{
  State, is, active, bootstrap, pending_bootstrap, new, new_external, external_pending_approval,
  pending_new_external,
}
use go_registrar.Registrar.Revision.{
  Kind, domain, host, contact, api_user, approver_set, ObjectRow, RevisionRow, lookup_revision,
}
use go_registrar.Registrar.Lifecycle.{
  Prepared, promoted_object, state_without_revision, state_of_revision, state_back,
}

abbrev pub is_domain : Kind → Bool
is_domain domain = true
is_domain _ = false

-- The types that the registry must check after a change, those that it must be told of, and those
-- that have a preview.
abbrev pub is_checked : Kind → Bool
is_checked domain = true
is_checked host = true
is_checked contact = true
is_checked _ = false

abbrev pub is_provisioned : Kind → Bool
is_provisioned domain = true
is_provisioned host = true
is_provisioned _ = false

-- The row `r` that a promotion of the revision `p` makes of `o`: every field.
pub record IsPromotedRow (kind : Kind) (o : ObjectRow) (p : RevisionRow) (now : ℕ) (r : ObjectRow)
    : Type 0 where
  pub same_object : r.object_id ≡ o.object_id
  pub desired : r.object_state ≡ p.desired_state
  pub current_key : r.current_revision_id.int64 ≡ p.revision_id
  pub current_valid : r.current_revision_id.valid ≡ true
  pub checked : is_checked kind ≡ true → r.check_required ≡ true
  pub unchecked : is_checked kind ≡ false → r.check_required ≡ o.check_required
  pub previewed : is_checked kind ≡ true → r.preview ≡ p.preview_of
  pub not_previewed : is_checked kind ≡ false → r.preview ≡ o.preview
  pub epp_changes :
      is_provisioned kind ≡ true → (r.epp_pending_change ≡ true) × (r.epp_last_update ≡ now)
  pub epp_kept :
      is_provisioned kind ≡ false
      → (r.epp_pending_change ≡ o.epp_pending_change) × (r.epp_last_update ≡ o.epp_last_update)

pub promoted_object-IsPromotedRow :
    (kind : Kind) (o : ObjectRow) (p : RevisionRow) (now : ℕ)
    → IsPromotedRow kind o p now (promoted_object kind o p now)
unfolding promoted_object
promoted_object-IsPromotedRow domain o p now = record {
  same_object = refl;
  desired = refl;
  current_key = refl;
  current_valid = refl;
  checked = λ h. refl;
  unchecked = λ h. cc;
  previewed = λ h. refl;
  not_previewed = λ h. cc;
  epp_changes = λ h. (refl, refl);
  epp_kept = λ h. cc;
}
promoted_object-IsPromotedRow host o p now = record {
  same_object = refl;
  desired = refl;
  current_key = refl;
  current_valid = refl;
  checked = λ h. refl;
  unchecked = λ h. cc;
  previewed = λ h. refl;
  not_previewed = λ h. cc;
  epp_changes = λ h. (refl, refl);
  epp_kept = λ h. cc;
}
promoted_object-IsPromotedRow contact o p now = record {
  same_object = refl;
  desired = refl;
  current_key = refl;
  current_valid = refl;
  checked = λ h. refl;
  unchecked = λ h. cc;
  previewed = λ h. refl;
  not_previewed = λ h. cc;
  epp_changes = λ h. cc;
  epp_kept = λ h. (refl, refl);
}
promoted_object-IsPromotedRow api_user o p now = record {
  same_object = refl;
  desired = refl;
  current_key = refl;
  current_valid = refl;
  checked = λ h. cc;
  unchecked = λ h. refl;
  previewed = λ h. cc;
  not_previewed = λ h. refl;
  epp_changes = λ h. cc;
  epp_kept = λ h. (refl, refl);
}
promoted_object-IsPromotedRow approver_set o p now = record {
  same_object = refl;
  desired = refl;
  current_key = refl;
  current_valid = refl;
  checked = λ h. cc;
  unchecked = λ h. refl;
  previewed = λ h. cc;
  not_previewed = λ h. refl;
  epp_changes = λ h. cc;
  epp_kept = λ h. (refl, refl);
}

-- The state that an object has by its current revision: active for a bootstrap one.
abbrev pub FromRevision : RevisionRow → State → Type 0
FromRevision c s =
    ((is c.revision_state bootstrap ≡ true) × (s ≡ active))
    ⊎ ((is c.revision_state bootstrap ≡ false) × (s ≡ c.revision_state))

-- The state of a declined object that never had a revision: a domain whose state was
-- `externalpendingapproval` is new and external, all else is new.
abbrev pub WithoutRevision : Kind → State → State → Type 0
WithoutRevision kind before s =
    (((is_domain kind && is before external_pending_approval) ≡ true) × (s ≡ new_external))
    ⊎ (((is_domain kind && is before external_pending_approval) ≡ false) × (s ≡ new))

state_of_revision_iff :
    (t : State)
    → ((is t bootstrap ≡ true) × (state_of_revision t ≡ active))
      ⊎ ((is t bootstrap ≡ false) × (state_of_revision t ≡ t))
unfolding state_of_revision
state_of_revision_iff t = elim (Bool-cases (is t bootstrap)) [
  | inl h ↦ inl (h, simp h refl)
  | inr h ↦ inr (h, simp h refl)
]

pub state_of_revision-FromRevision :
    (c : RevisionRow) → FromRevision c (state_of_revision c.revision_state)
state_of_revision-FromRevision c = state_of_revision_iff c.revision_state

pub FromRevision-eq :
    (c : RevisionRow) (s : State) → FromRevision c s → s ≡ state_of_revision c.revision_state
unfolding state_of_revision
FromRevision-eq c s (inl (b, e)) = simp (b, e) refl
FromRevision-eq c s (inr (b, e)) = simp (b, e) refl

pub state_without_revision-WithoutRevision :
    (kind : Kind) (t : State) → WithoutRevision kind t (state_without_revision kind t)
unfolding state_without_revision
state_without_revision-WithoutRevision domain t =
    elim (Bool-cases (is t external_pending_approval)) [
      | inl h ↦ inl (h, simp h refl)
      | inr h ↦ inr (h, simp h refl)
    ]
state_without_revision-WithoutRevision host t = inr (refl, refl)
state_without_revision-WithoutRevision contact t = inr (refl, refl)
state_without_revision-WithoutRevision api_user t = inr (refl, refl)
state_without_revision-WithoutRevision approver_set t = inr (refl, refl)

pub WithoutRevision-eq :
    (kind : Kind) (t s : State) → WithoutRevision kind t s → s ≡ state_without_revision kind t
unfolding state_without_revision
WithoutRevision-eq domain t s (inl (b, e)) = simp (b, e) refl
WithoutRevision-eq domain t s (inr (b, e)) = simp (b, e) refl
WithoutRevision-eq host t s (inl (b, e)) = cc
WithoutRevision-eq host t s (inr (b, e)) = e
WithoutRevision-eq contact t s (inl (b, e)) = cc
WithoutRevision-eq contact t s (inr (b, e)) = e
WithoutRevision-eq api_user t s (inl (b, e)) = cc
WithoutRevision-eq api_user t s (inr (b, e)) = e
WithoutRevision-eq approver_set t s (inl (b, e)) = cc
WithoutRevision-eq approver_set t s (inr (b, e)) = e

-- The state of a declined object, by the revisions that the database holds.
abbrev pub StateIn : Kind → Prepared → List RevisionRow → State → Type 0
StateIn kind d revisions s =
    ((d.row.current_revision_id.valid ≡ false) × WithoutRevision kind d.row.object_state s)
    ⊎ ((c : RevisionRow) × (d.row.current_revision_id.valid ≡ true)
        × (lookup_revision d.row.current_revision_id.int64 revisions ≡ some c)
        × FromRevision c s)

-- The state that an object goes back to: that of a bootstrap object, the one that its current
-- revision asks for, or, without one, new and external for a domain that was to be so, else new. A
-- valid key whose revision is not loaded, which Prepare excludes, is left open.
abbrev pub GoesBackTo : Kind → Prepared → State → Type 0
GoesBackTo kind d s =
    let b = is d.row.object_state pending_bootstrap in
    let valid = d.row.current_revision_id.valid in
    let ext = is_domain kind && is d.row.object_state pending_new_external in
    ((b ≡ true) × (s ≡ bootstrap))
    ⊎ ((b ≡ false)
        × (valid ≡ true)
        × ((c : RevisionRow) × (d.current_revision ≡ some c) × (s ≡ c.desired_state)))
    ⊎ ((valid ≡ true) × (d.current_revision ≡ none))
    ⊎ ((b ≡ false) × (valid ≡ false) × (ext ≡ true) × (s ≡ new_external))
    ⊎ ((b ≡ false) × (valid ≡ false) × (ext ≡ false) × (s ≡ new))

back_without :
    (kind : Kind) (d : Prepared)
    → is d.row.object_state pending_bootstrap ≡ false
    → d.row.current_revision_id.valid ≡ false
    → GoesBackTo kind d (state_back kind d)
unfolding state_back
back_without domain d b v = elim (Bool-cases (is d.row.object_state pending_new_external)) [
  | inl h ↦ inr (inr (inr (inl (b, v, h, simp (b, v, h) refl))))
  | inr h ↦ inr (inr (inr (inr (b, v, h, simp (b, v, h) refl))))
]
back_without host d b v = inr (inr (inr (inr (b, v, refl, simp (b, v) refl))))
back_without contact d b v = inr (inr (inr (inr (b, v, refl, simp (b, v) refl))))
back_without api_user d b v = inr (inr (inr (inr (b, v, refl, simp (b, v) refl))))
back_without approver_set d b v = inr (inr (inr (inr (b, v, refl, simp (b, v) refl))))

back_bootstrap :
    (kind : Kind) (d : Prepared)
    → is d.row.object_state pending_bootstrap ≡ true
    → state_back kind d ≡ bootstrap
unfolding state_back
back_bootstrap domain d b = simp b refl
back_bootstrap host d b = simp b refl
back_bootstrap contact d b = simp b refl
back_bootstrap api_user d b = simp b refl
back_bootstrap approver_set d b = simp b refl

back_current :
    (kind : Kind) (d : Prepared) (c : RevisionRow)
    → is d.row.object_state pending_bootstrap ≡ false
    → d.row.current_revision_id.valid ≡ true
    → d.current_revision ≡ some c
    → state_back kind d ≡ c.desired_state
unfolding state_back
back_current domain d c b v e = simp (b, v, e) refl
back_current host d c b v e = simp (b, v, e) refl
back_current contact d c b v e = simp (b, v, e) refl
back_current api_user d c b v e = simp (b, v, e) refl
back_current approver_set d c b v e = simp (b, v, e) refl

pub state_back-GoesBackTo : (kind : Kind) (d : Prepared) → GoesBackTo kind d (state_back kind d)
state_back-GoesBackTo kind d = elim (Bool-cases (is d.row.object_state pending_bootstrap)) [
  | inl b ↦ inl (b, back_bootstrap kind d b)
  | inr b ↦ elim (Bool-cases d.row.current_revision_id.valid) [
    | inr v ↦ back_without kind d b v
    | inl v ↦ elim (Option-cases d.current_revision) [
      | inl e ↦ inr (inr (inl (v, e)))
      | inr (c, e) ↦ inr (inl (b, v, (c, e, back_current kind d c b v e)))
    ]
  ]
]
