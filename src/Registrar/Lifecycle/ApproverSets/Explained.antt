-- ===== src/Registrar/Lifecycle/ApproverSets/Explained.antt =====
-- Why UpdateState of an approver set (lib/approverset.go) writes the set, before the cascade.
use go_registrar.Prelude.{
  ℕ, ◌≡◌, inl, inr, refl, Bool, true, false, Option, none, some, List, arith, Bool-cases,
}
use go_registrar.Prelude.Try.{Result, failed, done, ◌>>=◌, pure, try_next}
use go_registrar.Registrar.Verify.{Checked}
use go_registrar.Registrar.Revision.{
  approver_set, ObjectRow, RevisionRow, World, RevErr, Op, find_object, save_object,
}
use go_registrar.Registrar.Revision.Rows.{SameObjects, find_object-SameObjects}
use go_registrar.Registrar.Lifecycle.{
  Prepared, UpdateErr, is_settled, is_pending, promote_pending, decline_pending, state_back,
}
use go_registrar.Registrar.Lifecycle.Rows.{state_back-GoesBackTo}
use go_registrar.Registrar.Lifecycle.Safety.{
  PromotesIn, DeclinesIn, promote_pending-PromotesIn, decline_pending-DeclinesIn,
  save_object-objects,
}
use go_registrar.Registrar.Lifecycle.Acts.{ActsIn, branches-ActsIn, found-ActsIn}
use go_registrar.Registrar.Lifecycle.Reasons.{
  HasReason, Unasked, HasReason-at, HasReason-later, decided,
}
use go_registrar.Registrar.Lifecycle.ApproverSets.{
  act_on_set_request, act_on_set, set_acted, set_saved, checked_set, set_back, pending_approver_set,
  switch_set, set_read, update_set_row,
}

set_acted-world :
    (errs : List UpdateErr) (r : Result RevErr Bool × World) → (set_acted errs r).1 ≡ r.1
set_acted-world errs (failed e, w) = refl
set_acted-world errs (done b, w) = refl

set_saved-world : (r : Result RevErr (Unit {0}) × World) → (set_saved r).1 ≡ r.1
set_saved-world (failed e, w) = refl
set_saved-world (done u, w) = refl

answered-world : {A : Type 0} (m : Op A) (b : Bool) (w : World) → ((do x ← m; pure b) w).1 ≡ (m w).1
answered-world m b w = ended (m w)
  where
    ended : {A : Type 0} (r : Result RevErr A × World) → (try_next (λ x. pure b) r).1 ≡ r.1
    ended (failed e, t) = refl
    ended (done a, t) = refl

module _ (verify_cr : Prepared → World → Checked × World) (now : ℕ) (d : Prepared) where
  abbrev Reason : World → World → Type 0
  Reason = HasReason approver_set verify_cr now d

  promotes-PromotesIn :
      (p : RevisionRow) (w : World)
      → PromotesIn approver_set d p now w
          ((do u ← promote_pending approver_set d p now; pure true) w).1
  promotes-PromotesIn p w =
      rw (answered-world (promote_pending approver_set d p now) true w)
        (promote_pending-PromotesIn approver_set d p now w)

  declines-DeclinesIn :
      (p : RevisionRow) (w : World)
      → DeclinesIn approver_set d p now w
          ((do u ← decline_pending approver_set d p now; pure true) w).1
  declines-DeclinesIn p w =
      rw (answered-world (decline_pending approver_set d p now) true w)
        (decline_pending-DeclinesIn approver_set d p now w)

  act_on_set-ActsIn :
      (p : RevisionRow) (w : World) → ActsIn approver_set d p now w (act_on_set d p now w).1
  unfolding act_on_set act_on_set_request
  act_on_set-ActsIn p w =
      found-ActsIn approver_set d p now (act_on_set_request d p now)
        (branches-ActsIn approver_set d p now
          (do u ← promote_pending approver_set d p now; pure true) (pure false)
          (do u ← decline_pending approver_set d p now; pure true) (promotes-PromotesIn p)
          (declines-DeclinesIn p) (λ v. refl))
        w

  checked_set-accepted :
      (p : RevisionRow) (c : Checked) (w : World)
      → c.0 ≡ true
      → (checked_set verify_cr now d p (c, w)).1 ≡ (act_on_set d p now w).1
  unfolding checked_set
  checked_set-accepted p c w ok = rw ok (set_acted-world _ (act_on_set d p now w))

  checked_set-refused :
      (p : RevisionRow) (c : Checked) (w : World)
      → c.0 ≡ false
      → (checked_set verify_cr now d p (c, w)).1 ≡ w
  unfolding checked_set
  checked_set-refused p c w refused = rw refused refl

  checked_set-Reason :
      (p : RevisionRow) (w : World)
      → d.pending_revision ≡ some p
      → SameObjects w (verify_cr d w).1
      → Reason w (checked_set verify_cr now d p (verify_cr d w)).1
  checked_set-Reason p w e same =
      let c = (verify_cr d w).0 in
      let x = (verify_cr d w).1 in
      let u = (checked_set verify_cr now d p (c, x)).1 in
      elim (Bool-cases c.0) [
        | inl ok ↦
            HasReason-at approver_set verify_cr now d w u (act_on_set d p now x).1
              (checked_set-accepted p c x ok)
              (decided approver_set verify_cr now d p w w (act_on_set d p now x).1 e (refl, refl) ok
                same (act_on_set-ActsIn p x))
        | inr refused ↦
            HasReason-at approver_set verify_cr now d w u x (checked_set-refused p c x refused)
              (inl same.0)
      ]

  set_back-Reason :
      (o : ObjectRow) (w : World)
      → is_pending approver_set d.row.object_state ≡ true
      → Unasked approver_set verify_cr now d
      → Reason w (set_back verify_cr now o d w).1
  unfolding set_back
  set_back-Reason o w pending unasked =
      let saved = save_object (record o { object_state = state_back approver_set d }) in
      HasReason-at approver_set verify_cr now d w (set_saved (saved w)).1 (saved w).1
        (set_saved-world (saved w))
        (elim (save_object-objects (record o { object_state = state_back approver_set d }) w) [
          | inl h ↦ inl h
          | inr h ↦ inr (
              inl (
                pending,
                unasked,
                (o, state_back approver_set d, state_back-GoesBackTo approver_set d, h),
              ))
        ])

  pending_approver_set-Reason :
      (o : ObjectRow) (q : Option RevisionRow) (w : World)
      → d.pending_revision ≡ q
      → is_pending approver_set d.row.object_state ≡ true
      → SameObjects w (verify_cr d w).1
      → Reason w (pending_approver_set verify_cr now o d q w).1
  unfolding pending_approver_set
  pending_approver_set-Reason o none w e pending same = set_back-Reason o w pending (λ p h. cc)
  pending_approver_set-Reason o (some p) w e pending same = elim (Bool-cases p.cr_id.valid) [
    | inl v ↦
        HasReason-at approver_set verify_cr now d w
          (pending_approver_set verify_cr now o d (some p) w).1
          (checked_set verify_cr now d p (verify_cr d w)).1 (simp v refl)
          (checked_set-Reason p w e same)
    | inr n ↦
        HasReason-at approver_set verify_cr now d w
          (pending_approver_set verify_cr now o d (some p) w).1 (set_back verify_cr now o d w).1
          (simp n refl) (set_back-Reason o w pending (λ q h. ground arith))
  ]

  switch_set-Reason :
      (o : ObjectRow) (w : World)
      → SameObjects w (verify_cr d w).1
      → Reason w (switch_set verify_cr now d o w).1
  unfolding switch_set
  switch_set-Reason o w same =
      let u = (switch_set verify_cr now d o w).1 in
      elim (Bool-cases (is_settled approver_set d.row.object_state)) [
        | inl e ↦ HasReason-at approver_set verify_cr now d w u w (simp e refl) (inl refl)
        | inr e ↦ elim (Bool-cases (is_pending approver_set d.row.object_state)) [
          | inl f ↦
              HasReason-at approver_set verify_cr now d w u
                (pending_approver_set verify_cr now o d d.pending_revision w).1 (simp (e, f) refl)
                (pending_approver_set-Reason o d.pending_revision w refl f same)
          | inr f ↦ HasReason-at approver_set verify_cr now d w u w (simp (e, f) refl) (inl refl)
        ]
      ]

  set_read-Reason :
      (r : Result RevErr ObjectRow × World) (w : World)
      → SameObjects w r.1
      → ((v : World) → SameObjects v (verify_cr d v).1)
      → Reason w (set_read verify_cr now d r).1
  unfolding set_read
  set_read-Reason (failed e, v) w kept reads = inl kept.0
  set_read-Reason (done o, v) w kept reads =
      HasReason-later approver_set verify_cr now d w v (switch_set verify_cr now d o v).1 kept
        (switch_set-Reason o v (reads v))

  -- If VerifyCR only reads, whatever fails, UpdateState of an approver set, up to the cascade, writes
  -- the set only for one of these reasons: it goes back, having no pending revision with a change
  -- request, or VerifyCR accepted it and the request is approved or is declined.
  pub update_set_row-HasReason :
      (w : World)
      → ((v : World) → SameObjects v (verify_cr d v).1)
      → HasReason approver_set verify_cr now d w (update_set_row verify_cr now d w).1
  unfolding update_set_row
  update_set_row-HasReason w reads =
      set_read-Reason (find_object d.row.object_id w) w (find_object-SameObjects d.row.object_id w)
        reads
