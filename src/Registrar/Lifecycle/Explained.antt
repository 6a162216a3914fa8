-- ===== src/Registrar/Lifecycle/Explained.antt =====
-- Why UpdateState of a domain, a host or a contact (lib/domain.go, lib/host.go, lib/contact.go)
-- writes the object.
use go_registrar.Prelude.{
  ◌≡◌, ◌⊎◌, inl, inr, refl, ap, ◌∙◌, true, false, Option, none, some, arith, Bool-cases, ℕ,
}
use go_registrar.Prelude.Try.{Result, failed, done}
use go_registrar.Registrar.State.{State, approved, declined}
use go_registrar.Registrar.Verify.{Checked}
use go_registrar.Registrar.Revision.{Kind, RevisionRow, World, replace_object}
use go_registrar.Registrar.Revision.Rows.{SameObjects}
use go_registrar.Registrar.Lifecycle.{
  Prepared, is_settled, is_pending, act_on_request, state_back, verified_pending, go_back,
  pending_case, reported, unverified_all, update_object_state,
}
use go_registrar.Registrar.Lifecycle.Rows.{GoesBackTo, state_back-GoesBackTo}
use go_registrar.Registrar.Lifecycle.Safety.{
  PromotesIn, DeclinesIn, save_object-objects, PromotesIn-later, DeclinesIn-later,
}
use go_registrar.Registrar.Lifecycle.Acts.{Requested, ActsIn, act_on_request-ActsIn}

module _ (kind : Kind) (verify_cr : Prepared → World → Checked × World) (now : ℕ)
    (d : Prepared) where
  -- Why the objects are other than before: the object was pending with no pending revision that has
  -- a change request, and goes back to an earlier state; or VerifyCR accepted it, and its change
  -- request is approved and the object is promoted, or is declined and has its state by StateIn.
  abbrev pub IsExplained : World → World → Type 0
  IsExplained w w' =
      (w'.objects ≡ w.objects)
      ⊎ ((is_pending kind d.row.object_state ≡ true)
          × ((p : RevisionRow) → d.pending_revision ≡ some p → p.cr_id.valid ≡ false)
          × ((s : State) × GoesBackTo kind d s
              × (w'.objects ≡ replace_object (record d.row { object_state = s }) w.objects)))
      ⊎ ((p : RevisionRow) × (d.pending_revision ≡ some p)
          × ((verify_cr d w).0.0 ≡ true)
          × ((Requested kind d p now approved w × PromotesIn kind d p now w w')
              ⊎ (Requested kind d p now declined w × DeclinesIn kind d p now w w')))

  go_back-objects :
      (w : World)
      → ((go_back kind verify_cr now d w).1.objects ≡ w.objects)
        ⊎ ((go_back kind verify_cr now d w).1.objects
            ≡ replace_object (record d.row { object_state = state_back kind d }) w.objects)
  unfolding go_back
  go_back-objects w =
      ground (arith, save_object-objects (record d.row { object_state = state_back kind d }) w)

  go_back-IsExplained :
      (w : World)
      → is_pending kind d.row.object_state ≡ true
      → ((p : RevisionRow) → d.pending_revision ≡ some p → p.cr_id.valid ≡ false)
      → IsExplained w (go_back kind verify_cr now d w).1
  go_back-IsExplained w pending none_asked = elim (go_back-objects w) [
    | inl h ↦ inl h
    | inr h ↦ inr (inl (pending, none_asked, (state_back kind d, state_back-GoesBackTo kind d, h)))
  ]

  verified_pending-objects :
      (p : RevisionRow) (c : Checked) (w : World)
      → c.0 ≡ true
      → (verified_pending kind verify_cr now d p (c, w)).1 ≡ (act_on_request kind d p now w).1
  unfolding verified_pending
  verified_pending-objects p c w ok = rw ok (ended (act_on_request kind d p now w))
    where
      ended : (r : Result _ (Unit {0}) × World) → (reported false (unverified_all c.1) r).1 ≡ r.1
      ended (failed e, t) = refl
      ended (done a, t) = refl

  verified_pending-refused :
      (p : RevisionRow) (c : Checked) (w : World)
      → c.0 ≡ false
      → (verified_pending kind verify_cr now d p (c, w)).1 ≡ w
  unfolding verified_pending
  verified_pending-refused p c w e = rw e refl

  acts-IsExplained :
      (p : RevisionRow) (w w1 w2 : World)
      → d.pending_revision ≡ some p
      → SameObjects w w1
      → (verify_cr d w).0.0 ≡ true
      → ActsIn kind d p now w1 w2
      → IsExplained w w2
  acts-IsExplained p w w1 w2 e same ok (inl h) = inl (h ∙ same.0)
  acts-IsExplained p w w1 w2 e same ok (inr (inl (q, h))) =
      inr (inr (p, e, ok, inl (rw (← same.1) q, PromotesIn-later kind d p now w w1 w2 same.0 h)))
  acts-IsExplained p w w1 w2 e same ok (inr (inr (q, h))) =
      inr (inr (p, e, ok, inr (rw (← same.1) q, DeclinesIn-later kind d p now w w1 w2 same.0 h)))

  pending_case-asked :
      (p : RevisionRow) (w : World)
      → p.cr_id.valid ≡ true
      → pending_case kind verify_cr now d (some p) w
        ≡ verified_pending kind verify_cr now d p (verify_cr d w)
  unfolding pending_case
  pending_case-asked p w v = simp v refl

  pending_case-unasked :
      (p : RevisionRow) (w : World)
      → p.cr_id.valid ≡ false
      → pending_case kind verify_cr now d (some p) w ≡ go_back kind verify_cr now d w
  unfolding pending_case
  pending_case-unasked p w v = simp v refl

  with_result : (w u v : World) → u ≡ v → IsExplained w v → IsExplained w u
  with_result w u v e h = rw e h

  verified_pending-IsExplained :
      (p : RevisionRow) (w : World)
      → d.pending_revision ≡ some p
      → SameObjects w (verify_cr d w).1
      → IsExplained w (verified_pending kind verify_cr now d p (verify_cr d w)).1
  verified_pending-IsExplained p w e same =
      let w1 = (verify_cr d w).1 in
      let c = (verify_cr d w).0 in
      elim (Bool-cases c.0) [
        | inl ok ↦
            with_result w (verified_pending kind verify_cr now d p (c, w1)).1
              (act_on_request kind d p now w1).1 (verified_pending-objects p c w1 ok)
              (acts-IsExplained p w w1 (act_on_request kind d p now w1).1 e same ok
                (act_on_request-ActsIn kind d p now w1))
        | inr refused ↦
            with_result w (verified_pending kind verify_cr now d p (c, w1)).1 w1
              (verified_pending-refused p c w1 refused) (inl same.0)
      ]

  pending_case-IsExplained :
      (o : Option RevisionRow) (w : World)
      → d.pending_revision ≡ o
      → is_pending kind d.row.object_state ≡ true
      → SameObjects w (verify_cr d w).1
      → IsExplained w (pending_case kind verify_cr now d o w).1
  pending_case-IsExplained none w e pending same =
      unfold pending_case in go_back-IsExplained w pending (λ p h. cc)
  pending_case-IsExplained (some p) w e pending same = elim (Bool-cases p.cr_id.valid) [
    | inr n ↦
        with_result w (pending_case kind verify_cr now d (some p) w).1
          (go_back kind verify_cr now d w).1 (ap (λ r. r.1) (pending_case-unasked p w n))
          (go_back-IsExplained w pending (λ q h. ground arith))
    | inl v ↦
        with_result w (pending_case kind verify_cr now d (some p) w).1
          (verified_pending kind verify_cr now d p (verify_cr d w)).1
          (ap (λ r. r.1) (pending_case-asked p w v)) (verified_pending-IsExplained p w e same)
  ]

  update-settled :
      (w : World)
      → is_settled kind d.row.object_state ≡ true
      → (update_object_state kind verify_cr now d w).1 ≡ w
  unfolding update_object_state
  update-settled w e = rw e refl

  update-unknown :
      (w : World)
      → is_settled kind d.row.object_state ≡ false
      → is_pending kind d.row.object_state ≡ false
      → (update_object_state kind verify_cr now d w).1 ≡ w
  unfolding update_object_state
  update-unknown w e f = rw (e, f) refl

  update-pending :
      (w : World)
      → is_settled kind d.row.object_state ≡ false
      → is_pending kind d.row.object_state ≡ true
      → (update_object_state kind verify_cr now d w).1
        ≡ (pending_case kind verify_cr now d d.pending_revision w).1
  unfolding update_object_state
  update-pending w e f = rw (e, f) refl

  -- If VerifyCR only reads, whatever fails, UpdateState writes the object only for one of these
  -- reasons: it goes back, having no pending revision with a change request; or VerifyCR accepted it
  -- and the request is approved, and the row is promoted, or is declined, and the row, else the
  -- same, has the state of its current revision or that of an object without one.
  pub update_object_state-IsExplained :
      (w : World)
      → SameObjects w (verify_cr d w).1
      → IsExplained w (update_object_state kind verify_cr now d w).1
  update_object_state-IsExplained w same =
      let u = (update_object_state kind verify_cr now d w).1 in
      elim (Bool-cases (is_settled kind d.row.object_state)) [
        | inl e ↦ with_result w u w (update-settled w e) (inl refl)
        | inr e ↦ elim (Bool-cases (is_pending kind d.row.object_state)) [
          | inl f ↦
              with_result w u (pending_case kind verify_cr now d d.pending_revision w).1
                (update-pending w e f) (pending_case-IsExplained d.pending_revision w refl f same)
          | inr f ↦ with_result w u w (update-unknown w e f) (inl refl)
        ]
      ]
