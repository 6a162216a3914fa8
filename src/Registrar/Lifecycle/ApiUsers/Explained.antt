-- ===== src/Registrar/Lifecycle/ApiUsers/Explained.antt =====
-- Why UpdateState of an API user (lib/apiuser.go) writes the user.
use go_registrar.Prelude.{
  ℕ, ◌≡◌, inl, inr, refl, ◌∙◌, Bool, true, false, Option, none, some, List, [], arith, Bool-cases,
}
use go_registrar.Prelude.Try.{Result, failed, done, throw}
use go_registrar.Registrar.Revision.{
  api_user, RevisionRow, World, RevErr, find_change_request, unable_to_handle_state, save_object,
}
use go_registrar.Registrar.Model.{ChangeRequest}
use go_registrar.Registrar.Verify.{Checked}
use go_registrar.Registrar.Store.{lookup_request}
use go_registrar.Registrar.Revision.Rows.{
  SameObjects, find_change_request-SameObjects, find_change_request-found,
}
use go_registrar.Registrar.Lifecycle.{
  Prepared, UpdateErr, is_settled, is_pending, promote_pending, decline_pending, reported,
  state_back,
}
use go_registrar.Registrar.Lifecycle.Rows.{state_back-GoesBackTo}
use go_registrar.Registrar.Lifecycle.Safety.{
  promote_pending-PromotesIn, decline_pending-DeclinesIn, save_object-objects,
}
use go_registrar.Registrar.Lifecycle.Acts.{ActsIn, branches-ActsIn}
use go_registrar.Registrar.Lifecycle.Reasons.{HasReason, Unasked, HasReason-at, decided}
use go_registrar.Registrar.Lifecycle.ApiUsers.{
  act_on_found, checked_user, verified_user, user_back, pending_user, api_user_update_state,
}

reported-world :
    (b : Bool) (errs : List UpdateErr) (r : Result RevErr (Unit {0}) × World)
    → (reported b errs r).1 ≡ r.1
reported-world b errs (failed e, w) = refl
reported-world b errs (done u, w) = refl

module _ (verify_cr : Prepared → World → Checked × World) (now : ℕ) (d : Prepared) where
  abbrev Reason : World → World → Type 0
  Reason = HasReason api_user verify_cr now d

  abbrev Finds : RevisionRow → Result RevErr ChangeRequest → World → Type 0
  Finds p r w =
      (cr : ChangeRequest) → r ≡ done cr → lookup_request p.cr_id.int64 w.requests ≡ some cr

  act_on_found-ActsIn :
      (p : RevisionRow) (r : Result RevErr ChangeRequest) (w : World)
      → Finds p r w
      → ActsIn api_user d p now w (act_on_found d p now r w).1
  unfolding act_on_found
  act_on_found-ActsIn p (failed e) w found = inl refl
  act_on_found-ActsIn p (done cr) w found =
      branches-ActsIn api_user d p now (promote_pending api_user d p now)
        (throw unable_to_handle_state) (decline_pending api_user d p now)
        (promote_pending-PromotesIn api_user d p now) (decline_pending-DeclinesIn api_user d p now)
        (λ v. refl) cr w (found cr refl)

  checked_user-accepted :
      (p : RevisionRow) (r : Result RevErr ChangeRequest) (c : Checked) (w : World)
      → c.0 ≡ true
      → (checked_user verify_cr now d p r (c, w)).1 ≡ (act_on_found d p now r w).1
  unfolding checked_user
  checked_user-accepted p r c w ok = rw ok (reported-world false _ (act_on_found d p now r w))

  checked_user-refused :
      (p : RevisionRow) (r : Result RevErr ChangeRequest) (c : Checked) (w : World)
      → c.0 ≡ false
      → (checked_user verify_cr now d p r (c, w)).1 ≡ w
  unfolding checked_user
  checked_user-refused p r c w refused = rw refused refl

  checked_user-Reason :
      (p : RevisionRow) (r : Result RevErr ChangeRequest) (w v : World)
      → d.pending_revision ≡ some p
      → SameObjects w v
      → SameObjects w (verify_cr d v).1
      → Finds p r (verify_cr d v).1
      → Reason w (checked_user verify_cr now d p r (verify_cr d v)).1
  checked_user-Reason p r w v e kept same found =
      let c = (verify_cr d v).0 in
      let x = (verify_cr d v).1 in
      elim (Bool-cases c.0) [
        | inl ok ↦
            HasReason-at api_user verify_cr now d w (checked_user verify_cr now d p r (c, x)).1
              (act_on_found d p now r x).1 (checked_user-accepted p r c x ok)
              (decided api_user verify_cr now d p w v (act_on_found d p now r x).1 e kept ok same
                (act_on_found-ActsIn p r x found))
        | inr refused ↦
            HasReason-at api_user verify_cr now d w (checked_user verify_cr now d p r (c, x)).1 x
              (checked_user-refused p r c x refused) (inl same.0)
      ]

  verified_user-Reason :
      (p : RevisionRow) (w : World)
      → d.pending_revision ≡ some p
      → ((v : World) → SameObjects v (verify_cr d v).1)
      → Reason w (verified_user verify_cr now d p w).1
  unfolding verified_user
  verified_user-Reason p w e reads =
      let r = find_change_request p.cr_id.int64 w in
      let kept = find_change_request-SameObjects p.cr_id.int64 w in
      let same = reads r.1 in
      checked_user-Reason p r.0 w r.1 e kept (same.0 ∙ kept.0, same.1 ∙ kept.1)
        (λ cr f. rw (same.1 ∙ kept.1) (find_change_request-found p.cr_id.int64 w cr f))

  user_back-Reason :
      (w : World)
      → is_pending api_user d.row.object_state ≡ true
      → Unasked api_user verify_cr now d
      → Reason w (user_back verify_cr now d w).1
  unfolding user_back
  user_back-Reason w pending unasked =
      let o = record d.row { object_state = state_back api_user d } in
      HasReason-at api_user verify_cr now d w (reported true [] (save_object o w)).1
        (save_object o w).1 (reported-world true [] (save_object o w))
        (elim (save_object-objects o w) [
          | inl h ↦ inl h
          | inr h ↦ inr (
              inl (
                pending,
                unasked,
                (d.row, state_back api_user d, state_back-GoesBackTo api_user d, h),
              ))
        ])

  pending_user-Reason :
      (o : Option RevisionRow) (w : World)
      → d.pending_revision ≡ o
      → is_pending api_user d.row.object_state ≡ true
      → ((v : World) → SameObjects v (verify_cr d v).1)
      → Reason w (pending_user verify_cr now d o w).1
  unfolding pending_user
  pending_user-Reason none w e pending reads = user_back-Reason w pending (λ p h. cc)
  pending_user-Reason (some p) w e pending reads = elim (Bool-cases p.cr_id.valid) [
    | inl v ↦
        HasReason-at api_user verify_cr now d w (pending_user verify_cr now d (some p) w).1
          (verified_user verify_cr now d p w).1 (simp v refl) (verified_user-Reason p w e reads)
    | inr n ↦
        HasReason-at api_user verify_cr now d w (pending_user verify_cr now d (some p) w).1
          (user_back verify_cr now d w).1 (simp n refl)
          (user_back-Reason w pending (λ q h. ground arith))
  ]

  -- If VerifyCR only reads, whatever fails, UpdateState of an API user writes the user only for one
  -- of these reasons: it goes back, having no pending revision with a change request, or VerifyCR
  -- accepted it and the request is approved or is declined.
  pub api_user_update_state-HasReason :
      (w : World)
      → ((v : World) → SameObjects v (verify_cr d v).1)
      → HasReason api_user verify_cr now d w (api_user_update_state verify_cr now d w).1
  unfolding api_user_update_state
  api_user_update_state-HasReason w reads =
      let u = (api_user_update_state verify_cr now d w).1 in
      elim (Bool-cases (is_settled api_user d.row.object_state)) [
        | inl e ↦ HasReason-at api_user verify_cr now d w u w (simp e refl) (inl refl)
        | inr e ↦ elim (Bool-cases (is_pending api_user d.row.object_state)) [
          | inl f ↦
              HasReason-at api_user verify_cr now d w u
                (pending_user verify_cr now d d.pending_revision w).1 (simp (e, f) refl)
                (pending_user-Reason d.pending_revision w refl f reads)
          | inr f ↦ HasReason-at api_user verify_cr now d w u w (simp (e, f) refl) (inl refl)
        ]
      ]
