-- ===== src/Registrar/Lifecycle/ApproverSets/Cascade.antt =====
-- When UpdateState of an approver set (lib/approverset.go) lets the pending approvals of the set
-- update their state.
use go_registrar.Prelude.{
  ℕ, ◌≡◌, ◌⊎◌, inl, inr, refl, ap, sym, ◌∙◌, Bool, true, false, ◌||◌, Option, none, some, List, [],
  ◌∷◌, ◌++◌, arith, Bool-cases, append_nil, append_assoc,
}
use go_registrar.Prelude.Try.{Result, failed, done, ◌>>=◌, pure, try_next}
use go_registrar.Registrar.State.{is, approved, declined}
use go_registrar.Registrar.Model.{ChangeRequest}
use go_registrar.Registrar.Verify.{Checked}
use go_registrar.Registrar.Revision.{
  approver_set, ObjectRow, RevisionRow, World, RevErr, Op, find_object, find_change_request,
  save_object,
}
use go_registrar.Registrar.Revision.Rows.{
  SameObjects, find_object-SameObjects, find_change_request-SameObjects,
}
use go_registrar.Registrar.Lifecycle.{
  Prepared, UpdateErr, Updated, is_settled, is_pending, promote_pending, decline_pending,
  state_back,
}
use go_registrar.Registrar.Lifecycle.ApproverSets.{
  SetOutcome, act_on_set_request, act_on_set, set_acted, set_saved, checked_set, set_back,
  pending_approver_set, switch_set, set_read, update_set_row, update_pending_approvals,
  cascade_found, cascade_set, quiet, approver_set_update_state,
}

-- What an operation that is done answers: true, unless it has left the objects alone.
abbrev Tells : World → Result RevErr Bool × World → Type 0
Tells w r = (b : Bool) (t : World) → r ≡ (done b, t) → (t.objects ≡ w.objects) ⊎ (b ≡ true)

-- The approvals update their state one after another, each in the world that the one before it
-- left, with these outcomes in order; at the end stands the second world.
abbrev pub RunInTurn :
    (ℕ → World → Updated) → List ℕ → List (Bool × List UpdateErr) → World → World → Type 0
RunInTurn f [] [] w w' = w' ≡ w
RunInTurn f (a ∷ ids) (o ∷ outs) w w' = ((f a w).0 ≡ o) × RunInTurn f ids outs (f a w).1 w'
RunInTurn f _ _ w w' = ⊥

-- Whether one of the outcomes is a change, and the errors of all.
abbrev pub any_changes : List (Bool × List UpdateErr) → Bool
any_changes [] = false
any_changes ((c, errs) ∷ outs) = c || any_changes outs

abbrev pub all_errors : List (Bool × List UpdateErr) → List UpdateErr
all_errors [] = []
all_errors ((c, errs) ∷ outs) = errs ++ all_errors outs

no_more :
    (b : Bool) (errs : List UpdateErr)
    → let before : Bool × List UpdateErr = (b, errs) in
      let after : Bool × List UpdateErr = (b || false, errs ++ []) in before ≡ after
no_more true errs = ap (λ l. (true, l)) (sym (append_nil errs))
no_more false errs = ap (λ l. (false, l)) (sym (append_nil errs))

one_more :
    (b : Bool) (errs : List UpdateErr) (o : Bool × List UpdateErr)
    (outs : List (Bool × List UpdateErr))
    → let before : Bool × List UpdateErr =
        ((b || o.0) || any_changes outs, (errs ++ o.1) ++ all_errors outs) in
      let after : Bool × List UpdateErr =
        (b || any_changes (o ∷ outs), errs ++ all_errors (o ∷ outs)) in
      before ≡ after
one_more true errs (c, l) outs = ap (λ k. (true, k)) (append_assoc errs l (all_errors outs))
one_more false errs (c, l) outs =
    ap (λ k. (c || any_changes outs, k)) (append_assoc errs l (all_errors outs))

-- Where the function goes on, the objects are as before or there is a cascade.
abbrev Follows : World → SetOutcome × World → Type 0
Follows w r = r.0.goes_on ≡ true → (r.1.objects ≡ w.objects) ⊎ (r.0.cascade ≡ true)

Follows-at : (w : World) (u v : SetOutcome × World) → u ≡ v → Follows w v → Follows w u
Follows-at w u v e h = rw e h

answers-Tells : {A : Type 0} (m : Op A) (v w : World) → Tells w ((do x ← m; pure true) v)
answers-Tells m v w = ended (m v)
  where
    ended : {A : Type 0} (r : Result RevErr A × World) → Tells w (try_next (λ x. pure true) r)
    ended (failed e, t) b u h = cc
    ended (done a, t) b u h = inr (cc)

act_on_set_request-Tells :
    (d : Prepared) (p : RevisionRow) (now : ℕ) (cr : ChangeRequest) (w v : World)
    → v.objects ≡ w.objects
    → Tells w (act_on_set_request d p now cr v)
unfolding act_on_set_request
act_on_set_request-Tells d p now cr w v same = elim (Bool-cases (is cr.state approved)) [
  | inl e ↦ rw e (answers-Tells (promote_pending approver_set d p now) v w)
  | inr e ↦ elim (Bool-cases (is cr.state declined)) [
    | inl f ↦ rw (e, f) (answers-Tells (decline_pending approver_set d p now) v w)
    | inr f ↦ rw (e, f) (λ b t h. inl (ap (λ r. r.1.objects) (sym h) ∙ same))
  ]
]

found-Tells :
    (d : Prepared) (p : RevisionRow) (now : ℕ) (w : World) (r : Result RevErr ChangeRequest × World)
    → r.1.objects ≡ w.objects
    → Tells w (try_next (act_on_set_request d p now) r)
found-Tells d p now w (failed e, v) same b t h = cc
found-Tells d p now w (done cr, v) same b t h = act_on_set_request-Tells d p now cr w v same b t h

act_on_set-Tells :
    (d : Prepared) (p : RevisionRow) (now : ℕ) (w v : World)
    → v.objects ≡ w.objects
    → Tells w (act_on_set d p now v)
unfolding act_on_set
act_on_set-Tells d p now w v same =
    let r = find_change_request p.cr_id.int64 v in
    found-Tells d p now w r ((find_change_request-SameObjects p.cr_id.int64 v).0 ∙ same)

set_acted-Follows :
    (errs : List UpdateErr) (w : World) (r : Result RevErr Bool × World)
    → Tells w r
    → Follows w (set_acted errs r)
set_acted-Follows errs w (failed e, t) tells = λ h. cc
set_acted-Follows errs w (done b, t) tells = λ h. tells b t refl

set_saved-Follows : (w : World) (r : Result RevErr (Unit {0}) × World) → Follows w (set_saved r)
set_saved-Follows w (failed e, t) = λ h. cc
set_saved-Follows w (done u, t) = λ h. inr refl

module _ (verify_cr : Prepared → World → Checked × World) (now : ℕ) (d : Prepared) where
  checked_set-Follows :
      (p : RevisionRow) (c : Checked) (w v : World)
      → v.objects ≡ w.objects
      → Follows w (checked_set verify_cr now d p (c, v))
  unfolding checked_set
  checked_set-Follows p (true, errs) w v same =
      set_acted-Follows _ w (act_on_set d p now v) (act_on_set-Tells d p now w v same)
  checked_set-Follows p (false, errs) w v same = λ h. inl same

  set_back-Follows : (o : ObjectRow) (w v : World) → Follows w (set_back verify_cr now o d v)
  unfolding set_back
  set_back-Follows o w v =
      set_saved-Follows w (save_object (record o { object_state = state_back approver_set d }) v)

  pending_approver_set-Follows :
      (o : ObjectRow) (q : Option RevisionRow) (w v : World)
      → v.objects ≡ w.objects
      → SameObjects v (verify_cr d v).1
      → Follows w (pending_approver_set verify_cr now o d q v)
  unfolding pending_approver_set
  pending_approver_set-Follows o none w v same kept = set_back-Follows o w v
  pending_approver_set-Follows o (some p) w v same kept = elim (Bool-cases p.cr_id.valid) [
    | inl e ↦
        Follows-at w (pending_approver_set verify_cr now o d (some p) v)
          (checked_set verify_cr now d p (verify_cr d v)) (simp e refl)
          (checked_set-Follows p (verify_cr d v).0 w (verify_cr d v).1 (kept.0 ∙ same))
    | inr e ↦
        Follows-at w (pending_approver_set verify_cr now o d (some p) v)
          (set_back verify_cr now o d v) (simp e refl) (set_back-Follows o w v)
  ]

  switch_set-Follows :
      (o : ObjectRow) (w v : World)
      → v.objects ≡ w.objects
      → SameObjects v (verify_cr d v).1
      → Follows w (switch_set verify_cr now d o v)
  unfolding switch_set
  switch_set-Follows o w v same kept =
      elim (Bool-cases (is_settled approver_set d.row.object_state)) [
        | inl e ↦
            Follows-at w (switch_set verify_cr now d o v) (quiet, v) (simp e refl) (λ h. inl same)
        | inr e ↦ elim (Bool-cases (is_pending approver_set d.row.object_state)) [
          | inl f ↦
              Follows-at w (switch_set verify_cr now d o v)
                (pending_approver_set verify_cr now o d d.pending_revision v) (simp (e, f) refl)
                (pending_approver_set-Follows o d.pending_revision w v same kept)
          | inr f ↦
              Follows-at w (switch_set verify_cr now d o v) (quiet, v) (simp (e, f) refl)
                (λ h. inl same)
        ]
      ]

  set_read-Follows :
      (w : World) (r : Result RevErr ObjectRow × World)
      → r.1.objects ≡ w.objects
      → ((v : World) → SameObjects v (verify_cr d v).1)
      → Follows w (set_read verify_cr now d r)
  unfolding set_read
  set_read-Follows w (failed e, v) same reads = λ h. cc
  set_read-Follows w (done o, v) same reads = switch_set-Follows o w v same (reads v)

  update_set_row-Follows :
      (w : World)
      → ((v : World) → SameObjects v (verify_cr d v).1)
      → Follows w (update_set_row verify_cr now d w)
  unfolding update_set_row
  update_set_row-Follows w reads =
      set_read-Follows w (find_object d.row.object_id w)
        (find_object-SameObjects d.row.object_id w).0 reads

  module _ (pending_approvals : ObjectRow → World → List ℕ)
      (update_approval : ℕ → World → Updated) where
    cascade_set-quiet :
        (s : SetOutcome) (w : World)
        → s.cascade ≡ false
        → cascade_set verify_cr now pending_approvals update_approval d (s, w)
          ≡ ((s.changes, s.errors), w)
    unfolding cascade_set
    cascade_set-quiet s w q = elim (Bool-cases s.goes_on) [
      | inl e ↦ simp (e, q) refl
      | inr e ↦ simp e refl
    ]

    update_pending_approvals-RunInTurn :
        (ids : List ℕ) (changes : Bool) (errs : List UpdateErr) (w : World)
        → (outs : List (Bool × List UpdateErr)) × (w' : World) × RunInTurn update_approval ids outs
            w w'
          × (update_pending_approvals verify_cr now pending_approvals update_approval ids
                ((changes, errs), w)
              ≡ ((changes || any_changes outs, errs ++ all_errors outs), w'))
    unfolding update_pending_approvals
    update_pending_approvals-RunInTurn [] changes errs w =
        ([], w, refl, ap (λ r. (r, w)) (no_more changes errs))
    update_pending_approvals-RunInTurn (a ∷ ids) changes errs w =
        let (o, v) = update_approval a w in
        let (outs, w', turns, e) =
          update_pending_approvals-RunInTurn ids (changes || o.0) (errs ++ o.1) v in
        (o ∷ outs, w', (refl, turns), e ∙ ap (λ r. (r, w')) (one_more changes errs o outs))

    cascade_set-runs :
        (s : SetOutcome) (w v : World) (o : ObjectRow)
        → s.goes_on ≡ true
        → s.cascade ≡ true
        → find_object d.row.object_id w ≡ (done o, v)
        → cascade_set verify_cr now pending_approvals update_approval d (s, w)
          ≡ update_pending_approvals verify_cr now pending_approvals update_approval
              (pending_approvals o v)
              ((s.changes, s.errors), v)
    unfolding cascade_set cascade_found
    cascade_set-runs s w v o goes cascades found = simp (goes, cascades, found) refl

    -- If VerifyCR only reads and neither the part of UpdateState before the cascade returns early nor
    -- the set cannot be found again, then the objects are as before and nothing more is done, or each
    -- pending approval of the set, as the database holds them after the change, updates its state,
    -- one after another in the world that the one before it left. UpdateState then reports a change
    -- where the set or one of those approvals had one, and the errors of all of them in order.
    pub approver_set_update_state-cascades :
        (w w1 v : World) (s : SetOutcome) (o : ObjectRow)
        → ((x : World) → SameObjects x (verify_cr d x).1)
        → update_set_row verify_cr now d w ≡ (s, w1)
        → s.goes_on ≡ true
        → find_object d.row.object_id w1 ≡ (done o, v)
        → ((w1.objects ≡ w.objects)
            × (approver_set_update_state verify_cr now pending_approvals update_approval d w
                ≡ ((s.changes, s.errors), w1)))
          ⊎ ((outs : List (Bool × List UpdateErr)) × (w' : World) × RunInTurn update_approval
                (pending_approvals o v)
                outs
                v
                w'
              × (approver_set_update_state verify_cr now pending_approvals update_approval d w
                  ≡ ((s.changes || any_changes outs, s.errors ++ all_errors outs), w')))
    unfolding approver_set_update_state
    approver_set_update_state-cascades w w1 v s o reads step goes found =
        let follows : Follows w (s, w1) =
          Follows-at w (s, w1) (update_set_row verify_cr now d w) (sym step)
            (update_set_row-Follows w reads) in
        let after = ap (cascade_set verify_cr now pending_approvals update_approval d) step in
        elim (Bool-cases s.cascade) [
          | inl c ↦
              let (outs, w', turns, e) =
                update_pending_approvals-RunInTurn (pending_approvals o v) s.changes s.errors v in
              inr (outs, w', turns, after ∙ cascade_set-runs s w1 v o goes c found ∙ e)
          | inr c ↦ elim (follows goes) [
            | inl same ↦ inl (same, after ∙ cascade_set-quiet s w1 c)
            | inr h ↦ ground arith
          ]
        ]
