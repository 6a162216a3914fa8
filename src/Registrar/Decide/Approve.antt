-- ===== src/Registrar/Decide/Approve.antt =====
-- What Approval.UpdateState (lib/approval.go) asks for before it approves or declines, and the
-- states that it never leaves.
use go_registrar.Prelude.{
  ◌≡◌, ◌≢◌, ◌⊎◌, refl, Bool, true, false, ◌&&◌, Option, none, some, List, [], arith, Bool-cases,
  inl, inr, ◌==◌, length,
}
use go_registrar.Registrar.State.{
  State, is, new, no_valid_approvers, inactive_approver_set, approved, cancelled, declined,
  pending_approval, skipped_no_valid_approvers, skipped_inactive_approver_set,
}
use go_registrar.Registrar.Model.{Action, action_approved, action_declined, Approval}
use go_registrar.Registrar.Signature.{Crypto, is_none, check_signature}
use go_registrar.Registrar.Verify.{Checked}
use go_registrar.Registrar.Store.{Db, save_approval}
use go_registrar.Registrar.Approval.{
  Err, Objects, is_cancelled, Loaded, find_loaded, check_validity_of_approver_set, is_editable,
}
use go_registrar.Registrar.Approval.Validity.{IsValidity, check_approver_set-IsValidity}
use go_registrar.Registrar.Decide.{
  Outcome, stop, go, move_to, verified, decide_signed, decide_pending_found, decide_new_again,
  decide_new_found, decide, Hooks, cascade_to, cascade, after_saving, finish, update_state,
}

-- The state that the approval has after the switch.
abbrev pub outcome_state : Outcome → State → State
outcome_state (stop errs) s = s
outcome_state (go a changes cascades errs) s = a.state

-- The two verdicts, and the action that each needs.
abbrev pub IsVerdict : State → Action → Type 0
IsVerdict s act =
    ((s ≡ approved) × (act ≡ action_approved)) ⊎ ((s ≡ declined) × (act ≡ action_declined))

abbrev pub HasVerdict : State → Type 0
HasVerdict s = (s ≡ approved) ⊎ (s ≡ declined)

verified-IsVerdict :
    (mail : Approval → List Err) (a : Approval) (act : Action) (r : Checked)
    → a.state ≡ pending_approval
    → HasVerdict (outcome_state (verified mail a act r) a.state)
    → (r.0 ≡ true) × IsVerdict (outcome_state (verified mail a act r) a.state) act
unfolding verified
verified-IsVerdict mail a act r p h = ground arith

move_to-verdict :
    (a : Approval) (cascades : Bool) (t : Option State)
    → ((s : State) → t ≡ some s → IsValidity s)
    → HasVerdict (outcome_state (move_to a cascades t) a.state)
    → HasVerdict a.state
unfolding move_to
move_to-verdict a cascades none v h = h
move_to-verdict a cascades (some s) v h = ground (arith, v s refl)

module _ (o : Objects) (c : Crypto) (mail : Approval → List Err) where
  open o use {verify_object}

  -- Why an approval gets a verdict: its change request is found and not cancelled, CheckSignature
  -- accepts its signature with the action of the verdict, and VerifyCR accepts the object.
  pub record IsJustified (a : Approval) (db : Db) (s : State) : Type 0 where
    pub loaded : Loaded o
    pub action : Action
    pub found : (find_loaded o a.change_request_id db).0 ≡ some loaded
    pub not_cancelled : loaded.0.state ≢ cancelled
    pub verdict : IsVerdict s action
    pub accepted : check_signature c a ≡ (true, action, none)
    pub verifies : (verify_object loaded.1 (find_loaded o a.change_request_id db).1).0.0 ≡ true

  validity-verdict :
      (a : Approval) (cascades : Bool) (db : Db)
      → HasVerdict
          (outcome_state (move_to a cascades (check_validity_of_approver_set o a db).0) a.state)
      → HasVerdict a.state
  validity-verdict a cascades db h =
      move_to-verdict a cascades (check_validity_of_approver_set o a db).0
        (λ s e. check_approver_set-IsValidity o a db s e) h

  decide_signed-IsVerdict :
      (a : Approval) (x : o.Obj) (db : Db)
      → a.state ≡ pending_approval
      → HasVerdict (outcome_state (decide_signed o c mail a x db).0 a.state)
      → (act : Action) × (check_signature c a ≡ (true, act, none))
        × ((verify_object x db).0.0 ≡ true)
        × IsVerdict (outcome_state (decide_signed o c mail a x db).0 a.state) act
  unfolding decide_signed
  decide_signed-IsVerdict a x db p h =
      let k = check_signature c a in
      elim (Bool-cases (is_none k.2 && k.0)) [
        | inl e ↦
            let r = verify_object x db in
            let (ok, v) = verified-IsVerdict mail a k.1 r.0 p (rw e at h) in
            (k.1, ground arith, ok, rw e v)
        | inr e ↦ absurd (ground arith)
      ]

  pending_found-IsVerdict :
      (a : Approval) (l : Option (Loaded o)) (db : Db)
      → a.state ≡ pending_approval
      → HasVerdict (outcome_state (decide_pending_found o c mail a l db).0 a.state)
      → (r : Loaded o) × (act : Action) × (l ≡ some r)
        × (r.0.state ≢ cancelled)
        × (check_signature c a ≡ (true, act, none))
        × ((verify_object r.1 db).0.0 ≡ true)
        × IsVerdict (outcome_state (decide_pending_found o c mail a l db).0 a.state) act
  unfolding decide_pending_found
  pending_found-IsVerdict a none db p h = absurd (ground arith)
  pending_found-IsVerdict a (some (r, x)) db p h = elim (Bool-cases (is_cancelled r.state)) [
    | inl e ↦ absurd (cancelled_verdict (rw e at h))
    | inr e ↦
        let alive : r.state ≢ cancelled = λ d. unfold is_cancelled in cc (rw d at e) in
        elim (Bool-cases (length a.signature == 0)) [
          | inl z ↦ absurd (pending_verdict (validity-verdict a true db (rw (e, z) at h)))
          | inr z ↦
              let (act, accepted, ok, v) = decide_signed-IsVerdict a x db p (rw (e, z) at h) in
              ((r, x), act, refl, alive, accepted, ok, rw (e, z) v)
        ]
  ]
    where
      cancelled_verdict : HasVerdict cancelled → ⊥
      cancelled_verdict v = ground arith

      pending_verdict : HasVerdict a.state → ⊥
      pending_verdict v = ground arith

  decide_pending-IsJustified :
      (a : Approval) (db : Db)
      → a.state ≡ pending_approval
      → HasVerdict (outcome_state (decide o c mail pending_approval a db).0 a.state)
      → IsJustified a db (outcome_state (decide o c mail pending_approval a db).0 a.state)
  unfolding decide
  decide_pending-IsJustified a db p h =
      let l = find_loaded o a.change_request_id db in
      let (r, act, found, alive, accepted, ok, v) = pending_found-IsVerdict a l.0 l.1 p h in
      record {
        loaded = r;
        action = act;
        found = found;
        not_cancelled = alive;
        verdict = v;
        accepted = accepted;
        verifies = ok;
      }

  new_again-verdict :
      (a : Approval) (l : Option (Loaded o)) (db : Db)
      → HasVerdict (outcome_state (decide_new_again o c mail a l db).0 a.state)
      → HasVerdict a.state
  unfolding decide_new_again
  new_again-verdict a none db h = h
  new_again-verdict a (some (r, x)) db h = elim (Bool-cases (is r.state pending_approval)) [
    | inl e ↦ validity-verdict a true db (rw e at h)
    | inr e ↦ rw e at h
  ]

  new_found-verdict :
      (a : Approval) (l : Option (Loaded o)) (db : Db)
      → HasVerdict (outcome_state (decide_new_found o c mail a l db).0 a.state)
      → HasVerdict a.state
  unfolding decide_new_found
  new_found-verdict a none db h = h
  new_found-verdict a (some (r, x)) db h = elim (Bool-cases (is_cancelled r.state)) [
    | inl e ↦ absurd (cancelled_verdict (rw e at h))
    | inr e ↦
        let l = find_loaded o a.change_request_id db in new_again-verdict a l.0 l.1 (rw e at h)
  ]
    where
      cancelled_verdict : HasVerdict cancelled → ⊥
      cancelled_verdict v = ground arith

  other-verdict :
      (s : State) (a : Approval) (db : Db)
      → s ≢ pending_approval
      → HasVerdict (outcome_state (decide o c mail s a db).0 a.state)
      → HasVerdict a.state
  unfolding decide
  other-verdict pending_approval a db n h = absurd (n refl)
  other-verdict new a db n h =
      let l = find_loaded o a.change_request_id db in new_found-verdict a l.0 l.1 h
  other-verdict no_valid_approvers a db n h = validity-verdict a false db h
  other-verdict inactive_approver_set a db n h = validity-verdict a false db h
  other-verdict _ a db n h = h

  cascade-state :
      (h : Hooks o) (a : Approval) (changes cascades : Bool) (errs : List Err) (db : Db)
      → (cascade o h a changes cascades errs db).0.0.state ≡ a.state
  unfolding cascade
  cascade-state h a changes true errs db = go (find_loaded o a.change_request_id db)
    where
      go :
          (l : Option (Loaded o) × Db) → (cascade_to o h a changes errs l.0 l.1).0.0.state ≡ a.state
      go (none, db') = refl
      go (some l, db') = refl
  cascade-state h a changes false errs db = refl

  finish-state :
      (h : Hooks o) (a : Approval) (out : Outcome) (db : Db)
      → (finish o h a out db).0.0.state ≡ outcome_state out a.state
  unfolding finish
  finish-state h a (stop errs) db = refl
  finish-state h a (go b true cascades errs) db = saving (save_approval h.after_save b db)
    where
      saving : (r : Bool × Db) → (after_saving o h b cascades errs r.0 r.1).0.0.state ≡ b.state
      saving (true, db') = cascade-state h b true cascades errs db'
      saving (false, db') = refl
  finish-state h a (go b false cascades errs) db = cascade-state h b false cascades errs db

  decide-verdict :
      (s : State) (a : Approval) (db : Db)
      → a.state ≡ s
      → ¬ HasVerdict a.state
      → HasVerdict (outcome_state (decide o c mail s a db).0 a.state)
      → (s ≡ pending_approval) × IsJustified a db (outcome_state (decide o c mail s a db).0 a.state)
  decide-verdict pending_approval a db e fresh v = (refl, decide_pending-IsJustified a db e v)
  decide-verdict s a db e fresh v = absurd (fresh (other-verdict s a db (λ p. ground arith) v))

  -- An approval that has no verdict and has one after UpdateState was pending, and the verdict is
  -- justified: the change request was found and was not cancelled, CheckSignature accepted the
  -- signature with the action of the verdict, and VerifyCR accepted the object.
  pub update_state-IsJustified :
      (h : Hooks o) (a : Approval) (db : Db)
      → ¬ HasVerdict a.state
      → HasVerdict (update_state o c mail h a db).0.0.state
      → (a.state ≡ pending_approval) × IsJustified a db (update_state o c mail h a db).0.0.state
  unfolding update_state
  update_state-IsJustified h a db fresh v =
      let out = decide o c mail a.state a db in
      let same = finish-state h a out.0 out.1 in
      simp same (decide-verdict a.state a db refl fresh (simp same at v))

  settled-decide :
      (s : State) (a : Approval) (db : Db)
      → is_editable (record a { state = s }) ≡ false
      → decide o c mail s a db ≡ (go a false false [], db)
  unfolding decide is_editable
  settled-decide approved a db h = refl
  settled-decide declined a db h = refl
  settled-decide cancelled a db h = refl
  settled-decide skipped_no_valid_approvers a db h = refl
  settled-decide skipped_inactive_approver_set a db h = refl
  settled-decide _ a db h = absurd (ground arith)

  -- UpdateState on an approval that IsEditable refuses changes nothing, whatever it may call: the
  -- approval and the database are as before, no change is reported and no error.
  pub update_state-settled :
      (h : Hooks o) (a : Approval) (db : Db)
      → is_editable a ≡ false
      → update_state o c mail h a db ≡ ((a, false, []), db)
  unfolding update_state finish
  update_state-settled h a db e = rw (settled-decide a.state a db e)
