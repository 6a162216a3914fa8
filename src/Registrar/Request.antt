-- ===== src/Registrar/Request.antt =====
-- lib/changerequest.go: the state machine of a change request, and the loop through which it, its
-- approvals and the save hook of approvals call each other.
pub mod Tally
use go_registrar.Prelude.{
  ℕ, zero, suc, Bool, true, false, not, ◌&&◌, ◌||◌, Option, none, some, List, [], ◌∷◌, ◌++◌, ◌==◌,
  ◌+◌, length, ltb, leb, any, if◌then◌else◌,
}
use go_registrar.Registrar.State.{
  State, is, approved, cancelled, declined, new, pending_approval, no_valid_approvers,
  inactive_approver_set,
}
use go_registrar.Registrar.Model.{Approval, ChangeRequest}
use go_registrar.Registrar.Signature.{Crypto}
use go_registrar.Registrar.Store.{
  Db, M, ◌>>=◌, pure, find_approval, find_request, save_approval, save_request,
}
use go_registrar.Registrar.Approval.{
  Err, not_found, save_failed, no_approval_for_set, unknown_state, out_of_fuel, Objects, Loaded,
  find_loaded, count_state, final_found,
}
use go_registrar.Registrar.Decide.{Hooks, update_state}

pub data RequestOutcome : Type 0 where
  stop : Bool → List Err → RequestOutcome
  go : ChangeRequest → Bool → Bool → List Err → RequestOutcome

abbrev pub settled : List Approval → ℕ
settled l =
    count_state approved l + count_state no_valid_approvers l + count_state inactive_approver_set l

abbrev with_state : ChangeRequest → State → ChangeRequest
with_state r s = record r { state = s }

-- The branch of a pending request whose object has a pending revision. The counters are over the
-- approvals of the request; the test on the final approval only asks for a cascade.
unfoldable pub tally : ChangeRequest → RequestOutcome
unfolding count_state final_found
tally r =
    let l = r.approvals in
    let denied = leb 1 (count_state declined l) in
    let final_next = length l == settled l + 1 && final_found l in
    let passed = leb 1 (count_state approved l) && length l == settled l in
    let s1 = if denied then declined else r.state in
    let s2 = if passed then approved else s1 in
    let changes = denied || final_next || passed in go (with_state r s2) changes changes []

-- Whether an approval of the list is for the approver set.
pub has_approval_for : ℕ → List Approval → Bool
has_approval_for k l = any (λ a. a.approver_set_id == k) l

pub all_sets_found : List ℕ → List Approval → Bool
unfolding has_approval_for
all_sets_found [] l = true
all_sets_found (k ∷ rest) l = has_approval_for k l && all_sets_found rest l

abbrev no_errs : List Err → Bool
no_errs [] = true
no_errs (e ∷ rest) = false

module _ (o : Objects) (h : Hooks o) where
  open o use {Obj, has_pending_revision, required_sets, update_object}

  mark_reload : Option Approval → M Bool
  mark_reload none = pure false
  mark_reload (some a) = pure true

  mark_found : Option Approval → M Bool
  unfolding mark_reload
  mark_found none = pure false
  mark_found (some t) = do
    saved ← save_approval h.after_save (record t { is_final_approval = true; state = new })
    if saved then (do a ← find_approval t.id; mark_reload a) else pure false

  -- The loop that marks the approvals of approver set 1 as final; `false` is an early return.
  pub mark_finals : List Approval → M Bool
  unfolding mark_found
  mark_finals [] = pure true
  mark_finals (a ∷ rest) =
      let others = mark_finals rest in
      if a.approver_set_id == 1
      then (do t ← find_approval a.id; ok ← mark_found t; if ok then others else pure false)
      else others

  opened : ChangeRequest → Bool → RequestOutcome
  opened r true = go (with_state r pending_approval) true true []
  opened r false = stop true (not_found ∷ [])

  open_sets : ChangeRequest → Bool → M RequestOutcome
  unfolding mark_finals opened
  open_sets r true = do ok ← mark_finals r.approvals; pure (opened r ok)
  open_sets r false = pure (stop false (no_approval_for_set ∷ []))

  -- The branch of a new request.
  pub open_request : Loaded o → M RequestOutcome
  unfolding all_sets_found open_sets
  open_request (r, x) =
      if not (has_pending_revision x)
      then pure (go (with_state r cancelled) true true [])
      else do sets ← required_sets x; open_sets r (all_sets_found sets r.approvals)

  -- The switch of ChangeRequest.UpdateState.
  pub decide_request : State → Loaded o → M RequestOutcome
  unfolding open_request tally
  decide_request new l = open_request l
  decide_request pending_approval (r, x) =
      if not (has_pending_revision x)
      then pure (go (with_state r cancelled) true true [])
      else pure (tally r)
  decide_request _ (r, x) = pure (go r false false (unknown_state ∷ []))

  -- What the loop of UpdateApprovals carries: the approvals that are pending, and the last one that
  -- is final.
  pub record Seen : Type 0 where
    pub pending : ℕ
    pub final : Option Approval

  abbrev see : Approval → Seen → Seen
  see a s = record {
    pending = if is a.state pending_approval then s.pending + 1 else s.pending;
    final = if a.is_final_approval then some a else s.final;
  }

  -- The final approval goes back to new while another approval is pending.
  hold_final : ChangeRequest → Seen → M (Bool × Seen)
  hold_final r s = elim s.final [
    | none ↦ pure (true, s)
    | some f ↦
        if not (is r.state approved) && ltb 1 s.pending && is f.state pending_approval
        then (do
          let f' = record f { state = new }
          saved ← save_approval h.after_save f'
          pure (saved, record s { final = some f' }))
        else pure (true, s)
  ]

  -- The loop of UpdateApprovals; `false` is an early return.
  pub approvals_loop : ChangeRequest → Seen → List Approval → M Bool
  unfolding hold_final
  approvals_loop r s [] = pure true
  approvals_loop r s (a ∷ rest) = do
    t ← find_approval a.id
    elim t [
      | none ↦ pure false
      | some app ↦ do
        u ← h.update_approval app
        held ← hold_final r (see u.0 s)
        if held.0 then approvals_loop r held.1 rest else pure false
    ]

  approvals_done : Obj → Bool → M (List Err)
  approvals_done x true = do u ← update_object x; pure []
  approvals_done x false = pure (save_failed ∷ [])

  -- UpdateApprovals behind the request that FindByID returned; the state of the object is updated
  -- at the end, and its errors are dropped.
  approvals_found : Obj → Option (Loaded o) → M (List Err)
  unfolding approvals_loop approvals_done
  approvals_found x none = pure (not_found ∷ [])
  approvals_found x (some (r, y)) = do
    ok ← approvals_loop r (record { pending = 0; final = none }) r.approvals
    approvals_done x ok

  -- ChangeRequest.UpdateApprovals.
  pub update_approvals : Loaded o → M (List Err)
  unfolding approvals_found
  update_approvals (r, x) = do l ← find_loaded o r.id; approvals_found x l

  request_cascade : Loaded o → Bool → Bool → List Err → M (Bool × List Err)
  unfolding update_approvals
  request_cascade l changes cascades errs =
      if cascades
      then (do sub ← update_approvals l; pure (changes, errs ++ sub))
      else pure (changes, errs)

  request_saved : Loaded o → Bool → List Err → Bool → M (Bool × List Err)
  unfolding request_cascade
  request_saved l cascades errs true = request_cascade l true cascades errs
  request_saved l cascades errs false = pure (true, errs ++ save_failed ∷ [])

  -- The save and the cascade at the end of ChangeRequest.UpdateState.
  pub finish_request : Obj → RequestOutcome → M (Bool × List Err)
  unfolding request_saved
  finish_request x (stop changes errs) = pure (changes, errs)
  finish_request x (go r changes cascades errs) =
      let r' = record r { approvals = [] } in
      if changes
      then (do saved ← save_request r'; request_saved (r', x) cascades errs saved)
      else request_cascade (r, x) changes cascades errs

  -- ChangeRequest.UpdateState, on a request that FindByID has prepared.
  pub update_request_state : Loaded o → M (Bool × List Err)
  unfolding decide_request finish_request
  update_request_state (r, x) = do out ← decide_request r.state (r, x); finish_request x out

  post_request : Option (Loaded o) → M Bool
  post_request none = pure false
  post_request (some l) = do r ← h.update_request l; pure (no_errs r.1)

  post_second : Option Approval → M Bool
  unfolding post_request
  post_second none = pure false
  post_second (some a) = do
    u ← h.update_approval a
    if u.1 then (do l ← find_loaded o u.0.change_request_id; post_request l) else pure true

  post_first : Approval × Bool × List Err → M Bool
  unfolding post_second
  post_first (a, changes, errs) =
      if not (no_errs errs)
      then pure false
      else if changes
      then (do b ← find_approval a.id; post_second b)
      else pure true

  -- Approval.PostUpdate behind its FindByID; the result says whether it returned no error.
  post_update : Option Approval → M Bool
  unfolding post_first
  post_update none = pure false
  post_update (some a) = do u ← h.update_approval a; post_first u

  -- Approval.AfterSave, and the FindByID of PostUpdate.
  pub approval_after_save : ℕ → M Bool
  unfolding post_update
  approval_after_save k = do
    a ← find_approval k
    elim a [ none ↦ pure false | some _ ↦ do b ← find_approval k; post_update b ]

-- The calls of one another, on fuel: each level may call the one below.
pub hooks : (o : Objects) → Crypto → (Approval → List Err) → ℕ → Hooks o
unfolding approval_after_save update_request_state
hooks o c mail zero = record {
  after_save = λ k. pure false;
  update_approval = λ a. pure (a, false, out_of_fuel ∷ []);
  update_request = λ l. pure (false, out_of_fuel ∷ []);
}
hooks o c mail (suc n) =
    let h = hooks o c mail n in
    record {
      after_save = approval_after_save o h;
      update_approval = update_state o c mail h;
      update_request = update_request_state o h;
    }
