-- ===== src/Registrar/Request/Tally.antt =====
-- When a pending change request is approved or declined (ChangeRequest.UpdateState and
-- ReadyForFinalApproval of lib/changerequest.go).
use go_registrar.Prelude.{
  ◌+◌, ◌≤◌, ◌<◌, ◌≡◌, ◌↔◌, ◌⊎◌, inl, inr, refl, Bool, true, false, not, ◌||◌, if◌then◌else◌, List,
  [], ◌∷◌, arith, length, All, Any, Bool-cases,
}
use go_registrar.Registrar.State.{
  State, is, is_refl, code-injective, approved, declined, pending_approval, no_valid_approvers,
  inactive_approver_set,
}
use go_registrar.Registrar.Model.{Approval, ChangeRequest}
use go_registrar.Registrar.Approval.{Err, count_state, final_found, ready_for_final_approval}
use go_registrar.Registrar.Request.{RequestOutcome, go, settled, tally}

-- An approval that a request does not wait for.
abbrev pub IsSettled : Approval → Type 0
IsSettled a =
    (a.state ≡ approved) ⊎ (a.state ≡ no_valid_approvers) ⊎ (a.state ≡ inactive_approver_set)

settled-le-length : (l : List Approval) → settled l ≤ length l
unfolding count_state
settled-le-length [] = omega arith
settled-le-length (a ∷ rest) = ground (arith, settled-le-length rest)

All-settled : (l : List Approval) → length l ≡ settled l → All IsSettled l
unfolding count_state
All-settled [] h = tt
All-settled (a ∷ rest) h = (
  ground (arith, settled-le-length rest),
  All-settled rest (ground (arith, settled-le-length rest)),
)

settled-All : (l : List Approval) → All IsSettled l → length l ≡ settled l
unfolding count_state
settled-All [] h = omega arith
settled-All (a ∷ rest) (h, hs) = ground (arith, settled-All rest hs)

is-eq : (s t : State) → is s t ≡ true → s ≡ t
is-eq s t h = code-injective s t (ground arith)

-- Any approval of the list is in the state.
abbrev pub InState : State → List Approval → Type 0
InState s l = Any (λ a. a.state ≡ s) l

InState-count_state : (s : State) (l : List Approval) → 0 < count_state s l → InState s l
unfolding count_state
InState-count_state s [] h = omega arith
InState-count_state s (a ∷ rest) h = elim (Bool-cases (is a.state s)) [
  | inl e ↦ inl (is-eq a.state s e)
  | inr e ↦ inr (InState-count_state s rest (rw e at h))
]

count_state-InState : (s : State) (l : List Approval) → InState s l → 0 < count_state s l
unfolding count_state
count_state-InState s [] h = absurd h
count_state-InState s (a ∷ rest) (inl e) = rw (e, is_refl) (omega arith)
count_state-InState s (a ∷ rest) (inr h) = ground (arith, count_state-InState s rest h)

-- The state that the request has after the tally.
abbrev pub tally_state : ChangeRequest → State
tally_state r = elim (tally r) [ RequestOutcome.stop c e ↦ r.state | go q c k e ↦ q.state ]

count_state-settled : (l : List Approval) → length l ≡ settled l → count_state declined l ≡ 0
unfolding count_state
count_state-settled [] h = refl
count_state-settled (a ∷ rest) h = ground (arith, count_state-settled rest, settled-le-length rest)

module _ (r : ChangeRequest) (pending : r.state ≡ pending_approval) where
  tally_state-approved :
      tally_state r ≡ approved
      → (0 < count_state approved r.approvals) × (length r.approvals ≡ settled r.approvals)
  unfolding tally
  tally_state-approved h = ground arith

  approved-tally_state :
      0 < count_state approved r.approvals
      → length r.approvals ≡ settled r.approvals
      → tally_state r ≡ approved
  unfolding tally
  approved-tally_state h k = ground arith

  tally_state-declined : tally_state r ≡ declined → 0 < count_state declined r.approvals
  unfolding tally
  tally_state-declined h = ground arith

  declined-tally_state : 0 < count_state declined r.approvals → tally_state r ≡ declined
  unfolding tally
  declined-tally_state h = ground (arith, count_state-settled r.approvals)

  -- A pending change request becomes approved exactly when at least one of its approvals is
  -- approved and every approval is approved, has no valid approvers or has an inactive set.
  pub tally-approved_iff :
      (tally_state r ≡ approved) ↔ (InState approved r.approvals × All IsSettled r.approvals)
  tally-approved_iff = (
    (λ h.
        let (some_approved, all_settled) = tally_state-approved h in
        (
          InState-count_state approved r.approvals some_approved,
          All-settled r.approvals all_settled,
        )),
    λ h.
        approved-tally_state (count_state-InState approved r.approvals h.0)
          (settled-All r.approvals h.1),
  )

  -- A pending change request becomes declined exactly when one of its approvals is declined.
  tally-declined_iff : (tally_state r ≡ declined) ↔ InState declined r.approvals
  tally-declined_iff = (
    (λ h. InState-count_state declined r.approvals (tally_state-declined h)),
    λ h. declined-tally_state (count_state-InState declined r.approvals h),
  )

  -- A pending change request is approved, declined or still pending after the tally, which reports
  -- no error; its other fields are unchanged, and where no change is reported all of it is.
  tally-fields :
      (q : ChangeRequest) (changes cascades : Bool) (errs : List Err)
      → tally r ≡ go q changes cascades errs
      → (q ≡ record r { state = q.state })
        × ((q.state ≡ approved) ⊎ (q.state ≡ declined) ⊎ (q.state ≡ pending_approval))
        × (errs ≡ [])
        × ((q ≡ r) ⊎ (changes ≡ true))
  unfolding tally
  tally-fields q changes cascades errs h = ground arith

-- Exactly one approval of the list is not settled.
abbrev pub OneUnsettled : List Approval → Type 0
OneUnsettled [] = ⊥
OneUnsettled (a ∷ rest) = (IsSettled a × OneUnsettled rest) ⊎ ((¬ IsSettled a) × All IsSettled rest)

unsettled : Approval → Bool
unsettled a =
    not (is a.state approved || is a.state no_valid_approvers || is a.state inactive_approver_set)

unsettled-false : (a : Approval) → unsettled a ≡ false → IsSettled a
unfolding unsettled
unsettled-false a h = ground arith

unsettled-true : (a : Approval) → unsettled a ≡ true → ¬ IsSettled a
unfolding unsettled
unsettled-true a h = ground arith

settled-cons :
    (a : Approval) (l : List Approval)
    → settled (a ∷ l) ≡ settled l + (if unsettled a then 0 else 1)
unfolding count_state unsettled
settled-cons a l = ground arith

OneUnsettled-length : (l : List Approval) → length l ≡ settled l + 1 → OneUnsettled l
OneUnsettled-length [] h = unfold count_state in omega arith
OneUnsettled-length (a ∷ rest) h = elim (Bool-cases (unsettled a)) [
  | inl e ↦ inr (unsettled-true a e, All-settled rest (ground (arith, settled-cons a rest)))
  | inr e ↦
      inl (unsettled-false a e, OneUnsettled-length rest (ground (arith, settled-cons a rest)))
]

length-OneUnsettled : (l : List Approval) → OneUnsettled l → length l ≡ settled l + 1
length-OneUnsettled [] h = absurd h
length-OneUnsettled (a ∷ rest) (inl (s, one)) = elim (Bool-cases (unsettled a)) [
  | inl e ↦ absurd (unsettled-true a e s)
  | inr e ↦ ground (arith, settled-cons a rest, length-OneUnsettled rest one)
]
length-OneUnsettled (a ∷ rest) (inr (s, all)) = elim (Bool-cases (unsettled a)) [
  | inl e ↦ ground (arith, settled-cons a rest, settled-All rest all)
  | inr e ↦ absurd (s (unsettled-false a e))
]

final_found-Any :
    (l : List Approval) → final_found l ≡ true → Any (λ a. a.is_final_approval ≡ true) l
unfolding final_found
final_found-Any [] h = cc
final_found-Any (a ∷ rest) h = ground (arith, final_found-Any rest)

Any-final_found :
    (l : List Approval) → Any (λ a. a.is_final_approval ≡ true) l → final_found l ≡ true
unfolding final_found
Any-final_found [] h = absurd h
Any-final_found (a ∷ rest) (inl h) = rw h
Any-final_found (a ∷ rest) (inr h) = ground (arith, Any-final_found rest h)

ready-parts :
    (l : List Approval)
    → (ready_for_final_approval l ≡ true) ↔ ((length l ≡ settled l + 1) × (final_found l ≡ true))
unfolding ready_for_final_approval
ready-parts l = ground arith

-- A request is ready for its final approval exactly when one approval alone is not settled and some
-- approval is the final one (not necessarily the one that is not settled).
pub ready_for_final_approval_iff :
    (l : List Approval)
    → (ready_for_final_approval l ≡ true)
      ↔ (OneUnsettled l × Any (λ a. a.is_final_approval ≡ true) l)
ready_for_final_approval_iff l = (
  (λ h. let (n, f) = (ready-parts l).0 h in (OneUnsettled-length l n, final_found-Any l f)),
  λ h. (ready-parts l).1 (length-OneUnsettled l h.0, Any-final_found l h.1),
)
