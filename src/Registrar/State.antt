-- ===== src/Registrar/State.antt =====
-- lib/registrarobject.go: the states of objects, revisions, change requests and approvals. The
-- source holds them as texts; each named constant is a constructor, any other text is `other`.
use go_registrar.Prelude.{ℕ, ◌+◌, ◌≡◌, Bool, true, arith, ◌==◌}

pub data State : Type 0 where
  active approved bootstrap pending_bootstrap cancelled declined approval_failed inactive : State
  external new_external new pending_approval active_pending_approval : State
  inactive_pending_approval external_pending_approval pending_new pending_new_external : State
  no_valid_approvers skipped_no_valid_approvers inactive_approver_set : State
  skipped_inactive_approver_set implemented superseded : State
  other : ℕ → State

abbrev pub code : State → ℕ
code active = 0
code approved = 1
code bootstrap = 2
code pending_bootstrap = 3
code cancelled = 4
code declined = 5
code approval_failed = 6
code inactive = 7
code external = 8
code new_external = 9
code new = 10
code pending_approval = 11
code active_pending_approval = 12
code inactive_pending_approval = 13
code external_pending_approval = 14
code pending_new = 15
code pending_new_external = 16
code no_valid_approvers = 17
code skipped_no_valid_approvers = 18
code inactive_approver_set = 19
code skipped_inactive_approver_set = 20
code implemented = 21
code superseded = 22
code (other n) = 23 + n

-- `s == t` on the texts.
abbrev pub is : State → State → Bool
is s t = code s == code t

pub is_refl : (s : State) → is s s ≡ true
is_refl s = ground arith

pub code-injective : (s t : State) → code s ≡ code t → s ≡ t
code-injective s t h = ground arith
