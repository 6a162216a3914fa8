-- ===== src/Registrar/Examples/Users.antt =====
-- The theorems on UpdateState of API users and approver sets (lib/) at concrete inputs.
use go_registrar.Prelude.{ℕ, ◌≡◌, ◌⊎◌, refl, Bool, true, false, ◌||◌, List, [], ◌∷◌, ◌++◌}
use go_registrar.Registrar.State.{inactive}
use go_registrar.Registrar.Revision.{api_user, approver_set, ObjectRow, World, find_object}
use go_registrar.Registrar.Lifecycle.{
  Updated, UpdateErr, is_settled, is_pending, is_target, promoted_object,
}
use go_registrar.Registrar.Lifecycle.Reasons.{HasReason}
use go_registrar.Registrar.Lifecycle.ApiUsers.{api_user_update_state}
use go_registrar.Registrar.Lifecycle.ApiUsers.Explained.{api_user_update_state-HasReason}
use go_registrar.Registrar.Lifecycle.ApproverSets.{
  SetOutcome, update_set_row, set_read, pending_approver_set, approver_set_update_state,
}
use go_registrar.Registrar.Lifecycle.ApproverSets.Explained.{update_set_row-HasReason}
use go_registrar.Registrar.Lifecycle.ApproverSets.Cascade.{
  RunInTurn, any_changes, all_errors, approver_set_update_state-cascades,
}
use go_registrar.Registrar.Examples.Rows.{accepts, changed, changed_world, proposed}

api_user_update_state-HasReason_example :
    HasReason api_user accepts 3 changed changed_world
      (api_user_update_state accepts 3 changed changed_world).1
api_user_update_state-HasReason_example =
    api_user_update_state-HasReason accepts 3 changed changed_world (λ v. (refl, refl))

update_set_row-HasReason_example :
    HasReason approver_set accepts 3 changed changed_world
      (update_set_row accepts 3 changed changed_world).1
update_set_row-HasReason_example =
    update_set_row-HasReason accepts 3 changed changed_world (λ v. (refl, refl))

-- Two approvals wait for the set, and each says that it changed.
abbrev waiting : ObjectRow → World → List ℕ
waiting o w = 11 ∷ 12 ∷ []

abbrev updates : ℕ → World → Updated
updates k w = ((true, []), w)

abbrev outcome : SetOutcome
outcome = record { changes = false; cascade = true; errors = []; goes_on = true }

abbrev set_after : ObjectRow
unfolding promoted_object
set_after = promoted_object approver_set changed.row (proposed inactive) 3

abbrev world_after : World
unfolding update_set_row
world_after = (update_set_row accepts 3 changed changed_world).1

approver_set_update_state-cascades_example :
    ((world_after.objects ≡ changed_world.objects)
      × (approver_set_update_state accepts 3 waiting updates changed changed_world
          ≡ ((false, []), world_after)))
    ⊎ ((outs : List (Bool × List UpdateErr)) × (w' : World) × RunInTurn updates
          (11 ∷ 12 ∷ [])
          outs
          world_after
          w'
        × (approver_set_update_state accepts 3 waiting updates changed changed_world
            ≡ ((false || any_changes outs, [] ++ all_errors outs), w')))
unfolding update_set_row set_read pending_approver_set find_object is_settled is_pending is_target
    promoted_object
approver_set_update_state-cascades_example =
    approver_set_update_state-cascades accepts 3 changed waiting updates changed_world world_after
      world_after outcome set_after (λ v. (refl, refl)) refl refl refl
