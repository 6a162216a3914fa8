-- ===== src/Registrar/Lifecycle/Back.antt =====
-- UpdateState of a pending object that has no pending revision (lib/domain.go, lib/host.go,
-- lib/contact.go).
use go_registrar.Prelude.{ℕ, ◌≡◌, refl, true, false, none, []}
use go_registrar.Prelude.Try.{done}
use go_registrar.Registrar.Verify.{Checked}
use go_registrar.Registrar.Revision.{Kind, World, save_object}
use go_registrar.Registrar.Lifecycle.{
  Prepared, is_settled, is_pending, state_back, go_back, pending_case, update_object_state,
}

pub update_object_state-back :
    (kind : Kind) (verify_cr : Prepared → World → Checked × World) (now : ℕ) (d : Prepared)
    (w w' : World)
    → is_settled kind d.row.object_state ≡ false
    → is_pending kind d.row.object_state ≡ true
    → d.pending_revision ≡ none
    → save_object (record d.row { object_state = state_back kind d }) w ≡ (done tt, w')
    → update_object_state kind verify_cr now d w ≡ ((true, []), w')
unfolding update_object_state pending_case go_back
update_object_state-back kind verify_cr now d w w' open_now pending nothing saved =
    simp (open_now, pending, nothing, saved) refl
