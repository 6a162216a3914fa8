-- ===== src/Registrar/Examples/Withdrawn.antt =====
-- The theorem on Cancel of revisions (lib/) at a concrete input.
use go_registrar.Prelude.{◌≡◌, inr, refl, true, some, List, []}
use go_registrar.Prelude.Try.{Result}
use go_registrar.Registrar.State.{inactive}
use go_registrar.Registrar.Model.{ChangeRequest}
use go_registrar.Registrar.Revision.{
  domain, RevisionRow, World, RevErr, lookup_object, lookup_revision,
}
use go_registrar.Registrar.Lifecycle.{UpdateErr, is_settled, is_pending}
use go_registrar.Registrar.Cancel.{is_open, cancel_request, cancel}
use go_registrar.Registrar.Cancel.Withdraws.{Waits, IsWithdrawn, cancel-IsWithdrawn}
use go_registrar.Registrar.Examples.Rows.{accepts, changed, changed_world, current, proposed}

abbrev revision : RevisionRow
revision = proposed inactive

abbrev leaves : Result RevErr ChangeRequest → World → List UpdateErr × World
leaves r w = ([], w)

waits : Waits domain revision changed.row (some current) changed_world
unfolding lookup_object lookup_revision is_open is_settled is_pending
waits = record {
  calm = refl;
  revision_found = refl;
  object_found = refl;
  only_open = ((λ h. cc), ((λ h. refl), tt));
  loaded = inr (current, refl, (λ e. cc), refl, refl);
  open_state = refl;
  unsettled = refl;
  pending = refl;
}

cancel-IsWithdrawn_example :
    (w' : World) × (cancel domain accepts leaves 3 revision changed_world
      ≡ cancel_request domain accepts leaves 3 revision ((true, []), w'))
    × IsWithdrawn domain revision changed.row (some current) changed_world w'
cancel-IsWithdrawn_example =
    cancel-IsWithdrawn domain accepts leaves 3 revision changed.row (some current) changed_world
      waits
