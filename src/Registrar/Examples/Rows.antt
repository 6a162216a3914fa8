-- ===== src/Registrar/Examples/Rows.antt =====
-- The theorems on UpdateState of domains, hosts and contacts (lib/) at concrete inputs.
use go_registrar.Prelude.{ℕ, ◌≡◌, inl, refl, Bool, true, false, none, some, [], ◌∷◌, inr}
use go_registrar.Registrar.State.{
  State, active, approved, declined, inactive, pending_approval, active_pending_approval,
  pending_new_external, external, new,
}
use go_registrar.Registrar.Model.{NullInt64, domain_type, ChangeRequest}
use go_registrar.Registrar.Verify.{Checked}
use go_registrar.Registrar.Store.{lookup_request}
use go_registrar.Registrar.Revision.{
  domain, ObjectRow, RevisionRow, World, lookup_object, lookup_revision,
}
use go_registrar.Registrar.Lifecycle.{
  Prepared, is_settled, is_pending, is_target, state_without_revision, update_object_state,
}
use go_registrar.Registrar.Lifecycle.Promotion.{IsReady, IsPromoted, update_object_state-IsPromoted}
use go_registrar.Registrar.Lifecycle.Explained.{IsExplained, update_object_state-IsExplained}
use go_registrar.Registrar.Lifecycle.Declined.{
  IsRefusable, IsDeclined, update_object_state-IsDeclined,
}

abbrev key : ℕ → Bool → NullInt64
key k b = record { int64 = k; valid = b }

abbrev object : State → NullInt64 → ObjectRow
object s k = record {
  object_id = 4;
  object_state = s;
  current_revision_id = k;
  check_required = false;
  epp_pending_change = false;
  epp_last_update = 0;
  preview = [];
}

abbrev revision : ℕ → State → State → RevisionRow
revision k s t = record {
  revision_id = k;
  parent_id = 4;
  revision_state = s;
  desired_state = t;
  cr_id = key 5 true;
  preview_of = [];
  promoted_time = none;
  superseded_time = none;
  approval_failed_time = none;
}

abbrev pub current : RevisionRow
current = revision 9 active active

abbrev pub proposed : State → RevisionRow
proposed t = revision 10 pending_approval t

abbrev request : State → ChangeRequest
request s = record {
  id = 5;
  state = s;
  registrar_object_type = domain_type;
  registrar_object_id = 4;
  initial_revision_id = key 9 true;
  proposed_revision_id = 10;
  approvals = [];
}

abbrev pub accepts : Prepared → World → Checked × World
accepts d w = ((true, []), w)

-- A domain with a current revision, whose change request is approved.
abbrev pub changed : Prepared
changed = record {
  row = object active_pending_approval (key 9 true);
  current_revision = some current;
  pending_revision = some (proposed inactive);
}

abbrev pub changed_world : World
changed_world = record {
  objects = changed.row ∷ [];
  revisions = current ∷ proposed inactive ∷ [];
  requests = request approved ∷ [];
  faults = [];
}

is_ready :
    IsReady domain changed (proposed inactive) current changed.row (request approved) changed_world
unfolding lookup_object lookup_revision lookup_request is_target
is_ready = record {
  calm = refl;
  object_found = refl;
  pending_found = refl;
  current_found = refl;
  request_found = refl;
  has_request = refl;
  is_current = refl;
  has_current = refl;
  pending = refl;
  supersedes = refl;
  targets = refl;
  distinct_revisions = λ e. cc;
}

update_object_state-IsPromoted_example :
    (w' : World) × (update_object_state domain accepts 3 changed changed_world ≡ ((false, []), w'))
    × IsPromoted domain changed (proposed inactive) current changed.row 3 changed_world w'
unfolding is_settled is_pending
update_object_state-IsPromoted_example =
    update_object_state-IsPromoted domain accepts changed (proposed inactive) current changed.row
      (request approved) 3 changed_world refl refl refl refl is_ready refl

update_object_state-IsExplained_example :
    IsExplained domain accepts 3 changed changed_world
      (update_object_state domain accepts 3 changed changed_world).1
update_object_state-IsExplained_example =
    update_object_state-IsExplained domain accepts 3 changed changed_world (refl, refl)

-- A domain that is to be external and has never had a revision, whose change request is declined.
abbrev refused : Prepared
refused = record {
  row = object pending_new_external (key 0 false);
  current_revision = none;
  pending_revision = some (proposed external);
}

abbrev refused_world : World
refused_world = record {
  objects = refused.row ∷ [];
  revisions = proposed external ∷ [];
  requests = request declined ∷ [];
  faults = [];
}

is_refusable : IsRefusable refused (proposed external) refused.row (request declined) refused_world
unfolding lookup_object lookup_revision lookup_request
is_refusable = record {
  calm = refl;
  object_found = refl;
  pending_found = refl;
  request_found = refl;
  has_request = refl;
  pending = refl;
}

update_object_state-IsDeclined_example :
    (w' : World) × (update_object_state domain accepts 3 refused refused_world ≡ ((false, []), w'))
    × IsDeclined refused (proposed external) refused.row new 3 refused_world w'
unfolding is_settled is_pending state_without_revision
update_object_state-IsDeclined_example =
    update_object_state-IsDeclined domain accepts refused (proposed external) refused.row
      (request declined) new 3 refused_world refl refl refl refl is_refusable refl
      (inl (refl, inr (refl, refl)))
