-- ===== src/Registrar/Revision.antt =====
-- Revisions of domains, hosts, contacts, API users and approver sets and the rows that they are of
-- (lib/domainrevision.go, lib/hostrevision.go, lib/contactrevision.go, lib/apiuserrevision.go,
-- lib/approversetrevision.go): Promote, Supersed and Decline. The database is three tables and a list
-- that says which of the next operations fail.
pub mod Rows
pub mod Reread
use go_registrar.Prelude.{
  ℕ, String, Bool, true, false, not, ◌&&◌, ◌||◌, Option, none, some, List, [], ◌∷◌, ◌==◌,
  if◌then◌else◌,
}
use go_registrar.Prelude.Try.{Result, failed, done, Try, ◌>>=◌, pure, throw}
use go_registrar.Registrar.State.{
  State, is, active, approved, bootstrap, cancelled, approval_failed, inactive, external, new,
  pending_approval, superseded,
}
use go_registrar.Registrar.Model.{NullInt64, ChangeRequest}
use go_registrar.Registrar.Store.{next_fault, lookup_request}

-- The types of objects, which differ in the states that they have and in what a promotion sets.
pub data Kind : Type 0 where
  domain host contact api_user approver_set : Kind

-- Domain, Host, Contact, APIUser and ApproverSet: the state and what UpdateState sets beside it. An
-- APIUser and an ApproverSet have only the first three fields.
pub record ObjectRow : Type 0 where
  pub object_id : ℕ
  pub object_state : State
  pub current_revision_id : NullInt64
  pub check_required : Bool
  pub epp_pending_change : Bool
  pub epp_last_update : ℕ
  pub preview : List String

-- DomainRevision, HostRevision, ContactRevision, APIUserRevision and ApproverSetRevision. `preview_of` is what the preview of the object
-- shows of it. A time that may be nil is an Option.
pub record RevisionRow : Type 0 where
  pub revision_id : ℕ
  pub parent_id : ℕ
  pub revision_state : State
  pub desired_state : State
  pub cr_id : NullInt64
  pub preview_of : List String
  pub promoted_time : Option ℕ
  pub superseded_time : Option ℕ
  pub approval_failed_time : Option ℕ

pub record World : Type 0 where
  pub objects : List ObjectRow
  pub revisions : List RevisionRow
  pub requests : List ChangeRequest
  pub faults : List Bool

pub data RevErr : Type 0 where
  not_found save_failed cannot_promote not_approved no_change_request : RevErr
  cannot_supersede cannot_decline invalid_pending_state unable_to_handle_state : RevErr
  state_not_implemented cannot_cancel : RevErr

abbrev pub Op : Type 0 → Type 0
Op A = Try World RevErr A

unfoldable pub lookup_object : ℕ → List ObjectRow → Option ObjectRow
lookup_object k [] = none
lookup_object k (r ∷ rest) = if r.object_id == k then some r else lookup_object k rest

unfoldable pub lookup_revision : ℕ → List RevisionRow → Option RevisionRow
lookup_revision k [] = none
lookup_revision k (r ∷ rest) = if r.revision_id == k then some r else lookup_revision k rest

unfoldable pub replace_object : ObjectRow → List ObjectRow → List ObjectRow
replace_object r [] = []
replace_object r (q ∷ rest) = (if q.object_id == r.object_id then r else q) ∷ replace_object r rest

unfoldable pub replace_revision : RevisionRow → List RevisionRow → List RevisionRow
replace_revision r [] = []
replace_revision r (q ∷ rest) =
    (if q.revision_id == r.revision_id then r else q) ∷ replace_revision r rest

-- The row of a query that does not fail.
abbrev found : {A : Type 0} → Bool → Option A → World → Result RevErr A × World
found true o w = (failed not_found, w)
found false none w = (failed not_found, w)
found false (some a) w = (done a, w)

-- FindByID.
unfoldable pub find_object : ℕ → Op ObjectRow
unfolding next_fault lookup_object
find_object k w =
    let (fails, rest) = next_fault w.faults in
    found fails (lookup_object k w.objects) (record w { faults = rest })

unfoldable pub find_revision : ℕ → Op RevisionRow
unfolding next_fault lookup_revision
find_revision k w =
    let (fails, rest) = next_fault w.faults in
    found fails (lookup_revision k w.revisions) (record w { faults = rest })

unfoldable pub find_change_request : ℕ → Op ChangeRequest
unfolding next_fault lookup_request
find_change_request k w =
    let (fails, rest) = next_fault w.faults in
    found fails (lookup_request k w.requests) (record w { faults = rest })

-- Save.
unfoldable pub save_object : ObjectRow → Op (Unit {0})
unfolding next_fault replace_object
save_object r w =
    let (fails, rest) = next_fault w.faults in
    if fails
    then (failed save_failed, record w { faults = rest })
    else (done tt, record w { faults = rest; objects = replace_object r w.objects })

unfoldable pub save_revision : RevisionRow → Op (Unit {0})
unfolding next_fault replace_revision
save_revision r w =
    let (fails, rest) = next_fault w.faults in
    if fails
    then (failed save_failed, record w { faults = rest })
    else (done tt, record w { faults = rest; revisions = replace_revision r w.revisions })

abbrev pub promoted : RevisionRow → ℕ → RevisionRow
promoted r now = record r { revision_state = r.desired_state; promoted_time = some now }

promote_request : RevisionRow → ℕ → ChangeRequest → Op (Unit {0})
unfolding save_revision
promote_request r now cr =
    if is cr.state approved then save_revision (promoted r now) else throw not_approved

-- Promote, on a revision that is prepared.
unfoldable pub promote : RevisionRow → ℕ → Op (Unit {0})
unfolding find_change_request promote_request
promote r now =
    if is r.revision_state cancelled || is r.revision_state approval_failed
    then throw cannot_promote
    else if r.cr_id.valid
    then (do cr ← find_change_request r.cr_id.int64; promote_request r now cr)
    else throw no_change_request

-- The states from which Supersed supersedes; only a domain can be external.
abbrev pub can_be_superseded : Kind → State → Bool
can_be_superseded domain s = is s active || is s inactive || is s external || is s bootstrap
can_be_superseded _ s = is s active || is s inactive || is s bootstrap

abbrev pub superseded_row : RevisionRow → ℕ → RevisionRow
superseded_row r now = record r { revision_state = superseded; superseded_time = some now }

-- Supersed, on a revision that is prepared.
unfoldable pub supersed : Kind → RevisionRow → ℕ → Op (Unit {0})
unfolding save_revision
supersed kind r now =
    if can_be_superseded kind r.revision_state
    then save_revision (superseded_row r now)
    else throw cannot_supersede

abbrev pub declined_row : RevisionRow → ℕ → RevisionRow
declined_row r now = record r { revision_state = approval_failed; approval_failed_time = some now }

-- Decline, on a revision that is prepared.
unfoldable pub decline : RevisionRow → ℕ → Op (Unit {0})
unfolding save_revision
decline r now =
    if is r.revision_state pending_approval
    then save_revision (declined_row r now)
    else throw cannot_decline
