-- ===== src/Registrar/Store.antt =====
-- The database as the approval workflow sees it through lib/dbcache.go: FindByID and Save on
-- approvals, change requests and approver sets. The database itself is not part of the repository:
-- it is three tables and a list that says which of the next operations fail. FindByID is taken to
-- return what the tables hold, prepared; the read cache in front of it is emptied by each Save.
use go_registrar.Prelude.{
  ℕ, Bool, true, false, Option, none, some, List, [], ◌∷◌, ◌==◌, if◌then◌else◌,
}
use go_registrar.Registrar.Model.{ApproverSet, Approval, ChangeRequest}

pub record Db : Type 0 where
  pub approvals : List Approval
  pub requests : List ChangeRequest
  pub approver_sets : List ApproverSet
  pub faults : List Bool

abbrev pub M : Type 0 → Type 0
M A = Db → A × Db

infixl 5 ◌>>=◌
abbrev pub ◌>>=◌ : {A B : Type 0} → M A → (A → M B) → M B
◌>>=◌ m f db = let (a, db') = m db in f a db'

abbrev pub pure : {A : Type 0} → A → M A
pure a db = (a, db)

-- Whether the next operation fails, and the faults after it.
unfoldable pub next_fault : List Bool → Bool × List Bool
next_fault [] = (false, [])
next_fault (b ∷ rest) = (b, rest)

pub lookup_set : ℕ → List ApproverSet → Option ApproverSet
lookup_set k [] = none
lookup_set k (s ∷ rest) = if s.id == k then some s else lookup_set k rest

pub lookup_approval : ℕ → List Approval → Option Approval
lookup_approval k [] = none
lookup_approval k (a ∷ rest) = if a.id == k then some a else lookup_approval k rest

unfoldable pub lookup_request : ℕ → List ChangeRequest → Option ChangeRequest
lookup_request k [] = none
lookup_request k (r ∷ rest) = if r.id == k then some r else lookup_request k rest

-- Approval.Prepare: the approver set of the row is loaded with it.
pub prepare_approval : List ApproverSet → Option Approval → Option Approval
unfolding lookup_set
prepare_approval sets none = none
prepare_approval sets (some a) = elim (lookup_set a.approver_set_id sets) [
  | none ↦ none
  | some s ↦ some (record a { approval_approver_set = s })
]

-- The approvals of a request, in the order of the table, each prepared.
pub approvals_of : List ApproverSet → ℕ → List Approval → Option (List Approval)
unfolding prepare_approval
approvals_of sets k [] = some []
approvals_of sets k (a ∷ rest) =
    let others = approvals_of sets k rest in
    if a.change_request_id == k
    then elim (prepare_approval sets (some a)) [
      | none ↦ none
      | some a' ↦ elim others [ none ↦ none | some l ↦ some (a' ∷ l) ]
    ]
    else others

-- FindByID: the key must be set, and the query must not fail.
pub find_set : ℕ → M (Option ApproverSet)
unfolding next_fault lookup_set
find_set k db =
    let (fails, rest) = next_fault db.faults in
    if k == 0
    then (none, db)
    else ((if fails then none else lookup_set k db.approver_sets), record db { faults = rest })

pub find_approval : ℕ → M (Option Approval)
unfolding next_fault lookup_approval prepare_approval
find_approval k db =
    let (fails, rest) = next_fault db.faults in
    let row = prepare_approval db.approver_sets (lookup_approval k db.approvals) in
    if k == 0 then (none, db) else ((if fails then none else row), record db { faults = rest })

abbrev with_approvals : Option ChangeRequest → Option (List Approval) → Option ChangeRequest
with_approvals none l = none
with_approvals (some r) none = none
with_approvals (some r) (some l) = some (record r { approvals = l })

unfoldable pub find_request : ℕ → M (Option ChangeRequest)
unfolding next_fault lookup_request approvals_of
find_request k db =
    let (fails, rest) = next_fault db.faults in
    let row =
      with_approvals (lookup_request k db.requests)
        (approvals_of db.approver_sets k db.approvals) in
    if k == 0 then (none, db) else ((if fails then none else row), record db { faults = rest })

pub replace_approval : Approval → List Approval → List Approval
replace_approval a [] = []
replace_approval a (b ∷ rest) = (if b.id == a.id then a else b) ∷ replace_approval a rest

pub replace_request : ChangeRequest → List ChangeRequest → List ChangeRequest
replace_request r [] = []
replace_request r (q ∷ rest) = (if q.id == r.id then r else q) ∷ replace_request r rest

-- Save of a row that has a key; the result says whether it succeeded.
pub save_request : ChangeRequest → M Bool
unfolding next_fault replace_request
save_request r db =
    let (fails, rest) = next_fault db.faults in
    if fails
    then (false, record db { faults = rest })
    else (true, record db { faults = rest; requests = replace_request r db.requests })

-- Save of an approval: when the row is written the database calls the hook AfterSave, and an error
-- of the hook rolls the write back. The hook is an argument.
unfoldable pub save_approval : (ℕ → M Bool) → Approval → M Bool
unfolding next_fault replace_approval
save_approval after_save a db =
    let (fails, rest) = next_fault db.faults in
    let written =
      after_save a.id (record db { faults = rest; approvals = replace_approval a db.approvals }) in
    if fails
    then (false, record db { faults = rest })
    else if written.0
    then written
    else (false, record db { faults = written.1.faults })
