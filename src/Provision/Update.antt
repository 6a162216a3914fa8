-- ===== src/Provision/Update.antt =====
-- provision/main.go: the commands that DomainUpdate sends for a domain that the registrar wants
-- active and that the registry has, with DomainUnlockForChange. A command is sent to the registry
-- through a client that says whether it was accepted; which are refused is a list.
pub mod View
pub mod Flag
pub mod Plan
pub mod Reaches
use go_registrar.Prelude.{
  String, Bool, true, false, not, ◌&&◌, ◌||◌, Option, none, some, List, [], ◌∷◌, ◌++◌,
  if◌then◌else◌,
}
use go_registrar.Registrar.Store.{next_fault}
use go_registrar.Epp.Status.{
  Status, has_status, client_hold, client_update_prohibited, client_delete_prohibited,
  client_renew_prohibited, client_transfer_prohibited, server_update_prohibited,
  server_renew_prohibited,
}
use go_registrar.Epp.Response.{DsData, DomainInf, Response, domain_inf_of}
use go_registrar.Provision.Diff.{
  DomainRevision, StatusChange, diff_host_list, diff_domain_ds_data, diff_domain_statuses,
  bin_status,
}

pub data Command : Type 0 where
  add_hosts remove_hosts : List String → Command
  add_ds remove_ds : List DsData → Command
  add_statuses remove_statuses : List Status → Command
  renew : Command

-- The commands so far, each with whether it was accepted, and which of the next are refused.
pub record Run : Type 0 where
  pub sent : List (Command × Bool)
  pub faults : List Bool

unfoldable pub send_command : Command → Run → Bool × Run
unfolding next_fault
send_command c r =
    let (fails, rest) = next_fault r.faults in
    (not fails, record { sent = r.sent ++ (c, not fails) ∷ []; faults = rest })

-- `if len(...) != 0 { ... domainChangeMade = true }`
unfoldable pub send_if : Bool → Command → Bool × Run → Bool × Run
unfolding send_command
send_if needed c (changed, r) =
    let (ok, r') = send_command c r in if needed then (changed || ok, r') else (changed, r)

abbrev pub not_nil {ℓ} : {A : Type ℓ} → List A → Bool
not_nil [] = false
not_nil (x ∷ l) = true

abbrev pub is_some : Option Bool → Bool
is_some none = false
is_some (some b) = true

-- DomainUnlockForChange on the statuses of the registry: whether the domain was unlocked, and
-- whether there was an error.
unfoldable pub domain_unlock_for_change : List Status → Run → (Bool × Bool) × Run
unfolding send_command
domain_unlock_for_change l r =
    let (ok, r') = send_command (remove_statuses (client_update_prohibited ∷ [])) r in
    if has_status server_update_prohibited l
    then ((false, true), r)
    else if has_status client_update_prohibited l
    then ((true, not ok), r')
    else ((false, false), r)

-- A domain that was unlocked for other changes is to be locked again.
unfoldable pub relock : Option Bool → Bool → Option Bool
relock none unlocked = if unlocked then some true else none
relock (some b) unlocked = some b

-- The statuses to add and to remove.
unfoldable pub bin_statuses : StatusChange → List Status × List Status
unfolding bin_status
bin_statuses ch = bin_status ch.client_hold_change client_hold (
    bin_status ch.client_renew client_renew_prohibited (
      bin_status ch.client_transfer client_transfer_prohibited (
        bin_status ch.client_delete client_delete_prohibited
          (bin_status ch.client_update client_update_prohibited ([], [])))))

-- What is to change, as the three differences say.
pub record Changes : Type 0 where
  pub status : StatusChange
  pub hosts : List String × List String
  pub records : List DsData × List DsData

unfoldable pub are_changes_required : Changes → Bool
are_changes_required c =
    is_some c.status.client_update
    || is_some c.status.client_delete
    || is_some c.status.client_transfer
    || is_some c.status.client_renew
    || is_some c.status.client_hold_change
    || not_nil c.hosts.0
    || not_nil c.hosts.1
    || not_nil c.records.0
    || not_nil c.records.1

-- The commands behind the unlocking.
unfoldable pub send_changes : Changes → Bool → Run → Bool × Run
unfolding send_if bin_statuses relock
send_changes c unlocked r =
    let ch = record c.status { client_update = relock c.status.client_update unlocked } in
    let (add, rem) = bin_statuses ch in
    let s1 = send_if (not_nil c.hosts.0) (add_hosts c.hosts.0) (false, r) in
    let s2 = send_if (not_nil c.hosts.1) (remove_hosts c.hosts.1) s1 in
    let s3 = send_if (not_nil c.records.0) (add_ds c.records.0) s2 in
    let s4 = send_if (not_nil c.records.1) (remove_ds c.records.1) s3 in
    let s5 = send_if (not_nil rem) (remove_statuses rem) s4 in
    send_if (not_nil add) (add_statuses add) s5

-- An error of the unlocking is only logged.
unfoldable pub make_changes : List Status → Changes → Run → Bool × Run
unfolding domain_unlock_for_change send_changes are_changes_required
make_changes l c r =
    let (unlocked, r') = domain_unlock_for_change l r in
    if are_changes_required c then send_changes c unlocked.0 r' else (false, r)

-- The renewal: `due` says that the domain expires within a year.
unfoldable pub renew_domain : List Status → Bool → Bool × Run → Bool × Run
unfolding send_if
renew_domain l due s =
    let blocked = has_status client_renew_prohibited l || has_status server_renew_prohibited l in
    send_if (not blocked && due) renew s

abbrev pub or_none : Option (List DsData × List DsData) → List DsData × List DsData
or_none none = ([], [])
or_none (some d) = d

-- The differences to the registry; `none` skips the domain.
unfoldable pub changes_of : Option Response → DomainRevision → Option Changes
unfolding diff_domain_statuses diff_host_list diff_domain_ds_data
changes_of registry rev = elim (diff_domain_statuses registry rev) [
  | none ↦ none
  | some status ↦ elim (diff_host_list registry rev) [
    | none ↦ none
    | some hosts ↦ some (record {
      status = status;
      hosts = hosts;
      records = or_none (diff_domain_ds_data registry rev.ds_data_entries);
    })
  ]
]

-- The branch of an active domain that is registered: whether a change was made.
unfoldable pub update_active : DomainInf → Changes → Bool → Run → Bool × Run
unfolding make_changes renew_domain
update_active d c due r = renew_domain d.status due (make_changes d.status c r)
