-- ===== src/Provision/Expected.antt =====
-- Domain.EPPMatchesExpected (lib/domain.go): whether the registry's answer shows the domain as its
-- current revision wants it, and the text that says what is missing.
pub mod Exact
pub mod Hosts
use go_registrar.Prelude.{
  ℕ, String, Bool, true, false, not, ◌&&◌, ◌||◌, Option, none, some, List, [], ◌∷◌, ◌==◌, length,
  str_eq, bool_eq, if◌then◌else◌,
}
use go_registrar.Epp.Status.{
  Status, pending_create, pending_delete, pending_renew, pending_transfer, pending_update,
  server_delete_prohibited, server_hold, server_renew_prohibited, server_transfer_prohibited,
  server_update_prohibited,
}
use go_registrar.Epp.Response.{DsData, DomainInf, Response, domain_inf_of}
use go_registrar.Provision.Diff.{
  DomainRevision, found_in, ClientFlags, no_flags, set_client_flag, diff_domain_ds_data,
}

-- The texts that are returned.
pub data EppState : Type 0 where
  invalid_object pending_change_state client_flag_mismatch host_mismatch ds_error : EppState
  missing_ds_records additional_ds_records server_flags_mismatch provisioned : EppState
  missing_host additional_host : String → EppState

pub record PendingFlags : Type 0 where
  pub create : Bool
  pub delete : Bool
  pub renew : Bool
  pub transfer : Bool
  pub update : Bool

pub record ServerFlags : Type 0 where
  pub delete : Bool
  pub hold : Bool
  pub renew : Bool
  pub transfer : Bool
  pub update : Bool

abbrev pub no_pending : PendingFlags
no_pending = record {
  create = false;
  delete = false;
  renew = false;
  transfer = false;
  update = false;
}

abbrev pub no_server : ServerFlags
no_server = record { delete = false; hold = false; renew = false; transfer = false; update = false }

-- The cases of the switch over a status: five flags of each sort.
unfoldable pub set_pending_flag : Status → PendingFlags → PendingFlags
set_pending_flag pending_create f = record f { create = true }
set_pending_flag pending_delete f = record f { delete = true }
set_pending_flag pending_renew f = record f { renew = true }
set_pending_flag pending_transfer f = record f { transfer = true }
set_pending_flag pending_update f = record f { update = true }
set_pending_flag _ f = f

unfoldable pub set_server_flag : Status → ServerFlags → ServerFlags
set_server_flag server_delete_prohibited f = record f { delete = true }
set_server_flag server_hold f = record f { hold = true }
set_server_flag server_renew_prohibited f = record f { renew = true }
set_server_flag server_transfer_prohibited f = record f { transfer = true }
set_server_flag server_update_prohibited f = record f { update = true }
set_server_flag _ f = f

-- The loop over the statuses.
unfoldable pub status_flags :
    PendingFlags
    → ClientFlags
    → ServerFlags
    → List Status
    → PendingFlags × ClientFlags × ServerFlags
unfolding set_pending_flag set_client_flag set_server_flag
status_flags p c v [] = (p, c, v)
status_flags p c v (s ∷ rest) =
    status_flags (set_pending_flag s p) (set_client_flag s c) (set_server_flag s v) rest

abbrev pub any_pending : PendingFlags → Bool
any_pending p = p.create || p.delete || p.renew || p.transfer || p.update

abbrev pub client_flags_agree : ClientFlags → DomainRevision → Bool
client_flags_agree c rev =
    bool_eq c.update rev.client_update_prohibited_status
    && bool_eq c.transfer rev.client_transfer_prohibited_status
    && bool_eq c.renew rev.client_renew_prohibited_status
    && bool_eq c.hold rev.client_hold_status
    && bool_eq c.delete rev.client_delete_prohibited_status

abbrev pub server_flags_agree : ServerFlags → DomainRevision → Bool
server_flags_agree v rev =
    bool_eq v.update rev.server_update_prohibited_status
    && bool_eq v.transfer rev.server_transfer_prohibited_status
    && bool_eq v.renew rev.server_renew_prohibited_status
    && bool_eq v.hold rev.server_hold_status
    && bool_eq v.delete rev.server_delete_prohibited_status

-- The first text of the second list that the first one lacks.
unfoldable pub first_missing : List String → List String → Option String
first_missing l [] = none
first_missing l (a ∷ rest) = if found_in str_eq l a then first_missing l rest else some a

abbrev pub additional : Option String → Option EppState
additional none = none
additional (some h) = some (additional_host h)

abbrev pub missing_or : Option String → Option EppState → Option EppState
missing_or none r = r
missing_or (some h) r = some (missing_host h)

-- The comparison of the host names, with the early return that it takes, if any.
unfoldable pub compare_hosts : List String → List String → Option EppState
unfolding first_missing
compare_hosts revision_hosts epp_hosts =
    if length revision_hosts == length epp_hosts
    then missing_or (first_missing epp_hosts revision_hosts)
        (additional (first_missing revision_hosts epp_hosts))
    else some host_mismatch

abbrev pub Match : Type 0
Match = Bool × EppState

abbrev pub compare_servers : ServerFlags → DomainRevision → Match
compare_servers v rev =
    if server_flags_agree v rev then (true, provisioned) else (false, server_flags_mismatch)

abbrev pub compare_ds : Option (List DsData × List DsData) → Match → Match
compare_ds none next = (false, ds_error)
compare_ds (some ([], [])) next = next
compare_ds (some ([], r ∷ rem)) next = (false, additional_ds_records)
compare_ds (some (a ∷ add, rem)) next = (false, missing_ds_records)

abbrev pub unless : Option EppState → Match → Match
unless none next = next
unless (some e) next = (false, e)

abbrev pub compare_flags :
    PendingFlags × ClientFlags × ServerFlags → DomainRevision → (ServerFlags → Match) → Match
compare_flags (p, c, v) rev next =
    if any_pending p
    then (false, pending_change_state)
    else if client_flags_agree c rev
    then next v
    else (false, client_flag_mismatch)

-- What follows the test for nil.
unfoldable pub matches_section : Option Response → DomainRevision → Option DomainInf → Match
unfolding status_flags compare_hosts diff_domain_ds_data
matches_section resp rev none = (false, invalid_object)
matches_section resp rev (some d) =
    compare_flags (status_flags no_pending no_flags no_server d.status) rev (λ v.
      unless (compare_hosts rev.hostnames d.ns_hosts)
        (compare_ds (diff_domain_ds_data resp rev.ds_data_entries) (compare_servers v rev)))

-- EPPMatchesExpected.
unfoldable pub epp_matches_expected : Option Response → DomainRevision → Match
unfolding matches_section
epp_matches_expected resp rev = matches_section resp rev (domain_inf_of resp)
