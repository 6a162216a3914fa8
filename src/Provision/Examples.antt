-- ===== src/Provision/Examples.antt =====
-- The theorems on the differences at concrete inputs.
use go_registrar.Prelude.{◌≡◌, ◌↔◌, refl, String, true, false, none, some, List, [], ◌∷◌, str_eq}
use go_registrar.Epp.Status.{
  client_delete_prohibited, client_hold, client_update_prohibited, server_hold,
}
use go_registrar.Epp.Response.{DsData, ds_eq, DomainInf, HostInf, Response}
use go_registrar.Provision.Diff.{
  DomainRevision, HostRevision, StatusChange, diff_host_list, diff_domain_ds_data,
  diff_domain_statuses,
}
use go_registrar.Provision.Diff.Laws.{str_eq-IsEquality, SameElements}
use go_registrar.Provision.Diff.Flags.{IsStatusChange, diff_domain_statuses-IsStatusChange}
use go_registrar.Provision.Diff.Converge.{
  Converges, diff_host_list-Converges, diff_domain_ds_data-Converges, same_ip,
}
use go_registrar.Provision.Expected.{epp_matches_expected}
use go_registrar.Provision.Expected.Exact.{IsProvisioned, epp_matches_expected_iff}
use go_registrar.Provision.Expected.Hosts.{
  HostWanted, HostFlagsMatch, host_matches_expected, host_matches_expected_iff,
}
use go_registrar.Provision.Update.{Changes, changes_of, update_active}
use go_registrar.Provision.Update.View.{View, Shows}
use go_registrar.Provision.Update.Reaches.{view_of, IsReached, update_active-IsReached}

abbrev held_domain : DomainInf
held_domain = record {
  status = client_hold ∷ server_hold ∷ [];
  ns_hosts = "ns1.example" ∷ "ns2.example" ∷ [];
}

abbrev locked_host : HostInf
locked_host = record { status = client_update_prohibited ∷ []; addresses = [] }

abbrev old_record : DsData
old_record = record { key_tag = 7; alg = 8; digest_type = 2; digest = "ab" }

abbrev new_record : DsData
new_record = record { key_tag = 9; alg = 8; digest_type = 2; digest = "cd" }

abbrev info : Response
info = record {
  code = 1000;
  result_data = some (record { domain_inf = some held_domain; host_inf = some locked_host });
  extension = some (record { sec_dns = some (old_record ∷ []) });
}

abbrev wanted : DomainRevision
wanted = record {
  client_delete_prohibited_status = true;
  server_delete_prohibited_status = false;
  client_hold_status = false;
  server_hold_status = true;
  client_renew_prohibited_status = false;
  server_renew_prohibited_status = false;
  client_transfer_prohibited_status = false;
  server_transfer_prohibited_status = false;
  client_update_prohibited_status = true;
  server_update_prohibited_status = false;
  hostnames = "ns2.example" ∷ "ns3.example" ∷ [];
  ds_data_entries = new_record ∷ [];
}

abbrev wanted_host : HostRevision
wanted_host = record { host_client_delete_prohibited = true; host_client_update_prohibited = true }

abbrev host_changes : List String × List String
host_changes = ("ns3.example" ∷ [], "ns1.example" ∷ [])

diff_host_list-Converges_example :
    Converges str_eq held_domain.ns_hosts wanted.hostnames host_changes
unfolding diff_host_list
diff_host_list-Converges_example =
    diff_host_list-Converges (some info) held_domain wanted host_changes refl refl

diff_domain_ds_data-Converges_example :
    Converges ds_eq (old_record ∷ []) (new_record ∷ []) (new_record ∷ [], old_record ∷ [])
unfolding diff_domain_ds_data
diff_domain_ds_data-Converges_example =
    diff_domain_ds_data-Converges info (new_record ∷ []) (new_record ∷ [], old_record ∷ []) refl

abbrev status_change : StatusChange
status_change = record {
  client_update = some true;
  client_delete = some true;
  client_transfer = none;
  client_renew = none;
  client_hold_change = some false;
}

diff_domain_statuses-IsStatusChange_example : IsStatusChange wanted held_domain.status status_change
unfolding diff_domain_statuses
diff_domain_statuses-IsStatusChange_example =
    diff_domain_statuses-IsStatusChange (some info) held_domain wanted status_change refl refl

abbrev domain_changes : Changes
domain_changes = record {
  status = status_change;
  hosts = host_changes;
  records = (new_record ∷ [], old_record ∷ []);
}

update_active-IsReached_example :
    (w : View) × Shows
      (view_of held_domain info)
      (update_active held_domain domain_changes true (record { sent = []; faults = [] })).1
      w
    × IsReached wanted w
unfolding changes_of
update_active-IsReached_example =
    update_active-IsReached info held_domain wanted domain_changes true refl refl refl

-- What the registry shows of a domain that is as its revision wants it.
abbrev served : DomainInf
served = record {
  status = client_delete_prohibited ∷ server_hold ∷ client_update_prohibited ∷ [];
  ns_hosts = "ns3.example" ∷ "ns2.example" ∷ [];
}

abbrev served_info : Response
served_info = record {
  code = 1000;
  result_data = some (record { domain_inf = some served; host_inf = none });
  extension = some (record { sec_dns = some (new_record ∷ []) });
}

epp_matches_expected_iff_example :
    ((epp_matches_expected (some served_info) wanted).0 ≡ true)
    ↔ IsProvisioned served_info served wanted
epp_matches_expected_iff_example = epp_matches_expected_iff served_info served wanted refl

-- What the registry shows of a host that is as its revision wants it.
abbrev wanted_addresses : HostWanted
wanted_addresses = record {
  client_delete_wanted = false;
  client_transfer_wanted = false;
  client_update_wanted = true;
  server_delete_wanted = false;
  server_transfer_wanted = false;
  server_update_wanted = false;
  addresses_wanted = "::1" ∷ [];
}

abbrev served_host : HostInf
served_host = record {
  status = client_update_prohibited ∷ [];
  addresses = record { address = "::1"; is_v6 = true } ∷ [];
}

abbrev host_info : Response
host_info = record {
  code = 1000;
  result_data = some (record { domain_inf = none; host_inf = some served_host });
  extension = none;
}

host_matches_expected_iff_example :
    ((host_matches_expected (λ s. s) str_eq (some host_info) wanted_addresses).0 ≡ true) ↔ (
      HostFlagsMatch wanted_addresses served_host.status
      × SameElements (same_ip (λ s. s) str_eq) ("::1" ∷ []) ("::1" ∷ []))
host_matches_expected_iff_example =
    host_matches_expected_iff (λ s. s) str_eq str_eq-IsEquality host_info served_host
      wanted_addresses refl
