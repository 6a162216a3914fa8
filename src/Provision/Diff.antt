-- ===== src/Provision/Diff.antt =====
-- The differences between what the registry has and what the registrar expects: DiffHostList,
-- DiffDomainStatuses, DiffHostStatuses and binStatus of provision/main.go, DiffDomainDSData of
-- lib/domain.go and DiffIPLists of lib/host.go. `none` is an error.
pub mod Laws
pub mod Flags
pub mod Converge
use go_registrar.Prelude.{
  ℕ, String, Bool, true, false, Option, none, some, List, [], ◌∷◌, ◌++◌, any, str_eq, bool_eq,
  if◌then◌else◌,
}
use go_registrar.Epp.Status.{
  Status, client_hold, client_update_prohibited, client_delete_prohibited, client_renew_prohibited,
  client_transfer_prohibited,
}
use go_registrar.Epp.Response.{
  DsData, ds_eq, DomainInf, HostInf, Extension, Response, domain_inf_of, host_inf_of,
}

-- What DomainRevision and its export hold of a domain's configuration.
pub record DomainRevision : Type 0 where
  pub client_delete_prohibited_status : Bool
  pub server_delete_prohibited_status : Bool
  pub client_hold_status : Bool
  pub server_hold_status : Bool
  pub client_renew_prohibited_status : Bool
  pub server_renew_prohibited_status : Bool
  pub client_transfer_prohibited_status : Bool
  pub server_transfer_prohibited_status : Bool
  pub client_update_prohibited_status : Bool
  pub server_update_prohibited_status : Bool
  pub hostnames : List String
  pub ds_data_entries : List DsData

pub record HostRevision : Type 0 where
  pub host_client_delete_prohibited : Bool
  pub host_client_update_prohibited : Bool

-- The two loops that all of them share: the elements of a list that another list has no equal of.
module _ {ℓ} {A : Type ℓ} (eq : A → A → Bool) where
  abbrev pub found_in : List A → A → Bool
  found_in l a = any (λ b. eq a b) l

  unfoldable pub missing_from : List A → List A → List A
  missing_from l [] = []
  missing_from l (a ∷ rest) = if found_in l a then missing_from l rest else a ∷ missing_from l rest

  -- The keys of a map that is filled from a list.
  unfoldable pub distinct : List A → List A
  distinct [] = []
  distinct (a ∷ rest) = if found_in rest a then distinct rest else a ∷ distinct rest

-- DiffHostList: the hosts to add and to remove.
unfoldable pub diff_host_list :
    Option Response → DomainRevision → Option (List String × List String)
unfolding missing_from
diff_host_list registry registrar = elim (domain_inf_of registry) [
  | none ↦ none
  | some d ↦ some (
    missing_from str_eq d.ns_hosts registrar.hostnames,
    missing_from str_eq registrar.hostnames d.ns_hosts,
  )
]

-- DiffIPLists: `parse` is net.ParseIP, and `ip_eq` the Equal of its results.
unfoldable pub diff_ip_lists {ℓ} :
    {Ip : Type ℓ} (parse : String → Ip) (ip_eq : Ip → Ip → Bool)
    → List String
    → List String
    → List String × List String
unfolding missing_from
diff_ip_lists parse ip_eq current expected =
    let eq = λ (a b : String). ip_eq (parse a) (parse b) in
    let eq' = λ (a b : String). ip_eq (parse b) (parse a) in
    (missing_from eq' current expected, missing_from eq expected current)

-- The DS records of a response: none without the secDNS extension.
abbrev pub sec_dns_of : Option Extension → List DsData
sec_dns_of none = []
sec_dns_of (some e) = elim e.sec_dns [ none ↦ [] | some l ↦ l ]

-- DiffDomainDSData: the records to add and to remove. The order of a Go map is not specified, so
-- neither is that of the results.
unfoldable pub diff_domain_ds_data :
    Option Response → List DsData → Option (List DsData × List DsData)
unfolding missing_from distinct
diff_domain_ds_data none registrar = none
diff_domain_ds_data (some r) registrar =
    let current = distinct ds_eq (sec_dns_of r.extension) in
    let expected = distinct ds_eq registrar in
    some (missing_from ds_eq current expected, missing_from ds_eq expected current)

-- A pointer to the wanted value, or nil if the registry has it already.
abbrev pub change_to : Bool → Bool → Option Bool
change_to wanted has = if bool_eq wanted has then none else some wanted

pub record StatusChange : Type 0 where
  pub client_update : Option Bool
  pub client_delete : Option Bool
  pub client_transfer : Option Bool
  pub client_renew : Option Bool
  pub client_hold_change : Option Bool

-- The flags that the loop over the statuses sets.
pub record ClientFlags : Type 0 where
  pub delete : Bool
  pub update : Bool
  pub transfer : Bool
  pub renew : Bool
  pub hold : Bool

abbrev pub no_flags : ClientFlags
no_flags = record { delete = false; update = false; transfer = false; renew = false; hold = false }

unfoldable pub set_client_flag : Status → ClientFlags → ClientFlags
set_client_flag client_delete_prohibited f = record f { delete = true }
set_client_flag client_update_prohibited f = record f { update = true }
set_client_flag client_transfer_prohibited f = record f { transfer = true }
set_client_flag client_renew_prohibited f = record f { renew = true }
set_client_flag client_hold f = record f { hold = true }
set_client_flag _ f = f

unfoldable pub client_flags : ClientFlags → List Status → ClientFlags
unfolding set_client_flag
client_flags f [] = f
client_flags f (s ∷ rest) = client_flags (set_client_flag s f) rest

abbrev pub status_changes : ClientFlags → DomainRevision → StatusChange
status_changes f r = record {
  client_update = change_to r.client_update_prohibited_status f.update;
  client_delete = change_to r.client_delete_prohibited_status f.delete;
  client_transfer = change_to r.client_transfer_prohibited_status f.transfer;
  client_renew = change_to r.client_renew_prohibited_status f.renew;
  client_hold_change = change_to r.client_hold_status f.hold;
}

-- DiffDomainStatuses.
unfoldable pub diff_domain_statuses : Option Response → DomainRevision → Option StatusChange
unfolding client_flags
diff_domain_statuses registry registrar = elim (domain_inf_of registry) [
  | none ↦ none
  | some d ↦ some (status_changes (client_flags no_flags d.status) registrar)
]

-- DiffHostStatuses: the changes of the update and of the delete lock.
unfoldable pub diff_host_statuses :
    Option Response → HostRevision → Option (Option Bool × Option Bool)
unfolding client_flags
diff_host_statuses registry registrar = elim (host_inf_of registry) [
  | none ↦ none
  | some h ↦
      let f = client_flags no_flags h.status in
      some (
        change_to registrar.host_client_update_prohibited f.update,
        change_to registrar.host_client_delete_prohibited f.delete,
      )
]

-- binStatus: the status is appended to those to add or to those to remove.
unfoldable pub bin_status :
    Option Bool → Status → List Status × List Status → List Status × List Status
bin_status none key bins = bins
bin_status (some b) key (add, rem) = if b then (add ++ key ∷ [], rem) else (add, rem ++ key ∷ [])
