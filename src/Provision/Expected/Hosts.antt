-- ===== src/Provision/Expected/Hosts.antt =====
-- Host.EPPMatchesExpected (lib/host.go): whether the registry's answer shows the host as its current
-- revision wants it. Addresses are compared as `parse` and `ip_eq` of DiffIPLists say.
use go_registrar.Prelude.{
  ◌≡◌, ◌↔◌, refl, ap, sym, ◌∙◌, String, Bool, true, false, ◌&&◌, ◌||◌, Option, none, some, List, [],
  ◌∷◌, arith, bool_eq, if◌then◌else◌,
}
use go_registrar.Epp.Status.{
  Status, has_status, pending_create, pending_delete, pending_transfer, pending_update,
  server_delete_prohibited, server_transfer_prohibited, server_update_prohibited,
  client_update_prohibited, client_delete_prohibited, client_transfer_prohibited,
}
use go_registrar.Epp.Response.{HostInf, HostAddress, Response, host_inf_of}
use go_registrar.Provision.Diff.{ClientFlags, no_flags, diff_ip_lists}
use go_registrar.Provision.Diff.Laws.{IsEquality, SameElements}
use go_registrar.Provision.Diff.Flags.{flags_of}
use go_registrar.Provision.Diff.Converge.{same_ip, diff_ip_lists-Converges}
use go_registrar.Provision.Expected.{PendingFlags, ServerFlags, no_pending, no_server, status_flags}
use go_registrar.Provision.Expected.Exact.{
  pending_flags_of, server_flags_of, all_flags, status_flags-flags,
}

-- What HostRevision holds of a host's configuration.
pub record HostWanted : Type 0 where
  pub client_delete_wanted : Bool
  pub client_transfer_wanted : Bool
  pub client_update_wanted : Bool
  pub server_delete_wanted : Bool
  pub server_transfer_wanted : Bool
  pub server_update_wanted : Bool
  pub addresses_wanted : List String

-- The texts that are returned.
pub data HostState : Type 0 where
  invalid_host host_pending_change host_client_mismatch host_server_mismatch : HostState
  host_provisioned : HostState
  missing_address additional_address : String → HostState

abbrev pub HostMatch : Type 0
HostMatch = Bool × HostState

-- The loop sets no flag for a pending renewal here, and none is read.
abbrev pub host_pending : PendingFlags → Bool
host_pending p = p.create || p.delete || p.transfer || p.update

abbrev pub host_clients_agree : ClientFlags → HostWanted → Bool
host_clients_agree c h =
    bool_eq c.update h.client_update_wanted
    && bool_eq c.transfer h.client_transfer_wanted
    && bool_eq c.delete h.client_delete_wanted

abbrev pub host_servers_agree : ServerFlags → HostWanted → Bool
host_servers_agree v h =
    bool_eq v.update h.server_update_wanted
    && bool_eq v.transfer h.server_transfer_wanted
    && bool_eq v.delete h.server_delete_wanted

abbrev pub compare_addresses : List String × List String → HostMatch
compare_addresses ([], []) = (true, host_provisioned)
compare_addresses ([], r ∷ rem) = (false, additional_address r)
compare_addresses (a ∷ add, rem) = (false, missing_address a)

abbrev pub compare_host_flags :
    PendingFlags × ClientFlags × ServerFlags → HostWanted → HostMatch → HostMatch
compare_host_flags (p, c, v) h next =
    if host_pending p
    then (false, host_pending_change)
    else if host_clients_agree c h
    then (if host_servers_agree v h then next else (false, host_server_mismatch))
    else (false, host_client_mismatch)

abbrev pub addresses_of : List HostAddress → List String
addresses_of [] = []
addresses_of (a ∷ rest) = a.address ∷ addresses_of rest

module _ {ℓ} {Ip : Type ℓ} (parse : String → Ip) (ip_eq : Ip → Ip → Bool) where
  unfoldable pub matches_host_section : HostWanted → Option HostInf → HostMatch
  unfolding status_flags diff_ip_lists
  matches_host_section h none = (false, invalid_host)
  matches_host_section h (some i) =
      compare_host_flags (status_flags no_pending no_flags no_server i.status) h (
        compare_addresses (diff_ip_lists parse ip_eq (addresses_of i.addresses) h.addresses_wanted))

  -- EPPMatchesExpected.
  unfoldable pub host_matches_expected : Option Response → HostWanted → HostMatch
  unfolding matches_host_section
  host_matches_expected resp h = matches_host_section h (host_inf_of resp)

-- What the registry shows of the host's flags is what the revision wants.
pub record HostFlagsMatch (h : HostWanted) (l : List Status) : Type 0 where
  pub no_create : has_status pending_create l ≡ false
  pub no_delete : has_status pending_delete l ≡ false
  pub no_transfer : has_status pending_transfer l ≡ false
  pub no_update : has_status pending_update l ≡ false
  pub client_delete : has_status client_delete_prohibited l ≡ h.client_delete_wanted
  pub client_transfer : has_status client_transfer_prohibited l ≡ h.client_transfer_wanted
  pub client_update : has_status client_update_prohibited l ≡ h.client_update_wanted
  pub server_delete : has_status server_delete_prohibited l ≡ h.server_delete_wanted
  pub server_transfer : has_status server_transfer_prohibited l ≡ h.server_transfer_wanted
  pub server_update : has_status server_update_prohibited l ≡ h.server_update_wanted

compare_host_flags_iff :
    (p : PendingFlags) (c : ClientFlags) (v : ServerFlags) (h : HostWanted) (next : HostMatch)
    → ((compare_host_flags (p, c, v) h next).0 ≡ true) ↔ (
        (host_pending p ≡ false)
        × (host_clients_agree c h ≡ true)
        × (host_servers_agree v h ≡ true)
        × (next.0 ≡ true))
compare_host_flags_iff p c v h next = ground arith

compare_addresses_iff :
    (r : List String × List String) → ((compare_addresses r).0 ≡ true) ↔ ((r.0 ≡ []) × (r.1 ≡ []))
compare_addresses_iff ([], []) = ((λ h. (refl, refl)), λ h. refl)
compare_addresses_iff ([], r ∷ rem) = ((λ h. cc), λ h. cc)
compare_addresses_iff (a ∷ add, rem) = ((λ h. cc), λ h. cc)

module _ (h : HostWanted) (l : List Status) where
  abbrev Agree : Type 0
  Agree =
      (host_pending (pending_flags_of no_pending l) ≡ false)
      × (host_clients_agree (flags_of no_flags l) h ≡ true)
      × (host_servers_agree (server_flags_of no_server l) h ≡ true)

  Agree-match : Agree → HostFlagsMatch h l
  Agree-match (quiet, clients, servers) = record {
    no_create = ground arith;
    no_delete = ground arith;
    no_transfer = ground arith;
    no_update = ground arith;
    client_delete = ground arith;
    client_transfer = ground arith;
    client_update = ground arith;
    server_delete = ground arith;
    server_transfer = ground arith;
    server_update = ground arith;
  }

  match-Agree : HostFlagsMatch h l → Agree
  match-Agree m = (
    simp (m.no_create, m.no_delete, m.no_transfer, m.no_update) refl,
    ground (arith, m.client_delete, m.client_transfer, m.client_update),
    ground (arith, m.server_delete, m.server_transfer, m.server_update),
  )

module _ {ℓ} {Ip : Type ℓ} (parse : String → Ip) (ip_eq : Ip → Ip → Bool) (e : IsEquality ip_eq)
    (r : Response) (i : HostInf) (h : HostWanted) (f : host_inf_of (some r) ≡ some i) where
  abbrev addresses : List String × List String
  addresses = diff_ip_lists parse ip_eq (addresses_of i.addresses) h.addresses_wanted

  host_section-flags :
      matches_host_section parse ip_eq h (some i)
      ≡ compare_host_flags
          (all_flags no_pending no_flags no_server i.status)
          h
          (compare_addresses addresses)
  unfolding matches_host_section
  host_section-flags = rw (status_flags-flags i.status no_pending no_flags no_server) refl

  expected-host :
      host_matches_expected parse ip_eq (some r) h
      ≡ compare_host_flags
          (all_flags no_pending no_flags no_server i.status)
          h
          (compare_addresses addresses)
  unfolding host_matches_expected
  expected-host = ap (matches_host_section parse ip_eq h) f ∙ host_section-flags

  -- Of a response with a host section, EPPMatchesExpected says that the host is configured correctly
  -- exactly when no change is pending, its six flags are those of the revision, and the addresses are
  -- those of the revision, as addresses, where Equal on parsed addresses is an equivalence.
  pub host_matches_expected_iff : ((host_matches_expected parse ip_eq (some r) h).0 ≡ true) ↔ (
      HostFlagsMatch h i.status
      × SameElements (same_ip parse ip_eq) (addresses_of i.addresses) h.addresses_wanted)
  host_matches_expected_iff =
      let flags =
        compare_host_flags_iff (pending_flags_of no_pending i.status) (flags_of no_flags i.status)
          (server_flags_of no_server i.status) h (compare_addresses addresses) in
      let same =
        (diff_ip_lists-Converges parse ip_eq e (addresses_of i.addresses) h.addresses_wanted).1 in
      (
        (λ k.
            let (quiet, clients, servers, rest) = flags.0 (ap (λ m. m.0) (sym expected-host) ∙ k) in
            (
              Agree-match h i.status (quiet, clients, servers),
              same.0 ((compare_addresses_iff addresses).0 rest),
            )),
        (λ (m, s).
            let (quiet, clients, servers) = match-Agree h i.status m in
            ap (λ t. t.0) expected-host
            ∙ flags.1 (quiet, clients, servers, (compare_addresses_iff addresses).1 (same.1 s))),
      )
