-- ===== src/Provision/Diff/Flags.antt =====
-- The status flags of DiffDomainStatuses and DiffHostStatuses (provision/main.go).
use go_registrar.Prelude.{
  ◌≡◌, ◌⊎◌, ◌∙◌, ap, Bool, not, ◌||◌, Option, none, some, List, [], ◌∷◌, arith,
}
use go_registrar.Epp.Status.{
  Status, has_status, client_hold, client_update_prohibited, client_delete_prohibited,
  client_renew_prohibited, client_transfer_prohibited,
}
use go_registrar.Epp.Response.{DomainInf, HostInf, Response, domain_inf_of, host_inf_of}
use go_registrar.Provision.Diff.{
  DomainRevision, HostRevision, StatusChange, ClientFlags, no_flags, set_client_flag, client_flags,
  change_to, status_changes, diff_domain_statuses, diff_host_statuses,
}

-- The five flags of a list of statuses, read one at a time.
abbrev pub flags_of : ClientFlags → List Status → ClientFlags
flags_of f l = record {
  delete = f.delete || has_status client_delete_prohibited l;
  update = f.update || has_status client_update_prohibited l;
  transfer = f.transfer || has_status client_transfer_prohibited l;
  renew = f.renew || has_status client_renew_prohibited l;
  hold = f.hold || has_status client_hold l;
}

set_client_flag-flags_of :
    (s : Status) (f : ClientFlags) (l : List Status)
    → flags_of (set_client_flag s f) l ≡ flags_of f (s ∷ l)
unfolding set_client_flag
set_client_flag-flags_of s f l = ground arith

flags_of-nil : (f : ClientFlags) → f ≡ flags_of f []
flags_of-nil f = ground arith

pub client_flags-flags_of : (l : List Status) (f : ClientFlags) → client_flags f l ≡ flags_of f l
unfolding client_flags
client_flags-flags_of [] f = flags_of-nil f
client_flags-flags_of (s ∷ l) f =
    client_flags-flags_of l (set_client_flag s f) ∙ set_client_flag-flags_of s f l

-- A change of a flag: there is none where the flag has the wanted value, and else it is to the
-- wanted value.
abbrev pub IsChange : Bool → Bool → Option Bool → Type 0
IsChange wanted has o = ((o ≡ none) × (has ≡ wanted)) ⊎ ((o ≡ some wanted) × (has ≡ not wanted))

change_to-IsChange : (wanted has : Bool) → IsChange wanted has (change_to wanted has)
change_to-IsChange wanted has = ground arith

-- The changes of a domain's flags, by the statuses that the registry has.
pub record IsStatusChange (rev : DomainRevision) (l : List Status) (ch : StatusChange)
    : Type 0 where
  pub update_change :
      IsChange rev.client_update_prohibited_status
        (has_status client_update_prohibited l)
        ch.client_update
  pub delete_change :
      IsChange rev.client_delete_prohibited_status
        (has_status client_delete_prohibited l)
        ch.client_delete
  pub transfer_change :
      IsChange rev.client_transfer_prohibited_status
        (has_status client_transfer_prohibited l)
        ch.client_transfer
  pub renew_change :
      IsChange rev.client_renew_prohibited_status
        (has_status client_renew_prohibited l)
        ch.client_renew
  pub hold_change : IsChange rev.client_hold_status (has_status client_hold l) ch.client_hold_change

status_changes-IsStatusChange :
    (rev : DomainRevision) (l : List Status)
    → IsStatusChange rev l (status_changes (flags_of no_flags l) rev)
status_changes-IsStatusChange rev l = record {
  update_change = change_to-IsChange rev.client_update_prohibited_status _;
  delete_change = change_to-IsChange rev.client_delete_prohibited_status _;
  transfer_change = change_to-IsChange rev.client_transfer_prohibited_status _;
  renew_change = change_to-IsChange rev.client_renew_prohibited_status _;
  hold_change = change_to-IsChange rev.client_hold_status _;
}

diff_domain_statuses-some :
    (r : Option Response) (d : DomainInf) (rev : DomainRevision) (ch : StatusChange)
    → domain_inf_of r ≡ some d
    → diff_domain_statuses r rev ≡ some ch
    → status_changes (client_flags no_flags d.status) rev ≡ ch
unfolding diff_domain_statuses
diff_domain_statuses-some r d rev ch e h = ground arith

-- Of a response with a domain section, DiffDomainStatuses asks for a change of each of the five
-- client flags exactly when the registry's statuses differ from the revision there, and each change
-- is to what the revision holds.
pub diff_domain_statuses-IsStatusChange :
    (r : Option Response) (d : DomainInf) (rev : DomainRevision) (ch : StatusChange)
    → domain_inf_of r ≡ some d
    → diff_domain_statuses r rev ≡ some ch
    → IsStatusChange rev d.status ch
diff_domain_statuses-IsStatusChange r d rev ch e h =
    let same = diff_domain_statuses-some r d rev ch e h in
    rw (← same, client_flags-flags_of d.status no_flags)
      (status_changes-IsStatusChange rev d.status)

diff_host_statuses-some :
    (r : Option Response) (d : HostInf) (rev : HostRevision) (ch : Option Bool × Option Bool)
    → host_inf_of r ≡ some d
    → diff_host_statuses r rev ≡ some ch
    → (
      change_to rev.host_client_update_prohibited (client_flags no_flags d.status).update,
      change_to rev.host_client_delete_prohibited (client_flags no_flags d.status).delete,
    )
      ≡ ch
unfolding diff_host_statuses
diff_host_statuses-some r d rev ch e h = ground arith

-- The same of DiffHostStatuses and the two client flags of a host.
diff_host_statuses-IsChange :
    (r : Option Response) (d : HostInf) (rev : HostRevision) (update delete : Option Bool)
    → host_inf_of r ≡ some d
    → diff_host_statuses r rev ≡ some (update, delete)
    → IsChange rev.host_client_update_prohibited
        (has_status client_update_prohibited d.status)
        update
      × IsChange rev.host_client_delete_prohibited
          (has_status client_delete_prohibited d.status)
          delete
diff_host_statuses-IsChange r d rev update delete e h =
    let same = diff_host_statuses-some r d rev (update, delete) e h in
    let flags = client_flags-flags_of d.status no_flags in
    (
      rw (← ap (λ p. p.0) same, flags) (change_to-IsChange rev.host_client_update_prohibited _),
      rw (← ap (λ p. p.1) same, flags) (change_to-IsChange rev.host_client_delete_prohibited _),
    )
