-- ===== src/Provision/Update/Reaches.antt =====
-- Where the commands of DomainUpdate (provision/main.go) lead when the registry accepts them.
use go_registrar.Prelude.{
  ◌≡◌, inl, inr, refl, ap, Bool, true, false, not, ◌&&◌, ◌||◌, Option, none, some, List, [], ◌∷◌,
  arith, Bool-cases, str_eq, if◌then◌else◌,
}
use go_registrar.Epp.Status.{
  has_status, client_update_prohibited, client_renew_prohibited, server_renew_prohibited,
  server_update_prohibited,
}
use go_registrar.Epp.Response.{DsData, ds_eq, DomainInf, Response, domain_inf_of}
use go_registrar.Provision.Diff.{
  DomainRevision, sec_dns_of, diff_host_list, diff_domain_ds_data, diff_domain_statuses,
}
use go_registrar.Provision.Diff.Laws.{SameElements}
use go_registrar.Provision.Diff.Flags.{
  IsChange, IsStatusChange, diff_domain_statuses-IsStatusChange,
}
use go_registrar.Provision.Diff.Converge.{
  Converges, diff_host_list-Converges, diff_domain_ds_data-Converges,
}
use go_registrar.Provision.Update.{
  renew, Run, not_nil, is_some, domain_unlock_for_change, Changes, are_changes_required,
  send_changes, make_changes, renew_domain, or_none, changes_of, update_active,
}
use go_registrar.Provision.Update.View.{View, Shows, send_if-Shows}
use go_registrar.Provision.Update.Flag.{
  unlocked_statuses, status_bins, HasFlags, status_bins-HasFlags,
}
use go_registrar.Provision.Update.Plan.{
  Unlocks, unlock-Unlocks, carry_all, send_changes-Shows, carry_all-plain,
}

-- What the registry holds is what the revision wants: the same name servers, the same DS records and
-- the same client flags.
pub record IsReached (rev : DomainRevision) (v : View) : Type 0 where
  pub same_hosts : SameElements str_eq v.hosts rev.hostnames
  pub same_records : SameElements ds_eq v.records rev.ds_data_entries
  pub same_flags : HasFlags rev v.statuses

-- What the three differences say, taken together.
pub record IsDifference (rev : DomainRevision) (v : View) (c : Changes) : Type 0 where
  pub status_change : IsStatusChange rev v.statuses c.status
  pub hosts_converge : Converges str_eq v.hosts rev.hostnames c.hosts
  pub records_converge : Converges ds_eq v.records rev.ds_data_entries c.records

-- The registry's domain, as a response describes it.
abbrev pub view_of : DomainInf → Response → View
view_of d r = record { hosts = d.ns_hosts; records = sec_dns_of r.extension; statuses = d.status }

changes_of-parts :
    (r : Response) (rev : DomainRevision) (c : Changes)
    → changes_of (some r) rev ≡ some c
    → (diff_domain_statuses (some r) rev ≡ some c.status)
      × (diff_host_list (some r) rev ≡ some c.hosts)
      × (or_none (diff_domain_ds_data (some r) rev.ds_data_entries) ≡ c.records)
unfolding changes_of
changes_of-parts r rev c h = ground arith

diff_domain_ds_data-some :
    (r : Response) (l : List DsData) (records : List DsData × List DsData)
    → or_none (diff_domain_ds_data (some r) l) ≡ records
    → diff_domain_ds_data (some r) l ≡ some records
unfolding diff_domain_ds_data
diff_domain_ds_data-some r l records h = ap (λ t. some t) h

changes_of-IsDifference :
    (r : Response) (d : DomainInf) (rev : DomainRevision) (c : Changes)
    → domain_inf_of (some r) ≡ some d
    → changes_of (some r) rev ≡ some c
    → IsDifference rev (view_of d r) c
changes_of-IsDifference r d rev c e h =
    let (statuses, hosts, records) = changes_of-parts r rev c h in
    record {
      status_change = diff_domain_statuses-IsStatusChange (some r) d rev c.status e statuses;
      hosts_converge = diff_host_list-Converges (some r) d rev c.hosts e hosts;
      records_converge =
          diff_domain_ds_data-Converges r rev.ds_data_entries c.records
            (diff_domain_ds_data-some r rev.ds_data_entries c.records records);
    }

module _ (rev : DomainRevision) (v : View) (c : Changes) (diff : IsDifference rev v c) where
  not_nil-false {ℓ} : {A : Type ℓ} (l : List A) → not_nil l ≡ false → l ≡ []
  not_nil-false [] h = refl
  not_nil-false (x ∷ l) h = cc

  change-none :
      (wanted has : Bool) (o : Option Bool)
      → IsChange wanted has o
      → is_some o ≡ false
      → has ≡ wanted
  change-none wanted has none (inl h) e = h.1
  change-none wanted has none (inr h) e = cc
  change-none wanted has (some b) h e = cc

  not_required :
      are_changes_required c ≡ false
      → (is_some c.status.client_update ≡ false)
        × (is_some c.status.client_delete ≡ false)
        × (is_some c.status.client_transfer ≡ false)
        × (is_some c.status.client_renew ≡ false)
        × (is_some c.status.client_hold_change ≡ false)
        × (not_nil c.hosts.0 ≡ false)
        × (not_nil c.hosts.1 ≡ false)
        × (not_nil c.records.0 ≡ false)
        × (not_nil c.records.1 ≡ false)
  unfolding are_changes_required
  not_required h = ground arith

  idle-IsReached : are_changes_required c ≡ false → IsReached rev v
  idle-IsReached h =
      let (u, d, t, r, hold, h0, h1, r0, r1) = not_required h in
      let s = diff.status_change in
      record {
        same_hosts =
            diff.hosts_converge.1.0 (not_nil-false c.hosts.0 h0, not_nil-false c.hosts.1 h1);
        same_records =
            diff.records_converge.1.0 (not_nil-false c.records.0 r0, not_nil-false c.records.1 r1);
        same_flags = record {
          update_flag = change-none _ _ c.status.client_update s.update_change u;
          delete_flag = change-none _ _ c.status.client_delete s.delete_change d;
          transfer_flag = change-none _ _ c.status.client_transfer s.transfer_change t;
          renew_flag = change-none _ _ c.status.client_renew s.renew_change r;
          hold_flag = change-none _ _ c.status.client_hold_change s.hold_change hold;
        };
      }

  abbrev changed : View
  changed =
      carry_all v c (status_bins v.statuses c.status)
        (record v { statuses = unlocked_statuses v.statuses })

  changed-IsReached : IsReached rev changed
  changed-IsReached =
      let bins = status_bins v.statuses c.status in
      rw (carry_all-plain v c bins.0 bins.1 (record v { statuses = unlocked_statuses v.statuses }))
        (record {
          same_hosts = diff.hosts_converge.0;
          same_records = diff.records_converge.0;
          same_flags = status_bins-HasFlags rev v.statuses c.status diff.status_change;
        })

  make_changes-required :
      (r : Run)
      → are_changes_required c ≡ true
      → make_changes v.statuses c r
        ≡ send_changes c
            (domain_unlock_for_change v.statuses r).0.0
            (domain_unlock_for_change v.statuses r).1
  unfolding make_changes
  make_changes-required r h = simp h refl

  make_changes-idle :
      (r : Run) → are_changes_required c ≡ false → make_changes v.statuses c r ≡ (false, r)
  unfolding make_changes
  make_changes-idle r h = simp h refl

  -- The registry shows what the revision wants.
  abbrev ReachesBy : Run → Type 0
  ReachesBy r = (w : View) × Shows v r w × IsReached rev w

  ReachesBy-equal : (r r' : Run) → r ≡ r' → ReachesBy r' → ReachesBy r
  ReachesBy-equal r r' e h = rw e h

  sent-ReachesBy :
      (u : (Bool × Bool) × Run)
      → Unlocks v c
          (has_status client_update_prohibited v.statuses)
          u
          (record v { statuses = unlocked_statuses v.statuses })
      → ReachesBy (send_changes c u.0.0 u.1).1
  sent-ReachesBy u (flag, shows) =
      let same : u.0.0 ≡ has_status client_update_prohibited v.statuses = ap (λ t. t.0) flag in
      (
        changed,
        rw same (
            send_changes-Shows v c (has_status client_update_prohibited v.statuses)
              (record v { statuses = unlocked_statuses v.statuses }) u.1 shows),
        changed-IsReached,
      )

  make_changes-ReachesBy :
      (r : Run)
      → has_status server_update_prohibited v.statuses ≡ false
      → Shows v r v
      → ReachesBy (make_changes v.statuses c r).1
  make_changes-ReachesBy r open_now h = elim (Bool-cases (are_changes_required c)) [
    | inl e ↦
        let u = domain_unlock_for_change v.statuses r in
        ReachesBy-equal (make_changes v.statuses c r).1 (send_changes c u.0.0 u.1).1
          (ap (λ t. t.1) (make_changes-required r e))
          (sent-ReachesBy u (unlock-Unlocks v c r open_now h))
    | inr e ↦
        ReachesBy-equal (make_changes v.statuses c r).1 r (ap (λ t. t.1) (make_changes-idle r e))
          (v, h, idle-IsReached e)
  ]

  if_same : {A : Type 0} (b : Bool) (w : A) → (if b then w else w) ≡ w
  if_same true w = refl
  if_same false w = refl

  renew_domain-ReachesBy :
      (due : Bool) (s : Bool × Run) → ReachesBy s.1 → ReachesBy (renew_domain v.statuses due s).1
  unfolding renew_domain
  renew_domain-ReachesBy due s (w, shows, reached) =
      let blocked =
        has_status client_renew_prohibited v.statuses
        || has_status server_renew_prohibited v.statuses in
      (
        w,
        rw (← if_same (not blocked && due) w)
            (send_if-Shows (not blocked && due) renew v w s shows),
        reached,
      )

  update_active-ReachesBy :
      (d : DomainInf) (due : Bool) (r : Run)
      → d.status ≡ v.statuses
      → has_status server_update_prohibited v.statuses ≡ false
      → Shows v r v
      → ReachesBy (update_active d c due r).1
  unfolding update_active
  update_active-ReachesBy d due r same open_now h = rw same (
      renew_domain-ReachesBy due (make_changes v.statuses c r)
        (make_changes-ReachesBy r open_now h))

-- Of a domain that has no registry lock, with the differences between a response and the revision,
-- the commands that are sent, if all are accepted and the registry carries them out, lead to a
-- domain with the name servers, the DS records and the five client flags of the revision: also where
-- the domain had to be unlocked first, which is undone if the revision wants the lock.
pub update_active-IsReached :
    (r : Response) (d : DomainInf) (rev : DomainRevision) (c : Changes) (due : Bool)
    → domain_inf_of (some r) ≡ some d
    → changes_of (some r) rev ≡ some c
    → has_status server_update_prohibited d.status ≡ false
    → (w : View) × Shows
        (view_of d r)
        (update_active d c due (record { sent = []; faults = [] })).1
        w
      × IsReached rev w
update_active-IsReached r d rev c due e h open_now =
    update_active-ReachesBy rev (view_of d r) c (changes_of-IsDifference r d rev c e h) d due
      (record { sent = []; faults = [] }) refl open_now (refl, refl)
