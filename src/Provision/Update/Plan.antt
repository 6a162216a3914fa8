-- ===== src/Provision/Update/Plan.antt =====
-- The commands of DomainUpdate (provision/main.go) bring the registry to what the registrar wants.
use go_registrar.Prelude.{
  ◌≡◌, inl, inr, refl, ap, Bool, true, false, not, List, [], ◌∷◌, ◌++◌, Bool-cases, str_eq,
  if◌then◌else◌,
}
use go_registrar.Epp.Status.{
  Status, status_eq, has_status, client_update_prohibited, server_update_prohibited,
}
use go_registrar.Epp.Response.{ds_eq}
use go_registrar.Provision.Diff.{missing_from}
use go_registrar.Provision.Update.{
  Command, add_hosts, remove_hosts, add_ds, remove_ds, add_statuses, remove_statuses, Run,
  send_command, not_nil, domain_unlock_for_change, relock, bin_statuses, Changes, send_changes,
}
use go_registrar.Provision.Update.Flag.{unlocked_statuses}
use go_registrar.Provision.Update.View.{
  View, carry, Shows, send_command-Shows, send_command-accepted, send_if-Shows, carry-add_hosts,
  carry-remove_hosts, carry-add_ds, carry-remove_ds, carry-add_statuses, carry-remove_statuses,
}

module _ (v : View) (c : Changes) where
  abbrev unlock : Command
  unlock = remove_statuses (client_update_prohibited ∷ [])

  unlock-locked :
      (r : Run)
      → has_status server_update_prohibited v.statuses ≡ false
      → has_status client_update_prohibited v.statuses ≡ true
      → domain_unlock_for_change v.statuses r
        ≡ ((true, not (send_command unlock r).0), (send_command unlock r).1)
  unfolding domain_unlock_for_change
  unlock-locked r open_now locked = rw (open_now, locked) refl

  unlock-unlocked :
      (r : Run)
      → has_status server_update_prohibited v.statuses ≡ false
      → has_status client_update_prohibited v.statuses ≡ false
      → domain_unlock_for_change v.statuses r ≡ ((false, false), r)
  unfolding domain_unlock_for_change
  unlock-unlocked r open_now unlocked = rw (open_now, unlocked) refl

  -- Whether the domain was unlocked, that there was no error, and what the registry shows.
  abbrev pub Unlocks : Bool → (Bool × Bool) × Run → View → Type 0
  Unlocks b u w = (u.0 ≡ (b, false)) × Shows v u.1 w

  Unlocks-equal :
      (u u' : (Bool × Bool) × Run) (b : Bool) (w : View) → u ≡ u' → Unlocks b u' w → Unlocks b u w
  Unlocks-equal u u' b w e h = rw e h

  pub unlock-Unlocks :
      (r : Run)
      → has_status server_update_prohibited v.statuses ≡ false
      → Shows v r v
      → Unlocks
          (has_status client_update_prohibited v.statuses)
          (domain_unlock_for_change v.statuses r)
          (record v { statuses = unlocked_statuses v.statuses })
  unlock-Unlocks r open_now h = elim (Bool-cases (has_status client_update_prohibited v.statuses)) [
    | inl e ↦ rw e (
        Unlocks-equal (domain_unlock_for_change v.statuses r)
          ((true, not (send_command unlock r).0), (send_command unlock r).1) true (carry unlock v)
          (unlock-locked r open_now e)
          (
            ap (λ t. (true, not t)) (send_command-accepted unlock v v r h),
            send_command-Shows unlock v v r h,
          ))
    | inr e ↦ rw e (
        Unlocks-equal (domain_unlock_for_change v.statuses r) ((false, false), r) false v
          (unlock-unlocked r open_now e) (refl, h))
  ]

  -- The six commands, one behind the other.
  abbrev pub carry_all : List Status × List Status → View → View
  carry_all (add, rem) w =
      let w1 = if not_nil c.hosts.0 then carry (add_hosts c.hosts.0) w else w in
      let w2 = if not_nil c.hosts.1 then carry (remove_hosts c.hosts.1) w1 else w1 in
      let w3 = if not_nil c.records.0 then carry (add_ds c.records.0) w2 else w2 in
      let w4 = if not_nil c.records.1 then carry (remove_ds c.records.1) w3 else w3 in
      let w5 = if not_nil rem then carry (remove_statuses rem) w4 else w4 in
      if not_nil add then carry (add_statuses add) w5 else w5

  pub send_changes-Shows :
      (unlocked : Bool) (w : View) (r : Run)
      → Shows v r w
      → Shows v (send_changes c unlocked r).1 (
          carry_all
            (bin_statuses
              (record c.status { client_update = relock c.status.client_update unlocked }))
            w)
  unfolding send_changes
  send_changes-Shows unlocked w r h =
      let (add, rem) =
        bin_statuses (record c.status { client_update = relock c.status.client_update unlocked }) in
      send_if-Shows (not_nil add) (add_statuses add) v _ _ (
        send_if-Shows (not_nil rem) (remove_statuses rem) v _ _ (
          send_if-Shows (not_nil c.records.1) (remove_ds c.records.1) v _ _ (
            send_if-Shows (not_nil c.records.0) (add_ds c.records.0) v _ _ (
              send_if-Shows (not_nil c.hosts.1) (remove_hosts c.hosts.1) v _ _
                (send_if-Shows (not_nil c.hosts.0) (add_hosts c.hosts.0) v w (false, r) h)))))

  pub carry_all-plain :
      (add rem : List Status) (w : View)
      → carry_all (add, rem) w ≡ record {
        hosts = missing_from str_eq c.hosts.1 (w.hosts ++ c.hosts.0);
        records = missing_from ds_eq c.records.1 (w.records ++ c.records.0);
        statuses = missing_from status_eq rem w.statuses ++ add;
      }
  carry_all-plain add rem w =
      let w1 = carry (add_hosts c.hosts.0) w in
      let w2 = carry (remove_hosts c.hosts.1) w1 in
      let w3 = carry (add_ds c.records.0) w2 in
      let w4 = carry (remove_ds c.records.1) w3 in
      let w5 = carry (remove_statuses rem) w4 in
      rw
        (
          carry-add_hosts c.hosts.0 w,
          carry-remove_hosts c.hosts.1 w1,
          carry-add_ds c.records.0 w2,
          carry-remove_ds c.records.1 w3,
          carry-remove_statuses rem w4,
          carry-add_statuses add w5,
        )
        refl
