-- ===== src/Provision/Update/Flag.antt =====
-- The status flags behind the commands of DomainUpdate (provision/main.go): binStatus, the unlocking
-- and the relocking together give each flag the value that the revision holds.
use go_registrar.Prelude.{
  ◌≡◌, inl, inr, refl, Bool, true, false, not, ◌&&◌, ◌||◌, Option, none, some, List, [], ◌∷◌, ◌++◌,
  arith, Bool-cases, if◌then◌else◌,
}
use go_registrar.Epp.Status.{
  Status, status_eq, status_eq-eq, status_eq_refl, has_status, client_hold,
  client_update_prohibited, client_delete_prohibited, client_renew_prohibited,
  client_transfer_prohibited,
}
use go_registrar.Provision.Diff.{StatusChange, DomainRevision, found_in, missing_from, bin_status}
use go_registrar.Provision.Diff.Laws.{IsEquality, found_in-append, found_in-missing_from}
use go_registrar.Provision.Diff.Flags.{IsChange, IsStatusChange}
use go_registrar.Provision.Update.{relock, bin_statuses}

pub status_eq-IsEquality : IsEquality status_eq
status_eq-IsEquality = record {
  reflexive = status_eq_refl;
  congruent = λ a b c h. let e : a ≡ b = status_eq-eq a b h in cc;
  symmetric = λ a b. ground arith;
}

pub has_status-found_in : (s : Status) (l : List Status) → has_status s l ≡ found_in status_eq l s
has_status-found_in s [] = refl
has_status-found_in s (t ∷ l) = ground (arith, has_status-found_in s l)

abbrev pub is_to_add : Option Bool → Bool
is_to_add (some true) = true
is_to_add _ = false

abbrev pub is_to_remove : Option Bool → Bool
is_to_remove (some false) = true
is_to_remove _ = false

bin_status-add :
    (o : Option Bool) (key : Status) (bins : List Status × List Status) (s : Status)
    → found_in status_eq (bin_status o key bins).0 s
      ≡ (found_in status_eq bins.0 s || (is_to_add o && status_eq s key))
unfolding bin_status
bin_status-add none key (add, rem) s = ground arith
bin_status-add (some true) key (add, rem) s =
    ground (arith, found_in-append status_eq status_eq-IsEquality add (key ∷ []) s)
bin_status-add (some false) key (add, rem) s = ground arith

bin_status-remove :
    (o : Option Bool) (key : Status) (bins : List Status × List Status) (s : Status)
    → found_in status_eq (bin_status o key bins).1 s
      ≡ (found_in status_eq bins.1 s || (is_to_remove o && status_eq s key))
unfolding bin_status
bin_status-remove none key (add, rem) s = ground arith
bin_status-remove (some true) key (add, rem) s = ground arith
bin_status-remove (some false) key (add, rem) s =
    ground (arith, found_in-append status_eq status_eq-IsEquality rem (key ∷ []) s)

module _ (ch : StatusChange) (s : Status) where
  abbrev bins_1 : List Status × List Status
  bins_1 = bin_status ch.client_update client_update_prohibited ([], [])

  abbrev bins_2 : List Status × List Status
  bins_2 = bin_status ch.client_delete client_delete_prohibited bins_1

  abbrev bins_3 : List Status × List Status
  bins_3 = bin_status ch.client_transfer client_transfer_prohibited bins_2

  abbrev bins_4 : List Status × List Status
  bins_4 = bin_status ch.client_renew client_renew_prohibited bins_3

  bin_statuses-add : found_in status_eq (bin_statuses ch).0 s ≡ (
      (is_to_add ch.client_update && status_eq s client_update_prohibited)
      || (is_to_add ch.client_delete && status_eq s client_delete_prohibited)
      || (is_to_add ch.client_transfer && status_eq s client_transfer_prohibited)
      || (is_to_add ch.client_renew && status_eq s client_renew_prohibited)
      || (is_to_add ch.client_hold_change && status_eq s client_hold))
  unfolding bin_statuses
  bin_statuses-add =
      rw
        (
          bin_status-add ch.client_hold_change client_hold bins_4 s,
          bin_status-add ch.client_renew client_renew_prohibited bins_3 s,
          bin_status-add ch.client_transfer client_transfer_prohibited bins_2 s,
          bin_status-add ch.client_delete client_delete_prohibited bins_1 s,
          bin_status-add ch.client_update client_update_prohibited ([], []) s,
        )
        (ground arith)

  bin_statuses-remove : found_in status_eq (bin_statuses ch).1 s ≡ (
      (is_to_remove ch.client_update && status_eq s client_update_prohibited)
      || (is_to_remove ch.client_delete && status_eq s client_delete_prohibited)
      || (is_to_remove ch.client_transfer && status_eq s client_transfer_prohibited)
      || (is_to_remove ch.client_renew && status_eq s client_renew_prohibited)
      || (is_to_remove ch.client_hold_change && status_eq s client_hold))
  unfolding bin_statuses
  bin_statuses-remove =
      rw
        (
          bin_status-remove ch.client_hold_change client_hold bins_4 s,
          bin_status-remove ch.client_renew client_renew_prohibited bins_3 s,
          bin_status-remove ch.client_transfer client_transfer_prohibited bins_2 s,
          bin_status-remove ch.client_delete client_delete_prohibited bins_1 s,
          bin_status-remove ch.client_update client_update_prohibited ([], []) s,
        )
        (ground arith)

-- The statuses while the domain is unlocked for other changes.
abbrev pub unlocked_statuses : List Status → List Status
unlocked_statuses l =
    if has_status client_update_prohibited l
    then missing_from status_eq (client_update_prohibited ∷ []) l
    else l

-- The statuses to add and to remove, with the lock that is to be put back.
abbrev pub status_bins : List Status → StatusChange → List Status × List Status
status_bins l ch =
    bin_statuses (record ch {
      client_update = relock ch.client_update (has_status client_update_prohibited l);
    })

-- The five client flags have the values of the revision.
pub record HasFlags (rev : DomainRevision) (l : List Status) : Type 0 where
  pub update_flag : has_status client_update_prohibited l ≡ rev.client_update_prohibited_status
  pub delete_flag : has_status client_delete_prohibited l ≡ rev.client_delete_prohibited_status
  pub transfer_flag :
      has_status client_transfer_prohibited l ≡ rev.client_transfer_prohibited_status
  pub renew_flag : has_status client_renew_prohibited l ≡ rev.client_renew_prohibited_status
  pub hold_flag : has_status client_hold l ≡ rev.client_hold_status

has_status-changed :
    (s : Status) (l add rem : List Status)
    → has_status s (missing_from status_eq rem l ++ add)
      ≡ ((has_status s l && not (found_in status_eq rem s)) || found_in status_eq add s)
has_status-changed s l add rem =
    let e = status_eq-IsEquality in
    ground (
      arith,
      has_status-found_in s (missing_from status_eq rem l ++ add),
      has_status-found_in s l,
      found_in-append status_eq e (missing_from status_eq rem l) add s,
      found_in-missing_from status_eq e rem l s,
    )

has_status-unlocked :
    (s : Status) (l : List Status)
    → has_status s (unlocked_statuses l) ≡ (
        has_status s l
        && not (has_status client_update_prohibited l && status_eq s client_update_prohibited))
has_status-unlocked s l = elim (Bool-cases (has_status client_update_prohibited l)) [
  | inr h ↦ rw h (ground arith)
  | inl h ↦ rw h (
      ground (
        arith,
        has_status-found_in s (missing_from status_eq (client_update_prohibited ∷ []) l),
        has_status-found_in s l,
        found_in-missing_from status_eq status_eq-IsEquality (client_update_prohibited ∷ []) l s,
      ))
]

module _ (rev : DomainRevision) (l : List Status) (ch : StatusChange)
    (h : IsStatusChange rev l ch) where
  abbrev locked : Bool
  locked = has_status client_update_prohibited l

  abbrev relocked : StatusChange
  relocked = record ch { client_update = relock ch.client_update locked }

  abbrev final : List Status
  final =
      missing_from status_eq (bin_statuses relocked).1 (unlocked_statuses l)
      ++ (bin_statuses relocked).0

  final-flag :
      (s : Status)
      → has_status s final ≡ (
          (has_status s l
            && not (locked && status_eq s client_update_prohibited)
            && not (found_in status_eq (bin_statuses relocked).1 s))
          || found_in status_eq (bin_statuses relocked).0 s)
  final-flag s = ground (
    arith,
    has_status-changed s (unlocked_statuses l) (bin_statuses relocked).0 (bin_statuses relocked).1,
    has_status-unlocked s l,
  )

  update-flag : has_status client_update_prohibited final ≡ rev.client_update_prohibited_status
  unfolding relock
  update-flag =
      rw
        (
          final-flag client_update_prohibited,
          bin_statuses-add relocked client_update_prohibited,
          bin_statuses-remove relocked client_update_prohibited,
        )
        (ground (arith, h.update_change))

  other-flag :
      (s : Status) (wanted : Bool) (o : Option Bool)
      → status_eq s client_update_prohibited ≡ false
      → IsChange wanted (has_status s l) o
      → found_in status_eq (bin_statuses relocked).0 s ≡ is_to_add o
      → found_in status_eq (bin_statuses relocked).1 s ≡ is_to_remove o
      → has_status s final ≡ wanted
  other-flag s wanted o apart change add rem =
      rw (final-flag s, add, rem, apart) (ground (arith, change))

  -- The commands give each client flag the value that the revision holds.
  pub status_bins-HasFlags : HasFlags rev final
  status_bins-HasFlags = record {
    update_flag = update-flag;
    delete_flag =
        other-flag client_delete_prohibited rev.client_delete_prohibited_status ch.client_delete
          refl h.delete_change (ground (arith, bin_statuses-add relocked client_delete_prohibited))
          (ground (arith, bin_statuses-remove relocked client_delete_prohibited));
    transfer_flag =
        other-flag client_transfer_prohibited rev.client_transfer_prohibited_status
          ch.client_transfer refl h.transfer_change
          (ground (arith, bin_statuses-add relocked client_transfer_prohibited))
          (ground (arith, bin_statuses-remove relocked client_transfer_prohibited));
    renew_flag =
        other-flag client_renew_prohibited rev.client_renew_prohibited_status ch.client_renew refl
          h.renew_change (ground (arith, bin_statuses-add relocked client_renew_prohibited))
          (ground (arith, bin_statuses-remove relocked client_renew_prohibited));
    hold_flag =
        other-flag client_hold rev.client_hold_status ch.client_hold_change refl h.hold_change
          (ground (arith, bin_statuses-add relocked client_hold))
          (ground (arith, bin_statuses-remove relocked client_hold));
  }
