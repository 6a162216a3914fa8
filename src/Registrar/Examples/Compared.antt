-- ===== src/Registrar/Examples/Compared.antt =====
-- The theorems on the comparison of host revisions (lib/hostrevision.go) at concrete inputs.
use go_registrar.Prelude.{ℕ, ◌≡◌, ◌≢◌, ◌↔◌, true, false, [], ◌∷◌, arith}
use go_registrar.Registrar.State.{active, new}
use go_registrar.Registrar.Model.{ApproverSet}
use go_registrar.Registrar.Compare.{
  HostAddress, HostRevision, HostRevisionExport, get_export_version, compare, compare_lists,
}
use go_registrar.Registrar.Compare.Permutes.{compare_lists-Perm}
use go_registrar.Registrar.Compare.Export.{Matches, IsJoined, compare-passes_iff}
use go_registrar.Registrar.Compare.Own.{compare-get_export_version}
use mathlib.Core.Logic.Or
use mathlib.Core.HLevel.{⊥_prop}
use mathlib.Core.List.{Nodup, Nodup-cons, Nodup-nil, Perm, not-mem-nil, eq-or-mem_of_mem-cons}

abbrev first_address : HostAddress
first_address = record { address_id = 5; ip_address = "192.0.2.1"; protocol = 4 }

abbrev second_address : HostAddress
second_address = record { address_id = 6; ip_address = "192.0.2.2"; protocol = 4 }

abbrev infosec : ApproverSet
infosec = record {
  id = 1;
  state = active;
  current_revision_id = record { int64 = 3; valid = true };
  revision_state = active;
  approvers = [];
}

abbrev two_homed : HostRevision
two_homed = record {
  id = 9;
  host_id = 4;
  revision_state = new;
  desired_state = active;
  client_delete_prohibited_status = true;
  server_delete_prohibited_status = false;
  client_transfer_prohibited_status = true;
  server_transfer_prohibited_status = false;
  client_update_prohibited_status = true;
  server_update_prohibited_status = false;
  host_addresses = first_address ∷ second_address ∷ [];
  saved_notes = "";
  cr_id = record { int64 = 12; valid = true };
  issue_cr = "CR-1";
  notes = "moved";
  required_approver_sets = infosec ∷ [];
  informed_approver_sets = [];
}

-- The addresses come back in another order.
abbrev reordered : HostRevisionExport
unfolding get_export_version
reordered = record (get_export_version two_homed) {
  host_addresses = second_address ∷ first_address ∷ [];
}

Nodup-singleton : (n : ℕ) → Nodup (n ∷ [])
Nodup-singleton n = Nodup-cons.1 (λ m. not-mem-nil m, Nodup-nil)

Nodup-pair : (m n : ℕ) → m ≢ n → Nodup (m ∷ n ∷ [])
Nodup-pair m n d =
    Nodup-cons.1
      (λ h. Or.elim ⊥_prop (eq-or-mem_of_mem-cons h) d (λ k. not-mem-nil k), Nodup-singleton n)

two_homed-IsJoined : IsJoined two_homed
two_homed-IsJoined = record {
  addresses_differ = Nodup-pair 5 6 (omega arith);
  required_differ = Nodup-singleton 1;
  informed_differ = Nodup-nil;
}

compare-passes_iff_example : ((compare reordered two_homed).0 ≡ true) ↔ Matches reordered two_homed
compare-passes_iff_example = compare-passes_iff reordered two_homed two_homed-IsJoined

compare-get_export_version_example : compare (get_export_version two_homed) two_homed ≡ (true, [])
compare-get_export_version_example = compare-get_export_version two_homed

compare_lists-Perm_example :
    (compare_lists (λ (n : ℕ). n) (λ (n : ℕ). n) (1 ∷ 2 ∷ []) (2 ∷ 1 ∷ []) ≡ true)
    ↔ Perm {A = ℕ} (1 ∷ 2 ∷ []) (2 ∷ 1 ∷ [])
compare_lists-Perm_example =
    compare_lists-Perm (λ (n : ℕ). n) (λ (n : ℕ). n) (1 ∷ 2 ∷ []) (2 ∷ 1 ∷ [])
      (Nodup-pair 1 2 (omega arith))
