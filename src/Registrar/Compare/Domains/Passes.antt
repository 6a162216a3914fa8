-- ===== src/Registrar/Compare/Domains/Passes.antt =====
-- What Compare of a domain's export (lib/domainrevision.go) passes.
use go_registrar.Prelude.{◌≡◌, ◌↔◌, refl, String, Bool, true, false, List, [], str_eq}
use go_registrar.Registrar.Compare.{run_checks}
use go_registrar.Registrar.Compare.Export.{run_checks_passes}
use go_registrar.Registrar.Compare.Domains.{
  DomainRevision, DomainRevisionExport, note, owner_conditions, domain_conditions, compare_domain,
}
use go_registrar.Registrar.Compare.Domains.Same.{
  IsJoined, SameOwner, SameConfiguration, owner_conditions-SameOwner,
  domain_conditions-SameConfiguration,
}

note_flag : (p : Bool × String) (s : Bool × List String) → (note p s).0 ≡ s.0
note_flag (true, m) (pass, errs) = refl
note_flag (false, m) (pass, errs) = refl

-- Compare passes an export of a domain's revision exactly when its IDs, its desired state, owners,
-- contacts, ten flags, notes and issue are those of the revision and the hosts, DS records and
-- approver sets have the same IDs in some order, if no list of the revision holds an object twice.
-- The Class, the state of the revision and the ID of its change request may differ, as may all of a
-- host, a DS record or an approver set but its ID.
pub compare_domain-passes_iff :
    (e : DomainRevisionExport) (r : DomainRevision)
    → IsJoined r
    → ((compare_domain e r).0 ≡ true) ↔ (SameOwner e r × SameConfiguration e r)
unfolding compare_domain
compare_domain-passes_iff e r d =
    let class : Bool × String = (str_eq e.class r.class, "the Class fields did not match") in
    let owner = run_checks (owner_conditions e r) (true, []) in
    let first = run_checks_passes (owner_conditions e r) (true, []) in
    let rest = run_checks_passes (domain_conditions e r) (note class owner) in
    (
      λ p. (
        (owner_conditions-SameOwner e r).0 (first.0 (rw (← note_flag class owner) (rest.0 p).0)).1,
        (domain_conditions-SameConfiguration e r d).0 (rest.0 p).1,
      ),
      λ (m, k). rest.1 (
        rw (note_flag class owner) (first.1 (refl, (owner_conditions-SameOwner e r).1 m)),
        (domain_conditions-SameConfiguration e r d).1 k,
      ),
    )
