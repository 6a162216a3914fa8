-- ===== src/Provision/Expected/Exact.antt =====
-- When EPPMatchesExpected (lib/domain.go) says that a domain is provisioned.
use go_registrar.Prelude.{
  ◌≡◌, ◌↔◌, inl, inr, refl, ap, sym, ◌∙◌, String, Bool, true, false, ◌||◌, Option, none, some, List,
  [], ◌∷◌, length, arith, str_eq, Bool-cases,
}
use go_registrar.Epp.Status.{
  Status, has_status, pending_create, pending_delete, pending_renew, pending_transfer,
  pending_update, server_delete_prohibited, server_hold, server_renew_prohibited,
  server_transfer_prohibited, server_update_prohibited, client_hold, client_update_prohibited,
  client_delete_prohibited, client_renew_prohibited, client_transfer_prohibited,
}
use go_registrar.Epp.Response.{DsData, ds_eq, DomainInf, Response, domain_inf_of}
use go_registrar.Provision.Diff.{
  DomainRevision, found_in, missing_from, ClientFlags, no_flags, set_client_flag, sec_dns_of,
  diff_domain_ds_data,
}
use go_registrar.Provision.Diff.Laws.{str_eq-IsEquality, SameElements, missing_from-SameElements}
use go_registrar.Provision.Diff.Flags.{flags_of}
use go_registrar.Provision.Diff.Converge.{diff_domain_ds_data-Converges}
use go_registrar.Provision.Expected.{
  EppState, PendingFlags, ServerFlags, no_pending, no_server, set_pending_flag, set_server_flag,
  status_flags, any_pending, client_flags_agree, server_flags_agree, first_missing, compare_hosts,
  compare_servers, compare_ds, unless, compare_flags, matches_section, epp_matches_expected, Match,
}

abbrev pub pending_flags_of : PendingFlags → List Status → PendingFlags
pending_flags_of f l = record {
  create = f.create || has_status pending_create l;
  delete = f.delete || has_status pending_delete l;
  renew = f.renew || has_status pending_renew l;
  transfer = f.transfer || has_status pending_transfer l;
  update = f.update || has_status pending_update l;
}

abbrev pub server_flags_of : ServerFlags → List Status → ServerFlags
server_flags_of f l = record {
  delete = f.delete || has_status server_delete_prohibited l;
  hold = f.hold || has_status server_hold l;
  renew = f.renew || has_status server_renew_prohibited l;
  transfer = f.transfer || has_status server_transfer_prohibited l;
  update = f.update || has_status server_update_prohibited l;
}

set_pending_flag-flags :
    (s : Status) (f : PendingFlags) (l : List Status)
    → pending_flags_of (set_pending_flag s f) l ≡ pending_flags_of f (s ∷ l)
unfolding set_pending_flag
set_pending_flag-flags s f l = ground arith

set_server_flag-flags :
    (s : Status) (f : ServerFlags) (l : List Status)
    → server_flags_of (set_server_flag s f) l ≡ server_flags_of f (s ∷ l)
unfolding set_server_flag
set_server_flag-flags s f l = ground arith

set_client_flag-flags :
    (s : Status) (f : ClientFlags) (l : List Status)
    → flags_of (set_client_flag s f) l ≡ flags_of f (s ∷ l)
unfolding set_client_flag
set_client_flag-flags s f l = ground arith

abbrev pub all_flags :
    PendingFlags
    → ClientFlags
    → ServerFlags
    → List Status
    → PendingFlags × ClientFlags × ServerFlags
all_flags p c v l = (pending_flags_of p l, flags_of c l, server_flags_of v l)

or_false : (b : Bool) → (b || false) ≡ b
or_false true = refl
or_false false = refl

pending_flags-nil : (p : PendingFlags) → p ≡ pending_flags_of p []
pending_flags-nil p =
    simp
      (
        or_false p.create,
        or_false p.delete,
        or_false p.renew,
        or_false p.transfer,
        or_false p.update,
      )
      refl

client_flags-nil : (c : ClientFlags) → c ≡ flags_of c []
client_flags-nil c =
    simp
      (or_false c.delete, or_false c.update, or_false c.transfer, or_false c.renew, or_false c.hold)
      refl

server_flags-nil : (v : ServerFlags) → v ≡ server_flags_of v []
server_flags-nil v =
    simp
      (or_false v.delete, or_false v.hold, or_false v.renew, or_false v.transfer, or_false v.update)
      refl

status_flags-nil :
    (p : PendingFlags) (c : ClientFlags) (v : ServerFlags)
    → status_flags p c v [] ≡ all_flags p c v []
unfolding status_flags
status_flags-nil p c v i = (pending_flags-nil p i, client_flags-nil c i, server_flags-nil v i)

pub status_flags-flags :
    (l : List Status) (p : PendingFlags) (c : ClientFlags) (v : ServerFlags)
    → status_flags p c v l ≡ all_flags p c v l
unfolding status_flags
status_flags-flags [] p c v = status_flags-nil p c v
status_flags-flags (s ∷ l) p c v =
    status_flags-flags l (set_pending_flag s p) (set_client_flag s c) (set_server_flag s v) ∙ λ i.
    (set_pending_flag-flags s p l i, set_client_flag-flags s c l i, set_server_flag-flags s v l i)

first_missing_iff :
    (l m : List String) → (first_missing l m ≡ none) ↔ (missing_from str_eq l m ≡ [])
unfolding first_missing missing_from
first_missing_iff l [] = ((λ h. refl), λ h. refl)
first_missing_iff l (a ∷ m) = elim (Bool-cases (found_in str_eq l a)) [
  | inl h ↦ rw h (first_missing_iff l m)
  | inr h ↦ rw h ((λ k. cc), λ k. cc)
]

hosts_iff :
    (rev epp : List String)
    → (compare_hosts rev epp ≡ none) ↔ (
        (length rev ≡ length epp) × (first_missing epp rev ≡ none) × (first_missing rev epp ≡ none))
unfolding compare_hosts
hosts_iff rev epp = ground arith

compare_hosts_iff :
    (rev epp : List String)
    → (compare_hosts rev epp ≡ none) ↔ ((length rev ≡ length epp) × SameElements str_eq epp rev)
compare_hosts_iff rev epp =
    let same = missing_from-SameElements str_eq str_eq-IsEquality epp rev in
    (
      (λ h.
          let (size, m, a) = (hosts_iff rev epp).0 h in
          (size, same.0 ((first_missing_iff epp rev).0 m, (first_missing_iff rev epp).0 a))),
      (λ (size, s).
          let (m, a) = same.1 s in
          (hosts_iff rev epp).1
            (size, (first_missing_iff epp rev).1 m, (first_missing_iff rev epp).1 a)),
    )

-- No change of the domain is pending.
pub record IsQuiet (l : List Status) : Type 0 where
  pub no_create : has_status pending_create l ≡ false
  pub no_delete : has_status pending_delete l ≡ false
  pub no_renew : has_status pending_renew l ≡ false
  pub no_transfer : has_status pending_transfer l ≡ false
  pub no_update : has_status pending_update l ≡ false

-- The flags that the registry shows are those of the revision.
pub record ClientFlagsMatch (rev : DomainRevision) (l : List Status) : Type 0 where
  pub client_delete : has_status client_delete_prohibited l ≡ rev.client_delete_prohibited_status
  pub client_held : has_status client_hold l ≡ rev.client_hold_status
  pub client_renew : has_status client_renew_prohibited l ≡ rev.client_renew_prohibited_status
  pub client_transfer :
      has_status client_transfer_prohibited l ≡ rev.client_transfer_prohibited_status
  pub client_update : has_status client_update_prohibited l ≡ rev.client_update_prohibited_status

pub record ServerFlagsMatch (rev : DomainRevision) (l : List Status) : Type 0 where
  pub server_delete : has_status server_delete_prohibited l ≡ rev.server_delete_prohibited_status
  pub server_held : has_status server_hold l ≡ rev.server_hold_status
  pub server_renew : has_status server_renew_prohibited l ≡ rev.server_renew_prohibited_status
  pub server_transfer :
      has_status server_transfer_prohibited l ≡ rev.server_transfer_prohibited_status
  pub server_update : has_status server_update_prohibited l ≡ rev.server_update_prohibited_status

any_pending_iff :
    (l : List Status) → (any_pending (pending_flags_of no_pending l) ≡ false) ↔ IsQuiet l
any_pending_iff l = (
  (λ h. record {
    no_create = ground arith;
    no_delete = ground arith;
    no_renew = ground arith;
    no_transfer = ground arith;
    no_update = ground arith;
  }),
  (λ q. simp (q.no_create, q.no_delete, q.no_renew, q.no_transfer, q.no_update) refl),
)

client_flags_agree_iff :
    (rev : DomainRevision) (l : List Status)
    → (client_flags_agree (flags_of no_flags l) rev ≡ true) ↔ ClientFlagsMatch rev l
client_flags_agree_iff rev l = (
  (λ h. record {
    client_delete = ground arith;
    client_held = ground arith;
    client_renew = ground arith;
    client_transfer = ground arith;
    client_update = ground arith;
  }),
  (λ q.
      ground (
        arith, q.client_delete, q.client_held, q.client_renew, q.client_transfer, q.client_update,
      )),
)

server_flags_agree_iff :
    (rev : DomainRevision) (l : List Status)
    → (server_flags_agree (server_flags_of no_server l) rev ≡ true) ↔ ServerFlagsMatch rev l
server_flags_agree_iff rev l = (
  (λ h. record {
    server_delete = ground arith;
    server_held = ground arith;
    server_renew = ground arith;
    server_transfer = ground arith;
    server_update = ground arith;
  }),
  (λ q.
      ground (
        arith, q.server_delete, q.server_held, q.server_renew, q.server_transfer, q.server_update,
      )),
)

compare_flags_iff :
    (p : PendingFlags) (c : ClientFlags) (v : ServerFlags) (rev : DomainRevision)
    (next : ServerFlags → Match)
    → ((compare_flags (p, c, v) rev next).0 ≡ true)
      ↔ ((any_pending p ≡ false) × (client_flags_agree c rev ≡ true) × ((next v).0 ≡ true))
compare_flags_iff p c v rev next = ground arith

unless_iff :
    (o : Option EppState) (next : Match)
    → ((unless o next).0 ≡ true) ↔ ((o ≡ none) × (next.0 ≡ true))
unless_iff none next = ((λ h. (refl, h)), λ h. h.1)
unless_iff (some e) next = ((λ h. cc), λ h. cc)

compare_ds_iff :
    (records : List DsData × List DsData) (next : Match)
    → ((compare_ds (some records) next).0 ≡ true)
      ↔ (((records.0 ≡ []) × (records.1 ≡ [])) × (next.0 ≡ true))
compare_ds_iff ([], []) next = ((λ h. ((refl, refl), h)), λ h. h.1)
compare_ds_iff ([], r ∷ rem) next = ((λ h. cc), λ h. cc)
compare_ds_iff (a ∷ add, rem) next = ((λ h. cc), λ h. cc)

compare_servers_iff :
    (v : ServerFlags) (rev : DomainRevision)
    → ((compare_servers v rev).0 ≡ true) ↔ (server_flags_agree v rev ≡ true)
compare_servers_iff v rev = ground arith

ds_found :
    (r : Response) (l : List DsData)
    → (records : List DsData × List DsData) × (diff_domain_ds_data (some r) l ≡ some records)
unfolding diff_domain_ds_data
ds_found r l = (_, refl)

-- What the registry shows of the domain is what the revision wants.
pub record IsProvisioned (r : Response) (d : DomainInf) (rev : DomainRevision) : Type 0 where
  pub quiet : IsQuiet d.status
  pub client_match : ClientFlagsMatch rev d.status
  pub same_count : length rev.hostnames ≡ length d.ns_hosts
  pub same_hosts : SameElements str_eq d.ns_hosts rev.hostnames
  pub same_records : SameElements ds_eq (sec_dns_of r.extension) rev.ds_data_entries
  pub server_match : ServerFlagsMatch rev d.status

module _ (r : Response) (d : DomainInf) (rev : DomainRevision)
    (e : domain_inf_of (some r) ≡ some d) where
  abbrev after_flags : ServerFlags → Match
  after_flags v =
      unless (compare_hosts rev.hostnames d.ns_hosts)
        (compare_ds (diff_domain_ds_data (some r) rev.ds_data_entries) (compare_servers v rev))

  abbrev servers : ServerFlags
  servers = server_flags_of no_server d.status

  section-flags :
      matches_section (some r) rev (some d)
      ≡ compare_flags (all_flags no_pending no_flags no_server d.status) rev after_flags
  unfolding matches_section
  section-flags = rw (status_flags-flags d.status no_pending no_flags no_server) refl

  expected-flags :
      epp_matches_expected (some r) rev
      ≡ compare_flags (all_flags no_pending no_flags no_server d.status) rev after_flags
  unfolding epp_matches_expected
  expected-flags = ap (matches_section (some r) rev) e ∙ section-flags

  records_iff :
      (next : Match)
      → ((compare_ds (diff_domain_ds_data (some r) rev.ds_data_entries) next).0 ≡ true)
        ↔ (SameElements ds_eq (sec_dns_of r.extension) rev.ds_data_entries × (next.0 ≡ true))
  records_iff next =
      let (records, h) = ds_found r rev.ds_data_entries in
      let same = (diff_domain_ds_data-Converges r rev.ds_data_entries records h).1 in
      (
        (λ k.
            let (empty, rest) = (compare_ds_iff records next).0 (rw (← h) k) in
            (same.0 empty, rest)),
        (λ (s, rest). rw h ((compare_ds_iff records next).1 (same.1 s, rest))),
      )

  after_flags_iff : ((after_flags servers).0 ≡ true) ↔ (
      (length rev.hostnames ≡ length d.ns_hosts)
      × SameElements str_eq d.ns_hosts rev.hostnames
      × SameElements ds_eq (sec_dns_of r.extension) rev.ds_data_entries
      × ServerFlagsMatch rev d.status)
  after_flags_iff =
      let last = compare_servers servers rev in
      let next = compare_ds (diff_domain_ds_data (some r) rev.ds_data_entries) last in
      let hosts = compare_hosts rev.hostnames d.ns_hosts in
      (
        (λ h.
            let (no_return, rest) = (unless_iff hosts next).0 h in
            let (size, same) = (compare_hosts_iff rev.hostnames d.ns_hosts).0 no_return in
            let (records, final) = (records_iff last).0 rest in
            (
              size,
              same,
              records,
              (server_flags_agree_iff rev d.status).0 ((compare_servers_iff servers rev).0 final),
            )),
        (λ (size, same, records, flags). (unless_iff hosts next).1 (
          (compare_hosts_iff rev.hostnames d.ns_hosts).1 (size, same),
          (records_iff last).1 (
            records,
            (compare_servers_iff servers rev).1 ((server_flags_agree_iff rev d.status).1 flags),
          ),
        )),
      )

  flags_iff :
      ((compare_flags (all_flags no_pending no_flags no_server d.status) rev after_flags).0 ≡ true)
      ↔ IsProvisioned r d rev
  flags_iff =
      let p = pending_flags_of no_pending d.status in
      let c = flags_of no_flags d.status in
      (
        (λ h.
            let (quiet, agree, rest) = (compare_flags_iff p c servers rev after_flags).0 h in
            let (size, same, records, flags) = after_flags_iff.0 rest in
            record {
              quiet = (any_pending_iff d.status).0 quiet;
              client_match = (client_flags_agree_iff rev d.status).0 agree;
              same_count = size;
              same_hosts = same;
              same_records = records;
              server_match = flags;
            }),
        (λ q. (compare_flags_iff p c servers rev after_flags).1 (
          (any_pending_iff d.status).1 q.quiet,
          (client_flags_agree_iff rev d.status).1 q.client_match,
          after_flags_iff.1 (q.same_count, q.same_hosts, q.same_records, q.server_match),
        )),
      )

  -- Of a response with a domain section, EPPMatchesExpected says that the domain is configured
  -- correctly exactly when no change is pending, all ten flags are those of the revision, there are
  -- as many hosts as in the revision, and the same hosts and the same DS records occur in both. How
  -- often a host or a DS record occurs is not compared.
  pub epp_matches_expected_iff :
      ((epp_matches_expected (some r) rev).0 ≡ true) ↔ IsProvisioned r d rev
  epp_matches_expected_iff = (
    (λ h. flags_iff.0 (ap (λ m. m.0) (sym expected-flags) ∙ h)),
    (λ q. ap (λ m. m.0) expected-flags ∙ flags_iff.1 q),
  )
