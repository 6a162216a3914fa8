-- ===== src/Provision/Diff/Converge.antt =====
-- The differences that DiffHostList (provision/main.go), DiffDomainDSData (lib/domain.go) and
-- DiffIPLists (lib/host.go) return: carrying them out makes the registry hold what is expected.
use go_registrar.Prelude.{
  ◌≡◌, ◌↔◌, ◌∙◌, sym, refl, String, Bool, Option, some, List, [], ◌∷◌, ◌++◌, arith, str_eq,
}
use go_registrar.Epp.Response.{DsData, ds_eq, DomainInf, Response, domain_inf_of}
use go_registrar.Provision.Diff.{
  DomainRevision, found_in, missing_from, distinct, sec_dns_of, diff_host_list, diff_ip_lists,
  diff_domain_ds_data,
}
use go_registrar.Provision.Diff.Laws.{
  IsEquality, str_eq-IsEquality, ds_eq-IsEquality, found_in-append, found_in-missing_from,
  found_in-distinct, carry_out, carry_out-missing, SameElements, missing_from-SameElements,
}

-- What to add and what to remove, so that the elements become those of `wants`; both are empty
-- exactly when they are already.
abbrev pub Converges {ℓ} :
    {A : Type ℓ} (eq : A → A → Bool) → List A → List A → List A × List A → Type ℓ
Converges eq has wants (add, rem) =
    SameElements eq (carry_out eq has (add, rem)) wants
    × (((add ≡ []) × (rem ≡ [])) ↔ SameElements eq has wants)

module _ {ℓ} {A : Type ℓ} (eq : A → A → Bool) (e : IsEquality eq) where
  missing_from-Converges :
      (has wants : List A)
      → Converges eq has wants (missing_from eq has wants, missing_from eq wants has)
  missing_from-Converges has wants =
      (carry_out-missing eq e has wants, missing_from-SameElements eq e has wants)

  -- The same with lists in place of `has` and `wants` that have their elements.
  similar-Converges :
      (has wants h w : List A)
      → SameElements eq h has
      → SameElements eq w wants
      → Converges eq has wants (missing_from eq h w, missing_from eq w h)
  similar-Converges has wants h w sh sw = (
    (λ a. ground (
      arith,
      found_in-missing_from eq e (missing_from eq w h) (has ++ missing_from eq h w) a,
      found_in-append eq e has (missing_from eq h w) a,
      found_in-missing_from eq e w h a,
      found_in-missing_from eq e h w a,
      sh a,
      sw a,
    )),
    (
      (λ empty a. sym (sh a) ∙ (missing_from-SameElements eq e h w).0 empty a ∙ sw a),
      λ s. (missing_from-SameElements eq e h w).1 (λ a. sh a ∙ s a ∙ sym (sw a)),
    ),
  )

diff_host_list-some :
    (r : Option Response) (d : DomainInf) (rev : DomainRevision) (hosts : List String × List String)
    → domain_inf_of r ≡ some d
    → diff_host_list r rev ≡ some hosts
    → (missing_from str_eq d.ns_hosts rev.hostnames, missing_from str_eq rev.hostnames d.ns_hosts)
      ≡ hosts
unfolding diff_host_list
diff_host_list-some r d rev hosts e h = ground arith

-- Of a response with a domain section, DiffHostList gives the hosts to add and to remove that make
-- the registry's name servers those of the revision, and gives none exactly when they are already.
pub diff_host_list-Converges :
    (r : Option Response) (d : DomainInf) (rev : DomainRevision) (hosts : List String × List String)
    → domain_inf_of r ≡ some d
    → diff_host_list r rev ≡ some hosts
    → Converges str_eq d.ns_hosts rev.hostnames hosts
diff_host_list-Converges r d rev hosts e h =
    rw (← diff_host_list-some r d rev hosts e h)
      (missing_from-Converges str_eq str_eq-IsEquality d.ns_hosts rev.hostnames)

-- The same of DiffDomainDSData and DS records; a response with no secDNS section has none.
pub diff_domain_ds_data-Converges :
    (r : Response) (registrar : List DsData) (records : List DsData × List DsData)
    → diff_domain_ds_data (some r) registrar ≡ some records
    → Converges ds_eq (sec_dns_of r.extension) registrar records
unfolding diff_domain_ds_data
diff_domain_ds_data-Converges r registrar records h =
    let current = distinct ds_eq (sec_dns_of r.extension) in
    let expected = distinct ds_eq registrar in
    let same : (missing_from ds_eq current expected, missing_from ds_eq expected current)
        ≡ records =
      cc in
    rw (← same) (
      similar-Converges ds_eq ds_eq-IsEquality (sec_dns_of r.extension) registrar current expected
        (found_in-distinct ds_eq ds_eq-IsEquality (sec_dns_of r.extension))
        (found_in-distinct ds_eq ds_eq-IsEquality registrar))

module _ {ℓ} {Ip : Type ℓ} (parse : String → Ip) (ip_eq : Ip → Ip → Bool) where
  -- Two texts of one address.
  abbrev pub same_ip : String → String → Bool
  same_ip a b = ip_eq (parse a) (parse b)

  module _ (e : IsEquality ip_eq) where
    same_ip-IsEquality : IsEquality same_ip
    same_ip-IsEquality = record {
      reflexive = λ a. e.reflexive (parse a);
      congruent = λ a b c h. e.congruent (parse a) (parse b) (parse c) h;
      symmetric = λ a b. e.symmetric (parse a) (parse b);
    }

    found_in-flipped :
        (l : List String) (a : String) → found_in (λ x y. same_ip y x) l a ≡ found_in same_ip l a
    found_in-flipped [] a = refl
    found_in-flipped (b ∷ l) a =
        ground (arith, e.symmetric (parse a) (parse b), found_in-flipped l a)

    missing_from-flipped :
        (l m : List String) → missing_from (λ x y. same_ip y x) l m ≡ missing_from same_ip l m
    unfolding missing_from
    missing_from-flipped l [] = refl
    missing_from-flipped l (a ∷ m) = rw (found_in-flipped l a, missing_from-flipped l m) refl

    -- DiffIPLists, where Equal on parsed addresses is an equivalence: carrying out the two lists
    -- makes the addresses the expected ones, as addresses and not as texts, and both are empty
    -- exactly when they are already.
    pub diff_ip_lists-Converges :
        (current expected : List String)
        → Converges same_ip current expected (diff_ip_lists parse ip_eq current expected)
    unfolding diff_ip_lists
    diff_ip_lists-Converges current expected =
        rw (missing_from-flipped current expected)
          (missing_from-Converges same_ip same_ip-IsEquality current expected)
