-- ===== src/Provision/Diff/Laws.antt =====
-- The two loops over lists of differences (provision/main.go, lib/host.go, lib/domain.go) as sets.
use go_registrar.Prelude.{
  ◌≡◌, ◌↔◌, refl, Bool, true, false, not, ◌&&◌, ◌||◌, List, [], ◌∷◌, ◌++◌, arith, Bool-cases,
  str_eq, str_eq_iff, inl, inr,
}
use go_registrar.Epp.Response.{ds_eq}
use go_registrar.Provision.Diff.{found_in, missing_from, distinct}

-- An equality test: an equivalence.
pub record IsEquality {ℓ} {A : Type ℓ} (eq : A → A → Bool) : Type ℓ where
  pub reflexive : (a : A) → eq a a ≡ true
  pub congruent : (a b c : A) → eq a b ≡ true → eq a c ≡ eq b c
  pub symmetric : (a b : A) → eq a b ≡ eq b a

pub str_eq-IsEquality : IsEquality str_eq
str_eq-IsEquality = record {
  reflexive = λ a. (str_eq_iff a a).1 refl;
  congruent = λ a b c h. cc ((str_eq_iff a b).0 h);
  symmetric = λ a b. ground (arith, str_eq_iff a b, str_eq_iff b a);
}

pub ds_eq-IsEquality : IsEquality ds_eq
ds_eq-IsEquality = record {
  reflexive = λ a. ground (arith, str_eq_iff a.digest a.digest);
  congruent = λ a b c h. ground (arith, str_eq_iff a.digest b.digest);
  symmetric = λ a b. ground (arith, str_eq_iff a.digest b.digest, str_eq_iff b.digest a.digest);
}

module _ {ℓ} {A : Type ℓ} (eq : A → A → Bool) where
  -- The elements to add are appended, and then those to remove are taken out.
  abbrev pub carry_out : List A → List A × List A → List A
  carry_out has (add, rem) = missing_from eq rem (has ++ add)

  -- Two lists with the same elements.
  abbrev pub SameElements : List A → List A → Type ℓ
  SameElements l m = (a : A) → found_in eq l a ≡ found_in eq m a

module _ {ℓ} {A : Type ℓ} (eq : A → A → Bool) (e : IsEquality eq) where
  pub found_in-append :
      (l m : List A) (a : A) → found_in eq (l ++ m) a ≡ (found_in eq l a || found_in eq m a)
  found_in-append [] m a = refl
  found_in-append (b ∷ l) m a = ground (arith, found_in-append l m a)

  found_in-congruent : (l : List A) (a b : A) → eq a b ≡ true → found_in eq l a ≡ found_in eq l b
  found_in-congruent [] a b h = refl
  found_in-congruent (c ∷ l) a b h = ground (arith, e.congruent a b c h, found_in-congruent l a b h)

  pub found_in-missing_from :
      (l m : List A) (a : A)
      → found_in eq (missing_from eq l m) a ≡ (found_in eq m a && not (found_in eq l a))
  unfolding missing_from
  found_in-missing_from l [] a = refl
  found_in-missing_from l (b ∷ m) a = elim (Bool-cases (eq a b)) [
    | inl h ↦ ground (arith, h, found_in-congruent l a b h, found_in-missing_from l m a)
    | inr h ↦ ground (arith, h, found_in-missing_from l m a)
  ]

  pub found_in-distinct : (l : List A) (a : A) → found_in eq (distinct eq l) a ≡ found_in eq l a
  unfolding distinct
  found_in-distinct [] a = refl
  found_in-distinct (b ∷ l) a = elim (Bool-cases (eq a b)) [
    | inl h ↦ ground (arith, h, found_in-congruent l a b h, found_in-distinct l a)
    | inr h ↦ ground (arith, h, found_in-distinct l a)
  ]

  none_found : (k : List A) (a : A) → k ≡ [] → found_in eq k a ≡ false
  none_found [] a h = refl
  none_found (b ∷ k) a h = cc

  all_found :
      (l k : List A)
      → ((a : A) → found_in eq k a ≡ true → found_in eq l a ≡ true)
      → missing_from eq l k ≡ []
  unfolding missing_from
  all_found l [] h = refl
  all_found l (b ∷ k) h =
      let here : found_in eq l b ≡ true = h b (rw (e.reflexive b)) in
      rw here (all_found l k (λ a f. h a (ground (arith, f))))

  -- Nothing is missing exactly when every element is found.
  pub missing_from-nil :
      (l m : List A)
      → (missing_from eq l m ≡ []) ↔ ((a : A) → found_in eq m a ≡ true → found_in eq l a ≡ true)
  missing_from-nil l m = (
    (λ h a f. ground (arith, found_in-missing_from l m a, none_found (missing_from eq l m) a h)),
    all_found l m,
  )

  pub carry_out-missing :
      (has wants : List A) (a : A)
      → found_in eq (carry_out eq has (missing_from eq has wants, missing_from eq wants has)) a
        ≡ found_in eq wants a
  carry_out-missing has wants a = ground (
    arith,
    found_in-missing_from (missing_from eq wants has) (has ++ missing_from eq has wants) a,
    found_in-append has (missing_from eq has wants) a,
    found_in-missing_from wants has a,
    found_in-missing_from has wants a,
  )

  both_found :
      (has wants : List A) (a : A)
      → (found_in eq wants a ≡ true → found_in eq has a ≡ true)
      → (found_in eq has a ≡ true → found_in eq wants a ≡ true)
      → found_in eq has a ≡ found_in eq wants a
  both_found has wants a f g = ground arith

  -- There is nothing to add and nothing to remove exactly when the elements are the same.
  pub missing_from-SameElements :
      (has wants : List A)
      → ((missing_from eq has wants ≡ []) × (missing_from eq wants has ≡ []))
        ↔ SameElements eq has wants
  missing_from-SameElements has wants = (
    (λ (h, k) a.
        both_found has wants a ((missing_from-nil has wants).0 h a)
          ((missing_from-nil wants has).0 k a)),
    λ s. (
      (missing_from-nil has wants).1 (λ a f. rw (s a) f),
      (missing_from-nil wants has).1 (λ a f. rw (← s a) f),
    ),
  )
