-- ===== src/Registrar/Compare/Permutes.antt =====
-- What CompareHostAddressLists (lib/hostrevision.go) finds, as a permutation of IDs.
use go_registrar.Prelude.{
  ℕ, suc, ◌≡◌, ◌↔◌, refl, sym, ap, ◌∙◌, true, List, [], ◌∷◌, any, length, map, ◌==◌, arith,
  Bool-cases, inl, inr,
}
use go_registrar.Registrar.Compare.{all_found, compare_lists}
use mathlib.Core.Logic.Or
use mathlib.Core.Path.{subst}
use mathlib.Core.List.{
  Mem, Mem-prop, Nodup, Nodup-cons, Perm, Perm-prop, Subset, not-mem-nil, mem-cons_self,
  mem-cons_of_mem, eq-or-mem_of_mem-cons, exists_perm_cons_of_mem,
}
use mathlib.Core.List.Perm
use mathlib.Core.List.{Permᴰ}
use mathlib.Core.Logic.{∥∥₁_elim}
use native.Mathlib.Nat.{ℕ_set}

module _ {ℓ} {A : Type ℓ} where
  arranged-length : {l m : List A} → Permᴰ l m → length l ≡ length m
  arranged-length Permᴰ.nil = refl
  arranged-length (Permᴰ.cons e d) = ap suc (arranged-length d)
  arranged-length (Permᴰ.swap e f) = refl
  arranged-length (Permᴰ.trans d e) = arranged-length d ∙ arranged-length e

  perm-length : {l m : List A} → Perm l m → length l ≡ length m
  perm-length {l} {m} p = ∥∥₁_elim p (ℕ_set (length l) (length m)) arranged-length

  empty_of_length : (m : List A) → 0 ≡ length m → m ≡ []
  empty_of_length [] e = refl
  empty_of_length (b ∷ m) e = absurd (omega arith)

  -- Different elements that all occur in a list of their number are that list, rearranged.
  perm_of_Subset : (l m : List A) → Nodup l → length l ≡ length m → Subset l m → Perm l m
  perm_of_Subset [] m d e s = subst (λ k. Perm [] k) (sym (empty_of_length m e)) Perm.nil
  perm_of_Subset (a ∷ l) m d e s =
      let (fresh, d') = Nodup-cons.0 d in
      ∥∥₁_elim (exists_perm_cons_of_mem (s a mem-cons_self)) (Perm-prop {l₁ = a ∷ l} {l₂ = m}) (λ w.
        let m' : List A = w.0 in
        let q : Perm m (a ∷ m') = ∣ w.1 ∣₁ in
        let n : length l ≡ length m' = omega (arith, e, perm-length q) in
        let s' : Subset l m' = λ x h.
          Or.elim (Mem-prop {a = x} {l = m'})
            (eq-or-mem_of_mem-cons ((Perm.mem_iff q).0 (s x (mem-cons_of_mem a h))))
            (λ same. absurd (fresh (subst (λ (c : A). Mem c l) same h))) (λ h'. h') in
        Perm.trans (Perm.cons a (perm_of_Subset l m' d' n s')) (Perm.symm q))

module _ {ℓ} {A : Type ℓ} (id_of : A → ℕ) where
  length-map : (l : List A) → length (map id_of l) ≡ length l
  length-map [] = refl
  length-map (a ∷ l) = ap suc (length-map l)

  any-Mem : (k : ℕ) (l : List A) → (any (λ b. id_of b == k) l ≡ true) ↔ Mem k (map id_of l)
  any-Mem k [] = (λ e. absurd (ground arith), λ h. absurd (not-mem-nil h))
  any-Mem k (a ∷ l) = (
    λ e. elim (Bool-cases (id_of a == k)) [
      | inl h ↦
          let same : id_of a ≡ k = ground arith in
          subst (λ c. Mem c (id_of a ∷ map id_of l)) same mem-cons_self
      | inr h ↦ mem-cons_of_mem (id_of a) ((any-Mem k l).0 (ground arith))
    ],
    λ m.
        Or.elim (hlevel) (eq-or-mem_of_mem-cons m) (λ same. ground arith)
          (λ n. let rest = (any-Mem k l).1 n in ground arith),
  )

module _ {ℓ κ} {A : Type ℓ} {B : Type κ} (id_of : A → ℕ) (id_in : B → ℕ) where
  head_found :
      (a : A) (xs : List A) (ys : List B)
      → all_found id_of id_in (a ∷ xs) ys ≡ true
      → (any (λ b. id_in b == id_of a) ys ≡ true) × (all_found id_of id_in xs ys ≡ true)
  unfolding all_found
  head_found a xs ys e = elim (Bool-cases (any (λ b. id_in b == id_of a) ys)) [
    | inl h ↦ (h, ground arith)
    | inr h ↦ absurd (ground arith)
  ]

  all_found-Subset :
      (xs : List A) (ys : List B)
      → (all_found id_of id_in xs ys ≡ true) ↔ Subset (map id_of xs) (map id_in ys)
  unfolding all_found
  all_found-Subset [] ys = (λ e k h. absurd (not-mem-nil h), λ s. refl)
  all_found-Subset (a ∷ xs) ys = (
    λ e k m.
        let (here, rest) = head_found a xs ys e in
        Or.elim (Mem-prop {a = k} {l = map id_in ys}) (eq-or-mem_of_mem-cons m)
          (λ same.
            subst (λ c. Mem c (map id_in ys)) (sym same) ((any-Mem id_in (id_of a) ys).0 here))
          ((all_found-Subset xs ys).0 rest k),
    λ s.
        rw ((any-Mem id_in (id_of a) ys).1 (s (id_of a) mem-cons_self))
          ((all_found-Subset xs ys).1 (λ k m. s k (mem-cons_of_mem (id_of a) m))),
  )

module _ {ℓ κ} {A : Type ℓ} {B : Type κ} (id_of : A → ℕ) (id_in : B → ℕ) where
  all_parts :
      (xs : List A) (ys : List B)
      → compare_lists id_of id_in xs ys ≡ true
      → (length xs ≡ length ys) × (all_found id_of id_in xs ys ≡ true)
  unfolding compare_lists
  all_parts xs ys e = ground arith

  all_hold :
      (xs : List A) (ys : List B)
      → length xs ≡ length ys
      → all_found id_of id_in xs ys ≡ true
      → all_found id_in id_of ys xs ≡ true
      → compare_lists id_of id_in xs ys ≡ true
  unfolding compare_lists
  all_hold xs ys n here there = ground arith

  -- The comparison of stored objects, no two of which have the same ID, with those of an export
  -- gives true exactly when the IDs of the export are those of the stored objects in some order.
  pub compare_lists-Perm :
      (stored : List A) (export : List B)
      → Nodup (map id_of stored)
      → (compare_lists id_of id_in stored export ≡ true)
        ↔ Perm (map id_of stored) (map id_in export)
  compare_lists-Perm stored export d = (
    λ e.
        let (n, here) = all_parts stored export e in
        perm_of_Subset (map id_of stored) (map id_in export) d
          (length-map id_of stored ∙ n ∙ sym (length-map id_in export))
          ((all_found-Subset id_of id_in stored export).0 here),
    λ p.
        all_hold stored export
          (sym (length-map id_of stored) ∙ perm-length p ∙ length-map id_in export)
          ((all_found-Subset id_of id_in stored export).1 (λ k m. (Perm.mem_iff p).0 m))
          ((all_found-Subset id_in id_of export stored).1 (λ k m. (Perm.mem_iff p).1 m)),
  )

  -- Lists with the same IDs pass.
  pub compare_lists_same :
      (xs : List A) (ys : List B)
      → map id_of xs ≡ map id_in ys
      → compare_lists id_of id_in xs ys ≡ true
  compare_lists_same xs ys e =
      all_hold xs ys (sym (length-map id_of xs) ∙ ap length e ∙ length-map id_in ys)
        ((all_found-Subset id_of id_in xs ys).1 (λ k m. subst (λ l. Mem k l) e m))
        ((all_found-Subset id_in id_of ys xs).1 (λ k m. subst (λ l. Mem k l) (sym e) m))
