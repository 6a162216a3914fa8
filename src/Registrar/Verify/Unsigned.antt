-- ===== src/Registrar/Verify/Unsigned.antt =====
-- VerifyCR (lib/core.go) on a change request with an approval that nobody has signed yet.
use go_registrar.Prelude.{
  ℕ, ◌≡◌, inl, inr, false, Option, none, some, List, [], ◌∷◌, All, Any, Bool-cases,
}
use go_registrar.Registrar.Model.{Approval, ChangeRequest}
use go_registrar.Registrar.Signature.{Crypto}
use go_registrar.Registrar.Signature.Authority.{unsigned-invalid}
use go_registrar.Registrar.Verify.{CrObject, verify_cr}
use go_registrar.Registrar.Verify.Sound.{IsVouched, verify_cr_iff}

module _ (c : Crypto) (object : CrObject c.Raw) where
  unsigned-not_vouched :
      c.decode [] ≡ none
      → (l : List Approval) → Any (λ a. a.signature ≡ []) l
      → All (IsVouched c object) l
      → ⊥
  unsigned-not_vouched blank [] n v = n
  unsigned-not_vouched blank (a ∷ l) (inl e) (v, vs) = cc (v.signed, unsigned-invalid c a blank e)
  unsigned-not_vouched blank (a ∷ l) (inr n) (v, vs) = unsigned-not_vouched blank l n vs

  -- If an empty text holds no signed block, VerifyCR refuses an object while any approval of its
  -- change request has no signature.
  pub verify_cr-unsigned :
      (find : ℕ → Option ChangeRequest) (cr : ChangeRequest)
      → c.decode [] ≡ none
      → find object.pending_cr_id.int64 ≡ some cr
      → Any (λ a. a.signature ≡ []) cr.approvals
      → (verify_cr c object find).0 ≡ false
  verify_cr-unsigned find cr blank found n = elim (Bool-cases (verify_cr c object find).0) [
    | inr e ↦ e
    | inl e ↦
        let (q, v) = (verify_cr_iff c object find).0 e in
        absurd (unsigned-not_vouched blank q.approvals (transfer q v.found) v.vouched)
  ]
    where
      transfer :
          (q : ChangeRequest)
          → find object.pending_cr_id.int64 ≡ some q
          → Any (λ a. a.signature ≡ []) q.approvals
      transfer q e = let same : q ≡ cr = cc in rw same n
