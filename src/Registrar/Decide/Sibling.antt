-- ===== src/Registrar/Decide/Sibling.antt =====
-- A signed approval beside one that is not signed yet: Approval.UpdateState (lib/approval.go) with
-- the VerifyCR of lib/core.go.
use go_registrar.Prelude.{
  ◌≡◌, ℕ, false, ◌&&◌, Option, none, some, List, [], arith, Any, Bool-cases, inl, inr,
}
use go_registrar.Registrar.Model.{Action, Approval, ChangeRequest}
use go_registrar.Registrar.Signature.{Crypto, is_none, check_signature}
use go_registrar.Registrar.Verify.{Checked, CrObject, verify_cr}
use go_registrar.Registrar.Verify.Unsigned.{verify_cr-unsigned}
use go_registrar.Registrar.Store.{Db}
use go_registrar.Registrar.Approval.{Err, Objects}
use go_registrar.Registrar.Decide.{verified, decide_signed}
use go_registrar.Registrar.Decide.Approve.{outcome_state}

verified-refused :
    (mail : Approval → List Err) (a : Approval) (act : Action) (r : Checked)
    → r.0 ≡ false
    → outcome_state (verified mail a act r) a.state ≡ a.state
unfolding verified
verified-refused mail a act r e = ground arith

module _ (o : Objects) (c : Crypto) (mail : Approval → List Err) (object : CrObject c.Raw) where
  -- While another approval of the change request has no signature, a pending approval keeps its
  -- state, however good its own signature is: VerifyCR refuses the object.
  pub decide_signed-unsigned_sibling :
      (a : Approval) (x : o.Obj) (db : Db) (find : ℕ → Option ChangeRequest) (cr : ChangeRequest)
      → c.decode [] ≡ none
      → (o.verify_object x db).0 ≡ verify_cr c object find
      → find object.pending_cr_id.int64 ≡ some cr
      → Any (λ b. b.signature ≡ []) cr.approvals
      → outcome_state (decide_signed o c mail a x db).0 a.state ≡ a.state
  unfolding decide_signed
  decide_signed-unsigned_sibling a x db find cr blank e found n =
      let k = check_signature c a in
      let r = o.verify_object x db in
      let no : r.0.0 ≡ false = rw e (verify_cr-unsigned c object find cr blank found n) in
      elim (Bool-cases (is_none k.2 && k.0)) [
        | inl t ↦ rw t (verified-refused mail a k.1 r.0 no)
        | inr t ↦ rw t
      ]
