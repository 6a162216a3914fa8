-- ===== src/Registrar/Verify.antt =====
-- lib/core.go: NullInt64ConfirmEqual and VerifyCR. The interface RegistrarCRObject is a record of
-- what VerifyCR asks of its object.
pub mod Sound
pub mod Unsigned
use go_registrar.Prelude.{
  ℕ, ◌≡◌, refl, Bool, true, false, ◌&&◌, ◌||◌, not, Option, none, some, List, [], ◌∷◌, ◌++◌, arith,
  ◌==◌, bool_eq, if◌then◌else◌,
}
use go_registrar.Registrar.Model.{
  NullInt64, ObjectType, type_code, Approval, ChangeRequest, Attestation,
}
use go_registrar.Registrar.Signature.{SigErr, Crypto, is_none, get_approval_attestation}

pub data VerifyErr : Type 0 where
  find_failed wrong_object_type wrong_object_id wrong_initial_revision : VerifyErr
  wrong_proposed_revision wrong_attestation_type wrong_attestation_id : VerifyErr
  export_not_json no_change_request no_pending_revision : VerifyErr
  bad_attestation : SigErr → VerifyErr
  mismatch : ℕ → VerifyErr

-- NullInt64ConfirmEqual, without the text of the difference.
pub null_int64_confirm_equal : NullInt64 → NullInt64 → Bool
null_int64_confirm_equal a b =
    if bool_eq a.valid b.valid then (if not a.valid then true else a.int64 == b.int64) else false

-- RegistrarCRObject: `compare_pending` is the comparison that ComparePendingToCallback returns, at
-- a JSON text that unmarshals.
pub record CrObject (Raw : Type 0) : Type 0 where
  pub object_type : ObjectType
  pub object_id : ℕ
  pub pending_revision_id : ℕ
  pub pending_cr_id : NullInt64
  pub current_revision_id : NullInt64
  pub export_is_json : Raw → Bool
  pub compare_pending : Raw → Bool × List VerifyErr

abbrev pub Checked : Type 0
Checked = Bool × List VerifyErr

-- `if !test { errs = append(errs, e); checksOut = false }`
abbrev pub require : Bool → VerifyErr → Checked → Checked
require test e (ok, errs) = if test then (ok, errs) else (false, errs ++ e ∷ [])

module _ (c : Crypto) (object : CrObject c.Raw) where
  abbrev same_type : ObjectType → Bool
  same_type t = type_code t == type_code object.object_type

  -- The comparison of the attested export with the pending revision.
  pub check_export : c.Raw → Checked → Checked
  check_export raw (ok, errs) =
      let (matches, comp_errs) = object.compare_pending raw in
      if object.export_is_json raw
      then ((if matches then ok else false), errs ++ comp_errs)
      else (false, errs ++ export_not_json ∷ [])

  -- The tests of one attestation whose signature is valid.
  pub check_attestation : Attestation c.Raw → Approval → Checked → Checked
  unfolding check_export
  check_attestation att a r =
      let r1 = require (same_type att.object_type) wrong_attestation_type r in
      let r2 = require (att.approval_id == a.id) wrong_attestation_id r1 in
      if same_type att.object_type
      then check_export att.export_rev r2
      else require false wrong_attestation_type r2

  abbrev reject : Option SigErr → Checked → Checked
  reject none (ok, errs) = (false, errs)
  reject (some e) (ok, errs) = (false, errs ++ bad_attestation e ∷ [])

  -- One round of the loop over the approvals.
  pub check_approval : Approval → Checked → Checked
  unfolding check_attestation
  check_approval a r =
      let (att, valid, e) = get_approval_attestation c a in
      if valid && is_none e then check_attestation att a r else reject e r

  pub check_approvals : List Approval → Checked → Checked
  unfolding check_approval
  check_approvals [] r = r
  check_approvals (a ∷ rest) r = check_approvals rest (check_approval a r)

  -- The four tests that the request points at the object and at its revisions.
  pub check_request : ChangeRequest → Checked
  unfolding null_int64_confirm_equal
  check_request cr =
      let r0 : Checked = (true, []) in
      let r1 = require (same_type cr.registrar_object_type) wrong_object_type r0 in
      let r2 = require (cr.registrar_object_id == object.object_id) wrong_object_id r1 in
      let r3 =
        require (null_int64_confirm_equal object.current_revision_id cr.initial_revision_id)
          wrong_initial_revision r2 in
      require (cr.proposed_revision_id == object.pending_revision_id) wrong_proposed_revision r3

  -- VerifyCR behind the request that FindByID returned; `none` is its error.
  pub verify_found : Option ChangeRequest → Checked
  unfolding check_request check_approvals
  verify_found none = (false, find_failed ∷ [])
  verify_found (some cr) =
      let (ok, errs) = check_request cr in
      if ok then check_approvals cr.approvals (ok, errs) else (ok, errs)

  -- VerifyCR; `find` is FindByID on change requests, which prepares the request and its approvals.
  unfoldable pub verify_cr : (ℕ → Option ChangeRequest) → Checked
  unfolding verify_found
  verify_cr find =
      if object.pending_revision_id == 0
      then (false, no_pending_revision ∷ [])
      else if object.pending_cr_id.valid
      then verify_found (find object.pending_cr_id.int64)
      else (false, no_change_request ∷ [])
