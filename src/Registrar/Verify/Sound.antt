-- ===== src/Registrar/Verify/Sound.antt =====
-- What a change request that VerifyCR (lib/core.go) accepts is known to satisfy, and the converse.
use go_registrar.Prelude.{
  ℕ, ◌≡◌, ◌≢◌, ◌↔◌, refl, true, Option, none, some, List, [], ◌∷◌, arith, All, Bool-cases, inl, inr,
}
use go_registrar.Registrar.Model.{NullInt64, type_code, Approval, ChangeRequest}
use go_registrar.Registrar.Signature.{Crypto, get_approval_attestation}
use go_registrar.Registrar.Verify.{
  null_int64_confirm_equal, CrObject, Checked, check_approval, check_approvals, check_request,
  verify_found, verify_cr,
}

-- Two nullable keys that agree: both not set, or both set to one key.
abbrev pub Agrees : NullInt64 → NullInt64 → Type 0
Agrees a b = (a.valid ≡ b.valid) × (a.valid ≡ true → a.int64 ≡ b.int64)

null_int64_confirm_equal-true : (a b : NullInt64) → null_int64_confirm_equal a b ≡ true → Agrees a b
unfolding null_int64_confirm_equal
null_int64_confirm_equal-true a b h = ground arith

null_int64_confirm_equal-Agrees :
    (a b : NullInt64) → Agrees a b → null_int64_confirm_equal a b ≡ true
unfolding null_int64_confirm_equal
null_int64_confirm_equal-Agrees a b h = ground arith

module _ (c : Crypto) (object : CrObject c.Raw) where
  -- The approval holds a valid signature over an attestation for this approval of this type of
  -- object, and the revision that was signed compares equal to the pending one.
  pub record IsVouched (a : Approval) : Type 0 where
    pub signed : (get_approval_attestation c a).1 ≡ true
    pub no_error : (get_approval_attestation c a).2 ≡ none
    pub same_type :
        type_code (get_approval_attestation c a).0.object_type ≡ type_code object.object_type
    pub same_approval : (get_approval_attestation c a).0.approval_id ≡ a.id
    pub is_json : object.export_is_json (get_approval_attestation c a).0.export_rev ≡ true
    pub matches : (object.compare_pending (get_approval_attestation c a).0.export_rev).0 ≡ true

  check_approval-true :
      (a : Approval) (r : Checked)
      → (check_approval c object a r).0 ≡ true
      → (r.0 ≡ true) × IsVouched a
  unfolding check_approval
  check_approval-true a r h = ground arith

  IsVouched-check_approval :
      (a : Approval) (r : Checked)
      → r.0 ≡ true
      → IsVouched a
      → (check_approval c object a r).0 ≡ true
  unfolding check_approval
  IsVouched-check_approval a r h v = ground arith

  check_approvals-true :
      (l : List Approval) (r : Checked)
      → (check_approvals c object l r).0 ≡ true
      → (r.0 ≡ true) × All IsVouched l
  unfolding check_approvals
  check_approvals-true [] r h = (h, tt)
  check_approvals-true (a ∷ rest) r h =
      let (first, others) = check_approvals-true rest (check_approval c object a r) h in
      let (start, v) = check_approval-true a r first in (start, (v, others))

  All-check_approvals :
      (l : List Approval) (r : Checked)
      → r.0 ≡ true
      → All IsVouched l
      → (check_approvals c object l r).0 ≡ true
  unfolding check_approvals
  All-check_approvals [] r h v = h
  All-check_approvals (a ∷ rest) r h v =
      All-check_approvals rest (check_approval c object a r) (IsVouched-check_approval a r h v.0)
        v.1

  -- The request points at the object, at its current revision and at its pending one.
  pub record PointsAt (cr : ChangeRequest) : Type 0 where
    pub object_type : type_code cr.registrar_object_type ≡ type_code object.object_type
    pub object_id : cr.registrar_object_id ≡ object.object_id
    pub initial_revision : Agrees object.current_revision_id cr.initial_revision_id
    pub proposed_revision : cr.proposed_revision_id ≡ object.pending_revision_id

  check_request-true : (cr : ChangeRequest) → (check_request c object cr).0 ≡ true → PointsAt cr
  unfolding check_request
  check_request-true cr h =
      ground
        (arith, null_int64_confirm_equal-true object.current_revision_id cr.initial_revision_id)

  PointsAt-check_request : (cr : ChangeRequest) → PointsAt cr → (check_request c object cr).0 ≡ true
  unfolding check_request
  PointsAt-check_request cr p = ground arith

  -- What VerifyCR accepts.
  pub record IsVerified (find : ℕ → Option ChangeRequest) (cr : ChangeRequest) : Type 0 where
    pub pending : object.pending_revision_id ≢ 0
    pub has_request : object.pending_cr_id.valid ≡ true
    pub found : find object.pending_cr_id.int64 ≡ some cr
    pub points : PointsAt cr
    pub vouched : All IsVouched cr.approvals

  verify_found-true :
      (o : Option ChangeRequest)
      → (verify_found c object o).0 ≡ true
      → (cr : ChangeRequest) × (o ≡ some cr) × PointsAt cr × All IsVouched cr.approvals
  unfolding verify_found
  verify_found-true none h = cc
  verify_found-true (some cr) h = elim (Bool-cases (check_request c object cr).0) [
    | inl e ↦
        let r : Checked = (true, (check_request c object cr).1) in
        (cr, refl, check_request-true cr e, (check_approvals-true cr.approvals r (rw e at h)).1)
    | inr e ↦ cc (rw e at h)
  ]

  verified-verify_found :
      (cr : ChangeRequest)
      → PointsAt cr
      → All IsVouched cr.approvals
      → (verify_found c object (some cr)).0 ≡ true
  unfolding verify_found
  verified-verify_found cr p v =
      let e = PointsAt-check_request cr p in
      rw e (All-check_approvals cr.approvals (true, (check_request c object cr).1) refl v)

  verify_cr-verify_found :
      (find : ℕ → Option ChangeRequest)
      → (verify_cr c object find).0 ≡ true
      → (object.pending_revision_id ≢ 0)
        × (object.pending_cr_id.valid ≡ true)
        × ((verify_found c object (find object.pending_cr_id.int64)).0 ≡ true)
  unfolding verify_cr
  verify_cr-verify_found find h = ground arith

  verify_found-verify_cr :
      (find : ℕ → Option ChangeRequest)
      → object.pending_revision_id ≢ 0
      → object.pending_cr_id.valid ≡ true
      → (verify_found c object (find object.pending_cr_id.int64)).0 ≡ true
      → (verify_cr c object find).0 ≡ true
  unfolding verify_cr
  verify_found-verify_cr find p v h = ground arith

  -- VerifyCR accepts an object exactly when it has a pending revision with a change request that
  -- FindByID returns, the request points at the object, its current and its pending revision, and
  -- every approval of the request holds a valid signature over an attestation for that approval
  -- whose export compares equal to the pending revision.
  pub verify_cr_iff :
      (find : ℕ → Option ChangeRequest)
      → ((verify_cr c object find).0 ≡ true) ↔ ((cr : ChangeRequest) × IsVerified find cr)
  verify_cr_iff find = (forward, backward)
    where
      forward : (verify_cr c object find).0 ≡ true → (cr : ChangeRequest) × IsVerified find cr
      forward h =
          let (pending, has, ok) = verify_cr-verify_found find h in
          let (cr, found, points, vouched) =
            verify_found-true (find object.pending_cr_id.int64) ok in
          (
            cr,
            record {
              pending = pending;
              has_request = has;
              found = found;
              points = points;
              vouched = vouched;
            },
          )

      backward : ((cr : ChangeRequest) × IsVerified find cr) → (verify_cr c object find).0 ≡ true
      backward (cr, v) =
          verify_found-verify_cr find v.pending v.has_request
            (rw v.found (verified-verify_found cr v.points v.vouched))
