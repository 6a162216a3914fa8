-- ===== src/Client/Trust/Sets.antt =====
-- VerifyApproverSet (client/client.go), and on fuel the functions that call one another with it.
pub mod Chain
pub mod Ends
pub mod Unsigned
use go_registrar.Prelude.{
  ℕ, zero, suc, String, Bool, true, false, Option, none, some, List, [], ◌∷◌, ◌++◌, ◌==◌, map,
  if◌then◌else◌,
}
use go_registrar.Prelude.Fuel.{◌>>=◌}
use go_registrar.Registrar.Model.{Attestation}
use go_registrar.Registrar.Signature.{Crypto}
use go_registrar.Registrar.Compare.Approvers.{
  ApproverExportShort, ApproverSetRevisionExport, compare_approver_set,
}
use go_registrar.Client.Trust.{
  TrustErr, fetch_failed, no_current_revision, no_change_request, bad_json, not_approved,
  no_signature_found, approver_not_verified, no_verified_approvers, differs, ApprovalExport,
  ChangeRequestExport, ApproverExportFull, ApproverSetExportFull, VerifiedRevision, Outcome,
  refused, verified, errors_of, Server, Json, is_approved, is_approver_set, is_signed_by,
  add_verified_approver, verify_change_request_by, get_verified_approver_by,
}

-- The text that an approval is judged by, or that the set that should have signed was not fetched.
pub data Signed (Block : Type 0) : Type 0 where
  stopped : List TrustErr → Signed Block
  found : Option Block → List TrustErr → Signed Block

-- One round of the loop over the approvals returns, or goes on with errors.
pub data Round (A : Type 0) : Type 0 where
  returns : Outcome A → Round A
  goes_on : List TrustErr → Round A

module _ (c : Crypto) where
  open c use {Block, Entity, Raw, decode, read_entity, check_detached, unmarshal}

  abbrev pub Keyed : Type 0
  Keyed = VerifiedRevision Entity

  abbrev pub unpack : Option Block → Option (Attestation Raw)
  unpack none = none
  unpack (some b) = unmarshal b

  -- The text of the signature, as it is.
  abbrev pub extract : Option Block → List TrustErr → Signed Block
  extract none errs = found none (errs ++ (no_signature_found ∷ []))
  extract (some b) errs = found (some b) errs

  abbrev pub add_approver :
      Outcome ApproverExportFull → Keyed → List TrustErr → Keyed × List TrustErr
  add_approver (refused e) v errs = (v, errs ++ (approver_not_verified ∷ e))
  add_approver (verified e x) v errs =
      let (v', e') = add_verified_approver c x v in (v', errs ++ e')

  -- HasVerifiedApprovers and the returns behind it.
  abbrev pub has_verified_approvers : Keyed × List TrustErr → Outcome Keyed
  has_verified_approvers (v, errs) = elim v.verified_approvers [
    | [] ↦ refused (errs ++ (no_verified_approvers ∷ []))
    | x ∷ l ↦ verified errs v
  ]

  module _ (anchors : List Entity) (j : Json Raw) (server : Server)
      (verify_set : ApproverSetExportFull → Option (Outcome Keyed)) where
    pub trusted_signed_data : ApprovalExport → List TrustErr → Option (Signed Block)
    unfolding is_signed_by
    trusted_signed_data a errs = elim (is_signed_by c anchors a.signature) [
      | some b ↦ some (found (some b) errs)
      | none ↦ elim (server.get_approver_set_at a.approver_set_id a.created_at) [
        | none ↦ some (stopped (errs ++ (fetch_failed ∷ [])))
        | some earlier ↦ do
          o ← verify_set earlier
          some (extract (decode a.signature) (errs ++ errors_of o))
      ]
    ]

    -- The loop over the approvers of the set.
    pub grab_approvers :
        List ApproverExportShort → ℕ → Keyed → List TrustErr → Option (Keyed × List TrustErr)
    unfolding get_verified_approver_by add_verified_approver
    grab_approvers [] t v errs = some (v, errs)
    grab_approvers (p ∷ rest) t v errs = do
      o ← get_verified_approver_by c anchors j server verify_set p.approver_id t
      let r = add_approver o v errs
      grab_approvers rest t r.0 r.1

    pub grab :
        ApproverSetRevisionExport → ChangeRequestExport → List TrustErr → Option (Outcome Keyed)
    unfolding grab_approvers
    grab r cr errs = do
      g ←
          grab_approvers r.approvers cr.created_at
            (record { revision = r; verified_approvers = []; keys = [] }) errs
      some (has_verified_approvers g)

    pub grab_if_same :
        ApproverSetRevisionExport
        → ChangeRequestExport
        → List TrustErr
        → Bool × List String
        → Option (Outcome Keyed)
    unfolding grab
    grab_if_same r cr errs (true, diff) = grab r cr errs
    grab_if_same r cr errs (false, diff) = some (refused (errs ++ map differs diff))

    pub compare_set :
        ApproverSetRevisionExport
        → ChangeRequestExport
        → List TrustErr
        → Option ApproverSetExportFull
        → Option (Outcome Keyed)
    unfolding grab_if_same compare_approver_set
    compare_set r cr errs none = some (refused (errs ++ (bad_json ∷ [])))
    compare_set r cr errs (some s) =
        grab_if_same r cr errs (compare_approver_set r s.pending_revision)

    pub unpack_approval :
        ApproverSetRevisionExport
        → ChangeRequestExport
        → List TrustErr
        → Option (Attestation Raw)
        → Option (Round Keyed)
    unfolding compare_set
    unpack_approval r cr errs none = some (returns (refused (errs ++ (bad_json ∷ []))))
    unpack_approval r cr errs (some att) =
        if is_approved att.action
        then (if is_approver_set att.object_type
            then (do
              o ← compare_set r cr errs (j.unmarshal_approver_set att.export_rev)
              some (returns o))
            else some (goes_on errs))
        else some (goes_on (errs ++ (not_approved ∷ [])))

    pub judge_signed :
        ApproverSetRevisionExport → ChangeRequestExport → Signed Block → Option (Round Keyed)
    unfolding unpack_approval
    judge_signed r cr (stopped errs) = some (returns (refused errs))
    judge_signed r cr (found b errs) = unpack_approval r cr errs (unpack b)

    pub examine :
        ApproverSetRevisionExport
        → ChangeRequestExport
        → ApprovalExport
        → List TrustErr
        → Option (Round Keyed)
    unfolding trusted_signed_data judge_signed
    examine r cr a errs = do s ← trusted_signed_data a errs; judge_signed r cr s

    -- The loop over the approvals of the change request.
    pub scan_approvals :
        ApproverSetRevisionExport
        → ChangeRequestExport
        → List ApprovalExport
        → List TrustErr
        → Option (Outcome Keyed)
    unfolding examine
    scan_approvals r cr [] errs = some (refused errs)
    scan_approvals r cr (a ∷ rest) errs = elim a.is_final_approval [
      | false ↦ scan_approvals r cr rest errs
      | true ↦ do
        s ← examine r cr a errs
        elim s [ returns o ↦ some o | goes_on errs' ↦ scan_approvals r cr rest errs' ]
    ]

    pub verify_revision : ApproverSetRevisionExport → Option (Outcome Keyed)
    unfolding scan_approvals
    verify_revision r =
        if r.id == 0
        then some (refused (no_current_revision ∷ []))
        else if r.change_request_id == 0
        then some (refused (no_change_request ∷ []))
        else elim (server.get_change_request r.change_request_id) [
          | none ↦ some (refused (fetch_failed ∷ []))
          | some cr ↦ scan_approvals r cr cr.approvals []
        ]

  module _ (anchors : List Entity) (j : Json Raw) (server : Server) where
    -- VerifyApproverSet.
    unfoldable pub verify_approver_set : ℕ → ApproverSetExportFull → Option (Outcome Keyed)
    unfolding verify_revision
    verify_approver_set zero s = none
    verify_approver_set (suc n) s =
        verify_revision anchors j server (verify_approver_set n) s.current_revision

    -- VerifyChangeRequest and GetVerifiedApprover.
    unfoldable pub verify_change_request : ℕ → ℕ → Option (Outcome Raw)
    unfolding verify_change_request_by verify_approver_set
    verify_change_request n = verify_change_request_by c anchors j server (verify_approver_set n)

    unfoldable pub get_verified_approver : ℕ → ℕ → ℕ → Option (Outcome ApproverExportFull)
    unfolding get_verified_approver_by verify_approver_set
    get_verified_approver n = get_verified_approver_by c anchors j server (verify_approver_set n)
