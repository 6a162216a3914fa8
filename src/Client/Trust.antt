-- ===== src/Client/Trust.antt =====
-- The verification of what the server says (client/client.go): VerifyChangeRequest,
-- VerifyApproverSet and GetVerifiedApprover, with IsSignedBy (client/trust_anchor.go) and
-- AddVerifiedApprover (lib/approversetrevision.go). What the server and the cache give is the record
-- `Server`, OpenPGP and JSON are the records `Crypto` and `Json`.
pub mod Sets
pub mod Rooted
pub mod Objects
use go_registrar.Prelude.{
  ℕ, zero, suc, String, Bool, true, false, Option, none, some, List, [], ◌∷◌, ◌++◌, ◌==◌, map,
  if◌then◌else◌,
}
use go_registrar.Prelude.Fuel.{◌>>=◌}
use go_registrar.Registrar.Model.{
  Action, action_approved, ObjectType, approver_set_type, Attestation,
}
use go_registrar.Registrar.Signature.{Crypto}
use go_registrar.Registrar.Compare.Approvers.{
  ApproverExportShort, ApproverRevisionExport, ApproverSetRevisionExport, compare_approver,
  compare_approver_set,
}

pub data TrustErr : Type 0 where
  fetch_failed no_current_revision no_change_request invalid_change_request bad_json : TrustErr
  not_approved set_not_verified not_signed no_signature_found approver_not_verified : TrustErr
  bad_key no_verified_approvers : TrustErr
  differs : String → TrustErr

-- ApprovalExport (lib/approval.go). A time is its Unix time.
pub record ApprovalExport : Type 0 where
  pub is_final_approval : Bool
  pub approver_set_id : ℕ
  pub signature : List ℕ
  pub created_at : ℕ

-- ChangeRequestExport (lib/changerequest.go).
pub record ChangeRequestExport : Type 0 where
  pub approvals : List ApprovalExport
  pub created_at : ℕ

-- ApproverExportFull (lib/approver.go) and ApproverSetExportFull (lib/approverset.go). An ID that is
-- not positive is 0.
pub record ApproverExportFull : Type 0 where
  pub current_revision : ApproverRevisionExport
  pub pending_revision : ApproverRevisionExport

pub record ApproverSetExportFull : Type 0 where
  pub current_revision : ApproverSetRevisionExport
  pub pending_revision : ApproverSetRevisionExport

-- A revision of an approver set with the fields of it that are not in the JSON.
pub record VerifiedRevision (Entity : Type 0) : Type 0 where
  pub revision : ApproverSetRevisionExport
  pub verified_approvers : List ApproverExportFull
  pub keys : List Entity

-- The verified object, or that there is none, with the errors.
pub data Outcome (A : Type 0) : Type 0 where
  refused : List TrustErr → Outcome A
  verified : List TrustErr → A → Outcome A

abbrev pub errors_of : {A : Type 0} → Outcome A → List TrustErr
errors_of (refused errs) = errs
errors_of (verified errs a) = errs

-- GetChangeRequest, GetApproverSetAt and GetApproverAt; `none` is one or more errors.
pub record Server : Type 0 where
  pub get_change_request : ℕ → Option ChangeRequestExport
  pub get_approver_set_at : ℕ → ℕ → Option ApproverSetExportFull
  pub get_approver_at : ℕ → ℕ → Option ApproverExportFull

-- json.Unmarshal of the object in an attestation.
pub record Json (Raw : Type 0) : Type 0 where
  pub unmarshal_approver : Raw → Option ApproverExportFull
  pub unmarshal_approver_set : Raw → Option ApproverSetExportFull

abbrev pub pending_approver : {Raw : Type 0} → Json Raw → Raw → Option ApproverRevisionExport
pending_approver j raw = elim (j.unmarshal_approver raw) [
  | none ↦ none
  | some x ↦ some x.pending_revision
]

abbrev pub is_approved : Action → Bool
is_approved action_approved = true
is_approved _ = false

abbrev pub is_approver_set : ObjectType → Bool
is_approver_set approver_set_type = true
is_approver_set _ = false

-- What comes of a comparison.
abbrev pub passed : {X : Type 0} → X → Bool × List String → Outcome X
passed x (true, diff) = verified [] x
passed x (false, diff) = refused (map differs diff)

-- What GetVerifiedDomain and its like do with an object that was fetched: `id_of` and `crid_of` are
-- the IDs of its current revision and of its change request, `pending` the pending revision of the
-- signed object, and `verify` is VerifyChangeRequest.
module _ {X R Raw : Type 0} (revision : X → R) (pending : Raw → Option R)
    (compare_export : R → R → Bool × List String) where
  pub compare_signed : X → Option R → Outcome X
  compare_signed x none = refused (bad_json ∷ [])
  compare_signed x (some r) = passed x (compare_export (revision x) r)

  pub check_signed : X → Outcome Raw → Outcome X
  unfolding compare_signed
  check_signed x (refused errs) = refused errs
  check_signed x (verified errs raw) = compare_signed x (pending raw)

  module _ (id_of crid_of : R → ℕ) (verify : ℕ → Option (Outcome Raw)) where
    unfoldable pub get_verified : Option X → Option (Outcome X)
    unfolding check_signed
    get_verified none = some (refused (fetch_failed ∷ []))
    get_verified (some x) =
        if id_of (revision x) == 0
        then some (refused (no_current_revision ∷ []))
        else if crid_of (revision x) == 0
        then some (refused (no_change_request ∷ []))
        else (do o ← verify (crid_of (revision x)); some (check_signed x o))

module _ (c : Crypto) where
  open c use {Block, Entity, Raw, decode, read_entity, check_detached, unmarshal}

  -- IsSignedBy of trust anchors and of revisions of approver sets: the signed text.
  unfoldable pub is_signed_by : List Entity → List ℕ → Option Block
  is_signed_by keys sig = elim (decode sig) [
    | none ↦ none
    | some b ↦ if check_detached keys b then some b else none
  ]

  -- AddVerifiedApprover.
  unfoldable pub add_verified_approver :
      ApproverExportFull → VerifiedRevision Entity → VerifiedRevision Entity × List TrustErr
  add_verified_approver x v =
      let v' = record v { verified_approvers = v.verified_approvers ++ (x ∷ []) } in
      elim (read_entity x.current_revision.public_key) [
        | none ↦ (v', bad_key ∷ [])
        | some k ↦ (record v' { keys = v.keys ++ (k ∷ []) }, [])
      ]

  -- The test of a signed attestation in VerifyChangeRequest.
  unfoldable pub judge : Option (Attestation Raw) → Outcome Raw
  judge none = refused (bad_json ∷ [])
  judge (some att) =
      if is_approved att.action then verified [] att.export_rev else refused (not_approved ∷ [])

  -- VerifyChangeRequest behind VerifyApproverSet.
  pub check_by_set : List ℕ → Outcome (VerifiedRevision Entity) → Outcome Raw
  unfolding is_signed_by judge
  check_by_set sig (refused []) = refused (set_not_verified ∷ [])
  check_by_set sig (refused (e ∷ errs)) = refused (e ∷ errs)
  check_by_set sig (verified (e ∷ errs) v) = refused (e ∷ errs)
  check_by_set sig (verified [] v) = elim (is_signed_by v.keys sig) [
    | none ↦ refused (not_signed ∷ [])
    | some b ↦ judge (unmarshal b)
  ]

  module _ (anchors : List Entity) (j : Json Raw) (server : Server)
      (verify_set : ApproverSetExportFull → Option (Outcome (VerifiedRevision Entity))) where
    pub check_final : ApprovalExport → Option (Outcome Raw)
    unfolding is_signed_by judge check_by_set
    check_final a = elim (is_signed_by anchors a.signature) [
      | some b ↦ some (judge (unmarshal b))
      | none ↦ elim (server.get_approver_set_at a.approver_set_id a.created_at) [
        | none ↦ some (refused (fetch_failed ∷ []))
        | some s ↦ do o ← verify_set s; some (check_by_set a.signature o)
      ]
    ]

    -- The loop of VerifyChangeRequest, which returns at the first final approval.
    pub check_approvals : List ApprovalExport → Option (Outcome Raw)
    unfolding check_final
    check_approvals [] = some (refused [])
    check_approvals (a ∷ rest) = if a.is_final_approval then check_final a else check_approvals rest

    unfoldable pub verify_change_request_by : ℕ → Option (Outcome Raw)
    unfolding check_approvals
    verify_change_request_by id =
        if id == 0
        then some (refused (invalid_change_request ∷ []))
        else elim (server.get_change_request id) [
          | none ↦ some (refused (fetch_failed ∷ []))
          | some cr ↦ check_approvals cr.approvals
        ]

    -- GetVerifiedApprover.
    unfoldable pub get_verified_approver_by : ℕ → ℕ → Option (Outcome ApproverExportFull)
    unfolding get_verified verify_change_request_by
    get_verified_approver_by id t =
        get_verified (λ (x : ApproverExportFull). x.current_revision) (pending_approver j)
          compare_approver (λ (r : ApproverRevisionExport). r.id)
          (λ (r : ApproverRevisionExport). r.change_request_id) verify_change_request_by
          (server.get_approver_at id t)
