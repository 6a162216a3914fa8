-- ===== src/Client/Trust/Sets/Unsigned.antt =====
-- What VerifyApproverSet (client/client.go) does with an approver set that was approved by another
-- set and not by a trust anchor.
use go_registrar.Prelude.{◌≡◌, true, false, none, some, List, ◌∷◌, ◌==◌}
use go_registrar.Registrar.Model.{Attestation}
use go_registrar.Registrar.Signature.{Crypto}
use go_registrar.Registrar.Compare.Approvers.{ApproverSetRevisionExport, compare_approver_set}
use go_registrar.Client.Trust.{
  ApprovalExport, ChangeRequestExport, ApproverSetExportFull, Server, Json, is_approved,
  is_approver_set, is_signed_by,
}

module _ (c : Crypto) (anchors : List (c.Entity)) (j : Json (c.Raw)) (server : Server) where
  open c use {Block, Entity, Raw, decode, read_entity, check_detached, unmarshal}

  -- The revision has a change request whose first approval is final. Its signature is not by a trust
  -- anchor: whoever made it, its text approves that revision of the approver set. The set that was to
  -- sign can be fetched.
  pub record IsPresented (r : ApproverSetRevisionExport) (cr : ChangeRequestExport)
      (earlier : ApproverSetExportFull) : Type 0 where
    pub approval : ApprovalExport
    pub others : List ApprovalExport
    pub block : Block
    pub attestation : Attestation Raw
    pub signed : ApproverSetExportFull
    pub has_id : (r.id == 0) ≡ false
    pub has_request : (r.change_request_id == 0) ≡ false
    pub request : server.get_change_request r.change_request_id ≡ some cr
    pub approvals : cr.approvals ≡ approval ∷ others
    pub is_final : approval.is_final_approval ≡ true
    pub not_by_anchor : is_signed_by c anchors approval.signature ≡ none
    pub earlier_set :
        server.get_approver_set_at approval.approver_set_id approval.created_at ≡ some earlier
    pub signature_block : decode approval.signature ≡ some block
    pub unpacked : unmarshal block ≡ some attestation
    pub is_approval : is_approved attestation.action ≡ true
    pub of_set : is_approver_set attestation.object_type ≡ true
    pub names_set : j.unmarshal_approver_set attestation.export_rev ≡ some signed
    pub same : (compare_approver_set r signed.pending_revision).0 ≡ true
