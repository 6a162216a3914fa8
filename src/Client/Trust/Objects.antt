-- ===== src/Client/Trust/Objects.antt =====
-- GetVerifiedDomain, GetVerifiedContact, GetVerifiedHost and GetVerifiedApproverSet
-- (client/client.go).
use go_registrar.Prelude.{ℕ, ◌≡◌, Option, none, some, List, [], ◌∷◌}
use go_registrar.Prelude.Fuel.{◌>>=◌}
use go_registrar.Registrar.Signature.{Crypto}
use go_registrar.Registrar.Compare.{HostRevisionExport}
use go_registrar.Registrar.Compare.Approvers.{ApproverSetRevisionExport, compare_approver_set}
use go_registrar.Registrar.Compare.Hosts.{compare_host_export}
use go_registrar.Registrar.Compare.Domains.{DomainRevisionExport}
use go_registrar.Registrar.Compare.Domains.Exports.{compare_domain_export}
use go_registrar.Registrar.Compare.Contacts.{ContactRevisionExport, compare_contact_export}
use go_registrar.Client.Trust.{
  TrustErr, fetch_failed, ApproverSetExportFull, Outcome, refused, verified, Server, Json,
  get_verified, check_signed,
}
use go_registrar.Client.Trust.Sets.{verify_change_request}
use go_registrar.Client.Trust.Rooted.{IsVouched, get_verified-IsVouched}
use go_registrar.Client.Trust.Sets.Chain.{verify_change_request-Vouched}

-- DomainExport (lib/domain.go), ContactExport (lib/contact.go) and HostExport (lib/host.go): what is
-- verified of them, the revisions.
pub record DomainExport : Type 0 where
  pub current_revision : DomainRevisionExport
  pub pending_revision : DomainRevisionExport

pub record ContactExport : Type 0 where
  pub current_revision : ContactRevisionExport
  pub pending_revision : ContactRevisionExport

pub record HostExport : Type 0 where
  pub current_revision : HostRevisionExport
  pub pending_revision : HostRevisionExport

-- GetDomainAt, GetContactAt and GetHostAt; and json.Unmarshal.
pub record ObjectServer : Type 0 where
  pub get_domain_at : ℕ → ℕ → Option DomainExport
  pub get_contact_at : ℕ → ℕ → Option ContactExport
  pub get_host_at : ℕ → ℕ → Option HostExport

pub record ObjectJson (Raw : Type 0) : Type 0 where
  pub unmarshal_domain : Raw → Option DomainExport
  pub unmarshal_contact : Raw → Option ContactExport
  pub unmarshal_host : Raw → Option HostExport

abbrev pub pending_domain : {Raw : Type 0} → ObjectJson Raw → Raw → Option DomainRevisionExport
pending_domain j raw = elim (j.unmarshal_domain raw) [
  | none ↦ none
  | some x ↦ some x.pending_revision
]

abbrev pub pending_contact : {Raw : Type 0} → ObjectJson Raw → Raw → Option ContactRevisionExport
pending_contact j raw = elim (j.unmarshal_contact raw) [
  | none ↦ none
  | some x ↦ some x.pending_revision
]

abbrev pub pending_host : {Raw : Type 0} → ObjectJson Raw → Raw → Option HostRevisionExport
pending_host j raw = elim (j.unmarshal_host raw) [ none ↦ none | some x ↦ some x.pending_revision ]

abbrev pub pending_set : {Raw : Type 0} → Json Raw → Raw → Option ApproverSetRevisionExport
pending_set j raw = elim (j.unmarshal_approver_set raw) [
  | none ↦ none
  | some x ↦ some x.pending_revision
]

module _ (c : Crypto) (anchors : List (c.Entity)) (j : Json (c.Raw)) (server : Server)
    (k : ObjectJson (c.Raw)) (objects : ObjectServer) where
  unfoldable pub get_verified_domain : ℕ → ℕ → ℕ → Option (Outcome DomainExport)
  unfolding get_verified verify_change_request
  get_verified_domain n id t =
      get_verified (λ (x : DomainExport). x.current_revision) (pending_domain k)
        compare_domain_export (λ (r : DomainRevisionExport). r.id)
        (λ (r : DomainRevisionExport). r.change_request_id)
        (verify_change_request c anchors j server n) (objects.get_domain_at id t)

  unfoldable pub get_verified_contact : ℕ → ℕ → ℕ → Option (Outcome ContactExport)
  unfolding get_verified verify_change_request
  get_verified_contact n id t =
      get_verified (λ (x : ContactExport). x.current_revision) (pending_contact k)
        compare_contact_export (λ (r : ContactRevisionExport). r.id)
        (λ (r : ContactRevisionExport). r.change_request_id)
        (verify_change_request c anchors j server n) (objects.get_contact_at id t)

  unfoldable pub get_verified_host : ℕ → ℕ → ℕ → Option (Outcome HostExport)
  unfolding get_verified verify_change_request
  get_verified_host n id t =
      get_verified (λ (x : HostExport). x.current_revision) (pending_host k) compare_host_export
        (λ (r : HostRevisionExport). r.id) (λ (r : HostRevisionExport). r.change_request_id)
        (verify_change_request c anchors j server n) (objects.get_host_at id t)

  -- GetVerifiedApproverSet, which leaves the tests of the IDs to VerifyChangeRequest.
  unfoldable pub get_verified_approver_set : ℕ → ℕ → ℕ → Option (Outcome ApproverSetExportFull)
  unfolding check_signed verify_change_request
  get_verified_approver_set n id t = elim (server.get_approver_set_at id t) [
    | none ↦ some (refused (fetch_failed ∷ []))
    | some x ↦ do
      o ← verify_change_request c anchors j server n x.current_revision.change_request_id
      some (
          check_signed (λ (x : ApproverSetExportFull). x.current_revision) (pending_set j)
            compare_approver_set x o)
  ]

  -- A domain that is verified is the one that the server gave, and its current revision compares equal
  -- to one that was approved in its change request: by a trust anchor, or by keys of approvers who
  -- were approved so in their turn.
  pub get_verified_domain-IsVouched :
      (n id t : ℕ) (errs : List TrustErr) (d : DomainExport)
      → get_verified_domain n id t ≡ some (verified errs d)
      → (objects.get_domain_at id t ≡ some d)
        × IsVouched c anchors j server d.current_revision.change_request_id
            (pending_domain k)
            compare_domain_export
            d.current_revision
  unfolding get_verified_domain
  get_verified_domain-IsVouched n id t errs d h =
      get_verified-IsVouched c anchors j server (λ (x : DomainExport). x.current_revision)
        (pending_domain k) compare_domain_export (λ (r : DomainRevisionExport). r.id)
        (λ (r : DomainRevisionExport). r.change_request_id)
        (verify_change_request c anchors j server n) (objects.get_domain_at id t) errs d
        (verify_change_request-Vouched c anchors j server n) h
