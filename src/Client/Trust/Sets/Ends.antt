-- ===== src/Client/Trust/Sets/Ends.antt =====
-- When the functions that verify what the server says (client/client.go) come to an end: they call
-- one another for ever earlier times, if the server gives revisions that were approved before.
use go_registrar.Prelude.{
  ℕ, suc, zero, ◌≤◌, ◌<◌, ◌≡◌, refl, String, Bool, true, false, Option, none, some, List, [], ◌∷◌,
  arith, ◌==◌, All,
}
use go_registrar.Prelude.Fuel.{Ends, >>=-Ends, if-Ends, elim-Ends, test-Ends, some-Ends}
use go_registrar.Registrar.Model.{Attestation}
use go_registrar.Registrar.Signature.{Crypto}
use go_registrar.Registrar.Compare.Approvers.{
  ApproverExportShort, ApproverRevisionExport, ApproverSetRevisionExport, compare_approver,
  compare_approver_set,
}
use go_registrar.Client.Trust.{
  TrustErr, ApprovalExport, ChangeRequestExport, ApproverExportFull, ApproverSetExportFull, Outcome,
  Server, Json, is_approved, is_approver_set, is_signed_by, check_final, check_approvals,
  get_verified, pending_approver, get_verified_approver_by, verify_change_request_by,
}
use go_registrar.Client.Trust.Sets.{
  returns, goes_on, Signed, stopped, found, Keyed, unpack, add_approver, grab_approvers,
  grab_if_same, compare_set, unpack_approval, judge_signed, trusted_signed_data, examine,
  scan_approvals, verify_revision, verify_approver_set, verify_change_request,
  get_verified_approver,
}

-- What the server gives for a time was approved before: the change request of a set's revision and
-- its approvals, and the approvals of an approver's revision, were made earlier.
pub record IsChronological (server : Server) : Type 0 where
  pub of_sets :
      (id t : ℕ) (s : ApproverSetExportFull) (cr : ChangeRequestExport)
      → server.get_approver_set_at id t ≡ some s
      → server.get_change_request s.current_revision.change_request_id ≡ some cr
      → (cr.created_at < t) × All (λ a. a.created_at < t) cr.approvals
  pub of_approvers :
      (id t : ℕ) (x : ApproverExportFull) (cr : ChangeRequestExport)
      → server.get_approver_at id t ≡ some x
      → server.get_change_request x.current_revision.change_request_id ≡ some cr
      → All (λ a. a.created_at < t) cr.approvals

All-lt-le :
    (l : List ApprovalExport) (s t : ℕ)
    → s ≤ t
    → All (λ a. a.created_at < s) l
    → All (λ a. a.created_at < t) l
All-lt-le [] s t h k = tt
All-lt-le (a ∷ l) s t h (p, k) = (omega arith, All-lt-le l s t h k)

module _ (c : Crypto) (anchors : List (c.Entity)) (j : Json (c.Raw)) (server : Server)
    (chronological : IsChronological server) where
  open c use {Block, Entity, Raw, decode, read_entity, check_detached, unmarshal}

  module _ (vs : ApproverSetExportFull → Option (Outcome (Keyed c))) (t : ℕ)
      (ends : (id u : ℕ) (s : ApproverSetExportFull)
        → u < t
        → server.get_approver_set_at id u ≡ some s
        → Ends (vs s)) where
    check_final-Ends :
        (a : ApprovalExport) → a.created_at < t → Ends (check_final c anchors j server vs a)
    unfolding check_final
    check_final-Ends a h =
        elim-Ends (is_signed_by c anchors a.signature) _ _
          (λ n.
            elim-Ends (server.get_approver_set_at a.approver_set_id a.created_at) _ _
              (λ m. some-Ends _)
              (λ s m.
                >>=-Ends (vs s) _ (ends a.approver_set_id a.created_at s h m) (λ o. some-Ends _)))
          (λ b m. some-Ends _)

    check_approvals-Ends :
        (l : List ApprovalExport)
        → All (λ a. a.created_at < t) l
        → Ends (check_approvals c anchors j server vs l)
    unfolding check_approvals
    check_approvals-Ends [] h = some-Ends _
    check_approvals-Ends (a ∷ l) (h, k) =
        if-Ends a.is_final_approval _ _ (λ f. check_final-Ends a h) (λ f. check_approvals-Ends l k)

    verify_change_request_by-Ends :
        (id : ℕ)
        → ((cr : ChangeRequestExport)
            → server.get_change_request id ≡ some cr
            → All (λ a. a.created_at < t) cr.approvals)
        → Ends (verify_change_request_by c anchors j server vs id)
    unfolding verify_change_request_by
    verify_change_request_by-Ends id k =
        if-Ends (id == 0) _ _ (λ z. some-Ends _)
          (λ z.
            elim-Ends (server.get_change_request id) _ _ (λ n. some-Ends _)
              (λ cr m. check_approvals-Ends cr.approvals (k cr m)))

    get_verified-Ends :
        {X R : Type 0} (revision : X → R) (pending : Raw → Option R)
        (compare_export : R → R → Bool × List String) (id_of crid_of : R → ℕ)
        (verify : ℕ → Option (Outcome Raw)) (fetched : Option X)
        → ((x : X) → fetched ≡ some x → Ends (verify (crid_of (revision x))))
        → Ends (get_verified revision pending compare_export id_of crid_of verify fetched)
    unfolding get_verified
    get_verified-Ends revision pending compare_export id_of crid_of verify none k = some-Ends _
    get_verified-Ends revision pending compare_export id_of crid_of verify (some x) k =
        if-Ends (id_of (revision x) == 0) _ _ (λ z. some-Ends _)
          (λ z.
            if-Ends (crid_of (revision x) == 0) _ _ (λ w. some-Ends _)
              (λ w. >>=-Ends (verify (crid_of (revision x))) _ (k x refl) (λ o. some-Ends _)))

    get_verified_approver_by-Ends :
        (id u : ℕ) → u ≤ t → Ends (get_verified_approver_by c anchors j server vs id u)
    unfolding get_verified_approver_by
    get_verified_approver_by-Ends id u h =
        get_verified-Ends (λ (x : ApproverExportFull). x.current_revision) (pending_approver j)
          compare_approver (λ (r : ApproverRevisionExport). r.id)
          (λ (r : ApproverRevisionExport). r.change_request_id)
          (verify_change_request_by c anchors j server vs) (server.get_approver_at id u)
          (λ x m.
            verify_change_request_by-Ends x.current_revision.change_request_id
              (λ cr n. All-lt-le cr.approvals u t h (chronological.of_approvers id u x cr m n)))

    grab_approvers-Ends :
        (l : List ApproverExportShort) (u : ℕ) (v : Keyed c) (errs : List TrustErr)
        → u ≤ t
        → Ends (grab_approvers c anchors j server vs l u v errs)
    unfolding grab_approvers
    grab_approvers-Ends [] u v errs h = some-Ends _
    grab_approvers-Ends (p ∷ l) u v errs h =
        >>=-Ends (get_verified_approver_by c anchors j server vs p.approver_id u) _
          (get_verified_approver_by-Ends p.approver_id u h)
          (λ o. grab_approvers-Ends l u (add_approver c o v errs).0 (add_approver c o v errs).1 h)

    trusted_signed_data-Ends :
        (a : ApprovalExport) (errs : List TrustErr)
        → a.created_at < t
        → Ends (trusted_signed_data c anchors j server vs a errs)
    unfolding trusted_signed_data
    trusted_signed_data-Ends a errs h =
        elim-Ends (is_signed_by c anchors a.signature) _ _
          (λ n.
            elim-Ends (server.get_approver_set_at a.approver_set_id a.created_at) _ _
              (λ m. some-Ends _)
              (λ s m.
                >>=-Ends (vs s) _ (ends a.approver_set_id a.created_at s h m) (λ o. some-Ends _)))
          (λ b m. some-Ends _)

    module _ (r : ApproverSetRevisionExport) (cr : ChangeRequestExport)
        (created : cr.created_at < t) where
      grab_if_same-Ends :
          (errs : List TrustErr) (p : Bool × List String)
          → Ends (grab_if_same c anchors j server vs r cr errs p)
      unfolding grab_if_same
      grab_if_same-Ends errs (false, diff) = some-Ends _
      grab_if_same-Ends errs (true, diff) =
          >>=-Ends (grab_approvers c anchors j server vs r.approvers cr.created_at _ errs) _
            (grab_approvers-Ends r.approvers cr.created_at _ errs (omega arith)) (λ g. some-Ends _)

      compare_set-Ends :
          (errs : List TrustErr) (o : Option ApproverSetExportFull)
          → Ends (compare_set c anchors j server vs r cr errs o)
      unfolding compare_set
      compare_set-Ends errs none = some-Ends _
      compare_set-Ends errs (some s) =
          grab_if_same-Ends errs (compare_approver_set r s.pending_revision)

      unpack_approval-Ends :
          (errs : List TrustErr) (o : Option (Attestation Raw))
          → Ends (unpack_approval c anchors j server vs r cr errs o)
      unfolding unpack_approval
      unpack_approval-Ends errs none = some-Ends _
      unpack_approval-Ends errs (some att) =
          if-Ends (is_approved att.action) _ _
            (λ a.
              if-Ends (is_approver_set att.object_type) _ _
                (λ b.
                  >>=-Ends
                    (compare_set c anchors j server vs r cr errs
                      (j.unmarshal_approver_set att.export_rev))
                    _ (compare_set-Ends errs (j.unmarshal_approver_set att.export_rev))
                    (λ o. some-Ends _))
                (λ b. some-Ends _))
            (λ a. some-Ends _)

      judge_signed-Ends : (s : Signed Block) → Ends (judge_signed c anchors j server vs r cr s)
      unfolding judge_signed
      judge_signed-Ends (stopped errs) = some-Ends _
      judge_signed-Ends (found b errs) = unpack_approval-Ends errs (unpack c b)

      examine-Ends :
          (a : ApprovalExport) (errs : List TrustErr)
          → a.created_at < t
          → Ends (examine c anchors j server vs r cr a errs)
      unfolding examine
      examine-Ends a errs h =
          >>=-Ends (trusted_signed_data c anchors j server vs a errs) _
            (trusted_signed_data-Ends a errs h) judge_signed-Ends

      scan_approvals-Ends :
          (l : List ApprovalExport) (errs : List TrustErr)
          → All (λ a. a.created_at < t) l
          → Ends (scan_approvals c anchors j server vs r cr l errs)
      unfolding scan_approvals
      scan_approvals-Ends [] errs k = some-Ends _
      scan_approvals-Ends (a ∷ l) errs (h, k) =
          test-Ends a.is_final_approval _ _
            (λ f.
              >>=-Ends (examine c anchors j server vs r cr a errs) _ (examine-Ends a errs h)
                (elim [ returns o ↦ some-Ends _ | goes_on errs' ↦ scan_approvals-Ends l errs' k ]))
            (λ f. scan_approvals-Ends l errs k)

    verify_revision-Ends :
        (r : ApproverSetRevisionExport)
        → ((cr : ChangeRequestExport)
            → server.get_change_request r.change_request_id ≡ some cr
            → (cr.created_at < t) × All (λ a. a.created_at < t) cr.approvals)
        → Ends (verify_revision c anchors j server vs r)
    unfolding verify_revision
    verify_revision-Ends r k =
        if-Ends (r.id == 0) _ _ (λ z. some-Ends _)
          (λ z.
            if-Ends (r.change_request_id == 0) _ _ (λ w. some-Ends _)
              (λ w.
                elim-Ends (server.get_change_request r.change_request_id) _ _ (λ n. some-Ends _)
                  (λ cr m. scan_approvals-Ends r cr (k cr m).0 cr.approvals [] (k cr m).1)))

  -- VerifyApproverSet comes to an end on a set that the server gives for a time below the fuel.
  pub verify_approver_set-Ends :
      (n id t : ℕ) (s : ApproverSetExportFull)
      → t < n
      → server.get_approver_set_at id t ≡ some s
      → Ends (verify_approver_set c anchors j server n s)
  unfolding verify_approver_set
  verify_approver_set-Ends zero id t s h m = absurd (omega arith)
  verify_approver_set-Ends (suc n) id t s h m =
      verify_revision-Ends (verify_approver_set c anchors j server n) t
        (λ id' u s' h' m'. verify_approver_set-Ends n id' u s' (omega arith) m') s.current_revision
        (λ cr q. chronological.of_sets id t s cr m q)

  -- VerifyChangeRequest comes to an end, whatever the server gives, if it is chronological: the time
  -- of the last approval of the change request is more calls than are made within one another.
  pub verify_change_request-Ends :
      (n id : ℕ)
      → ((cr : ChangeRequestExport)
          → server.get_change_request id ≡ some cr
          → All (λ a. a.created_at < n) cr.approvals)
      → Ends (verify_change_request c anchors j server n id)
  unfolding verify_change_request
  verify_change_request-Ends n id k =
      verify_change_request_by-Ends (verify_approver_set c anchors j server n) n
        (λ id' u s h m. verify_approver_set-Ends n id' u s h m) id k

  pub get_verified_approver-Ends :
      (n id t : ℕ) → t ≤ n → Ends (get_verified_approver c anchors j server n id t)
  unfolding get_verified_approver
  get_verified_approver-Ends n id t h =
      get_verified_approver_by-Ends (verify_approver_set c anchors j server n) n
        (λ id' u s h' m. verify_approver_set-Ends n id' u s h' m) id t h
