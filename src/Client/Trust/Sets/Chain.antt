-- ===== src/Client/Trust/Sets/Chain.antt =====
-- The chain of signatures behind an approver set that VerifyApproverSet (client/client.go) accepts,
-- and behind all that rests on it.
use go_registrar.Prelude.{
  ℕ, suc, zero, ◌≡◌, ◌∙◌, refl, ap, String, Bool, true, false, Option, none, some, List, [], ◌∷◌,
  arith, inl, inr, Bool-cases, Option-cases, ◌==◌,
}
use mathlib.Core.Path.{subst}
use go_registrar.Prelude.Fuel.{◌>>=◌, >>=-eq-some}
use go_registrar.Registrar.Model.{Attestation}
use go_registrar.Registrar.Signature.{Crypto}
use go_registrar.Registrar.Compare.Approvers.{
  ApproverExportShort, ApproverRevisionExport, ApproverSetRevisionExport, compare_approver,
  compare_approver_set,
}
use go_registrar.Client.Trust.{
  TrustErr, ApprovalExport, ChangeRequestExport, ApproverExportFull, ApproverSetExportFull, Outcome,
  refused, verified, Server, Json, is_approved, is_approver_set, add_verified_approver,
  pending_approver, get_verified_approver_by, verify_change_request_by,
}
use go_registrar.Client.Trust.Sets.{
  returns, goes_on, Signed, stopped, found, Keyed, unpack, add_approver, grab_approvers, grab,
  has_verified_approvers, grab_if_same, compare_set, unpack_approval, judge_signed,
  trusted_signed_data, examine, scan_approvals, verify_revision, verify_approver_set,
  verify_change_request, get_verified_approver,
}
use go_registrar.Client.Trust.Rooted.{
  Vouched, AllVouched, no_keys, and_key, IsVouched, SetSound, get_verified-IsVouched,
  verify_change_request_by-Vouched,
}

module _ (c : Crypto) (anchors : List (c.Entity)) (j : Json (c.Raw)) (server : Server) where
  open c use {Block, Entity, Raw, decode, read_entity, check_detached, unmarshal}

  abbrev Sound : List Entity → Type 0
  Sound keys = AllVouched c anchors j server keys

  abbrev IsApproved : ApproverExportFull → Type 0
  IsApproved x =
      IsVouched c anchors j server x.current_revision.change_request_id (pending_approver j)
        compare_approver x.current_revision

  add_verified_approver-Sound :
      (x : ApproverExportFull) (v : Keyed c)
      → IsApproved x
      → Sound v.keys
      → Sound (add_verified_approver c x v).0.keys
  unfolding add_verified_approver
  add_verified_approver-Sound x v i h =
      elim (Option-cases (read_entity x.current_revision.public_key)) [
        | inl n ↦ rw (n, add_verified_approver) h
        | inr (k, m) ↦
            rw (m, add_verified_approver)
              (and_key x.current_revision i.signed i.raw i.vouched i.unmarshalled i.same m h)
      ]

  add_approver-Sound :
      (o : Outcome ApproverExportFull) (v : Keyed c) (errs : List TrustErr)
      → ((e : List TrustErr) (x : ApproverExportFull) → o ≡ verified e x → IsApproved x)
      → Sound v.keys
      → Sound (add_approver c o v errs).0.keys
  add_approver-Sound (refused e) v errs i h = h
  add_approver-Sound (verified e x) v errs i h = add_verified_approver-Sound x v (i e x refl) h

  verified-set :
      (g : Keyed c × List TrustErr) {e : List TrustErr} {v : Keyed c}
      → has_verified_approvers c g ≡ verified e v
      → g.0 ≡ v
  verified-set (u, errs) h = ground arith

  module _ (vs : ApproverSetExportFull → Option (Outcome (Keyed c)))
      (sound : SetSound c anchors j server vs) where
    get_verified_approver_by-IsApproved :
        (id t : ℕ) (e : List TrustErr) (x : ApproverExportFull)
        → get_verified_approver_by c anchors j server vs id t ≡ some (verified e x)
        → (server.get_approver_at id t ≡ some x) × IsApproved x
    unfolding get_verified_approver_by
    get_verified_approver_by-IsApproved id t e x h =
        get_verified-IsVouched c anchors j server (λ (x : ApproverExportFull). x.current_revision)
          (pending_approver j) compare_approver (λ (r : ApproverRevisionExport). r.id)
          (λ (r : ApproverRevisionExport). r.change_request_id)
          (verify_change_request_by c anchors j server vs) (server.get_approver_at id t) e x
          (verify_change_request_by-Vouched c anchors j server vs sound) h

    grab_approvers-Sound :
        (l : List ApproverExportShort) (t : ℕ) (v : Keyed c) (errs : List TrustErr)
        {g : Keyed c × List TrustErr}
        → Sound v.keys
        → grab_approvers c anchors j server vs l t v errs ≡ some g
        → Sound g.0.keys
    unfolding grab_approvers
    grab_approvers-Sound [] t v errs {g} h e =
        let q : (v, errs) ≡ g = cc in subst (λ u. Sound u.0.keys) q h
    grab_approvers-Sound (p ∷ l) t v errs {g} h e =
        let (o, w, q) =
          >>=-eq-some (get_verified_approver_by c anchors j server vs p.approver_id t)
            (λ o.
              grab_approvers c anchors j server vs l t (add_approver c o v errs).0
                (add_approver c o v errs).1)
            e in
        grab_approvers-Sound l t (add_approver c o v errs).0 (add_approver c o v errs).1
          (add_approver-Sound o v errs
            (λ e x m. (get_verified_approver_by-IsApproved p.approver_id t e x (w ∙ ap some m)).1)
            h)
          q

    -- The ways to return a verified set.
    grab-Sound :
        (r : ApproverSetRevisionExport) (cr : ChangeRequestExport) (errs : List TrustErr)
        {e : List TrustErr} {v : Keyed c}
        → grab c anchors j server vs r cr errs ≡ some (verified e v)
        → Sound v.keys
    unfolding grab
    grab-Sound r cr errs {e} {v} h =
        let start : Keyed c = record { revision = r; verified_approvers = []; keys = [] } in
        let (g, w, q) =
          >>=-eq-some (grab_approvers c anchors j server vs r.approvers cr.created_at start errs)
            (λ g. some (has_verified_approvers c g)) h in
        subst (λ u. Sound u.keys) (verified-set g {e = e} {v = v} (cc q))
          (grab_approvers-Sound r.approvers cr.created_at start errs no_keys w)

    if_same :
        (r : ApproverSetRevisionExport) (cr : ChangeRequestExport) (errs : List TrustErr)
        (p : Bool × List String) {e : List TrustErr} {v : Keyed c}
        → grab_if_same c anchors j server vs r cr errs p ≡ some (verified e v)
        → Sound v.keys
    unfolding grab_if_same
    if_same r cr errs (true, diff) h = grab-Sound r cr errs h
    if_same r cr errs (false, diff) h = cc

    compare_set-Sound :
        (r : ApproverSetRevisionExport) (cr : ChangeRequestExport) (errs : List TrustErr)
        (o : Option ApproverSetExportFull) {e : List TrustErr} {v : Keyed c}
        → compare_set c anchors j server vs r cr errs o ≡ some (verified e v)
        → Sound v.keys
    unfolding compare_set
    compare_set-Sound r cr errs none h = cc
    compare_set-Sound r cr errs (some s) h =
        if_same r cr errs (compare_approver_set r s.pending_revision) h

    -- A round of the loop that returns.
    unpack_approval-Sound :
        (r : ApproverSetRevisionExport) (cr : ChangeRequestExport) (errs : List TrustErr)
        (o : Option (Attestation Raw)) {e : List TrustErr} {v : Keyed c}
        → unpack_approval c anchors j server vs r cr errs o ≡ some (returns (verified e v))
        → Sound v.keys
    unfolding unpack_approval
    unpack_approval-Sound r cr errs none h = cc
    unpack_approval-Sound r cr errs (some att) {e} {v} h =
        elim (Bool-cases (is_approved att.action)) [
          | inr n ↦ absurd (ground arith)
          | inl a ↦ elim (Bool-cases (is_approver_set att.object_type)) [
            | inr n ↦ absurd (ground arith)
            | inl t ↦
                let o =
                  compare_set c anchors j server vs r cr errs
                    (j.unmarshal_approver_set att.export_rev) in
                let bound : (o >>= λ o. some (returns o)) ≡ some (returns (verified e v)) =
                  ground arith in
                let (u, w, q) = >>=-eq-some o (λ o. some (returns o)) bound in
                compare_set-Sound r cr errs (j.unmarshal_approver_set att.export_rev) {e = e}
                  {v = v} (w ∙ cc q)
          ]
        ]

    judge_signed-Sound :
        (r : ApproverSetRevisionExport) (cr : ChangeRequestExport) (s : Signed Block)
        {e : List TrustErr} {v : Keyed c}
        → judge_signed c anchors j server vs r cr s ≡ some (returns (verified e v))
        → Sound v.keys
    unfolding judge_signed
    judge_signed-Sound r cr (stopped errs) h = cc
    judge_signed-Sound r cr (found b errs) h = unpack_approval-Sound r cr errs (unpack c b) h

    examine-Sound :
        (r : ApproverSetRevisionExport) (cr : ChangeRequestExport) (a : ApprovalExport)
        (errs : List TrustErr) {e : List TrustErr} {v : Keyed c}
        → examine c anchors j server vs r cr a errs ≡ some (returns (verified e v))
        → Sound v.keys
    unfolding examine
    examine-Sound r cr a errs h =
        let (s, w, q) =
          >>=-eq-some (trusted_signed_data c anchors j server vs a errs)
            (judge_signed c anchors j server vs r cr) h in
        judge_signed-Sound r cr s q

    scan_approvals-Sound :
        (r : ApproverSetRevisionExport) (cr : ChangeRequestExport) (l : List ApprovalExport)
        (errs : List TrustErr) {e : List TrustErr} {v : Keyed c}
        → scan_approvals c anchors j server vs r cr l errs ≡ some (verified e v)
        → Sound v.keys
    unfolding scan_approvals
    scan_approvals-Sound r cr [] errs h = cc
    scan_approvals-Sound r cr (a ∷ l) errs {e} {v} h = elim (Bool-cases a.is_final_approval) [
      | inr n ↦ scan_approvals-Sound r cr l errs {e = e} {v = v} (ground arith)
      | inl f ↦ elim (Option-cases (examine c anchors j server vs r cr a errs)) [
        | inl n ↦ absurd (ground arith)
        | inr (returns o, m) ↦
            let q : o ≡ verified e v = ground arith in
            examine-Sound r cr a errs {e = e} {v = v} (m ∙ ap (λ u. some (returns u)) q)
        | inr (goes_on errs', m) ↦ scan_approvals-Sound r cr l errs' {e = e} {v = v} (ground arith)
      ]
    ]

    verify_revision-Sound :
        (r : ApproverSetRevisionExport) {e : List TrustErr} {v : Keyed c}
        → verify_revision c anchors j server vs r ≡ some (verified e v)
        → Sound v.keys
    unfolding verify_revision
    verify_revision-Sound r {e} {v} h = elim (Bool-cases (r.id == 0)) [
      | inl z ↦ absurd (ground arith)
      | inr z ↦ elim (Bool-cases (r.change_request_id == 0)) [
        | inl w ↦ absurd (ground arith)
        | inr w ↦ elim (Option-cases (server.get_change_request r.change_request_id)) [
          | inl n ↦ absurd (ground arith)
          | inr (cr, m) ↦ scan_approvals-Sound r cr cr.approvals [] {e = e} {v = v} (ground arith)
        ]
      ]
    ]

  -- Each key of a set that VerifyApproverSet gives back as verified is the public key of an approver
  -- whose revision was approved, with a chain of such signatures that begins at the trust anchors.
  pub verify_approver_set-AllVouched :
      (n : ℕ) → SetSound c anchors j server (verify_approver_set c anchors j server n)
  unfolding verify_approver_set
  verify_approver_set-AllVouched zero s e v h = cc
  verify_approver_set-AllVouched (suc n) s e v h =
      verify_revision-Sound (verify_approver_set c anchors j server n)
        (verify_approver_set-AllVouched n) s.current_revision h

  -- A change request that VerifyChangeRequest verifies has a final approval whose signature approves
  -- the object, by a trust anchor or by keys with such a chain.
  pub verify_change_request-Vouched :
      (n id : ℕ) (errs : List TrustErr) (raw : Raw)
      → verify_change_request c anchors j server n id ≡ some (verified errs raw)
      → Vouched c anchors j server id raw
  unfolding verify_change_request
  verify_change_request-Vouched n =
      verify_change_request_by-Vouched c anchors j server (verify_approver_set c anchors j server n)
        (verify_approver_set-AllVouched n)

  pub get_verified_approver-IsVouched :
      (n id t : ℕ) (errs : List TrustErr) (x : ApproverExportFull)
      → get_verified_approver c anchors j server n id t ≡ some (verified errs x)
      → (server.get_approver_at id t ≡ some x) × IsApproved x
  unfolding get_verified_approver
  get_verified_approver-IsVouched n =
      get_verified_approver_by-IsApproved (verify_approver_set c anchors j server n)
        (verify_approver_set-AllVouched n)
