-- ===== src/Client/Trust/Rooted.antt =====
-- What stands behind an object that the client (client/client.go) takes as verified: signatures from
-- the trust anchors to it.
use go_registrar.Prelude.{
  ℕ, ◌≡◌, ◌∙◌, refl, ap, String, Bool, true, false, Option, none, some, List, [], ◌∷◌, ◌++◌, arith,
  Any, inl, inr, Bool-cases, Option-cases, ◌==◌,
}
use mathlib.Core.Path.{subst}
use go_registrar.Prelude.Fuel.{◌>>=◌, >>=-eq-some}
use go_registrar.Registrar.Model.{
  Action, action_none, action_approved, action_declined, action_other, Attestation,
}
use go_registrar.Registrar.Signature.{Crypto}
use go_registrar.Registrar.Compare.Approvers.{ApproverRevisionExport, compare_approver}
use go_registrar.Client.Trust.{
  TrustErr, ApprovalExport, ChangeRequestExport, ApproverSetExportFull, Outcome, refused, verified,
  Server, Json, is_approved, is_signed_by, judge, check_by_set, check_final, check_approvals,
  verify_change_request_by, get_verified, check_signed, compare_signed, passed, pending_approver,
}
use go_registrar.Client.Trust.Sets.{Keyed}

module _ (c : Crypto) (anchors : List (c.Entity)) (j : Json (c.Raw)) (server : Server) where
  open c use {Block, Entity, Raw, decode, read_entity, check_detached, unmarshal}

  -- A final approval of the change request has the block as its signature.
  abbrev pub IsFinalOf : ChangeRequestExport → Block → Type 0
  IsFinalOf cr b =
      Any (λ a. (a.is_final_approval ≡ true) × (decode a.signature ≡ some b)) cr.approvals

  -- The block is a signature by one of the keys, and its text approves the object `raw`.
  pub record Approves (keys : List Entity) (b : Block) (raw : Raw) : Type 0 where
    pub attestation : Attestation Raw
    pub checked : check_detached keys b ≡ true
    pub unpacked : unmarshal b ≡ some attestation
    pub is_approval : attestation.action ≡ action_approved
    pub approves : attestation.export_rev ≡ raw

  mutual
    -- The object was approved in the change request: a final approval of it is signed by a trust
    -- anchor, or by keys that are each vouched for.
    pub data Vouched : ℕ → Raw → Type 0 where
      by_anchor :
          {id : ℕ} {raw : Raw} (cr : ChangeRequestExport) (b : Block)
          → server.get_change_request id ≡ some cr
          → IsFinalOf cr b
          → Approves anchors b raw
          → Vouched id raw
      by_approvers :
          {id : ℕ} {raw : Raw} (cr : ChangeRequestExport) (b : Block) (keys : List Entity)
          → server.get_change_request id ≡ some cr
          → IsFinalOf cr b
          → AllVouched keys
          → Approves keys b raw
          → Vouched id raw

    -- Each key is the public key of an approver whose revision was approved in its change request.
    pub data AllVouched : List Entity → Type 0 where
      no_keys : AllVouched []
      and_key :
          {keys : List Entity} {k : Entity} (r signed : ApproverRevisionExport) (raw : Raw)
          → Vouched r.change_request_id raw
          → pending_approver j raw ≡ some signed
          → (compare_approver r signed).0 ≡ true
          → read_entity r.public_key ≡ some k
          → AllVouched keys
          → AllVouched (keys ++ (k ∷ []))

  -- What a verified object comes with: the object that was approved is the one that is used.
  pub record IsVouched {R : Type 0} (crid : ℕ) (pending : Raw → Option R)
      (compare_export : R → R → Bool × List String) (r : R) : Type 0 where
    pub raw : Raw
    pub signed : R
    pub vouched : Vouched crid raw
    pub unmarshalled : pending raw ≡ some signed
    pub same : (compare_export r signed).0 ≡ true

  abbrev pub SetSound : (ApproverSetExportFull → Option (Outcome (Keyed c))) → Type 0
  SetSound f =
      (s : ApproverSetExportFull) (errs : List TrustErr) (v : Keyed c)
      → f s ≡ some (verified errs v)
      → AllVouched v.keys

  is_approved-eq : (a : Action) → is_approved a ≡ true → a ≡ action_approved
  is_approved-eq action_approved h = refl
  is_approved-eq action_none h = cc
  is_approved-eq action_declined h = cc
  is_approved-eq (action_other n) h = cc

  judge-approved :
      (o : Option (Attestation Raw)) {errs : List TrustErr} {raw : Raw}
      → judge c o ≡ verified errs raw
      → (att : Attestation Raw) × (o ≡ some att)
        × (att.action ≡ action_approved)
        × (att.export_rev ≡ raw)
  unfolding judge
  judge-approved none e = cc
  judge-approved (some att) e = elim (Bool-cases (is_approved att.action)) [
    | inl h ↦ (att, refl, is_approved-eq att.action h, ground arith)
    | inr h ↦ absurd (ground arith)
  ]

  judge-Approves :
      (keys : List Entity) (b : Block) {errs : List TrustErr} {raw : Raw}
      → check_detached keys b ≡ true
      → judge c (unmarshal b) ≡ verified errs raw
      → Approves keys b raw
  judge-Approves keys b h e =
      let (att, m, a, r) = judge-approved (unmarshal b) e in
      record { attestation = att; checked = h; unpacked = m; is_approval = a; approves = r }

  -- What IsSignedBy gives.
  is_signed_by-some :
      (keys : List Entity) (sig : List ℕ) {b : Block}
      → is_signed_by c keys sig ≡ some b
      → (decode sig ≡ some b) × (check_detached keys b ≡ true)
  unfolding is_signed_by
  is_signed_by-some keys sig e = ground arith

  passed-same :
      {X : Type 0} (x : X) (p : Bool × List String) {errs : List TrustErr} {y : X}
      → passed x p ≡ verified errs y
      → (p.0 ≡ true) × (x ≡ y)
  passed-same x (true, diff) e = (refl, cc)
  passed-same x (false, diff) e = cc

  module _ {X R : Type 0} (revision : X → R) (pending : Raw → Option R)
      (compare_export : R → R → Bool × List String) (id_of crid_of : R → ℕ) where
    compare_signed-same :
        (x : X) (o : Option R) {errs : List TrustErr} {y : X}
        → compare_signed revision pending compare_export x o ≡ verified errs y
        → (r : R) × (o ≡ some r) × ((compare_export (revision x) r).0 ≡ true) × (x ≡ y)
    unfolding compare_signed
    compare_signed-same x none e = cc
    compare_signed-same x (some r) e =
        let (s, q) = passed-same x (compare_export (revision x) r) e in (r, refl, s, q)

    check_signed-IsVouched :
        (x : X) (o : Outcome Raw) {errs : List TrustErr} {y : X}
        → ((errs' : List TrustErr) (raw : Raw)
            → o ≡ verified errs' raw
            → Vouched (crid_of (revision x)) raw)
        → check_signed revision pending compare_export x o ≡ verified errs y
        → (x ≡ y) × IsVouched (crid_of (revision x)) pending compare_export (revision x)
    unfolding check_signed
    check_signed-IsVouched x (refused e) k h = cc
    check_signed-IsVouched x (verified e raw) k h =
        let (r, m, s, q) = compare_signed-same x (pending raw) h in
        (q, record { raw = raw; signed = r; vouched = k e raw refl; unmarshalled = m; same = s })

    -- The current revision of an object that is verified was approved.
    pub get_verified-IsVouched :
        (verify : ℕ → Option (Outcome Raw)) (fetched : Option X) (errs : List TrustErr) (y : X)
        → ((id : ℕ) (errs' : List TrustErr) (raw : Raw)
            → verify id ≡ some (verified errs' raw)
            → Vouched id raw)
        → get_verified revision pending compare_export id_of crid_of verify fetched
          ≡ some (verified errs y)
        → (fetched ≡ some y) × IsVouched (crid_of (revision y)) pending compare_export (revision y)
    unfolding get_verified
    get_verified-IsVouched verify none errs y k h = cc
    get_verified-IsVouched verify (some x) errs y k h =
        let crid = crid_of (revision x) in
        elim (Bool-cases (id_of (revision x) == 0)) [
          | inl z ↦ absurd (ground arith)
          | inr z ↦ elim (Bool-cases (crid == 0)) [
            | inl w ↦ absurd (ground arith)
            | inr w ↦
                let bound : (verify crid >>= λ o.
                some (check_signed revision pending compare_export x o))
                    ≡ some (verified errs y) =
                  ground arith in
                let (o, v, q) =
                  >>=-eq-some (verify crid)
                    (λ o. some (check_signed revision pending compare_export x o)) bound in
                let (same, i) =
                  check_signed-IsVouched x o {errs = errs} {y = y}
                    (λ errs' raw m. k crid errs' raw (v ∙ ap some m)) (cc q) in
                (
                  ap some same,
                  subst (λ u. IsVouched (crid_of (revision u)) pending compare_export (revision u))
                      same i,
                )
          ]
        ]

  module _ (vs : ApproverSetExportFull → Option (Outcome (Keyed c))) (sound : SetSound vs) where
    by_set-Approves :
        (sig : List ℕ) (o : Outcome (Keyed c)) {errs : List TrustErr} {raw : Raw}
        → check_by_set c sig o ≡ verified errs raw
        → (v : Keyed c) × (b : Block) × (o ≡ verified [] v)
          × (decode sig ≡ some b)
          × Approves v.keys b raw
    unfolding check_by_set
    by_set-Approves sig (refused []) e = cc
    by_set-Approves sig (refused (x ∷ l)) e = cc
    by_set-Approves sig (verified (x ∷ l) v) e = cc
    by_set-Approves sig (verified [] v) {errs} {raw} e =
        elim (Option-cases (is_signed_by c v.keys sig)) [
          | inl n ↦ absurd (ground arith)
          | inr (b, m) ↦
              let judged : judge c (unmarshal b) ≡ verified errs raw = ground arith in
              let (d, h) = is_signed_by-some v.keys sig m in
              (v, b, refl, d, judge-Approves v.keys b h judged)
        ]

    module _ {id : ℕ} (cr : ChangeRequestExport)
        (got : server.get_change_request id ≡ some cr) where
      check_final-Vouched :
          (a : ApprovalExport) {errs : List TrustErr} {raw : Raw}
          → ((b : Block) → decode a.signature ≡ some b → IsFinalOf cr b)
          → check_final c anchors j server vs a ≡ some (verified errs raw)
          → Vouched id raw
      unfolding check_final
      check_final-Vouched a {errs} {raw} fin e =
          elim (Option-cases (is_signed_by c anchors a.signature)) [
            | inr (b, m) ↦
                let judged : judge c (unmarshal b) ≡ verified errs raw = ground arith in
                let (d, h) = is_signed_by-some anchors a.signature m in
                by_anchor cr b got (fin b d) (judge-Approves anchors b h judged)
            | inl n ↦
                elim (Option-cases (server.get_approver_set_at a.approver_set_id a.created_at)) [
                  | inl g ↦ absurd (ground arith)
                  | inr (s, g) ↦
                      let bound : (vs s >>= λ o. some (check_by_set c a.signature o))
                          ≡ some (verified errs raw) =
                        ground arith in
                      let (o, w, q) =
                        >>=-eq-some (vs s) (λ o. some (check_by_set c a.signature o)) bound in
                      let (v, b, u, d, p) =
                        by_set-Approves a.signature o {errs = errs} {raw = raw} (cc q) in
                      by_approvers cr b v.keys got (fin b d) (sound s [] v (w ∙ ap some u)) p
                ]
          ]

      check_approvals-Vouched :
          (l : List ApprovalExport) {errs : List TrustErr} {raw : Raw}
          → ((b : Block)
              → Any (λ a. (a.is_final_approval ≡ true) × (decode a.signature ≡ some b)) l
              → IsFinalOf cr b)
          → check_approvals c anchors j server vs l ≡ some (verified errs raw)
          → Vouched id raw
      unfolding check_approvals
      check_approvals-Vouched [] fin e = cc
      check_approvals-Vouched (a ∷ l) {errs} {raw} fin e = elim (Bool-cases a.is_final_approval) [
        | inl f ↦ check_final-Vouched a {errs = errs} (λ b d. fin b (inl (f, d))) (ground arith)
        | inr f ↦ check_approvals-Vouched l {errs = errs} (λ b k. fin b (inr k)) (ground arith)
      ]

    pub verify_change_request_by-Vouched :
        (id : ℕ) (errs : List TrustErr) (raw : Raw)
        → verify_change_request_by c anchors j server vs id ≡ some (verified errs raw)
        → Vouched id raw
    unfolding verify_change_request_by
    verify_change_request_by-Vouched id errs raw e = elim (Bool-cases (id == 0)) [
      | inl z ↦ absurd (ground arith)
      | inr z ↦ elim (Option-cases (server.get_change_request id)) [
        | inl n ↦ absurd (ground arith)
        | inr (cr, g) ↦
            check_approvals-Vouched cr g cr.approvals {errs = errs} (λ b k. k) (ground arith)
      ]
    ]
