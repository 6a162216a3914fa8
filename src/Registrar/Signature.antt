-- ===== src/Registrar/Signature.antt =====
-- The signature checks of lib/approval.go, lib/approverset.go and lib/approver.go. OpenPGP
-- (ProtonMail/go-crypto) and encoding/json are not part of the repository: they are the record
-- `Crypto`, of which nothing is assumed.
pub mod Authority
use go_registrar.Prelude.{
  ℕ, String, ◌≡◌, refl, Bool, true, false, ◌&&◌, ◌||◌, Option, none, some, List, [], ◌∷◌, arith,
  if◌then◌else◌,
}
use go_registrar.Registrar.State.{State, is, bootstrap, pending_bootstrap, active}
use go_registrar.Registrar.Model.{
  Action, action_none, action_approved, action_declined, action_other, Approver, ApproverSet,
  Approval, Attestation,
}

pub data SigErr : Type 0 where
  no_signature_found no_active_key bad_key bad_signature bad_json unknown_action : SigErr

pub record Crypto : Type 1 where
  pub Block : Type 0
  pub Entity : Type 0
  pub Raw : Type 0
  -- clearsign.Decode
  pub decode : List ℕ → Option Block
  -- armor.Decode and openpgp.ReadEntity
  pub read_entity : String → Option Entity
  -- openpgp.CheckDetachedSignature over the keyring, on the text and the signature of a block
  pub check_detached : List Entity → Block → Bool
  -- json.Unmarshal of the text of a block
  pub unmarshal : Block → Option (Attestation Raw)
  -- the attestation before anything is unmarshalled
  pub blank : Attestation Raw

abbrev pub keep {ℓ} : {A : Type ℓ} → Option A → List A → List A
keep none rest = rest
keep (some k) rest = k ∷ rest

abbrev pub is_none {ℓ} : {A : Type ℓ} → Option A → Bool
is_none none = true
is_none (some x) = false

module _ (c : Crypto) where
  open c use {Block, Entity, Raw, decode, read_entity, check_detached, unmarshal, blank}

  -- Approver.GetGPGKeyBlock; `none` is an error.
  unfoldable pub get_gpg_key_block : Approver → Option Entity
  get_gpg_key_block a =
      if a.current_revision_id.valid
        && (is a.revision_state bootstrap
            || is a.revision_state pending_bootstrap
            || is a.revision_state active)
      then read_entity a.public_key
      else none

  -- The loop of ApproverSet.PrepareGPGKeys: a key that cannot be read is skipped.
  unfoldable pub key_blocks : List Approver → List Entity
  key_blocks [] = []
  key_blocks (a ∷ rest) = keep (get_gpg_key_block a) (key_blocks rest)

  -- ApproverSet.PrepareGPGKeys: the keyring, or an error if no revision of the set is active. The
  -- approvers are read from the database already, so that Prepare of an approver does nothing.
  unfoldable pub prepare_gpg_keys : ApproverSet → Option (List Entity)
  prepare_gpg_keys s =
      if s.current_revision_id.valid
        && (is s.revision_state bootstrap || is s.revision_state active)
      then some (key_blocks s.approvers)
      else none

  -- The chain of Approval.GetApprovalAttestation behind the decoded block and the keyring.
  abbrev pub Attested : Type 0
  Attested = Attestation Raw × Bool × Option SigErr

  pub attest_json : Option (Attestation Raw) → Attested
  attest_json (some att) = (att, true, none)
  attest_json none = (blank, false, some bad_json)

  pub attest_signed : Block → Option (List Entity) → Attested
  unfolding attest_json
  attest_signed b none = (blank, false, some no_active_key)
  attest_signed b (some keys) =
      if check_detached keys b
      then attest_json (unmarshal b)
      else (blank, false, some bad_signature)

  pub attest_block : Option Block → ApproverSet → Attested
  unfolding attest_signed
  attest_block none s = (blank, false, some no_signature_found)
  attest_block (some b) s = attest_signed b (prepare_gpg_keys s)

  -- Approval.GetApprovalAttestation: the attestation, whether the signature is valid, the error.
  unfoldable pub get_approval_attestation : Approval → Attested
  unfolding attest_block
  get_approval_attestation a = attest_block (decode a.signature) a.approval_approver_set

  -- The test of the action in Approval.CheckSignature.
  abbrev pub judge : Action → Option SigErr → Action × Option SigErr
  judge action_approved e = (action_approved, e)
  judge action_declined e = (action_declined, e)
  judge _ e = (action_none, some unknown_action)

  -- Approval.CheckSignature: whether the signature is valid, the action, the error.
  unfoldable pub check_signature : Approval → Bool × Action × Option SigErr
  check_signature a =
      let (att, valid, e) = get_approval_attestation a in
      if valid && is_none e
      then (let (act, e') = judge att.action e in (true, act, e'))
      else (valid, action_none, e)
