-- ===== src/Registrar/Signature/Authority.antt =====
-- Who vouches for a signature that CheckSignature (lib/approval.go) accepts.
use go_registrar.Prelude.{
  ◌≡◌, ◌⊎◌, inl, inr, refl, true, false, Option, none, some, List, [], ◌∷◌, arith, All, Any,
  Bool-cases,
}
use go_registrar.Registrar.State.{bootstrap, pending_bootstrap, active}
use go_registrar.Registrar.Model.{Action, Approver, ApproverSet, Approval, Attestation}
use go_registrar.Registrar.Signature.{
  Crypto, keep, get_gpg_key_block, key_blocks, prepare_gpg_keys, attest_json, attest_signed,
  attest_block, get_approval_attestation, check_signature,
}

module _ (c : Crypto) where
  open c use {Block, Entity, Raw, decode, read_entity, check_detached, unmarshal}

  -- The key is the public key of the approver, whose current revision may sign.
  pub record Holds (p : Approver) (k : Entity) : Type 0 where
    pub key : read_entity p.public_key ≡ some k
    pub has_revision : p.current_revision_id.valid ≡ true
    pub may_sign :
        (p.revision_state ≡ bootstrap)
        ⊎ (p.revision_state ≡ pending_bootstrap)
        ⊎ (p.revision_state ≡ active)

  get_gpg_key_block-Holds : (p : Approver) (k : Entity) → get_gpg_key_block c p ≡ some k → Holds p k
  unfolding get_gpg_key_block
  get_gpg_key_block-Holds p k h = ground arith

  -- The key belongs to one of the approvers.
  abbrev pub IsHeldIn : List Approver → Entity → Type 0
  IsHeldIn l k = Any (λ p. Holds p k) l

  All-inr :
      (p : Approver) (l : List Approver) (keys : List Entity)
      → All (IsHeldIn l) keys
      → All (IsHeldIn (p ∷ l)) keys
  All-inr p l [] h = tt
  All-inr p l (k ∷ keys) (h, hs) = (inr h, All-inr p l keys hs)

  keep-held :
      (p : Approver) (l : List Approver) (o : Option Entity) (keys : List Entity)
      → get_gpg_key_block c p ≡ o
      → All (IsHeldIn (p ∷ l)) keys
      → All (IsHeldIn (p ∷ l)) (keep o keys)
  keep-held p l none keys e h = h
  keep-held p l (some k) keys e h = (inl (get_gpg_key_block-Holds p k e), h)

  key_blocks-held : (l : List Approver) → All (IsHeldIn l) (key_blocks c l)
  unfolding key_blocks
  key_blocks-held [] = tt
  key_blocks-held (p ∷ l) =
      keep-held p l (get_gpg_key_block c p) (key_blocks c l) refl
        (All-inr p l (key_blocks c l) (key_blocks-held l))

  -- What stands behind a signature with an action: a signed block, checked against a keyring of the
  -- current approvers of the approver set, whose text is an attestation of that action.
  pub record IsAuthorised (a : Approval) (act : Action) : Type 0 where
    pub block : Block
    pub keys : List Entity
    pub attestation : Attestation Raw
    pub decoded : decode a.signature ≡ some block
    pub current : a.approval_approver_set.current_revision_id.valid ≡ true
    pub checked : check_detached keys block ≡ true
    pub held : All (IsHeldIn a.approval_approver_set.approvers) keys
    pub signed : unmarshal block ≡ some attestation
    pub acts : attestation.action ≡ act

  -- A valid signature, taken apart.
  attest_json-valid :
      (o : Option (Attestation Raw)) → (attest_json c o).1 ≡ true → o ≡ some (attest_json c o).0
  unfolding attest_json
  attest_json-valid none h = cc
  attest_json-valid (some att) h = refl

  abbrev Behind : Approval → Block → Type 0
  Behind a b =
      (keys : List Entity) × (prepare_gpg_keys c a.approval_approver_set ≡ some keys)
      × (check_detached keys b ≡ true)
      × (unmarshal b ≡ some (attest_signed c b (prepare_gpg_keys c a.approval_approver_set)).0)

  attest_signed-valid :
      (b : Block) (o : Option (List Entity))
      → (attest_signed c b o).1 ≡ true
      → (keys : List Entity) × (o ≡ some keys)
        × (check_detached keys b ≡ true)
        × (unmarshal b ≡ some (attest_signed c b o).0)
  unfolding attest_signed
  attest_signed-valid b none h = cc
  attest_signed-valid b (some keys) h = elim (Bool-cases (check_detached keys b)) [
    | inl e ↦ (keys, refl, e, rw e (attest_json-valid (unmarshal b) (rw e at h)))
    | inr e ↦ cc (rw e at h)
  ]

  attest_block-valid :
      (a : Approval) (o : Option Block)
      → (attest_block c o a.approval_approver_set).1 ≡ true
      → (b : Block) × (o ≡ some b)
        × ((attest_signed c b (prepare_gpg_keys c a.approval_approver_set)).1 ≡ true)
        × (attest_block c o a.approval_approver_set
            ≡ attest_signed c b (prepare_gpg_keys c a.approval_approver_set))
  unfolding attest_block
  attest_block-valid a none h = cc
  attest_block-valid a (some b) h = (b, refl, h, refl)

  prepare_gpg_keys-held :
      (s : ApproverSet) (keys : List Entity)
      → prepare_gpg_keys c s ≡ some keys
      → (s.current_revision_id.valid ≡ true) × (key_blocks c s.approvers ≡ keys)
  unfolding prepare_gpg_keys
  prepare_gpg_keys-held s keys h = ground arith

  -- CheckSignature accepts only with the action of a valid attestation.
  check_signature-attested :
      (a : Approval) (act : Action)
      → check_signature c a ≡ (true, act, none)
      → ((get_approval_attestation c a).1 ≡ true) × ((get_approval_attestation c a).0.action ≡ act)
  unfolding check_signature
  check_signature-attested a act h = ground arith

  -- A signature that CheckSignature accepts with an action and no error decodes to a block that
  -- checks against a keyring, every key of which belongs to an approver of the current revision of
  -- the approver set whose own current revision may sign; the block holds an attestation of that
  -- action.
  pub check_signature-IsAuthorised :
      (a : Approval) (act : Action) → check_signature c a ≡ (true, act, none) → IsAuthorised a act
  unfolding get_approval_attestation
  check_signature-IsAuthorised a act h =
      let (valid, acts) = check_signature-attested a act h in
      let (b, decoded, ok, e) = attest_block-valid a (decode a.signature) valid in
      let (keys, ring, checked, signed) =
        attest_signed-valid b (prepare_gpg_keys c a.approval_approver_set) ok in
      let (current, blocks) = prepare_gpg_keys-held a.approval_approver_set keys ring in
      record {
        block = b;
        keys = keys;
        attestation = (attest_signed c b (prepare_gpg_keys c a.approval_approver_set)).0;
        decoded = decoded;
        current = current;
        checked = checked;
        held = rw (← blocks) (key_blocks-held a.approval_approver_set.approvers);
        signed = signed;
        acts = rw (← e) acts;
      }

  -- An approval with no signature has no valid one, if an empty text holds no signed block.
  pub unsigned-invalid :
      (a : Approval)
      → decode [] ≡ none
      → a.signature ≡ []
      → (get_approval_attestation c a).1 ≡ false
  unfolding get_approval_attestation attest_block
  unsigned-invalid a blank e = rw (e, blank) refl
