-- ===== src/Registrar/Examples.antt =====
-- The theorems on the approval workflow (lib/) at concrete inputs.
mod Rows
mod Compared
mod Domains
mod Users
mod Withdrawn
use go_registrar.Prelude.{
  ℕ, ◌≡◌, ◌≢◌, ◌↔◌, ◌⊎◌, inl, inr, refl, String, Bool, true, false, Option, none, some, List, [],
  ◌∷◌, All, Any, arith,
}
use go_registrar.Registrar.State.{State, active, approved, declined, new, pending_approval}
use go_registrar.Registrar.Model.{
  NullInt64, ObjectType, domain_type, Action, action_approved, Approver, ApproverSet, Approval,
  ChangeRequest, Attestation,
}
use go_registrar.Registrar.Signature.{
  Crypto, prepare_gpg_keys, get_approval_attestation, check_signature,
}
use go_registrar.Registrar.Signature.Authority.{IsAuthorised, check_signature-IsAuthorised}
use go_registrar.Registrar.Verify.{CrObject, verify_cr}
use go_registrar.Registrar.Verify.Sound.{IsVerified, verify_cr_iff}
use go_registrar.Registrar.Verify.Unsigned.{verify_cr-unsigned}
use go_registrar.Registrar.Store.{Db, pure, find_request, save_approval}
use go_registrar.Registrar.Approval.{
  Err, Objects, find_loaded, is_editable, ready_for_final_approval,
}
use go_registrar.Registrar.Decide.{Hooks, decide_signed, update_state}
use go_registrar.Registrar.Decide.Approve.{
  outcome_state, HasVerdict, IsJustified, update_state-IsJustified, update_state-settled,
}
use go_registrar.Registrar.Decide.Sibling.{decide_signed-unsigned_sibling}
use go_registrar.Registrar.Request.{go, tally}
use go_registrar.Registrar.Request.Tally.{
  IsSettled, InState, tally_state, tally-approved_iff, OneUnsettled, ready_for_final_approval_iff,
}

-- A signature is a text that is not empty; the approver of key "k" has signed an approval of 7.
abbrev attested : Attestation String
attested = record {
  approval_id = 7;
  export_rev = "rev";
  action = action_approved;
  object_type = domain_type;
}

abbrev signed_block : List ℕ → Option String
signed_block [] = none
signed_block (b ∷ rest) = some "block"

abbrev openpgp : Crypto
openpgp = record {
  Block = String;
  Entity = String;
  Raw = String;
  decode = signed_block;
  read_entity = λ k. some k;
  check_detached = λ keys b. true;
  unmarshal = λ b. some attested;
  blank = attested;
}

abbrev key : ℕ → NullInt64
key k = record { int64 = k; valid = true }

abbrev signer : Approver
signer = record {
  id = 1;
  state = active;
  current_revision_id = key 1;
  revision_state = active;
  public_key = "k";
  email_address = "a@example.com";
}

abbrev signers : ApproverSet
signers = record {
  id = 2;
  state = active;
  current_revision_id = key 1;
  revision_state = active;
  approvers = signer ∷ [];
}

abbrev signed_approval : Approval
signed_approval = record {
  id = 7;
  state = pending_approval;
  is_signed = true;
  is_final_approval = false;
  change_request_id = 5;
  approver_set_id = 2;
  approval_approver_set = signers;
  signature = 1 ∷ [];
}

abbrev unsigned_approval : Approval
unsigned_approval = record signed_approval { id = 8; signature = [] }

abbrev request_with : List Approval → ChangeRequest
request_with l = record {
  id = 5;
  state = pending_approval;
  registrar_object_type = domain_type;
  registrar_object_id = 4;
  initial_revision_id = key 9;
  proposed_revision_id = 10;
  approvals = l;
}

abbrev cr_object : CrObject String
cr_object = record {
  object_type = domain_type;
  object_id = 4;
  pending_revision_id = 10;
  pending_cr_id = key 5;
  current_revision_id = key 9;
  export_is_json = λ r. true;
  compare_pending = λ r. (true, []);
}

abbrev find_only : ChangeRequest → ℕ → Option ChangeRequest
find_only r k = some r

check_signature-IsAuthorised_example : IsAuthorised openpgp signed_approval action_approved
unfolding check_signature get_approval_attestation prepare_gpg_keys
check_signature-IsAuthorised_example =
    check_signature-IsAuthorised openpgp signed_approval action_approved refl

verify_cr_iff_example :
    ((verify_cr openpgp cr_object (find_only (request_with (signed_approval ∷ [])))).0 ≡ true) ↔ (
      (cr : ChangeRequest) × IsVerified openpgp cr_object
        (find_only (request_with (signed_approval ∷ [])))
        cr)
verify_cr_iff_example =
    verify_cr_iff openpgp cr_object (find_only (request_with (signed_approval ∷ [])))

abbrev half_signed : ChangeRequest
half_signed = request_with (signed_approval ∷ unsigned_approval ∷ [])

verify_cr-unsigned_example : (verify_cr openpgp cr_object (find_only half_signed)).0 ≡ false
verify_cr-unsigned_example =
    verify_cr-unsigned openpgp cr_object (find_only half_signed) half_signed refl refl
      (inr (inl refl))

-- The objects of requests, as far as approvals see them.
abbrev objects_with : Bool → Objects
objects_with ok = record {
  Obj = Unit {0};
  prepare_object = λ t k. pure (some tt);
  has_pending_revision = λ x. true;
  required_sets = λ x. pure [];
  verify_object = λ x. pure (ok, []);
  update_object = λ x. pure tt;
}

abbrev quiet : (o : Objects) → Hooks o
quiet o = record {
  after_save = λ k. pure true;
  update_approval = λ a. pure (a, false, []);
  update_request = λ l. pure (false, []);
}

abbrev no_mail : Approval → List Err
no_mail a = []

abbrev db : Db
db = record {
  approvals = signed_approval ∷ [];
  requests = request_with [] ∷ [];
  approver_sets = signers ∷ [];
  faults = [];
}

update_state-IsJustified_example :
    (signed_approval.state ≡ pending_approval)
    × IsJustified
        (objects_with true)
        openpgp
        no_mail
        signed_approval
        db
        (update_state
          (objects_with true)
          openpgp
          no_mail
          (quiet (objects_with true))
          signed_approval
          db).0.0.state
update_state-IsJustified_example =
    update_state-IsJustified (objects_with true) openpgp no_mail (quiet (objects_with true))
      signed_approval db fresh verdict
  where
    fresh : ¬ HasVerdict pending_approval
    fresh h = ground arith

    verdict :
        HasVerdict
          (update_state
            (objects_with true)
            openpgp
            no_mail
            (quiet (objects_with true))
            signed_approval
            db).0.0.state
    verdict =
        unfold update_state find_loaded find_request save_approval check_signature
          get_approval_attestation prepare_gpg_keys in
        inl refl

abbrev approved_approval : Approval
approved_approval = record signed_approval { state = approved }

update_state-settled_example :
    update_state
      (objects_with true)
      openpgp
      no_mail
      (quiet (objects_with true))
      approved_approval
      db
    ≡ ((approved_approval, false, []), db)
unfolding is_editable
update_state-settled_example =
    update_state-settled (objects_with true) openpgp no_mail (quiet (objects_with true))
      approved_approval db refl

abbrev checking_objects : Objects
checking_objects = record (objects_with false) {
  verify_object = λ x. pure (verify_cr openpgp cr_object (find_only half_signed));
}

decide_signed-unsigned_sibling_example :
    outcome_state
      (decide_signed checking_objects openpgp no_mail signed_approval tt db).0
      pending_approval
    ≡ pending_approval
decide_signed-unsigned_sibling_example =
    decide_signed-unsigned_sibling checking_objects openpgp no_mail cr_object signed_approval tt db
      (find_only half_signed) half_signed refl refl refl (inr (inl refl))

abbrev settled_request : ChangeRequest
settled_request = request_with (approved_approval ∷ [])

tally-approved_iff_example :
    (tally_state settled_request ≡ approved)
    ↔ (InState approved settled_request.approvals × All IsSettled settled_request.approvals)
tally-approved_iff_example = tally-approved_iff settled_request refl

abbrev final_list : List Approval
final_list =
    approved_approval ∷ record unsigned_approval { state = new; is_final_approval = true } ∷ []

ready_for_final_approval_iff_example :
    (ready_for_final_approval final_list ≡ true)
    ↔ (OneUnsettled final_list × Any (λ a. a.is_final_approval ≡ true) final_list)
ready_for_final_approval_iff_example = ready_for_final_approval_iff final_list
