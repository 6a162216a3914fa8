-- ===== src/Registrar/Model.antt =====
-- The rows that the approval workflow reads and writes: lib/approval.go, lib/changerequest.go,
-- lib/approverset.go, lib/approver.go and sql.NullInt64. An int64 key is a number, and 0 is a key
-- that is not set.
use go_registrar.Prelude.{ℕ, ◌+◌, String, Bool, List}
use go_registrar.Registrar.State.{State}

pub record NullInt64 : Type 0 where
  pub int64 : ℕ
  pub valid : Bool

-- The object types of lib/*.go that a change request can name; any other text is `other_type`.
pub data ObjectType : Type 0 where
  approver_type approver_set_type api_user_type domain_type host_type contact_type : ObjectType
  other_type : ℕ → ObjectType

abbrev pub type_code : ObjectType → ℕ
type_code approver_type = 0
type_code approver_set_type = 1
type_code api_user_type = 2
type_code domain_type = 3
type_code host_type = 4
type_code contact_type = 5
type_code (other_type n) = 6 + n

-- The action texts of an attestation.
pub data Action : Type 0 where
  action_none action_approved action_declined : Action
  action_other : ℕ → Action

pub record Approver : Type 0 where
  pub id : ℕ
  pub state : State
  pub current_revision_id : NullInt64
  pub revision_state : State
  pub public_key : String
  pub email_address : String

pub record ApproverSet : Type 0 where
  pub id : ℕ
  pub state : State
  pub current_revision_id : NullInt64
  pub revision_state : State
  pub approvers : List Approver

pub record Approval : Type 0 where
  pub id : ℕ
  pub state : State
  pub is_signed : Bool
  pub is_final_approval : Bool
  pub change_request_id : ℕ
  pub approver_set_id : ℕ
  pub approval_approver_set : ApproverSet
  pub signature : List ℕ

pub record ChangeRequest : Type 0 where
  pub id : ℕ
  pub state : State
  pub registrar_object_type : ObjectType
  pub registrar_object_id : ℕ
  pub initial_revision_id : NullInt64
  pub proposed_revision_id : ℕ
  pub approvals : List Approval

-- What `json.Unmarshal` makes of the signed text: `Raw` is the JSON of the exported revision.
pub record Attestation (Raw : Type 0) : Type 0 where
  pub approval_id : ℕ
  pub export_rev : Raw
  pub action : Action
  pub object_type : ObjectType
