-- ===== src/Store/Rows.antt =====
-- The rows of src/cognition/db/models that the modelled stores read and write. An identity is a
-- number (`UUID.int`), a moment a number of microseconds. A column that holds a validated
-- contract as JSON holds the contract.
use cognition.Prelude.{ℕ, Bool, true, false, Option, String, List, some, none}
use cognition.Json.{Fields}
use cognition.Protocol.Ref.{Ref}
use cognition.Protocol.Decision.{CognitionDecision, CurrentFocus}
use cognition.Protocol.Model.{ModelRequest, ModelResult}
use cognition.Policy.Cognition.{DecisionError}

-- db/models/identity.py, runtime.py
pub data OperationalStatus : Type 0 where
  active paused quiescing quiescent retired : OperationalStatus

pub record Individual : Type 0 where
  pub individual_id : ℕ
  pub birth_at : ℕ
  pub birth_name : String
  pub founding_orientation : String
  pub creator_provenance : Fields
  pub temperament_seed : Option Fields
  pub founding_value_seed : Option Fields
  pub parent_individual_id : Option ℕ
  pub fork_event_id : Option ℕ
  pub operational_status : OperationalStatus
  pub revision : ℕ

-- db/models/governance.py
pub record Governance : Type 0 where
  pub individual_id : ℕ
  pub external_actions_blocked : Bool
  pub inference_blocked : Bool
  pub reconciliation_required : Bool
  pub hard_boundaries : Fields
  pub budget_policy : Fields
  pub revision : ℕ

pub record AdminPrincipal : Type 0 where
  pub admin_principal_id : ℕ
  pub individual_id : ℕ
  pub authn_provider : String
  pub subject : String
  pub role : String
  pub revoked_at : Option ℕ
  pub metadata : Fields

-- db/models/attention.py
pub data WakeKind : Type 0 where
  bootstrap external_event action_result commitment_due self_scheduled goal_review routine
        reflection maintenance heartbeat recovery :
      WakeKind

pub data WakeStatus : Type 0 where
  pending claimed consumed cancelled superseded : WakeStatus

pub record Wake : Type 0 where
  pub wake_id : ℕ
  pub individual_id : ℕ
  pub kind : WakeKind
  pub status : WakeStatus
  pub due_at : ℕ
  pub purpose : String
  pub cause_event_id : Option ℕ
  pub context_refs : List Ref
  pub coalesce_key : Option String
  pub claimed_at : Option ℕ
  pub consumed_at : Option ℕ
  pub revision : ℕ

abbrev pub is_pending : WakeStatus → Bool
is_pending WakeStatus.pending = true
is_pending _ = false

abbrev pub is_claimed : WakeStatus → Bool
is_claimed WakeStatus.claimed = true
is_claimed _ = false

-- db/models/cognition.py
pub data CycleStatus : Type 0 where
  active completed failed : CycleStatus

pub record CognitionCycle : Type 0 where
  pub cycle_id : ℕ
  pub individual_id : ℕ
  pub status : CycleStatus
  pub started_at : ℕ
  pub completed_at : Option ℕ
  pub terminal_reason : Option String
  pub max_turns : ℕ
  pub max_attempts_per_turn : ℕ
  pub max_wakes : ℕ
  pub deadline_at : ℕ
  pub min_wake_delay : ℕ
  pub revision : ℕ

abbrev pub is_active : CycleStatus → Bool
is_active CycleStatus.active = true
is_active _ = false

pub record CycleWake : Type 0 where
  pub cycle_id : ℕ
  pub wake_id : ℕ

pub data TurnStatus : Type 0 where
  prepared invoking decided applied rejected failed : TurnStatus

-- The decision's identity and disposition are read off the decision.
pub record CognitionTurn : Type 0 where
  pub turn_id : ℕ
  pub cycle_id : ℕ
  pub ordinal : ℕ
  pub status : TurnStatus
  pub created_at : ℕ
  pub completed_at : Option ℕ
  pub decision : Option CognitionDecision
  pub decision_hash : Option ℕ
  pub validation_errors : List DecisionError

pub data InvocationStatus : Type 0 where
  started completed failed abandoned : InvocationStatus

abbrev pub is_started : InvocationStatus → Bool
is_started InvocationStatus.started = true
is_started _ = false

pub record ModelInvocation : Type 0 where
  pub invocation_id : ℕ
  pub turn_id : ℕ
  pub attempt_number : ℕ
  pub status : InvocationStatus
  pub started_at : ℕ
  pub completed_at : Option ℕ
  pub result : Option ModelResult
  pub error_code : Option String

pub record ContextSnapshot : Type 0 where
  pub snapshot_id : ℕ
  pub turn_id : ℕ
  pub config_revision_id : ℕ
  pub runtime_contract_version : String
  pub model_adapter : String
  pub requested_model : String
  pub request : ModelRequest
  pub rendered_context : String
  pub content_hash : String
  pub selected_refs : List Ref
  pub retrieval_reasons : List (String × String)
  pub estimated_input_tokens : ℕ
  pub created_at : ℕ
  pub retain_until : Option ℕ

pub record AppliedOperation : Type 0 where
  pub operation_id : ℕ
  pub turn_id : ℕ
  pub individual_id : ℕ
  pub kind : String
  pub applied_at : ℕ

pub record AttentionState : Type 0 where
  pub individual_id : ℕ
  pub current_focus : Option CurrentFocus
  pub last_cycle_id : Option ℕ
  pub last_cognition_at : Option ℕ
  pub revision : ℕ

-- What an administrative operation changes (`before` and `after` of its evidence).
pub record AdminView : Type 0 where
  pub operational_status : OperationalStatus
  pub external_actions_blocked : Bool

-- The payloads of the events that the modelled code appends.
pub data Payload : Type 0 where
  cycle_started : List ℕ → Payload
  cycle_finished : CycleStatus → String → Payload
  orphan_recovered : ℕ → ℕ → Payload
  decision_recorded : ℕ → ℕ → ℕ → Payload
  administered : String → String → AdminView → AdminView → Payload
  other : Fields → Payload

-- A source's identifier is a name or the text of an identity.
pub data SourceId : Type 0 where
  name : String → SourceId
  identity : ℕ → SourceId

-- Where an event comes from: the runtime's contract, or an administrator.
pub data Provenance : Type 0 where
  runtime_contract : String → Provenance
  admin_principal : ℕ → Provenance
  recorded : Fields → Provenance

-- db/models/evidence.py: the content of an event, which a redaction empties.
pub record EventContent : Type 0 where
  pub content_type : String
  pub payload : Option Payload
  pub text : Option String
  pub blob_ref : Option String
  pub content_hash : Option String
  pub sensitivity : String
  pub retention_class : String
  pub retain_until : Option ℕ
  pub redacted_at : Option ℕ
  pub redaction_audit_id : Option ℕ

-- An event with its content, in order of `event_sequence`.
pub record Event : Type 0 where
  pub event_id : ℕ
  pub individual_id : ℕ
  pub event_type : String
  pub occurred_at : Option ℕ
  pub observed_at : ℕ
  pub recorded_at : ℕ
  pub source_kind : String
  pub source_id : Option SourceId
  pub source_binding_id : Option ℕ
  pub actor_entity_id : Option ℕ
  pub causation_event_id : Option ℕ
  pub correlation_id : Option ℕ
  pub subject : Option Ref
  pub provenance : Provenance
  pub runtime_version : String
  pub content : EventContent

-- db/models/audit.py
pub record AdminAudit : Type 0 where
  pub audit_id : ℕ
  pub individual_id : ℕ
  pub admin_principal_id : ℕ
  pub operation : String
  pub target : Ref
  pub reason : String
  pub before_state : AdminView
  pub after_state : AdminView
  pub created_at : ℕ
  pub event_id : ℕ

-- The content of an event that the program itself records.
abbrev pub internal_content : Payload → EventContent
internal_content payload = record {
  content_type = "application/json";
  payload = some payload;
  text = none;
  blob_ref = none;
  content_hash = none;
  sensitivity = "internal";
  retention_class = "history";
  retain_until = none;
  redacted_at = none;
  redaction_audit_id = none;
}
