-- ===== src/Protocol/Model.antt =====
-- Requests to the executive model and its observed results
-- (src/cognition/protocols/model_v1.py, model_v2.py), and the supported contracts
-- (src/cognition/protocols/executive.py).
use cognition.Prelude.{ℕ, Bool, not, ◌&&◌, ◌||◌, Option, String, List, ◌==◌, str_eq, is_some}
use cognition.Json.{Fields}
use cognition.Protocol.Ref.{Ref}
use cognition.Protocol.Operations.{Content}
use cognition.Protocol.Decision.{CognitionDecision}

pub data ContextCategory : Type 0 where
  control present self commitments evidence memory relationship capability : ContextCategory

pub record ContextSection : Type 0 where
  pub name : String
  pub category : ContextCategory
  pub content : Content
  pub refs : List Ref

pub record EffectiveCapabilityView : Type 0 where
  pub key : String
  pub version : String
  pub allowed_operations : List String

pub record ModelRequest : Type 0 where
  pub schema_version : ℕ
  pub request_id : ℕ
  pub individual_id : ℕ
  pub cycle_id : ℕ
  pub turn_id : ℕ
  pub cognition_protocol_version : ℕ
  pub runtime_contract_version : String
  pub present_time : ℕ
  pub context_sections : List ContextSection
  pub capabilities : List EffectiveCapabilityView
  pub output_schema : String
  pub input_token_budget : ℕ
  pub output_token_budget : ℕ
  pub inference_preferences : Option Fields

-- `_REQUEST_CONTRACTS`
unfoldable pub supported_contract : ModelRequest → Bool
supported_contract r =
    (r.schema_version == 1
      && r.cognition_protocol_version == 1
      && str_eq r.output_schema "CognitionDecisionV1"
      && (str_eq r.runtime_contract_version "2.0"
          || str_eq r.runtime_contract_version "3.0"
          || str_eq r.runtime_contract_version "3.1"))
    || (r.schema_version == 2
        && r.cognition_protocol_version == 2
        && str_eq r.output_schema "CognitionDecisionV2"
        && str_eq r.runtime_contract_version "3.2")

pub record ModelError : Type 0 where
  pub code : String
  pub message : String
  pub retryable : Bool

-- Unknown usage stays `none`.
pub record TokenUsage : Type 0 where
  pub input_tokens : Option ℕ
  pub output_tokens : Option ℕ
  pub total_tokens : Option ℕ

pub data ResultStatus : Type 0 where
  completed refused failed : ResultStatus

pub record ModelResult : Type 0 where
  pub schema_version : ℕ
  pub status : ResultStatus
  pub request_id : ℕ
  pub decision : Option CognitionDecision
  pub provider : String
  pub requested_model : String
  pub resolved_model : Option String
  pub provider_request_id : Option String
  pub usage : Option TokenUsage
  pub finish_reason : Option String
  pub error : Option ModelError

status_fits : ResultStatus → Option CognitionDecision → Bool
status_fits ResultStatus.completed d = is_some d
status_fits _ d = not (is_some d)

-- The validator `decision_matches_status`.
unfoldable pub decision_matches_status : ModelResult → Bool
unfolding status_fits
decision_matches_status r = status_fits r.status r.decision
