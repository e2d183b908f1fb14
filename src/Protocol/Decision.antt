-- ===== src/Protocol/Decision.antt =====
-- Decisions of the executive: focus, wake and action requests, and the decision with its
-- operation families (src/cognition/protocols/cognition_v1.py, cognition_v2.py, executive.py).
-- A version 1 decision is one whose four social families are empty, as
-- `getattr(decision, family, ())` reads it.
use cognition.Prelude.{
  ℕ, Bool, true, false, ◌&&◌, ◌||◌, Option, none, some, String, List, [], ◌∷◌, ◌==◌, all,
}
use cognition.Json.{Fields}
use cognition.Protocol.Ref.{Ref, nonempty, valid_refs}
use cognition.Protocol.Operations.{
  GoalOperation, CommitmentOperation, BeliefOperation, EpisodeOperation, InterestOperation,
  PreferenceOperation, SelfModelOperation, coherent_goal, coherent_commitment, coherent_belief,
  coherent_episode, coherent_interest, coherent_preference, coherent_self_model,
}
use cognition.Protocol.Social.{
  EntityOperation, ProjectOperation, RelationshipOperation, RelationshipThreadOperation,
  coherent_entity, coherent_project, coherent_relationship, coherent_thread,
}

pub record CurrentFocus : Type 0 where
  pub summary : String
  pub refs : List Ref

pub record ActionRequest : Type 0 where
  pub operation_id : ℕ
  pub capability_key : String
  pub operation : String
  pub arguments : Fields
  pub intended_effect : String
  pub verification_expectation : Fields
  pub impetus_refs : List Ref
  pub rationale : String

coherent_action : ActionRequest → Bool
coherent_action a =
    nonempty a.capability_key
    && nonempty a.operation
    && nonempty a.intended_effect
    && valid_refs a.impetus_refs

pub record WakeRequest : Type 0 where
  pub operation_id : ℕ
  pub not_before : ℕ
  pub purpose : String
  pub context_refs : List Ref
  pub coalesce_key : Option String

coherent_wake_request : WakeRequest → Bool
coherent_wake_request w = nonempty w.purpose && valid_refs w.context_refs

pub data Disposition : Type 0 where
  continue wait sleep : Disposition

pub record CognitionDecision : Type 0 where
  pub schema_version : ℕ
  pub decision_id : ℕ
  pub cycle_id : ℕ
  pub turn_id : ℕ
  pub disposition : Disposition
  pub rationale_summary : Option String
  pub current_focus : Option CurrentFocus
  pub goal_operations : List GoalOperation
  pub commitment_operations : List CommitmentOperation
  pub belief_operations : List BeliefOperation
  pub episode_operations : List EpisodeOperation
  pub interest_operations : List InterestOperation
  pub preference_operations : List PreferenceOperation
  pub self_model_operations : List SelfModelOperation
  pub entity_operations : List EntityOperation
  pub project_operations : List ProjectOperation
  pub relationship_operations : List RelationshipOperation
  pub relationship_thread_operations : List RelationshipThreadOperation
  pub action_requests : List ActionRequest
  pub wake_requests : List WakeRequest

abbrev pub is_empty {ℓ} : {A : Type ℓ} → List A → Bool
is_empty [] = true
is_empty (x ∷ xs) = false

-- `extra="forbid"`: a version 1 payload has no social family.
social_free : CognitionDecision → Bool
social_free d =
    is_empty d.entity_operations
    && is_empty d.project_operations
    && is_empty d.relationship_operations
    && is_empty d.relationship_thread_operations

version_fits : CognitionDecision → Bool
version_fits d = (d.schema_version == 1 && social_free d) || d.schema_version == 2

valid_focus : Option CurrentFocus → Bool
valid_focus none = true
valid_focus (some f) = valid_refs f.refs

-- Whether `parse_decision` accepts the dumped decision, each nested validator included.
unfoldable pub parses : CognitionDecision → Bool
unfolding version_fits social_free valid_focus coherent_action coherent_wake_request coherent_goal
    coherent_commitment coherent_belief coherent_episode coherent_interest coherent_preference
    coherent_self_model coherent_entity coherent_project coherent_relationship coherent_thread
parses d =
    version_fits d
    && valid_focus d.current_focus
    && all coherent_goal d.goal_operations
    && all coherent_commitment d.commitment_operations
    && all coherent_belief d.belief_operations
    && all coherent_episode d.episode_operations
    && all coherent_interest d.interest_operations
    && all coherent_preference d.preference_operations
    && all coherent_self_model d.self_model_operations
    && all coherent_entity d.entity_operations
    && all coherent_project d.project_operations
    && all coherent_relationship d.relationship_operations
    && all coherent_thread d.relationship_thread_operations
    && all coherent_action d.action_requests
    && all coherent_wake_request d.wake_requests
