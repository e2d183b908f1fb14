-- ===== src/Policy/Cognition.antt =====
-- Validation of a proposed decision, without application authority
-- (src/cognition/policy/cognition.py).
pub mod Accept
use cognition.Prelude.{
  ℕ, Bool, true, false, not, ◌&&◌, ◌||◌, Option, none, some, String, List, [], ◌∷◌, ◌++◌, map, ◌==◌,
  ltb, any, all, length, if◌then◌else◌,
}
use cognition.Protocol.Ref.{Ref}
use cognition.Protocol.Operations.{
  GoalOperation, CommitmentOperation, BeliefOperation, EpisodeOperation, InterestOperation,
  PreferenceOperation, SelfModelOperation,
}
use cognition.Protocol.Social.{
  EntityOperation, ProjectOperation, RelationshipOperation, RelationshipThreadOperation,
}
use cognition.Protocol.Decision.{
  CognitionDecision, CurrentFocus, ActionRequest, WakeRequest, is_empty, parses,
}

pub data DecisionError : Type 0 where
  invalid_decision cycle_id_mismatch turn_id_mismatch duplicate_operation_id unsupported_operations
        unknown_ref too_many_wake_requests too_many_operations :
      DecisionError
  -- what the application adds to the policy's errors
  wake_requests_forbidden unsupported_for_frozen_contract operation_id_already_applied
        wake_id_already_exists :
      DecisionError
  personal : String → DecisionError

-- The identities of every proposed operation, in the order of the categories.
unfoldable pub operation_ids : CognitionDecision → List ℕ
operation_ids d =
    map (λ (o : GoalOperation). o.operation_id) d.goal_operations
    ++ (map (λ (o : CommitmentOperation). o.operation_id) d.commitment_operations
        ++ (map (λ (o : BeliefOperation). o.operation_id) d.belief_operations
            ++ (map (λ (o : EpisodeOperation). o.operation_id) d.episode_operations
                ++ (map (λ (o : InterestOperation). o.operation_id) d.interest_operations
                    ++ (map (λ (o : PreferenceOperation). o.operation_id) d.preference_operations
                        ++ (map (λ (o : SelfModelOperation). o.operation_id) d.self_model_operations
                            ++ (map (λ (o : EntityOperation). o.operation_id) d.entity_operations
                                ++ (map (λ (o : ProjectOperation). o.operation_id)
                                      d.project_operations
                                    ++ (map (λ (o : RelationshipOperation). o.operation_id)
                                          d.relationship_operations
                                        ++ (map
                                              (λ (o : RelationshipThreadOperation). o.operation_id)
                                              d.relationship_thread_operations
                                            ++ (map (λ (o : ActionRequest). o.operation_id)
                                                  d.action_requests
                                                ++ map (λ (o : WakeRequest). o.operation_id)
                                                    d.wake_requests)))))))))))

-- `set(operation_ids)`: each identity once.
unfoldable pub distinct : List ℕ → List ℕ
distinct [] = []
distinct (x ∷ xs) = let rest = distinct xs in if any (λ y. x == y) rest then rest else x ∷ rest

focus_refs : Option CurrentFocus → List Ref
focus_refs none = []
focus_refs (some f) = f.refs

-- Every row's references, one row after the other.
abbrev pub refs_of {ℓ} : {A : Type ℓ} → (A → List Ref) → List A → List Ref
refs_of f [] = []
refs_of f (x ∷ xs) = f x ++ refs_of f xs

unfoldable pub decision_refs : CognitionDecision → List Ref
unfolding focus_refs
decision_refs d =
    focus_refs d.current_focus
    ++ (refs_of (λ (o : WakeRequest). o.context_refs) d.wake_requests
        ++ (refs_of (λ (o : GoalOperation). o.evidence_refs) d.goal_operations
            ++ (refs_of (λ (o : CommitmentOperation). o.evidence_refs) d.commitment_operations
                ++ (refs_of
                      (λ (o : BeliefOperation). o.supporting_evidence ++ o.contradicting_evidence)
                      d.belief_operations
                    ++ (refs_of (λ (o : EpisodeOperation). o.evidence_refs) d.episode_operations
                        ++ (refs_of (λ (o : InterestOperation). o.evidence_refs)
                              d.interest_operations
                            ++ (refs_of (λ (o : PreferenceOperation). o.evidence_refs)
                                  d.preference_operations
                                ++ (refs_of (λ (o : SelfModelOperation). o.evidence_refs)
                                      d.self_model_operations
                                    ++ (refs_of (λ (o : EntityOperation). o.evidence_refs)
                                          d.entity_operations
                                        ++ (refs_of (λ (o : ProjectOperation). o.evidence_refs)
                                              d.project_operations
                                            ++ (refs_of
                                                  (λ (o : RelationshipOperation). o.evidence_refs)
                                                  d.relationship_operations
                                                ++ refs_of
                                                    (λ (o : RelationshipThreadOperation).
                                                      o.evidence_refs)
                                                    d.relationship_thread_operations)))))))))))

-- `if test: errors.append(error)`
unfoldable pub when : Bool → DecisionError → List DecisionError
when test error = if test then error ∷ [] else []

checks : CognitionDecision → ℕ → ℕ → (Ref → Bool) → List DecisionError
checks d cycle_id turn_id known_ref =
    let ids = operation_ids d in
    when (not (d.cycle_id == cycle_id)) cycle_id_mismatch
    ++ (when (not (d.turn_id == turn_id)) turn_id_mismatch
        ++ (when (not (length ids == length (distinct ids))) duplicate_operation_id
            ++ (when (not (is_empty d.action_requests)) unsupported_operations
                ++ (when (any (λ r. not (known_ref r)) (decision_refs d)) unknown_ref
                    ++ (when (ltb 16 (length d.wake_requests)) too_many_wake_requests
                        ++ when (ltb 64 (length ids)) too_many_operations)))))

unfoldable pub validate_decision : CognitionDecision → ℕ → ℕ → (Ref → Bool) → List DecisionError
unfolding checks
validate_decision d cycle_id turn_id known_ref =
    if parses d then checks d cycle_id turn_id known_ref else invalid_decision ∷ []
