-- ===== src/Cycle/Apply.antt =====
-- Applying a recorded decision (src/cognition/stores/cognition.py: known_reference,
-- apply_decision).
use cognition.Prelude.{
  ℕ, suc, zero, ◌+◌, Bool, true, false, not, ◌&&◌, ◌||◌, Option, none, some, String, List, [], ◌∷◌,
  ◌++◌, map, ◌==◌, leb, max, str_eq, is_some, opt_eq, find, any, update, if◌then◌else◌,
}
use cognition.Protocol.Ref.{Ref}
use cognition.Protocol.Decision.{
  CognitionDecision, CurrentFocus, Disposition, WakeRequest, is_empty,
}
use cognition.Protocol.Model.{ModelRequest}
use cognition.Policy.Cognition.{
  DecisionError, when, validate_decision, wake_requests_forbidden, unsupported_for_frozen_contract,
  operation_id_already_applied, wake_id_already_exists, personal,
}
use cognition.Store.Result.{Result, ok, err, Error, ◌>>=◌, ◌>>◌, require, raise_if}
use cognition.Store.Rows.{
  Event, Wake, WakeKind, CognitionCycle, TurnStatus, ContextSnapshot, AppliedOperation,
  AttentionState,
}
use cognition.Store.Db.{
  Db, find_governance, find_event, find_wake, find_cycle, find_turn, add_delay,
}
use cognition.Wakes.{WakeV1, create_or_merge_pending_wake}
use cognition.Cycle.Collaborators.{Collaborators}
use cognition.Cycle.Stages.{finish_cycle, end_turn, with_turns, new_turn}
use cognition.Cycle.Invoke.{CycleRecord, TurnRecord}

abbrev event_owner : Option Event → Option ℕ
event_owner none = none
event_owner (some e) = some e.individual_id

abbrev wake_owner : Option Wake → Option ℕ
wake_owner none = none
wake_owner (some w) = some w.individual_id

abbrev cycle_owner : Option CognitionCycle → Option ℕ
cycle_owner none = none
cycle_owner (some c) = some c.individual_id

unfoldable pub known_reference : Collaborators → Db → ℕ → Ref → Bool
known_reference s db i ref =
    if str_eq ref.kind "individual"
    then ref.id == i
    else if str_eq ref.kind "governance"
    then ref.id == i && is_some (find_governance ref.id db)
    else if str_eq ref.kind "event"
    then opt_eq (event_owner (find_event ref.id db)) (some i)
    else if str_eq ref.kind "wake"
    then opt_eq (wake_owner (find_wake ref.id db)) (some i)
    else if str_eq ref.kind "cycle"
    then opt_eq (cycle_owner (find_cycle ref.id db)) (some i)
    else s.personal_reference_exists db i ref

-- Which of `_PERSONAL_FAMILIES` the decision uses, in their order.
unfoldable pub personal_families : CognitionDecision → List Bool
personal_families d =
    not (is_empty d.goal_operations)
    ∷ not (is_empty d.commitment_operations)
    ∷ not (is_empty d.belief_operations)
    ∷ not (is_empty d.episode_operations)
    ∷ not (is_empty d.interest_operations)
    ∷ not (is_empty d.preference_operations)
    ∷ not (is_empty d.self_model_operations)
    ∷ not (is_empty d.entity_operations)
    ∷ not (is_empty d.project_operations)
    ∷ not (is_empty d.relationship_operations)
    ∷ not (is_empty d.relationship_thread_operations)
    ∷ []

abbrev pub is_personal : CognitionDecision → Bool
is_personal d = any (λ b. b) (personal_families d)

-- `_CONTRACT_PERSONAL_FAMILIES`: how many of the families a runtime contract supports.
unfoldable pub contract_families : String → ℕ
contract_families version =
    if str_eq version "3.0"
    then 4
    else if str_eq version "3.1"
    then 7
    else if str_eq version "3.2"
    then 11
    else 0

-- The families in use are among the first n.
unfoldable pub families_within : ℕ → List Bool → Bool
families_within n [] = true
families_within zero (b ∷ rest) = not b && families_within zero rest
families_within (suc n) (b ∷ rest) = families_within n rest

abbrev pub find_snapshot : ℕ → Db → Option ContextSnapshot
find_snapshot t db = find (λ r. r.turn_id == t) db.snapshots

abbrev pub contract_version : Option ContextSnapshot → String
contract_version none = ""
contract_version (some r) = r.runtime_contract_version

abbrev pub is_applied : ℕ → Db → Bool
is_applied o db = any (λ a. a.operation_id == o) db.applied_operations

unfoldable pub personal_errors :
    Collaborators
    → CycleRecord
    → TurnRecord
    → CognitionDecision
    → ℕ
    → Db
    → Result (List DecisionError)
unfolding personal_families contract_families families_within
personal_errors s cycle turn d now db =
    if is_personal d
    then (do
      found ← s.validate_personal_operations db cycle.individual_id d now
      ok (
          when
            (not (
              families_within (contract_families (contract_version (find_snapshot turn.turn_id db)))
                (personal_families d)))
            unsupported_for_frozen_contract
          ++ map personal found))
    else ok []

unfoldable pub wake_errors : List WakeRequest → Db → List DecisionError
wake_errors [] db = []
wake_errors (r ∷ rest) db =
    when (is_applied r.operation_id db) operation_id_already_applied
    ++ (when (is_some (find_wake r.operation_id db)) wake_id_already_exists ++ wake_errors rest db)

-- `decision.wake_requests and get_cycle_exploration(...)`
exploration_errors :
    Collaborators → CycleRecord → CognitionDecision → Db → Result (List DecisionError)
exploration_errors s cycle d db = if is_empty d.wake_requests then ok [] else (do
  exploring ← s.get_cycle_exploration db cycle.cycle_id
  ok (when exploring wake_requests_forbidden))

unfoldable pub decision_errors :
    Collaborators
    → CycleRecord
    → TurnRecord
    → CognitionDecision
    → ℕ
    → Db
    → Result (List DecisionError)
unfolding known_reference personal_errors wake_errors exploration_errors
decision_errors s cycle turn d now db = do
  let policy =
      validate_decision d cycle.cycle_id turn.turn_id (known_reference s db cycle.individual_id)
  exploration ← exploration_errors s cycle d db
  state ← personal_errors s cycle turn d now db
  ok (policy ++ (exploration ++ (state ++ wake_errors d.wake_requests db)))

unfoldable pub reject_decision :
    Collaborators → CycleRecord → TurnRecord → List DecisionError → ℕ → Db → Result Db
reject_decision s cycle turn errors now db =
    finish_cycle s cycle.cycle_id now "decision_rejected" true (
      with_turns (λ r. r.turn_id == turn.turn_id)
        (λ r. record r {
          status = TurnStatus.rejected;
          completed_at = some now;
          validation_errors = errors;
        })
        db)

abbrev new_attention : ℕ → AttentionState
new_attention i = record {
  individual_id = i;
  current_focus = none;
  last_cycle_id = none;
  last_cognition_at = none;
  revision = 1;
}

abbrev pub attended : Option CurrentFocus → ℕ → ℕ → AttentionState → AttentionState
attended focus c now a = record a {
  current_focus = if is_some focus then focus else a.current_focus;
  last_cycle_id = some c;
  last_cognition_at = some now;
  revision = a.revision + 1;
}

-- The individual's row is created where it is missing, then updated.
unfoldable pub attend : Option CurrentFocus → CycleRecord → ℕ → Db → Db
attend focus cycle now db =
    let present = any (λ a. a.individual_id == cycle.individual_id) db.attention in
    let rows =
      if present then db.attention else db.attention ++ new_attention cycle.individual_id ∷ [] in
    record db {
      cognition = record db.cognition {
        attention =
            update (λ a. a.individual_id == cycle.individual_id) (attended focus cycle.cycle_id now)
              rows;
      };
    }

abbrev pub requested_wake : CycleRecord → ℕ → WakeRequest → WakeV1
requested_wake cycle due r = record {
  wake_id = r.operation_id;
  individual_id = cycle.individual_id;
  kind = WakeKind.self_scheduled;
  due_at = due;
  purpose = r.purpose;
  cause_event_id = none;
  context_refs = r.context_refs;
  coalesce_key = r.coalesce_key;
}

-- `session.add(AppliedOperation(...))`, which the primary key guards.
unfoldable pub add_applied : AppliedOperation → Db → Result Db
add_applied a db = do
  raise_if (is_applied a.operation_id db) Error.integrity_error
  ok (record db {
    cognition = record db.cognition { applied_operations = db.applied_operations ++ a ∷ [] };
  })

unfoldable pub apply_wake_requests :
    CycleRecord → TurnRecord → ℕ → List WakeRequest → Db → Result Db
unfolding add_applied
apply_wake_requests cycle turn now [] db = ok db
apply_wake_requests cycle turn now (r ∷ rest) db = do
  earliest ← add_delay now cycle.min_wake_delay
  (id, merged) ←
      create_or_merge_pending_wake (requested_wake cycle (max r.not_before earliest) r) db
  applied ←
      add_applied
        (record {
          operation_id = r.operation_id;
          turn_id = turn.turn_id;
          individual_id = cycle.individual_id;
          kind = "wake_request";
          applied_at = now;
        })
        merged
  apply_wake_requests cycle turn now rest applied

abbrev pub disposition_text : Disposition → String
disposition_text Disposition.continue = "continue"
disposition_text Disposition.wait = "wait"
disposition_text Disposition.sleep = "sleep"

abbrev pub continues : Disposition → Bool
continues Disposition.continue = true
continues _ = false

-- What follows an applied decision: the end of the cycle, or its next turn.
unfoldable pub conclude :
    Collaborators → CycleRecord → TurnRecord → Disposition → ℕ → Db → Result Db
conclude s cycle turn disposition now db =
    if not (continues disposition)
    then finish_cycle s cycle.cycle_id now (disposition_text disposition) false db
    else if leb cycle.max_turns turn.ordinal || leb cycle.deadline_at now
    then finish_cycle s cycle.cycle_id now
        (if leb cycle.max_turns turn.ordinal then "turn_limit" else "deadline") false db
    else ok (new_turn cycle.cycle_id (turn.ordinal + 1) now db)

unfoldable pub accept_decision :
    Collaborators → CycleRecord → TurnRecord → CognitionDecision → ℕ → Db → Result Db
accept_decision s cycle turn d now db = do
  stated ←
      (if is_personal d then s.apply_personal_operations cycle.individual_id d now db else ok db)
  scheduled ←
      apply_wake_requests cycle turn now d.wake_requests (attend d.current_focus cycle now stated)
  conclude s cycle turn d.disposition now (end_turn turn.turn_id TurnStatus.applied now scheduled)

abbrev pub differs_from_request : CognitionDecision → Option ModelRequest → Bool
differs_from_request d none = true
differs_from_request d (some q) = not (d.schema_version == q.cognition_protocol_version)

unfoldable pub apply_recorded :
    Collaborators → CycleRecord → TurnRecord → CognitionDecision → ℕ → Db → Result Db
apply_recorded s cycle turn d now db = do
  frozen ← s.load_request db turn.turn_id
  raise_if (differs_from_request d frozen) Error.incompatible
  errors ← decision_errors s cycle turn d now db
  require (find_turn turn.turn_id db) Error.assertion_error
  if is_empty errors
      then accept_decision s cycle turn d now db
      else reject_decision s cycle turn errors now db

unfoldable pub apply_stage :
    Collaborators
    → CycleRecord
    → TurnRecord
    → TurnStatus
    → Option CognitionDecision
    → ℕ
    → Db
    → Result Db
apply_stage s cycle turn TurnStatus.applied d now db = ok db
apply_stage s cycle turn TurnStatus.decided (some d) now db = apply_recorded s cycle turn d now db
apply_stage s cycle turn _ _ now db = err Error.value_error

-- `turn.status`, then the decision that an unapplied turn must hold
unfoldable pub apply_decision : Collaborators → CycleRecord → TurnRecord → ℕ → Db → Result Db
unfolding apply_stage
apply_decision s cycle turn now db = apply_stage s cycle turn turn.status turn.decision now db
