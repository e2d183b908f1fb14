-- ===== src/Cycle/Result.antt =====
-- Recording what the model answered (src/cognition/stores/cognition.py: record_result).
use cognition.Prelude.{
  ℕ, Bool, true, false, not, ◌||◌, Option, none, some, String, ◌==◌, any, if◌then◌else◌,
}
use cognition.Protocol.Decision.{CognitionDecision}
use cognition.Protocol.Model.{ModelRequest, ModelResult, ModelError, ResultStatus}
use cognition.Store.Result.{Result, ok, err, Error, ◌>>=◌, ◌>>◌, require, raise_if}
use cognition.Store.Rows.{
  CognitionTurn, TurnStatus, InvocationStatus, is_started, decision_recorded,
}
use cognition.Store.Db.{Db, find_turn}
use cognition.Cycle.Collaborators.{Collaborators}
use cognition.Cycle.Stages.{finish_cycle, end_turn, with_turns, record_execution_event}
use cognition.Cycle.Invoke.{
  CycleRecord, TurnRecord, with_invocations, find_invocation, record_invocation_failure,
}

-- Provider diagnostics are replaced before they are kept.
abbrev pub sanitized : Option ModelError → Option ModelError
sanitized none = none
sanitized (some e) = some (record {
  code = "provider_reported_error";
  message = "Provider reported an error";
  retryable = e.retryable;
})

abbrev pub retained : ModelResult → ModelResult
retained r = record r { error = sanitized r.error }

abbrev pub status_text : ResultStatus → String
status_text ResultStatus.completed = "completed"
status_text ResultStatus.refused = "refused"
status_text ResultStatus.failed = "failed"

abbrev pub is_refused : ResultStatus → Bool
is_refused ResultStatus.refused = true
is_refused _ = false

abbrev pub is_completed : ResultStatus → Bool
is_completed ResultStatus.completed = true
is_completed _ = false

abbrev pub retryable : Option ModelError → Bool
retryable none = false
retryable (some e) = e.retryable

-- The invocation keeps the answer, and fails with a code or completes.
abbrev pub failed_answer : ℕ → ModelResult → ℕ → String → Db → Db
failed_answer v r now code db =
    with_invocations (λ x. x.invocation_id == v)
      (λ x. record x {
        result = some (retained r);
        completed_at = some now;
        status = InvocationStatus.failed;
        error_code = some code;
      })
      db

abbrev pub completed_answer : ℕ → ModelResult → ℕ → Db → Db
completed_answer v r now db =
    with_invocations (λ x. x.invocation_id == v)
      (λ x. record x {
        result = some (retained r);
        completed_at = some now;
        status = InvocationStatus.completed;
      })
      db

abbrev pub decides : ℕ → CognitionTurn → Bool
decides d t = elim t.decision [ none ↦ false | some x ↦ x.decision_id == d ]

-- A decision with this identity was recorded before, for any turn.
abbrev pub is_duplicate : CognitionDecision → Db → Bool
is_duplicate d db = any (decides d.decision_id) db.turns

abbrev pub mark_decided : Collaborators → ℕ → CognitionDecision → Db → Db
mark_decided s t d db =
    with_turns (λ r. r.turn_id == t)
      (λ r. record r {
        decision = some d;
        decision_hash = some (s.content_hash d);
        status = TurnStatus.decided;
      })
      db

-- A refusal or a failure that may not be retried ends the turn and its cycle.
unfoldable pub record_unsuccessful :
    Collaborators → CycleRecord → TurnRecord → ℕ → ModelResult → ℕ → Db → Result Db
record_unsuccessful s cycle turn v r now db =
    let kept = failed_answer v r now (status_text r.status) db in
    if is_refused r.status || not (retryable r.error)
    then finish_cycle s cycle.cycle_id now (status_text r.status) true
        (end_turn turn.turn_id TurnStatus.failed now kept)
    else ok kept

unfoldable pub record_decision :
    Collaborators
    → CycleRecord
    → TurnRecord
    → ℕ
    → ModelResult
    → CognitionDecision
    → ℕ
    → Db
    → Result Db
record_decision s cycle turn v r d now db =
    if is_duplicate d db
    then finish_cycle s cycle.cycle_id now "duplicate_decision_id" true (
        end_turn turn.turn_id TurnStatus.failed now
          (failed_answer v r now "duplicate_decision_id" db))
    else ok (
        record_execution_event cycle.individual_id (some cycle.cycle_id)
          "cognition.decision_recorded" "model" now
          (decision_recorded d.decision_id turn.turn_id (s.content_hash d))
          (mark_decided s turn.turn_id d (completed_answer v r now db)))

unfoldable pub record_completed :
    Collaborators
    → CycleRecord
    → TurnRecord
    → ℕ
    → ModelResult
    → Option CognitionDecision
    → ℕ
    → Db
    → Result Db
unfolding record_decision
record_completed s cycle turn v r none now db = err Error.assertion_error
record_completed s cycle turn v r (some d) now db = record_decision s cycle turn v r d now db

-- `result.status != "completed"`, else the decision that the result's validator requires
unfoldable pub record_answer :
    Collaborators → CycleRecord → TurnRecord → ℕ → ModelResult → ℕ → Db → Result Db
unfolding record_completed record_unsuccessful
record_answer s cycle turn v r now db =
    if is_completed r.status
    then record_completed s cycle turn v r r.decision now db
    else record_unsuccessful s cycle turn v r now db

abbrev pub protocol_differs : ModelResult → ModelRequest → Bool
protocol_differs r q = not (r.schema_version == q.cognition_protocol_version) || elim r.decision [
  | none ↦ false
  | some d ↦ not (d.schema_version == q.cognition_protocol_version)
]

unfoldable pub record_result :
    Collaborators → CycleRecord → TurnRecord → ℕ → ModelRequest → ModelResult → ℕ → Db → Result Db
unfolding record_answer
record_result s cycle turn v q r now db = do
  invocation ← require (find_invocation v db) Error.value_error
  require (find_turn turn.turn_id db) Error.value_error
  raise_if (not (is_started invocation.status)) Error.value_error
  if not (r.request_id == q.request_id)
      then record_invocation_failure v now "request_id_mismatch" db
      else if protocol_differs r q
      then record_invocation_failure v now "protocol_mismatch" db
      else record_answer s cycle turn v r now db
