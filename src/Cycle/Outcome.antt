-- ===== src/Cycle/Outcome.antt =====
-- The ways in which recording an answer ends: record_result of src/cognition/stores/cognition.py.
use cognition.Prelude.{
  ℕ, ◌≡◌, true, false, not, ◌||◌, Option, none, some, String, ◌==◌, Bool-cases, inl, inr,
}
use cognition.Protocol.Decision.{CognitionDecision}
use cognition.Protocol.Model.{ModelRequest, ModelResult}
use cognition.Store.Result.{ok, Error, >>=-elim, require, raise_if}
use cognition.Store.Rows.{TurnStatus, is_started, decision_recorded}
use cognition.Store.Db.{Db, find_turn}
use cognition.Cycle.Collaborators.{Collaborators}
use cognition.Cycle.Stages.{finish_cycle, end_turn, record_execution_event}
use cognition.Cycle.Invoke.{
  CycleRecord, TurnRecord, with_invocations, find_invocation, record_invocation_failure,
  failed_with,
}
use cognition.Cycle.Result.{
  retryable, status_text, is_refused, is_completed, retryable, failed_answer, completed_answer,
  is_duplicate, mark_decided, record_unsuccessful, record_decision, record_completed, record_answer,
  protocol_differs, record_result,
}

module _ (s : Collaborators) (cycle : CycleRecord) (turn : TurnRecord) (v : ℕ) (q : ModelRequest)
    (r : ModelResult) (now : ℕ) where
  -- The four ways a record ends.
  pub data Outcome (db db' : Db) : Type 0 where
    mismatched :
        (code : String)
        → db' ≡ with_invocations (λ x. x.invocation_id == v) (failed_with now code) db
        → Outcome db db'
    retried : (code : String) → db' ≡ failed_answer v r now code db → Outcome db db'
    ended :
        (code reason : String)
        → finish_cycle s cycle.cycle_id now reason true
            (end_turn turn.turn_id TurnStatus.failed now (failed_answer v r now code db))
          ≡ ok db'
        → Outcome db db'
    decided :
        (d : CognitionDecision)
        → is_duplicate d db ≡ false
        → db'
          ≡ record_execution_event cycle.individual_id
              (some cycle.cycle_id)
              "cognition.decision_recorded"
              "model"
              now
              (decision_recorded d.decision_id turn.turn_id (s.content_hash d))
              (mark_decided s turn.turn_id d (completed_answer v r now db))
        → Outcome db db'

  failure-Outcome :
      (code : String) (db db' : Db)
      → record_invocation_failure v now code db ≡ ok db'
      → Outcome db db'
  unfolding record_invocation_failure
  failure-Outcome code db db' h =
      >>=-elim (require (find_invocation v db) Error.value_error) _ h λ row e1 h1.
        >>=-elim (raise_if (not (is_started row.status)) Error.value_error) _ h1
          λ _ e2 h2. mismatched code (cc)

  unsuccessful-Outcome :
      (db db' : Db) → record_unsuccessful s cycle turn v r now db ≡ ok db' → Outcome db db'
  unfolding record_unsuccessful
  unsuccessful-Outcome db db' h =
      elim (Bool-cases (is_refused r.status || not (retryable r.error))) [
        | inl stop ↦ ended (status_text r.status) (status_text r.status) (rw stop at h)
        | inr again ↦
            let same : ok (failed_answer v r now (status_text r.status) db) ≡ ok db' =
              rw again at h in
            retried (status_text r.status) (cc)
      ]

  decision-Outcome :
      (d : CognitionDecision) (db db' : Db)
      → record_decision s cycle turn v r d now db ≡ ok db'
      → Outcome db db'
  unfolding record_decision
  decision-Outcome d db db' h = elim (Bool-cases (is_duplicate d db)) [
    | inl seen ↦ ended "duplicate_decision_id" "duplicate_decision_id" (rw seen at h)
    | inr fresh ↦ let marked = rw fresh at h in decided d fresh (cc)
  ]

  completed-Outcome :
      (o : Option CognitionDecision) (db db' : Db)
      → record_completed s cycle turn v r o now db ≡ ok db'
      → Outcome db db'
  unfolding record_completed
  completed-Outcome none db db' h = absurd (cc)
  completed-Outcome (some d) db db' h = decision-Outcome d db db' h

  answer-Outcome : (db db' : Db) → record_answer s cycle turn v r now db ≡ ok db' → Outcome db db'
  unfolding record_answer
  answer-Outcome db db' h = elim (Bool-cases (is_completed r.status)) [
    | inl e ↦ completed-Outcome r.decision db db' (rw e at h)
    | inr e ↦ unsuccessful-Outcome db db' (rw e at h)
  ]

  pub record_result-Outcome :
      (db db' : Db) → record_result s cycle turn v q r now db ≡ ok db' → Outcome db db'
  unfolding record_result
  record_result-Outcome db db' h =
      >>=-elim (require (find_invocation v db) Error.value_error) _ h λ row e1 h1.
        >>=-elim (require (find_turn turn.turn_id db) Error.value_error) _ h1 λ _ e2 h2.
          >>=-elim (raise_if (not (is_started row.status)) Error.value_error) _ h2 λ _ e3 h3.
            elim (Bool-cases (not (r.request_id == q.request_id))) [
              | inl other ↦ failure-Outcome "request_id_mismatch" db db' (rw other at h3)
              | inr same ↦ elim (Bool-cases (protocol_differs r q)) [
                | inl differs ↦
                    failure-Outcome "protocol_mismatch" db db' (rw (same, differs) at h3)
                | inr agrees ↦ answer-Outcome db db' (rw (same, agrees) at h3)
              ]
            ]
