-- ===== src/Cycle/Rejected.antt =====
-- What a rejected decision leaves behind: apply_decision of src/cognition/stores/cognition.py.
use cognition.Prelude.{ℕ, ◌≡◌, true, false, Option, none, some, List}
use cognition.Protocol.Decision.{CognitionDecision, is_empty}
use cognition.Policy.Cognition.{DecisionError}
use cognition.Store.Result.{ok, Error, >>=-elim, require, raise_if}
use cognition.Store.Rows.{TurnStatus, CognitionCycle, is_active}
use cognition.Store.Db.{Db, find_cycle, find_turn}
use cognition.Cycle.Collaborators.{Collaborators, Keeps}
use cognition.Cycle.Finish.{finished_row, finish_cycle-SameStages, finish_cycle-IsFinished}
use cognition.Cycle.Invoke.{CycleRecord, TurnRecord}
use cognition.Cycle.Apply.{
  reject_decision, decision_errors, differs_from_request, apply_recorded, apply_stage,
  apply_decision,
}
use cognition.Cycle.Applied.{with_errors}

module _ (s : Collaborators) (k : Keeps s) (cycle : CycleRecord) (turn : TurnRecord) (now : ℕ) where
  -- A rejected decision: nothing it asks for is done, its turn holds the errors, and its cycle is
  -- closed as failed.
  pub record IsRejected (errors : List DecisionError) (row : CognitionCycle) (db db' : Db)
      : Type 0 where
    pub turn_rejected : db'.turns ≡ with_errors s k cycle turn now errors db.turns
    pub nothing_applied : db'.applied_operations ≡ db.applied_operations
    pub attention_kept : db'.attention ≡ db.attention
    pub no_authority : (db'.individuals ≡ db.individuals) × (db'.governance ≡ db.governance)
    pub cycle_closed :
        find_cycle cycle.cycle_id db' ≡ some (finished_row now "decision_rejected" true row)

  staged_decision :
      (st : TurnStatus) (o : Option CognitionDecision) (d : CognitionDecision) (db db' : Db)
      → st ≡ TurnStatus.decided
      → o ≡ some d
      → apply_stage s cycle turn st o now db ≡ ok db'
      → apply_recorded s cycle turn d now db ≡ ok db'
  unfolding apply_stage
  staged_decision TurnStatus.decided (some x) d db db' e f h = let same : x ≡ d = cc in rw same at h
  staged_decision TurnStatus.decided none d db db' e f h = absurd (cc)
  staged_decision TurnStatus.prepared o d db db' e f h = absurd (cc)
  staged_decision TurnStatus.invoking o d db db' e f h = absurd (cc)
  staged_decision TurnStatus.applied o d db db' e f h = absurd (cc)
  staged_decision TurnStatus.rejected o d db db' e f h = absurd (cc)
  staged_decision TurnStatus.failed o d db db' e f h = absurd (cc)

  -- For collaborators that keep to their tables, a decided turn whose decision has an error, and
  -- an active cycle: where apply_decision succeeds, the turn is rejected with the errors,
  -- nothing is added to the applied operations, attention, individuals and governance are as
  -- they were, and the cycle is closed as failed with the reason decision_rejected.
  pub apply_decision-IsRejected :
      (d : CognitionDecision) (errors : List DecisionError) (row : CognitionCycle) (db db' : Db)
      → turn.status ≡ TurnStatus.decided
      → turn.decision ≡ some d
      → decision_errors s cycle turn d now db ≡ ok errors
      → is_empty errors ≡ false
      → find_cycle cycle.cycle_id db ≡ some row
      → is_active row.status ≡ true
      → apply_decision s cycle turn now db ≡ ok db'
      → IsRejected errors row db db'
  unfolding apply_decision apply_recorded reject_decision
  apply_decision-IsRejected d errors row db db' decided_turn decision errs dirty found live h =
      >>=-elim (s.load_request db turn.turn_id) _
        (staged_decision turn.status turn.decision d db db' decided_turn decision h)
        λ frozen e1 h1.
          >>=-elim (raise_if (differs_from_request d frozen) Error.incompatible) _ h1 λ _ e2 h2.
            >>=-elim (decision_errors s cycle turn d now db) _ h2 λ es e3 h3.
              let same : es ≡ errors = cc (e3, errs) in
              >>=-elim (require (find_turn turn.turn_id db) Error.assertion_error) _ h3 λ _ e4 h4.
                let ended = rw (same, dirty) at h4 in
                let kept =
                  finish_cycle-SameStages s k cycle.cycle_id now "decision_rejected" true _ db'
                    ended in
                let done =
                  finish_cycle-IsFinished s k cycle.cycle_id now "decision_rejected" true row _ db'
                    found live ended in
                record {
                  turn_rejected = kept.turns;
                  nothing_applied = kept.applied;
                  attention_kept = kept.attention;
                  no_authority = (kept.individuals, kept.governance);
                  cycle_closed = done.row_closed;
                }
