-- ===== src/Tests/Cycles.antt =====
-- The cycle's theorems at concrete databases.
use cognition.Prelude.{◌≡◌, ◌↔◌, refl, true, false, Option, none, some, [], ◌∷◌, arith}
use cognition.Protocol.Decision.{CognitionDecision, Disposition, parses}
use cognition.Protocol.Model.{ResultStatus}
use cognition.Policy.Cognition.{
  validate_decision, turn_id_mismatch, when, operation_ids, distinct, decision_refs,
}
use cognition.Wakes.{create_or_merge_pending_wake, valid_cause, merge_or_insert, merged, add_refs}
use cognition.Policy.Cognition.Accept.{IsAcceptable, validate_decision-nil_iff}
use cognition.Store.Result.{ok}
use cognition.Store.Rows.{TurnStatus, WakeStatus}
use cognition.Store.Db.{Db, add_delay}
use cognition.Cycle.Stages.{finish_cycle, record_execution_event, new_turn}
use cognition.Cycle.Collaborators.{Discovery, record_outcomes}
use cognition.Cycle.Invoke.{
  CycleRecord, start_invocation, settle_invocation_budget, open_invocation,
}
use cognition.Cycle.Result.{record_result}
use cognition.Cycle.Apply.{
  apply_decision, decision_errors, known_reference, apply_recorded, reject_decision,
  personal_families, wake_errors, accept_decision, attend, apply_wake_requests, add_applied,
  conclude,
}
use cognition.Cycle.Claim.{CycleLimits, claim, claim_or_resume, choose_wakes}
use cognition.Cycle.Finish.{IsFinished, finish_cycle-IsFinished, finish_cycle-finish_cycle}
use cognition.Cycle.Attempts.{
  IsStarted, IsStopped, start_invocation-IsStarted, start_invocation-IsStopped,
}
use cognition.Cycle.Recorded.{IsRecorded, record_result-IsRecorded}
use cognition.Cycle.Decided.{UniqueDecisions, record_result-UniqueDecisions}
use cognition.Cycle.Applied.{
  TurnsAfter, WithinTurns, apply_decision-TurnsAfter, apply_decision-WithinTurns,
}
use cognition.Cycle.Rejected.{IsRejected, apply_decision-IsRejected}
use cognition.Cycle.Single.{SingleActive, claim_or_resume-SingleActive}
use cognition.Cycle.Chosen.{Chosen, choose_wakes-Chosen}
use cognition.Tests.Samples.{
  quiet, quiet-Keeps, request, reached, reached_with, value_of, cycle_row, cycle, turn, invocation,
  world, resting, decision, wake_request, answer, wake,
}

-- finish_cycle
abbrev midway : Db
midway = world TurnStatus.prepared none

abbrev slept : Db
slept = reached midway (finish_cycle quiet 5 20 "sleep" false midway)

sleeps : finish_cycle quiet 5 20 "sleep" false midway ≡ ok slept
unfolding finish_cycle record_outcomes
sleeps = refl

finish_cycle-IsFinished_example : IsFinished 5 20 "sleep" false cycle_row midway slept
finish_cycle-IsFinished_example =
    finish_cycle-IsFinished quiet quiet-Keeps 5 20 "sleep" false cycle_row midway slept refl refl
      sleeps

finish_cycle-finish_cycle_example : finish_cycle quiet 5 25 "deadline" true slept ≡ ok slept
finish_cycle-finish_cycle_example =
    finish_cycle-finish_cycle quiet quiet-Keeps 5 20 "sleep" false cycle_row midway slept refl
      sleeps 25 "deadline" true

-- validate_decision
abbrev stray : CognitionDecision
stray = decision Disposition.sleep [] 6

stray_passes : validate_decision stray 5 6 (λ r. true) ≡ []
unfolding validate_decision parses when operation_ids distinct decision_refs
stray_passes = refl

validate_decision-nil_iff_example :
    (validate_decision stray 5 6 (λ r. true) ≡ []) ↔ IsAcceptable stray 5 6 (λ r. true)
validate_decision-nil_iff_example = validate_decision-nil_iff stray 5 6 (λ r. true)

-- start_invocation: the interrupted first attempt is abandoned, and a second one starts.
abbrev retried : Db
retried =
    reached_with midway (start_invocation quiet cycle (turn TurnStatus.prepared none) 20 midway)

retries :
    start_invocation quiet cycle (turn TurnStatus.prepared none) 20 midway ≡ ok (some 100, retried)
unfolding start_invocation settle_invocation_budget open_invocation
retries = refl

start_invocation-IsStarted_example :
    IsStarted quiet cycle (turn TurnStatus.prepared none) 20 midway retried
start_invocation-IsStarted_example =
    start_invocation-IsStarted quiet cycle (turn TurnStatus.prepared none) 20 100 midway retried
      retries

-- At the deadline the turn is stopped.
abbrev late : Db
late = reached_with midway (start_invocation quiet cycle (turn TurnStatus.prepared none) 100 midway)

stops : start_invocation quiet cycle (turn TurnStatus.prepared none) 100 midway ≡ ok (none, late)
unfolding start_invocation settle_invocation_budget finish_cycle record_outcomes
stops = refl

start_invocation-IsStopped_example :
    IsStopped quiet cycle (turn TurnStatus.prepared none) 100 cycle_row midway late
start_invocation-IsStopped_example =
    start_invocation-IsStopped quiet cycle (turn TurnStatus.prepared none) 100 quiet-Keeps cycle_row
      midway late refl refl stops

-- record_result
abbrev asked : Db
asked = world TurnStatus.invoking none

abbrev answered : Db
answered = reached asked (
    record_result quiet cycle (turn TurnStatus.invoking none) 7 request
      (answer ResultStatus.completed (some stray) none) 20 asked)

records :
    record_result quiet cycle
      (turn TurnStatus.invoking none)
      7
      request
      (answer ResultStatus.completed (some stray) none)
      20
      asked
    ≡ ok answered
unfolding record_result
records = refl

record_result-IsRecorded_example :
    IsRecorded quiet cycle
      (turn TurnStatus.invoking none)
      7
      request
      (answer ResultStatus.completed (some stray) none)
      20
      invocation
      answered
record_result-IsRecorded_example =
    record_result-IsRecorded quiet cycle (turn TurnStatus.invoking none) 7 request
      (answer ResultStatus.completed (some stray) none) 20 quiet-Keeps invocation asked answered
      refl records

nothing_decided : UniqueDecisions asked
nothing_decided d = omega arith

record_result-UniqueDecisions_example : UniqueDecisions answered
record_result-UniqueDecisions_example =
    record_result-UniqueDecisions quiet quiet-Keeps cycle (turn TurnStatus.invoking none) 7 request
      (answer ResultStatus.completed (some stray) none) 20 asked answered nothing_decided
      (omega arith) records

-- apply_decision: a decision for another turn is rejected.
abbrev astray : CognitionDecision
astray = decision Disposition.sleep [] 66

abbrev misled : Db
misled = world TurnStatus.decided (some astray)

abbrev rejected : Db
rejected =
    reached misled (apply_decision quiet cycle (turn TurnStatus.decided (some astray)) 20 misled)

rejects : apply_decision quiet cycle (turn TurnStatus.decided (some astray)) 20 misled ≡ ok rejected
unfolding apply_decision finish_cycle record_outcomes apply_recorded decision_errors reject_decision
    validate_decision parses when operation_ids distinct decision_refs
rejects = refl

one_error :
    decision_errors quiet cycle (turn TurnStatus.decided (some astray)) astray 20 misled
    ≡ ok (turn_id_mismatch ∷ [])
unfolding decision_errors validate_decision parses when operation_ids distinct decision_refs
one_error = refl

apply_decision-IsRejected_example :
    IsRejected quiet quiet-Keeps cycle
      (turn TurnStatus.decided (some astray))
      20
      (turn_id_mismatch ∷ [])
      cycle_row
      misled
      rejected
apply_decision-IsRejected_example =
    apply_decision-IsRejected quiet quiet-Keeps cycle (turn TurnStatus.decided (some astray)) 20
      astray (turn_id_mismatch ∷ []) cycle_row misled rejected refl refl one_error refl refl refl
      rejects

-- A decision to go on opens the next turn and merges its wake request.
abbrev onward : CognitionDecision
onward = decision Disposition.continue (wake_request ∷ []) 6

abbrev decided_world : Db
decided_world = world TurnStatus.decided (some onward)

abbrev applied : Db
applied =
    reached decided_world
      (apply_decision quiet cycle (turn TurnStatus.decided (some onward)) 20 decided_world)

applies :
    apply_decision quiet cycle (turn TurnStatus.decided (some onward)) 20 decided_world ≡ ok applied
unfolding apply_decision apply_recorded decision_errors known_reference personal_families
    wake_errors accept_decision attend apply_wake_requests add_applied create_or_merge_pending_wake
    valid_cause merge_or_insert merged add_refs add_delay conclude new_turn validate_decision parses
    when operation_ids distinct decision_refs
applies = refl

apply_decision-TurnsAfter_example :
    TurnsAfter quiet quiet-Keeps cycle
      (turn TurnStatus.decided (some onward))
      20
      (some onward)
      decided_world.turns
      applied.turns
apply_decision-TurnsAfter_example =
    apply_decision-TurnsAfter quiet quiet-Keeps cycle (turn TurnStatus.decided (some onward)) 20
      decided_world applied applies

apply_decision-WithinTurns_example :
    WithinTurns quiet quiet-Keeps cycle (turn TurnStatus.decided (some onward)) 20 applied.turns
apply_decision-WithinTurns_example =
    apply_decision-WithinTurns quiet quiet-Keeps cycle (turn TurnStatus.decided (some onward)) 20
      decided_world applied ((λ e. omega arith), tt) applies

-- claim_or_resume: the orphan is replaced, and the due wake opens a cycle.
abbrev limits : CycleLimits
limits = record {
  max_turns = 3;
  max_attempts_per_turn = 2;
  max_wakes = 16;
  max_time = 120;
  min_wake_delay = 1;
}

abbrev claimed_db : Db
claimed_db = reached_with resting (claim_or_resume quiet (λ w. false) 1 20 limits resting)

abbrev claimed_cycle : Option CycleRecord
claimed_cycle = value_of (claim_or_resume quiet (λ w. false) 1 20 limits resting)

claims : claim_or_resume quiet (λ w. false) 1 20 limits resting ≡ ok (claimed_cycle, claimed_db)
unfolding claim_or_resume create_or_merge_pending_wake record_execution_event add_delay
claims = refl

claim_or_resume-SingleActive_example : SingleActive claimed_db
claim_or_resume-SingleActive_example =
    claim_or_resume-SingleActive quiet quiet-Keeps (λ w. false) 1 20 limits resting claimed_db
      claimed_cycle (λ i. omega arith) claims

abbrev discovered : Discovery
discovered = record { managed_wake_ids = []; eligible = none }

chosen :
    choose_wakes quiet (λ w. false) discovered 1 20 limits resting
    ≡ ok (claim limits (wake 3 WakeStatus.pending (some "walk") ∷ []) resting)
unfolding choose_wakes
chosen = refl

choose_wakes-Chosen_example :
    Chosen quiet
      (λ w. false)
      discovered
      1
      20
      limits
      resting
      limits
      (wake 3 WakeStatus.pending (some "walk") ∷ [])
      resting
choose_wakes-Chosen_example =
    choose_wakes-Chosen quiet (λ w. false) discovered 1 20 limits resting limits
      (wake 3 WakeStatus.pending (some "walk") ∷ []) resting chosen
