-- ===== src/Cycle/Invoke.antt =====
-- Model invocations of a turn: their budget, their start, and what came of them
-- (src/cognition/stores/cognition.py: CycleRecord, TurnRecord, settle_invocation_budget,
-- start_invocation, record_invocation_failure, record_result).
use cognition.Prelude.{
  ℕ, ◌+◌, Bool, true, false, not, ◌&&◌, ◌||◌, Option, none, some, String, [], ◌∷◌, ◌++◌, ◌==◌, leb,
  is_some, find, count, update, if◌then◌else◌,
}
use cognition.Protocol.Decision.{CognitionDecision}
use cognition.Store.Result.{Result, ok, Error, ◌>>=◌, ◌>>◌, require, raise_if}
use cognition.Store.Rows.{
  CognitionCycle, CycleStatus, TurnStatus, ModelInvocation, InvocationStatus, is_started,
}
use cognition.Store.Db.{Db, new_id, find_turn}
use cognition.Cycle.Collaborators.{Collaborators}
use cognition.Cycle.Stages.{finish_cycle, end_turn, with_turns}

pub record CycleRecord : Type 0 where
  pub cycle_id : ℕ
  pub individual_id : ℕ
  pub status : CycleStatus
  pub terminal_reason : Option String
  pub deadline_at : ℕ
  pub max_turns : ℕ
  pub max_attempts_per_turn : ℕ
  pub max_wakes : ℕ
  pub min_wake_delay : ℕ

-- `_cycle`
abbrev pub cycle_record : CognitionCycle → CycleRecord
cycle_record row = record {
  cycle_id = row.cycle_id;
  individual_id = row.individual_id;
  status = row.status;
  terminal_reason = row.terminal_reason;
  deadline_at = row.deadline_at;
  max_turns = row.max_turns;
  max_attempts_per_turn = row.max_attempts_per_turn;
  max_wakes = row.max_wakes;
  min_wake_delay = row.min_wake_delay;
}

pub record TurnRecord : Type 0 where
  pub turn_id : ℕ
  pub cycle_id : ℕ
  pub ordinal : ℕ
  pub status : TurnStatus
  pub decision : Option CognitionDecision

abbrev pub with_invocations :
    (ModelInvocation → Bool) → (ModelInvocation → ModelInvocation) → Db → Db
with_invocations p f db = record db {
  cognition = record db.cognition { invocations = update p f db.invocations };
}

abbrev pub add_invocation : ModelInvocation → Db → Db
add_invocation v db = record db {
  cognition = record db.cognition { invocations = db.invocations ++ v ∷ [] };
}

abbrev pub of_turn : ℕ → ModelInvocation → Bool
of_turn t v = v.turn_id == t

abbrev pub attempts_of : ℕ → Db → ℕ
attempts_of t db = count (of_turn t) db.invocations

abbrev pub abandoned : ℕ → ModelInvocation → ModelInvocation
abandoned now v = record v {
  status = InvocationStatus.abandoned;
  completed_at = some now;
  error_code = some "interrupted";
}

-- Attempts that an interruption left open.
abbrev pub abandon_started : ℕ → ℕ → Db → Db
abandon_started t now db =
    with_invocations (λ v. of_turn t v && is_started v.status) (abandoned now) db

abbrev pub may_invoke : TurnStatus → Bool
may_invoke TurnStatus.prepared = true
may_invoke TurnStatus.invoking = true
may_invoke _ = false

-- `str(denial)`, which is read only where there is a denial
abbrev denial_text : Option String → String
denial_text none = "None"
denial_text (some text) = text

abbrev pub refusal : Bool → Bool → Option String → String
refusal spent late denial =
    if spent then "attempt_limit" else if late then "deadline" else denial_text denial

unfoldable pub settle_invocation_budget :
    Collaborators → CycleRecord → TurnRecord → ℕ → Db → Result (Bool × Db)
settle_invocation_budget s cycle turn now db = do
  raise_if (not (may_invoke turn.status)) Error.value_error
  let open_free = abandon_started turn.turn_id now db
  require (find_turn turn.turn_id open_free) Error.assertion_error
  denial ← s.exploration_start_denial open_free cycle.cycle_id
  let spent = leb cycle.max_attempts_per_turn (attempts_of turn.turn_id db)
  let late = leb cycle.deadline_at now
  if spent || late || is_some denial
      then (do
        finished ←
            finish_cycle s cycle.cycle_id now (refusal spent late denial) true
              (end_turn turn.turn_id TurnStatus.failed now open_free)
        ok (true, finished))
      else ok (false, open_free)

abbrev pub new_invocation : ℕ → ℕ → ℕ → ℕ → ModelInvocation
new_invocation id t attempt now = record {
  invocation_id = id;
  turn_id = t;
  attempt_number = attempt;
  status = InvocationStatus.started;
  started_at = now;
  completed_at = none;
  result = none;
  error_code = none;
}

-- What `start_invocation` does once the budget is settled.
unfoldable pub open_invocation : ℕ → ℕ → Db → Option ℕ × Db
open_invocation t now db =
    let (id, drawn) = new_id db in
    (
      some id,
      add_invocation (new_invocation id t (attempts_of t db + 1) now)
          (with_turns (λ r. r.turn_id == t) (λ r. record r { status = TurnStatus.invoking }) drawn),
    )

unfoldable pub start_invocation :
    Collaborators → CycleRecord → TurnRecord → ℕ → Db → Result (Option ℕ × Db)
start_invocation s cycle turn now db = do
  (settled, db') ← settle_invocation_budget s cycle turn now db
  if settled then ok (none, db') else ok (open_invocation turn.turn_id now db')

abbrev pub find_invocation : ℕ → Db → Option ModelInvocation
find_invocation v db = find (λ r. r.invocation_id == v) db.invocations

abbrev pub failed_with : ℕ → String → ModelInvocation → ModelInvocation
failed_with now code v = record v {
  status = InvocationStatus.failed;
  completed_at = some now;
  error_code = some code;
}

unfoldable pub record_invocation_failure : ℕ → ℕ → String → Db → Result Db
record_invocation_failure v now code db = do
  row ← require (find_invocation v db) Error.value_error
  raise_if (not (is_started row.status)) Error.value_error
  ok (with_invocations (λ r. r.invocation_id == v) (failed_with now code) db)
