-- ===== src/Cycle/Stages.antt =====
-- Records, events, and the operations that end a turn or a cycle
-- (src/cognition/stores/cognition.py: execution_allowed, record_execution_event, _new_turn,
-- finish_cycle, fail_turn).
use cognition.Prelude.{
  ℕ, ◌+◌, Bool, true, false, not, ◌&&◌, Option, none, some, String, [], ◌∷◌, ◌++◌, ◌==◌, update,
  if◌then◌else◌,
}
use cognition.Protocol.Ref.{Ref}
use cognition.Store.Result.{Result, ok, err, Error, ◌>>=◌, ◌>>◌, require}
use cognition.Store.Rows.{
  OperationalStatus, Wake, WakeStatus, is_claimed, CognitionCycle, CycleStatus, is_active,
  CognitionTurn, TurnStatus, Payload, cycle_finished, SourceId, runtime_contract, internal_content,
}
use cognition.Store.Db.{
  Db, new_id, append_event, find_individual, find_governance, find_cycle, find_turn, in_cycle,
}
use cognition.Cycle.Collaborators.{Collaborators, record_outcomes}

abbrev is_active_individual : OperationalStatus → Bool
is_active_individual OperationalStatus.active = true
is_active_individual _ = false

unfoldable pub execution_allowed : Db → ℕ → Result Bool
execution_allowed db i = do
  person ← require (find_individual i db) Error.lookup_error
  governance ← require (find_governance i db) Error.lookup_error
  ok (is_active_individual person.operational_status && not governance.inference_blocked)

abbrev cycle_ref : Option ℕ → Option Ref
cycle_ref none = none
cycle_ref (some c) = some (record { kind = "cycle"; id = c })

unfoldable pub record_execution_event : ℕ → Option ℕ → String → String → ℕ → Payload → Db → Db
record_execution_event i c event_type source_kind now payload db =
    let (id, drawn) = new_id db in
    append_event
      (record {
        event_id = id;
        individual_id = i;
        event_type = event_type;
        occurred_at = some now;
        observed_at = now;
        recorded_at = now;
        source_kind = source_kind;
        source_id = some (SourceId.name "cognition");
        source_binding_id = none;
        actor_entity_id = none;
        causation_event_id = none;
        correlation_id = c;
        subject = cycle_ref c;
        provenance = runtime_contract "3.1";
        runtime_version = "0.1.0";
        content = internal_content payload;
      })
      drawn

-- Writes to single tables of the cycle store.
abbrev pub with_cycles : (CognitionCycle → Bool) → (CognitionCycle → CognitionCycle) → Db → Db
with_cycles p f db = record db { cognition = record db.cognition { cycles = update p f db.cycles } }

abbrev pub with_turns : (CognitionTurn → Bool) → (CognitionTurn → CognitionTurn) → Db → Db
with_turns p f db = record db { cognition = record db.cognition { turns = update p f db.turns } }

abbrev pub add_turn : CognitionTurn → Db → Db
add_turn t db = record db { cognition = record db.cognition { turns = db.turns ++ t ∷ [] } }

unfoldable pub new_turn : ℕ → ℕ → ℕ → Db → Db
new_turn c ordinal now db =
    let (id, drawn) = new_id db in
    add_turn
      (record {
        turn_id = id;
        cycle_id = c;
        ordinal = ordinal;
        status = TurnStatus.prepared;
        created_at = now;
        completed_at = none;
        decision = none;
        decision_hash = none;
        validation_errors = [];
      })
      drawn

abbrev pub terminal_status : Bool → CycleStatus
terminal_status failed = if failed then CycleStatus.failed else CycleStatus.completed

abbrev pub closed : ℕ → String → Bool → CognitionCycle → CognitionCycle
closed now reason failed row = record row {
  status = terminal_status failed;
  completed_at = some now;
  terminal_reason = some reason;
  revision = row.revision + 1;
}

abbrev pub consumed : ℕ → Wake → Wake
consumed now w = record w {
  status = WakeStatus.consumed;
  consumed_at = some now;
  revision = w.revision + 1;
}

abbrev pub held_by : Db → ℕ → Wake → Bool
held_by db c w = in_cycle db c w.wake_id && is_claimed w.status

abbrev pub consume_wakes : ℕ → ℕ → Db → Db
consume_wakes c now db = record db { wakes = update (held_by db c) (consumed now) db.wakes }

-- The writes of `finish_cycle` up to its accounting.
unfoldable pub close_cycle : ℕ → CognitionCycle → ℕ → String → Bool → Db → Db
unfolding record_execution_event
close_cycle c row now reason failed db =
    record_execution_event row.individual_id (some c) "cognition.cycle_finished" "runtime" now
      (cycle_finished (terminal_status failed) reason)
      (consume_wakes c now (with_cycles (λ r. r.cycle_id == c) (closed now reason failed) db))

unfoldable pub finish_active :
    Collaborators → ℕ → CognitionCycle → ℕ → String → Bool → Db → Result Db
finish_active s c row now reason failed db = do
  s.get_cycle_inbound db c
  record_outcomes s c now (close_cycle c row now reason failed db)

unfoldable pub finish_cycle : Collaborators → ℕ → ℕ → String → Bool → Db → Result Db
unfolding finish_active
finish_cycle s c now reason failed db = do
  row ← require (find_cycle c db) Error.lookup_error
  if is_active row.status then finish_active s c row now reason failed db else ok db

-- `row.status, row.completed_at = status, now`
abbrev pub end_turn : ℕ → TurnStatus → ℕ → Db → Db
end_turn t status now =
    with_turns (λ r. r.turn_id == t) (λ r. record r { status = status; completed_at = some now })

unfoldable pub fail_turn : Collaborators → ℕ → ℕ → ℕ → String → Db → Result Db
fail_turn s c t now reason db = do
  row ← require (find_turn t db) Error.lookup_error
  if row.cycle_id == c
      then finish_cycle s c now reason true (end_turn t TurnStatus.failed now db)
      else err Error.lookup_error
