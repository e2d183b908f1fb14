-- ===== src/Autonomy/State.antt =====
-- Reading the scheduler's state and materializing its wake: `_lock`, `_configuration`, `_policy`,
-- `_state`, `_snapshot`, `_initialize`, `_active_cycle`, `_desired`, `_materialize` and `_record` of
-- src/cognition/stores/autonomy.py.
use cognition.Prelude.{
  ℕ, ◌+◌, Bool, true, false, not, ◌&&◌, ◌||◌, Option, none, some, String, List, [], ◌∷◌, ◌++◌, ◌==◌,
  str_eq, leb, ltb, opt_eq, is_some, find, any, select, update, if◌then◌else◌,
}
use cognition.Protocol.Ref.{Ref, ref_eq}
use cognition.Store.Result.{Result, ok, err, Error, ◌>>=◌, ◌>>◌, require, raise_if}
use cognition.Store.Rows.{
  OperationalStatus, Wake, WakeKind, WakeStatus, CognitionCycle, CycleStatus, is_pending,
  is_claimed, is_active,
}
use cognition.Store.Db.{
  Db, find_individual, find_governance, find_cycle, find_wake, new_id, in_cycle,
}
use cognition.Config.{BehaviorConfiguration, Hashing, behavior_hash, parse_behavior_config}
use cognition.Config.Revisions.{RuntimeConfigRevision, is_active_for}
use cognition.Frozen.{value_errors}
use cognition.Heartbeat.{
  Floats, HeartbeatPolicy, HeartbeatSchedule, checked_policy, clamp, schedule,
  effective_minimum_seconds,
}
use cognition.Autonomy.{AutonomyState, CommitmentDue, Scheduler, AutonomySnapshot, Reporting}

abbrev heartbeat_purpose : String
heartbeat_purpose =
    "Consider whether durable intentions or the present situation warrant attention. Sleep or no action is explicitly permitted; do not invent activity while asleep."

abbrev is_running : OperationalStatus → Bool
is_running OperationalStatus.active = true
is_running _ = false

-- `_lock`: whether the individual may act.
unfoldable pub lock_scheduler : Db → ℕ → Result Bool
lock_scheduler db i = do
  person ← require (find_individual i db) Error.lookup_error
  governance ← require (find_governance i db) Error.lookup_error
  ok (is_running person.operational_status && not governance.inference_blocked)

abbrev wanted_revision : ℕ → Option ℕ → RuntimeConfigRevision → Bool
wanted_revision i none r = is_active_for i r
wanted_revision i (some id) r = r.individual_id == i && r.config_revision_id == id

-- The row's columns agree with its content.
unfoldable checked_configuration :
    Hashing → RuntimeConfigRevision → Result (Option (ℕ × BehaviorConfiguration))
checked_configuration h row = do
  behavior ← value_errors (parse_behavior_config row.sanitized_config)
  hash ← value_errors (behavior_hash h behavior)
  raise_if
      (not (is_some row.activated_at)
        || not (behavior.config_schema_version == row.config_schema_version)
        || not (str_eq hash row.content_hash))
      Error.incompatible
  ok (some (row.config_revision_id, behavior))

abbrev no_configuration : Option ℕ → Result (Option (ℕ × BehaviorConfiguration))
no_configuration none = ok none
no_configuration (some id) = err Error.incompatible

-- `_configuration`
unfoldable pub scheduler_configuration :
    Hashing
    → List RuntimeConfigRevision
    → ℕ
    → Option ℕ
    → Result (Option (ℕ × BehaviorConfiguration))
unfolding checked_configuration
scheduler_configuration h configs i identity = elim (find (wanted_revision i identity) configs) [
  | none ↦ no_configuration identity
  | some row ↦ checked_configuration h row
]

abbrev pub is_terminal : CycleStatus → Bool
is_terminal CycleStatus.active = false
is_terminal _ = true

abbrev is_heartbeat : WakeKind → Bool
is_heartbeat WakeKind.heartbeat = true
is_heartbeat _ = false

abbrev pub is_consumed : WakeStatus → Bool
is_consumed WakeStatus.consumed = true
is_consumed _ = false

-- An active cycle of the individual that holds the wake.
abbrev is_held : Db → ℕ → ℕ → Bool
is_held db i w =
    any
      (λ (c : CognitionCycle).
        c.individual_id == i && (is_active c.status && in_cycle db c.cycle_id w))
      db.cycles

abbrev pub required_configuration :
    Option (ℕ × BehaviorConfiguration) → Result BehaviorConfiguration
required_configuration none = err Error.assertion_error
required_configuration (some c) = ok c.1

abbrev wake_refs : Option Wake → List Ref
wake_refs none = []
wake_refs (some w) = w.context_refs

abbrev wake_due : Option Wake → Option ℕ
wake_due none = none
wake_due (some w) = some w.due_at

abbrev status_of : Option Wake → Option WakeStatus
status_of none = none
status_of (some w) = some w.status

abbrev pub active_cycle_exists : Db → ℕ → Bool
active_cycle_exists db i =
    any (λ (c : CognitionCycle). c.individual_id == i && is_active c.status) db.cycles

abbrev falls_after : ℕ → Option ℕ → Bool
falls_after anchor none = false
falls_after anchor (some due) = ltb anchor due

abbrev due_of : CommitmentDue → ℕ
due_of c = elim c.due_at [ none ↦ 0 | some due ↦ due ]

abbrev sooner_due : CommitmentDue → CommitmentDue → Bool
sooner_due a b =
    ltb (due_of a) (due_of b) || (due_of a == due_of b && leb a.commitment_id b.commitment_id)

-- `.order_by(due_at, commitment_id).limit(1)`, of commitments that have a due moment.
abbrev first_due : List CommitmentDue → Option CommitmentDue
first_due [] = none
first_due (c ∷ cs) = elim (first_due cs) [
  | none ↦ some c
  | some d ↦ if sooner_due c d then some c else some d
]

abbrev commitment_due : Option CommitmentDue → Option ℕ
commitment_due none = none
commitment_due (some c) = c.due_at

abbrev commitment_ref : HeartbeatSchedule → Option CommitmentDue → List Ref
commitment_ref plan none = []
commitment_ref plan (some c) =
    if plan.commitment_shortened
    then record { kind = "commitment"; id = c.commitment_id } ∷ []
    else []

abbrev pub same_refs : List Ref → List Ref → Bool
same_refs [] [] = true
same_refs [] (r ∷ rs) = false
same_refs (q ∷ qs) [] = false
same_refs (q ∷ qs) (r ∷ rs) = ref_eq q r && same_refs qs rs

-- A wake that nothing will claim again.
abbrev pub is_over : WakeStatus → Bool
is_over WakeStatus.consumed = true
is_over WakeStatus.cancelled = true
is_over WakeStatus.superseded = true
is_over _ = false

abbrev pub pending_row : ℕ → Wake → Bool
pending_row id w = w.wake_id == id && is_pending w.status

abbrev rescheduled : HeartbeatSchedule → List Ref → Wake → Wake
rescheduled plan refs w = record w {
  due_at = plan.due_at;
  context_refs = refs;
  revision = w.revision + 1;
}

module _ (f : Floats) where
  -- `==` of floats that are numbers
  abbrev pub same_float : f.Float → f.Float → Bool
  same_float a b = f.le a b && f.le b a

  -- `_policy`
  unfoldable pub policy_of : BehaviorConfiguration → Result (HeartbeatPolicy f)
  policy_of c = checked_policy f (record {
    minimum_seconds = f.of_bits c.attention.heartbeat_min_seconds;
    maximum_seconds = f.of_bits c.attention.heartbeat_max_seconds;
    backoff_factor = f.of_bits c.attention.heartbeat_backoff_factor;
  })

  abbrev pub find_state : ℕ → Scheduler f → Option (AutonomyState f)
  find_state i s = find (λ (r : AutonomyState f). r.individual_id == i) s.autonomy

  abbrev pub valid_columns : AutonomyState f → Bool
  valid_columns r =
      r.policy_version == 1
      && f.finite_positive r.interval_seconds
      && f.le f.one r.interval_seconds
      && leb 1 r.revision

  abbrev completes : ℕ → AutonomyState f → Option CognitionCycle → Bool
  completes i r none = false
  completes i r (some c) =
      c.individual_id == i && is_terminal c.status && opt_eq c.completed_at (some r.anchor_at)

  abbrev pub completed_cycle_valid : Db → ℕ → AutonomyState f → Bool
  completed_cycle_valid db i r = elim r.last_completed_cycle_id [
    | none ↦ true
    | some c ↦ completes i r (find_cycle c db)
  ]

  abbrev managed_wake_valid : Db → ℕ → Bool → AutonomyState f → Option Wake → Bool
  managed_wake_valid db i finishing r none = false
  managed_wake_valid db i finishing r (some w) =
      w.individual_id == i
      && is_heartbeat w.kind
      && not (is_some w.coalesce_key)
      && (not (is_consumed w.status) || r.materialization_pending || finishing)
      && (not (is_claimed w.status) || is_held db i w.wake_id)

  abbrev pub wake_valid : Db → ℕ → Bool → AutonomyState f → Bool
  wake_valid db i finishing r = elim r.managed_wake_id [
    | none ↦ r.materialization_pending
    | some w ↦ managed_wake_valid db i finishing r (find_wake w db)
  ]

  unfoldable pub checked_state :
      Reporting f → Scheduler f → ℕ → Bool → AutonomyState f → Result (Option (AutonomyState f))
  unfolding scheduler_configuration policy_of
  checked_state o s i finishing r = do
    raise_if (not (valid_columns r)) Error.value_error
    config ← scheduler_configuration o.hashing s.configs i (some r.config_revision_id)
    behavior ← required_configuration config
    policy ← policy_of behavior
    clamped ← clamp f policy r.interval_seconds
    raise_if (not (same_float clamped r.interval_seconds)) Error.value_error
    raise_if (not (completed_cycle_valid s.db i r)) Error.value_error
    raise_if (not (wake_valid s.db i finishing r)) Error.value_error
    ok (some r)

  -- `_state`
  unfoldable pub load_state :
      Reporting f → Scheduler f → ℕ → Bool → Result (Option (AutonomyState f))
  unfolding checked_state
  load_state o s i finishing = elim (find_state i s) [
    | none ↦ ok none
    | some r ↦ checked_state o s i finishing r
  ]

  abbrev pub managed_wake : Db → AutonomyState f → Option Wake
  managed_wake db r = elim r.managed_wake_id [ none ↦ none | some w ↦ find_wake w db ]

  abbrev pub state_snapshot : Db → AutonomyState f → AutonomySnapshot f
  state_snapshot db r = record {
    interval_seconds = r.interval_seconds;
    anchor_at = r.anchor_at;
    managed_wake_id = r.managed_wake_id;
    last_completed_cycle_id = r.last_completed_cycle_id;
    config_revision_id = r.config_revision_id;
    materialization_pending = r.materialization_pending;
    wake_status = status_of (managed_wake db r);
    wake_due_at = wake_due (managed_wake db r);
    wake_context_refs = wake_refs (managed_wake db r);
  }

  -- `_initialize`
  abbrev pub initial_state : ℕ → ℕ → ℕ → HeartbeatPolicy f → AutonomyState f
  initial_state i now config policy = record {
    individual_id = i;
    policy_version = 1;
    interval_seconds = effective_minimum_seconds f policy;
    anchor_at = now;
    managed_wake_id = none;
    last_completed_cycle_id = none;
    config_revision_id = config;
    materialization_pending = true;
    revision = 1;
  }

  abbrev wants_attention : AutonomyState f → CommitmentDue → Bool
  wants_attention r c =
      c.individual_id == r.individual_id
      && ((str_eq c.status "active" || str_eq c.status "disputed")
          && falls_after r.anchor_at c.due_at)

  -- `_desired`: the schedule, and the commitment that shortens it.
  unfoldable pub desired_schedule :
      Scheduler f → AutonomyState f → HeartbeatPolicy f → Result (HeartbeatSchedule × List Ref)
  desired_schedule s r policy = do
    let next = first_due (select (wants_attention r) s.commitments)
    plan ← schedule f policy r.anchor_at r.interval_seconds (commitment_due next)
    ok (plan, commitment_ref plan next)

  abbrev heartbeat_row : ℕ → ℕ → HeartbeatSchedule → List Ref → Wake
  heartbeat_row id i plan refs = record {
    wake_id = id;
    individual_id = i;
    kind = WakeKind.heartbeat;
    status = WakeStatus.pending;
    due_at = plan.due_at;
    purpose = heartbeat_purpose;
    cause_event_id = none;
    context_refs = refs;
    coalesce_key = none;
    claimed_at = none;
    consumed_at = none;
    revision = 1;
  }

  -- What a materialization returns: whether it changed a wake, the state and the database.
  abbrev pub Materialized : Type 0
  Materialized = Bool × AutonomyState f × Db

  unfoldable pub fresh_wake : Db → AutonomyState f → HeartbeatSchedule → List Ref → Materialized
  fresh_wake db r plan refs =
      let id = new_id db in
      (
        true,
        record r { managed_wake_id = some id.0; materialization_pending = false },
        record id.1 { wakes = id.1.wakes ++ heartbeat_row id.0 r.individual_id plan refs ∷ [] },
      )

  unfoldable pub moved_wake :
      Db → AutonomyState f → Wake → HeartbeatSchedule → List Ref → Materialized
  moved_wake db r w plan refs =
      let settled = record r { materialization_pending = false } in
      if w.due_at == plan.due_at && same_refs w.context_refs refs then (false, settled, db) else (
        true,
        settled,
        record db { wakes = update (pending_row w.wake_id) (rescheduled plan refs) db.wakes },
      )

  unfoldable pub materialize_at :
      Db → AutonomyState f → Option Wake → HeartbeatSchedule → List Ref → Result Materialized
  unfolding fresh_wake moved_wake
  materialize_at db r none plan refs = ok (fresh_wake db r plan refs)
  materialize_at db r (some w) plan refs =
      if is_over w.status
      then ok (fresh_wake db r plan refs)
      else if is_pending w.status
      then ok (moved_wake db r w plan refs)
      else err Error.value_error

  -- `_materialize`
  unfoldable pub materialize :
      Scheduler f → AutonomyState f → HeartbeatPolicy f → Result Materialized
  unfolding desired_schedule materialize_at
  materialize s r policy = do
    plan ← desired_schedule s r policy
    materialize_at s.db r (managed_wake s.db r) plan.0 plan.1
