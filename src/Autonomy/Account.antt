-- ===== src/Autonomy/Account.antt =====
-- The two writers of the heartbeat's bookkeeping: ensure_heartbeat and record_cycle_outcome of
-- src/cognition/stores/autonomy.py, with `_record`.
pub mod Once
pub mod Leaves
use cognition.Prelude.{
  ℕ, ◌+◌, ◌≡◌, Bool, true, false, not, ◌&&◌, ◌||◌, Option, none, some, String, List, [], ◌∷◌, ◌++◌,
  ◌==◌, str_eq, leb, ltb, opt_eq, is_some, find, any, all, select, update, map, if◌then◌else◌,
}
use cognition.Json.{end, field, natural}
use cognition.Protocol.Ref.{Ref}
use cognition.Store.Result.{Result, ok, err, Error, ◌>>=◌, ◌>>◌, require, raise_if}
use cognition.Store.Rows.{
  Wake, WakeKind, WakeStatus, CognitionCycle, CognitionTurn, AppliedOperation, Event, Payload,
  Provenance, SourceId, internal_content,
}
use cognition.Store.Db.{Db, find_cycle, find_turn, new_id, append_event, in_cycle}
use cognition.Config.{BehaviorConfiguration}
use cognition.Heartbeat.{Floats, HeartbeatPolicy, HeartbeatSchedule, clamp, next_interval, schedule}
use cognition.Autonomy.{AutonomyState, Scheduler, AutonomySnapshot, HeartbeatReport, Reporting}
use cognition.Autonomy.State.{
  lock_scheduler, scheduler_configuration, policy_of, load_state, find_state, state_snapshot,
  initial_state, active_cycle_exists, desired_schedule, materialize, same_refs, pending_row,
  same_float, is_terminal,
}

abbrev same_status : Option WakeStatus → Option WakeStatus → Bool
same_status none none = true
same_status (some WakeStatus.pending) (some WakeStatus.pending) = true
same_status (some WakeStatus.claimed) (some WakeStatus.claimed) = true
same_status (some WakeStatus.consumed) (some WakeStatus.consumed) = true
same_status (some WakeStatus.cancelled) (some WakeStatus.cancelled) = true
same_status (some WakeStatus.superseded) (some WakeStatus.superseded) = true
same_status _ _ = false

abbrev same_bool : Bool → Bool → Bool
same_bool true b = b
same_bool false b = not b

-- `_AUTONOMOUS_KINDS`
abbrev is_autonomous : WakeKind → Bool
is_autonomous WakeKind.heartbeat = true
is_autonomous WakeKind.self_scheduled = true
is_autonomous WakeKind.reflection = true
is_autonomous WakeKind.goal_review = true
is_autonomous WakeKind.routine = true
is_autonomous WakeKind.maintenance = true
is_autonomous _ = false

-- `_PERSONAL_KINDS`
abbrev is_personal_kind : String → Bool
is_personal_kind kind = any (str_eq kind) (
    "entity_operation" ∷ "project_operation" ∷ "goal_operation" ∷ "commitment_operation"
    ∷ "belief_operation" ∷ "episode_operation" ∷ "interest_operation" ∷ "preference_operation"
    ∷ "self_state_operation" ∷ "relationship_operation" ∷ "relationship_thread_operation" ∷ [])

-- The wakes of a cycle, of which there are some and all autonomous.
abbrev is_nonempty : List Wake → Bool
is_nonempty [] = false
is_nonempty (w ∷ ws) = true

abbrev cycle_autonomous : Db → ℕ → Bool
cycle_autonomous db c =
    let wakes = select (λ (w : Wake). in_cycle db c w.wake_id) db.wakes in
    is_nonempty wakes && all (λ (w : Wake). is_autonomous w.kind) wakes

abbrev turn_of : Db → ℕ → ℕ → Bool
turn_of db c t = any (λ (r : CognitionTurn). r.turn_id == t && r.cycle_id == c) db.turns

abbrev cycle_activity : Db → ℕ → ℕ → Bool
cycle_activity db c i =
    any
      (λ (a : AppliedOperation).
        turn_of db c a.turn_id && (a.individual_id == i && is_personal_kind a.kind))
      db.applied_operations

abbrev from_heartbeat : Option SourceId → Bool
from_heartbeat (some (SourceId.name s)) = str_eq s "attention.heartbeat"
from_heartbeat _ = false

-- An event that accounts for the cycle.
abbrev accounts_for : ℕ → ℕ → Event → Bool
accounts_for i c e =
    e.individual_id == i
    && opt_eq e.correlation_id (some c)
    && str_eq e.event_type "attention.heartbeat_updated"
    && str_eq e.source_kind "runtime"
    && from_heartbeat e.source_id

abbrev is_finished_at : ℕ → CognitionCycle → Bool
is_finished_at now c = is_terminal c.status && opt_eq c.completed_at (some now)

-- The particulars of a change.
pub record Change : Type 0 where
  pub reason : String
  pub materialized : Bool
  pub cycle_id : Option ℕ
  pub autonomous : Option Bool
  pub activity : Option Bool

abbrev outcome_change : ℕ → Bool → Bool → Bool → Change
outcome_change c materialized autonomous activity = record {
  reason = "cycle_outcome";
  materialized = materialized;
  cycle_id = some c;
  autonomous = some autonomous;
  activity = some activity;
}

module _ (f : Floats) where
  abbrev same_snapshot : AutonomySnapshot f → AutonomySnapshot f → Bool
  same_snapshot a b =
      same_float f a.interval_seconds b.interval_seconds
      && a.anchor_at == b.anchor_at
      && opt_eq a.managed_wake_id b.managed_wake_id
      && opt_eq a.last_completed_cycle_id b.last_completed_cycle_id
      && a.config_revision_id == b.config_revision_id
      && same_bool a.materialization_pending b.materialization_pending
      && same_status a.wake_status b.wake_status
      && opt_eq a.wake_due_at b.wake_due_at
      && same_refs a.wake_context_refs b.wake_context_refs

  abbrev unchanged : Option (AutonomySnapshot f) → AutonomySnapshot f → Bool
  unchanged none after = false
  unchanged (some before) after = same_snapshot before after

  abbrev heartbeat_event : Reporting f → ℕ → ℕ → ℕ → Option ℕ → HeartbeatReport f → Event
  heartbeat_event o id i now cycle report = record {
    event_id = id;
    individual_id = i;
    event_type = "attention.heartbeat_updated";
    occurred_at = some now;
    observed_at = now;
    recorded_at = now;
    source_kind = "runtime";
    source_id = some (SourceId.name "attention.heartbeat");
    source_binding_id = none;
    actor_entity_id = none;
    causation_event_id = none;
    correlation_id = cycle;
    subject = some (record { kind = "individual"; id = i });
    provenance = Provenance.recorded (field "policy_version" (natural 1) end);
    runtime_version = "0.1.0";
    content = internal_content (Payload.other (o.report_json report));
  }

  -- `wake.cause_event_id = event_id`
  abbrev caused : ℕ → Option ℕ → Db → Db
  caused event none db = db
  caused event (some w) db = record db {
    wakes = update (pending_row w) (λ r. record r { cause_event_id = some event }) db.wakes;
  }

  abbrev revised : Option (AutonomySnapshot f) → AutonomyState f → AutonomyState f
  revised none r = r
  revised (some before) r = record r { revision = r.revision + 1 }

  -- The event of a change, and the cause of the wake that it materialized.
  abbrev with_event : Reporting f → ℕ → Change → HeartbeatReport f → AutonomyState f → Db → Db
  with_event o now change report r db =
      let id = new_id db in
      let told =
        append_event (heartbeat_event o id.0 r.individual_id now change.cycle_id report) id.1 in
      if change.materialized then caused id.0 r.managed_wake_id told else told

  unfoldable record_difference :
      Reporting f
      → Scheduler f
      → AutonomyState f
      → Option (AutonomySnapshot f)
      → ℕ
      → HeartbeatPolicy f
      → Change
      → Db
      → Result (AutonomyState f × Db)
  unfolding desired_schedule
  record_difference o s r before now policy change db = do
    desired ← desired_schedule f s r policy
    default ← schedule f policy r.anchor_at r.interval_seconds none
    let report : HeartbeatReport f = record {
      reason = change.reason;
      before = before;
      after = state_snapshot f db r;
      wake_materialized = change.materialized;
      autonomous_cycle = change.autonomous;
      recorded_personal_activity = change.activity;
      policy = policy;
      desired = desired.0;
      desired_context_refs = desired.1;
      default_due_at = default.due_at;
    }
    ok (revised before r, with_event o now change report r db)

  -- `_record`
  unfoldable record_change :
      Reporting f
      → Scheduler f
      → AutonomyState f
      → Option (AutonomySnapshot f)
      → ℕ
      → HeartbeatPolicy f
      → Change
      → Db
      → Result (AutonomyState f × Db)
  unfolding record_difference
  record_change o s r before now policy change db =
      if unchanged before (state_snapshot f db r)
      then ok (r, db)
      else record_difference o s r before now policy change db

  -- The state is written back.
  abbrev put_state : AutonomyState f → List (AutonomyState f) → List (AutonomyState f)
  put_state r [] = r ∷ []
  put_state r (x ∷ xs) =
      let rest = put_state r xs in if x.individual_id == r.individual_id then r ∷ xs else x ∷ rest

  abbrev pub Accounted : Type 0
  Accounted = Option (AutonomyState f) × Scheduler f

  abbrev kept_state : Scheduler f → AutonomyState f × Db → Accounted
  kept_state s (r, db) = (some r, record s { db = db; autonomy = put_state r s.autonomy })

  -- The state before, or a new one, with its clock checked.
  abbrev state_or_new : ℕ → ℕ → ℕ → HeartbeatPolicy f → Option (AutonomyState f) → AutonomyState f
  state_or_new i now config policy none = initial_state f i now config policy
  state_or_new i now config policy (some r) = r

  abbrev snapshot_before : Db → Option (AutonomyState f) → Option (AutonomySnapshot f)
  snapshot_before db none = none
  snapshot_before db (some r) = some (state_snapshot f db r)

  abbrev reconcile_reason : Option (AutonomyState f) → String
  reconcile_reason none = "initialize"
  reconcile_reason (some r) = "reconcile"

  unfoldable reconcile :
      Reporting f
      → Scheduler f
      → ℕ
      → ℕ
      → Option (AutonomyState f)
      → ℕ × BehaviorConfiguration
      → Result Accounted
  unfolding policy_of record_change materialize
  reconcile o s i now state config = do
    policy ← policy_of f config.1
    let r = state_or_new i now config.0 policy state
    raise_if (ltb now r.anchor_at) Error.value_error
    if active_cycle_exists s.db i
        then (do
          done ←
              record_change o s r (snapshot_before s.db state) now policy
                (record {
                  reason = "initialize_active_cycle";
                  materialized = false;
                  cycle_id = none;
                  autonomous = none;
                  activity = none;
                })
                s.db
          ok (kept_state s done))
        else (do
          interval ← clamp f policy r.interval_seconds
          changed ←
              materialize f s
                (record r { config_revision_id = config.0; interval_seconds = interval }) policy
          done ←
              record_change o s changed.1 (snapshot_before s.db state) now policy
                (record {
                  reason = reconcile_reason state;
                  materialized = changed.0;
                  cycle_id = none;
                  autonomous = none;
                  activity = none;
                })
                changed.2
          ok (kept_state s done))

  unfoldable ensure_allowed : Reporting f → Scheduler f → ℕ → ℕ → Result Accounted
  unfolding load_state scheduler_configuration reconcile
  ensure_allowed o s i now = do
    state ← load_state f o s i false
    config ← scheduler_configuration o.hashing s.configs i none
    elim config [ none ↦ ok (state, s) | some c ↦ reconcile o s i now state c ]

  unfoldable pub ensure_heartbeat : Reporting f → ℕ → ℕ → Scheduler f → Result Accounted
  unfolding lock_scheduler ensure_allowed
  ensure_heartbeat o i now s = do
    allowed ← lock_scheduler s.db i
    if allowed then ensure_allowed o s i now else ok (none, s)

  abbrev already : ℕ → Option (AutonomyState f) → Bool
  already c none = false
  already c (some r) = opt_eq r.last_completed_cycle_id (some c)

  -- The active configuration, or else the one that the state retains.
  unfoldable outcome_configuration :
      Reporting f
      → Scheduler f
      → ℕ
      → Option (ℕ × BehaviorConfiguration)
      → Option (AutonomyState f)
      → Result (Option (ℕ × BehaviorConfiguration))
  unfolding scheduler_configuration
  outcome_configuration o s i (some c) state = ok (some c)
  outcome_configuration o s i none none = ok none
  outcome_configuration o s i none (some r) =
      scheduler_configuration o.hashing s.configs i (some r.config_revision_id)

  abbrev advanced : f.Float → ℕ → ℕ → ℕ → AutonomyState f → AutonomyState f
  advanced interval now c config r = record r {
    interval_seconds = interval;
    anchor_at = now;
    last_completed_cycle_id = some c;
    config_revision_id = config;
    materialization_pending = true;
  }

  unfoldable materialize_if :
      Bool
      → Scheduler f
      → AutonomyState f
      → HeartbeatPolicy f
      → Result (Bool × AutonomyState f × Db)
  unfolding materialize
  materialize_if may s r policy = if may then materialize f s r policy else ok (false, r, s.db)

  unfoldable account_cycle :
      Reporting f
      → ℕ
      → ℕ
      → ℕ
      → Bool
      → Scheduler f
      → Option (AutonomyState f)
      → ℕ × BehaviorConfiguration
      → Result Accounted
  unfolding policy_of materialize_if record_change
  account_cycle o i c now may s state config = do
    policy ← policy_of f config.1
    let r = state_or_new i now config.0 policy state
    raise_if (ltb now r.anchor_at) Error.value_error
    let autonomous = cycle_autonomous s.db c
    let activity = cycle_activity s.db c i
    interval ← next_interval f policy r.interval_seconds autonomous activity
    changed ← materialize_if may s (advanced interval now c config.0 r) policy
    done ←
        record_change o s changed.1 (snapshot_before s.db state) now policy
          (outcome_change c changed.0 autonomous activity) changed.2
    ok (kept_state s done)

  unfoldable account_new :
      Reporting f → ℕ → ℕ → ℕ → Bool → Scheduler f → Option (AutonomyState f) → Result Accounted
  unfolding outcome_configuration account_cycle scheduler_configuration
  account_new o i c now allowed s state = do
    active ← scheduler_configuration o.hashing s.configs i none
    config ← outcome_configuration o s i active state
    elim config [
      | none ↦ ok (none, s)
      | some chosen ↦
          account_cycle o i c now (allowed && is_some active && not (active_cycle_exists s.db i)) s
            state chosen
    ]

  unfoldable pub record_cycle_outcome : Reporting f → ℕ → ℕ → Scheduler f → Result Accounted
  unfolding lock_scheduler load_state account_new
  record_cycle_outcome o c now s = do
    cycle ← require (find_cycle c s.db) Error.value_error
    allowed ← lock_scheduler s.db cycle.individual_id
    raise_if (not (is_finished_at now cycle)) Error.value_error
    state ← load_state f o s cycle.individual_id true
    if already c state || any (accounts_for cycle.individual_id c) s.db.events
        then ok (state, s)
        else account_new o cycle.individual_id c now allowed s state
