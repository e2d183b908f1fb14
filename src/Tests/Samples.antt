-- ===== src/Tests/Samples.antt =====
-- Sample rows and databases for the tests: an individual with its administrator, an active cycle
-- with one turn and one claimed wake, and collaborators that do nothing.
use cognition.Prelude.{ℕ, ◌+◌, ◌≡◌, false, Option, none, some, String, List, [], ◌∷◌}
use cognition.Json.{end}
use cognition.Protocol.Decision.{CognitionDecision, Disposition, WakeRequest}
use cognition.Protocol.Model.{ModelRequest, ModelResult, ModelError, ResultStatus}
use cognition.Store.Result.{Result, ok, err}
use cognition.Store.Rows.{
  OperationalStatus, Individual, Governance, AdminPrincipal, Wake, WakeKind, WakeStatus,
  CognitionCycle, CycleStatus, CognitionTurn, TurnStatus, ModelInvocation, InvocationStatus,
}
use cognition.Store.Db.{Db, CognitionTables}
use cognition.Cycle.Collaborators.{Collaborators, Keeps, Leaves}
use cognition.Cycle.Invoke.{CycleRecord, TurnRecord, cycle_record}

-- The database of a result; the first one where it failed.
abbrev pub reached : Db → Result Db → Db
reached old (ok db) = db
reached old (err e) = old

abbrev pub reached_with {ℓ} : {A : Type ℓ} → Db → Result (A × Db) → Db
reached_with old (ok r) = r.1
reached_with old (err e) = old

abbrev pub value_of {ℓ} : {A : Type ℓ} → Result (Option A × Db) → Option A
value_of (ok r) = r.0
value_of (err e) = none

abbrev pub request : ModelRequest
request = record {
  schema_version = 1;
  request_id = 50;
  individual_id = 1;
  cycle_id = 5;
  turn_id = 6;
  cognition_protocol_version = 1;
  runtime_contract_version = "3.1";
  present_time = 10;
  context_sections = [];
  capabilities = [];
  output_schema = "CognitionDecisionV1";
  input_token_budget = 1000;
  output_token_budget = 100;
  inference_preferences = none;
}

abbrev pub quiet : Collaborators
quiet = record {
  content_hash = λ d. d.decision_id + 1;
  validate_inbound_claims = λ db i. ok tt;
  get_cycle_inbound = λ db c. ok false;
  get_cycle_exploration = λ db c. ok false;
  validate_inbound_wake = λ db i w. ok false;
  is_inbound_wake = λ db w. false;
  discover_exploration = λ db i now. ok (record { managed_wake_ids = []; eligible = none });
  exploration_start_denial = λ db c. ok none;
  load_request = λ db t. ok (some request);
  personal_reference_exists = λ db i r. false;
  validate_personal_operations = λ db i d now. ok [];
  seal_inbound_wake = λ i w now db. ok db;
  record_cycle_outcome = λ c now db. ok db;
  record_reflection_outcome = λ c now db. ok db;
  record_exploration_outcome = λ c now db. ok db;
  apply_personal_operations = λ i d now db. ok db;
}

same-Leaves : {db db' : Db} → ok db ≡ ok db' → Leaves db db'
same-Leaves h = record { cognition = cc; claims = cc; individuals = cc; governance = cc }

pub quiet-Keeps : Keeps quiet
quiet-Keeps = record {
  cycle_outcome = λ c now db db' h. same-Leaves h;
  reflection_outcome = λ c now db db' h. same-Leaves h;
  exploration_outcome = λ c now db db' h. same-Leaves h;
  sealed = λ i w now db db' h. (same-Leaves h, cc);
  personal_applied = λ i d now db db' h. (cc, cc);
}

abbrev pub person : Individual
person = record {
  individual_id = 1;
  birth_at = 0;
  birth_name = "Ada";
  founding_orientation = "curious";
  creator_provenance = end;
  temperament_seed = none;
  founding_value_seed = none;
  parent_individual_id = none;
  fork_event_id = none;
  operational_status = OperationalStatus.active;
  revision = 1;
}

abbrev pub governed : Governance
governed = record {
  individual_id = 1;
  external_actions_blocked = false;
  inference_blocked = false;
  reconciliation_required = false;
  hard_boundaries = end;
  budget_policy = end;
  revision = 1;
}

abbrev pub operator : AdminPrincipal
operator = record {
  admin_principal_id = 9;
  individual_id = 1;
  authn_provider = "local_os";
  subject = "0";
  role = "admin";
  revoked_at = none;
  metadata = end;
}

abbrev pub wake : ℕ → WakeStatus → Option String → Wake
wake id status key = record {
  wake_id = id;
  individual_id = 1;
  kind = WakeKind.routine;
  status = status;
  due_at = 8;
  purpose = "look around";
  cause_event_id = none;
  context_refs = [];
  coalesce_key = key;
  claimed_at = none;
  consumed_at = none;
  revision = 1;
}

abbrev pub cycle_row : CognitionCycle
cycle_row = record {
  cycle_id = 5;
  individual_id = 1;
  status = CycleStatus.active;
  started_at = 10;
  completed_at = none;
  terminal_reason = none;
  max_turns = 3;
  max_attempts_per_turn = 2;
  max_wakes = 16;
  deadline_at = 100;
  min_wake_delay = 1;
  revision = 1;
}

abbrev pub cycle : CycleRecord
cycle = cycle_record cycle_row

abbrev pub turn_row : TurnStatus → Option CognitionDecision → CognitionTurn
turn_row status decision = record {
  turn_id = 6;
  cycle_id = 5;
  ordinal = 1;
  status = status;
  created_at = 10;
  completed_at = none;
  decision = decision;
  decision_hash = none;
  validation_errors = [];
}

abbrev pub turn : TurnStatus → Option CognitionDecision → TurnRecord
turn status decision = record {
  turn_id = 6;
  cycle_id = 5;
  ordinal = 1;
  status = status;
  decision = decision;
}

abbrev pub invocation : ModelInvocation
invocation = record {
  invocation_id = 7;
  turn_id = 6;
  attempt_number = 1;
  status = InvocationStatus.started;
  started_at = 11;
  completed_at = none;
  result = none;
  error_code = none;
}

abbrev tables : TurnStatus → Option CognitionDecision → CognitionTables
tables status decision = record {
  cycles = cycle_row ∷ [];
  cycle_wakes = (record { cycle_id = 5; wake_id = 2 }) ∷ [];
  turns = turn_row status decision ∷ [];
  invocations = invocation ∷ [];
  snapshots = [];
  applied_operations = [];
  attention = [];
}

-- A database in the midst of a cycle.
abbrev pub world : TurnStatus → Option CognitionDecision → Db
world status decision = record {
  individuals = person ∷ [];
  governance = governed ∷ [];
  admin_principals = operator ∷ [];
  admin_audits = [];
  wakes = wake 2 WakeStatus.claimed none ∷ wake 3 WakeStatus.pending (some "walk") ∷ [];
  events = [];
  cognition = tables status decision;
  ids = λ n. 100 + n;
}

-- The same individual between cycles.
abbrev pub resting : Db
resting = record (world TurnStatus.prepared none) {
  cognition = record {
    cycles = [];
    cycle_wakes = [];
    turns = [];
    invocations = [];
    snapshots = [];
    applied_operations = [];
    attention = [];
  };
}

abbrev pub decision : Disposition → List WakeRequest → ℕ → CognitionDecision
decision disposition wakes turn_id = record {
  schema_version = 1;
  decision_id = 40;
  cycle_id = 5;
  turn_id = turn_id;
  disposition = disposition;
  rationale_summary = none;
  current_focus = none;
  goal_operations = [];
  commitment_operations = [];
  belief_operations = [];
  episode_operations = [];
  interest_operations = [];
  preference_operations = [];
  self_model_operations = [];
  entity_operations = [];
  project_operations = [];
  relationship_operations = [];
  relationship_thread_operations = [];
  action_requests = [];
  wake_requests = wakes;
}

abbrev pub wake_request : WakeRequest
wake_request = record {
  operation_id = 60;
  not_before = 30;
  purpose = "stretch";
  context_refs = (record { kind = "individual"; id = 1 }) ∷ [];
  coalesce_key = some "walk";
}

abbrev pub answer : ResultStatus → Option CognitionDecision → Option ModelError → ModelResult
answer status decided error = record {
  schema_version = 1;
  status = status;
  request_id = 50;
  decision = decided;
  provider = "fixture";
  requested_model = "model";
  resolved_model = none;
  provider_request_id = none;
  usage = none;
  finish_reason = none;
  error = error;
}
