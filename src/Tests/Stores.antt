-- ===== src/Tests/Stores.antt =====
-- The theorems of administration, of the lifecycle and of the wakes at concrete databases.
use cognition.Prelude.{
  true, ◌≤◌, List, ℕ, ◌==◌, false, ◌≡◌, ◌≢◌, ◌↔◌, ◌⊎◌, refl, none, some, [], ◌∷◌, arith,
}
use cognition.Json.{end, Json, array, cons, nil, string}
use cognition.Store.Result.{ok}
use cognition.Store.Rows.{
  internal_content, other, runtime_contract, Event, AdminAudit, OperationalStatus, Individual,
  WakeKind,
}
use cognition.Store.Db.{Db}
use cognition.Store.Identity.{
  load_individual, load_governance, set_operational_status, find_admin_principal,
  record_admin_audit,
}
use cognition.Policy.Governance.{
  admin_operation, transition, next_operational_status, require_admin,
}
use cognition.Policy.Governance.Graph.{Reaches, Reaches_iff}
use cognition.Admin.{
  AuthenticatedPrincipal, AdminOperationResult, apply_admin_operation, administer, change_state,
  change_status, is_blank, is_space, admin_event,
}
use cognition.Admin.Effects.{Administered, apply_admin_operation-Administered}
use cognition.Admin.Authority.{Attempt, IsRetired, attempts, attempts-IsRetired}
use cognition.Wakes.{WakeV1, create_or_merge_pending_wake}
use cognition.Wakes.Merge.{WakeKeys, CoalesceKeys, Stored, create_or_merge-Stored}
use cognition.Wakes.Keys.{create_or_merge_keys}
use cognition.Store.Redaction.{
  redact_event_content, IsRedacted, redact_event_content-IsRedacted,
  redact_event_content-redact_event_content,
}
use cognition.Instances.{
  RuntimeInstance, new_instance, live_count, record_runtime_start, record_runtime_stop,
  record_runtime_start-live_count, record_runtime_stop-live_count,
}
use cognition.Perception.{validate_json, max_json_depth}
use cognition.Perception.Depth.{nesting, is_sound, validate_json-ok_iff}
use cognition.Tests.Samples.{person, resting, reached, reached_with}

-- A wake with the key of the pending one joins it.
abbrev walk : WakeV1
walk = record {
  wake_id = 4;
  individual_id = 1;
  kind = WakeKind.routine;
  due_at = 6;
  purpose = "walk the dog";
  cause_event_id = none;
  context_refs = (record { kind = "individual"; id = 1 }) ∷ [];
  coalesce_key = some "walk";
}

abbrev joined : Db
joined = reached_with resting (create_or_merge_pending_wake walk resting)

joins : create_or_merge_pending_wake walk resting ≡ ok (3, joined)
unfolding create_or_merge_pending_wake
joins = refl

resting-WakeKeys : WakeKeys resting
resting-WakeKeys k = ground arith

resting-CoalesceKeys : CoalesceKeys resting
resting-CoalesceKeys i key = ground arith

create_or_merge-Stored_example : Stored walk 3 joined
create_or_merge-Stored_example = create_or_merge-Stored walk 3 resting joined resting-WakeKeys joins

create_or_merge_keys_example : WakeKeys joined × CoalesceKeys joined
create_or_merge_keys_example =
    create_or_merge_keys walk 3 resting joined resting-WakeKeys resting-CoalesceKeys joins

-- The local administrator pauses the individual.
abbrev admin : AuthenticatedPrincipal
admin = record { authn_provider = "local_os"; subject = "0" }

abbrev paused : Db
paused = reached_with resting (apply_admin_operation 1 admin "pause" "maintenance" 20 resting)

abbrev outcome : AdminOperationResult
outcome = record {
  individual_id = 1;
  operational_status = OperationalStatus.paused;
  audit_id = 101;
  event_id = 100;
}

pauses : apply_admin_operation 1 admin "pause" "maintenance" 20 resting ≡ ok (outcome, paused)
unfolding apply_admin_operation admin_operation is_blank is_space administer load_individual
    load_governance find_admin_principal require_admin change_state change_status
    next_operational_status transition set_operational_status record_admin_audit admin_event
pauses = refl

apply_admin_operation-Administered_example :
    Administered 1 admin "pause" "maintenance" resting paused outcome
apply_admin_operation-Administered_example =
    apply_admin_operation-Administered 1 admin "pause" "maintenance" 20 resting paused outcome
      pauses

-- A retired individual, which the administrator tries to resume.
abbrev retired_person : Individual
retired_person = record person { operational_status = OperationalStatus.retired }

abbrev ended : Db
ended = record resting { individuals = retired_person ∷ [] }

abbrev resume_attempt : Attempt
resume_attempt = record {
  individual_id = 1;
  principal = admin;
  name = "resume";
  reason = "again";
  now = 30;
}

attempts-IsRetired_example : IsRetired 1 (attempts (resume_attempt ∷ []) ended)
attempts-IsRetired_example =
    attempts-IsRetired (resume_attempt ∷ []) 1 ended (retired_person, refl, refl)

Reaches_iff_example : Reaches OperationalStatus.quiescing OperationalStatus.active ↔ (
    (OperationalStatus.quiescing ≢ OperationalStatus.retired)
    ⊎ (OperationalStatus.active ≡ OperationalStatus.retired))
Reaches_iff_example = Reaches_iff OperationalStatus.quiescing OperationalStatus.active

-- An event with an audit that targets it.
abbrev seen : Event
seen = record {
  event_id = 70;
  individual_id = 1;
  event_type = "observation.received";
  occurred_at = some 3;
  observed_at = 3;
  recorded_at = 4;
  source_kind = "connector";
  source_id = none;
  source_binding_id = none;
  actor_entity_id = none;
  causation_event_id = none;
  correlation_id = none;
  subject = none;
  provenance = runtime_contract "3.1";
  runtime_version = "0.1.0";
  content = internal_content (other end);
}

abbrev redaction_audit : AdminAudit
redaction_audit = record {
  audit_id = 71;
  individual_id = 1;
  admin_principal_id = 9;
  operation = "redact";
  target = record { kind = "event"; id = 70 };
  reason = "requested";
  before_state = record {
    operational_status = OperationalStatus.active;
    external_actions_blocked = false;
  };
  after_state = record {
    operational_status = OperationalStatus.active;
    external_actions_blocked = false;
  };
  created_at = 5;
  event_id = 72;
}

abbrev evidence : Db
evidence = record resting { events = seen ∷ []; admin_audits = redaction_audit ∷ [] }

abbrev emptied : Db
emptied = reached evidence (redact_event_content 70 71 6 evidence)

redacts : redact_event_content 70 71 6 evidence ≡ ok emptied
unfolding redact_event_content
redacts = refl

redact_event_content-IsRedacted_example : IsRedacted 70 71 6 seen evidence emptied
redact_event_content-IsRedacted_example =
    redact_event_content-IsRedacted 70 71 6 seen evidence emptied refl refl redacts

redact_event_content-redact_event_content_example :
    redact_event_content 70 71 9 emptied ≡ ok emptied
redact_event_content-redact_event_content_example =
    redact_event_content-redact_event_content 70 71 6 9 evidence emptied redacts

-- An instance that was left running when the next one starts.
abbrev leftover : List RuntimeInstance
leftover = new_instance 80 1 1 "host" 4000 "0.1.0" ∷ new_instance 81 2 1 "host" 4001 "0.1.0" ∷ []

record_runtime_start-live_count_example :
    (live_count 1 (record_runtime_start 82 1 9 "host" 4002 "0.1.0" leftover).1 ≡ 1)
    × ((j : ℕ)
        → (1 == j) ≡ false
        → live_count j (record_runtime_start 82 1 9 "host" 4002 "0.1.0" leftover).1
          ≡ live_count j leftover)
record_runtime_start-live_count_example =
    record_runtime_start-live_count 82 1 9 "host" 4002 "0.1.0" leftover

record_runtime_stop-live_count_example :
    live_count 1
      (record_runtime_stop 82 12 (record_runtime_start 82 1 9 "host" 4002 "0.1.0" leftover).1)
    ≡ 0
record_runtime_stop-live_count_example =
    record_runtime_stop-live_count 82 1 9 "host" 4002 "0.1.0" leftover 12

-- A list of one text.
abbrev greeting : Json
greeting = array (cons (string "hello") nil)

validate_json-ok_iff_example :
    (validate_json greeting 0 ≡ ok tt)
    ↔ ((is_sound greeting ≡ true) × (nesting greeting ≤ max_json_depth))
validate_json-ok_iff_example = validate_json-ok_iff greeting
