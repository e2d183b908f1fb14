-- ===== src/Admin.antt =====
-- Administrative operations on an individual: authorization, the change, its evidence and its audit
-- in one transaction (src/cognition/runtime/lifecycle.py).
pub mod Authority
pub mod Effects
use Prim.Native.Char.{code}
use Prim.Native.String
use cognition.Prelude.{
  ℕ, Bool, true, false, not, ◌&&◌, ◌||◌, Option, none, some, String, ◌==◌, str_eq, ltb, leb,
  if◌then◌else◌,
}
use cognition.Protocol.Ref.{Ref}
use cognition.Policy.Governance.{
  AdminOperation, pause, resume, begin_quiesce, complete_quiesce, abort_quiesce, retire,
  emergency_block, admin_operation, next_operational_status, require_admin,
}
use cognition.Store.Result.{Result, ok, err, Error, ◌>>=◌, ◌>>◌, require, raise_if}
use cognition.Store.Rows.{
  admin_principal, internal_content, OperationalStatus, Individual, Governance, AdminPrincipal,
  AdminAudit, AdminView, Event, administered, identity, active,
}
use cognition.Store.Db.{Db, new_id, append_event}
use cognition.Store.Identity.{
  load_individual, load_governance, set_operational_status, update_governance, find_admin_principal,
  record_admin_audit,
}

unfoldable pub is_runnable : OperationalStatus → Bool
is_runnable active = true
is_runnable _ = false

-- Python's `str.isspace` of one code point.
unfoldable pub is_space : ℕ → Bool
is_space c =
    (leb 9 c && leb c 13)
    || (leb 28 c && leb c 32)
    || c == 133
    || c == 160
    || c == 5760
    || (leb 8192 c && leb c 8202)
    || c == 8232
    || c == 8233
    || c == 8239
    || c == 8287
    || c == 12288

-- `not text.strip()`
unfoldable pub is_blank : String → Bool
unfolding is_space
is_blank String.[] = true
is_blank (String.◌∷◌ c s) = is_space (code c) && is_blank s

pub record AuthenticatedPrincipal : Type 0 where
  pub authn_provider : String
  pub subject : String

pub record AdminOperationResult : Type 0 where
  pub individual_id : ℕ
  pub operational_status : OperationalStatus
  pub audit_id : ℕ
  pub event_id : ℕ

-- The row that the operation changes: governance for an emergency block, else the individual.
abbrev Changed : Type 0
Changed = Individual × Governance × Db

unfoldable pub change_status : ℕ → AdminOperation → Individual → Governance → Db → Result Changed
change_status i operation person governance db = do
  status ← next_operational_status person.operational_status operation
  (person', db') ← set_operational_status db i status (some person.revision)
  ok (person', governance, db')

unfoldable pub change_state : ℕ → AdminOperation → Individual → Governance → Db → Result Changed
unfolding change_status
change_state i emergency_block person governance db = do
  (governance', db') ← update_governance db i (some governance.revision) (record {
    external_actions_blocked = some true;
    inference_blocked = none;
    reconciliation_required = none;
  })
  ok (person, governance', db')
change_state i operation person governance db = change_status i operation person governance db

abbrev view : Individual → Governance → AdminView
view person governance = record {
  operational_status = person.operational_status;
  external_actions_blocked = governance.external_actions_blocked;
}

-- `f"admin.{operation}"`
unfoldable pub event_type : AdminOperation → String
event_type pause = "admin.pause"
event_type resume = "admin.resume"
event_type begin_quiesce = "admin.begin_quiesce"
event_type complete_quiesce = "admin.complete_quiesce"
event_type abort_quiesce = "admin.abort_quiesce"
event_type retire = "admin.retire"
event_type emergency_block = "admin.emergency_block"

unfoldable pub admin_event :
    ℕ → ℕ → ℕ → AdminOperation → String → ℕ → ℕ → String → AdminView → AdminView → Event
unfolding event_type
admin_event event_id audit_id administrator operation name individual_id now reason before after =
    record {
      event_id = event_id;
      individual_id = individual_id;
      event_type = event_type operation;
      occurred_at = some now;
      observed_at = now;
      recorded_at = now;
      source_kind = "admin";
      source_id = some (identity administrator);
      source_binding_id = none;
      actor_entity_id = none;
      causation_event_id = none;
      correlation_id = some audit_id;
      subject = some (record { kind = "individual"; id = individual_id });
      provenance = admin_principal administrator;
      runtime_version = "0.1.0";
      content = internal_content (administered name reason before after);
    }

-- The transaction, after the checks that need no database.
unfoldable pub administer :
    ℕ
    → AuthenticatedPrincipal
    → AdminOperation
    → String
    → String
    → ℕ
    → Db
    → Result (AdminOperationResult × Db)
administer i principal operation name reason now db0 = do
  let (event_id, db1) = new_id db0
  let (audit_id, db) = new_id db1
  person ← load_individual db i
  administrator ←
      require_admin (find_admin_principal db i principal.authn_provider principal.subject)
  governance ← load_governance db i
  let before = view person governance
  (person', governance', db') ← change_state i operation person governance db
  let after = view person' governance'
  let event =
      admin_event event_id audit_id administrator.admin_principal_id operation name i now reason
        before after
  db'' ←
      record_admin_audit
        (record {
          audit_id = audit_id;
          individual_id = i;
          admin_principal_id = administrator.admin_principal_id;
          operation = name;
          target = record { kind = "individual"; id = i };
          reason = reason;
          before_state = before;
          after_state = after;
          created_at = now;
          event_id = event_id;
        })
        (append_event event db')
  ok (
    record {
      individual_id = i;
      operational_status = person'.operational_status;
      audit_id = audit_id;
      event_id = event_id;
    },
    db'',
  )

unfoldable pub apply_admin_operation :
    ℕ → AuthenticatedPrincipal → String → String → ℕ → Db → Result (AdminOperationResult × Db)
apply_admin_operation i principal name reason now db = do
  operation ← require (admin_operation name) Error.value_error
  raise_if (is_blank reason) Error.value_error
  raise_if (not (str_eq principal.authn_provider "local_os")) Error.permission_error
  administer i principal operation name reason now db
