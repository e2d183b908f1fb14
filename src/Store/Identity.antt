-- ===== src/Store/Identity.antt =====
-- Reads and guarded writes of identity and governance (src/cognition/stores/identity.py,
-- src/cognition/stores/governance.py) and the administrative audit
-- (src/cognition/stores/evidence.py).
use cognition.Prelude.{
  ℕ, ◌+◌, Bool, true, false, not, ◌&&◌, ◌||◌, Option, none, some, String, [], ◌∷◌, ◌++◌, ◌==◌,
  str_eq, find, update,
}
use cognition.Store.Result.{Result, ok, Error, ◌>>=◌, ◌>>◌, require, raise_if}
use cognition.Store.Rows.{
  OperationalStatus, Individual, Governance, AdminPrincipal, AdminAudit, Event,
}
use cognition.Store.Db.{Db, find_individual, find_governance, find_event}

unfoldable pub load_individual : Db → ℕ → Result Individual
load_individual db i = require (find_individual i db) Error.lookup_error

unfoldable pub load_governance : Db → ℕ → Result Governance
load_governance db i = require (find_governance i db) Error.lookup_error

-- `expected_revision is not None and row.revision != expected_revision`
abbrev pub stale : Option ℕ → ℕ → Bool
stale none revision = false
stale (some expected) revision = not (revision == expected)

abbrev pub with_status : OperationalStatus → Individual → Individual
with_status status row = record row { operational_status = status; revision = row.revision + 1 }

unfoldable pub set_operational_status :
    Db → ℕ → OperationalStatus → Option ℕ → Result (Individual × Db)
set_operational_status db i status expected = do
  row ← require (find_individual i db) Error.lookup_error
  raise_if (stale expected row.revision) Error.revision_conflict
  ok (
    with_status status row,
    record db {
      individuals = update (λ r. r.individual_id == i) (with_status status) db.individuals;
    },
  )

abbrev pub given : Option Bool → Bool → Bool
given none old = old
given (some new) old = new

-- The keyword arguments of `update_governance`; `none` leaves the column alone.
pub record GovernanceChange : Type 0 where
  pub external_actions_blocked : Option Bool
  pub inference_blocked : Option Bool
  pub reconciliation_required : Option Bool

abbrev pub changed : GovernanceChange → Governance → Governance
changed c row = record row {
  external_actions_blocked = given c.external_actions_blocked row.external_actions_blocked;
  inference_blocked = given c.inference_blocked row.inference_blocked;
  reconciliation_required = given c.reconciliation_required row.reconciliation_required;
  revision = row.revision + 1;
}

unfoldable pub update_governance : Db → ℕ → Option ℕ → GovernanceChange → Result (Governance × Db)
update_governance db i expected change = do
  row ← require (find_governance i db) Error.lookup_error
  raise_if (stale expected row.revision) Error.revision_conflict
  ok (
    changed change row,
    record db { governance = update (λ r. r.individual_id == i) (changed change) db.governance },
  )

unfoldable pub find_admin_principal : Db → ℕ → String → String → Option AdminPrincipal
find_admin_principal db i provider subject =
    find (λ p. p.individual_id == i && str_eq p.authn_provider provider && str_eq p.subject subject)
      db.admin_principals

-- `principal is None or principal.individual_id != individual_id`
abbrev foreign_principal : Option AdminPrincipal → ℕ → Bool
foreign_principal none i = true
foreign_principal (some p) i = not (p.individual_id == i)

abbrev foreign_event : Option Event → ℕ → Bool
foreign_event none i = true
foreign_event (some e) i = not (e.individual_id == i)

-- The row is passed whole, as its columns are the call's keyword arguments.
unfoldable pub record_admin_audit : AdminAudit → Db → Result Db
record_admin_audit audit db = do
  raise_if
      (foreign_principal
          (find (λ p. p.admin_principal_id == audit.admin_principal_id) db.admin_principals)
          audit.individual_id
        || foreign_event (find_event audit.event_id db) audit.individual_id)
      Error.value_error
  ok (record db { admin_audits = db.admin_audits ++ audit ∷ [] })
