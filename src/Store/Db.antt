-- ===== src/Store/Db.antt =====
-- The database as the modelled stores see it, the supply of fresh identities (`new_id`), and
-- `append_event` of src/cognition/stores/evidence.py.
use cognition.Prelude.{
  ℕ, suc, ◌+◌, Bool, ◌&&◌, Option, List, [], ◌∷◌, ◌++◌, ◌==◌, ltb, find, any, if◌then◌else◌,
}
use cognition.Store.Result.{Result, ok, err, Error}
use cognition.Store.Rows.{
  Individual, Governance, AdminPrincipal, AdminAudit, Wake, CognitionCycle, CycleWake,
  CognitionTurn, ModelInvocation, ContextSnapshot, AppliedOperation, AttentionState, Event,
}

-- The tables of db/models/cognition.py, which the cycle store alone writes.
pub record CognitionTables : Type 0 where
  pub cycles : List CognitionCycle
  pub cycle_wakes : List CycleWake
  pub turns : List CognitionTurn
  pub invocations : List ModelInvocation
  pub snapshots : List ContextSnapshot
  pub applied_operations : List AppliedOperation
  pub attention : List AttentionState

-- `ids n` is the identity that the n-th next call of `new_id` draws.
pub record Db : Type 0 where
  pub individuals : List Individual
  pub governance : List Governance
  pub admin_principals : List AdminPrincipal
  pub admin_audits : List AdminAudit
  pub wakes : List Wake
  pub events : List Event
  pub cognition : CognitionTables
  pub open cognition use *
  pub ids : ℕ → ℕ

abbrev pub new_id : Db → ℕ × Db
new_id db = (db.ids 0, record db { ids = λ n. db.ids (suc n) })

abbrev pub append_event : Event → Db → Db
append_event e db = record db { events = db.events ++ e ∷ [] }

-- `datetime.max` in microseconds, and `moment + timedelta`, which raises past it.
abbrev pub max_moment : ℕ
max_moment = 315537897599999999

unfoldable pub add_delay : ℕ → ℕ → Result ℕ
add_delay moment delay =
    if ltb max_moment (moment + delay) then err Error.overflow_error else ok (moment + delay)

abbrev pub find_individual : ℕ → Db → Option Individual
find_individual i db = find (λ r. r.individual_id == i) db.individuals

abbrev pub find_governance : ℕ → Db → Option Governance
find_governance i db = find (λ r. r.individual_id == i) db.governance

abbrev pub find_cycle : ℕ → Db → Option CognitionCycle
find_cycle c db = find (λ r. r.cycle_id == c) db.cycles

abbrev pub find_turn : ℕ → Db → Option CognitionTurn
find_turn t db = find (λ r. r.turn_id == t) db.turns

abbrev pub find_wake : ℕ → Db → Option Wake
find_wake w db = find (λ r. r.wake_id == w) db.wakes

abbrev pub find_event : ℕ → Db → Option Event
find_event e db = find (λ r. r.event_id == e) db.events

-- The join of wakes with `cognition_cycle_wakes`.
abbrev pub in_cycle : Db → ℕ → ℕ → Bool
in_cycle db c w = any (λ l. l.cycle_id == c && l.wake_id == w) db.cycle_wakes
