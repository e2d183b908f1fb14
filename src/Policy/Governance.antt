-- ===== src/Policy/Governance.antt =====
-- Administrative authorization and the lifecycle's transition table
-- (src/cognition/policy/governance.py).
pub mod Graph
use cognition.Prelude.{
  Bool, true, false, not, ◌||◌, Option, none, some, String, is_some, str_eq, if◌then◌else◌,
}
use cognition.Store.Result.{Result, ok, err, Error}
use cognition.Store.Rows.{
  OperationalStatus, AdminPrincipal, active, paused, quiescing, quiescent, retired,
}

pub data AdminOperation : Type 0 where
  pause resume begin_quiesce complete_quiesce abort_quiesce retire emergency_block : AdminOperation

-- `ADMIN_OPERATIONS`: the operation that a name stands for.
unfoldable pub admin_operation : String → Option AdminOperation
admin_operation name =
    if str_eq name "pause"
    then some pause
    else if str_eq name "resume"
    then some resume
    else if str_eq name "begin_quiesce"
    then some begin_quiesce
    else if str_eq name "complete_quiesce"
    then some complete_quiesce
    else if str_eq name "abort_quiesce"
    then some abort_quiesce
    else if str_eq name "retire"
    then some retire
    else if str_eq name "emergency_block"
    then some emergency_block
    else none

-- `TRANSITIONS`
unfoldable pub transition : OperationalStatus → AdminOperation → Option OperationalStatus
transition active pause = some paused
transition paused resume = some active
transition quiescent resume = some active
transition active begin_quiesce = some quiescing
transition paused begin_quiesce = some quiescing
transition quiescing complete_quiesce = some quiescent
transition quiescing abort_quiesce = some paused
transition paused retire = some retired
transition quiescent retire = some retired
transition _ _ = none

unfoldable pub next_operational_status :
    OperationalStatus → AdminOperation → Result OperationalStatus
unfolding transition
next_operational_status status operation = elim (transition status operation) [
  | none ↦ err Error.value_error
  | some next ↦ ok next
]

unfoldable pub require_admin : Option AdminPrincipal → Result AdminPrincipal
require_admin none = err Error.permission_error
require_admin (some p) =
    if is_some p.revoked_at || not (str_eq p.role "admin") then err Error.permission_error else ok p
