-- ===== src/Tests/Accounts.antt =====
-- The accounting of a finished cycle at a small database.
use cognition.Prelude.{◌≡◌, refl, some, none, [], ◌∷◌}
use cognition.Json.{end}
use cognition.Store.Result.{Result, ok, err}
use cognition.Store.Rows.{TurnStatus, CycleStatus}
use cognition.Store.Db.{Db}
use cognition.Cycle.Collaborators.{Leaves}
use cognition.Autonomy.{Scheduler, Reporting}
use cognition.Autonomy.Account.{record_cycle_outcome, Accounted}
use cognition.Autonomy.Account.Once.{record_cycle_outcome-again}
use cognition.Autonomy.Account.Leaves.{record_cycle_outcome-Leaves}
use cognition.Config.{parse_behavior_config, behavior_hash}
use cognition.Heartbeat.{checked_policy, next_interval, schedule}
use cognition.Tests.Samples.{world, cycle_row}
use cognition.Tests.Compiling.{hashing, revision}
use cognition.Tests.Timings.{naturals}

abbrev reporting : Reporting naturals
reporting = record { hashing = hashing; report_json = λ r. end }

abbrev over : Db
over = record (world TurnStatus.applied none) {
  cognition = record (world TurnStatus.applied none).cognition {
    cycles =
        record cycle_row {
          status = CycleStatus.completed;
          completed_at = some 20;
          terminal_reason = some "sleep";
        }
        ∷ [];
  };
}

abbrev scheduler : Scheduler naturals
scheduler = record { db = over; autonomy = []; configs = revision 350 ∷ []; commitments = [] }

abbrev scheduler_of : Result (Accounted naturals) → Accounted naturals
scheduler_of (ok a) = a
scheduler_of (err e) = (none, scheduler)

abbrev first : Accounted naturals
first = scheduler_of (record_cycle_outcome naturals reporting 5 20 scheduler)

accounts : record_cycle_outcome naturals reporting 5 20 scheduler ≡ ok first
unfolding record_cycle_outcome parse_behavior_config behavior_hash checked_policy next_interval
    schedule
accounts = refl

abbrev second : Accounted naturals
second = scheduler_of (record_cycle_outcome naturals reporting 5 20 first.1)

accounts_again : record_cycle_outcome naturals reporting 5 20 first.1 ≡ ok second
unfolding record_cycle_outcome parse_behavior_config behavior_hash checked_policy next_interval
    schedule
accounts_again = refl

record_cycle_outcome-again_example : second.1 ≡ first.1
record_cycle_outcome-again_example =
    record_cycle_outcome-again naturals reporting 5 20 scheduler {a = first} {b = second} accounts
      accounts_again

record_cycle_outcome-Leaves_example : Leaves over first.1.db
record_cycle_outcome-Leaves_example =
    record_cycle_outcome-Leaves naturals reporting 5 20 scheduler {a = first} accounts
