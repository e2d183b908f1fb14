-- ===== src/Cycle/Finish.antt =====
-- What finishing a cycle leaves behind: finish_cycle of src/cognition/stores/cognition.py.
use cognition.Prelude.{
  ℕ, ◌+◌, ◌≡◌, refl, ◌∙◌, ap, Bool, true, false, ◌&&◌, some, String, List, [], ◌∷◌, arith, ◌==◌,
  find, update, select, All, find-update_self, Bool-cases, inl, inr, if◌then◌else◌,
}
use cognition.Store.Result.{ok, Error, >>=-elim, require, require-eq-ok}
use cognition.Store.Rows.{Wake, is_claimed, CognitionCycle, CycleStatus, is_active}
use cognition.Store.Db.{Db, CognitionTables, find_cycle, in_cycle}
use cognition.Cycle.Collaborators.{Collaborators, Keeps, Leaves, claimed_wakes, outcomes_leave}
use cognition.Cycle.Stages.{close_cycle, finish_active, closed, consumed, finish_cycle}

-- The claimed wakes after the consumption are held by other cycles.
released :
    (owned : Wake → Bool) (now : ℕ) (ws : List Wake)
    → ((w : Wake) → owned (consumed now w) ≡ owned w)
    → All
        (λ w. owned w ≡ false)
        (select
          (λ w. is_claimed w.status)
          (update (λ w. owned w && is_claimed w.status) (consumed now) ws))
released owned now [] keep = tt
released owned now (w ∷ ws) keep = ground (arith, released owned now ws keep)

-- The row of a finished cycle, column by column: its outcome, moment and reason are set, its
-- revision is one more, and the rest stays.
abbrev pub finished_row : ℕ → String → Bool → CognitionCycle → CognitionCycle
finished_row now reason failed row = record {
  cycle_id = row.cycle_id;
  individual_id = row.individual_id;
  status = if failed then CycleStatus.failed else CycleStatus.completed;
  started_at = row.started_at;
  completed_at = some now;
  terminal_reason = some reason;
  max_turns = row.max_turns;
  max_attempts_per_turn = row.max_attempts_per_turn;
  max_wakes = row.max_wakes;
  deadline_at = row.deadline_at;
  min_wake_delay = row.min_wake_delay;
  revision = row.revision + 1;
}

-- A finished cycle in the tables: its row closed, none of its wakes still claimed, and the turns,
-- the invocations and what was applied as they were.
pub record IsFinished (c now : ℕ) (reason : String) (failed : Bool) (row : CognitionCycle)
    (db db' : Db) : Type 0 where
  pub row_closed : find_cycle c db' ≡ some (finished_row now reason failed row)
  pub wakes_released : All (λ w. in_cycle db' c w.wake_id ≡ false) (claimed_wakes db')
  pub turns_kept : db'.turns ≡ db.turns
  pub invocations_kept : db'.invocations ≡ db.invocations
  pub applied_kept : db'.applied_operations ≡ db.applied_operations

module _ (s : Collaborators) (k : Keeps s) (c now : ℕ) (reason : String) (failed : Bool)
    (row : CognitionCycle) (db db' : Db) where
  close_then_outcomes :
      find_cycle c db ≡ some row
      → is_active row.status ≡ true
      → finish_cycle s c now reason failed db ≡ ok db'
      → Leaves (close_cycle c row now reason failed db) db'
  unfolding finish_cycle
  close_then_outcomes found live h =
      >>=-elim (require (find_cycle c db) Error.lookup_error) _ h λ r e h1.
        let same : r ≡ row = cc (found, require-eq-ok _ _ e) in
        >>=-elim (s.get_cycle_inbound db c) _ (rw (same, live) at h1)
          λ inbound checked h2. outcomes_leave s k c now _ db' h2

  -- For collaborators that keep to their tables and an active cycle: where finish_cycle
  -- succeeds, the row has the outcome, the moment and the reason given and one revision more and
  -- is otherwise as it was, no claimed wake belongs to the cycle, and turns, invocations and
  -- applied operations are as they were.
  pub finish_cycle-IsFinished :
      find_cycle c db ≡ some row
      → is_active row.status ≡ true
      → finish_cycle s c now reason failed db ≡ ok db'
      → IsFinished c now reason failed row db db'
  unfolding close_cycle
  finish_cycle-IsFinished found live h =
      let left = close_then_outcomes found live h in
      record {
        row_closed =
            ap (λ (t : CognitionTables). find (λ r. r.cycle_id == c) t.cycles) left.cognition
            ∙ find-update_self (λ (r : CognitionCycle). r.cycle_id == c) (closed now reason failed)
                (λ x. refl) db.cycles {r = row} found;
        wakes_released =
            rw (left.claims, left.cognition)
              (released (λ w. in_cycle db c w.wake_id) now db.wakes (λ w. refl));
        turns_kept = ap (λ (t : CognitionTables). t.turns) left.cognition;
        invocations_kept = ap (λ (t : CognitionTables). t.invocations) left.cognition;
        applied_kept = ap (λ (t : CognitionTables). t.applied_operations) left.cognition;
      }

-- For collaborators that keep to their tables: after a finish_cycle of an existing cycle that
-- succeeded, another one, whenever and for whatever reason, succeeds and changes nothing.
pub finish_cycle-finish_cycle :
    (s : Collaborators)
    → Keeps s
    → (c now : ℕ) (reason : String) (failed : Bool) (row : CognitionCycle) (db db' : Db)
    → find_cycle c db ≡ some row
    → finish_cycle s c now reason failed db ≡ ok db'
    → (later : ℕ) (other : String) (outcome : Bool)
    → finish_cycle s c later other outcome db' ≡ ok db'
finish_cycle-finish_cycle s k c now reason failed row db db' found h later other outcome =
    elim (Bool-cases (is_active row.status)) [
      | inl live ↦
          rest (finished_row now reason failed row)
            (finish_cycle-IsFinished s k c now reason failed row db db' found live h).row_closed
            (terminal failed)
      | inr idle ↦ rest row (ap (find_cycle c) (unchanged idle) ∙ found) idle
    ]
  where
    terminal :
        (b : Bool) → is_active (if b then CycleStatus.failed else CycleStatus.completed) ≡ false
    terminal true = refl
    terminal false = refl

    unchanged : is_active row.status ≡ false → db' ≡ db
    unchanged idle = unfold finish_cycle in ground arith

    rest :
        (r : CognitionCycle)
        → find_cycle c db' ≡ some r
        → is_active r.status ≡ false
        → finish_cycle s c later other outcome db' ≡ ok db'
    rest r e idle = unfold finish_cycle in ground arith

-- The tables of the cycle store that finishing never touches.
pub record SameStages (db db' : Db) : Type 0 where
  pub turns : db'.turns ≡ db.turns
  pub invocations : db'.invocations ≡ db.invocations
  pub cycle_wakes : db'.cycle_wakes ≡ db.cycle_wakes
  pub snapshots : db'.snapshots ≡ db.snapshots
  pub applied : db'.applied_operations ≡ db.applied_operations
  pub attention : db'.attention ≡ db.attention
  pub individuals : db'.individuals ≡ db.individuals
  pub governance : db'.governance ≡ db.governance

finish_active-SameStages :
    (s : Collaborators)
    → Keeps s
    → (c : ℕ) (r : CognitionCycle) (now : ℕ) (reason : String) (failed : Bool) (db db' : Db)
    → finish_active s c r now reason failed db ≡ ok db'
    → SameStages db db'
unfolding finish_active close_cycle
finish_active-SameStages s k c r now reason failed db db' h =
    >>=-elim (s.get_cycle_inbound db c) _ h λ inbound checked h2.
      let left = outcomes_leave s k c now _ db' h2 in
      record {
        turns = ap (λ (t : CognitionTables). t.turns) left.cognition;
        invocations = ap (λ (t : CognitionTables). t.invocations) left.cognition;
        cycle_wakes = ap (λ (t : CognitionTables). t.cycle_wakes) left.cognition;
        snapshots = ap (λ (t : CognitionTables). t.snapshots) left.cognition;
        applied = ap (λ (t : CognitionTables). t.applied_operations) left.cognition;
        attention = ap (λ (t : CognitionTables). t.attention) left.cognition;
        individuals = left.individuals;
        governance = left.governance;
      }

pub SameStages-refl : (db : Db) → SameStages db db
SameStages-refl db = ground arith

pub finish_cycle-SameStages :
    (s : Collaborators)
    → Keeps s
    → (c now : ℕ) (reason : String) (failed : Bool) (db db' : Db)
    → finish_cycle s c now reason failed db ≡ ok db'
    → SameStages db db'
unfolding finish_cycle
finish_cycle-SameStages s k c now reason failed db db' h =
    >>=-elim (require (find_cycle c db) Error.lookup_error) _ h λ r e h1.
      elim (Bool-cases (is_active r.status)) [
        | inl live ↦ finish_active-SameStages s k c r now reason failed db db' (rw live at h1)
        | inr idle ↦ let same : db' ≡ db = ground arith in rw same (SameStages-refl db)
      ]
