-- ===== src/Instances.antt =====
-- Observations of runtime processes: RuntimeInstance of src/cognition/db/models/runtime.py, and
-- record_runtime_start and record_runtime_stop of src/cognition/stores/runtime.py. The table is
-- apart from the others, since no other store reads it; the new identity is drawn by the caller.
use cognition.Prelude.{
  ℕ, ◌≤◌, ◌≡◌, refl, ◌∙◌, Bool, true, false, not, ◌&&◌, Option, none, some, String, List, [], ◌∷◌,
  ◌++◌, arith, ◌==◌, ==_self, is_some, count, update, count-append, Bool-cases, inl, inr,
}

pub data RuntimeStatus : Type 0 where
  starting running stopping stopped crashed : RuntimeStatus

pub record RuntimeInstance : Type 0 where
  pub runtime_instance_id : ℕ
  pub individual_id : ℕ
  pub status : RuntimeStatus
  pub host_id : String
  pub process_id : ℕ
  pub started_at : ℕ
  pub last_heartbeat_at : ℕ
  pub stopped_at : Option ℕ
  pub runtime_version : String

-- `ACTIVE_RUNTIME_STATUSES`
abbrev pub is_active_runtime : RuntimeStatus → Bool
is_active_runtime stopped = false
is_active_runtime crashed = false
is_active_runtime _ = true

abbrev pub is_live : RuntimeInstance → Bool
is_live r = is_active_runtime r.status && not (is_some r.stopped_at)

abbrev pub lives_for : ℕ → RuntimeInstance → Bool
lives_for i r = r.individual_id == i && is_live r

abbrev pub crash : ℕ → RuntimeInstance → RuntimeInstance
crash now r = record r { status = crashed; stopped_at = some now }

abbrev pub new_instance : ℕ → ℕ → ℕ → String → ℕ → String → RuntimeInstance
new_instance id i now host_id process_id runtime_version = record {
  runtime_instance_id = id;
  individual_id = i;
  status = starting;
  host_id = host_id;
  process_id = process_id;
  started_at = now;
  last_heartbeat_at = now;
  stopped_at = none;
  runtime_version = runtime_version;
}

unfoldable pub record_runtime_start :
    ℕ → ℕ → ℕ → String → ℕ → String → List RuntimeInstance → RuntimeInstance × List RuntimeInstance
record_runtime_start id i now host_id process_id runtime_version rows =
    let row = new_instance id i now host_id process_id runtime_version in
    (row, update (lives_for i) (crash now) rows ++ row ∷ [])

abbrev pub ends : ℕ → RuntimeInstance → Bool
ends id r = r.runtime_instance_id == id && is_live r

unfoldable pub record_runtime_stop : ℕ → ℕ → List RuntimeInstance → List RuntimeInstance
record_runtime_stop id now rows =
    update (ends id)
      (λ r. record r { status = stopped; stopped_at = some now; last_heartbeat_at = now }) rows

-- The live instances of an individual.
abbrev pub live_count : ℕ → List RuntimeInstance → ℕ
live_count i rows = count (lives_for i) rows

crashed-live_count :
    (i now : ℕ) (rows : List RuntimeInstance)
    → live_count i (update (lives_for i) (crash now) rows) ≡ 0
crashed-live_count i now [] = refl
crashed-live_count i now (r ∷ rows) = elim (Bool-cases (lives_for i r)) [
  | inl live ↦ rw live (ground (arith, crashed-live_count i now rows))
  | inr dead ↦ rw (dead, dead) (crashed-live_count i now rows)
]

others-live_count :
    (i j now : ℕ) (rows : List RuntimeInstance)
    → (i == j) ≡ false
    → live_count j (update (lives_for i) (crash now) rows) ≡ live_count j rows
others-live_count i j now [] ne = refl
others-live_count i j now (r ∷ rows) ne = ground (arith, ne, others-live_count i j now rows ne)

-- A stop ends the instance that stands last, and starts none.
stop-live_count :
    (id i later : ℕ) (row : RuntimeInstance) (rows : List RuntimeInstance)
    → row.runtime_instance_id ≡ id
    → live_count i (record_runtime_stop id later (rows ++ row ∷ [])) ≤ live_count i rows
unfolding record_runtime_stop
stop-live_count id i later row [] e = ground (arith, e)
stop-live_count id i later row (r ∷ rows) e = ground (arith, stop-live_count id i later row rows e)

module _ (id i now : ℕ) (host_id : String) (process_id : ℕ) (runtime_version : String)
    (rows : List RuntimeInstance) where
  abbrev started : List RuntimeInstance
  started = (record_runtime_start id i now host_id process_id runtime_version rows).1

  -- Whatever instances are recorded: after record_runtime_start its individual has exactly one
  -- live instance, and every other individual has as many as before.
  pub record_runtime_start-live_count :
      (live_count i started ≡ 1)
      × ((j : ℕ) → (i == j) ≡ false → live_count j started ≡ live_count j rows)
  unfolding record_runtime_start
  record_runtime_start-live_count =
      let row = new_instance id i now host_id process_id runtime_version in
      (
        count-append (lives_for i) (update (lives_for i) (crash now) rows) (row ∷ [])
            ∙ ground (arith, crashed-live_count i now rows, ==_self i),
        λ j ne.
            count-append (lives_for j) (update (lives_for i) (crash now) rows) (row ∷ [])
            ∙ ground (arith, others-live_count i j now rows ne, ne),
      )

  -- Whatever instances are recorded: after record_runtime_start and then record_runtime_stop of
  -- the new instance, its individual has no live instance.
  pub record_runtime_stop-live_count :
      (later : ℕ) → live_count i (record_runtime_stop id later started) ≡ 0
  unfolding record_runtime_start
  record_runtime_stop-live_count later = omega (
    arith,
    stop-live_count id i later (new_instance id i now host_id process_id runtime_version)
        (update (lives_for i) (crash now) rows) refl,
    crashed-live_count i now rows,
  )
