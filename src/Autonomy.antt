-- ===== src/Autonomy.antt =====
-- The heartbeat's bookkeeping: src/cognition/stores/autonomy.py on the table of
-- src/cognition/db/models/autonomy.py. The row of an individual is read, changed as a value and
-- written back; the session's check for unflushed rows has no counterpart, as every write is one of
-- the state. A wake is rewritten where it is the row that was read as pending.
pub mod State
pub mod Account
use cognition.Prelude.{
  ℕ, ◌+◌, Bool, Option, String, List, [], ◌∷◌, ◌++◌, ◌==◌, find, update, any, if◌then◌else◌,
}
use cognition.Json.{Fields}
use cognition.Protocol.Ref.{Ref}
use cognition.Store.Rows.{WakeStatus}
use cognition.Store.Db.{Db}
use cognition.Config.{Hashing}
use cognition.Config.Revisions.{RuntimeConfigRevision}
use cognition.Heartbeat.{Floats, HeartbeatPolicy, HeartbeatSchedule}

pub record AutonomyState (f : Floats) : Type 0 where
  pub individual_id : ℕ
  pub policy_version : ℕ
  pub interval_seconds : f.Float
  pub anchor_at : ℕ
  pub managed_wake_id : Option ℕ
  pub last_completed_cycle_id : Option ℕ
  pub config_revision_id : ℕ
  pub materialization_pending : Bool
  pub revision : ℕ

-- The columns of a commitment that the heartbeat reads.
pub record CommitmentDue : Type 0 where
  pub commitment_id : ℕ
  pub individual_id : ℕ
  pub status : String
  pub due_at : Option ℕ

-- The database with the tables that the cycle store does not see.
pub record Scheduler (f : Floats) : Type 0 where
  pub db : Db
  pub autonomy : List (AutonomyState f)
  pub configs : List RuntimeConfigRevision
  pub commitments : List CommitmentDue

-- `_snapshot`
pub record AutonomySnapshot (f : Floats) : Type 0 where
  pub interval_seconds : f.Float
  pub anchor_at : ℕ
  pub managed_wake_id : Option ℕ
  pub last_completed_cycle_id : Option ℕ
  pub config_revision_id : ℕ
  pub materialization_pending : Bool
  pub wake_status : Option WakeStatus
  pub wake_due_at : Option ℕ
  pub wake_context_refs : List Ref

-- The payload of an event about a heartbeat, before it is written as JSON.
pub record HeartbeatReport (f : Floats) : Type 0 where
  pub reason : String
  pub before : Option (AutonomySnapshot f)
  pub after : AutonomySnapshot f
  pub wake_materialized : Bool
  pub autonomous_cycle : Option Bool
  pub recorded_personal_activity : Option Bool
  pub policy : HeartbeatPolicy f
  pub desired : HeartbeatSchedule
  pub desired_context_refs : List Ref
  pub default_due_at : ℕ

-- What the bookkeeping takes from `json` and `hashlib`.
pub record Reporting (f : Floats) : Type 0 where
  pub hashing : Hashing
  pub report_json : HeartbeatReport f → Fields
