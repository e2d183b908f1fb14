-- ===== src/Config/Revisions.antt =====
-- Active configuration replacement: src/cognition/stores/configuration.py on the table
-- `runtime_config_revisions` of src/cognition/db/models/runtime.py.
pub mod Active
pub mod Supersede
use cognition.Prelude.{
  ℕ, suc, Bool, true, false, not, ◌&&◌, ◌||◌, Option, none, some, String, List, [], ◌∷◌, ◌++◌, ◌==◌,
  str_eq, is_some, find, any, update, if◌then◌else◌,
}
use cognition.Store.Result.{Result, ok, err, Error, ◌>>=◌, ◌>>◌, require, raise_if}
use cognition.Store.Db.{Db, find_individual, new_id}
use cognition.Config.{BehaviorConfiguration, Hashing, behavior_hash, parse_behavior_config}

pub record RuntimeConfigRevision : Type 0 where
  pub config_revision_id : ℕ
  pub individual_id : ℕ
  pub config_schema_version : ℕ
  pub sanitized_config : BehaviorConfiguration
  pub content_hash : String
  pub created_at : ℕ
  pub activated_at : Option ℕ
  pub superseded_at : Option ℕ

-- `activated_at IS NOT NULL AND superseded_at IS NULL`, for one individual.
abbrev pub is_active_for : ℕ → RuntimeConfigRevision → Bool
is_active_for i r =
    r.individual_id == i && (is_some r.activated_at && not (is_some r.superseded_at))

-- `_snapshot`: the row's configuration is validated again.
unfoldable pub config_snapshot : RuntimeConfigRevision → Result RuntimeConfigRevision
config_snapshot row = do
  behavior ← parse_behavior_config row.sanitized_config
  ok (record row { sanitized_config = behavior })

-- `_active`
abbrev pub active_row : ℕ → List RuntimeConfigRevision → Option RuntimeConfigRevision
active_row i = find (is_active_for i)

optional_snapshot : Option RuntimeConfigRevision → Result (Option RuntimeConfigRevision)
optional_snapshot none = ok none
optional_snapshot (some row) = do row ← config_snapshot row; ok (some row)

unfoldable pub get_active_config :
    List RuntimeConfigRevision → ℕ → Result (Option RuntimeConfigRevision)
unfolding optional_snapshot config_snapshot
get_active_config table i = optional_snapshot (active_row i table)

-- The primary key and the partial unique index `uq_runtime_config_revisions_active`.
unfoldable pub insert_revision :
    RuntimeConfigRevision → List RuntimeConfigRevision → Result (List RuntimeConfigRevision)
insert_revision row table =
    if any (λ r. r.config_revision_id == row.config_revision_id) table
      || any (is_active_for row.individual_id) table
    then err Error.integrity_error
    else ok (table ++ row ∷ [])

abbrev retired_at : ℕ → RuntimeConfigRevision → RuntimeConfigRevision
retired_at now r = record r { superseded_at = some now }

-- `revision_id or new_id()`
abbrev drawn : Option ℕ → Db → ℕ × Db
drawn none db = new_id db
drawn (some id) db = (id, db)

abbrev new_revision : ℕ → ℕ → BehaviorConfiguration → String → ℕ → RuntimeConfigRevision
new_revision id i config hash now = record {
  config_revision_id = id;
  individual_id = i;
  config_schema_version = config.config_schema_version;
  sanitized_config = config;
  content_hash = hash;
  created_at = now;
  activated_at = some now;
  superseded_at = none;
}

abbrev same_hash : String → Option RuntimeConfigRevision → Option RuntimeConfigRevision
same_hash hash none = none
same_hash hash (some row) = if str_eq row.content_hash hash then some row else none

-- What a replacement returns: the record, whether it is new, and the database with its table.
pub record Replaced : Type 0 where
  pub revision : RuntimeConfigRevision
  pub changed : Bool
  pub table : List RuntimeConfigRevision
  pub db : Db

-- `if previous is not None: previous.superseded_at = now`, then the insertion.
unfoldable insert_active :
    Db
    → List RuntimeConfigRevision
    → ℕ
    → BehaviorConfiguration
    → String
    → ℕ
    → Option ℕ
    → Result Replaced
insert_active db table i config hash now revision_id = do
  let id = drawn revision_id db
  let row = new_revision id.0 i config hash now
  table ← insert_revision row (update (is_active_for i) (retired_at now) table)
  row ← config_snapshot row
  ok (record { revision = row; changed = true; table = table; db = id.1 })

keep_active : Db → List RuntimeConfigRevision → RuntimeConfigRevision → Result Replaced
keep_active db table row = do
  row ← config_snapshot row
  ok (record { revision = row; changed = false; table = table; db = db })

unfoldable pub replace_config_revision :
    Hashing
    → Db
    → List RuntimeConfigRevision
    → ℕ
    → BehaviorConfiguration
    → ℕ
    → Option ℕ
    → Result Replaced
unfolding insert_active keep_active
replace_config_revision h db table i config now revision_id = do
  config ← parse_behavior_config config
  parent ← require (find_individual i db) Error.lookup_error
  hash ← behavior_hash h config
  elim (same_hash hash (active_row i table)) [
    | some row ↦ keep_active db table row
    | none ↦ insert_active db table i config hash now revision_id
  ]
