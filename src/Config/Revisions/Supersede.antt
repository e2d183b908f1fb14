-- ===== src/Config/Revisions/Supersede.antt =====
-- Replacing the active configuration on a sound history: replace_config_revision of
-- src/cognition/stores/configuration.py, which supersedes the active revision first, so that the
-- unique index on active revisions never refuses the new one.
use cognition.Prelude.{
  ℕ, ◌≤◌, ◌≡◌, Bool, true, false, not, ◌&&◌, Option, none, some, String, List, [], ◌∷◌, ◌++◌, ◌==◌,
  is_some, find, count, update, All,
}
use cognition.Store.Result.{Result, ok}
use cognition.Store.Db.{Db}
use cognition.Config.Revisions.{
  RuntimeConfigRevision, Replaced, drawn, new_revision, insert_active, keep_active,
  replace_config_revision,
}
use cognition.Config.{BehaviorConfiguration, Hashing, parse_behavior_config}

-- A revision of the individual that was activated and not superseded.
abbrev pub in_force : ℕ → RuntimeConfigRevision → Bool
in_force i r = r.individual_id == i && (is_some r.activated_at && not (is_some r.superseded_at))

abbrev pub superseded_by : ℕ → RuntimeConfigRevision → RuntimeConfigRevision
superseded_by now r = record r { superseded_at = some now }

abbrev Readable : RuntimeConfigRevision → Type 0
Readable r = parse_behavior_config r.sanitized_config ≡ ok r.sanitized_config

-- A history in which each individual has at most one revision in force, and every stored
-- configuration is read back as it is.
pub record IsSound (t : List RuntimeConfigRevision) : Type 0 where
  pub one_in_force : (i : ℕ) → count (in_force i) t ≤ 1
  pub readable : All Readable t

-- The history after a replacement: as it was, where the revision in force has the requested hash;
-- or with the revision in force superseded, and the requested one after it.
pub data History (i : ℕ) (c : BehaviorConfiguration) (hash : String) (now id : ℕ)
    (t : List RuntimeConfigRevision) (r : Replaced) : Type 0 where
  unchanged :
      find (in_force i) t ≡ some r.revision
      → r.revision.content_hash ≡ hash
      → r.changed ≡ false
      → r.table ≡ t
      → History i c hash now id t r
  superseded :
      r.changed ≡ true
      → r.revision ≡ record {
        config_revision_id = id;
        individual_id = i;
        config_schema_version = c.config_schema_version;
        sanitized_config = c;
        content_hash = hash;
        created_at = now;
        activated_at = some now;
        superseded_at = none;
      }
      → r.table ≡ update (in_force i) (superseded_by now) t ++ r.revision ∷ []
      → History i c hash now id t r

module _ (h : Hashing) (db : Db) (t : List RuntimeConfigRevision) (i : ℕ)
    (c : BehaviorConfiguration) (now : ℕ) (id : Option ℕ) (hash : String) where
  abbrev Replaces : Type 0
  Replaces =
      (r : Replaced) × (replace_config_revision h db t i c now id ≡ ok r)
      × IsSound r.table
      × History i c hash now (drawn id db).0 t r

  abbrev row : RuntimeConfigRevision
  row = new_revision (drawn id db).0 i c hash now

  abbrev after : List RuntimeConfigRevision
  after = update (in_force i) (superseded_by now) t ++ row ∷ []

  -- The two ends of a replacement whose hash is known.
  abbrev end_with : Option RuntimeConfigRevision → Result Replaced
  end_with o = elim o [
    | some kept ↦ keep_active db t kept
    | none ↦ insert_active db t i c hash now id
  ]
