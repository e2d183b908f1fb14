-- ===== src/Wakes.antt =====
-- Durable wakes: `WakeV1` of src/cognition/protocols/wakes_v1.py, and
-- create_or_merge_pending_wake of src/cognition/stores/attention.py.
-- The source retries its insert when a concurrent consumer takes the pending row between the
-- conflict and the locked read; the model is the attempt that finds either no conflict or the row.
pub mod Merge
pub mod Keys
pub mod Frame
use Prim.Native.String.{◌++◌ as text_append}
use cognition.Prelude.{
  ℕ, ◌+◌, Bool, true, false, not, ◌&&◌, ◌||◌, Option, none, some, String, List, [], ◌∷◌, ◌++◌, ◌==◌,
  min, str_eq, opt_str_eq, opt_eq, is_some, any, find, update, if◌then◌else◌,
}
use cognition.Protocol.Ref.{Ref, ref_eq}
use cognition.Store.Result.{Result, ok, err, Error, ◌>>=◌, ◌>>◌, require, raise_if}
use cognition.Store.Rows.{Wake, WakeKind, WakeStatus, is_pending, Event}
use cognition.Store.Db.{Db, find_wake, find_event}

pub record WakeV1 : Type 0 where
  pub wake_id : ℕ
  pub individual_id : ℕ
  pub kind : WakeKind
  pub due_at : ℕ
  pub purpose : String
  pub cause_event_id : Option ℕ
  pub context_refs : List Ref
  pub coalesce_key : Option String

abbrev pub pending_wake : WakeV1 → Wake
pending_wake w = record {
  wake_id = w.wake_id;
  individual_id = w.individual_id;
  kind = w.kind;
  status = WakeStatus.pending;
  due_at = w.due_at;
  purpose = w.purpose;
  cause_event_id = w.cause_event_id;
  context_refs = w.context_refs;
  coalesce_key = w.coalesce_key;
  claimed_at = none;
  consumed_at = none;
  revision = 1;
}

abbrev owned_event : ℕ → Option Event → Bool
owned_event i none = false
owned_event i (some e) = e.individual_id == i

-- A cause, where there is one, is an event of the same individual.
unfoldable pub valid_cause : WakeV1 → Db → Bool
valid_cause w db = elim w.cause_event_id [
  | none ↦ true
  | some e ↦ owned_event w.individual_id (find_event e db)
]

-- The partial unique index: the pending wake of this individual with this key.
abbrev pub coalesces : ℕ → String → Wake → Bool
coalesces i key r =
    r.individual_id == i && opt_str_eq r.coalesce_key (some key) && is_pending r.status

-- `if ref not in refs: refs.append(ref)`
unfoldable pub add_refs : List Ref → List Ref → List Ref
add_refs refs [] = refs
add_refs refs (r ∷ rest) = add_refs (if any (ref_eq r) refs then refs else refs ++ r ∷ []) rest

abbrev pub event_ref : ℕ → Ref
event_ref e = record { kind = "event"; id = e }

-- The cause joins the references where it is not the existing row's own.
abbrev pub cause_refs : Option ℕ → Option ℕ → List Ref
cause_refs none old = []
cause_refs (some e) old = if opt_eq (some e) old then [] else event_ref e ∷ []

abbrev pub merged_purpose : String → String → String
merged_purpose old new = if str_eq new old then old else text_append (text_append old "\n") new

unfoldable pub merged : WakeV1 → Wake → Wake
unfolding add_refs
merged w row = record row {
  context_refs =
      add_refs row.context_refs (w.context_refs ++ cause_refs w.cause_event_id row.cause_event_id);
  due_at = min row.due_at w.due_at;
  purpose = merged_purpose row.purpose w.purpose;
  revision = row.revision + 1;
}

-- The primary key refuses an identity that is in use.
unfoldable pub insert_wake : WakeV1 → Db → Result (ℕ × Db)
insert_wake w db = do
  raise_if (is_some (find_wake w.wake_id db)) Error.integrity_error
  ok (w.wake_id, record db { wakes = db.wakes ++ pending_wake w ∷ [] })

unfoldable pub merge_or_insert : WakeV1 → String → Db → Result (ℕ × Db)
unfolding insert_wake merged
merge_or_insert w key db = elim (find (coalesces w.individual_id key) db.wakes) [
  | none ↦ insert_wake w db
  | some row ↦ ok (
    row.wake_id,
    record db { wakes = update (λ r. r.wake_id == row.wake_id) (merged w) db.wakes },
  )
]

unfoldable pub create_or_merge_pending_wake : WakeV1 → Db → Result (ℕ × Db)
unfolding valid_cause merge_or_insert
create_or_merge_pending_wake w db = do
  raise_if (not (valid_cause w db)) Error.value_error
  elim w.coalesce_key [ none ↦ insert_wake w db | some key ↦ merge_or_insert w key db ]
