-- ===== src/Wakes/Frame.antt =====
-- What creating or merging a wake leaves alone: everything but the wakes
-- (create_or_merge_pending_wake of src/cognition/stores/attention.py).
use cognition.Prelude.{ℕ, ◌≡◌, not, String, arith, find, Option-cases, inl, inr}
use cognition.Store.Result.{ok, Error, >>=-elim, raise_if}
use cognition.Store.Db.{Db}
use cognition.Wakes.{
  WakeV1, insert_wake, merge_or_insert, create_or_merge_pending_wake, valid_cause, coalesces,
}

pub record OnlyWakes (db db' : Db) : Type 0 where
  pub cognition : db'.cognition ≡ db.cognition
  pub events : db'.events ≡ db.events
  pub individuals : db'.individuals ≡ db.individuals
  pub governance : db'.governance ≡ db.governance

insert-OnlyWakes :
    (w : WakeV1) (id : ℕ) (db db' : Db) → insert_wake w db ≡ ok (id, db') → OnlyWakes db db'
unfolding insert_wake
insert-OnlyWakes w id db db' h = ground arith

merge-OnlyWakes :
    (w : WakeV1) (key : String) (id : ℕ) (db db' : Db)
    → merge_or_insert w key db ≡ ok (id, db')
    → OnlyWakes db db'
unfolding merge_or_insert
merge-OnlyWakes w key id db db' h =
    elim (Option-cases (find (coalesces w.individual_id key) db.wakes)) [
      | inl fresh ↦ insert-OnlyWakes w id db db' (rw (fresh, merge_or_insert) at h)
      | inr (row, e) ↦ ground (arith, e)
    ]

pub create_or_merge-OnlyWakes :
    (w : WakeV1) (id : ℕ) (db db' : Db)
    → create_or_merge_pending_wake w db ≡ ok (id, db')
    → OnlyWakes db db'
unfolding create_or_merge_pending_wake
create_or_merge-OnlyWakes w id db db' h =
    >>=-elim (raise_if (not (valid_cause w db)) Error.value_error) _ h λ _ e h1.
      elim (Option-cases w.coalesce_key) [
        | inl free ↦ insert-OnlyWakes w id db db' (ground (arith, free, h1))
        | inr (key, keyed) ↦ merge-OnlyWakes w key id db db' (ground (arith, keyed, h1))
      ]
