-- ===== src/Wakes/Keys.antt =====
-- The keys of wakes: at most one pending wake for an individual and a coalescing key, and one row
-- for an identity (create_or_merge_pending_wake of src/cognition/stores/attention.py).
use cognition.Prelude.{
  ℕ, ◌+◌, ◌≤◌, ◌≡◌, refl, Bool, true, not, none, some, String, [], ◌∷◌, arith, ◌==◌, find, count,
  update, Bool-cases, Option-cases, inl, inr, str_eq_iff, find-none, count-append, count-update,
}
use cognition.Store.Result.{ok, Error, >>=-elim, raise_if}
use cognition.Store.Rows.{Wake}
use cognition.Store.Db.{Db, find_wake}
use cognition.Wakes.{
  WakeV1, pending_wake, coalesces, merged, insert_wake, merge_or_insert,
  create_or_merge_pending_wake, valid_cause,
}
use cognition.Wakes.Merge.{WakeKeys, CoalesceKeys}

merge_keeps :
    (q : Wake → Bool) (w : WakeV1) (row : Wake) (db : Db)
    → ((r : Wake) → q (merged w r) ≡ q r)
    → count q (update (λ r. r.wake_id == row.wake_id) (merged w) db.wakes) ≡ count q db.wakes
merge_keeps q w row db keep =
    count-update q (λ r. r.wake_id == row.wake_id) (merged w) (λ x h. keep x) db.wakes

insert_adds :
    (q : Wake → Bool) (w : WakeV1) (id : ℕ) (db db' : Db)
    → insert_wake w db ≡ ok (id, db')
    → count q db'.wakes ≡ count q db.wakes + count q (pending_wake w ∷ [])
unfolding insert_wake
insert_adds q w id db db' h = ground (arith, count-append q db.wakes (pending_wake w ∷ []))

insert_free :
    (w : WakeV1) (id : ℕ) (db db' : Db)
    → insert_wake w db ≡ ok (id, db')
    → find_wake w.wake_id db ≡ none
unfolding insert_wake
insert_free w id db db' h = ground arith

-- Which table a request leads to, with the search for the pending row that it may join.
data Written (w : WakeV1) (db db' : Db) : Type 0 where
  inserted :
      (id : ℕ)
      → insert_wake w db ≡ ok (id, db')
      → ((key : String)
          → w.coalesce_key ≡ some key
          → find (coalesces w.individual_id key) db.wakes ≡ none)
      → Written w db db'
  joined :
      (row : Wake)
      → db'.wakes ≡ update (λ r. r.wake_id == row.wake_id) (merged w) db.wakes
      → Written w db db'

written :
    (w : WakeV1) (id : ℕ) (db db' : Db)
    → create_or_merge_pending_wake w db ≡ ok (id, db')
    → Written w db db'
unfolding create_or_merge_pending_wake
written w id db db' h = >>=-elim (raise_if (not (valid_cause w db)) Error.value_error) _ h λ _ e h1.
    elim (Option-cases w.coalesce_key) [
      | inl free ↦ inserted id (ground (arith, free, h1)) (λ key keyed. absurd (cc (free, keyed)))
      | inr (key, keyed) ↦ joined_or_not key keyed (ground (arith, keyed, h1))
    ]
  where
    joined_or_not :
        (key : String)
        → w.coalesce_key ≡ some key
        → merge_or_insert w key db ≡ ok (id, db')
        → Written w db db'
    joined_or_not key keyed h1 =
        elim (Option-cases (find (coalesces w.individual_id key) db.wakes)) [
          | inl fresh ↦
              inserted id (rw (fresh, merge_or_insert) at h1)
                (λ other e. let same : other ≡ key = cc (keyed, e) in rw same fresh)
          | inr (row, found) ↦ joined row (ground (arith, found, h1))
        ]

-- A new row takes the place of a missing one, so the count for its key becomes one.
new_row_fits :
    (i : ℕ) (key : String) (w : WakeV1) (db : Db)
    → ((k : String) → w.coalesce_key ≡ some k → find (coalesces w.individual_id k) db.wakes ≡ none)
    → count (coalesces i key) db.wakes ≤ 1
    → count (coalesces i key) db.wakes + count (coalesces i key) (pending_wake w ∷ []) ≤ 1
new_row_fits i key w db fresh old = elim (Bool-cases (coalesces i key (pending_wake w))) [
  | inr other ↦ rw other (omega arith)
  | inl same ↦
      let (owner, keyed) = its_key same in
      let free : find (coalesces i key) db.wakes ≡ none = rw owner at (fresh key keyed) in
      rw same (omega (arith, find-none (coalesces i key) db.wakes free))
]
  where
    its_key :
        coalesces i key (pending_wake w) ≡ true
        → (w.individual_id ≡ i) × (w.coalesce_key ≡ some key)
    its_key same = elim (Option-cases w.coalesce_key) [
      | inl e ↦ absurd (ground (arith, e, same))
      | inr (k, e) ↦ ground (arith, e, same, str_eq_iff k key)
    ]

-- If wake identities are keys and an individual has at most one pending wake for a coalescing
-- key, both hold again after a create_or_merge_pending_wake that succeeds.
pub create_or_merge_keys :
    (w : WakeV1) (id : ℕ) (db db' : Db)
    → WakeKeys db
    → CoalesceKeys db
    → create_or_merge_pending_wake w db ≡ ok (id, db')
    → WakeKeys db' × CoalesceKeys db'
create_or_merge_keys w id db db' keys pending h = kept (written w id db db' h)
  where
    kept : Written w db db' → WakeKeys db' × CoalesceKeys db'
    kept (inserted new e fresh) = (
      (λ k. ground (
        arith,
        keys k,
        insert_adds (λ r. r.wake_id == k) w new db db' e,
        insert_free w new db db' e,
        find-none (λ (r : Wake). r.wake_id == w.wake_id) db.wakes,
      )),
      (λ i key.
          rw (insert_adds (coalesces i key) w new db db' e)
            (new_row_fits i key w db fresh (pending i key))),
    )
    kept (joined row e) = (
      (λ k.
          rw (e, merge_keeps (λ r. r.wake_id == k) w row db (λ r. unfold merged in refl)) (keys k)),
      (λ i key.
          rw (e, merge_keeps (coalesces i key) w row db (λ r. unfold merged in refl))
            (pending i key)),
    )
