-- ===== src/Wakes/Merge.antt =====
-- What a created or merged wake holds: create_or_merge_pending_wake of
-- src/cognition/stores/attention.py.
use cognition.Prelude.{
  ℕ, ◌≤◌, ◌≡◌, refl, Bool, true, not, ◌||◌, Option, none, some, String, List, [], ◌∷◌, ◌++◌, arith,
  ◌==◌, ==_self, opt_eq, find, any, count, All, Bool-cases, Option-cases, inl, inr, if◌then◌else◌,
  find_unique, find-eq-some, find-update_self, find-append, any-append,
}
use cognition.Protocol.Ref.{Ref, ref_eq, ref_eq_self}
use cognition.Store.Result.{ok, Error, >>=-elim, raise_if}
use cognition.Store.Rows.{Wake, is_pending}
use cognition.Store.Db.{Db, find_wake}
use cognition.Wakes.{
  WakeV1, pending_wake, coalesces, add_refs, event_ref, cause_refs, merged, insert_wake,
  merge_or_insert, create_or_merge_pending_wake, valid_cause,
}

abbrev pub holds : List Ref → Ref → Bool
holds refs r = any (ref_eq r) refs

add_refs-keeps :
    (r : Ref) (refs new : List Ref) → holds refs r ≡ true → holds (add_refs refs new) r ≡ true
unfolding add_refs
add_refs-keeps r refs [] h = h
add_refs-keeps r refs (x ∷ rest) h =
    add_refs-keeps r (if any (ref_eq x) refs then refs else refs ++ x ∷ []) rest
      (ground (arith, any-append (ref_eq r) refs (x ∷ [])))

add_refs-adds : (refs new : List Ref) → All (λ r. holds (add_refs refs new) r ≡ true) new
unfolding add_refs
add_refs-adds refs [] = tt
add_refs-adds refs (x ∷ rest) =
    let refs' = if any (ref_eq x) refs then refs else refs ++ x ∷ [] in
    (
      add_refs-keeps x refs' rest
          (ground (arith, any-append (ref_eq x) refs (x ∷ []), ref_eq_self x)),
      add_refs-adds refs' rest,
    )

All-append_left {ℓ κ} : {A : Type ℓ} (P : A → Type κ) (xs ys : List A) → All P (xs ++ ys) → All P xs
All-append_left P [] ys h = tt
All-append_left P (x ∷ xs) ys h = (h.0, All-append_left P xs ys h.1)

All-append_right {ℓ κ} :
    {A : Type ℓ} (P : A → Type κ) (xs ys : List A) → All P (xs ++ ys) → All P ys
All-append_right P [] ys h = h
All-append_right P (x ∷ xs) ys h = All-append_right P xs ys h.1

-- A cause that a row carries: as its own, or among its references.
abbrev pub carries : Option ℕ → Option ℕ → List Ref → Bool
carries none own refs = true
carries (some e) own refs = opt_eq (some e) own || holds refs (event_ref e)

-- A pending row that answers for a requested wake: it is due no later, and it carries the request's
-- cause and every one of its references.
pub record Absorbs (w : WakeV1) (r : Wake) : Type 0 where
  pub pending : is_pending r.status ≡ true
  pub owner : r.individual_id ≡ w.individual_id
  pub due : r.due_at ≤ w.due_at
  pub cause : carries w.cause_event_id r.cause_event_id r.context_refs ≡ true
  pub refs : All (λ x. holds r.context_refs x ≡ true) w.context_refs

refs_hold_self : (refs : List Ref) → All (λ x. holds refs x ≡ true) refs
refs_hold_self refs = all_in refs refs (λ x h. h)
  where
    all_in :
        (xs refs : List Ref)
        → ((x : Ref) → holds xs x ≡ true → holds refs x ≡ true)
        → All (λ x. holds refs x ≡ true) xs
    all_in [] refs sub = tt
    all_in (x ∷ xs) refs sub =
        (sub x (ground (arith, ref_eq_self x)), all_in xs refs (λ y h. sub y (ground (arith, h))))

pending_wake-Absorbs : (w : WakeV1) → Absorbs w (pending_wake w)
pending_wake-Absorbs w = record {
  pending = refl;
  owner = refl;
  due = omega arith;
  cause = ground arith;
  refs = refs_hold_self w.context_refs;
}

carries-cause_refs :
    (new old : Option ℕ) (refs : List Ref)
    → All (λ x. holds refs x ≡ true) (cause_refs new old)
    → carries new old refs ≡ true
carries-cause_refs none old refs h = refl
carries-cause_refs (some e) old refs h = elim (Bool-cases (opt_eq (some e) old)) [
  | inl same ↦ rw same refl
  | inr other ↦ rw other ((rw other at h).0)
]

merged-Absorbs :
    (w : WakeV1) (r : Wake)
    → r.individual_id ≡ w.individual_id
    → is_pending r.status ≡ true
    → Absorbs w (merged w r)
unfolding merged
merged-Absorbs w r own live =
    let added =
      add_refs-adds r.context_refs
        (w.context_refs ++ cause_refs w.cause_event_id r.cause_event_id) in
    record {
      pending = live;
      owner = own;
      due = omega arith;
      cause =
          carries-cause_refs w.cause_event_id r.cause_event_id
            (add_refs r.context_refs
              (w.context_refs ++ cause_refs w.cause_event_id r.cause_event_id))
            (All-append_right _ w.context_refs _ added);
      refs = All-append_left _ w.context_refs _ added;
    }

-- `wake_id` is the primary key.
abbrev pub WakeKeys : Db → Type 0
WakeKeys db = (k : ℕ) → count (λ r. r.wake_id == k) db.wakes ≤ 1

-- Of one individual at most one pending wake has a given key.
abbrev pub CoalesceKeys : Db → Type 0
CoalesceKeys db = (i : ℕ) (key : String) → count (coalesces i key) db.wakes ≤ 1

-- The row under the returned identity answers for the request.
pub record Stored (w : WakeV1) (id : ℕ) (db' : Db) : Type 0 where
  pub row : Wake
  pub found : find_wake id db' ≡ some row
  pub absorbs : Absorbs w row

insert_wake-Stored :
    (w : WakeV1) (id : ℕ) (db db' : Db) → insert_wake w db ≡ ok (id, db') → Stored w id db'
unfolding insert_wake
insert_wake-Stored w id db db' h = elim (Option-cases (find_wake w.wake_id db)) [
  | inl free ↦ record {
    row = pending_wake w;
    found =
        ground (arith, free, find-append (λ x. x.wake_id == w.wake_id) db.wakes (pending_wake w));
    absorbs = pending_wake-Absorbs w;
  }
  | inr (r, taken) ↦ absurd (cc (taken, h))
]

merge_or_insert-Stored :
    (w : WakeV1) (key : String) (id : ℕ) (db db' : Db)
    → WakeKeys db
    → merge_or_insert w key db ≡ ok (id, db')
    → Stored w id db'
unfolding merge_or_insert merged
merge_or_insert-Stored w key id db db' keys h =
    elim (Option-cases (find (coalesces w.individual_id key) db.wakes)) [
      | inl fresh ↦ insert_wake-Stored w id db db' (rw (fresh, merge_or_insert) at h)
      | inr (r, e) ↦
          let here = find-eq-some (coalesces w.individual_id key) db.wakes {r = r} e in
          let mine =
            find_unique (coalesces w.individual_id key) (λ x. x.wake_id == r.wake_id) db.wakes
              {r = r} e (==_self r.wake_id) (keys r.wake_id) in
          record {
            row = merged w r;
            found = ground (
              arith,
              e,
              mine,
              find-update_self (λ (x : Wake). x.wake_id == r.wake_id) (merged w) (λ x. refl)
                  db.wakes {r = r},
            );
            absorbs = merged-Absorbs w r (ground (arith, here)) (ground (arith, here));
          }
    ]

-- Where wake identities are keys: a create_or_merge_pending_wake that succeeds leaves, under the
-- identity that it returns, a pending wake of the same individual that is due no later than
-- requested and carries the references and the cause of the request.
pub create_or_merge-Stored :
    (w : WakeV1) (id : ℕ) (db db' : Db)
    → WakeKeys db
    → create_or_merge_pending_wake w db ≡ ok (id, db')
    → Stored w id db'
unfolding create_or_merge_pending_wake
create_or_merge-Stored w id db db' keys h =
    >>=-elim (raise_if (not (valid_cause w db)) Error.value_error) _ h λ _ e h1.
      elim (Option-cases w.coalesce_key) [
        | inl free ↦ insert_wake-Stored w id db db' (ground (arith, free, h1))
        | inr (key, keyed) ↦ merge_or_insert-Stored w key id db db' keys (ground (arith, keyed, h1))
      ]
