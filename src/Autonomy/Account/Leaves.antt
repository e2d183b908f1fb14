-- ===== src/Autonomy/Account/Leaves.antt =====
-- What the accounting of a finished cycle leaves alone: what the cycle store asks of it
-- (src/cognition/stores/autonomy.py, src/cognition/stores/cognition.py).
use cognition.Prelude.{
  ℕ, ◌≡◌, refl, sym, ◌∙◌, ap, Bool, true, false, not, ◌&&◌, ◌||◌, Option, none, some, List, [], ◌∷◌,
  ◌++◌, ◌==◌, arith, ltb, select, update, any, Bool-cases, Option-cases, inl, inr,
}
use cognition.Protocol.Ref.{Ref}
use cognition.Store.Result.{ok, Error, require, raise_if, >>=-elim}
use cognition.Store.Rows.{Wake, is_pending, is_claimed}
use cognition.Store.Db.{Db, find_cycle}
use cognition.Config.{BehaviorConfiguration}
use cognition.Cycle.Collaborators.{Leaves, Leaves-trans}
use cognition.Heartbeat.{Floats, HeartbeatPolicy, HeartbeatSchedule, next_interval, schedule}
use cognition.Autonomy.{AutonomyState, Scheduler, AutonomySnapshot, HeartbeatReport, Reporting}
use cognition.Autonomy.State.{
  lock_scheduler, scheduler_configuration, policy_of, load_state, materialize, desired_schedule,
  materialize_at, fresh_wake, moved_wake, managed_wake, state_snapshot, is_over, same_refs,
  pending_row,
}
use cognition.Autonomy.Account.{
  record_cycle_outcome, account_new, account_cycle, materialize_if, record_change,
  record_difference, outcome_configuration, already, kept_state, state_or_new, advanced,
  accounts_for, is_finished_at, Accounted, Change, snapshot_before, unchanged, with_event,
  outcome_change, cycle_autonomous, cycle_activity,
}

select-append_one :
    (p : Wake → Bool) (xs : List Wake) (y : Wake)
    → p y ≡ false
    → select p (xs ++ y ∷ []) ≡ select p xs
select-append_one p [] y h = rw h refl
select-append_one p (x ∷ xs) y h = ground (arith, select-append_one p xs y h)

-- A rewrite of pending wakes that leaves them pending.
select-update_pending :
    (id : ℕ) (g : Wake → Wake) (xs : List Wake)
    → ((w : Wake) → (g w).status ≡ w.status)
    → select (λ (w : Wake). is_claimed w.status) (update (pending_row id) g xs)
      ≡ select (λ (w : Wake). is_claimed w.status) xs
select-update_pending id g [] keep = refl
select-update_pending id g (x ∷ xs) keep = elim (Bool-cases (pending_row id x)) [
  | inr other ↦ rw (other, select-update_pending id g xs keep) refl
  | inl here ↦
      let free : is_claimed x.status ≡ false = ground (arith, here) in
      let still : is_claimed (g x).status ≡ false = ap is_claimed (keep x) ∙ free in
      rw (here, free, still) (select-update_pending id g xs keep)
]

Leaves-same : {db : Db} → Leaves db db
Leaves-same = record { cognition = refl; claims = refl; individuals = refl; governance = refl }

module _ (f : Floats) where
  fresh_wake-Leaves :
      (db : Db) (r : AutonomyState f) (plan : HeartbeatSchedule) (refs : List Ref)
      → Leaves db (fresh_wake f db r plan refs).2
  unfolding fresh_wake
  fresh_wake-Leaves db r plan refs = record {
    cognition = refl;
    claims = select-append_one (λ (w : Wake). is_claimed w.status) db.wakes _ refl;
    individuals = refl;
    governance = refl;
  }

  moved_wake-Leaves :
      (db : Db) (r : AutonomyState f) (w : Wake) (plan : HeartbeatSchedule) (refs : List Ref)
      → Leaves db (moved_wake f db r w plan refs).2
  unfolding moved_wake
  moved_wake-Leaves db r w plan refs =
      elim (Bool-cases (w.due_at == plan.due_at && same_refs w.context_refs refs)) [
        | inl kept ↦ rw kept Leaves-same
        | inr moved ↦ rw moved (record {
          cognition = refl;
          claims = select-update_pending w.wake_id _ db.wakes (λ x. refl);
          individuals = refl;
          governance = refl;
        })
      ]

  materialize_at-Leaves :
      (db : Db) (r : AutonomyState f) (w : Option Wake) (plan : HeartbeatSchedule) (refs : List Ref)
      {m : Bool × AutonomyState f × Db}
      → materialize_at f db r w plan refs ≡ ok m
      → Leaves db m.2
  unfolding materialize_at
  materialize_at-Leaves db r none plan refs {m} e =
      let same : fresh_wake f db r plan refs ≡ m = cc e in
      rw (sym same) (fresh_wake-Leaves db r plan refs)
  materialize_at-Leaves db r (some w) plan refs {m} e = elim (Bool-cases (is_over w.status)) [
    | inl over ↦
        let same : fresh_wake f db r plan refs ≡ m = cc (rw over at e) in
        rw (sym same) (fresh_wake-Leaves db r plan refs)
    | inr open_still ↦ elim (Bool-cases (is_pending w.status)) [
      | inr held ↦ absurd (cc (rw (open_still, held) at e))
      | inl waiting ↦
          let same : moved_wake f db r w plan refs ≡ m = cc (rw (open_still, waiting) at e) in
          rw (sym same) (moved_wake-Leaves db r w plan refs)
    ]
  ]

  materialize_if-Leaves :
      (may : Bool) (s : Scheduler f) (r : AutonomyState f) (policy : HeartbeatPolicy f)
      {m : Bool × AutonomyState f × Db}
      → materialize_if f may s r policy ≡ ok m
      → Leaves s.db m.2
  unfolding materialize_if materialize
  materialize_if-Leaves false s r policy {m} e =
      let same : (false, r, s.db) ≡ m = cc e in rw (sym same) Leaves-same
  materialize_if-Leaves true s r policy {m} e =
      >>=-elim (desired_schedule f s r policy) _ e
        λ plan _ n. materialize_at-Leaves s.db r (managed_wake f s.db r) plan.0 plan.1 {m = m} n

  with_event-Leaves :
      (o : Reporting f) (now : ℕ) (change : Change) (report : HeartbeatReport f)
      (r : AutonomyState f) (db : Db)
      → Leaves db (with_event f o now change report r db)
  with_event-Leaves o now change report r db = elim (Bool-cases change.materialized) [
    | inr not_told ↦
        rw not_told
          (record { cognition = refl; claims = refl; individuals = refl; governance = refl })
    | inl told ↦ elim (Option-cases r.managed_wake_id) [
      | inl unmanaged ↦
          rw (told, unmanaged)
            (record { cognition = refl; claims = refl; individuals = refl; governance = refl })
      | inr (w, managed) ↦
          rw (told, managed)
            (record {
              cognition = refl;
              claims = select-update_pending w _ db.wakes (λ x. refl);
              individuals = refl;
              governance = refl;
            })
    ]
  ]

  record_change-Leaves :
      (o : Reporting f) (s : Scheduler f) (r : AutonomyState f)
      (before : Option (AutonomySnapshot f)) (now : ℕ) (policy : HeartbeatPolicy f)
      (change : Change) (db : Db) {d : AutonomyState f × Db}
      → record_change f o s r before now policy change db ≡ ok d
      → Leaves db d.1
  unfolding record_change record_difference
  record_change-Leaves o s r before now policy change db {d} e =
      elim (Bool-cases (unchanged f before (state_snapshot f db r))) [
        | inl same ↦ let done : (r, db) ≡ d = cc (rw same at e) in rw (sym done) Leaves-same
        | inr other ↦ >>=-elim (desired_schedule f s r policy) _ (rw other at e) λ plan _ n1.
            >>=-elim (schedule f policy r.anchor_at r.interval_seconds none) _ n1
              λ default _ n2. told _ _ n2
      ]
    where
      told :
          (report : HeartbeatReport f) (x : AutonomyState f)
          → ok (x, with_event f o now change report r db) ≡ ok d
          → Leaves db d.1
      told report x n =
          let done : (x, with_event f o now change report r db) ≡ d = cc n in
          rw (sym done) (with_event-Leaves o now change report r db)

  account_cycle-Leaves :
      (o : Reporting f) (i c now : ℕ) (may : Bool) (s : Scheduler f)
      (state : Option (AutonomyState f)) (config : ℕ × BehaviorConfiguration) {a : Accounted f}
      → account_cycle f o i c now may s state config ≡ ok a
      → Leaves s.db a.1.db
  unfolding account_cycle
  account_cycle-Leaves o i c now may s state config {a} e =
      >>=-elim (policy_of f config.1) _ e λ policy _ n1.
        let r = state_or_new f i now config.0 policy state in
        let autonomous = cycle_autonomous s.db c in
        let activity = cycle_activity s.db c i in
        >>=-elim (raise_if (ltb now r.anchor_at) Error.value_error) _ n1 λ _ _ n2.
          >>=-elim (next_interval f policy r.interval_seconds autonomous activity) _ n2
            λ interval _ n3.
              let next = advanced f interval now c config.0 r in
              >>=-elim (materialize_if f may s next policy) _ n3 λ m e4 n4.
                let change = outcome_change c m.0 autonomous activity in
                >>=-elim
                  (record_change f o s m.1 (snapshot_before f s.db state) now policy change m.2) _
                  n4
                  λ d e5 n5.
                    let done : kept_state f s d ≡ a = cc n5 in
                    rw (sym done) (
                      Leaves-trans (materialize_if-Leaves may s next policy {m = m} e4) (
                        record_change-Leaves o s m.1 (snapshot_before f s.db state) now policy
                          change m.2 {d = d} e5))

  account_new-Leaves :
      (o : Reporting f) (i c now : ℕ) (allowed : Bool) (s : Scheduler f)
      (state : Option (AutonomyState f)) {a : Accounted f}
      → account_new f o i c now allowed s state ≡ ok a
      → Leaves s.db a.1.db
  unfolding account_new
  account_new-Leaves o i c now allowed s state {a} e =
      >>=-elim (scheduler_configuration o.hashing s.configs i none) _ e λ active _ n1.
        >>=-elim (outcome_configuration f o s i active state) _ n1 λ config _ n2.
          elim (Option-cases config) [
            | inl nothing ↦
                let done : (none, s) ≡ a = cc (rw nothing at n2) in rw (sym done) Leaves-same
            | inr (chosen, given) ↦
                account_cycle-Leaves o i c now _ s state chosen {a = a} (rw given at n2)
          ]

  -- Whatever the floats and the scheduler's tables: where record_cycle_outcome succeeds, it has
  -- left alone what the cycle store asks of it, which is the tables of cycles, turns and
  -- invocations, the claimed wakes, the individuals and their governance.
  pub record_cycle_outcome-Leaves :
      (o : Reporting f) (c now : ℕ) (s : Scheduler f) {a : Accounted f}
      → record_cycle_outcome f o c now s ≡ ok a
      → Leaves s.db a.1.db
  unfolding record_cycle_outcome
  record_cycle_outcome-Leaves o c now s {a} e =
      >>=-elim (require (find_cycle c s.db) Error.value_error) _ e λ cycle _ n1.
        >>=-elim (lock_scheduler s.db cycle.individual_id) _ n1 λ allowed _ n2.
          >>=-elim (raise_if (not (is_finished_at now cycle)) Error.value_error) _ n2 λ _ _ n3.
            >>=-elim (load_state f o s cycle.individual_id true) _ n3 λ state _ n4.
              elim (Bool-cases
                (already f c state || any (accounts_for cycle.individual_id c) s.db.events)) [
                  | inl before ↦
                      let done : (state, s) ≡ a = cc (rw before at n4) in rw (sym done) Leaves-same
                  | inr fresh ↦
                      account_new-Leaves o cycle.individual_id c now allowed s state {a = a}
                        (rw fresh at n4)
                ]
