-- ===== src/Autonomy/Account/Once.antt =====
-- A finished cycle is accounted for once (record_cycle_outcome of src/cognition/stores/autonomy.py).
use cognition.Prelude.{
  ℕ, ◌+◌, ◌≡◌, refl, sym, ◌∙◌, ap, Bool, true, false, not, ◌&&◌, ◌||◌, Option, none, some, List, [],
  ◌∷◌, ◌==◌, arith, ltb, ◌⊎◌, find, find-eq-some, any, ==_self, ==_iff, Bool-cases, Option-cases,
  inl, inr,
}
use cognition.Store.Result.{ok, Error, require, raise_if, >>=-elim, require-eq-ok}
use cognition.Store.Rows.{CognitionCycle, Wake, is_pending}
use cognition.Protocol.Ref.{Ref}
use cognition.Store.Db.{Db, CognitionTables, find_cycle}
use cognition.Config.{BehaviorConfiguration}
use cognition.Heartbeat.{Floats, HeartbeatPolicy, HeartbeatSchedule, next_interval, schedule, clamp}
use cognition.Autonomy.{AutonomyState, Scheduler, AutonomySnapshot, Reporting}
use cognition.Autonomy.State.{
  lock_scheduler, scheduler_configuration, policy_of, load_state, checked_state, find_state,
  materialize, desired_schedule, materialize_at, fresh_wake, moved_wake, managed_wake,
  state_snapshot, is_over, same_refs, valid_columns, required_configuration, same_float,
  completed_cycle_valid, wake_valid,
}
use cognition.Autonomy.Account.{
  record_cycle_outcome, account_new, account_cycle, materialize_if, record_change,
  record_difference, outcome_configuration, already, put_state, kept_state, state_or_new, advanced,
  accounts_for, is_finished_at, Accounted, Change, snapshot_before, unchanged, revised,
  outcome_change, cycle_autonomous, cycle_activity,
}
use cognition.Autonomy.Account.Leaves.{record_cycle_outcome-Leaves}

module _ (f : Floats) where
  -- A state of the individual that has the cycle as its last one.
  abbrev Done : ℕ → ℕ → AutonomyState f → Type 0
  Done i c r = (r.individual_id ≡ i) × (r.last_completed_cycle_id ≡ some c)

  find-put_state :
      (r : AutonomyState f) (rs : List (AutonomyState f))
      → find (λ (x : AutonomyState f). x.individual_id == r.individual_id) (put_state f r rs)
        ≡ some r
  find-put_state r [] = ground (arith, ==_self r.individual_id)
  find-put_state r (x ∷ xs) = ground (arith, ==_self r.individual_id, find-put_state r xs)

  materialize_at-Done :
      (db : Db) (r : AutonomyState f) (w : Option Wake) (plan : HeartbeatSchedule) (refs : List Ref)
      (i c : ℕ) {m : Bool × AutonomyState f × Db}
      → Done i c r
      → materialize_at f db r w plan refs ≡ ok m
      → Done i c m.1
  unfolding materialize_at fresh_wake moved_wake
  materialize_at-Done db r none plan refs i c {m} h e =
      let same : fresh_wake f db r plan refs ≡ m = cc e in rw (sym same) h
  materialize_at-Done db r (some w) plan refs i c {m} h e = elim (Bool-cases (is_over w.status)) [
    | inl over ↦ let same : fresh_wake f db r plan refs ≡ m = cc (rw over at e) in rw (sym same) h
    | inr open_still ↦ elim (Bool-cases (is_pending w.status)) [
      | inr held ↦ absurd (cc (rw (open_still, held) at e))
      | inl waiting ↦
          let same : moved_wake f db r w plan refs ≡ m = cc (rw (open_still, waiting) at e) in
          elim (Bool-cases (w.due_at == plan.due_at && same_refs w.context_refs refs)) [
            | inl kept ↦ rw (sym same, kept) h
            | inr moved ↦ rw (sym same, moved) h
          ]
    ]
  ]

  materialize-Done :
      (s : Scheduler f) (r : AutonomyState f) (policy : HeartbeatPolicy f) (i c : ℕ)
      {m : Bool × AutonomyState f × Db}
      → Done i c r
      → materialize f s r policy ≡ ok m
      → Done i c m.1
  unfolding materialize
  materialize-Done s r policy i c {m} h e =
      >>=-elim (desired_schedule f s r policy) _ e
        λ plan _ n. materialize_at-Done s.db r (managed_wake f s.db r) plan.0 plan.1 i c {m = m} h n

  record_change-Done :
      (o : Reporting f) (s : Scheduler f) (r : AutonomyState f)
      (before : Option (AutonomySnapshot f)) (now : ℕ) (policy : HeartbeatPolicy f)
      (change : Change) (db : Db) (i c : ℕ) {d : AutonomyState f × Db}
      → Done i c r
      → record_change f o s r before now policy change db ≡ ok d
      → Done i c d.0
  unfolding record_change record_difference
  record_change-Done o s r before now policy change db i c {d} h e =
      elim (Bool-cases (unchanged f before (state_snapshot f db r))) [
        | inl same ↦ let done : (r, db) ≡ d = cc (rw same at e) in rw (sym done) h
        | inr other ↦ >>=-elim (desired_schedule f s r policy) _ (rw other at e) λ plan _ n1.
            >>=-elim (schedule f policy r.anchor_at r.interval_seconds none) _ n1
              λ default _ n2. revised-Done before n2
      ]
    where
      revised-Done :
          (b : Option (AutonomySnapshot f)) {x : Db} → ok (revised f b r, x) ≡ ok d → Done i c d.0
      revised-Done none {x} n = let done : (r, x) ≡ d = cc n in rw (sym done) h
      revised-Done (some y) {x} n =
          let done : (record r { revision = r.revision + 1 }, x) ≡ d = cc n in rw (sym done) h

  checked_state-same :
      (o : Reporting f) (s : Scheduler f) (i : ℕ) (finishing : Bool) (r : AutonomyState f)
      {st : Option (AutonomyState f)}
      → checked_state f o s i finishing r ≡ ok st
      → st ≡ some r
  unfolding checked_state
  checked_state-same o s i finishing r {st} e =
      >>=-elim (raise_if (not (valid_columns f r)) Error.value_error) _ e λ _ _ n1.
        >>=-elim (scheduler_configuration o.hashing s.configs i (some r.config_revision_id)) _ n1
          λ config _ n2. >>=-elim (required_configuration config) _ n2 λ behavior _ n3.
            >>=-elim (policy_of f behavior) _ n3 λ policy _ n4.
              >>=-elim (clamp f policy r.interval_seconds) _ n4 λ clamped _ n5.
                >>=-elim
                  (raise_if (not (same_float f clamped r.interval_seconds)) Error.value_error) _ n5
                  λ _ _ n6.
                    >>=-elim (raise_if (not (completed_cycle_valid f s.db i r)) Error.value_error) _
                      n6
                      λ _ _ n7.
                        >>=-elim
                          (raise_if (not (wake_valid f s.db i finishing r)) Error.value_error) _ n7
                          λ _ _ n8. sym (cc n8)

  load_state-found :
      (o : Reporting f) (s : Scheduler f) (i : ℕ) (finishing : Bool) {st : Option (AutonomyState f)}
      → load_state f o s i finishing ≡ ok st
      → find_state f i s ≡ st
  unfolding load_state
  load_state-found o s i finishing {st} e = elim (Option-cases (find_state f i s)) [
    | inl nothing ↦ let same : none ≡ st = cc (rw (load_state, nothing) at e) in nothing ∙ same
    | inr (r, found) ↦
        found ∙ sym (checked_state-same o s i finishing r {st = st} (rw (load_state, found) at e))
  ]

  state_or_new-owner :
      (s : Scheduler f) (i now config : ℕ) (policy : HeartbeatPolicy f)
      (st : Option (AutonomyState f))
      → find_state f i s ≡ st
      → (state_or_new f i now config policy st).individual_id ≡ i
  state_or_new-owner s i now config policy none h = refl
  state_or_new-owner s i now config policy (some r) h =
      (==_iff r.individual_id i).0
        (find-eq-some (λ (x : AutonomyState f). x.individual_id == i) s.autonomy {r = r} h)

  -- After an accounting the individual's state has the cycle as its last one.
  Accounts : ℕ → ℕ → Scheduler f → Type 0
  Accounts i c s =
      (r : AutonomyState f) × (find_state f i s ≡ some r) × (r.last_completed_cycle_id ≡ some c)

  kept_state-Accounts :
      (s : Scheduler f) (d : AutonomyState f × Db) (i c : ℕ)
      → Done i c d.0
      → Accounts i c (kept_state f s d).1
  unfolding Accounts
  kept_state-Accounts s d i c h = (
    d.0,
    ap (λ n. find (λ (x : AutonomyState f). x.individual_id == n) (put_state f d.0 s.autonomy))
          (sym h.0)
        ∙ find-put_state d.0 s.autonomy,
    h.1,
  )

  materialize_if-Done :
      (may : Bool) (s : Scheduler f) (r : AutonomyState f) (policy : HeartbeatPolicy f) (i c : ℕ)
      {m : Bool × AutonomyState f × Db}
      → Done i c r
      → materialize_if f may s r policy ≡ ok m
      → Done i c m.1
  unfolding materialize_if
  materialize_if-Done false s r policy i c {m} h e =
      let same : (false, r, s.db) ≡ m = cc e in rw (sym same) h
  materialize_if-Done true s r policy i c {m} h e = materialize-Done s r policy i c {m = m} h e

  account_cycle-Accounts :
      (o : Reporting f) (i c now : ℕ) (may : Bool) (s : Scheduler f)
      (state : Option (AutonomyState f)) (config : ℕ × BehaviorConfiguration) {a : Accounted f}
      → find_state f i s ≡ state
      → account_cycle f o i c now may s state config ≡ ok a
      → Accounts i c a.1
  unfolding account_cycle
  account_cycle-Accounts o i c now may s state config {a} held e =
      >>=-elim (policy_of f config.1) _ e λ policy _ n1.
        let r = state_or_new f i now config.0 policy state in
        let owner = state_or_new-owner s i now config.0 policy state held in
        let autonomous = cycle_autonomous s.db c in
        let activity = cycle_activity s.db c i in
        >>=-elim (raise_if (ltb now r.anchor_at) Error.value_error) _ n1 λ _ _ n2.
          >>=-elim (next_interval f policy r.interval_seconds autonomous activity) _ n2
            λ interval _ n3.
              let next = advanced f interval now c config.0 r in
              >>=-elim (materialize_if f may s next policy) _ n3 λ m e4 n4.
                let change = outcome_change c m.0 autonomous activity in
                let moved = materialize_if-Done may s next policy i c {m = m} (owner, refl) e4 in
                >>=-elim
                  (record_change f o s m.1 (snapshot_before f s.db state) now policy change m.2) _
                  n4
                  λ d e5 n5.
                    let done : kept_state f s d ≡ a = cc n5 in
                    let last =
                      record_change-Done o s m.1 (snapshot_before f s.db state) now policy change
                        m.2 i c {d = d} moved e5 in
                    rw (sym done) (kept_state-Accounts s d i c last)

  account_new-Accounts :
      (o : Reporting f) (i c now : ℕ) (allowed : Bool) (s : Scheduler f)
      (state : Option (AutonomyState f)) {a : Accounted f}
      → find_state f i s ≡ state
      → account_new f o i c now allowed s state ≡ ok a
      → (a.1 ≡ s) ⊎ Accounts i c a.1
  unfolding account_new
  account_new-Accounts o i c now allowed s state {a} held e =
      >>=-elim (scheduler_configuration o.hashing s.configs i none) _ e λ active _ n1.
        >>=-elim (outcome_configuration f o s i active state) _ n1 λ config _ n2.
          elim (Option-cases config) [
            | inl nothing ↦
                let done : (none, s) ≡ a = cc (rw nothing at n2) in
                inl (sym (ap (λ (x : Accounted f). x.1) done))
            | inr (chosen, given) ↦
                inr
                  (account_cycle-Accounts o i c now _ s state chosen {a = a} held (rw given at n2))
          ]

  first-run :
      (o : Reporting f) (c now : ℕ) (s : Scheduler f) (cycle : CognitionCycle) {a : Accounted f}
      → find_cycle c s.db ≡ some cycle
      → record_cycle_outcome f o c now s ≡ ok a
      → (a.1 ≡ s) ⊎ Accounts cycle.individual_id c a.1
  unfolding record_cycle_outcome
  first-run o c now s cycle {a} found e =
      >>=-elim (lock_scheduler s.db cycle.individual_id) _ (rw found at e) λ allowed _ n2.
        >>=-elim (raise_if (not (is_finished_at now cycle)) Error.value_error) _ n2 λ _ _ n3.
          >>=-elim (load_state f o s cycle.individual_id true) _ n3 λ state e4 n4.
            elim (Bool-cases
              (already f c state || any (accounts_for cycle.individual_id c) s.db.events)) [
                | inl before ↦
                    let done : (state, s) ≡ a = cc (rw before at n4) in
                    inl (sym (ap (λ (x : Accounted f). x.1) done))
                | inr fresh ↦
                    account_new-Accounts o cycle.individual_id c now allowed s state {a = a}
                      (load_state-found o s cycle.individual_id true {st = state} e4)
                      (rw fresh at n4)
              ]

  second-run :
      (o : Reporting f) (c now : ℕ) (s : Scheduler f) (cycle : CognitionCycle) {b : Accounted f}
      → find_cycle c s.db ≡ some cycle
      → Accounts cycle.individual_id c s
      → record_cycle_outcome f o c now s ≡ ok b
      → b.1 ≡ s
  unfolding record_cycle_outcome Accounts
  second-run o c now s cycle {b} found h e =
      >>=-elim (lock_scheduler s.db cycle.individual_id) _ (rw found at e) λ allowed _ n2.
        >>=-elim (raise_if (not (is_finished_at now cycle)) Error.value_error) _ n2 λ _ _ n3.
          >>=-elim (load_state f o s cycle.individual_id true) _ n3 λ state e4 n4.
            let mine : state ≡ some h.0 =
              sym (load_state-found o s cycle.individual_id true {st = state} e4) ∙ h.1 in
            let known : already f c state ≡ true = ap (already f c) mine ∙ (rw h.2 (==_self c)) in
            let done : (state, s) ≡ b = cc (rw known at n4) in
            sym (ap (λ (x : Accounted f). x.1) done)

  -- Whatever the floats and the scheduler's tables: where record_cycle_outcome succeeds, and a
  -- second record_cycle_outcome of the same cycle at the same moment succeeds on what it left,
  -- the second one changes nothing.
  pub record_cycle_outcome-again :
      (o : Reporting f) (c now : ℕ) (s : Scheduler f) {a b : Accounted f}
      → record_cycle_outcome f o c now s ≡ ok a
      → record_cycle_outcome f o c now a.1 ≡ ok b
      → b.1 ≡ a.1
  unfolding record_cycle_outcome
  record_cycle_outcome-again o c now s {a} {b} e e' = elim (Option-cases (find_cycle c s.db)) [
    | inl missing ↦ >>=-elim (require (find_cycle c s.db) Error.value_error) _ e λ cycle h _.
        absurd (cc (missing, require-eq-ok (find_cycle c s.db) Error.value_error {r = cycle} h))
    | inr (cycle, found) ↦ elim (first-run o c now s cycle {a = a} found e) [
      | inl same ↦
          let again : record_cycle_outcome f o c now a.1 ≡ ok a =
            ap (record_cycle_outcome f o c now) same ∙ e in
          let equal : a ≡ b = cc (sym again ∙ e') in sym (ap (λ (x : Accounted f). x.1) equal)
      | inr done ↦
          let kept = record_cycle_outcome-Leaves f o c now s {a = a} e in
          let there =
            ap (λ (t : CognitionTables). find (λ (x : CognitionCycle). x.cycle_id == c) t.cycles)
              kept.cognition
            ∙ found in
          second-run o c now a.1 cycle {b = b} there done e'
    ]
  ]
