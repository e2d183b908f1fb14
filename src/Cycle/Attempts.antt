-- ===== src/Cycle/Attempts.antt =====
-- The budget of attempts of a turn: settle_invocation_budget and start_invocation of
-- src/cognition/stores/cognition.py.
use cognition.Prelude.{
  ℕ, ◌+◌, ◌≤◌, ◌<◌, ◌≡◌, refl, ◌∙◌, ap, Bool, true, false, not, ◌&&◌, ◌||◌, Option, none, some,
  String, List, [], ◌∷◌, arith, leb, is_some, update, count, count-append, count-update, Bool-cases,
  Option-cases, All, select, ◌==◌, inl, inr, if◌then◌else◌,
}
use cognition.Store.Result.{Result, ok, Error, >>=-elim, require, raise_if, raise_if-eq-ok}
use cognition.Store.Rows.{
  CognitionCycle, CognitionTurn, TurnStatus, ModelInvocation, is_started, is_active,
}
use cognition.Store.Db.{Db, find_turn, find_cycle}
use cognition.Cycle.Collaborators.{Collaborators, Keeps}
use cognition.Cycle.Stages.{finish_cycle, end_turn}
use cognition.Cycle.Finish.{finished_row, finish_cycle-IsFinished, finish_cycle-SameStages}
use cognition.Cycle.Invoke.{
  CycleRecord, TurnRecord, of_turn, attempts_of, abandoned, abandon_started, may_invoke, refusal,
  new_invocation, settle_invocation_budget, open_invocation, start_invocation,
}

abbrev pub is_open : ℕ → ModelInvocation → Bool
is_open t v = of_turn t v && is_started v.status

-- The attempts of a turn that are in flight.
abbrev pub open_attempts : ℕ → Db → ℕ
open_attempts t db = count (is_open t) db.invocations

attempts_of-abandon :
    (t now : ℕ) (db : Db) → attempts_of t (abandon_started t now db) ≡ attempts_of t db
attempts_of-abandon t now db =
    count-update (of_turn t) (is_open t) (abandoned now) (λ x h. refl) db.invocations

open-abandon_rows :
    (t now : ℕ) (vs : List ModelInvocation)
    → count (is_open t) (update (is_open t) (abandoned now) vs) ≡ 0
open-abandon_rows t now [] = refl
open-abandon_rows t now (v ∷ vs) = ground (arith, open-abandon_rows t now vs)

open_attempts-abandon : (t now : ℕ) (db : Db) → open_attempts t (abandon_started t now db) ≡ 0
open_attempts-abandon t now db = open-abandon_rows t now db.invocations

-- A turn that is ended as failed.
ended_turns :
    (t now : ℕ) (rows : List CognitionTurn)
    → All
        (λ r. (r.status ≡ TurnStatus.failed) × (r.completed_at ≡ some now))
        (select
          (λ r. r.turn_id == t)
          (update
            (λ r. r.turn_id == t)
            (λ r. record r { status = TurnStatus.failed; completed_at = some now })
            rows))
ended_turns t now [] = tt
ended_turns t now (r ∷ rs) = ground (arith, ended_turns t now rs)

module _ (s : Collaborators) (cycle : CycleRecord) (turn : TurnRecord) (now : ℕ) where
  -- The database after the settlement's first write.
  abbrev settled_open : Db → Db
  settled_open = abandon_started turn.turn_id now

  -- A settlement that stops the turn.
  pub record Stopped (db db' : Db) : Type 0 where
    pub denial : Option String
    pub asked : s.exploration_start_denial (settled_open db) cycle.cycle_id ≡ ok denial
    pub cause :
        (leb cycle.max_attempts_per_turn (attempts_of turn.turn_id db)
          || leb cycle.deadline_at now
          || is_some denial)
        ≡ true
    pub finished :
        finish_cycle s cycle.cycle_id now
          (refusal
            (leb cycle.max_attempts_per_turn (attempts_of turn.turn_id db))
            (leb cycle.deadline_at now)
            denial)
          true
          (end_turn turn.turn_id TurnStatus.failed now (settled_open db))
        ≡ ok db'

  -- A settlement that lets the turn go on.
  pub record Permitted (db db' : Db) : Type 0 where
    pub eligible : may_invoke turn.status ≡ true
    pub allowed : s.exploration_start_denial (settled_open db) cycle.cycle_id ≡ ok none
    pub unspent : attempts_of turn.turn_id db < cycle.max_attempts_per_turn
    pub in_time : now < cycle.deadline_at
    pub only_abandons : db' ≡ settled_open db

  abbrev spent : Db → Bool
  spent db = leb cycle.max_attempts_per_turn (attempts_of turn.turn_id db)

  abbrev late : Bool
  late = leb cycle.deadline_at now

  abbrev end_here : Option String → Db → Result Db
  end_here denial db =
      finish_cycle s cycle.cycle_id now (refusal (spent db) late denial) true
        (end_turn turn.turn_id TurnStatus.failed now (settled_open db))

  settle-Stopped :
      (db db' : Db) → settle_invocation_budget s cycle turn now db ≡ ok (true, db') → Stopped db db'
  unfolding settle_invocation_budget
  settle-Stopped db db' h =
      >>=-elim (raise_if (not (may_invoke turn.status)) Error.value_error) _ h λ _ e1 h1.
        >>=-elim (require (find_turn turn.turn_id (settled_open db)) Error.assertion_error) _ h1
          λ _ e2 h2.
            >>=-elim (s.exploration_start_denial (settled_open db) cycle.cycle_id) _ h2
              λ denial e3 h3. elim (Bool-cases (spent db || late || is_some denial)) [
                | inl stop ↦ >>=-elim (end_here denial db) _ (rw stop at h3) λ done e4 h4.
                    let same : done ≡ db' = cc in
                    record { denial = denial; asked = e3; cause = stop; finished = rw same at e4 }
                | inr go ↦ absurd (cc (h3, go))
              ]

  settle-Permitted :
      (db db' : Db)
      → settle_invocation_budget s cycle turn now db ≡ ok (false, db')
      → Permitted db db'
  unfolding settle_invocation_budget
  settle-Permitted db db' h =
      >>=-elim (raise_if (not (may_invoke turn.status)) Error.value_error) _ h λ _ e1 h1.
        >>=-elim (require (find_turn turn.turn_id (settled_open db)) Error.assertion_error) _ h1
          λ _ e2 h2.
            >>=-elim (s.exploration_start_denial (settled_open db) cycle.cycle_id) _ h2
              λ denial e3 h3. elim (Bool-cases (spent db || late || is_some denial)) [
                | inl stop ↦
                    >>=-elim (end_here denial db) _ (rw stop at h3) λ done e4 h4. absurd (cc)
                | inr go ↦
                    let none_denied : denial ≡ none = ground (arith, go) in
                    record {
                      eligible = ground (arith, raise_if-eq-ok _ _ e1);
                      allowed = rw none_denied at e3;
                      unspent = ground (arith, go);
                      in_time = ground (arith, go);
                      only_abandons =
                          let same : ok (false, settled_open db) ≡ ok (false, db') = rw go at h3 in
                          cc;
                    }
              ]

  attempts-open_invocation :
      (t : ℕ) (db : Db) → attempts_of t (open_invocation t now db).1 ≡ attempts_of t db + 1
  unfolding open_invocation
  attempts-open_invocation t db = ground (
    arith,
    count-append (of_turn t) db.invocations
        (new_invocation (db.ids 0) t (attempts_of t db + 1) now ∷ []),
  )

  open-open_invocation :
      (t : ℕ) (db : Db) → open_attempts t (open_invocation t now db).1 ≡ open_attempts t db + 1
  unfolding open_invocation
  open-open_invocation t db = ground (
    arith,
    count-append (is_open t) db.invocations
        (new_invocation (db.ids 0) t (attempts_of t db + 1) now ∷ []),
  )

  -- What holds when an attempt starts.
  pub record IsStarted (db db' : Db) : Type 0 where
    pub eligible : may_invoke turn.status ≡ true
    pub in_time : now < cycle.deadline_at
    pub one_more : attempts_of turn.turn_id db' ≡ attempts_of turn.turn_id db + 1
    pub within : attempts_of turn.turn_id db' ≤ cycle.max_attempts_per_turn
    pub alone : open_attempts turn.turn_id db' ≡ 1
    pub cycles_kept : db'.cycles ≡ db.cycles

  one_more_from :
      (db mid : Db)
      → mid ≡ settled_open db
      → attempts_of turn.turn_id (open_invocation turn.turn_id now mid).1
        ≡ attempts_of turn.turn_id db + 1
  one_more_from db mid e =
      attempts-open_invocation turn.turn_id mid
      ∙ ap (λ n. n + 1) (ap (attempts_of turn.turn_id) e ∙ attempts_of-abandon turn.turn_id now db)

  alone_from :
      (db mid : Db)
      → mid ≡ settled_open db
      → open_attempts turn.turn_id (open_invocation turn.turn_id now mid).1 ≡ 1
  alone_from db mid e =
      open-open_invocation turn.turn_id mid
      ∙ ap (λ n. n + 1)
          (ap (open_attempts turn.turn_id) e ∙ open_attempts-abandon turn.turn_id now db)

  cycles-open_invocation : (t : ℕ) (db : Db) → (open_invocation t now db).1.cycles ≡ db.cycles
  unfolding open_invocation
  cycles-open_invocation t db = refl

  Permitted-IsStarted :
      (db mid : Db) → Permitted db mid → IsStarted db (open_invocation turn.turn_id now mid).1
  Permitted-IsStarted db mid p = record {
    eligible = p.eligible;
    in_time = p.in_time;
    one_more = one_more_from db mid p.only_abandons;
    within = omega (arith, one_more_from db mid p.only_abandons, p.unspent);
    alone = alone_from db mid p.only_abandons;
    cycles_kept =
        cycles-open_invocation turn.turn_id mid ∙ ap (λ (d : Db). d.cycles) p.only_abandons;
  }

  -- Where start_invocation succeeds with a new attempt, the turn was prepared or invoking, the
  -- deadline lies ahead, the turn has one attempt more than before and at most its limit, the
  -- new one is its only open attempt, and the cycles are as they were.
  pub start_invocation-IsStarted :
      (v : ℕ) (db db' : Db)
      → start_invocation s cycle turn now db ≡ ok (some v, db')
      → IsStarted db db'
  unfolding start_invocation
  start_invocation-IsStarted v db db' h =
      >>=-elim (settle_invocation_budget s cycle turn now db) _ h λ r e h1. split r e h1
    where
      opened :
          (mid : Db)
          → open_invocation turn.turn_id now mid ≡ (some v, db')
          → (open_invocation turn.turn_id now mid).1 ≡ db'
      opened mid e = cc

      split :
          (r : Bool × Db)
          → settle_invocation_budget s cycle turn now db ≡ ok r
          → (if r.0 then ok (none, r.1) else ok (open_invocation turn.turn_id now r.1))
            ≡ ok (some v, db')
          → IsStarted db db'
      split (true, mid) e h1 = absurd (cc)
      split (false, mid) e h1 =
          rw (opened mid (cc)) at (Permitted-IsStarted db mid (settle-Permitted db mid e))

  -- The first reason to stop: the limit of attempts before the deadline, the deadline before a
  -- denial of exploration, which is its own reason.
  pub data FirstCause (db : Db) (denial : Option String) : String → Type 0 where
    attempt_limit :
        cycle.max_attempts_per_turn ≤ attempts_of turn.turn_id db
        → FirstCause db denial "attempt_limit"
    deadline :
        attempts_of turn.turn_id db < cycle.max_attempts_per_turn
        → cycle.deadline_at ≤ now
        → FirstCause db denial "deadline"
    denied :
        (text : String)
        → attempts_of turn.turn_id db < cycle.max_attempts_per_turn
        → now < cycle.deadline_at
        → denial ≡ some text
        → FirstCause db denial text

  refusal-FirstCause :
      (db : Db) (denial : Option String)
      → (spent db || late || is_some denial) ≡ true
      → FirstCause db denial (refusal (spent db) late denial)
  refusal-FirstCause db denial h = elim (Bool-cases (spent db)) [
    | inl full ↦ rw full (attempt_limit (ground arith))
    | inr unspent ↦ elim (Bool-cases late) [
      | inl over ↦ rw (unspent, over) (deadline (ground arith) (ground arith))
      | inr in_time ↦ elim (Option-cases denial) [
        | inl nothing ↦ absurd (cc (rw (unspent, in_time, nothing) at h))
        | inr (text, said) ↦
            rw (unspent, in_time, said) (denied text (ground arith) (ground arith) refl)
      ]
    ]
  ]

  -- A turn that is stopped instead: it has failed, its attempts are no more than before and none is
  -- open, and an active cycle is closed as failed with the first cause that applies.
  pub record IsStopped (row : CognitionCycle) (db db' : Db) : Type 0 where
    pub denial : Option String
    pub asked : s.exploration_start_denial (settled_open db) cycle.cycle_id ≡ ok denial
    pub reason : String
    pub cause : FirstCause db denial reason
    pub turn_failed :
        All
          (λ r. (r.status ≡ TurnStatus.failed) × (r.completed_at ≡ some now))
          (select (λ r. r.turn_id == turn.turn_id) db'.turns)
    pub same_attempts : attempts_of turn.turn_id db' ≡ attempts_of turn.turn_id db
    pub none_open : open_attempts turn.turn_id db' ≡ 0
    pub cycle_closed : find_cycle cycle.cycle_id db' ≡ some (finished_row now reason true row)

  Stopped-IsStopped :
      Keeps s
      → (row : CognitionCycle) (db db' : Db) → find_cycle cycle.cycle_id db ≡ some row
      → is_active row.status ≡ true
      → Stopped db db'
      → IsStopped row db db'
  Stopped-IsStopped k row db db' found live p =
      let failed_turn = end_turn turn.turn_id TurnStatus.failed now (settled_open db) in
      let reason = refusal (spent db) late p.denial in
      let kept =
        finish_cycle-SameStages s k cycle.cycle_id now reason true failed_turn db' p.finished in
      let done =
        finish_cycle-IsFinished s k cycle.cycle_id now reason true row failed_turn db' found live
          p.finished in
      record {
        denial = p.denial;
        asked = p.asked;
        reason = reason;
        cause = refusal-FirstCause db p.denial p.cause;
        turn_failed = rw kept.turns (ended_turns turn.turn_id now db.turns);
        same_attempts =
            ap (count (of_turn turn.turn_id)) kept.invocations
            ∙ attempts_of-abandon turn.turn_id now db;
        none_open =
            ap (count (is_open turn.turn_id)) kept.invocations
            ∙ open_attempts-abandon turn.turn_id now db;
        cycle_closed = done.row_closed;
      }

  -- For collaborators that keep to their tables and an active cycle: where start_invocation
  -- succeeds without an attempt, the turn has failed at the moment given with as many attempts
  -- as before and none open, and the cycle is closed as failed; the reason is attempt_limit
  -- where the attempts have reached their limit, else deadline where the deadline has come, else
  -- the text of the denial of exploration.
  pub start_invocation-IsStopped :
      Keeps s
      → (row : CognitionCycle) (db db' : Db) → find_cycle cycle.cycle_id db ≡ some row
      → is_active row.status ≡ true
      → start_invocation s cycle turn now db ≡ ok (none, db')
      → IsStopped row db db'
  unfolding start_invocation
  start_invocation-IsStopped k row db db' found live h =
      >>=-elim (settle_invocation_budget s cycle turn now db) _ h λ r e h1. split r e h1
    where
      split :
          (r : Bool × Db)
          → settle_invocation_budget s cycle turn now db ≡ ok r
          → (if r.0 then ok (none, r.1) else ok (open_invocation turn.turn_id now r.1))
            ≡ ok (none, db')
          → IsStopped row db db'
      split (true, mid) e h1 =
          let same : mid ≡ db' = cc in
          Stopped-IsStopped k row db db' found live (settle-Stopped db db' (rw same at e))
      split (false, mid) e h1 = unfold open_invocation in absurd (cc)
