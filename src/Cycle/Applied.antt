-- ===== src/Cycle/Applied.antt =====
-- What applying a decision does to the turns, and what a rejection leaves alone: apply_decision of
-- src/cognition/stores/cognition.py.
use cognition.Prelude.{
  ℕ, ◌+◌, ◌≤◌, ◌<◌, ◌≡◌, refl, sym, ◌∙◌, ap, Bool, true, false, not, ◌||◌, Option, none, some,
  String, List, [], ◌∷◌, ◌++◌, arith, ◌==◌, leb, max, update, All, Bool-cases, inl, inr,
  if◌then◌else◌,
}
use cognition.Protocol.Decision.{CognitionDecision, WakeRequest, is_empty}
use cognition.Policy.Cognition.{DecisionError}
use cognition.Store.Result.{ok, Error, >>=-elim, require, raise_if}
use cognition.Store.Rows.{CognitionTurn, TurnStatus}
use cognition.Store.Db.{Db, CognitionTables, find_turn, add_delay}
use cognition.Wakes.{create_or_merge_pending_wake}
use cognition.Wakes.Frame.{create_or_merge-OnlyWakes}
use cognition.Cycle.Collaborators.{Collaborators, Keeps}
use cognition.Cycle.Stages.{finish_cycle, end_turn, new_turn}
use cognition.Cycle.Finish.{finish_cycle-SameStages}
use cognition.Cycle.Invoke.{CycleRecord, TurnRecord}
use cognition.Cycle.Apply.{
  is_personal, requested_wake, add_applied, is_applied, apply_wake_requests, attend, continues,
  disposition_text, conclude, accept_decision, reject_decision, decision_errors,
  differs_from_request, apply_recorded, apply_stage, apply_decision,
}

-- The wake requests of a decision touch no turn.
turns-apply_wake_requests :
    (cycle : CycleRecord) (turn : TurnRecord) (now : ℕ) (rs : List WakeRequest) (db db' : Db)
    → apply_wake_requests cycle turn now rs db ≡ ok db'
    → db'.turns ≡ db.turns
unfolding apply_wake_requests add_applied
turns-apply_wake_requests cycle turn now [] db db' h = cc
turns-apply_wake_requests cycle turn now (r ∷ rest) db db' h =
    >>=-elim (add_delay now cycle.min_wake_delay) _ h λ earliest e1 h1.
      >>=-elim
        (create_or_merge_pending_wake (requested_wake cycle (max r.not_before earliest) r) db) _ h1
        λ m e2 h2. >>=-elim (add_applied _ m.1) _ h2 λ applied e3 h3.
          >>=-elim (raise_if (is_applied r.operation_id m.1) Error.integrity_error) _ e3 λ _ e4 h4.
            let added : applied.turns ≡ m.1.turns = cc in
            turns-apply_wake_requests cycle turn now rest applied db' h3
            ∙ (added
                ∙ ap (λ (t : CognitionTables). t.turns)
                    (create_or_merge-OnlyWakes _ m.0 db m.1 e2).cognition)

module _ (s : Collaborators) (k : Keeps s) (cycle : CycleRecord) (turn : TurnRecord) (now : ℕ) where
  abbrev pub next_turn : ℕ → CognitionTurn
  next_turn id = record {
    turn_id = id;
    cycle_id = cycle.cycle_id;
    ordinal = turn.ordinal + 1;
    status = TurnStatus.prepared;
    created_at = now;
    completed_at = none;
    decision = none;
    decision_hash = none;
    validation_errors = [];
  }

  abbrev pub in_status : TurnStatus → List CognitionTurn → List CognitionTurn
  in_status status =
      update (λ r. r.turn_id == turn.turn_id)
        (λ r. record r { status = status; completed_at = some now })

  abbrev pub with_errors : List DecisionError → List CognitionTurn → List CognitionTurn
  with_errors errors =
      update (λ r. r.turn_id == turn.turn_id)
        (λ r. record r {
          status = TurnStatus.rejected;
          completed_at = some now;
          validation_errors = errors;
        })

  -- The turns after a decision is applied: as they were where it had been applied before; with the
  -- turn rejected for its errors; with the turn applied; or with one turn more, which takes a
  -- decision to continue, a turn left and time left.
  pub data TurnsAfter (d : Option CognitionDecision) (before after : List CognitionTurn)
      : Type 0 where
    repeated : turn.status ≡ TurnStatus.applied → after ≡ before → TurnsAfter d before after
    rejected :
        (errors : List DecisionError)
        → is_empty errors ≡ false
        → after ≡ with_errors errors before
        → TurnsAfter d before after
    finished : after ≡ in_status TurnStatus.applied before → TurnsAfter d before after
    continued :
        (x : CognitionDecision) (id : ℕ)
        → d ≡ some x
        → continues x.disposition ≡ true
        → turn.ordinal < cycle.max_turns
        → now < cycle.deadline_at
        → after ≡ in_status TurnStatus.applied before ++ next_turn id ∷ []
        → TurnsAfter d before after

  finished-turns :
      (reason : String) (failed : Bool) (db db' : Db)
      → finish_cycle s cycle.cycle_id now reason failed db ≡ ok db'
      → db'.turns ≡ db.turns
  finished-turns reason failed db db' h =
      (finish_cycle-SameStages s k cycle.cycle_id now reason failed db db' h).turns

  concluded :
      (x : CognitionDecision) (before : List CognitionTurn) (db db' : Db)
      → db.turns ≡ in_status TurnStatus.applied before
      → conclude s cycle turn x.disposition now db ≡ ok db'
      → TurnsAfter (some x) before db'.turns
  unfolding conclude new_turn
  concluded x before db db' e h = elim (Bool-cases (not (continues x.disposition))) [
    | inl stops ↦
        finished (finished-turns (disposition_text x.disposition) false db db' (rw stops at h) ∙ e)
    | inr goes ↦ elim (Bool-cases (leb cycle.max_turns turn.ordinal || leb cycle.deadline_at now)) [
      | inl over ↦ finished (
          finished-turns (if leb cycle.max_turns turn.ordinal then "turn_limit" else "deadline")
            false db db' (rw (goes, over) at h)
          ∙ e)
      | inr more ↦
          let opened : ok (new_turn cycle.cycle_id (turn.ordinal + 1) now db) ≡ ok db' =
            rw (goes, more) at h in
          let one_more : db'.turns ≡ db.turns ++ next_turn (db.ids 0) ∷ [] = cc in
          continued x (db.ids 0) refl (ground (arith, goes)) (ground (arith, more))
            (ground (arith, more)) (one_more ∙ ap (λ ts. ts ++ next_turn (db.ids 0) ∷ []) e)
    ]
  ]

  stated-turns :
      (x : CognitionDecision) (db db' : Db)
      → (if is_personal x then s.apply_personal_operations cycle.individual_id x now db else ok db)
        ≡ ok db'
      → db'.turns ≡ db.turns
  stated-turns x db db' h = elim (Bool-cases (is_personal x)) [
    | inl personal ↦ (k.personal_applied cycle.individual_id x now db db' (rw personal at h)).0
    | inr none_personal ↦ let same : ok db ≡ ok db' = rw none_personal at h in cc
  ]

  accepted :
      (x : CognitionDecision) (db db' : Db)
      → accept_decision s cycle turn x now db ≡ ok db'
      → TurnsAfter (some x) db.turns db'.turns
  unfolding accept_decision attend
  accepted x db db' h =
      >>=-elim
        (if is_personal x then s.apply_personal_operations cycle.individual_id x now db else ok db)
        _ h
        λ stated e1 h1.
          >>=-elim
            (apply_wake_requests cycle turn now x.wake_requests
              (attend x.current_focus cycle now stated))
            _ h1
            λ scheduled e2 h2.
              let kept : scheduled.turns ≡ db.turns =
                turns-apply_wake_requests cycle turn now x.wake_requests _ scheduled e2
                ∙ stated-turns x db stated e1 in
              concluded x db.turns (end_turn turn.turn_id TurnStatus.applied now scheduled) db'
                (ap (in_status TurnStatus.applied) kept) h2

  recorded :
      (x : CognitionDecision) (db db' : Db)
      → apply_recorded s cycle turn x now db ≡ ok db'
      → TurnsAfter (some x) db.turns db'.turns
  unfolding apply_recorded reject_decision
  recorded x db db' h = >>=-elim (s.load_request db turn.turn_id) _ h λ frozen e1 h1.
      >>=-elim (raise_if (differs_from_request x frozen) Error.incompatible) _ h1 λ _ e2 h2.
        >>=-elim (decision_errors s cycle turn x now db) _ h2 λ errors e3 h3.
          >>=-elim (require (find_turn turn.turn_id db) Error.assertion_error) _ h3 λ _ e4 h4.
            elim (Bool-cases (is_empty errors)) [
              | inl clean ↦ accepted x db db' (rw clean at h4)
              | inr dirty ↦
                  rejected errors dirty
                    (finished-turns "decision_rejected" true _ db' (rw dirty at h4))
            ]

  -- For collaborators that keep to their tables: an apply_decision that succeeds leaves the
  -- turns as they were, for a turn applied before; or with the turn rejected and its errors; or
  -- with the turn applied; or with the turn applied and one prepared turn more of the next
  -- ordinal, for a decision to continue with a turn and time left.
  pub apply_decision-TurnsAfter :
      (db db' : Db)
      → apply_decision s cycle turn now db ≡ ok db'
      → TurnsAfter turn.decision db.turns db'.turns
  unfolding apply_decision
  apply_decision-TurnsAfter db db' h = stage turn.status turn.decision refl h
    where
      stage :
          (st : TurnStatus) (d : Option CognitionDecision)
          → turn.status ≡ st
          → apply_stage s cycle turn st d now db ≡ ok db'
          → TurnsAfter d db.turns db'.turns
      stage TurnStatus.applied d e h = unfold apply_stage in repeated e (cc)
      stage TurnStatus.decided (some x) e h = unfold apply_stage in recorded x db db' h
      stage TurnStatus.decided none e h = unfold apply_stage in absurd (cc)
      stage TurnStatus.prepared d e h = unfold apply_stage in absurd (cc)
      stage TurnStatus.invoking d e h = unfold apply_stage in absurd (cc)
      stage TurnStatus.rejected d e h = unfold apply_stage in absurd (cc)
      stage TurnStatus.failed d e h = unfold apply_stage in absurd (cc)

  -- Every turn of the cycle has an ordinal within the cycle's limit.
  abbrev pub WithinTurns : List CognitionTurn → Type 0
  WithinTurns = All (λ t. t.cycle_id ≡ cycle.cycle_id → t.ordinal ≤ cycle.max_turns)

  within-update :
      (p : CognitionTurn → Bool) (f : CognitionTurn → CognitionTurn)
      → ((t : CognitionTurn) → ((f t).cycle_id ≡ t.cycle_id) × ((f t).ordinal ≡ t.ordinal))
      → (ts : List CognitionTurn) → WithinTurns ts
      → WithinTurns (update p f ts)
  within-update p f keep [] h = tt
  within-update p f keep (t ∷ ts) h = (
    elim (Bool-cases (p t)) [
      | inl e ↦ rw e (λ same. rw ((keep t).1) (h.0 (sym (keep t).0 ∙ same)))
      | inr e ↦ rw e h.0
    ],
    within-update p f keep ts h.1,
  )

  within-append :
      (ts : List CognitionTurn) (t : CognitionTurn)
      → WithinTurns ts
      → t.ordinal ≤ cycle.max_turns
      → WithinTurns (ts ++ t ∷ [])
  within-append [] t h e = (λ _. e, tt)
  within-append (x ∷ xs) t h e = (h.0, within-append xs t h.1 e)

  abbrev here : CognitionTurn → Bool
  here r = r.turn_id == turn.turn_id

  after-WithinTurns :
      (d : Option CognitionDecision) (before after : List CognitionTurn)
      → WithinTurns before
      → TurnsAfter d before after
      → WithinTurns after
  after-WithinTurns d before after h (repeated e same) = rw same h
  after-WithinTurns d before after h (rejected errors e same) = rw same (
      within-update here
        (λ r. record r {
          status = TurnStatus.rejected;
          completed_at = some now;
          validation_errors = errors;
        })
        (λ t. (refl, refl)) before h)
  after-WithinTurns d before after h (finished same) = rw same (
      within-update here (λ r. record r { status = TurnStatus.applied; completed_at = some now })
        (λ t. (refl, refl)) before h)
  after-WithinTurns d before after h (continued x id e c below time same) = rw same (
      within-append _ (next_turn id)
        (within-update here (λ r. record r { status = TurnStatus.applied; completed_at = some now })
          (λ t. (refl, refl)) before h)
        (omega (arith, below)))

  -- For collaborators that keep to their tables: if every turn of the cycle has an ordinal
  -- within its limit of turns, the same holds after an apply_decision that succeeds.
  pub apply_decision-WithinTurns :
      (db db' : Db)
      → WithinTurns db.turns
      → apply_decision s cycle turn now db ≡ ok db'
      → WithinTurns db'.turns
  apply_decision-WithinTurns db db' h e =
      after-WithinTurns turn.decision db.turns db'.turns h (apply_decision-TurnsAfter db db' e)
