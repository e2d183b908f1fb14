-- ===== src/Cycle/Decided.antt =====
-- A decision's identity is recorded once: record_result of src/cognition/stores/cognition.py.
use cognition.Prelude.{
  ℕ, ◌≤◌, ◌≡◌, refl, Bool, true, false, some, List, [], ◌∷◌, arith, ◌==◌, ==_iff, any, count,
  update, count-update, Bool-cases, inl, inr,
}
use cognition.Protocol.Decision.{CognitionDecision}
use cognition.Protocol.Model.{ModelRequest, ModelResult}
use cognition.Store.Result.{ok}
use cognition.Store.Rows.{CognitionTurn, TurnStatus}
use cognition.Store.Db.{Db}
use cognition.Cycle.Collaborators.{Collaborators, Keeps}
use cognition.Cycle.Stages.{record_execution_event}
use cognition.Cycle.Finish.{finish_cycle-SameStages}
use cognition.Cycle.Invoke.{CycleRecord, TurnRecord}
use cognition.Cycle.Result.{decides, record_result}
use cognition.Cycle.Outcome.{Outcome, mismatched, retried, ended, decided, record_result-Outcome}

module _ {ℓ} {A : Type ℓ} where
  -- Rewritten rows that fail a test are not counted.
  count-update-le :
      (q p : A → Bool) (f : A → A)
      → ((x : A) → q (f x) ≡ false)
      → (xs : List A) → count q (update p f xs) ≤ count q xs
  count-update-le q p f miss [] = omega arith
  count-update-le q p f miss (x ∷ xs) = ground (arith, miss x, count-update-le q p f miss xs)

  -- In a table where no row passes, only the rewritten ones can.
  count-update-fresh :
      (q p : A → Bool) (f : A → A)
      → (xs : List A) → any q xs ≡ false
      → count q (update p f xs) ≤ count p xs
  count-update-fresh q p f [] e = omega arith
  count-update-fresh q p f (x ∷ xs) e = ground (arith, count-update-fresh q p f xs)

abbrev pub UniqueDecisions : Db → Type 0
UniqueDecisions db = (d : ℕ) → count (decides d) db.turns ≤ 1

abbrev decide : CognitionDecision → ℕ → CognitionTurn → CognitionTurn
decide d hash t = record t {
  decision = some d;
  decision_hash = some hash;
  status = TurnStatus.decided;
}

decided-count :
    (d : CognitionDecision) (hash t : ℕ) (turns : List CognitionTurn)
    → ((e : ℕ) → count (decides e) turns ≤ 1)
    → count (λ x. x.turn_id == t) turns ≤ 1
    → any (decides d.decision_id) turns ≡ false
    → (e : ℕ) → count (decides e) (update (λ x. x.turn_id == t) (decide d hash) turns) ≤ 1
decided-count d hash t turns unique keyed fresh e = elim (Bool-cases (d.decision_id == e)) [
  | inl same ↦
      let is : d.decision_id ≡ e = (==_iff d.decision_id e).0 same in
      omega (
        arith,
        keyed,
        count-update-fresh (decides e) (λ (x : CognitionTurn). x.turn_id == t) (decide d hash) turns
            (rw is at fresh),
      )
  | inr other ↦ omega (
    arith,
    unique e,
    count-update-le (decides e) (λ (x : CognitionTurn). x.turn_id == t) (decide d hash) (λ x. other)
        turns,
  )
]

-- For collaborators that keep to their tables: if every decision identity is held by at most one
-- turn and the given turn's identity by at most one row, then after a record_result that
-- succeeds every decision identity is again held by at most one turn.
pub record_result-UniqueDecisions :
    (s : Collaborators)
    → Keeps s
    → (cycle : CycleRecord) (turn : TurnRecord) (v : ℕ) (q : ModelRequest) (r : ModelResult)
      (now : ℕ) (db db' : Db)
    → UniqueDecisions db
    → count (λ x. x.turn_id == turn.turn_id) db.turns ≤ 1
    → record_result s cycle turn v q r now db ≡ ok db'
    → UniqueDecisions db'
record_result-UniqueDecisions s k cycle turn v q r now db db' unique keyed h =
    go (record_result-Outcome s cycle turn v q r now db db' h)
  where
    go : Outcome s cycle turn v q r now db db' → UniqueDecisions db'
    go (mismatched code e) d = rw e (unique d)
    go (retried code e) d = rw e (unique d)
    go (ended code reason e) d =
        let kept = (finish_cycle-SameStages s k cycle.cycle_id now reason true _ db' e).turns in
        let same =
          count-update (decides d) (λ (x : CognitionTurn). x.turn_id == turn.turn_id)
            (λ x. record x { status = TurnStatus.failed; completed_at = some now }) (λ x _. refl)
            db.turns in
        rw (kept, same) (unique d)
    go (decided d fresh e) i =
        unfold record_execution_event in
        rw e (decided-count d (s.content_hash d) turn.turn_id db.turns unique keyed fresh i)
