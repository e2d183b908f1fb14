-- ===== src/Cycle/Collaborators.antt =====
-- What the cycle store calls of the other stores, as an interface: the inbound and exploration
-- scopes (src/cognition/stores/inbound_scope.py, exploration_scope.py), the outcome accounting of
-- heartbeat, reflection and exploration (stores/autonomy.py, reflection.py, exploration.py), the
-- personal state (stores/personal.py), and the digest of a decision's canonical JSON.
use cognition.Prelude.{ℕ, ◌≡◌, ◌∙◌, Bool, Option, String, List, select}
use cognition.Protocol.Ref.{Ref}
use cognition.Protocol.Decision.{CognitionDecision}
use cognition.Protocol.Model.{ModelRequest}
use cognition.Store.Result.{Result, ok, ◌>>=◌, >>=-elim}
use cognition.Store.Rows.{Wake, is_claimed}
use cognition.Store.Db.{Db}

-- The limits of an exploration grant that a cycle may not pass (ExplorationGrantRecord).
pub record Grant : Type 0 where
  pub wake_id : ℕ
  pub max_turns : ℕ
  pub max_attempts_per_turn : ℕ
  pub max_wakes : ℕ
  pub max_time : ℕ

-- ExplorationDiscovery
pub record Discovery : Type 0 where
  pub managed_wake_ids : List ℕ
  pub eligible : Option Grant

pub record Collaborators : Type 0 where
  pub content_hash : CognitionDecision → ℕ
  -- validations, which raise on corruption; the answers are `is not None`
  pub validate_inbound_claims : Db → ℕ → Result (Unit {0})
  pub get_cycle_inbound : Db → ℕ → Result Bool
  pub get_cycle_exploration : Db → ℕ → Result Bool
  pub validate_inbound_wake : Db → ℕ → ℕ → Result Bool
  pub is_inbound_wake : Db → ℕ → Bool
  pub discover_exploration : Db → ℕ → ℕ → Result Discovery
  pub exploration_start_denial : Db → ℕ → Result (Option String)
  pub load_request : Db → ℕ → Result (Option ModelRequest)
  pub personal_reference_exists : Db → ℕ → Ref → Bool
  pub validate_personal_operations : Db → ℕ → CognitionDecision → ℕ → Result (List String)
  -- writes
  pub seal_inbound_wake : ℕ → ℕ → ℕ → Db → Result Db
  pub record_cycle_outcome : ℕ → ℕ → Db → Result Db
  pub record_reflection_outcome : ℕ → ℕ → Db → Result Db
  pub record_exploration_outcome : ℕ → ℕ → Db → Result Db
  pub apply_personal_operations : ℕ → CognitionDecision → ℕ → Db → Result Db

-- The wakes that some cycle holds.
abbrev pub claimed_wakes : Db → List Wake
claimed_wakes db = select (λ w. is_claimed w.status) db.wakes

-- What a write outside the cycle store leaves alone: its tables, the held wakes, and the
-- individuals with their governance.
pub record Leaves (db db' : Db) : Type 0 where
  pub cognition : db'.cognition ≡ db.cognition
  pub claims : claimed_wakes db' ≡ claimed_wakes db
  pub individuals : db'.individuals ≡ db.individuals
  pub governance : db'.governance ≡ db.governance

pub Leaves-trans : {a b c : Db} → Leaves a b → Leaves b c → Leaves a c
Leaves-trans h k = record {
  cognition = k.cognition ∙ h.cognition;
  claims = k.claims ∙ h.claims;
  individuals = k.individuals ∙ h.individuals;
  governance = k.governance ∙ h.governance;
}

-- The accounting that follows a finished cycle, in the order of the calls.
unfoldable pub record_outcomes : Collaborators → ℕ → ℕ → Db → Result Db
record_outcomes s c now db = do
  heartbeat ← s.record_cycle_outcome c now db
  reflection ← s.record_reflection_outcome c now heartbeat
  s.record_exploration_outcome c now reflection

-- The writes of the collaborators keep to their own tables.
pub record Keeps (s : Collaborators) : Type 0 where
  pub cycle_outcome :
      (c now : ℕ) (db db' : Db) → s.record_cycle_outcome c now db ≡ ok db' → Leaves db db'
  pub reflection_outcome :
      (c now : ℕ) (db db' : Db) → s.record_reflection_outcome c now db ≡ ok db' → Leaves db db'
  pub exploration_outcome :
      (c now : ℕ) (db db' : Db) → s.record_exploration_outcome c now db ≡ ok db' → Leaves db db'
  pub sealed :
      (i w now : ℕ) (db db' : Db)
      → s.seal_inbound_wake i w now db ≡ ok db'
      → Leaves db db' × (db'.wakes ≡ db.wakes)
  -- the personal operations add to the applied operations, never to the turns or the cycles
  pub personal_applied :
      (i : ℕ) (d : CognitionDecision) (now : ℕ) (db db' : Db)
      → s.apply_personal_operations i d now db ≡ ok db'
      → (db'.turns ≡ db.turns) × (db'.cycles ≡ db.cycles)

pub outcomes_leave :
    (s : Collaborators)
    → Keeps s
    → (c now : ℕ) (db db' : Db) → record_outcomes s c now db ≡ ok db'
    → Leaves db db'
unfolding record_outcomes
outcomes_leave s k c now db db' h = >>=-elim (s.record_cycle_outcome c now db) _ h λ d1 h1 r1.
    >>=-elim (s.record_reflection_outcome c now d1) _ r1 λ d2 h2 r2.
      Leaves-trans (k.cycle_outcome c now db d1 h1)
        (Leaves-trans (k.reflection_outcome c now d1 d2 h2) (k.exploration_outcome c now d2 db' r2))
