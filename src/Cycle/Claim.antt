-- ===== src/Cycle/Claim.antt =====
-- Claiming due wakes for a new cycle, or resuming the active one
-- (src/cognition/stores/cognition.py: CycleLimits, claim_or_resume, _recover_orphan_wakes).
-- `locked` says which wakes another transaction holds (`SKIP LOCKED`). The times of the limits
-- are microseconds.
use cognition.Prelude.{
  ℕ, ◌+◌, Bool, not, ◌&&◌, ◌||◌, Option, none, some, List, [], ◌∷◌, ◌++◌, map, ◌==◌, leb, ltb, min,
  find, any, select, take, update, if◌then◌else◌,
}
use cognition.Protocol.Decision.{is_empty}
use cognition.Store.Result.{Result, ok, Error, ◌>>=◌, ◌>>◌, raise_if}
use cognition.Store.Rows.{
  Wake, WakeStatus, is_pending, is_claimed, CognitionCycle, CycleStatus, is_active, CycleWake,
  cycle_started, orphan_recovered,
}
use cognition.Store.Db.{Db, new_id, add_delay}
use cognition.Wakes.{WakeV1, create_or_merge_pending_wake}
use cognition.Cycle.Collaborators.{Collaborators, Grant, Discovery}
use cognition.Cycle.Stages.{record_execution_event, new_turn}
use cognition.Cycle.Invoke.{CycleRecord, cycle_record}

pub record CycleLimits : Type 0 where
  pub max_turns : ℕ
  pub max_attempts_per_turn : ℕ
  pub max_wakes : ℕ
  pub max_time : ℕ
  pub min_wake_delay : ℕ

-- `__post_init__`
unfoldable pub valid_limits : CycleLimits → Bool
valid_limits l =
    leb 1 l.max_turns && leb 1 l.max_attempts_per_turn && leb 1 l.max_wakes && ltb 0 l.max_time

-- `ORDER BY due_at, wake_id`
abbrev pub sooner : Wake → Wake → Bool
sooner a b = ltb a.due_at b.due_at || (a.due_at == b.due_at && leb a.wake_id b.wake_id)

unfoldable pub insert_by_due : Wake → List Wake → List Wake
insert_by_due w [] = w ∷ []
insert_by_due w (x ∷ xs) = if sooner w x then w ∷ x ∷ xs else x ∷ insert_by_due w xs

unfoldable pub order_by_due : List Wake → List Wake
unfolding insert_by_due
order_by_due [] = []
order_by_due (w ∷ ws) = insert_by_due w (order_by_due ws)

abbrev pub head_wake : List Wake → Option Wake
head_wake [] = none
head_wake (w ∷ ws) = some w

abbrev pub is_owned : Db → ℕ → Bool
is_owned db w = any (λ l. l.wake_id == w) db.cycle_wakes

abbrev pub is_orphan : Db → ℕ → Wake → Bool
is_orphan db i w = w.individual_id == i && is_claimed w.status && not (is_owned db w.wake_id)

abbrev pub superseded : Wake → Wake
superseded w = record w { status = WakeStatus.superseded; revision = w.revision + 1 }

abbrev pub replacement : ℕ → Wake → WakeV1
replacement id w = record {
  wake_id = id;
  individual_id = w.individual_id;
  kind = w.kind;
  due_at = w.due_at;
  purpose = w.purpose;
  cause_event_id = w.cause_event_id;
  context_refs = w.context_refs ++ (record { kind = "wake"; id = w.wake_id }) ∷ [];
  coalesce_key = w.coalesce_key;
}

-- The loop over the orphans that were read.
unfoldable pub recover_each : ℕ → ℕ → List Wake → Db → Result Db
recover_each i now [] db = ok db
recover_each i now (w ∷ rest) db = do
  let dropped = record db { wakes = update (λ r. r.wake_id == w.wake_id) superseded db.wakes }
  let (id, drawn) = new_id dropped
  (recovered, merged) ← create_or_merge_pending_wake (replacement id w) drawn
  recover_each i now rest (
      record_execution_event i none "cognition.orphan_wake_recovered" "runtime" now
        (orphan_recovered w.wake_id recovered) merged)

unfoldable pub recover_orphan_wakes : ℕ → ℕ → ℕ → Db → Result Db
unfolding order_by_due recover_each
recover_orphan_wakes i now limit db =
    recover_each i now (take limit (order_by_due (select (is_orphan db i) db.wakes))) db

abbrev pub active_cycle_of : ℕ → CognitionCycle → Bool
active_cycle_of i r = r.individual_id == i && is_active r.status

abbrev pub is_managed : Discovery → ℕ → Bool
is_managed d w = any (λ m. m == w) d.managed_wake_ids

-- A due ordinary wake: pending, not of an exploration grant.
abbrev pub is_due : Discovery → ℕ → ℕ → Wake → Bool
is_due d i now w =
    w.individual_id == i && is_pending w.status && leb w.due_at now && not (is_managed d w.wake_id)

unfoldable pub due_wakes : Discovery → ℕ → ℕ → Db → List Wake
unfolding order_by_due
due_wakes d i now db = order_by_due (select (is_due d i now) db.wakes)

abbrev pub claimed : ℕ → Wake → Wake
claimed now w = record w {
  status = WakeStatus.claimed;
  claimed_at = some now;
  revision = w.revision + 1;
}

abbrev pub is_among : List Wake → Wake → Bool
is_among ws w = any (λ x. x.wake_id == w.wake_id) ws

abbrev pub wake_ids : List Wake → List ℕ
wake_ids = map (λ w. w.wake_id)

abbrev link : ℕ → Wake → CycleWake
link c w = record { cycle_id = c; wake_id = w.wake_id }

abbrev pub opened_cycle : ℕ → ℕ → ℕ → CycleLimits → ℕ → CognitionCycle
opened_cycle id i now limits deadline = record {
  cycle_id = id;
  individual_id = i;
  status = CycleStatus.active;
  started_at = now;
  completed_at = none;
  terminal_reason = none;
  max_turns = limits.max_turns;
  max_attempts_per_turn = limits.max_attempts_per_turn;
  max_wakes = limits.max_wakes;
  deadline_at = deadline;
  min_wake_delay = limits.min_wake_delay;
  revision = 1;
}

-- The rows of a new cycle with its claimed wakes; a wake belongs to one cycle only.
unfoldable pub open_cycle : ℕ → ℕ → CycleLimits → List Wake → Db → Result (CycleRecord × Db)
open_cycle i now limits ws db = do
  deadline ← add_delay now limits.max_time
  raise_if (any (λ w. is_owned db w.wake_id) ws) Error.integrity_error
  let (id, drawn) = new_id db
  let row = opened_cycle id i now limits deadline
  let claims = record drawn {
    wakes = update (is_among ws) (claimed now) drawn.wakes;
    cognition = record drawn.cognition {
      cycles = drawn.cycles ++ row ∷ [];
      cycle_wakes = drawn.cycle_wakes ++ map (link id) ws;
    };
  }
  ok (
    cycle_record row,
    record_execution_event i (some id) "cognition.cycle_started" "runtime" now
        (cycle_started (wake_ids ws)) (new_turn id 1 now claims),
  )

-- Whether there is a cycle to open, with its wakes; the database may have a seal more.
pub data Choice : Type 0 where
  idle : Choice
  claim : CycleLimits → List Wake → Db → Choice

abbrev pub limited : CycleLimits → Grant → CycleLimits
limited l g = record l {
  max_turns = min l.max_turns g.max_turns;
  max_attempts_per_turn = min l.max_attempts_per_turn g.max_attempts_per_turn;
  max_wakes = min l.max_wakes g.max_wakes;
  max_time = min l.max_time g.max_time;
}

abbrev pub is_granted : (ℕ → Bool) → Grant → Wake → Bool
is_granted locked g w = w.wake_id == g.wake_id && is_pending w.status && not (locked w.wake_id)

-- The managed wake of an eligible grant, when no ordinary wake is due.
unfoldable pub choose_exploration :
    (ℕ → Bool) → Discovery → Option Grant → ℕ → ℕ → CycleLimits → Db → Choice
unfolding due_wakes
choose_exploration locked d none i now limits db = idle
choose_exploration locked d (some g) i now limits db =
    if is_empty (due_wakes d i now db)
    then claim (limited limits g) (select (is_granted locked g) db.wakes) db
    else idle

-- An inbound wake is claimed alone, and sealed first.
unfoldable pub choose_inbound : Collaborators → Wake → ℕ → ℕ → CycleLimits → Db → Result Choice
choose_inbound s first i now limits db = do
  sealed ← s.seal_inbound_wake i first.wake_id now db
  ok (claim limits (first ∷ []) sealed)

-- The due wakes that are neither locked nor inbound, up to the limit.
abbrev pub claimable : Collaborators → (ℕ → Bool) → Db → Wake → Bool
claimable s locked db w = not (locked w.wake_id) && not (s.is_inbound_wake db w.wake_id)

unfoldable pub choose_batch :
    Collaborators → (ℕ → Bool) → Discovery → ℕ → ℕ → CycleLimits → Db → Choice
unfolding due_wakes choose_exploration
choose_batch s locked d i now limits db =
    let ws = take limits.max_wakes (select (claimable s locked db) (due_wakes d i now db)) in
    if is_empty ws
    then choose_exploration locked d d.eligible i now limits db
    else claim limits ws db

-- What the first due wake leads to.
unfoldable pub choose_ordinary :
    Collaborators → (ℕ → Bool) → Discovery → Wake → ℕ → ℕ → CycleLimits → Db → Result Choice
unfolding choose_inbound choose_batch
choose_ordinary s locked d first i now limits db = if locked first.wake_id then ok idle else (do
  inbound ← s.validate_inbound_wake db i first.wake_id
  if inbound
      then choose_inbound s first i now limits db
      else ok (choose_batch s locked d i now limits db))

unfoldable pub choose_wakes :
    Collaborators → (ℕ → Bool) → Discovery → ℕ → ℕ → CycleLimits → Db → Result Choice
unfolding due_wakes choose_exploration choose_ordinary
choose_wakes s locked d i now limits db = elim (head_wake (due_wakes d i now db)) [
  | none ↦ ok (choose_exploration locked d d.eligible i now limits db)
  | some first ↦ choose_ordinary s locked d first i now limits db
]

unfoldable pub start_choice : Choice → ℕ → ℕ → Db → Result (Option CycleRecord × Db)
unfolding open_cycle
start_choice idle i now db = ok (none, db)
start_choice (claim limits [] sealed) i now db = ok (none, sealed)
start_choice (claim limits (w ∷ ws) sealed) i now db = do
  (cycle, opened) ← open_cycle i now limits (w ∷ ws) sealed
  ok (some cycle, opened)

unfoldable pub claim_or_resume :
    Collaborators → (ℕ → Bool) → ℕ → ℕ → CycleLimits → Db → Result (Option CycleRecord × Db)
unfolding recover_orphan_wakes choose_wakes start_choice
claim_or_resume s locked i now limits db = do
  s.validate_inbound_claims db i
  recovered ← recover_orphan_wakes i now limits.max_wakes db
  elim (find (active_cycle_of i) recovered.cycles) [
    | some row ↦ do
      s.get_cycle_exploration recovered row.cycle_id
      s.get_cycle_inbound recovered row.cycle_id
      ok (some (cycle_record row), recovered)
    | none ↦ do
      found ← s.discover_exploration recovered i now
      choice ← choose_wakes s locked found i now limits recovered
      start_choice choice i now recovered
  ]
