-- ===== src/Heartbeat.antt =====
-- Heartbeat timing: src/cognition/domain/heartbeat.py. Intervals are floats, of which the model takes
-- the operations and the order that the policy uses; moments are microseconds.
pub mod Timing
use cognition.Prelude.{
  ℕ, ◌+◌, ◌-◌, ◌*◌, ◌/◌, ◌%◌, ◌≤◌, ◌≡◌, Bool, true, false, not, ◌&&◌, ◌||◌, Option, none, some,
  ◌==◌, leb, ltb, if◌then◌else◌,
}
use cognition.Store.Result.{Result, ok, err, Error, ◌>>=◌, ◌>>◌, raise_if}
use cognition.Store.Db.{max_moment}

-- The floats: `x <= y`, the constant 1.0, the product, the quotient, the value of a pattern, whether a value is finite and
-- positive, and `int(x)` with the rest rounded to microseconds.
pub record Floats : Type 1 where
  pub Float : Type 0
  pub le : Float → Float → Bool
  pub one : Float
  pub times : Float → Float → Float
  pub divide : Float → Float → Float
  pub of_bits : ℕ → Float
  pub finite_positive : Float → Bool
  pub whole_seconds : Float → ℕ
  pub rest_microseconds : Float → ℕ

-- `HeartbeatPolicy`
pub record HeartbeatPolicy (f : Floats) : Type 0 where
  pub minimum_seconds : f.Float
  pub maximum_seconds : f.Float
  pub backoff_factor : f.Float

pub record HeartbeatSchedule : Type 0 where
  pub due_at : ℕ
  pub commitment_shortened : Bool

module _ (f : Floats) where
  -- `max(a, b)` and `min(a, b)` keep the first where neither is larger.
  abbrev pub larger : f.Float → f.Float → f.Float
  larger a b = if f.le b a then a else b

  abbrev pub smaller : f.Float → f.Float → f.Float
  smaller a b = if f.le a b then a else b

  -- `__post_init__`
  unfoldable pub checked_policy : HeartbeatPolicy f → Result (HeartbeatPolicy f)
  checked_policy p = do
    raise_if
        (not (f.finite_positive p.minimum_seconds)
          || not (f.finite_positive p.maximum_seconds)
          || not (f.finite_positive p.backoff_factor))
        Error.value_error
    raise_if (not (f.le p.minimum_seconds p.maximum_seconds)) Error.value_error
    raise_if (not (f.le f.one p.backoff_factor)) Error.value_error
    ok p

  abbrev pub effective_minimum_seconds : HeartbeatPolicy f → f.Float
  effective_minimum_seconds p = larger f.one p.minimum_seconds

  abbrev pub effective_maximum_seconds : HeartbeatPolicy f → f.Float
  effective_maximum_seconds p = larger (effective_minimum_seconds p) p.maximum_seconds

  -- `_positive_finite`, then the clamping.
  unfoldable pub clamp : HeartbeatPolicy f → f.Float → Result f.Float
  clamp p interval = do
    raise_if (not (f.finite_positive interval)) Error.value_error
    ok (smaller (effective_maximum_seconds p) (larger (effective_minimum_seconds p) interval))

  -- `retained >= maximum / self.backoff_factor`
  abbrev backed_off : HeartbeatPolicy f → f.Float → f.Float
  backed_off p retained =
      let maximum = effective_maximum_seconds p in
      if f.le (f.divide maximum p.backoff_factor) retained
      then maximum
      else smaller maximum (f.times retained p.backoff_factor)

  unfoldable pub next_interval : HeartbeatPolicy f → f.Float → Bool → Bool → Result f.Float
  unfolding clamp
  next_interval p interval autonomous activity = do
    retained ← clamp p interval
    ok (if activity || not autonomous then effective_minimum_seconds p else backed_off p retained)

  -- `_add_seconds`: saturates at the last representable moment.
  unfoldable pub add_seconds : ℕ → f.Float → ℕ
  add_seconds anchor seconds =
      let available = max_moment - anchor in
      let available_seconds = available / 1000000 in
      if ltb available_seconds (f.whole_seconds seconds)
      then max_moment
      else if f.whole_seconds seconds == available_seconds
          && leb (available % 1000000) (f.rest_microseconds seconds)
      then max_moment
      else anchor + (f.whole_seconds seconds * 1000000 + f.rest_microseconds seconds)

  abbrev later : ℕ → ℕ → ℕ
  later a b = if leb b a then a else b

  -- The schedule from the anchor, the interval's end and the earliest moment.
  abbrev shorten : ℕ → ℕ → ℕ → Option ℕ → HeartbeatSchedule
  shorten anchor due earliest none = record { due_at = due; commitment_shortened = false }
  shorten anchor due earliest (some commitment) =
      if ltb anchor commitment && ltb (later earliest commitment) due
      then record { due_at = later earliest commitment; commitment_shortened = true }
      else record { due_at = due; commitment_shortened = false }

  unfoldable pub schedule : HeartbeatPolicy f → ℕ → f.Float → Option ℕ → Result HeartbeatSchedule
  unfolding clamp add_seconds
  schedule p anchor interval commitment = do
    clamped ← clamp p interval
    ok (
        shorten anchor (add_seconds anchor clamped)
          (add_seconds anchor (effective_minimum_seconds p)) commitment)
