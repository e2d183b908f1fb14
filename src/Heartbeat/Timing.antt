-- ===== src/Heartbeat/Timing.antt =====
-- What the heartbeat policy keeps to (src/cognition/domain/heartbeat.py): intervals within its
-- range, moments that are representable, and schedules no later than the interval asks.
use cognition.Prelude.{
  ℕ, ◌+◌, ◌*◌, ◌≤◌, ◌<◌, ◌≡◌, sym, ap, Bool, true, false, not, ◌&&◌, ◌||◌, Option, none, some,
  arith, min, max, Bool-cases, inl, inr,
}
use cognition.Store.Result.{ok, Error, raise_if, >>=-elim}
use cognition.Store.Db.{max_moment}
use cognition.Heartbeat.{
  Floats, HeartbeatPolicy, HeartbeatSchedule, larger, smaller, effective_minimum_seconds,
  effective_maximum_seconds, clamp, next_interval, backed_off, add_seconds, shorten, schedule,
}

-- The documented behaviour of floats that are finite: `<=` is a total order, the rest of a second
-- rounds to at most a million microseconds, a longer duration has no fewer microseconds, and a
-- product by a factor of at least 1.0 is no smaller.
pub record Ordered (f : Floats) : Type 0 where
  pub reflexive : (a : f.Float) → f.le a a ≡ true
  pub transitive : (a b c : f.Float) → f.le a b ≡ true → f.le b c ≡ true → f.le a c ≡ true
  pub total : (a b : f.Float) → f.le a b ≡ false → f.le b a ≡ true
  pub rest : (a : f.Float) → f.rest_microseconds a ≤ 1000000
  pub monotone :
      (a b : f.Float)
      → f.le a b ≡ true
      → f.whole_seconds a * 1000000 + f.rest_microseconds a
        ≤ f.whole_seconds b * 1000000 + f.rest_microseconds b
  pub growing :
      (a b : f.Float) → f.le f.one a ≡ true → f.le f.one b ≡ true → f.le a (f.times a b) ≡ true

-- For floats that are ordered and a representable anchor: add_seconds is the exact sum of the
-- anchor and the microseconds, or the last representable moment where that is earlier.
pub add_seconds-min :
    (f : Floats) (anchor : ℕ) (seconds : f.Float)
    → Ordered f
    → anchor ≤ max_moment
    → add_seconds f anchor seconds
      ≡ min max_moment (anchor + (f.whole_seconds seconds * 1000000 + f.rest_microseconds seconds))
unfolding add_seconds
add_seconds-min f anchor seconds k le = ground (arith, k.rest seconds)

module _ (f : Floats) (k : Ordered f) (p : HeartbeatPolicy f) where
  abbrev low : f.Float
  low = effective_minimum_seconds f p

  abbrev high : f.Float
  high = effective_maximum_seconds f p

  low-high : f.le low high ≡ true
  low-high = elim (Bool-cases (f.le p.maximum_seconds low)) [
    | inl e ↦ rw e (k.reflexive low)
    | inr e ↦ rw e (k.total p.maximum_seconds low e)
  ]

  one-low : f.le f.one low ≡ true
  one-low = elim (Bool-cases (f.le p.minimum_seconds f.one)) [
    | inl e ↦ rw e (k.reflexive f.one)
    | inr e ↦ rw e (k.total p.minimum_seconds f.one e)
  ]

  abbrev InRange : f.Float → Type 0
  InRange a = (f.le low a ≡ true) × (f.le a high ≡ true)

  raised : (x : f.Float) → f.le low (larger f low x) ≡ true
  raised x = elim (Bool-cases (f.le x low)) [
    | inl e ↦ rw e (k.reflexive low)
    | inr e ↦ rw e (k.total x low e)
  ]

  lowered : (y : f.Float) → f.le low y ≡ true → InRange (smaller f high y)
  lowered y h = elim (Bool-cases (f.le high y)) [
    | inl e ↦ rw e (low-high, k.reflexive high)
    | inr e ↦ rw e (h, k.total high y e)
  ]

  -- A clamped interval is between the policy's effective bounds.
  pub clamp-range :
      (x : f.Float) {r : f.Float}
      → clamp f p x ≡ ok r
      → (f.le (effective_minimum_seconds f p) r ≡ true)
        × (f.le r (effective_maximum_seconds f p) ≡ true)
  unfolding clamp
  clamp-range x {r} h =
      >>=-elim (raise_if (not (f.finite_positive x)) Error.value_error) _ h λ _ _ n.
        let same : smaller f high (larger f low x) ≡ r = cc n in
        rw (sym same) (lowered (larger f low x) (raised x))

  grown :
      (c : f.Float)
      → f.le f.one p.backoff_factor ≡ true
      → InRange c
      → InRange (backed_off f p c) × (f.le c (backed_off f p c) ≡ true)
  grown c factor h = elim (Bool-cases (f.le (f.divide high p.backoff_factor) c)) [
    | inl e ↦ rw e ((low-high, k.reflexive high), h.1)
    | inr e ↦
        let positive = k.transitive f.one low c one-low h.0 in
        let more = k.growing c p.backoff_factor positive factor in
        rw e (
          lowered (f.times c p.backoff_factor)
              (k.transitive low c (f.times c p.backoff_factor) h.0 more),
          elim (Bool-cases (f.le high (f.times c p.backoff_factor))) [
            | inl top ↦ rw top h.1
            | inr below ↦ rw below more
          ],
        )
  ]

  -- For floats that are ordered and a backoff factor of at least 1.0: where next_interval
  -- returns, the interval is valid, the result is between the effective bounds, and in an
  -- autonomous cycle without activity it is not below the clamped interval.
  pub next_interval-range :
      (x : f.Float) (autonomous activity : Bool) {n : f.Float}
      → f.le f.one p.backoff_factor ≡ true
      → next_interval f p x autonomous activity ≡ ok n
      → (c : f.Float) × (clamp f p x ≡ ok c)
        × (f.le (effective_minimum_seconds f p) n ≡ true)
        × (f.le n (effective_maximum_seconds f p) ≡ true)
        × ((autonomous && not activity) ≡ true → f.le c n ≡ true)
  unfolding next_interval
  next_interval-range x autonomous activity {n} factor h = >>=-elim (clamp f p x) _ h λ c e m.
      let range = clamp-range x {r = c} e in
      let step = grown c factor range in
      elim (Bool-cases (activity || not autonomous)) [
        | inl reset ↦
            let same : low ≡ n = cc (rw reset at m) in
            (
              c,
              e,
              rw (sym same) (k.reflexive low),
              rw (sym same) low-high,
              λ on. absurd (ground (arith, reset, on)),
            )
        | inr quiet ↦
            let same : backed_off f p c ≡ n = cc (rw quiet at m) in
            (c, e, rw (sym same) step.0.0, rw (sym same) step.0.1, λ _. rw (sym same) step.1)
      ]

  record Bounded (anchor due earliest : ℕ) (commitment : Option ℕ) (at : ℕ) : Type 0 where
    not_late : at ≤ due
    not_early : earliest ≤ at
    answers : (t : ℕ) → commitment ≡ some t → anchor < t → at ≤ max t earliest

  shorten-Bounded :
      (anchor due earliest : ℕ) (commitment : Option ℕ)
      → earliest ≤ due
      → Bounded anchor due earliest commitment (shorten f anchor due earliest commitment).due_at
  shorten-Bounded anchor due earliest none le = record {
    not_late = omega arith;
    not_early = le;
    answers = λ t e. absurd (cc e);
  }
  shorten-Bounded anchor due earliest (some t) le = record {
    not_late = ground arith;
    not_early = ground arith;
    answers = λ t' e after. ground (arith, e);
  }

  add_seconds-le :
      (anchor : ℕ) (a b : f.Float)
      → anchor ≤ max_moment
      → f.le a b ≡ true
      → add_seconds f anchor a ≤ add_seconds f anchor b
  add_seconds-le anchor a b le h =
      omega
        (arith, k.monotone a b h, add_seconds-min f anchor a k le, add_seconds-min f anchor b k le)

  -- For floats that are ordered and a representable anchor: where schedule returns, the interval
  -- is valid, the heartbeat is due no later than the clamped interval after the anchor, no
  -- earlier than the effective minimum after it, and no later than the last representable
  -- moment; and where a commitment is due after the anchor, no later than the commitment or the
  -- effective minimum, whichever is later.
  pub schedule-bounds :
      (anchor : ℕ) (x : f.Float) (commitment : Option ℕ) {s : HeartbeatSchedule}
      → anchor ≤ max_moment
      → schedule f p anchor x commitment ≡ ok s
      → (c : f.Float) × (clamp f p x ≡ ok c)
        × (s.due_at ≤ add_seconds f anchor c)
        × (add_seconds f anchor (effective_minimum_seconds f p) ≤ s.due_at)
        × (s.due_at ≤ max_moment)
        × ((t : ℕ)
            → commitment ≡ some t
            → anchor < t
            → s.due_at ≤ max t (add_seconds f anchor (effective_minimum_seconds f p)))
  unfolding schedule
  schedule-bounds anchor x commitment {s} le h = >>=-elim (clamp f p x) _ h λ c e n.
      let same : shorten f anchor (add_seconds f anchor c) (add_seconds f anchor low) commitment
          ≡ s =
        cc n in
      let least = add_seconds-le anchor low c le (clamp-range x {r = c} e).0 in
      let b =
        shorten-Bounded anchor (add_seconds f anchor c) (add_seconds f anchor low) commitment
          least in
      let at = ap (λ (t : HeartbeatSchedule). t.due_at) same in
      (
        c,
        e,
        omega (arith, at, b.not_late),
        omega (arith, at, b.not_early),
        omega (arith, at, b.not_late, add_seconds-min f anchor c k le),
        λ t given after. omega (arith, at, b.answers t given after),
      )
