-- ===== src/Cycle/Chosen.antt =====
-- Which wakes a new cycle claims: choose_wakes, the middle of claim_or_resume of
-- src/cognition/stores/cognition.py.
use cognition.Prelude.{
  ℕ, ◌≤◌, ◌≡◌, refl, arith, Bool, true, false, ◌⊎◌, ◌==◌, any, min, Option, none, some, List, [],
  ◌∷◌, take, select, length, All, All-imp, All-select, All-select_of, All-take, length-take-le,
  Bool-cases, Option-cases, inl, inr,
}
use cognition.Protocol.Decision.{is_empty}
use cognition.Store.Result.{ok, >>=-elim}
use cognition.Store.Rows.{Wake, WakeStatus, is_pending}
use cognition.Store.Db.{Db}
use cognition.Cycle.Collaborators.{Collaborators, Discovery, Grant}
use cognition.Cycle.Due.{All-order_by_due, order_by_due-nil, order_by_due-head}
use cognition.Cycle.Claim.{
  CycleLimits, claim, is_due, due_wakes, head_wake, is_granted, claimable, choose_exploration,
  choose_inbound, choose_batch, choose_ordinary, choose_wakes,
}

module _ (s : Collaborators) (locked : ℕ → Bool) (d : Discovery) (i now : ℕ) (limits : CycleLimits)
    (db : Db) where
  -- A due ordinary wake: one of the individual's, pending, with its moment reached, and not managed
  -- by an exploration grant.
  pub record IsDue (w : Wake) : Type 0 where
    pub mine : w.individual_id ≡ i
    pub pending : w.status ≡ WakeStatus.pending
    pub reached : w.due_at ≤ now
    pub unmanaged : any (λ m. m == w.wake_id) d.managed_wake_ids ≡ false

  -- A due wake of the table that no due wake precedes, and that no transaction has locked.
  pub record IsNext (first : Wake) : Type 0 where
    pub due : IsDue first
    pub free : locked first.wake_id ≡ false
    pub earliest : All (λ w. (¬ IsDue w) ⊎ (first.due_at ≤ w.due_at)) db.wakes

  -- A due wake that an ordinary claim may take.
  pub record IsFree (w : Wake) : Type 0 where
    pub due : IsDue w
    pub free : locked w.wake_id ≡ false
    pub not_inbound : s.is_inbound_wake db w.wake_id ≡ false

  -- The wake of an exploration grant, pending and unlocked.
  pub record IsGranted (g : Grant) (w : Wake) : Type 0 where
    pub named : w.wake_id ≡ g.wake_id
    pub pending : w.status ≡ WakeStatus.pending
    pub free : locked w.wake_id ≡ false

  -- The limits of a claim under a grant: of each, the smaller one.
  abbrev both_limits : Grant → CycleLimits
  both_limits g = record {
    max_turns = min limits.max_turns g.max_turns;
    max_attempts_per_turn = min limits.max_attempts_per_turn g.max_attempts_per_turn;
    max_wakes = min limits.max_wakes g.max_wakes;
    max_time = min limits.max_time g.max_time;
    min_wake_delay = limits.min_wake_delay;
  }

  pending_lem : (x : WakeStatus) → is_pending x ≡ true → x ≡ WakeStatus.pending
  pending_lem WakeStatus.pending h = refl
  pending_lem x h = absurd (cc)

  is_due-IsDue : (w : Wake) → is_due d i now w ≡ true → IsDue w
  is_due-IsDue w h = record {
    mine = ground arith;
    pending = pending_lem w.status (ground arith);
    reached = ground arith;
    unmanaged = ground arith;
  }

  IsDue-is_due : (w : Wake) → IsDue w → is_due d i now w ≡ true
  IsDue-is_due w h = ground (arith, h.mine, h.pending, h.reached, h.unmanaged)

  not-IsDue : (ws : List Wake) → select (is_due d i now) ws ≡ [] → All (λ w. ¬ IsDue w) ws
  not-IsDue [] h = tt
  not-IsDue (w ∷ ws) h = elim (Bool-cases (is_due d i now w)) [
    | inl due ↦ absurd (cc (rw due at h))
    | inr idle ↦ (λ e. absurd (cc (idle, IsDue-is_due w e)), not-IsDue ws (rw idle at h))
  ]

  earliest_of :
      (n : ℕ) (ws : List Wake)
      → All (λ w. n ≤ w.due_at) (select (is_due d i now) ws)
      → All (λ w. (¬ IsDue w) ⊎ (n ≤ w.due_at)) ws
  earliest_of n [] h = tt
  earliest_of n (w ∷ ws) h = elim (Bool-cases (is_due d i now w)) [
    | inl due ↦ let least = rw due at h in (inr least.0, earliest_of n ws least.1)
    | inr idle ↦ (inl (λ e. absurd (cc (idle, IsDue-is_due w e))), earliest_of n ws (rw idle at h))
  ]

  due_wakes-IsDue : All IsDue (due_wakes d i now db)
  unfolding due_wakes
  due_wakes-IsDue = All-order_by_due IsDue (select (is_due d i now) db.wakes) (
      All-imp (λ w. is_due d i now w ≡ true) IsDue is_due-IsDue (select (is_due d i now) db.wakes)
        (All-select (is_due d i now) db.wakes))

  first-IsDue :
      (ws : List Wake) {first : Wake} → All IsDue ws → head_wake ws ≡ some first → IsDue first
  first-IsDue [] h e = absurd (cc)
  first-IsDue (w ∷ ws) {first} h e = let same : w ≡ first = cc in rw same at (h.0)

  head_wake-IsNext :
      {first : Wake}
      → head_wake (due_wakes d i now db) ≡ some first
      → locked first.wake_id ≡ false
      → IsNext first
  unfolding due_wakes
  head_wake-IsNext {first} e unlocked = record {
    due = first-IsDue (due_wakes d i now db) {first = first} due_wakes-IsDue e;
    free = unlocked;
    earliest =
        earliest_of first.due_at db.wakes
          (order_by_due-head (select (is_due d i now) db.wakes) {first = first} e);
  }

  -- Three ways to claim. Ordinary wakes are due, unlocked, not inbound, and within the limit of
  -- wakes, and the earliest due wake is unlocked. An inbound wake is claimed alone, as the earliest
  -- due wake, after its seal. An exploration grant is claimed under the smaller limits, and only
  -- where no ordinary wake is due.
  pub data Chosen (l : CycleLimits) (ws : List Wake) (sealed : Db) : Type 0 where
    ordinary :
        l ≡ limits
        → sealed ≡ db
        → (first : Wake) → IsNext first
        → All IsFree ws
        → length ws ≤ limits.max_wakes
        → Chosen l ws sealed
    inbound :
        (first : Wake)
        → ws ≡ first ∷ []
        → l ≡ limits
        → IsNext first
        → s.validate_inbound_wake db i first.wake_id ≡ ok true
        → s.seal_inbound_wake i first.wake_id now db ≡ ok sealed
        → Chosen l ws sealed
    exploring :
        (g : Grant)
        → d.eligible ≡ some g
        → l ≡ both_limits g
        → sealed ≡ db
        → All (λ w. ¬ IsDue w) db.wakes
        → All (IsGranted g) ws
        → Chosen l ws sealed

  is_empty-nil : (ws : List Wake) → is_empty ws ≡ true → ws ≡ []
  is_empty-nil [] h = refl
  is_empty-nil (w ∷ ws) h = cc

  nothing-IsDue : is_empty (due_wakes d i now db) ≡ true → All (λ w. ¬ IsDue w) db.wakes
  unfolding due_wakes
  nothing-IsDue h =
      not-IsDue db.wakes (order_by_due-nil (select (is_due d i now) db.wakes) (is_empty-nil _ h))

  is_granted-IsGranted : (g : Grant) (w : Wake) → is_granted locked g w ≡ true → IsGranted g w
  is_granted-IsGranted g w h = record {
    named = ground arith;
    pending = pending_lem w.status (ground arith);
    free = ground arith;
  }

  explored :
      (g : Option Grant) (l : CycleLimits) (ws : List Wake) (sealed : Db)
      → d.eligible ≡ g
      → choose_exploration locked d g i now limits db ≡ claim l ws sealed
      → Chosen l ws sealed
  unfolding choose_exploration
  explored none l ws sealed e h = absurd (cc)
  explored (some g) l ws sealed e h = elim (Bool-cases (is_empty (due_wakes d i now db))) [
    | inr busy ↦ absurd (cc (busy, h))
    | inl free ↦
        let same : claim (both_limits g) (select (is_granted locked g) db.wakes) db
            ≡ claim l ws sealed =
          rw free at h in
        let rows : select (is_granted locked g) db.wakes ≡ ws = cc in
        exploring g e (cc) (cc) (nothing-IsDue free) (
          All-imp (λ w. is_granted locked g w ≡ true) (IsGranted g) (is_granted-IsGranted g) ws
            (rw rows at (All-select (is_granted locked g) db.wakes)))
  ]

  abbrev batch : List Wake
  batch = take limits.max_wakes (select (claimable s locked db) (due_wakes d i now db))

  claimable-IsFree : (w : Wake) → IsDue w × (claimable s locked db w ≡ true) → IsFree w
  claimable-IsFree w h = record { due = h.0; free = ground arith; not_inbound = ground arith }

  batched :
      (first : Wake)
      → IsNext first
      → (l : CycleLimits) (ws : List Wake) (sealed : Db)
      → choose_batch s locked d i now limits db ≡ claim l ws sealed
      → Chosen l ws sealed
  unfolding choose_batch
  batched first next l ws sealed h = elim (Bool-cases (is_empty batch)) [
    | inl nobody ↦ explored d.eligible l ws sealed refl (rw nobody at h)
    | inr some_due ↦
        let same : claim limits batch db ≡ claim l ws sealed = rw some_due at h in
        let rows : batch ≡ ws = cc in
        ordinary (cc) (cc) first next
          (All-imp (λ w. IsDue w × (claimable s locked db w ≡ true)) IsFree claimable-IsFree ws
            (rw rows at (
              All-take _ limits.max_wakes _
                (All-select_of IsDue (claimable s locked db) _ due_wakes-IsDue))))
          (rw rows at (
            length-take-le limits.max_wakes
              (select (claimable s locked db) (due_wakes d i now db))))
  ]

  sealed_alone :
      (first : Wake) (l : CycleLimits) (ws : List Wake) (sealed : Db)
      → IsNext first
      → s.validate_inbound_wake db i first.wake_id ≡ ok true
      → choose_inbound s first i now limits db ≡ ok (claim l ws sealed)
      → Chosen l ws sealed
  unfolding choose_inbound
  sealed_alone first l ws sealed next known h =
      >>=-elim (s.seal_inbound_wake i first.wake_id now db) _ h λ after h1 h2.
        let same : claim limits (first ∷ []) after ≡ claim l ws sealed = cc in
        let done : after ≡ sealed = cc in inbound first (cc) (cc) next known (rw done at h1)

  ordinarily :
      (first : Wake) (l : CycleLimits) (ws : List Wake) (sealed : Db)
      → head_wake (due_wakes d i now db) ≡ some first
      → choose_ordinary s locked d first i now limits db ≡ ok (claim l ws sealed)
      → Chosen l ws sealed
  unfolding choose_ordinary
  ordinarily first l ws sealed e h = elim (Bool-cases (locked first.wake_id)) [
    | inl held ↦ absurd (cc (held, h))
    | inr free ↦
        >>=-elim (s.validate_inbound_wake db i first.wake_id) _ (rw free at h) λ is_inbound h1 h2.
          elim (Bool-cases is_inbound) [
            | inl yes_inbound ↦
                sealed_alone first l ws sealed (head_wake-IsNext {first = first} e free)
                  (rw yes_inbound at h1) (rw yes_inbound at h2)
            | inr ordinary_wake ↦
                let picked : ok (choose_batch s locked d i now limits db) ≡ ok (claim l ws sealed) =
                  rw ordinary_wake at h2 in
                batched first (head_wake-IsNext {first = first} e free) l ws sealed (cc)
          ]
  ]

  -- Where choose_wakes succeeds with a claim, the claim is of due wakes of the individual that
  -- are pending, unmanaged, unlocked and not inbound, no more than the limit, while the earliest
  -- due wake is unlocked; or of the earliest due wake alone, unlocked and sealed as inbound; or
  -- of the unlocked pending wake of the eligible exploration grant, under the smaller of all
  -- limits, where no wake of the table is due.
  pub choose_wakes-Chosen :
      (l : CycleLimits) (ws : List Wake) (sealed : Db)
      → choose_wakes s locked d i now limits db ≡ ok (claim l ws sealed)
      → Chosen l ws sealed
  unfolding choose_wakes
  choose_wakes-Chosen l ws sealed h = elim (Option-cases (head_wake (due_wakes d i now db))) [
    | inl nobody ↦
        let picked : ok (choose_exploration locked d d.eligible i now limits db)
            ≡ ok (claim l ws sealed) =
          rw (nobody, choose_wakes) at h in
        explored d.eligible l ws sealed refl (cc)
    | inr (first, e) ↦ ordinarily first l ws sealed e (rw (e, choose_wakes) at h)
  ]
