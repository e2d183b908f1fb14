-- ===== src/Cycle/Single.antt =====
-- An individual has at most one active cycle: claim_or_resume and finish_cycle of
-- src/cognition/stores/cognition.py.
use cognition.Prelude.{
  ℕ, ◌+◌, ◌≤◌, ◌≡◌, refl, sym, ◌∙◌, ap, Bool, false, Option, none, List, [], ◌∷◌, ◌++◌, arith, ◌==◌,
  ==_iff, find, any, count, take, select, find-none, count-append, Bool-cases, Option-cases, inl,
  inr,
}
use cognition.Store.Result.{ok, Error, >>=-elim, raise_if}
use cognition.Store.Rows.{Wake, CognitionCycle}
use cognition.Store.Db.{Db, CognitionTables, new_id, add_delay}
use cognition.Wakes.{create_or_merge_pending_wake}
use cognition.Wakes.Frame.{create_or_merge-OnlyWakes}
use cognition.Cycle.Collaborators.{Collaborators, Keeps, Discovery}
use cognition.Cycle.Stages.{new_turn, record_execution_event}
use cognition.Cycle.Invoke.{CycleRecord, cycle_record}
use cognition.Cycle.Chosen.{Chosen, ordinary, inbound, exploring, choose_wakes-Chosen}
use cognition.Cycle.Claim.{
  CycleLimits, Choice, idle, claim, active_cycle_of, opened_cycle, open_cycle, order_by_due,
  recover_each, recover_orphan_wakes, is_owned, is_orphan, choose_wakes, start_choice,
  claim_or_resume,
}

abbrev pub SingleActive : Db → Type 0
SingleActive db = (i : ℕ) → count (active_cycle_of i) db.cycles ≤ 1

recover_each-cognition :
    (i now : ℕ) (ws : List Wake) (db db' : Db)
    → recover_each i now ws db ≡ ok db'
    → db'.cognition ≡ db.cognition
unfolding recover_each record_execution_event
recover_each-cognition i now [] db db' h = cc
recover_each-cognition i now (w ∷ rest) db db' h =
    >>=-elim (create_or_merge_pending_wake _ _) _ h λ r e h1.
      recover_each-cognition i now rest _ db' h1
      ∙ (create_or_merge-OnlyWakes _ r.0 _ r.1 e).cognition

recover-cognition :
    (i now limit : ℕ) (db db' : Db)
    → recover_orphan_wakes i now limit db ≡ ok db'
    → db'.cognition ≡ db.cognition
unfolding recover_orphan_wakes
recover-cognition i now limit db db' h =
    recover_each-cognition i now (take limit (order_by_due (select (is_orphan db i) db.wakes))) db
      db' h

module _ (s : Collaborators) (k : Keeps s) (locked : ℕ → Bool) (d : Discovery) (i now : ℕ)
    (limits : CycleLimits) (db : Db) where
  Chosen-cognition :
      {l : CycleLimits} {ws : List Wake} {sealed : Db}
      → Chosen s locked d i now limits db l ws sealed
      → sealed.cognition ≡ db.cognition
  Chosen-cognition (ordinary el same first next rows bound) = ap (λ (x : Db). x.cognition) same
  Chosen-cognition (inbound first ews el next known h) =
      (k.sealed i first.wake_id now db _ h).0.cognition
  Chosen-cognition (exploring g e el same none_due rows) = ap (λ (x : Db). x.cognition) same

-- The tables after a cycle is opened hold one row more.
open_cycle-cycles :
    (i now : ℕ) (limits : CycleLimits) (ws : List Wake) (db db' : Db) (c : CycleRecord)
    → open_cycle i now limits ws db ≡ ok (c, db')
    → (row : CognitionCycle) × (db'.cycles ≡ db.cycles ++ row ∷ [])
      × (row.individual_id ≡ i)
      × (c ≡ cycle_record row)
unfolding open_cycle new_turn record_execution_event
open_cycle-cycles i now limits ws db db' c h =
    >>=-elim (add_delay now limits.max_time) _ h λ deadline e h1.
      >>=-elim (raise_if (any (λ w. is_owned db w.wake_id) ws) Error.integrity_error) _ h1
        λ _ free h2. (opened_cycle (new_id db).0 i now limits deadline, cc, refl, cc)

-- A new active cycle of an individual that has none.
opened-SingleActive :
    (i : ℕ) (db db' : Db) (row : CognitionCycle)
    → SingleActive db
    → find (active_cycle_of i) db.cycles ≡ none
    → db'.cycles ≡ db.cycles ++ row ∷ []
    → row.individual_id ≡ i
    → SingleActive db'
opened-SingleActive i db db' row single nobody rows owner j =
    let here : count (active_cycle_of i) db.cycles ≡ 0 =
      find-none (active_cycle_of i) db.cycles nobody in
    let more : count (active_cycle_of j) (db.cycles ++ row ∷ [])
        ≡ count (active_cycle_of j) db.cycles + count (active_cycle_of j) (row ∷ []) =
      count-append (active_cycle_of j) db.cycles (row ∷ []) in
    rw (rows, more)
      (elim (Bool-cases (i == j)) [
        | inl same ↦
            let e : i ≡ j = (==_iff i j).0 same in
            let zero_here : count (active_cycle_of j) db.cycles ≡ 0 = rw e at here in
            rw zero_here (ground arith)
        | inr other ↦
            let not_his : active_cycle_of j row ≡ false = rw (owner, other) refl in
            rw not_his (omega (arith, single j))
      ])

module _ (s : Collaborators) (k : Keeps s) (locked : ℕ → Bool) (i now : ℕ)
    (limits : CycleLimits) where
  started-SingleActive :
      (d : Discovery) (choice : Choice) (db db' : Db) (r : Option CycleRecord)
      → SingleActive db
      → find (active_cycle_of i) db.cycles ≡ none
      → choose_wakes s locked d i now limits db ≡ ok choice
      → start_choice choice i now db ≡ ok (r, db')
      → SingleActive db'
  unfolding start_choice
  started-SingleActive d idle db db' r single nobody e h =
      let same : db' ≡ db = cc in λ j. rw same (single j)
  started-SingleActive d (claim l [] sealed) db db' r single nobody e h =
      let chosen = choose_wakes-Chosen s locked d i now limits db l [] sealed e in
      let same : sealed ≡ db' = cc in
      λ j. rw (sym same, Chosen-cognition s k locked d i now limits db chosen) (single j)
  started-SingleActive d (claim l (w ∷ ws) sealed) db db' r single nobody e h =
      >>=-elim (open_cycle i now l (w ∷ ws) sealed) _ h λ opened h1 h2.
        let chosen = choose_wakes-Chosen s locked d i now limits db l (w ∷ ws) sealed e in
        let kept : sealed.cognition ≡ db.cognition =
          Chosen-cognition s k locked d i now limits db chosen in
        let (row, rows, owner, _) =
          open_cycle-cycles i now l (w ∷ ws) sealed opened.1 opened.0 h1 in
        let same : opened.1 ≡ db' = cc in
        opened-SingleActive i db db' row single nobody
          (ap (λ (x : Db). x.cycles) (sym same)
            ∙ (rows ∙ ap (λ (t : CognitionTables). t.cycles ++ row ∷ []) kept))
          owner

  -- For collaborators that keep to their tables, and whatever wakes other transactions have
  -- locked: if every individual has at most one active cycle, the same holds after
  -- claim_or_resume succeeds.
  pub claim_or_resume-SingleActive :
      (db db' : Db) (r : Option CycleRecord)
      → SingleActive db
      → claim_or_resume s locked i now limits db ≡ ok (r, db')
      → SingleActive db'
  unfolding claim_or_resume
  claim_or_resume-SingleActive db db' r single h =
      >>=-elim (s.validate_inbound_claims db i) _ h λ _ e0 h0.
        >>=-elim (recover_orphan_wakes i now limits.max_wakes db) _ h0 λ recovered e1 h1.
          let kept : recovered.cognition ≡ db.cognition =
            recover-cognition i now limits.max_wakes db recovered e1 in
          let single1 : SingleActive recovered = λ j. rw kept (single j) in
          elim (Option-cases (find (active_cycle_of i) recovered.cycles)) [
            | inr (row, e) ↦
                >>=-elim (s.get_cycle_exploration recovered row.cycle_id) _
                  (rw (e, claim_or_resume) at h1)
                  λ _ e2 h2.
                    >>=-elim (s.get_cycle_inbound recovered row.cycle_id) _ h2
                      λ _ e3 h3. let same : recovered ≡ db' = cc in rw same at single1
            | inl nobody ↦
                >>=-elim (s.discover_exploration recovered i now) _
                  (rw (nobody, claim_or_resume) at h1)
                  λ d e2 h2.
                    >>=-elim (choose_wakes s locked d i now limits recovered) _ h2 λ choice e3 h3.
                      started-SingleActive d choice recovered db' r single1 nobody e3 h3
          ]
