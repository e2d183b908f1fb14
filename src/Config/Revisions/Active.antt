-- ===== src/Config/Revisions/Active.antt =====
-- What a successful replacement of the active configuration leaves as active, and what a repeated
-- one does (src/cognition/stores/configuration.py).
use cognition.Prelude.{
  ℕ, ◌≡◌, refl, sym, ◌∙◌, ap, Bool, true, false, Option, none, some, String, List, [], ◌∷◌, ◌++◌,
  ◌==◌, arith, str_eq, str_eq_iff, find, find-append, any, update, Bool-cases, Option-cases, inl,
  inr,
}
use cognition.Store.Result.{ok, Error, require, >>=-elim}
use cognition.Store.Rows.{Individual}
use cognition.Store.Db.{Db, find_individual}
use cognition.Config.Revisions.{
  RuntimeConfigRevision, Replaced, is_active_for, active_row, config_snapshot, insert_revision,
  retired_at, drawn, new_revision, same_hash, insert_active, keep_active, replace_config_revision,
}
use cognition.Config.{
  BehaviorConfiguration, Hashing, behavior_hash, parse_behavior_config, parse_behavior_config-ok,
}

find-any-false :
    (p : RuntimeConfigRevision → Bool) (t : List RuntimeConfigRevision)
    → any p t ≡ false
    → find p t ≡ none
find-any-false p [] h = refl
find-any-false p (r ∷ rs) h = ground (arith, find-any-false p rs)

config_snapshot-ok :
    (row : RuntimeConfigRevision) {r : RuntimeConfigRevision} → config_snapshot row ≡ ok r → r ≡ row
unfolding config_snapshot
config_snapshot-ok row {r} h = >>=-elim (parse_behavior_config row.sanitized_config) _ h λ b e h1.
    let same : b ≡ row.sanitized_config =
      (parse_behavior_config-ok row.sanitized_config {d = b} e).0 in
    let end : record row { sanitized_config = b } ≡ r = cc h1 in
    sym end ∙ ap (λ (x : BehaviorConfiguration). record row { sanitized_config = x }) same

-- What an insertion of an active revision did.
record Inserted (h : String) (i now : ℕ) (t : List RuntimeConfigRevision) (r : Replaced)
    : Type 0 where
  is_changed : r.changed ≡ true
  hash : r.revision.content_hash ≡ h
  none_active : any (is_active_for i) (update (is_active_for i) (retired_at now) t) ≡ false
  table : r.table ≡ update (is_active_for i) (retired_at now) t ++ r.revision ∷ []
  mine : r.revision.individual_id ≡ i
  is_active : is_active_for i r.revision ≡ true
  sound : config_snapshot r.revision ≡ ok r.revision

insert_revision-ok :
    (row : RuntimeConfigRevision) (t : List RuntimeConfigRevision) {t' : List RuntimeConfigRevision}
    → insert_revision row t ≡ ok t'
    → (any (is_active_for row.individual_id) t ≡ false) × (t' ≡ t ++ row ∷ [])
unfolding insert_revision
insert_revision-ok row t {t'} h =
    elim (Bool-cases (any (λ r. r.config_revision_id == row.config_revision_id) t)) [
      | inl taken ↦ absurd (cc (rw taken at h))
      | inr new ↦ elim (Bool-cases (any (is_active_for row.individual_id) t)) [
        | inl active ↦ absurd (cc (rw (new, active) at h))
        | inr idle ↦ let same : t ++ row ∷ [] ≡ t' = cc (rw (new, idle) at h) in (idle, sym same)
      ]
    ]

insert_active-Inserted :
    (db : Db) (t : List RuntimeConfigRevision) (i : ℕ) (c : BehaviorConfiguration) (h : String)
    (now : ℕ) (id : Option ℕ) {r : Replaced}
    → insert_active db t i c h now id ≡ ok r
    → Inserted h i now t r
unfolding insert_active
insert_active-Inserted db t i c h now id {r} e =
    >>=-elim (insert_revision row (update (is_active_for i) (retired_at now) t)) _ e λ t' e1 n1.
      >>=-elim (config_snapshot row) _ n1 λ row' e2 n2.
        let insertion =
          insert_revision-ok row (update (is_active_for i) (retired_at now) t) {t' = t'} e1 in
        let kept = config_snapshot-ok row {r = row'} e2 in
        let done : record { revision = row'; changed = true; table = t'; db = (drawn id db).1 }
            ≡ r =
          cc n2 in
        rw (sym done, kept)
          (record {
            is_changed = refl;
            hash = refl;
            none_active = insertion.0;
            table = insertion.1;
            mine = refl;
            is_active = ground arith;
            sound = e2 ∙ ap ok kept;
          })
  where
    row : RuntimeConfigRevision
    row = new_revision (drawn id db).0 i c h now

-- The two ways in which a replacement with a hash succeeds.
data Step (hash : String) (i now : ℕ) (t : List RuntimeConfigRevision) (r : Replaced) : Type 0 where
  kept :
      active_row i t ≡ some r.revision
      → r.revision.content_hash ≡ hash
      → r.changed ≡ false
      → r.table ≡ t
      → config_snapshot r.revision ≡ ok r.revision
      → Step hash i now t r
  inserted : Inserted hash i now t r → Step hash i now t r

pub same_hash-some :
    (hash : String) (o : Option RuntimeConfigRevision) {row : RuntimeConfigRevision}
    → same_hash hash o ≡ some row
    → (o ≡ some row) × (row.content_hash ≡ hash)
same_hash-some hash none h = absurd (cc h)
same_hash-some hash (some r) {row} h = elim (Bool-cases (str_eq r.content_hash hash)) [
  | inl e ↦
      let same : r ≡ row = cc (rw e at h) in
      (
        ap some same,
        sym (ap (λ (x : RuntimeConfigRevision). x.content_hash) same)
            ∙ (str_eq_iff r.content_hash hash).0 e,
      )
  | inr e ↦ absurd (cc (rw e at h))
]

keep_active-Step :
    (db : Db) (t : List RuntimeConfigRevision) (row : RuntimeConfigRevision) (hash : String)
    (i now : ℕ) {r : Replaced}
    → active_row i t ≡ some row
    → row.content_hash ≡ hash
    → keep_active db t row ≡ ok r
    → Step hash i now t r
unfolding keep_active
keep_active-Step db t row hash i now {r} found same h =
    >>=-elim (config_snapshot row) _ h λ row' e n.
      let mine = config_snapshot-ok row {r = row'} e in
      let done : record { revision = row'; changed = false; table = t; db = db } ≡ r = cc n in
      rw (sym done, mine) (Step.kept found same refl refl (e ∙ ap ok mine))

replace-Step :
    (h : Hashing) (db : Db) (t : List RuntimeConfigRevision) (i : ℕ) (c : BehaviorConfiguration)
    (now : ℕ) (id : Option ℕ) {r : Replaced}
    → replace_config_revision h db t i c now id ≡ ok r
    → (hash : String) × (behavior_hash h c ≡ ok hash) × Step hash i now t r
unfolding replace_config_revision
replace-Step h db t i c now id {r} e = >>=-elim (parse_behavior_config c) _ e λ c' e1 n1.
    >>=-elim (require (find_individual i db) Error.lookup_error) _ n1 λ _ e2 n2.
      >>=-elim (behavior_hash h c') _ n2 λ hash e3 n3.
        let same = (parse_behavior_config-ok c {d = c'} e1).0 in
        (hash, sym (ap (behavior_hash h) same) ∙ e3, branch c' hash n3)
  where
    branch :
        (c' : BehaviorConfiguration) (hash : String)
        → (elim (same_hash hash (active_row i t)) [
          | some row ↦ keep_active db t row
          | none ↦ insert_active db t i c' hash now id
        ])
          ≡ ok r
        → Step hash i now t r
    branch c' hash n = elim (Option-cases (same_hash hash (active_row i t))) [
      | inl fresh ↦
          Step.inserted (insert_active-Inserted db t i c' hash now id {r = r} (rw fresh at n))
      | inr (row, held) ↦
          let found = same_hash-some hash (active_row i t) {row = row} held in
          keep_active-Step db t row hash i now {r = r} found.0 found.1 (rw held at n)
    ]

-- After a replace_config_revision that succeeds, the revision that it returned is the
-- individual's active one, and its content hash is that of the requested behaviour.
pub replace-active :
    (h : Hashing) (db : Db) (t : List RuntimeConfigRevision) (i : ℕ) (c : BehaviorConfiguration)
    (now : ℕ) (id : Option ℕ) {r : Replaced}
    → replace_config_revision h db t i c now id ≡ ok r
    → (active_row i r.table ≡ some r.revision) × (behavior_hash h c ≡ ok r.revision.content_hash)
replace-active h db t i c now id {r} e =
    let step = replace-Step h db t i c now id {r = r} e in
    elim step.2 [
      | Step.kept found same _ table _ ↦ (rw table found, step.1 ∙ ap ok (sym same))
      | Step.inserted s ↦ (
        rw s.table (
            find-append (is_active_for i) (update (is_active_for i) (retired_at now) t) r.revision
              s.is_active
              (find-any-false (is_active_for i) (update (is_active_for i) (retired_at now) t)
                s.none_active)),
        step.1 ∙ ap ok (sym s.hash),
      )
    ]

replace_sound :
    (h : Hashing) (db : Db) (t : List RuntimeConfigRevision) (i : ℕ) (c : BehaviorConfiguration)
    (now : ℕ) (id : Option ℕ) {r : Replaced}
    → replace_config_revision h db t i c now id ≡ ok r
    → config_snapshot r.revision ≡ ok r.revision
replace_sound h db t i c now id {r} e = elim (replace-Step h db t i c now id {r = r} e).2 [
  | Step.kept _ _ _ _ sound ↦ sound
  | Step.inserted s ↦ s.sound
]

pub behavior_hash-parse :
    (h : Hashing) (c : BehaviorConfiguration) {hash : String}
    → behavior_hash h c ≡ ok hash
    → parse_behavior_config c ≡ ok c
unfolding behavior_hash
behavior_hash-parse h c {hash} e =
    >>=-elim (parse_behavior_config c) _ e
      λ d e1 n. e1 ∙ ap ok (parse_behavior_config-ok c {d = d} e1).0

-- After a replace_config_revision that succeeds, a later one with the same behaviour on its
-- table succeeds where the individual exists, returns the same revision as unchanged, and leaves
-- the table and the database as they are.
pub replace-again :
    (h : Hashing) (db db' : Db) (t : List RuntimeConfigRevision) (i : ℕ) (c : BehaviorConfiguration)
    (now now' : ℕ) (id id' : Option ℕ) {r : Replaced} {parent : Individual}
    → replace_config_revision h db t i c now id ≡ ok r
    → find_individual i db' ≡ some parent
    → replace_config_revision h db' r.table i c now' id'
      ≡ ok (record { revision = r.revision; changed = false; table = r.table; db = db' })
unfolding replace_config_revision keep_active
replace-again h db db' t i c now now' id id' {r} e there =
    let first = replace-active h db t i c now id {r = r} e in
    let parsed = behavior_hash-parse h c {hash = r.revision.content_hash} first.1 in
    let held : same_hash r.revision.content_hash (active_row i r.table) ≡ some r.revision =
      rw (first.0, (str_eq_iff r.revision.content_hash r.revision.content_hash).1 refl) refl in
    let last : (elim (same_hash r.revision.content_hash (active_row i r.table)) [
      | some row ↦ keep_active db' r.table row
      | none ↦ insert_active db' r.table i c r.revision.content_hash now' id'
    ])
        ≡ ok (record { revision = r.revision; changed = false; table = r.table; db = db' }) =
      rw (held, replace_sound h db t i c now id {r = r} e) refl in
    rw (parsed, there, first.1) last
