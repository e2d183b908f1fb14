-- ===== src/Frozen/RoundTrip.antt =====
-- A compiled request that is saved is what is loaded (compile_request of
-- src/cognition/runtime/context.py, save_context and load_request of
-- src/cognition/stores/cognition.py), as the runtime calls the three in one transaction.
use cognition.Prelude.{
  ℕ, ◌≡◌, refl, sym, ◌∙◌, ap, Bool, true, false, not, ◌||◌, Option, none, some, String, List, [],
  ◌∷◌, ◌++◌, ◌==◌, arith, str_eq, str_eq_iff, ==_self, ==_iff, find, find-append, find-eq-some, any,
  select, count, Bool-cases, inl, inr,
}
use cognition.Protocol.Model.{ModelRequest, ContextSection, supported_contract}
use cognition.Protocol.Contract.{
  parse_request, validate_request_contract, validate_request_contract-Fits, valid_request,
  parse_request-supported,
}
use cognition.Store.Result.{ok, Error, raise_if, >>=-elim, raise_if-eq-ok}
use cognition.Store.Rows.{ContextSnapshot, CognitionTurn, CognitionCycle}
use cognition.Store.Db.{Db, find_turn, find_cycle, new_id}
use cognition.Config.{behavior_hash, cognition_protocol_version, protocol_of-schema}
use cognition.Config.Revisions.{RuntimeConfigRevision}
use cognition.Context.{Rendering, CompiledContext, uuid_text, with_sections}
use cognition.Context.Control.{control_section, base_sections}
use cognition.Context.Compile.{CompileInput, compile_request, base_request, foreign_input}
use cognition.Context.Prefix.{compile_request-Sound, Sound}
use cognition.Frozen.{
  Reading, SavedContext, save_context, load_request, load_frozen, check_stored, frozen_protocol,
  names_configuration, is_linked, snapshot_row, freezes, insert_snapshot,
  validate_exploration_request, named, single,
}

-- The arguments with which the runtime saves a compiled context.
abbrev pub saved : CompileInput → CompiledContext → ℕ → Option ℕ → SavedContext
saved x r now retain_until = record {
  turn_id = x.turn_id;
  config_revision_id = x.config.config_revision_id;
  request = r.request;
  rendered_context = r.rendered_context;
  context_hash = r.content_hash;
  selected_refs = r.selected_refs;
  retrieval_reasons = r.retrieval_reasons;
  estimated_input_tokens = r.estimated_input_tokens;
  adapter = x.config.sanitized_config.model.adapter;
  requested_model = x.config.sanitized_config.model.requested_model;
  now = now;
  retain_until = retain_until;
}

abbrev pub with_snapshot : ContextSnapshot → Db → Db
with_snapshot s db = record (new_id db).1 {
  cognition = record db.cognition { snapshots = db.snapshots ++ s ∷ [] };
}

-- What the readers do: JSON that was rendered is read back, and the scopes do not look at snapshots.
pub record Reads (g : Rendering) (o : Reading) : Type 0 where
  pub canonical :
      (q : ModelRequest) → o.canonical_text (g.render_request q) ≡ some (o.canonical_request q)
  pub exploration :
      (s : ContextSnapshot) (db : Db) (c : ℕ)
      → o.get_cycle_exploration (with_snapshot s db) c ≡ o.get_cycle_exploration db c
  pub inbound :
      (s : ContextSnapshot) (db : Db) (c : ℕ)
      → o.get_cycle_inbound (with_snapshot s db) c ≡ o.get_cycle_inbound db c

-- What a save that did not raise has found and done.
record Saves (g : Rendering) (o : Reading) (a : SavedContext) (turn : CognitionTurn) (db db' : Db)
    : Type 0 where
  mine : a.request.turn_id ≡ a.turn_id
  same_cycle : a.request.cycle_id ≡ turn.cycle_id
  explored : validate_exploration_request g o db turn.cycle_id a.request ≡ ok tt
  inbound : (b : Bool) × (o.get_cycle_inbound db turn.cycle_id ≡ ok b)
  fresh : any (freezes a.turn_id) db.snapshots ≡ false
  done : db' ≡ with_snapshot (snapshot_row (new_id db).0 a) db

insert_snapshot-ok :
    (configs : List RuntimeConfigRevision) (s : ContextSnapshot) (db : Db) {db' : Db}
    → insert_snapshot configs s db ≡ ok db'
    → (any (freezes s.turn_id) db.snapshots ≡ false)
      × (db' ≡ record db { cognition = record db.cognition { snapshots = db.snapshots ++ s ∷ [] } })
unfolding insert_snapshot
insert_snapshot-ok configs s db {db'} h =
    >>=-elim (raise_if taken Error.integrity_error) _ h λ _ e n.
      let free = raise_if-eq-ok taken Error.integrity_error e in (ground (arith, free), sym (cc n))
  where
    taken : Bool
    taken =
        any (λ (t : ContextSnapshot). t.snapshot_id == s.snapshot_id) db.snapshots
        || any (freezes s.turn_id) db.snapshots
        || not (
            any (λ (c : RuntimeConfigRevision). c.config_revision_id == s.config_revision_id)
              configs)

save_context-Saves :
    (g : Rendering) (o : Reading) (configs : List RuntimeConfigRevision) (a : SavedContext)
    (turn : CognitionTurn) (db : Db) {db' : Db}
    → find_turn a.turn_id db ≡ some turn
    → save_context g o configs a db ≡ ok db'
    → Saves g o a turn db db'
unfolding save_context
save_context-Saves g o configs a turn db {db'} found h =
    >>=-elim (raise_if strange Error.incompatible) _ (rw found at h) λ _ e1 h1.
      >>=-elim (validate_exploration_request g o db turn.cycle_id a.request) _ h1 λ u e2 h2.
        >>=-elim (o.get_cycle_inbound db turn.cycle_id) _ h2 λ b e3 h3.
          let own = raise_if-eq-ok strange Error.incompatible e1 in
          let inserted =
            insert_snapshot-ok configs (snapshot_row (new_id db).0 a) (new_id db).1 {db' = db'}
              h3 in
          record {
            mine = ground (arith, own, ==_iff a.request.turn_id a.turn_id);
            same_cycle = ground (arith, own, ==_iff a.request.cycle_id turn.cycle_id);
            explored = e2;
            inbound = (b, e3);
            fresh = inserted.0;
            done = inserted.1;
          }
  where
    strange : Bool
    strange = not (a.request.turn_id == a.turn_id) || not (a.request.cycle_id == turn.cycle_id)

str_self : (s : String) → str_eq s s ≡ true
str_self s = (str_eq_iff s s).1 refl

select_none :
    (p : ContextSection → Bool) (xs : List ContextSection) → count p xs ≡ 0 → select p xs ≡ []
select_none p [] h = refl
select_none p (x ∷ xs) h = elim (Bool-cases (p x)) [
  | inl e ↦ absurd (omega (arith, rw e at h))
  | inr e ↦ rw e (select_none p xs (rw e at h))
]

-- A list's first section of a name that only one of them has.
single-select :
    (p : ContextSection → Bool) (s : ContextSection) (xs : List ContextSection)
    → p s ≡ true
    → count p (s ∷ xs) ≡ 1
    → single (select p (s ∷ xs)) ≡ some s
single-select p s xs e h =
    let rest : select p xs ≡ [] = select_none p xs (omega (arith, rw e at h)) in rw (e, rest) refl

check_stored-ok :
    (g : Rendering) (o : Reading) (s : ContextSnapshot)
    → Reads g o
    → s.content_hash ≡ g.hashing.digest s.rendered_context
    → s.rendered_context ≡ g.render_request s.request
    → check_stored g o s ≡ ok tt
unfolding check_stored
check_stored-ok g o s k hashed rendered =
    let text = ap o.canonical_text rendered ∙ k.canonical s.request in
    rw
      (
        hashed,
        str_self (g.hashing.digest s.rendered_context),
        text,
        str_self (o.canonical_request s.request),
      )
      refl

frozen_protocol-ok :
    (g : Rendering) (config : RuntimeConfigRevision) (protocol : ℕ)
    → cognition_protocol_version config.sanitized_config ≡ ok protocol
    → behavior_hash g.hashing config.sanitized_config ≡ ok config.content_hash
    → config.config_schema_version ≡ config.sanitized_config.config_schema_version
    → frozen_protocol g config ≡ ok protocol
unfolding frozen_protocol
frozen_protocol-ok g config protocol e hash version =
    rw
      (
        e,
        hash,
        version,
        ==_self config.sanitized_config.config_schema_version,
        str_self config.content_hash,
      )
      refl

control-named :
    (config : RuntimeConfigRevision) (protocol : ℕ)
    → named "runtime_control" (control_section config protocol) ≡ true
unfolding control_section
control-named config protocol = refl

names_configuration-ok :
    (config : RuntimeConfigRevision) (protocol : ℕ) (q : ModelRequest) (rest : List ContextSection)
    → q.context_sections ≡ control_section config protocol ∷ rest
    → count (named "runtime_control") q.context_sections ≡ 1
    → names_configuration config q ≡ true
unfolding names_configuration control_section
names_configuration-ok config protocol q rest e once =
    let only =
      ap (λ ss. single (select (named "runtime_control") ss)) e
      ∙ single-select (named "runtime_control") (control_section config protocol) rest
          (control-named config protocol) (sym (ap (count (named "runtime_control")) e) ∙ once) in
    rw (only, str_self (uuid_text config.config_revision_id), str_self config.content_hash) refl

-- What a compiled request is, for the one who loads it.
record Compiles (x : CompileInput) (q : ModelRequest) : Type 0 where
  protocol : ℕ
  configured : cognition_protocol_version x.config.sanitized_config ≡ ok protocol
  schema : x.config.config_schema_version ≡ protocol
  rest : List ContextSection
  request : q ≡ base_request x protocol (control_section x.config protocol ∷ rest)
  supported : supported_contract q ≡ true

Sound-Compiles :
    (g : Rendering) (x : CompileInput) (r : CompiledContext) → Sound g x r → Compiles x r.request
unfolding base_request base_sections supported_contract
Sound-Compiles g x r s =
    let whole =
      s.extends.request
      ∙ ap (λ (b : ModelRequest). with_sections b (b.context_sections ++ s.extends.added))
          s.base_is in
    record {
      protocol = s.protocol;
      configured = s.configured;
      schema = s.schema;
      rest = _;
      request = whole;
      supported = ap supported_contract s.extends.request ∙ s.supported;
    }

is_linked-ok :
    (x : CompileInput) (r : CompiledContext) (id now t : ℕ) (retain_until : Option ℕ)
    (cycle : CognitionCycle)
    → r.request.turn_id ≡ t
    → r.request.cycle_id ≡ cycle.cycle_id
    → r.request.individual_id ≡ cycle.individual_id
    → x.config.individual_id ≡ cycle.individual_id
    → is_linked (snapshot_row id (saved x r now retain_until)) x.config cycle t r.request ≡ true
unfolding is_linked
is_linked-ok x r id now t retain_until cycle turn same mine owner =
    rw
      (
        str_self r.request.runtime_contract_version,
        turn,
        ==_self t,
        same,
        ==_self cycle.cycle_id,
        mine,
        owner,
        ==_self cycle.individual_id,
        str_self x.config.sanitized_config.model.adapter,
        str_self x.config.sanitized_config.model.requested_model,
      )
      refl

own_config :
    (x : CompileInput)
    → foreign_input x ≡ false
    → x.config.individual_id ≡ x.individual.individual_id
own_config x h = (==_iff x.config.individual_id x.individual.individual_id).0 (ground (arith, h))

find-none_of :
    (t : ℕ) (ss : List ContextSnapshot) → any (freezes t) ss ≡ false → find (freezes t) ss ≡ none
find-none_of t [] h = refl
find-none_of t (s ∷ ss) h = ground (arith, find-none_of t ss)

module _ (g : Rendering) (o : Reading) (configs : List RuntimeConfigRevision) where
  load_frozen-ok :
      (db : Db) (t : ℕ) (s : ContextSnapshot) (q : ModelRequest) (config : RuntimeConfigRevision)
      (turn : CognitionTurn) (cycle : CognitionCycle) (protocol : ℕ) (b : Bool)
      → check_stored g o s ≡ ok tt
      → parse_request s.request ≡ ok q
      → find (λ (c : RuntimeConfigRevision). c.config_revision_id == s.config_revision_id) configs
        ≡ some config
      → find_turn t db ≡ some turn
      → find_cycle turn.cycle_id db ≡ some cycle
      → frozen_protocol g config ≡ ok protocol
      → validate_request_contract q (some config.config_schema_version) (some protocol) ≡ ok tt
      → names_configuration config q ≡ true
      → is_linked s config cycle t q ≡ true
      → validate_exploration_request g o db cycle.cycle_id q ≡ ok tt
      → o.get_cycle_inbound db cycle.cycle_id ≡ ok b
      → load_frozen g o configs db t s ≡ ok (some q)
  unfolding load_frozen
  load_frozen-ok db t s q config turn cycle protocol b e1 e2 e3 e4 e5 e6 e7 e8 e9 e10 e11 =
      rw (e1, e2, e3, e4, e5, e6, e7, e8, e9, e10, e11) refl

  validate_exploration_request-snapshot :
      (s : ContextSnapshot) (db : Db) (c : ℕ) (q : ModelRequest)
      → Reads g o
      → validate_exploration_request g o (with_snapshot s db) c q
        ≡ validate_exploration_request g o db c q
  unfolding validate_exploration_request
  validate_exploration_request-snapshot s db c q k = rw (k.exploration s db c) refl

  module _ (x : CompileInput) (r : CompiledContext) (turn : CognitionTurn) (cycle : CognitionCycle)
      (db : Db) where
    -- A request that compile_request returned and save_context saved in its turn is what
    -- load_request returns for that turn. The conditions: the readers read back what was
    -- rendered and look at no snapshots; the configuration of the compilation stands among the
    -- revisions with the hash of its content; the turn and its cycle exist and the cycle is the
    -- individual's; the compiled request is a valid contract; and one of its sections alone is
    -- called runtime_control.
    pub load_request-save_context :
        (now : ℕ) (retain_until : Option ℕ) {db' : Db}
        → Reads g o
        → find
            (λ (c : RuntimeConfigRevision). c.config_revision_id == x.config.config_revision_id)
            configs
          ≡ some x.config
        → behavior_hash g.hashing x.config.sanitized_config ≡ ok x.config.content_hash
        → find_turn x.turn_id db ≡ some turn
        → find_cycle turn.cycle_id db ≡ some cycle
        → cycle.individual_id ≡ x.individual.individual_id
        → compile_request g x ≡ ok r
        → valid_request r.request ≡ true
        → count (named "runtime_control") r.request.context_sections ≡ 1
        → save_context g o configs (saved x r now retain_until) db ≡ ok db'
        → load_request g o configs db' x.turn_id ≡ ok (some r.request)
    unfolding load_request base_request
    load_request-save_context now retain_until {db'} k held hash found cycled owner compiled valid
          once h =
        let sound = compile_request-Sound g x {r = r} compiled in
        let c = Sound-Compiles g x r sound in
        let s =
          save_context-Saves g o configs (saved x r now retain_until) turn db {db' = db'} found h in
        let row = snapshot_row (new_id db).0 (saved x r now retain_until) in
        let same : cycle.cycle_id ≡ turn.cycle_id = (==_iff cycle.cycle_id turn.cycle_id).0 (
          find-eq-some (λ (y : CognitionCycle). y.cycle_id == turn.cycle_id) db.cycles {r = cycle}
            cycled) in
        let contract =
          validate_request_contract-Fits r.request x.config.config_schema_version c.protocol
            (record {
              parsed = parse_request-supported r.request c.supported valid;
              supported = c.supported;
              schema = c.schema ∙ sym (ap (λ (q : ModelRequest). q.schema_version) c.request);
              protocol = sym (ap (λ (q : ModelRequest). q.schema_version) c.request);
            }) in
        let stored =
          find-append (freezes x.turn_id) db.snapshots row (==_self x.turn_id)
            (find-none_of x.turn_id db.snapshots s.fresh) in
        ap (λ (d : Db). load_request g o configs d x.turn_id) s.done
        ∙ rw (load_request, stored)
            (load_frozen-ok (with_snapshot row db) x.turn_id row r.request x.config turn cycle
              c.protocol s.inbound.0
              (check_stored-ok g o row k (sound.extends.hashed) sound.extends.rendered)
              (parse_request-supported r.request c.supported valid) held found cycled
              (frozen_protocol-ok g x.config c.protocol c.configured hash (
                c.schema
                ∙ protocol_of-schema x.config.sanitized_config {n = c.protocol} c.configured))
              contract
              (names_configuration-ok x.config c.protocol r.request c.rest
                (ap (λ (q : ModelRequest). q.context_sections) c.request) once)
              (is_linked-ok x r (new_id db).0 now x.turn_id retain_until cycle
                (ap (λ (q : ModelRequest). q.turn_id) c.request) (s.same_cycle ∙ sym same)
                (ap (λ (q : ModelRequest). q.individual_id) c.request ∙ sym owner)
                (own_config x sound.owned ∙ sym owner))
              (rw (same, validate_exploration_request-snapshot row db turn.cycle_id r.request k)
                s.explored)
              (rw (same, k.inbound row db turn.cycle_id) s.inbound.1))
