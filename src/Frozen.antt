-- ===== src/Frozen.antt =====
-- The frozen request of a turn: save_context and load_request of src/cognition/stores/cognition.py,
-- with validate_exploration_control of src/cognition/stores/exploration_scope.py.
pub mod RoundTrip
use cognition.Prelude.{
  ℕ, zero, suc, ◌≡◌, Bool, true, false, not, ◌&&◌, ◌||◌, Option, none, some, String, List, [], ◌∷◌,
  ◌++◌, ◌==◌, str_eq, find, any, select, if◌then◌else◌,
}
use cognition.Json.{Json, Fields, string}
use cognition.Protocol.Ref.{Ref}
use cognition.Protocol.Operations.{Content}
use cognition.Protocol.Model.{ModelRequest, ContextSection, ContextCategory}
use cognition.Protocol.Contract.{parse_request, validate_request_contract}
use cognition.Store.Result.{Result, ok, err, Error, ◌>>=◌, ◌>>◌, require, raise_if}
use cognition.Store.Rows.{ContextSnapshot, CognitionTurn, CognitionCycle}
use cognition.Store.Db.{Db, find_turn, find_cycle, new_id}
use cognition.Config.{Hashing, behavior_hash, cognition_protocol_version}
use cognition.Config.Revisions.{RuntimeConfigRevision}
use cognition.Context.{Rendering, uuid_text, lookup}
use cognition.Context.Control.{CycleExploration, exploration_control}

-- What reading takes from `json` and of the other scopes: the canonical text of a JSON text, which
-- `json.loads` may refuse, that of a stored request, and the cycle's exploration and inbound scope.
pub record Reading : Type 0 where
  pub canonical_text : String → Option String
  pub canonical_request : ModelRequest → String
  pub get_cycle_exploration : Db → ℕ → Result (Option CycleExploration)
  pub get_cycle_inbound : Db → ℕ → Result Bool

-- `except (ValueError, TypeError) as error: raise IncompatibleExecutiveContract`
abbrev pub value_errors {ℓ} : {R : Type ℓ} → Result R → Result R
value_errors (ok r) = ok r
value_errors (err Error.value_error) = err Error.incompatible
value_errors (err e) = err e

abbrev pub named : String → ContextSection → Bool
named name s = str_eq s.name name

-- The one section of a list that has just one.
abbrev pub single {ℓ} : {A : Type ℓ} → List A → Option A
single [] = none
single (x ∷ []) = some x
single (x ∷ y ∷ ys) = none

abbrev same_text : Rendering → CycleExploration → ContextSection → Bool
same_text g c s = str_eq (g.render_section s) (g.render_section (exploration_control g c))

abbrev control_agrees : Rendering → CycleExploration → Option ContextSection → Bool
control_agrees g c none = false
control_agrees g c (some s) = same_text g c s

unfoldable pub validate_exploration_control :
    Rendering → Option CycleExploration → List ContextSection → Result (Unit {0})
unfolding exploration_control
validate_exploration_control g none sections =
    raise_if (any (named "internal_exploration") sections) Error.value_error
validate_exploration_control g (some c) sections =
    raise_if (not (control_agrees g c (single (select (named "internal_exploration") sections))))
      Error.value_error

unfoldable pub validate_exploration_request :
    Rendering → Reading → Db → ℕ → ModelRequest → Result (Unit {0})
unfolding validate_exploration_control
validate_exploration_request g o db c q = value_errors (do
  cycle ← o.get_cycle_exploration db c
  validate_exploration_control g cycle q.context_sections)

-- The keyword arguments of `save_context`.
pub record SavedContext : Type 0 where
  pub turn_id : ℕ
  pub config_revision_id : ℕ
  pub request : ModelRequest
  pub rendered_context : String
  pub context_hash : String
  pub selected_refs : List Ref
  pub retrieval_reasons : List (String × String)
  pub estimated_input_tokens : ℕ
  pub adapter : String
  pub requested_model : String
  pub now : ℕ
  pub retain_until : Option ℕ

abbrev pub snapshot_row : ℕ → SavedContext → ContextSnapshot
snapshot_row id a = record {
  snapshot_id = id;
  turn_id = a.turn_id;
  config_revision_id = a.config_revision_id;
  runtime_contract_version = a.request.runtime_contract_version;
  model_adapter = a.adapter;
  requested_model = a.requested_model;
  request = a.request;
  rendered_context = a.rendered_context;
  content_hash = a.context_hash;
  selected_refs = a.selected_refs;
  retrieval_reasons = a.retrieval_reasons;
  estimated_input_tokens = a.estimated_input_tokens;
  created_at = a.now;
  retain_until = a.retain_until;
}

abbrev pub freezes : ℕ → ContextSnapshot → Bool
freezes t s = s.turn_id == t

-- The primary key, the unique turn, and the foreign key to the revisions.
unfoldable pub insert_snapshot : List RuntimeConfigRevision → ContextSnapshot → Db → Result Db
insert_snapshot configs s db = do
  raise_if
      (any (λ (t : ContextSnapshot). t.snapshot_id == s.snapshot_id) db.snapshots
        || any (freezes s.turn_id) db.snapshots
        || not (
            any (λ (c : RuntimeConfigRevision). c.config_revision_id == s.config_revision_id)
              configs))
      Error.integrity_error
  ok (record db { cognition = record db.cognition { snapshots = db.snapshots ++ s ∷ [] } })

unfoldable pub save_context :
    Rendering → Reading → List RuntimeConfigRevision → SavedContext → Db → Result Db
unfolding validate_exploration_request insert_snapshot
save_context g o configs a db = do
  turn ← require (find_turn a.turn_id db) Error.incompatible
  raise_if (not (a.request.turn_id == a.turn_id) || not (a.request.cycle_id == turn.cycle_id))
      Error.incompatible
  validate_exploration_request g o db turn.cycle_id a.request
  o.get_cycle_inbound db turn.cycle_id
  insert_snapshot configs (snapshot_row (new_id db).0 a) (new_id db).1

-- Both stored representations describe the same hashed request.
unfoldable pub check_stored : Rendering → Reading → ContextSnapshot → Result (Unit {0})
check_stored g o s = do
  raise_if (not (str_eq s.content_hash (g.hashing.digest s.rendered_context))) Error.value_error
  text ← require (o.canonical_text s.rendered_context) Error.value_error
  raise_if (not (str_eq text (o.canonical_request s.request))) Error.value_error

-- The protocol of the frozen configuration, whose columns agree with its content.
unfoldable pub frozen_protocol : Rendering → RuntimeConfigRevision → Result ℕ
frozen_protocol g config = value_errors (do
  protocol ← cognition_protocol_version config.sanitized_config
  hash ← behavior_hash g.hashing config.sanitized_config
  raise_if
      (not (config.config_schema_version == config.sanitized_config.config_schema_version)
        || not (str_eq config.content_hash hash))
      Error.value_error
  ok protocol)

abbrev is_control_category : ContextCategory → Bool
is_control_category ContextCategory.control = true
is_control_category _ = false

abbrev holds_text : String → String → Fields → Bool
holds_text key text f = elim (lookup key f) [ some (string s) ↦ str_eq s text | _ ↦ false ]

abbrev content_links : RuntimeConfigRevision → Content → Bool
content_links config (Content.text s) = false
content_links config (Content.fields f) =
    holds_text "config_revision_id" (uuid_text config.config_revision_id) f
    && holds_text "config_content_hash" config.content_hash f

abbrev control_links : RuntimeConfigRevision → Option ContextSection → Bool
control_links config none = false
control_links config (some s) = is_control_category s.category && content_links config s.content

-- Whether the one control names the configuration.
unfoldable pub names_configuration : RuntimeConfigRevision → ModelRequest → Bool
unfolding uuid_text
names_configuration config q =
    control_links config (single (select (named "runtime_control") q.context_sections))

unfoldable pub is_linked :
    ContextSnapshot → RuntimeConfigRevision → CognitionCycle → ℕ → ModelRequest → Bool
is_linked s config cycle t q =
    str_eq q.runtime_contract_version s.runtime_contract_version
    && q.turn_id == t
    && q.cycle_id == cycle.cycle_id
    && q.individual_id == cycle.individual_id
    && config.individual_id == cycle.individual_id
    && str_eq s.model_adapter config.sanitized_config.model.adapter
    && str_eq s.requested_model config.sanitized_config.model.requested_model

unfoldable load_frozen :
    Rendering
    → Reading
    → List RuntimeConfigRevision
    → Db
    → ℕ
    → ContextSnapshot
    → Result (Option ModelRequest)
unfolding check_stored frozen_protocol names_configuration is_linked validate_exploration_request
    parse_request validate_request_contract
load_frozen g o configs db t s = do
  check_stored g o s
  q ← value_errors (parse_request s.request)
  config ←
      require
        (find (λ (c : RuntimeConfigRevision). c.config_revision_id == s.config_revision_id) configs)
        Error.incompatible
  turn ← require (find_turn t db) Error.incompatible
  cycle ← require (find_cycle turn.cycle_id db) Error.incompatible
  protocol ← frozen_protocol g config
  validate_request_contract q (some config.config_schema_version) (some protocol)
  raise_if (not (names_configuration config q)) Error.incompatible
  raise_if (not (is_linked s config cycle t q)) Error.incompatible
  validate_exploration_request g o db cycle.cycle_id q
  o.get_cycle_inbound db cycle.cycle_id
  ok (some q)

unfoldable pub load_request :
    Rendering → Reading → List RuntimeConfigRevision → Db → ℕ → Result (Option ModelRequest)
unfolding load_frozen
load_request g o configs db t = elim (find (freezes t) db.snapshots) [
  | none ↦ ok none
  | some s ↦ load_frozen g o configs db t s
]
