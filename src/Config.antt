-- ===== src/Config.antt =====
-- The behaviour that a configuration revision retains: BehaviorConfiguration of
-- src/cognition/config/schema.py, with its validators, and `behavior_hash` of
-- src/cognition/config/revisions.py. A float is its 64-bit pattern; positive floats are ordered as
-- their patterns are. `execution` is absent in schema 1.
pub mod Revisions
use cognition.Prelude.{
  ℕ, Bool, true, false, not, ◌&&◌, ◌||◌, Option, none, some, String, ◌==◌, leb, ltb, if◌then◌else◌,
  ◌≡◌, sym, ap, ◌∙◌, Option-cases, &&-eq-true, Bool-cases, inl, inr, arith,
}
use cognition.Protocol.Ref.{nonempty}
use cognition.Perception.{is_finite}
use cognition.Store.Result.{Result, ok, err, Error, ◌>>=◌, >>=-elim}

pub record ModelConfig : Type 0 where
  pub adapter : String
  pub requested_model : String
  pub max_output_tokens : ℕ
  pub reasoning_effort : Option String

pub record AttentionConfig : Type 0 where
  pub context_budget_tokens : ℕ
  pub heartbeat_min_seconds : ℕ
  pub heartbeat_max_seconds : ℕ
  pub heartbeat_backoff_factor : ℕ

pub record RetentionConfig : Type 0 where
  pub default_payload_days : ℕ
  pub context_snapshot_days : ℕ

pub record BehaviorConfiguration : Type 0 where
  pub config_schema_version : ℕ
  pub model : ModelConfig
  pub attention : AttentionConfig
  pub retention : RetentionConfig
  pub sandbox_enabled : Bool
  pub execution : Option ℕ

abbrev optional_text : Option String → Bool
optional_text none = true
optional_text (some s) = nonempty s

abbrev valid_model : ModelConfig → Bool
valid_model m =
    nonempty m.adapter
    && nonempty m.requested_model
    && ltb 0 m.max_output_tokens
    && optional_text m.reasoning_effort

-- A finite float above zero: the sign bit is not set.
abbrev positive_seconds : ℕ → Bool
positive_seconds bits = is_finite bits && ltb 0 bits && ltb bits 9223372036854775808

-- The pattern of 1.0.
abbrev one_bits : ℕ
one_bits = 4607182418800017408

-- With the validator `validate_heartbeat_range`.
abbrev valid_attention : AttentionConfig → Bool
valid_attention a =
    ltb 0 a.context_budget_tokens
    && positive_seconds a.heartbeat_min_seconds
    && positive_seconds a.heartbeat_max_seconds
    && (positive_seconds a.heartbeat_backoff_factor && leb one_bits a.heartbeat_backoff_factor)
    && leb a.heartbeat_min_seconds a.heartbeat_max_seconds

abbrev execution_fits : ℕ → Option ℕ → Bool
execution_fits version none = version == 1
execution_fits version (some protocol) = version == 2 && protocol == 2

-- Whether the model of the version accepts it.
unfoldable pub valid_behavior : BehaviorConfiguration → Bool
unfolding is_finite
valid_behavior c =
    valid_model c.model
    && valid_attention c.attention
    && execution_fits c.config_schema_version c.execution

-- `parse_behavior_config(config.model_dump(warnings=False))`
unfoldable pub parse_behavior_config : BehaviorConfiguration → Result BehaviorConfiguration
unfolding valid_behavior
parse_behavior_config c = if valid_behavior c then ok c else err Error.value_error

abbrev protocol_of : BehaviorConfiguration → ℕ
protocol_of c = elim c.execution [ none ↦ 1 | some protocol ↦ protocol ]

unfoldable pub cognition_protocol_version : BehaviorConfiguration → Result ℕ
unfolding parse_behavior_config
cognition_protocol_version c = do checked ← parse_behavior_config c; ok (protocol_of checked)

-- What the revisions take from `json` and `hashlib`: the canonical text of a behaviour, and SHA-256.
pub record Hashing : Type 0 where
  pub canonical_json : BehaviorConfiguration → String
  pub digest : String → String

unfoldable pub behavior_hash : Hashing → BehaviorConfiguration → Result String
unfolding parse_behavior_config
behavior_hash h c = do checked ← parse_behavior_config c; ok (h.digest (h.canonical_json checked))

pub parse_behavior_config-ok :
    (c : BehaviorConfiguration) {d : BehaviorConfiguration}
    → parse_behavior_config c ≡ ok d
    → (d ≡ c) × (valid_behavior c ≡ true)
unfolding parse_behavior_config
parse_behavior_config-ok c {d} h = elim (Bool-cases (valid_behavior c)) [
  | inl e ↦ let same : c ≡ d = cc (rw e at h) in (sym same, e)
  | inr e ↦ absurd (cc (rw e at h))
]

execution-protocol :
    (version : ℕ) (c : BehaviorConfiguration)
    → execution_fits version c.execution ≡ true
    → protocol_of c ≡ version
execution-protocol version c h = elim (Option-cases c.execution) [
  | inl one ↦ ground (arith, one)
  | inr (protocol, two) ↦ ground (arith, two)
]

-- A valid behaviour's executive protocol is its schema's version.
pub protocol_of-schema :
    (c : BehaviorConfiguration) {n : ℕ}
    → cognition_protocol_version c ≡ ok n
    → n ≡ c.config_schema_version
unfolding cognition_protocol_version valid_behavior
protocol_of-schema c {n} h = >>=-elim (parse_behavior_config c) _ h λ d e h1.
    let parsed = parse_behavior_config-ok c {d = d} e in
    let fits : execution_fits c.config_schema_version c.execution ≡ true =
      (&&-eq-true (valid_model c.model && valid_attention c.attention) _ parsed.1).1 in
    let same : protocol_of d ≡ n = cc h1 in
    sym same ∙ ap protocol_of parsed.0 ∙ execution-protocol c.config_schema_version c fits
