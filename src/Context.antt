-- ===== src/Context.antt =====
-- What the context compiler takes and gives: AttentionCandidate and PersonalAttention of
-- src/cognition/domain/attention.py, the lexical selection of src/cognition/stores/lexical.py, and
-- CompiledContext, `_estimate` and `_ref_key` of src/cognition/runtime/context.py.
pub mod Order
pub mod Ranked
pub mod Pools
pub mod Events
pub mod Birth
pub mod Control
pub mod Compile
pub mod Prefix
pub mod Pack
pub mod Attention
pub mod Budget
use Prim.Native.Char.{Char}
use Prim.Native.String.{len, char_at, ◌++◌ as text_append}
use cognition.Prelude.{
  ℕ, zero, suc, ◌+◌, ◌/◌, ◌%◌, ◌^◌, Bool, Option, none, some, String, List, ◌≡◌, str_eq,
  if◌then◌else◌,
}
use cognition.Prelude.Int.{ℤ}
use cognition.Json.{Json, Fields, end, field}
use cognition.Protocol.Ref.{Ref}
use cognition.Protocol.Decision.{CurrentFocus}
use cognition.Protocol.Model.{ModelRequest, ContextSection}
use cognition.Store.Rows.{Event, Payload}
use cognition.Wakes.{WakeV1}
use cognition.Config.{Hashing}

-- An event as `load_event` returns it.
pub record StoredEvent : Type 0 where
  pub envelope : Event
  pub event_sequence : ℕ

-- A search rank is a 64-bit pattern.
pub record AttentionCandidate : Type 0 where
  pub section : ContextSection
  pub reason : String
  pub mandatory : Bool
  pub search_rank : Option ℕ

pub record PersonalAttention : Type 0 where
  pub candidates : List AttentionCandidate
  pub direct_refs_truncated : ℕ
  pub unresolved_direct_refs : ℕ
  pub linked_refs_truncated : ℕ
  pub urgent_scan_truncated : Bool

pub data MatchContent : Type 0 where
  section : ContextSection → MatchContent
  event : StoredEvent → MatchContent

pub record LexicalMatch : Type 0 where
  pub content : MatchContent
  pub rank : ℕ

pub record LexicalSelection : Type 0 where
  pub matches : List LexicalMatch
  pub query_terms : List String
  pub query_sources : List String
  pub effective_query : String

pub record CompiledContext : Type 0 where
  pub request : ModelRequest
  pub rendered_context : String
  pub content_hash : String
  pub selected_refs : List Ref
  pub retrieval_reasons : List (String × String)
  pub estimated_input_tokens : ℕ

-- What the compiler takes from the pydantic models, from `json` and from `datetime`: the texts of a
-- request and of a section, the canonical texts and digests, moments as texts and back (microseconds
-- since 1970), a duration in seconds as a float, and the JSON of contracts.
pub record Rendering : Type 0 where
  pub render_request : ModelRequest → String
  pub render_section : ContextSection → String
  pub hashing : Hashing
  pub total_seconds : ℕ → ℕ
  pub isoformat : ℕ → String
  pub instant_of : String → Option ℤ
  pub wake_json : WakeV1 → Json
  pub focus_json : CurrentFocus → Json
  pub payload_json : Payload → Fields

abbrev pub framing_reserve_tokens : ℕ
framing_reserve_tokens = 256

-- `_estimate`: the bytes of the UTF-8, and a reserve
unfoldable pub estimate : String → ℕ
estimate rendered = len rendered + framing_reserve_tokens

-- Digits of the base sixteen in front of a text, the last k of a number.
unfoldable pub hex : ℕ → ℕ → String → String
hex zero n rest = rest
hex (suc k) n rest = hex k (n / 16) (String.◌∷◌ (char_at "0123456789abcdef" (n % 16)) rest)

-- `str(UUID)`
unfoldable pub uuid_text : ℕ → String
unfolding hex
uuid_text n = hex 8 (n / 16 ^ 24) (
    text_append "-" (
      hex 4 (n / 16 ^ 20) (
        text_append "-" (
          hex 4 (n / 16 ^ 16)
            (text_append "-" (hex 4 (n / 16 ^ 12) (text_append "-" (hex 12 n ""))))))))

-- `_ref_key`
unfoldable pub ref_key : Ref → String
unfolding uuid_text
ref_key ref = text_append ref.kind (text_append ":" (uuid_text ref.id))

abbrev pub lookup : String → Fields → Option Json
lookup key end = none
lookup key (field k v rest) = if str_eq k key then some v else lookup key rest

-- `request.model_copy(update={"context_sections": [*request.context_sections, section]})`
abbrev pub with_sections : ModelRequest → List ContextSection → ModelRequest
with_sections q sections = record q { context_sections = sections }
