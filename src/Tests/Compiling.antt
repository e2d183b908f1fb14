-- ===== src/Tests/Compiling.antt =====
-- A sample of what the context compiler takes, and inputs that it compiles. A request is rendered as
-- ten characters for each of its sections.
use Prim.Native.String.{◌++◌ as text_append}
use cognition.Prelude.{
  ℕ, zero, suc, ◌+◌, ◌≡◌, refl, ap, true, false, none, some, String, List, [], ◌∷◌, ◌++◌, arith,
  length,
}
use cognition.Prelude.Int.{pos}
use cognition.Json.{Fields, string, object, end, field}
use cognition.Protocol.Operations.{Content}
use cognition.Protocol.Model.{ModelRequest, ContextSection, ContextCategory}
use cognition.Store.Result.{Result, ok, err}
use cognition.Store.Rows.{Event, Payload, WakeKind, Provenance, internal_content}
use cognition.Wakes.{WakeV1}
use cognition.Config.{BehaviorConfiguration, Hashing}
use cognition.Config.Revisions.{RuntimeConfigRevision}
use cognition.Context.{
  StoredEvent, AttentionCandidate, PersonalAttention, LexicalSelection, MatchContent,
  CompiledContext, Rendering, estimate,
}
use cognition.Context.Attention.{summary_section, compiled}
use cognition.Context.Budget.Total.{Widths}
use cognition.Context.Compile.{CompileInput}
use cognition.Context.Ranked.{Ranked}
use cognition.Tests.Samples.{request, person, governed}

abbrev pad : ℕ → String
pad zero = ""
pad (suc n) = text_append "##########" (pad n)

abbrev pub hashing : Hashing
hashing = record { canonical_json = λ c. c.model.adapter; digest = λ s. text_append "#" s }

abbrev pub sample : Rendering
sample = record {
  render_request = λ q. pad (length q.context_sections);
  render_section = λ s. s.name;
  hashing = hashing;
  total_seconds = λ n. n;
  isoformat = λ n. "1970-01-01T00:00:00+00:00";
  instant_of = λ s. some (pos 5);
  wake_json = λ w. string w.purpose;
  focus_json = λ f. string f.summary;
  payload_json = λ p. end;
}

sections-length :
    (xs ys : List ContextSection) (s t : ContextSection)
    → length (xs ++ s ∷ ys) ≡ length (xs ++ t ∷ ys)
sections-length [] ys s t = refl
sections-length (x ∷ xs) ys s t = ap suc (sections-length xs ys s t)

pub sample-Widths : Widths sample
unfolding Widths estimate
sample-Widths q xs ys a l n selected omitted h = omega (
  arith,
  ap (λ k. estimate (pad k))
      (sections-length xs ys (summary_section a l n selected omitted) (summary_section a l n n n)),
)

abbrev pub section : String → String → ℕ → Fields → ContextSection
section name kind id item = record {
  name = name;
  category = ContextCategory.memory;
  content = Content.fields (field "item" (object item) end);
  refs = record { kind = kind; id = id } ∷ [];
}

abbrev pub candidate : ContextSection → String → AttentionCandidate
candidate s reason = record { section = s; reason = reason; mandatory = false; search_rank = none }

abbrev walk_goal : ContextSection
walk_goal = section "goal:3" "goal" 3 (field "status" (string "active") end)

abbrev promise : ContextSection
promise = section "commitment:4" "commitment" 4 (field "due_at" (string "soon") end)

-- A recent goal, and a commitment that is both recent and urgent.
abbrev pub noticed : PersonalAttention
noticed = record {
  candidates =
      candidate walk_goal "recent_personal"
      ∷ candidate promise "recent_personal"
      ∷ record (candidate promise "urgent_commitment") { mandatory = true }
      ∷ [];
  direct_refs_truncated = 0;
  unresolved_direct_refs = 0;
  linked_refs_truncated = 0;
  urgent_scan_truncated = false;
}

-- The same without the urgent one.
abbrev pub glanced : PersonalAttention
glanced = record noticed {
  candidates = candidate walk_goal "recent_personal" ∷ candidate promise "recent_personal" ∷ [];
}

abbrev pub happened : ℕ → String → Event
happened id source = record {
  event_id = id;
  individual_id = 1;
  event_type = "note.taken";
  occurred_at = some 3;
  observed_at = 3;
  recorded_at = 3;
  source_kind = source;
  source_id = none;
  source_binding_id = some 77;
  actor_entity_id = some 78;
  causation_event_id = none;
  correlation_id = none;
  subject = none;
  provenance = Provenance.runtime_contract "3.1";
  runtime_version = "0.1.0";
  content = record (internal_content (Payload.other end)) { text = some "a secret" };
}

abbrev pub stored : Event → StoredEvent
stored e = record { envelope = e; event_sequence = 12 }

abbrev pub asked : WakeV1
asked = record {
  wake_id = 2;
  individual_id = 1;
  kind = WakeKind.routine;
  due_at = 8;
  purpose = "look around";
  cause_event_id = some 30;
  context_refs = [];
  coalesce_key = none;
}

-- Terms that matched a past event, the one of a wake.
abbrev pub recalled : LexicalSelection
recalled = record {
  matches =
      record {
        content = MatchContent.event (stored (happened 31 "connector"));
        rank = 4607182418800017408;
      }
      ∷ [];
  query_terms = "walk" ∷ [];
  query_sources = "wake" ∷ [];
  effective_query = "'walk'";
}

abbrev pub behavior : ℕ → BehaviorConfiguration
behavior budget = record {
  config_schema_version = 1;
  model = record {
    adapter = "fixture";
    requested_model = "model";
    max_output_tokens = 100;
    reasoning_effort = none;
  };
  attention = record {
    context_budget_tokens = budget;
    heartbeat_min_seconds = 4607182418800017408;
    heartbeat_max_seconds = 4611686018427387904;
    heartbeat_backoff_factor = 4611686018427387904;
  };
  retention = record { default_payload_days = 1; context_snapshot_days = 1 };
  sandbox_enabled = false;
  execution = none;
}

abbrev pub revision : ℕ → RuntimeConfigRevision
revision budget = record {
  config_revision_id = 90;
  individual_id = 1;
  config_schema_version = 1;
  sanitized_config = behavior budget;
  content_hash = "#fixture";
  created_at = 1;
  activated_at = some 1;
  superseded_at = none;
}

-- A compilation for the turn of the sample cycle.
abbrev pub compilation : ℕ → CompileInput
compilation budget = record {
  individual = person;
  governance = governed;
  config = revision budget;
  wakes = asked ∷ [];
  events = stored (happened 30 "connector") ∷ [];
  focus = none;
  request_id = 50;
  cycle_id = 5;
  turn_id = 6;
  present_time = 10;
  personal_sections = [];
  attention = some noticed;
  lexical = some recalled;
  exploration = none;
}

abbrev nothing : CompiledContext
nothing = compiled sample request []

-- The context of a result.
abbrev pub compiled_of : Result CompiledContext → CompiledContext
compiled_of (ok r) = r
compiled_of (err e) = nothing

abbrev pub ranked_of : Result (List Ranked) → List Ranked
ranked_of (ok rs) = rs
ranked_of (err e) = []

-- The sample request with room for so many sections.
abbrev pub roomy : ℕ → ModelRequest
roomy n = record request { input_token_budget = 256 + n }
