-- ===== src/Context/Compile.antt =====
-- `compile_request` of src/cognition/runtime/context.py: the state that every request holds, then
-- personal and recent state as far as the budget allows.
use cognition.Prelude.{
  ℕ, Bool, true, false, not, ◌&&◌, ◌||◌, Option, none, some, String, List, [], ◌∷◌, ◌++◌, ◌==◌, any,
  is_some, if◌then◌else◌,
}
use cognition.Json.{Fields, string, end, field}
use cognition.Protocol.Ref.{Ref}
use cognition.Protocol.Decision.{CurrentFocus}
use cognition.Protocol.Model.{ModelRequest, ContextSection}
use cognition.Protocol.Contract.{parse_request, validate_request_contract}
use cognition.Store.Result.{Result, ok, Error, ◌>>=◌, ◌>>◌, raise_if}
use cognition.Store.Rows.{Individual, Governance}
use cognition.Wakes.{WakeV1}
use cognition.Config.{cognition_protocol_version}
use cognition.Config.Revisions.{RuntimeConfigRevision}
use cognition.Context.{
  StoredEvent, AttentionCandidate, PersonalAttention, LexicalSelection, LexicalMatch, MatchContent,
  CompiledContext, Rendering, estimate, ref_key,
}
use cognition.Context.Control.{
  CycleExploration, ordered_wakes, base_sections, exploration_control, output_schema_of,
}
use cognition.Context.Events.{event_candidates}
use cognition.Context.Pack.{append_section, exceeds, put}
use cognition.Context.Attention.{compile_attention, mandatory_reasons}

-- The keyword arguments of `compile_request`.
pub record CompileInput : Type 0 where
  pub individual : Individual
  pub governance : Governance
  pub config : RuntimeConfigRevision
  pub wakes : List WakeV1
  pub events : List StoredEvent
  pub focus : Option CurrentFocus
  pub request_id : ℕ
  pub cycle_id : ℕ
  pub turn_id : ℕ
  pub present_time : ℕ
  pub personal_sections : List ContextSection
  pub attention : Option PersonalAttention
  pub lexical : Option LexicalSelection
  pub exploration : Option CycleExploration

abbrev pub has_sections : List ContextSection → Bool
has_sections [] = false
has_sections (s ∷ ss) = true

abbrev pub is_attentive : CompileInput → Bool
is_attentive x = is_some x.attention || is_some x.lexical

abbrev foreign_match : ℕ → LexicalMatch → Bool
foreign_match i m = elim m.content [
  | MatchContent.section s ↦ false
  | MatchContent.event e ↦ not (e.envelope.individual_id == i)
]

abbrev foreign_lexical : ℕ → Option LexicalSelection → Bool
foreign_lexical i none = false
foreign_lexical i (some l) = any (foreign_match i) l.matches

-- Whether a snapshot belongs to another individual.
abbrev pub foreign_input : CompileInput → Bool
foreign_input x =
    let i = x.individual.individual_id in
    not (x.governance.individual_id == i)
    || not (x.config.individual_id == i)
    || any (λ (w : WakeV1). not (w.individual_id == i)) x.wakes
    || any (λ (e : StoredEvent). not (e.envelope.individual_id == i)) x.events
    || foreign_lexical i x.lexical

-- `[wake.wake_id for wake in ordered_wakes] != [grant.wake_id]`
abbrev only_wake : ℕ → List WakeV1 → Bool
only_wake id [] = false
only_wake id (w ∷ []) = w.wake_id == id
only_wake id (w ∷ v ∷ vs) = false

unfoldable pub exploration_sections :
    Rendering → CompileInput → Option CycleExploration → Result (List ContextSection)
unfolding exploration_control
exploration_sections g x none = ok []
exploration_sections g x (some c) = do
  raise_if
      (not (c.cycle_id == x.cycle_id)
        || not (c.grant.individual_id == x.individual.individual_id)
        || not (only_wake c.grant.wake_id (ordered_wakes x.wakes)))
      Error.value_error
  ok (exploration_control g c ∷ [])

abbrev inference_preferences : Option String → Option Fields
inference_preferences none = none
inference_preferences (some effort) = some (field "reasoning_effort" (string effort) end)

-- The mandatory request.
unfoldable pub base_request : CompileInput → ℕ → List ContextSection → ModelRequest
base_request x protocol sections =
    let behavior = x.config.sanitized_config in
    record {
      schema_version = protocol;
      request_id = x.request_id;
      individual_id = x.individual.individual_id;
      cycle_id = x.cycle_id;
      turn_id = x.turn_id;
      cognition_protocol_version = protocol;
      runtime_contract_version = if protocol == 1 then "3.1" else "3.2";
      present_time = x.present_time;
      context_sections = sections;
      capabilities = [];
      output_schema = output_schema_of protocol;
      input_token_budget = behavior.attention.context_budget_tokens;
      output_token_budget = behavior.model.max_output_tokens;
      inference_preferences = inference_preferences behavior.model.reasoning_effort;
    }

-- The variables of the loops over personal sections and events.
pub record Plain : Type 0 where
  pub request : ModelRequest
  pub reasons : List (String × String)

abbrev put_all : String → List Ref → List (String × String) → List (String × String)
put_all reason [] reasons = reasons
put_all reason (r ∷ rs) reasons = put_all reason rs (put (ref_key r) reason reasons)

-- One pass of a loop: a section that does not fit is left out. An event's section has one reference,
-- so that to put all of them is to put the first.
unfoldable pub offer : Rendering → String → ContextSection → Plain → Plain
unfolding exceeds ref_key
offer g reason s p =
    if exceeds g (append_section p.request s)
    then p
    else record { request = append_section p.request s; reasons = put_all reason s.refs p.reasons }

unfoldable pub offer_personal : Rendering → List ContextSection → Plain → Plain
unfolding offer
offer_personal g [] p = p
offer_personal g (s ∷ ss) p = offer_personal g ss (offer g "personal_state" s p)

unfoldable pub offer_events : Rendering → List AttentionCandidate → Plain → Plain
unfolding offer
offer_events g [] p = p
offer_events g (c ∷ cs) p = offer_events g cs (offer g c.reason c.section p)

-- Every reference of every section, in order.
abbrev pub all_refs : List ContextSection → List Ref
all_refs [] = []
all_refs (s ∷ ss) = s.refs ++ all_refs ss

abbrev pub plainly : Rendering → Plain → CompiledContext
plainly g p = record {
  request = p.request;
  rendered_context = g.render_request p.request;
  content_hash = g.hashing.digest (g.render_request p.request);
  selected_refs = all_refs p.request.context_sections;
  retrieval_reasons = p.reasons;
  estimated_input_tokens = estimate (g.render_request p.request);
}

abbrev pub plain_start : ModelRequest → Plain
plain_start q = record { request = q; reasons = mandatory_reasons q.context_sections [] }

abbrev pub attention_or_none : Option PersonalAttention → PersonalAttention
attention_or_none (some a) = a
attention_or_none none = record {
  candidates = [];
  direct_refs_truncated = 0;
  unresolved_direct_refs = 0;
  linked_refs_truncated = 0;
  urgent_scan_truncated = false;
}

-- The part of `compile_request` that follows the mandatory request.
unfoldable pub compile_rest : Rendering → CompileInput → ModelRequest → Result CompiledContext
unfolding compile_attention event_candidates offer_personal offer_events ref_key estimate
compile_rest g x q =
    let evidence = event_candidates g x.events x.wakes x.focus in
    if is_attentive x
    then compile_attention g q (attention_or_none x.attention) evidence x.lexical
    else ok
        (plainly g (offer_events g evidence (offer_personal g x.personal_sections (plain_start q))))

unfoldable pub compile_request : Rendering → CompileInput → Result CompiledContext
unfolding exploration_sections base_sections base_request parse_request validate_request_contract
    exceeds compile_rest cognition_protocol_version
compile_request g x = do
  raise_if (is_attentive x && has_sections x.personal_sections) Error.value_error
  raise_if (foreign_input x) Error.value_error
  protocol ← cognition_protocol_version x.config.sanitized_config
  exploring ← exploration_sections g x x.exploration
  let base =
      base_sections g x.individual x.governance x.config protocol (ordered_wakes x.wakes) x.focus
        x.present_time
  q ← parse_request (base_request x protocol (base ++ exploring))
  validate_request_contract q (some x.config.config_schema_version) (some protocol)
  raise_if (exceeds g q) Error.budget_exceeded
  compile_rest g x q
