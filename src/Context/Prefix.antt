-- ===== src/Context/Prefix.antt =====
-- What every compiled request holds (`compile_request` of src/cognition/runtime/context.py).
use cognition.Prelude.{
  ℕ, ◌≤◌, ◌≡◌, refl, sym, ◌∙◌, ap, true, false, ◌&&◌, Option, none, some, String, length, List, [],
  ◌∷◌, ◌++◌, arith, Bool-cases, inl, inr,
}
use cognition.Protocol.Ref.{nonempty}
use cognition.Protocol.Model.{ModelRequest, ContextSection, supported_contract}
use cognition.Protocol.Contract.{
  parse_request, validate_request_contract, parse_request-ok, validate_request_contract-ok,
}
use cognition.Store.Result.{ok, Error, raise_if, >>=-elim, raise_if-eq-ok}
use cognition.Config.{cognition_protocol_version}
use cognition.Context.{
  AttentionCandidate, PersonalAttention, LexicalSelection, CompiledContext, Rendering, estimate,
  with_sections,
}
use cognition.Context.Control.{ordered_wakes, base_sections}
use cognition.Context.Events.{event_candidates}
use cognition.Context.Ranked.{Ranked}
use cognition.Context.Pack.{append_section, exceeds}
use cognition.Context.Attention.{with_query, query_section, summary_section}
use cognition.Context.Budget.{sections_of}
use cognition.Context.Budget.Compiled.{compile_attention-Compiled, Compiled, exceeds-false}
use cognition.Context.Compile.{
  CompileInput, Plain, compile_request, compile_rest, base_request, exploration_sections,
  is_attentive, foreign_input, has_sections, offer, offer_personal, offer_events, plainly,
  plain_start, attention_or_none,
}

-- A result that extends a request: sections are added behind, nothing else changes, the text, the
-- hash and the estimate are those of its request, and the estimate is within the budget.
pub record Extends (g : Rendering) (q : ModelRequest) (r : CompiledContext) : Type 0 where
  pub added : List ContextSection
  pub request : r.request ≡ with_sections q (q.context_sections ++ added)
  pub rendered : r.rendered_context ≡ g.render_request r.request
  pub hashed : r.content_hash ≡ g.hashing.digest r.rendered_context
  pub estimated : r.estimated_input_tokens ≡ estimate r.rendered_context
  pub fits : r.estimated_input_tokens ≤ q.input_token_budget

-- The loops' variables: sections added behind, within the budget.
record Grown (g : Rendering) (q : ModelRequest) (p : Plain) : Type 0 where
  added : List ContextSection
  request : p.request ≡ with_sections q (q.context_sections ++ added)
  fits : exceeds g p.request ≡ false

append_append : (xs ys zs : List ContextSection) → (xs ++ ys) ++ zs ≡ xs ++ (ys ++ zs)
append_append [] ys zs = refl
append_append (x ∷ xs) ys zs = ap (λ r. x ∷ r) (append_append xs ys zs)

append_none : (xs : List ContextSection) → xs ++ [] ≡ xs
append_none [] = refl
append_none (x ∷ xs) = ap (λ r. x ∷ r) (append_none xs)

module _ (g : Rendering) (q : ModelRequest) where
  offer-Grown :
      (reason : String) (s : ContextSection) (p : Plain)
      → Grown g q p
      → Grown g q (offer g reason s p)
  unfolding offer
  offer-Grown reason s p h = elim (Bool-cases (exceeds g (append_section p.request s))) [
    | inl full ↦ rw full h
    | inr room ↦ rw room (record {
      added = h.added ++ s ∷ [];
      request =
          rw h.request (ap (with_sections q) (append_append q.context_sections h.added (s ∷ [])));
      fits = room;
    })
  ]

  offer_personal-Grown :
      (ss : List ContextSection) (p : Plain) → Grown g q p → Grown g q (offer_personal g ss p)
  unfolding offer_personal
  offer_personal-Grown [] p h = h
  offer_personal-Grown (s ∷ ss) p h =
      offer_personal-Grown ss (offer g "personal_state" s p) (offer-Grown "personal_state" s p h)

  offer_events-Grown :
      (cs : List AttentionCandidate) (p : Plain) → Grown g q p → Grown g q (offer_events g cs p)
  unfolding offer_events
  offer_events-Grown [] p h = h
  offer_events-Grown (c ∷ cs) p h =
      offer_events-Grown cs (offer g c.reason c.section p) (offer-Grown c.reason c.section p h)

  plain-Extends : (p : Plain) → Grown g q p → Extends g q (plainly g p)
  plain-Extends p h = record {
    added = h.added;
    request = h.request;
    rendered = refl;
    hashed = refl;
    estimated = refl;
    fits = omega (
      arith,
      exceeds-false g p.request h.fits,
      ap (λ (r : ModelRequest). r.input_token_budget) h.request,
    );
  }

  query_front :
      (l : Option LexicalSelection)
      → (front : List ContextSection) × ((with_query q l).context_sections
          ≡ q.context_sections ++ front)
  unfolding with_query
  query_front none = ([], sym (append_none q.context_sections))
  query_front (some l) = elim (Bool-cases (nonempty l.effective_query)) [
    | inl asked ↦ (query_section l ∷ [], rw asked refl)
    | inr silent ↦ ([], rw silent (sym (append_none q.context_sections)))
  ]

  Compiled-Extends :
      (a : PersonalAttention) (l : Option LexicalSelection) (cs : List Ranked) {r : CompiledContext}
      → Compiled g q a l cs r
      → Extends g q r
  Compiled-Extends a l cs {r} h =
      let front = query_front l in
      let rest =
        summary_section a l (length cs) (length h.chosen) h.omitted ∷ sections_of h.chosen in
      record {
        added = front.0 ++ rest;
        request =
            h.sections
            ∙ ap (λ xs. with_sections q (xs ++ rest)) front.1
            ∙ ap (with_sections q) (append_append q.context_sections front.0 rest);
        rendered = ap (λ (x : CompiledContext). x.rendered_context) h.rendered;
        hashed =
            ap (λ (x : CompiledContext). x.content_hash) h.rendered
            ∙ sym (ap (λ (x : CompiledContext). g.hashing.digest x.rendered_context) h.rendered);
        estimated =
            ap (λ (x : CompiledContext). x.estimated_input_tokens) h.rendered
            ∙ sym (ap (λ (x : CompiledContext). estimate x.rendered_context) h.rendered);
        fits = omega (
          arith,
          h.fits,
          ap (λ (x : CompiledContext). x.estimated_input_tokens) h.rendered
              ∙ sym (ap (λ (x : CompiledContext). estimate x.rendered_context) h.rendered),
        );
      }

  compile_rest-Extends :
      (x : CompileInput) {r : CompiledContext}
      → exceeds g q ≡ false
      → compile_rest g x q ≡ ok r
      → Extends g q r
  unfolding compile_rest
  compile_rest-Extends x {r} room h = elim (Bool-cases (is_attentive x)) [
    | inl attentive ↦
        let evidence = event_candidates g x.events x.wakes x.focus in
        let done =
          compile_attention-Compiled g q (attention_or_none x.attention) evidence x.lexical {r = r}
            (rw attentive at h) in
        Compiled-Extends (attention_or_none x.attention) x.lexical done.0 {r = r} done.2
    | inr plain ↦
        let evidence = event_candidates g x.events x.wakes x.focus in
        let start : Grown g q (plain_start q) = record {
          added = [];
          request = rw (append_none q.context_sections) refl;
          fits = room;
        } in
        let last =
          offer_events-Grown evidence (offer_personal g x.personal_sections (plain_start q))
            (offer_personal-Grown x.personal_sections (plain_start q) start) in
        let same : plainly g
              (offer_events g evidence (offer_personal g x.personal_sections (plain_start q)))
            ≡ r =
          cc (rw plain at h) in
        rw (sym same) (
          plain-Extends
            (offer_events g evidence (offer_personal g x.personal_sections (plain_start q))) last)
  ]

-- What `compile_request` returns for an input.
pub record Sound (g : Rendering) (x : CompileInput) (r : CompiledContext) : Type 0 where
  pub protocol : ℕ
  pub configured : cognition_protocol_version x.config.sanitized_config ≡ ok protocol
  pub schema : x.config.config_schema_version ≡ protocol
  pub exploring : List ContextSection
  pub base : ModelRequest
  pub base_is :
      base
      ≡ base_request x protocol (
          base_sections g x.individual x.governance x.config protocol
            (ordered_wakes x.wakes)
            x.focus
            x.present_time
          ++ exploring)
  pub exploring_is : exploration_sections g x x.exploration ≡ ok exploring
  pub extends : Extends g base r
  pub supported : supported_contract base ≡ true
  pub owned : foreign_input x ≡ false

-- Where compile_request returns: every snapshot belongs to the individual; the request is the
-- mandatory one, with its sections in front and in their order, extended by further sections and
-- by nothing else; its contract is supported; the text, hash and estimate are its own; and the
-- estimate is within the configured budget.
pub compile_request-Sound :
    (g : Rendering) (x : CompileInput) {r : CompiledContext}
    → compile_request g x ≡ ok r
    → Sound g x r
unfolding compile_request
compile_request-Sound g x {r} h =
    >>=-elim (raise_if (is_attentive x && has_sections x.personal_sections) Error.value_error) _ h
      λ _ _ h1. >>=-elim (raise_if (foreign_input x) Error.value_error) _ h1 λ _ own h2.
        >>=-elim (cognition_protocol_version x.config.sanitized_config) _ h2 λ protocol e3 h3.
          >>=-elim (exploration_sections g x x.exploration) _ h3 λ exploring e4 h4.
            >>=-elim (parse_request (mandatory protocol exploring)) _ h4 λ q e5 h5.
              >>=-elim
                (validate_request_contract q (some x.config.config_schema_version) (some protocol))
                _ h5
                λ _ e6 h6. >>=-elim (raise_if (exceeds g q) Error.budget_exceeded) _ h6 λ _ e7 h7.
                  let fits =
                    validate_request_contract-ok q x.config.config_schema_version protocol e6 in
                  record {
                    protocol = protocol;
                    schema = fits.schema ∙ sym fits.protocol;
                    configured = e3;
                    exploring = exploring;
                    base = q;
                    base_is = parse_request-ok (mandatory protocol exploring) {q' = q} e5;
                    exploring_is = e4;
                    extends =
                        compile_rest-Extends g q x {r = r}
                          (raise_if-eq-ok (exceeds g q) Error.budget_exceeded e7) h7;
                    supported = fits.supported;
                    owned = raise_if-eq-ok (foreign_input x) Error.value_error own;
                  }
  where
    mandatory : ℕ → List ContextSection → ModelRequest
    mandatory protocol exploring = base_request x protocol (
        base_sections g x.individual x.governance x.config protocol (ordered_wakes x.wakes) x.focus
          x.present_time
        ++ exploring)
