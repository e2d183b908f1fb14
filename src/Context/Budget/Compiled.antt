-- ===== src/Context/Budget/Compiled.antt =====
-- A compiled attention from end to end (`_compile_attention` of src/cognition/runtime/context.py).
use cognition.Prelude.{
  ℕ, ◌+◌, ◌≤◌, ◌≡◌, refl, sym, ◌∙◌, ap, Bool, true, false, List, [], ◌∷◌, ◌++◌, arith, Option, none,
  some, length, map, count, Bool-cases, inl, inr,
}
use cognition.Protocol.Model.{ModelRequest, ContextSection}
use cognition.Protocol.Ref.{nonempty}
use cognition.Store.Result.{ok, Error, raise_if, >>=-elim, raise_if-eq-ok}
use cognition.Context.{
  AttentionCandidate, PersonalAttention, LexicalSelection, CompiledContext, Rendering, estimate,
  with_sections,
}
use cognition.Context.Ranked.{Ranked}
use cognition.Context.Pack.{Packing, exceeds, arrange, pack_all, count-arrange}
use cognition.Context.Attention.{
  compile_attention, gather, with_query, start, finished, summary_section, set_at, compiled,
}
use cognition.Context.Budget.{Selection, sections_of, is_mandatory, pack_all-Selection}

set_at-length :
    (s t : ContextSection) (xs ys : List ContextSection)
    → set_at (length xs) s ((xs ++ t ∷ []) ++ ys) ≡ xs ++ s ∷ ys
set_at-length s t [] ys = refl
set_at-length s t (x ∷ xs) ys = ap (λ r. x ∷ r) (set_at-length s t xs ys)

length-count {ℓ} : {A : Type ℓ} (xs : List A) → length xs ≡ count (λ _. true) xs
length-count [] = refl
length-count (x ∷ xs) = omega (arith, length-count xs)

count-map {ℓ κ} :
    {A : Type ℓ} {B : Type κ} (p : B → Bool) (f : A → B) (xs : List A)
    → count p (map f xs) ≡ count (λ x. p (f x)) xs
count-map p f [] = refl
count-map p f (x ∷ xs) = ground (arith, count-map p f xs)

pub with_query-sections :
    (q : ModelRequest) (l : Option LexicalSelection) (xs : List ContextSection)
    → with_sections (with_query q l) xs ≡ with_sections q xs
unfolding with_query
with_query-sections q none xs = refl
with_query-sections q (some l) xs = elim (Bool-cases (nonempty l.effective_query)) [
  | inl given ↦ rw given refl
  | inr empty ↦ rw empty refl
]

pub exceeds-false :
    (g : Rendering) (q : ModelRequest)
    → exceeds g q ≡ false
    → estimate (g.render_request q) ≤ q.input_token_budget
unfolding exceeds estimate
exceeds-false g q h = ground arith

abbrev pub offered : List Ranked → List AttentionCandidate
offered rs = map (λ (r : Ranked). r.candidate) (arrange rs)

pub count-offered :
    (p : AttentionCandidate → Bool) (rs : List Ranked)
    → count p (offered rs) ≡ count (λ (r : Ranked). p r.candidate) rs
count-offered p rs =
    count-map p (λ (r : Ranked). r.candidate) (arrange rs)
    ∙ count-arrange (λ (r : Ranked). p r.candidate) rs

length-offered : (rs : List Ranked) → length (offered rs) ≡ length rs
length-offered rs = length-count (offered rs) ∙ count-offered (λ _. true) rs ∙ sym (length-count rs)

-- The summary gives way to the one with the true counters.
summary-replaced :
    (q : ModelRequest) (t t' : ContextSection) (xs : List ContextSection) (q' : ModelRequest)
    → q' ≡ with_sections q ((q.context_sections ++ t ∷ []) ++ xs)
    → with_sections q' (set_at (length q.context_sections) t' q'.context_sections)
      ≡ with_sections q (q.context_sections ++ t' ∷ xs)
summary-replaced q t t' xs q' e =
    rw e (ap (with_sections q) (set_at-length t' t q.context_sections xs))

-- What a compiled attention is: the request's own sections, the query where there is one, a summary
-- with the true counters, then the chosen candidates.
pub record Compiled (g : Rendering) (q : ModelRequest) (a : PersonalAttention)
    (l : Option LexicalSelection) (candidates : List Ranked) (r : CompiledContext) : Type 0 where
  pub chosen : List AttentionCandidate
  pub omitted : ℕ
  pub sections :
      r.request
      ≡ with_sections q (
          (with_query q l).context_sections
          ++ summary_section a l (length candidates) (length chosen) omitted ∷ sections_of chosen)
  pub accounted : length chosen + omitted ≡ length candidates
  pub mandatory :
      count is_mandatory chosen ≡ count (λ (x : Ranked). x.candidate.mandatory) candidates
  pub among :
      (p : AttentionCandidate → Bool)
      → count p chosen ≤ count (λ (x : Ranked). p x.candidate) candidates
  pub fits : estimate r.rendered_context ≤ q.input_token_budget
  pub rendered : r ≡ compiled g r.request r.retrieval_reasons

module _ (g : Rendering) (q : ModelRequest) (a : PersonalAttention) (l : Option LexicalSelection)
    (candidates : List Ranked) where
  abbrev pub first : Packing
  first = start g (with_query q l) a l (length candidates)

  pub finished-sections :
      (p : Packing) (s : Selection (offered candidates) first p)
      → finished (with_query q l) a l (length candidates) p
        ≡ with_sections q (
            (with_query q l).context_sections
            ++ summary_section a l (length candidates) (length s.chosen) p.omitted
              ∷ sections_of s.chosen)
  unfolding finished start
  finished-sections p s =
      summary-replaced (with_query q l)
        (summary_section a l (length candidates) (length candidates) (length candidates))
        (summary_section a l (length candidates) p.selected p.omitted) (sections_of s.chosen)
        p.request s.appended
      ∙ with_query-sections q l (
          (with_query q l).context_sections
          ++ summary_section a l (length candidates) p.selected p.omitted ∷ sections_of s.chosen)
      ∙ ap
          (λ n. with_sections q (
            (with_query q l).context_sections
            ++ summary_section a l (length candidates) n p.omitted ∷ sections_of s.chosen))
          (omega (arith, s.selected))

  pub accounted_for :
      (p : Packing) (s : Selection (offered candidates) first p)
      → length s.chosen + p.omitted ≡ length candidates
  unfolding start
  accounted_for p s = omega (arith, s.omitted, length-offered candidates)

  pub packed-Compiled :
      (p : Packing)
      → pack_all g (offered candidates) first ≡ ok p
      → exceeds g (finished (with_query q l) a l (length candidates) p) ≡ false
      → Compiled g q a l candidates
          (compiled g (finished (with_query q l) a l (length candidates) p) p.reasons)
  packed-Compiled p h fits =
      let s = pack_all-Selection g (offered candidates) first {p' = p} h in
      let e = finished-sections p s in
      record {
        chosen = s.chosen;
        omitted = p.omitted;
        sections = e;
        accounted = accounted_for p s;
        mandatory = s.mandatory ∙ count-offered is_mandatory candidates;
        among = λ p. omega (arith, s.among p, count-offered p candidates);
        fits = omega (
          arith,
          exceeds-false g (finished (with_query q l) a l (length candidates) p) fits,
          ap (λ (r : ModelRequest). r.input_token_budget) e,
        );
        rendered = refl;
      }

-- Where compile_attention returns, gather returned candidates, and the result is a compiled
-- attention of these: the request's sections, the query where there is one, a summary with the
-- true counts, then chosen candidates, none more often than it was gathered and every mandatory
-- one among them; every candidate is chosen or counted as omitted; the estimate is within the
-- request's budget; and text, hash, references and estimate are those of the returned request.
pub compile_attention-Compiled :
    (g : Rendering) (q : ModelRequest) (a : PersonalAttention) (evidence : List AttentionCandidate)
    (l : Option LexicalSelection) {r : CompiledContext}
    → compile_attention g q a evidence l ≡ ok r
    → (candidates : List Ranked) × (gather g a evidence l ≡ ok candidates)
      × Compiled g q a l candidates r
unfolding compile_attention
compile_attention-Compiled g q a evidence l {r} h =
    >>=-elim (gather g a evidence l) _ h λ cs gathered h1.
      >>=-elim
        (raise_if (exceeds g (start g (with_query q l) a l (length cs)).request)
          Error.budget_exceeded)
        _ h1
        λ _ _ h2.
          >>=-elim (pack_all g (offered cs) (start g (with_query q l) a l (length cs))) _ h2
            λ p packed h3.
              >>=-elim
                (raise_if (exceeds g (finished (with_query q l) a l (length cs) p))
                  Error.budget_exceeded)
                _ h3
                λ _ e h4.
                  let fits =
                    raise_if-eq-ok (exceeds g (finished (with_query q l) a l (length cs) p))
                      Error.budget_exceeded e in
                  let same : compiled g (finished (with_query q l) a l (length cs) p) p.reasons
                      ≡ r =
                    cc h4 in
                  (cs, gathered, rw (sym same) (packed-Compiled g q a l cs p packed fits))
