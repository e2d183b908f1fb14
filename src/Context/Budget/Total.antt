-- ===== src/Context/Budget/Total.antt =====
-- When the attention policy returns (`_compile_attention` of src/cognition/runtime/context.py): the
-- space that the largest counters reserve in the summary is enough for the true ones.
use cognition.Prelude.{
  ℕ, ◌+◌, ◌≤◌, ◌≡◌, refl, sym, ◌∙◌, ap, false, List, [], ◌∷◌, ◌++◌, arith, Option, length, count,
  Bool-cases, inl, inr,
}
use cognition.Protocol.Model.{ModelRequest, ContextSection}
use cognition.Store.Result.{ok}
use cognition.Context.{
  AttentionCandidate, PersonalAttention, LexicalSelection, CompiledContext, Rendering, estimate,
  with_sections,
}
use cognition.Context.Ranked.{Ranked}
use cognition.Context.Pack.{Packing, taken, append_section, exceeds, pack, pack_all}
use cognition.Context.Attention.{
  compile_attention, gather, with_query, start, finished, summary_section, compiled,
}
use cognition.Context.Budget.{
  Selection, sections_of, is_mandatory, pack_all-Selection, append_assoc,
}
use cognition.Context.Budget.Compiled.{
  offered, count-offered, finished-sections, accounted_for, with_query-sections,
}

-- JSON writes a number with no more digits than a larger one: a summary whose counts are at most
-- the number of candidates is not longer than one that has this number for both.
unfoldable pub Widths : Rendering → Type 0
Widths g =
    (q : ModelRequest) (xs ys : List ContextSection) (a : PersonalAttention)
    (l : Option LexicalSelection) (n selected omitted : ℕ)
    → selected + omitted ≤ n
    → estimate
        (g.render_request (with_sections q (xs ++ summary_section a l n selected omitted ∷ ys)))
      ≤ estimate (g.render_request (with_sections q (xs ++ summary_section a l n n n ∷ ys)))

le-exceeds :
    (g : Rendering) (q q' : ModelRequest)
    → q.input_token_budget ≡ q'.input_token_budget
    → estimate (g.render_request q) ≤ estimate (g.render_request q')
    → exceeds g q' ≡ false
    → exceeds g q ≡ false
unfolding exceeds estimate
le-exceeds g q q' same le h = ground arith

-- The loop keeps within the budget.
pack_all-fits :
    (g : Rendering) (cs : List AttentionCandidate) (p : Packing) {p' : Packing}
    → exceeds g p.request ≡ false
    → pack_all g cs p ≡ ok p'
    → exceeds g p'.request ≡ false
unfolding pack_all pack
pack_all-fits g [] p {p'} fits h =
    let same : p ≡ p' = cc h in sym (ap (λ (r : Packing). exceeds g r.request) same) ∙ fits
pack_all-fits g (c ∷ cs) p {p'} fits h =
    elim (Bool-cases (exceeds g (append_section p.request c.section))) [
      | inl full ↦ elim (Bool-cases c.mandatory) [
        | inl must ↦ absurd (cc (rw (full, must) at h))
        | inr may ↦
            pack_all-fits g cs (record p { omitted = p.omitted + 1 }) {p' = p'} fits
              (rw (full, may) at h)
      ]
      | inr room ↦ pack_all-fits g cs (taken g c p) {p' = p'} room (rw room at h)
    ]

-- Only a mandatory candidate stops the loop.
pack_all-returns :
    (g : Rendering) (cs : List AttentionCandidate) (p : Packing)
    → count is_mandatory cs ≡ 0
    → (p' : Packing) × (pack_all g cs p ≡ ok p')
unfolding pack_all pack
pack_all-returns g [] p h = (p, refl)
pack_all-returns g (c ∷ cs) p h = elim (Bool-cases c.mandatory) [
  | inl must ↦ absurd (omega (arith, rw must at h))
  | inr may ↦ elim (Bool-cases (exceeds g (append_section p.request c.section))) [
    | inl full ↦
        rw (full, may) (pack_all-returns g cs (record p { omitted = p.omitted + 1 }) (rw may at h))
    | inr room ↦ rw room (pack_all-returns g cs (taken g c p) (rw may at h))
  ]
]

module _ (g : Rendering) (q : ModelRequest) (a : PersonalAttention) (l : Option LexicalSelection)
    (cs : List Ranked) where
  abbrev beginning : Packing
  beginning = start g (with_query q l) a l (length cs)

  abbrev ending : Packing → ModelRequest
  ending p = finished (with_query q l) a l (length cs) p

  reserved :
      (p : Packing) (s : Selection (offered cs) beginning p)
      → p.request
        ≡ with_sections (with_query q l) (
            (with_query q l).context_sections
            ++ summary_section a l (length cs) (length cs) (length cs) ∷ sections_of s.chosen)
  unfolding start
  reserved p s =
      s.appended
      ∙ ap (with_sections (with_query q l)) (
          append_assoc (with_query q l).context_sections
            (summary_section a l (length cs) (length cs) (length cs)) (sections_of s.chosen))

  ending-fits :
      (p : Packing)
      → Widths g
      → exceeds g beginning.request ≡ false
      → pack_all g (offered cs) beginning ≡ ok p
      → exceeds g (ending p) ≡ false
  unfolding Widths
  ending-fits p widths room packed =
      let s = pack_all-Selection g (offered cs) beginning {p' = p} packed in
      let fits = pack_all-fits g (offered cs) beginning {p' = p} room packed in
      let xs = (with_query q l).context_sections in
      let ys = sections_of s.chosen in
      let n = length cs in
      let largest = with_sections q (xs ++ summary_section a l n n n ∷ ys) in
      let kept : p.request ≡ largest =
        reserved p s ∙ with_query-sections q l (xs ++ summary_section a l n n n ∷ ys) in
      let final = with_sections q (xs ++ summary_section a l n (length s.chosen) p.omitted ∷ ys) in
      let le =
        widths q xs ys a l n (length s.chosen) p.omitted
          (omega (arith, accounted_for g q a l cs p s)) in
      ap (exceeds g) (finished-sections g q a l cs p s)
      ∙ le-exceeds g final largest refl le (sym (ap (exceeds g) kept) ∙ fits)

-- Where a summary's text does not grow when its counts shrink: if the candidates can be
-- gathered, none of them is mandatory, and the request with its query and summary is within the
-- budget, then compile_attention returns.
pub compile_attention-returns :
    (g : Rendering) (q : ModelRequest) (a : PersonalAttention) (evidence : List AttentionCandidate)
    (l : Option LexicalSelection) (cs : List Ranked)
    → Widths g
    → gather g a evidence l ≡ ok cs
    → count (λ (r : Ranked). r.candidate.mandatory) cs ≡ 0
    → exceeds g (start g (with_query q l) a l (length cs)).request ≡ false
    → (r : CompiledContext) × (compile_attention g q a evidence l ≡ ok r)
unfolding compile_attention
compile_attention-returns g q a evidence l cs widths gathered free room =
    let run =
      pack_all-returns g (offered cs) (beginning g q a l cs)
        (count-offered is_mandatory cs ∙ free) in
    let last = ending-fits g q a l cs run.0 widths room run.1 in
    (compiled g (ending g q a l cs run.0) run.0.reasons, rw (gathered, room, run.1, last) refl)
