-- ===== src/Context/Budget.antt =====
-- What the compiled attention keeps to: the token budget, the sections that stood already, every
-- mandatory candidate, and honest counters (`_compile_attention` of
-- src/cognition/runtime/context.py).
pub mod Compiled
pub mod Total
use cognition.Prelude.{
  ℕ, ◌+◌, ◌≤◌, ◌≡◌, refl, sym, ◌∙◌, ap, Bool, true, false, String, List, [], ◌∷◌, ◌++◌, arith, ltb,
  Option, none, some, leb, length, map, count, Bool-cases, inl, inr, if◌then◌else◌,
}
use cognition.Protocol.Model.{ModelRequest, ContextSection}
use cognition.Protocol.Ref.{nonempty}
use cognition.Store.Result.{Result, ok, err, Error, ◌>>=◌, ◌>>◌, raise_if, >>=-elim, raise_if-eq-ok}
use cognition.Context.{
  AttentionCandidate, PersonalAttention, LexicalSelection, CompiledContext, Rendering, estimate,
  with_sections,
}
use cognition.Context.Ranked.{Ranked}
use cognition.Context.Pack.{
  Packing, append_section, exceeds, arrange, taken, pack, pack_all, count-arrange,
}
use cognition.Context.Attention.{
  compile_attention, gather, with_query, start, finished, summary_section, set_at, compiled,
}

abbrev pub sections_of : List AttentionCandidate → List ContextSection
sections_of = map (λ (c : AttentionCandidate). c.section)

abbrev pub is_mandatory : AttentionCandidate → Bool
is_mandatory c = c.mandatory

-- What the packing of candidates made of the request: some of them are appended, in their order,
-- none twice, every mandatory one among them, and the counters say how many.
pub record Selection (cs : List AttentionCandidate) (p p' : Packing) : Type 0 where
  pub chosen : List AttentionCandidate
  pub appended :
      p'.request ≡ with_sections p.request (p.request.context_sections ++ sections_of chosen)
  pub mandatory : count is_mandatory chosen ≡ count is_mandatory cs
  pub among : (q : AttentionCandidate → Bool) → count q chosen ≤ count q cs
  pub selected : p'.selected ≡ p.selected + length chosen
  pub omitted : p'.omitted + length chosen ≡ p.omitted + length cs

pub append_assoc {ℓ} :
    {A : Type ℓ} (xs : List A) (y : A) (zs : List A) → (xs ++ y ∷ []) ++ zs ≡ xs ++ y ∷ zs
append_assoc [] y zs = refl
append_assoc (x ∷ xs) y zs = ap (λ r. x ∷ r) (append_assoc xs y zs)

append_nil {ℓ} : {A : Type ℓ} (xs : List A) → xs ++ [] ≡ xs
append_nil [] = refl
append_nil (x ∷ xs) = ap (λ r. x ∷ r) (append_nil xs)

pub pack_all-Selection :
    (g : Rendering) (cs : List AttentionCandidate) (p : Packing) {p' : Packing}
    → pack_all g cs p ≡ ok p'
    → Selection cs p p'
unfolding pack_all pack
pack_all-Selection g [] p {p'} h =
    let same : p ≡ p' = cc (h) in
    rw (sym same) (record {
      chosen = [];
      appended = rw (append_nil p.request.context_sections) refl;
      mandatory = refl;
      among = λ q. omega arith;
      selected = omega arith;
      omitted = omega arith;
    })
pack_all-Selection g (c ∷ cs) p {p'} h =
    elim (Bool-cases (exceeds g (append_section p.request c.section))) [
      | inl full ↦ elim (Bool-cases c.mandatory) [
        | inl must ↦ absurd (cc (rw (full, must) at h))
        | inr may ↦
            let s =
              pack_all-Selection g cs (record p { omitted = p.omitted + 1 }) {p' = p'}
                (rw (full, may) at h) in
            record {
              chosen = s.chosen;
              appended = s.appended;
              mandatory = rw may s.mandatory;
              among = λ q. ground (arith, s.among q);
              selected = s.selected;
              omitted = omega (arith, s.omitted);
            }
      ]
      | inr room ↦
          let s = pack_all-Selection g cs (taken g c p) {p' = p'} (rw room at h) in
          record {
            chosen = c ∷ s.chosen;
            appended =
                s.appended
                ∙ ap (with_sections p.request)
                    (append_assoc p.request.context_sections c.section (sections_of s.chosen));
            mandatory = ground (arith, s.mandatory);
            among = λ q. ground (arith, s.among q);
            selected = omega (arith, s.selected);
            omitted = omega (arith, s.omitted);
          }
    ]
