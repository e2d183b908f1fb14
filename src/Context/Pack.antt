-- ===== src/Context/Pack.antt =====
-- In which order candidates are offered and how many of them fit: the pools and the packing loop of
-- `_compile_attention` in src/cognition/runtime/context.py. `Packing` holds the loop's variables.
use cognition.Prelude.{
  ℕ, ◌+◌, ◌≡◌, Bool, not, ◌&&◌, ◌||◌, String, List, [], ◌∷◌, ◌++◌, arith, str_eq, ltb,
  if◌then◌else◌, select, count, count-append, Bool-cases, inl, inr,
}
use cognition.Protocol.Ref.{Ref}
use cognition.Protocol.Model.{ModelRequest, ContextSection}
use cognition.Store.Result.{Result, ok, err, Error, ◌>>=◌}
use cognition.Context.{AttentionCandidate, Rendering, estimate, ref_key, with_sections}
use cognition.Context.Ranked.{Ranked}
use cognition.Context.Pools.{push, drain, contents, count-drain, count-push}

-- A dictionary, in the order of its insertions.
abbrev pub put {ℓ} : {A : Type ℓ} → String → A → List (String × A) → List (String × A)
put key value [] = (key, value) ∷ []
put key value (entry ∷ entries) =
    let rest = put key value entries in
    if str_eq entry.0 key then (key, value) ∷ entries else entry ∷ rest

abbrev pub put_default {ℓ} : {A : Type ℓ} → String → A → List (String × A) → List (String × A)
put_default key value [] = (key, value) ∷ []
put_default key value (entry ∷ entries) =
    let rest = put_default key value entries in
    if str_eq entry.0 key then entry ∷ entries else entry ∷ rest

abbrev pub append_section : ModelRequest → ContextSection → ModelRequest
append_section q s = with_sections q (q.context_sections ++ s ∷ [])

-- `_estimate(_render(request)) > request.input_token_budget`
unfoldable pub exceeds : Rendering → ModelRequest → Bool
unfolding estimate
exceeds g q = ltb q.input_token_budget (estimate (g.render_request q))

abbrev pub is_lexical : Ranked → Bool
is_lexical r = str_eq r.candidate.reason "lexical_match"

abbrev pub is_recent : Ranked → Bool
is_recent r =
    not (is_lexical r)
    && ((str_eq r.candidate.reason "recent_personal" || str_eq r.candidate.reason "recent_evidence")
        && not r.candidate.mandatory)

abbrev is_direct : Ranked → Bool
is_direct r = not (is_lexical r) && not (is_recent r)

abbrev pool_up : List (String × List Ranked) → List Ranked → List (String × List Ranked)
pool_up pools [] = pools
pool_up pools (r ∷ rs) = pool_up (push r.first.kind r pools) rs

-- First what stands for itself, then the lexical matches and what is recent, each kind in turn.
unfoldable pub arrange : List Ranked → List Ranked
unfolding drain
arrange rs =
    select is_direct rs
    ++ (drain (pool_up [] (select is_lexical rs)) ++ drain (pool_up [] (select is_recent rs)))

pub record Packing : Type 0 where
  pub request : ModelRequest
  pub rendered : String
  pub reasons : List (String × String)
  pub selected : ℕ
  pub omitted : ℕ

abbrev note_refs : String → List Ref → List (String × String) → List (String × String)
note_refs reason [] reasons = reasons
note_refs reason (r ∷ rs) reasons = note_refs reason rs (put_default (ref_key r) reason reasons)

abbrev pub taken : Rendering → AttentionCandidate → Packing → Packing
taken g c p = record p {
  request = append_section p.request c.section;
  rendered = g.render_request (append_section p.request c.section);
  reasons = note_refs c.reason c.section.refs p.reasons;
  selected = p.selected + 1;
}

unfoldable pub pack : Rendering → AttentionCandidate → Packing → Result Packing
unfolding exceeds ref_key
pack g c p =
    if exceeds g (append_section p.request c.section)
    then if c.mandatory
      then err Error.budget_exceeded
      else ok (record p { omitted = p.omitted + 1 })
    else ok (taken g c p)

unfoldable pub pack_all : Rendering → List AttentionCandidate → Packing → Result Packing
unfolding pack
pack_all g [] p = ok p
pack_all g (c ∷ cs) p = do p ← pack g c p; pack_all g cs p

count-pool_up :
    (p : Ranked → Bool) (pools : List (String × List Ranked)) (rs : List Ranked)
    → count p (contents (pool_up pools rs)) ≡ count p (contents pools) + count p rs
count-pool_up p pools [] = omega arith
count-pool_up p pools (r ∷ rs) =
    ground
      (arith, count-pool_up p (push r.first.kind r pools) rs, count-push p r.first.kind r pools)

count-drained :
    (p : Ranked → Bool) (rs : List Ranked) → count p (drain (pool_up [] rs)) ≡ count p rs
count-drained p rs = omega (arith, count-drain p (pool_up [] rs), count-pool_up p [] rs)

count-split :
    (p : Ranked → Bool) (rs : List Ranked)
    → count p (select is_direct rs)
        + (count p (select is_lexical rs) + count p (select is_recent rs))
      ≡ count p rs
count-split p [] = omega arith
count-split p (r ∷ rs) = elim (Bool-cases (is_lexical r)) [
  | inl lexical ↦ ground (arith, count-split p rs, lexical)
  | inr other ↦ elim (Bool-cases (is_recent r)) [
    | inl recent ↦ ground (arith, count-split p rs, other, recent)
    | inr direct ↦ ground (arith, count-split p rs, other, direct)
  ]
]

-- For any candidates and any test: the order in which they are offered passes the test as often
-- as they do, so that it holds each of them exactly as often.
pub count-arrange : (p : Ranked → Bool) (rs : List Ranked) → count p (arrange rs) ≡ count p rs
unfolding arrange
count-arrange p rs =
    let lexical = count-drained p (select is_lexical rs) in
    let recent = count-drained p (select is_recent rs) in
    let inner =
      count-append p (drain (pool_up [] (select is_lexical rs)))
        (drain (pool_up [] (select is_recent rs))) in
    let outer =
      count-append p (select is_direct rs)
        (drain (pool_up [] (select is_lexical rs)) ++ drain (pool_up [] (select is_recent rs))) in
    omega (arith, lexical, recent, inner, outer, count-split p rs)
