-- ===== src/Tests/Contexts.antt =====
-- The theorems of the context compiler at small inputs.
use cognition.Prelude.{
  ℕ, ◌≡◌, refl, true, false, some, String, List, [], ◌∷◌, ◌==◌, count, find, any, map, length,
}
use cognition.Json.{Fields, null, end, field}
use cognition.Protocol.Model.{ContextSection}
use cognition.Store.Result.{Result, ok}
use cognition.Context.{ref_key, CompiledContext, StoredEvent, lookup}
use cognition.Context.Order.{stands_after}
use cognition.Context.Ranked.{Ranked, rank_all, unique, has_key, Best, unique-Best}
use cognition.Context.Pools.{drain, contents, rows, longest, drain-rows, count-drain}
use cognition.Context.Pack.{arrange, exceeds, count-arrange}
use cognition.Context.Attention.{compile_attention, gather, start, with_query}
use cognition.Context.Budget.Compiled.{compile_attention-Compiled, Compiled}
use cognition.Context.Budget.Total.{compile_attention-returns}
use cognition.Context.Compile.{compile_request}
use cognition.Context.Prefix.{Sound, compile_request-Sound}
use cognition.Context.Events.{event_section, public_part, event_section-public_part}
use cognition.Store.Rows.{Payload}
use cognition.Context.Birth.{shown_payload, shown_part, event_section-birth}
use cognition.Tests.Compiling.{
  sample, stored, sample-Widths, noticed, glanced, recalled, roomy, compiled_of, ranked_of,
  happened, compilation,
}

key_text : ref_key (record { kind = "wake"; id = 16 }) ≡ "wake:00000000-0000-0000-0000-000000000010"
unfolding ref_key
key_text = refl

abbrev outcome : Result CompiledContext
outcome = compile_attention sample (roomy 40) noticed [] (some recalled)

compiles : outcome ≡ ok (compiled_of outcome)
unfolding compile_attention stands_after
compiles = refl

abbrev section_names : CompiledContext → List String
section_names r = map (λ (s : ContextSection). s.name) r.request.context_sections

-- The urgent commitment is chosen once, and the event fits as well; the goal does not.
names :
    section_names (compiled_of outcome)
    ≡ "lexical_query" ∷ "attention_summary" ∷ "commitment:4"
      ∷ "event:00000000-0000-0000-0000-00000000001f" ∷ []
unfolding compile_attention stands_after
names = refl

compile_attention-Compiled_example :
    (candidates : List Ranked) × (gather sample noticed [] (some recalled) ≡ ok candidates)
    × Compiled sample (roomy 40) noticed (some recalled) candidates (compiled_of outcome)
compile_attention-Compiled_example =
    compile_attention-Compiled sample (roomy 40) noticed [] (some recalled)
      {r = compiled_of outcome} compiles

abbrev gathered : List Ranked
gathered = ranked_of (gather sample glanced [] (some recalled))

gathers : gather sample glanced [] (some recalled) ≡ ok gathered
unfolding gather stands_after
gathers = refl

none_mandatory : count (λ (r : Ranked). r.candidate.mandatory) gathered ≡ 0
unfolding gather stands_after
none_mandatory = refl

has_room :
    exceeds sample
      (start sample
        (with_query (roomy 30) (some recalled))
        glanced
        (some recalled)
        (length gathered)).request
    ≡ false
unfolding gather stands_after exceeds start with_query
has_room = refl

compile_attention-returns_example :
    (r : CompiledContext) × (compile_attention sample (roomy 30) glanced [] (some recalled) ≡ ok r)
compile_attention-returns_example =
    compile_attention-returns sample (roomy 30) glanced [] (some recalled) gathered sample-Widths
      gathers none_mandatory has_room

abbrev all_ranked : List Ranked
all_ranked = ranked_of (rank_all sample noticed.candidates)

abbrev promise_key : String
promise_key = "commitment:00000000-0000-0000-0000-000000000004"

is_there : any (has_key promise_key) all_ranked ≡ true
unfolding rank_all ref_key
is_there = refl

unique-Best_example :
    ((s : Ranked) × (find (has_key promise_key) (unique all_ranked) ≡ some s)
      × Best promise_key all_ranked s)
    × (count (has_key promise_key) (unique all_ranked) ≡ 1)
unique-Best_example = unique-Best promise_key all_ranked is_there

abbrev pools : List (String × List ℕ)
pools = ("belief", 1 ∷ 2 ∷ 3 ∷ []) ∷ ("event", 4 ∷ []) ∷ ("goal", 5 ∷ 6 ∷ []) ∷ []

drains : drain pools ≡ 1 ∷ 4 ∷ 5 ∷ 2 ∷ 6 ∷ 3 ∷ []
unfolding drain
drains = refl

drain-rows_example : drain pools ≡ rows 0 (longest pools) pools
drain-rows_example = drain-rows pools

count-drain_example : count (λ n. n == 2) (drain pools) ≡ count (λ n. n == 2) (contents pools)
count-drain_example = count-drain (λ n. n == 2) pools

count-arrange_example :
    count (has_key promise_key) (arrange all_ranked) ≡ count (has_key promise_key) all_ranked
count-arrange_example = count-arrange (has_key promise_key) all_ranked

event_section-public_part_example :
    event_section sample
      (record { envelope = public_part (happened 30 "admin"); event_sequence = 12 })
    ≡ event_section sample (record { envelope = happened 30 "admin"; event_sequence = 12 })
event_section-public_part_example = event_section-public_part sample (happened 30 "admin") 12

abbrev birth : Fields
birth = field "creator" null (field "birth_name" null end)

abbrev born : StoredEvent
born = stored (record (happened 30 "runtime") { event_type = "individual.born" })

event_section-birth_example :
    (lookup "birth_name"
        (shown_payload (event_section (record sample { payload_json = λ p. birth }) born))
      ≡ some null)
    × (lookup "text" (shown_part (event_section (record sample { payload_json = λ p. birth }) born))
        ≡ some null)
event_section-birth_example =
    event_section-birth (record sample { payload_json = λ p. birth }) born (Payload.other end)
      "birth_name" refl refl (λ e. cc) (λ e. cc) refl

abbrev request_outcome : Result CompiledContext
request_outcome = compile_request sample (compilation 350)

compiles_request : request_outcome ≡ ok (compiled_of request_outcome)
unfolding compile_request stands_after
compiles_request = refl

compile_request-Sound_example : Sound sample (compilation 350) (compiled_of request_outcome)
compile_request-Sound_example =
    compile_request-Sound sample (compilation 350) {r = compiled_of request_outcome}
      compiles_request
