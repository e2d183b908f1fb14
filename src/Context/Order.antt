-- ===== src/Context/Order.antt =====
-- Where a candidate stands: `_candidate_order` of src/cognition/runtime/context.py, and the order of
-- its tuples. The rank -1 of a mandatory candidate is 0 here, and a priority p is p + 1. A search
-- rank is a nonnegative float, whose order is the order of its 64-bit patterns without the sign;
-- the larger rank stands first, as the source negates it.
use Prim.Native.Nat.{Ordering, compare}
use Prim.Native.String.{then as and_then, compare as compare_text}
use cognition.Prelude.{
  ℕ, suc, ◌%◌, ◌≤◌, ◌≡◌, Bool, true, false, not, ◌&&◌, ◌||◌, Option, none, some, String, [], ◌∷◌,
  arith, str_eq, ltb, if◌then◌else◌,
}
use cognition.Prelude.Int.{ℤ, pos, negsuc, negate, compare_int}
use cognition.Json.{Json, Fields, natural, negative, string, object}
use cognition.Protocol.Ref.{Ref}
use cognition.Protocol.Operations.{Content}
use cognition.Protocol.Model.{ContextSection, ContextCategory}
use cognition.Store.Result.{Result, ok, Error, ◌>>=◌, ◌>>◌, require, raise_if}
use cognition.Perception.{is_finite}
use cognition.Context.{AttentionCandidate, Rendering, ref_key, lookup}

pub record OrderKey : Type 0 where
  pub rank : ℕ
  pub status_order : ℕ
  pub search_rank : ℕ
  pub time_order : ℤ
  pub reference : String
  pub rendered : String

-- Tuples are compared from the left.
unfoldable pub compare_keys : OrderKey → OrderKey → Ordering
compare_keys a b = and_then (compare a.rank b.rank) (
    and_then (compare a.status_order b.status_order) (
      and_then (compare b.search_rank a.search_rank) (
        and_then (compare_int a.time_order b.time_order)
          (and_then (compare_text a.reference b.reference) (compare_text a.rendered b.rendered)))))

-- The dictionary `priorities`.
abbrev pub priority_of : String → Option ℕ
priority_of reason =
    if str_eq reason "urgent_commitment"
    then some 0
    else if str_eq reason "wake_cause"
    then some 1
    else if str_eq reason "wake_reference" || str_eq reason "context_reference"
    then some 2
    else if str_eq reason "focus_reference"
    then some 3
    else if str_eq reason "linked_reference"
    then some 4
    else if str_eq reason "lexical_match"
    then some 5
    else if str_eq reason "recent_personal" || str_eq reason "recent_evidence"
    then some 6
    else none

abbrev pub rank_of : Bool → ℕ → ℕ
rank_of mandatory priority = if mandatory then 0 else suc priority

abbrev sign_bit : ℕ
sign_bit = 9223372036854775808

-- Neither infinite, nor no number, nor below zero; `-0.0 < 0` does not hold.
unfoldable valid_rank : Option ℕ → Bool
unfolding is_finite
valid_rank none = false
valid_rank (some bits) = is_finite bits && not (ltb sign_bit bits)

abbrev magnitude : Option ℕ → ℕ
magnitude none = 0
magnitude (some bits) = bits % sign_bit

unfoldable lexical_rank : Option ℕ → Result ℕ
unfolding valid_rank
lexical_rank rank = do raise_if (not (valid_rank rank)) Error.value_error; ok (magnitude rank)

unfoldable search_order : AttentionCandidate → Result ℕ
unfolding lexical_rank
search_order c = if str_eq c.reason "lexical_match" then lexical_rank c.search_rank else ok 0

abbrev preferred_status : String → Option String
preferred_status kind =
    if str_eq kind "goal" || str_eq kind "project" || str_eq kind "commitment"
    then some "active"
    else if str_eq kind "interest" || str_eq kind "preference"
    then some "established"
    else none

abbrev has_status : String → Option Json → Bool
has_status preferred (some (string s)) = str_eq s preferred
has_status preferred _ = false

abbrev status_order_of : Option String → Fields → ℕ
status_order_of none item = 0
status_order_of (some preferred) item = if has_status preferred (lookup "status" item) then 0 else 1

-- `item.get(field, item.get("created_at"))`: a null under the field is a value.
abbrev dated : String → Fields → Option Json
dated field item = elim (lookup field item) [
  | none ↦ lookup "created_at" item
  | some value ↦ some value
]

-- The moment of a text, 0 where it is none or not a text; the latest first unless mandatory.
unfoldable time_order_of : Rendering → Bool → Option Json → ℤ
time_order_of g mandatory (some (string s)) = elim (g.instant_of s) [
  | none ↦ pos 0
  | some t ↦ if mandatory then t else negate t
]
time_order_of g mandatory _ = pos 0

-- The later event first.
abbrev sequence_order : Option Json → ℤ
sequence_order (some (object provenance)) = elim (lookup "event_sequence" provenance) [
  | some (natural n) ↦ negate (pos n)
  | some (negative n) ↦ negate (negsuc n)
  | _ ↦ pos 0
]
sequence_order _ = pos 0

abbrev is_evidence : String → Bool
is_evidence reason = str_eq reason "recent_evidence" || str_eq reason "lexical_match"

-- `status_order` and `time_order`, by the item where the content has one.
abbrev item_order : Rendering → AttentionCandidate → Ref → Fields → Option Json → ℕ × ℤ
item_order g c first content (some (object item)) = (
  if str_eq c.reason "recent_personal"
      then status_order_of (preferred_status first.kind) item
      else 0,
  time_order_of g c.mandatory (dated (if c.mandatory then "due_at" else "updated_at") item),
)
item_order g c first content _ =
    (0, if is_evidence c.reason then sequence_order (lookup "provenance" content) else pos 0)

unfoldable detail_order : Rendering → AttentionCandidate → Ref → Content → ℕ × ℤ
unfolding time_order_of
detail_order g c first (Content.text s) = (0, pos 0)
detail_order g c first (Content.fields content) =
    item_order g c first content (lookup "item" content)

abbrev is_control : ContextCategory → Bool
is_control ContextCategory.control = true
is_control _ = false

-- `section.refs[0]`, where there is one.
abbrev pub first_ref : ContextSection → Option Ref
first_ref s = elim s.refs [ [] ↦ none | r ∷ rs ↦ some r ]

unfoldable pub candidate_order : Rendering → AttentionCandidate → Result OrderKey
unfolding search_order detail_order ref_key
candidate_order g c = do
  first ← require (first_ref c.section) Error.value_error
  raise_if (is_control c.section.category) Error.value_error
  priority ← require (priority_of c.reason) Error.value_error
  search ← search_order c
  ok (record {
    rank = rank_of c.mandatory priority;
    status_order = (detail_order g c first c.section.content).0;
    search_rank = search;
    time_order = (detail_order g c first c.section.content).1;
    reference = ref_key first;
    rendered = g.render_section c.section;
  })

-- `b < a`
unfoldable pub stands_after : OrderKey → OrderKey → Bool
unfolding compare_keys
stands_after a b = elim (compare_keys a b) [ Ordering.gt ↦ true | _ ↦ false ]

-- Whichever way two keys compare, their ranks do not go the other way.
pub stands_after-true : (a b : OrderKey) → stands_after a b ≡ true → b.rank ≤ a.rank
unfolding stands_after compare_keys
stands_after-true a b h = ground arith

pub stands_after-false : (a b : OrderKey) → stands_after a b ≡ false → a.rank ≤ b.rank
unfolding stands_after compare_keys
stands_after-false a b h = ground arith
