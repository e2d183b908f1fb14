-- ===== src/Tests/Timings.antt =====
-- The theorems of the configuration revisions, of the frozen request and of the heartbeat at small
-- inputs. Floats are stood for by whole numbers.
use cognition.Prelude.{
  ℕ, zero, suc, ◌+◌, ◌*◌, ◌/◌, ◌≤◌, ◌<◌, ◌≡◌, refl, true, false, not, ◌&&◌, none, some, [], ◌∷◌,
  arith, leb, ltb, min, max, leb→le, le→leb,
}
use native.Mathlib.Nat.{mul-suc}
use cognition.Store.Result.{Result, ok, err}
use cognition.Store.Rows.{TurnStatus}
use cognition.Store.Db.{Db, max_moment}
use cognition.Config.{behavior_hash, parse_behavior_config}
use cognition.Config.Revisions.{
  RuntimeConfigRevision, Replaced, insert_revision, config_snapshot, replace_config_revision,
  active_row,
}
use cognition.Config.Revisions.Active.{replace-active, replace-again}
use cognition.Context.Compile.{compile_request}
use cognition.Context.Order.{stands_after}
use cognition.Protocol.Contract.{valid_request}
use cognition.Frozen.{Reading, save_context, load_request}
use cognition.Frozen.RoundTrip.{Reads, saved, load_request-save_context}
use cognition.Heartbeat.{
  Floats, HeartbeatPolicy, add_seconds, next_interval, clamp, schedule, effective_minimum_seconds,
  effective_maximum_seconds,
}
use cognition.Heartbeat.Timing.{Ordered, add_seconds-min, next_interval-range, schedule-bounds}
use cognition.Tests.Samples.{reached, resting, world, turn_row, cycle_row}
use cognition.Tests.Compiling.{sample, hashing, behavior, revision, compilation, compiled_of}

abbrev older : RuntimeConfigRevision
older = record (revision 300) { config_revision_id = 89; content_hash = "#other" }

abbrev replaced : Result Replaced
replaced = replace_config_revision hashing resting (older ∷ []) 1 (behavior 350) 20 none

abbrev replacement_of : Result Replaced → Replaced
replacement_of (ok r) = r
replacement_of (err e) = record { revision = older; changed = false; table = []; db = resting }

replaces : replaced ≡ ok (replacement_of replaced)
unfolding replace_config_revision parse_behavior_config behavior_hash insert_revision
    config_snapshot
replaces = refl

is_new : (replacement_of replaced).changed ≡ true
unfolding replace_config_revision parse_behavior_config behavior_hash insert_revision
    config_snapshot
is_new = refl

replace-active_example :
    (active_row 1 (replacement_of replaced).table ≡ some (replacement_of replaced).revision)
    × (behavior_hash hashing (behavior 350) ≡ ok (replacement_of replaced).revision.content_hash)
replace-active_example =
    replace-active hashing resting (older ∷ []) 1 (behavior 350) 20 none
      {r = replacement_of replaced} replaces

replace-again_example :
    replace_config_revision hashing resting (replacement_of replaced).table 1 (behavior 350) 25 none
    ≡ ok (record {
      revision = (replacement_of replaced).revision;
      changed = false;
      table = (replacement_of replaced).table;
      db = resting;
    })
replace-again_example =
    replace-again hashing resting resting (older ∷ []) 1 (behavior 350) 20 25 none none
      {r = replacement_of replaced} replaces refl

abbrev reading : Reading
reading = record {
  canonical_text = λ t. some t;
  canonical_request = λ q. sample.render_request q;
  get_cycle_exploration = λ db c. ok none;
  get_cycle_inbound = λ db c. ok false;
}

reading-Reads : Reads sample reading
reading-Reads = record {
  canonical = λ q. refl;
  exploration = λ s db c. refl;
  inbound = λ s db c. refl;
}

abbrev before : Db
before = world TurnStatus.prepared none

abbrev after : Db
after = reached before (
    save_context sample reading (revision 350 ∷ [])
      (saved (compilation 350) (compiled_of (compile_request sample (compilation 350))) 11 none)
      before)

load_request-save_context_example :
    load_request sample reading (revision 350 ∷ []) after 6
    ≡ ok (some (compiled_of (compile_request sample (compilation 350))).request)
unfolding compile_request stands_after behavior_hash save_context valid_request
load_request-save_context_example =
    load_request-save_context sample reading (revision 350 ∷ []) (compilation 350)
      (compiled_of (compile_request sample (compilation 350))) (turn_row TurnStatus.prepared none)
      cycle_row before 11 none {db' = after} reading-Reads refl refl refl refl refl refl refl refl
      refl

abbrev pub naturals : Floats
naturals = record {
  Float = ℕ;
  le = leb;
  one = 1;
  times = λ a b. a * b;
  divide = λ a b. a / b;
  of_bits = λ n. n;
  finite_positive = λ a. ltb 0 a;
  whole_seconds = λ a. a;
  rest_microseconds = λ a. 0;
}

le_times : (a b : ℕ) → 1 ≤ b → a ≤ a * b
le_times a zero h = omega arith
le_times a (suc b) h = omega (arith, mul-suc a b)

naturals-Ordered : Ordered naturals
naturals-Ordered = record {
  reflexive = λ a. ground arith;
  transitive = λ a b c h h'. ground arith;
  total = λ a b h. ground arith;
  rest = λ a. omega arith;
  monotone = λ a b h. omega (arith, leb→le a b h);
  growing = λ a b h h'. le→leb a (a * b) (le_times a b (leb→le 1 b h'));
}

abbrev policy : HeartbeatPolicy naturals
policy = record { minimum_seconds = 30; maximum_seconds = 600; backoff_factor = 2 }

add_seconds-min_example : add_seconds naturals 10 60 ≡ min max_moment (10 + (60 * 1000000 + 0))
add_seconds-min_example = add_seconds-min naturals 10 60 naturals-Ordered (ground arith)

next_interval-range_example :
    (c : ℕ) × (clamp naturals policy 45 ≡ ok c)
    × (leb (effective_minimum_seconds naturals policy) 90 ≡ true)
    × (leb 90 (effective_maximum_seconds naturals policy) ≡ true)
    × ((true && not false) ≡ true → leb c 90 ≡ true)
unfolding next_interval
next_interval-range_example =
    next_interval-range naturals naturals-Ordered policy 45 true false {n = 90} refl refl

schedule-bounds_example :
    (c : ℕ) × (clamp naturals policy 45 ≡ ok c)
    × (30000010 ≤ add_seconds naturals 10 c)
    × (add_seconds naturals 10 (effective_minimum_seconds naturals policy) ≤ 30000010)
    × (30000010 ≤ max_moment)
    × ((t : ℕ)
        → some 20 ≡ some t
        → 10 < t
        → 30000010 ≤ max t (add_seconds naturals 10 (effective_minimum_seconds naturals policy)))
unfolding schedule
schedule-bounds_example =
    schedule-bounds naturals naturals-Ordered policy 10 45 (some 20)
      {s = record { due_at = 30000010; commitment_shortened = true }} (ground arith) refl
