-- ===== src/Cycle/Recorded.antt =====
-- What recording an answer leaves behind: record_result of src/cognition/stores/cognition.py.
use cognition.Prelude.{
  ℕ, ◌≡◌, ◌⊎◌, refl, ◌∙◌, ap, true, false, Option, none, some, ◌==◌, find, find-update_self, inl,
  inr,
}
use cognition.Protocol.Model.{ModelError, ModelRequest, ModelResult}
use cognition.Store.Result.{ok}
use cognition.Store.Rows.{ModelInvocation, InvocationStatus, is_started}
use cognition.Store.Db.{Db}
use cognition.Cycle.Collaborators.{Collaborators, Keeps}
use cognition.Cycle.Stages.{record_execution_event}
use cognition.Cycle.Finish.{finish_cycle-SameStages}
use cognition.Cycle.Invoke.{CycleRecord, TurnRecord, with_invocations, find_invocation, failed_with}
use cognition.Cycle.Result.{sanitized, retryable, retained, retryable, record_result}
use cognition.Cycle.Outcome.{Outcome, mismatched, retried, ended, decided, record_result-Outcome}

-- An error without the provider's own words.
abbrev pub Sanitary : Option ModelError → Type 0
Sanitary none = Unit
Sanitary (some e) =
    (e.code ≡ "provider_reported_error") × (e.message ≡ "Provider reported an error")

-- What is kept of an answer: its decision and status, and of an error whether it may be retried.
pub record IsRetained (r kept : ModelResult) : Type 0 where
  pub request_kept : kept.request_id ≡ r.request_id
  pub decision_kept : kept.decision ≡ r.decision
  pub status_kept : kept.status ≡ r.status
  pub sanitary : Sanitary kept.error
  pub same_retry : retryable kept.error ≡ retryable r.error

sanitized-Sanitary : (e : Option ModelError) → Sanitary (sanitized e)
sanitized-Sanitary none = tt
sanitized-Sanitary (some e) = (refl, refl)

sanitized_retryable : (e : Option ModelError) → retryable (sanitized e) ≡ retryable e
sanitized_retryable none = refl
sanitized_retryable (some e) = refl

retained-IsRetained : (r : ModelResult) → IsRetained r (retained r)
retained-IsRetained r = record {
  request_kept = refl;
  decision_kept = refl;
  status_kept = refl;
  sanitary = sanitized-Sanitary r.error;
  same_retry = sanitized_retryable r.error;
}

module _ (s : Collaborators) (cycle : CycleRecord) (turn : TurnRecord) (v : ℕ) (q : ModelRequest)
    (r : ModelResult) (now : ℕ) where
  -- An invocation once its answer is recorded: not open, completed now, and of the answer nothing is
  -- kept, or what IsRetained says.
  pub record IsRecorded (row : ModelInvocation) (db' : Db) : Type 0 where
    pub after : ModelInvocation
    pub is_found : find_invocation v db' ≡ some after
    pub not_open : is_started after.status ≡ false
    pub completed : after.completed_at ≡ some now
    pub answer :
        (after.result ≡ row.result)
        ⊎ ((kept : ModelResult) × (after.result ≡ some kept) × IsRetained r kept)

  found_after :
      (f : ModelInvocation → ModelInvocation)
      → ((x : ModelInvocation) → (f x).invocation_id ≡ x.invocation_id)
      → (row : ModelInvocation) (db : Db) → find_invocation v db ≡ some row
      → find_invocation v (with_invocations (λ x. x.invocation_id == v) f db) ≡ some (f row)
  found_after f keep row db found =
      find-update_self (λ (x : ModelInvocation). x.invocation_id == v) f
        (λ x. ap (λ i. i == v) (keep x)) db.invocations {r = row} found

  outcome-IsRecorded :
      Keeps s
      → (row : ModelInvocation) (db db' : Db) → find_invocation v db ≡ some row
      → Outcome s cycle turn v q r now db db'
      → IsRecorded row db'
  outcome-IsRecorded k row db db' found (mismatched code e) = record {
    after = failed_with now code row;
    is_found = rw e (found_after (failed_with now code) (λ x. refl) row db found);
    not_open = refl;
    completed = refl;
    answer = inl refl;
  }
  outcome-IsRecorded k row db db' found (retried code e) = record {
    after = record row {
      result = some (retained r);
      completed_at = some now;
      status = InvocationStatus.failed;
      error_code = some code;
    };
    is_found = rw e (
        found_after
          (λ x. record x {
            result = some (retained r);
            completed_at = some now;
            status = InvocationStatus.failed;
            error_code = some code;
          })
          (λ x. refl) row db found);
    not_open = refl;
    completed = refl;
    answer = inr (retained r, refl, retained-IsRetained r);
  }
  outcome-IsRecorded k row db db' found (ended code reason e) = record {
    after = record row {
      result = some (retained r);
      completed_at = some now;
      status = InvocationStatus.failed;
      error_code = some code;
    };
    is_found =
        ap (find (λ (x : ModelInvocation). x.invocation_id == v))
          (finish_cycle-SameStages s k cycle.cycle_id now reason true _ db' e).invocations
        ∙ found_after
            (λ x. record x {
              result = some (retained r);
              completed_at = some now;
              status = InvocationStatus.failed;
              error_code = some code;
            })
            (λ x. refl) row db found;
    not_open = refl;
    completed = refl;
    answer = inr (retained r, refl, retained-IsRetained r);
  }
  outcome-IsRecorded k row db db' found (decided d fresh e) =
      unfold record_execution_event in
      record {
        after = record row {
          result = some (retained r);
          completed_at = some now;
          status = InvocationStatus.completed;
        };
        is_found = rw e (
            found_after
              (λ x. record x {
                result = some (retained r);
                completed_at = some now;
                status = InvocationStatus.completed;
              })
              (λ x. refl) row db found);
        not_open = refl;
        completed = refl;
        answer = inr (retained r, refl, retained-IsRetained r);
      }

  -- For collaborators that keep to their tables and an existing invocation: where record_result
  -- succeeds, the invocation is no longer open and was completed at the moment given, and its
  -- result is as it was, or one with the request, the decision and the status of the answer and
  -- a fixed text in place of the provider's own diagnostics.
  pub record_result-IsRecorded :
      Keeps s
      → (row : ModelInvocation) (db db' : Db) → find_invocation v db ≡ some row
      → record_result s cycle turn v q r now db ≡ ok db'
      → IsRecorded row db'
  record_result-IsRecorded k row db db' found h =
      outcome-IsRecorded k row db db' found (record_result-Outcome s cycle turn v q r now db db' h)
