-- ===== src/Policy/Governance/Graph.antt =====
-- Which lifecycle statuses can follow which, over any run of accepted operations.
use cognition.Prelude.{◌≡◌, ◌≢◌, ◌⊎◌, ◌↔◌, inl, inr, refl, some, none, arith}
use cognition.Store.Rows.{OperationalStatus, active, paused, quiescing, quiescent, retired}
use cognition.Policy.Governance.{
  AdminOperation, pause, resume, begin_quiesce, complete_quiesce, abort_quiesce, retire, transition,
}

-- A run of accepted transitions.
pub data Reaches (s : OperationalStatus) : OperationalStatus → Type 0 where
  here : Reaches s s
  next :
      {t u : OperationalStatus} (o : AdminOperation)
      → Reaches s t
      → transition t o ≡ some u
      → Reaches s u

Reaches-trans : {s t u : OperationalStatus} → Reaches s t → Reaches t u → Reaches s u
Reaches-trans r here = r
Reaches-trans r (next o q h) = next o (Reaches-trans r q) h

Reaches-active : (s : OperationalStatus) → s ≢ retired → Reaches s active
unfolding transition
Reaches-active active h = here
Reaches-active paused h = next resume here refl
Reaches-active quiescing h = next resume (next abort_quiesce here refl) refl
Reaches-active quiescent h = next resume here refl
Reaches-active retired h = absurd (h refl)

active-Reaches : (u : OperationalStatus) → Reaches active u
unfolding transition
active-Reaches active = here
active-Reaches paused = next pause here refl
active-Reaches quiescing = next begin_quiesce here refl
active-Reaches quiescent = next complete_quiesce (next begin_quiesce here refl) refl
active-Reaches retired = next retire (next pause here refl) refl

retired-transition : (o : AdminOperation) → transition retired o ≡ none
unfolding transition
retired-transition o = ground arith

retired_stays : {s u : OperationalStatus} → Reaches s u → s ≡ retired → u ≡ retired
retired_stays here e = e
retired_stays (next {t = t} o r h) e = absurd (step o (retired_stays r e) h)
  where
    step :
        {t u : OperationalStatus} (o : AdminOperation) → t ≡ retired → transition t o ≡ some u → ⊥
    step o e h = cc (e, h, retired-transition o)

is_retired_or_not : (s : OperationalStatus) → (s ≡ retired) ⊎ (s ≢ retired)
is_retired_or_not s = ground arith

-- A run of accepted operations leads from one status to another exactly when the first is not
-- retired or the second is.
pub Reaches_iff : (s u : OperationalStatus) → Reaches s u ↔ ((s ≢ retired) ⊎ (u ≡ retired))
Reaches_iff s u = (
  (λ r. elim (is_retired_or_not s) [ inl e ↦ inr (retired_stays r e) | inr n ↦ inl n ]),
  (λ c. elim (is_retired_or_not s) [
    | inl e ↦ elim c [ inl n ↦ absurd (n e) | inr f ↦ same e f ]
    | inr n ↦ Reaches-trans (Reaches-active s n) (active-Reaches u)
  ]),
)
  where
    same : s ≡ retired → u ≡ retired → Reaches s u
    same e f = rw (e, f) here
