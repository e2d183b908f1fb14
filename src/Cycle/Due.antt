-- ===== src/Cycle/Due.antt =====
-- The order in which due wakes are read (`ORDER BY due_at, wake_id`): what it keeps, and its first.
use cognition.Prelude.{
  ◌≤◌, ◌≡◌, ◌≢◌, refl, sym, arith, none, some, List, [], ◌∷◌, All, All-imp, Bool-cases,
  Option-cases, inl, inr,
}
use cognition.Store.Rows.{Wake}
use cognition.Cycle.Claim.{sooner, insert_by_due, order_by_due, head_wake}

All-insert_by_due :
    (P : Wake → Type 0) (w : Wake) (ws : List Wake) → P w → All P ws → All P (insert_by_due w ws)
unfolding insert_by_due
All-insert_by_due P w [] h hs = (h, tt)
All-insert_by_due P w (x ∷ xs) h hs = elim (Bool-cases (sooner w x)) [
  | inl e ↦ rw e (h, hs)
  | inr e ↦ rw e (hs.0, All-insert_by_due P w xs h hs.1)
]

pub All-order_by_due : (P : Wake → Type 0) (ws : List Wake) → All P ws → All P (order_by_due ws)
unfolding order_by_due
All-order_by_due P [] hs = tt
All-order_by_due P (w ∷ ws) hs =
    All-insert_by_due P w (order_by_due ws) hs.0 (All-order_by_due P ws hs.1)

insert_by_due-IsNonempty : (w : Wake) (ws : List Wake) → insert_by_due w ws ≢ []
unfolding insert_by_due
insert_by_due-IsNonempty w [] = λ h. cc
insert_by_due-IsNonempty w (x ∷ xs) = ground arith

pub order_by_due-nil : (ws : List Wake) → order_by_due ws ≡ [] → ws ≡ []
unfolding order_by_due
order_by_due-nil [] h = refl
order_by_due-nil (w ∷ ws) h = absurd (insert_by_due-IsNonempty w (order_by_due ws) h)

-- The head of an insertion is due no later than the wake and the head before.
insert_by_due-head :
    (w : Wake) (ws : List Wake) {first : Wake}
    → head_wake (insert_by_due w ws) ≡ some first
    → (first.due_at ≤ w.due_at) × ((x : Wake) → head_wake ws ≡ some x → first.due_at ≤ x.due_at)
unfolding insert_by_due
insert_by_due-head w [] {first} h =
    let same : w ≡ first = cc in rw (sym same) ((omega arith), λ x e. absurd (cc))
insert_by_due-head w (y ∷ ys) {first} h = elim (Bool-cases (sooner w y)) [
  | inl before ↦
      let same : w ≡ first = cc (rw before at h) in
      rw (sym same) ((omega arith), λ x e. let here : y ≡ x = cc in rw (sym here) (ground arith))
  | inr after ↦
      let same : y ≡ first = cc (rw after at h) in
      rw (sym same) ((ground arith), λ x e. let here : y ≡ x = cc in rw here (omega arith))
]

-- The first of the ordered wakes is due no later than any of them.
pub order_by_due-head :
    (ws : List Wake) {first : Wake}
    → head_wake (order_by_due ws) ≡ some first
    → All (λ w. first.due_at ≤ w.due_at) ws
unfolding order_by_due
order_by_due-head [] h = tt
order_by_due-head (w ∷ ws) {first} h =
    let least = insert_by_due-head w (order_by_due ws) {first = first} h in
    (
      least.0,
      elim (Option-cases (head_wake (order_by_due ws))) [
        | inl nobody ↦
            let none_left : ws ≡ [] = order_by_due-nil ws (head-none (order_by_due ws) nobody) in
            rw none_left tt
        | inr (x, e) ↦
            All-imp (λ y. x.due_at ≤ y.due_at) (λ y. first.due_at ≤ y.due_at)
              (λ y h. omega (arith, h, least.1 x e)) ws (order_by_due-head ws {first = x} e)
      ],
    )
  where
    head-none : (xs : List Wake) → head_wake xs ≡ none → xs ≡ []
    head-none [] h = refl
    head-none (x ∷ xs) h = absurd (cc)
