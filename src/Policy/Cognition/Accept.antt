-- ===== src/Policy/Cognition/Accept.antt =====
-- What an empty list of errors means: validate_decision of src/cognition/policy/cognition.py.
use cognition.Prelude.{
  ℕ, ◌≤◌, ◌≡◌, ◌≢◌, ◌↔◌, refl, sym, ◌∙◌, Bool, true, false, not, List, [], ◌∷◌, ◌++◌, arith, ◌==◌,
  any, All, length, Bool-cases, inl, inr,
}
use cognition.Protocol.Ref.{Ref}
use cognition.Protocol.Decision.{CognitionDecision, parses}
use cognition.Policy.Cognition.{
  DecisionError, operation_ids, distinct, decision_refs, when, checks, validate_decision,
}

-- No identity stands twice.
abbrev pub Distinct : List ℕ → Type 0
Distinct [] = Unit
Distinct (x ∷ xs) = All (λ y. x ≢ y) xs × Distinct xs

-- What the policy asks of a decision that it lets pass.
pub record IsAcceptable (d : CognitionDecision) (cycle_id turn_id : ℕ) (known_ref : Ref → Bool)
    : Type 0 where
  pub well_formed : parses d ≡ true
  pub cycle_bound : d.cycle_id ≡ cycle_id
  pub turn_bound : d.turn_id ≡ turn_id
  pub identities : Distinct (operation_ids d)
  pub no_actions : d.action_requests ≡ []
  pub refs_known : All (λ r. known_ref r ≡ true) (decision_refs d)
  pub wakes_bounded : length d.wake_requests ≤ 16
  pub operations_bounded : length (operation_ids d) ≤ 64

when-append-nil :
    (b : Bool) (e : DecisionError) (rest : List DecisionError)
    → when b e ++ rest ≡ []
    → (b ≡ false) × (rest ≡ [])
unfolding when
when-append-nil true e rest h = cc
when-append-nil false e rest h = (refl, h)

when-nil : (b : Bool) (e : DecisionError) → when b e ≡ [] → b ≡ false
unfolding when
when-nil true e h = cc
when-nil false e h = refl

length-distinct-le : (xs : List ℕ) → length (distinct xs) ≤ length xs
unfolding distinct
length-distinct-le [] = omega arith
length-distinct-le (x ∷ xs) = ground (arith, length-distinct-le xs)

any-distinct : (a : ℕ) (xs : List ℕ) → any (λ y. a == y) (distinct xs) ≡ any (λ y. a == y) xs
unfolding distinct
any-distinct a [] = refl
any-distinct a (x ∷ xs) = ground (arith, any-distinct a xs, any-distinct x xs)

fresh_of_any : (a : ℕ) (xs : List ℕ) → any (λ y. a == y) xs ≡ false → All (λ y. a ≢ y) xs
fresh_of_any a [] h = tt
fresh_of_any a (x ∷ xs) h = (ground arith, fresh_of_any a xs (ground arith))

any_of_fresh : (a : ℕ) (xs : List ℕ) → All (λ y. a ≢ y) xs → any (λ y. a == y) xs ≡ false
any_of_fresh a [] h = refl
any_of_fresh a (x ∷ xs) h = ground (arith, h.0, any_of_fresh a xs h.1)

Distinct-length : (xs : List ℕ) → length xs ≡ length (distinct xs) → Distinct xs
unfolding distinct
Distinct-length [] h = tt
Distinct-length (x ∷ xs) h = elim (Bool-cases (any (λ y. x == y) (distinct xs))) [
  | inl e ↦ absurd (ground (arith, length-distinct-le xs))
  | inr e ↦ (fresh_of_any x xs (sym (any-distinct x xs) ∙ e), Distinct-length xs (ground arith))
]

length_of_Distinct : (xs : List ℕ) → Distinct xs → length xs ≡ length (distinct xs)
unfolding distinct
length_of_Distinct [] h = refl
length_of_Distinct (x ∷ xs) h =
    ground (arith, length_of_Distinct xs h.1, any-distinct x xs, any_of_fresh x xs h.0)

All-any :
    (p : Ref → Bool) (rs : List Ref) → any (λ r. not (p r)) rs ≡ false → All (λ r. p r ≡ true) rs
All-any p [] h = tt
All-any p (r ∷ rs) h = (ground arith, All-any p rs (ground arith))

any_of_All :
    (p : Ref → Bool) (rs : List Ref) → All (λ r. p r ≡ true) rs → any (λ r. not (p r)) rs ≡ false
any_of_All p [] h = refl
any_of_All p (r ∷ rs) h = ground (arith, h.0, any_of_All p rs h.1)

module _ (d : CognitionDecision) (cycle_id turn_id : ℕ) (known_ref : Ref → Bool) where
  checks-IsAcceptable :
      parses d ≡ true
      → checks d cycle_id turn_id known_ref ≡ []
      → IsAcceptable d cycle_id turn_id known_ref
  unfolding checks
  checks-IsAcceptable p h =
      let (c, h1) = when-append-nil _ _ _ h in
      let (t, h2) = when-append-nil _ _ _ h1 in
      let (i, h3) = when-append-nil _ _ _ h2 in
      let (a, h4) = when-append-nil _ _ _ h3 in
      let (r, h5) = when-append-nil _ _ _ h4 in
      let (w, h6) = when-append-nil _ _ _ h5 in
      record {
        well_formed = p;
        cycle_bound = ground (arith, c);
        turn_bound = ground (arith, t);
        identities = Distinct-length _ (ground (arith, i));
        no_actions = ground (arith, a);
        refs_known = All-any known_ref _ (r);
        wakes_bounded = ground (arith, w);
        operations_bounded = ground (arith, when-nil _ _ h6);
      }

  -- For a decision, a cycle, a turn and a test for known references, validate_decision gives no
  -- error exactly when the decision is acceptable: it parses, names that cycle and that turn,
  -- has no operation identity twice, requests no action, refers to known things only, and has at
  -- most 16 wake requests and 64 operations.
  pub validate_decision-nil_iff :
      (validate_decision d cycle_id turn_id known_ref ≡ [])
      ↔ IsAcceptable d cycle_id turn_id known_ref
  unfolding validate_decision checks when
  validate_decision-nil_iff = (
    (λ h. elim (Bool-cases (parses d)) [
      | inl p ↦ checks-IsAcceptable p (rw p at h)
      | inr p ↦ ground arith
    ]),
    (λ a. ground (
      arith,
      a.well_formed,
      a.cycle_bound,
      a.turn_bound,
      length_of_Distinct _ a.identities,
      a.no_actions,
      any_of_All known_ref _ a.refs_known,
      a.wakes_bounded,
      a.operations_bounded,
    )),
  )
