-- ===== src/Prelude/Lists.antt =====
-- Lists as tables: rows found, counted, selected and rewritten by a Boolean test.
use Prim.Native.Nat.{ℕ, zero, suc, ◌+◌, ◌≤◌, ◌<◌}
use mathlib.Core.Logic.{inl, inr}
use mathlib.Core.Path.{◌≡◌, refl}
use mathlib.Core.Bool.{Bool, true, false, ◌&&◌, ◌||◌}
use mathlib.Core.Option.{Option, none, some}
use mathlib.Core.List.{List, [], ◌∷◌, ◌++◌}
use native.Mathlib.Omega.{arith}
use cognition.Prelude.Tests.{Bool-cases, if◌then◌else◌}

module _ {ℓ} {A : Type ℓ} where
  abbrev pub length : List A → ℕ
  length [] = 0
  length (x ∷ xs) = suc (length xs)

  abbrev pub take : ℕ → List A → List A
  take zero xs = []
  take (suc n) [] = []
  take (suc n) (x ∷ xs) = x ∷ take n xs

  -- The first row that passes the test.
  abbrev pub find : (A → Bool) → List A → Option A
  find p [] = none
  find p (x ∷ xs) = if p x then some x else find p xs

  -- The rows that pass the test.
  abbrev pub select : (A → Bool) → List A → List A
  select p [] = []
  select p (x ∷ xs) = let rest = select p xs in if p x then x ∷ rest else rest

  abbrev pub any : (A → Bool) → List A → Bool
  any p [] = false
  any p (x ∷ xs) = p x || any p xs

  abbrev pub all : (A → Bool) → List A → Bool
  all p [] = true
  all p (x ∷ xs) = p x && all p xs

  -- How many rows pass the test.
  abbrev pub count : (A → Bool) → List A → ℕ
  count p [] = 0
  count p (x ∷ xs) = let rest = count p xs in if p x then suc rest else rest

  -- The rows that pass the test are rewritten, the others stay.
  abbrev pub update : (A → Bool) → (A → A) → List A → List A
  update p f [] = []
  update p f (x ∷ xs) = (if p x then f x else x) ∷ update p f xs

  abbrev pub All {κ} : (A → Type κ) → List A → Type κ
  All P [] = Unit
  All P (x ∷ xs) = P x × All P xs

module _ {ℓ} {A : Type ℓ} where
  pub length-take-le : (n : ℕ) (xs : List A) → length (take n xs) ≤ n
  length-take-le zero xs = omega arith
  length-take-le (suc n) [] = omega arith
  length-take-le (suc n) (x ∷ xs) = omega (arith, length-take-le n xs)

  pub count-append : (p : A → Bool) (xs ys : List A) → count p (xs ++ ys) ≡ count p xs + count p ys
  count-append p [] ys = omega arith
  count-append p (x ∷ xs) ys = ground (arith, count-append p xs ys)

  -- A rewrite that leaves the test's value alone leaves the count alone.
  pub count-update :
      (q p : A → Bool) (f : A → A)
      → ((x : A) → p x ≡ true → q (f x) ≡ q x)
      → (xs : List A) → count q (update p f xs) ≡ count q xs
  count-update q p f keep [] = refl
  count-update q p f keep (x ∷ xs) = ground (arith, keep x, count-update q p f keep xs)

  pub find-eq-some : (q : A → Bool) (xs : List A) {r : A} → find q xs ≡ some r → q r ≡ true
  find-eq-some q [] h = ground arith
  find-eq-some q (x ∷ xs) {r} h = ground (arith, find-eq-some q xs {r = r})

  pub find-update :
      (q p : A → Bool) (f : A → A)
      → ((x : A) → q (f x) ≡ q x)
      → (xs : List A) {r : A} → find q xs ≡ some r
      → find q (update p f xs) ≡ some (if p r then f r else r)
  find-update q p f keep [] h = ground arith
  find-update q p f keep (x ∷ xs) {r} h = ground (arith, keep x, find-update q p f keep xs {r = r})

  pub All-select : (p : A → Bool) (xs : List A) → All (λ x. p x ≡ true) (select p xs)
  All-select p [] = tt
  All-select p (x ∷ xs) = ground (arith, All-select p xs)

  pub All-imp {κ μ} :
      (P : A → Type κ) (Q : A → Type μ)
      → ((x : A) → P x → Q x)
      → (xs : List A) → All P xs
      → All Q xs
  All-imp P Q f [] h = tt
  All-imp P Q f (x ∷ xs) h = (f x h.0, All-imp P Q f xs h.1)

  pub All-take {κ} : (P : A → Type κ) (n : ℕ) (xs : List A) → All P xs → All P (take n xs)
  All-take P zero xs h = tt
  All-take P (suc n) [] h = tt
  All-take P (suc n) (x ∷ xs) h = (h.0, All-take P n xs h.1)

module _ {ℓ} {A : Type ℓ} where
  -- A keyed row that is rewritten without its key is found in its new form.
  pub find-update_self :
      (q : A → Bool) (f : A → A)
      → ((x : A) → q (f x) ≡ q x)
      → (xs : List A) {r : A} → find q xs ≡ some r
      → find q (update q f xs) ≡ some (f r)
  find-update_self q f keep xs {r} h =
      ground (arith, find-update q q f keep xs {r = r}, find-eq-some q xs {r = r})

  -- A rewrite of other rows.
  pub find-update_ne :
      (q p : A → Bool) (f : A → A)
      → ((x : A) → q (f x) ≡ q x)
      → ((x : A) → q x ≡ true → p x ≡ false)
      → (xs : List A) → find q (update p f xs) ≡ find q xs
  find-update_ne q p f keep apart [] = refl
  find-update_ne q p f keep apart (x ∷ xs) =
      ground (arith, keep x, apart x, find-update_ne q p f keep apart xs)

  pub find-none : (p : A → Bool) (xs : List A) → find p xs ≡ none → count p xs ≡ 0
  find-none p [] h = refl
  find-none p (x ∷ xs) h = ground (arith, find-none p xs)

  pub count-pos : (p : A → Bool) (xs : List A) {r : A} → find p xs ≡ some r → 0 < count p xs
  count-pos p [] h = ground arith
  count-pos p (x ∷ xs) {r} h = ground (arith, count-pos p xs {r = r})

  -- A row found by one test is the row that a key names.
  pub find_unique :
      (p q : A → Bool) (xs : List A) {r : A}
      → find p xs ≡ some r
      → q r ≡ true
      → count q xs ≤ 1
      → find q xs ≡ some r
  find_unique p q [] h e u = ground arith
  find_unique p q (x ∷ xs) {r} h e u = elim (Bool-cases (p x)) [
    | inl px ↦ ground arith
    | inr nx ↦
        let ih = find_unique p q xs {r = r} (ground arith) e (ground arith) in
        ground (arith, ih, count-pos q xs {r = r})
  ]

  pub any-append : (p : A → Bool) (xs ys : List A) → any p (xs ++ ys) ≡ any p xs || any p ys
  any-append p [] ys = refl
  any-append p (x ∷ xs) ys = ground (arith, any-append p xs ys)

  pub find-append :
      (p : A → Bool) (xs : List A) (y : A)
      → p y ≡ true
      → find p xs ≡ none
      → find p (xs ++ y ∷ []) ≡ some y
  find-append p [] y h e = ground arith
  find-append p (x ∷ xs) y h e = ground (arith, find-append p xs y h)

  pub All-select_of {κ} :
      (P : A → Type κ) (p : A → Bool) (xs : List A)
      → All P xs
      → All (λ x. P x × (p x ≡ true)) (select p xs)
  All-select_of P p [] h = tt
  All-select_of P p (x ∷ xs) h = elim (Bool-cases (p x)) [
    | inl e ↦ rw e ((h.0, e), All-select_of P p xs h.1)
    | inr e ↦ rw e (All-select_of P p xs h.1)
  ]
