-- ===== src/Store/Result.antt =====
-- Exceptions as values. A transaction that raises is rolled back (`session.begin()`), so an error
-- carries no state.
use cognition.Prelude.{◌≡◌, refl, Bool, true, false, Option, none, some}

-- The classes of exception that the stores raise: LookupError, ValueError, RevisionConflict,
-- PermissionError, IncompatibleExecutiveContract, ContextBudgetExceeded, the database's
-- IntegrityError, OverflowError and AssertionError.
pub data Error : Type 0 where
  lookup_error value_error revision_conflict permission_error incompatible budget_exceeded
        integrity_error overflow_error assertion_error :
      Error

pub data Result {ℓ} (R : Type ℓ) : Type ℓ where
  err : Error → Result R
  ok : R → Result R

-- `if row is None: raise error`
abbrev pub require {ℓ} : {R : Type ℓ} → Option R → Error → Result R
require (some row) e = ok row
require none e = err e

-- `if test: raise error`
abbrev pub raise_if : Bool → Error → Result (Unit {0})
raise_if false e = ok tt
raise_if true e = err e

-- The statements that follow run where this one did not raise.
module _ {ℓ κ} {R : Type ℓ} {S : Type κ} where
  infixl 5 ◌>>=◌
  abbrev pub ◌>>=◌ : Result R → (R → Result S) → Result S
  err e >>= next = err e
  ok r >>= next = next r

  infixl 5 ◌>>◌
  abbrev pub ◌>>◌ : Result R → Result S → Result S
  step >> next = step >>= λ _. next

-- What a step that did not raise returned, and that the rest went on from there, handed on so that a
-- proof keeps the parts as variables.
pub >>=-elim {ℓ κ μ} :
    {R : Type ℓ} {S : Type κ} {C : Type μ} (step : Result R) (next : R → Result S) {s : S}
    → (step >>= next) ≡ ok s
    → ((r : R) → step ≡ ok r → next r ≡ ok s → C)
    → C
>>=-elim (ok r) next h k = k r refl h
>>=-elim (err e) next h k = absurd (cc)

pub require-eq-ok {ℓ} :
    {R : Type ℓ} (o : Option R) (e : Error) {r : R} → require o e ≡ ok r → o ≡ some r
require-eq-ok none e h = cc
require-eq-ok (some r) e h = cc

pub raise_if-eq-ok : (b : Bool) (e : Error) {u : Unit {0}} → raise_if b e ≡ ok u → b ≡ false
raise_if-eq-ok true e h = cc
raise_if-eq-ok false e h = refl
