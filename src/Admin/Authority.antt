-- ===== src/Admin/Authority.antt =====
-- What no sequence of administrative operations can do (src/cognition/runtime/lifecycle.py).
use cognition.Prelude.{
  ℕ, ◌≡◌, refl, ◌∙◌, some, String, List, [], ◌∷◌, arith, ◌==◌, Bool-cases, inl, inr,
}
use cognition.Policy.Governance.{AdminOperation, emergency_block, transition}
use cognition.Store.Result.{Result, ok, err}
use cognition.Store.Rows.{Individual, Governance, retired}
use cognition.Store.Db.{Db, find_individual}
use cognition.Admin.{AuthenticatedPrincipal, AdminOperationResult, apply_admin_operation}
use cognition.Admin.Effects.{Changes, Administered, apply_admin_operation-Administered}

pub record Attempt : Type 0 where
  pub individual_id : ℕ
  pub principal : AuthenticatedPrincipal
  pub name : String
  pub reason : String
  pub now : ℕ

-- A refused operation is rolled back.
abbrev after : Result (AdminOperationResult × Db) → Db → Db
after (ok (r, db')) db = db'
after (err e) db = db

abbrev attempt : Attempt → Db → Db
attempt a db = after (apply_admin_operation a.individual_id a.principal a.name a.reason a.now db) db

unfoldable pub attempts : List Attempt → Db → Db
attempts [] db = db
attempts (a ∷ rest) db = attempts rest (attempt a db)

abbrev pub IsRetired : ℕ → Db → Type 0
IsRetired i db =
    (p : Individual) × (find_individual i db ≡ some p) × (p.operational_status ≡ retired)

Changes-retired :
    (op : AdminOperation) (p : Individual) (g : Governance) (p' : Individual) (g' : Governance)
    → Changes op p g p' g'
    → p.operational_status ≡ retired
    → p'.operational_status ≡ retired
unfolding transition
Changes-retired emergency_block p g p' g' h r = ground arith
Changes-retired op p g p' g' h r = ground arith

module _ (j : ℕ) (db : Db) (old : IsRetired j db) where
  Administered-IsRetired :
      {i : ℕ} {principal : AuthenticatedPrincipal} {name reason : String} {db' : Db}
      {r : AdminOperationResult}
      → Administered i principal name reason db db' r
      → IsRetired j db'
  Administered-IsRetired {i} a = elim (Bool-cases (i == j)) [
    | inl same ↦
        let e : i ≡ j = ground arith in
        (
          a.p',
          rw e at a.stored_after.0,
          Changes-retired a.operation a.p a.g a.p' a.g' a.change
              (cc (old.1, old.2, a.stored_before.0, e)),
        )
    | inr apart ↦ (old.0, a.apart.others j apart ∙ old.1, old.2)
  ]

  attempt-IsRetired : (a : Attempt) → IsRetired j (attempt a db)
  attempt-IsRetired a =
      settled (apply_admin_operation a.individual_id a.principal a.name a.reason a.now db) refl
    where
      settled :
          (m : Result (AdminOperationResult × Db))
          → apply_admin_operation a.individual_id a.principal a.name a.reason a.now db ≡ m
          → IsRetired j (after m db)
      settled (ok (r, db')) e = Administered-IsRetired (
          apply_admin_operation-Administered a.individual_id a.principal a.name a.reason a.now db
            db' r e)
      settled (err x) e = old

-- An individual that is retired stays retired under any sequence of attempted administrative
-- operations, on whichever individuals and by whichever principals, refused ones included.
pub attempts-IsRetired :
    (todo : List Attempt) (j : ℕ) (db : Db) → IsRetired j db → IsRetired j (attempts todo db)
unfolding attempts
attempts-IsRetired [] j db h = h
attempts-IsRetired (a ∷ rest) j db h =
    attempts-IsRetired rest j (attempt a db) (attempt-IsRetired j db h a)
