-- ===== src/Protocol/Ref.antt =====
-- `Ref` and `NonEmptyString` of src/cognition/protocols/common.py, and the validators'
-- `_require_fields`. A UUID is the number that it stands for, `UUID.int`.
use cognition.Prelude.{
  ℕ, ◌≡◌, Bool, true, false, not, ◌&&◌, Option, none, some, String, List, arith, ◌==◌, str_eq,
  str_eq_iff, ==_iff, all,
}

pub record Ref : Type 0 where
  pub kind : String
  pub id : ℕ

abbrev pub ref_eq : Ref → Ref → Bool
ref_eq a b = str_eq a.kind b.kind && a.id == b.id

pub ref_eq→eq : (a b : Ref) → ref_eq a b ≡ true → a ≡ b
ref_eq→eq a b h = ground (arith, str_eq_iff a.kind b.kind, ==_iff a.id b.id)

pub ref_eq_self : (a : Ref) → ref_eq a a ≡ true
ref_eq_self a = ground (arith, str_eq_iff a.kind a.kind, ==_iff a.id a.id)

-- `Field(min_length=1)`
abbrev pub nonempty : String → Bool
nonempty s = not (str_eq s "")

-- A required text is neither `None` nor empty.
abbrev pub has_text : Option String → Bool
has_text none = false
has_text (some s) = nonempty s

abbrev pub valid_refs : List Ref → Bool
valid_refs = all (λ r. nonempty r.kind)
