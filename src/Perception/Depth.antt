-- ===== src/Perception/Depth.antt =====
-- Which JSON values are accepted from a source: validate_json of src/cognition/domain/perception.py.
use cognition.Prelude.{
  ℕ, suc, ◌+◌, ◌≤◌, ◌≡◌, ◌↔◌, refl, sym, ◌∙◌, ap, Bool, true, false, not, ◌&&◌, arith, leb, max,
  Bool-cases, inl, inr,
}
use cognition.Json.{
  Json, Items, Fields, null, boolean, natural, negative, float, string, array, object, nil, cons,
  end, field,
}
use cognition.Store.Result.{Result, ok, err, Error, ◌>>◌, raise_if}
use cognition.Perception.{
  is_clean, is_finite, max_json_depth, validate_json, validate_items, validate_members,
}

-- How deep arrays and objects stand in each other.
mutual
  pub nesting : Json → ℕ
  nesting (array members) = suc (items_nesting members)
  nesting (object members) = suc (members_nesting members)
  nesting _ = 0

  items_nesting : Items → ℕ
  items_nesting nil = 0
  items_nesting (cons v rest) = max (nesting v) (items_nesting rest)

  members_nesting : Fields → ℕ
  members_nesting end = 0
  members_nesting (field key v rest) = max (nesting v) (members_nesting rest)

-- Every text is clean, every key too, and every float is finite.
mutual
  pub is_sound : Json → Bool
  is_sound (string s) = is_clean s
  is_sound (float bits) = is_finite bits
  is_sound (array members) = items_sound members
  is_sound (object members) = members_sound members
  is_sound _ = true

  items_sound : Items → Bool
  items_sound nil = true
  items_sound (cons v rest) = is_sound v && items_sound rest

  members_sound : Fields → Bool
  members_sound end = true
  members_sound (field key v rest) = is_clean key && (is_sound v && members_sound rest)

abbrev pub accepted : Result (Unit {0}) → Bool
accepted (ok _) = true
accepted (err e) = false

accepted_next : (m k : Result (Unit {0})) → accepted (m >> k) ≡ accepted m && accepted k
accepted_next (ok u) k = refl
accepted_next (err e) k = refl

accepted_raise : (b : Bool) (e : Error) → accepted (raise_if b e) ≡ not b
accepted_raise true e = refl
accepted_raise false e = refl

leb-max : (d m n : ℕ) → leb (d + max m n) 16 ≡ leb (d + m) 16 && leb (d + n) 16
leb-max d m n = ground arith

abbrev deeper : ℕ → ℕ → Bool
deeper depth n = leb (depth + n) max_json_depth

-- An array or an object is accepted where its members are, one level down, and there is a level.
container :
    (depth n : ℕ) (b : Bool) (m : Result (Unit {0}))
    → (depth + 1 ≤ 16 → accepted m ≡ b && deeper (depth + 1) n)
    → accepted (raise_if (leb max_json_depth depth) Error.value_error >> m)
      ≡ b && deeper depth (suc n)
container depth n b m h = elim (Bool-cases (leb max_json_depth depth)) [
  | inl deep ↦
      let over : deeper depth (suc n) ≡ false = ground (arith, deep) in
      rw (deep, over) (false_right b)
  | inr room ↦
      let same : deeper (depth + 1) n ≡ deeper depth (suc n) = ground arith in
      rw room (h (ground (arith, room)) ∙ ap (λ x. b && x) same)
]
  where
    false_right : (b : Bool) → false ≡ b && false
    false_right b = ground arith

-- A first part and the rest, each sound and within the depth.
joined :
    (m k : Result (Unit {0})) (b c p q r : Bool)
    → accepted m ≡ b && p
    → accepted k ≡ c && q
    → r ≡ p && q
    → accepted (m >> k) ≡ (b && c) && r
joined m k b c p q r e f g = accepted_next m k ∙ rw (e, f, g) (swap b p c q)
  where
    swap : (b p c q : Bool) → (b && p) && (c && q) ≡ (b && c) && (p && q)
    swap b p c q = ground arith

-- A key before the rest.
keyed :
    (a : Bool) (k : Result (Unit {0})) (c r : Bool)
    → accepted k ≡ c && r
    → accepted (raise_if (not a) Error.value_error >> k) ≡ (a && c) && r
keyed true k c r e = e
keyed false k c r e = refl

mutual
  unfolding validate_json is_sound nesting

  json_accepted :
      (v : Json) (depth : ℕ)
      → depth ≤ 16
      → accepted (validate_json v depth) ≡ is_sound v && deeper depth (nesting v)
  json_accepted null depth h = ground arith
  json_accepted (boolean b) depth h = ground arith
  json_accepted (natural n) depth h = ground arith
  json_accepted (negative n) depth h = ground arith
  json_accepted (string s) depth h =
      ground (arith, accepted_raise (not (is_clean s)) Error.value_error)
  json_accepted (float bits) depth h =
      ground (arith, accepted_raise (not (is_finite bits)) Error.value_error)
  json_accepted (object members) depth h =
      container depth (members_nesting members) (members_sound members)
        (validate_members members (depth + 1)) (members_accepted members (depth + 1))
  json_accepted (array members) depth h =
      container depth (items_nesting members) (items_sound members)
        (validate_items members (depth + 1)) (items_accepted members (depth + 1))

  items_accepted :
      (vs : Items) (depth : ℕ)
      → depth ≤ 16
      → accepted (validate_items vs depth) ≡ items_sound vs && deeper depth (items_nesting vs)
  items_accepted nil depth h = ground arith
  items_accepted (cons v rest) depth h =
      joined (validate_json v depth) (validate_items rest depth) (is_sound v) (items_sound rest)
        (deeper depth (nesting v)) (deeper depth (items_nesting rest))
        (deeper depth (max (nesting v) (items_nesting rest))) (json_accepted v depth h)
        (items_accepted rest depth h) (leb-max depth (nesting v) (items_nesting rest))

  members_accepted :
      (vs : Fields) (depth : ℕ)
      → depth ≤ 16
      → accepted (validate_members vs depth) ≡ members_sound vs && deeper depth (members_nesting vs)
  members_accepted end depth h = ground arith
  members_accepted (field key v rest) depth h =
      keyed (is_clean key) (validate_json v depth >> validate_members rest depth)
        (is_sound v && members_sound rest) (deeper depth (max (nesting v) (members_nesting rest)))
        (joined (validate_json v depth) (validate_members rest depth) (is_sound v)
          (members_sound rest) (deeper depth (nesting v)) (deeper depth (members_nesting rest))
          (deeper depth (max (nesting v) (members_nesting rest))) (json_accepted v depth h)
          (members_accepted rest depth h) (leb-max depth (nesting v) (members_nesting rest)))

-- For any JSON value: validate_json from depth 0 accepts it exactly when all its texts and keys
-- can be kept as UTF-8 without NUL, all its floats are finite, and arrays and objects stand in
-- each other at most 16 deep.
pub validate_json-ok_iff :
    (v : Json) → (validate_json v 0 ≡ ok tt) ↔ ((is_sound v ≡ true) × (nesting v ≤ max_json_depth))
validate_json-ok_iff v = (
  (λ h. split (is_sound v) (nesting v) (sym (json_accepted v 0 (omega arith)) ∙ ap accepted h)),
  (λ p.
      is_ok (validate_json v 0)
        (json_accepted v 0 (omega arith) ∙ both (is_sound v) (nesting v) p)),
)
  where
    split : (b : Bool) (n : ℕ) → (b && deeper 0 n) ≡ true → (b ≡ true) × (n ≤ 16)
    split b n h = ground arith

    both : (b : Bool) (n : ℕ) → (b ≡ true) × (n ≤ 16) → (b && deeper 0 n) ≡ true
    both b n p = ground (arith, p.0, p.1)

    is_ok : (m : Result (Unit {0})) → accepted m ≡ true → m ≡ ok tt
    is_ok (ok u) h = refl
    is_ok (err e) h = absurd (cc)
