-- ===== src/Perception.antt =====
-- Strict JSON of observed sources: `_string` and validate_json of
-- src/cognition/domain/perception.py. A raised InvalidPerception is a `value_error`.
pub mod Depth
use Prim.Native.Char.{code}
use cognition.Prelude.{
  ℕ, suc, zero, ◌+◌, ◌/◌, ◌%◌, ◌≤◌, ◌≡◌, refl, Bool, true, false, not, ◌&&◌, ◌||◌, String, arith,
  ◌==◌, leb, max, Bool-cases, inl, inr,
}
use cognition.Json.{
  Json, Items, Fields, null, boolean, natural, negative, float, string, array, object, nil, cons,
  end, field,
}
use cognition.Store.Result.{Result, ok, err, Error, ◌>>=◌, ◌>>◌, raise_if}

abbrev pub max_json_depth : ℕ
max_json_depth = 16

-- A code point that UTF-8 cannot encode.
abbrev is_surrogate : ℕ → Bool
is_surrogate c = leb 55296 c && leb c 57343

-- No NUL, and encodable as UTF-8.
unfoldable pub is_clean : String → Bool
is_clean String.[] = true
is_clean (String.◌∷◌ c s) = not (code c == 0) && not (is_surrogate (code c)) && is_clean s

-- `math.isfinite` of a 64-bit pattern: its exponent is not all ones.
unfoldable pub is_finite : ℕ → Bool
is_finite bits = not ((bits / 4503599627370496) % 2048 == 2047)

unfoldable mutual
  pub validate_json : Json → ℕ → Result (Unit {0})
  validate_json null depth = ok tt
  validate_json (boolean b) depth = ok tt
  validate_json (natural n) depth = ok tt
  validate_json (negative n) depth = ok tt
  validate_json (string s) depth = raise_if (not (is_clean s)) Error.value_error
  validate_json (float bits) depth = raise_if (not (is_finite bits)) Error.value_error
  validate_json (object members) depth = do
    raise_if (leb max_json_depth depth) Error.value_error
    validate_members members (depth + 1)
  validate_json (array members) depth = do
    raise_if (leb max_json_depth depth) Error.value_error
    validate_items members (depth + 1)

  pub validate_items : Items → ℕ → Result (Unit {0})
  validate_items nil depth = ok tt
  validate_items (cons v rest) depth = do validate_json v depth; validate_items rest depth

  pub validate_members : Fields → ℕ → Result (Unit {0})
  validate_members end depth = ok tt
  validate_members (field key v rest) depth = do
    raise_if (not (is_clean key)) Error.value_error
    validate_json v depth
    validate_members rest depth
