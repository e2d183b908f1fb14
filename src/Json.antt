-- ===== src/Json.antt =====
-- JSON values as the program holds them (`JsonObject` of src/cognition/protocols/common.py).
-- A float is its 64-bit pattern; `negative n` is the integer -(n + 1).
use cognition.Prelude.{ℕ, String, Bool}

mutual
  pub data Json : Type 0 where
    null : Json
    boolean : Bool → Json
    natural negative : ℕ → Json
    float : ℕ → Json
    string : String → Json
    array : Items → Json
    object : Fields → Json

  pub data Items : Type 0 where
    nil : Items
    cons : Json → Items → Items

  pub data Fields : Type 0 where
    end : Fields
    field : String → Json → Fields → Fields
