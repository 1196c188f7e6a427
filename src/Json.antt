-- ===== src/Json.antt =====
-- serde_json's `Value` as the program builds and reads it. An `Object` is its map with ascending
-- keys.
use qumulus.Base.{ℕ, Bool, true, false}
use qumulus.Text.{Text}

-- A JSON number by the conversion that made it.
pub data Number : Type 0 where
  of_u64 : ℕ → Number
  of_i64 : ℕ → Number
  of_f64 : ℕ → Number

mutual
  pub data Json : Type 0 where
    null : Json
    bool : Bool → Json
    number : Number → Json
    string : Text → Json
    array : Items → Json
    object : Fields → Json

  pub data Items : Type 0 where
    nil : Items
    cons : Json → Items → Items

  pub data Fields : Type 0 where
    end : Fields
    field : Text → Json → Fields → Fields

-- `== Value::Null`.
abbrev pub is_null : Json → Bool
is_null null = true
is_null _ = false
