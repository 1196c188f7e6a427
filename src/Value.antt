-- ===== src/Value.antt =====
-- src/value.rs: the leaf value of a node.
use qumulus.Base.{ℕ, Bool, true, false, not, ◌&&◌, ◌||◌, ◌%◌, ltb, ◌==◌, if◌then◌else◌}
use qumulus.Text.{Text, text_eq}

-- `i64` and `f64` carry 64-bit patterns: two's complement and IEEE 754.
pub data Value : Type 0 where
  null : Value
  bool : Bool → Value
  i64 : ℕ → Value
  u64 : ℕ → Value
  f64 : ℕ → Value
  string : Text → Value

abbrev pub sign_bit : ℕ
sign_bit = 9223372036854775808

abbrev pub infinity : ℕ
infinity = 9218868437227405312

-- Rust's `==` on `f64`: NaN equals nothing, and the two zeros are equal.
unfoldable pub f64_eq : ℕ → ℕ → Bool
f64_eq a b =
    if ltb infinity (a % sign_bit) || ltb infinity (b % sign_bit)
    then false
    else (a == b || (a % sign_bit == 0 && b % sign_bit == 0))

abbrev bool_eq : Bool → Bool → Bool
bool_eq true b = b
bool_eq false b = not b

-- The derived `PartialEq`.
unfoldable pub value_eq : Value → Value → Bool
unfolding f64_eq
value_eq null null = true
value_eq (bool a) (bool b) = bool_eq a b
value_eq (i64 a) (i64 b) = a == b
value_eq (u64 a) (u64 b) = a == b
value_eq (f64 a) (f64 b) = f64_eq a b
value_eq (string a) (string b) = text_eq a b
value_eq _ _ = false

abbrev pub is_null : Value → Bool
is_null null = true
is_null _ = false
