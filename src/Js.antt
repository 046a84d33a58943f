-- ===== src/Js.antt =====
-- The JavaScript values that the addon is called with, as V8 shows them, and src/util.cc's
-- conversions. V8 is no part of the repository: the tests and casts are parameters.
use btle_js.Prelude.{ℕ, ◌-◌, ◌%◌, Bool, true, false, String, ℤ, pos, negsuc, List, if◌then◌else◌}

-- `int_of` is the C cast `(int) number->Value()`, `is_exact` whether the `double` equals it, and
-- `integer_of` is `IntegerValue()`. `undefined` is also what an argument that was not given reads as.
pub record Js (Value : Type 0) : Type 0 where
  pub is_string : Value → Bool
  pub is_number : Value → Bool
  pub is_uint32 : Value → Bool
  pub is_boolean : Value → Bool
  pub is_function : Value → Bool
  pub is_object : Value → Bool
  pub is_null : Value → Bool
  pub is_buffer : Value → Bool
  pub int_of : Value → ℤ
  pub is_exact : Value → Bool
  pub integer_of : Value → ℤ
  pub boolean_of : Value → Bool
  pub string_of : Value → String
  pub buffer_data : Value → List ℕ
  pub undefined : Value

-- A conversion of an `int` to an unsigned integer of `2 ^ k` values.
abbrev pub wrap : ℕ → ℤ → ℕ
wrap m (pos n) = n % m
wrap m (negsuc n) = m - 1 - n % m

-- `getIntValue`: the result and what the reference argument holds after the call.
unfoldable pub get_int_value : {Value : Type 0} → Js Value → Value → ℤ → Bool × ℤ
get_int_value js number int_value =
    if js.is_exact number then (true, js.int_of number) else (false, int_value)

-- `getBooleanValue`
unfoldable pub get_boolean_value : {Value : Type 0} → Js Value → Value → ℤ
get_boolean_value js boolean = if js.boolean_of boolean then pos 1 else pos 0
