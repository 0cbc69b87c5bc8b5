-- ===== src/Python/Convert.antt =====
-- The conversions and the truth of a value: `bool(v)`, `v or d`, `int(v)`, `float(v)`, `v == 1`.
use stapel_realtime.Prelude.{
  String, ℕ, ◌*◌, ◌/◌, ◌^◌, Option, none, some, Bool, true, false, not, suc, zero, ◌==◌, leb,
  str_eq, if◌then◌else◌,
}
use stapel_realtime.Prelude.Int.{ℤ, pos, negsuc}
use stapel_realtime.Python.Values.{
  Float, finite, inf, nan, units, Value, null, bool, int, float, str, arr, obj, nil, cons, end,
  field, type_error, value_error, overflow_error, Result, ok, raise, Texts,
}

abbrev is_zero : ℤ → Bool
is_zero (pos zero) = true
is_zero (pos (suc n)) = false
is_zero (negsuc n) = false

unfoldable pub truthy : Value → Bool
truthy null = false
truthy (bool b) = b
truthy (int z) = not (is_zero z)
truthy (float (finite z)) = not (is_zero z)
truthy (float (inf _)) = true
truthy (float nan) = true
truthy (str s) = not (str_eq s "")
truthy (arr nil) = false
truthy (arr (cons _ _)) = true
truthy (obj end) = false
truthy (obj (field _ _ _)) = true

-- `v or d`
unfoldable pub or_else : Value → Value → Value
or_else v d = if truthy v then v else d

-- `v == 1`: True and 1.0 are equal to 1 too.
unfoldable pub equals_one : Value → Bool
equals_one (bool b) = b
equals_one (int (pos n)) = n == 1
equals_one (float (finite (pos n))) = n == units
equals_one _ = false

abbrev neg : ℕ → ℤ
neg zero = pos 0
neg (suc n) = negsuc n

-- Truncation is towards zero.
abbrev trunc : ℤ → ℤ
trunc (pos n) = pos (n / units)
trunc (negsuc n) = neg (suc n / units)

-- `str(v)`: of what is no text, its `repr`.
unfoldable pub text_of : Texts → Value → String
text_of py (str s) = s
text_of py v = py.repr v

or_value_error {ℓ} : {A : Type ℓ} → Option A → Result A
or_value_error none = raise value_error
or_value_error (some a) = ok a

-- Doubles end below 2^1024: `float` of an integer past that raises OverflowError.
abbrev to_float : ℤ → Result Float
to_float (pos n) = if leb (2 ^ 1024) n then raise overflow_error else ok (finite (pos (n * units)))
to_float (negsuc n) =
    if leb (2 ^ 1024) (suc n) then raise overflow_error else ok (finite (neg (suc n * units)))

module _ (py : Texts) where
  -- `int(v)`
  unfoldable pub to_int : Value → Result ℤ
  unfolding or_value_error
  to_int null = raise type_error
  to_int (bool b) = ok (if b then pos 1 else pos 0)
  to_int (int z) = ok z
  to_int (float (finite z)) = ok (trunc z)
  to_int (float (inf _)) = raise overflow_error
  to_int (float nan) = raise value_error
  to_int (str s) = or_value_error (py.int_of s)
  to_int (arr _) = raise type_error
  to_int (obj _) = raise type_error

  -- `float(v)`
  unfoldable pub float_of_value : Value → Result Float
  unfolding or_value_error
  float_of_value null = raise type_error
  float_of_value (bool b) = ok (finite (if b then pos units else pos 0))
  float_of_value (int z) = to_float z
  float_of_value (float x) = ok x
  float_of_value (str s) = or_value_error (py.float_of s)
  float_of_value (arr _) = raise type_error
  float_of_value (obj _) = raise type_error
