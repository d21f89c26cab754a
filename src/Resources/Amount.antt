-- ===== src/Resources/Amount.antt =====
-- A value of a compose service, its printed form, and an amount of memory read from it: `scalar`,
-- `memory_bytes` and `parse_cpu` of src/workload/resources.rs.
use komizo.Prelude.{
  ℕ, ◌+◌, ◌*◌, ◌^◌, Bool, false, not, ◌&&◌, ◌||◌, Option, none, some, [], ◌∷◌, map, ltb, ◌==◌,
  if◌then◌else◌, is_empty, all, Text, is_digit, is_upper, has_byte,
}
use komizo.Prelude.Int.{ℤ, pos}
use komizo.Prelude.Result.{Result, ensure, ok_or}
use komizo.Prelude.Result.{◌>>=◌, ◌>>◌}
use komizo.Resources.Decimal.{print_ℤ, decimal_value}

-- The floating-point numbers and the parsers of the standard library, of libc and of the regex
-- crate that this code calls.
pub record Floats : Type 1 where
  pub Float : Type 0
  -- `str::parse::<f64>`
  pub parse : Text → Option Float
  -- The regular expression of `parse_cpu`.
  pub is_extended_literal : Text → Bool
  -- `strtod`, when it reads the text to its end.
  pub strtod : Text → Option Float
  pub abs_below_million : Float → Bool
  pub to_string : Float → Text
  -- `format!("{number:e}")`
  pub exponent_form : Float → Text
  -- `value.is_finite() && *value > 0. && *value <= 64.`
  pub is_quota : Float → Bool
  -- `(value * 1000.).ceil() as i64`
  pub milli : Float → ℤ
  -- `cpus as f64 / 1000.`
  pub from_milli : ℤ → Float

module _ (floats : Floats) where
  -- A JSON value under a key of a service. Of null, a truth value, an array and an object the
  -- code reads the printed form only.
  pub data Value : Type 0 where
    text : Text → Value
    integer : ℤ → Value
    float : floats.Float → Value
    other : Text → Value

  unfoldable pub scalar : Value → Text
  unfolding print_ℤ
  scalar (text s) = s
  scalar (float x) =
      if floats.abs_below_million x then floats.to_string x else floats.exponent_form x
  scalar (integer n) = print_ℤ n
  scalar (other printed) = printed

  abbrev to_lower : Text → Text
  to_lower s = map (λ c. if is_upper c then c + 32 else c) s

  abbrev contains_0x : Text → Bool
  contains_0x [] = false
  contains_0x (c ∷ []) = false
  contains_0x (c ∷ d ∷ s) = c == b'0' && d == b'x' || contains_0x (d ∷ s)

  abbrev without_underscores : Text → Text
  without_underscores [] = []
  without_underscores (c ∷ s) =
      let rest = without_underscores s in if c == b'_' then rest else c ∷ rest

  unfoldable pub parse_cpu : Text → Option floats.Float
  parse_cpu raw =
      if not (has_byte b'_' raw) && not (contains_0x (to_lower raw))
      then floats.parse raw
      else if not (floats.is_extended_literal raw)
      then none
      else if has_byte 0 (without_underscores raw)
      then none
      else floats.strtod (without_underscores raw)

-- The last byte of a text, and the text before it.
unfoldable pub split_last : Text → Option (Text × ℕ)
split_last [] = none
split_last (c ∷ []) = some ([], c)
split_last (c ∷ d ∷ s) = elim (split_last (d ∷ s)) [
  | none ↦ none
  | some (front, last) ↦ some (c ∷ front, last)
]

unfoldable pub unit_scale : ℕ → Option ℕ
unit_scale c =
    if c == b'b' || c == b'B'
    then some 1
    else if c == b'k' || c == b'K'
    then some (2 ^ 10)
    else if c == b'm' || c == b'M'
    then some (2 ^ 20)
    else if c == b'g' || c == b'G'
    then some (2 ^ 30)
    else none

-- The arms of the match: the text before a unit with its scale, or the whole text.
unfoldable pub scaled : Text → Option (Text × ℕ) → Text × ℕ
unfolding unit_scale
scaled raw none = (raw, 1)
scaled raw (some (front, last)) = elim (unit_scale last) [
  | none ↦ (raw, 1)
  | some scale ↦ (front, scale)
]

unfoldable pub digits_and_scale : Text → Text × ℕ
unfolding split_last scaled
digits_and_scale raw = scaled raw (split_last raw)

-- `parse::<i64>` of a text of digits.
unfoldable pub parse_i64 : Text → Option ℕ
unfolding decimal_value
parse_i64 digits = if ltb (decimal_value digits) (2 ^ 63) then some (decimal_value digits) else none

-- `filter(|value| *value > 0)`
unfoldable pub positive : Option ℕ → Option ℕ
positive none = none
positive (some n) = if ltb 0 n then some n else none

unfoldable pub checked_mul : ℕ → ℕ → Option ℤ
checked_mul a b = if ltb (a * b) (2 ^ 63) then some (pos (a * b)) else none

-- `memory_bytes`, of the printed value.
unfoldable pub memory_of : Text → Result ℤ
unfolding digits_and_scale parse_i64 positive checked_mul
memory_of raw = do
  let (digits, scale) = digits_and_scale raw
  ensure (not (is_empty digits) && all is_digit digits)
      "memory must be positive whole bytes or b/k/m/g units"
  value ← ok_or (positive (parse_i64 digits)) "memory must be finite and positive"
  ok_or (checked_mul value scale) "memory amount overflow"

module _ (floats : Floats) where
  unfoldable pub memory_bytes : Value floats → Result ℤ
  unfolding memory_of scalar
  memory_bytes value = memory_of (scalar floats value)
