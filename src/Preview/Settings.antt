-- ===== src/Preview/Settings.antt =====
-- The values of a knob file: `get`, `memory_bytes` and `valid_cpu` of src/host/preview/knob.rs, and
-- the integers that `parse::<i64>` and `parse::<u64>` read.
use komizo.Prelude.{
  ℕ, suc, ◌+◌, ◌*◌, ◌^◌, Bool, false, not, ◌&&◌, ◌||◌, Option, none, some, List, [], ◌∷◌, ◌++◌, map,
  ltb, leb, ◌==◌, if◌then◌else◌, is_empty, all, Text, codes, is_digit, is_upper, strip_prefix,
  split,
}
use komizo.Prelude.Int.{ℤ, pos, ◌-ℤ◌, in_i64}
use komizo.Prelude.Result.{Result, ensure, ok_or}
use komizo.Prelude.Result.{◌>>◌}
use komizo.Prelude.Affix.{strip_suffix, trim_matches}
use komizo.Resources.Decimal.{decimal_value}
use komizo.Resources.Amount.{split_last}

abbrev pub newline : ℕ
newline = 10

abbrev pub is_blank : ℕ → Bool
is_blank b = b == 13 || b == b' ' || b == 9

-- The `find_map`.
unfoldable pub first_value : (prefix : Text) → List Text → Text
unfolding strip_prefix trim_matches
first_value prefix [] = []
first_value prefix (line ∷ lines) =
    let rest = first_value prefix lines in
    elim (strip_prefix prefix line) [ some value ↦ trim_matches is_blank value | none ↦ rest ]

unfoldable pub get : (body key : Text) → Text
unfolding first_value split
get body key = first_value (key ++ codes "=") (split newline body)

abbrev pub to_ascii_lowercase : Text → Text
to_ascii_lowercase s = map (λ c. if is_upper c then c + 32 else c) s

abbrev pub or_whole : Text → Option Text → Text
or_whole s none = s
or_whole s (some front) = front

-- The match on the last byte.
unfoldable pub number_and_multiplier : (raw : Text) → Option (Text × ℕ) → Text × ℕ
number_and_multiplier raw none = (raw, 1)
number_and_multiplier raw (some (front, last)) =
    if last == b'k'
    then (front, 1024)
    else if last == b'm'
    then (front, 2 ^ 20)
    else if last == b'g'
    then (front, 2 ^ 30)
    else if last == b't'
    then (front, 2 ^ 40)
    else (raw, 1)

unfoldable pub is_positive_decimal : Text → Bool
is_positive_decimal [] = false
is_positive_decimal (c ∷ digits) = is_digit c && not (c == b'0') && all is_digit (c ∷ digits)

-- `parse::<u64>`, `checked_mul` and the range, of digits.
unfoldable pub amount_in_range : (digits : Text) → (multiplier : ℕ) → Option ℕ
unfolding decimal_value
amount_in_range digits multiplier =
    let n = decimal_value digits in
    if ltb n (2 ^ 64)
      && ltb (n * multiplier) (2 ^ 64)
      && leb (6 * 2 ^ 20) (n * multiplier)
      && leb (n * multiplier) (64 * 2 ^ 30)
    then some (n * multiplier)
    else none

unfoldable pub memory_bytes : Text → Result ℕ
unfolding number_and_multiplier is_positive_decimal amount_in_range strip_suffix split_last
memory_bytes text = do
  let value = to_ascii_lowercase text
  let raw = or_whole value (strip_suffix (codes "b") value)
  let (number, multiplier) = number_and_multiplier raw (split_last raw)
  ensure (is_positive_decimal number) "memory must be positive bytes or k/m/g units"
  ok_or (amount_in_range number multiplier) "memory must be between 6 MiB and 64 GiB"

-- The loop of `valid_cpu`: the digits since the last dot, if the text is digits with one dot at most.
unfoldable pub cpu_digits : (dots count : ℕ) → Text → Option ℕ
cpu_digits dots count [] = some count
cpu_digits dots count (b ∷ bytes) =
    let after = cpu_digits (suc dots) 0 bytes in
    let more = cpu_digits dots (suc count) bytes in
    if b == b'.'
    then (if count == 0 || ltb 0 dots then none else after)
    else if is_digit b
    then more
    else none

-- `quota` is whether `parse::<f64>` gives a number above 0 and at most 64.
unfoldable pub valid_cpu : (quota : Text → Bool) → Text → Bool
unfolding cpu_digits
valid_cpu quota value = elim (cpu_digits 0 0 value) [
  | none ↦ false
  | some count ↦ ltb 0 count && quota value
]

abbrev in_range : ℤ → Option ℤ
in_range n = if in_i64 n then some n else none

abbrev digits_value : Text → Option ℕ
digits_value digits =
    if not (is_empty digits) && all is_digit digits then some (decimal_value digits) else none

-- `parse::<i64>`
unfoldable pub parse_i64 : Text → Option ℤ
unfolding decimal_value in_i64 ◌-ℤ◌
parse_i64 [] = none
parse_i64 (c ∷ s) =
    if c == b'-'
    then elim (digits_value s) [ none ↦ none | some n ↦ in_range (pos 0 -ℤ pos n) ]
    else if c == b'+'
    then elim (digits_value s) [ none ↦ none | some n ↦ in_range (pos n) ]
    else elim (digits_value (c ∷ s)) [ none ↦ none | some n ↦ in_range (pos n) ]
