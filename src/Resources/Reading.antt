-- ===== src/Resources/Reading.antt =====
-- What `memory_bytes` of src/workload/resources.rs reads from a printed amount.
use komizo.Prelude.{
  ℕ, ◌*◌, ◌^◌, ◌<◌, ◌≡◌, refl, ap, ◌∙◌, true, false, Option, none, some, [], ◌∷◌, ◌++◌, arith,
  is_empty, all, Text, is_digit,
}
use komizo.Prelude.Int.{pos}
use komizo.Prelude.Result.{ok}
use komizo.Resources.Decimal.{
  print_ℕ, print_ℤ, decimal_from, decimal_value, decimal_value-print, print_ℕ-all,
}
use komizo.Resources.Amount.{
  Floats, integer, scalar, split_last, unit_scale, scaled, digits_and_scale, parse_i64, positive,
  checked_mul, memory_of, memory_bytes,
}

split_last-snoc : (front : Text) (c : ℕ) → split_last (front ++ c ∷ []) ≡ some (front, c)
unfolding split_last
split_last-snoc [] c = refl
split_last-snoc (d ∷ []) c = refl
split_last-snoc (d ∷ e ∷ front) c = rw (split_last-snoc (e ∷ front) c) refl

digits_and_scale-unit :
    (front : Text) (unit scale : ℕ)
    → unit_scale unit ≡ some scale
    → digits_and_scale (front ++ unit ∷ []) ≡ (front, scale)
unfolding digits_and_scale scaled
digits_and_scale-unit front unit scale h =
    ap (scaled (front ++ unit ∷ [])) (split_last-snoc front unit) ∙ ground arith

abbrev LastIsDigit : Option (Text × ℕ) → Type 0
LastIsDigit none = Unit
LastIsDigit (some (front, last)) = is_digit last ≡ true

split_last-IsDigit : (s : Text) → all is_digit s ≡ true → LastIsDigit (split_last s)
unfolding split_last
split_last-IsDigit [] h = tt
split_last-IsDigit (c ∷ []) h = ground arith
split_last-IsDigit (c ∷ d ∷ s) h =
    go (split_last (d ∷ s)) (split_last-IsDigit (d ∷ s) (ground arith))
  where
    go :
        (o : Option (Text × ℕ))
        → LastIsDigit o
        → LastIsDigit (elim o [ none ↦ none | some (front, last) ↦ some (c ∷ front, last) ])
    go none k = tt
    go (some (front, last)) k = k

unit_scale-digit : (c : ℕ) → is_digit c ≡ true → unit_scale c ≡ none
unfolding unit_scale
unit_scale-digit c h = ground arith

scaled-digits : (s : Text) (o : Option (Text × ℕ)) → LastIsDigit o → scaled s o ≡ (s, 1)
unfolding scaled
scaled-digits s none k = refl
scaled-digits s (some (front, last)) k = ground (arith, unit_scale-digit last k)

digits_and_scale-digits : (s : Text) → all is_digit s ≡ true → digits_and_scale s ≡ (s, 1)
unfolding digits_and_scale
digits_and_scale-digits s h = scaled-digits s (split_last s) (split_last-IsDigit s h)

empty_value : (s : Text) → is_empty s ≡ true → decimal_value s ≡ 0
unfolding decimal_value decimal_from
empty_value [] h = refl
empty_value (c ∷ s) h = cc

print_ℕ-nonempty : (n : ℕ) → 0 < n → is_empty (print_ℕ n) ≡ false
print_ℕ-nonempty n h = ground (arith, empty_value (print_ℕ n), decimal_value-print n)

-- What is done with the parts of an amount once the unit is known.
memory_of-parts :
    (raw : Text) (n scale : ℕ)
    → digits_and_scale raw ≡ (print_ℕ n, scale)
    → 0 < n
    → 0 < scale
    → n * scale < 2 ^ 63
    → memory_of raw ≡ ok (pos (n * scale))
unfolding memory_of parse_i64 positive checked_mul
memory_of-parts raw n scale e h k l =
    ground (arith, e, print_ℕ-nonempty n h, print_ℕ-all n, decimal_value-print n)

-- The suffix of a number of bytes, and how many bytes one of it is.
pub data IsUnit : ℕ → ℕ → Type 0 where
  bytes : IsUnit b'b' 1
  bytes_upper : IsUnit b'B' 1
  kibibytes : IsUnit b'k' 1024
  kibibytes_upper : IsUnit b'K' 1024
  mebibytes : IsUnit b'm' 1048576
  mebibytes_upper : IsUnit b'M' 1048576
  gibibytes : IsUnit b'g' 1073741824
  gibibytes_upper : IsUnit b'G' 1073741824

unit_scale-IsUnit : {unit size : ℕ} → IsUnit unit size → unit_scale unit ≡ some size
unfolding unit_scale
unit_scale-IsUnit bytes = refl
unit_scale-IsUnit bytes_upper = refl
unit_scale-IsUnit kibibytes = refl
unit_scale-IsUnit kibibytes_upper = refl
unit_scale-IsUnit mebibytes = refl
unit_scale-IsUnit mebibytes_upper = refl
unit_scale-IsUnit gibibytes = refl
unit_scale-IsUnit gibibytes_upper = refl

IsUnit-positive : {unit size : ℕ} → IsUnit unit size → 0 < size
IsUnit-positive bytes = omega arith
IsUnit-positive bytes_upper = omega arith
IsUnit-positive kibibytes = omega arith
IsUnit-positive kibibytes_upper = omega arith
IsUnit-positive mebibytes = omega arith
IsUnit-positive mebibytes_upper = omega arith
IsUnit-positive gibibytes = omega arith
IsUnit-positive gibibytes_upper = omega arith

-- A positive amount printed in decimal with `b`, `k`, `m` or `g`, in either case, is read as that
-- many times 1, 1024, 1048576 or 1073741824 bytes, if they fit an i64.
pub memory_of-print :
    (n unit size : ℕ)
    → IsUnit unit size
    → 0 < n
    → n * size < 2 ^ 63
    → memory_of (print_ℕ n ++ unit ∷ []) ≡ ok (pos (n * size))
memory_of-print n unit size h k l =
    memory_of-parts (print_ℕ n ++ unit ∷ []) n size
      (digits_and_scale-unit (print_ℕ n) unit size (unit_scale-IsUnit h)) k (IsUnit-positive h) l

-- A number of bytes that is written as a number is read back.
pub memory_bytes-integer :
    (floats : Floats) (n : ℕ)
    → 0 < n
    → n < 2 ^ 63
    → memory_bytes floats (integer (pos n)) ≡ ok (pos n)
unfolding memory_bytes scalar print_ℤ
memory_bytes-integer floats n h k =
    memory_of-parts (print_ℕ n) n 1 (digits_and_scale-digits (print_ℕ n) (print_ℕ-all n)) h
      (omega arith) (omega arith)
    ∙ ap (λ m. ok (pos m)) (omega arith)
