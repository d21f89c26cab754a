-- ===== src/Resources/Decimal.antt =====
-- Numbers in decimal, as `to_string` of an integer prints them and `parse::<i64>` reads digits.
use komizo.Prelude.{
  ℕ, zero, suc, ◌+◌, ◌-◌, ◌*◌, ◌/◌, ◌%◌, ◌<◌, ◌≡◌, refl, Bool, true, [], ◌∷◌, ◌++◌, arith, ltb,
  if◌then◌else◌, all, Text, is_digit,
}
use komizo.Prelude.Int.{ℤ, pos, negsuc}

-- The value of a text of digits.
unfoldable pub decimal_from : ℕ → Text → ℕ
decimal_from acc [] = acc
decimal_from acc (c ∷ cs) = decimal_from (acc * 10 + (c - b'0')) cs

unfoldable pub decimal_value : Text → ℕ
unfolding decimal_from
decimal_value digits = decimal_from 0 digits

-- On fuel: a number below the fuel is printed in full, since each step divides it by ten.
unfoldable pub print_digits : (fuel : ℕ) → ℕ → Text
print_digits zero n = []
print_digits (suc k) n =
    let front = print_digits k (n / 10) in
    if ltb n 10 then (b'0' + n) ∷ [] else front ++ (b'0' + n % 10) ∷ []

unfoldable pub print_ℕ : ℕ → Text
unfolding print_digits
print_ℕ n = print_digits (suc n) n

unfoldable pub print_ℤ : ℤ → Text
unfolding print_ℕ
print_ℤ (pos n) = print_ℕ n
print_ℤ (negsuc n) = b'-' ∷ print_ℕ (suc n)

decimal_from-snoc :
    (acc : ℕ) (cs : Text) (c : ℕ)
    → decimal_from acc (cs ++ c ∷ []) ≡ decimal_from acc cs * 10 + (c - b'0')
unfolding decimal_from
decimal_from-snoc acc [] c = refl
decimal_from-snoc acc (d ∷ cs) c = decimal_from-snoc (acc * 10 + (d - b'0')) cs c

decimal_from-print : (k n : ℕ) → n < k → decimal_from 0 (print_digits k n) ≡ n
unfolding print_digits decimal_from
decimal_from-print zero n h = absurd (omega arith)
decimal_from-print (suc k) n h = ground (
  arith,
  decimal_from-snoc 0 (print_digits k (n / 10)) (b'0' + n % 10),
  decimal_from-print k (n / 10),
)

-- What is printed is read back.
pub decimal_value-print : (n : ℕ) → decimal_value (print_ℕ n) ≡ n
unfolding decimal_value print_ℕ
decimal_value-print n = decimal_from-print (suc n) n (omega arith)

all-append :
    (p : ℕ → Bool) (xs ys : Text) → all p xs ≡ true → all p ys ≡ true → all p (xs ++ ys) ≡ true
all-append p [] ys h k = k
all-append p (x ∷ xs) ys h k = ground (arith, all-append p xs ys)

print_digits-all : (k n : ℕ) → all is_digit (print_digits k n) ≡ true
unfolding print_digits
print_digits-all zero n = refl
print_digits-all (suc k) n = ground (
  arith,
  all-append is_digit (print_digits k (n / 10)) ((b'0' + n % 10) ∷ []),
  print_digits-all k (n / 10),
)

pub print_ℕ-all : (n : ℕ) → all is_digit (print_ℕ n) ≡ true
unfolding print_ℕ
print_ℕ-all n = print_digits-all (suc n) n
