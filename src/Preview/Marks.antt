-- ===== src/Preview/Marks.antt =====
-- The labels and lines that `shared_ask_allow` of src/host/preview/knob.rs looks for.
use komizo.Prelude.{
  ℕ, zero, suc, ◌+◌, ◌/◌, ◌%◌, ◌<◌, ◌≡◌, refl, sym, ap, ◌∙◌, inl, inr, Bool, true, false, not, ◌&&◌,
  ◌||◌, none, some, List, [], ◌∷◌, ◌++◌, arith, ltb, if◌then◌else◌, Bool-cases, length, is_empty,
  all, length-append, Text, codes, text_eq, text_eq_sound, text_eq_refl, is_digit, strip_prefix,
  starts_with, strip_prefix-append, strip_prefix_sound, has_byte,
}
use mathlib.Core.Path.{subst}
use mathlib.Core.List.{append_assoc}
use komizo.Prelude.Affix.{rsplit_once, trim_matches, strip_suffix, strip_suffix_sound}
use komizo.Resources.Decimal.{print_digits, print_ℕ, print_ℕ-all}
use komizo.Preview.App.{valid_app}
use komizo.Preview.Settings.{or_whole, first_value, is_blank}
use komizo.Preview.Hosts.{last_byte}
use komizo.Preview.Ask.{digits, without_api, shared_label, some_line}
use komizo.Preview.Label.{last_byte-append}
use komizo.Preview.Form.{split_once-append, all-has_byte, has_byte-append, all-last_byte}

-- A text without a hyphen holds no pattern that starts with one.
rsplit_once-none : (p s : Text) → has_byte b'-' s ≡ false → rsplit_once (b'-' ∷ p) s ≡ none
unfolding rsplit_once has_byte strip_prefix
rsplit_once-none p [] h = refl
rsplit_once-none p (c ∷ s) h = ground (arith, rsplit_once-none p s)

-- The pattern is found where it stands, if what follows has no hyphen.
rsplit_once-append :
    (a p s : Text)
    → has_byte b'-' p ≡ false
    → has_byte b'-' s ≡ false
    → rsplit_once (b'-' ∷ p) (a ++ b'-' ∷ (p ++ s)) ≡ some (a, s)
unfolding rsplit_once
rsplit_once-append [] p s h k =
    ap
      (λ o. elim o [
        | some (a, b) ↦ some (b'-' ∷ a, b)
        | none ↦ elim (strip_prefix (b'-' ∷ p) (b'-' ∷ (p ++ s))) [
          | some r ↦ some ([], r)
          | none ↦ none
        ]
      ])
      (rsplit_once-none p (p ++ s) (has_byte-append b'-' p s h k))
    ∙ (ap (λ o. elim o [ some r ↦ some ([], r) | none ↦ none ]) (strip_prefix-append (b'-' ∷ p) s))
rsplit_once-append (c ∷ a) p s h k = rw (rsplit_once-append a p s h k) refl

-- A text that ends in a digit does not end in "-api".
without_api-digit : (s : Text) → is_digit (last_byte 0 s) ≡ true → without_api s ≡ s
unfolding without_api
without_api-digit s h =
    elim (strip_suffix (codes "-api") s)
        as (λ o. strip_suffix (codes "-api") s ≡ o → or_whole s o ≡ s) [
          | none ↦ λ e. refl
          | some front ↦ λ e. absurd (
              clash (
                ap (last_byte 0) (strip_suffix_sound (codes "-api") s front e)
                ∙ last_byte-append 0 front b'-' (codes "api")))
        ]
      refl
  where
    clash : last_byte 0 s ≡ 105 → ⊥
    clash e = ground (arith, h)

pub strip_suffix-append : (p s : Text) → strip_suffix p (s ++ p) ≡ some s
unfolding strip_suffix
strip_suffix-append [] [] = refl
strip_suffix-append (d ∷ p) [] = rw (text_eq_refl (d ∷ p)) refl
strip_suffix-append p (c ∷ s) = elim (Bool-cases (text_eq (c ∷ (s ++ p)) p)) [
  | inl same ↦ absurd (longer (ap length (text_eq_sound (c ∷ (s ++ p)) p same)))
  | inr different ↦ rw (different, strip_suffix-append p s) refl
]
  where
    longer : suc (length (s ++ p)) ≡ length p → ⊥
    longer e = ground (arith, length-append s p)

starts_with-append :
    (s t : Text)
    → is_empty s ≡ false
    → starts_with (codes "0") s ≡ false
    → starts_with (codes "0") (s ++ t) ≡ false
unfolding starts_with strip_prefix
starts_with-append [] t n h = absurd (cc)
starts_with-append (c ∷ s) t n h = ground arith

print_digits-cons : (k n : ℕ) → 0 < k → is_empty (print_digits k n) ≡ false
unfolding print_digits
print_digits-cons zero n p = absurd (omega arith)
print_digits-cons (suc k) n p =
    elim (ltb n 10)
      as (λ b.
        is_empty (if b then (48 + n) ∷ [] else print_digits k (n / 10) ++ (48 + n % 10) ∷ [])
        ≡ false) [ true ↦ refl | false ↦ snoc (print_digits k (n / 10)) (48 + n % 10) ]
  where
    snoc : (s : Text) (c : ℕ) → is_empty (s ++ c ∷ []) ≡ false
    snoc [] c = refl
    snoc (d ∷ s) c = refl

-- A number above 0 is printed without a leading 0.
print_digits-head : (k n : ℕ) → 0 < n → n < k → starts_with (codes "0") (print_digits k n) ≡ false
unfolding print_digits starts_with strip_prefix
print_digits-head zero n p h = absurd (omega arith)
print_digits-head (suc k) n p h = elim (Bool-cases (ltb n 10)) [
  | inl small ↦ rw small (one n p)
  | inr large ↦
      let (low, high) = tens n k large h in
      rw large (
        starts_with-append (print_digits k (n / 10)) ((48 + n % 10) ∷ [])
          (print_digits-cons k (n / 10) (omega arith)) (print_digits-head k (n / 10) low high))
]
  where
    one : (n : ℕ) → 0 < n → starts_with (codes "0") ((48 + n) ∷ []) ≡ false
    one n p = ground arith

    tens : (n k : ℕ) → ltb n 10 ≡ false → n < suc k → (0 < n / 10) × (n / 10 < k)
    tens n k l h = (ground arith, ground arith)

module _ (prefix app : Text) (allow : Text → Bool) where
  some_line-here :
      (value : Text) (lines : List Text)
      → has_byte b'=' (prefix ++ app) ≡ false
      → allow app ≡ true
      → some_line prefix allow (((prefix ++ app) ++ b'=' ∷ value) ∷ lines) ≡ true
  unfolding some_line
  some_line-here value lines n a =
      ap
        (λ o. elim o [
          | none ↦ some_line prefix allow lines
          | some (key, value) ↦ elim (strip_prefix prefix key) [
            | none ↦ some_line prefix allow lines
            | some app ↦ allow app || some_line prefix allow lines
          ]
        ])
        (split_once-append b'=' (prefix ++ app) value n)
      ∙ ap
          (λ o. elim o [
            | none ↦ some_line prefix allow lines
            | some app ↦ allow app || some_line prefix allow lines
          ])
          (strip_prefix-append prefix app)
      ∙ ap (λ b. b || some_line prefix allow lines) a

  some_line-later :
      (line : Text) (lines : List Text)
      → some_line prefix allow lines ≡ true
      → some_line prefix allow (line ∷ lines) ≡ true
  unfolding some_line
  some_line-later line lines h = ground arith

  -- The line that sets the app's key is found.
  pub some_line-first_value :
      (lines : List Text)
      → has_byte b'=' (prefix ++ app) ≡ false
      → is_empty (first_value ((prefix ++ app) ++ codes "=") lines) ≡ false
      → allow app ≡ true
      → some_line prefix allow lines ≡ true
  unfolding first_value
  some_line-first_value [] n h a = absurd (cc)
  some_line-first_value (line ∷ lines) n h a =
      elim (strip_prefix ((prefix ++ app) ++ codes "=") line)
          as (λ o.
            strip_prefix ((prefix ++ app) ++ codes "=") line ≡ o
            → is_empty (elim o as (λ o. Text) [
              | some value ↦ trim_matches is_blank value
              | none ↦ first_value ((prefix ++ app) ++ codes "=") lines
            ])
              ≡ false
            → some_line prefix allow (line ∷ lines) ≡ true) [
              | some value ↦ λ e h.
                  subst (λ l. some_line prefix allow (l ∷ lines) ≡ true)
                    (sym (
                      strip_prefix_sound ((prefix ++ app) ++ codes "=") line value e
                      ∙ append_assoc (prefix ++ app) (codes "=") value))
                    (some_line-here value lines n a)
              | none ↦ λ e h. some_line-later line lines (some_line-first_value lines n h a)
            ]
        refl h

last_digit :
    (s : Text) → is_empty s ≡ false → all is_digit s ≡ true → is_digit (last_byte 0 s) ≡ true
last_digit [] e h = absurd (cc)
last_digit (c ∷ s) e h = all-last_byte is_digit c s h

last_byte-end : (s t : Text) → is_empty t ≡ false → last_byte 0 (s ++ t) ≡ last_byte 0 t
last_byte-end s [] e = absurd (cc)
last_byte-end s (d ∷ t) e = last_byte-append 0 s d t

-- The label of a preview under a shared domain.
abbrev pub label : (app : Text) → ℕ → Text
label app n = app ++ codes "-pr" ++ print_ℕ n

module _ (app : Text) (n : ℕ) (valid : valid_app app ≡ true) (p : 0 < n) where
  print_ℕ-cons : is_empty (print_ℕ n) ≡ false
  unfolding print_ℕ
  print_ℕ-cons = print_digits-cons (suc n) n (omega arith)

  print_ℕ-last : is_digit (last_byte 0 (print_ℕ n)) ≡ true
  print_ℕ-last = last_digit (print_ℕ n) print_ℕ-cons (print_ℕ-all n)

  without_api-label : without_api (label app n) ≡ label app n
  without_api-label = without_api-digit (label app n) (
      ap (λ b. is_digit b) (last_byte-end (app ++ codes "-pr") (print_ℕ n) print_ℕ-cons)
      ∙ print_ℕ-last)

  digits-print : digits (print_ℕ n) ≡ true
  unfolding digits
  digits-print = ground (arith, print_ℕ-cons, print_ℕ-all n)

  pub digits-without_api : digits (without_api (print_ℕ n)) ≡ true
  digits-without_api = ap digits (without_api-digit (print_ℕ n) print_ℕ-last) ∙ digits-print

  print_ℕ-head : starts_with (codes "0") (print_ℕ n) ≡ false
  unfolding print_ℕ
  print_ℕ-head = print_digits-head (suc n) n p (omega arith)

  pub label-shared : shared_label (label app n) ≡ true
  unfolding shared_label
  label-shared =
      ap
        (λ s. elim (rsplit_once (codes "-pr") s) [
          | none ↦ false
          | some (app, pr) ↦ valid_app app && digits pr && not (starts_with (codes "0") pr)
        ])
        (without_api-label ∙ append_assoc app (codes "-pr") (print_ℕ n))
      ∙ ap
          (λ o. elim o [
            | none ↦ false
            | some (app, pr) ↦ valid_app app && digits pr && not (starts_with (codes "0") pr)
          ])
          (rsplit_once-append app (codes "pr") (print_ℕ n) (unfold has_byte in refl)
            (all-has_byte is_digit b'-' refl (print_ℕ n) (print_ℕ-all n)))
      ∙ ground (arith, valid, digits-print, print_ℕ-head)
