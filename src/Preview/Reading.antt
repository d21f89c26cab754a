-- ===== src/Preview/Reading.antt =====
-- What one setting of `parse` in src/host/preview/knob.rs does to the knob.
use komizo.Prelude.{
  ℕ, ◌*◌, ◌^◌, ◌≤◌, ◌≡◌, refl, ap, ◌∙◌, Bool, true, false, ◌&&◌, Option, none, some, [], ◌∷◌, ◌++◌,
  arith, is_empty, Text, codes,
}
use komizo.Prelude.Int.{ℤ, pos, ◌≤ℤ◌, le_ℤ, lt_ℤ}
use komizo.Prelude.Result.{ok, err, ensure, ok_or, OfOk, >>=-OfOk, OfOk-ok}
use mathlib.Core.Path.{subst}
use komizo.Prelude.Affix.{strip_suffix}
use komizo.Resources.Amount.{split_last}
use komizo.Preview.Settings.{
  get, to_ascii_lowercase, or_whole, number_and_multiplier, is_positive_decimal, memory_bytes,
  amount_in_range, parse_i64,
}
use komizo.Preview.Knob.{Knob, Parsed, setting, only_if, count_of, budget_of, ask_port_of}

-- What holds of an option's value, if there is one.
abbrev pub OfSome {ℓ κ} : {A : Type ℓ} → (A → Type κ) → Option A → Type κ
OfSome P none = Unit
OfSome P (some a) = P a

-- A property of the knob after a setting, from one before it.
module _ (P Q : Knob → Type 0) where
  abbrev pub Takes : (Knob → Knob) → Type 0
  Takes f = (k : Knob) → P k → Q (f k)

  module _ (read : Text → Option (Knob → Knob)) (refuse : Knob → Knob) (key body : Text) where
    pub setting-takes :
        ((k : Knob) → get body key ≡ [] → P k → Q k)
        → OfSome Takes (read (get body key))
        → (read (get body key) ≡ none → Takes refuse)
        → (start : Parsed) → P start.0
        → Q (setting read refuse key body start).0
    unfolding setting
    setting-takes absent present refused (k, bad) h =
        elim (get body key)
            as (λ value.
              get body key ≡ value
              → Q
                  (elim (is_empty value) as (λ b. Parsed) [
                    | true ↦ (k, bad)
                    | false ↦ elim (read value) as (λ o. Parsed) [
                      | some set ↦ (set k, bad)
                      | none ↦ (refuse k, bad ++ (key ++ codes "=" ++ value) ∷ [])
                    ]
                  ]).0) [
                    | [] ↦ λ e. absent k e h
                    | c ∷ value ↦ λ e.
                        elim (read (c ∷ value))
                            as (λ o.
                              read (c ∷ value) ≡ o
                              → OfSome Takes o
                              → Q
                                  (elim o as (λ o. Parsed) [
                                    | some set ↦ (set k, bad)
                                    | none ↦ (refuse k, bad ++ (key ++ codes "=" ++ c ∷ value) ∷ [])
                                  ]).0) [
                                    | some set ↦ λ n present. present k h
                                    | none ↦ λ n present. refused (ap read e ∙ n) k h
                                  ]
                          refl (subst (λ v. OfSome Takes (read v)) e present)
                  ]
          refl

-- What is read, and what is set.
module _ (R : (Knob → Knob) → Type 0) where
  pub only_if-OfSome :
      (b : Bool) (set : Knob → Knob) → (b ≡ true → R set) → OfSome R (only_if b set)
  only_if-OfSome true set h = h refl
  only_if-OfSome false set h = tt

  pub count_of-OfSome :
      (set : ℤ → Knob → Knob) (value : Text)
      → ((n : ℤ) → lt_ℤ (pos 0) n ≡ true → R (set n))
      → OfSome R (count_of set value)
  unfolding count_of
  count_of-OfSome set value h =
      elim (parse_i64 value)
        as (λ o.
          OfSome R
            (elim o [ none ↦ none | some number ↦ only_if (lt_ℤ (pos 0) number) (set number) ])) [
              | none ↦ tt
              | some n ↦ only_if-OfSome (lt_ℤ (pos 0) n) (set n) (h n)
            ]

  pub budget_of-OfSome :
      (set : ℕ → Knob → Knob) (value : Text)
      → ((n : ℕ) → memory_bytes value ≡ ok n → R (set n))
      → OfSome R (budget_of set value)
  unfolding budget_of
  budget_of-OfSome set value h =
      elim (memory_bytes value)
          as (λ r.
            memory_bytes value ≡ r
            → OfSome R (elim r [ ok number ↦ some (set number) | err e ↦ none ])) [
              | ok n ↦ λ e. h n e
              | err f ↦ λ e. tt
            ]
        refl

  pub ask_port_of-OfSome :
      (value : Text)
      → ((n : ℤ) → pos 1 ≤ℤ n → n ≤ℤ pos 65535 → R (λ k. record k { ask_port = n }))
      → OfSome R (ask_port_of value)
  unfolding ask_port_of
  ask_port_of-OfSome value h =
      elim (parse_i64 value)
        as (λ o. OfSome R (elim o [
          | none ↦ none
          | some n ↦ only_if (le_ℤ (pos 1) n && le_ℤ n (pos 65535)) (λ k. record k { ask_port = n })
        ])) [
          | none ↦ tt
          | some n ↦
              only_if-OfSome (le_ℤ (pos 1) n && le_ℤ n (pos 65535)) (λ k. record k { ask_port = n })
                λ e. h n (ground arith) (ground arith)
        ]

-- The range of an amount.
abbrev pub InRange : ℕ → Type 0
InRange n = (6 * 2 ^ 20 ≤ n) × (n ≤ 64 * 2 ^ 30)

amount_in_range-InRange : (digits : Text) (m n : ℕ) → amount_in_range digits m ≡ some n → InRange n
unfolding amount_in_range
amount_in_range-InRange digits m n h = (ground arith, ground arith)

pub memory_bytes-InRange : (value : Text) (n : ℕ) → memory_bytes value ≡ ok n → InRange n
unfolding memory_bytes
memory_bytes-InRange value n h =
    let lower = to_ascii_lowercase value in
    let raw = or_whole lower (strip_suffix (codes "b") lower) in
    let (number, multiplier) = number_and_multiplier raw (split_last raw) in
    OfOk-ok InRange (memory_bytes value)
      (>>=-OfOk InRange
        (ensure (is_positive_decimal number) "memory must be positive bytes or k/m/g units") _
        λ done e. in_range number multiplier)
      h
  where
    in_range :
        (number : Text) (multiplier : ℕ)
        → OfOk InRange
            (ok_or (amount_in_range number multiplier) "memory must be between 6 MiB and 64 GiB")
    in_range number multiplier =
        elim (amount_in_range number multiplier)
            as (λ o.
              amount_in_range number multiplier ≡ o
              → OfOk InRange (ok_or o "memory must be between 6 MiB and 64 GiB")) [
                | none ↦ λ e. tt
                | some n ↦ λ e. amount_in_range-InRange number multiplier n e
              ]
          refl
