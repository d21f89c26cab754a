-- ===== src/Prelude/Affix.antt =====
-- The ends of a text: suffixes, the last occurrence of a pattern, and trimming.
use Prim.Native.Nat.{ℕ}
use mathlib.Core.Path.{◌≡◌, refl}
use mathlib.Core.Bool.{Bool, ◌&&◌}
use mathlib.Core.Option.{Option, none, some}
use mathlib.Core.List.{[], ◌∷◌, ◌++◌}
use native.Mathlib.Omega.{arith}
use komizo.Prelude.Tests.{◌==◌, if◌then◌else◌}
use komizo.Prelude.Lists.{is_empty}
use komizo.Prelude.Bytes.{Text, text_eq, text_eq_sound, strip_prefix}

-- A byte in front of the first of two parts.
abbrev pub onto {ℓ} : {A : Type ℓ} → ℕ → Option (Text × A) → Option (Text × A)
onto c none = none
onto c (some (a, b)) = some (c ∷ a, b)

-- `strip_suffix`
unfoldable pub strip_suffix : Text → Text → Option Text
unfolding text_eq
strip_suffix p [] = if is_empty p then some [] else none
strip_suffix p (c ∷ s) =
    let rest = strip_suffix p s in
    if text_eq (c ∷ s) p then some [] else elim rest [ none ↦ none | some front ↦ some (c ∷ front) ]

-- `split_once` at one byte.
unfoldable pub split_once : ℕ → Text → Option (Text × Text)
split_once b [] = none
split_once b (c ∷ s) = let rest = split_once b s in if c == b then some ([], s) else onto c rest

-- `rsplit_once`, for a pattern that is not empty.
unfoldable pub rsplit_once : Text → Text → Option (Text × Text)
unfolding strip_prefix
rsplit_once p [] = none
rsplit_once p (c ∷ s) = elim (rsplit_once p s) [
  | some (a, b) ↦ some (c ∷ a, b)
  | none ↦ elim (strip_prefix p (c ∷ s)) [ some r ↦ some ([], r) | none ↦ none ]
]

-- `trim_start_matches` and `trim_matches`, for a set of bytes.
unfoldable pub trim_start : (ℕ → Bool) → Text → Text
trim_start blank [] = []
trim_start blank (c ∷ s) = let rest = trim_start blank s in if blank c then rest else c ∷ s

unfoldable pub trim_end : (ℕ → Bool) → Text → Text
trim_end blank [] = []
trim_end blank (c ∷ s) =
    let rest = trim_end blank s in if blank c && is_empty rest then [] else c ∷ rest

unfoldable pub trim_matches : (ℕ → Bool) → Text → Text
unfolding trim_start trim_end
trim_matches blank s = trim_end blank (trim_start blank s)

pub strip_suffix_sound : (p s front : Text) → strip_suffix p s ≡ some front → s ≡ front ++ p
unfolding strip_suffix
strip_suffix_sound [] [] front h = ground arith
strip_suffix_sound (d ∷ p) [] front h = ground arith
strip_suffix_sound p (c ∷ s) front h =
    elim (strip_suffix p s)
        as (λ o.
          strip_suffix p s ≡ o
          → (if text_eq (c ∷ s) p
              then some []
              else elim o [ none ↦ none | some front ↦ some (c ∷ front) ])
            ≡ some front
          → c ∷ s ≡ front ++ p) [
            | none ↦ λ e h. ground (arith, text_eq_sound (c ∷ s) p)
            | some r ↦ λ e h. ground (arith, text_eq_sound (c ∷ s) p, strip_suffix_sound p s r e)
          ]
      refl h
