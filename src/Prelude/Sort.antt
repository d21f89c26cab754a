-- ===== src/Prelude/Sort.antt =====
-- Sorting as `sort` and `sort_by` of the standard library do, and the order of texts.
use mathlib.Core.Bool.{Bool, true, false, ◌&&◌, ◌||◌}
use mathlib.Core.List.{List, [], ◌∷◌}
use komizo.Prelude.Tests.{ltb, ◌==◌, if◌then◌else◌}
use komizo.Prelude.Bytes.{Text}

unfoldable pub le_text : Text → Text → Bool
le_text [] t = true
le_text (c ∷ s) [] = false
le_text (c ∷ s) (d ∷ t) = ltb c d || c == d && le_text s t

-- Stable insertion, as `sort_by` keeps equal elements in order.
unfoldable pub insert_by {ℓ} : {A : Type ℓ} → (A → A → Bool) → A → List A → List A
insert_by le a [] = a ∷ []
insert_by le a (b ∷ bs) = let rest = insert_by le a bs in if le a b then a ∷ b ∷ bs else b ∷ rest

unfoldable pub sort_by {ℓ} : {A : Type ℓ} → (A → A → Bool) → List A → List A
unfolding insert_by
sort_by le [] = []
sort_by le (a ∷ rest) = insert_by le a (sort_by le rest)
