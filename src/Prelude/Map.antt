-- ===== src/Prelude/Map.antt =====
-- Maps as association lists, and what `get` finds after `insert`.
use mathlib.Core.Path.{◌≡◌, refl, sym}
use mathlib.Core.Bool.{true, false}
use mathlib.Core.Option.{Option, none, some}
use mathlib.Core.List.{List, [], ◌∷◌}
use native.Mathlib.Omega.{arith}
use komizo.Prelude.Tests.{if◌then◌else◌}
use komizo.Prelude.Bytes.{Text, text_eq, text_eq_refl, text_eq_sound}

-- `BTreeMap::get` and `Map::get`
unfoldable pub get {ℓ} : {A : Type ℓ} → Text → List (Text × A) → Option A
get key [] = none
get key ((name, value) ∷ rest) =
    let found = get key rest in if text_eq key name then some value else found

-- `Map::insert`: the value of a key, which the map has or gets. The order of the keys is not
-- modelled.
unfoldable pub insert {ℓ} : {A : Type ℓ} → Text → A → List (Text × A) → List (Text × A)
insert key value [] = (key, value) ∷ []
insert key value ((name, old) ∷ rest) =
    let inserted = insert key value rest in
    if text_eq key name then (name, value) ∷ rest else (name, old) ∷ inserted

text_eq-other :
    (a b name : Text) → text_eq a b ≡ false → text_eq b name ≡ true → text_eq a name ≡ false
text_eq-other a b name h k = rw (sym (text_eq_sound b name k)) h

module _ {ℓ} {A : Type ℓ} where
  pub get-insert :
      (key : Text) (value : A) (m : List (Text × A)) → get key (insert key value m) ≡ some value
  unfolding get insert
  get-insert key value [] = ground (arith, text_eq_refl key)
  get-insert key value ((name, old) ∷ m) =
      ground (arith, get-insert key value m, text_eq_refl key, text_eq_sound key name)

  pub get-insert_other :
      (key other : Text) (value : A) (m : List (Text × A))
      → text_eq key other ≡ false
      → get key (insert other value m) ≡ get key m
  unfolding get insert
  get-insert_other key other value [] h = rw h refl
  get-insert_other key other value ((name, old) ∷ m) h =
      ground (arith, get-insert_other key other value m h, text_eq-other key other name h)
