-- ===== src/Stateful/Migrations.antt =====
-- The migrations of one contract looked up in another, for `supports_post_write_state` of
-- src/workload/stateful.rs.
use komizo.Prelude.{
  ◌≡◌, refl, sym, ap, ◌∙◌, ◌⊎◌, inl, inr, Bool, true, false, Option, none, some, List, [], ◌∷◌,
  ◌++◌, map, arith, Bool-cases, any, All, Text, text_eq, text_eq_sound, text_eq_refl,
  text_eq_complete,
}
use komizo.Prelude.Result.{ok, ensure-eq-ok}
use komizo.Prelude.Map.{get, insert, get-insert, get-insert_other}
use komizo.Stateful.{
  MigrationIdentity, check_migrations, collect, is_some_eq, applied, check_applied,
}

-- A name that none of the migrations has.
abbrev Unused : Text → List MigrationIdentity → Type 0
Unused name ms = All (λ m. text_eq name m.identity ≡ false) ms

check_migrations-step :
    (names : List Text) (m : MigrationIdentity) (ms : List MigrationIdentity)
    → check_migrations names (m ∷ ms) ≡ ok tt
    → (any (text_eq m.identity) names ≡ false) × (check_migrations (m.identity ∷ names) ms ≡ ok tt)
unfolding check_migrations
check_migrations-step names m ms h = let (test, k) = ensure-eq-ok _ _ _ h in (ground arith, k)

text_eq_swap : (a b : Text) → text_eq a b ≡ false → text_eq b a ≡ false
text_eq_swap a b h = ground (arith, text_eq_sound b a, text_eq_complete a b)

unseen :
    (name : Text) (before after : List Text) (t : Bool)
    → any (text_eq name) (before ++ after) ≡ false
    → any (text_eq name) after ≡ false
unseen name [] after t h = h
unseen name (b ∷ before) after t h = unseen name before after t (ground arith)

-- A name seen before is not used again.
Unused-seen :
    (name : Text) (before names : List Text) (ms : List MigrationIdentity)
    → check_migrations (before ++ name ∷ names) ms ≡ ok tt
    → Unused name ms
Unused-seen name before names [] h = tt
Unused-seen name before names (m ∷ ms) h =
    let (fresh, k) = check_migrations-step (before ++ name ∷ names) m ms h in
    let not_name = unseen m.identity before (name ∷ names) true fresh in
    (text_eq_swap m.identity name (ground arith), Unused-seen name (m.identity ∷ before) names ms k)

get-collect :
    (name : Text) (map : List (Text × Text)) (ms : List MigrationIdentity)
    → Unused name ms
    → get name (collect map ms) ≡ get name map
unfolding collect
get-collect name map [] h = refl
get-collect name map (m ∷ ms) h =
    get-collect name (insert m.identity m.sha256 map) ms h.1
    ∙ get-insert_other name m.identity m.sha256 map h.0

applied_own :
    (map : List (Text × Text)) (m : MigrationIdentity) (ms : List MigrationIdentity)
    → Unused m.identity ms
    → applied (collect map (m ∷ ms)) m ≡ true
unfolding applied collect
applied_own map m ms h =
    ap (λ o. is_some_eq o m.sha256)
      (get-collect m.identity (insert m.identity m.sha256 map) ms h
        ∙ get-insert m.identity m.sha256 map)
    ∙ text_eq_refl m.sha256

pub check_applied-cons :
    (map : List (Text × Text)) (m : MigrationIdentity) (ms : List MigrationIdentity)
    → applied map m ≡ true
    → check_applied map ms ≡ ok tt
    → check_applied map (m ∷ ms) ≡ ok tt
unfolding check_applied
check_applied-cons map m ms h k = rw h k

pub check_applied-parts :
    (map : List (Text × Text)) (m : MigrationIdentity) (ms : List MigrationIdentity)
    → check_applied map (m ∷ ms) ≡ ok tt
    → (applied map m ≡ true) × (check_applied map ms ≡ ok tt)
unfolding check_applied
check_applied-parts map m ms h = ensure-eq-ok (applied map m) _ (check_applied map ms) h

-- Every migration with a name of its own is found in the map of all of them.
pub check_applied-collect :
    (names : List Text) (map : List (Text × Text)) (ms : List MigrationIdentity)
    → check_migrations names ms ≡ ok tt
    → check_applied (collect map ms) ms ≡ ok tt
unfolding collect
check_applied-collect names map [] h = unfold check_applied in refl
check_applied-collect names map (m ∷ ms) h =
    let (fresh, k) = check_migrations-step names m ms h in
    check_applied-cons (collect map (m ∷ ms)) m ms
      (applied_own map m ms (Unused-seen m.identity [] names ms k))
      (check_applied-collect (m.identity ∷ names) (insert m.identity m.sha256 map) ms k)

pub applied-get :
    (map : List (Text × Text)) (m : MigrationIdentity)
    → applied map m ≡ true
    → get m.identity map ≡ some m.sha256
unfolding applied
applied-get map m h = go (get m.identity map) h
  where
    go : (o : Option Text) → is_some_eq o m.sha256 ≡ true → o ≡ some m.sha256
    go none k = cc
    go (some s) k = ap some (text_eq_sound s m.sha256 k)

-- The migrations hold one of this identity and checksum.
abbrev pub Among : (identity sha256 : Text) → List MigrationIdentity → Type 0
Among identity sha256 [] = ⊥
Among identity sha256 (m ∷ ms) =
    ((m.identity ≡ identity) × (m.sha256 ≡ sha256)) ⊎ Among identity sha256 ms

get-collect-Among :
    (key value : Text) (map : List (Text × Text)) (ms : List MigrationIdentity)
    → get key (collect map ms) ≡ some value
    → (get key map ≡ some value) ⊎ Among key value ms
unfolding collect
get-collect-Among key value map [] k = inl k
get-collect-Among key value map (m ∷ ms) k =
    elim (get-collect-Among key value (insert m.identity m.sha256 map) ms k) [
      | inr found ↦ inr (inr found)
      | inl found ↦ elim (Bool-cases (text_eq key m.identity)) [
        | inr e ↦ inl (sym (get-insert_other key m.identity m.sha256 map e) ∙ found)
        | inl e ↦
            let same = text_eq_sound key m.identity e in
            let stored =
              sym (get-insert m.identity m.sha256 map)
              ∙ ap (λ n. get n (insert m.identity m.sha256 map)) (sym same)
              ∙ found in
            inr (inl (sym same, cc stored))
      ]
    ]

-- What a map of migrations applies is one of them.
pub applied-Among :
    (m : MigrationIdentity) (ms : List MigrationIdentity)
    → applied (collect [] ms) m ≡ true
    → Among m.identity m.sha256 ms
applied-Among m ms h =
    elim (get-collect-Among m.identity m.sha256 [] ms (applied-get (collect [] ms) m h)) [
      | inl none_there ↦ absurd (unfold get in cc)
      | inr found ↦ found
    ]

applied_at :
    (map : List (Text × Text)) (m n : MigrationIdentity)
    → n.identity ≡ m.identity
    → n.sha256 ≡ m.sha256
    → applied map n ≡ true
    → applied map m ≡ true
unfolding applied
applied_at map m n i s h =
    sym (ap (λ t. is_some_eq (get t map) n.sha256) i ∙ ap (is_some_eq (get m.identity map)) s) ∙ h

-- A migration that is one of those applied is applied.
Among-applied :
    (map : List (Text × Text)) (m : MigrationIdentity) (ms : List MigrationIdentity)
    → check_applied map ms ≡ ok tt
    → Among m.identity m.sha256 ms
    → applied map m ≡ true
Among-applied map m [] h k = absurd k
Among-applied map m (n ∷ ms) h (inl (i, s)) =
    applied_at map m n i s (check_applied-parts map n ms h).0
Among-applied map m (n ∷ ms) h (inr k) = Among-applied map m ms (check_applied-parts map n ms h).1 k

-- The migrations that a map of others applies are among the others, and the other way round if the names
-- of the others differ.
pub check_applied-All :
    (base ms : List MigrationIdentity)
    → check_applied (collect [] base) ms ≡ ok tt
    → All (λ m. Among m.identity m.sha256 base) ms
check_applied-All base [] h = tt
check_applied-All base (m ∷ ms) h =
    let (here, rest) = check_applied-parts (collect [] base) m ms h in
    (applied-Among m base here, check_applied-All base ms rest)

pub All-check_applied :
    (base ms : List MigrationIdentity)
    → check_migrations [] base ≡ ok tt
    → All (λ m. Among m.identity m.sha256 base) ms
    → check_applied (collect [] base) ms ≡ ok tt
All-check_applied base [] h k = unfold check_applied in refl
All-check_applied base (m ∷ ms) h (here, rest) =
    check_applied-cons (collect [] base) m ms
      (Among-applied (collect [] base) m base (check_applied-collect [] [] base h) here)
      (All-check_applied base ms h rest)
