-- ===== src/Transaction/Version.antt =====
-- The version that is written into an environment file is the one that is read: for
-- `deployment_env` and `deployment_version` of src/host/workload/transaction.rs.
use komizo.Prelude.{
  ◌≡◌, refl, sym, inl, inr, Bool, true, false, Option, none, some, List, [], ◌∷◌, ◌++◌, arith,
  Option-cases, Text, strip_prefix, starts_with, strip_prefix-append,
}
use komizo.Prelude.Result.{message, Result, ok, err, ok-injective}
use komizo.Prelude.Result.{◌>>=◌}
use komizo.Transaction.Environment.{
  version_key, value_of, is_version, version_line, find_version, replace_version, found,
}

pub value_of-version_line : (version : Text) → value_of (version_line version) ≡ some version
unfolding value_of version_line
value_of-version_line version = strip_prefix-append version_key version

abbrev is_some : Option Text → Bool
is_some none = false
is_some (some t) = true

is_version-value_of : (line : Text) → is_version line ≡ is_some (value_of line)
unfolding is_version value_of starts_with
is_version-value_of line = go (strip_prefix version_key line)
  where
    go : (o : Option Text) → elim o [ none ↦ false | some r ↦ true ] ≡ is_some o
    go none = refl
    go (some r) = refl

found-parts :
    (line : Text) (lines : List Text)
    → found (line ∷ lines) ≡ false
    → (value_of line ≡ none) × (found lines ≡ false)
unfolding found
found-parts line lines h = elim (Option-cases (value_of line)) [
  | inl e ↦ (e, ground (arith, is_version-value_of line))
  | inr (old, e) ↦ ground (arith, e, is_version-value_of line)
]

-- A version is found at most once.
pub find_version-some :
    (old : Text) (lines : List Text) (o : Option Text)
    → find_version (some old) lines ≡ ok o
    → (found lines ≡ false) × (o ≡ some old)
unfolding find_version found
find_version-some old [] o h = (refl, sym (ok-injective _ _ h))
find_version-some old (line ∷ lines) o h =
    ground (arith, find_version-some old lines o, is_version-value_of line)

pub find_version-none :
    (version : Option Text) (lines : List Text)
    → found lines ≡ false
    → find_version version lines ≡ ok version
unfolding find_version
find_version-none version [] h = refl
find_version-none version (line ∷ lines) h =
    let (e, k) = found-parts line lines h in rw e (find_version-none version lines k)

pub replace_version-none :
    (version : Text) (lines : List Text)
    → found lines ≡ false
    → replace_version version lines ≡ lines
unfolding replace_version found
replace_version-none version [] h = refl
replace_version-none version (line ∷ lines) h = ground (arith, replace_version-none version lines)

pub find_version-replace :
    (version : Text) (lines : List Text) (o : Option Text)
    → find_version none lines ≡ ok o
    → found lines ≡ true
    → find_version none (replace_version version lines) ≡ ok (some version)
unfolding find_version replace_version found
find_version-replace version [] o h k = cc
find_version-replace version (line ∷ lines) o h k = elim (Option-cases (value_of line)) [
  | inl e ↦ ground (arith, e, is_version-value_of line, find_version-replace version lines o)
  | inr (old, e) ↦ ground (
    arith,
    e,
    is_version-value_of line,
    value_of-version_line version,
    find_version-some old lines o,
    find_version-none (some version) lines,
    replace_version-none version lines,
  )
]

pub find_version-append :
    (version : Option Text) (front back : List Text)
    → find_version version (front ++ back)
      ≡ (find_version version front >>= λ v. find_version v back)
unfolding find_version
find_version-append version [] back = refl
find_version-append version (line ∷ front) back =
    go (value_of line) version (find_version-append version front back)
      (λ v. find_version-append (some v) front back)
  where
    go :
        (o v : Option Text)
        → find_version v (front ++ back) ≡ (find_version v front >>= λ w. find_version w back)
        → ((t : Text)
            → find_version (some t) (front ++ back)
              ≡ (find_version (some t) front >>= λ w. find_version w back))
        → ◌≡◌ {A = Result (Option Text)}
            (elim o [
              | none ↦ find_version v (front ++ back)
              | some value ↦ elim v [
                | none ↦ find_version (some value) (front ++ back)
                | some old ↦ err (message "duplicate installed revision")
              ]
            ])
            (elim o [
              | none ↦ find_version v front
              | some value ↦ elim v [
                | none ↦ find_version (some value) front
                | some old ↦ err (message "duplicate installed revision")
              ]
            ]
              >>= λ w. find_version w back)
    go none v h k = h
    go (some t) none h k = k t
    go (some t) (some old) h k = refl
