-- ===== src/CleanPath/Idempotent.antt =====
-- The text of a clean path reads back as its parts.
use komizo.Prelude.{
  ◌≡◌, refl, sym, ap, ◌∙◌, Bool, true, false, Text, text_eq, split, join, has_byte, List, [], ◌∷◌,
  ◌++◌, ◌==◌, All, arith, ℕ,
}
use komizo.Prelude.Split.{split-join, split_parts}
use komizo.CleanPath.{
  slash, dot_dot, is_absolute, is_blank, keep_components, components, walk, print, clean_path,
}
use komizo.CleanPath.Normal.{
  IsPart, walk-walk, walk-parts, keep_components-parts, keep_components-IsPart, walk_never_climbs,
}

slashless : (ps : List Text) → All IsPart ps → All (λ p. has_byte b'/' p ≡ false) ps
slashless [] h = tt
slashless (p ∷ ps) h = (h.0.1, slashless ps h.1)

components-join :
    (p : Text) (ps : List Text) → All IsPart (p ∷ ps) → components (join b'/' (p ∷ ps)) ≡ p ∷ ps
unfolding components
components-join p ps h =
    ap keep_components (split-join b'/' p ps (slashless (p ∷ ps) h))
    ∙ keep_components-parts (p ∷ ps) h

components-slash : (s : Text) → components (slash ++ s) ≡ components s
unfolding components split is_blank
components-slash s = refl

components-print : (b : Bool) (ps : List Text) → All IsPart ps → components (print b ps) ≡ ps
unfolding print
components-print true [] h = unfold components join in refl
components-print true (p ∷ ps) h = components-slash (join b'/' (p ∷ ps)) ∙ components-join p ps h
components-print false [] h = unfold components in refl
components-print false (p ∷ ps) h = components-join p ps h

first_byte :
    (p : Text) (ps : List Text)
    → IsPart p
    → (c : ℕ) × (s : Text) × (join b'/' (p ∷ ps) ≡ c ∷ s) × ((c == b'/') ≡ false)
unfolding join is_blank has_byte
first_byte [] ps h = absurd (cc h.0)
first_byte (c ∷ p) [] h = (c, p, refl, ground arith)
first_byte (c ∷ p) (q ∷ ps) h = (c, p ++ b'/' ∷ join b'/' (q ∷ ps), refl, ground arith)

-- The text of a path starts with a slash exactly when it is absolute, and is not empty.
print_first :
    (b : Bool) (ps : List Text)
    → All IsPart ps
    → (c : ℕ) × (s : Text) × (print b ps ≡ c ∷ s) × ((c == b'/') ≡ b)
unfolding print
print_first true ps h = (b'/', join b'/' ps, refl, refl)
print_first false [] h = (b'.', [], refl, refl)
print_first false (p ∷ ps) h = first_byte p ps h.0

clean_path-cons :
    (c : ℕ) (s : Text) (b : Bool)
    → (c == b'/') ≡ b
    → clean_path (c ∷ s) ≡ print b (walk b [] (components (c ∷ s)))
unfolding clean_path
clean_path-cons c s b e = ap (λ (x : Bool). print x (walk x [] (components (c ∷ s)))) e

clean_path-print :
    (b : Bool) (ps : List Text) → All IsPart ps → clean_path (print b ps) ≡ print b (walk b [] ps)
clean_path-print b ps h =
    let (c, s, e, f) = print_first b ps h in
    ap clean_path e
    ∙ clean_path-cons c s b f
    ∙ ap (λ (x : Text). print b (walk b [] (components x))) (sym e)
    ∙ ap (λ (x : List Text). print b (walk b [] x)) (components-print b ps h)

components-IsPart : (s : Text) → All IsPart (components s)
unfolding components
components-IsPart s = keep_components-IsPart (split b'/' s) (split_parts b'/' s)

print_idem :
    (b : Bool) (ps : List Text)
    → All IsPart ps
    → clean_path (print b (walk b [] ps)) ≡ print b (walk b [] ps)
print_idem b ps h =
    clean_path-print b (walk b [] ps) (walk-parts b [] ps tt h) ∙ ap (print b) (walk-walk b ps)

-- Cleaning a clean path changes nothing.
pub clean_path_idem : (s : Text) → clean_path (clean_path s) ≡ clean_path s
clean_path_idem [] = unfold clean_path in refl
clean_path_idem (c ∷ s) =
    rw (clean_path-cons c s (c == b'/') refl)
      (print_idem (c == b'/') (components (c ∷ s)) (components-IsPart (c ∷ s)))

-- A clean absolute path is absolute, and none of its components is `..`.
pub clean_path_absolute :
    (s : Text)
    → is_absolute s ≡ true
    → (is_absolute (clean_path s) ≡ true)
      × All (λ p. text_eq p dot_dot ≡ false) (components (clean_path s))
unfolding is_absolute
clean_path_absolute [] h = absurd (cc)
clean_path_absolute (c ∷ s) h =
    let ps = components (c ∷ s) in
    rw (clean_path-cons c s true h) (
      unfold print in refl,
      rw
          (components-print true (walk true [] ps)
            (walk-parts true [] ps tt (components-IsPart (c ∷ s))))
          (walk_never_climbs ps),
    )
