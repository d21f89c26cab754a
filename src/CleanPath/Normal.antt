-- ===== src/CleanPath/Normal.antt =====
-- Clean paths are in normal form: cleaning one again changes nothing, and an absolute one never climbs.
use mathlib.Core.List.{reverse, reverse-cons, append_assoc, append-nil}
use komizo.Prelude.{
  ◌≡◌, refl, sym, ap, ◌∙◌, ◌⊎◌, inl, inr, Bool, true, false, Text, text_eq, text_eq_sound, has_byte,
  List, [], ◌∷◌, ◌++◌, if◌then◌else◌, All, Bool-cases,
}
use komizo.CleanPath.{dot_dot, is_blank, keep_components, parent, walk}

abbrev pub climbs : Text → Bool
climbs p = text_eq p dot_dot

-- A stack of parts, last first, in which `..` stands only at the bottom, and in a relative path only.
abbrev IsSettled : Bool → List Text → Type 0
IsSettled b [] = Unit {0}
IsSettled b (top ∷ rest) =
    IsSettled b rest × ((climbs top ≡ false) ⊎ ((b ≡ false) × All (λ p. climbs p ≡ true) rest))

below_climbs :
    (top : Text) (rest : List Text)
    → climbs top ≡ true
    → ((climbs top ≡ false) ⊎ ((◌≡◌ {A = Bool} false false) × All (λ p. climbs p ≡ true) rest))
    → All (λ p. climbs p ≡ true) rest
below_climbs top rest e (inl n) = absurd (cc)
below_climbs top rest e (inr (_, h)) = h

parent-IsSettled : (b : Bool) (stack : List Text) → IsSettled b stack → IsSettled b (parent b stack)
unfolding parent
parent-IsSettled true [] h = tt
parent-IsSettled false [] h = (tt, inr (refl, tt))
parent-IsSettled true (top ∷ rest) h = elim (Bool-cases (climbs top)) [
  | inl e ↦ rw e h
  | inr e ↦ rw e h.0
]
parent-IsSettled false (top ∷ rest) h = elim (Bool-cases (climbs top)) [
  | inl e ↦ rw e (h, inr (refl, (e, below_climbs top rest e h.1)))
  | inr e ↦ rw e h.0
]

unparent :
    (b : Bool) (top : Text) (rest : List Text)
    → climbs top ≡ true
    → b ≡ false
    → All (λ p. climbs p ≡ true) rest
    → parent b rest ≡ top ∷ rest
unfolding parent
unparent b top [] e f h = rw (f, text_eq_sound top dot_dot e)
unparent b top (p ∷ rest) e f h = rw (h.0, f, text_eq_sound top dot_dot e)

push-step :
    (b : Bool) (top : Text) (rest : List Text)
    → (climbs top ≡ false) ⊎ ((b ≡ false) × All (λ p. climbs p ≡ true) rest)
    → (if climbs top then parent b rest else top ∷ rest) ≡ top ∷ rest
push-step b top rest (inl n) = rw n
push-step b top rest (inr (f, h)) = elim (Bool-cases (climbs top)) [
  | inl e ↦ rw e (unparent b top rest e f h)
  | inr n ↦ rw n
]

-- Walking over settled parts puts them on the stack.
walk-settled :
    (b : Bool) (stack ps : List Text)
    → IsSettled b stack
    → walk b [] (reverse stack ++ ps) ≡ walk b stack ps
walk-settled b [] ps h = refl
walk-settled b (top ∷ rest) ps h =
    ap (λ (l : List Text). walk b [] (l ++ ps)) (reverse-cons top rest)
    ∙ ap (walk b []) (append_assoc (reverse rest) (top ∷ []) ps)
    ∙ walk-settled b rest (top ∷ ps) h.0
    ∙ (unfold walk in ap (λ (s : List Text). walk b s ps) (push-step b top rest h.1))

walk-IsSettled :
    (b : Bool) (stack ps : List Text)
    → IsSettled b stack
    → (end : List Text) × (walk b stack ps ≡ reverse end) × IsSettled b end
unfolding walk
walk-IsSettled b stack [] h = (stack, refl, h)
walk-IsSettled b stack (p ∷ ps) h = elim (Bool-cases (climbs p)) [
  | inl e ↦ rw e (walk-IsSettled b (parent b stack) ps (parent-IsSettled b stack h))
  | inr e ↦ rw e (walk-IsSettled b (p ∷ stack) ps (h, inl e))
]

-- Walking over the result of a walk changes nothing.
pub walk-walk : (b : Bool) (ps : List Text) → walk b [] (walk b [] ps) ≡ walk b [] ps
walk-walk b ps =
    let (end, e, s) = walk-IsSettled b [] ps tt in
    rw (e, ← append-nil (reverse end))
      (walk-settled b end [] s ∙ (unfold walk in sym (append-nil (reverse end))))

-- A component holds no slash and is neither empty nor `.`.
abbrev pub IsPart : Text → Type 0
IsPart p = (is_blank p ≡ false) × (has_byte b'/' p ≡ false)

pub keep_components-IsPart :
    (ps : List Text) → All (λ p. has_byte b'/' p ≡ false) ps → All IsPart (keep_components ps)
unfolding keep_components
keep_components-IsPart [] h = tt
keep_components-IsPart (p ∷ ps) h = elim (Bool-cases (is_blank p)) [
  | inl e ↦ rw e (keep_components-IsPart ps h.1)
  | inr e ↦ rw e ((e, h.0), keep_components-IsPart ps h.1)
]

pub keep_components-parts : (ps : List Text) → All IsPart ps → keep_components ps ≡ ps
unfolding keep_components
keep_components-parts [] h = refl
keep_components-parts (p ∷ ps) h = rw (h.0.0, keep_components-parts ps h.1)

dot_dot-IsPart : IsPart dot_dot
unfolding is_blank has_byte
dot_dot-IsPart = (refl, refl)

parent-parts : (b : Bool) (stack : List Text) → All IsPart stack → All IsPart (parent b stack)
unfolding parent
parent-parts true [] h = tt
parent-parts false [] h = (dot_dot-IsPart, tt)
parent-parts true (top ∷ rest) h = elim (Bool-cases (climbs top)) [
  | inl e ↦ rw e h
  | inr e ↦ rw e h.1
]
parent-parts false (top ∷ rest) h = elim (Bool-cases (climbs top)) [
  | inl e ↦ rw e (dot_dot-IsPart, h)
  | inr e ↦ rw e h.1
]

All-reverse_onto {κ} :
    (P : Text → Type κ) (xs ys : List Text) → All P xs → All P ys → All P (reverse xs ++ ys)
All-reverse_onto P [] ys h k = k
All-reverse_onto P (x ∷ xs) ys h k =
    rw (reverse-cons x xs, append_assoc (reverse xs) (x ∷ []) ys)
      (All-reverse_onto P xs (x ∷ ys) h.1 (h.0, k))

pub walk-parts :
    (b : Bool) (stack ps : List Text)
    → All IsPart stack
    → All IsPart ps
    → All IsPart (walk b stack ps)
unfolding walk
walk-parts b stack [] h k =
    rw (← append-nil (reverse stack)) (All-reverse_onto IsPart stack [] h tt)
walk-parts b stack (p ∷ ps) h k = elim (Bool-cases (climbs p)) [
  | inl e ↦ rw e (walk-parts b (parent b stack) ps (parent-parts b stack h) k.1)
  | inr e ↦ rw e (walk-parts b (p ∷ stack) ps (k.0, h) k.1)
]

settled_never_climbs :
    (stack : List Text) → IsSettled true stack → All (λ p. climbs p ≡ false) stack
settled_never_climbs [] h = tt
settled_never_climbs (top ∷ rest) (h, inl n) = (n, settled_never_climbs rest h)
settled_never_climbs (top ∷ rest) (h, inr (f, _)) = absurd (cc)

-- In an absolute path no part is `..`.
pub walk_never_climbs : (ps : List Text) → All (λ p. climbs p ≡ false) (walk true [] ps)
walk_never_climbs ps =
    let (end, e, s) = walk-IsSettled true [] ps tt in
    rw (e, ← append-nil (reverse end))
      (All-reverse_onto (λ p. climbs p ≡ false) end [] (settled_never_climbs end s) tt)
