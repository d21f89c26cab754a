-- ===== src/Prelude/Split.antt =====
-- Laws of `split` and `join` at one byte: each undoes the other.
use Prim.Native.Nat.{ℕ}
use mathlib.Core.Path.{◌≡◌, refl, ap, ◌∙◌, sym}
use mathlib.Core.Bool.{Bool, true, false}
use mathlib.Core.List.{List, [], ◌∷◌, ◌++◌}
use native.Mathlib.Omega.{arith}
use komizo.Prelude.Tests.{◌==◌, if◌then◌else◌}
use komizo.Prelude.Lists.{All}
use komizo.Prelude.Bytes.{Text, split, join, cons_first, has_byte, split_cons}

module _ (b : ℕ) where
  join-cons_first :
      (c : ℕ) (l : Text) (ls : List Text) → join b (cons_first c (l ∷ ls)) ≡ c ∷ join b (l ∷ ls)
  unfolding join cons_first
  join-cons_first c l [] = refl
  join-cons_first c l (m ∷ ls) = refl

  join-nil_cons : (l : Text) (ls : List Text) → join b ([] ∷ l ∷ ls) ≡ b ∷ join b (l ∷ ls)
  unfolding join
  join-nil_cons l ls = refl

  -- Joining the parts of a text gives it back.
  pub join-split : (s : Text) → join b (split b s) ≡ s
  unfolding split
  join-split [] = unfold join in refl
  join-split (c ∷ s) =
      let (l, ls, e) = split_cons b s in
      let ih : join b (l ∷ ls) ≡ s = ap (join b) (sym e) ∙ join-split s in
      ground (arith, join-cons_first c l ls, join-nil_cons l ls)

  pub split-part : (l : Text) → has_byte b l ≡ false → split b l ≡ l ∷ []
  unfolding split has_byte cons_first
  split-part [] h = refl
  split-part (c ∷ l) h = ground (arith, split-part l)

  pub split-part_append : (l s : Text) → has_byte b l ≡ false → split b (l ++ b ∷ s) ≡ l ∷ split b s
  unfolding split has_byte cons_first
  split-part_append [] s h = ground arith
  split-part_append (c ∷ l) s h = ground (arith, split-part_append l s)

  -- Splitting what was joined gives the parts back, if none of them holds the byte.
  pub split-join :
      (l : Text) (ls : List Text)
      → All (λ p. has_byte b p ≡ false) (l ∷ ls)
      → split b (join b (l ∷ ls)) ≡ l ∷ ls
  unfolding join
  split-join l [] h = split-part l h.0
  split-join l (m ∷ ls) h =
      split-part_append l (join b (m ∷ ls)) h.0 ∙ ap (◌∷◌ l) (split-join m ls h.1)

  has_byte-cons_first :
      (c : ℕ) (ls : List Text)
      → (c == b) ≡ false
      → All (λ p. has_byte b p ≡ false) ls
      → All (λ p. has_byte b p ≡ false) (cons_first c ls)
  unfolding has_byte cons_first
  has_byte-cons_first c [] n h = (ground arith, tt)
  has_byte-cons_first c (l ∷ ls) n h = (ground arith, h.1)

  split_step-parts :
      (c : ℕ) (ls : List Text) (t : Bool)
      → (c == b) ≡ t
      → All (λ p. has_byte b p ≡ false) ls
      → All (λ p. has_byte b p ≡ false) (if t then [] ∷ ls else cons_first c ls)
  unfolding has_byte
  split_step-parts c ls true e h = (refl, h)
  split_step-parts c ls false e h = has_byte-cons_first c ls e h

  -- No part of a split text holds the byte.
  pub split_parts : (s : Text) → All (λ p. has_byte b p ≡ false) (split b s)
  unfolding split
  split_parts [] = unfold has_byte in (refl, tt)
  split_parts (c ∷ s) = split_step-parts c (split b s) (c == b) refl (split_parts s)

pub has_byte-append :
    (b : ℕ) (s t : Text) → has_byte b s ≡ false → has_byte b t ≡ false → has_byte b (s ++ t) ≡ false
unfolding has_byte
has_byte-append b [] t h k = k
has_byte-append b (c ∷ s) t h k = ground (arith, has_byte-append b s t)
