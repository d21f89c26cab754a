-- ===== src/Prelude/Exec/Preserves.antt =====
-- Predicates that a method preserves, whether it succeeds or fails; one rule for each way to build it.
use komizo.Prelude.Tests.{if◌then◌else◌}
use komizo.Prelude.Result.{Result, ok, err}
use komizo.Prelude.Exec.{Exec, pure, lift, continue, ◌>>=◌, ◌>>◌}
use mathlib.Core.Bool.{Bool, true, false}

pub record Preserves {ℓ} {S A : Type ℓ} (P : S → Type ℓ) (m : Exec S A) : Type ℓ where
  pub at : (before : S) → P before → P (m before).1

module _ {ℓ} {S A : Type ℓ} {P : S → Type ℓ} where
  pub Preserves-pure : (a : A) → Preserves P (pure a)
  unfolding pure
  Preserves-pure a = record { at = λ s h. h }

  pub Preserves-lift : (r : Result A) → Preserves P (lift r)
  unfolding lift
  Preserves-lift r = record { at = λ s h. h }

  pub Preserves-if :
      (b : Bool) (m n : Exec S A) → Preserves P m → Preserves P n → Preserves P (if b then m else n)
  Preserves-if true m n km kn = km
  Preserves-if false m n km kn = kn

module _ {ℓ} {S A B : Type ℓ} {P : S → Type ℓ} where
  continue-preserves :
      (r : Result A) (f : A → Exec S B)
      → ((a : A) → Preserves P (f a))
      → (s : S) → P s
      → P (continue r f s).1
  continue-preserves (ok a) f k s h = (k a).at s h
  continue-preserves (err e) f k s h = h

  pub Preserves-bind :
      (m : Exec S A) (f : A → Exec S B)
      → Preserves P m
      → ((a : A) → Preserves P (f a))
      → Preserves P (m >>= f)
  unfolding ◌>>=◌
  Preserves-bind m f km kf = record {
    at = λ s h. let (r, s') = m s in continue-preserves r f kf s' (km.at s h);
  }

  pub Preserves-then :
      (m : Exec S A) (n : Exec S B) → Preserves P m → Preserves P n → Preserves P (m >> n)
  unfolding ◌>>◌
  Preserves-then m n km kn = Preserves-bind m (λ _. n) km (λ _. kn)
