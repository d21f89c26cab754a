-- ===== src/Prelude/Exec.antt =====
-- Methods that change a state and may fail. What was done before a failure stays done.
pub mod Preserves
pub mod Leads
use mathlib.Core.Path.{◌≡◌, refl}
use native.Mathlib.Omega.{arith}
use komizo.Prelude.Result.{Fault, Result, ok, err}

abbrev pub Exec {ℓ} : Type ℓ → Type ℓ → Type ℓ
Exec S A = S → Result A × S

module _ {ℓ} {S A : Type ℓ} where
  unfoldable pub pure : A → Exec S A
  pure a s = (ok a, s)

  unfoldable pub raise : Fault → Exec S A
  raise e s = (err e, s)

  unfoldable pub lift : Result A → Exec S A
  lift r s = (r, s)

module _ {ℓ} {S A B : Type ℓ} where
  abbrev pub continue : Result A → (A → Exec S B) → Exec S B
  continue (ok a) f s = f a s
  continue (err e) f s = (err e, s)

  infixl 5 ◌>>=◌ ◌>>◌
  -- Opening this opens `pure`, `raise` and `lift` too.
  unfoldable pub ◌>>=◌ : Exec S A → (A → Exec S B) → Exec S B
  unfolding pure raise lift
  ◌>>=◌ m f s = let (r, s') = m s in continue r f s'

  unfoldable pub ◌>>◌ : Exec S A → Exec S B → Exec S B
  unfolding ◌>>=◌
  m >> n = m >>= λ _. n

-- Inversion of a chain that succeeds.
module _ {ℓ} {S A B : Type ℓ} where
  continue-eq-ok :
      (r : Result A) (f : A → Exec S B) (s s' : S) {b : B}
      → continue r f s ≡ (ok b, s')
      → (a : A) × (r ≡ ok a) × (f a s ≡ (ok b, s'))
  continue-eq-ok (ok a) f s s' h = (a, refl, h)
  continue-eq-ok (err e) f s s' h = ground arith

  pub >>=-eq-ok :
      (m : Exec S A) (f : A → Exec S B) (s s' : S) {b : B}
      → (m >>= f) s ≡ (ok b, s')
      → (a : A) × ((m s).0 ≡ ok a) × (f a (m s).1 ≡ (ok b, s'))
  unfolding ◌>>=◌
  >>=-eq-ok m f s s' h = continue-eq-ok (m s).0 f (m s).1 s' h

  pub >>-eq-ok :
      (m : Exec S A) (n : Exec S B) (s s' : S) {b : B}
      → (m >> n) s ≡ (ok b, s')
      → (a : A) × ((m s).0 ≡ ok a) × (n (m s).1 ≡ (ok b, s'))
  unfolding ◌>>◌
  >>-eq-ok m n s s' h = >>=-eq-ok m (λ _. n) s s' h
