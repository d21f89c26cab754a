-- ===== src/Prelude/Exec/Leads.antt =====
-- What follows after a method, from what the methods it is built of keep.
use mathlib.Core.Path.{◌≡◌, refl}
use komizo.Prelude.Result.{Fault, Result, ok, err}
use komizo.Prelude.Exec.{Exec, continue, ◌>>=◌, ◌>>◌}
use komizo.Prelude.Exec.Preserves.{Preserves}

-- What holds after a method, whether it succeeds or fails, given what held before.
pub record Leads {S A : Type 0} (P Q : S → Type 0) (m : Exec S A) : Type 0 where
  pub at : (before : S) → P before → Q (m before).1

module _ {S A B : Type 0} {P Q : S → Type 0} (m : Exec S A) where
  pub Leads-bind :
      (f : A → Exec S B)
      → ((s : S) → P s → Q s)
      → Preserves P m
      → ((a : A) → Leads P Q (f a))
      → Leads P Q (m >>= f)
  unfolding ◌>>=◌
  Leads-bind f sub k h = record {
    at = λ s p. elim (m s).0 as (λ r. Q (continue r f (m s).1).1) [
      | ok a ↦ (h a).at (m s).1 (k.at s p)
      | err e ↦ sub (m s).1 (k.at s p)
    ];
  }

  pub Leads-then :
      (n : Exec S B) → ((s : S) → P s → Q s) → Preserves P m → Leads P Q n → Leads P Q (m >> n)
  unfolding ◌>>◌
  Leads-then n sub k h = Leads-bind (λ u. n) sub k (λ u. h)

module _ {S A B : Type 0} (m : Exec S A) where
  pub bind-outcome :
      (f : A → Exec S B) (Q : Result B × S → Type 0) (st : S)
      → ((e : Fault) → (m st).0 ≡ err e → Q (err e, (m st).1))
      → ((a : A) → (m st).0 ≡ ok a → Q (f a (m st).1))
      → Q ((m >>= f) st)
  unfolding ◌>>=◌
  bind-outcome f Q st failed found =
      elim (m st).0 as (λ r. (m st).0 ≡ r → Q (continue r f (m st).1)) [
        | ok a ↦ found a
        | err e ↦ failed e
      ]
        refl

  pub then-outcome :
      (n : Exec S B) (Q : Result B × S → Type 0) (st : S)
      → ((e : Fault) → (m st).0 ≡ err e → Q (err e, (m st).1))
      → Q (n (m st).1)
      → Q ((m >> n) st)
  unfolding ◌>>◌
  then-outcome n Q st failed found = bind-outcome (λ u. n) Q st failed (λ a e. found)
