-- ===== src/Prelude/Result.antt =====
-- `anyhow::Result`: a value or an error. An error is the `ActivationError` or the `io::Error` of kind
-- NotFound that callers look for with `downcast_ref`, or a message; `joined` is the
-- message that `anyhow!` makes of two errors, and `named` the one that
-- `anyhow!("{name}: {error}")` makes of one; `said` is a message that is put together from values.
use Prim.Native.String.{String}
use mathlib.Core.Path.{◌≡◌, refl, ap, subst}
use mathlib.Core.Bool.{Bool, true, false}
use mathlib.Core.Option.{Option, none, some}
use mathlib.Core.List.{List}
use Prim.Native.Nat.{ℕ}

pub data Fault : Type 0 where
  message : String → Fault
  not_found readiness_unspecified reconciliation owner_stopped : Fault
  joined : Fault → Fault → Fault
  named : List ℕ → Fault → Fault
  said : List ℕ → Fault

pub data Result {ℓ} (A : Type ℓ) : Type ℓ where
  ok : A → Result A
  err : Fault → Result A

infixl 5 ◌>>=◌ ◌>>◌
module _ {ℓ κ} {Value : Type ℓ} {Next : Type κ} where
  abbrev pub ◌>>=◌ : Result Value → (Value → Result Next) → Result Next
  ◌>>=◌ (err fault) rest = err fault
  ◌>>=◌ (ok value) rest = rest value

module _ {κ} {B : Type κ} where
  abbrev pub ◌>>◌ : Result (Unit {0}) → Result B → Result B
  ◌>>◌ first rest = first >>= λ done. rest

-- `ensure!(test, message)`
abbrev pub ensure : Bool → String → Result (Unit {0})
ensure true e = ok tt
ensure false e = err (message e)

-- `ok_or_else`
abbrev pub ok_or {ℓ} : {A : Type ℓ} → Option A → String → Result A
ok_or (some a) e = ok a
ok_or none e = err (message e)

abbrev pub is_ok {ℓ} : {A : Type ℓ} → Result A → Bool
is_ok (ok a) = true
is_ok (err e) = false

-- Inversion of a chain that succeeds.
module _ {ℓ κ} {Value : Type ℓ} {Next : Type κ} where
  pub >>=-eq-ok :
      (first : Result Value) (rest : Value → Result Next) {result : Next}
      → ◌>>=◌ {Value = Value} {Next = Next} first rest ≡ ok result
      → (value : Value) × (first ≡ ok value) × (rest value ≡ ok result)
  >>=-eq-ok (err fault) rest e = cc
  >>=-eq-ok (ok value) rest e = (value, refl, e)

pub ensure-eq-ok {ℓ} :
    {B : Type ℓ} (test : Bool) (text : String) (k : Result B) {b : B}
    → (ensure test text >> k) ≡ ok b
    → (test ≡ true) × (k ≡ ok b)
ensure-eq-ok true text k h = (refl, h)
ensure-eq-ok false text k h = cc

abbrev ok_value {ℓ} : {A : Type ℓ} → A → Result A → A
ok_value a (ok b) = b
ok_value a (err e) = a

pub ok-injective {ℓ} : {A : Type ℓ} (a b : A) → ok a ≡ ok b → a ≡ b
ok-injective a b h = ap (ok_value a) h

-- What holds of a result, if there is one.
abbrev pub OfOk {ℓ κ} : {A : Type ℓ} → (A → Type κ) → Result A → Type κ
OfOk P (ok a) = P a
OfOk P (err e) = Unit

pub >>=-OfOk {ℓ κ ν} :
    {A : Type ℓ} {B : Type κ} (P : B → Type ν) (first : Result A) (rest : A → Result B)
    → ((a : A) → first ≡ ok a → OfOk P (rest a))
    → OfOk P (◌>>=◌ {Value = A} {Next = B} first rest)
>>=-OfOk P (ok a) rest h = h a refl
>>=-OfOk P (err e) rest h = tt

pub OfOk-ok {ℓ κ} : {A : Type ℓ} (P : A → Type κ) (r : Result A) {a : A} → OfOk P r → r ≡ ok a → P a
OfOk-ok P (ok b) h e = subst P (ok-injective b _ e) h
OfOk-ok P (err f) h e = absurd (cc)

pub ok_or-eq-ok {ℓ} :
    {A : Type ℓ} (o : Option A) (text : String) {a : A} → ok_or o text ≡ ok a → o ≡ some a
ok_or-eq-ok (some b) text e = ap some (ok-injective b _ e)
ok_or-eq-ok none text e = absurd (cc)
