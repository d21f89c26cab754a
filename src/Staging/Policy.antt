-- ===== src/Staging/Policy.antt =====
-- The policy under which a deployment is staged: the checks at the start of `stage_deployment` in
-- src/host/workload/deployment.rs.
use komizo.Prelude.{
  ◌≡◌, refl, Bool, true, false, ◌&&◌, Option, none, some, arith, Text, text_eq, text_eq_sound,
  String,
}
use komizo.Prelude.Result.{Result, ok, ensure, OfOk}
use komizo.Prelude.Exec.{Exec, pure, lift, ◌>>=◌, ◌>>◌}
use komizo.Prelude.Exec.Leads.{bind-outcome}
use komizo.Operation.Phase.{same}
use komizo.Reconciliation.Request.{Authority}
use komizo.Activation.Request.{ActivationRequest}
use komizo.Activation.Host.{outside}
use komizo.Staging.Stage.{StageEffects, StageState, is_authority, on_host, aside}
use komizo.Staging.Deployment.{checked}

is_authority_sound :
    (d : Option (Text × Text)) (r : ActivationRequest)
    → is_authority d r ≡ true
    → d ≡ some (r.route_path, r.proxy)
is_authority_sound none r h = absurd (cc)
is_authority_sound (some (route_path, proxy)) r h =
    ground (arith, text_eq_sound route_path r.route_path, text_eq_sound proxy r.proxy)

ensured : (b : Bool) (why : String) {u : Unit {0}} → ensure b why ≡ ok u → b ≡ true
ensured true why h = refl
ensured false why h = absurd (cc)

-- What holds of the result of a method, if it succeeds.
record Yields {S A : Type 0} (P : A → Type 0) (m : Exec S A) : Type 0 where
  at : (st : S) → OfOk P (m st).0

Yields-bind :
    {S A B : Type 0} {P : B → Type 0} (m : Exec S A) (f : A → Exec S B)
    → ((a : A) (st : S) → (m st).0 ≡ ok a → Yields P (f a))
    → Yields P (m >>= f)
Yields-bind {P = P} m f h = record {
  at = λ st.
      bind-outcome m f (λ o. OfOk P o.0) st (λ e failed. tt)
        (λ a found. (h a st found).at (m st).1);
}

Yields-then :
    {S A B : Type 0} {P : B → Type 0} (m : Exec S A) (n : Exec S B)
    → ((a : A) (st : S) → (m st).0 ≡ ok a → Yields P n)
    → Yields P (m >> n)
unfolding ◌>>◌
Yields-then m n h = Yields-bind m (λ u. n) h

module _ {W : Type 0} (x : StageEffects W) (r : ActivationRequest) where
  -- A policy that was read, with the digest that the request names, of its application and route.
  pub record IsPolicy (p : Authority) : Type 0 where
    pub world : W
    pub read : (x.policy world).0 ≡ ok (r.policy_sha256, ok p)
    pub app : p.app ≡ r.app
    pub authority : p.deployment ≡ some (r.route_path, r.proxy)

  policy_found :
      (w : W) (digest : Text) (policy : Result Authority) (p : Authority)
      → (x.policy w).0 ≡ ok (digest, policy)
      → text_eq digest r.policy_sha256 ≡ true
      → policy ≡ ok p
      → (text_eq p.app r.app && is_authority p.deployment r) ≡ true
      → IsPolicy p
  policy_found w digest policy p read same known owned = record {
    world = w;
    read = cc (read, text_eq_sound digest r.policy_sha256 same, known);
    app = text_eq_sound p.app r.app (ground arith);
    authority = is_authority_sound p.deployment r (ground arith);
  }

  checked-Yields : Yields (λ (p, s, env). IsPolicy p) (checked x r)
  unfolding checked lift aside on_host outside pure
  checked-Yields = Yields-then _ _ λ u st1 h1. Yields-bind _ _ λ op st2 h2.
      Yields-then _ _ λ u st3 h3. Yields-bind _ _ λ (digest, policy) st4 read.
        Yields-then _ _ λ u st5 agrees. Yields-bind _ _ λ p st6 known.
          Yields-then _ _ λ u st7 owned. Yields-bind _ _ λ env st8 h8. Yields-then _ _ λ u st9 h9.
            Yields-bind _ _ λ s st10 h10. record {
              at = λ st11.
                  policy_found _ digest policy p read (ensured _ _ agrees) known
                    (ensured _ _ owned);
            }

  pub checked-IsPolicy : (st : StageState W) → OfOk (λ (p, s, env). IsPolicy p) (checked x r st).0
  checked-IsPolicy st = checked-Yields.at st
