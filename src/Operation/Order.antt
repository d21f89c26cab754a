-- ===== src/Operation/Order.antt =====
-- `legal` as an order on the phases: where a deployment may still go, and for how long.
use komizo.Prelude.{
  ◌≤◌, ◌<◌, ◌≡◌, ◌≢◌, ◌↔◌, true, false, List, [], ◌∷◌, arith, length, text_eq, refl, codes, some,
  ◌⊎◌, inl, inr,
}
use komizo.Operation.Phase.{
  Phase, admitted, staging, staging_failed, configured, activating, activated, ready,
  readiness_failed, prepared_stopped, failed, activation_failed, reconciled, other, same,
  same_sound, change, legal, rank, reconciliation_required, decision,
}

change-rank : (p q : Phase) → change p q ≡ true → same p q ≡ false → rank q < rank p
unfolding change rank same text_eq
change-rank p admitted h ne = ground arith
change-rank p staging h ne = ground arith
change-rank p staging_failed h ne = ground arith
change-rank p configured h ne = ground arith
change-rank p activating h ne = ground arith
change-rank p activated h ne = ground arith
change-rank p ready h ne = ground arith
change-rank p readiness_failed h ne = ground arith
change-rank p prepared_stopped h ne = ground arith
change-rank p failed h ne = ground arith
change-rank p activation_failed h ne = ground arith
change-rank p reconciled h ne = ground arith
change-rank p (other s) h ne = ground arith

-- A legal transition to another phase lowers the rank.
pub legal-rank : (p q : Phase) → legal p q ≡ true → p ≢ q → rank q < rank p
unfolding legal
legal-rank p q h ne = ground (arith, same_sound p q, change-rank p q)

-- A phase that legal changes lead to, one after the other.
pub data Reaches (p : Phase) : Phase → Type 0 where
  here : Reaches p p
  further : {q s : Phase} → Reaches p q → legal q s ≡ true → Reaches p s

-- A sequence of phases in which each is a legal change of the one before it.
abbrev pub IsHistory : Phase → List Phase → Type 0
IsHistory p [] = Unit {0}
IsHistory p (q ∷ qs) = (legal p q ≡ true) × (p ≢ q) × IsHistory q qs

-- A deployment changes its phase at most `rank` times, whatever phase it is in.
pub history_bound : (p : Phase) (qs : List Phase) → IsHistory p qs → length qs ≤ rank p
history_bound p [] h = omega arith
history_bound p (q ∷ qs) h = omega (arith, legal-rank p q h.0 h.1, history_bound q qs h.2)

-- Of the phases other than `reconciled`, the contract asks for reconciliation in exactly those from
-- which `reconciled` is a legal change.
pub reconciliation_required_iff :
    (p : Phase) → p ≢ reconciled → (reconciliation_required p ≡ true) ↔ (legal p reconciled ≡ true)
unfolding legal change reconciliation_required same text_eq
reconciliation_required_iff reconciled ne = absurd (ne refl)
reconciliation_required_iff _ ne = (λ h. ground arith, λ h. ground arith)

-- The phases with no way on are those that the contract calls accepted, owner_stopped or reconciled.
pub no_way_on :
    (p : Phase)
    → ((q : Phase) → legal p q ≡ true → p ≡ q)
    → (decision p ≡ some (codes "accepted"))
      ⊎ ((decision p ≡ some (codes "owner_stopped")) ⊎ (decision p ≡ some (codes "reconciled")))
unfolding legal change decision same text_eq
no_way_on ready h = inl refl
no_way_on prepared_stopped h = inr (inl refl)
no_way_on reconciled h = inr (inr refl)
no_way_on failed h = cc (h reconciled refl)
no_way_on (other s) h = cc (h failed refl)
no_way_on admitted h = cc (h staging refl)
no_way_on staging h = cc (h configured refl)
no_way_on configured h = cc (h activating refl)
no_way_on activating h = cc (h activated refl)
no_way_on activated h = cc (h ready refl)
no_way_on _ h = cc (h reconciled refl)

-- From an accepted, stopped or reconciled operation no phase can be recorded but its own.
pub settled : (p q : Phase) → rank p ≡ 0 → legal p q ≡ true → p ≡ q
unfolding legal
settled p q z h = ground (arith, same_sound p q, change-rank p q)
