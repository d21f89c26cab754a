-- ===== src/Operation/Phase.antt =====
-- The phases of a deployment operation (src/workload/operation.rs, operation-contract.json) and
-- `legal`. A phase is a string in the source: `phase_of` reads it, and `other` keeps every text that
-- the contract does not name.
use komizo.Prelude.{
  ℕ, ◌≡◌, refl, Bool, true, false, ◌&&◌, List, [], ◌∷◌, arith, Text, codes, text_eq, text_eq_sound,
  text_eq_refl, ◌==◌, if◌then◌else◌, Bool-cases, inl, inr, Option, none, some,
}

pub data Phase : Type 0 where
  admitted staging staging_failed configured activating activated ready : Phase
  readiness_failed prepared_stopped failed activation_failed reconciled : Phase
  other : Text → Phase

-- The string of a phase.
unfoldable pub phase_name : Phase → Text
phase_name admitted = codes "admitted"
phase_name staging = codes "staging"
phase_name staging_failed = codes "staging_failed"
phase_name configured = codes "configured"
phase_name activating = codes "activating"
phase_name activated = codes "activated"
phase_name ready = codes "ready"
phase_name readiness_failed = codes "readiness_failed"
phase_name prepared_stopped = codes "prepared_stopped"
phase_name failed = codes "failed"
phase_name activation_failed = codes "activation_failed"
phase_name reconciled = codes "reconciled"
phase_name (other s) = s

abbrev contract_phases : List Phase
contract_phases =
    admitted ∷ staging ∷ staging_failed ∷ configured ∷ activating ∷ activated ∷ ready
    ∷ readiness_failed ∷ prepared_stopped ∷ failed ∷ activation_failed ∷ reconciled ∷ []

find_phase : List Phase → Text → Phase
unfolding phase_name
find_phase [] s = other s
find_phase (p ∷ ps) s = let rest = find_phase ps s in if text_eq (phase_name p) s then p else rest

-- The phase that a string spells.
unfoldable pub phase_of : Text → Phase
unfolding find_phase text_eq
phase_of s = find_phase contract_phases s

phase_name-find_phase : (ps : List Phase) (s : Text) → phase_name (find_phase ps s) ≡ s
unfolding find_phase phase_name
phase_name-find_phase [] s = refl
phase_name-find_phase (p ∷ ps) s = elim (Bool-cases (text_eq (phase_name p) s)) [
  | inl e ↦ rw e (text_eq_sound (phase_name p) s e)
  | inr e ↦ rw e (phase_name-find_phase ps s)
]

-- Reading a phase loses nothing of its string.
pub phase_name-phase_of : (s : Text) → phase_name (phase_of s) ≡ s
unfolding phase_of
phase_name-phase_of s = phase_name-find_phase contract_phases s

-- `phases().get(p)`: what operation-contract.json says of a phase, absent for any other string.
unfoldable pub reconciliation_required : Phase → Bool
reconciliation_required staging = true
reconciliation_required staging_failed = true
reconciliation_required configured = true
reconciliation_required activating = true
reconciliation_required readiness_failed = true
reconciliation_required failed = true
reconciliation_required activation_failed = true
reconciliation_required _ = false

-- The decision of the same table.
unfoldable pub decision : Phase → Option Text
decision admitted = some (codes "pending")
decision staging = some (codes "pending")
decision staging_failed = some (codes "refused")
decision configured = some (codes "pending")
decision activating = some (codes "pending")
decision activated = some (codes "pending")
decision ready = some (codes "accepted")
decision readiness_failed = some (codes "refused")
decision prepared_stopped = some (codes "owner_stopped")
decision failed = some (codes "refused")
decision activation_failed = some (codes "refused")
decision reconciled = some (codes "reconciled")
decision (other s) = none

-- `phases().contains_key(p)`
unfoldable pub in_contract : Phase → Bool
in_contract (other s) = false
in_contract _ = true

abbrev index : Phase → ℕ
index admitted = 0
index staging = 1
index staging_failed = 2
index configured = 3
index activating = 4
index activated = 5
index ready = 6
index readiness_failed = 7
index prepared_stopped = 8
index failed = 9
index activation_failed = 10
index reconciled = 11
index (other s) = 12

abbrev spelling : Phase → Text
spelling (other s) = s
spelling _ = []

-- `from == to` on phases.
unfoldable pub same : Phase → Phase → Bool
same p q = index p == index q && text_eq (spelling p) (spelling q)

pub same_sound : (p q : Phase) → same p q ≡ true → p ≡ q
unfolding same text_eq
same_sound admitted q h = ground arith
same_sound staging q h = ground arith
same_sound staging_failed q h = ground arith
same_sound configured q h = ground arith
same_sound activating q h = ground arith
same_sound activated q h = ground arith
same_sound ready q h = ground arith
same_sound readiness_failed q h = ground arith
same_sound prepared_stopped q h = ground arith
same_sound failed q h = ground arith
same_sound activation_failed q h = ground arith
same_sound reconciled q h = ground arith
same_sound (other s) (other t) h = unfold same in ground (arith, text_eq_sound s t)
same_sound (other s) _ h = ground arith

pub same_refl : (p : Phase) → same p p ≡ true
unfolding same text_eq
same_refl (other s) = text_eq_refl s
same_refl _ = refl

-- The arm `"reconciled" => return matches!(from, ...)`.
unfoldable pub reconcilable : Phase → Bool
reconcilable activating = true
reconcilable activation_failed = true
reconcilable readiness_failed = true
reconcilable failed = true
reconcilable staging = true
reconcilable staging_failed = true
reconcilable configured = true
reconcilable _ = false

-- The arm `"failed" => return !matches!(from, ...)`.
unfoldable pub may_fail : Phase → Bool
may_fail ready = false
may_fail prepared_stopped = false
may_fail reconciled = false
may_fail _ = true

-- `match from { ... }`, the forward transitions.
unfoldable pub forward : Phase → Phase → Bool
forward admitted configured = true
forward admitted staging = true
forward staging configured = true
forward configured activating = true
forward configured prepared_stopped = true
forward activating activated = true
forward activating prepared_stopped = true
forward activated ready = true
forward activated readiness_failed = true
forward activated prepared_stopped = true
forward readiness_failed ready = true
forward _ _ = false

-- `match to { ... }`, then `match from { ... }`.
unfoldable pub change : Phase → Phase → Bool
unfolding reconcilable may_fail forward
change from reconciled = reconcilable from
change from failed = may_fail from
change activating activation_failed = true
change from activation_failed = false
change staging staging_failed = true
change from staging_failed = false
change from to = forward from to

unfoldable pub legal : Phase → Phase → Bool
unfolding change same
legal from to = if same from to then true else change from to

-- Every change of phase lowers the rank, so a deployment makes at most seven of them.
unfoldable pub rank : Phase → ℕ
rank admitted = 7
rank staging = 6
rank configured = 5
rank activating = 4
rank activated = 3
rank readiness_failed = 2
rank staging_failed = 2
rank activation_failed = 2
rank (other s) = 2
rank failed = 1
rank ready = 0
rank prepared_stopped = 0
rank reconciled = 0
