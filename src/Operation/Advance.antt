-- ===== src/Operation/Advance.antt =====
-- What one call of `record` may do to the operation that the file holds.
use komizo.Prelude.{
  ◌≡◌, refl, ap, ◌∙◌, ◌⊎◌, inl, inr, true, false, arith, text_eq_sound, Bool-cases, leb, ◌+◌, ◌||◌,
  List, ℕ,
}
use komizo.Prelude.Result.{Result, ok, err, ensure-eq-ok, >>=-eq-ok}
use komizo.Operation.Phase.{Phase, admitted, same, same_sound, legal, in_contract}
use komizo.Operation.Record.{
  Operation, Journal, holds, Machine, Entry, Write, write_private_json, is_zero, late, fenced,
  fresh, effective, succeed, against, admit, plan, record_phase, operation_minutes, hex,
  valid_entry, identity, refused, unsynced, written, write_plan,
}

-- The same deployment goes on, in a legal phase and within its deadline.
pub record Continues (e : Entry) (old : Operation) (op : Operation) : Type 0 where
  pub id : op.id ≡ old.id
  pub started_at : op.started_at ≡ old.started_at
  pub deadline : op.deadline ≡ old.deadline
  pub app : op.app ≡ old.app
  pub candidate : op.candidate ≡ old.candidate
  pub previous : op.previous ≡ old.previous
  pub moved : legal old.phase op.phase ≡ true
  pub timely : (is_zero old.deadline || leb e.now old.deadline || late op.phase) ≡ true

-- A new deployment is admitted, over one that holds no fence.
pub record Admits (e : Entry) (old : Operation) (op : Operation) : Type 0 where
  pub phase : op.phase ≡ admitted
  pub unfenced : fenced old.phase ≡ false
  pub app : op.app ≡ old.app
  pub candidate : op.candidate ≡ e.candidate
  pub deadline : op.deadline ≡ e.now + operation_minutes

pub succeed-phase :
    (e : Entry) (old op : Operation) → succeed e old ≡ ok op → op.phase ≡ effective e old
unfolding succeed fresh
succeed-phase e old op h = ground arith

pub succeed-Continues :
    (e : Entry) (old op : Operation)
    → succeed e old ≡ ok op
    → same (effective e old) admitted ≡ false
    → Continues e old op
unfolding succeed fresh
succeed-Continues e old op h n = ground (
  arith,
  text_eq_sound old.app e.app,
  text_eq_sound old.candidate e.candidate,
  text_eq_sound e.previous old.previous,
)

succeed-admits :
    (e : Entry) (old op : Operation)
    → succeed e old ≡ ok op
    → same (effective e old) admitted ≡ true
    → (op.phase ≡ admitted)
      × (fenced old.phase ≡ false)
      × (op.app ≡ old.app)
      × (op.candidate ≡ e.candidate)
unfolding succeed fresh
succeed-admits e old op h n =
    ground (arith, text_eq_sound old.app e.app, same_sound (effective e old) admitted)

-- A plan passes the checks of the entry, then those of the old record, then draws an identity.
pub plan-parts :
    (m : Machine) (e : Entry) (j : Journal) (op : Operation)
    → plan m e j ≡ ok op
    → (base : Operation) × (against e j ≡ ok base)
      × (admit m e base ≡ ok op)
      × (valid_entry e ≡ true)
      × (in_contract e.phase ≡ true)
unfolding plan
plan-parts m e j op h =
    let a = ensure-eq-ok _ _ _ h in
    let b = ensure-eq-ok _ _ _ a.1 in
    let (base, p, q) = >>=-eq-ok (against e j) (admit m e) b.1 in (base, p, q, a.0, b.0)

pub admit-other :
    (m : Machine) (e : Entry) (base op : Operation)
    → admit m e base ≡ ok op
    → same base.phase admitted ≡ false
    → op ≡ base
unfolding admit
admit-other m e base op h n = ground arith

-- What an admission adds to the operation that passed the checks.
pub admit-fresh :
    (m : Machine) (e : Entry) (base op : Operation)
    → admit m e base ≡ ok op
    → same base.phase admitted ≡ true
    → (bytes : List ℕ) × (m.entropy ≡ ok bytes)
      × (op ≡ record base {
        id = hex bytes;
        started_at = e.now;
        deadline = e.now + operation_minutes;
      })
unfolding admit identity
admit-fresh m e base op h n = ground arith

module _ (m : Machine) (e : Entry) (old op : Operation) (h : plan m e (holds old) ≡ ok op) where
  pub plan-Continues : same (effective e old) admitted ≡ false → Continues e old op
  unfolding against
  plan-Continues n =
      let (base, p, q, _, _) = plan-parts m e (holds old) op h in
      let unmoved = ap (λ (x : Phase). same x admitted) (succeed-phase e old base p) ∙ n in
      rw (admit-other m e base op q unmoved) (succeed-Continues e old base p n)

  -- The phase that is written, outside an admission.
  pub plan-phase : same (effective e old) admitted ≡ false → op.phase ≡ effective e old
  unfolding against
  plan-phase n =
      let (base, p, q, _, _) = plan-parts m e (holds old) op h in
      let unmoved = ap (λ (x : Phase). same x admitted) (succeed-phase e old base p) ∙ n in
      rw (admit-other m e base op q unmoved) (succeed-phase e old base p)

  plan-Admits : same (effective e old) admitted ≡ true → Admits e old op
  unfolding against
  plan-Admits y =
      let (base, p, q, _, _) = plan-parts m e (holds old) op h in
      let (phase, unfenced, app, candidate) = succeed-admits e old base p y in
      let moved = ap (λ (x : Phase). same x admitted) (succeed-phase e old base p) ∙ y in
      let (bytes, _, filled) = admit-fresh m e base op q moved in ground arith

  -- The plan for a file that holds an operation goes on with it, or admits another.
  pub plan-holds : Continues e old op ⊎ Admits e old op
  plan-holds = elim (Bool-cases (same (effective e old) admitted)) [
    | inl y ↦ inr (plan-Admits y)
    | inr n ↦ inl (plan-Continues n)
  ]

-- A write that reports success has put the whole operation in the file.
pub write-ok :
    (w : Write) (op : Operation) (j k : Journal)
    → write_private_json w op j ≡ (ok tt, k)
    → k ≡ holds op
unfolding write_private_json
write-ok (refused f) op j k h = ground arith
write-ok (unsynced f) op j k h = ground arith
write-ok written op j k h = ground arith

-- A write leaves the old file or the whole new one, never a part.
pub write_atomic :
    (w : Write) (op : Operation) (j : Journal)
    → ((write_private_json w op j).1 ≡ j) ⊎ ((write_private_json w op j).1 ≡ holds op)
unfolding write_private_json
write_atomic (refused f) op j = inl refl
write_atomic (unsynced f) op j = inr refl
write_atomic written op j = inr refl

-- After any call of `record`, failed or not, the file is as it was, or holds the planned operation.
pub record_phase-atomic :
    (m : Machine) (e : Entry) (j : Journal)
    → ((record_phase m e j).1 ≡ j)
      ⊎ ((op : Operation) × (plan m e j ≡ ok op) × ((record_phase m e j).1 ≡ holds op))
unfolding record_phase
record_phase-atomic m e j = go (plan m e j) refl
  where
    go :
        (r : Result Operation)
        → plan m e j ≡ r
        → ((write_plan m j r).1 ≡ j)
          ⊎ ((op : Operation) × (plan m e j ≡ ok op) × ((write_plan m j r).1 ≡ holds op))
    go (err f) p = inl refl
    go (ok op) p = elim (write_atomic m.disk op j) [ inl s ↦ inl s | inr s ↦ inr (op, p, s) ]

-- A call that succeeds has planned an operation and put it in the file.
pub record_phase-ok :
    (m : Machine) (e : Entry) (j k : Journal)
    → record_phase m e j ≡ (ok tt, k)
    → (op : Operation) × (plan m e j ≡ ok op) × (k ≡ holds op)
unfolding record_phase
record_phase-ok m e j k h = go (plan m e j) refl h
  where
    go :
        (r : Result Operation)
        → plan m e j ≡ r
        → write_plan m j r ≡ (ok tt, k)
        → (op : Operation) × (plan m e j ≡ ok op) × (k ≡ holds op)
    go (err f) p s = ground arith
    go (ok op) p s = (op, p, write-ok m.disk op j k s)

-- A successful `record` over an operation goes on with that deployment, or admits another one over
-- a phase that holds no fence.
pub record_advances :
    (m : Machine) (e : Entry) (old : Operation) (k : Journal)
    → record_phase m e (holds old) ≡ (ok tt, k)
    → (op : Operation) × (k ≡ holds op) × (Continues e old op ⊎ Admits e old op)
record_advances m e old k h =
    let (op, p, q) = record_phase-ok m e (holds old) k h in (op, q, plan-holds m e old op p)
