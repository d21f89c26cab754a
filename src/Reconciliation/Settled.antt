-- ===== src/Reconciliation/Settled.antt =====
-- What the operation file holds when `reconcile` of src/host/workload/reconciliation.rs succeeds.
use komizo.Prelude.{
  inl, ℕ, ◌≡◌, refl, sym, ap, ◌∙◌, Bool, true, false, Option, List, [], arith, if◌then◌else◌, Text,
  text_eq,
}
use komizo.Prelude.Result.{ok}
use mathlib.Core.Path.{subst}
use komizo.Prelude.Exec.{Exec, pure, ◌>>=◌, ◌>>◌, >>=-eq-ok, >>-eq-ok}
use komizo.Operation.Phase.{reconciled, admitted, same}
use komizo.Operation.Record.{
  Operation, Journal, holds, absent, unreadable, malformed, Entry, Machine, effective, plan,
  against, record_phase,
}
use komizo.Operation.Advance.{plan-phase, record_phase-ok}
use komizo.Operation.History.{SameDeployment, SameDeployment-refl}
use komizo.Activation.Host.{HostState}
use komizo.Reconciliation.Request.{
  Request, Authority, Snapshot, Reconciled, ReconcileEffects, abandon_initial,
}
use komizo.Reconciliation.Reconcile.{
  record_reconciled, reconcile_initial, conclude, reconcile_serving, reconcile,
}
use komizo.Reconciliation.Closing.{Closing, reconcile-Closing}

-- After the method succeeds, the state satisfies the predicate.
abbrev Ensures : {S A : Type 0} → (S → Type 0) → Exec S A → Type 0
Ensures {S} {A} Q m = (s s' : S) (a : A) → m s ≡ (ok a, s') → Q s'

module _ {S A B : Type 0} (Q : S → Type 0) where
  Ensures-bind :
      (m : Exec S A) (f : A → Exec S B) → ((a : A) → Ensures Q (f a)) → Ensures Q (m >>= f)
  Ensures-bind m f k s s' b h = let (a, e, h') = >>=-eq-ok m f s s' h in k a (m s).1 s' b h'

  Ensures-then : (m : Exec S A) (n : Exec S B) → Ensures Q n → Ensures Q (m >> n)
  Ensures-then m n k s s' b h = let (a, e, h') = >>-eq-ok m n s s' h in k (m s).1 s' b h'

pure_state : {S B : Type 0} (b c : B) (s s' : S) → pure b s ≡ (ok c, s') → s ≡ s'
unfolding pure
pure_state b c s s' h = ap (λ o. o.1) h

module _ {S A B : Type 0} (Q : S → Type 0) where
  Ensures-last : (m : Exec S A) (b : B) → Ensures Q m → Ensures Q (m >> pure b)
  Ensures-last m b k s s' c h =
      let (a, e, h') = >>-eq-ok m (pure b) s s' h in
      subst Q (pure_state b c (m s).1 s' h') (k s (m s).1 a (λ i. (e i, (m s).1)))

module _ {S A : Type 0} (Q : S → Type 0) where
  Ensures-if :
      (b : Bool) (m n : Exec S A) → Ensures Q m → Ensures Q n → Ensures Q (if b then m else n)
  Ensures-if true m n k l = k
  Ensures-if false m n k l = l

-- The file holds an operation that is reconciled.
abbrev pub IsSettled : Journal → Type 0
IsSettled j = (op : Operation) × (j ≡ holds op) × (op.phase ≡ reconciled)

plan-held :
    (m : Machine) (e : Entry) (j : Journal) (op : Operation)
    → e.phase ≡ reconciled
    → plan m e j ≡ ok op
    → (old : Operation) × (j ≡ holds old)
unfolding plan against same
plan-held m e (holds old) op p h = (old, refl)
plan-held m e (unreadable f) op p h = absurd (ground arith)
plan-held m e malformed op p h = absurd (ground arith)
plan-held m e absent op p h = absurd (ground (arith, ap (λ q. same q admitted) p))

effective_reconciled :
    (e : Entry) (old : Operation) → e.phase ≡ reconciled → effective e old ≡ reconciled
unfolding effective same
effective_reconciled e old p = rw p refl

record_phase-IsSettled :
    (m : Machine) (e : Entry) (j k : Journal)
    → e.phase ≡ reconciled
    → record_phase m e j ≡ (ok tt, k)
    → IsSettled k
unfolding same
record_phase-IsSettled m e j k p h =
    let (op, planned, written) = record_phase-ok m e j k h in
    let (old, held) = plan-held m e j op p planned in
    let planned' = ap (plan m e) (sym held) ∙ planned in
    (
      op,
      written,
      plan-phase m e old op planned' (ap (λ q. same q admitted) (effective_reconciled e old p))
          ∙ effective_reconciled e old p,
    )

-- The predicate on the host's state.
abbrev Settled : {W : Type 0} → HostState W → Type 0
Settled st = IsSettled st.journal

module _ {W : Type 0} (x : ReconcileEffects W) where
  record_reconciled-Settled :
      (app candidate previous : Text) → Ensures Settled (record_reconciled x app candidate previous)
  unfolding record_reconciled
  record_reconciled-Settled app candidate previous s s' a h =
      record_phase-IsSettled _ _ s.journal s'.journal refl (λ i. ((h i).0, (h i).1.journal))

  reconcile_initial-Settled :
      (r : Request) (op : Operation) → Ensures Settled (reconcile_initial x r op)
  unfolding reconcile_initial
  reconcile_initial-Settled r op = Ensures-then Settled _ _ (
      Ensures-then Settled _ _ (
        Ensures-bind Settled _ _ λ result.
          Ensures-then Settled _ _
            (Ensures-last Settled _ result (record_reconciled-Settled op.app op.candidate []))))

  conclude-Settled :
      (r : Request) (p : Authority) (op : Operation) (state : Text) (compose : List ℕ)
      (snapshot : Option Snapshot)
      → Ensures Settled (conclude x r p op state compose snapshot)
  unfolding conclude
  conclude-Settled r p op state compose snapshot = Ensures-then Settled _ _ (
      Ensures-then Settled _ _ (
        Ensures-then Settled _ _ (
          Ensures-then Settled _ _ (
            Ensures-then Settled _ _ (
              Ensures-then Settled _ _ (
                Ensures-bind Settled _ _ λ result. Ensures-then Settled _ _ (
                  Ensures-last Settled _ result
                    (record_reconciled-Settled p.app op.candidate op.previous))))))))

  reconcile_serving-Settled :
      (r : Request) (p : Authority) (op : Operation) → Ensures Settled (reconcile_serving x r p op)
  unfolding reconcile_serving
  reconcile_serving-Settled r p op = Ensures-bind Settled _ _ λ compose.
      Ensures-bind Settled _ _ λ found. Ensures-bind Settled _ _ λ retained.
        Ensures-then Settled _ _ (
          Ensures-then Settled _ _ (
            Ensures-bind Settled _ _ λ state. Ensures-bind Settled _ _ λ stopped.
              Ensures-then Settled _ _
                (Ensures-then Settled _ _ (conclude-Settled r p op state found.0 found.1))))

  reconcile-Settled : (app : Text) (r : Request) → Ensures Settled (reconcile x app r)
  unfolding reconcile
  reconcile-Settled app r = Ensures-then Settled _ _ (
      Ensures-then Settled _ _ (
        Ensures-then Settled _ _ (
          Ensures-bind Settled _ _ λ read. Ensures-then Settled _ _ (
            Ensures-bind Settled _ _ λ p. Ensures-then Settled _ _ (
              Ensures-then Settled _ _ (
                Ensures-bind Settled _ _ λ op.
                  Ensures-if Settled (text_eq r.outcome abandon_initial) _ _
                    (reconcile_initial-Settled r op) (reconcile_serving-Settled r p op)))))))

  -- A reconciliation that succeeds over the record of a deployment leaves that deployment's record,
  -- with its identity, revisions and deadline, in the phase `reconciled`.
  pub reconcile_ok :
      (app : Text) (r : Request) (old : Operation) (st st' : HostState W) (result : Reconciled)
      → st.journal ≡ holds old
      → reconcile x app r st ≡ (ok result, st')
      → (op : Operation) × (st'.journal ≡ holds op)
        × SameDeployment old op
        × (op.phase ≡ reconciled)
  reconcile_ok app r old st st' result held h =
      let (op, written, phase) = reconcile-Settled app r st st' result h in
      let start : Closing old st.journal =
        subst (Closing old) (sym held) (SameDeployment-refl old, inl refl) in
      let end : Closing old st'.journal =
        subst (λ s. Closing old s.journal) (ap (λ o. o.1) h)
          (reconcile-Closing x old app r st start) in
      (op, written, (subst (Closing old) written end).0, phase)
