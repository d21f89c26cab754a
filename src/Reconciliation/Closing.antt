-- ===== src/Reconciliation/Closing.antt =====
-- What a reconciliation does to the operation file: for `reconcile` of
-- src/host/workload/reconciliation.rs.
use komizo.Prelude.{
  ◌≡◌, refl, sym, ap, ◌∙◌, ◌⊎◌, inl, inr, true, false, arith, ℕ, Bool, Option, none, List, [], ◌∷◌,
  Text, text_eq,
}
use komizo.Prelude.Result.{Fault, Result, ok, err}
use komizo.Prelude.Exec.{Exec, raise}
use komizo.Prelude.Exec.Preserves.{
  Preserves, Preserves-pure, Preserves-lift, Preserves-if, Preserves-bind, Preserves-then,
}
use komizo.Operation.Phase.{Phase, admitted, reconciled, same, legal}
use komizo.Operation.Record.{
  Operation, Journal, absent, unreadable, malformed, holds, Machine, Entry, record_phase, effective,
}
use komizo.Operation.Advance.{plan-Continues, plan-phase, record_phase-atomic}
use komizo.Operation.History.{SameDeployment, SameDeployment-trans}
use komizo.Activation.Host.{HostState, outside}
use komizo.Activation.Request.{ActivationRequest}
use komizo.Reconciliation.Request.{
  Request, Authority, StagedFile, Snapshot, ReconcileEffects, early_refusal, restore_serving,
  accept_candidate,
}
use komizo.Reconciliation.Reconcile.{
  aside, read_reviewed, now, record_reconciled, result_of, reconcile_initial, from_snapshot,
  restoration, restore_snapshot, check_state, conclude, reconcile_serving, reconcile, activation_of,
  files_of,
}

-- The phase that a reconciliation may leave: the one before it, or `reconciled` where that is legal.
abbrev IsClosing : Phase → Phase → Type 0
IsClosing before after =
    (after ≡ before) ⊎ ((after ≡ reconciled) × (legal before reconciled ≡ true))

-- The file holds the given deployment, in its phase or settled from it.
abbrev pub Closing : Operation → Journal → Type 0
Closing old (holds op) = SameDeployment old op × IsClosing old.phase op.phase
Closing old _ = ⊥

IsClosing-next :
    (first middle next : Phase)
    → IsClosing first middle
    → next ≡ reconciled
    → legal middle next ≡ true
    → IsClosing first next
IsClosing-next first middle next (inl kept) last moved =
    inr (last, sym (ap (λ p. legal p reconciled) kept) ∙ ap (legal middle) (sym last) ∙ moved)
IsClosing-next first middle next (inr settled) last moved = inr (last, settled.1)

effective-reconciled :
    (e : Entry) (old : Operation) → e.phase ≡ reconciled → effective e old ≡ reconciled
unfolding effective same
effective-reconciled e old h = ground (arith, h)

not_admission : {p : Phase} → p ≡ reconciled → same p admitted ≡ false
unfolding same
not_admission e = ap (λ (x : Phase). same x admitted) e

record_phase-Closing :
    (m : Machine) (e : Entry) (old : Operation) (j : Journal)
    → e.phase ≡ reconciled
    → Closing old j
    → Closing old (record_phase m e j).1
record_phase-Closing m e old absent n h = elim h [ ]
record_phase-Closing m e old (unreadable f) n h = elim h [ ]
record_phase-Closing m e old malformed n h = elim h [ ]
record_phase-Closing m e old (holds current) n h = elim (record_phase-atomic m e (holds current)) [
  | inl kept ↦ rw kept h
  | inr (op, p, q) ↦
      (let phase : effective e current ≡ reconciled = effective-reconciled e current n in
        let other = not_admission phase in
        let c = plan-Continues m e current op p other in
        rw q (
          SameDeployment-trans old current op h.0 (ground arith),
          IsClosing-next old.phase current.phase op.phase h.1
              (plan-phase m e current op p other ∙ phase) c.moved,
        ))
]

module _ {W : Type 0} (x : ReconcileEffects W) (old : Operation) where
  unfoldable Kept : HostState W → Type 0
  Kept st = Closing old st.journal

  aside-Kept : {A : Type 0} (m : Exec W A) → Preserves Kept (aside x m)
  unfolding aside outside Kept
  aside-Kept m = record { at = λ st h. h }

  raise-Kept : {A : Type 0} (f : Fault) → Preserves {A = A} Kept (raise f)
  unfolding raise
  raise-Kept f = record { at = λ st h. h }

  read_reviewed-Kept : (r : Request) (p : Authority) → Preserves Kept (read_reviewed x r p)
  unfolding read_reviewed Kept
  read_reviewed-Kept r p = record { at = λ st h. h }

  record_reconciled-Kept :
      (app candidate previous : Text) → Preserves Kept (record_reconciled x app candidate previous)
  unfolding record_reconciled Kept
  record_reconciled-Kept app candidate previous = record {
    at = λ st h. record_phase-Closing _ _ old st.journal refl h;
  }

  now-Kept : Preserves Kept (now x)
  unfolding now Kept
  now-Kept = record { at = λ st h. h }

  result_of-Kept :
      (r : Request) (op : Operation) (serving : Text) (restored : Option Bool)
      → Preserves Kept (result_of x r op serving restored)
  unfolding result_of
  result_of-Kept r op serving restored = Preserves-bind _ _ now-Kept (λ t. Preserves-pure _)

  reconcile_initial-Kept :
      (r : Request) (op : Operation) → Preserves Kept (reconcile_initial x r op)
  unfolding reconcile_initial
  reconcile_initial-Kept r op = Preserves-then _ _ (Preserves-lift _) (
      Preserves-then _ _ (aside-Kept _) (
        Preserves-bind _ _ (result_of-Kept r op [] none) λ result.
          Preserves-then _ _ (aside-Kept _)
            (Preserves-then _ _ (record_reconciled-Kept _ _ _) (Preserves-pure _))))

  from_snapshot-Kept :
      (r : Request) (p : Authority) (op : Operation) (compose : List ℕ) (found : Result Snapshot)
      → Preserves Kept (from_snapshot x r p op compose found)
  unfolding from_snapshot
  from_snapshot-Kept r p op compose (ok snapshot) =
      Preserves-bind _ _ (Preserves-lift _) λ compose'. Preserves-pure _
  from_snapshot-Kept r p op compose (err e) =
      Preserves-if (early_refusal e p op.phase) _ _
        (Preserves-bind _ _ (aside-Kept _)
          λ environment. Preserves-then _ _ (Preserves-lift _) (Preserves-pure _))
        (raise-Kept e)

  restoration-Kept :
      (r : Request) (p : Authority) (op : Operation) (compose : List ℕ)
      → Preserves Kept (restoration x r p op compose)
  unfolding restoration
  restoration-Kept r p op compose =
      Preserves-then _ _ (Preserves-lift _)
        (Preserves-bind _ _ (aside-Kept _) λ found. from_snapshot-Kept r p op compose found)

  restore_snapshot-Kept : (files : List StagedFile) → Preserves Kept (restore_snapshot x files)
  unfolding restore_snapshot
  restore_snapshot-Kept [] = Preserves-pure tt
  restore_snapshot-Kept (file ∷ files) =
      Preserves-then _ _ (Preserves-if file.exists _ _ (aside-Kept _) (aside-Kept _))
        (restore_snapshot-Kept files)

  check_state-Kept :
      (activation : ActivationRequest) (state : Text)
      → Preserves Kept (check_state x activation state)
  unfolding check_state
  check_state-Kept activation state = Preserves-bind _ _ (aside-Kept _) λ current.
      Preserves-if _ _ _ (Preserves-pure tt)
        (Preserves-bind _ _ (aside-Kept _) λ ignored. raise-Kept _)

  conclude-Kept :
      (r : Request) (p : Authority) (op : Operation) (state : Text) (compose : List ℕ)
      (snapshot : Option Snapshot)
      → Preserves Kept (conclude x r p op state compose snapshot)
  unfolding conclude
  conclude-Kept r p op state compose snapshot =
      Preserves-then _ _ (restore_snapshot-Kept (files_of snapshot)) (
        Preserves-then _ _ (aside-Kept _) (
          Preserves-then _ _ (check_state-Kept (activation_of r p op) state) (
            Preserves-then _ _ (aside-Kept _) (
              Preserves-then _ _ (check_state-Kept (activation_of r p op) state) (
                Preserves-then _ _
                  (Preserves-if (text_eq r.outcome accept_candidate) _ _
                    (aside-Kept (x.retain_workload (activation_of r p op))) (Preserves-pure tt))
                  (Preserves-bind _ _ (result_of-Kept r op r.serving _) λ result.
                    Preserves-then _ _ (aside-Kept _)
                      (Preserves-then _ _ (record_reconciled-Kept _ _ _) (Preserves-pure _))))))))

  reconcile_serving-Kept :
      (r : Request) (p : Authority) (op : Operation) → Preserves Kept (reconcile_serving x r p op)
  unfolding reconcile_serving
  reconcile_serving-Kept r p op = Preserves-bind _ _ (aside-Kept _) λ compose.
      Preserves-bind _ _
        (Preserves-if (text_eq r.outcome restore_serving) _ _ (restoration-Kept r p op compose)
          (Preserves-then _ _ (Preserves-lift _) (Preserves-pure _)))
        λ found. Preserves-bind _ _ (aside-Kept _) λ retained.
          Preserves-then _ _ (Preserves-lift _) (
            Preserves-then _ _ (aside-Kept _) (
              Preserves-bind _ _ (aside-Kept _) λ state.
                Preserves-bind _ _ (aside-Kept _) λ stopped.
                  Preserves-then _ _ (Preserves-lift _) (
                    Preserves-then _ _ (aside-Kept _)
                      (conclude-Kept r p op state found.0 found.1))))

  reconcile-Kept : (app : Text) (r : Request) → Preserves Kept (reconcile x app r)
  unfolding reconcile
  reconcile-Kept app r = Preserves-then _ _ (Preserves-lift _) (
      Preserves-then _ _ (aside-Kept _) (
        Preserves-then _ _ (aside-Kept _) (
          Preserves-bind _ _ (aside-Kept _) λ read. Preserves-then _ _ (Preserves-lift _) (
            Preserves-bind _ _ (Preserves-lift read.1) λ p. Preserves-then _ _ (Preserves-lift _) (
              Preserves-then _ _ (Preserves-lift _) (
                Preserves-bind _ _ (read_reviewed-Kept r p) λ op.
                  Preserves-if _ _ _ (reconcile_initial-Kept r op)
                    (reconcile_serving-Kept r p op)))))))

  -- Whatever Docker, the proxy and the disk do, and wherever it fails, a reconciliation leaves in the
  -- operation file the deployment that was there, with its identity, revisions and deadline, in the
  -- phase it had, or in phase `reconciled` where that is a legal change from it.
  pub reconcile-Closing :
      (app : Text) (r : Request) (st : HostState W)
      → Closing old st.journal
      → Closing old (reconcile x app r st).1.journal
  reconcile-Closing app r st h = unfold Kept in (reconcile-Kept app r).at st h
