-- ===== src/Activation/Journal.antt =====
-- What an activation does to the operation file of the host.
use komizo.Prelude.{◌≡◌, ◌≢◌, inl, inr, Bool, true, false, arith}
use komizo.Prelude.Result.{reconciliation, err}
use komizo.Prelude.Exec.{Exec}
use komizo.Prelude.Exec.Preserves.{
  Preserves, Preserves-pure, Preserves-lift, Preserves-if, Preserves-bind, Preserves-then,
}
use komizo.Operation.Phase.{Phase, admitted, same, same_sound}
use komizo.Operation.Order.{Reaches, further}
use komizo.Operation.Record.{
  Operation, Journal, absent, unreadable, malformed, holds, Machine, Entry, record_phase, effective,
}
use komizo.Operation.Advance.{plan-Continues, record_phase-atomic}
use komizo.Operation.History.{SameDeployment, SameDeployment-trans}
use komizo.Activation.Request.{ActivationRequest}
use komizo.Activation.Runtime.{up, stop}
use komizo.Activation.Activate.{activate}
use komizo.Activation.Preserved.{Methods, activate-preserves}
use komizo.Activation.Host.{
  HostEffects, HostState, outside, operation, entry, record_now, retire, host_phase, host_verify,
  host_runtime,
}

-- The file holds the given deployment, in a phase that legal changes lead to from the one it had.
abbrev pub Onward : Operation → Journal → Type 0
Onward old (holds op) = SameDeployment old op × Reaches old.phase op.phase
Onward old _ = ⊥

pub not_admission :
    (e : Entry) (old : Operation) → e.phase ≢ admitted → same (effective e old) admitted ≡ false
unfolding effective
not_admission e old n = ground (arith, same_sound (effective e old) admitted)

pub record_phase-Onward :
    (m : Machine) (e : Entry) (old : Operation) (j : Journal)
    → e.phase ≢ admitted
    → Onward old j
    → Onward old (record_phase m e j).1
record_phase-Onward m e old absent n h = elim h [ ]
record_phase-Onward m e old (unreadable f) n h = elim h [ ]
record_phase-Onward m e old malformed n h = elim h [ ]
record_phase-Onward m e old (holds now) n h = elim (record_phase-atomic m e (holds now)) [
  | inl kept ↦ rw kept h
  | inr (op, p, q) ↦
      (let c = plan-Continues m e now op p (not_admission e now n) in
        rw q (SameDeployment-trans old now op h.0 (ground arith), further h.1 c.moved))
]

module _ {W : Type 0} (e : HostEffects W) (old : Operation) where
  -- The predicate on the host's state.
  unfoldable pub Kept : HostState W → Type 0
  Kept st = Onward old st.journal

  outside-Kept : {A : Type 0} (m : Exec W A) → Preserves Kept (outside e m)
  unfolding outside Kept
  outside-Kept m = record { at = λ st h. h }

  operation-Kept : (r : ActivationRequest) → Preserves Kept (operation e r)
  unfolding operation Kept
  operation-Kept r = record { at = λ st h. h }

  record_now-Kept :
      (r : ActivationRequest) (p : Phase) → p ≢ admitted → Preserves Kept (record_now e r p)
  unfolding record_now Kept
  record_now-Kept r p n = record {
    at = λ st h. record_phase-Onward _ (entry r p _) old st.journal n h;
  }

  retire-Kept : (b : Bool) (r : ActivationRequest) (p : Phase) → Preserves Kept (retire e b r p)
  unfolding retire Kept
  retire-Kept true r p = record { at = λ st h. h }
  retire-Kept false r p = record { at = λ st h. h }

  host_phase-Kept :
      (r : ActivationRequest) (p : Phase) → p ≢ admitted → Preserves Kept (host_phase e r p)
  unfolding host_phase
  host_phase-Kept r p n = record {
    at = λ st h.
        (Preserves-then _ _ (operation-Kept r) (
            Preserves-then _ _
              (Preserves-if _ _ _ (outside-Kept (e.accept_static r)) (Preserves-pure tt))
              (Preserves-then _ _ (record_now-Kept r p n) (retire-Kept _ r p)))).at
          st h;
  }

  host_verify-Kept : (r : ActivationRequest) → Preserves Kept (host_verify e r)
  unfolding host_verify
  host_verify-Kept r = Preserves-bind _ _ (operation-Kept r) λ op.
      Preserves-if _ _ _ (outside-Kept (e.verify_inputs r)) (Preserves-lift (err reconciliation))

  host-Methods : (r : ActivationRequest) → Methods Kept (host_runtime e) r
  host-Methods r = record {
    clock = λ st h. unfold Kept in h;
    verify = host_verify-Kept r;
    stopped = outside-Kept (e.stopped r);
    stop = outside-Kept (e.compose r stop);
    reload_proxy = outside-Kept (e.reload_proxy r);
    retain = outside-Kept (e.retain r);
    ready = outside-Kept (e.ready r);
    phase = host_phase-Kept r;
    abort_static = λ st h. unfold Kept in h;
  }

-- Whatever Docker, the proxy and the disk do, an activation leaves in the operation file the deployment
-- that was there, with its identity, revisions and deadline, in the phase it had or one that a sequence
-- of legal changes leads to from there.
pub activate-Onward :
    {W : Type 0} (e : HostEffects W) (r : ActivationRequest) (old : Operation) (st : HostState W)
    → Onward old st.journal
    → Onward old (activate (host_runtime e) r st).1.journal
activate-Onward e r old st h =
    unfold Kept in
    activate-preserves (Kept e old) (host_runtime e) r (host-Methods e old r)
      (outside-Kept e old (e.compose r up)) st h
