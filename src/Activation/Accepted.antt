-- ===== src/Activation/Accepted.antt =====
-- A successful activation and the operation file: the report is what the file holds.
use komizo.Prelude.{
  ◌≡◌, ◌≢◌, refl, sym, ap, ◌∙◌, inl, inr, Bool, true, false, ◌&&◌, arith, if◌then◌else◌,
  text_eq_sound,
}
use mathlib.Core.Path.{subst}
use komizo.Prelude.Result.{Result, ok}
use komizo.Prelude.Exec.{Exec, pure, >>-eq-ok}
use komizo.Operation.Phase.{Phase, admitted, failed, same_sound}
use komizo.Operation.Record.{
  Operation, Journal, absent, unreadable, malformed, holds, Machine, Entry, Time, record_phase,
  effective,
}
use komizo.Operation.Advance.{plan-Continues, plan-phase, record_phase-ok}
use komizo.Activation.Request.{ActivationRequest}
use komizo.Activation.Runtime.{ActivationResult, reached}
use komizo.Activation.Activate.{activate}
use komizo.Activation.Success.{Ending, activate_ok}
use komizo.Activation.Host.{
  HostEffects, HostState, outside, operation, owned_operation, owns, entry, record_now, retire,
  accepts, host_phase, host_runtime,
}
use komizo.Activation.Journal.{not_admission}

-- The file holds the operation of the request, in the given phase.
pub record Accepted (r : ActivationRequest) (p : Phase) (j : Journal) : Type 0 where
  pub op : Operation
  pub held : j ≡ holds op
  pub phase : op.phase ≡ p
  pub id : op.id ≡ r.id
  pub candidate : op.candidate ≡ r.candidate
  pub previous : op.previous ≡ r.previous
  pub deadline : op.deadline ≡ r.deadline

owned_operation-eq-ok :
    (r : ActivationRequest) (j : Journal) (op : Operation)
    → owned_operation r j ≡ ok op
    → (j ≡ holds op) × (owns r op ≡ true)
unfolding owned_operation
owned_operation-eq-ok r absent op h = cc
owned_operation-eq-ok r (unreadable f) op h = cc
owned_operation-eq-ok r malformed op h = cc
owned_operation-eq-ok r (holds old) op h = ground arith

owns-parts :
    (r : ActivationRequest) (op : Operation)
    → owns r op ≡ true
    → (op.id ≡ r.id)
      × (op.candidate ≡ r.candidate)
      × (op.previous ≡ r.previous)
      × (op.deadline ≡ r.deadline)
unfolding owns
owns-parts r op h = ground (
  arith,
  text_eq_sound op.id r.id,
  text_eq_sound op.candidate r.candidate,
  text_eq_sound op.previous r.previous,
)

unfailed : (e : Entry) (old : Operation) → e.phase ≢ failed → effective e old ≡ e.phase
unfolding effective
unfailed e old n = ground (arith, same_sound e.phase failed)

-- A phase that is recorded over an owned operation.
record_phase-Accepted :
    (m : Machine) (r : ActivationRequest) (p : Phase) (now : Time) (old : Operation) (k : Journal)
    → p ≢ admitted
    → p ≢ failed
    → owns r old ≡ true
    → record_phase m (entry r p now) (holds old) ≡ (ok tt, k)
    → Accepted r p k
unfolding entry
record_phase-Accepted m r p now old k na nf o h =
    let (op, planned, held) = record_phase-ok m (entry r p now) (holds old) k h in
    let quiet = not_admission (entry r p now) old na in
    let c = plan-Continues m (entry r p now) old op planned quiet in
    let moved = plan-phase m (entry r p now) old op planned quiet in
    let still = unfailed (entry r p now) old nf in
    let (id, candidate, previous, deadline) = owns-parts r old o in
    record {
      op = op;
      held = held;
      phase = moved ∙ still;
      id = c.id ∙ id;
      candidate = c.candidate ∙ candidate;
      previous = c.previous ∙ previous;
      deadline = c.deadline ∙ deadline;
    }

Ending-live : (b : Bool) (p : Phase) → Ending b p → (p ≢ admitted) × (p ≢ failed)
Ending-live b p (inl (_, e)) = (λ a. cc, λ a. cc)
Ending-live b p (inr (_, inl e)) = (λ a. cc, λ a. cc)
Ending-live b p (inr (_, inr e)) = (λ a. cc, λ a. cc)

module _ {W : Type 0} (e : HostEffects W) where
  accept-journal :
      (b : Bool) (m : Exec W (Unit {0})) (st : HostState W)
      → ((if b then outside e m else pure tt) st).1.journal ≡ st.journal
  unfolding outside pure
  accept-journal true m st = refl
  accept-journal false m st = refl

  retire-journal :
      (b : Bool) (r : ActivationRequest) (p : Phase) (st : HostState W)
      → (retire e b r p st).1.journal ≡ st.journal
  unfolding retire
  retire-journal true r p st = refl
  retire-journal false r p st = refl

  record_now-Accepted :
      (r : ActivationRequest) (p : Phase) (old : Operation) (st : HostState W)
      → p ≢ admitted
      → p ≢ failed
      → owns r old ≡ true
      → st.journal ≡ holds old
      → (record_now e r p st).0 ≡ ok tt
      → Accepted r p (record_now e r p st).1.journal
  unfolding record_now
  record_now-Accepted r p old st na nf o held h =
      let now = (e.clock st.world).0 in
      let m = (e.machine (e.clock st.world).1).0 in
      let j = (record_phase m (entry r p now) (holds old)).1 in
      rw held (
        record_phase-Accepted m r p now old j na nf o (
          ap (λ (k : Journal). record_phase m (entry r p now) k) (sym held)
          ∙ (λ i. (h i, (record_phase m (entry r p now) st.journal).1))
          ∙ ap (λ (k : Journal). (ok tt, (record_phase m (entry r p now) k).1)) held))

  host_phase-Accepted :
      (r : ActivationRequest) (p : Phase) (st st' : HostState W)
      → p ≢ admitted
      → p ≢ failed
      → host_phase e r p st ≡ (ok tt, st')
      → Accepted r p st'.journal
  unfolding host_phase operation
  host_phase-Accepted r p st st' na nf h =
      let (old, found, h1) = >>-eq-ok (operation e r) _ st st' h in
      let (_, _, h2) = >>-eq-ok (if _ then outside e (e.accept_static r) else pure tt) _ _ st' h1 in
      let (_, written, h3) = >>-eq-ok (record_now e r p) _ _ st' h2 in
      let b = e.static_serving st.world && accepts p in
      let (held, owned) = owned_operation-eq-ok r st.journal old found in
      let kept = accept-journal b (e.accept_static r) st ∙ held in
      let recorded = record_now-Accepted r p old _ na nf owned kept written in
      let last =
        ap (λ (x : Result (Unit {0}) × HostState W). x.1.journal) (sym h3)
        ∙ retire-journal b r p _ in
      subst (Accepted r p) (sym last) recorded

  -- A successful activation leaves in the file the operation of its request, in the phase it reports.
  pub activate-Accepted :
      (r : ActivationRequest) (st st' : HostState W) (result : ActivationResult)
      → activate (host_runtime e) r st ≡ ((result, ok tt), st')
      → (p : Phase) × (result.phase ≡ reached p) × Accepted r p st'.journal
  activate-Accepted r st st' result h =
      let reports = activate_ok (host_runtime e) r st' st result h in
      let (na, nf) = Ending-live reports.stopped reports.phase reports.ending in
      (
        reports.phase,
        reports.reported,
        subst (Accepted r reports.phase) (ap (λ (x : HostState W). x.journal) reports.clock) (
            host_phase-Accepted r reports.phase reports.last.before reports.before_clock na nf
              reports.last.written),
      )
