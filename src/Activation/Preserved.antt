-- ===== src/Activation/Preserved.antt =====
-- What every method of the runtime preserves, an activation preserves.
use komizo.Prelude.{◌≢◌, refl, Bool, true, false, not, ◌||◌, if◌then◌else◌, Bool-cases, inl, inr}
use komizo.Prelude.Int.{pos, eq_ℤ}
use komizo.Prelude.Result.{Fault, Result, ok, err}
use komizo.Prelude.Exec.{Exec, pure, continue, ◌>>=◌}
use komizo.Prelude.Exec.Preserves.{
  Preserves, Preserves-pure, Preserves-if, Preserves-bind, Preserves-then,
}
use komizo.Operation.Phase.{
  Phase, admitted, configured, activating, activated, ready, prepared_stopped,
}
use komizo.Operation.Record.{Time}
use komizo.Activation.Request.{ActivationRequest}
use komizo.Activation.Runtime.{Runtime, up, stop, failure, is_staged}
use komizo.Activation.Activate.{
  Run, effect, set_phase, readiness, start_up, close, finish, settle, action, fail, conclude,
  perform, checked, activate,
}

-- The methods of `rt` for the request preserve `P`, all but `compose` with the verb `up`; a phase is
-- recorded, and never an admission.
pub record Methods {S : Type 0} (P : S → Type 0) (rt : Runtime S) (r : ActivationRequest)
    : Type 0 where
  pub clock : (s : S) → P s → P (rt.clock s).1
  pub verify : Preserves P (rt.verify r)
  pub stopped : Preserves P (rt.stopped r)
  pub stop : Preserves P (rt.compose r stop)
  pub reload_proxy : Preserves P (rt.reload_proxy r)
  pub retain : Preserves P (rt.retain r)
  pub ready : Preserves P (rt.ready r)
  pub phase : (p : Phase) → p ≢ admitted → Preserves P (rt.phase r p)
  pub abort_static : (s : S) → P s → P (rt.abort_static r s).1

-- The predicate on the state of the action.
unfoldable pub Inside : {S : Type 0} → (S → Type 0) → Run S → Type 0
Inside P st = P st.world

module _ {S : Type 0} (P : S → Type 0) where
  pub effect-Preserves :
      {A : Type 0} (m : Exec S A) → Preserves P m → Preserves (Inside P) (effect m)
  unfolding effect Inside
  effect-Preserves m k = record { at = λ st h. k.at st.world h }

  pub set_phase-Preserves : (p : Phase) → Preserves (Inside P) (set_phase p)
  unfolding set_phase Inside
  set_phase-Preserves p = record { at = λ st h. h }

  pub readiness-Preserves : (m : Exec S (Unit {0})) → Preserves P m → Preserves P (readiness m)
  unfolding readiness
  readiness-Preserves m k = record { at = λ s h. k.at s h }

live_ne_admitted : (v : Bool) → (if v then ready else activated) ≢ admitted
live_ne_admitted true e = cc
live_ne_admitted false e = cc

module _ {S : Type 0} (P : S → Type 0) (rt : Runtime S) (r : ActivationRequest)
    (k : Methods P rt r) where
  records : (p : Phase) → p ≢ admitted → Preserves (Inside P) (effect (rt.phase r p))
  records p n = effect-Preserves P (rt.phase r p) (k.phase p n)

  looks : Preserves (Inside P) (effect (rt.stopped r))
  looks = effect-Preserves P (rt.stopped r) k.stopped

  halts : Preserves (Inside P) (effect (rt.compose r stop))
  halts = effect-Preserves P (rt.compose r stop) k.stop

  probes : Preserves (Inside P) (effect (readiness (rt.ready r)))
  probes = effect-Preserves P (readiness (rt.ready r)) (readiness-Preserves P (rt.ready r) k.ready)

  reloads : Preserves (Inside P) (effect (rt.reload_proxy r))
  reloads = effect-Preserves P (rt.reload_proxy r) k.reload_proxy

  retains : Preserves (Inside P) (effect (rt.retain r))
  retains = effect-Preserves P (rt.retain r) k.retain

  close-Preserves : (b : Bool) (p : Phase) → p ≢ admitted → Preserves (Inside P) (close rt r b p)
  unfolding close
  close-Preserves b p n =
      Preserves-then _ _ (set_phase-Preserves P p)
        (Preserves-then _ _ (records p n) (Preserves-pure b))

  finish-Preserves : Preserves (Inside P) (finish rt r)
  unfolding finish
  finish-Preserves = Preserves-then _ _ (set_phase-Preserves P activated) (
      Preserves-then _ _ (records activated (λ e. cc)) (
        Preserves-bind _ _ probes λ v. Preserves-bind _ _ looks λ b.
          Preserves-if b _ _
            (Preserves-then _ _ halts (close-Preserves true prepared_stopped (λ e. cc)))
            (close-Preserves false _ (live_ne_admitted v))))

  settle-Preserves : (b : Bool) → Preserves (Inside P) (settle rt r b)
  unfolding settle
  settle-Preserves b = Preserves-then _ _ reloads (
      Preserves-then _ _ retains
        (Preserves-if b _ _ (close-Preserves true prepared_stopped (λ e. cc)) finish-Preserves))

  start_up-Preserves : Preserves P (rt.compose r up) → Preserves (Inside P) (start_up rt r)
  unfolding start_up
  start_up-Preserves starts = Preserves-then _ _ (records activating (λ e. cc)) (
      Preserves-then _ _ (set_phase-Preserves P activating) (
        Preserves-then _ _ (effect-Preserves P (rt.compose r up) starts) (
          Preserves-bind _ _ looks λ b.
            Preserves-if b _ _ (Preserves-then _ _ halts (Preserves-pure true))
              (Preserves-pure false))))

  action-Preserves : Preserves P (rt.compose r up) → Preserves (Inside P) (action rt r)
  unfolding action
  action-Preserves starts = Preserves-bind _ _ looks λ b.
      Preserves-bind _ _ (Preserves-if b _ _ (Preserves-pure true) (start_up-Preserves starts))
        settle-Preserves

  -- Where the workload is found stopped, or cannot be looked at, nothing starts it.
  halted-settle :
      (st st' : Run S) (found : Result Bool)
      → found ≢ ok false
      → Inside P st'
      → Inside P
          (continue found
            (λ b. (if b then pure true else start_up rt r) >>= λ still. settle rt r still)
            st').1
  unfolding ◌>>=◌
  halted-settle st st' (ok true) n h = (settle-Preserves true).at st' h
  halted-settle st st' (ok false) n h = absurd (n refl)
  halted-settle st st' (err e) n h = h

  halted-action :
      ((s : S) → P s → (rt.stopped r s).0 ≢ ok false) → Preserves (Inside P) (action rt r)
  unfolding action
  halted-action halted = record {
    at = λ st h.
        unfold ◌>>=◌ effect Inside in
        halted-settle st _ (rt.stopped r st.world).0 (halted st.world h) (k.stopped.at st.world h);
  }

  failure-ne-admitted : (p : Phase) → failure p ≢ admitted
  unfolding failure
  failure-ne-admitted activating e = cc
  failure-ne-admitted _ e = cc

  fail-preserves : (p : Phase) (e : Fault) (s : S) → P s → P (fail rt r p e s).1
  unfolding fail
  fail-preserves p e s h = (k.phase (failure p) (failure-ne-admitted p)).at _ (k.abort_static s h)

  pub conclude-preserves : (out : Result Bool × Run S) → P (out.1).world → P (conclude rt r out).1
  unfolding conclude
  conclude-preserves (ok b, st) h = k.clock st.world h
  conclude-preserves (err e, st) h = fail-preserves st.phase e _ (k.clock st.world h)

module _ {S : Type 0} (P : S → Type 0) (rt : Runtime S) (r : ActivationRequest) (k : Methods P rt r)
    (act : Preserves (Inside P) (action rt r)) where
  perform-preserves :
      (at : Time) (out : Result (Unit {0}) × S) → P out.1 → P (perform rt r at out).1
  unfolding perform
  perform-preserves at (err e, s) h = h
  perform-preserves at (ok t, s) h =
      conclude-preserves P rt r k (action rt r _)
        (unfold Inside in act.at (record { world = s; phase = configured }) h)

  checked-preserves : (at : Time) (c : Result (Unit {0})) (s : S) → P s → P (checked rt r at c s).1
  checked-preserves at (err e) s h = h
  checked-preserves at (ok t) s h = perform-preserves at (rt.verify r s) (k.verify.at s h)

  activation-preserves : (s : S) → P s → P (activate rt r s).1
  unfolding activate
  activation-preserves s h = elim (Bool-cases (not (eq_ℤ r.version (pos 1)) || is_staged r)) [
    | inl e ↦ rw e (k.clock s h)
    | inr e ↦ rw e (checked-preserves _ _ _ (k.clock _ (k.clock s h)))
  ]

module _ {S : Type 0} (P : S → Type 0) (rt : Runtime S) (r : ActivationRequest)
    (k : Methods P rt r) where
  -- Whatever each method of the runtime preserves, the whole activation preserves, on every path.
  pub activate-preserves : Preserves P (rt.compose r up) → (s : S) → P s → P (activate rt r s).1
  activate-preserves starts = activation-preserves P rt r k (action-Preserves P rt r k starts)

  -- Let `P` be kept by every method but `compose` with `up`, and let it exclude that `stopped` answers
  -- `false`. Then an activation keeps `P`: it does not start a workload that its owner stopped.
  pub owner_stop_holds :
      ((s : S) → P s → (rt.stopped r s).0 ≢ ok false) → (s : S) → P s → P (activate rt r s).1
  owner_stop_holds halted = activation-preserves P rt r k (halted-action P rt r k halted)
