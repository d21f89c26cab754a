-- ===== src/Activation/Host.antt =====
-- `Host<E>` as an `ActivationRuntime` (src/host/workload/activation.rs): the methods read and write the
-- operation file, and the rest of the machine is the record `HostEffects`.
use komizo.Prelude.{Bool, true, false, ◌&&◌, Option, text_eq, ◌==◌, if◌then◌else◌}
use komizo.Prelude.Int.{pos, eq_ℤ}
use komizo.Prelude.Result.{message, not_found, reconciliation, Result, ok, err}
use komizo.Prelude.Exec.{Exec, pure, lift, ◌>>=◌, ◌>>◌}
use komizo.Operation.Phase.{Phase, configured, ready, prepared_stopped, same}
use komizo.Operation.Record.{
  Operation, Journal, absent, unreadable, malformed, holds, Machine, Entry, Time, record_phase,
}
use komizo.Activation.Request.{ActivationRequest}
use komizo.Activation.Runtime.{Runtime, Verb}

-- What the methods do besides the operation file: Docker, the proxy, the installed files, the clock and
-- the random source. `static_serving` is `policy.static.is_some()`.
pub record HostEffects (W : Type 0) : Type 0 where
  pub clock : W → Time × W
  pub machine : W → Machine × W
  pub static_serving : W → Bool
  pub verify_inputs : ActivationRequest → Exec W (Unit {0})
  pub stopped : ActivationRequest → Exec W Bool
  pub compose : ActivationRequest → Verb → Exec W (Unit {0})
  pub reload_proxy : ActivationRequest → Exec W (Unit {0})
  pub retain : ActivationRequest → Exec W (Unit {0})
  pub ready : ActivationRequest → Exec W (Unit {0})
  pub accept_static : ActivationRequest → Exec W (Unit {0})
  pub retire_static : ActivationRequest → Phase → W → W
  pub abort_static : ActivationRequest → W → Option (Result (Unit {0})) × W

pub record HostState (W : Type 0) : Type 0 where
  pub journal : Journal
  pub world : W

-- The test of `Host::operation`.
unfoldable pub owns : ActivationRequest → Operation → Bool
owns r op =
    eq_ℤ op.version (pos 1)
    && text_eq op.id r.id
    && text_eq op.candidate r.candidate
    && text_eq op.previous r.previous
    && op.deadline == r.deadline

-- `Host::operation`
unfoldable pub owned_operation : ActivationRequest → Journal → Result Operation
unfolding owns
owned_operation r absent = err not_found
owned_operation r (unreadable f) = err f
owned_operation r malformed = err (message "invalid host record")
owned_operation r (holds op) =
    if owns r op then ok op else err (message "activation no longer owns the durable operation")

unfoldable pub entry : ActivationRequest → Phase → Time → Entry
entry r p now = record {
  app = r.app;
  candidate = r.candidate;
  previous = r.previous;
  phase = p;
  now = now;
}

-- The phases whose record accepts a static candidate.
unfoldable pub accepts : Phase → Bool
accepts ready = true
accepts prepared_stopped = true
accepts _ = false

module _ {W : Type 0} (e : HostEffects W) where
  -- An effect that leaves the operation file alone.
  unfoldable pub outside : {A : Type 0} → Exec W A → Exec (HostState W) A
  outside m st = let (a, w) = m st.world in (a, record st { world = w })

  unfoldable pub operation : ActivationRequest → Exec (HostState W) Operation
  unfolding owned_operation
  operation r st = (owned_operation r st.journal, st)

  -- `operation::record` at the time of the call.
  unfoldable pub record_now : ActivationRequest → Phase → Exec (HostState W) (Unit {0})
  unfolding entry
  record_now r p st =
      let (now, w) = e.clock st.world in
      let (m, w') = e.machine w in
      let (result, j) = record_phase m (entry r p now) st.journal in
      (result, record { journal = j; world = w' })

  unfoldable pub retire : Bool → ActivationRequest → Phase → Exec (HostState W) (Unit {0})
  retire accepted r p st =
      (ok tt, if accepted then record st { world = e.retire_static r p st.world } else st)

  -- `Host::phase`
  unfoldable pub host_phase : ActivationRequest → Phase → Exec (HostState W) (Unit {0})
  unfolding accepts
  host_phase r p st =
      let accepted = e.static_serving st.world && accepts p in
      (do
        operation r
        (if accepted then outside (e.accept_static r) else pure tt)
        record_now r p
        retire accepted r p)
        st

  -- `Host::verify`
  unfoldable pub host_verify : ActivationRequest → Exec (HostState W) (Unit {0})
  host_verify r = do
    op ← operation r
    if same op.phase configured then outside (e.verify_inputs r) else lift (err reconciliation)

  abbrev pub host_runtime : Runtime (HostState W)
  host_runtime = record {
    clock = λ st. let (now, w) = e.clock st.world in (now, record st { world = w });
    verify = host_verify;
    stopped = λ r. outside (e.stopped r);
    compose = λ r v. outside (e.compose r v);
    reload_proxy = λ r. outside (e.reload_proxy r);
    retain = λ r. outside (e.retain r);
    ready = λ r. outside (e.ready r);
    phase = host_phase;
    abort_static = λ r st. let (a, w) = e.abort_static r st.world in (a, record st { world = w });
  }
