-- ===== src/Activation/Activate.antt =====
-- `activate_with_clock` of src/workload/activation.rs over any runtime: what it calls, in which order,
-- and what it reports. `activate` is the same function with the machine's clock.
use komizo.Prelude.{Bool, true, false, ◌||◌, not, [], none, some, if◌then◌else◌}
use komizo.Prelude.Int.{pos, eq_ℤ}
use komizo.Prelude.Result.{Fault, message, Result, ok, err}
use komizo.Prelude.Exec.{Exec, pure, ◌>>=◌, ◌>>◌}
use komizo.Operation.Phase.{Phase, configured, activating, activated, ready, prepared_stopped}
use komizo.Operation.Record.{Time}
use komizo.Activation.Request.{ActivationRequest, check}
use komizo.Activation.Runtime.{
  Runtime, up, stop, Report, refused, reached, ActivationResult, readiness_verdict, failure,
  with_abort, acknowledged, refusal, is_staged,
}

-- The state during the action: the runtime's, and the variable `phase`.
pub record Run (S : Type 0) : Type 0 where
  pub world : S
  pub phase : Phase

module _ {S : Type 0} where
  -- A call of the runtime, which leaves the variable alone.
  unfoldable pub effect : {A : Type 0} → Exec S A → Exec (Run S) A
  effect m st = let (a, w) = m st.world in (a, record st { world = w })

  -- `phase = ...`
  unfoldable pub set_phase : Phase → Exec (Run S) (Unit {0})
  set_phase p st = (ok tt, record st { phase = p })

  unfoldable pub readiness : Exec S (Unit {0}) → Exec S Bool
  unfolding readiness_verdict
  readiness m s = let (r, s') = m s in (readiness_verdict r, s')

  module _ (rt : Runtime S) (r : ActivationRequest) where
    -- The block under the first `if !stopped`.
    unfoldable pub start_up : Exec (Run S) Bool
    start_up = do
      effect (rt.phase r activating)
      set_phase activating
      effect (rt.compose r up)
      stopped ← effect (rt.stopped r)
      if stopped then (do effect (rt.compose r stop); pure true) else pure false

    -- The last step of each branch: record the phase that the variable holds.
    unfoldable pub close : Bool → Phase → Exec (Run S) Bool
    close stopped p = do set_phase p; effect (rt.phase r p); pure stopped

    -- The block `else` under `if stopped`.
    unfoldable pub finish : Exec (Run S) Bool
    unfolding close readiness
    finish = do
      set_phase activated
      effect (rt.phase r activated)
      verified ← effect (readiness (rt.ready r))
      stopped ← effect (rt.stopped r)
      if stopped
          then (do effect (rt.compose r stop); close true prepared_stopped)
          else close false (if verified then ready else activated)

    unfoldable pub settle : Bool → Exec (Run S) Bool
    unfolding close finish
    settle stopped = do
      effect (rt.reload_proxy r)
      effect (rt.retain r)
      if stopped then close true prepared_stopped else finish

    -- The closure `action`. Its result says whether the workload is stopped.
    unfoldable pub action : Exec (Run S) Bool
    unfolding start_up settle
    action = do
      stopped ← effect (rt.stopped r)
      still ← (if stopped then pure true else start_up)
      settle still

    -- The arm `Err(mut error)`.
    unfoldable pub fail : Phase → Fault → S → (Report × Fault) × S
    unfolding failure with_abort acknowledged
    fail p e s =
        let (aborted, s') = rt.abort_static r s in
        let (ack, s'') = rt.phase r (failure p) s' in
        (acknowledged (with_abort e aborted) (failure p) ack, s'')

    unfoldable pub blank : Time → Report → ActivationResult
    blank at report = record {
      version = pos 1;
      id = r.id;
      app = r.app;
      candidate = r.candidate;
      at = at;
      phase = report;
      done = false;
      scoped_generation = [];
      started = none;
    }

    abbrev pub Outcome : Type 0
    Outcome = (ActivationResult × Result (Unit {0})) × S

    -- What follows the action.
    unfoldable pub conclude : Result Bool × Run S → Outcome
    unfolding blank fail
    conclude (ok stopped, st) =
        let (at, s) = rt.clock st.world in
        let result = record (blank at (reached st.phase)) {
          done = true;
          started = some (not stopped);
          scoped_generation = r.scoped_generation;
        } in
        ((result, ok tt), s)
    conclude (err e, st) =
        let (at, s) = rt.clock st.world in
        let (report, s') = fail st.phase e s in ((blank at report.0, err report.1), s')

    unfoldable pub perform : Time → Result (Unit {0}) × S → Outcome
    unfolding blank refusal action conclude
    perform at (err e, s) = ((blank at (refusal e), err e), s)
    perform at (ok t, s) = conclude (action (record { world = s; phase = configured }))

    abbrev pub checked : Time → Result (Unit {0}) → S → Outcome
    checked at (err e) s = ((blank at refused, err e), s)
    checked at (ok t) s = perform at (rt.verify r s)

    unfoldable pub activate : S → Outcome
    unfolding blank perform
    activate s =
        let (at, s') = rt.clock s in
        if not (eq_ℤ r.version (pos 1)) || is_staged r
        then ((blank at refused, err (message "staging must complete before activation")), s')
        else (let (now, s'') = rt.clock s' in checked at (check r now) s'')
