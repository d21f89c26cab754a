-- ===== src/Reconciliation/Reconcile.antt =====
-- `reconcile` of src/host/workload/reconciliation.rs, over the host's state.
use komizo.Prelude.{
  ℕ, Bool, true, false, not, ◌&&◌, ◌||◌, Option, none, some, List, [], ◌∷◌, if◌then◌else◌, Text,
  text_eq,
}
use komizo.Prelude.Int.{pos}
use komizo.Prelude.Result.{Result, ok, err, ensure, owner_stopped}
use komizo.Prelude.Exec.{Exec, lift, pure, raise, ◌>>=◌, ◌>>◌}
use komizo.Operation.Phase.{reconciled}
use komizo.Operation.Record.{Operation, Entry, Time, record_phase}
use komizo.Activation.Request.{ActivationRequest}
use komizo.Activation.Host.{HostState, outside}
use komizo.Transaction.Environment.{deployment_version}
use komizo.Reconciliation.Request.{
  Request, restore_serving, accept_candidate, abandon_initial, Authority, StagedFile, Snapshot,
  Reconciled, ReconcileEffects, check_request, reviewed, serves, check_snapshot, early_refusal,
  restorable, still_retained, initial_refusal,
}

-- The outcome of a method as a value.
unfoldable pub attempt : {S A : Type 0} → Exec S A → Exec S (Result A)
attempt m s = let (r, s') = m s in (ok r, s')

abbrev is_restored : Option Snapshot → Bool
is_restored none = false
is_restored (some snapshot) = true

abbrev pub files_of : Option Snapshot → List StagedFile
files_of none = []
files_of (some snapshot) = snapshot.files

abbrev deployed : Option (Text × Text) → Text × Text
deployed none = ([], [])
deployed (some d) = d

-- The request that the methods of the runtime take.
unfoldable pub activation_of : Request → Authority → Operation → ActivationRequest
activation_of r p op = record {
  version = pos 0;
  id = op.id;
  app = p.app;
  candidate = r.serving;
  previous = op.previous;
  policy_sha256 = [];
  compose_sha256 = [];
  route_sha256 = [];
  route_path = (deployed p.deployment).0;
  proxy = (deployed p.deployment).1;
  deadline = 0;
  scoped_generation = [];
  stage = none;
}

abbrev is_some_eq : Result Text → Text → Bool
is_some_eq (ok a) b = text_eq a b
is_some_eq (err e) b = false

module _ {W : Type 0} (x : ReconcileEffects W) where
  unfoldable pub aside : {A : Type 0} → Exec W A → Exec (HostState W) A
  unfolding outside
  aside m = outside x.host m

  unfoldable pub read_reviewed : Request → Authority → Exec (HostState W) Operation
  unfolding reviewed
  read_reviewed r p st = (reviewed r p st.journal, st)

  unfoldable pub now : Exec (HostState W) Time
  now st = let (t, w) = x.host.clock st.world in (ok t, record st { world = w })

  -- `operation::record` of the phase `reconciled`.
  unfoldable pub record_reconciled : (app candidate previous : Text) → Exec (HostState W) (Unit {0})
  record_reconciled app candidate previous st =
      let (t, w) = x.host.clock st.world in
      let (m, w') = x.host.machine w in
      let entry : Entry = record {
        app = app;
        candidate = candidate;
        previous = previous;
        phase = reconciled;
        now = t;
      } in
      let (result, j) = record_phase m entry st.journal in
      (result, record { journal = j; world = w' })

  unfoldable pub result_of :
      Request → Operation → (serving : Text) → Option Bool → Exec (HostState W) Reconciled
  unfolding now
  result_of r op serving restored = do
    t ← now
    pure (record {
      operation_id = op.id;
      app = op.app;
      candidate = op.candidate;
      serving = serving;
      outcome = r.outcome;
      configuration_restored = restored;
      at = t;
    })

  -- `reconcile_initial`
  unfoldable pub reconcile_initial : Request → Operation → Exec (HostState W) Reconciled
  unfolding initial_refusal aside result_of record_reconciled
  reconcile_initial r op = do
    lift (
        ensure (initial_refusal r op)
          "initial reconciliation requires an early first-deployment refusal")
    aside x.empty_registration
    result ← result_of r op [] none
    aside (x.write_result result)
    record_reconciled op.app op.candidate []
    pure result

  -- The match on the snapshot that was read: the compose file that will serve, and the snapshot
  -- that is restored, if there is one.
  unfoldable pub from_snapshot :
      Request
      → Authority
      → Operation
      → List ℕ
      → Result Snapshot
      → Exec (HostState W) (List ℕ × Option Snapshot)
  unfolding aside check_snapshot early_refusal serves deployment_version
  from_snapshot r p op compose (ok snapshot) = do
    compose' ← lift (check_snapshot x.same_path x.decoded (x.allowed p) r.serving op.id snapshot)
    pure (compose', some snapshot)
  from_snapshot r p op compose (err e) =
      if early_refusal e p op.phase
      then (do
        environment ← aside x.environment
        lift (
            ensure (serves (deployment_version (x.decoded environment)) r.serving)
              "early staging refusal requires the unchanged serving revision")
        pure (compose, none))
      else raise e

  -- The block under `r.outcome == "restore-serving"`.
  unfoldable pub restoration :
      Request → Authority → Operation → List ℕ → Exec (HostState W) (List ℕ × Option Snapshot)
  unfolding restorable aside attempt from_snapshot
  restoration r p op compose = do
    lift (restorable r p op)
    found ← aside (attempt (x.snapshot op.id))
    from_snapshot r p op compose found

  -- `restore_snapshot`
  unfoldable pub restore_snapshot : List StagedFile → Exec (HostState W) (Unit {0})
  unfolding aside
  restore_snapshot [] = pure tt
  restore_snapshot (file ∷ files) =
      let rest = restore_snapshot files in
      (if file.exists
        then aside (x.write file.path file.body file.mode)
        else aside (x.remove file.path))
      >> rest

  -- One test that the owner has not stopped the application meanwhile.
  unfoldable pub check_state : ActivationRequest → Text → Exec (HostState W) (Unit {0})
  unfolding aside attempt
  check_state activation state = do
    current ← aside (attempt x.state_revision)
    if is_some_eq current state
        then pure tt
        else (do ignored ← aside (attempt (x.compose_stop activation)); raise owner_stopped)

  -- From the restored configuration on.
  unfoldable pub conclude :
      Request
      → Authority
      → Operation
      → (state : Text) → List ℕ
      → Option Snapshot
      → Exec (HostState W) Reconciled
  unfolding restore_snapshot activation_of check_state aside result_of record_reconciled
  conclude r p op state compose snapshot = do
    restore_snapshot (files_of snapshot)
    aside (x.host.reload_proxy (activation_of r p op))
    check_state (activation_of r p op) state
    aside (x.verify r.serving compose)
    check_state (activation_of r p op) state
    (if text_eq r.outcome accept_candidate
        then aside (x.retain_workload (activation_of r p op))
        else pure tt)
    result ← result_of r op r.serving (some (is_restored snapshot))
    aside (x.write_result result)
    record_reconciled p.app op.candidate op.previous
    pure result

  -- The part of `reconcile` from `compose_path` on.
  unfoldable pub reconcile_serving : Request → Authority → Operation → Exec (HostState W) Reconciled
  unfolding restoration aside attempt still_retained conclude
  reconcile_serving r p op = do
    compose ← aside x.compose_file
    (compose', snapshot) ←
        (if text_eq r.outcome restore_serving then restoration r p op compose else (do
          lift (
              ensure (text_eq r.serving op.candidate)
                "accept-candidate requires the exact candidate")
          pure (compose, none)))
    retained ← aside (attempt x.retained)
    lift (
        ensure (not (text_eq r.outcome restore_serving) || still_retained retained r.serving)
          "restoration requires the still-retained serving release")
    aside (x.release_bound p r.serving compose')
    state ← aside x.state_revision
    stopped ← aside x.is_stopped
    lift (
        ensure (not stopped)
          "owner stop retained; explicitly reconcile while stopped after serving identity review")
    aside (x.verify r.serving compose')
    conclude r p op state compose' snapshot

  abbrev is_some_deployment : Option (Text × Text) → Bool
  is_some_deployment none = false
  is_some_deployment (some d) = true

  -- `reconcile`, for the application of the host.
  unfoldable pub reconcile : (app : Text) → Request → Exec (HostState W) Reconciled
  unfolding check_request aside read_reviewed reconcile_initial reconcile_serving
  reconcile app r = do
    lift (check_request r)
    aside x.lock
    aside x.activation_idle
    (digest, policy) ← aside x.policy_file
    lift (ensure (text_eq digest r.policy_sha256) "reviewed reconciliation policy changed")
    p ← lift policy
    lift (
        ensure (text_eq p.app app && is_some_deployment p.deployment)
          "protected deployment authority required")
    lift (
        ensure (not (text_eq r.outcome accept_candidate) || not p.static_serving)
          "static candidates require their existing ready retention; use restore-serving for initial conversion")
    op ← read_reviewed r p
    if text_eq r.outcome abandon_initial then reconcile_initial r op else reconcile_serving r p op
