-- ===== src/Staging/Deployment.antt =====
-- `stage_configuration` and the whole of `stage_deployment` of src/host/workload/deployment.rs.
use komizo.Prelude.{
  ℕ, Bool, true, false, ◌&&◌, ◌||◌, List, [], ◌++◌, if◌then◌else◌, take, Text, codes, text_eq,
}
use komizo.Prelude.Result.{Fault, joined, reconciliation, Result, ok, err, ensure, ok_or, is_ok}
use komizo.Prelude.Exec.{Exec, pure, raise, lift, ◌>>=◌, ◌>>◌}
use komizo.Operation.Phase.{admitted, staging, staging_failed, configured, same}
use komizo.Transaction.Environment.{deployment_version, deployment_env}
use komizo.Reconciliation.Request.{StagedFile, Authority}
use komizo.Reconciliation.Reconcile.{attempt}
use komizo.Activation.Request.{DeploymentStage, ActivationRequest}
use komizo.Activation.Host.{operation}
use komizo.Staging.Files.{write_file, take_snapshot, restore_snapshot, keep_previous}
use komizo.Staging.Stage.{
  StageEffects, StageState, installed_paths, is_authority, shared_mode, private_mode, is_version,
  configured_request, on_disk, on_host, aside, phase, clock_check, read_installed, authorize,
  create_source,
}

abbrev or_false : Result Bool → Bool
or_false (ok b) = b
or_false (err f) = false

-- What is swapped in: the compose file, the route and the recorded hostnames.
pub record Candidate : Type 0 where
  pub canonical : List ℕ
  pub route : List ℕ
  pub recorded : List ℕ

module _ {W : Type 0} (x : StageEffects W) where
  -- `stage_configuration` before the snapshot.
  unfoldable pub configure :
      ActivationRequest → Authority → DeploymentStage → (id : Text) → Exec (StageState W) Candidate
  unfolding aside attempt
  configure r p s id = do
    (compose, hostnames) ← aside x (x.configuration id)
    canonical ← aside x (x.bind p r compose)
    aside x (x.secrets p s.generation canonical)
    (if s.local_only then aside x (x.cached_images canonical) else aside x (x.pull_images p))
    asks ← aside x (attempt (x.proxy_asks p))
    lift (
        ensure (is_ok asks || x.is_blank hostnames)
          "route requires the installed proxy configuration")
    (route, recorded, names) ← lift (x.route p.app r.candidate hostnames (or_false asks))
    aside x (x.hostnames_free p names)
    aside x (x.ingress p r.proxy)
    pure (record { canonical = canonical; route = route; recorded = recorded })

  unfoldable pub remember : List StagedFile → Exec (StageState W) (Unit {0})
  remember files st = (ok tt, record st { snapshot = files })

  unfoldable pub mark_mutated : Exec (StageState W) (Unit {0})
  mark_mutated st = (ok tt, record st { mutated = true })

  unfoldable pub mark_staging : Exec (StageState W) (Unit {0})
  mark_staging st = (ok tt, record st { is_staging = true })

  -- The snapshot, up to the file that keeps it.
  unfoldable pub snapshot_installed :
      ActivationRequest → (app_dir : Text) → Exec (StageState W) (List StagedFile)
  unfolding on_disk take_snapshot remember aside installed_paths
  snapshot_installed r app_dir = do
    files ← on_disk x (take_snapshot x.files (installed_paths app_dir r.route_path))
    remember files
    aside x (x.save_snapshot r.id files)
    pure files

  -- The installed files are replaced, and the operation is configured.
  unfoldable pub swap :
      ActivationRequest
      → (app_dir : Text) → (env : List ℕ) → Candidate
      → List StagedFile
      → Exec (StageState W) (Unit {0})
  unfolding on_disk keep_previous write_file aside deployment_env
  swap r app_dir env c files = do
    on_disk x (keep_previous x.files (take 3 files))
    on_disk x (write_file x.files (app_dir ++ codes "/compose.yml") c.canonical private_mode)
    on_disk x (write_file x.files r.route_path c.route shared_mode)
    on_disk x (write_file x.files (app_dir ++ codes "/hostnames") c.recorded shared_mode)
    aside x (x.validate_proxy r.proxy)
    body ← lift (deployment_env (x.decode env) r.candidate)
    on_disk x (write_file x.files (app_dir ++ codes "/.env") body private_mode)

  unfoldable pub submit :
      ActivationRequest → DeploymentStage → Candidate → Exec (StageState W) ActivationRequest
  unfolding phase configured_request clock_check aside
  submit r s c = do
    phase x r configured
    let request = configured_request x.hash r s c.canonical c.route
    clock_check x request
    aside x (x.submit request)
    pure request

  -- `stage_configuration`
  unfoldable pub stage_configuration :
      ActivationRequest
      → Authority
      → DeploymentStage
      → (env : List ℕ) → (id : Text) → Exec (StageState W) ActivationRequest
  unfolding configure snapshot_installed mark_mutated swap submit
  stage_configuration r p s env id = do
    c ← configure r p s id
    files ← snapshot_installed r (x.app_dir p)
    mark_mutated
    swap r (x.app_dir p) env c files
    submit r s c

  -- The container is removed whatever happened.
  unfoldable pub with_container :
      Text → Exec (StageState W) ActivationRequest → Exec (StageState W) ActivationRequest
  unfolding aside attempt
  with_container id m = do
    result ← attempt m
    ignored ← aside x (attempt (x.remove_container id))
    lift result

  -- The closure.
  unfoldable pub staged :
      ActivationRequest
      → Authority
      → DeploymentStage
      → (env : List ℕ) → Exec (StageState W) ActivationRequest
  unfolding phase mark_staging authorize create_source with_container stage_configuration
  staged r p s env = do
    phase x r staging
    mark_staging
    authorize x r p s
    id ← create_source x r p s
    with_container id (stage_configuration r p s env id)

  -- The error so far, with that of one more attempt.
  abbrev pub with_error : Fault → Result (Unit {0}) → Fault
  with_error e (ok t) = e
  with_error e (err f) = joined e f

  unfoldable pub restore : Fault → Exec (StageState W) Fault
  unfolding on_disk restore_snapshot attempt
  restore e st =
      (if st.mutated
          then (do
            outcome ← attempt (on_disk x (restore_snapshot x.files st.snapshot))
            pure (with_error e outcome))
          else pure e)
        st

  unfoldable pub record_failure : ActivationRequest → Fault → Exec (StageState W) Fault
  unfolding phase attempt
  record_failure r e st =
      (if st.is_staging
          then (do outcome ← attempt (phase x r staging_failed); pure (with_error e outcome))
          else pure e)
        st

  -- The last match.
  unfoldable pub conclude :
      ActivationRequest → Result ActivationRequest → Exec (StageState W) ActivationRequest
  unfolding restore record_failure
  conclude r (ok request) = pure request
  conclude r (err e) = do e' ← restore e; e'' ← record_failure r e'; raise e''

  -- What is checked before the closure: the policy, the installed environment and the stage.
  unfoldable pub checked :
      ActivationRequest → Exec (StageState W) (Authority × DeploymentStage × List ℕ)
  unfolding clock_check on_host operation aside read_installed deployment_version
  checked r = do
    clock_check x r
    op ← on_host x (operation x.host r)
    (if same op.phase admitted then pure tt else raise reconciliation)
    (digest, policy) ← aside x x.policy
    lift (ensure (text_eq digest r.policy_sha256) "staging policy changed")
    p ← lift policy
    lift (ensure (text_eq p.app r.app && is_authority p.deployment r) "staging authority changed")
    env ← read_installed x (x.app_dir p ++ codes "/.env")
    lift (
        ensure (is_version (deployment_version (x.decode env)) r.previous)
          "installed revision changed before staging")
    s ← lift (ok_or r.stage "staging requires a stage request")
    pure (p, s, env)

  -- The two flags and the snapshot, before the closure.
  unfoldable pub begin : Exec (StageState W) (Unit {0})
  begin st = (ok tt, record st { snapshot = []; mutated = false; is_staging = false })

  -- `stage_deployment` up to the last match.
  unfoldable pub attempted : ActivationRequest → Exec (StageState W) (Result ActivationRequest)
  unfolding checked begin staged aside attempt
  attempted r = do
    (p, s, env) ← checked r
    begin
    result ← attempt (staged r p s env)
    ignored ← aside x (attempt (x.remove_slot_dir r.id))
    pure result

  -- `stage_deployment`
  unfoldable pub stage_deployment : ActivationRequest → Exec (StageState W) ActivationRequest
  unfolding attempted conclude
  stage_deployment r = do result ← attempted r; conclude r result
