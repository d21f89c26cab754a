-- ===== src/Staging/Kept.antt =====
-- What the steps of `stage_deployment` in src/host/workload/deployment.rs leave of the installed files.
use komizo.Prelude.{Bool, List, if◌then◌else◌, Text}
use komizo.Prelude.Result.{Fault}
use komizo.Prelude.Exec.{Exec, pure, raise}
use komizo.Prelude.Exec.Preserves.{
  Preserves, Preserves-pure, Preserves-lift, Preserves-if, Preserves-bind, Preserves-then,
}
use komizo.Operation.Phase.{Phase, configured}
use komizo.Reconciliation.Request.{StagedFile, Authority}
use komizo.Reconciliation.Reconcile.{attempt}
use komizo.Activation.Request.{DeploymentStage, ActivationRequest}
use komizo.Activation.Host.{HostState, outside}
use komizo.Staging.Files.{Files}
use komizo.Staging.Stage.{
  StageEffects, StageState, on_host, aside, phase, clock_check, read_installed, authorize,
  create_source,
}
use komizo.Staging.Deployment.{Candidate, configure, mark_staging, submit, checked}

-- A predicate of the installed files, the snapshot and whether the files were changed.
abbrev pub On : {W : Type 0} → (Files → List StagedFile → Bool → Type 0) → StageState W → Type 0
On Q st = Q st.disk.files st.snapshot st.mutated

module _ {W : Type 0} (x : StageEffects W) (Q : Files → List StagedFile → Bool → Type 0) where
  pub aside-Preserves : {A : Type 0} (m : Exec W A) → Preserves (On Q) (aside x m)
  unfolding aside on_host outside
  aside-Preserves m = record { at = λ st h. h }

  pub on_host-Preserves : {A : Type 0} (m : Exec (HostState W) A) → Preserves (On Q) (on_host x m)
  unfolding on_host
  on_host-Preserves m = record { at = λ st h. h }

  pub phase-Preserves : (r : ActivationRequest) (p : Phase) → Preserves (On Q) (phase x r p)
  unfolding phase
  phase-Preserves r p = on_host-Preserves _

  clock_check-Preserves : (r : ActivationRequest) → Preserves (On Q) (clock_check x r)
  unfolding clock_check
  clock_check-Preserves r = record { at = λ st h. h }

  read_installed-Preserves : (path : Text) → Preserves (On Q) (read_installed x path)
  unfolding read_installed
  read_installed-Preserves path = record { at = λ st h. h }

  pub mark_staging-Preserves : Preserves (On Q) (mark_staging x)
  unfolding mark_staging
  mark_staging-Preserves = record { at = λ st h. h }

  pub attempt-Preserves :
      {A : Type 0} (m : Exec (StageState W) A) → Preserves (On Q) m → Preserves (On Q) (attempt m)
  unfolding attempt
  attempt-Preserves m k = record { at = λ st h. k.at st h }

  admitted-Preserves :
      (b : Bool) (f : Fault) → Preserves (On Q) (if b then pure tt else raise {S = StageState W} f)
  unfolding raise
  admitted-Preserves b f = Preserves-if b _ _ (Preserves-pure tt) (record { at = λ st h. h })

  pub authorize-Preserves :
      (r : ActivationRequest) (p : Authority) (s : DeploymentStage)
      → Preserves (On Q) (authorize x r p s)
  unfolding authorize
  authorize-Preserves r p s = Preserves-then _ _ (aside-Preserves _) (
      Preserves-then _ _ (aside-Preserves _) (
        Preserves-then _ _ (aside-Preserves _) (
          Preserves-bind _ _ (aside-Preserves _) λ slot. Preserves-then _ _ (Preserves-lift _) (
            Preserves-bind _ _ (aside-Preserves _) λ credentials.
              Preserves-then _ _ (Preserves-lift _) (
                Preserves-then _ _ (aside-Preserves _) (
                  Preserves-then _ _
                    (Preserves-if s.local_only _ _ (Preserves-lift _) (aside-Preserves _))
                    (aside-Preserves _)))))))

  pub create_source-Preserves :
      (r : ActivationRequest) (p : Authority) (s : DeploymentStage)
      → Preserves (On Q) (create_source x r p s)
  unfolding create_source
  create_source-Preserves r p s =
      Preserves-then _ _ (Preserves-if s.local_only _ _ (Preserves-pure tt) (aside-Preserves _)) (
        Preserves-then _ _ (aside-Preserves _) (
          Preserves-bind _ _ (aside-Preserves _) λ volumes. Preserves-then _ _ (Preserves-lift _) (
            Preserves-bind _ _ (aside-Preserves _) λ immutable.
              Preserves-then _ _ (Preserves-lift _) (
                Preserves-bind _ _ (aside-Preserves _)
                  λ id. Preserves-then _ _ (Preserves-lift _) (Preserves-pure id)))))

  pub configure-Preserves :
      (r : ActivationRequest) (p : Authority) (s : DeploymentStage) (id : Text)
      → Preserves (On Q) (configure x r p s id)
  unfolding configure
  configure-Preserves r p s id = Preserves-bind _ _ (aside-Preserves _) λ (compose, hostnames).
      Preserves-bind _ _ (aside-Preserves _) λ canonical. Preserves-then _ _ (aside-Preserves _) (
        Preserves-then _ _ (Preserves-if s.local_only _ _ (aside-Preserves _) (aside-Preserves _)) (
          Preserves-bind _ _ (aside-Preserves _) λ asks. Preserves-then _ _ (Preserves-lift _) (
            Preserves-bind _ _ (Preserves-lift _) λ (route, recorded, names).
              Preserves-then _ _ (aside-Preserves _)
                (Preserves-then _ _ (aside-Preserves _) (Preserves-pure _)))))

  pub submit-Preserves :
      (r : ActivationRequest) (s : DeploymentStage) (c : Candidate)
      → Preserves (On Q) (submit x r s c)
  unfolding submit
  submit-Preserves r s c = Preserves-then _ _ (phase-Preserves r configured) (
      Preserves-then _ _ (clock_check-Preserves _)
        (Preserves-then _ _ (aside-Preserves _) (Preserves-pure _)))

  pub checked-Preserves : (r : ActivationRequest) → Preserves (On Q) (checked x r)
  unfolding checked
  checked-Preserves r = Preserves-then _ _ (clock_check-Preserves r) (
      Preserves-bind _ _ (on_host-Preserves _) λ op. Preserves-then _ _ (admitted-Preserves _ _) (
        Preserves-bind _ _ (aside-Preserves _) λ (digest, policy).
          Preserves-then _ _ (Preserves-lift _) (
            Preserves-bind _ _ (Preserves-lift _) λ p. Preserves-then _ _ (Preserves-lift _) (
              Preserves-bind _ _ (read_installed-Preserves _) λ env.
                Preserves-then _ _ (Preserves-lift _)
                  (Preserves-bind _ _ (Preserves-lift _) λ s. Preserves-pure _)))))
