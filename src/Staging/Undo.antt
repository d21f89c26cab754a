-- ===== src/Staging/Undo.antt =====
-- What `stage_deployment` of src/host/workload/deployment.rs can undo when it fails.
use komizo.Prelude.{ℕ, ◌≡◌, refl, ◌∙◌, ◌⊎◌, inl, inr, Bool, true, false, List, [], ◌∷◌, Text}
use komizo.Prelude.Result.{Result, ok, err}
use mathlib.Core.Path.{subst}
use komizo.Prelude.Exec.{Exec, pure, lift, continue, ◌>>=◌, ◌>>◌}
use komizo.Prelude.Exec.Preserves.{
  Preserves, Preserves-lift, Preserves-pure, Preserves-bind, Preserves-then,
}
use komizo.Operation.Phase.{staging}
use komizo.Reconciliation.Request.{StagedFile, Authority}
use komizo.Reconciliation.Reconcile.{attempt}
use komizo.Activation.Request.{DeploymentStage, ActivationRequest}
use komizo.Activation.Host.{HostState, outside}
use komizo.Staging.Files.{Files, Installed, stat_file, take_snapshot}
use komizo.Staging.Restored.{Tells, paths_of, take_snapshot-Tells}
use komizo.Staging.Stage.{StageEffects, StageState, installed_paths, on_disk, on_host, aside}
use komizo.Staging.Deployment.{
  Candidate, remember, mark_mutated, snapshot_installed, swap, submit, stage_configuration,
  with_container, staged,
}
use komizo.Staging.Kept.{
  On, aside-Preserves, phase-Preserves, mark_staging-Preserves, authorize-Preserves,
  create_source-Preserves, configure-Preserves, submit-Preserves,
}
use komizo.Prelude.Exec.Leads.{Leads, Leads-bind, Leads-then, bind-outcome, then-outcome}

module _ {W : Type 0} (x : StageEffects W) (paths : List Text) (start : Files) where
  -- Nothing was changed yet.
  abbrev Untouched : Files → List StagedFile → Bool → Type 0
  Untouched files snapshot mutated = (mutated ≡ false) × (files ≡ start)

  -- The snapshot tells of the files at the start.
  abbrev Ready : Files → List StagedFile → Bool → Type 0
  Ready files snapshot mutated = Tells start snapshot × (paths_of snapshot ≡ paths)

  abbrev Told : Files → List StagedFile → Bool → Type 0
  Told files snapshot mutated = (mutated ≡ true) × Ready files snapshot mutated

  -- What can be undone.
  abbrev pub Undoable : Files → List StagedFile → Bool → Type 0
  Undoable files snapshot mutated = Untouched files snapshot mutated ⊎ Told files snapshot mutated

  on_disk-Told :
      {A : Type 0} (m : Exec (Installed (HostState W)) A) → Preserves (On Told) (on_disk x m)
  unfolding on_disk
  on_disk-Told m = record { at = λ st h. h }

  swap-Told :
      (r : ActivationRequest) (app_dir : Text) (env : List ℕ) (c : Candidate)
      (files : List StagedFile)
      → Preserves (On Told) (swap x r app_dir env c files)
  unfolding swap
  swap-Told r app_dir env c files = Preserves-then _ _ (on_disk-Told _) (
      Preserves-then _ _ (on_disk-Told _) (
        Preserves-then _ _ (on_disk-Told _) (
          Preserves-then _ _ (on_disk-Told _) (
            Preserves-then _ _ (aside-Preserves x Told _)
              (Preserves-bind _ _ (Preserves-lift _) λ body. on_disk-Told _)))))

  -- After the snapshot.
  changed :
      (r : ActivationRequest) (p : Authority) (s : DeploymentStage) (env : List ℕ) (c : Candidate)
      (files : List StagedFile)
      → Leads
          (On Ready)
          (On Undoable)
          (mark_mutated x >> (swap x r (x.app_dir p) env c files >> submit x r s c))
  unfolding ◌>>◌ ◌>>=◌ mark_mutated
  changed r p s env c files = record {
    at = λ st h. inr (
        (Preserves-then _ _ (swap-Told r (x.app_dir p) env c files)
            (submit-Preserves x Told r s c)).at
          (record st { mutated = true }) (refl, h));
  }

  take_snapshot-start :
      (ps : List Text)
      → Preserves (λ (d : Installed (HostState W)). d.files ≡ start) (take_snapshot x.files ps)
  unfolding take_snapshot
  take_snapshot-start [] = Preserves-pure []
  take_snapshot-start (path ∷ ps) =
      Preserves-bind _ _ (unfold stat_file in record { at = λ d h. h })
        λ file. Preserves-bind _ _ (take_snapshot-start ps) λ files. Preserves-pure (file ∷ files)

  -- Of the snapshot: it is ready, or nothing was changed.
  abbrev Outcome : {A : Type 0} → Result A × StageState W → Type 0
  Outcome (ok a, st) = On Ready st
  Outcome (err e, st) = On Untouched st

  snapshot_installed-Outcome :
      (r : ActivationRequest) (app_dir : Text)
      → installed_paths app_dir r.route_path ≡ paths
      → (st : StageState W) → On Untouched st
      → Outcome (snapshot_installed x r app_dir st)
  unfolding snapshot_installed on_disk remember aside on_host outside pure
  snapshot_installed-Outcome r app_dir same st (unchanged, files) =
      bind-outcome _ _ Outcome st
        (λ e failed. (
          unchanged,
          (take_snapshot-start (installed_paths app_dir r.route_path)).at st.disk files,
        ))
        (λ found taken.
          then-outcome _ _ Outcome _ (λ e failed. absurd (cc))
            (then-outcome _ _ Outcome _
              (λ e failed. (
                unchanged,
                (take_snapshot-start (installed_paths app_dir r.route_path)).at st.disk files,
              ))
              (ready found (take_snapshot-Tells x.files _ st.disk found taken))))
    where
      ready :
          (found : List StagedFile)
          → Tells st.disk.files found × (paths_of found ≡ installed_paths app_dir r.route_path)
          → Tells start found × (paths_of found ≡ paths)
      ready found (tells, ps) = (subst (λ f. Tells f found) files tells, ps ∙ same)

  stage_configuration-Leads :
      (r : ActivationRequest) (p : Authority) (s : DeploymentStage) (env : List ℕ) (id : Text)
      → installed_paths (x.app_dir p) r.route_path ≡ paths
      → Leads (On Untouched) (On Undoable) (stage_configuration x r p s env id)
  unfolding stage_configuration
  stage_configuration-Leads r p s env id same =
      Leads-bind _ _ (λ st h. inl h) (configure-Preserves x Untouched r p s id)
        λ c.
          unfold ◌>>=◌ in
          record {
            at = λ st h.
                swapped c (snapshot_installed x r (x.app_dir p) st)
                  (snapshot_installed-Outcome r (x.app_dir p) same st h);
          }
    where
      swapped :
          (c : Candidate) (taken : Result (List StagedFile) × StageState W)
          → Outcome taken
          → On Undoable
              (continue taken.0
                (λ files. mark_mutated x >> (swap x r (x.app_dir p) env c files >> submit x r s c))
                taken.1).1
      swapped c (ok files, st) h = (changed r p s env c files).at st h
      swapped c (err e, st) h = inl h

  contained :
      (id : Text) (m : Exec (StageState W) ActivationRequest) (st : StageState W)
      → On Undoable (m st).1
      → On Undoable (with_container x id m st).1
  unfolding with_container attempt ◌>>=◌
  contained id m st h =
      (Preserves-bind (aside x (attempt (x.remove_container id))) (λ ignored. lift (m st).0)
          (aside-Preserves x Undoable _) (λ ignored. Preserves-lift _)).at
        (m st).1 h

  pub staged-Leads :
      (r : ActivationRequest) (p : Authority) (s : DeploymentStage) (env : List ℕ)
      → installed_paths (x.app_dir p) r.route_path ≡ paths
      → Leads (On Untouched) (On Undoable) (staged x r p s env)
  unfolding staged
  staged-Leads r p s env same =
      Leads-then _ _ (λ st h. inl h) (phase-Preserves x Untouched r staging)
        (Leads-then _ _ (λ st h. inl h) (mark_staging-Preserves x Untouched)
          (Leads-then _ _ (λ st h. inl h) (authorize-Preserves x Untouched r p s)
            (Leads-bind _ _ (λ st h. inl h) (create_source-Preserves x Untouched r p s)
              λ id. record {
                at = λ st h.
                    contained id (stage_configuration x r p s env id) st
                      ((stage_configuration-Leads r p s env id same).at st h);
              })))
