-- ===== src/Staging/Rollback.antt =====
-- The rollback of `stage_deployment` in src/host/workload/deployment.rs.
use komizo.Prelude.{
  ℕ, ◌≡◌, refl, sym, ap, ◌∙◌, ◌⊎◌, inl, inr, Bool, true, false, List, [], ◌∷◌, if◌then◌else◌, All,
  Text,
}
use komizo.Prelude.Result.{Fault, Result, ok, err, OfOk-ok}
use mathlib.Core.Path.{subst}
use komizo.Prelude.Exec.{pure, raise, ◌>>=◌, ◌>>◌}
use komizo.Prelude.Exec.Preserves.{Preserves, Preserves-pure, Preserves-bind}
use komizo.Operation.Phase.{staging_failed}
use komizo.Reconciliation.Request.{StagedFile, Authority}
use komizo.Reconciliation.Reconcile.{attempt}
use komizo.Activation.Request.{DeploymentStage, ActivationRequest}
use komizo.Activation.Host.{outside}
use komizo.Staging.Files.{Files, restore_snapshot}
use komizo.Staging.Restored.{seen, Tells, paths_of, Apart, restore_snapshot-Tells}
use komizo.Staging.Stage.{StageEffects, StageState, installed_paths, on_disk, on_host, aside, phase}
use komizo.Staging.Deployment.{
  checked, begin, attempted, with_error, restore, record_failure, conclude, stage_deployment,
}
use komizo.Staging.Kept.{On, phase-Preserves, attempt-Preserves, checked-Preserves}
use komizo.Prelude.Exec.Leads.{bind-outcome}
use komizo.Staging.Policy.{IsPolicy, checked-IsPolicy}
use komizo.Staging.Undo.{Undoable, staged-Leads}

-- The files at these paths are what they were, in their bodies and permissions.
abbrev pub Same : List Text → (before after : Files) → Type 0
Same paths before after = All (λ path. seen (after path) ≡ seen (before path)) paths

Same-of_Tells :
    (before after : Files) (snapshot : List StagedFile)
    → Tells before snapshot
    → Tells after snapshot
    → Same (paths_of snapshot) before after
Same-of_Tells before after [] h k = tt
Same-of_Tells before after (file ∷ files) (h, hs) (k, ks) =
    (k ∙ sym h, Same-of_Tells before after files hs ks)

Same-of_eq : (paths : List Text) (before after : Files) → after ≡ before → Same paths before after
Same-of_eq [] before after e = tt
Same-of_eq (path ∷ paths) before after e =
    (ap (λ f. seen (f path)) e, Same-of_eq paths before after e)

module _ {W : Type 0} (x : StageEffects W) (r : ActivationRequest) where
  abbrev installed : Authority → List Text
  installed p = installed_paths (x.app_dir p) r.route_path

  -- The policy that a run reads and accepts: it has the digest of the request, and is of its
  -- application, route and proxy.
  pub record Governs (st : StageState W) (p : Authority) : Type 0 where
    pub stage : DeploymentStage
    pub env : List ℕ
    pub passed : (checked x r st).0 ≡ ok (p, stage, env)
    pub policy : IsPolicy x r p

  -- A check failed before anything was changed, or what was changed can be undone.
  abbrev Attempt : StageState W → Result (Result ActivationRequest) × StageState W → Type 0
  Attempt first (ok result, st) =
      (p : Authority) × Governs first p × On (Undoable x (installed p) first.disk.files) st
  Attempt first (err e, st) = st.disk.files ≡ first.disk.files

  attempted-Attempt : (st : StageState W) → Attempt st (attempted x r st)
  unfolding attempted begin attempt aside on_host outside pure ◌>>=◌ ◌>>◌
  attempted-Attempt st =
      bind-outcome (checked x r) _ (Attempt st) st (λ e failed. unmoved)
        (λ (p, s, env) passed. (
          p,
          record {
            stage = s;
            env = env;
            passed = passed;
            policy = OfOk-ok (λ (p, s, env). IsPolicy x r p) _ (checked-IsPolicy x r st) passed;
          },
          (staged-Leads x (installed p) st.disk.files r p s env refl).at
              (record (checked x r st).1 { snapshot = []; mutated = false; is_staging = false })
              (refl, unmoved),
        ))
    where
      unmoved : (checked x r st).1.disk.files ≡ st.disk.files
      unmoved = (checked-Preserves x (λ files snapshot mutated. files ≡ st.disk.files) r).at st refl

  restore-Same :
      (start : Files) (p : Authority) (e : Fault) (st : StageState W)
      → On (Undoable x (installed p) start) st
      → Apart (installed p)
      → (st.mutated ≡ true → (restore_snapshot x.files st.snapshot st.disk).0 ≡ ok tt)
      → Same (installed p) start (restore x e st).1.disk.files
  unfolding restore on_disk attempt pure ◌>>=◌
  restore-Same start p e st (inl (unchanged, files)) apart restorable =
      rw unchanged (Same-of_eq (installed p) start st.disk.files files)
  restore-Same start p e st (inr (was_changed, (tells, paths))) apart restorable =
      let after = (restore_snapshot x.files st.snapshot st.disk).1 in
      let told_after =
        restore_snapshot-Tells x.files st.snapshot st.disk after (subst Apart (sym paths) apart)
          (ap (λ o. (o, after)) (restorable was_changed)) in
      rw was_changed (
        subst (λ ps. Same ps start after.files) paths
          (Same-of_Tells start after.files st.snapshot tells told_after))

  ended-Preserves :
      (Q : Files → List StagedFile → Bool → Type 0) (e : Fault)
      → Preserves (On Q) (record_failure x r e >>= λ e'. raise {A = ActivationRequest} e')
  unfolding record_failure raise
  ended-Preserves Q e =
      Preserves-bind _ _ (record { at = λ st h. failed st st.is_staging h })
        (λ e'. record { at = λ st h. h })
    where
      failed :
          (st : StageState W) (b : Bool)
          → On Q st
          → On Q
              ((if b
                  then (do
                    outcome ← attempt (phase x r staging_failed)
                    pure (with_error x e outcome))
                  else pure e)
                st).1
      failed st true h =
          (Preserves-bind _ _ (attempt-Preserves x Q _ (phase-Preserves x Q r staging_failed))
              (λ outcome. Preserves-pure _)).at
            st h
      failed st false h = unfold pure in h

  conclude-Same :
      (start : Files) (p : Authority) (e : Fault) (st : StageState W)
      → On (Undoable x (installed p) start) st
      → Apart (installed p)
      → (st.mutated ≡ true → (restore_snapshot x.files st.snapshot st.disk).0 ≡ ok tt)
      → Same (installed p) start (conclude x r (err e) st).1.disk.files
  unfolding conclude
  conclude-Same start p e st h apart restorable =
      let same = restore-Same start p e st h apart restorable in
      bind-outcome (restore x e) _ (λ outcome. Same (installed p) start outcome.1.disk.files) st
        (λ f failed. same)
        (λ e' passed.
          (ended-Preserves (λ files snapshot mutated. Same (installed p) start files) e').at
            (restore x e st).1 same)

  conclude-ok :
      (request : ActivationRequest) (st : StageState W)
      → (conclude x r (ok request) st).0 ≡ ok request
  unfolding conclude pure
  conclude-ok request st = refl

  -- A staging that fails leaves the installed files as they were: either nothing of them was
  -- touched, or the policy that was read, which has the digest, the application, the route and the
  -- proxy of the request, has its four files, the compose file, the route, the hostnames and the
  -- environment, all as they were before, in their bodies and the permission bits of their modes. This supposes that these four
  -- paths differ, and that the snapshot can be written back where files were changed; whatever else
  -- failed, a part of the writes included, makes no difference.
  pub stage_deployment-Same :
      (st st' : StageState W) (e : Fault)
      → stage_deployment x r st ≡ (err e, st')
      → ((p : Authority) → Governs st p → Apart (installed p))
      → ((attempted x r st).1.mutated ≡ true
          → (restore_snapshot x.files (attempted x r st).1.snapshot (attempted x r st).1.disk).0
            ≡ ok tt)
      → (st'.disk.files ≡ st.disk.files)
        ⊎ ((p : Authority) × Governs st p × Same (installed p) st.disk.files st'.disk.files)
  unfolding stage_deployment
  stage_deployment-Same st st' e run apart restorable =
      subst (λ o. Outcomes o.0 o.1) run
        (bind-outcome (attempted x r) _ (λ o. Outcomes o.0 o.1) st
          (λ f failed. λ h.
            inl (subst (λ o. Attempt st (o, (attempted x r st).1)) failed (attempted-Attempt st)))
          ends)
        refl
    where
      Outcomes : Result ActivationRequest → StageState W → Type 0
      Outcomes o final =
          o ≡ err e
          → (final.disk.files ≡ st.disk.files)
            ⊎ ((p : Authority) × Governs st p × Same (installed p) st.disk.files final.disk.files)

      ends :
          (a : Result ActivationRequest)
          → (attempted x r st).0 ≡ ok a
          → Outcomes (conclude x r a (attempted x r st).1).0 (conclude x r a (attempted x r st).1).1
      ends (ok request) passed k = absurd (cc (conclude-ok request (attempted x r st).1, k))
      ends (err f) passed k =
          let (p, governs, on) =
            subst (λ o. Attempt st (o, (attempted x r st).1)) passed (attempted-Attempt st) in
          inr (
            p,
            governs,
            conclude-Same st.disk.files p f (attempted x r st).1 on (apart p governs) restorable,
          )
