-- ===== src/Examples/Reconciliation.antt =====
-- One reconciliation that restores the serving release after an activation was interrupted.
use komizo.Prelude.{
  inl, ℕ, ◌+◌, ◌-◌, ◌≡◌, refl, true, false, some, List, [], ◌∷◌, ◌++◌, arith, if◌then◌else◌, Text,
  codes, text_eq,
}
use komizo.Prelude.Int.{pos}
use komizo.Prelude.Result.{ok}
use komizo.Operation.Phase.{Phase, activating, reconciled, rank}
use komizo.Operation.Record.{Operation, holds}
use komizo.Operation.History.{SameDeployment, SameDeployment-refl}
use komizo.Activation.Host.{HostState}
use komizo.Reconciliation.Request.{
  Request, restore_serving, StagedFile, Snapshot, Reconciled, ReconcileEffects,
}
use komizo.Reconciliation.Reconcile.{reconcile}
use komizo.Reconciliation.Closing.{Closing, reconcile-Closing}
use komizo.Reconciliation.Settled.{reconcile_ok}
use komizo.Examples.Operation.{app_name, commit, serving, operation_at}
use komizo.Examples.Activation.{World, calm, digest}

abbrev paths : List Text
paths = codes "compose" ∷ codes "route" ∷ codes "hostnames" ∷ codes "env" ∷ []

abbrev file : Text → List ℕ → StagedFile
file path body = record { path = path; body = body; exists = true; mode = 384 }

abbrev snapshot : Snapshot
snapshot = record {
  version = pos 1;
  id = (operation_at activating 0).id;
  files =
      file (codes "compose") []
      ∷ file (codes "route") []
      ∷ file (codes "hostnames") []
      ∷ file (codes "env") (codes "APP_VERSION=" ++ serving)
      ∷ [];
}

abbrev effects : ReconcileEffects World
effects = record {
  host = calm;
  lock = λ w. (ok tt, w);
  activation_idle = λ w. (ok tt, w);
  policy_file = λ w. (
    ok (
      digest,
      ok (record {
        app = app_name;
        static_serving = false;
        deployment = some (codes "route", codes "proxy");
        require_stateful_contract = false;
      }),
    ),
    w,
  );
  empty_registration = λ w. (ok tt, w);
  compose_file = λ w. (ok [], w);
  snapshot = λ id w. (ok snapshot, w);
  environment = λ w. (ok [], w);
  allowed = λ p. paths;
  same_path = text_eq;
  decoded = λ body. body;
  retained = λ w. (ok (serving, commit), w);
  release_bound = λ p serving compose w. (ok tt, w);
  state_revision = λ w. (ok [], w);
  is_stopped = λ w. (ok false, w);
  verify = λ serving compose w. (ok tt, w);
  write = λ path body mode w. (ok tt, w);
  remove = λ path w. (ok tt, w);
  compose_stop = λ r w. (ok tt, w);
  retain_workload = λ r w. (ok tt, w);
  write_result = λ result w. (ok tt, w);
}

abbrev request : Request
request = record {
  id = (operation_at activating 0).id;
  candidate = commit;
  policy_sha256 = digest;
  phase = activating;
  serving = serving;
  outcome = restore_serving;
}

abbrev before : HostState World
before = record { journal = holds (operation_at activating 200); world = (300, false) }

abbrev after : HostState World
after = record { journal = holds (operation_at reconciled 301); world = (302, false) }

abbrev result : Reconciled
result = record {
  operation_id = request.id;
  app = app_name;
  candidate = commit;
  serving = serving;
  outcome = restore_serving;
  configuration_restored = some true;
  at = 300;
}

runs : reconcile effects app_name request before ≡ (ok result, after)
unfolding reconcile komizo.Prelude.Exec.◌>>◌ komizo.Identity.operation_identity
    komizo.Identity.commit_id text_eq komizo.Identity.content_identity komizo.Operation.Phase.same
    komizo.Prelude.split komizo.Operation.Record.record_phase komizo.Operation.Record.plan
    komizo.Identity.identifier komizo.Identity.revision komizo.Operation.Phase.in_contract
    komizo.Operation.Record.against komizo.Operation.Record.succeed komizo.Operation.Phase.legal
    komizo.Operation.Record.admit komizo.Operation.Record.write_private_json
runs = refl

reconcile_ok_example :
    (op : Operation) × (after.journal ≡ holds op)
    × SameDeployment (operation_at activating 200) op
    × (op.phase ≡ reconciled)
reconcile_ok_example =
    reconcile_ok effects app_name request (operation_at activating 200) before after result refl
      runs

reconcile-Closing_example :
    Closing (operation_at activating 200) (reconcile effects app_name request before).1.journal
reconcile-Closing_example =
    reconcile-Closing effects (operation_at activating 200) app_name request before
      (SameDeployment-refl (operation_at activating 200), inl refl)
