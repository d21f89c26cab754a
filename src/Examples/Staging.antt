-- ===== src/Examples/Staging.antt =====
-- One staging that fails when the proxy refuses the candidate's configuration.
use komizo.Prelude.{
  ◌≡◌, refl, ap, ◌⊎◌, true, false, none, some, List, [], ◌∷◌, ◌++◌, if◌then◌else◌, Text, codes,
  text_eq,
}
use komizo.Prelude.Int.{pos}
use komizo.Prelude.Result.{message, ok, err}
use komizo.Prelude.Exec.{pure, ◌>>=◌, ◌>>◌}
use komizo.Identity.{identifier, revision, operation_identity, commit_id, content_identity}
use komizo.CleanPath.{is_absolute, clean_path, file_name}
use komizo.Operation.Phase.{admitted, same, in_contract, legal}
use komizo.Operation.Record.{
  holds, written, record_phase, plan, against, succeed, admit, write_private_json,
}
use komizo.Reconciliation.Request.{Authority, StagedFile}
use komizo.Activation.Request.{
  ActivationRequest, check_identity, check_version, common_identity, staging_identity, check_stage,
  stage_check,
}
use komizo.Activation.Host.{HostState, record_now, retire}
use komizo.Staging.Files.{
  Files, Installed, restore_snapshot, restore_file, write_file, remove_file, after_write,
  after_remove,
}
use komizo.Staging.Restored.{Apart}
use komizo.Staging.Stage.{StageEffects, StageState, installed_paths}
use komizo.Staging.Deployment.{attempted, stage_deployment}
use komizo.Staging.Rollback.{Same, Governs, stage_deployment-Same}
use komizo.Examples.Operation.{app_name, commit, serving, operation_at}
use komizo.Examples.Activation.{digest, World, calm}

abbrev route_path : Text
route_path = codes "/srv/proxy/routes/mailroom.caddy"

abbrev request : ActivationRequest
request = record {
  version = pos 2;
  id = codes "000102030405060708090a0b0c0d0eff";
  app = app_name;
  candidate = commit;
  previous = serving;
  policy_sha256 = digest;
  compose_sha256 = [];
  route_sha256 = [];
  route_path = route_path;
  proxy = codes "proxy";
  deadline = 1500000000100;
  scoped_generation = [];
  stage = some (record { credential_sha256 = digest; local_only = false; generation = [] });
}

abbrev authority : Authority
authority = record {
  app = app_name;
  static_serving = false;
  deployment = some (route_path, codes "proxy");
  require_stateful_contract = false;
}

abbrev effects : StageEffects World
effects = record {
  host = calm;
  files = record {
    write = λ path h. (written, h);
    remove = λ path h. (none, h);
    read = λ path h. (none, h);
  };
  policy = λ w. (ok (digest, ok authority), w);
  app_dir = λ p. codes "/srv/mailroom";
  image_prefix = λ p. codes "ghcr.io/mailroom/";
  hash = λ body. digest;
  decode = λ body. body;
  is_image_digest = λ text. true;
  is_blank = λ body. false;
  capacity = λ w. (ok tt, w);
  startup_capacity = λ p w. (ok tt, w);
  accepted = λ p candidate w. (ok tt, w);
  slot = λ id w. (ok digest, w);
  credentials = λ id w. (ok (record { registry = []; user = []; password = [] }), w);
  docker_dir = λ id w. (ok tt, w);
  login = λ c w. (ok tt, w);
  remove_slot = λ id w. (ok tt, w);
  remove_slot_dir = λ id w. (ok tt, w);
  pull_configuration = λ image w. (ok tt, w);
  bind_configuration = λ p image w. (ok tt, w);
  volumes = λ image w. (ok (codes "null"), w);
  image_id = λ image w. (ok digest, w);
  create = λ image w. (ok digest, w);
  remove_container = λ id w. (ok tt, w);
  configuration = λ id w. (ok (codes "services", codes "a.example.com"), w);
  bind = λ p r body w. (ok body, w);
  secrets = λ p generation body w. (ok tt, w);
  cached_images = λ body w. (ok tt, w);
  pull_images = λ p w. (ok tt, w);
  proxy_asks = λ p w. (ok true, w);
  route = λ app candidate hostnames asks. ok (codes "route", hostnames, hostnames ∷ []);
  hostnames_free = λ p names w. (ok tt, w);
  ingress = λ p proxy w. (ok tt, w);
  save_snapshot = λ id files w. (ok tt, w);
  validate_proxy = λ proxy w. (err (message "refused"), w);
  submit = λ r w. (ok tt, w);
}

-- The environment file alone is there.
abbrev before : Files
before path =
    if text_eq path (codes "/srv/mailroom/.env")
    then some (record { body = codes "APP_VERSION=" ++ serving ++ 10 ∷ []; mode = 384 })
    else none

abbrev start : StageState World
start = record {
  disk = record {
    files = before;
    rest = record { journal = holds (operation_at admitted 100); world = (200, false) };
  };
  snapshot = [];
  mutated = false;
  is_staging = false;
}

abbrev end : StageState World
end = (stage_deployment effects request start).1

ran : (stage_deployment effects request start).0 ≡ err (message "refused")
unfolding stage_deployment ◌>>=◌ ◌>>◌ check_identity common_identity operation_identity identifier
    revision is_absolute text_eq clean_path file_name check_version staging_identity commit_id
    check_stage stage_check content_identity same record_now record_phase plan in_contract against
    succeed legal admit write_private_json retire
ran = refl

-- Each write and removal succeeds here.
restorable :
    (files : List StagedFile) (disk : Installed (HostState World))
    → (restore_snapshot effects.files files disk).0 ≡ ok tt
unfolding restore_snapshot restore_file write_file remove_file after_write after_remove ◌>>◌ ◌>>=◌
restorable [] disk = unfold pure in refl
restorable (file ∷ files) disk =
    elim file.exists
      as (λ b.
        (((if b
              then write_file effects.files file.path file.body file.mode
              else remove_file effects.files file.path)
            >> restore_snapshot effects.files files)
          disk).0
        ≡ ok tt) [ true ↦ restorable files _ | false ↦ restorable files _ ]

apart : Apart (installed_paths (codes "/srv/mailroom") route_path)
unfolding installed_paths text_eq
apart = ((refl, (refl, (refl, tt))), ((refl, (refl, tt)), ((refl, tt), (tt, tt))))

stage_deployment-Same_example :
    (end.disk.files ≡ before)
    ⊎ ((p : Authority) × Governs effects request start p
        × Same (installed_paths (codes "/srv/mailroom") route_path) before end.disk.files)
stage_deployment-Same_example =
    stage_deployment-Same effects request start end (message "refused") (ap (λ r. (r, end)) ran)
      (λ p governs. apart)
      (λ changed.
        restorable (attempted effects request start).1.snapshot
          (attempted effects request start).1.disk)
