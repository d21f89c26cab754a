-- ===== src/Reconciliation/Request.antt =====
-- What a reconciliation is asked for and what it reads: `Request` and the first checks of `reconcile`
-- of src/host/workload/reconciliation.rs. The operation file is the journal; the other files, Docker
-- and the proxy are the record ReconcileEffects.
use komizo.Prelude.{
  ℕ, zero, suc, ◌/◌, ◌%◌, ◌^◌, Bool, true, false, not, ◌&&◌, ◌||◌, Option, List, [], ◌∷◌, ltb, leb,
  ◌==◌, if◌then◌else◌, length, is_empty, Text, codes, text_eq,
}
use komizo.Prelude.Int.{ℤ, pos, eq_ℤ}
use komizo.Prelude.Result.{Fault, message, not_found, Result, ok, err, ensure}
use komizo.Prelude.Result.{◌>>=◌, ◌>>◌}
use komizo.Prelude.Exec.{Exec}
use komizo.Identity.{operation_identity, commit_id, content_identity}
use komizo.Operation.Phase.{
  Phase, staging, staging_failed, configured, activating, activation_failed, readiness_failed,
  failed, same,
}
use komizo.Operation.Record.{Operation, Journal, absent, unreadable, malformed, holds, Time}
use komizo.Transaction.Environment.{deployment_version}
use komizo.Activation.Request.{ActivationRequest}
use komizo.Activation.Host.{HostEffects}

-- `Request`
pub record Request : Type 0 where
  pub id : Text
  pub candidate : Text
  pub policy_sha256 : Text
  pub phase : Phase
  pub serving : Text
  pub outcome : Text

abbrev pub restore_serving : Text
restore_serving = codes "restore-serving"

abbrev pub accept_candidate : Text
accept_candidate = codes "accept-candidate"

abbrev pub abandon_initial : Text
abandon_initial = codes "abandon-initial"

-- What the code reads of the policy. `deployment` is its route path and its proxy.
pub record Authority : Type 0 where
  pub app : Text
  pub static_serving : Bool
  pub deployment : Option (Text × Text)
  pub require_stateful_contract : Bool

pub record StagedFile : Type 0 where
  pub path : Text
  pub body : List ℕ
  pub exists : Bool
  pub mode : ℕ

pub record Snapshot : Type 0 where
  pub version : ℤ
  pub id : Text
  pub files : List StagedFile

-- The result that is written and returned.
pub record Reconciled : Type 0 where
  pub operation_id : Text
  pub app : Text
  pub candidate : Text
  pub serving : Text
  pub outcome : Text
  pub configuration_restored : Option Bool
  pub at : Time

-- `policy_file` gives the digest of the policy file and what `read_policy` makes of it, `allowed` the
-- four configuration files, `retained` the outcome of reading the retention record and of
-- `parse_retained`, `release_bound` the release acceptance with `bind_release`, and `version_of` the
-- outcome of `deployment_version` of a body.
pub record ReconcileEffects (W : Type 0) : Type 0 where
  pub host : HostEffects W
  pub lock : Exec W (Unit {0})
  pub activation_idle : Exec W (Unit {0})
  pub policy_file : Exec W (Text × Result Authority)
  pub empty_registration : Exec W (Unit {0})
  pub compose_file : Exec W (List ℕ)
  pub snapshot : Text → Exec W Snapshot
  pub environment : Exec W (List ℕ)
  pub allowed : Authority → List Text
  pub same_path : Text → Text → Bool
  pub decoded : List ℕ → Text
  pub retained : Exec W (Text × Text)
  pub release_bound : Authority → Text → List ℕ → Exec W (Unit {0})
  pub state_revision : Exec W Text
  pub is_stopped : Exec W Bool
  pub verify : Text → List ℕ → Exec W (Unit {0})
  pub write : Text → List ℕ → ℕ → Exec W (Unit {0})
  pub remove : Text → Exec W (Unit {0})
  pub compose_stop : ActivationRequest → Exec W (Unit {0})
  pub retain_workload : ActivationRequest → Exec W (Unit {0})
  pub write_result : Reconciled → Exec W (Unit {0})

unfoldable pub check_request : Request → Result (Unit {0})
check_request r = (do
  ensure
      (operation_identity r.id
        && commit_id r.candidate
        && (text_eq r.outcome abandon_initial || commit_id r.serving)
        && content_identity r.policy_sha256)
      "reconciliation requires exact reviewed identities"
  ensure
      (text_eq r.outcome restore_serving
        || text_eq r.outcome accept_candidate
        || text_eq r.outcome abandon_initial)
      "unknown reconciliation outcome")

-- The phases that a reconciliation may end.
unfoldable pub interrupted : Phase → Bool
interrupted staging = true
interrupted staging_failed = true
interrupted configured = true
interrupted activating = true
interrupted activation_failed = true
interrupted readiness_failed = true
interrupted failed = true
interrupted _ = false

-- `read_json` of the operation file, with the two checks of what it holds.
unfoldable pub reviewed : Request → Authority → Journal → Result Operation
unfolding interrupted
reviewed r p absent = err not_found
reviewed r p (unreadable f) = err f
reviewed r p malformed = err (message "invalid host record")
reviewed r p (holds op) =
    if not (
      eq_ℤ op.version (pos 1)
      && text_eq op.app p.app
      && text_eq op.id r.id
      && text_eq op.candidate r.candidate
      && same op.phase r.phase)
    then err (message "reviewed operation changed")
    else if not (interrupted op.phase)
    then err (message "operation is not an interrupted reconciliation fence")
    else ok op

abbrev is_not_found : Fault → Bool
is_not_found not_found = true
is_not_found _ = false

-- The version of a body is the serving one.
unfoldable pub serves : Result Text → Text → Bool
serves (ok version) serving = text_eq version serving
serves (err e) serving = false

-- `mode & 0o022 == 0 && mode & !0o777 == 0`
unfoldable pub protected_mode : ℕ → Bool
protected_mode mode = mode / 2 % 2 == 0 && mode / 16 % 2 == 0 && ltb mode 512

-- The loop over the files of the snapshot, beside the files that may be restored.
unfoldable pub check_files :
    (same_path : Text → Text → Bool) → List StagedFile → List Text → Result (Unit {0})
unfolding protected_mode
check_files same_path [] allowed = ok tt
check_files same_path (file ∷ files) [] =
    err (message "snapshot is outside the four protected configuration files")
check_files same_path (file ∷ files) (path ∷ allowed) = do
  ensure
      (same_path file.path path
        && file.exists
        && protected_mode file.mode
        && leb (length file.body) (2 ^ 20))
      "snapshot is outside the four protected configuration files"
  check_files same_path files allowed

-- The phases of which a restoration may take the configuration back, when a stateful contract binds.
unfoldable pub before_activation : Phase → Bool
before_activation staging = true
before_activation staging_failed = true
before_activation configured = true
before_activation _ = false

-- The file of the snapshot at an index.
unfoldable pub body_at : ℕ → List StagedFile → Result (List ℕ)
body_at n [] = err (message "snapshot revision differs")
body_at zero (file ∷ files) = ok file.body
body_at (suc n) (file ∷ files) = body_at n files

-- The checks of a snapshot that is restored; its result is the compose file that it holds.
unfoldable pub check_snapshot :
    (same_path : Text → Text → Bool)
    → (decoded : List ℕ → Text) → (allowed : List Text) → (serving id : Text) → Snapshot
    → Result (List ℕ)
unfolding check_files body_at serves deployment_version
check_snapshot same_path decoded allowed serving id snapshot = do
  ensure
      (eq_ℤ snapshot.version (pos 1)
        && text_eq snapshot.id id
        && length snapshot.files == length allowed)
      "snapshot identity differs"
  check_files same_path snapshot.files allowed
  environment ← body_at 3 snapshot.files
  ensure (serves (deployment_version (decoded environment)) serving) "snapshot revision differs"
  body_at 0 snapshot.files

-- Whether a missing snapshot is an early refusal, whose configuration was never changed.
unfoldable pub early_refusal : Fault → Authority → Phase → Bool
early_refusal e p phase =
    is_not_found e && not p.static_serving && (same phase staging || same phase staging_failed)

-- The two checks that a restoration starts with.
unfoldable pub restorable : Request → Authority → Operation → Result (Unit {0})
unfolding before_activation
restorable r p op = do
  ensure (not p.require_stateful_contract || before_activation op.phase)
      "stateful activation may have written data; configuration restoration cannot establish compatibility"
  ensure (text_eq r.serving op.previous) "restore-serving requires the existing previous revision"

-- `retained.is_ok_and(…)`
unfoldable pub still_retained : Result (Text × Text) → Text → Bool
still_retained (ok (current, previous)) serving = text_eq current serving
still_retained (err e) serving = false

-- `reconcile_initial`'s first check.
unfoldable pub initial_refusal : Request → Operation → Bool
initial_refusal r op =
    is_empty r.serving
    && is_empty op.previous
    && (same op.phase staging || same op.phase staging_failed)
