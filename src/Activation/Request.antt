-- ===== src/Activation/Request.antt =====
-- `ActivationRequest`, its stage, and its checks (src/workload/activation.rs, src/workload/policy.rs).
use komizo.Prelude.{
  ◌+◌, ◌≤◌, ◌<◌, ◌≡◌, Bool, true, false, ◌&&◌, ◌||◌, not, ◌++◌, Option, none, some, Text, codes,
  text_eq, ltb, leb, arith, is_empty, if◌then◌else◌,
}
use komizo.Prelude.Int.{ℤ, pos, eq_ℤ}
use komizo.Prelude.Result.{message, Result, ok, err, ensure, ◌>>◌}
use komizo.Identity.{identifier, revision, content_identity, commit_id, operation_identity}
use komizo.CleanPath.{is_absolute, clean_path, file_name}
use komizo.Operation.Record.{Time, is_zero, operation_minutes}

pub record DeploymentStage : Type 0 where
  pub credential_sha256 : Text
  pub local_only : Bool
  pub generation : Text

pub record ActivationRequest : Type 0 where
  pub version : ℤ
  pub id : Text
  pub app : Text
  pub candidate : Text
  pub previous : Text
  pub policy_sha256 : Text
  pub compose_sha256 : Text
  pub route_sha256 : Text
  pub route_path : Text
  pub proxy : Text
  pub deadline : Time
  pub scoped_generation : Text
  pub stage : Option DeploymentStage

unfoldable pub stage_check : DeploymentStage → Result (Unit {0})
stage_check s =
    ensure
      (content_identity s.credential_sha256
        && (is_empty s.generation || operation_identity s.generation))
      "invalid deployment staging request"

abbrev pub is_some_eq : Option Text → Text → Bool
is_some_eq none t = false
is_some_eq (some s) t = text_eq s t

-- The identities that both versions of a request carry.
unfoldable pub common_identity : ActivationRequest → Bool
common_identity r =
    operation_identity r.id
    && identifier r.app
    && revision r.candidate
    && (is_empty r.previous || revision r.previous)
    && content_identity r.policy_sha256
    && identifier r.proxy
    && is_absolute r.route_path
    && text_eq (clean_path r.route_path) r.route_path
    && is_some_eq (file_name r.route_path) (r.app ++ codes ".caddy")
    && not (is_zero r.deadline)

abbrev is_none {ℓ} : {A : Type ℓ} → Option A → Bool
is_none none = true
is_none (some a) = false

unfoldable pub configured_identity : ActivationRequest → Bool
configured_identity r =
    (is_empty r.scoped_generation || operation_identity r.scoped_generation)
    && is_none r.stage
    && content_identity r.compose_sha256
    && content_identity r.route_sha256

unfoldable pub staging_identity : ActivationRequest → Bool
staging_identity r =
    is_empty r.scoped_generation
    && not (is_none r.stage)
    && is_empty r.compose_sha256
    && is_empty r.route_sha256
    && commit_id r.candidate
    && (is_empty r.previous || commit_id r.previous)

-- The checks on the stage; `staging_identity` has found one.
unfoldable pub check_stage : ActivationRequest → Option DeploymentStage → Result (Unit {0})
check_stage r none = ok tt
check_stage r (some s) = do
  ensure (not s.local_only || text_eq r.candidate r.previous)
      "local reconfiguration requires the current serving revision"
  stage_check s

-- `match self.version`
unfoldable pub check_version : ActivationRequest → Result (Unit {0})
check_version r =
    if eq_ℤ r.version (pos 1)
    then ensure (configured_identity r) "invalid configured activation identity"
    else if eq_ℤ r.version (pos 2)
    then (do ensure (staging_identity r) "invalid staging identity"; check_stage r r.stage)
    else err (message "unknown host operation version")

unfoldable pub check_identity : ActivationRequest → Result (Unit {0})
check_identity r = do ensure (common_identity r) "invalid host operation identity"; check_version r

unfoldable pub check : ActivationRequest → Time → Result (Unit {0})
check r now = do
  check_identity r
  ensure (ltb now r.deadline && leb r.deadline (now + operation_minutes))
      "expired or unbounded host activation deadline"

-- The window of a request: it is not over, and ends within 25 minutes.
pub record InWindow (r : ActivationRequest) (now : Time) : Type 0 where
  pub later : now < r.deadline
  pub soon : r.deadline ≤ now + operation_minutes

pub check-parts :
    (r : ActivationRequest) (now : Time)
    → check r now ≡ ok tt
    → (check_identity r ≡ ok tt) × InWindow r now
unfolding check
check-parts r now h = ground arith
