-- ===== src/Staging/Stage.antt =====
-- `stage_deployment` of src/host/workload/deployment.rs. The operation file is the journal, the
-- installed files are in the state, and the rest of the machine is the record StageEffects.
use komizo.Prelude.{
  ℕ, Bool, false, ◌&&◌, ◌||◌, Option, none, some, List, [], ◌∷◌, ◌++◌, if◌then◌else◌, Text, codes,
  text_eq,
}
use komizo.Prelude.Int.{pos}
use komizo.Prelude.Result.{not_found, Result, ok, err, ensure}
use komizo.Prelude.Exec.{Exec, pure, lift, ◌>>=◌, ◌>>◌}
use komizo.Operation.Phase.{Phase}
use komizo.Transaction.Retained.{Credentials, is_absent, credentials_check}
use komizo.Reconciliation.Request.{StagedFile, Authority}
use komizo.Identity.{content_identity}
use komizo.Activation.Request.{DeploymentStage, ActivationRequest, check}
use komizo.Activation.Host.{HostEffects, HostState, outside, host_phase}
use komizo.Staging.Files.{FileEffects, Installed}

-- `decode` is `from_utf8_lossy`; `policy` is the digest of the policy file and what `read_policy` makes of it; `accepted` reads the
-- release acceptance and checks it, `slot` is the digest of the credential slot, `volumes` and
-- `image_id` are the trimmed outputs, `configuration` the two files that are copied, `bind` is
-- `compose::validate` and `bind_release`, `secrets` writes the validated file and verifies the secrets,
-- `proxy_asks` reads the proxy's configuration and looks for "ask ".
pub record StageEffects (W : Type 0) : Type 0 where
  pub host : HostEffects W
  pub files : FileEffects (HostState W)
  pub policy : Exec W (Text × Result Authority)
  pub app_dir : Authority → Text
  pub image_prefix : Authority → Text
  pub hash : List ℕ → Text
  pub decode : List ℕ → Text
  pub is_image_digest : Text → Bool
  pub is_blank : List ℕ → Bool
  pub capacity : Exec W (Unit {0})
  pub startup_capacity : Authority → Exec W (Unit {0})
  pub accepted : Authority → Text → Exec W (Unit {0})
  pub slot : Text → Exec W Text
  pub credentials : Text → Exec W Credentials
  pub docker_dir : Text → Exec W (Unit {0})
  pub login : Credentials → Exec W (Unit {0})
  pub remove_slot : Text → Exec W (Unit {0})
  pub remove_slot_dir : Text → Exec W (Unit {0})
  pub pull_configuration : Text → Exec W (Unit {0})
  pub bind_configuration : Authority → Text → Exec W (Unit {0})
  pub volumes : Text → Exec W Text
  pub image_id : Text → Exec W Text
  pub create : Text → Exec W Text
  pub remove_container : Text → Exec W (Unit {0})
  pub configuration : Text → Exec W (List ℕ × List ℕ)
  pub bind : Authority → ActivationRequest → List ℕ → Exec W (List ℕ)
  pub secrets : Authority → (generation : Text) → List ℕ → Exec W (Unit {0})
  pub cached_images : List ℕ → Exec W (Unit {0})
  pub pull_images : Authority → Exec W (Unit {0})
  pub proxy_asks : Authority → Exec W Bool
  pub route : Text → Text → List ℕ → Bool → Result (List ℕ × List ℕ × List Text)
  pub hostnames_free : Authority → List Text → Exec W (Unit {0})
  pub ingress : Authority → Text → Exec W (Unit {0})
  pub save_snapshot : Text → List StagedFile → Exec W (Unit {0})
  pub validate_proxy : Text → Exec W (Unit {0})
  pub submit : ActivationRequest → Exec W (Unit {0})

pub record StageState (W : Type 0) : Type 0 where
  pub disk : Installed (HostState W)
  pub snapshot : List StagedFile
  pub mutated : Bool
  pub is_staging : Bool

-- `compose.yml`, the route, `hostnames` and `.env`.
unfoldable pub installed_paths : (app_dir route_path : Text) → List Text
installed_paths app_dir route_path =
    (app_dir ++ codes "/compose.yml")
    ∷ route_path
    ∷ (app_dir ++ codes "/hostnames")
    ∷ (app_dir ++ codes "/.env")
    ∷ []

abbrev pub is_authority : Option (Text × Text) → ActivationRequest → Bool
is_authority none r = false
is_authority (some (route_path, proxy)) r = text_eq route_path r.route_path && text_eq proxy r.proxy

-- The file system's mode 0o644.
abbrev pub shared_mode : ℕ
shared_mode = 420

abbrev pub private_mode : ℕ
private_mode = 384

abbrev pub is_version : Result Text → Text → Bool
is_version (ok version) previous = text_eq version previous
is_version (err f) previous = false

-- The request that the staged deployment activates.
unfoldable pub configured_request :
    (hash : List ℕ → Text)
    → ActivationRequest
    → DeploymentStage
    → (canonical route : List ℕ) → ActivationRequest
configured_request hash r s canonical route = record r {
  version = pos 1;
  scoped_generation = s.generation;
  stage = none;
  compose_sha256 = hash canonical;
  route_sha256 = hash route;
}

module _ {W : Type 0} (x : StageEffects W) where
  unfoldable pub on_disk : {A : Type 0} → Exec (Installed (HostState W)) A → Exec (StageState W) A
  on_disk m st = let (r, disk) = m st.disk in (r, record st { disk = disk })

  unfoldable pub on_host : {A : Type 0} → Exec (HostState W) A → Exec (StageState W) A
  on_host m st =
      let (r, host) = m st.disk.rest in (r, record st { disk = record st.disk { rest = host } })

  unfoldable pub aside : {A : Type 0} → Exec W A → Exec (StageState W) A
  unfolding on_host outside
  aside m = on_host (outside x.host m)

  unfoldable pub phase : ActivationRequest → Phase → Exec (StageState W) (Unit {0})
  unfolding on_host host_phase
  phase r p = on_host (host_phase x.host r p)

  unfoldable pub clock_check : ActivationRequest → Exec (StageState W) (Unit {0})
  unfolding check
  clock_check r st =
      let (now, w) = x.host.clock st.disk.rest.world in
      (
        check r now,
        record st { disk = record st.disk { rest = record st.disk.rest { world = w } } },
      )

  -- `effects.read` of an installed file.
  unfoldable pub read_installed : Text → Exec (StageState W) (List ℕ)
  read_installed path st =
      let (failure, host) = x.files.read path st.disk.rest in
      (
        elim failure [
          | some f ↦ err f
          | none ↦ elim (st.disk.files path) [ none ↦ err not_found | some file ↦ ok file.body ]
        ],
        record st { disk = record st.disk { rest = host } },
      )

  -- The closure up to the removal of the slot.
  unfoldable pub authorize :
      ActivationRequest → Authority → DeploymentStage → Exec (StageState W) (Unit {0})
  unfolding aside credentials_check is_absent
  authorize r p s = do
    aside x.capacity
    aside (x.startup_capacity p)
    aside (x.accepted p r.candidate)
    slot ← aside (x.slot r.id)
    lift (ensure (text_eq slot s.credential_sha256) "staging credential slot changed")
    credentials ← aside (x.credentials r.id)
    lift (credentials_check (x.image_prefix p) credentials)
    aside (x.docker_dir r.id)
    (if s.local_only
        then lift (
            ensure (text_eq r.candidate r.previous && is_absent credentials)
              "local current reconfiguration cannot carry registry authority")
        else aside (x.login credentials))
    aside (x.remove_slot r.id)

  -- From the reference of the configuration image to the container that is created from it.
  unfoldable pub create_source :
      ActivationRequest → Authority → DeploymentStage → Exec (StageState W) Text
  unfolding aside content_identity
  create_source r p s = do
    let reference = x.image_prefix p ++ codes "config:" ++ r.candidate
    (if s.local_only then pure tt else aside (x.pull_configuration reference))
    aside (x.bind_configuration p reference)
    volumes ← aside (x.volumes reference)
    lift (
        ensure (text_eq volumes (codes "null") || text_eq volumes (codes "{}"))
          "configuration image may not allocate declared volumes")
    immutable ← aside (x.image_id reference)
    lift
        (ensure (x.is_image_digest immutable) "configuration image has no immutable local identity")
    id ← aside (x.create immutable)
    lift (ensure (content_identity id) "invalid owned configuration container identity")
    pure id
