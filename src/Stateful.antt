-- ===== src/Stateful.antt =====
-- The interface between a release and the data it leaves behind: src/workload/stateful.rs.
use komizo.Prelude.{
  ◌-◌, ◌/◌, Bool, false, not, ◌&&◌, ◌||◌, Option, none, some, List, [], ◌∷◌, map, leb, ◌==◌, length,
  all, any, Text, codes, text_eq, is_alphanumeric,
}
use komizo.Prelude.Int.{ℤ, pos, le_ℤ, eq_ℤ}
use komizo.Prelude.Result.{Result, ok, ensure}
use komizo.Prelude.Result.{◌>>=◌, ◌>>◌}
use komizo.Prelude.Map.{get, insert}
use komizo.Identity.{commit_id, content_identity}
pub mod Migrations
pub mod Support

pub record SchemaRange : Type 0 where
  pub minimum : ℤ
  pub maximum : ℤ
  pub write : ℤ

pub record MigrationIdentity : Type 0 where
  pub identity : Text
  pub sha256 : Text

pub record StatefulContract : Type 0 where
  pub version : ℤ
  pub source_revision : Text
  pub schema : SchemaRange
  pub data_revision : Text
  pub credential_revision : Text
  pub migrations : List MigrationIdentity
  pub recovery_action : Text

-- `identity`
unfoldable pub is_identity : Text → Bool
is_identity [] = false
is_identity (c ∷ s) =
    leb (length (c ∷ s)) 128
    && is_alphanumeric c
    && all (λ b. is_alphanumeric b || b == b'_' || b == b'.' || b == b':' || b == b'-') (c ∷ s)

unfoldable pub release_identity : StatefulContract → Text → Bool
unfolding is_identity
release_identity c revision =
    eq_ℤ c.version (pos 1)
    && commit_id c.source_revision
    && text_eq c.source_revision revision
    && is_identity c.data_revision
    && is_identity c.credential_revision
    && leb 1 (length c.migrations)
    && leb (length c.migrations) 128

unfoldable pub schema_range : SchemaRange → Bool
schema_range s =
    le_ℤ (pos 1) s.minimum
    && le_ℤ s.maximum (pos 1000000)
    && le_ℤ s.minimum s.write
    && le_ℤ s.write s.maximum

-- The loop over the migrations, with the names seen.
unfoldable pub check_migrations : (names : List Text) → List MigrationIdentity → Result (Unit {0})
unfolding is_identity
check_migrations names [] = ok tt
check_migrations names (m ∷ ms) = do
  ensure
      (is_identity m.identity && content_identity m.sha256 && not (any (text_eq m.identity) names))
      "invalid or duplicate migration identity/checksum"
  check_migrations (m.identity ∷ names) ms

-- `StatefulContract::check`
unfoldable pub check : StatefulContract → Text → Result (Unit {0})
unfolding release_identity schema_range check_migrations
check c revision = do
  ensure (release_identity c revision) "invalid stateful release identity"
  ensure (schema_range c.schema) "invalid required schema range"
  ensure
      (text_eq c.recovery_action (codes "forward_only")
        || text_eq c.recovery_action (codes "image_rollback"))
      "unsupported data recovery authority"
  check_migrations [] c.migrations

-- `collect` into a map: the last of equal names stays.
unfoldable pub collect : List (Text × Text) → List MigrationIdentity → List (Text × Text)
unfolding insert
collect map [] = map
collect map (m ∷ ms) = collect (insert m.identity m.sha256 map) ms

abbrev pub is_some_eq : Option Text → Text → Bool
is_some_eq none t = false
is_some_eq (some s) t = text_eq s t

-- `migrations.get(identity) == Some(sha256)`
unfoldable pub applied : List (Text × Text) → MigrationIdentity → Bool
unfolding get
applied map m = is_some_eq (get m.identity map) m.sha256

unfoldable pub check_applied : List (Text × Text) → List MigrationIdentity → Result (Unit {0})
unfolding applied
check_applied map [] = ok tt
check_applied map (m ∷ ms) = do
  ensure (applied map m) "applied migration changed or disappeared"
  check_applied map ms

unfoldable pub state_supported : StatefulContract → StatefulContract → ℤ → Bool
state_supported target current observed =
    eq_ℤ observed current.schema.write
    && le_ℤ target.schema.minimum observed
    && le_ℤ observed target.schema.maximum
    && text_eq target.data_revision current.data_revision
    && text_eq target.credential_revision current.credential_revision

unfoldable pub supports_post_write_state :
    (target current : StatefulContract) → (observed_schema : ℤ) → Result (Unit {0})
unfolding check state_supported collect check_applied
supports_post_write_state target current observed = do
  check target target.source_revision
  check current current.source_revision
  ensure (state_supported target current observed)
      "rollback target does not support post-write state"
  check_applied (collect [] current.migrations) target.migrations
