-- ===== src/Stateful/Support.antt =====
-- Which releases the data of a release can be handed to: `supports_post_write_state` of
-- src/workload/stateful.rs.
use komizo.Prelude.{
  ◌≡◌, ◌↔◌, All, ap, true, [], arith, Text, text_eq_sound, text_eq_refl, text_eq_complete,
}
use komizo.Prelude.Int.{ℤ, ◌≤ℤ◌, pos_part, neg_part, eq_ℤ→eq}
use komizo.Prelude.Result.{ok, >>=-eq-ok, ensure-eq-ok}
use komizo.Stateful.{
  StatefulContract, check, check_migrations, schema_range, release_identity, collect, check_applied,
  state_supported, supports_post_write_state,
}
use komizo.Stateful.Migrations.{check_applied-collect, Among, check_applied-All, All-check_applied}

-- The three checks of a support, and the migrations.
abbrev Supports : StatefulContract → StatefulContract → ℤ → Type 0
Supports target current observed =
    (check target target.source_revision ≡ ok tt)
    × (check current current.source_revision ≡ ok tt)
    × (state_supported target current observed ≡ true)
    × (check_applied (collect [] current.migrations) target.migrations ≡ ok tt)

Supports-parts :
    (target current : StatefulContract) (observed : ℤ)
    → supports_post_write_state target current observed ≡ ok tt
    → Supports target current observed
unfolding supports_post_write_state
Supports-parts target current observed h =
    let (_, a, h1) = >>=-eq-ok (check target target.source_revision) _ h in
    let (_, b, h2) = >>=-eq-ok (check current current.source_revision) _ h1 in
    let (c, h3) =
      ensure-eq-ok (state_supported target current observed) _
        (check_applied (collect [] current.migrations) target.migrations) h2 in
    (a, b, c, h3)

Supports-intro :
    (target current : StatefulContract) (observed : ℤ)
    → Supports target current observed
    → supports_post_write_state target current observed ≡ ok tt
unfolding supports_post_write_state
Supports-intro target current observed (a, b, c, d) = rw (a, b, c) d

check-parts :
    (c : StatefulContract) (revision : Text)
    → check c revision ≡ ok tt
    → (schema_range c.schema ≡ true) × (check_migrations [] c.migrations ≡ ok tt)
unfolding check
check-parts c revision h =
    let (a, h1) = ensure-eq-ok (release_identity c revision) _ _ h in
    let (b, h2) = ensure-eq-ok (schema_range c.schema) _ _ h1 in
    let (d, h3) = ensure-eq-ok _ _ (check_migrations [] c.migrations) h2 in (b, h3)

state_supported_self :
    (c : StatefulContract)
    → schema_range c.schema ≡ true
    → state_supported c c c.schema.write ≡ true
unfolding schema_range state_supported
state_supported_self c h =
    ground (arith, text_eq_refl c.data_revision, text_eq_refl c.credential_revision)

-- A release whose contract passes its check supports the state that it writes itself, so it can be
-- installed again over its own data.
pub supports_post_write_state_self :
    (c : StatefulContract)
    → check c c.source_revision ≡ ok tt
    → supports_post_write_state c c c.schema.write ≡ ok tt
supports_post_write_state_self c h =
    let (range, distinct) = check-parts c c.source_revision h in
    Supports-intro c c c.schema.write
      (h, h, state_supported_self c range, check_applied-collect [] [] c.migrations distinct)

-- What a release has to share with the one whose data it is handed.
pub record IsCompatible (target current : StatefulContract) (observed : ℤ) : Type 0 where
  pub written : observed ≡ current.schema.write
  pub lowest : target.schema.minimum ≤ℤ observed
  pub highest : observed ≤ℤ target.schema.maximum
  pub data_revision : target.data_revision ≡ current.data_revision
  pub credential_revision : target.credential_revision ≡ current.credential_revision
  pub migrations : All (λ m. Among m.identity m.sha256 current.migrations) target.migrations

state_supported-IsCompatible :
    (target current : StatefulContract) (observed : ℤ)
    → state_supported target current observed ≡ true
    → All (λ m. Among m.identity m.sha256 current.migrations) target.migrations
    → IsCompatible target current observed
unfolding state_supported
state_supported-IsCompatible target current observed h all = record {
  written = eq_ℤ→eq observed current.schema.write (ground arith);
  lowest = ground arith;
  highest = ground arith;
  data_revision = text_eq_sound target.data_revision current.data_revision (ground arith);
  credential_revision =
      text_eq_sound target.credential_revision current.credential_revision (ground arith);
  migrations = all;
}

IsCompatible-state_supported :
    (target current : StatefulContract) (observed : ℤ)
    → IsCompatible target current observed
    → state_supported target current observed ≡ true
unfolding state_supported
IsCompatible-state_supported target current observed c = ground (
  arith,
  c.written,
  ap pos_part c.written,
  ap neg_part c.written,
  c.lowest,
  c.highest,
  text_eq_complete target.data_revision current.data_revision c.data_revision,
  text_eq_complete target.credential_revision current.credential_revision c.credential_revision,
)

-- A release supports the data that another one left exactly when both contracts pass their checks, the schema
-- observed is the one that the other writes and lies in the range that the release can read, the data
-- and the credential revisions are the same, and each migration of the release is, with its
-- checksum, one of the other's.
pub supports_post_write_state_iff :
    (target current : StatefulContract) (observed : ℤ)
    → (supports_post_write_state target current observed ≡ ok tt) ↔ (
        (check target target.source_revision ≡ ok tt)
        × (check current current.source_revision ≡ ok tt)
        × IsCompatible target current observed)
supports_post_write_state_iff target current observed = (
  λ h.
      let (a, b, c, d) = Supports-parts target current observed h in
      (
        a,
        b,
        state_supported-IsCompatible target current observed c
            (check_applied-All current.migrations target.migrations d),
      ),
  λ (a, b, c). Supports-intro target current observed (
    a,
    b,
    IsCompatible-state_supported target current observed c,
    All-check_applied current.migrations target.migrations
        (check-parts current current.source_revision b).1 c.migrations,
  ),
)
