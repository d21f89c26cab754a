-- ===== src/Examples/Stateful.antt =====
-- The theorems on post-write state at one contract.
use komizo.Prelude.{◌-◌, ◌≡◌, ◌↔◌, refl, List, [], ◌∷◌, Text, codes}
use komizo.Prelude.Int.{pos}
use komizo.Prelude.Result.{message, ok, err}
use komizo.Stateful.{MigrationIdentity, StatefulContract, check, supports_post_write_state}
use komizo.Stateful.Support.{
  IsCompatible, supports_post_write_state_self, supports_post_write_state_iff,
}

abbrev hash : Text
hash = codes "0123456789abcdef0123456789abcdef0123456789abcdef0123456789abcdef"

abbrev migration : Text → MigrationIdentity
migration name = record { identity = name; sha256 = hash }

-- A contract with one more migration than the one before it.
abbrev contract : List MigrationIdentity → StatefulContract
contract migrations = record {
  version = pos 1;
  source_revision = codes "0123456789abcdef0123456789abcdef01234567";
  schema = record { minimum = pos 1; maximum = pos 3; write = pos 2 };
  data_revision = codes "data-1";
  credential_revision = codes "keys-1";
  migrations = migrations;
  recovery_action = codes "image_rollback";
}

abbrev one : List MigrationIdentity
one = migration (codes "0001") ∷ []

abbrev two : List MigrationIdentity
two = migration (codes "0002") ∷ one

checked : check (contract two) (contract two).source_revision ≡ ok tt
unfolding check komizo.Identity.commit_id komizo.Prelude.text_eq komizo.Identity.content_identity
checked = refl

supports_post_write_state_self_example :
    supports_post_write_state (contract two) (contract two) (pos 2) ≡ ok tt
supports_post_write_state_self_example = supports_post_write_state_self (contract two) checked

one-two : supports_post_write_state (contract one) (contract two) (pos 2) ≡ ok tt
unfolding supports_post_write_state komizo.Identity.commit_id komizo.Prelude.text_eq
    komizo.Identity.content_identity
one-two = refl

supports_post_write_state_iff_example :
    (supports_post_write_state (contract one) (contract two) (pos 2) ≡ ok tt) ↔ (
      (check (contract one) (contract one).source_revision ≡ ok tt)
      × (check (contract two) (contract two).source_revision ≡ ok tt)
      × IsCompatible (contract one) (contract two) (pos 2))
supports_post_write_state_iff_example =
    supports_post_write_state_iff (contract one) (contract two) (pos 2)

-- A release that has a migration more than the one whose data it is handed.
two-one :
    supports_post_write_state (contract two) (contract one) (pos 2)
    ≡ err (message "applied migration changed or disappeared")
unfolding supports_post_write_state komizo.Identity.commit_id komizo.Prelude.text_eq
    komizo.Identity.content_identity
two-one = refl
