-- ===== src/Examples/Transaction.antt =====
-- The transaction theorems at one environment file and one retention record.
use komizo.Prelude.{
  ◌+◌, ◌-◌, ◌≡◌, refl, Bool, ◌&&◌, ◌||◌, [], ◌∷◌, ◌++◌, arith, leb, ◌==◌, length, all, Text, codes,
}
use komizo.Prelude.Result.{ok}
use komizo.Identity.{commit_id, revision}
use komizo.Transaction.Environment.{deployment_version, deployment_env}
use komizo.Transaction.RoundTrip.{deployment_version-deployment_env}
use komizo.Transaction.Retained.{parse_retained}
use komizo.Transaction.Retention.{Trims, retention, parse_retained-retention}

abbrev installed : Text
installed = codes "0123456789abcdef0123456789abcdef01234567"

abbrev next : Text
next = codes "89abcdef0123456789abcdef0123456789abcdef"

abbrev body : Text
body = codes "A=1" ++ 10 ∷ (codes "APP_VERSION=" ++ installed ++ 10 ∷ codes "B=2")

abbrev written : Text
written = codes "A=1" ++ 10 ∷ (codes "APP_VERSION=" ++ next ++ 10 ∷ codes "B=2" ++ 10 ∷ [])

deployed : deployment_env body next ≡ ok written
unfolding deployment_env komizo.Prelude.split commit_id komizo.Prelude.join
deployed = refl

deployment_version-deployment_env_example : deployment_version written ≡ ok next
deployment_version-deployment_env_example =
    deployment_version-deployment_env body written next (unfold commit_id in refl) deployed

abbrev is_blank : Text → Bool
is_blank s = all (λ c. leb 9 c && leb c 13 || c == b' ') s

trims : Trims is_blank
trims = record { empty = refl; letter = λ c s h. ground arith }

parse_retained-retention_example :
    parse_retained is_blank (length (retention next installed)) (retention next installed)
    ≡ ok (next, installed)
parse_retained-retention_example =
    parse_retained-retention is_blank next installed trims (unfold revision in refl)
      (unfold revision in refl)
