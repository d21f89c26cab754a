-- ===== src/Transaction/Retained.antt =====
-- The retained revisions of an application, which versions may be served from them, and the
-- credential of one operation: `parse_retained`, `rollback_allowed`, `stateful_retry`,
-- `local_current_allowed`, `bootstrap_serving` and `Credentials` of
-- src/host/workload/transaction.rs.
use komizo.Prelude.{
  ℕ, Bool, true, false, not, ◌&&◌, ◌||◌, Option, none, some, List, [], ◌∷◌, ltb, leb, ◌==◌,
  if◌then◌else◌, length, is_empty, all, any, Text, codes, text_eq, is_alphanumeric, starts_with,
  split,
}
use komizo.Prelude.Result.{Result, ok, err, ensure, ok_or}
use komizo.Prelude.Result.{◌>>=◌, ◌>>◌}
use komizo.Prelude.Map.{get, insert}
use komizo.Operation.Phase.{ready, prepared_stopped, reconciled}
use komizo.Operation.Record.{Operation, Time, is_zero}
use komizo.Transaction.Environment.{newline, deployment_version}

-- `split_once('=')`
unfoldable pub split_once : ℕ → Text → Option (Text × Text)
split_once b [] = none
split_once b (c ∷ s) =
    let rest = split_once b s in
    if c == b
    then some ([], s)
    else elim rest [ none ↦ none | some (key, value) ↦ some (c ∷ key, value) ]

abbrev is_none : Option Text → Bool
is_none none = true
is_none (some t) = false

abbrev or_empty : Option Text → Text
or_empty none = []
or_empty (some t) = t

-- One line that is not blank, into the map.
unfoldable pub retain_line : List (Text × Text) → Text → Result (List (Text × Text))
unfolding get insert split_once
retain_line values line = do
  (key, value) ← ok_or (split_once b'=' line) "invalid retained revisions"
  ensure (is_none (get key values)) "invalid retained revisions"
  ok (insert key value values)

-- `line.trim().is_empty()` is the standard library's, on Unicode white space.
module _ (is_blank : Text → Bool) where
  -- The loop over the lines that are not blank.
  unfoldable pub retained_values : List (Text × Text) → List Text → Result (List (Text × Text))
  unfolding retain_line
  retained_values values [] = ok values
  retained_values values (line ∷ lines) = elim (is_blank line) [
    | true ↦ retained_values values lines
    | false ↦ retain_line values line >>= λ more. retained_values more lines
  ]

  -- `parse_retained` of a body of the given number of bytes, once decoded: the current revision,
  -- and the previous one.
  unfoldable pub parse_retained : (bytes : ℕ) → Text → Result (Text × Text)
  unfolding get retained_values
  parse_retained bytes body = do
    ensure (leb bytes 4096) "retention exceeds its bound"
    values ← retained_values [] (split newline body)
    let current = or_empty (get (codes "CURRENT") values)
    ensure (not (is_empty current)) "current revision unavailable"
    ok (current, or_empty (get (codes "PREVIOUS") values))

-- `rollback_allowed`, from what `retained` reads.
unfoldable pub rollback_allowed :
    (require_stateful_contract : Bool) → Result (Text × Text) → Text → Bool
rollback_allowed stateful (err e) version = false
rollback_allowed stateful (ok (current, previous)) version =
    text_eq version current || not stateful && text_eq version previous

-- What `stateful_retry` reads: whether the retention file is missing, what it holds, and when the
-- installed release was verified, if its acceptance can be read and its check passes.
pub record RetryInput : Type 0 where
  pub retention_missing : Bool
  pub retained : Result (Text × Text)
  pub installed_verified_at : Text → Result Time
  pub initial : Result (Unit {0})

unfoldable pub stateful_retry :
    (require_stateful_contract : Bool)
    → RetryInput
    → Text
    → (candidate_verified_at : Time) → Result (Unit {0})
stateful_retry false input version candidate = ok tt
stateful_retry true input version candidate = if input.retention_missing then input.initial else (do
  (current, previous) ← input.retained
  if text_eq current version then ok tt else (do
    installed ← input.installed_verified_at current
    ensure (not (is_zero candidate) && not (is_zero installed) && ltb installed candidate)
        "historical stateful release requires explicit verified post-write recovery; use a forward fix"))

unfoldable pub local_current_allowed : Operation → Text → Bool
local_current_allowed operation serving =
    text_eq operation.candidate serving && elim operation.phase [
      | ready ↦ true
      | prepared_stopped ↦ true
      | reconciled ↦ true
      | _ ↦ false
    ]

-- `bootstrap_serving`, of the trimmed compose file.
unfoldable pub bootstrap_serving : (compose environment : Text) → (retained : Bool) → Result Bool
unfolding deployment_version
bootstrap_serving compose environment retained = do
  version ← deployment_version environment
  ok (retained || not (is_empty version) || not (text_eq compose (codes "services: {}")))

pub record Credentials : Type 0 where
  pub registry : Text
  pub user : Text
  pub password : Text

unfoldable pub is_absent : Credentials → Bool
is_absent c = is_empty c.registry && is_empty c.user && is_empty c.password

unfoldable pub is_username : Text → Bool
is_username user =
    not (is_empty user)
      && leb (length user) 256
      && all (λ b. is_alphanumeric b || b == b'.' || b == b'_' || b == b'@' || b == b'-') user
    || text_eq user (codes "github-actions[bot]")

-- `Credentials::check`, with the policy's `image_prefix`.
unfoldable pub credentials_check : (image_prefix : Text) → Credentials → Result (Unit {0})
unfolding is_absent is_username starts_with
credentials_check image_prefix c =
    if is_absent c
    then ok tt
    else ensure
        (text_eq c.registry (codes "ghcr.io")
          && starts_with (codes "ghcr.io/") image_prefix
          && is_username c.user
          && not (is_empty c.password)
          && leb (length c.password) 16384
          && not (any (λ b. b == 0 || b == 13 || b == 10) c.password))
        "invalid operation-private registry credential"
