-- ===== src/Operation/Record.antt =====
-- The durable record of a deployment operation: `Operation`, `decode`'s outcomes, `record` of
-- src/workload/operation.rs, and the atomic write of src/statefile.rs.
use komizo.Prelude.{
  ℕ, ◌+◌, ◌-◌, ◌*◌, ◌/◌, ◌%◌, ◌^◌, Bool, true, false, ◌&&◌, ◌||◌, not, List, [], ◌∷◌, Text, text_eq,
  ltb, leb, ◌==◌, if◌then◌else◌, is_empty,
}
use komizo.Prelude.Int.{ℤ, pos, eq_ℤ}
use komizo.Prelude.Result.{Fault, message, Result, ok, err, ensure, ◌>>=◌, ◌>>◌}
use komizo.Identity.{identifier, revision}
use komizo.Operation.Phase.{
  Phase, admitted, staging, staging_failed, configured, activating, readiness_failed, failed,
  activation_failed, reconciled, same, legal, in_contract,
}

-- Nanoseconds since the zero time of src/wire.rs.
abbrev pub Time : Type 0
Time = ℕ

abbrev pub is_zero : Time → Bool
is_zero t = t == 0

pub record Operation : Type 0 where
  pub id : Text
  pub started_at : Time
  pub deadline : Time
  pub version : ℤ
  pub app : Text
  pub candidate : Text
  pub previous : Text
  pub phase : Phase
  pub at : Time

-- What the operation file holds, as `statefile::read` and `decode` find it.
pub data Journal : Type 0 where
  absent : Journal
  unreadable : Fault → Journal
  malformed : Journal
  holds : Operation → Journal

-- How the atomic write of `write_private_json` ends: refused before the rename, failed after it while
-- the directory is synced, or done.
pub data Write : Type 0 where
  refused unsynced : Fault → Write
  written : Write

unfoldable pub write_private_json : Write → Operation → Journal → Result (Unit {0}) × Journal
write_private_json (refused f) op j = (err f, j)
write_private_json (unsynced f) op j = (err f, holds op)
write_private_json written op j = (ok tt, holds op)

-- What the machine answers during one call: the random identity, and the fate of the write.
pub record Machine : Type 0 where
  pub entropy : Result (List ℕ)
  pub disk : Write

-- The arguments of `record`, without the path.
pub record Entry : Type 0 where
  pub app : Text
  pub candidate : Text
  pub previous : Text
  pub phase : Phase
  pub now : Time

abbrev hex_digit : ℕ → ℕ
hex_digit n = if ltb n 10 then b'0' + n else b'a' + (n - 10)

-- `format!("{byte:02x}")` of every byte.
unfoldable pub hex : List ℕ → Text
hex [] = []
hex (b ∷ bs) = hex_digit (b / 16) ∷ hex_digit (b % 16) ∷ hex bs

-- `TimeDelta::minutes(25)`
abbrev pub operation_minutes : Time
operation_minutes = 25 * 60 * 10 ^ 9

-- The phases from which another version may not be admitted.
unfoldable pub fenced : Phase → Bool
fenced activating = true
fenced activation_failed = true
fenced staging = true
fenced staging_failed = true
fenced configured = true
fenced _ = false

-- The phases that may be recorded after the deadline.
unfoldable pub late : Phase → Bool
late failed = true
late staging_failed = true
late activation_failed = true
late readiness_failed = true
late reconciled = true
late _ = false

unfoldable pub fresh : Entry → Operation
fresh e = record {
  id = [];
  started_at = 0;
  deadline = 0;
  version = pos 1;
  app = e.app;
  candidate = e.candidate;
  previous = e.previous;
  phase = e.phase;
  at = e.now;
}

-- A failure of an operation that is activating is recorded as `activation_failed`.
unfoldable pub effective : Entry → Operation → Phase
effective e old =
    if same e.phase failed && same old.phase activating then activation_failed else e.phase

-- The arm `Some(body)` of a record that decodes.
unfoldable pub succeed : Entry → Operation → Result Operation
unfolding fresh effective
succeed e old = do
  ensure (eq_ℤ old.version (pos 1) && text_eq old.app e.app) "invalid existing deployment operation"
  let phase = effective e old
  let op = record (fresh e) { phase = phase }
  ensure (same phase admitted || text_eq old.candidate e.candidate)
      "deployment operation candidate changed"
  ensure (not (same phase admitted) || not (fenced old.phase))
      "interrupted activation needs reconciliation before another version"
  if same phase admitted then ok op else do
    ensure (text_eq e.previous old.previous && legal old.phase phase)
        "invalid deployment operation transition"
    ensure (is_zero old.deadline || leb e.now old.deadline || late phase)
        "deployment operation deadline expired"
    ok (record op { id = old.id; started_at = old.started_at; deadline = old.deadline })

unfoldable pub against : Entry → Journal → Result Operation
against e absent = do
  ensure (same e.phase admitted) "deployment operation must start with admission"
  ok (fresh e)
against e (unreadable f) = err f
against e malformed = err (message "invalid existing deployment operation")
against e (holds old) = succeed e old

-- `getrandom::fill`, with its error renamed.
unfoldable pub identity : Machine → Result (List ℕ)
identity m = elim m.entropy [ ok bytes ↦ ok bytes | err f ↦ err (message "operation identity") ]

-- An admission draws the identity and starts the clock.
unfoldable pub admit : Machine → Entry → Operation → Result Operation
admit m e op =
    if same op.phase admitted
    then (do
      bytes ← identity m
      ok (record op { id = hex bytes; started_at = e.now; deadline = e.now + operation_minutes }))
    else ok op

-- The identity part of an entry.
abbrev pub valid_entry : Entry → Bool
valid_entry e =
    identifier e.app && revision e.candidate && (is_empty e.previous || revision e.previous)

-- The operation that `record` writes.
unfoldable pub plan : Machine → Entry → Journal → Result Operation
plan m e j = do
  ensure (valid_entry e) "invalid deployment operation identity"
  ensure (in_contract e.phase) "invalid deployment operation phase"
  op ← against e j
  admit m e op

abbrev pub write_plan : Machine → Journal → Result Operation → Result (Unit {0}) × Journal
write_plan m j (err f) = (err f, j)
write_plan m j (ok op) = write_private_json m.disk op j

unfoldable pub record_phase : Machine → Entry → Journal → Result (Unit {0}) × Journal
record_phase m e j = write_plan m j (plan m e j)
