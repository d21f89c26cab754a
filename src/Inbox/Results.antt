-- ===== src/Inbox/Results.antt =====
-- The results directory: src/host/results.rs, and `claim_atomic` of src/host/store.rs.
use komizo.Prelude.{
  ℕ, ◌+◌, ◌-◌, ◌*◌, ◌^◌, Bool, true, false, ◌&&◌, Option, none, some, List, ◌∷◌, ltb, leb,
  if◌then◌else◌, length, drop, Text, text_eq,
}
use komizo.Prelude.Int.{ℤ, pos}
use komizo.Prelude.Result.{Fault, message, Result, ok, err}
use komizo.Operation.Record.{Time, Write, refused, unsynced, written}
use komizo.Inbox.Command.{valid_command_id}

pub record CommandResult : Type 0 where
  pub v : ℤ
  pub id : Text
  pub op : Text
  pub at : Time
  pub done : Bool
  pub detail : Text

-- A result in the directory, with the time at which its file was last written.
pub record Stored : Type 0 where
  pub result : CommandResult
  pub modified : Time

-- The file of each name, which the code makes of a command's id.
abbrev pub Directory : Type 0
Directory = Text → Option Stored

unfoldable pub put : Text → Stored → Directory → Directory
put id stored directory name = if text_eq name id then some stored else directory name

abbrev pub is_some {ℓ} : {A : Type ℓ} → Option A → Bool
is_some none = false
is_some (some a) = true

-- `applied`
unfoldable pub applied : Directory → Text → Bool
unfolding valid_command_id
applied directory id = valid_command_id id && is_some (directory id)

-- `trim_detail`, with what `from_utf8_lossy` makes of the last bytes; the ellipsis is three bytes.
unfoldable pub trim_detail : (lossy : List ℕ → Text) → Text → Text
trim_detail lossy value =
    if leb (length value) 4096
    then value
    else 226 ∷ 128 ∷ 166 ∷ lossy (drop (length value - 4096) value)

unfoldable pub prepared : (lossy : List ℕ → Text) → CommandResult → CommandResult
unfolding trim_detail
prepared lossy result = record result { v = pos 1; detail = trim_detail lossy result.detail }

abbrev pub bad_id : Fault
bad_id = message "that is not a command id"

-- What a write leaves, and returns.
unfoldable pub stored_write :
    Write → CommandResult → Time → Directory → Result (Unit {0}) × Directory
unfolding put
stored_write (refused f) result now directory = (err f, directory)
stored_write (unsynced f) result now directory =
    (err f, put result.id (record { result = result; modified = now }) directory)
stored_write written result now directory =
    (ok tt, put result.id (record { result = result; modified = now }) directory)

-- `write_result`: the file is replaced.
unfoldable pub write_result :
    (lossy : List ℕ → Text)
    → Write
    → CommandResult
    → Time
    → Directory
    → Result (Unit {0}) × Directory
unfolding prepared stored_write valid_command_id
write_result lossy disk result now directory =
    if valid_command_id result.id
    then stored_write disk (prepared lossy result) now directory
    else (err bad_id, directory)

-- The link of `persist_noclobber`, which an existing file keeps out.
unfoldable pub stored_claim : Write → CommandResult → Time → Directory → Result Bool × Directory
unfolding put
stored_claim (refused f) result now directory = (err f, directory)
stored_claim (unsynced f) result now directory =
    if is_some (directory result.id)
    then (ok false, directory)
    else (err f, put result.id (record { result = result; modified = now }) directory)
stored_claim written result now directory =
    if is_some (directory result.id)
    then (ok false, directory)
    else (ok true, put result.id (record { result = result; modified = now }) directory)

-- `claim_result`
unfoldable pub claim_result :
    (lossy : List ℕ → Text) → Write → CommandResult → Time → Directory → Result Bool × Directory
unfolding prepared stored_claim valid_command_id
claim_result lossy disk result now directory =
    if valid_command_id result.id
    then stored_claim disk (prepared lossy result) now directory
    else (err bad_id, directory)

abbrev pub retained_for : Time
retained_for = 24 * 3600 * 10 ^ 9

-- `prune_results`, with the names whose removal succeeds.
unfoldable pub prune_results : (removes : Text → Bool) → Time → Directory → Directory
prune_results removes now directory name = elim (directory name) [
  | none ↦ none
  | some stored ↦
      if ltb (stored.modified + retained_for) now && removes name then none else some stored
]
