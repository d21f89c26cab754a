-- ===== src/Transaction/Environment.antt =====
-- The revision in a deployment's environment file: `deployment_version` and `deployment_env` of
-- src/host/workload/transaction.rs. A body is the text that `from_utf8_lossy` makes of it.
use komizo.Prelude.{
  ℕ, Bool, ◌||◌, Option, none, some, List, [], ◌∷◌, ◌++◌, ◌==◌, if◌then◌else◌, is_empty, any, Text,
  codes, strip_prefix, starts_with, split, join,
}
use komizo.Prelude.Result.{message, Result, ok, err, ensure}
use komizo.Prelude.Result.{◌>>=◌, ◌>>◌}
use komizo.Identity.{commit_id}

abbrev pub newline : ℕ
newline = 10

abbrev pub version_key : Text
version_key = codes "APP_VERSION="

-- `line.strip_prefix("APP_VERSION=")`
unfoldable pub value_of : Text → Option Text
unfolding strip_prefix
value_of line = strip_prefix version_key line

-- `line.starts_with("APP_VERSION=")`
unfoldable pub is_version : Text → Bool
unfolding starts_with
is_version line = starts_with version_key line

unfoldable pub version_line : Text → Text
version_line version = version_key ++ version

-- The loop over the lines, from the version found so far.
unfoldable pub find_version : Option Text → List Text → Result (Option Text)
unfolding value_of
find_version version [] = ok version
find_version version (line ∷ lines) = elim (value_of line) [
  | none ↦ find_version version lines
  | some value ↦ elim version [
    | none ↦ find_version (some value) lines
    | some old ↦ err (message "duplicate installed revision")
  ]
]

abbrev or_default : Option Text → Text
or_default none = []
or_default (some t) = t

unfoldable pub deployment_version : Text → Result Text
unfolding find_version
deployment_version body = do
  version ← find_version none (split newline body)
  ensure (is_empty (or_default version) || commit_id (or_default version))
      "installed revision is not a source identity"
  ok (or_default version)

-- `strip_suffix('\n').unwrap_or(body)`
unfoldable pub strip_newline : Text → Text
strip_newline [] = []
strip_newline (c ∷ []) = if c == newline then [] else c ∷ []
strip_newline (c ∷ d ∷ s) = c ∷ strip_newline (d ∷ s)

-- The loop that replaces the lines of the version.
unfoldable pub replace_version : Text → List Text → List Text
unfolding is_version version_line
replace_version version [] = []
replace_version version (line ∷ lines) =
    (if is_version line then version_line version else line) ∷ replace_version version lines

unfoldable pub found : List Text → Bool
unfolding is_version
found lines = any is_version lines

-- The lines that are written.
unfoldable pub new_lines : Text → List Text → List Text
unfolding replace_version found version_line
new_lines version lines =
    if found lines
    then replace_version version lines
    else replace_version version lines ++ version_line version ∷ []

unfoldable pub deployment_env : Text → Text → Result Text
unfolding deployment_version strip_newline new_lines
deployment_env body version = do
  old ← deployment_version body
  ok (join newline (new_lines version (split newline (strip_newline body))) ++ newline ∷ [])
