-- ===== src/Stopped/File.antt =====
-- The state file of an app: `read_state` of src/host/paths.rs and `set_values` of src/host/stopped.rs.
use komizo.Prelude.{
  ℕ, ◌*◌, ◌^◌, Bool, true, false, not, ◌&&◌, Option, none, some, List, [], ◌∷◌, ◌++◌, ltb, leb,
  ◌==◌, if◌then◌else◌, length, is_empty, any, Text, codes, text_eq, split, join, has_byte,
}
use komizo.Prelude.Result.{not_found, Result, ok, err, ensure}
use komizo.Prelude.Result.{◌>>◌}
use komizo.Prelude.Map.{get}
use komizo.Prelude.Affix.{split_once}
use komizo.Operation.Record.{Write, refused, unsynced, written}

abbrev pub newline : ℕ
newline = 10

abbrev pub carriage_return : ℕ
carriage_return = 13

-- `lines()`: the parts that end in a newline, less a carriage return before it, and the rest if
-- there is any.
unfoldable pub without_return : Text → Text
without_return [] = []
without_return (c ∷ s) =
    let rest = without_return s in if c == carriage_return && is_empty s then [] else c ∷ rest

unfoldable pub ended_lines : List Text → List Text
unfolding without_return
ended_lines [] = []
ended_lines (l ∷ []) = if is_empty l then [] else l ∷ []
ended_lines (l ∷ m ∷ ls) = without_return l ∷ ended_lines (m ∷ ls)

unfoldable pub lines : Text → List Text
unfolding ended_lines split
lines body = ended_lines (split newline body)

-- `entry(key).or_insert_with`: the first value of a key stays.
unfoldable pub or_insert : Text → Text → List (Text × Text) → List (Text × Text)
unfolding get
or_insert key value m = elim (get key m) [ some old ↦ m | none ↦ (key, value) ∷ m ]

unfoldable pub add_line : Text → List (Text × Text) → List (Text × Text)
unfolding split_once or_insert
add_line line m = elim (split_once b'=' line) [
  | none ↦ m
  | some (key, value) ↦ or_insert key value m
]

unfoldable pub read_lines : List Text → List (Text × Text) → Result (List (Text × Text))
unfolding add_line
read_lines [] m = ok m
read_lines (line ∷ rest) m = do
  ensure (ltb (length line) (64 * 2 ^ 10)) "app state line exceeds scanner bound"
  read_lines rest (add_line line m)

-- `read_state`, of a file that is there or not.
unfoldable pub read_state : Option Text → Result (List (Text × Text))
unfolding read_lines lines
read_state none = err not_found
read_state (some body) = read_lines (lines body) []

abbrev pub stopped : Text
stopped = codes "STOPPED"

abbrev pub is_one : Option Text → Bool
is_one none = false
is_one (some value) = text_eq value (codes "1")

unfoldable pub stop_of : Result (List (Text × Text)) → Result Bool
unfolding get
stop_of (ok state) = ok (is_one (get stopped state))
stop_of (err not_found) = ok false
stop_of (err f) = err f

-- `is_stopped`
unfoldable pub is_stopped : Option Text → Result Bool
unfolding read_state stop_of
is_stopped file = stop_of (read_state file)

-- `replace("\r\n", "\n")`
unfoldable pub replace_returns : Text → Text
replace_returns [] = []
replace_returns (c ∷ []) = c ∷ []
replace_returns (c ∷ d ∷ s) =
    let rest = replace_returns (d ∷ s) in
    if c == carriage_return && d == newline then rest else c ∷ rest

-- Whether a line sets one of these keys.
unfoldable pub sets_one : List (Text × Text) → Text → Bool
unfolding split_once
sets_one values line = elim (split_once b'=' line) [
  | none ↦ false
  | some (key, value) ↦ any (λ (k, v). text_eq key k) values
]

unfoldable pub keep_lines : List (Text × Text) → List Text → List Text
unfolding sets_one
keep_lines values [] = []
keep_lines values (line ∷ rest) =
    let kept = keep_lines values rest in if sets_one values line then kept else line ∷ kept

-- The lines without the blank ones at the end; `line.trim().is_empty()` is on Unicode white space.
unfoldable pub pop_blank : (is_blank : Text → Bool) → List Text → List Text
pop_blank is_blank [] = []
pop_blank is_blank (line ∷ rest) =
    let kept = pop_blank is_blank rest in if is_empty kept && is_blank line then [] else line ∷ kept

unfoldable pub new_lines : List (Text × Text) → List Text
new_lines [] = []
new_lines ((key, value) ∷ rest) =
    let more = new_lines rest in if is_empty value then more else (key ++ codes "=" ++ value) ∷ more

unfoldable pub new_body : (is_blank : Text → Bool) → List (Text × Text) → Text → Text
unfolding replace_returns keep_lines pop_blank new_lines join split
new_body is_blank values body =
    join newline (
      pop_blank is_blank (keep_lines values (split newline (replace_returns body)))
      ++ new_lines values)
    ++ newline ∷ []

unfoldable pub check_values : List (Text × Text) → Result (Unit {0})
unfolding has_byte
check_values [] = ok tt
check_values ((key, value) ∷ rest) = do
  ensure (not (has_byte newline value) && not (has_byte carriage_return value))
      "a value cannot contain a newline"
  ensure (leb (length value) 128) "a value is longer than 128 bytes"
  check_values rest

abbrev differs : (fingerprint : Text → Text) → Text → Option Text → Bool
differs fingerprint body none = false
differs fingerprint body (some expected) = not (text_eq (fingerprint body) expected)

unfoldable pub write_body : Write → (new : Text) → Option Text → Result Bool × Option Text
write_body (refused f) new file = (err f, file)
write_body (unsynced f) new file = (err f, some new)
write_body written new file = (ok true, some new)

-- `set_values`, under the lock: what it returns and what is in the file then.
unfoldable pub set_values :
    (is_blank : Text → Bool)
    → (fingerprint : Text → Text) → (lock : Result (Unit {0})) → Write
    → List (Text × Text)
    → (expected : Option Text) → Option Text
    → Result Bool × Option Text
unfolding check_values new_body write_body
set_values is_blank fingerprint lock disk values expected file =
    elim (check_values values >> lock) [
      | err f ↦ (err f, file)
      | ok t ↦ elim file [
        | none ↦ (err not_found, none)
        | some body ↦
            if differs fingerprint body expected
            then (ok false, some body)
            else write_body disk (new_body is_blank values body) (some body)
      ]
    ]

abbrev pub marks : (at by : Text) → List (Text × Text)
marks at by = (stopped, codes "1") ∷ (codes "STOPPED_AT", at) ∷ (codes "STOPPED_BY", by) ∷ []

abbrev pub clear_values : List (Text × Text)
clear_values = (stopped, []) ∷ (codes "STOPPED_AT", []) ∷ (codes "STOPPED_BY", []) ∷ []

unfoldable pub mark_stopped :
    (is_blank : Text → Bool)
    → (fingerprint : Text → Text) → (lock : Result (Unit {0})) → Write
    → (at by : Text) → Option Text
    → Result Bool × Option Text
unfolding set_values
mark_stopped is_blank fingerprint lock disk at by file =
    set_values is_blank fingerprint lock disk (marks at by) none file

unfoldable pub clear_stopped :
    (is_blank : Text → Bool)
    → (fingerprint : Text → Text) → (lock : Result (Unit {0})) → Write
    → Option Text
    → Result Bool × Option Text
unfolding set_values
clear_stopped is_blank fingerprint lock disk file =
    set_values is_blank fingerprint lock disk clear_values none file
