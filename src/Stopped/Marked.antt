-- ===== src/Stopped/Marked.antt =====
-- What is read from a state file in which the owner's stop was marked or cleared: `mark_stopped`,
-- `clear_stopped` and `is_stopped` of src/host/stopped.rs.
use komizo.Prelude.{
  ℕ, ◌*◌, ◌^◌, ◌≡◌, refl, ap, ◌∙◌, inl, inr, Bool, true, false, ◌&&◌, Option, none, some, List, [],
  ◌∷◌, ◌++◌, map, arith, ltb, ◌==◌, if◌then◌else◌, Bool-cases, length, All, Text, text_eq,
  text_eq_sound, text_eq_refl, split, join, has_byte,
}
use komizo.Prelude.Result.{message, Result, ok, err, ensure}
use komizo.Prelude.Result.{◌>>◌}
use mathlib.Core.List.{append_assoc}
use komizo.Prelude.Map.{get}
use komizo.Prelude.Split.{split-part_append}
use komizo.Prelude.Affix.{split_once, onto}
use komizo.Stopped.File.{
  newline, carriage_return, without_return, ended_lines, lines, or_insert, add_line, read_lines,
}

abbrev pub NoNewline : Text → Type 0
NoNewline l = has_byte newline l ≡ false

split-ended :
    (l : Text) (ls : List Text)
    → All NoNewline (l ∷ ls)
    → split newline (join newline (l ∷ ls) ++ newline ∷ []) ≡ (l ∷ ls) ++ [] ∷ []
unfolding join split
split-ended l [] (h, t) = split-part_append newline l [] h
split-ended l (m ∷ ls) (h, hs) =
    ap (split newline) (append_assoc l (newline ∷ join newline (m ∷ ls)) (newline ∷ []))
    ∙ split-part_append newline l (join newline (m ∷ ls) ++ newline ∷ []) h
    ∙ ap (λ r. l ∷ r) (split-ended m ls hs)

ended_lines-append : (ls : List Text) → ended_lines (ls ++ [] ∷ []) ≡ map without_return ls
unfolding ended_lines
ended_lines-append [] = refl
ended_lines-append (l ∷ []) = refl
ended_lines-append (l ∷ m ∷ ls) = ap (λ r. without_return l ∷ r) (ended_lines-append (m ∷ ls))

-- The lines that are written are the lines that are read, less their carriage returns.
pub lines-join :
    (l : Text) (ls : List Text)
    → All NoNewline (l ∷ ls)
    → lines (join newline (l ∷ ls) ++ newline ∷ []) ≡ map without_return (l ∷ ls)
unfolding lines
lines-join l ls h = ap ended_lines (split-ended l ls h) ∙ ended_lines-append (l ∷ ls)

-- The line does not set the key.
abbrev pub Sets : Text → Option (Text × Text) → Type 0
Sets k none = Unit
Sets k (some (key, value)) = text_eq k key ≡ false

abbrev pub shortened : Option (Text × Text) → Option (Text × Text)
shortened none = none
shortened (some (key, value)) = some (key, without_return value)

onto-shortened : (c : ℕ) (o : Option (Text × Text)) → onto c (shortened o) ≡ shortened (onto c o)
onto-shortened c none = refl
onto-shortened c (some (key, value)) = refl

without_return-more : (c d : ℕ) (s : Text) → without_return (c ∷ d ∷ s) ≡ c ∷ without_return (d ∷ s)
unfolding without_return
without_return-more c d s =
    elim (c == carriage_return)
      as (λ b.
        (if b && false then [] else c ∷ without_return (d ∷ s)) ≡ c ∷ without_return (d ∷ s)) [
          | true ↦ refl
          | false ↦ refl
        ]

split_once-step :
    (c : ℕ) (t : Text)
    → split_once b'=' (without_return t) ≡ shortened (split_once b'=' t)
    → split_once b'=' (c ∷ without_return t) ≡ shortened (split_once b'=' (c ∷ t))
unfolding split_once
split_once-step c t ih =
    elim (c == b'=')
      as (λ b.
        (if b then some ([], without_return t) else onto c (split_once b'=' (without_return t)))
        ≡ shortened (if b then some ([], t) else onto c (split_once b'=' t))) [
          | true ↦ refl
          | false ↦ ap (onto c) ih ∙ onto-shortened c (split_once b'=' t)
        ]

-- A line keeps its key without the carriage return.
pub split_once-without_return :
    (s : Text) → split_once b'=' (without_return s) ≡ shortened (split_once b'=' s)
split_once-without_return [] = unfold split_once without_return in refl
split_once-without_return (c ∷ []) = one c
  where
    one : (c : ℕ) → split_once b'=' (without_return (c ∷ [])) ≡ shortened (split_once b'=' (c ∷ []))
    one c = unfold split_once without_return in ground arith
split_once-without_return (c ∷ d ∷ s) =
    ap (split_once b'=') (without_return-more c d s)
    ∙ split_once-step c (d ∷ s) (split_once-without_return (d ∷ s))

pub Sets-shortened : (k : Text) (o : Option (Text × Text)) → Sets k o → Sets k (shortened o)
Sets-shortened k none h = tt
Sets-shortened k (some (key, value)) h = h

get-or_insert :
    (k key value : Text) (m : List (Text × Text))
    → text_eq k key ≡ false
    → get k (or_insert key value m) ≡ get k m
unfolding or_insert get
get-or_insert k key value m e = ground arith

-- Once a key has a value, it stays.
get-add_line :
    (k v line : Text) (m : List (Text × Text)) → get k m ≡ some v → get k (add_line line m) ≡ some v
unfolding add_line or_insert get
get-add_line k v line m h =
    elim (split_once b'=' line)
      as (λ o. get k (elim o [ none ↦ m | some (key, value) ↦ or_insert key value m ]) ≡ some v) [
        | none ↦ h
        | some (key, value) ↦ kept key value
      ]
  where
    kept : (key value : Text) → get k (or_insert key value m) ≡ some v
    kept key value =
        elim (get key m)
            as (λ o.
              get key m ≡ o → get k (elim o [ some old ↦ m | none ↦ (key, value) ∷ m ]) ≡ some v) [
                | some old ↦ λ e. h
                | none ↦ λ e. added e
              ]
          refl
      where
        added : get key m ≡ none → get k ((key, value) ∷ m) ≡ some v
        added e = elim (Bool-cases (text_eq k key)) [
          | inl same ↦ absurd (cc (ap (λ x. get x m) (text_eq_sound k key same), h, e))
          | inr other ↦ rw other h
        ]

get-skipped :
    (k line : Text) (m : List (Text × Text))
    → Sets k (split_once b'=' line)
    → get k m ≡ none
    → get k (add_line line m) ≡ none
unfolding add_line
get-skipped k line m s h =
    elim (split_once b'=' line)
        as (λ o.
          Sets k o
          → get k (elim o [ none ↦ m | some (key, value) ↦ or_insert key value m ]) ≡ none) [
            | none ↦ λ s. h
            | some (key, value) ↦ λ s. get-or_insert k key value m s ∙ h
          ]
      s

get-added :
    (k v line : Text) (m : List (Text × Text))
    → split_once b'=' line ≡ some (k, v)
    → get k m ≡ none
    → get k (add_line line m) ≡ some v
unfolding add_line or_insert get
get-added k v line m e n =
    ap (λ o. get k (elim o [ none ↦ m | some (key, value) ↦ or_insert key value m ])) e
    ∙ ap (λ o. get k (elim o [ some old ↦ m | none ↦ (k, v) ∷ m ])) n
    ∙ ap (λ (b : Bool). if b then some v else get k m) (text_eq_refl k)

-- The value that is read under the key.
abbrev pub Reads : (k v : Text) → Result (List (Text × Text)) → Type 0
Reads k v (ok m) = get k m ≡ some v
Reads k v (err f) = f ≡ message "app state line exceeds scanner bound"

read_lines-kept :
    (k v : Text) (ls : List Text) (m : List (Text × Text))
    → get k m ≡ some v
    → Reads k v (read_lines ls m)
unfolding read_lines
read_lines-kept k v [] m h = h
read_lines-kept k v (l ∷ ls) m h =
    elim (ltb (length l) (64 * 2 ^ 10))
      as (λ b. Reads k v (
        ◌>>◌ {B = List (Text × Text)} (ensure b "app state line exceeds scanner bound")
          (read_lines ls (add_line l m)))) [
            | true ↦ read_lines-kept k v ls (add_line l m) (get-add_line k v l m h)
            | false ↦ refl
          ]

-- Lines that do not set the key, then one that does.
pub read_lines-found :
    (k v : Text) (before : List Text) (line : Text) (after : List Text) (m : List (Text × Text))
    → All (λ l. Sets k (split_once b'=' l)) before
    → split_once b'=' line ≡ some (k, v)
    → get k m ≡ none
    → Reads k v (read_lines (before ++ line ∷ after) m)
unfolding read_lines
read_lines-found k v [] line after m s e n =
    elim (ltb (length line) (64 * 2 ^ 10))
      as (λ b. Reads k v (
        ◌>>◌ {B = List (Text × Text)} (ensure b "app state line exceeds scanner bound")
          (read_lines after (add_line line m)))) [
            | true ↦ read_lines-kept k v after (add_line line m) (get-added k v line m e n)
            | false ↦ refl
          ]
read_lines-found k v (l ∷ before) line after m (s, ss) e n =
    elim (ltb (length l) (64 * 2 ^ 10))
      as (λ b. Reads k v (
        ◌>>◌ {B = List (Text × Text)} (ensure b "app state line exceeds scanner bound")
          (read_lines (before ++ line ∷ after) (add_line l m)))) [
            | true ↦
                read_lines-found k v before line after (add_line l m) ss e (get-skipped k l m s n)
            | false ↦ refl
          ]
