-- ===== src/Stopped/Owner.antt =====
-- The owner's stop, marked and read back: `mark_stopped` and `is_stopped` of src/host/stopped.rs.
use komizo.Prelude.{
  ◌≡◌, refl, sym, ap, ◌∙◌, inl, inr, Bool, true, false, not, ◌&&◌, Option, none, some, List, [],
  ◌∷◌, ◌++◌, map, arith, leb, if◌then◌else◌, Bool-cases, length, is_empty, any, All, Text, codes,
  split, join, text_eq, text_eq_sound, text_eq_refl, has_byte,
}
use komizo.Prelude.Result.{◌>>◌}
use komizo.Prelude.Result.{not_found, Result, ok, err, ensure, OfOk, OfOk-ok, >>=-OfOk}
use mathlib.Core.Path.{subst}
use komizo.Operation.Record.{Write, refused, unsynced, written}
use komizo.Prelude.Affix.{split_once}
use komizo.Prelude.Split.{split_parts, has_byte-append}
use komizo.Prelude.Map.{get}
use komizo.Stopped.File.{
  newline, without_return, is_one, lines, read_lines, read_state, stopped, stop_of, is_stopped,
  replace_returns, sets_one, keep_lines, pop_blank, new_lines, new_body, check_values, write_body,
  set_values, mark_stopped, marks,
}
use komizo.Stopped.Marked.{
  NoNewline, Sets, Reads, read_lines-found, lines-join, split_once-without_return, Sets-shortened,
}

abbrev Free : Text → Type 0
Free l = Sets stopped (split_once b'=' l)

pop_blank-All :
    (P : Text → Type 0) (is_blank : Text → Bool) (ls : List Text)
    → All P ls
    → All P (pop_blank is_blank ls)
unfolding pop_blank
pop_blank-All P is_blank [] h = tt
pop_blank-All P is_blank (l ∷ ls) (h, hs) =
    elim (is_empty (pop_blank is_blank ls) && is_blank l)
      as (λ b. All P (if b then [] else l ∷ pop_blank is_blank ls)) [
        | true ↦ tt
        | false ↦ (h, pop_blank-All P is_blank ls hs)
      ]

keep_lines-All :
    (P : Text → Type 0) (values : List (Text × Text)) (ls : List Text)
    → All P ls
    → All P (keep_lines values ls)
unfolding keep_lines
keep_lines-All P values [] h = tt
keep_lines-All P values (l ∷ ls) (h, hs) =
    elim (sets_one values l)
      as (λ b. All P (if b then keep_lines values ls else l ∷ keep_lines values ls)) [
        | true ↦ keep_lines-All P values ls hs
        | false ↦ (h, keep_lines-All P values ls hs)
      ]

text_eq_sym : (a b : Text) → text_eq a b ≡ false → text_eq b a ≡ false
text_eq_sym a b h = elim (Bool-cases (text_eq b a)) [
  | inl same ↦ absurd (cc (text_eq_refl a, ap (text_eq a) (text_eq_sound b a same), h))
  | inr other ↦ other
]

sets_one-Free : (at by l : Text) → sets_one (marks at by) l ≡ false → Free l
unfolding sets_one
sets_one-Free at by l h =
    elim (split_once b'=' l)
        as (λ o.
          elim o [ none ↦ false | some (key, value) ↦ any (λ (k, v). text_eq key k) (marks at by) ]
            ≡ false
          → Sets stopped o) [
            | none ↦ λ h. tt
            | some (key, value) ↦ λ h. text_eq_sym key stopped (first key h)
          ]
      h
  where
    first :
        (key : Text)
        → any (λ (k, v). text_eq key k) (marks at by) ≡ false
        → text_eq key stopped ≡ false
    first key h = ground arith

keep_lines-Free : (at by : Text) (ls : List Text) → All Free (keep_lines (marks at by) ls)
unfolding keep_lines
keep_lines-Free at by [] = tt
keep_lines-Free at by (l ∷ ls) =
    elim (sets_one (marks at by) l)
        as (λ b.
          sets_one (marks at by) l ≡ b
          → All Free (if b then keep_lines (marks at by) ls else l ∷ keep_lines (marks at by) ls)) [
            | true ↦ λ e. keep_lines-Free at by ls
            | false ↦ λ e. (sets_one-Free at by l e, keep_lines-Free at by ls)
          ]
      refl

map-Free : (ls : List Text) → All Free ls → All Free (map without_return ls)
map-Free [] h = tt
map-Free (l ∷ ls) (h, hs) = (
  subst (Sets stopped) (sym (split_once-without_return l))
      (Sets-shortened stopped (split_once b'=' l) h),
  map-Free ls hs,
)

abbrev PlainValue : Text × Text → Type 0
PlainValue (key, value) = has_byte newline value ≡ false

check_values-Plain :
    (values : List (Text × Text)) → OfOk (λ done. All PlainValue values) (check_values values)
unfolding check_values
check_values-Plain [] = tt
check_values-Plain ((key, value) ∷ rest) =
    >>=-OfOk (λ done. All PlainValue ((key, value) ∷ rest))
      (ensure (not (has_byte newline value) && not (has_byte 13 value))
        "a value cannot contain a newline")
      _
      λ done plain.
        >>=-OfOk (λ done. All PlainValue ((key, value) ∷ rest))
          (ensure (leb (length value) 128) "a value is longer than 128 bytes") _
          λ done' short.
            more (check_values rest) (no_newline (has_byte newline value) (has_byte 13 value) plain)
              (check_values-Plain rest)
  where
    more :
        (r : Result (Unit {0}))
        → has_byte newline value ≡ false
        → OfOk (λ done. All PlainValue rest) r
        → OfOk (λ done. All PlainValue ((key, value) ∷ rest)) r
    more (ok t) h hs = (h, hs)
    more (err f) h hs = tt

    no_newline :
        (a b : Bool) {done : Unit {0}}
        → ensure (not a && not b) "a value cannot contain a newline" ≡ ok done
        → a ≡ false
    no_newline false b e = refl
    no_newline true b e = absurd (cc)

-- What is written, where it is written.
module _ (is_blank : Text → Bool) (values : List (Text × Text)) where
  outcome : Result (Unit {0}) → Write → Option Text → Result Bool × Option Text
  unfolding write_body
  outcome (err f) disk file = (err f, file)
  outcome (ok t) disk none = (err not_found, none)
  outcome (ok t) disk (some body) = write_body disk (new_body is_blank values body) (some body)

  Stores : Result (Unit {0}) → Result Bool × Option Text → Type 0
  Stores r o =
      o.0 ≡ ok true → (body : Text) × (r ≡ ok tt) × (o.1 ≡ some (new_body is_blank values body))

  outcome-Stores :
      (r : Result (Unit {0})) (disk : Write) (file : Option Text) → Stores r (outcome r disk file)
  unfolding outcome Stores write_body
  outcome-Stores (err f) disk file h = absurd (cc)
  outcome-Stores (ok t) disk none h = absurd (cc)
  outcome-Stores (ok t) (refused f) (some body) h = absurd (cc)
  outcome-Stores (ok t) (unsynced f) (some body) h = absurd (cc)
  outcome-Stores (ok t) written (some body) h = (body, refl, refl)

  set_values-outcome :
      (fingerprint : Text → Text) (lock : Result (Unit {0})) (disk : Write) (file : Option Text)
      → set_values is_blank fingerprint lock disk values none file
        ≡ outcome (check_values values >> lock) disk file
  unfolding set_values outcome
  set_values-outcome fingerprint lock disk none =
      elim (check_values values >> lock)
        as (λ r.
          elim r as (λ r. Result Bool × Option Text) [
            | err f ↦ (err f, none)
            | ok t ↦ (err not_found, none)
          ]
          ≡ outcome r disk none) [ ok t ↦ refl | err f ↦ refl ]
  set_values-outcome fingerprint lock disk (some body) =
      elim (check_values values >> lock)
        as (λ r.
          elim r as (λ r. Result Bool × Option Text) [
            | err f ↦ (err f, some body)
            | ok t ↦ write_body disk (new_body is_blank values body) (some body)
          ]
          ≡ outcome r disk (some body)) [ ok t ↦ refl | err f ↦ refl ]

-- The lines of the two other marks.
module _ (at by : Text) where
  abbrev others : List Text
  others = new_lines ((codes "STOPPED_AT", at) ∷ (codes "STOPPED_BY", by) ∷ [])

  marked_line : Text → Text → List Text
  marked_line key value = if is_empty value then [] else (key ++ codes "=" ++ value) ∷ []

  others-NoNewline :
      has_byte newline at ≡ false → has_byte newline by ≡ false → All NoNewline others
  unfolding new_lines
  others-NoNewline h k =
      elim (is_empty at)
        as (λ b. All NoNewline (if b then second else (codes "STOPPED_AT=" ++ at) ∷ second)) [
          | true ↦ last
          | false ↦
              (has_byte-append newline (codes "STOPPED_AT=") at (unfold has_byte in refl) h, last)
        ]
    where
      second : List Text
      second = if is_empty by then [] else (codes "STOPPED_BY=" ++ by) ∷ []

      last : All NoNewline second
      last =
          elim (is_empty by)
            as (λ b. All NoNewline (if b then [] else (codes "STOPPED_BY=" ++ by) ∷ [])) [
              | true ↦ tt
              | false ↦
                  (has_byte-append newline (codes "STOPPED_BY=") by (unfold has_byte in refl) k, tt)
            ]

abbrev mark : Text
mark = codes "STOPPED=1"

All-joined : (P : Text → Type 0) (ls ms : List Text) → All P ls → All P ms → All P (ls ++ ms)
All-joined P [] ms h k = k
All-joined P (l ∷ ls) ms (h, hs) k = (h, All-joined P ls ms hs k)

map-joined : (f : Text → Text) (ls ms : List Text) → map f (ls ++ ms) ≡ map f ls ++ map f ms
map-joined f [] ms = refl
map-joined f (l ∷ ls) ms = ap (λ r. f l ∷ r) (map-joined f ls ms)

lines-joined :
    (before : List Text) (line : Text) (after : List Text)
    → All NoNewline (before ++ line ∷ after)
    → lines (join newline (before ++ line ∷ after) ++ newline ∷ [])
      ≡ map without_return (before ++ line ∷ after)
lines-joined [] line after h = lines-join line after h
lines-joined (l ∷ ls) line after h = lines-join l (ls ++ line ∷ after) h

stop_of-Reads :
    (r : Result (List (Text × Text)))
    → Reads stopped (codes "1") r
    → OfOk (λ b. b ≡ true) (stop_of r)
unfolding stop_of
stop_of-Reads (ok m) h = ap is_one h ∙ text_eq_refl (codes "1")
stop_of-Reads (err f) h = subst (λ f. OfOk (λ b. b ≡ true) (stop_of (err f))) (sym h) tt

without_return-mark : without_return mark ≡ mark
unfolding without_return
without_return-mark = refl

split_once-mark : split_once b'=' mark ≡ some (stopped, codes "1")
unfolding split_once
split_once-mark = refl

is_stopped-joined :
    (before after : List Text)
    → All NoNewline before
    → All Free before
    → All NoNewline after
    → OfOk
        (λ b. b ≡ true)
        (is_stopped (some (join newline (before ++ mark ∷ after) ++ newline ∷ [])))
unfolding is_stopped read_state
is_stopped-joined before after h s k = stop_of-Reads _ (
    subst (λ ls. Reads stopped (codes "1") (read_lines ls []))
      (sym (
        lines-joined before mark after
          (All-joined NoNewline before (mark ∷ after) h (unfold has_byte in refl, k))
        ∙ map-joined without_return before (mark ∷ after)))
      (read_lines-found stopped (codes "1") (map without_return before) (without_return mark)
        (map without_return after) [] (map-Free before s)
        (ap (split_once b'=') without_return-mark ∙ split_once-mark) (unfold get in refl)))

locked-Plain :
    (values : List (Text × Text)) (lock : Result (Unit {0}))
    → OfOk (λ done. All PlainValue values) (check_values values >> lock)
locked-Plain values lock = locked (check_values values) (check_values-Plain values)
  where
    locked :
        (r : Result (Unit {0}))
        → OfOk (λ done. All PlainValue values) r
        → OfOk (λ done. All PlainValue values) (r >> lock)
    locked (ok t) h = elim lock as (λ l. OfOk (λ done. All PlainValue values) l) [
      | ok t ↦ h
      | err f ↦ tt
    ]
    locked (err f) h = tt

is_stopped-new_body :
    (is_blank : Text → Bool) (at by body : Text)
    → All PlainValue (marks at by)
    → OfOk (λ b. b ≡ true) (is_stopped (some (new_body is_blank (marks at by) body)))
unfolding new_body new_lines
is_stopped-new_body is_blank at by body h =
    is_stopped-joined _ (others at by)
      (pop_blank-All NoNewline is_blank _
        (keep_lines-All NoNewline (marks at by) _ (split_parts newline (replace_returns body))))
      (pop_blank-All Free is_blank _ (keep_lines-Free at by (split newline (replace_returns body))))
      (others-NoNewline at by h.1.0 h.1.1.0)

-- When the owner's stop is marked without an error, the state file that is left is not read as one of an app
-- that runs: it is read as stopped, or reading it is an error.
pub mark_stopped-is_stopped :
    (is_blank : Text → Bool) (fingerprint : Text → Text) (lock : Result (Unit {0})) (disk : Write)
    (at by : Text) (file : Option Text)
    → (mark_stopped is_blank fingerprint lock disk at by file).0 ≡ ok true
    → OfOk (λ b. b ≡ true) (is_stopped (mark_stopped is_blank fingerprint lock disk at by file).1)
unfolding mark_stopped Stores
mark_stopped-is_stopped is_blank fingerprint lock disk at by file h =
    let (body, good, after) =
      outcome-Stores is_blank (marks at by) (check_values (marks at by) >> lock) disk file (
        sym (ap (λ o. o.0) (set_values-outcome is_blank (marks at by) fingerprint lock disk file))
        ∙ h) in
    subst (λ f. OfOk (λ b. b ≡ true) (is_stopped f))
      (sym (
        ap (λ o. o.1) (set_values-outcome is_blank (marks at by) fingerprint lock disk file)
        ∙ after))
      (is_stopped-new_body is_blank at by body
        (OfOk-ok (λ done. All PlainValue (marks at by)) _ (locked-Plain (marks at by) lock) good))
