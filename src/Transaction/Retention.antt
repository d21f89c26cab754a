-- ===== src/Transaction/Retention.antt =====
-- The retention record that an activation writes (`retain_workload` of src/host/workload/activation.rs) is
-- read back by `parse_retained` of src/host/workload/transaction.rs.
use komizo.Prelude.{
  ℕ, ◌≤◌, ◌≡◌, refl, ap, ◌∙◌, inl, inr, Bool, true, false, ◌||◌, List, [], ◌∷◌, ◌++◌, arith, leb,
  ◌==◌, ==_iff, Bool-cases, length, is_empty, all, length-append, Text, codes, text_eq, is_upper,
  is_alphanumeric, split, join, has_byte,
}
use komizo.Prelude.Result.{ok}
use komizo.Prelude.Result.{◌>>=◌}
use komizo.Prelude.Map.{get, insert}
use komizo.Prelude.Split.{split-join}
use komizo.Identity.{revision}
use komizo.Transaction.Environment.{newline}
use komizo.Transaction.Lines.{IsLine}
use komizo.Transaction.Retained.{split_once, retain_line, retained_values, parse_retained}

abbrev current_line : Text → Text
current_line candidate = codes "CURRENT=" ++ candidate

abbrev previous_line : Text → Text
previous_line previous = codes "PREVIOUS=" ++ previous

-- `format!("CURRENT={}\nPREVIOUS={}\n", r.candidate, r.previous)`
unfoldable pub retention : (candidate previous : Text) → Text
retention candidate previous =
    current_line candidate ++ newline ∷ (previous_line previous ++ newline ∷ [])

has_byte-all :
    (b : ℕ) (p : ℕ → Bool) (s : Text) → p b ≡ false → all p s ≡ true → has_byte b s ≡ false
unfolding has_byte
has_byte-all b p [] n h = refl
has_byte-all b p (c ∷ s) n h = elim (Bool-cases (c == b)) [
  | inl e ↦ absurd (ground (arith, n, h, ap p ((==_iff c b).0 e)))
  | inr e ↦ ground (arith, has_byte-all b p s n)
]

revision-IsLine : (v : Text) → revision v ≡ true → IsLine v
unfolding revision
revision-IsLine [] h = cc
revision-IsLine (c ∷ s) h =
    has_byte-all newline (λ b. is_alphanumeric b || b == b'.' || b == b'_' || b == b'-') (c ∷ s)
      refl (ground arith)

revision-length : (v : Text) → revision v ≡ true → length v ≤ 128
unfolding revision
revision-length [] h = cc
revision-length (c ∷ s) h = ground arith

revision-nonempty : (v : Text) → revision v ≡ true → is_empty v ≡ false
unfolding revision
revision-nonempty [] h = cc
revision-nonempty (c ∷ s) h = refl

retention-joined :
    (a b : Text) → retention a b ≡ join newline (current_line a ∷ previous_line b ∷ [] ∷ [])
unfolding retention join
retention-joined a b = refl

-- The three lines of a record.
retention-lines :
    (a b : Text)
    → IsLine a
    → IsLine b
    → split newline (retention a b) ≡ current_line a ∷ previous_line b ∷ [] ∷ []
unfolding has_byte
retention-lines a b h k =
    ap (split newline) (retention-joined a b)
    ∙ split-join newline (current_line a) (previous_line b ∷ [] ∷ []) (h, (k, (refl, tt)))

retain_current : (a : Text) → retain_line [] (current_line a) ≡ ok ((codes "CURRENT", a) ∷ [])
unfolding retain_line split_once get insert
retain_current a = refl

retain_previous :
    (a b : Text)
    → retain_line ((codes "CURRENT", a) ∷ []) (previous_line b)
      ≡ ok ((codes "CURRENT", a) ∷ (codes "PREVIOUS", b) ∷ [])
unfolding retain_line split_once get insert text_eq
retain_previous a b = refl

-- `trim` leaves a text alone whose first byte is a letter, and the empty text is blank.
pub record Trims (is_blank : Text → Bool) : Type 0 where
  pub empty : is_blank [] ≡ true
  pub letter : (c : ℕ) (s : Text) → is_upper c ≡ true → is_blank (c ∷ s) ≡ false

retained_values-blank :
    (is_blank : Text → Bool) (values : List (Text × Text)) (line : Text) (lines : List Text)
    → is_blank line ≡ true
    → retained_values is_blank values (line ∷ lines) ≡ retained_values is_blank values lines
unfolding retained_values
retained_values-blank is_blank values line lines h =
    ap
      (λ b. elim b [
        | true ↦ retained_values is_blank values lines
        | false ↦ retain_line values line >>= λ more. retained_values is_blank more lines
      ])
      h

retained_values-line :
    (is_blank : Text → Bool) (values more : List (Text × Text)) (line : Text) (lines : List Text)
    → is_blank line ≡ false
    → retain_line values line ≡ ok more
    → retained_values is_blank values (line ∷ lines) ≡ retained_values is_blank more lines
unfolding retained_values
retained_values-line is_blank values more line lines h k =
    ap
      (λ b. elim b [
        | true ↦ retained_values is_blank values lines
        | false ↦ retain_line values line >>= λ ws. retained_values is_blank ws lines
      ])
      h
    ∙ ap (λ r. r >>= λ ws. retained_values is_blank ws lines) k

retained_values-lines :
    (is_blank : Text → Bool) (a b : Text)
    → Trims is_blank
    → retained_values is_blank [] (current_line a ∷ previous_line b ∷ [] ∷ [])
      ≡ ok ((codes "CURRENT", a) ∷ (codes "PREVIOUS", b) ∷ [])
unfolding retained_values
retained_values-lines is_blank a b trims =
    retained_values-line is_blank [] ((codes "CURRENT", a) ∷ []) (current_line a)
      (previous_line b ∷ [] ∷ []) (trims.letter b'C' (codes "URRENT=" ++ a) refl) (retain_current a)
    ∙ retained_values-line is_blank ((codes "CURRENT", a) ∷ [])
        ((codes "CURRENT", a) ∷ (codes "PREVIOUS", b) ∷ []) (previous_line b) ([] ∷ [])
        (trims.letter b'P' (codes "REVIOUS=" ++ b) refl) (retain_previous a b)
    ∙ retained_values-blank is_blank ((codes "CURRENT", a) ∷ (codes "PREVIOUS", b) ∷ []) [] []
        trims.empty

retention-length :
    (a b : Text) → length a ≤ 128 → length b ≤ 128 → leb (length (retention a b)) 4096 ≡ true
unfolding retention
retention-length a b h k = ground (
  arith,
  length-append a (newline ∷ (previous_line b ++ newline ∷ [])),
  length-append b (newline ∷ []),
)

previous_parts : (b : Text) → (is_empty b || revision b) ≡ true → IsLine b × (length b ≤ 128)
unfolding has_byte
previous_parts [] h = (refl, omega arith)
previous_parts (c ∷ s) h = (revision-IsLine (c ∷ s) h, revision-length (c ∷ s) h)

-- The record that is written for two revisions is read back as those two; the previous one may be
-- absent. White space is as `trim` treats it.
pub parse_retained-retention :
    (is_blank : Text → Bool) (candidate previous : Text)
    → Trims is_blank
    → revision candidate ≡ true
    → (is_empty previous || revision previous) ≡ true
    → parse_retained is_blank (length (retention candidate previous)) (retention candidate previous)
      ≡ ok (candidate, previous)
unfolding parse_retained get text_eq
parse_retained-retention is_blank a b trims h k =
    let (line, short) = previous_parts b k in
    rw
      (
        retention-length a b (revision-length a h) short,
        retention-lines a b (revision-IsLine a h) line,
        retained_values-lines is_blank a b trims,
        revision-nonempty a h,
      )
      refl
