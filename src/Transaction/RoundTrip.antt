-- ===== src/Transaction/RoundTrip.antt =====
-- `deployment_env` and `deployment_version` of src/host/workload/transaction.rs undo each other.
use komizo.Prelude.{
  ◌≡◌, refl, sym, ap, ◌∙◌, inl, inr, Bool, true, false, ◌||◌, Option, none, some, List, [], ◌∷◌,
  ◌++◌, arith, if◌then◌else◌, Bool-cases, is_empty, All, Text, strip_prefix, split, join, has_byte,
  split_cons,
}
use komizo.Prelude.Result.{ok, >>=-eq-ok, ok-injective}
use komizo.Prelude.Result.{◌>>=◌}
use mathlib.Core.Path.{subst}
use komizo.Identity.{commit_id}
use komizo.Prelude.Split.{split_parts}
use komizo.Transaction.Environment.{
  newline, value_of, version_line, version_key, find_version, deployment_version, strip_newline,
  replace_version, found, new_lines, deployment_env,
}
use komizo.Transaction.Version.{
  find_version-none, find_version-replace, find_version-append, replace_version-none,
  value_of-version_line,
}
use komizo.Transaction.Lines.{
  IsLine, All-snoc, split-ended, has_byte-append, version-IsLine, split-strip_newline,
}

find_version-front :
    (front back : List Text) (o : Option Text)
    → find_version none (front ++ back) ≡ ok o
    → (w : Option Text) × (find_version none front ≡ ok w)
find_version-front front back o h =
    let (w, e, k) =
      >>=-eq-ok (find_version none front) (λ v. find_version v back)
        (sym (find_version-append none front back) ∙ h) in
    (w, e)

-- A body whose version can be read has a version line at most once among its lines.
stripped_lines :
    (body old : Text)
    → deployment_version body ≡ ok old
    → (w : Option Text) × (find_version none (split newline (strip_newline body)) ≡ ok w)
unfolding deployment_version
stripped_lines body old h =
    let (o, e, k) = >>=-eq-ok (find_version none (split newline body)) _ h in
    elim (split-strip_newline body) [
      | inl same ↦ (o, ap (find_version none) (sym same) ∙ e)
      | inr ended ↦
          find_version-front (split newline (strip_newline body)) ([] ∷ []) o
            (ap (find_version none) (sym ended) ∙ e)
    ]

find_version-version_line : (v : Text) → find_version none (version_line v ∷ []) ≡ ok (some v)
unfolding find_version version_line
find_version-version_line v = rw (value_of-version_line v) refl

find_version-snoc :
    (lines : List Text) (line : Text) (w : Option Text)
    → find_version none lines ≡ ok w
    → find_version none (lines ++ line ∷ []) ≡ find_version w (line ∷ [])
find_version-snoc lines line w h =
    find_version-append none lines (line ∷ [])
    ∙ ap (λ r. ◌>>=◌ {Next = Option Text} r (λ v. find_version v (line ∷ []))) h

find_version-new_lines :
    (v : Text) (lines : List Text) (w : Option Text)
    → find_version none lines ≡ ok w
    → find_version none (new_lines v lines) ≡ ok (some v)
unfolding new_lines
find_version-new_lines v lines w h = elim (Bool-cases (found lines)) [
  | inl e ↦ rw e (find_version-replace v lines w h e)
  | inr e ↦
      ap
        (λ b.
          find_version none
            (if b then replace_version v lines else replace_version v lines ++ version_line v ∷ []))
        e
      ∙ ap (λ ls. find_version none (ls ++ version_line v ∷ [])) (replace_version-none v lines e)
      ∙ find_version-snoc lines (version_line v) none (find_version-none none lines e)
      ∙ find_version-version_line v
]

version_line-IsLine : (v : Text) → IsLine v → IsLine (version_line v)
unfolding version_line has_byte
version_line-IsLine v h = has_byte-append newline version_key v refl h

replace_version-IsLine :
    (v : Text) (lines : List Text)
    → IsLine v
    → All IsLine lines
    → All IsLine (replace_version v lines)
unfolding replace_version
replace_version-IsLine v [] h k = tt
replace_version-IsLine v (line ∷ lines) h k =
    (ground (arith, version_line-IsLine v h, k.0), replace_version-IsLine v lines h k.1)

new_lines-IsLine :
    (v : Text) (lines : List Text) → IsLine v → All IsLine lines → All IsLine (new_lines v lines)
unfolding new_lines
new_lines-IsLine v lines h k =
    elim (found lines)
      as (λ b.
        All IsLine
          (if b then replace_version v lines else replace_version v lines ++ version_line v ∷ [])) [
            | true ↦ replace_version-IsLine v lines h k
            | false ↦
                All-snoc IsLine (replace_version v lines) (version_line v)
                  (replace_version-IsLine v lines h k) (version_line-IsLine v h)
          ]

-- There is a line to write.
new_lines-cons :
    (v line : Text) (lines : List Text)
    → (l : Text) × (ls : List Text) × (new_lines v (line ∷ lines) ≡ l ∷ ls)
unfolding new_lines replace_version
new_lines-cons v line lines = either (found (line ∷ lines)) _ _ _
  where
    either :
        (b : Bool) (x : Text) (xs ys : List Text)
        → (l : Text) × (ls : List Text) × ((if b then x ∷ xs else x ∷ ys) ≡ l ∷ ls)
    either true x xs ys = (_, _, refl)
    either false x xs ys = (_, _, refl)

find_version-some_ended : (v : Text) → find_version (some v) ([] ∷ []) ≡ ok (some v)
unfolding find_version value_of strip_prefix
find_version-some_ended v = refl

-- The version is found in the lines of what is written.
find_version-written :
    (v : Text) (lines : List Text) (w : Option Text)
    → IsLine v
    → All IsLine lines
    → find_version none lines ≡ ok w
    → (l : Text) × (ls : List Text) × (new_lines v lines ≡ l ∷ ls)
    → find_version none (split newline (join newline (new_lines v lines) ++ newline ∷ []))
      ≡ ok (some v)
find_version-written v lines w h k f (l, ls, e) =
    ap (λ ms. find_version none (split newline (join newline ms ++ newline ∷ []))) e
    ∙ ap (find_version none)
        (split-ended l ls (subst (All IsLine) e (new_lines-IsLine v lines h k)))
    ∙ find_version-snoc (l ∷ ls) [] (some v)
        (ap (find_version none) (sym e) ∙ find_version-new_lines v lines w f)
    ∙ find_version-some_ended v

deployment_version-read :
    (out version : Text)
    → (is_empty version || commit_id version) ≡ true
    → find_version none (split newline out) ≡ ok (some version)
    → deployment_version out ≡ ok version
unfolding deployment_version
deployment_version-read out version v h = rw (h, v) refl

-- What `deployment_env` writes is a body whose version `deployment_version` reads back: for an empty
-- version or a source identity, whatever other lines the body has.
pub deployment_version-deployment_env :
    (body out version : Text)
    → (is_empty version || commit_id version) ≡ true
    → deployment_env body version ≡ ok out
    → deployment_version out ≡ ok version
unfolding deployment_env
deployment_version-deployment_env body out version v h =
    let (old, e, k) = >>=-eq-ok (deployment_version body) _ h in
    let (w, f) = stripped_lines body old e in
    let lines = split newline (strip_newline body) in
    let (l, ls, s) = split_cons newline (strip_newline body) in
    let cons =
      subst (λ ms. (l : Text) × (ls : List Text) × (new_lines version ms ≡ l ∷ ls)) (sym s)
        (new_lines-cons version l ls) in
    let read =
      find_version-written version lines w (version-IsLine version v)
        (split_parts newline (strip_newline body)) f cons in
    deployment_version-read out version v
      (ap (λ o. find_version none (split newline o)) (sym (ok-injective _ _ k)) ∙ read)
