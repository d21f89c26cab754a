-- ===== src/Preview/Asked.antt =====
-- The hosts of previews under a shared domain are let in: `shared_ask_allow` against `resolve` in
-- src/host/preview/knob.rs.
use komizo.Prelude.{
  ℕ, ◌<◌, ◌≡◌, refl, sym, ap, ◌∙◌, inl, inr, Bool, true, false, not, ◌&&◌, ◌||◌, none, some, List,
  [], ◌∷◌, ◌++◌, arith, leb, ◌==◌, if◌then◌else◌, Bool-cases, and-eq-true, length, is_empty, all,
  Text, codes, is_digit, strip_prefix, strip_prefix-append, split, has_byte, cons_first,
}
use komizo.Prelude.Int.{ℤ, pos, negsuc}
use komizo.Prelude.Result.{ok}
use mathlib.Core.Path.{subst}
use mathlib.Core.List.{append_assoc}
use komizo.Prelude.Affix.{strip_suffix}
use komizo.Prelude.Split.{split-part_append}
use komizo.Resources.Decimal.{print_ℕ, print_ℤ, print_ℕ-all}
use komizo.Preview.App.{valid_app, is_app_byte}
use komizo.Preview.Settings.{get, newline, or_whole}
use komizo.Preview.Knob.{Knob}
use komizo.Preview.Hosts.{
  path_domain_for, shared_domain_for, valid_label, is_label_byte, Target, resolve,
}
use komizo.Preview.Ask.{
  Unicode, normal, digits, without_api, shared_label, label_under, shared_host_allow,
  app_shared_allow, some_line, shared_ask_allow,
}
use komizo.Preview.Label.{IsHostname}
use komizo.Preview.Form.{all-has_byte, has_byte-append, host_for-shared, valid_app-bytes}
use komizo.Preview.Resolved.{resolve-target, resolve_ok}
use komizo.Preview.Marks.{
  label, label-shared, digits-without_api, some_line-first_value, strip_suffix-append,
}

abbrev pub is_plain : ℕ → Bool
is_plain b = is_label_byte b || b == b'.'

-- Trimming and lowering leave a text of lowercase letters, digits, hyphens and dots as it is.
abbrev pub LeavesPlain : Unicode → Type 0
LeavesPlain u = (s : Text) → all is_plain s ≡ true → (u.trim s ≡ s) × (u.to_lowercase s ≡ s)

plain-cons_first :
    (c : ℕ) (ls : List Text)
    → all (all is_label_byte) (cons_first c ls) ≡ true
    → (is_label_byte c ≡ true) × (all (all is_label_byte) ls ≡ true)
unfolding cons_first
plain-cons_first c [] h = (ground arith, refl)
plain-cons_first c (l ∷ ls) h =
    let (first, rest) = and-eq-true _ _ h in
    let (byte, more) = and-eq-true (is_label_byte c) _ first in (byte, rw (more, rest) refl)

plain-split : (s : Text) → all (all is_label_byte) (split b'.' s) ≡ true → all is_plain s ≡ true
unfolding split
plain-split [] h = refl
plain-split (c ∷ s) h = elim (Bool-cases (c == b'.')) [
  | inl dot ↦ ground (arith, dot, plain-split s)
  | inr byte ↦
      let (good, rest) = plain-cons_first c (split b'.' s) (
        subst
          (λ b.
            all (all is_label_byte) (if b then [] ∷ split b'.' s else cons_first c (split b'.' s))
            ≡ true)
          byte h) in
      rw (good, plain-split s rest) refl
]

label-bytes : (l : Text) → valid_label l ≡ true → all is_label_byte l ≡ true
unfolding valid_label
label-bytes [] h = refl
label-bytes (c ∷ s) h = ground arith

labels-bytes : (ls : List Text) → all valid_label ls ≡ true → all (all is_label_byte) ls ≡ true
labels-bytes [] h = refl
labels-bytes (l ∷ ls) h =
    let (first, rest) = and-eq-true _ _ h in rw (label-bytes l first, labels-bytes ls rest) refl

all-back : (p : ℕ → Bool) (s t : Text) → all p (s ++ t) ≡ true → all p t ≡ true
all-back p [] t h = h
all-back p (c ∷ s) t h = all-back p s t (and-eq-true (p c) _ h).1

module _ (u : Unicode) (l domain : Text)
    (host_same : normal u (l ++ b'.' ∷ domain) ≡ l ++ b'.' ∷ domain)
    (some_domain : is_empty domain ≡ false) (short : leb (length l) 63 ≡ true)
    (shared : shared_label l ≡ true) where
  shared_host_allow-label :
      normal u domain ≡ domain → shared_host_allow u (l ++ b'.' ∷ domain) domain ≡ true
  unfolding shared_host_allow label_under
  shared_host_allow-label domain_same =
      ap
        (λ d.
          not (is_empty d) && elim (strip_suffix (codes "." ++ d) (normal u (l ++ b'.' ∷ domain))) [
            | none ↦ false
            | some label ↦ leb (length label) 63 && shared_label label
          ])
        domain_same
      ∙ ap
          (λ h. not (is_empty domain) && elim (strip_suffix (codes "." ++ domain) h) [
            | none ↦ false
            | some label ↦ leb (length label) 63 && shared_label label
          ])
          host_same
      ∙ ap
          (λ o.
            not (is_empty domain)
            && elim o [ none ↦ false | some label ↦ leb (length label) 63 && shared_label label ])
          (strip_suffix-append (b'.' ∷ domain) l)
      ∙ ground (arith, some_domain, short, shared)

app_shared_allow-host :
    (u : Unicode) (k : Knob) (app : Text) (n : ℕ)
    → valid_app app ≡ true
    → 0 < n
    → shared_host_allow u (label app n ++ b'.' ∷ shared_domain_for k app) (shared_domain_for k app)
      ≡ true
    → normal u (label app n ++ b'.' ∷ shared_domain_for k app)
      ≡ label app n ++ b'.' ∷ shared_domain_for k app
    → u.to_lowercase (shared_domain_for k app) ≡ shared_domain_for k app
    → app_shared_allow u k (label app n ++ b'.' ∷ shared_domain_for k app) app ≡ true
unfolding app_shared_allow
app_shared_allow-host u k app n v p allow host_same domain_same = ground (arith, v, allow, shown)
  where
    domain : Text
    domain = shared_domain_for k app

    host : Text
    host = label app n ++ b'.' ∷ domain

    marked : Text → Bool
    marked l = elim (strip_prefix (app ++ codes "-pr") l) [
      | none ↦ false
      | some pr ↦ digits (without_api pr)
    ]

    shown :
        marked (
          or_whole
            (normal u host)
            (strip_suffix (codes "." ++ u.to_lowercase domain) (normal u host)))
        ≡ true
    shown =
        ap (λ d. marked (or_whole (normal u host) (strip_suffix (codes "." ++ d) (normal u host))))
          domain_same
        ∙ ap (λ h. marked (or_whole h (strip_suffix (codes "." ++ domain) h))) host_same
        ∙ ap (λ o. marked (or_whole host o)) (strip_suffix-append (b'.' ∷ domain) (label app n))
        ∙ ap (λ o. elim o [ none ↦ false | some pr ↦ digits (without_api pr) ])
            (strip_prefix-append (app ++ codes "-pr") (print_ℕ n))
        ∙ digits-without_api app n v p

-- The line of the app's own domain, if it has one.
shared_ask_allow-host :
    (u : Unicode) (k : Knob) (app : Text) (host : Text)
    → valid_app app ≡ true
    → is_empty (shared_domain_for k app) ≡ false
    → shared_host_allow u host (shared_domain_for k app) ≡ true
    → app_shared_allow u k host app ≡ true
    → shared_ask_allow u k host ≡ true
unfolding shared_ask_allow
shared_ask_allow-host u k app host v s general own =
    elim (Bool-cases (is_empty (get k.body (codes "SHARED_DOMAIN." ++ app)))) [
      | inl unset ↦
          ap (λ b. b || lines)
            (subst (λ d. shared_host_allow u host d ≡ true) (common unset) general)
      | inr set ↦ or_right (shared_host_allow u host k.shared_domain) lines (
          some_line-first_value (codes "SHARED_DOMAIN.") app (app_shared_allow u k host)
            (split newline k.body) no_equals (unfold get in set) own)
    ]
  where
    lines : Bool
    lines = some_line (codes "SHARED_DOMAIN.") (app_shared_allow u k host) (split newline k.body)

    common :
        is_empty (get k.body (codes "SHARED_DOMAIN." ++ app)) ≡ true
        → shared_domain_for k app ≡ k.shared_domain
    common e =
        unfold shared_domain_for in
        ap (λ (b : Bool). if b then k.shared_domain else get k.body (codes "SHARED_DOMAIN." ++ app))
          e

    no_equals : has_byte b'=' (codes "SHARED_DOMAIN." ++ app) ≡ false
    no_equals =
        has_byte-append b'=' (codes "SHARED_DOMAIN.") app (unfold has_byte in refl)
          (all-has_byte is_app_byte b'=' refl app (valid_app-bytes app v))

    or_right : (a b : Bool) → b ≡ true → (a || b) ≡ true
    or_right a b h = ground arith

valid_label-short : (l : Text) → valid_label l ≡ true → leb (length l) 63 ≡ true
unfolding valid_label
valid_label-short [] h = refl
valid_label-short (c ∷ s) h = ground arith

label_no_dot : (app : Text) (n : ℕ) → valid_app app ≡ true → has_byte b'.' (label app n) ≡ false
label_no_dot app n v =
    has_byte-append b'.' (app ++ codes "-pr") (print_ℕ n)
      (has_byte-append b'.' app (codes "-pr")
        (all-has_byte is_app_byte b'.' refl app (valid_app-bytes app v)) (unfold has_byte in refl))
      (all-has_byte is_digit b'.' refl (print_ℕ n) (print_ℕ-all n))

-- A host name of that form is let in.
hostname-allowed :
    (u : Unicode) (k : Knob) (app : Text) (n : ℕ)
    → LeavesPlain u
    → valid_app app ≡ true
    → 0 < n
    → is_empty (shared_domain_for k app) ≡ false
    → IsHostname (label app n ++ b'.' ∷ shared_domain_for k app)
    → shared_ask_allow u k (label app n ++ b'.' ∷ shared_domain_for k app) ≡ true
hostname-allowed u k app n plain v p s (size, labels, tld) =
    let domain = shared_domain_for k app in
    let host = label app n ++ b'.' ∷ domain in
    let host_plain = plain-split host (labels-bytes (split b'.' host) labels) in
    let domain_plain =
      (and-eq-true (is_plain b'.') _
        (all-back is_plain (label app n) (b'.' ∷ domain) host_plain)).1 in
    let host_same = same host host_plain in
    let (first, rest) = and-eq-true _ _ (
      sym
        (ap (all valid_label) (split-part_append b'.' (label app n) domain (label_no_dot app n v)))
      ∙ labels) in
    let general =
      shared_host_allow-label u (label app n) domain host_same s
        (valid_label-short (label app n) first) (label-shared app n v p)
        (same domain domain_plain) in
    shared_ask_allow-host u k app host v s general
      (app_shared_allow-host u k app n v p general host_same (plain domain domain_plain).1)
  where
    same : (s : Text) → all is_plain s ≡ true → normal u s ≡ s
    same s h =
        unfold normal in let (trimmed, lowered) = plain s h in ap u.to_lowercase trimmed ∙ lowered

-- Under a shared domain, which may be the app's own, the host of every preview that is resolved is
-- one of those that may get a certificate, given that trimming and lowering leave a text of lowercase
-- letters, digits, hyphens and dots as it is.
pub shared_ask_allow-resolve :
    (u : Unicode) (quote : Text → Text) (k : Knob) (app : Text) (pr : ℤ) (has_api : Bool)
    (target : Target)
    → LeavesPlain u
    → resolve quote k app pr has_api ≡ ok target
    → is_empty (path_domain_for k app) ≡ true
    → is_empty (shared_domain_for k app) ≡ false
    → shared_ask_allow u k target.host ≡ true
shared_ask_allow-resolve u quote k app (negsuc n) has_api target plain e path shared =
    let (valid, positive, host, api) =
      resolve_ok quote k app (negsuc n) has_api target e (λ b. cc) in
    absurd (omega arith)
shared_ask_allow-resolve u quote k app (pos n) has_api target plain e path shared =
    let (valid, positive, host, api) = resolve_ok quote k app (pos n) has_api target e (λ b. cc) in
    let form : target.host ≡ label app n ++ b'.' ∷ shared_domain_for k app =
      resolve-target quote k app (pos n) has_api target e
      ∙ host_for-shared k app (pos n) path shared
      ∙ (unfold print_ℤ in append_assoc (label app n) (codes ".") (shared_domain_for k app)) in
    subst (λ h. shared_ask_allow u k h ≡ true) (sym form)
      (hostname-allowed u k app n plain valid (omega arith) shared (subst IsHostname form host))
