-- ===== src/Preview/Form.antt =====
-- The form of the hosts of a preview: `host_for` and `api_host_for` of src/host/preview/knob.rs.
use komizo.Prelude.{
  ℕ, ◌+◌, ◌/◌, ◌%◌, ◌≡◌, refl, sym, ap, ◌∙◌, inl, inr, Bool, true, false, not, none, some, [], ◌∷◌,
  ◌++◌, arith, ltb, ◌==◌, if◌then◌else◌, Bool-cases, and-eq-true, is_empty, all, Text, codes,
  is_digit, is_lower, is_alphanumeric, has_byte,
}
use komizo.Prelude.Int.{ℤ, pos}
use mathlib.Core.List.{append_assoc}
pub use komizo.Prelude.Split.{has_byte-append}
use komizo.Prelude.Affix.{split_once}
use komizo.Resources.Decimal.{print_digits, print_ℕ, print_ℤ, print_ℕ-all}
use komizo.Preview.App.{valid_app, is_app_byte, preview_host}
use komizo.Preview.Knob.{Knob}
use komizo.Preview.Hosts.{
  path_domain_for, shared_domain_for, domain_for, host_for, with_api, api_host_for, last_byte,
}
use komizo.Preview.Label.{ends_well, ends_well-append}

module _ (p : ℕ → Bool) (b : ℕ) (n : p b ≡ false) where
  -- A text of other bytes.
  pub all-has_byte : (s : Text) → all p s ≡ true → has_byte b s ≡ false
  unfolding has_byte
  all-has_byte [] h = refl
  all-has_byte (c ∷ s) h = ground (arith, n, all-has_byte s)

pub all-last_byte :
    (p : ℕ → Bool) (c : ℕ) (s : Text) → all p (c ∷ s) ≡ true → p (last_byte c s) ≡ true
all-last_byte p c [] h = ground arith
all-last_byte p c (d ∷ s) h = all-last_byte p d s (and-eq-true (p c) _ h).1

pub split_once-append :
    (b : ℕ) (s t : Text) → has_byte b s ≡ false → split_once b (s ++ b ∷ t) ≡ some (s, t)
unfolding split_once has_byte
split_once-append b [] t h = ground arith
split_once-append b (c ∷ s) t h = ground (arith, split_once-append b s t)

-- A number that is printed ends in a digit.
pub ends_well-digits : (n : ℕ) → ends_well (print_ℕ n) ≡ true
unfolding print_ℕ print_digits
ends_well-digits n = elim (Bool-cases (ltb n 10)) [
  | inl small ↦ rw small (one n small)
  | inr large ↦ rw large (ends_well-append (print_digits n (n / 10)) ((48 + n % 10) ∷ []) (last n))
]
  where
    one : (n : ℕ) → ltb n 10 ≡ true → is_alphanumeric (48 + n) ≡ true
    one n h = ground arith

    last : (n : ℕ) → is_alphanumeric (48 + n % 10) ≡ true
    last n = ground arith

-- The hosts have a label in front of a domain, which the API's host extends.
pub record IsSplit (k : Knob) (app : Text) (pr : ℤ) : Type 0 where
  pub label : Text
  pub domain : Text
  pub no_dot : has_byte b'.' label ≡ false
  pub well : ends_well label ≡ true
  pub host : host_for k app pr ≡ label ++ b'.' ∷ domain
  pub api_host : api_host_for k app pr ≡ (label ++ codes "-api") ++ b'.' ∷ domain

pub valid_app-bytes : (app : Text) → valid_app app ≡ true → all is_app_byte app ≡ true
unfolding valid_app
valid_app-bytes [] h = absurd (cc)
valid_app-bytes (c ∷ s) h = (and-eq-true (is_lower c) _ h).1

-- Unless its domain is shared, an app's name must end in a letter or a digit.
abbrev pub NoHyphen : Text → Type 0
NoHyphen app = (last_byte 0 app == b'-') ≡ false

valid_app-ends : (app : Text) → valid_app app ≡ true → NoHyphen app → ends_well app ≡ true
valid_app-ends [] h n = unfold valid_app in absurd (cc)
valid_app-ends (c ∷ s) h n =
    ends (last_byte c s) (all-last_byte is_app_byte c s (valid_app-bytes (c ∷ s) h)) n
  where
    ends : (b : ℕ) → is_app_byte b ≡ true → (b == b'-') ≡ false → is_alphanumeric b ≡ true
    ends b h n = ground arith

with_api-append :
    (label domain : Text)
    → has_byte b'.' label ≡ false
    → with_api (label ++ b'.' ∷ domain) ≡ (label ++ codes "-api") ++ b'.' ∷ domain
unfolding with_api
with_api-append label domain n =
    ap
      (λ o. elim o [
        | some (label, domain) ↦ label ++ codes "-api." ++ domain
        | none ↦ label ++ b'.' ∷ domain ++ codes "-api."
      ])
      (split_once-append b'.' label domain n)
    ∙ append_assoc label (codes "-api.") domain
    ∙ sym (append_assoc label (codes "-api") (b'.' ∷ domain))

pub host_for-shared :
    (k : Knob) (app : Text) (pr : ℤ)
    → is_empty (path_domain_for k app) ≡ true
    → is_empty (shared_domain_for k app) ≡ false
    → host_for k app pr ≡ app ++ codes "-pr" ++ print_ℤ pr ++ codes "." ++ shared_domain_for k app
unfolding host_for
host_for-shared k app pr e s =
    ap
      (λ (b : Bool).
        if not b
        then app ++ codes "." ++ path_domain_for k app
        else if not (is_empty (shared_domain_for k app))
        then app ++ codes "-pr" ++ print_ℤ pr ++ codes "." ++ shared_domain_for k app
        else preview_host pr (domain_for k app))
      e
    ∙ ap
        (λ (b : Bool).
          if not b
          then app ++ codes "-pr" ++ print_ℤ pr ++ codes "." ++ shared_domain_for k app
          else preview_host pr (domain_for k app))
        s

host_for-legacy :
    (k : Knob) (app : Text) (pr : ℤ)
    → is_empty (path_domain_for k app) ≡ true
    → is_empty (shared_domain_for k app) ≡ true
    → host_for k app pr ≡ preview_host pr (domain_for k app)
unfolding host_for
host_for-legacy k app pr e s =
    ap
      (λ (b : Bool).
        if not b
        then app ++ codes "." ++ path_domain_for k app
        else if not (is_empty (shared_domain_for k app))
        then app ++ codes "-pr" ++ print_ℤ pr ++ codes "." ++ shared_domain_for k app
        else preview_host pr (domain_for k app))
      e
    ∙ ap
        (λ (b : Bool).
          if not b
          then app ++ codes "-pr" ++ print_ℤ pr ++ codes "." ++ shared_domain_for k app
          else preview_host pr (domain_for k app))
        s

host_for-path :
    (k : Knob) (app : Text) (pr : ℤ)
    → is_empty (path_domain_for k app) ≡ false
    → host_for k app pr ≡ app ++ codes "." ++ path_domain_for k app
unfolding host_for
host_for-path k app pr e =
    ap
      (λ (b : Bool).
        if not b
        then app ++ codes "." ++ path_domain_for k app
        else if not (is_empty (shared_domain_for k app))
        then app ++ codes "-pr" ++ print_ℤ pr ++ codes "." ++ shared_domain_for k app
        else preview_host pr (domain_for k app))
      e

api_host_for-eq :
    (k : Knob) (app : Text) (pr : ℤ) (b : Bool)
    → is_empty (path_domain_for k app) ≡ b
    → api_host_for k app pr ≡ (
        if not b
        then app ++ codes "-api." ++ path_domain_for k app
        else with_api (host_for k app pr))
unfolding api_host_for
api_host_for-eq k app pr b e =
    ap
      (λ (b : Bool).
        if not b
        then app ++ codes "-api." ++ path_domain_for k app
        else with_api (host_for k app pr))
      e

-- What the two methods give under each kind of domain.
module _ (k : Knob) (app : Text) (n : ℕ) (valid : valid_app app ≡ true) where
  app_no_dot : has_byte b'.' app ≡ false
  app_no_dot = all-has_byte is_app_byte b'.' refl app (valid_app-bytes app valid)

  digits_no_dot : has_byte b'.' (print_ℕ n) ≡ false
  digits_no_dot = all-has_byte is_digit b'.' refl (print_ℕ n) (print_ℕ-all n)

  path-IsSplit : is_empty (path_domain_for k app) ≡ false → NoHyphen app → IsSplit k app (pos n)
  path-IsSplit e h = record {
    label = app;
    domain = path_domain_for k app;
    no_dot = app_no_dot;
    well = valid_app-ends app valid h;
    host = host_for-path k app (pos n) e ∙ append_assoc app (codes ".") (path_domain_for k app);
    api_host =
        api_host_for-eq k app (pos n) false e
        ∙ (append_assoc app (codes "-api.") (path_domain_for k app)
            ∙ sym (append_assoc app (codes "-api") (b'.' ∷ path_domain_for k app)));
  }

  -- The label of a host that is not under a path domain.
  label-IsSplit :
      (label domain : Text)
      → is_empty (path_domain_for k app) ≡ true
      → host_for k app (pos n) ≡ label ++ b'.' ∷ domain
      → has_byte b'.' label ≡ false
      → ends_well label ≡ true
      → IsSplit k app (pos n)
  label-IsSplit label domain e host no_dot well = record {
    label = label;
    domain = domain;
    no_dot = no_dot;
    well = well;
    host = host;
    api_host =
        api_host_for-eq k app (pos n) true e
        ∙ ap with_api host
        ∙ with_api-append label domain no_dot;
  }

  shared-IsSplit :
      is_empty (path_domain_for k app) ≡ true
      → is_empty (shared_domain_for k app) ≡ false
      → IsSplit k app (pos n)
  shared-IsSplit e s =
      label-IsSplit (app ++ codes "-pr" ++ print_ℕ n) (shared_domain_for k app) e
        (host_for-shared k app (pos n) e s
          ∙ unfold print_ℤ in
            append_assoc (app ++ codes "-pr" ++ print_ℕ n) (codes ".") (shared_domain_for k app))
        (has_byte-append b'.' _ _
          (has_byte-append b'.' app (codes "-pr") app_no_dot (unfold has_byte in refl))
          digits_no_dot)
        (ends_well-append (app ++ codes "-pr") (print_ℕ n) (ends_well-digits n))

  legacy-IsSplit :
      is_empty (path_domain_for k app) ≡ true
      → is_empty (shared_domain_for k app) ≡ true
      → IsSplit k app (pos n)
  legacy-IsSplit e s =
      label-IsSplit (codes "pr-" ++ print_ℕ n) (domain_for k app) e
        (host_for-legacy k app (pos n) e s
          ∙ unfold preview_host print_ℤ in
            append_assoc (codes "pr-" ++ print_ℕ n) (codes ".") (domain_for k app))
        (has_byte-append b'.' (codes "pr-") _ (unfold has_byte in refl) digits_no_dot)
        (ends_well-append (codes "pr-") (print_ℕ n) (ends_well-digits n))

  pub host_for-IsSplit :
      (is_empty (path_domain_for k app) ≡ false → NoHyphen app) → IsSplit k app (pos n)
  host_for-IsSplit h = elim (Bool-cases (is_empty (path_domain_for k app))) [
    | inr path ↦ path-IsSplit path (h path)
    | inl unpathed ↦ elim (Bool-cases (is_empty (shared_domain_for k app))) [
      | inr shared ↦ shared-IsSplit unpathed shared
      | inl legacy ↦ legacy-IsSplit unpathed legacy
    ]
  ]
