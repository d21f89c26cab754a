-- ===== src/Preview/App.antt =====
-- The identities of a preview: src/host/preview/mod.rs.
use komizo.Prelude.{
  ℕ, Bool, false, not, ◌&&◌, ◌||◌, [], ◌∷◌, ◌++◌, map, ◌==◌, if◌then◌else◌, all, Text, codes,
  is_digit, is_lower,
}
use komizo.Prelude.Int.{ℤ, pos, le_ℤ}
use komizo.Prelude.Result.{said, Result, ok, err}
use komizo.Resources.Decimal.{print_ℤ}

-- `"-pr-"`
unfoldable pub project : (app : Text) → (pr : ℤ) → Text
unfolding print_ℤ
project app pr = app ++ codes "-pr-" ++ print_ℤ pr

unfoldable pub db_name : (app : Text) → (pr : ℤ) → Text
unfolding print_ℤ
db_name app pr = map (λ c. if c == b'-' then b'_' else c) app ++ codes "_pr_" ++ print_ℤ pr

unfoldable pub preview_host : (pr : ℤ) → (domain : Text) → Text
unfolding print_ℤ
preview_host pr domain = codes "pr-" ++ print_ℤ pr ++ codes "." ++ domain

abbrev pub is_app_byte : ℕ → Bool
is_app_byte b = is_lower b || is_digit b || b == b'-'

unfoldable pub valid_app : Text → Bool
valid_app [] = false
valid_app (c ∷ app) = is_lower c && all is_app_byte (c ∷ app)

unfoldable pub validate_args : (quote : Text → Text) → (app : Text) → (pr : ℤ) → Result (Unit {0})
unfolding valid_app print_ℤ
validate_args quote app pr =
    if not (valid_app app)
    then err (
        said (
          codes "app name "
          ++ quote app
          ++ codes " is not letters, digits or hyphens starting with a letter"))
    else if le_ℤ (pos 1) pr
    then ok tt
    else err (said (codes "PR number " ++ print_ℤ pr ++ codes " is not a positive integer"))
