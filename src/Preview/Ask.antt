-- ===== src/Preview/Ask.antt =====
-- Which hosts may get a certificate: the `ask` tests of src/host/preview/knob.rs.
use komizo.Prelude.{
  Bool, false, not, ◌&&◌, ◌||◌, Option, none, some, List, [], ◌∷◌, ◌++◌, leb, length, is_empty, all,
  Text, codes, text_eq, is_digit, strip_prefix, starts_with, split,
}
use komizo.Prelude.Int.{pos}
use komizo.Prelude.Affix.{split_once, rsplit_once, strip_suffix}
use komizo.Preview.App.{valid_app}
use komizo.Preview.Settings.{newline, or_whole}
use komizo.Preview.Knob.{Knob}
use komizo.Preview.Hosts.{path_domain_for, shared_domain_for, host_for, api_host_for}

-- `trim` and `to_lowercase` of the standard library, on Unicode text.
pub record Unicode : Type 0 where
  pub trim : Text → Text
  pub to_lowercase : Text → Text

unfoldable pub normal : Unicode → Text → Text
normal u s = u.to_lowercase (u.trim s)

unfoldable pub digits : Text → Bool
digits value = not (is_empty value) && all is_digit value

-- `strip_suffix("-api").unwrap_or(value)`
unfoldable pub without_api : Text → Text
unfolding strip_suffix
without_api value = or_whole value (strip_suffix (codes "-api") value)

unfoldable pub shared_label : Text → Bool
unfolding without_api rsplit_once valid_app digits starts_with
shared_label value = elim (rsplit_once (codes "-pr") (without_api value)) [
  | none ↦ false
  | some (app, pr) ↦ valid_app app && digits pr && not (starts_with (codes "0") pr)
]

-- The label of a host under a domain, both normal.
unfoldable pub label_under : (host domain : Text) → Option Text
unfolding strip_suffix
label_under host domain = strip_suffix (codes "." ++ domain) host

unfoldable pub legacy_ask_allow : Unicode → (host domain : Text) → Bool
unfolding normal label_under strip_prefix digits without_api
legacy_ask_allow u host domain = elim (label_under (normal u host) (normal u domain)) [
  | none ↦ false
  | some label ↦ not (is_empty (normal u domain)) && elim (strip_prefix (codes "pr-") label) [
    | none ↦ false
    | some pr ↦ digits (without_api pr)
  ]
]

-- The test of a shared domain.
unfoldable pub shared_host_allow : Unicode → (host domain : Text) → Bool
unfolding normal label_under shared_label
shared_host_allow u host domain =
    not (is_empty (normal u domain)) && elim (label_under (normal u host) (normal u domain)) [
      | none ↦ false
      | some label ↦ leb (length label) 63 && shared_label label
    ]

-- The test of one app's shared domain.
unfoldable pub app_shared_allow : Unicode → Knob → (host app : Text) → Bool
unfolding shared_domain_for shared_host_allow valid_app normal strip_suffix strip_prefix digits
    without_api
app_shared_allow u k host app =
    let domain = shared_domain_for k app in
    let lower = normal u host in
    let label = or_whole lower (strip_suffix (codes "." ++ u.to_lowercase domain) lower) in
    valid_app app
    && shared_host_allow u host domain
    && elim (strip_prefix (app ++ codes "-pr") label) [
      | none ↦ false
      | some pr ↦ digits (without_api pr)
    ]

-- Some line sets a key of this prefix for an app that passes the test.
unfoldable pub some_line : (prefix : Text) → (allow : Text → Bool) → List Text → Bool
unfolding split_once strip_prefix
some_line prefix allow [] = false
some_line prefix allow (line ∷ lines) =
    let rest = some_line prefix allow lines in
    elim (split_once b'=' line) [
      | none ↦ rest
      | some (key, value) ↦ elim (strip_prefix prefix key) [
        | none ↦ rest
        | some app ↦ allow app || rest
      ]
    ]

unfoldable pub shared_ask_allow : Unicode → Knob → (host : Text) → Bool
unfolding shared_host_allow some_line app_shared_allow split
shared_ask_allow u k host =
    shared_host_allow u host k.shared_domain
    || some_line (codes "SHARED_DOMAIN.") (app_shared_allow u k host) (split newline k.body)

-- The test of one app's path domain.
unfoldable pub app_path_allow : Unicode → Knob → (host app : Text) → Bool
unfolding valid_app path_domain_for host_for api_host_for normal
app_path_allow u k host app =
    valid_app app
    && not (is_empty (path_domain_for k app))
    && (text_eq (normal u host) (host_for k app (pos 1))
        || text_eq (normal u host) (api_host_for k app (pos 1)))

unfoldable pub path_ask_allow : Unicode → Knob → (host : Text) → Bool
unfolding some_line app_path_allow split
path_ask_allow u k host =
    some_line (codes "PATH_DOMAIN.") (app_path_allow u k host) (split newline k.body)
