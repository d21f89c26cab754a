-- ===== src/Preview/Hosts.antt =====
-- The domains and hosts of a preview: the methods of `Knob` in src/host/preview/knob.rs.
use komizo.Prelude.{
  ℕ, Bool, true, false, not, ◌&&◌, ◌||◌, none, some, List, [], ◌∷◌, ◌++◌, leb, ◌==◌, if◌then◌else◌,
  length, is_empty, all, any, Text, codes, text_eq, is_digit, is_lower, is_alphanumeric,
  strip_prefix, split, has_byte,
}
use komizo.Prelude.Int.{ℤ}
use komizo.Prelude.Result.{Result, ok, ensure}
use komizo.Prelude.Result.{◌>>◌}
use komizo.Prelude.Affix.{split_once}
use komizo.Prelude.Sort.{le_text, sort_by}
use komizo.Resources.Decimal.{print_ℤ}
use komizo.Preview.App.{preview_host, validate_args}
use komizo.Preview.Settings.{get, newline}
use komizo.Preview.Knob.{Knob, or_else}

unfoldable pub path_domain_for : Knob → (app : Text) → Text
unfolding get
path_domain_for k app = get k.body (codes "PATH_DOMAIN." ++ app)

unfoldable pub shared_domain_for : Knob → (app : Text) → Text
unfolding get
shared_domain_for k app = or_else (get k.body (codes "SHARED_DOMAIN." ++ app)) k.shared_domain

unfoldable pub legacy_domain_for : Knob → (app : Text) → Text
unfolding get
legacy_domain_for k app =
    or_else (get k.body (codes "DOMAIN." ++ app)) (or_else (get k.body (codes "DOMAIN")) k.domain)

unfoldable pub domain_for : Knob → (app : Text) → Text
unfolding path_domain_for shared_domain_for legacy_domain_for
domain_for k app =
    or_else (path_domain_for k app) (or_else (shared_domain_for k app) (legacy_domain_for k app))

unfoldable pub host_for : Knob → (app : Text) → (pr : ℤ) → Text
unfolding path_domain_for shared_domain_for domain_for preview_host print_ℤ
host_for k app pr =
    if not (is_empty (path_domain_for k app))
    then app ++ codes "." ++ path_domain_for k app
    else if not (is_empty (shared_domain_for k app))
    then app ++ codes "-pr" ++ print_ℤ pr ++ codes "." ++ shared_domain_for k app
    else preview_host pr (domain_for k app)

-- The host with its first label extended.
unfoldable pub with_api : (host : Text) → Text
unfolding split_once
with_api host = elim (split_once b'.' host) [
  | some (label, domain) ↦ label ++ codes "-api." ++ domain
  | none ↦ host ++ codes "-api."
]

unfoldable pub api_host_for : Knob → (app : Text) → (pr : ℤ) → Text
unfolding path_domain_for host_for with_api
api_host_for k app pr =
    if not (is_empty (path_domain_for k app))
    then app ++ codes "-api." ++ path_domain_for k app
    else with_api (host_for k app pr)

-- The loop over the lines of `domains`, with those seen.
unfoldable pub app_domains : (body : Text) → (lines seen : List Text) → List Text
unfolding strip_prefix split_once get
app_domains body [] seen = []
app_domains body (line ∷ lines) seen = elim (strip_prefix (codes "DOMAIN.") line) [
  | none ↦ app_domains body lines seen
  | some tail ↦ elim (split_once b'=' tail) [
    | none ↦ app_domains body lines seen
    | some (app, value) ↦
        let domain = get body (codes "DOMAIN." ++ app) in
        elim (is_empty app || is_empty domain || any (text_eq domain) seen) [
          | true ↦ app_domains body lines seen
          | false ↦ domain ∷ app_domains body lines (domain ∷ seen)
        ]
  ]
]

unfoldable pub domains : Knob → List Text
unfolding app_domains sort_by le_text split
domains k =
    let first = if is_empty k.domain then [] else k.domain ∷ [] in
    first ++ sort_by le_text (app_domains k.body (split newline k.body) first)

abbrev pub is_label_byte : ℕ → Bool
is_label_byte b = is_lower b || is_digit b || b == b'-'

abbrev pub last_byte : ℕ → Text → ℕ
last_byte c [] = c
last_byte c (d ∷ s) = last_byte d s

unfoldable pub valid_label : Text → Bool
valid_label [] = false
valid_label (c ∷ s) =
    leb (length (c ∷ s)) 63
    && is_alphanumeric c
    && is_alphanumeric (last_byte c s)
    && all is_label_byte (c ∷ s)

abbrev pub last_label : List Text → Text
last_label [] = []
last_label (l ∷ []) = l
last_label (l ∷ m ∷ ls) = last_label (m ∷ ls)

unfoldable pub alphabetic_tld : Text → Bool
alphabetic_tld tld = leb 2 (length tld) && all is_lower tld

unfoldable pub validate_hosts : Knob → (app : Text) → (pr : ℤ) → Result (Unit {0})
unfolding domain_for api_host_for alphabetic_tld valid_label split has_byte
validate_hosts k app pr = do
  ensure (not (is_empty (domain_for k app))) "preview requires an explicitly configured domain"
  let host = api_host_for k app pr
  ensure (leb (length host) 253 && has_byte b'.' (domain_for k app))
      "preview domain does not produce a valid preview hostname"
  let labels = split b'.' host
  ensure (alphabetic_tld (last_label labels))
      "preview domain must have an alphabetic top-level domain"
  ensure (all valid_label labels) "preview domain or app name does not produce valid DNS labels"

pub record Target : Type 0 where
  pub app : Text
  pub pr : ℤ
  pub domain : Text
  pub host : Text
  pub api_host : Text
  pub base_path : Text

unfoldable pub target_of : Knob → (app : Text) → (pr : ℤ) → (has_api : Bool) → Target
unfolding domain_for host_for api_host_for path_domain_for print_ℤ
target_of k app pr has_api = record {
  app = app;
  pr = pr;
  domain = domain_for k app;
  host = host_for k app pr;
  api_host = if has_api then api_host_for k app pr else [];
  base_path = if is_empty (path_domain_for k app) then [] else codes "/" ++ print_ℤ pr;
}

unfoldable pub resolve :
    (quote : Text → Text) → Knob → (app : Text) → (pr : ℤ) → (has_api : Bool) → Result Target
unfolding validate_args validate_hosts target_of
resolve quote k app pr has_api = do
  validate_args quote app pr
  validate_hosts k app pr
  ok (target_of k app pr has_api)

unfoldable pub service_memory : Knob → (app service : Text) → Text
unfolding get
service_memory k app service =
    let of_service = get k.body (codes "MEM_LIMIT." ++ app ++ codes "." ++ service) in
    let of_app = get k.body (codes "MEM_LIMIT." ++ app) in
    or_else (if is_empty service then [] else of_service) (or_else of_app k.mem_limit)
