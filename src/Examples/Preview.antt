-- ===== src/Examples/Preview.antt =====
-- The theorems on preview knobs at one knob file.
use komizo.Prelude.{
  ◌+◌, ◌*◌, ◌^◌, ◌≡◌, refl, Bool, true, false, [], ◌∷◌, ◌++◌, map, arith, if◌then◌else◌, all, Text,
  codes, text_eq, text_eq_refl, is_upper,
}
use komizo.Prelude.Int.{pos, negsuc}
use komizo.Prelude.Result.{ok}
use komizo.Preview.Knob.{Knob, default_knob, parse}
use komizo.Preview.Bounds.{IsBounded, parse-IsBounded}
use komizo.Preview.Budgets.{Reads, parse_amounts}
use komizo.Preview.Hosts.{Target, resolve, target_of}
use komizo.Preview.Ask.{Unicode, shared_ask_allow}
use komizo.Preview.Resolved.{IsResolved, resolve_ok}
use komizo.Preview.Asked.{LeavesPlain, is_plain, shared_ask_allow-resolve}

abbrev body : Text
body =
    codes "SHARED_DOMAIN=pre.example.com"
    ++ 10 ∷ codes "MEM_BUDGET=2g"
    ++ 10 ∷ codes "ASK_PORT=70000"
    ++ 10 ∷ codes "TTL_HOURS=48"
    ++ 10 ∷ []

abbrev quota : Text → Bool
quota value = text_eq value (codes "0.75")

parse-IsBounded_example : IsBounded quota (parse quota body).0
parse-IsBounded_example = parse-IsBounded quota (text_eq_refl (codes "0.75")) body

valid_amounts : (parse quota body).0.invalid_budget ≡ false
unfolding parse
valid_amounts = refl

parsed_budget : (parse quota body).0.memory_budget ≡ 2 * 2 ^ 30
unfolding parse
parsed_budget = refl

parse_amounts_example :
    Reads body (codes "MEM_BUDGET") (parse quota body).0.memory_budget
    × Reads body (codes "PRODUCTION_RESERVE") (parse quota body).0.production_reserve
    × Reads body (codes "DB_MEM_LIMIT") (parse quota body).0.database_reserve
parse_amounts_example = parse_amounts quota body valid_amounts

abbrev knob : Knob
knob = record default_knob { body = codes "SHARED_DOMAIN.web=pre.example.com" ++ 10 ∷ [] }

abbrev target : Target
target = record {
  app = codes "web";
  pr = pos 7;
  domain = codes "pre.example.com";
  host = codes "web-pr7.pre.example.com";
  api_host = codes "web-pr7-api.pre.example.com";
  base_path = [];
}

abbrev quote : Text → Text
quote s = s

resolved : resolve quote knob (codes "web") (pos 7) true ≡ ok target
unfolding resolve
resolved = refl

resolve_ok_example : IsResolved knob (codes "web") (pos 7) true target
resolve_ok_example = resolve_ok quote knob (codes "web") (pos 7) true target resolved (λ path. refl)

abbrev ascii : Unicode
ascii = record { trim = λ s. s; to_lowercase = λ s. map (λ c. if is_upper c then c + 32 else c) s }

ascii_plain : LeavesPlain ascii
ascii_plain s h = (refl, lowered s h)
  where
    lowered : (s : Text) → all is_plain s ≡ true → map (λ c. if is_upper c then c + 32 else c) s ≡ s
    lowered [] h = refl
    lowered (c ∷ s) h = ground (arith, lowered s)

shared_ask_allow-resolve_example : shared_ask_allow ascii knob target.host ≡ true
unfolding komizo.Preview.Hosts.path_domain_for komizo.Preview.Hosts.shared_domain_for
shared_ask_allow-resolve_example =
    shared_ask_allow-resolve ascii quote knob (codes "web") (pos 7) true target ascii_plain resolved
      refl refl

-- An app whose name ends in a hyphen, under a path domain, gets a host whose label does.
abbrev path_knob : Knob
path_knob = record default_knob { body = codes "PATH_DOMAIN.a-=pre.example.com" }

trailing_hyphen :
    resolve quote path_knob (codes "a-") (pos 1) false
    ≡ ok (record {
      app = codes "a-";
      pr = pos 1;
      domain = codes "pre.example.com";
      host = codes "a-.pre.example.com";
      api_host = [];
      base_path = codes "/1";
    })
unfolding resolve
trailing_hyphen = refl

-- A number of hours that wraps.
wrapped_hours : (parse quota (codes "TTL_HOURS=3000000")).0.ttl ≡ negsuc 7646744073709551615
unfolding parse
wrapped_hours = refl
