-- ===== src/Preview/Knob.antt =====
-- The knob file: `Knob` and `parse` of src/host/preview/knob.rs.
use komizo.Prelude.{
  ℕ, ◌*◌, ◌%◌, ◌^◌, Bool, true, false, ◌&&◌, Option, none, some, List, [], ◌∷◌, ◌++◌, ltb,
  if◌then◌else◌, is_empty, Text, codes,
}
use komizo.Prelude.Int.{ℤ, pos, pos_part, ◌-ℤ◌, le_ℤ, lt_ℤ}
use komizo.Prelude.Result.{ok, err, is_ok}
use komizo.Preview.Settings.{get, memory_bytes, valid_cpu, parse_i64}

-- Less the cgroup and the profiles, which this file does not set.
pub record Knob : Type 0 where
  pub shared_domain : Text
  pub domain : Text
  -- In nanoseconds.
  pub ttl : ℤ
  pub max : ℤ
  pub mem_limit : Text
  pub cpu_limit : Text
  pub production_reserve : ℕ
  pub database_reserve : ℕ
  pub memory_budget : ℕ
  pub invalid_budget : Bool
  pub ask_port : ℤ
  pub port_range : Text
  pub body : Text

abbrev pub hour : ℕ
hour = 3600 * 10 ^ 9

abbrev pub default_knob : Knob
default_knob = record {
  shared_domain = [];
  domain = [];
  ttl = pos (72 * hour);
  max = pos 5;
  mem_limit = codes "512m";
  cpu_limit = codes "0.75";
  production_reserve = 0;
  database_reserve = 0;
  memory_budget = 0;
  invalid_budget = false;
  ask_port = pos 8487;
  port_range = codes "20000-21000";
  body = [];
}

-- The knob so far, with the settings that were refused.
abbrev pub Parsed : Type 0
Parsed = Knob × List Text

-- `wrapping_mul` of an i64 above 0.
unfoldable pub wrapping_hours : ℤ → ℤ
unfolding ◌-ℤ◌
wrapping_hours n =
    let product = (pos_part n * hour) % 2 ^ 64 in
    if ltb product (2 ^ 63) then pos product else pos product -ℤ pos (2 ^ 64)

-- One key: an empty value changes nothing, and one that cannot be read is refused.
unfoldable pub setting :
    (read : Text → Option (Knob → Knob))
    → (refuse : Knob → Knob) → (key : Text) → (body : Text) → Parsed
    → Parsed
unfolding get
setting read refuse key body (k, bad) = elim (is_empty (get body key)) [
  | true ↦ (k, bad)
  | false ↦ elim (read (get body key)) [
    | some set ↦ (set k, bad)
    | none ↦ (refuse k, bad ++ (key ++ codes "=" ++ get body key) ∷ [])
  ]
]

abbrev pub unchanged : Knob → Knob
unchanged k = k

abbrev pub only_if {ℓ} : {A : Type ℓ} → Bool → A → Option A
only_if b a = if b then some a else none

unfoldable pub count_of : (ℤ → Knob → Knob) → Text → Option (Knob → Knob)
unfolding parse_i64
count_of set value = elim (parse_i64 value) [
  | none ↦ none
  | some number ↦ only_if (lt_ℤ (pos 0) number) (set number)
]

unfoldable pub ttl_of : Text → Option (Knob → Knob)
unfolding count_of wrapping_hours
ttl_of value = count_of (λ number k. record k { ttl = wrapping_hours number }) value

unfoldable pub max_of : Text → Option (Knob → Knob)
unfolding count_of
max_of value = count_of (λ number k. record k { max = number }) value

unfoldable pub mem_limit_of : Text → Option (Knob → Knob)
unfolding memory_bytes
mem_limit_of value = only_if (is_ok (memory_bytes value)) (λ k. record k { mem_limit = value })

unfoldable pub cpu_limit_of : (quota : Text → Bool) → Text → Option (Knob → Knob)
unfolding valid_cpu
cpu_limit_of quota value = only_if (valid_cpu quota value) (λ k. record k { cpu_limit = value })

unfoldable pub budget_of : (ℕ → Knob → Knob) → Text → Option (Knob → Knob)
unfolding memory_bytes
budget_of set value = elim (memory_bytes value) [ ok number ↦ some (set number) | err e ↦ none ]

abbrev pub invalid : Knob → Knob
invalid k = record k { invalid_budget = true }

unfoldable pub ask_port_of : Text → Option (Knob → Knob)
unfolding parse_i64
ask_port_of value = elim (parse_i64 value) [
  | none ↦ none
  | some number ↦
      only_if (le_ℤ (pos 1) number && le_ℤ number (pos 65535)) (λ k. record k { ask_port = number })
]

abbrev pub or_else : Text → Text → Text
or_else value default = if is_empty value then default else value

-- The knob before the settings that are checked.
unfoldable pub named_domains : (body : Text) → Knob
unfolding get
named_domains body = record default_knob {
  body = body;
  shared_domain = get body (codes "SHARED_DOMAIN");
  domain = or_else (get body (codes "DOMAIN")) [];
}

-- The loops over the keys, each with its arms.
unfoldable pub settings : (quota : Text → Bool) → (body : Text) → Parsed → Parsed
unfolding setting ttl_of max_of mem_limit_of cpu_limit_of budget_of ask_port_of
settings quota body start =
    let ttl = setting ttl_of unchanged (codes "TTL_HOURS") body start in
    let max = setting max_of unchanged (codes "MAX_PREVIEWS") body ttl in
    let mem = setting mem_limit_of unchanged (codes "MEM_LIMIT") body max in
    let cpu = setting (cpu_limit_of quota) unchanged (codes "CPU_LIMIT") body mem in
    let budget =
      setting (budget_of (λ number k. record k { memory_budget = number })) invalid
        (codes "MEM_BUDGET") body cpu in
    let reserve =
      setting (budget_of (λ number k. record k { production_reserve = number })) invalid
        (codes "PRODUCTION_RESERVE") body budget in
    let database =
      setting (budget_of (λ number k. record k { database_reserve = number })) invalid
        (codes "DB_MEM_LIMIT") body reserve in
    setting ask_port_of unchanged (codes "ASK_PORT") body database

-- `join(", ")`
unfoldable pub listed : List Text → Text
listed [] = []
listed (s ∷ []) = s
listed (s ∷ t ∷ rest) = s ++ codes ", " ++ listed (t ∷ rest)

unfoldable pub note_of : (bad : List Text) → Text
unfolding listed
note_of [] = []
note_of (s ∷ bad) =
    codes "invalid preview knob values (invalid MEM_BUDGET refuses up; "
    ++ codes "other invalid limits use bounded defaults): "
    ++ listed (s ∷ bad)

unfoldable pub parse : (quota : Text → Bool) → (body : Text) → Knob × Text
unfolding settings note_of named_domains
parse quota body = let (k, bad) = settings quota body (named_domains body, []) in (k, note_of bad)
