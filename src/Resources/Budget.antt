-- ===== src/Resources/Budget.antt =====
-- The operator's protected budgets: `ServiceBudget` and `ResourcePolicy` of
-- src/workload/resources.rs, and their checks.
use komizo.Prelude.{
  ◌*◌, ◌^◌, Bool, false, not, ◌&&◌, ◌||◌, none, some, List, [], ◌∷◌, leb, length, is_empty, Text,
  codes, text_eq, strip_prefix, starts_with,
}
use komizo.Prelude.Int.{ℤ, pos, le_ℤ, lt_ℤ}
use komizo.Prelude.Result.{Result, ok, ensure}
use komizo.Prelude.Result.{◌>>◌}
use komizo.Prelude.Map.{get}
use komizo.Identity.{identifier}

pub record ServiceBudget : Type 0 where
  pub memory_bytes : ℤ
  pub memory_reserve_bytes : ℤ
  pub memory_swap_bytes : ℤ
  pub milli_cpus : ℤ

pub record ResourcePolicy : Type 0 where
  pub aggregate_mode : Text
  pub cgroup_parent : Text
  pub default : ServiceBudget
  -- A map from a name to its budget.
  pub services : List (Text × ServiceBudget)
  pub max_memory_bytes : ℤ
  pub max_memory_reserve_bytes : ℤ
  pub max_memory_swap_bytes : ℤ
  pub max_milli_cpus : ℤ
  pub startup_allowance_bytes : ℤ

-- `ServiceBudget::check`
unfoldable pub budget_check : ServiceBudget → Result (Unit {0})
budget_check b =
    ensure
      (le_ℤ (pos (4 * 2 ^ 20)) b.memory_bytes
        && le_ℤ b.memory_bytes (pos (64 * 2 ^ 30))
        && le_ℤ (pos 0) b.memory_reserve_bytes
        && le_ℤ b.memory_reserve_bytes b.memory_bytes
        && le_ℤ b.memory_bytes b.memory_swap_bytes
        && le_ℤ b.memory_swap_bytes (pos (128 * 2 ^ 30))
        && le_ℤ (pos 1) b.milli_cpus
        && le_ℤ b.milli_cpus (pos 64000))
      "service budget requires finite memory, CPU and explicit bounded swap"

abbrev pub per_application : Text
per_application = codes "/komizo-production/"

-- `strip_prefix(…).is_some_and(identifier)`
unfoldable pub is_application_cgroup : Text → Bool
is_application_cgroup path = elim (strip_prefix per_application path) [
  | none ↦ false
  | some name ↦ identifier name
]

unfoldable pub mode_allowed : ResourcePolicy → Bool
mode_allowed p =
    is_empty p.aggregate_mode
    || text_eq p.aggregate_mode (codes "sum")
    || text_eq p.aggregate_mode (codes "cgroup")

unfoldable pub reserve_allowed : ResourcePolicy → Bool
reserve_allowed p =
    le_ℤ (pos 0) p.max_memory_reserve_bytes
    && le_ℤ p.max_memory_reserve_bytes p.max_memory_bytes
    && le_ℤ p.default.memory_reserve_bytes p.max_memory_reserve_bytes

unfoldable pub envelope_allowed : ResourcePolicy → Bool
envelope_allowed p =
    le_ℤ p.default.memory_bytes p.max_memory_bytes
    && le_ℤ p.max_memory_bytes (pos (128 * 2 ^ 30))
    && le_ℤ p.max_memory_bytes p.max_memory_swap_bytes
    && le_ℤ p.max_memory_swap_bytes (pos (256 * 2 ^ 30))
    && le_ℤ p.default.milli_cpus p.max_milli_cpus
    && le_ℤ p.max_milli_cpus (pos 128000)
    && le_ℤ (pos 0) p.startup_allowance_bytes
    && le_ℤ p.startup_allowance_bytes p.max_memory_bytes
    && leb (length p.services) 32

-- The loop over `self.services`.
unfoldable pub check_services : (reserve : ℤ) → List (Text × ServiceBudget) → Result (Unit {0})
unfolding budget_check
check_services reserve [] = ok tt
check_services reserve ((name, budget) ∷ rest) = do
  ensure (identifier name) "invalid service budget name"
  budget_check budget
  ensure (le_ℤ budget.memory_reserve_bytes reserve)
      "service reserve exceeds its protected parent reserve"
  check_services reserve rest

-- `ResourcePolicy::check`
unfoldable pub policy_check : ResourcePolicy → Result (Unit {0})
unfolding mode_allowed is_application_cgroup budget_check reserve_allowed envelope_allowed
    check_services
policy_check p = do
  ensure (mode_allowed p) "unknown aggregate resource mode"
  ensure
      (not (text_eq p.aggregate_mode (codes "cgroup"))
        || starts_with per_application p.cgroup_parent)
      "cgroup aggregate mode requires an installed application allocation"
  ensure
      (is_empty p.cgroup_parent
        || text_eq p.cgroup_parent (codes "/komizo-production")
        || is_application_cgroup p.cgroup_parent)
      "production cgroup must be host owned"
  budget_check p.default
  ensure (reserve_allowed p) "service reserves need a finite protected parent reserve"
  ensure
      (not (starts_with per_application p.cgroup_parent)
        || lt_ℤ (pos 0) p.max_memory_reserve_bytes && lt_ℤ (pos 0) p.default.memory_reserve_bytes)
      "per-application serving budgets require explicit leaf and parent reserves"
  ensure (envelope_allowed p) "invalid aggregate resource envelope"
  check_services p.max_memory_reserve_bytes p.services

-- The budget of a service: its own, or the default.
unfoldable pub budget_of : ResourcePolicy → Text → ServiceBudget
unfolding get
budget_of p name = elim (get name p.services) [ none ↦ p.default | some budget ↦ budget ]
