-- ===== src/Resources/Bound.antt =====
-- The demand of a deployment's services and the limits written into them: `bound_service` and
-- `bound_services` of src/workload/resources.rs.
use komizo.Prelude.{
  String, Bool, false, ◌&&◌, Option, none, some, List, [], ◌∷◌, if◌then◌else◌, is_empty, Text,
  codes,
}
use komizo.Prelude.Int.{ℤ, pos, le_ℤ, lt_ℤ, checked_add}
use komizo.Prelude.Result.{message, Result, ok, err, named, ensure, ok_or}
use komizo.Prelude.Result.{◌>>=◌, ◌>>◌}
use komizo.Resources.Amount.{Floats, Value, text, integer, float, memory_bytes, scalar, parse_cpu}
use komizo.Resources.Budget.{ServiceBudget, ResourcePolicy, budget_of}
use komizo.Prelude.Map.{get, insert}

pub record Totals : Type 0 where
  pub memory : ℤ
  pub reserve : ℤ
  pub swap : ℤ
  pub cpus : ℤ

unfoldable pub zero_totals : Totals
zero_totals = record { memory = pos 0; reserve = pos 0; swap = pos 0; cpus = pos 0 }

-- The amounts that `bound_service` returns.
pub record Demand : Type 0 where
  pub memory : ℤ
  pub swap : ℤ
  pub cpus : ℤ

abbrev pub exceeds : String
exceeds = "aggregate deployment resource demand exceeds protected envelope"

unfoldable pub add_demand : Totals → ServiceBudget → Demand → Result Totals
add_demand t budget d = do
  memory ← ok_or (checked_add t.memory d.memory) exceeds
  reserve ← ok_or (checked_add t.reserve budget.memory_reserve_bytes) exceeds
  swap ← ok_or (checked_add t.swap d.swap) exceeds
  cpus ← ok_or (checked_add t.cpus d.cpus) exceeds
  ok (record { memory = memory; reserve = reserve; swap = swap; cpus = cpus })

-- `is_some_and(|value| value <= limit)`
abbrev pub is_some_le : Option ℤ → ℤ → Bool
is_some_le none limit = false
is_some_le (some value) limit = le_ℤ value limit

unfoldable pub within_envelope : ResourcePolicy → Totals → Bool
within_envelope p t =
    is_some_le (checked_add t.memory p.startup_allowance_bytes) p.max_memory_bytes
    && le_ℤ t.reserve p.max_memory_reserve_bytes
    && is_some_le (checked_add t.swap p.startup_allowance_bytes) p.max_memory_swap_bytes
    && le_ℤ t.cpus p.max_milli_cpus

unfoldable pub within_budget : ServiceBudget → Demand → Bool
within_budget b d =
    le_ℤ d.memory b.memory_bytes
    && le_ℤ b.memory_reserve_bytes d.memory
    && le_ℤ d.swap b.memory_swap_bytes
    && le_ℤ d.memory d.swap
    && le_ℤ d.cpus b.milli_cpus

abbrev pub map_err {ℓ} : {A : Type ℓ} → Text → Result A → Result A
map_err name (ok a) = ok a
map_err name (err e) = err (named name e)

module _ (floats : Floats) where
  abbrev pub Fields : Type 0
  Fields = List (Text × Value floats)

  -- `get(key).map(memory_bytes).transpose()?.unwrap_or(default)`
  unfoldable pub memory_or : Option (Value floats) → ℤ → Result ℤ
  memory_or none default = ok default
  memory_or (some value) default = memory_bytes floats value

  -- `filter` of the quota that was read.
  unfoldable pub quota : Option floats.Float → Option floats.Float
  quota none = none
  quota (some x) = if floats.is_quota x then some x else none

  unfoldable pub cpus_or : Option (Value floats) → ℤ → Result ℤ
  unfolding quota
  cpus_or none default = ok default
  cpus_or (some raw) default = do
    value ←
        ok_or (quota (parse_cpu floats (scalar floats raw))) "CPU quota must be finite and positive"
    ok (floats.milli value)

  unfoldable pub insert_reserve : ServiceBudget → Fields → Fields
  unfolding insert
  insert_reserve b service =
      if lt_ℤ (pos 0) b.memory_reserve_bytes
      then insert (codes "mem_reservation") (integer b.memory_reserve_bytes) service
      else service

  -- The limits that are written into the service.
  unfoldable pub write_limits : Fields → ServiceBudget → Demand → Fields
  unfolding insert insert_reserve
  write_limits service b d = insert (codes "cpus") (float (floats.from_milli d.cpus)) (
      insert (codes "memswap_limit") (integer d.swap)
        (insert_reserve b (insert (codes "mem_limit") (integer d.memory) service)))

  -- `bound_service`
  unfoldable pub bound_service : Fields → ServiceBudget → Result (Fields × Demand)
  unfolding get memory_or cpus_or within_budget write_limits
  bound_service service b = do
    memory ← memory_or (get (codes "mem_limit") service) b.memory_bytes
    swap ← memory_or (get (codes "memswap_limit") service) b.memory_swap_bytes
    cpus ← cpus_or (get (codes "cpus") service) b.milli_cpus
    let demand : Demand = record { memory = memory; swap = swap; cpus = cpus }
    ensure (within_budget b demand) "service resource demand exceeds protected budget"
    ok (write_limits service b demand, demand)

  -- The definition under a service's name.
  pub data Service : Type 0 where
    object : Fields → Service
    not_object : Service

  abbrev pub Services : Type 0
  Services = List (Text × Service)

  unfoldable pub as_object : Text → Service → Result Fields
  as_object name (object fields) = ok fields
  as_object name not_object = err (named name (message "invalid service definition"))

  unfoldable pub insert_cgroup : ResourcePolicy → Fields → Fields
  unfolding insert
  insert_cgroup p service =
      if is_empty p.cgroup_parent
      then service
      else insert (codes "cgroup_parent") (text p.cgroup_parent) service

  -- The loop of `bound_services`: the services with their limits, and what they add up to.
  unfoldable pub bound_each : ResourcePolicy → Services → Totals → Result (Services × Totals)
  unfolding as_object insert_cgroup bound_service budget_of add_demand
  bound_each p [] totals = ok ([], totals)
  bound_each p ((name, raw) ∷ rest) totals = do
    service ← as_object name raw
    (bounded, demand) ← map_err name (bound_service (insert_cgroup p service) (budget_of p name))
    totals' ← add_demand totals (budget_of p name) demand
    (others, sum) ← bound_each p rest totals'
    ok ((name, object bounded) ∷ others, sum)

  -- `bound_services`: the services as the caller goes on with them.
  unfoldable pub bound_services : Services → Option ResourcePolicy → Result Services
  unfolding zero_totals bound_each within_envelope
  bound_services services policy = do
    p ← ok_or policy "operator must configure a protected resource envelope before deployment"
    (bounded, totals) ← bound_each p services zero_totals
    ensure (within_envelope p totals) exceeds
    ok bounded
