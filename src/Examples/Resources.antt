-- ===== src/Examples/Resources.antt =====
-- The resource theorems at one service within a small envelope.
use komizo.Prelude.{
  ℕ, ◌+◌, ◌-◌, ◌*◌, ◌^◌, ◌≡◌, refl, true, false, ◌&&◌, none, some, [], ◌∷◌, ◌++◌, arith, codes,
}
use komizo.Prelude.Int.{ℤ, pos, le_ℤ, lt_ℤ}
use komizo.Prelude.Result.{ok}
use komizo.Resources.Amount.{Floats, Value, text, integer, float, memory_of}
use komizo.Resources.Decimal.{print_ℕ}
use komizo.Resources.Reading.{IsUnit, memory_of-print}
use komizo.Resources.Budget.{ServiceBudget, ResourcePolicy}
use komizo.Resources.Bound.{Services, object, bound_services}
use komizo.Resources.Envelope.{Enveloped, bound_services_ok}

memory_of-print_example : memory_of (print_ℕ 512 ++ b'm' ∷ []) ≡ ok (pos (512 * 1048576))
memory_of-print_example =
    memory_of-print 512 b'm' 1048576 IsUnit.mebibytes (omega arith) (omega arith)

-- CPU quotas as thousandths, of which none is written as text.
abbrev floats : Floats
floats = record {
  Float = ℤ;
  parse = λ s. none;
  is_extended_literal = λ s. false;
  strtod = λ s. none;
  abs_below_million = λ n. true;
  to_string = λ n. [];
  exponent_form = λ n. [];
  is_quota = λ n. lt_ℤ (pos 0) n && le_ℤ n (pos 64000);
  milli = λ n. n;
  from_milli = λ n. n;
}

abbrev mebibytes : ℕ → ℤ
mebibytes n = pos (n * 2 ^ 20)

abbrev budget : ServiceBudget
budget = record {
  memory_bytes = mebibytes 512;
  memory_reserve_bytes = mebibytes 64;
  memory_swap_bytes = mebibytes 512;
  milli_cpus = pos 1000;
}

abbrev policy : ResourcePolicy
policy = record {
  aggregate_mode = [];
  cgroup_parent = [];
  default = budget;
  services = [];
  max_memory_bytes = mebibytes 1024;
  max_memory_reserve_bytes = mebibytes 256;
  max_memory_swap_bytes = mebibytes 1024;
  max_milli_cpus = pos 2000;
  startup_allowance_bytes = mebibytes 128;
}

abbrev services : Services floats
services = (codes "web", object ((codes "mem_limit", text (codes "256m")) ∷ [])) ∷ []

abbrev bounded : Services floats
bounded =
    (
      codes "web",
      object (
          (codes "mem_limit", integer (mebibytes 256))
          ∷ (codes "mem_reservation", integer (mebibytes 64))
          ∷ (codes "memswap_limit", integer (mebibytes 512))
          ∷ (codes "cpus", float (pos 1000))
          ∷ []),
    )
    ∷ []

bound : bound_services floats services (some policy) ≡ ok bounded
unfolding bound_services komizo.Prelude.text_eq komizo.Resources.Amount.memory_bytes
    komizo.Prelude.Int.checked_add komizo.Prelude.Int.in_i64 komizo.Prelude.Int.◌+ℤ◌
bound = refl

bound_services_ok_example : Enveloped floats policy services bounded
bound_services_ok_example = bound_services_ok floats services bounded policy bound
