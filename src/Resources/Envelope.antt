-- ===== src/Resources/Envelope.antt =====
-- What an accepted deployment's services add up to, for `bound_services` of
-- src/workload/resources.rs.
use komizo.Prelude.{
  ◌≡◌, refl, sym, ap, ◌∙◌, true, Option, none, some, List, [], ◌∷◌, map, arith, All, Text, codes,
}
use komizo.Prelude.Int.{ℤ, pos, ◌+ℤ◌, ◌≤ℤ◌, +ℤ_parts, eq_of_parts}
use komizo.Prelude.Result.{Result, ok, err, >>=-eq-ok, ensure-eq-ok, ok-injective}
use mathlib.Core.Path.{subst}
use komizo.Resources.Amount.{Floats, Value, integer}
use komizo.Resources.Budget.{ResourcePolicy, budget_of}
use komizo.Resources.Bound.{
  Totals, zero_totals, Demand, add_demand, within_envelope, within_budget, Fields, write_limits,
  bound_service, Service, object, not_object, Services, as_object, insert_cgroup, map_err,
  bound_each, bound_services,
}
use komizo.Prelude.Map.{get}
use komizo.Resources.Limits.{
  written_memory, written_swap, bound_service_ok, add_demand_ok, within_envelope_ok, sum_step,
}

zero_sum : (a : ℤ) → pos 0 +ℤ a ≡ a
zero_sum a = eq_of_parts _ _ (omega (arith, +ℤ_parts (pos 0) a))

module _ (floats : Floats) where
  -- The number that stands under a key.
  abbrev integer_of : Option (Value floats) → Option ℤ
  integer_of (some (integer n)) = some n
  integer_of _ = none

  abbrev pub limit : Text → Service floats → Option ℤ
  limit key (object fields) = integer_of (get key fields)
  limit key not_object = none

  abbrev pub plus : Option ℤ → Option ℤ → Option ℤ
  plus (some a) (some b) = some (a +ℤ b)
  plus _ _ = none

  -- The sum of a limit over the services; nothing if one of them has no such limit.
  unfoldable pub limit_sum : Text → Services floats → Option ℤ
  limit_sum key [] = some (pos 0)
  limit_sum key ((name, service) ∷ rest) = plus (limit key service) (limit_sum key rest)

  -- A service's limits are within its budget.
  pub record Limited (p : ResourcePolicy) (service : Text × Service floats) : Type 0 where
    pub memory : ℤ
    pub swap : ℤ
    pub memory_written : limit (codes "mem_limit") service.1 ≡ some memory
    pub swap_written : limit (codes "memswap_limit") service.1 ≡ some swap
    pub memory_bounded : memory ≤ℤ (budget_of p service.0).memory_bytes
    pub reserve_bounded : (budget_of p service.0).memory_reserve_bytes ≤ℤ memory
    pub swap_bounded : swap ≤ℤ (budget_of p service.0).memory_swap_bytes
    pub memory_in_swap : memory ≤ℤ swap

  -- The services as they are deployed, against the operator's envelope.
  pub record Enveloped (p : ResourcePolicy) (services out : Services floats) : Type 0 where
    pub memory : ℤ
    pub swap : ℤ
    pub same_names : map (λ (name, service). name) out ≡ map (λ (name, service). name) services
    pub limited : All (Limited p) out
    pub memory_sum : limit_sum (codes "mem_limit") out ≡ some memory
    pub swap_sum : limit_sum (codes "memswap_limit") out ≡ some swap
    pub memory_bounded : memory +ℤ p.startup_allowance_bytes ≤ℤ p.max_memory_bytes
    pub swap_bounded : swap +ℤ p.startup_allowance_bytes ≤ℤ p.max_memory_swap_bytes

  -- The first totals and the last differ by the sums of the limits.
  abbrev Added : Services floats → Totals → Totals → Type 0
  Added out t sum =
      ((m : ℤ) × (limit_sum (codes "mem_limit") out ≡ some m) × (sum.memory ≡ t.memory +ℤ m))
      × ((s : ℤ) × (limit_sum (codes "memswap_limit") out ≡ some s) × (sum.swap ≡ t.swap +ℤ s))

  abbrev names : Services floats → List Text
  names services = map (λ (name, service). name) services

  abbrev Each : ResourcePolicy → Services floats → Totals → Services floats → Totals → Type 0
  Each p services t out sum = (names out ≡ names services) × All (Limited p) out × Added out t sum

  Limited-write :
      (p : ResourcePolicy) (name : Text) (service : Fields floats) (d : Demand)
      → within_budget (budget_of p name) d ≡ true
      → Limited p (name, object (write_limits floats service (budget_of p name) d))
  unfolding within_budget
  Limited-write p name service d h = record {
    memory = d.memory;
    swap = d.swap;
    memory_written = ap integer_of (written_memory floats service (budget_of p name) d);
    swap_written = ap integer_of (written_swap floats service (budget_of p name) d);
    memory_bounded = ground arith;
    reserve_bounded = ground arith;
    swap_bounded = ground arith;
    memory_in_swap = ground arith;
  }

  limit_sum-step :
      (key name : Text) (service : Service floats) (rest : Services floats) (amount total : ℤ)
      → limit key service ≡ some amount
      → limit_sum key rest ≡ some total
      → limit_sum key ((name, service) ∷ rest) ≡ some (amount +ℤ total)
  unfolding limit_sum
  limit_sum-step key name service rest amount total h k =
      ap (λ o. plus o (limit_sum key rest)) h ∙ ap (plus (some amount)) k

  Each-cons :
      (p : ResourcePolicy) (name : Text) (raw : Service floats) (service : Fields floats)
      (d : Demand) (rest others : Services floats) (t next sum : Totals)
      → within_budget (budget_of p name) d ≡ true
      → add_demand t (budget_of p name) d ≡ ok next
      → Each p rest next others sum
      → Each p
          ((name, raw) ∷ rest)
          t
          ((name, object (write_limits floats service (budget_of p name) d)) ∷ others)
          sum
  Each-cons p name raw service d rest others t next sum h k (same, limited, added) =
      let ((m, em, tm), (s, es, ts)) = added in
      let done = Limited-write p name service d h in
      let (added_m, added_s) = add_demand_ok t next (budget_of p name) d k in
      (
        ap (◌∷◌ name) same,
        (done, limited),
        (
          (
            d.memory +ℤ m,
            limit_sum-step _ name _ others d.memory m
                (ap integer_of (written_memory floats service (budget_of p name) d)) em,
            sum_step t.memory d.memory next.memory m sum.memory added_m tm,
          ),
          (
            d.swap +ℤ s,
            limit_sum-step _ name _ others d.swap s
                (ap integer_of (written_swap floats service (budget_of p name) d)) es,
            sum_step t.swap d.swap next.swap s sum.swap added_s ts,
          ),
        ),
      )

  Each-nil : (p : ResourcePolicy) (t : Totals) → Each p [] t [] t
  unfolding limit_sum
  Each-nil p t = (
    refl,
    tt,
    (
      (pos 0, refl, eq_of_parts _ _ (omega (arith, +ℤ_parts t.memory (pos 0)))),
      (pos 0, refl, eq_of_parts _ _ (omega (arith, +ℤ_parts t.swap (pos 0)))),
    ),
  )

  named_ok :
      (name : Text) (r : Result (Fields floats × Demand)) {a : Fields floats × Demand}
      → map_err name r ≡ ok a
      → r ≡ ok a
  named_ok name (ok a) h = h
  named_ok name (err e) h = cc

  bound_each_ok :
      (p : ResourcePolicy) (services out : Services floats) (t sum : Totals)
      → bound_each floats p services t ≡ ok (out, sum)
      → Each p services t out sum
  unfolding bound_each
  bound_each_ok p [] out t sum h =
      subst (λ x. Each p [] t x.0 x.1) (ok-injective ([], t) (out, sum) h) (Each-nil p t)
  bound_each_ok p ((name, raw) ∷ rest) out t sum h =
      let (service, e1, h1) = >>=-eq-ok (as_object floats name raw) _ h in
      let ((bounded, d), e2, h2) =
        >>=-eq-ok
          (map_err name (bound_service floats (insert_cgroup floats p service) (budget_of p name)))
          _ h1 in
      let (next, e3, h3) = >>=-eq-ok (add_demand t (budget_of p name) d) _ h2 in
      let ((others, sum'), e4, h4) = >>=-eq-ok (bound_each floats p rest next) _ h3 in
      let (fits, written) =
        bound_service_ok floats _ bounded (budget_of p name) d (named_ok name _ e2) in
      let ih = bound_each_ok p rest others next sum' e4 in
      let step =
        Each-cons p name raw (insert_cgroup floats p service) d rest others t next sum' fits e3
          ih in
      subst (λ x. Each p ((name, raw) ∷ rest) t x.0 x.1)
        (ap (λ b. ((name, object b) ∷ others, sum')) (sym written) ∙ ok-injective _ _ h4) step

  -- Accepted services keep their names, each one's written limits are within its budget, and the
  -- limits of all of them with the startup allowance are within the operator's envelope, for memory
  -- and for memory with swap.
  pub bound_services_ok :
      (services out : Services floats) (p : ResourcePolicy)
      → bound_services floats services (some p) ≡ ok out
      → Enveloped p services out
  unfolding bound_services zero_totals
  bound_services_ok services out p h =
      let ((bounded, totals), e, h1) = >>=-eq-ok (bound_each floats p services zero_totals) _ h in
      let (fits, h2) = ensure-eq-ok (within_envelope p totals) _ _ h1 in
      let (same, limited, added) = bound_each_ok p services bounded zero_totals totals e in
      let ((m, em, tm), (s, es, ts)) = added in
      let (fits_m, fits_s) = within_envelope_ok p totals fits in
      let m_total : totals.memory ≡ m = tm ∙ zero_sum m in
      let s_total : totals.swap ≡ s = ts ∙ zero_sum s in
      subst (Enveloped p services) (ok-injective _ _ h2) (record {
        memory = m;
        swap = s;
        same_names = same;
        limited = limited;
        memory_sum = em;
        swap_sum = es;
        memory_bounded =
            subst (λ x. x +ℤ p.startup_allowance_bytes ≤ℤ p.max_memory_bytes) m_total fits_m;
        swap_bounded =
            subst (λ x. x +ℤ p.startup_allowance_bytes ≤ℤ p.max_memory_swap_bytes) s_total fits_s;
      })
