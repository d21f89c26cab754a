-- ===== src/Resources/Limits.antt =====
-- The limits that `bound_service` writes, and the totals of `bound_services`, in
-- src/workload/resources.rs.
use komizo.Prelude.{String, ◌≡◌, refl, sym, ap, ◌∙◌, true, some, arith, and-eq-true, codes, text_eq}
use komizo.Prelude.Int.{ℤ, pos_part, neg_part, ◌+ℤ◌, ◌≤ℤ◌, +ℤ_parts, eq_of_parts, checked_add}
use komizo.Prelude.Result.{ok, ensure, ok_or, >>=-eq-ok, ensure-eq-ok, ok-injective}
use komizo.Prelude.Result.{◌>>◌}
use komizo.Resources.Amount.{Floats, integer, float}
use komizo.Resources.Budget.{ServiceBudget, ResourcePolicy}
use komizo.Resources.Bound.{
  exceeds, is_some_le, Totals, Demand, add_demand, within_envelope, within_budget, Fields,
  memory_or, cpus_or, insert_reserve, write_limits, bound_service,
}
use komizo.Prelude.Map.{get, insert, get-insert, get-insert_other}

module _ (floats : Floats) where
  reserve_unread :
      (b : ServiceBudget) (fields : Fields floats)
      → get (codes "mem_limit") (insert_reserve floats b fields) ≡ get (codes "mem_limit") fields
  unfolding insert_reserve text_eq
  reserve_unread b fields = ground (
    arith,
    get-insert_other (codes "mem_limit") (codes "mem_reservation") (integer b.memory_reserve_bytes)
        fields refl,
  )

  pub written_memory :
      (service : Fields floats) (b : ServiceBudget) (d : Demand)
      → get (codes "mem_limit") (write_limits floats service b d) ≡ some (integer d.memory)
  unfolding write_limits text_eq
  written_memory service b d =
      get-insert_other (codes "mem_limit") (codes "cpus") (float (floats.from_milli d.cpus)) _ refl
      ∙ get-insert_other (codes "mem_limit") (codes "memswap_limit") (integer d.swap) _ refl
      ∙ reserve_unread b _
      ∙ get-insert (codes "mem_limit") (integer d.memory) service

  pub written_swap :
      (service : Fields floats) (b : ServiceBudget) (d : Demand)
      → get (codes "memswap_limit") (write_limits floats service b d) ≡ some (integer d.swap)
  unfolding write_limits text_eq
  written_swap service b d =
      get-insert_other (codes "memswap_limit") (codes "cpus") (float (floats.from_milli d.cpus)) _
        refl
      ∙ get-insert (codes "memswap_limit") (integer d.swap)
          (insert_reserve floats b (insert (codes "mem_limit") (integer d.memory) service))

  bound_service_end :
      (service out : Fields floats) (b : ServiceBudget) (d d' : Demand) (note : String)
      → ◌>>◌ {B = Fields floats × Demand}
          (ensure (within_budget b d') note)
          (ok (write_limits floats service b d', d'))
        ≡ ok (out, d)
      → (within_budget b d ≡ true) × (out ≡ write_limits floats service b d)
  bound_service_end service out b d d' note h =
      let (e, k) =
        ensure-eq-ok (within_budget b d') note (ok (write_limits floats service b d', d')) h in
      let same : (write_limits floats service b d', d') ≡ (out, d) = ok-injective _ _ k in
      (
        sym (ap (λ x. within_budget b x.1) same) ∙ e,
        sym (ap (λ x. x.0) same) ∙ ap (write_limits floats service b) (ap (λ x. x.1) same),
      )

  pub bound_service_ok :
      (service out : Fields floats) (b : ServiceBudget) (d : Demand)
      → bound_service floats service b ≡ ok (out, d)
      → (within_budget b d ≡ true) × (out ≡ write_limits floats service b d)
  unfolding bound_service
  bound_service_ok service out b d h =
      let (memory, e1, h1) =
        >>=-eq-ok (memory_or floats (get (codes "mem_limit") service) b.memory_bytes) _ h in
      let (swap, e2, h2) =
        >>=-eq-ok (memory_or floats (get (codes "memswap_limit") service) b.memory_swap_bytes) _
          h1 in
      let (cpus, e3, h3) =
        >>=-eq-ok (cpus_or floats (get (codes "cpus") service) b.milli_cpus) _ h2 in
      bound_service_end service out b d (record { memory = memory; swap = swap; cpus = cpus }) _ h3

ok_or-add : (a b c : ℤ) (note : String) → ok_or (checked_add a b) note ≡ ok c → c ≡ a +ℤ b
unfolding checked_add
ok_or-add a b c note h = ground arith

totals_end :
    (m r s c : ℤ) (t : Totals)
    → ok (record { memory = m; reserve = r; swap = s; cpus = c }) ≡ ok t
    → (t.memory ≡ m) × (t.swap ≡ s)
totals_end m r s c t h = ground arith

pub add_demand_ok :
    (t t' : Totals) (b : ServiceBudget) (d : Demand)
    → add_demand t b d ≡ ok t'
    → (t'.memory ≡ t.memory +ℤ d.memory) × (t'.swap ≡ t.swap +ℤ d.swap)
unfolding add_demand
add_demand_ok t t' b d h =
    let (m, e1, h1) = >>=-eq-ok (ok_or (checked_add t.memory d.memory) exceeds) _ h in
    let (r, e2, h2) =
      >>=-eq-ok (ok_or (checked_add t.reserve b.memory_reserve_bytes) exceeds) _ h1 in
    let (s, e3, h3) = >>=-eq-ok (ok_or (checked_add t.swap d.swap) exceeds) _ h2 in
    let (c, e4, h4) = >>=-eq-ok (ok_or (checked_add t.cpus d.cpus) exceeds) _ h3 in
    let (m', s') = totals_end m r s c t' h4 in
    (m' ∙ ok_or-add t.memory d.memory m exceeds e1, s' ∙ ok_or-add t.swap d.swap s exceeds e3)

is_some_le_ok : (a b limit : ℤ) → is_some_le (checked_add a b) limit ≡ true → a +ℤ b ≤ℤ limit
unfolding checked_add
is_some_le_ok a b limit h = ground arith

pub within_envelope_ok :
    (p : ResourcePolicy) (t : Totals)
    → within_envelope p t ≡ true
    → (t.memory +ℤ p.startup_allowance_bytes ≤ℤ p.max_memory_bytes)
      × (t.swap +ℤ p.startup_allowance_bytes ≤ℤ p.max_memory_swap_bytes)
unfolding within_envelope
within_envelope_ok p t h =
    let (front, cpus) = and-eq-true _ _ h in
    let (front', swap) = and-eq-true _ _ front in
    let (memory, reserve) = and-eq-true _ _ front' in
    (
      is_some_le_ok t.memory p.startup_allowance_bytes p.max_memory_bytes memory,
      is_some_le_ok t.swap p.startup_allowance_bytes p.max_memory_swap_bytes swap,
    )

-- Adding up from the front and from the back.
pub sum_step :
    (start amount next rest total : ℤ)
    → next ≡ start +ℤ amount
    → total ≡ next +ℤ rest
    → total ≡ start +ℤ (amount +ℤ rest)
sum_step start amount next rest total e k = eq_of_parts total (start +ℤ (amount +ℤ rest)) (
    omega (
      arith,
      +ℤ_parts start amount,
      +ℤ_parts next rest,
      +ℤ_parts amount rest,
      +ℤ_parts start (amount +ℤ rest),
      ap pos_part e,
      ap neg_part e,
      ap pos_part k,
      ap neg_part k,
    ))
