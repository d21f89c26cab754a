-- ===== src/Preview/Bounds.antt =====
-- The limits of a knob that `parse` of src/host/preview/knob.rs returns.
use komizo.Prelude.{ℕ, ◌≡◌, refl, ◌⊎◌, inl, inr, Bool, true, Option, [], arith, Text, codes}
use komizo.Prelude.Int.{ℤ, pos, ◌≤ℤ◌, lt_ℤ}
use komizo.Prelude.Result.{is_ok}
use komizo.Preview.Settings.{get, memory_bytes, valid_cpu}
use komizo.Preview.Knob.{
  Knob, Parsed, setting, unchanged, invalid, ttl_of, max_of, mem_limit_of, cpu_limit_of, budget_of,
  ask_port_of, settings, named_domains, parse, wrapping_hours,
}
use komizo.Preview.Reading.{
  OfSome, Takes, setting-takes, only_if-OfSome, count_of-OfSome, budget_of-OfSome,
  ask_port_of-OfSome, InRange, memory_bytes-InRange,
}

-- An amount that is unset or in range.
abbrev pub Amount : ℕ → Type 0
Amount n = (n ≡ 0) ⊎ InRange n

abbrev pub Port : ℤ → Type 0
Port n = (pos 1 ≤ℤ n) × (n ≤ℤ pos 65535)

-- The most previews, the port, the memory and the processors of a service, and the amounts.
abbrev pub IsBounded : (quota : Text → Bool) → Knob → Type 0
IsBounded quota k =
    (pos 1 ≤ℤ k.max)
    × Port k.ask_port
    × (is_ok (memory_bytes k.mem_limit) ≡ true)
    × (valid_cpu quota k.cpu_limit ≡ true)
    × Amount k.memory_budget
    × Amount k.production_reserve
    × Amount k.database_reserve

module _ (quota : Text → Bool) where
  abbrev B : Knob → Type 0
  B = IsBounded quota

  -- A setting that sets something in bounds, or refuses.
  keeps :
      (read : Text → Option (Knob → Knob)) (refuse : Knob → Knob) (key body : Text)
      → ((value : Text) → OfSome (Takes B B) (read value))
      → Takes B B refuse
      → (start : Parsed) → B start.0
      → B (setting read refuse key body start).0
  keeps read refuse key body sets refused =
      setting-takes B B read refuse key body (λ k e h. h) (sets (get body key)) (λ n. refused)

  ttl_sets : (value : Text) → OfSome (Takes B B) (ttl_of value)
  unfolding ttl_of
  ttl_sets value =
      count_of-OfSome (Takes B B) (λ n k. record k { ttl = wrapping_hours n }) value (λ n p k h. h)

  max_sets : (value : Text) → OfSome (Takes B B) (max_of value)
  unfolding max_of
  max_sets value =
      count_of-OfSome (Takes B B) (λ n k. record k { max = n }) value
        (λ n p k (m, port, mem, cpu, b, r, d). (above n p, port, mem, cpu, b, r, d))
    where
      above : (n : ℤ) → lt_ℤ (pos 0) n ≡ true → pos 1 ≤ℤ n
      above n p = ground arith

  mem_limit_sets : (value : Text) → OfSome (Takes B B) (mem_limit_of value)
  unfolding mem_limit_of
  mem_limit_sets value =
      only_if-OfSome (Takes B B) (is_ok (memory_bytes value)) (λ k. record k { mem_limit = value })
        (λ e k (m, port, mem, cpu, b, r, d). (m, port, e, cpu, b, r, d))

  cpu_limit_sets : (value : Text) → OfSome (Takes B B) (cpu_limit_of quota value)
  unfolding cpu_limit_of
  cpu_limit_sets value =
      only_if-OfSome (Takes B B) (valid_cpu quota value) (λ k. record k { cpu_limit = value })
        (λ e k (m, port, mem, cpu, b, r, d). (m, port, mem, e, b, r, d))

  ask_port_sets : (value : Text) → OfSome (Takes B B) (ask_port_of value)
  ask_port_sets value =
      ask_port_of-OfSome (Takes B B) value
        (λ n lo hi k (m, port, mem, cpu, b, r, d). (m, (lo, hi), mem, cpu, b, r, d))

  budget_sets :
      (value : Text) → OfSome (Takes B B) (budget_of (λ n k. record k { memory_budget = n }) value)
  budget_sets value =
      budget_of-OfSome (Takes B B) (λ n k. record k { memory_budget = n }) value
        (λ n e k (m, port, mem, cpu, b, r, d).
          (m, port, mem, cpu, inr (memory_bytes-InRange value n e), r, d))

  reserve_sets :
      (value : Text)
      → OfSome (Takes B B) (budget_of (λ n k. record k { production_reserve = n }) value)
  reserve_sets value =
      budget_of-OfSome (Takes B B) (λ n k. record k { production_reserve = n }) value
        (λ n e k (m, port, mem, cpu, b, r, d).
          (m, port, mem, cpu, b, inr (memory_bytes-InRange value n e), d))

  database_sets :
      (value : Text)
      → OfSome (Takes B B) (budget_of (λ n k. record k { database_reserve = n }) value)
  database_sets value =
      budget_of-OfSome (Takes B B) (λ n k. record k { database_reserve = n }) value
        (λ n e k (m, port, mem, cpu, b, r, d).
          (m, port, mem, cpu, b, r, inr (memory_bytes-InRange value n e)))

  settings-IsBounded : (body : Text) (start : Parsed) → B start.0 → B (settings quota body start).0
  unfolding settings
  settings-IsBounded body start h =
      keeps ask_port_of unchanged (codes "ASK_PORT") body ask_port_sets (λ k h. h) _
        (keeps _ invalid (codes "DB_MEM_LIMIT") body database_sets (λ k h. h) _
          (keeps _ invalid (codes "PRODUCTION_RESERVE") body reserve_sets (λ k h. h) _
            (keeps _ invalid (codes "MEM_BUDGET") body budget_sets (λ k h. h) _
              (keeps (cpu_limit_of quota) unchanged (codes "CPU_LIMIT") body cpu_limit_sets
                (λ k h. h) _
                (keeps mem_limit_of unchanged (codes "MEM_LIMIT") body mem_limit_sets (λ k h. h) _
                  (keeps max_of unchanged (codes "MAX_PREVIEWS") body max_sets (λ k h. h) _
                    (keeps ttl_of unchanged (codes "TTL_HOURS") body ttl_sets (λ k h. h) start
                      h)))))))

  -- Whatever the knob file holds, the knob that is read from it is within bounds: it allows one
  -- preview at least, its port is one of 1 to 65535, the limit on a service's memory is an amount from
  -- 6 MiB to 64 GiB and the limit on its processors is well formed, and the budget and the two
  -- reserves are unset or such amounts, given that the default "0.75" is a number of processors.
  pub parse-IsBounded :
      quota (codes "0.75") ≡ true → (body : Text) → IsBounded quota (parse quota body).0
  unfolding parse named_domains
  parse-IsBounded q body =
      settings-IsBounded body (named_domains body, [])
        (omega arith, (omega arith, omega arith), refl, q, inl refl, inl refl, inl refl)
