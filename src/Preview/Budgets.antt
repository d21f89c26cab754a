-- ===== src/Preview/Budgets.antt =====
-- The amounts of a knob that `parse` of src/host/preview/knob.rs returns, against the file.
use komizo.Prelude.{ℕ, ◌≡◌, refl, ◌⊎◌, inl, inr, Bool, false, Option, [], Text, codes}
use komizo.Prelude.Result.{ok, is_ok}
use komizo.Preview.Settings.{get, memory_bytes, valid_cpu}
use komizo.Preview.Knob.{
  Knob, Parsed, setting, unchanged, invalid, ttl_of, max_of, mem_limit_of, cpu_limit_of, budget_of,
  ask_port_of, settings, named_domains, parse, wrapping_hours,
}
use komizo.Preview.Reading.{
  OfSome, Takes, setting-takes, only_if-OfSome, count_of-OfSome, budget_of-OfSome,
  ask_port_of-OfSome,
}

-- The amount is what the file gives under the key: nothing, or an amount that can be read.
abbrev pub Reads : (body key : Text) → ℕ → Type 0
Reads body key n = ((get body key ≡ []) × (n ≡ 0)) ⊎ (memory_bytes (get body key) ≡ ok n)

module _ (quota : Text → Bool) (body : Text) where
  -- Unless the knob says that an amount is invalid.
  abbrev Told : Knob → (key : Text) → ℕ → Type 0
  Told k key n = k.invalid_budget ≡ false → Reads body key n

  abbrev Unset : Knob → Type 0
  Unset k = (k.memory_budget ≡ 0) × (k.production_reserve ≡ 0) × (k.database_reserve ≡ 0)

  abbrev OneSet : Knob → Type 0
  OneSet k =
      Told k (codes "MEM_BUDGET") k.memory_budget
      × (k.production_reserve ≡ 0)
      × (k.database_reserve ≡ 0)

  abbrev TwoSet : Knob → Type 0
  TwoSet k =
      Told k (codes "MEM_BUDGET") k.memory_budget
      × Told k (codes "PRODUCTION_RESERVE") k.production_reserve
      × (k.database_reserve ≡ 0)

  abbrev AllSet : Knob → Type 0
  AllSet k =
      Told k (codes "MEM_BUDGET") k.memory_budget
      × Told k (codes "PRODUCTION_RESERVE") k.production_reserve
      × Told k (codes "DB_MEM_LIMIT") k.database_reserve

  -- A setting that leaves the amounts alone.
  aside :
      (P : Knob → Type 0) (read : Text → Option (Knob → Knob)) (key : Text)
      → OfSome (Takes P P) (read (get body key))
      → (start : Parsed) → P start.0
      → P (setting read unchanged key body start).0
  aside P read key sets = setting-takes P P read unchanged key body (λ k e h. h) sets (λ n k h. h)

  before_amounts :
      (start : Parsed)
      → Unset start.0
      → Unset
          (setting (cpu_limit_of quota) unchanged (codes "CPU_LIMIT") body (
            setting mem_limit_of unchanged (codes "MEM_LIMIT") body (
              setting max_of unchanged
                (codes "MAX_PREVIEWS")
                body
                (setting ttl_of unchanged (codes "TTL_HOURS") body start)))).0
  unfolding ttl_of max_of mem_limit_of cpu_limit_of
  before_amounts start h =
      aside Unset (cpu_limit_of quota) (codes "CPU_LIMIT")
        (only_if-OfSome (Takes Unset Unset) (valid_cpu quota (get body (codes "CPU_LIMIT"))) _
          (λ e k h. h))
        _
        (aside Unset mem_limit_of (codes "MEM_LIMIT")
          (only_if-OfSome (Takes Unset Unset) (is_ok (memory_bytes (get body (codes "MEM_LIMIT"))))
            _ (λ e k h. h))
          _
          (aside Unset max_of (codes "MAX_PREVIEWS")
            (count_of-OfSome (Takes Unset Unset) (λ n k. record k { max = n })
              (get body (codes "MAX_PREVIEWS")) (λ n p k h. h))
            _
            (aside Unset ttl_of (codes "TTL_HOURS")
              (count_of-OfSome (Takes Unset Unset) (λ n k. record k { ttl = wrapping_hours n })
                (get body (codes "TTL_HOURS")) (λ n p k h. h))
              start h)))

  budget_takes :
      (start : Parsed)
      → Unset start.0
      → OneSet
          (setting
            (budget_of (λ n k. record k { memory_budget = n }))
            invalid
            (codes "MEM_BUDGET")
            body
            start).0
  budget_takes =
      setting-takes Unset OneSet (budget_of (λ n k. record k { memory_budget = n })) invalid
        (codes "MEM_BUDGET") body (λ k e (m, p, d). ((λ v. inl (e, m)), p, d))
        (budget_of-OfSome (Takes Unset OneSet) (λ n k. record k { memory_budget = n })
          (get body (codes "MEM_BUDGET")) (λ n e k (m, p, d). ((λ v. inr e), p, d)))
        (λ n k (m, p, d). ((λ v. cc), p, d))

  reserve_takes :
      (start : Parsed)
      → OneSet start.0
      → TwoSet
          (setting
            (budget_of (λ n k. record k { production_reserve = n }))
            invalid
            (codes "PRODUCTION_RESERVE")
            body
            start).0
  reserve_takes =
      setting-takes OneSet TwoSet (budget_of (λ n k. record k { production_reserve = n })) invalid
        (codes "PRODUCTION_RESERVE") body (λ k e (m, p, d). (m, (λ v. inl (e, p)), d))
        (budget_of-OfSome (Takes OneSet TwoSet) (λ n k. record k { production_reserve = n })
          (get body (codes "PRODUCTION_RESERVE")) (λ n e k (m, p, d). (m, (λ v. inr e), d)))
        (λ n k (m, p, d). ((λ v. cc), (λ v. cc), d))

  database_takes :
      (start : Parsed)
      → TwoSet start.0
      → AllSet
          (setting
            (budget_of (λ n k. record k { database_reserve = n }))
            invalid
            (codes "DB_MEM_LIMIT")
            body
            start).0
  database_takes =
      setting-takes TwoSet AllSet (budget_of (λ n k. record k { database_reserve = n })) invalid
        (codes "DB_MEM_LIMIT") body (λ k e (m, p, d). (m, p, (λ v. inl (e, d))))
        (budget_of-OfSome (Takes TwoSet AllSet) (λ n k. record k { database_reserve = n })
          (get body (codes "DB_MEM_LIMIT")) (λ n e k (m, p, d). (m, p, (λ v. inr e))))
        (λ n k (m, p, d). ((λ v. cc), (λ v. cc), (λ v. cc)))

  -- Unless the knob that is read from a file says that an amount is invalid, its budget and its two
  -- reserves are what the file gives under their keys: none where the key is missing or empty, and
  -- the amount that can be read there otherwise.
  pub parse_amounts :
      (parse quota body).0.invalid_budget ≡ false
      → Reads body (codes "MEM_BUDGET") (parse quota body).0.memory_budget
        × Reads body (codes "PRODUCTION_RESERVE") (parse quota body).0.production_reserve
        × Reads body (codes "DB_MEM_LIMIT") (parse quota body).0.database_reserve
  unfolding parse settings named_domains
  parse_amounts v =
      let (m, p, d) =
        aside AllSet ask_port_of (codes "ASK_PORT")
          (ask_port_of-OfSome (Takes AllSet AllSet) (get body (codes "ASK_PORT"))
            (λ n lo hi k h. h))
          _
          (database_takes _ (
            reserve_takes _
              (budget_takes _ (before_amounts (named_domains body, []) (refl, refl, refl))))) in
      (m v, p v, d v)
