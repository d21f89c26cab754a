-- ===== src/Capacity/Room.antt =====
-- What is left when a preview is let in, for `check_floors` and `production_reserve` of
-- src/host/preview/capacity.rs.
use komizo.Prelude.{
  ◌≡◌, refl, Bool, true, false, Option, none, some, List, [], ◌∷◌, ◌++◌, arith, if◌then◌else◌, All,
}
use komizo.Prelude.Int.{ℤ, pos, ◌+ℤ◌, ◌-ℤ◌, ◌≤ℤ◌, le_ℤ, lt_ℤ, eq_ℤ, +ℤ_parts, -ℤ_parts, le_ℤ→≤ℤ}
use komizo.Prelude.Result.{message, Result, ok, err}
use mathlib.Core.Path.{subst}
use mathlib.Core.Option.{some-injective}
use komizo.Capacity.{
  Notice, Floors, Kind, mem, disk, Decision, Report, minimum, warning, check_each, check_floors,
  Reserves, check_reserve,
}

-- What is available is there, and not below a floor that is set.
abbrev pub Above : ℤ → Option ℤ → Type 0
Above floor available = le_ℤ floor (pos 0) ≡ false → (a : ℤ) × (available ≡ some a) × (floor ≤ℤ a)

-- The decision refuses nothing.
abbrev pub Accepts : Result Decision → Type 0
Accepts (ok d) = d.refuse ≡ none
Accepts (err e) = ⊥

abbrev decide : Kind → ℤ → ℤ → List (Kind × ℤ × Option ℤ) → List Notice → Bool → Result Decision
decide kind floor a rest warns true =
    ok (record { refuse = some (record { kind = kind; available = a; floor = floor }); warns = [] })
decide kind floor a rest warns false = check_each rest (warns ++ warning kind floor a)

Accepts-decide :
    (kind : Kind) (floor a : ℤ) (rest : List (Kind × ℤ × Option ℤ)) (warns : List Notice) (b : Bool)
    → Accepts (decide kind floor a rest warns b)
    → (b ≡ false) × Accepts (check_each rest (warns ++ warning kind floor a))
Accepts-decide kind floor a rest warns true h = absurd (cc)
Accepts-decide kind floor a rest warns false h = (refl, h)

not_below : (floor a : ℤ) → lt_ℤ a floor ≡ false → floor ≤ℤ a
not_below floor a h = ground arith

check_each-Above :
    (kind : Kind) (floor : ℤ) (available : Option ℤ) (rest : List (Kind × ℤ × Option ℤ))
    (warns : List Notice)
    → Accepts (check_each ((kind, floor, available) ∷ rest) warns)
    → Above floor available × ((ws : List Notice) × Accepts (check_each rest ws))
unfolding check_each
check_each-Above kind floor available rest warns h = go (le_ℤ floor (pos 0)) refl available h
  where
    go :
        (b : Bool)
        → le_ℤ floor (pos 0) ≡ b
        → (o : Option ℤ)
        → Accepts (elim b [
          | true ↦ check_each rest warns
          | false ↦ elim o [
            | none ↦ err (message "floors are set but report.json lacks available fields")
            | some a ↦ elim (lt_ℤ a floor) [
              | true ↦ ok (record {
                refuse = some (record { kind = kind; available = a; floor = floor });
                warns = [];
              })
              | false ↦ check_each rest (warns ++ warning kind floor a)
            ]
          ]
        ])
        → Above floor o × ((ws : List Notice) × Accepts (check_each rest ws))
    go true e o k = ((λ f. absurd (cc)), (warns, k))
    go false e none k = elim k [ ]
    go false e (some a) k =
        let (above, more) = Accepts-decide kind floor a rest warns (lt_ℤ a floor) k in
        ((λ f. (a, refl, not_below floor a above)), (_, more))

le_trans : (a b c : ℤ) → a ≤ℤ b → b ≤ℤ c → a ≤ℤ c
le_trans a b c h k = omega arith

All-le : (a b : ℤ) (disks : List ℤ) → a ≤ℤ b → All (λ d. b ≤ℤ d) disks → All (λ d. a ≤ℤ d) disks
All-le a b [] h k = tt
All-le a b (d ∷ disks) h k = (le_trans a b d h k.0, All-le a b disks h k.1)

smaller : (d b : ℤ) → ((if le_ℤ d b then d else b) ≤ℤ d) × ((if le_ℤ d b then d else b) ≤ℤ b)
smaller d b = ground arith

-- The least of the disks is not above any of them.
minimum-le : (disks : List ℤ) (a : ℤ) → minimum disks ≡ some a → All (λ d. a ≤ℤ d) disks
unfolding minimum
minimum-le [] a h = tt
minimum-le (d ∷ disks) a h = go (minimum disks) (minimum-le disks) (minimum-none disks) h
  where
    minimum-none : (ds : List ℤ) → minimum ds ≡ none → All (λ c. a ≤ℤ c) ds
    minimum-none [] e = tt
    minimum-none (c ∷ ds) e =
        elim (minimum ds)
            as (λ o.
              elim o [ none ↦ some c | some b ↦ some (if le_ℤ c b then c else b) ] ≡ none
              → All (λ x. a ≤ℤ x) (c ∷ ds)) [ none ↦ λ f. absurd (cc) | some b ↦ λ f. absurd (cc) ]
          e

    go :
        (o : Option ℤ)
        → ((b : ℤ) → o ≡ some b → All (λ c. b ≤ℤ c) disks)
        → (o ≡ none → All (λ c. a ≤ℤ c) disks)
        → elim o [ none ↦ some d | some b ↦ some (if le_ℤ d b then d else b) ] ≡ some a
        → All (λ c. a ≤ℤ c) (d ∷ disks)
    go none f n e = (ground arith, n refl)
    go (some b) f n e =
        let (left, right) = smaller d b in
        let same : (if le_ℤ d b then d else b) ≡ a = some-injective _ _ e in
        (
          subst (λ c. c ≤ℤ d) same left,
          All-le a b disks (subst (λ c. c ≤ℤ b) same right) (f b refl),
        )

Above-disks :
    (floor : ℤ) (disks : List ℤ)
    → Above floor (minimum disks)
    → le_ℤ floor (pos 0) ≡ false
    → All (λ d. floor ≤ℤ d) disks
Above-disks floor disks h f =
    let (a, e, above) = h f in All-le floor a disks above (minimum-le disks a e)

-- When floors are set and the decision refuses nothing, the report could be read; its memory and the
-- least of its disks are known and not below a floor that is positive, and no disk is below it.
pub check_floors-Above :
    (floors : Floors) (empty_report : Bool) (report : Option Report)
    → Accepts (check_floors floors true empty_report report)
    → (r : Report) × (report ≡ some r)
      × Above floors.mem_bytes r.mem
      × Above floors.disk_bytes (minimum r.disks)
      × (le_ℤ floors.disk_bytes (pos 0) ≡ false → All (λ d. floors.disk_bytes ≤ℤ d) r.disks)
unfolding check_floors
check_floors-Above floors true report h = elim h [ ]
check_floors-Above floors false none h = elim h [ ]
check_floors-Above floors false (some r) h =
    let (above_mem, (ws, more)) =
      check_each-Above mem floors.mem_bytes r.mem ((disk, floors.disk_bytes, minimum r.disks) ∷ [])
        [] h in
    let (above_disk, last) = check_each-Above disk floors.disk_bytes (minimum r.disks) [] ws more in
    (r, refl, above_mem, above_disk, Above-disks floors.disk_bytes r.disks above_disk)

reserve_fits :
    (a b c total : ℤ) → a ≤ℤ total → le_ℤ c (total -ℤ a -ℤ b) ≡ true → a +ℤ b +ℤ c ≤ℤ total
reserve_fits a b c total h k =
    let k' = le_ℤ→≤ℤ c (total -ℤ a -ℤ b) k in
    omega (arith, +ℤ_parts a b, +ℤ_parts (a +ℤ b) c, -ℤ_parts total a, -ℤ_parts (total -ℤ a) b)

-- A preview is let in beside a production reserve only when the memory of the host holds the reserve
-- of production, that of the databases and the budget of the previews together.
pub check_reserve_ok :
    (k : Reserves) (measured : Option ℤ)
    → eq_ℤ k.production_reserve (pos 0) ≡ false
    → check_reserve k measured ≡ ok tt
    → (total : ℤ) × (measured ≡ some total)
      × (k.production_reserve +ℤ k.database_reserve +ℤ k.memory_budget ≤ℤ total)
unfolding check_reserve
check_reserve_ok k none n h = absurd (ground arith)
check_reserve_ok k (some total) n h = (
  total,
  refl,
  reserve_fits k.production_reserve k.database_reserve k.memory_budget total
      (ground (arith, -ℤ_parts total k.production_reserve)) (ground arith),
)
