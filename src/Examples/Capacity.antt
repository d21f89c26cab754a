-- ===== src/Examples/Capacity.antt =====
-- The capacity theorems at one host with two disks.
use komizo.Prelude.{◌≡◌, refl, true, false, some, [], ◌∷◌, All}
use komizo.Prelude.Int.{ℤ, pos, ◌+ℤ◌, ◌-ℤ◌, ◌≤ℤ◌, le_ℤ}
use komizo.Capacity.{Floors, Report, Reserves, minimum, check_floors, check_reserve}
use komizo.Capacity.Room.{Above, Accepts, check_floors-Above, check_reserve_ok}

abbrev floors : Floors
floors = record { disk_bytes = pos 100; mem_bytes = pos 50 }

abbrev report : Report
report = record { mem = some (pos 70); disks = pos 300 ∷ pos 150 ∷ [] }

allowed : Accepts (check_floors floors true false (some report))
unfolding check_floors ◌+ℤ◌
allowed = refl

check_floors-Above_example :
    (r : Report) × (some report ≡ some r)
    × Above floors.mem_bytes r.mem
    × Above floors.disk_bytes (minimum r.disks)
    × (le_ℤ floors.disk_bytes (pos 0) ≡ false → All (λ d. floors.disk_bytes ≤ℤ d) r.disks)
check_floors-Above_example = check_floors-Above floors false (some report) allowed

abbrev reserves : Reserves
reserves = record {
  memory_budget = pos 200;
  database_reserve = pos 100;
  production_reserve = pos 500;
}

check_reserve_ok_example :
    (total : ℤ) × (some (pos 1000) ≡ some total)
    × (reserves.production_reserve +ℤ reserves.database_reserve +ℤ reserves.memory_budget ≤ℤ total)
check_reserve_ok_example =
    check_reserve_ok reserves (some (pos 1000)) refl (unfold check_reserve ◌-ℤ◌ in refl)
