-- ===== src/Capacity.antt =====
-- The floors of a host's memory and disks, and the memory that previews leave to production:
-- src/host/preview/capacity.rs.
use komizo.Prelude.{
  ◌+◌, ◌-◌, ◌/◌, ◌^◌, Bool, true, false, not, ◌&&◌, Option, none, some, List, [], ◌∷◌, ◌++◌,
  if◌then◌else◌,
}
use komizo.Prelude.Int.{ℤ, pos, ◌+ℤ◌, ◌-ℤ◌, le_ℤ, lt_ℤ, eq_ℤ, in_i64}
use komizo.Prelude.Result.{message, Result, ok, err, ensure, ok_or}
use komizo.Prelude.Result.{◌>>=◌, ◌>>◌}
pub mod Room

pub record Floors : Type 0 where
  pub disk_bytes : ℤ
  pub mem_bytes : ℤ

pub data Kind : Type 0 where
  mem disk : Kind

-- The values that a refusal or a warning prints: what is available, and the floor.
pub record Notice : Type 0 where
  pub kind : Kind
  pub available : ℤ
  pub floor : ℤ

pub record Decision : Type 0 where
  pub refuse : Option Notice
  pub warns : List Notice

-- What is decoded of the report: the available memory, if it is there, and that of each disk.
pub record Report : Type 0 where
  pub mem : Option ℤ
  pub disks : List ℤ

-- `Iterator::min`
unfoldable pub minimum : List ℤ → Option ℤ
minimum [] = none
minimum (a ∷ rest) = elim (minimum rest) [
  | none ↦ some a
  | some b ↦ some (if le_ℤ a b then a else b)
]

-- `wrapping_mul(2)` of an i64.
unfoldable pub wrapping_double : ℤ → ℤ
wrapping_double v =
    if in_i64 (v +ℤ v)
    then v +ℤ v
    else if lt_ℤ v (pos 0)
    then v +ℤ v +ℤ pos (2 ^ 64)
    else v +ℤ v -ℤ pos (2 ^ 64)

unfoldable pub warning : Kind → (floor available : ℤ) → List Notice
unfolding wrapping_double
warning kind floor available =
    if lt_ℤ available (wrapping_double floor)
    then record { kind = kind; available = available; floor = floor } ∷ []
    else []

-- The loop over the floors, with the warnings so far.
unfoldable pub check_each : List (Kind × ℤ × Option ℤ) → List Notice → Result Decision
unfolding warning
check_each [] warns = ok (record { refuse = none; warns = warns })
check_each ((kind, floor, available) ∷ rest) warns = elim (le_ℤ floor (pos 0)) [
  | true ↦ check_each rest warns
  | false ↦ elim available [
    | none ↦ err (message "floors are set but report.json lacks available fields")
    | some a ↦ elim (lt_ℤ a floor) [
      | true ↦ ok (record {
        refuse = some (record { kind = kind; available = a; floor = floor });
        warns = [];
      })
      | false ↦ check_each rest (warns ++ warning kind floor a)
    ]
  ]
]

-- `check_floors`, with whether the report is empty and what its JSON decodes to.
unfoldable pub check_floors :
    Floors → (present empty_report : Bool) → Option Report → Result Decision
unfolding check_each minimum
check_floors floors present empty_report report =
    if not present then ok (record { refuse = none; warns = [] }) else (do
      ensure (not empty_report) "floors are set but report.json is missing or unreadable"
      r ← ok_or report "floors are set but report.json is not readable"
      check_each ((mem, floors.mem_bytes, r.mem) ∷ (disk, floors.disk_bytes, minimum r.disks) ∷ [])
          [])

-- The fields of a `Knob` that `production_reserve` reads.
pub record Reserves : Type 0 where
  pub memory_budget : ℤ
  pub database_reserve : ℤ
  pub production_reserve : ℤ

-- `production_reserve`, with the total memory of the report, if it is there.
unfoldable pub check_reserve : Reserves → Option ℤ → Result (Unit {0})
check_reserve k measured = if eq_ℤ k.production_reserve (pos 0) then ok tt else (do
  total ←
      ok_or (elim measured [ none ↦ none | some n ↦ if lt_ℤ (pos 0) n then some n else none ])
        "preview up requires measured physical RAM for PRODUCTION_RESERVE"
  ensure
      (lt_ℤ (pos 0) k.memory_budget
        && lt_ℤ (pos 0) k.database_reserve
        && lt_ℤ k.production_reserve total
        && le_ℤ k.database_reserve (total -ℤ k.production_reserve)
        && le_ℤ k.memory_budget (total -ℤ k.production_reserve -ℤ k.database_reserve))
      "preview up refused: preview/database budgets would consume the production reserve")
