-- ===== src/Creation/Tests.antt =====
-- Creating a driver from a program of one section, and the law at that input.
use proka_kernel.Base.{
  List, Option, [], if◌then◌else◌, length, none, refl, some, true, ℕ, ◌==◌, ◌∷◌, ◌≡◌, ◌⊎◌,
}
use proka_kernel.Creation.{Program, create, fails, kind_of, ◌then◌}
use proka_kernel.Creation.Fixtures.{machine, map_nothing, numbers, selectors}
use proka_kernel.Creation.Outcomes.{Created, create-Created}
use proka_kernel.Process.{boot, invalid_format}
use proka_kernel.Process.Tables.{boot-IsConsistent}

-- Every text of three bytes is a driver whose code is these bytes.
three_bytes : List ℕ → Option Program
three_bytes bytes =
    if length bytes == 3
    then some (record {
      valid = true;
      core_drv = true;
      sections = record { loadable = true; execable = true; base = 0; size = 3 } ∷ [];
    })
    else none

create-Created_example :
    ((program : Program) × (three_bytes (7 ∷ 8 ∷ 9 ∷ []) ≡ some program)
      × (program.valid ≡ true)
      × Created numbers selectors three_bytes map_nothing boot
          (kind_of numbers selectors three_bytes map_nothing program)
          0
          (create numbers selectors three_bytes map_nothing (7 ∷ 8 ∷ 9 ∷ []) 0 machine))
    ⊎ (create numbers selectors three_bytes map_nothing (7 ∷ 8 ∷ 9 ∷ []) 0 machine
        ≡ fails invalid_format machine)
create-Created_example =
    create-Created numbers selectors three_bytes map_nothing boot (7 ∷ 8 ∷ 9 ∷ []) 0 machine
      boot-IsConsistent refl
