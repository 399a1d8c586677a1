-- ===== src/Creation/Fixtures.antt =====
-- A small machine and a small format of programs, for runs of `create`.
use proka_kernel.Base.{Bool, List, Option, [], false, none, refl, some, suc, true, zero, ℕ, ◌∷◌}
use proka_kernel.Creation.{Machine, Program}
use proka_kernel.Paging.{Flags, Tables, unused}
use proka_kernel.ArchFrames.{PhysFrames}
use proka_kernel.FrameAlloc.{FrameAlloc}
use proka_kernel.Process.{Selectors, boot}

abbrev pub numbers : PhysFrames
numbers = record { PhysFrame = ℕ; from_pfn = λ n. n; pfn = λ n. n; pfn-from_pfn = λ n h. refl }

abbrev pub selectors : Selectors
selectors = record { kernel_code = 8; kernel_data = 16; user_code = 43; user_data = 35; tss = 48 }

-- The first byte tells a driver from a program of a user; no program has a section.
abbrev pub program_of : List ℕ → Option Program
program_of [] = none
program_of (zero ∷ _) = some (record { valid = true; core_drv = false; sections = [] })
program_of (suc _ ∷ _) = some (record { valid = true; core_drv = true; sections = [] })

abbrev pub map_nothing : Tables → ℕ → ℕ → ℕ → Flags → FrameAlloc → Bool × Tables × FrameAlloc
map_nothing tables pml4 page frame flags frames = (true, tables, frames)

-- Sixteen frames, the first three in use.
abbrev pub machine : Machine
machine = record {
  kernel = boot;
  frames = record { bitmap = 7 ∷ 0 ∷ []; max_page = 16; reserved = 2; self_used_page = 1; pos = 3 };
  tables = λ _ _. unused;
  memory = λ _. 0;
}
