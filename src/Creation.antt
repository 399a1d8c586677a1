-- ===== src/Creation.antt =====
-- `create` of arch/src/x86_64/process/mod.rs: a program in the executable format becomes a process.
-- The parser of the format and the mapper are parameters.
use proka_kernel.Base.{
  Bool, List, Option, [], drop, if◌then◌else◌, leb, length, none, some, suc, take, true, zero, ℕ,
  ◌*◌, ◌+◌, ◌/◌, ◌==◌, ◌∷◌,
}
use proka_kernel.Paging.{Flags, Tables, present_flags, table_flags}
use proka_kernel.Paging.Process.{start_table}
use proka_kernel.ArchFrames.{PhysFrames, allocate_contiguous}
use proka_kernel.FrameAlloc.{FrameAlloc}
use proka_kernel.Process.{
  Error, Kernel, ProcType, Selectors, create_driver, create_normal, driver, invalid_format,
  memory_not_enough, normal, page_error,
}
use proka_kernel.Process.Loading.{Request, SectionData, is_normal, load_requests}
pub mod Outcomes
pub mod Additions
pub mod Fixtures
mod Tests

-- What the parser says of a section: its flags, and its place in the program.
pub record Section : Type 0 where
  pub loadable : Bool
  pub execable : Bool
  pub base : ℕ
  pub size : ℕ

-- A parsed program: the verdict of `validate`, whether the mode has `CoreDrv`, and the sections.
pub record Program : Type 0 where
  pub valid : Bool
  pub core_drv : Bool
  pub sections : List Section

-- The process tables, the frame allocator, the page tables and the bytes of memory.
pub record Machine : Type 0 where
  pub kernel : Kernel
  pub frames : FrameAlloc
  pub tables : Tables
  pub memory : ℕ → ℕ

-- `copy_from_slice` to an address.
unfoldable pub store_bytes : ℕ → List ℕ → (ℕ → ℕ) → ℕ → ℕ
store_bytes addr [] memory = memory
store_bytes addr (byte ∷ bytes) memory =
    store_bytes (addr + 1) bytes (λ at. if at == addr then byte else memory at)

-- How a part of `create` ends: with a value, an error or a panic.
pub data Step (A : Type 0) : Type 0 where
  done : A → Machine → Step A
  fails : Error → Machine → Step A
  panicked : Machine → Step A

infixl 5 ◌then◌
abbrev pub ◌then◌ : {A B : Type 0} → Step A → (A → Machine → Step B) → Step B
done a m then f = f a m
fails e m then f = fails e m
panicked m then f = panicked m

abbrev pub stack_pages : ℕ
stack_pages = 2

module _ (x : PhysFrames) (sel : Selectors) (parse : List ℕ → Option Program)
    (map_to : Tables → ℕ → ℕ → ℕ → Flags → FrameAlloc → Bool × Tables × FrameAlloc) where
  -- `allocate_contiguous`, as the address of the first frame.
  unfoldable pub take_frames : ℕ → Machine → Step ℕ
  take_frames n m = elim (allocate_contiguous x m.frames n) [
    | none ↦ fails memory_not_enough m
    | some (frame, frames) ↦ done (x.pfn frame * 0x1000) (record m { frames = frames })
  ]

  -- `data[base..base + len]`, which panics past the end, and the copy.
  unfoldable pub copy_section : List ℕ → Section → ℕ → Machine → Step (Unit {0})
  copy_section bytes section addr m =
      if leb (section.base + section.size) (length bytes)
      then done tt (record m {
        memory = store_bytes addr (take section.size (drop section.base bytes)) m.memory;
      })
      else panicked m

  -- The loop over the sections: those that can be loaded get frames and their bytes.
  unfoldable pub load_sections : List ℕ → List Section → Machine → Step (List SectionData)
  load_sections bytes [] m = done [] m
  load_sections bytes (section ∷ sections) m =
      let pages = (section.size + 0xfff) / 0x1000 in
      let loaded : Step (List SectionData) = take_frames pages m then (λ addr m1.
        copy_section bytes section addr m1 then (λ _ m2.
          load_sections bytes sections m2 then (λ infos m3.
            done (record { addr = addr; pages = pages; executable = section.execable } ∷ infos)
              m3))) in
      let skipped : Step (List SectionData) = load_sections bytes sections m in
      if section.loadable then loaded else skipped

  -- One call of `map_to`, with `PageError` where it fails.
  unfoldable pub map_page : ℕ → ℕ → ℕ → Flags → Machine → Step (Unit {0})
  map_page pml4 virt_addr phys_addr flags m =
      let (fine, tables, frames) = map_to m.tables pml4 virt_addr phys_addr flags m.frames in
      let after = record m { tables = tables; frames = frames } in
      if fine then done tt after else fails page_error after

  abbrev pub stack_page_flags : ProcType → Flags
  stack_page_flags proctype = record table_flags {
    no_execute = true;
    user_accessible = is_normal proctype;
  }

  -- `for i in first..first + n`.
  unfoldable pub map_stack : ProcType → ℕ → ℕ → ℕ → ℕ → Machine → Step (Unit {0})
  map_stack proctype pml4 stack_base first zero m = done tt m
  map_stack proctype pml4 stack_base first (suc n) m =
      map_page pml4 (first * 0x1000 + 0x7fffffffe000) (first * 0x1000 + stack_base)
        (stack_page_flags proctype) m
      then (λ _ m1. map_stack proctype pml4 stack_base (first + 1) n m1)

  abbrev pub request_flags : Request → Flags
  request_flags r = record present_flags {
    writable = r.writable;
    no_execute = r.no_execute;
    user_accessible = r.user_accessible;
  }

  -- The loops over the sections' pages, which stop at the first failure.
  unfoldable pub map_requests : ℕ → List Request → Machine → Step (Unit {0})
  map_requests pml4 [] m = done tt m
  map_requests pml4 (r ∷ rs) m =
      map_page pml4 r.virt_addr r.phys_addr (request_flags r) m
      then (λ _ m1. map_requests pml4 rs m1)

  -- The entry in the process table; a full table is a panic.
  unfoldable pub enter : ProcType → ℕ → ℕ → Machine → Step (Unit {0})
  enter normal pml4 priority m = elim (create_normal sel m.kernel pml4 priority) [
    | none ↦ panicked m
    | some kernel ↦ done tt (record m { kernel = kernel })
  ]
  enter driver pml4 priority m = elim (create_driver sel m.kernel pml4) [
    | none ↦ panicked m
    | some kernel ↦ done tt (record m { kernel = kernel })
  ]

  abbrev pub kind_of : Program → ProcType
  kind_of program = if program.core_drv then driver else normal

  -- From the parsed program on; the value is the page table's address.
  unfoldable pub launch : List ℕ → Program → ℕ → Machine → Step ℕ
  launch bytes program priority m =
      let proctype = kind_of program in
      load_sections bytes program.sections m then (λ infos m1. take_frames 1 m1 then (λ pml4 m2.
        take_frames stack_pages (record m2 { tables = start_table proctype pml4 m2.tables })
        then (λ stack_base m3. map_stack proctype pml4 stack_base 0 stack_pages m3 then (λ _ m4.
            map_requests pml4 (load_requests proctype 0 infos) m4
            then (λ _ m5. enter proctype pml4 priority m5 then (λ _ m6. done pml4 m6))))))

  unfoldable pub create : List ℕ → ℕ → Machine → Step ℕ
  create bytes priority m = elim (parse bytes) [
    | none ↦ fails invalid_format m
    | some program ↦
        if program.valid then launch bytes program priority m else fails invalid_format m
  ]
