-- ===== src/Paging/Process.antt =====
-- The table that `create` of arch/src/x86_64/process/mod.rs starts a process with, and the upper
-- half of the address space that the process gets by it.
use proka_kernel.Base.{
  Bool, Option, false, if◌then◌else◌, ltb, none, some, ℕ, ◌+◌, ◌-◌, ◌<◌, ◌==◌, ◌≡◌, ◌≤◌,
}
use proka_kernel.Paging.{
  Tables, pdpt_high_addr, pdpt_hproc_addr, pml4_addr, set_addr, table_flags, unused,
}
use proka_kernel.Paging.Walk.{Target}
use proka_kernel.Paging.Contents.{built}
use proka_kernel.Paging.Layout.{in_range, layout, read_rights, shared_layout}
use proka_kernel.Process.{ProcType}

-- `core::ptr::copy` of a table, and `PageTable::zero`.
abbrev pub copy_table : ℕ → ℕ → Tables → Tables
copy_table source target tables other i =
    if other == target then tables source i else tables other i

abbrev pub zero_table : ℕ → Tables → Tables
zero_table table tables other i = if other == table then unused else tables other i

abbrev pub high_pointers : ProcType → ℕ
high_pointers ProcType.driver = pdpt_hproc_addr
high_pointers ProcType.normal = pdpt_high_addr

-- The steps of `create` on the new PML4 up to the mapping of the stack.
unfoldable pub start_table : ProcType → ℕ → Tables → Tables
start_table proctype pml4 tables =
    set_addr pml4 256 (high_pointers proctype) table_flags
      (zero_table pml4 (copy_table pml4_addr pml4 tables))

-- A driver sees 48 MiB from the kernel's image on, for reading.
abbrev pub driver_layout : ℕ → Option Target
driver_layout va =
    if in_range va 0xffff800000000000 0x3000000
    then some (va - 0xffff800000000000 + 0x200000, read_rights)
    else shared_layout va

-- What a new process can reach: the kernel's lower half is gone.
abbrev pub process_layout : ProcType → ℕ → Option Target
process_layout ProcType.driver va = driver_layout va
process_layout ProcType.normal va = if ltb va 0x40000000 then none else layout va

module _ (tables : Tables) (cr3 pml4 va : ℕ) (proctype : ProcType) where
  started : Tables
  started = start_table proctype pml4 (built tables cr3)

-- Two tables with the same slots for the upper half.
abbrev pub SameUpper : ℕ → Tables → Tables → Type 0
SameUpper pml4 live started = (i : ℕ) → 256 ≤ i → i < 512 → live pml4 i ≡ started pml4 i

-- Whether user mode reaches an address.
abbrev pub is_user_accessible : Option Target → Bool
is_user_accessible none = false
is_user_accessible (some (_, rights)) = rights.user_accessible
