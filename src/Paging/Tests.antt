-- ===== src/Paging/Tests.antt =====
-- Runs of the page tables, and the laws at concrete inputs.
use proka_kernel.Base.{arith, if◌then◌else◌, inr, refl, some, true, ◌&&◌, ◌==◌, ◌≡◌}
use proka_kernel.Paging.{
  Flags, Tables, build, clear_area, fill, fill_tables, init, map_high, map_hproc, map_low,
  map_shared, pml4_addr, set_addr, table_flags, unused,
}
use proka_kernel.Paging.Walk.{translate}
use proka_kernel.Paging.Contents.{built}
use proka_kernel.Paging.Layout.{read_rights, translate-layout}
use proka_kernel.Paging.Process.{start_table}
use proka_kernel.Process.{ProcType}

-- Memory in which nothing is mapped, with the loader's framebuffer pointers at 0x5000.
loader_tables : Tables
loader_tables table i =
    if table == 0x3000 && i == 448 then record { addr = 0x5000; flags = table_flags } else unused

translate-layout_example :
    translate (built loader_tables 0x3000) pml4_addr 0xffff800000600005
    ≡ some (0x800005, read_rights)
translate-layout_example =
    translate-layout loader_tables 0x3000 0xffff800000600005 (inr (omega arith, omega arith))
      (omega arith)

-- A process whose stack is mapped in the lower half, for user mode.
abbrev user_flags : Flags
user_flags = record table_flags { user_accessible = true }

live_tables : ProcType → Tables
live_tables proctype table i =
    if table == 0x2000000 && i == 0
    then record { addr = 0x2001000; flags = user_flags }
    else start_table proctype 0x2000000 (built loader_tables 0x3000) table i

-- The framebuffer's slot is the loader's, and the byte at 0x1fffff stays out of the clearing.
framebuffer_slot : (built loader_tables 0x3000 pml4_addr 448).addr ≡ 0x5000
unfolding build init map_hproc map_shared map_high map_low fill_tables fill set_addr clear_area
    loader_tables
framebuffer_slot = refl
