-- ===== src/Paging.antt =====
-- The kernel's page tables: arch/src/x86_64/memory/paging.rs, and the clearing of their place in
-- arch/src/x86_64/memory/mod.rs. A page table is an address with its 512 entries; what the writes
-- leave of the others stays as it was.
use proka_kernel.Base.{
  Bool, false, if◌then◌else◌, leb, ltb, suc, true, zero, ℕ, ◌&&◌, ◌*◌, ◌+◌, ◌-◌, ◌==◌,
}
pub mod Entries
pub mod Built
pub mod Contents
pub mod Walk
pub mod Layout
pub mod Process
mod Tests

-- The flags of an entry that the kernel sets: `PageTableFlags` of the x86_64 crate.
pub record Flags : Type 0 where
  pub present : Bool
  pub writable : Bool
  pub user_accessible : Bool
  pub no_cache : Bool
  pub huge_page : Bool
  pub global : Bool
  pub no_execute : Bool

abbrev pub no_flags : Flags
no_flags = record {
  present = false;
  writable = false;
  user_accessible = false;
  no_cache = false;
  huge_page = false;
  global = false;
  no_execute = false;
}

-- `PageTableFlags::PRESENT`.
abbrev pub present_flags : Flags
present_flags = record no_flags { present = true }

-- `flags` and `huge_flags` of `init`.
abbrev pub table_flags : Flags
table_flags = record present_flags { writable = true }

abbrev pub huge_flags : Flags
huge_flags = record table_flags { huge_page = true }

abbrev pub initrd_flags : Flags
initrd_flags = record present_flags { huge_page = true }

abbrev pub stack_flags : Flags
stack_flags = record huge_flags { global = true; no_execute = true }

abbrev pub shared_flags : Flags
shared_flags = record stack_flags { user_accessible = true }

pub record Entry : Type 0 where
  pub addr : ℕ
  pub flags : Flags

-- An entry of zeroed memory.
abbrev pub unused : Entry
unused = record { addr = 0; flags = no_flags }

-- The entry at an index of the table at an address.
abbrev pub Tables : Type 0
Tables = ℕ → ℕ → Entry

-- `PageTableEntry::set_addr` on `table[index]`.
pub set_addr : ℕ → ℕ → ℕ → Flags → Tables → Tables
set_addr table index addr flags tables other i =
    if other == table && i == index then record { addr = addr; flags = flags } else tables other i

abbrev pub pml4_addr : ℕ
pml4_addr = 0x100000

abbrev pub pdpt_high_addr : ℕ
pdpt_high_addr = 0x101000

abbrev pub pdpt_low_addr : ℕ
pdpt_low_addr = 0x102000

abbrev pub pdt_low_addr : ℕ
pdt_low_addr = 0x103000

abbrev pub pdt_high_addr : ℕ
pdt_high_addr = 0x104000

abbrev pub pt_low_addr : ℕ
pt_low_addr = 0x105000

abbrev pub pdpt_hproc_addr : ℕ
pdpt_hproc_addr = 0x106000

abbrev pub pdt_hproc_addr : ℕ
pdt_hproc_addr = 0x107000

abbrev pub pdt_gs_addr : ℕ
pdt_gs_addr = 0x108000

abbrev pub pdt_grw_addr : ℕ
pdt_grw_addr = 0x109000

abbrev pub pdt_low2_addr : ℕ
pdt_low2_addr = 0x10a000

-- `for i in first..first + n { table[i].set_addr(phys(i), flags) }`.
pub fill : ℕ → ℕ → ℕ → (ℕ → ℕ) → Flags → Tables → Tables
fill zero first table phys flags tables = tables
fill (suc n) first table phys flags tables =
    fill n (suc first) table phys flags (set_addr table first (phys first) flags tables)

-- The frame that page `i_pt` of table `i_pdt` of the kernel's image names.
abbrev pub kernel_phys : ℕ → ℕ → ℕ
kernel_phys i_pdt i_pt = 0x200000 + i_pdt * 0x200000 + i_pt * 0x1000

-- `for i_pdt in first..first + n`: a table of 4 KiB pages at `current`, put into `directory`.
-- The result has the next `current`.
pub fill_tables : ℕ → ℕ → ℕ → ℕ → Flags → Tables → Tables × ℕ
fill_tables zero i_pdt directory current flags tables = (tables, current)
fill_tables (suc n) i_pdt directory current flags tables =
    let filled = fill 512 0 current (kernel_phys i_pdt) flags tables in
    fill_tables n (suc i_pdt) directory (current + 0x1000) flags
      (set_addr directory i_pdt current flags filled)

-- The identity mapping of the first GiB.
pub map_low : Tables → Tables
map_low tables =
    let pml4 = set_addr pml4_addr 0 pdpt_low_addr table_flags tables in
    let pdpt = set_addr pdpt_low_addr 0 pdt_low_addr table_flags pml4 in
    let pdt = set_addr pdt_low_addr 0 pt_low_addr table_flags pdpt in
    let pt = fill 512 0 pt_low_addr (λ i. i * 0x1000) table_flags pdt in
    fill 511 1 pdt_low_addr (λ i. i * 0x200000) huge_flags pt

-- The kernel's image and the initrd in the higher half, with the next free table's address.
pub map_high : Tables → Tables × ℕ
map_high tables =
    let pml4 = set_addr pml4_addr 256 pdpt_high_addr table_flags tables in
    let pdpt = set_addr pdpt_high_addr 0 pdt_high_addr table_flags pml4 in
    let (kernel, current) = fill_tables 3 0 pdt_high_addr pdt_low2_addr table_flags pdpt in
    (fill 16 3 pdt_high_addr (λ i. 0x800000 + (i - 3) * 0x200000) initrd_flags kernel, current)

-- The interrupt stack and the read-write areas, which the processes share.
pub map_shared : Tables → Tables
map_shared tables =
    let high = set_addr pdpt_high_addr 1 pdt_gs_addr table_flags tables in
    let hproc = set_addr pdpt_hproc_addr 1 pdt_gs_addr table_flags high in
    let stack = set_addr pdt_gs_addr 0 0x1800000 stack_flags hproc in
    let high2 = set_addr pdpt_high_addr 2 pdt_grw_addr table_flags stack in
    let hproc2 = set_addr pdpt_hproc_addr 2 pdt_grw_addr table_flags high2 in
    let kernel_area = set_addr pdt_grw_addr 0 0x1a00000 stack_flags hproc2 in
    set_addr pdt_grw_addr 1 0x1c00000 shared_flags kernel_area

-- The kernel's image as driver processes see it.
pub map_hproc : ℕ → Tables → Tables
map_hproc current tables =
    let pdpt = set_addr pdpt_hproc_addr 0 pdt_hproc_addr present_flags tables in
    (fill_tables 24 0 pdt_hproc_addr current present_flags pdpt).0

-- The memory of tables and the table that CR3 names.
pub record Paging : Type 0 where
  pub tables : Tables
  pub cr3 : ℕ

-- `init`. The framebuffer's entry is taken from the loader's table.
pub init : Paging → Paging
init paging =
    let (high, current) = map_high (map_low paging.tables) in
    let mapped = map_hproc current (map_shared high) in
    let fb_pdpt_phys = (mapped paging.cr3 448).addr in
    record { tables = set_addr pml4_addr 448 fb_pdpt_phys table_flags mapped; cr3 = pml4_addr }

-- `area.fill(0)` of memory/mod.rs: the bytes from 0x100000 up to 0x1ffffe. An entry has 8 bytes; the
-- last one of the area, cleared but for its highest byte, is kept whole here.
pub clear_area : Tables → Tables
clear_area tables table i =
    if leb 0x100000 (table + 8 * i) && ltb (table + 8 * i + 7) 0x1fffff
    then unused
    else tables table i

-- The tables that `memory::init` sets up: the cleared area and `paging::init`.
pub build : Paging → Paging
build paging = init (record { tables = clear_area paging.tables; cr3 = paging.cr3 })
