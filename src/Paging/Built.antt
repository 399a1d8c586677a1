-- ===== src/Paging/Built.antt =====
-- The entries of every table after `memory::init` and `paging::init`.
use proka_kernel.Base.{
  arith, false, if◌then◌else◌, inl, leb, ltb, ℕ, ◌&&◌, ◌*◌, ◌+◌, ◌-◌, ◌<◌, ◌==◌, ◌≡◌, ◌≢◌, ◌≤◌,
}
use proka_kernel.Paging.{
  Tables, build, clear_area, fill, fill_tables, huge_flags, init, initrd_flags, kernel_phys,
  map_high, map_hproc, map_low, map_shared, pdpt_high_addr, pdpt_hproc_addr, pdpt_low_addr,
  pdt_high_addr, pdt_hproc_addr, pdt_low2_addr, pdt_low_addr, pml4_addr, present_flags, pt_low_addr,
  set_addr, table_flags, unused,
}
use proka_kernel.Paging.Entries.{
  fill_lem, fill_tables_directory, fill_tables_next, fill_tables_other, fill_tables_page,
}

pub clear_area_lem :
    (tables : Tables) (table i : ℕ)
    → 0x100000 ≤ table
    → table + 8 * i + 7 < 0x1fffff
    → clear_area tables table i ≡ unused
unfolding clear_area
clear_area_lem tables table i low high = ground arith

-- The first table of the image for driver processes.
abbrev pub hproc_tables : ℕ
hproc_tables = 0x10d000

pub map_high_next : (tables : Tables) → (map_high tables).1 ≡ hproc_tables
unfolding map_high
map_high_next tables = omega (
  arith,
  fill_tables_next pdt_high_addr table_flags 3 0 pdt_low2_addr (
      set_addr pdpt_high_addr 0 pdt_high_addr table_flags
        (set_addr pml4_addr 256 pdpt_high_addr table_flags tables)),
)

-- The last loop leaves the tables below alone.
pub map_hproc_other :
    (tables : Tables) (other i : ℕ)
    → other < hproc_tables
    → other ≢ pdt_hproc_addr
    → other ≢ pdpt_hproc_addr
    → map_hproc hproc_tables tables other i ≡ tables other i
unfolding set_addr map_hproc
map_hproc_other tables other i below h k = ground (
  arith,
  fill_tables_other pdt_hproc_addr present_flags 24 0 hproc_tables
      (set_addr pdpt_hproc_addr 0 pdt_hproc_addr present_flags tables) other i h (inl below),
)

-- `init` up to the last loop, on cleared memory.
unfoldable pub mapped : Tables → Tables
mapped tables = map_shared (map_high (map_low (clear_area tables))).0

-- Everything but the framebuffer's entry.
pub built_mapped :
    (tables : Tables) (cr3 other i : ℕ)
    → (other == pml4_addr && i == 448) ≡ false
    → (build (record { tables = tables; cr3 = cr3 })).tables other i
      ≡ map_hproc hproc_tables (mapped tables) other i
unfolding set_addr build init mapped
built_mapped tables cr3 other i h = rw (map_high_next (map_low (clear_area tables))) (ground arith)

pub map_low_lem :
    (tables : Tables) (other i : ℕ)
    → map_low tables other i ≡ (
        if other == pdt_low_addr && (leb 1 i && ltb i 512)
        then record { addr = i * 0x200000; flags = huge_flags }
        else if other == pt_low_addr && ltb i 512
        then record { addr = i * 0x1000; flags = table_flags }
        else if other == pdt_low_addr && i == 0
        then record { addr = pt_low_addr; flags = table_flags }
        else if other == pdpt_low_addr && i == 0
        then record { addr = pdt_low_addr; flags = table_flags }
        else if other == pml4_addr && i == 0
        then record { addr = pdpt_low_addr; flags = table_flags }
        else tables other i)
unfolding set_addr map_low
map_low_lem tables other i =
    let pml4 = set_addr pml4_addr 0 pdpt_low_addr table_flags tables in
    let pdpt = set_addr pdpt_low_addr 0 pdt_low_addr table_flags pml4 in
    let pdt = set_addr pdt_low_addr 0 pt_low_addr table_flags pdpt in
    let pt = fill 512 0 pt_low_addr (λ i. i * 0x1000) table_flags pdt in
    ground (
      arith,
      fill_lem 512 0 pt_low_addr (λ i. i * 0x1000) table_flags pdt other i,
      fill_lem 511 1 pdt_low_addr (λ i. i * 0x200000) huge_flags pt other i,
    )

module _ (tables : Tables) where
  -- The tables' state before the loop over the image.
  high_start : Tables
  high_start =
      set_addr pdpt_high_addr 0 pdt_high_addr table_flags
        (set_addr pml4_addr 256 pdpt_high_addr table_flags tables)

  pub map_high_other :
      (other i : ℕ)
      → other ≢ pdt_high_addr
      → other < pdt_low2_addr
      → (map_high tables).0 other i ≡ (
          if other == pdpt_high_addr && i == 0
          then record { addr = pdt_high_addr; flags = table_flags }
          else if other == pml4_addr && i == 256
          then record { addr = pdpt_high_addr; flags = table_flags }
          else tables other i)
  unfolding set_addr map_high high_start
  map_high_other other i h low =
      let kernel = (fill_tables 3 0 pdt_high_addr pdt_low2_addr table_flags high_start).0 in
      ground (
        arith,
        fill_lem 16 3 pdt_high_addr (λ i. 0x800000 + (i - 3) * 0x200000) initrd_flags kernel other
            i,
        fill_tables_other pdt_high_addr table_flags 3 0 pdt_low2_addr high_start other i h
            (inl low),
      )

  pub map_high_directory :
      (i : ℕ)
      → (map_high tables).0 pdt_high_addr i ≡ (
          if leb 3 i && ltb i 19
          then record { addr = 0x800000 + (i - 3) * 0x200000; flags = initrd_flags }
          else if ltb i 3
          then record { addr = pdt_low2_addr + i * 0x1000; flags = table_flags }
          else tables pdt_high_addr i)
  unfolding set_addr map_high high_start
  map_high_directory i =
      let kernel = (fill_tables 3 0 pdt_high_addr pdt_low2_addr table_flags high_start).0 in
      ground (
        arith,
        fill_lem 16 3 pdt_high_addr (λ i. 0x800000 + (i - 3) * 0x200000) initrd_flags kernel
            pdt_high_addr i,
        fill_tables_directory pdt_high_addr table_flags 3 0 pdt_low2_addr high_start i
            (omega arith),
      )

  pub map_high_page :
      (at i : ℕ)
      → at < 3
      → i < 512
      → (map_high tables).0 (pdt_low2_addr + at * 0x1000) i
        ≡ record { addr = kernel_phys at i; flags = table_flags }
  unfolding set_addr map_high high_start
  map_high_page at i h k =
      let kernel = (fill_tables 3 0 pdt_high_addr pdt_low2_addr table_flags high_start).0 in
      ground (
        arith,
        fill_lem 16 3 pdt_high_addr (λ i. 0x800000 + (i - 3) * 0x200000) initrd_flags kernel
            (pdt_low2_addr + at * 0x1000) i,
        fill_tables_page pdt_high_addr table_flags 3 0 pdt_low2_addr high_start at i (omega arith) h
            k,
      )
