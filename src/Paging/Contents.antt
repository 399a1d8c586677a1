-- ===== src/Paging/Contents.antt =====
-- The contents of each table that the kernel builds, as the processor's walk reads them.
use proka_kernel.Base.{
  Bool, arith, false, if◌then◌else◌, inl, leb, ltb, not, true, ℕ, ◌&&◌, ◌*◌, ◌+◌, ◌-◌, ◌<◌, ◌==◌,
  ◌||◌, ◌∙◌, ◌≡◌,
}
use proka_kernel.Paging.{
  Entry, Flags, Tables, build, clear_area, huge_flags, initrd_flags, kernel_phys, map_high,
  map_hproc, map_low, map_shared, pdpt_high_addr, pdpt_hproc_addr, pdpt_low_addr, pdt_grw_addr,
  pdt_gs_addr, pdt_high_addr, pdt_hproc_addr, pdt_low2_addr, pdt_low_addr, pml4_addr, present_flags,
  pt_low_addr, set_addr, shared_flags, stack_flags, table_flags, unused,
}
use proka_kernel.Paging.Entries.{
  fill_tables_directory, fill_tables_other, fill_tables_page, set_addr_lem,
}
use proka_kernel.Paging.Built.{
  built_mapped, clear_area_lem, hproc_tables, map_high_directory, map_high_other, map_high_page,
  map_hproc_other, map_low_lem, mapped,
}

abbrev pub entry : ℕ → Flags → Entry
entry addr flags = record { addr = addr; flags = flags }

map_shared_lem :
    (tables : Tables) (other i : ℕ)
    → map_shared tables other i ≡ (
        if other == pdt_grw_addr && i == 1
        then entry 0x1c00000 shared_flags
        else if other == pdt_grw_addr && i == 0
        then entry 0x1a00000 stack_flags
        else if (other == pdpt_hproc_addr || other == pdpt_high_addr) && i == 2
        then entry pdt_grw_addr table_flags
        else if other == pdt_gs_addr && i == 0
        then entry 0x1800000 stack_flags
        else if (other == pdpt_hproc_addr || other == pdpt_high_addr) && i == 1
        then entry pdt_gs_addr table_flags
        else tables other i)
unfolding map_shared set_addr
map_shared_lem tables other i = ground arith

-- The entries that are written one by one, and the identity mapping.
unfoldable pub plain : ℕ → ℕ → Entry
plain other i =
    if other == pml4_addr
    then if i == 256
      then entry pdpt_high_addr table_flags
      else if i == 0
      then entry pdpt_low_addr table_flags
      else unused
    else if other == pdpt_high_addr
    then if i == 0
      then entry pdt_high_addr table_flags
      else if i == 1
      then entry pdt_gs_addr table_flags
      else if i == 2
      then entry pdt_grw_addr table_flags
      else unused
    else if other == pdpt_low_addr
    then if i == 0 then entry pdt_low_addr table_flags else unused
    else if other == pdt_low_addr
    then if i == 0 then entry pt_low_addr table_flags else entry (i * 0x200000) huge_flags
    else if other == pt_low_addr
    then entry (i * 0x1000) table_flags
    else if other == pdt_gs_addr
    then if i == 0 then entry 0x1800000 stack_flags else unused
    else if other == pdt_grw_addr
    then if i == 0
      then entry 0x1a00000 stack_flags
      else if i == 1
      then entry 0x1c00000 shared_flags
      else unused
    else unused

-- The tables that the single entries and the identity mapping fill.
abbrev pub is_plain : ℕ → Bool
is_plain other =
    leb 0x100000 other
    && ltb other pdt_low2_addr
    && not (other == pdt_high_addr)
    && not (other == pdt_hproc_addr)
    && not (other == pdpt_hproc_addr)

module _ (tables : Tables) (cr3 : ℕ) where
  -- The tables that the kernel runs on.
  abbrev pub built : Tables
  built = (build (record { tables = tables; cr3 = cr3 })).tables

  below_lem :
      (other i : ℕ)
      → i < 512
      → is_plain other ≡ true
      → (other == pml4_addr && i == 448) ≡ false
      → built other i ≡ map_shared (map_high (map_low (clear_area tables))).0 other i
  unfolding mapped
  below_lem other i small h fb =
      built_mapped tables cr3 other i fb
      ∙ map_hproc_other (mapped tables) other i (ground arith) (ground arith) (ground arith)

  pub plain_lem :
      (other i : ℕ)
      → i < 512
      → is_plain other ≡ true
      → (other == pml4_addr && i == 448) ≡ false
      → built other i ≡ plain other i
  unfolding plain
  plain_lem other i small h fb =
      let base = clear_area tables in
      ground (
        arith,
        below_lem other i small h fb,
        map_shared_lem (map_high (map_low base)).0 other i,
        map_high_other (map_low base) other i,
        map_low_lem base other i,
        clear_area_lem tables other i,
      )

  -- The kernel's image and the initrd.
  pub high_entry :
      (i : ℕ)
      → i < 512
      → built pdt_high_addr i ≡ (
          if ltb i 3
          then entry (pdt_low2_addr + i * 0x1000) table_flags
          else if ltb i 19
          then entry (0x800000 + (i - 3) * 0x200000) initrd_flags
          else unused)
  unfolding mapped
  high_entry i small =
      let base = clear_area tables in
      ground (
        arith,
        built_mapped tables cr3 pdt_high_addr i (ground arith),
        map_hproc_other (mapped tables) pdt_high_addr i (omega arith) (omega arith) (omega arith),
        map_shared_lem (map_high (map_low base)).0 pdt_high_addr i,
        map_high_directory (map_low base) i,
        map_low_lem base pdt_high_addr i,
        clear_area_lem tables pdt_high_addr i (omega arith) (omega arith),
      )

  pub high_page :
      (at i : ℕ)
      → at < 3
      → i < 512
      → built (pdt_low2_addr + at * 0x1000) i ≡ entry (kernel_phys at i) table_flags
  unfolding mapped
  high_page at i h small =
      let table = pdt_low2_addr + at * 0x1000 in
      let start = map_low (clear_area tables) in
      ground (
        arith,
        built_mapped tables cr3 table i (ground arith),
        map_hproc_other (mapped tables) table i (omega arith) (omega arith) (omega arith),
        map_shared_lem (map_high start).0 table i,
        map_high_page start at i h small,
      )

  hproc_start : Tables
  hproc_start = set_addr pdpt_hproc_addr 0 pdt_hproc_addr present_flags (mapped tables)

  -- The pointers of driver processes.
  pub hproc_entry :
      (i : ℕ)
      → i < 512
      → built pdpt_hproc_addr i ≡ (
          if i == 0
          then entry pdt_hproc_addr present_flags
          else if i == 1
          then entry pdt_gs_addr table_flags
          else if i == 2
          then entry pdt_grw_addr table_flags
          else unused)
  unfolding hproc_start mapped map_hproc
  hproc_entry i small =
      let base = clear_area tables in
      ground (
        arith,
        built_mapped tables cr3 pdpt_hproc_addr i (ground arith),
        fill_tables_other pdt_hproc_addr present_flags 24 0 hproc_tables hproc_start pdpt_hproc_addr
            i (omega arith) (inl (omega arith)),
        set_addr_lem pdpt_hproc_addr 0 pdt_hproc_addr present_flags (mapped tables) pdpt_hproc_addr
            i,
        map_shared_lem (map_high (map_low base)).0 pdpt_hproc_addr i,
        map_high_other (map_low base) pdpt_hproc_addr i (omega arith) (omega arith),
        map_low_lem base pdpt_hproc_addr i,
        clear_area_lem tables pdpt_hproc_addr i (omega arith) (omega arith),
      )

  pub hproc_directory :
      (i : ℕ)
      → i < 512
      → built pdt_hproc_addr i
        ≡ (if ltb i 24 then entry (hproc_tables + i * 0x1000) present_flags else unused)
  unfolding hproc_start mapped map_hproc
  hproc_directory i small =
      let base = clear_area tables in
      ground (
        arith,
        built_mapped tables cr3 pdt_hproc_addr i (ground arith),
        fill_tables_directory pdt_hproc_addr present_flags 24 0 hproc_tables hproc_start i
            (omega arith),
        set_addr_lem pdpt_hproc_addr 0 pdt_hproc_addr present_flags (mapped tables) pdt_hproc_addr
            i,
        map_shared_lem (map_high (map_low base)).0 pdt_hproc_addr i,
        map_high_other (map_low base) pdt_hproc_addr i (omega arith) (omega arith),
        map_low_lem base pdt_hproc_addr i,
        clear_area_lem tables pdt_hproc_addr i (omega arith) (omega arith),
      )

  pub hproc_page :
      (at i : ℕ)
      → at < 24
      → i < 512
      → built (hproc_tables + at * 0x1000) i ≡ entry (kernel_phys at i) present_flags
  unfolding hproc_start map_hproc
  hproc_page at i h small =
      let table = hproc_tables + at * 0x1000 in
      ground (
        arith,
        built_mapped tables cr3 table i (ground arith),
        fill_tables_page pdt_hproc_addr present_flags 24 0 hproc_tables hproc_start at i
            (omega arith) h small,
      )
