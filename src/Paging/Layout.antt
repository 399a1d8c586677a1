-- ===== src/Paging/Layout.antt =====
-- The address space of arch/src/x86_64/memory/paging.rs by its ranges, and the tables' agreement
-- with it.
use proka_kernel.Base.{
  Bool, Option, arith, false, if◌then◌else◌, leb, ltb, none, refl, some, true, ℕ, ◌%◌, ◌&&◌, ◌*◌,
  ◌+◌, ◌-◌, ◌/◌, ◌<◌, ◌==◌, ◌≡◌, ◌≢◌, ◌≤◌, ◌⊎◌,
}
use proka_kernel.Paging.{
  Tables, pdpt_high_addr, pdpt_low_addr, pdt_grw_addr, pdt_gs_addr, pdt_high_addr, pdt_low2_addr,
  pdt_low_addr, pml4_addr, pt_low_addr,
}
use proka_kernel.Paging.Walk.{Rights, Target, translate, walk_directory, walk_page, walk_pointers}
use proka_kernel.Paging.Contents.{built, high_entry, high_page, plain, plain_lem}

abbrev pub in_range : ℕ → ℕ → ℕ → Bool
in_range va base size = leb base va && ltb va (base + size)

-- Read-write and executable in the kernel only; read-only; read-write without execution.
abbrev pub kernel_rights : Rights
kernel_rights = record { writable = true; user_accessible = false; no_execute = false }

abbrev pub read_rights : Rights
read_rights = record { writable = false; user_accessible = false; no_execute = false }

abbrev pub storage_rights : Rights
storage_rights = record { writable = true; user_accessible = false; no_execute = true }

-- The areas that the kernel shares with every process: the interrupt stack and the data.
abbrev pub shared_layout : ℕ → Option Target
shared_layout va =
    if in_range va 0xffff800040000000 0x200000
    then some (va - 0xffff800040000000 + 0x1800000, storage_rights)
    else if in_range va 0xffff800080000000 0x400000
    then some (va - 0xffff800080000000 + 0x1a00000, storage_rights)
    else none

-- What the kernel's own tables are to map.
abbrev pub layout : ℕ → Option Target
layout va =
    if ltb va 0x40000000
    then some (va, kernel_rights)
    else if in_range va 0xffff800000000000 0x600000
    then some (va - 0xffff800000000000 + 0x200000, kernel_rights)
    else if in_range va 0xffff800000600000 0x2000000
    then some (va - 0xffff800000600000 + 0x800000, read_rights)
    else shared_layout va

-- The addresses that the processor accepts.
abbrev pub IsCanonical : ℕ → Type 0
IsCanonical va = (va < 0x800000000000) ⊎ ((0xffff800000000000 ≤ va) × (va < 0x10000000000000000))

-- Tables that have the kernel's contents wherever the kernel built its own.
abbrev pub Agrees : Tables → Tables → Type 0
Agrees live kernel =
    (other i : ℕ) → 0x100000 ≤ other → other < 0x200000 → live other i ≡ kernel other i

module _ (tables : Tables) (cr3 va : ℕ) (live : Tables)
    (same : Agrees live (built tables cr3)) where
  pml4_step :
      va / 0x8000000000 % 512 ≢ 448
      → translate live pml4_addr va ≡ (
          if va / 0x8000000000 % 512 == 256
          then walk_pointers live pdpt_high_addr va kernel_rights
          else if va / 0x8000000000 % 512 == 0
          then walk_pointers live pdpt_low_addr va kernel_rights
          else none)
  unfolding translate plain
  pml4_step fb = ground (
    arith,
    same pml4_addr (va / 0x8000000000 % 512),
    plain_lem tables cr3 pml4_addr (va / 0x8000000000 % 512) (omega arith) refl (ground arith),
  )

  low_step :
      walk_pointers live pdpt_low_addr va kernel_rights
      ≡ (if va / 0x40000000 % 512 == 0 then some (va % 0x40000000, kernel_rights) else none)
  unfolding walk_pointers walk_directory walk_page plain
  low_step = ground (
    arith,
    same pdpt_low_addr (va / 0x40000000 % 512),
    plain_lem tables cr3 pdpt_low_addr (va / 0x40000000 % 512) (omega arith) refl refl,
    same pdt_low_addr (va / 0x200000 % 512),
    plain_lem tables cr3 pdt_low_addr (va / 0x200000 % 512) (omega arith) refl refl,
    same pt_low_addr (va / 0x1000 % 512),
    plain_lem tables cr3 pt_low_addr (va / 0x1000 % 512) (omega arith) refl refl,
  )

  pub directory_step : walk_directory live pdt_high_addr va kernel_rights ≡ (
      if ltb (va % 0x40000000) 0x600000
      then some (va % 0x40000000 + 0x200000, kernel_rights)
      else if ltb (va % 0x40000000) 0x2600000
      then some (va % 0x40000000 - 0x600000 + 0x800000, read_rights)
      else none)
  unfolding walk_directory walk_page
  directory_step = ground (
    arith,
    same pdt_high_addr (va / 0x200000 % 512),
    same (pdt_low2_addr + va / 0x200000 % 512 * 0x1000) (va / 0x1000 % 512),
    high_entry tables cr3 (va / 0x200000 % 512) (omega arith),
    high_page tables cr3 (va / 0x200000 % 512) (va / 0x1000 % 512),
  )

  pub stack_step : walk_directory live pdt_gs_addr va kernel_rights ≡ (
      if ltb (va % 0x40000000) 0x200000
      then some (va % 0x40000000 + 0x1800000, storage_rights)
      else none)
  unfolding walk_directory plain
  stack_step = ground (
    arith,
    same pdt_gs_addr (va / 0x200000 % 512),
    plain_lem tables cr3 pdt_gs_addr (va / 0x200000 % 512) (omega arith) refl refl,
  )

  pub data_step : walk_directory live pdt_grw_addr va kernel_rights ≡ (
      if ltb (va % 0x40000000) 0x400000
      then some (va % 0x40000000 + 0x1a00000, storage_rights)
      else none)
  unfolding walk_directory plain
  data_step = ground (
    arith,
    same pdt_grw_addr (va / 0x200000 % 512),
    plain_lem tables cr3 pdt_grw_addr (va / 0x200000 % 512) (omega arith) refl refl,
  )

  pub pointers_step : walk_pointers live pdpt_high_addr va kernel_rights ≡ (
      if va / 0x40000000 % 512 == 0
      then walk_directory live pdt_high_addr va kernel_rights
      else if va / 0x40000000 % 512 == 1
      then walk_directory live pdt_gs_addr va kernel_rights
      else if va / 0x40000000 % 512 == 2
      then walk_directory live pdt_grw_addr va kernel_rights
      else none)
  unfolding walk_pointers plain
  pointers_step = ground (
    arith,
    same pdpt_high_addr (va / 0x40000000 % 512),
    plain_lem tables cr3 pdpt_high_addr (va / 0x40000000 % 512) (omega arith) refl refl,
  )

-- At every canonical address outside the framebuffer's slot, the walk through the tables that
-- `paging::init` builds, on any memory whose table area `memory::init` has cleared and before
-- `memory::init` changes any mapping, gives the target and the rights of the layout: the first
-- GiB onto itself, 6 MiB of the image, 32 MiB of the initrd for reading, the interrupt stack and
-- the data areas, and nothing else.
pub translate-layout :
    (tables : Tables) (cr3 va : ℕ)
    → IsCanonical va
    → va / 0x8000000000 % 512 ≢ 448
    → translate (built tables cr3) pml4_addr va ≡ layout va
translate-layout tables cr3 va canonical fb =
    let kernel = built tables cr3 in
    let same : Agrees kernel kernel = λ other i _ _. refl in
    ground (
      arith,
      pml4_step tables cr3 va kernel same fb,
      low_step tables cr3 va kernel same,
      pointers_step tables cr3 va kernel same,
      directory_step tables cr3 va kernel same,
      stack_step tables cr3 va kernel same,
      data_step tables cr3 va kernel same,
    )
