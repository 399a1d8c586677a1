-- ===== src/CoreDrv.antt =====
-- The calls of drivers: arch/src/x86_64/coredrv/mod.rs and drvtype.rs, with the types of
-- core/src/coredrv. What the headers of devices hold and the mapper of a page table are parameters.
use proka_kernel.Base.{
  Bool, List, Option, [], false, get_elem?, if◌then◌else◌, none, some, suc, true, zero, ℕ, ◌%◌,
  ◌&&◌, ◌++◌, ◌/◌, ◌==◌, ◌>>=◌, ◌^◌, ◌∷◌,
}
use proka_kernel.Paging.{Flags, table_flags}
use proka_kernel.Memory.{HugeMapper, map_frames}
use proka_kernel.Pci.{PciAddress}
use proka_kernel.Pci.Mapping.{McfgEntry, align_up, get_access}
use proka_kernel.Process.{DriverProcess}
pub mod Ranges
pub mod Totality
pub mod Registration
mod Tests

-- `DrvType`.
pub data DrvType : Type 0 where
  graphics invalid : DrvType

abbrev pub same_type : DrvType → DrvType → Bool
same_type graphics graphics = true
same_type invalid invalid = true
same_type _ _ = false

-- `DrvType::from`, with the default for every other number, and `from_base_class`.
abbrev pub drv_type_from : ℕ → DrvType
drv_type_from zero = graphics
drv_type_from (suc _) = invalid

abbrev pub from_base_class : ℕ → DrvType
from_base_class base_class = if base_class == 3 then graphics else invalid

-- `Callnum::from`.
pub data Callnum : Type 0 where
  reg_driver_type invalid_call : Callnum

abbrev pub callnum_from : ℕ → Callnum
callnum_from call_num = if call_num == 1 then reg_driver_type else invalid_call

-- `DrvTypeTable`.
pub record DrvTypeTable : Type 0 where
  pub id : ℕ
  pub typ : DrvType

-- `AddrFormat`.
pub record AddrFormat : Type 0 where
  pub base : ℕ
  pub size : ℕ

-- `Bar` of the pci_types crate.
pub data Bar : Type 0 where
  memory32 : ℕ → ℕ → Bar
  memory64 : ℕ → ℕ → Bar
  io : ℕ → Bar

-- What the header of a device says.
pub record Header : Type 0 where
  pub base_class : ℕ
  pub is_endpoint : Bool
  pub bar0 : Option Bar

-- `DRVTYPE_INDEX`, the page tables, and what stands at 0xffff800080000000.
pub record Drivers (S : Type 0) : Type 0 where
  pub index : List DrvTypeTable
  pub tables : S
  pub area : Option AddrFormat

-- How a call ends: it returns, it panics, or it reads past the end of an empty list.
pub data Called (S : Type 0) : Type 0 where
  returned : Drivers S → Called S
  panicked : Called S
  reads_nothing : Called S

-- `PRESENT | WRITABLE | WRITE_THROUGH | NO_CACHE | NO_EXECUTE`; write-through is no flag of ours.
abbrev pub mmio_flags : Flags
mmio_flags = record table_flags { no_cache = true; no_execute = true }

-- The address and the size of a memory BAR.
abbrev pub memory_of : Bar → Option AddrFormat
memory_of (memory32 address size) = some (record { base = address; size = size })
memory_of (memory64 address size) = some (record { base = address; size = size })
memory_of (io port) = none

module _ {S : Type 0} (mapper_of : ℕ → HugeMapper S) where
  -- `map_mmio` into the table at an address; the outer `none` is a panic.
  unfoldable pub map_mmio : ℕ → Header → S → Option (S × Option Bar)
  map_mmio table header tables = elim header.bar0 [
    | none ↦ some (tables, none)
    | some mmio ↦ elim (memory_of mmio) [
      | none ↦ some (tables, none)
      | some place ↦
          map_frames (mapper_of table) (align_up place.size / 0x200000) place.base mmio_flags tables
          >>= λ tables'. some (tables', some mmio)
    ]
  ]

  -- The round of the loop for PCIe, where the result of `map_mmio` is dropped.
  unfoldable pub pcie_round :
      DrvType → ℕ → Header → S × List AddrFormat → Option (S × List AddrFormat)
  unfolding map_mmio
  pcie_round typ table header (tables, bars) =
      if same_type (from_base_class header.base_class) typ && header.is_endpoint
      then (map_mmio table header tables >>= λ (tables', _). some (tables', bars))
      else some (tables, bars)

  -- The round for legacy PCI.
  unfoldable pub pci_round :
      DrvType → ℕ → Header → S × List AddrFormat → Option (S × List AddrFormat)
  unfolding map_mmio
  pci_round typ table header (tables, bars) =
      if same_type (from_base_class header.base_class) typ && header.is_endpoint
      then (map_mmio table header tables >>= λ (tables', bar). elim (bar >>= memory_of) [
        | none ↦ some (tables', bars)
        | some place ↦ some (tables', bars ++ place ∷ [])
      ])
      else some (tables, bars)

  module _ (is_pcie : Option Bool) (mcfg : Option (List McfgEntry))
      (pcie_header : ℕ → PciAddress → Header) (pci_header : PciAddress → Header) where
    -- `for addr in PCILIST`.
    pub bar_loop :
        DrvType → ℕ → List PciAddress → S × List AddrFormat → Option (S × List AddrFormat)
    bar_loop typ table [] found = some found
    bar_loop typ table (addr ∷ addrs) found = elim is_pcie [
      | none ↦ none
      | some express ↦ elim express [
        | true ↦ get_access mcfg addr.segment >>= λ access.
            (pcie_round typ table (pcie_header access addr) found >>= bar_loop typ table addrs)
        | false ↦ pci_round typ table (pci_header addr) found >>= bar_loop typ table addrs
      ]
    ]

    -- `driver_type_reg`.
    unfoldable pub driver_type_reg :
        List DriverProcess → List PciAddress → ℕ → ℕ → Drivers S → Called S
    driver_type_reg drivers pci_list arg1 did d = elim (drv_type_from arg1) [
      | invalid ↦ returned d
      | graphics ↦
          let indexed = d.index ++ record { id = did; typ = graphics } ∷ [] in
          elim (get_elem? drivers did) [
            | none ↦ panicked
            | some process ↦ elim (bar_loop graphics process.table_addr pci_list (d.tables, [])) [
              | none ↦ panicked
              | some (tables, bars) ↦ elim bars [
                | [] ↦ reads_nothing
                | bar ∷ _ ↦ returned (record { index = indexed; tables = tables; area = some bar })
              ]
            ]
          ]
    ]

    -- `position(|process| process.table_addr == pml4)`.
    pub position : ℕ → List DriverProcess → Option ℕ
    position pml4 [] = none
    position pml4 (p ∷ ps) =
        if p.table_addr == pml4
        then some 0
        else elim (position pml4 ps) [ none ↦ none | some i ↦ some (suc i) ]

    -- The interrupt, from the registers and the table that was loaded, with the table that is
    -- loaded when it returns.
    unfoldable pub coredrv :
        List DriverProcess → List PciAddress → ℕ → ℕ → ℕ → Drivers S → Called S × ℕ
    unfolding driver_type_reg
    coredrv drivers pci_list call_num arg1 pml4 d = elim (position pml4 drivers) [
      | none ↦ (returned d, pml4)
      | some did ↦ elim (callnum_from call_num) [
        | reg_driver_type ↦ (driver_type_reg drivers pci_list arg1 (did % 2 ^ 16) d, pml4)
        | invalid_call ↦ (returned d, pml4)
      ]
    ]
