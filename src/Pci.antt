-- ===== src/Pci.antt =====
-- The configuration accesses of PCI and PCIe: arch/src/x86_64/devices/pci.rs and
-- core/src/devices/pcie.rs. The ports and the memory that they reach are parameters.
use proka_kernel.Base.{bit_or, if◌then◌else◌, ℕ, ◌%◌, ◌*◌, ◌+◌, ◌/◌, ◌<◌, ◌==◌, ◌^◌}
pub mod Config
pub mod Registers
pub mod Scan
pub mod Mapping
pub mod Startup
pub mod Acpi
mod Tests

-- `PciAddress` of the pci_types crate.
pub record PciAddress : Type 0 where
  pub segment : ℕ
  pub bus : ℕ
  pub device : ℕ
  pub function : ℕ

-- The ranges of the fields that the crate keeps: 8, 5 and 3 bits.
pub record IsAddress (address : PciAddress) : Type 0 where
  pub bus_fits : address.bus < 256
  pub device_fits : address.device < 32
  pub function_fits : address.function < 8

-- `offset & 0xfc`.
abbrev pub align_offset : ℕ → ℕ
align_offset offset = offset % 0x100 / 4 * 4

-- The value for port 0xcf8.
unfoldable pub config_word : PciAddress → ℕ → ℕ
config_word address offset =
    bit_or
      (bit_or (bit_or (bit_or 0x80000000 (address.bus * 2 ^ 16)) (address.device * 2 ^ 11))
        (address.function * 2 ^ 8))
      (align_offset offset)

-- The processor's ports.
pub record Ports (S : Type 0) : Type 0 where
  pub output : S → ℕ → ℕ → S
  pub input : S → ℕ → ℕ × S

abbrev pub pci_cfg : ℕ
pci_cfg = 0xcf8

abbrev pub pci_data : ℕ
pci_data = 0xcfc

-- `read` and `write` of `PciCfgAccess`.
module _ {S : Type 0} (ports : Ports S) where
  unfoldable pub pci_read : PciAddress → ℕ → S → ℕ × S
  pci_read address offset s =
      ports.input (ports.output s pci_cfg (config_word address offset)) pci_data

  unfoldable pub pci_write : PciAddress → ℕ → ℕ → S → S
  pci_write address offset value s =
      ports.output (ports.output s pci_cfg (config_word address offset)) pci_data value

-- The memory address of a register: `exact_addr` of `PcieCfgAccess` with a base.
unfoldable pub exact_addr : ℕ → PciAddress → ℕ → ℕ
exact_addr base address offset =
    base
    + address.bus * 0x100000
    + address.device * 0x8000
    + address.function * 0x1000
    + align_offset offset

-- Memory as its 32-bit words, by their addresses.
abbrev pub Words : Type 0
Words = ℕ → ℕ

-- `read` and `write` of `PcieCfgAccess`.
unfoldable pub pcie_read : ℕ → PciAddress → ℕ → Words → ℕ
pcie_read base address offset memory = memory (exact_addr base address offset)

unfoldable pub pcie_write : ℕ → PciAddress → ℕ → ℕ → Words → Words
pcie_write base address offset value memory at =
    if at == exact_addr base address offset then value else memory at
