-- ===== src/Pci/Config.antt =====
-- The encodings of arch/src/x86_64/devices/pci.rs and core/src/devices/pcie.rs.
use proka_kernel.Base.{arith, bit_or, bit_or-add, refl, ℕ, ◌*◌, ◌+◌, ◌^◌, ◌↔◌, ◌≡◌}
use proka_kernel.Pci.{IsAddress, PciAddress, align_offset, config_word, exact_addr}

-- Two registers of the configuration space of 256 bytes are the same.
abbrev pub SameRegister : PciAddress → ℕ → PciAddress → ℕ → Type 0
SameRegister a offset b offset' =
    (a.bus ≡ b.bus)
    × (a.device ≡ b.device)
    × (a.function ≡ b.function)
    × (align_offset offset ≡ align_offset offset')

-- The fields of the port's value lie beside each other.
config_word_lem :
    (address : PciAddress) (offset : ℕ)
    → IsAddress address
    → config_word address offset
      ≡ 0x80000000
        + address.bus * 0x10000
        + address.device * 0x800
        + address.function * 0x100
        + align_offset offset
unfolding config_word
config_word_lem address offset a =
    let top : bit_or 0x80000000 (address.bus * 2 ^ 16) ≡ 0x80000000 + address.bus * 0x10000 =
      bit_or-add 31 1 (address.bus * 2 ^ 16) 0x80000000 refl (omega (arith, a.bus_fits)) in
    let mid : bit_or (bit_or 0x80000000 (address.bus * 2 ^ 16)) (address.device * 2 ^ 11)
        ≡ 0x80000000 + address.bus * 0x10000 + address.device * 0x800 =
      omega (
        arith,
        top,
        bit_or-add 16 (0x8000 + address.bus) (address.device * 2 ^ 11)
            (bit_or 0x80000000 (address.bus * 2 ^ 16)) (omega (arith, top))
            (omega (arith, a.device_fits)),
      ) in
    let low : bit_or (bit_or (bit_or 0x80000000 (address.bus * 2 ^ 16)) (address.device * 2 ^ 11))
          (address.function * 2 ^ 8)
        ≡ 0x80000000 + address.bus * 0x10000 + address.device * 0x800 + address.function * 0x100 =
      omega (
        arith,
        mid,
        bit_or-add 11 (0x100000 + address.bus * 32 + address.device) (address.function * 2 ^ 8)
            (bit_or (bit_or 0x80000000 (address.bus * 2 ^ 16)) (address.device * 2 ^ 11))
            (omega (arith, mid)) (omega (arith, a.function_fits)),
      ) in
    omega (
      arith,
      low,
      bit_or-add 8 (0x800000 + address.bus * 256 + address.device * 8 + address.function)
          (align_offset offset)
          (bit_or (bit_or (bit_or 0x80000000 (address.bus * 2 ^ 16)) (address.device * 2 ^ 11))
            (address.function * 2 ^ 8))
          (omega (arith, low)) (omega arith),
    )

-- Different registers of the devices of a segment have different port values.
pub config_word_iff :
    (a b : PciAddress) (offset offset' : ℕ)
    → IsAddress a
    → IsAddress b
    → (config_word a offset ≡ config_word b offset') ↔ SameRegister a offset b offset'
config_word_iff a b offset offset' ia ib = (
  λ e. omega (arith, e, config_word_lem a offset ia, config_word_lem b offset' ib),
  λ e. omega (arith, e, config_word_lem a offset ia, config_word_lem b offset' ib),
)

-- The memory addresses of PCIe distinguish the same registers: the extended space of 4 KiB of a
-- function is folded onto its first 256 bytes.
pub exact_addr_iff :
    (base : ℕ) (a b : PciAddress) (offset offset' : ℕ)
    → IsAddress a
    → IsAddress b
    → (exact_addr base a offset ≡ exact_addr base b offset') ↔ SameRegister a offset b offset'
unfolding exact_addr
exact_addr_iff base a b offset offset' ia ib = (λ e. omega (arith, e), λ e. omega (arith, e))
