-- ===== src/Pci/Acpi.antt =====
-- The handler that the acpi crate calls: its configuration accesses and its mapping of regions,
-- from arch/src/x86_64/acpi.rs. `none` is a panic.
use proka_kernel.Base.{
  >>=-some, Bool, Bool-cases, List, Option, Option-cases, arith, if◌then◌else◌, inl, inr, leb, ltb,
  none, refl, some, suc, zero, ℕ, ◌%◌, ◌&&◌, ◌*◌, ◌+◌, ◌-◌, ◌/◌, ◌==◌, ◌>>=◌, ◌^◌, ◌||◌, ◌≡◌,
}
use proka_kernel.Paging.{present_flags}
use proka_kernel.Memory.{HugeMapper, map_frame}
use proka_kernel.Memory.Ranges.{MapsFrames, map_frame_lem}
use proka_kernel.Pci.{
  IsAddress, PciAddress, Ports, Words, align_offset, pci_read, pci_write, pcie_read, pcie_write,
}
use proka_kernel.Pci.Config.{SameRegister}
use proka_kernel.Pci.Registers.{ConfigMechanism, pci_read-pci_write, pcie_read-pcie_write}
use proka_kernel.Pci.Mapping.{McfgEntry, checked_align_up, get_access}

-- The machine behind the handler: the ports' state and the memory.
pub record Machine (S : Type 0) : Type 0 where
  pub ports_state : S
  pub memory : Words

module _ {S : Type 0} (ports : Ports S) (table : Option (List McfgEntry)) (is_pcie : Bool) where
  unfoldable pub read_pci : PciAddress → ℕ → Machine S → Option (ℕ × Machine S)
  read_pci address offset m =
      if is_pcie
      then (get_access table address.segment >>= λ base.
          some (pcie_read base address offset m.memory, m))
      else let (value, s) = pci_read ports address offset m.ports_state in
        some (value, record m { ports_state = s })

  unfoldable pub write_pci : PciAddress → ℕ → ℕ → Machine S → Option (Machine S)
  write_pci address offset value m =
      if is_pcie
      then (get_access table address.segment >>= λ base.
          some (record m { memory = pcie_write base address offset value m.memory }))
      else some (record m { ports_state = pci_write ports address offset value m.ports_state })

  -- `read_pci_u8`, `read_pci_u16` and `read_pci_u32`: the value is cut to the width.
  unfoldable pub read_pci_width : ℕ → PciAddress → ℕ → Machine S → Option (ℕ × Machine S)
  unfolding read_pci
  read_pci_width bits address offset m =
      read_pci address offset m >>= λ (value, m'). some (value % 2 ^ bits, m')

  -- `write_pci_u8`, `write_pci_u16` and `write_pci_u32`, of a value of the width.
  unfoldable pub write_pci_width : PciAddress → ℕ → ℕ → Machine S → Option (Machine S)
  unfolding write_pci
  write_pci_width address offset value m = write_pci address offset value m

  -- A write of any width replaces the whole register of four bytes: read through any offset of the
  -- register and at any width, it gives the low bits of the value that was written.
  pub read_pci_width-write_pci_width :
      (space : S → ℕ → ℕ) (bits : ℕ) (address : PciAddress) (offset offset' value : ℕ)
      (m m' : Machine S)
      → ConfigMechanism ports space
      → IsAddress address
      → align_offset offset ≡ align_offset offset'
      → write_pci_width address offset value m ≡ some m'
      → (result : ℕ × Machine S) × (read_pci_width bits address offset' m' ≡ some result)
        × (result.0 ≡ value % 2 ^ bits)
  unfolding read_pci_width write_pci_width read_pci write_pci
  read_pci_width-write_pci_width space bits address offset offset' value m m' mech a same e =
      elim (Bool-cases is_pcie) [
        | inl express ↦ elim (Option-cases (get_access table address.segment)) [
          | inl missing ↦ absurd (ground (arith, express, missing, e))
          | inr (base, found) ↦
              (let law =
                  (pcie_read-pcie_write base address address offset offset' value m.memory a a).0
                    same_register in
                let stored : m'
                    ≡ record m { memory = pcie_write base address offset value m.memory } =
                  ground (arith, express, found, e) in
                (
                  (pcie_read base address offset' m'.memory % 2 ^ bits, m'),
                  rw express (rw found (refl)),
                  ground (arith, law, stored),
                ))
        ]
        | inr legacy ↦
            (let law =
                (pci_read-pci_write ports space address address offset offset' value m.ports_state
                    mech a a).0
                  same_register in
              let stored : m'
                  ≡ record m { ports_state = pci_write ports address offset value m.ports_state } =
                ground (arith, legacy, e) in
              let (value', s) = pci_read ports address offset' m'.ports_state in
              (
                (value' % 2 ^ bits, record m' { ports_state = s }),
                rw legacy (refl),
                ground (arith, law, stored),
              ))
      ]
    where
      same_register : SameRegister address offset address offset'
      same_register = (refl, refl, refl, same)

module _ {S : Type 0} (mapper : HugeMapper S) where
  -- `map_physical_region`: the loop steps through addresses, one byte at a time, and past 52 bits it
  -- panics; so does `NonNull::new(..).unwrap()` at address 0.
  unfoldable pub map_addresses : ℕ → ℕ → S → Option S
  map_addresses zero addr s = some s
  map_addresses (suc n) addr s =
      map_frame mapper s addr present_flags >>= map_addresses n (addr + 1)

  unfoldable pub map_physical_region : ℕ → ℕ → S → Option S
  unfolding map_addresses
  map_physical_region physical_address size s = checked_align_up size >>= λ size_aligned.
      map_addresses (size_aligned / 0x200000 + 1) physical_address s >>= λ s'.
      if physical_address == 0 then none else some s'

module _ {S : Type 0} (mapper : HugeMapper S) (holds : S → ℕ → Bool)
    (maps : MapsFrames mapper holds) where
  map_addresses_lem :
      (n addr : ℕ) (s s' : S) (k : ℕ)
      → map_addresses mapper n addr s ≡ some s'
      → holds s' (k * 0x200000)
        ≡ holds s (k * 0x200000)
          || (ltb 0 n && leb (addr / 0x200000) k && leb k ((addr + n - 1) / 0x200000))
  unfolding map_addresses
  map_addresses_lem zero addr s s' k e = ground (arith, e)
  map_addresses_lem (suc n) addr s s' k e =
      let (between, one, others) = >>=-some (map_frame mapper s addr present_flags) _ e in
      let here = map_frame_lem mapper holds maps s between addr present_flags (k * 0x200000) one in
      let rest = map_addresses_lem n (addr + 1) between s' k others in ground (arith, here, rest)

  -- When the mapping of a region returns, a 2 MiB frame is mapped exactly if it was before or
  -- contains one of the first bytes of the region, as many as the region has started 2 MiB, and
  -- one more.
  pub map_physical_region_lem :
      (physical_address size : ℕ) (s s' : S) (k : ℕ)
      → map_physical_region mapper physical_address size s ≡ some s'
      → holds s' (k * 0x200000)
        ≡ holds s (k * 0x200000)
          || (leb (physical_address / 0x200000) k
              && leb k ((physical_address + (size + 0x1fffff) / 0x200000) / 0x200000))
  unfolding map_physical_region
  map_physical_region_lem physical_address size s s' k e =
      let (aligned, fits, after) = >>=-some (checked_align_up size) _ e in
      let (s1, all_mapped, last) =
        >>=-some (map_addresses mapper (aligned / 0x200000 + 1) physical_address s) _ after in
      ground (
        arith,
        fits,
        last,
        map_addresses_lem (aligned / 0x200000 + 1) physical_address s s1 k all_mapped,
      )
