-- ===== src/Pci/Registers.antt =====
-- Reading and writing registers of the configuration space through the ports and through memory.
use proka_kernel.Base.{Bool-cases, arith, if◌then◌else◌, inl, inr, ℕ, ◌==◌, ◌≡◌}
use proka_kernel.Pci.{
  IsAddress, PciAddress, Ports, Words, config_word, exact_addr, pci_cfg, pci_data, pci_read,
  pci_write, pcie_read, pcie_write,
}
use proka_kernel.Pci.Config.{SameRegister, config_word_iff, exact_addr_iff}

-- The documented behaviour of the two ports: the value of 0xcf8 selects the register that 0xcfc
-- reads and writes, and selecting and reading change no register.
pub record ConfigMechanism {S : Type 0} (ports : Ports S) (space : S → ℕ → ℕ) : Type 0 where
  pub select_keeps :
      (s : S) (word other : ℕ) → space (ports.output s pci_cfg word) other ≡ space s other
  pub input_selected :
      (s : S) (word : ℕ) → (ports.input (ports.output s pci_cfg word) pci_data).0 ≡ space s word
  pub input_keeps :
      (s : S) (word other : ℕ)
      → space (ports.input (ports.output s pci_cfg word) pci_data).1 other ≡ space s other
  pub output_selected :
      (s : S) (word value other : ℕ)
      → space (ports.output (ports.output s pci_cfg word) pci_data value) other
        ≡ (if other == word then value else space s other)

-- A read after a write gives the value at the register that was written, and what it held before
-- at every other register.
pub pci_read-pci_write :
    {S : Type 0} (ports : Ports S) (space : S → ℕ → ℕ) (a b : PciAddress) (offset offset' value : ℕ)
    (s : S)
    → ConfigMechanism ports space
    → IsAddress a
    → IsAddress b
    → (SameRegister a offset b offset'
        → (pci_read ports b offset' (pci_write ports a offset value s)).0 ≡ value)
      × (¬ SameRegister a offset b offset'
          → (pci_read ports b offset' (pci_write ports a offset value s)).0
            ≡ (pci_read ports b offset' s).0)
unfolding pci_read pci_write
pci_read-pci_write ports space a b offset offset' value s m ia ib =
    let after = pci_write ports a offset value s in
    let left = m.input_selected after (config_word b offset') in
    let before = m.input_selected s (config_word b offset') in
    let stored = m.output_selected s (config_word a offset) value (config_word b offset') in
    let apart = config_word_iff a b offset offset' ia ib in
    (
      λ same. ground (arith, left, stored, apart.1 same),
      λ different. elim (Bool-cases (config_word b offset' == config_word a offset)) [
        | inl e ↦ absurd (different (apart.0 (ground (arith, e))))
        | inr ne ↦ ground (arith, left, stored, before, ne)
      ],
    )

-- The same through the memory of PCIe.
pub pcie_read-pcie_write :
    (base : ℕ) (a b : PciAddress) (offset offset' value : ℕ) (memory : Words)
    → IsAddress a
    → IsAddress b
    → (SameRegister a offset b offset'
        → pcie_read base b offset' (pcie_write base a offset value memory) ≡ value)
      × (¬ SameRegister a offset b offset'
          → pcie_read base b offset' (pcie_write base a offset value memory)
            ≡ pcie_read base b offset' memory)
unfolding pcie_read pcie_write
pcie_read-pcie_write base a b offset offset' value memory ia ib =
    let apart = exact_addr_iff base a b offset offset' ia ib in
    (
      λ same. ground (arith, apart.1 same),
      λ different. elim (Bool-cases (exact_addr base b offset' == exact_addr base a offset)) [
        | inl e ↦ absurd (different (apart.0 (ground (arith, e))))
        | inr ne ↦ rw ne
      ],
    )
