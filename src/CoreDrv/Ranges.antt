-- ===== src/CoreDrv/Ranges.antt =====
-- The memory ranges that a driver's registration collects: the loop of `driver_type_reg` in
-- arch/src/x86_64/coredrv/drvtype.rs.
use mathlib.Core.List.{append-nil, append_assoc}
use proka_kernel.Base.{
  >>=-some, Bool, Bool-cases, List, Option, Option-cases, [], ap, arith, false, if◌then◌else◌, inl,
  inr, none, refl, some, some_inj, sym, true, ℕ, ◌&&◌, ◌++◌, ◌/◌, ◌>>=◌, ◌∙◌, ◌∷◌, ◌≡◌,
}
use proka_kernel.Memory.{HugeMapper, map_frames}
use proka_kernel.Pci.{PciAddress}
use proka_kernel.Pci.Mapping.{McfgEntry, align_up, get_access}
use proka_kernel.CoreDrv.{
  AddrFormat, Bar, DrvType, Header, bar_loop, from_base_class, map_mmio, memory_of, mmio_flags,
  pci_round, pcie_round, same_type,
}

-- Whether a header is that of a device for a type of driver.
abbrev pub is_wanted : DrvType → Header → Bool
is_wanted typ header = same_type (from_base_class header.base_class) typ && header.is_endpoint

-- The memory ranges of the first BAR of the devices that are wanted, in the list's order.
pub wanted_ranges : DrvType → (PciAddress → Header) → List PciAddress → List AddrFormat
wanted_ranges typ header [] = []
wanted_ranges typ header (addr ∷ addrs) =
    let rest = wanted_ranges typ header addrs in
    if is_wanted typ (header addr)
    then elim ((header addr).bar0 >>= memory_of) [ none ↦ rest | some place ↦ place ∷ rest ]
    else rest

-- The ranges that the two methods collect: that of PCIe collects none.
abbrev pub collected : Bool → DrvType → (PciAddress → Header) → List PciAddress → List AddrFormat
collected true typ header addrs = []
collected false typ header addrs = wanted_ranges typ header addrs

module _ {S : Type 0} (mapper_of : ℕ → HugeMapper S) (mcfg : Option (List McfgEntry))
    (pcie_header : ℕ → PciAddress → Header) (pci_header : PciAddress → Header) where
  pcie_round-ranges :
      (typ : DrvType) (table : ℕ) (header : Header) (tables : S) (bars : List AddrFormat)
      (found : S × List AddrFormat)
      → pcie_round mapper_of typ table header (tables, bars) ≡ some found
      → found.1 ≡ bars
  unfolding pcie_round
  pcie_round-ranges typ table header tables bars found e =
      elim (Bool-cases (is_wanted typ header)) [
        | inr other ↦
            sym (ap (λ (r : S × List AddrFormat). r.1) (some_inj (rw (other, pcie_round) at e)))
        | inl wanted ↦
            (let (result, done, e1) =
                >>=-some (map_mmio mapper_of table header tables) _
                  (rw (wanted, pcie_round) at e) in
              sym (ap (λ (r : S × List AddrFormat). r.1) (some_inj e1)))
      ]

  -- The BAR that `map_mmio` returns is the header's, where it is one of memory.
  map_mmio-bar :
      (table : ℕ) (header : Header) (tables : S) (result : S × Option Bar)
      → map_mmio mapper_of table header tables ≡ some result
      → (result.1 >>= memory_of) ≡ (header.bar0 >>= memory_of)
  unfolding map_mmio
  map_mmio-bar table header tables result e = elim (Option-cases header.bar0) [
    | inl nothing ↦ ground (arith, nothing, e)
    | inr (mmio, there) ↦ elim (Option-cases (memory_of mmio)) [
      | inl ports ↦ ground (arith, there, ports, e)
      | inr (place, range) ↦
          (let frames =
              map_frames (mapper_of table) (align_up place.size / 0x200000) place.base mmio_flags
                tables in
            let (tables', done, e1) =
              >>=-some frames _ (rw (range, map_mmio) at (rw (there, map_mmio) at e)) in
            rw there (ap (λ (r : S × Option Bar). r.1 >>= memory_of) (sym (some_inj e1))))
    ]
  ]

  pushed :
      (tables : S) (o : Option AddrFormat) (bars : List AddrFormat) (found : S × List AddrFormat)
      → elim o [ none ↦ some (tables, bars) | some place ↦ some (tables, bars ++ place ∷ []) ]
        ≡ some found
      → found.1 ≡ elim o [ none ↦ bars | some place ↦ bars ++ place ∷ [] ]
  pushed tables none bars found e = sym (ap (λ (r : S × List AddrFormat). r.1) (some_inj e))
  pushed tables (some place) bars found e = sym (ap (λ (r : S × List AddrFormat). r.1) (some_inj e))

  pci_round-ranges :
      (typ : DrvType) (table : ℕ) (header : Header) (tables : S) (bars : List AddrFormat)
      (found : S × List AddrFormat)
      → pci_round mapper_of typ table header (tables, bars) ≡ some found
      → found.1 ≡ (
          if is_wanted typ header
          then elim (header.bar0 >>= memory_of) [ none ↦ bars | some place ↦ bars ++ place ∷ [] ]
          else bars)
  unfolding pci_round
  pci_round-ranges typ table header tables bars found e = elim (Bool-cases (is_wanted typ header)) [
    | inr other ↦
        rw other
          (sym (ap (λ (r : S × List AddrFormat). r.1) (some_inj (rw (other, pci_round) at e))))
    | inl wanted ↦
        (let (result, done, e1) =
            >>=-some (map_mmio mapper_of table header tables) _ (rw (wanted, pci_round) at e) in
          rw wanted (
            (pushed result.0 (result.1 >>= memory_of) bars found e1
              ∙ ap
                  (λ (o : Option AddrFormat). elim o [
                    | none ↦ bars
                    | some place ↦ bars ++ place ∷ []
                  ])
                  (map_mmio-bar table header tables result done))))
  ]

  joined :
      (w : Bool) (o : Option AddrFormat) (bars later : List AddrFormat)
      → (if w then elim o [ none ↦ bars | some place ↦ bars ++ place ∷ [] ] else bars) ++ later
        ≡ bars ++ (if w then elim o [ none ↦ later | some place ↦ place ∷ later ] else later)
  joined false o bars later = refl
  joined true none bars later = refl
  joined true (some place) bars later = append_assoc bars (place ∷ []) later

  pub bar_loop-collected :
      (express : Bool) (typ : DrvType) (table : ℕ) (addrs : List PciAddress) (tables : S)
      (bars : List AddrFormat) (found : S × List AddrFormat)
      → bar_loop mapper_of (some express) mcfg pcie_header pci_header typ table addrs (tables, bars)
        ≡ some found
      → found.1 ≡ bars ++ collected express typ pci_header addrs
  unfolding bar_loop wanted_ranges
  bar_loop-collected true typ table [] tables bars found e =
      sym (ap (λ (r : S × List AddrFormat). r.1) (some_inj e)) ∙ sym (append-nil bars)
  bar_loop-collected false typ table [] tables bars found e =
      sym (ap (λ (r : S × List AddrFormat). r.1) (some_inj e)) ∙ sym (append-nil bars)
  bar_loop-collected true typ table (addr ∷ addrs) tables bars found e =
      let (access, reached, e1) = >>=-some (get_access mcfg addr.segment) _ e in
      let ((tables', bars'), round, e2) =
        >>=-some (pcie_round mapper_of typ table (pcie_header access addr) (tables, bars)) _ e1 in
      let kept =
        pcie_round-ranges typ table (pcie_header access addr) tables bars (tables', bars') round in
      bar_loop-collected true typ table addrs tables' bars' found e2
      ∙ ap (λ (l : List AddrFormat). l ++ []) kept
  bar_loop-collected false typ table (addr ∷ addrs) tables bars found e =
      let ((tables', bars'), round, e2) =
        >>=-some (pci_round mapper_of typ table (pci_header addr) (tables, bars)) _ e in
      let here = pci_round-ranges typ table (pci_header addr) tables bars (tables', bars') round in
      let rest = bar_loop-collected false typ table addrs tables' bars' found e2 in
      rest
      ∙ ap (λ (l : List AddrFormat). l ++ wanted_ranges typ pci_header addrs) here
      ∙ joined (is_wanted typ (pci_header addr)) ((pci_header addr).bar0 >>= memory_of) bars
          (wanted_ranges typ pci_header addrs)
