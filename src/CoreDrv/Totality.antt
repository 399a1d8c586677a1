-- ===== src/CoreDrv/Totality.antt =====
-- Where the loop of `driver_type_reg` in arch/src/x86_64/coredrv/drvtype.rs does not panic.
use proka_kernel.Base.{
  All, Bool, Bool-cases, List, Option, Option-cases, [], arith, false, inl, inr, ltb, none, refl,
  some, suc, true, zero, ℕ, ◌*◌, ◌++◌, ◌+◌, ◌/◌, ◌>>=◌, ◌∷◌, ◌≡◌, ◌≢◌, ◌≤◌,
}
use proka_kernel.Paging.{Flags}
use proka_kernel.Memory.{HugeMapper, MapOutcome, already, failed, huge_frame, map_frames, mapped}
use proka_kernel.Pci.{PciAddress}
use proka_kernel.Pci.Mapping.{McfgEntry, align_up, get_access}
use proka_kernel.CoreDrv.{
  AddrFormat, Bar, DrvType, Header, bar_loop, map_mmio, memory_of, mmio_flags, pci_round,
  pcie_round,
}
use proka_kernel.CoreDrv.Ranges.{is_wanted}

module _ {S : Type 0} (mapper_of : ℕ → HugeMapper S) (mcfg : Option (List McfgEntry))
    (pcie_header : ℕ → PciAddress → Header) (pci_header : PciAddress → Header) where
  -- The mappers of all page tables succeed, or find the page mapped.
  abbrev pub NeverFails : Type 0
  NeverFails =
      (table : ℕ) (s : S) (frame : ℕ) (flags : Flags)
      → ((mapper_of table).identity_map s frame flags).1 ≢ failed

  -- The device's memory lies in the physical addresses, of 52 bits.
  abbrev pub Fits : Header → Type 0
  Fits header =
      (place : AddrFormat)
      → header.bar0 >>= memory_of ≡ some place
      → place.base + align_up place.size ≤ 0x10000000000000

  -- A device that can be accessed by the method that is in use, and has its memory where it fits.
  abbrev pub IsAccessible : Bool → PciAddress → Type 0
  IsAccessible false addr = Fits (pci_header addr)
  IsAccessible true addr =
      (access : ℕ) × (get_access mcfg addr.segment ≡ some access) × Fits (pcie_header access addr)

  abbrev pub Accessible : Bool → List PciAddress → Type 0
  Accessible express addrs = All (IsAccessible express) addrs

  outcome-total :
      (outcome : MapOutcome) (s : S)
      → outcome ≢ failed
      → (s' : S) × (elim outcome [ mapped ↦ some s | already ↦ some s | failed ↦ none ] ≡ some s')
  outcome-total mapped s h = (s, refl)
  outcome-total already s h = (s, refl)
  outcome-total failed s h = absurd (h refl)

  pushed-total :
      (tables : S) (o : Option AddrFormat) (bars : List AddrFormat)
      → (found : S × List AddrFormat) × (elim o [
        | none ↦ some (tables, bars)
        | some place ↦ some (tables, bars ++ place ∷ [])
      ]
          ≡ some found)
  pushed-total tables none bars = ((tables, bars), refl)
  pushed-total tables (some place) bars = ((tables, bars ++ place ∷ []), refl)

  map_frames-total :
      (table n addr : ℕ) (flags : Flags) (s : S)
      → NeverFails
      → addr + n * 0x200000 ≤ 0x10000000000000
      → (s' : S) × (map_frames (mapper_of table) n addr flags s ≡ some s')
  unfolding map_frames
  map_frames-total table zero addr flags s never fits = (s, refl)
  map_frames-total table (suc n) addr flags s never fits =
      let below : ltb addr 0x10000000000000 ≡ true = ground arith in
      let mapping = (mapper_of table).identity_map s (huge_frame addr) flags in
      let (s1, one) = outcome-total mapping.1 mapping.0 (never table s (huge_frame addr) flags) in
      let (s2, others) =
        map_frames-total table n (addr + 0x200000) flags s1 never (omega (arith, fits)) in
      (s2, rw below (rw one others))

  map_mmio-total :
      (table : ℕ) (header : Header) (tables : S)
      → NeverFails
      → Fits header
      → (result : S × Option Bar) × (map_mmio mapper_of table header tables ≡ some result)
  unfolding map_mmio
  map_mmio-total table header tables never fits = elim (Option-cases header.bar0) [
    | inl nothing ↦ ((tables, none), rw (nothing, map_mmio) (refl))
    | inr (mmio, there) ↦ elim (Option-cases (memory_of mmio)) [
      | inl ports ↦ ((tables, none), rw (there, map_mmio) (rw ports (refl)))
      | inr (place, range) ↦
          (let (tables', done) =
              map_frames-total table (align_up place.size / 0x200000) place.base mmio_flags tables
                never (omega (arith, fits place (rw there range))) in
            ((tables', some mmio), rw (there, map_mmio) (rw range (rw done (refl)))))
    ]
  ]

  pcie_round-total :
      (typ : DrvType) (table : ℕ) (header : Header) (found : S × List AddrFormat)
      → NeverFails
      → Fits header
      → (found' : S × List AddrFormat) × (pcie_round mapper_of typ table header found ≡ some found')
  unfolding pcie_round
  pcie_round-total typ table header (tables, bars) never fits =
      elim (Bool-cases (is_wanted typ header)) [
        | inr other ↦ ((tables, bars), rw (other, pcie_round) (refl))
        | inl wanted ↦
            (let (result, done) = map_mmio-total table header tables never fits in
              ((result.0, bars), rw (wanted, pcie_round) (rw done (refl))))
      ]

  pci_round-total :
      (typ : DrvType) (table : ℕ) (header : Header) (found : S × List AddrFormat)
      → NeverFails
      → Fits header
      → (found' : S × List AddrFormat) × (pci_round mapper_of typ table header found ≡ some found')
  unfolding pci_round
  pci_round-total typ table header (tables, bars) never fits =
      elim (Bool-cases (is_wanted typ header)) [
        | inr other ↦ ((tables, bars), rw (other, pci_round) (refl))
        | inl wanted ↦
            (let (result, done) = map_mmio-total table header tables never fits in
              let (found, ends) = pushed-total result.0 (result.1 >>= memory_of) bars in
              (found, rw (wanted, pci_round) (rw done ends)))
      ]

  pub bar_loop-total :
      (express : Bool) (typ : DrvType) (table : ℕ) (addrs : List PciAddress)
      (found : S × List AddrFormat)
      → NeverFails
      → Accessible express addrs
      → (found' : S × List AddrFormat) × (bar_loop mapper_of
            (some express)
            mcfg
            pcie_header
            pci_header
            typ
            table
            addrs
            found
          ≡ some found')
  unfolding bar_loop
  bar_loop-total express typ table [] found never access = (found, refl)
  bar_loop-total false typ table (addr ∷ addrs) found never (here, later) =
      let (next, round) = pci_round-total typ table (pci_header addr) found never here in
      let (last, done) = bar_loop-total false typ table addrs next never later in
      (last, rw round done)
  bar_loop-total true typ table (addr ∷ addrs) found never ((access, reached, fits), later) =
      let (next, round) = pcie_round-total typ table (pcie_header access addr) found never fits in
      let (last, done) = bar_loop-total true typ table addrs next never later in
      (last, rw reached (rw round done))
