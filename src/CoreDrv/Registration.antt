-- ===== src/CoreDrv/Registration.antt =====
-- What a driver's registration leaves in the area that drivers read:
-- arch/src/x86_64/coredrv/drvtype.rs.
use proka_kernel.Base.{Bool, List, Option, [], get_elem?, refl, some, sym, ℕ, ◌++◌, ◌∷◌, ◌≡◌}
use proka_kernel.Memory.{HugeMapper}
use proka_kernel.Pci.{PciAddress}
use proka_kernel.Pci.Mapping.{McfgEntry}
use proka_kernel.Process.{DriverProcess}
use proka_kernel.CoreDrv.{
  AddrFormat, Called, Drivers, Header, driver_type_reg, graphics, reads_nothing, returned,
}
use proka_kernel.CoreDrv.Ranges.{bar_loop-collected, collected}
use proka_kernel.CoreDrv.Totality.{Accessible, NeverFails, bar_loop-total}

module _ {S : Type 0} (mapper_of : ℕ → HugeMapper S) (mcfg : Option (List McfgEntry))
    (pcie_header : ℕ → PciAddress → Header) (pci_header : PciAddress → Header) where
  -- How a registration that finds the ranges of some devices ends.
  pub data Registers (d : Drivers S) (did : ℕ) (ranges : List AddrFormat) : Called S → Type 0 where
    empty : ranges ≡ [] → Registers d did ranges reads_nothing
    registers :
        (first : AddrFormat) (others : List AddrFormat) (tables : S)
        → ranges ≡ first ∷ others
        → Registers d did ranges (
            returned (record {
              index = d.index ++ record { id = did; typ = graphics } ∷ [];
              tables = tables;
              area = some first;
            }))

  finish_registration :
      (d : Drivers S) (did : ℕ) (tables : S) (bars : List AddrFormat)
      → Registers d did bars (elim bars [
        | [] ↦ reads_nothing
        | bar ∷ _ ↦ returned (record {
          index = d.index ++ record { id = did; typ = graphics } ∷ [];
          tables = tables;
          area = some bar;
        })
      ])
  finish_registration d did tables [] = empty refl
  finish_registration d did tables (bar ∷ bars) = registers bar bars tables refl

  -- The registration of a graphics driver that exists, where no mapping fails and the devices can
  -- be accessed and have their memory below 2 ^ 52, does not panic: it leaves the first range that
  -- was collected in the drivers' area and the driver in the index, or it reads past an empty list
  -- where no range was collected. Over PCIe no range is ever collected.
  pub driver_type_reg-Registers :
      (express : Bool) (drivers : List DriverProcess) (pci_list : List PciAddress) (did : ℕ)
      (process : DriverProcess) (d : Drivers S)
      → get_elem? drivers did ≡ some process
      → NeverFails mapper_of mcfg pcie_header pci_header
      → Accessible mapper_of mcfg pcie_header pci_header express pci_list
      → Registers d did (collected express graphics pci_header pci_list) (
          driver_type_reg mapper_of
            (some express)
            mcfg
            pcie_header
            pci_header
            drivers
            pci_list
            0
            did
            d)
  unfolding driver_type_reg
  driver_type_reg-Registers express drivers pci_list did process d there never access =
      let (found, done) =
        bar_loop-total mapper_of mcfg pcie_header pci_header express graphics process.table_addr
          pci_list (d.tables, []) never access in
      let ranges =
        bar_loop-collected mapper_of mcfg pcie_header pci_header express graphics process.table_addr
          pci_list d.tables [] found done in
      rw (there, driver_type_reg)
        (rw done (rw (sym ranges) (finish_registration d did found.0 found.1)))
