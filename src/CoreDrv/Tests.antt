-- ===== src/CoreDrv/Tests.antt =====
-- A graphics driver that registers, at concrete inputs: arch/src/x86_64/coredrv/drvtype.rs.
use proka_kernel.Base.{
  List, [], arith, false, none, refl, some, some_inj, subst, true, ℕ, ◌+◌, ◌∷◌, ◌≡◌, ◌≤◌,
}
use proka_kernel.CoreDrv.{
  AddrFormat, Drivers, Header, bar_loop, coredrv, driver_type_reg, graphics, map_mmio, memory64,
  pci_round, position, returned,
}
use proka_kernel.CoreDrv.Totality.{Fits, NeverFails}
use proka_kernel.CoreDrv.Registration.{Registers, driver_type_reg-Registers}
use proka_kernel.CoreDrv.Ranges.{collected}
use proka_kernel.Memory.{HugeMapper, MapOutcome, map_frames}
use proka_kernel.Pci.{PciAddress}
use proka_kernel.Pci.Mapping.{align_up}
use proka_kernel.Process.{DriverProcess, default_driver}

-- The page tables are the list of the frames that were mapped.
abbrev recording_of : ℕ → HugeMapper (List ℕ)
recording_of table = record {
  update_flags = λ s page flags. some s;
  identity_map = λ s frame flags. (frame ∷ s, MapOutcome.mapped);
}

abbrev display : PciAddress → Header
display addr = record {
  base_class = 3;
  is_endpoint = true;
  bar0 = some (memory64 0xe0000000 0x300000);
}

abbrev unregistered : Drivers (List ℕ)
unregistered = record { index = []; tables = []; area = none }

abbrev first_device : PciAddress
first_device = record { segment = 0; bus = 0; device = 2; function = 0 }

abbrev one_driver : List DriverProcess
one_driver = default_driver ∷ []

-- The two pages of the first range are mapped, and the range is left for the driver.
registered_display :
    coredrv recording_of
      (some false)
      none
      (λ access. display)
      display
      one_driver
      (first_device ∷ [])
      1
      0
      0
      unregistered
    ≡ (
      returned (record {
        index = record { id = 0; typ = graphics } ∷ [];
        tables = 0xe0200000 ∷ 0xe0000000 ∷ [];
        area = some (record { base = 0xe0000000; size = 0x300000 });
      }),
      0,
    )
unfolding coredrv driver_type_reg bar_loop pci_round map_mmio map_frames position
registered_display = refl

recording_of-NeverFails : NeverFails recording_of none (λ access. display) display
recording_of-NeverFails table s frame flags = cc

display-Fits : Fits recording_of none (λ access. display) display (display first_device)
display-Fits place e =
    subst (λ (a : AddrFormat). a.base + align_up a.size ≤ 0x10000000000000) (some_inj e)
      (omega arith)

driver_type_reg-Registers_example :
    Registers recording_of none
      (λ access. display)
      display
      unregistered
      0
      (collected false graphics display (first_device ∷ []))
      (driver_type_reg recording_of
        (some false)
        none
        (λ access. display)
        display
        one_driver
        (first_device ∷ [])
        0
        0
        unregistered)
driver_type_reg-Registers_example =
    driver_type_reg-Registers recording_of none (λ access. display) display false one_driver
      (first_device ∷ []) 0 default_driver unregistered refl recording_of-NeverFails
      (display-Fits, tt)
