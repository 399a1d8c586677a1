-- ===== src/Pci/Tests.antt =====
-- Runs of the configuration accesses and of the enumeration, and the laws at concrete inputs.
use proka_kernel.Base.{
  Bool, List, Option, [], ap, arith, bit_and, false, if◌then◌else◌, leb, ltb, none, refl, some,
  some_inj, sym, true, ℕ, ◌%◌, ◌&&◌, ◌*◌, ◌+◌, ◌/◌, ◌<◌, ◌==◌, ◌^◌, ◌||◌, ◌∷◌, ◌≡◌,
}
use proka_kernel.Memory.{HugeMapper, MapOutcome}
use proka_kernel.Memory.Ranges.{MapsFrames}
use proka_kernel.Pci.{IsAddress, PciAddress, Ports, align_offset, config_word, pci_cfg, pci_write}
use proka_kernel.Pci.Registers.{ConfigMechanism}
use proka_kernel.Pci.Mapping.{McfgEntry, addr_start, map_pcie, map_pcie_lem, map_pcie_pages}
use proka_kernel.Pci.Scan.{
  devices_from, scan_buses, scan_buses-devices_from, scan_devices, scan_functions,
}
use proka_kernel.Pci.Startup.{
  Devices, Probed, init, init-pci_list, init_entries, pcie_init, probe_devices,
}
use proka_kernel.Pci.Acpi.{
  Machine, map_addresses, map_physical_region, map_physical_region_lem, read_pci_width,
  read_pci_width-write_pci_width, write_pci, write_pci_width,
}

-- Ports with a selected register and the registers' values.
record PortState : Type 0 where
  selected : ℕ
  registers : ℕ → ℕ

abbrev config_ports : Ports PortState
config_ports = record {
  output = λ s port value.
      if port == pci_cfg
      then record s { selected = value }
      else record s { registers = λ at. if at == s.selected then value else s.registers at };
  input = λ s port. (s.registers s.selected, s);
}

abbrev registers_of : PortState → ℕ → ℕ
registers_of s = s.registers

config_ports-ConfigMechanism : ConfigMechanism config_ports registers_of
config_ports-ConfigMechanism = record {
  select_keeps = λ s word other. refl;
  input_selected = λ s word. refl;
  input_keeps = λ s word other. refl;
  output_selected = λ s word value other. refl;
}

abbrev blank_ports : PortState
blank_ports = record { selected = 0; registers = λ _. 0xffffffff }

abbrev at_bus : ℕ → PciAddress
at_bus bus = record { segment = 0; bus = bus; device = 2; function = 1 }

at_bus-IsAddress : (bus : ℕ) → bus < 256 → IsAddress (at_bus bus)
at_bus-IsAddress bus h = record {
  bus_fits = h;
  device_fits = omega arith;
  function_fits = omega arith;
}

config_word_value : config_word (at_bus 3) 0x3d ≡ 0x8003113c
unfolding config_word
config_word_value = refl

offset_mask : bit_and 0x1ab 0xfc ≡ align_offset 0x1ab
offset_mask = refl

-- One device, at bus 1.
one_vendor : PciAddress → ℕ
one_vendor address =
    if address.bus == 1 && address.device == 2 && address.function == 1 then 0x8086 else 0xffff

scan_buses-devices_from_example : scan_buses one_vendor 0 2 0 [] ≡ devices_from one_vendor 0 512 0
scan_buses-devices_from_example = scan_buses-devices_from one_vendor 0 2 0 []

-- A mapper that keeps the addresses of the mapped pages.
abbrev recording : HugeMapper (List ℕ)
recording = record {
  update_flags = λ s page flags. some s;
  identity_map = λ s frame flags. (frame ∷ s, MapOutcome.mapped);
}

is_recorded : List ℕ → ℕ → Bool
is_recorded [] other = false
is_recorded (frame ∷ frames) other = is_recorded frames other || (other == frame)

recording-MapsFrames : MapsFrames recording is_recorded
unfolding is_recorded
recording-MapsFrames = record {
  after_map = λ s frame flags other h. refl;
  after_update =
      λ s s' page flags other e. ap (λ (l : List ℕ). is_recorded l other) (sym (some_inj e));
}

-- A window of the buses 2 to 6: the frame of bus 4 is not mapped.
map_pcie_lem_example :
    is_recorded (0xe0200000 ∷ []) (0x702 * 0x200000)
    ≡ is_recorded [] (0x702 * 0x200000)
      || (leb (addr_start 0xe0000000 2 / 0x200000) 0x702
          && ltb (0x702 * 0x200000) (0xe0000000 + 4 * 0x100000))
unfolding map_pcie map_pcie_pages
map_pcie_lem_example =
    map_pcie_lem recording is_recorded recording-MapsFrames 0xe0000000 2 6 [] (0xe0200000 ∷ [])
      0x702 (omega arith) (omega arith) (omega arith) (omega arith) refl

no_devices : Devices (List ℕ)
no_devices = record { mapper_state = []; pci_list = []; is_pcie = none }

-- A table of one entry, for the buses 0 to 2 of segment 0: the last is left out.
abbrev one_entry : Option (List McfgEntry)
one_entry =
    some (record { base = 0xe0000000; bus_number_start = 0; bus_number_end = 2; segment = 0 } ∷ [])

abbrev probed_devices : Devices (List ℕ)
probed_devices = record {
  mapper_state = 0xe0000000 ∷ [];
  pci_list = at_bus 1 ∷ [];
  is_pcie = some true;
}

init-pci_list_example :
    (fine : Bool) × Probed recording one_entry
      (λ _. one_vendor)
      one_vendor
      no_devices
      probed_devices
      fine
unfolding no_devices init map_pcie map_pcie_pages probe_devices pcie_init init_entries one_vendor
    scan_buses scan_devices scan_functions
init-pci_list_example =
    init-pci_list recording one_entry (λ _. one_vendor) one_vendor no_devices probed_devices refl
      refl

abbrev blank_machine : Machine PortState
blank_machine = record { ports_state = blank_ports; memory = λ _. 0 }

-- A byte written at 0x12 clears the other bytes of the register at 0x10.
read_pci_width-write_pci_width_example :
    (result : ℕ × Machine PortState) × (read_pci_width config_ports none false 32
        (at_bus 3)
        0x10
        (record blank_machine {
          ports_state = pci_write config_ports (at_bus 3) 0x12 7 blank_ports;
        })
      ≡ some result)
    × (result.0 ≡ 7 % 2 ^ 32)
unfolding write_pci_width write_pci
read_pci_width-write_pci_width_example =
    read_pci_width-write_pci_width config_ports none false registers_of 32 (at_bus 3) 0x12 0x10 7
      blank_machine
      (record blank_machine { ports_state = pci_write config_ports (at_bus 3) 0x12 7 blank_ports })
      config_ports-ConfigMechanism (at_bus-IsAddress 3 (omega arith)) refl refl

-- A region of 6 MiB: only its first frame is mapped.
map_physical_region_lem_example :
    is_recorded (0x7e000000 ∷ 0x7e000000 ∷ 0x7e000000 ∷ 0x7e000000 ∷ []) (0x3f1 * 0x200000)
    ≡ is_recorded [] (0x3f1 * 0x200000)
      || (leb (0x7e000000 / 0x200000) 0x3f1
          && leb 0x3f1 ((0x7e000000 + (0x600000 + 0x1fffff) / 0x200000) / 0x200000))
unfolding map_physical_region map_addresses
map_physical_region_lem_example =
    map_physical_region_lem recording is_recorded recording-MapsFrames 0x7e000000 0x600000 []
      (0x7e000000 ∷ 0x7e000000 ∷ 0x7e000000 ∷ 0x7e000000 ∷ []) 0x3f1 refl
