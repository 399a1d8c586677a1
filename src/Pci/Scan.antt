-- ===== src/Pci/Scan.antt =====
-- The enumeration of the devices: `init` of arch/src/x86_64/devices/pci.rs and the loops of
-- src/devices/pcie.rs, over the vendor number that the header of an address holds.
use mathlib.Core.List.{append-nil, append_assoc}
use proka_kernel.Base.{
  List, [], ap, arith, if◌then◌else◌, suc, sym, zero, ℕ, ◌%◌, ◌*◌, ◌++◌, ◌+◌, ◌/◌, ◌<◌, ◌==◌, ◌∙◌,
  ◌∷◌, ◌≡◌, ◌≤◌,
}
use proka_kernel.Pci.{PciAddress}

module _ (vendor_id : PciAddress → ℕ) where
  -- The body of the innermost loop: a push if the address is that of a device.
  abbrev pub probe : PciAddress → List PciAddress → List PciAddress
  probe address found = if vendor_id address == 0xffff then found else found ++ address ∷ []

  -- `for function in first..first + n`.
  unfoldable pub scan_functions : ℕ → ℕ → ℕ → ℕ → ℕ → List PciAddress → List PciAddress
  scan_functions segment bus device zero first found = found
  scan_functions segment bus device (suc n) first found =
      scan_functions segment bus device n (suc first)
        (probe (record { segment = segment; bus = bus; device = device; function = first }) found)

  -- `for device in first..first + n`.
  unfoldable pub scan_devices : ℕ → ℕ → ℕ → ℕ → List PciAddress → List PciAddress
  scan_devices segment bus zero first found = found
  scan_devices segment bus (suc n) first found =
      scan_devices segment bus n (suc first) (scan_functions segment bus first 8 0 found)

  -- `for bus in first..first + n`.
  unfoldable pub scan_buses : ℕ → ℕ → ℕ → List PciAddress → List PciAddress
  scan_buses segment zero first found = found
  scan_buses segment (suc n) first found =
      scan_buses segment n (suc first) (scan_devices segment first 32 0 found)

  -- `init` of legacy PCI.
  pub pci_init : List PciAddress → List PciAddress
  pci_init found = scan_buses 0 256 0 found

  -- The addresses of a segment by number: function, device and bus, the function lowest.
  abbrev pub numbered : ℕ → ℕ → PciAddress
  numbered segment number = record {
    segment = segment;
    bus = number / 256;
    device = number / 8 % 32;
    function = number % 8;
  }

  -- The devices among the addresses from a number on, in the order of their numbers.
  pub devices_from : ℕ → ℕ → ℕ → List PciAddress
  devices_from segment zero first = []
  devices_from segment (suc n) first =
      let rest = devices_from segment n (suc first) in
      if vendor_id (numbered segment first) == 0xffff then rest else numbered segment first ∷ rest

  devices_from-add :
      (segment n m first : ℕ)
      → devices_from segment (n + m) first
        ≡ devices_from segment n first ++ devices_from segment m (first + n)
  unfolding devices_from
  devices_from-add segment zero m first =
      ap (λ (k : ℕ). devices_from segment k first) (omega arith)
      ∙ ap (devices_from segment m) (omega arith)
  devices_from-add segment (suc n) m first =
      let count : suc n + m ≡ suc (n + m) = omega arith in
      let place : suc first + n ≡ first + suc n = omega arith in
      ground (
        arith,
        ap (λ (k : ℕ). devices_from segment k first) count,
        devices_from-add segment n m (suc first),
        ap (devices_from segment m) place,
      )

  devices_from-zero :
      (segment first : ℕ) (found : List PciAddress) → found ≡ found ++ devices_from segment 0 first
  unfolding devices_from
  devices_from-zero segment first found = sym (append-nil found)

  scan_functions_lem :
      (segment bus device n first : ℕ) (found : List PciAddress)
      → device < 32
      → first + n ≤ 8
      → scan_functions segment bus device n first found
        ≡ found ++ devices_from segment n (bus * 256 + device * 8 + first)
  unfolding scan_functions devices_from
  scan_functions_lem segment bus device zero first found small fits = sym (append-nil found)
  scan_functions_lem segment bus device (suc n) first found small fits =
      let here = bus * 256 + device * 8 + first in
      let address : PciAddress = record {
        segment = segment;
        bus = bus;
        device = device;
        function = first;
      } in
      let named : numbered segment here ≡ address = ground arith in
      let next : bus * 256 + device * 8 + suc first ≡ suc here = omega arith in
      let rest =
        scan_functions_lem segment bus device n (suc first) (probe address found) small
          (omega arith) in
      ground (
        arith,
        rest,
        ap (devices_from segment n) next,
        named,
        ap vendor_id named,
        append_assoc found (address ∷ []) (devices_from segment n (suc here)),
      )

  scan_devices_lem :
      (segment bus n first : ℕ) (found : List PciAddress)
      → first + n ≤ 32
      → scan_devices segment bus n first found
        ≡ found ++ devices_from segment (n * 8) (bus * 256 + first * 8)
  unfolding scan_devices
  scan_devices_lem segment bus zero first found fits =
      devices_from-zero segment (bus * 256 + first * 8) found
  scan_devices_lem segment bus (suc n) first found fits =
      let here = bus * 256 + first * 8 in
      let one = scan_functions_lem segment bus first 8 0 found (omega arith) (omega arith) in
      let found1 = scan_functions segment bus first 8 0 found in
      let rest = scan_devices_lem segment bus n (suc first) found1 (omega arith) in
      let joined = devices_from-add segment 8 (n * 8) here in
      let start : here + 0 ≡ here = omega arith in
      let next : bus * 256 + suc first * 8 ≡ here + 8 = omega arith in
      let count : suc n * 8 ≡ 8 + n * 8 = omega arith in
      ground (
        arith,
        one,
        rest,
        joined,
        ap (devices_from segment 8) start,
        ap (devices_from segment (n * 8)) next,
        ap (λ (k : ℕ). devices_from segment k here) count,
        append_assoc found (devices_from segment 8 here) (devices_from segment (n * 8) (here + 8)),
      )

  -- The loops over buses, devices and functions push exactly the devices among the addresses, in
  -- the order of their numbers, after what the list holds.
  pub scan_buses-devices_from :
      (segment n first : ℕ) (found : List PciAddress)
      → scan_buses segment n first found ≡ found ++ devices_from segment (n * 256) (first * 256)
  unfolding scan_buses
  scan_buses-devices_from segment zero first found = devices_from-zero segment (first * 256) found
  scan_buses-devices_from segment (suc n) first found =
      let here = first * 256 in
      let one = scan_devices_lem segment first 32 0 found (omega arith) in
      let found1 = scan_devices segment first 32 0 found in
      let rest = scan_buses-devices_from segment n (suc first) found1 in
      let joined = devices_from-add segment 256 (n * 256) here in
      let start : here + 0 ≡ here = omega arith in
      let next : suc first * 256 ≡ here + 256 = omega arith in
      let count : suc n * 256 ≡ 256 + n * 256 = omega arith in
      ground (
        arith,
        one,
        rest,
        joined,
        ap (devices_from segment 256) start,
        ap (devices_from segment (n * 256)) next,
        ap (λ (k : ℕ). devices_from segment k here) count,
        append_assoc found (devices_from segment 256 here)
            (devices_from segment (n * 256) (here + 256)),
      )

  pub pci_init-devices_from :
      (found : List PciAddress) → pci_init found ≡ found ++ devices_from 0 65536 0
  unfolding pci_init
  pci_init-devices_from found = scan_buses-devices_from 0 256 0 found
