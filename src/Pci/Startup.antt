-- ===== src/Pci/Startup.antt =====
-- The start of the device enumeration: src/devices/mod.rs and src/devices/pcie.rs.
use mathlib.Core.List.{append-nil, append_assoc}
use proka_kernel.Base.{
  >>=-some, Bool, Bool-cases, List, Option, Option-cases, [], ap, arith, false, if◌then◌else◌, inl,
  inr, length, none, refl, some, some_inj, subst, suc, sym, take, true, unwrap_or, ℕ, ◌*◌, ◌++◌,
  ◌-◌, ◌>>=◌, ◌↔◌, ◌∙◌, ◌∷◌, ◌≡◌, ◌≢◌, ◌≤◌,
}
use proka_kernel.Memory.{HugeMapper}
use proka_kernel.Pci.{PciAddress}
use proka_kernel.Pci.Mapping.{McfgEntry, map_pcie}
use proka_kernel.Pci.Scan.{
  devices_from, pci_init, pci_init-devices_from, scan_buses, scan_buses-devices_from,
}

-- The mapper's state, `PCILIST` and `IS_PCIE`, which is set once.
pub record Devices (S : Type 0) : Type 0 where
  pub mapper_state : S
  pub pci_list : List PciAddress
  pub is_pcie : Option Bool

-- `find_table::<Mcfg>()`, the vendor numbers that the headers hold through an access with a base,
-- and those through the ports.
module _ {S : Type 0} (mapper : HugeMapper S) (table : Option (List McfgEntry))
    (pcie_vendor : ℕ → PciAddress → ℕ) (pci_vendor : PciAddress → ℕ) where
  -- `map_pcie` on the window of an entry.
  abbrev map_entry : McfgEntry → S → Option (S × Bool)
  map_entry entry s = map_pcie mapper entry.base entry.bus_number_start entry.bus_number_end s

  -- The buses of an entry, with what is found appended to the list.
  abbrev list_entry : McfgEntry → List PciAddress → List PciAddress
  list_entry entry listed =
      scan_buses (pcie_vendor entry.base) entry.segment
        (entry.bus_number_end - entry.bus_number_start) entry.bus_number_start listed

  -- The loop of `pcie::init`, with whether it went through; `none` is a panic.
  unfoldable pub init_entries : List McfgEntry → Devices S → Option (Devices S × Bool)
  init_entries [] d = some (d, true)
  init_entries (entry ∷ entries) d = map_entry entry d.mapper_state >>= λ (state, fine). elim fine [
    | true ↦
        init_entries entries
          (record d { mapper_state = state; pci_list = list_entry entry d.pci_list })
    | false ↦ some (record d { mapper_state = state }, false)
  ]

  -- `pcie::init`.
  unfoldable pub pcie_init : Devices S → Option (Devices S × Bool)
  pcie_init d = elim table [ none ↦ some (d, false) | some entries ↦ init_entries entries d ]

  -- The closure of `call_once`.
  unfoldable pub probe_devices : Devices S → Option (Devices S)
  probe_devices d = pcie_init d >>= λ (after, fine). some (
      if fine
      then record after { is_pcie = some true }
      else record after { pci_list = pci_init pci_vendor after.pci_list; is_pcie = some false })

  -- `init`, which has no effect from the second time on.
  unfoldable pub init : Devices S → Option (Devices S)
  init d = elim d.is_pcie [ none ↦ probe_devices d | some _ ↦ some d ]

  -- The devices on the buses of the entries, the last bus of each left out.
  pub entry_devices : List McfgEntry → List PciAddress
  entry_devices [] = []
  entry_devices (entry ∷ entries) =
      devices_from (pcie_vendor entry.base) entry.segment
        ((entry.bus_number_end - entry.bus_number_start) * 256) (entry.bus_number_start * 256)
      ++ entry_devices entries

  -- How many entries have windows that can be mapped, one after the other, before the first that
  -- cannot.
  pub mapped_entries : List McfgEntry → S → ℕ
  mapped_entries [] s = 0
  mapped_entries (entry ∷ entries) s =
      elim (map_pcie mapper entry.base entry.bus_number_start entry.bus_number_end s) [
        | none ↦ 0
        | some (state, fine) ↦ if fine then suc (mapped_entries entries state) else 0
      ]

  -- What the loop leaves after `n` entries.
  abbrev Finished : ℕ → List McfgEntry → Devices S → Devices S × Bool → Type 0
  Finished n entries d (after, fine) =
      (n ≤ length entries)
      × ((n ≡ length entries) ↔ (fine ≡ true))
      × (after.pci_list ≡ d.pci_list ++ entry_devices (take n entries))
      × (after.is_pcie ≡ d.is_pcie)

  init_entries-Finished :
      (entries : List McfgEntry) (d : Devices S) (r : Devices S × Bool)
      → init_entries entries d ≡ some r
      → Finished (mapped_entries entries d.mapper_state) entries d r
  unfolding init_entries entry_devices mapped_entries
  init_entries-Finished [] d r e =
      subst (Finished 0 [] d) (some_inj e)
        (omega arith, (λ _. refl, λ _. refl), sym (append-nil _), refl)
  init_entries-Finished (entry ∷ entries) d r e =
      let ((state, fine), window, rest) = >>=-some (map_entry entry d.mapper_state) _ e in
      let buses = entry.bus_number_end - entry.bus_number_start in
      let here =
        devices_from (pcie_vendor entry.base) entry.segment (buses * 256)
          (entry.bus_number_start * 256) in
      let scanned =
        scan_buses-devices_from (pcie_vendor entry.base) entry.segment buses entry.bus_number_start
          d.pci_list in
      let next = record d { mapper_state = state; pci_list = list_entry entry d.pci_list } in
      let others = entry_devices (take (mapped_entries entries state) entries) in
      rw (window, mapped_entries)
        (elim (Bool-cases fine) [
          | inl good ↦
              let (bound, all, list, flag) =
                init_entries-Finished entries next r (rw good at rest) in
              rw good (
                omega (arith, bound),
                (λ h. all.0 (omega (arith, h)), λ h. ap suc (all.1 h)),
                list
                    ∙ ap (λ (l : List PciAddress). l ++ others) scanned
                    ∙ append_assoc d.pci_list here others,
                flag,
              )
          | inr bad ↦ rw bad (
              subst (Finished 0 (entry ∷ entries) d) (some_inj (rw bad at rest)) (
                omega arith,
                (λ h. absurd (omega (arith, h)), λ h. cc),
                sym (append-nil d.pci_list),
                refl,
              ))
        ])

  -- What the enumeration leaves, with the entries before the first whose window cannot be mapped.
  abbrev pub Probed : Devices S → Devices S → Bool → Type 0
  Probed d after fine =
      let entries = unwrap_or table [] in
      let n = mapped_entries entries d.mapper_state in
      ((fine ≡ true) ↔ ((table ≢ none) × (n ≡ length entries)))
      × (after.is_pcie ≡ some fine)
      × (after.pci_list
          ≡ d.pci_list
            ++ (entry_devices (take n entries)
                ++ (if fine then [] else devices_from pci_vendor 0 65536 0)))

  -- The two ends of the closure, over the loop's result.
  by_flag :
      (entries : List McfgEntry) (d between : Devices S) (fine : Bool)
      → table ≡ some entries
      → Finished (mapped_entries entries d.mapper_state) entries d (between, fine)
      → (fine' : Bool) × Probed d
          (if fine then record between { is_pcie = some true } else record between {
            pci_list = pci_init pci_vendor between.pci_list;
            is_pcie = some false;
          })
          fine'
  unfolding mapped_entries entry_devices
  by_flag entries d between true found (bound, all, list, flag) = rw found (
    true,
    (
      (λ _. (λ e. cc, all.1 refl), λ _. refl),
      refl,
      list ∙ ap (λ (l : List PciAddress). d.pci_list ++ l) (sym (append-nil _)),
    ),
  )
  by_flag entries d between false found (bound, all, list, flag) = rw found (
    false,
    (
      (λ e. cc, λ e. all.0 e.1),
      refl,
      pci_init-devices_from pci_vendor between.pci_list
          ∙ ap (λ (l : List PciAddress). l ++ devices_from pci_vendor 0 65536 0) list
          ∙ append_assoc d.pci_list _ (devices_from pci_vendor 0 65536 0),
    ),
  )

  probe_devices-Probed :
      (d after : Devices S) → probe_devices d ≡ some after → (fine : Bool) × Probed d after fine
  unfolding probe_devices pcie_init entry_devices mapped_entries
  probe_devices-Probed d after e = elim (Option-cases table) [
    | inl missing ↦
        subst (λ (q : Devices S). (fine : Bool) × Probed d q fine)
          (some_inj (rw (missing, probe_devices, pcie_init) at e))
          (rw missing (
            false,
            ((λ h. cc, λ h. absurd (h.0 refl)), refl, pci_init-devices_from pci_vendor d.pci_list),
          ))
    | inr (entries, found) ↦
        let ((between, fine), went, last) =
          >>=-some (init_entries entries d) _ (rw (found, probe_devices, pcie_init) at e) in
        subst (λ (q : Devices S). (fine' : Bool) × Probed d q fine') (some_inj last)
          (by_flag entries d between fine found
            (init_entries-Finished entries d (between, fine) went))
  ]

  -- The enumeration, which runs once, sets the flag to true exactly when the table is there and every
  -- entry's window could be mapped. The list then holds the devices of all entries in order;
  -- otherwise those of the entries before the first whose window could not be mapped, and the
  -- legacy scan's after them. This holds when it returns, without a panic of an address past the
  -- physical ones.
  pub init-pci_list :
      (d after : Devices S)
      → d.is_pcie ≡ none
      → init d ≡ some after
      → (fine : Bool) × Probed d after fine
  unfolding init
  init-pci_list d after unset e = probe_devices-Probed d after (rw (unset, init) at e)
