-- ===== src/Pci/Mapping.antt =====
-- The mapping of the configuration space of PCIe: arch/src/x86_64/devices/pcie.rs. The mapper and
-- the table of ACPI are parameters.
use proka_kernel.Base.{
  Bool, List, Option, [], add_word, ap, arith, false, if◌then◌else◌, leb, ltb, none, some, sub_word,
  suc, true, word, zero, ℕ, ◌%◌, ◌&&◌, ◌*◌, ◌+◌, ◌-◌, ◌/◌, ◌<◌, ◌==◌, ◌>>=◌, ◌||◌, ◌∷◌, ◌≡◌, ◌≤◌,
}
use proka_kernel.Paging.{table_flags}
use proka_kernel.Memory.{HugeMapper, already, failed, huge_frame, mapped}
use proka_kernel.Memory.Ranges.{MapsFrames}

-- An entry of MCFG: `base_address`, the buses and `pci_segment_group`.
pub record McfgEntry : Type 0 where
  pub base : ℕ
  pub bus_number_start : ℕ
  pub bus_number_end : ℕ
  pub segment : ℕ

-- `align_down` and `align_up` to 2 MiB.
abbrev pub align_down : ℕ → ℕ
align_down addr = addr / 0x200000 * 0x200000

abbrev pub align_up : ℕ → ℕ
align_up addr = (addr + 0x1fffff) / 0x200000 * 0x200000

-- The subtraction of `u8`.
abbrev pub sub_byte : ℕ → ℕ → ℕ
sub_byte a b = (a + 256 - b) % 256

-- `align_up` panics where the multiple is past 64 bits.
abbrev pub checked_align_up : ℕ → Option ℕ
checked_align_up addr = if ltb (align_up addr) word then some (align_up addr) else none

abbrev pub addr_start : ℕ → ℕ → ℕ
addr_start base start = add_word base (start * 0x100000)

abbrev pub addr_end : ℕ → ℕ → ℕ → ℕ
addr_end base start end = add_word base (sub_byte end start * 0x100000)

module _ {S : Type 0} (mapper : HugeMapper S) where
  -- The loop of `map_pcie`, with whether it returned `Ok`; `none` is the panic of `PhysAddr::new`
  -- past 52 bits.
  unfoldable pub map_pcie_pages : ℕ → ℕ → S → Option (S × Bool)
  map_pcie_pages zero addr s = some (s, true)
  map_pcie_pages (suc n) addr s = elim (ltb addr 0x10000000000000) [
    | false ↦ none
    | true ↦
        let (s', outcome) = mapper.identity_map s (huge_frame addr) table_flags in
        elim outcome [
          | mapped ↦ map_pcie_pages n (addr + 0x200000) s'
          | already ↦ map_pcie_pages n (addr + 0x200000) s'
          | failed ↦ some (s', false)
        ]
  ]

  -- `none` is a panic.
  unfoldable pub map_pcie : ℕ → ℕ → ℕ → S → Option (S × Bool)
  unfolding map_pcie_pages
  map_pcie base start end s = checked_align_up (addr_end base start end) >>= λ addr_end_aligned.
      let addr_start_aligned = align_down (addr_start base start) in
      map_pcie_pages (sub_word addr_end_aligned addr_start_aligned / 0x200000) addr_start_aligned s

-- `get_access`: the base of the first entry of a segment.
unfoldable pub find_segment : ℕ → List McfgEntry → Option ℕ
find_segment segment [] = none
find_segment segment (entry ∷ entries) =
    if entry.segment == segment then some entry.base else find_segment segment entries

unfoldable pub get_access : Option (List McfgEntry) → ℕ → Option ℕ
unfolding find_segment
get_access table segment = table >>= find_segment segment

module _ {S : Type 0} (mapper : HugeMapper S) (holds : S → ℕ → Bool)
    (maps : MapsFrames mapper holds) where
  map_pcie_pages_lem :
      (n first : ℕ) (s s' : S) (k : ℕ)
      → map_pcie_pages mapper n (first * 0x200000) s ≡ some (s', true)
      → holds s' (k * 0x200000) ≡ holds s (k * 0x200000) || (leb first k && ltb k (first + n))
  unfolding map_pcie_pages
  map_pcie_pages_lem zero first s s' k e = ground (arith, e)
  map_pcie_pages_lem (suc n) first s s' k e =
      let between = (mapper.identity_map s (huge_frame (first * 0x200000)) table_flags).0 in
      let next : suc first * 0x200000 ≡ first * 0x200000 + 0x200000 = omega arith in
      let rest = map_pcie_pages_lem n (suc first) between s' k in
      let here = maps.after_map s (huge_frame (first * 0x200000)) table_flags (k * 0x200000) in
      ground (arith, e, rest, here, next, ap (λ (a : ℕ). map_pcie_pages mapper n a between) next)

  -- When `map_pcie` returns `Ok`, for a window below 2 ^ 52 whose end is at least twice its start, a
  -- 2 MiB frame is mapped exactly if it was before or meets the addresses from bus `start` of the
  -- window to `end - start` MiB after the window's base, which is the end of the window's buses only
  -- where `start` is 0.
  pub map_pcie_lem :
      (base start end : ℕ) (s s' : S) (k : ℕ)
      → start ≤ end
      → end < 256
      → start * 2 ≤ end
      → base + 0x20000000 ≤ 0x10000000000000
      → map_pcie mapper base start end s ≡ some (s', true)
      → holds s' (k * 0x200000)
        ≡ holds s (k * 0x200000)
          || (leb (addr_start base start / 0x200000) k
              && ltb (k * 0x200000) (base + (end - start) * 0x100000))
  unfolding map_pcie
  map_pcie_lem base start end s s' k order small window fits e =
      let last = base + (end - start) * 0x100000 in
      let same_end : addr_end base start end ≡ last = omega arith in
      let first = addr_start base start / 0x200000 in
      let pages = sub_word (align_up (addr_end base start end)) (first * 0x200000) / 0x200000 in
      let count : first + pages ≡ (last + 0x1fffff) / 0x200000 = omega (arith, same_end) in
      let inside : ltb (align_up (addr_end base start end)) word ≡ true =
        ground (arith, same_end) in
      let frames = map_pcie_pages_lem pages first s s' k (rw (inside, map_pcie) at e) in
      let no_wrap : addr_start base start ≡ base + start * 0x100000 = omega arith in
      ground (arith, frames, count, no_wrap)
