-- ===== src/Memory.antt =====
-- Memory set-up and the copy from user space: arch/src/x86_64/memory/mod.rs, but the clearing and
-- `paging::init`, which are in Paging. The page-table mapper is a parameter.
use proka_kernel.Base.{
  Bool, List, Option, [], add_word, if◌then◌else◌, leb, ltb, map, none, some, suc, true, zero, ℕ,
  ◌*◌, ◌++◌, ◌+◌, ◌-◌, ◌/◌, ◌>>=◌, ◌∷◌,
}
use proka_kernel.Paging.{Flags, huge_flags, present_flags}
pub mod Ranges
pub mod Copy
mod Tests

-- A map entry of the boot information, with `mem_type == FreeRAM`.
pub record MapEntry : Type 0 where
  pub free : Bool
  pub length : ℕ

-- A wrapping sum of `u64`.
unfoldable pub sum : List ℕ → ℕ
sum [] = 0
sum (x ∷ xs) = add_word x (sum xs)

-- The entries that `filter` keeps.
unfoldable pub free_entries : List MapEntry → List MapEntry
free_entries [] = []
free_entries (e ∷ es) = let rest = free_entries es in if e.free then e ∷ rest else rest

-- `TOTAL_RAM`: of everything and of what is free.
unfoldable pub total_ram : List MapEntry → ℕ × ℕ
unfolding sum free_entries
total_ram entries = (
  sum (map (λ (e : MapEntry). e.length) entries),
  sum (map (λ (e : MapEntry). e.length) (free_entries entries)),
)

-- How a mapping call ends.
pub data MapOutcome : Type 0 where
  mapped already failed : MapOutcome

-- The mapper: `update_flags` of a 4 KiB page, which may fail, and `identity_map` of a 2 MiB frame.
pub record HugeMapper (S : Type 0) : Type 0 where
  pub update_flags : S → ℕ → Flags → Option S
  pub identity_map : S → ℕ → Flags → S × MapOutcome

-- `PhysFrame::<Size2MiB>::containing_address`.
abbrev pub huge_frame : ℕ → ℕ
huge_frame addr = addr / 0x200000 * 0x200000

abbrev pub device_flags : Flags
device_flags = record huge_flags { no_cache = true }

module _ {S : Type 0} (mapper : HugeMapper S) where
  -- One round: a page that is mapped already is left, any other failure is a panic, and so is an
  -- address that does not fit the 52 bits of `PhysAddr::new`.
  abbrev pub map_frame : S → ℕ → Flags → Option S
  map_frame s addr flags =
      let (s', outcome) = mapper.identity_map s (huge_frame addr) flags in
      if ltb addr 0x10000000000000
      then elim outcome [ mapped ↦ some s' | already ↦ some s' | failed ↦ none ]
      else none

  -- `for i in 0..n` over the frames from an address on.
  unfoldable pub map_frames : ℕ → ℕ → Flags → S → Option S
  map_frames zero addr flags s = some s
  map_frames (suc n) addr flags s = map_frame s addr flags >>= map_frames n (addr + 0x200000) flags

  -- `for i in 0..n`: pages lose every flag but the given ones.
  unfoldable pub protect_pages : ℕ → ℕ → Flags → S → Option S
  protect_pages zero addr flags s = some s
  protect_pages (suc n) addr flags s =
      mapper.update_flags s addr flags >>= protect_pages n (addr + 0x1000) flags

  -- `init` from the write protection of the boot information on.
  unfoldable pub init_maps : List MapEntry → S → Option S
  unfolding map_frames protect_pages total_ram
  init_maps entries s = protect_pages 16 0x10000 present_flags s >>= λ protected.
      (map_frames 8 0xfe000000 device_flags protected >>= λ devices.
      let total = (total_ram entries).1 in
      if leb total 0x40000000
      then some devices
      else map_frames ((total - 0x40000000) / 0x200000) 0x40000000 huge_flags devices)

-- `from_raw_parts(addr, n)`, over the reading of one value of a type at an address.
unfoldable pub slice {ℓ} : {A : Type ℓ} → ℕ → (ℕ → A) → ℕ → ℕ → List A
slice value_size read_value zero addr = []
slice value_size read_value (suc n) addr =
    read_value addr ∷ slice value_size read_value n (addr + value_size)

-- `copy_buffer_to_kernel::<T>`, over the translation of a page of the user's table and the reading
-- of one value of `T` at an address.
module _ {A : Type 0} (translate_page : ℕ → Option ℕ) (is_canonical : ℕ → Bool) (value_size : ℕ)
    (read_value : ℕ → A) where
  -- The rounds of the loop from one address on.
  unfoldable pub copy_pages : ℕ → ℕ → Option (List A)
  copy_pages zero addr = some []
  copy_pages (suc n) addr =
      if is_canonical addr
      then (translate_page (addr / 0x1000 * 0x1000) >>= λ frame.
          (copy_pages n (add_word addr 0x1000) >>= λ rest.
          some (slice value_size read_value 4096 frame ++ rest)))
      else none

  unfoldable pub copy_buffer_to_kernel : ℕ → ℕ → Option (List A)
  copy_buffer_to_kernel user_buf_base size = copy_pages (add_word size 0xfff / 0x1000) user_buf_base
