-- ===== src/Memory/Tests.antt =====
-- Runs of the memory set-up and of the copy from user space, and the laws at concrete inputs.
use proka_kernel.Base.{
  Bool, List, Option, [], ap, arith, false, get_elem?, if◌then◌else◌, length, none, refl, some,
  some_inj, sym, true, ℕ, ◌*◌, ◌++◌, ◌+◌, ◌/◌, ◌<◌, ◌==◌, ◌||◌, ◌∷◌, ◌≡◌,
}
use proka_kernel.Memory.{
  HugeMapper, MapEntry, MapOutcome, copy_buffer_to_kernel, copy_pages, free_entries, init_maps,
  map_frames, protect_pages, slice, sum, total_ram,
}
use proka_kernel.Memory.Ranges.{MapsFrames, init_maps_lem, is_init_range}
use proka_kernel.Memory.Copy.{copy_buffer_to_kernel-user_byte, user_byte}

-- A mapper that keeps the addresses of the mapped pages.
abbrev recording : HugeMapper (List ℕ)
recording = record {
  update_flags = λ s page flags. some s;
  identity_map = λ s frame flags. (frame ∷ s, MapOutcome.mapped);
}

is_recorded : List ℕ → ℕ → Bool
is_recorded [] other = false
is_recorded (frame ∷ frames) other = is_recorded frames other || (other == frame)

recording-MapsFrames : MapsFrames recording is_recorded
unfolding is_recorded
recording-MapsFrames = record {
  after_map = λ s frame flags other h. refl;
  after_update =
      λ s s' page flags other e. ap (λ (l : List ℕ). is_recorded l other) (sym (some_inj e));
}

-- 3 GiB and 4 MiB below a hole, 1 GiB from 4 GiB on, and a reserved range.
abbrev memory_map : List MapEntry
memory_map =
    record { free = true; length = 0x300000 }
    ∷ record { free = false; length = 0x10000000 }
    ∷ record { free = true; length = 0x40000000 }
    ∷ []

-- What `init` maps there: the devices' frames and one more, the last one first.
abbrev mapped_frames : List ℕ
mapped_frames =
    0x40000000 ∷ 0xfee00000 ∷ 0xfec00000 ∷ 0xfea00000 ∷ 0xfe800000 ∷ 0xfe600000 ∷ 0xfe400000
    ∷ 0xfe200000 ∷ 0xfe000000 ∷ []

init_maps_runs : init_maps recording memory_map [] ≡ some mapped_frames
unfolding init_maps map_frames protect_pages total_ram sum free_entries
init_maps_runs = refl

-- The frame at 4 GiB, in the second free range.
init_maps_lem_example :
    is_recorded mapped_frames (0x800 * 0x200000)
    ≡ is_recorded [] (0x800 * 0x200000) || is_init_range memory_map (0x800 * 0x200000)
init_maps_lem_example =
    init_maps_lem recording is_recorded recording-MapsFrames memory_map [] mapped_frames 0x800
      init_maps_runs

above_hole_unmapped : is_recorded mapped_frames (0x800 * 0x200000) ≡ false
unfolding is_recorded
above_hole_unmapped = refl

-- Two pages of a user, at frames that do not follow one another.
user_pages : ℕ → Option ℕ
user_pages page =
    if page == 0x400000 then some 0x9000 else if page == 0x401000 then some 0x5000 else none

-- Each byte of memory is its own address.
abbrev bytes_at : ℕ → List ℕ
bytes_at = slice 1 (λ addr. addr) 4096

both_pages : List ℕ
both_pages = bytes_at 0x9000 ++ (bytes_at 0x5000 ++ [])

both_pages_copied :
    copy_buffer_to_kernel user_pages (λ _. true) 1 (λ addr. addr) 0x400010 5000 ≡ some both_pages
unfolding copy_buffer_to_kernel copy_pages user_pages both_pages
both_pages_copied = refl

copy_buffer_to_kernel-user_byte_example :
    (length both_pages ≡ (5000 + 0xfff) / 0x1000 * 4096)
    × ((i : ℕ)
        → i < length both_pages
        → get_elem? both_pages i ≡ user_byte user_pages (λ _. true) (λ addr. addr) (0x400000 + i))
copy_buffer_to_kernel-user_byte_example =
    copy_buffer_to_kernel-user_byte user_pages (λ _. true) (λ addr. addr) 0x400010 5000 both_pages
      both_pages_copied (omega arith)
