-- ===== src/FrameAlloc/Tests.antt =====
-- The allocator of core/src/memory/framealloc.rs on small memories.
use proka_kernel.Base.{All, Bool, List, [], arith, false, none, refl, some, true, ◌∷◌, ◌≡◌}
use proka_kernel.FrameAlloc.{
  FrameAlloc, MemoryDesc, allocate_contiguous, deallocate_contiguous, find_run, free_ends, get_bit,
  init, mark_unavailable, max_of, read_bit, run_is_free, scan, set_bit, set_run, write_bit,
}
use proka_kernel.FrameAlloc.Scan.{IsFree, IsValid}
use proka_kernel.FrameAlloc.Allocation.{Takes, allocate_contiguous-Takes, allocate_contiguous-none}
use proka_kernel.FrameAlloc.Release.{deallocate-first_run_stays}
use proka_kernel.FrameAlloc.BootMarks.{IsWord}
use proka_kernel.FrameAlloc.Boot.{Booted, init-Booted}

-- Sixteen frames: two reserved, one for the bitmap, thirteen free.
abbrev small : FrameAlloc
small = record { bitmap = 7 ∷ 0 ∷ []; max_page = 16; reserved = 2; self_used_page = 1; pos = 3 }

abbrev small_two : FrameAlloc
small_two = record {
  bitmap = 31 ∷ 0 ∷ [];
  max_page = 16;
  reserved = 2;
  self_used_page = 1;
  pos = 5;
}

abbrev small_four : FrameAlloc
small_four = record {
  bitmap = 127 ∷ 0 ∷ [];
  max_page = 16;
  reserved = 2;
  self_used_page = 1;
  pos = 7;
}

small-IsValid : IsValid small
small-IsValid = record {
  bytes = (omega arith, (omega arith, tt));
  sized = refl;
  small = omega arith;
  reserved_fits = omega arith;
  pos_fits = omega arith;
}

small_two-IsValid : IsValid small_two
small_two-IsValid = record {
  bytes = (omega arith, (omega arith, tt));
  sized = refl;
  small = omega arith;
  reserved_fits = omega arith;
  pos_fits = omega arith;
}

small_four-IsValid : IsValid small_four
small_four-IsValid = record {
  bytes = (omega arith, (omega arith, tt));
  sized = refl;
  small = omega arith;
  reserved_fits = omega arith;
  pos_fits = omega arith;
}

small-run : allocate_contiguous small 2 ≡ some (3, small_two)
unfolding allocate_contiguous find_run scan run_is_free get_bit read_bit set_run set_bit write_bit
small-run = refl

small_two-run : allocate_contiguous small_two 2 ≡ some (5, small_four)
unfolding allocate_contiguous find_run scan run_is_free get_bit read_bit set_run set_bit write_bit
small_two-run = refl

small-full : allocate_contiguous small 14 ≡ none
unfolding allocate_contiguous find_run scan run_is_free get_bit read_bit set_run set_bit write_bit
small-full = refl

allocate_contiguous-Takes_example : Takes small 2 3 small_two
allocate_contiguous-Takes_example =
    allocate_contiguous-Takes small 2 3 small_two small-IsValid small-run

allocate_contiguous-none_example : ¬ IsFree small 2 14
allocate_contiguous-none_example =
    allocate_contiguous-none small 14 2 small-IsValid small-full (omega arith) (omega arith)

deallocate-first_run_stays_example : get_bit (deallocate_contiguous small_two 3 2) 4 ≡ 1
deallocate-first_run_stays_example =
    deallocate-first_run_stays small 2 3 4 small_two small-IsValid small-run refl (omega arith)
      (omega arith)

-- A map of sixteen frames, of which the ninth is not memory; `true` stands for free memory.
abbrev small_map : List (MemoryDesc Bool)
small_map =
    record { base_addr = 0; length = 65536; mem_type = true }
    ∷ record { base_addr = 32768; length = 4096; mem_type = false }
    ∷ []

abbrev is_true : Bool → Bool
is_true b = b

abbrev booted_small : FrameAlloc
booted_small = record {
  bitmap = 7 ∷ 1 ∷ [];
  max_page = 16;
  reserved = 2;
  self_used_page = 1;
  pos = 3;
}

small_map-IsWord : All (IsWord is_true) small_map
small_map-IsWord = ((omega arith, omega arith), ((omega arith, omega arith), tt))

small_map-init : init is_true small_map 2 ≡ some booted_small
unfolding init free_ends mark_unavailable max_of set_run set_bit write_bit
small_map-init = refl

init-Booted_example : Booted is_true small_map 2 booted_small
init-Booted_example =
    init-Booted is_true small_map 2 booted_small small_map-IsWord (omega arith) small_map-init
