-- ===== src/ArchFrames/Tests.antt =====
-- The adapter of arch/src/x86_64/memory/framealloc.rs at concrete values.
use proka_kernel.FrameAlloc.{init as core_init, allocate_contiguous as core_allocate}
use proka_kernel.Base.{All, Bool, List, [], arith, false, refl, some, true, ℕ, ◌∷◌, ◌≡◌}
use proka_kernel.FrameAlloc.{
  FrameAlloc, MemoryDesc, find_run, free_ends, get_bit, mark_unavailable, max_of, read_bit,
  run_is_free, scan, set_bit, set_run, write_bit,
}
use proka_kernel.FrameAlloc.BootMarks.{IsWord}
use proka_kernel.FrameAlloc.Boot.{Booted, held_at_boot, init-Booted, init-some}
use proka_kernel.Heap.{Layout, alloc, alloc_pages, dealloc, set_frame_provider}
use proka_kernel.ArchFrames.{
  PhysFrames, allocate_contiguous, frame_alloc_provider, provide, register_provider, used_page,
}
use proka_kernel.ArchFrames.KernelHeap.{
  alloc-boot_safe, allocated, kernel_heap, registered, released,
}

-- The x86_64 crate's frames, as numbers.
abbrev numbers : PhysFrames
numbers = record { PhysFrame = ℕ; from_pfn = λ n. n; pfn = λ n. n; pfn-from_pfn = λ n h. refl }

abbrev is_true : Bool → Bool
is_true b = b

-- 64 MiB of free memory.
abbrev memory : List (MemoryDesc Bool)
memory = record { base_addr = 0; length = 0x4000000; mem_type = true } ∷ []

memory-IsWord : All (IsWord is_true) memory
memory-IsWord = ((omega arith, omega arith), tt)

booted_memory :
    (a : FrameAlloc) × (core_init is_true memory used_page ≡ some a) × (a.max_page ≡ 16384)
unfolding free_ends max_of
booted_memory = init-some is_true memory used_page 0x4000000 refl

memory-Booted : Booted is_true memory used_page booted_memory.0
memory-Booted =
    init-Booted is_true memory used_page booted_memory.0 memory-IsWord (omega arith) booted_memory.1

-- Sixteen frames, with two reserved.
abbrev small_memory : List (MemoryDesc Bool)
small_memory = record { base_addr = 0; length = 65536; mem_type = true } ∷ []

abbrev frames_of : List ℕ → ℕ → FrameAlloc
frames_of bytes next = record {
  bitmap = bytes;
  max_page = 16;
  reserved = 2;
  self_used_page = 1;
  pos = next;
}

small_memory-init : core_init is_true small_memory 2 ≡ some (frames_of (7 ∷ 0 ∷ []) 3)
unfolding core_init free_ends mark_unavailable max_of set_run set_bit write_bit
small_memory-init = refl

first_block :
    alloc (kernel_heap numbers (frames_of (7 ∷ 0 ∷ []) 3)) (record { size = 5000; align = 8 })
    ≡ (0x3000, kernel_heap numbers (frames_of (31 ∷ 0 ∷ []) 5))
unfolding kernel_heap register_provider set_frame_provider alloc alloc_pages frame_alloc_provider
    provide allocate_contiguous core_allocate find_run scan run_is_free get_bit read_bit set_run
    set_bit write_bit
first_block = refl

abbrev first_layout : Layout
first_layout = record { size = 5000; align = 8 }

alloc-boot_safe_example : held_at_boot is_true small_memory (frames_of (7 ∷ 0 ∷ []) 3) 4 ≡ false
alloc-boot_safe_example =
    alloc-boot_safe numbers is_true small_memory 2 (frames_of (7 ∷ 0 ∷ []) 3)
      ((0x3000, first_layout) ∷ [])
      (dealloc (kernel_heap numbers (frames_of (31 ∷ 0 ∷ []) 5)) 0x3000 first_layout) 0 0x3000
      0x4001 first_layout ((omega arith, omega arith), tt) (omega arith) small_memory-init
      (omega arith) (released 0 (allocated first_layout registered first_block) refl (omega arith))
      refl (omega arith) (omega arith) (omega arith)
