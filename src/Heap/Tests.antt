-- ===== src/Heap/Tests.antt =====
-- The heap of core/src/memory/heap.rs over the bitmap allocator, on a memory of sixteen frames.
use proka_kernel.Base.{List, [], arith, refl, some, ℕ, ◌<◌, ◌^◌, ◌∷◌, ◌≡◌}
use proka_kernel.ArchFrames.{PhysFrames, allocate_contiguous, frame_alloc_provider, provide}
use proka_kernel.ArchFrames.Provider.{provider_laws}
use proka_kernel.FrameAlloc.{
  FrameAlloc, find_run, get_bit, read_bit, run_is_free, scan, set_bit, set_run, write_bit,
}
use proka_kernel.Heap.{FrameLaws, Heap, Layout, alloc, alloc_pages}
use proka_kernel.Heap.Pages.{Block, IsReady, alloc-Block}
use proka_kernel.FrameAlloc.{allocate_contiguous as core_allocate}

-- The x86_64 crate's frames, as numbers.
abbrev numbers : PhysFrames
numbers = record { PhysFrame = ℕ; from_pfn = λ n. n; pfn = λ n. n; pfn-from_pfn = λ n h. refl }

abbrev frames_of : List ℕ → ℕ → FrameAlloc
frames_of bytes next = record {
  bitmap = bytes;
  max_page = 16;
  reserved = 2;
  self_used_page = 1;
  pos = next;
}

abbrev heap_of : List ℕ → ℕ → Heap FrameAlloc
heap_of bytes next = record {
  provider = some (frame_alloc_provider numbers);
  frames = frames_of bytes next;
}

abbrev page : Layout
page = record { size = 5000; align = 8 }

abbrev laws : FrameLaws FrameAlloc (frame_alloc_provider numbers)
laws = provider_laws numbers

heap-IsReady :
    (low high next : ℕ)
    → low < 256
    → high < 256
    → next < 2 ^ 64
    → IsReady laws (heap_of (low ∷ high ∷ []) next)
heap-IsReady low high next l h n = record {
  registered = refl;
  good =
      unfold provider_laws in
      (
        record {
          bytes = (l, (h, tt));
          sized = refl;
          small = omega arith;
          reserved_fits = omega arith;
          pos_fits = n;
        },
        omega arith,
      );
}

first_block : alloc (heap_of (15 ∷ 0 ∷ []) 4) page ≡ (16384, heap_of (63 ∷ 0 ∷ []) 6)
unfolding alloc alloc_pages frame_alloc_provider provide allocate_contiguous core_allocate find_run
    scan run_is_free get_bit read_bit set_run set_bit write_bit
first_block = refl

second_block : alloc (heap_of (63 ∷ 0 ∷ []) 6) page ≡ (24576, heap_of (255 ∷ 0 ∷ []) 8)
unfolding alloc alloc_pages frame_alloc_provider provide allocate_contiguous core_allocate find_run
    scan run_is_free get_bit read_bit set_run set_bit write_bit
second_block = refl

alloc-Block_example : Block laws (heap_of (15 ∷ 0 ∷ []) 4) page 16384 (heap_of (63 ∷ 0 ∷ []) 6)
alloc-Block_example =
    alloc-Block laws (heap_of (15 ∷ 0 ∷ []) 4) (heap_of (63 ∷ 0 ∷ []) 6) page 16384
      (heap-IsReady 15 0 4 (omega arith) (omega arith) (omega arith)) first_block (omega arith)
