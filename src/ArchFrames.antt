-- ===== src/ArchFrames.antt =====
-- arch/src/x86_64/memory/framealloc.rs, the adapter between the core's frame numbers and the
-- frames of the x86_64 crate, and the provider that it gives to the heap.
pub mod Provider
pub mod KernelHeap
mod Tests
use proka_kernel.FrameAlloc
use proka_kernel.FrameAlloc.{
  FrameAlloc, MemoryDesc, allocate_contiguous as core_allocate,
  deallocate_contiguous as core_deallocate, init as core_init,
}
use proka_kernel.Base.{Bool, List, Option, map, none, some, ℕ, ◌<◌, ◌^◌, ◌≡◌}
use proka_kernel.Heap.{FrameProvider, Heap, set_frame_provider}

-- The x86_64 crate's `PhysFrame`, a frame by its number. Physical addresses have 52 bits.
pub record PhysFrames : Type 1 where
  pub PhysFrame : Type 0
  pub from_pfn : ℕ → PhysFrame
  pub pfn : PhysFrame → ℕ
  pub pfn-from_pfn : (n : ℕ) → n < 2 ^ 40 → pfn (from_pfn n) ≡ n

-- `USED_PAGE` and `FREE_ADDR`.
abbrev pub used_page : ℕ
used_page = 0x1e00

abbrev pub free_addr : ℕ
free_addr = 0x1e00000

-- The bitmap's place, `free_addr`, is no part of the core's state.
unfoldable pub init : {T : Type 0} → (T → Bool) → List (MemoryDesc T) → Option FrameAlloc
init is_free map = core_init is_free map used_page

module _ (x : PhysFrames) where
  open x use {PhysFrame, from_pfn, pfn}

  unfoldable pub allocate_contiguous : FrameAlloc → ℕ → Option (PhysFrame × FrameAlloc)
  allocate_contiguous a n = elim (core_allocate a n) [
    | none ↦ none
    | some (f, b) ↦ some (from_pfn f, b)
  ]

  pub deallocate_contiguous : FrameAlloc → PhysFrame → ℕ → FrameAlloc
  deallocate_contiguous a frame n = core_deallocate a (pfn frame) n

  -- The crate's traits `FrameAllocator` and `FrameDeallocator`.
  unfoldable pub allocate_frame : FrameAlloc → Option (PhysFrame × FrameAlloc)
  allocate_frame a = allocate_contiguous a 1

  pub deallocate_frame : FrameAlloc → PhysFrame → FrameAlloc
  deallocate_frame a frame = deallocate_contiguous a frame 1

  unfoldable pub provide : FrameAlloc → ℕ → Option (ℕ × FrameAlloc)
  provide a n = elim (allocate_contiguous a n) [
    | none ↦ none
    | some (frame, b) ↦ some (pfn frame, b)
  ]

  pub take_back : FrameAlloc → ℕ → ℕ → FrameAlloc
  take_back a f n = deallocate_contiguous a (from_pfn f) n

  -- `FrameAllocProvider`, over the allocator behind the lock `FRAME_ALLOCATOR`.
  unfoldable pub frame_alloc_provider : FrameProvider FrameAlloc
  frame_alloc_provider = record { allocate_contiguous = provide; deallocate_contiguous = take_back }

  unfoldable pub register_provider : Heap FrameAlloc → Heap FrameAlloc
  register_provider h = set_frame_provider h frame_alloc_provider
