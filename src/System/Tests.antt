-- ===== src/System/Tests.antt =====
-- A process that is created and then asks for memory, and the law for the state that it leaves.
use proka_kernel.Base.{
  List, Option, [], is_some, none, refl, some-value_or, true, value_or, ℕ, ◌∷◌, ◌≡◌,
}
use proka_kernel.System.Running.{moved, requested, running-IsRunnable, scheduled, started}
use proka_kernel.Creation.Fixtures.{numbers, selectors}
use proka_kernel.Syscall.{pos, ℤ}
use proka_kernel.Syscall.Memory.{
  Mapper, Memory, allocate, as_i64, find_process, heap_top, map_pages, memory,
}
use proka_kernel.Syscall.Memory.Ranges.{IsHeaps}
use proka_kernel.Process.{Kernel, boot, create_normal, create_normal_process, first_free}
use proka_kernel.ArchFrames.{allocate_contiguous, allocate_frame}
use proka_kernel.FrameAlloc.{
  FrameAlloc, find_run, get_bit, max_of, read_bit, run_is_free, scan, set_bit, set_run, write_bit,
}
use proka_kernel.Scheduler.Lifecycle.{IsRunnable}
use proka_kernel.Scheduler.Reachable.{created_normal}

-- The page tables are the frames mapped so far.
abbrev stacked : Mapper numbers (List ℕ)
stacked = record {
  map_to = λ s table page phys frames. (true, phys ∷ s, frames);
  unmap = λ s table page. none;
}

abbrev created : Option Kernel
created = create_normal selectors boot 0x5000 0

abbrev with_one : Kernel
with_one = value_or boot created

creates : is_some created ≡ true
unfolding create_normal boot first_free
creates = refl

abbrev asking : Memory numbers stacked
asking = record {
  kernel = with_one;
  frames = record { bitmap = 7 ∷ 0 ∷ []; max_page = 16; reserved = 2; self_used_page = 1; pos = 3 };
  tables = [];
}

-- The first request of a process, for two pages.
abbrev granting : Option (ℤ × Memory numbers stacked)
granting = memory numbers stacked 0x5000 0 5000 0 asking

abbrev granted_pages : ℤ × Memory numbers stacked
granted_pages = value_or (pos 0, asking) granting

grants : is_some granting ≡ true
unfolding memory allocate find_process heap_top map_pages as_i64 create_normal boot first_free
    create_normal_process allocate_frame proka_kernel.ArchFrames.allocate_contiguous
    proka_kernel.FrameAlloc.allocate_contiguous find_run scan run_is_free get_bit read_bit set_run
    set_bit write_bit max_of
grants = refl

running-IsRunnable_example :
    IsRunnable granted_pages.1.kernel × IsHeaps granted_pages.1.kernel.normals
running-IsRunnable_example = running-IsRunnable numbers stacked (
    moved
      (moved started
        (scheduled (created_normal selectors 0x5000 0 (some-value_or boot created creates))))
      (requested 0x5000 0 5000 0 asking granted_pages refl
        (some-value_or (pos 0, asking) granting grants) refl))
