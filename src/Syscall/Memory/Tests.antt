-- ===== src/Syscall/Memory/Tests.antt =====
-- System call 2 of arch/src/x86_64/syscall/memory.rs for one process on sixteen frames.
use proka_kernel.FrameAlloc.{allocate_contiguous as core_allocate}
use proka_kernel.Base.{
  List, Option, [], arith, false, none, refl, some, some_inj, subst, suc, true, zero, ℕ, ◌∷◌, ◌≡◌,
}
use proka_kernel.FrameAlloc.{
  find_run, get_bit, max_of, read_bit, run_is_free, scan, set_bit, set_run, write_bit,
}
use proka_kernel.ArchFrames.{PhysFrames, allocate_contiguous, allocate_frame}
use proka_kernel.Process.{NormalProcess, Range, default_normal}
use proka_kernel.Syscall.{negsuc, pos}
use proka_kernel.Syscall.Memory.{
  Mapper, Memory, allocate, as_i64, deallocate, find_process, find_range, heap_top, map_pages,
  memory,
}
use proka_kernel.Syscall.Memory.Ranges.{InOrder, IsHeaps}
use proka_kernel.Syscall.Memory.Calls.{Allocates, allocate-Allocates}
use proka_kernel.Syscall.Memory.Undo.{deallocate-allocate_heap}

-- The x86_64 crate's frames as numbers, and its page tables as the frames mapped so far.
abbrev numbers : PhysFrames
numbers = record { PhysFrame = ℕ; from_pfn = λ n. n; pfn = λ n. n; pfn-from_pfn = λ n h. refl }

pop : List ℕ → Option (ℕ × List ℕ)
pop [] = none
pop (f ∷ fs) = some (f, fs)

abbrev stacked : Mapper numbers (List ℕ)
stacked = record {
  map_to = λ s table page phys frames. (true, phys ∷ s, frames);
  unmap = λ s table page. pop s;
}

abbrev program : List Range → NormalProcess
program ranges = record default_normal { present = true; table_addr = 0x5000; heap_range = ranges }

abbrev state : List Range → List ℕ → List ℕ → ℕ → Memory numbers stacked
state ranges used bytes next = record {
  kernel = record {
    normals = program ranges ∷ [];
    drivers = [];
    normal_queue = 0 ∷ [];
    driver_queue = [];
    is_driver = false;
    current_id = 0;
  };
  frames = record { bitmap = bytes; max_page = 16; reserved = 2; self_used_page = 1; pos = next };
  tables = used;
}

abbrev before : Memory numbers stacked
before = state [] [] (7 ∷ 0 ∷ []) 3

abbrev after : Memory numbers stacked
after = state (record { start = 0x180000000; end = 0x180002000 } ∷ []) (4 ∷ 3 ∷ []) (31 ∷ 0 ∷ []) 5

two_pages : allocate numbers stacked 0x5000 5000 before ≡ some (pos 0x180000000, after)
unfolding allocate find_process heap_top map_pages as_i64 allocate_frame allocate_contiguous
    core_allocate find_run scan run_is_free get_bit read_bit set_run set_bit write_bit max_of
two_pages = refl

two_pages_call : memory numbers stacked 0x5000 0 5000 0 before ≡ some (pos 0x180000000, after)
unfolding memory allocate find_process heap_top map_pages as_i64 allocate_frame allocate_contiguous
    core_allocate find_run scan run_is_free get_bit read_bit set_run set_bit write_bit max_of
two_pages_call = refl

before-IsHeaps : IsHeaps before.kernel.normals
before-IsHeaps zero p h = subst (λ (q : NormalProcess). InOrder q.heap_range) (some_inj h) tt
before-IsHeaps (suc i) p h = cc

allocate-Allocates_example : Allocates numbers stacked 0x5000 5000 before (pos 0x180000000, after)
allocate-Allocates_example =
    allocate-Allocates numbers stacked 0x5000 5000 before (pos 0x180000000, after) two_pages

deallocate-allocate_heap_example :
    (u : Memory numbers stacked) × (deallocate numbers stacked 0x5000 0x180000000 after
      ≡ some (pos 0, u))
    × (u.kernel ≡ before.kernel)
deallocate-allocate_heap_example =
    deallocate-allocate_heap numbers stacked 0x5000 5000 0x180000000 before after (omega arith)
      two_pages

nothing_freed : deallocate numbers stacked 0x5000 0x180002000 after ≡ some (negsuc 16, after)
unfolding deallocate find_process find_range
nothing_freed = refl
