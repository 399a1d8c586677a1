-- ===== src/ArchFrames/Provider.antt =====
-- The frame provider of arch/src/x86_64/memory/framealloc.rs against the interface of the heap.
use proka_kernel.FrameAlloc.{
  FrameAlloc, get_bit, allocate_contiguous as core_allocate,
  deallocate_contiguous as core_deallocate,
}
use proka_kernel.Base.{
  All, Bool, List, Option-cases, add_word, ap, arith, false, inl, inr, length, not, some, ℕ, ◌&&◌,
  ◌+◌, ◌/◌, ◌<◌, ◌==◌, ◌^◌, ◌||◌, ◌≡◌, ◌≤◌,
}
use proka_kernel.ArchFrames.{
  PhysFrames, allocate_contiguous, deallocate_contiguous, frame_alloc_provider, free_addr, init,
  provide, take_back, used_page,
}
use proka_kernel.FrameAlloc.{FrameAlloc, MemoryDesc, get_bit, page_size}
use proka_kernel.FrameAlloc.Marks.{in_run}
use proka_kernel.FrameAlloc.Scan.{IsValid}
use proka_kernel.FrameAlloc.Allocation.{Takes, allocate_contiguous-Takes}
use proka_kernel.FrameAlloc.Release.{
  deallocate_contiguous-IsValid, deallocate_contiguous-max_page, get_bit-deallocate_contiguous,
}
use proka_kernel.FrameAlloc.BootMarks.{IsWord}
use proka_kernel.FrameAlloc.Boot.{init-Booted}
use proka_kernel.Heap.{FrameLaws}

abbrev pub frame_used : FrameAlloc → ℕ → Bool
frame_used a q = get_bit a q == 1

-- A valid allocator of a machine with 52-bit physical addresses.
abbrev pub IsMachine : FrameAlloc → Type 0
IsMachine a = IsValid a × (a.max_page < 2 ^ 40)

abbrev pub guard_frame : FrameAlloc → ℕ
guard_frame a = add_word a.reserved a.self_used_page

module _ (x : PhysFrames) where
  open x use {from_pfn, pfn, pfn-from_pfn}

  -- The way over the crate's frames and back is the identity on frame numbers of the machine.
  provide-some :
      (a b : FrameAlloc) (n f : ℕ)
      → IsMachine a
      → provide x a n ≡ some (f, b)
      → core_allocate a n ≡ some (f, b)
  unfolding provide allocate_contiguous
  provide-some a b n f v h = elim (Option-cases (core_allocate a n)) [
    | inl e ↦ cc (rw (e, provide, allocate_contiguous) at h)
    | inr ((g, c), e) ↦
        let t = allocate_contiguous-Takes a n g c v.0 e in
        let back : pfn (from_pfn g) ≡ g = pfn-from_pfn g (omega (arith, t.inside, v.1)) in
        let same : some (pfn (from_pfn g), c) ≡ some (f, b) =
          rw (e, provide, allocate_contiguous) at h in
        cc (e, same, back)
  ]

  take_back-core :
      (a : FrameAlloc) (f n : ℕ) → f < 2 ^ 40 → take_back x a f n ≡ core_deallocate a f n
  unfolding take_back deallocate_contiguous
  take_back-core a f n h = ap (λ g. core_deallocate a g n) (pfn-from_pfn f h)

  pub provide-Takes :
      (a b : FrameAlloc) (n f : ℕ) → IsMachine a → provide x a n ≡ some (f, b) → Takes a n f b
  provide-Takes a b n f v h = allocate_contiguous-Takes a n f b v.0 (provide-some a b n f v h)

  pub limit_law : (a : FrameAlloc) → IsMachine a → a.max_page ≤ 2 ^ 52
  limit_law a v = omega (arith, v)

  pub allocate_free_law :
      (a b : FrameAlloc) (n f q : ℕ)
      → IsMachine a
      → provide x a n ≡ some (f, b)
      → f ≤ q
      → q < f + n
      → frame_used a q ≡ false
  allocate_free_law a b n f q v h lo hi =
      ground (arith, (provide-Takes a b n f v h).was_free q lo hi)

  pub allocate_used_law :
      (a b : FrameAlloc) (n f q : ℕ)
      → IsMachine a
      → provide x a n ≡ some (f, b)
      → frame_used b q ≡ in_run f n q || frame_used a q
  allocate_used_law a b n f q v h = ground (arith, (provide-Takes a b n f v h).marked q)

  -- Giving frames back keeps the machine, and every used frame outside the run.
  pub take_back-keeps :
      (a : FrameAlloc) (f n q : ℕ)
      → IsMachine a
      → f + n ≤ 2 ^ 40
      → 0 < n
      → IsMachine (take_back x a f n)
        × (in_run f n q ≡ false → get_bit a q ≡ 1 → get_bit (take_back x a f n) q ≡ 1)
  take_back-keeps a f n q v fits some_frames = rw (take_back-core a f n (omega arith)) (
    (
      deallocate_contiguous-IsValid a f n v.0,
      omega (arith, v.1, deallocate_contiguous-max_page a f n),
    ),
    λ outside used. ground (arith, get_bit-deallocate_contiguous a f n q v.0 (omega arith)),
  )

  pub allocate_ok_law :
      (a b : FrameAlloc) (n f : ℕ)
      → IsMachine a
      → provide x a n ≡ some (f, b)
      → IsMachine b × (b.max_page ≡ a.max_page) × (guard_frame b ≡ guard_frame a)
  allocate_ok_law a b n f v h =
      let t = provide-Takes a b n f v h in
      (
        (t.valid, omega (arith, v, t.max_page_kept)),
        t.max_page_kept,
        ground (arith, t.reserved_kept, t.self_used_kept),
      )

  pub deallocate_used_law :
      (a : FrameAlloc) (f n q : ℕ)
      → IsMachine a
      → guard_frame a < f
      → f + n ≤ a.max_page
      → frame_used (take_back x a f n) q ≡ not (in_run f n q) && frame_used a q
  deallocate_used_law a f n q v lo hi =
      let same : take_back x a f n ≡ core_deallocate a f n =
        take_back-core a f n (omega (arith, v)) in
      rw same (ground (arith, get_bit-deallocate_contiguous a f n q v.0 (omega (arith, v)), v.0))

  -- The provider over the bitmap allocator implements the interface of the heap.
  unfoldable pub provider_laws : FrameLaws FrameAlloc (frame_alloc_provider x)
  unfolding frame_alloc_provider
  provider_laws = record {
    IsOk = IsMachine;
    used = frame_used;
    limit = λ a. a.max_page;
    floor = guard_frame;
    limit_fits = limit_law;
    allocate_inside = λ a b n f v h. (provide-Takes a b n f v h).inside;
    allocate_free = allocate_free_law;
    allocate_used = allocate_used_law;
    allocate_ok = allocate_ok_law;
    deallocate_used = deallocate_used_law;
  }

-- After boot on a map with 64-bit fields every byte of the bitmap, which starts at `free_addr`, lies in a frame that is marked
-- as used.
init-bitmap_held :
    {T : Type 0} (is_free : T → Bool) (ds : List (MemoryDesc T)) (a : FrameAlloc) (x : ℕ)
    → All (IsWord is_free) ds
    → init is_free ds ≡ some a
    → free_addr ≤ x
    → x < free_addr + length a.bitmap
    → get_bit a (x / page_size) ≡ 1
unfolding init
init-bitmap_held is_free ds a x w h lo hi =
    let b = init-Booted is_free ds used_page a w (omega arith) h in
    ground (arith, b.bits (x / page_size), b.reserved_set, b.self_used_set, b.valid.sized)
