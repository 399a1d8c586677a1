-- ===== src/FrameAlloc/Release.antt =====
-- `deallocate_contiguous` of core/src/memory/framealloc.rs, alone and against `allocate_contiguous`.
use proka_kernel.Base.{
  Bool, Bool-cases, add_word, arith, if◌then◌else◌, inl, inr, leb, ltb, refl, some, word, ℕ, ◌&&◌,
  ◌+◌, ◌<◌, ◌≡◌, ◌≤◌, ◌⊎◌,
}
use proka_kernel.FrameAlloc.{FrameAlloc, allocate_contiguous, deallocate_contiguous, get_bit}
use proka_kernel.FrameAlloc.Marks.{get_bit-set_run, in_bitmap, in_run, set_run-SameShape}
use proka_kernel.FrameAlloc.Scan.{IsValid}
use proka_kernel.FrameAlloc.Allocation.{allocate_contiguous-Takes, set_run-IsValid}

-- The frames that the guard of `deallocate_contiguous` lets through.
abbrev pub releasable : FrameAlloc → ℕ → Bool
releasable a pfn = ltb (add_word a.reserved a.self_used_page) pfn

-- On a valid allocator, deallocating a run of 64-bit frame numbers frees exactly those of its frames
-- that the bitmap has, if the run starts past the guard, and no frame otherwise.
pub get_bit-deallocate_contiguous :
    (a : FrameAlloc) (pfn n q : ℕ)
    → IsValid a
    → pfn + n ≤ word
    → get_bit (deallocate_contiguous a pfn n) q
      ≡ (if releasable a pfn && (in_run pfn n q && in_bitmap a q) then 0 else get_bit a q)
unfolding deallocate_contiguous
get_bit-deallocate_contiguous a pfn n q v fits =
    ground (arith, get_bit-set_run a pfn 0 n 0 q (omega arith) v.bytes (omega arith))

pub deallocate_contiguous-max_page :
    (a : FrameAlloc) (pfn n : ℕ) → (deallocate_contiguous a pfn n).max_page ≡ a.max_page
unfolding deallocate_contiguous
deallocate_contiguous-max_page a pfn n =
    elim (Bool-cases (leb pfn (add_word a.reserved a.self_used_page))) [
      | inl e ↦ rw e refl
      | inr e ↦ rw e (set_run-SameShape a pfn 0 n 0).max_page_kept
    ]

pub deallocate_contiguous-IsValid :
    (a : FrameAlloc) (pfn n : ℕ) → IsValid a → IsValid (deallocate_contiguous a pfn n)
unfolding deallocate_contiguous
deallocate_contiguous-IsValid a pfn n v =
    elim (Bool-cases (leb pfn (add_word a.reserved a.self_used_page))) [
      | inl e ↦ rw e v
      | inr e ↦ rw e (set_run-IsValid a pfn n 0 (omega arith) v)
    ]

-- On a valid allocator, giving back a run past the guard undoes its allocation for every frame.
deallocate-allocate :
    (a : FrameAlloc) (n s q : ℕ) (b : FrameAlloc)
    → IsValid a
    → allocate_contiguous a n ≡ some (s, b)
    → add_word a.reserved a.self_used_page < s
    → get_bit (deallocate_contiguous b s n) q ≡ get_bit a q
deallocate-allocate a n s q b v h past =
    let t = allocate_contiguous-Takes a n s b v h in
    elim (Bool-cases (in_run s n q)) [
      | inl here ↦ ground (
        arith,
        t.was_free q (ground arith) (ground arith),
        get_bit-deallocate_contiguous b s n q t.valid (omega (arith, v, t.inside)),
        t.valid,
        t.inside,
        t.max_page_kept,
        t.reserved_kept,
        t.self_used_kept,
      )
      | inr there ↦ ground (
        arith,
        t.marked q,
        get_bit-deallocate_contiguous b s n q t.valid (omega (arith, v, t.inside)),
      )
    ]

-- The guard is `<=`: a run allocated from a valid allocator at the first frame past the reserved area and the bitmap is
-- never given back, every one of its frames stays used.
pub deallocate-first_run_stays :
    (a : FrameAlloc) (n s q : ℕ) (b : FrameAlloc)
    → IsValid a
    → allocate_contiguous a n ≡ some (s, b)
    → s ≡ add_word a.reserved a.self_used_page
    → s ≤ q
    → q < s + n
    → get_bit (deallocate_contiguous b s n) q ≡ 1
unfolding deallocate_contiguous
deallocate-first_run_stays a n s q b v h first lo hi =
    let t = allocate_contiguous-Takes a n s b v h in
    ground (arith, t.marked q, t.reserved_kept, t.self_used_kept)

-- Two allocations in a row from a valid allocator never share a frame.
allocate-allocate_disjoint :
    (a : FrameAlloc) (n m s t q : ℕ) (b c : FrameAlloc)
    → IsValid a
    → allocate_contiguous a n ≡ some (s, b)
    → allocate_contiguous b m ≡ some (t, c)
    → s ≤ q
    → q < s + n
    → (q < t) ⊎ (t + m ≤ q)
allocate-allocate_disjoint a n m s t q b c v h k lo hi =
    let x = allocate_contiguous-Takes a n s b v h in
    let y = allocate_contiguous-Takes b m t c x.valid k in
    elim (Bool-cases (in_run t m q)) [
      | inl both ↦ absurd (ground (arith, x.marked q, y.was_free q (ground arith) (ground arith)))
      | inr apart ↦ ground arith
    ]
