-- ===== src/Heap.antt =====
-- core/src/memory/heap.rs, the kernel heap, and the interface through which it asks for frames.
-- Calls on shared state take the state and return it. A pointer is its address, and null is 0.
pub mod Pages
mod Tests
use proka_kernel.Base.{
  Bool, Option, div_ceil, false, if◌then◌else◌, leb, ltb, mul_word, none, not, some, ℕ, ◌&&◌, ◌+◌,
  ◌/◌, ◌<◌, ◌==◌, ◌^◌, ◌||◌, ◌≡◌, ◌≤◌,
}
use proka_kernel.FrameAlloc.{page_size}

-- The trait `FrameProvider`.
pub record FrameProvider (S : Type 0) : Type 0 where
  pub allocate_contiguous : S → ℕ → Option (ℕ × S)
  pub deallocate_contiguous : S → ℕ → ℕ → S

-- The static `FRAME_PROVIDER`, with the state behind the provider.
pub record Heap (S : Type 0) : Type 0 where
  pub provider : Option (FrameProvider S)
  pub frames : S

-- `core::alloc::Layout`.
pub record Layout : Type 0 where
  pub size : ℕ
  pub align : ℕ

module _ {S : Type 0} where
  -- `call_once` on a `Once`: only the first registration counts.
  unfoldable pub set_frame_provider : Heap S → FrameProvider S → Heap S
  set_frame_provider h p = elim h.provider [ none ↦ record h { provider = some p } | some _ ↦ h ]

  unfoldable pub alloc_pages : Heap S → FrameProvider S → ℕ → ℕ × Heap S
  alloc_pages h p pages = elim (p.allocate_contiguous h.frames pages) [
    | none ↦ (0, h)
    | some (pfn, s) ↦ (mul_word pfn page_size, record h { frames = s })
  ]

  unfoldable pub alloc : Heap S → Layout → ℕ × Heap S
  unfolding alloc_pages
  alloc h l =
      if l.size == 0
      then (0, h)
      else if ltb page_size l.align
      then (0, h)
      else elim h.provider [ none ↦ (0, h) | some p ↦ alloc_pages h p (div_ceil l.size page_size) ]

  pub dealloc : Heap S → ℕ → Layout → Heap S
  dealloc h ptr l = if l.size == 0 then h else elim h.provider [
    | none ↦ h
    | some p ↦ record h {
      frames = p.deallocate_contiguous h.frames (ptr / page_size) (div_ceil l.size page_size);
    }
  ]

-- What the heap relies on: which frames are taken, and what the two calls do to them.
pub record FrameLaws (S : Type 0) (p : FrameProvider S) : Type 1 where
  pub IsOk : S → Type 0
  pub used : S → ℕ → Bool
  -- One past the last frame, and the last frame that cannot be given back.
  pub limit : S → ℕ
  pub floor : S → ℕ
  pub limit_fits : (s : S) → IsOk s → limit s ≤ 2 ^ 52
  pub allocate_inside :
      (s t : S) (n f : ℕ) → IsOk s → p.allocate_contiguous s n ≡ some (f, t) → f + n ≤ limit s
  pub allocate_free :
      (s t : S) (n f q : ℕ)
      → IsOk s
      → p.allocate_contiguous s n ≡ some (f, t)
      → f ≤ q
      → q < f + n
      → used s q ≡ false
  pub allocate_used :
      (s t : S) (n f q : ℕ)
      → IsOk s
      → p.allocate_contiguous s n ≡ some (f, t)
      → used t q ≡ (leb f q && ltb q (f + n)) || used s q
  pub allocate_ok :
      (s t : S) (n f : ℕ)
      → IsOk s
      → p.allocate_contiguous s n ≡ some (f, t)
      → IsOk t × (limit t ≡ limit s) × (floor t ≡ floor s)
  pub deallocate_used :
      (s : S) (f n q : ℕ)
      → IsOk s
      → floor s < f
      → f + n ≤ limit s
      → used (p.deallocate_contiguous s f n) q ≡ (not (leb f q && ltb q (f + n)) && used s q)
