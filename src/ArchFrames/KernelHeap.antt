-- ===== src/ArchFrames/KernelHeap.antt =====
-- The kernel heap of core/src/memory/heap.rs once arch/src/x86_64/memory/framealloc.rs has
-- registered its provider over the allocator of core/src/memory/framealloc.rs.
use proka_kernel.FrameAlloc.{init as core_init}
use proka_kernel.Base.{
  All, Bool, List, [], arith, div_ceil, false, get_elem?, inl, inr, none, refl, some, some_inj,
  subst, suc, sym, true, zero, ℕ, ◌%◌, ◌*◌, ◌+◌, ◌/◌, ◌<◌, ◌^◌, ◌∙◌, ◌∷◌, ◌≡◌, ◌≢◌, ◌≤◌,
}
use proka_kernel.FrameAlloc.{FrameAlloc, MemoryDesc, get_bit, page_size}
use proka_kernel.FrameAlloc.Marks.{in_run}
use proka_kernel.FrameAlloc.BootMarks.{IsWord}
use proka_kernel.FrameAlloc.Boot.{held_at_boot, init-Booted}
use proka_kernel.Heap.{Heap, Layout, alloc, dealloc, set_frame_provider}
use proka_kernel.Heap.Pages.{Block, IsReady, alloc-owned, dealloc-frames, dealloc-registered}
use proka_kernel.ArchFrames.{PhysFrames, frame_alloc_provider, register_provider}
use proka_kernel.ArchFrames.Provider.{IsMachine, frame_used, provider_laws, take_back-keeps}

-- The heap at boot, over the frames that `init` left.
unfoldable pub kernel_heap : PhysFrames → FrameAlloc → Heap FrameAlloc
kernel_heap x a = register_provider x (record { provider = none; frames = a })

kernel_heap-IsReady :
    (x : PhysFrames) (a : FrameAlloc) → IsMachine a → IsReady (provider_laws x) (kernel_heap x a)
unfolding kernel_heap register_provider set_frame_provider provider_laws
kernel_heap-IsReady x a m = record { registered = refl; good = m }

-- The kernel heap in use: the blocks that have been handed out so far, null pointers among them, and
-- the heap. Any block but a null one may be given back at any time, even twice.
pub data InUse (x : PhysFrames) (a : FrameAlloc)
    : List (ℕ × Layout) → Heap FrameAlloc → Type 0 where
  registered : InUse x a [] (kernel_heap x a)
  allocated :
      {blocks : List (ℕ × Layout)} {h k : Heap FrameAlloc} {ptr : ℕ} (l : Layout)
      → InUse x a blocks h
      → alloc h l ≡ (ptr, k)
      → InUse x a ((ptr, l) ∷ blocks) k
  released :
      {blocks : List (ℕ × Layout)} {h : Heap FrameAlloc} {ptr : ℕ} {l : Layout} (i : ℕ)
      → InUse x a blocks h
      → get_elem? blocks i ≡ some (ptr, l)
      → ptr ≢ 0
      → InUse x a blocks (dealloc h ptr l)

-- A block that is not null lies in frames that are not held.
record IsApart (held : ℕ → Bool) (ptr : ℕ) (l : Layout) : Type 0 where
  sized : 0 < l.size
  aligned : ptr % page_size ≡ 0
  fits : ptr / page_size + div_ceil l.size page_size ≤ 2 ^ 40
  apart : (q : ℕ) → in_run (ptr / page_size) (div_ceil l.size page_size) q ≡ true → held q ≡ false

abbrev AreApart : (ℕ → Bool) → List (ℕ × Layout) → Type 0
AreApart held blocks = All (λ (b : ℕ × Layout). b.0 ≢ 0 → IsApart held b.0 b.1) blocks

AreApart-at :
    (held : ℕ → Bool) (blocks : List (ℕ × Layout)) (i : ℕ) {b : ℕ × Layout}
    → AreApart held blocks
    → get_elem? blocks i ≡ some b
    → b.0 ≢ 0
    → IsApart held b.0 b.1
AreApart-at held [] i all e = cc
AreApart-at held (c ∷ blocks) zero all e =
    subst (λ (b : ℕ × Layout). b.0 ≢ 0 → IsApart held b.0 b.1) (some_inj e) all.0
AreApart-at held (c ∷ blocks) (suc i) all e = AreApart-at held blocks i all.1 e

-- What every use of the heap keeps.
record IsSafe (x : PhysFrames) (held : ℕ → Bool) (blocks : List (ℕ × Layout)) (h : Heap FrameAlloc)
    : Type 0 where
  ready : IsReady (provider_laws x) h
  held_used : (q : ℕ) → held q ≡ true → get_bit h.frames q ≡ 1
  blocks_apart : AreApart held blocks

module _ (x : PhysFrames) (held : ℕ → Bool) where
  Block-IsApart :
      (h k : Heap FrameAlloc) (l : Layout) (ptr : ℕ)
      → IsReady (provider_laws x) h
      → ((q : ℕ) → held q ≡ true → get_bit h.frames q ≡ 1)
      → Block (provider_laws x) h l ptr k
      → IsApart held ptr l
  unfolding provider_laws
  Block-IsApart h k l ptr ready used b = record {
    sized = b.sized;
    aligned = b.aligned;
    fits = omega (arith, b.inside, ready.good.1);
    apart = λ q inside.
        let first_byte : q * page_size / page_size ≡ q = omega arith in
        let was_free : frame_used h.frames (q * page_size / page_size) ≡ false =
          b.fresh (q * page_size) (ground (arith, b.aligned)) (ground (arith, b.aligned)) in
        ground (arith, was_free, first_byte, used q);
  }

  allocated-IsSafe :
      (blocks : List (ℕ × Layout)) (h k : Heap FrameAlloc) (l : Layout) (ptr : ℕ)
      → IsSafe x held blocks h
      → alloc h l ≡ (ptr, k)
      → IsSafe x held ((ptr, l) ∷ blocks) k
  unfolding provider_laws
  allocated-IsSafe blocks h k l ptr v e = elim (alloc-owned (provider_laws x) h k l ptr v.ready e) [
    | inl (null, same) ↦ record {
      ready = subst (IsReady (provider_laws x)) (sym same) v.ready;
      held_used = λ q hq.
          subst (λ (g : Heap FrameAlloc). get_bit g.frames q ≡ 1) (sym same) (v.held_used q hq);
      blocks_apart = (λ live. absurd (live null), v.blocks_apart);
    }
    | inr b ↦ record {
      ready = b.ready;
      held_used = λ q hq. ground (arith, b.owned q, v.held_used q hq);
      blocks_apart = (λ live. Block-IsApart h k l ptr v.ready v.held_used b, v.blocks_apart);
    }
  ]

  released-IsSafe :
      (blocks : List (ℕ × Layout)) (h : Heap FrameAlloc) (l : Layout) (ptr : ℕ)
      → IsSafe x held blocks h
      → IsApart held ptr l
      → IsSafe x held blocks (dealloc h ptr l)
  unfolding provider_laws frame_alloc_provider
  released-IsSafe blocks h l ptr v b =
      let frames = dealloc-frames (provider_laws x) h l ptr v.ready b.sized in
      let f = ptr / page_size in
      let n = div_ceil l.size page_size in
      let some_frames : 0 < n = omega (arith, b.sized) in
      let keeps = λ (q : ℕ). take_back-keeps x h.frames f n q v.ready.good b.fits some_frames in
      record {
        ready = record {
          registered = dealloc-registered (provider_laws x) h l ptr v.ready;
          good = subst IsMachine (sym frames) (keeps 0).0;
        };
        held_used = λ q hq.
            let outside : in_run f n q ≡ false = ground (arith, b.apart q, hq) in
            subst (λ (g : FrameAlloc). get_bit g q ≡ 1) (sym frames)
              ((keeps q).1 outside (v.held_used q hq));
        blocks_apart = v.blocks_apart;
      }

  InUse-IsSafe :
      (a : FrameAlloc)
      → IsMachine a
      → ((q : ℕ) → held q ≡ true → get_bit a q ≡ 1)
      → {blocks : List (ℕ × Layout)} {h : Heap FrameAlloc} → InUse x a blocks h
      → IsSafe x held blocks h
  unfolding kernel_heap register_provider set_frame_provider
  InUse-IsSafe a m used registered = record {
    ready = kernel_heap-IsReady x a m;
    held_used = used;
    blocks_apart = tt;
  }
  InUse-IsSafe a m used (allocated {blocks} {h} {k} {ptr} l before e) =
      allocated-IsSafe blocks h k l ptr (InUse-IsSafe a m used before) e
  InUse-IsSafe a m used (released {blocks} {h} {ptr} {l} i before there live) =
      let v = InUse-IsSafe a m used before in
      released-IsSafe blocks h l ptr v (AreApart-at held blocks i v.blocks_apart there live)

-- On a machine with 52-bit physical addresses, after boot on a map with 64-bit fields and fewer
-- than 2 ^ 52 reserved frames, and whatever blocks of the kernel heap have been handed out and given
-- back since: no byte of a block that is not null lies in a frame that the boot memory map rules
-- out, that is reserved, or that holds the bitmap.
pub alloc-boot_safe :
    (x : PhysFrames) {T : Type 0} (is_free : T → Bool) (ds : List (MemoryDesc T)) (r : ℕ)
    (a : FrameAlloc) (blocks : List (ℕ × Layout)) (h : Heap FrameAlloc) (i ptr y : ℕ) (l : Layout)
    → All (IsWord is_free) ds
    → r < 2 ^ 52
    → core_init is_free ds r ≡ some a
    → a.max_page < 2 ^ 40
    → InUse x a blocks h
    → get_elem? blocks i ≡ some (ptr, l)
    → ptr ≢ 0
    → ptr ≤ y
    → y < ptr + l.size
    → held_at_boot is_free ds a (y / page_size) ≡ false
alloc-boot_safe x is_free ds r a blocks h i ptr y l w hr booted small u there live lo hi =
    let z = init-Booted is_free ds r a w hr booted in
    let held = held_at_boot is_free ds a in
    let v = InUse-IsSafe x held a (z.valid, small) (λ q hq. z.bits q ∙ rw hq refl) u in
    let b = AreApart-at held blocks i v.blocks_apart there live in
    b.apart (y / page_size) (ground (arith, b.aligned))
