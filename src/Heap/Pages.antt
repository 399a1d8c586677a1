-- ===== src/Heap/Pages.antt =====
-- The byte ranges that the heap of core/src/memory/heap.rs hands out, over any frame provider that
-- keeps its laws.
use proka_kernel.Base.{
  Bool-cases, Option-cases, ap, arith, div_ceil, false, inl, inr, leb, ltb, mul_word, none, refl,
  some, subst, sym, ℕ, ◌%◌, ◌&&◌, ◌*◌, ◌+◌, ◌/◌, ◌<◌, ◌==◌, ◌||◌, ◌∙◌, ◌≡◌, ◌≢◌, ◌≤◌, ◌⊎◌,
}
use proka_kernel.FrameAlloc.{page_size}
use proka_kernel.Heap.{FrameLaws, FrameProvider, Heap, Layout, alloc, alloc_pages, dealloc}

module _ {S : Type 0} {p : FrameProvider S} (w : FrameLaws S p) where
  -- The heap has this provider, in a good state.
  pub record IsReady (h : Heap S) : Type 0 where
    pub registered : h.provider ≡ some p
    pub good : w.IsOk h.frames

  -- What a caller gets with a block: alignment, fresh frames under each of its bytes, and the
  -- frames' state afterwards.
  pub record Block (h : Heap S) (l : Layout) (ptr : ℕ) (k : Heap S) : Type 0 where
    pub sized : 0 < l.size
    pub aligned : ptr % page_size ≡ 0
    pub align_met : l.align ≤ page_size
    pub inside : ptr / page_size + div_ceil l.size page_size ≤ w.limit h.frames
    pub fresh : (x : ℕ) → ptr ≤ x → x < ptr + l.size → w.used h.frames (x / page_size) ≡ false
    pub owned :
        (q : ℕ)
        → w.used k.frames q
          ≡ (leb (ptr / page_size) q && ltb q (ptr / page_size + div_ceil l.size page_size))
            || w.used h.frames q
    pub ready : IsReady k
    pub limit_kept : w.limit k.frames ≡ w.limit h.frames
    pub floor_kept : w.floor k.frames ≡ w.floor h.frames

  alloc_pages-cases :
      (h : Heap S) (n : ℕ)
      → ((p.allocate_contiguous h.frames n ≡ none) × (alloc_pages h p n ≡ (0, h)))
        ⊎ ((f : ℕ) × (s : S) × (p.allocate_contiguous h.frames n ≡ some (f, s))
            × (alloc_pages h p n ≡ (mul_word f page_size, record h { frames = s })))
  unfolding alloc_pages
  alloc_pages-cases h n = elim (Option-cases (p.allocate_contiguous h.frames n)) [
    | inl e ↦ inl (e, rw (e, alloc_pages) refl)
    | inr ((f, s), e) ↦ inr (f, s, e, rw (e, alloc_pages) refl)
  ]

  alloc-alloc_pages :
      (h : Heap S) (l : Layout)
      → IsReady h
      → (l.size == 0) ≡ false
      → ltb page_size l.align ≡ false
      → alloc h l ≡ alloc_pages h p (div_ceil l.size page_size)
  unfolding alloc
  alloc-alloc_pages h l r nz small = ground (arith, r.registered)

  -- How `alloc` ends: null and an unchanged heap, or frames for the size.
  alloc-cases :
      (h : Heap S) (l : Layout)
      → IsReady h
      → (alloc h l ≡ (0, h))
        ⊎ ((f : ℕ) × (s : S) × (p.allocate_contiguous h.frames (div_ceil l.size page_size)
              ≡ some (f, s))
            × (alloc h l ≡ (mul_word f page_size, record h { frames = s }))
            × (0 < l.size)
            × (l.align ≤ page_size))
  unfolding alloc
  alloc-cases h l r = elim (Bool-cases (l.size == 0)) [
    | inl z ↦ inl (rw z refl)
    | inr nz ↦ elim (Bool-cases (ltb page_size l.align)) [
      | inl big ↦ inl (rw (nz, big) refl)
      | inr small ↦ elim (alloc_pages-cases h (div_ceil l.size page_size)) [
        | inl (_, e) ↦ inl (alloc-alloc_pages h l r nz small ∙ e)
        | inr (f, s, e, g) ↦
            inr (f, s, e, alloc-alloc_pages h l r nz small ∙ g, ground arith, ground arith)
      ]
    ]
  ]

  block :
      (h : Heap S) (l : Layout) (f : ℕ) (s : S)
      → IsReady h
      → 0 < l.size
      → l.align ≤ page_size
      → p.allocate_contiguous h.frames (div_ceil l.size page_size) ≡ some (f, s)
      → Block h l (mul_word f page_size) (record h { frames = s })
  block h l f s r pos small e = record {
    sized = pos;
    aligned = omega (arith, fits);
    align_met = small;
    inside = omega (arith, here, within);
    fresh = λ x lo hi.
        w.allocate_free h.frames s n f (x / page_size) r.good e (omega (arith, fits))
          (omega (arith, fits));
    owned = λ q. rw here (w.allocate_used h.frames s n f q r.good e);
    ready = record { registered = r.registered; good = after.0 };
    limit_kept = after.1;
    floor_kept = after.2;
  }
    where
      n : ℕ
      n = div_ceil l.size page_size

      within : f + n ≤ w.limit h.frames
      within = w.allocate_inside h.frames s n f r.good e

      fits : mul_word f page_size ≡ f * page_size
      fits = omega (arith, within, w.limit_fits h.frames r.good)

      here : mul_word f page_size / page_size ≡ f
      here = omega (arith, fits)

      after : w.IsOk s × (w.limit s ≡ w.limit h.frames) × (w.floor s ≡ w.floor h.frames)
      after = w.allocate_ok h.frames s n f r.good e

  -- On a heap that is ready, a pointer that is not null is page aligned, meets the alignment asked for, and every byte of
  -- its block lies in a frame that was free and is now taken; no other frame changes hands.
  pub alloc-Block :
      (h k : Heap S) (l : Layout) (ptr : ℕ)
      → IsReady h
      → alloc h l ≡ (ptr, k)
      → ptr ≢ 0
      → Block h l ptr k
  alloc-Block h k l ptr r e live = elim (alloc-cases h l r) [
    | inl z ↦ absurd (live (ap (λ (x : ℕ × Heap S). x.0) (sym e ∙ z)))
    | inr (f, s, g, z, pos, small) ↦
        subst (λ (x : ℕ × Heap S). Block h l x.0 x.1) (sym z ∙ e) (block h l f s r pos small g)
  ]

  -- A null pointer comes with an unchanged heap, unless it is the block at frame 0.
  pub alloc-owned :
      (h k : Heap S) (l : Layout) (ptr : ℕ)
      → IsReady h
      → alloc h l ≡ (ptr, k)
      → ((ptr ≡ 0) × (k ≡ h)) ⊎ Block h l ptr k
  alloc-owned h k l ptr r e = elim (alloc-cases h l r) [
    | inl z ↦
        inl (ap (λ (x : ℕ × Heap S). x.0) (sym e ∙ z), ap (λ (x : ℕ × Heap S). x.1) (sym e ∙ z))
    | inr (f, s, g, z, pos, small) ↦
        inr
          (subst (λ (x : ℕ × Heap S). Block h l x.0 x.1) (sym z ∙ e) (block h l f s r pos small g))
  ]

  -- On a heap that is ready, two blocks that are handed out one after the other, neither of them null,
  -- have no byte in common.
  alloc-alloc_disjoint :
      (h k j : Heap S) (l m : Layout) (a b x : ℕ)
      → IsReady h
      → alloc h l ≡ (a, k)
      → alloc k m ≡ (b, j)
      → a ≢ 0
      → b ≢ 0
      → a ≤ x
      → x < a + l.size
      → (x < b) ⊎ (b + m.size ≤ x)
  alloc-alloc_disjoint h k j l m a b x r e g ha hb lo hi =
      let first = alloc-Block h k l a r e ha in
      let second = alloc-Block k j m b first.ready g hb in
      elim (Bool-cases (leb b x && ltb x (b + m.size))) [
        | inr apart ↦ ground arith
        | inl both ↦
            let free = second.fresh x (ground arith) (ground arith) in
            absurd (ground (arith, free, first.owned (x / page_size), first.aligned))
      ]

  pub dealloc-registered :
      (k : Heap S) (l : Layout) (ptr : ℕ) → IsReady k → (dealloc k ptr l).provider ≡ some p
  unfolding dealloc
  dealloc-registered k l ptr r = elim (Bool-cases (l.size == 0)) [
    | inl nothing ↦ rw nothing r.registered
    | inr sized ↦ simp (sized, r.registered) refl
  ]

  pub dealloc-frames :
      (k : Heap S) (l : Layout) (ptr : ℕ)
      → IsReady k
      → 0 < l.size
      → (dealloc k ptr l).frames
        ≡ p.deallocate_contiguous k.frames (ptr / page_size) (div_ceil l.size page_size)
  unfolding dealloc
  dealloc-frames k l ptr r pos =
      let nz : (l.size == 0) ≡ false = ground arith in simp (nz, r.registered) refl

  -- On a heap that is ready, giving a block back, where its first frame can be given back, leaves every frame as it was
  -- before the allocation.
  dealloc-alloc :
      (h k : Heap S) (l : Layout) (ptr q : ℕ)
      → IsReady h
      → alloc h l ≡ (ptr, k)
      → ptr ≢ 0
      → w.floor h.frames < ptr / page_size
      → w.used (dealloc k ptr l).frames q ≡ w.used h.frames q
  dealloc-alloc h k l ptr q r e live past =
      let b = alloc-Block h k l ptr r e live in
      let n = div_ceil l.size page_size in
      let back =
        w.deallocate_used k.frames (ptr / page_size) n q b.ready.good (omega (arith, b.floor_kept))
          (omega (arith, b.inside, b.limit_kept)) in
      rw (dealloc-frames k l ptr b.ready b.sized)
        (elim (Bool-cases (leb (ptr / page_size) q && ltb q (ptr / page_size + n))) [
          | inl inside ↦
              let first_byte : q * page_size / page_size ≡ q = omega arith in
              let was_free : w.used h.frames q ≡ false =
                subst (λ x. w.used h.frames x ≡ false) first_byte
                  (b.fresh (q * page_size) (ground (arith, b.aligned))
                    (ground (arith, b.aligned))) in
              ground (arith, was_free, back)
          | inr outside ↦ ground (arith, b.owned q, back)
        ])
