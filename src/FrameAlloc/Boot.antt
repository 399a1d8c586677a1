-- ===== src/FrameAlloc/Boot.antt =====
-- `FrameAlloc::init` of core/src/memory/framealloc.rs: which frames it leaves free.
use proka_kernel.Base.{
  All, Bool, Bool-cases, List, Option-cases, [], add_word, arith, dec_lt, div_ceil, false,
  if◌then◌else◌, inl, inr, length, length-replicate, ltb, none, not, refl, some, some_inj, subst,
  true, word, zero, ℕ, ◌*◌, ◌+◌, ◌<◌, ◌^◌, ◌||◌, ◌↔◌, ◌∙◌, ◌∷◌, ◌≡◌, ◌≤◌,
}
use proka_kernel.FrameAlloc.{
  FrameAlloc, MemoryDesc, allocate_contiguous, free_ends, get_bit, init, mark_unavailable, max_of,
  page_size,
}
use proka_kernel.FrameAlloc.Marks.{SameShape, get_bit_out}
use proka_kernel.FrameAlloc.Scan.{IsValid}
use proka_kernel.FrameAlloc.Allocation.{allocate_contiguous-Takes, with_pos-bit}
use proka_kernel.FrameAlloc.BootMarks.{
  IsWord, blank, blank-IsValid, blank-bit, free_ends-lt, get_bit-hold, get_bit-mark_unavailable,
  hold, hold-IsValid, hold-SameShape, mark_unavailable-IsValid, mark_unavailable-SameShape,
  max_of-lt, unavailable,
}

module _ {T : Type 0} (is_free : T → Bool) where
  -- The frames that are not to be handed out after boot: those that the memory map's entries
  -- cover, the reserved ones, those of the bitmap itself, and those past the bitmap.
  abbrev pub held_at_boot : List (MemoryDesc T) → FrameAlloc → ℕ → Bool
  held_at_boot ds a q =
      unavailable is_free ds q
      || (ltb q (a.reserved + a.self_used_page) || not (ltb q (8 * div_ceil a.max_page 8)))

  pub record Booted (ds : List (MemoryDesc T)) (r : ℕ) (a : FrameAlloc) : Type 0 where
    pub valid : IsValid a
    pub reserved_set : a.reserved ≡ r
    pub self_used_set : a.self_used_page ≡ div_ceil (div_ceil a.max_page 8) page_size
    pub pos_set : a.pos ≡ a.reserved + a.self_used_page
    pub bits : (q : ℕ) → get_bit a q ≡ (if held_at_boot ds a q then 1 else 0)

  abbrev booted : List (MemoryDesc T) → ℕ → ℕ → FrameAlloc
  booted ds top r =
      let self_used = div_ceil (div_ceil (div_ceil top page_size) 8) page_size in
      record (hold (mark_unavailable is_free (blank top r) ds) r self_used) {
        pos = add_word r self_used;
      }

  booted-bits :
      (ds : List (MemoryDesc T)) (top r q : ℕ)
      → All (IsWord is_free) ds
      → top < word
      → r < 2 ^ 52
      → get_bit (booted ds top r) q ≡ (if held_at_boot ds (booted ds top r) q then 1 else 0)
  booted-bits ds top r q w ht hr =
      let s = div_ceil (div_ceil (div_ceil top page_size) 8) page_size in
      let z = blank top r in
      let v = blank-IsValid top r ht (omega arith) in
      let m = mark_unavailable is_free z ds in
      let shape = mark_unavailable-SameShape is_free z ds in
      let held = hold-SameShape m r s in
      with_pos-bit (hold m r s) (add_word r s) q ∙ elim (dec_lt q (8 * length z.bitmap)) [
        | yes inside ↦ ground (
          arith,
          get_bit-hold m r s q (mark_unavailable-IsValid is_free z ds v) (omega arith),
          get_bit-mark_unavailable is_free z ds q v w,
          blank-bit top r q,
          length-replicate (div_ceil (div_ceil top page_size) 8) zero,
          shape,
          held,
        )
        | no outside ↦ ground (
          arith,
          get_bit_out (hold m r s) q,
          length-replicate (div_ceil (div_ceil top page_size) 8) zero,
          shape,
          held,
        )
      ]

  booted-Booted :
      (ds : List (MemoryDesc T)) (top r : ℕ)
      → All (IsWord is_free) ds
      → top < word
      → r < 2 ^ 52
      → Booted ds r (booted ds top r)
  booted-Booted ds top r w ht hr = record {
    valid = record {
      bytes = h.bytes;
      sized = h.sized;
      small = h.small;
      reserved_fits = h.reserved_fits;
      pos_fits = omega arith;
    };
    reserved_set = omega (arith, shape, held);
    self_used_set = ground (arith, shape, held);
    pos_set = omega (arith, shape, held);
    bits = λ q. booted-bits ds top r q w ht hr;
  }
    where
      s : ℕ
      s = div_ceil (div_ceil (div_ceil top page_size) 8) page_size

      m : FrameAlloc
      m = mark_unavailable is_free (blank top r) ds

      h : IsValid (hold m r s)
      h =
          hold-IsValid m r s (
            mark_unavailable-IsValid is_free (blank top r) ds
              (blank-IsValid top r ht (omega arith)))

      shape : SameShape (blank top r) m
      shape = mark_unavailable-SameShape is_free (blank top r) ds

      held : SameShape m (hold m r s)
      held = hold-SameShape m r s

  -- After `init`, whose map has 64-bit fields, with fewer than 2 ^ 52 reserved frames, the allocator is
  -- valid, its search starts behind the bitmap, and a frame is marked as used exactly if an entry that is not free memory covers
  -- it, it is reserved, it holds the bitmap, or it lies past the bitmap.
  pub init-Booted :
      (ds : List (MemoryDesc T)) (r : ℕ) (a : FrameAlloc)
      → All (IsWord is_free) ds
      → r < 2 ^ 52
      → init is_free ds r ≡ some a
      → Booted ds r a
  unfolding init
  init-Booted ds r a w hr h = elim (Option-cases (max_of (free_ends is_free ds))) [
    | inl e ↦ cc (rw (e, init) at h)
    | inr (top, e) ↦
        subst (Booted ds r) (some_inj (rw (e, init) at h))
          (booted-Booted ds top r w (max_of-lt word _ (free_ends-lt is_free ds) e) hr)
  ]

  pub init-some :
      (ds : List (MemoryDesc T)) (r top : ℕ)
      → max_of (free_ends is_free ds) ≡ some top
      → (a : FrameAlloc) × (init is_free ds r ≡ some a) × (a.max_page ≡ div_ceil top page_size)
  unfolding init
  init-some ds r top e =
      let s = div_ceil (div_ceil (div_ceil top page_size) 8) page_size in
      let m = mark_unavailable is_free (blank top r) ds in
      let shape = mark_unavailable-SameShape is_free (blank top r) ds in
      let held = hold-SameShape m r s in
      (booted ds top r, rw (e, init) refl, omega (arith, shape, held))

  -- A frame that is held at boot is never handed out by the first allocation after `init`.
  init-allocate_safe :
      (ds : List (MemoryDesc T)) (r n s q : ℕ) (a b : FrameAlloc)
      → All (IsWord is_free) ds
      → r < 2 ^ 52
      → init is_free ds r ≡ some a
      → allocate_contiguous a n ≡ some (s, b)
      → s ≤ q
      → q < s + n
      → held_at_boot ds a q ≡ false
  init-allocate_safe ds r n s q a b w hr h k lo hi =
      let z = init-Booted ds r a w hr h in
      ground (arith, z.bits q, (allocate_contiguous-Takes a n s b z.valid k).was_free q lo hi)

  max_of-some : (x : ℕ) (xs : List ℕ) → (m : ℕ) × (max_of (x ∷ xs) ≡ some m)
  unfolding max_of
  max_of-some x xs = elim (Option-cases (max_of xs)) [
    | inl e ↦ (x, rw (e, max_of) refl)
    | inr (m, e) ↦ ((if ltb x m then m else x), rw (e, max_of) refl)
  ]

  pub any_free : List (MemoryDesc T) → Bool
  any_free [] = false
  any_free (d ∷ ds) = is_free d.mem_type || any_free ds

  max_of-free_ends :
      (ds : List (MemoryDesc T))
      → any_free ds ≡ true
      → (m : ℕ) × (max_of (free_ends is_free ds) ≡ some m)
  unfolding any_free free_ends
  max_of-free_ends [] h = cc
  max_of-free_ends (d ∷ ds) h = elim (Bool-cases (is_free d.mem_type)) [
    | inl e ↦ rw e (max_of-some (add_word d.base_addr d.length) (free_ends is_free ds))
    | inr e ↦ rw e (max_of-free_ends ds (rw e at h))
  ]

  free_ends-nil : (ds : List (MemoryDesc T)) → any_free ds ≡ false → free_ends is_free ds ≡ []
  unfolding any_free free_ends
  free_ends-nil [] h = refl
  free_ends-nil (d ∷ ds) h = elim (Bool-cases (is_free d.mem_type)) [
    | inl e ↦ cc (rw e at h)
    | inr e ↦ rw e (free_ends-nil ds (rw e at h))
  ]

  -- `init` panics exactly on a map with no free memory.
  init-none_iff :
      (ds : List (MemoryDesc T)) (r : ℕ) → (init is_free ds r ≡ none) ↔ (any_free ds ≡ false)
  unfolding init max_of
  init-none_iff ds r = elim (Bool-cases (any_free ds)) [
    | inl e ↦ let (m, f) = max_of-free_ends ds e in ((λ h. cc (rw (f, init) at h)), (λ h. cc))
    | inr e ↦ ((λ _. e), (λ _. rw (free_ends-nil ds e, init) refl))
  ]
