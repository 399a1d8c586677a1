-- ===== src/Syscall/Memory/Calls.antt =====
-- Every way in which the calls of arch/src/x86_64/syscall/memory.rs return, and what they do to the
-- processes' heap ranges.
use proka_kernel.Base.{
  Bool-cases, Option-cases, [], add_word, ap, arith, div_ceil, false, inl, inr, mul_word, none,
  refl, set, some, some_inj, sub_word, subst, sym, true, ℕ, ◌++◌, ◌<◌, ◌==◌, ◌∷◌, ◌≡◌, ◌⊎◌,
}
use proka_kernel.ArchFrames.{PhysFrames}
use proka_kernel.Process.{Kernel, NormalProcess, Range}
use proka_kernel.Syscall.{negsuc, pos, ℤ}
use proka_kernel.Syscall.Memory.{
  Mapped, Mapper, Memory, allocate, as_i64, deallocate, failed, find_process, find_range, heap_top,
  map_pages, mapped, memory, page_bytes, panicked, remove_at, unmap_range,
}
use proka_kernel.Syscall.Memory.Ranges.{
  InOrder-append, InOrder-remove_at, IsHeaps, IsHeaps-set, find_process-some, heap_top-above,
}
use proka_kernel.Syscall.Memory.Mapping.{
  AreCanonical, can_map, map_pages-AreCanonical, map_pages-can_map, map_pages-kernel,
  unmap_range-kernel,
}

-- A process with one more range of pages at its heap top.
abbrev pub grown : ℕ → NormalProcess → NormalProcess
grown size p = record p {
  heap_range =
      p.heap_range
      ++ record {
        start = heap_top p;
        end = add_word (heap_top p) (mul_word page_bytes (div_ceil size page_bytes));
      }
        ∷ [];
}

abbrev pub shrunk : ℕ → NormalProcess → NormalProcess
shrunk idx p = record p { heap_range = remove_at p.heap_range idx }

abbrev pub with_process : Kernel → ℕ → NormalProcess → Kernel
with_process k i p = record k { normals = set k.normals i p }

module _ {S : Type 0} (x : PhysFrames) (m : Mapper x S) where
  -- How `allocate` returns.
  pub data Allocates (table size : ℕ) (s : Memory x m) : ℤ × Memory x m → Type 0 where
    zero_size : size ≡ 0 → Allocates table size s (negsuc 15, s)
    no_process :
        0 < size
        → find_process s.kernel.normals table ≡ none
        → Allocates table size s (negsuc 16, s)
    no_memory :
        (i : ℕ) (p : NormalProcess) (after : Memory x m)
        → 0 < size
        → find_process s.kernel.normals table ≡ some (i, p)
        → can_map x m table (heap_top p) 0 (div_ceil size page_bytes) s ≡ false
        → after.kernel ≡ s.kernel
        → Allocates table size s (negsuc 17, after)
    granted :
        (i : ℕ) (p : NormalProcess) (after : Memory x m)
        → 0 < size
        → find_process s.kernel.normals table ≡ some (i, p)
        → after.kernel ≡ with_process s.kernel i (grown size p)
        → AreCanonical (heap_top p) 0 (div_ceil size page_bytes)
        → can_map x m table (heap_top p) 0 (div_ceil size page_bytes) s ≡ true
        → Allocates table size s (as_i64 (heap_top p), after)

  Mapped-cases :
      (r : Mapped x m)
      → ((after : Memory x m) × (r ≡ mapped after))
        ⊎ (((after : Memory x m) × (r ≡ failed after)) ⊎ (r ≡ panicked))
  Mapped-cases (mapped after) = inl (after, refl)
  Mapped-cases (failed after) = inr (inl (after, refl))
  Mapped-cases panicked = inr (inr refl)

  -- A call of `allocate` that does not panic returns -16 for no bytes, else -17 for an unknown page
  -- table, both with everything as it was, else -18, with the processes as they were, when there
  -- is no memory to map as many pages as the size needs; and when there is, it returns the heap
  -- top, from which the process now has one more range of that many pages.
  pub allocate-Allocates :
      (table size : ℕ) (s : Memory x m) (r : ℤ × Memory x m)
      → allocate x m table size s ≡ some r
      → Allocates table size s r
  unfolding allocate
  allocate-Allocates table size s r h = elim (Bool-cases (size == 0)) [
    | inl z ↦
        subst (Allocates table size s) (some_inj (rw (z, allocate) at h)) (zero_size (ground arith))
    | inr z ↦
        let some_bytes : 0 < size = ground arith in
        elim (Option-cases (find_process s.kernel.normals table)) [
          | inl e ↦
              subst (Allocates table size s) (some_inj (rw (z, e, allocate) at h))
                (no_process some_bytes e)
          | inr ((i, p), e) ↦
              let run = map_pages x m table (heap_top p) 0 (div_ceil size page_bytes) [] s in
              let tells =
                map_pages-can_map x m table (heap_top p) 0 (div_ceil size page_bytes) [] s in
              let kept =
                map_pages-kernel x m table (heap_top p) 0 (div_ceil size page_bytes) [] s in
              elim (Mapped-cases run) [
                | inl (after, f) ↦
                    let same : after.kernel ≡ s.kernel = rw f at kept in
                    subst (Allocates table size s) (some_inj (rw (z, e, f, allocate) at h)) (
                      granted i p _ some_bytes e
                        (ap (λ (k : Kernel). with_process k i (grown size p)) same)
                        (map_pages-AreCanonical x m table (heap_top p) 0 (div_ceil size page_bytes)
                          [] s after f)
                        (rw f at tells))
                | inr (inl (after, f)) ↦
                    subst (Allocates table size s) (some_inj (rw (z, e, f, allocate) at h))
                      (no_memory i p after some_bytes e (rw f at tells) (rw f at kept))
                | inr (inr f) ↦ cc (rw (z, e, f, allocate) at h)
              ]
        ]
  ]

  -- How `deallocate` returns.
  pub data Frees (table a : ℕ) (s : Memory x m) : ℤ × Memory x m → Type 0 where
    unknown_process : find_process s.kernel.normals table ≡ none → Frees table a s (negsuc 15, s)
    unknown_range :
        (i : ℕ) (p : NormalProcess)
        → find_process s.kernel.normals table ≡ some (i, p)
        → find_range p.heap_range a ≡ none
        → Frees table a s (negsuc 16, s)
    freed :
        (i idx : ℕ) (p : NormalProcess) (range : Range) (after : Memory x m)
        → find_process s.kernel.normals table ≡ some (i, p)
        → find_range p.heap_range a ≡ some (idx, range)
        → after.kernel ≡ with_process s.kernel i (shrunk idx p)
        → Frees table a s (pos 0, after)

  -- A call of `deallocate` that does not panic returns -16 for an unknown page table and -17 for an
  -- address in no range, with everything as it was; or it returns 0, and the first range that holds
  -- the address is gone.
  pub deallocate-Frees :
      (table a : ℕ) (s : Memory x m) (r : ℤ × Memory x m)
      → deallocate x m table a s ≡ some r
      → Frees table a s r
  unfolding deallocate
  deallocate-Frees table a s r h = elim (Option-cases (find_process s.kernel.normals table)) [
    | inl e ↦ subst (Frees table a s) (some_inj (rw (e, deallocate) at h)) (unknown_process e)
    | inr ((i, p), e) ↦ elim (Option-cases (find_range p.heap_range a)) [
      | inl f ↦
          subst (Frees table a s) (some_inj (rw (e, f, deallocate) at h)) (unknown_range i p e f)
      | inr ((idx, range), f) ↦
          let pages = div_ceil (sub_word range.end range.start) page_bytes in
          elim (Option-cases (unmap_range x m table range.start 0 pages s)) [
            | inl g ↦ cc (rw (e, f, g, deallocate) at h)
            | inr (after, g) ↦
                let same = unmap_range-kernel x m table range.start 0 pages s after g in
                subst (Frees table a s) (some_inj (rw (e, f, g, deallocate) at h)) (
                  freed i idx p range _ e f
                    (ap (λ (k : Kernel). with_process k i (shrunk idx p)) same))
          ]
    ]
  ]

  IsHeaps-allocate :
      (table size : ℕ) (s : Memory x m) {r : ℤ × Memory x m}
      → Allocates table size s r
      → IsHeaps s.kernel.normals
      → IsHeaps r.1.kernel.normals
  IsHeaps-allocate table size s (zero_size z) v = v
  IsHeaps-allocate table size s (no_process z e) v = v
  IsHeaps-allocate table size s (no_memory i p after z found short e) v =
      subst (λ (k : Kernel). IsHeaps k.normals) (sym e) v
  IsHeaps-allocate table size s (granted i p after z e f c enough) v =
      let there = find_process-some s.kernel.normals table i p e in
      subst (λ (k : Kernel). IsHeaps k.normals) (sym f)
        (IsHeaps-set s.kernel.normals i (grown size p) v
          (InOrder-append p.heap_range _ (v i p there) (heap_top-above p)))

  IsHeaps-deallocate :
      (table a : ℕ) (s : Memory x m) {r : ℤ × Memory x m}
      → Frees table a s r
      → IsHeaps s.kernel.normals
      → IsHeaps r.1.kernel.normals
  IsHeaps-deallocate table a s (unknown_process e) v = v
  IsHeaps-deallocate table a s (unknown_range i p e f) v = v
  IsHeaps-deallocate table a s (freed i idx p range after e f g) v =
      let there = find_process-some s.kernel.normals table i p e in
      subst (λ (k : Kernel). IsHeaps k.normals) (sym g)
        (IsHeaps-set s.kernel.normals i (shrunk idx p) v
          (InOrder-remove_at p.heap_range idx (v i p there)))

  -- Whatever the request, a system call on heap memory that returns leaves the heap ranges of every
  -- process in order and so disjoint, if they were before.
  pub memory-IsHeaps :
      (table typ size a : ℕ) (s : Memory x m) (r : ℤ × Memory x m)
      → IsHeaps s.kernel.normals
      → memory x m table typ size a s ≡ some r
      → IsHeaps r.1.kernel.normals
  unfolding memory
  memory-IsHeaps table typ size a s r v h = elim (Bool-cases (typ == 0)) [
    | inl z ↦
        IsHeaps-allocate table size s (allocate-Allocates table size s r (rw (z, memory) at h)) v
    | inr z ↦ elim (Bool-cases (typ == 1)) [
      | inl o ↦
          IsHeaps-deallocate table a s (deallocate-Frees table a s r (rw (z, o, memory) at h)) v
      | inr o ↦
          subst (λ (q : ℤ × Memory x m). IsHeaps q.1.kernel.normals)
            (some_inj (rw (z, o, memory) at h)) v
    ]
  ]
