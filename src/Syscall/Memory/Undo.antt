-- ===== src/Syscall/Memory/Undo.antt =====
-- `deallocate` against `allocate` in arch/src/x86_64/syscall/memory.rs.
use proka_kernel.Base.{
  All, Bool-cases, List, Option-cases, [], add_word, ap, arith, div_ceil, false, get_elem?, inl,
  inr, length, mul_word, refl, set, some, some_inj, sub_word, subst, suc, sym, true, word, zero, ℕ,
  ◌++◌, ◌+◌, ◌<◌, ◌==◌, ◌∙◌, ◌∷◌, ◌≡◌, ◌≤◌,
}
use proka_kernel.ArchFrames.{PhysFrames}
use proka_kernel.Process.{Kernel, NormalProcess, Range}
use proka_kernel.Syscall.{pos, ℤ}
use proka_kernel.Syscall.Memory.{
  Mapper, Memory, allocate, as_i64, contains, deallocate, find_process, find_range, heap_top,
  page_bytes, remove_at,
}
use proka_kernel.Syscall.Memory.Ranges.{find_process-some, heap_top-above}
use proka_kernel.Syscall.Memory.Mapping.{AreCanonical, unmap_range-kernel, unmap_range-some}
use proka_kernel.Syscall.Memory.Calls.{
  Allocates, allocate-Allocates, granted, grown, no_memory, no_process, shrunk, with_process,
  zero_size,
}

find_process-set :
    (ps : List NormalProcess) (table i : ℕ) (p q : NormalProcess)
    → find_process ps table ≡ some (i, p)
    → q.table_addr ≡ p.table_addr
    → find_process (set ps i q) table ≡ some (i, q)
unfolding find_process
find_process-set [] table i p q h same = cc
find_process-set (r ∷ ps) table i p q h same = elim (Bool-cases (r.table_addr == table)) [
  | inl e ↦
      let here : (0, r) ≡ (i, p) = some_inj (rw e at h) in
      let first : r ≡ p = ap (λ (z : ℕ × NormalProcess). z.1) here in
      let at_table : (q.table_addr == table) ≡ true =
        rw same (subst (λ (z : NormalProcess). (z.table_addr == table) ≡ true) first e) in
      subst (λ k. find_process (set (r ∷ ps) k q) table ≡ some (k, q))
        (ap (λ (z : ℕ × NormalProcess). z.0) here) (rw at_table refl)
  | inr e ↦ elim (Option-cases (find_process ps table)) [
    | inl f ↦ cc (rw (e, f, find_process) at h)
    | inr ((j, t), f) ↦
        let there : (suc j, t) ≡ (i, p) = some_inj (rw (e, f, find_process) at h) in
        let found : find_process ps table ≡ some (j, p) =
          f ∙ ap (λ (z : NormalProcess). some (j, z)) (ap (λ (z : ℕ × NormalProcess). z.1) there) in
        subst (λ k. find_process (set (r ∷ ps) k q) table ≡ some (k, q))
          (ap (λ (z : ℕ × NormalProcess). z.0) there)
          (rw (e, find_process-set ps table j p q found same, find_process) refl)
  ]
]

find_range-append :
    (rs : List Range) (new : Range) (a : ℕ)
    → All (λ (r : Range). r.end ≤ a) rs
    → contains new a ≡ true
    → find_range (rs ++ new ∷ []) a ≡ some (length rs, new)
unfolding find_range
find_range-append [] new a below inside = rw inside refl
find_range-append (r ∷ rs) new a below inside =
    let outside : contains r a ≡ false = ground (arith, below.0) in
    rw (outside, find_range-append rs new a below.1 inside, find_range) refl

remove_at-append : (rs : List Range) (new : Range) → remove_at (rs ++ new ∷ []) (length rs) ≡ rs
unfolding remove_at
remove_at-append [] new = refl
remove_at-append (r ∷ rs) new = rw (remove_at-append rs new)

set-set {ℓ} : {A : Type ℓ} (xs : List A) (i : ℕ) (v w : A) → set (set xs i v) i w ≡ set xs i w
set-set [] i v w = refl
set-set (x ∷ xs) zero v w = refl
set-set (x ∷ xs) (suc i) v w = rw (set-set xs i v w)

set_self {ℓ} :
    {A : Type ℓ} (xs : List A) (i : ℕ) (v : A) → get_elem? xs i ≡ some v → set xs i v ≡ xs
set_self [] i v h = refl
set_self (x ∷ xs) zero v h = ap (λ y. y ∷ xs) (sym (some_inj h))
set_self (x ∷ xs) (suc i) v h = rw (set_self xs i v h)

shrunk-grown : (size : ℕ) (p : NormalProcess) → shrunk (length p.heap_range) (grown size p) ≡ p
shrunk-grown size p =
    ap (λ (rs : List Range). record p { heap_range = rs }) (remove_at-append p.heap_range _)

as_i64-pos : (t a : ℕ) → as_i64 t ≡ pos a → t ≡ a
unfolding as_i64
as_i64-pos t a h = ground (arith, h)

with_process-undone :
    (k : Kernel) (i : ℕ) (p q : NormalProcess)
    → get_elem? k.normals i ≡ some p
    → with_process (with_process k i q) i p ≡ k
with_process-undone k i p q h =
    ap (λ (ps : List NormalProcess). record k { normals = ps })
      (set-set k.normals i q p ∙ set_self k.normals i p h)

module _ {S : Type 0} (x : PhysFrames) (m : Mapper x S) where
  undo_granted :
      (table size i : ℕ) (p : NormalProcess) (s after : Memory x m)
      → 0 < size
      → heap_top p + size + page_bytes < word
      → find_process s.kernel.normals table ≡ some (i, p)
      → after.kernel ≡ with_process s.kernel i (grown size p)
      → AreCanonical (heap_top p) 0 (div_ceil size page_bytes)
      → (u : Memory x m) × (deallocate x m table (heap_top p) after ≡ some (pos 0, u))
        × (u.kernel ≡ s.kernel)
  unfolding deallocate
  undo_granted table size i p s after some_bytes small found kern canon =
      let top = heap_top p in
      let pages = div_ceil size page_bytes in
      let new : Range = record { start = top; end = add_word top (mul_word page_bytes pages) } in
      let again : find_process after.kernel.normals table ≡ some (i, grown size p) =
        subst (λ (k : Kernel). find_process k.normals table ≡ some (i, grown size p)) (sym kern)
          (find_process-set s.kernel.normals table i p (grown size p) found refl) in
      let inside : contains new top ≡ true = ground arith in
      let located = find_range-append p.heap_range new top (heap_top-above p) inside in
      let same_pages : div_ceil (sub_word new.end new.start) page_bytes ≡ pages = omega arith in
      let (u, e) = unmap_range-some x m table top 0 pages after canon in
      let kept : u.kernel ≡ with_process s.kernel i (grown size p) =
        unmap_range-kernel x m table top 0 pages after u e ∙ kern in
      let there = find_process-some s.kernel.normals table i p found in
      (
        record u { kernel = with_process u.kernel i (shrunk (length p.heap_range) (grown size p)) },
        rw (again, located, same_pages, e, deallocate) refl,
        ap (λ (k : Kernel). with_process k i (shrunk (length p.heap_range) (grown size p))) kept
            ∙ ap (with_process (with_process s.kernel i (grown size p)) i) (shrunk-grown size p)
            ∙ with_process-undone s.kernel i p (grown size p) there,
      )

  undo_allocated :
      (table size a : ℕ) (s after : Memory x m) {r : ℤ × Memory x m}
      → a + size + page_bytes < word
      → Allocates x m table size s r
      → r ≡ (pos a, after)
      → (u : Memory x m) × (deallocate x m table a after ≡ some (pos 0, u)) × (u.kernel ≡ s.kernel)
  undo_allocated table size a s after small (zero_size z) e =
      cc (ap (λ (q : ℤ × Memory x m). q.0) e)
  undo_allocated table size a s after small (no_process z f) e =
      cc (ap (λ (q : ℤ × Memory x m). q.0) e)
  undo_allocated table size a s after small (no_memory i p t z found short f) e =
      cc (ap (λ (q : ℤ × Memory x m). q.0) e)
  undo_allocated table size a s after small (granted i p t z found kern canon enough) e =
      let at_top : heap_top p ≡ a =
        as_i64-pos (heap_top p) a (ap (λ (q : ℤ × Memory x m). q.0) e) in
      let same : t ≡ after = ap (λ (q : ℤ × Memory x m). q.1) e in
      subst
        (λ b.
          (u : Memory x m) × (deallocate x m table b after ≡ some (pos 0, u))
          × (u.kernel ≡ s.kernel))
        at_top
        (undo_granted table size i p s after z (omega arith) found
          (ap (λ (q : Memory x m). q.kernel) (sym same) ∙ kern) canon)

  -- Memory that `allocate` has returned, at an address that leaves room for it, can be given back:
  -- `deallocate` at that address does not panic, returns 0, and leaves the process tables as they
  -- were before the allocation.
  pub deallocate-allocate_heap :
      (table size a : ℕ) (s after : Memory x m)
      → a + size + page_bytes < word
      → allocate x m table size s ≡ some (pos a, after)
      → (u : Memory x m) × (deallocate x m table a after ≡ some (pos 0, u)) × (u.kernel ≡ s.kernel)
  deallocate-allocate_heap table size a s after small h =
      undo_allocated table size a s after small
        (allocate-Allocates x m table size s (pos a, after) h) refl
