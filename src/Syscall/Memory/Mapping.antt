-- ===== src/Syscall/Memory/Mapping.antt =====
-- The mapping and unmapping loops of arch/src/x86_64/syscall/memory.rs.
use proka_kernel.Base.{
  Bool, Bool-cases, List, Option-cases, [], add_word, ap, arith, false, inl, inr, mul_word, none,
  refl, some, some_inj, subst, suc, sym, true, zero, ℕ, ℕ_discrete, ◌&&◌, ◌++◌, ◌+◌, ◌<◌, ◌∙◌, ◌∷◌,
  ◌≡◌, ◌≤◌,
}
use proka_kernel.ArchFrames.{PhysFrames, allocate_frame}
use proka_kernel.Process.{Kernel}
use proka_kernel.Syscall.Memory.{
  Mapped, Mapper, Memory, failed, is_canonical, map_pages, mapped, page_bytes, page_of, panicked,
  unmap_all, unmap_page, unmap_range,
}

-- The addresses of `n` pages from the `i`-th on.
abbrev pub AreCanonical : ℕ → ℕ → ℕ → Type 0
AreCanonical top i n =
    (j : ℕ) → i ≤ j → j < i + n → is_canonical (add_word top (mul_word j page_bytes)) ≡ true

AreCanonical-suc :
    (top i n : ℕ)
    → is_canonical (add_word top (mul_word i page_bytes)) ≡ true
    → AreCanonical top (i + 1) n
    → AreCanonical top i (suc n)
AreCanonical-suc top i n first others j lo hi = elim (ℕ_discrete i j) [
  | yes e ↦ subst (λ k. is_canonical (add_word top (mul_word k page_bytes)) ≡ true) e first
  | no d ↦ others j (omega arith) (omega arith)
]

module _ {S : Type 0} (x : PhysFrames) (m : Mapper x S) where
  unmap_page-kernel :
      (table page : ℕ) (s : Memory x m) → (unmap_page x m table page s).kernel ≡ s.kernel
  unfolding unmap_page
  unmap_page-kernel table page s = elim (Option-cases (m.unmap s.tables table page)) [
    | inl e ↦ rw (e, unmap_page) refl
    | inr ((f, t), e) ↦ rw (e, unmap_page) refl
  ]

  unmap_all-kernel :
      (table : ℕ) (pages : List ℕ) (s : Memory x m)
      → (unmap_all x m table pages s).kernel ≡ s.kernel
  unfolding unmap_all
  unmap_all-kernel table [] s = refl
  unmap_all-kernel table (page ∷ pages) s =
      unmap_all-kernel table pages (unmap_page x m table page s) ∙ unmap_page-kernel table page s

  pub unmap_range-kernel :
      (table start i n : ℕ) (s t : Memory x m)
      → unmap_range x m table start i n s ≡ some t
      → t.kernel ≡ s.kernel
  unfolding unmap_range
  unmap_range-kernel table start i zero s t h = ap (λ (r : Memory x m). r.kernel) (sym (some_inj h))
  unmap_range-kernel table start i (suc n) s t h =
      let va = add_word start (mul_word i page_bytes) in
      elim (Bool-cases (is_canonical va)) [
        | inl e ↦
            unmap_range-kernel table start (i + 1) n (unmap_page x m table (page_of va) s) t
              (rw (e, unmap_range) at h)
            ∙ unmap_page-kernel table (page_of va) s
        | inr e ↦ cc (rw (e, unmap_range) at h)
      ]

  -- The kernel's tables are not touched by the loop, however it ends.
  abbrev pub Leaves : Mapped x m → Kernel → Type 0
  Leaves (mapped t) k = t.kernel ≡ k
  Leaves (failed t) k = t.kernel ≡ k
  Leaves panicked k = Unit {0}

  pub map_pages-kernel :
      (table top i n : ℕ) (done : List ℕ) (s : Memory x m)
      → Leaves (map_pages x m table top i n done s) s.kernel
  unfolding map_pages
  map_pages-kernel table top i zero done s = refl
  map_pages-kernel table top i (suc n) done s = elim (Option-cases (allocate_frame x s.frames)) [
    | inl e ↦ rw (e, map_pages) (unmap_all-kernel table done s)
    | inr ((phys, frames), e) ↦
        let virt = add_word top (mul_word i page_bytes) in
        let (fine, t, left) = m.map_to s.tables table (page_of virt) phys frames in
        elim (Bool-cases (is_canonical virt)) [
          | inr c ↦ rw (e, c, map_pages) tt
          | inl c ↦ elim (Bool-cases fine) [
            | inr f ↦
                rw (e, c, f, map_pages)
                  (unmap_all-kernel table done (record s { frames = left; tables = t }))
            | inl f ↦
                rw (e, c, f, map_pages)
                  (map_pages-kernel table top (i + 1) n (done ++ page_of virt ∷ [])
                    (record s { frames = left; tables = t }))
          ]
        ]
  ]

  -- Whether there is memory for `n` pages from the `i`-th on: a frame for each page, and whatever
  -- the mapper needs to map it.
  pub can_map : ℕ → ℕ → ℕ → ℕ → Memory x m → Bool
  can_map table top i zero s = true
  can_map table top i (suc n) s = elim (allocate_frame x s.frames) [
    | none ↦ false
    | some (phys, frames) ↦
        let virt = add_word top (mul_word i page_bytes) in
        let (fine, t, left) = m.map_to s.tables table (page_of virt) phys frames in
        fine && can_map table top (i + 1) n (record s { frames = left; tables = t })
  ]

  abbrev pub Tells : Mapped x m → Bool → Type 0
  Tells (mapped t) enough = enough ≡ true
  Tells (failed t) enough = enough ≡ false
  Tells panicked enough = Unit {0}

  -- The loop ends by the memory that there is, unless it panics.
  pub map_pages-can_map :
      (table top i n : ℕ) (done : List ℕ) (s : Memory x m)
      → Tells (map_pages x m table top i n done s) (can_map table top i n s)
  unfolding map_pages can_map
  map_pages-can_map table top i zero done s = refl
  map_pages-can_map table top i (suc n) done s = elim (Option-cases (allocate_frame x s.frames)) [
    | inl e ↦ rw (e, map_pages, can_map) refl
    | inr ((phys, frames), e) ↦
        let virt = add_word top (mul_word i page_bytes) in
        let (fine, t, left) = m.map_to s.tables table (page_of virt) phys frames in
        elim (Bool-cases (is_canonical virt)) [
          | inr c ↦ rw (e, c, map_pages) tt
          | inl c ↦ elim (Bool-cases fine) [
            | inr f ↦ rw (e, c, f, map_pages, can_map) refl
            | inl f ↦
                rw (e, c, f, map_pages, can_map)
                  (map_pages-can_map table top (i + 1) n (done ++ page_of virt ∷ [])
                    (record s { frames = left; tables = t }))
          ]
        ]
  ]

  -- Mapping succeeds only over canonical addresses.
  pub map_pages-AreCanonical :
      (table top i n : ℕ) (done : List ℕ) (s after : Memory x m)
      → map_pages x m table top i n done s ≡ mapped after
      → AreCanonical top i n
  unfolding map_pages
  map_pages-AreCanonical table top i zero done s after h = λ j lo hi. absurd (omega arith)
  map_pages-AreCanonical table top i (suc n) done s after h =
      elim (Option-cases (allocate_frame x s.frames)) [
        | inl e ↦ cc (rw (e, map_pages) at h)
        | inr ((phys, frames), e) ↦
            let virt = add_word top (mul_word i page_bytes) in
            let (fine, t, left) = m.map_to s.tables table (page_of virt) phys frames in
            elim (Bool-cases (is_canonical virt)) [
              | inr c ↦ cc (rw (e, c, map_pages) at h)
              | inl c ↦ elim (Bool-cases fine) [
                | inr f ↦ cc (rw (e, c, f, map_pages) at h)
                | inl f ↦
                    let others =
                      map_pages-AreCanonical table top (i + 1) n (done ++ page_of virt ∷ [])
                        (record s { frames = left; tables = t }) after
                        (rw (e, c, f, map_pages) at h) in
                    AreCanonical-suc top i n c others
              ]
            ]
      ]

  -- Unmapping does not panic over canonical addresses.
  pub unmap_range-some :
      (table top i n : ℕ) (s : Memory x m)
      → AreCanonical top i n
      → (after : Memory x m) × (unmap_range x m table top i n s ≡ some after)
  unfolding unmap_range
  unmap_range-some table top i zero s c = (s, refl)
  unmap_range-some table top i (suc n) s c =
      let va = add_word top (mul_word i page_bytes) in
      let (after, e) =
        unmap_range-some table top (i + 1) n (unmap_page x m table (page_of va) s)
          (λ j lo hi. c j (omega arith) (omega arith)) in
      (after, rw (c i (omega arith) (omega arith), unmap_range) e)
