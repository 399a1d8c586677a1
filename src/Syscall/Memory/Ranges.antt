-- ===== src/Syscall/Memory/Ranges.antt =====
-- The heap ranges of the processes under system call 2 (arch/src/x86_64/syscall/memory.rs).
use proka_kernel.Base.{
  All, Bool-cases, List, Option-cases, [], arith, get_elem?, get_elem?-length, get_elem?-set_ne,
  get_elem?-set_self, inl, inr, length, length-set, none, refl, set, some, some_inj, subst, suc,
  sym, unwrap_or, zero, ℕ, ℕ_discrete, ◌++◌, ◌<◌, ◌==◌, ◌∙◌, ◌∷◌, ◌≡◌, ◌≤◌,
}
use proka_kernel.FrameAlloc.{max_of}
use proka_kernel.Process.{NormalProcess, Range}
use proka_kernel.Syscall.Memory.{find_process, heap_top, range_ends, remove_at}

-- Each range ends before the later ones start.
abbrev pub InOrder : List Range → Type 0
InOrder [] = Unit {0}
InOrder (r ∷ rs) = All (λ (q : Range). r.end ≤ q.start) rs × InOrder rs

-- The heap ranges of every process are in order, so that no two of them share an address.
abbrev pub IsHeaps : List NormalProcess → Type 0
IsHeaps ps = (i : ℕ) (p : NormalProcess) → get_elem? ps i ≡ some p → InOrder p.heap_range

max_of-empty : (xs : List ℕ) → max_of xs ≡ none → xs ≡ []
unfolding max_of
max_of-empty [] h = refl
max_of-empty (y ∷ ys) h = elim (Option-cases (max_of ys)) [
  | inl e ↦ cc (rw (e, max_of) at h)
  | inr (u, e) ↦ cc (rw (e, max_of) at h)
]

All-weaken : (xs : List ℕ) {u top : ℕ} → All (λ y. y ≤ u) xs → u ≤ top → All (λ y. y ≤ top) xs
All-weaken [] h le = tt
All-weaken (x ∷ xs) h le = (omega (arith, h.0), All-weaken xs h.1 le)

max_of-le : (xs : List ℕ) {top : ℕ} → max_of xs ≡ some top → All (λ y. y ≤ top) xs
unfolding max_of
max_of-le [] h = tt
max_of-le (y ∷ ys) {top} h = elim (Option-cases (max_of ys)) [
  | inl e ↦
      (ground (arith, rw (e, max_of) at h), subst (All (λ y. y ≤ top)) (sym (max_of-empty ys e)) tt)
  | inr (u, e) ↦ (
    ground (arith, rw (e, max_of) at h),
    All-weaken ys (max_of-le ys e) (ground (arith, rw (e, max_of) at h)),
  )
]

ends_below :
    (rs : List Range) (top : ℕ)
    → All (λ y. y ≤ top) (range_ends rs)
    → All (λ (r : Range). r.end ≤ top) rs
ends_below [] top h = tt
ends_below (r ∷ rs) top h = (h.0, ends_below rs top h.1)

All-append {ℓ κ} :
    {A : Type ℓ} (P : A → Type κ) (xs : List A) (y : A) → All P xs → P y → All P (xs ++ y ∷ [])
All-append P [] y h new = (new, tt)
All-append P (x ∷ xs) y h new = (h.0, All-append P xs y h.1 new)

pub InOrder-append :
    (rs : List Range) (new : Range)
    → InOrder rs
    → All (λ (r : Range). r.end ≤ new.start) rs
    → InOrder (rs ++ new ∷ [])
InOrder-append [] new h below = (tt, tt)
InOrder-append (r ∷ rs) new h below = (
  All-append (λ (q : Range). r.end ≤ q.start) rs new h.0 below.0,
  InOrder-append rs new h.1 below.1,
)

All-remove_at : (P : Range → Type 0) (rs : List Range) (i : ℕ) → All P rs → All P (remove_at rs i)
unfolding remove_at
All-remove_at P [] i h = tt
All-remove_at P (r ∷ rs) zero h = h.1
All-remove_at P (r ∷ rs) (suc i) h = (h.0, All-remove_at P rs i h.1)

pub InOrder-remove_at : (rs : List Range) (i : ℕ) → InOrder rs → InOrder (remove_at rs i)
unfolding remove_at
InOrder-remove_at [] i h = tt
InOrder-remove_at (r ∷ rs) zero h = h.1
InOrder-remove_at (r ∷ rs) (suc i) h =
    (All-remove_at (λ (q : Range). r.end ≤ q.start) rs i h.0, InOrder-remove_at rs i h.1)

-- Every range of a process ends at its heap top or below.
pub heap_top-above : (p : NormalProcess) → All (λ (r : Range). r.end ≤ heap_top p) p.heap_range
unfolding heap_top
heap_top-above p = ends_below p.heap_range (heap_top p) (go (range_ends p.heap_range))
  where
    go : (ends : List ℕ) → All (λ y. y ≤ unwrap_or (max_of ends) 0x180000000) ends
    go ends = elim (Option-cases (max_of ends)) [
      | inl e ↦
          subst (λ (xs : List ℕ). All (λ y. y ≤ unwrap_or (max_of xs) 0x180000000) xs)
            (sym (max_of-empty ends e)) tt
      | inr (u, e) ↦ rw e (max_of-le ends e)
    ]

pub find_process-some :
    (ps : List NormalProcess) (table i : ℕ) (p : NormalProcess)
    → find_process ps table ≡ some (i, p)
    → get_elem? ps i ≡ some p
unfolding find_process
find_process-some [] table i p h = cc
find_process-some (q ∷ ps) table i p h = elim (Bool-cases (q.table_addr == table)) [
  | inl e ↦
      subst (λ (z : ℕ × NormalProcess). get_elem? (q ∷ ps) z.0 ≡ some z.1) (some_inj (rw e at h))
        refl
  | inr e ↦ elim (Option-cases (find_process ps table)) [
    | inl f ↦ cc (rw (e, f, find_process) at h)
    | inr ((j, r), f) ↦
        subst (λ (z : ℕ × NormalProcess). get_elem? (q ∷ ps) z.0 ≡ some z.1)
          (some_inj (rw (e, f, find_process) at h)) (find_process-some ps table j r f)
  ]
]

pub IsHeaps-set :
    (ps : List NormalProcess) (i : ℕ) (p : NormalProcess)
    → IsHeaps ps
    → InOrder p.heap_range
    → IsHeaps (set ps i p)
IsHeaps-set ps i p h new j q there = elim (ℕ_discrete i j) [
  | yes e ↦
      let same : get_elem? (set ps i p) i ≡ some q =
        subst (λ k. get_elem? (set ps i p) k ≡ some q) (sym e) there in
      let inside : i < length ps =
        omega (arith, get_elem?-length (set ps i p) i same, length-set ps i p) in
      subst (λ (r : NormalProcess). InOrder r.heap_range)
        (some_inj (sym (get_elem?-set_self ps i p inside) ∙ same)) new
  | no d ↦ h j q (sym (get_elem?-set_ne ps p d) ∙ there)
]
