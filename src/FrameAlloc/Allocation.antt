-- ===== src/FrameAlloc/Allocation.antt =====
-- What a caller of `allocate_contiguous` and `deallocate_contiguous` may rely on
-- (core/src/memory/framealloc.rs).
use proka_kernel.Base.{
  Option-cases, add_word, ap, arith, if◌then◌else◌, inl, inr, none, refl, some, some_inj, subst,
  sym, word, ℕ, ◌+◌, ◌<◌, ◌∙◌, ◌≡◌, ◌≤◌, ◌⊎◌,
}
use proka_kernel.FrameAlloc.{FrameAlloc, allocate_contiguous, find_run, get_bit, scan, set_run}
use proka_kernel.FrameAlloc.Marks.{
  SameShape, get_bit-set_run, in_run, set_run-IsBytes, set_run-SameShape,
}
use proka_kernel.FrameAlloc.Scan.{IsFree, IsValid, scan-IsFree, scan-first, scan-none}

pub set_run-IsValid :
    (a : FrameAlloc) (start n v : ℕ) → v < 2 → IsValid a → IsValid (set_run a start 0 n v)
set_run-IsValid a start n v hv h =
    let kept = set_run-SameShape a start 0 n v in
    record {
      bytes = set_run-IsBytes a start 0 n v hv h.bytes;
      sized = rw (kept.length_kept, kept.max_page_kept) h.sized;
      small = rw kept.max_page_kept h.small;
      reserved_fits = rw kept.reserved_kept h.reserved_fits;
      pos_fits = rw kept.pos_kept h.pos_fits;
    }

-- The marking loop over a run inside the memory.
get_bit-mark :
    (a : FrameAlloc) (s n q : ℕ)
    → IsValid a
    → s + n ≤ a.max_page
    → get_bit (set_run a s 0 n 1) q ≡ (if in_run s n q then 1 else get_bit a q)
get_bit-mark a s n q v inside =
    ground (arith, get_bit-set_run a s 0 n 1 q (omega arith) v.bytes (omega (arith, v)), v)

find_run-IsFree :
    (a : FrameAlloc) (n s : ℕ)
    → IsValid a
    → find_run a n ≡ some s
    → (s + n ≤ a.max_page) × IsFree a s n
unfolding find_run
find_run-IsFree a n s v h = elim (Option-cases (scan (a.max_page + 2) a n a.pos)) [
  | inl e ↦ scan-IsFree (a.max_page + 2) a n a.reserved s v v.reserved_fits (rw (e, find_run) at h)
  | inr (t, e) ↦ scan-IsFree (a.max_page + 2) a n a.pos s v v.pos_fits (e ∙ (rw (e, find_run) at h))
]

pub record Takes (a : FrameAlloc) (n s : ℕ) (b : FrameAlloc) : Type 0 where
  pub inside : s + n ≤ a.max_page
  pub was_free : IsFree a s n
  pub marked : (q : ℕ) → get_bit b q ≡ (if in_run s n q then 1 else get_bit a q)
  pub valid : IsValid b
  pub max_page_kept : b.max_page ≡ a.max_page
  pub reserved_kept : b.reserved ≡ a.reserved
  pub self_used_kept : b.self_used_page ≡ a.self_used_page

pub with_pos-bit : (a : FrameAlloc) (p q : ℕ) → get_bit (record a { pos = p }) q ≡ get_bit a q
unfolding get_bit
with_pos-bit a p q = refl

-- The allocator after a run has been marked.
abbrev taken : FrameAlloc → ℕ → ℕ → FrameAlloc
taken a n t = record (set_run a t 0 n 1) { pos = add_word (set_run a t 0 n 1).pos n }

taken-Takes :
    (a : FrameAlloc) (n t : ℕ) → IsValid a → find_run a n ≡ some t → Takes a n t (taken a n t)
taken-Takes a n t v e = record {
  inside = found.0;
  was_free = found.1;
  marked = λ q. with_pos-bit c (add_word c.pos n) q ∙ get_bit-mark a t n q v found.0;
  valid = record {
    bytes = w.bytes;
    sized = w.sized;
    small = w.small;
    reserved_fits = w.reserved_fits;
    pos_fits = omega arith;
  };
  max_page_kept = kept.max_page_kept;
  reserved_kept = kept.reserved_kept;
  self_used_kept = kept.self_used_kept;
}
  where
    c : FrameAlloc
    c = set_run a t 0 n 1

    found : (t + n ≤ a.max_page) × IsFree a t n
    found = find_run-IsFree a n t v e

    kept : SameShape a c
    kept = set_run-SameShape a t 0 n 1

    w : IsValid c
    w = set_run-IsValid a t n 1 (omega arith) v

allocate_contiguous-cases :
    (a : FrameAlloc) (n : ℕ)
    → ((find_run a n ≡ none) × (allocate_contiguous a n ≡ none))
      ⊎ ((t : ℕ) × (find_run a n ≡ some t) × (allocate_contiguous a n ≡ some (t, taken a n t)))
unfolding allocate_contiguous
allocate_contiguous-cases a n = elim (Option-cases (find_run a n)) [
  | inl e ↦ inl (e, rw (e, allocate_contiguous) refl)
  | inr (t, e) ↦ inr (t, e, rw (e, allocate_contiguous) refl)
]

-- A successful allocation returns `n` frames inside the memory that were all free, marks exactly
-- those as used, and leaves a valid allocator with the same reserved area.
pub allocate_contiguous-Takes :
    (a : FrameAlloc) (n s : ℕ) (b : FrameAlloc)
    → IsValid a
    → allocate_contiguous a n ≡ some (s, b)
    → Takes a n s b
allocate_contiguous-Takes a n s b v h = elim (allocate_contiguous-cases a n) [
  | inl (_, e) ↦ cc
  | inr (t, e, f) ↦
      subst (λ (r : ℕ × FrameAlloc). Takes a n r.0 r.1) (some_inj (sym f ∙ h))
        (taken-Takes a n t v e)
]

-- An allocation from a valid allocator that fails has found no free run of `n` frames anywhere above the reserved area.
pub allocate_contiguous-none :
    (a : FrameAlloc) (n t : ℕ)
    → IsValid a
    → allocate_contiguous a n ≡ none
    → a.reserved ≤ t
    → t + n ≤ a.max_page
    → ¬ IsFree a t n
unfolding find_run
allocate_contiguous-none a n t v h lo hi = elim (allocate_contiguous-cases a n) [
  | inr (s, e, f) ↦ cc
  | inl (e, f) ↦ elim (Option-cases (scan (a.max_page + 2) a n a.pos)) [
    | inr (s, g) ↦ cc (rw (g, find_run) at e)
    | inl g ↦
        scan-none (a.max_page + 2) a n a.reserved t v (omega (arith, v)) (omega arith)
          (rw (g, find_run) at e) lo hi
  ]
]

-- On a valid allocator, where the request added to the search position or to the reserved area does
-- not overflow, the run is the first free one from the search position on or, where there is none, the first
-- from the reserved area on.
allocate_contiguous-first :
    (a : FrameAlloc) (n s : ℕ) (b : FrameAlloc)
    → IsValid a
    → a.pos + n < word
    → a.reserved + n < word
    → allocate_contiguous a n ≡ some (s, b)
    → ((t : ℕ) → a.pos ≤ t → t < s → ¬ IsFree a t n)
      ⊎ (((t : ℕ) → a.pos ≤ t → t + n ≤ a.max_page → ¬ IsFree a t n)
          × ((t : ℕ) → a.reserved ≤ t → t < s → ¬ IsFree a t n))
unfolding find_run
allocate_contiguous-first a n s b v hp hr h = elim (allocate_contiguous-cases a n) [
  | inl (_, e) ↦ cc
  | inr (u, e, f) ↦
      let same : u ≡ s = ap (λ (r : ℕ × FrameAlloc). r.0) (some_inj (sym f ∙ h)) in
      elim (Option-cases (scan (a.max_page + 2) a n a.pos)) [
        | inr (r, g) ↦
            let first : r ≡ s = some_inj (rw (g, find_run) at e) ∙ same in
            inl (λ t lo hi. scan-first (a.max_page + 2) a n a.pos r t v hp g lo (omega arith))
        | inl g ↦
            let again : scan (a.max_page + 2) a n a.reserved ≡ some u = rw (g, find_run) at e in
            inr (
              λ t lo hi. scan-none (a.max_page + 2) a n a.pos t v hp (omega arith) g lo hi,
              λ t lo hi. scan-first (a.max_page + 2) a n a.reserved u t v hr again lo (omega arith),
            )
      ]
]
