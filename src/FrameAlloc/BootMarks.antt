-- ===== src/FrameAlloc/BootMarks.antt =====
-- The marking loops of `FrameAlloc::init` of core/src/memory/framealloc.rs.
use proka_kernel.Base.{
  All, Bool, Bool-cases, List, Option-cases, [], add_word, arith, div_ceil, false, get_elem?,
  if◌then◌else◌, inl, inr, length-replicate, ltb, not, refl, replicate, some, suc, true, word, zero,
  ℕ, ◌&&◌, ◌+◌, ◌-◌, ◌/◌, ◌<◌, ◌||◌, ◌∷◌, ◌≡◌,
}
use proka_kernel.FrameAlloc.{
  FrameAlloc, MemoryDesc, free_ends, get_bit, mark_unavailable, max_of, page_size, read_bit,
  set_run,
}
use proka_kernel.FrameAlloc.Bits.{IsBytes}
use proka_kernel.FrameAlloc.Marks.{
  SameShape, SameShape-trans, get_bit-set_run, in_bitmap, in_run, set_run-SameShape,
}
use proka_kernel.FrameAlloc.Scan.{IsValid}
use proka_kernel.FrameAlloc.Allocation.{set_run-IsValid}

pub max_of-lt : (k : ℕ) (xs : List ℕ) {m : ℕ} → All (λ x. x < k) xs → max_of xs ≡ some m → m < k
unfolding max_of
max_of-lt k [] h e = cc
max_of-lt k (x ∷ xs) {m} h e = elim (Option-cases (max_of xs)) [
  | inl f ↦ ground (arith, rw (f, max_of) at e)
  | inr (n, f) ↦ ground (arith, rw (f, max_of) at e, max_of-lt k xs h.1 f)
]

IsBytes-replicate : (n : ℕ) → IsBytes (replicate n 0)
IsBytes-replicate zero = tt
IsBytes-replicate (suc n) = (omega arith, IsBytes-replicate n)

get_elem?-replicate : (n i : ℕ) → i < n → get_elem? {A = ℕ} (replicate n 0) i ≡ some 0
get_elem?-replicate zero i h = absurd (omega arith)
get_elem?-replicate (suc n) zero h = refl
get_elem?-replicate (suc n) (suc i) h = get_elem?-replicate n i (omega arith)

module _ {T : Type 0} (is_free : T → Bool) where
  -- The fields of a map entry are 64-bit words.
  abbrev pub IsWord : MemoryDesc T → Type 0
  IsWord d = (d.base_addr < word) × (d.length < word)

  pub free_ends-lt : (ds : List (MemoryDesc T)) → All (λ x. x < word) (free_ends is_free ds)
  unfolding free_ends
  free_ends-lt [] = tt
  free_ends-lt (d ∷ ds) = ground (arith, free_ends-lt ds)

  -- The frames that `init` takes an entry to cover: none if it is free memory, and otherwise as
  -- many whole frames as its length needs, from its base rounded up.
  abbrev pub covers : MemoryDesc T → ℕ → Bool
  covers d q =
      not (is_free d.mem_type)
      && in_run (div_ceil d.base_addr page_size) (div_ceil d.length page_size) q

  pub unavailable : List (MemoryDesc T) → ℕ → Bool
  unavailable [] q = false
  unavailable (d ∷ ds) q = covers d q || unavailable ds q

  -- The state after the loop over the frames of one entry that is not free.
  abbrev cover : FrameAlloc → MemoryDesc T → FrameAlloc
  cover a d =
      let start = div_ceil d.base_addr page_size in
      set_run a start 0 (add_word start (div_ceil d.length page_size) - start) 1

  pub mark_unavailable-SameShape :
      (a : FrameAlloc) (ds : List (MemoryDesc T)) → SameShape a (mark_unavailable is_free a ds)
  unfolding mark_unavailable
  mark_unavailable-SameShape a [] = omega arith
  mark_unavailable-SameShape a (d ∷ ds) = elim (Bool-cases (is_free d.mem_type)) [
    | inl e ↦ rw e (mark_unavailable-SameShape a ds)
    | inr e ↦
        rw e (
          SameShape-trans (set_run-SameShape a _ 0 _ 1) (mark_unavailable-SameShape (cover a d) ds))
  ]

  pub mark_unavailable-IsValid :
      (a : FrameAlloc) (ds : List (MemoryDesc T))
      → IsValid a
      → IsValid (mark_unavailable is_free a ds)
  unfolding mark_unavailable
  mark_unavailable-IsValid a [] v = v
  mark_unavailable-IsValid a (d ∷ ds) v = elim (Bool-cases (is_free d.mem_type)) [
    | inl e ↦ rw e (mark_unavailable-IsValid a ds v)
    | inr e ↦
        rw e (mark_unavailable-IsValid (cover a d) ds (set_run-IsValid a _ _ 1 (omega arith) v))
  ]

  pub get_bit-mark_unavailable :
      (a : FrameAlloc) (ds : List (MemoryDesc T)) (q : ℕ)
      → IsValid a
      → All IsWord ds
      → get_bit (mark_unavailable is_free a ds) q
        ≡ (if unavailable ds q && in_bitmap a q then 1 else get_bit a q)
  unfolding mark_unavailable unavailable
  get_bit-mark_unavailable a [] q v w = refl
  get_bit-mark_unavailable a (d ∷ ds) q v w = elim (Bool-cases (is_free d.mem_type)) [
    | inl e ↦ rw e (ground (arith, get_bit-mark_unavailable a ds q v w.1))
    | inr e ↦
        let start = div_ceil d.base_addr page_size in
        let n = add_word start (div_ceil d.length page_size) - start in
        let b = set_run a start 0 n 1 in
        rw e (
          ground (
            arith,
            get_bit-mark_unavailable b ds q (set_run-IsValid a start n 1 (omega arith) v) w.1,
            get_bit-set_run a start 0 n 1 q (omega arith) v.bytes (omega (arith, w.0)),
            set_run-SameShape a start 0 n 1,
            w.0,
          ))
  ]

-- `init` between filling the bitmap with zeros and marking.
abbrev pub blank : ℕ → ℕ → FrameAlloc
blank top reserved_pages = record {
  bitmap = replicate (div_ceil (div_ceil top page_size) 8) 0;
  max_page = div_ceil top page_size;
  reserved = reserved_pages;
  self_used_page = div_ceil (div_ceil (div_ceil top page_size) 8) page_size;
  pos = 0;
}

pub blank-IsValid : (top r : ℕ) → top < word → r < word → IsValid (blank top r)
blank-IsValid top r ht hr = record {
  bytes = IsBytes-replicate _;
  sized = length-replicate _ 0;
  small = omega arith;
  reserved_fits = hr;
  pos_fits = omega arith;
}

pub blank-bit : (top r q : ℕ) → in_bitmap (blank top r) q ≡ true → get_bit (blank top r) q ≡ 0
unfolding get_bit read_bit
blank-bit top r q h =
    let n = div_ceil (div_ceil top page_size) 8 in
    rw (get_elem?-replicate n (q / 8) (ground (arith, length-replicate n zero)), get_bit)
      (omega arith)

-- The last two loops, over the reserved frames and over those of the bitmap.
abbrev pub hold : FrameAlloc → ℕ → ℕ → FrameAlloc
hold a r s = set_run (set_run a 0 0 r 1) r 0 (add_word r s - r) 1

pub hold-SameShape : (a : FrameAlloc) (r s : ℕ) → SameShape a (hold a r s)
hold-SameShape a r s =
    SameShape-trans (set_run-SameShape a 0 0 r 1)
      (set_run-SameShape (set_run a 0 0 r 1) r 0 (add_word r s - r) 1)

pub hold-IsValid : (a : FrameAlloc) (r s : ℕ) → IsValid a → IsValid (hold a r s)
hold-IsValid a r s v =
    set_run-IsValid (set_run a 0 0 r 1) r _ 1 (omega arith)
      (set_run-IsValid a 0 r 1 (omega arith) v)

pub get_bit-hold :
    (a : FrameAlloc) (r s q : ℕ)
    → IsValid a
    → r + s < word
    → get_bit (hold a r s) q ≡ (if ltb q (r + s) && in_bitmap a q then 1 else get_bit a q)
get_bit-hold a r s q v h = ground (
  arith,
  get_bit-set_run a 0 0 r 1 q (omega arith) v.bytes (omega arith),
  set_run-SameShape a 0 0 r 1,
  get_bit-set_run (set_run a 0 0 r 1) r 0 (add_word r s - r) 1 q (omega arith)
      (set_run-IsValid a 0 r 1 (omega arith) v).bytes (omega arith),
)
