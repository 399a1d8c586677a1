-- ===== src/FrameAlloc/Scan.antt =====
-- The scanner of `allocate_contiguous` in core/src/memory/framealloc.rs, with its fuel.
use proka_kernel.Base.{
  Bool-cases, add_word, ap, arith, dec_lt, div_ceil, false, inl, inr, leb, length, none, some,
  subst, suc, true, word, zero, ℕ, ℕ_discrete, ◌*◌, ◌+◌, ◌-◌, ◌<◌, ◌≡◌, ◌≤◌,
}
use proka_kernel.FrameAlloc.{FrameAlloc, get_bit, read_bit, run_is_free, scan}
use proka_kernel.FrameAlloc.Bits.{IsBytes}
use proka_kernel.FrameAlloc.Marks.{get_bit_out}

-- `n` frames from `s` on have a bit that says free.
abbrev pub IsFree : FrameAlloc → ℕ → ℕ → Type 0
IsFree a s n = (q : ℕ) → s ≤ q → q < s + n → get_bit a q ≡ 0

get_bit-lt : (a : FrameAlloc) (q : ℕ) → get_bit a q ≡ 0 → q < 8 * length a.bitmap
get_bit-lt a q e = elim (dec_lt q (8 * length a.bitmap)) [
  | yes h ↦ h
  | no h ↦ absurd (omega (arith, get_bit_out a q h))
]

get_bit-lt-two : (a : FrameAlloc) (q : ℕ) → get_bit a q < 2
unfolding get_bit read_bit
get_bit-lt-two a q = ground arith

-- The loop's verdict, at one index of its range.
run_is_free_sound :
    (a : FrameAlloc) (cur i n k : ℕ)
    → run_is_free a cur i n ≡ true
    → i ≤ k
    → k < i + n
    → get_bit a (add_word cur k) ≡ 0
unfolding run_is_free
run_is_free_sound a cur i zero k h lo hi = absurd (omega arith)
run_is_free_sound a cur i (suc n) k h lo hi = elim (ℕ_discrete i k) [
  | yes e ↦ rw (← e) (ground (arith, get_bit-lt-two a (add_word cur i)))
  | no d ↦ run_is_free_sound a cur (i + 1) n k (ground arith) (omega arith) (omega arith)
]

-- A run that the loop refuses holds a used frame.
run_is_free_complete :
    (a : FrameAlloc) (cur i n : ℕ)
    → run_is_free a cur i n ≡ false
    → (k : ℕ) × (i ≤ k) × (k < i + n) × (get_bit a (add_word cur k) ≡ 1)
unfolding run_is_free
run_is_free_complete a cur i zero h = cc
run_is_free_complete a cur i (suc n) h = elim (ℕ_discrete (get_bit a (add_word cur i)) 1) [
  | yes e ↦ (i, omega arith, omega arith, e)
  | no d ↦
      let (k, lo, hi, used) = run_is_free_complete a cur (i + 1) n (ground arith) in
      (k, omega arith, omega arith, used)
]

-- What the rest of the code relies on: the bitmap has a bit for every frame, and the numbers fit.
pub record IsValid (a : FrameAlloc) : Type 0 where
  pub bytes : IsBytes a.bitmap
  pub sized : length a.bitmap ≡ div_ceil a.max_page 8
  pub small : a.max_page + 16 < word
  pub reserved_fits : a.reserved < word
  pub pos_fits : a.pos < word

-- A run that passes the loop is free and does not wrap round the address space.
run_is_free-IsFree :
    (a : FrameAlloc) (s n : ℕ)
    → IsValid a
    → s < word
    → run_is_free a s 0 n ≡ true
    → (s + n < word) × IsFree a s n
run_is_free-IsFree a s n v hs h = elim (dec_lt (s + n) word) [
  | yes fits ↦ (fits, λ q lo hi. whole fits q lo hi)
  | no wraps ↦ absurd (top wraps)
]
  where
    whole : s + n < word → (q : ℕ) → s ≤ q → q < s + n → get_bit a q ≡ 0
    whole fits q lo hi =
        let e : add_word s (q - s) ≡ q = omega arith in
        subst (λ x. get_bit a x ≡ 0) e
          (run_is_free_sound a s 0 n (q - s) h (omega arith) (omega arith))

    top : ¬ (s + n < word) → ⊥
    top wraps = omega (
      arith,
      v,
      get_bit-lt a _ (run_is_free_sound a s 0 n (word - 1 - s) h (omega arith) (omega arith)),
    )

-- What the scanner returns is a free run at or after its start, inside the memory.
pub scan-IsFree :
    (fuel : ℕ) (a : FrameAlloc) (n cur s : ℕ)
    → IsValid a
    → cur < word
    → scan fuel a n cur ≡ some s
    → (s + n ≤ a.max_page) × IsFree a s n
unfolding scan
scan-IsFree zero a n cur s v hc h = cc
scan-IsFree (suc fuel) a n cur s v hc h = elim (Bool-cases (leb (add_word cur n) a.max_page)) [
  | inl go ↦ elim (Bool-cases (run_is_free a cur 0 n)) [
    | inl ok ↦
        let e : cur ≡ s = ground arith in
        let (fits, free) = run_is_free-IsFree a cur n v hc ok in
        subst (λ x. (x + n ≤ a.max_page) × IsFree a x n) e (ground arith, free)
    | inr bad ↦ scan-IsFree fuel a n (add_word cur 1) s v (omega arith) (ground arith)
  ]
  | inr stop ↦ cc
]

-- A run that the loop refuses is not free.
run_is_free-not :
    (a : FrameAlloc) (s n : ℕ) → s + n < word → run_is_free a s 0 n ≡ false → ¬ IsFree a s n
run_is_free-not a s n fits h free =
    let (k, lo, hi, used) = run_is_free_complete a s 0 n h in
    let e : add_word s k ≡ s + k = omega arith in
    omega (arith, used, ap (get_bit a) e, free (s + k) (omega arith) (omega arith))

-- `max_page + 2` rounds are enough: when the scanner gives up, no run from its start on is free.
pub scan-none :
    (fuel : ℕ) (a : FrameAlloc) (n cur t : ℕ)
    → IsValid a
    → cur + n < word
    → a.max_page + 2 ≤ fuel + (cur + n)
    → scan fuel a n cur ≡ none
    → cur ≤ t
    → t + n ≤ a.max_page
    → ¬ IsFree a t n
unfolding scan
scan-none zero a n cur t v hc hf h lo hi = absurd (omega arith)
scan-none (suc fuel) a n cur t v hc hf h lo hi =
    elim (Bool-cases (leb (add_word cur n) a.max_page)) [
      | inr stop ↦ absurd (ground arith)
      | inl go ↦ elim (Bool-cases (run_is_free a cur 0 n)) [
        | inl ok ↦ absurd (ground arith)
        | inr bad ↦ elim (ℕ_discrete cur t) [
          | yes e ↦ subst (λ x. ¬ IsFree a x n) e (run_is_free-not a cur n hc bad)
          | no d ↦
              let e : add_word cur 1 ≡ cur + 1 = ground (arith, v) in
              scan-none fuel a n (add_word cur 1) t v (ground (arith, v)) (omega arith)
                (ground arith) (omega arith) hi
        ]
      ]
    ]

-- The scanner returns the first free run from its start on.
pub scan-first :
    (fuel : ℕ) (a : FrameAlloc) (n cur s t : ℕ)
    → IsValid a
    → cur + n < word
    → scan fuel a n cur ≡ some s
    → cur ≤ t
    → t < s
    → ¬ IsFree a t n
unfolding scan
scan-first zero a n cur s t v hc h lo hi = cc
scan-first (suc fuel) a n cur s t v hc h lo hi =
    elim (Bool-cases (leb (add_word cur n) a.max_page)) [
      | inr stop ↦ cc
      | inl go ↦ elim (Bool-cases (run_is_free a cur 0 n)) [
        | inl ok ↦ absurd (ground arith)
        | inr bad ↦ elim (ℕ_discrete cur t) [
          | yes e ↦ subst (λ x. ¬ IsFree a x n) e (run_is_free-not a cur n hc bad)
          | no d ↦
              let e : add_word cur 1 ≡ cur + 1 = ground (arith, v) in
              scan-first fuel a n (add_word cur 1) s t v (ground (arith, v)) (ground arith)
                (omega arith) hi
        ]
      ]
    ]
