-- ===== src/FrameAlloc/Bits.antt =====
-- The bit operations of core/src/memory/framealloc.rs on one byte and on the whole bitmap.
use proka_kernel.Base.{
  Bool, List, [], arith, get_elem?, if◌then◌else◌, length, ltb, none, refl, set, some, suc, true,
  zero, ℕ, ◌&&◌, ◌*◌, ◌<◌, ◌==◌, ◌∷◌, ◌≡◌, ◌≤◌,
}
use proka_kernel.FrameAlloc.{FrameAlloc, read_bit, write_bit}

-- A test that passes for all numbers below a bound, found by running it.
passes : (ℕ → Bool) → ℕ → Bool
passes test zero = true
passes test (suc bound) = passes test bound && test bound

passes_at : (test : ℕ → Bool) (bound k : ℕ) → passes test bound ≡ true → k < bound → test k ≡ true
unfolding passes
passes_at test (suc bound) k ran below = ground (arith, passes_at test bound k)
passes_at test zero k ran below = absurd (omega arith)

-- What a write of 0 or 1 at bit `k` leaves at bit `j`, for every byte.
abbrev write_agrees : ℕ → ℕ → ℕ → ℕ → Bool
write_agrees v j k b =
    (read_bit (write_bit b k v) j == (if k == j then v else read_bit b j))
    && ltb (write_bit b k v) 256

abbrev bytes_agree : ℕ → Bool
bytes_agree v = passes (λ j. passes (λ k. passes (write_agrees v j k) 256) 8) 8

bytes_agree_zero : bytes_agree 0 ≡ true
unfolding passes read_bit write_bit
bytes_agree_zero = refl

bytes_agree_one : bytes_agree 1 ≡ true
unfolding passes read_bit write_bit
bytes_agree_one = refl

write_agrees_lem : (v j k b : ℕ) → v < 2 → j < 8 → k < 8 → b < 256 → write_agrees v j k b ≡ true
write_agrees_lem v j k b hv hj hk hb =
    passes_at _ 256 b (passes_at _ 8 k (passes_at _ 8 j (ran v hv) hj) hk) hb
  where
    ran : (v : ℕ) → v < 2 → bytes_agree v ≡ true
    ran zero h = bytes_agree_zero
    ran (suc zero) h = bytes_agree_one
    ran (suc (suc n)) h = absurd (omega arith)

pub read_bit-write_bit :
    (v j k b : ℕ)
    → v < 2
    → j < 8
    → k < 8
    → b < 256
    → read_bit (write_bit b k v) j ≡ (if k == j then v else read_bit b j)
read_bit-write_bit v j k b hv hj hk hb = ground (arith, write_agrees_lem v j k b hv hj hk hb)

pub write_bit-lt : (v k b : ℕ) → v < 2 → k < 8 → b < 256 → write_bit b k v < 256
write_bit-lt v k b hv hk hb = ground (arith, write_agrees_lem v 0 k b hv (omega arith) hk hb)

-- Every element of the bitmap is a byte.
abbrev pub IsBytes : List ℕ → Type 0
IsBytes [] = Unit {0}
IsBytes (b ∷ bs) = (b < 256) × IsBytes bs

pub IsBytes-get : (bs : List ℕ) (i : ℕ) {b : ℕ} → IsBytes bs → get_elem? bs i ≡ some b → b < 256
IsBytes-get [] i h e = cc
IsBytes-get (x ∷ bs) zero h e = ground arith
IsBytes-get (x ∷ bs) (suc i) h e = IsBytes-get bs i h.1 e

pub IsBytes-set : (bs : List ℕ) (i b : ℕ) → IsBytes bs → b < 256 → IsBytes (set bs i b)
IsBytes-set [] i b h lt = tt
IsBytes-set (x ∷ bs) zero b h lt = (lt, h.1)
IsBytes-set (x ∷ bs) (suc i) b h lt = (h.0, IsBytes-set bs i b h.1 lt)

pub get_elem?-none {ℓ} : {A : Type ℓ} (xs : List A) (i : ℕ) → get_elem? xs i ≡ none → length xs ≤ i
get_elem?-none [] i e = omega arith
get_elem?-none (x ∷ xs) zero e = cc
get_elem?-none (x ∷ xs) (suc i) e = omega (arith, get_elem?-none xs i e)

-- The frames that the bitmap has a bit for.
abbrev pub InBitmap : FrameAlloc → ℕ → Type 0
InBitmap a pfn = pfn < 8 * length a.bitmap
