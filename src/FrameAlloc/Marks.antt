-- ===== src/FrameAlloc/Marks.antt =====
-- What `set_bit` and the marking loop of core/src/memory/framealloc.rs do to every frame's bit.
use proka_kernel.Base.{
  Bool, List, Option-cases, add_word, arith, dec_lt, get_elem?, get_elem?-length, get_elem?-set_ne,
  get_elem?-set_self, if◌then◌else◌, inl, inr, leb, length, length-set, ltb, none, refl, set, some,
  suc, word, zero, ℕ, ℕ_discrete, ◌%◌, ◌&&◌, ◌*◌, ◌+◌, ◌/◌, ◌<◌, ◌==◌, ◌≡◌, ◌≢◌, ◌≤◌,
}
use proka_kernel.FrameAlloc.{FrameAlloc, get_bit, read_bit, set_bit, set_run, write_bit}
use proka_kernel.FrameAlloc.Bits.{
  InBitmap, IsBytes, IsBytes-get, IsBytes-set, get_elem?-none, read_bit-write_bit, write_bit-lt,
}

-- The fields that a bit write leaves alone.
pub record SameShape (a b : FrameAlloc) : Type 0 where
  pub length_kept : length b.bitmap ≡ length a.bitmap
  pub max_page_kept : b.max_page ≡ a.max_page
  pub reserved_kept : b.reserved ≡ a.reserved
  pub self_used_kept : b.self_used_page ≡ a.self_used_page
  pub pos_kept : b.pos ≡ a.pos

pub SameShape-trans : {a b c : FrameAlloc} → SameShape a b → SameShape b c → SameShape a c
SameShape-trans s t = omega arith

set_bit-SameShape : (a : FrameAlloc) (p v : ℕ) → SameShape a (set_bit a p v)
unfolding set_bit
set_bit-SameShape a p v = elim (Option-cases (get_elem? a.bitmap (p / 8))) [
  | inl e ↦ rw (e, set_bit) (omega arith)
  | inr (b, e) ↦
      rw (e, set_bit) (omega (arith, length-set a.bitmap (p / 8) (write_bit b (p % 8) v)))
]

set_bit-IsBytes :
    (a : FrameAlloc) (p v : ℕ) → v < 2 → IsBytes a.bitmap → IsBytes (set_bit a p v).bitmap
unfolding set_bit
set_bit-IsBytes a p v hv h = elim (Option-cases (get_elem? a.bitmap (p / 8))) [
  | inl e ↦ rw (e, set_bit) h
  | inr (b, e) ↦
      rw (e, set_bit)
        (IsBytes-set a.bitmap (p / 8) _ h
          (write_bit-lt v (p % 8) b hv (omega arith) (IsBytes-get a.bitmap (p / 8) h e)))
]

-- A frame without a bit reads as used.
pub get_bit_out : (a : FrameAlloc) (q : ℕ) → ¬ InBitmap a q → get_bit a q ≡ 1
unfolding get_bit
get_bit_out a q h = elim (Option-cases (get_elem? a.bitmap (q / 8))) [
  | inl e ↦ rw (e, get_bit) refl
  | inr (b, e) ↦ absurd (h (omega (arith, get_elem?-length a.bitmap (q / 8) e)))
]

-- Bit `k` of byte `i`, or 1 past the end of the bitmap.
bit_at : List ℕ → ℕ → ℕ → ℕ
bit_at bs i k = elim (get_elem? bs i) [ none ↦ 1 | some b ↦ read_bit b k ]

bit_at-set_self :
    (bs : List ℕ) (i k l v b : ℕ)
    → v < 2
    → k < 8
    → l < 8
    → IsBytes bs
    → get_elem? bs i ≡ some b
    → bit_at (set bs i (write_bit b k v)) i l ≡ (if k == l then v else bit_at bs i l)
unfolding bit_at
bit_at-set_self bs i k l v b hv hk hl h e =
    rw (get_elem?-set_self bs i (write_bit b k v) (get_elem?-length bs i e), e, bit_at)
      (read_bit-write_bit v l k b hv hl hk (IsBytes-get bs i h e))

bit_at-set_ne : (bs : List ℕ) (i j l c : ℕ) → i ≢ j → bit_at (set bs i c) j l ≡ bit_at bs j l
unfolding bit_at
bit_at-set_ne bs i j l c d = rw (get_elem?-set_ne bs c d, bit_at) refl

get_bit-bit_at : (a : FrameAlloc) (q : ℕ) → get_bit a q ≡ bit_at a.bitmap (q / 8) (q % 8)
unfolding get_bit bit_at
get_bit-bit_at a q = refl

get_bit-set_bit_in :
    (a : FrameAlloc) (p q v b : ℕ)
    → v < 2
    → IsBytes a.bitmap
    → get_elem? a.bitmap (p / 8) ≡ some b
    → get_bit (record a { bitmap = set a.bitmap (p / 8) (write_bit b (p % 8) v) }) q
      ≡ (if p == q then v else get_bit a q)
get_bit-set_bit_in a p q v b hv h e = elim (ℕ_discrete (p / 8) (q / 8)) [
  | yes s ↦ ground (
    arith,
    get_bit-bit_at a q,
    get_bit-bit_at (record a { bitmap = set a.bitmap (p / 8) (write_bit b (p % 8) v) }) q,
    bit_at-set_self a.bitmap (p / 8) (p % 8) (q % 8) v b hv (omega arith) (omega arith) h e,
  )
  | no d ↦ ground (
    arith,
    get_bit-bit_at a q,
    get_bit-bit_at (record a { bitmap = set a.bitmap (p / 8) (write_bit b (p % 8) v) }) q,
    bit_at-set_ne a.bitmap (p / 8) (q / 8) (q % 8) (write_bit b (p % 8) v) d,
  )
]

-- A write shows at its own frame, if the bitmap reaches it, and nowhere else.
get_bit-set_bit :
    (a : FrameAlloc) (p q v : ℕ)
    → v < 2
    → IsBytes a.bitmap
    → InBitmap a p
    → get_bit (set_bit a p v) q ≡ (if p == q then v else get_bit a q)
unfolding set_bit
get_bit-set_bit a p q v hv h inside = elim (Option-cases (get_elem? a.bitmap (p / 8))) [
  | inl e ↦ absurd (omega (arith, get_elem?-none a.bitmap (p / 8) e))
  | inr (b, e) ↦ rw (e, set_bit) (get_bit-set_bit_in a p q v b hv h e)
]

pub set_bit_out : (a : FrameAlloc) (p v : ℕ) → ¬ InBitmap a p → set_bit a p v ≡ a
unfolding set_bit
set_bit_out a p v h = elim (Option-cases (get_elem? a.bitmap (p / 8))) [
  | inl e ↦ rw (e, set_bit) refl
  | inr (b, e) ↦ absurd (h (omega (arith, get_elem?-length a.bitmap (p / 8) e)))
]

-- Whether a frame has a bit in the bitmap.
abbrev pub in_bitmap : FrameAlloc → ℕ → Bool
in_bitmap a q = ltb q (8 * length a.bitmap)

get_bit-set_bit_if :
    (a : FrameAlloc) (p q v : ℕ)
    → v < 2
    → IsBytes a.bitmap
    → get_bit (set_bit a p v) q ≡ (if (p == q) && in_bitmap a q then v else get_bit a q)
get_bit-set_bit_if a p q v hv h = elim (dec_lt p (8 * length a.bitmap)) [
  | yes inside ↦ ground (arith, get_bit-set_bit a p q v hv h inside)
  | no outside ↦ rw (set_bit_out a p v outside) (ground arith)
]

pub set_run-SameShape : (a : FrameAlloc) (start i n v : ℕ) → SameShape a (set_run a start i n v)
unfolding set_run
set_run-SameShape a start i zero v = omega arith
set_run-SameShape a start i (suc n) v =
    SameShape-trans (set_bit-SameShape a (add_word start i) v)
      (set_run-SameShape (set_bit a (add_word start i) v) start (i + 1) n v)

pub set_run-IsBytes :
    (a : FrameAlloc) (start i n v : ℕ)
    → v < 2
    → IsBytes a.bitmap
    → IsBytes (set_run a start i n v).bitmap
unfolding set_run
set_run-IsBytes a start i zero v hv h = h
set_run-IsBytes a start i (suc n) v hv h =
    set_run-IsBytes (set_bit a (add_word start i) v) start (i + 1) n v hv
      (set_bit-IsBytes a (add_word start i) v hv h)

-- Whether `q` is one of the `n` frames from `s` on.
abbrev pub in_run : ℕ → ℕ → ℕ → Bool
in_run s n q = leb s q && ltb q (s + n)

-- The loop writes its run, as far as the bitmap reaches, and nothing else.
pub get_bit-set_run :
    (a : FrameAlloc) (start i n v q : ℕ)
    → v < 2
    → IsBytes a.bitmap
    → start + i + n ≤ word
    → get_bit (set_run a start i n v) q
      ≡ (if in_run (start + i) n q && in_bitmap a q then v else get_bit a q)
unfolding set_run
get_bit-set_run a start i zero v q hv h fits = ground arith
get_bit-set_run a start i (suc n) v q hv h fits = ground (
  arith,
  get_bit-set_run (set_bit a (add_word start i) v) start (i + 1) n v q hv
      (set_bit-IsBytes a (add_word start i) v hv h) (omega arith),
  get_bit-set_bit_if a (add_word start i) q v hv h,
  set_bit-SameShape a (add_word start i) v,
)
