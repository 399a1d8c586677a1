-- ===== src/Color/Hex.antt =====
-- `from_hex` of core/src/output/color.rs, against the text of a colour.
use proka_kernel.Base.{
  List, Option-cases, [], arith, get_elem?, get_elem?-length, if◌then◌else◌, inl, inr, length, ltb,
  none, refl, some, suc, true, zero, ℕ, ◌%◌, ◌+◌, ◌-◌, ◌/◌, ◌<◌, ◌∷◌, ◌≡◌, ◌≢◌, ◌≤◌,
}
use proka_kernel.Color.{
  Color, IsColor, from_hex, is_boundary, new, parse_two, slice_byte, trim_start_hash,
}

-- The byte of a hexadecimal digit, and the two of a channel.
abbrev hex_digit : ℕ → ℕ
hex_digit n = if ltb n 10 then b'0' + n else b'a' + n - 10

channel_text : List ℕ → List ℕ
channel_text [] = []
channel_text (c ∷ cs) = hex_digit (c / 16) ∷ hex_digit (c % 16) ∷ channel_text cs

-- A colour's text as it is commonly written, after any number of `#`.
pub hex_text : ℕ → List ℕ → List ℕ
unfolding channel_text
hex_text zero channels = channel_text channels
hex_text (suc hashes) channels = b'#' ∷ hex_text hashes channels

hex_digit_bounds :
    (n : ℕ) → n < 16 → (b'#' < hex_digit n) × (hex_digit n < 0x80) × (hex_digit n ≢ b'+')
hex_digit_bounds n h = ground arith

parse_two-hex : (c : ℕ) → c < 256 → parse_two (hex_digit (c / 16)) (hex_digit (c % 16)) ≡ some c
unfolding parse_two
parse_two-hex c h = ground arith

trim-hex_text :
    (hashes c : ℕ) (cs : List ℕ)
    → c < 256
    → trim_start_hash (hex_text hashes (c ∷ cs)) ≡ hex_text 0 (c ∷ cs)
unfolding trim_start_hash hex_text
trim-hex_text zero c cs h = ground (arith, hex_digit_bounds (c / 16) (omega arith))
trim-hex_text (suc hashes) c cs h = trim-hex_text hashes c cs h

-- A slice of two digits reads the channel that they stand for.
slice_byte-hex :
    (s : List ℕ) (i c : ℕ)
    → c < 256
    → get_elem? s i ≡ some (hex_digit (c / 16))
    → get_elem? s (i + 1) ≡ some (hex_digit (c % 16))
    → is_boundary s (i + 2) ≡ true
    → slice_byte s i ≡ some c
unfolding slice_byte
slice_byte-hex s i c h high low end =
    let start : is_boundary s i ≡ true = ground (arith, hex_digit_bounds (c / 16) (omega arith)) in
    rw (start, end, high, low, parse_two-hex c h)

boundary_at :
    (s : List ℕ) (i c : ℕ) → c < 16 → get_elem? s i ≡ some (hex_digit c) → is_boundary s i ≡ true
unfolding is_boundary
boundary_at s i c h e = rw (e, is_boundary) (ground (arith, hex_digit_bounds c h))

-- For a colour whose channels are bytes, the text of the first three channels is read as the opaque
-- colour, and that of all four as the colour itself, with any number of `#` in front.
pub from_hex-hex_text :
    (hashes : ℕ) (c : Color)
    → IsColor c
    → (from_hex (hex_text hashes (c.r ∷ c.g ∷ c.b ∷ [])) ≡ some (new c.r c.g c.b))
      × (from_hex (hex_text hashes (c.r ∷ c.g ∷ c.b ∷ c.a ∷ [])) ≡ some c)
unfolding from_hex hex_text
from_hex-hex_text hashes c h = (three, four)
  where
    s : List ℕ
    s = hex_text 0 (c.r ∷ c.g ∷ c.b ∷ [])

    t : List ℕ
    t = hex_text 0 (c.r ∷ c.g ∷ c.b ∷ c.a ∷ [])

    three : from_hex (hex_text hashes (c.r ∷ c.g ∷ c.b ∷ [])) ≡ some (new c.r c.g c.b)
    three =
        let e = trim-hex_text hashes c.r (c.g ∷ c.b ∷ []) (omega arith) in
        rw
          (
            e,
            slice_byte-hex s 0 c.r (omega arith) refl refl
                (boundary_at s 2 (c.g / 16) (omega arith) refl),
            slice_byte-hex s 2 c.g (omega arith) refl refl
                (boundary_at s 4 (c.b / 16) (omega arith) refl),
            slice_byte-hex s 4 c.b (omega arith) refl refl (unfold is_boundary in refl),
          )
          refl

    four : from_hex (hex_text hashes (c.r ∷ c.g ∷ c.b ∷ c.a ∷ [])) ≡ some c
    four =
        let e = trim-hex_text hashes c.r (c.g ∷ c.b ∷ c.a ∷ []) (omega arith) in
        rw
          (
            e,
            slice_byte-hex t 0 c.r (omega arith) refl refl
                (boundary_at t 2 (c.g / 16) (omega arith) refl),
            slice_byte-hex t 2 c.g (omega arith) refl refl
                (boundary_at t 4 (c.b / 16) (omega arith) refl),
            slice_byte-hex t 4 c.b (omega arith) refl refl
                (boundary_at t 6 (c.a / 16) (omega arith) refl),
            slice_byte-hex t 6 c.a (omega arith) refl refl (unfold is_boundary in refl),
          )
          refl

length-trim-le : (s : List ℕ) → length (trim_start_hash s) ≤ length s
unfolding trim_start_hash
length-trim-le [] = omega arith
length-trim-le (c ∷ cs) = ground (arith, length-trim-le cs)

-- A slice that does not panic ends inside the text.
slice_byte-end : (s : List ℕ) (i v : ℕ) → slice_byte s i ≡ some v → i + 2 ≤ length s
unfolding slice_byte is_boundary
slice_byte-end s i v h = elim (Option-cases (get_elem? s (i + 2))) [
  | inl e ↦ ground (arith, rw (e, slice_byte, is_boundary) at h)
  | inr (c, e) ↦ omega (arith, get_elem?-length s (i + 2) e)
]

-- A text of fewer than six bytes makes `from_hex` panic.
from_hex-short : (s : List ℕ) → length s < 6 → from_hex s ≡ none
unfolding from_hex
from_hex-short s h = elim (Option-cases (slice_byte (trim_start_hash s) 4)) [
  | inl e ↦ ground (arith, e)
  | inr (c, e) ↦ absurd (omega (arith, length-trim-le s, slice_byte-end (trim_start_hash s) 4 c e))
]
