-- ===== src/Color.antt =====
-- core/src/output/color.rs: colours, their packed form and their mixing. Each channel is a `u8`.
pub mod Packing
pub mod Mixing
pub mod Hex
mod Tests
use proka_kernel.Base.{
  Bool, List, Option, [], bit_or, get_elem?, if◌then◌else◌, leb, length, ltb, none, not, some,
  unwrap_or, ℕ, ◌%◌, ◌&&◌, ◌*◌, ◌+◌, ◌-◌, ◌/◌, ◌<◌, ◌==◌, ◌>>=◌, ◌^◌, ◌∷◌,
}

pub record Color : Type 0 where
  pub r : ℕ
  pub g : ℕ
  pub b : ℕ
  pub a : ℕ

-- `Color::new`, and the macro arm with three channels.
unfoldable pub new : ℕ → ℕ → ℕ → Color
new r g b = record { r = r; g = g; b = b; a = 255 }

pub with_alpha : ℕ → ℕ → ℕ → ℕ → Color
with_alpha r g b a = record { r = r; g = g; b = b; a = a }

-- `x << k` on a `u32`.
abbrev shl32 : ℕ → ℕ → ℕ
shl32 x k = x * 2 ^ k % 2 ^ 32

unfoldable pub to_u32 : Color → Bool → ℕ
to_u32 c include_alpha =
    if include_alpha
    then bit_or (bit_or (bit_or (shl32 c.a 24) (shl32 c.r 16)) (shl32 c.g 8)) c.b
    else bit_or (bit_or (shl32 c.r 16) (shl32 c.g 8)) c.b

-- `x & 0xFF` is `x % 256`, and so is the cast `as u8`.
pub from_u32 : ℕ → Color
unfolding new
from_u32 color = new (color / 2 ^ 24 % 256) (color / 2 ^ 16 % 256) (color / 2 ^ 8 % 256)

pub mix_alpha : Color → ℕ → Color
unfolding with_alpha
mix_alpha c alpha = with_alpha c.r c.g c.b alpha

-- `((x as u16 * alpha as u16 + y as u16 * (255 - alpha) as u16) / 255) as u8`.
pub mix_channel : ℕ → ℕ → ℕ → ℕ
mix_channel x y alpha =
    let u16 = 2 ^ 16 in (x * alpha % u16 + y * (255 - alpha) % u16) % u16 / 255 % 256

pub mix : Color → Color → ℕ → Color
unfolding mix_channel
mix c other alpha = record {
  r = mix_channel c.r other.r alpha;
  g = mix_channel c.g other.g alpha;
  b = mix_channel c.b other.b alpha;
  a = alpha;
}

pub invert : Color → Color
unfolding new
invert c = new (255 - c.r) (255 - c.g) (255 - c.b)

abbrev pub black : Color
black = record { r = 0; g = 0; b = 0; a = 255 }

abbrev pub white : Color
white = record { r = 255; g = 255; b = 255; a = 255 }

abbrev pub red : Color
red = record { r = 255; g = 0; b = 0; a = 255 }

abbrev pub green : Color
green = record { r = 0; g = 255; b = 0; a = 255 }

abbrev pub blue : Color
blue = record { r = 0; g = 0; b = 255; a = 255 }

abbrev pub yellow : Color
yellow = record { r = 255; g = 255; b = 0; a = 255 }

abbrev pub cyan : Color
cyan = record { r = 0; g = 255; b = 255; a = 255 }

abbrev pub magenta : Color
magenta = record { r = 255; g = 0; b = 255; a = 255 }

abbrev pub gray : Color
gray = record { r = 128; g = 128; b = 128; a = 255 }

-- Every channel is a byte.
abbrev pub IsColor : Color → Type 0
IsColor c = (c.r < 256) × (c.g < 256) × (c.b < 256) × (c.a < 256)

-- `hex.trim_start_matches('#')` on the bytes of a text.
trim_start_hash : List ℕ → List ℕ
trim_start_hash [] = []
trim_start_hash (c ∷ cs) = if c == b'#' then trim_start_hash cs else c ∷ cs

-- `char::to_digit(16)` on an ASCII byte.
digit : ℕ → Option ℕ
digit c =
    if leb b'0' c && leb c b'9'
    then some (c - b'0')
    else if leb b'a' c && leb c b'f'
    then some (c - b'a' + 10)
    else if leb b'A' c && leb c b'F'
    then some (c - b'A' + 10)
    else none

-- `u8::from_str_radix` at radix 16 on a text of two bytes: a leading `+` is taken off.
parse_two : ℕ → ℕ → Option ℕ
unfolding digit
parse_two x y = elim (digit y) [
  | none ↦ none
  | some low ↦
      if x == b'+'
      then some low
      else elim (digit x) [ none ↦ none | some high ↦ some (high * 16 + low) ]
]

-- A slice `&hex[i..j]` panics unless both ends are in the text and between two characters.
is_boundary : List ℕ → ℕ → Bool
is_boundary s i = elim (get_elem? s i) [
  | none ↦ i == length s
  | some c ↦ not (leb 0x80 c && ltb c 0xC0)
]

-- `u8::from_str_radix(&hex[i..i + 2], 16).unwrap_or(255)`, where `none` is the panic of the slice.
slice_byte : List ℕ → ℕ → Option ℕ
unfolding parse_two is_boundary
slice_byte s i =
    if is_boundary s i && is_boundary s (i + 2)
    then elim (get_elem? s i) [
      | none ↦ none
      | some x ↦ elim (get_elem? s (i + 1)) [
        | none ↦ none
        | some y ↦ some (unwrap_or (parse_two x y) 255)
      ]
    ]
    else none

-- `Color::from_hex`; `none` is a panic.
pub from_hex : List ℕ → Option Color
unfolding with_alpha new
from_hex text = do
  let hex = trim_start_hash text
  r ← slice_byte hex 0
  g ← slice_byte hex 2
  b ← slice_byte hex 4
  if length hex == 8 then (do a ← slice_byte hex 6; some (with_alpha r g b a)) else some (new r g b)
