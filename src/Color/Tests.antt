-- ===== src/Color/Tests.antt =====
-- The colours of core/src/output/color.rs at concrete values.
use proka_kernel.Base.{[], arith, some, ◌∷◌, ◌≡◌}
use proka_kernel.Color.{Color, IsColor, from_hex, new}
use proka_kernel.Color.Hex.{from_hex-hex_text, hex_text}

abbrev rose : Color
rose = record { r = 0x12; g = 0x34; b = 0x56; a = 0x78 }

rose-IsColor : IsColor rose
rose-IsColor = (omega arith, omega arith, omega arith, omega arith)

from_hex-hex_text_example :
    (from_hex (hex_text 1 (0x12 ∷ 0x34 ∷ 0x56 ∷ [])) ≡ some (new 0x12 0x34 0x56))
    × (from_hex (hex_text 1 (0x12 ∷ 0x34 ∷ 0x56 ∷ 0x78 ∷ [])) ≡ some rose)
from_hex-hex_text_example = from_hex-hex_text 1 rose rose-IsColor
