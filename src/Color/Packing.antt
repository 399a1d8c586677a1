-- ===== src/Color/Packing.antt =====
-- `to_u32` and `from_u32` of core/src/output/color.rs.
use proka_kernel.Base.{arith, bit_or-add, false, true, ◌*◌, ◌+◌, ◌^◌, ◌≡◌}
use proka_kernel.Color.{Color, IsColor, from_u32, new, shl32, to_u32}

-- The packed words as sums: the channels do not overlap.
to_u32-alpha :
    (c : Color) → IsColor c → to_u32 c true ≡ c.a * 2 ^ 24 + c.r * 2 ^ 16 + c.g * 2 ^ 8 + c.b
unfolding to_u32
to_u32-alpha c h =
    let top = c.a * 2 ^ 24 + c.r * 2 ^ 16 in
    rw
      (
        bit_or-add 24 c.a (shl32 c.r 16) (shl32 c.a 24) (omega arith) (omega arith),
        bit_or-add 16 (c.a * 256 + c.r) (shl32 c.g 8) (shl32 c.a 24 + shl32 c.r 16) (omega arith)
            (omega arith),
        bit_or-add 8 (c.a * 65536 + c.r * 256 + c.g) c.b (shl32 c.a 24 + shl32 c.r 16 + shl32 c.g 8)
            (omega arith) (omega arith),
      )
      (omega arith)

to_u32-opaque : (c : Color) → IsColor c → to_u32 c false ≡ c.r * 2 ^ 16 + c.g * 2 ^ 8 + c.b
unfolding to_u32
to_u32-opaque c h =
    rw
      (
        bit_or-add 16 c.r (shl32 c.g 8) (shl32 c.r 16) (omega arith) (omega arith),
        bit_or-add 8 (c.r * 256 + c.g) c.b (shl32 c.r 16 + shl32 c.g 8) (omega arith) (omega arith),
      )
      (omega arith)

-- A packed colour with alpha determines the colour, where the channels are bytes.
to_u32-injective : (c d : Color) → IsColor c → IsColor d → to_u32 c true ≡ to_u32 d true → c ≡ d
to_u32-injective c d hc hd e =
    let p = to_u32-alpha c hc in
    let q = to_u32-alpha d hd in
    let er : c.r ≡ d.r = omega arith in
    let eg : c.g ≡ d.g = omega arith in
    let eb : c.b ≡ d.b = omega arith in
    let ea : c.a ≡ d.a = omega arith in λ i. record { r = er i; g = eg i; b = eb i; a = ea i }

-- `from_u32` reads the channels one byte higher than `to_u32` writes them: after packing without
-- alpha it gives red 0, and red and green in the places of green and blue.
from_u32-to_u32 :
    (c : Color)
    → IsColor c
    → (from_u32 (to_u32 c false) ≡ new 0 c.r c.g)
      × (from_u32 (to_u32 c true) ≡ new c.a c.r c.g)
      × (from_u32 (to_u32 c false * 256) ≡ new c.r c.g c.b)
unfolding from_u32
from_u32-to_u32 c h =
    let p = to_u32-alpha c h in
    let q = to_u32-opaque c h in (ground arith, ground arith, ground arith)
