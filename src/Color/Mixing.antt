-- ===== src/Color/Mixing.antt =====
-- `mix`, `mix_alpha` and `invert` of core/src/output/color.rs.
use proka_kernel.Base.{ap, arith, max, min, refl, ℕ, ◌*◌, ◌+◌, ◌-◌, ◌/◌, ◌<◌, ◌≡◌, ◌≤◌}
use proka_kernel.Color.{Color, IsColor, invert, mix, mix_alpha, mix_channel}

mul_below : (x y : ℕ) → x < 256 → x * y ≤ 255 * y
mul_below x y h = grind arith

-- The 16-bit arithmetic does not overflow: a mixed channel is the weighted mean of the two, rounded
-- down.
mix_channel-exact :
    (x y alpha : ℕ)
    → x < 256
    → y < 256
    → alpha < 256
    → mix_channel x y alpha ≡ (x * alpha + y * (255 - alpha)) / 255
unfolding mix_channel
mix_channel-exact x y alpha hx hy ha =
    omega (arith, mul_below x alpha hx, mul_below y (255 - alpha) hy)

mul_mono : (x y k : ℕ) → x ≤ y → x * k ≤ y * k
mul_mono x y k h = grind arith

-- A weighted mean is between the bounds of its two values.
mean_between :
    (lo hi x y alpha beta : ℕ)
    → alpha + beta ≡ 255
    → lo ≤ x
    → lo ≤ y
    → x ≤ hi
    → y ≤ hi
    → (lo ≤ (x * alpha + y * beta) / 255) × ((x * alpha + y * beta) / 255 ≤ hi)
mean_between lo hi x y alpha beta e lx ly hx hy =
    let low : lo * alpha + lo * beta ≡ lo * 255 = omega (arith, ap (λ (t : ℕ). lo * t) e) in
    let high : hi * alpha + hi * beta ≡ hi * 255 = omega (arith, ap (λ (t : ℕ). hi * t) e) in
    (
      omega (arith, low, mul_mono lo x alpha lx, mul_mono lo y beta ly),
      omega (arith, high, mul_mono x hi alpha hx, mul_mono y hi beta hy),
    )

channel_between :
    (x y alpha : ℕ)
    → x < 256
    → y < 256
    → alpha < 256
    → (min x y ≤ mix_channel x y alpha) × (mix_channel x y alpha ≤ max x y)
channel_between x y alpha hx hy ha = rw (mix_channel-exact x y alpha hx hy ha) (
    mean_between (min x y) (max x y) x y alpha (255 - alpha) (omega arith) (omega arith)
      (omega arith) (omega arith) (omega arith))

-- For channels and an alpha that are bytes, a mixed channel lies between the two that it is mixed from, and the alpha is the weight.
mix-between :
    (c d : Color) (alpha : ℕ)
    → IsColor c
    → IsColor d
    → alpha < 256
    → let m = mix c d alpha in
      ((min c.r d.r ≤ m.r) × (m.r ≤ max c.r d.r))
      × ((min c.g d.g ≤ m.g) × (m.g ≤ max c.g d.g))
      × ((min c.b d.b ≤ m.b) × (m.b ≤ max c.b d.b))
      × (m.a ≡ alpha)
unfolding mix
mix-between c d alpha hc hd ha = (
  channel_between c.r d.r alpha (omega arith) (omega arith) ha,
  channel_between c.g d.g alpha (omega arith) (omega arith) ha,
  channel_between c.b d.b alpha (omega arith) (omega arith) ha,
  refl,
)

-- Full weight gives the first colour's channels and no weight the second's.
pub mix_ends :
    (c d : Color)
    → IsColor c
    → IsColor d
    → (mix c d 255 ≡ mix_alpha c 255) × (mix c d 0 ≡ mix_alpha d 0)
unfolding mix mix_alpha
mix_ends c d hc hd = (ground arith, ground arith)

-- Inverting twice gives an opaque colour back.
invert-invert : (c : Color) → IsColor c → c.a ≡ 255 → invert (invert c) ≡ c
unfolding invert
invert-invert c h e = ground arith
