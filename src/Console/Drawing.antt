-- ===== src/Console/Drawing.antt =====
-- The glyph loops of `print_normal_char` in core/src/output/console.rs.
use proka_kernel.Base.{
  Bool, Bool-cases, List, Option-cases, [], add_word, arith, bit_and, get_elem?, get_elem?-length,
  get_elem?-some, inl, inr, length, ltb, mul_word, none, not, refl, some, some_inj, subst, suc,
  true, word, zero, ℕ, ◌&&◌, ◌*◌, ◌+◌, ◌/◌, ◌<◌, ◌==◌, ◌^◌, ◌∙◌, ◌∷◌, ◌≡◌, ◌≤◌,
}
use proka_kernel.Console.{Console, draw_glyph, draw_line, draw_pixel, font_w, glyph_bit, write_u32}
use proka_kernel.Console.Font.{font8x16}

-- What drawing leaves alone.
pub record Keeps (s t : Console) : Type 0 where
  pub width_kept : t.width ≡ s.width
  pub height_kept : t.height ≡ s.height
  pub pitch_kept : t.pitch ≡ s.pitch
  pub bpp_kept : t.bpp ≡ s.bpp
  pub fg_kept : t.fg_color ≡ s.fg_color
  pub bg_kept : t.bg_color ≡ s.bg_color
  pub state_kept : t.parse_state ≡ s.parse_state
  pub params_kept : t.ansi_params ≡ s.ansi_params
  pub count_kept : t.ansi_param_count ≡ s.ansi_param_count
  pub current_kept : t.current_param ≡ s.current_param

pub Keeps-moved :
    (s : Console) (m : ℕ → ℕ) (x y : ℕ) → Keeps s (record s { memory = m; x = x; y = y })
Keeps-moved s m x y = record {
  width_kept = refl;
  height_kept = refl;
  pitch_kept = refl;
  bpp_kept = refl;
  fg_kept = refl;
  bg_kept = refl;
  state_kept = refl;
  params_kept = refl;
  count_kept = refl;
  current_kept = refl;
}

pub Keeps-refl : (s : Console) → Keeps s s
Keeps-refl s = Keeps-moved s s.memory s.x s.y

pub Keeps-trans : {s t u : Console} → Keeps s t → Keeps t u → Keeps s u
Keeps-trans h k = ground arith

-- The framebuffer's geometry: four bytes to a pixel, room for a character, whole rows, and an
-- address range that fits.
pub record IsFramebuffer (s : Console) : Type 0 where
  pub four_bytes : s.bpp ≡ 4
  pub tall : 16 ≤ s.height
  pub rows_fit : s.width * 4 ≤ s.pitch
  pub fits : s.height * s.pitch + s.pitch < word
  pub height_fits : s.height < word
  pub width_fits : s.width < word
  pub wide : 8 ≤ s.width

-- Bytes past the framebuffer are as before.
abbrev pub Inside : Console → Console → Type 0
Inside s t = (k : ℕ) → s.height * s.pitch ≤ k → t.memory k ≡ s.memory k

pub Keeps-IsFramebuffer : {s t : Console} → Keeps s t → IsFramebuffer s → IsFramebuffer t
Keeps-IsFramebuffer k v = record {
  four_bytes = k.bpp_kept ∙ v.four_bytes;
  tall = rw k.height_kept v.tall;
  rows_fit = rw (k.width_kept, k.pitch_kept) v.rows_fit;
  fits = rw (k.height_kept, k.pitch_kept) v.fits;
  height_fits = rw k.height_kept v.height_fits;
  width_fits = rw k.width_kept v.width_fits;
  wide = rw k.width_kept v.wide;
}

-- The last byte of a visible pixel lies in the framebuffer.
pixel_inside :
    (w h pitch px py : ℕ) → px < w → py < h → w * 4 ≤ pitch → py * pitch + px * 4 + 4 ≤ h * pitch
pixel_inside w h pitch px py hx hy fit =
    let row : (py + 1) * pitch ≤ h * pitch = mul_le (py + 1) h pitch (omega arith) in omega arith
  where
    mul_le : (a b c : ℕ) → a ≤ b → a * c ≤ b * c
    mul_le a b c h = grind arith

all_rows : List (List ℕ) → Bool
all_rows [] = true
all_rows (r ∷ rs) = (length r == 16) && all_rows rs

font_rows : all_rows font8x16 ≡ true
unfolding all_rows font8x16
font_rows = refl

font_length : length font8x16 ≡ 128
unfolding font8x16
font_length = refl

row_length :
    (rs : List (List ℕ)) (c : ℕ) {r : List ℕ}
    → all_rows rs ≡ true
    → get_elem? rs c ≡ some r
    → length r ≡ 16
unfolding all_rows
row_length [] c h e = cc
row_length (x ∷ rs) zero h e = ground arith
row_length (x ∷ rs) (suc c) h e = row_length rs c (ground arith) e

-- Every ASCII character has a glyph of 16 rows.
pub glyph_bit-some :
    (c line i : ℕ) → c < 128 → line < 16 → (b : Bool) × (glyph_bit c line i ≡ some b)
unfolding glyph_bit
glyph_bit-some c line i hc hl =
    let (rows, e) = get_elem?-some font8x16 c (omega (arith, font_length)) in
    let (row, f) = get_elem?-some rows line (omega (arith, row_length font8x16 c font_rows e)) in
    (not (bit_and row (0x80 / 2 ^ i) == 0), rw (e, f, glyph_bit) refl)

-- A character past ASCII has none.
glyph_bit-none : (c line i : ℕ) → 128 ≤ c → glyph_bit c line i ≡ none
unfolding glyph_bit
glyph_bit-none c line i h = elim (Option-cases (get_elem? font8x16 c)) [
  | inl e ↦ rw (e, glyph_bit) refl
  | inr (r, e) ↦ absurd (omega (arith, font_length, get_elem?-length font8x16 c e))
]

-- One drawing step or several.
pub record Draws (s t : Console) : Type 0 where
  pub keeps : Keeps s t
  pub x_kept : t.x ≡ s.x
  pub y_kept : t.y ≡ s.y
  pub inside : IsFramebuffer s → Inside s t

Draws-refl : (s : Console) → Draws s s
Draws-refl s = record { keeps = Keeps-refl s; x_kept = refl; y_kept = refl; inside = λ v k h. refl }

Draws-trans : {s t u : Console} → Draws s t → Draws t u → Draws s u
Draws-trans {s} {t} {u} d e = record {
  keeps = Keeps-trans d.keeps e.keeps;
  x_kept = e.x_kept ∙ d.x_kept;
  y_kept = e.y_kept ∙ d.y_kept;
  inside = λ v k h.
      e.inside (Keeps-IsFramebuffer d.keeps v) k (rw (d.keeps.height_kept, d.keeps.pitch_kept) h)
      ∙ d.inside v k h;
}

-- The console after a pixel's write.
abbrev put_pixel : Console → ℕ → ℕ → ℕ → Console
put_pixel s px py v = record s {
  memory = write_u32 s.memory (add_word (mul_word py s.pitch) (mul_word px s.bpp)) v;
}

put_pixel-inside :
    (s : Console) (px py v k : ℕ)
    → IsFramebuffer s
    → px < s.width
    → py < s.height
    → s.height * s.pitch ≤ k
    → (put_pixel s px py v).memory k ≡ s.memory k
unfolding write_u32
put_pixel-inside s px py v k f hx hy hk =
    let end = pixel_inside s.width s.height s.pitch px py hx hy f.rows_fit in
    let off : add_word (mul_word py s.pitch) (mul_word px s.bpp) ≡ py * s.pitch + px * 4 =
      rw f.four_bytes (omega (arith, end, f.fits)) in
    rw off (ground (arith, end))

put_pixel-Draws :
    (s : Console) (px py v : ℕ) → px < s.width → py < s.height → Draws s (put_pixel s px py v)
put_pixel-Draws s px py v hx hy = record {
  keeps = ground arith;
  x_kept = refl;
  y_kept = refl;
  inside = λ f k hk. put_pixel-inside s px py v k f hx hy hk;
}

-- The three ways a round ends: nothing visible, a panic, or a pixel.
draw_pixel-Draws :
    (s t : Console) (c sx sy line i : ℕ) → draw_pixel s c sx sy line i ≡ some t → Draws s t
unfolding draw_pixel
draw_pixel-Draws s t c sx sy line i h =
    elim (Bool-cases (ltb (add_word sx i) s.width && ltb (add_word sy line) s.height)) [
      | inr out ↦ subst (Draws s) (some_inj (rw out at h)) (Draws-refl s)
      | inl seen ↦ elim (Option-cases (glyph_bit c line i)) [
        | inl e ↦ cc (rw (seen, e, draw_pixel) at h)
        | inr (b, e) ↦
            subst (Draws s) (some_inj (rw (seen, e, draw_pixel) at h))
              (put_pixel-Draws s (add_word sx i) (add_word sy line) _ (ground arith) (ground arith))
      ]
    ]

draw_line-Draws :
    (s t : Console) (c sx sy line i n : ℕ) → draw_line s c sx sy line i n ≡ some t → Draws s t
unfolding draw_line
draw_line-Draws s t c sx sy line i zero h = subst (Draws s) (some_inj h) (Draws-refl s)
draw_line-Draws s t c sx sy line i (suc n) h = elim (Option-cases (draw_pixel s c sx sy line i)) [
  | inl e ↦ cc (rw e at h)
  | inr (u, e) ↦
      Draws-trans (draw_pixel-Draws s u c sx sy line i e)
        (draw_line-Draws u t c sx sy line (i + 1) n (rw e at h))
]

pub draw_glyph-Draws :
    (s t : Console) (c sx sy line n : ℕ) → draw_glyph s c sx sy line n ≡ some t → Draws s t
unfolding draw_glyph
draw_glyph-Draws s t c sx sy line zero h = subst (Draws s) (some_inj h) (Draws-refl s)
draw_glyph-Draws s t c sx sy line (suc n) h =
    elim (Option-cases (draw_line s c sx sy line 0 font_w)) [
      | inl e ↦ cc (rw (e, draw_line) at h)
      | inr (u, e) ↦
          Draws-trans (draw_line-Draws s u c sx sy line 0 font_w e)
            (draw_glyph-Draws u t c sx sy (line + 1) n (rw (e, draw_line) at h))
    ]
