-- ===== src/Console/Printing.antt =====
-- `print_normal_char` of core/src/output/console.rs as a whole: scrolling, line switches, drawing.
use proka_kernel.Base.{
  Bool-cases, Option-cases, add_word, arith, inl, inr, ltb, refl, some, some_inj, sub_word, subst,
  ℕ, ◌*◌, ◌+◌, ◌==◌, ◌∙◌, ◌≡◌, ◌≤◌,
}
use proka_kernel.Console.{
  Console, draw_glyph, font_h, font_w, make_room, print_normal_char, scroll_up, wrap_line,
}
use proka_kernel.Console.Drawing.{
  Inside, IsFramebuffer, Keeps, Keeps-IsFramebuffer, Keeps-moved, Keeps-refl, Keeps-trans,
  draw_glyph-Draws,
}

-- A sound framebuffer with the cursor on it, at its right edge or just below it.
abbrev pub IsScreen : Console → Type 0
IsScreen s = IsFramebuffer s × (s.y ≤ s.height) × (s.x ≤ s.width)

-- What printing characters changes: pixels and the cursor.
pub record Prints (s t : Console) : Type 0 where
  pub keeps : Keeps s t
  pub screen : IsScreen s → IsScreen t × Inside s t

Prints-refl : (s : Console) → Prints s s
Prints-refl s = record { keeps = Keeps-refl s; screen = λ v. (v, λ k h. refl) }

Prints-trans : {s t u : Console} → Prints s t → Prints t u → Prints s u
Prints-trans {s} {t} {u} p q = record {
  keeps = Keeps-trans p.keeps q.keeps;
  screen = λ v.
      let first = p.screen v in
      let second = q.screen first.0 in
      (second.0, λ k h. second.1 k (rw (p.keeps.height_kept, p.keeps.pitch_kept) h) ∙ first.1 k h);
}

mul_mono : (a b c : ℕ) → a ≤ b → a * c ≤ b * c
mul_mono a b c h = grind arith

-- The move and the clearing of a scroll end where the framebuffer ends.
scroll_up-Inside : (s : Console) → IsFramebuffer s → Inside s (scroll_up s)
unfolding scroll_up
scroll_up-Inside s f k h =
    let rows : 16 * s.pitch ≤ s.height * s.pitch = mul_mono 16 s.height s.pitch f.tall in
    ground (arith, f.fits, rows)

scroll_up-Keeps : (s : Console) → Keeps s (scroll_up s)
unfolding scroll_up
scroll_up-Keeps s = ground arith

-- A move of the cursor over a changed memory.
moved-Prints :
    (s : Console) (m : ℕ → ℕ) (x y : ℕ)
    → (IsScreen s
        → (y ≤ s.height) × (x ≤ s.width) × ((k : ℕ) → s.height * s.pitch ≤ k → m k ≡ s.memory k))
    → Prints s (record s { memory = m; x = x; y = y })
moved-Prints s m x y h = record {
  keeps = Keeps-moved s m x y;
  screen = λ v. ((Keeps-IsFramebuffer (Keeps-moved s m x y) v.0, (h v).0, (h v).1), (h v).2);
}

-- After `make_room` a row of text fits below the cursor.
make_room-Prints :
    (s : Console) → Prints s (make_room s) × (IsScreen s → (make_room s).y + 16 ≤ s.height)
unfolding make_room
make_room-Prints s = elim (Bool-cases (ltb (sub_word s.height s.y) font_h)) [
  | inr enough ↦ rw enough (Prints-refl s, λ v. ground (arith, v.0.height_fits))
  | inl full ↦ rw full (
    moved-Prints s (scroll_up s).memory s.x (sub_word s.height font_h)
        (λ v. (omega (arith, v.0.tall, v.0.height_fits), v.2, scroll_up-Inside s v.0)),
    λ v. omega (arith, v.0.tall, v.0.height_fits),
  )
]

-- A step that needs to know how its start was reached.
Prints-step :
    {s t u : Console}
    → Prints s t
    → Keeps t u
    → (IsScreen s → IsScreen t → IsScreen u × Inside t u)
    → Prints s u
Prints-step {s} {t} {u} p k f = record {
  keeps = Keeps-trans p.keeps k;
  screen = λ v.
      let first = p.screen v in
      let second = f v first.0 in
      (second.0, λ q h. second.1 q (rw (p.keeps.height_kept, p.keeps.pitch_kept) h) ∙ first.1 q h);
}

moved-IsScreen :
    (s : Console) (x y : ℕ)
    → IsScreen s
    → y ≤ s.height
    → x ≤ s.width
    → IsScreen (record s { x = x; y = y }) × Inside s (record s { x = x; y = y })
moved-IsScreen s x y v h wide =
    ((Keeps-IsFramebuffer (Keeps-moved s s.memory x y) v.0, h, wide), λ k lo. refl)

-- The line switch after the room has been made: then a character fits to the right of the cursor.
wrap_line-Prints :
    (s : Console)
    → Prints s (wrap_line (make_room s))
      × (IsScreen s → (wrap_line (make_room s)).x + 8 ≤ (wrap_line (make_room s)).width)
unfolding wrap_line
wrap_line-Prints s =
    let (p, room) = make_room-Prints s in
    let m = make_room s in
    elim (Bool-cases (ltb m.width (add_word m.x font_w))) [
      | inr fits ↦ rw fits (
        p,
        λ v.
            let w = (p.screen v).0 in
            ground (
              arith,
              fits,
              w.2,
              w.0.rows_fit,
              w.0.fits,
              mul_mono 1 m.height m.pitch (omega (arith, w.0.tall)),
            ),
      )
      | inl edge ↦ rw edge (
        Prints-step p (Keeps-moved m m.memory 0 (add_word m.y font_h)) (λ v w.
            moved-IsScreen m 0 (add_word m.y font_h) w
              (omega (arith, room v, v.0.height_fits, p.keeps.height_kept)) (omega arith)),
        λ v. omega (arith, (p.screen v).0.0.wide),
      )
    ]

newline-Prints :
    (s : Console) → Prints s (record (make_room s) { x = 0; y = add_word (make_room s).y font_h })
newline-Prints s =
    let (p, room) = make_room-Prints s in
    let m = make_room s in
    Prints-step p (Keeps-moved m m.memory 0 (add_word m.y font_h)) (λ v w.
      moved-IsScreen m 0 (add_word m.y font_h) w
        (omega (arith, room v, v.0.height_fits, p.keeps.height_kept)) (omega arith))

last_glyph :
    (s v : Console) (c : ℕ)
    → let u = wrap_line (make_room s) in
      draw_glyph u c u.x u.y 0 font_h ≡ some v → Prints s (record v { x = add_word v.x font_w })
last_glyph s v c h =
    let (p, room) = wrap_line-Prints s in
    let u = wrap_line (make_room s) in
    let d = draw_glyph-Draws u v c u.x u.y 0 font_h h in
    let moved = Keeps-trans d.keeps (Keeps-moved v v.memory (add_word v.x font_w) v.y) in
    Prints-step p moved (λ w0 w. (
      (
        Keeps-IsFramebuffer moved w.0,
        omega (arith, w.1, d.y_kept, d.keeps.height_kept),
        omega (arith, room w0, d.x_kept, d.keeps.width_kept, w.0.width_fits),
      ),
      d.inside w.0,
    ))

-- Whatever the character, printing it without a panic changes pixels and the cursor alone. On a
-- framebuffer with room for a character, four bytes to a pixel and whole rows, where the cursor is
-- not right of the right edge or below the lower one, it writes no byte outside the framebuffer,
-- and leaves the cursor within the two edges again.
pub print_normal_char-Prints : (s t : Console) (c : ℕ) → print_normal_char s c ≡ some t → Prints s t
unfolding print_normal_char
print_normal_char-Prints s t c h = elim (Bool-cases (c == 0x0A)) [
  | inl newline ↦ subst (Prints s) (some_inj (rw newline at h)) (newline-Prints s)
  | inr other ↦
      let u = wrap_line (make_room s) in
      elim (Option-cases (draw_glyph u c u.x u.y 0 font_h)) [
        | inl e ↦ cc (rw (other, e) at h)
        | inr (v, e) ↦ subst (Prints s) (some_inj (rw (other, e) at h)) (last_glyph s v c e)
      ]
]
