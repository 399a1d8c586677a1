-- ===== src/Console/Ascii.antt =====
-- ASCII text in core/src/output/console.rs, and the right edge of the last row.
use proka_kernel.Base.{
  All, Bool-cases, List, [], add_word, ap, arith, false, if◌then◌else◌, inl, inr, leb, ltb, refl,
  some, sub_word, suc, true, word, zero, ℕ, ◌&&◌, ◌+◌, ◌<◌, ◌==◌, ◌∙◌, ◌∷◌, ◌≡◌, ◌≢◌, ◌≤◌,
}
use proka_kernel.Console.{
  Console, ParseState, apply_all, collecting_params, dispatch, draw_glyph, draw_line, draw_pixel,
  end_param, escape, escape_bracket, font_h, font_w, handle_cursor_down, handle_cursor_left,
  handle_cursor_right, handle_cursor_up, handle_sgr, is_digit, make_room, max_ansi_params,
  next_param, normal, params_to, parse_ansi_command, print_char, print_normal_char, print_string,
  wrap_line,
}
use proka_kernel.Console.Drawing.{glyph_bit-some}
use proka_kernel.Console.Printing.{print_normal_char-Prints}
use proka_kernel.Console.Sequences.{apply_all-sgr_all, push_param-pushed, pushed}

some_result {ℓ} : {A : Type ℓ} (a : A) → (b : A) × (some a ≡ some b)
some_result a = (a, refl)

draw_pixel-some :
    (s : Console) (c sx sy line i : ℕ)
    → c < 128
    → line < 16
    → (t : Console) × (draw_pixel s c sx sy line i ≡ some t)
unfolding draw_pixel
draw_pixel-some s c sx sy line i hc hl =
    let (b, e) = glyph_bit-some c line i hc hl in
    elim (Bool-cases (ltb (add_word sx i) s.width && ltb (add_word sy line) s.height)) [
      | inr out ↦ rw out (some_result s)
      | inl seen ↦ rw (seen, e, draw_pixel) (some_result _)
    ]

draw_line-some :
    (s : Console) (c sx sy line i n : ℕ)
    → c < 128
    → line < 16
    → (t : Console) × (draw_line s c sx sy line i n ≡ some t)
unfolding draw_line
draw_line-some s c sx sy line i zero hc hl = (s, refl)
draw_line-some s c sx sy line i (suc n) hc hl =
    let (t, e) = draw_pixel-some s c sx sy line i hc hl in
    let (u, f) = draw_line-some t c sx sy line (i + 1) n hc hl in (u, rw e f)

draw_glyph-some :
    (s : Console) (c sx sy line n : ℕ)
    → c < 128
    → line + n ≤ 16
    → (t : Console) × (draw_glyph s c sx sy line n ≡ some t)
unfolding draw_glyph
draw_glyph-some s c sx sy line zero hc hl = (s, refl)
draw_glyph-some s c sx sy line (suc n) hc hl =
    let (t, e) = draw_line-some s c sx sy line 0 font_w hc (omega arith) in
    let (u, f) = draw_glyph-some t c sx sy (line + 1) n hc (omega arith) in (u, rw (e, draw_line) f)

pub print_normal_char-some :
    (s : Console) (c : ℕ) → c < 128 → (t : Console) × (print_normal_char s c ≡ some t)
unfolding print_normal_char
print_normal_char-some s c hc = elim (Bool-cases (c == 0x0A)) [
  | inl newline ↦ rw newline (some_result _)
  | inr other ↦
      let u = wrap_line (make_room s) in
      let (v, e) = draw_glyph-some u c u.x u.y 0 font_h hc (omega arith) in
      rw (other, e) (some_result _)
]

-- The states of the parser as an automaton over bytes: what starts a sequence and what ends it.
unfoldable pub next_state : ParseState → ℕ → ParseState
next_state normal c = if c == 0x1B then escape else normal
next_state escape c = if c == b'[' then escape_bracket else normal
next_state escape_bracket c =
    if is_digit c then collecting_params else if c == b';' then escape_bracket else normal
next_state collecting_params c =
    if is_digit c then collecting_params else if c == b';' then escape_bracket else normal

unfoldable pub states : ParseState → List ℕ → ParseState
states p [] = p
states p (c ∷ cs) = states (next_state p c) cs

-- A character keeps the number of parameters and the parser's state.
print_normal_char-kept :
    (s : Console) (c : ℕ)
    → c < 128
    → (t : Console) × (print_normal_char s c ≡ some t)
      × (t.ansi_param_count ≡ s.ansi_param_count)
      × (t.parse_state ≡ s.parse_state)
print_normal_char-kept s c hc =
    let (t, e) = print_normal_char-some s c hc in
    let same = (print_normal_char-Prints s t c e).keeps in (t, e, same.count_kept, same.state_kept)

apply_all-count :
    (s : Console) (ps : List ℕ) → (apply_all s ps).ansi_param_count ≡ s.ansi_param_count
apply_all-count s ps = ap (λ (t : Console). t.ansi_param_count) (apply_all-sgr_all s ps)

pushed-count : (s : Console) → s.ansi_param_count ≤ 16 → (pushed s).ansi_param_count ≤ 16
unfolding pushed
pushed-count s h = elim (Bool-cases (ltb s.ansi_param_count max_ansi_params)) [
  | inl room ↦ rw room (ground arith)
  | inr full ↦ rw full h
]

handle_sgr-some :
    (s : Console)
    → s.ansi_param_count ≤ 16
    → (t : Console) × (handle_sgr s ≡ some t) × (t.ansi_param_count ≤ 16)
unfolding handle_sgr params_to
handle_sgr-some s h =
    let count : ℕ = if s.ansi_param_count == 0 then 1 else s.ansi_param_count in
    let inside : leb count max_ansi_params ≡ true = ground arith in rw inside (_, refl, omega arith)

parse_ansi_command-some :
    (s : Console) (c : ℕ)
    → s.ansi_param_count ≤ 16
    → (t : Console) × (parse_ansi_command s c ≡ some t) × (t.ansi_param_count ≤ 16)
unfolding parse_ansi_command handle_cursor_up handle_cursor_down handle_cursor_right
    handle_cursor_left
parse_ansi_command-some s c h = elim (Bool-cases (c == b'm')) [
  | inl colors ↦ rw colors (handle_sgr-some s h)
  | inr other ↦ rw other (s, ground arith, h)
]

-- The end of a parameter, in either state of a sequence.
end_param-some :
    (s : Console) (c : ℕ)
    → s.ansi_param_count ≤ 16
    → (t : Console) × (end_param s c ≡ some t)
      × (t.ansi_param_count ≤ 16)
      × (t.parse_state ≡ (if c == b';' then escape_bracket else normal))
unfolding end_param
end_param-some s c h =
    let bound = pushed-count s h in
    elim (Bool-cases (c == b';')) [
      | inl e ↦ rw (push_param-pushed s, e) (_, refl, bound, refl)
      | inr e ↦
          let (t, f, kept) = parse_ansi_command-some (pushed s) c bound in
          rw e (record t { parse_state = normal }, rw (push_param-pushed s, f) refl, kept, refl)
    ]

print_char-some :
    (s : Console) (c : ℕ)
    → c < 128
    → s.ansi_param_count ≤ 16
    → (t : Console) × (print_char s c ≡ some t)
      × (t.ansi_param_count ≤ 16)
      × (t.parse_state ≡ next_state s.parse_state c)
unfolding print_char next_state
print_char-some s c hc h = by_state s.parse_state s h refl
  where
    by_state :
        (p : ParseState) (s : Console)
        → s.ansi_param_count ≤ 16
        → s.parse_state ≡ p
        → (t : Console) × (dispatch p s c ≡ some t)
          × (t.ansi_param_count ≤ 16)
          × (t.parse_state ≡ next_state p c)
    by_state normal s h at = elim (Bool-cases (c == 0x1B)) [
      | inl e ↦ rw e (record s { parse_state = escape }, refl, h, refl)
      | inr e ↦
          let (t, f, kept, state) = print_normal_char-kept s c hc in
          rw e (t, f, omega (arith, kept), state ∙ at)
    ]
    by_state escape s h at = elim (Bool-cases (c == b'[')) [
      | inl e ↦ rw e (
        record s { parse_state = escape_bracket; ansi_param_count = 0; current_param = 0 },
        refl,
        omega arith,
        refl,
      )
      | inr e ↦
          let (t, f, kept, state) =
            print_normal_char-kept (record s { parse_state = normal }) 0x1B (omega arith) in
          let (u, g, kept2, state2) = print_normal_char-kept t c hc in
          rw e (u, rw f g, omega (arith, kept, kept2), state2 ∙ state)
    ]
    by_state escape_bracket s h at = elim (Bool-cases (is_digit c)) [
      | inl e ↦ rw e (
        record s { current_param = next_param s c; parse_state = collecting_params },
        refl,
        h,
        refl,
      )
      | inr e ↦ rw (e, dispatch, next_state) (end_param-some s c h)
    ]
    by_state collecting_params s h at = elim (Bool-cases (is_digit c)) [
      | inl e ↦ rw e (record s { current_param = next_param s c }, refl, h, at)
      | inr e ↦ rw (e, dispatch, next_state) (end_param-some s c h)
    ]

-- An ASCII text is printed to its end without a panic by a console whose count of parameters is
-- within its array of sixteen, as it is from `init` on. The count is so afterwards, and the parser
-- has gone through the states of its automaton: `ESC` and `[` start a sequence, digits and `;` stay
-- in it, and any other byte leaves it.
pub print_string-some :
    (s : Console) (text : List ℕ)
    → s.ansi_param_count ≤ 16
    → All (λ c. c < 128) text
    → (t : Console) × (print_string s text ≡ some t)
      × (t.ansi_param_count ≤ 16)
      × (t.parse_state ≡ states s.parse_state text)
unfolding print_string states
print_string-some s [] within h = (s, refl, within, refl)
print_string-some s (c ∷ cs) within h =
    let (t, e, kept, state) = print_char-some s c h.0 within in
    let (u, f, last, states_on) = print_string-some t cs kept h.1 in
    (u, rw (e, print_char) f, last, states_on ∙ ap (λ (p : ParseState). states p cs) state)

draw_line-below :
    (s : Console) (c sx sy line i n : ℕ)
    → s.height ≤ add_word sy line
    → draw_line s c sx sy line i n ≡ some s
unfolding draw_line draw_pixel
draw_line-below s c sx sy line i zero h = refl
draw_line-below s c sx sy line i (suc n) h =
    let hidden : (ltb (add_word sx i) s.width && ltb (add_word sy line) s.height) ≡ false =
      ground arith in
    rw (hidden, draw_pixel) (draw_line-below s c sx sy line (i + 1) n h)

draw_glyph-below :
    (s : Console) (c sx sy line n : ℕ)
    → s.height ≤ sy
    → sy + line + n < word
    → draw_glyph s c sx sy line n ≡ some s
unfolding draw_glyph
draw_glyph-below s c sx sy line zero h fits = refl
draw_glyph-below s c sx sy line (suc n) h fits =
    rw (draw_line-below s c sx sy line 0 font_w (omega arith), draw_line)
      (draw_glyph-below s c sx sy (line + 1) n h (omega arith))

-- A character that has to switch lines on the last row of the screen is lost: nothing is drawn, and
-- only the cursor moves, to the place behind it on a row below the screen.
print_normal_char-lost :
    (s : Console) (c : ℕ)
    → s.y + 16 ≡ s.height
    → s.height + 32 < word
    → s.width < s.x + 8
    → s.x + 8 < word
    → c ≢ 0x0A
    → print_normal_char s c ≡ some (record s { x = 8; y = s.height })
unfolding print_normal_char make_room wrap_line
print_normal_char-lost s c last fits edge hx other =
    let room : ltb (sub_word s.height s.y) font_h ≡ false = ground arith in
    let printed : (c == 0x0A) ≡ false = ground arith in
    let turn : ltb s.width (add_word s.x font_w) ≡ true = ground arith in
    let below : add_word s.y font_h ≡ s.height = omega arith in
    let u : Console = record s { x = 0; y = s.height } in
    rw
      (
        room,
        printed,
        turn,
        below,
        draw_glyph-below u c 0 s.height 0 font_h (omega arith) (omega arith),
      )
      refl
