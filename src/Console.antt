-- ===== src/Console.antt =====
-- core/src/output/console.rs: the framebuffer console and its parser of ANSI sequences.
mod Types
pub mod Font
pub mod Drawing
pub mod Printing
pub mod Ascii
pub mod Sequences
pub mod Commands
mod Tests
pub use Types.*
use proka_kernel.Base.{
  Bool, List, Option, [], add_word, bit_and, get_elem?, if◌then◌else◌, leb, ltb, mul_word, none,
  not, replicate, set, some, sub_word, suc, take, zero, ℕ, ◌%◌, ◌&&◌, ◌*◌, ◌+◌, ◌-◌, ◌/◌, ◌==◌,
  ◌>>=◌, ◌^◌, ◌∷◌,
}
use proka_kernel.Color.{Color, black, blue, cyan, green, magenta, red, to_u32, white, yellow}
use proka_kernel.Console.Font.{font8x16}

pub init : Framebuffer → Console
init f = record {
  memory = f.contents;
  width = f.width;
  height = f.height;
  pitch = f.pitch;
  bpp = f.bpp;
  x = 0;
  y = 0;
  fg_color = white;
  bg_color = black;
  parse_state = normal;
  ansi_params = replicate max_ansi_params 0;
  ansi_param_count = 0;
  current_param = 0;
}

-- `ptr::copy` of the lower part to the top, then zeros over the last text row.
pub scroll_up : Console → Console
scroll_up s = record s { memory = moved }
  where
    scroll_bytes : ℕ
    scroll_bytes = mul_word font_h s.pitch

    total_bytes : ℕ
    total_bytes = mul_word s.height s.pitch

    kept : ℕ
    kept = sub_word total_bytes scroll_bytes

    moved : ℕ → ℕ
    moved k =
        if ltb k kept
        then s.memory (k + scroll_bytes)
        else if ltb k (kept + scroll_bytes)
        then 0
        else s.memory k

-- A little-endian `u32` at an offset.
pub write_u32 : (ℕ → ℕ) → ℕ → ℕ → ℕ → ℕ
write_u32 m off v k =
    if k == off
    then v % 256
    else if k == off + 1
    then v / 256 % 256
    else if k == off + 2
    then v / 65536 % 256
    else if k == off + 3
    then v / 16777216 % 256
    else m k

-- The bit of the glyph's row under the mask `0x80 >> i`; `none` is the panic of `FONT8X16[c]`.
pub glyph_bit : ℕ → ℕ → ℕ → Option Bool
unfolding font8x16
glyph_bit c line i = elim (get_elem? font8x16 c) [
  | none ↦ none
  | some rows ↦ elim (get_elem? rows line) [
    | none ↦ none
    | some row ↦ some (not (bit_and row (0x80 / 2 ^ i) == 0))
  ]
]

-- One round of the inner loop.
pub draw_pixel : Console → ℕ → ℕ → ℕ → ℕ → ℕ → Option Console
draw_pixel s c start_x start_y line i =
    let is_alpha = s.bpp == 4 in
    let px = add_word start_x i in
    let py = add_word start_y line in
    if ltb px s.width && ltb py s.height
    then elim (glyph_bit c line i) [
      | none ↦ none
      | some lit ↦
          let offset = add_word (mul_word py s.pitch) (mul_word px s.bpp) in
          some (record s {
            memory =
                write_u32 s.memory offset
                  (to_u32 (if lit then s.fg_color else s.bg_color) is_alpha);
          })
    ]
    else some s

-- `for i in i..i + n`.
pub draw_line : Console → ℕ → ℕ → ℕ → ℕ → ℕ → ℕ → Option Console
draw_line s c start_x start_y line i zero = some s
draw_line s c start_x start_y line i (suc n) =
    draw_pixel s c start_x start_y line i >>= λ t. draw_line t c start_x start_y line (i + 1) n

-- `for line in line..line + n`.
pub draw_glyph : Console → ℕ → ℕ → ℕ → ℕ → ℕ → Option Console
unfolding draw_line
draw_glyph s c start_x start_y line zero = some s
draw_glyph s c start_x start_y line (suc n) =
    draw_line s c start_x start_y line 0 font_w >>= λ t. draw_glyph t c start_x start_y (line + 1) n

-- The scroll at the head of `print_normal_char`.
pub make_room : Console → Console
unfolding scroll_up
make_room s =
    if ltb (sub_word s.height s.y) font_h
    then record (scroll_up s) { y = sub_word s.height font_h }
    else s

-- The line switch at the right edge.
pub wrap_line : Console → Console
wrap_line s =
    if ltb s.width (add_word s.x font_w) then record s { x = 0; y = add_word s.y font_h } else s

-- `none` is a panic.
pub print_normal_char : Console → ℕ → Option Console
print_normal_char s c =
    let t = make_room s in
    if c == 0x0A
    then some (record t { x = 0; y = add_word t.y font_h })
    else let u = wrap_line t in
      draw_glyph u c u.x u.y 0 font_h >>= λ v. some (record v { x = add_word v.x font_w })

-- `self.ansi_params[n] = v` on the array of sixteen: `none` is the panic out of bounds.
pub store_param : List ℕ → ℕ → ℕ → Option (List ℕ)
store_param params n v = if ltb n max_ansi_params then some (set params n v) else none

-- `&self.ansi_params[..n]`: `none` is the panic.
pub params_to : List ℕ → ℕ → Option (List ℕ)
params_to params n = if leb n max_ansi_params then some (take n params) else none

-- A full buffer drops the parameter.
pub push_param : Console → Option Console
unfolding store_param
push_param s =
    if ltb s.ansi_param_count max_ansi_params
    then elim (store_param s.ansi_params s.ansi_param_count s.current_param) [
      | none ↦ none
      | some params ↦ some (record s {
        ansi_params = params;
        ansi_param_count = s.ansi_param_count + 1;
        current_param = 0;
      })
    ]
    else some (record s { current_param = 0 })

-- The `match *param` of `handle_sgr`.
pub apply_sgr : Console → ℕ → Console
apply_sgr s param =
    if param == 0
    then record s { fg_color = white; bg_color = black }
    else if param == 30
    then record s { fg_color = black }
    else if param == 31
    then record s { fg_color = red }
    else if param == 32
    then record s { fg_color = green }
    else if param == 33
    then record s { fg_color = yellow }
    else if param == 34
    then record s { fg_color = blue }
    else if param == 35
    then record s { fg_color = magenta }
    else if param == 36
    then record s { fg_color = cyan }
    else if param == 37
    then record s { fg_color = white }
    else if param == 40
    then record s { bg_color = black }
    else if param == 41
    then record s { bg_color = red }
    else if param == 42
    then record s { bg_color = green }
    else if param == 43
    then record s { bg_color = yellow }
    else if param == 44
    then record s { bg_color = blue }
    else if param == 45
    then record s { bg_color = magenta }
    else if param == 46
    then record s { bg_color = cyan }
    else if param == 47
    then record s { bg_color = white }
    else s

-- `for param in &self.ansi_params[..count]`.
pub apply_all : Console → List ℕ → Console
unfolding apply_sgr
apply_all s [] = s
apply_all s (p ∷ ps) = apply_all (apply_sgr s p) ps

pub handle_sgr : Console → Option Console
unfolding apply_all params_to
handle_sgr s =
    let t =
      if s.ansi_param_count == 0 then record s { ansi_params = set s.ansi_params 0 0 } else s in
    let count : ℕ = if s.ansi_param_count == 0 then 1 else s.ansi_param_count in
    params_to t.ansi_params count >>= λ params.
    some (record (apply_all t params) { ansi_param_count = 0; current_param = 0 })

-- The cursor commands are not implemented yet and do nothing.
pub handle_cursor_up : Console → Console
handle_cursor_up s = s

pub handle_cursor_down : Console → Console
handle_cursor_down s = s

pub handle_cursor_right : Console → Console
handle_cursor_right s = s

pub handle_cursor_left : Console → Console
handle_cursor_left s = s

pub parse_ansi_command : Console → ℕ → Option Console
unfolding handle_sgr handle_cursor_up handle_cursor_down handle_cursor_right handle_cursor_left
parse_ansi_command s cmd =
    if cmd == b'm'
    then handle_sgr s
    else if cmd == b'A'
    then some (handle_cursor_up s)
    else if cmd == b'B'
    then some (handle_cursor_down s)
    else if cmd == b'C'
    then some (handle_cursor_right s)
    else if cmd == b'D'
    then some (handle_cursor_left s)
    else some s

-- `u8::is_ascii_digit`.
abbrev pub is_digit : ℕ → Bool
is_digit c = leb b'0' c && leb c b'9'

-- `current_param * 10 + (c - b'0')` on a `u16`.
abbrev pub next_param : Console → ℕ → ℕ
next_param s c = (s.current_param * 10 + (c - b'0')) % 2 ^ 16

-- A byte in `EscapeBracket` or `CollectingParams` that is no digit.
pub end_param : Console → ℕ → Option Console
unfolding push_param parse_ansi_command
end_param s c = push_param s >>= λ t.
    if c == b';'
    then some (record t { current_param = 0; parse_state = escape_bracket })
    else parse_ansi_command t c >>= λ u. some (record u { parse_state = normal })

-- `print_char`, by the parser's state.
pub dispatch : ParseState → Console → ℕ → Option Console
unfolding print_normal_char end_param
dispatch normal s c =
    if c == 0x1B then some (record s { parse_state = escape }) else print_normal_char s c
dispatch escape s c =
    if c == b'['
    then some (record s { parse_state = escape_bracket; ansi_param_count = 0; current_param = 0 })
    else print_normal_char (record s { parse_state = normal }) 0x1B >>= λ t. print_normal_char t c
dispatch escape_bracket s c =
    if is_digit c
    then some (record s { current_param = next_param s c; parse_state = collecting_params })
    else end_param s c
dispatch collecting_params s c =
    if is_digit c then some (record s { current_param = next_param s c }) else end_param s c

pub print_char : Console → ℕ → Option Console
unfolding dispatch
print_char s c = dispatch s.parse_state s c

-- Over the bytes of the text.
pub print_string : Console → List ℕ → Option Console
unfolding print_char
print_string s [] = some s
print_string s (c ∷ cs) = print_char s c >>= λ t. print_string t cs

pub set_fg_color : Console → Color → Console
set_fg_color s c = record s { fg_color = c }

pub set_bg_color : Console → Color → Console
set_bg_color s c = record s { bg_color = c }

pub get_fg_color : Console → Color
get_fg_color s = s.fg_color

pub get_bg_color : Console → Color
get_bg_color s = s.bg_color
