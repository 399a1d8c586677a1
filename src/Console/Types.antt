-- ===== src/Console/Types.antt =====
-- The state of core/src/output/console.rs.
use proka_kernel.Base.{List, ℕ}
use proka_kernel.Color.{Color}

-- `FONT_W`, `FONT_H` and `MAX_ANSI_PARAMS`.
abbrev pub font_w : ℕ
font_w = 8

abbrev pub font_h : ℕ
font_h = 16

abbrev pub max_ansi_params : ℕ
max_ansi_params = 16

pub data ParseState : Type 0 where
  normal escape escape_bracket collecting_params : ParseState

-- The framebuffer's bytes by their offset from `address`, and the fields of `Console`.
pub record Console : Type 0 where
  pub memory : ℕ → ℕ
  pub width : ℕ
  pub height : ℕ
  pub pitch : ℕ
  pub bpp : ℕ
  pub x : ℕ
  pub y : ℕ
  pub fg_color : Color
  pub bg_color : Color
  pub parse_state : ParseState
  pub ansi_params : List ℕ
  pub ansi_param_count : ℕ
  pub current_param : ℕ

-- The boot loader's description of the framebuffer.
pub record Framebuffer : Type 0 where
  pub contents : ℕ → ℕ
  pub width : ℕ
  pub height : ℕ
  pub pitch : ℕ
  pub bpp : ℕ
