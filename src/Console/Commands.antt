-- ===== src/Console/Commands.antt =====
-- Colour sequences `ESC [ p ; ... ; p m` from their first byte to their last, in the parser of
-- core/src/output/console.rs.
use proka_kernel.Base.{
  All, List, Option, [], ap, arith, false, leb, length, length-append, length-take, map, refl, some,
  subst, take, true, ℕ, ◌%◌, ◌*◌, ◌++◌, ◌+◌, ◌-◌, ◌<◌, ◌==◌, ◌>>=◌, ◌^◌, ◌∙◌, ◌∷◌, ◌≡◌,
}
use proka_kernel.Color.{Color}
use proka_kernel.Console.{
  Console, ParseState, apply_all, collecting_params, dispatch, end_param, escape_bracket,
  handle_sgr, is_digit, max_ansi_params, normal, params_to, parse_ansi_command, print_char,
  print_string,
}
use proka_kernel.Console.Sequences.{
  Holds, IsDigits, Same, apply_all-sgr_all, collecting, digits_then, more_digits, push_param-pushed,
  pushed, pushed-Holds, pushed-Same, pushed-colors, recolored, sgr_all, value,
}

-- The text of a sequence's parameters and its end, before the text that follows.
pub params_text : List ℕ → List (List ℕ) → List ℕ → List ℕ
params_text ds [] rest = digits_then ds (b'm' ∷ rest)
params_text ds (es ∷ more) rest = digits_then ds (b';' ∷ params_text es more rest)

pub sequence : List ℕ → List (List ℕ) → List ℕ → List ℕ
sequence ds more rest = 0x1B ∷ b'[' ∷ params_text ds more rest

abbrev pub colors_of : Console → Color × Color
colors_of s = (s.fg_color, s.bg_color)

-- What a sequence leaves behind.
pub record Recolors (s t : Console) (values : List ℕ) : Type 0 where
  pub same : Same s t
  pub colors : colors_of t ≡ sgr_all (colors_of s) (take 16 values)
  pub ready : t.parse_state ≡ normal
  pub sized : length t.ansi_params ≡ 16

bracketed : Console → Console
bracketed s = record s { parse_state = escape_bracket; current_param = 0 }

abbrev read : Console → ParseState → ℕ → Console
read s state v = record s { parse_state = state; current_param = v }

-- The digits of a parameter, up to the byte that ends it.
param_then :
    (s : Console) (ds : List ℕ) (c : ℕ) (rest : List ℕ)
    → IsDigits ds
    → is_digit c ≡ false
    → (state : ParseState) × (print_string (bracketed s) (digits_then ds (c ∷ rest))
        ≡ (end_param (read s state (value ds)) c >>= λ t. print_string t rest))
unfolding print_string print_char dispatch digits_then collecting bracketed
param_then s [] c rest h ends = (escape_bracket, rw (ends, print_string, print_char, dispatch) refl)
param_then s (d ∷ ds) c rest h ends =
    let digit : is_digit (b'0' + d) ≡ true = ground (arith, h.0) in
    let same : b'0' + d - b'0' ≡ d = omega arith in
    (
      collecting_params,
      rw (digit, same, print_string, print_char, dispatch)
          (more_digits s ((0 * 10 + d) % 2 ^ 16) ds (c ∷ rest) h.1
            ∙ rw (ends, print_string, print_char, dispatch) refl),
    )

read-Holds :
    (s : Console) (values : List ℕ) (state : ParseState) (v : ℕ)
    → Holds s values
    → Holds (read s state v) values
read-Holds s values state v h = record { sized = h.sized; counted = h.counted; stored = h.stored }

read-Same : (s t : Console) (state : ParseState) (v : ℕ) → Same s t → Same s (read t state v)
read-Same s t state v h = record {
  memory_same = h.memory_same;
  x_same = h.x_same;
  y_same = h.y_same;
  size_same = h.size_same;
  layout_same = h.layout_same;
}

-- The end of a sequence, with its parameters in the buffer.
handle_sgr-Holds :
    (s : Console) (values : List ℕ)
    → Holds s values
    → 0 < length (take 16 values)
    → handle_sgr s
      ≡ some (record (recolored s (sgr_all (s.fg_color, s.bg_color) (take 16 values))) {
        ansi_param_count = 0;
        current_param = 0;
      })
unfolding handle_sgr params_to
handle_sgr-Holds s values h some_values =
    let counted : (s.ansi_param_count == 0) ≡ false = ground (arith, h.counted) in
    let inside : leb s.ansi_param_count max_ansi_params ≡ true =
      ground (arith, h.counted, length-take 16 values) in
    rw (counted, inside)
      (ap (λ (t : Console). some (record t { ansi_param_count = 0; current_param = 0 }))
        (ap (λ (ps : List ℕ). apply_all s ps) h.stored ∙ apply_all-sgr_all s (take 16 values)))

-- The `m` and the `;` after a parameter.
end_param-command :
    (w : Console) (values : List ℕ)
    → Holds (pushed w) values
    → 0 < length (take 16 values)
    → let p = pushed w in
      end_param w b'm'
      ≡ some (record (recolored p (sgr_all (p.fg_color, p.bg_color) (take 16 values))) {
        ansi_param_count = 0;
        current_param = 0;
        parse_state = normal;
      })
unfolding end_param parse_ansi_command
end_param-command w values h some_values =
    rw (push_param-pushed w, handle_sgr-Holds (pushed w) values h some_values) refl

end_param-separator :
    (w : Console)
    → end_param w b';'
      ≡ some (record (pushed w) { current_param = 0; parse_state = escape_bracket })
unfolding end_param
end_param-separator w = rw (push_param-pushed w) refl

append-suc {ℓ} : {A : Type ℓ} (xs ys : List A) (y : A) → (xs ++ y ∷ []) ++ ys ≡ xs ++ y ∷ ys
append-suc [] ys y = refl
append-suc (x ∷ xs) ys y = ap (λ zs. x ∷ zs) (append-suc xs ys y)

take-nonempty : (xs : List ℕ) (y : ℕ) → 0 < length (take 16 (xs ++ y ∷ []))
take-nonempty xs y = omega (arith, length-take 16 (xs ++ y ∷ []), length-append xs (y ∷ []))

-- From a parameter on, with `values` already read.
finish_sequence :
    (s u : Console) (values ds rest : List ℕ) (more : List (List ℕ))
    → Same s u
    → colors_of u ≡ colors_of s
    → Holds u values
    → IsDigits ds
    → All IsDigits more
    → (t : Console) × (print_string (bracketed u) (params_text ds more rest) ≡ print_string t rest)
      × Recolors s t (values ++ map value (ds ∷ more))
unfolding params_text bracketed
finish_sequence s u values ds rest [] same colors h digits digits_more =
    let (state, e) = param_then u ds b'm' rest digits refl in
    let v = value ds in
    let w = read u state v in
    let p = pushed w in
    let kept = pushed-colors w in
    let held = pushed-Holds w values (read-Holds u values state v h) in
    let moved = pushed-Same s w (read-Same s u state v same) in
    let ended = end_param-command w (values ++ v ∷ []) held (take-nonempty values v) in
    let c = sgr_all (p.fg_color, p.bg_color) (take 16 (values ++ v ∷ [])) in
    (
      record (recolored p c) { ansi_param_count = 0; current_param = 0; parse_state = normal },
      e ∙ ap (λ (q : Option Console). q >>= λ t. print_string t rest) ended,
      record {
        same = record {
          memory_same = moved.memory_same;
          x_same = moved.x_same;
          y_same = moved.y_same;
          size_same = moved.size_same;
          layout_same = moved.layout_same;
        };
        colors =
            ap (λ (b : Color × Color). sgr_all b (take 16 (values ++ v ∷ [])))
              (rw (kept.0, kept.1) colors);
        ready = refl;
        sized = held.sized;
      },
    )
finish_sequence s u values ds rest (es ∷ more) same colors h digits digits_more =
    let (state, e) = param_then u ds b';' (params_text es more rest) digits refl in
    let v = value ds in
    let w = read u state v in
    let p = pushed w in
    let kept = pushed-colors w in
    let held = pushed-Holds w values (read-Holds u values state v h) in
    let moved = pushed-Same s w (read-Same s u state v same) in
    let (t, f, done) =
      finish_sequence s p (values ++ v ∷ []) es rest more moved (rw (kept.0, kept.1) colors) held
        digits_more.0 digits_more.1 in
    let next =
      ap (λ (q : Option Console). q >>= λ t. print_string t (params_text es more rest))
        (end_param-separator w) in
    (t, e ∙ next ∙ f, subst (Recolors s t) (append-suc values (map value (es ∷ more)) v) done)

opening :
    (s : Console) (text : List ℕ)
    → s.parse_state ≡ normal
    → print_string s (0x1B ∷ b'[' ∷ text)
      ≡ print_string
          (bracketed (record s { ansi_param_count = 0; parse_state = escape_bracket }))
          text
unfolding print_string print_char dispatch bracketed
opening s text mode =
    ap (λ (m : ParseState). dispatch m s 0x1B >>= λ (t : Console). print_string t (b'[' ∷ text))
      mode

-- A colour sequence of any number of parameters, met between characters, draws nothing and does not
-- move the cursor: it applies the first sixteen parameters to the two colours, an empty one as 0
-- and a large one modulo 2 ^ 16, and the parser is ready for the text that follows.
pub print_string-sequence :
    (s : Console) (ds rest : List ℕ) (more : List (List ℕ))
    → s.parse_state ≡ normal
    → length s.ansi_params ≡ 16
    → IsDigits ds
    → All IsDigits more
    → (t : Console) × (print_string s (sequence ds more rest) ≡ print_string t rest)
      × Recolors s t (map value (ds ∷ more))
unfolding print_string print_char dispatch sequence bracketed
print_string-sequence s ds rest more mode sized digits digits_more =
    let u : Console = record s { ansi_param_count = 0; parse_state = escape_bracket } in
    let start : Holds u [] = record { sized = sized; counted = refl; stored = refl } in
    let still : Same s u = record {
      memory_same = refl;
      x_same = refl;
      y_same = refl;
      size_same = (refl, refl);
      layout_same = (refl, refl);
    } in
    let (t, e, done) = finish_sequence s u [] ds rest more still refl start digits digits_more in
    (t, opening s (params_text ds more rest) mode ∙ e, done)
