-- ===== src/Console/Sequences.antt =====
-- The colours, the parameter buffer and the digits behind the sequences `ESC [ p ; ... ; p m` of
-- core/src/output/console.rs.
use proka_kernel.Base.{
  All, Bool-cases, List, [], ap, arith, get_or, if◌then◌else◌, inl, inr, leb, length, length-append,
  length-set, length-take, ltb, refl, set, some, suc, sym, take, true, zero, ℕ, ◌%◌, ◌&&◌, ◌*◌,
  ◌++◌, ◌+◌, ◌-◌, ◌<◌, ◌==◌, ◌^◌, ◌∙◌, ◌∷◌, ◌≡◌,
}
use proka_kernel.Color.{Color, black, blue, cyan, green, magenta, red, white, yellow}
use proka_kernel.Console.{
  Console, apply_all, apply_sgr, collecting_params, dispatch, is_digit, max_ansi_params, print_char,
  print_string, push_param, store_param,
}

-- The eight colours of the sequences.
palette : ℕ → Color
palette n = get_or (black ∷ red ∷ green ∷ yellow ∷ blue ∷ magenta ∷ cyan ∷ []) n white

-- What one parameter means for the foreground and the background.
pub sgr : Color × Color → ℕ → Color × Color
sgr (fg, bg) p =
    if p == 0
    then (white, black)
    else if leb 30 p && leb p 37
    then (palette (p - 30), bg)
    else if leb 40 p && leb p 47
    then (fg, palette (p - 40))
    else (fg, bg)

pub sgr_all : Color × Color → List ℕ → Color × Color
sgr_all c [] = c
sgr_all c (p ∷ ps) = sgr_all (sgr c p) ps

abbrev pub recolored : Console → Color × Color → Console
recolored s c = record s { fg_color = c.0; bg_color = c.1 }

apply_sgr-sgr : (s : Console) (p : ℕ) → apply_sgr s p ≡ recolored s (sgr (s.fg_color, s.bg_color) p)
unfolding apply_sgr sgr palette
apply_sgr-sgr s p = ground arith

pub apply_all-sgr_all :
    (s : Console) (ps : List ℕ) → apply_all s ps ≡ recolored s (sgr_all (s.fg_color, s.bg_color) ps)
unfolding apply_all sgr_all
apply_all-sgr_all s [] = refl
apply_all-sgr_all s (p ∷ ps) =
    let c = sgr (s.fg_color, s.bg_color) p in
    ap (λ (t : Console). apply_all t ps) (apply_sgr-sgr s p) ∙ apply_all-sgr_all (recolored s c) ps

-- The buffer holds the first sixteen of the parameters so far.
pub record Holds (s : Console) (values : List ℕ) : Type 0 where
  pub sized : length s.ansi_params ≡ 16
  pub counted : s.ansi_param_count ≡ length (take 16 values)
  pub stored : take s.ansi_param_count s.ansi_params ≡ take 16 values

take-set : (xs : List ℕ) (n v : ℕ) → n < length xs → take (suc n) (set xs n v) ≡ take n xs ++ v ∷ []
take-set [] n v h = absurd (omega arith)
take-set (x ∷ xs) zero v h = refl
take-set (x ∷ xs) (suc n) v h = ap (λ ys. x ∷ ys) (take-set xs n v (omega arith))

take-append_short :
    (n : ℕ) (xs : List ℕ) (v : ℕ)
    → length (take n xs) < n
    → take n (xs ++ v ∷ []) ≡ take n xs ++ v ∷ []
take-append_short zero xs v h = absurd (omega arith)
take-append_short (suc n) [] v h = ap (λ ys. v ∷ ys) (nothing n)
  where
    nothing : (n : ℕ) → take {A = ℕ} n [] ≡ []
    nothing zero = refl
    nothing (suc n) = refl
take-append_short (suc n) (x ∷ xs) v h = ap (λ ys. x ∷ ys) (take-append_short n xs v (omega arith))

take-append_full :
    (n : ℕ) (xs : List ℕ) (v : ℕ) → length (take n xs) ≡ n → take n (xs ++ v ∷ []) ≡ take n xs
take-append_full zero xs v h = refl
take-append_full (suc n) [] v h = absurd (omega arith)
take-append_full (suc n) (x ∷ xs) v h = ap (λ ys. x ∷ ys) (take-append_full n xs v (omega arith))

-- What the parser keeps until the sequence ends.
pub record Same (s t : Console) : Type 0 where
  pub memory_same : t.memory ≡ s.memory
  pub x_same : t.x ≡ s.x
  pub y_same : t.y ≡ s.y
  pub size_same : (t.width ≡ s.width) × (t.height ≡ s.height)
  pub layout_same : (t.pitch ≡ s.pitch) × (t.bpp ≡ s.bpp)

-- The console after a parameter: storing it never panics.
unfoldable pub pushed : Console → Console
pushed s =
    if ltb s.ansi_param_count max_ansi_params
    then record s {
      ansi_params = set s.ansi_params s.ansi_param_count s.current_param;
      ansi_param_count = s.ansi_param_count + 1;
      current_param = 0;
    }
    else record s { current_param = 0 }

pub push_param-pushed : (s : Console) → push_param s ≡ some (pushed s)
unfolding push_param store_param pushed
push_param-pushed s = elim (Bool-cases (ltb s.ansi_param_count max_ansi_params)) [
  | inl room ↦ rw room refl
  | inr full ↦ rw full refl
]

-- Storing a parameter: it is kept if there is room.
pub pushed-Holds :
    (s : Console) (values : List ℕ)
    → Holds s values
    → Holds (pushed s) (values ++ s.current_param ∷ [])
unfolding pushed
pushed-Holds s values h = elim (Bool-cases (ltb s.ansi_param_count max_ansi_params)) [
  | inl room ↦
      let v = s.current_param in
      let bound = length-take 16 values in
      let short = take-append_short 16 values v (ground (arith, h.counted)) in
      let next : s.ansi_param_count + 1 ≡ suc s.ansi_param_count = omega arith in
      rw room (record {
        sized = length-set s.ansi_params s.ansi_param_count v ∙ h.sized;
        counted = rw short (omega (arith, length-append (take 16 values) (v ∷ []), h.counted));
        stored =
            ap (λ (n : ℕ). take n (set s.ansi_params s.ansi_param_count v)) next
            ∙ take-set s.ansi_params s.ansi_param_count v (ground (arith, h.sized))
            ∙ ap (λ (ys : List ℕ). ys ++ v ∷ []) h.stored
            ∙ sym short;
      })
  | inr full ↦
      let bound = length-take 16 values in
      let long = take-append_full 16 values s.current_param (ground (arith, h.counted, bound)) in
      rw full (record {
        sized = h.sized;
        counted = h.counted ∙ ap (λ (ys : List ℕ). length ys) (sym long);
        stored = h.stored ∙ sym long;
      })
]

pub pushed-Same : (s t : Console) → Same s t → Same s (pushed t)
unfolding pushed
pushed-Same s t h = elim (Bool-cases (ltb t.ansi_param_count max_ansi_params)) [
  | inl room ↦ rw room (record {
    memory_same = h.memory_same;
    x_same = h.x_same;
    y_same = h.y_same;
    size_same = h.size_same;
    layout_same = h.layout_same;
  })
  | inr full ↦ rw full (record {
    memory_same = h.memory_same;
    x_same = h.x_same;
    y_same = h.y_same;
    size_same = h.size_same;
    layout_same = h.layout_same;
  })
]

pub pushed-colors :
    (t : Console) → ((pushed t).fg_color ≡ t.fg_color) × ((pushed t).bg_color ≡ t.bg_color)
unfolding pushed
pushed-colors t = elim (Bool-cases (ltb t.ansi_param_count max_ansi_params)) [
  | inl room ↦ rw room (refl, refl)
  | inr full ↦ rw full (refl, refl)
]

-- A parameter by its decimal digits, the `u16` that the parser makes of it, and its text.
abbrev pub value_from : ℕ → List ℕ → ℕ
value_from v [] = v
value_from v (d ∷ ds) = value_from ((v * 10 + d) % 2 ^ 16) ds

abbrev pub value : List ℕ → ℕ
value ds = value_from 0 ds

unfoldable pub digits_then : List ℕ → List ℕ → List ℕ
digits_then [] rest = rest
digits_then (d ∷ ds) rest = (b'0' + d) ∷ digits_then ds rest

abbrev pub IsDigits : List ℕ → Type 0
IsDigits ds = All (λ d. d < 10) ds

unfoldable pub collecting : Console → ℕ → Console
collecting s v = record s { parse_state = collecting_params; current_param = v }

pub more_digits :
    (s : Console) (v : ℕ) (ds rest : List ℕ)
    → IsDigits ds
    → print_string (collecting s v) (digits_then ds rest)
      ≡ print_string (collecting s (value_from v ds)) rest
unfolding print_string print_char dispatch digits_then collecting
more_digits s v [] rest h = refl
more_digits s v (d ∷ ds) rest h =
    let digit : is_digit (b'0' + d) ≡ true = ground (arith, h.0) in
    let same : b'0' + d - b'0' ≡ d = omega arith in
    rw (digit, same, print_string, print_char, dispatch)
      (more_digits s ((v * 10 + d) % 2 ^ 16) ds rest h.1)
