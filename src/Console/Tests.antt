-- ===== src/Console/Tests.antt =====
-- The console of core/src/output/console.rs on a screen of two rows of two characters.
use proka_kernel.Base.{[], arith, refl, some, ◌∷◌, ◌≡◌, ◌≤◌}
use proka_kernel.Console.{Console, collecting_params, init, print_string}
use proka_kernel.Console.Printing.{IsScreen, Prints, print_normal_char-Prints}
use proka_kernel.Console.Ascii.{next_state, print_normal_char-some, print_string-some, states}
use proka_kernel.Console.Commands.{Recolors, print_string-sequence, sequence}

abbrev tiny : Console
tiny = init (record { contents = λ _. 0; width = 16; height = 32; pitch = 64; bpp = 4 })

tiny-IsScreen : IsScreen tiny
tiny-IsScreen =
    unfold init in
    (
      record {
        four_bytes = refl;
        tall = omega arith;
        rows_fit = omega arith;
        fits = omega arith;
        height_fits = omega arith;
        width_fits = omega arith;
        wide = omega arith;
      },
      omega arith,
      omega arith,
    )

-- The cursor at the right edge of the last row.
abbrev edge : Console
edge = record tiny { x = 16; y = 16 }

abbrev lit : Console
lit = (print_normal_char-some tiny b'A' (omega arith)).0

print_normal_char-Prints_example : Prints tiny lit
print_normal_char-Prints_example =
    print_normal_char-Prints tiny lit b'A' (print_normal_char-some tiny b'A' (omega arith)).1

-- The text `ESC [ 3`, in the middle of a sequence.
print_string-some_example :
    (t : Console) × (print_string tiny (0x1B ∷ b'[' ∷ b'3' ∷ []) ≡ some t)
    × (t.ansi_param_count ≤ 16)
    × (t.parse_state ≡ collecting_params)
unfolding init states next_state
print_string-some_example =
    print_string-some tiny (0x1B ∷ b'[' ∷ b'3' ∷ []) (omega arith)
      (omega arith, (omega arith, (omega arith, tt)))

-- `ESC [ 31 ; 42 m`, before the letter `A`.
print_string-sequence_example :
    (t : Console) × (print_string tiny (sequence (3 ∷ 1 ∷ []) ((4 ∷ 2 ∷ []) ∷ []) (b'A' ∷ []))
      ≡ print_string t (b'A' ∷ []))
    × Recolors tiny t (31 ∷ 42 ∷ [])
print_string-sequence_example =
    print_string-sequence tiny (3 ∷ 1 ∷ []) (b'A' ∷ []) ((4 ∷ 2 ∷ []) ∷ []) (unfold init in refl)
      (unfold init in refl) (omega arith, (omega arith, tt)) ((omega arith, (omega arith, tt)), tt)
