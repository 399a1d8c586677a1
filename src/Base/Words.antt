-- ===== src/Base/Words.antt =====
-- Machine words: `usize` and `u64` are natural numbers below 2 ^ 64, in the release profile's
-- wrapping arithmetic.
use Prim.Native.Nat.{ℕ, ◌+◌, ◌-◌, ◌*◌, ◌/◌, ◌%◌, ◌^◌}

-- The number of values of a 64-bit word.
abbrev pub word : ℕ
word = 2 ^ 64

abbrev pub add_word : ℕ → ℕ → ℕ
add_word a b = (a + b) % word

abbrev pub sub_word : ℕ → ℕ → ℕ
sub_word a b = (a + word - b % word) % word

abbrev pub mul_word : ℕ → ℕ → ℕ
mul_word a b = (a * b) % word

-- `div_ceil` of core, which does not overflow.
abbrev pub div_ceil : ℕ → ℕ → ℕ
div_ceil a b = (a + b - 1) / b
