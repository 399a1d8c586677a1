-- ===== src/Base/Bits.antt =====
-- `|` of fields that do not overlap. The native `bit_or` stands for a recursion on binary digits,
-- which is read here one digit at a time.
use Prim.Native.Nat.{
  ℕ, zero, suc, ◌+◌, ◌*◌, ◌/◌, ◌%◌, ◌^◌, ◌≤◌, ◌<◌, max, digits, bit_or, bit_or-bitwise,
}
use mathlib.Core.Path.{◌≡◌, refl, ap}
use native.Mathlib.Nat.{pow-suc}
use native.Mathlib.Omega.{arith}

-- The recursion on digits, for a number of rounds.
abbrev joined : ℕ → ℕ → ℕ → ℕ
joined rounds = digits (λ rest. rest) max rounds

-- Two numbers of rounds that both suffice for the left operand give the same.
joined-joined :
    (left right r s : ℕ) → left ≤ r × left ≤ s → joined r left right ≡ joined s left right
joined-joined (suc l) right zero s (bad, _) = absurd (omega arith)
joined-joined (suc l) right r zero (_, bad) = absurd (omega arith)
joined-joined (suc l) right (suc r) (suc s) (lr, ls) =
    let rest = joined-joined (suc l / 2) (right / 2) r s (omega arith, omega arith) in
    omega (arith, rest)
joined-joined zero right r s _ = both r s
  where
    both : (r s : ℕ) → joined r 0 right ≡ joined s 0 right
    both zero zero = refl
    both (suc r) (suc s) = refl
    both zero (suc s) = refl
    both (suc r) zero = refl

or_lowest : (a b : ℕ) → bit_or a b ≡ bit_or (a / 2) (b / 2) * 2 + max (a % 2) (b % 2)
or_lowest a b = by_left a (bit_or-bitwise a b) (bit_or-bitwise (a / 2) (b / 2))
  where
    by_left :
        (left : ℕ)
        → bit_or left b ≡ joined left left b
        → bit_or (left / 2) (b / 2) ≡ joined (left / 2) (left / 2) (b / 2)
        → bit_or left b ≡ bit_or (left / 2) (b / 2) * 2 + max (left % 2) (b % 2)
    by_left zero whole half = omega (arith, whole, half)
    by_left (suc l) whole half =
        let fewer = joined-joined (suc l / 2) (b / 2) (suc l / 2) l (omega arith, omega arith) in
        omega (arith, fewer, whole, half)

or_nothing_below : (bound a : ℕ) → a ≤ bound → bit_or a 0 ≡ a
or_nothing_below bound zero h = refl
or_nothing_below (suc bound) (suc a) h =
    let lower = or_nothing_below bound (suc a / 2) (omega arith) in
    omega (arith, lower, or_lowest (suc a) 0)
or_nothing_below zero (suc a) h = absurd (omega arith)

-- A value that `k` bits hold, joined to one that is shifted past them.
bit_or-shifted : (k high low : ℕ) → low < 2 ^ k → bit_or (high * 2 ^ k) low ≡ high * 2 ^ k + low
bit_or-shifted zero high low h = ground (arith, or_nothing_below high high (omega arith))
bit_or-shifted (suc k) high low h =
    let doubled : high * 2 ^ suc k ≡ 2 * (high * 2 ^ k) =
      omega (arith, ap (λ (p : ℕ). high * p) (pow-suc 2 k)) in
    ground (
      arith,
      doubled,
      bit_or-shifted k high (low / 2) (omega (arith, pow-suc 2 k)),
      or_lowest (high * 2 ^ suc k) low,
    )

pub bit_or-add :
    (k high low word : ℕ) → word ≡ high * 2 ^ k → low < 2 ^ k → bit_or word low ≡ word + low
bit_or-add k high low word e h =
    omega (arith, ap (λ (w : ℕ). bit_or w low) e, bit_or-shifted k high low h)
