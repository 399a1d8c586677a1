-- ===== src/Exceptions/Locks.antt =====
-- The locks of the process tables and the search in them, as the page fault handler of
-- arch/src/x86_64/handler/exception.rs uses them.
use proka_kernel.Base.{
  Bool, Bool-cases, List, Option, [], ap, arith, if◌then◌else◌, inl, inr, leb, length, none, some,
  some_inj, suc, sym, true, ℕ, ◌+◌, ◌<◌, ◌∙◌, ◌∷◌, ◌≡◌,
}
use proka_kernel.Process.{
  Kernel, ProcType, Result, driver, err, invalid_index, max_ps, normal, remove,
}

-- The read guards that the handler holds.
pub record Guards : Type 0 where
  pub normal_read : Bool
  pub driver_read : Bool

-- A call of `remove`: its result, or a wait for a lock that does not end.
pub data Attempt : Type 0 where
  finishes : Result Kernel → Attempt
  waits_forever : Attempt

abbrev pub is_read : Guards → ProcType → Bool
is_read g normal = g.normal_read
is_read g driver = g.driver_read

-- `remove_normal` and `remove_driver` take the table's write lock after the test of the index.
unfoldable pub remove_under : Guards → Kernel → ProcType → ℕ → Attempt
remove_under guards k typ index =
    if leb max_ps index
    then finishes (err invalid_index)
    else if is_read guards typ
    then waits_forever
    else finishes (remove k typ index)

module _ {P : Type 0} (test : P → Bool) where
  -- `iter().enumerate().find(..)`.
  unfoldable pub find_enumerated : ℕ → List P → Option (ℕ × P)
  find_enumerated first [] = none
  find_enumerated first (p ∷ ps) =
      if test p then some (first, p) else find_enumerated (suc first) ps

  pub find_enumerated-below :
      (first : ℕ) (ps : List P) (index : ℕ) (p : P)
      → find_enumerated first ps ≡ some (index, p)
      → (index < first + length ps) × (test p ≡ true)
  unfolding find_enumerated
  find_enumerated-below first [] index p e = cc
  find_enumerated-below first (q ∷ qs) index p e = elim (Bool-cases (test q)) [
    | inl here ↦
        (let same = some_inj (rw here at e) in
          (ground (arith, same), ap (λ (r : ℕ × P). test r.1) (sym same) ∙ here))
    | inr later ↦
        (let (below, found) = find_enumerated-below (suc first) qs index p (rw later at e) in
          (omega (arith, below), found))
  ]
