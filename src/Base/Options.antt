-- ===== src/Base/Options.antt =====
-- The value of a result that is there, for runs of the models.
use mathlib.Core.Path.{◌≡◌, refl}
use mathlib.Core.Bool.{Bool, true, false}
use mathlib.Core.Option.{Option, none, some}

module _ {ℓ} {A : Type ℓ} where
  abbrev pub value_or : A → Option A → A
  value_or a none = a
  value_or a (some x) = x

  abbrev pub is_some : Option A → Bool
  is_some none = false
  is_some (some x) = true

  pub some-value_or : (a : A) (o : Option A) → is_some o ≡ true → o ≡ some (value_or a o)
  some-value_or a none h = cc
  some-value_or a (some x) h = refl
