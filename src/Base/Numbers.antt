-- ===== src/Base/Numbers.antt =====
-- What the program does with a price or an amount. Python's `float` and `Decimal` are both values of
-- this interface: antt has no floating point, so the type and its operations are a parameter, and a
-- theorem that needs a law of them names it.
use Prim.Native.Nat.{ℕ}
use mathlib.Core.Path.{◌≡◌}
use mathlib.Core.Bool.{Bool, true, false, not}
use mathlib.Core.List.{List}
use arkana.Base.Tests.{if◌then◌else◌}

pub record Number (A : Type 0) : Type 0 where
  pub of_ℕ : ℕ → A
  pub add : A → A → A
  pub sub : A → A → A
  pub mul : A → A → A
  pub div : A → A → A
  pub neg : A → A
  -- `sum(xs)`, whose rounding of floats depends on the interpreter's version
  pub sum : List A → A
  -- `math.fsum(xs)`
  pub fsum : List A → A
  -- `round(x, digits)`
  pub round : ℕ → A → A
  pub lt : A → A → Bool
  pub le : A → A → Bool
  pub eq : A → A → Bool

module _ {A : Type 0} ⦃n : Number A⦄ where
  abbrev pub nought : A
  nought = n.of_ℕ 0

  -- Python's `max(a, b)` keeps `a` unless `b` is greater.
  abbrev pub max_of : A → A → A
  max_of a b = if n.lt a b then b else a

  -- Python's `min(a, b)` keeps `a` unless `b` is less.
  abbrev pub min_of : A → A → A
  min_of a b = if n.lt b a then b else a

  abbrev pub abs_of : A → A
  abs_of a = if n.lt a nought then n.neg a else a

  -- `statistics.fmean(xs)` of a list with `count` items
  abbrev pub fmean : List A → ℕ → A
  fmean xs count = n.div (n.fsum xs) (n.of_ℕ count)

  infix 4 ◌≼◌
  abbrev pub ◌≼◌ : A → A → Type 0
  a ≼ b = n.le a b ≡ true

-- The laws of `<` and `<=` on numbers that are not NaN.
pub record IsOrdered (A : Type 0) ⦃n : Number A⦄ : Type 0 where
  pub le_refl : (a : A) → a ≼ a
  pub le_trans : (a b c : A) → a ≼ b → b ≼ c → a ≼ c
  pub le_total : (a b : A) → n.le a b ≡ false → b ≼ a
  pub lt-eq-not-le : (a b : A) → n.lt a b ≡ not (n.le b a)
