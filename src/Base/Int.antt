-- ===== src/Base/Int.antt =====
-- Signed integers over the native numbers, under the library's names, and the `Number` that scaled
-- integers make: the witnesses count prices in whole cents with it.
use Prim.Native.Nat.{ℕ, suc, ◌+◌, ◌-◌, ◌*◌, ◌/◌}
use mathlib.Core.Bool.{Bool}
use mathlib.Core.List.{foldl}
use native.Mathlib.Omega.{arith}
use arkana.Base.Tests.{ltb, leb, ◌==◌, if◌then◌else◌}
use arkana.Base.Numbers.{Number, IsOrdered}

-- `negsuc n` is -(n + 1).
pub data ℤ : Type 0 where
  pos : ℕ → ℤ
  negsuc : ℕ → ℤ

abbrev pub pos_part : ℤ → ℕ
pos_part (pos n) = n
pos_part (negsuc n) = 0

abbrev pub neg_part : ℤ → ℕ
neg_part (pos n) = 0
neg_part (negsuc n) = suc n

abbrev pub sub_ℕ : ℕ → ℕ → ℤ
sub_ℕ a b = if leb b a then pos (a - b) else negsuc (b - a - 1)

abbrev pub leb_ℤ : ℤ → ℤ → Bool
leb_ℤ a b = leb (pos_part a + neg_part b) (pos_part b + neg_part a)

abbrev pub ltb_ℤ : ℤ → ℤ → Bool
ltb_ℤ a b = ltb (pos_part a + neg_part b) (pos_part b + neg_part a)

abbrev add_ℤ : ℤ → ℤ → ℤ
add_ℤ a b = sub_ℕ (pos_part a + pos_part b) (neg_part a + neg_part b)

abbrev mul_ℤ : ℤ → ℤ → ℤ
mul_ℤ a b =
    sub_ℕ (pos_part a * pos_part b + neg_part a * neg_part b)
      (pos_part a * neg_part b + neg_part a * pos_part b)

-- The quotient of the magnitudes, with the sign of the quotient.
abbrev div_ℤ : ℤ → ℤ → ℤ
div_ℤ a b =
    let q = (pos_part a + neg_part a) / (pos_part b + neg_part b) in
    let same = leb (neg_part a * pos_part b + pos_part a * neg_part b) 0 in
    if same then pos q else sub_ℕ 0 q

instance abbrev pub int_number : Number ℤ
int_number = record {
  of_ℕ = pos;
  add = add_ℤ;
  sub = λ a b. sub_ℕ (pos_part a + neg_part b) (neg_part a + pos_part b);
  mul = mul_ℤ;
  div = div_ℤ;
  neg = λ a. sub_ℕ (neg_part a) (pos_part a);
  sum = foldl add_ℤ (pos 0);
  fsum = foldl add_ℤ (pos 0);
  round = λ _ a. a;
  lt = ltb_ℤ;
  le = leb_ℤ;
  eq = λ a b. pos_part a + neg_part b == pos_part b + neg_part a;
}

pub ℤ-IsOrdered : IsOrdered ℤ
ℤ-IsOrdered = record {
  le_refl = λ a. ground arith;
  le_trans = λ a b c h k. ground arith;
  le_total = λ a b h. ground arith;
  lt-eq-not-le = λ a b. ground arith;
}
