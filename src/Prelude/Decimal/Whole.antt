-- ===== src/Prelude/Decimal/Whole.antt =====
-- Whole numbers as an instance of the interface to `decimal.Decimal`: sums, differences and products of
-- them need no rounding. A quotient is cut to its whole part.
use caqrs.Prelude.{ℕ, ◌+◌, ◌*◌, ◌/◌, Bool, String, ◌≡◌, ap, arith, leb}
use caqrs.Prelude.Int.{
  ℤ, pos, negsuc, pos_part, neg_part, ◌+ℤ◌, ◌-ℤ◌, ◌*ℤ◌, int_laws, +ℤ_comm, +ℤ_assoc, +ℤ_parts,
}
use caqrs.Prelude.Decimal.{Decimal, IsOrdered, IsExact}

abbrev pub leb_ℤ : ℤ → ℤ → Bool
leb_ℤ a b = leb (pos_part a + neg_part b) (pos_part b + neg_part a)

unfoldable pub quotient : ℤ → ℤ → ℤ
quotient (pos a) (pos b) = pos (a / b)
quotient _ _ = pos 0

unfoldable pub sign_text : ℤ → String
sign_text (pos _) = "+"
sign_text (negsuc _) = "-"

abbrev pub whole : Decimal ℤ
whole = record {
  zero = pos 0;
  one = pos 1;
  add = λ a b. a +ℤ b;
  sub = λ a b. a -ℤ b;
  mul = λ a b. a *ℤ b;
  div = quotient;
  leb = leb_ℤ;
  text = sign_text;
}

pub whole-IsOrdered : IsOrdered whole
unfolding ◌-ℤ◌
whole-IsOrdered = record {
  leb_refl = λ a. ground arith;
  leb_trans = λ a b c h k. ground arith;
  leb_antisym = λ a b h k. ground arith;
  leb_total = λ a b h. ground arith;
  sub_leb_zero = λ a b. ground arith;
}

*ℤ_parts :
    (a b : ℤ)
    → pos_part (a *ℤ b) + (pos_part a * neg_part b + neg_part a * pos_part b)
      ≡ neg_part (a *ℤ b) + (pos_part a * pos_part b + neg_part a * neg_part b)
unfolding ◌*ℤ◌
*ℤ_parts a b = ground arith

-- Equal sums of numbers, times the same number.
scaled : (p n a b x y k : ℕ) → p + x + y ≡ n + a + b → p * k + x * k + y * k ≡ n * k + a * k + b * k
scaled p n a b x y k h = omega (arith, ap (λ t. t * k) h)

*ℤ_add : (a b c : ℤ) → (a +ℤ b) *ℤ c ≡ a *ℤ c +ℤ b *ℤ c
*ℤ_add a b c =
    let p = pos_part (a +ℤ b) in
    let n = neg_part (a +ℤ b) in
    omega (
      int_laws,
      *ℤ_parts (a +ℤ b) c,
      *ℤ_parts a c,
      *ℤ_parts b c,
      scaled p n (pos_part a) (pos_part b) (neg_part a) (neg_part b) (pos_part c) (+ℤ_parts a b),
      scaled p n (pos_part a) (pos_part b) (neg_part a) (neg_part b) (neg_part c) (+ℤ_parts a b),
    )

zero_*ℤ : (a : ℤ) → pos 0 *ℤ a ≡ pos 0
unfolding ◌*ℤ◌
zero_*ℤ a = ground arith

pub whole-IsExact : IsExact whole
whole-IsExact = record {
  add_assoc = +ℤ_assoc;
  add_comm = +ℤ_comm;
  add_zero = λ a. omega int_laws;
  sub_add = λ a b. omega int_laws;
  add_sub = λ a b. omega int_laws;
  mul_add = *ℤ_add;
  zero_mul = zero_*ℤ;
}
