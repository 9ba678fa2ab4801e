-- ===== src/Prelude/Decimal.antt =====
-- `decimal.Decimal` as the program uses it: the operations that it calls, and what it relies on of
-- them. A comparison is exact. A sum, a difference, a product or a quotient is rounded to the 28
-- digits of the default context, so the laws of arithmetic are assumptions of their own.
pub mod Whole
use mathlib.Core.Path.{◌≡◌}
use mathlib.Core.Bool.{Bool, true, false, not}
use Prim.Native.String.{String}

-- `text` is `str`; `leb a b` is `a <= b`.
pub record Decimal {ℓ} (A : Type ℓ) : Type ℓ where
  pub zero : A
  pub one : A
  pub add : A → A → A
  pub sub : A → A → A
  pub mul : A → A → A
  pub div : A → A → A
  pub leb : A → A → Bool
  pub text : A → String

-- `a < b`, which for finite values is `not b <= a`.
abbrev pub lt_dec {ℓ} : {A : Type ℓ} → Decimal A → A → A → Bool
lt_dec d a b = not (d.leb b a)

-- What holds of rounded arithmetic too: the order is total, and rounding keeps the sign of a
-- difference.
pub record IsOrdered {ℓ} {A : Type ℓ} (d : Decimal A) : Type ℓ where
  pub leb_refl : (a : A) → d.leb a a ≡ true
  pub leb_trans : (a b c : A) → d.leb a b ≡ true → d.leb b c ≡ true → d.leb a c ≡ true
  pub leb_antisym : (a b : A) → d.leb a b ≡ true → d.leb b a ≡ true → a ≡ b
  pub leb_total : (a b : A) → d.leb a b ≡ false → d.leb b a ≡ true
  pub sub_leb_zero : (a b : A) → d.leb (d.sub a b) d.zero ≡ d.leb a b

-- What holds where no result needs more digits than the context keeps.
pub record IsExact {ℓ} {A : Type ℓ} (d : Decimal A) : Type ℓ where
  pub add_assoc : (a b c : A) → d.add (d.add a b) c ≡ d.add a (d.add b c)
  pub add_comm : (a b : A) → d.add a b ≡ d.add b a
  pub add_zero : (a : A) → d.add a d.zero ≡ a
  pub sub_add : (a b : A) → d.add (d.sub a b) b ≡ a
  pub add_sub : (a b : A) → d.sub (d.add a b) b ≡ a
  pub mul_add : (a b c : A) → d.mul (d.add a b) c ≡ d.add (d.mul a c) (d.mul b c)
  pub zero_mul : (a : A) → d.mul d.zero a ≡ d.zero
