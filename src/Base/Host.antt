-- ===== src/Base/Host.antt =====
-- What the model takes of the Python runtime as given: floats, of which it knows only the
-- operations, and the Unicode tables behind `str.isdigit` and `str.strip`. The laws are laws of IEEE 754 doubles.
use Prim.Native.Nat.{ℕ, ◌*◌, ◌/◌, ◌^◌}
use mathlib.Core.Path.{◌≡◌}
use mathlib.Core.Bool.{Bool, true, false, ◌&&◌}
use native.Mathlib.Omega.{arith}
use fpro_v.Base.Tests.{leb, if◌then◌else◌}
use fpro_v.Base.Int.{ℤ, pos, negsuc, ◌+ℤ◌, ◌-ℤ◌, ◌*ℤ◌, ◌/ℤ◌, ltb_ℤ, leb_ℤ, eqb_ℤ}
use fpro_v.Base.Outcome.{Result, ok, raise, arithmetic_error}

pub record Host (F : Type 0) : Type 0 where
  pub of_ℤ : ℤ → F
  -- the decimal literal m·10^-e
  pub decimal : ℕ → ℕ → F
  pub add : F → F → F
  pub sub : F → F → F
  pub mul : F → F → F
  pub div : F → F → F
  pub lt : F → F → Bool
  pub le : F → F → Bool
  pub eq : F → F → Bool
  pub finite : F → Bool
  pub floor_finite : F → ℤ
  pub digit : ℕ → Bool
  pub space : ℕ → Bool

module _ {F : Type 0} ⦃h : Host F⦄ where
  infixl 65 ◌⊕◌ ◌⊖◌
  infixl 70 ◌⊗◌
  infix 50 ◌⊲◌ ◌⊴◌ ◌≗◌
  abbrev pub ◌⊕◌ : F → F → F
  ◌⊕◌ = h.add

  abbrev pub ◌⊖◌ : F → F → F
  ◌⊖◌ = h.sub

  abbrev pub ◌⊗◌ : F → F → F
  ◌⊗◌ = h.mul

  -- `a < b`, `a <= b` and `a == b`: false where one is not a number
  abbrev pub ◌⊲◌ : F → F → Bool
  ◌⊲◌ = h.lt

  abbrev pub ◌⊴◌ : F → F → Bool
  ◌⊴◌ = h.le

  abbrev pub ◌≗◌ : F → F → Bool
  ◌≗◌ = h.eq

  abbrev pub of_ℤ : ℤ → F
  of_ℤ = h.of_ℤ

  abbrev pub decimal : ℕ → ℕ → F
  decimal = h.decimal

  abbrev pub zero_f : F
  zero_f = h.of_ℤ (pos 0)

  abbrev pub one_f : F
  one_f = h.of_ℤ (pos 1)

  -- `math.isfinite`
  abbrev pub is_finite : F → Bool
  is_finite = h.finite

  -- `a / b`
  abbrev pub divide : F → F → Result F
  divide a b = if b ≗ zero_f then raise arithmetic_error else ok (h.div a b)

  -- `math.floor`
  abbrev pub floor : F → Result ℤ
  floor x = if is_finite x then ok (h.floor_finite x) else raise arithmetic_error

  -- Python's `min` and `max` keep the first argument unless the second is smaller or larger.
  abbrev pub min_f : F → F → F
  min_f a b = if b ⊲ a then b else a

  abbrev pub max_f : F → F → F
  max_f a b = if a ⊲ b then b else a

  abbrev pub abs_f : F → F
  abs_f a = if a ⊲ zero_f then zero_f ⊖ a else a

-- The order of the doubles: it is transitive also at NaN, where it never holds.
pub record IsOrdered {F : Type 0} (h : Host F) : Type 0 where
  pub le_of_lt : (a b : F) → h.lt a b ≡ true → h.le a b ≡ true
  pub le_trans : (a b c : F) → h.le a b ≡ true → h.le b c ≡ true → h.le a c ≡ true
  pub le_self : (n : ℤ) → h.le (h.of_ℤ n) (h.of_ℤ n) ≡ true
  pub le_of_not_lt :
      (a b : F) → h.finite a ≡ true → h.finite b ≡ true → h.lt a b ≡ false → h.le b a ≡ true

-- Fixed-point numbers in millionths: a host to run the model on.
abbrev pub Micro : Type 0
Micro = ℤ

abbrev micro_div : ℤ → ℤ → ℤ
micro_div a (pos n) = (a *ℤ pos 1_000_000) /ℤ n
micro_div a (negsuc n) = pos 0

instance abbrev pub micro_host : Host Micro
micro_host = record {
  of_ℤ = λ n. n *ℤ pos 1_000_000;
  decimal = λ m e. pos (m * 1_000_000 / 10 ^ e);
  add = ◌+ℤ◌;
  sub = ◌-ℤ◌;
  mul = λ a b. (a *ℤ b) /ℤ 1_000_000;
  div = micro_div;
  lt = ltb_ℤ;
  le = leb_ℤ;
  eq = eqb_ℤ;
  finite = λ _. true;
  floor_finite = λ x. x /ℤ 1_000_000;
  digit = λ c. leb b'0' c && leb c b'9';
  space = λ c. leb c 0x20;
}

pub micro_host-IsOrdered : IsOrdered micro_host
micro_host-IsOrdered = record {
  le_of_lt = λ a b h. ground arith;
  le_trans = λ a b c h k. ground arith;
  le_self = λ n. ground arith;
  le_of_not_lt = λ a b p q h. ground arith;
}
