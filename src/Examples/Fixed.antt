-- ===== src/Examples/Fixed.antt =====
-- Numbers with six decimal places in the place of float64: a type that has the laws. math.Sin is a
-- straight line through the zeros of the sine at 0 and at pi.
use Prim.Native.Nat.{ℕ, ◌*◌, ◌/◌, ◌^◌}
use vpp_lab.Prelude.{true, false, ◌≡◌, if◌then◌else◌, arith, format_int}
use vpp_lab.Prelude.Int.{ℤ, pos, ltb_ℤ, leb_ℤ, eq_ℤ, ◌+ℤ◌, ◌-ℤ◌, ◌*ℤ◌, quot}
use vpp_lab.Prelude.Float.{Float, FloatLaws}

abbrev pub scale : ℕ
scale = 1000000

abbrev pub min_ℤ : ℤ → ℤ → ℤ
min_ℤ a b = if ltb_ℤ a b then a else b

abbrev pub max_ℤ : ℤ → ℤ → ℤ
max_ℤ a b = if ltb_ℤ a b then b else a

abbrev pub neg_ℤ : ℤ → ℤ
neg_ℤ a = pos 0 -ℤ a

abbrev pub abs_ℤ : ℤ → ℤ
abs_ℤ a = if ltb_ℤ a (pos 0) then neg_ℤ a else a

-- The nearest whole number, halves away from zero.
abbrev pub round_ℤ : ℤ → ℤ
round_ℤ a =
    if ltb_ℤ a (pos 0)
    then neg_ℤ (quot (neg_ℤ a +ℤ pos (scale / 2)) (pos scale) *ℤ pos scale)
    else quot (a +ℤ pos (scale / 2)) (pos scale) *ℤ pos scale

abbrev pub fixed : Float ℤ
fixed = record {
  decimal = λ m e. pos (m * scale / 10 ^ e);
  of_int = λ i. i *ℤ pos scale;
  to_int = λ v. quot v (pos scale);
  add = λ a b. a +ℤ b;
  sub = λ a b. a -ℤ b;
  mul = λ a b. quot (a *ℤ b) (pos scale);
  div = λ a b. quot (a *ℤ pos scale) b;
  neg = neg_ℤ;
  lt = ltb_ℤ;
  le = leb_ℤ;
  eq = eq_ℤ;
  max = max_ℤ;
  min = min_ℤ;
  abs = abs_ℤ;
  round = round_ℤ;
  sin = λ v. min_ℤ v (pos 3141593 -ℤ v);
  pi = pos 3141593;
  format = λ v. format_int v;
  format_6 = λ v. format_int v;
  format_0 = λ v. format_int v;
}

pub fixed_laws : FloatLaws fixed
fixed_laws = record {
  lt_irrefl = λ a. irrefl a;
  lt_trans = λ a b c h k. trans a b c h k;
  le-of-lt = λ a b h. weaken a b h;
  not-lt-of-le = λ a b h. flip a b h;
  not-lt-min = λ a b. below a b;
}
  where
    irrefl : (a : ℤ) → ltb_ℤ a a ≡ false
    irrefl a = ground arith

    trans : (a b c : ℤ) → ltb_ℤ a b ≡ true → ltb_ℤ b c ≡ true → ltb_ℤ a c ≡ true
    trans a b c h k = ground arith

    weaken : (a b : ℤ) → ltb_ℤ a b ≡ true → leb_ℤ a b ≡ true
    weaken a b h = ground arith

    flip : (a b : ℤ) → leb_ℤ a b ≡ true → ltb_ℤ b a ≡ false
    flip a b h = ground arith

    below : (a b : ℤ) → ltb_ℤ a (min_ℤ a b) ≡ false
    below a b = ground arith
