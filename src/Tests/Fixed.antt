-- ===== src/Tests/Fixed.antt =====
-- A concrete arithmetic for the tests of image_processor: fixed-point numbers, where the integer n
-- stands for n / 255. The functions of <cmath> are constants or the identity.
use high_load_systems.Common.{
  ℕ, ◌+◌, ◌*◌, ◌/◌, ◌%◌, ◌^◌, ◌<◌, ◌≡◌, refl, true, Bool-cases, inl, inr, arith, ℤ, pos, negsuc,
  pos_part, neg_part, sub_ℕ, ◌+ℤ◌, ◌-ℤ◌, ltb_ℤ, leb_ℤ, ◌&&◌, -ℤ_parts,
}
use high_load_systems.ImageProcessor.Floats.{Float, IsIeee, get_byte, of_byte, InUnit}
use high_load_systems.ImageProcessor.Fabrics.{atoi}

abbrev pub times_unit : ℤ → ℤ
times_unit (pos n) = pos (n * 255)
times_unit (negsuc n) = negsuc (n * 255 + 254)

abbrev pub fixed_mul : ℤ → ℤ → ℤ
fixed_mul a b =
    sub_ℕ ((pos_part a * pos_part b + neg_part a * neg_part b) / 255)
      ((pos_part a * neg_part b + neg_part a * pos_part b) / 255)

-- The divisors of the tests are positive.
abbrev pub fixed_div : ℤ → ℤ → ℤ
fixed_div a b = sub_ℕ (pos_part a * 255 / pos_part b) (neg_part a * 255 / pos_part b)

abbrev pub whole_part : ℤ → ℤ
whole_part (pos n) = pos (n / 255 % 2 ^ 31)
whole_part (negsuc n) = negsuc (n / 255 % 2 ^ 31)

instance abbrev pub fixed : Float ℤ
fixed = record {
  of_int = times_unit;
  of_text = λ s. times_unit (pos (atoi s));
  add = λ a b. a +ℤ b;
  sub = λ a b. a -ℤ b;
  mul = fixed_mul;
  div = fixed_div;
  lt = ltb_ℤ;
  le = leb_ℤ;
  eq = λ a b. leb_ℤ a b && leb_ℤ b a;
  to_u8 = λ a. pos_part a / 255 % 256;
  to_int32 = whole_part;
  to_float = λ a. a;
  sqrt = λ a. a;
  sin = λ a. a;
  cos = λ a. a;
  atan2 = λ a b. a;
  powf = λ a b. a;
  pi = pos 801;
  euler = pos 693;
}

lt-le_lem : (x y : ℤ) → ltb_ℤ x y ≡ true → leb_ℤ x y ≡ true
lt-le_lem x y h = ground arith

sub-anti : (x y : ℤ) → leb_ℤ x y ≡ true → leb_ℤ (pos 255 -ℤ y) (pos 255 -ℤ x) ≡ true
sub-anti x y h = elim (Bool-cases (leb_ℤ (pos 255 -ℤ y) (pos 255 -ℤ x))) [
  | inl e ↦ e
  | inr e ↦ ground (arith, -ℤ_parts (pos 255) x, -ℤ_parts (pos 255) y)
]

of_byte_lem : (b : ℕ) → b < 256 → of_byte {D = ℤ} b ≡ pos b
of_byte_lem b h = ground arith

to_u8_lem : (x : ℤ) → fixed.to_u8 x < 256
to_u8_lem x = omega arith

get_byte_lem : (b : ℕ) → b < 256 → get_byte {D = ℤ} (of_byte b) ≡ b
get_byte_lem b h = rw (of_byte_lem b h) (ground arith)

of_byte-InUnit_lem : (b : ℕ) → b < 256 → InUnit {D = ℤ} (of_byte b)
of_byte-InUnit_lem b h = rw (of_byte_lem b h) (ground arith, ground arith)

pub fixed_laws : IsIeee ℤ
unfolding ◌-ℤ◌
fixed_laws = record {
  lt-le = lt-le_lem;
  zero-le-zero = refl;
  zero-le-one = refl;
  one-le-one = refl;
  one-sub-zero = refl;
  one-sub-one = refl;
  one-sub-anti = sub-anti;
  to_u8-lt = to_u8_lem;
  get_byte-of_byte = get_byte_lem;
  of_byte-InUnit = of_byte-InUnit_lem;
}
