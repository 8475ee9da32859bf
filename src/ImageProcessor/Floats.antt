-- ===== src/ImageProcessor/Floats.antt =====
-- The `double` arithmetic of the platform, as an interface: IEEE 754 operations and the functions
-- of <cmath> are not code of the program. `IsIeee` states what the program relies on.
use high_load_systems.Common.{ℕ, ◌<◌, ◌≡◌, Bool, true, ℤ, pos, Bytes}

pub record Float (D : Type 0) : Type 0 where
  pub of_int : ℤ → D  -- static_cast<double> of an integer
  pub of_text : Bytes → D  -- std::atof, and the value of a decimal literal
  pub add : D → D → D
  pub sub : D → D → D
  pub mul : D → D → D
  pub div : D → D → D
  pub lt : D → D → Bool
  pub le : D → D → Bool
  pub eq : D → D → Bool
  pub to_u8 : D → ℕ  -- static_cast<uint8_t>
  pub to_int32 : D → ℤ  -- static_cast<int32_t>
  pub to_float : D → D  -- static_cast<float>
  pub sqrt : D → D
  pub sin : D → D
  pub cos : D → D
  pub atan2 : D → D → D
  pub powf : D → D → D
  pub pi : D  -- M_PI
  pub euler : D  -- M_E

module _ {D : Type 0} ⦃f : Float D⦄ where
  open f use {of_int, mul, div, to_u8, le}

  abbrev pub zero_d : D
  zero_d = of_int (pos 0)

  abbrev pub one_d : D
  one_d = of_int (pos 1)

  -- UINT8_MAX, converted to double
  abbrev pub byte_max : D
  byte_max = of_int (pos 255)

  -- `static_cast<double>(b) / UINT8_MAX`, in the constructor Pixel(uint8_t, uint8_t, uint8_t)
  abbrev pub of_byte : ℕ → D
  of_byte b = div (of_int (pos b)) byte_max

  -- `GetByte` of io.cpp
  abbrev pub get_byte : D → ℕ
  get_byte x = to_u8 (mul x byte_max)

  -- A colour channel between black and full.
  abbrev pub InUnit : D → Type 0
  InUnit x = (le zero_d x ≡ true) × (le x one_d ≡ true)

-- Facts of IEEE 754 doubles: orders, the range of the cast to a byte, the monotonicity of `1 - x`, and
-- that the 256 quotients
-- `b / 255.0` lie between 0 and 1 and come back as `b` when they are multiplied by 255 and
-- truncated.
pub record IsIeee (D : Type 0) ⦃f : Float D⦄ : Type 0 where
  pub lt-le : (x y : D) → f.lt x y ≡ true → f.le x y ≡ true
  pub zero-le-zero : f.le zero_d zero_d ≡ true
  pub zero-le-one : f.le zero_d one_d ≡ true
  pub one-le-one : f.le one_d one_d ≡ true
  pub one-sub-zero : f.sub one_d zero_d ≡ one_d
  pub one-sub-one : f.sub one_d one_d ≡ zero_d
  pub one-sub-anti : (x y : D) → f.le x y ≡ true → f.le (f.sub one_d y) (f.sub one_d x) ≡ true
  pub to_u8-lt : (x : D) → f.to_u8 x < 256
  pub get_byte-of_byte : (b : ℕ) → b < 256 → get_byte {D = D} (of_byte b) ≡ b
  pub of_byte-InUnit : (b : ℕ) → b < 256 → InUnit {D = D} (of_byte b)
