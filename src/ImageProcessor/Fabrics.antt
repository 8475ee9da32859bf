-- ===== src/ImageProcessor/Fabrics.antt =====
-- image_processor/{include/fabrics.h, src/fabrics.cpp}: the checks of the command line's arguments,
-- and the filters made from them.
pub mod Arguments
pub mod Numbers
use high_load_systems.Common.{
  ℕ, ◌+◌, ◌-◌, ◌*◌, ◌%◌, ◌^◌, Bool, true, false, ◌&&◌, ◌||◌, List, [], ◌∷◌, ltb, leb, ◌==◌,
  if◌then◌else◌, Bytes, length, ℤ, pos, negsuc, ok, err, ◌>>=◌, ◌>>◌,
}
use high_load_systems.ImageProcessor.Floats.{Float}
use high_load_systems.ImageProcessor.Exception.{
  Run, ParserError, too_long, not_integer, not_float, is_null, parser,
}
use high_load_systems.ImageProcessor.Filter.{
  Filter, crop, grayscale, negative, sharpening, edge_detection, gaussian_blur, tunnel,
}

abbrev pub max_integer_length : ℕ
max_integer_length = 9

-- std::isdigit
abbrev pub is_digit : ℕ → Bool
is_digit c = leb b'0' c && leb c b'9'

-- The loop of `IsInteger`: no character that is not a digit.
abbrev pub all_digits : Bytes → Bool
all_digits [] = true
all_digits (c ∷ s) = is_digit c && all_digits s

-- The loop of `IsFloat`, which also counts the dots.
abbrev pub all_digits_or_dots : Bytes → Bool
all_digits_or_dots [] = true
all_digits_or_dots (c ∷ s) = (is_digit c || c == b'.') && all_digits_or_dots s

abbrev pub count_dots : Bytes → ℕ
count_dots [] = 0
count_dots (c ∷ s) = (if c == b'.' then 1 else 0) + count_dots s

-- The loop of `IsNotNull`: a character other than a dot or a zero.
abbrev pub has_other : Bytes → Bool
has_other [] = false
has_other (c ∷ s) = if c == b'.' || c == b'0' then has_other s else true

-- `IsInteger`
pub is_integer : Bytes → Run (Unit {0})
is_integer s =
    if ltb max_integer_length (length s)
    then err (parser (too_long s))
    else if all_digits s
    then ok tt
    else err (parser (not_integer s))

-- `IsFloat`
unfoldable pub is_float : Bytes → Run (Unit {0})
is_float s =
    if ltb max_integer_length (length s)
    then err (parser (too_long s))
    else if all_digits_or_dots s
    then (if ltb 1 (count_dots s) then err (parser (not_float s)) else ok tt)
    else err (parser (not_integer s))

-- `IsNotNull`
pub is_not_null : Bytes → Run (Unit {0})
is_not_null s = if has_other s then ok tt else err (parser (is_null s))

-- std::atoi, of text that `IsInteger` has let through: the number of the leading digits.
pub atoi_from : ℕ → Bytes → ℕ
atoi_from n [] = n
atoi_from n (c ∷ s) = let rest = atoi_from (n * 10 + (c - b'0')) s in if is_digit c then rest else n

pub atoi : Bytes → ℕ
unfolding atoi_from
atoi s = atoi_from 0 s

-- The conversion of a non-negative int to int16_t, which the constructor of `Crop` makes.
abbrev pub to_int16 : ℕ → ℤ
to_int16 n = let low = n % 2 ^ 16 in if ltb low (2 ^ 15) then pos low else negsuc (2 ^ 16 - low - 1)

module _ {D : Type 0} ⦃f : Float D⦄ where
  -- `CropFabric::Make`
  pub make_crop : (width height : Bytes) → Run (Filter D)
  unfolding is_integer is_not_null atoi
  make_crop width height = do
    is_integer height
    is_not_null height
    is_integer width
    is_not_null width
    ok (crop (to_int16 (atoi width)) (to_int16 (atoi height)))

  -- `GrayScaleFabric::Make`, `NegativeFabric::Make` and `SharpFabric::Make`
  abbrev pub make_gray_scale : Run (Filter D)
  make_gray_scale = ok grayscale

  abbrev pub make_negative : Run (Filter D)
  make_negative = ok negative

  abbrev pub make_sharp : Run (Filter D)
  make_sharp = ok sharpening

  -- `EdgeFabric::Make`
  pub make_edge : Bytes → Run (Filter D)
  unfolding is_float
  make_edge value = do is_float value; ok (edge_detection (f.of_text value))

  -- `BlurFabric::Make`
  pub make_blur : Bytes → Run (Filter D)
  unfolding is_float
  make_blur value = do is_float value; ok (gaussian_blur (f.of_text value))

  -- `TunnelFabric::Make`
  pub make_tunnel : (pixel_h pixel_w strength radius : Bytes) → Run (Filter D)
  unfolding is_integer is_float atoi
  make_tunnel pixel_h pixel_w strength radius = do
    is_integer pixel_h
    is_integer pixel_w
    is_float strength
    is_float radius
    ok (tunnel (pos (atoi pixel_h)) (pos (atoi pixel_w)) (f.of_text strength) (f.of_text radius))
