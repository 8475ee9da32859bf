-- ===== src/ImageProcessor/Filter.antt =====
-- image_processor/{include/filter.h, src/filter.cpp, src/handler.cpp}: the filter classes as
-- constructors, `Apply` of each, and the loop that applies them in turn. An int16_t or int32_t is
-- an integer; `int` arithmetic that would overflow wraps where it is stored.
pub mod Picture
pub mod Cropping
pub mod Crop
pub mod Blur
pub mod Safety
pub mod Widths
use high_load_systems.Common.{
  ℕ, ◌+◌, ◌-◌, ◌*◌, ◌/◌, ◌%◌, Bool, ◌&&◌, ◌||◌, List, [], ◌∷◌, ◌++◌, map, ltb, leb, ◌==◌,
  if◌then◌else◌, codes, length, replicate, set, take, ℤ, pos, negsuc, ◌+ℤ◌, ◌-ℤ◌, ◌*ℤ◌, pos_part,
  ltb_ℤ, leb_ℤ, ok, err, ◌>>=◌, at, update_each, traverse, for_loop,
}
use high_load_systems.ImageProcessor.Floats.{Float, zero_d, one_d}
use high_load_systems.ImageProcessor.Exception.{
  Run, length_error, out_of_bounds, zero_sigma, bad_center,
}
use high_load_systems.ImageProcessor.Image.{
  Pixel, Image, to_int32, to_uint32, wrap_int, cell, update_grid, no_pixel, transpose, multiply,
}

pub data Filter (D : Type 0) : Type 0 where
  crop : (width height : ℤ) → Filter D
  grayscale : Filter D
  negative : Filter D
  sharpening : Filter D
  edge_detection : (threshold : D) → Filter D
  gaussian_blur : (sigma : D) → Filter D
  tunnel : (center_h center_w : ℤ) (strength radius : D) → Filter D

-- std::vector::resize: a negative size, converted to size_t, is past max_size().
unfoldable pub resize {ℓ} : {A : Type ℓ} → ℤ → A → List A → Run (List A)
resize (pos n) x xs = ok (take n xs ++ replicate (n - length xs) x)
resize (negsuc n) x xs = err length_error

-- `/` of int: towards zero.
abbrev pub quot_ℤ : ℤ → ℕ → ℤ
quot_ℤ (pos n) k = pos (n / k)
quot_ℤ (negsuc n) k = pos 0 -ℤ pos ((n + 1) / k)

abbrev pub is_even : ℤ → Bool
is_even (pos n) = n % 2 == 0
is_even (negsuc n) = (n + 1) % 2 == 0

abbrev pub is_zero : ℤ → Bool
is_zero (pos n) = n == 0
is_zero (negsuc n) = Bool.false

-- The centre that the arguments name: 0 stands for the middle of the picture.
abbrev pub tunnel_center : ℕ → ℤ → ℤ
tunnel_center size center = if is_zero center then to_int32 (size / 2) else center

abbrev pub is_outside : ℕ → ℤ → Bool
is_outside size center = ltb_ℤ center (pos 0) || leb size (to_uint32 center)

module _ {D : Type 0} ⦃f : Float D⦄ where
  open f use {of_int, of_text, add, sub, mul, div, lt, le, eq}

  -- The first block of `Crop::Apply`.
  crop_height : ℤ → Image D → Run (Image D)
  crop_height height img =
      if ltb (to_uint32 height) img.height
      then (do
        pixels ← resize height [] img.pixels
        buffer ← resize height [] img.buffer
        ok (record img {
          pixels = pixels;
          buffer = buffer;
          info = record img.info { height = to_uint32 height };
        }))
      else ok img

  -- The second block.
  crop_width : ℤ → Image D → Run (Image D)
  crop_width width img =
      if ltb (to_uint32 width) img.width
      then (do
        pixels ← traverse (λ _ line. resize width no_pixel line) img.pixels
        buffer ← traverse (λ _ line. resize width no_pixel line) img.buffer
        ok (record img {
          pixels = pixels;
          buffer = buffer;
          info = record img.info { width = to_uint32 width };
        }))
      else ok img

  -- `Crop::Apply`
  pub apply_crop : ℤ → ℤ → Image D → Run (Image D)
  apply_crop width height img = do
    img ← crop_height height img
    img ← crop_width width img
    ok (record img {
      info = record img.info {
        image_size = to_uint32 (height *ℤ (quot_ℤ (width *ℤ pos 3 +ℤ pos 3) 4 *ℤ pos 4));
      };
    })

  -- std::max(0.0, std::min(1.0, color))
  clamp_unit : D → D
  clamp_unit color =
      let least = if lt color one_d then color else one_d in
      if lt zero_d least then least else zero_d

  -- The pixel that `Grayscale::Apply` writes.
  gray_pixel : Pixel D → Pixel D
  gray_pixel p =
      let color =
        add (add (mul p.r (of_text (codes "0.299"))) (mul p.g (of_text (codes "0.587"))))
          (mul p.b (of_text (codes "0.114"))) in
      record { r = clamp_unit color; g = clamp_unit color; b = clamp_unit color }

  -- `Grayscale::Apply`
  pub apply_grayscale : Image D → Image D
  apply_grayscale img = record img { pixels = map (map gray_pixel) img.pixels }

  negative_pixel : Pixel D → Pixel D
  negative_pixel p = record { r = sub one_d p.r; g = sub one_d p.g; b = sub one_d p.b }

  -- `Negative::Apply`
  pub apply_negative : Image D → Image D
  apply_negative img = record img { pixels = map (map negative_pixel) img.pixels }

  -- A matrix of filter.h with this value in the middle.
  abbrev pub cross_matrix : ℤ → List (List D)
  cross_matrix middle =
      let o = of_int (pos 0) in
      let n = of_int (negsuc 0) in
      (o ∷ n ∷ o ∷ []) ∷ (n ∷ of_int middle ∷ n ∷ []) ∷ (o ∷ n ∷ o ∷ []) ∷ []

  -- `Sharpening::Apply`
  pub apply_sharpening : Image D → Run (Image D)
  apply_sharpening img = multiply (cross_matrix (pos 5)) img

  -- Black up to the threshold, white above it.
  threshold_pixel : D → Pixel D → Pixel D
  threshold_pixel threshold p =
      if le p.r threshold
      then record { r = zero_d; g = zero_d; b = zero_d }
      else record { r = one_d; g = one_d; b = one_d }

  -- `EdgeDetection::Apply`
  pub apply_edge_detection : D → Image D → Run (Image D)
  apply_edge_detection threshold img = do
    img ← multiply (cross_matrix (pos 4)) (apply_grayscale img)
    pixels ← update_grid img.height img.width (λ _ _ p. ok (threshold_pixel threshold p)) img.pixels
    ok (record img { pixels = pixels })

  -- The weight that `CalcMatrix` gives to a column before it divides by the sum.
  gauss_weight : D → ℕ → ℕ → D
  gauss_weight sigma size col =
      let d_col = if ltb (size / 2) col then col - size / 2 else size / 2 - col in
      let square = wrap_int (pos (d_col * d_col)) in
      let double_sigma = mul (mul (of_int (pos 2)) sigma) sigma in
      let e =
        f.powf f.euler (f.to_float (div (of_int (wrap_int (pos 0 -ℤ square))) double_sigma)) in
      div (div e f.pi) double_sigma

  -- The body of the first loop of `CalcMatrix`, over the row and its sum.
  weigh : D → ℕ → ℕ → List D × D → Run (List D × D)
  weigh sigma size col (row, sum) = do
    _ ← at out_of_bounds row col
    ok (set row col (gauss_weight sigma size col), add sum (gauss_weight sigma size col))

  -- `GaussianBlur::CalcMatrix`
  pub calc_matrix : D → ℤ → Run (List (List D))
  calc_matrix sigma size = if eq sigma zero_d then err zero_sigma else (do
    row ← resize size zero_d []
    (row, sum) ← for_loop (pos_part size) 0 (weigh sigma (pos_part size)) (row, zero_d)
    row ← update_each out_of_bounds (pos_part size) 0 (λ _ x. ok (div x sum)) row
    ok (row ∷ []))

  -- `GaussianBlur::Apply`
  pub apply_gaussian_blur : D → Image D → Run (Image D)
  apply_gaussian_blur sigma img = do
    let size = f.to_int32 (mul sigma (of_int (pos 4)))
    matrix ← calc_matrix sigma (if is_even size then size +ℤ pos 1 else size)
    img ← multiply matrix img
    matrix ← transpose matrix
    multiply matrix img

  -- The assignments to `buffer[row][col]` in `Tunnel::Apply`; `turned` is the test on the distance.
  tunnel_pick : Image D → Pixel D → Bool → ℤ → ℤ → Run (Pixel D)
  tunnel_pick img here turned src_row src_col =
      let in_cols = leb_ℤ (pos 0) src_col && ltb (to_uint32 src_col) img.width in
      let in_rows = leb_ℤ (pos 0) src_row && ltb (to_uint32 src_row) img.height in
      if turned && (in_cols && in_rows)
      then cell img.pixels (pos_part src_row) (pos_part src_col)
      else ok here

  -- The inner body of `Tunnel::Apply`.
  tunnel_pixel : ℤ → ℤ → D → D → Image D → ℕ → ℕ → Run (Pixel D)
  tunnel_pixel center_h center_w strength radius img row col =
      let d_row = of_int (pos row -ℤ center_h) in
      let d_col = of_int (pos col -ℤ center_w) in
      let distance = f.sqrt (add (mul d_row d_row) (mul d_col d_col)) in
      let new_angle = add (f.atan2 d_row d_col) (mul strength (sub one_d (div distance radius))) in
      cell img.pixels row col >>= λ here.
      tunnel_pick img here (lt distance radius && lt zero_d distance)
        (wrap_int (center_h +ℤ f.to_int32 (mul distance (f.sin new_angle))))
        (wrap_int (center_w +ℤ f.to_int32 (mul distance (f.cos new_angle))))

  -- `Tunnel::Apply`
  pub apply_tunnel : ℤ → ℤ → D → D → Image D → Run (Image D)
  apply_tunnel center_h_arg center_w_arg strength radius img =
      let center_h = tunnel_center img.height center_h_arg in
      let center_w = tunnel_center img.width center_w_arg in
      if is_outside img.height center_h
      then err (bad_center center_h)
      else if is_outside img.width center_w
      then err (bad_center center_w)
      else (do
        pixels ←
            update_grid img.height img.width
              (λ row col _. tunnel_pixel center_h center_w strength radius img row col)
              (replicate img.height (replicate img.width no_pixel))
        ok (record img { pixels = pixels }))

  -- `Filter::Apply`, by the class of the filter.
  pub apply : Filter D → Image D → Run (Image D)
  apply (crop width height) img = apply_crop width height img
  apply grayscale img = ok (apply_grayscale img)
  apply negative img = ok (apply_negative img)
  apply sharpening img = apply_sharpening img
  apply (edge_detection threshold) img = apply_edge_detection threshold img
  apply (gaussian_blur sigma) img = apply_gaussian_blur sigma img
  apply (tunnel center_h center_w strength radius) img =
      apply_tunnel center_h center_w strength radius img

  -- `ApplyFilters` of handler.cpp
  pub apply_filters : List (Filter D) → Image D → Run (Image D)
  apply_filters [] img = ok img
  apply_filters (filter ∷ filters) img = do img ← apply filter img; apply_filters filters img
