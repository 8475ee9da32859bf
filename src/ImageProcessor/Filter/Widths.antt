-- ===== src/ImageProcessor/Filter/Widths.antt =====
-- filter.cpp: no filter makes the picture wider.
use high_load_systems.Common.{
  ℕ, ◌≤◌, arith, List, [], ◌∷◌, ℤ, pos, ok, ltb, ltb→lt, ◌+ℤ◌, if◌then◌else◌, traverse, replicate,
}
use high_load_systems.ImageProcessor.Floats.{Float}
use high_load_systems.ImageProcessor.Image.{
  Image, to_uint32, multiply, update_grid, no_pixel, transpose,
}
use high_load_systems.ImageProcessor.Image.Narrows.{
  Narrows, Narrows-bind, Narrows-ok, Narrows-err, Narrows-then, Narrows-if, multiply-Narrows,
}
use high_load_systems.ImageProcessor.Filter.{
  Filter, crop, grayscale, negative, sharpening, edge_detection, gaussian_blur, tunnel, crop_height,
  crop_width, apply_crop, apply_grayscale, apply_negative, apply_sharpening, apply_edge_detection,
  apply_gaussian_blur, apply_tunnel, apply, apply_filters, resize, tunnel_center, is_outside,
  tunnel_pixel, cross_matrix, threshold_pixel, calc_matrix, is_even,
}

module _ {D : Type 0} ⦃f : Float D⦄ (n : ℕ) where
  crop_height-Narrows :
      (height : ℤ) (img : Image D) → img.width ≤ n → Narrows n (crop_height height img)
  unfolding crop_height
  crop_height-Narrows height img w =
      Narrows-if n (ltb (to_uint32 height) img.height) _ _
        (λ _.
          Narrows-bind n (resize height [] img.pixels) _
            (λ a. Narrows-bind n (resize height [] img.buffer) _ (λ b. Narrows-ok n _ w)))
        (λ _. Narrows-ok n _ w)

  crop_width-Narrows :
      (width : ℤ) (img : Image D) → img.width ≤ n → Narrows n (crop_width width img)
  unfolding crop_width
  crop_width-Narrows width img w =
      Narrows-if n (ltb (to_uint32 width) img.width) _ _
        (λ less.
          let lt = ltb→lt (to_uint32 width) img.width less in
          Narrows-bind n (traverse (λ _ line. resize width no_pixel line) img.pixels) _ (λ a.
            Narrows-bind n (traverse (λ _ line. resize width no_pixel line) img.buffer) _
              (λ b. Narrows-ok n _ (omega arith))))
        (λ _. Narrows-ok n _ w)

  tunnel-Narrows :
      (center_h center_w : ℤ) (strength radius : D) (img : Image D)
      → img.width ≤ n
      → Narrows n (apply_tunnel center_h center_w strength radius img)
  unfolding apply_tunnel
  tunnel-Narrows center_h center_w strength radius img w =
      let ch = tunnel_center img.height center_h in
      let cw = tunnel_center img.width center_w in
      Narrows-if n (is_outside img.height ch) _ _ (λ _. Narrows-err D n _)
        (λ _.
          Narrows-if n (is_outside img.width cw) _ _ (λ _. Narrows-err D n _)
            (λ _.
              Narrows-bind n
                (update_grid img.height img.width
                  (λ row col _. tunnel_pixel ch cw strength radius img row col)
                  (replicate img.height (replicate img.width no_pixel)))
                _ (λ pixels. Narrows-ok n _ w)))

  apply-Narrows : (filter : Filter D) (img : Image D) → img.width ≤ n → Narrows n (apply filter img)
  unfolding apply apply_crop apply_grayscale apply_negative apply_sharpening apply_edge_detection
      apply_gaussian_blur
  apply-Narrows (crop width height) img w =
      Narrows-then n (crop_height height img) _ (crop_height-Narrows height img w) (λ img w.
        Narrows-then n (crop_width width img) _ (crop_width-Narrows width img w)
          (λ img w. Narrows-ok n _ w))
  apply-Narrows grayscale img w = Narrows-ok n _ w
  apply-Narrows negative img w = Narrows-ok n _ w
  apply-Narrows sharpening img w = multiply-Narrows n (cross_matrix (pos 5)) img w
  apply-Narrows (edge_detection threshold) img w =
      Narrows-then n (multiply (cross_matrix (pos 4)) (apply_grayscale img)) _
        (multiply-Narrows n (cross_matrix (pos 4)) (apply_grayscale img) w)
        (λ img w.
          Narrows-bind n
            (update_grid img.height img.width (λ _ _ p. ok (threshold_pixel threshold p))
              img.pixels)
            _ (λ pixels. Narrows-ok n _ w))
  apply-Narrows (gaussian_blur sigma) img w =
      let size = f.to_int32 (f.mul sigma (f.of_int (pos 4))) in
      Narrows-bind n (calc_matrix sigma (if is_even size then size +ℤ pos 1 else size)) _ (λ matrix.
        Narrows-then n (multiply matrix img) _ (multiply-Narrows n matrix img w) (λ img w.
          Narrows-bind n (transpose matrix) _ (λ turned. multiply-Narrows n turned img w)))
  apply-Narrows (tunnel center_h center_w strength radius) img w =
      tunnel-Narrows center_h center_w strength radius img w

  -- The result of any filters is no wider than the image.
  pub apply_filters-Narrows :
      (filters : List (Filter D)) (img : Image D)
      → img.width ≤ n
      → Narrows n (apply_filters filters img)
  unfolding apply_filters
  apply_filters-Narrows [] img w = Narrows-ok n _ w
  apply_filters-Narrows (filter ∷ filters) img w =
      Narrows-then n (apply filter img) _ (apply-Narrows filter img w)
        (apply_filters-Narrows filters)
