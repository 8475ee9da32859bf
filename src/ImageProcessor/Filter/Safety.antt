-- ===== src/ImageProcessor/Filter/Safety.antt =====
-- filter.cpp and handler.cpp: no filter indexes past a vector, and each keeps the picture valid
-- and its channels between 0 and 1.
use high_load_systems.Common.{
  ℕ, ◌<◌, ◌≡◌, refl, List, [], ◌∷◌, arith, Bool, true, ltb, Bool-cases, inl, inr, ℤ, pos, negsuc,
  ok, All, IsInt16, IsInt32, leb_ℤ, ◌&&◌, ◌^◌, Returns, pos_part, replicate,
}
use high_load_systems.ImageProcessor.Floats.{Float, IsIeee, InUnit, zero_d, one_d}
use high_load_systems.ImageProcessor.Exception.{bad_center}
use high_load_systems.ImageProcessor.Image.{Image, Pixel, to_uint32, no_pixel, wrap_int}
use high_load_systems.ImageProcessor.Image.Shape.{
  IsGrid, Anything, PixelInUnit, IsValid, IsPicture, IsImage-forget, cell-Returns,
}
use high_load_systems.ImageProcessor.Image.Multiply.{
  IsKernel, multiply-Returns, update_grid-Returns,
}
use high_load_systems.ImageProcessor.Image.Transpose.{IsGrid-replicate}
use high_load_systems.ImageProcessor.Filter.{
  Filter, crop, grayscale, negative, sharpening, edge_detection, gaussian_blur, tunnel,
  cross_matrix, clamp_unit, gray_pixel, apply_grayscale, negative_pixel, apply_negative,
  apply_sharpening, threshold_pixel, apply_edge_detection, tunnel_pick, tunnel_pixel, tunnel_center,
  is_outside, apply_tunnel, apply, apply_filters,
}
use high_load_systems.ImageProcessor.Filter.Picture.{Safe, Safe-bind, IsGrid-map}
use high_load_systems.ImageProcessor.Filter.Cropping.{apply_crop-Returns}
use high_load_systems.ImageProcessor.Filter.Blur.{apply_gaussian_blur-Safe}

-- The arguments of `Crop` are int16_t, the centre of `Tunnel` is int32_t.
abbrev pub HasArguments : {D : Type 0} → Filter D → Type 0
HasArguments (crop width height) = IsInt16 width × IsInt16 height
HasArguments (tunnel center_h center_w strength radius) = IsInt32 center_h × IsInt32 center_w
HasArguments _ = Unit

-- A position that passes the test of `Tunnel` lies inside.
inside_of_test :
    (size : ℕ) (c : ℤ)
    → pos_part c < 2 ^ 32
    → (leb_ℤ (pos 0) c && ltb (to_uint32 c) size) ≡ true
    → pos_part c < size
inside_of_test size (pos n) h t = ground arith
inside_of_test size (negsuc n) h t = ground arith

wrap_int_fits : (c : ℤ) → pos_part (wrap_int c) < 2 ^ 32
wrap_int_fits (pos n) = ground arith
wrap_int_fits (negsuc n) = ground arith

both_true : (a b c : Bool) → (a && (b && c)) ≡ true → (b ≡ true) × (c ≡ true)
both_true a b c h = ground arith

module _ {D : Type 0} ⦃f : Float D⦄ where
  cross_matrix-IsKernel : (middle : ℤ) → IsKernel {D = D} 3 3 (cross_matrix middle)
  cross_matrix-IsKernel middle = record {
    shape = record { rows = refl; lines = omega arith };
    odd_rows = refl;
    odd_cols = refl;
  }

module _ {D : Type 0} ⦃f : Float D⦄ (ieee : IsIeee D) where
  clamp_unit-InUnit : (x : D) → InUnit (clamp_unit x)
  unfolding clamp_unit
  clamp_unit-InUnit x = ground (
    arith,
    ieee.zero-le-zero,
    ieee.zero-le-one,
    ieee.one-le-one,
    ieee.lt-le x one_d,
    ieee.lt-le zero_d x,
  )

  gray_pixel-InUnit : (p : Pixel D) → PixelInUnit (gray_pixel p)
  unfolding gray_pixel
  gray_pixel-InUnit p = (clamp_unit-InUnit _, clamp_unit-InUnit _, clamp_unit-InUnit _)

  one-sub-InUnit : (x : D) → InUnit x → InUnit (f.sub one_d x)
  one-sub-InUnit x u = (
    rw ieee.one-sub-one at (ieee.one-sub-anti x one_d u.1),
    rw ieee.one-sub-zero at (ieee.one-sub-anti zero_d x u.0),
  )

  negative_pixel-InUnit : (p : Pixel D) → PixelInUnit p → PixelInUnit (negative_pixel p)
  unfolding negative_pixel
  negative_pixel-InUnit p u =
      (one-sub-InUnit p.r u.0, one-sub-InUnit p.g u.1, one-sub-InUnit p.b u.2)

  threshold_pixel-InUnit : (threshold : D) (p : Pixel D) → PixelInUnit (threshold_pixel threshold p)
  unfolding threshold_pixel
  threshold_pixel-InUnit threshold p =
      ground (arith, ieee.zero-le-zero, ieee.zero-le-one, ieee.one-le-one)

  -- New pixels for the picture, of the same shape.
  repainted :
      (img : Image D) (pixels : List (List (Pixel D)))
      → IsValid img
      → IsGrid img.height img.width PixelInUnit pixels
      → IsPicture (record img { pixels = pixels })
  repainted img pixels v g = record {
    picture = g;
    scratch = v.scratch;
    height_fits = v.height_fits;
    width_fits = v.width_fits;
  }

  apply_grayscale-IsPicture : (img : Image D) → IsValid img → IsPicture (apply_grayscale img)
  unfolding apply_grayscale
  apply_grayscale-IsPicture img v =
      repainted img _ v (
        IsGrid-map Anything PixelInUnit gray_pixel img.pixels (λ p _. gray_pixel-InUnit p)
          v.picture)

  apply_negative-IsPicture : (img : Image D) → IsPicture img → IsPicture (apply_negative img)
  unfolding apply_negative
  apply_negative-IsPicture img v =
      repainted img _ (IsImage-forget v) (
        IsGrid-map PixelInUnit PixelInUnit negative_pixel img.pixels negative_pixel-InUnit
          v.picture)

  apply_sharpening-Returns :
      (img : Image D) → IsPicture img → Returns (apply_sharpening img) IsPicture
  unfolding apply_sharpening
  apply_sharpening-Returns img v =
      let (out, run, (vo, _, _, _)) =
        multiply-Returns (cross_matrix-IsKernel (pos 5)) ieee img (IsImage-forget v) in
      (out, run, vo)

  apply_edge_detection-Returns :
      (threshold : D) (img : Image D)
      → IsPicture img
      → Returns (apply_edge_detection threshold img) IsPicture
  unfolding apply_edge_detection
  apply_edge_detection-Returns threshold img v =
      let gray = apply_grayscale-IsPicture img (IsImage-forget v) in
      let (out, run, (vo, _, _, _)) =
        multiply-Returns (cross_matrix-IsKernel (pos 4)) ieee (apply_grayscale img)
          (IsImage-forget gray) in
      let (pixels, ep, g) =
        update_grid-Returns PixelInUnit PixelInUnit (λ _ _ p. ok (threshold_pixel threshold p))
          out.pixels vo.picture
          (λ row col p hr hc _.
            (threshold_pixel threshold p, refl, threshold_pixel-InUnit threshold p)) in
      (record out { pixels = pixels }, rw (run, ep), repainted out pixels (IsImage-forget vo) g)

  -- The pixel that `Tunnel` copies lies in the picture.
  tunnel_pick-Returns :
      (img : Image D) (here : Pixel D) (turned : Bool) (src_row src_col : ℤ)
      → IsPicture img
      → PixelInUnit here
      → pos_part src_row < 2 ^ 32
      → pos_part src_col < 2 ^ 32
      → Returns (tunnel_pick img here turned src_row src_col) PixelInUnit
  unfolding tunnel_pick
  tunnel_pick-Returns img here turned src_row src_col v unit fr fc =
      let in_cols = leb_ℤ (pos 0) src_col && ltb (to_uint32 src_col) img.width in
      let in_rows = leb_ℤ (pos 0) src_row && ltb (to_uint32 src_row) img.height in
      elim (Bool-cases (turned && (in_cols && in_rows))) [
        | inl picked ↦
            let (cols, rows) = both_true turned in_cols in_rows picked in
            rw picked (
              cell-Returns img.pixels (pos_part src_row) (pos_part src_col) v.picture
                (inside_of_test img.height src_row fr rows)
                (inside_of_test img.width src_col fc cols))
        | inr kept ↦ rw kept (here, refl, unit)
      ]

  tunnel_pixel-Returns :
      (center_h center_w : ℤ) (strength radius : D) (img : Image D) (row col : ℕ)
      → IsPicture img
      → row < img.height
      → col < img.width
      → Returns (tunnel_pixel center_h center_w strength radius img row col) PixelInUnit
  unfolding tunnel_pixel
  tunnel_pixel-Returns center_h center_w strength radius img row col v hr hc =
      let (here, eh, unit) = cell-Returns img.pixels row col v.picture hr hc in
      rw eh (tunnel_pick-Returns img here _ _ _ v unit (wrap_int_fits _) (wrap_int_fits _))

  -- `Tunnel` throws on a centre outside the picture, and otherwise returns a picture.
  apply_tunnel-Safe :
      (center_h center_w : ℤ) (strength radius : D) (img : Image D)
      → IsInt32 center_h
      → IsInt32 center_w
      → IsPicture img
      → Safe (apply_tunnel center_h center_w strength radius img) IsPicture
  unfolding apply_tunnel
  apply_tunnel-Safe center_h center_w strength radius img ih iw v =
      let ch = tunnel_center img.height center_h in
      let cw = tunnel_center img.width center_w in
      elim (Bool-cases (is_outside img.height ch)) [
        | inl out_h ↦ rw out_h (inr (bad_center ch, refl, λ e. cc))
        | inr in_h ↦ rw in_h (elim (Bool-cases (is_outside img.width cw)) [
          | inl out_w ↦ rw out_w (inr (bad_center cw, refl, λ e. cc))
          | inr in_w ↦
              let (pixels, run, g) =
                update_grid-Returns Anything PixelInUnit
                  (λ row col _. tunnel_pixel ch cw strength radius img row col)
                  (replicate img.height (replicate img.width no_pixel))
                  (IsGrid-replicate img.height img.width Anything no_pixel tt)
                  (λ row col _ hr hc _.
                    tunnel_pixel-Returns ch cw strength radius img row col v hr hc) in
              rw (in_w, run)
                (inl
                  (record img { pixels = pixels }, refl, repainted img pixels (IsImage-forget v) g))
        ])
      ]

  -- Each filter keeps a picture or throws.
  apply-Safe :
      (filter : Filter D) (img : Image D)
      → HasArguments filter
      → IsPicture img
      → Safe (apply filter img) IsPicture
  unfolding apply
  apply-Safe (crop width height) img a v = inl (apply_crop-Returns width height img a.0 a.1 v)
  apply-Safe grayscale img a v =
      inl (apply_grayscale img, refl, apply_grayscale-IsPicture img (IsImage-forget v))
  apply-Safe negative img a v = inl (apply_negative img, refl, apply_negative-IsPicture img v)
  apply-Safe sharpening img a v = inl (apply_sharpening-Returns img v)
  apply-Safe (edge_detection threshold) img a v = inl (apply_edge_detection-Returns threshold img v)
  apply-Safe (gaussian_blur sigma) img a v = apply_gaussian_blur-Safe ieee sigma img v
  apply-Safe (tunnel center_h center_w strength radius) img a v =
      apply_tunnel-Safe center_h center_w strength radius img a.0 a.1 v

  -- Any sequence of filters whose arguments fit their types, applied to a picture, ends in a
  -- picture with channels between 0 and 1 or in an exception of a filter, and never indexes past
  -- a vector.
  pub apply_filters-Safe :
      (filters : List (Filter D)) (img : Image D)
      → All HasArguments filters
      → IsPicture img
      → Safe (apply_filters filters img) IsPicture
  unfolding apply_filters
  apply_filters-Safe [] img a v = inl (img, refl, v)
  apply_filters-Safe (filter ∷ filters) img a v =
      Safe-bind IsPicture IsPicture _ _ (apply-Safe filter img a.0 v)
        λ next run vn. apply_filters-Safe filters next a.1 vn

pub apply_filters-nil : {D : Type 0} ⦃f : Float D⦄ (img : Image D) → apply_filters [] img ≡ ok img
unfolding apply_filters
apply_filters-nil img = refl
