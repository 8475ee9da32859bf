-- ===== src/ImageProcessor/Filter/Blur.antt =====
-- filter.cpp, `GaussianBlur`, and matrix.cpp: the kernel of the blur has an odd length in both
-- passes, so `Multiply` stays inside it.
use high_load_systems.Common.{
  ℕ, ◌<◌, ◌≡◌, refl, List, [], ◌∷◌, arith, Bool-cases, inl, inr, true, false, if◌then◌else◌, length,
  length-set, set, ℤ, pos, negsuc, ◌+ℤ◌, ok, err, Returns, for_each-Returns, update_each-Returns,
}
use high_load_systems.ImageProcessor.Floats.{Float, IsIeee, zero_d}
use high_load_systems.ImageProcessor.Exception.{out_of_bounds, length_error, zero_sigma}
use high_load_systems.ImageProcessor.Image.{Image}
use high_load_systems.ImageProcessor.Image.Shape.{
  IsGrid, Anything, IsPicture, IsImage-forget, All-get, All-Anything,
}
use high_load_systems.ImageProcessor.Image.Multiply.{IsKernel, multiply-Returns}
use high_load_systems.ImageProcessor.Image.Transpose.{transpose-Returns}
use high_load_systems.ImageProcessor.Filter.{
  resize, is_even, gauss_weight, weigh, calc_matrix, apply_gaussian_blur,
}
use high_load_systems.ImageProcessor.Filter.Picture.{Safe, Safe-bind, resize-Returns}

module _ {D : Type 0} ⦃f : Float D⦄ where
  weigh-Returns :
      (sigma : D) (n col : ℕ) (s : List D × D)
      → col < n
      → length s.0 ≡ n
      → Returns (weigh sigma n col s) λ t. length t.0 ≡ n
  unfolding weigh
  weigh-Returns sigma n col (row, sum) hc len =
      let (x, ex, _) = All-get Anything row col (All-Anything row) (omega (arith, len)) in
      (
        (set row col (gauss_weight sigma n col), f.add sum (gauss_weight sigma n col)),
        rw ex,
        omega (arith, len, length-set row col (gauss_weight sigma n col)),
      )

  -- A computed kernel is one row of `size` numbers.
  calc_matrix-pos :
      (sigma : D) (n : ℕ)
      → f.eq sigma zero_d ≡ false
      → Returns (calc_matrix sigma (pos n)) (IsGrid 1 n Anything)
  unfolding calc_matrix
  calc_matrix-pos sigma n nonzero =
      let (row, er, (len, _)) = resize-Returns Anything n zero_d [] tt tt in
      let ((row', sum), loop, len') =
        for_each-Returns (λ (s : List D × D). length s.0 ≡ n) n (weigh sigma n) (row, zero_d)
          (λ col s hc l. weigh-Returns sigma n col s hc l) len in
      let (out, eo, (leno, _)) =
        update_each-Returns out_of_bounds Anything Anything n (λ _ x. ok (f.div x sum)) row' len'
          (All-Anything row') (λ i x hi _. (f.div x sum, refl, tt)) in
      (
        out ∷ [],
        rw (nonzero, er, loop, eo),
        record { rows = refl; lines = ((leno, All-Anything out), tt) },
      )

  -- A kernel of odd length has the shape that `Multiply` wants; a negative length throws.
  calc_matrix-odd :
      (sigma : D) (size : ℤ)
      → is_even size ≡ false
      → f.eq sigma zero_d ≡ false
      → Safe (calc_matrix sigma size) λ m. (n : ℕ) × IsKernel 1 n m
  unfolding calc_matrix resize
  calc_matrix-odd sigma (pos n) odd nonzero =
      let (m, run, g) = calc_matrix-pos sigma n nonzero in
      inl (m, run, (n, record { shape = g; odd_rows = refl; odd_cols = ground arith }))
  calc_matrix-odd sigma (negsuc n) odd nonzero = inr (length_error, rw nonzero, λ e. cc)

  -- The run throws if sigma is 0.
  calc_matrix-zero :
      (sigma : D) (size : ℤ) → f.eq sigma zero_d ≡ true → calc_matrix sigma size ≡ err zero_sigma
  unfolding calc_matrix
  calc_matrix-zero sigma size nil = rw nil

  calc_matrix-Safe :
      (sigma : D) (size : ℤ)
      → is_even size ≡ false
      → Safe (calc_matrix sigma size) λ m. (n : ℕ) × IsKernel 1 n m
  calc_matrix-Safe sigma size odd = elim (Bool-cases (f.eq sigma zero_d)) [
    | inl nil ↦ inr (zero_sigma, calc_matrix-zero sigma size nil, λ e. cc)
    | inr nonzero ↦ calc_matrix-odd sigma size odd nonzero
  ]

-- `if (size % 2 == 0) size += 1;` leaves an odd number.
made_odd : (size : ℤ) → is_even (if is_even size then size +ℤ pos 1 else size) ≡ false
unfolding ◌+ℤ◌
made_odd (pos n) = ground arith
made_odd (negsuc n) = ground arith

module _ {D : Type 0} ⦃f : Float D⦄ (ieee : IsIeee D) where
  -- Blurring a picture with any sigma ends in a picture with channels between 0 and 1 or in an
  -- exception, and both passes stay inside the kernel and the picture.
  pub apply_gaussian_blur-Safe :
      (sigma : D) (img : Image D) → IsPicture img → Safe (apply_gaussian_blur sigma img) IsPicture
  unfolding apply_gaussian_blur
  apply_gaussian_blur-Safe sigma img v =
      Safe-bind (λ m. (n : ℕ) × IsKernel 1 n m) IsPicture _ _
        (calc_matrix-Safe sigma _ (made_odd (f.to_int32 (f.mul sigma (f.of_int (pos 4))))))
        λ m run (n, k).
          let (one, e1, (v1, _, _, _)) = multiply-Returns k ieee img (IsImage-forget v) in
          let (t, et, gt) = transpose-Returns 1 n m k.shape (omega arith) in
          let column : IsKernel n 1 t = record {
            shape = gt;
            odd_rows = k.odd_cols;
            odd_cols = refl;
          } in
          let (two, e2, (v2, _, _, _)) = multiply-Returns column ieee one (IsImage-forget v1) in
          inl (two, rw (e1, et) e2, v2)
