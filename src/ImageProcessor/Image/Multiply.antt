-- ===== src/ImageProcessor/Image/Multiply.antt =====
-- image.cpp: the convolution never indexes past a vector, and its result is a valid image whose
-- channels lie between 0 and 1.
use high_load_systems.Common.{
  ℕ, ◌+◌, ◌*◌, ◌/◌, ◌%◌, ◌^◌, ◌<◌, ◌≡◌, refl, List, arith, pos, sub_ℕ, ok, ◌>>=◌, >>=-eq-ok,
  Returns, update_each, update_each-Returns, update_each-get_elem?, for_each-Returns, lt→ltb, ℤ,
}
use high_load_systems.ImageProcessor.Floats.{Float, IsIeee, InUnit}
use high_load_systems.ImageProcessor.Exception.{Run, out_of_bounds}
use high_load_systems.ImageProcessor.Image.{
  Image, Pixel, cell, update_grid, normalize, in_square, source_of, convolve, multiply_pixel,
  multiply, add_scaled,
}
use high_load_systems.ImageProcessor.Image.Shape.{
  IsGrid, Anything, PixelInUnit, IsValid, IsPicture, All-get, cell-Returns,
}

-- A loop over a whole grid that succeeds at every cell keeps the shape.
pub update_grid-Returns {ℓ} :
    {A : Type ℓ} (P Q : A → Type 0) {h w : ℕ} (f : ℕ → ℕ → A → Run A) (grid : List (List A))
    → IsGrid h w P grid
    → ((row col : ℕ) (x : A) → row < h → col < w → P x → Returns (f row col x) Q)
    → Returns (update_grid h w f grid) (IsGrid h w Q)
update_grid-Returns P Q {h} {w} f grid g step =
    let (out, run, (len, lines)) =
      update_each-Returns out_of_bounds _ _ h
        (λ row line. update_each out_of_bounds w 0 (f row) line) grid g.rows g.lines
        (λ row line hr p.
          update_each-Returns out_of_bounds P Q w (f row) line p.0 p.1
            (λ col x hc px. step row col x hr hc px)) in
    (out, run, record { rows = len; lines = lines })

-- What a loop over a whole grid leaves in a cell.
pub update_grid-cell {ℓ} :
    {A : Type ℓ} {P : A → Type 0} {h w : ℕ} (f : ℕ → ℕ → A → Run A) (grid out : List (List A))
    (row col : ℕ)
    → IsGrid h w P grid
    → update_grid h w f grid ≡ ok out
    → row < h
    → col < w
    → (x : A) × (y : A) × (cell grid row col ≡ ok x)
      × (f row col x ≡ ok y)
      × (cell out row col ≡ ok y)
update_grid-cell {h} {w} f grid out row col g e hr hc =
    let (line, el, (len, cells)) = All-get _ grid row g.lines (omega (arith, g.rows)) in
    let (x, ex, _) = All-get _ line col cells (omega (arith, len)) in
    let (line', el', gl') = update_each-get_elem? out_of_bounds h _ grid out row line g.rows e el in
    let (y, ey, gy) = update_each-get_elem? out_of_bounds w (f row) line line' col x len el' ex in
    (x, y, rw (el) (rw ex refl), ey, rw gl' (rw gy refl))

-- The sampled position lies in the picture, for every offset.
pub source_of-lt :
    (height width row col : ℕ) (d_row d_col : ℤ)
    → height < 2 ^ 31
    → width < 2 ^ 31
    → row < height
    → col < width
    → ((source_of height width row col d_row d_col).0 < height)
      × ((source_of height width row col d_row d_col).1 < width)
unfolding source_of in_square
source_of-lt height width row col d_row d_col fh fw hr hc = ground arith

module _ {D : Type 0} ⦃f : Float D⦄ (ieee : IsIeee D) where
  -- `Normalize` clamps every value, NaN included.
  normalize-InUnit : (x : D) → InUnit (normalize x)
  unfolding normalize
  normalize-InUnit x = ground (
    arith,
    ieee.zero-le-zero,
    ieee.zero-le-one,
    ieee.one-le-one,
    ieee.lt-le (f.of_int (pos 0)) x,
    ieee.lt-le x (f.of_int (pos 1)),
  )

-- A matrix with an odd number of rows and an odd number of columns.
pub record IsKernel {D : Type 0} (rows cols : ℕ) (matrix : List (List D)) : Type 0 where
  pub shape : IsGrid rows cols Anything matrix
  pub odd_rows : rows % 2 ≡ 1
  pub odd_cols : cols % 2 ≡ 1

module _ {D : Type 0} ⦃f : Float D⦄ {rows cols : ℕ} {matrix : List (List D)}
    (kernel : IsKernel rows cols matrix) where
  -- The sum at a position inside the picture reads the matrix and the picture without a fault.
  convolve-Returns :
      (img : Image D) (row col : ℕ)
      → IsValid img
      → row < img.height
      → col < img.width
      → Returns (convolve matrix (rows / 2) (cols / 2) img row col) Anything
  unfolding convolve
  convolve-Returns img row col v hr hc =
      for_each-Returns Anything (2 * (rows / 2) + 1) _ _
        (λ k_row sum lr _.
          for_each-Returns Anything (2 * (cols / 2) + 1) _ sum
            (λ k_col acc lc _.
              let d_row = sub_ℕ k_row (rows / 2) in
              let d_col = sub_ℕ k_col (cols / 2) in
              let (coeff, ec, _) =
                cell-Returns matrix k_row k_col kernel.shape (omega (arith, kernel.odd_rows))
                  (omega (arith, kernel.odd_cols)) in
              let (inr', inc') =
                source_of-lt img.height img.width row col d_row d_col v.height_fits
                  (omega (arith, v.width_fits)) hr hc in
              let (px, ep, _) = cell-Returns img.pixels _ _ v.picture inr' inc' in
              (add_scaled acc coeff px, rw (ec, ep), tt))
            tt)
        tt

  multiply_pixel-Returns :
      (ieee : IsIeee D) (img : Image D) (row col : ℕ)
      → IsValid img
      → row < img.height
      → col < img.width
      → Returns (multiply_pixel matrix (rows / 2) (cols / 2) img row col) PixelInUnit
  unfolding multiply_pixel
  multiply_pixel-Returns ieee img row col v hr hc =
      let (sum, es, _) = convolve-Returns img row col v hr hc in
      (
        record { r = normalize sum.r; g = normalize sum.g; b = normalize sum.b },
        rw es,
        (normalize-InUnit ieee sum.r, normalize-InUnit ieee sum.g, normalize-InUnit ieee sum.b),
      )

  -- On a valid image `Multiply` is the loop over the whole picture.
  multiply-loop :
      (img : Image D)
      → IsValid img
      → multiply matrix img ≡ (
          update_grid img.height img.width
            (λ row col _. multiply_pixel matrix (rows / 2) (cols / 2) img row col)
            img.buffer
          >>= λ result. ok (record img { pixels = result; buffer = img.pixels }))
  unfolding multiply
  multiply-loop img v =
      let (first, ef, (len, _)) =
        All-get _ matrix 0 kernel.shape.lines (omega (arith, kernel.shape.rows, kernel.odd_rows)) in
      rw (
        ef,
        len,
        kernel.shape.rows,
        lt→ltb _ _ v.height_fits,
        lt→ltb img.width (2 ^ 31) (omega (arith, v.width_fits)),
      )

  -- The convolution of a valid image with a matrix of odd sizes reads no vector out of bounds,
  -- and gives a picture with channels between 0 and 1, the headers unchanged and the old pixels
  -- in the buffer.
  pub multiply-Returns :
      (ieee : IsIeee D) (img : Image D)
      → IsValid img
      → Returns (multiply matrix img) λ out.
        IsPicture out × (out.file ≡ img.file) × (out.info ≡ img.info) × (out.buffer ≡ img.pixels)
  multiply-Returns ieee img v =
      let (out, run, g) =
        update_grid-Returns Anything PixelInUnit
          (λ row col _. multiply_pixel matrix (rows / 2) (cols / 2) img row col) img.buffer
          v.scratch (λ row col x hr hc _. multiply_pixel-Returns ieee img row col v hr hc) in
      (
        record img { pixels = out; buffer = img.pixels },
        rw (multiply-loop img v, run),
        (
          record {
            picture = g;
            scratch = v.picture;
            height_fits = v.height_fits;
            width_fits = v.width_fits;
          },
          refl,
          refl,
          refl,
        ),
      )

  -- Each pixel of the result is made from the sum at its place.
  pub multiply-convolve :
      (img out : Image D) (row col : ℕ)
      → IsValid img
      → multiply matrix img ≡ ok out
      → row < img.height
      → col < img.width
      → (sum : Pixel D) × (convolve matrix (rows / 2) (cols / 2) img row col ≡ ok sum)
        × (cell out.pixels row col
            ≡ ok (record { r = normalize sum.r; g = normalize sum.g; b = normalize sum.b }))
  unfolding multiply_pixel
  multiply-convolve img out row col v e hr hc =
      let (result, loop, last) = >>=-eq-ok _ _ (rw (multiply-loop img v) at e) in
      let (x, y, ex, ey, got) = update_grid-cell _ img.buffer result row col v.scratch loop hr hc in
      let (sum, es, ep) = >>=-eq-ok (convolve matrix (rows / 2) (cols / 2) img row col) _ ey in
      (sum, es, ground (arith, got, ep, last))
