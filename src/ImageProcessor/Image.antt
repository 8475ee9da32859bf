-- ===== src/ImageProcessor/Image.antt =====
-- image_processor/include/{pixel,image,matrix}.h and src/{image,matrix}.cpp: the picture in memory,
-- and its convolution with a matrix. `buffer` is a static member; the program has one image, so
-- it is a field here. A `uint32_t` field is a number below 2 ^ 32.
pub mod Shape
pub mod Multiply
pub mod Edges
pub mod Narrows
pub mod Sums
pub mod Transpose
use high_load_systems.Common.{
  ℕ, ◌+◌, ◌-◌, ◌*◌, ◌/◌, ◌%◌, ◌^◌, Bool, ◌&&◌, List, ltb, leb, if◌then◌else◌, length, replicate,
  set, ℤ, pos, negsuc, ◌+ℤ◌, ◌-ℤ◌, pos_part, ltb_ℤ, leb_ℤ, sub_ℕ, ok, ◌>>=◌, at, update_each,
  for_loop,
}
use high_load_systems.ImageProcessor.Floats.{Float, zero_d, one_d, of_byte}
use high_load_systems.ImageProcessor.Exception.{Run, out_of_bounds}

pub record Pixel (D : Type 0) : Type 0 where
  pub r : D
  pub g : D
  pub b : D

pub record FileHeader : Type 0 where
  pub signature : ℕ
  pub file_size : ℕ
  pub reserved1 : ℕ
  pub reserved2 : ℕ
  pub data_offset : ℕ

pub record InfoHeader : Type 0 where
  pub header_size : ℕ
  pub width : ℕ
  pub height : ℕ
  pub planes : ℕ
  pub bits_per_pixel : ℕ
  pub compression : ℕ
  pub image_size : ℕ
  pub x_pixels_per_meter : ℕ
  pub y_pixels_per_meter : ℕ
  pub colors_used : ℕ
  pub colors_important : ℕ

pub record Image (D : Type 0) : Type 0 where
  pub file : FileHeader
  pub open file use *
  pub info : InfoHeader
  pub open info use *
  pub pixels : List (List (Pixel D))
  pub buffer : List (List (Pixel D))

-- static_cast<int32_t> of a uint32_t
abbrev pub to_int32 : ℕ → ℤ
to_int32 n = if ltb n (2 ^ 31) then pos n else negsuc (2 ^ 32 - n - 1)

-- The conversion of an int to uint32_t, which a comparison with a uint32_t makes.
abbrev pub to_uint32 : ℤ → ℕ
to_uint32 (pos n) = n % 2 ^ 32
to_uint32 (negsuc n) = 2 ^ 32 - 1 - n % 2 ^ 32

-- An int that has been computed as `c`, which wraps.
abbrev pub wrap_int : ℤ → ℤ
wrap_int c = to_int32 (to_uint32 c)

-- `grid[row][col]`
abbrev pub cell {ℓ} : {A : Type ℓ} → List (List A) → ℕ → ℕ → Run A
cell grid row col = do line ← at out_of_bounds grid row; at out_of_bounds line col

-- `for (row < h) for (col < w) grid[row][col] = f(row, col, grid[row][col]);`
abbrev pub update_grid {ℓ} :
    {A : Type ℓ} → ℕ → ℕ → (ℕ → ℕ → A → Run A) → List (List A) → Run (List (List A))
update_grid h w f grid =
    update_each out_of_bounds h 0 (λ row line. update_each out_of_bounds w 0 (f row) line) grid

module _ {D : Type 0} ⦃f : Float D⦄ where
  open f use {add, mul, lt}

  -- Pixel(), value-initialised
  abbrev pub no_pixel : Pixel D
  no_pixel = record { r = zero_d; g = zero_d; b = zero_d }

  abbrev pub pixel_of_bytes : ℕ → ℕ → ℕ → Pixel D
  pixel_of_bytes red green blue = record { r = of_byte red; g = of_byte green; b = of_byte blue }

  -- `Normalize`: std::min(1.0, std::max(0.0, x))
  pub normalize : D → D
  normalize x = let y = if lt zero_d x then x else zero_d in if lt y one_d then y else one_d

  -- `n_matrix[j][i] = matrix[i][j]`
  transpose_cell : List (List D) → ℕ → ℕ → List (List D) → Run (List (List D))
  transpose_cell matrix i j n_matrix = do
    x ← cell matrix i j
    line ← at out_of_bounds n_matrix j
    _ ← at out_of_bounds line i
    ok (set n_matrix j (set line i x))

  -- `Matrix::Transpose`
  pub transpose : List (List D) → Run (List (List D))
  transpose matrix = do
    first ← at out_of_bounds matrix 0
    for_loop (length matrix) 0
        (λ i n_matrix. for_loop (length first) 0 (λ j. transpose_cell matrix i j) n_matrix)
        (replicate (length first) (replicate (length matrix) zero_d))

  pub add_scaled : Pixel D → D → Pixel D → Pixel D
  add_scaled acc coeff px = record {
    r = add acc.r (mul coeff px.r);
    g = add acc.g (mul coeff px.g);
    b = add acc.b (mul coeff px.b);
  }

-- One coordinate of the sampled position: `if (c < 0) c = -c; if (size <= c) c = max - 1 - c;`
pub mirror : ℕ → ℤ → ℤ
mirror size c =
    let c' = if ltb_ℤ c (pos 0) then wrap_int (pos 0 -ℤ c) else c in
    if leb size (to_uint32 c') then wrap_int (to_int32 size -ℤ pos 1 -ℤ c') else c'

pub in_square : ℤ → ℤ → ℤ → ℤ → Bool
in_square c_row c_col rows cols =
    leb_ℤ (pos 0) c_row && ltb_ℤ c_row rows && leb_ℤ (pos 0) c_col && ltb_ℤ c_col cols

-- Where the convolution at (row, col) reads for the offset (d_row, d_col).
pub source_of : (height width row col : ℕ) (d_row d_col : ℤ) → ℕ × ℕ
unfolding in_square
source_of height width row col d_row d_col =
    let c_row = mirror height (wrap_int (pos row +ℤ d_row)) in
    let c_col = mirror width (wrap_int (pos col +ℤ d_col)) in
    if in_square c_row c_col (to_int32 height) (to_int32 width)
    then (pos_part c_row, pos_part c_col)
    else (row, col)

module _ {D : Type 0} ⦃f : Float D⦄ where
  -- The two inner loops of `Multiply`; the counters are `d_row + mid_row` and `d_col + mid_col`.
  pub convolve :
      (matrix : List (List D)) (mid_row mid_col : ℕ) → Image D → (row col : ℕ) → Run (Pixel D)
  convolve matrix mid_row mid_col img row col =
      for_loop (2 * mid_row + 1) 0
        (λ k_row sum.
          for_loop (2 * mid_col + 1) 0
            (λ k_col acc. do
              let (c_row, c_col) =
                  source_of img.height img.width row col (sub_ℕ k_row mid_row) (sub_ℕ k_col mid_col)
              coeff ← cell matrix k_row k_col
              px ← cell img.pixels c_row c_col
              ok (add_scaled acc coeff px))
            sum)
        no_pixel

  -- The body of the two outer loops of `Multiply`.
  pub multiply_pixel : List (List D) → ℕ → ℕ → Image D → ℕ → ℕ → Run (Pixel D)
  multiply_pixel matrix mid_row mid_col img row col = do
    sum ← convolve matrix mid_row mid_col img row col
    ok (record { r = normalize sum.r; g = normalize sum.g; b = normalize sum.b })

  -- `Image::Multiply`
  pub multiply : List (List D) → Image D → Run (Image D)
  multiply matrix img = do
    first ← at out_of_bounds matrix 0
    result ←
        update_grid (pos_part (to_int32 img.height)) (pos_part (to_int32 img.width))
          (λ row col _. multiply_pixel matrix (length matrix / 2) (length first / 2) img row col)
          img.buffer
    ok (record img { pixels = result; buffer = img.pixels })
