-- ===== src/Tests/Pictures.antt =====
-- image_processor: the filters and the file format on a picture of two by two pixels.
use high_load_systems.Common.{
  ℕ, true, ◌<◌, ◌≡◌, refl, inl, List, [], ◌∷◌, some, arith, length, ℤ, pos, ok, Returns, replicate,
  min, sub_ℕ, ◌%◌, ◌^◌, ◌+◌, ◌*◌,
}
use high_load_systems.ImageProcessor.Image.{Pixel, Image, cell, multiply, source_of}
use high_load_systems.ImageProcessor.Image.Shape.{IsGrid, Anything, IsValid, IsPicture}
use high_load_systems.ImageProcessor.Image.Multiply.{IsKernel, multiply-Returns}
use high_load_systems.ImageProcessor.Image.Sums.{weighted_sum, IsClamp, multiply-cell}
use high_load_systems.ImageProcessor.Image.Edges.{
  source_of-reflected, source_of-past_edge, both_or, reflected,
}
use high_load_systems.ImageProcessor.Filter.{
  Filter, crop, negative, sharpening, gaussian_blur, tunnel, cross_matrix, apply_crop,
  apply_filters,
}
use high_load_systems.ImageProcessor.Filter.Picture.{Safe}
use high_load_systems.ImageProcessor.Filter.Cropping.{apply_crop-cropped, cropped, padded}
use high_load_systems.ImageProcessor.Filter.Crop.{apply_crop-cell, apply_crop-larger}
use high_load_systems.ImageProcessor.Filter.Safety.{apply_filters-Safe}
use high_load_systems.ImageProcessor.Io.{check_header, write_file, read_file, padding}
use high_load_systems.ImageProcessor.Io.Encoding.{encoded}
use high_load_systems.ImageProcessor.Io.RoundTrip.{
  IsStorable, file_bytes, stored, write_file-encoded, read_file-write_file,
}
use high_load_systems.Tests.Fixed.{fixed, fixed_laws}

abbrev pub gray : ℕ → Pixel ℤ
gray n = record { r = pos n; g = pos n; b = pos n }

abbrev pub color : ℕ → ℕ → ℕ → Pixel ℤ
color red green blue = record { r = pos red; g = pos green; b = pos blue }

-- A picture of two rows of two pixels, with the headers of a 24-bit file.
abbrev pub square : Image ℤ
square = record {
  file = record {
    signature = 19778;
    file_size = 70;
    reserved1 = 0;
    reserved2 = 0;
    data_offset = 54;
  };
  info = record {
    header_size = 40;
    width = 2;
    height = 2;
    planes = 1;
    bits_per_pixel = 24;
    compression = 0;
    image_size = 16;
    x_pixels_per_meter = 2835;
    y_pixels_per_meter = 2835;
    colors_used = 0;
    colors_important = 0;
  };
  pixels = (gray 10 ∷ color 200 100 50 ∷ []) ∷ (color 0 255 7 ∷ gray 90 ∷ []) ∷ [];
  buffer = replicate 2 (replicate 2 (gray 0));
}

abbrev pub square-IsPicture : IsPicture square
square-IsPicture = record {
  picture = record {
    rows = refl;
    lines = (
      (
        refl,
        (
          ((refl, refl), (refl, refl), (refl, refl)),
          (((refl, refl), (refl, refl), (refl, refl)), tt),
        ),
      ),
      (
        (
          refl,
          (
            ((refl, refl), (refl, refl), (refl, refl)),
            (((refl, refl), (refl, refl), (refl, refl)), tt),
          ),
        ),
        tt,
      ),
    );
  };
  scratch = record { rows = refl; lines = ((refl, (tt, (tt, tt))), ((refl, (tt, (tt, tt))), tt)) };
  height_fits = omega arith;
  width_fits = omega arith;
}

abbrev pub square-IsValid : IsValid square
square-IsValid = record {
  picture = record { rows = refl; lines = ((refl, (tt, (tt, tt))), ((refl, (tt, (tt, tt))), tt)) };
  scratch = record { rows = refl; lines = ((refl, (tt, (tt, tt))), ((refl, (tt, (tt, tt))), tt)) };
  height_fits = omega arith;
  width_fits = omega arith;
}

abbrev pub square-IsStorable : IsStorable square
unfolding check_header
square-IsStorable = record {
  valid = square-IsValid;
  offsets_fit = omega arith;
  file_fits = record {
    signature = omega arith;
    file_size = omega arith;
    reserved1 = omega arith;
    reserved2 = omega arith;
    data_offset = omega arith;
  };
  info_fits = record {
    header_size = omega arith;
    width = omega arith;
    height = omega arith;
    planes = omega arith;
    bits_per_pixel = omega arith;
    compression = omega arith;
    image_size = omega arith;
    x_pixels_per_meter = omega arith;
    y_pixels_per_meter = omega arith;
    colors_used = omega arith;
    colors_important = omega arith;
  };
  accepted = refl;
}

abbrev all_filters : List (Filter ℤ)
all_filters =
    negative
    ∷ crop (pos 2) (pos 1)
    ∷ sharpening
    ∷ gaussian_blur (pos 255)
    ∷ tunnel (pos 1) (pos 1) (pos 255) (pos 255)
    ∷ []

apply_filters-Safe_example : Safe (apply_filters all_filters square) IsPicture
apply_filters-Safe_example =
    apply_filters-Safe fixed_laws all_filters square
      (tt, ((omega arith, omega arith), (tt, (tt, ((omega arith, omega arith), tt)))))
      square-IsPicture

read_file-write_file_example :
    (write_file true square ≡ ok (file_bytes square))
    × (read_file (some (file_bytes square)) ≡ ok (stored square))
read_file-write_file_example = read_file-write_file square square-IsStorable

write_file-encoded_example :
    (write_file true square ≡ ok (file_bytes square))
    × (length (encoded square.pixels (padding 2) 2) ≡ 2 * (2 * 3 + padding 2))
    × ((2 * 3 + padding 2) % 4 ≡ 0)
write_file-encoded_example = write_file-encoded square square-IsValid (omega arith)

abbrev cross-IsKernel : IsKernel {D = ℤ} 3 3 (cross_matrix (pos 5))
cross-IsKernel = record {
  shape = record { rows = refl; lines = omega arith };
  odd_rows = refl;
  odd_cols = refl;
}

source_of-reflected_example :
    source_of 4 4 0 3 (sub_ℕ 0 1) (sub_ℕ 1 1)
    ≡ both_or (reflected 4 0 0 1) (reflected 4 3 1 1) (0, 3)
source_of-reflected_example =
    source_of-reflected 4 4 0 3 0 1 1 1 (omega arith) (omega arith) (omega arith) (omega arith)
      (omega arith) (omega arith) (omega arith) (omega arith)

source_of-past_edge_example : source_of 4 4 3 2 (sub_ℕ 2 1) (sub_ℕ 0 1) ≡ (3, 2)
source_of-past_edge_example =
    source_of-past_edge 4 4 3 2 2 0 1 1 (omega arith) (omega arith) (omega arith) (omega arith)
      (omega arith) (omega arith) (omega arith) (omega arith) (inl (omega arith))

abbrev sharpened : Returns (multiply (cross_matrix (pos 5)) square) λ out.
    IsPicture out
    × (out.file ≡ square.file)
    × (out.info ≡ square.info)
    × (out.buffer ≡ square.pixels)
sharpened = multiply-Returns cross-IsKernel fixed_laws square square-IsValid

multiply-cell_example :
    let sum : (Pixel ℤ → ℤ) → ℤ =
      λ channel. weighted_sum channel 3 3 (cross_matrix (pos 5)) square 0 1 in
    (px : Pixel ℤ) × (cell sharpened.0.pixels 0 1 ≡ ok px)
    × IsClamp (sum (λ p. p.r)) px.r
    × IsClamp (sum (λ p. p.g)) px.g
    × IsClamp (sum (λ p. p.b)) px.b
multiply-cell_example =
    multiply-cell cross-IsKernel square 0 1 square-IsValid (omega arith) (omega arith) (omega arith)
      (omega arith) sharpened.0 refl sharpened.1

apply_crop-larger_example :
    let out = cropped 5 9 square in
    (out.pixels ≡ square.pixels)
    × (out.height ≡ square.height)
    × (out.width ≡ square.width)
    × (out.image_size ≡ 9 * padded 5 % 2 ^ 32)
apply_crop-larger_example =
    apply_crop-larger 5 9 square (cropped 5 9 square) square-IsValid (omega arith) (omega arith) run
      (omega arith) (omega arith)
  where
    run : apply_crop (pos 5) (pos 9) square ≡ ok (cropped 5 9 square)
    run = apply_crop-cropped 5 9 square square-IsValid (omega arith) (omega arith)

apply_crop-cell_example :
    let out = cropped 1 9 square in
    (out.height ≡ min 9 2)
    × (out.width ≡ min 1 2)
    × IsGrid 2 1 Anything out.pixels
    × ((row col : ℕ) → row < 9 → col < 1 → cell out.pixels row col ≡ cell square.pixels row col)
apply_crop-cell_example =
    apply_crop-cell 1 9 square (cropped 1 9 square) square-IsValid (omega arith) (omega arith) run
  where
    run : apply_crop (pos 1) (pos 9) square ≡ ok (cropped 1 9 square)
    run = apply_crop-cropped 1 9 square square-IsValid (omega arith) (omega arith)
