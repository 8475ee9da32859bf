-- ===== src/ImageProcessor/Io/RoundTrip.antt =====
-- io.cpp: what `WriteFile` puts into a file, and what `ReadFile` makes of it.
use high_load_systems.Common.{
  ℕ, zero, suc, ◌+◌, ◌*◌, ◌%◌, ◌^◌, ◌≤◌, ◌≡◌, refl, ap, List, [], ◌∷◌, ◌++◌, map, append-nil, some,
  none, true, arith, Bytes, length, length-append, length-replicate, take, drop, replicate, ltb,
  false, ok, err, All,
}
use native.Mathlib.Nat.{zero-add}
use high_load_systems.ImageProcessor.Floats.{Float, IsIeee, get_byte}
use high_load_systems.ImageProcessor.Exception.{write_image}
use high_load_systems.ImageProcessor.Image.{Pixel, Image, no_pixel}
use high_load_systems.ImageProcessor.Image.Shape.{Anything, RowFits, OffsetsFit, IsValid, All-get}
use high_load_systems.ImageProcessor.Image.Transpose.{IsGrid-replicate}
use high_load_systems.ImageProcessor.Io.{
  read_rows, read_pixels, read_file, check_header, padding, line_size, blank_buffer, write_pixels,
  write_file, write_file_header, write_info_header,
}
use high_load_systems.ImageProcessor.Io.Header.{
  FileHeaderFits, InfoHeaderFits, read_file_header-write, read_info_header-write, length-headers,
}
use high_load_systems.ImageProcessor.Io.Rows.{row_bytes, quantised, length-row_bytes}
use high_load_systems.ImageProcessor.Io.Encoding.{encoded, write_rows-encoded, read_rows-encoded}

replicate-add {ℓ} :
    {A : Type ℓ} (n m : ℕ) (x : A) → replicate (n + m) x ≡ replicate n x ++ replicate m x
replicate-add zero m x = rw zero-add
replicate-add (suc n) m x =
    let e : suc n + m ≡ suc (n + m) = omega arith in rw e (ap (λ xs. x ∷ xs) (replicate-add n m x))

blank_buffer_lem :
    (width : ℕ)
    → RowFits width
    → blank_buffer width ≡ replicate (width * 3) 0 ++ replicate (padding width) 0
blank_buffer_lem width fits =
    let e : (line_size width + padding width) % 2 ^ 32 ≡ width * 3 + padding width = omega arith in
    rw e (replicate-add (width * 3) (padding width) 0)

pub length-blank_buffer :
    (width : ℕ) → RowFits width → length (blank_buffer width) ≡ width * 3 + padding width
length-blank_buffer width fits =
    omega (arith, length-replicate ((line_size width + padding width) % 2 ^ 32) zero)

long_enough : (n : ℕ) → 54 ≤ n → ltb n 54 ≡ false
long_enough n h = ground arith

module _ {D : Type 0} ⦃f : Float D⦄ where
  length-encoded :
      (width pad left : ℕ) (pixels : List (List (Pixel D)))
      → All (λ row. (length row ≡ width) × All Anything row) pixels
      → left ≤ length pixels
      → length (encoded pixels pad left) ≡ left * (width * 3 + pad)
  unfolding encoded
  length-encoded width pad zero pixels a h = omega arith
  length-encoded width pad (suc left) pixels a h =
      let (row, found, (len, _)) = All-get _ pixels left a h in
      rw (found, encoded)
        (omega (
          arith,
          length-append (row_bytes row ++ replicate pad 0) (encoded pixels pad left),
          length-append (row_bytes row) (replicate pad 0),
          length-row_bytes row,
          length-replicate pad zero,
          len,
          length-encoded width pad left pixels a (omega arith),
        ))

  -- An image that `WriteFile` can store and `ReadFile` accepts.
  pub record IsStorable (img : Image D) : Type 0 where
    pub valid : IsValid img
    pub offsets_fit : OffsetsFit img.width
    pub file_fits : FileHeaderFits img.file
    pub info_fits : InfoHeaderFits img.info
    pub accepted : check_header img.file img.info ≡ none

  -- The bytes that `WriteFile` puts into the file.
  abbrev pub file_bytes : Image D → Bytes
  file_bytes img =
      write_file_header img.file
      ++ (write_info_header img.info ++ encoded img.pixels (padding img.width) img.height)

  -- Writing a valid image whose width times 3 is at most 2^31 raises no fault and gives the two
  -- headers and then the rows from the last to the first, each padded to a multiple of four
  -- bytes.
  pub write_file-encoded :
      (img : Image D)
      → IsValid img
      → OffsetsFit img.width
      → (write_file true img ≡ ok (file_bytes img))
        × (length (encoded img.pixels (padding img.width) img.height)
            ≡ img.height * (img.width * 3 + padding img.width))
        × ((img.width * 3 + padding img.width) % 4 ≡ 0)
  unfolding write_file write_pixels
  write_file-encoded img v fits = (
    rw (
      blank_buffer_lem img.width v.width_fits,
      write_rows-encoded img.height img.width img.pixels v.picture fits img.height
          (padding img.width) (replicate (img.width * 3) 0) (omega arith)
          (length-replicate (img.width * 3) zero),
    ),
    length-encoded img.width (padding img.width) img.height img.pixels v.picture.lines
        (omega (arith, v.picture.rows)),
    omega arith,
  )

  -- The image as `ReadFile` makes it of the written file.
  abbrev pub stored : Image D → Image D
  stored img = record img {
    pixels = map (map quantised) img.pixels;
    buffer = replicate img.height (replicate img.width no_pixel);
  }

  take_rows :
      (pixels grid : List (List (Pixel D))) (n : ℕ)
      → length pixels ≡ n
      → length grid ≡ n
      → map (map quantised) (take n pixels) ++ drop n grid ≡ map (map quantised) pixels
  take_rows [] [] zero a b = refl
  take_rows [] (y ∷ ys) zero a b = absurd (omega arith)
  take_rows (x ∷ xs) ys zero a b = absurd (omega arith)
  take_rows (x ∷ xs) (y ∷ ys) (suc n) a b =
      ap (λ zs. map quantised x ∷ zs) (take_rows xs ys n (omega arith) (omega arith))
  take_rows [] ys (suc n) a b = absurd (omega arith)
  take_rows (x ∷ xs) [] (suc n) a b = absurd (omega arith)

  -- Under IEEE arithmetic a pixel that was rounded to its bytes once is rounded to itself.
  quantised_idem : IsIeee D → (px : Pixel D) → quantised (quantised px) ≡ quantised px
  unfolding quantised
  quantised_idem ieee px = rw (
    ieee.get_byte-of_byte (get_byte px.r) (ieee.to_u8-lt _),
    ieee.get_byte-of_byte (get_byte px.g) (ieee.to_u8-lt _),
    ieee.get_byte-of_byte (get_byte px.b) (ieee.to_u8-lt _),
  )

  -- For a valid image whose width times 3 is at most 2^31 and whose header fields fit their
  -- types and pass the reader's checks, writing yields its encoding, and reading those bytes
  -- gives the same headers and the pixels with each channel rounded to its byte.
  pub read_file-write_file :
      (img : Image D)
      → IsStorable img
      → (write_file true img ≡ ok (file_bytes img))
        × (read_file (some (file_bytes img)) ≡ ok (stored img))
  unfolding read_file read_pixels
  read_file-write_file img s =
      let data_bytes = encoded img.pixels (padding img.width) img.height in
      let blank : List (List (Pixel D)) = replicate img.height (replicate img.width no_pixel) in
      let long = length-headers img.file img.info data_bytes in
      let loop : read_rows img.height img.width (blank_buffer img.width) data_bytes blank
          ≡ ok (map (map quantised) img.pixels) =
        rw
          (
            append-nil data_bytes,
            take_rows img.pixels blank img.height s.valid.picture.rows
                (length-replicate img.height _),
          )
          at
          (read_rows-encoded img.height img.width img.pixels s.valid.picture s.offsets_fit
            img.height (padding img.width) (blank_buffer img.width) [] blank (omega arith)
            (IsGrid-replicate img.height img.width Anything no_pixel tt)
            (length-blank_buffer img.width s.valid.width_fits)) in
      (
        (write_file-encoded img s.valid s.offsets_fit).0,
        rw (
          long_enough _ long,
          read_file_header-write img.file (write_info_header img.info ++ data_bytes) s.file_fits,
          read_info_header-write img.info data_bytes s.info_fits,
          s.accepted,
          loop,
        ),
      )

  pub write_file-closed : (img : Image D) → write_file false img ≡ err write_image
  unfolding write_file
  write_file-closed img = refl
