-- ===== src/ImageProcessor/Io/Safety.antt =====
-- io.cpp: reading any file whose header states sizes that the arithmetic can hold, cut short or
-- not, ends in a picture or in a `ReadImageException`.
use native.Mathlib.Nat.{add-zero}
use high_load_systems.Common.{
  All-set, ℕ, zero, suc, ◌+◌, ◌*◌, ◌^◌, ◌≤◌, ◌<◌, ◌≡◌, refl, List, [], ◌∷◌, Option, none, some,
  Bool-cases, Option-cases, inl, inr, arith, Bytes, length, ltb, length-set, set, replicate, All,
  Returns, update_each-Returns,
}
use high_load_systems.ImageProcessor.Floats.{Float, IsIeee, InUnit, zero_d}
use high_load_systems.ImageProcessor.Exception.{small_file, cannot_open, read_image, out_of_bounds}
use high_load_systems.ImageProcessor.Image.{Pixel, no_pixel, pixel_of_bytes}
use high_load_systems.ImageProcessor.Image.Shape.{
  OffsetsFit, IsGrid, Anything, PixelInUnit, IsPicture, All-get, All-Anything, All-replicate,
}
use high_load_systems.ImageProcessor.Image.Transpose.{IsGrid-replicate}
use high_load_systems.ImageProcessor.Filter.Picture.{Safe}
use high_load_systems.ImageProcessor.Io.{
  read_buffer, pixel_at, read_rows, read_pixels, read_file, read_le, read_file_header,
  read_info_header, check_header, blank_buffer, padding,
}
use high_load_systems.ImageProcessor.Io.Rows.{index_at_lem}
use high_load_systems.ImageProcessor.Io.RoundTrip.{length-blank_buffer}

abbrev pub IsByte : ℕ → Type 0
IsByte b = b < 256

-- The header of a file that `ReadFile` goes on to load.
abbrev pub HeaderFits : Bytes → Type 0
HeaderFits content =
    let info = (read_info_header (read_file_header content).1).0 in
    (info.height < 2 ^ 31) × OffsetsFit info.width

read_buffer-All :
    (P : ℕ → Type 0) (buffer stream : Bytes)
    → All P buffer
    → All P stream
    → (length (read_buffer buffer stream).0 ≡ length buffer)
      × All P (read_buffer buffer stream).0
      × All P (read_buffer buffer stream).1
unfolding read_buffer
read_buffer-All P [] stream a s = (refl, tt, s)
read_buffer-All P (x ∷ buffer) [] a s = (refl, a, tt)
read_buffer-All P (x ∷ buffer) (b ∷ stream) a s =
    let (len, pa, ps) = read_buffer-All P buffer stream a.1 s.1 in (omega arith, (s.0, pa), ps)

read_le-All : (P : ℕ → Type 0) (n : ℕ) (stream : Bytes) → All P stream → All P (read_le n stream).1
unfolding read_le
read_le-All P zero stream a = a
read_le-All P (suc n) [] a = tt
read_le-All P (suc n) (b ∷ stream) a = read_le-All P n stream a.1

headers-All :
    (P : ℕ → Type 0) (content : Bytes)
    → All P content
    → All P (read_info_header (read_file_header content).1).1
unfolding read_file_header read_info_header
headers-All P content a =
    let r = read_le-All P in
    (r 4 _ (
      r 4 _ (
        r 4 _ (
          r 4 _ (
            r 4 _ (
              r 4 _ (
                r 2 _
                  (r 2 _ (r 4 _ (r 4 _ (r 4 _ (r 4 _ (r 2 _ (r 2 _ (r 4 _ (r 2 _ a))))))))))))))))

module _ {D : Type 0} ⦃f : Float D⦄ (ieee : IsIeee D) where
  pixel_at-Returns :
      (buffer : Bytes) (width pad col : ℕ)
      → length buffer ≡ width * 3 + pad
      → All IsByte buffer
      → col < width
      → OffsetsFit width
      → Returns (pixel_at {D = D} buffer col) PixelInUnit
  unfolding pixel_at
  pixel_at-Returns buffer width pad col len bytes h fits =
      let (blue, eb, hb) = All-get IsByte buffer (col * 3) bytes (omega arith) in
      let (green, eg, hg) = All-get IsByte buffer (col * 3 + 1) bytes (omega arith) in
      let (red, er, hr) = All-get IsByte buffer (col * 3 + 2) bytes (omega arith) in
      (
        pixel_of_bytes red green blue,
        rw (
          index_at_lem col 0 (omega arith),
          index_at_lem col 1 (omega arith),
          index_at_lem col 2 (omega arith),
          add-zero,
          eb,
          eg,
          er,
        ),
        (ieee.of_byte-InUnit red hr, ieee.of_byte-InUnit green hg, ieee.of_byte-InUnit blue hb),
      )

  read_rows-Returns :
      (height width pad left : ℕ) (buffer stream : Bytes) (grid : List (List (Pixel D)))
      → left ≤ height
      → length buffer ≡ width * 3 + pad
      → All IsByte buffer
      → All IsByte stream
      → IsGrid height width PixelInUnit grid
      → OffsetsFit width
      → Returns (read_rows left width buffer stream grid) (IsGrid height width PixelInUnit)
  unfolding read_rows
  read_rows-Returns height width pad zero buffer stream grid h len b s g fits = (grid, refl, g)
  read_rows-Returns height width pad (suc left) buffer stream grid h len b s g fits =
      let (len', b', s') = read_buffer-All IsByte buffer stream b s in
      let next = (read_buffer buffer stream).0 in
      let (line, there, (ll, _)) = All-get _ grid left g.lines (omega (arith, g.rows)) in
      let (line', run, (ll', u)) =
        update_each-Returns out_of_bounds Anything PixelInUnit width (λ col _. pixel_at next col)
          line ll (All-Anything line)
          (λ col x hc _. pixel_at-Returns next width pad col (omega arith) b' hc fits) in
      let (out, rest, go) =
        read_rows-Returns height width pad left next (read_buffer buffer stream).1
          (set grid left line') (omega arith) (omega arith) b' s'
          (record {
            rows = omega (arith, length-set grid left line', g.rows);
            lines = All-set _ grid left line' (ll', u) g.lines;
          })
          fits in
      (out, rw (there, run) rest, go)

  -- Any bytes, also of a file cut short, whose header gives fewer than 2^31 rows and a width
  -- three times which is at most 2^31, are read into a picture of such a width with channels
  -- between 0 and 1, or refused with an exception, without an index past a vector.
  pub read_file-Safe :
      (content : Bytes)
      → All IsByte content
      → HeaderFits content
      → Safe (read_file {D = D} (some content)) (λ img. IsPicture img × OffsetsFit img.width)
  unfolding read_file read_pixels
  read_file-Safe content bytes fits = elim (Bool-cases (ltb (length content) 54)) [
    | inl short ↦ rw short (inr (read_image small_file, refl, λ e. cc))
    | inr long ↦
        let file = (read_file_header content).0 in
        let info = (read_info_header (read_file_header content).1).0 in
        rw long (elim (Option-cases (check_header file info)) [
          | inr (e, refused) ↦ rw refused (inr (read_image e, refl, λ e. cc))
          | inl passed ↦
              let blank : List (List (Pixel D)) =
                replicate info.height (replicate info.width no_pixel) in
              let (pixels, run, g) =
                read_rows-Returns info.height info.width (padding info.width) info.height
                  (blank_buffer info.width) (read_info_header (read_file_header content).1).1 blank
                  (omega arith) (length-blank_buffer info.width (omega (arith, fits.1)))
                  (All-replicate IsByte _ 0 (omega arith)) (headers-All IsByte content bytes)
                  (IsGrid-replicate info.height info.width PixelInUnit no_pixel (unit, unit, unit))
                  fits.1 in
              rw (passed, run)
                (inl (
                  record { file = file; info = info; pixels = pixels; buffer = blank },
                  refl,
                  (
                    record {
                      picture = g;
                      scratch = IsGrid-replicate info.height info.width Anything no_pixel tt;
                      height_fits = fits.0;
                      width_fits = omega (arith, fits.1);
                    },
                    fits.1,
                  ),
                ))
        ])
  ]
    where
      unit : InUnit {D = D} zero_d
      unit = (ieee.zero-le-zero, ieee.zero-le-one)

  -- The same of a path that may not open.
  pub read_any-Safe :
      (content : Option Bytes)
      → ((s : Bytes) → content ≡ some s → All IsByte s × HeaderFits s)
      → Safe (read_file {D = D} content) (λ img. IsPicture img × OffsetsFit img.width)
  unfolding read_file
  read_any-Safe none h = inr (read_image cannot_open, refl, λ e. cc)
  read_any-Safe (some s) h = read_file-Safe s (h s refl).0 (h s refl).1
