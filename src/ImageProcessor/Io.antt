-- ===== src/ImageProcessor/Io.antt =====
-- image_processor/{include/io.h, src/io.cpp}: reading and writing a BMP file. A file is its bytes; a
-- stream is the bytes that are left to read. `ifstream::read` at the end of the file stores what is
-- left, and the streams throw nothing, so the `catch` blocks of io.cpp are never entered.
pub mod Header
pub mod Rows
pub mod Encoding
pub mod RoundTrip
pub mod Safety
use high_load_systems.Common.{
  ℕ, zero, suc, ◌+◌, ◌-◌, ◌*◌, ◌/◌, ◌%◌, ◌^◌, Bool, true, false, not, List, [], ◌∷◌, ◌++◌, Option,
  none, some, ltb, ◌==◌, if◌then◌else◌, pos, negsuc, Bytes, length, replicate, set, ok, err, ◌>>=◌,
  ◌>>◌, or_throw, at, update_each, for_loop,
}
use high_load_systems.ImageProcessor.Floats.{Float, get_byte}
use high_load_systems.ImageProcessor.Exception.{
  Run, ReadError, cannot_open, small_file, bad_signature, bad_header_size, bad_pixel_size,
  has_compression, has_colour_table, read_image, write_image, out_of_bounds,
}
use high_load_systems.ImageProcessor.Image.{
  FileHeader, InfoHeader, Pixel, Image, wrap_int, cell, no_pixel, pixel_of_bytes,
}

-- A little-endian number of `n` bytes, and the rest of the stream.
unfoldable pub read_le : ℕ → Bytes → ℕ × Bytes
read_le zero stream = (0, stream)
read_le (suc n) [] = (0, [])
read_le (suc n) (b ∷ stream) = let (x, rest) = read_le n stream in (b + 256 * x, rest)

-- `Read(file, uint16_t&)` and `Read(file, uint32_t&)`
unfoldable pub read_u16 : Bytes → ℕ × Bytes
unfolding read_le
read_u16 stream = read_le 2 stream

unfoldable pub read_u32 : Bytes → ℕ × Bytes
unfolding read_le
read_u32 stream = read_le 4 stream

-- `Read(file, vector&)`: what the stream has is stored over the old contents.
pub read_buffer : Bytes → Bytes → Bytes × Bytes
read_buffer [] stream = ([], stream)
read_buffer (x ∷ buffer) [] = (x ∷ buffer, [])
read_buffer (x ∷ buffer) (b ∷ stream) =
    let (buffer', rest) = read_buffer buffer stream in (b ∷ buffer', rest)

-- `ImageReader::ReadFileHeader`
unfoldable pub read_file_header : Bytes → FileHeader × Bytes
unfolding read_u16 read_u32
read_file_header s =
    let (signature, s) = read_u16 s in
    let (file_size, s) = read_u32 s in
    let (reserved1, s) = read_u16 s in
    let (reserved2, s) = read_u16 s in
    let (data_offset, s) = read_u32 s in
    (
      record {
        signature = signature;
        file_size = file_size;
        reserved1 = reserved1;
        reserved2 = reserved2;
        data_offset = data_offset;
      },
      s,
    )

-- `ImageReader::ReadInfoHeader`
unfoldable pub read_info_header : Bytes → InfoHeader × Bytes
unfolding read_u16 read_u32
read_info_header s =
    let (header_size, s) = read_u32 s in
    let (width, s) = read_u32 s in
    let (height, s) = read_u32 s in
    let (planes, s) = read_u16 s in
    let (bits_per_pixel, s) = read_u16 s in
    let (compression, s) = read_u32 s in
    let (image_size, s) = read_u32 s in
    let (x_pixels_per_meter, s) = read_u32 s in
    let (y_pixels_per_meter, s) = read_u32 s in
    let (colors_used, s) = read_u32 s in
    let (colors_important, s) = read_u32 s in
    (
      record {
        header_size = header_size;
        width = width;
        height = height;
        planes = planes;
        bits_per_pixel = bits_per_pixel;
        compression = compression;
        image_size = image_size;
        x_pixels_per_meter = x_pixels_per_meter;
        y_pixels_per_meter = y_pixels_per_meter;
        colors_used = colors_used;
        colors_important = colors_important;
      },
      s,
    )

-- `Check`: the first test that fails names the exception.
unfoldable pub check_header : FileHeader → InfoHeader → Option ReadError
check_header file info =
    if not (file.signature == 0x4D42)
    then some bad_signature
    else if not (info.header_size == 40)
    then some bad_header_size
    else if not (info.bits_per_pixel == 24)
    then some bad_pixel_size
    else if not (info.compression == 0)
    then some has_compression
    else if not (info.colors_used == 0)
    then some has_colour_table
    else none

-- `line_size` and `padding`, as uint32_t and uint8_t
abbrev pub line_size : ℕ → ℕ
line_size width = width * 3 % 2 ^ 32

abbrev pub padding : ℕ → ℕ
padding width = (4 - line_size width % 4) % 4

-- `std::vector<uint8_t> buffer(line_size + padding, 0)`
abbrev pub blank_buffer : ℕ → Bytes
blank_buffer width = replicate ((line_size width + padding width) % 2 ^ 32) 0

-- `buffer[i] = b`
abbrev pub store : Bytes → ℕ → ℕ → Run Bytes
store buffer i b = do _ ← at out_of_bounds buffer i; ok (set buffer i b)

-- `Write(file, uint16_t&)` and `Write(file, uint32_t&)`
write_u16 : ℕ → Bytes
write_u16 x = x % 256 ∷ x / 256 % 256 ∷ []

write_u32 : ℕ → Bytes
write_u32 x = x % 256 ∷ x / 256 % 256 ∷ x / 65536 % 256 ∷ x / 16777216 % 256 ∷ []

-- `ImageWriter::WriteFileHeader`
pub write_file_header : FileHeader → Bytes
unfolding write_u16 write_u32
write_file_header h =
    write_u16 h.signature
    ++ (write_u32 h.file_size
        ++ (write_u16 h.reserved1 ++ (write_u16 h.reserved2 ++ write_u32 h.data_offset)))

-- `ImageWriter::WriteInfoHeader`
pub write_info_header : InfoHeader → Bytes
unfolding write_u16 write_u32
write_info_header h =
    write_u32 h.header_size
    ++ (write_u32 h.width
        ++ (write_u32 h.height
            ++ (write_u16 h.planes
                ++ (write_u16 h.bits_per_pixel
                    ++ (write_u32 h.compression
                        ++ (write_u32 h.image_size
                            ++ (write_u32 h.x_pixels_per_meter
                                ++ (write_u32 h.y_pixels_per_meter
                                    ++ (write_u32 h.colors_used
                                        ++ write_u32 h.colors_important)))))))))

-- `offset + k` for `int offset = col * 3`, as the index of a vector: an int wraps, and a negative one
-- is converted to size_t.
abbrev pub index_at : (col k : ℕ) → ℕ
index_at col k = elim (wrap_int (pos (col * 3 + k))) [ pos n ↦ n | negsuc n ↦ 2 ^ 64 - 1 - n ]

module _ {D : Type 0} ⦃f : Float D⦄ where
  -- The pixel at a column of a row of the file.
  pub pixel_at : Bytes → ℕ → Run (Pixel D)
  pixel_at buffer col = do
    blue ← at out_of_bounds buffer (index_at col 0)
    green ← at out_of_bounds buffer (index_at col 1)
    red ← at out_of_bounds buffer (index_at col 2)
    ok (pixel_of_bytes red green blue)

  -- The loop of `ReadPixels`, over the rows that are left: `real_row` is `height - row - 1`.
  pub read_rows : ℕ → ℕ → Bytes → Bytes → List (List (Pixel D)) → Run (List (List (Pixel D)))
  read_rows zero width buffer stream pixels = ok pixels
  read_rows (suc real_row) width buffer stream pixels = do
    let (buffer, stream) = read_buffer buffer stream
    line ← at out_of_bounds pixels real_row
    line ← update_each out_of_bounds width 0 (λ col _. pixel_at buffer col) line
    read_rows real_row width buffer stream (set pixels real_row line)

  -- `ImageReader::ReadPixels`
  pub read_pixels : ℕ → ℕ → Bytes → List (List (Pixel D)) → Run (List (List (Pixel D)))
  read_pixels height width stream pixels = read_rows height width (blank_buffer width) stream pixels

  -- `ImageReader::ReadFile`; `none` is a file that cannot be opened.
  pub read_file : Option Bytes → Run (Image D)
  read_file none = err (read_image cannot_open)
  read_file (some content) = do
    or_throw (if ltb (length content) 54 then some (read_image small_file) else none)
    let (file, s) = read_file_header content
    let (info, s) = read_info_header s
    or_throw (elim (check_header file info) [ none ↦ none | some e ↦ some (read_image e) ])
    let blank = replicate info.height (replicate info.width no_pixel)
    pixels ← read_pixels info.height info.width s blank
    ok (record { file = file; info = info; pixels = pixels; buffer = blank })

  -- The inner loop of `WritePixels`: three bytes of the buffer for a column.
  pub write_column : List (List (Pixel D)) → ℕ → ℕ → Bytes → Run Bytes
  write_column pixels real_row col buffer = do
    px ← cell pixels real_row col
    buffer ← store buffer (index_at col 0) (get_byte px.b)
    buffer ← store buffer (index_at col 1) (get_byte px.g)
    store buffer (index_at col 2) (get_byte px.r)

  -- The outer loop, over the rows that are left.
  pub write_rows : ℕ → ℕ → List (List (Pixel D)) → Bytes → Run Bytes
  write_rows zero width pixels buffer = ok []
  write_rows (suc real_row) width pixels buffer = do
    buffer ← for_loop width 0 (write_column pixels real_row) buffer
    rest ← write_rows real_row width pixels buffer
    ok (buffer ++ rest)

  -- `ImageWriter::WritePixels`
  pub write_pixels : Image D → Run Bytes
  write_pixels img = write_rows img.height img.width img.pixels (blank_buffer img.width)

  -- `ImageWriter::WriteFile`, into a file that can be opened or not.
  pub write_file : Bool → Image D → Run Bytes
  write_file false img = err write_image
  write_file true img = do
    pixels ← write_pixels img
    ok (write_file_header img.file ++ (write_info_header img.info ++ pixels))
