-- ===== src/ImageProcessor/Io/Header.antt =====
-- io.cpp: the two headers as 54 bytes, and back.
use high_load_systems.Common.{ℕ, ◌^◌, ◌≤◌, ◌<◌, ◌≡◌, ◌++◌, arith, ap, Bytes, length}
use high_load_systems.ImageProcessor.Image.{FileHeader, InfoHeader}
use high_load_systems.ImageProcessor.Io.{
  read_u16, read_u32, read_file_header, read_info_header, write_u16, write_u32, write_file_header,
  write_info_header,
}

-- Every field is in the range of its type.
pub record FileHeaderFits (h : FileHeader) : Type 0 where
  pub signature : h.signature < 2 ^ 16
  pub file_size : h.file_size < 2 ^ 32
  pub reserved1 : h.reserved1 < 2 ^ 16
  pub reserved2 : h.reserved2 < 2 ^ 16
  pub data_offset : h.data_offset < 2 ^ 32

pub record InfoHeaderFits (h : InfoHeader) : Type 0 where
  pub header_size : h.header_size < 2 ^ 32
  pub width : h.width < 2 ^ 32
  pub height : h.height < 2 ^ 32
  pub planes : h.planes < 2 ^ 16
  pub bits_per_pixel : h.bits_per_pixel < 2 ^ 16
  pub compression : h.compression < 2 ^ 32
  pub image_size : h.image_size < 2 ^ 32
  pub x_pixels_per_meter : h.x_pixels_per_meter < 2 ^ 32
  pub y_pixels_per_meter : h.y_pixels_per_meter < 2 ^ 32
  pub colors_used : h.colors_used < 2 ^ 32
  pub colors_important : h.colors_important < 2 ^ 32

read_u16-write_u16 :
    (x : ℕ) (rest : Bytes) → x < 2 ^ 16 → read_u16 (write_u16 x ++ rest) ≡ (x, rest)
unfolding read_u16 write_u16
read_u16-write_u16 x rest h = ap (λ y. (y, rest)) (omega arith)

read_u32-write_u32 :
    (x : ℕ) (rest : Bytes) → x < 2 ^ 32 → read_u32 (write_u32 x ++ rest) ≡ (x, rest)
unfolding read_u32 write_u32
read_u32-write_u32 x rest h = ap (λ y. (y, rest)) (omega arith)

pub read_file_header-write :
    (h : FileHeader) (rest : Bytes)
    → FileHeaderFits h
    → read_file_header (write_file_header h ++ rest) ≡ (h, rest)
unfolding read_file_header write_file_header
read_file_header-write h rest fits = ground (arith)

pub read_info_header-write :
    (h : InfoHeader) (rest : Bytes)
    → InfoHeaderFits h
    → read_info_header (write_info_header h ++ rest) ≡ (h, rest)
unfolding read_info_header write_info_header
read_info_header-write h rest fits = ground arith

-- The headers take 54 bytes.
pub length-headers :
    (file : FileHeader) (info : InfoHeader) (rest : Bytes)
    → 54 ≤ length (write_file_header file ++ (write_info_header info ++ rest))
unfolding write_file_header write_info_header
length-headers file info rest = omega arith
