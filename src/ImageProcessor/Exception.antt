-- ===== src/ImageProcessor/Exception.antt =====
-- image_processor/include/exception.h: what a run can throw, with a constructor for each message of
-- the code; and the two faults of the standard library that vectors can raise.
use high_load_systems.Common.{ℕ, ℤ, Bytes, Result}

pub data ParserError : Type 0 where
  too_long : Bytes → ParserError  -- The argument "s" is too long
  not_integer : Bytes → ParserError  -- The argument "s" is not integer
  not_float : Bytes → ParserError  -- The argument "s" is not float
  is_null : Bytes → ParserError  -- The argument "s" is null
  no_such_file : ParserError  -- This file doesn't exist.
  bad_path : ParserError  -- This path is bad
  too_few_arguments : ParserError  -- Expected 2 or more arguments for this app.
  unknown_parameter : ℕ → ParserError  -- Unknown parameter as n's argument
  expected : ℕ → Bytes → ParserError  -- Expected n arguments for -name.

pub data ReadError : Type 0 where
  cannot_open small_file bad_signature bad_header_size bad_pixel_size : ReadError
  has_compression has_colour_table : ReadError

pub data Error : Type 0 where
  parser : ParserError → Error
  read_image : ReadError → Error
  write_image : Error
  zero_sigma : Error  -- ApplyFilterException("Sigma can't be zero")
  bad_center : ℤ → Error  -- ApplyFilterException("Incorrect center coordinates for -tunnel")
  length_error : Error  -- std::length_error of a vector
  out_of_bounds : Error  -- an index past the end of a vector: undefined behaviour

abbrev pub Run {ℓ} : Type ℓ → Type ℓ
Run A = Result Error A
