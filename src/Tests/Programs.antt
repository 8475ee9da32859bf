-- ===== src/Tests/Programs.antt =====
-- image_processor: whole runs, from the command line and the files' bytes.
use high_load_systems.Common.{
  map, ◌>>=◌, true, List, ◌≡◌, refl, ◌↔◌, [], ◌∷◌, some, arith, Bytes, codes, ℤ, pos, ok, All,
  Option-some_inj, ◌++◌, replicate, Bool, ltb, ◌&&◌,
}
use high_load_systems.ImageProcessor.Exception.{Run}
use high_load_systems.ImageProcessor.Image.Shape.{IsPicture, OffsetsFit}
use high_load_systems.ImageProcessor.Filter.{Filter, crop, apply_filters}
use high_load_systems.ImageProcessor.Filter.Picture.{Safe}
use high_load_systems.ImageProcessor.Filter.Safety.{HasArguments}
use high_load_systems.ImageProcessor.Io.{
  write_file, read_file, read_file_header, read_info_header, read_u16, read_u32, read_le,
}
use high_load_systems.ImageProcessor.Io.RoundTrip.{file_bytes, stored}
use high_load_systems.ImageProcessor.Io.Safety.{IsByte, read_file-Safe}
use high_load_systems.ImageProcessor.Fabrics.{is_float, make_crop}
use high_load_systems.ImageProcessor.Fabrics.Numbers.{IsCount, modulo_int16, make_crop_iff}
use high_load_systems.ImageProcessor.Parser.{Files, Command, parse}
use high_load_systems.ImageProcessor.Parser.Totality.{parse-Safe}
use high_load_systems.ImageProcessor.Parser.Words.{crop_to, as_negative, edges_at, Wish, all_words}
use high_load_systems.ImageProcessor.Parser.RoundTrip.{command_of, filter_of, parse-all_words}
use high_load_systems.ImageProcessor.Main.{Outcome, report, run}
use high_load_systems.ImageProcessor.Main.Total.{HasPictures, IsClean, run-IsClean, run-all_words}
use high_load_systems.Tests.Fixed.{fixed, fixed_laws}
use high_load_systems.Tests.Pictures.{square, square-IsStorable}

-- A file with one pixel: the header of 54 bytes, blue, green, red, and one byte of padding.
abbrev dot : Bytes
dot =
    codes "BM"
    ++ (58 ∷ 0 ∷ 0 ∷ 0 ∷ 0 ∷ 0 ∷ 0 ∷ 0 ∷ 54 ∷ 0 ∷ 0 ∷ 0 ∷ [])
    ++ (40 ∷ 0 ∷ 0 ∷ 0 ∷ 1 ∷ 0 ∷ 0 ∷ 0 ∷ 1 ∷ 0 ∷ 0 ∷ 0 ∷ 1 ∷ 0 ∷ 24 ∷ 0 ∷ [])
    ++ replicate 4 0
    ++ (4 ∷ [])
    ++ replicate 19 0
    ++ (10 ∷ 20 ∷ 30 ∷ 0 ∷ [])

are_bytes : Bytes → Bool
are_bytes [] = true
are_bytes (b ∷ s) = ltb b 256 && are_bytes s

are_bytes-All : (s : Bytes) → are_bytes s ≡ true → All IsByte s
unfolding are_bytes
are_bytes-All [] h = tt
are_bytes-All (b ∷ s) h = (ground arith, are_bytes-All s (ground arith))

dot_bytes : All IsByte dot
unfolding are_bytes
dot_bytes = are_bytes-All dot refl

-- A file system where every path is a regular file with the same content.
abbrev files_of : Bytes → Files
files_of content = record {
  exists = λ path. true;
  is_regular_file = λ path. true;
  content = λ path. some content;
  writable = λ path. true;
}

dot-HasPictures : HasPictures ℤ (files_of dot)
unfolding read_file_header read_info_header read_u16 read_u32 read_le
dot-HasPictures path content e = rw (← Option-some_inj e) (dot_bytes, (omega arith, omega arith))

run-IsClean_example :
    (o : Outcome) × (run ℤ
        (files_of dot)
        (codes "app" ∷ codes "in" ∷ codes "out" ∷ codes "-neg" ∷ [])
      ≡ some o)
    × IsClean ℤ o
run-IsClean_example =
    run-IsClean fixed_laws (files_of dot)
      (codes "app" ∷ codes "in" ∷ codes "out" ∷ codes "-neg" ∷ []) dot-HasPictures

parse-Safe_example :
    (r : Run (Command ℤ)) × (parse
        (files_of dot)
        (codes "app" ∷ codes "in" ∷ codes "out" ∷ codes "-crop" ∷ codes "2" ∷ [])
      ≡ some r)
    × Safe r λ command. All HasArguments command.filters
parse-Safe_example =
    parse-Safe (files_of dot)
      (codes "app" ∷ codes "in" ∷ codes "out" ∷ codes "-crop" ∷ codes "2" ∷ [])

read_file-Safe_example :
    Safe (read_file {D = ℤ} (some dot)) (λ img. IsPicture img × OffsetsFit img.width)
read_file-Safe_example = read_file-Safe fixed_laws dot dot_bytes (dot-HasPictures [] dot refl).1

abbrev no_columns : Filter ℤ
no_columns = crop (pos 0) (pos 1)

-- `-crop 65536 1` is let through, and its width is stored as 0.
make_crop_iff_example : (make_crop (codes "65536") (codes "1") ≡ ok no_columns) ↔ (
    IsCount (codes "65536")
    × IsCount (codes "1")
    × (no_columns ≡ crop (modulo_int16 65536) (modulo_int16 1)))
make_crop_iff_example = make_crop_iff (codes "65536") (codes "1") no_columns

abbrev wishes : List Wish
wishes = crop_to 640 480 ∷ as_negative ∷ edges_at (codes "0.25") ∷ []

parse-all_words_example :
    parse {D = ℤ} (files_of dot) (codes "app" ∷ codes "in" ∷ codes "out" ∷ all_words wishes)
    ≡ some (ok (command_of (codes "in") (codes "out") wishes))
unfolding is_float
parse-all_words_example =
    parse-all_words (files_of dot) (codes "app") (codes "in") (codes "out") wishes refl refl
      ((omega arith, omega arith, omega arith, omega arith), (tt, (refl, tt)))

run-all_words_example :
    run ℤ (files_of (file_bytes square)) (codes "app" ∷ codes "in" ∷ codes "out" ∷ all_words wishes)
    ≡ some (
        report
          (codes "out")
          (apply_filters (map filter_of wishes) (stored square) >>= write_file true))
unfolding is_float
run-all_words_example =
    run-all_words (files_of (file_bytes square)) (codes "app") (codes "in") (codes "out") wishes
      square ((omega arith, omega arith, omega arith, omega arith), (tt, (refl, tt)))
      square-IsStorable refl refl refl
