-- ===== src/ImageProcessor/Main/Total.antt =====
-- image_processor.cpp: the program ends, and what it writes is the encoding of a picture.
use high_load_systems.Common.{
  ◌≡◌, ◌∙◌, arith, refl, ◌≢◌, Bool, true, false, Bool-cases, inl, inr, List, [], ◌∷◌, some, Bytes,
  length, ◌==◌, All, map, ◌>>=◌,
}
use high_load_systems.ImageProcessor.Floats.{Float, IsIeee}
use high_load_systems.ImageProcessor.Exception.{Run, write_image, out_of_bounds}
use high_load_systems.ImageProcessor.Image.{Image, no_pixel}
use high_load_systems.ImageProcessor.Image.Shape.{
  IsPicture, IsValid, Anything, IsImage-forget, OffsetsFit,
}
use high_load_systems.ImageProcessor.Image.Narrows.{Narrows-returned}
use high_load_systems.ImageProcessor.Filter.{apply_filters}
use high_load_systems.ImageProcessor.Filter.Widths.{apply_filters-Narrows}
use high_load_systems.ImageProcessor.Filter.Picture.{Safe, Safe-bind, IsGrid-map}
use high_load_systems.ImageProcessor.Filter.Safety.{
  HasArguments, apply_filters-Safe, apply_filters-nil,
}
use high_load_systems.ImageProcessor.Image.Transpose.{IsGrid-replicate}
use high_load_systems.ImageProcessor.Io.Rows.{quantised}
use high_load_systems.ImageProcessor.Io.{write_file}
use high_load_systems.ImageProcessor.Io.RoundTrip.{
  IsStorable, file_bytes, stored, write_file-encoded, read_file-write_file, write_file-closed,
}
use high_load_systems.ImageProcessor.Io.Safety.{IsByte, HeaderFits, read_any-Safe}
use high_load_systems.ImageProcessor.Parser.{Files, Command}
use high_load_systems.ImageProcessor.Parser.Totality.{parse-Safe}
use high_load_systems.ImageProcessor.Parser.Words.{Wish, all_words, IsPossible}
use high_load_systems.ImageProcessor.Parser.RoundTrip.{filter_of, parse-all_words}
use high_load_systems.ImageProcessor.Main.{
  Outcome, help, wrote, failed, process, report, finish, run,
}

-- The files hold bytes, and a header states fewer than 2 ^ 31 rows and a width for which the
-- offsets in a row fit an int.
abbrev pub HasPictures : (D : Type 0) → ⦃f : Float D⦄ → Files → Type 0
HasPictures D files =
    (path content : Bytes)
    → files.content path ≡ some content
    → All IsByte content × HeaderFits content

-- The bytes are the encoding of a picture.
abbrev pub IsEncoding : (D : Type 0) → ⦃f : Float D⦄ → Bytes → Type 0
IsEncoding D content = (img : Image D) × IsPicture img × (content ≡ file_bytes img)

abbrev pub IsClean : (D : Type 0) → ⦃f : Float D⦄ → Outcome → Type 0
IsClean D help = Unit
IsClean D (wrote path content) = IsEncoding D content
IsClean D (failed e) = e ≢ out_of_bounds

report-IsClean :
    {D : Type 0} ⦃f : Float D⦄ (path : Bytes) (r : Run Bytes)
    → Safe r (IsEncoding D)
    → IsClean D (report path r)
unfolding report
report-IsClean path r (inl (content, e, p)) = rw e p
report-IsClean path r (inr (u, e, n)) = rw e n

module _ {D : Type 0} ⦃f : Float D⦄ (ieee : IsIeee D) where
  write_any-Safe :
      (writable : Bool) (img : Image D)
      → IsPicture img
      → OffsetsFit img.width
      → Safe (write_file writable img) (IsEncoding D)
  write_any-Safe true img v fits =
      inl (file_bytes img, (write_file-encoded img (IsImage-forget v) fits).0, (img, v, refl))
  write_any-Safe false img v fits = inr (write_image, write_file-closed img, λ e. cc)

  process-Safe :
      (files : Files) (command : Command D)
      → HasPictures D files
      → All HasArguments command.filters
      → Safe (process files command) (IsEncoding D)
  unfolding process
  process-Safe files command h a =
      Safe-bind (λ img. IsPicture img × OffsetsFit img.width) (IsEncoding D) _ _
        (read_any-Safe ieee (files.content command.input_path) (h command.input_path))
        λ img _ (v, fits).
          Safe-bind IsPicture (IsEncoding D) _ _ (apply_filters-Safe ieee command.filters img a v)
            λ out made vo.
              let narrow =
                Narrows-returned img.width _ out
                  (apply_filters-Narrows img.width command.filters img (omega arith)) made in
              write_any-Safe (files.writable command.output_path) out vo (omega arith)

  -- If the files hold bytes and every stored header gives fewer than 2^31 rows and a width three
  -- times which is at most 2^31, the program ends on every command line: with the help text,
  -- with a file that is the encoding of a picture with channels between 0 and 1, or with the
  -- text of an exception, never with an index past a vector or past the arguments.
  pub run-IsClean :
      (files : Files) (argv : List Bytes)
      → HasPictures D files
      → (o : Outcome) × (run D files argv ≡ some o) × IsClean D o
  unfolding run finish
  run-IsClean files argv h = elim (Bool-cases (length argv == 1)) [
    | inl alone ↦ rw alone (help, refl, tt)
    | inr more ↦
        let (r, e, safe) = parse-Safe {D = D} files argv in
        rw (more, e)
          (
            finish {D = D} files r,
            refl,
            elim safe [
              | inr (u, eu, n) ↦ rw eu n
              | inl (command, ec, a) ↦
                  rw ec (report-IsClean command.output_path _ (process-Safe files command h a))
            ],
          )
  ]

module _ {D : Type 0} ⦃f : Float D⦄ where
  stored-IsValid : (img : Image D) → IsValid img → IsValid (stored img)
  stored-IsValid img v = record {
    picture = IsGrid-map Anything Anything quantised img.pixels (λ p a. tt) v.picture;
    scratch = IsGrid-replicate img.height img.width Anything no_pixel tt;
    height_fits = v.height_fits;
    width_fits = v.width_fits;
  }

  -- If the input exists, is a regular file and stores an image whose width times 3 is at most
  -- 2^31, the program on a command line written from any list of filters, with decimal numbers
  -- of at most nine digits that are not 0 for a crop and texts that IsFloat accepts, applies
  -- exactly these filters in their order to the image that the file stores and writes what they
  -- make of it to the output, or reports the first exception of a filter or of the writer.
  pub run-all_words :
      (files : Files) (name input output : Bytes) (wishes : List Wish) (img : Image D)
      → All IsPossible wishes
      → IsStorable img
      → files.exists input ≡ true
      → files.is_regular_file input ≡ true
      → files.content input ≡ some (file_bytes img)
      → run D files (name ∷ input ∷ output ∷ all_words wishes)
        ≡ some (
            report output (
              apply_filters (map filter_of wishes) (stored img)
              >>= write_file (files.writable output)))
  unfolding run finish process
  run-all_words files name input output wishes img h s exists regular content =
      let (wrote_in, read_in) = read_file-write_file img s in
      let several : (length (name ∷ input ∷ output ∷ all_words wishes) == 1) ≡ false =
        ground arith in
      rw
        (
          several,
          parse-all_words {D = D} files name input output wishes exists regular h,
          content,
          read_in,
        )
        refl

  -- Without filters, if the input exists, is a regular file that stores an image, and the output
  -- can be written, the program writes the encoding of the image that the file stores.
  run-copy :
      (files : Files) (name input output : Bytes) (img : Image D)
      → IsStorable img
      → files.exists input ≡ true
      → files.is_regular_file input ≡ true
      → files.content input ≡ some (file_bytes img)
      → files.writable output ≡ true
      → run D files (name ∷ input ∷ output ∷ []) ≡ some (wrote output (file_bytes (stored img)))
  unfolding report
  run-copy files name input output img s exists regular content writable =
      let (wrote_out, _, _) =
        write_file-encoded (stored img) (stored-IsValid img s.valid) s.offsets_fit in
      run-all_words files name input output [] img tt s exists regular content
      ∙ rw (apply_filters-nil, writable, wrote_out) refl
