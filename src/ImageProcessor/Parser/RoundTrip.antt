-- ===== src/ImageProcessor/Parser/RoundTrip.antt =====
-- parser.cpp: a command line written from filters is parsed to these filters.
use high_load_systems.Common.{
  ℕ, zero, suc, ◌+◌, ◌<◌, ◌≡◌, refl, true, false, List, [], ◌∷◌, ◌++◌, map, append-nil,
  append_assoc, some, arith, Bytes, codes, ltb, length, length-append, ok, All, pos, to_string,
}
use high_load_systems.ImageProcessor.Floats.{Float}
use high_load_systems.ImageProcessor.Filter.{
  Filter, crop, grayscale, negative, sharpening, edge_detection, gaussian_blur, tunnel,
}
use high_load_systems.ImageProcessor.Fabrics.{to_int16}
use high_load_systems.ImageProcessor.Fabrics.Numbers.{
  make_crop-to_string, make_tunnel-to_string, make_edge-text, make_blur-text,
}
use high_load_systems.ImageProcessor.Parser.{
  Files, Command, path_check, parse_step, parse_loop, parse_paths, parse,
}
use high_load_systems.ImageProcessor.Parser.Words.{
  crop_to, in_gray, as_negative, sharper, edges_at, blurred, tunnelled, words_of, all_words,
  IsPossible, get_elem?-past, length-words_of, length-all_words, first_word, enough, Wish,
}

module _ {D : Type 0} ⦃f : Float D⦄ where
  abbrev pub filter_of : Wish → Filter D
  filter_of (crop_to width height) = crop (to_int16 width) (to_int16 height)
  filter_of in_gray = grayscale
  filter_of as_negative = negative
  filter_of sharper = sharpening
  filter_of (edges_at threshold) = edge_detection (f.of_text threshold)
  filter_of (blurred sigma) = gaussian_blur (f.of_text sigma)
  filter_of (tunnelled row column strength radius) =
      tunnel (pos row) (pos column) (f.of_text strength) (f.of_text radius)

  parse_step-words :
      (wish : Wish) (before rest : List Bytes)
      → IsPossible wish
      → parse_step {D = D} (before ++ (words_of wish ++ rest)) (length before)
        ≡ ok (some (filter_of wish), length before + length (words_of wish))
  unfolding parse_step
  parse_step-words in_gray before rest h =
      rw (parse_step, first_word before rest (codes "-gs")) refl
  parse_step-words as_negative before rest h =
      rw (parse_step, first_word before rest (codes "-neg")) refl
  parse_step-words sharper before rest h =
      rw (parse_step, first_word before rest (codes "-sharp")) refl
  parse_step-words (edges_at t) before rest h =
      let words = codes "-edge" ∷ t ∷ rest in
      rw
        (
          parse_step,
          first_word before (t ∷ rest) (codes "-edge"),
          enough before words 1 (omega arith),
          get_elem?-past before words 1 (length before + 1) refl,
          make_edge-text t h,
        )
        refl
  parse_step-words (blurred t) before rest h =
      let words = codes "-blur" ∷ t ∷ rest in
      rw
        (
          parse_step,
          first_word before (t ∷ rest) (codes "-blur"),
          enough before words 1 (omega arith),
          get_elem?-past before words 1 (length before + 1) refl,
          make_blur-text t h,
        )
        refl
  parse_step-words (crop_to w t) before rest (pos_w, small_w, pos_t, small_t) =
      let words = codes "-crop" ∷ to_string w ∷ to_string t ∷ rest in
      rw
        (
          parse_step,
          first_word before (to_string w ∷ to_string t ∷ rest) (codes "-crop"),
          enough before words 2 (omega arith),
          get_elem?-past before words 1 (length before + 1) refl,
          get_elem?-past before words 2 (length before + 2) refl,
          make_crop-to_string w t pos_w small_w pos_t small_t,
        )
        refl
  parse_step-words (tunnelled r c s t) before rest (small_r, small_c, is_s, is_t) =
      let words = codes "-tunnel" ∷ to_string r ∷ to_string c ∷ s ∷ t ∷ rest in
      rw
        (
          parse_step,
          first_word before (to_string r ∷ to_string c ∷ s ∷ t ∷ rest) (codes "-tunnel"),
          enough before words 4 (omega arith),
          get_elem?-past before words 1 (length before + 1) refl,
          get_elem?-past before words 2 (length before + 2) refl,
          get_elem?-past before words 3 (length before + 3) refl,
          get_elem?-past before words 4 (length before + 4) refl,
          make_tunnel-to_string r c s t small_r small_c is_s is_t,
        )
        refl

  parse_loop-words :
      (wishes : List Wish) (before : List Bytes) (filters : List (Filter D)) (fuel : ℕ)
      → All IsPossible wishes
      → length wishes < fuel
      → parse_loop fuel (before ++ all_words wishes) (length before) filters
        ≡ some (ok (filters ++ map filter_of wishes))
  unfolding parse_loop
  parse_loop-words wishes before filters zero h lt = absurd (omega arith)
  parse_loop-words [] before filters (suc fuel) h lt =
      let done : ltb (length before) (length before) ≡ false = ground arith in
      rw (parse_loop, append-nil before, done, append-nil filters) refl
  parse_loop-words (wish ∷ wishes) before filters (suc fuel) (h, hs) lt =
      let words = words_of wish ++ all_words wishes in
      let split = length-append before words in
      let word = length-words_of wish in
      let first = length-append (words_of wish) (all_words wishes) in
      let more : ltb (length before) (length (before ++ words)) ≡ true = ground arith in
      let rest =
        parse_loop-words wishes (before ++ words_of wish) (filters ++ filter_of wish ∷ []) fuel hs
          (omega arith) in
      rw (parse_loop, more, parse_step-words wish before (all_words wishes) h)
        (rw
          (
            append_assoc before (words_of wish) (all_words wishes),
            length-append before (words_of wish),
            append_assoc filters (filter_of wish ∷ []) (map filter_of wishes),
          )
          at rest)

  parse_paths-words :
      (files : Files) (name input output : Bytes) (words : List Bytes)
      → files.exists input ≡ true
      → files.is_regular_file input ≡ true
      → parse_paths {D = D} files (name ∷ input ∷ output ∷ words)
        ≡ ok (record { input_path = input; output_path = output; filters = [] })
  unfolding parse_paths path_check
  parse_paths-words files name input output words exists regular =
      let many : ltb (length (name ∷ input ∷ output ∷ words)) 3 ≡ false = ground arith in
      rw (parse_paths, many, exists, regular) refl

  abbrev pub command_of : (input output : Bytes) → List Wish → Command D
  command_of input output wishes = record {
    input_path = input;
    output_path = output;
    filters = map filter_of wishes;
  }

  -- A command line written from any list of filters, with decimal numbers of at most nine digits
  -- that are not 0 for a crop and texts that IsFloat accepts, is parsed, if the input exists and
  -- is a regular file, to the two paths and exactly these filters in their order, with the sizes
  -- of a crop converted to int16_t.
  pub parse-all_words :
      (files : Files) (name input output : Bytes) (wishes : List Wish)
      → files.exists input ≡ true
      → files.is_regular_file input ≡ true
      → All IsPossible wishes
      → parse {D = D} files (name ∷ input ∷ output ∷ all_words wishes)
        ≡ some (ok (command_of input output wishes))
  unfolding parse
  parse-all_words files name input output wishes exists regular h =
      let enough_fuel = length-all_words wishes in
      let loop =
        parse_loop-words wishes (name ∷ input ∷ output ∷ []) []
          (length (name ∷ input ∷ output ∷ all_words wishes)) h (omega arith) in
      rw (parse, parse_paths-words files name input output (all_words wishes) exists regular, loop)
        refl
