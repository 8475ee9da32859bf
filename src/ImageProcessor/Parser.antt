-- ===== src/ImageProcessor/Parser.antt =====
-- image_processor/{include/parser.h, src/parser.cpp}: the command line. `argv` is a list of byte
-- strings and `argc` its length; the tests on the file system are parameters.
pub mod Totality
pub mod Words
pub mod RoundTrip
use mathlib.Core.Option
use high_load_systems.Common.{
  ℕ, zero, suc, ◌+◌, Bool, true, false, not, List, [], ◌∷◌, ◌++◌, Option, none, some, ltb, leb,
  ◌==◌, if◌then◌else◌, Bytes, codes, bytes_eq, length, ok, err, ◌>>=◌, ◌>>◌, at,
}
use high_load_systems.ImageProcessor.Floats.{Float}
use high_load_systems.ImageProcessor.Exception.{
  Run, no_such_file, bad_path, too_few_arguments, unknown_parameter, expected, parser,
  out_of_bounds,
}
use high_load_systems.ImageProcessor.Filter.{Filter}
use high_load_systems.ImageProcessor.Fabrics.{
  make_crop, make_gray_scale, make_negative, make_sharp, make_edge, make_blur, make_tunnel,
}

-- What std::filesystem and the streams answer about a path.
pub record Files : Type 0 where
  pub exists : Bytes → Bool
  pub is_regular_file : Bytes → Bool
  pub content : Bytes → Option Bytes  -- `none` if it cannot be opened for reading
  pub writable : Bytes → Bool

-- The fields of a `Parser` that parsing fills.
pub record Command (D : Type 0) : Type 0 where
  pub input_path : Bytes
  pub output_path : Bytes
  pub filters : List (Filter D)

-- `argv_[cur_arg][0] != '-'`; the first character of an empty argument is its end.
abbrev pub starts_with_dash : Bytes → Bool
starts_with_dash [] = false
starts_with_dash (c ∷ s) = c == b'-'

-- `Parser::PathCheck`
pub path_check : Files → Bytes → Run (Unit {0})
path_check files s =
    if not (files.exists s)
    then err (parser no_such_file)
    else if not (files.is_regular_file s)
    then err (parser bad_path)
    else ok tt

module _ {D : Type 0} ⦃f : Float D⦄ where
  -- One round of the loop in `Parse`: the filter that it pushes, if any, and the next `cur_arg`.
  pub parse_step : List Bytes → ℕ → Run (Option (Filter D) × ℕ)
  parse_step argv cur_arg =
      let argc = length argv in
      at out_of_bounds argv cur_arg >>= λ arg.
      if not (starts_with_dash arg)
      then err (parser (unknown_parameter cur_arg))
      else if bytes_eq arg (codes "-crop")
      then (if leb argc (cur_arg + 2) then err (parser (expected 2 (codes "-crop"))) else (do
        width ← at out_of_bounds argv (cur_arg + 1)
        height ← at out_of_bounds argv (cur_arg + 2)
        filter ← make_crop width height
        ok (some filter, cur_arg + 3)))
      else if bytes_eq arg (codes "-gs")
      then (make_gray_scale >>= λ filter. ok (some filter, cur_arg + 1))
      else if bytes_eq arg (codes "-neg")
      then (make_negative >>= λ filter. ok (some filter, cur_arg + 1))
      else if bytes_eq arg (codes "-sharp")
      then (make_sharp >>= λ filter. ok (some filter, cur_arg + 1))
      else if bytes_eq arg (codes "-edge")
      then (if leb argc (cur_arg + 1) then err (parser (expected 1 (codes "-edge"))) else (do
        value ← at out_of_bounds argv (cur_arg + 1)
        filter ← make_edge value
        ok (some filter, cur_arg + 2)))
      else if bytes_eq arg (codes "-blur")
      then (if leb argc (cur_arg + 1) then err (parser (expected 1 (codes "-blur"))) else (do
        value ← at out_of_bounds argv (cur_arg + 1)
        filter ← make_blur value
        ok (some filter, cur_arg + 2)))
      else if bytes_eq arg (codes "-tunnel")
      then (if leb argc (cur_arg + 4) then err (parser (expected 4 (codes "-tunnel"))) else (do
        pixel_h ← at out_of_bounds argv (cur_arg + 1)
        pixel_w ← at out_of_bounds argv (cur_arg + 2)
        strength ← at out_of_bounds argv (cur_arg + 3)
        radius ← at out_of_bounds argv (cur_arg + 4)
        filter ← make_tunnel pixel_h pixel_w strength radius
        ok (some filter, cur_arg + 5)))
      else ok (none, cur_arg + 1)

  abbrev pub push : List (Filter D) → Option (Filter D) → List (Filter D)
  push filters none = filters
  push filters (some filter) = filters ++ filter ∷ []

  -- The loop, on fuel: `none` means that the fuel ran out.
  pub parse_loop : ℕ → List Bytes → ℕ → List (Filter D) → Option (Run (List (Filter D)))
  parse_loop zero argv cur_arg filters = none
  parse_loop (suc fuel) argv cur_arg filters =
      if ltb cur_arg (length argv)
      then (elim (parse_step argv cur_arg) [
        | err e ↦ some (err e)
        | ok (filter, next) ↦ parse_loop fuel argv next (push filters filter)
      ])
      else some (ok filters)

  -- `Parse` up to its loop.
  pub parse_paths : Files → List Bytes → Run (Command D)
  parse_paths files argv = if ltb (length argv) 3 then err (parser too_few_arguments) else (do
    input_path ← at out_of_bounds argv 1
    output_path ← at out_of_bounds argv 2
    path_check files input_path
    ok (record { input_path = input_path; output_path = output_path; filters = [] }))

  abbrev pub with_filters : Command D → Run (List (Filter D)) → Run (Command D)
  with_filters command (ok filters) = ok (record command { filters = filters })
  with_filters command (err e) = err e

  -- `Parser::Parse` where it does not print the help text. A round takes at least one argument.
  pub parse : Files → List Bytes → Option (Run (Command D))
  parse files argv = elim (parse_paths files argv) [
    | err e ↦ some (err e)
    | ok command ↦ Option.map (with_filters command) (parse_loop (length argv) argv 3 [])
  ]
