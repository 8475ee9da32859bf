-- ===== src/ImageProcessor/Main.antt =====
-- image_processor/image_processor.cpp: the whole program, from the command line to the file written.
pub mod Total
use mathlib.Core.Option
use high_load_systems.Common.{
  ℕ, Option, some, List, Bytes, length, ◌==◌, if◌then◌else◌, ok, err, ◌>>=◌,
}
use high_load_systems.ImageProcessor.Floats.{Float}
use high_load_systems.ImageProcessor.Exception.{Run, Error}
use high_load_systems.ImageProcessor.Filter.{apply_filters}
use high_load_systems.ImageProcessor.Io.{read_file, write_file}
use high_load_systems.ImageProcessor.Parser.{Files, Command, parse}

-- What the program leaves: the help text, a file with its bytes, or the text of an exception.
pub data Outcome : Type 0 where
  help : Outcome
  wrote : (path content : Bytes) → Outcome
  failed : Error → Outcome

-- The catch clauses.
pub report : Bytes → Run Bytes → Outcome
report path (ok content) = wrote path content
report path (err e) = failed e

module _ {D : Type 0} ⦃f : Float D⦄ where
  -- The body of `main` after parsing: read, apply the filters in order, write.
  pub process : Files → Command D → Run Bytes
  process files command = do
    img ← read_file (files.content command.input_path)
    out ← apply_filters command.filters img
    write_file (files.writable command.output_path) out

  pub finish : Files → Run (Command D) → Outcome
  unfolding process report
  finish files (ok command) = report command.output_path (process files command)
  finish files (err e) = failed e

-- `main`, over the doubles `D`
pub run : (D : Type 0) → ⦃f : Float D⦄ → Files → List Bytes → Option Outcome
run D files argv =
    if length argv == 1 then some help else Option.map (finish files) (parse {D = D} files argv)
