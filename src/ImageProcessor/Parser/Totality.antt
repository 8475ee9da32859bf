-- ===== src/ImageProcessor/Parser/Totality.antt =====
-- parser.cpp: the loop over the arguments ends, and the parser never reads past them.
use high_load_systems.Common.{
  ℕ, zero, suc, ◌+◌, ◌≤◌, ◌<◌, ◌≡◌, refl, ◌≢◌, Bool, true, false, not, Bool-cases, inl, inr, List,
  [], ◌∷◌, Option, none, some, arith, Bytes, codes, bytes_eq, ltb, leb, ltb→lt, if◌then◌else◌,
  length, ok, err, All, All-append, at,
}
use high_load_systems.ImageProcessor.Floats.{Float}
use high_load_systems.ImageProcessor.Exception.{Run, Error, out_of_bounds}
use high_load_systems.ImageProcessor.Filter.{Filter}
use high_load_systems.ImageProcessor.Filter.Picture.{Safe, Safe-bind}
use high_load_systems.ImageProcessor.Filter.Safety.{HasArguments}
use high_load_systems.ImageProcessor.Fabrics.Arguments.{
  make_crop-Safe, make_edge-Safe, make_blur-Safe, make_tunnel-Safe,
}
use high_load_systems.ImageProcessor.Parser.{
  Files, Command, starts_with_dash, path_check, parse_step, push, parse_loop, parse_paths,
  with_filters, parse,
}

at-Safe :
    {A : Type 0} (xs : List A) (i : ℕ) → i < length xs → Safe (at out_of_bounds xs i) λ _. Unit {0}
at-Safe [] i h = absurd (omega arith)
at-Safe (x ∷ xs) zero h = inl (x, refl, tt)
at-Safe (x ∷ xs) (suc i) h = at-Safe xs i (omega arith)

leb-false : (a b : ℕ) → leb a b ≡ false → b < a
leb-false a b h = ground arith

if-Safe :
    {A : Type 0} (P : A → Type 0) (b : Bool) (x y : Run A)
    → (b ≡ true → Safe x P)
    → (b ≡ false → Safe y P)
    → Safe (if b then x else y) P
if-Safe P true x y hx hy = hx refl
if-Safe P false x y hx hy = hy refl

throw-Safe : {A : Type 0} (P : A → Type 0) (e : Error) → e ≢ out_of_bounds → Safe (err e) P
throw-Safe P e n = inr (e, refl, n)

path_check-Safe : (files : Files) (s : Bytes) → Safe (path_check files s) λ _. Unit {0}
unfolding path_check
path_check-Safe files s =
    if-Safe _ (not (files.exists s)) _ _ (λ _. throw-Safe _ _ (λ e. cc))
      λ _.
        if-Safe _ (not (files.is_regular_file s)) _ _ (λ _. throw-Safe _ _ (λ e. cc))
          λ _. inl (tt, refl, tt)

module _ {D : Type 0} ⦃f : Float D⦄ where
  -- What a round that read the argument `cur_arg` makes.
  abbrev HasAdvanced : ℕ → Option (Filter D) × ℕ → Type 0
  HasAdvanced cur_arg (none, next) = cur_arg < next
  HasAdvanced cur_arg (some filter, next) = HasArguments filter × (cur_arg < next)

  parse_step-Safe :
      (argv : List Bytes) (cur_arg : ℕ)
      → cur_arg < length argv
      → Safe (parse_step argv cur_arg) (HasAdvanced cur_arg)
  unfolding parse_step
  parse_step-Safe argv cur_arg h =
      let P = HasAdvanced cur_arg in
      Safe-bind _ P (at out_of_bounds argv cur_arg) _ (at-Safe argv cur_arg h) λ arg _ _.
        if-Safe P (not (starts_with_dash arg)) _ _ (λ _. throw-Safe P _ (λ e. cc))
          λ _.
            if-Safe P (bytes_eq arg (codes "-crop")) _ _
              (λ _.
                if-Safe P (leb (length argv) (cur_arg + 2)) _ _ (λ _. throw-Safe P _ (λ e. cc))
                  λ room.
                    let lt = leb-false _ _ room in
                    Safe-bind _ P _ _ (at-Safe argv (cur_arg + 1) (omega arith)) λ width _ _.
                      Safe-bind _ P _ _ (at-Safe argv (cur_arg + 2) lt) λ height _ _.
                        Safe-bind _ P _ _ (make_crop-Safe width height)
                          λ filter _ a. inl (_, refl, (a, omega arith)))
              λ _.
                if-Safe P (bytes_eq arg (codes "-gs")) _ _ (λ _. inl (_, refl, (tt, omega arith)))
                  λ _.
                    if-Safe P (bytes_eq arg (codes "-neg")) _ _
                      (λ _. inl (_, refl, (tt, omega arith)))
                      λ _.
                        if-Safe P (bytes_eq arg (codes "-sharp")) _ _
                          (λ _. inl (_, refl, (tt, omega arith)))
                          λ _.
                            if-Safe P (bytes_eq arg (codes "-edge")) _ _
                              (λ _.
                                if-Safe P (leb (length argv) (cur_arg + 1)) _ _
                                  (λ _. throw-Safe P _ (λ e. cc))
                                  λ room.
                                    Safe-bind _ P _ _
                                      (at-Safe argv (cur_arg + 1) (leb-false _ _ room))
                                      λ value _ _.
                                        Safe-bind _ P _ _ (make_edge-Safe value)
                                          λ filter _ a. inl (_, refl, (a, omega arith)))
                              λ _.
                                if-Safe P (bytes_eq arg (codes "-blur")) _ _
                                  (λ _.
                                    if-Safe P (leb (length argv) (cur_arg + 1)) _ _
                                      (λ _. throw-Safe P _ (λ e. cc))
                                      λ room.
                                        Safe-bind _ P _ _
                                          (at-Safe argv (cur_arg + 1) (leb-false _ _ room))
                                          λ value _ _.
                                            Safe-bind _ P _ _ (make_blur-Safe value)
                                              λ filter _ a. inl (_, refl, (a, omega arith)))
                                  λ _.
                                    if-Safe P (bytes_eq arg (codes "-tunnel")) _ _
                                      (λ _.
                                        if-Safe P (leb (length argv) (cur_arg + 4)) _ _
                                          (λ _. throw-Safe P _ (λ e. cc))
                                          λ room.
                                            let lt = leb-false _ _ room in
                                            Safe-bind _ P _ _
                                              (at-Safe argv (cur_arg + 1) (omega arith))
                                              λ pixel_h _ _.
                                                Safe-bind _ P _ _
                                                  (at-Safe argv (cur_arg + 2) (omega arith))
                                                  λ pixel_w _ _.
                                                    Safe-bind _ P _ _
                                                      (at-Safe argv (cur_arg + 3) (omega arith))
                                                      λ strength _ _.
                                                        Safe-bind _ P _ _
                                                          (at-Safe argv (cur_arg + 4) lt)
                                                          λ radius _ _.
                                                            Safe-bind _ P _ _
                                                            (make_tunnel-Safe pixel_h pixel_w
                                                            strength radius)
                                                            λ filter _ a.
                                                            inl (_, refl, (a, omega arith)))
                                      λ _. inl (_, refl, omega arith)

  push-HasArguments :
      (filters : List (Filter D)) (cur_arg : ℕ) (r : Option (Filter D) × ℕ)
      → All HasArguments filters
      → HasAdvanced cur_arg r
      → All HasArguments (push filters r.0) × (cur_arg < r.1)
  push-HasArguments filters cur_arg (none, next) a h = (a, h)
  push-HasArguments filters cur_arg (some filter, next) a h =
      (All-append HasArguments filters (filter ∷ []) a (h.0, tt), h.1)

  -- As many rounds as there are arguments left are enough.
  parse_loop-Safe :
      (fuel : ℕ) (argv : List Bytes) (cur_arg : ℕ) (filters : List (Filter D))
      → length argv < fuel + cur_arg
      → 0 < fuel
      → All HasArguments filters
      → (r : Run (List (Filter D))) × (parse_loop fuel argv cur_arg filters ≡ some r)
        × Safe r (All HasArguments)
  unfolding parse_loop
  parse_loop-Safe zero argv cur_arg filters h pos a = absurd (omega arith)
  parse_loop-Safe (suc fuel) argv cur_arg filters h pos a =
      elim (Bool-cases (ltb cur_arg (length argv))) [
        | inr done ↦ rw done (ok filters, refl, inl (filters, refl, a))
        | inl more ↦
            let lt = ltb→lt cur_arg (length argv) more in
            rw more (elim (parse_step-Safe argv cur_arg lt) [
              | inr (e, run, n) ↦ rw run (err e, refl, inr (e, refl, n))
              | inl ((filter, next), run, advanced) ↦
                  let (a', far) = push-HasArguments filters cur_arg (filter, next) a advanced in
                  rw run (
                    parse_loop-Safe fuel argv next (push filters filter) (omega arith) (omega arith)
                      a')
            ])
      ]

  abbrev HasPaths : List Bytes → Command D → Type 0
  HasPaths argv command = (2 < length argv) × (command.filters ≡ [])

  parse_paths-Safe :
      (files : Files) (argv : List Bytes) → Safe (parse_paths files argv) (HasPaths argv)
  unfolding parse_paths
  parse_paths-Safe files argv =
      let P = HasPaths argv in
      if-Safe P (ltb (length argv) 3) _ _ (λ _. throw-Safe P _ (λ e. cc))
        λ room.
          let enough : 3 ≤ length argv = ground arith in
          Safe-bind _ P _ _ (at-Safe argv 1 (omega arith)) λ input_path _ _.
            Safe-bind _ P _ _ (at-Safe argv 2 (omega arith)) λ output_path _ _.
              Safe-bind _ P _ _ (path_check-Safe files input_path)
                λ _ _ _. inl (_, refl, (enough, refl))

  with_filters-Safe :
      (command : Command D) (r : Run (List (Filter D)))
      → Safe r (All HasArguments)
      → Safe (with_filters command r) λ c. All HasArguments c.filters
  with_filters-Safe command r (inl (filters, e, a)) =
      rw e (inl (record command { filters = filters }, refl, a))
  with_filters-Safe command r (inr (u, e, n)) = rw e (inr (u, refl, n))

  -- Parsing ends on every command line: in an exception of the parser, or in filters whose
  -- arguments fit the types that they are stored in, and no argument past the end is read.
  pub parse-Safe :
      (files : Files) (argv : List Bytes)
      → (r : Run (Command D)) × (parse files argv ≡ some r)
        × Safe r λ command. All HasArguments command.filters
  unfolding parse
  parse-Safe files argv = elim (parse_paths-Safe files argv) [
    | inr (e, run, n) ↦ rw (parse, run) (err e, refl, inr (e, refl, n))
    | inl (command, run, (enough, none_yet)) ↦
        let (r, loop, safe) =
          parse_loop-Safe (length argv) argv 3 [] (omega arith) (omega arith) tt in
        rw (parse, run, loop) (with_filters command r, refl, with_filters-Safe command r safe)
  ]
