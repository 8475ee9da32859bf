-- ===== src/ImageProcessor/Image/Transpose.antt =====
-- matrix.cpp, `Matrix::Transpose`.
use high_load_systems.Common.{
  All-set, ℕ, ◌<◌, List, arith, length-set, set, replicate, length-replicate, Returns, for_loop,
  for_each-Returns,
}
use high_load_systems.ImageProcessor.Floats.{Float, zero_d}
use high_load_systems.ImageProcessor.Image.{transpose_cell, transpose}
use high_load_systems.ImageProcessor.Image.Shape.{
  IsGrid, Anything, All-get, All-replicate, All-Anything, cell-Returns,
}

pub IsGrid-replicate {ℓ} :
    {A : Type ℓ} (h w : ℕ) (P : A → Type 0) (x : A)
    → P x
    → IsGrid h w P (replicate h (replicate w x))
IsGrid-replicate h w P x p = record {
  rows = length-replicate h (replicate w x);
  lines = All-replicate _ h _ (length-replicate w x, All-replicate P w x p);
}

module _ {D : Type 0} ⦃f : Float D⦄ (h w : ℕ) (matrix : List (List D))
    (g : IsGrid h w Anything matrix) where
  transpose_cell-Returns :
      (i j : ℕ) (acc : List (List D))
      → i < h
      → j < w
      → IsGrid w h Anything acc
      → Returns (transpose_cell matrix i j acc) (IsGrid w h Anything)
  unfolding transpose_cell
  transpose_cell-Returns i j acc hi hj ga =
      let (x, ex, _) = cell-Returns matrix i j g hi hj in
      let (line, el, (ll, _)) = All-get _ acc j ga.lines (omega (arith, ga.rows)) in
      let (y, ey, _) = All-get Anything line i (All-Anything line) (omega (arith, ll)) in
      (
        set acc j (set line i x),
        rw (ex, el) (rw ey),
        record {
          rows = omega (arith, length-set acc j (set line i x), ga.rows);
          lines =
              All-set _ acc j _
                (omega (arith, length-set line i x, ll), All-Anything (set line i x)) ga.lines;
        },
      )

  -- Transposing a matrix of h rows of w cells with h above 0 reads and writes inside the vectors
  -- and gives w rows of h cells.
  pub transpose-Returns : 0 < h → Returns (transpose matrix) (IsGrid w h Anything)
  unfolding transpose
  transpose-Returns pos_h =
      let (first, ef, (len, _)) = All-get _ matrix 0 g.lines (omega (arith, g.rows)) in
      let (out, run, ok_out) =
        for_each-Returns (IsGrid w h Anything) h
          (λ i n_matrix. for_loop w 0 (λ j. transpose_cell matrix i j) n_matrix)
          (replicate w (replicate h zero_d))
          (λ i acc hi ga.
            for_each-Returns (IsGrid w h Anything) w (λ j. transpose_cell matrix i j) acc
              (λ j acc' hj. transpose_cell-Returns i j acc' hi hj) ga)
          (IsGrid-replicate w h Anything zero_d tt) in
      (out, rw (ef, len, g.rows) run, ok_out)
