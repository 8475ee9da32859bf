-- ===== src/ImageProcessor/Image/Sums.antt =====
-- image.cpp: what the convolution computes, channel by channel, against sums over the matrix.
use high_load_systems.Common.{
  ℕ, ◌+◌, ◌*◌, ◌/◌, ◌^◌, ◌≤◌, ◌<◌, ◌≡◌, ◌⊎◌, refl, ◌∙◌, ap, arith, inl, inr, true, false,
  Bool-cases, List, ok, err, sub_ℕ, for_loop-iterate, iterate, zero, suc,
}
use high_load_systems.ImageProcessor.Floats.{Float, zero_d, one_d}
use high_load_systems.ImageProcessor.Exception.{Run}
use high_load_systems.ImageProcessor.Image.{
  Image, Pixel, cell, no_pixel, normalize, convolve, multiply, source_of, add_scaled,
}
use high_load_systems.ImageProcessor.Image.Shape.{IsGrid, IsValid, cell-Returns}
use high_load_systems.ImageProcessor.Image.Edges.{both_or, reflected, source_of-reflected}
use high_load_systems.ImageProcessor.Image.Multiply.{IsKernel, source_of-lt, multiply-convolve}

abbrev value_or {ℓ} : {A : Type ℓ} → A → Run A → A
value_or other (ok x) = x
value_or other (err e) = other

value_or-ok {ℓ} :
    {A : Type ℓ} (other : A) (r : Run A) (x : A) → r ≡ ok x → r ≡ ok (value_or other r)
value_or-ok other (ok y) x e = refl
value_or-ok other (err u) x e = cc

-- The element at a place of a grid, or `other` outside it.
abbrev pub entry {ℓ} : {A : Type ℓ} → A → List (List A) → ℕ → ℕ → A
entry other grid row col = value_or other (cell grid row col)

cell-entry {ℓ} :
    {A : Type ℓ} {P : A → Type 0} {h w : ℕ} (other : A) (grid : List (List A)) (row col : ℕ)
    → IsGrid h w P grid
    → row < h
    → col < w
    → cell grid row col ≡ ok (entry other grid row col)
cell-entry other grid row col g hr hc =
    let (x, e, _) = cell-Returns grid row col g hr hc in value_or-ok other _ x e

-- A part of the state that each step changes on its own.
iterate-part {ℓ} :
    {S T : Type ℓ} (part : S → T) (n i : ℕ) (f : ℕ → S → S) (g : ℕ → T → T) (s : S)
    → ((j : ℕ) (t : S) → part (f j t) ≡ g j (part t))
    → part (iterate n i f s) ≡ iterate n i g (part s)
iterate-part part zero i f g s h = refl
iterate-part part (suc n) i f g s h = iterate-part part n (suc i) f g (f i s) h ∙ rw (h i s) refl

module _ {D : Type 0} ⦃f : Float D⦄ where
  -- The pixel that the matrix meets with its element (k, l), for its middle at (row, col).
  abbrev pub sample : (img : Image D) (row col mid_row mid_col k l : ℕ) → Pixel D
  sample img row col mid_row mid_col k l =
      let (r, c) =
        both_or (reflected img.height row k mid_row) (reflected img.width col l mid_col)
          (row, col) in
      entry no_pixel img.pixels r c

  -- One row of the matrix: each element times a channel of its pixel, added to the sum.
  abbrev pub add_row :
      (Pixel D → D) → (rows cols : ℕ) → List (List D) → Image D → (row col : ℕ) → ℕ → D → D
  add_row channel rows cols matrix img row col k sum =
      iterate cols 0
        (λ l acc. f.add acc (
          f.mul (entry zero_d matrix k l) (channel (sample img row col (rows / 2) (cols / 2) k l))))
        sum

  -- The sum, over all elements of the matrix, of the element times a channel of its pixel.
  abbrev pub weighted_sum :
      (Pixel D → D) → (rows cols : ℕ) → List (List D) → Image D → (row col : ℕ) → D
  weighted_sum channel rows cols matrix img row col =
      iterate rows 0 (add_row channel rows cols matrix img row col) zero_d

  -- The nearest value between 0 and 1, and 0 for what is not above 0.
  abbrev pub IsClamp : D → D → Type 0
  IsClamp x y =
      ((f.lt zero_d x ≡ false) × (y ≡ zero_d))
      ⊎ (((f.lt zero_d x ≡ true) × (f.lt x one_d ≡ true) × (y ≡ x))
          ⊎ ((f.lt zero_d x ≡ true) × (f.lt x one_d ≡ false) × (y ≡ one_d)))

  normalize-IsClamp : (x : D) → f.lt zero_d one_d ≡ true → IsClamp x (normalize x)
  unfolding normalize
  normalize-IsClamp x order = elim (Bool-cases (f.lt zero_d x)) [
    | inr below ↦ rw (below, order) (inl (refl, refl))
    | inl above ↦ rw above (elim (Bool-cases (f.lt x one_d)) [
      | inl inside ↦ rw inside (inr (inl (refl, refl, refl)))
      | inr past ↦ rw past (inr (inr (refl, refl, refl)))
    ])
  ]

module _ {D : Type 0} ⦃f : Float D⦄ {rows cols : ℕ} {matrix : List (List D)}
    (kernel : IsKernel rows cols matrix) (img : Image D) (row col : ℕ) (v : IsValid img)
    (hr : row < img.height) (hc : col < img.width) (fits_h : img.height + rows / 2 ≤ 2 ^ 31)
    (fits_w : img.width + cols / 2 ≤ 2 ^ 31) where
  abbrev sums : Pixel D
  sums =
      iterate rows 0
        (λ k sum.
          iterate cols 0
            (λ l acc.
              add_scaled acc (entry zero_d matrix k l)
                (sample img row col (rows / 2) (cols / 2) k l))
            sum)
        no_pixel

  sample-cell :
      (k l : ℕ)
      → k < rows
      → l < cols
      → cell img.pixels
          (source_of img.height img.width row col (sub_ℕ k (rows / 2)) (sub_ℕ l (cols / 2))).0
          (source_of img.height img.width row col (sub_ℕ k (rows / 2)) (sub_ℕ l (cols / 2))).1
        ≡ ok (sample img row col (rows / 2) (cols / 2) k l)
  sample-cell k l lk ll =
      let wf : img.width < 2 ^ 31 = omega (arith, v.width_fits) in
      let (r, c) =
        source_of-lt img.height img.width row col (sub_ℕ k (rows / 2)) (sub_ℕ l (cols / 2))
          v.height_fits wf hr hc in
      let e =
        source_of-reflected img.height img.width row col k l (rows / 2) (cols / 2) v.height_fits wf
          hr hc (omega arith) (omega arith) (omega (arith, kernel.odd_rows))
          (omega (arith, kernel.odd_cols)) in
      rw e (cell-entry no_pixel img.pixels _ _ v.picture (rw e at r) (rw e at c))

  convolve-sums : convolve matrix (rows / 2) (cols / 2) img row col ≡ ok sums
  unfolding convolve
  convolve-sums =
      let er : 2 * (rows / 2) + 1 ≡ rows = omega (arith, kernel.odd_rows) in
      let ec : 2 * (cols / 2) + 1 ≡ cols = omega (arith, kernel.odd_cols) in
      rw (er, ec)
        (for_loop-iterate rows 0 _ _ no_pixel (λ k sum lk.
          for_loop-iterate cols 0 _ _ sum (λ l acc ll.
            rw
              (
                cell-entry zero_d matrix k l kernel.shape (omega arith) (omega arith),
                sample-cell k l (omega arith) (omega arith),
              )
              refl)))

  sums-channel :
      (channel : Pixel D → D)
      → channel no_pixel ≡ zero_d
      → ((acc px : Pixel D) (c : D)
          → channel (add_scaled acc c px) ≡ f.add (channel acc) (f.mul c (channel px)))
      → channel sums ≡ weighted_sum channel rows cols matrix img row col
  sums-channel channel start step =
      let next = add_row channel rows cols matrix img row col in
      iterate-part channel rows 0 _ next no_pixel
        (λ k sum. iterate-part channel cols 0 _ _ sum (λ l acc. step acc _ _))
      ∙ ap (iterate rows 0 next) start

  -- If 0 is less than 1, the picture and half of the matrix together are no larger than an int
  -- can count, and the convolution of a valid image with a matrix of odd sizes succeeds, then
  -- each channel of a pixel of the result is the sum over the matrix of its elements times that
  -- channel of the reflected pixel, replaced by 0 where it is not above 0 and by 1 where it is
  -- not below 1.
  pub multiply-cell :
      (out : Image D)
      → f.lt zero_d one_d ≡ true
      → multiply matrix img ≡ ok out
      → (px : Pixel D) × (cell out.pixels row col ≡ ok px)
        × IsClamp (weighted_sum (λ p. p.r) rows cols matrix img row col) px.r
        × IsClamp (weighted_sum (λ p. p.g) rows cols matrix img row col) px.g
        × IsClamp (weighted_sum (λ p. p.b) rows cols matrix img row col) px.b
  unfolding add_scaled
  multiply-cell out order e =
      let (sum, es, got) = multiply-convolve kernel img out row col v e hr hc in
      let same : sum ≡ sums = cc (es, convolve-sums) in
      (
        record { r = normalize sum.r; g = normalize sum.g; b = normalize sum.b },
        got,
        rw (same, sums-channel (λ p. p.r) refl (λ acc px c. refl)) (normalize-IsClamp _ order),
        rw (same, sums-channel (λ p. p.g) refl (λ acc px c. refl)) (normalize-IsClamp _ order),
        rw (same, sums-channel (λ p. p.b) refl (λ acc px c. refl)) (normalize-IsClamp _ order),
      )
