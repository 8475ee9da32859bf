-- ===== src/ImageProcessor/Filter/Crop.antt =====
-- filter.cpp, `Crop::Apply`.
use high_load_systems.Common.{
  ℕ, zero, suc, ◌*◌, ◌%◌, ◌^◌, ◌≤◌, ◌<◌, ◌≡◌, refl, List, [], ◌∷◌, map, arith, min, take, pos, ok,
  ◌∙◌, get_elem?,
}
use high_load_systems.ImageProcessor.Floats.{Float}
use high_load_systems.ImageProcessor.Image.{Image, cell}
use high_load_systems.ImageProcessor.Image.Shape.{IsValid, IsGrid, Anything}
use high_load_systems.ImageProcessor.Filter.{apply_crop}
use high_load_systems.ImageProcessor.Filter.Picture.{take-all}
use high_load_systems.ImageProcessor.Filter.Cropping.{
  padded, cropped, map-take_full, apply_crop-cropped, narrowed-IsImage, shortened-IsImage,
}

get_elem?-take {ℓ} :
    {A : Type ℓ} (n i : ℕ) (xs : List A) → i < n → get_elem? (take n xs) i ≡ get_elem? xs i
get_elem?-take zero i xs h = elim h [ ]
get_elem?-take (suc n) i [] h = refl
get_elem?-take (suc n) zero (x ∷ xs) h = refl
get_elem?-take (suc n) (suc i) (x ∷ xs) h = get_elem?-take n i xs (omega arith)

cell-map-take {ℓ} :
    {A : Type ℓ} (m row col : ℕ) (grid : List (List A))
    → col < m
    → cell (map (take m) grid) row col ≡ cell grid row col
cell-map-take m row col [] h = refl
cell-map-take m zero col (line ∷ grid) h = rw (get_elem?-take m col line h)
cell-map-take m (suc row) col (line ∷ grid) h = cell-map-take m row col grid h

cell-take {ℓ} :
    {A : Type ℓ} (n row col : ℕ) (grid : List (List A))
    → row < n
    → cell (take n grid) row col ≡ cell grid row col
cell-take n row col grid h = rw (get_elem?-take n row grid h)

module _ {D : Type 0} ⦃f : Float D⦄ (width height : ℕ) (img out : Image D) (v : IsValid img)
    (wf : width < 2 ^ 15) (hf : height < 2 ^ 15)
    (run : apply_crop (pos width) (pos height) img ≡ ok out) where
  is_cropped : out ≡ cropped width height img
  is_cropped = cc (apply_crop-cropped width height img v (omega arith) (omega arith))

  -- If a crop of a valid image with arguments from 0 below 2^15 succeeds, the picture is a grid
  -- of the smaller of each size, these are the sizes in the header, and each pixel is the one
  -- that stood there.
  pub apply_crop-cell :
      (out.height ≡ min height img.height)
      × (out.width ≡ min width img.width)
      × IsGrid (min height img.height) (min width img.width) Anything out.pixels
      × ((row col : ℕ)
          → row < height
          → col < width
          → cell out.pixels row col ≡ cell img.pixels row col)
  apply_crop-cell = rw is_cropped (
    refl,
    refl,
    (narrowed-IsImage width (shortened-IsImage height v)).picture,
    λ row col hr hc.
        cell-map-take width row col (take height img.pixels) hc
        ∙ cell-take height row col img.pixels hr,
  )

  -- If a crop of a valid image to sizes below 2^15 and not above its own succeeds, the data size
  -- in the header is that of the picture.
  image_size-apply_crop :
      height ≤ img.height
      → width ≤ img.width
      → out.image_size ≡ out.height * padded out.width % 2 ^ 32
  image_size-apply_crop hh hw = rw is_cropped (
      let eh : min height img.height ≡ height = omega arith in
      let ew : min width img.width ≡ width = omega arith in rw (eh, ew))

  -- If a crop of a valid image to sizes below 2^15 and not below its own succeeds, the picture
  -- and its sizes stay, but the header states the data size of the arguments.
  pub apply_crop-larger :
      img.height ≤ height
      → img.width ≤ width
      → (out.pixels ≡ img.pixels)
        × (out.height ≡ img.height)
        × (out.width ≡ img.width)
        × (out.image_size ≡ height * padded width % 2 ^ 32)
  apply_crop-larger hh hw = rw is_cropped (
    rw (take-all height img.pixels (omega (arith, v.picture.rows)))
        (map-take_full width img.width img.pixels hw v.picture.lines),
    omega arith,
    omega arith,
    refl,
  )
