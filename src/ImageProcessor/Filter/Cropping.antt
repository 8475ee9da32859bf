-- ===== src/ImageProcessor/Filter/Cropping.antt =====
-- filter.cpp, `Crop::Apply`: that it stays inside the vectors, and the image that it leaves.
use high_load_systems.Common.{
  ℕ, ◌+◌, ◌*◌, ◌/◌, ◌%◌, ◌^◌, ◌≤◌, ◌<◌, ◌≡◌, refl, List, [], ◌∷◌, map, arith, min, length, take, ℤ,
  pos, negsuc, ◌+ℤ◌, ◌*ℤ◌, ok, IsInt16, Returns, All, traverse,
}
use high_load_systems.ImageProcessor.Floats.{Float}
use high_load_systems.ImageProcessor.Image.{Image, Pixel, no_pixel, to_uint32}
use high_load_systems.ImageProcessor.Image.Shape.{Anything, IsImage, IsValid, IsImage-forget}
use high_load_systems.ImageProcessor.Filter.{resize, quot_ℤ, crop_height, crop_width, apply_crop}
use high_load_systems.ImageProcessor.Filter.Picture.{
  resize-take, take-all, IsGrid-take, IsGrid-map-take,
}

-- The bytes of a row of 24-bit pixels in the file.
abbrev pub padded : ℕ → ℕ
padded width = (width * 3 + 3) / 4 * 4

-- The first rows of an image, and the first cells of each row.
abbrev pub shortened : {D : Type 0} → ℕ → Image D → Image D
shortened height img = record img {
  pixels = take height img.pixels;
  buffer = take height img.buffer;
  info = record img.info { height = min height img.height };
}

abbrev pub narrowed : {D : Type 0} → ℕ → Image D → Image D
narrowed width img = record img {
  pixels = map (take width) img.pixels;
  buffer = map (take width) img.buffer;
  info = record img.info { width = min width img.width };
}

-- What `Crop::Apply` leaves of an image for arguments that are not negative.
abbrev pub cropped : {D : Type 0} → ℕ → ℕ → Image D → Image D
cropped width height img =
    let out = narrowed width (shortened height img) in
    record out { info = record out.info { image_size = height * padded width % 2 ^ 32 } }

module _ {D : Type 0} {P : Pixel D → Type 0} (n : ℕ) {img : Image D} (v : IsImage P img) where
  pub shortened-IsImage : IsImage P (shortened n img)
  shortened-IsImage = record {
    picture = IsGrid-take P n img.pixels v.picture;
    scratch = IsGrid-take Anything n img.buffer v.scratch;
    height_fits = omega (arith, v.height_fits);
    width_fits = v.width_fits;
  }

  pub narrowed-IsImage : IsImage P (narrowed n img)
  narrowed-IsImage = record {
    picture = IsGrid-map-take P n img.pixels v.picture;
    scratch = IsGrid-map-take Anything n img.buffer v.scratch;
    height_fits = v.height_fits;
    width_fits = omega (arith, v.width_fits);
  }

pub map-take_full {ℓ} :
    {A : Type ℓ} (n w : ℕ) (grid : List (List A))
    → w ≤ n
    → All (λ line. (length line ≡ w) × All Anything line) grid
    → map (take n) grid ≡ grid
map-take_full n w [] h a = refl
map-take_full n w (line ∷ grid) h a =
    cc (take-all n line (omega (arith, a.0.0)), map-take_full n w grid h a.1)

module _ {D : Type 0} ⦃f : Float D⦄ where
  resize_lines :
      (n w : ℕ) (grid : List (List (Pixel D)))
      → n ≤ w
      → All (λ line. (length line ≡ w) × All Anything line) grid
      → traverse (λ _ line. resize (pos n) no_pixel line) grid ≡ ok (map (take n) grid)
  unfolding traverse
  resize_lines n w [] h a = refl
  resize_lines n w (line ∷ grid) h a =
      rw (resize-take n no_pixel line (omega (arith, a.0.0)), resize_lines n w grid h a.1)

  module _ (img : Image D) (v : IsValid img) where
    crop_height-pos : (n : ℕ) → n < 2 ^ 31 → crop_height (pos n) img ≡ ok (shortened n img)
    unfolding crop_height
    crop_height-pos n fits = ground (
      arith,
      v.picture.rows,
      v.scratch.rows,
      resize-take n [] img.pixels,
      resize-take n [] img.buffer,
      take-all n img.pixels,
      take-all n img.buffer,
    )

    crop_width-pos : (n : ℕ) → n < 2 ^ 31 → crop_width (pos n) img ≡ ok (narrowed n img)
    unfolding crop_width
    crop_width-pos n fits = ground (
      arith,
      resize_lines n img.width img.pixels,
      resize_lines n img.width img.buffer,
      map-take_full n img.width img.pixels,
      map-take_full n img.width img.buffer,
      v.picture.lines,
      v.scratch.lines,
    )

    -- A negative argument, read as unsigned, is past every height and width.
    crop_height-negsuc : (n : ℕ) → n < 2 ^ 31 → crop_height (negsuc n) img ≡ ok img
    unfolding crop_height
    crop_height-negsuc n fits = ground (arith, v.height_fits)

    crop_width-negsuc : (n : ℕ) → n < 2 ^ 31 → crop_width (negsuc n) img ≡ ok img
    unfolding crop_width
    crop_width-negsuc n fits = ground (arith, v.width_fits)

pos-*ℤ : (a b : ℕ) → pos a *ℤ pos b ≡ pos (a * b)
unfolding ◌*ℤ◌
pos-*ℤ a b = ground arith

pos-+ℤ : (a b : ℕ) → pos a +ℤ pos b ≡ pos (a + b)
unfolding ◌+ℤ◌
pos-+ℤ a b = ground arith

module _ {D : Type 0} ⦃f : Float D⦄ where
  -- For arguments that are not negative, `Crop` keeps the upper left corner of the picture, as many
  -- rows and columns as there are of those asked for, and stores the size of the data that the
  -- arguments, not the picture, would need.
  pub apply_crop-cropped :
      (width height : ℕ) (img : Image D)
      → IsValid img
      → width < 2 ^ 31
      → height < 2 ^ 31
      → apply_crop (pos width) (pos height) img ≡ ok (cropped width height img)
  unfolding apply_crop
  apply_crop-cropped width height img v wf hf = rw (
    crop_height-pos img v height hf,
    crop_width-pos (shortened height img) (shortened-IsImage height v) width wf,
    pos-*ℤ width 3,
    pos-+ℤ (width * 3) 3,
    pos-*ℤ ((width * 3 + 3) / 4) 4,
    pos-*ℤ height (padded width),
  )

module _ {D : Type 0} ⦃f : Float D⦄ {P : Pixel D → Type 0} where
  crop_height-Returns :
      (height : ℤ) (img : Image D)
      → IsInt16 height
      → IsImage P img
      → Returns (crop_height height img) (IsImage P)
  crop_height-Returns (pos n) img h v = (
    shortened n img,
    crop_height-pos img (IsImage-forget v) n (omega arith),
    shortened-IsImage n v,
  )
  crop_height-Returns (negsuc n) img h v =
      (img, crop_height-negsuc img (IsImage-forget v) n (omega arith), v)

  crop_width-Returns :
      (width : ℤ) (img : Image D)
      → IsInt16 width
      → IsImage P img
      → Returns (crop_width width img) (IsImage P)
  crop_width-Returns (pos n) img h v =
      (narrowed n img, crop_width-pos img (IsImage-forget v) n (omega arith), narrowed-IsImage n v)
  crop_width-Returns (negsuc n) img h v =
      (img, crop_width-negsuc img (IsImage-forget v) n (omega arith), v)

  -- `Crop` returns an image of the right shape for all arguments that an int16_t can hold.
  pub apply_crop-Returns :
      (width height : ℤ) (img : Image D)
      → IsInt16 width
      → IsInt16 height
      → IsImage P img
      → Returns (apply_crop width height img) (IsImage P)
  unfolding apply_crop
  apply_crop-Returns width height img w h v =
      let (a, ea, va) = crop_height-Returns height img h v in
      let (b, eb, vb) = crop_width-Returns width a w va in
      (
        record b {
          info = record b.info {
            image_size = to_uint32 (height *ℤ (quot_ℤ (width *ℤ pos 3 +ℤ pos 3) 4 *ℤ pos 4));
          };
        },
        rw (ea, eb),
        record {
          picture = vb.picture;
          scratch = vb.scratch;
          height_fits = vb.height_fits;
          width_fits = vb.width_fits;
        },
      )
