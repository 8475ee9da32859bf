-- ===== src/ImageProcessor/Image/Shape.antt =====
-- image.h: when the vectors of an image have the sizes that its header states.
use high_load_systems.Common.{
  ℕ, zero, suc, ◌+◌, ◌*◌, ◌^◌, ◌≤◌, ◌<◌, ◌≡◌, refl, List, [], ◌∷◌, arith, some, length, get_elem?,
  All, Returns, replicate,
}
use high_load_systems.ImageProcessor.Floats.{Float, InUnit}
use high_load_systems.ImageProcessor.Image.{Pixel, Image, cell}

-- A grid of `h` rows of `w` cells, where each cell satisfies `P`.
pub record IsGrid {ℓ} {A : Type ℓ} (h w : ℕ) (P : A → Type 0) (grid : List (List A)) : Type 0 where
  pub rows : length grid ≡ h
  pub lines : All (λ line. (length line ≡ w) × All P line) grid

abbrev pub Anything {ℓ} : {A : Type ℓ} → A → Type 0
Anything x = Unit

-- A pixel whose channels lie between 0 and 1.
abbrev pub PixelInUnit : {D : Type 0} ⦃f : Float D⦄ → Pixel D → Type 0
PixelInUnit p = InUnit p.r × InUnit p.g × InUnit p.b

-- A row of the file is short enough for the arithmetic of uint32_t.
abbrev pub RowFits : ℕ → Type 0
RowFits width = width * 3 + 3 < 2 ^ 32

-- The offset of every byte of a row fits an int.
abbrev pub OffsetsFit : ℕ → Type 0
OffsetsFit width = width * 3 ≤ 2 ^ 31

-- Both grids of the image have the size of its header, which the code can count, and the pixels
-- of the picture satisfy `P`.
pub record IsImage {D : Type 0} (P : Pixel D → Type 0) (img : Image D) : Type 0 where
  pub picture : IsGrid img.height img.width P img.pixels
  pub scratch : IsGrid img.height img.width Anything img.buffer
  pub height_fits : img.height < 2 ^ 31
  pub width_fits : RowFits img.width

abbrev pub IsValid : {D : Type 0} → Image D → Type 0
IsValid img = IsImage Anything img

-- A valid image whose channels lie between 0 and 1.
abbrev pub IsPicture : {D : Type 0} ⦃f : Float D⦄ → Image D → Type 0
IsPicture img = IsImage PixelInUnit img

pub All-get {ℓ} :
    {A : Type ℓ} (P : A → Type 0) (xs : List A) (i : ℕ)
    → All P xs
    → i < length xs
    → (x : A) × (get_elem? xs i ≡ some x) × P x
All-get P [] i a h = elim h [ ]
All-get P (x ∷ xs) zero a h = (x, refl, a.0)
All-get P (x ∷ xs) (suc i) a h = All-get P xs i a.1 (omega arith)

pub All-map {ℓ} :
    {A : Type ℓ} (P Q : A → Type 0) (xs : List A) → ((x : A) → P x → Q x) → All P xs → All Q xs
All-map P Q [] h a = tt
All-map P Q (x ∷ xs) h a = (h x a.0, All-map P Q xs h a.1)

pub All-replicate {ℓ} : {A : Type ℓ} (P : A → Type 0) (n : ℕ) (x : A) → P x → All P (replicate n x)
All-replicate P zero x p = tt
All-replicate P (suc n) x p = (p, All-replicate P n x p)

pub All-Anything {ℓ} : {A : Type ℓ} (xs : List A) → All Anything xs
All-Anything [] = tt
All-Anything (x ∷ xs) = (tt, All-Anything xs)

-- Forgets what the cells satisfy.
pub IsGrid-forget {ℓ} :
    {A : Type ℓ} {h w : ℕ} {P : A → Type 0} {grid : List (List A)}
    → IsGrid h w P grid
    → IsGrid h w Anything grid
IsGrid-forget {grid} g = record {
  rows = g.rows;
  lines = All-map _ _ grid (λ line p. (p.0, All-Anything line)) g.lines;
}

pub IsImage-forget :
    {D : Type 0} {P : Pixel D → Type 0} {img : Image D} → IsImage P img → IsValid img
IsImage-forget v = record {
  picture = IsGrid-forget v.picture;
  scratch = v.scratch;
  height_fits = v.height_fits;
  width_fits = v.width_fits;
}

-- An index inside the shape is read without a fault.
pub cell-Returns {ℓ} :
    {A : Type ℓ} {h w : ℕ} {P : A → Type 0} (grid : List (List A)) (row col : ℕ)
    → IsGrid h w P grid
    → row < h
    → col < w
    → Returns (cell grid row col) P
cell-Returns {P} grid row col g hr hc =
    let (line, el, (len, cells)) = All-get _ grid row g.lines (omega (arith, g.rows)) in
    let (x, ex, px) = All-get P line col cells (omega (arith, len)) in
    (x, ground (arith, el, ex), px)
