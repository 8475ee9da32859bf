-- ===== src/ImageProcessor/Image/Narrows.antt =====
-- image.cpp: runs that leave an image no wider than it was.
use high_load_systems.Common.{
  ℕ, ◌≤◌, ◌≡◌, refl, Bool, true, false, if◌then◌else◌, List, ok, err, ◌>>=◌, at, pos_part, length,
  ◌/◌,
}
use high_load_systems.ImageProcessor.Floats.{Float}
use high_load_systems.ImageProcessor.Exception.{Run, Error, out_of_bounds}
use high_load_systems.ImageProcessor.Image.{Image, multiply, update_grid, multiply_pixel, to_int32}

-- If the run returns an image, its width is at most `n`.
unfoldable pub Narrows : {D : Type 0} → ℕ → Run (Image D) → Type 0
Narrows n (ok out) = out.width ≤ n
Narrows n (err e) = Unit

pub Narrows-err : (D : Type 0) (n : ℕ) (e : Error) → Narrows {D = D} n (err e)
unfolding Narrows
Narrows-err D n e = tt

module _ {D : Type 0} (n : ℕ) where
  pub Narrows-ok : (img : Image D) → img.width ≤ n → Narrows n (ok img)
  unfolding Narrows
  Narrows-ok img w = w

  pub Narrows-bind :
      {A : Type 0} (r : Run A) (next : A → Run (Image D))
      → ((x : A) → Narrows n (next x))
      → Narrows n (r >>= next)
  unfolding Narrows
  Narrows-bind (ok x) next h = h x
  Narrows-bind (err e) next h = tt

  pub Narrows-then :
      (r : Run (Image D)) (next : Image D → Run (Image D))
      → Narrows n r
      → ((img : Image D) → img.width ≤ n → Narrows n (next img))
      → Narrows n (r >>= next)
  unfolding Narrows
  Narrows-then (ok img) next w h = h img w
  Narrows-then (err e) next w h = tt

  pub Narrows-if :
      (b : Bool) (x y : Run (Image D))
      → (b ≡ true → Narrows n x)
      → (b ≡ false → Narrows n y)
      → Narrows n (if b then x else y)
  Narrows-if true x y hx hy = hx refl
  Narrows-if false x y hx hy = hy refl

pub Narrows-returned :
    {D : Type 0} (n : ℕ) (r : Run (Image D)) (out : Image D)
    → Narrows n r
    → r ≡ ok out
    → out.width ≤ n
unfolding Narrows
Narrows-returned n r out h e = rw e at h

pub multiply-Narrows :
    {D : Type 0} ⦃f : Float D⦄ (n : ℕ) (matrix : List (List D)) (img : Image D)
    → img.width ≤ n
    → Narrows n (multiply matrix img)
unfolding multiply
multiply-Narrows n matrix img w = Narrows-bind n (at out_of_bounds matrix 0) _ (λ first.
    Narrows-bind n
      (update_grid (pos_part (to_int32 img.height)) (pos_part (to_int32 img.width))
        (λ row col _. multiply_pixel matrix (length matrix / 2) (length first / 2) img row col)
        img.buffer)
      _ (λ result. Narrows-ok n _ w))
