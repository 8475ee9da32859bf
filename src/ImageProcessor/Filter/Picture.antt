-- ===== src/ImageProcessor/Filter/Picture.antt =====
-- What a filter may rely on and has to keep, and the two ways in which a run may end.
use high_load_systems.Common.{
  ℕ, zero, suc, ◌-◌, ◌≤◌, ◌≡◌, refl, ◌≢◌, ◌⊎◌, inl, inr, List, [], ◌∷◌, ◌++◌, map, arith, min,
  length, length-append, length-take, length-replicate, length-map, take, replicate, pos, ap,
  append-nil, ok, err, ◌>>=◌, All, All-append, Returns,
}
use high_load_systems.ImageProcessor.Exception.{Run, Error, out_of_bounds}
use high_load_systems.ImageProcessor.Image.Shape.{IsGrid, All-replicate}
use high_load_systems.ImageProcessor.Filter.{resize}

-- The run returns a value that satisfies `P`, or throws, and never indexes past a vector.
abbrev pub Safe {ℓ} : {A : Type ℓ} → Run A → (A → Type 0) → Type ℓ
Safe r P = Returns r P ⊎ ((e : Error) × (r ≡ err e) × (e ≢ out_of_bounds))

pub Safe-bind {ℓ ℓ'} :
    {A : Type ℓ} {B : Type ℓ'} (P : A → Type 0) (Q : B → Type 0) (m : Run A) (k : A → Run B)
    → Safe m P
    → ((a : A) → m ≡ ok a → P a → Safe (k a) Q)
    → Safe (m >>= k) Q
Safe-bind P Q m k (inl (a, e, p)) h = elim (h a e p) [
  | inl (b, eb, q) ↦ inl (b, rw e eb, q)
  | inr (u, eu, nu) ↦ inr (u, rw e eu, nu)
]
Safe-bind P Q m k (inr (u, e, nu)) h = inr (u, rw e, nu)

module _ {ℓ} {A : Type ℓ} (P : A → Type 0) where
  All-take : (n : ℕ) (xs : List A) → All P xs → All P (take n xs)
  All-take zero xs h = tt
  All-take (suc n) [] h = tt
  All-take (suc n) (x ∷ xs) h = (h.0, All-take n xs h.1)

  -- Resizing to `n` elements succeeds, and keeps what all elements satisfy.
  pub resize-Returns :
      (n : ℕ) (x : A) (xs : List A)
      → P x
      → All P xs
      → Returns (resize (pos n) x xs) λ ys. (length ys ≡ n) × All P ys
  unfolding resize
  resize-Returns n x xs px pxs = (
    take n xs ++ replicate (n - length xs) x,
    refl,
    (
      omega (
        arith,
        length-append (take n xs) (replicate (n - length xs) x),
        length-take n xs,
        length-replicate (n - length xs) x,
      ),
      All-append P _ _ (All-take n xs pxs) (All-replicate P _ x px),
    ),
  )

-- A shorter vector is a prefix.
pub resize-take {ℓ} :
    {A : Type ℓ} (n : ℕ) (x : A) (xs : List A)
    → n ≤ length xs
    → resize (pos n) x xs ≡ ok (take n xs)
unfolding resize
resize-take n x xs h =
    let none_left : n - length xs ≡ 0 = omega arith in rw none_left (ap ok (append-nil (take n xs)))

pub All-map-map {ℓ} :
    {A : Type ℓ} (P Q : A → Type 0) (g : A → A) (xs : List A)
    → ((x : A) → P x → Q (g x))
    → All P xs
    → All Q (map g xs)
All-map-map P Q g [] h a = tt
All-map-map P Q g (x ∷ xs) h a = (h x a.0, All-map-map P Q g xs h a.1)

-- Rewriting each cell keeps the shape.
pub IsGrid-map {ℓ} :
    {A : Type ℓ} {h w : ℕ} (P Q : A → Type 0) (g : A → A) (grid : List (List A))
    → ((x : A) → P x → Q (g x))
    → IsGrid h w P grid
    → IsGrid h w Q (map (map g) grid)
IsGrid-map P Q g grid step s = record {
  rows = omega (arith, length-map grid (map g), s.rows);
  lines =
      All-map-map _ _ (map g) grid
        (λ line p. (omega (arith, length-map line g, p.0), All-map-map P Q g line step p.1))
        s.lines;
}

module _ {ℓ} {A : Type ℓ} {h w : ℕ} (P : A → Type 0) where
  -- The first rows of a grid.
  pub IsGrid-take :
      (n : ℕ) (grid : List (List A)) → IsGrid h w P grid → IsGrid (min n h) w P (take n grid)
  IsGrid-take n grid s = record {
    rows = omega (arith, length-take n grid, s.rows);
    lines = All-take _ n grid s.lines;
  }

  -- The first cells of each row.
  pub IsGrid-map-take :
      (m : ℕ) (grid : List (List A)) → IsGrid h w P grid → IsGrid h (min m w) P (map (take m) grid)
  IsGrid-map-take m grid s = record {
    rows = omega (arith, length-map grid (take m), s.rows);
    lines =
        All-map-map _ _ (take m) grid
          (λ line p. (omega (arith, length-take m line, p.0), All-take P m line p.1)) s.lines;
  }

pub take-all {ℓ} : {A : Type ℓ} (n : ℕ) (xs : List A) → length xs ≤ n → take n xs ≡ xs
take-all zero [] h = refl
take-all zero (x ∷ xs) h = absurd (omega arith)
take-all (suc n) [] h = refl
take-all (suc n) (x ∷ xs) h = ap (λ ys. x ∷ ys) (take-all n xs (omega arith))
