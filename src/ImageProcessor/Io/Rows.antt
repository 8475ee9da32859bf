-- ===== src/ImageProcessor/Io/Rows.antt =====
-- io.cpp: one row of pixels as three bytes each, and back.
use native.Mathlib.Nat.{add-zero}
use high_load_systems.Common.{
  ◌%◌, ◌^◌, ◌<◌, ◌∙◌, lt→ltb, update_each-agree, for_loop-agree, ℕ, zero, suc, ◌+◌, ◌*◌, ◌≡◌, refl,
  List, [], ◌∷◌, ◌++◌, map, some, Option-cases, inl, inr, arith, Bytes, length, get_elem?, ok,
  ◌>>=◌, at, update_each, update_each-traverse, traverse, for_loop, Result-cases,
}
use high_load_systems.ImageProcessor.Floats.{Float, get_byte}
use high_load_systems.ImageProcessor.Exception.{Run, out_of_bounds}
use high_load_systems.ImageProcessor.Image.{Pixel, pixel_of_bytes}
use high_load_systems.ImageProcessor.Image.Shape.{OffsetsFit}
use high_load_systems.ImageProcessor.Io.{read_buffer, store, index_at, pixel_at, write_column}

pub index_at_lem : (col k : ℕ) → col * 3 + k < 2 ^ 31 → index_at col k ≡ col * 3 + k
index_at_lem col k h =
    let low : (col * 3 + k) % 2 ^ 32 ≡ col * 3 + k = omega arith in
    rw (index_at, low, lt→ltb (col * 3 + k) (2 ^ 31) h) refl

module _ {D : Type 0} ⦃f : Float D⦄ where
  -- The bytes of a row of the picture, without its padding.
  pub row_bytes : List (Pixel D) → Bytes
  row_bytes [] = []
  row_bytes (px ∷ row) = get_byte px.b ∷ get_byte px.g ∷ get_byte px.r ∷ row_bytes row

  -- A pixel as a file can hold it.
  unfoldable pub quantised : Pixel D → Pixel D
  quantised px = pixel_of_bytes (get_byte px.r) (get_byte px.g) (get_byte px.b)

  pub length-row_bytes : (row : List (Pixel D)) → length (row_bytes row) ≡ length row * 3
  unfolding row_bytes
  length-row_bytes [] = refl
  length-row_bytes (px ∷ row) = omega (arith, length-row_bytes row)

  -- The same as `pixel_at` with numbers that do not wrap.
  pixel_in : Bytes → ℕ → Run (Pixel D)
  pixel_in buffer col = do
    blue ← at out_of_bounds buffer (col * 3)
    green ← at out_of_bounds buffer (col * 3 + 1)
    red ← at out_of_bounds buffer (col * 3 + 2)
    ok (pixel_of_bytes red green blue)

  pixel_at-pixel_in :
      (buffer : Bytes) (col : ℕ) → col * 3 + 2 < 2 ^ 31 → pixel_at buffer col ≡ pixel_in buffer col
  unfolding pixel_at pixel_in
  pixel_at-pixel_in buffer col h = rw (
    index_at_lem col 0 (omega arith),
    index_at_lem col 1 (omega arith),
    index_at_lem col 2 (omega arith),
    add-zero,
  )

  -- Three bytes further, every column moves up by one.
  pixel_in-suc :
      (x y z : ℕ) (buffer : Bytes) (col : ℕ)
      → pixel_in (x ∷ y ∷ z ∷ buffer) (suc col) ≡ pixel_in buffer col
  unfolding pixel_in
  pixel_in-suc x y z buffer col =
      let e : suc col * 3 ≡ suc (suc (suc (col * 3))) = omega arith in
      let e1 : suc col * 3 + 1 ≡ suc (suc (suc (col * 3 + 1))) = omega arith in
      let e2 : suc col * 3 + 2 ≡ suc (suc (suc (col * 3 + 2))) = omega arith in rw (e1, e2, e)

  pixel_in-shift :
      (x y z : ℕ) (buffer : Bytes)
      → ◌≡◌ {A = ℕ → Pixel D → Run (Pixel D)}
          (λ col _. pixel_in (x ∷ y ∷ z ∷ buffer) (suc col))
          (λ col _. pixel_in buffer col)
  pixel_in-shift x y z buffer = λ i col _. pixel_in-suc x y z buffer col i

  pixel_in-zero :
      (x y z : ℕ) (buffer : Bytes) → pixel_in (x ∷ y ∷ z ∷ buffer) 0 ≡ ok (pixel_of_bytes z y x)
  unfolding pixel_in
  pixel_in-zero x y z buffer = refl

  traverse-pixel_in :
      (row line : List (Pixel D)) (tail : Bytes)
      → length line ≡ length row
      → traverse (λ col _. pixel_in (row_bytes row ++ tail) col) line ≡ ok (map quantised row)
  unfolding traverse row_bytes quantised
  traverse-pixel_in [] [] tail len = refl
  traverse-pixel_in [] (x ∷ line) tail len = absurd (omega arith)
  traverse-pixel_in (px ∷ row) [] tail len = absurd (omega arith)
  traverse-pixel_in (px ∷ row) (x ∷ line) tail len =
      let b = get_byte px.b in
      let g = get_byte px.g in
      let r = get_byte px.r in
      rw (
        pixel_in-zero b g r (row_bytes row ++ tail),
        pixel_in-shift b g r (row_bytes row ++ tail),
        traverse-pixel_in row line tail (omega arith),
      )

  -- A row of the file is read back as the pixels that a file can hold.
  pub read_row :
      (row line : List (Pixel D)) (tail : Bytes) (width : ℕ)
      → length row ≡ width
      → length line ≡ width
      → OffsetsFit width
      → update_each out_of_bounds width 0 (λ col _. pixel_at (row_bytes row ++ tail) col) line
        ≡ ok (map quantised row)
  read_row row line tail width lr ll fits =
      update_each-agree out_of_bounds width 0 (λ col _. pixel_at (row_bytes row ++ tail) col)
        (λ col _. pixel_in (row_bytes row ++ tail) col) line
        (λ col _ lt. pixel_at-pixel_in (row_bytes row ++ tail) col (omega arith))
      ∙ rw
          (
            ← ll,
            update_each-traverse out_of_bounds (λ col _. pixel_in (row_bytes row ++ tail) col) line,
          )
          (traverse-pixel_in row line tail (omega arith))

-- A buffer that the stream can fill takes the stream's first bytes.
pub read_buffer-append :
    (buffer bytes rest : Bytes)
    → length buffer ≡ length bytes
    → read_buffer buffer (bytes ++ rest) ≡ (bytes, rest)
unfolding read_buffer
read_buffer-append [] [] rest h = refl
read_buffer-append [] (b ∷ bytes) rest h = absurd (omega arith)
read_buffer-append (x ∷ buffer) [] rest h = absurd (omega arith)
read_buffer-append (x ∷ buffer) (b ∷ bytes) rest h =
    rw (read_buffer-append buffer bytes rest (omega arith))

-- `store` past three bytes that it does not touch.
store-suc :
    (a b c : ℕ) (buffer : Bytes) (i v : ℕ)
    → store (a ∷ b ∷ c ∷ buffer) (suc (suc (suc i))) v
      ≡ (store buffer i v >>= λ out. ok (a ∷ b ∷ c ∷ out))
store-suc a b c buffer i v = elim (Option-cases (get_elem? buffer i)) [
  | inl e ↦ rw e
  | inr (x, e) ↦ rw e
]

module _ {D : Type 0} ⦃f : Float D⦄ where
  -- The bytes of one pixel, stored from an index on.
  store_pixel : Bytes → ℕ → Pixel D → Run Bytes
  store_pixel buffer i px = do
    buffer ← store buffer i (get_byte px.b)
    buffer ← store buffer (i + 1) (get_byte px.g)
    store buffer (i + 2) (get_byte px.r)

  store_pixel-suc :
      (a b c : ℕ) (buffer : Bytes) (i : ℕ) (px : Pixel D)
      → store_pixel (a ∷ b ∷ c ∷ buffer) (suc (suc (suc i))) px
        ≡ (store_pixel buffer i px >>= λ out. ok (a ∷ b ∷ c ∷ out))
  unfolding store_pixel
  store_pixel-suc a b c buffer i px =
      let e1 : suc (suc (suc i)) + 1 ≡ suc (suc (suc (i + 1))) = omega arith in
      let e2 : suc (suc (suc i)) + 2 ≡ suc (suc (suc (i + 2))) = omega arith in
      rw (e1, e2, store-suc a b c buffer i (get_byte px.b))
        (elim (Result-cases (store buffer i (get_byte px.b))) [
          | inr (u, eu) ↦ rw eu
          | inl (one, e) ↦
              rw (e, store-suc a b c one (i + 1) (get_byte px.g))
                (elim (Result-cases (store one (i + 1) (get_byte px.g))) [
                  | inr (u, eu) ↦ rw eu
                  | inl (two, e') ↦ rw (e', store-suc a b c two (i + 2) (get_byte px.r))
                ])
        ])

  -- The inner loop of `WritePixels`, over one row.
  abbrev column : List (Pixel D) → ℕ → Bytes → Run Bytes
  column row col buffer = do px ← at out_of_bounds row col; store_pixel buffer (col * 3) px

  column-suc :
      (p : Pixel D) (row : List (Pixel D)) (a b c : ℕ) (buffer : Bytes) (i : ℕ)
      → column (p ∷ row) (suc i) (a ∷ b ∷ c ∷ buffer)
        ≡ (column row i buffer >>= λ out. ok (a ∷ b ∷ c ∷ out))
  column-suc p row a b c buffer i =
      let e : suc i * 3 ≡ suc (suc (suc (i * 3))) = omega arith in
      elim (Option-cases (get_elem? row i)) [
        | inl none_left ↦ rw none_left
        | inr (px, found) ↦ rw (found, e) (store_pixel-suc a b c buffer (i * 3) px)
      ]

  columns-suc :
      (n i : ℕ) (p : Pixel D) (row : List (Pixel D)) (a b c : ℕ) (buffer : Bytes)
      → for_loop n (suc i) (column (p ∷ row)) (a ∷ b ∷ c ∷ buffer)
        ≡ (for_loop n i (column row) buffer >>= λ out. ok (a ∷ b ∷ c ∷ out))
  unfolding for_loop
  columns-suc zero i p row a b c buffer = refl
  columns-suc (suc n) i p row a b c buffer =
      rw (column-suc p row a b c buffer i) (elim (Result-cases (column row i buffer)) [
        | inl (out, e) ↦ rw e (columns-suc n (suc i) p row a b c out)
        | inr (u, e) ↦ rw e
      ])

  column-zero :
      (p : Pixel D) (row : List (Pixel D)) (a b c : ℕ) (buffer : Bytes)
      → column (p ∷ row) 0 (a ∷ b ∷ c ∷ buffer)
        ≡ ok (get_byte p.b ∷ get_byte p.g ∷ get_byte p.r ∷ buffer)
  unfolding store_pixel
  column-zero p row a b c buffer = refl

  -- The loop over a row replaces the bytes in front of the padding by those of the row.
  columns-row_bytes :
      (row : List (Pixel D)) (old tail : Bytes)
      → length old ≡ length row * 3
      → for_loop (length row) 0 (column row) (old ++ tail) ≡ ok (row_bytes row ++ tail)
  unfolding for_loop row_bytes
  columns-row_bytes [] [] tail h = refl
  columns-row_bytes (p ∷ row) (a ∷ b ∷ c ∷ old) tail h = rw (
    column-zero p row a b c (old ++ tail),
    columns-suc (length row) 0 p row (get_byte p.b) (get_byte p.g) (get_byte p.r) (old ++ tail),
    columns-row_bytes row old tail (omega arith),
  )
  columns-row_bytes [] (a ∷ old) tail h = absurd (omega arith)
  columns-row_bytes (p ∷ row) [] tail h = absurd (omega arith)
  columns-row_bytes (p ∷ row) (a ∷ []) tail h = absurd (omega arith)
  columns-row_bytes (p ∷ row) (a ∷ b ∷ []) tail h = absurd (omega arith)

  write_column-column :
      (pixels : List (List (Pixel D))) (real_row : ℕ) (row : List (Pixel D)) (col : ℕ)
      (buffer : Bytes)
      → get_elem? pixels real_row ≡ some row
      → col * 3 + 2 < 2 ^ 31
      → write_column pixels real_row col buffer ≡ column row col buffer
  unfolding write_column store_pixel
  write_column-column pixels real_row row col buffer found h = rw (
    found,
    index_at_lem col 0 (omega arith),
    index_at_lem col 1 (omega arith),
    index_at_lem col 2 (omega arith),
    add-zero,
  )

  -- The same of the code's loop, at a row of the picture.
  pub write_row :
      (pixels : List (List (Pixel D))) (real_row : ℕ) (row : List (Pixel D)) (old tail : Bytes)
      (width : ℕ)
      → get_elem? pixels real_row ≡ some row
      → length row ≡ width
      → length old ≡ width * 3
      → OffsetsFit width
      → for_loop width 0 (write_column pixels real_row) (old ++ tail) ≡ ok (row_bytes row ++ tail)
  write_row pixels real_row row old tail width found len h fits =
      for_loop-agree width 0 (write_column pixels real_row) (column row) (old ++ tail)
        (λ col buffer lt. write_column-column pixels real_row row col buffer found (omega arith))
      ∙ rw (← len) (columns-row_bytes row old tail (omega arith))
