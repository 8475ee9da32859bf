-- ===== src/ImageProcessor/Io/Encoding.antt =====
-- io.cpp: the bytes of the rows of a picture, and how the loops write and read them.
use high_load_systems.Common.{
  All-set, ℕ, zero, suc, ◌+◌, ◌*◌, ◌≤◌, ◌<◌, ◌≡◌, refl, ap, List, [], ◌∷◌, ◌++◌, map, append_assoc,
  some, none, arith, Bytes, length, length-append, length-map, length-set, length-replicate,
  get_elem?, set, take, drop, replicate, ok,
}
use high_load_systems.ImageProcessor.Floats.{Float}
use high_load_systems.ImageProcessor.Image.{Pixel}
use high_load_systems.ImageProcessor.Image.Shape.{
  OffsetsFit, IsGrid, Anything, All-get, All-Anything,
}
use high_load_systems.ImageProcessor.Io.{read_rows, write_rows}
use high_load_systems.ImageProcessor.Io.Rows.{
  row_bytes, quantised, length-row_bytes, read_row, read_buffer-append, write_row,
}

IsGrid-set {ℓ} :
    {A : Type ℓ} {h w : ℕ} (i : ℕ) (line : List A) (grid : List (List A))
    → IsGrid h w Anything grid
    → length line ≡ w
    → IsGrid h w Anything (set grid i line)
IsGrid-set i line grid g len = record {
  rows = omega (arith, length-set grid i line, g.rows);
  lines = All-set _ grid i line (len, All-Anything line) g.lines;
}

-- A write just behind the rows that are done.
splice {ℓ} :
    {A : Type ℓ} (f : A → A) (i : ℕ) (xs ys : List A) (x : A)
    → get_elem? xs i ≡ some x
    → i < length ys
    → map f (take i xs) ++ drop i (set ys i (f x)) ≡ map f (take (suc i) xs) ++ drop (suc i) ys
splice f i [] ys x e h = cc
splice f i (a ∷ xs) [] x e h = absurd (omega arith)
splice f zero (a ∷ xs) (b ∷ ys) x e h = let same : a ≡ x = ground arith in rw same
splice f (suc i) (a ∷ xs) (b ∷ ys) x e h = ap (λ zs. f a ∷ zs) (splice f i xs ys x e (omega arith))

module _ {D : Type 0} ⦃f : Float D⦄ where
  -- The pixel data of the rows below `left`, the last one first, each with `pad` bytes of padding.
  unfoldable pub encoded : List (List (Pixel D)) → ℕ → ℕ → Bytes
  encoded pixels pad zero = []
  encoded pixels pad (suc left) = elim (get_elem? pixels left) [
    | none ↦ []
    | some row ↦ (row_bytes row ++ replicate pad 0) ++ encoded pixels pad left
  ]

  encoded-suc :
      (pixels : List (List (Pixel D))) (pad left : ℕ) (row : List (Pixel D))
      → get_elem? pixels left ≡ some row
      → encoded pixels pad (suc left)
        ≡ (row_bytes row ++ replicate pad 0) ++ encoded pixels pad left
  unfolding encoded
  encoded-suc pixels pad left row found = rw (found, encoded)

  -- One round of the loop of `ReadPixels`.
  read_rows-suc :
      (left width pad : ℕ) (buffer rest : Bytes) (row line : List (Pixel D))
      (grid : List (List (Pixel D)))
      → length row ≡ width
      → get_elem? grid left ≡ some line
      → length line ≡ width
      → length buffer ≡ width * 3 + pad
      → OffsetsFit width
      → read_rows (suc left) width buffer ((row_bytes row ++ replicate pad 0) ++ rest) grid
        ≡ read_rows left width
            (row_bytes row ++ replicate pad 0)
            rest
            (set grid left (map quantised row))
  unfolding read_rows
  read_rows-suc left width pad buffer rest row line grid lr there ll lb fits = rw (
    read_buffer-append buffer (row_bytes row ++ replicate pad 0) rest (
        omega (
          arith,
          length-append (row_bytes row) (replicate pad 0),
          length-row_bytes row,
          length-replicate pad (zero),
        )),
    there,
    read_row row line (replicate pad 0) width lr ll fits,
  )

  module _ (height width : ℕ) (pixels : List (List (Pixel D)))
      (g : IsGrid height width Anything pixels) (fits : OffsetsFit width) where
    pub write_rows-encoded :
        (left pad : ℕ) (old : Bytes)
        → left ≤ height
        → length old ≡ width * 3
        → write_rows left width pixels (old ++ replicate pad 0) ≡ ok (encoded pixels pad left)
    unfolding write_rows
    write_rows-encoded zero pad old h l = unfold encoded in refl
    write_rows-encoded (suc left) pad old h l =
        let (row, found, (len, _)) = All-get _ pixels left g.lines (omega (arith, g.rows)) in
        rw (
          write_row pixels left row old (replicate pad 0) width found len l fits,
          write_rows-encoded left pad (row_bytes row) (omega arith)
              (omega (arith, length-row_bytes row, len)),
          encoded-suc pixels pad left row found,
        )

    -- The rows that are left are read into the front of the grid.
    pub read_rows-encoded :
        (left pad : ℕ) (buffer rest : Bytes) (grid : List (List (Pixel D)))
        → left ≤ height
        → IsGrid height width Anything grid
        → length buffer ≡ width * 3 + pad
        → read_rows left width buffer (encoded pixels pad left ++ rest) grid
          ≡ ok (map (map quantised) (take left pixels) ++ drop left grid)
    read_rows-encoded zero pad buffer rest grid h gg l = unfold read_rows in refl
    read_rows-encoded (suc left) pad buffer rest grid h gg l =
        let (row, found, (len, _)) = All-get _ pixels left g.lines (omega (arith, g.rows)) in
        let (line, there, (lenl, _)) = All-get _ grid left gg.lines (omega (arith, gg.rows)) in
        rw (
          encoded-suc pixels pad left row found,
          append_assoc (row_bytes row ++ replicate pad 0) (encoded pixels pad left) rest,
          read_rows-suc left width pad buffer (encoded pixels pad left ++ rest) row line grid len
              there lenl l fits,
          read_rows-encoded left pad (row_bytes row ++ replicate pad 0) rest
              (set grid left (map quantised row)) (omega arith)
              (IsGrid-set left (map quantised row) grid gg
                (omega (arith, length-map row (quantised {D = D}), len)))
              (omega (
                arith,
                length-append (row_bytes row) (replicate pad 0),
                length-row_bytes row,
                length-replicate pad (zero),
                len,
              )),
          splice (map quantised) left pixels grid row found (omega (arith, gg.rows)),
        )
