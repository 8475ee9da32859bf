-- ===== src/ImageProcessor/Image/Edges.antt =====
-- image.cpp: which pixel `Multiply` reads where its matrix hangs over an edge of the picture.
use high_load_systems.Common.{
  ℕ, ◌+◌, ◌-◌, ◌^◌, ◌≤◌, ◌<◌, ◌≡◌, ◌⊎◌, Option, none, some, arith, ℤ, pos, negsuc, pos_part,
  Bool-cases, inl, inr, ap, ltb→lt, ◌+ℤ◌, ◌-ℤ◌, ltb, if◌then◌else◌, sub_ℕ,
}
use high_load_systems.ImageProcessor.Image.{source_of, mirror, in_square, to_int32, wrap_int}

-- The distance of the offset `k - mid` from `c` to the near edge, on either side of it.
abbrev pub distance : (c k mid : ℕ) → ℕ
distance c k mid = if ltb (c + k) mid then mid - (c + k) else c + k - mid

-- The reflected coordinate: `none` where that distance is past the far edge.
pub reflected : (size c k mid : ℕ) → Option ℕ
reflected size c k mid = if ltb (distance c k mid) size then some (distance c k mid) else none

abbrev pub both_or : Option ℕ → Option ℕ → ℕ × ℕ → ℕ × ℕ
both_or (some r) (some c) here = (r, c)
both_or none _ here = here
both_or _ none here = here

signed_offset :
    (c k mid : ℕ)
    → pos c +ℤ sub_ℕ k mid
      ≡ (if ltb (c + k) mid then negsuc (mid - (c + k) - 1) else pos (c + k - mid))
unfolding ◌+ℤ◌
signed_offset c k mid = ground arith

-- A coordinate past the far edge is sent below zero.
abbrev clipped : ℕ → ℕ → ℤ
clipped size n = if ltb n size then pos n else negsuc (n - size)

wrap_int-pos : (n : ℕ) → n < 2 ^ 31 → wrap_int (pos n) ≡ pos n
wrap_int-pos n h = ground arith

wrap_int-negsuc : (n : ℕ) → n < 2 ^ 31 → wrap_int (negsuc n) ≡ negsuc n
wrap_int-negsuc n h = ground arith

mirror-pos : (size n : ℕ) → size < 2 ^ 31 → n < 2 ^ 31 → mirror size (pos n) ≡ clipped size n
unfolding mirror ◌-ℤ◌
mirror-pos size n fs fn = ground arith

mirror-negsuc :
    (size n : ℕ) → size < 2 ^ 31 → n + 1 < 2 ^ 31 → mirror size (negsuc n) ≡ clipped size (n + 1)
unfolding mirror ◌-ℤ◌
mirror-negsuc size n fs fn = ground arith

mirror-clipped :
    (size c k mid : ℕ)
    → size < 2 ^ 31
    → c < size
    → mid < 2 ^ 31
    → c + k < 2 ^ 31 + mid
    → mirror size (wrap_int (pos c +ℤ sub_ℕ k mid)) ≡ clipped size (distance c k mid)
mirror-clipped size c k mid fs hc fm fk =
    rw (signed_offset c k mid) (elim (Bool-cases (ltb (c + k) mid)) [
      | inl near ↦
          let lt = ltb→lt _ _ near in
          rw
            (
              near,
              wrap_int-negsuc (mid - (c + k) - 1) (omega arith),
              mirror-negsuc size (mid - (c + k) - 1) fs (omega arith),
            )
            (ap (clipped size) (omega arith))
      | inr far ↦
          rw (far, wrap_int-pos (c + k - mid) (omega arith))
            (mirror-pos size (c + k - mid) fs (omega arith))
    ])

choose :
    (height width r c : ℕ) (here : ℕ × ℕ)
    → height < 2 ^ 31
    → width < 2 ^ 31
    → (if in_square (clipped height r) (clipped width c) (to_int32 height) (to_int32 width)
        then (pos_part (clipped height r), pos_part (clipped width c))
        else here)
      ≡ both_or (if ltb r height then some r else none) (if ltb c width then some c else none) here
unfolding in_square
choose height width r c here fh fw = ground arith

-- For sizes and half sizes of the matrix that fit an int, at a position whose sum with the
-- offset fits an int, the position that the convolution samples is, in each direction, the
-- distance from the upper left border, and the middle position if one of the two lies past the
-- picture.
pub source_of-reflected :
    (height width row col k l mid_row mid_col : ℕ)
    → height < 2 ^ 31
    → width < 2 ^ 31
    → row < height
    → col < width
    → mid_row < 2 ^ 31
    → mid_col < 2 ^ 31
    → row + k < 2 ^ 31 + mid_row
    → col + l < 2 ^ 31 + mid_col
    → source_of height width row col (sub_ℕ k mid_row) (sub_ℕ l mid_col)
      ≡ both_or (reflected height row k mid_row) (reflected width col l mid_col) (row, col)
unfolding source_of in_square reflected
source_of-reflected height width row col k l mid_row mid_col fh fw hr hc fm fn fk fl =
    rw
      (
        mirror-clipped height row k mid_row fh hr fm fk,
        mirror-clipped width col l mid_col fw hc fn fl,
      )
      (choose height width _ _ (row, col) fh fw)

-- For sizes and half sizes of the matrix that fit an int, at a position whose sum with the
-- offset fits an int, an offset that leads past the lower or the right border always makes the
-- convolution sample the middle position itself, never a mirrored one.
pub source_of-past_edge :
    (height width row col k l mid_row mid_col : ℕ)
    → height < 2 ^ 31
    → width < 2 ^ 31
    → row < height
    → col < width
    → mid_row < 2 ^ 31
    → mid_col < 2 ^ 31
    → row + k < 2 ^ 31 + mid_row
    → col + l < 2 ^ 31 + mid_col
    → (height + mid_row ≤ row + k) ⊎ (width + mid_col ≤ col + l)
    → source_of height width row col (sub_ℕ k mid_row) (sub_ℕ l mid_col) ≡ (row, col)
unfolding reflected
source_of-past_edge height width row col k l mid_row mid_col fh fw hr hc fm fn fk fl past =
    ground
      (arith, source_of-reflected height width row col k l mid_row mid_col fh fw hr hc fm fn fk fl)
