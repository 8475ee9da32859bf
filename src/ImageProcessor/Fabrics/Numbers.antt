-- ===== src/ImageProcessor/Fabrics/Numbers.antt =====
-- fabrics.cpp: the decimal digits of a number pass the checks, and stand for the number.
use native.Mathlib.Nat.{pow-suc}
use high_load_systems.Common.{
  ℕ, zero, suc, ◌+◌, ◌-◌, ◌*◌, ◌/◌, ◌%◌, ◌^◌, ◌≤◌, ◌<◌, ◌≡◌, refl, ◌∙◌, true, Bool-cases, inl, inr,
  [], ◌∷◌, ◌++◌, arith, Bytes, ltb, pos, length, length-append, ok, digits, to_string, decimal,
  decimal-to_string, ◌↔◌, All, ℤ, sub_ℕ,
}
use high_load_systems.ImageProcessor.Floats.{Float}
use high_load_systems.ImageProcessor.Filter.{Filter, crop, edge_detection, gaussian_blur, tunnel}
use high_load_systems.ImageProcessor.Fabrics.{
  is_digit, all_digits, has_other, is_integer, is_float, is_not_null, atoi_from, atoi, to_int16,
  make_crop, make_edge, make_blur, make_tunnel,
}
use high_load_systems.ImageProcessor.Fabrics.Arguments.{is_integer_iff}

all_digits-append :
    (s : Bytes) (c : ℕ) → all_digits s ≡ true → is_digit c ≡ true → all_digits (s ++ c ∷ []) ≡ true
all_digits-append [] c h d = rw d refl
all_digits-append (x ∷ s) c h d = let rest = all_digits-append s c in ground arith

all_digits-digits : (fuel n : ℕ) → all_digits (digits fuel n) ≡ true
all_digits-digits zero n = refl
all_digits-digits (suc fuel) n =
    let last : is_digit (b'0' + n % 10) ≡ true = ground arith in
    elim (Bool-cases (ltb n 10)) [
      | inl small ↦ rw small (all_digits-append [] (b'0' + n % 10) refl last)
      | inr large ↦ rw large (
          all_digits-append (digits fuel (n / 10)) (b'0' + n % 10) (all_digits-digits fuel (n / 10))
            last)
    ]

-- A number below a power of ten has at most as many digits.
length-digits : (k fuel n : ℕ) → n < 10 ^ suc k → length (digits fuel n) ≤ suc k
length-digits k zero n h = omega arith
length-digits zero (suc fuel) n h =
    let small : ltb n 10 ≡ true = ground arith in rw small (omega arith)
length-digits (suc k) (suc fuel) n h = elim (Bool-cases (ltb n 10)) [
  | inl small ↦ rw small (omega arith)
  | inr large ↦
      let below : n < 10 ^ suc k * 10 = rw (pow-suc 10 (suc k)) at h in
      let rest = length-digits k fuel (n / 10) (omega arith) in
      rw (large, length-append (digits fuel (n / 10)) ((b'0' + n % 10) ∷ [])) (omega arith)
]

has_other-append : (s : Bytes) (c : ℕ) → has_other s ≡ true → has_other (s ++ c ∷ []) ≡ true
has_other-append [] c h = cc
has_other-append (x ∷ s) c h = let rest = has_other-append s c in ground arith

has_other-digits : (fuel n : ℕ) → n < fuel → 0 < n → has_other (digits fuel n) ≡ true
has_other-digits zero n lt h = absurd (omega arith)
has_other-digits (suc fuel) n lt h = elim (Bool-cases (ltb n 10)) [
  | inl small ↦ rw small (ground arith)
  | inr large ↦
      let ge : 9 < n = ground arith in
      rw large (
        has_other-append (digits fuel (n / 10)) (b'0' + n % 10)
          (has_other-digits fuel (n / 10) (omega arith) (omega arith)))
]

atoi_from-decimal : (n : ℕ) (s : Bytes) → all_digits s ≡ true → atoi_from n s ≡ decimal n s
unfolding atoi_from
atoi_from-decimal n [] h = refl
atoi_from-decimal n (c ∷ s) h = let rest = atoi_from-decimal (n * 10 + (c - b'0')) s in ground arith

-- The number that a text stands for only grows with its digits.
decimal-le : (n : ℕ) (s : Bytes) → n ≤ decimal n s
decimal-le n [] = omega arith
decimal-le n (c ∷ s) = omega (arith, decimal-le (n * 10 + (c - b'0')) s)

-- A text of digits has a character other than zero exactly if its number is positive.
has_other_iff : (s : Bytes) → all_digits s ≡ true → (has_other s ≡ true) ↔ (0 < decimal 0 s)
has_other_iff [] h = ground arith
has_other_iff (c ∷ s) h =
    let rest = has_other_iff s in let grown = decimal-le (c - b'0') s in ground arith

all_digits_iff : (s : Bytes) → (all_digits s ≡ true) ↔ All (λ c. (b'0' ≤ c) × (c ≤ b'9')) s
all_digits_iff [] = (λ h. tt, λ h. refl)
all_digits_iff (c ∷ s) = let rest = all_digits_iff s in ground arith

-- A text of one to nine digits whose number is not zero.
abbrev pub IsCount : Bytes → Type 0
IsCount s = (length s ≤ 9) × All (λ c. (b'0' ≤ c) × (c ≤ b'9')) s × (0 < decimal 0 s)

-- The value of an int modulo 2 ^ 16, between -2 ^ 15 and 2 ^ 15 - 1.
abbrev pub modulo_int16 : ℕ → ℤ
modulo_int16 n = sub_ℕ ((n + 2 ^ 15) % 2 ^ 16) (2 ^ 15)

to_int16_lem : (n : ℕ) → to_int16 n ≡ modulo_int16 n
to_int16_lem n = ground arith

to_int16-atoi : (s : Bytes) → all_digits s ≡ true → to_int16 (atoi s) ≡ modulo_int16 (decimal 0 s)
unfolding atoi
to_int16-atoi s h = to_int16_lem (atoi_from 0 s) ∙ rw (atoi_from-decimal 0 s h) refl

texts_agree :
    (s : Bytes) → ((length s ≤ 9) × (all_digits s ≡ true) × (has_other s ≡ true)) ↔ IsCount s
texts_agree s = let digits = all_digits_iff s in let other = has_other_iff s in ground arith

module _ {D : Type 0} ⦃f : Float D⦄ (width height : Bytes) (filter : Filter D) where
  make_crop_checks : (make_crop width height ≡ ok filter) ↔ (
      ((length width ≤ 9) × (all_digits width ≡ true) × (has_other width ≡ true))
      × ((length height ≤ 9) × (all_digits height ≡ true) × (has_other height ≡ true))
      × (filter ≡ crop (to_int16 (atoi width)) (to_int16 (atoi height))))
  unfolding make_crop is_integer is_not_null
  make_crop_checks = ground arith

  -- The crop fabric accepts exactly two texts of at most nine decimal digits whose numbers are
  -- positive, and makes a crop by these numbers reduced modulo 2^16 to the range from -2^15 to
  -- 2^15 - 1.
  pub make_crop_iff : (make_crop width height ≡ ok filter) ↔ (
      IsCount width
      × IsCount height
      × (filter ≡ crop (modulo_int16 (decimal 0 width)) (modulo_int16 (decimal 0 height))))
  make_crop_iff =
      let (checks, made) = make_crop_checks in
      let (count_w, text_w) = texts_agree width in
      let (count_h, text_h) = texts_agree height in
      (
        λ run.
            let (w, h, e) = checks run in
            (count_w w, count_h h, rw (to_int16-atoi width w.1, to_int16-atoi height h.1) at e),
        λ (w, h, e).
            let w' = text_w w in
            let h' = text_h h in
            made (w', h', rw (to_int16-atoi width w'.1, to_int16-atoi height h'.1) e),
      )

atoi-to_string : (n : ℕ) → atoi (to_string n) ≡ n
unfolding atoi to_string
atoi-to_string n =
    atoi_from-decimal 0 (to_string n) (all_digits-digits (suc n) n) ∙ decimal-to_string n

is_integer-to_string : (n : ℕ) → n < 1_000_000_000 → is_integer (to_string n) ≡ ok tt
unfolding to_string
is_integer-to_string n h =
    (is_integer_iff (to_string n)).1
      (length-digits 8 (suc n) n (omega arith), all_digits-digits (suc n) n)

is_not_null-to_string : (n : ℕ) → 0 < n → is_not_null (to_string n) ≡ ok tt
unfolding is_not_null to_string
is_not_null-to_string n h = rw (has_other-digits (suc n) n (omega arith) h) refl

module _ {D : Type 0} ⦃f : Float D⦄ where
  pub make_crop-to_string :
      (width height : ℕ)
      → 0 < width
      → width < 1_000_000_000
      → 0 < height
      → height < 1_000_000_000
      → make_crop {D = D} (to_string width) (to_string height)
        ≡ ok (crop (to_int16 width) (to_int16 height))
  unfolding make_crop
  make_crop-to_string width height pos_w w pos_h h =
      rw
        (
          is_integer-to_string height h,
          is_not_null-to_string height pos_h,
          is_integer-to_string width w,
          is_not_null-to_string width pos_w,
          atoi-to_string width,
          atoi-to_string height,
        )
        refl

  pub make_tunnel-to_string :
      (row column : ℕ) (strength radius : Bytes)
      → row < 1_000_000_000
      → column < 1_000_000_000
      → is_float strength ≡ ok tt
      → is_float radius ≡ ok tt
      → make_tunnel (to_string row) (to_string column) strength radius
        ≡ ok (tunnel (pos row) (pos column) (f.of_text strength) (f.of_text radius))
  unfolding make_tunnel
  make_tunnel-to_string row column strength radius r c s t =
      rw
        (
          is_integer-to_string row r,
          is_integer-to_string column c,
          s,
          t,
          atoi-to_string row,
          atoi-to_string column,
        )
        refl

  pub make_edge-text :
      (value : Bytes)
      → is_float value ≡ ok tt
      → make_edge value ≡ ok (edge_detection (f.of_text value))
  unfolding make_edge
  make_edge-text value h = rw h refl

  pub make_blur-text :
      (value : Bytes)
      → is_float value ≡ ok tt
      → make_blur value ≡ ok (gaussian_blur (f.of_text value))
  unfolding make_blur
  make_blur-text value h = rw h refl
