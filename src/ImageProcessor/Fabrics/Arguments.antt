-- ===== src/ImageProcessor/Fabrics/Arguments.antt =====
-- fabrics.cpp: which arguments are let through, and the range of the numbers that they become.
use native.Mathlib.Nat.{pow-suc, pow-le-pow_right}
use high_load_systems.Common.{
  ℕ, ◌+◌, ◌-◌, ◌*◌, ◌^◌, ◌≤◌, ◌<◌, ◌≡◌, refl, ap, ◌↔◌, true, Bool-cases, inl, inr, [], ◌∷◌, arith,
  Bytes, ltb, length, pos, ok, IsInt16, IsInt32,
}
use high_load_systems.ImageProcessor.Floats.{Float}
use high_load_systems.ImageProcessor.Filter.Picture.{Safe, Safe-bind}
use high_load_systems.ImageProcessor.Filter.Safety.{HasArguments}
use high_load_systems.ImageProcessor.Fabrics.{
  is_digit, all_digits, all_digits_or_dots, count_dots, has_other, is_integer, is_float,
  is_not_null, atoi_from, atoi, to_int16, make_crop, make_edge, make_blur, make_tunnel,
}

times_ten : (m n p : ℕ) → m + 1 ≤ (n + 1) * 10 → (m + 1) * p ≤ (n + 1) * (p * 10)
times_ten m n p h =
    let (q, e) : (q : ℕ) × (m + 1 + q ≡ (n + 1) * 10) = ((n + 1) * 10 - (m + 1), omega arith) in
    let scaled : (m + 1 + q) * p ≡ (n + 1) * 10 * p = ap (λ k. k * p) e in grind arith

first_digit :
    (c : ℕ) (s : Bytes) → all_digits (c ∷ s) ≡ true → (is_digit c ≡ true) × (all_digits s ≡ true)
first_digit c s h = ground arith

-- A digit adds at most a factor of ten.
atoi_from-lt : (n : ℕ) (s : Bytes) → all_digits s ≡ true → atoi_from n s < (n + 1) * 10 ^ length s
unfolding atoi_from
atoi_from-lt n [] h = omega arith
atoi_from-lt n (c ∷ s) h =
    let (digit, digits) = first_digit c s h in
    let m = n * 10 + (c - b'0') in
    rw (digit, pow-suc 10 (length s))
      (omega (arith, atoi_from-lt m s digits, times_ten m n (10 ^ length s) (ground arith)))

-- Nine digits fit an int.
atoi-lt : (s : Bytes) → length s ≤ 9 → all_digits s ≡ true → atoi s < 1_000_000_000
unfolding atoi
atoi-lt s len digits = omega (
  arith,
  atoi_from-lt 0 s digits,
  pow-le-pow_right {n = 10} (omega arith) {i = length s} {j = 9} len,
)

int32 : {n : ℕ} → n < 1_000_000_000 → IsInt32 (pos n)
int32 h = ground arith

to_int16-IsInt16 : (n : ℕ) → IsInt16 (to_int16 n)
to_int16-IsInt16 n = ground arith

-- `IsInteger` lets through exactly the texts of at most nine digits, and no other.
pub is_integer_iff : (s : Bytes) → (is_integer s ≡ ok tt) ↔ ((length s ≤ 9) × (all_digits s ≡ true))
unfolding is_integer
is_integer_iff s = ground arith

-- `IsFloat` lets through exactly the texts of at most nine digits and dots with at most one dot.
is_float_iff :
    (s : Bytes)
    → (is_float s ≡ ok tt) ↔ ((length s ≤ 9) × (all_digits_or_dots s ≡ true) × (count_dots s ≤ 1))
unfolding is_float
is_float_iff s = ground arith

-- The checks throw a `ParserException` and nothing else.
is_integer-Safe : (s : Bytes) → Safe (is_integer s) λ _. (length s ≤ 9) × (all_digits s ≡ true)
unfolding is_integer
is_integer-Safe s = elim (Bool-cases (ltb 9 (length s))) [
  | inl long ↦ rw long (inr (_, refl, λ e. cc))
  | inr short ↦ rw short (elim (Bool-cases (all_digits s)) [
    | inl digits ↦ rw digits (inl (tt, refl, (ground arith, refl)))
    | inr other ↦ rw other (inr (_, refl, λ e. cc))
  ])
]

is_float-Safe : (s : Bytes) → Safe (is_float s) λ _. Unit {0}
unfolding is_float
is_float-Safe s = elim (Bool-cases (ltb 9 (length s))) [
  | inl long ↦ rw long (inr (_, refl, λ e. cc))
  | inr short ↦ rw short (elim (Bool-cases (all_digits_or_dots s)) [
    | inr other ↦ rw other (inr (_, refl, λ e. cc))
    | inl shape ↦ rw shape (elim (Bool-cases (ltb 1 (count_dots s))) [
      | inl dots ↦ rw dots (inr (_, refl, λ e. cc))
      | inr few ↦ rw few (inl (tt, refl, tt))
    ])
  ])
]

is_not_null-Safe : (s : Bytes) → Safe (is_not_null s) λ _. Unit {0}
unfolding is_not_null
is_not_null-Safe s = elim (Bool-cases (has_other s)) [
  | inl other ↦ rw other (inl (tt, refl, tt))
  | inr null ↦ rw null (inr (_, refl, λ e. cc))
]

module _ {D : Type 0} ⦃f : Float D⦄ where
  pub make_crop-Safe : (width height : Bytes) → Safe (make_crop {D = D} width height) HasArguments
  unfolding make_crop
  make_crop-Safe width height =
      Safe-bind _ HasArguments (is_integer height) _ (is_integer-Safe height) λ _ _ _.
        Safe-bind _ HasArguments (is_not_null height) _ (is_not_null-Safe height) λ _ _ _.
          Safe-bind _ HasArguments (is_integer width) _ (is_integer-Safe width) λ _ _ _.
            Safe-bind _ HasArguments (is_not_null width) _ (is_not_null-Safe width) λ _ _ _.
              inl (_, refl, (to_int16-IsInt16 (atoi width), to_int16-IsInt16 (atoi height)))

  pub make_edge-Safe : (value : Bytes) → Safe (make_edge {D = D} value) HasArguments
  unfolding make_edge
  make_edge-Safe value =
      Safe-bind _ HasArguments (is_float value) _ (is_float-Safe value) λ _ _ _. inl (_, refl, tt)

  pub make_blur-Safe : (value : Bytes) → Safe (make_blur {D = D} value) HasArguments
  unfolding make_blur
  make_blur-Safe value =
      Safe-bind _ HasArguments (is_float value) _ (is_float-Safe value) λ _ _ _. inl (_, refl, tt)

  pub make_tunnel-Safe :
      (pixel_h pixel_w strength radius : Bytes)
      → Safe (make_tunnel {D = D} pixel_h pixel_w strength radius) HasArguments
  unfolding make_tunnel
  make_tunnel-Safe pixel_h pixel_w strength radius =
      Safe-bind _ HasArguments (is_integer pixel_h) _ (is_integer-Safe pixel_h) λ _ _ (lh, dh).
        Safe-bind _ HasArguments (is_integer pixel_w) _ (is_integer-Safe pixel_w) λ _ _ (lw, dw).
          Safe-bind _ HasArguments (is_float strength) _ (is_float-Safe strength) λ _ _ _.
            Safe-bind _ HasArguments (is_float radius) _ (is_float-Safe radius)
              λ _ _ _. inl (_, refl, (int32 (atoi-lt pixel_h lh dh), int32 (atoi-lt pixel_w lw dw)))
