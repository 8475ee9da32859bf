-- ===== src/Common/Decimal.antt =====
-- std::to_string of a number without a sign, and the value of its digits.
use Prim.Native.Nat.{ℕ, zero, suc, ◌+◌, ◌-◌, ◌*◌, ◌/◌, ◌%◌, ◌<◌}
use mathlib.Core.Path.{◌≡◌, refl, ◌∙◌}
use mathlib.Core.Logic.{inl, inr}
use mathlib.Core.List.{[], ◌∷◌, ◌++◌}
use native.Mathlib.Omega.{arith}
use high_load_systems.Common.Tests.{ltb, ltb→lt, if◌then◌else◌, Bool-cases}
use high_load_systems.Common.Text.{Bytes}

-- A number has no more digits than its value and one.
abbrev pub digits : ℕ → ℕ → Bytes
digits zero n = []
digits (suc fuel) n =
    let rest = digits fuel (n / 10) in (if ltb n 10 then [] else rest) ++ (b'0' + n % 10) ∷ []

unfoldable pub to_string : ℕ → Bytes
to_string n = digits (suc n) n

-- The number that digits stand for, after those of `n`.
abbrev pub decimal : ℕ → Bytes → ℕ
decimal n [] = n
decimal n (c ∷ s) = decimal (n * 10 + (c - b'0')) s

decimal-append_last :
    (n : ℕ) (s : Bytes) (c : ℕ) → decimal n (s ++ c ∷ []) ≡ decimal n s * 10 + (c - b'0')
decimal-append_last n [] c = refl
decimal-append_last n (d ∷ s) c = decimal-append_last (n * 10 + (d - b'0')) s c

decimal-digits : (fuel n : ℕ) → n < fuel → decimal 0 (digits fuel n) ≡ n
decimal-digits zero n h = absurd (omega arith)
decimal-digits (suc fuel) n h = elim (Bool-cases (ltb n 10)) [
  | inl small ↦ rw small (let lt = ltb→lt n 10 small in omega arith)
  | inr large ↦
      let ge : 9 < n = ground arith in
      let rest = decimal-digits fuel (n / 10) (omega arith) in
      rw large (decimal-append_last 0 (digits fuel (n / 10)) (b'0' + n % 10) ∙ omega arith)
]

pub decimal-to_string : (n : ℕ) → decimal 0 (to_string n) ≡ n
unfolding to_string
decimal-to_string n = decimal-digits (suc n) n (omega arith)
