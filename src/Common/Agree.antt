-- ===== src/Common/Agree.antt =====
-- Loops whose bodies agree at the indices that they reach, and loops whose bodies cannot fail.
use Prim.Native.Nat.{ℕ, zero, suc, ◌+◌, ◌<◌}
use mathlib.Core.Path.{◌≡◌, refl}
use mathlib.Core.Logic.{inl, inr}
use mathlib.Core.List.{List}
use native.Mathlib.Omega.{arith}
use high_load_systems.Common.Tests.{Option-cases}
use high_load_systems.Common.Lists.{get_elem?, set}
use high_load_systems.Common.Loops.{Result, ok, Result-cases, update_each, for_loop}

pub update_each-agree {ℓ κ} :
    {E : Type κ} {A : Type ℓ} (oob : E) (n i : ℕ) (f g : ℕ → A → Result E A) (xs : List A)
    → ((j : ℕ) (x : A) → j < i + n → f j x ≡ g j x)
    → update_each oob n i f xs ≡ update_each oob n i g xs
unfolding update_each
update_each-agree oob zero i f g xs h = refl
update_each-agree oob (suc n) i f g xs h = elim (Option-cases (get_elem? xs i)) [
  | inl e ↦ rw e
  | inr (x, e) ↦
      rw (e, h i x (omega arith))
        (elim (Result-cases (g i x)) [
          | inl (y, ey) ↦
              rw ey
                (update_each-agree oob n (suc i) f g (set xs i y) (λ j z lt. h j z (omega arith)))
          | inr (u, eu) ↦ rw eu
        ])
]

pub for_loop-agree {ℓ κ} :
    {E : Type κ} {S : Type ℓ} (n i : ℕ) (f g : ℕ → S → Result E S) (s : S)
    → ((j : ℕ) (t : S) → j < i + n → f j t ≡ g j t)
    → for_loop n i f s ≡ for_loop n i g s
unfolding for_loop
for_loop-agree zero i f g s h = refl
for_loop-agree (suc n) i f g s h = rw (h i s (omega arith)) (elim (Result-cases (g i s)) [
  | inl (t, e) ↦ rw e (for_loop-agree n (suc i) f g t (λ j u lt. h j u (omega arith)))
  | inr (u, e) ↦ rw e
])

-- `n` steps of a function that takes the index, from `i` on.
abbrev pub iterate {ℓ} : {S : Type ℓ} → ℕ → ℕ → (ℕ → S → S) → S → S
iterate zero i f s = s
iterate (suc n) i f s = iterate n (suc i) f (f i s)

pub for_loop-iterate {ℓ κ} :
    {E : Type κ} {S : Type ℓ} (n i : ℕ) (body : ℕ → S → Result E S) (f : ℕ → S → S) (s : S)
    → ((j : ℕ) (t : S) → j < i + n → body j t ≡ ok (f j t))
    → for_loop n i body s ≡ ok (iterate n i f s)
unfolding for_loop
for_loop-iterate zero i body f s h = refl
for_loop-iterate (suc n) i body f s h =
    rw (h i s (omega arith))
      (for_loop-iterate n (suc i) body f (f i s) (λ j t lt. h j t (omega arith)))
