-- ===== src/Common/Counting.antt =====
-- How often a number stands in a list, and the sum of a measure over a list.
use Prim.Native.Nat.{ℕ, zero, suc, ◌+◌, ◌≤◌}
use mathlib.Core.Path.{◌≡◌, ap}
use mathlib.Core.List.{List, [], ◌∷◌, ◌++◌}
use mathlib.Core.Option.{some}
use native.Mathlib.Omega.{arith}
use high_load_systems.Common.Tests.{◌==◌, if◌then◌else◌, Option-some_inj}
use high_load_systems.Common.Lists.{get_elem?, set}

abbrev pub count : ℕ → List ℕ → ℕ
count k [] = 0
count k (i ∷ xs) = (if k == i then 1 else 0) + count k xs

pub count-append : (k : ℕ) (xs ys : List ℕ) → count k (xs ++ ys) ≡ count k xs + count k ys
count-append k [] ys = omega arith
count-append k (x ∷ xs) ys = let rest = count-append k xs ys in omega arith

module _ {ℓ} {A : Type ℓ} where
  abbrev pub sum_by : (A → ℕ) → List A → ℕ
  sum_by f [] = 0
  sum_by f (x ∷ xs) = f x + sum_by f xs

  pub sum_by-append : (f : A → ℕ) (xs ys : List A) → sum_by f (xs ++ ys) ≡ sum_by f xs + sum_by f ys
  sum_by-append f [] ys = omega arith
  sum_by-append f (x ∷ xs) ys = let rest = sum_by-append f xs ys in omega arith

  -- Writing at an index takes away the old value and adds the new one.
  pub sum_by-set :
      (f : A → ℕ) (xs : List A) (i : ℕ) (x y : A)
      → get_elem? xs i ≡ some x
      → sum_by f (set xs i y) + f x ≡ sum_by f xs + f y
  sum_by-set f [] i x y e = cc
  sum_by-set f (z ∷ xs) zero x y e = let same = ap f (Option-some_inj e) in omega arith
  sum_by-set f (z ∷ xs) (suc i) x y e = let rest = sum_by-set f xs i x y e in omega arith

  pub sum_by_le : (f g : A → ℕ) → ((x : A) → f x ≤ g x) → (xs : List A) → sum_by f xs ≤ sum_by g xs
  sum_by_le f g le [] = omega arith
  sum_by_le f g le (x ∷ xs) = let here = le x in let rest = sum_by_le f g le xs in omega arith
