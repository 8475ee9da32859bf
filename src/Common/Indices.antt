-- ===== src/Common/Indices.antt =====
-- Reading a list after it was written to or grew.
use Prim.Native.Nat.{ℕ, zero, suc, ◌<◌}
use mathlib.Core.Path.{◌≡◌, refl, ap, subst}
use mathlib.Core.Logic.{◌≢◌, ◌⊎◌, inl, inr}
use mathlib.Core.List.{List, [], ◌∷◌, ◌++◌}
use mathlib.Core.Option.{some}
use native.Mathlib.Omega.{arith}
use high_load_systems.Common.Tests.{Option-some_inj}
use high_load_systems.Common.Lists.{length, get_elem?, set}
use high_load_systems.Common.Loops.{All}

module _ {ℓ} {A : Type ℓ} where
  pub set-cases :
      (xs : List A) (i j : ℕ) (v t : A)
      → get_elem? (set xs i v) j ≡ some t
      → ((i ≡ j) × (t ≡ v)) ⊎ ((i ≢ j) × (get_elem? xs j ≡ some t))
  set-cases [] i j v t e = cc
  set-cases (x ∷ xs) zero zero v t e = inl (refl, cc)
  set-cases (x ∷ xs) zero (suc j) v t e = inr (λ h. omega arith, e)
  set-cases (x ∷ xs) (suc i) zero v t e = inr (λ h. omega arith, e)
  set-cases (x ∷ xs) (suc i) (suc j) v t e = elim (set-cases xs i j v t e) [
    | inl (same, value) ↦ inl (ap suc same, value)
    | inr (other, kept) ↦ inr (λ h. other (omega arith), kept)
  ]

  pub append-cases :
      (xs : List A) (x : A) (p : ℕ) (t : A)
      → get_elem? (xs ++ x ∷ []) p ≡ some t
      → (get_elem? xs p ≡ some t) ⊎ ((p ≡ length xs) × (t ≡ x))
  append-cases [] x zero t e = inr (refl, cc)
  append-cases [] x (suc p) t e = cc
  append-cases (y ∷ xs) x zero t e = inl e
  append-cases (y ∷ xs) x (suc p) t e = elim (append-cases xs x p t e) [
    | inl kept ↦ inl kept
    | inr (last, value) ↦ inr (ap suc last, value)
  ]

  pub get_elem?-append :
      (xs ys : List A) (p : ℕ) (t : A) → get_elem? xs p ≡ some t → get_elem? (xs ++ ys) p ≡ some t
  get_elem?-append [] ys p t e = cc
  get_elem?-append (x ∷ xs) ys zero t e = e
  get_elem?-append (x ∷ xs) ys (suc p) t e = get_elem?-append xs ys p t e

  pub get_elem?-set_same :
      (xs : List A) (i : ℕ) (v x : A) → get_elem? xs i ≡ some x → get_elem? (set xs i v) i ≡ some v
  get_elem?-set_same [] i v x e = cc
  get_elem?-set_same (y ∷ xs) zero v x e = refl
  get_elem?-set_same (y ∷ xs) (suc i) v x e = get_elem?-set_same xs i v x e

  pub get_elem?-lt : (xs : List A) (i : ℕ) → i < length xs → (x : A) × (get_elem? xs i ≡ some x)
  get_elem?-lt [] i h = absurd (omega arith)
  get_elem?-lt (x ∷ xs) zero h = (x, refl)
  get_elem?-lt (x ∷ xs) (suc i) h = get_elem?-lt xs i (omega arith)

  pub get_elem?-length : (xs : List A) (x : A) → get_elem? (xs ++ x ∷ []) (length xs) ≡ some x
  get_elem?-length [] x = refl
  get_elem?-length (y ∷ xs) x = get_elem?-length xs x

module _ {ℓ κ κ'} {A : Type ℓ} where
  pub All-weaken :
      (P : A → Type κ) (Q : A → Type κ') (xs : List A) → ((x : A) → P x → Q x) → All P xs → All Q xs
  All-weaken P Q [] h a = tt
  All-weaken P Q (x ∷ xs) h a = (h x a.0, All-weaken P Q xs h a.1)

module _ {ℓ κ} {A : Type ℓ} (P : A → Type κ) where
  pub All-append : (xs ys : List A) → All P xs → All P ys → All P (xs ++ ys)
  All-append [] ys hx hy = hy
  All-append (x ∷ xs) ys hx hy = (hx.0, All-append xs ys hx.1 hy)

  pub All-set : (xs : List A) (i : ℕ) (x : A) → P x → All P xs → All P (set xs i x)
  All-set [] i x p a = tt
  All-set (y ∷ xs) zero x p a = (p, a.1)
  All-set (y ∷ xs) (suc i) x p a = (a.0, All-set xs i x p a.1)

  pub All-found : (xs : List A) (i : ℕ) (x : A) → get_elem? xs i ≡ some x → All P xs → P x
  All-found [] i x e a = cc
  All-found (y ∷ xs) zero x e a = subst P (Option-some_inj e) a.0
  All-found (y ∷ xs) (suc i) x e a = All-found xs i x e a.1
