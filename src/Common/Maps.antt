-- ===== src/Common/Maps.antt =====
-- Association lists for the maps of the standard library.
use mathlib.Core.Path.{◌≡◌, refl}
use mathlib.Core.Logic.{◌≢◌, ◌↔◌}
use mathlib.Core.Bool.{Bool, true, false}
use mathlib.Core.List.{List, [], ◌∷◌}
use mathlib.Core.Option.{Option, none, some}
use high_load_systems.Common.Tests.{if◌then◌else◌, Bool-cases}
use mathlib.Core.Logic.{inl, inr}

-- The equality test of a key type.
pub record Key {ℓ} (K : Type ℓ) : Type ℓ where
  pub same : K → K → Bool
  pub same_iff : (a b : K) → (same a b ≡ true) ↔ (a ≡ b)

module _ {ℓ} {K : Type ℓ} ⦃key : Key K⦄ where
  same_refl : (k : K) → key.same k k ≡ true
  same_refl k = (key.same_iff k k).1 refl

  pub same_ne : (a b : K) → a ≢ b → key.same a b ≡ false
  same_ne a b n = elim (Bool-cases (key.same a b)) [
    | inl e ↦ absurd (n ((key.same_iff a b).0 e))
    | inr e ↦ e
  ]

  pub ne_of_miss : (a b : K) → key.same a b ≡ false → a ≢ b
  ne_of_miss a b miss e = let hit = (key.same_iff a b).1 e in cc

module _ {ℓ κ} {K : Type ℓ} {V : Type κ} ⦃key : Key K⦄ where
  abbrev pub find : K → List (K × V) → Option V
  find k [] = none
  find k ((k', v) ∷ m) = if key.same k' k then some v else find k m

  abbrev pub erase : K → List (K × V) → List (K × V)
  erase k [] = []
  erase k ((k', v) ∷ m) = if key.same k' k then erase k m else (k', v) ∷ erase k m

  -- `map[k] = v;`
  abbrev pub insert : K → V → List (K × V) → List (K × V)
  insert k v m = (k, v) ∷ erase k m

  pub find-erase_self : (k : K) (m : List (K × V)) → find k (erase k m) ≡ none
  find-erase_self k [] = refl
  find-erase_self k ((k', v) ∷ m) = elim (Bool-cases (key.same k' k)) [
    | inl e ↦ rw e (find-erase_self k m)
    | inr e ↦ rw (e, e) (find-erase_self k m)
  ]

  pub find-erase_ne : (k j : K) (m : List (K × V)) → k ≢ j → find j (erase k m) ≡ find j m
  find-erase_ne k j [] n = refl
  find-erase_ne k j ((k', v) ∷ m) n = elim (Bool-cases (key.same k' k)) [
    | inl e ↦
        let other : key.same k' j ≡ false = rw ((key.same_iff k' k).0 e) (same_ne k j n) in
        rw (e, other) (find-erase_ne k j m n)
    | inr e ↦ rw (e, find-erase_ne k j m n) refl
  ]

  pub find-insert_self : (k : K) (v : V) (m : List (K × V)) → find k (insert k v m) ≡ some v
  find-insert_self k v m = rw (same_refl k) refl

  pub find-insert_ne :
      (k j : K) (v : V) (m : List (K × V)) → k ≢ j → find j (insert k v m) ≡ find j m
  find-insert_ne k j v m n = rw (same_ne k j n) (find-erase_ne k j m n)
