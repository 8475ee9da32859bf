-- ===== src/Common/Loops.antt =====
-- Results with an error, and the counted loop that rewrites a vector in place, element by element.
use Prim.Native.Nat.{ℕ, zero, suc, ◌+◌, ◌<◌}
use mathlib.Core.Path.{◌≡◌, refl}
use mathlib.Core.Logic.{◌⊎◌, inl, inr}
use mathlib.Core.List.{List, [], ◌∷◌}
use mathlib.Core.Option.{Option, none, some}
use native.Mathlib.Omega.{arith}
use high_load_systems.Common.Tests.{Option-cases}
use high_load_systems.Common.Lists.{length, get_elem?, set}

pub data Result {ℓ κ} (E : Type κ) (A : Type ℓ) : Type (ℓ ⊔ κ) where
  ok : A → Result E A
  err : E → Result E A

-- A step that failed ends the run; both are needed for `do`.
infixl 5 ◌>>=◌
abbrev pub ◌>>=◌ {ℓ ℓ' κ} :
    {E : Type κ} {A : Type ℓ} {B : Type ℓ'} → Result E A → (A → Result E B) → Result E B
err failure >>= next = err failure
ok value >>= next = next value

-- `if (bad) throw e;`
abbrev pub or_throw {κ} : {E : Type κ} → Option E → Result E (Unit {0})
or_throw (some failure) = err failure
or_throw none = ok tt

infixl 5 ◌>>◌
abbrev pub ◌>>◌ {ℓ κ} : {E : Type κ} {B : Type ℓ} → Result E (Unit {0}) → Result E B → Result E B
first >> rest = first >>= λ _. rest

abbrev pub from_option {ℓ κ} : {E : Type κ} {A : Type ℓ} → E → Option A → Result E A
from_option e none = err e
from_option e (some a) = ok a

pub Result-cases {ℓ κ} :
    {E : Type κ} {A : Type ℓ} (r : Result E A) → ((a : A) × (r ≡ ok a)) ⊎ ((e : E) × (r ≡ err e))
Result-cases (ok a) = inl (a, refl)
Result-cases (err e) = inr (e, refl)

-- A run of two steps that ends normally has a first step that does.
pub >>=-eq-ok {ℓ ℓ' κ} :
    {E : Type κ} {A : Type ℓ} {B : Type ℓ'} (m : Result E A) (next : A → Result E B) {result : B}
    → (m >>= next) ≡ ok result
    → (value : A) × (m ≡ ok value) × (next value ≡ ok result)
>>=-eq-ok (err failure) next h = cc
>>=-eq-ok (ok value) next h = (value, refl, h)

pub >>=_assoc {ℓ κ} :
    {E : Type κ} {A B C : Type ℓ} (m : Result E A) (f : A → Result E B) (g : B → Result E C)
    → (m >>= f >>= g) ≡ (m >>= λ a. f a >>= g)
>>=_assoc (ok a) f g = refl
>>=_assoc (err e) f g = refl

-- The run ends normally, in a value that satisfies `P`.
abbrev pub Returns {ℓ κ ι} :
    {E : Type κ} {A : Type ℓ} → Result E A → (A → Type ι) → Type (ℓ ⊔ κ ⊔ ι)
Returns {A} r P = (a : A) × (r ≡ ok a) × P a

abbrev pub All {ℓ κ} : {A : Type ℓ} → (A → Type κ) → List A → Type κ
All P [] = Unit
All P (x ∷ xs) = P x × All P xs

module _ {ℓ κ} {E : Type κ} {A : Type ℓ} where
  -- `xs[i]`, where an index past the end is the fault `oob`.
  abbrev pub at : E → List A → ℕ → Result E A
  at oob xs i = from_option oob (get_elem? xs i)

  -- `for (j = i; j < i + n; ++j) xs[j] = f(j, xs[j]);`
  unfoldable pub update_each : E → ℕ → ℕ → (ℕ → A → Result E A) → List A → Result E (List A)
  update_each oob zero i f xs = ok xs
  update_each oob (suc n) i f xs = do
    x ← at oob xs i
    y ← f i x
    update_each oob n (suc i) f (set xs i y)

  -- The same as a walk along the list.
  unfoldable pub traverse : (ℕ → A → Result E A) → List A → Result E (List A)
  traverse f [] = ok []
  traverse f (x ∷ xs) = do y ← f 0 x; ys ← traverse (λ j. f (suc j)) xs; ok (y ∷ ys)

  update_each-cons :
      (oob : E) (n i : ℕ) (f : ℕ → A → Result E A) (x : A) (xs : List A)
      → update_each oob n (suc i) f (x ∷ xs)
        ≡ (update_each oob n i (λ j. f (suc j)) xs >>= λ ys. ok (x ∷ ys))
  unfolding update_each
  update_each-cons oob zero i f x xs = refl
  update_each-cons oob (suc n) i f x xs = elim (Option-cases (get_elem? xs i)) [
    | inl e ↦ rw e
    | inr (a, e) ↦ rw e (elim (Result-cases (f (suc i) a)) [
      | inl (b, eb) ↦ rw eb (update_each-cons oob n (suc i) f x (set xs i b))
      | inr (u, eu) ↦ rw eu
    ])
  ]

  pub update_each-traverse :
      (oob : E) (f : ℕ → A → Result E A) (xs : List A)
      → update_each oob (length xs) 0 f xs ≡ traverse f xs
  unfolding update_each traverse
  update_each-traverse oob f [] = refl
  update_each-traverse oob f (x ∷ xs) = elim (Result-cases (f 0 x)) [
    | inl (b, eb) ↦ rw (
      eb,
      update_each-cons oob (length xs) 0 f b xs,
      update_each-traverse oob (λ j. f (suc j)) xs,
    )
    | inr (u, eu) ↦ rw eu
  ]

  pub traverse-Returns {ι ι'} :
      (P : A → Type ι) (Q : A → Type ι') (f : ℕ → A → Result E A) (xs : List A)
      → ((i : ℕ) (x : A) → i < length xs → P x → Returns (f i x) Q)
      → All P xs
      → Returns (traverse f xs) λ ys. (length ys ≡ length xs) × All Q ys
  unfolding traverse
  traverse-Returns P Q f [] h a = ([], refl, (refl, tt))
  traverse-Returns P Q f (x ∷ xs) h a =
      let (y, ey, qy) = h 0 x (omega arith) a.0 in
      let (ys, eys, (len, qys)) =
        traverse-Returns P Q (λ j. f (suc j)) xs (λ i z lt. h (suc i) z (omega arith)) a.1 in
      (y ∷ ys, rw (ey, eys), (omega arith, (qy, qys)))

  -- A loop over all of a vector that succeeds at every element returns one of the same length.
  pub update_each-Returns {ι ι'} :
      (oob : E) (P : A → Type ι) (Q : A → Type ι') (n : ℕ) (f : ℕ → A → Result E A) (xs : List A)
      → length xs ≡ n
      → All P xs
      → ((i : ℕ) (x : A) → i < n → P x → Returns (f i x) Q)
      → Returns (update_each oob n 0 f xs) λ ys. (length ys ≡ n) × All Q ys
  update_each-Returns oob P Q n f xs len a h =
      rw (← len, update_each-traverse oob f xs)
        (traverse-Returns P Q f xs (λ i x lt. h i x (omega arith)) a)

  traverse-get_elem? :
      (f : ℕ → A → Result E A) (xs ys : List A) (i : ℕ) (x : A)
      → traverse f xs ≡ ok ys
      → get_elem? xs i ≡ some x
      → (y : A) × (f i x ≡ ok y) × (get_elem? ys i ≡ some y)
  unfolding traverse
  traverse-get_elem? f [] ys i x e g = cc
  traverse-get_elem? f (x' ∷ xs) ys zero x e g =
      let (y, ey, rest) = >>=-eq-ok (f 0 x') _ e in
      let (zs, ez, last) = >>=-eq-ok (traverse (λ j. f (suc j)) xs) _ rest in
      (y, ground arith, ground arith)
  traverse-get_elem? f (x' ∷ xs) ys (suc i) x e g =
      let (y, ey, rest) = >>=-eq-ok (f 0 x') _ e in
      let (zs, ez, last) = >>=-eq-ok (traverse (λ j. f (suc j)) xs) _ rest in
      let (w, ew, gw) = traverse-get_elem? (λ j. f (suc j)) xs zs i x ez g in (w, ew, ground arith)

-- The same of a loop over all of the vector.
pub update_each-get_elem? {ℓ κ} :
    {E : Type κ} {A : Type ℓ} (oob : E) (n : ℕ) (f : ℕ → A → Result E A) (xs ys : List A) (i : ℕ)
    (x : A)
    → length xs ≡ n
    → update_each oob n 0 f xs ≡ ok ys
    → get_elem? xs i ≡ some x
    → (y : A) × (f i x ≡ ok y) × (get_elem? ys i ≡ some y)
update_each-get_elem? oob n f xs ys i x len e g =
    traverse-get_elem? f xs ys i x (rw (← update_each-traverse oob f xs, len) e) g

-- `for (j = i; j < i + n; ++j) body(j, s);` over the variables `s` of the loop.
unfoldable pub for_loop {ℓ κ} :
    {E : Type κ} {S : Type ℓ} → ℕ → ℕ → (ℕ → S → Result E S) → S → Result E S
for_loop zero i body s = ok s
for_loop (suc n) i body s = do s' ← body i s; for_loop n (suc i) body s'

pub for_loop-Returns {ℓ κ ι} :
    {E : Type κ} {S : Type ℓ} (P : S → Type ι) (n i : ℕ) (body : ℕ → S → Result E S) (s : S)
    → ((j : ℕ) (t : S) → j < i + n → P t → Returns (body j t) P)
    → P s
    → Returns (for_loop n i body s) P
unfolding for_loop
for_loop-Returns P zero i body s h p = (s, refl, p)
for_loop-Returns P (suc n) i body s h p =
    let (t, et, pt) = h i s (omega arith) p in
    let (u, eu, pu) = for_loop-Returns P n (suc i) body t (λ j v lt. h j v (omega arith)) pt in
    (u, rw (et) eu, pu)

-- The same for a loop from 0.
pub for_each-Returns {ℓ κ ι} :
    {E : Type κ} {S : Type ℓ} (P : S → Type ι) (n : ℕ) (body : ℕ → S → Result E S) (s : S)
    → ((j : ℕ) (t : S) → j < n → P t → Returns (body j t) P)
    → P s
    → Returns (for_loop n 0 body s) P
for_each-Returns P n body s h = for_loop-Returns P n 0 body s (λ j t lt. h j t (omega arith))
