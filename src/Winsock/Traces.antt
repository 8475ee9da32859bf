-- ===== src/Winsock/Traces.antt =====
-- Calls one after another.
use high_load_systems.Common.{
  ℤ, ℕ, ◌≡◌, refl, inl, inr, List, [], ◌∷◌, ◌++◌, some, Option-cases, Option-some_inj, same_index,
  Bytes,
}
use high_load_systems.Winsock.{
  Call, accepted, received, sent, closed, bound, listening, Sockets, holding, allow, allow_all,
}

pub allow_all-append :
    (xs ys : List Call) (h h' : Sockets)
    → allow_all xs h ≡ some h'
    → allow_all (xs ++ ys) h ≡ allow_all ys h'
unfolding allow_all
allow_all-append [] ys h h' e = rw (Option-some_inj e) refl
allow_all-append (x ∷ xs) ys h h' e = elim (Option-cases (allow x h)) [
  | inl refused ↦ let bad = rw (allow_all, refused) at e in cc
  | inr (after, e1) ↦ rw (allow_all, e1) (allow_all-append xs ys after h' (rw (allow_all, e1) at e))
]

-- What the socket that was opened last may be used for.
module _ (s : ℕ) (sockets : List ℕ) (calls : List Call) where
  pub allow_all-closed :
      allow_all (closed s ∷ calls) (holding (s ∷ sockets)) ≡ allow_all calls (holding sockets)
  unfolding allow_all allow
  allow_all-closed = rw (allow_all, same_index s) refl

  pub allow_all-sent :
      (bytes : Bytes) (taken : ℤ)
      → allow_all (sent s bytes taken ∷ calls) (holding (s ∷ sockets))
        ≡ allow_all calls (holding (s ∷ sockets))
  unfolding allow_all allow
  allow_all-sent bytes taken = rw (allow_all, same_index s) refl

  pub allow_all-received :
      allow_all (received s ∷ calls) (holding (s ∷ sockets))
      ≡ allow_all calls (holding (s ∷ sockets))
  unfolding allow_all allow
  allow_all-received = rw (allow_all, same_index s) refl

  pub allow_all-bound :
      allow_all (bound s ∷ calls) (holding (s ∷ sockets)) ≡ allow_all calls (holding (s ∷ sockets))
  unfolding allow_all allow
  allow_all-bound = rw (allow_all, same_index s) refl

  pub allow_all-listening :
      allow_all (listening s ∷ calls) (holding (s ∷ sockets))
      ≡ allow_all calls (holding (s ∷ sockets))
  unfolding allow_all allow
  allow_all-listening = rw (allow_all, same_index s) refl

  pub allow_all-accepted :
      (client : ℕ)
      → allow_all (accepted s client ∷ calls) (holding (s ∷ sockets))
        ≡ allow_all calls (holding (client ∷ s ∷ sockets))
  unfolding allow_all allow
  allow_all-accepted client = rw (allow_all, same_index s) refl
