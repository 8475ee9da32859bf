-- ===== src/Messager/Lines/Split.antt =====
-- The lines of a stream are those that were written to it.
use high_load_systems.Common.{
  ◌≡◌, refl, ap, sym, ◌∙◌, inl, inr, true, false, Bool-cases, List, [], ◌∷◌, ◌++◌, ◌==◌, ==_iff,
  Bytes, All, append_assoc, append-nil,
}
use high_load_systems.Messager.Lines.{newline, has_newline, getline, split_lines, unlines}

abbrev pub IsLine : Bytes → Type 0
IsLine line = has_newline line ≡ false

-- A line that was extracted has no newline, and stood before the first one of the buffer.
pub getline_lem :
    (s : Bytes)
    → has_newline s ≡ true
    → (s ≡ (getline s).0 ++ (newline ∷ (getline s).1)) × IsLine (getline s).0
getline_lem [] h = cc
getline_lem (c ∷ s) h = elim (Bool-cases (c == newline)) [
  | inl here ↦ rw here (ap (λ x. x ∷ s) ((==_iff c newline).0 here), refl)
  | inr later ↦
      let (whole, line) = getline_lem s (rw later at h) in
      rw later (ap (λ t. c ∷ t) whole, rw later line)
]

split_lines-line :
    (line part s : Bytes)
    → IsLine part
    → split_lines line (part ++ (newline ∷ s))
      ≡ ((line ++ part) ∷ (split_lines [] s).0, (split_lines [] s).1)
unfolding split_lines
split_lines-line line [] s h = rw (append-nil line) refl
split_lines-line line (c ∷ part) s h = elim (Bool-cases (c == newline)) [
  | inl here ↦ let bad = rw here at h in cc
  | inr later ↦ rw later (
      split_lines-line (line ++ c ∷ []) part s (rw later at h)
      ∙ rw (append_assoc line (c ∷ []) part) refl)
]

split_lines-last : (line part : Bytes) → IsLine part → split_lines line part ≡ ([], line ++ part)
unfolding split_lines
split_lines-last line [] h = rw (append-nil line) refl
split_lines-last line (c ∷ part) h = elim (Bool-cases (c == newline)) [
  | inl here ↦ let bad = rw here at h in cc
  | inr later ↦ rw later (
      split_lines-last (line ++ c ∷ []) part (rw later at h)
      ∙ rw (append_assoc line (c ∷ []) part) refl)
]

-- Lines that were written one after another, with an unfinished one at the end, are read as such.
pub split_lines-unlines :
    (lines : List Bytes) (last : Bytes)
    → All IsLine lines
    → IsLine last
    → split_lines [] (unlines lines ++ last) ≡ (lines, last)
split_lines-unlines [] last a h = split_lines-last [] last h
split_lines-unlines (line ∷ lines) last a h =
    rw (append_assoc line (newline ∷ unlines lines) last) (
      split_lines-line [] line (unlines lines ++ last) a.0
      ∙ rw (split_lines-unlines lines last a.1 h) refl)

pub unlines-append : (xs ys : List Bytes) → unlines (xs ++ ys) ≡ unlines xs ++ unlines ys
unlines-append [] ys = refl
unlines-append (x ∷ xs) ys =
    rw (unlines-append xs ys, append_assoc x (newline ∷ unlines xs) (unlines ys)) refl

pub split_lines-whole :
    (lines : List Bytes) → All IsLine lines → (split_lines [] (unlines lines)).0 ≡ lines
split_lines-whole lines a =
    ap (λ s. (split_lines [] s).0) (sym (append-nil (unlines lines)))
    ∙ ap (λ r. r.0) (split_lines-unlines lines [] a refl)
