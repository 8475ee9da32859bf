-- ===== src/ImageProcessor/Parser/Words.antt =====
-- parser.cpp: filters as a user writes them on the command line, and where a word of it stands.
use high_load_systems.Common.{
  ℕ, zero, suc, ◌+◌, ◌≤◌, ◌<◌, ◌≡◌, refl, false, List, [], ◌∷◌, ◌++◌, some, arith, Bytes, codes,
  leb, length, length-append, get_elem?, ok, to_string,
}
use high_load_systems.ImageProcessor.Fabrics.{is_float}

-- What a user asks for: numbers, and the texts of the parameters of type double.
pub data Wish : Type 0 where
  crop_to : (width height : ℕ) → Wish
  in_gray : Wish
  as_negative : Wish
  sharper : Wish
  edges_at : (threshold : Bytes) → Wish
  blurred : (sigma : Bytes) → Wish
  tunnelled : (row column : ℕ) (strength radius : Bytes) → Wish

abbrev pub words_of : Wish → List Bytes
words_of (crop_to width height) = codes "-crop" ∷ to_string width ∷ to_string height ∷ []
words_of in_gray = codes "-gs" ∷ []
words_of as_negative = codes "-neg" ∷ []
words_of sharper = codes "-sharp" ∷ []
words_of (edges_at threshold) = codes "-edge" ∷ threshold ∷ []
words_of (blurred sigma) = codes "-blur" ∷ sigma ∷ []
words_of (tunnelled row column strength radius) =
    codes "-tunnel" ∷ to_string row ∷ to_string column ∷ strength ∷ radius ∷ []

abbrev pub all_words : List Wish → List Bytes
all_words [] = []
all_words (wish ∷ wishes) = words_of wish ++ all_words wishes

-- Numbers of at most nine digits, not 0 for a crop, and texts that `IsFloat` accepts.
abbrev pub IsPossible : Wish → Type 0
IsPossible (crop_to width height) =
    (0 < width) × (width < 1_000_000_000) × (0 < height) × (height < 1_000_000_000)
IsPossible (edges_at threshold) = is_float threshold ≡ ok tt
IsPossible (blurred sigma) = is_float sigma ≡ ok tt
IsPossible (tunnelled row column strength radius) =
    (row < 1_000_000_000)
    × (column < 1_000_000_000)
    × (is_float strength ≡ ok tt)
    × (is_float radius ≡ ok tt)
IsPossible _ = Unit

-- The argument `k` words past the ones before.
pub get_elem?-past :
    (before rest : List Bytes) (k n : ℕ)
    → n ≡ length before + k
    → get_elem? (before ++ rest) n ≡ get_elem? rest k
get_elem?-past [] rest k n e = let same : n ≡ k = omega arith in rw same refl
get_elem?-past (x ∷ before) rest k zero e = absurd (omega arith)
get_elem?-past (x ∷ before) rest k (suc n) e = get_elem?-past before rest k n (omega arith)

pub length-words_of : (wish : Wish) → 0 < length (words_of wish)
length-words_of (crop_to width height) = omega arith
length-words_of in_gray = omega arith
length-words_of as_negative = omega arith
length-words_of sharper = omega arith
length-words_of (edges_at threshold) = omega arith
length-words_of (blurred sigma) = omega arith
length-words_of (tunnelled row column strength radius) = omega arith

pub length-all_words : (wishes : List Wish) → length wishes ≤ length (all_words wishes)
length-all_words [] = omega arith
length-all_words (wish ∷ wishes) =
    let word = length-words_of wish in
    let split = length-append (words_of wish) (all_words wishes) in
    let rest = length-all_words wishes in omega arith

pub first_word :
    (before rest : List Bytes) (word : Bytes)
    → get_elem? (before ++ word ∷ rest) (length before) ≡ some word
first_word before rest word = get_elem?-past before (word ∷ rest) 0 (length before) (omega arith)

pub enough :
    (before words : List Bytes) (k : ℕ)
    → k < length words
    → leb (length (before ++ words)) (length before + k) ≡ false
enough before words k h = let both = length-append before words in ground arith
