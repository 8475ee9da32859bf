-- ===== src/Messager/Lines.antt =====
-- The line buffer of messager-cpp: async_read_until with "\n", std::getline, and what a stream of
-- bytes means as lines, however it is cut into pieces.
pub mod Split
use high_load_systems.Common.{ℕ, Bool, true, false, List, [], ◌∷◌, ◌++◌, ◌==◌, if◌then◌else◌, Bytes}

abbrev pub newline : ℕ
newline = 10

-- async_read_until completes once the buffer holds the delimiter.
abbrev pub has_newline : Bytes → Bool
has_newline [] = false
has_newline (c ∷ s) = if c == newline then true else has_newline s

-- std::getline on a buffer that holds a newline: the line without it, and what stays in the buffer.
abbrev pub getline : Bytes → Bytes × Bytes
getline [] = ([], [])
getline (c ∷ s) = let (line, rest) = getline s in if c == newline then ([], s) else (c ∷ line, rest)

-- The complete lines of a stream, and the unfinished last one, character by character.
pub split_lines : (line : Bytes) → Bytes → List Bytes × Bytes
split_lines line [] = ([], line)
split_lines line (c ∷ s) =
    let (lines, last) = split_lines (if c == newline then [] else line ++ c ∷ []) s in
    (if c == newline then line ∷ lines else lines, last)

abbrev pub unlines : List Bytes → Bytes
unlines [] = []
unlines (line ∷ lines) = line ++ (newline ∷ unlines lines)
