-- ===== src/Utils/Lines.antt =====
-- Text as the source reads and writes it: `std::getline` of lines and of fields, and a text's bytes.
pub mod Laws
use Prim.Native.Char.{code}
use Prim.Native.String.{String}
use meta_pb.Common.{ℕ, List, [], ◌∷◌, ◌++◌, Option, none, some, if◌then◌else◌, ◌==◌}

abbrev pub Text : Type 0
Text = List ℕ

-- The bytes of an ASCII literal.
abbrev pub codes : String → Text
codes String.[] = []
codes (String.◌∷◌ c s) = code c ∷ codes s

abbrev pub newline : ℕ
newline = 10

abbrev pub comma : ℕ
comma = 44

abbrev pub cons_first : ℕ → List Text → List Text
cons_first c [] = (c ∷ []) ∷ []
cons_first c (l ∷ ls) = (c ∷ l) ∷ ls

-- What `while (getline(file, line))` reads: a last line without a newline counts if it is not empty.
unfoldable pub lines : Text → List Text
lines [] = []
lines (c ∷ cs) = let rest = lines cs in if c == newline then [] ∷ rest else cons_first c rest

-- A stream is what is left to read, `none` at its end; a word is kept if the stream has ended.
abbrev pub Stream : Type 0
Stream = Option Text

-- Up to the delimiter, and behind it if there is one.
unfoldable pub split_at : (delimiter : ℕ) → Text → Text × Stream
split_at d [] = ([], none)
split_at d (c ∷ cs) =
    let rest = split_at d cs in if c == d then ([], some cs) else (c ∷ rest.0, rest.1)

-- `getline(s, word, delimiter)`.
unfoldable pub get_word : (delimiter : ℕ) → Text × Stream → Text × Stream
get_word d (word, none) = (word, none)
get_word d (word, some cs) = split_at d cs

-- The items with the separator between them, a round of the separator and the next item at a time.
unfoldable pub separated : (separator : ℕ) → List Text → Text
separated s [] = []
separated s (t ∷ []) = t
separated s (t ∷ (u ∷ ts)) = t ++ (s ∷ separated s (u ∷ ts))
