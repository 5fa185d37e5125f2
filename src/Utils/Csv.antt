-- ===== src/Utils/Csv.antt =====
-- `CSVWriter` of include/utils/CSVWriter.hpp: the text that it writes to a file that can be opened.
-- `none` is what C++ leaves undefined, the removal of a comma from an empty row.
pub mod Fields
use meta_pb.Common.{ℕ, List, [], ◌∷◌, ◌++◌, Option, none, some}
use meta_pb.Utils.Lines.{Text, comma, newline}

-- The row stream, with a comma after each item.
unfoldable pub row_stream : List Text → Text
row_stream [] = []
row_stream (t ∷ ts) = t ++ (comma ∷ row_stream ts)

abbrev pub keep_char : ℕ → Option Text → Option Text
keep_char c none = none
keep_char c (some t) = some (c ∷ t)

unfoldable pub pop_back : Text → Option Text
pop_back [] = none
pop_back (c ∷ []) = some []
pop_back (c ∷ (d ∷ t)) = keep_char c (pop_back (d ∷ t))

-- `writeRow`.
unfoldable pub write_row : List Text → Option Text
unfolding row_stream pop_back
write_row row = pop_back (row_stream row)

abbrev pub two_lines : Option Text → Option Text → Option Text
two_lines (some a) (some b) = some (a ++ (newline ∷ b))
two_lines _ _ = none

-- The loop over the rows, with a newline behind each but the last.
unfoldable pub write_rows : List (List Text) → Option Text
unfolding write_row
write_rows [] = some []
write_rows (r ∷ []) = write_row r
write_rows (r ∷ (q ∷ rows)) = two_lines (write_row r) (write_rows (q ∷ rows))

abbrev pub write_headers : List Text → Option Text
write_headers [] = some []
write_headers (t ∷ ts) = write_row (t ∷ ts)

-- `writeCSV`.
unfoldable pub write_csv : (rows : List (List Text)) → (headers : List Text) → Option Text
unfolding write_row write_rows
write_csv rows headers = two_lines (write_headers headers) (write_rows rows)
