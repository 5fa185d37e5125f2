-- ===== src/Utils/Csv/Fields.antt =====
-- A table that is written is read back by lines and fields.
use meta_pb.Common.{
  ℕ, ◌≡◌, refl, sym, ap, ap₂, ◌∙◌, List, [], ◌∷◌, ◌++◌, map, some, All, ◌==◌, if◌then◌else◌, arith,
  Bool, true, false, not, ◌&&◌,
}
use mathlib.Core.Bool.{false≢true}
use mathlib.Core.List.{append_assoc}
use meta_pb.Utils.Lines.{Text, comma, newline, cons_first, lines, separated}
use meta_pb.Utils.Lines.Laws.{Without, ne-eq, Without-append, lines-newline, lines-line}
use meta_pb.Utils.Csv.{
  row_stream, keep_char, pop_back, write_row, write_rows, write_headers, write_csv,
}

-- The fields of a line, between its commas.
abbrev pub fields : Text → List Text
fields [] = [] ∷ []
fields (c ∷ cs) = let rest = fields cs in if c == comma then [] ∷ rest else cons_first c rest

-- A field holds no comma and no newline.
abbrev pub IsField : Text → Type 0
IsField t = Without comma t × Without newline t

-- A row of at least two fields.
abbrev pub IsRow : List Text → Type 0
IsRow (t ∷ (u ∷ ts)) = All IsField (t ∷ (u ∷ ts))
IsRow _ = ⊥

row_stream-separated :
    (t : Text) (ts : List Text) → row_stream (t ∷ ts) ≡ separated comma (t ∷ ts) ++ (comma ∷ [])
unfolding row_stream separated
row_stream-separated t [] = refl
row_stream-separated t (u ∷ ts) =
    ap (λ r. t ++ (comma ∷ r)) (row_stream-separated u ts)
    ∙ sym (append_assoc t (comma ∷ separated comma (u ∷ ts)) (comma ∷ []))

pop_back-snoc : (s : Text) (c : ℕ) → pop_back (s ++ (c ∷ [])) ≡ some s
unfolding pop_back
pop_back-snoc [] c = refl
pop_back-snoc (x ∷ []) c = refl
pop_back-snoc (x ∷ (y ∷ s)) c = ap (keep_char x) (pop_back-snoc (y ∷ s) c)

write_row-separated :
    (t : Text) (ts : List Text) → write_row (t ∷ ts) ≡ some (separated comma (t ∷ ts))
unfolding write_row
write_row-separated t ts =
    ap pop_back (row_stream-separated t ts) ∙ pop_back-snoc (separated comma (t ∷ ts)) comma

fields-comma : (t rest : Text) → Without comma t → fields (t ++ (comma ∷ rest)) ≡ t ∷ fields rest
fields-comma [] rest h = refl
fields-comma (c ∷ t) rest h = rw (ne-eq c comma h.0) (ap (cons_first c) (fields-comma t rest h.1))

fields-last : (t : Text) → Without comma t → fields t ≡ t ∷ []
fields-last [] h = refl
fields-last (c ∷ t) h = rw (ne-eq c comma h.0) (ap (cons_first c) (fields-last t h.1))

pub fields-separated :
    (t : Text) (ts : List Text) → All IsField (t ∷ ts) → fields (separated comma (t ∷ ts)) ≡ t ∷ ts
unfolding separated
fields-separated t [] h = fields-last t h.0.0
fields-separated t (u ∷ ts) h =
    fields-comma t (separated comma (u ∷ ts)) h.0.0 ∙ ap (λ r. t ∷ r) (fields-separated u ts h.1)

pub separated-Without :
    (t : Text) (ts : List Text) → All IsField (t ∷ ts) → Without newline (separated comma (t ∷ ts))
unfolding separated
separated-Without t [] h = h.0.1
separated-Without t (u ∷ ts) h =
    Without-append newline t _ h.0.1 (omega arith, separated-Without u ts h.1)

-- A line of a row alone, and before other lines.
row_alone :
    (row : List Text)
    → IsRow row
    → (text : Text) × (write_row row ≡ some text)
      × (map fields (lines text) ≡ row ∷ [])
      × Without newline text
      × (fields text ≡ row)
unfolding separated
row_alone [] h = absurd h
row_alone (t ∷ []) h = absurd h
row_alone (t ∷ (u ∷ ts)) h = (
  separated comma (t ∷ (u ∷ ts)),
  write_row-separated t (u ∷ ts),
  ap (map fields) (lines-line t comma (separated comma (u ∷ ts)) (separated-Without t (u ∷ ts) h))
      ∙ ap (λ r. r ∷ []) (fields-separated t (u ∷ ts) h),
  separated-Without t (u ∷ ts) h,
  fields-separated t (u ∷ ts) h,
)

-- A line and what follows it.
pub line_and :
    (line rest : Text) (row : List Text) (rows : List (List Text))
    → Without newline line
    → fields line ≡ row
    → map fields (lines rest) ≡ rows
    → map fields (lines (line ++ (newline ∷ rest))) ≡ row ∷ rows
line_and line rest row rows h e k = ap (map fields) (lines-newline line rest h) ∙ ap₂ ◌∷◌ e k

write_rows-fields :
    (rows : List (List Text))
    → All IsRow rows
    → (text : Text) × (write_rows rows ≡ some text) × (map fields (lines text) ≡ rows)
unfolding write_rows lines
write_rows-fields [] h = ([], refl, refl)
write_rows-fields (r ∷ []) h = let (text, e, k, w, f) = row_alone r h.0 in (text, e, k)
write_rows-fields (r ∷ (q ∷ rows)) h =
    let (line, e, k, w, f) = row_alone r h.0 in
    let (rest, e', k') = write_rows-fields (q ∷ rows) h.1 in
    (line ++ (newline ∷ rest), rw (e, e') refl, line_and line rest r (q ∷ rows) w f k')

write_headers-row :
    (headers : List Text) → IsRow headers → write_headers headers ≡ write_row headers
write_headers-row [] h = absurd h
write_headers-row (t ∷ ts) h = refl

-- A table whose headers and rows have at least two fields each, none of them with a comma or a newline,
-- is written without fail, and the text reads back, line by line and field by field, as the headers
-- and the rows in their order.
pub write_csv-fields :
    (rows : List (List Text)) (headers : List Text)
    → IsRow headers
    → All IsRow rows
    → (text : Text) × (write_csv rows headers ≡ some text)
      × (map fields (lines text) ≡ headers ∷ rows)
unfolding write_csv
write_csv-fields rows headers h k =
    let (line, e, l, w, f) = row_alone headers h in
    let (rest, e', k') = write_rows-fields rows k in
    (
      line ++ (newline ∷ rest),
      rw (write_headers-row headers h ∙ e, e') refl,
      line_and line rest headers rows w f k',
    )

-- A test of whether texts are fields.
abbrev pub lacks : ℕ → Text → Bool
lacks d [] = true
lacks d (c ∷ t) = not (c == d) && lacks d t

abbrev pub all_fields : List Text → Bool
all_fields [] = true
all_fields (t ∷ ts) = lacks comma t && (lacks newline t && all_fields ts)

and-true : (a b : Bool) → (a && b) ≡ true → (a ≡ true) × (b ≡ true)
and-true true b e = (refl, e)
and-true false b e = absurd (false≢true e)

lacks-Without : (d : ℕ) (t : Text) → lacks d t ≡ true → Without d t
lacks-Without d [] e = tt
lacks-Without d (c ∷ t) e =
    let (k, r) = and-true (not (c == d)) (lacks d t) e in (ground arith, lacks-Without d t r)

pub all_fields-IsField : (ts : List Text) → all_fields ts ≡ true → All IsField ts
all_fields-IsField [] e = tt
all_fields-IsField (t ∷ ts) e =
    let (a, r) = and-true (lacks comma t) (lacks newline t && all_fields ts) e in
    let (b, k) = and-true (lacks newline t) (all_fields ts) r in
    ((lacks-Without comma t a, lacks-Without newline t b), all_fields-IsField ts k)
