-- ===== src/Tests/Dump.antt =====
-- Tables of texts, and a dump of the reports of one task.
use meta_pb.Common.{◌≡◌, refl, [], ◌∷◌, map, some}
use meta_pb.Utils.Chrono.Dump.{dump_file}
use meta_pb.Utils.Csv.{write_csv}
use meta_pb.Utils.Csv.Fields.{fields, all_fields-IsField, write_csv-fields}
use meta_pb.Utils.Lines.{Text, codes, lines}

table_written :
    write_csv
      (map codes ("a" ∷ "b" ∷ []) ∷ map codes ("c" ∷ "" ∷ []) ∷ [])
      (map codes ("x" ∷ "y" ∷ []))
    ≡ some (codes "x,y\na,b\nc,")
unfolding write_csv
table_written = refl

-- An empty table leaves its header's newline.
table_empty : write_csv [] (map codes ("x" ∷ "y" ∷ [])) ≡ some (codes "x,y\n")
unfolding write_csv
table_empty = refl

path_slash : dump_file (codes "out") (codes "Time") ≡ dump_file (codes "out/") (codes "Time")
unfolding dump_file
path_slash = refl

write_csv-fields_example :
    (text : Text) × (write_csv
        (map codes ("a" ∷ "b" ∷ []) ∷ map codes ("c" ∷ "" ∷ []) ∷ [])
        (map codes ("x" ∷ "y" ∷ []))
      ≡ some text)
    × (map fields (lines text)
        ≡ map codes ("x" ∷ "y" ∷ []) ∷ map codes ("a" ∷ "b" ∷ []) ∷ map codes ("c" ∷ "" ∷ []) ∷ [])
write_csv-fields_example =
    write_csv-fields (map codes ("a" ∷ "b" ∷ []) ∷ map codes ("c" ∷ "" ∷ []) ∷ [])
      (map codes ("x" ∷ "y" ∷ [])) (all_fields-IsField (map codes ("x" ∷ "y" ∷ [])) refl)
      (
        all_fields-IsField (map codes ("a" ∷ "b" ∷ [])) refl,
        (all_fields-IsField (map codes ("c" ∷ "" ∷ [])) refl, tt),
      )
