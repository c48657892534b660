-- ===== src/Examples/Tomledit.antt =====
-- internal/tomledit on a short file: a cluster with a node. The ends of lines are code 10.
use erdc_hpc_scripts.Base.{
  ◌≡◌, refl, true, none, some, [], ◌∷◌, arith, Text, codes, length, ◌++◌, text_eq,
}
use mathlib.Core.List.{map}
use erdc_hpc_scripts.Base.GoStrings.{join}
use erdc_hpc_scripts.Tomledit.Line.{header}
use erdc_hpc_scripts.Tomledit.Doc.{Table, root, parse, value}
use erdc_hpc_scripts.Tomledit.Doc.Spans.{Tile, heading, headings, parse-Tile}
use erdc_hpc_scripts.Tomledit.Edit.{set}
use erdc_hpc_scripts.Tomledit.Seams.{split_tables}
use erdc_hpc_scripts.Tomledit.Seams.Spec.{unlines, spans, is_for, is_left}
use erdc_hpc_scripts.Tomledit.Seams.Tables.{split_tables-parse}
use erdc_hpc_scripts.Tomledit.Edit.Inserting.{set-Tile}

abbrev file : Text
file =
    join
      (codes "[[cluster]]"
        ∷ codes "name = 'a' # one"
        ∷ codes "  [[cluster.node]]"
        ∷ codes "  # host = 'h'"
        ∷ [])
      10

abbrev cluster : Table
cluster = record { path = codes "cluster"; array = true; start = 0; end = 2 }

-- A value is set in place with its comment kept, and read back.
set_name :
    value (set (parse file) cluster (codes "name") (codes "'b'")) cluster (codes "name")
    ≡ some (codes "'b'")
unfolding set value parse join
set_name = refl

-- A key for the root of a file whose first line is a header lands in the first table.
root_key :
    value (set (parse file) root (codes "k") (codes "1")) (record cluster { end = 3 }) (codes "k")
    ≡ some (codes "1")
unfolding set value parse join
root_key = refl

-- A key for the root of an empty file lands before the span that the root has then.
empty_root_key :
    value
      (set (parse []) (record root { end = 1 }) (codes "k") (codes "1"))
      (record root { start = 1; end = 2 })
      (codes "k")
    ≡ none
unfolding set value parse
empty_root_key = refl

empty_root :
    (set (parse []) (record root { end = 1 }) (codes "k") (codes "1")).tables
    ≡ record root { start = 1; end = 2 } ∷ []
unfolding set parse header
empty_root = refl

parse-Tile_example :
    Tile 0 (length (parse file).lines) (parse file).tables
    × (map heading (parse file).tables ≡ heading root ∷ headings (parse file).lines 0)
parse-Tile_example = parse-Tile file

set-Tile_example :
    Tile 0
      (length (set (parse file) cluster (codes "k") (codes "1")).lines)
      (set (parse file) cluster (codes "k") (codes "1")).tables
unfolding parse join
set-Tile_example =
    set-Tile (parse file) cluster (codes "k") (codes "1") refl (omega arith) (omega arith)
      (parse-Tile file).0

-- The file with a table behind the node, which is not asked for.
abbrev longer : Text
longer = join (codes "a = 1" ∷ file ∷ codes "[dest]" ∷ codes "b = 2" ∷ []) 10

split_tables-parse_example :
    ((split_tables longer (codes "cluster" ∷ [])).rest
      ≡ unlines (spans (is_left (codes "cluster" ∷ [])) (parse longer).lines (parse longer).tables))
    × ((split_tables longer (codes "cluster" ∷ [])).sections (codes "cluster")
        ≡ unlines (
            spans
              (is_for (codes "cluster") (codes "cluster" ∷ []))
              (parse longer).lines
              (parse longer).tables))
split_tables-parse_example = split_tables-parse longer (codes "cluster" ∷ []) b'c' (codes "luster")

left_lines :
    (split_tables longer (codes "cluster" ∷ [])).rest
    ≡ join (codes "a = 1" ∷ codes "[dest]" ∷ codes "b = 2" ∷ [] ∷ []) 10
unfolding split_tables join header text_eq
left_lines = refl

-- The one table that is taken out is all there is.
taken : (split_tables file (codes "cluster" ∷ [])).sections (codes "cluster") ≡ file ++ 10 ∷ []
unfolding split_tables join header text_eq
taken = refl
