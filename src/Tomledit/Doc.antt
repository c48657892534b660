-- ===== src/Tomledit/Doc.antt =====
-- internal/tomledit/tomledit.go: a document as its lines and the spans of its tables, and what is read
-- of it. Indices into the lines and the tables are those of the code.
use erdc_hpc_scripts.Base.{
  ℕ, zero, suc, ◌+◌, ◌-◌, Bool, true, false, not, ◌&&◌, ◌||◌, Option, none, some, List, [], ◌∷◌,
  ◌++◌, Text, text_eq, get_elem?, take, drop, if◌then◌else◌,
}
use mathlib.Core.Option
use erdc_hpc_scripts.Base.GoStrings.{trim_space, split, join, cut}
use erdc_hpc_scripts.Base.Strings.{text_eq}
use erdc_hpc_scripts.Tomledit.Line.{header, parent_path, assigns, split_comment, unquote}
pub mod Spans
pub mod Owners

pub record Table : Type 0 where
  pub path : Text
  pub array : Bool
  pub start : ℕ
  pub end : ℕ

pub record Doc : Type 0 where
  pub lines : List Text
  pub tables : List Table

-- The loop of `Parse`, with the table that is open, from line `i` on.
unfoldable pub parse_from : List Text → ℕ → Table → List Table
parse_from [] i cur = record cur { end = i } ∷ []
parse_from (line ∷ lines) i cur = elim (header line) [
  | none ↦ parse_from lines (suc i) cur
  | some h ↦
      record cur { end = i }
      ∷ parse_from lines (suc i) (record { path = h.0; array = h.1; start = i; end = 0 })
]

abbrev pub root : Table
root = record { path = []; array = false; start = 0; end = 0 }

-- `Parse`; 10 is the end of a line.
unfoldable pub parse : Text → Doc
unfolding parse_from split
parse text = let lines = split text 10 in record { lines = lines; tables = parse_from lines 0 root }

-- `String`
unfoldable pub render : Doc → Text
unfolding join
render d = join d.lines 10

-- `Tables`, over the tables from index `i` on.
unfoldable pub tables_from : List Table → Text → ℕ → List ℕ
tables_from [] path i = []
tables_from (t ∷ ts) path i =
    let rest = tables_from ts path (suc i) in if text_eq t.path path then i ∷ rest else rest

-- The loop of `Owner`, over the tables before one, the last of them first.
unfoldable pub owner_before : List Table → Text → ℕ → Option ℕ
owner_before ts want zero = none
owner_before ts want (suc j) =
    let rest = owner_before ts want j in
    elim (get_elem? ts j) [ none ↦ rest | some t ↦ if text_eq t.path want then some j else rest ]

abbrev pub parent_of : Option Table → Option Text
parent_of none = none
parent_of (some t) = parent_path t.path

-- `Owner`: the nearest table above that has the parent path; -1 is `none`.
unfoldable pub owner : Doc → ℕ → Option ℕ
unfolding owner_before parent_path
owner d i = elim (parent_of (get_elem? d.tables i)) [
  | none ↦ none
  | some want ↦ owner_before d.tables want i
]

abbrev pub found : Option Bool → ℕ → Option (ℕ × Bool) → Option (ℕ × Bool)
found none j rest = rest
found (some true) j rest = some (j, true)
found (some false) j (some (k, true)) = some (k, true)
found (some false) j _ = some (j, false)

-- The loop of `keyLine` over the lines of a table, from line `j` on.
unfoldable pub key_line_from : List Text → Text → ℕ → Option (ℕ × Bool)
unfolding assigns
key_line_from [] key j = none
key_line_from (line ∷ lines) key j = found (assigns line key) j (key_line_from lines key (suc j))

-- `keyLine`: the line of a key in a table, and whether it is live.
unfoldable pub key_line : Doc → Table → Text → Option (ℕ × Bool)
unfolding key_line_from
key_line d t key = key_line_from (take (t.end - t.start) (drop t.start d.lines)) key t.start

abbrev right_of : Option (Text × Text) → Text
right_of none = []
right_of (some (l, r)) = r

abbrev line_value : Option Text → Option Text
line_value none = none
line_value (some line) = some (trim_space (split_comment (right_of (cut line 61))).0)

abbrev key_value : Doc → Option (ℕ × Bool) → Option Text
key_value d none = none
key_value d (some (i, false)) = none
key_value d (some (i, true)) = line_value (get_elem? d.lines i)

-- `Value`: the right-hand side of a key that is set in a table.
unfoldable pub value : Doc → Table → Text → Option Text
unfolding key_line trim_space split_comment cut
value d t key = key_value d (key_line d t key)

abbrev pub holds : Option Text → Text → Bool
holds none v = false
holds (some raw) v = text_eq (unquote raw) v

-- `Find`, over the tables from index `i` on.
unfoldable pub find_from : Doc → List Table → Text → Text → Text → ℕ → Option ℕ
unfolding value unquote
find_from d [] path key v i = none
find_from d (t ∷ ts) path key v i =
    let rest = find_from d ts path key v (suc i) in
    if text_eq t.path path && holds (value d t key) v then some i else rest
