-- ===== src/Tomledit/Edit.antt =====
-- internal/tomledit/tomledit.go: the edits of a document. An index past the lines or the tables, on
-- which the code panics, leaves the document as it is.
use erdc_hpc_scripts.Base.{
  ℕ, zero, suc, ◌+◌, ◌-◌, ◌==◌, Bool, true, false, not, ◌&&◌, ◌||◌, Option, none, some, List, [],
  ◌∷◌, ◌++◌, Text, text_eq, get_elem?, take, drop, leb, ltb, if◌then◌else◌, length,
}
use mathlib.Core.List.{map}
use mathlib.Core.Option
use erdc_hpc_scripts.Base.GoStrings.{trim_space, cut, cut_prefix}
use erdc_hpc_scripts.Tomledit.Line.{split_comment}
use erdc_hpc_scripts.Tomledit.Doc.{Table, Doc, key_line}
pub mod Inserting

-- `leadingSpace`: the blanks and tabs in front.
unfoldable pub leading_space : Text → Text
leading_space [] = []
leading_space (c ∷ s) = let rest = leading_space s in if c == 32 || c == 9 then c ∷ rest else []

abbrev pub is_blank : Text → Bool
is_blank [] = true
is_blank (c ∷ s) = false

abbrev line_at : Doc → ℕ → Text
line_at d i = elim (get_elem? d.lines i) [ none ↦ [] | some line ↦ line ]

-- The loop of `insert`: behind the last line with text, over the lines from `j` on.
unfoldable pub insert_at : List Text → ℕ → ℕ → ℕ
unfolding trim_space
insert_at [] j at' = at'
insert_at (line ∷ lines) j at' =
    insert_at lines (suc j) (if not (is_blank (trim_space line)) then suc j else at')

abbrev pub moved : ℕ → ℕ → ℕ
moved at' n = if leb at' n then suc n else n

-- `shift`
unfoldable pub shift : ℕ → List Table → List Table
shift at' tables =
    map (λ (t : Table). record t { start = moved at' t.start; end = moved at' t.end }) tables

abbrev starts_empty : Doc → Table → ℕ → Bool
starts_empty d t at' =
    is_blank t.path && t.start == 0 && at' == 1 && is_blank (trim_space (line_at d 0))

abbrev pub insert_line : Doc → Text → ℕ → Doc
insert_line d line at' = record {
  lines = take at' d.lines ++ (line ∷ drop at' d.lines);
  tables = shift at' d.tables;
}

-- `insert`: a line `key = raw` at the end of a table's body.
unfoldable pub insert : Doc → Table → Text → Text → Doc
unfolding insert_at leading_space shift
insert d t key raw =
    let body = take (t.end - suc t.start) (drop (suc t.start) d.lines) in
    let at₀ = insert_at body (suc t.start) (suc t.start) in
    let at₁ = if starts_empty d t at₀ then 0 else at₀ in
    let line = leading_space (line_at d t.start) ++ (key ++ (32 ∷ 61 ∷ 32 ∷ raw)) in
    insert_line d line at₁

-- What follows the first occurrence of a key, `lhs[strings.Index(lhs, key)+len(key):]`.
unfoldable pub behind : Text → Text → Text
unfolding cut_prefix
behind [] key = []
behind (c ∷ s) key =
    let rest = behind s key in elim (cut_prefix (c ∷ s) key) [ none ↦ rest | some r ↦ r ]

abbrev padding : Text → Text
padding [] = 32 ∷ []
padding (c ∷ s) = c ∷ s

abbrev pub sides : Text → Option (Text × Text) → Text × Text
sides line none = (line, [])
sides line (some p) = p

-- `lineParts`: the padding behind a live key and the comment behind its value.
unfoldable pub line_parts : Text → Text → Bool → Text × Text
unfolding behind split_comment cut
line_parts line key false = (32 ∷ [], [])
line_parts line key true =
    let (lhs, rhs) = sides line (cut line 61) in (padding (behind lhs key), (split_comment rhs).1)

abbrev with_comment : Text → Text → Text
with_comment line [] = line
with_comment line (c ∷ comment) = line ++ (32 ∷ 32 ∷ 32 ∷ c ∷ comment)

unfoldable pub set_line : List Text → ℕ → Text → List Text
set_line [] i line = []
set_line (l ∷ lines) zero line = line ∷ lines
set_line (l ∷ lines) (suc i) line = l ∷ set_line lines i line

abbrev pub set_at : Doc → Table → Text → Text → Option (ℕ × Bool) → Doc
set_at d t key raw none = insert d t key raw
set_at d t key raw (some (i, live)) =
    let (pad, comment) = line_parts (line_at d i) key live in
    let line = leading_space (line_at d i) ++ (key ++ (pad ++ (61 ∷ 32 ∷ raw))) in
    record d { lines = set_line d.lines i (with_comment line comment) }

-- `Set`: the value of a key in a table.
unfoldable pub set : Doc → Table → Text → Text → Doc
unfolding key_line insert line_parts set_line leading_space
set d t key raw = set_at d t key raw (key_line d t key)
