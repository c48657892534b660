-- ===== src/Tomledit/Seams.antt =====
-- internal/tomledit/tomledit.go, `Split` and `Assemble`: whole tables taken out of a text and put
-- back. The map of sections is a function from names, empty where the map has no entry.
use erdc_hpc_scripts.Base.{
  ℕ, Bool, true, false, not, ◌&&◌, ◌||◌, Option, none, some, List, [], ◌∷◌, ◌++◌, Text, text_eq,
  ◌==◌, if◌then◌else◌,
}
use mathlib.Core.Option
use erdc_hpc_scripts.Base.GoStrings.{split, cut, trim_right, trim_space}
use erdc_hpc_scripts.Tomledit.Line.{header}
pub mod Spec
pub mod Picked
pub mod Tables

abbrev pub first_segment : Text → Option (Text × Text) → Text
first_segment path none = path
first_segment path (some p) = p.0

-- `rootPath`
unfoldable pub root_path : Text → Text
unfolding cut
root_path path = first_segment path (cut path 46)

unfoldable pub is_wanted : List Text → Text → Bool
unfolding text_eq
is_wanted [] n = false
is_wanted (name ∷ names) n = text_eq name n || is_wanted names n

abbrev pub is_no_name : Text → Bool
is_no_name [] = true
is_no_name (c ∷ s) = false

abbrev pub section_of : List Text → Text → Option (Text × Bool) → Text
section_of names cur none = cur
section_of names cur (some h) = if is_wanted names (root_path h.0) then root_path h.0 else []

-- The table that a line belongs to: a wanted one, or none, `[]`, if the line goes to the rest.
unfoldable pub next_section : List Text → Text → Text → Text
unfolding header root_path is_wanted
next_section names cur line = section_of names cur (header line)

pub record Parts : Type 0 where
  pub rest : Text
  pub sections : Text → Text

-- A line with its end is appended to the rest or to its section.
unfoldable pub put : Text → Text → Parts → Parts
unfolding text_eq
put cur line p =
    let text = line ++ 10 ∷ [] in
    if is_no_name cur
    then record p { rest = p.rest ++ text }
    else record p { sections = λ n. if text_eq cur n then p.sections n ++ text else p.sections n }

-- The loop of `Split`.
unfoldable pub split_lines : List Text → Text → List Text → Parts → Parts
unfolding next_section put
split_lines names cur [] p = p
split_lines names cur (line ∷ lines) p =
    let next = next_section names cur line in split_lines names next lines (put next line p)

-- `Split`
unfoldable pub split_tables : Text → List Text → Parts
unfolding split_lines split
split_tables text names =
    split_lines names [] (split text 10) (record { rest = []; sections = λ n. [] })

abbrev is_break : ℕ → Bool
is_break c = c == 10

unfoldable pub assemble_from : (Text → Text) → List Text → Text → Text
unfolding trim_right trim_space
assemble_from sections [] out = out
assemble_from sections (name ∷ order) out =
    let s = trim_right is_break (sections name) in
    assemble_from sections order
      (if not (is_no_name (trim_space s)) then out ++ (10 ∷ (s ++ 10 ∷ [])) else out)

-- `Assemble`
unfoldable pub assemble : Text → (Text → Text) → List Text → Text
unfolding assemble_from
assemble rest sections order = assemble_from sections order (trim_right is_break rest ++ 10 ∷ [])
