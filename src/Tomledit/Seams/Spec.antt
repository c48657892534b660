-- ===== src/Tomledit/Seams/Spec.antt =====
-- internal/tomledit/tomledit.go, `Split`: which tables of a document it takes out for a name, which
-- it leaves, and what their lines are.
use erdc_hpc_scripts.Base.{
  ℕ, ◌-◌, Bool, true, false, not, ◌&&◌, ◌||◌, List, [], ◌∷◌, ◌++◌, Text, text_eq, if◌then◌else◌,
  ◌==◌, take, drop,
}
use erdc_hpc_scripts.Tomledit.Doc.{Table}
use erdc_hpc_scripts.Tomledit.Seams.{is_no_name}

-- The part of a dotted path before its first dot.
unfoldable pub first_word : Text → Text
first_word [] = []
first_word (c ∷ path) = let rest = first_word path in if c == 46 then [] else c ∷ rest

-- One of the names is this one.
unfoldable pub is_among : Text → List Text → Bool
is_among n [] = false
is_among n (name ∷ names) = let rest = is_among n names in if text_eq name n then true else rest

-- A table is taken out for a name if that is the first word of its path and was asked for; it is
-- left if its first word was not asked for or is empty.
abbrev pub is_for : Text → List Text → Text → Bool
is_for n names path = text_eq (first_word path) n && is_among (first_word path) names

abbrev pub is_left : List Text → Text → Bool
is_left names path = is_no_name (first_word path) || not (is_among (first_word path) names)

-- Lines, each with its end.
unfoldable pub unlines : List Text → Text
unlines [] = []
unlines (line ∷ lines) = line ++ 10 ∷ unlines lines

-- The lines of a table.
abbrev pub span : List Text → ℕ → ℕ → List Text
span lines start end = take (end - start) (drop start lines)

-- The lines of the tables whose path is picked, table by table.
unfoldable pub spans : (Text → Bool) → List Text → List Table → List Text
spans picks lines [] = []
spans picks lines (t ∷ ts) =
    let rest = spans picks lines ts in
    if picks t.path then span lines t.start t.end ++ rest else rest
