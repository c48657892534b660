-- ===== src/Tomledit/Line.antt =====
-- internal/tomledit/tomledit.go: what a line of a TOML file is: a header, an assignment, a value with
-- its comment. Lines are lists of code points; the code compares ASCII bytes, which stand for
-- themselves in UTF-8.
use erdc_hpc_scripts.Base.{
  ℕ, Bool, true, false, ◌||◌, Option, none, some, [], ◌∷◌, ◌++◌, Text, ◌==◌, if◌then◌else◌,
}
use erdc_hpc_scripts.Base.GoStrings.{
  has_prefix, cut_prefix, trim_prefix, cut_last, trim_space, trim_left, cut,
}

abbrev named : Bool → Option (Text × Text) → Option (Text × Bool)
named array none = none
named array (some ([], rest)) = none
named array (some (c ∷ path, rest)) = some (trim_space (c ∷ path), array)

-- `header`: the dotted path of a table's header, and whether it is of the form `[[…]]`.
unfoldable pub header : Text → Option (Text × Bool)
unfolding has_prefix cut cut_prefix trim_space
header line =
    let s = trim_space line in
    let array = has_prefix s (91 ∷ 91 ∷ []) in
    let inner = trim_prefix (trim_prefix s (91 ∷ 91 ∷ [])) (91 ∷ []) in
    if has_prefix s (91 ∷ []) then named array (cut inner 93) else none

-- `parentPath`: what stands before the last dot.
unfoldable pub parent_path : Text → Option Text
parent_path [] = none
parent_path (c ∷ path) = elim (parent_path path) [
  | some l ↦ some (c ∷ l)
  | none ↦ if c == 46 then some [] else none
]

abbrev is_hash : ℕ → Bool
is_hash c = c == 35

abbrev assigned : Option Text → Bool → Option Bool
assigned none live = none
assigned (some rest) live = if has_prefix (trim_space rest) (61 ∷ []) then some live else none

-- `assigns`: whether a line assigns a key, and then whether it is live or commented out.
unfoldable pub assigns : Text → Text → Option Bool
unfolding has_prefix cut_prefix trim_space trim_left
assigns line key =
    let s = trim_space line in
    if has_prefix s (35 ∷ [])
    then assigned (cut_prefix (trim_space (trim_left is_hash s)) key) false
    else assigned (cut_prefix s key) true

-- The quote that is open behind a character.
abbrev next_quote : Option ℕ → ℕ → Option ℕ
next_quote none c = if c == 34 || c == 39 then some c else none
next_quote (some q) c = if c == q then none else some q

abbrev starts_comment : Option ℕ → ℕ → Bool
starts_comment none c = c == 35
starts_comment (some q) c = false

-- The loop of `splitComment`: the text before the comment, and the comment with what follows.
unfoldable pub split_from : Option ℕ → Text → Text × Text
split_from quote [] = ([], [])
split_from quote (c ∷ s) =
    let (value, comment) = split_from (next_quote quote c) s in
    if starts_comment quote c then ([], c ∷ s) else (c ∷ value, comment)

unfoldable pub split_comment : Text → Text × Text
unfolding split_from trim_space
split_comment s = let (value, comment) = split_from none s in (value, trim_space comment)

unfoldable pub strip_quotes : ℕ → Text → Option Text
unfolding cut_last
strip_quotes q [] = none
strip_quotes q (c ∷ s) = let rest = cut_last q s in if c == q then rest else none

abbrev first_found : Option Text → Option Text → Text → Text
first_found (some a) b s = a
first_found none (some b) s = b
first_found none none s = s

-- `Unquote`
unfoldable pub unquote : Text → Text
unfolding strip_quotes trim_space
unquote s = let t = trim_space s in first_found (strip_quotes 34 t) (strip_quotes 39 t) t

abbrev quoted : ℕ → Text
quoted c = if c == 92 || c == 34 then 92 ∷ c ∷ [] else c ∷ []

unfoldable pub quote_from : Text → Text
quote_from [] = 34 ∷ []
quote_from (c ∷ s) = quoted c ++ quote_from s

-- `Quote`
unfoldable pub quote : Text → Text
unfolding quote_from
quote s = 34 ∷ quote_from s
