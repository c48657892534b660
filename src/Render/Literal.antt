-- ===== src/Render/Literal.antt =====
-- internal/render/collection.go: the literals of lists and maps, as one line of TOML. A pair is a key
-- and a value.
use erdc_hpc_scripts.Base.{ℕ, Option, none, some, List, [], ◌∷◌, ◌++◌, Text, ◌==◌, if◌then◌else◌}
use erdc_hpc_scripts.Base.GoStrings.{
  trim_space, trim_prefix, cut_prefix, cut_last, or_whole, split, cut, join_with,
}
pub mod Items
pub mod Pairs

-- `TrimSuffix` of one character.
abbrev pub trim_last : Text → ℕ → Text
trim_last s q = or_whole s (cut_last q s)

abbrev pub between_quotes : Text → Option Text
between_quotes [] = none
between_quotes (c ∷ s) = if c == 34 then cut_last 34 s else none

-- `unquoteLit`
unfoldable pub unquote_lit : Text → Text
unfolding cut_last
unquote_lit s = or_whole s (between_quotes s)

-- `quoteLit`
abbrev pub quote_lit : Text → Text
quote_lit s = 34 ∷ (s ++ 34 ∷ [])

abbrev pub onto_full : Text → List Text → List Text
onto_full [] items = items
onto_full (c ∷ v) items = (c ∷ v) ∷ items

-- The loop of `parseList` over the parts.
unfoldable pub list_items : List Text → List Text
unfolding unquote_lit trim_space
list_items [] = []
list_items (p ∷ ps) = onto_full (unquote_lit (trim_space p)) (list_items ps)

-- The parts of a literal between its brackets.
unfoldable pub parts_of : Text → ℕ → Text → List Text
unfolding trim_space cut_prefix cut_last split
parts_of op cl lit = split (trim_last (trim_prefix (trim_space lit) op) cl) 44

-- `parseList`
unfoldable pub parse_list : Text → List Text
unfolding list_items parts_of
parse_list lit = list_items (parts_of (91 ∷ []) 93 lit)

abbrev pub onto_pair : Text → Text → List (Text × Text) → List (Text × Text)
onto_pair [] v pairs = pairs
onto_pair (c ∷ k) v pairs = (c ∷ k, v) ∷ pairs

abbrev pub onto_assigned : Option (Text × Text) → List (Text × Text) → List (Text × Text)
onto_assigned none pairs = pairs
onto_assigned (some (k, v)) pairs = onto_pair (trim_space k) (unquote_lit (trim_space v)) pairs

-- The loop of `parseMap` over the parts.
unfoldable pub map_pairs : List Text → List (Text × Text)
unfolding unquote_lit trim_space cut
map_pairs [] = []
map_pairs (p ∷ ps) = onto_assigned (cut (trim_space p) 61) (map_pairs ps)

-- `parseMap`
unfoldable pub parse_map : Text → List (Text × Text)
unfolding map_pairs parts_of
parse_map lit = map_pairs (parts_of (123 ∷ []) 125 lit)

abbrev pub onto_quoted : Text → List Text → List Text
onto_quoted [] xs = xs
onto_quoted (c ∷ s) xs = quote_lit (c ∷ s) ∷ xs

unfoldable pub quoted_items : List Text → List Text
unfolding trim_space
quoted_items [] = []
quoted_items (it ∷ items) = onto_quoted (trim_space it) (quoted_items items)

abbrev pub comma : Text
comma = 44 ∷ 32 ∷ []

abbrev pub in_brackets : Text → Text → List Text → Text
in_brackets op cl [] = []
in_brackets op cl (x ∷ xs) = op ++ (join_with (x ∷ xs) comma ++ cl)

-- `formatList`
unfoldable pub format_list : List Text → Text
unfolding quoted_items join_with
format_list items = in_brackets (91 ∷ []) (93 ∷ []) (quoted_items items)

abbrev pub onto_entry : Text → Text → List Text → List Text
onto_entry [] v xs = xs
onto_entry (c ∷ k) v xs = ((c ∷ k) ++ (32 ∷ 61 ∷ 32 ∷ quote_lit v)) ∷ xs

unfoldable pub quoted_pairs : List (Text × Text) → List Text
unfolding trim_space
quoted_pairs [] = []
quoted_pairs ((k, v) ∷ pairs) = onto_entry (trim_space k) (trim_space v) (quoted_pairs pairs)

-- `formatMap`
unfoldable pub format_map : List (Text × Text) → Text
unfolding quoted_pairs join_with
format_map pairs = in_brackets (123 ∷ 32 ∷ []) (32 ∷ 125 ∷ []) (quoted_pairs pairs)
