-- ===== src/Render/Picker/Facets.antt =====
-- internal/render/select.go: the facet filter of the picker, the values of one column in turn.
use erdc_hpc_scripts.Base.{
  ℕ, zero, suc, ◌-◌, Bool, true, false, ◌&&◌, ◌||◌, Option, none, some, List, [], ◌∷◌, Text,
  text_eq, ltb, ◌==◌, get_elem?, if◌then◌else◌,
}
use mathlib.Core.List.{map}
use erdc_hpc_scripts.Render.Form.{contains}
use erdc_hpc_scripts.Render.Editor.{is_empty}
use erdc_hpc_scripts.Render.Picker.Filter.{SelectRow}
pub mod Values
pub mod Cycle

abbrev pub or_empty : Option Text → Text
or_empty none = []
or_empty (some c) = c

-- `facetCell`; the column counts from 1, and 0 is no column.
abbrev pub facet_cell : ℕ → SelectRow → Text
facet_cell zero r = []
facet_cell (suc i) r = or_empty (get_elem? r.cells i)

-- The order of strings in Go: by bytes of UTF-8, which is by code points.
unfoldable pub text_leb : Text → Text → Bool
text_leb [] t = true
text_leb (c ∷ s) [] = false
text_leb (c ∷ s) (d ∷ t) = ltb c d || (c == d && text_leb s t)

unfoldable pub sort_onto : Text → List Text → List Text
unfolding text_leb
sort_onto v [] = v ∷ []
sort_onto v (w ∷ vs) = let rest = sort_onto v vs in if text_leb v w then v ∷ w ∷ vs else w ∷ rest

-- `sort.Strings`
unfoldable pub sort_strings : List Text → List Text
unfolding sort_onto
sort_strings [] = []
sort_strings (v ∷ vs) = sort_onto v (sort_strings vs)

-- The loop of `facetValues`: the cells that are not empty and were not seen before.
unfoldable pub new_values : List Text → List Text → List Text
unfolding contains
new_values seen [] = []
new_values seen (v ∷ vs) =
    let old = is_empty v || contains seen v in
    let rest = new_values (if old then seen else v ∷ seen) vs in if old then rest else v ∷ rest

-- `facetValues`
unfoldable pub facet_values : ℕ → List SelectRow → List Text
unfolding new_values sort_strings
facet_values col rows = sort_strings (new_values [] (map (facet_cell col) rows))

abbrev pub or_all : List Text → Text
or_all [] = []
or_all (v ∷ vs) = v

-- The loop of `nextFacet`, which has `first` if it does not find the value.
unfoldable pub next_from : List Text → Text → Text → Text
unfolding text_eq
next_from [] first v = first
next_from (w ∷ vs) first v =
    let rest = next_from vs first v in if text_eq w v then or_all vs else rest

-- `nextFacet`, from the values
abbrev pub next_value : List Text → Text → Text
next_value vals v = if is_empty v then or_all vals else next_from vals (or_all vals) v

-- `nextFacet`
unfoldable pub next_facet : ℕ → List SelectRow → Text → Text
unfolding facet_values next_from
next_facet col rows v = next_value (facet_values col rows) v
