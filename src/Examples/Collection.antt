-- ===== src/Examples/Collection.antt =====
-- internal/render/collection.go on small literals.
use erdc_hpc_scripts.Base.{◌≡◌, refl, false, List, [], ◌∷◌, Text, text_eq, codes, All}
use erdc_hpc_scripts.Base.Trim.{IsFree}
use erdc_hpc_scripts.Render.Form.{field_set, contains}
use erdc_hpc_scripts.Render.Editor.{space, KeyPress}
use erdc_hpc_scripts.Render.Literal.{parse_list, format_list, parse_map, format_map}
use erdc_hpc_scripts.Render.Literal.Items.{trimmed, parse_list-format_list}
use erdc_hpc_scripts.Render.Literal.Pairs.{IsPlain, trimmed_pairs, parse_map-format_map}
use erdc_hpc_scripts.Render.Collection.{
  Coll, new_coll_editor, update_coll_editor, shown_items, coll_literal,
}
use erdc_hpc_scripts.Render.Collection.Bounds.{
  IsInBounds, update_coll_editor-IsInBounds, new_coll_editor-IsInBounds,
}
use erdc_hpc_scripts.Render.Collection.Members.{shown_items-new_coll_editor}

abbrev two_names : List Text
two_names = codes " a" ∷ codes "b c" ∷ []

abbrev one_pair : List (Text × Text)
one_pair = (codes "k ", codes "v") ∷ []

abbrev fleet : Coll
fleet =
    new_coll_editor field_set (codes "fleet") (codes "[\"b\", \"z\"]") (codes "a" ∷ codes "b" ∷ [])

abbrev press_space : KeyPress
press_space = record { name = space; text = codes " " }

-- The stale name z stays checked behind the options.
fleet-literal : coll_literal fleet ≡ codes "[\"b\", \"z\"]"
unfolding new_coll_editor coll_literal text_eq
fleet-literal = refl

fleet-toggled : coll_literal (update_coll_editor press_space fleet) ≡ codes "[\"a\", \"b\", \"z\"]"
unfolding new_coll_editor coll_literal update_coll_editor text_eq
fleet-toggled = refl

-- An item with a comma is two items when it is read again.
comma_item : parse_list (format_list (codes "a,b" ∷ [])) ≡ codes "\"a" ∷ codes "b\"" ∷ []
unfolding parse_list format_list
comma_item = refl

two_names-AreFree : All (IsFree 44) two_names
two_names-AreFree = ((refl, (refl, tt)), ((refl, (refl, (refl, tt))), tt))

parse_list-format_list_example : parse_list (format_list two_names) ≡ trimmed two_names
parse_list-format_list_example = parse_list-format_list two_names two_names-AreFree

one_pair-ArePlain : All IsPlain one_pair
one_pair-ArePlain = (((refl, (refl, tt)), (refl, (refl, tt)), (refl, tt)), tt)

parse_map-format_map_example : parse_map (format_map one_pair) ≡ trimmed_pairs one_pair
parse_map-format_map_example = parse_map-format_map one_pair one_pair-ArePlain

update_coll_editor-IsInBounds_example : IsInBounds (update_coll_editor press_space fleet)
update_coll_editor-IsInBounds_example = update_coll_editor-IsInBounds press_space fleet (
    new_coll_editor-IsInBounds field_set (codes "fleet") (codes "[\"b\", \"z\"]")
      (codes "a" ∷ codes "b" ∷ []))

shown_items-new_coll_editor_example :
    contains (shown_items false fleet.rows) (codes "z")
    ≡ contains (parse_list (codes "[\"b\", \"z\"]")) (codes "z")
shown_items-new_coll_editor_example =
    shown_items-new_coll_editor (codes "fleet") (codes "[\"b\", \"z\"]")
      (codes "a" ∷ codes "b" ∷ []) (codes "z")
