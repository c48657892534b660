-- ===== src/Examples/Editor.antt =====
-- internal/render/editor.go on a small tree: a section with an enum, which wants "b", and a text.
use erdc_hpc_scripts.Base.{
  ℕ, ◌≡◌, refl, ◌↔◌, Bool, true, false, Option, none, some, List, [], ◌∷◌, arith, Text, codes,
  text_eq, if◌then◌else◌,
}
use mathlib.Core.List.{map}
use mathlib.Core.Option
use erdc_hpc_scripts.Render.Form.{FormField, field_text, field_enum, field_list}
use erdc_hpc_scripts.Render.EditorTree.{
  EditorNode, node, EditorNodes, nil, cons, EdRow, flatten, visible, next_visible, first_visible,
  visible_rows, forward, move,
}
use erdc_hpc_scripts.Render.EditorTree.Nesting.{IsShown, visible_iff}
use erdc_hpc_scripts.Render.EditorTree.Cursor.{Lands, move-Lands}
use erdc_hpc_scripts.Render.EditorScroll.{window_end, page_size, position_from, clamp_scroll}
use erdc_hpc_scripts.Render.Editor.{
  Editor, EditorPatch, apply_all, first_invalid, validate_all, save_key, KeyPress, KeyName, enter,
  other_key, leaf_values, validate_at,
}
use erdc_hpc_scripts.Render.Collection.{
  Coll, collection, update_coll_editor, new_coll_editor, coll_literal,
}
use erdc_hpc_scripts.Render.EditorUpdate.{
  Msg, key_press, window_size, update, new_editor, changes, save,
}
use erdc_hpc_scripts.Render.EditorUpdate.Safety.{IsShowing}
use erdc_hpc_scripts.Render.EditorUpdate.Session.{IsFine, run, session-IsFine}
use erdc_hpc_scripts.Render.EditorUpdate.Saving.{Saves, AreAmong, save-Saves, apply_all-AreAmong}

abbrev wants_b : Text → List Text → Text
wants_b v all = if text_eq v (codes "b") then [] else codes "no"

abbrev mode : FormField
mode = record {
  label = codes "m";
  value = codes "a";
  kind = field_enum;
  options = (codes "a") ∷ (codes "b") ∷ [];
  hint = [];
  validate = some wants_b;
}

abbrev note : FormField
note = record {
  label = codes "t";
  value = [];
  kind = field_text;
  options = [];
  hint = [];
  validate = none;
}

abbrev leaf : FormField → EditorNode
leaf f = node f.label [] (some f) [] [] [] nil

abbrev tree : EditorNodes
tree =
    cons (node (codes "s") [] none [] [] [] (cons (leaf mode) (cons (leaf note) nil)))
      (cons (leaf note) nil)

abbrev folded : List EdRow
folded = flatten tree 0 [] false

abbrev shown : Editor Coll
shown = new_editor tree true false

abbrev press_of : Text → KeyPress
press_of t = record { name = save_key; text = t }

folded-visible : map (visible folded) (0 ∷ 1 ∷ 2 ∷ 3 ∷ []) ≡ true ∷ false ∷ false ∷ true ∷ []
unfolding visible flatten
folded-visible = refl

-- Saving the folded tree opens it at the leaf that complains.
save_refused :
    Option.map {B = ℕ × Bool}
      (λ r. ((r.0).cursor, r.1))
      (update collection (key_press (press_of [])) shown)
    ≡ some (1, false)
unfolding update new_editor first_invalid validate_all flatten text_eq
save_refused = refl

shown-IsShowing : IsShowing shown
unfolding new_editor first_visible validate_all next_visible flatten visible visible_rows
    position_from clamp_scroll window_end page_size
shown-IsShowing = record {
  parked = (omega arith, refl);
  on_screen = (refl, omega arith, omega arith);
}

visible_iff_example : (visible folded 1 ≡ true) ↔ IsShown folded 1
unfolding flatten
visible_iff_example =
    visible_iff tree true folded 1 (refl, refl, (refl, refl, (refl, refl, (refl, refl, tt))))

move-Lands_example : Lands folded 0 forward (move folded 0 forward)
unfolding flatten
move-Lands_example = move-Lands folded 0 forward (omega arith)

abbrev names : FormField
names = record {
  label = codes "l";
  value = codes "[\"a\"]";
  kind = field_list;
  options = [];
  hint = [];
  validate = none;
}

abbrev key : KeyName → Text → Msg
key n t = key_press (record { name = n; text = t })

abbrev values_of : Option (Editor Coll × Bool) → List Text
values_of none = []
values_of (some (m, quits)) = leaf_values m.rows

-- The list is opened, gets an item and is closed: the leaf has the new literal.
list_edited :
    values_of (
      run collection
        (key enter []
          ∷ key other_key (codes "a")
          ∷ key other_key (codes "b")
          ∷ key save_key []
          ∷ [])
        (new_editor (cons (leaf names) nil) false false))
    ≡ codes "[\"a\", \"b\"]" ∷ []
unfolding run new_editor leaf_values update validate_all flatten first_visible next_visible visible
    update_coll_editor new_coll_editor validate_at coll_literal
list_edited = refl

session-IsFine_example :
    IsFine collection (run collection (key_press (press_of []) ∷ window_size 9 ∷ []) shown)
unfolding flatten
session-IsFine_example =
    session-IsFine collection tree true false (key_press (press_of []) ∷ window_size 9 ∷ [])
      (omega arith)

save-Saves_example : Saves shown (save shown)
save-Saves_example = save-Saves shown

abbrev late : EditorPatch
late = record {
  path = codes "s" ∷ codes "m" ∷ [];
  options = none;
  value = codes "b";
  hint = [];
  validate = none;
}

apply_all-AreAmong_example : AreAmong (changes (apply_all (late ∷ []) folded)) (changes folded)
apply_all-AreAmong_example = apply_all-AreAmong (late ∷ []) folded
