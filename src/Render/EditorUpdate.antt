-- ===== src/Render/EditorUpdate.antt =====
-- internal/render/editor.go, `Update` and the methods that it calls, over the model of Render/Editor.
use erdc_hpc_scripts.Base.{
  ℕ, zero, suc, Bool, true, false, not, ◌&&◌, ◌||◌, Option, none, some, List, [], ◌∷◌, ◌++◌, Text,
  get_elem?, if◌then◌else◌, text_eq,
}
use mathlib.Core.Option
use erdc_hpc_scripts.Render.Form.{
  FieldKind, field_text, field_enum, field_list, field_map, field_set, FormField, onward, backward,
  cycle_option,
}
use erdc_hpc_scripts.Render.EditorTree.{
  EditorNodes, EdRow, flatten, Dir, back, forward, move, page, first_visible, last_visible,
}
use erdc_hpc_scripts.Render.EditorScroll.{page_size, clamp_scroll}
use erdc_hpc_scripts.Render.Editor.{
  KeyName, ctrl_c, esc, save_key, alt_save_key, up, shift_tab, down, tab, pgup, pgdown, home, end,
  action_key, enter, right, left, space, backspace, other_key, KeyPress, EditorPatch, Change,
  CollEditor, Editor, is_collection, is_empty, update_row, validate_all, validate_at, set_value,
  expand_above, first_invalid, apply_all,
}
pub mod Folds
pub mod Safety
pub mod Total
pub mod Session
pub mod Saving

-- An enum without a value takes its first option when the editor opens.
abbrev pub first_option : FormField → List Text → FieldKind → FormField
first_option f (o ∷ options) field_enum = if is_empty f.value then record f { value = o } else f
first_option f _ _ = f

abbrev pub opened_row : EdRow → Option FormField → EdRow
opened_row r none = r
opened_row r (some f) =
    let f' = first_option f f.options f.kind in record r { field = some f'; orig = f'.value }

unfoldable pub open_rows : List EdRow → List EdRow
open_rows [] = []
open_rows (r ∷ rows) = opened_row r r.field ∷ open_rows rows

abbrev pub drop_last : Text → Text
drop_last [] = []
drop_last (c ∷ []) = []
drop_last (c ∷ d ∷ s) = c ∷ drop_last (d ∷ s)

-- `edit`, on a field: the new value, or nothing if the key is not the field's.
abbrev pub edit_enum : KeyName → FormField → Option Text
edit_enum right f = some (cycle_option f onward)
edit_enum space f = some (cycle_option f onward)
edit_enum left f = some (cycle_option f backward)
edit_enum _ f = none

abbrev pub edit_text : KeyPress → KeyName → FormField → Option Text
edit_text k backspace f = some (drop_last f.value)
edit_text k _ f = if not (is_empty k.text) then some (f.value ++ k.text) else none

abbrev pub edit_field : KeyPress → FieldKind → FormField → Option Text
edit_field k field_enum f = edit_enum k.name f
edit_field k field_text f = edit_text k k.name f
edit_field k _ f = some f.value

-- Folding, on the section at the cursor.
abbrev pub fold : KeyName → EdRow → EdRow
fold right r = record r { expanded = true }
fold left r = record r { expanded = false }
fold _ r = record r { expanded = not r.expanded }

abbrev pub opens : KeyName → Bool
opens enter = true
opens right = true
opens _ = false

abbrev pub toggle_mark : EdRow → EdRow
toggle_mark r = if not (is_empty r.action) then record r { marked = not r.marked } else r

abbrev pub has_field : Option EdRow → Bool
has_field none = false
has_field (some r) = elim r.field [ none ↦ false | some f ↦ true ]

pub data Msg : Type 0 where
  window_size : ℕ → Msg
  patches : List EditorPatch → Msg
  key_press : KeyPress → Msg

module _ {C : Type 0} where
  abbrev pub clamp : Editor C → Editor C
  clamp m = record m { top = clamp_scroll m.rows m.height m.cursor m.top }

  abbrev pub edited : Editor C → Option Text → Editor C
  edited m none = m
  edited m (some v) = record m {
    rows = validate_at (update_row m.rows m.cursor (set_value v)) m.cursor;
  }

  unfoldable pub edit : KeyPress → FormField → Editor C → Editor C
  edit k f m = edited m (edit_field k f.kind f)

  abbrev pub saved_or_shown : List EdRow → Editor C → Option ℕ → Editor C × Bool
  saved_or_shown rows m none = (record m { rows = rows; saved = true }, true)
  saved_or_shown rows m (some i) =
      (clamp (record m { rows = expand_above rows i; cursor = i }), false)

  unfoldable pub save : Editor C → Editor C × Bool
  save m = let rows = validate_all m.rows in saved_or_shown rows m (first_invalid rows 0)

  abbrev pub stays : Editor C → Option (Editor C × Bool)
  stays m = some (m, false)

  module _ (coll : CollEditor C) where
    -- The keys that fold a section, open a collection and edit another leaf.
    unfoldable pub press : KeyPress → EdRow → Option FormField → Editor C → Editor C
    unfolding edit
    press k r none m = clamp (record m { rows = update_row m.rows m.cursor (fold k.name) })
    press k r (some f) m =
        if is_collection f.kind
        then if opens k.name
          then record m { sub = some (coll.new_coll f.kind f.label f.value f.options) }
          else m
        else clamp (edit k f m)

    -- The other keys.
    unfoldable pub type_key : KeyPress → Option FormField → Editor C → Editor C
    unfolding edit
    type_key k none m = clamp m
    type_key k (some f) m = clamp (edit k f m)

    -- The `switch` on the key; `r` is the row at the cursor.
    unfoldable pub dispatch : KeyName → KeyPress → Editor C → Option (Editor C × Bool)
    unfolding save press type_key
    dispatch ctrl_c k m = some (record m { saved = false }, true)
    dispatch esc k m = some (record m { saved = false }, true)
    dispatch save_key k m = some (save m)
    dispatch alt_save_key k m = some (save m)
    dispatch up k m = stays (clamp (record m { cursor = move m.rows m.cursor back }))
    dispatch shift_tab k m = stays (clamp (record m { cursor = move m.rows m.cursor back }))
    dispatch down k m = stays (clamp (record m { cursor = move m.rows m.cursor forward }))
    dispatch tab k m = stays (clamp (record m { cursor = move m.rows m.cursor forward }))
    dispatch pgup k m =
        stays (clamp (record m { cursor = page (page_size m.height) m.rows m.cursor back }))
    dispatch pgdown k m =
        stays (clamp (record m { cursor = page (page_size m.height) m.rows m.cursor forward }))
    dispatch home k m = stays (clamp (record m { cursor = first_visible m.rows }))
    dispatch end k m = stays (clamp (record m { cursor = last_visible m.rows m.cursor }))
    dispatch action_key k m =
        Option.map
          (λ r. (clamp (record m { rows = update_row m.rows m.cursor toggle_mark }), false))
          (get_elem? m.rows m.cursor)
    dispatch enter k m =
        Option.map (λ (r : EdRow). (press k r r.field m, false)) (get_elem? m.rows m.cursor)
    dispatch right k m =
        Option.map (λ (r : EdRow). (press k r r.field m, false)) (get_elem? m.rows m.cursor)
    dispatch left k m =
        Option.map (λ (r : EdRow). (press k r r.field m, false)) (get_elem? m.rows m.cursor)
    dispatch space k m =
        Option.map (λ (r : EdRow). (press k r r.field m, false)) (get_elem? m.rows m.cursor)
    dispatch _ k m =
        Option.map (λ (r : EdRow). (type_key k r.field m, false)) (get_elem? m.rows m.cursor)

    -- An open sub-editor swallows the key; when it is done its literal goes back into the leaf.
    unfoldable pub press_sub : C → Editor C → Option (Editor C × Bool)
    press_sub c m =
        if coll.is_done c
        then if has_field (get_elem? m.rows m.cursor)
          then stays (
              clamp (record m {
                rows =
                    validate_at (update_row m.rows m.cursor (set_value (coll.literal c))) m.cursor;
                sub = none;
              }))
          else none
        else if coll.is_cancelled c
        then stays (record m { sub = none })
        else stays (record m { sub = some c })

    abbrev pub on_key : KeyPress → Option C → Editor C → Option (Editor C × Bool)
    on_key k none m = dispatch k.name k m
    on_key k (some c) m = press_sub (coll.update_coll k c) m

    unfoldable pub update : Msg → Editor C → Option (Editor C × Bool)
    unfolding dispatch press_sub
    update (window_size h) m = stays (clamp (record m { height = h }))
    update (patches ps) m =
        stays (clamp (record m { loading = false; rows = validate_all (apply_all ps m.rows) }))
    update (key_press k) m = on_key k m.sub m

  -- `newEditorModel`
  unfoldable pub new_editor : EditorNodes → Bool → Bool → Editor C
  unfolding open_rows
  new_editor root collapsed has_load =
      let rows = validate_all (open_rows (flatten root 0 [] (not collapsed))) in
      clamp (record {
        rows = rows;
        cursor = first_visible rows;
        top = 0;
        height = 24;
        loading = has_load;
        saved = false;
        sub = none;
      })

-- `changes`: the leaves whose value differs from that at open.
abbrev pub change_of : EdRow → Option FormField → List Change → List Change
change_of r none rest = rest
change_of r (some f) rest =
    if not (text_eq f.value r.orig)
    then record { path = r.path; old = r.orig; new = f.value } ∷ rest
    else rest

unfoldable pub changes : List EdRow → List Change
changes [] = []
changes (r ∷ rows) = change_of r r.field (changes rows)

pub record MarkedAction : Type 0 where
  pub path : List Text
  pub label : Text

-- `actions`: the sections that are marked.
unfoldable pub actions : List EdRow → List MarkedAction
actions [] = []
actions (r ∷ rows) =
    let rest = actions rows in
    if r.marked && not (is_empty r.action)
    then record { path = r.path; label = r.action } ∷ rest
    else rest
