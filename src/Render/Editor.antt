-- ===== src/Render/Editor.antt =====
-- internal/render/editor.go: the editor's model and its `Update`. The focused sub-editor of a list,
-- map or set (collection.go) is the interface `CollEditor`. A key press is its name (`msg.String()`)
-- and its text (`msg.Key().Text`). `Update` returns the model and whether the program quits; an index
-- out of range or a missing field is a fault, `none`.
use erdc_hpc_scripts.Base.{
  ℕ, zero, suc, Bool, true, false, not, ◌&&◌, ◌||◌, Option, none, some, List, [], ◌∷◌, Text,
  text_eq, leb, if◌then◌else◌,
}
use mathlib.Core.List.{map}
use mathlib.Core.Option
use erdc_hpc_scripts.Render.Form.{
  FieldKind, field_enum, field_list, field_map, field_set, FormField, contains,
}
use erdc_hpc_scripts.Render.EditorTree.{EdRow}

pub data KeyName : Type 0 where
  ctrl_c esc save_key alt_save_key up shift_tab down tab pgup pgdown home end : KeyName
  action_key enter right left space backspace other_key : KeyName

pub record KeyPress : Type 0 where
  pub name : KeyName
  pub text : Text

pub record EditorPatch : Type 0 where
  pub path : List Text
  pub options : Option (List Text)
  pub value : Text
  pub hint : Text
  pub validate : Option (Text → List Text → Text)

pub record Change : Type 0 where
  pub path : List Text
  pub old : Text
  pub new : Text

pub record CollEditor (C : Type 0) : Type 0 where
  pub new_coll : FieldKind → Text → Text → List Text → C
  pub update_coll : KeyPress → C → C
  pub is_done : C → Bool
  pub is_cancelled : C → Bool
  pub literal : C → Text

pub record Editor (C : Type 0) : Type 0 where
  pub rows : List EdRow
  pub cursor : ℕ
  pub top : ℕ
  pub height : ℕ
  pub loading : Bool
  pub saved : Bool
  pub sub : Option C

abbrev pub is_collection : FieldKind → Bool
is_collection field_list = true
is_collection field_map = true
is_collection field_set = true
is_collection _ = false

abbrev pub is_empty : Text → Bool
is_empty [] = true
is_empty (c ∷ s) = false

-- A row at an index given anew; out of range nothing changes.
unfoldable pub update_row : List EdRow → ℕ → (EdRow → EdRow) → List EdRow
update_row [] i f = []
update_row (r ∷ rows) zero f = f r ∷ rows
update_row (r ∷ rows) (suc i) f = r ∷ update_row rows i f

abbrev pub field_values : Option FormField → List Text → List Text
field_values none vs = vs
field_values (some f) vs = f.value ∷ vs

unfoldable pub leaf_values : List EdRow → List Text
leaf_values [] = []
leaf_values (r ∷ rows) = field_values r.field (leaf_values rows)

abbrev pub complaint : Option FormField → List Text → Text
complaint none all = []
complaint (some f) all = elim f.validate [ none ↦ [] | some v ↦ v f.value all ]

-- `validate`, on the row and the values of all leaves.
abbrev pub validate_row : List Text → EdRow → EdRow
validate_row all r = record r { err = complaint r.field all }

-- A complaint is no value, so the values of the leaves stay as they are through the loop.
unfoldable pub validate_all : List EdRow → List EdRow
unfolding leaf_values
validate_all rows = map (validate_row (leaf_values rows)) rows

unfoldable pub validate_at : List EdRow → ℕ → List EdRow
unfolding leaf_values update_row
validate_at rows i = update_row rows i (validate_row (leaf_values rows))

abbrev pub set_value : Text → EdRow → EdRow
set_value v r = record r { field = Option.map (λ (f : FormField). record f { value = v }) r.field }

-- The rows that hide row `i` are expanded; the index counts from each row on, as in `visible`.
unfoldable pub expand_above : List EdRow → ℕ → List EdRow
expand_above [] i = []
expand_above (r ∷ rows) zero = r ∷ rows
expand_above (r ∷ rows) (suc i) =
    (if leb (suc i) r.kids then record r { expanded = true } else r) ∷ expand_above rows i

unfoldable pub first_invalid : List EdRow → ℕ → Option ℕ
first_invalid [] i = none
first_invalid (r ∷ rows) i =
    let rest = first_invalid rows (suc i) in if not (is_empty r.err) then some i else rest

unfoldable pub same_path : List Text → List Text → Bool
same_path [] [] = true
same_path [] (b ∷ bs) = false
same_path (a ∷ as') [] = false
same_path (a ∷ as') (b ∷ bs) = text_eq a b && same_path as' bs

abbrev pub or_kept {ℓ} : {A : Type ℓ} → Option A → A → A
or_kept none a = a
or_kept (some b) a = b

abbrev pub or_kept? {ℓ} : {A : Type ℓ} → Option A → Option A → Option A
or_kept? none a = a
or_kept? (some b) a = some b

abbrev pub is_enum : FieldKind → Bool
is_enum field_enum = true
is_enum _ = false

-- A patch of a leaf: the field, and the value at open, which a value that arrives replaces.
unfoldable pub patch_row : EditorPatch → FormField → EdRow → EdRow
unfolding contains
patch_row p f r =
    let f' : FormField = record f {
      options = or_kept p.options f.options;
      hint = if not (is_empty p.hint) then p.hint else f.hint;
      validate = or_kept? p.validate f.validate;
    } in
    if not (is_empty p.value) && (not (is_enum f'.kind) || contains f'.options p.value)
    then record r { field = some (record f' { value = p.value }); orig = p.value }
    else record r { field = some f' }

abbrev pub patched : EditorPatch → EdRow → Option FormField → Option EdRow
patched p r none = none
patched p r (some f) = if same_path r.path p.path then some (patch_row p f r) else none

-- `apply`: the first leaf with the patch's path.
unfoldable pub apply : EditorPatch → List EdRow → List EdRow
unfolding patch_row same_path
apply p [] = []
apply p (r ∷ rows) =
    let rest = r ∷ apply p rows in elim (patched p r r.field) [ some r' ↦ r' ∷ rows | none ↦ rest ]

unfoldable pub apply_all : List EditorPatch → List EdRow → List EdRow
apply_all [] rows = rows
apply_all (p ∷ patches) rows = apply_all patches (apply p rows)
