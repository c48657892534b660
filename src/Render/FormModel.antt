-- ===== src/Render/FormModel.antt =====
-- internal/render/form.go: the model of the form, its messages and what `Form` returns. A nil slice or
-- function of a patch is `none`. A field or a message that is not there is a fault, `none`.
use erdc_hpc_scripts.Base.{
  ℕ, zero, suc, ◌+◌, ◌-◌, Bool, true, false, not, ◌&&◌, ◌||◌, Option, none, some, List, [], ◌∷◌,
  Text, and_then, ltb, ◌==◌, length, get_elem?, if◌then◌else◌,
}
use mathlib.Core.List.{map}
use mathlib.Core.Option
use erdc_hpc_scripts.Render.Form.{FormField, contains}
use erdc_hpc_scripts.Render.Editor.{
  KeyName, ctrl_c, esc, save_key, alt_save_key, up, shift_tab, down, tab, enter, KeyPress, is_empty,
  complaint, or_kept, or_kept?, is_enum,
}
use erdc_hpc_scripts.Render.EditorUpdate.{edit_field}
pub mod Submitting
pub mod Safety

-- `FieldPatch`
pub record FieldPatch : Type 0 where
  pub index : ℕ
  pub options : Option (List Text)
  pub value : Text
  pub hint : Text
  pub validate : Option (Text → List Text → Text)

-- `formModel`
pub record FormModel : Type 0 where
  pub fields : List FormField
  pub errs : List Text
  pub cursor : ℕ
  pub loading : Bool
  pub confirmed : Bool

-- The element of an index given anew; out of range nothing changes.
unfoldable pub set_at {ℓ} : {A : Type ℓ} → List A → ℕ → A → List A
set_at [] i a = []
set_at (x ∷ xs) zero a = a ∷ xs
set_at (x ∷ xs) (suc i) a = x ∷ set_at xs i a

abbrev pub value_of : FormField → Text
value_of f = f.value

-- `values`
abbrev pub values : List FormField → List Text
values fields = map value_of fields

abbrev pub complaint_of : List Text → FormField → Text
complaint_of all f = complaint (some f) all

-- `validateAll`; a message is no value, so the values stay as they are through the loop.
unfoldable pub validate_fields : FormModel → FormModel
validate_fields m = record m { errs = map (complaint_of (values m.fields)) m.fields }

-- `validate`, after field `i` has become `f`.
unfoldable pub put_field : FormModel → ℕ → FormField → FormModel
unfolding set_at
put_field m i f =
    let fields = set_at m.fields i f in
    record m { fields = fields; errs = set_at m.errs i (complaint_of (values fields) f) }

-- The first option as the value of an enum that has none.
abbrev pub first_option : FormField → List Text → FormField
first_option f [] = f
first_option f (o ∷ options) = record f { value = o }

abbrev pub open_field : FormField → FormField
open_field f = if is_enum f.kind && is_empty f.value then first_option f f.options else f

-- `newFormModel`
unfoldable pub new_form_model : List FormField → Bool → FormModel
unfolding validate_fields
new_form_model fields has_load = validate_fields (record {
  fields = map open_field fields;
  errs = [];
  cursor = 0;
  loading = has_load;
  confirmed = false;
})

abbrev pub patched_field : FieldPatch → FormField → FormField
patched_field p f = record f {
  options = or_kept p.options f.options;
  hint = if not (is_empty p.hint) then p.hint else f.hint;
  validate = or_kept? p.validate f.validate;
}

-- The value of a patch, which an enum takes only if it is an option.
unfoldable pub patch_value : FieldPatch → FormField → FormField
unfolding contains
patch_value p f =
    if not (is_empty p.value) && (not (is_enum f.kind) || contains f.options p.value)
    then record f { value = p.value }
    else f

-- `apply`
abbrev pub patch_at : FormModel → FieldPatch → Option FormField → FormModel
patch_at m p none = m
patch_at m p (some f) = record m {
  fields = set_at m.fields p.index (patch_value p (patched_field p f));
}

unfoldable pub apply_patch : FormModel → FieldPatch → FormModel
unfolding set_at patch_value
apply_patch m p = patch_at m p (get_elem? m.fields p.index)

unfoldable pub apply_patches : FormModel → List FieldPatch → FormModel
unfolding apply_patch
apply_patches m [] = m
apply_patches m (p ∷ ps) = apply_patches (apply_patch m p) ps

abbrev pub put_edited : FormModel → FormField → Option Text → FormModel
put_edited m f none = m
put_edited m f (some v) = put_field m m.cursor (record f { value = v })

-- `edit`, of a field: a key that is not the field's changes nothing.
abbrev pub edit_at : FormModel → KeyPress → FormField → FormModel
edit_at m k f = put_edited m f (edit_field k f.kind f)

-- `edit`
unfoldable pub edit_form : KeyPress → FormModel → Option FormModel
unfolding put_field
edit_form k m = Option.map (edit_at m k) (get_elem? m.fields m.cursor)

-- The first field with a message.
unfoldable pub first_error : List Text → ℕ → Option ℕ
first_error [] i = none
first_error (e ∷ errs) i =
    let rest = first_error errs (suc i) in if is_empty e then rest else some i

abbrev pub quit_or_show : FormModel → Option ℕ → FormModel × Bool
quit_or_show m none = (record m { confirmed = true }, true)
quit_or_show m (some i) = (record m { cursor = i }, false)

-- `submit`; the Boolean is whether the program quits.
unfoldable pub submit : FormModel → FormModel × Bool
unfolding validate_fields first_error
submit m = let m' = validate_fields m in quit_or_show m' (first_error m'.errs 0)

pub data FormMsg : Type 0 where
  patches_loaded : List FieldPatch → FormMsg
  key_pressed : KeyPress → FormMsg

abbrev pub and_stay : FormModel → FormModel × Bool
and_stay m = (m, false)

abbrev pub field_up : FormModel → FormModel
field_up m = record m { cursor = m.cursor - 1 }

abbrev pub field_down : FormModel → FormModel
field_down m = record m {
  cursor = if ltb m.cursor (length m.fields - 1) then m.cursor + 1 else m.cursor;
}

-- The keys.
unfoldable pub press_form : KeyName → KeyPress → FormModel → Option (FormModel × Bool)
unfolding submit edit_form
press_form ctrl_c k m = some (record m { confirmed = false }, true)
press_form esc k m = some (record m { confirmed = false }, true)
press_form save_key k m = some (submit m)
press_form alt_save_key k m = some (submit m)
press_form enter k m =
    if m.cursor + 1 == length m.fields
    then some (submit m)
    else some (record m { cursor = m.cursor + 1 }, false)
press_form up k m = some (field_up m, false)
press_form shift_tab k m = some (field_up m, false)
press_form down k m = some (field_down m, false)
press_form tab k m = some (field_down m, false)
press_form _ k m = Option.map and_stay (edit_form k m)

-- `Update`
unfoldable pub update_form : FormMsg → FormModel → Option (FormModel × Bool)
unfolding apply_patches validate_fields press_form
update_form (patches_loaded ps) m =
    some (validate_fields (apply_patches (record m { loading = false }) ps), false)
update_form (key_pressed k) m = press_form k.name k m

-- What `Form` returns when the program has ended with a model: nothing if it was cancelled.
abbrev pub form_result : FormModel → Option (List Text)
form_result m = if m.confirmed then some (values m.fields) else none
