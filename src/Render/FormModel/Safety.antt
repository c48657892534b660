-- ===== src/Render/FormModel/Safety.antt =====
-- internal/render/form.go: a run of the form, from its fields to what it returns.
use erdc_hpc_scripts.Base.{
  ℕ, zero, suc, ◌+◌, ◌-◌, ◌<◌, ◌≡◌, refl, ap, Bool, true, false, Option, none, some, List, [], ◌∷◌,
  arith, Text, and_then, ltb, ◌==◌, length, length-map, get_elem?, get_elem-some, if◌then◌else◌,
  inl, inr, Bool-cases,
}
use mathlib.Core.List.{map}
use mathlib.Core.Option
use erdc_hpc_scripts.Render.Form.{FormField}
use erdc_hpc_scripts.Render.Editor.{
  KeyName, ctrl_c, esc, save_key, alt_save_key, up, shift_tab, down, tab, pgup, pgdown, home, end,
  action_key, enter, right, left, space, backspace, other_key, KeyPress,
}
use erdc_hpc_scripts.Render.EditorUpdate.{edit_field}
use erdc_hpc_scripts.Render.FormModel.{
  FieldPatch, FormModel, set_at, values, complaint_of, validate_fields, put_field, new_form_model,
  open_field, patched_field, patch_value, patch_at, apply_patch, apply_patches, put_edited,
  edit_form, first_error, quit_or_show, submit, FormMsg, patches_loaded, key_pressed, and_stay,
  field_down, press_form, update_form,
}
use erdc_hpc_scripts.Render.FormModel.Submitting.{AreValid, IsFirst, Finds, first_error-Finds}

-- Each field has its message and the cursor is on a field.
pub record IsWellFormed (m : FormModel) : Type 0 where
  pub messages : length m.errs ≡ length m.fields
  pub on_field : m.cursor < length m.fields

-- An outcome that is not a fault: the form stays well formed, or it quits, and if it is confirmed every
-- field is valid.
abbrev pub IsFine : Option (FormModel × Bool) → Type 0
IsFine none = ⊥
IsFine (some (m, true)) = m.confirmed ≡ true → AreValid (values m.fields) m.fields
IsFine (some (m, false)) = IsWellFormed m

length-set_at {ℓ} : {A : Type ℓ} (xs : List A) (i : ℕ) (a : A) → length (set_at xs i a) ≡ length xs
unfolding set_at
length-set_at [] i a = refl
length-set_at (x ∷ xs) zero a = refl
length-set_at (x ∷ xs) (suc i) a = ap suc (length-set_at xs i a)

IsFirst-length :
    (all : List Text) (fields : List FormField) (i : ℕ) → IsFirst all fields i → i < length fields
IsFirst-length all [] i h = absurd h
IsFirst-length all (f ∷ fields) zero h = omega arith
IsFirst-length all (f ∷ fields) (suc i) h = omega (arith, IsFirst-length all fields i h.1)

validate_fields-IsWellFormed :
    (m : FormModel) → m.cursor < length m.fields → IsWellFormed (validate_fields m)
unfolding validate_fields
validate_fields-IsWellFormed m h = record {
  messages = length-map (complaint_of (values m.fields)) m.fields;
  on_field = h;
}

submit-IsFine : (m : FormModel) → IsFine (some (submit m))
unfolding submit validate_fields
submit-IsFine m =
    by_error (first_error (map (complaint_of (values m.fields)) m.fields) 0)
      (first_error-Finds (values m.fields) m.fields 0)
  where
    by_error :
        (o : Option ℕ)
        → Finds (values m.fields) m.fields 0 o
        → IsFine (some (quit_or_show (validate_fields m) o))
    by_error none h = λ _. h
    by_error (some i) (k, e, h) = record {
      messages = length-map (complaint_of (values m.fields)) m.fields;
      on_field = omega (arith, e, IsFirst-length (values m.fields) m.fields k h);
    }

cursor-IsWellFormed :
    (m : FormModel) (i : ℕ)
    → i < length m.fields
    → IsWellFormed m
    → IsWellFormed (record m { cursor = i })
cursor-IsWellFormed m i h v = record { messages = v.messages; on_field = h }

put_edited-IsWellFormed :
    (m : FormModel) (f : FormField) (o : Option Text)
    → IsWellFormed m
    → IsWellFormed (put_edited m f o)
unfolding put_field
put_edited-IsWellFormed m f none v = v
put_edited-IsWellFormed m f (some t) v =
    let n = length-set_at m.fields m.cursor (record f { value = t }) in
    record {
      messages = omega (
        arith,
        n,
        length-set_at m.errs m.cursor (
            complaint_of (values (set_at m.fields m.cursor (record f { value = t })))
              (record f { value = t })),
        v.messages,
      );
      on_field = omega (arith, n, v.on_field);
    }

edit_form-IsFine :
    (k : KeyPress) (m : FormModel) → IsWellFormed m → IsFine (Option.map and_stay (edit_form k m))
unfolding edit_form
edit_form-IsFine k m v =
    let field = get_elem-some m.fields m.cursor v.on_field in
    rw field.1 (put_edited-IsWellFormed m field.0 (edit_field k field.0.kind field.0) v)

field_down-IsWellFormed : (m : FormModel) → IsWellFormed m → IsWellFormed (field_down m)
field_down-IsWellFormed m v =
    cursor-IsWellFormed m (if ltb m.cursor (length m.fields - 1) then m.cursor + 1 else m.cursor)
      (ground (arith, v.on_field)) v

press_form-IsFine :
    (n : KeyName) (k : KeyPress) (m : FormModel) → IsWellFormed m → IsFine (press_form n k m)
unfolding press_form
press_form-IsFine ctrl_c k m v = λ h. absurd cc
press_form-IsFine esc k m v = λ h. absurd cc
press_form-IsFine save_key k m v = submit-IsFine m
press_form-IsFine alt_save_key k m v = submit-IsFine m
press_form-IsFine enter k m v = elim (Bool-cases (m.cursor + 1 == length m.fields)) [
  | inl e ↦ rw e (submit-IsFine m)
  | inr e ↦ rw e (cursor-IsWellFormed m (m.cursor + 1) (ground (arith, v.on_field)) v)
]
press_form-IsFine up k m v = cursor-IsWellFormed m (m.cursor - 1) (omega (arith, v.on_field)) v
press_form-IsFine shift_tab k m v =
    cursor-IsWellFormed m (m.cursor - 1) (omega (arith, v.on_field)) v
press_form-IsFine down k m v = field_down-IsWellFormed m v
press_form-IsFine tab k m v = field_down-IsWellFormed m v
press_form-IsFine pgup k m v = edit_form-IsFine k m v
press_form-IsFine pgdown k m v = edit_form-IsFine k m v
press_form-IsFine home k m v = edit_form-IsFine k m v
press_form-IsFine end k m v = edit_form-IsFine k m v
press_form-IsFine action_key k m v = edit_form-IsFine k m v
press_form-IsFine right k m v = edit_form-IsFine k m v
press_form-IsFine left k m v = edit_form-IsFine k m v
press_form-IsFine space k m v = edit_form-IsFine k m v
press_form-IsFine backspace k m v = edit_form-IsFine k m v
press_form-IsFine other_key k m v = edit_form-IsFine k m v

-- A patch changes no number of fields and no cursor.
patches-keep :
    (ps : List FieldPatch) (m : FormModel)
    → (length (apply_patches m ps).fields ≡ length m.fields)
      × ((apply_patches m ps).cursor ≡ m.cursor)
unfolding apply_patches apply_patch
patches-keep [] m = (refl, refl)
patches-keep (p ∷ ps) m =
    let rest = patches-keep ps (patch_at m p (get_elem? m.fields p.index)) in
    let here = by_field (get_elem? m.fields p.index) in
    (omega (arith, rest.0, here.0), omega (arith, rest.1, here.1))
  where
    by_field :
        (o : Option FormField)
        → (length (patch_at m p o).fields ≡ length m.fields) × ((patch_at m p o).cursor ≡ m.cursor)
    by_field none = (refl, refl)
    by_field (some f) = (length-set_at m.fields p.index (patch_value p (patched_field p f)), refl)

update_form-IsFine : (msg : FormMsg) (m : FormModel) → IsWellFormed m → IsFine (update_form msg m)
unfolding update_form
update_form-IsFine (patches_loaded ps) m v =
    let kept = patches-keep ps (record m { loading = false }) in
    validate_fields-IsWellFormed (apply_patches (record m { loading = false }) ps)
      (omega (arith, kept.0, kept.1, v.on_field))
update_form-IsFine (key_pressed k) m v = press_form-IsFine k.name k m v

abbrev pub continue_with :
    (FormModel → Option (FormModel × Bool)) → FormModel × Bool → Option (FormModel × Bool)
continue_with rest (m, true) = some (m, true)
continue_with rest (m, false) = rest m

-- Messages in any order, up to the one that quits.
unfoldable pub run_form : List FormMsg → FormModel → Option (FormModel × Bool)
unfolding update_form
run_form [] m = some (m, false)
run_form (msg ∷ msgs) m = and_then (update_form msg m) (continue_with (λ n. run_form msgs n))

run_form-IsFine : (msgs : List FormMsg) (m : FormModel) → IsWellFormed m → IsFine (run_form msgs m)
unfolding run_form
run_form-IsFine [] m v = v
run_form-IsFine (msg ∷ msgs) m v =
    after (update_form msg m) (update_form-IsFine msg m v) (λ n. run_form-IsFine msgs n)
  where
    after :
        (o : Option (FormModel × Bool))
        → IsFine o
        → ((n : FormModel) → IsWellFormed n → IsFine (run_form msgs n))
        → IsFine (and_then o (continue_with (λ n. run_form msgs n)))
    after none v ih = absurd v
    after (some (n, true)) v ih = v
    after (some (n, false)) v ih = ih n v

-- A form that has a field never edits one that is not there, whatever keys and patches arrive in
-- whatever order, and if it returns values every field is valid under its rule, given the values
-- of all.
pub form-IsFine :
    (fields : List FormField) (has_load : Bool) (msgs : List FormMsg)
    → 0 < length fields
    → IsFine (run_form msgs (new_form_model fields has_load))
unfolding new_form_model
form-IsFine fields has_load msgs h =
    run_form-IsFine msgs (new_form_model fields has_load)
      (validate_fields-IsWellFormed opened (omega (arith, h, length-map open_field fields)))
  where
    opened : FormModel
    opened = record {
      fields = map open_field fields;
      errs = [];
      cursor = 0;
      loading = has_load;
      confirmed = false;
    }
