-- ===== src/Examples/Form.antt =====
-- internal/render/form.go on two fields: a text, which wants "b", and an enum.
use erdc_hpc_scripts.Base.{
  ◌≡◌, refl, Bool, false, none, some, List, [], ◌∷◌, arith, Text, text_eq, codes, and_then,
  if◌then◌else◌,
}
use erdc_hpc_scripts.Render.Form.{FormField, field_text, field_enum, cycle_option}
use erdc_hpc_scripts.Render.Editor.{save_key, other_key, right, down}
use erdc_hpc_scripts.Render.FormModel.{FormModel, FormMsg, key_pressed, new_form_model, form_result}
use erdc_hpc_scripts.Render.FormModel.Safety.{IsFine, run_form, form-IsFine}

abbrev wants_b : Text → List Text → Text
wants_b v all = if text_eq v (codes "b") then [] else codes "no"

abbrev fields : List FormField
fields =
    record {
      label = codes "t";
      value = [];
      kind = field_text;
      options = [];
      hint = [];
      validate = some wants_b;
    }
    ∷ record {
      label = codes "q";
      value = [];
      kind = field_enum;
      options = codes "std" ∷ codes "debug" ∷ [];
      hint = [];
      validate = none;
    }
    ∷ []

abbrev typing : List FormMsg
typing =
    key_pressed (record { name = save_key; text = [] })
    ∷ key_pressed (record { name = other_key; text = codes "b" })
    ∷ key_pressed (record { name = down; text = [] })
    ∷ key_pressed (record { name = right; text = [] })
    ∷ key_pressed (record { name = save_key; text = [] })
    ∷ []

-- The first submission is refused, the second one returns the values.
typed :
    and_then
      (run_form typing (new_form_model fields false))
      (λ (n : FormModel × Bool). form_result n.0)
    ≡ some (codes "b" ∷ codes "debug" ∷ [])
unfolding run_form new_form_model text_eq cycle_option
typed = refl

form-IsFine_example : IsFine (run_form typing (new_form_model fields false))
form-IsFine_example = form-IsFine fields false typing (omega arith)
