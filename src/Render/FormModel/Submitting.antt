-- ===== src/Render/FormModel/Submitting.antt =====
-- internal/render/form.go: what `submit` accepts.
use erdc_hpc_scripts.Base.{
  ℕ, zero, suc, ◌+◌, ◌≡◌, refl, subst, ◌⊎◌, inl, inr, Bool, true, false, Option, none, some, List,
  [], ◌∷◌, arith, Text, if◌then◌else◌, All,
}
use mathlib.Core.List.{map}
use erdc_hpc_scripts.Render.Form.{FormField}
use erdc_hpc_scripts.Render.Editor.{is_empty}
use erdc_hpc_scripts.Render.FormModel.{
  FormModel, values, complaint_of, validate_fields, first_error, quit_or_show, submit,
}

-- No field has a complaint.
abbrev pub AreValid : List Text → List FormField → Type 0
AreValid all = All (λ f. complaint_of all f ≡ [])

-- Field `i` is the first one that has a complaint.
abbrev pub IsFirst : List Text → List FormField → ℕ → Type 0
IsFirst all [] i = ⊥
IsFirst all (f ∷ fields) zero = complaint_of all f ≡ [] → ⊥
IsFirst all (f ∷ fields) (suc i) = (complaint_of all f ≡ []) × IsFirst all fields i

abbrev pub Finds : List Text → List FormField → ℕ → Option ℕ → Type 0
Finds all fields i none = AreValid all fields
Finds all fields i (some j) = (k : ℕ) × (j ≡ i + k) × IsFirst all fields k

pub first_error-Finds :
    (all : List Text) (fields : List FormField) (i : ℕ)
    → Finds all fields i (first_error (map (complaint_of all) fields) i)
unfolding first_error
first_error-Finds all [] i = tt
first_error-Finds all (f ∷ fields) i =
    by_text (complaint_of all f) refl (first_error (map (complaint_of all) fields) (suc i))
      (first_error-Finds all fields (suc i))
  where
    by_text :
        (c : Text)
        → complaint_of all f ≡ c
        → (o : Option ℕ) → Finds all fields (suc i) o
        → Finds all (f ∷ fields) i (if is_empty c then o else some i)
    by_text [] e none h = (e, h)
    by_text [] e (some j) (k, at_k, h) = (suc k, omega (arith, at_k), (e, h))
    by_text (c ∷ cs) e o h = (0, omega arith, (λ n. cc))

-- A submission quits with the form confirmed and every field is valid, or it stays, with the cursor on
-- the first field that has a complaint; the fields are as they were.
abbrev pub Submits : FormModel → FormModel × Bool → Type 0
Submits m (n, quits) =
    (n.fields ≡ m.fields)
    × (((quits ≡ true) × (n.confirmed ≡ true) × AreValid (values m.fields) m.fields)
        ⊎ ((quits ≡ false)
            × (n.confirmed ≡ m.confirmed)
            × IsFirst (values m.fields) m.fields n.cursor))

-- A submission quits, confirmed and with every field valid under its rule, given the values of
-- all; or it is refused and puts the cursor on the first field that is not valid.
pub submit-Submits : (m : FormModel) → Submits m (submit m)
unfolding submit validate_fields
submit-Submits m =
    by_error (first_error (map (complaint_of (values m.fields)) m.fields) 0)
      (first_error-Finds (values m.fields) m.fields 0)
  where
    by_error :
        (o : Option ℕ)
        → Finds (values m.fields) m.fields 0 o
        → Submits m (quit_or_show (validate_fields m) o)
    by_error none h = (refl, inl (refl, refl, h))
    by_error (some i) (k, e, h) =
        let same : k ≡ i = omega (arith, e) in
        (refl, inr (refl, refl, subst (IsFirst (values m.fields) m.fields) same h))
