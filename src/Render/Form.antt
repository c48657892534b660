-- ===== src/Render/Form.antt =====
-- internal/render/form.go: the fields that the form and the tree editor share.
use Prim.Native.Nat.{ℕ, suc, ◌+◌, ◌-◌, ◌%◌}
use erdc_hpc_scripts.Base.{
  Bool, false, ◌||◌, Option, none, some, List, [], ◌∷◌, Text, text_eq, if◌then◌else◌, get_elem?,
  length, ◌==◌,
}
pub mod Contains

pub data FieldKind : Type 0 where
  field_text field_enum field_list field_map field_set : FieldKind

pub record FormField : Type 0 where
  pub label : Text
  pub value : Text
  pub kind : FieldKind
  pub options : List Text
  pub hint : Text
  pub validate : Option (Text → List Text → Text)  -- nil is always valid; "" accepts

unfoldable pub contains : List Text → Text → Bool
contains [] s = false
contains (v ∷ ss) s = text_eq v s || contains ss s

-- The index that a field's value has among its options.
unfoldable pub index_from : List Text → Text → ℕ → Option ℕ
index_from [] s i = none
index_from (o ∷ options) s i =
    let rest = index_from options s (suc i) in if text_eq o s then some i else rest

abbrev or_empty : Option Text → Text
or_empty none = []
or_empty (some s) = s

pub data Step : Type 0 where
  onward backward : Step

-- `((i+dir)%n+n)%n` for a `dir` of 1 or -1.
abbrev pub step_index : Step → ℕ → ℕ → ℕ
step_index onward n i = (i + 1) % n
step_index backward n i = (i + n - 1) % n

abbrev pub pick : List Text → Step → Option ℕ → Text
pick options dir none = or_empty (get_elem? options 0)
pick options dir (some i) = or_empty (get_elem? options (step_index dir (length options) i))

-- `cycleOption`
unfoldable pub cycle_option : FormField → Step → Text
unfolding index_from
cycle_option f dir =
    if length f.options == 0 then f.value else pick f.options dir (index_from f.options f.value 0)
