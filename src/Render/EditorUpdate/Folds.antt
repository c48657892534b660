-- ===== src/Render/EditorUpdate/Folds.antt =====
-- internal/render/editor.go: what editing, patching and validating leave of the rows' folds, and what
-- a save expands.
use erdc_hpc_scripts.Base.{
  ℕ, zero, suc, ◌+◌, ◌<◌, ◌≡◌, refl, ◌∙◌, ap, Bool, true, false, Option, none, some, List, [], ◌∷◌,
  arith, Text, length, if◌then◌else◌,
}
use mathlib.Core.List.{map}
use erdc_hpc_scripts.Render.Form.{FormField}
use erdc_hpc_scripts.Render.EditorTree.{EdRow, visible}
use erdc_hpc_scripts.Render.EditorTree.Cursor.{IsParked}
use erdc_hpc_scripts.Render.Editor.{
  EditorPatch, update_row, validate_all, validate_at, set_value, apply, expand_above, first_invalid,
  apply_all, patch_row, patched,
}

-- Rows with the same folds and sizes: what the editor shows is the same.
abbrev pub SameFolds : List EdRow → List EdRow → Type 0
SameFolds [] [] = Unit
SameFolds [] (q ∷ qs) = ⊥
SameFolds (r ∷ rs) [] = ⊥
SameFolds (r ∷ rs) (q ∷ qs) =
    (r.expanded ≡ q.expanded) × (r.kids ≡ q.kids) × (r.depth ≡ q.depth) × SameFolds rs qs

pub SameFolds-length : (rs qs : List EdRow) → SameFolds rs qs → length rs ≡ length qs
SameFolds-length [] [] h = refl
SameFolds-length [] (q ∷ qs) h = absurd h
SameFolds-length (r ∷ rs) [] h = absurd h
SameFolds-length (r ∷ rs) (q ∷ qs) h = ap suc (SameFolds-length rs qs h.3)

SameFolds-visible : (rs qs : List EdRow) (i : ℕ) → SameFolds rs qs → visible rs i ≡ visible qs i
unfolding visible
SameFolds-visible [] [] i h = refl
SameFolds-visible [] (q ∷ qs) i h = absurd h
SameFolds-visible (r ∷ rs) [] i h = absurd h
SameFolds-visible (r ∷ rs) (q ∷ qs) zero h = refl
SameFolds-visible (r ∷ rs) (q ∷ qs) (suc i) h = rw (h.0, h.1, SameFolds-visible rs qs i h.3)

pub SameFolds-IsParked :
    (rs qs : List EdRow) (i : ℕ) → SameFolds rs qs → IsParked qs i → IsParked rs i
SameFolds-IsParked rs qs i h p =
    (omega (arith, SameFolds-length rs qs h), SameFolds-visible rs qs i h ∙ p.1)

pub SameFolds-refl : (rs : List EdRow) → SameFolds rs rs
SameFolds-refl [] = tt
SameFolds-refl (r ∷ rs) = (refl, refl, refl, SameFolds-refl rs)

pub SameFolds-trans : (rs qs ps : List EdRow) → SameFolds rs qs → SameFolds qs ps → SameFolds rs ps
SameFolds-trans [] [] ps h k = k
SameFolds-trans [] (q ∷ qs) ps h k = absurd h
SameFolds-trans (r ∷ rs) [] ps h k = absurd h
SameFolds-trans (r ∷ rs) (q ∷ qs) [] h k = absurd k
SameFolds-trans (r ∷ rs) (q ∷ qs) (p ∷ ps) h k =
    (h.0 ∙ k.0, h.1 ∙ k.1, h.2 ∙ k.2, SameFolds-trans rs qs ps h.3 k.3)

-- A change of a row that keeps its fold and its place.
abbrev KeepsFold : (EdRow → EdRow) → Type 0
KeepsFold f =
    (r : EdRow) → ((f r).expanded ≡ r.expanded) × ((f r).kids ≡ r.kids) × ((f r).depth ≡ r.depth)

update_row-SameFolds :
    (rs : List EdRow) (i : ℕ) (f : EdRow → EdRow) → KeepsFold f → SameFolds (update_row rs i f) rs
unfolding update_row
update_row-SameFolds [] i f k = tt
update_row-SameFolds (r ∷ rs) zero f k = ((k r).0, (k r).1, (k r).2, SameFolds-refl rs)
update_row-SameFolds (r ∷ rs) (suc i) f k = (refl, refl, refl, update_row-SameFolds rs i f k)

map-SameFolds : (rs : List EdRow) (f : EdRow → EdRow) → KeepsFold f → SameFolds (map f rs) rs
map-SameFolds [] f k = tt
map-SameFolds (r ∷ rs) f k = ((k r).0, (k r).1, (k r).2, map-SameFolds rs f k)

pub validate_all-SameFolds : (rs : List EdRow) → SameFolds (validate_all rs) rs
unfolding validate_all
validate_all-SameFolds rs = map-SameFolds rs _ (λ r. (refl, refl, refl))

patch_row-kept :
    (p : EditorPatch) (f : FormField) (r : EdRow)
    → ((patch_row p f r).expanded ≡ r.expanded)
      × ((patch_row p f r).kids ≡ r.kids)
      × ((patch_row p f r).depth ≡ r.depth)
unfolding patch_row
patch_row-kept p f r = ground arith

apply-SameFolds : (p : EditorPatch) (rs : List EdRow) → SameFolds (apply p rs) rs
unfolding apply
apply-SameFolds p [] = tt
apply-SameFolds p (r ∷ rs) = by_field r.field (apply-SameFolds p rs)
  where
    here :
        (b : Bool) (f : FormField)
        → SameFolds (apply p rs) rs
        → (let next : List EdRow = elim (if b then some (patch_row p f r) else none) [
          | some r' ↦ r' ∷ rs
          | none ↦ r ∷ apply p rs
        ] in
            SameFolds next (r ∷ rs))
    here true f ih = let k = patch_row-kept p f r in (k.0, k.1, k.2, SameFolds-refl rs)
    here false f ih = (refl, refl, refl, ih)

    by_field :
        (o : Option FormField)
        → SameFolds (apply p rs) rs
        → (let next : List EdRow = elim (patched p r o) [
          | some r' ↦ r' ∷ rs
          | none ↦ r ∷ apply p rs
        ] in
            SameFolds next (r ∷ rs))
    by_field none ih = (refl, refl, refl, ih)
    by_field (some f) ih = here _ f ih

pub apply_all-SameFolds : (ps : List EditorPatch) (rs : List EdRow) → SameFolds (apply_all ps rs) rs
unfolding apply_all
apply_all-SameFolds [] rs = SameFolds-refl rs
apply_all-SameFolds (p ∷ ps) rs =
    SameFolds-trans _ _ rs (apply_all-SameFolds ps _) (apply-SameFolds p rs)

pub validate_at-SameFolds :
    (rs : List EdRow) (i : ℕ) (v : Text)
    → SameFolds (validate_at (update_row rs i (set_value v)) i) rs
unfolding validate_at
validate_at-SameFolds rs i v =
    SameFolds-trans _ _ rs (update_row-SameFolds _ i _ (λ r. (refl, refl, refl)))
      (update_row-SameFolds rs i (set_value v) (λ r. (refl, refl, refl)))

-- Rows under an index change nothing of what is shown there.
visible-update_row :
    (rs : List EdRow) (i : ℕ) (f : EdRow → EdRow) → visible (update_row rs i f) i ≡ visible rs i
unfolding visible update_row
visible-update_row [] i f = refl
visible-update_row (r ∷ rs) zero f = refl
visible-update_row (r ∷ rs) (suc i) f = rw (visible-update_row rs i f)

length-update_row :
    (rs : List EdRow) (i : ℕ) (f : EdRow → EdRow) → length (update_row rs i f) ≡ length rs
unfolding update_row
length-update_row [] i f = refl
length-update_row (r ∷ rs) zero f = refl
length-update_row (r ∷ rs) (suc i) f = ap suc (length-update_row rs i f)

pub update_row-IsParked :
    (rs : List EdRow) (i : ℕ) (f : EdRow → EdRow) → IsParked rs i → IsParked (update_row rs i f) i
update_row-IsParked rs i f h =
    (omega (arith, length-update_row rs i f), visible-update_row rs i f ∙ h.1)

pub visible-expand_above : (rs : List EdRow) (i : ℕ) → visible (expand_above rs i) i ≡ true
unfolding visible expand_above
visible-expand_above [] i = refl
visible-expand_above (r ∷ rs) zero = refl
visible-expand_above (r ∷ rs) (suc i) = ground (arith, visible-expand_above rs i)

pub length-expand_above : (rs : List EdRow) (i : ℕ) → length (expand_above rs i) ≡ length rs
unfolding expand_above
length-expand_above [] i = refl
length-expand_above (r ∷ rs) zero = refl
length-expand_above (r ∷ rs) (suc i) = ap suc (length-expand_above rs i)

-- A row that `first_invalid` finds is there.
abbrev pub IsBelow : ℕ → Option ℕ → Type 0
IsBelow n none = Unit
IsBelow n (some i) = i < n

pub first_invalid-IsBelow : (rs : List EdRow) (i : ℕ) → IsBelow (i + length rs) (first_invalid rs i)
unfolding first_invalid
first_invalid-IsBelow [] i = tt
first_invalid-IsBelow (r ∷ rs) i =
    choose _ (first_invalid rs (suc i)) (first_invalid-IsBelow rs (suc i))
  where
    choose :
        (b : Bool) (o : Option ℕ)
        → IsBelow (suc i + length rs) o
        → IsBelow (i + suc (length rs)) (if b then some i else o)
    choose true o h = omega arith
    choose false none h = tt
    choose false (some j) h = omega arith
