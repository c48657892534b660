-- ===== src/Render/EditorUpdate/Saving.antt =====
-- internal/render/editor.go: when `save` quits, and what `changes` reports.
use erdc_hpc_scripts.Base.{
  ℕ, zero, suc, ◌+◌, ◌≡◌, refl, subst, ◌↔◌, ◌⊎◌, inl, inr, Bool, true, false, not, Option, none,
  some, List, [], ◌∷◌, arith, Text, All, Any, if◌then◌else◌, text_eq,
}
use mathlib.Core.List.{map}
use erdc_hpc_scripts.Render.Form.{FormField}
use erdc_hpc_scripts.Render.EditorTree.{EdRow}
use erdc_hpc_scripts.Render.Editor.{
  Editor, Change, or_kept, or_kept?, EditorPatch, complaint, validate_row, validate_all,
  leaf_values, is_empty, first_invalid, patched, patch_row, apply, apply_all,
}
use erdc_hpc_scripts.Render.EditorUpdate.{save, saved_or_shown, changes, change_of}

is_empty_iff : (s : Text) → (is_empty s ≡ true) ↔ (s ≡ [])
is_empty_iff [] = ((λ h. refl), (λ h. refl))
is_empty_iff (c ∷ s) = ((λ h. cc), (λ h. cc))

-- No row complains.
abbrev pub AreValid : List Text → List EdRow → Type 0
AreValid all = All (λ r. complaint r.field all ≡ [])

-- Row `i` is the first one that complains.
abbrev pub IsFirstInvalid : List Text → List EdRow → ℕ → Type 0
IsFirstInvalid all [] i = ⊥
IsFirstInvalid all (r ∷ rows) zero = complaint r.field all ≡ [] → ⊥
IsFirstInvalid all (r ∷ rows) (suc i) = (complaint r.field all ≡ []) × IsFirstInvalid all rows i

-- What the search for an invalid row finds.
abbrev Finds : List Text → List EdRow → ℕ → Option ℕ → Type 0
Finds all rows i none = AreValid all rows
Finds all rows i (some j) = (k : ℕ) × (j ≡ i + k) × IsFirstInvalid all rows k

first_invalid-Finds :
    (all : List Text) (rows : List EdRow) (i : ℕ)
    → Finds all rows i (first_invalid (map (validate_row all) rows) i)
unfolding first_invalid
first_invalid-Finds all [] i = tt
first_invalid-Finds all (r ∷ rows) i =
    by_text (complaint r.field all) refl (first_invalid (map (validate_row all) rows) (suc i))
      (first_invalid-Finds all rows (suc i))
  where
    by_text :
        (c : Text)
        → complaint r.field all ≡ c
        → (o : Option ℕ) → Finds all rows (suc i) o
        → Finds all (r ∷ rows) i (if not (is_empty c) then some i else o)
    by_text [] e none h = (e, h)
    by_text [] e (some j) (k, at_k, h) = (suc k, omega (arith, at_k), (e, h))
    by_text (c ∷ cs) e o h = (0, omega arith, (λ n. cc))

-- What a save does: it quits as saved and every row is valid, or it stays, not saved, with the cursor
-- on the first row that complains.
abbrev pub Saves : {C : Type 0} → Editor C → Editor C × Bool → Type 0
Saves m (m', quits) =
    ((quits ≡ true) × (m'.saved ≡ true) × AreValid (leaf_values m.rows) m.rows)
    ⊎ ((quits ≡ false)
        × (m'.saved ≡ m.saved)
        × IsFirstInvalid (leaf_values m.rows) m.rows m'.cursor)

-- A save of the editor quits with every field valid under its rule, given the values of all
-- leaves, or it is refused and puts the cursor on the first field that is not valid.
pub save-Saves : {C : Type 0} (m : Editor C) → Saves m (save m)
unfolding save validate_all
save-Saves m = by_search (first_invalid rows 0) (first_invalid-Finds (leaf_values m.rows) m.rows 0)
  where
    rows : List EdRow
    rows = map (validate_row (leaf_values m.rows)) m.rows

    by_search :
        (o : Option ℕ) → Finds (leaf_values m.rows) m.rows 0 o → Saves m (saved_or_shown rows m o)
    by_search none h = inl (refl, refl, h)
    by_search (some i) (k, at_k, h) =
        let same : k ≡ i = omega (arith, at_k) in
        inr (refl, refl, subst (IsFirstInvalid (leaf_values m.rows) m.rows) same h)

-- The changes that one list of rows reports are among those of another, in their order.
abbrev pub AreAmong : List Change → List Change → Type 0
AreAmong cs ds = (c : Change) → Any (λ d. d ≡ c) cs → Any (λ d. d ≡ c) ds

AreAmong-refl : (cs : List Change) → AreAmong cs cs
AreAmong-refl cs c h = h

-- What a row reports stays or goes, and so do the others.
change_of_mono :
    (r : EdRow) (o : Option FormField) (cs ds : List Change)
    → AreAmong cs ds
    → AreAmong (change_of r o cs) (change_of r o ds)
change_of_mono r none cs ds h = h
change_of_mono r (some f) cs ds h = by_test (not (text_eq f.value r.orig))
  where
    by_test :
        (b : Bool)
        → (let e : Change = record { path = r.path; old = r.orig; new = f.value } in
            AreAmong (if b then e ∷ cs else cs) (if b then e ∷ ds else ds))
    by_test true c (inl e) = inl e
    by_test true c (inr k) = inr (h c k)
    by_test false c k = h c k

text_eq_refl : (s : Text) → text_eq s s ≡ true
unfolding text_eq
text_eq_refl [] = refl
text_eq_refl (c ∷ s) = ground (arith, text_eq_refl s)

-- A patched row reports what it reported, or nothing.
patch_row-AreAmong :
    (p : EditorPatch) (f : FormField) (r : EdRow) (cs : List Change)
    → AreAmong (change_of (patch_row p f r) (patch_row p f r).field cs) (change_of r (some f) cs)
unfolding patch_row
patch_row-AreAmong p f r cs = by_test _
  where
    merged : FormField
    merged = record f {
      options = or_kept p.options f.options;
      hint = if not (is_empty p.hint) then p.hint else f.hint;
      validate = or_kept? p.validate f.validate;
    }

    by_test :
        (b : Bool)
        → (let r' : EdRow =
              if b
              then record r { field = some (record merged { value = p.value }); orig = p.value }
              else record r { field = some merged } in
            AreAmong (change_of r' r'.field cs) (change_of r (some f) cs))
    by_test true c h = later _ (rw (text_eq_refl p.value) at h)
      where
        later :
            (b : Bool)
            → Any (λ d. d ≡ c) cs
            → (let e : Change = record { path = r.path; old = r.orig; new = f.value } in
                Any (λ d. d ≡ c) (if b then e ∷ cs else cs))
        later true k = inr k
        later false k = k
    by_test false c h = h

apply-AreAmong :
    (p : EditorPatch) (rows : List EdRow) → AreAmong (changes (apply p rows)) (changes rows)
unfolding apply changes
apply-AreAmong p [] = AreAmong-refl []
apply-AreAmong p (r ∷ rows) = by_field r.field refl (apply-AreAmong p rows)
  where
    here :
        (b : Bool) (f : FormField)
        → r.field ≡ some f
        → AreAmong (changes (apply p rows)) (changes rows)
        → (let next : List EdRow = elim (if b then some (patch_row p f r) else none) [
          | some r' ↦ r' ∷ rows
          | none ↦ r ∷ apply p rows
        ] in
            AreAmong (changes next) (change_of r (some f) (changes rows)))
    here true f e ih = patch_row-AreAmong p f r (changes rows)
    here false f e ih = rw e (change_of_mono r (some f) _ _ ih)

    by_field :
        (o : Option FormField)
        → r.field ≡ o
        → AreAmong (changes (apply p rows)) (changes rows)
        → (let next : List EdRow = elim (patched p r o) [
          | some r' ↦ r' ∷ rows
          | none ↦ r ∷ apply p rows
        ] in
            AreAmong (changes next) (change_of r o (changes rows)))
    by_field none e ih = rw e ih
    by_field (some f) e ih = here _ f e ih

-- A patch that arrives late is never reported as a change: every change that the editor reports
-- after any patches it reported before them.
pub apply_all-AreAmong :
    (ps : List EditorPatch) (rows : List EdRow)
    → AreAmong (changes (apply_all ps rows)) (changes rows)
unfolding apply_all
apply_all-AreAmong [] rows c h = h
apply_all-AreAmong (p ∷ ps) rows c h =
    apply-AreAmong p rows c (apply_all-AreAmong ps (apply p rows) c h)
