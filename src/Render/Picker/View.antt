-- ===== src/Render/Picker/View.antt =====
-- internal/render/select.go: the view of the rows that `recompute` makes.
use erdc_hpc_scripts.Base.{
  ℕ, zero, suc, ◌+◌, ◌≤◌, ◌<◌, ◌≡◌, refl, ap, Bool, false, Option, none, some, List, [], ◌∷◌, arith,
  Text, text_eq, text_eq_sound, length, get_elem?, get_elem-some, inl, inr, Bool-cases, All,
}
use mathlib.Core.Option
use erdc_hpc_scripts.Render.Form.{contains}
use erdc_hpc_scripts.Render.Picker.Filter.{SelectRow}
use erdc_hpc_scripts.Render.Picker.Model.{shown_from, row_at}
use erdc_hpc_scripts.Render.Picker.Update.{id_of, find_id, shown_ids}

-- Every index of a view is one of `n` rows.
abbrev pub AreWithin : ℕ → List ℕ → Type 0
AreWithin n = All (λ i. i < n)

within_mono : (n k : ℕ) (is : List ℕ) → n ≤ k → AreWithin n is → AreWithin k is
within_mono n k [] h w = tt
within_mono n k (i ∷ is) h w = (omega (arith, w.0), within_mono n k is h w.1)

shown_from-AreWithin :
    (f : SelectRow → Bool) (rows : List SelectRow) (i : ℕ)
    → AreWithin (i + length rows) (shown_from f rows i)
unfolding shown_from
shown_from-AreWithin f [] i = tt
shown_from-AreWithin f (r ∷ rows) i =
    let rest : AreWithin (i + length (r ∷ rows)) (shown_from f rows (suc i)) =
      within_mono (suc i + length rows) (i + length (r ∷ rows)) _ (omega arith)
        (shown_from-AreWithin f rows (suc i)) in
    elim (Bool-cases (f r)) [ inl b ↦ rw b (omega arith, rest) | inr b ↦ rw b rest ]

pub view-AreWithin :
    (f : SelectRow → Bool) (rows : List SelectRow) → AreWithin (length rows) (shown_from f rows 0)
view-AreWithin f rows = within_mono _ _ _ (omega arith) (shown_from-AreWithin f rows 0)

-- The row at a position of the view is there.
pub row_at-some :
    (rows : List SelectRow) (visible : List ℕ) (i : ℕ)
    → AreWithin (length rows) visible
    → i < length visible
    → (r : SelectRow) × (row_at rows (get_elem? visible i) ≡ some r)
unfolding row_at
row_at-some rows [] i w h = absurd (omega arith)
row_at-some rows (idx ∷ visible) zero w h = get_elem-some rows idx w.0
row_at-some rows (idx ∷ visible) (suc i) w h = row_at-some rows visible i w.1 (omega arith)

-- The ids of a view are there.
pub shown_ids-some :
    (rows : List SelectRow) (visible : List ℕ)
    → AreWithin (length rows) visible
    → (ids : List Text) × (shown_ids rows visible ≡ some ids)
unfolding shown_ids
shown_ids-some rows [] w = ([], refl)
shown_ids-some rows (idx ∷ visible) w =
    let row = get_elem-some rows idx w.0 in
    let rest = shown_ids-some rows visible w.1 in (row.0.id ∷ rest.0, rw (row.1, rest.1) refl)

-- What the search for an id from position `i` on has found: the position of a row with the id, or that
-- no row of the view has it.
abbrev pub Found : List SelectRow → List ℕ → Text → ℕ → Option ℕ → Type 0
Found rows visible id i none =
    (ids : List Text) × (shown_ids rows visible ≡ some ids) × (contains ids id ≡ false)
Found rows visible id i (some j) =
    (k : ℕ) × (j ≡ i + k)
    × (k < length visible)
    × (Option.map id_of (row_at rows (get_elem? visible k)) ≡ some id)

pub find_id-Found :
    (rows : List SelectRow) (visible : List ℕ) (id : Text) (i : ℕ)
    → AreWithin (length rows) visible
    → (o : Option ℕ) × (find_id rows visible id i ≡ some o) × Found rows visible id i o
unfolding find_id row_at shown_ids contains
find_id-Found rows [] id i w = (none, refl, ([], refl, refl))
find_id-Found rows (idx ∷ visible) id i w =
    by_row (get_elem-some rows idx w.0).0 (get_elem-some rows idx w.0).1
      (find_id-Found rows visible id (suc i) w.1)
  where
    by_row :
        (r : SelectRow)
        → get_elem? rows idx ≡ some r
        → ((o : Option ℕ) × (find_id rows visible id (suc i) ≡ some o)
            × Found rows visible id (suc i) o)
        → (o : Option ℕ) × (find_id rows (idx ∷ visible) id i ≡ some o)
          × Found rows (idx ∷ visible) id i o
    by_row r e (o, s, found) = elim (Bool-cases (text_eq r.id id)) [
      | inl b ↦ (
        some i,
        rw (e, b) refl,
        (0, omega arith, omega arith, rw e (ap some (text_eq_sound r.id id b))),
      )
      | inr b ↦ (o, rw (e, b) s, later o found b)
    ]
      where
        later :
            (o : Option ℕ)
            → Found rows visible id (suc i) o
            → text_eq r.id id ≡ false
            → Found rows (idx ∷ visible) id i o
        later none (ids, h, c) b = (r.id ∷ ids, rw (e, h) refl, rw b c)
        later (some j) (k, h, l, c) b = (suc k, omega (arith, h), omega (arith, l), c)
