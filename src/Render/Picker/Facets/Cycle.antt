-- ===== src/Render/Picker/Facets/Cycle.antt =====
-- internal/render/select.go: the facet filter goes through all values of its column and comes back.
use erdc_hpc_scripts.Base.{
  ℕ, zero, suc, ◌≡◌, refl, sym, ap, ◌∙◌, Bool, true, false, not, ◌&&◌, ◌||◌, List, [], ◌∷◌, ◌++◌,
  append_assoc, Text, text_eq, text_eq_sym, text_eq_refl, length, All, subst,
}
use mathlib.Core.List.{map}
use erdc_hpc_scripts.Render.Form.{contains}
use erdc_hpc_scripts.Render.Form.Contains.{contains-append}
use erdc_hpc_scripts.Render.Editor.{is_empty}
use erdc_hpc_scripts.Render.Picker.Filter.{SelectRow}
use erdc_hpc_scripts.Render.Picker.Facets.{
  facet_cell, new_values, facet_values, or_all, next_from, next_value, next_facet,
}
use erdc_hpc_scripts.Render.Picker.Facets.Values.{
  IsFull, AreDistinct, or_false, contains-sort_strings, sort_strings-AreDistinct,
  contains-new_values, new_values-AreDistinct, sort_strings-IsFull, new_values-IsFull,
}

-- The values that as many presses of `f` show, one after the other.
unfoldable pub trail : List Text → ℕ → Text → List Text
unfolding next_from
trail vals zero v = []
trail vals (suc n) v = next_value vals v ∷ trail vals n (next_value vals v)

-- Past what stands before a value the search finds it.
next_from-append :
    (pre : List Text) (v : Text) (vs : List Text) (first : Text)
    → contains pre v ≡ false
    → next_from (pre ++ v ∷ vs) first v ≡ or_all vs
unfolding next_from contains
next_from-append [] v vs first h = rw (text_eq_refl v) refl
next_from-append (u ∷ pre) v vs first h =
    let apart = or_false (text_eq u v) (contains pre v) h in
    rw (apart.0, next_from-append pre v vs first apart.1) refl

-- What stands before a value of a distinct list does not have it.
AreDistinct-append :
    (pre : List Text) (v : Text) (vs : List Text)
    → AreDistinct (pre ++ v ∷ vs)
    → contains pre v ≡ false
unfolding AreDistinct contains
AreDistinct-append [] v vs d = refl
AreDistinct-append (u ∷ pre) v vs d =
    let behind =
      or_false (contains pre u) (text_eq v u || contains vs u)
        (sym (contains-append pre (v ∷ vs) u) ∙ d.0) in
    let apart = or_false (text_eq v u) (contains vs u) behind.1 in
    rw (text_eq_sym u v, apart.0) (AreDistinct-append pre v vs d.1)

next_value-append :
    (pre : List Text) (v : Text) (vs : List Text)
    → AreDistinct (pre ++ v ∷ vs)
    → is_empty v ≡ false
    → next_value (pre ++ v ∷ vs) v ≡ or_all vs
next_value-append pre v vs d h =
    rw h (next_from-append pre v vs (or_all (pre ++ v ∷ vs)) (AreDistinct-append pre v vs d))

-- The presses from a value on show those behind it and then all rows.
trail-append :
    (pre : List Text) (v : Text) (vs : List Text)
    → AreDistinct (pre ++ v ∷ vs)
    → All IsFull (v ∷ vs)
    → trail (pre ++ v ∷ vs) (suc (length vs)) v ≡ vs ++ [] ∷ []
unfolding trail
trail-append pre v [] d h = rw (next_value-append pre v [] d h.0) refl
trail-append pre v (u ∷ vs) d h =
    let same : pre ++ v ∷ u ∷ vs ≡ (pre ++ v ∷ []) ++ u ∷ vs =
      sym (append_assoc pre (v ∷ []) (u ∷ vs)) in
    rw (next_value-append pre v (u ∷ vs) d h.0) (
      ap (λ l. u ∷ l)
        (ap (λ vals. trail vals (suc (length vs)) u) same
          ∙ trail-append (pre ++ v ∷ []) u vs (subst AreDistinct same d) h.1))

trail_whole :
    (vals : List Text)
    → AreDistinct vals
    → All IsFull vals
    → trail vals (suc (length vals)) [] ≡ vals ++ [] ∷ []
unfolding trail
trail_whole [] d h = refl
trail_whole (v ∷ vs) d h = ap (λ l. v ∷ l) (trail-append [] v vs d h)

-- The presses of `f` that the facet filter takes from a value.
unfoldable pub facet_trail : ℕ → List SelectRow → ℕ → Text → List Text
unfolding next_facet
facet_trail col rows zero v = []
facet_trail col rows (suc n) v =
    next_facet col rows v ∷ facet_trail col rows n (next_facet col rows v)

facet_trail-trail :
    (col : ℕ) (rows : List SelectRow) (n : ℕ) (v : Text)
    → facet_trail col rows n v ≡ trail (facet_values col rows) n v
unfolding facet_trail trail next_facet
facet_trail-trail col rows zero v = refl
facet_trail-trail col rows (suc n) v =
    ap (λ l. next_value (facet_values col rows) v ∷ l)
      (facet_trail-trail col rows n (next_value (facet_values col rows) v))

-- From the view of all rows as many presses of f as there are values show every value of the
-- column once, in their order, and the next press shows all rows again; the values are distinct,
-- and they are the cells of the column that are not empty.
pub next_facet-cycles :
    (col : ℕ) (rows : List SelectRow)
    → (facet_trail col rows (suc (length (facet_values col rows))) []
        ≡ facet_values col rows ++ [] ∷ [])
      × AreDistinct (facet_values col rows)
      × ((w : Text)
          → contains (facet_values col rows) w
            ≡ (contains (map (facet_cell col) rows) w && not (is_empty w)))
unfolding facet_values contains
next_facet-cycles col rows =
    let cells = map (facet_cell col) rows in
    let distinct : AreDistinct (facet_values col rows) =
      sort_strings-AreDistinct (new_values [] cells) (new_values-AreDistinct [] cells) in
    (
      facet_trail-trail col rows (suc (length (facet_values col rows))) []
          ∙ trail_whole (facet_values col rows) distinct
              (sort_strings-IsFull (new_values [] cells) (new_values-IsFull [] cells)),
      distinct,
      λ w.
          contains-sort_strings (new_values [] cells) w
          ∙ contains-new_values [] cells w
          ∙ and_true _,
    )
  where
    and_true : (a : Bool) → (a && true) ≡ a
    and_true true = refl
    and_true false = refl
