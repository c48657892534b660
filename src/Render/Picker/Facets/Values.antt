-- ===== src/Render/Picker/Facets/Values.antt =====
-- internal/render/select.go: the facet filter has the values of its column.
use erdc_hpc_scripts.Base.{
  ◌≡◌, refl, sym, ap, ◌∙◌, Bool, true, false, not, ◌&&◌, ◌||◌, List, [], ◌∷◌, Text, text_eq,
  text_eq_sound, text_eq_sym, text_eq_refl, if◌then◌else◌, inl, inr, Bool-cases, All,
}
use erdc_hpc_scripts.Render.Form.{contains}
use erdc_hpc_scripts.Render.Form.Contains.{contains_equal}
use erdc_hpc_scripts.Render.Editor.{is_empty}
use erdc_hpc_scripts.Render.Picker.Facets.{text_leb, sort_onto, sort_strings, new_values}

abbrev pub IsFull : Text → Type 0
IsFull v = is_empty v ≡ false

-- No text of the list is there twice.
unfoldable pub AreDistinct : List Text → Type 0
AreDistinct [] = Unit
AreDistinct (v ∷ vs) = (contains vs v ≡ false) × AreDistinct vs

contains-sort_onto :
    (v : Text) (vs : List Text) (w : Text)
    → contains (sort_onto v vs) w ≡ (text_eq v w || contains vs w)
unfolding sort_onto contains
contains-sort_onto v [] w = refl
contains-sort_onto v (u ∷ vs) w = elim (Bool-cases (text_leb v u)) [
  | inl b ↦ rw b refl
  | inr b ↦ rw (b, contains-sort_onto v vs w) (swap (text_eq u w) (text_eq v w) (contains vs w))
]
  where
    swap : (a b c : Bool) → (a || (b || c)) ≡ (b || (a || c))
    swap true true c = refl
    swap true false c = refl
    swap false b c = refl

pub contains-sort_strings :
    (vs : List Text) (w : Text) → contains (sort_strings vs) w ≡ contains vs w
unfolding sort_strings contains
contains-sort_strings [] w = refl
contains-sort_strings (v ∷ vs) w =
    contains-sort_onto v (sort_strings vs) w
    ∙ ap (λ b. text_eq v w || b) (contains-sort_strings vs w)

-- Neither part of a false disjunction holds.
pub or_false : (a b : Bool) → (a || b) ≡ false → (a ≡ false) × (b ≡ false)
or_false true b h = absurd cc
or_false false b h = (refl, h)

sort_onto-AreDistinct :
    (v : Text) (vs : List Text)
    → contains vs v ≡ false
    → AreDistinct vs
    → AreDistinct (sort_onto v vs)
unfolding sort_onto AreDistinct contains
sort_onto-AreDistinct v [] h d = (refl, tt)
sort_onto-AreDistinct v (u ∷ vs) h d =
    let apart = or_false (text_eq u v) (contains vs v) h in
    elim (Bool-cases (text_leb v u)) [
      | inl b ↦ rw b (h, d)
      | inr b ↦ rw b (
        contains-sort_onto v vs u ∙ rw (text_eq_sym v u, apart.0, d.0) refl,
        sort_onto-AreDistinct v vs apart.1 d.1,
      )
    ]

pub sort_strings-AreDistinct : (vs : List Text) → AreDistinct vs → AreDistinct (sort_strings vs)
unfolding sort_strings AreDistinct
sort_strings-AreDistinct [] d = tt
sort_strings-AreDistinct (v ∷ vs) d =
    sort_onto-AreDistinct v (sort_strings vs) (contains-sort_strings vs v ∙ d.0)
      (sort_strings-AreDistinct vs d.1)

-- The loop keeps the cells that are not empty and were not seen before it.
pub contains-new_values :
    (seen vs : List Text) (w : Text)
    → contains (new_values seen vs) w
      ≡ ((contains vs w && not (is_empty w)) && not (contains seen w))
unfolding new_values contains
contains-new_values seen [] w = refl
contains-new_values seen (v ∷ vs) w =
    by_old (is_empty v) refl (contains seen v) refl (text_eq v w) refl
      (contains-new_values (if is_empty v || contains seen v then seen else v ∷ seen) vs w)
  where
    by_old :
        (e : Bool)
        → is_empty v ≡ e
        → (s : Bool) → contains seen v ≡ s
        → (t : Bool) → text_eq v w ≡ t
        → contains (new_values (if e || s then seen else v ∷ seen) vs) w ≡ (
            (contains vs w && not (is_empty w))
            && not (contains (if e || s then seen else v ∷ seen) w))
        → contains
            (if e || s
              then new_values (if e || s then seen else v ∷ seen) vs
              else v ∷ new_values (if e || s then seen else v ∷ seen) vs)
            w
          ≡ (((text_eq v w || contains vs w) && not (is_empty w)) && not (contains seen w))
    by_old true e s h true t ih =
        let blank : is_empty w ≡ true = ap is_empty (sym (text_eq_sound v w t)) ∙ e in
        rw (ih, t, blank) (ends (contains vs w))
      where
        ends : (a : Bool) → ((a && false) && not (contains seen w)) ≡ false
        ends true = refl
        ends false = refl
    by_old true e s h false t ih = rw (ih, t) refl
    by_old false e true h true t ih =
        rw (ih, t, contains_equal seen v w t ∙ h)
          (ends (contains vs w && not (is_empty w)) (not (is_empty w)))
      where
        ends : (a b : Bool) → (a && false) ≡ (b && false)
        ends true true = refl
        ends true false = refl
        ends false true = refl
        ends false false = refl
    by_old false e true h false t ih = rw (ih, t) refl
    by_old false e false h true t ih =
        let full : is_empty w ≡ false = ap is_empty (sym (text_eq_sound v w t)) ∙ e in
        rw (t, full, contains_equal seen v w t ∙ h) refl
    by_old false e false h false t ih = rw t (ih ∙ rw t refl)

pub new_values-AreDistinct : (seen vs : List Text) → AreDistinct (new_values seen vs)
unfolding new_values AreDistinct contains
new_values-AreDistinct seen [] = tt
new_values-AreDistinct seen (v ∷ vs) = elim (Bool-cases (is_empty v || contains seen v)) [
  | inl b ↦ rw b (new_values-AreDistinct seen vs)
  | inr b ↦ rw b (
    contains-new_values (v ∷ seen) vs v
        ∙ rw (text_eq_refl v) (and_false (contains vs v && not (is_empty v))),
    new_values-AreDistinct (v ∷ seen) vs,
  )
]
  where
    and_false : (a : Bool) → (a && false) ≡ false
    and_false true = refl
    and_false false = refl

sort_onto-IsFull :
    (v : Text) (vs : List Text) → is_empty v ≡ false → All IsFull vs → All IsFull (sort_onto v vs)
unfolding sort_onto
sort_onto-IsFull v [] h hs = (h, tt)
sort_onto-IsFull v (u ∷ vs) h hs = elim (Bool-cases (text_leb v u)) [
  | inl b ↦ rw b (h, hs)
  | inr b ↦ rw b (hs.0, sort_onto-IsFull v vs h hs.1)
]

pub sort_strings-IsFull : (vs : List Text) → All IsFull vs → All IsFull (sort_strings vs)
unfolding sort_strings
sort_strings-IsFull [] hs = tt
sort_strings-IsFull (v ∷ vs) hs =
    sort_onto-IsFull v (sort_strings vs) hs.0 (sort_strings-IsFull vs hs.1)

pub new_values-IsFull : (seen vs : List Text) → All IsFull (new_values seen vs)
unfolding new_values
new_values-IsFull seen [] = tt
new_values-IsFull seen (v ∷ vs) = elim (Bool-cases (is_empty v || contains seen v)) [
  | inl b ↦ rw b (new_values-IsFull seen vs)
  | inr b ↦ rw b ((or_false (is_empty v) (contains seen v) b).0, new_values-IsFull (v ∷ seen) vs)
]
