-- ===== src/Render/Form/Contains.antt =====
-- `slices.Contains` on texts, and the maps that record which texts were seen.
use erdc_hpc_scripts.Base.{
  ◌≡◌, refl, sym, ap, ◌∙◌, Bool, true, false, ◌||◌, List, [], ◌∷◌, ◌++◌, Text, text_eq,
  text_eq_sound, if◌then◌else◌,
}
use erdc_hpc_scripts.Render.Form.{contains}

pub contains-append :
    (a b : List Text) (v : Text) → contains (a ++ b) v ≡ (contains a v || contains b v)
unfolding contains
contains-append [] b v = refl
contains-append (w ∷ a) b v = rw (contains-append a b v) (assoc (text_eq w v))
  where
    assoc :
        (t : Bool) → (t || (contains a v || contains b v)) ≡ ((t || contains a v) || contains b v)
    assoc true = refl
    assoc false = refl

-- A text among those that are equal to one that was seen was seen.
pub contains_equal :
    (seen : List Text) (w v : Text) → text_eq w v ≡ true → contains seen v ≡ contains seen w
contains_equal seen w v h = ap (contains seen) (sym (text_eq_sound w v h))

pub contains_add :
    (seen : List Text) (w v : Text)
    → contains (if contains seen w then seen else w ∷ seen) v ≡ (text_eq w v || contains seen v)
unfolding contains
contains_add seen w v = by_seen (contains seen w) refl (text_eq w v) refl
  where
    by_seen :
        (s : Bool)
        → contains seen w ≡ s
        → (t : Bool) → text_eq w v ≡ t
        → contains (if s then seen else w ∷ seen) v ≡ (t || contains seen v)
    by_seen true s true t = contains_equal seen w v t ∙ s
    by_seen true s false t = refl
    by_seen false s b t = ap (λ x. x || contains seen v) t
