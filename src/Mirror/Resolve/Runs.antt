-- ===== src/Mirror/Resolve/Runs.antt =====
-- internal/mirror/mirror.go: the name of a run directory, a case with the suffix of a job id.
use erdc_hpc_scripts.Base.{
  ℕ, ◌≡◌, refl, ap, ◌∙◌, ◌⊎◌, inl, inr, Bool, true, false, not, ◌&&◌, Bool-cases, Option, none,
  some, [], ◌∷◌, ◌++◌, Text, ◌==◌,
}
use mathlib.Core.Option
use erdc_hpc_scripts.Base.GoStrings.{cut}
use erdc_hpc_scripts.Base.Decimal.{is_digit}
use erdc_hpc_scripts.Render.Editor.{is_empty}
use erdc_hpc_scripts.Mirror.Resolve.{
  digits_rest, are_digits, is_id_at, is_run_id, run_suffix, is_case, classify_suffix, classify,
}

and_false : (b : Bool) → (b && false) ≡ false
and_false true = refl
and_false false = refl

-- A text with an underscore is not all digits.
digits_rest-append : (s t : Text) → digits_rest (s ++ 95 ∷ t) ≡ false
unfolding digits_rest
digits_rest-append [] t = refl
digits_rest-append (c ∷ s) t = rw (digits_rest-append s t) (and_false (is_digit c))

-- If a cut has an underscore in one of its parts, that part is not all digits.
abbrev IsSpoiled : Option (Text × Text) → Type 0
IsSpoiled none = Unit
IsSpoiled (some (j, i)) = (digits_rest j ≡ false) ⊎ (digits_rest i ≡ false)

onto_cut :
    (c : ℕ) (o : Option (Text × Text))
    → IsSpoiled o
    → IsSpoiled (Option.map (λ (lr : Text × Text). (c ∷ lr.0, lr.1)) o)
unfolding digits_rest
onto_cut c none h = tt
onto_cut c (some (j, i)) (inl h) = inl (rw h (and_false (is_digit c)))
onto_cut c (some (j, i)) (inr h) = inr h

cut-IsSpoiled : (s t : Text) → IsSpoiled (cut (s ++ 95 ∷ t) 45)
unfolding cut digits_rest
cut-IsSpoiled [] t = first (cut t 45)
  where
    first :
        (o : Option (Text × Text))
        → IsSpoiled (Option.map (λ (lr : Text × Text). (95 ∷ lr.0, lr.1)) o)
    first none = tt
    first (some (j, i)) = inl refl
cut-IsSpoiled (c ∷ s) t = elim (Bool-cases (c == 45)) [
  | inl e ↦ rw e (inr (digits_rest-append s t))
  | inr e ↦ rw e (onto_cut c (cut (s ++ 95 ∷ t) 45) (cut-IsSpoiled s t))
]

is_run_id-append : (s t : Text) → is_run_id (s ++ 95 ∷ t) ≡ false
unfolding is_run_id
is_run_id-append s t = by_cut (cut (s ++ 95 ∷ t) 45) (cut-IsSpoiled s t)
  where
    spoiled : (u : Text) → digits_rest u ≡ false → are_digits u ≡ false
    spoiled u h = rw h (and_false (not (is_empty u)))

    by_cut : (o : Option (Text × Text)) → IsSpoiled o → is_id_at (s ++ 95 ∷ t) o ≡ false
    by_cut none h = spoiled (s ++ 95 ∷ t) (digits_rest-append s t)
    by_cut (some (j, i)) (inl h) = rw (spoiled j h) refl
    by_cut (some (j, i)) (inr h) = rw (spoiled i h) (and_false (are_digits j))

run_suffix-append :
    (base id : Text) → is_run_id id ≡ true → run_suffix (base ++ 95 ∷ id) ≡ some (base, id)
unfolding run_suffix
run_suffix-append [] id h = rw h refl
run_suffix-append (c ∷ base) id h =
    rw (is_run_id-append base id, and_false (c == 95), run_suffix-append base id h) refl

-- The name of a run, a case name with an underscore and a job id, is classified as that case and
-- that id, however many underscores and numbers the case name has.
pub classify-append :
    (glob base id : Text)
    → is_case glob base ≡ true
    → is_run_id id ≡ true
    → classify glob (base ++ 95 ∷ id) ≡ some (base, id)
unfolding classify
classify-append glob base id c h =
    ap (classify_suffix glob (base ++ 95 ∷ id)) (run_suffix-append base id h) ∙ rw c refl
