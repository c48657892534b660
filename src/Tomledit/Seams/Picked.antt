-- ===== src/Tomledit/Seams/Picked.antt =====
-- internal/tomledit/tomledit.go, `Split`: what its loop collects is what a walk over the lines picks.
use erdc_hpc_scripts.Base.{
  ℕ, ◌≡◌, refl, sym, ◌∙◌, ap, Bool, true, false, Option, none, some, List, [], ◌∷◌, ◌++◌, arith,
  Text, text_eq, if◌then◌else◌, ◌==◌, Bool-cases, inl, inr, append_assoc, append-nil,
}
use mathlib.Core.Option
use erdc_hpc_scripts.Base.GoStrings.{cut}
use erdc_hpc_scripts.Tomledit.Seams.{
  is_wanted, root_path, first_segment, is_no_name, section_of, next_section, Parts, put,
  split_lines,
}
use erdc_hpc_scripts.Tomledit.Seams.Spec.{first_word, is_among, is_for, is_left, unlines}

root_path-eq-first_word : (path : Text) → root_path path ≡ first_word path
unfolding root_path cut first_word
root_path-eq-first_word [] = refl
root_path-eq-first_word (c ∷ path) = elim (Bool-cases (c == 46)) [
  | inl e ↦ rw e refl
  | inr e ↦ rw e (segment (cut path 46) ∙ ap (λ s. c ∷ s) (root_path-eq-first_word path))
]
  where
    segment :
        (p : Option (Text × Text))
        → first_segment (c ∷ path) (Option.map (λ (l, r). (c ∷ l, r)) p) ≡ c ∷ first_segment path p
    segment none = refl
    segment (some (l, r)) = refl

is_wanted-eq-is_among : (names : List Text) (n : Text) → is_wanted names n ≡ is_among n names
unfolding is_wanted is_among
is_wanted-eq-is_among [] n = refl
is_wanted-eq-is_among (name ∷ names) n = ground (arith, is_wanted-eq-is_among names n)

-- The table that the lines of a path go to: a wanted one, or none.
unfoldable pub own : List Text → Text → Text
own names path = if is_among (first_word path) names then first_word path else []

pub own-is_for :
    (names : List Text) (c : ℕ) (n path : Text)
    → text_eq (own names path) (c ∷ n) ≡ is_for (c ∷ n) names path
unfolding own text_eq
own-is_for names c n path = ground arith

pub own-is_left :
    (names : List Text) (path : Text) → is_no_name (own names path) ≡ is_left names path
unfolding own
own-is_left names path = ground arith

pub own_root : (names : List Text) → own names [] ≡ []
unfolding own first_word
own_root names = ground arith

pub section_of-own :
    (names : List Text) (cur : Text) (h : Text × Bool)
    → section_of names cur (some h) ≡ own names h.0
unfolding own
section_of-own names cur h =
    rw (root_path-eq-first_word h.0, is_wanted-eq-is_among names (first_word h.0)) refl

-- The lines that go to the sections which a test picks.
unfoldable pub picked : List Text → (Text → Bool) → Text → List Text → List Text
picked names test cur [] = []
picked names test cur (line ∷ lines) =
    let next = next_section names cur line in
    let more = picked names test next lines in if test next then line ∷ more else more

unlines-if :
    (b : Bool) (line : Text) (more : List Text)
    → unlines (if b then line ∷ more else more)
      ≡ (if b then line ++ 10 ∷ [] else []) ++ unlines more
unfolding unlines
unlines-if true line more = sym (append_assoc line (10 ∷ []) (unlines more))
unlines-if false line more = refl

pub put-rest :
    (cur line : Text) (p : Parts)
    → (put cur line p).rest ≡ p.rest ++ (if is_no_name cur then line ++ 10 ∷ [] else [])
unfolding put
put-rest [] line p = refl
put-rest (c ∷ cur) line p = sym (append-nil p.rest)

pub put-sections :
    (cur line : Text) (p : Parts) (c : ℕ) (n : Text)
    → (put cur line p).sections (c ∷ n)
      ≡ p.sections (c ∷ n) ++ (if text_eq cur (c ∷ n) then line ++ 10 ∷ [] else [])
unfolding put text_eq
put-sections [] line p c n = sym (append-nil (p.sections (c ∷ n)))
put-sections (d ∷ cur) line p c n = by_test (text_eq (d ∷ cur) (c ∷ n))
  where
    by_test :
        (b : Bool)
        → (if b then p.sections (c ∷ n) ++ (line ++ 10 ∷ []) else p.sections (c ∷ n))
          ≡ p.sections (c ∷ n) ++ (if b then line ++ 10 ∷ [] else [])
    by_test true = refl
    by_test false = sym (append-nil (p.sections (c ∷ n)))

-- A view of the parts to which each line adds what a test picks collects the lines that are picked.
module _ (names : List Text) (view : Parts → Text) (test : Text → Bool)
    (view-put : (cur line : Text) (p : Parts)
      → view (put cur line p) ≡ view p ++ (if test cur then line ++ 10 ∷ [] else [])) where
  pub split_lines-picked :
      (cur : Text) (lines : List Text) (p : Parts)
      → view (split_lines names cur lines p) ≡ view p ++ unlines (picked names test cur lines)
  unfolding split_lines picked unlines
  split_lines-picked cur [] p = sym (append-nil (view p))
  split_lines-picked cur (line ∷ lines) p =
      let next = next_section names cur line in
      split_lines-picked next lines (put next line p)
      ∙ ap (λ t. t ++ unlines (picked names test next lines)) (view-put next line p)
      ∙ append_assoc (view p) (if test next then line ++ 10 ∷ [] else []) _
      ∙ ap (λ t. view p ++ t) (sym (unlines-if (test next) line (picked names test next lines)))
