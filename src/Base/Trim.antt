-- ===== src/Base/Trim.antt =====
-- What Go's trimming and splitting leave of a text that is already in shape.
use Prim.Native.Nat.{ℕ}
use mathlib.Core.Path.{◌≡◌, refl, sym, ◌∙◌, ap, subst}
use mathlib.Core.Logic.{◌⊎◌, inl, inr}
use mathlib.Core.Bool.{Bool, true, false, not, ◌&&◌}
use mathlib.Core.List.{List, [], ◌∷◌, ◌++◌}
use mathlib.Core.Option.{Option, none, some}
use mathlib.Core.Option
use native.Mathlib.Omega.{arith}
use erdc_hpc_scripts.Base.Tests.{◌==◌, Bool-cases, if◌then◌else◌}
use erdc_hpc_scripts.Base.Lists.{All}
use erdc_hpc_scripts.Base.Strings.{Text}
use erdc_hpc_scripts.Base.GoStrings.{
  is_space, trim_left, trim_onto, trim_right, trim_space, cut_last, split, onto_first,
}

-- A text whose last character is kept by trimming.
pub trim_right-append :
    (f : ℕ → Bool) (s : Text) (c : ℕ) → f c ≡ false → trim_right f (s ++ c ∷ []) ≡ s ++ c ∷ []
unfolding trim_right trim_onto
trim_right-append f [] c h = rw h refl
trim_right-append f (d ∷ s) c h = rw (trim_right-append f s c h) (onto (f d) s)
  where
    onto : (b : Bool) (s : Text) → trim_onto b d (s ++ c ∷ []) ≡ d ∷ (s ++ c ∷ [])
    onto true [] = refl
    onto true (e ∷ s) = refl
    onto false s = refl

-- A text that begins and ends with characters that are no space is as it is when trimmed.
pub trim_space-append :
    (c : ℕ) (s : Text) (d : ℕ)
    → is_space c ≡ false
    → is_space d ≡ false
    → trim_space (c ∷ (s ++ d ∷ [])) ≡ c ∷ (s ++ d ∷ [])
unfolding trim_space trim_left
trim_space-append c s d hc hd = rw hc (trim_right-append is_space (c ∷ s) d hd)

pub trim_space-cons : (c : ℕ) (s : Text) → is_space c ≡ true → trim_space (c ∷ s) ≡ trim_space s
unfolding trim_space trim_left
trim_space-cons c s h = rw h refl

pub cut_last-append : (q : ℕ) (s : Text) → cut_last q (s ++ q ∷ []) ≡ some s
unfolding cut_last
cut_last-append q [] = let e : (q == q) ≡ true = ground arith in rw e refl
cut_last-append q (c ∷ []) = let e : (q == q) ≡ true = ground arith in rw e refl
cut_last-append q (c ∷ d ∷ s) = ap (Option.map (λ r. c ∷ r)) (cut_last-append q (d ∷ s))

-- A text without a separator.
abbrev pub IsFree : ℕ → Text → Type 0
IsFree sep = All (λ c. (c == sep) ≡ false)

pub split-append :
    (sep : ℕ) (s t : Text) → IsFree sep s → split (s ++ sep ∷ t) sep ≡ s ∷ split t sep
unfolding split onto_first
split-append sep [] t h = let e : (sep == sep) ≡ true = ground arith in rw e refl
split-append sep (c ∷ s) t (e, h) = rw (e, split-append sep s t h) refl

pub split_whole : (sep : ℕ) (s : Text) → IsFree sep s → split s sep ≡ s ∷ []
unfolding split onto_first
split_whole sep [] h = refl
split_whole sep (c ∷ s) (e, h) = rw (e, split_whole sep s h) refl

onto_first-IsFree :
    (sep c : ℕ) (ps : List Text)
    → (c == sep) ≡ false
    → All (IsFree sep) ps
    → All (IsFree sep) (onto_first c ps)
unfolding onto_first
onto_first-IsFree sep c [] e h = ((e, tt), tt)
onto_first-IsFree sep c (p ∷ ps) e h = ((e, h.0), h.1)

-- No part has the separator.
pub split-IsFree : (sep : ℕ) (s : Text) → All (IsFree sep) (split s sep)
unfolding split
split-IsFree sep [] = (tt, tt)
split-IsFree sep (c ∷ s) = elim (Bool-cases (c == sep)) [
  | inl e ↦ rw e (tt, split-IsFree sep s)
  | inr e ↦ rw e (onto_first-IsFree sep c (split s sep) e (split-IsFree sep s))
]

-- Trimming takes characters away and so brings no separator in.
trim_left-All : (P : ℕ → Type 0) (f : ℕ → Bool) (s : Text) → All P s → All P (trim_left f s)
unfolding trim_left
trim_left-All P f [] h = h
trim_left-All P f (c ∷ s) h = elim (Bool-cases (f c)) [
  | inl e ↦ rw e (trim_left-All P f s h.1)
  | inr e ↦ rw e h
]

trim_right-All : (P : ℕ → Type 0) (f : ℕ → Bool) (s : Text) → All P s → All P (trim_right f s)
unfolding trim_right trim_onto
trim_right-All P f [] h = h
trim_right-All P f (c ∷ s) h = onto (f c) (trim_right f s) (trim_right-All P f s h.1)
  where
    onto : (b : Bool) (r : Text) → All P r → All P (trim_onto b c r)
    onto true [] k = k
    onto true (e ∷ r) k = (h.0, k)
    onto false r k = (h.0, k)

pub trim_space-All : (P : ℕ → Type 0) (s : Text) → All P s → All P (trim_space s)
unfolding trim_space
trim_space-All P s h = trim_right-All P is_space _ (trim_left-All P is_space s h)

trim_right_idem : (f : ℕ → Bool) (s : Text) → trim_right f (trim_right f s) ≡ trim_right f s
unfolding trim_right trim_onto
trim_right_idem f [] = refl
trim_right_idem f (c ∷ s) = onto (f c) refl (trim_right f s) (trim_right_idem f s)
  where
    onto :
        (b : Bool)
        → f c ≡ b
        → (r : Text) → trim_right f r ≡ r
        → trim_right f (trim_onto b c r) ≡ trim_onto b c r
    onto true e [] h = refl
    onto true e (d ∷ r) h = rw e (ap (trim_onto true c) h)
    onto false e r h = rw e (ap (λ t. c ∷ t) h)

-- A space behind a text is trimmed away.
trim_right_space :
    (f : ℕ → Bool) (s : Text) (d : ℕ) → f d ≡ true → trim_right f (s ++ d ∷ []) ≡ trim_right f s
unfolding trim_right trim_onto
trim_right_space f [] d h = rw h refl
trim_right_space f (c ∷ s) d h = ap (trim_onto (f c) c) (trim_right_space f s d h)

-- What is left of a trimmed text: nothing, or a text whose first character is no space.
pub record Trimmed (s : Text) : Type 0 where
  pub first : ℕ
  pub rest : Text
  pub no_space : is_space first ≡ false
  pub shape : trim_space s ≡ first ∷ trim_right is_space rest

pub trim_space-keep :
    (c : ℕ) (s : Text) → is_space c ≡ false → trim_space (c ∷ s) ≡ c ∷ trim_right is_space s
unfolding trim_space trim_left trim_right trim_onto
trim_space-keep c s h =
    ap (λ (b : Bool). trim_right is_space (if b then trim_left is_space s else c ∷ s)) h
    ∙ ap (λ (b : Bool). trim_onto b c (trim_right is_space s)) h

pub trim_space-cases : (s : Text) → (trim_space s ≡ []) ⊎ Trimmed s
unfolding trim_space trim_left trim_right trim_onto
trim_space-cases [] = inl refl
trim_space-cases (c ∷ s) = elim (Bool-cases (is_space c)) [
  | inl e ↦ elim (trim_space-cases s) [
    | inl none_left ↦ inl (rw e none_left)
    | inr t ↦
        inr (record { first = t.first; rest = t.rest; no_space = t.no_space; shape = rw e t.shape })
  ]
  | inr e ↦ inr (record { first = c; rest = s; no_space = e; shape = trim_space-keep c s e })
]

pub is_space-blank : is_space 32 ≡ true
unfolding is_space
is_space-blank = refl

pub trim_space_blank : (s : Text) → Trimmed s → trim_space (trim_space s ++ 32 ∷ []) ≡ trim_space s
trim_space_blank s t =
    subst (λ k. trim_space (k ++ 32 ∷ []) ≡ k) (sym t.shape)
      (trim_space-keep t.first (trim_right is_space t.rest ++ 32 ∷ []) t.no_space
        ∙ ap (λ r. t.first ∷ r)
            (trim_right_space is_space (trim_right is_space t.rest) 32 is_space-blank
              ∙ trim_right_idem is_space t.rest))

-- A blank behind a text makes no difference to its trimmed form.
pub trim_space_behind : (s : Text) → trim_space (s ++ 32 ∷ []) ≡ trim_space s
trim_space_behind [] = trim_space-cons 32 [] is_space-blank
trim_space_behind (c ∷ s) = elim (Bool-cases (is_space c)) [
  | inl e ↦ trim_space-cons c (s ++ 32 ∷ []) e ∙ trim_space_behind s ∙ sym (trim_space-cons c s e)
  | inr e ↦
      trim_space-keep c (s ++ 32 ∷ []) e
      ∙ ap (λ r. c ∷ r) (trim_right_space is_space s 32 is_space-blank)
      ∙ sym (trim_space-keep c s e)
]

unfoldable pub is_free : ℕ → Text → Bool
is_free sep [] = true
is_free sep (c ∷ s) = not (c == sep) && is_free sep s

pub is_free-IsFree : (sep : ℕ) (s : Text) → is_free sep s ≡ true → IsFree sep s
unfolding is_free
is_free-IsFree sep [] h = tt
is_free-IsFree sep (c ∷ s) h = (ground (arith, h), is_free-IsFree sep s (ground (arith, h)))

unfoldable pub are_free : ℕ → List Text → Bool
unfolding is_free
are_free sep [] = true
are_free sep (s ∷ ss) = is_free sep s && are_free sep ss

pub are_free-IsFree : (sep : ℕ) (ss : List Text) → are_free sep ss ≡ true → All (IsFree sep) ss
unfolding are_free
are_free-IsFree sep [] h = tt
are_free-IsFree sep (s ∷ ss) h =
    (is_free-IsFree sep s (ground (arith, h)), are_free-IsFree sep ss (ground (arith, h)))
