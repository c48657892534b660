-- ===== src/Base/GoStrings.antt =====
-- The functions of Go's `strings` that the code calls, on code points. A separator is one code point.
use Prim.Native.Nat.{ℕ}
use mathlib.Core.Bool.{Bool, true, false, ◌&&◌, ◌||◌}
use mathlib.Core.List.{List, [], ◌∷◌, ◌++◌}
use mathlib.Core.Option.{Option, none, some}
use mathlib.Core.Option
use erdc_hpc_scripts.Base.Tests.{◌==◌, leb, if◌then◌else◌}
use erdc_hpc_scripts.Base.Strings.{Text}

-- `unicode.IsSpace`
unfoldable pub is_space : ℕ → Bool
is_space c =
    (leb 9 c && leb c 13)
    || c == 32
    || c == 0x85
    || c == 0xa0
    || c == 0x1680
    || (leb 0x2000 c && leb c 0x200a)
    || c == 0x2028
    || c == 0x2029
    || c == 0x202f
    || c == 0x205f
    || c == 0x3000

unfoldable pub has_prefix : Text → Text → Bool
has_prefix s [] = true
has_prefix [] (d ∷ p) = false
has_prefix (c ∷ s) (d ∷ p) = c == d && has_prefix s p

-- `TrimLeftFunc`
unfoldable pub trim_left : (ℕ → Bool) → Text → Text
trim_left f [] = []
trim_left f (c ∷ s) = let rest = trim_left f s in if f c then rest else c ∷ s

-- A character before what is left of the text behind it.
unfoldable pub trim_onto : Bool → ℕ → Text → Text
trim_onto true c [] = []
trim_onto true c (d ∷ r) = c ∷ d ∷ r
trim_onto false c r = c ∷ r

-- `TrimRightFunc`
unfoldable pub trim_right : (ℕ → Bool) → Text → Text
unfolding trim_onto
trim_right f [] = []
trim_right f (c ∷ s) = trim_onto (f c) c (trim_right f s)

unfoldable pub trim_space : Text → Text
unfolding is_space trim_left trim_right
trim_space s = trim_right is_space (trim_left is_space s)

-- The part before the first occurrence of a character and the part behind it, if it occurs.
unfoldable pub cut : Text → ℕ → Option (Text × Text)
cut [] sep = none
cut (c ∷ s) sep =
    let rest = Option.map (λ (l, r). (c ∷ l, r)) (cut s sep) in
    if c == sep then some ([], s) else rest

unfoldable pub onto_first : ℕ → List Text → List Text
onto_first c [] = (c ∷ []) ∷ []
onto_first c (p ∷ ps) = (c ∷ p) ∷ ps

-- `Split` at one character: always one part more than separators.
unfoldable pub split : Text → ℕ → List Text
unfolding onto_first
split [] sep = [] ∷ []
split (c ∷ s) sep = let rest = split s sep in if c == sep then [] ∷ rest else onto_first c rest

unfoldable pub join : List Text → ℕ → Text
join [] sep = []
join (p ∷ []) sep = p
join (p ∷ q ∷ ps) sep = p ++ (sep ∷ join (q ∷ ps) sep)

-- `CutPrefix`, and `TrimPrefix`.
unfoldable pub cut_prefix : Text → Text → Option Text
cut_prefix s [] = some s
cut_prefix [] (d ∷ p) = none
cut_prefix (c ∷ s) (d ∷ p) = let rest = cut_prefix s p in if c == d then rest else none

abbrev pub or_whole : Text → Option Text → Text
or_whole s none = s
or_whole s (some rest) = rest

abbrev pub trim_prefix : Text → Text → Text
trim_prefix s p = or_whole s (cut_prefix s p)

-- A text without its last character, if that is `q`.
unfoldable pub cut_last : ℕ → Text → Option Text
cut_last q [] = none
cut_last q (c ∷ []) = if c == q then some [] else none
cut_last q (c ∷ d ∷ s) = Option.map (λ r. c ∷ r) (cut_last q (d ∷ s))

-- `Contains`
unfoldable pub contains_text : Text → Text → Bool
unfolding has_prefix
contains_text [] pat = has_prefix [] pat
contains_text (c ∷ s) pat = has_prefix (c ∷ s) pat || contains_text s pat

-- `Join` with a separator of any length.
unfoldable pub join_with : List Text → Text → Text
join_with [] sep = []
join_with (p ∷ []) sep = p
join_with (p ∷ q ∷ ps) sep = p ++ (sep ++ join_with (q ∷ ps) sep)

abbrev pub onto_field : Bool → ℕ → List Text → List Text
onto_field true c fs = (c ∷ []) ∷ fs
onto_field false c [] = (c ∷ []) ∷ []
onto_field false c (f ∷ fs) = (c ∷ f) ∷ fs

abbrev pub starts_blank : Text → Bool
starts_blank [] = true
starts_blank (c ∷ s) = is_space c

-- `Fields`: the runs of characters that are not space.
unfoldable pub fields : Text → List Text
unfolding is_space
fields [] = []
fields (c ∷ s) =
    let rest = fields s in if is_space c then rest else onto_field (starts_blank s) c rest
