-- ===== src/Render/Literal/Items.antt =====
-- internal/render/collection.go: a list that is written is read back.
use erdc_hpc_scripts.Base.{
  ℕ, ◌≡◌, refl, ◌∙◌, ap, true, false, List, [], ◌∷◌, ◌++◌, arith, Text, ◌==◌, All, All-append,
}
use mathlib.Core.List.{map}
use erdc_hpc_scripts.Base.GoStrings.{is_space, trim_space, cut_prefix, or_whole, split, join_with}
use erdc_hpc_scripts.Base.Trim.{
  IsFree, trim_space-append, trim_space-cons, cut_last-append, split-append, split_whole,
  trim_space-All,
}
use erdc_hpc_scripts.Render.Literal.{
  unquote_lit, quote_lit, onto_full, list_items, parts_of, parse_list, onto_quoted, quoted_items,
  comma, in_brackets, format_list,
}

unquote_lit-quote_lit : (s : Text) → unquote_lit (quote_lit s) ≡ s
unfolding unquote_lit
unquote_lit-quote_lit s = ap (or_whole (quote_lit s)) (cut_last-append 34 s)

trim_space-quote_lit : (s : Text) → trim_space (quote_lit s) ≡ quote_lit s
unfolding is_space
trim_space-quote_lit s = trim_space-append 34 s 34 refl refl

split-blank :
    (y : Text) (ys : List Text)
    → All (IsFree 44) (y ∷ ys)
    → split (32 ∷ join_with (y ∷ ys) comma) 44 ≡ map (λ z. 32 ∷ z) (y ∷ ys)
unfolding join_with
split-blank y [] h = split_whole 44 (32 ∷ y) (refl, h.0)
split-blank y (z ∷ zs) h =
    split-append 44 (32 ∷ y) _ (refl, h.0) ∙ ap (λ ps. (32 ∷ y) ∷ ps) (split-blank z zs h.1)

-- The parts of joined texts: the first as it is, the others behind a blank.
split-join_with :
    (x : Text) (xs : List Text)
    → All (IsFree 44) (x ∷ xs)
    → split (join_with (x ∷ xs) comma) 44 ≡ x ∷ map (λ y. 32 ∷ y) xs
unfolding join_with
split-join_with x [] h = split_whole 44 x h.0
split-join_with x (y ∷ ys) h = split-append 44 x _ h.0 ∙ ap (λ ps. x ∷ ps) (split-blank y ys h.1)

-- The items of a list that are not blank, trimmed.
pub trimmed : List Text → List Text
trimmed [] = []
trimmed (it ∷ items) = onto_full (trim_space it) (trimmed items)

quoted_items-trimmed : (items : List Text) → quoted_items items ≡ map quote_lit (trimmed items)
unfolding quoted_items trimmed
quoted_items-trimmed [] = refl
quoted_items-trimmed (it ∷ items) = by_text (trim_space it) (quoted_items-trimmed items)
  where
    by_text :
        (s : Text)
        → quoted_items items ≡ map quote_lit (trimmed items)
        → onto_quoted s (quoted_items items) ≡ map quote_lit (onto_full s (trimmed items))
    by_text [] ih = ih
    by_text (c ∷ s) ih = ap (λ xs. quote_lit (c ∷ s) ∷ xs) ih

-- An item that is not empty.
abbrev IsFull : Text → Type 0
IsFull [] = ⊥
IsFull (c ∷ s) = Unit

trimmed-IsFull : (items : List Text) → All IsFull (trimmed items)
unfolding trimmed
trimmed-IsFull [] = tt
trimmed-IsFull (it ∷ items) = by_text (trim_space it) (trimmed-IsFull items)
  where
    by_text : (s : Text) → All IsFull (trimmed items) → All IsFull (onto_full s (trimmed items))
    by_text [] h = h
    by_text (c ∷ s) h = (tt, h)

trimmed-IsFree : (items : List Text) → All (IsFree 44) items → All (IsFree 44) (trimmed items)
unfolding trimmed
trimmed-IsFree [] h = tt
trimmed-IsFree (it ∷ items) h =
    by_text (trim_space it) (trim_space-All _ it h.0) (trimmed-IsFree items h.1)
  where
    by_text :
        (s : Text)
        → IsFree 44 s
        → All (IsFree 44) (trimmed items)
        → All (IsFree 44) (onto_full s (trimmed items))
    by_text [] k ih = ih
    by_text (c ∷ s) k ih = (k, ih)

pub quote_lit-IsFree : (s : Text) → IsFree 44 s → IsFree 44 (quote_lit s)
quote_lit-IsFree s h = (refl, All-append _ s (34 ∷ []) h (refl, tt))

map-IsFree : (items : List Text) → All (IsFree 44) items → All (IsFree 44) (map quote_lit items)
map-IsFree [] h = tt
map-IsFree (s ∷ items) h = (quote_lit-IsFree s h.0, map-IsFree items h.1)

onto_full-IsFull : (s : Text) (xs : List Text) → IsFull s → onto_full s xs ≡ s ∷ xs
onto_full-IsFull [] xs h = absurd h
onto_full-IsFull (c ∷ s) xs h = refl

-- One quoted part is read as its text.
pub item-quote_lit : (s : Text) → unquote_lit (trim_space (quote_lit s)) ≡ s
item-quote_lit s = ap unquote_lit (trim_space-quote_lit s) ∙ unquote_lit-quote_lit s

pub item-blank : (s : Text) → unquote_lit (trim_space (32 ∷ quote_lit s)) ≡ s
unfolding is_space
item-blank s = ap unquote_lit (trim_space-cons 32 (quote_lit s) refl) ∙ item-quote_lit s

list_items-blank :
    (xs : List Text) → All IsFull xs → list_items (map (λ y. 32 ∷ y) (map quote_lit xs)) ≡ xs
unfolding list_items
list_items-blank [] h = refl
list_items-blank (x ∷ xs) h = rw (item-blank x, list_items-blank xs h.1) (onto_full-IsFull x xs h.0)

list_items-quote_lit :
    (x : Text) (xs : List Text)
    → All IsFull (x ∷ xs)
    → list_items (quote_lit x ∷ map (λ y. 32 ∷ y) (map quote_lit xs)) ≡ x ∷ xs
unfolding list_items
list_items-quote_lit x xs h =
    ap (λ v. onto_full v (list_items (map (λ y. 32 ∷ y) (map quote_lit xs)))) (item-quote_lit x)
    ∙ ap (onto_full x) (list_items-blank xs h.1)
    ∙ onto_full-IsFull x xs h.0

-- What stands between brackets that no trimming touches.
pub parts_of-brackets :
    (op cl : ℕ) (s : Text)
    → is_space op ≡ false
    → is_space cl ≡ false
    → parts_of (op ∷ []) cl (op ∷ (s ++ cl ∷ [])) ≡ split s 44
unfolding parts_of cut_prefix
parts_of-brackets op cl s ho hc =
    let same : (op == op) ≡ true = ground arith in
    rw (trim_space-append op s cl ho hc, same)
      (ap (λ t. split (or_whole (s ++ cl ∷ []) t) 44) (cut_last-append cl s))

-- A list that is written and read again has its items trimmed and without the blank ones, if no
-- item has a comma.
pub parse_list-format_list :
    (items : List Text) → All (IsFree 44) items → parse_list (format_list items) ≡ trimmed items
unfolding parse_list format_list
parse_list-format_list items h =
    ap (λ xs. list_items (parts_of (91 ∷ []) 93 (in_brackets (91 ∷ []) (93 ∷ []) xs)))
      (quoted_items-trimmed items)
    ∙ by_items (trimmed items) (trimmed-IsFull items) (trimmed-IsFree items h)
  where
    by_items :
        (ss : List Text)
        → All IsFull ss
        → All (IsFree 44) ss
        → list_items (parts_of (91 ∷ []) 93 (in_brackets (91 ∷ []) (93 ∷ []) (map quote_lit ss)))
          ≡ ss
    by_items [] f k = refl
    by_items (s ∷ ss) f k =
        ap list_items (
          parts_of-brackets 91 93 (join_with (map quote_lit (s ∷ ss)) comma) refl refl
          ∙ split-join_with (quote_lit s) (map quote_lit ss) (map-IsFree (s ∷ ss) k))
        ∙ list_items-quote_lit s ss f
