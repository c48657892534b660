-- ===== src/Render/Collection/Members.antt =====
-- internal/render/collection.go: the members of a set and the checked rows of its sub-editor.
use erdc_hpc_scripts.Base.{
  ◌≡◌, refl, sym, ap, ◌∙◌, Bool, true, false, not, ◌&&◌, ◌||◌, List, [], ◌∷◌, ◌++◌, Text, text_eq,
  text_eq_sound, if◌then◌else◌, inl, inr, Bool-cases,
}
use erdc_hpc_scripts.Render.Form.{field_set, contains}
use erdc_hpc_scripts.Render.Form.Contains.{contains-append, contains_equal, contains_add}
use erdc_hpc_scripts.Render.Literal.{parse_list}
use erdc_hpc_scripts.Render.Collection.{
  CollRow, new_rows, seen_after, set_rows, new_coll_editor, shown_items,
}

shown_items-append :
    (a b : List CollRow) → shown_items false (a ++ b) ≡ shown_items false a ++ shown_items false b
unfolding shown_items
shown_items-append [] b = refl
shown_items-append (r ∷ a) b = elim (Bool-cases r.on) [
  | inl o ↦ rw (o, shown_items-append a b) refl
  | inr o ↦ rw (o, shown_items-append a b) refl
]

contains-seen_after :
    (seen vs : List Text) (v : Text)
    → contains (seen_after seen vs) v ≡ (contains seen v || contains vs v)
unfolding seen_after contains
contains-seen_after seen [] v = sym (or_false (contains seen v))
  where
    or_false : (b : Bool) → (b || false) ≡ b
    or_false true = refl
    or_false false = refl
contains-seen_after seen (w ∷ vs) v =
    contains-seen_after (if contains seen w then seen else w ∷ seen) vs v
    ∙ ap (λ x. x || contains vs v) (contains_add seen w v)
    ∙ swap (text_eq w v) (contains seen v) (contains vs v)
  where
    swap : (a b c : Bool) → ((a || b) || c) ≡ (b || (a || c))
    swap true true c = refl
    swap true false c = refl
    swap false b c = refl

-- The checked rows of a loop are the new ones of its texts that pass the test.
contains-new_rows :
    (on : Text → Bool) (seen vs : List Text) (v : Text)
    → contains (shown_items false (new_rows on seen vs)) v
      ≡ (contains vs v && (not (contains seen v) && on v))
unfolding new_rows shown_items contains
contains-new_rows on seen [] v = refl
contains-new_rows on seen (w ∷ vs) v =
    by_seen (contains seen w) refl
      (contains-new_rows on (if contains seen w then seen else w ∷ seen) vs v)
  where
    row : CollRow
    row = record { key = []; val = w; on = on w }

    old :
        (t c s o : Bool) → (t ≡ true → s ≡ true) → (c && (not s && o)) ≡ ((t || c) && (not s && o))
    old true true s o h = refl
    old true false s o h = rw (h refl) refl
    old false c s o h = refl

    new :
        (t c s o p : Bool)
        → (t ≡ true → s ≡ false)
        → (t ≡ true → p ≡ o)
        → (if p then (t || (c && (not (t || s) && o))) else (c && (not (t || s) && o)))
          ≡ ((t || c) && (not s && o))
    new true c s o true h g = rw (h refl, sym (g refl)) refl
    new true true s o false h g = rw (h refl, sym (g refl)) refl
    new true false s o false h g = rw (h refl, sym (g refl)) refl
    new false c s o true h g = refl
    new false c s o false h g = refl

    checked :
        (o : Bool) (rest : List CollRow)
        → contains (shown_items false (record { key = []; val = w; on = o } ∷ rest)) v ≡ (
            if o
            then (text_eq w v || contains (shown_items false rest) v)
            else contains (shown_items false rest) v)
    checked true rest = refl
    checked false rest = refl

    by_seen :
        (s : Bool)
        → contains seen w ≡ s
        → contains (shown_items false (new_rows on (if s then seen else w ∷ seen) vs)) v
          ≡ (contains vs v && (not (contains (if s then seen else w ∷ seen) v) && on v))
        → contains
            (shown_items false (
              if s
              then new_rows on (if s then seen else w ∷ seen) vs
              else row ∷ new_rows on (if s then seen else w ∷ seen) vs))
            v
          ≡ ((text_eq w v || contains vs v) && (not (contains seen v) && on v))
    by_seen true s ih =
        ih
        ∙ old (text_eq w v) (contains vs v) (contains seen v) (on v)
            (λ t. contains_equal seen w v t ∙ s)
    by_seen false s ih =
        checked (on w) (new_rows on (w ∷ seen) vs)
        ∙ ap (λ x. if on w then (text_eq w v || x) else x) ih
        ∙ new (text_eq w v) (contains vs v) (contains seen v) (on v) (on w)
            (λ t. contains_equal seen w v t ∙ s) (λ t. ap on (text_eq_sound w v t))

-- The checked rows of a set that is opened are its members: a text is the value of one exactly if
-- the literal has it, also if it is not among the options.
pub shown_items-new_coll_editor :
    (label lit : Text) (options : List Text) (v : Text)
    → contains (shown_items false (new_coll_editor field_set label lit options).rows) v
      ≡ contains (parse_list lit) v
unfolding new_coll_editor set_rows
shown_items-new_coll_editor label lit options v =
    let members = parse_list lit in
    let within = new_rows (contains members) [] options in
    let beyond = new_rows (λ w. true) (seen_after [] options) members in
    ap (λ l. contains l v) (shown_items-append within beyond)
    ∙ contains-append (shown_items false within) (shown_items false beyond) v
    ∙ rw
        (
          contains-new_rows (contains members) [] options v,
          contains-new_rows (λ w. true) (seen_after [] options) members v,
          contains-seen_after [] options v,
        )
        (union (contains options v) (contains members v))
  where
    union : (o m : Bool) → ((o && (true && m)) || (m && (not o && true))) ≡ m
    union true true = refl
    union true false = refl
    union false true = refl
    union false false = refl
