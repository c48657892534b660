-- ===== src/Render/EditorUpdate/Total.antt =====
-- internal/render/editor.go, `Update`: it never reads a row that is not there or a section's field.
use erdc_hpc_scripts.Base.{
  ℕ, ◌<◌, ◌≡◌, refl, sym, ◌∙◌, subst, Bool, true, false, Option, none, some, List, [], ◌∷◌, arith,
  length, get_elem?, Text, if◌then◌else◌, zero, suc,
}
use mathlib.Core.List.{map}
use mathlib.Core.Option
use erdc_hpc_scripts.Render.Form.{FormField}
use erdc_hpc_scripts.Render.EditorTree.{EdRow}
use erdc_hpc_scripts.Render.Editor.{
  KeyName, ctrl_c, esc, save_key, alt_save_key, up, shift_tab, down, tab, pgup, pgdown, home, end,
  action_key, enter, right, left, space, backspace, other_key, KeyPress, CollEditor, Editor,
  EditorPatch, patched, patch_row, apply, apply_all, is_collection, update_row, validate_all,
  validate_at, set_value, first_invalid,
}
use erdc_hpc_scripts.Render.EditorUpdate.{
  edit, edited, save, saved_or_shown, press, type_key, dispatch, press_sub, Msg, window_size,
  patches, key_press, update, clamp, stays, on_key, has_field, edit_field, opens,
}

has_field-map :
    (f : EdRow → EdRow)
    → ((r : EdRow) → (f r).field ≡ r.field)
    → (rows : List EdRow) (i : ℕ)
    → has_field (get_elem? (map f rows) i) ≡ has_field (get_elem? rows i)
has_field-map f h [] i = refl
has_field-map f h (r ∷ rows) zero = rw (h r) refl
has_field-map f h (r ∷ rows) (suc i) = has_field-map f h rows i

has_field-validate_all :
    (rows : List EdRow) (i : ℕ)
    → has_field (get_elem? (validate_all rows) i) ≡ has_field (get_elem? rows i)
unfolding validate_all
has_field-validate_all rows i = has_field-map _ (λ r. refl) rows i

patch_row-field :
    (p : EditorPatch) (f : FormField) (r : EdRow) → has_field (some (patch_row p f r)) ≡ true
unfolding patch_row
patch_row-field p f r = ground arith

has_field-apply :
    (p : EditorPatch) (rows : List EdRow) (i : ℕ)
    → has_field (get_elem? (apply p rows) i) ≡ has_field (get_elem? rows i)
unfolding apply
has_field-apply p [] i = refl
has_field-apply p (r ∷ rows) i = by_field r.field i refl (λ k. has_field-apply p rows k)
  where
    here :
        (b : Bool) (f : FormField) (i : ℕ)
        → r.field ≡ some f
        → ((k : ℕ) → has_field (get_elem? (apply p rows) k) ≡ has_field (get_elem? rows k))
        → (let next : List EdRow = elim (if b then some (patch_row p f r) else none) [
          | some r' ↦ r' ∷ rows
          | none ↦ r ∷ apply p rows
        ] in
            has_field (get_elem? next i) ≡ has_field (get_elem? (r ∷ rows) i))
    here true f zero e ih = rw e (patch_row-field p f r)
    here true f (suc i) e ih = refl
    here false f zero e ih = refl
    here false f (suc i) e ih = ih i

    by_field :
        (o : Option FormField) (i : ℕ)
        → r.field ≡ o
        → ((k : ℕ) → has_field (get_elem? (apply p rows) k) ≡ has_field (get_elem? rows k))
        → (let next : List EdRow = elim (patched p r o) [
          | some r' ↦ r' ∷ rows
          | none ↦ r ∷ apply p rows
        ] in
            has_field (get_elem? next i) ≡ has_field (get_elem? (r ∷ rows) i))
    by_field none zero e ih = refl
    by_field none (suc i) e ih = ih i
    by_field (some f) i e ih = here _ f i e ih

has_field-apply_all :
    (ps : List EditorPatch) (rows : List EdRow) (i : ℕ)
    → has_field (get_elem? (apply_all ps rows) i) ≡ has_field (get_elem? rows i)
unfolding apply_all
has_field-apply_all [] rows i = refl
has_field-apply_all (p ∷ ps) rows i =
    has_field-apply_all ps (apply p rows) i ∙ has_field-apply p rows i

module _ {C : Type 0} where
  -- An open sub-editor stands over a leaf.
  abbrev pub LeafOf : Option C → Bool → Type 0
  LeafOf none b = Unit
  LeafOf (some c) b = b ≡ true

  abbrev pub HasLeaf : Editor C → Type 0
  HasLeaf m = LeafOf m.sub (has_field (get_elem? m.rows m.cursor))

  -- A result without a fault, whose sub-editor stands over a leaf.
  abbrev pub IsSound : Option (Editor C × Bool) → Type 0
  IsSound none = ⊥
  IsSound (some (m, quits)) = HasLeaf m

  closed-LeafOf : (o : Option C) (b : Bool) → o ≡ none → LeafOf o b
  closed-LeafOf o b h = subst (λ x. LeafOf x b) (sym h) tt

  row-IsSound :
      (rows : List EdRow) (i : ℕ) (f : EdRow → Editor C)
      → i < length rows
      → ((r : EdRow) → get_elem? rows i ≡ some r → HasLeaf (f r))
      → IsSound (Option.map (λ r. (f r, false)) (get_elem? rows i))
  row-IsSound [] i f l h = absurd (omega arith)
  row-IsSound (r ∷ rows) zero f l h = h r refl
  row-IsSound (r ∷ rows) (suc i) f l h = row-IsSound rows i f (omega arith) h

  module _ (coll : CollEditor C) where
    clamped-HasLeaf :
        (m : Editor C) (m' : Editor C) → m.sub ≡ none → m'.sub ≡ m.sub → HasLeaf (clamp m')
    clamped-HasLeaf m m' h e = closed-LeafOf m'.sub _ (e ∙ h)

    edit-HasLeaf : (m : Editor C) (v : Option Text) → m.sub ≡ none → HasLeaf (clamp (edited m v))
    edit-HasLeaf m none h = clamped-HasLeaf m m h refl
    edit-HasLeaf m (some v) h = clamped-HasLeaf m (edited m (some v)) h refl

    save-IsSound : (m : Editor C) → m.sub ≡ none → IsSound (some (save m))
    unfolding save
    save-IsSound m h = by_search (first_invalid (validate_all m.rows) 0)
      where
        by_search : (o : Option ℕ) → IsSound (some (saved_or_shown (validate_all m.rows) m o))
        by_search none = closed-LeafOf m.sub _ h
        by_search (some i) = closed-LeafOf m.sub _ h

    press-HasLeaf :
        (k : KeyPress) (r : EdRow) (o : Option FormField) (m : Editor C)
        → m.sub ≡ none
        → get_elem? m.rows m.cursor ≡ some r
        → r.field ≡ o
        → HasLeaf (press coll k r o m)
    unfolding press edit
    press-HasLeaf k r none m h at_row e = closed-LeafOf m.sub _ h
    press-HasLeaf k r (some f) m h at_row e = by_kind (is_collection f.kind) (opens k.name)
      where
        opened : Editor C
        opened = record m { sub = some (coll.new_coll f.kind f.label f.value f.options) }

        by_kind :
            (b o : Bool) → HasLeaf (if b then (if o then opened else m) else clamp (edit k f m))
        by_kind true true = rw (at_row, e) refl
        by_kind true false = closed-LeafOf m.sub _ h
        by_kind false o = edit-HasLeaf m (edit_field k f.kind f) h

    type_key-HasLeaf :
        (k : KeyPress) (o : Option FormField) (m : Editor C)
        → m.sub ≡ none
        → HasLeaf (type_key coll k o m)
    unfolding type_key edit
    type_key-HasLeaf k none m h = closed-LeafOf m.sub _ h
    type_key-HasLeaf k (some f) m h = edit-HasLeaf m (edit_field k f.kind f) h

    dispatch-IsSound :
        (name : KeyName) (k : KeyPress) (m : Editor C)
        → m.sub ≡ none
        → m.cursor < length m.rows
        → IsSound (dispatch coll name k m)
    unfolding dispatch
    dispatch-IsSound ctrl_c k m h l = closed-LeafOf m.sub _ h
    dispatch-IsSound esc k m h l = closed-LeafOf m.sub _ h
    dispatch-IsSound up k m h l = closed-LeafOf m.sub _ h
    dispatch-IsSound shift_tab k m h l = closed-LeafOf m.sub _ h
    dispatch-IsSound down k m h l = closed-LeafOf m.sub _ h
    dispatch-IsSound tab k m h l = closed-LeafOf m.sub _ h
    dispatch-IsSound pgup k m h l = closed-LeafOf m.sub _ h
    dispatch-IsSound pgdown k m h l = closed-LeafOf m.sub _ h
    dispatch-IsSound home k m h l = closed-LeafOf m.sub _ h
    dispatch-IsSound end k m h l = closed-LeafOf m.sub _ h
    dispatch-IsSound save_key k m h l = save-IsSound m h
    dispatch-IsSound alt_save_key k m h l = save-IsSound m h
    dispatch-IsSound action_key k m h l =
        row-IsSound m.rows m.cursor _ l (λ r e. closed-LeafOf m.sub _ h)
    dispatch-IsSound enter k m h l =
        row-IsSound m.rows m.cursor _ l (λ r e. press-HasLeaf k r r.field m h e refl)
    dispatch-IsSound right k m h l =
        row-IsSound m.rows m.cursor _ l (λ r e. press-HasLeaf k r r.field m h e refl)
    dispatch-IsSound left k m h l =
        row-IsSound m.rows m.cursor _ l (λ r e. press-HasLeaf k r r.field m h e refl)
    dispatch-IsSound space k m h l =
        row-IsSound m.rows m.cursor _ l (λ r e. press-HasLeaf k r r.field m h e refl)
    dispatch-IsSound backspace k m h l =
        row-IsSound m.rows m.cursor _ l (λ r e. type_key-HasLeaf k r.field m h)
    dispatch-IsSound other_key k m h l =
        row-IsSound m.rows m.cursor _ l (λ r e. type_key-HasLeaf k r.field m h)

    press_sub-IsSound :
        (c : C) (m : Editor C)
        → has_field (get_elem? m.rows m.cursor) ≡ true
        → IsSound (press_sub coll c m)
    unfolding press_sub
    press_sub-IsSound c m h = rw h (by_state (coll.is_done c) (coll.is_cancelled c))
      where
        back_in : Editor C
        back_in = clamp (record m {
          rows = validate_at (update_row m.rows m.cursor (set_value (coll.literal c))) m.cursor;
          sub = none;
        })

        by_state :
            (d x : Bool)
            → IsSound (
                if d
                then (if true then stays back_in else none)
                else (if x
                    then stays (record m { sub = none })
                    else stays (record m { sub = some c })))
        by_state true x = tt
        by_state false true = tt
        by_state false false = h

    same-LeafOf : (o : Option C) (b b' : Bool) → b' ≡ b → LeafOf o b → LeafOf o b'
    same-LeafOf o b b' e h = subst (LeafOf o) (sym e) h

    -- Whatever the message, if the cursor is on a row and an open sub-editor stands over a leaf,
    -- then `Update` reads nothing that is not there, and an open sub-editor stands over a leaf
    -- afterwards.
    pub update-IsSound :
        (msg : Msg) (m : Editor C)
        → m.cursor < length m.rows
        → HasLeaf m
        → IsSound (update coll msg m)
    unfolding update
    update-IsSound (window_size n) m l h = h
    update-IsSound (patches ps) m l h =
        same-LeafOf m.sub _ _
          (has_field-validate_all (apply_all ps m.rows) m.cursor
            ∙ has_field-apply_all ps m.rows m.cursor)
          h
    update-IsSound (key_press k) m l h = by_sub m.sub refl h
      where
        by_sub :
            (o : Option C)
            → m.sub ≡ o
            → LeafOf o (has_field (get_elem? m.rows m.cursor))
            → IsSound (on_key coll k o m)
        by_sub none e h = dispatch-IsSound k.name k m e l
        by_sub (some c) e h = press_sub-IsSound (coll.update_coll k c) m h
