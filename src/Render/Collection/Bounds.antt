-- ===== src/Render/Collection/Bounds.antt =====
-- internal/render/collection.go: where the cursor of a sub-editor may stand.
use erdc_hpc_scripts.Base.{
  ℕ, zero, suc, ◌-◌, ◌≤◌, ◌<◌, ◌≡◌, refl, ap, Bool, true, false, not, List, [], ◌∷◌, arith, Text,
  text_eq, ltb, ◌==◌, length, length-append, if◌then◌else◌, inl, inr, Bool-cases,
}
use erdc_hpc_scripts.Render.Form.{FieldKind}
use erdc_hpc_scripts.Render.Editor.{
  KeyName, ctrl_c, esc, save_key, alt_save_key, up, shift_tab, down, tab, pgup, pgdown, home, end,
  action_key, enter, right, left, space, backspace, other_key, KeyPress, is_empty,
}
use erdc_hpc_scripts.Render.Collection.{
  CollRow, Coll, is_map, is_set, new_coll_editor, change_row, remove_row, type_cell, add_row,
  del_row, go_up, go_down, toggle, update_set, update_editing, update_nav, update_coll_editor,
}

-- The cursor is on a row or, in a list or a map, on the line that adds one; a cell that takes the
-- typing is there; the column is the key or the value.
pub record IsInBounds (e : Coll) : Type 0 where
  pub in_rows : e.cursor ≤ length e.rows
  pub set_row : is_set e.kind ≡ true → e.cursor ≤ length e.rows - 1
  pub cell : e.editing ≡ true → e.cursor < length e.rows
  pub column : e.col ≤ 1

length-change_row :
    (rows : List CollRow) (i : ℕ) (f : CollRow → CollRow)
    → length (change_row rows i f) ≡ length rows
unfolding change_row
length-change_row [] i f = refl
length-change_row (r ∷ rows) zero f = refl
length-change_row (r ∷ rows) (suc i) f = ap suc (length-change_row rows i f)

length-remove_row :
    (rows : List CollRow) (i : ℕ) → i < length rows → suc (length (remove_row rows i)) ≡ length rows
unfolding remove_row
length-remove_row [] i h = absurd (omega arith)
length-remove_row (r ∷ rows) zero h = refl
length-remove_row (r ∷ rows) (suc i) h = ap suc (length-remove_row rows i (omega arith))

change-IsInBounds :
    (e : Coll) (f : CollRow → CollRow)
    → IsInBounds e
    → IsInBounds (record e { rows = change_row e.rows e.cursor f })
change-IsInBounds e f v =
    let same = length-change_row e.rows e.cursor f in
    record {
      in_rows = omega (arith, same, v.in_rows);
      set_row = λ s. omega (arith, same, v.set_row s);
      cell = λ d. omega (arith, same, v.cell d);
      column = v.column;
    }

add_row-IsInBounds : (e : Coll) → is_set e.kind ≡ false → IsInBounds (add_row e)
unfolding add_row
add_row-IsInBounds e s =
    let n = length-append e.rows (record { key = []; val = []; on = false } ∷ []) in
    record {
      in_rows = omega (arith, n);
      set_row = λ t. cc;
      cell = λ d. omega (arith, n);
      column = omega arith;
    }

del_row-IsInBounds :
    (e : Coll) → is_set e.kind ≡ false → e.editing ≡ false → IsInBounds e → IsInBounds (del_row e)
unfolding del_row
del_row-IsInBounds e s d v = elim (Bool-cases (ltb e.cursor (length e.rows))) [
  | inl b ↦
      rw b (record { in_rows = ground arith; set_row = λ t. cc; cell = λ t. cc; column = v.column })
  | inr b ↦ rw b v
]

-- The flags are free, but a cell takes the typing only if it is there.
flags-IsInBounds :
    (e : Coll) (b d c : Bool)
    → (b ≡ true → e.cursor < length e.rows)
    → IsInBounds e
    → IsInBounds (record e { editing = b; done = d; cancel = c })
flags-IsInBounds e b d c h v = record {
  in_rows = v.in_rows;
  set_row = v.set_row;
  cell = h;
  column = v.column;
}

col-IsInBounds : (e : Coll) (n : ℕ) → n ≤ 1 → IsInBounds e → IsInBounds (record e { col = n })
col-IsInBounds e n h v = record {
  in_rows = v.in_rows;
  set_row = v.set_row;
  cell = v.cell;
  column = h;
}

go_up-IsInBounds : (e : Coll) → IsInBounds e → IsInBounds (go_up e)
go_up-IsInBounds e v = record {
  in_rows = omega (arith, v.in_rows);
  set_row = λ s. omega (arith, v.set_row s);
  cell = λ d. omega (arith, v.cell d);
  column = v.column;
}

go_down-IsInBounds :
    (last : ℕ) (e : Coll)
    → last ≤ length e.rows
    → (is_set e.kind ≡ true → last ≤ length e.rows - 1)
    → (e.editing ≡ true → last < length e.rows)
    → IsInBounds e
    → IsInBounds (go_down last e)
go_down-IsInBounds last e l s d v = elim (Bool-cases (ltb e.cursor last)) [
  | inl b ↦ rw b (record {
    in_rows = ground arith;
    set_row = λ t. ground (arith, s t);
    cell = λ t. ground (arith, d t);
    column = v.column;
  })
  | inr b ↦ rw b v
]

if-IsInBounds :
    (b : Bool) (e e' : Coll) → IsInBounds e → IsInBounds e' → IsInBounds (if b then e else e')
if-IsInBounds true e e' h h' = h
if-IsInBounds false e e' h h' = h'

set_down : (e : Coll) → IsInBounds e → IsInBounds (go_down (length e.rows - 1) e)
set_down e v =
    go_down-IsInBounds (length e.rows - 1) e (omega arith) (λ s. omega arith)
      (λ d. omega (arith, v.cell d)) v

update_set-IsInBounds :
    (n : KeyName) (t : Text) (e : Coll)
    → is_set e.kind ≡ true
    → IsInBounds e
    → IsInBounds (update_set n t e)
unfolding update_set
update_set-IsInBounds ctrl_c t e s v = flags-IsInBounds e e.editing e.done true v.cell v
update_set-IsInBounds esc t e s v = flags-IsInBounds e e.editing e.done true v.cell v
update_set-IsInBounds save_key t e s v = flags-IsInBounds e e.editing true e.cancel v.cell v
update_set-IsInBounds alt_save_key t e s v = flags-IsInBounds e e.editing true e.cancel v.cell v
update_set-IsInBounds up t e s v = go_up-IsInBounds e v
update_set-IsInBounds shift_tab t e s v = go_up-IsInBounds e v
update_set-IsInBounds down t e s v = set_down e v
update_set-IsInBounds tab t e s v = set_down e v
update_set-IsInBounds pgup t e s v = v
update_set-IsInBounds pgdown t e s v = v
update_set-IsInBounds home t e s v = v
update_set-IsInBounds end t e s v = v
update_set-IsInBounds action_key t e s v = v
update_set-IsInBounds enter t e s v = change-IsInBounds e toggle v
update_set-IsInBounds right t e s v = v
update_set-IsInBounds left t e s v = v
update_set-IsInBounds space t e s v = change-IsInBounds e toggle v
update_set-IsInBounds backspace t e s v = v
update_set-IsInBounds other_key t e s v =
    if-IsInBounds (text_eq t (120 ∷ [])) _ e (change-IsInBounds e toggle v) v

typing-IsInBounds :
    (t : Text) (e : Coll) (f : CollRow → CollRow)
    → IsInBounds e
    → IsInBounds (if not (is_empty t) then record e { rows = change_row e.rows e.cursor f } else e)
typing-IsInBounds t e f v = if-IsInBounds (not (is_empty t)) _ e (change-IsInBounds e f v) v

update_editing-IsInBounds :
    (n : KeyName) (t : Text) (e : Coll)
    → e.editing ≡ true
    → IsInBounds e
    → IsInBounds (update_editing n t e)
unfolding update_editing type_cell
update_editing-IsInBounds ctrl_c t e d v = typing-IsInBounds t e _ v
update_editing-IsInBounds esc t e d v = flags-IsInBounds e false e.done e.cancel (λ x. cc) v
update_editing-IsInBounds save_key t e d v = flags-IsInBounds e false true e.cancel (λ x. cc) v
update_editing-IsInBounds alt_save_key t e d v = flags-IsInBounds e false true e.cancel (λ x. cc) v
update_editing-IsInBounds up t e d v = typing-IsInBounds t e _ v
update_editing-IsInBounds shift_tab t e d v = typing-IsInBounds t e _ v
update_editing-IsInBounds down t e d v = typing-IsInBounds t e _ v
update_editing-IsInBounds tab t e d v = flags-IsInBounds e false e.done e.cancel (λ x. cc) v
update_editing-IsInBounds pgup t e d v = typing-IsInBounds t e _ v
update_editing-IsInBounds pgdown t e d v = typing-IsInBounds t e _ v
update_editing-IsInBounds home t e d v = typing-IsInBounds t e _ v
update_editing-IsInBounds end t e d v = typing-IsInBounds t e _ v
update_editing-IsInBounds action_key t e d v = typing-IsInBounds t e _ v
update_editing-IsInBounds enter t e d v = flags-IsInBounds e false e.done e.cancel (λ x. cc) v
update_editing-IsInBounds right t e d v = typing-IsInBounds t e _ v
update_editing-IsInBounds left t e d v = typing-IsInBounds t e _ v
update_editing-IsInBounds space t e d v = typing-IsInBounds t e _ v
update_editing-IsInBounds backspace t e d v = change-IsInBounds e _ v
update_editing-IsInBounds other_key t e d v = typing-IsInBounds t e _ v

update_nav-IsInBounds :
    (n : KeyName) (t : Text) (e : Coll)
    → is_set e.kind ≡ false
    → e.editing ≡ false
    → IsInBounds e
    → IsInBounds (update_nav n t e)
unfolding update_nav
update_nav-IsInBounds ctrl_c t e s d v = flags-IsInBounds e e.editing e.done true v.cell v
update_nav-IsInBounds esc t e s d v = flags-IsInBounds e e.editing e.done true v.cell v
update_nav-IsInBounds save_key t e s d v = flags-IsInBounds e e.editing true e.cancel v.cell v
update_nav-IsInBounds alt_save_key t e s d v = flags-IsInBounds e e.editing true e.cancel v.cell v
update_nav-IsInBounds up t e s d v = go_up-IsInBounds e v
update_nav-IsInBounds shift_tab t e s d v = go_up-IsInBounds e v
update_nav-IsInBounds down t e s d v =
    go_down-IsInBounds (length e.rows) e (omega arith) (λ x. cc) (λ x. cc) v
update_nav-IsInBounds tab t e s d v =
    go_down-IsInBounds (length e.rows) e (omega arith) (λ x. cc) (λ x. cc) v
update_nav-IsInBounds pgup t e s d v = v
update_nav-IsInBounds pgdown t e s d v = v
update_nav-IsInBounds home t e s d v = v
update_nav-IsInBounds end t e s d v = v
update_nav-IsInBounds action_key t e s d v = v
update_nav-IsInBounds enter t e s d v = elim (Bool-cases (e.cursor == length e.rows)) [
  | inl b ↦ rw b (add_row-IsInBounds e s)
  | inr b ↦ rw b (flags-IsInBounds e true e.done e.cancel (λ x. ground (arith, v.in_rows)) v)
]
update_nav-IsInBounds right t e s d v =
    if-IsInBounds (is_map e.kind) _ e (col-IsInBounds e 1 (omega arith) v) v
update_nav-IsInBounds left t e s d v =
    if-IsInBounds (is_map e.kind) _ e (col-IsInBounds e 0 (omega arith) v) v
update_nav-IsInBounds space t e s d v = v
update_nav-IsInBounds backspace t e s d v = v
update_nav-IsInBounds other_key t e s d v =
    if-IsInBounds (text_eq t (97 ∷ [])) _ _ (add_row-IsInBounds e s)
      (if-IsInBounds (text_eq t (100 ∷ [])) _ e (del_row-IsInBounds e s d v) v)

-- Through any key the cursor of a sub-editor stays on a row or, in a list or a map, on the line
-- that adds one; a cell that takes the typing is there, and the column is the key or the value.
pub update_coll_editor-IsInBounds :
    (k : KeyPress) (e : Coll) → IsInBounds e → IsInBounds (update_coll_editor k e)
unfolding update_coll_editor
update_coll_editor-IsInBounds k e v = by_mode (is_set e.kind) e.editing refl refl
  where
    by_mode :
        (s d : Bool)
        → is_set e.kind ≡ s
        → e.editing ≡ d
        → IsInBounds (
            if s
            then update_set k.name k.text e
            else if d
            then update_editing k.name k.text e
            else update_nav k.name k.text e)
    by_mode true d s h = update_set-IsInBounds k.name k.text e s v
    by_mode false true s h = update_editing-IsInBounds k.name k.text e h v
    by_mode false false s h = update_nav-IsInBounds k.name k.text e s h v

pub new_coll_editor-IsInBounds :
    (kind : FieldKind) (label lit : Text) (options : List Text)
    → IsInBounds (new_coll_editor kind label lit options)
unfolding new_coll_editor
new_coll_editor-IsInBounds kind label lit options = record {
  in_rows = omega arith;
  set_row = λ s. omega arith;
  cell = λ d. cc;
  column = omega arith;
}
