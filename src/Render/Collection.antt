-- ===== src/Render/Collection.antt =====
-- internal/render/collection.go: the sub-editor of a list, a map or a set. The text of the key that
-- `msg.String()` names is the key's text if it has one that is not a blank, so a letter's name is its
-- text. A column is 0 for the key and 1 for the value.
use erdc_hpc_scripts.Base.{
  ℕ, zero, suc, ◌+◌, ◌-◌, Bool, true, false, not, ◌&&◌, ◌||◌, Option, none, some, List, [], ◌∷◌,
  ◌++◌, Text, text_eq, ltb, ◌==◌, length, get_elem?, if◌then◌else◌,
}
use mathlib.Core.List.{map}
use erdc_hpc_scripts.Render.Form.{
  FieldKind, field_text, field_enum, field_list, field_map, field_set, contains,
}
use erdc_hpc_scripts.Render.Literal.{parse_list, parse_map, format_list, format_map}
use erdc_hpc_scripts.Render.Editor.{
  KeyName, ctrl_c, esc, save_key, alt_save_key, up, shift_tab, down, tab, enter, right, left, space,
  backspace, other_key, KeyPress, CollEditor, is_empty,
}
use erdc_hpc_scripts.Render.EditorUpdate.{drop_last}
pub mod Bounds
pub mod Members

pub record CollRow : Type 0 where
  pub key : Text
  pub val : Text
  pub on : Bool

pub record Coll : Type 0 where
  pub kind : FieldKind
  pub label : Text
  pub rows : List CollRow
  pub cursor : ℕ
  pub col : ℕ
  pub editing : Bool
  pub done : Bool
  pub cancel : Bool

abbrev pub is_map : FieldKind → Bool
is_map field_map = true
is_map _ = false

abbrev pub is_set : FieldKind → Bool
is_set field_set = true
is_set _ = false

abbrev pub pair_row : Text × Text → CollRow
pair_row (k, v) = record { key = k; val = v; on = false }

abbrev pub item_row : Text → CollRow
item_row v = record { key = []; val = v; on = false }

-- A loop of `newCollEditor` that makes a row of each text that was not seen before.
unfoldable pub new_rows : (Text → Bool) → List Text → List Text → List CollRow
unfolding contains
new_rows on seen [] = []
new_rows on seen (v ∷ vs) =
    let rest = new_rows on (if contains seen v then seen else v ∷ seen) vs in
    if contains seen v then rest else record { key = []; val = v; on = on v } ∷ rest

-- What the loop has seen at its end.
unfoldable pub seen_after : List Text → List Text → List Text
unfolding contains
seen_after seen [] = seen
seen_after seen (v ∷ vs) = seen_after (if contains seen v then seen else v ∷ seen) vs

-- The rows of a set: the universe with its members checked, then the members outside of it.
unfoldable pub set_rows : List Text → List Text → List CollRow
unfolding new_rows seen_after
set_rows members options =
    new_rows (contains members) [] options ++ new_rows (λ v. true) (seen_after [] options) members

unfoldable pub opening_rows : FieldKind → Text → List Text → List CollRow
unfolding set_rows parse_list parse_map
opening_rows field_map lit options = map pair_row (parse_map lit)
opening_rows field_set lit options = set_rows (parse_list lit) options
opening_rows _ lit options = map item_row (parse_list lit)

-- `newCollEditor`
unfoldable pub new_coll_editor : FieldKind → Text → Text → List Text → Coll
unfolding opening_rows
new_coll_editor kind label lit options = record {
  kind = kind;
  label = label;
  rows = opening_rows kind lit options;
  cursor = 0;
  col = 0;
  editing = false;
  done = false;
  cancel = false;
}

-- A row at an index given anew; out of range, where `cell` is nil, nothing changes.
unfoldable pub change_row : List CollRow → ℕ → (CollRow → CollRow) → List CollRow
change_row [] i f = []
change_row (r ∷ rows) zero f = f r ∷ rows
change_row (r ∷ rows) (suc i) f = r ∷ change_row rows i f

unfoldable pub remove_row : List CollRow → ℕ → List CollRow
remove_row [] i = []
remove_row (r ∷ rows) zero = rows
remove_row (r ∷ rows) (suc i) = r ∷ remove_row rows i

-- The text of the cell at the cursor changed: `cell`, and what is done through its pointer.
abbrev pub change_cell : Bool → (Text → Text) → CollRow → CollRow
change_cell true f r = record r { key = f r.key }
change_cell false f r = record r { val = f r.val }

unfoldable pub type_cell : Coll → (Text → Text) → Coll
unfolding change_row
type_cell e f = record e {
  rows = change_row e.rows e.cursor (change_cell (is_map e.kind && e.col == 0) f);
}

-- `addRow`
unfoldable pub add_row : Coll → Coll
add_row e = record e {
  rows = e.rows ++ record { key = []; val = []; on = false } ∷ [];
  cursor = length e.rows;
  col = 0;
  editing = true;
}

-- `delRow`
unfoldable pub del_row : Coll → Coll
unfolding remove_row
del_row e =
    let rows = remove_row e.rows e.cursor in
    let next = if ltb (length rows) e.cursor then length rows else e.cursor in
    if ltb e.cursor (length e.rows) then record e { rows = rows; cursor = next } else e

abbrev pub go_up : Coll → Coll
go_up e = record e { cursor = e.cursor - 1 }

-- The cursor goes down to `last` at most.
abbrev pub go_down : ℕ → Coll → Coll
go_down last e = if ltb e.cursor last then record e { cursor = e.cursor + 1 } else e

abbrev pub toggle : CollRow → CollRow
toggle r = record r { on = not r.on }

abbrev pub toggle_at : Coll → Coll
toggle_at e = record e { rows = change_row e.rows e.cursor toggle }

-- The keys of a set.
unfoldable pub update_set : KeyName → Text → Coll → Coll
unfolding change_row text_eq
update_set esc t e = record e { cancel = true }
update_set ctrl_c t e = record e { cancel = true }
update_set save_key t e = record e { done = true }
update_set alt_save_key t e = record e { done = true }
update_set up t e = go_up e
update_set shift_tab t e = go_up e
update_set down t e = go_down (length e.rows - 1) e
update_set tab t e = go_down (length e.rows - 1) e
update_set space t e = toggle_at e
update_set enter t e = toggle_at e
update_set other_key t e = if text_eq t (120 ∷ []) then toggle_at e else e
update_set _ t e = e

-- The keys of a list or a map while a cell takes the typing.
unfoldable pub update_editing : KeyName → Text → Coll → Coll
unfolding type_cell
update_editing enter t e = record e { editing = false }
update_editing tab t e = record e { editing = false }
update_editing esc t e = record e { editing = false }
update_editing save_key t e = record e { editing = false; done = true }
update_editing alt_save_key t e = record e { editing = false; done = true }
update_editing backspace t e = type_cell e drop_last
update_editing _ t e = if not (is_empty t) then type_cell e (λ s. s ++ t) else e

abbrev pub on_letter : Text → Coll → Coll
on_letter t e =
    if text_eq t (97 ∷ []) then add_row e else if text_eq t (100 ∷ []) then del_row e else e

-- The keys of a list or a map otherwise.
unfoldable pub update_nav : KeyName → Text → Coll → Coll
unfolding add_row del_row text_eq
update_nav esc t e = record e { cancel = true }
update_nav ctrl_c t e = record e { cancel = true }
update_nav save_key t e = record e { done = true }
update_nav alt_save_key t e = record e { done = true }
update_nav up t e = go_up e
update_nav shift_tab t e = go_up e
update_nav down t e = go_down (length e.rows) e
update_nav tab t e = go_down (length e.rows) e
update_nav left t e = if is_map e.kind then record e { col = 0 } else e
update_nav right t e = if is_map e.kind then record e { col = 1 } else e
update_nav enter t e = if e.cursor == length e.rows then add_row e else record e { editing = true }
update_nav other_key t e = on_letter t e
update_nav _ t e = e

-- `update`
unfoldable pub update_coll_editor : KeyPress → Coll → Coll
unfolding update_set update_editing update_nav
update_coll_editor k e =
    if is_set e.kind
    then update_set k.name k.text e
    else if e.editing
    then update_editing k.name k.text e
    else update_nav k.name k.text e

abbrev pub pair_of : CollRow → Text × Text
pair_of r = (r.key, r.val)

unfoldable pub shown_items : Bool → List CollRow → List Text
shown_items all [] = []
shown_items all (r ∷ rows) =
    let rest = shown_items all rows in if all || r.on then r.val ∷ rest else rest

-- `literal`
unfoldable pub coll_literal : Coll → Text
unfolding shown_items format_list format_map
coll_literal e =
    if is_map e.kind
    then format_map (map pair_of e.rows)
    else format_list (shown_items (not (is_set e.kind)) e.rows)

-- The sub-editor that the tree editor opens.
abbrev pub collection : CollEditor Coll
collection = record {
  new_coll = new_coll_editor;
  update_coll = update_coll_editor;
  is_done = λ (e : Coll). e.done;
  is_cancelled = λ (e : Coll). e.cancel;
  literal = coll_literal;
}
