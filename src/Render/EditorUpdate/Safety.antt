-- ===== src/Render/EditorUpdate/Safety.antt =====
-- internal/render/editor.go, `Update`: what every message keeps.
use erdc_hpc_scripts.Base.{
  ℕ, ◌+◌, Bool, true, false, Option, none, some, List, arith, Text, length, get_elem?,
  if◌then◌else◌,
}
use mathlib.Core.Option
use erdc_hpc_scripts.Render.Form.{FormField}
use erdc_hpc_scripts.Render.EditorTree.{EdRow, back, forward}
use erdc_hpc_scripts.Render.EditorTree.Cursor.{
  IsParked, move-IsParked, page-IsParked, first_visible-zero, last_visible-IsParked, visible_zero,
}
use erdc_hpc_scripts.Render.EditorScroll.{page_size}
use erdc_hpc_scripts.Render.EditorScroll.OnScreen.{IsOnScreen, clamp_scroll-IsOnScreen}
use erdc_hpc_scripts.Render.Editor.{
  KeyName, ctrl_c, esc, save_key, alt_save_key, up, shift_tab, down, tab, pgup, pgdown, home, end,
  action_key, enter, right, left, space, backspace, other_key, KeyPress, CollEditor, Editor,
  update_row, validate_all, validate_at, set_value, expand_above, first_invalid, is_collection,
}
use erdc_hpc_scripts.Render.EditorUpdate.{
  edit, edited, save, saved_or_shown, press, type_key, dispatch, press_sub, Msg, window_size,
  patches, key_press, update, toggle_mark, clamp, stays, on_key, has_field, edit_field, opens,
}
use erdc_hpc_scripts.Render.EditorUpdate.Folds.{
  SameFolds-IsParked, validate_all-SameFolds, apply_all-SameFolds, validate_at-SameFolds,
  update_row-IsParked, visible-expand_above, length-expand_above, first_invalid-IsBelow,
  SameFolds-trans, IsBelow,
}

-- The editor shows its cursor: it is on a shown row, in the scroll window.
pub record IsShowing {C : Type 0} (m : Editor C) : Type 0 where
  pub parked : IsParked m.rows m.cursor
  pub on_screen : IsOnScreen m.rows m.height m.cursor m.top

module _ {C : Type 0} where
  pub clamp-IsShowing : (m : Editor C) → IsParked m.rows m.cursor → IsShowing (clamp m)
  clamp-IsShowing m h = record {
    parked = h;
    on_screen = clamp_scroll-IsOnScreen m.rows m.height m.cursor m.top h;
  }

  edited-IsShowing : (m : Editor C) (v : Option Text) → IsShowing m → IsShowing (clamp (edited m v))
  edited-IsShowing m none h = clamp-IsShowing m h.parked
  edited-IsShowing m (some v) h =
      clamp-IsShowing (edited m (some v))
        (SameFolds-IsParked _ m.rows m.cursor (validate_at-SameFolds m.rows m.cursor v) h.parked)

  -- What a message leaves shows the cursor, unless it quits.
  abbrev pub Showing : Option (Editor C × Bool) → Type 0
  Showing none = Unit
  Showing (some (m, true)) = Unit
  Showing (some (m, false)) = IsShowing m

  save-Showing : (m : Editor C) → IsShowing m → Showing (some (save m))
  unfolding save
  save-Showing m h =
      by_search (first_invalid (validate_all m.rows) 0)
        (first_invalid-IsBelow (validate_all m.rows) 0)
    where
      by_search :
          (o : Option ℕ)
          → IsBelow (0 + length (validate_all m.rows)) o
          → Showing (some (saved_or_shown (validate_all m.rows) m o))
      by_search none b = tt
      by_search (some i) b =
          clamp-IsShowing (record m { rows = expand_above (validate_all m.rows) i; cursor = i })
            (
              omega (arith, length-expand_above (validate_all m.rows) i),
              visible-expand_above (validate_all m.rows) i,
            )

  module _ (coll : CollEditor C) where
    press-IsShowing :
        (k : KeyPress) (r : EdRow) (o : Option FormField) (m : Editor C)
        → IsShowing m
        → IsShowing (press coll k r o m)
    unfolding press
    press-IsShowing k r none m h =
        clamp-IsShowing _ (update_row-IsParked m.rows m.cursor _ h.parked)
    press-IsShowing k r (some f) m h = by_kind (is_collection f.kind) (opens k.name)
      where
        opened : Editor C
        opened = record m { sub = some (coll.new_coll f.kind f.label f.value f.options) }

        by_kind :
            (b o : Bool) → IsShowing (if b then (if o then opened else m) else clamp (edit k f m))
        by_kind true true = record { parked = h.parked; on_screen = h.on_screen }
        by_kind true false = h
        by_kind false o = unfold edit in edited-IsShowing m (edit_field k f.kind f) h

    type_key-IsShowing :
        (k : KeyPress) (o : Option FormField) (m : Editor C)
        → IsShowing m
        → IsShowing (type_key coll k o m)
    unfolding type_key
    type_key-IsShowing k none m h = clamp-IsShowing m h.parked
    type_key-IsShowing k (some f) m h = edited-IsShowing m (edit_field k f.kind f) h

    map-Showing :
        (f : EdRow → Editor C) (o : Option EdRow)
        → ((r : EdRow) → IsShowing (f r))
        → Showing (Option.map (λ r. (f r, false)) o)
    map-Showing f none h = tt
    map-Showing f (some r) h = h r

    dispatch-Showing :
        (name : KeyName) (k : KeyPress) (m : Editor C)
        → IsShowing m
        → Showing (dispatch coll name k m)
    unfolding dispatch
    dispatch-Showing ctrl_c k m h = tt
    dispatch-Showing esc k m h = tt
    dispatch-Showing save_key k m h = save-Showing m h
    dispatch-Showing alt_save_key k m h = save-Showing m h
    dispatch-Showing up k m h = clamp-IsShowing _ (move-IsParked m.rows m.cursor back h.parked)
    dispatch-Showing shift_tab k m h =
        clamp-IsShowing _ (move-IsParked m.rows m.cursor back h.parked)
    dispatch-Showing down k m h = clamp-IsShowing _ (move-IsParked m.rows m.cursor forward h.parked)
    dispatch-Showing tab k m h = clamp-IsShowing _ (move-IsParked m.rows m.cursor forward h.parked)
    dispatch-Showing pgup k m h =
        clamp-IsShowing _ (page-IsParked (page_size m.height) m.rows m.cursor back h.parked)
    dispatch-Showing pgdown k m h =
        clamp-IsShowing _ (page-IsParked (page_size m.height) m.rows m.cursor forward h.parked)
    dispatch-Showing home k m h =
        clamp-IsShowing _
          (rw (first_visible-zero m.rows) (omega (arith, h.parked.0), visible_zero m.rows))
    dispatch-Showing end k m h = clamp-IsShowing _ (last_visible-IsParked m.rows m.cursor h.parked)
    dispatch-Showing action_key k m h =
        map-Showing _ (get_elem? m.rows m.cursor)
          (λ r. clamp-IsShowing _ (update_row-IsParked m.rows m.cursor toggle_mark h.parked))
    dispatch-Showing enter k m h =
        map-Showing _ (get_elem? m.rows m.cursor) (λ r. press-IsShowing k r r.field m h)
    dispatch-Showing right k m h =
        map-Showing _ (get_elem? m.rows m.cursor) (λ r. press-IsShowing k r r.field m h)
    dispatch-Showing left k m h =
        map-Showing _ (get_elem? m.rows m.cursor) (λ r. press-IsShowing k r r.field m h)
    dispatch-Showing space k m h =
        map-Showing _ (get_elem? m.rows m.cursor) (λ r. press-IsShowing k r r.field m h)
    dispatch-Showing backspace k m h =
        map-Showing _ (get_elem? m.rows m.cursor) (λ r. type_key-IsShowing k r.field m h)
    dispatch-Showing other_key k m h =
        map-Showing _ (get_elem? m.rows m.cursor) (λ r. type_key-IsShowing k r.field m h)

    press_sub-Showing : (c : C) (m : Editor C) → IsShowing m → Showing (press_sub coll c m)
    unfolding press_sub
    press_sub-Showing c m h =
        by_state (coll.is_done c) (has_field (get_elem? m.rows m.cursor)) (coll.is_cancelled c)
      where
        rows' : List EdRow
        rows' = validate_at (update_row m.rows m.cursor (set_value (coll.literal c))) m.cursor

        back_in : IsParked rows' m.cursor
        back_in =
            SameFolds-IsParked rows' m.rows m.cursor
              (validate_at-SameFolds m.rows m.cursor (coll.literal c)) h.parked

        by_state :
            (d f x : Bool)
            → Showing (
                if d
                then (if f then stays (clamp (record m { rows = rows'; sub = none })) else none)
                else (if x
                    then stays (record m { sub = none })
                    else stays (record m { sub = some c })))
        by_state true true x = clamp-IsShowing (record m { rows = rows'; sub = none }) back_in
        by_state true false x = tt
        by_state false f true = record { parked = h.parked; on_screen = h.on_screen }
        by_state false f false = record { parked = h.parked; on_screen = h.on_screen }

    -- An editor that shows its cursor shows it after any message, unless the message quits or
    -- faults: the cursor is on a row that no collapsed section hides, and that row is in the
    -- scroll window.
    pub update-Showing : (msg : Msg) (m : Editor C) → IsShowing m → Showing (update coll msg m)
    unfolding update
    update-Showing (window_size n) m h = clamp-IsShowing (record m { height = n }) h.parked
    update-Showing (patches ps) m h = clamp-IsShowing _ (
        SameFolds-IsParked _ m.rows m.cursor
          (SameFolds-trans _ _ m.rows (validate_all-SameFolds _) (apply_all-SameFolds ps m.rows))
          h.parked)
    update-Showing (key_press k) m h = by_sub m.sub
      where
        by_sub : (o : Option C) → Showing (on_key coll k o m)
        by_sub none = dispatch-Showing k.name k m h
        by_sub (some c) = press_sub-Showing (coll.update_coll k c) m h
