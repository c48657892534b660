-- ===== src/Render/Picker/Soundness.antt =====
-- internal/render/select.go: through any messages the picker's view is that of its filters, and its
-- cursor is on a shown row.
use erdc_hpc_scripts.Base.{
  ℕ, ◌+◌, ◌-◌, ◌≤◌, ◌<◌, ◌≡◌, refl, Bool, true, false, not, ◌&&◌, ◌||◌, Option, none, some, List,
  [], ◌++◌, arith, Text, codes, text_eq, ltb, length, if◌then◌else◌, inl, inr, Bool-cases,
}
use mathlib.Core.Option
use erdc_hpc_scripts.Render.Editor.{is_empty}
use erdc_hpc_scripts.Render.EditorUpdate.{drop_last}
use erdc_hpc_scripts.Render.Picker.Filter.{SelectRow}
use erdc_hpc_scripts.Render.Picker.Model.{
  SelectModel, is_shown, shown_from, recompute, list_lines, page_size, scroll_to, clamp_scroll,
  cursor_row,
}
use erdc_hpc_scripts.Render.Picker.Update.{
  KeyPress, SelectMsg, window_size, tick, rows_fetched, detail_fetched, key_press, SelectCmd,
  no_cmd, Command, cancel, accept, go_up, go_down, mark, mark_all, start_filter, next_class,
  inspect, no_command, command_of, cursor_id, put_cursor, restore_cursor, toggle_row, toggle_mark,
  mark_ids, toggle_all, and_cmd, inspect_row, is_busy, apply_rows, update_filter, run_command,
  press, update_select, shown_ids,
}
use erdc_hpc_scripts.Render.Picker.View.{
  AreWithin, view-AreWithin, row_at-some, shown_ids-some, Found, find_id-Found,
}

pub page_size-positive : (m : SelectModel) → 0 < page_size m
unfolding page_size
page_size-positive m = at_least_one (list_lines m)
  where
    at_least_one : (kept : ℕ) → 0 < (if ltb 1 kept then kept else 1)
    at_least_one kept = ground arith

pub scroll_to-holds :
    (page cursor top : ℕ)
    → 0 < page
    → (scroll_to page cursor (if ltb cursor top then cursor else top) ≤ cursor)
      × (cursor < scroll_to page cursor (if ltb cursor top then cursor else top) + page)
scroll_to-holds page cursor top h = ground arith

module _ (lower : Text → Text) where
  -- The view has exactly the rows that pass the filters, in order; the cursor is on one of them, or at
  -- 0 if there is none; the window starts at the cursor or above it.
  pub record IsSound (m : SelectModel) : Type 0 where
    pub view : m.visible ≡ shown_from (is_shown lower m) m.rows 0
    pub on_row : m.cursor ≤ length m.visible - 1
    pub scrolled : m.top ≤ m.cursor

  pub recompute-IsSound : (m : SelectModel) → IsSound (recompute lower m)
  unfolding recompute
  recompute-IsSound m = record { view = refl; on_row = omega arith; scrolled = omega arith }

  pub clamp_scroll-IsSound :
      (m : SelectModel)
      → m.visible ≡ shown_from (is_shown lower m) m.rows 0
      → m.cursor ≤ length m.visible - 1
      → IsSound (clamp_scroll m)
  unfolding clamp_scroll
  clamp_scroll-IsSound m v h = record {
    view = v;
    on_row = h;
    scrolled = (scroll_to-holds (page_size m) m.cursor m.top (page_size-positive m)).0;
  }

  -- An outcome that is not a fault and whose model is sound.
  abbrev pub Succeeds : Option (SelectModel × SelectCmd) → Type 0
  Succeeds none = ⊥
  Succeeds (some (m, c)) = IsSound m

  -- Marks, modes and flags do not matter.
  keep-IsSound :
      (m : SelectModel) (marks : Text → Bool) (typing : Bool) (text : Text) (b d c : Bool)
      → IsSound m
      → IsSound (record m {
        selected = marks;
        filtering = typing;
        detail = text;
        detail_loading = b;
        fetching = d;
        confirmed = c;
      })
  keep-IsSound m marks typing text b d c v = record {
    view = v.view;
    on_row = v.on_row;
    scrolled = v.scrolled;
  }

  if-IsSound : (b : Bool) (m n : SelectModel) → IsSound m → IsSound n → IsSound (if b then m else n)
  if-IsSound true m n v w = v
  if-IsSound false m n v w = w

  if-Succeeds :
      (b : Bool) (o p : Option (SelectModel × SelectCmd))
      → Succeeds o
      → Succeeds p
      → Succeeds (if b then o else p)
  if-Succeeds true o p v w = v
  if-Succeeds false o p v w = w

  pub rows-AreWithin : (m : SelectModel) → IsSound m → AreWithin (length m.rows) m.visible
  rows-AreWithin m v = rw v.view (view-AreWithin (is_shown lower m) m.rows)

  -- The row at the cursor is there, if any row is shown.
  pub cursor_row-some :
      (m : SelectModel)
      → IsSound m
      → ltb 0 (length m.visible) ≡ true
      → (r : SelectRow) × (cursor_row m ≡ some r)
  cursor_row-some m v h =
      row_at-some m.rows m.visible m.cursor (rows-AreWithin m v) (ground (arith, v.on_row))

  ids-some :
      (m : SelectModel) → IsSound m → (ids : List Text) × (shown_ids m.rows m.visible ≡ some ids)
  ids-some m v = shown_ids-some m.rows m.visible (rows-AreWithin m v)

  pub cursor_id-some : (m : SelectModel) → IsSound m → (id : Text) × (cursor_id m ≡ some id)
  cursor_id-some m v = elim (Bool-cases (ltb m.cursor (length m.visible))) [
    | inl b ↦ let row = cursor_row-some m v (ground arith) in (row.0.id, rw (b, row.1) refl)
    | inr b ↦ ([], rw b refl)
  ]

  toggle_mark-Succeeds :
      (m : SelectModel) → IsSound m → Succeeds (Option.map (and_cmd no_cmd) (toggle_mark m))
  unfolding toggle_mark
  toggle_mark-Succeeds m v = elim (Bool-cases (m.spec.read_only || m.spec.pick_one)) [
    | inl b ↦ rw b v
    | inr b ↦ elim (Bool-cases (ltb 0 (length m.visible))) [
      | inl h ↦
          let row = cursor_row-some m v h in
          rw (b, h, row.1)
            (keep-IsSound m (toggle_row m row.0).selected m.filtering m.detail m.detail_loading
              m.fetching m.confirmed v)
      | inr h ↦ rw (b, h) v
    ]
  ]

  toggle_all-Succeeds :
      (m : SelectModel) → IsSound m → Succeeds (Option.map (and_cmd no_cmd) (toggle_all m))
  unfolding toggle_all
  toggle_all-Succeeds m v = elim (Bool-cases (m.spec.read_only || m.spec.pick_one)) [
    | inl b ↦ rw b v
    | inr b ↦
        let ids = ids-some m v in
        rw (b, ids.1)
          (keep-IsSound m (mark_ids m ids.0).selected m.filtering m.detail m.detail_loading
            m.fetching m.confirmed v)
  ]

  inspect_row-Succeeds : (m : SelectModel) → IsSound m → Succeeds (inspect_row m)
  unfolding inspect_row
  inspect_row-Succeeds m v =
      elim (Bool-cases (m.spec.has_detail && ltb m.cursor (length m.visible))) [
        | inl b ↦
            let row = cursor_row-some m v (ground arith) in
            rw (b, row.1)
              (keep-IsSound m m.selected m.filtering m.detail true m.fetching m.confirmed v)
        | inr b ↦ rw b v
      ]

  run_command-Succeeds :
      (c : Command) (m : SelectModel) → IsSound m → Succeeds (run_command lower c m)
  unfolding run_command
  run_command-Succeeds cancel m v =
      keep-IsSound m m.selected m.filtering m.detail m.detail_loading m.fetching false v
  run_command-Succeeds accept m v =
      keep-IsSound m m.selected m.filtering m.detail m.detail_loading m.fetching true v
  run_command-Succeeds go_up m v =
      clamp_scroll-IsSound (record m { cursor = m.cursor - 1 }) v.view (omega (arith, v.on_row))
  run_command-Succeeds go_down m v =
      clamp_scroll-IsSound (record m { cursor = _ }) v.view (ground (arith, v.on_row))
  run_command-Succeeds mark m v = toggle_mark-Succeeds m v
  run_command-Succeeds mark_all m v = toggle_all-Succeeds m v
  run_command-Succeeds start_filter m v =
      keep-IsSound m m.selected true m.detail m.detail_loading m.fetching m.confirmed v
  run_command-Succeeds next_class m v =
      if-IsSound (ltb 0 m.spec.facet_col) _ m
        (let w = recompute-IsSound (record m { facet_val = _ }) in
          clamp_scroll-IsSound (recompute lower (record m { facet_val = _ })) w.view w.on_row)
        v
  run_command-Succeeds inspect m v = inspect_row-Succeeds m v
  run_command-Succeeds no_command m v = v

  update_filter-IsSound :
      (k : KeyPress) (m : SelectModel) → IsSound m → IsSound (update_filter lower k m)
  unfolding update_filter
  update_filter-IsSound k m v =
      if-IsSound (text_eq k.name (codes "enter")) _ _
        (keep-IsSound m m.selected false m.detail m.detail_loading m.fetching m.confirmed v)
        (if-IsSound (text_eq k.name (codes "esc")) _ _
          (recompute-IsSound (record m { filtering = false; filter = [] }))
          (if-IsSound (text_eq k.name (codes "backspace")) _ _
            (if-IsSound (is_empty m.filter) m _ v
              (recompute-IsSound (record m { filter = drop_last m.filter })))
            (if-IsSound (is_empty k.text) m _ v
              (recompute-IsSound (record m { filter = m.filter ++ k.text })))))

  press-Succeeds : (k : KeyPress) (m : SelectModel) → IsSound m → Succeeds (press lower k m)
  unfolding press
  press-Succeeds k m v = if-Succeeds m.detail_loading (some (m, no_cmd)) _ v (
      if-Succeeds (not (is_empty m.detail)) (some (record m { detail = [] }, no_cmd)) _
        (keep-IsSound m m.selected m.filtering [] m.detail_loading m.fetching m.confirmed v)
        (if-Succeeds m.filtering (some (update_filter lower k m, no_cmd)) _
          (update_filter-IsSound k m v) (run_command-Succeeds (command_of k.name) m v)))

  put_cursor-IsSound :
      (m : SelectModel) (id : Text)
      → IsSound m
      → Succeeds (Option.map (and_cmd no_cmd) (restore_cursor m id))
  put_cursor-IsSound m id v = elim (Bool-cases (is_empty id)) [
    | inl b ↦ rw b (clamp_scroll-IsSound m v.view v.on_row)
    | inr b ↦
        let found = find_id-Found m.rows m.visible id 0 (rows-AreWithin m v) in
        rw (b, found.1) (at found.0 found.2)
  ]
    where
      at :
          (o : Option ℕ)
          → Found m.rows m.visible id 0 o
          → Succeeds (Option.map (and_cmd no_cmd) (Option.map clamp_scroll (put_cursor m (some o))))
      at none found = clamp_scroll-IsSound m v.view v.on_row
      at (some i) found =
          clamp_scroll-IsSound (record m { cursor = i }) v.view (omega (arith, found.1, found.2))

  apply_rows-Succeeds :
      (rows : List SelectRow) (m : SelectModel)
      → IsSound m
      → Succeeds (Option.map (and_cmd no_cmd) (apply_rows lower rows m))
  unfolding apply_rows
  apply_rows-Succeeds rows m v =
      let id = cursor_id-some m v in
      rw id.1 (put_cursor-IsSound _ id.0 (recompute-IsSound (record m { rows = rows })))

  -- No message makes the picker read a row that is not there, and each keeps the model sound.
  pub update_select-Succeeds :
      (msg : SelectMsg) (m : SelectModel) → IsSound m → Succeeds (update_select lower msg m)
  unfolding update_select
  update_select-Succeeds (window_size w h) m v =
      clamp_scroll-IsSound (record m { width = w; height = h }) v.view v.on_row
  update_select-Succeeds tick m v =
      if-Succeeds (is_busy m || m.fetching) (some (m, _)) _ v
        (keep-IsSound m m.selected m.filtering m.detail m.detail_loading true m.confirmed v)
  update_select-Succeeds (rows_fetched rows) m v =
      let w = keep-IsSound m m.selected m.filtering m.detail m.detail_loading false m.confirmed v in
      elim (Bool-cases (is_busy m)) [
        | inl b ↦ rw b w
        | inr b ↦ rw b (apply_rows-Succeeds rows (record m { fetching = false }) w)
      ]
  update_select-Succeeds (detail_fetched text) m v =
      keep-IsSound m m.selected m.filtering _ false m.fetching m.confirmed v
  update_select-Succeeds (key_press k) m v = press-Succeeds k m v
