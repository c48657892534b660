-- ===== src/Render/Picker/Window.antt =====
-- internal/render/select.go: the row at the cursor is in the scroll window of the list.
use erdc_hpc_scripts.Base.{
  ◌+◌, ◌-◌, ◌≤◌, ◌<◌, ◌≡◌, Bool, true, false, not, ◌&&◌, ◌||◌, Option, none, some, List, [], Text,
  and_then, ltb, length, if◌then◌else◌, inl, inr, Bool-cases,
}
use mathlib.Core.Option
use erdc_hpc_scripts.Base.GoStrings.{trim_space}
use erdc_hpc_scripts.Render.Editor.{is_empty}
use erdc_hpc_scripts.Render.Picker.Filter.{SelectRow}
use erdc_hpc_scripts.Render.Picker.Facets.{next_facet}
use erdc_hpc_scripts.Render.Picker.Model.{
  SelectModel, recompute, page_size, clamp_scroll, cursor_row,
}
use erdc_hpc_scripts.Render.Picker.Update.{
  SelectMsg, window_size, tick, rows_fetched, detail_fetched, key_press, SelectCmd, no_cmd, Command,
  cancel, accept, go_up, go_down, mark, mark_all, start_filter, next_class, inspect, no_command,
  command_of, cursor_id, restore_cursor, toggle_row, toggle_mark, mark_ids, toggle_all, and_cmd,
  ask_detail, inspect_row, is_busy, no_detail, apply_rows, update_filter, run_command, press,
  update_select, shown_ids,
}
use erdc_hpc_scripts.Render.Picker.Soundness.{page_size-positive, scroll_to-holds}

-- The row at the cursor is among the rows that a page shows.
abbrev pub IsInWindow : SelectModel → Type 0
IsInWindow m = (m.top ≤ m.cursor) × (m.cursor < m.top + page_size m)

-- An outcome that leaves the list without the filter box has the cursor in its window.
abbrev pub Shows : Option (SelectModel × SelectCmd) → Type 0
Shows none = Unit
Shows (some (m, c)) = m.filtering ≡ false → IsInWindow m

clamp_scroll-IsInWindow : (m : SelectModel) → IsInWindow (clamp_scroll m)
unfolding clamp_scroll page_size
clamp_scroll-IsInWindow m = scroll_to-holds (page_size m) m.cursor m.top (page_size-positive m)

if-Shows :
    (b : Bool) (o p : Option (SelectModel × SelectCmd))
    → Shows o
    → Shows p
    → Shows (if b then o else p)
if-Shows true o p v w = v
if-Shows false o p v w = w

-- Marks, modes and flags do not matter, the filter box apart.
keep-IsInWindow :
    (m : SelectModel) (marks : Text → Bool) (text : Text) (b d c : Bool)
    → IsInWindow m
    → IsInWindow (record m {
      selected = marks;
      detail = text;
      detail_loading = b;
      fetching = d;
      confirmed = c;
    })
unfolding page_size
keep-IsInWindow m marks text b d c v = v

map-Shows :
    {A : Type 0} (f : A → SelectModel × SelectCmd) (o : Option A)
    → ((a : A) → IsInWindow (f a).0)
    → Shows (Option.map f o)
map-Shows f none h = tt
map-Shows f (some a) h = λ _. h a

toggle_mark-Shows :
    (m : SelectModel) → IsInWindow m → Shows (Option.map (and_cmd no_cmd) (toggle_mark m))
unfolding toggle_mark
toggle_mark-Shows m v = elim (Bool-cases (m.spec.read_only || m.spec.pick_one)) [
  | inl b ↦ rw b (λ _. v)
  | inr b ↦ elim (Bool-cases (ltb 0 (length m.visible))) [
    | inl h ↦ rw (b, h) (at (cursor_row m))
    | inr h ↦ rw (b, h) (λ _. v)
  ]
]
  where
    at : (o : Option SelectRow) → Shows (Option.map (and_cmd no_cmd) (Option.map (toggle_row m) o))
    at none = tt
    at (some r) = λ _. keep-IsInWindow m _ m.detail m.detail_loading m.fetching m.confirmed v

toggle_all-Shows :
    (m : SelectModel) → IsInWindow m → Shows (Option.map (and_cmd no_cmd) (toggle_all m))
unfolding toggle_all
toggle_all-Shows m v = elim (Bool-cases (m.spec.read_only || m.spec.pick_one)) [
  | inl b ↦ rw b (λ _. v)
  | inr b ↦ rw b (at (shown_ids m.rows m.visible))
]
  where
    at : (o : Option (List Text)) → Shows (Option.map (and_cmd no_cmd) (Option.map (mark_ids m) o))
    at none = tt
    at (some ids) = λ _. keep-IsInWindow m _ m.detail m.detail_loading m.fetching m.confirmed v

inspect_row-Shows : (m : SelectModel) → IsInWindow m → Shows (inspect_row m)
unfolding inspect_row
inspect_row-Shows m v =
    if-Shows (m.spec.has_detail && ltb m.cursor (length m.visible)) _ (some (m, no_cmd))
      (map-Shows (ask_detail m) (cursor_row m)
        (λ r. keep-IsInWindow m m.selected m.detail true m.fetching m.confirmed v))
      (λ _. v)

module _ (lower : Text → Text) where
  run_command-Shows : (c : Command) (m : SelectModel) → IsInWindow m → Shows (run_command lower c m)
  unfolding run_command
  run_command-Shows cancel m v =
      λ _. keep-IsInWindow m m.selected m.detail m.detail_loading m.fetching false v
  run_command-Shows accept m v =
      λ _. keep-IsInWindow m m.selected m.detail m.detail_loading m.fetching true v
  run_command-Shows go_up m v = λ _. clamp_scroll-IsInWindow (record m { cursor = m.cursor - 1 })
  run_command-Shows go_down m v = λ _.
      clamp_scroll-IsInWindow (record m {
        cursor = if ltb m.cursor (length m.visible - 1) then m.cursor + 1 else m.cursor;
      })
  run_command-Shows mark m v = toggle_mark-Shows m v
  run_command-Shows mark_all m v = toggle_all-Shows m v
  run_command-Shows start_filter m v = λ h. absurd cc
  run_command-Shows next_class m v = by_facet (ltb 0 m.spec.facet_col)
    where
      turned : SelectModel
      turned =
          recompute lower (record m { facet_val = next_facet m.spec.facet_col m.rows m.facet_val })

      by_facet : (b : Bool) → Shows (some (if b then clamp_scroll turned else m, no_cmd))
      by_facet true = λ _. clamp_scroll-IsInWindow turned
      by_facet false = λ _. v
  run_command-Shows inspect m v = inspect_row-Shows m v
  run_command-Shows no_command m v = λ _. v

  apply_rows-Shows :
      (rows : List SelectRow) (m : SelectModel)
      → Shows (Option.map (and_cmd no_cmd) (apply_rows lower rows m))
  unfolding apply_rows
  apply_rows-Shows rows m = by_id (cursor_id m)
    where
      clamped :
          (o : Option SelectModel) → Shows (Option.map (and_cmd no_cmd) (Option.map clamp_scroll o))
      clamped none = tt
      clamped (some n) = λ _. clamp_scroll-IsInWindow n

      by_id :
          (o : Option Text)
          → Shows (
              Option.map
                (and_cmd no_cmd)
                (and_then o (restore_cursor (recompute lower (record m { rows = rows })))))
      by_id none = tt
      by_id (some id) = clamped _

  -- Outside of the filter box the row at the cursor is drawn: if it is in the scroll window
  -- before a message it is there after it, whatever the message, unless that opens the filter
  -- box.
  pub update_select-Shows :
      (msg : SelectMsg) (m : SelectModel)
      → m.filtering ≡ false
      → IsInWindow m
      → Shows (update_select lower msg m)
  unfolding update_select press
  update_select-Shows (window_size w h) m f v =
      λ _. clamp_scroll-IsInWindow (record m { width = w; height = h })
  update_select-Shows tick m f v =
      if-Shows (is_busy m || m.fetching) (some (m, _)) _ (λ _. v)
        (λ _. keep-IsInWindow m m.selected m.detail m.detail_loading true m.confirmed v)
  update_select-Shows (rows_fetched rows) m f v = elim (Bool-cases (is_busy m)) [
    | inl b ↦ rw b (λ _. keep-IsInWindow m m.selected m.detail m.detail_loading false m.confirmed v)
    | inr b ↦ rw b (apply_rows-Shows rows (record m { fetching = false }))
  ]
  update_select-Shows (detail_fetched text) m f v = λ _.
      keep-IsInWindow m m.selected (if is_empty (trim_space text) then no_detail else text) false
        m.fetching m.confirmed v
  update_select-Shows (key_press k) m f v =
      if-Shows m.detail_loading (some (m, no_cmd)) _ (λ _. v)
        (if-Shows (not (is_empty m.detail)) (some (record m { detail = [] }, no_cmd)) _
          (λ _. keep-IsInWindow m m.selected [] m.detail_loading m.fetching m.confirmed v)
          (by_mode m.filtering f))
    where
      by_mode :
          (b : Bool)
          → b ≡ false
          → Shows (
              if b
              then some (update_filter lower k m, no_cmd)
              else run_command lower (command_of k.name) m)
      by_mode true h = absurd cc
      by_mode false h = run_command-Shows (command_of k.name) m v
