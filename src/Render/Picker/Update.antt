-- ===== src/Render/Picker/Update.antt =====
-- internal/render/select.go: `Update` of the picker, and what `Select` returns. A key is its name,
-- `msg.String()`, with its text, `msg.Key().Text`.
use erdc_hpc_scripts.Base.{
  ℕ, suc, ◌+◌, ◌-◌, Bool, true, false, not, ◌&&◌, ◌||◌, Option, none, some, List, [], ◌∷◌, ◌++◌,
  Text, codes, text_eq, and_then, ltb, length, get_elem?, if◌then◌else◌,
}
use mathlib.Core.Option
use erdc_hpc_scripts.Base.GoStrings.{trim_space}
use erdc_hpc_scripts.Render.Editor.{is_empty}
use erdc_hpc_scripts.Render.EditorUpdate.{drop_last}
use erdc_hpc_scripts.Render.Picker.Filter.{SelectRow}
use erdc_hpc_scripts.Render.Picker.Facets.{next_facet}
use erdc_hpc_scripts.Render.Picker.Model.{SelectModel, recompute, clamp_scroll, row_at, cursor_row}

pub record KeyPress : Type 0 where
  pub name : Text
  pub text : Text

pub data SelectMsg : Type 0 where
  window_size : ℕ → ℕ → SelectMsg
  tick : SelectMsg
  rows_fetched : List SelectRow → SelectMsg
  detail_fetched : Text → SelectMsg
  key_press : KeyPress → SelectMsg

-- What `Update` asks for: `fetch_and_tick` and `only_tick` start the next tick.
pub data SelectCmd : Type 0 where
  no_cmd quit fetch_and_tick only_tick : SelectCmd
  fetch_detail : Text → SelectCmd

-- The cases of the switch on a key.
pub data Command : Type 0 where
  cancel accept go_up go_down mark mark_all start_filter next_class inspect no_command : Command

unfoldable pub command_of : Text → Command
unfolding text_eq
command_of k =
    if text_eq k (codes "ctrl+c") || text_eq k (codes "q") || text_eq k (codes "esc")
    then cancel
    else if text_eq k (codes "enter")
    then accept
    else if text_eq k (codes "up") || text_eq k (codes "k")
    then go_up
    else if text_eq k (codes "down") || text_eq k (codes "j")
    then go_down
    else if text_eq k (codes " ") || text_eq k (codes "space")
    then mark
    else if text_eq k (codes "a")
    then mark_all
    else if text_eq k (codes "/")
    then start_filter
    else if text_eq k (codes "f")
    then next_class
    else if text_eq k (codes "i")
    then inspect
    else no_command

abbrev pub id_of : SelectRow → Text
id_of r = r.id

-- The cursor's id, "" beyond the shown rows.
abbrev pub cursor_id : SelectModel → Option Text
cursor_id m = if ltb m.cursor (length m.visible) then Option.map id_of (cursor_row m) else some []

abbrev pub set_mark : (Text → Bool) → Text → Bool → Text → Bool
set_mark selected id b i = if text_eq id i then b else selected i

-- The ids of the shown rows; an index out of range is a fault.
abbrev pub onto_id : Option SelectRow → Option (List Text) → Option (List Text)
onto_id none ids = none
onto_id (some r) none = none
onto_id (some r) (some ids) = some (r.id ∷ ids)

unfoldable pub shown_ids : List SelectRow → List ℕ → Option (List Text)
shown_ids rows [] = some []
shown_ids rows (i ∷ visible) = onto_id (get_elem? rows i) (shown_ids rows visible)

unfoldable pub are_marked : (Text → Bool) → List Text → Bool
are_marked selected [] = true
are_marked selected (id ∷ ids) = selected id && are_marked selected ids

unfoldable pub set_marks : (Text → Bool) → Bool → List Text → Text → Bool
set_marks selected b [] = selected
set_marks selected b (id ∷ ids) = set_marks (set_mark selected id b) b ids

abbrev pub seek : Option SelectRow → Text → ℕ → Option (Option ℕ) → Option (Option ℕ)
seek none id i rest = none
seek (some r) id i rest = if text_eq r.id id then some (some i) else rest

-- The loop of `applyRows`: the first shown row that has the id, from position `i` on.
unfoldable pub find_id : List SelectRow → List ℕ → Text → ℕ → Option (Option ℕ)
unfolding text_eq
find_id rows [] id i = some none
find_id rows (idx ∷ visible) id i = seek (get_elem? rows idx) id i (find_id rows visible id (suc i))

abbrev pub put_cursor : SelectModel → Option (Option ℕ) → Option SelectModel
put_cursor m none = none
put_cursor m (some none) = some m
put_cursor m (some (some i)) = some (record m { cursor = i })

-- `applyRows` after the view of the new rows is there.
abbrev pub restore_cursor : SelectModel → Text → Option SelectModel
restore_cursor m id =
    Option.map clamp_scroll
      (if is_empty id then some m else put_cursor m (find_id m.rows m.visible id 0))

-- The keys that need the row at the cursor, and those that move it.
abbrev pub move_up : SelectModel → SelectModel
move_up m = clamp_scroll (record m { cursor = m.cursor - 1 })

abbrev pub move_down : SelectModel → SelectModel
move_down m =
    clamp_scroll
      (record m { cursor = if ltb m.cursor (length m.visible - 1) then m.cursor + 1 else m.cursor })

abbrev pub toggle_row : SelectModel → SelectRow → SelectModel
toggle_row m r = record m { selected = set_mark m.selected r.id (not (m.selected r.id)) }

unfoldable pub toggle_mark : SelectModel → Option SelectModel
unfolding row_at
toggle_mark m =
    if m.spec.read_only || m.spec.pick_one
    then some m
    else if ltb 0 (length m.visible)
    then Option.map (toggle_row m) (cursor_row m)
    else some m

abbrev pub mark_ids : SelectModel → List Text → SelectModel
mark_ids m ids = record m { selected = set_marks m.selected (not (are_marked m.selected ids)) ids }

unfoldable pub toggle_all : SelectModel → Option SelectModel
unfolding shown_ids set_marks are_marked
toggle_all m =
    if m.spec.read_only || m.spec.pick_one
    then some m
    else Option.map (mark_ids m) (shown_ids m.rows m.visible)

abbrev pub and_cmd : SelectCmd → SelectModel → SelectModel × SelectCmd
and_cmd c m = (m, c)

abbrev pub ask_detail : SelectModel → SelectRow → SelectModel × SelectCmd
ask_detail m r = (record m { detail_loading = true }, fetch_detail r.id)

unfoldable pub inspect_row : SelectModel → Option (SelectModel × SelectCmd)
unfolding row_at
inspect_row m =
    if m.spec.has_detail && ltb m.cursor (length m.visible)
    then Option.map (ask_detail m) (cursor_row m)
    else some (m, no_cmd)

abbrev pub no_detail : Text
no_detail = codes "(no detail available)"

-- The overlay and the filter box take no refreshed rows.
abbrev pub is_busy : SelectModel → Bool
is_busy m = m.filtering || not (is_empty m.detail) || m.detail_loading

module _ (lower : Text → Text) where
  -- `applyRows`
  unfoldable pub apply_rows : List SelectRow → SelectModel → Option SelectModel
  unfolding recompute clamp_scroll find_id row_at
  apply_rows rows m =
      and_then (cursor_id m) (restore_cursor (recompute lower (record m { rows = rows })))

  -- `updateFilter`
  unfoldable pub update_filter : KeyPress → SelectModel → SelectModel
  unfolding recompute text_eq
  update_filter k m =
      if text_eq k.name (codes "enter")
      then record m { filtering = false }
      else if text_eq k.name (codes "esc")
      then recompute lower (record m { filtering = false; filter = [] })
      else if text_eq k.name (codes "backspace")
      then (if is_empty m.filter
          then m
          else recompute lower (record m { filter = drop_last m.filter }))
      else if is_empty k.text
      then m
      else recompute lower (record m { filter = m.filter ++ k.text })

  -- The facet filter at the next value.
  abbrev pub cycle_facet : SelectModel → SelectModel
  cycle_facet m =
      if ltb 0 m.spec.facet_col
      then clamp_scroll (
          recompute lower (record m { facet_val = next_facet m.spec.facet_col m.rows m.facet_val }))
      else m

  -- The switch on a key of the list.
  unfoldable pub run_command : Command → SelectModel → Option (SelectModel × SelectCmd)
  unfolding clamp_scroll recompute next_facet toggle_mark toggle_all inspect_row
  run_command cancel m = some (record m { confirmed = false }, quit)
  run_command accept m = some (record m { confirmed = true }, quit)
  run_command go_up m = some (move_up m, no_cmd)
  run_command go_down m = some (move_down m, no_cmd)
  run_command mark m = Option.map (and_cmd no_cmd) (toggle_mark m)
  run_command mark_all m = Option.map (and_cmd no_cmd) (toggle_all m)
  run_command start_filter m = some (record m { filtering = true }, no_cmd)
  run_command next_class m = some (cycle_facet m, no_cmd)
  run_command inspect m = inspect_row m
  run_command no_command m = some (m, no_cmd)

  -- A key press.
  unfoldable pub press : KeyPress → SelectModel → Option (SelectModel × SelectCmd)
  unfolding update_filter run_command command_of
  press k m =
      if m.detail_loading
      then some (m, no_cmd)
      else if not (is_empty m.detail)
      then some (record m { detail = [] }, no_cmd)
      else if m.filtering
      then some (update_filter k m, no_cmd)
      else run_command (command_of k.name) m

  -- `Update`
  unfoldable pub update_select : SelectMsg → SelectModel → Option (SelectModel × SelectCmd)
  unfolding press apply_rows clamp_scroll trim_space
  update_select (window_size w h) m =
      some (clamp_scroll (record m { width = w; height = h }), no_cmd)
  update_select tick m =
      if is_busy m || m.fetching
      then some (m, only_tick)
      else some (record m { fetching = true }, fetch_and_tick)
  update_select (rows_fetched rows) m = Option.map (and_cmd no_cmd) (
      if is_busy m
      then some (record m { fetching = false })
      else apply_rows rows (record m { fetching = false }))
  update_select (detail_fetched text) m = some (
    record m {
      detail_loading = false;
      detail = if is_empty (trim_space text) then no_detail else text;
    },
    no_cmd,
  )
  update_select (key_press k) m = press k m

-- The marked rows, in their order.
unfoldable pub marked_ids : (Text → Bool) → List SelectRow → List Text
marked_ids selected [] = []
marked_ids selected (r ∷ rows) =
    let rest = marked_ids selected rows in if selected r.id then r.id ∷ rest else rest

abbrev pub one_id : SelectRow → List Text
one_id r = r.id ∷ []

-- What `Select` returns when the program has ended with a model.
unfoldable pub select_result : SelectModel → Option (List Text)
unfolding row_at marked_ids
select_result m =
    if not m.confirmed
    then some []
    else if m.spec.pick_one
    then (if ltb m.cursor (length m.visible) then Option.map one_id (cursor_row m) else some [])
    else some (marked_ids m.selected m.rows)
