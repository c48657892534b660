-- ===== src/Render/Picker/Marks.antt =====
-- internal/render/select.go: the marks of the picker and the row at its cursor through a refresh.
use erdc_hpc_scripts.Base.{
  ℕ, ◌≡◌, refl, ap, ◌∙◌, Bool, true, false, not, ◌&&◌, ◌||◌, Option, none, some, List, [], ◌∷◌,
  Text, codes, text_eq, and_then, ltb, length, if◌then◌else◌, inl, inr, Bool-cases,
}
use mathlib.Core.Option
use erdc_hpc_scripts.Render.Form.{contains}
use erdc_hpc_scripts.Render.Editor.{is_empty}
use erdc_hpc_scripts.Render.Picker.Filter.{SelectRow}
use erdc_hpc_scripts.Render.Picker.Model.{SelectModel, recompute, clamp_scroll, cursor_row}
use erdc_hpc_scripts.Render.Picker.Update.{
  KeyPress, SelectMsg, window_size, tick, rows_fetched, detail_fetched, key_press, SelectCmd,
  no_cmd, Command, cancel, accept, go_up, go_down, mark, mark_all, start_filter, next_class,
  inspect, no_command, command_of, cursor_id, shown_ids, are_marked, set_mark, set_marks,
  put_cursor, restore_cursor, toggle_all, and_cmd, ask_detail, inspect_row, is_busy, apply_rows,
  update_filter, run_command, press, update_select,
}

set_marks-contains :
    (selected : Text → Bool) (b : Bool) (ids : List Text) (i : Text)
    → set_marks selected b ids i ≡ (if contains ids i then b else selected i)
unfolding set_marks contains
set_marks-contains selected b [] i = refl
set_marks-contains selected b (id ∷ ids) i =
    set_marks-contains (set_mark selected id b) b ids i ∙ either (text_eq id i) (contains ids i)
  where
    either :
        (t c : Bool)
        → (if c then b else if t then b else selected i) ≡ (if t || c then b else selected i)
    either true true = refl
    either true false = refl
    either false c = refl

-- The key `a` marks all shown rows, or unmarks them all if they all were marked; the marks of other
-- ids stay as they are. The picker is one that takes marks.
pub toggle_all-selected :
    (m : SelectModel) (ids : List Text) (i : Text)
    → (m.spec.read_only || m.spec.pick_one) ≡ false
    → shown_ids m.rows m.visible ≡ some ids
    → Option.map (λ (n : SelectModel). n.selected i) (toggle_all m)
      ≡ some (if contains ids i then not (are_marked m.selected ids) else m.selected i)
unfolding toggle_all
toggle_all-selected m ids i b h =
    rw (b, h) (ap some (set_marks-contains m.selected (not (are_marked m.selected ids)) ids i))

-- The marks of an outcome.
abbrev pub Keeps : (Text → Bool) → Option (SelectModel × SelectCmd) → Type 0
Keeps marks none = Unit
Keeps marks (some (m, c)) = m.selected ≡ marks

if-Keeps :
    (marks : Text → Bool) (b : Bool) (o p : Option (SelectModel × SelectCmd))
    → Keeps marks o
    → Keeps marks p
    → Keeps marks (if b then o else p)
if-Keeps marks true o p v w = v
if-Keeps marks false o p v w = w

-- The keys that mark rows.
abbrev pub is_marking : Command → Bool
is_marking mark = true
is_marking mark_all = true
is_marking _ = false

abbrev pub is_mark_key : SelectMsg → Bool
is_mark_key (key_press k) = is_marking (command_of k.name)
is_mark_key _ = false

inspect_row-Keeps : (m : SelectModel) → Keeps m.selected (inspect_row m)
unfolding inspect_row
inspect_row-Keeps m =
    if-Keeps m.selected (m.spec.has_detail && ltb m.cursor (length m.visible)) _ (some (m, no_cmd))
      (at (cursor_row m)) refl
  where
    at : (o : Option SelectRow) → Keeps m.selected (Option.map (ask_detail m) o)
    at none = tt
    at (some r) = refl

module _ (lower : Text → Text) where
  run_command-Keeps :
      (c : Command) (m : SelectModel)
      → is_marking c ≡ false
      → Keeps m.selected (run_command lower c m)
  unfolding run_command clamp_scroll recompute
  run_command-Keeps cancel m h = refl
  run_command-Keeps accept m h = refl
  run_command-Keeps go_up m h = refl
  run_command-Keeps go_down m h = refl
  run_command-Keeps mark m h = absurd cc
  run_command-Keeps mark_all m h = absurd cc
  run_command-Keeps start_filter m h = refl
  run_command-Keeps next_class m h = elim (Bool-cases (ltb 0 m.spec.facet_col)) [
    | inl b ↦ rw b refl
    | inr b ↦ rw b refl
  ]
  run_command-Keeps inspect m h = inspect_row-Keeps m
  run_command-Keeps no_command m h = refl

  update_filter-selected :
      (k : KeyPress) (m : SelectModel) → (update_filter lower k m).selected ≡ m.selected
  unfolding update_filter recompute
  update_filter-selected k m = either (text_eq k.name (codes "enter")) _ _ refl (
      either (text_eq k.name (codes "esc")) _ _ refl (
        either (text_eq k.name (codes "backspace")) _ _ (either (is_empty m.filter) m _ refl refl)
          (either (is_empty k.text) m _ refl refl)))
    where
      either :
          (b : Bool) (n o : SelectModel)
          → n.selected ≡ m.selected
          → o.selected ≡ m.selected
          → (if b then n else o).selected ≡ m.selected
      either true n o v w = v
      either false n o v w = w

  apply_rows-Keeps :
      (rows : List SelectRow) (m : SelectModel)
      → Keeps m.selected (Option.map (and_cmd no_cmd) (apply_rows lower rows m))
  unfolding apply_rows recompute clamp_scroll
  apply_rows-Keeps rows m = by_id (cursor_id m)
    where
      by_place :
          (n : SelectModel) (o : Option (Option ℕ))
          → n.selected ≡ m.selected
          → Keeps m.selected
              (Option.map (and_cmd no_cmd) (Option.map clamp_scroll (put_cursor n o)))
      by_place n none h = tt
      by_place n (some none) h = h
      by_place n (some (some i)) h = h

      by_id :
          (o : Option Text)
          → Keeps m.selected (
              Option.map
                (and_cmd no_cmd)
                (and_then o (restore_cursor (recompute lower (record m { rows = rows })))))
      by_id none = tt
      by_id (some id) = elim (Bool-cases (is_empty id)) [
        | inl b ↦ rw b refl
        | inr b ↦ rw b (by_place (recompute lower (record m { rows = rows })) _ refl)
      ]

  -- A message other than the keys that mark rows leaves all marks as they are: those of rows that
  -- a filter hides, and those of rows that a refresh does not bring.
  pub update_select-Keeps :
      (msg : SelectMsg) (m : SelectModel)
      → is_mark_key msg ≡ false
      → Keeps m.selected (update_select lower msg m)
  unfolding update_select press clamp_scroll
  update_select-Keeps (window_size w h) m e = refl
  update_select-Keeps tick m e =
      if-Keeps m.selected (is_busy m || m.fetching) (some (m, _)) _ refl refl
  update_select-Keeps (rows_fetched rows) m e = elim (Bool-cases (is_busy m)) [
    | inl b ↦ rw b refl
    | inr b ↦ rw b (apply_rows-Keeps rows (record m { fetching = false }))
  ]
  update_select-Keeps (detail_fetched text) m e = refl
  update_select-Keeps (key_press k) m e =
      if-Keeps m.selected m.detail_loading (some (m, no_cmd)) _ refl (
        if-Keeps m.selected (not (is_empty m.detail)) (some (record m { detail = [] }, no_cmd)) _
          refl
          (if-Keeps m.selected m.filtering (some (update_filter lower k m, no_cmd)) _
            (update_filter-selected k m) (run_command-Keeps (command_of k.name) m e)))
