-- ===== src/Render/Picker/Refresh.antt =====
-- internal/render/select.go: `applyRows`, the row at the cursor through a refresh.
use erdc_hpc_scripts.Base.{
  ℕ, ◌≡◌, refl, ap, ◌∙◌, false, Option, none, some, List, arith, Text, get_elem?, ◌⊎◌, inl, inr,
}
use mathlib.Core.Option
use erdc_hpc_scripts.Render.Form.{contains}
use erdc_hpc_scripts.Render.Editor.{is_empty}
use erdc_hpc_scripts.Render.Picker.Filter.{SelectRow}
use erdc_hpc_scripts.Render.Picker.Model.{SelectModel, recompute, clamp_scroll, row_at, cursor_row}
use erdc_hpc_scripts.Render.Picker.Update.{
  id_of, cursor_id, shown_ids, put_cursor, restore_cursor, apply_rows,
}
use erdc_hpc_scripts.Render.Picker.View.{Found, find_id-Found}
use erdc_hpc_scripts.Render.Picker.Soundness.{IsSound, rows-AreWithin, recompute-IsSound}

-- The cursor is on a row with the id, or no shown row has the id and the cursor is at the top.
abbrev pub Stays : Text → Option SelectModel → Type 0
Stays id none = ⊥
Stays id (some m) =
    (Option.map id_of (cursor_row m) ≡ some id)
    ⊎ ((m.cursor ≡ 0)
        × (ids : List Text) × (shown_ids m.rows m.visible ≡ some ids)
        × (contains ids id ≡ false))

module _ (lower : Text → Text) where
  restore_cursor-Stays :
      (m : SelectModel) (id : Text)
      → IsSound lower m
      → m.cursor ≡ 0
      → is_empty id ≡ false
      → Stays id (restore_cursor m id)
  unfolding clamp_scroll
  restore_cursor-Stays m id v z h =
      let found = find_id-Found m.rows m.visible id 0 (rows-AreWithin lower m v) in
      rw (h, found.1) (at found.0 found.2)
    where
      at :
          (o : Option ℕ)
          → Found m.rows m.visible id 0 o
          → Stays id (Option.map clamp_scroll (put_cursor m (some o)))
      at none found = inr (z, found.0, found.1, found.2)
      at (some i) found = inl (
          ap (λ k. Option.map id_of (row_at m.rows (get_elem? m.visible k)))
            (omega (arith, found.1))
          ∙ found.3)

  -- A refresh keeps the cursor on a row with the id that it was on, wherever that now stands
  -- among the shown ones; only if no shown row has the id any more, the cursor goes to the top.
  -- The id is not empty.
  pub apply_rows-Stays :
      (rows : List SelectRow) (m : SelectModel) (id : Text)
      → cursor_id m ≡ some id
      → is_empty id ≡ false
      → Stays id (apply_rows lower rows m)
  unfolding apply_rows recompute
  apply_rows-Stays rows m id e h = rw e (
      restore_cursor-Stays (recompute lower (record m { rows = rows })) id
        (recompute-IsSound lower (record m { rows = rows })) refl h)
