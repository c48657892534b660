-- ===== src/Examples/Picker.antt =====
-- internal/render/select.go on three rows with a class in the second column.
use erdc_hpc_scripts.Base.{
  ℕ, suc, ◌≡◌, refl, false, not, ◌&&◌, Option, some, List, [], ◌∷◌, ◌++◌, arith, Text, codes,
  and_then, length,
}
use mathlib.Core.List.{map}
use mathlib.Core.Option
use erdc_hpc_scripts.Render.Form.{contains}
use erdc_hpc_scripts.Render.Editor.{is_empty}
use erdc_hpc_scripts.Render.Picker.Filter.{SelectRow, match_from, match_column}
use erdc_hpc_scripts.Render.Picker.Facets.{facet_cell, facet_values}
use erdc_hpc_scripts.Render.Picker.Facets.Values.{AreDistinct}
use erdc_hpc_scripts.Render.Picker.Facets.Cycle.{facet_trail, next_facet-cycles}
use erdc_hpc_scripts.Render.Picker.Model.{
  SelectSpec, SelectModel, new_select_model, page_size, row_at,
}
use erdc_hpc_scripts.Render.Picker.Update.{
  SelectMsg, window_size, key_press, SelectCmd, apply_rows, update_select, select_result,
}
use erdc_hpc_scripts.Render.Picker.Soundness.{Succeeds}
use erdc_hpc_scripts.Render.Picker.Session.{run_select, picker-Succeeds}
use erdc_hpc_scripts.Render.Picker.Refresh.{Stays, apply_rows-Stays}
use erdc_hpc_scripts.Render.Picker.Window.{Shows, update_select-Shows}

-- Lower-casing of texts that have no capitals.
abbrev same : Text → Text
same s = s

abbrev row : Text → Text → SelectRow
row id class = record { id = id; cells = id ∷ class ∷ [] }

abbrev nodes : List SelectRow
nodes =
    row (codes "n1") (codes "gpu")
    ∷ row (codes "n2") (codes "cpu")
    ∷ row (codes "n3") (codes "gpu")
    ∷ []

abbrev spec : SelectSpec
spec = record {
  columns = codes "node" ∷ codes "class" ∷ [];
  read_only = false;
  pick_one = false;
  preview = false;
  has_detail = false;
  facet_col = 2;
}

abbrev opened : SelectModel
opened = new_select_model same spec nodes

abbrev press_of : Text → SelectMsg
press_of t = key_press (record { name = t; text = t })

abbrev marks_gpus : List SelectMsg
marks_gpus =
    press_of (codes "f")
    ∷ press_of (codes "f")
    ∷ press_of (codes "a")
    ∷ press_of (codes "f")
    ∷ press_of (codes "enter")
    ∷ []

abbrev result_of : Option (SelectModel × SelectCmd) → Option (List Text)
result_of o = and_then o (λ (n : SelectModel × SelectCmd). select_result n.0)

column_prefix : match_column same (codes "cl") (codes "node" ∷ codes "class" ∷ []) ≡ 2
unfolding match_from
column_prefix = refl

gpus_marked : result_of (run_select same marks_gpus opened) ≡ some (codes "n1" ∷ codes "n3" ∷ [])
unfolding run_select new_select_model select_result
gpus_marked = refl

abbrev place_of : Option (SelectModel × SelectCmd) → Option (ℕ × ℕ × ℕ)
place_of = Option.map (λ (n : SelectModel × SelectCmd). (n.0.top, n.0.cursor, page_size n.0))

-- On a page of two rows the filter box takes the line of the row at the cursor: the page is row 0 alone.
box_hides_cursor :
    place_of (
      run_select same
        (window_size 80 7 ∷ press_of (codes "down") ∷ press_of (codes "/") ∷ [])
        opened)
    ≡ some (0, 1, 1)
unfolding run_select new_select_model page_size
box_hides_cursor = refl

next_facet-cycles_example :
    (facet_trail 2 nodes (suc (length (facet_values 2 nodes))) [] ≡ facet_values 2 nodes ++ [] ∷ [])
    × AreDistinct (facet_values 2 nodes)
    × ((w : Text)
        → contains (facet_values 2 nodes) w
          ≡ (contains (map (facet_cell 2) nodes) w && not (is_empty w)))
next_facet-cycles_example = next_facet-cycles 2 nodes

picker-Succeeds_example : Succeeds same (run_select same marks_gpus opened)
picker-Succeeds_example = picker-Succeeds same spec nodes marks_gpus

apply_rows-Stays_example :
    Stays (codes "n1") (apply_rows same (row (codes "n0") (codes "cpu") ∷ nodes) opened)
unfolding new_select_model row_at
apply_rows-Stays_example =
    apply_rows-Stays same (row (codes "n0") (codes "cpu") ∷ nodes) opened (codes "n1") refl refl

update_select-Shows_example : Shows (update_select same (window_size 80 6) opened)
unfolding new_select_model page_size
update_select-Shows_example =
    update_select-Shows same (window_size 80 6) opened refl (omega arith, omega arith)
