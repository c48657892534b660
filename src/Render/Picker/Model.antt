-- ===== src/Render/Picker/Model.antt =====
-- internal/render/select.go: the state of the picker, its view of the rows and its scroll window. The
-- map of marks is a function from ids. Numbers of lines are naturals: a height below the fixed lines
-- leaves a page of one row, as in the code.
use erdc_hpc_scripts.Base.{
  ℕ, suc, ◌+◌, ◌-◌, ◌/◌, Bool, false, ◌&&◌, ◌||◌, Option, none, some, List, [], ◌∷◌, Text, text_eq,
  ltb, leb, length, get_elem?, if◌then◌else◌,
}
use erdc_hpc_scripts.Render.Editor.{is_empty}
use erdc_hpc_scripts.Render.Picker.Filter.{SelectRow, parse_filter, row_matches}
use erdc_hpc_scripts.Render.Picker.Facets.{facet_cell}

-- What `Update` reads of `SelectSpec`; the functions of the spec are run by the commands it returns.
pub record SelectSpec : Type 0 where
  pub columns : List Text
  pub read_only : Bool
  pub pick_one : Bool
  pub preview : Bool
  pub has_detail : Bool
  pub facet_col : ℕ

pub record SelectModel : Type 0 where
  pub spec : SelectSpec
  pub rows : List SelectRow
  pub visible : List ℕ  -- indexes into the rows
  pub selected : Text → Bool
  pub cursor : ℕ
  pub top : ℕ
  pub filter : Text
  pub filtering : Bool
  pub facet_val : Text
  pub detail : Text
  pub detail_loading : Bool
  pub fetching : Bool
  pub width : ℕ
  pub height : ℕ
  pub confirmed : Bool

-- The loop of `recompute`, from the index of the next row.
unfoldable pub shown_from : (SelectRow → Bool) → List SelectRow → ℕ → List ℕ
shown_from f [] i = []
shown_from f (r ∷ rows) i = let rest = shown_from f rows (suc i) in if f r then i ∷ rest else rest

-- The fields that `newSelectModel` sets before it calls `recompute`.
abbrev pub fresh_model : SelectSpec → List SelectRow → SelectModel
fresh_model spec rows = record {
  spec = spec;
  rows = rows;
  visible = [];
  selected = λ (id : Text). false;
  cursor = 0;
  top = 0;
  filter = [];
  filtering = false;
  facet_val = [];
  detail = [];
  detail_loading = false;
  fetching = false;
  width = 80;
  height = 24;
  confirmed = false;
}

module _ (lower : Text → Text) where
  -- The test of `recompute` on a row.
  abbrev pub is_shown : SelectModel → SelectRow → Bool
  is_shown m r =
      (is_empty m.facet_val || text_eq (facet_cell m.spec.facet_col r) m.facet_val)
      && row_matches lower r (parse_filter lower m.filter m.spec.columns)

  -- `recompute`
  unfoldable pub recompute : SelectModel → SelectModel
  unfolding shown_from row_matches parse_filter text_eq
  recompute m = record m { visible = shown_from (is_shown m) m.rows 0; cursor = 0; top = 0 }

  -- `newSelectModel`
  unfoldable pub new_select_model : SelectSpec → List SelectRow → SelectModel
  unfolding recompute
  new_select_model spec rows = recompute (fresh_model spec rows)

-- `chromeLines`
abbrev pub chrome_lines : Bool → ℕ
chrome_lines filtering = if filtering then 6 else 5

-- The rows that the list keeps beside the preview.
abbrev pub preview_half : ℕ → ℕ → ℕ
preview_half p n =
    let half = if ltb (p / 2) 3 then 3 else p / 2 in if ltb 0 n && ltb n half then n else half

abbrev pub preview_page : ℕ → ℕ → ℕ
preview_page p half = if ltb half p && leb 3 (p - half - 1) then half else p

-- The lines that the list keeps.
abbrev pub list_lines : SelectModel → ℕ
list_lines m =
    let p = m.height - chrome_lines m.filtering in
    if m.spec.preview then preview_page p (preview_half p (length m.visible)) else p

-- `pageSize`
unfoldable pub page_size : SelectModel → ℕ
page_size m = if ltb 1 (list_lines m) then list_lines m else 1

-- The first row of a page that has the cursor.
abbrev pub scroll_to : ℕ → ℕ → ℕ → ℕ
scroll_to page cursor top = if leb (top + page) cursor then cursor - page + 1 else top

-- `clampScroll`
unfoldable pub clamp_scroll : SelectModel → SelectModel
unfolding page_size
clamp_scroll m = record m {
  top = scroll_to (page_size m) m.cursor (if ltb m.cursor m.top then m.cursor else m.top);
}

-- `m.rows[m.visible[m.cursor]]`; an index out of range is a fault, `none`.
unfoldable pub row_at : List SelectRow → Option ℕ → Option SelectRow
row_at rows none = none
row_at rows (some i) = get_elem? rows i

abbrev pub cursor_row : SelectModel → Option SelectRow
cursor_row m = row_at m.rows (get_elem? m.visible m.cursor)
