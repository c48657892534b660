-- ===== src/Render/EditorScroll.antt =====
-- internal/render/editor.go: the scroll window over the shown rows. The window is filled by cost: a
-- row whose field is invalid takes two lines.
use erdc_hpc_scripts.Base.{
  ℕ, zero, suc, ◌+◌, ◌-◌, ◌==◌, Bool, true, false, not, ◌&&◌, ◌||◌, Option, none, some, List, [],
  ◌∷◌, Text, leb, ltb, length, get_elem?, drop, if◌then◌else◌,
}
use mathlib.Core.List.{map}
use erdc_hpc_scripts.Render.EditorTree.{EdRow, visible_rows}
pub mod Window
pub mod OnScreen

-- `pageSize`: the window minus the title, the two rules and the footer, and at least one.
unfoldable pub page_size : ℕ → ℕ
page_size height = let p = height - 4 in if ltb 1 p then p else 1

abbrev err_cost : Text → ℕ
err_cost [] = 1
err_cost (c ∷ err) = 2

abbrev row_cost : Option EdRow → ℕ
row_cost none = 1
row_cost (some r) = err_cost r.err

-- How many lines each shown row takes.
unfoldable pub costs : List EdRow → List ℕ → List ℕ
costs rows vis = map (λ i. row_cost (get_elem? rows i)) vis

-- The loop of `windowEnd` over the costs from row `i` on.
unfoldable pub window_fill : ℕ → ℕ → ℕ → ℕ → List ℕ → ℕ → ℕ
window_fill page len top used [] i = len
window_fill page len top used (cost ∷ cs) i =
    let rest = window_fill page len top (used + cost) cs (suc i) in
    if ltb page (used + cost) && ltb top i then i else rest

-- `windowEnd(vis, top)`, by the costs of the shown rows.
unfoldable pub window_end : ℕ → List ℕ → ℕ → ℕ
unfolding window_fill
window_end page cs top = window_fill page (length cs) top 0 (drop top cs) top

-- Where the cursor stands among the shown rows, 0 if it does not.
unfoldable pub position_from : ℕ → List ℕ → ℕ → ℕ
position_from c [] i = 0
position_from c (r ∷ vis) i = let rest = position_from c vis (suc i) in if r == c then i else rest

-- The loop that scrolls down, at most `n` times.
unfoldable pub scroll_down : ℕ → ℕ → List ℕ → ℕ → ℕ → ℕ
scroll_down zero page cs pos top = top
scroll_down (suc n) page cs pos top =
    let rest = scroll_down n page cs pos (suc top) in
    if ltb top pos && leb (window_end page cs top) pos then rest else top

-- `clampScroll`, by the costs and the position of the cursor: the new top.
unfoldable pub clamp_top : ℕ → List ℕ → ℕ → ℕ → ℕ
unfolding scroll_down
clamp_top page cs pos top =
    let start = if ltb pos top then pos else top in
    let t = scroll_down (pos - start) page cs pos start in if leb (length cs) t then 0 else t

unfoldable pub clamp_scroll : List EdRow → ℕ → ℕ → ℕ → ℕ
unfolding clamp_top position_from costs
clamp_scroll rows height cursor top =
    let vis = visible_rows rows in
    clamp_top (page_size height) (costs rows vis) (position_from cursor vis 0) top
