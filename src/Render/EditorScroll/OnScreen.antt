-- ===== src/Render/EditorScroll/OnScreen.antt =====
-- internal/render/editor.go, `clampScroll`: the cursor's row is in the scroll window.
use erdc_hpc_scripts.Base.{
  ℕ, suc, ◌+◌, ◌≤◌, ◌<◌, ◌≡◌, refl, ap, ◌⊎◌, inl, inr, some, List, [], ◌∷◌, arith, ◌==◌, ==_iff,
  length, get_elem?, Any, Bool-cases,
}
use erdc_hpc_scripts.Render.EditorTree.{EdRow, visible_rows}
use erdc_hpc_scripts.Render.EditorTree.Cursor.{IsParked, visible_rows-Any}
use erdc_hpc_scripts.Render.EditorScroll.{page_size, costs, window_end, position_from, clamp_scroll}
use erdc_hpc_scripts.Render.EditorScroll.Window.{clamp_top-shows}

-- The cursor's row is one of the shown rows that the window from `top` on holds.
abbrev pub IsOnScreen : List EdRow → ℕ → ℕ → ℕ → Type 0
IsOnScreen rows height cursor top =
    let vis = visible_rows rows in
    let pos = position_from cursor vis 0 in
    (get_elem? vis pos ≡ some cursor)
    × (top ≤ pos)
    × (pos < window_end (page_size height) (costs rows vis) top)

position_from_lem :
    (c : ℕ) (vis : List ℕ) (i : ℕ)
    → Any (λ k. k ≡ c) vis
    → (p : ℕ) × (position_from c vis i ≡ i + p) × (p < length vis) × (get_elem? vis p ≡ some c)
unfolding position_from
position_from_lem c [] i h = absurd h
position_from_lem c (r ∷ vis) i h = elim (Bool-cases (r == c)) [
  | inl e ↦ (0, rw e (omega arith), omega arith, ap some ((==_iff r c).0 e))
  | inr e ↦
      let (p, q, l, g) =
        position_from_lem c vis (suc i) (later h (λ s. cc (e, (==_iff r c).1 s))) in
      (suc p, rw e (omega (arith, q)), omega arith, g)
]
  where
    later : (r ≡ c) ⊎ Any (λ k. k ≡ c) vis → (r ≡ c → ⊥) → Any (λ k. k ≡ c) vis
    later (inl s) n = absurd (n s)
    later (inr a) n = a

length-costs : (rows : List EdRow) (vis : List ℕ) → length (costs rows vis) ≡ length vis
unfolding costs
length-costs rows [] = refl
length-costs rows (i ∷ vis) = ap suc (length-costs rows vis)

-- Clamping brings the cursor on screen: wherever the window was, and whatever was folded or
-- complained since, if the cursor is parked on a shown row, that row is in the window afterwards.
pub clamp_scroll-IsOnScreen :
    (rows : List EdRow) (height cursor top : ℕ)
    → IsParked rows cursor
    → IsOnScreen rows height cursor (clamp_scroll rows height cursor top)
unfolding clamp_scroll
clamp_scroll-IsOnScreen rows height cursor top h =
    let vis = visible_rows rows in
    let (p, q, l, g) = position_from_lem cursor vis 0 (visible_rows-Any rows cursor h) in
    let same : position_from cursor vis 0 ≡ p = omega (arith, q) in
    let inside : position_from cursor vis 0 < length (costs rows vis) =
      omega (arith, length-costs rows vis, same, l) in
    let shows =
      clamp_top-shows (page_size height) (costs rows vis) (position_from cursor vis 0) top inside in
    (rw same g, shows.0, shows.1)
