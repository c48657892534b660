-- ===== src/Render/EditorScroll/Window.antt =====
-- internal/render/editor.go: what the scroll window holds.
use erdc_hpc_scripts.Base.{
  ℕ, zero, suc, ◌+◌, ◌-◌, ◌≤◌, ◌<◌, ◌≡◌, sym, ◌⊎◌, inl, inr, List, [], ◌∷◌, arith, ltb, length,
  if◌then◌else◌, subst, dec_lt, drop, length-drop,
}
use erdc_hpc_scripts.Render.EditorScroll.{window_fill, window_end, scroll_down, clamp_top}

le-window_fill :
    (page len top used : ℕ) (cs : List ℕ) (i : ℕ)
    → i + length cs ≡ len
    → i ≤ window_fill page len top used cs i
unfolding window_fill
le-window_fill page len top used [] i h = omega arith
le-window_fill page len top used (c ∷ cs) i h =
    ground (arith, le-window_fill page len top (used + c) cs (suc i))

-- The window shows at least its top row.
pub lt-window_end :
    (page : ℕ) (cs : List ℕ) (top : ℕ) → top < length cs → top < window_end page cs top
unfolding window_end
lt-window_end page cs top h = first (drop top cs) (length-drop top cs)
  where
    first :
        (rest : List ℕ)
        → length rest ≡ length cs - top
        → top < window_fill page (length cs) top 0 rest top
    first [] e = omega arith
    first (c ∷ rest) e = ground (arith, le-window_fill page (length cs) top (0 + c) rest (suc top))

scroll_down-shows :
    (n page : ℕ) (cs : List ℕ) (pos top : ℕ)
    → pos < length cs
    → top ≤ pos
    → pos ≤ top + n
    → (scroll_down n page cs pos top ≤ pos)
      × (pos < window_end page cs (scroll_down n page cs pos top))
unfolding scroll_down
scroll_down-shows zero page cs pos top h l u =
    let same : top ≡ pos = omega arith in
    (omega arith, subst (λ t. pos < window_end page cs t) (sym same) (lt-window_end page cs pos h))
scroll_down-shows (suc n) page cs pos top h l u =
    ground (arith, scroll_down-shows n page cs pos (suc top), at_top)
  where
    at_top : ((top ≡ pos) × (pos < window_end page cs top)) ⊎ (top < pos)
    at_top = elim (dec_lt top pos) [
      | yes p ↦ inr p
      | no p ↦
          let same : top ≡ pos = omega arith in
          inl
            (same, subst (λ t. pos < window_end page cs t) (sym same) (lt-window_end page cs pos h))
    ]

-- After clamping the position of the cursor lies in the scroll window, wherever the window was
-- before, if it is a position among the shown rows.
pub clamp_top-shows :
    (page : ℕ) (cs : List ℕ) (pos top : ℕ)
    → pos < length cs
    → (clamp_top page cs pos top ≤ pos) × (pos < window_end page cs (clamp_top page cs pos top))
unfolding clamp_top
clamp_top-shows page cs pos top h =
    let start = if ltb pos top then pos else top in
    ground (arith, scroll_down-shows (pos - start) page cs pos start h)
