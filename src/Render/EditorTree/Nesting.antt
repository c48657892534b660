-- ===== src/Render/EditorTree/Nesting.antt =====
-- internal/render/editor.go: the recorded subtree sizes against the depths. What hides a row is said
-- by depth alone: a row is under another if it and all rows between them are deeper.
use erdc_hpc_scripts.Base.{
  ℕ, zero, suc, ◌≤◌, ◌<◌, ◌≡◌, refl, sym, ◌∙◌, ap, ◌↔◌, Bool, true, not, List, [], ◌∷◌, ◌++◌, arith,
  Text, leb, ltb, length, All, All-append, All-map, if◌then◌else◌, append_assoc, append-nil,
  Bool-cases, inl, inr,
}
use erdc_hpc_scripts.Render.EditorTree.{
  EditorNode, node, EditorNodes, nil, cons, EdRow, flatten, flatten_node, visible,
}

-- How many rows in front are deeper than `d`.
pub deeper : ℕ → List EdRow → ℕ
deeper d [] = 0
deeper d (r ∷ rows) = let rest = deeper d rows in if ltb d r.depth then suc rest else 0

-- Each row has recorded how many rows stand under it.
abbrev pub IsNested : List EdRow → Type 0
IsNested [] = Unit
IsNested (r ∷ rows) = (r.kids ≡ deeper r.depth rows) × IsNested rows

abbrev AreBelow : ℕ → List EdRow → Type 0
AreBelow d = All (λ r. d < r.depth)

-- Rows that follow a subtree of depth `d`: none, or one that is not deeper.
abbrev Ends : ℕ → List EdRow → Type 0
Ends d [] = Unit
Ends d (r ∷ rows) = r.depth ≤ d

deeper-Ends : (d : ℕ) (rows : List EdRow) → Ends d rows → deeper d rows ≡ 0
unfolding deeper
deeper-Ends d [] h = refl
deeper-Ends d (r ∷ rows) h = ground arith

deeper-append :
    (d : ℕ) (kids rows : List EdRow)
    → AreBelow d kids
    → Ends d rows
    → deeper d (kids ++ rows) ≡ length kids
unfolding deeper
deeper-append d [] rows h e = deeper-Ends d rows e
deeper-append d (k ∷ kids) rows h e = ground (arith, deeper-append d kids rows h.1 e)

mutual
  unfolding flatten flatten_node

  flatten_node-AreBelow :
      (n : EditorNode) (d : ℕ) (prefix : List Text) (b : Bool)
      → AreBelow d (flatten_node n (suc d) prefix b)
  flatten_node-AreBelow (node label key field origin hue action children) d prefix b =
      (omega arith, All-map (λ r h. omega arith) _ (flatten-AreBelow children (suc d) _ b))

  flatten-AreBelow :
      (ns : EditorNodes) (d : ℕ) (prefix : List Text) (b : Bool)
      → AreBelow d (flatten ns (suc d) prefix b)
  flatten-AreBelow nil d prefix b = tt
  flatten-AreBelow (cons n ns) d prefix b =
      All-append _ (flatten_node n (suc d) prefix b) _ (flatten_node-AreBelow n d prefix b)
        (flatten-AreBelow ns d prefix b)

Ends-suc : (d : ℕ) (rows : List EdRow) → Ends d rows → Ends (suc d) rows
Ends-suc d [] h = tt
Ends-suc d (r ∷ rows) h = omega arith

mutual
  unfolding flatten flatten_node

  flatten_node-IsNested :
      (n : EditorNode) (d : ℕ) (prefix : List Text) (b : Bool) (rows : List EdRow)
      → Ends d rows
      → IsNested rows
      → IsNested (flatten_node n d prefix b ++ rows)
  flatten_node-IsNested (node label key field origin hue action children) d prefix b rows e h = (
    sym (deeper-append d _ rows (flatten-AreBelow children d _ b) e),
    flatten-IsNested children (suc d) _ b rows (Ends-suc d rows e) h,
  )

  flatten-IsNested :
      (ns : EditorNodes) (d : ℕ) (prefix : List Text) (b : Bool) (rows : List EdRow)
      → Ends d rows
      → IsNested rows
      → IsNested (flatten ns d prefix b ++ rows)
  flatten-IsNested nil d prefix b rows e h = h
  flatten-IsNested (cons n ns) d prefix b rows e h =
      rw (append_assoc (flatten_node n d prefix b) (flatten ns d prefix b) rows) (
        flatten_node-IsNested n d prefix b (flatten ns d prefix b ++ rows)
          (flatten-Ends ns d prefix b rows e) (flatten-IsNested ns d prefix b rows e h))

  flatten-Ends :
      (ns : EditorNodes) (d : ℕ) (prefix : List Text) (b : Bool) (rows : List EdRow)
      → Ends d rows
      → Ends d (flatten ns d prefix b ++ rows)
  flatten-Ends nil d prefix b rows e = e
  flatten-Ends (cons (node label key field origin hue action children) ns) d prefix b rows e =
      omega arith

-- Rows of one shape: the same depths and recorded sizes, whatever is folded, marked or typed.
abbrev pub SameShape : List EdRow → List EdRow → Type 0
SameShape [] [] = Unit
SameShape [] (q ∷ qs) = ⊥
SameShape (r ∷ rs) [] = ⊥
SameShape (r ∷ rs) (q ∷ qs) = (r.depth ≡ q.depth) × (r.kids ≡ q.kids) × SameShape rs qs

deeper-SameShape : (d : ℕ) (rs qs : List EdRow) → SameShape rs qs → deeper d rs ≡ deeper d qs
unfolding deeper
deeper-SameShape d [] [] h = refl
deeper-SameShape d [] (q ∷ qs) h = absurd h
deeper-SameShape d (r ∷ rs) [] h = absurd h
deeper-SameShape d (r ∷ rs) (q ∷ qs) h = rw (deeper-SameShape d rs qs h.2, h.0)

pub IsNested-SameShape : (rs qs : List EdRow) → SameShape rs qs → IsNested qs → IsNested rs
IsNested-SameShape [] qs h n = tt
IsNested-SameShape (r ∷ rs) [] h n = absurd h
IsNested-SameShape (r ∷ rs) (q ∷ qs) h n = (
  h.1 ∙ n.0 ∙ ap (λ d. deeper d qs) (sym h.0) ∙ sym (deeper-SameShape r.depth rs qs h.2),
  IsNested-SameShape rs qs h.2 n.1,
)

-- Row `i` of the rows behind a row of depth `d` stands under that row.
abbrev pub IsUnder : ℕ → List EdRow → ℕ → Type 0
IsUnder d [] i = ⊥
IsUnder d (r ∷ rows) zero = d < r.depth
IsUnder d (r ∷ rows) (suc i) = (d < r.depth) × IsUnder d rows i

-- Every row that row `i` stands under is expanded.
abbrev pub IsShown : List EdRow → ℕ → Type 0
IsShown [] i = Unit
IsShown (r ∷ rows) zero = Unit
IsShown (r ∷ rows) (suc i) = (IsUnder r.depth rows i → r.expanded ≡ true) × IsShown rows i

IsUnder-iff : (d : ℕ) (rows : List EdRow) (i : ℕ) → IsUnder d rows i ↔ (suc i ≤ deeper d rows)
unfolding deeper
IsUnder-iff d [] i = ((λ h. absurd h), (λ h. omega arith))
IsUnder-iff d (r ∷ rows) zero = ((λ h. ground arith), (λ h. ground arith))
IsUnder-iff d (r ∷ rows) (suc i) =
    let ih = IsUnder-iff d rows i in
    ((λ h. ground (arith, ih.0 h.1)), (λ h. (ground arith, ih.1 (ground arith))))

visible-IsShown :
    (rows : List EdRow) (i : ℕ) → IsNested rows → (visible rows i ≡ true) ↔ IsShown rows i
unfolding visible
visible-IsShown [] i n = ((λ h. tt), (λ h. refl))
visible-IsShown (r ∷ rows) zero n = ((λ h. tt), (λ h. refl))
visible-IsShown (r ∷ rows) (suc i) n =
    let ih = visible-IsShown rows i n.1 in
    let under = IsUnder-iff r.depth rows i in
    (
      (λ h. ((λ u. ground (arith, under.0 u)), ih.0 (ground arith))),
      (λ h. elim (Bool-cases (leb (suc i) r.kids)) [
        | inl e ↦
            let open_row : r.expanded ≡ true = h.0 (under.1 (ground arith)) in
            ground (arith, open_row, ih.1 h.1)
        | inr e ↦ ground (arith, ih.1 h.1)
      ]),
    )

-- In the rows of any tree, whatever has been folded since, the editor shows exactly the rows for
-- which every row that they stand under, by depth, is expanded.
pub visible_iff :
    (nodes : EditorNodes) (collapsed : Bool) (rows : List EdRow) (i : ℕ)
    → SameShape rows (flatten nodes 0 [] (not collapsed))
    → (visible rows i ≡ true) ↔ IsShown rows i
visible_iff nodes collapsed rows i same = visible-IsShown rows i (
    IsNested-SameShape rows _ same (
      rw (append-nil (flatten nodes 0 [] (not collapsed))) at
        (flatten-IsNested nodes 0 [] (not collapsed) [] tt tt)))
