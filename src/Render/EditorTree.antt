-- ===== src/Render/EditorTree.antt =====
-- internal/render/editor.go: the tree of sections and leaves as the flat rows that the editor walks.
-- A row is hidden by a collapsed section above it whose recorded subtree reaches it.
use erdc_hpc_scripts.Base.{
  ℕ, zero, suc, ◌+◌, ◌-◌, ◌<◌, ◌==◌, Bool, true, false, not, ◌&&◌, ◌||◌, Option, none, some, List,
  [], ◌∷◌, ◌++◌, Text, leb, ltb, length, if◌then◌else◌,
}
use erdc_hpc_scripts.Render.Form.{FormField}
pub mod Nesting
pub mod Cursor

mutual
  pub data EditorNode : Type 0 where
    node :
        Text  -- label
        → Text  -- key
        → Option FormField
        → Text  -- origin
        → Text  -- hue
        → Text  -- action
        → EditorNodes
        → EditorNode

  pub data EditorNodes : Type 0 where
    nil : EditorNodes
    cons : EditorNode → EditorNodes → EditorNodes

pub record EdRow : Type 0 where
  pub label : Text
  pub depth : ℕ
  pub path : List Text
  pub field : Option FormField
  pub origin : Text
  pub hue : Text
  pub orig : Text
  pub err : Text
  pub expanded : Bool
  pub kids : ℕ
  pub action : Text
  pub marked : Bool

abbrev key_or_label : Text → Text → Text
key_or_label [] label = label
key_or_label (c ∷ key) label = c ∷ key

-- `flatten`: a node's row, the rows of its children, and the rows of the nodes behind it.
unfoldable mutual
  pub flatten_node : EditorNode → ℕ → List Text → Bool → List EdRow
  flatten_node (node label key field origin hue action children) depth prefix expanded =
      let path = prefix ++ key_or_label key label ∷ [] in
      let kids = flatten children (suc depth) path expanded in
      record {
        label = label;
        depth = depth;
        path = path;
        field = field;
        origin = origin;
        hue = hue;
        orig = [];
        err = [];
        expanded = expanded;
        kids = length kids;
        action = action;
        marked = false;
      }
      ∷ kids

  pub flatten : EditorNodes → ℕ → List Text → Bool → List EdRow
  flatten nil depth prefix expanded = []
  flatten (cons n nodes) depth prefix expanded =
      flatten_node n depth prefix expanded ++ flatten nodes depth prefix expanded

-- `visible(i)`: no row before it is collapsed and reaches it. The index is counted from each row of
-- the loop on, so `j+kids >= i` is `i - j <= kids`.
unfoldable pub visible : List EdRow → ℕ → Bool
visible [] i = true
visible (r ∷ rows) zero = true
visible (r ∷ rows) (suc i) = not (not r.expanded && leb (suc i) r.kids) && visible rows i

-- The loop of `move(-1)`, from the row before the cursor to the first.
unfoldable pub prev_visible : List EdRow → ℕ → Option ℕ
prev_visible rows zero = none
prev_visible rows (suc i) =
    let rest = prev_visible rows i in if visible rows i then some i else rest

-- The loop of `move(1)`, over the rows that are left, `n` of them from row `i` on.
unfoldable pub next_visible : List EdRow → ℕ → ℕ → Option ℕ
next_visible rows zero i = none
next_visible rows (suc n) i =
    let rest = next_visible rows n (suc i) in if visible rows i then some i else rest

pub data Dir : Type 0 where
  back forward : Dir

abbrev pub or_stay : Option ℕ → ℕ → ℕ
or_stay none cursor = cursor
or_stay (some i) cursor = i

unfoldable pub move : List EdRow → ℕ → Dir → ℕ
unfolding prev_visible next_visible
move rows cursor back = or_stay (prev_visible rows cursor) cursor
move rows cursor forward =
    or_stay (next_visible rows (length rows - suc cursor) (suc cursor)) cursor

-- `page`: a windowful of moves, until one hits an end.
unfoldable pub page : ℕ → List EdRow → ℕ → Dir → ℕ
page zero rows cursor dir = cursor
page (suc n) rows cursor dir =
    let next = move rows cursor dir in
    let rest = page n rows next dir in if next == cursor then cursor else rest

-- `visibleRows`, over the rows from `i` on.
unfoldable pub visible_from : List EdRow → ℕ → ℕ → List ℕ
visible_from rows zero i = []
visible_from rows (suc n) i =
    let rest = visible_from rows n (suc i) in if visible rows i then i ∷ rest else rest

unfoldable pub visible_rows : List EdRow → List ℕ
unfolding visible_from
visible_rows rows = visible_from rows (length rows) 0

abbrev pub last_or : List ℕ → ℕ → ℕ
last_or [] d = d
last_or (i ∷ is) d = last_or is i

unfoldable pub first_visible : List EdRow → ℕ
first_visible rows = or_stay (next_visible rows (length rows) 0) 0

unfoldable pub last_visible : List EdRow → ℕ → ℕ
unfolding visible_rows
last_visible rows cursor = last_or (visible_rows rows) cursor
