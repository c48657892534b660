-- ===== src/Render/EditorUpdate/Session.antt =====
-- internal/render/editor.go: whole sessions of the editor, from its opening on. The program of the
-- interface library hands one message after the other to `Update`, until it quits.
use erdc_hpc_scripts.Base.{
  ◌<◌, ◌≡◌, refl, Bool, true, false, not, Option, none, some, List, [], ◌∷◌, arith, length,
}
use erdc_hpc_scripts.Render.EditorTree.{EditorNodes, EdRow, flatten}
use erdc_hpc_scripts.Render.EditorTree.Cursor.{IsParked, first_visible-zero, visible_zero}
use erdc_hpc_scripts.Render.Editor.{CollEditor, Editor, validate_all}
use erdc_hpc_scripts.Render.EditorUpdate.{Msg, update, new_editor, open_rows}
use erdc_hpc_scripts.Render.EditorUpdate.Folds.{validate_all-SameFolds, SameFolds-length}
use erdc_hpc_scripts.Render.EditorUpdate.Safety.{
  IsShowing, Showing, clamp-IsShowing, update-Showing,
}
use erdc_hpc_scripts.Render.EditorUpdate.Total.{HasLeaf, IsSound, update-IsSound}

length-open_rows : (rows : List EdRow) → length (open_rows rows) ≡ length rows
unfolding open_rows
length-open_rows [] = refl
length-open_rows (r ∷ rows) = ground (arith, length-open_rows rows)

module _ {C : Type 0} where
  -- Of any tree that has a node, folded or not, the editor opens with its cursor on a shown row in
  -- the scroll window.
  pub new_editor-IsShowing :
      (root : EditorNodes) (collapsed has_load : Bool)
      → 0 < length (flatten root 0 [] (not collapsed))
      → IsShowing (new_editor {C = C} root collapsed has_load)
  unfolding new_editor
  new_editor-IsShowing root collapsed has_load h =
      clamp-IsShowing _ (rw (first_visible-zero rows) parked)
    where
      opened : List EdRow
      opened = open_rows (flatten root 0 [] (not collapsed))

      rows : List EdRow
      rows = validate_all opened

      parked : IsParked rows 0
      parked = (
        omega (
          arith,
          h,
          SameFolds-length rows opened (validate_all-SameFolds opened),
          length-open_rows (flatten root 0 [] (not collapsed)),
        ),
        visible_zero rows,
      )

  module _ (coll : CollEditor C) where
    -- What follows a message, unless it quit.
    abbrev and_then :
        Option (Editor C × Bool) → (Editor C → Option (Editor C × Bool)) → Option (Editor C × Bool)
    and_then none rest = none
    and_then (some (m, true)) rest = some (m, true)
    and_then (some (m, false)) rest = rest m

    -- The messages of a session, up to the one that quits.
    unfoldable pub run : List Msg → Editor C → Option (Editor C × Bool)
    run [] m = some (m, false)
    run (msg ∷ msgs) m = and_then (update coll msg m) (λ next. run msgs next)

    -- A session has not faulted, and unless it has quit its editor shows the cursor.
    abbrev pub IsFine : Option (Editor C × Bool) → Type 0
    IsFine none = ⊥
    IsFine (some (m, true)) = Unit
    IsFine (some (m, false)) = IsShowing m

    run-IsFine : (msgs : List Msg) (m : Editor C) → IsShowing m → HasLeaf m → IsFine (run msgs m)
    unfolding run
    run-IsFine [] m h l = h
    run-IsFine (msg ∷ msgs) m h l =
        by_result (update coll msg m) (update-Showing coll msg m h)
          (update-IsSound coll msg m h.parked.0 l) (λ next. run-IsFine msgs next)
      where
        by_result :
            (o : Option (Editor C × Bool))
            → Showing o
            → IsSound o
            → ((next : Editor C) → IsShowing next → HasLeaf next → IsFine (run msgs next))
            → IsFine (and_then o (λ next. run msgs next))
        by_result none h l ih = absurd l
        by_result (some (m, true)) h l ih = tt
        by_result (some (m, false)) h l ih = ih m h l

    -- A session of the tree editor on a tree that has a node never reads a row that is not there
    -- or the field of a section, whatever keys, resizes and patches arrive in whatever order, and
    -- until it quits its cursor is on a shown row in the scroll window.
    pub session-IsFine :
        (root : EditorNodes) (collapsed has_load : Bool) (msgs : List Msg)
        → 0 < length (flatten root 0 [] (not collapsed))
        → IsFine (run msgs (new_editor root collapsed has_load))
    unfolding new_editor
    session-IsFine root collapsed has_load msgs h =
        run-IsFine msgs (new_editor root collapsed has_load)
          (new_editor-IsShowing root collapsed has_load h) tt
