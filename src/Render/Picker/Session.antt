-- ===== src/Render/Picker/Session.antt =====
-- internal/render/select.go: the whole program of the picker, from its first rows to its result.
use erdc_hpc_scripts.Base.{
  ◌≡◌, refl, Option, none, some, List, [], ◌∷◌, arith, Text, and_then, ltb, length, inl, inr,
  Bool-cases,
}
use erdc_hpc_scripts.Render.Picker.Filter.{SelectRow}
use erdc_hpc_scripts.Render.Picker.Model.{SelectSpec, SelectModel, fresh_model, new_select_model}
use erdc_hpc_scripts.Render.Picker.Update.{
  SelectMsg, SelectCmd, quit, no_cmd, fetch_and_tick, only_tick, fetch_detail, update_select,
  marked_ids, select_result,
}
use erdc_hpc_scripts.Render.Picker.Soundness.{
  IsSound, recompute-IsSound, cursor_row-some, Succeeds, update_select-Succeeds,
}

module _ (lower : Text → Text) where
  -- What follows a message, unless it quit.
  abbrev pub continue_with :
      (SelectModel → Option (SelectModel × SelectCmd))
      → SelectModel × SelectCmd
      → Option (SelectModel × SelectCmd)
  continue_with rest (m, quit) = some (m, quit)
  continue_with rest (m, no_cmd) = rest m
  continue_with rest (m, fetch_and_tick) = rest m
  continue_with rest (m, only_tick) = rest m
  continue_with rest (m, fetch_detail id) = rest m

  -- Messages in any order, up to the one that quits.
  unfoldable pub run_select : List SelectMsg → SelectModel → Option (SelectModel × SelectCmd)
  unfolding update_select
  run_select [] m = some (m, no_cmd)
  run_select (msg ∷ msgs) m =
      and_then (update_select lower msg m) (continue_with (λ n. run_select msgs n))

  run_select-Succeeds :
      (msgs : List SelectMsg) (m : SelectModel)
      → IsSound lower m
      → Succeeds lower (run_select msgs m)
  unfolding run_select
  run_select-Succeeds [] m v = v
  run_select-Succeeds (msg ∷ msgs) m v =
      after (update_select lower msg m) (update_select-Succeeds lower msg m v)
        (λ n. run_select-Succeeds msgs n)
    where
      after :
          (o : Option (SelectModel × SelectCmd))
          → Succeeds lower o
          → ((n : SelectModel) → IsSound lower n → Succeeds lower (run_select msgs n))
          → Succeeds lower (and_then o (continue_with (λ n. run_select msgs n)))
      after none v ih = absurd v
      after (some (n, quit)) v ih = v
      after (some (n, no_cmd)) v ih = ih n v
      after (some (n, fetch_and_tick)) v ih = ih n v
      after (some (n, only_tick)) v ih = ih n v
      after (some (n, fetch_detail id)) v ih = ih n v

  -- The picker never reads a row that is not there, whatever keys, refreshes, details and resizes
  -- arrive in whatever order; at every point its view has exactly the rows that pass its filters,
  -- in order, its cursor is on one of them, or at the top if there is none, and its window starts
  -- at the cursor or above it.
  pub picker-Succeeds :
      (spec : SelectSpec) (rows : List SelectRow) (msgs : List SelectMsg)
      → Succeeds lower (run_select msgs (new_select_model lower spec rows))
  unfolding new_select_model
  picker-Succeeds spec rows msgs =
      run_select-Succeeds msgs (new_select_model lower spec rows)
        (recompute-IsSound lower (fresh_model spec rows))

  -- `Select` reads its result from a sound model without a fault.
  pub select_result-some :
      (m : SelectModel) → IsSound lower m → (ids : List Text) × (select_result m ≡ some ids)
  unfolding select_result
  select_result-some m v = elim (Bool-cases m.confirmed) [
    | inr b ↦ ([], rw b refl)
    | inl b ↦ elim (Bool-cases m.spec.pick_one) [
      | inr p ↦ (marked_ids m.selected m.rows, rw (b, p) refl)
      | inl p ↦ elim (Bool-cases (ltb m.cursor (length m.visible))) [
        | inr c ↦ ([], rw (b, p, c) refl)
        | inl c ↦
            let row = cursor_row-some lower m v (ground arith) in
            (row.0.id ∷ [], rw (b, p, c, row.1) refl)
      ]
    ]
  ]
