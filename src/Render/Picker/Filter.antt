-- ===== src/Render/Picker/Filter.antt =====
-- internal/render/select.go: the text filter of the picker. `lower` stands for `strings.ToLower`.
use erdc_hpc_scripts.Base.{
  ℕ, suc, ◌-◌, Bool, true, false, ◌&&◌, Option, none, some, List, [], ◌∷◌, ◌++◌, Text, text_eq, ltb,
  ◌==◌, get_elem?, if◌then◌else◌,
}
use erdc_hpc_scripts.Base.GoStrings.{has_prefix, contains_text, cut, fields, join}
use mathlib.Core.List.{map}
use erdc_hpc_scripts.Render.Editor.{is_empty}

-- `SelectRow`; the hues and the preview are only drawn.
pub record SelectRow : Type 0 where
  pub id : Text
  pub cells : List Text

-- `filterTok`
pub record FilterTok : Type 0 where
  pub col : ℕ
  pub q : Text

abbrev pub plain : Text → FilterTok
plain w = record { col = 0; q = w }

module _ (lower : Text → Text) where
  -- The loop of `matchColumn`: the header of index `i` is next, `p` is the last one with the prefix,
  -- counted from 1, and `n` the number of them.
  unfoldable pub match_from : Text → List Text → ℕ → ℕ → ℕ → ℕ
  unfolding has_prefix text_eq
  match_from name [] i p n = if n == 1 then p else 0
  match_from name (h ∷ cols) i p n =
      let starts = has_prefix (lower h) name in
      let rest =
        match_from name cols (suc i) (if starts then suc i else p) (if starts then suc n else n) in
      if text_eq (lower h) name then suc i else rest

  abbrev pub match_column : Text → List Text → ℕ
  match_column name cols = match_from name cols 0 0 0

  -- A word `c:v`, of which `idx` is the column.
  abbrev pub scoped : Text → Text → ℕ → FilterTok
  scoped w v idx = if ltb 0 idx then record { col = idx; q = v } else plain w

  abbrev pub cut_tok : Text → List Text → Option (Text × Text) → FilterTok
  cut_tok w cols none = plain w
  cut_tok w cols (some (c, v)) = if is_empty v then plain w else scoped w v (match_column c cols)

  abbrev pub filter_tok : List Text → Text → FilterTok
  filter_tok cols w = cut_tok w cols (cut w 58)

  -- `parseFilter`
  unfoldable pub parse_filter : Text → List Text → List FilterTok
  unfolding match_from cut fields
  parse_filter filter cols = map (filter_tok cols) (fields (lower filter))

  abbrev pub cell_has : Text → Option Text → Bool
  cell_has q none = false
  cell_has q (some c) = contains_text (lower c) q

  abbrev pub tok_matches : SelectRow → FilterTok → Bool
  tok_matches r t =
      if ltb 0 t.col
      then cell_has t.q (get_elem? r.cells (t.col - 1))
      else contains_text (lower (r.id ++ 32 ∷ join r.cells 32)) t.q

  -- `rowMatches`
  unfoldable pub row_matches : SelectRow → List FilterTok → Bool
  unfolding contains_text join
  row_matches r [] = true
  row_matches r (t ∷ toks) = tok_matches r t && row_matches r toks
