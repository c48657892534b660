-- ===== src/Job/Watch/Lines.antt =====
-- internal/job/watch.go: the lines of the progress file.
use erdc_hpc_scripts.Base.{
  ℕ, ◌≡◌, refl, ◌∙◌, ap, Bool, true, false, Option, List, [], ◌∷◌, ◌++◌, arith, leb,
}
use erdc_hpc_scripts.Job.Watch.{
  HookResult, TickLine, snapshot, stall, resumed, WatchState, initial, watch_tick, watch_from,
  watch,
}

-- The snapshots among some lines.
pub snapshots : {D : Type 0} → List (TickLine D) → List (HookResult D)
snapshots [] = []
snapshots (snapshot r ∷ lines) = r ∷ snapshots lines
snapshots (stall n ∷ lines) = snapshots lines
snapshots (resumed ∷ lines) = snapshots lines

-- A stall is marked only while none is, and says the limit; a resumption only while one is.
abbrev pub Alternates : {D : Type 0} → ℕ → Bool → List (TickLine D) → Type 0
Alternates limit b [] = Unit
Alternates limit b (snapshot r ∷ lines) = Alternates limit b lines
Alternates limit b (stall n ∷ lines) = (b ≡ false) × (n ≡ limit) × Alternates limit true lines
Alternates limit b (resumed ∷ lines) = (b ≡ true) × Alternates limit false lines

module _ {F : Type 0} {D : Type 0} (eq : F → F → Bool) (pct_of : D → Option F) (limit : ℕ) where
  tick-snapshots :
      (r : HookResult D) (s : WatchState F) (more : List (TickLine D))
      → snapshots ((watch_tick eq pct_of limit r s).1 ++ more) ≡ r ∷ snapshots more
  unfolding watch_tick snapshots
  tick-snapshots r s more = ground arith

  watch_from-snapshots :
      (results : List (HookResult D)) (s : WatchState F)
      → snapshots (watch_from eq pct_of limit results s).1 ≡ results
  unfolding watch_from
  watch_from-snapshots [] s = unfold snapshots in refl
  watch_from-snapshots (r ∷ results) s =
      tick-snapshots r s _ ∙ ap (λ rs. r ∷ rs) (watch_from-snapshots results _)

  -- The progress file gets one snapshot line for each tick, in order and as the hook returned it,
  -- whatever lines on stalls stand between them.
  pub watch-snapshots :
      (results : List (HookResult D)) → snapshots (watch eq pct_of limit results).1 ≡ results
  unfolding watch
  watch-snapshots results = watch_from-snapshots results initial

  abbrev IsCounted : WatchState F → Type 0
  IsCounted s = s.stalled ≡ leb limit s.unchanged
