-- ===== src/Job/Watch.antt =====
-- internal/job/watch.go, the tick loop of `Watch`: one snapshot line for each tick, and a line when
-- the progress stalls or resumes. A percentage is a value of a type `F` with the test `==` of
-- float64, a hook's data a value of a type `D` with the lookup of its number "pct". The loop takes
-- the results of the hook, one for each tick until the context ends. A failed write, which ends the
-- loop early, is left out, and so is the clock's stamp of a line.
use erdc_hpc_scripts.Base.{
  ℕ, ◌+◌, ◌≡◌, Bool, true, false, not, ◌&&◌, Option, none, some, List, [], ◌∷◌, ◌++◌, Text, leb,
  if◌then◌else◌,
}
pub mod Stall
pub mod Lines

-- `StallTicks`
abbrev pub stall_ticks : ℕ
stall_ticks = 10

-- An int; `negsuc n` is -(n + 1), and the exit code of a hook that a signal ended is -1.
pub data ℤ : Type 0 where
  pos : ℕ → ℤ
  negsuc : ℕ → ℤ

pub record HookResult (D : Type 0) : Type 0 where
  pub exit : ℤ
  pub payload : D
  pub err : Text

-- A line of the progress file.
pub data TickLine (D : Type 0) : Type 0 where
  snapshot : HookResult D → TickLine D
  stall : ℕ → TickLine D
  resumed : TickLine D

-- The variables of the loop: `lastPct` with `havePct`, `unchanged` and `stalled`.
pub record WatchState (F : Type 0) : Type 0 where
  pub last_pct : Option F
  pub unchanged : ℕ
  pub stalled : Bool

abbrev pub initial : {F : Type 0} → WatchState F
initial = record { last_pct = none; unchanged = 0; stalled = false }

module _ {F : Type 0} {D : Type 0} (eq : F → F → Bool) (pct_of : D → Option F) (limit : ℕ) where
  abbrev pub is_last : F → Option F → Bool
  is_last pct none = false
  is_last pct (some last) = eq pct last

  -- The `switch` on a percentage.
  unfoldable pub judge : F → WatchState F → WatchState F × List (TickLine D)
  judge pct s =
      let n = s.unchanged + 1 in
      if is_last pct s.last_pct
      then if leb limit n && not s.stalled
        then (record s { unchanged = n; stalled = true }, stall n ∷ [])
        else (record s { unchanged = n }, [])
      else (
        record { last_pct = some pct; unchanged = 0; stalled = false },
        if s.stalled then resumed ∷ [] else [],
      )

  abbrev pub judge? : Option F → WatchState F → WatchState F × List (TickLine D)
  judge? none s = (s, [])
  judge? (some pct) s = judge pct s

  -- One tick: the snapshot, then the judgement.
  unfoldable pub watch_tick : HookResult D → WatchState F → WatchState F × List (TickLine D)
  unfolding judge
  watch_tick r s = let (s', lines) = judge? (pct_of r.payload) s in (s', snapshot r ∷ lines)

  -- The loop: the lines that reach the file.
  unfoldable pub watch_from : List (HookResult D) → WatchState F → WatchState F × List (TickLine D)
  unfolding watch_tick
  watch_from [] s = (s, [])
  watch_from (r ∷ results) s =
      let (s₁, lines) = watch_tick r s in
      let (s₂, more) = watch_from results s₁ in (s₂, lines ++ more)

  unfoldable pub watch : List (HookResult D) → WatchState F × List (TickLine D)
  unfolding watch_from
  watch results = watch_from results initial
