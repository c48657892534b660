-- ===== src/Examples/Watch.antt =====
-- internal/job/watch.go on short histories, the percentages whole numbers and the limit two.
use erdc_hpc_scripts.Base.{ℕ, ◌==◌, ◌≡◌, refl, Option, none, some, List, [], ◌∷◌, arith, leb, codes}
use erdc_hpc_scripts.Job.Watch.{HookResult, pos, negsuc, snapshot, stall, resumed, watch}
use erdc_hpc_scripts.Job.Watch.Stall.{IsEquality, quiet, pcts, watch_judges}

abbrev result : Option ℕ → HookResult (Option ℕ)
result v = record { exit = pos 0; payload = v; err = [] }

-- A hook that the timeout ended: its exit code is -1 and it has no percentage.
abbrev timed_out : HookResult (Option ℕ)
timed_out = record { exit = negsuc 0; payload = none; err = codes "timeout" }

abbrev same : Option ℕ → Option ℕ
same v = v

abbrev stuck : List (HookResult (Option ℕ))
stuck = result (some 5) ∷ result (some 5) ∷ timed_out ∷ result (some 5) ∷ result (some 6) ∷ []

stuck_lines :
    (watch ◌==◌ same 2 stuck).1
    ≡ snapshot (result (some 5))
      ∷ snapshot (result (some 5))
      ∷ snapshot timed_out
      ∷ snapshot (result (some 5))
      ∷ stall 2
      ∷ snapshot (result (some 6))
      ∷ resumed
      ∷ []
unfolding watch
stuck_lines = refl

nat-IsEquality : IsEquality ◌==◌
nat-IsEquality = record {
  eq_refl = λ a. ground arith;
  eq_sym = λ a b. ground arith;
  eq_left = λ a b c h. ground arith;
}

watch_judges_example :
    let s = (watch ◌==◌ same 2 stuck).0 in
    let n = quiet ◌==◌ (pcts same stuck []) in (s.unchanged ≡ n) × (s.stalled ≡ leb 2 n)
watch_judges_example = watch_judges ◌==◌ nat-IsEquality same 2 (omega arith) stuck
