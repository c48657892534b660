-- ===== src/Examples/GuardTick.antt =====
-- internal/cli/sshfs_guard.go: ticks on a machine whose unmount fails or works.
use erdc_hpc_scripts.Base.{
  ℕ, ◌≡◌, ◌↔◌, refl, Bool, true, false, Option, none, some, List, [], ◌∷◌, ◌++◌, arith, Text, codes,
  is_some, text_eq,
}
use mathlib.Core.List.{map}
use erdc_hpc_scripts.Sshfs.Guard.{
  GuardTuning, GuardState, default_guard_tuning, is_seen, decide, av, idled, park, idle,
  parked_reason,
}
use erdc_hpc_scripts.Sshfs.Guard.Pointwise.{AreDistinct}
use erdc_hpc_scripts.Cli.GuardTick.{Machine, observation, run_guard_tick, contains}
use erdc_hpc_scripts.Cli.GuardTick.Total.{run_guard_tick_total}
use erdc_hpc_scripts.Cli.GuardTick.Parked.{is_parked, is_up_after, TakesDown, tick_parked-up}

abbrev tun : GuardTuning
tun = default_guard_tuning

abbrev machine : Bool → List Text → Machine
machine umounts active = record {
  names = codes "home_c" ∷ codes "work" ∷ [];
  mount_dir = λ n. codes "/m/" ++ n;
  active_dirs = active;
  lsof_names = [];
  scanner_cpu = 600;
  daemon_cpu = λ d. 120;
  now = 5000;
  ticket_ok = true;
  umount = λ d. umounts;
  run_mount = λ n. false;
  save_ok = true;
}

abbrev up_machine : Bool → Machine
up_machine umounts = machine umounts (codes "/m/home_c" ∷ codes "/m/work" ∷ [])

-- One hot tick is behind.
abbrev warm : GuardState
warm = record { scanner_hot_ticks = 1; mounts = λ n. none }

abbrev outcome : Option (GuardState × ℕ) → GuardState × ℕ
outcome none = (warm, 9)
outcome (some r) = r

failed_park : (outcome (run_guard_tick (up_machine false) tun false warm)).1 ≡ 1
unfolding run_guard_tick decide
failed_park = refl

run_guard_tick_total_example : is_some (run_guard_tick (up_machine false) tun false warm) ≡ true
run_guard_tick_total_example = run_guard_tick_total (up_machine false) tun false warm

distinct :
    (umounts : Bool) (active : List Text)
    → AreDistinct (map (observation (machine umounts active)) (machine umounts active).names)
unfolding is_seen observation text_eq
distinct umounts active = (refl, (refl, tt))

abbrev after : Machine → GuardState
after w = (outcome (run_guard_tick w tun false warm)).0

some-outcome :
    (r : Option (GuardState × ℕ)) → is_some r ≡ true → r ≡ some ((outcome r).0, (outcome r).1)
some-outcome none h = cc
some-outcome (some r) h = refl

ran :
    (w : Machine)
    → run_guard_tick w tun false warm
      ≡ some (after w, (outcome (run_guard_tick w tun false warm)).1)
ran w = some-outcome _ (run_guard_tick_total w tun false warm)

-- The second hot tick parks the mount, whose unmount works.
good_park : (outcome (run_guard_tick (up_machine true) tun false warm)).1 ≡ 0
unfolding run_guard_tick decide
good_park = refl

home_c_up : (observation (up_machine true) (codes "home_c")).mounted ≡ true
unfolding observation text_eq
home_c_up = refl

tick_parked-up_example :
    ((is_parked ((after (up_machine true)).mounts (codes "home_c")) ≡ true)
      ↔ (is_up_after (up_machine true) tun warm (codes "home_c") ≡ false))
    × ((parked_reason (after (up_machine true)) (codes "home_c") ≡ some av)
        ↔ TakesDown (up_machine true) tun warm (codes "home_c") park)
    × ((parked_reason (after (up_machine true)) (codes "home_c") ≡ some idled)
        ↔ TakesDown (up_machine true) tun warm (codes "home_c") idle)
tick_parked-up_example =
    tick_parked-up (up_machine true) tun warm (after (up_machine true)) _ (codes "home_c")
      (distinct true _) (unfold contains text_eq in refl) refl (omega arith) (ran (up_machine true))
      home_c_up

after_park : parked_reason (after (up_machine true)) (codes "home_c") ≡ some av
unfolding run_guard_tick decide parked_reason text_eq
after_park = refl
