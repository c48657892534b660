-- ===== src/Examples/Guard.antt =====
-- internal/sshfs/guard.go on concrete mounts; the scenarios are those of guard_test.go.
use erdc_hpc_scripts.Base.{
  ℕ, ◌+◌, ◌*◌, ◌≤◌, ◌<◌, ◌≡◌, ◌≢◌, ◌↔◌, refl, true, false, none, some, List, [], ◌∷◌, arith, codes,
  All, Any, length, text_eq, Text,
}
use mathlib.Core.List.{map}
use erdc_hpc_scripts.Sshfs.Guard.{
  GuardTuning, GuardMount, GuardState, Observation, Op, Tick, park, idle, remount, bench, set_mount,
  av, unset, second, minute, default_guard_tuning, decide, observe, tick_of, prune_trips,
  cooldown_over, is_seen, parked_reason,
}
use erdc_hpc_scripts.Sshfs.Guard.Actions.{IsAbout, decide-IsAbout, observe-remount_iff}
use erdc_hpc_scripts.Sshfs.Guard.Bench.{IsValid, observe-benched_remount}
use erdc_hpc_scripts.Sshfs.Guard.Pointwise.{
  AreDistinct, ideal_entry, ideal_actions, find_obs, decide_entry, decide_actions,
}
use erdc_hpc_scripts.Sshfs.Guard.Scanner.{Sample, run, AllHot, run-scanner_hot_iff}
use erdc_hpc_scripts.Sshfs.Guard.Invariant.{AreValid, run-AreValid}

abbrev empty_state : GuardState
empty_state = record { scanner_hot_ticks = 0; mounts = λ n. none }

abbrev tun : GuardTuning
tun = default_guard_tuning

-- A moment of a day, at a number of seconds after it.
abbrev at : ℕ → ℕ
at s = 63000000000 * second + s * second

abbrev hot_c : Observation
hot_c = record { name = codes "home_c"; mounted = true; daemon_cpu = 120; held = false }

abbrev down_c : Observation
down_c = record { name = codes "home_c"; mounted = false; daemon_cpu = 0; held = false }

abbrev idle_b : Observation
idle_b = record { name = codes "home_b"; mounted = true; daemon_cpu = 3; held = false }

abbrev sample : ℕ → ℕ → List Observation → Sample
sample cpu s obs = record { scanner_cpu = cpu; obs = obs; now = at s; ticket_ok = true }

-- Two hot ticks park the mount that is being read, and leave the other alone.
abbrev two_hot : List Sample
two_hot = sample 600 0 (hot_c ∷ idle_b ∷ []) ∷ sample 600 30 (hot_c ∷ idle_b ∷ []) ∷ []

two_hot_parks :
    (parked_reason (run tun two_hot empty_state) (codes "home_c") ≡ some av)
    × (parked_reason (run tun two_hot empty_state) (codes "home_b") ≡ some unset)
unfolding run decide parked_reason
two_hot_parks = (refl, refl)

-- One hot tick is behind; one mount is unused for long, one has cooled down, one trips too often.
abbrev fresh : ℕ → GuardMount
fresh s = record { last_active = at s; parked = 0; reason = unset; trips = []; benched = false }

abbrev cooled : GuardMount
cooled = record {
  last_active = 0;
  parked = at 1900;
  reason = av;
  trips = at 1900 ∷ [];
  benched = false;
}

abbrev tripping : GuardMount
tripping = record cooled { trips = at 1500 ∷ at 1700 ∷ at 1900 ∷ [] }

abbrev busy_state : GuardState
busy_state = record {
  scanner_hot_ticks = 1;
  mounts = set_mount (codes "home_c") (fresh 1990) (
      set_mount (codes "home_b") (fresh 0)
        (set_mount (codes "work_d") cooled (set_mount (codes "work_e") tripping (λ n. none))));
}

abbrev down_d : Observation
down_d = record down_c { name = codes "work_d" }

abbrev down_e : Observation
down_e = record down_c { name = codes "work_e" }

abbrev busy : List Observation
busy = hot_c ∷ idle_b ∷ down_d ∷ down_e ∷ []

-- The next tick parks, idles, remounts and benches one mount each.
busy_ops :
    map {B = Text × Op} (λ a. (a.name, a.op)) (decide busy_state 600 busy (at 2000) tun true).1
    ≡ (codes "home_c", park)
      ∷ (codes "home_b", idle)
      ∷ (codes "work_d", remount)
      ∷ (codes "work_e", bench)
      ∷ []
unfolding decide
busy_ops = refl

decide-IsAbout_example :
    All
      (λ a. Any (λ o. IsAbout (tick_of busy_state 600 (at 2000) tun true) o a) busy)
      (decide busy_state 600 busy (at 2000) tun true).1
decide-IsAbout_example = decide-IsAbout busy_state 600 busy (at 2000) tun true

abbrev tick : ℕ → Tick
tick s = record { scanner_cpu = 0; scanner_hot = false; now = at s; tun = tun; ticket_ok = true }

abbrev parked_mount : GuardMount
parked_mount = record {
  last_active = at 0;
  parked = at 30;
  reason = av;
  trips = at 30 ∷ [];
  benched = false;
}

abbrev benched_mount : GuardMount
benched_mount = record {
  last_active = at 0;
  parked = at 300;
  reason = av;
  trips = at 30 ∷ at 150 ∷ at 300 ∷ [];
  benched = true;
}

remounts_after_cooldown :
    ((observe (tick 60) down_c parked_mount).1 ≡ [])
    × ((observe (tick 120) down_c parked_mount).1
        ≡ record { name = codes "home_c"; op = remount; why = cooldown_over } ∷ [])
unfolding observe
remounts_after_cooldown = (refl, refl)

observe-remount_iff_example :
    Any (λ a. a.op ≡ remount) (observe (tick 120) down_c parked_mount).1 ↔ (
      (down_c.mounted ≡ false)
      × (parked_mount.parked ≢ 0)
      × (parked_mount.reason ≡ av)
      × (length (prune_trips parked_mount.trips (at 120) tun.trip_window) < tun.trip_limit)
      × (parked_mount.parked + tun.park ≤ at 120)
      × ((tick 120).ticket_ok ≡ true))
observe-remount_iff_example = observe-remount_iff (tick 120) down_c parked_mount

benched_mount-IsValid : IsValid benched_mount
benched_mount-IsValid = ground arith

three_recent : 3 ≤ length (prune_trips benched_mount.trips (at 330) (15 * minute))
unfolding prune_trips
three_recent = omega arith

-- Twenty minutes after its last park the benched mount is remounted.
observe-benched_remount_example :
    (observe (tick 1500) down_c benched_mount).1
    ≡ record { name = codes "home_c"; op = remount; why = cooldown_over } ∷ []
observe-benched_remount_example =
    observe-benched_remount (tick 1500) down_c benched_mount benched_mount-IsValid refl refl
      (omega arith) (omega arith) (omega arith) refl

busy_distinct : AreDistinct busy
unfolding is_seen text_eq
busy_distinct = (refl, (refl, (refl, (refl, tt))))

decide_entry_example :
    (decide busy_state 600 busy (at 2000) tun true).0.mounts (codes "home_b")
    ≡ ideal_entry
        (tick_of busy_state 600 (at 2000) tun true)
        (busy_state.mounts (codes "home_b"))
        (find_obs busy (codes "home_b"))
decide_entry_example =
    decide_entry busy_state 600 busy (at 2000) tun true (codes "home_b") busy_distinct

decide_actions_example :
    (decide busy_state 600 busy (at 2000) tun true).1
    ≡ ideal_actions (tick_of busy_state 600 (at 2000) tun true) busy_state.mounts busy
decide_actions_example = decide_actions busy_state 600 busy (at 2000) tun true busy_distinct

run-scanner_hot_iff_example :
    (let st = run tun (sample 0 0 [] ∷ sample 600 30 [] ∷ []) empty_state in
      (tick_of st 600 (at 60) tun true).scanner_hot ≡ true)
    ↔ AllHot tun (sample 600 30 [] ∷ sample 600 60 [] ∷ [])
run-scanner_hot_iff_example =
    run-scanner_hot_iff tun empty_state (sample 0 0 [] ∷ []) (sample 600 30 [] ∷ [])
      (sample 600 60 []) refl

run-AreValid_example : AreValid (run tun two_hot empty_state).mounts
run-AreValid_example = run-AreValid tun two_hot empty_state (omega arith) (λ n. tt)
