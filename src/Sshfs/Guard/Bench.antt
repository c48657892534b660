-- ===== src/Sshfs/Guard/Bench.antt =====
-- internal/sshfs/guard.go: how one mount's entry evolves over the ticks; benching and its end.
use erdc_hpc_scripts.Base.{
  ℕ, ◌+◌, ◌≤◌, ◌<◌, ◌≡◌, refl, true, false, List, [], ◌∷◌, arith, All, length,
}
use erdc_hpc_scripts.Sshfs.Guard.{
  GuardMount, Observation, Tick, remount, av, observe, prune_trips, new_mount, unset, cooldown_over,
}

-- What holds of an entry between two ticks of a guard that starts with no state.
pub record IsValid (m : GuardMount) : Type 0 where
  pub up_unset : m.parked ≡ 0 → m.reason ≡ unset
  pub up_not_benched : m.parked ≡ 0 → m.benched ≡ false
  pub benched_av : m.benched ≡ true → m.reason ≡ av

pub new_mount-IsValid : IsValid new_mount
new_mount-IsValid = ground arith

-- One tick keeps an entry valid: only a parked entry has a reason or is benched, and only one that
-- was parked for the scanner is benched.
pub observe-IsValid :
    (k : Tick) (o : Observation) (m : GuardMount)
    → 0 < k.now
    → IsValid m
    → IsValid (observe k o m).0
unfolding observe
observe-IsValid k o m later v = ground arith

-- Every trip that a tick keeps is more recent than the window.
pub prune_trips-recent :
    (trips : List ℕ) (now window : ℕ) → All (λ t. now < t + window) (prune_trips trips now window)
unfolding prune_trips
prune_trips-recent [] now window = tt
prune_trips-recent (t ∷ trips) now window = ground (arith, prune_trips-recent trips now window)

pub prune_trips-nil :
    (trips : List ℕ) (now window : ℕ)
    → All (λ t. t + window ≤ now) trips
    → prune_trips trips now window ≡ []
unfolding prune_trips
prune_trips-nil [] now window h = refl
prune_trips-nil (t ∷ trips) now window h = ground (arith, prune_trips-nil trips now window h.1)

-- A benched mount that is still down gets no action and stays benched as long as the limit of its
-- parks are recent, if its entry is valid: only a parked entry has a reason or is benched, and
-- only one parked for the scanner is benched.
pub observe-benched :
    (k : Tick) (o : Observation) (m : GuardMount)
    → IsValid m
    → m.benched ≡ true
    → o.mounted ≡ false
    → k.tun.trip_limit ≤ length (prune_trips m.trips k.now k.tun.trip_window)
    → ((observe k o m).1 ≡ []) × ((observe k o m).0.benched ≡ true)
unfolding observe
observe-benched k o m v b d h = ground arith

-- A benched mount does not stay down until it is mounted by hand: when all of its parks have left
-- the window and its cooldown is over, a tick with a ticket orders a remount, if its entry is
-- valid and the limit is positive.
pub observe-benched_remount :
    (k : Tick) (o : Observation) (m : GuardMount)
    → IsValid m
    → m.benched ≡ true
    → o.mounted ≡ false
    → 0 < k.tun.trip_limit
    → All (λ t. t + k.tun.trip_window ≤ k.now) m.trips
    → m.parked + k.tun.park ≤ k.now
    → k.ticket_ok ≡ true
    → (observe k o m).1 ≡ record { name = o.name; op = remount; why = cooldown_over } ∷ []
unfolding observe
observe-benched_remount k o m v b d limit old cooled ok =
    ground (arith, prune_trips-nil m.trips k.now k.tun.trip_window old)
