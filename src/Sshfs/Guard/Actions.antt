-- ===== src/Sshfs/Guard/Actions.antt =====
-- internal/sshfs/guard.go: what justifies each action that `Decide` returns.
use erdc_hpc_scripts.Base.{
  ℕ, ◌+◌, ◌≤◌, ◌<◌, ◌≡◌, ◌↔◌, Bool, true, false, inl, inr, List, [], ◌∷◌, arith, All, Any,
  All-append, All-map, length, ◌≢◌,
}
use erdc_hpc_scripts.Sshfs.Guard.{
  GuardTuning, GuardMount, GuardState, Observation, Action, Op, Tick, park, idle, remount, bench,
  av, observe, observe_all, entry, Mounts, decide, tick_of, prune_trips,
}

-- What the tick saw of the mount that an action is about.
abbrev pub Grounds : Tick → Observation → Op → Type 0
Grounds k o park =
    (o.mounted ≡ true)
    × (o.held ≡ false)
    × (k.scanner_hot ≡ true)
    × (k.tun.daemon_hot ≤ o.daemon_cpu)
Grounds k o idle = (o.mounted ≡ true) × (o.held ≡ false) × (0 < k.tun.idle)
Grounds k o remount = (o.mounted ≡ false) × (k.ticket_ok ≡ true)
Grounds k o bench = o.mounted ≡ false

abbrev pub IsAbout : Tick → Observation → Action → Type 0
IsAbout k o a = (o.name ≡ a.name) × Grounds k o a.op

pub observe-IsAbout :
    (k : Tick) (o : Observation) (m : GuardMount) → All (IsAbout k o) (observe k o m).1
unfolding observe
observe-IsAbout k o m = ground arith

module _ (P : Action → Type 0) (k : Tick) where
  observe_all-All :
      (obs : List Observation) (ms : Mounts) (actions : List Action)
      → All (λ o. (m : GuardMount) → All P (observe k o m).1) obs
      → All P actions
      → All P (observe_all k obs ms actions).1
  unfolding observe_all
  observe_all-All [] ms actions _ h = h
  observe_all-All (o ∷ obs) ms actions (ho, hs) h =
      observe_all-All obs _ _ hs (All-append P actions _ h (ho (entry (ms o.name))))

All-into-Any {ℓ} :
    {A : Type ℓ} {B : Type 0} (Q : A → B → Type 0) (xs : List A)
    → All (λ x. (b : B) → Q x b → Any (λ y. Q y b) xs) xs
All-into-Any Q [] = tt
All-into-Any Q (x ∷ xs) = (λ b q. inl q, All-map (λ y h b q. inr (h b q)) xs (All-into-Any Q xs))

-- Every action that Decide returns is about an observed mount and for cause: a mount is parked or
-- idled only if it is up and not held by its owner, parked only while the scanner has been hot
-- for long enough and its daemon is hot, idled only if idling is enabled, remounted only if it is
-- down and there is a ticket, and benched only if it is down.
pub decide-IsAbout :
    (st : GuardState) (cpu : ℕ) (obs : List Observation) (now : ℕ) (tun : GuardTuning) (ok : Bool)
    → All
        (λ a. Any (λ o. IsAbout (tick_of st cpu now tun ok) o a) obs)
        (decide st cpu obs now tun ok).1
unfolding decide
decide-IsAbout st cpu obs now tun ok =
    let k = tick_of st cpu now tun ok in
    observe_all-All (λ a. Any (λ o. IsAbout k o a) obs) k obs st.mounts []
      (All-map (λ o into m. All-map into (observe k o m).1 (observe-IsAbout k o m)) obs
        (All-into-Any (IsAbout k) obs))
      tt

-- A remount is ordered exactly when the mount is down, was parked for the scanner, fewer than the
-- limit of its parks are recent, its cooldown is over and there is a ticket.
pub observe-remount_iff :
    (k : Tick) (o : Observation) (m : GuardMount)
    → Any (λ a. a.op ≡ remount) (observe k o m).1 ↔ (
        (o.mounted ≡ false)
        × (m.parked ≢ 0)
        × (m.reason ≡ av)
        × (length (prune_trips m.trips k.now k.tun.trip_window) < k.tun.trip_limit)
        × (m.parked + k.tun.park ≤ k.now)
        × (k.ticket_ok ≡ true))
unfolding observe
observe-remount_iff k o m = (λ h. ground arith, λ h. ground arith)
