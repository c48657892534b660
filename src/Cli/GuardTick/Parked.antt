-- ===== src/Cli/GuardTick/Parked.antt =====
-- internal/cli/sshfs_guard.go, `runGuardTick`: what the saved state says of each mount afterwards.
use erdc_hpc_scripts.Base.{
  ℕ, ◌==◌, ◌<◌, ◌≡◌, ◌↔◌, refl, sym, Bool, true, false, not, ◌||◌, Option, none, some, List, [],
  ◌∷◌, arith, Text, text_eq, text_eq_refl, if◌then◌else◌, inl, inr, Bool-cases, ap, ◌∙◌,
  text_eq_sound, Any,
}
use mathlib.Core.List.{map}
use mathlib.Core.Option
use erdc_hpc_scripts.Sshfs.Guard.{
  GuardTuning, GuardMount, GuardState, Observation, Action, Op, park, idle, remount, bench, Mounts,
  decide, tick_of, Tick, observe, entry, av, idled, parked_of, parked_reason,
}
use erdc_hpc_scripts.Sshfs.Guard.Pointwise.{
  AreDistinct, find_obs, ideal_entry, decide_entry, decide_actions,
}
use erdc_hpc_scripts.Cli.GuardTick.Acted.{acted, act_all-map, acted-ideal_actions}
use erdc_hpc_scripts.Cli.GuardTick.{
  Machine, observation, act_all, run_guard_tick, contains, is_empty, saved,
}

-- Whether a mount is up once the actions about it have been carried out.
abbrev pub up_op : Machine → Op → Text → Bool → Bool
up_op w park n up = if w.umount (w.mount_dir n) then false else up
up_op w idle n up = if w.umount (w.mount_dir n) then false else up
up_op w remount n up = if w.run_mount n then true else up
up_op w bench n up = up

abbrev pub up_after : Machine → List Action → Bool → Bool
up_after w [] up = up
up_after w (a ∷ actions) up = up_after w actions (up_op w a.op a.name up)

find_obs-observation :
    (w : Machine) (names : List Text) (n : Text)
    → contains names n ≡ true
    → find_obs (map (observation w) names) n ≡ some (observation w n)
unfolding find_obs contains observation
find_obs-observation w [] n h = cc
find_obs-observation w (s ∷ names) n h = elim (Bool-cases (text_eq s n)) [
  | inl e ↦ rw e (ap (λ t. some (observation w t)) (text_eq_sound s n e))
  | inr e ↦ rw e (find_obs-observation w names n (ground arith))
]

contains-is_empty :
    (names : List Text) (n : Text) → contains names n ≡ true → (is_empty names || false) ≡ false
contains-is_empty [] n h = unfold contains in sym h
contains-is_empty (s ∷ names) n h = refl

if-false {ℓ} :
    {A : Type ℓ} (b : Bool) (x y : A) {z : A} → b ≡ false → (if b then x else y) ≡ z → y ≡ z
if-false true x y h e = cc
if-false false x y h e = e

saved-some :
    (w : Machine) (old new st' : GuardState) (rc : ℕ) (r : Option (Mounts × ℕ))
    → w.save_ok ≡ true
    → Option.map (saved w old new) r ≡ some (st', rc)
    → r ≡ some (st'.mounts, rc)
saved-some w old new st' rc none save e = cc
saved-some w old new st' rc (some (ms, rc₀)) save e = ground arith

run_guard_tick-acts :
    (w : Machine) (tun : GuardTuning) (st st' : GuardState) (rc : ℕ) (n : Text)
    → contains w.names n ≡ true
    → w.save_ok ≡ true
    → run_guard_tick w tun false st ≡ some (st', rc)
    → let (new, actions) =
        decide st w.scanner_cpu (map (observation w) w.names) w.now tun w.ticket_ok in
      act_all w actions new.mounts 0 ≡ some (st'.mounts, rc)
unfolding run_guard_tick
run_guard_tick-acts w tun st st' rc n h save e =
    let new = decide st w.scanner_cpu (map (observation w) w.names) w.now tun w.ticket_ok in
    saved-some w st new.0 st' rc _ save (if-false _ _ _ (contains-is_empty w.names n h) e)

-- What a tick saves for an observed mount: the rule's entry, as carrying out its actions leaves it.
saved_entry :
    (w : Machine) (tun : GuardTuning) (st st' : GuardState) (rc : ℕ) (n : Text)
    → AreDistinct (map (observation w) w.names)
    → contains w.names n ≡ true
    → w.save_ok ≡ true
    → run_guard_tick w tun false st ≡ some (st', rc)
    → let k = tick_of st w.scanner_cpu w.now tun w.ticket_ok in
      let (m, actions) = observe k (observation w n) (entry (st.mounts n)) in
      st'.mounts n ≡ some (acted w actions n m)
saved_entry w tun st st' rc n d h save e =
    let k = tick_of st w.scanner_cpu w.now tun w.ticket_ok in
    let o = observation w n in
    let obs = map (observation w) w.names in
    let new = decide st w.scanner_cpu obs w.now tun w.ticket_ok in
    let found = find_obs-observation w w.names n h in
    act_all-map w new.1 n new.0.mounts st'.mounts 0 rc
      (run_guard_tick-acts w tun st st' rc n h save e)
    ∙ ap (Option.map (acted w new.1 n)) (
        decide_entry st w.scanner_cpu obs w.now tun w.ticket_ok n d
        ∙ ap (ideal_entry k (st.mounts n)) found)
    ∙ ap (λ actions. some (acted w actions n (observe k o (entry (st.mounts n))).0))
        (decide_actions st w.scanner_cpu obs w.now tun w.ticket_ok d)
    ∙ ap some (acted-ideal_actions w k st.mounts obs o n _ d found)

abbrev pub is_parked : Option GuardMount → Bool
is_parked none = false
is_parked (some m) = not (m.parked == 0)

-- Whether the mount is up after the actions that the tick orders for it.
abbrev pub is_up_after : Machine → GuardTuning → GuardState → Text → Bool
is_up_after w tun st n =
    let k = tick_of st w.scanner_cpu w.now tun w.ticket_ok in
    up_after w (observe k (observation w n) (entry (st.mounts n))).1 (observation w n).mounted

-- The tick orders the operation for the mount, and the unmount works.
abbrev pub TakesDown : Machine → GuardTuning → GuardState → Text → Op → Type 0
TakesDown w tun st n op =
    let k = tick_of st w.scanner_cpu w.now tun w.ticket_ok in
    Any (λ a. a.op ≡ op) (observe k (observation w n) (entry (st.mounts n))).1
    × (w.umount (w.mount_dir n) ≡ true)

-- What the rule's actions leave on record of a mount that was up.
module _ (w : Machine) (k : Tick) (o : Observation) (m : GuardMount) where
  abbrev left : GuardMount
  left = let (m', actions) = observe k o m in acted w actions o.name m'

  abbrev Ordered : Op → Type 0
  Ordered op = Any (λ a. a.op ≡ op) (observe k o m).1 × (w.umount (w.mount_dir o.name) ≡ true)

  acted-up_parked :
      0 < k.now
      → o.mounted ≡ true
      → (is_parked (some left) ≡ true) ↔ (up_after w (observe k o m).1 o.mounted ≡ false)
  unfolding observe acted
  acted-up_parked later up =
      let self = text_eq_refl o.name in (λ h. ground arith, λ h. ground arith)

  acted-up_av :
      0 < k.now → o.mounted ≡ true → (parked_of (some (some left)) ≡ some av) ↔ Ordered park
  unfolding observe acted parked_of
  acted-up_av later up = let self = text_eq_refl o.name in (λ h. ground arith, λ h. ground arith)

  acted-up_idled :
      0 < k.now → o.mounted ≡ true → (parked_of (some (some left)) ≡ some idled) ↔ Ordered idle
  unfolding observe acted parked_of
  acted-up_idled later up = let self = text_eq_refl o.name in (λ h. ground arith, λ h. ground arith)

acted-down_parked :
    (w : Machine) (k : Tick) (o : Observation) (e : Option GuardMount)
    → 0 < w.now
    → o.mounted ≡ false
    → let (m', actions) = observe k o (entry e) in
      is_parked (some (acted w actions o.name m')) ≡ is_parked e
unfolding observe acted
acted-down_parked w k o e later down = let self = text_eq_refl o.name in ground arith

-- After a live tick whose state is saved, a mount that was up is on record as parked exactly when
-- the tick left it down, as parked for the scanner exactly when the tick ordered a park of it and
-- the unmount worked, and as idle exactly when the tick ordered an unmount of it as idle and the
-- unmount worked, if the names are distinct and the clock is not the zero time.
pub tick_parked-up :
    (w : Machine) (tun : GuardTuning) (st st' : GuardState) (rc : ℕ) (n : Text)
    → AreDistinct (map (observation w) w.names)
    → contains w.names n ≡ true
    → w.save_ok ≡ true
    → 0 < w.now
    → run_guard_tick w tun false st ≡ some (st', rc)
    → (observation w n).mounted ≡ true
    → ((is_parked (st'.mounts n) ≡ true) ↔ (is_up_after w tun st n ≡ false))
      × ((parked_reason st' n ≡ some av) ↔ TakesDown w tun st n park)
      × ((parked_reason st' n ≡ some idled) ↔ TakesDown w tun st n idle)
unfolding observation tick_of parked_reason
tick_parked-up w tun st st' rc n d h save later e up =
    let k = tick_of st w.scanner_cpu w.now tun w.ticket_ok in
    let o = observation w n in
    rw (saved_entry w tun st st' rc n d h save e) (
      acted-up_parked w k o _ later up,
      acted-up_av w k o _ later up,
      acted-up_idled w k o _ later up,
    )

-- After a live tick whose state is saved, a mount that was down is on record as parked exactly when
-- it was before, if the names are distinct and the clock is not the zero time.
pub tick_parked-down :
    (w : Machine) (tun : GuardTuning) (st st' : GuardState) (rc : ℕ) (n : Text)
    → AreDistinct (map (observation w) w.names)
    → contains w.names n ≡ true
    → w.save_ok ≡ true
    → 0 < w.now
    → run_guard_tick w tun false st ≡ some (st', rc)
    → (observation w n).mounted ≡ false
    → is_parked (st'.mounts n) ≡ is_parked (st.mounts n)
unfolding observation
tick_parked-down w tun st st' rc n d h save later e down =
    rw (saved_entry w tun st st' rc n d h save e) (
      acted-down_parked w (tick_of st w.scanner_cpu w.now tun w.ticket_ok) (observation w n)
        (st.mounts n) later down)
