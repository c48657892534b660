-- ===== src/Cli/GuardTick/Total.antt =====
-- internal/cli/sshfs_guard.go, `runGuardTick`: the actions are carried out without a fault.
use erdc_hpc_scripts.Base.{
  ℕ, ◌≡◌, refl, Bool, true, false, Option, none, some, List, [], ◌∷◌, arith, Text, text_eq_iff,
  if◌then◌else◌, All, All-map, Any, is_some, inl, inr, ◌∙◌,
}
use mathlib.Core.List.{map}
use mathlib.Core.Option
use erdc_hpc_scripts.Sshfs.Guard.{
  GuardTuning, GuardMount, GuardState, Observation, Action, Op, park, idle, remount, bench, Mounts,
  set_mount, decide, is_seen, tick_of, Tick,
}
use erdc_hpc_scripts.Sshfs.Guard.Actions.{IsAbout, decide-IsAbout}
use erdc_hpc_scripts.Sshfs.Guard.Invariant.{decide_remembers, set_mount-is_some}
use erdc_hpc_scripts.Cli.GuardTick.{Machine, observation, act_op, act_all, run_guard_tick}

-- Every action's mount has an entry.
abbrev HaveEntries : Mounts → List Action → Type 0
HaveEntries ms = All (λ a. is_some (ms a.name) ≡ true)

set_mount-HaveEntries :
    (n : Text) (m : GuardMount) (ms : Mounts) (actions : List Action)
    → HaveEntries ms actions
    → HaveEntries (set_mount n m ms) actions
set_mount-HaveEntries n m ms actions = All-map (λ a h. set_mount-is_some n a.name m ms h) actions

-- Changing an entry that is there succeeds, and no entry goes missing.
abbrev Keeps : List Action → Option (Mounts × ℕ) → Type 0
Keeps actions none = ⊥
Keeps actions (some (ms, rc)) = HaveEntries ms actions

poke-Keeps :
    (n : Text) (f : GuardMount → GuardMount) (ms : Mounts) (e : Option GuardMount)
    (actions : List Action)
    → is_some e ≡ true
    → HaveEntries ms actions
    → Keeps actions (Option.map (λ ms. (ms, 1)) (Option.map (λ m. set_mount n (f m) ms) e))
poke-Keeps n f ms none actions e h = cc
poke-Keeps n f ms (some m) actions e h = set_mount-HaveEntries n (f m) ms actions h

if-Keeps :
    (b : Bool) (actions : List Action) (x y : Option (Mounts × ℕ))
    → Keeps actions x
    → Keeps actions y
    → Keeps actions (if b then x else y)
if-Keeps true actions x y hx hy = hx
if-Keeps false actions x y hx hy = hy

act_op-Keeps :
    (w : Machine) (op : Op) (n : Text) (ms : Mounts) (rc : ℕ) (actions : List Action)
    → is_some (ms n) ≡ true
    → HaveEntries ms actions
    → Keeps actions (act_op w op n ms rc)
unfolding act_op
act_op-Keeps w park n ms rc actions e h =
    if-Keeps (w.umount (w.mount_dir n)) actions _ _ h (poke-Keeps n _ ms (ms n) actions e h)
act_op-Keeps w idle n ms rc actions e h =
    if-Keeps (w.umount (w.mount_dir n)) actions _ _ h (poke-Keeps n _ ms (ms n) actions e h)
act_op-Keeps w remount n ms rc actions e h =
    if-Keeps (w.run_mount n) actions _ _ h (poke-Keeps n _ ms (ms n) actions e h)
act_op-Keeps w bench n ms rc actions e h = h

act_all-is_some :
    (w : Machine) (actions : List Action) (ms : Mounts) (rc : ℕ)
    → HaveEntries ms actions
    → is_some (act_all w actions ms rc) ≡ true
unfolding act_all
act_all-is_some w [] ms rc h = refl
act_all-is_some w (a ∷ actions) ms rc (e, h) =
    rest (act_op w a.op a.name ms rc) (act_op-Keeps w a.op a.name ms rc actions e h)
      (act_all-is_some w actions)
  where
    rest :
        (r : Option (Mounts × ℕ))
        → Keeps actions r
        → ((ms' : Mounts) (rc' : ℕ)
            → HaveEntries ms' actions
            → is_some (act_all w actions ms' rc') ≡ true)
        → is_some (
            let next : Option (Mounts × ℕ) = elim r [
              | none ↦ none
              | some (ms', rc') ↦ act_all w actions ms' rc'
            ] in
            next)
          ≡ true
    rest none k ih = absurd k
    rest (some (ms', rc')) k ih = ih ms' rc' k

Any-is_seen :
    (k : Tick) (a : Action) (obs : List Observation)
    → Any (λ o. IsAbout k o a) obs
    → is_seen obs a.name ≡ true
unfolding is_seen
Any-is_seen k a [] h = absurd h
Any-is_seen k a (o ∷ obs) (inl h) = rw ((text_eq_iff o.name a.name).1 h.0)
Any-is_seen k a (o ∷ obs) (inr h) = ground (arith, Any-is_seen k a obs h)

decide-HaveEntries :
    (st : GuardState) (cpu : ℕ) (obs : List Observation) (now : ℕ) (tun : GuardTuning) (ok : Bool)
    → HaveEntries (decide st cpu obs now tun ok).0.mounts (decide st cpu obs now tun ok).1
decide-HaveEntries st cpu obs now tun ok =
    All-map
      (λ a h.
        decide_remembers st cpu obs now tun ok a.name
        ∙ Any-is_seen (tick_of st cpu now tun ok) a obs h)
      (decide st cpu obs now tun ok).1 (decide-IsAbout st cpu obs now tun ok)

-- A tick of the guard command never dereferences a missing entry, whatever the machine answers
-- and whatever state it starts from: every action that Decide returns finds the entry that it may
-- change.
pub run_guard_tick_total :
    (w : Machine) (tun : GuardTuning) (dry_run : Bool) (st : GuardState)
    → is_some (run_guard_tick w tun dry_run st) ≡ true
unfolding run_guard_tick
run_guard_tick_total w tun dry_run st =
    let k =
      decide-HaveEntries st w.scanner_cpu (map (observation w) w.names) w.now tun w.ticket_ok in
    ground (arith, act_all-is_some w _ _ 0 k)
