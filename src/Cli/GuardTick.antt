-- ===== src/Cli/GuardTick.antt =====
-- internal/cli/sshfs_guard.go, `runGuardTick`: observe, decide, act, save. What the machine answers
-- (the registry's names, the mount table, lsof, whether an unmount or a mount works, whether the
-- state file can be written) is the record `Machine`; messages and events are left out. The state
-- is the one on disk.
use erdc_hpc_scripts.Base.{
  ℕ, Bool, true, false, not, ◌&&◌, ◌||◌, Option, none, some, List, [], ◌∷◌, ◌++◌, Text, codes,
  text_eq, if◌then◌else◌,
}
use mathlib.Core.List.{map}
use mathlib.Core.Option
use erdc_hpc_scripts.Base.GoStrings.{has_prefix}
use erdc_hpc_scripts.Sshfs.Guard.{
  GuardTuning, GuardMount, GuardState, Observation, Action, Op, park, idle, remount, bench, unset,
  Mounts, set_mount, decide,
}
pub mod Total
pub mod Acted
pub mod Parked

pub record Machine : Type 0 where
  pub names : List Text  -- `registeredMountNames()`
  pub mount_dir : Text → Text
  pub active_dirs : List Text  -- `ActiveMounts()`
  pub lsof_names : List Text  -- the names of the owner's open files, none if lsof fails
  pub scanner_cpu : ℕ
  pub daemon_cpu : Text → ℕ
  pub now : ℕ
  pub ticket_ok : Bool
  pub umount : Text → Bool
  pub run_mount : Text → Bool  -- `runMount(…) == 0`
  pub save_ok : Bool

unfoldable pub contains : List Text → Text → Bool
contains [] t = false
contains (s ∷ texts) t = text_eq s t || contains texts t

-- The inner loop of `heldDirs`: an open path is the directory or lies under it.
unfoldable pub sits_on : Text → List Text → Bool
sits_on d [] = false
sits_on d (n ∷ names) = (text_eq n d || has_prefix n (d ++ codes "/")) || sits_on d names

-- `heldDirs(dirs, names)`, a map by directory.
unfoldable pub held_dirs : List Text → List Text → Text → Bool
unfolding contains sits_on
held_dirs dirs names d = contains dirs d && sits_on d names

unfoldable pub mounted_dirs : Machine → List Text → List Text
unfolding contains
mounted_dirs w [] = []
mounted_dirs w (n ∷ names) =
    let rest = mounted_dirs w names in
    if contains w.active_dirs (w.mount_dir n) then w.mount_dir n ∷ rest else rest

unfoldable pub observation : Machine → Text → Observation
unfolding contains held_dirs mounted_dirs
observation w n = record {
  name = n;
  mounted = contains w.active_dirs (w.mount_dir n);
  daemon_cpu = w.daemon_cpu (w.mount_dir n);
  held = held_dirs (mounted_dirs w w.names) w.lsof_names (w.mount_dir n);
}

-- `st.Mounts[a.Name]` is changed through its pointer; a missing entry is a nil dereference, `none`.
unfoldable pub poke : Text → (GuardMount → GuardMount) → Mounts → Option Mounts
poke n f ms = Option.map (λ m. set_mount n (f m) ms) (ms n)

abbrev pub unpark : GuardMount → GuardMount
unpark m = record m { parked = 0; reason = unset }

abbrev pub restamp : ℕ → GuardMount → GuardMount
restamp now m = record m { parked = now }

abbrev pub failing : Option Mounts → Option (Mounts × ℕ)
failing = Option.map (λ ms. (ms, 1))

-- One round of the loop over the actions: the entries and the exit code `rc`.
unfoldable pub act_op : Machine → Op → Text → Mounts → ℕ → Option (Mounts × ℕ)
unfolding poke
act_op w park n ms rc =
    if w.umount (w.mount_dir n) then some (ms, rc) else failing (poke n unpark ms)
act_op w idle n ms rc =
    if w.umount (w.mount_dir n) then some (ms, rc) else failing (poke n unpark ms)
act_op w remount n ms rc =
    if w.run_mount n then some (ms, rc) else failing (poke n (restamp w.now) ms)
act_op w bench n ms rc = some (ms, rc)

unfoldable pub act_all : Machine → List Action → Mounts → ℕ → Option (Mounts × ℕ)
unfolding act_op
act_all w [] ms rc = some (ms, rc)
act_all w (a ∷ actions) ms rc = elim (act_op w a.op a.name ms rc) [
  | none ↦ none
  | some (ms', rc') ↦ act_all w actions ms' rc'
]

-- The state on disk and the exit code after the save.
abbrev pub saved : Machine → GuardState → GuardState → Mounts × ℕ → GuardState × ℕ
saved w old new (ms, rc) = if w.save_ok then (record new { mounts = ms }, rc) else (old, 1)

abbrev pub is_empty {ℓ} : {A : Type ℓ} → List A → Bool
is_empty [] = true
is_empty (x ∷ xs) = false

unfoldable pub run_guard_tick : Machine → GuardTuning → Bool → GuardState → Option (GuardState × ℕ)
unfolding observation act_all
run_guard_tick w tun dry_run st =
    let (st', actions) =
      decide st w.scanner_cpu (map (observation w) w.names) w.now tun w.ticket_ok in
    if is_empty w.names || dry_run
    then some (st, 0)
    else Option.map (saved w st st') (act_all w actions st'.mounts 0)
