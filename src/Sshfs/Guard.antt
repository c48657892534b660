-- ===== src/Sshfs/Guard.antt =====
-- internal/sshfs/guard.go, the decision half: the guard's memory and one tick of `Decide`.
-- A %cpu (float64, printed by ps with one decimal) is a count of tenths of a percent. A time is a
-- count of nanoseconds, 0 for Go's zero time; a duration is a count of nanoseconds that is not
-- negative, so `now.Sub(t) >= d` is `t + d <= now` also where `t` lies after `now`. The map of
-- mounts is a function; the pointer `m` of the loop is the map's own entry, read and written back.
-- A null in the state file is a nil entry; `Decide` takes it for a missing one (`m == nil`), and so
-- do the states here. `ScannerHotTicks` is a natural: a file that holds a negative count, and the
-- wrap of an int after 2 ^ 63 hot ticks in a row, are left out.
-- The text of an action's reason is the value that `Sprintf` renders.
use erdc_hpc_scripts.Base.{
  ℕ, ◌+◌, ◌-◌, ◌*◌, Bool, true, false, not, ◌&&◌, ◌||◌, Option, none, some, List, [], ◌∷◌, ◌++◌,
  Text, text_eq, ltb, leb, ◌==◌, if◌then◌else◌, length,
}
use mathlib.Core.Option
pub mod Actions
pub mod Bench
pub mod Invariant
pub mod Scanner
pub mod Pointwise

pub record GuardTuning : Type 0 where
  pub scanner_hot : ℕ
  pub daemon_hot : ℕ
  pub sustain_ticks : ℕ
  pub park : ℕ
  pub idle : ℕ
  pub trip_limit : ℕ
  pub trip_window : ℕ

abbrev pub second : ℕ
second = 1000000000

abbrev pub minute : ℕ
minute = 60 * second

abbrev pub default_guard_tuning : GuardTuning
default_guard_tuning = record {
  scanner_hot = 200;
  daemon_hot = 50;
  sustain_ticks = 2;
  park = minute;
  idle = 30 * minute;
  trip_limit = 3;
  trip_window = 15 * minute;
}

-- The string field `Reason`: "", "av", "idle", or what else a state file holds.
pub data Reason : Type 0 where
  unset av idled : Reason
  other : Text → Reason

abbrev pub is_av : Reason → Bool
is_av av = true
is_av _ = false

pub record GuardMount : Type 0 where
  pub last_active : ℕ
  pub parked : ℕ
  pub reason : Reason
  pub trips : List ℕ
  pub benched : Bool

-- `&GuardMount{}`
abbrev pub new_mount : GuardMount
new_mount = record { last_active = 0; parked = 0; reason = unset; trips = []; benched = false }

abbrev pub Mounts : Type 0
Mounts = Text → Option GuardMount

pub record GuardState : Type 0 where
  pub scanner_hot_ticks : ℕ
  pub mounts : Mounts

pub record Observation : Type 0 where
  pub name : Text
  pub mounted : Bool
  pub daemon_cpu : ℕ
  pub held : Bool

pub data Op : Type 0 where
  park idle remount bench : Op

pub data Why : Type 0 where
  parked_times : ℕ → ℕ → Why  -- trips, window
  cooldown_over : Why
  av_scan : ℕ → ℕ → Why  -- scanner, daemon
  unused_for : ℕ → Why

pub record Action : Type 0 where
  pub name : Text
  pub op : Op
  pub why : Why

-- `now.Sub(t) >= d`
abbrev pub elapsed : ℕ → ℕ → ℕ → Bool
elapsed now t d = leb (t + d) now

abbrev pub is_zero : ℕ → Bool
is_zero t = t == 0

unfoldable pub prune_trips : List ℕ → ℕ → ℕ → List ℕ
prune_trips [] now window = []
prune_trips (t ∷ trips) now window =
    let rest = prune_trips trips now window in if not (elapsed now t window) then t ∷ rest else rest

-- What one tick sees beside the mounts: the scanner's %cpu, whether it has been hot for long
-- enough, the clock, the knobs and the ticket.
pub record Tick : Type 0 where
  pub scanner_cpu : ℕ
  pub scanner_hot : Bool
  pub now : ℕ
  pub tun : GuardTuning
  pub ticket_ok : Bool

-- The branch `!o.Mounted`.
unfoldable pub down : Tick → Text → GuardMount → GuardMount × List Action
down k name m =
    if is_zero m.parked
    then (record m { last_active = 0 }, [])
    else if not (is_av m.reason)
    then (m, [])
    else if leb k.tun.trip_limit (length m.trips)
    then if not m.benched
      then (
        record m { benched = true },
        record { name = name; op = bench; why = parked_times (length m.trips) k.tun.trip_window }
            ∷ [],
      )
      else (m, [])
    else if elapsed k.now m.parked k.tun.park && k.ticket_ok
    then (m, record { name = name; op = remount; why = cooldown_over } ∷ [])
    else (m, [])

-- What an up mount's entry becomes before the two tests that may take it down.
unfoldable pub settle : Tick → Observation → GuardMount → GuardMount
settle k o m =
    let active =
      o.held || (leb k.tun.daemon_hot o.daemon_cpu && ltb k.scanner_cpu k.tun.scanner_hot) in
    record {
      last_active = if active || is_zero m.last_active then k.now else m.last_active;
      parked = 0;
      reason = unset;
      trips = m.trips;
      benched = false;
    }

-- The rest of the loop's body, for a mount that is up.
unfoldable pub up : Tick → Observation → GuardMount → GuardMount × List Action
unfolding settle
up k o m₀ =
    let m = settle k o m₀ in
    if k.scanner_hot && leb k.tun.daemon_hot o.daemon_cpu && not o.held
    then (
      record m { trips = m.trips ++ k.now ∷ []; parked = k.now; reason = av },
      record { name = o.name; op = park; why = av_scan k.scanner_cpu o.daemon_cpu } ∷ [],
    )
    else if ltb 0 k.tun.idle && not o.held && elapsed k.now m.last_active k.tun.idle
    then (
      record m { parked = k.now; reason = idled },
      record { name = o.name; op = idle; why = unused_for (k.now - m.last_active) } ∷ [],
    )
    else (m, [])

-- One round of the loop over the observations, for the mount's entry.
unfoldable pub observe : Tick → Observation → GuardMount → GuardMount × List Action
unfolding prune_trips down up
observe k o m₀ =
    let m = record m₀ { trips = prune_trips m₀.trips k.now k.tun.trip_window } in
    if not o.mounted then down k o.name m else up k o m

-- `st.Mounts[name]`, or the entry that is made for a missing one.
abbrev pub entry : Option GuardMount → GuardMount
entry none = new_mount
entry (some m) = m

unfoldable pub set_mount : Text → GuardMount → Mounts → Mounts
set_mount n m ms j = if text_eq n j then some m else ms j

unfoldable pub observe_all : Tick → List Observation → Mounts → List Action → Mounts × List Action
observe_all k [] ms actions = (ms, actions)
observe_all k (o ∷ obs) ms actions =
    let (m, new) = observe k o (entry (ms o.name)) in
    observe_all k obs (set_mount o.name m ms) (actions ++ new)

unfoldable pub is_seen : List Observation → Text → Bool
is_seen [] n = false
is_seen (o ∷ obs) n = text_eq o.name n || is_seen obs n

-- `delete(st.Mounts, name)` for every name that no observation has.
unfoldable pub forget : List Observation → Mounts → Mounts
forget obs ms n = if is_seen obs n then ms n else none

unfoldable pub count_hot : ℕ → ℕ → GuardTuning → ℕ
count_hot ticks scanner_cpu tun = if leb tun.scanner_hot scanner_cpu then ticks + 1 else 0

unfoldable pub tick_of : GuardState → ℕ → ℕ → GuardTuning → Bool → Tick
unfolding count_hot
tick_of st scanner_cpu now tun ticket_ok = record {
  scanner_cpu = scanner_cpu;
  scanner_hot = leb tun.sustain_ticks (count_hot st.scanner_hot_ticks scanner_cpu tun);
  now = now;
  tun = tun;
  ticket_ok = ticket_ok;
}

unfoldable pub decide :
    GuardState → ℕ → List Observation → ℕ → GuardTuning → Bool → GuardState × List Action
unfolding observe observe_all set_mount forget is_seen tick_of count_hot text_eq
decide st scanner_cpu obs now tun ticket_ok =
    let (ms, actions) = observe_all (tick_of st scanner_cpu now tun ticket_ok) obs st.mounts [] in
    (
      record {
        scanner_hot_ticks = count_hot st.scanner_hot_ticks scanner_cpu tun;
        mounts = forget obs ms;
      },
      actions,
    )

-- The body of `(*GuardState).Parked` on what the map holds of a name. It dereferences an entry that
-- is nil, the fault `none`.
unfoldable pub parked_of : Option (Option GuardMount) → Option Reason
parked_of none = some unset
parked_of (some none) = none
parked_of (some (some m)) = some (if not (is_zero m.parked) then m.reason else unset)

-- `(*GuardState).Parked` on a state without nil entries, as `Decide` leaves it: the reason that a
-- mount is down, `unset` if the guard did not take it down.
unfoldable pub parked_reason : GuardState → Text → Option Reason
unfolding parked_of
parked_reason st n = parked_of (Option.map some (st.mounts n))
