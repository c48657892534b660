-- ===== src/Sshfs/Guard/Invariant.antt =====
-- internal/sshfs/guard.go: the invariant of the entries, over whole ticks and runs.
use erdc_hpc_scripts.Base.{
  ℕ, ◌<◌, ◌≡◌, Bool, true, false, List, [], ◌∷◌, arith, Text, text_eq, All, Option, none, some,
  Bool-cases, inl, inr, is_some, if◌then◌else◌,
}
use erdc_hpc_scripts.Sshfs.Guard.{
  GuardTuning, GuardMount, GuardState, Observation, Action, Tick, observe_all, entry, set_mount,
  Mounts, decide, tick_of, is_seen,
}
use erdc_hpc_scripts.Sshfs.Guard.Bench.{IsValid, observe-IsValid, new_mount-IsValid}
use erdc_hpc_scripts.Sshfs.Guard.Scanner.{Sample, run}

abbrev pub IsValidEntry : Option GuardMount → Type 0
IsValidEntry none = Unit
IsValidEntry (some m) = IsValid m

abbrev pub AreValid : Mounts → Type 0
AreValid ms = (n : Text) → IsValidEntry (ms n)

entry-IsValid : (e : Option GuardMount) → IsValidEntry e → IsValid (entry e)
entry-IsValid none _ = new_mount-IsValid
entry-IsValid (some m) h = h

if-IsValidEntry :
    (b : Bool) (x y : Option GuardMount)
    → IsValidEntry x
    → IsValidEntry y
    → IsValidEntry (if b then x else y)
if-IsValidEntry true x y hx hy = hx
if-IsValidEntry false x y hx hy = hy

observe_all-AreValid :
    (k : Tick) (obs : List Observation) (ms : Mounts) (actions : List Action)
    → 0 < k.now
    → AreValid ms
    → AreValid (observe_all k obs ms actions).0
unfolding observe_all set_mount
observe_all-AreValid k [] ms actions later v = v
observe_all-AreValid k (o ∷ obs) ms actions later v = observe_all-AreValid k obs _ _ later (λ n.
    if-IsValidEntry (text_eq o.name n) _ (ms n)
      (observe-IsValid k o (entry (ms o.name)) later (entry-IsValid _ (v o.name))) (v n))

decide-AreValid :
    (st : GuardState) (cpu : ℕ) (obs : List Observation) (now : ℕ) (tun : GuardTuning) (ok : Bool)
    → 0 < now
    → AreValid st.mounts
    → AreValid (decide st cpu obs now tun ok).0.mounts
unfolding decide
decide-AreValid st cpu obs now tun ok later v n =
    if-IsValidEntry (is_seen obs n) _ none
      (observe_all-AreValid (tick_of st cpu now tun ok) obs st.mounts [] later v n) tt

-- Through any run of ticks only a parked entry has a reason or is benched, and only one parked
-- for the scanner is benched, if that holds at first and no tick has the zero time.
pub run-AreValid :
    (tun : GuardTuning) (samples : List Sample) (st : GuardState)
    → All (λ s. 0 < s.now) samples
    → AreValid st.mounts
    → AreValid (run tun samples st).mounts
unfolding run
run-AreValid tun [] st later v = v
run-AreValid tun (s ∷ samples) st (h, later) v =
    run-AreValid tun samples _ later
      (decide-AreValid st s.scanner_cpu s.obs s.now tun s.ticket_ok h v)

pub set_mount-is_some :
    (n j : Text) (m : GuardMount) (ms : Mounts)
    → is_some (ms j) ≡ true
    → is_some (set_mount n m ms j) ≡ true
unfolding set_mount
set_mount-is_some n j m ms h = ground arith

observe_all-keeps :
    (k : Tick) (obs : List Observation) (ms : Mounts) (actions : List Action) (n : Text)
    → is_some (ms n) ≡ true
    → is_some ((observe_all k obs ms actions).0 n) ≡ true
unfolding observe_all
observe_all-keeps k [] ms actions n h = h
observe_all-keeps k (o ∷ obs) ms actions n h =
    observe_all-keeps k obs _ _ n (set_mount-is_some o.name n _ ms h)

observe_all-seen :
    (k : Tick) (obs : List Observation) (ms : Mounts) (actions : List Action) (n : Text)
    → is_seen obs n ≡ true
    → is_some ((observe_all k obs ms actions).0 n) ≡ true
unfolding observe_all is_seen
observe_all-seen k [] ms actions n h = cc
observe_all-seen k (o ∷ obs) ms actions n h = elim (Bool-cases (text_eq o.name n)) [
  | inl e ↦ observe_all-keeps k obs _ _ n (unfold set_mount in rw e)
  | inr e ↦ observe_all-seen k obs _ _ n (ground arith)
]

-- After a tick the guard remembers exactly the mounts that were observed in it.
pub decide_remembers :
    (st : GuardState) (cpu : ℕ) (obs : List Observation) (now : ℕ) (tun : GuardTuning) (ok : Bool)
    (n : Text)
    → is_some ((decide st cpu obs now tun ok).0.mounts n) ≡ is_seen obs n
unfolding decide
decide_remembers st cpu obs now tun ok n = elim (Bool-cases (is_seen obs n)) [
  | inl e ↦ rw (e, observe_all-seen (tick_of st cpu now tun ok) obs st.mounts [] n e)
  | inr e ↦ rw e
]
