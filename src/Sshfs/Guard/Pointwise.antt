-- ===== src/Sshfs/Guard/Pointwise.antt =====
-- internal/sshfs/guard.go: `Decide` against its specification, one entry at a time. The loop works
-- on one shared map; where the observed names are distinct, each mount's outcome depends on its own
-- observation and its own entry only.
use erdc_hpc_scripts.Base.{
  ℕ, ◌≡◌, refl, sym, Bool, true, false, inl, inr, List, [], ◌∷◌, ◌++◌, arith, Text, Option, none,
  some, text_eq, text_eq_iff, text_eq_comm, Bool-cases, append_assoc, append-nil, text_eq_refl,
  if◌then◌else◌, ◌∙◌, subst, ap,
}
use erdc_hpc_scripts.Sshfs.Guard.{
  GuardTuning, GuardMount, GuardState, Observation, Action, Tick, observe, observe_all, entry,
  set_mount, Mounts, decide, tick_of, is_seen,
}

-- No two observations have one name.
abbrev pub AreDistinct : List Observation → Type 0
AreDistinct [] = Unit
AreDistinct (o ∷ obs) = (is_seen obs o.name ≡ false) × AreDistinct obs

-- The observation of a name.
unfoldable pub find_obs : List Observation → Text → Option Observation
find_obs [] n = none
find_obs (o ∷ obs) n = if text_eq o.name n then some o else find_obs obs n

-- What a tick leaves of the entry of one name: the tick's rule at its observation, or nothing.
abbrev pub ideal_entry : Tick → Option GuardMount → Option Observation → Option GuardMount
ideal_entry k m none = none
ideal_entry k m (some o) = some (observe k o (entry m)).0

-- The actions, mount by mount, from the entries before the tick.
unfoldable pub ideal_actions : Tick → Mounts → List Observation → List Action
ideal_actions k ms [] = []
ideal_actions k ms (o ∷ obs) = (observe k o (entry (ms o.name))).1 ++ ideal_actions k ms obs

set_mount_ne :
    (n j : Text) (m : GuardMount) (ms : Mounts) → text_eq n j ≡ false → set_mount n m ms j ≡ ms j
unfolding set_mount
set_mount_ne n j m ms h = rw h

set_mount_self : (n : Text) (m : GuardMount) (ms : Mounts) → set_mount n m ms n ≡ some m
unfolding set_mount
set_mount_self n m ms = rw (text_eq_refl n)

-- An entry whose name is not among the observations stays as it is.
observe_all_unseen :
    (k : Tick) (obs : List Observation) (ms : Mounts) (actions : List Action) (n : Text)
    → is_seen obs n ≡ false
    → (observe_all k obs ms actions).0 n ≡ ms n
unfolding observe_all is_seen
observe_all_unseen k [] ms actions n h = refl
observe_all_unseen k (o ∷ obs) ms actions n h =
    let apart : (text_eq o.name n ≡ false) × (is_seen obs n ≡ false) = ground arith in
    observe_all_unseen k obs _ _ n apart.1 ∙ set_mount_ne o.name n _ ms apart.0

pub find_obs_unseen :
    (obs : List Observation) (n : Text) → is_seen obs n ≡ false → find_obs obs n ≡ none
unfolding find_obs is_seen
find_obs_unseen [] n h = refl
find_obs_unseen (o ∷ obs) n h = ground (arith, find_obs_unseen obs n)

find_obs_head : (o : Observation) (obs : List Observation) → find_obs (o ∷ obs) o.name ≡ some o
unfolding find_obs
find_obs_head o obs = rw (text_eq_refl o.name)

pub find_obs_tail :
    (o : Observation) (obs : List Observation) (n : Text)
    → text_eq o.name n ≡ false
    → find_obs (o ∷ obs) n ≡ find_obs obs n
unfolding find_obs
find_obs_tail o obs n h = rw h

seen_tail :
    (o : Observation) (obs : List Observation) (n : Text)
    → text_eq o.name n ≡ false
    → is_seen (o ∷ obs) n ≡ true
    → is_seen obs n ≡ true
unfolding is_seen
seen_tail o obs n e h = ground arith

-- The first round settles the entry of the first observation, and no later round touches it.
observe_all_head :
    (k : Tick) (o : Observation) (obs : List Observation) (ms : Mounts) (actions : List Action)
    → is_seen obs o.name ≡ false
    → (observe_all k (o ∷ obs) ms actions).0 o.name
      ≡ ideal_entry k (ms o.name) (find_obs (o ∷ obs) o.name)
observe_all_head k o obs ms actions h =
    rw find_obs_head
      (unfold observe_all in observe_all_unseen k obs _ _ o.name h ∙ set_mount_self o.name _ ms)

-- With distinct names the loop applies the rule once to each observed entry.
observe_all-find_obs :
    (k : Tick) (obs : List Observation) (ms : Mounts) (actions : List Action) (n : Text)
    → AreDistinct obs
    → is_seen obs n ≡ true
    → (observe_all k obs ms actions).0 n ≡ ideal_entry k (ms n) (find_obs obs n)
unfolding observe_all
observe_all-find_obs k [] ms actions n d h = absurd (unfold is_seen in cc)
observe_all-find_obs k (o ∷ obs) ms actions n d h = elim (Bool-cases (text_eq o.name n)) [
  | inl e ↦
      subst
        (λ j.
          (observe_all k (o ∷ obs) ms actions).0 j ≡ ideal_entry k (ms j) (find_obs (o ∷ obs) j))
        ((text_eq_iff o.name n).0 e) (observe_all_head k o obs ms actions d.0)
  | inr e ↦ rw (find_obs_tail o obs n e) (
      observe_all-find_obs k obs _ _ n d.1 (seen_tail o obs n e h)
      ∙ ap (λ m. ideal_entry k m (find_obs obs n)) (set_mount_ne o.name n _ ms e))
]

-- With distinct names a tick forgets every mount that was not observed, and gives each observed
-- one the result of the rule at its own observation and its own entry.
pub decide_entry :
    (st : GuardState) (cpu : ℕ) (obs : List Observation) (now : ℕ) (tun : GuardTuning) (ok : Bool)
    (n : Text)
    → AreDistinct obs
    → (decide st cpu obs now tun ok).0.mounts n
      ≡ ideal_entry (tick_of st cpu now tun ok) (st.mounts n) (find_obs obs n)
unfolding decide
decide_entry st cpu obs now tun ok n d = elim (Bool-cases (is_seen obs n)) [
  | inl e ↦ rw e (observe_all-find_obs (tick_of st cpu now tun ok) obs st.mounts [] n d e)
  | inr e ↦ rw (e, find_obs_unseen obs n e)
]

-- With distinct names the actions too are those of the rule at the entries before the tick, in the
-- order of the observations.
ideal_actions-set_mount :
    (k : Tick) (obs : List Observation) (ms : Mounts) (n : Text) (m : GuardMount)
    → is_seen obs n ≡ false
    → ideal_actions k (set_mount n m ms) obs ≡ ideal_actions k ms obs
unfolding ideal_actions is_seen
ideal_actions-set_mount k [] ms n m h = refl
ideal_actions-set_mount k (o ∷ obs) ms n m h =
    let apart : (text_eq o.name n ≡ false) × (is_seen obs n ≡ false) = ground arith in
    rw (
      set_mount_ne n o.name m ms (text_eq_comm n o.name ∙ apart.0),
      ideal_actions-set_mount k obs ms n m apart.1,
    )

observe_all_actions :
    (k : Tick) (obs : List Observation) (ms : Mounts) (actions : List Action)
    → AreDistinct obs
    → (observe_all k obs ms actions).1 ≡ actions ++ ideal_actions k ms obs
unfolding observe_all ideal_actions
observe_all_actions k [] ms actions d = sym (append-nil actions)
observe_all_actions k (o ∷ obs) ms actions d =
    rw (observe_all_actions k obs _ _ d.1, ideal_actions-set_mount k obs ms o.name _ d.0)
      (append_assoc actions _ _)

-- With distinct names the actions of a tick are those of the rule at each observation and its own
-- entry before the tick, in the order of the observations.
pub decide_actions :
    (st : GuardState) (cpu : ℕ) (obs : List Observation) (now : ℕ) (tun : GuardTuning) (ok : Bool)
    → AreDistinct obs
    → (decide st cpu obs now tun ok).1 ≡ ideal_actions (tick_of st cpu now tun ok) st.mounts obs
unfolding decide
decide_actions st cpu obs now tun ok d =
    observe_all_actions (tick_of st cpu now tun ok) obs st.mounts [] d
