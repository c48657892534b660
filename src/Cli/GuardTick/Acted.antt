-- ===== src/Cli/GuardTick/Acted.antt =====
-- internal/cli/sshfs_guard.go, `runGuardTick`: the loop over the actions against its effect on one
-- entry at a time.
use erdc_hpc_scripts.Base.{
  ℕ, ◌≡◌, refl, sym, Bool, true, false, Option, none, some, List, [], ◌∷◌, ◌++◌, arith, Text,
  text_eq, if◌then◌else◌, All, All-map, inl, inr, Bool-cases, ap, ◌∙◌, subst, text_eq_sound,
  Option-cases,
}
use mathlib.Core.Option
use erdc_hpc_scripts.Sshfs.Guard.{
  GuardMount, Observation, Action, Op, park, idle, remount, bench, Mounts, set_mount, is_seen, Tick,
  observe, entry,
}
use erdc_hpc_scripts.Sshfs.Guard.Actions.{observe-IsAbout}
use erdc_hpc_scripts.Sshfs.Guard.Pointwise.{AreDistinct, find_obs, ideal_actions}
use erdc_hpc_scripts.Cli.GuardTick.{Machine, poke, act_op, act_all, unpark, restamp, failing}

-- What carrying out an action leaves of the entry of its mount.
abbrev pub acted_op : Machine → Op → Text → GuardMount → GuardMount
acted_op w park n m = if w.umount (w.mount_dir n) then m else unpark m
acted_op w idle n m = if w.umount (w.mount_dir n) then m else unpark m
acted_op w remount n m = if w.run_mount n then m else restamp w.now m
acted_op w bench n m = m

-- What the actions leave of the entry of one name.
unfoldable pub acted : Machine → List Action → Text → GuardMount → GuardMount
acted w [] n m = m
acted w (a ∷ actions) n m =
    acted w actions n (if text_eq a.name n then acted_op w a.op a.name m else m)

map-id {ℓ} : {A : Type ℓ} (x : Option A) → Option.map (λ a. a) x ≡ x
map-id none = refl
map-id (some a) = refl

set_mount-map :
    (n j : Text) (f : GuardMount → GuardMount) (m : GuardMount) (ms : Mounts)
    → ms n ≡ some m
    → set_mount n (f m) ms j ≡ Option.map (λ m. if text_eq n j then f m else m) (ms j)
unfolding set_mount
set_mount-map n j f m ms h = elim (Bool-cases (text_eq n j)) [
  | inl e ↦ let q : ms j ≡ some m = subst (λ i. ms i ≡ some m) (text_eq_sound n j e) h in rw (e, q)
  | inr e ↦ rw e (sym (map-id (ms j)))
]

poke-map :
    (n j : Text) (f : GuardMount → GuardMount) (ms ms' : Mounts)
    → poke n f ms ≡ some ms'
    → ms' j ≡ Option.map (λ m. if text_eq n j then f m else m) (ms j)
unfolding poke
poke-map n j f ms ms' h = elim (Option-cases (ms n)) [
  | inl e ↦ absurd (ground arith)
  | inr (m, e) ↦
      let same : ms' ≡ set_mount n (f m) ms = ground arith in
      rw (← set_mount-map n j f m ms e) (ap (λ (g : Mounts). g j) same)
]

if-same {ℓ} : {A : Type ℓ} (b : Bool) (x : A) → (if b then x else x) ≡ x
if-same true x = refl
if-same false x = refl

-- One action changes the entry of its own mount by its rule, and no other.
branch-map :
    (u : Bool) (n j : Text) (f : GuardMount → GuardMount) (ms ms' : Mounts) (rc rc' : ℕ)
    → if◌then◌else◌ {A = Option (Mounts × ℕ)} u (some (ms, rc)) (failing (poke n f ms))
      ≡ some (ms', rc')
    → ms' j ≡ Option.map (λ m. if text_eq n j then (if u then m else f m) else m) (ms j)
branch-map true n j f ms ms' rc rc' h =
    let same : ms' ≡ ms = ground arith in rw same (simp if-same (sym (map-id (ms j))))
branch-map false n j f ms ms' rc rc' h = poke-map n j f ms ms' (poked (poke n f ms) h)
  where
    poked : (r : Option Mounts) → failing r ≡ some (ms', rc') → r ≡ some ms'
    poked none e = cc
    poked (some x) e = ground arith

act_op-map :
    (w : Machine) (op : Op) (n j : Text) (ms ms' : Mounts) (rc rc' : ℕ)
    → act_op w op n ms rc ≡ some (ms', rc')
    → ms' j ≡ Option.map (λ m. if text_eq n j then acted_op w op n m else m) (ms j)
unfolding act_op
act_op-map w park n j ms ms' rc rc' h = branch-map _ n j unpark ms ms' rc rc' h
act_op-map w idle n j ms ms' rc rc' h = branch-map _ n j unpark ms ms' rc rc' h
act_op-map w remount n j ms ms' rc rc' h = branch-map _ n j (restamp w.now) ms ms' rc rc' h
act_op-map w bench n j ms ms' rc rc' h = branch-map true n j unpark ms ms' rc rc' h

map-map :
    (f g : GuardMount → GuardMount) (x : Option GuardMount)
    → Option.map f (Option.map g x) ≡ Option.map (λ m. f (g m)) x
map-map f g none = refl
map-map f g (some m) = refl

pub act_all-map :
    (w : Machine) (actions : List Action) (j : Text) (ms ms' : Mounts) (rc rc' : ℕ)
    → act_all w actions ms rc ≡ some (ms', rc')
    → ms' j ≡ Option.map (acted w actions j) (ms j)
unfolding act_all acted
act_all-map w [] j ms ms' rc rc' h =
    let same : ms' ≡ ms = ground arith in rw same (sym (map-id (ms j)))
act_all-map w (a ∷ actions) j ms ms' rc rc' h =
    rest (act_op w a.op a.name ms rc) refl h (act_all-map w actions j)
  where
    rest :
        (r : Option (Mounts × ℕ))
        → act_op w a.op a.name ms rc ≡ r
        → (let next : Option (Mounts × ℕ) = elim r [
          | none ↦ none
          | some (ms₁, rc₁) ↦ act_all w actions ms₁ rc₁
        ] in
            next)
          ≡ some (ms', rc')
        → ((ms₁ ms₂ : Mounts) (rc₁ rc₂ : ℕ)
            → act_all w actions ms₁ rc₁ ≡ some (ms₂, rc₂)
            → ms₂ j ≡ Option.map (acted w actions j) (ms₁ j))
        → ms' j
          ≡ Option.map
              (λ m. acted w actions j (if text_eq a.name j then acted_op w a.op a.name m else m))
              (ms j)
    rest none e q ih = cc
    rest (some (ms₁, rc₁)) e q ih =
        ih ms₁ ms' rc₁ rc' q
        ∙ ap (Option.map (acted w actions j)) (act_op-map w a.op a.name j ms ms₁ rc rc₁ e)
        ∙ map-map _ _ (ms j)

-- The actions about one mount, out of those of a tick.
acted-append :
    (w : Machine) (xs ys : List Action) (n : Text) (m : GuardMount)
    → acted w (xs ++ ys) n m ≡ acted w ys n (acted w xs n m)
unfolding acted
acted-append w [] ys n m = refl
acted-append w (a ∷ xs) ys n m = acted-append w xs ys n _

acted_ne :
    (w : Machine) (actions : List Action) (n : Text) (m : GuardMount)
    → All (λ a. text_eq a.name n ≡ false) actions
    → acted w actions n m ≡ m
unfolding acted
acted_ne w [] n m h = refl
acted_ne w (a ∷ actions) n m (h, hs) = rw h (acted_ne w actions n m hs)

observe_names :
    (k : Tick) (o : Observation) (m : GuardMount) (n : Text)
    → text_eq o.name n ≡ false
    → All (λ a. text_eq a.name n ≡ false) (observe k o m).1
observe_names k o m n h =
    All-map (λ a about. subst (λ s. text_eq s n ≡ false) about.0 h) (observe k o m).1
      (observe-IsAbout k o m)

ideal_actions_unseen :
    (w : Machine) (k : Tick) (ms : Mounts) (obs : List Observation) (n : Text) (m : GuardMount)
    → is_seen obs n ≡ false
    → acted w (ideal_actions k ms obs) n m ≡ m
unfolding ideal_actions is_seen
ideal_actions_unseen w k ms [] n m h = unfold acted in refl
ideal_actions_unseen w k ms (o ∷ obs) n m h =
    let apart : (text_eq o.name n ≡ false) × (is_seen obs n ≡ false) = ground arith in
    acted-append w (observe k o (entry (ms o.name))).1 _ n m
    ∙ ideal_actions_unseen w k ms obs n _ apart.1
    ∙ acted_ne w _ n m (observe_names k o _ n apart.0)

-- With distinct names only the actions of a mount's own observation reach its entry.
pub acted-ideal_actions :
    (w : Machine) (k : Tick) (ms : Mounts) (obs : List Observation) (o : Observation) (n : Text)
    (m : GuardMount)
    → AreDistinct obs
    → find_obs obs n ≡ some o
    → acted w (ideal_actions k ms obs) n m ≡ acted w (observe k o (entry (ms n))).1 n m
unfolding ideal_actions find_obs
acted-ideal_actions w k ms [] o n m d h = cc
acted-ideal_actions w k ms (p ∷ obs) o n m d h = elim (Bool-cases (text_eq p.name n)) [
  | inl e ↦
      let name : p.name ≡ n = text_eq_sound p.name n e in
      let same : p ≡ o = ground arith in
      acted-append w (observe k p (entry (ms p.name))).1 _ n m
      ∙ ideal_actions_unseen w k ms obs n _ (subst (λ s. is_seen obs s ≡ false) name d.0)
      ∙ (λ i. acted w (observe k (same i) (entry (ms (name i)))).1 n m)
  | inr e ↦
      acted-append w (observe k p (entry (ms p.name))).1 _ n m
      ∙ acted-ideal_actions w k ms obs o n _ d.1 (ground arith)
      ∙ ap (acted w (observe k o (entry (ms n))).1 n) (acted_ne w _ n m (observe_names k p _ n e))
]
