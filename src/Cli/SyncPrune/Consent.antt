-- ===== src/Cli/SyncPrune/Consent.antt =====
-- internal/cli/syncprune.go: a prune from its options to the deletions and the manifests.
use erdc_hpc_scripts.Base.{
  ◌≡◌, refl, ap, Bool, true, false, not, ◌&&◌, ◌||◌, ◌⊎◌, inl, inr, Option, none, some, List, [],
  ◌∷◌, ◌++◌, Text, and_then, ◌==◌, sum, if◌then◌else◌, All,
}
use mathlib.Core.List.{map}
use mathlib.Core.Option
use erdc_hpc_scripts.Cli.SyncPrune.{
  SyncTier, PruneOpts, World, resolve_prune_tiers, PruneRes, plan_tiers, PruneRun, idle, onto_run,
  prune_all, count_of, carry_out, prune_on, prune_tiers, project_sync_prune,
}
use erdc_hpc_scripts.Cli.SyncPrune.Safety.{
  Holds, and_then-Holds, IsData, IsGrounded, resolve_prune_tiers-IsData, plan_tiers-AreGrounded,
}

abbrev pub succeeds : World → Text → PruneRes → Bool
succeeds w target p = w.rsync_code target p.tier.local_abs p.dest == 0

-- The manifests that were trimmed are those of the runs that succeeded: of all runs, or of all but the
-- last one, which failed.
abbrev pub Follows : World → Text → PruneRun → Type 0
Follows w target r =
    All (λ p. succeeds w target p ≡ true) r.trimmed
    × (((r.failed ≡ false) × (r.runs ≡ r.trimmed))
        ⊎ ((r.failed ≡ true)
            × (p : PruneRes) × (succeeds w target p ≡ false)
            × (r.runs ≡ r.trimmed ++ p ∷ [])))

prune_all-Follows :
    (w : World) (target : Text) (plan : List PruneRes) → Follows w target (prune_all w target plan)
unfolding prune_all
prune_all-Follows w target [] = (tt, inl (refl, refl))
prune_all-Follows w target (p ∷ plan) =
    by_code (succeeds w target p) refl (prune_all w target plan) (prune_all-Follows w target plan)
  where
    by_code :
        (b : Bool)
        → succeeds w target p ≡ b
        → (rest : PruneRun) → Follows w target rest
        → Follows w target
            (if b then onto_run p rest else record { runs = p ∷ []; trimmed = []; failed = true })
    by_code true e rest (h, inl (f, same)) = ((e, h), inl (f, ap (λ ps. p ∷ ps) same))
    by_code true e rest (h, inr (f, q, k, same)) = ((e, h), inr (f, q, k, ap (λ ps. p ∷ ps) same))
    by_code false e rest h = (tt, inr (refl, p, e, refl))

prune_all-All :
    (P : PruneRes → Type 0) (w : World) (target : Text) (plan : List PruneRes)
    → All P plan
    → All P (prune_all w target plan).runs
unfolding prune_all
prune_all-All P w target [] h = tt
prune_all-All P w target (p ∷ plan) (h, hs) =
    by_code (succeeds w target p) (prune_all w target plan) (prune_all-All P w target plan hs)
  where
    by_code :
        (b : Bool) (rest : PruneRun)
        → All P rest.runs
        → All P
            (if b
              then onto_run p rest
              else record { runs = p ∷ []; trimmed = []; failed = true }).runs
    by_code true rest ih = (h, ih)
    by_code false rest ih = (h, tt)

-- Nothing is deleted but on these grounds: every deletion is grounded, none happens in a dry run or
-- without a yes, and the manifests follow the deletions.
pub record IsSafe (w : World) (o : PruneOpts) (r : PruneRun) : Type 0 where
  pub target : Text
  pub grounded : All (IsGrounded w o.node target) r.runs
  pub consent : (r.runs ≡ []) ⊎ ((o.dry_run ≡ false) × ((o.yes || w.confirms) ≡ true))
  pub follows : Follows w target r

carry_out-IsSafe :
    (w : World) (o : PruneOpts) (target : Text) (plan : List PruneRes)
    → All (IsGrounded w o.node target) plan
    → IsSafe w o (carry_out w o target plan)
unfolding carry_out
carry_out-IsSafe w o target plan g =
    by_flags (sum (map count_of plan) == 0) o.dry_run refl o.yes refl w.confirms refl
  where
    nothing : IsSafe w o idle
    nothing = record {
      target = target;
      grounded = tt;
      consent = inl refl;
      follows = (tt, inl (refl, refl));
    }

    by_flags :
        (n d : Bool)
        → o.dry_run ≡ d
        → (y : Bool) → o.yes ≡ y
        → (c : Bool) → w.confirms ≡ c
        → IsSafe w o (if n || d || (not y && not c) then idle else prune_all w target plan)
    by_flags true d e y ey c ec = nothing
    by_flags false true e y ey c ec = nothing
    by_flags false false e false ey false ec = nothing
    by_flags false false e false ey true ec = record {
      target = target;
      grounded = prune_all-All (IsGrounded w o.node target) w target plan g;
      consent = inr (e, rw (ey, ec) refl);
      follows = prune_all-Follows w target plan;
    }
    by_flags false false e true ey c ec = record {
      target = target;
      grounded = prune_all-All (IsGrounded w o.node target) w target plan g;
      consent = inr (e, rw ey refl);
      follows = prune_all-Follows w target plan;
    }

prune_tiers-IsSafe :
    (w : World) (o : PruneOpts) (tiers : List SyncTier)
    → All IsData tiers
    → Holds (IsSafe w o) (prune_tiers w o tiers)
prune_tiers-IsSafe w o [] h = record {
  target = [];
  grounded = tt;
  consent = inl refl;
  follows = (tt, inl (refl, refl));
}
prune_tiers-IsSafe w o (t ∷ tiers) h =
    and_then-Holds (IsSafe w o) (w.resolve o.node) (prune_on w o (t ∷ tiers))
      (λ target e. on target)
  where
    on : (target : Text) → Holds (IsSafe w o) (prune_on w o (t ∷ tiers) target)
    on target =
        by_ticket w.has_ticket (plan_tiers w target o.node (t ∷ tiers))
          (plan_tiers-AreGrounded w o.node target (t ∷ tiers) h)
      where
        by_ticket :
            (b : Bool) (plan : Option (List PruneRes))
            → Holds (All (IsGrounded w o.node target)) plan
            → Holds (IsSafe w o) (if b then Option.map (carry_out w o target) plan else none)
        by_ticket false plan g = tt
        by_ticket true none g = tt
        by_ticket true (some plan) g = carry_out-IsSafe w o target plan g

-- A prune, whatever the machine, the cluster and the user answer, deletes only on these grounds:
-- the tier is not the one of acquired data and has a local file, its remote directory exists, and
-- a dry run of rsync on the same two directories listed what goes; it is no dry run, and the user
-- said yes. A manifest is trimmed only behind a run that succeeded, and the first run that fails
-- is the last.
pub project_sync_prune-IsSafe :
    (w : World) (o : PruneOpts) → Holds (IsSafe w o) (project_sync_prune w o)
unfolding project_sync_prune
project_sync_prune-IsSafe w o =
    and_then-Holds (IsSafe w o) w.project_root
      (λ root. and_then (resolve_prune_tiers w root o) (prune_tiers w o)) (λ root e. from root)
  where
    from :
        (root : Text)
        → Holds (IsSafe w o) (and_then (resolve_prune_tiers w root o) (prune_tiers w o))
    from root = by_tiers (resolve_prune_tiers w root o) (resolve_prune_tiers-IsData w root o)
      where
        by_tiers :
            (ts : Option (List SyncTier))
            → Holds (All IsData) ts
            → Holds (IsSafe w o) (and_then ts (prune_tiers w o))
        by_tiers none h = tt
        by_tiers (some ts) h = prune_tiers-IsSafe w o ts h
