-- ===== src/Examples/SyncPrune.antt =====
-- internal/cli/syncprune.go on a project with one data tier, of which two staged files are gone locally.
use erdc_hpc_scripts.Base.{
  ◌≡◌, refl, true, false, none, some, List, [], ◌∷◌, ◌++◌, Text, text_eq, codes,
}
use mathlib.Core.List.{map}
use mathlib.Core.Option
use erdc_hpc_scripts.Cli.SyncPrune.{
  PruneOpts, World, resolve_prune_tiers, PruneRes, PruneRun, project_sync_prune,
}
use erdc_hpc_scripts.Cli.SyncPrune.Safety.{Holds}
use erdc_hpc_scripts.Cli.SyncPrune.Consent.{IsSafe, project_sync_prune-IsSafe}

abbrev listing : Text
listing = codes "*deleting   old/\n*deleting   old/a.dat\nsent 10 bytes\n*deleting   b.dat"

abbrev world : World
world = record {
  project_root = some (codes "/p");
  abs_path = λ p. some p;
  is_dir = λ p. some (text_eq p (codes "/p/simulations/data"));
  rel_path = λ r p. some (codes "data/raw/x");
  home_rel = λ p. some (codes "p/simulations/data");
  join_path = λ r p. r ++ (codes "/" ++ p);
  resolve = λ n. some n;
  has_ticket = true;
  list_files = λ p. some (codes "c.dat" ∷ []);
  remote_dir = λ t n r p. some (codes "/work/p/simulations/data");
  remote_exists = λ t d. some true;
  dry_output = λ t a d. some listing;
  confirms = true;
  rsync_code = λ t a d. 0;
}

abbrev opts : PruneOpts
opts = record { node = codes "hpc1"; path = []; tier_sel = []; yes = false; dry_run = false }

abbrev deleted : PruneRun → List (List Text)
deleted r = map (λ (p : PruneRes). p.deletes) r.runs

two_files :
    Option.map deleted (project_sync_prune world opts)
    ≡ some ((codes "old/a.dat" ∷ codes "b.dat" ∷ []) ∷ [])
unfolding project_sync_prune text_eq
two_files = refl

dry_run_idle :
    Option.map deleted (project_sync_prune world (record opts { dry_run = true })) ≡ some []
unfolding project_sync_prune text_eq
dry_run_idle = refl

raw_refused :
    resolve_prune_tiers world (codes "/p") (record opts { tier_sel = codes "raw" ∷ [] }) ≡ none
unfolding resolve_prune_tiers text_eq
raw_refused = refl

project_sync_prune-IsSafe_example : Holds (IsSafe world opts) (project_sync_prune world opts)
project_sync_prune-IsSafe_example = project_sync_prune-IsSafe world opts
