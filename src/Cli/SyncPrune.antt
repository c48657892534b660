-- ===== src/Cli/SyncPrune.antt =====
-- internal/cli/syncprune.go, with the tiers of internal/cli/projectsync.go: the deletion of staged files
-- that are gone locally. What the machine and the cluster answer is a record; a call that fails is
-- `none`. The messages are left out.
use erdc_hpc_scripts.Base.{
  ℕ, zero, suc, Bool, true, false, not, ◌&&◌, ◌||◌, Option, none, some, List, [], ◌∷◌, ◌++◌, Text,
  codes, text_eq, and_then, ◌==◌, length, sum, if◌then◌else◌, is_some,
}
use mathlib.Core.List.{map}
use mathlib.Core.Option
use erdc_hpc_scripts.Base.GoStrings.{has_prefix, cut_prefix, cut_last, split, trim_space}
use erdc_hpc_scripts.Render.Form.{contains}
use erdc_hpc_scripts.Render.Editor.{is_empty}
pub mod Safety
pub mod Consent

-- `tierSpec` and `syncTier`
pub record TierSpec : Type 0 where
  pub name : Text
  pub rel : Text
  pub remote_root : Text

pub record SyncTier : Type 0 where
  pub rel : Text
  pub local_abs : Text
  pub remote_root : Text

-- What a prune reads of `projSyncOpts`.
pub record PruneOpts : Type 0 where
  pub node : Text
  pub path : Text
  pub tier_sel : List Text
  pub yes : Bool
  pub dry_run : Bool

-- The answers: of the file system, of `hpc.Resolve`, of the ticket, of ssh and rsync, and of the user.
pub record World : Type 0 where
  pub project_root : Option Text
  pub abs_path : Text → Option Text
  pub is_dir : Text → Option Bool
  pub rel_path : Text → Text → Option Text
  pub home_rel : Text → Option Text
  pub join_path : Text → Text → Text
  pub resolve : Text → Option Text
  pub has_ticket : Bool
  pub list_files : Text → Option (List Text)
  pub remote_dir : Text → Text → Text → Text → Option Text
  pub remote_exists : Text → Text → Option Bool
  pub dry_output : Text → Text → Text → Option Text  -- of `rsync --delete -n`, by target and dirs
  pub confirms : Bool
  pub rsync_code : Text → Text → Text → ℕ

abbrev pub home_root : Text
home_root = codes "$HOME"

abbrev pub sync_tiers : List TierSpec
sync_tiers =
    record { name = codes "sim"; rel = codes "simulations/data"; remote_root = codes "$WORKDIR" }
    ∷ record {
      name = codes "processed";
      rel = codes "data/processed";
      remote_root = codes "$WORKDIR";
    }
    ∷ record { name = codes "raw"; rel = codes "data/raw"; remote_root = home_root }
    ∷ []

abbrev pub default_tiers : List Text
default_tiers = codes "sim" ∷ []

abbrev pub prune_default_tiers : List Text
prune_default_tiers = codes "sim" ∷ codes "processed" ∷ []

abbrev pub or_default : List Text → List Text → List Text
or_default dflt [] = dflt
or_default dflt (s ∷ sel) = s ∷ sel

unfoldable pub wanted : List Text → List TierSpec → List TierSpec
unfolding contains
wanted sel [] = []
wanted sel (t ∷ tiers) =
    let rest = wanted sel tiers in if contains sel t.name then t ∷ rest else rest

abbrev pub name_of : TierSpec → Text
name_of t = t.name

unfoldable pub are_known : List Text → Bool
unfolding contains
are_known [] = true
are_known (s ∷ sel) = contains (map name_of sync_tiers) s && are_known sel

-- `resolveTiers`
unfoldable pub resolve_tiers : List Text → Option (List TierSpec)
unfolding wanted are_known
resolve_tiers sel =
    let sel = or_default default_tiers sel in
    if are_known sel then some (wanted sel sync_tiers) else none

-- The tier that a path within the project lies under.
unfoldable pub tier_of : List TierSpec → Text → Option TierSpec
unfolding has_prefix text_eq
tier_of [] rel = none
tier_of (t ∷ tiers) rel =
    let rest = tier_of tiers rel in
    if text_eq rel t.rel || has_prefix rel (t.rel ++ codes "/") then some t else rest

abbrev pub is_outside : Text → Bool
is_outside rel = text_eq rel (codes "..") || has_prefix rel (codes "../")

abbrev pub sync_tier : Text → TierSpec → Text → SyncTier
sync_tier abs t rel = record { rel = rel; local_abs = abs; remote_root = t.remote_root }

-- The rest of `narrowTier` for a path within the project.
abbrev pub narrow_within : World → Text → Text → Option SyncTier
narrow_within w abs rel =
    if is_outside rel
    then none
    else and_then (tier_of sync_tiers rel) (λ t. Option.map (sync_tier abs t) (w.home_rel abs))

abbrev pub narrow_dir : World → Text → Text → Option SyncTier
narrow_dir w root abs =
    and_then (w.is_dir abs)
      (λ d. if d then and_then (w.rel_path root abs) (narrow_within w abs) else none)

-- `narrowTier`
unfoldable pub narrow_tier : World → Text → Text → Option SyncTier
unfolding tier_of has_prefix text_eq
narrow_tier w root path = and_then (w.abs_path path) (narrow_dir w root)

-- A narrowed tier is refused if it is the raw one.
abbrev pub unless_raw : SyncTier → Option (List SyncTier)
unless_raw t = if text_eq t.remote_root home_root then none else some (t ∷ [])

abbrev pub is_local_dir : Option Bool → Bool
is_local_dir none = false
is_local_dir (some d) = d

abbrev pub onto_tier : Option SyncTier → Option (List SyncTier) → Option (List SyncTier)
onto_tier none rest = none
onto_tier (some t) rest = Option.map (λ ts. t ∷ ts) rest

-- The loop of `resolvePruneTiers`: the tiers that are local directories.
unfoldable pub local_tiers : World → Text → List TierSpec → Option (List SyncTier)
local_tiers w root [] = some []
local_tiers w root (t ∷ specs) =
    let abs = w.join_path root t.rel in
    let rest = local_tiers w root specs in
    if is_local_dir (w.is_dir abs)
    then onto_tier (Option.map (sync_tier abs t) (w.home_rel abs)) rest
    else rest

abbrev pub selected_tiers : World → Text → List Text → Option (List SyncTier)
selected_tiers w root sel =
    if contains sel (codes "raw") then none else and_then (resolve_tiers sel) (local_tiers w root)

-- `resolvePruneTiers`
unfoldable pub resolve_prune_tiers : World → Text → PruneOpts → Option (List SyncTier)
unfolding narrow_tier local_tiers resolve_tiers contains text_eq
resolve_prune_tiers w root o =
    if not (is_empty o.path)
    then (if length o.tier_sel == 0 then and_then (narrow_tier w root o.path) unless_raw else none)
    else selected_tiers w root (or_default prune_default_tiers o.tier_sel)

abbrev pub onto_path : Text → List Text → List Text
onto_path [] dels = dels
onto_path (c ∷ p) dels = if is_some (cut_last 47 (c ∷ p)) then dels else (c ∷ p) ∷ dels

abbrev pub onto_deletion : Option Text → List Text → List Text
onto_deletion none dels = dels
onto_deletion (some rest) dels = onto_path (trim_space rest) dels

unfoldable pub deletions_of : List Text → List Text
unfolding cut_prefix cut_last trim_space
deletions_of [] = []
deletions_of (line ∷ lines) =
    onto_deletion (cut_prefix line (codes "*deleting")) (deletions_of lines)

-- `parseDeletions`; lines are shorter than the scanner's limit of a megabyte.
unfoldable pub parse_deletions : Text → List Text
unfolding deletions_of split
parse_deletions out = deletions_of (split out 10)

-- `pruneRes`
pub record PruneRes : Type 0 where
  pub tier : SyncTier
  pub dest : Text
  pub deletes : List Text

abbrev pub unless_none : SyncTier → Text → List Text → Option PruneRes
unless_none t dest [] = none
unless_none t dest (d ∷ dels) = some (record { tier = t; dest = dest; deletes = d ∷ dels })

-- A round of the loop over the tiers; `some none` is a tier that is skipped.
abbrev pub classify_at : World → Text → SyncTier → Text → Bool → Option (Option PruneRes)
classify_at w target t dest false = some none
classify_at w target t dest true =
    Option.map (λ out. unless_none t dest (parse_deletions out))
      (w.dry_output target t.local_abs dest)

abbrev pub plan_at : World → Text → SyncTier → Text → Option (Option PruneRes)
plan_at w target t dest = and_then (w.remote_exists target dest) (classify_at w target t dest)

abbrev pub plan_files : World → Text → Text → SyncTier → List Text → Option (Option PruneRes)
plan_files w target node t [] = some none
plan_files w target node t (f ∷ files) =
    and_then (w.remote_dir target node t.remote_root t.rel) (plan_at w target t)

unfoldable pub plan_tier : World → Text → Text → SyncTier → Option (Option PruneRes)
unfolding parse_deletions
plan_tier w target node t = and_then (w.list_files t.local_abs) (plan_files w target node t)

abbrev pub onto_plan : Option PruneRes → List PruneRes → List PruneRes
onto_plan none plan = plan
onto_plan (some p) plan = p ∷ plan

unfoldable pub plan_tiers : World → Text → Text → List SyncTier → Option (List PruneRes)
unfolding plan_tier
plan_tiers w target node [] = some []
plan_tiers w target node (t ∷ tiers) =
    let rest = plan_tiers w target node tiers in
    and_then (plan_tier w target node t) (λ p. Option.map (onto_plan p) rest)

-- What a prune did: the runs of `pruneTier`, which delete, the manifests that it trimmed behind them,
-- and whether a run failed.
pub record PruneRun : Type 0 where
  pub runs : List PruneRes
  pub trimmed : List PruneRes
  pub failed : Bool

abbrev pub idle : PruneRun
idle = record { runs = []; trimmed = []; failed = false }

abbrev pub onto_run : PruneRes → PruneRun → PruneRun
onto_run p r = record { runs = p ∷ r.runs; trimmed = p ∷ r.trimmed; failed = r.failed }

unfoldable pub prune_all : World → Text → List PruneRes → PruneRun
prune_all w target [] = idle
prune_all w target (p ∷ plan) =
    let rest = prune_all w target plan in
    if w.rsync_code target p.tier.local_abs p.dest == 0
    then onto_run p rest
    else record { runs = p ∷ []; trimmed = []; failed = true }

abbrev pub count_of : PruneRes → ℕ
count_of p = length p.deletes

-- The end of `projectSyncPrune`, from the plan on.
unfoldable pub carry_out : World → PruneOpts → Text → List PruneRes → PruneRun
unfolding prune_all
carry_out w o target plan =
    if sum (map count_of plan) == 0 || o.dry_run || (not o.yes && not w.confirms)
    then idle
    else prune_all w target plan

abbrev pub prune_on : World → PruneOpts → List SyncTier → Text → Option PruneRun
prune_on w o tiers target =
    if w.has_ticket
    then Option.map (carry_out w o target) (plan_tiers w target o.node tiers)
    else none

abbrev pub prune_tiers : World → PruneOpts → List SyncTier → Option PruneRun
prune_tiers w o [] = some idle
prune_tiers w o (t ∷ tiers) = and_then (w.resolve o.node) (prune_on w o (t ∷ tiers))

-- `projectSyncPrune`; an error before anything is deleted is `none`.
unfoldable pub project_sync_prune : World → PruneOpts → Option PruneRun
unfolding resolve_prune_tiers plan_tiers carry_out
project_sync_prune w o =
    and_then w.project_root (λ root. and_then (resolve_prune_tiers w root o) (prune_tiers w o))
