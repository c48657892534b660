-- ===== src/Cli/SyncPrune/Safety.antt =====
-- internal/cli/syncprune.go: what a prune deletes, and on what grounds.
use erdc_hpc_scripts.Base.{
  ◌≡◌, refl, Bool, true, false, not, inl, inr, Bool-cases, Option, none, some, List, [], ◌∷◌, Text,
  codes, text_eq, and_then, ◌==◌, length, if◌then◌else◌, All,
}
use mathlib.Core.Option
use erdc_hpc_scripts.Render.Form.{contains}
use erdc_hpc_scripts.Render.Editor.{is_empty}
use erdc_hpc_scripts.Cli.SyncPrune.{
  TierSpec, SyncTier, PruneOpts, World, home_root, sync_tiers, or_default, default_tiers,
  prune_default_tiers, wanted, are_known, resolve_tiers, narrow_tier, unless_raw, is_local_dir,
  sync_tier, onto_tier, local_tiers, selected_tiers, resolve_prune_tiers, parse_deletions, PruneRes,
  unless_none, classify_at, plan_at, plan_files, plan_tier, onto_plan, plan_tiers,
}

-- What holds of a result, if there is one.
abbrev pub Holds {ℓ} : {A : Type ℓ} → (A → Type 0) → Option A → Type 0
Holds P none = Unit
Holds P (some a) = P a

pub and_then-Holds {ℓ κ} :
    {A : Type ℓ} {B : Type κ} (P : B → Type 0) (o : Option A) (f : A → Option B)
    → ((a : A) → o ≡ some a → Holds P (f a))
    → Holds P (and_then o f)
and_then-Holds P none f h = tt
and_then-Holds P (some a) f h = h a refl

pub map-Holds {ℓ κ} :
    {A : Type ℓ} {B : Type κ} (P : B → Type 0) (f : A → B) (o : Option A)
    → ((a : A) → o ≡ some a → P (f a))
    → Holds P (Option.map f o)
map-Holds P f none h = tt
map-Holds P f (some a) h = h a refl

-- A tier that is not the one of acquired data.
abbrev pub IsData : SyncTier → Type 0
IsData t = text_eq t.remote_root home_root ≡ false

abbrev IsDataSpec : TierSpec → Type 0
IsDataSpec t = text_eq t.remote_root home_root ≡ false

wanted-All :
    (P : TierSpec → Type 0) (sel : List Text) (tiers : List TierSpec)
    → All (λ t. contains sel t.name ≡ true → P t) tiers
    → All P (wanted sel tiers)
unfolding wanted
wanted-All P sel [] h = tt
wanted-All P sel (t ∷ tiers) (h, hs) = elim (Bool-cases (contains sel t.name)) [
  | inl b ↦ rw b (h b, wanted-All P sel tiers hs)
  | inr b ↦ rw b (wanted-All P sel tiers hs)
]

wanted-IsDataSpec :
    (sel : List Text) → contains sel (codes "raw") ≡ false → All IsDataSpec (wanted sel sync_tiers)
unfolding text_eq
wanted-IsDataSpec sel h =
    wanted-All IsDataSpec sel sync_tiers ((λ b. refl), ((λ b. refl), ((λ b. absurd cc), tt)))

resolve_tiers-IsDataSpec :
    (sel : List Text)
    → contains sel (codes "raw") ≡ false
    → Holds (All IsDataSpec) (resolve_tiers sel)
unfolding resolve_tiers contains text_eq
resolve_tiers-IsDataSpec [] h = wanted-IsDataSpec default_tiers refl
resolve_tiers-IsDataSpec (s ∷ sel) h = elim (Bool-cases (are_known (s ∷ sel))) [
  | inl b ↦ rw b (wanted-IsDataSpec (s ∷ sel) h)
  | inr b ↦ rw b tt
]

local_tiers-IsData :
    (w : World) (root : Text) (specs : List TierSpec)
    → All IsDataSpec specs
    → Holds (All IsData) (local_tiers w root specs)
unfolding local_tiers
local_tiers-IsData w root [] h = tt
local_tiers-IsData w root (t ∷ specs) (h, hs) =
    by_dir (is_local_dir (w.is_dir abs)) (w.home_rel abs) (local_tiers w root specs)
      (local_tiers-IsData w root specs hs)
  where
    abs : Text
    abs = w.join_path root t.rel

    by_dir :
        (d : Bool) (rel : Option Text) (rest : Option (List SyncTier))
        → Holds (All IsData) rest
        → Holds (All IsData) (if d then onto_tier (Option.map (sync_tier abs t) rel) rest else rest)
    by_dir false rel rest ih = ih
    by_dir true none rest ih = tt
    by_dir true (some rel) none ih = tt
    by_dir true (some rel) (some ts) ih = (h, ih)

pub resolve_prune_tiers-IsData :
    (w : World) (root : Text) (o : PruneOpts) → Holds (All IsData) (resolve_prune_tiers w root o)
unfolding resolve_prune_tiers
resolve_prune_tiers-IsData w root o =
    by_path (not (is_empty o.path)) (length o.tier_sel == 0)
      (or_default prune_default_tiers o.tier_sel)
  where
    narrowed : (t : SyncTier) → Holds (All IsData) (unless_raw t)
    narrowed t = elim (Bool-cases (text_eq t.remote_root home_root)) [
      | inl b ↦ rw b tt
      | inr b ↦ rw b (b, tt)
    ]

    selected : (sel : List Text) → Holds (All IsData) (selected_tiers w root sel)
    selected sel = elim (Bool-cases (contains sel (codes "raw"))) [
      | inl b ↦ rw b tt
      | inr b ↦ rw b (all_data (resolve_tiers sel) (resolve_tiers-IsDataSpec sel b))
    ]
      where
        all_data :
            (specs : Option (List TierSpec))
            → Holds (All IsDataSpec) specs
            → Holds (All IsData) (and_then specs (local_tiers w root))
        all_data none h = tt
        all_data (some specs) h = local_tiers-IsData w root specs h

    by_path :
        (p e : Bool) (sel : List Text)
        → Holds (All IsData) (
            if p
            then (if e then and_then (narrow_tier w root o.path) unless_raw else none)
            else selected_tiers w root sel)
    by_path true true sel =
        and_then-Holds (All IsData) (narrow_tier w root o.path) unless_raw (λ t e. narrowed t)
    by_path true false sel = tt
    by_path false e sel = selected sel

-- A deletion that has its grounds: the tier is not the one of acquired data and has a local file, the
-- remote directory is its own and exists, and a dry run of rsync listed what is deleted.
pub record IsGrounded (w : World) (node : Text) (target : Text) (p : PruneRes) : Type 0 where
  pub tier : IsData p.tier
  pub file : Text
  pub files : List Text
  pub has_files : w.list_files p.tier.local_abs ≡ some (file ∷ files)
  pub its_own : w.remote_dir target node p.tier.remote_root p.tier.rel ≡ some p.dest
  pub exists : w.remote_exists target p.dest ≡ some true
  pub out : Text
  pub dry_run : w.dry_output target p.tier.local_abs p.dest ≡ some out
  pub listed : p.deletes ≡ parse_deletions out

module _ (w : World) (node target : Text) where
  plan_tier-IsGrounded :
      (t : SyncTier)
      → IsData t
      → Holds (Holds (IsGrounded w node target)) (plan_tier w target node t)
  unfolding plan_tier
  plan_tier-IsGrounded t d =
      and_then-Holds (Holds (IsGrounded w node target)) (w.list_files t.local_abs)
        (plan_files w target node t) by_files
    where
      by_output :
          (f : Text) (fs : List Text) (dest out : Text)
          → w.list_files t.local_abs ≡ some (f ∷ fs)
          → w.remote_dir target node t.remote_root t.rel ≡ some dest
          → w.remote_exists target dest ≡ some true
          → w.dry_output target t.local_abs dest ≡ some out
          → (dels : List Text) → parse_deletions out ≡ dels
          → Holds (IsGrounded w node target) (unless_none t dest dels)
      by_output f fs dest out h k x o [] e = tt
      by_output f fs dest out h k x o (l ∷ dels) e = record {
        tier = d;
        file = f;
        files = fs;
        has_files = h;
        its_own = k;
        exists = x;
        out = out;
        dry_run = o;
        listed = rw e refl;
      }

      by_there :
          (f : Text) (fs : List Text) (dest : Text)
          → w.list_files t.local_abs ≡ some (f ∷ fs)
          → w.remote_dir target node t.remote_root t.rel ≡ some dest
          → (b : Bool) → w.remote_exists target dest ≡ some b
          → Holds (Holds (IsGrounded w node target)) (classify_at w target t dest b)
      by_there f fs dest h k false x = tt
      by_there f fs dest h k true x =
          map-Holds (Holds (IsGrounded w node target))
            (λ out. unless_none t dest (parse_deletions out)) (w.dry_output target t.local_abs dest)
            (λ out o. by_output f fs dest out h k x o (parse_deletions out) refl)

      by_files :
          (files : List Text)
          → w.list_files t.local_abs ≡ some files
          → Holds (Holds (IsGrounded w node target)) (plan_files w target node t files)
      by_files [] h = tt
      by_files (f ∷ fs) h =
          and_then-Holds (Holds (IsGrounded w node target))
            (w.remote_dir target node t.remote_root t.rel) (plan_at w target t)
            (λ dest k.
              and_then-Holds (Holds (IsGrounded w node target)) (w.remote_exists target dest)
                (classify_at w target t dest) (λ b x. by_there f fs dest h k b x))

  pub plan_tiers-AreGrounded :
      (tiers : List SyncTier)
      → All IsData tiers
      → Holds (All (IsGrounded w node target)) (plan_tiers w target node tiers)
  unfolding plan_tiers
  plan_tiers-AreGrounded [] h = tt
  plan_tiers-AreGrounded (t ∷ tiers) (h, hs) =
      join (plan_tier w target node t) (plan_tiers w target node tiers) (plan_tier-IsGrounded t h)
        (plan_tiers-AreGrounded tiers hs)
    where
      join :
          (p : Option (Option PruneRes)) (rest : Option (List PruneRes))
          → Holds (Holds (IsGrounded w node target)) p
          → Holds (All (IsGrounded w node target)) rest
          → Holds (All (IsGrounded w node target)) (and_then p (λ q. Option.map (onto_plan q) rest))
      join none rest g gs = tt
      join (some p) none g gs = tt
      join (some none) (some plan) g gs = gs
      join (some (some p)) (some plan) g gs = (g, gs)
