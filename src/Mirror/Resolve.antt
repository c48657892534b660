-- ===== src/Mirror/Resolve.antt =====
-- internal/mirror/mirror.go: the set and the root that a path is under, the case and the run that it
-- names, and its place in the archive. The sets, the glob of the cases, the environment and the functions
-- of `filepath` are arguments. A path is longer in bytes than a prefix of it exactly if it is in code
-- points.
use erdc_hpc_scripts.Base.{
  ℕ, zero, suc, Bool, true, false, not, ◌&&◌, ◌||◌, Option, none, some, List, [], ◌∷◌, ◌++◌, Text,
  codes, text_eq, and_then, ltb, ◌==◌, length, if◌then◌else◌,
}
use mathlib.Core.Option
use erdc_hpc_scripts.Base.GoStrings.{has_prefix, trim_prefix, contains_text, split, join, cut}
use erdc_hpc_scripts.Base.Decimal.{is_digit}
use erdc_hpc_scripts.Render.Editor.{is_empty}
pub mod Longest
pub mod Runs
pub mod Tiers

-- `Set`
pub record MirrorSet : Type 0 where
  pub name : Text
  pub roots : List Text
  pub archive_rel : Text

-- `match`, with the root itself, the length of which is `bestLen`
pub record Match : Type 0 where
  pub set : MirrorSet
  pub root_idx : ℕ
  pub root : Text
  pub rel : Text

-- A path that is a root or lies under it.
unfoldable pub is_under : Text → Text → Bool
unfolding has_prefix text_eq
is_under path r = text_eq path r || has_prefix path (r ++ codes "/")

abbrev pub match_at : Text → MirrorSet → ℕ → Text → Match
match_at path s i r = record {
  set = s;
  root_idx = i;
  root = r;
  rel = trim_prefix (trim_prefix path r) (codes "/");
}

-- `len(r) > bestLen`, where no match has the length -1.
abbrev pub is_longer : Text → Option Match → Bool
is_longer r none = true
is_longer r (some m) = ltb (length m.root) (length r)

-- The loop over the roots of a set, from index `i` on.
unfoldable pub locate_roots : Text → MirrorSet → List Text → ℕ → Option Match → Option Match
unfolding is_under
locate_roots path s [] i best = best
locate_roots path s (r ∷ roots) i best =
    locate_roots path s roots (suc i)
      (if is_under path r && is_longer r best then some (match_at path s i r) else best)

unfoldable pub locate_sets : Text → List MirrorSet → Option Match → Option Match
unfolding locate_roots
locate_sets path [] best = best
locate_sets path (s ∷ sets) best = locate_sets path sets (locate_roots path s s.roots 0 best)

-- `locate`
unfoldable pub locate : List MirrorSet → Text → Option Match
unfolding locate_sets
locate sets path = locate_sets path sets none

-- One digit or more.
unfoldable pub digits_rest : Text → Bool
digits_rest [] = true
digits_rest (c ∷ s) = is_digit c && digits_rest s

abbrev pub are_digits : Text → Bool
are_digits s = not (is_empty s) && digits_rest s

-- `[0-9]+(?:-[0-9]+)?`
abbrev pub is_id_at : Text → Option (Text × Text) → Bool
is_id_at s none = are_digits s
is_id_at s (some (job, index)) = are_digits job && are_digits index

unfoldable pub is_run_id : Text → Bool
unfolding digits_rest cut
is_run_id s = is_id_at s (cut s 45)

-- `runSuffix`, leftmost: what stands before the match, and its group.
unfoldable pub run_suffix : Text → Option (Text × Text)
unfolding is_run_id
run_suffix [] = none
run_suffix (c ∷ s) =
    let rest = Option.map (λ (b, i). (c ∷ b, i)) (run_suffix s) in
    if c == 95 && is_run_id s then some ([], s) else rest

-- `caseRe`: `*` is any run of characters without a slash, `?` is one such character.
unfoldable pub star : (Text → Bool) → Text → Bool
star f [] = f []
star f (c ∷ s) = f (c ∷ s) || (not (c == 47) && star f s)

abbrev pub one_char : (Text → Bool) → (ℕ → Bool) → Text → Bool
one_char f p [] = false
one_char f p (c ∷ s) = p c && f s

unfoldable pub is_case : Text → Text → Bool
unfolding star
is_case [] = is_empty
is_case (g ∷ glob) =
    let rest = is_case glob in
    if g == 42
    then star rest
    else if g == 63
    then one_char rest (λ c. not (c == 47))
    else one_char rest (λ c. c == g)

-- A component, whose name is a case or not.
abbrev pub or_case : Bool → Text → Option (Text × Text)
or_case true comp = some (comp, [])
or_case false comp = none

abbrev pub classify_suffix : Text → Text → Option (Text × Text) → Option (Text × Text)
classify_suffix glob comp none = or_case (is_case glob comp) comp
classify_suffix glob comp (some (base, id)) =
    if is_case glob base then some (base, id) else or_case (is_case glob comp) comp

-- `classify`
unfoldable pub classify : Text → Text → Option (Text × Text)
unfolding is_case run_suffix
classify glob comp = classify_suffix glob comp (run_suffix comp)

-- `pivot`: the components before the first one of a case, that one and those behind it.
pub record Pivot : Type 0 where
  pub before : List Text
  pub base : Text
  pub id : Text
  pub behind : List Text

abbrev pub shift_pivot : Text → Pivot → Pivot
shift_pivot c p = record p { before = c ∷ p.before }

abbrev pub pivot_at : Text → List Text → Option (Text × Text) → Option Pivot → Option Pivot
pivot_at c comps none rest = Option.map (shift_pivot c) rest
pivot_at c comps (some (base, id)) rest =
    some (record { before = []; base = base; id = id; behind = comps })

unfoldable pub pivot : Text → List Text → Option Pivot
unfolding classify
pivot glob [] = none
pivot glob (c ∷ comps) = pivot_at c comps (classify glob c) (pivot glob comps)

-- `splitRel`
abbrev pub split_rel : Text → List Text
split_rel rel = if is_empty rel then [] else split rel 47

unfoldable pub ends_with : Text → Text → Bool
unfolding text_eq
ends_with [] suffix = text_eq [] suffix
ends_with (c ∷ s) suffix = text_eq (c ∷ s) suffix || ends_with s suffix

-- `inProjectTier`
unfoldable pub in_project_tier : Text → Text → Bool
unfolding ends_with contains_text has_prefix text_eq
in_project_tier rel tier =
    text_eq rel tier
    || ends_with rel (codes "/" ++ tier)
    || contains_text rel (codes "/" ++ (tier ++ codes "/"))
    || has_prefix rel (tier ++ codes "/")

-- What `Archive` gives: the errors of its guards, or a path.
pub data ArchiveEnd : Type 0 where
  not_under master_library staged_inputs stray_run : ArchiveEnd
  archived : Text → ArchiveEnd

-- The environment and the configuration that `Archive` reads; `join_path` is `filepath.Join`.
pub record Site : Type 0 where
  pub archive_home : Text
  pub sets : List MirrorSet
  pub data_dir : Text
  pub glob : Text
  pub join_path : List Text → Text

abbrev pub archive_to : Site → Match → Text → ArchiveEnd
archive_to w m rel = archived (w.join_path (w.archive_home ∷ m.set.archive_rel ∷ rel ∷ []))

abbrev pub leaf_of : Text → Text
leaf_of id = if is_empty id then codes "input" else id

-- The components with the case as a container.
abbrev pub contained : Pivot → List Text
contained p = p.before ++ (p.base ++ (codes "/" ++ leaf_of p.id)) ∷ p.behind

unfoldable pub archive_case : Site → Match → Option Pivot → ArchiveEnd
unfolding join
archive_case w m none = archive_to w m m.rel
archive_case w m (some p) =
    if is_empty p.id && not (m.root_idx == 0)
    then staged_inputs
    else if not (is_empty p.id) && not (m.root_idx == 1)
    then stray_run
    else archive_to w m (join (contained p) 47)

unfoldable pub archive_match : Site → Option Match → ArchiveEnd
unfolding archive_case in_project_tier pivot split
archive_match w none = not_under
archive_match w (some m) =
    if ltb (length m.set.roots) 2
    then archive_to w m m.rel
    else if in_project_tier m.rel w.data_dir
    then (if m.root_idx == 0 then master_library else archive_to w m m.rel)
    else archive_case w m (pivot w.glob (split_rel m.rel))

-- `Archive`, of an absolute clean path where an archive is set.
unfoldable pub archive : Site → Text → ArchiveEnd
unfolding archive_match locate
archive w path = archive_match w (locate w.sets path)
