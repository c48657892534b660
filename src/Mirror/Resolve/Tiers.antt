-- ===== src/Mirror/Resolve/Tiers.antt =====
-- internal/mirror/mirror.go: the tiers that `Archive` takes its classes of data from.
use erdc_hpc_scripts.Base.{
  ◌≡◌, refl, Bool, true, false, not, ◌&&◌, ◌⊎◌, inl, inr, Option, none, some, Text, ltb, ◌==◌,
  ==_iff, length, if◌then◌else◌,
}
use erdc_hpc_scripts.Base.GoStrings.{join}
use erdc_hpc_scripts.Render.Editor.{is_empty}
use erdc_hpc_scripts.Mirror.Resolve.{
  Match, locate, Pivot, pivot, split_rel, in_project_tier, master_library, staged_inputs, stray_run,
  archived, Site, archive_to, contained, archive_case, archive_match, archive,
}

-- The inputs of a case come from the first root, and a run from the second.
abbrev pub OfCase : Match → Option Pivot → Type 0
OfCase m none = Unit
OfCase m (some p) =
    (is_empty p.id ≡ true → m.root_idx ≡ 0) × (is_empty p.id ≡ false → m.root_idx ≡ 1)

-- A set of one root has no tiers. Otherwise shared data come from another root than the first, and
-- what is not shared data from the root of its class.
abbrev pub IsAuthorised : Site → Match → Type 0
IsAuthorised w m =
    (ltb (length m.set.roots) 2 ≡ true)
    ⊎ (((in_project_tier m.rel w.data_dir ≡ true) × ((m.root_idx == 0) ≡ false))
        ⊎ ((in_project_tier m.rel w.data_dir ≡ false) × OfCase m (pivot w.glob (split_rel m.rel))))

archive_case-OfCase :
    (w : Site) (m : Match) (p : Option Pivot) (t : Text)
    → archive_case w m p ≡ archived t
    → OfCase m p
unfolding archive_case
archive_case-OfCase w m none t h = tt
archive_case-OfCase w m (some p) t h =
    by_tier (is_empty p.id) (m.root_idx == 0) refl (m.root_idx == 1) refl h
  where
    by_tier :
        (e z : Bool)
        → (m.root_idx == 0) ≡ z
        → (o : Bool) → (m.root_idx == 1) ≡ o
        → (if e && not z
            then staged_inputs
            else if not e && not o
            then stray_run
            else archive_to w m (join (contained p) 47))
          ≡ archived t
        → (e ≡ true → m.root_idx ≡ 0) × (e ≡ false → m.root_idx ≡ 1)
    by_tier true true z o e h = ((λ k. (==_iff m.root_idx 0).0 z), (λ k. absurd cc))
    by_tier true false z o e h = absurd cc
    by_tier false a z true e h = ((λ k. absurd cc), (λ k. (==_iff m.root_idx 1).0 e))
    by_tier false a z false e h = absurd cc

-- What is archived comes from its tier: a path that Archive maps lies under a root, and unless
-- its set has a single root, it is shared data of another root than the first, the inputs of a
-- case under the first root, a run under the second, or nothing of a case.
pub archive-IsAuthorised :
    (w : Site) (path t : Text)
    → archive w path ≡ archived t
    → (m : Match) × (locate w.sets path ≡ some m) × IsAuthorised w m
unfolding archive archive_match
archive-IsAuthorised w path t h = by_match (locate w.sets path) refl h
  where
    by_class :
        (m : Match) (one : Bool)
        → ltb (length m.set.roots) 2 ≡ one
        → (d : Bool) → in_project_tier m.rel w.data_dir ≡ d
        → (z : Bool) → (m.root_idx == 0) ≡ z
        → (if one
            then archive_to w m m.rel
            else if d
            then (if z then master_library else archive_to w m m.rel)
            else archive_case w m (pivot w.glob (split_rel m.rel)))
          ≡ archived t
        → IsAuthorised w m
    by_class m true e d k z i h = inl e
    by_class m false e true k true i h = absurd cc
    by_class m false e true k false i h = inr (inl (k, i))
    by_class m false e false k z i h =
        inr (inr (k, archive_case-OfCase w m (pivot w.glob (split_rel m.rel)) t h))

    by_match :
        (o : Option Match)
        → locate w.sets path ≡ o
        → archive_match w o ≡ archived t
        → (m : Match) × (locate w.sets path ≡ some m) × IsAuthorised w m
    by_match none e h = absurd cc
    by_match (some m) e h = (
      m,
      e,
      by_class m (ltb (length m.set.roots) 2) refl (in_project_tier m.rel w.data_dir) refl
          (m.root_idx == 0) refl h,
    )
