-- ===== src/Mirror/Resolve/Longest.antt =====
-- internal/mirror/mirror.go: `locate` finds the longest root.
use erdc_hpc_scripts.Base.{
  ℕ, suc, ◌+◌, ◌≤◌, ◌≡◌, refl, ap, ◌∙◌, Bool, true, false, ◌&&◌, Option, none, some, List, [], ◌∷◌,
  arith, Text, ltb, length, get_elem?, if◌then◌else◌, inl, inr, Bool-cases, All, All-map,
}
use erdc_hpc_scripts.Mirror.Resolve.{
  MirrorSet, Match, is_under, match_at, is_longer, locate_roots, locate_sets, locate,
}

-- A root that the path is under is no longer than that of the match.
abbrev pub Covers : Text → Option Match → Text → Type 0
Covers path none r = is_under path r ≡ false
Covers path (some m) r = is_under path r ≡ true → length r ≤ length m.root

-- A match is one: the root is the set's at its index, and the path is under it.
abbrev pub IsMatch : Text → Option Match → Type 0
IsMatch path none = Unit
IsMatch path (some m) =
    (is_under path m.root ≡ true) × (get_elem? m.set.roots m.root_idx ≡ some m.root)

-- What the search has at its end covers what it had before.
abbrev Grows : Option Match → Option Match → Type 0
Grows none o = Unit
Grows (some b) none = ⊥
Grows (some b) (some m) = length b.root ≤ length m.root

reach_same : (o : Option Match) → Grows o o
reach_same none = tt
reach_same (some m) = omega arith

reach_through : (a b c : Option Match) → Grows a b → Grows b c → Grows a c
reach_through none b c h k = tt
reach_through (some a) none c h k = absurd h
reach_through (some a) (some b) none h k = absurd k
reach_through (some a) (some b) (some c) h k = omega (arith, h, k)

Covers-Grows : (path r : Text) (a b : Option Match) → Grows a b → Covers path a r → Covers path b r
Covers-Grows path r none none g h = h
Covers-Grows path r none (some b) g h = λ u. absurd cc
Covers-Grows path r (some a) none g h = absurd g
Covers-Grows path r (some a) (some b) g h = λ u. omega (arith, g, h u)

module _ (path : Text) (s : MirrorSet) where
  abbrev step : Text → ℕ → Option Match → Option Match
  step r i best = if is_under path r && is_longer r best then some (match_at path s i r) else best

  step-Grows : (r : Text) (i : ℕ) (best : Option Match) → Grows best (step r i best)
  step-Grows r i none = tt
  step-Grows r i (some b) = elim (Bool-cases (is_under path r && ltb (length b.root) (length r))) [
    | inl e ↦ rw e (ground arith)
    | inr e ↦ rw e (omega arith)
  ]

  step-Covers : (r : Text) (i : ℕ) (best : Option Match) → Covers path (step r i best) r
  step-Covers r i none = elim (Bool-cases (is_under path r)) [
    | inl e ↦ rw e (λ u. omega arith)
    | inr e ↦ rw e e
  ]
  step-Covers r i (some b) = elim (Bool-cases (is_under path r && ltb (length b.root) (length r))) [
    | inl e ↦ rw e (λ u. omega arith)
    | inr e ↦ rw e (λ u. ground arith)
  ]

  step-IsMatch :
      (r : Text) (i : ℕ) (best : Option Match)
      → get_elem? s.roots i ≡ some r
      → IsMatch path best
      → IsMatch path (step r i best)
  step-IsMatch r i best h v = by_test (is_under path r) refl (is_longer r best)
    where
      by_test :
          (u : Bool)
          → is_under path r ≡ u
          → (l : Bool) → IsMatch path (if u && l then some (match_at path s i r) else best)
      by_test true e true = (e, h)
      by_test true e false = v
      by_test false e l = v

  locate_roots-Grows :
      (roots : List Text) (i : ℕ) (best : Option Match)
      → Grows best (locate_roots path s roots i best)
  unfolding locate_roots
  locate_roots-Grows [] i best = reach_same best
  locate_roots-Grows (r ∷ roots) i best =
      reach_through best (step r i best) _ (step-Grows r i best)
        (locate_roots-Grows roots (suc i) (step r i best))

  locate_roots-Covers :
      (roots : List Text) (i : ℕ) (best : Option Match)
      → All (Covers path (locate_roots path s roots i best)) roots
  unfolding locate_roots
  locate_roots-Covers [] i best = tt
  locate_roots-Covers (r ∷ roots) i best = (
    Covers-Grows path r (step r i best) _ (locate_roots-Grows roots (suc i) (step r i best))
        (step-Covers r i best),
    locate_roots-Covers roots (suc i) (step r i best),
  )

  locate_roots-IsMatch :
      (roots : List Text) (i : ℕ) (best : Option Match)
      → ((k : ℕ) → get_elem? s.roots (k + i) ≡ get_elem? roots k)
      → IsMatch path best
      → IsMatch path (locate_roots path s roots i best)
  unfolding locate_roots
  locate_roots-IsMatch [] i best h v = v
  locate_roots-IsMatch (r ∷ roots) i best h v =
      locate_roots-IsMatch roots (suc i) (step r i best)
        (λ k. let e : k + suc i ≡ suc k + i = omega arith in ap (get_elem? s.roots) e ∙ h (suc k))
        (step-IsMatch r i best (let e : i ≡ 0 + i = omega arith in ap (get_elem? s.roots) e ∙ h 0)
          v)

module _ (path : Text) where
  locate_sets-Grows :
      (sets : List MirrorSet) (best : Option Match) → Grows best (locate_sets path sets best)
  unfolding locate_sets
  locate_sets-Grows [] best = reach_same best
  locate_sets-Grows (s ∷ sets) best =
      reach_through best (locate_roots path s s.roots 0 best) _
        (locate_roots-Grows path s s.roots 0 best)
        (locate_sets-Grows sets (locate_roots path s s.roots 0 best))

  locate_sets-Covers :
      (sets : List MirrorSet) (best : Option Match)
      → All (λ s. All (Covers path (locate_sets path sets best)) s.roots) sets
  unfolding locate_sets
  locate_sets-Covers [] best = tt
  locate_sets-Covers (s ∷ sets) best =
      let here = locate_roots path s s.roots 0 best in
      (
        All-map (λ r. Covers-Grows path r here _ (locate_sets-Grows sets here)) s.roots
            (locate_roots-Covers path s s.roots 0 best),
        locate_sets-Covers sets here,
      )

  locate_sets-IsMatch :
      (sets : List MirrorSet) (best : Option Match)
      → IsMatch path best
      → IsMatch path (locate_sets path sets best)
  unfolding locate_sets
  locate_sets-IsMatch [] best v = v
  locate_sets-IsMatch (s ∷ sets) best v =
      locate_sets-IsMatch sets (locate_roots path s s.roots 0 best) (
        locate_roots-IsMatch path s s.roots 0 best
          (λ k. let e : k + 0 ≡ k = omega arith in ap (get_elem? s.roots) e) v)

-- The match of a path is a root of a set that the path is under, with the index of that root, and
-- no root of any set that the path is under is longer; there is none only if it is under no root.
pub locate-IsLongest :
    (sets : List MirrorSet) (path : Text)
    → IsMatch path (locate sets path) × All (λ s. All (Covers path (locate sets path)) s.roots) sets
unfolding locate
locate-IsLongest sets path =
    (locate_sets-IsMatch path sets none tt, locate_sets-Covers path sets none)
