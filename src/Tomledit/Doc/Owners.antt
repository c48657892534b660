-- ===== src/Tomledit/Doc/Owners.antt =====
-- internal/tomledit/tomledit.go, `Owner`: the nearest table above with the parent path.
use erdc_hpc_scripts.Base.{
  ℕ, zero, suc, ◌≤◌, ◌<◌, ◌≡◌, refl, sym, ap, subst, true, Option, none, some, List, [], ◌∷◌, arith,
  Text, text_eq, text_eq_sound, if◌then◌else◌, get_elem?, Bool-cases, inl, inr, dec_lt,
}
use erdc_hpc_scripts.Tomledit.Doc.{Table, Doc, owner_before, owner, parent_of}

-- The table at an index has a path.
abbrev pub HasPath : Option Table → Text → Type 0
HasPath none want = ⊥
HasPath (some t) want = t.path ≡ want

-- No table from `lo` up to before `hi` has the path.
abbrev pub NoneHas : List Table → Text → ℕ → ℕ → Type 0
NoneHas ts want lo hi = (j : ℕ) → lo ≤ j → j < hi → HasPath (get_elem? ts j) want → ⊥

-- The nearest table before `c` with the path, or that there is none.
abbrev pub IsNearest : List Table → Text → ℕ → Option ℕ → Type 0
IsNearest ts want c none = NoneHas ts want 0 c
IsNearest ts want c (some j) = (j < c) × HasPath (get_elem? ts j) want × NoneHas ts want (suc j) c

NoneHas-suc :
    (ts : List Table) (want : Text) (lo hi : ℕ)
    → (HasPath (get_elem? ts hi) want → ⊥)
    → NoneHas ts want lo hi
    → NoneHas ts want lo (suc hi)
NoneHas-suc ts want lo hi n h j l u p = elim (dec_lt j hi) [
  | yes below ↦ h j l below p
  | no last ↦
      let same : j ≡ hi = omega arith in n (subst (λ k. HasPath (get_elem? ts k) want) same p)
]

text_eq_refl : (s : Text) → text_eq s s ≡ true
unfolding text_eq
text_eq_refl [] = refl
text_eq_refl (c ∷ s) = ground (arith, text_eq_refl s)

owner_before-IsNearest :
    (ts : List Table) (want : Text) (c : ℕ) → IsNearest ts want c (owner_before ts want c)
unfolding owner_before
owner_before-IsNearest ts want zero = λ j l u. absurd (omega arith)
owner_before-IsNearest ts want (suc c) =
    by_table (get_elem? ts c) refl (owner_before ts want c) (owner_before-IsNearest ts want c)
  where
    further :
        (HasPath (get_elem? ts c) want → ⊥)
        → (o : Option ℕ) → IsNearest ts want c o
        → IsNearest ts want (suc c) o
    further n none h = NoneHas-suc ts want 0 c n h
    further n (some j) (l, p, h) = (omega arith, p, NoneHas-suc ts want (suc j) c n h)

    here : HasPath (get_elem? ts c) want → IsNearest ts want (suc c) (some c)
    here p = (omega arith, p, (λ j l u q. absurd (omega arith)))

    by_table :
        (t? : Option Table)
        → get_elem? ts c ≡ t?
        → (o : Option ℕ) → IsNearest ts want c o
        → (let next : Option ℕ = elim t? [
          | none ↦ o
          | some t ↦ if text_eq t.path want then some c else o
        ] in
            IsNearest ts want (suc c) next)
    by_table none e o h = further (λ p. subst (λ x. HasPath x want) e p) o h
    by_table (some t) e o h = elim (Bool-cases (text_eq t.path want)) [
      | inl same ↦
          rw same (here (subst (λ x. HasPath x want) (sym e) (text_eq_sound t.path want same)))
      | inr other ↦ rw other (
          further
            (λ p.
              let q : t.path ≡ want = subst (λ x. HasPath x want) e p in
              let r : text_eq t.path want ≡ true = rw q (text_eq_refl want) in cc)
            o h)
    ]

-- The owner of a table whose path has a parent is the nearest table above it with the path of the
-- parent, and it has none exactly if no table above has that path.
pub owner-IsNearest :
    (d : Doc) (i : ℕ) (want : Text)
    → parent_of (get_elem? d.tables i) ≡ some want
    → IsNearest d.tables want i (owner d i)
unfolding owner
owner-IsNearest d i want h =
    subst (IsNearest d.tables want i) (sym (ap search h)) (owner_before-IsNearest d.tables want i)
  where
    search : Option Text → Option ℕ
    search none = none
    search (some w) = owner_before d.tables w i
