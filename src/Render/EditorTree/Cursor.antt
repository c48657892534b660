-- ===== src/Render/EditorTree/Cursor.antt =====
-- internal/render/editor.go: where the cursor goes. It is never parked on a hidden row.
use erdc_hpc_scripts.Base.{
  ℕ, zero, suc, ◌+◌, ◌-◌, ◌≤◌, ◌<◌, ◌≡◌, refl, sym, ◌⊎◌, inl, inr, Bool, true, false, Option, none,
  some, List, [], ◌∷◌, arith, All-map, ◌==◌, length, All, Any, if◌then◌else◌, Bool-cases, subst,
  dec_lt,
}
use erdc_hpc_scripts.Render.EditorTree.{
  EdRow, visible, prev_visible, next_visible, Dir, back, forward, or_stay, move, page, visible_from,
  visible_rows, first_visible, last_visible, last_or,
}

-- A cursor on a row that is there and shown.
abbrev pub IsParked : List EdRow → ℕ → Type 0
IsParked rows i = (i < length rows) × (visible rows i ≡ true)

-- All rows from `lo` up to before `hi` are hidden.
abbrev pub AreHidden : List EdRow → ℕ → ℕ → Type 0
AreHidden rows lo hi = (j : ℕ) → lo ≤ j → j < hi → visible rows j ≡ false

AreHidden-above :
    (rows : List EdRow) (lo hi : ℕ)
    → visible rows hi ≡ false
    → AreHidden rows lo hi
    → AreHidden rows lo (suc hi)
AreHidden-above rows lo hi h hs j l u = elim (dec_lt j hi) [
  | yes p ↦ hs j l p
  | no p ↦ let same : hi ≡ j = omega arith in subst (λ k. visible rows k ≡ false) same h
]

AreHidden-below :
    (rows : List EdRow) (lo hi : ℕ)
    → visible rows lo ≡ false
    → AreHidden rows (suc lo) hi
    → AreHidden rows lo hi
AreHidden-below rows lo hi h hs j l u = elim (dec_lt lo j) [
  | yes p ↦ hs j p u
  | no p ↦ let same : lo ≡ j = omega arith in subst (λ k. visible rows k ≡ false) same h
]

-- What a search towards the first row finds from `c`.
abbrev FoundBack : List EdRow → ℕ → Option ℕ → Type 0
FoundBack rows c none = AreHidden rows 0 c
FoundBack rows c (some i) = (i < c) × (visible rows i ≡ true) × AreHidden rows (suc i) c

prev_visible-FoundBack : (rows : List EdRow) (c : ℕ) → FoundBack rows c (prev_visible rows c)
unfolding prev_visible
prev_visible-FoundBack rows zero = λ j l u. absurd (omega arith)
prev_visible-FoundBack rows (suc c) = elim (Bool-cases (visible rows c)) [
  | inl e ↦ rw e (omega arith, e, (λ j l u. absurd (omega arith)))
  | inr e ↦ rw e (wider e (prev_visible rows c) (prev_visible-FoundBack rows c))
]
  where
    wider : visible rows c ≡ false → (r : Option ℕ) → FoundBack rows c r → FoundBack rows (suc c) r
    wider e none h = AreHidden-above rows 0 c e h
    wider e (some i) h = (omega arith, h.1, AreHidden-above rows (suc i) c e h.2)

-- What a search over the `n` rows from `c` on finds.
abbrev FoundForward : List EdRow → ℕ → ℕ → Option ℕ → Type 0
FoundForward rows n c none = AreHidden rows c (c + n)
FoundForward rows n c (some i) =
    (c ≤ i) × (i < c + n) × (visible rows i ≡ true) × AreHidden rows c i

next_visible-FoundForward :
    (rows : List EdRow) (n c : ℕ) → FoundForward rows n c (next_visible rows n c)
unfolding next_visible
next_visible-FoundForward rows zero c = λ j l u. absurd (omega arith)
next_visible-FoundForward rows (suc n) c = elim (Bool-cases (visible rows c)) [
  | inl e ↦ rw e (omega arith, omega arith, e, (λ j l u. absurd (omega arith)))
  | inr e ↦ rw e (wider e (next_visible rows n (suc c)) (next_visible-FoundForward rows n (suc c)))
]
  where
    wider :
        visible rows c ≡ false
        → (r : Option ℕ) → FoundForward rows n (suc c) r
        → FoundForward rows (suc n) c r
    wider e none h = AreHidden-below rows c _ e (λ j l u. h j l (omega arith))
    wider e (some i) h = (omega arith, omega arith, h.2, AreHidden-below rows c i e h.3)

-- Where a move ends: on the nearest shown row of its direction, or where it began if all rows of
-- that direction are hidden.
abbrev pub Lands : List EdRow → ℕ → Dir → ℕ → Type 0
Lands rows c back c' =
    ((c' ≡ c) × AreHidden rows 0 c)
    ⊎ ((c' < c) × (visible rows c' ≡ true) × AreHidden rows (suc c') c)
Lands rows c forward c' =
    ((c' ≡ c) × AreHidden rows (suc c) (length rows))
    ⊎ ((c < c') × (c' < length rows) × (visible rows c' ≡ true) × AreHidden rows (suc c) c')

-- A move from a row that is there lands on the nearest shown row of its direction, if there is
-- one, and else stays.
pub move-Lands :
    (rows : List EdRow) (c : ℕ) (dir : Dir) → c < length rows → Lands rows c dir (move rows c dir)
unfolding move
move-Lands rows c back h = by_search (prev_visible rows c) (prev_visible-FoundBack rows c)
  where
    by_search : (r : Option ℕ) → FoundBack rows c r → Lands rows c back (or_stay r c)
    by_search none f = inl (refl, f)
    by_search (some i) f = inr f
move-Lands rows c forward h =
    by_search (next_visible rows (length rows - suc c) (suc c))
      (next_visible-FoundForward rows (length rows - suc c) (suc c))
  where
    by_search :
        (r : Option ℕ)
        → FoundForward rows (length rows - suc c) (suc c) r
        → Lands rows c forward (or_stay r c)
    by_search none f = inl (refl, (λ j l u. f j l (omega arith)))
    by_search (some i) f = inr (omega arith, omega arith, f.2, f.3)

pub move-IsParked :
    (rows : List EdRow) (c : ℕ) (dir : Dir) → IsParked rows c → IsParked rows (move rows c dir)
move-IsParked rows c back h = elim (move-Lands rows c back h.0) [
  | inl stay ↦ rw stay.0 h
  | inr l ↦ (omega arith, l.1)
]
move-IsParked rows c forward h = elim (move-Lands rows c forward h.0) [
  | inl stay ↦ rw stay.0 h
  | inr l ↦ (l.1, l.2)
]

if-IsParked :
    (rows : List EdRow) (b : Bool) (c d : ℕ)
    → IsParked rows c
    → IsParked rows d
    → IsParked rows (if b then c else d)
if-IsParked rows true c d hc hd = hc
if-IsParked rows false c d hc hd = hd

pub page-IsParked :
    (n : ℕ) (rows : List EdRow) (c : ℕ) (dir : Dir)
    → IsParked rows c
    → IsParked rows (page n rows c dir)
unfolding page
page-IsParked zero rows c dir h = h
page-IsParked (suc n) rows c dir h =
    if-IsParked rows (move rows c dir == c) c _ h
      (page-IsParked n rows _ dir (move-IsParked rows c dir h))

pub visible_zero : (rows : List EdRow) → visible rows 0 ≡ true
unfolding visible
visible_zero [] = refl
visible_zero (r ∷ rows) = refl

pub first_visible-zero : (rows : List EdRow) → first_visible rows ≡ 0
unfolding first_visible next_visible
first_visible-zero [] = refl
first_visible-zero (r ∷ rows) = rw (visible_zero (r ∷ rows))

if-Any :
    (b : Bool) (c i : ℕ) (is : List ℕ)
    → Any (λ k. k ≡ i) is
    → Any (λ k. k ≡ i) (if b then c ∷ is else is)
if-Any true c i is h = inr h
if-Any false c i is h = h

visible_from-All :
    (rows : List EdRow) (n c : ℕ)
    → All (λ i. (i < c + n) × (visible rows i ≡ true)) (visible_from rows n c)
unfolding visible_from
visible_from-All rows zero c = tt
visible_from-All rows (suc n) c =
    let rest = All-map (λ i h. (omega arith, h.1)) _ (visible_from-All rows n (suc c)) in
    elim (Bool-cases (visible rows c)) [ inl e ↦ rw e ((omega arith, e), rest) | inr e ↦ rw e rest ]

-- Every shown row is in the list.
visible_from-Any :
    (rows : List EdRow) (n c i : ℕ)
    → c ≤ i
    → i < c + n
    → visible rows i ≡ true
    → Any (λ k. k ≡ i) (visible_from rows n c)
unfolding visible_from
visible_from-Any rows zero c i l u v = absurd (omega arith)
visible_from-Any rows (suc n) c i l u v = elim (dec_lt c i) [
  | yes p ↦ if-Any (visible rows c) c i _ (visible_from-Any rows n (suc c) i p (omega arith) v)
  | no p ↦
      let same : c ≡ i = omega arith in
      rw (subst (λ k. visible rows k ≡ true) (sym same) v) (inl same)
]

pub visible_rows-All : (rows : List EdRow) → All (IsParked rows) (visible_rows rows)
unfolding visible_rows
visible_rows-All rows =
    All-map (λ i h. (omega arith, h.1)) _ (visible_from-All rows (length rows) 0)

pub visible_rows-Any :
    (rows : List EdRow) (i : ℕ) → IsParked rows i → Any (λ k. k ≡ i) (visible_rows rows)
unfolding visible_rows
visible_rows-Any rows i h = visible_from-Any rows (length rows) 0 i (omega arith) (omega arith) h.1

last_or-All : (P : ℕ → Type 0) (is : List ℕ) (d : ℕ) → All P is → P d → P (last_or is d)
last_or-All P [] d h hd = hd
last_or-All P (i ∷ is) d h hd = last_or-All P is i h.1 h.0

pub last_visible-IsParked :
    (rows : List EdRow) (c : ℕ) → IsParked rows c → IsParked rows (last_visible rows c)
unfolding last_visible
last_visible-IsParked rows c h =
    last_or-All (IsParked rows) (visible_rows rows) c (visible_rows-All rows) h
