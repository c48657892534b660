-- ===== src/Tomledit/Edit/Inserting.antt =====
-- internal/tomledit/tomledit.go: the spans of the tables through `Set`.
use erdc_hpc_scripts.Base.{
  ℕ, zero, suc, ◌+◌, ◌-◌, ◌≤◌, ◌<◌, ◌≡◌, refl, sym, ap, subst, Bool, true, false, Option, none,
  some, List, [], ◌∷◌, ◌++◌, arith, Text, length, take, drop, length-append, length-drop,
  if◌then◌else◌,
}
use erdc_hpc_scripts.Tomledit.Doc.{Table, Doc, key_line}
use erdc_hpc_scripts.Tomledit.Doc.Spans.{Tile}
use erdc_hpc_scripts.Tomledit.Edit.{
  shift, moved, insert_at, insert_line, set_line, insert, set, set_at, is_blank,
}

shift-Tile :
    (at' i n : ℕ) (ts : List Table) → Tile i n ts → Tile (moved at' i) (moved at' n) (shift at' ts)
unfolding shift
shift-Tile at' i n [] h = ap (moved at') h
shift-Tile at' i n (t ∷ ts) (s, l, h) =
    (ap (moved at') s, ground arith, shift-Tile at' t.end n ts h)

length-take : {A : Type 0} (n : ℕ) (xs : List A) → n ≤ length xs → length (take n xs) ≡ n
length-take zero xs h = refl
length-take (suc n) [] h = absurd (omega arith)
length-take (suc n) (x ∷ xs) h = ap suc (length-take n xs (omega arith))

-- A line that is put behind the first line and no later than at the end of the lines moves the spans
-- with it: tables that tile the lines before tile them after.
pub insert_line-Tile :
    (d : Doc) (line : Text) (at' : ℕ)
    → 0 < at'
    → at' ≤ length d.lines
    → Tile 0 (length d.lines) d.tables
    → Tile 0 (length (insert_line d line at').lines) (insert_line d line at').tables
insert_line-Tile d line at' p l h =
    let first : moved at' 0 ≡ 0 = ground arith in
    let last : moved at' (length d.lines) ≡ length (take at' d.lines ++ (line ∷ drop at' d.lines)) =
      ground (
        arith,
        length-append (take at' d.lines) (line ∷ drop at' d.lines),
        length-take at' d.lines l,
        length-drop at' d.lines,
      ) in
    subst (λ m. Tile 0 m (shift at' d.tables)) last
      (subst (λ i. Tile i (moved at' (length d.lines)) (shift at' d.tables)) first
        (shift-Tile at' 0 (length d.lines) d.tables h))

length-set_line :
    (lines : List Text) (i : ℕ) (line : Text) → length (set_line lines i line) ≡ length lines
unfolding set_line
length-set_line [] i line = refl
length-set_line (l ∷ lines) zero line = refl
length-set_line (l ∷ lines) (suc i) line = ap suc (length-set_line lines i line)

insert_at_bounds :
    (lines : List Text) (j a : ℕ)
    → a ≤ j
    → (a ≤ insert_at lines j a) × (insert_at lines j a ≤ j + length lines)
unfolding insert_at
insert_at_bounds [] j a h = (omega arith, omega arith)
insert_at_bounds (line ∷ lines) j a h = by_line _ (λ a' k. insert_at_bounds lines (suc j) a' k)
  where
    by_line :
        (b : Bool)
        → ((a' : ℕ)
            → a' ≤ suc j
            → (a' ≤ insert_at lines (suc j) a')
              × (insert_at lines (suc j) a' ≤ suc j + length lines))
        → (a ≤ insert_at lines (suc j) (if b then suc j else a))
          × (insert_at lines (suc j) (if b then suc j else a) ≤ j + suc (length lines))
    by_line true next =
        let ih = next (suc j) (omega arith) in (omega (arith, ih), omega (arith, ih))
    by_line false next = let ih = next a (omega arith) in (omega (arith, ih), omega (arith, ih))

length-take_le : {A : Type 0} (n : ℕ) (xs : List A) → length (take n xs) ≤ n
length-take_le zero xs = omega arith
length-take_le (suc n) [] = omega arith
length-take_le (suc n) (x ∷ xs) = omega (arith, length-take_le n xs)

insert-Tile :
    (d : Doc) (t : Table) (key raw : Text)
    → is_blank t.path ≡ false
    → t.start < t.end
    → t.end ≤ length d.lines
    → Tile 0 (length d.lines) d.tables
    → Tile 0 (length (insert d t key raw).lines) (insert d t key raw).tables
unfolding insert
insert-Tile d t key raw named s e h =
    let body = take (t.end - suc t.start) (drop (suc t.start) d.lines) in
    let bounds = insert_at_bounds body (suc t.start) (suc t.start) (omega arith) in
    let short = length-take_le (t.end - suc t.start) (drop (suc t.start) d.lines) in
    rw named (
      insert_line-Tile d _ (insert_at body (suc t.start) (suc t.start)) (omega (arith, bounds))
        (omega (arith, bounds, short)) h)

-- Setting a key in a table that has a name, is not empty and ends within the lines keeps the
-- spans right, whether the line of the key is rewritten, revived or put in: tables that tile the
-- lines before tile them after.
pub set-Tile :
    (d : Doc) (t : Table) (key raw : Text)
    → is_blank t.path ≡ false
    → t.start < t.end
    → t.end ≤ length d.lines
    → Tile 0 (length d.lines) d.tables
    → Tile 0 (length (set d t key raw).lines) (set d t key raw).tables
unfolding set
set-Tile d t key raw named s e h = by_line (key_line d t key)
  where
    by_line :
        (o : Option (ℕ × Bool))
        → Tile 0 (length (set_at d t key raw o).lines) (set_at d t key raw o).tables
    by_line none = insert-Tile d t key raw named s e h
    by_line (some (i, live)) = subst (λ m. Tile 0 m d.tables) (sym (length-set_line d.lines i _)) h
