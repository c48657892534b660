-- ===== src/Tomledit/Doc/Spans.antt =====
-- internal/tomledit/tomledit.go: the tables of a parsed document tile its lines, one for each header,
-- and rendering gives the text back.
use erdc_hpc_scripts.Base.{
  ℕ, suc, ◌+◌, ◌≤◌, ◌≡◌, refl, ◌∙◌, ap, Bool, Option, none, some, List, [], ◌∷◌, arith, Text,
  length, ◌==◌, ==_iff, Bool-cases, inl, inr,
}
use mathlib.Core.List.{map}
use erdc_hpc_scripts.Base.GoStrings.{split, join, onto_first}
use erdc_hpc_scripts.Tomledit.Line.{header}
use erdc_hpc_scripts.Tomledit.Doc.{Table, parse_from, root, parse, render}

-- Tables that cover the lines from `i` to `n`, each from where the one before it ends.
abbrev pub Tile : ℕ → ℕ → List Table → Type 0
Tile i n [] = i ≡ n
Tile i n (t ∷ ts) = (t.start ≡ i) × (i ≤ t.end) × Tile t.end n ts

-- Where a table starts and what its header says.
pub record Heading : Type 0 where
  pub at_line : ℕ
  pub path : Text
  pub array : Bool

abbrev pub heading : Table → Heading
heading t = record { at_line = t.start; path = t.path; array = t.array }

-- The header lines of a text, from line `i` on.
pub headings : List Text → ℕ → List Heading
headings [] i = []
headings (line ∷ lines) i = elim (header line) [
  | none ↦ headings lines (suc i)
  | some h ↦ record { at_line = i; path = h.0; array = h.1 } ∷ headings lines (suc i)
]

parse_from-Tile :
    (lines : List Text) (i n : ℕ) (cur : Table)
    → cur.start ≤ i
    → i + length lines ≡ n
    → Tile cur.start n (parse_from lines i cur)
unfolding parse_from
parse_from-Tile [] i n cur h e = (refl, h, omega arith)
parse_from-Tile (line ∷ lines) i n cur h e =
    by_header (header line) (λ c k. parse_from-Tile lines (suc i) n c k (omega arith))
  where
    by_header :
        (o : Option (Text × Bool))
        → ((c : Table) → c.start ≤ suc i → Tile c.start n (parse_from lines (suc i) c))
        → (let tables : List Table = elim o [
          | none ↦ parse_from lines (suc i) cur
          | some h ↦
              record cur { end = i }
              ∷ parse_from lines (suc i) (record { path = h.0; array = h.1; start = i; end = 0 })
        ] in
            Tile cur.start n tables)
    by_header none ih = ih cur (omega arith)
    by_header (some a) ih = (refl, h, ih _ (omega arith))

parse_from-heading :
    (lines : List Text) (i : ℕ) (cur : Table)
    → map heading (parse_from lines i cur) ≡ heading cur ∷ headings lines i
unfolding parse_from headings
parse_from-heading [] i cur = refl
parse_from-heading (line ∷ lines) i cur = by_header (header line) (parse_from-heading lines (suc i))
  where
    by_header :
        (o : Option (Text × Bool))
        → ((c : Table)
            → map heading (parse_from lines (suc i) c) ≡ heading c ∷ headings lines (suc i))
        → (let tables : List Table = elim o [
          | none ↦ parse_from lines (suc i) cur
          | some h ↦
              record cur { end = i }
              ∷ parse_from lines (suc i) (record { path = h.0; array = h.1; start = i; end = 0 })
        ] in
            let heads : List Heading = elim o [
              | none ↦ headings lines (suc i)
              | some h ↦ record { at_line = i; path = h.0; array = h.1 } ∷ headings lines (suc i)
            ] in
            map heading tables ≡ heading cur ∷ heads)
    by_header none ih = ih cur
    by_header (some h) ih = ap (λ hs. heading cur ∷ hs) (ih _)

onto_first-join : (c : ℕ) (ps : List Text) (sep : ℕ) → join (onto_first c ps) sep ≡ c ∷ join ps sep
unfolding join onto_first
onto_first-join c [] sep = refl
onto_first-join c (p ∷ []) sep = refl
onto_first-join c (p ∷ q ∷ ps) sep = refl

join-onto_first :
    (c : ℕ) (ps : List Text) (sep : ℕ)
    → join ([] ∷ onto_first c ps) sep ≡ sep ∷ join (onto_first c ps) sep
unfolding join onto_first
join-onto_first c [] sep = refl
join-onto_first c (p ∷ ps) sep = refl

-- A line break before a text that is split.
join_break : (s : Text) (sep : ℕ) → join ([] ∷ split s sep) sep ≡ sep ∷ join (split s sep) sep
unfolding join split
join_break [] sep = refl
join_break (c ∷ s) sep = elim (Bool-cases (c == sep)) [
  | inl e ↦ rw e refl
  | inr e ↦ rw e (join-onto_first c (split s sep) sep)
]

join-split : (s : Text) (sep : ℕ) → join (split s sep) sep ≡ s
unfolding join split
join-split [] sep = refl
join-split (c ∷ s) sep = elim (Bool-cases (c == sep)) [
  | inl e ↦
      let same : sep ≡ c = omega (arith, (==_iff c sep).0 e) in
      rw e (join_break s sep ∙ ap (λ t. sep ∷ t) (join-split s sep) ∙ ap (λ d. d ∷ s) same)
  | inr e ↦ rw e (onto_first-join c (split s sep) sep ∙ ap (λ t. c ∷ t) (join-split s sep))
]

-- Rendering a parsed text gives it back.
pub render-parse : (text : Text) → render (parse text) ≡ text
unfolding render parse
render-parse text = join-split text 10

-- The tables of a parsed text tile its lines, and they are the root, from line 0 on, and then one
-- for each header line, in order, with the path and the form of that line.
pub parse-Tile :
    (text : Text)
    → Tile 0 (length (parse text).lines) (parse text).tables
      × (map heading (parse text).tables ≡ heading root ∷ headings (parse text).lines 0)
unfolding parse
parse-Tile text = (
  parse_from-Tile (split text 10) 0 _ root (omega arith) (omega arith),
  parse_from-heading (split text 10) 0 root,
)
