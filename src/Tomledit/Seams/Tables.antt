-- ===== src/Tomledit/Seams/Tables.antt =====
-- internal/tomledit/tomledit.go, `Split`: it takes whole tables of `Parse` out of a text.
use erdc_hpc_scripts.Base.{
  ℕ, zero, suc, ◌-◌, ◌≤◌, ◌≡◌, refl, sym, ◌∙◌, ap, subst, Bool, true, false, Option, none, some,
  List, [], ◌∷◌, ◌++◌, arith, Text, text_eq, if◌then◌else◌, append_assoc, take, drop, length,
  length-drop, length-append,
}
use mathlib.Core.Path.{fun_ext}
use erdc_hpc_scripts.Base.GoStrings.{split}
use erdc_hpc_scripts.Tomledit.Line.{header}
use erdc_hpc_scripts.Tomledit.Doc.{Table, parse_from, root, parse}
use erdc_hpc_scripts.Tomledit.Seams.{is_no_name, section_of, next_section, Parts, split_tables}
use erdc_hpc_scripts.Tomledit.Seams.Spec.{is_for, is_left, unlines, span, spans}
use erdc_hpc_scripts.Tomledit.Seams.Picked.{
  own, own-is_for, own-is_left, section_of-own, picked, split_lines-picked, put-rest, put-sections,
  own_root,
}

drop-append :
    (s : ℕ) (pre more : List Text) → s ≤ length pre → drop s (pre ++ more) ≡ drop s pre ++ more
drop-append zero pre more h = refl
drop-append (suc s) [] more h = absurd (omega arith)
drop-append (suc s) (x ∷ pre) more h = drop-append s pre more (omega arith)

take_one_more :
    (pre : List Text) (line : Text) (rest : List Text)
    → take (suc (length pre)) (pre ++ line ∷ rest)
      ≡ take (length pre) (pre ++ line ∷ rest) ++ line ∷ []
take_one_more [] line rest = refl
take_one_more (x ∷ pre) line rest = ap (λ t. x ∷ t) (take_one_more pre line rest)

-- A span that ends before a line grows by that line.
span_one_more :
    (pre : List Text) (line : Text) (rest : List Text) (s : ℕ)
    → s ≤ length pre
    → span (pre ++ line ∷ rest) s (suc (length pre))
      ≡ span (pre ++ line ∷ rest) s (length pre) ++ line ∷ []
span_one_more pre line rest s h =
    let size : suc (length pre) - s ≡ suc (length (drop s pre)) =
      omega (arith, length-drop s pre) in
    let less : length pre - s ≡ length (drop s pre) = omega (arith, length-drop s pre) in
    rw (size, less, drop-append s pre (line ∷ rest) h) (take_one_more (drop s pre) line rest)

span_none : (lines : List Text) (i : ℕ) → span lines i i ≡ []
span_none lines i = let none : i - i ≡ 0 = omega arith in rw none refl

nothing : (b : Bool) (xs : List Text) → (if b then [] else []) ++ xs ≡ xs
nothing true xs = refl
nothing false xs = refl

-- From line `i` on: the lines that are picked are those of the tables that are still to come, and of
-- the open one from line `i` on.
module _ (names : List Text) (test : Text → Bool) where
  abbrev picks : Text → Bool
  picks path = test (own names path)

  spans-cons :
      (all : List Text) (t : Table) (ts : List Table)
      → spans picks all (t ∷ ts)
        ≡ (if picks t.path then span all t.start t.end else []) ++ spans picks all ts
  unfolding spans
  spans-cons all t ts = by_test (picks t.path)
    where
      by_test :
          (b : Bool)
          → (let more : List Text = spans picks all ts in
              let with : List Text = span all t.start t.end ++ more in if b then with else more)
            ≡ (if b then span all t.start t.end else []) ++ spans picks all ts
      by_test true = refl
      by_test false = refl

  if-append :
      (b : Bool) (xs : List Text) (line : Text) (more : List Text)
      → (if b then xs ++ line ∷ [] else []) ++ more
        ≡ (if b then xs else []) ++ (if b then line ∷ more else more)
  if-append true xs line more = append_assoc xs (line ∷ []) more
  if-append false xs line more = refl

  -- What the lines from `i` on give where `t` is the table that is open.
  abbrev Picked : List Text → List Text → Table → Type 0
  Picked pre lines t =
      spans picks (pre ++ lines) (parse_from lines (length pre) t)
      ≡ (if picks t.path then span (pre ++ lines) t.start (length pre) else [])
        ++ picked names test (own names t.path) lines

  -- The same with the line before them counted to the lines that are open.
  abbrev PickedAfter : List Text → Text → List Text → Table → Type 0
  PickedAfter pre line lines t =
      let all : List Text = pre ++ line ∷ lines in
      let more : List Text = picked names test (own names t.path) lines in
      spans picks all (parse_from lines (suc (length pre)) t)
      ≡ (if picks t.path then span all t.start (length pre) else [])
        ++ (if picks t.path then line ∷ more else more)

  one_more :
      (pre : List Text) (line : Text) (lines : List Text) (t : Table)
      → t.start ≤ length pre
      → Picked (pre ++ line ∷ []) lines t
      → PickedAfter pre line lines t
  one_more pre line lines t h ih =
      let all : (pre ++ line ∷ []) ++ lines ≡ pre ++ line ∷ lines =
        append_assoc pre (line ∷ []) lines in
      let size : length (pre ++ line ∷ []) ≡ suc (length pre) =
        omega (arith, length-append pre (line ∷ [])) in
      let more = picked names test (own names t.path) lines in
      subst
        (λ ls.
          spans picks ls (parse_from lines (suc (length pre)) t)
          ≡ (if picks t.path then span ls t.start (suc (length pre)) else []) ++ more)
        all
        (subst
          (λ n.
            spans picks ((pre ++ line ∷ []) ++ lines) (parse_from lines n t)
            ≡ (if picks t.path then span ((pre ++ line ∷ []) ++ lines) t.start n else []) ++ more)
          size ih)
      ∙ ap (λ ls. (if picks t.path then ls else []) ++ more)
          (span_one_more pre line lines t.start h)
      ∙ if-append (picks t.path) (span (pre ++ line ∷ lines) t.start (length pre)) line more

  parse_from-Picked :
      (pre lines : List Text) (cur : Table) → cur.start ≤ length pre → Picked pre lines cur
  unfolding parse_from picked next_section spans
  parse_from-Picked pre [] cur h = spans-cons (pre ++ []) (record cur { end = length pre }) []
  parse_from-Picked pre (line ∷ lines) cur h = by_header (header line) (λ t k.
      one_more pre line lines t k (
        parse_from-Picked (pre ++ line ∷ []) lines t
          (omega (arith, k, length-append pre (line ∷ [])))))
    where
      by_header :
          (o : Option (Text × Bool))
          → ((t : Table) → t.start ≤ length pre → PickedAfter pre line lines t)
          → (let tables : List Table = elim o [
            | none ↦ parse_from lines (suc (length pre)) cur
            | some h ↦
                record cur { end = length pre }
                ∷ parse_from lines
                    (suc (length pre))
                    (record { path = h.0; array = h.1; start = length pre; end = 0 })
          ] in
              let next : Text = section_of names (own names cur.path) o in
              let more : List Text = picked names test next lines in
              spans picks (pre ++ line ∷ lines) tables
              ≡ (if picks cur.path then span (pre ++ line ∷ lines) cur.start (length pre) else [])
                ++ (if test next then line ∷ more else more))
      by_header none ih = ih cur h
      by_header (some a) ih =
          let all = pre ++ line ∷ lines in
          let t : Table = record { path = a.0; array = a.1; start = length pre; end = 0 } in
          let more = picked names test (own names a.0) lines in
          let here : List Text = if picks a.0 then line ∷ more else more in
          rw (section_of-own names (own names cur.path) a) (
            spans-cons all (record cur { end = length pre }) _
            ∙ ap (λ ls. (if picks cur.path then span all cur.start (length pre) else []) ++ ls)
                (ih t (omega arith)
                  ∙ ap (λ ls. (if picks a.0 then ls else []) ++ here) (span_none all (length pre))
                  ∙ nothing (picks a.0) here))

  picked-parse :
      (lines : List Text) → picked names test [] lines ≡ spans picks lines (parse_from lines 0 root)
  picked-parse lines =
      ap (λ cur. picked names test cur lines) (sym (own_root names))
      ∙ sym (
          parse_from-Picked [] lines root (omega arith)
          ∙ ap (λ ls. (if picks [] then ls else []) ++ picked names test (own names []) lines)
              (span_none lines 0)
          ∙ nothing (picks []) _)

-- Split takes whole tables, as Parse finds them, out of a text: it leaves the lines, each with
-- its end, of the tables whose path starts with no name that was asked for or with an empty one,
-- in their order, and for a name that is not empty it takes the lines, each with its end, of the
-- tables whose path starts with that name, header lines included and in their order, if the name
-- was asked for.
pub split_tables-parse :
    (text : Text) (names : List Text) (c : ℕ) (n : Text)
    → let d = parse text in
      ((split_tables text names).rest ≡ unlines (spans (is_left names) d.lines d.tables))
      × ((split_tables text names).sections (c ∷ n)
          ≡ unlines (spans (is_for (c ∷ n) names) d.lines d.tables))
unfolding split_tables parse
split_tables-parse text names c n =
    let lines = split text 10 in
    let p : Parts = record { rest = []; sections = λ n. [] } in
    let wanted = λ (s : Text). text_eq s (c ∷ n) in
    let left : picks names is_no_name ≡ is_left names = fun_ext (own-is_left names) in
    let taken : picks names wanted ≡ is_for (c ∷ n) names = fun_ext (own-is_for names c n) in
    (
      split_lines-picked names (λ q. q.rest) is_no_name put-rest [] lines p
          ∙ ap unlines (picked-parse names is_no_name lines)
          ∙ ap (λ f. unlines (spans f lines (parse_from lines 0 root))) left,
      split_lines-picked names (λ q. q.sections (c ∷ n)) wanted
            (λ cur line q. put-sections cur line q c n) [] lines p
          ∙ ap unlines (picked-parse names wanted lines)
          ∙ ap (λ f. unlines (spans f lines (parse_from lines 0 root))) taken,
    )
