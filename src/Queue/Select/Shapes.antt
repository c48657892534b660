-- ===== src/Queue/Select/Shapes.antt =====
-- internal/queue/select.go: what one token picks.
use erdc_hpc_scripts.Base.{
  ℕ, ◌≤◌, ◌≡◌, ◌↔◌, refl, sym, ◌∙◌, ap, subst, ◌⊎◌, inl, inr, Bool, true, false, Option, none, some,
  List, [], ◌∷◌, ◌++◌, append-nil, arith, Text, text_eq, text_eq_refl, if◌then◌else◌, Bool-cases,
  ◌==◌, ltb,
}
use erdc_hpc_scripts.Base.GoStrings.{cut, split}
use erdc_hpc_scripts.Base.Decimal.{number}
use erdc_hpc_scripts.Queue.Job.{Job}
use erdc_hpc_scripts.Queue.Select.{
  Regexps, match_id, match_mask, match_shape, match_token, match, or_else, range_groups,
  both_single, unmarked, is_single, all_digits, is_id_list, matches_any, id_matches, in_range,
  is_within, clamp_int, lead_num,
}
use erdc_hpc_scripts.Queue.Select.Union.{IsIn, match_id-IsIn}

cut-none : (s : Text) → all_digits s ≡ true → cut s 45 ≡ none
unfolding all_digits cut
cut-none [] h = refl
cut-none (c ∷ s) h =
    let e : (c == 45) ≡ false = ground (arith, h) in
    let rest : all_digits s ≡ true = ground (arith, h) in rw (e, cut-none s rest) refl

cut-append : (s t : Text) → all_digits s ≡ true → cut (s ++ 45 ∷ t) 45 ≡ some (s, t)
unfolding all_digits cut
cut-append [] t h = refl
cut-append (c ∷ s) t h =
    let e : (c == 45) ≡ false = ground (arith, h) in
    let rest : all_digits s ≡ true = ground (arith, h) in rw (e, cut-append s t rest) refl

is_single-digits : (s : Text) → is_single s ≡ true → all_digits s ≡ true
unfolding is_single
is_single-digits [] h = cc
is_single-digits (c ∷ s) h = h

unmarked-digits : (s t : Text) → is_single s ≡ true → unmarked (s ++ t) ≡ none
unfolding is_single all_digits
unmarked-digits [] t h = cc
unmarked-digits (c ∷ s) t h = let e : (c == 126) ≡ false = ground (arith, h) in rw e refl

match_id-picks :
    (f : Job → Bool) (j : Job) (jobs : List Job)
    → IsIn j jobs
    → f j ≡ true
    → IsIn j (match_id f jobs)
unfolding match_id
match_id-picks f j [] h t = absurd h
match_id-picks f j (k ∷ jobs) (inl e) t = let same : f k ≡ true = ap f e ∙ t in rw same (inl e)
match_id-picks f j (k ∷ jobs) (inr h) t = elim (Bool-cases (f k)) [
  | inl e ↦ rw e (inr (match_id-picks f j jobs h t))
  | inr e ↦ rw e (match_id-picks f j jobs h t)
]

match_id-cong :
    (f g : Job → Bool) (jobs : List Job)
    → ((j : Job) → f j ≡ g j)
    → match_id f jobs ≡ match_id g jobs
unfolding match_id
match_id-cong f g [] h = refl
match_id-cong f g (j ∷ jobs) h = rw (h j, match_id-cong f g jobs h) refl

in_range_flip : (lo hi : ℕ) (j : Job) → in_range lo hi j ≡ in_range hi lo j
in_range_flip lo hi j = by_order (lead_num j.short_id)
  where
    by_order :
        (n : Option ℕ)
        → (if ltb hi lo then is_within hi lo n else is_within lo hi n)
          ≡ (if ltb lo hi then is_within lo hi n else is_within hi lo n)
    by_order none = ground arith
    by_order (some n) = ground arith

-- A job whose leading number lies between two others, in either order.
abbrev pub IsBetween : ℕ → ℕ → Option ℕ → Type 0
IsBetween a b none = ⊥
IsBetween a b (some n) = ((a ≤ n) × (n ≤ b)) ⊎ ((b ≤ n) × (n ≤ a))

in_range-IsBetween :
    (a b : ℕ) (j : Job) → (in_range a b j ≡ true) ↔ IsBetween a b (lead_num j.short_id)
in_range-IsBetween a b j = by_number (lead_num j.short_id)
  where
    by_number :
        (n : Option ℕ)
        → ((if ltb b a then is_within b a n else is_within a b n) ≡ true) ↔ IsBetween a b n
    by_number none = ((λ h. ground arith), (λ h. absurd h))
    by_number (some n) = ((λ h. ground arith), (λ h. ground arith))

range_groups-range :
    (lo hi : Text)
    → is_single lo ≡ true
    → is_single hi ≡ true
    → range_groups (lo ++ 45 ∷ hi) ≡ some (lo, hi)
unfolding range_groups
range_groups-range lo hi l h = rw (cut-append lo hi (is_single-digits lo l), l, h) refl

range_groups-single : (t : Text) → is_single t ≡ true → range_groups t ≡ none
unfolding range_groups
range_groups-single t h = ap both_single (cut-none t (is_single-digits t h))

id_matches-short_id : (j : Job) → id_matches j j.short_id ≡ true
unfolding id_matches
id_matches-short_id j = rw (text_eq_refl j.short_id) refl

id_matches-id : (j : Job) → id_matches j j.id ≡ true
unfolding id_matches
id_matches-id j = let same = text_eq_refl j.id in ground arith

match_id_sound :
    (f : Job → Bool) (j : Job) (jobs : List Job) → IsIn j (match_id f jobs) → f j ≡ true
unfolding match_id
match_id_sound f j [] h = absurd h
match_id_sound f j (k ∷ jobs) h = by_test (f k) refl h (match_id_sound f j jobs)
  where
    by_test :
        (b : Bool)
        → f k ≡ b
        → IsIn j (if b then k ∷ match_id f jobs else match_id f jobs)
        → (IsIn j (match_id f jobs) → f j ≡ true)
        → f j ≡ true
    by_test true e (inl same) ih = ap f (sym same) ∙ e
    by_test true e (inr a) ih = ih a
    by_test false e a ih = ih a

module _ (regexps : Regexps) (jobs : List Job) where
  match_range :
      (lo hi : Text)
      → is_single lo ≡ true
      → is_single hi ≡ true
      → match regexps jobs (lo ++ 45 ∷ hi) false
        ≡ match_id (in_range (clamp_int (number lo)) (clamp_int (number hi))) jobs
  unfolding match match_shape
  match_range lo hi l h =
      ap (λ u. match_token regexps u (lo ++ 45 ∷ hi) jobs) (unmarked-digits lo (45 ∷ hi) l)
      ∙ ap (λ g. match_shape regexps (lo ++ 45 ∷ hi) g jobs) (range_groups-range lo hi l h)

  -- A token that is a range of two numbers picks exactly the listed jobs whose short id leads
  -- with a number between them, whichever of the two is written first; a number that no int holds
  -- counts as the largest int.
  pub match-range_iff :
      (lo hi : Text) (j : Job)
      → is_single lo ≡ true
      → is_single hi ≡ true
      → IsIn j (match regexps jobs (lo ++ 45 ∷ hi) false) ↔ (
          IsIn j jobs
          × IsBetween (clamp_int (number lo)) (clamp_int (number hi)) (lead_num j.short_id))
  match-range_iff lo hi j l h =
      let f = in_range (clamp_int (number lo)) (clamp_int (number hi)) in
      let between = in_range-IsBetween (clamp_int (number lo)) (clamp_int (number hi)) j in
      rw (match_range lo hi l h) (
        (λ a. (match_id-IsIn f j jobs a, between.0 (match_id_sound f j jobs a))),
        (λ (a, b). match_id-picks f j jobs a (between.1 b)),
      )

  match_single :
      (t : Text)
      → is_single t ≡ true
      → match regexps jobs t false ≡ match_id (λ j. id_matches j t) jobs
  unfolding match match_shape
  match_single t s =
      ap (λ u. match_token regexps u t jobs)
        (ap unmarked (sym (append-nil t)) ∙ unmarked-digits t [] s)
      ∙ ap (λ g. match_shape regexps t g jobs) (range_groups-single t s)
      ∙ by_test (is_single t) s
    where
      by_test :
          (b : Bool)
          → b ≡ true
          → (let others : List Job =
                if is_id_list t
                then match_id (matches_any (split t 44)) jobs
                else or_else
                    (match_id (λ (j : Job). text_eq j.id t) jobs)
                    (match_mask regexps t jobs) in
              (if b then match_id (λ j. id_matches j t) jobs else others)
              ≡ match_id (λ j. id_matches j t) jobs)
      by_test true e = refl
      by_test false e = cc

  -- The short id of a listed job, if it is all digits, picks the job.
  pub match-short_id :
      (j : Job)
      → is_single j.short_id ≡ true
      → IsIn j jobs
      → IsIn j (match regexps jobs j.short_id false)
  match-short_id j s h =
      subst (IsIn j) (sym (match_single j.short_id s))
        (match_id-picks (λ k. id_matches k j.short_id) j jobs h (id_matches-short_id j))

  or_else-IsIn : (j : Job) (found others : List Job) → IsIn j found → IsIn j (or_else found others)
  or_else-IsIn j [] others h = absurd h
  or_else-IsIn j (k ∷ found) others h = h

  -- The full id of a listed job picks the job, unless it starts with the mark of a mask or reads
  -- as a range or a list of numbers.
  pub match-id :
      (j : Job)
      → unmarked j.id ≡ none
      → range_groups j.id ≡ none
      → is_id_list j.id ≡ false
      → IsIn j jobs
      → IsIn j (match regexps jobs j.id false)
  unfolding match match_shape
  match-id j u r l h =
      subst (λ o. IsIn j (match_token regexps o j.id jobs)) (sym u)
        (subst (λ g. IsIn j (match_shape regexps j.id g jobs)) (sym r)
          (by_test (is_single j.id) (is_id_list j.id) l))
    where
      by_test :
          (b b' : Bool)
          → b' ≡ false
          → IsIn j (
              if b
              then match_id (λ k. id_matches k j.id) jobs
              else if b'
              then match_id (matches_any (split j.id 44)) jobs
              else or_else
                  (match_id (λ (k : Job). text_eq k.id j.id) jobs)
                  (match_mask regexps j.id jobs))
      by_test true b' e = match_id-picks (λ k. id_matches k j.id) j jobs h (id_matches-id j)
      by_test false true e = cc
      by_test false false e =
          or_else-IsIn j _ _
            (match_id-picks (λ (k : Job). text_eq k.id j.id) j jobs h (text_eq_refl j.id))
