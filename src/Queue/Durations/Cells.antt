-- ===== src/Queue/Durations/Cells.antt =====
-- internal/queue/walltime.go: full clocks read the same in both dialects; short ones do not.
use erdc_hpc_scripts.Base.{
  ℕ, ◌+◌, ◌*◌, ◌/◌, ◌%◌, ◌<◌, ◌≡◌, refl, sym, ◌∙◌, ap, subst, true, false, none, some, List, [],
  ◌∷◌, ◌++◌, arith, Text, ltb, ◌==◌, All, All-append, All-map,
}
use erdc_hpc_scripts.Base.GoStrings.{split, cut}
use erdc_hpc_scripts.Base.Decimal.{AreDigits, number}
use erdc_hpc_scripts.Queue.Walltime.{int_limit, two_digits, format_walltime, is_negative}
use erdc_hpc_scripts.Queue.Walltime.Clock.{
  IsClock, trim_space_none, two_digits-AreDigits, split-append, split-digits, number-two_digits,
  two_digits_some,
}
use erdc_hpc_scripts.Queue.Durations.{
  all_digits, digits_value, atoi, fields, two_or_three, clock_fields, pbs_seconds,
  parse_pbs_duration, slurm_seconds, slurm_cell, parse_slurm_duration,
}

all_digits-AreDigits : (s : Text) → AreDigits s → all_digits s ≡ true
unfolding all_digits
all_digits-AreDigits [] h = refl
all_digits-AreDigits (c ∷ s) h = rw (h.0, all_digits-AreDigits s h.1) refl

digits_value-AreDigits :
    (c : ℕ) (s : Text)
    → AreDigits (c ∷ s)
    → number (c ∷ s) < int_limit
    → digits_value (c ∷ s) ≡ some (number (c ∷ s))
digits_value-AreDigits c s h l =
    let small : ltb (number (c ∷ s)) int_limit ≡ true = ground arith in
    rw (all_digits-AreDigits (c ∷ s) h, small) refl

atoi-digits :
    (c : ℕ) (s : Text)
    → AreDigits (c ∷ s)
    → number (c ∷ s) < int_limit
    → atoi (c ∷ s) ≡ some (number (c ∷ s))
unfolding atoi
atoi-digits c s h l =
    let plus : (c == 43) ≡ false = ground arith in
    let minus : (c == 45) ≡ false = ground arith in
    rw (plus, minus) (digits_value-AreDigits c s h l)

atoi-two_digits : (n : ℕ) → n < int_limit → atoi (two_digits n) ≡ some n
atoi-two_digits n l =
    by_text (two_digits n) (two_digits_some n) (two_digits-AreDigits n) (number-two_digits n)
  where
    by_text : (s : Text) → (s ≡ [] → ⊥) → AreDigits s → number s ≡ n → atoi s ≡ some n
    by_text [] full h e = absurd (full refl)
    by_text (c ∷ s) full h e = atoi-digits c s h (subst (λ m. m < int_limit) (sym e) l) ∙ ap some e

fields-two :
    (a b : ℕ)
    → a < int_limit
    → b < int_limit
    → fields (two_digits a ∷ two_digits b ∷ []) ≡ some (a ∷ b ∷ [])
unfolding fields
fields-two a b ha hb = rw (atoi-two_digits a ha, atoi-two_digits b hb) refl

fields-three :
    (h m s : ℕ)
    → h < int_limit
    → m < int_limit
    → s < int_limit
    → fields (two_digits h ∷ two_digits m ∷ two_digits s ∷ []) ≡ some (h ∷ m ∷ s ∷ [])
unfolding fields
fields-three h m s hh hm hs =
    rw (atoi-two_digits h hh, atoi-two_digits m hm, atoi-two_digits s hs) refl

cut_dash : (s : Text) → All IsClock s → cut s 45 ≡ none
unfolding cut
cut_dash [] h = refl
cut_dash (c ∷ s) h = let e : (c == 45) ≡ false = ground arith in rw (e, cut_dash s h.1) refl

-- Clocks of two numbers and of three.
abbrev pub short_clock : ℕ → ℕ → Text
short_clock a b = two_digits a ++ 58 ∷ two_digits b

abbrev full_clock : ℕ → ℕ → ℕ → Text
full_clock h m s = two_digits h ++ 58 ∷ short_clock m s

two_digits-IsClock : (n : ℕ) → All IsClock (two_digits n)
two_digits-IsClock n = All-map (λ c d. ground arith) (two_digits n) (two_digits-AreDigits n)

append-IsClock : (n : ℕ) (s : Text) → All IsClock s → All IsClock (two_digits n ++ 58 ∷ s)
append-IsClock n s h =
    All-append IsClock (two_digits n) _ (two_digits-IsClock n) ((omega arith, omega arith), h)

split-short_clock : (a b : ℕ) → split (short_clock a b) 58 ≡ two_digits a ∷ two_digits b ∷ []
split-short_clock a b =
    split-append (two_digits a) (two_digits b) (two_digits-AreDigits a)
    ∙ ap (λ ps. two_digits a ∷ ps) (split-digits (two_digits b) (two_digits-AreDigits b))

clock_fields-parts :
    (s : Text) (ps : List Text) → All IsClock s → split s 58 ≡ ps → clock_fields s ≡ two_or_three ps
unfolding clock_fields
clock_fields-parts s ps h e = ap two_or_three (ap (λ t. split t 58) (trim_space_none s h) ∙ e)

clock_fields-short_clock :
    (a b : ℕ) → a < int_limit → b < int_limit → clock_fields (short_clock a b) ≡ some (a ∷ b ∷ [])
clock_fields-short_clock a b ha hb =
    clock_fields-parts _ _ (append-IsClock a (two_digits b) (two_digits-IsClock b))
      (split-short_clock a b)
    ∙ two
  where
    two : two_or_three (two_digits a ∷ two_digits b ∷ []) ≡ some (a ∷ b ∷ [])
    two = fields-two a b ha hb

clock_fields-full_clock :
    (h m s : ℕ)
    → h < int_limit
    → m < int_limit
    → s < int_limit
    → clock_fields (full_clock h m s) ≡ some (h ∷ m ∷ s ∷ [])
clock_fields-full_clock h m s hh hm hs =
    clock_fields-parts _ _
      (append-IsClock h _ (append-IsClock m (two_digits s) (two_digits-IsClock s)))
      (split-append (two_digits h) (short_clock m s) (two_digits-AreDigits h)
        ∙ ap (λ ps. two_digits h ∷ ps) (split-short_clock m s))
    ∙ fields-three h m s hh hm hs

slurm_clock : (s : Text) → All IsClock s → parse_slurm_duration s ≡ slurm_seconds 0 (clock_fields s)
unfolding parse_slurm_duration
slurm_clock s h =
    ap (λ t. slurm_cell t (cut t 45)) (trim_space_none s h) ∙ ap (slurm_cell s) (cut_dash s h)

format_walltime-full_clock :
    (sec : ℕ)
    → sec < int_limit
    → format_walltime sec ≡ full_clock (sec / 3600) (sec % 3600 / 60) (sec % 60)
unfolding format_walltime
format_walltime-full_clock sec h = let e : is_negative sec ≡ false = ground arith in rw e refl

-- Every number of seconds below 2^63 is read back from its walltime by the cells of qstat and by
-- those of squeue alike.
pub durations-format_walltime :
    (sec : ℕ)
    → sec < int_limit
    → (parse_pbs_duration (format_walltime sec) ≡ some sec)
      × (parse_slurm_duration (format_walltime sec) ≡ some sec)
unfolding parse_pbs_duration
durations-format_walltime sec h =
    let fs =
      clock_fields-full_clock (sec / 3600) (sec % 3600 / 60) (sec % 60) (omega arith) (omega arith)
        (omega arith) in
    let whole = clock_is in
    rw (format_walltime-full_clock sec h) (
      ap pbs_seconds fs ∙ ap some (omega arith),
      slurm_clock _ whole ∙ ap (slurm_seconds 0) fs ∙ ap some (omega arith),
    )
  where
    clock_is : All IsClock (full_clock (sec / 3600) (sec % 3600 / 60) (sec % 60))
    clock_is =
        append-IsClock _ _
          (append-IsClock _ (two_digits (sec % 60)) (two_digits-IsClock (sec % 60)))

-- A clock of two numbers is minutes and seconds in a cell of squeue and hours and minutes in one
-- of qstat, sixty times as much, if the seconds of the latter are below 2^63.
pub durations-short_clock :
    (a b : ℕ)
    → a * 3600 + b * 60 < int_limit
    → (parse_slurm_duration (short_clock a b) ≡ some (a * 60 + b))
      × (parse_pbs_duration (short_clock a b) ≡ some (60 * (a * 60 + b)))
unfolding parse_pbs_duration
durations-short_clock a b h =
    let fs = clock_fields-short_clock a b (omega arith) (omega arith) in
    (
      slurm_clock _ (append-IsClock a (two_digits b) (two_digits-IsClock b))
          ∙ ap (slurm_seconds 0) fs
          ∙ ap some (omega arith),
      ap pbs_seconds fs ∙ ap some (omega arith),
    )
