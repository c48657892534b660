-- ===== src/Examples/Queue.antt =====
-- internal/queue on short inputs: two jobs of a PBS listing, and walltimes.
use erdc_hpc_scripts.Base.{
  ℕ, ◌+◌, ◌*◌, ◌≡◌, refl, ◌↔◌, false, none, some, List, [], ◌∷◌, ◌++◌, arith, codes, text_eq, ◌%◌,
}
use mathlib.Core.List.{map}
use erdc_hpc_scripts.Base.Decimal.{number, number_from}
use erdc_hpc_scripts.Queue.Walltime.{
  FloatOps, parse_walltime, format_walltime, normalize_walltime, int_bits,
}
use erdc_hpc_scripts.Queue.Walltime.Normal.{parse_walltime-format_walltime}
use erdc_hpc_scripts.Queue.Job.{Job, no_job}
use erdc_hpc_scripts.Queue.Select.{Regexps, is_single, match, match_all, clamp_int, lead_num}
use erdc_hpc_scripts.Queue.Durations.{parse_pbs_duration, parse_slurm_duration}
use erdc_hpc_scripts.Queue.Durations.Cells.{
  short_clock, durations-format_walltime, durations-short_clock,
}
use erdc_hpc_scripts.Queue.Select.Union.{IsIn, IsUnion, match_all-IsUnion}
use erdc_hpc_scripts.Queue.Select.Shapes.{IsBetween, match-range_iff}

-- Whole numbers for float64: their digits, no point.
abbrev whole_numbers : FloatOps ℕ
whole_numbers = record {
  parse_float = λ s. some (number s);
  zero_float = 0;
  add_multiple = λ total n unit. total + n * unit;
  is_below_zero = λ n. false;
  round_int = λ n. n % int_bits;
}

normalized :
    map
      (normalize_walltime whole_numbers)
      (codes "1h30m" ∷ codes " 90 " ∷ codes "2D" ∷ codes "1:02:03" ∷ codes "1h junk" ∷ [])
    ≡ some (codes "01:30:00") ∷ none ∷ some (codes "48:00:00") ∷ some (codes "01:02:03") ∷ none ∷ []
unfolding normalize_walltime number_from
normalized = refl

parse_walltime-format_walltime_example :
    parse_walltime whole_numbers (format_walltime 604800) ≡ some 604800
parse_walltime-format_walltime_example =
    parse_walltime-format_walltime whole_numbers 604800 (omega arith)

abbrev first_job : Job
first_job = record no_job { id = codes "12.hpc1"; short_id = codes "12"; name = codes "swan" }

abbrev second_job : Job
second_job = record no_job { id = codes "15[].hpc1"; short_id = codes "15[]"; name = codes "goose" }

abbrev two_jobs : List Job
two_jobs = first_job ∷ second_job ∷ []

-- Every text compiles, and matches itself alone.
abbrev literal : Regexps
literal pat = some (text_eq pat)

-- The jobs come in the order of the tokens, not in that of the listing.
token_order :
    match_all literal two_jobs (codes "15" ∷ codes "10-20" ∷ codes "swan" ∷ []) false
    ≡ second_job ∷ first_job ∷ []
unfolding match_all text_eq number_from
token_order = refl

match_all-IsUnion_example :
    IsUnion literal two_jobs false
      (codes "15" ∷ codes "~swan" ∷ [])
      (match_all literal two_jobs (codes "15" ∷ codes "~swan" ∷ []) false)
match_all-IsUnion_example =
    match_all-IsUnion literal two_jobs false (codes "15" ∷ codes "~swan" ∷ [])

match-range_iff_example :
    IsIn second_job (match literal two_jobs (codes "20" ++ 45 ∷ codes "14") false) ↔ (
      IsIn second_job two_jobs
      × IsBetween
          (clamp_int (number (codes "20")))
          (clamp_int (number (codes "14")))
          (lead_num second_job.short_id))
unfolding is_single
match-range_iff_example =
    match-range_iff literal two_jobs (codes "20") (codes "14") second_job refl refl

cells :
    map parse_slurm_duration
      (codes "2-01:00:00" ∷ codes "24:00" ∷ codes "UNLIMITED" ∷ codes "1-5" ∷ [])
    ≡ some 176400 ∷ some 1440 ∷ none ∷ none ∷ []
unfolding parse_slurm_duration number_from
cells = refl

durations-format_walltime_example :
    (parse_pbs_duration (format_walltime 3661) ≡ some 3661)
    × (parse_slurm_duration (format_walltime 3661) ≡ some 3661)
durations-format_walltime_example = durations-format_walltime 3661 (omega arith)

durations-short_clock_example :
    (parse_slurm_duration (short_clock 24 0) ≡ some 1440)
    × (parse_pbs_duration (short_clock 24 0) ≡ some 86400)
durations-short_clock_example = durations-short_clock 24 0 (omega arith)
