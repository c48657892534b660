-- ===== src/Queue/Durations.antt =====
-- internal/queue/walltime.go: the time cells of qstat and squeue. An `int` is its 64-bit pattern.
use erdc_hpc_scripts.Base.{
  ℕ, ◌+◌, ◌*◌, ◌%◌, Bool, true, false, not, ◌&&◌, Option, none, some, List, [], ◌∷◌, Text, ltb,
  ◌==◌, if◌then◌else◌,
}
use mathlib.Core.Option
use erdc_hpc_scripts.Base.GoStrings.{trim_space, split, cut}
use erdc_hpc_scripts.Base.Decimal.{is_digit, number}
use erdc_hpc_scripts.Queue.Walltime.{int_bits, int_limit}
pub mod Cells

unfoldable pub all_digits : Text → Bool
all_digits [] = true
all_digits (c ∷ s) = is_digit c && all_digits s

abbrev pub digits_value : Text → Option ℕ
digits_value [] = none
digits_value (c ∷ s) =
    if all_digits (c ∷ s) && ltb (number (c ∷ s)) int_limit then some (number (c ∷ s)) else none

abbrev pub only_zero : Option ℕ → Option ℕ
only_zero none = none
only_zero (some n) = if n == 0 then some 0 else none

-- `Atoi` where an error or a negative number is refused.
unfoldable pub atoi : Text → Option ℕ
unfolding all_digits
atoi [] = none
atoi (c ∷ s) =
    if c == 43
    then digits_value s
    else if c == 45
    then only_zero (digits_value s)
    else digits_value (c ∷ s)

abbrev pub onto : Option ℕ → Option (List ℕ) → Option (List ℕ)
onto (some n) (some ns) = some (n ∷ ns)
onto _ _ = none

unfoldable pub fields : List Text → Option (List ℕ)
unfolding atoi
fields [] = some []
fields (p ∷ ps) = onto (atoi p) (fields ps)

abbrev pub two_or_three : List Text → Option (List ℕ)
two_or_three (a ∷ b ∷ []) = fields (a ∷ b ∷ [])
two_or_three (a ∷ b ∷ c ∷ []) = fields (a ∷ b ∷ c ∷ [])
two_or_three _ = none

-- `clockFields`
unfoldable pub clock_fields : Text → Option (List ℕ)
unfolding fields trim_space split
clock_fields s = two_or_three (split (trim_space s) 58)

abbrev pub pbs_seconds : Option (List ℕ) → Option ℕ
pbs_seconds (some (h ∷ m ∷ [])) = some ((h * 3600 + m * 60) % int_bits)
pbs_seconds (some (h ∷ m ∷ s ∷ [])) = some ((h * 3600 + m * 60 + s) % int_bits)
pbs_seconds _ = none

-- `parsePBSDuration`
unfoldable pub parse_pbs_duration : Text → Option ℕ
unfolding clock_fields
parse_pbs_duration s = pbs_seconds (clock_fields s)

abbrev pub slurm_seconds : ℕ → Option (List ℕ) → Option ℕ
slurm_seconds days (some (m ∷ s ∷ [])) = if days == 0 then some ((m * 60 + s) % int_bits) else none
slurm_seconds days (some (h ∷ m ∷ s ∷ [])) =
    some ((days * 86400 + h * 3600 + m * 60 + s) % int_bits)
slurm_seconds days _ = none

abbrev pub after_days : Option ℕ → Text → Option ℕ
after_days none s = none
after_days (some days) s = slurm_seconds days (clock_fields s)

abbrev pub slurm_cell : Text → Option (Text × Text) → Option ℕ
slurm_cell s none = slurm_seconds 0 (clock_fields s)
slurm_cell s (some ([], rest)) = slurm_seconds 0 (clock_fields s)
slurm_cell s (some (c ∷ days, rest)) = after_days (atoi (c ∷ days)) rest

-- `parseSLURMDuration`
unfoldable pub parse_slurm_duration : Text → Option ℕ
unfolding clock_fields atoi cut trim_space
parse_slurm_duration s = let t = trim_space s in slurm_cell t (cut t 45)
