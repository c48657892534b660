-- ===== src/Queue/Listing/Layout.antt =====
-- internal/queue/queue.go: the layout of what qstat prints: a banner, the header, a rule and the jobs.
use erdc_hpc_scripts.Base.{◌≡◌, Bool, true, false, Option, none, List, [], ◌∷◌, Text, if◌then◌else◌}
use erdc_hpc_scripts.Base.GoStrings.{fields, trim_right}
use erdc_hpc_scripts.Queue.Job.{Job}
use erdc_hpc_scripts.Queue.Listing.{
  is_line_end, onto_job, pbs_job, is_pbs_header, is_rule, is_blank,
}

-- A line as the parser looks at it.
abbrev pub trimmed_line : Text → Text
trimmed_line line = trim_right is_line_end line

module _ (lower : Text → Text) where
  -- A line that is neither a header nor a rule.
  abbrev pub IsPlain : Text → Type 0
  IsPlain line =
      (is_pbs_header lower (trimmed_line line) ≡ false) × (is_rule (trimmed_line line) ≡ false)

  abbrev pub IsHeader : Text → Type 0
  IsHeader line =
      (is_blank (trimmed_line line) ≡ false) × (is_pbs_header lower (trimmed_line line) ≡ true)

  abbrev pub IsRule : Text → Type 0
  IsRule line =
      (is_blank (trimmed_line line) ≡ false)
      × (is_pbs_header lower (trimmed_line line) ≡ false)
      × (is_rule (trimmed_line line) ≡ true)

module _ (upper : Text → Text) where
  -- The job of a line, in one of the two formats, if the line has one.
  abbrev pub line_job : Bool → Text → Option Job
  line_job wide line =
      if is_blank (trimmed_line line) then none else pbs_job upper wide (fields (trimmed_line line))

  unfoldable pub line_jobs : Bool → List Text → List Job
  line_jobs wide [] = []
  line_jobs wide (line ∷ lines) = onto_job (line_job wide line) (line_jobs wide lines)
